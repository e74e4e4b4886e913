-- ===== src/Base/Memory.antt =====
-- A C byte buffer as a list, and `memcpy` into it.
use Prim.Native.Nat.{ℕ, zero, suc, ◌+◌, ◌≤◌, ◌<◌}
use mathlib.Core.Path.{◌≡◌, refl, ap}
use mathlib.Core.List.{List, [], ◌∷◌, ◌++◌}
use native.Mathlib.Omega.{arith}
use hiya.Base.Lists.{length, take, drop}

abbrev pub IsByte : ℕ → Type 0
IsByte b = b < 256

-- `memcpy(buf + at, src, len)` with `src` the bytes copied. Past the end of `buf` the result is
-- longer than `buf`: a theorem that the length is kept shows that the copy stays inside.
abbrev pub memcpy : List ℕ → ℕ → List ℕ → List ℕ
memcpy buf zero [] = buf
memcpy [] zero (b ∷ bs) = b ∷ memcpy [] zero bs
memcpy (x ∷ buf) zero (b ∷ bs) = b ∷ memcpy buf zero bs
memcpy [] (suc i) bs = 0 ∷ memcpy [] i bs
memcpy (x ∷ buf) (suc i) bs = x ∷ memcpy buf i bs

pub length-memcpy :
    (buf : List ℕ) (i : ℕ) (bs : List ℕ)
    → i + length bs ≤ length buf
    → length (memcpy buf i bs) ≡ length buf
length-memcpy buf zero [] h = refl
length-memcpy [] zero (b ∷ bs) h = absurd (omega arith)
length-memcpy (x ∷ buf) zero (b ∷ bs) h = ap suc (length-memcpy buf zero bs (omega arith))
length-memcpy [] (suc i) bs h = absurd (omega arith)
length-memcpy (x ∷ buf) (suc i) bs h = ap suc (length-memcpy buf i bs (omega arith))

-- The bytes up to the end of the copy: those before it, then the bytes copied.
pub take-memcpy :
    (buf : List ℕ) (i n : ℕ) (bs : List ℕ)
    → i + length bs ≤ length buf
    → n ≡ i + length bs
    → take n (memcpy buf i bs) ≡ take i buf ++ bs
take-memcpy buf zero zero [] h e = refl
take-memcpy buf zero (suc n) [] h e = absurd (omega arith)
take-memcpy [] zero n (b ∷ bs) h e = absurd (omega arith)
take-memcpy (x ∷ buf) zero zero (b ∷ bs) h e = absurd (omega arith)
take-memcpy (x ∷ buf) zero (suc n) (b ∷ bs) h e =
    ap (◌∷◌ b) (take-memcpy buf zero n bs (omega arith) (omega arith))
take-memcpy [] (suc i) n bs h e = absurd (omega arith)
take-memcpy (x ∷ buf) (suc i) zero bs h e = absurd (omega arith)
take-memcpy (x ∷ buf) (suc i) (suc n) bs h e =
    ap (◌∷◌ x) (take-memcpy buf i n bs (omega arith) (omega arith))

-- A copy leaves every byte behind it alone.
pub drop-memcpy :
    (buf : List ℕ) (i n : ℕ) (bs : List ℕ)
    → i + length bs ≤ n
    → n ≤ length buf
    → drop n (memcpy buf i bs) ≡ drop n buf
drop-memcpy buf zero n [] h e = refl
drop-memcpy [] zero n (b ∷ bs) h e = absurd (omega arith)
drop-memcpy (x ∷ buf) zero zero (b ∷ bs) h e = absurd (omega arith)
drop-memcpy (x ∷ buf) zero (suc n) (b ∷ bs) h e =
    drop-memcpy buf zero n bs (omega arith) (omega arith)
drop-memcpy [] (suc i) n bs h e = absurd (omega arith)
drop-memcpy (x ∷ buf) (suc i) zero bs h e = absurd (omega arith)
drop-memcpy (x ∷ buf) (suc i) (suc n) bs h e = drop-memcpy buf i n bs (omega arith) (omega arith)

-- A copy leaves every byte before it alone.
pub take-memcpy_front :
    (buf : List ℕ) (i n : ℕ) (bs : List ℕ)
    → n ≤ i
    → i ≤ length buf
    → take n (memcpy buf i bs) ≡ take n buf
take-memcpy_front buf i zero bs h l = refl
take-memcpy_front buf zero (suc n) bs h l = absurd (omega arith)
take-memcpy_front [] (suc i) (suc n) bs h l = absurd (omega arith)
take-memcpy_front (x ∷ buf) (suc i) (suc n) bs h l =
    ap (◌∷◌ x) (take-memcpy_front buf i n bs (omega arith) (omega arith))
