-- ===== src/Cbor/Head.antt =====
-- The head of a CBOR item as RFC 8949 §3 describes it, in plain arithmetic: the description that
-- the encoder, the decoder and the raw helpers are compared with.
use hiya.Base.{
  ℕ, zero, suc, ◌+◌, ◌*◌, ◌/◌, ◌%◌, ◌^◌, ◌<◌, ◌≡◌, List, [], ◌∷◌, length, leb, All, IsByte,
  if◌then◌else◌, arith, bit_or, bit_or_disjoint, refl,
}
use hiya.Cbor.{Major, code, code-lt, u8}

-- The `k` low bytes of `v`, most significant first.
abbrev pub be : ℕ → ℕ → List ℕ
be zero v = []
be (suc k) v = v / 256 ^ k % 256 ∷ be k v

-- The additional information of the shortest form, and the number of bytes that follow.
unfoldable pub additional : ℕ → ℕ
additional v =
    if leb v 23
    then v
    else if leb v 0xff
    then 24
    else if leb v 0xffff
    then 25
    else if leb v 0xffff_ffff
    then 26
    else 27

unfoldable pub follow : ℕ → ℕ
follow v =
    if leb v 23
    then 0
    else if leb v 0xff
    then 1
    else if leb v 0xffff
    then 2
    else if leb v 0xffff_ffff
    then 4
    else 8

-- The shortest head for the major type and the argument.
unfoldable pub head : Major → ℕ → List ℕ
head mt v = (code mt * 32 + additional v) ∷ be (follow v) v

pub length-be : (k v : ℕ) → length (be k v) ≡ k
length-be zero v = refl
length-be (suc k) v = omega (arith, length-be k v)

pub length-head : (mt : Major) (v : ℕ) → length (head mt v) ≡ 1 + follow v
unfolding head
length-head mt v = omega (arith, length-be (follow v) v)

pub be-IsByte : (k v : ℕ) → All IsByte (be k v)
be-IsByte zero v = omega arith
be-IsByte (suc k) v = (omega arith, be-IsByte k v)

pub head-IsByte : (mt : Major) (v : ℕ) → All IsByte (head mt v)
unfolding head additional
head-IsByte mt v = (ground (arith, code-lt mt), be-IsByte (follow v) v)

-- `(uint8_t)mt << 5 | ai` in C.
pub head_byte :
    (mt : Major) (ai : ℕ) → ai < 32 → bit_or (u8 (code mt * 2 ^ 5)) ai ≡ code mt * 32 + ai
head_byte mt ai h = ground (arith, code-lt mt, bit_or_disjoint 5 (code mt) ai)
