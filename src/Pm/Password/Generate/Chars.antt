-- ===== src/Pm/Password/Generate/Chars.antt =====
-- src/pm/pm_password_gen.c: the characters of the generator's texts.
use hiya.Base.{
  ℕ, zero, suc, ◌+◌, ◌%◌, ◌≤◌, ◌<◌, Bool, true, false, ◌||◌, List, [], ◌∷◌, length, get_or, set,
  take, ltb, ◌==◌, none, ◌≡◌, refl, ap, if-Is, if-Is_split, not, arith, All, member, Bool-cases,
  inl, inr,
}
use mathlib.Core.Path.{subst}
use hiya.Pm.Errors.{fail, done, nomem, invalid_param, policy}
use hiya.Pm.Password.{Policy, Source, secure_random}
use hiya.Pm.Password.Charset.{no_chars, admits, build_charset_string-BuiltAs, BuiltAs}
use hiya.Pm.Password.Check.{validate_password_policy}
use hiya.Pm.Password.Generate.{
  is_ok, draw_chars, char_at, put_required, attempts, final_check, password_generate, max_attempts,
  pin_generate,
}
use hiya.Pm.Password.Generate.Sound.{
  Returns, Returns-at, Returns-map, Result-cases, and_then-Returns, generate-Returns,
}

module _ (P : ℕ → Type 0) where
  pub draw_chars-All :
      (pick : ℕ → ℕ) (source : Source) (n k : ℕ)
      → ((b : ℕ) → P (pick b))
      → Returns (λ xs. (length xs ≡ k) × All P xs) (draw_chars pick source n k)
  unfolding draw_chars
  draw_chars-All pick source n zero h = (refl, tt)
  draw_chars-All pick source n (suc k) h = and_then-Returns _ (secure_random source n) _ (λ b e.
      and_then-Returns _ (draw_chars pick source (suc n) k) _ (λ rest e'.
        let (size, each) = Returns-at _ _ rest (draw_chars-All pick source (suc n) k h) e' in
        (ap suc size, (h b, each))))

  set-All : (xs : List ℕ) (i v : ℕ) → All P xs → P v → All P (set xs i v)
  set-All [] i v h q = tt
  set-All (x ∷ xs) zero v (p, h) q = (q, h)
  set-All (x ∷ xs) (suc i) v (p, h) q = (p, set-All xs i v h q)

  take-All : (n : ℕ) (xs : List ℕ) → All P xs → All P (take n xs)
  take-All zero xs h = tt
  take-All (suc n) [] h = tt
  take-All (suc n) (x ∷ xs) (p, h) = (p, take-All n xs h)

  members-All : (xs : List ℕ) → ((c : ℕ) → member c xs ≡ true → P c) → All P xs
  members-All [] h = tt
  members-All (x ∷ xs) h = (h x (ground arith), members-All xs (λ c e. h c (ground (arith, e))))

  put_required-All :
      (source : Source) (size n : ℕ) (rs pwd : List ℕ)
      → All P rs
      → All P pwd
      → All P (put_required source size n rs pwd).0
  unfolding put_required
  put_required-All source size n [] pwd h q = q
  put_required-All source size n (r ∷ rs) pwd (p, h) q =
      elim (Result-cases (secure_random source n)) [
        | inl (rc, e) ↦ rw (put_required, e) q
        | inr (b, e) ↦
            rw (put_required, e)
              (put_required-All source size (suc n) rs (set pwd (b % size) r) h
                (set-All pwd (b % size) r q p))
      ]

  attempts-All :
      (source : Source) (p : Policy) (cs : List ℕ) (n k : ℕ) (pwd : List ℕ)
      → ((b : ℕ) → P (char_at cs b))
      → All P (no_chars p.required_chars)
      → All P pwd
      → Returns (λ r. All P r.0) (attempts source p cs n k pwd)
  unfolding attempts
  attempts-All source p cs n zero pwd pick req h = h
  attempts-All source p cs n (suc k) pwd pick req h =
      and_then-Returns (λ r. All P r.0) (draw_chars (char_at cs) source n p.length) _
        (λ drawn e.
          let each =
            (Returns-at _ _ drawn (draw_chars-All (char_at cs) source n p.length pick) e).1 in
          elim (Bool-cases (is_ok (validate_password_policy drawn p))) [
            | inl t ↦ rw t (
                put_required-All source p.length (n + p.length)
                  (take p.length (no_chars p.required_chars)) drawn
                  (take-All p.length (no_chars p.required_chars) req) each)
            | inr t ↦ rw t (attempts-All source p cs (n + p.length) k drawn pick req each)
          ])

get_or-member : (cs : List ℕ) (i d : ℕ) → i < length cs → member (get_or cs i d) cs ≡ true
get_or-member [] i d h = absurd (omega arith)
get_or-member (x ∷ cs) zero d h = ground arith
get_or-member (x ∷ cs) (suc i) d h = ground (arith, get_or-member cs i d (omega arith))

pub char_at-member :
    (cs : List ℕ) (b : ℕ) → (length cs == 0) ≡ false → member (char_at cs b) cs ≡ true
char_at-member cs b h = get_or-member cs (b % length cs) 0 (ground arith)

-- A character that the policy admits or requires.
abbrev pub Wanted : Policy → ℕ → Type 0
Wanted p c = (admits p c || member c (no_chars p.required_chars)) ≡ true

final_check-Returns :
    (P : List ℕ × ℕ → Type 0) (p : Policy) (r : List ℕ × ℕ) → P r → Returns P (final_check p r)
final_check-Returns P p r h =
    if-Is (Returns P) (is_ok (validate_password_policy r.0 p)) (done r) (fail policy) h tt

-- For a policy without a custom set, each character of a password that pm_password_generate
-- returns is one that the policy admits by its flags and exclusions or one of the required
-- characters.
pub password_generate-Wanted :
    (room_charset room : Bool) (source : Source) (n : ℕ) (p : Policy)
    → p.custom_charset ≡ none
    → Returns (λ r. All (Wanted p) r.0) (password_generate room_charset room source n p)
password_generate-Wanted room_charset room source n p none_custom =
    generate-Returns (λ r. All (Wanted p) r.0) room_charset room source n p
      (λ cs r e z a.
        let built = build_charset_string-BuiltAs room_charset p none_custom in
        let (exact, full) = subst (BuiltAs p room_charset) e built in
        let each =
          attempts-All (Wanted p) source p cs n max_attempts []
            (λ b. let q = char_at-member cs b z in let w = exact.all (char_at cs b) in grind arith)
            (members-All (Wanted p) (no_chars p.required_chars) (λ c m. grind arith)) tt in
        final_check-Returns _ p r (Returns-at _ _ r each a))

abbrev pub Pin : ℕ → List ℕ → Type 0
Pin k pin = (4 ≤ k) × (k ≤ 12) × (length pin ≡ k) × All (λ c. (b'0' ≤ c) × (c ≤ b'9')) pin

-- A PIN that pm_pin_generate returns has the length asked for, which is from 4 to 12, and
-- consists of the digits 0 to 9.
pub pin_generate-digits :
    (room : Bool) (source : Source) (n k : ℕ) → Returns (Pin k) (pin_generate room source n k)
unfolding pin_generate
pin_generate-digits room source n k =
    if-Is_split (Returns (Pin k)) (ltb k 4 || ltb 12 k) (fail invalid_param) _ (λ e. tt)
      (λ e.
        if-Is (Returns (Pin k)) (not room) (fail nomem) (draw_chars (λ b. b'0' + b % 10) source n k)
          tt
          (Returns-map _ (Pin k) (draw_chars (λ b. b'0' + b % 10) source n k)
            (λ pin h. (ground arith, ground arith, h.0, h.1))
            (draw_chars-All (λ c. (48 ≤ c) × (c ≤ 57)) (λ b. b'0' + b % 10) source n k
              (λ b. (omega arith, omega arith)))))
