-- ===== src/Pm/Password/Generate/Live.antt =====
-- src/pm/pm_password_gen.c, `pm_password_generate`: a compliant draw among the attempts is enough.
use hiya.Base.{
  ℕ, zero, suc, ◌+◌, ◌*◌, ◌%◌, ◌^◌, take, ◌≤◌, ◌<◌, true, false, ◌||◌, List, [], ◌∷◌, length, ltb,
  ◌==◌, some, ◌≡◌, ◌≢◌, refl, ap, ◌∙◌, sym, Bool-cases, inl, inr, arith,
}
use hiya.Pm.Errors.{ok, done, and_then}
use hiya.Pm.Password.{Policy, Source}
use hiya.Pm.Password.Charset.{no_chars, build_charset_string}
use hiya.Pm.Password.Check.{validate_password_policy}
use hiya.Pm.Password.Generate.{
  is_ok, draw_chars, char_at, put_required, attempts, password_generate, max_attempts,
}

-- The source never fails.
abbrev pub Steady : Source → Type 0
Steady source = (i : ℕ) → (b : ℕ) × (source i ≡ some b)

draw_chars-total :
    (pick : ℕ → ℕ) (source : Source) (n k : ℕ)
    → Steady source
    → (xs : List ℕ) × (draw_chars pick source n k ≡ done xs)
unfolding draw_chars
draw_chars-total pick source n zero h = ([], refl)
draw_chars-total pick source n (suc k) h =
    let (b, e) = h n in
    let (rest, e') = draw_chars-total pick source (suc n) k h in
    (pick (b % 2 ^ 8) ∷ rest, rw (draw_chars, e, e') refl)

put_required-none :
    (source : Source) (size n m : ℕ) (rs pwd : List ℕ)
    → rs ≡ []
    → put_required source size n (take m rs) pwd ≡ (pwd, n)
unfolding put_required
put_required-none source size n zero rs pwd h = refl
put_required-none source size n (suc m) [] pwd h = refl
put_required-none source size n (suc m) (r ∷ rs) pwd h = cc

nonempty : (cs : List ℕ) → cs ≢ [] → (length cs == 0) ≡ false
nonempty [] h = absurd (h refl)
nonempty (c ∷ cs) h = ground arith

module _ (source : Source) (p : Policy) (cs : List ℕ) where
  attempts-pass :
      (n fuel : ℕ) (last now : List ℕ)
      → draw_chars (char_at cs) source n p.length ≡ done now
      → is_ok (validate_password_policy now p) ≡ true
      → no_chars p.required_chars ≡ []
      → attempts source p cs n (suc fuel) last ≡ done (now, n + p.length)
  unfolding attempts
  attempts-pass n fuel last now e t h =
      rw (attempts, e, and_then)
        (rw
          (
            t,
            put_required-none source p.length (n + p.length) p.length (no_chars p.required_chars)
                now h,
          )
          refl)

  attempts-miss :
      (n fuel : ℕ) (last now : List ℕ)
      → draw_chars (char_at cs) source n p.length ≡ done now
      → is_ok (validate_password_policy now p) ≡ false
      → attempts source p cs n (suc fuel) last ≡ attempts source p cs (n + p.length) fuel now
  unfolding attempts
  attempts-miss n fuel last now e t = rw (attempts, e, and_then) (rw t refl)

  -- The attempts end at a draw that passes.
  attempts-live :
      (n fuel k : ℕ) (last pwd : List ℕ)
      → Steady source
      → no_chars p.required_chars ≡ []
      → k < fuel
      → draw_chars (char_at cs) source (n + k * p.length) p.length ≡ done pwd
      → validate_password_policy pwd p ≡ ok
      → (r : List ℕ × ℕ) × ((attempts source p cs n fuel last ≡ done r)
          × (is_ok (validate_password_policy r.0 p) ≡ true))
  attempts-live n zero k last pwd h none_required within drawn good = absurd (omega arith)
  attempts-live n (suc fuel) zero last pwd h none_required within drawn good =
      let same : n + 0 * p.length ≡ n = omega arith in
      let first = ap (λ t. draw_chars (char_at cs) source t p.length) (sym same) ∙ drawn in
      let passed = ap is_ok good in
      ((pwd, n + p.length), (attempts-pass n fuel last pwd first passed none_required, passed))
  attempts-live n (suc fuel) (suc k) last pwd h none_required within drawn good =
      let (now, e) = draw_chars-total (char_at cs) source n p.length h in
      elim (Bool-cases (is_ok (validate_password_policy now p))) [
        | inl t ↦ ((now, n + p.length), (attempts-pass n fuel last now e t none_required, t))
        | inr t ↦
            let same : (n + p.length) + k * p.length ≡ n + suc k * p.length = omega arith in
            let later = ap (λ m. draw_chars (char_at cs) source m p.length) same ∙ drawn in
            let (r, rest) =
              attempts-live (n + p.length) fuel k now pwd h none_required (omega arith) later
                good in
            (r, (attempts-miss n fuel last now e t ∙ rest.0, rest.1))
      ]

  -- Where the length is from 1 to 128, the character set is built and not empty, no character
  -- is required, memory is enough, the source never fails, and the draw of one of the 1000
  -- attempts passes validate_password_policy, pm_password_generate returns a password.
  pub password_generate-live :
      (n k : ℕ) (pwd : List ℕ)
      → 0 < p.length
      → p.length ≤ 128
      → build_charset_string true p ≡ done cs
      → cs ≢ []
      → Steady source
      → no_chars p.required_chars ≡ []
      → k < max_attempts
      → draw_chars (char_at cs) source (n + k * p.length) p.length ≡ done pwd
      → validate_password_policy pwd p ≡ ok
      → (r : List ℕ × ℕ) × (password_generate true true source n p ≡ done r)
  unfolding password_generate
  password_generate-live n k pwd low high built full h none_required within drawn good =
      let (r, found) = attempts-live n max_attempts k [] pwd h none_required within drawn good in
      let bounds : (ltb p.length 1 || ltb 128 p.length) ≡ false = ground arith in
      let some_char : (length cs == 0) ≡ false = nonempty cs full in
      (r, rw (bounds, built, some_char, found.0, found.1) refl)
