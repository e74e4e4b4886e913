-- ===== src/Pm/Password/Check/Complies.antt =====
-- src/pm/pm_password_gen.c, `validate_password_policy`: what a password is that passes, said of the
-- whole text.
use hiya.Base.{
  ℕ, ◌≤◌, ◌<◌, Bool, true, false, ◌&&◌, ◌||◌, List, [], ◌∷◌, ◌++◌, length, replicate, ltb, leb, ◌≡◌,
  ◌≢◌, ◌↔◌, refl, ap, sym, ◌∙◌, append_assoc, Bool-cases, inl, inr, member, arith, ◌⊎◌, lt→ltb,
}
use hiya.Pm.Errors.{ok, policy, Result, done, fail}
use hiya.Pm.Password.{
  Policy, charset_lowercase, charset_uppercase, charset_digits, charset_symbols, charset_ambiguous,
}
use hiya.Pm.Password.Charset.{no_chars}
use hiya.Pm.Password.Check.{
  Counts, count_char, no_counts, repeats, all_same, too_long_run, refused_char, validate_chars,
  too_few, validate_password_policy,
}
use hiya.Pm.Password.Check.Runs.{
  onto, onto-split, onto-run, all_same-replicate, leb-replicate, all_same→replicate,
  repeats→replicate, repeats-run,
}
use hiya.Pm.Password.Check.Counting.{count, counted_all, counted_all-Adds}

pub record Complies (p : Policy) (pw : List ℕ) : Type 0 where
  pub size : length pw ≡ p.length
  pub clear :
      p.exclude_ambiguous ≡ true
      → (xs ys : List ℕ) (c : ℕ) → pw ≡ xs ++ (c ∷ ys)
      → member c charset_ambiguous ≡ false
  pub permitted :
      (xs ys : List ℕ) (c : ℕ) → pw ≡ xs ++ (c ∷ ys) → member c (no_chars p.excluded_chars) ≡ false
  pub no_pair : p.no_repeating ≡ true → (xs ys : List ℕ) (c : ℕ) → pw ≢ xs ++ (c ∷ c ∷ ys)
  pub no_run :
      0 < p.max_consecutive
      → (xs ys : List ℕ) (c : ℕ) → pw ≢ xs ++ (replicate p.max_consecutive c ++ (c ∷ ys))
  pub uppercase : p.min_uppercase ≤ count charset_uppercase pw
  pub lowercase : p.min_lowercase ≤ count charset_lowercase pw
  pub digits : p.min_digits ≤ count charset_digits pw
  pub symbols : p.min_symbols ≤ count charset_symbols pw

-- Each character passes where it stands.
abbrev Accepted : Policy → List ℕ → List ℕ → Type 0
Accepted p before rest =
    (xs ys : List ℕ) (c : ℕ) → rest ≡ xs ++ (c ∷ ys) → refused_char p (onto xs before) c ≡ false

one_char :
    (b : Bool) (r : Result Counts) (k : Counts)
    → elim b [ true ↦ fail policy | false ↦ r ] ≡ done k
    → (b ≡ false) × (r ≡ done k)
one_char true r k h = cc
one_char false r k h = (refl, h)

validate_chars-Accepted :
    (p : Policy) (before xs ys : List ℕ) (c : ℕ) (n k : Counts)
    → validate_chars p before (xs ++ (c ∷ ys)) n ≡ done k
    → refused_char p (onto xs before) c ≡ false
unfolding validate_chars
validate_chars-Accepted p before [] ys c n k h = (one_char _ _ k h).0
validate_chars-Accepted p before (x ∷ xs) ys c n k h =
    validate_chars-Accepted p (x ∷ before) xs ys c (count_char x n) k (one_char _ _ k h).1

validate_chars-counted_all :
    (p : Policy) (before rest : List ℕ) (n k : Counts)
    → validate_chars p before rest n ≡ done k
    → k ≡ counted_all rest n
unfolding validate_chars
validate_chars-counted_all p before [] n k h = cc
validate_chars-counted_all p before (x ∷ xs) n k h =
    validate_chars-counted_all p (x ∷ before) xs (count_char x n) k (one_char _ _ k h).1

Accepted-validate_chars :
    (p : Policy) (before rest : List ℕ) (n : Counts)
    → Accepted p before rest
    → validate_chars p before rest n ≡ done (counted_all rest n)
unfolding validate_chars
Accepted-validate_chars p before [] n h = refl
Accepted-validate_chars p before (x ∷ xs) n h =
    let now = h [] xs x refl in
    let later =
      Accepted-validate_chars p (x ∷ before) xs (count_char x n)
        (λ xs' ys' c e. h (x ∷ xs') ys' c (ap (◌∷◌ x) e)) in
    rw (validate_chars, now) later

pub and-false : (a b : Bool) → ((a ≡ true) → b ≡ false) → (a && b) ≡ false
and-false false b h = refl
and-false true b h = h refl

pub not_true : (b : Bool) → ((b ≡ true) → ⊥) → b ≡ false
not_true false h = refl
not_true true h = absurd (h refl)

or-false : (a b : Bool) → (a || b) ≡ false → (a ≡ false) × (b ≡ false)
or-false false b h = (refl, h)
or-false true b h = cc

run-too_long_run :
    (m c : ℕ) (xs : List ℕ) → 0 < m → too_long_run m (onto (xs ++ replicate m c) []) c ≡ true
run-too_long_run m c xs h =
    let long = leb-replicate m c (onto xs []) in
    let same = all_same-replicate m c (onto xs []) in rw (onto-run m c xs, lt→ltb 0 m h, long, same)

module _ (p : Policy) (pw : List ℕ) where
  Complies-Accepted :
      (xs ys : List ℕ) (c : ℕ)
      → Complies p pw
      → pw ≡ xs ++ (c ∷ ys)
      → refused_char p (onto xs []) c ≡ false
  Complies-Accepted xs ys c h e =
      let a =
        and-false p.exclude_ambiguous (member c charset_ambiguous) (λ on. h.clear on xs ys c e) in
      let b = h.permitted xs ys c e in
      let d = and-false p.no_repeating (repeats (onto xs []) c) (λ on. not_true _ (λ t.
        let (r, same) = repeats→replicate c (onto xs []) t in
        h.no_pair on (onto r []) ys c (e ∙ onto-split 1 c xs r (c ∷ ys) same))) in
      let g =
        and-false (ltb 0 p.max_consecutive)
          (leb p.max_consecutive (length (onto xs [])) && all_same p.max_consecutive (onto xs []) c)
          (λ on. and-false _ _ (λ far. not_true _ (λ t.
            let (r, same) = all_same→replicate p.max_consecutive c (onto xs []) t in
            h.no_run (ground arith) (onto r []) ys c
              (e ∙ onto-split p.max_consecutive c xs r (c ∷ ys) same)))) in
      rw (a, b, d, g)

  refused_char-false :
      (before : List ℕ) (c : ℕ)
      → refused_char p before c ≡ false
      → ((p.exclude_ambiguous && member c charset_ambiguous) ≡ false)
        × (member c (no_chars p.excluded_chars) ≡ false)
        × ((p.no_repeating && repeats before c) ≡ false)
        × (too_long_run p.max_consecutive before c ≡ false)
  refused_char-false before c h =
      let (a, ha) = or-false _ _ h in
      let (b, hb) = or-false _ _ ha in let (d, e) = or-false _ _ hb in (a, b, d, e)

  -- A password whose characters pass and whose counts are enough.
  Accepted-Complies :
      length pw ≡ p.length
      → Accepted p [] pw
      → too_few p (counted_all pw no_counts) ≡ false
      → Complies p pw
  Accepted-Complies size h counts =
      let n = counted_all-Adds pw no_counts in
      record {
        size = size;
        clear = λ on xs ys c e.
            let f = (refused_char-false (onto xs []) c (h xs ys c e)).0 in grind arith;
        permitted = λ xs ys c e. (refused_char-false (onto xs []) c (h xs ys c e)).1;
        no_pair = λ on xs ys c e.
            let same : pw ≡ (xs ++ replicate 1 c) ++ (c ∷ ys) =
              e ∙ sym (append_assoc xs (replicate 1 c) (c ∷ ys)) in
            let f =
              (refused_char-false (onto (xs ++ replicate 1 c) []) c
                (h (xs ++ replicate 1 c) ys c same)).2 in
            grind (arith, repeats-run c xs);
        no_run = λ on xs ys c e.
            let same : pw ≡ (xs ++ replicate p.max_consecutive c) ++ (c ∷ ys) =
              e ∙ sym (append_assoc xs (replicate p.max_consecutive c) (c ∷ ys)) in
            let f =
              (refused_char-false (onto (xs ++ replicate p.max_consecutive c) []) c
                (h (xs ++ replicate p.max_consecutive c) ys c same)).3 in
            grind (arith, run-too_long_run p.max_consecutive c xs on);
        uppercase = ground (arith, n.uppercase);
        lowercase = ground (arith, n.lowercase);
        digits = ground (arith, n.digits);
        symbols = ground (arith, n.symbols);
      }

  Complies-too_few : Complies p pw → too_few p (counted_all pw no_counts) ≡ false
  Complies-too_few h =
      let n = counted_all-Adds pw no_counts in
      ground (
        arith, n.uppercase, n.lowercase, n.digits, n.symbols, h.uppercase, h.lowercase, h.digits,
        h.symbols,
      )

  validate_chars-cases :
      (before rest : List ℕ) (n : Counts)
      → ((k : Counts) × (validate_chars p before rest n ≡ done k))
        ⊎ (validate_chars p before rest n ≡ fail policy)
  unfolding validate_chars
  validate_chars-cases before [] n = inl (n, refl)
  validate_chars-cases before (c ∷ rest) n = elim (Bool-cases (refused_char p before c)) [
    | inl e ↦ inr (rw (validate_chars, e) refl)
    | inr e ↦ rw (validate_chars, e) (validate_chars-cases (c ∷ before) rest (count_char c n))
  ]

  validate_done :
      validate_password_policy pw p ≡ ok
      → (length pw ≡ p.length)
        × ((k : Counts) × (validate_chars p [] pw no_counts ≡ done k) × (too_few p k ≡ false))
  unfolding validate_password_policy
  validate_done h = elim (validate_chars-cases [] pw no_counts) [
    | inl (k, e) ↦ (ground (arith, e), (k, e, ground (arith, e)))
    | inr e ↦ absurd (ground (arith, e))
  ]

  -- validate_password_policy returns PM_OK on exactly the texts that comply with the policy:
  -- the length is the policy's, no character is ambiguous where those are excluded or is an
  -- excluded one, no character stands twice in a row where repeating is forbidden, no run of
  -- one character is longer than max_consecutive where that is positive, and each of the four
  -- sets has at least its minimum of the characters.
  pub validate_password_policy-Complies : (validate_password_policy pw p ≡ ok) ↔ Complies p pw
  unfolding validate_password_policy
  validate_password_policy-Complies = (
    λ h.
        let (size, found) = validate_done h in
        let (k, run, counts) = found in
        let same = validate_chars-counted_all p [] pw no_counts k run in
        Accepted-Complies size
          (λ xs ys c e.
            validate_chars-Accepted p [] xs ys c no_counts k
              (ap (λ t. validate_chars p [] t no_counts) (sym e) ∙ run))
          (ap (too_few p) (sym same) ∙ counts),
    λ h.
        let run =
          Accepted-validate_chars p [] pw no_counts (λ xs ys c e. Complies-Accepted xs ys c h e) in
        let size = h.size in let counts = Complies-too_few h in ground (arith, run, size, counts),
  )
