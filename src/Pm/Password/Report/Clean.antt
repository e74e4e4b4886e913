-- ===== src/Pm/Password/Report/Clean.antt =====
-- src/pm/pm_password_gen.c, `pm_password_check_policy`: which passwords have an empty report.
use hiya.Base.{
  ℕ, ◌+◌, ◌≤◌, ◌<◌, Bool, true, false, ◌&&◌, List, ◌∷◌, ◌++◌, length, ltb, member, ◌≡◌, ◌≢◌, arith,
}
use hiya.Pm.Password.{
  Policy, charset_lowercase, charset_uppercase, charset_digits, charset_symbols, charset_ambiguous,
}
use hiya.Pm.Password.Check.{Counts, repeats}
use hiya.Pm.Password.Check.Counting.{count}
use hiya.Pm.Password.Check.Complies.{Complies}
use hiya.Pm.Password.Report.{err_size}

-- What the report does not object to: it looks at neither the excluded characters nor the longest run.
pub record Clean (p : Policy) (pw : List ℕ) : Type 0 where
  pub long : p.length ≤ length pw
  pub clear :
      p.exclude_ambiguous ≡ true
      → (xs ys : List ℕ) (c : ℕ) → pw ≡ xs ++ (c ∷ ys)
      → member c charset_ambiguous ≡ false
  pub no_pair : p.no_repeating ≡ true → (xs ys : List ℕ) (c : ℕ) → pw ≢ xs ++ (c ∷ c ∷ ys)
  pub uppercase : p.min_uppercase ≤ count charset_uppercase pw
  pub lowercase : p.min_lowercase ≤ count charset_lowercase pw
  pub digits : p.min_digits ≤ count charset_digits pw
  pub symbols : p.min_symbols ≤ count charset_symbols pw

-- A message that fits in the empty buffer.
abbrev Message : List ℕ → Type 0
Message msg = (0 < length msg) × (length msg + 2 < err_size)

-- The two tests of a character.
abbrev Passes : Policy → List ℕ → ℕ → Type 0
Passes p before c =
    ((p.exclude_ambiguous && member c charset_ambiguous) ≡ false)
    × ((p.no_repeating && repeats before c) ≡ false)

abbrev few : Policy → Counts → Bool × Bool × Bool × Bool
few p n = (
  ltb n.uppercase p.min_uppercase,
  ltb n.lowercase p.min_lowercase,
  ltb n.digits p.min_digits,
  ltb n.symbols p.min_symbols,
)

-- What passes `validate_password_policy`, the report finds clean.
pub Complies-Clean : (p : Policy) (pw : List ℕ) → Complies p pw → Clean p pw
Complies-Clean p pw h = record {
  long = omega (arith, h.size);
  clear = h.clear;
  no_pair = h.no_pair;
  uppercase = h.uppercase;
  lowercase = h.lowercase;
  digits = h.digits;
  symbols = h.symbols;
}
