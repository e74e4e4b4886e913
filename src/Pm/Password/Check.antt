-- ===== src/Pm/Password/Check.antt =====
-- src/pm/pm_password_gen.c, `validate_password_policy`: the check of a password against its policy.
-- The counts are numbers: the callers' passwords have at most 128 characters.
pub mod Counting
pub mod Runs
pub mod Complies
use hiya.Base.{
  ℕ, zero, suc, ◌+◌, ◌≤◌, ◌<◌, Bool, true, false, not, ◌&&◌, ◌||◌, List, [], ◌∷◌, ◌++◌, length,
  replicate, ltb, leb, ◌==◌, if◌then◌else◌, ◌≡◌, ◌≢◌, ◌↔◌, refl, ap, sym, ◌∙◌, append_assoc,
  Bool-cases, inl, inr, member, arith, All,
}
use hiya.Pm.Errors.{PmError, ok, policy, Result, done, fail}
use hiya.Pm.Password.{
  Policy, charset_lowercase, charset_uppercase, charset_digits, charset_symbols, charset_ambiguous,
}
use hiya.Pm.Password.Charset.{no_chars}

pub record Counts : Type 0 where
  pub uppercase : ℕ
  pub lowercase : ℕ
  pub digits : ℕ
  pub symbols : ℕ

abbrev pub no_counts : Counts
no_counts = record { uppercase = 0; lowercase = 0; digits = 0; symbols = 0 }

-- One character, by the first set that has it.
unfoldable pub count_char : ℕ → Counts → Counts
count_char c n =
    if member c charset_lowercase
    then record n { lowercase = n.lowercase + 1 }
    else if member c charset_uppercase
    then record n { uppercase = n.uppercase + 1 }
    else if member c charset_digits
    then record n { digits = n.digits + 1 }
    else if member c charset_symbols
    then record n { symbols = n.symbols + 1 }
    else n

-- `password[i - 1] == c` for a place that is not the first. `before` has the characters from
-- `password[i - 1]` down.
abbrev pub repeats : List ℕ → ℕ → Bool
repeats [] c = false
repeats (b ∷ before) c = c == b

-- The inner loop on `j`.
abbrev pub all_same : ℕ → List ℕ → ℕ → Bool
all_same zero before c = true
all_same (suc j) [] c = false
all_same (suc j) (b ∷ before) c = b == c && all_same j before c

abbrev pub too_long_run : ℕ → List ℕ → ℕ → Bool
too_long_run most before c = ltb 0 most && (leb most (length before) && all_same most before c)

-- The four checks of a character.
abbrev pub refused_char : Policy → List ℕ → ℕ → Bool
refused_char p before c =
    (p.exclude_ambiguous && member c charset_ambiguous)
    || (member c (no_chars p.excluded_chars)
        || ((p.no_repeating && repeats before c) || too_long_run p.max_consecutive before c))

unfoldable pub validate_chars : Policy → List ℕ → List ℕ → Counts → Result Counts
validate_chars p before [] n = done n
validate_chars p before (c ∷ rest) n = elim (refused_char p before c) [
  | true ↦ fail policy
  | false ↦ validate_chars p (c ∷ before) rest (count_char c n)
]

abbrev pub too_few : Policy → Counts → Bool
too_few p n =
    ltb n.uppercase p.min_uppercase
    || (ltb n.lowercase p.min_lowercase
        || (ltb n.digits p.min_digits || ltb n.symbols p.min_symbols))

abbrev pub enough : Policy → Result Counts → PmError
enough p (fail rc) = rc
enough p (done n) = if too_few p n then policy else ok

-- `validate_password_policy`.
unfoldable pub validate_password_policy : List ℕ → Policy → PmError
validate_password_policy password p =
    if length password == p.length
    then enough p (validate_chars p [] password no_counts)
    else policy
