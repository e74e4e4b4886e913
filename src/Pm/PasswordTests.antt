-- ===== src/Pm/PasswordTests.antt =====
-- Concrete policies and passwords: a strong password, and a source that counts.
use hiya.Base.{
  ℕ, ◌*◌, ◌≡◌, ◌↔◌, refl, true, List, [], ◌∷◌, ◌++◌, Option, none, some, codes, All, arith,
}
use hiya.Pm.Errors.{ok, policy, done}
use hiya.Pm.Password.{Policy, Source, zero_policy, policy_strong}
use hiya.Pm.Password.Charset.{
  left_chars, remove_each, remove_first, kinds, build_charset_string, BuiltAs,
  build_charset_string-BuiltAs,
}
use hiya.Pm.Password.Check.{validate_password_policy, validate_chars, count_char}
use hiya.Pm.Password.Check.Complies.{Complies, validate_password_policy-Complies}
use hiya.Pm.Password.Generate.{
  draw_chars, pattern_chars, pattern_char, password_generate, password_generate_best,
  password_generate_pattern,
}
use hiya.Pm.Password.Generate.Sound.{Returns, password_generate-Complies}
use hiya.Pm.Password.Generate.Chars.{Wanted, password_generate-Wanted}
use hiya.Pm.Password.Generate.Live.{password_generate-live}
use hiya.Pm.Password.Generate.Best.{Chosen, password_generate_best-Strongest}
use hiya.Pm.Password.Report.{
  Fits, append_err, note_char, note_chars, note_counts, report, check_policy, report-Fits,
}
use hiya.Pm.Password.Report.Clean.{Clean}

abbrev small : Policy
small = record zero_policy {
  length = 4;
  charset = 0x05;
  min_lowercase = 1;
  exclude_ambiguous = true;
  excluded_chars = some (codes "abc");
  no_repeating = true;
  max_consecutive = 2;
}

abbrev counting : Source
counting n = some (n * 7)

abbrev strong_password : List ℕ
strong_password = codes "Ab3!Cd4#Ef5%Gh6&"

test_strong : validate_password_policy strong_password policy_strong ≡ ok
unfolding validate_password_policy validate_chars count_char
test_strong = refl

test_repeated : validate_password_policy (codes "dd2e") small ≡ policy
unfolding validate_password_policy validate_chars
test_repeated = refl

test_unset_pattern : password_generate_pattern true counting 0 (codes "lAx") ≡ done (codes "aAx")
unfolding password_generate_pattern pattern_chars pattern_char
test_unset_pattern = refl

test_messages : check_policy true (codes "00") small ≡ (
  codes "too short; contains ambiguous character; contains ambiguous character; "
      ++ codes "contains repeating characters; too few lowercase letters",
  policy,
)
unfolding check_policy report note_chars note_char note_counts append_err count_char
test_messages = refl

build_charset_string-BuiltAs_example : BuiltAs small true (build_charset_string true small)
build_charset_string-BuiltAs_example = build_charset_string-BuiltAs true small refl

validate_password_policy-Complies_example :
    (validate_password_policy strong_password policy_strong ≡ ok)
    ↔ Complies policy_strong strong_password
validate_password_policy-Complies_example =
    validate_password_policy-Complies policy_strong strong_password

password_generate-Complies_example :
    Returns (λ r. Complies small r.0) (password_generate true true counting 0 small)
password_generate-Complies_example = password_generate-Complies true true counting 0 small

password_generate-Wanted_example :
    Returns (λ r. All (Wanted small) r.0) (password_generate true true counting 0 small)
password_generate-Wanted_example = password_generate-Wanted true true counting 0 small refl

abbrev small_charset : List ℕ
small_charset = codes "defghijkmnopqrstuvwxyz23456789"

password_generate-live_example :
    (r : List ℕ × ℕ) × (password_generate true true counting 0 small ≡ done r)
unfolding build_charset_string draw_chars validate_password_policy validate_chars left_chars
    remove_each remove_first kinds count_char
password_generate-live_example =
    password_generate-live counting small small_charset 0 0 (codes "dksz") (omega arith)
      (omega arith) refl (λ e. cc) (λ i. (i * 7, refl)) refl (omega arith) refl refl

abbrev first_code : List ℕ → Option ℕ
first_code [] = none
first_code (c ∷ cs) = some c

password_generate_best-Strongest_example :
    Returns
      (Chosen first_code counting 0 small 3)
      (password_generate_best true true first_code counting 0 small 3)
password_generate_best-Strongest_example =
    password_generate_best-Strongest true true first_code counting 0 small 3

report-Fits_example : Fits (report (codes "0011") policy_strong)
report-Fits_example = report-Fits (codes "0011") policy_strong
