-- ===== src/Pm/Password.antt =====
-- src/pm/pm_password_gen.h and src/pm/pm_password_gen.c: the policies, and the random source. A text is
-- the list of its characters, none of which is NUL. The source gives a byte for each call of
-- `get_secure_random`, or fails; where it stands is a number.
pub mod Charset
pub mod Check
pub mod Generate
pub mod Report
use hiya.Base.{
  ℕ, ◌%◌, ◌^◌, Bool, true, false, not, ◌||◌, List, codes, ltb, ◌==◌, if◌then◌else◌, bit_and, Option,
  none, some,
}
use hiya.Pm.Errors.{PmError, invalid_param, nomem, crypto, Result, done, fail}

abbrev pub charset_lowercase : List ℕ
charset_lowercase = codes "abcdefghijklmnopqrstuvwxyz"

abbrev pub charset_uppercase : List ℕ
charset_uppercase = codes "ABCDEFGHIJKLMNOPQRSTUVWXYZ"

abbrev pub charset_digits : List ℕ
charset_digits = codes "0123456789"

abbrev pub charset_symbols : List ℕ
charset_symbols = codes "!@#$%^&*()_+-=[]{}|;:,.<>?"

abbrev pub charset_ambiguous : List ℕ
charset_ambiguous = codes "0O1Il|"

abbrev pub charset_vowels : List ℕ
charset_vowels = codes "aeiouAEIOU"

abbrev pub charset_consonants : List ℕ
charset_consonants = codes "bcdfghjklmnpqrstvwxyzBCDFGHJKLMNPQRSTVWXYZ"

-- The flags of `pm_charset_flags_t` that the code tests, and their combinations.
abbrev pub flag_lowercase : ℕ
flag_lowercase = 0x01

abbrev pub flag_uppercase : ℕ
flag_uppercase = 0x02

abbrev pub flag_digits : ℕ
flag_digits = 0x04

abbrev pub flag_symbols : ℕ
flag_symbols = 0x08

abbrev pub flags_alphanum : ℕ
flags_alphanum = 0x07

abbrev pub flags_all : ℕ
flags_all = 0x0f

-- `charset & flag`
abbrev pub has_flag : ℕ → ℕ → Bool
has_flag charset flag = not (bit_and charset flag == 0)

-- `pm_password_policy_t`; a `char *` that is NULL is `none`.
pub record Policy : Type 0 where
  pub length : ℕ
  pub charset : ℕ
  pub min_uppercase : ℕ
  pub min_lowercase : ℕ
  pub min_digits : ℕ
  pub min_symbols : ℕ
  pub exclude_ambiguous : Bool
  pub exclude_similar : Bool
  pub require_all_charsets : Bool
  pub no_repeating : Bool
  pub no_sequential : Bool
  pub custom_charset : Option (List ℕ)
  pub excluded_chars : Option (List ℕ)
  pub required_chars : Option (List ℕ)
  pub max_consecutive : ℕ
  pub pronounceable : Bool
  pub start_with_letter : Bool
  pub end_with_letter : Bool

-- `calloc`
abbrev pub zero_policy : Policy
zero_policy = record {
  length = 0;
  charset = 0;
  min_uppercase = 0;
  min_lowercase = 0;
  min_digits = 0;
  min_symbols = 0;
  exclude_ambiguous = false;
  exclude_similar = false;
  require_all_charsets = false;
  no_repeating = false;
  no_sequential = false;
  custom_charset = none;
  excluded_chars = none;
  required_chars = none;
  max_consecutive = 0;
  pronounceable = false;
  start_with_letter = false;
  end_with_letter = false;
}

-- A preset, with the number that it asks of each kind.
abbrev preset : ℕ → ℕ → ℕ → ℕ → ℕ → Bool → ℕ → Policy
preset size flags letters digits symbols clear run = record zero_policy {
  length = size;
  charset = flags;
  min_uppercase = letters;
  min_lowercase = letters;
  min_digits = digits;
  min_symbols = symbols;
  exclude_ambiguous = clear;
  require_all_charsets = true;
  max_consecutive = run;
}

abbrev pub policy_basic : Policy
policy_basic = preset 12 flags_alphanum 1 1 0 true 2

abbrev pub policy_strong : Policy
policy_strong = record (preset 16 flags_all 2 2 2 true 2) { no_repeating = true }

abbrev pub policy_maximum : Policy
policy_maximum = record (preset 32 flags_all 4 4 4 true 1) {
  no_repeating = true;
  no_sequential = true;
}

abbrev pub policy_wifi : Policy
policy_wifi = preset 20 flags_alphanum 1 1 0 true 3

abbrev pub policy_windows : Policy
policy_windows = preset 14 flags_all 1 1 1 false 2

abbrev pub policy_unix : Policy
policy_unix = record (preset 16 flags_all 2 2 1 true 2) { no_repeating = true }

-- `pm_password_policy_create_default`; its argument says whether `calloc` succeeds.
unfoldable pub policy_create_default : Bool → Result Policy
policy_create_default room = if room then done policy_strong else fail nomem

abbrev pub one_if : Bool → ℕ
one_if b = if b then 1 else 0

abbrev pub secured : Policy → Policy
secured p = record p {
  min_uppercase = one_if (has_flag p.charset flag_uppercase);
  min_lowercase = one_if (has_flag p.charset flag_lowercase);
  min_digits = one_if (has_flag p.charset flag_digits);
  min_symbols = one_if (has_flag p.charset flag_symbols);
  exclude_ambiguous = true;
  require_all_charsets = true;
  max_consecutive = 2;
}

-- `pm_password_policy_create_custom`.
unfoldable pub policy_create_custom : Bool → ℕ → ℕ → Bool → Result Policy
policy_create_custom room length charset secure_defaults =
    let p = record zero_policy { length = length; charset = charset } in
    if ltb length 4 || ltb 128 length
    then fail invalid_param
    else if not room
    then fail nomem
    else if secure_defaults
    then done (secured p)
    else done p

-- What the generator gives at each place.
abbrev pub Source : Type 0
Source = ℕ → Option ℕ

abbrev pub byte_of : Option ℕ → Result ℕ
byte_of none = fail crypto
byte_of (some b) = done (b % 2 ^ 8)

-- `get_secure_random` for one byte, at the place `n`.
abbrev pub secure_random : Source → ℕ → Result ℕ
secure_random source n = byte_of (source n)
