-- ===== src/Pm/Password/Generate.antt =====
-- src/pm/pm_password_gen.c: `pm_password_generate`, `pm_password_generate_best`, `pm_pin_generate` and
-- `pm_password_generate_pattern`. A result has the text and the place of the source after it. What
-- `pm_password_assess_strength` gives, which calls the zxcvbn library, is an argument.
pub mod Sound
pub mod Chars
pub mod Live
pub mod Best
use hiya.Base.{
  ℕ, zero, suc, ◌+◌, ◌%◌, Bool, true, false, not, ◌||◌, List, [], ◌∷◌, length, get_or, set, take,
  ltb, ◌==◌, if◌then◌else◌, Option, none, some,
}
use hiya.Pm.Errors.{PmError, ok, policy, invalid_param, nomem, Result, done, fail, and_then}
use hiya.Pm.Password.{
  Policy, Source, secure_random, charset_lowercase, charset_uppercase, charset_digits,
  charset_symbols, charset_vowels, charset_consonants,
}
use hiya.Pm.Password.Charset.{no_chars, build_charset_string}
use hiya.Pm.Password.Check.{validate_password_policy}

abbrev pub is_ok : PmError → Bool
is_ok ok = true
is_ok rc = false

-- A loop that draws a byte for each character.
unfoldable pub draw_chars : (ℕ → ℕ) → Source → ℕ → ℕ → Result (List ℕ)
draw_chars pick source n zero = done []
draw_chars pick source n (suc k) =
    and_then (secure_random source n)
      (λ b. and_then (draw_chars pick source (suc n) k) (λ rest. done (pick b ∷ rest)))

-- `charset[rand_byte % charset_len]`
abbrev pub char_at : List ℕ → ℕ → ℕ
char_at cs b = get_or cs (b % length cs) 0

-- The loop over the required characters; a failure of the source ends it.
unfoldable pub put_required : Source → ℕ → ℕ → List ℕ → List ℕ → List ℕ × ℕ
put_required source size n [] pwd = (pwd, n)
put_required source size n (r ∷ rest) pwd = elim (secure_random source n) [
  | fail rc ↦ (pwd, n)
  | done b ↦ put_required source size (suc n) rest (set pwd (b % size) r)
]

abbrev pub max_attempts : ℕ
max_attempts = 1000

-- The loop over the attempts; `pwd` is what the attempt before has left.
unfoldable pub attempts : Source → Policy → List ℕ → ℕ → ℕ → List ℕ → Result (List ℕ × ℕ)
attempts source p cs n zero pwd = done (pwd, n)
attempts source p cs n (suc k) pwd = and_then (draw_chars (char_at cs) source n p.length) (λ drawn.
    let after = n + p.length in
    elim (is_ok (validate_password_policy drawn p)) [
      | true ↦
          done
            (put_required source p.length after (take p.length (no_chars p.required_chars)) drawn)
      | false ↦ attempts source p cs after k drawn
    ])

abbrev pub final_check : Policy → List ℕ × ℕ → Result (List ℕ × ℕ)
final_check p (pwd, n) =
    if is_ok (validate_password_policy pwd p) then done (pwd, n) else fail policy

abbrev pub with_charset : Bool → Source → ℕ → Policy → List ℕ → Result (List ℕ × ℕ)
with_charset room source n p cs =
    if length cs == 0
    then fail invalid_param
    else if not room
    then fail nomem
    else and_then (attempts source p cs n max_attempts []) (final_check p)

-- `pm_password_generate`; the two Booleans say whether its allocations succeed.
unfoldable pub password_generate : Bool → Bool → Source → ℕ → Policy → Result (List ℕ × ℕ)
password_generate room_charset room source n p =
    if ltb p.length 1 || ltb 128 p.length
    then fail invalid_param
    else and_then (build_charset_string room_charset p) (with_charset room source n p)

-- The candidates, one after another, each with memory enough.
unfoldable pub candidates : Source → ℕ → Policy → ℕ → Result (List (List ℕ))
candidates source n p zero = done []
candidates source n p (suc k) =
    and_then (password_generate true true source n p)
      (λ one. and_then (candidates source one.1 p k) (λ rest. done (one.0 ∷ rest)))

-- The strongest so far and its entropy, after a candidate with this assessment.
abbrev pub stronger : Option ℕ → List ℕ → Option (List ℕ) × ℕ → Option (List ℕ) × ℕ
stronger none c best = best
stronger (some e) c best = if ltb best.1 e then (some c, e) else best

unfoldable pub strongest :
    (List ℕ → Option ℕ) → List (List ℕ) → Option (List ℕ) × ℕ → Option (List ℕ) × ℕ
strongest entropy [] best = best
strongest entropy (c ∷ cs) best = strongest entropy cs (stronger (entropy c) c best)

abbrev pub or_first : List (List ℕ) → Option (List ℕ) → Result (List ℕ)
or_first cs (some best) = done best
or_first [] none = fail invalid_param
or_first (c ∷ cs) none = done c

abbrev pub copied : Bool → List ℕ → Result (List ℕ)
copied room best = if room then done best else fail nomem

-- `pm_password_generate_best`; the two Booleans say whether the list of the candidates and the copy at
-- the end find memory.
unfoldable pub password_generate_best :
    Bool → Bool → (List ℕ → Option ℕ) → Source → ℕ → Policy → ℕ → Result (List ℕ)
password_generate_best room_list room_copy entropy source n p count =
    if count == 0 || ltb 100 count
    then fail invalid_param
    else if not room_list
    then fail nomem
    else and_then (candidates source n p count)
        (λ cs. and_then (or_first cs (strongest entropy cs (none, 0)).0) (copied room_copy))

-- `pm_pin_generate`.
unfoldable pub pin_generate : Bool → Source → ℕ → ℕ → Result (List ℕ)
pin_generate room source n length =
    if ltb length 4 || ltb 12 length
    then fail invalid_param
    else if not room
    then fail nomem
    else draw_chars (λ b. b'0' + b % 10) source n length

-- The `switch` on a character of the pattern.
unfoldable pub pattern_char : ℕ → ℕ → ℕ
pattern_char c b =
    if c == b'L'
    then char_at charset_uppercase b
    else if c == b'l'
    then char_at charset_lowercase b
    else if c == b'n'
    then char_at charset_digits b
    else if c == b's'
    then char_at charset_symbols b
    else if c == b'v'
    then char_at charset_vowels b
    else if c == b'c'
    then char_at charset_consonants b
    else c

unfoldable pub pattern_chars : Source → ℕ → List ℕ → Result (List ℕ)
pattern_chars source n [] = done []
pattern_chars source n (c ∷ cs) =
    and_then (secure_random source n)
      (λ b. and_then (pattern_chars source (suc n) cs) (λ rest. done (pattern_char c b ∷ rest)))

-- `pm_password_generate_pattern`.
unfoldable pub password_generate_pattern : Bool → Source → ℕ → List ℕ → Result (List ℕ)
password_generate_pattern room source n pattern =
    if length pattern == 0 || ltb 64 (length pattern)
    then fail invalid_param
    else if not room
    then fail nomem
    else pattern_chars source n pattern
