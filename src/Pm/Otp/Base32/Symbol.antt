-- ===== src/Pm/Otp/Base32/Symbol.antt =====
-- The alphabet of RFC 4648 by its ranges of letters and digits, for `base32_decode` of
-- src/pm/pm_otp.c, which searches it in a string.
use hiya.Base.{
  ℕ, zero, suc, ◌+◌, ◌-◌, ◌<◌, ◌≡◌, ◌∙◌, ap, Bool, ◌&&◌, ◌||◌, List, [], ◌∷◌, ◌++◌, ltb, leb, ◌==◌,
  if◌then◌else◌, Option, none, some, arith,
}
use hiya.Pm.Otp.Base32.{alphabet, position, toupper, is_skipped}

-- The letters of either case stand for 0 to 25 and the digits from 2 to 7 for 26 to 31.
unfoldable pub symbol_value : ℕ → Option ℕ
symbol_value c =
    if leb b'A' c && leb c b'Z'
    then some (c - b'A')
    else if leb b'a' c && leb c b'z'
    then some (c - b'a')
    else if leb b'2' c && leb c b'7'
    then some (c - b'2' + 26)
    else none

-- Padding and white space, which stand for nothing: '=', ' ', a line feed and a carriage return.
unfoldable pub is_blank : ℕ → Bool
is_blank c = c == b'=' || (c == b' ' || (c == 10 || c == 13))

pub is_skipped-is_blank : (c : ℕ) → is_skipped (toupper c) ≡ is_blank c
unfolding is_blank
is_skipped-is_blank c = ground arith

-- `n` characters in a row.
run : ℕ → ℕ → List ℕ
run a zero = []
run a (suc n) = a ∷ run (suc a) n

abbrev farther : ℕ → Option ℕ → Option ℕ
farther n none = none
farther n (some k) = some (n + k)

position_step :
    (c a n : ℕ) (o : Option ℕ)
    → (if c == a
        then some 0
        else elim (if leb (suc a) c && ltb c (suc a + n) then some (c - suc a) else farther n o) [
          | none ↦ none
          | some k ↦ some (suc k)
        ])
      ≡ (if leb a c && ltb c (a + suc n) then some (c - a) else farther (suc n) o)
position_step c a n none = ground arith
position_step c a n (some k) = ground arith

position-run :
    (c a n : ℕ) (xs : List ℕ)
    → position c (run a n ++ xs)
      ≡ (if leb a c && ltb c (a + n) then some (c - a) else farther n (position c xs))
unfolding position run
position-run c a zero xs = at_end (position c xs)
  where
    at_end : (o : Option ℕ) → o ≡ (if leb a c && ltb c (a + 0) then some (c - a) else farther 0 o)
    at_end none = ground arith
    at_end (some k) = ground arith
position-run c a (suc n) xs = rw (position-run c (suc a) n xs) (position_step c a n (position c xs))

-- The search in the string gives the value of the symbol.
pub position-symbol_value : (c : ℕ) → position (toupper c) alphabet ≡ symbol_value c
unfolding symbol_value position run
position-symbol_value c =
    position-run (toupper c) 65 26 (run 50 6 ++ [])
    ∙ ap
        (λ o.
          if leb 65 (toupper c) && ltb (toupper c) 91 then some (toupper c - 65) else farther 26 o)
        (position-run (toupper c) 50 6 [])
    ∙ ground arith

-- What a value is below.
abbrev pub Below : ℕ → Option ℕ → Type 0
Below n none = Unit {0}
Below n (some v) = v < n

pub symbol_value-Below : (c : ℕ) → Below 32 (symbol_value c)
unfolding symbol_value
symbol_value-Below c = ground arith
