-- ===== src/Pm/Password/Check/Counting.antt =====
-- src/pm/pm_password_gen.c, `validate_password_policy`: its counts are those of the four sets, as no
-- character is in two of them.
use hiya.Base.{
  ℕ, ◌+◌, Bool, true, false, not, ◌&&◌, List, [], ◌∷◌, if◌then◌else◌, ◌≡◌, refl, member, arith,
}
use hiya.Pm.Password.{charset_lowercase, charset_uppercase, charset_digits, charset_symbols}
use hiya.Pm.Password.Check.{Counts, count_char}

-- How many characters of the password are in the set.
unfoldable pub count : List ℕ → List ℕ → ℕ
count cs [] = 0
count cs (x ∷ xs) = (if member x cs then 1 else 0) + count cs xs

abbrev pub counted_all : List ℕ → Counts → Counts
counted_all [] n = n
counted_all (x ∷ xs) n = counted_all xs (count_char x n)

disjoint : List ℕ → List ℕ → Bool
disjoint [] ys = true
disjoint (x ∷ xs) ys = not (member x ys) && disjoint xs ys

disjoint-member :
    (c : ℕ) (xs ys : List ℕ) → disjoint xs ys ≡ true → (member c xs && member c ys) ≡ false
unfolding disjoint
disjoint-member c [] ys h = refl
disjoint-member c (x ∷ xs) ys h = ground (arith, disjoint-member c xs ys)

lower-upper : disjoint charset_lowercase charset_uppercase ≡ true
unfolding disjoint
lower-upper = refl

lower-digits : disjoint charset_lowercase charset_digits ≡ true
unfolding disjoint
lower-digits = refl

lower-symbols : disjoint charset_lowercase charset_symbols ≡ true
unfolding disjoint
lower-symbols = refl

upper-digits : disjoint charset_uppercase charset_digits ≡ true
unfolding disjoint
upper-digits = refl

upper-symbols : disjoint charset_uppercase charset_symbols ≡ true
unfolding disjoint
upper-symbols = refl

digits-symbols : disjoint charset_digits charset_symbols ≡ true
unfolding disjoint
digits-symbols = refl

-- The tests of one character, when at most one of them holds.
abbrev pick : Bool → Bool → Bool → Bool → Counts → Counts
pick l u d s n =
    if l
    then record n { lowercase = n.lowercase + 1 }
    else if u
    then record n { uppercase = n.uppercase + 1 }
    else if d
    then record n { digits = n.digits + 1 }
    else if s
    then record n { symbols = n.symbols + 1 }
    else n

abbrev one : Bool → ℕ
one b = if b then 1 else 0

pub record Adds (m n : Counts) (l u d s : ℕ) : Type 0 where
  pub lowercase : n.lowercase ≡ m.lowercase + l
  pub uppercase : n.uppercase ≡ m.uppercase + u
  pub digits : n.digits ≡ m.digits + d
  pub symbols : n.symbols ≡ m.symbols + s

pick-Adds :
    (l u d s : Bool) (n : Counts)
    → (l && u) ≡ false
    → (l && d) ≡ false
    → (l && s) ≡ false
    → (u && d) ≡ false
    → (u && s) ≡ false
    → (d && s) ≡ false
    → Adds n (pick l u d s n) (one l) (one u) (one d) (one s)
pick-Adds l u d s n h1 h2 h3 h4 h5 h6 = record {
  lowercase = ground arith;
  uppercase = ground arith;
  digits = ground arith;
  symbols = ground arith;
}

count_char-Adds :
    (c : ℕ) (n : Counts)
    → Adds n
        (count_char c n)
        (one (member c charset_lowercase))
        (one (member c charset_uppercase))
        (one (member c charset_digits))
        (one (member c charset_symbols))
unfolding count_char
count_char-Adds c n =
    pick-Adds (member c charset_lowercase) (member c charset_uppercase) (member c charset_digits)
      (member c charset_symbols) n
      (disjoint-member c charset_lowercase charset_uppercase lower-upper)
      (disjoint-member c charset_lowercase charset_digits lower-digits)
      (disjoint-member c charset_lowercase charset_symbols lower-symbols)
      (disjoint-member c charset_uppercase charset_digits upper-digits)
      (disjoint-member c charset_uppercase charset_symbols upper-symbols)
      (disjoint-member c charset_digits charset_symbols digits-symbols)

pub counted_all-Adds :
    (xs : List ℕ) (n : Counts)
    → Adds n
        (counted_all xs n)
        (count charset_lowercase xs)
        (count charset_uppercase xs)
        (count charset_digits xs)
        (count charset_symbols xs)
unfolding count
counted_all-Adds [] n = record {
  lowercase = omega arith;
  uppercase = omega arith;
  digits = omega arith;
  symbols = omega arith;
}
counted_all-Adds (x ∷ xs) n =
    let rest = counted_all-Adds xs (count_char x n) in
    let first = count_char-Adds x n in
    record {
      lowercase = omega (arith, rest.lowercase, first.lowercase);
      uppercase = omega (arith, rest.uppercase, first.uppercase);
      digits = omega (arith, rest.digits, first.digits);
      symbols = omega (arith, rest.symbols, first.symbols);
    }
