-- ===== src/Pm/Password/Charset.antt =====
-- src/pm/pm_password_gen.c: the characters that a policy allows.
use hiya.Base.{
  ℕ, Bool, true, false, not, ◌&&◌, ◌||◌, List, [], ◌∷◌, ◌++◌, ◌==◌, if◌then◌else◌, Option, none,
  some, ◌≡◌, ◌≢◌, refl, sym, ◌∙◌, member, arith,
}
use hiya.Pm.Errors.{invalid_param, nomem, Result, done, fail}
use hiya.Pm.Password.{
  Policy, has_flag, flag_lowercase, flag_uppercase, flag_digits, flag_symbols, charset_lowercase,
  charset_uppercase, charset_digits, charset_symbols, charset_ambiguous,
}

abbrev pub chosen : Bool → List ℕ → List ℕ
chosen b cs = if b then cs else []

abbrev joined : Bool → Bool → Bool → Bool → List ℕ
joined lower upper digits symbols =
    chosen lower charset_lowercase
    ++ (chosen upper charset_uppercase
        ++ (chosen digits charset_digits ++ chosen symbols charset_symbols))

-- The four `strncat`s of `build_charset_string` and of `pm_charset_to_string`.
unfoldable pub kinds : ℕ → List ℕ
kinds charset =
    joined (has_flag charset flag_lowercase) (has_flag charset flag_uppercase)
      (has_flag charset flag_digits) (has_flag charset flag_symbols)

-- `strchr` and `memmove`: the first `c` goes.
unfoldable pub remove_first : ℕ → List ℕ → List ℕ
remove_first c [] = []
remove_first c (x ∷ xs) = if x == c then xs else x ∷ remove_first c xs

unfoldable pub remove_each : List ℕ → List ℕ → List ℕ
remove_each [] cs = cs
remove_each (c ∷ rest) cs = remove_each rest (remove_first c cs)

abbrev pub no_chars : Option (List ℕ) → List ℕ
no_chars none = []
no_chars (some cs) = cs

-- What is left of the kinds.
unfoldable pub left_chars : Policy → List ℕ
left_chars p =
    let cs = kinds p.charset in
    remove_each (no_chars p.excluded_chars)
      (if p.exclude_ambiguous then remove_each charset_ambiguous cs else cs)

abbrev pub unless_empty : List ℕ → Result (List ℕ)
unless_empty [] = fail invalid_param
unless_empty (c ∷ cs) = done (c ∷ cs)

abbrev pub built : Bool → Policy → Option (List ℕ) → Result (List ℕ)
built room p (some cs) = if room then done cs else fail nomem
built room p none = if room then unless_empty (left_chars p) else fail nomem

-- `build_charset_string`; `room` says whether the allocation succeeds.
unfoldable pub build_charset_string : Bool → Policy → Result (List ℕ)
build_charset_string room p = built room p p.custom_charset

-- `pm_charset_to_string`.
unfoldable pub charset_to_string : Bool → ℕ → Result (List ℕ)
charset_to_string room charset = if room then unless_empty (kinds charset) else fail nomem

unfoldable pub distinct : List ℕ → Bool
distinct [] = true
distinct (x ∷ xs) = not (member x xs) && distinct xs

joined-distinct : (a b c d : Bool) → distinct (joined a b c d) ≡ true
unfolding distinct
joined-distinct false false false false = refl
joined-distinct false false false true = refl
joined-distinct false false true false = refl
joined-distinct false false true true = refl
joined-distinct false true false false = refl
joined-distinct false true false true = refl
joined-distinct false true true false = refl
joined-distinct false true true true = refl
joined-distinct true false false false = refl
joined-distinct true false false true = refl
joined-distinct true false true false = refl
joined-distinct true false true true = refl
joined-distinct true true false false = refl
joined-distinct true true false true = refl
joined-distinct true true true false = refl
joined-distinct true true true true = refl

-- Without repetition, the first `c` is the only one.
member-remove_first :
    (c d : ℕ) (cs : List ℕ)
    → distinct cs ≡ true
    → member d (remove_first c cs) ≡ (member d cs && not (d == c))
unfolding distinct remove_first
member-remove_first c d [] h = refl
member-remove_first c d (x ∷ xs) h = ground (arith, member-remove_first c d xs)

remove_first-distinct :
    (c : ℕ) (cs : List ℕ) → distinct cs ≡ true → distinct (remove_first c cs) ≡ true
unfolding distinct remove_first
remove_first-distinct c [] h = refl
remove_first-distinct c (x ∷ xs) h =
    grind (arith, remove_first-distinct c xs, member-remove_first c x xs)

remove_each-distinct : (rs cs : List ℕ) → distinct cs ≡ true → distinct (remove_each rs cs) ≡ true
unfolding remove_each
remove_each-distinct [] cs h = h
remove_each-distinct (r ∷ rs) cs h =
    remove_each-distinct rs (remove_first r cs) (remove_first-distinct r cs h)

member-remove_each :
    (d : ℕ) (rs cs : List ℕ)
    → distinct cs ≡ true
    → member d (remove_each rs cs) ≡ (member d cs && not (member d rs))
unfolding remove_each
member-remove_each d [] cs h = grind arith
member-remove_each d (r ∷ rs) cs h =
    let left = member-remove_each d rs (remove_first r cs) (remove_first-distinct r cs h) in
    let one = member-remove_first r d cs h in grind arith

member-chosen : (d : ℕ) (b : Bool) (cs : List ℕ) → member d (chosen b cs) ≡ (b && member d cs)
member-chosen d false cs = refl
member-chosen d true cs = refl

member-append : (d : ℕ) (xs ys : List ℕ) → member d (xs ++ ys) ≡ (member d xs || member d ys)
member-append d [] ys = refl
member-append d (x ∷ xs) ys = grind (arith, member-append d xs ys)

-- The kinds that the flags name, less the ambiguous and the excluded characters.
unfoldable pub admits : Policy → ℕ → Bool
admits p c =
    (((has_flag p.charset flag_lowercase && member c charset_lowercase)
        || ((has_flag p.charset flag_uppercase && member c charset_uppercase)
            || ((has_flag p.charset flag_digits && member c charset_digits)
                || (has_flag p.charset flag_symbols && member c charset_symbols))))
      && not (p.exclude_ambiguous && member c charset_ambiguous))
    && not (member c (no_chars p.excluded_chars))

member-joined :
    (x : ℕ) (a b c d : Bool)
    → member x (joined a b c d) ≡ (
        (a && member x charset_lowercase)
        || ((b && member x charset_uppercase)
            || ((c && member x charset_digits) || (d && member x charset_symbols))))
member-joined x a b c d = rw (
  member-append x (chosen a charset_lowercase)
      (chosen b charset_uppercase ++ (chosen c charset_digits ++ chosen d charset_symbols)),
  member-append x (chosen b charset_uppercase)
      (chosen c charset_digits ++ chosen d charset_symbols),
  member-append x (chosen c charset_digits) (chosen d charset_symbols),
  member-chosen x a charset_lowercase,
  member-chosen x b charset_uppercase,
  member-chosen x c charset_digits,
  member-chosen x d charset_symbols,
)

pub record Exactly (test : ℕ → Bool) (cs : List ℕ) : Type 0 where
  pub once : distinct cs ≡ true
  pub all : (d : ℕ) → member d cs ≡ test d

and-true : (b : Bool) → b ≡ (b && true)
and-true false = refl
and-true true = refl

remove_each-Exactly :
    (b : Bool) (rs cs : List ℕ) (test : ℕ → Bool)
    → Exactly test cs
    → Exactly (λ d. test d && not (b && member d rs)) (if b then remove_each rs cs else cs)
remove_each-Exactly false rs cs test e = record {
  once = e.once;
  all = λ d. e.all d ∙ and-true (test d);
}
remove_each-Exactly true rs cs test e = record {
  once = remove_each-distinct rs cs e.once;
  all = λ d. rw (member-remove_each d rs cs e.once, e.all d);
}

kinds-Exactly :
    (f : ℕ)
    → Exactly
        (λ c.
          (has_flag f flag_lowercase && member c charset_lowercase)
          || ((has_flag f flag_uppercase && member c charset_uppercase)
              || ((has_flag f flag_digits && member c charset_digits)
                  || (has_flag f flag_symbols && member c charset_symbols))))
        (kinds f)
unfolding kinds
kinds-Exactly f =
    let a = has_flag f flag_lowercase in
    let b = has_flag f flag_uppercase in
    let c = has_flag f flag_digits in
    let d = has_flag f flag_symbols in
    record { once = joined-distinct a b c d; all = λ x. member-joined x a b c d }

pub left_chars-Exactly : (p : Policy) → Exactly (admits p) (left_chars p)
unfolding left_chars admits
left_chars-Exactly p =
    remove_each-Exactly true (no_chars p.excluded_chars)
      (if p.exclude_ambiguous
        then remove_each charset_ambiguous (kinds p.charset)
        else kinds p.charset)
      _
      (remove_each-Exactly p.exclude_ambiguous charset_ambiguous (kinds p.charset) _
        (kinds-Exactly p.charset))

-- The characters that the policy admits, each once, or the error when there is none.
abbrev pub BuiltAs : Policy → Bool → Result (List ℕ) → Type 0
BuiltAs p room (done cs) = Exactly (admits p) cs × (cs ≢ [])
BuiltAs p room (fail nomem) = room ≡ false
BuiltAs p room (fail invalid_param) = (d : ℕ) → admits p d ≡ false
BuiltAs p room (fail rc) = ⊥

unless_empty-BuiltAs :
    (p : Policy) (cs : List ℕ) → Exactly (admits p) cs → BuiltAs p true (unless_empty cs)
unless_empty-BuiltAs p [] e = λ d. sym (e.all d)
unless_empty-BuiltAs p (c ∷ cs) e = (e, λ h. cc)

-- For a policy without a custom set, build_charset_string returns a text that is not empty and
-- has each character once that is of a kind the flags name and is neither an excluded ambiguous
-- character nor an excluded one, and no other character; or PM_ERR_INVALID_PARAM where no
-- character is such; or PM_ERR_NOMEM where the allocation fails.
pub build_charset_string-BuiltAs :
    (room : Bool) (p : Policy)
    → p.custom_charset ≡ none
    → BuiltAs p room (build_charset_string room p)
unfolding build_charset_string
build_charset_string-BuiltAs room p h = body room p.custom_charset h
  where
    body : (room : Bool) (o : Option (List ℕ)) → o ≡ none → BuiltAs p room (built room p o)
    body room (some cs) e = cc
    body true none e = unless_empty-BuiltAs p (left_chars p) (left_chars-Exactly p)
    body false none e = refl
