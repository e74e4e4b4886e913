-- ===== src/Pm/Password/Check/Runs.antt =====
-- src/pm/pm_password_gen.c, `validate_password_policy`: the looks back at the characters before one,
-- said of the whole text.
use hiya.Base.{
  ℕ, zero, suc, true, List, [], ◌∷◌, ◌++◌, length, replicate, leb, ◌≡◌, refl, ap, sym, ◌∙◌,
  append_assoc, arith,
}
use hiya.Pm.Password.Check.{repeats, all_same}

-- `xs`, the last first, before `before`.
abbrev pub onto : List ℕ → List ℕ → List ℕ
onto [] before = before
onto (x ∷ xs) before = onto xs (x ∷ before)

onto-append : (xs ys b : List ℕ) → onto (xs ++ ys) b ≡ onto ys (onto xs b)
onto-append [] ys b = refl
onto-append (x ∷ xs) ys b = onto-append xs ys (x ∷ b)

replicate-append : (m c : ℕ) (b : List ℕ) → replicate m c ++ (c ∷ b) ≡ c ∷ (replicate m c ++ b)
replicate-append zero c b = refl
replicate-append (suc m) c b = ap (◌∷◌ c) (replicate-append m c b)

onto-replicate : (m c : ℕ) (b : List ℕ) → onto (replicate m c) b ≡ replicate m c ++ b
onto-replicate zero c b = refl
onto-replicate (suc m) c b = onto-replicate m c (c ∷ b) ∙ replicate-append m c b

onto-onto : (xs b r : List ℕ) → onto (onto xs b) r ≡ onto b (xs ++ r)
onto-onto [] b r = refl
onto-onto (x ∷ xs) b r = onto-onto xs (x ∷ b) r

onto-nil : (b r : List ℕ) → onto b r ≡ onto b [] ++ r
onto-nil [] r = refl
onto-nil (x ∷ b) r =
    onto-nil b (x ∷ r)
    ∙ (sym (append_assoc (onto b []) (x ∷ []) r) ∙ ap (λ t. t ++ r) (sym (onto-nil b (x ∷ []))))

-- What stands before a character, read back.
pub onto-split :
    (m c : ℕ) (xs b r : List ℕ)
    → onto xs [] ≡ replicate m c ++ b
    → xs ++ r ≡ onto b [] ++ (replicate m c ++ r)
onto-split m c xs b r e =
    sym (onto-onto xs [] r)
    ∙ (ap (λ t. onto t r) e
        ∙ (onto-append (replicate m c) b r
            ∙ (ap (onto b) (onto-replicate m c r) ∙ onto-nil b (replicate m c ++ r))))

pub onto-run : (m c : ℕ) (xs : List ℕ) → onto (xs ++ replicate m c) [] ≡ replicate m c ++ onto xs []
onto-run m c xs = onto-append xs (replicate m c) [] ∙ onto-replicate m c (onto xs [])

pub all_same-replicate : (m c : ℕ) (b : List ℕ) → all_same m (replicate m c ++ b) c ≡ true
all_same-replicate zero c b = refl
all_same-replicate (suc m) c b = ground (arith, all_same-replicate m c b)

pub leb-replicate : (m c : ℕ) (b : List ℕ) → leb m (length (replicate m c ++ b)) ≡ true
leb-replicate zero c b = ground arith
leb-replicate (suc m) c b = ground (arith, leb-replicate m c b)

pub all_same→replicate :
    (m c : ℕ) (before : List ℕ)
    → all_same m before c ≡ true
    → (b : List ℕ) × (before ≡ replicate m c ++ b)
all_same→replicate zero c before h = (before, refl)
all_same→replicate (suc m) c [] h = cc
all_same→replicate (suc m) c (x ∷ before) h =
    let e : x ≡ c = ground arith in
    let (b, rest) = all_same→replicate m c before (ground arith) in
    (b, ap (λ y. y ∷ before) e ∙ ap (◌∷◌ c) rest)

pub repeats→replicate :
    (c : ℕ) (before : List ℕ)
    → repeats before c ≡ true
    → (b : List ℕ) × (before ≡ replicate 1 c ++ b)
repeats→replicate c [] h = cc
repeats→replicate c (x ∷ before) h =
    let e : x ≡ c = ground arith in (before, ap (λ y. y ∷ before) e)

pub repeats-run : (c : ℕ) (xs : List ℕ) → repeats (onto (xs ++ replicate 1 c) []) c ≡ true
repeats-run c xs = rw (onto-run 1 c xs) (ground arith)
