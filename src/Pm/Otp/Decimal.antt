-- ===== src/Pm/Otp/Decimal.antt =====
-- `snprintf` with "%0*u" as src/pm/pm_otp.c uses it: a number below 10 ^ width in `width` digits.
use hiya.Base.{
  ℕ, zero, suc, ◌-◌, ◌^◌, ◌≤◌, ◌<◌, ◌≡◌, refl, ap, ◌∙◌, List, [], ◌∷◌, ◌++◌, length, take,
  replicate, arith,
}
use hiya.Pm.Otp.{fixed, decimal, print_padded}

length-fixed : (k v : ℕ) → length (fixed k v) ≡ k
length-fixed zero v = refl
length-fixed (suc k) v = ap suc (length-fixed k v)

take-all : (n : ℕ) (xs : List ℕ) → length xs ≤ n → take n xs ≡ xs
take-all zero [] h = refl
take-all zero (x ∷ xs) h = absurd (omega arith)
take-all (suc n) [] h = refl
take-all (suc n) (x ∷ xs) h = ap (◌∷◌ x) (take-all n xs (omega arith))

-- The two widths of a one-time password.
padded_6 : (v : ℕ) → v < 10 ^ 6 → replicate (6 - length (decimal 9 v)) 48 ++ decimal 9 v ≡ fixed 6 v
unfolding decimal
padded_6 v h = ground arith

padded_8 : (v : ℕ) → v < 10 ^ 8 → replicate (8 - length (decimal 9 v)) 48 ++ decimal 9 v ≡ fixed 8 v
unfolding decimal
padded_8 v h = ground arith

pub print-six : (size v : ℕ) → 9 ≤ size → v < 10 ^ 6 → print_padded size 6 v ≡ fixed 6 v
unfolding print_padded
print-six size v l h =
    ap (take (size - 1)) (padded_6 v h)
    ∙ take-all (size - 1) (fixed 6 v) (omega (arith, length-fixed 6 v))

pub print-eight : (size v : ℕ) → 9 ≤ size → v < 10 ^ 8 → print_padded size 8 v ≡ fixed 8 v
unfolding print_padded
print-eight size v l h =
    ap (take (size - 1)) (padded_8 v h)
    ∙ take-all (size - 1) (fixed 8 v) (omega (arith, length-fixed 8 v))
