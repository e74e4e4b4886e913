-- ===== src/Base/Bits.antt =====
-- Bit operations as arithmetic: `|` of fields that do not overlap, and `&` with a mask of ones.
use Prim.Native.Nat.{
  ℕ, zero, suc, ◌+◌, ◌*◌, ◌/◌, ◌%◌, ◌^◌, ◌≤◌, ◌<◌, max, min, bit_and, bit_or, digits,
  bit_or-bitwise, bit_and-bitwise,
}
use mathlib.Core.Path.{◌≡◌, refl, ap}
use native.Mathlib.Omega.{arith}
use native.Mathlib.Nat.{pow-suc}

-- An operation on digits, whose remainder `rest` behind the first number agrees with it.
module _ (rest : ℕ → ℕ) (op : ℕ → ℕ → ℕ)
    (agree : (y : ℕ) → rest y ≡ rest (y / 2) * 2 + op 0 (y % 2)) where
  enough_rounds : (x y i j : ℕ) → x ≤ i → x ≤ j → digits rest op i x y ≡ digits rest op j x y
  enough_rounds zero y zero zero p q = refl
  enough_rounds zero y zero (suc j) p q = refl
  enough_rounds zero y (suc i) zero p q = refl
  enough_rounds zero y (suc i) (suc j) p q = refl
  enough_rounds (suc x) y zero j p q = absurd (omega arith)
  enough_rounds (suc x) y (suc i) zero p q = absurd (omega arith)
  enough_rounds (suc x) y (suc i) (suc j) p q =
      ap (λ d. d * 2 + op (suc x % 2) (y % 2))
        (enough_rounds (suc x / 2) (y / 2) i j (omega arith) (omega arith))

  lowest_digit :
      (x y : ℕ)
      → digits rest op x x y ≡ digits rest op (x / 2) (x / 2) (y / 2) * 2 + op (x % 2) (y % 2)
  lowest_digit zero y = agree y
  lowest_digit (suc x) y =
      ap (λ d. d * 2 + op (suc x % 2) (y % 2))
        (enough_rounds (suc x / 2) (y / 2) x (suc x / 2) (omega arith) (omega arith))

lowest_or : (x y : ℕ) → bit_or x y ≡ bit_or (x / 2) (y / 2) * 2 + max (x % 2) (y % 2)
lowest_or x y = omega (
  arith,
  lowest_digit (λ k. k) max (λ k. omega arith) x y,
  bit_or-bitwise x y,
  bit_or-bitwise (x / 2) (y / 2),
)

lowest_and : (x y : ℕ) → bit_and x y ≡ bit_and (x / 2) (y / 2) * 2 + min (x % 2) (y % 2)
lowest_and x y = omega (
  arith,
  lowest_digit (λ k. 0) min (λ k. omega arith) x y,
  bit_and-bitwise x y,
  bit_and-bitwise (x / 2) (y / 2),
)

-- With nothing in the other number; `bound` is at least the number.
no_or : (bound x : ℕ) → x ≤ bound → bit_or x 0 ≡ x
no_or bound zero h = refl
no_or zero (suc x) h = absurd (omega arith)
no_or (suc bound) (suc x) h =
    let half = no_or bound (suc x / 2) (omega arith) in omega (arith, lowest_or (suc x) 0)

no_and : (bound x : ℕ) → x ≤ bound → bit_and x 0 ≡ 0
no_and bound zero h = refl
no_and zero (suc x) h = absurd (omega arith)
no_and (suc bound) (suc x) h =
    let half = no_and bound (suc x / 2) (omega arith) in omega (arith, lowest_and (suc x) 0)

twice-pow : (q k : ℕ) → q * 2 ^ suc k ≡ 2 * (q * 2 ^ k)
twice-pow q k = omega (arith, ap (λ (t : ℕ). q * t) (pow-suc 2 k))

-- `(q << k) | r` is a sum when `r` fits `k` bits.
pub bit_or_disjoint : (k q r : ℕ) → r < 2 ^ k → bit_or (q * 2 ^ k) r ≡ q * 2 ^ k + r
bit_or_disjoint zero q r fits = ground (arith, no_or q q)
bit_or_disjoint (suc k) q r fits = ground (
  arith,
  twice-pow q k,
  lowest_or (q * 2 ^ suc k) r,
  pow-suc 2 k,
  bit_or_disjoint k q (r / 2) (omega (arith, pow-suc 2 k)),
)

-- `x & m` for the masks of 1 to 8 low bits.
low_one : (x : ℕ) → bit_and x 1 ≡ x % 2
low_one x = omega (arith, lowest_and x 1, no_and (x / 2) (x / 2))

low_two : (x : ℕ) → bit_and x 3 ≡ x % 4
low_two x = omega (arith, lowest_and x 3, low_one (x / 2))

low_three : (x : ℕ) → bit_and x 7 ≡ x % 8
low_three x = omega (arith, lowest_and x 7, low_two (x / 2))

pub low_four : (x : ℕ) → bit_and x 0x0f ≡ x % 16
low_four x = omega (arith, lowest_and x 15, low_three (x / 2))

pub low_five : (x : ℕ) → bit_and x 0x1f ≡ x % 32
low_five x = omega (arith, lowest_and x 31, low_four (x / 2))

low_six : (x : ℕ) → bit_and x 63 ≡ x % 64
low_six x = omega (arith, lowest_and x 63, low_five (x / 2))

pub low_seven : (x : ℕ) → bit_and x 0x7f ≡ x % 128
low_seven x = omega (arith, lowest_and x 127, low_six (x / 2))

pub low_eight : (x : ℕ) → bit_and x 0xff ≡ x % 256
low_eight x = omega (arith, lowest_and x 255, low_seven (x / 2))

-- `x & 0x80`, bit by bit.
bit_and-2 : (x : ℕ) → bit_and x 2 ≡ x / 2 % 2 * 2
bit_and-2 x = omega (arith, lowest_and x 2, low_one (x / 2))

bit_and-4 : (x : ℕ) → bit_and x 4 ≡ x / 4 % 2 * 4
bit_and-4 x = omega (arith, lowest_and x 4, bit_and-2 (x / 2))

bit_and-8 : (x : ℕ) → bit_and x 8 ≡ x / 8 % 2 * 8
bit_and-8 x = omega (arith, lowest_and x 8, bit_and-4 (x / 2))

bit_and-16 : (x : ℕ) → bit_and x 16 ≡ x / 16 % 2 * 16
bit_and-16 x = omega (arith, lowest_and x 16, bit_and-8 (x / 2))

bit_and-32 : (x : ℕ) → bit_and x 32 ≡ x / 32 % 2 * 32
bit_and-32 x = omega (arith, lowest_and x 32, bit_and-16 (x / 2))

bit_and-64 : (x : ℕ) → bit_and x 64 ≡ x / 64 % 2 * 64
bit_and-64 x = omega (arith, lowest_and x 64, bit_and-32 (x / 2))

pub high_bit : (x : ℕ) → bit_and x 0x80 ≡ x / 128 % 2 * 128
high_bit x = omega (arith, lowest_and x 128, bit_and-64 (x / 2))
