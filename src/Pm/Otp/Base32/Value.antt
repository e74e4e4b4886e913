-- ===== src/Pm/Otp/Base32/Value.antt =====
-- What `base32_decode` of src/pm/pm_otp.c computes: the symbols as one number in base 32, and the
-- bytes as its leading bits in base 256.
use hiya.Base.{
  ℕ, zero, suc, ◌+◌, ◌-◌, ◌*◌, ◌/◌, ◌^◌, ◌%◌, ◌≤◌, ◌<◌, ◌≡◌, refl, sym, ap, ◌∙◌, Bool, true, List,
  [], ◌∷◌, ◌++◌, length, set, take, ltb, leb, if◌then◌else◌, bit_and, bit_or, bit_or_disjoint,
  low_eight, Option, none, some, arith, Bool-cases, inl, inr, length-set, All, IsByte,
}
use hiya.Cbor.{u8, shr, shl64}
use hiya.Pm.Otp.Base32.{Decoding, make_room, push}
use hiya.Pm.Otp.Base32.Symbol.{symbol_value, is_blank}

abbrev pub with_symbol : Option ℕ → Option (List ℕ) → Option (List ℕ)
with_symbol none vs = none
with_symbol (some v) none = none
with_symbol (some v) (some vs) = some (v ∷ vs)

-- The values of the symbols of a text without its padding and its blanks, or none where another
-- character is no symbol.
unfoldable pub symbols : List ℕ → Option (List ℕ)
symbols [] = some []
symbols (c ∷ cs) =
    let rest = symbols cs in if is_blank c then rest else with_symbol (symbol_value c) rest

-- A number written in base `b`, most significant digit first, behind the digits of `n`.
abbrev pub number : ℕ → ℕ → List ℕ → ℕ
number b n [] = n
number b n (d ∷ ds) = number b (n * b + d) ds

-- The bytes written so far are the leading bits of the `count` symbols read so far, which make `v`.
pub record Reading (n v count : ℕ) (s : Decoding) : Type 0 where
  pub room : length s.decoded ≡ s.decoded_len + 1
  pub planned : s.decoded_len ≡ n * 5 / 8
  pub bits : s.written * 8 + s.bits_left ≡ count * 5
  pub few : s.bits_left < 8
  pub fitted : s.written ≤ s.decoded_len
  pub low : s.buffer ≡ v % 2 ^ 64
  pub small : All IsByte (take s.written s.decoded)
  pub value : number 256 0 (take s.written s.decoded) ≡ v / 2 ^ s.bits_left

All-snoc : (xs : List ℕ) (d : ℕ) → All IsByte xs → d < 256 → All IsByte (xs ++ (d ∷ []))
All-snoc [] d h l = (l, tt)
All-snoc (x ∷ xs) d (h, hs) l = (h, All-snoc xs d hs l)

number-snoc : (b n : ℕ) (ds : List ℕ) (d : ℕ) → number b n (ds ++ (d ∷ [])) ≡ number b n ds * b + d
number-snoc b n [] d = refl
number-snoc b n (x ∷ ds) d = number-snoc b (n * b + x) ds d

take-set :
    (xs : List ℕ) (i d : ℕ) → i < length xs → take (suc i) (set xs i d) ≡ take i xs ++ (d ∷ [])
take-set [] i d h = absurd (omega arith)
take-set (x ∷ xs) zero d h = refl
take-set (x ∷ xs) (suc i) d h = ap (◌∷◌ x) (take-set xs i d (omega arith))

-- The buffer after one more symbol.
shift_in : (v x b : ℕ) → b ≡ v % 2 ^ 64 → x < 32 → bit_or (shl64 b 5) x ≡ (v * 32 + x) % 2 ^ 64
shift_in v x b e h =
    let shifted : shl64 b 5 ≡ v % 2 ^ 59 * 2 ^ 5 = omega arith in
    rw shifted (bit_or_disjoint 5 (v % 2 ^ 59) x h ∙ omega arith)

-- The symbols without the bits that are left over, where no byte is complete.
kept_bits : (v x b : ℕ) → x < 32 → b < 3 → (v * 32 + x) / 2 ^ (b + 5) ≡ v / 2 ^ b
kept_bits v x zero h l = omega arith
kept_bits v x (suc zero) h l = omega arith
kept_bits v x (suc (suc zero)) h l = omega arith
kept_bits v x (suc (suc (suc b))) h l = absurd (omega arith)

-- The byte that is stored continues the number.
next_byte :
    (v x c : ℕ)
    → x < 32
    → c < 5
    → (v * 32 + x) / 2 ^ c ≡ v / 2 ^ (c + 3) * 256 + (v * 32 + x) % 2 ^ 64 / 2 ^ c % 256
next_byte v x zero h l = omega arith
next_byte v x (suc zero) h l = omega arith
next_byte v x (suc (suc zero)) h l = omega arith
next_byte v x (suc (suc (suc zero))) h l = omega arith
next_byte v x (suc (suc (suc (suc zero)))) h l = omega arith
next_byte v x (suc (suc (suc (suc (suc c))))) h l = absurd (omega arith)

pub record Pushes (n v count : ℕ) (r : Option Decoding) : Type 0 where
  pub next : Decoding
  pub done : r ≡ some next
  pub reading : Reading n v count next

pub push-Pushes :
    (grows : Bool) (n v count x : ℕ) (s : Decoding)
    → Reading n v count s
    → x < 32
    → count < n
    → Pushes n (v * 32 + x) (suc count) (push grows x s)
unfolding push make_room
push-Pushes grows n v count x s r h l = elim (Bool-cases (leb 8 (s.bits_left + 5))) [
  | inl p ↦
      let c = s.bits_left + 5 - 8 in
      let buffer = bit_or (shl64 s.buffer 5) x in
      let byte = u8 (bit_and (shr buffer c) 0xff) in
      let fits : s.written < s.decoded_len = ground (arith, r.bits, r.planned, r.few) in
      let room_now : ltb s.written s.decoded_len ≡ true = ground arith in
      let buffer_now = shift_in v x s.buffer r.low h in
      let byte_now : byte ≡ (v * 32 + x) % 2 ^ 64 / 2 ^ c % 256 =
        (ap (λ b. u8 (bit_and (shr b c) 0xff)) buffer_now
          ∙ omega (arith, low_eight ((v * 32 + x) % 2 ^ 64 / 2 ^ c))) in
      let old : v / 2 ^ s.bits_left ≡ v / 2 ^ (c + 3) =
        ap (λ k. v / 2 ^ k) (ground (arith, r.few)) in
      let one_more : s.written + 1 ≡ suc s.written = omega arith in
      let stored = take-set s.decoded s.written byte (omega (arith, r.room)) in
      record {
        next = record {
          decoded = set s.decoded s.written byte;
          decoded_len = s.decoded_len;
          buffer = buffer;
          bits_left = c;
          written = s.written + 1;
        };
        done = rw (p, room_now) refl;
        reading = record {
          room = length-set s.decoded s.written byte ∙ r.room;
          planned = r.planned;
          bits = ground (arith, r.bits);
          few = ground (arith, r.few);
          fitted = omega arith;
          low = buffer_now;
          small =
              rw (one_more, stored)
                (All-snoc (take s.written s.decoded) byte r.small (omega arith));
          value =
              ap (λ i. number 256 0 (take i (set s.decoded s.written byte))) one_more
              ∙ ap (number 256 0) stored
              ∙ number-snoc 256 0 (take s.written s.decoded) byte
              ∙ omega (arith, r.value, byte_now, old, next_byte v x c h (ground (arith, r.few)));
        };
      }
  | inr p ↦ record {
    next = record s { buffer = bit_or (shl64 s.buffer 5) x; bits_left = s.bits_left + 5 };
    done = ground arith;
    reading = record {
      room = r.room;
      planned = r.planned;
      bits = ground (arith, r.bits);
      few = ground arith;
      fitted = r.fitted;
      low = shift_in v x s.buffer r.low h;
      small = r.small;
      value = r.value ∙ sym (kept_bits v x s.bits_left h (ground arith));
    };
  }
]
