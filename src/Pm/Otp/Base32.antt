-- ===== src/Pm/Otp/Base32.antt =====
-- `base32_decode` of src/pm/pm_otp.c. The texts are the characters before the NUL; `toupper` is
-- that of the C locale. Whether an allocation succeeds is an argument.
pub mod Symbol
pub mod Value
pub mod Decode
use hiya.Base.{
  ℕ, zero, suc, ◌+◌, ◌-◌, ◌*◌, ◌/◌, ◌^◌, ◌%◌, Bool, true, false, not, ◌&&◌, ◌||◌, List, [], ◌∷◌,
  ◌++◌, length, set, take, replicate, ltb, leb, ◌==◌, if◌then◌else◌, bit_and, bit_or, Option, none,
  some,
}
use hiya.Cbor.{u8, shr, shl64}

-- "ABCDEFGHIJKLMNOPQRSTUVWXYZ234567"
abbrev pub alphabet : List ℕ
alphabet =
    65 ∷ 66 ∷ 67 ∷ 68 ∷ 69 ∷ 70 ∷ 71 ∷ 72 ∷ 73 ∷ 74 ∷ 75 ∷ 76 ∷ 77 ∷ 78 ∷ 79 ∷ 80 ∷ 81 ∷ 82 ∷ 83
    ∷ 84 ∷ 85 ∷ 86 ∷ 87 ∷ 88 ∷ 89 ∷ 90 ∷ 50 ∷ 51 ∷ 52 ∷ 53 ∷ 54 ∷ 55 ∷ []

-- `strchr(list, c) - list`.
unfoldable pub position : ℕ → List ℕ → Option ℕ
position c [] = none
position c (x ∷ xs) =
    if c == x then some 0 else elim (position c xs) [ none ↦ none | some n ↦ some (suc n) ]

abbrev pub toupper : ℕ → ℕ
toupper c = if leb 97 c && leb c 122 then c - 32 else c

-- Padding, a space, a line feed or a carriage return.
abbrev pub is_skipped : ℕ → Bool
is_skipped c = c == 61 || c == 32 || c == 10 || c == 13

-- The variables of the loop; `written` is `j`.
pub record Decoding : Type 0 where
  pub decoded : List ℕ
  pub decoded_len : ℕ
  pub buffer : ℕ
  pub bits_left : ℕ
  pub written : ℕ

-- `realloc(decoded, decoded_len + 8)` where the buffer is full; the new bytes are written as 0.
unfoldable pub make_room : Bool → Decoding → Option Decoding
make_room grows s =
    if ltb s.written s.decoded_len
    then some s
    else if grows
    then some (record s {
      decoded = take (s.decoded_len + 8) (s.decoded ++ replicate 8 0);
      decoded_len = s.decoded_len + 8;
    })
    else none

-- `decoded[j++] = (uint8_t)((buffer >> bits_left) & 0xFF)`
abbrev pub store : Decoding → Decoding
store s = record s {
  decoded = set s.decoded s.written (u8 (bit_and (shr s.buffer s.bits_left) 0xff));
  written = s.written + 1;
}

abbrev pub map_store : Option Decoding → Option Decoding
map_store none = none
map_store (some s) = some (store s)

-- Five more bits, and a byte as soon as there are eight.
unfoldable pub push : Bool → ℕ → Decoding → Option Decoding
push grows val s =
    let next = record s { buffer = bit_or (shl64 s.buffer 5) val; bits_left = s.bits_left + 5 } in
    if leb 8 next.bits_left
    then map_store (make_room grows (record next { bits_left = next.bits_left - 8 }))
    else some next

abbrev pub push_position : Bool → Option ℕ → Decoding → Option Decoding
push_position grows none s = none
push_position grows (some val) s = push grows val s

-- The body of the loop.
unfoldable pub decode_char : Bool → ℕ → Decoding → Option Decoding
decode_char grows char s =
    let c = toupper char in
    if is_skipped c then some s else push_position grows (position c alphabet) s

abbrev pub and_then : Option Decoding → (Decoding → Option Decoding) → Option Decoding
and_then none f = none
and_then (some s) f = f s

-- The loop.
unfoldable pub decode_chars : Bool → List ℕ → Decoding → Option Decoding
decode_chars grows [] s = some s
decode_chars grows (c ∷ cs) s = and_then (decode_char grows c s) (decode_chars grows cs)

-- The variables before the loop: the block has one byte more than `decoded_len`.
abbrev pub start : ℕ → Decoding
start encoded_len = record {
  decoded = replicate (encoded_len * 5 / 8 + 1) 0;
  decoded_len = encoded_len * 5 / 8;
  buffer = 0;
  bits_left = 0;
  written = 0;
}

abbrev pub output : Option Decoding → Option (List ℕ)
output none = none
output (some s) = some (take s.written s.decoded)

-- `base32_decode`: the bytes, or none where it returns -1.
unfoldable pub base32_decode : Bool → Bool → List ℕ → Option (List ℕ)
base32_decode allocates grows encoded =
    if allocates then output (decode_chars grows encoded (start (length encoded))) else none
