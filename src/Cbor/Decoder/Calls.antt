-- ===== src/Cbor/Decoder/Calls.antt =====
-- The public calls of src/cbor/bio_cbor_decoder.c: the typed decoders, and the search of a map
-- for a key.
use hiya.Base.{
  ℕ, zero, suc, ◌-◌, ◌^◌, Bool, true, false, ◌&&◌, List, [], ◌∷◌, length, ltb, leb, ◌==◌,
  if◌then◌else◌, take, drop, ℤ, pos, ok, cbor_overflow, cbor_unexpected_type, not_found,
}
use hiya.Cbor.{Major, major_of, shr, simple_true, simple_false, simple_null}
use hiya.Cbor.Decoder.{
  Decoder, Result, done, fail, Reply, and_then, ◌>>=◌, Item, uint, negint, bstr, tstr, array, map,
  tag, simple, dec_peek, decode_next, skip,
}

-- `bio_cbor_decoder_init`: the `memset`, then the buffer and its size.
unfoldable pub init : List ℕ → ℕ → Decoder
init source size = record { source = source; size = size; offset = 0; error = false; err_code = ok }

abbrev on_done {ℓ κ} : {A : Type ℓ} {B : Type κ} → (A → B) → Result A → Result B
on_done f (done a) = done (f a)
on_done f (fail s) = fail s

-- `bio_cbor_peek_type`.
unfoldable pub peek_type : Decoder → Result Major
peek_type d = on_done (λ head. major_of (shr head 5)) (dec_peek d)

-- `bio_cbor_decoder_at_end`.
unfoldable pub at_end : Decoder → Bool
at_end d = leb d.size d.offset

-- `bio_cbor_decoder_offset`.
unfoldable pub offset : Decoder → ℕ
offset d = d.offset

-- `bio_cbor_decoder_remaining`.
unfoldable pub remaining : Decoder → ℕ
remaining d = if ltb d.offset d.size then d.size - d.offset else 0

-- What each typed decoder does with an item, the errors included.
abbrev pub wrong_type {ℓ} : {A : Type ℓ} → Decoder → Reply A
wrong_type d = (d, fail cbor_unexpected_type)

unfoldable pub uint_of : Item → Decoder → Reply ℕ
uint_of (uint v) d = (d, done v)
uint_of _ d = wrong_type d

unfoldable pub int_of : Item → Decoder → Reply ℤ
int_of (uint v) d = if ltb (2 ^ 63 - 1) v then (d, fail cbor_overflow) else (d, done (pos v))
int_of (negint z) d = (d, done z)
int_of _ d = wrong_type d

unfoldable pub bstr_of : Item → Decoder → Reply (ℕ × ℕ)
bstr_of (bstr at len) d = (d, done (at, len))
bstr_of _ d = wrong_type d

unfoldable pub tstr_of : Item → Decoder → Reply (ℕ × ℕ)
tstr_of (tstr at len) d = (d, done (at, len))
tstr_of _ d = wrong_type d

unfoldable pub array_of : Item → Decoder → Reply ℕ
array_of (array n) d = (d, done n)
array_of _ d = wrong_type d

unfoldable pub map_of : Item → Decoder → Reply ℕ
map_of (map n) d = (d, done n)
map_of _ d = wrong_type d

unfoldable pub bool_of : Item → Decoder → Reply Bool
bool_of (simple s) d =
    if s.simple_val == simple_true
    then (d, done true)
    else if s.simple_val == simple_false
    then (d, done false)
    else wrong_type d
bool_of _ d = wrong_type d

unfoldable pub null_of : Item → Decoder → Reply (Unit {0})
null_of (simple s) d = if s.simple_val == simple_null then (d, done tt) else wrong_type d
null_of _ d = wrong_type d

unfoldable pub tag_of : Item → Decoder → Reply ℕ
tag_of (tag n) d = (d, done n)
tag_of _ d = wrong_type d

unfoldable pub decode_uint : Decoder → Reply ℕ
decode_uint = decode_next >>= uint_of

unfoldable pub decode_int : Decoder → Reply ℤ
decode_int = decode_next >>= int_of

unfoldable pub decode_bstr : Decoder → Reply (ℕ × ℕ)
decode_bstr = decode_next >>= bstr_of

unfoldable pub decode_tstr : Decoder → Reply (ℕ × ℕ)
decode_tstr = decode_next >>= tstr_of

unfoldable pub decode_array : Decoder → Reply ℕ
decode_array = decode_next >>= array_of

unfoldable pub decode_map : Decoder → Reply ℕ
decode_map = decode_next >>= map_of

unfoldable pub decode_bool : Decoder → Reply Bool
decode_bool = decode_next >>= bool_of

unfoldable pub decode_null : Decoder → Reply (Unit {0})
decode_null = decode_next >>= null_of

unfoldable pub decode_tag : Decoder → Reply ℕ
decode_tag = decode_next >>= tag_of

-- `memcmp(a, b, n) == 0` on two blocks of the same size.
unfoldable pub same_bytes : List ℕ → List ℕ → Bool
same_bytes [] [] = true
same_bytes (x ∷ xs) (y ∷ ys) = x == y && same_bytes xs ys
same_bytes _ _ = false

-- The loop of the two searches: `matches` is the test on the key, `start` the saved position.
unfoldable pub find_key : (Item → Decoder → Bool) → ℕ → ℕ → Decoder → Reply (Unit {0})
find_key matches start zero d = (record d { offset = start }, fail not_found)
find_key matches start (suc n) d =
    let r = decode_next d in
    and_then r.0 r.1 λ k d'.
      let miss = skip d' in
      if matches k d'
      then (d', done tt)
      else and_then miss.0 miss.1 (λ _ d''. find_key matches start n d'')

unfoldable pub is_uint_key : ℕ → Item → Decoder → Bool
is_uint_key key (uint v) d = v == key
is_uint_key key _ d = false

unfoldable pub is_tstr_key : List ℕ → Item → Decoder → Bool
is_tstr_key key (tstr at len) d = len == length key && same_bytes (take len (drop at d.source)) key
is_tstr_key key _ d = false

-- `bio_cbor_map_find_uint_key`.
unfoldable pub map_find_uint_key : ℕ → ℕ → Decoder → Reply (Unit {0})
map_find_uint_key count key d = find_key (is_uint_key key) d.offset count d

-- `bio_cbor_map_find_tstr_key`, for a key of `key_len` bytes.
unfoldable pub map_find_tstr_key : ℕ → List ℕ → Decoder → Reply (Unit {0})
map_find_tstr_key count key d = find_key (is_tstr_key key) d.offset count d
