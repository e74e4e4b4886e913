-- ===== src/Cbor/Decoder.antt =====
-- src/cbor/bio_cbor_decoder.c: the cursor, its reads, the head and the next item. A call returns
-- the decoder that it leaves and its result; out parameters are the value of a result that
-- succeeds. The context is a value, so the NULL guards, which touch no state, have no
-- counterpart; logging is left out.
pub mod Calls
pub mod Read
pub mod Next
pub mod Items
pub mod Skip
pub mod Find
pub mod Valid
use hiya.Base.{
  ℕ, zero, suc, ◌+◌, ◌-◌, ◌*◌, ◌/◌, ◌%◌, ◌^◌, Bool, true, false, ◌&&◌, ◌||◌, List, [], ◌∷◌, ltb,
  leb, ◌==◌, if◌then◌else◌, take, drop, get_or, bit_and, bit_or, Option, none, some, ℤ, pos, negsuc,
  Status, ok, cbor_invalid, cbor_nesting,
}
use hiya.Cbor.{Major, major_of, max_depth, size_max, add_size, sub_size, u8, u16, u32, shr, shl64}

-- `bio_cbor_decoder_t`. `source` is the memory behind `data`.
pub record Decoder : Type 0 where
  pub source : List ℕ
  pub size : ℕ
  pub offset : ℕ
  pub error : Bool
  pub err_code : Status

pub data Result {ℓ} (A : Type ℓ) : Type ℓ where
  done : A → Result A
  fail : Status → Result A

abbrev pub Reply {ℓ} : Type ℓ → Type ℓ
Reply A = Decoder × Result A

-- `if (rc != BIO_OK) return rc;` before the rest.
abbrev pub and_then {ℓ κ} :
    {A : Type ℓ} {B : Type κ} → Decoder → Result A → (A → Decoder → Reply B) → Reply B
and_then d (done a) f = f a d
and_then d (fail s) f = (d, fail s)

infixl 5 ◌>>=◌
abbrev pub ◌>>=◌ {ℓ κ} :
    {A : Type ℓ} {B : Type κ} → (Decoder → Reply A) → (A → Decoder → Reply B) → Decoder → Reply B
◌>>=◌ m f d = let r = m d in and_then r.0 r.1 f

-- `dec->error = true; dec->err_code = BIO_ERR_CBOR_INVALID; return BIO_ERR_CBOR_INVALID;`
abbrev pub refuse {ℓ} : {A : Type ℓ} → Decoder → Reply A
refuse d = (record d { error = true; err_code = cbor_invalid }, fail cbor_invalid)

-- `dec_read`: the `n` bytes behind the pointer that it returns, or NULL.
unfoldable pub dec_read : ℕ → Decoder → Decoder × Option (List ℕ)
dec_read n d =
    if d.error
    then (d, none)
    else if ltb d.size (add_size d.offset n)
    then (record d { error = true; err_code = cbor_invalid }, none)
    else (record d { offset = add_size d.offset n }, some (take n (drop d.offset d.source)))

-- `dec_peek`.
unfoldable pub dec_peek : Decoder → Result ℕ
dec_peek d =
    if d.error || leb d.size d.offset then fail cbor_invalid else done (get_or d.source d.offset 0)

abbrev pub no_read : Decoder → Option (List ℕ) → (List ℕ → ℕ) → Reply ℕ
no_read d none f = (d, fail cbor_invalid)
no_read d (some p) f = (d, done (f p))

-- `if (!p) return BIO_ERR_CBOR_INVALID; *val = …`
abbrev pub read_as : ℕ → (List ℕ → ℕ) → Decoder → Reply ℕ
read_as n f d = let r = dec_read n d in no_read r.0 r.1 f

abbrev pub at : List ℕ → ℕ → ℕ
at p i = get_or p i 0

unfoldable pub be16_of : List ℕ → ℕ
be16_of p = bit_or (at p 0 * 2 ^ 8) (at p 1)

unfoldable pub be32_of : List ℕ → ℕ
be32_of p =
    bit_or (bit_or (bit_or (u32 (at p 0 * 2 ^ 24)) (u32 (at p 1 * 2 ^ 16))) (u32 (at p 2 * 2 ^ 8)))
      (at p 3)

unfoldable pub be64_of : List ℕ → ℕ
be64_of p =
    bit_or
      (bit_or
        (bit_or
          (bit_or
            (bit_or (bit_or (bit_or (shl64 (at p 0) 56) (shl64 (at p 1) 48)) (shl64 (at p 2) 40))
              (shl64 (at p 3) 32))
            (shl64 (at p 4) 24))
          (shl64 (at p 5) 16))
        (shl64 (at p 6) 8))
      (at p 7)

unfoldable pub dec_read_byte : Decoder → Reply ℕ
dec_read_byte = read_as 1 (λ p. at p 0)

unfoldable pub dec_read_be16 : Decoder → Reply ℕ
dec_read_be16 = read_as 2 be16_of

unfoldable pub dec_read_be32 : Decoder → Reply ℕ
dec_read_be32 = read_as 4 be32_of

unfoldable pub dec_read_be64 : Decoder → Reply ℕ
dec_read_be64 = read_as 8 be64_of

-- The major type, the additional information and the argument of a head.
pub record Head : Type 0 where
  pub major : Major
  pub additional : ℕ
  pub argument : ℕ

abbrev pub head_done : Major → ℕ → ℕ → Decoder → Reply Head
head_done mt ai v d = (d, done (record { major = mt; additional = ai; argument = v }))

-- The part of `dec_head` behind the head byte. 31 is the indefinite length, 28 to 30 are reserved.
unfoldable pub dec_argument : Major → ℕ → Decoder → Reply Head
dec_argument mt ai d =
    if leb ai 23
    then head_done mt ai ai d
    else if ai == 24
    then (dec_read_byte >>= head_done mt ai) d
    else if ai == 25
    then (dec_read_be16 >>= head_done mt ai) d
    else if ai == 26
    then (dec_read_be32 >>= head_done mt ai) d
    else if ai == 27
    then (dec_read_be64 >>= head_done mt ai) d
    else refuse d

-- `dec_head`.
unfoldable pub dec_head : Decoder → Reply Head
dec_head = dec_read_byte >>= λ head. dec_argument (major_of (shr head 5)) (bit_and head 0x1f)

-- The `simple` member of an item, which the `memset` clears. Floats are bit patterns.
pub record Simple : Type 0 where
  pub simple_val : ℕ
  pub float_val : ℕ
  pub double_val : ℕ
  pub is_float : Bool
  pub is_double : Bool

-- `bio_cbor_item_t`: for each type the member of the union that was written last. `uint_val` and
-- `int_val` share their storage, so a negative integer has `int_val` alone. A string is the
-- position and the length of its bytes in the source.
pub data Item : Type 0 where
  uint : ℕ → Item
  negint : ℤ → Item
  bstr : ℕ → ℕ → Item
  tstr : ℕ → ℕ → Item
  array : ℕ → Item
  map : ℕ → Item
  tag : ℕ → Item
  simple : Simple → Item

-- `while (!(mant & 0x0400)) { mant <<= 1; exp--; }` with a count of the rounds that may be left:
-- ten, for a mantissa that is neither 0 nor above ten bits.
unfoldable pub normalize : ℕ → ℕ → ℕ → ℕ × ℕ
normalize zero mant exp = (mant, exp)
normalize (suc fuel) mant exp =
    let next = normalize fuel (u32 (mant * 2)) ((exp + 2 ^ 32 - 1) % 2 ^ 32) in
    if bit_and mant 0x0400 == 0 then next else (mant, exp)

-- `sign | (exp + 127 - 15) << 23 | mant << 13` on `uint32_t`.
abbrev pub single_of : ℕ → ℕ → ℕ → ℕ
single_of sign exp mant =
    bit_or (bit_or sign (u32 ((exp + 127 + 2 ^ 32 - 15) % 2 ^ 32 * 2 ^ 23))) (u32 (mant * 2 ^ 13))

-- A half-precision pattern as the single-precision pattern of the same value.
unfoldable pub half_to_single : ℕ → ℕ
half_to_single half =
    let sign = u32 (bit_and half 0x8000 * 2 ^ 16) in
    let exp = bit_and (shr half 10) 0x1f in
    let mant = bit_and half 0x03ff in
    let subnormal =
      (let (mant', exp') = normalize 10 mant 1 in single_of sign exp' (bit_and mant' 0x03ff)) in
    if exp == 0
    then (if mant == 0 then sign else subnormal)
    else if exp == 31
    then bit_or (bit_or sign 0x7f80_0000) (u32 (mant * 2 ^ 13))
    else single_of sign exp mant

abbrev pub cleared : Simple
cleared = record {
  simple_val = 0;
  float_val = 0;
  double_val = 0;
  is_float = false;
  is_double = false;
}

-- The `BIO_CBOR_SIMPLE` case of `bio_cbor_decode_next`.
unfoldable pub simple_item : ℕ → ℕ → Item
simple_item ai v =
    if leb ai 24
    then simple (record cleared { simple_val = u8 v })
    else if ai == 25
    then simple (record cleared { float_val = half_to_single (u16 v); is_float = true })
    else if ai == 26
    then simple (record cleared { float_val = u32 v; is_float = true })
    else if ai == 27
    then simple (record cleared { double_val = v; is_double = true })
    else simple cleared

-- `-1 - (int64_t)argument`, or the sentinel INT64_MIN.
unfoldable pub int_val : ℕ → ℤ
int_val v = if leb v (2 ^ 63 - 1) then negsuc v else negsuc (2 ^ 63 - 1)

-- The cases BSTR and TSTR: the payload lies in the rest of the source.
unfoldable pub string_item : (ℕ → ℕ → Item) → ℕ → Decoder → Reply Item
string_item make v d =
    if ltb size_max v
    then refuse d
    else if ltb d.size d.offset || ltb (sub_size d.size d.offset) v
    then refuse d
    else (record d { offset = add_size d.offset v }, done (make d.offset v))

-- The `switch` of `bio_cbor_decode_next` on the major type.
unfoldable pub item_of : Major → ℕ → ℕ → Decoder → Reply Item
item_of Major.uint ai v d = (d, done (uint v))
item_of Major.negint ai v d = (d, done (negint (int_val v)))
item_of Major.bstr ai v d = string_item bstr v d
item_of Major.tstr ai v d = string_item tstr v d
item_of Major.array ai v d =
    if ltb size_max v || ltb (sub_size d.size d.offset) v then refuse d else (d, done (array v))
item_of Major.map ai v d =
    if ltb (size_max / 2) v || ltb (sub_size d.size d.offset) (v * 2 % 2 ^ 64)
    then refuse d
    else (d, done (map v))
item_of Major.tag ai v d = (d, done (tag v))
item_of Major.simple ai v d = (d, done (simple_item ai v))

-- `bio_cbor_decode_next`.
unfoldable pub decode_next : Decoder → Reply Item
decode_next = dec_head >>= λ h. item_of h.major h.additional h.argument

-- `for (i = 0; i < n; i++) { rc = k(dec); if (rc != BIO_OK) return rc; }`
unfoldable pub times : ℕ → (Decoder → Reply (Unit {0})) → Decoder → Reply (Unit {0})
times zero k d = (d, done tt)
times (suc n) k d = let r = k d in and_then r.0 r.1 (λ _ d'. times n k d')

-- What `cbor_skip_item_depth` does behind the head of the item, with `skip` for the nested calls.
unfoldable pub skip_rest : (Decoder → Reply (Unit {0})) → Item → Decoder → Reply (Unit {0})
skip_rest skip (array n) d = times n skip d
skip_rest skip (map n) d = times n (skip >>= λ _. skip) d
skip_rest skip (tag n) d = skip d
skip_rest skip _ d = (d, done tt)

-- `cbor_skip_item_depth`. The number is `BIO_CBOR_MAX_DEPTH + 1 - depth`: at 0 the nesting is
-- too deep.
unfoldable pub skip_depth : ℕ → Decoder → Reply (Unit {0})
skip_depth zero d = (record d { error = true; err_code = cbor_nesting }, fail cbor_nesting)
skip_depth (suc levels) d = (decode_next >>= skip_rest (skip_depth levels)) d

-- `bio_cbor_skip`.
unfoldable pub skip : Decoder → Reply (Unit {0})
skip = skip_depth (max_depth + 1)
