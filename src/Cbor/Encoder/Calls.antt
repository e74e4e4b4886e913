-- ===== src/Cbor/Encoder/Calls.antt =====
-- The public calls of src/cbor/bio_cbor_encoder.c, one for each kind of item.
use hiya.Base.{
  ℕ, ◌+◌, ◌*◌, ◌/◌, Bool, true, false, ◌&&◌, List, [], ltb, leb, ◌==◌, if◌then◌else◌, length, take,
  set, replicate, Option, none, some, ok, cbor_invalid, cbor_nesting, invalid_param, ℤ, pos, negsuc,
}
use hiya.Cbor.{Major, max_depth, size_max, simple_false, simple_true, simple_null, simple_undefined}
use hiya.Cbor.Encoder.{
  Encoder, no_frame, Outcome, ◌>>◌, track, enc_write, enc_write_byte, enc_write_be32,
  enc_write_be64, enc_head,
}

-- `bio_cbor_encoder_init`: the `memset`, then the buffer and its size.
unfoldable pub init : List ℕ → ℕ → Encoder
init buf size = record {
  buf = buf;
  capacity = size;
  offset = 0;
  error = false;
  stack = replicate max_depth no_frame;
  depth = 0;
}

-- `bio_cbor_encoder_len`.
unfoldable pub encoder_len : Encoder → ℕ
encoder_len e = if e.error then 0 else e.offset

-- `bio_cbor_encoder_has_error`.
unfoldable pub has_error : Encoder → Bool
has_error e = e.error

unfoldable pub encode_uint : ℕ → Encoder → Outcome
encode_uint value = enc_head Major.uint value >> track

unfoldable pub encode_negint : ℕ → Encoder → Outcome
encode_negint value = enc_head Major.negint value >> track

-- For a negative value, -(value + 1) is the `n` of `negsuc n`.
unfoldable pub encode_int : ℤ → Encoder → Outcome
encode_int (pos n) = encode_uint n
encode_int (negsuc n) = encode_negint n

-- The first `len` bytes behind a pointer.
abbrev pub bytes_at : Option (List ℕ) → ℕ → List ℕ
bytes_at none len = []
bytes_at (some p) len = take len p

abbrev pub is_null : Option (List ℕ) → Bool
is_null none = true
is_null (some p) = false

-- What `bio_cbor_encode_bstr` and `bio_cbor_encode_tstr` do behind their guards, but for the
-- major type: the head, the payload if there is one, and the item is counted.
unfoldable pub encode_string : Major → Option (List ℕ) → ℕ → Encoder → Outcome
encode_string mt p len e =
    if ltb 0 len && is_null p
    then (e, invalid_param)
    else if ltb 0 len
    then (enc_head mt len >> enc_write (bytes_at p len) >> track) e
    else (enc_head mt len >> track) e

unfoldable pub encode_bstr : Option (List ℕ) → ℕ → Encoder → Outcome
encode_bstr p len = encode_string Major.bstr p len

unfoldable pub encode_tstr : Option (List ℕ) → ℕ → Encoder → Outcome
encode_tstr p len = encode_string Major.tstr p len

-- `bio_cbor_encode_tstr_z`: a string of the characters before its NUL, or NULL.
unfoldable pub encode_tstr_z : Option (List ℕ) → Encoder → Outcome
encode_tstr_z none e = (e, invalid_param)
encode_tstr_z (some str) e = encode_tstr (some str) (length str) e

-- The pushed frame, and an empty container closed at once.
abbrev pub push_frame : Major → ℕ → ℕ → Encoder → Outcome
push_frame mt items count e =
    let pushed = set e.stack e.depth (record { kind = mt; count = items; written = 0 }) in
    if count == 0
    then track (record e { stack = pushed })
    else (record e { stack = pushed; depth = e.depth + 1 }, ok)

unfoldable pub encode_array : ℕ → Encoder → Outcome
encode_array count e =
    if leb max_depth e.depth
    then (record e { error = true }, cbor_nesting)
    else (enc_head Major.array count >> push_frame Major.array count count) e

-- `count * 2` does not wrap behind the guard.
unfoldable pub encode_map : ℕ → Encoder → Outcome
encode_map count e =
    if leb max_depth e.depth
    then (record e { error = true }, cbor_nesting)
    else if ltb (size_max / 2) count
    then (record e { error = true }, cbor_nesting)
    else (enc_head Major.map count >> push_frame Major.map (count * 2) count) e

-- A tag is no item of its own: the tagged value is.
unfoldable pub encode_tag : ℕ → Encoder → Outcome
encode_tag tag = enc_head Major.tag tag

unfoldable pub encode_bool : Bool → Encoder → Outcome
encode_bool b = enc_head Major.simple (if b then simple_true else simple_false) >> track

unfoldable pub encode_null : Encoder → Outcome
encode_null = enc_head Major.simple simple_null >> track

unfoldable pub encode_undefined : Encoder → Outcome
encode_undefined = enc_head Major.simple simple_undefined >> track

-- 24 to 31 are reserved; from 32 on the value takes a byte of its own.
unfoldable pub encode_simple : ℕ → Encoder → Outcome
encode_simple value e =
    if leb 24 value && leb value 31
    then (e, cbor_invalid)
    else if leb value 23
    then (enc_head Major.simple value >> track) e
    else (enc_write_byte 0xf8 >> enc_write_byte value >> track) e

-- A float is its IEEE 754 bit pattern, which `memcpy` makes of it.
unfoldable pub encode_float : ℕ → Encoder → Outcome
encode_float bits = enc_write_byte 0xfa >> enc_write_be32 bits >> track

unfoldable pub encode_double : ℕ → Encoder → Outcome
encode_double bits = enc_write_byte 0xfb >> enc_write_be64 bits >> track
