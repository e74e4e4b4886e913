-- ===== src/Cbor/Encoder.antt =====
-- src/cbor/bio_cbor_encoder.c. A call returns the encoder that it leaves and its status. The
-- context is a value, so the `if (!enc)` guards, which touch no state, have no counterpart; a
-- data pointer that may be NULL is an option, and logging is left out.
pub mod Calls
pub mod Write
pub mod Track
pub mod Emitted
pub mod Safe
pub mod Runs
use hiya.Base.{
  ℕ, zero, suc, ◌+◌, ◌-◌, ◌*◌, ◌/◌, ◌%◌, ◌^◌, ◌≤◌, ◌<◌, Bool, true, false, ◌&&◌, List, [], ◌∷◌, ltb,
  leb, ◌==◌, if◌then◌else◌, length, take, get_or, set, replicate, memcpy, bit_or, Option, none,
  some, Status, ok, cbor_overflow, cbor_invalid, cbor_nesting, invalid_param,
}
use hiya.Cbor.{
  Major, code, max_depth, size_max, add_size, u8, u16, u32, shr, simple_false, simple_true,
  simple_null, simple_undefined,
}

-- An element of `stack[]`.
pub record Frame : Type 0 where
  pub kind : Major
  pub count : ℕ
  pub written : ℕ

-- `bio_cbor_encoder_t`. `buf` is the caller's memory of `capacity` bytes.
pub record Encoder : Type 0 where
  pub buf : List ℕ
  pub capacity : ℕ
  pub offset : ℕ
  pub error : Bool
  pub stack : List Frame
  pub depth : ℕ

abbrev pub Outcome : Type 0
Outcome = Encoder × Status

-- `if (rc != BIO_OK) return rc;` before the next call.
abbrev pub resume : (Encoder → Outcome) → Encoder → Status → Outcome
resume k e ok = k e
resume k e rc = (e, rc)

infixl 5 ◌>>◌
abbrev pub ◌>>◌ : (Encoder → Outcome) → (Encoder → Outcome) → Encoder → Outcome
◌>>◌ m k e = let r = m e in resume k r.0 r.1

-- `enc_write`.
unfoldable pub enc_write : List ℕ → Encoder → Outcome
enc_write bs e =
    if e.error
    then (e, cbor_overflow)
    else if ltb e.capacity (add_size e.offset (length bs))
    then (record e { error = true }, cbor_overflow)
    else (record e { buf = memcpy e.buf e.offset bs; offset = add_size e.offset (length bs) }, ok)

unfoldable pub enc_write_byte : ℕ → Encoder → Outcome
enc_write_byte b = enc_write (b ∷ [])

unfoldable pub enc_write_be16 : ℕ → Encoder → Outcome
enc_write_be16 val = enc_write (u8 (shr val 8) ∷ u8 val ∷ [])

unfoldable pub enc_write_be32 : ℕ → Encoder → Outcome
enc_write_be32 val = enc_write (u8 (shr val 24) ∷ u8 (shr val 16) ∷ u8 (shr val 8) ∷ u8 val ∷ [])

unfoldable pub enc_write_be64 : ℕ → Encoder → Outcome
enc_write_be64 val = enc_write (
    u8 (shr val 56)
    ∷ u8 (shr val 48)
    ∷ u8 (shr val 40)
    ∷ u8 (shr val 32)
    ∷ u8 (shr val 24)
    ∷ u8 (shr val 16)
    ∷ u8 (shr val 8)
    ∷ u8 val
    ∷ [])

-- `enc_head`: the head in its shortest form.
unfoldable pub enc_head : Major → ℕ → Encoder → Outcome
enc_head mt value =
    let type_bits = u8 (code mt * 2 ^ 5) in
    if leb value 23
    then enc_write_byte (bit_or type_bits (u8 value))
    else if leb value 0xff
    then enc_write_byte (bit_or type_bits 24) >> enc_write_byte (u8 value)
    else if leb value 0xffff
    then enc_write_byte (bit_or type_bits 25) >> enc_write_be16 (u16 value)
    else if leb value 0xffff_ffff
    then enc_write_byte (bit_or type_bits 26) >> enc_write_be32 (u32 value)
    else enc_write_byte (bit_or type_bits 27) >> enc_write_be64 value

abbrev pub no_frame : Frame
no_frame = record { kind = Major.uint; count = 0; written = 0 }

-- `stack[idx].written++`.
unfoldable pub bump : ℕ → List Frame → List Frame
bump idx st =
    let f = get_or st idx no_frame in set st idx (record f { written = add_size f.written 1 })

unfoldable pub is_complete : Frame → Bool
is_complete f = leb f.count f.written

-- The `while` loop of `enc_track_item`: pops completed containers, each of which is an item of
-- its parent. It recurs on `depth`.
unfoldable pub auto_pop : ℕ → List Frame → List Frame × ℕ
auto_pop zero st = (st, zero)
auto_pop (suc d) st =
    let parent = if ltb 0 d then bump (d - 1) st else st in
    let popped = auto_pop d parent in
    if is_complete (get_or st d no_frame) then popped else (st, suc d)

-- `enc_track_item`.
unfoldable pub enc_track_item : Encoder → Encoder
enc_track_item e =
    if e.depth == 0
    then e
    else let r = auto_pop e.depth (bump (e.depth - 1) e.stack) in
      record e { stack = r.0; depth = r.1 }

-- `if (rc == BIO_OK) enc_track_item(enc); return rc;`
abbrev pub track : Encoder → Outcome
track e = (enc_track_item e, ok)
