-- ===== src/Cbor/Ctap2.antt =====
-- src/cbor/bio_cbor_ctap2.c: heads and item sizes on raw memory. Pointers are not NULL here; a
-- pointer into a buffer is the bytes from there on, beside the length that the code passes along.
pub mod Raw
pub mod Size
pub mod Measure
pub mod Sort
use hiya.Base.{
  ℕ, zero, suc, ◌+◌, ◌-◌, ◌*◌, ◌/◌, ◌^◌, ◌%◌, Bool, true, false, ◌&&◌, ◌||◌, List, [], ◌∷◌, ltb,
  leb, ◌==◌, if◌then◌else◌, drop, memcpy, bit_and, bit_or, Option, none, some, Status, cbor_invalid,
  cbor_nesting, invalid_param,
}
use hiya.Cbor.{Major, code, major_of, size_max, add_size, sub_size, u8, shr}
use hiya.Cbor.Decoder.{Result, done, fail, at, be16_of, be32_of, be64_of}

-- `bio_cbor_encode_head_raw`: the buffer that it leaves, and the number of bytes written, 0 for a
-- buffer that is too small.
unfoldable pub encode_head_raw : List ℕ → ℕ → Major → ℕ → List ℕ × ℕ
encode_head_raw buf cap mt value =
    let type_bits = u8 (code mt * 2 ^ 5) in
    if cap == 0
    then (buf, 0)
    else if leb value 23
    then (memcpy buf 0 (bit_or type_bits (u8 value) ∷ []), 1)
    else if leb value 0xff
    then if ltb cap 2 then (buf, 0) else (memcpy buf 0 (bit_or type_bits 24 ∷ u8 value ∷ []), 2)
    else if leb value 0xffff
    then if ltb cap 3
      then (buf, 0)
      else (memcpy buf 0 (bit_or type_bits 25 ∷ u8 (shr value 8) ∷ u8 value ∷ []), 3)
    else if leb value 0xffff_ffff
    then if ltb cap 5 then (buf, 0) else (
      memcpy buf 0 (
          bit_or type_bits 26
          ∷ u8 (shr value 24)
          ∷ u8 (shr value 16)
          ∷ u8 (shr value 8)
          ∷ u8 value
          ∷ []),
      5,
    )
    else if ltb cap 9
    then (buf, 0)
    else (
      memcpy buf 0 (
          bit_or type_bits 27
          ∷ u8 (shr value 56)
          ∷ u8 (shr value 48)
          ∷ u8 (shr value 40)
          ∷ u8 (shr value 32)
          ∷ u8 (shr value 24)
          ∷ u8 (shr value 16)
          ∷ u8 (shr value 8)
          ∷ u8 value
          ∷ []),
      9,
    )

-- What `bio_cbor_decode_head_raw` returns when it does not return 0.
pub record RawHead : Type 0 where
  pub used : ℕ
  pub major : Major
  pub value : ℕ

abbrev sized : ℕ → Major → ℕ → ℕ → Option RawHead
sized n mt size v = if ltb size n then none else some (record { used = n; major = mt; value = v })

-- `bio_cbor_decode_head_raw`.
unfoldable pub decode_head_raw : List ℕ → ℕ → Option RawHead
decode_head_raw p size =
    let mt = major_of (shr (at p 0) 5) in
    let ai = bit_and (at p 0) 0x1f in
    if size == 0
    then none
    else if leb ai 23
    then some (record { used = 1; major = mt; value = ai })
    else if ai == 24
    then sized 2 mt size (at p 1)
    else if ai == 25
    then sized 3 mt size (be16_of (drop 1 p))
    else if ai == 26
    then sized 5 mt size (be32_of (drop 1 p))
    else if ai == 27
    then sized 9 mt size (be64_of (drop 1 p))
    else none

-- The loops over the items of a container, from `total` on; `child` is the nested call.
unfoldable pub size_loop : (List ℕ → ℕ → Result ℕ) → ℕ → List ℕ → ℕ → ℕ → Result ℕ
size_loop child zero p len total = done total
size_loop child (suc n) p len total = elim (leb len total) [
  | true ↦ fail cbor_invalid
  | false ↦ elim (child (drop total p) (len - total)) [
    | done sz ↦ size_loop child n p len (add_size total sz)
    | fail s ↦ fail s
  ]
]

-- The case TAG: the head and one nested item. `head_sz` is at most `len`.
abbrev size_tag : ℕ → Result ℕ → Result ℕ
size_tag head_sz (done sz) = done (add_size head_sz sz)
size_tag head_sz (fail s) = fail s

abbrev pub simple_size : ℕ → ℕ → ℕ
simple_size ai head_sz =
    if ai == 25 then 3 else if ai == 26 then 5 else if ai == 27 then 9 else head_sz

-- The `switch` of `cbor_item_encoded_size_depth`.
unfoldable pub size_of_head : (List ℕ → ℕ → Result ℕ) → RawHead → Major → List ℕ → ℕ → Result ℕ
size_of_head child h Major.uint p len = done h.used
size_of_head child h Major.negint p len = done h.used
size_of_head child h Major.bstr p len =
    if ltb (size_max - h.used) h.value || ltb len (add_size h.used h.value)
    then fail cbor_invalid
    else done (add_size h.used h.value)
size_of_head child h Major.tstr p len =
    if ltb (size_max - h.used) h.value || ltb len (add_size h.used h.value)
    then fail cbor_invalid
    else done (add_size h.used h.value)
size_of_head child h Major.tag p len = size_tag h.used (child (drop h.used p) (len - h.used))
size_of_head child h Major.array p len = size_loop child h.value p len h.used
size_of_head child h Major.map p len =
    if ltb (size_max / 2) h.value
    then fail cbor_invalid
    else size_loop child (h.value * 2) p len h.used
size_of_head child h Major.simple p len =
    let sz = simple_size (bit_and (at p 0) 0x1f) h.used in
    if ltb len sz then fail cbor_invalid else done sz

abbrev with_head : (List ℕ → ℕ → Result ℕ) → Option RawHead → List ℕ → ℕ → Result ℕ
with_head child none p len = fail cbor_invalid
with_head child (some h) p len = size_of_head child h h.major p len

-- `cbor_item_encoded_size_depth`. The number is `33 - depth`: at 0 the nesting is too deep.
unfoldable pub size_depth : ℕ → List ℕ → ℕ → Result ℕ
size_depth zero p len = fail cbor_nesting
size_depth (suc levels) p len =
    if len == 0
    then fail invalid_param
    else with_head (size_depth levels) (decode_head_raw p len) p len

-- `bio_cbor_item_encoded_size`.
unfoldable pub item_encoded_size : List ℕ → ℕ → Result ℕ
item_encoded_size p len = size_depth 33 p len
