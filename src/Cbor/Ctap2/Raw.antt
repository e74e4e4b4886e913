-- ===== src/Cbor/Ctap2/Raw.antt =====
-- The raw head functions of src/cbor/bio_cbor_ctap2.c against the head of RFC 8949 and against
-- the decoder.
use hiya.Base.{
  ℕ, ◌+◌, ◌*◌, ◌^◌, ◌≤◌, ◌<◌, ◌≡◌, List, [], ◌∷◌, ◌++◌, length, memcpy, Bool-cases, inl, inr,
  bit_or, some, leb, if◌then◌else◌, arith,
}
use hiya.Cbor.{Major, code, u8, shr}
use hiya.Cbor.Head.{head, head_byte, be, additional, follow, length-head}
use hiya.Cbor.Decoder.{be16_of, be32_of, be64_of}
use hiya.Cbor.Decoder.Read.{
  Carries, Carries-shortest, byte_fields, be16_of-be, be32_of-be, be64_of-be,
}
use hiya.Cbor.Ctap2.{encode_head_raw, decode_head_raw}

-- The bytes of each branch are those of the shortest head.
one_byte :
    (mt : Major) (v : ℕ)
    → v ≤ 23
    → (bit_or (u8 (code mt * 2 ^ 5)) (u8 v) ∷ [] ≡ head mt v) × (follow v ≡ 0)
unfolding head additional follow
one_byte mt v h = (rw (small, head_byte mt v (omega arith)) (ground arith), ground arith)
  where
    small : u8 v ≡ v
    small = omega arith

two_bytes :
    (mt : Major) (v : ℕ)
    → 23 < v
    → v ≤ 0xff
    → (bit_or (u8 (code mt * 2 ^ 5)) 24 ∷ u8 v ∷ [] ≡ head mt v) × (follow v ≡ 1)
unfolding head additional follow
two_bytes mt v h g = (rw (head_byte mt 24 (omega arith)) (ground arith), ground arith)

three_bytes :
    (mt : Major) (v : ℕ)
    → 0xff < v
    → v ≤ 0xffff
    → (bit_or (u8 (code mt * 2 ^ 5)) 25 ∷ u8 (shr v 8) ∷ u8 v ∷ [] ≡ head mt v) × (follow v ≡ 2)
unfolding head additional follow
three_bytes mt v h g = (rw (head_byte mt 25 (omega arith)) (ground arith), ground arith)

five_bytes :
    (mt : Major) (v : ℕ)
    → 0xffff < v
    → v ≤ 0xffff_ffff
    → (bit_or (u8 (code mt * 2 ^ 5)) 26 ∷ u8 (shr v 24) ∷ u8 (shr v 16) ∷ u8 (shr v 8) ∷ u8 v ∷ []
        ≡ head mt v)
      × (follow v ≡ 4)
unfolding head additional follow
five_bytes mt v h g = (rw (head_byte mt 26 (omega arith)) (ground arith), ground arith)

nine_bytes :
    (mt : Major) (v : ℕ)
    → 0xffff_ffff < v
    → v < 2 ^ 64
    → (bit_or (u8 (code mt * 2 ^ 5)) 27
          ∷ u8 (shr v 56)
          ∷ u8 (shr v 48)
          ∷ u8 (shr v 40)
          ∷ u8 (shr v 32)
          ∷ u8 (shr v 24)
          ∷ u8 (shr v 16)
          ∷ u8 (shr v 8)
          ∷ u8 v
          ∷ []
        ≡ head mt v)
      × (follow v ≡ 8)
unfolding head additional follow
nine_bytes mt v h g = (rw (head_byte mt 27 (omega arith)) (ground arith), ground arith)

-- For an argument below 2 ^ 64, `bio_cbor_encode_head_raw` writes the shortest head of RFC 8949
-- and returns its length if the buffer's size allows it, and leaves the buffer as it was and
-- returns 0 if not.
pub encode_head_raw-head :
    (buf : List ℕ) (size : ℕ) (mt : Major) (v : ℕ)
    → v < 2 ^ 64
    → encode_head_raw buf size mt v
      ≡ (if leb (1 + follow v) size then (memcpy buf 0 (head mt v), 1 + follow v) else (buf, 0))
unfolding encode_head_raw
encode_head_raw-head buf size mt v h = elim (Bool-cases (leb v 23)) [
  | inl p ↦ ground (arith, one_byte mt v)
  | inr p ↦ elim (Bool-cases (leb v 0xff)) [
    | inl q ↦ ground (arith, two_bytes mt v)
    | inr q ↦ elim (Bool-cases (leb v 0xffff)) [
      | inl r ↦ ground (arith, three_bytes mt v)
      | inr r ↦ elim (Bool-cases (leb v 0xffff_ffff)) [
        | inl s ↦ ground (arith, five_bytes mt v)
        | inr s ↦ ground (arith, nine_bytes mt v)
      ]
    ]
  ]
]

be16_ahead : (v : ℕ) (back : List ℕ) → v < 2 ^ 16 → be16_of (be 2 v ++ back) ≡ v
unfolding be16_of
be16_ahead v back h = be16_of-be v h

be32_ahead : (v : ℕ) (back : List ℕ) → v < 2 ^ 32 → be32_of (be 4 v ++ back) ≡ v
unfolding be32_of
be32_ahead v back h = be32_of-be v h

be64_ahead : (v : ℕ) (back : List ℕ) → v < 2 ^ 64 → be64_of (be 8 v ++ back) ≡ v
unfolding be64_of
be64_ahead v back h = be64_of-be v h

-- A head in any of the forms of RFC 8949, the shortest or not, on memory of at least its
-- length, is read by `bio_cbor_decode_head_raw` with its length, its major type and its
-- argument.
pub decode_head_raw-Carries :
    (mt : Major) (ai k v size : ℕ) (back : List ℕ)
    → Carries ai k v
    → 1 + k ≤ size
    → decode_head_raw ((code mt * 32 + ai) ∷ (be k v ++ back)) size
      ≡ some (record { used = 1 + k; major = mt; value = v })
unfolding decode_head_raw
decode_head_raw-Carries mt ai k v size back (inl (h, e, g)) l =
    let (top, low) = byte_fields mt ai (omega arith) in rw (top, low, e) (ground arith)
decode_head_raw-Carries mt ai k v size back (inr (inl (h, e, g))) l =
    let (top, low) = byte_fields mt ai (omega arith) in rw (top, low, h, e) (ground arith)
decode_head_raw-Carries mt ai k v size back (inr (inr (inl (h, e, g)))) l =
    let (top, low) = byte_fields mt ai (omega arith) in
    rw (top, low, h, e) (ground (arith, be16_ahead v back g))
decode_head_raw-Carries mt ai k v size back (inr (inr (inr (inl (h, e, g))))) l =
    let (top, low) = byte_fields mt ai (omega arith) in
    rw (top, low, h, e) (ground (arith, be32_ahead v back g))
decode_head_raw-Carries mt ai k v size back (inr (inr (inr (inr (h, e, g))))) l =
    let (top, low) = byte_fields mt ai (omega arith) in
    rw (top, low, h, e) (ground (arith, be64_ahead v back g))

pub decode_head_raw-head :
    (mt : Major) (v size : ℕ) (back : List ℕ)
    → v < 2 ^ 64
    → length (head mt v) ≤ size
    → decode_head_raw (head mt v ++ back) size
      ≡ some (record { used = length (head mt v); major = mt; value = v })
decode_head_raw-head mt v size back h l =
    let n = length-head mt v in
    rw n (
      unfold head in
      decode_head_raw-Carries mt (additional v) (follow v) v size back (Carries-shortest v h)
        (omega arith))
