-- ===== src/Cbor/Tree/Emit/Scalars.antt =====
-- The items that open no container, each by its call.
use hiya.Base.{
  ℕ, ◌^◌, ◌≤◌, ◌<◌, ◌≡◌, refl, ap, List, [], ◌∷◌, ◌++◌, length, append-nil, length-append, arith,
  some, true, false, leb, ltb, inl, inr, take-length, ◌&&◌,
}
use hiya.Cbor.{Major, u8, shr}
use hiya.Cbor.Head.{head, be, additional, follow}
use hiya.Cbor.Tree.{simple, IsValid}
use hiya.Cbor.Encoder.{
  Encoder, ◌>>◌, track, enc_write, enc_head, enc_write_byte, enc_write_be32, enc_write_be64,
}
use hiya.Cbor.Encoder.Calls.{encode_string, encode_simple, encode_float, encode_double}
use hiya.Cbor.Encoder.Write.{IsReady, Fits}
use hiya.Cbor.Encoder.Track.{frames, count_item}
use hiya.Cbor.Encoder.Emitted.{
  Emitted, Emitted-then, Emitted-track, enc_head-Emitted, enc_write-Emitted,
}

-- A head by itself, then the item is counted.
pub head_item :
    (e : Encoder) (mt : Major) (v : ℕ)
    → IsReady e
    → v < 2 ^ 64
    → Fits e (length (head mt v))
    → Emitted e (head mt v) (count_item (frames e)) ((enc_head mt v >> track) e)
head_item e mt v r hv h = Emitted-track e (head mt v) _ (enc_head-Emitted e mt v r hv h)

-- A head, the payload, and then the item is counted. No payload is not written.
pub string_item :
    (e : Encoder) (mt : Major) (bs : List ℕ)
    → IsReady e
    → length bs < 2 ^ 63
    → Fits e (length (head mt (length bs) ++ bs))
    → Emitted e
        (head mt (length bs) ++ bs)
        (count_item (frames e))
        (encode_string mt (some bs) (length bs) e)
unfolding encode_string
string_item e mt [] r hl h =
    let p = append-nil (head mt 0) in
    rw p (head_item e mt 0 r (omega arith) (omega (arith, ap length p)))
string_item e mt (b ∷ bs) r hl h =
    let n = length (b ∷ bs) in
    let sum = length-append (head mt n) (b ∷ bs) in
    let some_bytes : ltb 0 n ≡ true = ground arith in
    rw (some_bytes, take-length bs)
      (Emitted-track e (head mt n ++ (b ∷ bs)) _ (
        Emitted-then e (head mt n) (b ∷ bs) (head mt n ++ (b ∷ bs)) (frames e) (frames e) _
          (enc_write (b ∷ bs)) refl (enc_head-Emitted e mt n r (omega arith) (omega arith))
          λ e' c.
            rw (← c.open_now) (
              enc_write-Emitted e' (b ∷ bs) c.ready (omega (arith, c.offset_now, c.capacity_now)))))

-- A byte that holds the type and the size, the bits, and then the item is counted.
bits_item :
    (e : Encoder) (b : ℕ) (bs : List ℕ)
    → IsReady e
    → Fits e (length (b ∷ bs))
    → Emitted e (b ∷ bs) (count_item (frames e)) ((enc_write (b ∷ []) >> enc_write bs >> track) e)
bits_item e b bs r h = Emitted-track e (b ∷ bs) _ (
    Emitted-then e (b ∷ []) bs (b ∷ bs) (frames e) (frames e) _ (enc_write bs) refl
      (enc_write-Emitted e (b ∷ []) r (omega arith))
      λ e' c.
        rw (← c.open_now)
          (enc_write-Emitted e' bs c.ready (omega (arith, c.offset_now, c.capacity_now))))

pub float_item :
    (e : Encoder) (bits : ℕ)
    → IsReady e
    → Fits e 5
    → Emitted e (0xfa ∷ be 4 bits) (count_item (frames e)) (encode_float bits e)
unfolding encode_float enc_write_byte enc_write_be32
float_item e bits r h = rw (word bits) (bits_item e 0xfa (be 4 bits) r h)
  where
    word : (v : ℕ) → u8 (shr v 24) ∷ u8 (shr v 16) ∷ u8 (shr v 8) ∷ u8 v ∷ [] ≡ be 4 v
    word v = ground arith

pub double_item :
    (e : Encoder) (bits : ℕ)
    → IsReady e
    → Fits e 9
    → Emitted e (0xfb ∷ be 8 bits) (count_item (frames e)) (encode_double bits e)
unfolding encode_double enc_write_byte enc_write_be64
double_item e bits r h = rw (word bits) (bits_item e 0xfb (be 8 bits) r h)
  where
    word :
        (v : ℕ)
        → u8 (shr v 56)
            ∷ u8 (shr v 48)
            ∷ u8 (shr v 40)
            ∷ u8 (shr v 32)
            ∷ u8 (shr v 24)
            ∷ u8 (shr v 16)
            ∷ u8 (shr v 8)
            ∷ u8 v
            ∷ []
          ≡ be 8 v
    word v = ground arith

two_bytes : (v : ℕ) → 32 ≤ v → v < 256 → head Major.simple v ≡ 0xf8 ∷ v ∷ []
unfolding head additional follow
two_bytes v lo hi = ground arith

-- Simple values: one byte up to 23, two from 32 on.
pub simple_item :
    (e : Encoder) (v : ℕ)
    → IsReady e
    → IsValid (simple v)
    → Fits e (length (head Major.simple v))
    → Emitted e (head Major.simple v) (count_item (frames e)) (encode_simple v e)
unfolding encode_simple
simple_item e v r (inl low) h =
    let plain : leb 24 v && leb v 31 ≡ false = ground arith in
    let short : leb v 23 ≡ true = ground arith in
    rw (plain, short) (head_item e Major.simple v r (omega arith) h)
simple_item e v r (inr (lo, hi)) h =
    let plain : leb 24 v && leb v 31 ≡ false = ground arith in
    let long : leb v 23 ≡ false = ground arith in
    rw (plain, long, two_bytes v lo hi)
      (unfold enc_write_byte in
        bits_item e 0xf8 (v ∷ []) r (omega (arith, ap length (two_bytes v lo hi))))
