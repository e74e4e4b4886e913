-- ===== src/Cbor/Encoder/Write.antt =====
-- What the writes of src/cbor/bio_cbor_encoder.c do to the buffer, front an append.
use hiya.Base.{
  ℕ, zero, suc, ◌+◌, ◌*◌, ◌^◌, ◌≤◌, ◌<◌, ◌≡◌, refl, ◌∙◌, ap, true, false, List, [], ◌∷◌, ◌++◌,
  length, take, memcpy, length-memcpy, take-memcpy, arith, ok, cbor_overflow, length-append, bit_or,
  leb, Bool-cases, inl, inr, if◌then◌else◌,
}
use hiya.Cbor.{Major, max_depth, code, u8}
use hiya.Cbor.Head.{head, head_byte, be, follow, additional}
use hiya.Cbor.Encoder.{
  Encoder, Outcome, ◌>>◌, enc_write, enc_write_byte, enc_write_be16, enc_write_be32, enc_write_be64,
  enc_head,
}

-- The invariant of an encoder that has met no error.
pub record IsReady (e : Encoder) : Type 0 where
  pub storage : length e.buf ≡ e.capacity
  pub within : e.offset ≤ e.capacity
  pub small : e.capacity < 2 ^ 63
  pub fine : e.error ≡ false
  pub slots : length e.stack ≡ max_depth
  pub shallow : e.depth ≤ max_depth

-- The bytes written so far.
abbrev pub output : Encoder → List ℕ
output e = take e.offset e.buf

abbrev pub Fits : Encoder → ℕ → Type 0
Fits e n = e.offset + n ≤ e.capacity

-- The encoder after `bs` is written.
abbrev pub append : Encoder → List ℕ → Encoder
append e bs = record e { buf = memcpy e.buf e.offset bs; offset = e.offset + length bs }

pub enc_write-Fits :
    (e : Encoder) (bs : List ℕ)
    → IsReady e
    → Fits e (length bs)
    → enc_write bs e ≡ (append e bs, ok)
unfolding enc_write
enc_write-Fits e bs r h = ground arith

pub enc_write-full :
    (e : Encoder) (bs : List ℕ)
    → IsReady e
    → length bs < 2 ^ 63
    → e.capacity < e.offset + length bs
    → enc_write bs e ≡ (record e { error = true }, cbor_overflow)
unfolding enc_write
enc_write-full e bs r l h = ground arith

pub append-IsReady :
    (e : Encoder) (bs : List ℕ) → IsReady e → Fits e (length bs) → IsReady (append e bs)
append-IsReady e bs r h = record {
  storage = omega (arith, length-memcpy e.buf e.offset bs (omega arith));
  within = h;
  small = r.small;
  fine = r.fine;
  slots = r.slots;
  shallow = r.shallow;
}

pub output-append :
    (e : Encoder) (bs : List ℕ)
    → IsReady e
    → Fits e (length bs)
    → output (append e bs) ≡ output e ++ bs
output-append e bs r h = take-memcpy e.buf e.offset (e.offset + length bs) bs (omega arith) refl

memcpy-memcpy :
    (buf : List ℕ) (i n : ℕ) (front bs : List ℕ)
    → n ≡ i + length front
    → memcpy (memcpy buf i front) n bs ≡ memcpy buf i (front ++ bs)
memcpy-memcpy buf zero zero [] bs h = refl
memcpy-memcpy buf zero (suc n) [] bs h = absurd (omega arith)
memcpy-memcpy buf zero zero (a ∷ front) bs h = absurd (omega arith)
memcpy-memcpy [] zero (suc n) (a ∷ front) bs h =
    ap (◌∷◌ a) (memcpy-memcpy [] zero n front bs (omega arith))
memcpy-memcpy (x ∷ buf) zero (suc n) (a ∷ front) bs h =
    ap (◌∷◌ a) (memcpy-memcpy buf zero n front bs (omega arith))
memcpy-memcpy buf (suc i) zero front bs h = absurd (omega arith)
memcpy-memcpy [] (suc i) (suc n) front bs h =
    ap (◌∷◌ 0) (memcpy-memcpy [] i n front bs (omega arith))
memcpy-memcpy (x ∷ buf) (suc i) (suc n) front bs h =
    ap (◌∷◌ x) (memcpy-memcpy buf i n front bs (omega arith))

pub append-append :
    (e : Encoder) (front bs : List ℕ) → append (append e front) bs ≡ append e (front ++ bs)
append-append e front bs = λ i. record e {
  buf = memcpy-memcpy e.buf e.offset (e.offset + length front) front bs refl i;
  offset = sum i;
}
  where
    sum : e.offset + length front + length bs ≡ e.offset + length (front ++ bs)
    sum = omega (arith, length-append front bs)

-- A write that goes on with another one.
pub write_then :
    (e : Encoder) (front : List ℕ) (k : Encoder → Outcome)
    → IsReady e
    → Fits e (length front)
    → (enc_write front >> k) e ≡ k (append e front)
write_then e front k r h = rw (enc_write-Fits e front r h)

pub write_twice :
    (e : Encoder) (front bs cs : List ℕ)
    → IsReady e
    → front ++ bs ≡ cs
    → Fits e (length cs)
    → (enc_write front >> enc_write bs) e ≡ (append e cs, ok)
write_twice e front bs cs r p h =
    write_then e front (enc_write bs) r (omega (arith, len))
    ∙ enc_write-Fits (append e front) bs (append-IsReady e front r (omega (arith, len)))
        (omega (arith, len))
    ∙ ap (λ x. (x, ok)) (append-append e front bs ∙ ap (append e) p)
  where
    len : length cs ≡ length front + length bs
    len = rw (← p) (length-append front bs)

u8_ai : (mt : Major) (ai : ℕ) → ai < 32 → bit_or (u8 (code mt * 2 ^ 5)) (u8 ai) ≡ code mt * 32 + ai
u8_ai mt ai h = rw (small) (head_byte mt ai h)
  where
    small : u8 ai ≡ ai
    small = omega arith

-- The calls of `enc_head`, by the bytes that they write.
enc_head_calls :
    (mt : Major) (v : ℕ)
    → v < 2 ^ 64
    → enc_head mt v ≡ (
        if leb v 23
        then enc_write (head mt v)
        else enc_write ((code mt * 32 + additional v) ∷ []) >> enc_write (be (follow v) v))
unfolding enc_head head additional follow enc_write_byte enc_write_be16 enc_write_be32
    enc_write_be64
enc_head_calls mt v h =
    ground (arith, u8_ai mt v, head_byte mt 24, head_byte mt 25, head_byte mt 26, head_byte mt 27)

-- For an encoder without error that is in memory, with room for it, `enc_head` appends the
-- shortest head of RFC 8949 for an argument below 2 ^ 64 and succeeds.
pub enc_head-Fits :
    (e : Encoder) (mt : Major) (v : ℕ)
    → IsReady e
    → v < 2 ^ 64
    → Fits e (length (head mt v))
    → enc_head mt v e ≡ (append e (head mt v), ok)
enc_head-Fits e mt v r hv h = elim (Bool-cases (leb v 23)) [
  | inl p ↦ rw (enc_head_calls mt v hv, p) (enc_write-Fits e (head mt v) r h)
  | inr p ↦
      rw (enc_head_calls mt v hv, p)
        (write_twice e ((code mt * 32 + additional v) ∷ []) (be (follow v) v) (head mt v) r
          (unfold head in refl) h)
]
