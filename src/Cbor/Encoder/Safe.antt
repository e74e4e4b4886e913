-- ===== src/Cbor/Encoder/Safe.antt =====
-- Memory safety of src/cbor/bio_cbor_encoder.c: whatever calls are made, in whatever order, no
-- byte outside the buffer is written and no byte that was written before is changed.
use hiya.Base.{
  ℕ, zero, suc, ◌+◌, ◌^◌, ◌≤◌, ◌<◌, ◌≡◌, refl, sym, ◌∙◌, ap, Bool, true, false, List, [], ◌∷◌,
  length, take, length-memcpy, take-memcpy_front, length-set, Status, ok, arith, ltb, leb, ◌==◌,
  if◌then◌else◌,
}
use hiya.Cbor.{Major, max_depth, add_size}
use hiya.Cbor.Encoder.{
  Encoder, Frame, Outcome, ◌>>◌, resume, track, enc_write, enc_write_byte, enc_write_be16,
  enc_write_be32, enc_write_be64, enc_head,
}
use hiya.Cbor.Encoder.Calls.{push_frame}
use hiya.Cbor.Encoder.Track.{enc_track_item-Counted, enc_track_item-same}

-- The buffer has its capacity, the cursor is inside it, and so is the depth in the stack. It
-- holds with or without an error.
pub record InMemory (e : Encoder) : Type 0 where
  pub storage : length e.buf ≡ e.capacity
  pub within : e.offset ≤ e.capacity
  pub small : e.capacity < 2 ^ 63
  pub slots : length e.stack ≡ max_depth
  pub shallow : e.depth ≤ max_depth

-- From `e` to `e'` what was written is kept.
pub record Kept (e e' : Encoder) : Type 0 where
  pub safe : InMemory e'
  pub capacity_same : e'.capacity ≡ e.capacity
  pub forward : e.offset ≤ e'.offset
  pub output_kept : take e.offset e'.buf ≡ take e.offset e.buf

pub Kept-refl : (e : Encoder) → InMemory e → Kept e e
Kept-refl e m = record { safe = m; capacity_same = refl; forward = omega arith; output_kept = refl }

take-take : (m n : ℕ) (xs : List ℕ) → m ≤ n → take m (take n xs) ≡ take m xs
take-take zero n xs h = refl
take-take (suc m) zero xs h = absurd (omega arith)
take-take (suc m) (suc n) [] h = refl
take-take (suc m) (suc n) (x ∷ xs) h = ap (◌∷◌ x) (take-take m n xs (omega arith))

take-take_le : (m n : ℕ) (xs ys : List ℕ) → m ≤ n → take n xs ≡ take n ys → take m xs ≡ take m ys
take-take_le m n xs ys h e = sym (take-take m n xs h) ∙ ap (take m) e ∙ take-take m n ys h

pub Kept-trans : (d e f : Encoder) → Kept d e → Kept e f → Kept d f
Kept-trans d e f p q = record {
  safe = q.safe;
  capacity_same = q.capacity_same ∙ p.capacity_same;
  forward = omega (arith, p.forward, q.forward);
  output_kept = take-take_le d.offset e.offset f.buf e.buf p.forward q.output_kept ∙ p.output_kept;
}

-- The outcome of a call from `e`, and a call from any encoder.
pub record Leaves (e : Encoder) (r : Outcome) : Type 0 where
  pub kept : Kept e r.0

pub record Keeps (k : Encoder → Outcome) : Type 0 where
  pub keeps : (e : Encoder) → InMemory e → Leaves e (k e)

pub resume-Leaves :
    {d : Encoder} (e : Encoder) (s : Status) (k : Encoder → Outcome)
    → Kept d e
    → Keeps k
    → Leaves d (resume k e s)
resume-Leaves {d} e ok k p f = record { kept = Kept-trans d e (k e).0 p (f.keeps e p.safe).kept }
resume-Leaves e _ k p f = record { kept = p }

pub >>-Keeps : {m k : Encoder → Outcome} → Keeps m → Keeps k → Keeps (m >> k)
>>-Keeps {m} {k} f g = record {
  keeps = λ e s. resume-Leaves (m e).0 (m e).1 k (f.keeps e s).kept g;
}

pub if-Leaves :
    {e : Encoder} (b : Bool) {x y : Outcome}
    → (b ≡ true → Leaves e x)
    → (b ≡ false → Leaves e y)
    → Leaves e (if b then x else y)
if-Leaves true f g = f refl
if-Leaves false f g = g refl

if-Keeps : (b : Bool) {m k : Encoder → Outcome} → Keeps m → Keeps k → Keeps (if b then m else k)
if-Keeps true f g = f
if-Keeps false f g = g

pub fail-Kept : (e : Encoder) → InMemory e → Kept e (record e { error = true })
fail-Kept e m = record {
  safe = record {
    storage = m.storage;
    within = m.within;
    small = m.small;
    slots = m.slots;
    shallow = m.shallow;
  };
  capacity_same = refl;
  forward = omega arith;
  output_kept = refl;
}

-- The bytes of a write are an object in memory too.
enc_write-Leaves :
    (bs : List ℕ) (e : Encoder) → length bs < 2 ^ 63 → InMemory e → Leaves e (enc_write bs e)
unfolding enc_write
enc_write-Leaves bs e l m =
    if-Leaves e.error (λ _. record { kept = Kept-refl e m })
      λ _.
        if-Leaves (ltb e.capacity (add_size e.offset (length bs)))
          (λ _. record { kept = fail-Kept e m })
          λ p.
            let room : e.offset + length bs ≤ e.capacity = ground arith in
            let sum : add_size e.offset (length bs) ≡ e.offset + length bs = omega arith in
            record {
              kept = record {
                safe = record {
                  storage = length-memcpy e.buf e.offset bs (omega arith) ∙ m.storage;
                  within = omega arith;
                  small = m.small;
                  slots = m.slots;
                  shallow = m.shallow;
                };
                capacity_same = refl;
                forward = omega arith;
                output_kept =
                    take-memcpy_front e.buf e.offset e.offset bs (omega arith) (omega arith);
              };
            }

pub enc_write-Keeps : (bs : List ℕ) → length bs < 2 ^ 63 → Keeps (enc_write bs)
enc_write-Keeps bs l = record { keeps = λ e m. enc_write-Leaves bs e l m }

pub enc_write_byte-Keeps : (b : ℕ) → Keeps (enc_write_byte b)
unfolding enc_write_byte
enc_write_byte-Keeps b = enc_write-Keeps _ (omega arith)

enc_write_be16-Keeps : (v : ℕ) → Keeps (enc_write_be16 v)
unfolding enc_write_be16
enc_write_be16-Keeps v = enc_write-Keeps _ (omega arith)

pub enc_write_be32-Keeps : (v : ℕ) → Keeps (enc_write_be32 v)
unfolding enc_write_be32
enc_write_be32-Keeps v = enc_write-Keeps _ (omega arith)

pub enc_write_be64-Keeps : (v : ℕ) → Keeps (enc_write_be64 v)
unfolding enc_write_be64
enc_write_be64-Keeps v = enc_write-Keeps _ (omega arith)

pub enc_head-Keeps : (mt : Major) (v : ℕ) → Keeps (enc_head mt v)
unfolding enc_head
enc_head-Keeps mt v = if-Keeps (leb v 23) (enc_write_byte-Keeps _) (
    if-Keeps (leb v 0xff) (>>-Keeps (enc_write_byte-Keeps _) (enc_write_byte-Keeps _)) (
      if-Keeps (leb v 0xffff) (>>-Keeps (enc_write_byte-Keeps _) (enc_write_be16-Keeps _)) (
        if-Keeps (leb v 0xffff_ffff) (>>-Keeps (enc_write_byte-Keeps _) (enc_write_be32-Keeps _))
          (>>-Keeps (enc_write_byte-Keeps _) (enc_write_be64-Keeps _)))))

pub track-Keeps : Keeps track
track-Keeps = record { keeps = counted }
  where
    counted : (e : Encoder) → InMemory e → Leaves e (track e)
    counted e m =
        let (buf, offset, capacity, error) = enc_track_item-same e in
        let c = enc_track_item-Counted e m.slots m.shallow in
        record {
          kept = record {
            safe = record {
              storage = ap length buf ∙ m.storage ∙ sym capacity;
              within = omega arith;
              small = omega arith;
              slots = c.slots ∙ m.slots;
              shallow = omega (arith, c.shallow, m.shallow);
            };
            capacity_same = capacity;
            forward = omega arith;
            output_kept = ap (take e.offset) buf;
          };
        }

pub item-Keeps : (mt : Major) (v : ℕ) → Keeps (enc_head mt v >> track)
item-Keeps mt v = >>-Keeps (enc_head-Keeps mt v) track-Keeps

-- With another stack of the same size.
stack-Kept :
    (e : Encoder) (st : List Frame) (d : ℕ)
    → InMemory e
    → length st ≡ length e.stack
    → d ≤ max_depth
    → Kept e (record e { stack = st; depth = d })
stack-Kept e st d m l h = record {
  safe = record {
    storage = m.storage;
    within = m.within;
    small = m.small;
    slots = l ∙ m.slots;
    shallow = h;
  };
  capacity_same = refl;
  forward = omega arith;
  output_kept = refl;
}

-- A frame is pushed only where the depth was tested. The head leaves the depth alone.
pub push_frame-Leaves :
    (mt : Major) (items count : ℕ) (e : Encoder)
    → InMemory e
    → e.depth < max_depth
    → Leaves e (push_frame mt items count e)
push_frame-Leaves mt items count e m d =
    let l = length-set e.stack e.depth (record { kind = mt; count = items; written = 0 }) in
    if-Leaves (count == 0)
      (λ _.
        let k = stack-Kept e _ e.depth m l (omega arith) in resume-Leaves _ ok track k track-Keeps)
      (λ _. record { kept = stack-Kept e _ (e.depth + 1) m l (omega arith) })
