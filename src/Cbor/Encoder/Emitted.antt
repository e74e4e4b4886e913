-- ===== src/Cbor/Encoder/Emitted.antt =====
-- What a successful run of encoder calls leaves, and how the runs of calls that follow one
-- another are put together.
use hiya.Base.{
  ℕ, ◌+◌, ◌^◌, ◌<◌, ◌≡◌, refl, sym, ◌∙◌, ap, List, [], ◌++◌, length, append_assoc, append-nil,
  length-append, arith, ok,
}
use hiya.Cbor.{Major}
use hiya.Cbor.Head.{head}
use hiya.Cbor.Encoder.{Encoder, Frame, Outcome, resume, track, enc_write, enc_head}
use hiya.Cbor.Encoder.Write.{
  IsReady, Fits, append, output, output-append, append-IsReady, enc_write-Fits, enc_head-Fits,
}
use hiya.Cbor.Encoder.Track.{
  frames, count_item, enc_track_item-Counted, enc_track_item-IsReady, enc_track_item-same,
}

-- The call succeeded, wrote exactly `bs` behind what was there, and left the containers `fs`
-- open.
pub record Emitted (e : Encoder) (bs : List ℕ) (fs : List Frame) (r : Outcome) : Type 0 where
  pub done : r.1 ≡ ok
  pub ready : IsReady r.0
  pub capacity_now : r.0.capacity ≡ e.capacity
  pub offset_now : r.0.offset ≡ e.offset + length bs
  pub output_now : output r.0 ≡ output e ++ bs
  pub open_now : frames r.0 ≡ fs

pub append-Emitted :
    (e : Encoder) (bs : List ℕ)
    → IsReady e
    → Fits e (length bs)
    → Emitted e bs (frames e) (append e bs, ok)
append-Emitted e bs r h = record {
  done = refl;
  ready = append-IsReady e bs r h;
  capacity_now = refl;
  offset_now = refl;
  output_now = output-append e bs r h;
  open_now = refl;
}

pub enc_write-Emitted :
    (e : Encoder) (bs : List ℕ)
    → IsReady e
    → Fits e (length bs)
    → Emitted e bs (frames e) (enc_write bs e)
enc_write-Emitted e bs r h = rw (enc_write-Fits e bs r h) (append-Emitted e bs r h)

pub enc_head-Emitted :
    (e : Encoder) (mt : Major) (v : ℕ)
    → IsReady e
    → v < 2 ^ 64
    → Fits e (length (head mt v))
    → Emitted e (head mt v) (frames e) (enc_head mt v e)
enc_head-Emitted e mt v r hv h = rw (enc_head-Fits e mt v r hv h) (append-Emitted e (head mt v) r h)

pub track-Emitted : (e : Encoder) → IsReady e → Emitted e [] (count_item (frames e)) (track e)
track-Emitted e r =
    let (buf, offset, capacity, error) = enc_track_item-same e in
    record {
      done = refl;
      ready = enc_track_item-IsReady e r;
      capacity_now = capacity;
      offset_now = omega arith;
      output_now = rw (buf, offset) (sym (append-nil (output e)));
      open_now = (enc_track_item-Counted e r.slots r.shallow).open_now;
    }

-- What the next call may count on.
pub record Continues (e : Encoder) (n : ℕ) (fs : List Frame) (e' : Encoder) : Type 0 where
  pub ready : IsReady e'
  pub capacity_now : e'.capacity ≡ e.capacity
  pub offset_now : e'.offset ≡ e.offset + n
  pub open_now : frames e' ≡ fs

-- One call, and then the rest.
pub Emitted-then :
    (e : Encoder) (front back whole : List ℕ) (fs gs : List Frame) (r : Outcome)
    (k : Encoder → Outcome)
    → front ++ back ≡ whole
    → Emitted e front fs r
    → ((e' : Encoder) → Continues e (length front) fs e' → Emitted e' back gs (k e'))
    → Emitted e whole gs (resume k r.0 r.1)
Emitted-then e front back whole fs gs (e', s) k p h rest =
    let h' : Emitted e front fs (e', s) = h in
    let t = rest e' (record {
      ready = h'.ready;
      capacity_now = h'.capacity_now;
      offset_now = h'.offset_now;
      open_now = h'.open_now;
    }) in
    rw (h'.done) record {
      done = t.done;
      ready = t.ready;
      capacity_now = t.capacity_now ∙ h'.capacity_now;
      offset_now =
          omega (arith, t.offset_now, h'.offset_now, ap length p, length-append front back);
      output_now =
          t.output_now
          ∙ ap (λ x. x ++ back) h'.output_now
          ∙ append_assoc (output e) front back
          ∙ ap (λ x. output e ++ x) p;
      open_now = t.open_now;
    }

-- A call that ends by counting the item that it wrote.
pub Emitted-track :
    (e : Encoder) (bs : List ℕ) (r : Outcome)
    → Emitted e bs (frames e) r
    → Emitted e bs (count_item (frames e)) (resume track r.0 r.1)
Emitted-track e bs r h =
    Emitted-then e bs [] bs (frames e) (count_item (frames e)) r track (append-nil bs) h
      λ e' c. rw (← c.open_now) (track-Emitted e' c.ready)
