-- ===== src/Cbor/Tree/Emit/Containers.antt =====
-- The head of a container pushes a frame; each of its items counts, and the last one closes it.
use hiya.Base.{
  ℕ, suc, ◌+◌, ◌*◌, ◌^◌, ◌/◌, ◌<◌, ◌≡◌, refl, sym, ◌∙◌, ap, List, [], ◌∷◌, length, append-nil,
  arith, ok, true, false, leb, ltb, inl, inr, Bool-cases, ◌==◌, if◌then◌else◌, set, length-set,
  get_or-set_self,
}
use mathlib.Core.Path.{ap₂}
use hiya.Cbor.{Major, max_depth, size_max}
use hiya.Cbor.Head.{head}
use hiya.Cbor.Encoder.{Encoder, Frame, no_frame, ◌>>◌, track, enc_head}
use hiya.Cbor.Encoder.Calls.{encode_array, encode_map, push_frame}
use hiya.Cbor.Encoder.Write.{IsReady, Fits}
use hiya.Cbor.Encoder.Track.{frames, open_frames, open_frames-set, count_item, length-open_frames}
use hiya.Cbor.Encoder.Emitted.{Emitted, Continues, Emitted-then, track-Emitted, enc_head-Emitted}

-- The open containers once `done` of `count` items of a container are written.
unfoldable pub partial : Major → ℕ → ℕ → List Frame → List Frame
partial mt count done fs =
    if leb count done
    then count_item fs
    else record { kind = mt; count = count; written = done } ∷ fs

pub partial-full :
    (mt : Major) (count : ℕ) (fs : List Frame) → partial mt count count fs ≡ count_item fs
unfolding partial
partial-full mt count fs = ground arith

pub count_item-partial :
    (mt : Major) (count done : ℕ) (fs : List Frame)
    → done < count
    → count < 2 ^ 64
    → count_item (partial mt count done fs) ≡ partial mt count (done + 1) fs
unfolding partial count_item
count_item-partial mt count done fs h l = ground arith

-- While items are missing the container is open.
pub length-partial :
    (mt : Major) (count done : ℕ) (fs : List Frame)
    → done < count
    → length (partial mt count done fs) ≡ suc (length fs)
unfolding partial
length-partial mt count done fs h = ground arith

abbrev pushed : Encoder → Major → ℕ → List Frame
pushed e mt items = set e.stack e.depth (record { kind = mt; count = items; written = 0 })

-- An empty container is at once an item of its parent.
push_empty :
    (e : Encoder) (mt : Major) (items : ℕ)
    → IsReady e
    → Emitted e [] (count_item (frames e)) (track (record e { stack = pushed e mt items }))
push_empty e mt items r =
    let e' : Encoder = record e { stack = pushed e mt items } in
    let h = track-Emitted e' record {
      storage = r.storage;
      within = r.within;
      small = r.small;
      fine = r.fine;
      slots = length-set e.stack e.depth _ ∙ r.slots;
      shallow = r.shallow;
    } in
    record {
      done = h.done;
      ready = h.ready;
      capacity_now = h.capacity_now;
      offset_now = h.offset_now;
      output_now = h.output_now;
      open_now =
          h.open_now ∙ ap count_item (open_frames-set e.stack e.depth e.depth _ (omega arith));
    }

push_open :
    (e : Encoder) (mt : Major) (items : ℕ)
    → IsReady e
    → e.depth < max_depth
    → Emitted e []
        (record { kind = mt; count = items; written = 0 } ∷ frames e)
        (record e { stack = pushed e mt items; depth = e.depth + 1 }, ok)
unfolding open_frames
push_open e mt items r d = record {
  done = refl;
  ready = record {
    storage = r.storage;
    within = r.within;
    small = r.small;
    fine = r.fine;
    slots = length-set e.stack e.depth _ ∙ r.slots;
    shallow = omega arith;
  };
  capacity_now = refl;
  offset_now = omega arith;
  output_now = sym (append-nil _);
  open_now =
      let up : e.depth + 1 ≡ suc e.depth = omega arith in
      ap (open_frames (pushed e mt items)) up
      ∙ ap₂ ◌∷◌ (get_or-set_self e.stack e.depth _ no_frame (omega (arith, r.slots)))
          (open_frames-set e.stack e.depth e.depth _ (omega arith));
}

push_frame-Emitted :
    (e : Encoder) (mt : Major) (items count : ℕ)
    → IsReady e
    → e.depth < max_depth
    → (count == 0) ≡ (items == 0)
    → Emitted e [] (partial mt items 0 (frames e)) (push_frame mt items count e)
unfolding partial
push_frame-Emitted e mt items count r d z = elim (Bool-cases (items == 0)) [
  | inl p ↦
      let none_left : leb items 0 ≡ true = ground arith in
      rw (none_left, z, p) (push_empty e mt items r)
  | inr p ↦
      let some_left : leb items 0 ≡ false = ground arith in
      rw (some_left, z, p) (push_open e mt items r d)
]

-- The head of a container, and its frame.
container :
    (e : Encoder) (mt : Major) (items count : ℕ)
    → IsReady e
    → count < 2 ^ 64
    → e.depth < max_depth
    → (count == 0) ≡ (items == 0)
    → Fits e (length (head mt count))
    → Emitted e
        (head mt count)
        (partial mt items 0 (frames e))
        ((enc_head mt count >> push_frame mt items count) e)
container e mt items count r l d z h =
    Emitted-then e (head mt count) [] (head mt count) (frames e) (partial mt items 0 (frames e)) _
      (push_frame mt items count) (append-nil _) (enc_head-Emitted e mt count r l h)
      λ e' c. rw (← c.open_now) (push_frame-Emitted e' mt items count c.ready (deep e' c) z)
  where
    deep :
        (e' : Encoder) → Continues e (length (head mt count)) (frames e) e' → e'.depth < max_depth
    deep e' c = omega (
      arith,
      ap length c.open_now,
      length-open_frames e.stack e.depth,
      length-open_frames e'.stack e'.depth,
    )

pub encode_array-Emitted :
    (e : Encoder) (count : ℕ)
    → IsReady e
    → count < 2 ^ 63
    → e.depth < max_depth
    → Fits e (length (head Major.array count))
    → Emitted e
        (head Major.array count)
        (partial Major.array count 0 (frames e))
        (encode_array count e)
unfolding encode_array
encode_array-Emitted e count r l d h =
    let room : leb max_depth e.depth ≡ false = ground arith in
    rw room (container e Major.array count count r (omega arith) d refl h)

pub encode_map-Emitted :
    (e : Encoder) (count : ℕ)
    → IsReady e
    → count < 2 ^ 63
    → e.depth < max_depth
    → Fits e (length (head Major.map count))
    → Emitted e
        (head Major.map count)
        (partial Major.map (count * 2) 0 (frames e))
        (encode_map count e)
unfolding encode_map
encode_map-Emitted e count r l d h =
    let room : leb max_depth e.depth ≡ false = ground arith in
    let small : ltb (size_max / 2) count ≡ false = ground arith in
    rw (room, small) (container e Major.map (count * 2) count r (omega arith) d (ground arith) h)
