-- ===== src/Cbor/Encoder/Track.antt =====
-- `enc_track_item` of src/cbor/bio_cbor_encoder.c against a count of items on a list of open
-- containers, innermost first.
use hiya.Base.{
  ℕ, zero, suc, ◌+◌, ◌-◌, ◌%◌, ◌^◌, ◌≤◌, ◌<◌, ◌≡◌, refl, ◌∙◌, ap, Bool, true, false, List, [], ◌∷◌,
  length, get_or, set, length-set, get_or-set_self, get_or-set_ne, if◌then◌else◌, arith, ltb, ◌==◌,
  Bool-cases, inl, inr,
}
use hiya.Cbor.{max_depth}
use hiya.Cbor.Encoder.{Encoder, Frame, no_frame, bump, is_complete, auto_pop, enc_track_item}
use hiya.Cbor.Encoder.Write.{IsReady}

-- The containers that are open, innermost first.
unfoldable pub open_frames : List Frame → ℕ → List Frame
open_frames st zero = []
open_frames st (suc d) = get_or st d no_frame ∷ open_frames st d

abbrev pub frames : Encoder → List Frame
frames e = open_frames e.stack e.depth

unfoldable pub tick : Frame → Frame
tick f = record f { written = (f.written + 1) % 2 ^ 64 }

-- No item that the container was opened for is still to come.
unfoldable is_full : Frame → Bool
is_full f = f.count - f.written == 0

-- One more item in the innermost container. A container that it fills is closed, and is itself one
-- more item of the next.
unfoldable pub count_item : List Frame → List Frame
unfolding tick is_full
count_item [] = []
count_item (f ∷ fs) = let rest = count_item fs in if is_full (tick f) then rest else tick f ∷ fs

-- The test of the loop is the one on what is still to come.
is_complete-is_full : (f : Frame) → is_complete f ≡ is_full f
unfolding is_complete is_full
is_complete-is_full f = ground arith

pub length-open_frames : (st : List Frame) (d : ℕ) → length (open_frames st d) ≡ d
unfolding open_frames
length-open_frames st zero = refl
length-open_frames st (suc d) = ap suc (length-open_frames st d)

-- A write to a slot that is not open is not seen.
pub open_frames-set :
    (st : List Frame) (i d : ℕ) (f : Frame) → d ≤ i → open_frames (set st i f) d ≡ open_frames st d
unfolding open_frames
open_frames-set st i zero f h = refl
open_frames-set st i (suc d) f h =
    rw (get_or-set_ne st i d f no_frame (omega arith), open_frames-set st i d f (omega arith))

-- What the loop leaves: the open containers, and the bounds of the stack.
record Popped (fs st : List Frame) (d : ℕ) (r : List Frame × ℕ) : Type 0 where
  open_now : open_frames r.0 r.1 ≡ fs
  slots : length r.0 ≡ length st
  shallow : r.1 ≤ d

get_or-bump :
    (st : List Frame) (i : ℕ)
    → i < length st
    → get_or (bump i st) i no_frame ≡ tick (get_or st i no_frame)
unfolding bump tick
get_or-bump st i h = get_or-set_self st i _ no_frame h

length-bump : (st : List Frame) (i : ℕ) → length (bump i st) ≡ length st
unfolding bump
length-bump st i = length-set st i _

open_frames-bump :
    (st : List Frame) (i d : ℕ) → d ≤ i → open_frames (bump i st) d ≡ open_frames st d
unfolding bump
open_frames-bump st i d h = open_frames-set st i d _ h

auto_pop_step :
    (d : ℕ) (st : List Frame)
    → auto_pop (suc d) st ≡ (
        if is_full (get_or st d no_frame)
        then auto_pop d (if ltb 0 d then bump (d - 1) st else st)
        else (st, suc d))
unfolding auto_pop
auto_pop_step d st = rw (is_complete-is_full (get_or st d no_frame)) refl

count_item_step :
    (f : Frame) (fs : List Frame)
    → count_item (f ∷ fs) ≡ (if is_full (tick f) then count_item fs else tick f ∷ fs)
unfolding count_item
count_item_step f fs = refl

-- With the top bumped and not complete the loop stops at once.
auto_pop_stop :
    (d : ℕ) (st : List Frame)
    → d < length st
    → is_full (tick (get_or st d no_frame)) ≡ false
    → (auto_pop (suc d) (bump d st) ≡ (bump d st, suc d))
      × (open_frames (bump d st) (suc d) ≡ count_item (open_frames st (suc d)))
unfolding open_frames
auto_pop_stop d st h p = (
  rw (auto_pop_step d (bump d st), get_or-bump st d h, p),
  rw (get_or-bump st d h, count_item_step, p, open_frames-bump st d d (omega arith)),
)

-- With the top bumped and complete the loop goes on with the parent bumped.
auto_pop_pop :
    (d : ℕ) (st : List Frame)
    → d < length st
    → is_full (tick (get_or st d no_frame)) ≡ true
    → (auto_pop (suc d) (bump d st)
        ≡ auto_pop d (if ltb 0 d then bump (d - 1) (bump d st) else bump d st))
      × (count_item (open_frames st (suc d)) ≡ count_item (open_frames st d))
unfolding open_frames
auto_pop_pop d st h p =
    (rw (auto_pop_step d (bump d st), get_or-bump st d h, p), rw (count_item_step, p))

auto_pop-Popped :
    (d : ℕ) (st : List Frame)
    → d < length st
    → Popped (count_item (open_frames st (suc d))) st (suc d) (auto_pop (suc d) (bump d st))
auto_pop-Popped zero st h = elim (Bool-cases (is_full (tick (get_or st 0 no_frame)))) [
  | inl p ↦
      let q = auto_pop_pop 0 st h p in
      rw (q.0, q.1)
        record {
          open_now = unfold auto_pop open_frames count_item in refl;
          slots = unfold auto_pop in length-bump st 0;
          shallow = unfold auto_pop in omega arith;
        }
  | inr p ↦
      let q = auto_pop_stop 0 st h p in
      rw q.0 record { open_now = q.1; slots = length-bump st 0; shallow = omega arith }
]
auto_pop-Popped (suc d) st h = elim (Bool-cases (is_full (tick (get_or st (suc d) no_frame)))) [
  | inl p ↦
      let q = auto_pop_pop (suc d) st h p in
      let rest = auto_pop-Popped d (bump (suc d) st) (omega (arith, length-bump st (suc d))) in
      let same = open_frames-bump st (suc d) (suc d) (omega arith) in
      let st' = bump (suc d) st in
      let parent : (if ltb 0 (suc d) then bump (suc d - 1) st' else st') ≡ bump d st' =
        ground arith in
      rw (q.0, q.1, parent)
        record {
          open_now = rest.open_now ∙ ap count_item same;
          slots = rest.slots ∙ length-bump st (suc d);
          shallow = omega (arith, rest.shallow);
        }
  | inr p ↦
      let q = auto_pop_stop (suc d) st h p in
      rw q.0 record { open_now = q.1; slots = length-bump st (suc d); shallow = omega arith }
]

-- Counting an item refines `count_item`, and changes nothing but the stack.
pub record Counted (e e' : Encoder) : Type 0 where
  pub open_now : frames e' ≡ count_item (frames e)
  pub slots : length e'.stack ≡ length e.stack
  pub shallow : e'.depth ≤ e.depth

-- The stack and depth that `enc_track_item` computes.
tracked : ℕ → List Frame → List Frame × ℕ
tracked zero st = (st, zero)
tracked (suc d) st = auto_pop (suc d) (bump d st)

tracked_lem :
    (d : ℕ) (st : List Frame)
    → (if d == 0 then (st, d) else auto_pop d (bump (d - 1) st)) ≡ tracked d st
unfolding tracked
tracked_lem zero st = refl
tracked_lem (suc d) st = ground arith

abbrev put : Encoder → List Frame × ℕ → Encoder
put e r = record e { stack = r.0; depth = r.1 }

put-if :
    (b : Bool) (e : Encoder) (r : List Frame × ℕ)
    → (if b then e else put e r) ≡ put e (if b then (e.stack, e.depth) else r)
put-if true e r = refl
put-if false e r = refl

enc_track_item_step : (e : Encoder) → enc_track_item e ≡ put e (tracked e.depth e.stack)
unfolding enc_track_item
enc_track_item_step e =
    put-if (e.depth == 0) e (auto_pop e.depth (bump (e.depth - 1) e.stack))
    ∙ ap (put e) (tracked_lem e.depth e.stack)

tracked-Popped :
    (d : ℕ) (st : List Frame)
    → d ≤ length st
    → Popped (count_item (open_frames st d)) st d (tracked d st)
tracked-Popped zero st h = record {
  open_now = unfold tracked open_frames count_item in refl;
  slots = unfold tracked in refl;
  shallow = unfold tracked in omega arith;
}
tracked-Popped (suc d) st h = unfold tracked in auto_pop-Popped d st h

-- For an encoder with 16 stack slots and a depth of at most 16, `enc_track_item` counts one
-- item in the innermost open container, closes every container that then has as many items as
-- it was opened for or more, each as one more item of the next, keeps the number of slots, and
-- does not raise the depth.
pub enc_track_item-Counted :
    (e : Encoder) → length e.stack ≡ max_depth → e.depth ≤ max_depth → Counted e (enc_track_item e)
enc_track_item-Counted e s h =
    let r = tracked-Popped e.depth e.stack (omega arith) in
    rw (enc_track_item_step e)
      record { open_now = r.open_now; slots = r.slots; shallow = r.shallow }

-- It leaves the buffer and the error flag alone.
pub enc_track_item-IsReady : (e : Encoder) → IsReady e → IsReady (enc_track_item e)
enc_track_item-IsReady e h =
    let r = tracked-Popped e.depth e.stack (omega (arith, h.slots, h.shallow)) in
    rw (enc_track_item_step e) record {
      storage = h.storage;
      within = h.within;
      small = h.small;
      fine = h.fine;
      slots = r.slots ∙ h.slots;
      shallow = omega (arith, r.shallow, h.shallow);
    }

-- Appending bytes and counting an item do not meet.
pub enc_track_item-same :
    (e : Encoder)
    → ((enc_track_item e).buf ≡ e.buf)
      × ((enc_track_item e).offset ≡ e.offset)
      × ((enc_track_item e).capacity ≡ e.capacity)
      × ((enc_track_item e).error ≡ e.error)
enc_track_item-same e = rw (enc_track_item_step e) (refl, refl, refl, refl)
