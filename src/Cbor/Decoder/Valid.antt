-- ===== src/Cbor/Decoder/Valid.antt =====
-- src/cbor/bio_cbor_decoder.c on any input: the cursor stays inside the buffer, an item that is
-- accepted lies inside it too, and a failure sets the error flag.
mod Reads
use hiya.Base.{
  ℕ, zero, suc, ◌+◌, ◌-◌, ◌*◌, ◌/◌, ◌^◌, ◌%◌, ◌≤◌, ◌<◌, ◌≡◌, ◌||◌, refl, sym, ◌∙◌, ap, Bool, true,
  false, List, length, arith, Status, cbor_nesting, Bool-cases, inl, inr, ltb, leb, ◌==◌,
  if◌then◌else◌,
}
use hiya.Cbor.{Major, size_max, sub_size, add_size, max_depth}
use hiya.Cbor.Decoder.{
  Decoder, Head, Item, Result, done, fail, Reply, and_then, ◌>>=◌, uint, negint, bstr, tstr, array,
  map, tag, simple, dec_head, string_item, simple_item, item_of, decode_next, times, skip_rest,
  skip_depth, skip,
}
use Reads.{
  Kept-refl, Kept-trans, Kept-InBounds, Step-then, Step-after, Step-weaken, Step-if, refuse-Step,
  dec_head-Step, AtHead,
}
pub use Reads.{InBounds, Kept, Step, good, bad}

-- An accepted string ends at the cursor, and the items that an accepted container promises can
-- still follow in the buffer, one byte each.
abbrev pub Spans : Item → Decoder → Type 0
Spans (bstr at len) e = at + len ≡ e.offset
Spans (tstr at len) e = at + len ≡ e.offset
Spans (array n) e = e.offset + n ≤ e.size
Spans (map n) e = e.offset + n * 2 ≤ e.size
Spans _ e = Unit {0}

-- The cursor has moved on, and the item fits.
abbrev pub Accepts : Decoder → Item → Decoder → Type 0
Accepts d it e = (d.offset < e.offset) × Spans it e

abbrev AtItem : Decoder → Item → Decoder → Type 0
AtItem d it e = (d.offset ≤ e.offset) × Spans it e

string_item-Step :
    (make : ℕ → ℕ → Item) (v : ℕ) (d : Decoder)
    → ((at len : ℕ) (e : Decoder) → at + len ≡ e.offset → Spans (make at len) e)
    → InBounds d
    → Step (AtItem d) d (string_item make v d)
unfolding string_item
string_item-Step make v d f b =
    Step-if (ltb size_max v) (λ _. refuse-Step d b)
      λ p.
        Step-if (ltb d.size d.offset || ltb (sub_size d.size d.offset) v) (λ _. refuse-Step d b)
          λ q.
            let fits : d.offset + v ≤ d.size = ground arith in
            let moved : add_size d.offset v ≡ d.offset + v = omega arith in
            good
              (record {
                source_same = refl;
                size_same = refl;
                forward = omega arith;
                inside = omega arith;
              })
              (omega arith, f d.offset v _ (sym moved))

Spans-if :
    (b : Bool) (x y : Item) (e : Decoder) → Spans x e → Spans y e → Spans (if b then x else y) e
Spans-if true x y e p q = p
Spans-if false x y e p q = q

simple_item-Spans : (ai v : ℕ) (e : Decoder) → Spans (simple_item ai v) e
unfolding simple_item
simple_item-Spans ai v e =
    Spans-if (leb ai 24) _ _ e tt (
      Spans-if (ai == 25) _ _ e tt (Spans-if (ai == 26) _ _ e tt (Spans-if (ai == 27) _ _ e tt tt)))

item_of-Step :
    (mt : Major) (ai v : ℕ) (d : Decoder) → InBounds d → Step (AtItem d) d (item_of mt ai v d)
unfolding item_of
item_of-Step Major.uint ai v d b = good (Kept-refl d b) (omega arith)
item_of-Step Major.negint ai v d b = good (Kept-refl d b) (omega arith)
item_of-Step Major.bstr ai v d b = string_item-Step bstr v d (λ _ _ _ h. h) b
item_of-Step Major.tstr ai v d b = string_item-Step tstr v d (λ _ _ _ h. h) b
item_of-Step Major.array ai v d b =
    Step-if (ltb size_max v || ltb (sub_size d.size d.offset) v) (λ _. refuse-Step d b)
      λ q. good (Kept-refl d b) (ground arith)
item_of-Step Major.map ai v d b =
    Step-if (ltb (size_max / 2) v || ltb (sub_size d.size d.offset) (v * 2 % 2 ^ 64))
      (λ _. refuse-Step d b) λ q. good (Kept-refl d b) (ground arith)
item_of-Step Major.tag ai v d b = good (Kept-refl d b) (omega arith)
item_of-Step Major.simple ai v d b = good (Kept-refl d b) (omega arith, simple_item-Spans ai v d)

-- On any buffer in memory with the cursor inside, `bio_cbor_decode_next` leaves the buffer as
-- it was and the cursor inside it and not further back; where it succeeds the cursor has moved
-- on, a string ends at the cursor, and a container's items still fit in the rest of the buffer
-- at one byte each; where it fails the error flag is set.
pub decode_next-Step : (d : Decoder) → InBounds d → Step (Accepts d) d (decode_next d)
unfolding decode_next
decode_next-Step d b = Step-then _ (dec_head-Step d b) λ h e k p.
    Step-weaken (item_of-Step h.major h.additional h.argument e (Kept-InBounds d e b k))
      (λ it e' q. (omega arith, q.1))

-- A call that succeeds or fails inside the buffer.
abbrev Safe : (Decoder → Reply (Unit {0})) → Type 0
Safe k = (d : Decoder) → InBounds d → Step (λ _ _. Unit {0}) d (k d)

times-Safe : (n : ℕ) (k : Decoder → Reply (Unit {0})) → Safe k → Safe (times n k)
unfolding times
times-Safe zero k s d b = good (Kept-refl d b) tt
times-Safe (suc n) k s d b =
    Step-then _ (s d b) λ _ e p _. times-Safe n k s e (Kept-InBounds d e b p)

skip_rest-Safe : (k : Decoder → Reply (Unit {0})) (it : Item) → Safe k → Safe (skip_rest k it)
unfolding skip_rest
skip_rest-Safe k (array n) s d b = times-Safe n k s d b
skip_rest-Safe k (map n) s d b =
    times-Safe n (k >>= λ _. k)
      (λ d' b'. Step-then _ (s d' b') λ _ e p _. s e (Kept-InBounds d' e b' p)) d b
skip_rest-Safe k (tag n) s d b = s d b
skip_rest-Safe k _ s d b = good (Kept-refl d b) tt

-- Past the start.
abbrev pub Advances : Decoder → Unit {0} → Decoder → Type 0
Advances d _ e = d.offset < e.offset

skip_depth-Step : (l : ℕ) (d : Decoder) → InBounds d → Step (Advances d) d (skip_depth l d)
unfolding skip_depth
skip_depth-Step zero d b =
    bad (record { source_same = refl; size_same = refl; forward = omega arith; inside = b.within })
      refl
skip_depth-Step (suc l) d b = Step-then _ (decode_next-Step d b) λ it e k p.
    let nested : Safe (skip_depth l) =
      (λ d' b'. Step-weaken (skip_depth-Step l d' b') (λ _ _ _. tt)) in
    farther (omega arith) (skip_rest-Safe (skip_depth l) it nested e (Kept-InBounds d e b k))
  where
    farther :
        {e : Decoder} {r : Reply (Unit {0})}
        → d.offset < e.offset
        → Step (λ _ _. Unit {0}) e r
        → Step (Advances d) e r
    farther h (good k _) = good k (omega (arith, k.forward))
    farther h (bad k p) = bad k p

-- On any buffer in memory with the cursor inside, `bio_cbor_skip` leaves the buffer as it was
-- and the cursor inside it and not further back; where it succeeds the cursor has moved on, and
-- where it fails the error flag is set.
pub skip-Step : (d : Decoder) → InBounds d → Step (Advances d) d (skip d)
unfolding skip
skip-Step d b = skip_depth-Step (max_depth + 1) d b
