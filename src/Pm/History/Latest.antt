-- ===== src/Pm/History/Latest.antt =====
-- The history of src/pm/pm_history.c keeps the latest revisions in order.
use hiya.Base.{
  if-Is, if-Is_split, ℕ, zero, suc, ◌+◌, ◌-◌, ◌≤◌, ◌<◌, ◌≡◌, refl, ap, ◌∙◌, sym, Bool, true, false,
  List, [], ◌∷◌, ◌++◌, append_assoc, append-nil, length, set, take, drop, ltb, Option, none, some,
  arith, length-append, length-take, length-drop, take-length, drop-drop,
}
use hiya.Pm.Errors.{PmError, state, Result, done, fail}
use hiya.Pm.History.{
  History, max_revisions, all_slots, contents, grow, shift, push_copy, history_push, Push, push_all,
  added, accepted, latest,
}

-- The counter is the number of slots, and within the limit.
pub record Kept {R : Type 0} (h : History R) : Type 0 where
  pub counted : length (all_slots h.slots) ≡ h.count
  pub within : h.count ≤ max_revisions

Kept-contents : {R : Type 0} (h : History R) → Kept h → contents h ≡ all_slots h.slots
Kept-contents h k = rw (← k.counted) (take-length (all_slots h.slots))

drop-append_front :
    {R : Type 0} (n : ℕ) (xs ys : List R) → n ≤ length xs → drop n (xs ++ ys) ≡ drop n xs ++ ys
drop-append_front zero xs ys h = refl
drop-append_front (suc n) [] ys h = absurd (omega arith)
drop-append_front (suc n) (x ∷ xs) ys h = drop-append_front n xs ys (omega arith)

latest-append :
    {R : Type 0} (n : ℕ) (xs ys : List R) → latest n (latest n xs ++ ys) ≡ latest n (xs ++ ys)
unfolding latest
latest-append n xs ys =
    let k = length xs - n in
    let front = drop-append_front k xs ys (omega arith) in
    let same : k + (length (drop k (xs ++ ys)) - n) ≡ length (xs ++ ys) - n =
      omega (arith, length-drop k (xs ++ ys), length-append xs ys) in
    ap (λ zs. drop (length zs - n) zs) (sym front)
    ∙ drop-drop k (length (drop k (xs ++ ys)) - n) (xs ++ ys)
    ∙ ap (λ m. drop m (xs ++ ys)) same

set-behind :
    {R : Type 0} (xs zs : List R) (n : ℕ) (c : R)
    → n ≡ length xs
    → set (xs ++ zs) n c ≡ xs ++ set zs 0 c
set-behind [] zs zero c e = refl
set-behind [] zs (suc n) c e = absurd (omega arith)
set-behind (x ∷ xs) zs zero c e = absurd (omega arith)
set-behind (x ∷ xs) zs (suc n) c e = ap (◌∷◌ x) (set-behind xs zs n c (omega arith))

set-only : {R : Type 0} (zs : List R) (c : R) → length zs ≡ 1 → set zs 0 c ≡ c ∷ []
set-only [] c e = absurd (omega arith)
set-only (z ∷ []) c e = refl
set-only (z ∷ (y ∷ zs)) c e = absurd (omega arith)

-- What a push leaves: the contents, the new revision behind them if it was added, and no more than
-- the latest fifty.
record Pushed {R : Type 0} (h h' : History R) (new : List R) : Type 0 where
  kept : Kept h'
  newest : contents h' ≡ latest max_revisions (contents h ++ new)

latest-short : {R : Type 0} (n : ℕ) (xs : List R) → length xs ≤ n → latest n xs ≡ xs
unfolding latest
latest-short n xs h = let none_out : length xs - n ≡ 0 = omega arith in rw none_out refl

unchanged-Pushed : {R : Type 0} (h : History R) → Kept h → Pushed h h []
unchanged-Pushed h k =
    let size : length (contents h) ≤ max_revisions =
      omega (arith, length-take h.count (all_slots h.slots), k.within) in
    record {
      kept = k;
      newest = sym (
          ap (latest max_revisions) (append-nil (contents h))
          ∙ latest-short max_revisions (contents h) size);
    }

grow-Pushed :
    {R : Type 0} (room : Bool) (copy : R) (h : History R)
    → h.count < max_revisions
    → Kept h
    → Pushed h ((grow room copy h).0) (added (done copy) ((grow room copy h).1))
grow-Pushed false copy h l k = unchanged-Pushed h k
grow-Pushed true copy h l k =
    let all = contents h ++ (copy ∷ []) in
    let size : length all ≡ h.count + 1 = omega (
      arith,
      length-append (contents h) (copy ∷ []),
      length-take h.count (all_slots h.slots),
      k.counted,
    ) in
    record {
      kept = record { counted = size; within = omega arith };
      newest = rw (← size) (take-length all) ∙ sym (latest-short max_revisions all (omega arith));
    }

shifted :
    {R : Type 0} (rs : List R) (copy : R)
    → length rs ≡ max_revisions
    → set
        (take (max_revisions - 1) (drop 1 rs) ++ drop (max_revisions - 1) rs)
        (max_revisions - 1)
        copy
      ≡ drop 1 rs ++ (copy ∷ [])
shifted rs copy e =
    let tail : max_revisions - 1 ≡ length (drop 1 rs) = omega (arith, length-drop 1 rs) in
    let last : length (drop (max_revisions - 1) rs) ≡ 1 =
      omega (arith, length-drop (max_revisions - 1) rs) in
    let whole : take (max_revisions - 1) (drop 1 rs) ≡ drop 1 rs =
      ap (λ n. take n (drop 1 rs)) tail ∙ take-length (drop 1 rs) in
    ap (λ xs. set (xs ++ drop (max_revisions - 1) rs) (max_revisions - 1) copy) whole
    ∙ set-behind (drop 1 rs) (drop (max_revisions - 1) rs) (max_revisions - 1) copy tail
    ∙ ap (λ zs. drop 1 rs ++ zs) (set-only (drop (max_revisions - 1) rs) copy last)

shift-Pushed :
    {R : Type 0} (copy : R) (slots : Option (List R)) (n : ℕ)
    → n ≡ max_revisions
    → Kept (record { slots = slots; count = n })
    → let h : History R = record { slots = slots; count = n } in
      Pushed h ((shift copy slots h).0) (added (done copy) ((shift copy slots h).1))
unfolding latest
shift-Pushed copy none n e k = absurd (omega (arith, k.counted))
shift-Pushed copy (some rs) n e k =
    let size : length rs ≡ max_revisions = omega (arith, k.counted) in
    let moved = shifted rs copy size in
    let longer : length (rs ++ (copy ∷ [])) - max_revisions ≡ 1 =
      omega (arith, length-append rs (copy ∷ [])) in
    let all : take n rs ≡ rs = ap (λ m. take m rs) (sym k.counted) ∙ take-length rs in
    let kept_size : length (drop 1 rs ++ (copy ∷ [])) ≡ n =
      omega (arith, length-append (drop 1 rs) (copy ∷ []), length-drop 1 rs) in
    record {
      kept = record { counted = ap length moved ∙ kept_size; within = k.within };
      newest =
          ap (take n) moved
          ∙ ap (λ m. take m (drop 1 rs ++ (copy ∷ []))) (sym kept_size)
          ∙ take-length (drop 1 rs ++ (copy ∷ []))
          ∙ sym (drop-append_front 1 rs (copy ∷ []) (omega arith))
          ∙ sym (
              ap (λ xs. drop (length (xs ++ (copy ∷ [])) - max_revisions) (xs ++ (copy ∷ []))) all
              ∙ ap (λ m. drop m (rs ++ (copy ∷ []))) longer);
    }

history_push-Pushed :
    {R : Type 0} (room : Bool) (copy : Result R) (h : History R)
    → Kept h
    → Pushed h ((history_push room copy h).0) (added copy ((history_push room copy h).1))
unfolding history_push
history_push-Pushed {R} room (fail code) h k =
    let P : History R × PmError → Type 0 = λ r. Pushed h (r.0) [] in
    let same = unchanged-Pushed h k in
    if-Is P (ltb max_revisions h.count) (h, state) (h, code) same same
history_push-Pushed {R} room (done copy) h k =
    let P : History R × PmError → Type 0 = λ r. Pushed h (r.0) (added (done copy) (r.1)) in
    if-Is P (ltb max_revisions h.count) (h, state) (push_copy room (done copy) h)
      (unchanged-Pushed h k)
      (if-Is_split P (ltb h.count max_revisions) (grow room copy h) (shift copy h.slots h)
        (λ l. grow-Pushed room copy h (ground arith) k)
        (λ l. shift-Pushed copy h.slots h.count (ground (arith, k.within)) k))

-- For a history whose counter is the number of its slots and at most 50, any pushes, with
-- copies and allocations that succeed or fail, leave such a history again, and its contents are
-- the latest 50 of the contents before followed by the revisions whose push returned PM_OK, in
-- the order of the pushes.
pub push_all-latest :
    {R : Type 0} (ps : List (Push R)) (h : History R)
    → Kept h
    → Kept (push_all ps h)
      × (contents (push_all ps h) ≡ latest max_revisions (contents h ++ accepted ps h))
unfolding push_all accepted
push_all-latest [] h k = (k, (unchanged-Pushed h k).newest)
push_all-latest (p ∷ ps) h k =
    let r = history_push p.room p.copy h in
    let new = added p.copy (r.1) in
    let s = history_push-Pushed p.room p.copy h k in
    let (kept, rest) = push_all-latest ps (r.0) s.kept in
    (
      kept,
      rest
          ∙ ap (λ xs. latest max_revisions (xs ++ accepted ps (r.0))) s.newest
          ∙ latest-append max_revisions (contents h ++ new) (accepted ps (r.0))
          ∙ ap (latest max_revisions) (append_assoc (contents h) new (accepted ps (r.0))),
    )
