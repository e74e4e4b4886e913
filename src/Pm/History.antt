-- ===== src/Pm/History.antt =====
-- src/pm/pm_history.c: the revisions of an entry, and the list that a caller gets. `R` is
-- `pm_entry_revision_t`; whether `pm_entry_revision_copy` and an allocation succeed are inputs.
pub mod Latest
use hiya.Base.{
  if-Is, if-Is_split, ℕ, zero, suc, ◌+◌, ◌-◌, ◌≤◌, ◌<◌, ◌≡◌, refl, ap, ◌∙◌, sym, Bool, true, false,
  List, [], ◌∷◌, ◌++◌, append_assoc, append-nil, length, set, take, drop, ltb, ◌==◌, if◌then◌else◌,
  Option, none, some, arith, length-append, length-set, length-take, length-drop, take-append-drop,
  take-length, drop-drop, lt-cases, inl, inr,
}
use hiya.Pm.Errors.{PmError, ok, nomem, state, Result, done, fail}

abbrev pub max_revisions : ℕ
max_revisions = 50

-- `history` and `history_count` of `pm_entry_t`.
pub record History (R : Type 0) : Type 0 where
  pub slots : Option (List R)
  pub count : ℕ

abbrev pub all_slots : {R : Type 0} → Option (List R) → List R
all_slots none = []
all_slots (some rs) = rs

-- The revisions that count.
abbrev pub contents : {R : Type 0} → History R → List R
contents h = take h.count (all_slots h.slots)

-- The branch with room: `realloc`, which keeps the elements, and the new one at the end.
abbrev pub grow : {R : Type 0} → Bool → R → History R → History R × PmError
grow false copy h = (h, nomem)
grow true copy h = (record { slots = some (contents h ++ (copy ∷ [])); count = h.count + 1 }, ok)

-- The branch at the limit: `memmove` by one, and the copy in the last slot.
abbrev pub shift : {R : Type 0} → R → Option (List R) → History R → History R × PmError
shift copy none h = (h, state)
shift copy (some rs) h = (
  record h {
    slots = some (
        set (take (max_revisions - 1) (drop 1 rs) ++ drop (max_revisions - 1) rs)
          (max_revisions - 1) copy);
  },
  ok,
)

abbrev pub push_copy : {R : Type 0} → Bool → Result R → History R → History R × PmError
push_copy room (fail code) h = (h, code)
push_copy room (done copy) h =
    if ltb h.count max_revisions then grow room copy h else shift copy h.slots h

-- `pm_history_push`. `copy` is what `pm_entry_revision_copy` makes, and `room` whether `realloc`
-- succeeds.
unfoldable pub history_push : {R : Type 0} → Bool → Result R → History R → History R × PmError
history_push room copy h = if ltb max_revisions h.count then (h, state) else push_copy room copy h

-- The loop of `pm_history_list` over the copies.
unfoldable pub copy_all : {R : Type 0} → (R → Result R) → List R → Result (List R)
copy_all copy [] = done []
copy_all copy (r ∷ rs) = elim (copy r) [
  | fail code ↦ fail code
  | done c ↦ elim (copy_all copy rs) [ fail code ↦ fail code | done cs ↦ done (c ∷ cs) ]
]

abbrev pub listed : {R : Type 0} → Result (List R) → List R × PmError
listed (fail code) = ([], code)
listed (done rs) = (rs, ok)

-- `pm_history_list`: the copies, and the status.
unfoldable pub history_list : {R : Type 0} → Bool → (R → Result R) → History R → List R × PmError
history_list room copy h =
    if h.count == 0
    then ([], ok)
    else if room
    then listed (copy_all copy (contents h))
    else ([], nomem)

-- A push of a revision, by what the allocator makes of it, and pushes one after another.
pub record Push (R : Type 0) : Type 0 where
  pub room : Bool
  pub copy : Result R

unfoldable pub push_all : {R : Type 0} → List (Push R) → History R → History R
push_all [] h = h
push_all (p ∷ ps) h = push_all ps ((history_push p.room p.copy h).0)

-- The revision, if the push succeeded.
abbrev pub added : {R : Type 0} → Result R → PmError → List R
added (done copy) ok = copy ∷ []
added _ _ = []

-- The revisions whose push succeeded.
unfoldable pub accepted : {R : Type 0} → List (Push R) → History R → List R
accepted [] h = []
accepted (p ∷ ps) h =
    let r = history_push p.room p.copy h in added p.copy (r.1) ++ accepted ps (r.0)

-- The last `n` of a list.
unfoldable pub latest : {R : Type 0} → ℕ → List R → List R
latest n xs = drop (length xs - n) xs
