-- ===== src/Pm/HistoryTests.antt =====
-- Concrete pushes to a history: 51 revisions, one of which finds no memory.
use hiya.Base.{ℕ, ◌≡◌, refl, true, false, List, [], ◌∷◌, ◌++◌, replicate, none, arith}
use hiya.Pm.Errors.{done}
use hiya.Pm.History.{
  History, Push, history_push, push_all, contents, accepted, latest, max_revisions,
}
use hiya.Pm.History.Latest.{Kept, push_all-latest}

abbrev empty : History ℕ
empty = record { slots = none; count = 0 }

abbrev pushes : List (Push ℕ)
pushes =
    record { room = true; copy = done 1 }
    ∷ record { room = false; copy = done 2 }
    ∷ (replicate 49 (record { room = true; copy = done 3 })
        ++ (record { room = true; copy = done 4 } ∷ []))

test_dropped : contents (push_all pushes empty) ≡ replicate 49 3 ++ (4 ∷ [])
unfolding push_all history_push
test_dropped = refl

push_all-latest_example :
    Kept (push_all pushes empty)
    × (contents (push_all pushes empty) ≡ latest max_revisions (accepted pushes empty))
push_all-latest_example =
    push_all-latest pushes empty (record { counted = refl; within = omega arith })
