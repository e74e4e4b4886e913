-- ===== src/Fido2/Ctaphid/Slots.antt =====
-- The channel table of src/fido2/bio_fido2_uhid.c: what `find_channel` gives, and writes to a slot.
use hiya.Base.{
  ℕ, zero, suc, ◌-◌, ◌≤◌, ◌<◌, ◌≡◌, refl, ap, true, ◌&&◌, List, [], ◌∷◌, length, get_or, set, ◌==◌,
  some, arith, Bool-cases, inl, inr,
}
use hiya.Fido2.Ctaphid.{Uhid, Channel, cleared, channel, set_channel, find_from, find_channel}

-- The second of two writes to a slot counts.
pub set-set : (chs : List Channel) (i : ℕ) (a b : Channel) → set (set chs i a) i b ≡ set chs i b
set-set [] i a b = refl
set-set (c ∷ chs) zero a b = refl
set-set (c ∷ chs) (suc i) a b = ap (◌∷◌ c) (set-set chs i a b)

-- A write that keeps the identifier and the use of the slot is not seen by the search.
find_from-set :
    (cid i j : ℕ) (chs : List Channel) (ch : Channel)
    → ch.in_use ≡ (get_or chs j cleared).in_use
    → ch.cid ≡ (get_or chs j cleared).cid
    → find_from cid i (set chs j ch) ≡ find_from cid i chs
unfolding find_from
find_from-set cid i j [] ch p q = refl
find_from-set cid i zero (c ∷ chs) ch p q = rw (p, q)
find_from-set cid i (suc j) (c ∷ chs) ch p q = rw (find_from-set cid (suc i) j chs ch p q)

pub find_channel-set :
    {E : Type 0} (cid i : ℕ) (u : Uhid E) (ch : Channel)
    → ch.in_use ≡ (channel u i).in_use
    → ch.cid ≡ (channel u i).cid
    → find_channel cid (set_channel u i ch) ≡ find_channel cid u
unfolding find_channel
find_channel-set cid i u ch p q = find_from-set cid 0 i u.channels ch p q

-- What the search promises of the slot that it finds, counted from `i`.
record Slot (cid i k : ℕ) (chs : List Channel) : Type 0 where
  from : i ≤ k
  within : k - i < length chs
  in_use : (get_or chs (k - i) cleared).in_use ≡ true
  same : (get_or chs (k - i) cleared).cid ≡ cid

Slot-later :
    (cid i k : ℕ) (c : Channel) (chs : List Channel)
    → Slot cid (suc i) k chs
    → Slot cid i k (c ∷ chs)
Slot-later cid i k c chs s =
    let step : k - i ≡ suc (k - suc i) = omega (arith, s.from) in
    record {
      from = omega (arith, s.from);
      within = omega (arith, s.within, s.from);
      in_use = rw step s.in_use;
      same = rw step s.same;
    }

find_from-Slot :
    (cid i k : ℕ) (chs : List Channel) → find_from cid i chs ≡ some k → Slot cid i k chs
unfolding find_from
find_from-Slot cid i k [] h = cc
find_from-Slot cid i k (c ∷ chs) h = elim (Bool-cases (c.in_use && c.cid == cid)) [
  | inl p ↦
      let here : i ≡ k = ground arith in
      let front : k - i ≡ 0 = omega arith in
      record {
        from = omega arith;
        within = omega arith;
        in_use = rw front (ground arith);
        same = rw front (ground arith);
      }
  | inr p ↦ Slot-later cid i k c chs (find_from-Slot cid (suc i) k chs (rw p at h))
]

-- The slot that `find_channel` finds.
pub record IsFound {E : Type 0} (cid i : ℕ) (u : Uhid E) : Type 0 where
  pub within : i < length u.channels
  pub in_use : (channel u i).in_use ≡ true
  pub same : (channel u i).cid ≡ cid

pub find_channel-IsFound :
    {E : Type 0} (cid i : ℕ) (u : Uhid E) → find_channel cid u ≡ some i → IsFound cid i u
unfolding find_channel
find_channel-IsFound cid i u h =
    let s = find_from-Slot cid 0 i u.channels h in
    let front : i - 0 ≡ i = omega arith in
    record {
      within = omega (arith, s.within);
      in_use = rw front at (s.in_use);
      same = rw front at (s.same);
    }
