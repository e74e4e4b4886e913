-- ===== src/Fido2/Ctaphid/Session.antt =====
-- The life of the transport in src/fido2/bio_fido2_uhid.c: its start, the events of the reader
-- thread, and a channel from its allocation to the first message.
use hiya.Base.{
  ℕ, zero, suc, ◌+◌, ◌^◌, ◌≤◌, ◌<◌, ◌≡◌, refl, ap, ◌∙◌, Bool, true, false, ◌&&◌, ◌||◌, List, [],
  ◌∷◌, length, get_or, get_or-set_self, replicate, ltb, drop, length-drop, leb, ◌==◌, Option, some,
  arith, Bool-cases, Option-cases, inl, inr,
}
use hiya.Fido2.Ctaphid.{
  Uhid, Channel, cleared, channel, set_channel, find_from, find_channel, free_from, oldest_from,
  oldest, draw, draw_cid, occupy, alloc_channel, max_channels, max_msg_size, cmd_init,
  init_data_size, reports_of, is_reserved, is_taken, cid_attempts,
}
use hiya.Fido2.Ctaphid.Dispatch.{Process}
use hiya.Fido2.Ctaphid.Receive.{Event, handle_event}
use hiya.Fido2.Ctaphid.Slots.{find_channel-IsFound}
use hiya.Fido2.Ctaphid.Table.{cleared-Bounded}
use hiya.Fido2.Ctaphid.Sound.{IsSound, draw-IsSound, clear-IsSound, alloc_channel-IsSound}
use hiya.Fido2.Ctaphid.Steps.{handle_event-IsSound}
use hiya.Fido2.Ctaphid.Assembly.{Delivers, receive_all}
use hiya.Fido2.Ctaphid.Delivery.{reports_of-Delivers}

-- What `bio_fido2_uhid_init` leaves, and the static counters at their start.
unfoldable pub init_uhid : {E : Type 0} → E → List Bool → List (Option ℕ) → Uhid E
init_uhid engine refused random = record {
  engine = engine;
  channels = replicate max_channels cleared;
  sent = [];
  refused = refused;
  random = random;
  fallback_cid = 1;
  fallback_evict_cid = 0x8000_0000;
}

-- The loop of `uhid_reader_thread`.
unfoldable pub reader_thread : {E : Type 0} → Process E → List Event → Uhid E → Uhid E
reader_thread process [] u = u
reader_thread process (e ∷ es) u = reader_thread process es (handle_event process e u)

none_in_use : (n i : ℕ) → get_or (replicate n cleared) i cleared ≡ cleared
none_in_use zero i = refl
none_in_use (suc n) zero = refl
none_in_use (suc n) (suc i) = none_in_use n i

pub init_uhid-IsSound :
    {E : Type 0} (engine : E) (refused : List Bool) (random : List (Option ℕ))
    → IsSound (init_uhid engine refused random)
unfolding init_uhid
init_uhid-IsSound engine refused random = record {
  table = record {
    bounded = λ i. rw (none_in_use max_channels i) cleared-Bounded;
    allowed = λ i. rw (none_in_use max_channels i) (λ e. cc);
    distinct = λ i j. rw (none_in_use max_channels i) (λ e f g. cc);
  };
  slots = refl;
  full = λ k. refl;
}

reader_thread-keeps :
    {E : Type 0} (process : Process E) (es : List Event) (u : Uhid E)
    → IsSound u
    → IsSound (reader_thread process es u)
unfolding reader_thread
reader_thread-keeps process [] u s = s
reader_thread-keeps process (e ∷ es) u s =
    reader_thread-keeps process es (handle_event process e u) (handle_event-IsSound process e u s)

-- From the state that `bio_fido2_uhid_init` leaves, whatever reports and timeouts reach the
-- reader thread, whatever the engine answers, whichever writes fail and whatever the random
-- source gives: there are 8 channels, each message fits the buffer and no more than its length
-- has come, identifiers in use are neither 0 nor the broadcast one and no two channels share
-- one, and every report sent has 64 bytes.
pub reader_thread-IsSound :
    {E : Type 0} (process : Process E) (es : List Event) (engine : E) (refused : List Bool)
    (random : List (Option ℕ))
    → IsSound (reader_thread process es (init_uhid engine refused random))
reader_thread-IsSound process es engine refused random =
    reader_thread-keeps process es (init_uhid engine refused random)
      (init_uhid-IsSound engine refused random)

-- A channel in use is found by its identifier: no other has it.
find_from-some :
    (cid i j : ℕ) (chs : List Channel)
    → j < length chs
    → (get_or chs j cleared).in_use ≡ true
    → (get_or chs j cleared).cid ≡ cid
    → (k : ℕ) × (find_from cid i chs ≡ some k)
unfolding find_from
find_from-some cid i j [] h u e = absurd (omega arith)
find_from-some cid i zero (c ∷ chs) h u e = (i, ground arith)
find_from-some cid i (suc j) (c ∷ chs) h u e = elim (Bool-cases (c.in_use && c.cid == cid)) [
  | inl here ↦ (i, rw here refl)
  | inr later ↦ let r = find_from-some cid (suc i) j chs (omega arith) u e in (r.0, rw later (r.1))
]

find_channel-in_use :
    {E : Type 0} (i : ℕ) (u : Uhid E)
    → IsSound u
    → i < length u.channels
    → (channel u i).in_use ≡ true
    → find_channel (channel u i).cid u ≡ some i
unfolding find_channel
find_channel-in_use i u s h live =
    let cid = (channel u i).cid in
    let r = find_from-some cid 0 i u.channels h live refl in
    let f = find_channel-IsFound cid (r.0) u (r.1) in
    r.1 ∙ ap some (s.table.distinct (r.0) i f.in_use live f.same)

free_from-within :
    (i k : ℕ) (chs : List Channel) → free_from i chs ≡ some k → (i ≤ k) × (k < i + length chs)
unfolding free_from
free_from-within i k [] h = cc
free_from-within i k (c ∷ chs) h = elim (Bool-cases c.in_use) [
  | inl used ↦ let r = free_from-within (suc i) k chs (rw used at h) in omega (arith, r.0, r.1)
  | inr free ↦ let here : i ≡ k = ground arith in omega arith
]

oldest_from-within :
    (i o t : ℕ) (chs : List Channel) → o < i → oldest_from i o t chs < i + length chs
unfolding oldest_from
oldest_from-within i o t [] h = omega arith
oldest_from-within i o t (c ∷ chs) h = elim (Bool-cases (ltb c.last_active t)) [
  | inl earlier ↦
      rw earlier (omega (arith, oldest_from-within (suc i) i c.last_active chs (omega arith)))
  | inr same ↦ rw same (omega (arith, oldest_from-within (suc i) o t chs (omega arith)))
]

oldest-within :
    {E : Type 0} (u : Uhid E) → length u.channels ≡ max_channels → oldest u < max_channels
unfolding oldest
oldest-within u h = omega (
  arith,
  oldest_from-within 1 0 (channel u 0).last_active (drop 1 u.channels) (omega arith),
  length-drop 1 u.channels,
)

-- A slot that `occupy` gives out.
occupy-in_use :
    {E : Type 0} (now i attempts : ℕ) (evicts : Bool) (u : Uhid E) (j : ℕ)
    → IsSound u
    → i < max_channels
    → (occupy now i (draw_cid attempts evicts u)).1 ≡ some j
    → (i ≡ j) × ((channel ((occupy now i (draw_cid attempts evicts u)).0) j).in_use ≡ true)
unfolding draw_cid
occupy-in_use now i zero evicts u j s h e = cc
occupy-in_use now i (suc attempts) evicts u j s h e =
    let r = draw evicts u in
    let t = draw-IsSound evicts u s in
    elim (Bool-cases (is_reserved (r.1) || is_taken (r.1) (r.0))) [
      | inl again ↦ rw again (occupy-in_use now i attempts evicts (r.0) j t h (rw again at e))
      | inr fresh ↦
          let same : i ≡ j = cc in
          (
            same,
            rw (fresh, ← same)
                (ap Channel.in_use (
                  get_or-set_self (r.0).channels i
                    (record cleared { cid = r.1; in_use = true; last_active = now }) cleared
                    (omega (arith, t.slots)))),
          )
    ]

alloc_channel-in_use :
    {E : Type 0} (now j : ℕ) (u : Uhid E)
    → IsSound u
    → (alloc_channel now u).1 ≡ some j
    → (j < max_channels) × ((channel ((alloc_channel now u).0) j).in_use ≡ true)
unfolding alloc_channel
alloc_channel-in_use now j u s e = elim (Option-cases (free_from 0 u.channels)) [
  | inl full ↦
      let i = oldest u in
      let h = oldest-within u s.slots in
      let r =
        occupy-in_use now i cid_attempts true (set_channel u i cleared) j (clear-IsSound u i s) h
          (rw (full, alloc_channel) at e) in
      (omega (arith, r.0, h), rw (full, alloc_channel) (r.1))
  | inr free ↦
      let i = free.0 in
      let h : i < max_channels =
        omega (arith, (free_from-within 0 i u.channels (free.1)).1, s.slots) in
      let r =
        occupy-in_use now i cid_attempts false (set_channel u i cleared) j (clear-IsSound u i s) h
          (rw (free.1, alloc_channel) at e) in
      (omega (arith, r.0, h), rw (free.1, alloc_channel) (r.1))
]

-- On a transport that keeps its invariant, where `alloc_channel` gives a channel and its
-- identifier has 32 bits, a message of at most 7609 bytes, cut into reports with that
-- identifier as `ctaphid_send_response` does it, is assembled by `process_hid_report` in that
-- channel's buffer byte for byte and dispatched with its command. The command is below 128, and
-- a message of at most 57 bytes with the command INIT is excepted.
pub alloc_channel-Delivers :
    {E : Type 0} (process : Process E) (now i cmd : ℕ) (message : List ℕ) (u : Uhid E)
    → IsSound u
    → (alloc_channel now u).1 ≡ some i
    → (channel ((alloc_channel now u).0) i).cid < 2 ^ 32
    → cmd < 128
    → length message ≤ max_msg_size
    → (cmd == cmd_init && leb (length message) init_data_size) ≡ false
    → let v = (alloc_channel now u).0 in
      let cid = (channel v i).cid in
      Delivers process now cid cmd message i v
        (receive_all process now (reports_of cid cmd message) v)
alloc_channel-Delivers process now i cmd message u s e hc hk hm hi =
    let v = (alloc_channel now u).0 in
    let t = alloc_channel-IsSound now u s in
    let live = alloc_channel-in_use now i u s e in
    let found = find_channel-in_use i v t (omega (arith, live.0, t.slots)) (live.1) in
    let free = t.table.allowed i (live.1) in
    reports_of-Delivers process now (channel v i).cid cmd message i v hc (ground arith) hk hm hi
      found (t.table.bounded i).room
