-- ===== src/Fido2/Ctaphid/Table.antt =====
-- What src/fido2/bio_fido2_uhid.c keeps true of its channel table: message lengths within the
-- buffers, and identifiers that no two channels in use share.
use hiya.Base.{
  ℕ, zero, suc, ◌≤◌, ◌≡◌, ◌≢◌, ◌⊎◌, refl, ap, ◌∙◌, sym, true, false, List, [], ◌∷◌, length, get_or,
  set, none, arith, inl, inr, length-replicate,
}
use hiya.Fido2.Ctaphid.{Channel, cleared, zero_buf, find_from, is_reserved, max_msg_size}

-- The message of a channel, whole or in part, is within its buffer.
pub record Bounded (ch : Channel) : Type 0 where
  pub room : length ch.msg_buf ≡ max_msg_size
  pub fits : ch.total_len ≤ max_msg_size
  pub got : ch.received ≤ ch.total_len

pub cleared-Bounded : Bounded cleared
unfolding zero_buf
cleared-Bounded = record {
  room = length-replicate {A = ℕ} max_msg_size 0;
  fits = omega arith;
  got = omega arith;
}

pub record Table (chs : List Channel) : Type 0 where
  pub bounded : (i : ℕ) → Bounded (get_or chs i cleared)
  pub allowed :
      (i : ℕ)
      → (get_or chs i cleared).in_use ≡ true
      → is_reserved (get_or chs i cleared).cid ≡ false
  pub distinct :
      (i j : ℕ)
      → (get_or chs i cleared).in_use ≡ true
      → (get_or chs j cleared).in_use ≡ true
      → (get_or chs i cleared).cid ≡ (get_or chs j cleared).cid
      → i ≡ j

-- A slot after a write to the slot `i`.
set-cases :
    (chs : List Channel) (i j : ℕ) (ch : Channel)
    → ((i ≡ j) × (get_or (set chs i ch) j cleared ≡ ch))
      ⊎ (get_or (set chs i ch) j cleared ≡ get_or chs j cleared)
set-cases [] i j ch = inr refl
set-cases (c ∷ chs) zero zero ch = inl (refl, refl)
set-cases (c ∷ chs) zero (suc j) ch = inr refl
set-cases (c ∷ chs) (suc i) zero ch = inr refl
set-cases (c ∷ chs) (suc i) (suc j) ch = elim (set-cases chs i j ch) [
  | inl same ↦ inl (ap suc same.0, same.1)
  | inr other ↦ inr other
]

-- A property of channels after a write.
set-each :
    (P : Channel → Type 0) (chs : List Channel) (i : ℕ) (ch : Channel)
    → P ch
    → ((j : ℕ) → P (get_or chs j cleared))
    → (j : ℕ) → P (get_or (set chs i ch) j cleared)
set-each P chs i ch p all j = elim (set-cases chs i j ch) [
  | inl same ↦ rw (same.1) p
  | inr other ↦ rw other (all j)
]

-- A channel that holds nothing is in the way of no other.
pub Table-clear : (chs : List Channel) (i : ℕ) → Table chs → Table (set chs i cleared)
Table-clear chs i t = record {
  bounded = set-each Bounded chs i cleared cleared-Bounded t.bounded;
  allowed =
      set-each (λ c. c.in_use ≡ true → is_reserved c.cid ≡ false) chs i cleared (λ e. cc) t.allowed;
  distinct = λ j k. elim (set-cases chs i j cleared) [
    | inl a ↦ rw (a.1) (λ e f g. cc)
    | inr a ↦ elim (set-cases chs i k cleared) [
      | inl b ↦ rw (b.1) (λ e f g. cc)
      | inr b ↦ rw (a, b) (t.distinct j k)
    ]
  ];
}

-- A write that keeps the identifier and the use.
pub Table-set :
    (chs : List Channel) (i : ℕ) (ch : Channel)
    → ch.in_use ≡ (get_or chs i cleared).in_use
    → ch.cid ≡ (get_or chs i cleared).cid
    → Bounded ch
    → Table chs
    → Table (set chs i ch)
Table-set chs i ch p q b t = record {
  bounded = set-each Bounded chs i ch b t.bounded;
  allowed =
      set-each (λ c. c.in_use ≡ true → is_reserved c.cid ≡ false) chs i ch (rw (p, q) (t.allowed i))
        t.allowed;
  distinct = λ j k. rw (in_use j, in_use k, cid j, cid k) (t.distinct j k);
}
  where
    in_use : (j : ℕ) → (get_or (set chs i ch) j cleared).in_use ≡ (get_or chs j cleared).in_use
    in_use j = elim (set-cases chs i j ch) [
      | inl same ↦ rw (same.1, p, same.0) refl
      | inr other ↦ ap Channel.in_use other
    ]

    cid : (j : ℕ) → (get_or (set chs i ch) j cleared).cid ≡ (get_or chs j cleared).cid
    cid j = elim (set-cases chs i j ch) [
      | inl same ↦ rw (same.1, q, same.0) refl
      | inr other ↦ ap Channel.cid other
    ]

-- Where the search finds nothing, no channel in use has the identifier.
find_from-none :
    (cid i j : ℕ) (chs : List Channel)
    → find_from cid i chs ≡ none
    → (get_or chs j cleared).in_use ≡ true
    → (get_or chs j cleared).cid ≢ cid
unfolding find_from
find_from-none cid i j [] h u = cc
find_from-none cid i zero (c ∷ chs) h u = λ e. ground arith
find_from-none cid i (suc j) (c ∷ chs) h u = find_from-none cid (suc i) j chs (ground arith) u

-- A slot is taken for an identifier that is free.
pub Table-occupy :
    (chs : List Channel) (i : ℕ) (ch : Channel)
    → is_reserved ch.cid ≡ false
    → find_from ch.cid 0 chs ≡ none
    → Bounded ch
    → Table chs
    → Table (set chs i ch)
Table-occupy chs i ch free fresh b t = record {
  bounded = set-each Bounded chs i ch b t.bounded;
  allowed =
      set-each (λ c. c.in_use ≡ true → is_reserved c.cid ≡ false) chs i ch (λ e. free) t.allowed;
  distinct = λ j k. elim (set-cases chs i j ch) [
    | inl a ↦ elim (set-cases chs i k ch) [
      | inl c ↦ λ e f g. sym (a.0) ∙ c.0
      | inr c ↦ rw (a.1, c) (λ e f g. absurd (find_from-none ch.cid 0 k chs fresh f (sym g)))
    ]
    | inr a ↦ elim (set-cases chs i k ch) [
      | inl c ↦ rw (a, c.1) (λ e f g. absurd (find_from-none ch.cid 0 j chs fresh e g))
      | inr c ↦ rw (a, c) (t.distinct j k)
    ]
  ];
}
