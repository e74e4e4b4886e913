-- ===== src/Fido2/Ctaphid/Sound.antt =====
-- The invariant of the transport in src/fido2/bio_fido2_uhid.c, and what sends, allocates and
-- clears under it.
use hiya.Base.{
  if-Is, ℕ, zero, suc, ◌+◌, ◌-◌, ◌≤◌, ◌≡◌, refl, ◌∙◌, Bool, true, false, ◌||◌, List, [], ◌∷◌, ◌++◌,
  length, get_or, if◌then◌else◌, Option, none, some, arith, Bool-cases, Option-cases, inl, inr,
  length-replicate, length-set, length-take, length-memcpy, replicate, take, drop, ltb, leb, bit_or,
}
use hiya.Cbor.{u8}
use hiya.Fido2.Ctaphid.{
  Uhid, Channel, cleared, channel, set_channel, report_of, report_size, init_report, cont_reports,
  reports_of, written, send_report, send_reports, send_response, init_packet_flag, be32_bytes,
  be16_bytes, init_data_size, cont_data_size, max_channels, cmd_error, send_error, find_from,
  find_channel, free_from, oldest, is_reserved, is_taken, fall_back, drawn, next_random, draw,
  draw_cid, cid_attempts, occupy, alloc_channel,
}
use hiya.Fido2.Ctaphid.Table.{Bounded, cleared-Bounded, Table, Table-clear, Table-set, Table-occupy}

-- A report of another length is not among these.
abbrev pub Full : List (List ℕ) → Type 0
Full rs = (k : ℕ) → length (get_or rs k (replicate report_size 0)) ≡ report_size

pub record IsSound {E : Type 0} (u : Uhid E) : Type 0 where
  pub table : Table u.channels
  pub slots : length u.channels ≡ max_channels
  pub full : Full u.sent

Full-cons : (r : List ℕ) (rs : List (List ℕ)) → length r ≡ report_size → Full rs → Full (r ∷ rs)
Full-cons r rs h f zero = h
Full-cons r rs h f (suc k) = f k

Full-snoc :
    (rs : List (List ℕ)) (r : List ℕ) → length r ≡ report_size → Full rs → Full (rs ++ (r ∷ []))
Full-snoc [] r h f = Full-cons r [] h f
Full-snoc (x ∷ rs) r h f = Full-cons x (rs ++ (r ∷ [])) (f 0) (Full-snoc rs r h (λ k. f (suc k)))

report_of-length :
    (bytes : List ℕ) → length bytes ≤ report_size → length (report_of bytes) ≡ report_size
report_of-length bytes h =
    length-memcpy (replicate report_size 0) 0 bytes
      (omega (arith, length-replicate {A = ℕ} report_size 0))
    ∙ length-replicate {A = ℕ} report_size 0

cont_reports-Full :
    (rounds cid offset seq : ℕ) (message : List ℕ)
    → Full (cont_reports rounds cid message offset seq)
unfolding cont_reports
cont_reports-Full zero cid offset seq message = λ k. refl
cont_reports-Full (suc rounds) cid offset seq message =
    elim (Bool-cases (leb (length message) offset)) [
      | inl end ↦ rw end (λ k. refl)
      | inr more ↦
          let left = length message - offset in
          let chunk = if ltb cont_data_size left then cont_data_size else left in
          let small : chunk ≤ cont_data_size = ground arith in
          let part = take chunk (drop offset message) in
          rw more (
            Full-cons (report_of (be32_bytes cid ++ (seq ∷ part)))
              (cont_reports rounds cid message (offset + chunk) (u8 (seq + 1)))
              (report_of-length (be32_bytes cid ++ (seq ∷ part))
                (omega (arith, length-take chunk (drop offset message))))
              (cont_reports-Full rounds cid (offset + chunk) (u8 (seq + 1)) message))
    ]

reports_of-Full : (cid cmd : ℕ) (message : List ℕ) → Full (reports_of cid cmd message)
unfolding reports_of init_report
reports_of-Full cid cmd message =
    let chunk = if ltb (length message) init_data_size then length message else init_data_size in
    let opening =
      be32_bytes cid
      ++ (bit_or init_packet_flag cmd
          ∷ (be16_bytes (length message) ++ take init_data_size message)) in
    Full-cons (report_of opening) (cont_reports (length message) cid message chunk 0)
      (report_of-length opening (omega (arith, length-take init_data_size message)))
      (cont_reports-Full (length message) cid chunk 0 message)

written-IsSound :
    {E : Type 0} (u : Uhid E) (r : List ℕ) (refused : List Bool)
    → length r ≡ report_size
    → IsSound u
    → IsSound ((written r u refused).0)
written-IsSound u r [] h s = record {
  table = s.table;
  slots = s.slots;
  full = Full-snoc u.sent r h s.full;
}
written-IsSound u r (true ∷ rest) h s = record { table = s.table; slots = s.slots; full = s.full }
written-IsSound u r (false ∷ rest) h s = record {
  table = s.table;
  slots = s.slots;
  full = Full-snoc u.sent r h s.full;
}

send_reports-IsSound :
    {E : Type 0} (rs : List (List ℕ)) (u : Uhid E)
    → Full rs
    → IsSound u
    → IsSound (send_reports rs u)
unfolding send_reports send_report
send_reports-IsSound [] u f s = s
send_reports-IsSound (r ∷ rs) u f s =
    let w = written r u u.refused in
    let first = written-IsSound u r u.refused (f 0) s in
    if-Is IsSound (w.1) (send_reports rs (w.0)) (w.0)
      (send_reports-IsSound rs (w.0) (λ k. f (suc k)) first) first

pub send_response-IsSound :
    {E : Type 0} (cid cmd : ℕ) (message : List ℕ) (u : Uhid E)
    → IsSound u
    → IsSound (send_response cid cmd message u)
unfolding send_response
send_response-IsSound cid cmd message u s =
    send_reports-IsSound (reports_of cid cmd message) u (reports_of-Full cid cmd message) s

pub send_error-IsSound :
    {E : Type 0} (cid code : ℕ) (u : Uhid E) → IsSound u → IsSound (send_error cid code u)
unfolding send_error
send_error-IsSound cid code u s = send_response-IsSound cid cmd_error (code ∷ []) u s

-- A write to a slot that keeps the identifier and the use.
pub set_channel-IsSound :
    {E : Type 0} (u : Uhid E) (i : ℕ) (ch : Channel)
    → ch.in_use ≡ (channel u i).in_use
    → ch.cid ≡ (channel u i).cid
    → Bounded ch
    → IsSound u
    → IsSound (set_channel u i ch)
set_channel-IsSound u i ch p q b s = record {
  table = Table-set u.channels i ch p q b s.table;
  slots = length-set u.channels i ch ∙ s.slots;
  full = s.full;
}

pub clear-IsSound :
    {E : Type 0} (u : Uhid E) (i : ℕ) → IsSound u → IsSound (set_channel u i cleared)
clear-IsSound u i s = record {
  table = Table-clear u.channels i s.table;
  slots = length-set u.channels i cleared ∙ s.slots;
  full = s.full;
}

fall_back-IsSound :
    {E : Type 0} (evicts : Bool) (u : Uhid E) → IsSound u → IsSound ((fall_back evicts u).0)
fall_back-IsSound true u s = record { table = s.table; slots = s.slots; full = s.full }
fall_back-IsSound false u s = record { table = s.table; slots = s.slots; full = s.full }

drawn-IsSound :
    {E : Type 0} (evicts : Bool) (u : Uhid E) (r : Option ℕ)
    → IsSound u
    → IsSound ((drawn evicts u r).0)
drawn-IsSound evicts u none s = fall_back-IsSound evicts u s
drawn-IsSound evicts u (some cid) s = s

pub draw-IsSound :
    {E : Type 0} (evicts : Bool) (u : Uhid E) → IsSound u → IsSound ((draw evicts u).0)
unfolding draw
draw-IsSound evicts u s =
    drawn-IsSound evicts (record u { random = drop 1 u.random }) (next_random u.random)
      (record { table = s.table; slots = s.slots; full = s.full })

-- An identifier that passes the loop's test is free.
free_cid :
    {E : Type 0} (cid : ℕ) (u : Uhid E)
    → (is_reserved cid || is_taken cid u) ≡ false
    → (is_reserved cid ≡ false) × (find_from cid 0 u.channels ≡ none)
unfolding find_channel
free_cid cid u h = elim (Option-cases (find_from cid 0 u.channels)) [
  | inl nobody ↦ (ground arith, nobody)
  | inr found ↦ absurd (let taken = rw (found.1, is_taken) at h in ground arith)
]

occupy-IsSound :
    {E : Type 0} (now i attempts : ℕ) (evicts : Bool) (u : Uhid E)
    → IsSound u
    → IsSound ((occupy now i (draw_cid attempts evicts u)).0)
unfolding draw_cid
occupy-IsSound now i zero evicts u s = draw-IsSound evicts u s
occupy-IsSound now i (suc attempts) evicts u s =
    let r = draw evicts u in
    let t = draw-IsSound evicts u s in
    elim (Bool-cases (is_reserved (r.1) || is_taken (r.1) (r.0))) [
      | inl again ↦ rw again (occupy-IsSound now i attempts evicts (r.0) t)
      | inr fresh ↦
          let free = free_cid (r.1) (r.0) fresh in
          let ch = record cleared { cid = r.1; in_use = true; last_active = now } in
          rw fresh (record {
            table =
                Table-occupy (r.0).channels i ch (free.0) (free.1) (Bounded-same cleared-Bounded)
                  t.table;
            slots = length-set (r.0).channels i ch ∙ t.slots;
            full = t.full;
          })
    ]
  where
    Bounded-same :
        Bounded cleared
        → Bounded (record cleared { cid = (draw evicts u).1; in_use = true; last_active = now })
    Bounded-same b = record { room = b.room; fits = b.fits; got = b.got }

pub alloc_channel-IsSound :
    {E : Type 0} (now : ℕ) (u : Uhid E) → IsSound u → IsSound ((alloc_channel now u).0)
unfolding alloc_channel
alloc_channel-IsSound now u s = elim (Option-cases (free_from 0 u.channels)) [
  | inl full ↦
      rw (full, alloc_channel)
        (occupy-IsSound now (oldest u) cid_attempts true (set_channel u (oldest u) cleared)
          (clear-IsSound u (oldest u) s))
  | inr free ↦
      rw (free.1, alloc_channel)
        (occupy-IsSound now (free.0) cid_attempts false (set_channel u (free.0) cleared)
          (clear-IsSound u (free.0) s))
]
