-- ===== src/Fido2/Ctaphid/Continuation.antt =====
-- The continuation packets that `ctaphid_send_response` of src/fido2/bio_fido2_uhid.c makes of a
-- message, put together again by `process_hid_report`.
use hiya.Base.{
  ℕ, zero, suc, ◌+◌, ◌-◌, ◌*◌, ◌^◌, ◌≤◌, ◌<◌, ◌≡◌, refl, ap, ◌∙◌, false, List, ◌∷◌, ◌++◌, length,
  take, drop, memcpy, length-take, length-drop, get_or-set_self, ltb, leb, if◌then◌else◌, arith,
  Bool-cases, inl, inr, take-length,
}
use hiya.Cbor.{u8}
use hiya.Fido2.Ctaphid.{
  Uhid, Channel, cleared, channel, set_channel, max_msg_size, be32_bytes, report_of, cont_reports,
}
use hiya.Fido2.Ctaphid.Dispatch.{Process}
use hiya.Fido2.Ctaphid.Receive.{complete, cont_chunk, process_hid_report}
use hiya.Fido2.Ctaphid.Slots.{find_channel-IsFound}
use hiya.Fido2.Ctaphid.Assembly.{
  receive_all, Assembling, Delivers, with_part, take-more, complete-Delivers, as_cont_packet,
  cont_packet-step, Delivers-set, cont_reports-end, part-Assembling,
}

pub complete-waits :
    {E : Type 0} (process : Process E) (now i : ℕ) (u : Uhid E) (ch : Channel)
    → i < length u.channels
    → ch.received < ch.total_len
    → complete process now i (set_channel u i ch) ≡ set_channel u i ch
unfolding complete
complete-waits process now i u ch h l =
    rw (get_or-set_self u.channels i ch cleared h) (ground arith)

-- The last packet.
last-Delivers :
    {E : Type 0} (process : Process E) (now cid cmd : ℕ) (message : List ℕ) (i r s : ℕ) (u : Uhid E)
    (part : List ℕ)
    → r < length message
    → length message ≤ max_msg_size
    → length part ≡ length message - r
    → part ≡ take (length message - r) (drop r message)
    → Assembling cid cmd message i r s u
    → Delivers process now cid cmd message i u
        (complete process now i (set_channel u i (with_part (channel u i) now r s part)))
last-Delivers process now cid cmd message i r s u part hr hm size e a =
    let f = find_channel-IsFound cid i u a.found in
    complete-Delivers process now cid cmd message i u (with_part (channel u i) now r s part)
      f.within f.same a.command f.in_use a.total (omega arith)
      (ap (λ p. take (length message) (memcpy (channel u i).msg_buf r p)) e
        ∙ take-more (channel u i).msg_buf message r (length message - r) (length message)
            (omega arith) (omega (arith, a.room)) (omega arith) a.held
        ∙ take-length message)

-- One round of the loop that cuts the message up.
cont_reports-step :
    (rounds cid r s c : ℕ) (message : List ℕ)
    → r < length message
    → (if ltb 59 (length message - r) then 59 else length message - r) ≡ c
    → cont_reports (suc rounds) cid message r s
      ≡ report_of (be32_bytes cid ++ (s ∷ take c (drop r message)))
        ∷ cont_reports rounds cid message (r + c) (u8 (s + 1))
unfolding cont_reports
cont_reports-step rounds cid r s c message h e =
    let not_yet : leb (length message) r ≡ false = ground arith in rw (not_yet, e) refl

-- A continuation packet of `c` bytes is taken into the buffer.
cont_report-taken :
    {E : Type 0} (process : Process E) (now cid cmd : ℕ) (message : List ℕ) (i r s c : ℕ)
    (u : Uhid E)
    → cid < 2 ^ 32
    → s < 128
    → r < length message
    → length message ≤ max_msg_size
    → c ≡ cont_chunk (length message - r)
    → c ≤ 59
    → r + c ≤ length message
    → Assembling cid cmd message i r s u
    → process_hid_report process now (report_of (be32_bytes cid ++ (s ∷ take c (drop r message)))) u
      ≡ complete process now i
          (set_channel u i (with_part (channel u i) now r s (take c (drop r message))))
cont_report-taken process now cid cmd message i r s c u hc hs hr hm ec small h a =
    let part = take c (drop r message) in
    let size : length part ≡ c =
      omega (arith, length-take c (drop r message), length-drop r message) in
    as_cont_packet process now cid s u part hc hs (omega (arith, size))
    ∙ cont_packet-step process now cid cmd message i r s c u part hs hr hm ec size a

-- One round of the loop on the one side, and what the receiver makes of it.
cont_reports-round :
    {E : Type 0} (process : Process E) (now cid cmd : ℕ) (message : List ℕ) (rounds i r s c : ℕ)
    (u : Uhid E)
    → cid < 2 ^ 32
    → s < 128
    → r < length message
    → length message ≤ max_msg_size
    → (if ltb 59 (length message - r) then 59 else length message - r) ≡ c
    → Assembling cid cmd message i r s u
    → receive_all process now (cont_reports (suc rounds) cid message r s) u
      ≡ receive_all process now (cont_reports rounds cid message (r + c) (s + 1)) (
          complete process now i
            (set_channel u i (with_part (channel u i) now r s (take c (drop r message)))))
unfolding receive_all
cont_reports-round process now cid cmd message rounds i r s c u hc hs hr hm e a =
    let next : u8 (s + 1) ≡ s + 1 = omega arith in
    ap (λ rs. receive_all process now rs u) (cont_reports-step rounds cid r s c message hr e)
    ∙ ap (receive_all process now (cont_reports rounds cid message (r + c) (u8 (s + 1)))) (
        cont_report-taken process now cid cmd message i r s c u hc (omega arith) hr hm
          (ground arith) (ground arith) (ground arith) a)
    ∙ ap
        (λ q. receive_all process now (cont_reports rounds cid message (r + c) q) (
          complete process now i
            (set_channel u i (with_part (channel u i) now r s (take c (drop r message))))))
        next

-- The packets that are left.
pub cont_reports-Delivers :
    {E : Type 0} (process : Process E) (now cid cmd : ℕ) (message : List ℕ) (rounds i r s : ℕ)
    (u : Uhid E)
    → cid < 2 ^ 32
    → r ≡ 57 + 59 * s
    → r < length message
    → length message ≤ max_msg_size
    → length message - r ≤ rounds
    → Assembling cid cmd message i r s u
    → Delivers process now cid cmd message i u
        (receive_all process now (cont_reports rounds cid message r s) u)
unfolding receive_all
cont_reports-Delivers process now cid cmd message zero i r s u hc er hr hm hf a =
    absurd (omega arith)
cont_reports-Delivers process now cid cmd message (suc rounds) i r s u hc er hr hm hf a =
    let seq : s < 128 = omega arith in
    elim (Bool-cases (ltb 59 (length message - r))) [
      | inl more ↦
          let part = take 59 (drop r message) in
          let ch = with_part (channel u i) now r s part in
          let f = find_channel-IsFound cid i u a.found in
          let longer : r + 59 < length message = ground arith in
          let a' = part-Assembling now cid cmd message i r s u part seq longer hm refl a in
          let size : length part ≡ 59 =
            omega (arith, length-take 59 (drop r message), length-drop r message) in
          let waits = complete-waits process now i u ch f.within (omega (arith, a.total)) in
          let rest =
            cont_reports-Delivers process now cid cmd message rounds i (r + 59) (s + 1)
              (set_channel u i ch) hc (omega arith) longer hm (omega arith) a' in
          rw
            (
              cont_reports-round process now cid cmd message rounds i r s 59 u hc seq hr hm
                  (ground arith) a,
              waits,
            )
            (Delivers-set process now cid cmd message i u _ ch rest)
      | inr last ↦
          let left = length message - r in
          let size : length (take left (drop r message)) ≡ left =
            omega (arith, length-take left (drop r message), length-drop r message) in
          rw
            (
              cont_reports-round process now cid cmd message rounds i r s left u hc seq hr hm
                  (ground arith) a,
              cont_reports-end rounds cid (r + left) (s + 1) message (omega arith),
            )
            (last-Delivers process now cid cmd message i r s u (take left (drop r message)) hr hm
              size refl a)
    ]
