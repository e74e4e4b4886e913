-- ===== src/Fido2/Ctaphid/Delivery.antt =====
-- A message that `ctaphid_send_response` of src/fido2/bio_fido2_uhid.c cuts into reports is put
-- together again by `process_hid_report`.
use hiya.Base.{
  ℕ, ◌+◌, ◌*◌, ◌/◌, ◌%◌, ◌^◌, ◌≤◌, ◌<◌, ◌≡◌, ◌≢◌, refl, ap, ◌∙◌, false, ◌&&◌, List, [], ◌∷◌, ◌++◌,
  length, take, replicate, memcpy, length-memcpy, take-memcpy, length-take, get_or-set_self, ltb,
  leb, ◌==◌, if◌then◌else◌, bit_or, bit_or_disjoint, low_seven, high_bit, some, arith, lt-cases,
  inl, inr, take-length, take-min, min,
}
use hiya.Cbor.Head.{be}
use hiya.Cbor.Decoder.{be16_of}
use hiya.Cbor.Decoder.Read.{be16_of-be}
use hiya.Fido2.Ctaphid.{
  Uhid, Channel, cleared, channel, set_channel, find_channel, broadcast_cid, cmd_init,
  init_data_size, max_msg_size, be16_bytes, init_report, cont_reports, reports_of,
}
use hiya.Fido2.Ctaphid.Dispatch.{Process}
use hiya.Fido2.Ctaphid.Receive.{
  complete, start_message, init_chunk, init_packet, process_hid_report,
}
use hiya.Fido2.Ctaphid.Slots.{find_channel-set, find_channel-IsFound}
use hiya.Fido2.Ctaphid.Assembly.{
  receive_all, Assembling, Delivers, cid_field, report_payload, complete-Delivers, length-report,
  Delivers-set, cont_reports-end,
}
use hiya.Fido2.Ctaphid.Continuation.{complete-waits, cont_reports-Delivers}

be16_field : (v : ℕ) (rest : List ℕ) → v < 2 ^ 16 → be16_of (be16_bytes v ++ rest) ≡ v
unfolding be16_of
be16_field v rest h =
    let bytes : be16_bytes v ≡ be 2 v = ground arith in
    ap (λ b. be16_of (b ++ [])) bytes ∙ be16_of-be v h

-- The report that opens a message is an initialization packet.
as_init_packet :
    {E : Type 0} (process : Process E) (now cid cmd : ℕ) (u : Uhid E) (message : List ℕ)
    → cid < 2 ^ 32
    → cmd < 128
    → length message < 2 ^ 16
    → process_hid_report process now (init_report cid cmd message) u
      ≡ init_packet process now cid cmd
          (length message)
          (memcpy (replicate 57 0) 0 (take 57 message))
          u
unfolding process_hid_report init_report
as_init_packet process now cid cmd u message hc hk hm =
    let part = take 57 message in
    let size : length (memcpy (replicate 57 0) 0 part) ≡ 57 =
      length-report 57 part (omega (arith, length-take 57 message)) in
    let field =
      cid_field cid
        (memcpy (replicate 60 0) 0 (bit_or 128 cmd ∷ (be16_bytes (length message) ++ part))) hc in
    let flag = bit_or_disjoint 7 1 cmd hk in
    let top : (128 + cmd) / 128 % 2 * 128 ≡ 128 = omega arith in
    let low : (128 + cmd) % 128 ≡ cmd = omega arith in
    rw (size, field, flag, high_bit (128 + cmd), low_seven (128 + cmd), top, low)
      (ap (λ total. init_packet process now cid cmd total (memcpy (replicate 57 0) 0 part) u)
        (be16_field (length message) (memcpy (replicate 57 0) 0 part) hm))

-- The opening report takes the channel and keeps the first bytes.
abbrev started : Channel → ℕ → ℕ → List ℕ → ℕ → Channel
started ch now cmd message c = record ch {
  cmd = cmd;
  total_len = length message;
  next_seq = 0;
  last_active = now;
  msg_buf = memcpy ch.msg_buf 0 (take c message);
  received = c;
}

opening_bytes :
    (message : List ℕ) (c : ℕ)
    → c ≡ init_chunk (length message)
    → take c (memcpy (replicate 57 0) 0 (take 57 message)) ≡ take c message
opening_bytes message c e =
    let short : c ≡ min 57 (length message) = ground arith in
    ap (λ p. take c (memcpy (replicate 57 0) 0 p)) (take-min 57 c message short)
    ∙ report_payload 57 c (take c message) (omega (arith, length-take c message)) (omega arith)

init_packet-started :
    {E : Type 0} (process : Process E) (now cid cmd : ℕ) (u : Uhid E) (message : List ℕ) (i c : ℕ)
    → cid ≢ broadcast_cid
    → length message ≤ max_msg_size
    → (cmd == cmd_init && leb (length message) init_data_size) ≡ false
    → c ≡ init_chunk (length message)
    → find_channel cid u ≡ some i
    → init_packet process now cid cmd
        (length message)
        (memcpy (replicate 57 0) 0 (take 57 message))
        u
      ≡ complete process now i (set_channel u i (started (channel u i) now cmd message c))
unfolding init_packet start_message
init_packet-started process now cid cmd u message i c hb hm hk ec hf =
    let fits : ltb max_msg_size (length message) ≡ false = ground arith in
    let other : (cid == broadcast_cid) ≡ false = ground arith in
    rw (hk, fits, other, hf, ← ec, opening_bytes message c ec) refl

started-Assembling :
    {E : Type 0} (now cid cmd : ℕ) (message : List ℕ) (i : ℕ) (u : Uhid E)
    → length message ≤ max_msg_size
    → 57 < length message
    → find_channel cid u ≡ some i
    → length (channel u i).msg_buf ≡ max_msg_size
    → Assembling cid cmd message i 57 0 (set_channel u i (started (channel u i) now cmd message 57))
started-Assembling now cid cmd message i u hm h hf hl =
    let ch = started (channel u i) now cmd message 57 in
    let f = find_channel-IsFound cid i u hf in
    let self = get_or-set_self u.channels i ch cleared f.within in
    let part = take 57 message in
    let size : length part ≡ 57 = omega (arith, length-take 57 message) in
    record {
      found = find_channel-set cid i u ch refl refl ∙ hf;
      command = ap Channel.cmd self;
      total = ap Channel.total_len self;
      got = ap Channel.received self;
      next = ap Channel.next_seq self;
      room =
          ap (λ x. length x.msg_buf) self
          ∙ length-memcpy (channel u i).msg_buf 0 part (omega (arith, hl))
          ∙ hl;
      held =
          ap (λ x. take 57 x.msg_buf) self
          ∙ take-memcpy (channel u i).msg_buf 0 57 part (omega (arith, hl)) (omega arith);
    }

-- The opening report on the one side, and what the receiver makes of it.
reports_of-opened :
    {E : Type 0} (process : Process E) (now cid cmd : ℕ) (message : List ℕ) (i c : ℕ) (u : Uhid E)
    → cid < 2 ^ 32
    → cid ≢ broadcast_cid
    → cmd < 128
    → length message ≤ max_msg_size
    → (cmd == cmd_init && leb (length message) init_data_size) ≡ false
    → find_channel cid u ≡ some i
    → c ≡ min 57 (length message)
    → receive_all process now (reports_of cid cmd message) u
      ≡ receive_all process now
          (cont_reports (length message) cid message c 0)
          (complete process now i (set_channel u i (started (channel u i) now cmd message c)))
unfolding receive_all reports_of
reports_of-opened process now cid cmd message i c u hc hb hk hm hi hf ec =
    let chunk : (if ltb (length message) init_data_size then length message else init_data_size)
        ≡ c =
      ground arith in
    ap
      (λ n.
        receive_all process now
          (init_report cid cmd message ∷ cont_reports (length message) cid message n 0) u)
      chunk
    ∙ ap (receive_all process now (cont_reports (length message) cid message c 0)) (
        as_init_packet process now cid cmd u message hc hk (omega arith)
        ∙ init_packet-started process now cid cmd u message i c hb hm hi (ground arith) hf)

-- For a channel that `find_channel` finds with a buffer of 7609 bytes, an identifier of 32 bits
-- that is not the broadcast one, a command below 128 and a message of at most 7609 bytes, which
-- has more than 57 bytes if the command is INIT: on the reports that `ctaphid_send_response`
-- makes of the message, `process_hid_report` assembles it in the channel's buffer byte for
-- byte, dispatches it with its command, and leaves the channel free for the next message.
pub reports_of-Delivers :
    {E : Type 0} (process : Process E) (now cid cmd : ℕ) (message : List ℕ) (i : ℕ) (u : Uhid E)
    → cid < 2 ^ 32
    → cid ≢ broadcast_cid
    → cmd < 128
    → length message ≤ max_msg_size
    → (cmd == cmd_init && leb (length message) init_data_size) ≡ false
    → find_channel cid u ≡ some i
    → length (channel u i).msg_buf ≡ max_msg_size
    → Delivers process now cid cmd message i u
        (receive_all process now (reports_of cid cmd message) u)
unfolding receive_all
reports_of-Delivers process now cid cmd message i u hc hb hk hm hi hf hl =
    let f = find_channel-IsFound cid i u hf in
    elim (lt-cases 57 (length message)) [
      | inl longer ↦
          let ch = started (channel u i) now cmd message 57 in
          let rest =
            cont_reports-Delivers process now cid cmd message (length message) i 57 0
              (set_channel u i ch) hc refl longer hm (omega arith)
              (started-Assembling now cid cmd message i u hm longer hf hl) in
          rw
            (
              reports_of-opened process now cid cmd message i 57 u hc hb hk hm hi hf (omega arith),
              complete-waits process now i u ch f.within longer,
            )
            (Delivers-set process now cid cmd message i u _ ch rest)
      | inr last ↦
          let n = length message in
          rw
            (
              reports_of-opened process now cid cmd message i n u hc hb hk hm hi hf (omega arith),
              cont_reports-end n cid n 0 message (omega arith),
            )
            (complete-Delivers process now cid cmd message i u
              (started (channel u i) now cmd message n) f.within f.same refl f.in_use refl refl
              (take-memcpy (channel u i).msg_buf 0 n (take n message)
                  (omega (arith, length-take n message)) (omega (arith, length-take n message))
                ∙ take-length message))
    ]
