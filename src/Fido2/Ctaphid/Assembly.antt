-- ===== src/Fido2/Ctaphid/Assembly.antt =====
-- The reassembly of src/fido2/bio_fido2_uhid.c on the reports that `ctaphid_send_response` makes of
-- a message: the framing of one side is undone by the other.
use hiya.Base.{
  ℕ, zero, suc, ◌+◌, ◌-◌, ◌*◌, ◌/◌, ◌%◌, ◌^◌, ◌≤◌, ◌<◌, ◌≡◌, refl, ap, ◌∙◌, sym, true, List, [],
  ◌∷◌, ◌++◌, length, get_or, take, drop, replicate, memcpy, take-memcpy, length-memcpy, length-take,
  length-drop, length-replicate, get_or-set_self, high_bit, some, arith, take-add,
}
use hiya.Cbor.{u8, u16}
use hiya.Cbor.Head.{be}
use hiya.Cbor.Decoder.{be32_of}
use hiya.Cbor.Decoder.Read.{be32_of-be}
use hiya.Fido2.Ctaphid.{
  Uhid, Channel, cleared, channel, set_channel, find_channel, max_msg_size, be32_bytes, report_of,
  cont_reports,
}
use hiya.Fido2.Ctaphid.Dispatch.{Process, bytes_at, buffer, dispatch}
use hiya.Fido2.Ctaphid.Receive.{
  reset, complete, cont_chunk, bytes_left, cont_on, cont_packet, process_hid_report,
}
use hiya.Fido2.Ctaphid.Slots.{set-set, find_channel-set, find_channel-IsFound}

-- The reports of one message, one after another.
unfoldable pub receive_all : {E : Type 0} → Process E → ℕ → List (List ℕ) → Uhid E → Uhid E
receive_all process now [] u = u
receive_all process now (r ∷ rs) u = receive_all process now rs (process_hid_report process now r u)

-- The bytes in front of the payload, as the receiver reads them.
pub cid_field : (cid : ℕ) (rest : List ℕ) → cid < 2 ^ 32 → be32_of (be32_bytes cid ++ rest) ≡ cid
unfolding be32_of
cid_field cid rest h =
    let bytes : be32_bytes cid ≡ be 4 cid = ground arith in
    ap (λ b. be32_of (b ++ [])) bytes ∙ be32_of-be cid h

pub report_payload :
    (n chunk : ℕ) (bytes : List ℕ)
    → length bytes ≡ chunk
    → chunk ≤ n
    → take chunk (memcpy (replicate n 0) 0 bytes) ≡ bytes
report_payload n chunk bytes e h =
    take-memcpy (replicate n 0) 0 chunk bytes (omega (arith, length-replicate {A = ℕ} n 0))
      (omega arith)

-- The channel `i` while `r` bytes of the message have come, in the initialization packet and `s`
-- continuation packets.
pub record Assembling {E : Type 0} (cid cmd : ℕ) (message : List ℕ) (i r s : ℕ) (u : Uhid E)
    : Type 0 where
  pub found : find_channel cid u ≡ some i
  pub command : (channel u i).cmd ≡ cmd
  pub total : (channel u i).total_len ≡ length message
  pub got : (channel u i).received ≡ r
  pub next : (channel u i).next_seq ≡ s
  pub room : length (channel u i).msg_buf ≡ max_msg_size
  pub held : take r (channel u i).msg_buf ≡ take r message

-- What the receiver does with the whole message: it dispatches it, and the channel is free for the
-- next one.
pub record Delivers {E : Type 0} (process : Process E) (now cid cmd : ℕ) (message : List ℕ) (i : ℕ)
    (u after : Uhid E) : Type 0 where
  pub assembled : Channel
  pub same_cid : assembled.cid ≡ cid
  pub same_cmd : assembled.cmd ≡ cmd
  pub in_use : assembled.in_use ≡ true
  pub content : bytes_at {E = E} (buffer i (length message)) (set_channel u i assembled) ≡ message
  pub dispatched :
      after
      ≡ reset i
          (dispatch process now cid cmd (buffer i (length message)) (set_channel u i assembled))

-- One more packet's bytes.
pub take-more :
    (buf message : List ℕ) (r c n : ℕ)
    → n ≡ r + c
    → r + c ≤ length buf
    → r + c ≤ length message
    → take r buf ≡ take r message
    → take n (memcpy buf r (take c (drop r message))) ≡ take n message
take-more buf message r c n e h l held =
    let more = take c (drop r message) in
    let size : length more ≡ c =
      omega (arith, length-take c (drop r message), length-drop r message) in
    take-memcpy buf r n more (omega arith) (omega arith)
    ∙ ap (λ x. x ++ more) held
    ∙ sym (take-add r c n message e)

-- What `complete` does with a message that has come whole.
pub complete-Delivers :
    {E : Type 0} (process : Process E) (now cid cmd : ℕ) (message : List ℕ) (i : ℕ) (u : Uhid E)
    (ch : Channel)
    → i < length u.channels
    → ch.cid ≡ cid
    → ch.cmd ≡ cmd
    → ch.in_use ≡ true
    → ch.total_len ≡ length message
    → ch.received ≡ length message
    → take (length message) ch.msg_buf ≡ message
    → Delivers process now cid cmd message i u (complete process now i (set_channel u i ch))
unfolding complete
complete-Delivers process now cid cmd message i u ch h c k b t r m =
    let self = get_or-set_self u.channels i ch cleared h in
    record {
      assembled = ch;
      same_cid = c;
      same_cmd = k;
      in_use = b;
      content = rw self m;
      dispatched = rw (self, c, k, t, r) (ground arith);
    }

-- The channel after a continuation packet with the payload `part`.
abbrev pub with_part : Channel → ℕ → ℕ → ℕ → List ℕ → Channel
with_part ch now r s part = record ch {
  next_seq = u8 (s + 1);
  last_active = now;
  msg_buf = memcpy ch.msg_buf r part;
  received = r + length part;
}

pub length-report :
    (n : ℕ) (part : List ℕ) → length part ≤ n → length (memcpy (replicate n 0) 0 part) ≡ n
length-report n part h =
    omega (arith, length-memcpy (replicate n 0) 0 part, length-replicate {A = ℕ} n 0)

-- A report with a sequence number is a continuation packet.
pub as_cont_packet :
    {E : Type 0} (process : Process E) (now cid s : ℕ) (u : Uhid E) (part : List ℕ)
    → cid < 2 ^ 32
    → s < 128
    → length part ≤ 59
    → process_hid_report process now (report_of (be32_bytes cid ++ (s ∷ part))) u
      ≡ cont_packet process now cid s (memcpy (replicate 59 0) 0 part) u
unfolding process_hid_report
as_cont_packet process now cid s u part hc hs hp =
    let size = length-report 59 part hp in
    let field = cid_field cid (memcpy (replicate 60 0) 0 (s ∷ part)) hc in
    let clear : s / 128 % 2 * 128 ≡ 0 = omega arith in rw (size, field, high_bit s, clear) refl

-- A continuation packet that fits what the channel waits for.
pub cont_packet-step :
    {E : Type 0} (process : Process E) (now cid cmd : ℕ) (message : List ℕ) (i r s c : ℕ)
    (u : Uhid E) (part : List ℕ)
    → s < 128
    → r < length message
    → length message ≤ max_msg_size
    → c ≡ cont_chunk (length message - r)
    → length part ≡ c
    → Assembling cid cmd message i r s u
    → cont_packet process now cid s (memcpy (replicate 59 0) 0 part) u
      ≡ complete process now i (set_channel u i (with_part (channel u i) now r s part))
unfolding cont_packet cont_on
cont_packet-step process now cid cmd message i r s c u part hs hr hm ec ep a =
    let read = report_payload 59 c part ep (ground arith) in
    let left : bytes_left (channel u i) ≡ length message - r = omega (arith, a.total, a.got) in
    let small : u16 (r + c) ≡ r + length part = ground arith in
    rw (a.found, left, ← ec, a.got, a.next, a.total, read, small) (ground arith)

-- An earlier write to the channel does not show.
pub Delivers-set :
    {E : Type 0} (process : Process E) (now cid cmd : ℕ) (message : List ℕ) (i : ℕ)
    (u after : Uhid E) (ch : Channel)
    → Delivers process now cid cmd message i (set_channel u i ch) after
    → Delivers process now cid cmd message i u after
Delivers-set process now cid cmd message i u after ch d = record {
  assembled = d.assembled;
  same_cid = d.same_cid;
  same_cmd = d.same_cmd;
  in_use = d.in_use;
  content =
      ap (λ chs. take (length message) (get_or chs i cleared).msg_buf)
        (sym (set-set u.channels i ch d.assembled))
      ∙ d.content;
  dispatched =
      d.dispatched
      ∙ ap
          (λ chs. reset i (
            dispatch process now cid cmd (buffer i (length message)) (record u { channels = chs })))
          (set-set u.channels i ch d.assembled);
}

pub cont_reports-end :
    (rounds cid offset seq : ℕ) (message : List ℕ)
    → length message ≤ offset
    → cont_reports rounds cid message offset seq ≡ []
unfolding cont_reports
cont_reports-end zero cid offset seq message h = refl
cont_reports-end (suc rounds) cid offset seq message h = ground arith

-- The reassembly goes on after a packet that is not the last.
pub part-Assembling :
    {E : Type 0} (now cid cmd : ℕ) (message : List ℕ) (i r s : ℕ) (u : Uhid E) (part : List ℕ)
    → s < 128
    → r + 59 < length message
    → length message ≤ max_msg_size
    → part ≡ take 59 (drop r message)
    → Assembling cid cmd message i r s u
    → Assembling cid cmd message i
        (r + 59)
        (s + 1)
        (set_channel u i (with_part (channel u i) now r s part))
part-Assembling now cid cmd message i r s u part hs hr hm e a =
    let f = find_channel-IsFound cid i u a.found in
    let ch = with_part (channel u i) now r s part in
    let self = get_or-set_self u.channels i ch cleared f.within in
    let size : length part ≡ 59 =
      rw e (omega (arith, length-take 59 (drop r message), length-drop r message)) in
    record {
      found = find_channel-set cid i u ch refl refl ∙ a.found;
      command = ap Channel.cmd self ∙ a.command;
      total = ap Channel.total_len self ∙ a.total;
      got = ap Channel.received self ∙ omega arith;
      next = ap Channel.next_seq self ∙ omega arith;
      room =
          ap (λ c. length c.msg_buf) self
          ∙ length-memcpy (channel u i).msg_buf r part (omega (arith, a.room))
          ∙ a.room;
      held =
          ap (λ c. take (r + 59) c.msg_buf) self
          ∙ ap (λ p. take (r + 59) (memcpy (channel u i).msg_buf r p)) e
          ∙ take-more (channel u i).msg_buf message r 59 (r + 59) refl (omega (arith, a.room))
              (omega arith) a.held;
    }
