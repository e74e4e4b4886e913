-- ===== src/Fido2/Ctaphid/Isolation.antt =====
-- Transactions on different channels of src/fido2/bio_fido2_uhid.c do not touch each other.
use hiya.Base.{
  if-Is, if◌then◌else◌, Bool-cases, ℕ, zero, suc, ◌+◌, ◌<◌, ◌≡◌, ◌≢◌, refl, ap, ◌∙◌, sym, Bool,
  true, false, not, List, [], ◌∷◌, length, length-set, get_or, get_or-set_self, get_or-set_ne, take,
  drop, ltb, leb, ◌==◌, bit_and, some, arith, lt-cases, inl, inr,
}
use hiya.Cbor.{u8}
use hiya.Cbor.Decoder.{be16_of, be32_of}
use hiya.Fido2.Ctaphid.{
  Uhid, Channel, cleared, channel, set_channel, find_from, find_channel, written, send_report,
  send_reports, send_response, send_error, broadcast_cid, init_packet_flag, cmd_init, cmd_ping,
  cmd_cbor, cmd_msg, cmd_cancel, cmd_wink, cmd_error, cmd_keepalive, err_invalid_cmd,
  err_invalid_len, err_invalid_seq, err_invalid_channel, max_msg_size, report_size, reports_of,
}
use hiya.Fido2.Ctaphid.Dispatch.{
  Process, Place, buffer, bytes_at, send_keepalives, handle_cbor, dispatch, status_upneeded,
  waits_for_user,
}
use hiya.Fido2.Ctaphid.Receive.{
  reset, complete, start_message, init_packet, cont_on, cont_packet, process_hid_report,
}
use hiya.Fido2.Ctaphid.Slots.{find_channel-IsFound}
use hiya.Fido2.Ctaphid.Assembly.{Assembling}

-- What stays of the channel table when only the channel `i` works: the other channels, and which
-- identifiers are in use.
record Beside {E : Type 0} (i : ℕ) (u v : Uhid E) : Type 0 where
  slots : length v.channels ≡ length u.channels
  others : (j : ℕ) → j ≢ i → channel v j ≡ channel u j
  in_use : (channel v i).in_use ≡ (channel u i).in_use
  same : (channel v i).cid ≡ (channel u i).cid

Beside-trans : {E : Type 0} (i : ℕ) (u v w : Uhid E) → Beside i u v → Beside i v w → Beside i u w
Beside-trans i u v w a b = record {
  slots = b.slots ∙ a.slots;
  others = λ j n. b.others j n ∙ a.others j n;
  in_use = b.in_use ∙ a.in_use;
  same = b.same ∙ a.same;
}

Beside-same : {E : Type 0} (i : ℕ) (u v : Uhid E) → v.channels ≡ u.channels → Beside i u v
Beside-same i u v e = record {
  slots = ap length e;
  others = λ j n. ap (λ chs. get_or chs j cleared) e;
  in_use = ap (λ chs. (get_or chs i cleared).in_use) e;
  same = ap (λ chs. (get_or chs i cleared).cid) e;
}

-- A write to the channel that keeps its identifier and its use.
Beside-set :
    {E : Type 0} (i : ℕ) (u : Uhid E) (ch : Channel)
    → i < length u.channels
    → ch.in_use ≡ (channel u i).in_use
    → ch.cid ≡ (channel u i).cid
    → Beside i u (set_channel u i ch)
Beside-set i u ch h p q =
    let self = get_or-set_self u.channels i ch cleared h in
    record {
      slots = length-set u.channels i ch;
      others = λ j n. get_or-set_ne u.channels i j ch cleared (λ e. n (sym e));
      in_use = ap Channel.in_use self ∙ p;
      same = ap Channel.cid self ∙ q;
    }

written-channels :
    {E : Type 0} (r : List ℕ) (u : Uhid E) (refused : List Bool)
    → ((written r u refused).0).channels ≡ u.channels
written-channels r u [] = refl
written-channels r u (true ∷ rest) = refl
written-channels r u (false ∷ rest) = refl

send_reports-channels :
    {E : Type 0} (rs : List (List ℕ)) (u : Uhid E) → (send_reports rs u).channels ≡ u.channels
unfolding send_reports send_report
send_reports-channels [] u = refl
send_reports-channels (r ∷ rs) u =
    let w = written r u u.refused in
    if-Is (λ v. v.channels ≡ u.channels) (w.1) (send_reports rs (w.0)) (w.0)
      (send_reports-channels rs (w.0) ∙ written-channels r u u.refused)
      (written-channels r u u.refused)

send_response-channels :
    {E : Type 0} (cid cmd : ℕ) (message : List ℕ) (u : Uhid E)
    → (send_response cid cmd message u).channels ≡ u.channels
unfolding send_response
send_response-channels cid cmd message u = send_reports-channels (reports_of cid cmd message) u

send_error-channels :
    {E : Type 0} (cid code : ℕ) (u : Uhid E) → (send_error cid code u).channels ≡ u.channels
unfolding send_error
send_error-channels cid code u = send_response-channels cid cmd_error (code ∷ []) u

send_keepalives-channels :
    {E : Type 0} (n cid : ℕ) (u : Uhid E) → (send_keepalives n cid u).channels ≡ u.channels
unfolding send_keepalives
send_keepalives-channels zero cid u = refl
send_keepalives-channels (suc n) cid u =
    send_keepalives-channels n cid (send_response cid cmd_keepalive (status_upneeded ∷ []) u)
    ∙ send_response-channels cid cmd_keepalive (status_upneeded ∷ []) u

handle_cbor-channels :
    {E : Type 0} (process : Process E) (cid : ℕ) (message : List ℕ) (u : Uhid E)
    → (handle_cbor process cid message u).channels ≡ u.channels
unfolding handle_cbor
handle_cbor-channels process cid [] u = send_error-channels cid err_invalid_len u
handle_cbor-channels process cid (cmd ∷ request) u =
    let reply = process u.engine cmd request in
    let after = record u { engine = reply.engine } in
    send_response-channels cid cmd_cbor _ _
    ∙ if-Is (λ v. v.channels ≡ u.channels) (waits_for_user cmd)
        (send_keepalives reply.keepalives cid after) after
        (send_keepalives-channels reply.keepalives cid after) refl

-- Every command but the one that allocates a channel.
dispatch-channels :
    {E : Type 0} (process : Process E) (now cid cmd : ℕ) (place : Place) (u : Uhid E)
    → (cmd == cmd_init) ≡ false
    → (dispatch process now cid cmd place u).channels ≡ u.channels
unfolding dispatch
dispatch-channels {E} process now cid cmd place u h =
    let message = bytes_at place u in
    let kept : Uhid E → Type 0 = λ v. v.channels ≡ u.channels in
    rw h (
      if-Is kept (cmd == cmd_ping) _ _ (send_response-channels cid cmd_ping message u) (
        if-Is kept (cmd == cmd_cbor) _ _ (handle_cbor-channels process cid message u) (
          if-Is kept (cmd == cmd_msg) _ _ (send_error-channels cid err_invalid_cmd u) (
            if-Is kept (cmd == cmd_cancel) _ _ (send_response-channels cid cmd_cbor (0x2d ∷ []) u) (
              if-Is kept (cmd == cmd_wink) _ _ (send_response-channels cid cmd_wink [] u)
                (send_error-channels cid err_invalid_cmd u))))))

-- The command of the message that a report starts, or else goes on with on the channel `i`.
abbrev pub command_of : {E : Type 0} → List ℕ → ℕ → Uhid E → ℕ
command_of report i u =
    let byte4 = get_or report 4 0 in
    if bit_and byte4 init_packet_flag == 0 then (channel u i).cmd else bit_and byte4 0x7f

module _ {E : Type 0} (process : Process E) (now i : ℕ) where
  reset-Beside : (u : Uhid E) → i < length u.channels → Beside i u (reset i u)
  reset-Beside u h = Beside-set i u _ h refl refl

  -- Sending an error and dropping the transaction.
  refuse-Beside :
      (cid code : ℕ) (u : Uhid E)
      → i < length u.channels
      → Beside i u (reset i (send_error cid code u))
  refuse-Beside cid code u h =
      let sent = send_error-channels cid code u in
      Beside-trans i u (send_error cid code u) _ (Beside-same i u _ sent)
        (reset-Beside (send_error cid code u) (omega (arith, ap length sent)))

  complete-Beside :
      (u : Uhid E)
      → i < length u.channels
      → ((channel u i).cmd == cmd_init) ≡ false
      → Beside i u (complete process now i u)
  unfolding complete
  complete-Beside u h k =
      let ch = channel u i in
      let d = dispatch process now ch.cid ch.cmd (buffer i ch.total_len) u in
      let kept = dispatch-channels process now ch.cid ch.cmd (buffer i ch.total_len) u k in
      if-Is (Beside i u) (leb ch.total_len ch.received) _ _
        (Beside-trans i u d _ (Beside-same i u d kept)
          (reset-Beside d (omega (arith, ap length kept))))
        (Beside-same i u u refl)

  -- A write to the channel, and the message if it is complete.
  write-Beside :
      (u : Uhid E) (ch : Channel)
      → i < length u.channels
      → ch.in_use ≡ (channel u i).in_use
      → ch.cid ≡ (channel u i).cid
      → (ch.cmd == cmd_init) ≡ false
      → Beside i u (complete process now i (set_channel u i ch))
  write-Beside u ch h p q k = Beside-trans i u (set_channel u i ch) _ (Beside-set i u ch h p q) (
      complete-Beside (set_channel u i ch) (omega (arith, length-set u.channels i ch))
        (ap (λ c. c.cmd == cmd_init) (get_or-set_self u.channels i ch cleared h) ∙ k))

  cont_on-Beside :
      (cid seq : ℕ) (payload : List ℕ) (u : Uhid E)
      → i < length u.channels
      → ((channel u i).cmd == cmd_init) ≡ false
      → Beside i u (cont_on process now cid seq payload i u)
  unfolding cont_on
  cont_on-Beside cid seq payload u h k =
      let ch = channel u i in
      let stepped = record ch { next_seq = u8 (ch.next_seq + 1); last_active = now } in
      if-Is (Beside i u) (ch.total_len == 0) _ _
        (Beside-same i u _ (send_error-channels cid err_invalid_channel u))
        (if-Is (Beside i u) (not (seq == ch.next_seq)) _ _ (refuse-Beside cid err_invalid_seq u h) (
          if-Is (Beside i u) _ _ _
            (Beside-trans i u (set_channel u i stepped) _ (Beside-set i u stepped h refl refl) (
              refuse-Beside cid err_invalid_len (set_channel u i stepped)
                (omega (arith, length-set u.channels i stepped))))
            (write-Beside u _ h refl refl k)))

  init_packet-Beside :
      (cid cmd total : ℕ) (payload : List ℕ) (u : Uhid E)
      → find_channel cid u ≡ some i
      → i < length u.channels
      → (cid == broadcast_cid) ≡ false
      → (cmd == cmd_init) ≡ false
      → Beside i u (init_packet process now cid cmd total payload u)
  unfolding init_packet start_message
  init_packet-Beside cid cmd total payload u f h b k =
      rw (k, b, f)
        (if-Is (Beside i u) (ltb max_msg_size total) _ _
          (Beside-same i u _ (send_error-channels cid err_invalid_len u))
          (write-Beside u _ h refl refl k))

  process_hid_report-Beside :
      (report : List ℕ) (u : Uhid E)
      → find_channel (be32_of report) u ≡ some i
      → be32_of report ≢ broadcast_cid
      → command_of report i u ≢ cmd_init
      → Beside i u (process_hid_report process now report u)
  unfolding process_hid_report cont_packet
  process_hid_report-Beside report u f b k =
      let cid = be32_of report in
      let h = (find_channel-IsFound cid i u f).within in
      let byte4 = get_or report 4 0 in
      if-Is (Beside i u) (ltb (length report) report_size) _ _ (Beside-same i u u refl)
        (elim (Bool-cases (bit_and byte4 init_packet_flag == 0)) [
          | inl p ↦ rw (p, f) (cont_on-Beside cid byte4 (drop 5 report) u h (ground arith))
          | inr p ↦ rw p (
              init_packet-Beside cid (bit_and byte4 0x7f) (be16_of (drop 5 report)) (drop 7 report)
                u f h (ground arith) (ground arith))
        ])

-- The search sees the identifiers in use, and nothing else.
find_from-same :
    (cid i : ℕ) (xs ys : List Channel)
    → length xs ≡ length ys
    → ((j : ℕ) → (get_or xs j cleared).in_use ≡ (get_or ys j cleared).in_use)
    → ((j : ℕ) → (get_or xs j cleared).cid ≡ (get_or ys j cleared).cid)
    → find_from cid i xs ≡ find_from cid i ys
unfolding find_from
find_from-same cid i [] [] e p q = refl
find_from-same cid i [] (y ∷ ys) e p q = absurd (omega arith)
find_from-same cid i (x ∷ xs) [] e p q = absurd (omega arith)
find_from-same cid i (x ∷ xs) (y ∷ ys) e p q =
    rw (p 0, q 0, find_from-same cid (suc i) xs ys (omega arith) (λ j. p (suc j)) (λ j. q (suc j)))
      refl

Beside-each :
    {E : Type 0} {A : Type 0} (get : Channel → A) (i : ℕ) (u v : Uhid E)
    → Beside i u v
    → get (channel v i) ≡ get (channel u i)
    → (j : ℕ) → get (channel v j) ≡ get (channel u j)
Beside-each get i u v b e j = elim (lt-cases i j) [
  | inl below ↦ ap get (b.others j (λ s. omega arith))
  | inr at ↦ elim (lt-cases j i) [
    | inl above ↦ ap get (b.others j (λ s. omega arith))
    | inr here ↦ let same : j ≡ i = omega arith in rw same e
  ]
]

find_channel-Beside :
    {E : Type 0} (cid i : ℕ) (u v : Uhid E) → Beside i u v → find_channel cid v ≡ find_channel cid u
unfolding find_channel
find_channel-Beside cid i u v b =
    find_from-same cid 0 v.channels u.channels b.slots (Beside-each Channel.in_use i u v b b.in_use)
      (Beside-each Channel.cid i u v b b.same)

-- A message in assembly on one channel is not disturbed by a report on another: neither the
-- bytes that came, nor its counters, nor how it is found. The other channel is one in use and
-- is not the broadcast one. The report is an initialization packet whose command is not INIT,
-- or a continuation packet with any sequence number on a channel whose command is not INIT.
pub process_hid_report-Assembling :
    {E : Type 0} (process : Process E) (now : ℕ) (report : List ℕ) (u : Uhid E) (i cid cmd : ℕ)
    (message : List ℕ) (j r s : ℕ)
    → find_channel (be32_of report) u ≡ some i
    → be32_of report ≢ broadcast_cid
    → command_of report i u ≢ cmd_init
    → j ≢ i
    → Assembling cid cmd message j r s u
    → Assembling cid cmd message j r s (process_hid_report process now report u)
process_hid_report-Assembling process now report u i cid cmd message j r s f b k n a =
    let beside = process_hid_report-Beside process now i report u f b k in
    let same = beside.others j n in
    record {
      found =
          find_channel-Beside cid i u (process_hid_report process now report u) beside ∙ a.found;
      command = ap Channel.cmd same ∙ a.command;
      total = ap Channel.total_len same ∙ a.total;
      got = ap Channel.received same ∙ a.got;
      next = ap Channel.next_seq same ∙ a.next;
      room = ap (λ c. length c.msg_buf) same ∙ a.room;
      held = ap (λ c. take r c.msg_buf) same ∙ a.held;
    }
