-- ===== src/Fido2/Ctaphid/Receive.antt =====
-- The reassembly of messages in src/fido2/bio_fido2_uhid.c: one report, the timeout of stale
-- transactions, and the OUTPUT events of the reader thread.
use hiya.Base.{
  ℕ, zero, suc, ◌+◌, ◌-◌, ◌%◌, ◌^◌, not, ◌&&◌, List, length, get_or, take, drop, memcpy, ltb, leb,
  ◌==◌, if◌then◌else◌, bit_and, Option, none, some,
}
use hiya.Cbor.{u8, u16}
use hiya.Cbor.Decoder.{be16_of, be32_of}
use hiya.Fido2.Ctaphid.{
  Uhid, Channel, channel, set_channel, find_channel, alloc_channel, send_error, broadcast_cid,
  init_packet_flag, cmd_init, err_invalid_len, err_invalid_seq, err_invalid_channel,
  err_msg_timeout, init_data_size, cont_data_size, max_msg_size, report_size,
  transaction_timeout_ms,
}
use hiya.Fido2.Ctaphid.Dispatch.{Process, packet, buffer, dispatch}

-- `ch->total_len = 0; ch->received = 0;`
abbrev pub reset : {E : Type 0} → ℕ → Uhid E → Uhid E
reset i u = set_channel u i (record (channel u i) { total_len = 0; received = 0 })

-- The message is dispatched if it is complete.
unfoldable pub complete : {E : Type 0} → Process E → ℕ → ℕ → Uhid E → Uhid E
complete process now i u =
    let ch = channel u i in
    if leb ch.total_len ch.received
    then reset i (dispatch process now ch.cid ch.cmd (buffer i ch.total_len) u)
    else u

abbrev pub init_chunk : ℕ → ℕ
init_chunk total = if ltb init_data_size total then init_data_size else total

-- Starts the reassembly on a channel, if there is one.
unfoldable pub start_message :
    {E : Type 0} → Process E → ℕ → ℕ → ℕ → ℕ → List ℕ → Uhid E × Option ℕ → Uhid E
start_message process now cid cmd total payload (u, none) = send_error cid err_invalid_channel u
start_message process now cid cmd total payload (u, some i) =
    let ch = channel u i in
    complete process now i (
      set_channel u i (record ch {
        cmd = cmd;
        total_len = total;
        next_seq = 0;
        last_active = now;
        msg_buf = memcpy ch.msg_buf 0 (take (init_chunk total) payload);
        received = init_chunk total;
      }))

-- The branch for an initialization packet.
unfoldable pub init_packet : {E : Type 0} → Process E → ℕ → ℕ → ℕ → ℕ → List ℕ → Uhid E → Uhid E
init_packet process now cid cmd total payload u =
    if cmd == cmd_init && leb total init_data_size
    then dispatch process now cid cmd (packet (take total payload)) u
    else if ltb max_msg_size total
    then send_error cid err_invalid_len u
    else if cid == broadcast_cid && not (cmd == cmd_init)
    then send_error cid err_invalid_channel u
    else if cid == broadcast_cid
    then start_message process now cid cmd total payload (alloc_channel now u)
    else start_message process now cid cmd total payload (u, find_channel cid u)

abbrev pub cont_chunk : ℕ → ℕ
cont_chunk left = if ltb left cont_data_size then left else cont_data_size

-- `ch->total_len - ch->received` as a `uint16_t`.
abbrev pub bytes_left : Channel → ℕ
bytes_left ch = (ch.total_len + 2 ^ 16 - ch.received) % 2 ^ 16

-- The branch for a continuation packet, on its channel.
unfoldable pub cont_on : {E : Type 0} → Process E → ℕ → ℕ → ℕ → List ℕ → ℕ → Uhid E → Uhid E
cont_on process now cid seq payload i u =
    let ch = channel u i in
    let chunk = cont_chunk (bytes_left ch) in
    let stepped = record ch { next_seq = u8 (ch.next_seq + 1); last_active = now } in
    if ch.total_len == 0
    then send_error cid err_invalid_channel u
    else if not (seq == ch.next_seq)
    then reset i (send_error cid err_invalid_seq u)
    else if ltb max_msg_size (ch.received + chunk)
    then reset i (send_error cid err_invalid_len (set_channel u i stepped))
    else complete process now i (
        set_channel u i (record stepped {
          msg_buf = memcpy ch.msg_buf ch.received (take chunk payload);
          received = u16 (ch.received + chunk);
        }))

abbrev pub cont_found : {E : Type 0} → Process E → ℕ → ℕ → ℕ → List ℕ → Option ℕ → Uhid E → Uhid E
cont_found process now cid seq payload none u = send_error cid err_invalid_channel u
cont_found process now cid seq payload (some i) u = cont_on process now cid seq payload i u

unfoldable pub cont_packet : {E : Type 0} → Process E → ℕ → ℕ → ℕ → List ℕ → Uhid E → Uhid E
cont_packet process now cid seq payload u =
    cont_found process now cid seq payload (find_channel cid u) u

-- `process_hid_report`.
unfoldable pub process_hid_report : {E : Type 0} → Process E → ℕ → List ℕ → Uhid E → Uhid E
process_hid_report process now report u =
    let cid = be32_of report in
    let byte4 = get_or report 4 0 in
    if ltb (length report) report_size
    then u
    else if not (bit_and byte4 init_packet_flag == 0)
    then init_packet process now cid (bit_and byte4 0x7f) (be16_of (drop 5 report)) (drop 7 report)
        u
    else cont_packet process now cid byte4 (drop 5 report) u

-- The check of one channel where `poll` times out; `now - last_active` is a `uint64_t`.
unfoldable pub expire : {E : Type 0} → ℕ → ℕ → Uhid E → Uhid E
expire now i u =
    let ch = channel u i in
    if ch.in_use
      && ltb 0 ch.total_len
      && ltb ch.received ch.total_len
      && ltb transaction_timeout_ms ((now + 2 ^ 64 - ch.last_active) % 2 ^ 64)
    then reset i (send_error ch.cid err_msg_timeout u)
    else u

-- The loop over the channels, from `i` on.
unfoldable pub expire_all : {E : Type 0} → ℕ → ℕ → ℕ → Uhid E → Uhid E
expire_all now i zero u = u
expire_all now i (suc n) u = expire_all now (i + 1) n (expire now i u)

-- The case UHID_OUTPUT: the report without the identifier byte that `hidraw` puts before it.
unfoldable pub output_event : {E : Type 0} → Process E → ℕ → List ℕ → Uhid E → Uhid E
output_event process now bytes u =
    let report =
      (if length bytes == report_size + 1 && get_or bytes 0 0 == 0 then drop 1 bytes else bytes) in
    if ltb (length report) 5
    then u
    else if length report == report_size
    then process_hid_report process now report u
    else u

-- What `poll` and `read` give the reader thread: nothing for half a second, or an OUTPUT event.
pub data Event : Type 0 where
  timeout : ℕ → Event
  output : ℕ → List ℕ → Event

-- One round of `uhid_reader_thread`.
unfoldable pub handle_event : {E : Type 0} → Process E → Event → Uhid E → Uhid E
handle_event process (timeout now) u = expire_all now 0 8 u
handle_event process (output now bytes) u = output_event process now bytes u
