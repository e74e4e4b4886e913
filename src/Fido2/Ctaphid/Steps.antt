-- ===== src/Fido2/Ctaphid/Steps.antt =====
-- The command handlers, the reassembly and the reader thread of src/fido2/bio_fido2_uhid.c under
-- the invariant of the transport.
use hiya.Base.{
  if-Is, ℕ, zero, suc, ◌+◌, ◌≤◌, refl, ◌∙◌, not, ◌&&◌, List, [], ◌∷◌, length, get_or, take, drop,
  length-take, length-memcpy, ltb, leb, ◌==◌, bit_and, Option, none, some, arith, Bool-cases, inl,
  inr,
}
use hiya.Cbor.{u8}
use hiya.Cbor.Decoder.{be16_of, be32_of}
use hiya.Fido2.Ctaphid.{
  Uhid, channel, set_channel, find_channel, alloc_channel, send_response, send_error, broadcast_cid,
  init_packet_flag, cmd_ping, cmd_msg, cmd_init, cmd_wink, cmd_cbor, cmd_cancel, cmd_keepalive,
  err_invalid_cmd, err_invalid_len, err_invalid_seq, err_invalid_channel, err_msg_timeout,
  err_other, init_data_size, max_msg_size, report_size,
}
use hiya.Fido2.Ctaphid.Dispatch.{
  Process, Place, packet, buffer, bytes_at, init_response, answer_init, handle_init, waits_for_user,
  status_upneeded, send_keepalives, handle_cbor, dispatch,
}
use hiya.Fido2.Ctaphid.Receive.{
  reset, complete, init_chunk, start_message, init_packet, cont_chunk, bytes_left, cont_on,
  cont_found, cont_packet, process_hid_report, expire, expire_all, output_event, Event, timeout,
  output, handle_event,
}
use hiya.Fido2.Ctaphid.Sound.{
  IsSound, send_response-IsSound, send_error-IsSound, set_channel-IsSound, alloc_channel-IsSound,
}

module _ {E : Type 0} (process : Process E) (now : ℕ) where
  answer_init-IsSound :
      (cid : ℕ) (place : Place) (r : Uhid E × Option ℕ)
      → IsSound (r.0)
      → IsSound (answer_init cid place r)
  answer_init-IsSound cid place (u, none) s = send_error-IsSound cid err_other u s
  answer_init-IsSound cid place (u, some i) s =
      send_response-IsSound cid cmd_init (init_response (bytes_at place u) (channel u i).cid) u s

  handle_init-IsSound :
      (cid : ℕ) (place : Place) (u : Uhid E) → IsSound u → IsSound (handle_init now cid place u)
  unfolding handle_init
  handle_init-IsSound cid place u s =
      if-Is IsSound (ltb (length (bytes_at place u)) 8) (send_error cid err_invalid_len u)
        (answer_init cid place (alloc_channel now u)) (send_error-IsSound cid err_invalid_len u s)
        (answer_init-IsSound cid place (alloc_channel now u) (alloc_channel-IsSound now u s))

  send_keepalives-IsSound : (n cid : ℕ) (u : Uhid E) → IsSound u → IsSound (send_keepalives n cid u)
  unfolding send_keepalives
  send_keepalives-IsSound zero cid u s = s
  send_keepalives-IsSound (suc n) cid u s =
      send_keepalives-IsSound n cid (send_response cid cmd_keepalive (status_upneeded ∷ []) u)
        (send_response-IsSound cid cmd_keepalive (status_upneeded ∷ []) u s)

  handle_cbor-IsSound :
      (cid : ℕ) (message : List ℕ) (u : Uhid E)
      → IsSound u
      → IsSound (handle_cbor process cid message u)
  unfolding handle_cbor
  handle_cbor-IsSound cid [] u s = send_error-IsSound cid err_invalid_len u s
  handle_cbor-IsSound cid (cmd ∷ request) u s =
      let reply = process u.engine cmd request in
      let after = record u { engine = reply.engine } in
      let t : IsSound after = record { table = s.table; slots = s.slots; full = s.full } in
      send_response-IsSound cid cmd_cbor _ _ (
        if-Is IsSound (waits_for_user cmd) (send_keepalives reply.keepalives cid after) after
          (send_keepalives-IsSound reply.keepalives cid after t) t)

  dispatch-IsSound :
      (cid cmd : ℕ) (place : Place) (u : Uhid E)
      → IsSound u
      → IsSound (dispatch process now cid cmd place u)
  unfolding dispatch
  dispatch-IsSound cid cmd place u s =
      let message = bytes_at place u in
      if-Is IsSound (cmd == cmd_init) _ _ (handle_init-IsSound cid place u s) (
        if-Is IsSound (cmd == cmd_ping) _ _ (send_response-IsSound cid cmd_ping message u s) (
          if-Is IsSound (cmd == cmd_cbor) _ _ (handle_cbor-IsSound cid message u s) (
            if-Is IsSound (cmd == cmd_msg) _ _ (send_error-IsSound cid err_invalid_cmd u s) (
              if-Is IsSound (cmd == cmd_cancel) _ _
                (send_response-IsSound cid cmd_cbor (0x2d ∷ []) u s)
                (if-Is IsSound (cmd == cmd_wink) _ _ (send_response-IsSound cid cmd_wink [] u s)
                  (send_error-IsSound cid err_invalid_cmd u s))))))

  reset-IsSound : (i : ℕ) (u : Uhid E) → IsSound u → IsSound (reset i u)
  reset-IsSound i u s =
      let b = s.table.bounded i in
      set_channel-IsSound u i (record (channel u i) { total_len = 0; received = 0 }) refl refl
        (record { room = b.room; fits = omega arith; got = omega arith }) s

  complete-IsSound : (i : ℕ) (u : Uhid E) → IsSound u → IsSound (complete process now i u)
  unfolding complete
  complete-IsSound i u s =
      let ch = channel u i in
      let place = buffer i ch.total_len in
      if-Is IsSound (leb ch.total_len ch.received) _ _
        (reset-IsSound i (dispatch process now ch.cid ch.cmd place u)
          (dispatch-IsSound ch.cid ch.cmd place u s))
        s

  start_message-IsSound :
      (cid cmd total : ℕ) (payload : List ℕ) (r : Uhid E × Option ℕ)
      → total ≤ max_msg_size
      → IsSound (r.0)
      → IsSound (start_message process now cid cmd total payload r)
  unfolding start_message
  start_message-IsSound cid cmd total payload (u, none) h s =
      send_error-IsSound cid err_invalid_channel u s
  start_message-IsSound cid cmd total payload (u, some i) h s =
      let b = s.table.bounded i in
      let part = take (init_chunk total) payload in
      let small : init_chunk total ≤ 57 = ground arith in
      let chunk : init_chunk total ≤ total = ground arith in
      complete-IsSound i _ (
        set_channel-IsSound u i _ refl refl
          (record {
            room =
                length-memcpy (channel u i).msg_buf 0 part
                  (omega (arith, b.room, length-take (init_chunk total) payload))
                ∙ b.room;
            fits = h;
            got = chunk;
          })
          s)

  init_packet-IsSound :
      (cid cmd total : ℕ) (payload : List ℕ) (u : Uhid E)
      → IsSound u
      → IsSound (init_packet process now cid cmd total payload u)
  unfolding init_packet
  init_packet-IsSound cid cmd total payload u s =
      if-Is IsSound (cmd == cmd_init && leb total init_data_size) _ _
        (dispatch-IsSound cid cmd (packet (take total payload)) u s)
        (elim (Bool-cases (ltb max_msg_size total)) [
          | inl long ↦ rw long (send_error-IsSound cid err_invalid_len u s)
          | inr fits ↦
              let h : total ≤ max_msg_size = ground arith in
              rw fits (
                if-Is IsSound (cid == broadcast_cid && not (cmd == cmd_init)) _ _
                  (send_error-IsSound cid err_invalid_channel u s)
                  (if-Is IsSound (cid == broadcast_cid) _ _
                    (start_message-IsSound cid cmd total payload (alloc_channel now u) h
                      (alloc_channel-IsSound now u s))
                    (start_message-IsSound cid cmd total payload (u, find_channel cid u) h s)))
        ])

  cont_on-IsSound :
      (cid seq : ℕ) (payload : List ℕ) (i : ℕ) (u : Uhid E)
      → IsSound u
      → IsSound (cont_on process now cid seq payload i u)
  unfolding cont_on
  cont_on-IsSound cid seq payload i u s =
      let b = s.table.bounded i in
      let ch = channel u i in
      let chunk = cont_chunk (bytes_left ch) in
      let stepped = record ch { next_seq = u8 (ch.next_seq + 1); last_active = now } in
      let part = take chunk payload in
      let rest : ch.received + chunk ≤ ch.total_len = ground (arith, b.fits, b.got) in
      if-Is IsSound (ch.total_len == 0) _ _ (send_error-IsSound cid err_invalid_channel u s) (
        if-Is IsSound (not (seq == ch.next_seq)) _ _
          (reset-IsSound i (send_error cid err_invalid_seq u)
            (send_error-IsSound cid err_invalid_seq u s))
          (if-Is IsSound (ltb max_msg_size (ch.received + chunk)) _ _
            (reset-IsSound i (send_error cid err_invalid_len (set_channel u i stepped)) (
              send_error-IsSound cid err_invalid_len (set_channel u i stepped) (
                set_channel-IsSound u i stepped refl refl
                  (record { room = b.room; fits = b.fits; got = b.got }) s)))
            (complete-IsSound i _ (
              set_channel-IsSound u i _ refl refl
                (record {
                  room =
                      length-memcpy ch.msg_buf ch.received part
                        (omega (arith, b.room, b.fits, rest, length-take chunk payload))
                      ∙ b.room;
                  fits = b.fits;
                  got = omega (arith, rest, b.fits);
                })
                s))))

  cont_found-IsSound :
      (cid seq : ℕ) (payload : List ℕ) (i : Option ℕ) (u : Uhid E)
      → IsSound u
      → IsSound (cont_found process now cid seq payload i u)
  cont_found-IsSound cid seq payload none u s = send_error-IsSound cid err_invalid_channel u s
  cont_found-IsSound cid seq payload (some i) u s = cont_on-IsSound cid seq payload i u s

  process_hid_report-IsSound :
      (report : List ℕ) (u : Uhid E) → IsSound u → IsSound (process_hid_report process now report u)
  unfolding process_hid_report cont_packet
  process_hid_report-IsSound report u s =
      let cid = be32_of report in
      let byte4 = get_or report 4 0 in
      if-Is IsSound (ltb (length report) report_size) _ _ s (
        if-Is IsSound (not (bit_and byte4 init_packet_flag == 0)) _ _
          (init_packet-IsSound cid (bit_and byte4 0x7f) (be16_of (drop 5 report)) (drop 7 report) u
            s)
          (cont_found-IsSound cid byte4 (drop 5 report) (find_channel cid u) u s))

  expire-IsSound : (i : ℕ) (u : Uhid E) → IsSound u → IsSound (expire now i u)
  unfolding expire
  expire-IsSound i u s =
      let cid = (channel u i).cid in
      if-Is IsSound _ _ _
        (reset-IsSound i (send_error cid err_msg_timeout u)
          (send_error-IsSound cid err_msg_timeout u s))
        s

  expire_all-IsSound : (i n : ℕ) (u : Uhid E) → IsSound u → IsSound (expire_all now i n u)
  unfolding expire_all
  expire_all-IsSound i zero u s = s
  expire_all-IsSound i (suc n) u s =
      expire_all-IsSound (i + 1) n (expire now i u) (expire-IsSound i u s)

  output_event-IsSound :
      (bytes : List ℕ) (u : Uhid E) → IsSound u → IsSound (output_event process now bytes u)
  unfolding output_event
  output_event-IsSound bytes u s =
      if-Is IsSound _ _ _ s (if-Is IsSound _ _ _ (process_hid_report-IsSound _ u s) s)

-- The invariant of the transport is kept by whatever the reader thread gets: any report from the
-- host, and any time without one.
pub handle_event-IsSound :
    {E : Type 0} (process : Process E) (e : Event) (u : Uhid E)
    → IsSound u
    → IsSound (handle_event process e u)
unfolding handle_event
handle_event-IsSound process (timeout now) u s = expire_all-IsSound process now 0 8 u s
handle_event-IsSound process (output now bytes) u s = output_event-IsSound process now bytes u s
