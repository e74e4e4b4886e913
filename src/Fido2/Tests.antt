-- ===== src/Fido2/Tests.antt =====
-- Concrete runs of the CTAPHID transport: a device with two channels, a message in two packets,
-- and the life of a channel from the first event on.
use hiya.Base.{ℕ, ◌+◌, ◌≡◌, refl, true, false, List, [], ◌∷◌, length, replicate, drop, some, arith}
use hiya.Cbor.Decoder.{be32_of}
use hiya.Fido2.Ctaphid.{
  Uhid, cleared, channel, find_from, find_channel, free_from, draw, draw_cid, alloc_channel,
  zero_buf, cont_reports, reports_of, cmd_ping,
}
use hiya.Fido2.Ctaphid.Dispatch.{Process}
use hiya.Fido2.Ctaphid.Receive.{timeout, output, process_hid_report}
use hiya.Fido2.Ctaphid.Sound.{IsSound}
use hiya.Fido2.Ctaphid.Assembly.{Assembling, Delivers, receive_all}
use hiya.Fido2.Ctaphid.Delivery.{reports_of-Delivers}
use hiya.Fido2.Ctaphid.Isolation.{process_hid_report-Assembling}
use hiya.Fido2.Ctaphid.Session.{
  init_uhid, reader_thread, init_uhid-IsSound, reader_thread-IsSound, alloc_channel-Delivers,
}

-- An engine that counts its requests and answers each with its command.
abbrev counting : Process ℕ
counting n cmd request = record { engine = n + 1; status = 0; response = cmd ∷ []; keepalives = 2 }

abbrev plugged : Uhid ℕ
plugged = init_uhid 0 (false ∷ true ∷ []) (some 0 ∷ some 0x1234 ∷ [])

-- The channels 0 and 1 are in use; 1 has the first 57 bytes of a message of 60.
abbrev busy : Uhid ℕ
busy = record {
  engine = 0;
  channels =
      record cleared { cid = 7; in_use = true }
      ∷ record cleared { cid = 8; in_use = true; cmd = 1; total_len = 60; received = 57 }
      ∷ replicate 6 cleared;
  sent = [];
  refused = [];
  random = [];
  fallback_cid = 1;
  fallback_evict_cid = 2;
}

abbrev ping : List ℕ
ping = replicate 60 9

test_reports : length (reports_of 7 cmd_ping ping) ≡ 2
unfolding reports_of cont_reports
test_reports = refl

found_7 : find_channel 7 busy ≡ some 0
unfolding find_channel find_from
found_7 = refl

reports_of-Delivers_example :
    Delivers counting 5 7 cmd_ping ping 0 busy
      (receive_all counting 5 (reports_of 7 cmd_ping ping) busy)
unfolding zero_buf
reports_of-Delivers_example =
    reports_of-Delivers counting 5 7 cmd_ping ping 0 busy (omega arith) (omega arith) (omega arith)
      (omega arith) refl found_7 refl

reader_thread-IsSound_example : IsSound (
    reader_thread counting
      (timeout 900 ∷ output 1000 (0xff ∷ 0xff ∷ 0xff ∷ 0xff ∷ 0x86 ∷ 0 ∷ 8 ∷ replicate 57 3) ∷ [])
      plugged)
reader_thread-IsSound_example =
    reader_thread-IsSound counting
      (timeout 900 ∷ output 1000 (0xff ∷ 0xff ∷ 0xff ∷ 0xff ∷ 0x86 ∷ 0 ∷ 8 ∷ replicate 57 3) ∷ []) 0
      (false ∷ true ∷ []) (some 0 ∷ some 0x1234 ∷ [])

taken_slot : (alloc_channel 10 plugged).1 ≡ some 0
unfolding alloc_channel free_from draw_cid draw find_channel find_from init_uhid
taken_slot = refl

new_cid : (channel ((alloc_channel 10 plugged).0) 0).cid ≡ 0x1234
unfolding alloc_channel free_from draw_cid draw find_channel find_from init_uhid
new_cid = refl

alloc_channel-Delivers_example :
    let v = (alloc_channel 10 plugged).0 in
    Delivers counting 10
      ((channel v 0).cid)
      cmd_ping
      ping
      0
      v
      (receive_all counting 10 (reports_of ((channel v 0).cid) cmd_ping ping) v)
alloc_channel-Delivers_example =
    alloc_channel-Delivers counting 10 0 cmd_ping ping plugged
      (init_uhid-IsSound 0 (false ∷ true ∷ []) (some 0 ∷ some 0x1234 ∷ [])) taken_slot
      (omega (arith, new_cid)) (omega arith) (omega arith) refl

-- Channel 0 has 411 bytes of a message of 500, the last in the sixth continuation packet.
abbrev busy_twice : Uhid ℕ
busy_twice = record busy {
  channels =
      record cleared {
        cid = 7;
        in_use = true;
        cmd = 1;
        total_len = 500;
        received = 411;
        next_seq = 6;
      }
      ∷ drop 1 busy.channels;
}

-- Its next continuation packet, with the sequence number 6.
abbrev seventh : List ℕ
seventh = 0 ∷ 0 ∷ 0 ∷ 7 ∷ 6 ∷ replicate 59 1

process_hid_report-Assembling_example :
    Assembling 8 1 (replicate 60 0) 1 57 0 (process_hid_report counting 20 seventh busy_twice)
unfolding find_channel find_from zero_buf be32_of
process_hid_report-Assembling_example =
    process_hid_report-Assembling counting 20 seventh busy_twice 0 8 1 (replicate 60 0) 1 57 0 refl
      (omega arith) (omega arith) (omega arith)
      (record {
        found = refl;
        command = refl;
        total = refl;
        got = refl;
        next = refl;
        room = refl;
        held = refl;
      })
