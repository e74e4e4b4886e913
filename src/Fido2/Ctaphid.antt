-- ===== src/Fido2/Ctaphid.antt =====
-- src/fido2/bio_fido2_uhid.h and src/fido2/bio_fido2_uhid.c: CTAPHID over 64-byte HID reports. The
-- state carries what the environment decides: the random numbers to come, and which writes of a
-- report fail. The clock is an argument, one reading for each report.
pub mod Dispatch
pub mod Receive
pub mod Slots
pub mod Assembly
pub mod Continuation
pub mod Delivery
pub mod Table
pub mod Sound
pub mod Steps
pub mod Isolation
pub mod Session
use hiya.Base.{
  ℕ, zero, suc, ◌+◌, ◌-◌, ◌*◌, ◌/◌, ◌%◌, ◌^◌, Bool, true, false, not, ◌&&◌, ◌||◌, List, [], ◌∷◌,
  ◌++◌, length, get_or, set, take, drop, replicate, memcpy, ltb, leb, ◌==◌, if◌then◌else◌, bit_or,
  Option, none, some,
}
use hiya.Cbor.{u8, u16, u32, shr}

abbrev pub broadcast_cid : ℕ
broadcast_cid = 0xffff_ffff

abbrev pub init_packet_flag : ℕ
init_packet_flag = 0x80

-- The commands.
abbrev pub cmd_ping : ℕ
cmd_ping = 0x01

abbrev pub cmd_msg : ℕ
cmd_msg = 0x03

abbrev pub cmd_init : ℕ
cmd_init = 0x06

abbrev pub cmd_wink : ℕ
cmd_wink = 0x08

abbrev pub cmd_cbor : ℕ
cmd_cbor = 0x10

abbrev pub cmd_cancel : ℕ
cmd_cancel = 0x11

abbrev pub cmd_keepalive : ℕ
cmd_keepalive = 0x3b

abbrev pub cmd_error : ℕ
cmd_error = 0x3f

-- The error codes.
abbrev pub err_invalid_cmd : ℕ
err_invalid_cmd = 0x01

abbrev pub err_invalid_len : ℕ
err_invalid_len = 0x03

abbrev pub err_invalid_seq : ℕ
err_invalid_seq = 0x04

abbrev pub err_msg_timeout : ℕ
err_msg_timeout = 0x05

abbrev pub err_invalid_channel : ℕ
err_invalid_channel = 0x0b

abbrev pub err_other : ℕ
err_other = 0x7f

-- The sizes of a report, of the payload of its two kinds, of a message, and of the channel table.
abbrev pub report_size : ℕ
report_size = 64

abbrev pub init_data_size : ℕ
init_data_size = 57

abbrev pub cont_data_size : ℕ
cont_data_size = 59

abbrev pub max_msg_size : ℕ
max_msg_size = 7609

abbrev pub max_channels : ℕ
max_channels = 8

-- `CTAPHID_TRANSACTION_TIMEOUT_MS`.
abbrev pub transaction_timeout_ms : ℕ
transaction_timeout_ms = 500

-- `ctaphid_channel_t`.
pub record Channel : Type 0 where
  pub cid : ℕ
  pub in_use : Bool
  pub cmd : ℕ
  pub total_len : ℕ
  pub received : ℕ
  pub next_seq : ℕ
  pub msg_buf : List ℕ
  pub last_active : ℕ

-- A cleared `msg_buf`.
unfoldable pub zero_buf : List ℕ
zero_buf = replicate max_msg_size 0

-- `memset(ch, 0, sizeof(*ch))`
abbrev pub cleared : Channel
cleared = record {
  cid = 0;
  in_use = false;
  cmd = 0;
  total_len = 0;
  received = 0;
  next_seq = 0;
  msg_buf = zero_buf;
  last_active = 0;
}

-- `bio_fido2_uhid_t` without its descriptors and its thread. `engine` is the CTAP2 context, `sent`
-- the reports written so far, `refused` tells for each write to come whether it fails, `random`
-- what `bio_random_bytes` gives, if it does; the last two are the static counters of
-- `alloc_channel`.
pub record Uhid (E : Type 0) : Type 0 where
  pub engine : E
  pub channels : List Channel
  pub sent : List (List ℕ)
  pub refused : List Bool
  pub random : List (Option ℕ)
  pub fallback_cid : ℕ
  pub fallback_evict_cid : ℕ

abbrev pub channel : {E : Type 0} → Uhid E → ℕ → Channel
channel u i = get_or u.channels i cleared

abbrev pub set_channel : {E : Type 0} → Uhid E → ℕ → Channel → Uhid E
set_channel u i ch = record u { channels = set u.channels i ch }

-- `write_be32` and `write_be16`.
abbrev pub be32_bytes : ℕ → List ℕ
be32_bytes v = u8 (shr v 24) ∷ u8 (shr v 16) ∷ u8 (shr v 8) ∷ u8 v ∷ []

abbrev pub be16_bytes : ℕ → List ℕ
be16_bytes v = u8 (shr v 8) ∷ u8 v ∷ []

-- A write of a report, by what the descriptor will do with it.
abbrev pub written : {E : Type 0} → List ℕ → Uhid E → List Bool → Uhid E × Bool
written report u [] = (record u { sent = u.sent ++ (report ∷ []) }, true)
written report u (false ∷ rest) =
    (record u { sent = u.sent ++ (report ∷ []); refused = rest }, true)
written report u (true ∷ rest) = (record u { refused = rest }, false)

-- `uhid_send_report`: the state, and whether the write went through.
unfoldable pub send_report : {E : Type 0} → List ℕ → Uhid E → Uhid E × Bool
send_report report u = written report u u.refused

-- A report that is cleared before `bytes` are written to its front.
abbrev pub report_of : List ℕ → List ℕ
report_of bytes = memcpy (replicate report_size 0) 0 bytes

unfoldable pub init_report : ℕ → ℕ → List ℕ → List ℕ
init_report cid cmd message = report_of (
    be32_bytes cid
    ++ (bit_or init_packet_flag cmd ∷ (be16_bytes (length message) ++ take init_data_size message)))

-- The `while` loop over the continuation packets, with a count that the bytes left bound.
unfoldable pub cont_reports : ℕ → ℕ → List ℕ → ℕ → ℕ → List (List ℕ)
cont_reports zero cid message offset seq = []
cont_reports (suc rounds) cid message offset seq =
    let left = length message - offset in
    let chunk = if ltb cont_data_size left then cont_data_size else left in
    let rest = cont_reports rounds cid message (offset + chunk) (u8 (seq + 1)) in
    if leb (length message) offset
    then []
    else report_of (be32_bytes cid ++ (seq ∷ take chunk (drop offset message))) ∷ rest

-- The reports of a message. None depends on how a write went.
unfoldable pub reports_of : ℕ → ℕ → List ℕ → List (List ℕ)
reports_of cid cmd message =
    let chunk = if ltb (length message) init_data_size then length message else init_data_size in
    init_report cid cmd message ∷ cont_reports (length message) cid message chunk 0

-- The writes up to the first that fails.
unfoldable pub send_reports : {E : Type 0} → List (List ℕ) → Uhid E → Uhid E
send_reports [] u = u
send_reports (r ∷ rs) u =
    let w = send_report r u in let rest = send_reports rs w.0 in if w.1 then rest else w.0

-- `ctaphid_send_response`. No caller looks at its status.
unfoldable pub send_response : {E : Type 0} → ℕ → ℕ → List ℕ → Uhid E → Uhid E
send_response cid cmd message = send_reports (reports_of cid cmd message)

-- `ctaphid_send_error`.
unfoldable pub send_error : {E : Type 0} → ℕ → ℕ → Uhid E → Uhid E
send_error cid code = send_response cid cmd_error (code ∷ [])

-- The loop of `find_channel`, from the index `i` on.
unfoldable pub find_from : ℕ → ℕ → List Channel → Option ℕ
find_from cid i [] = none
find_from cid i (ch ∷ chs) =
    let rest = find_from cid (suc i) chs in if ch.in_use && ch.cid == cid then some i else rest

unfoldable pub find_channel : {E : Type 0} → ℕ → Uhid E → Option ℕ
find_channel cid u = find_from cid 0 u.channels

-- `if (!uhid->channels[i].in_use)`: the first such index.
unfoldable pub free_from : ℕ → List Channel → Option ℕ
free_from i [] = none
free_from i (ch ∷ chs) = let rest = free_from (suc i) chs in if ch.in_use then rest else some i

-- The loop that looks for the channel that was least recently active.
unfoldable pub oldest_from : ℕ → ℕ → ℕ → List Channel → ℕ
oldest_from i oldest oldest_time [] = oldest
oldest_from i oldest oldest_time (ch ∷ chs) =
    let earlier = oldest_from (suc i) i ch.last_active chs in
    let same = oldest_from (suc i) oldest oldest_time chs in
    if ltb ch.last_active oldest_time then earlier else same

unfoldable pub oldest : {E : Type 0} → Uhid E → ℕ
oldest u = oldest_from 1 0 (channel u 0).last_active (drop 1 u.channels)

abbrev pub is_reserved : ℕ → Bool
is_reserved cid = cid == 0 || cid == broadcast_cid

-- A value of a static counter, and the counter after it.
abbrev pub count_on : ℕ → ℕ × ℕ
count_on counter =
    let next = u32 (counter + 1) in
    if is_reserved counter then (next, u32 (next + 1)) else (counter, next)

-- The fallback where `bio_random_bytes` fails: `evicts` tells which of the two counters it is.
abbrev pub fall_back : {E : Type 0} → Bool → Uhid E → Uhid E × ℕ
fall_back true u =
    let r = count_on u.fallback_evict_cid in (record u { fallback_evict_cid = r.1 }, r.0)
fall_back false u = let r = count_on u.fallback_cid in (record u { fallback_cid = r.1 }, r.0)

abbrev pub next_random : List (Option ℕ) → Option ℕ
next_random [] = none
next_random (r ∷ rs) = r

abbrev pub drawn : {E : Type 0} → Bool → Uhid E → Option ℕ → Uhid E × ℕ
drawn evicts u (some cid) = (u, u32 cid)
drawn evicts u none = fall_back evicts u

-- One value for `new_cid`.
unfoldable pub draw : {E : Type 0} → Bool → Uhid E → Uhid E × ℕ
draw evicts u = drawn evicts (record u { random = drop 1 u.random }) (next_random u.random)

abbrev pub is_taken : {E : Type 0} → ℕ → Uhid E → Bool
is_taken cid u = elim (find_channel cid u) [ some i ↦ true | none ↦ false ]

-- The `do` loop: up to `attempts` values are looked at, and one more is drawn in vain.
unfoldable pub draw_cid : {E : Type 0} → ℕ → Bool → Uhid E → Uhid E × Option ℕ
draw_cid zero evicts u = ((draw evicts u).0, none)
draw_cid (suc attempts) evicts u =
    let r = draw evicts u in
    let again = draw_cid attempts evicts r.0 in
    if is_reserved r.1 || is_taken r.1 r.0 then again else (r.0, some r.1)

abbrev pub cid_attempts : ℕ
cid_attempts = 64

-- The slot is filled if an identifier was found.
abbrev pub occupy : {E : Type 0} → ℕ → ℕ → Uhid E × Option ℕ → Uhid E × Option ℕ
occupy now i (u, none) = (u, none)
occupy now i (u, some cid) =
    (set_channel u i (record cleared { cid = cid; in_use = true; last_active = now }), some i)

abbrev pub allocate_at : {E : Type 0} → ℕ → Bool → ℕ → Uhid E → Uhid E × Option ℕ
allocate_at now evicts i u = occupy now i (draw_cid cid_attempts evicts (set_channel u i cleared))

-- `alloc_channel`: the index of the channel.
unfoldable pub alloc_channel : {E : Type 0} → ℕ → Uhid E → Uhid E × Option ℕ
alloc_channel now u = elim (free_from 0 u.channels) [
  | some i ↦ allocate_at now false i u
  | none ↦ allocate_at now true (oldest u) u
]
