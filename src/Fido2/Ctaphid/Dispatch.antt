-- ===== src/Fido2/Ctaphid/Dispatch.antt =====
-- The command handlers of src/fido2/bio_fido2_uhid.c. The bytes of `data`
-- are in the report itself or in the buffer of a channel, which `alloc_channel` may clear. The keepalive thread sends its reports between the start of a command and its end, which
-- joins it: how many is a field of the engine's reply.
use hiya.Base.{
  ℕ, zero, suc, ◌+◌, Bool, ◌||◌, List, [], ◌∷◌, ◌++◌, length, take, ltb, ◌==◌, if◌then◌else◌,
  Option, none, some,
}
use hiya.Cbor.{u16}
use hiya.Fido2.Ctaphid.{
  Uhid, channel, alloc_channel, send_response, send_error, be32_bytes, cmd_ping, cmd_msg, cmd_init,
  cmd_wink, cmd_cbor, cmd_cancel, cmd_keepalive, err_invalid_cmd, err_invalid_len, err_other,
}

-- What `bio_fido2_process` leaves; `response` is the bytes that `rsp_len` counts. `keepalives` is
-- 0 where the thread could not be created.
pub record Reply (E : Type 0) : Type 0 where
  pub engine : E
  pub status : ℕ
  pub response : List ℕ
  pub keepalives : ℕ

abbrev pub Process : Type 0 → Type 0
Process E = E → ℕ → List ℕ → Reply E

unfoldable pub init_response : List ℕ → ℕ → List ℕ
init_response message cid = take 8 message ++ (be32_bytes cid ++ (2 ∷ 1 ∷ 0 ∷ 0 ∷ 0x05 ∷ []))

-- What `data` and `len` give.
pub data Place : Type 0 where
  packet : List ℕ → Place
  buffer : ℕ → ℕ → Place

abbrev pub bytes_at : {E : Type 0} → Place → Uhid E → List ℕ
bytes_at (packet bytes) u = bytes
bytes_at (buffer i len) u = take len (channel u i).msg_buf

-- The nonce is read after the allocation.
abbrev pub answer_init : {E : Type 0} → ℕ → Place → Uhid E × Option ℕ → Uhid E
answer_init cid place (u, none) = send_error cid err_other u
answer_init cid place (u, some i) =
    send_response cid cmd_init (init_response (bytes_at place u) (channel u i).cid) u

-- `handle_ctaphid_init`. The reply goes to the identifier of the request, the broadcast one too.
unfoldable pub handle_init : {E : Type 0} → ℕ → ℕ → Place → Uhid E → Uhid E
handle_init now cid place u =
    if ltb (length (bytes_at place u)) 8
    then send_error cid err_invalid_len u
    else answer_init cid place (alloc_channel now u)

-- The commands that start the keepalive thread.
abbrev pub waits_for_user : ℕ → Bool
waits_for_user cmd = cmd == 0x01 || cmd == 0x02 || cmd == 0x06 || cmd == 0x09 || cmd == 0x0a

-- `CTAPHID_STATUS_UPNEEDED`.
abbrev pub status_upneeded : ℕ
status_upneeded = 0x02

-- `ctaphid_keepalive_thread`, for the rounds that it makes.
unfoldable pub send_keepalives : {E : Type 0} → ℕ → ℕ → Uhid E → Uhid E
send_keepalives zero cid u = u
send_keepalives (suc n) cid u =
    send_keepalives n cid (send_response cid cmd_keepalive (status_upneeded ∷ []) u)

-- `handle_ctaphid_cbor`.
unfoldable pub handle_cbor : {E : Type 0} → Process E → ℕ → List ℕ → Uhid E → Uhid E
handle_cbor process cid [] u = send_error cid err_invalid_len u
handle_cbor process cid (cmd ∷ request) u =
    let reply = process u.engine cmd request in
    let after = record u { engine = reply.engine } in
    let waited = if waits_for_user cmd then send_keepalives reply.keepalives cid after else after in
    let body = if reply.status == 0 then reply.response else [] in
    send_response cid cmd_cbor (take (u16 (1 + length body)) (reply.status ∷ body)) waited

-- `ctaphid_dispatch`.
unfoldable pub dispatch : {E : Type 0} → Process E → ℕ → ℕ → ℕ → Place → Uhid E → Uhid E
dispatch process now cid cmd place u =
    let message = bytes_at place u in
    if cmd == cmd_init
    then handle_init now cid place u
    else if cmd == cmd_ping
    then send_response cid cmd_ping message u
    else if cmd == cmd_cbor
    then handle_cbor process cid message u
    else if cmd == cmd_msg
    then send_error cid err_invalid_cmd u
    else if cmd == cmd_cancel
    then send_response cid cmd_cbor (0x2d ∷ []) u
    else if cmd == cmd_wink
    then send_response cid cmd_wink [] u
    else send_error cid err_invalid_cmd u
