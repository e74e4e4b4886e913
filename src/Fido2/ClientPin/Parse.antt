-- ===== src/Fido2/ClientPin/Parse.antt =====
-- `parse_client_pin_params` of src/fido2/bio_fido2_pin.c: the parameters of a request from CBOR.
use hiya.Base.{
  ℕ, zero, suc, true, false, ◌&&◌, List, [], length, take, drop, ltb, leb, ◌==◌, if◌then◌else◌, ℤ,
  negsuc,
}
use hiya.Cbor.{u32}
use hiya.Cbor.Decoder.{
  Decoder, Result, done, fail, Reply, ◌>>=◌, Item, negint, bstr, tstr, decode_next, skip,
}
use hiya.Cbor.Decoder.Calls.{init, decode_uint, decode_map}
use hiya.Fido2.ClientPin.{Params, wiped}

abbrev pub no_params : Params
no_params = record {
  sub_command = 0;
  key_agreement_x = wiped 32;
  key_agreement_y = wiped 32;
  has_key_agreement = false;
  pin_uv_auth_param = [];
  has_pin_uv_auth_param = false;
  new_pin_enc = [];
  pin_hash_enc = [];
  pin_protocol = 1;
  permissions = 0;
  has_permissions = false;
  rp_id = [];
  new_min_pin_length = 0;
  has_new_min_pin_length = false;
}

-- `memcpy(…, data, n)` of a string of the request.
abbrev pub string_at : Decoder → ℕ → ℕ → List ℕ
string_at d at n = take n (drop at d.source)

abbrev pub at_most : ℕ → ℕ → ℕ
at_most limit len = if ltb len limit then len else limit

-- The coordinates of the key; the value of a key that is a negative integer.
abbrev pub coordinate : ℤ → Item → Params → Decoder → Params
coordinate (negsuc k) (bstr at len) p d =
    if k == 1 && len == 32
    then record p { key_agreement_x = string_at d at 32; has_key_agreement = true }
    else if k == 2 && len == 32
    then record p { key_agreement_y = string_at d at 32 }
    else p
coordinate _ _ p d = p

-- One pair of the key agreement map.
unfoldable pub cose_entry : Params → Item → Decoder → Reply Params
cose_entry p (negint k) = decode_next >>= λ v d. (d, done (coordinate k v p d))
cose_entry p _ = λ d. ((skip d).0, done p)

unfoldable pub cose_key : ℕ → Params → Decoder → Reply Params
cose_key zero p d = (d, done p)
cose_key (suc n) p d = (decode_next >>= cose_entry p >>= cose_key n) d

abbrev pub auth_param : Params → Item → Decoder → Reply Params
auth_param p (bstr at len) d =
    if leb 16 len
    then (
      d,
      done (record p {
        pin_uv_auth_param = string_at d at (at_most 32 len);
        has_pin_uv_auth_param = true;
      }),
    )
    else (d, done p)
auth_param p _ d = (d, done p)

abbrev pub new_pin : Params → Item → Decoder → Reply Params
new_pin p (bstr at len) d = (d, done (record p { new_pin_enc = string_at d at (at_most 256 len) }))
new_pin p _ d = (d, done p)

abbrev pub pin_hash : Params → Item → Decoder → Reply Params
pin_hash p (bstr at len) d = (d, done (record p { pin_hash_enc = string_at d at (at_most 64 len) }))
pin_hash p _ d = (d, done p)

abbrev pub relying_party : Params → Item → Decoder → Reply Params
relying_party p (tstr at len) d = (d, done (record p { rp_id = string_at d at (at_most 255 len) }))
relying_party p _ d = (d, done p)

-- The `switch` on the key of an entry.
unfoldable pub parse_entry : Params → ℕ → Decoder → Reply Params
parse_entry p key =
    if key == 0x01
    then decode_uint >>= (λ v d. (d, done (record p { pin_protocol = u32 v })))
    else if key == 0x02
    then decode_uint >>= (λ v d. (d, done (record p { sub_command = u32 v })))
    else if key == 0x03
    then decode_map >>= (λ n. cose_key n p)
    else if key == 0x04
    then decode_next >>= auth_param p
    else if key == 0x05
    then decode_next >>= new_pin p
    else if key == 0x06
    then decode_next >>= pin_hash p
    else if key == 0x09
    then decode_uint
      >>= (λ v d. (d, done (record p { permissions = u32 v; has_permissions = true })))
    else if key == 0x0a
    then decode_next >>= relying_party p
    else if key == 0x0b
    then decode_uint >>= (λ v d.
      (d, done (record p { new_min_pin_length = u32 v; has_new_min_pin_length = true })))
    else λ d. ((skip d).0, done p)

-- The loop over the map.
unfoldable pub parse_entries : ℕ → Params → Decoder → Reply Params
parse_entries zero p d = (d, done p)
parse_entries (suc n) p d = (decode_uint >>= parse_entry p >>= parse_entries n) d

-- Parameters with a subcommand, or the status that refuses the request.
pub data Parsed : Type 0 where
  params : Params → Parsed
  refused : ℕ → Parsed

abbrev pub checked : Result Params → Parsed
checked (fail s) = refused 0x12
checked (done p) = if p.sub_command == 0 then refused 0x14 else params p

unfoldable pub parse_client_pin_params : List ℕ → Parsed
parse_client_pin_params req =
    checked (((decode_map >>= λ n. parse_entries n no_params) (init req (length req))).1)
