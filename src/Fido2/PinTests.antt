-- ===== src/Fido2/PinTests.antt =====
-- Concrete requests to the client PIN: a wrong PIN in CBOR, and files that cannot be written.
use hiya.Base.{
  ℕ, ◌+◌, ◌≤◌, ◌≡◌, refl, true, false, List, [], ◌∷◌, ◌++◌, replicate, none, some, arith,
}
use hiya.Cbor.Decoder.{
  dec_head, dec_argument, dec_read, dec_read_byte, item_of, string_item, int_val, decode_next,
}
use hiya.Cbor.Decoder.Calls.{init, uint_of, map_of, decode_uint, decode_map}
use hiya.Fido2.ClientPin.{
  Context, Params, Crypto, World, same_bytes, derive_client_pin_keys, wrong_pin,
}
use hiya.Fido2.ClientPin.Parse.{
  cose_entry, cose_key, no_params, parse_entry, parse_entries, parse_client_pin_params,
}
use hiya.Fido2.ClientPin.Tokens.{get_pin_token}
use hiya.Fido2.ClientPin.Commands.{set_pin, change_pin, sub_command, client_pin}
use hiya.Fido2.ClientPin.Endings.{Guarded}
use hiya.Fido2.ClientPin.Guess.{
  Request, shows_pin, serve, wrong_tries, never_shown, serve-bounded, client_pin-token,
}
use hiya.Fido2.ClientPin.Guarded.{client_pin-Guarded}
use hiya.Fido2.ClientPin.Unsaved.{Reverted, set_pin-Reverted, change_pin-Reverted}

-- Ciphers that change nothing.
abbrev plain : Crypto
plain = record {
  compute_shared = λ key peer. some (1 ∷ []);
  hkdf = λ salt key info. some info;
  sha256 = λ bytes. bytes;
  hmac_sha256 = λ key bytes. bytes;
  pin_decrypt = λ key bytes. some bytes;
  pin_encrypt = λ key bytes. some bytes;
}

abbrev full_disk : World
full_disk = record {
  keygen = none;
  random = replicate 32 5;
  random_ok = true;
  saved = false;
  verified = false;
}

abbrev three_left : Context
three_left = record {
  pin = record {
    pin_set = true;
    pin_hash = replicate 16 7;
    pin_retries = 3;
    pin_blocked = false;
    shared_secret = [];
    pin_token = replicate 32 0;
    pin_token_valid = false;
    pin_token_permissions = 0;
    pin_token_rp_id = [];
    pin_token_rp_id_set = false;
  };
  auth_privkey = replicate 32 2;
  auth_pubkey = replicate 65 4;
  min_pin_length = 4;
}

three_left-Guarded : Guarded three_left
three_left-Guarded = record { most = omega arith; some_left = λ b. omega arith }

-- {1: 1, 2: 5, 3: {-2: x, -3: y}, 6: pinHashEnc} with a wrong hash.
abbrev wrong_request : List ℕ
wrong_request =
    0xa4
    ∷ 1
    ∷ 1
    ∷ 2
    ∷ 5
    ∷ 3
    ∷ 0xa2
    ∷ 0x21
    ∷ 0x58
    ∷ 0x20
    ∷ (replicate 32 9 ++ (0x22 ∷ 0x58 ∷ 0x20 ∷ (replicate 32 9 ++ (6 ∷ 0x50 ∷ replicate 16 8))))

abbrev twice : List Request
twice =
    record { world = full_disk; req = wrong_request; rsp = replicate 64 0 }
    ∷ record { world = full_disk; req = wrong_request; rsp = replicate 64 0 }
    ∷ []

test_tries : wrong_tries plain twice three_left ≡ 2
unfolding wrong_tries client_pin sub_command get_pin_token derive_client_pin_keys wrong_pin
    same_bytes parse_client_pin_params parse_entries parse_entry cose_key cose_entry decode_uint
    decode_map decode_next uint_of map_of item_of string_item int_val dec_head dec_argument dec_read
    dec_read_byte init
test_tries = refl

not_shown : never_shown plain twice three_left ≡ true
unfolding never_shown shows_pin client_pin sub_command get_pin_token derive_client_pin_keys
    wrong_pin same_bytes parse_client_pin_params parse_entries parse_entry cose_key cose_entry
    decode_uint decode_map decode_next uint_of map_of item_of string_item int_val dec_head
    dec_argument dec_read dec_read_byte init
not_shown = refl

serve-bounded_example :
    (wrong_tries plain twice three_left + (serve plain twice three_left).pin.pin_retries ≤ 3)
    × ((serve plain twice three_left).pin.pin_hash ≡ replicate 16 7)
    × (false ≡ true → (serve plain twice three_left).pin.pin_blocked ≡ true)
serve-bounded_example = serve-bounded plain twice three_left refl three_left-Guarded not_shown

not_shown_once : shows_pin plain three_left wrong_request ≡ false
unfolding shows_pin derive_client_pin_keys same_bytes parse_client_pin_params parse_entries
    parse_entry cose_key cose_entry decode_uint decode_map decode_next uint_of map_of item_of
    string_item int_val dec_head dec_argument dec_read dec_read_byte init
not_shown_once = refl

client_pin-token_example :
    ((client_pin plain full_disk three_left wrong_request (replicate 64 0)).ctx.pin.pin_token
      ≡ replicate 32 0)
    × ((client_pin plain full_disk three_left wrong_request
          (replicate 64 0)).ctx.pin.pin_token_valid
        ≡ false)
client_pin-token_example =
    client_pin-token plain full_disk three_left wrong_request (replicate 64 0) refl
      three_left-Guarded not_shown_once refl

client_pin-Guarded_example :
    Guarded ((client_pin plain full_disk three_left wrong_request (replicate 64 0)).ctx)
client_pin-Guarded_example =
    client_pin-Guarded plain full_disk three_left wrong_request (replicate 64 0) three_left-Guarded

abbrev new_pin_params : Params
new_pin_params = record no_params {
  has_key_agreement = true;
  pin_uv_auth_param = replicate 16 3;
  has_pin_uv_auth_param = true;
  new_pin_enc = replicate 16 3;
  pin_hash_enc = replicate 16 7;
}

set_pin-Reverted_example :
    Reverted
      (record three_left { pin = record three_left.pin { pin_set = false } })
      (set_pin plain full_disk
        (record three_left { pin = record three_left.pin { pin_set = false } })
        new_pin_params)
set_pin-Reverted_example =
    set_pin-Reverted plain full_disk refl
      (record three_left { pin = record three_left.pin { pin_set = false } }) new_pin_params

change_pin-Reverted_example :
    Reverted three_left (change_pin plain full_disk three_left new_pin_params)
change_pin-Reverted_example = change_pin-Reverted plain full_disk refl three_left new_pin_params
