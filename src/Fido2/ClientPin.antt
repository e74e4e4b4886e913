-- ===== src/Fido2/ClientPin.antt =====
-- src/fido2/bio_fido2_pin.c, authenticatorClientPIN: the PIN state of src/fido2/bio_fido2.h, the
-- parameters of a request, the keys that both sides share, and a wrong PIN. The calls of
-- src/crypto, the random source, the file of credentials and the fingerprint check are inputs.
pub mod Parse
pub mod Tokens
pub mod Commands
pub mod Endings
pub mod Unshown
pub mod Guess
pub mod Attempts
pub mod Guarded
pub mod Unsaved
use hiya.Base.{
  ℕ, zero, suc, ◌+◌, ◌-◌, ◌*◌, ◌/◌, ◌%◌, ◌^◌, Bool, true, false, not, ◌&&◌, ◌||◌, List, [], ◌∷◌,
  ◌++◌, length, get_or, take, drop, replicate, ltb, leb, ◌==◌, if◌then◌else◌, Option, none, some,
  Status,
}
use hiya.Cbor.Encoder.{Encoder}

-- The status codes that the command returns.
abbrev pub ctap2_ok : ℕ
ctap2_ok = 0x00

abbrev pub err_invalid_cbor : ℕ
err_invalid_cbor = 0x12

abbrev pub err_missing_parameter : ℕ
err_missing_parameter = 0x14

abbrev pub err_operation_denied : ℕ
err_operation_denied = 0x27

abbrev pub err_invalid_option : ℕ
err_invalid_option = 0x2c

abbrev pub err_not_allowed : ℕ
err_not_allowed = 0x30

abbrev pub err_pin_invalid : ℕ
err_pin_invalid = 0x31

abbrev pub err_pin_blocked : ℕ
err_pin_blocked = 0x32

abbrev pub err_pin_auth_invalid : ℕ
err_pin_auth_invalid = 0x33

abbrev pub err_pin_not_set : ℕ
err_pin_not_set = 0x35

abbrev pub err_pin_policy_violation : ℕ
err_pin_policy_violation = 0x37

abbrev pub ctap2_err_other : ℕ
ctap2_err_other = 0x7f

abbrev pub max_pin_retries : ℕ
max_pin_retries = 8

abbrev pub pin_token_size : ℕ
pin_token_size = 32

abbrev pub perm_authnr_cfg : ℕ
perm_authnr_cfg = 0x20

-- `ctap2_pin_state_t`. `pin_retries` is an `int`: its 32 bits, from 2 ^ 31 on negative.
pub record PinState : Type 0 where
  pub pin_set : Bool
  pub pin_hash : List ℕ
  pub pin_retries : ℕ
  pub pin_blocked : Bool
  pub shared_secret : List ℕ
  pub pin_token : List ℕ
  pub pin_token_valid : Bool
  pub pin_token_permissions : ℕ
  pub pin_token_rp_id : List ℕ
  pub pin_token_rp_id_set : Bool

-- The part of `bio_fido2_ctx_t` that the command reads and writes, and `g_min_pin_length`.
pub record Context : Type 0 where
  pub pin : PinState
  pub auth_privkey : List ℕ
  pub auth_pubkey : List ℕ
  pub min_pin_length : ℕ

-- `client_pin_params_t`. Each buffer is the bytes that its length counts.
pub record Params : Type 0 where
  pub sub_command : ℕ
  pub key_agreement_x : List ℕ
  pub key_agreement_y : List ℕ
  pub has_key_agreement : Bool
  pub pin_uv_auth_param : List ℕ
  pub has_pin_uv_auth_param : Bool
  pub new_pin_enc : List ℕ
  pub pin_hash_enc : List ℕ
  pub pin_protocol : ℕ
  pub permissions : ℕ
  pub has_permissions : Bool
  pub rp_id : List ℕ
  pub new_min_pin_length : ℕ
  pub has_new_min_pin_length : Bool

-- The calls of src/crypto: `bio_ecdh_compute_shared`, `bio_hkdf_sha256` for 32 bytes of salt, key
-- and output, `bio_sha256`, `bio_hmac_sha256`, and the two AES-256-CBC calls.
pub record Crypto : Type 0 where
  pub compute_shared : List ℕ → List ℕ → Option (List ℕ)
  pub hkdf : List ℕ → List ℕ → List ℕ → Option (List ℕ)
  pub sha256 : List ℕ → List ℕ
  pub hmac_sha256 : List ℕ → List ℕ → List ℕ
  pub pin_decrypt : List ℕ → List ℕ → Option (List ℕ)
  pub pin_encrypt : List ℕ → List ℕ → Option (List ℕ)

-- What the world does in the course of one request: the pair that `bio_ecdh_keygen` makes, what
-- `bio_random_bytes` leaves in the token and whether it succeeds, whether
-- `bio_fido2_save_credentials` succeeds, and whether there is a `verify_user` that says yes.
pub record World : Type 0 where
  pub keygen : Option (List ℕ × List ℕ)
  pub random : List ℕ
  pub random_ok : Bool
  pub saved : Bool
  pub verified : Bool

-- The context after the call, its status, and the response, which counts where the status is 0.
pub record Outcome : Type 0 where
  pub ctx : Context
  pub status : ℕ
  pub response : List ℕ

abbrev pub stop : Context → ℕ → Outcome
stop ctx code = record { ctx = ctx; status = code; response = [] }

abbrev pub wiped : ℕ → List ℕ
wiped n = replicate n 0

-- `bio_constant_time_compare(a, b, n) == 0`.
unfoldable pub same_bytes : ℕ → List ℕ → List ℕ → Bool
same_bytes zero a b = true
same_bytes (suc n) a b = get_or a 0 0 == get_or b 0 0 && same_bytes n (drop 1 a) (drop 1 b)

-- `derive_client_pin_keys`: the keys for the HMAC and for AES, or a status.
pub data Keys : Type 0 where
  keys : List ℕ → List ℕ → Keys
  no_keys : ℕ → Keys

-- "CTAP2 HMAC key" and "CTAP2 AES key".
abbrev pub info_hmac : List ℕ
info_hmac = 67 ∷ 84 ∷ 65 ∷ 80 ∷ 50 ∷ 32 ∷ 72 ∷ 77 ∷ 65 ∷ 67 ∷ 32 ∷ 107 ∷ 101 ∷ 121 ∷ []

abbrev pub info_aes : List ℕ
info_aes = 67 ∷ 84 ∷ 65 ∷ 80 ∷ 50 ∷ 32 ∷ 65 ∷ 69 ∷ 83 ∷ 32 ∷ 107 ∷ 101 ∷ 121 ∷ []

abbrev pub both_keys : Option (List ℕ) → Option (List ℕ) → Keys
both_keys (some h) (some a) = keys h a
both_keys _ _ = no_keys ctap2_err_other

abbrev pub keys_of : Crypto → ℕ → Option (List ℕ) → Keys
keys_of crypto protocol none = no_keys ctap2_err_other
keys_of crypto protocol (some shared) =
    if protocol == 2
    then both_keys (crypto.hkdf (wiped 32) shared info_hmac)
        (crypto.hkdf (wiped 32) shared info_aes)
    else if protocol == 1
    then keys (crypto.sha256 shared) (crypto.sha256 shared)
    else no_keys err_pin_auth_invalid

unfoldable pub derive_client_pin_keys : Crypto → Context → Params → Keys
derive_client_pin_keys crypto ctx p =
    keys_of crypto p.pin_protocol
      (crypto.compute_shared ctx.auth_privkey (4 ∷ (p.key_agreement_x ++ p.key_agreement_y)))

abbrev pub on_keys : Context → Keys → (List ℕ → List ℕ → Outcome) → Outcome
on_keys ctx (keys h a) k = k h a
on_keys ctx (no_keys code) k = stop ctx code

-- `if (… != BIO_OK) return CTAP2_ERR_OTHER;`
abbrev pub on_some : {A : Type 0} → Context → Option A → (A → Outcome) → Outcome
on_some ctx none k = stop ctx ctap2_err_other
on_some ctx (some a) k = k a

-- `regenerate_key_agreement`: the context, and whether there is a new pair.
abbrev pub with_pair : Context → Option (List ℕ × List ℕ) → Context × Bool
with_pair ctx none = (
  record ctx {
    auth_privkey = wiped 32;
    auth_pubkey = wiped 65;
    pin = record ctx.pin { shared_secret = wiped 32 };
  },
  false,
)
with_pair ctx (some pair) = (
  record ctx {
    auth_privkey = pair.0;
    auth_pubkey = pair.1;
    pin = record ctx.pin { shared_secret = wiped 32 };
  },
  true,
)

unfoldable pub regenerate_key_agreement : World → Context → Context × Bool
regenerate_key_agreement w ctx = with_pair ctx w.keygen

-- `pin_retries--` and `pin_retries <= 0`.
abbrev pub one_less : ℕ → ℕ
one_less retries = (retries + 2 ^ 32 - 1) % 2 ^ 32

abbrev pub is_spent : ℕ → Bool
is_spent retries = retries == 0 || leb (2 ^ 31) retries

-- What a wrong PIN does. Saving it may fail, which changes nothing here.
unfoldable pub wrong_pin : Context → Outcome
wrong_pin ctx =
    let retries = one_less ctx.pin.pin_retries in
    let blocked = is_spent retries || ctx.pin.pin_blocked in
    stop (record ctx { pin = record ctx.pin { pin_retries = retries; pin_blocked = blocked } })
      (if blocked then err_pin_blocked else err_pin_invalid)

-- The PIN without the zeros that pad it: its length.
unfoldable pub pin_length : ℕ → List ℕ → ℕ
pin_length zero raw = 0
pin_length (suc n) raw =
    let shorter = pin_length n raw in if get_or raw n 0 == 0 then shorter else suc n

-- The calls of the encoder, whose status nobody looks at.
unfoldable pub run_calls : List (Encoder → Encoder × Status) → Encoder → Encoder
run_calls [] e = e
run_calls (f ∷ fs) e = run_calls fs ((f e).0)

-- `if (enc.error) return CTAP2_ERR_OTHER; *rsp_len = enc.offset; return CTAP2_OK;`
unfoldable pub respond : Context → Encoder → Outcome
respond ctx e =
    if e.error
    then stop ctx ctap2_err_other
    else record { ctx = ctx; status = ctap2_ok; response = take e.offset e.buf }
