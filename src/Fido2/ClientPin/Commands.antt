-- ===== src/Fido2/ClientPin/Commands.antt =====
-- The subcommands of `ctap2_client_pin` in src/fido2/bio_fido2_pin.c that change the PIN and its
-- policy, and the `switch` over all of them.
use hiya.Base.{
  ℕ, ◌+◌, ◌%◌, Bool, true, false, not, ◌&&◌, ◌||◌, List, [], ◌∷◌, ◌++◌, length, take, ltb, leb,
  ◌==◌, if◌then◌else◌, bit_and,
}
use hiya.Cbor.{u8, shr}
use hiya.Fido2.ClientPin.{
  Context, Params, Crypto, World, Outcome, stop, wiped, same_bytes, derive_client_pin_keys, on_keys,
  on_some, pin_length, ctap2_ok, err_invalid_cbor, err_missing_parameter, err_not_allowed,
  err_pin_blocked, err_pin_auth_invalid, err_pin_not_set, err_pin_policy_violation, ctap2_err_other,
  max_pin_retries, perm_authnr_cfg,
}
use hiya.Fido2.ClientPin.Parse.{Parsed, params, refused, parse_client_pin_params}
use hiya.Fido2.ClientPin.Tokens.{
  get_retries, get_key_agreement, get_uv_retries, finish, check_hash, get_pin_token, get_uv_token,
  get_pin_token_perm,
}

module _ (crypto : Crypto) (w : World) where
  -- newPinEnc is decrypted, and the PIN in it held against the policy: its hash.
  unfoldable pub new_pin_hash : Context → List ℕ → Params → (List ℕ → Outcome) → Outcome
  new_pin_hash ctx aes p k =
      if ltb 256 (length p.new_pin_enc) || not (length p.new_pin_enc % 16 == 0)
      then stop ctx err_pin_policy_violation
      else on_some ctx (crypto.pin_decrypt aes p.new_pin_enc) (λ raw.
        let n = pin_length (length p.new_pin_enc) raw in
        if ltb n ctx.min_pin_length || ltb 63 n
        then stop ctx err_pin_policy_violation
        else k (take 16 (crypto.sha256 (take n raw))))

  -- The new hash is stored, or the PIN is not set.
  abbrev pub store_pin : Context → List ℕ → Outcome
  store_pin ctx hash =
      if w.saved
      then finish w (record ctx {
        pin = record ctx.pin { pin_hash = hash; pin_set = true; pin_retries = max_pin_retries };
      })
      else stop
          (record ctx {
            pin = record ctx.pin {
              pin_hash = wiped 16;
              pin_set = false;
              pin_retries = max_pin_retries;
            };
          })
          ctap2_err_other

  -- PIN_SUBCMD_SET_PIN
  unfoldable pub set_pin : Context → Params → Outcome
  set_pin ctx p =
      if ctx.pin.pin_set
      then stop ctx err_not_allowed
      else if not p.has_key_agreement
      then stop ctx err_missing_parameter
      else if length p.new_pin_enc == 0
      then stop ctx err_missing_parameter
      else if not p.has_pin_uv_auth_param
      then stop ctx err_missing_parameter
      else on_keys ctx (derive_client_pin_keys crypto ctx p) (λ hmac aes.
        if not (same_bytes 16 (crypto.hmac_sha256 hmac p.new_pin_enc) p.pin_uv_auth_param)
        then stop ctx err_pin_auth_invalid
        else new_pin_hash ctx aes p (store_pin ctx))

  -- The changed PIN is stored, or the old one is kept.
  abbrev pub replace_pin : Context → List ℕ → Outcome
  replace_pin ctx hash =
      if w.saved
      then finish w (record ctx {
        pin = record ctx.pin {
          pin_hash = hash;
          pin_retries = max_pin_retries;
          pin_blocked = false;
        };
      })
      else stop ctx ctap2_err_other

  -- PIN_SUBCMD_CHANGE_PIN
  unfoldable pub change_pin : Context → Params → Outcome
  change_pin ctx p =
      if not ctx.pin.pin_set
      then stop ctx err_pin_not_set
      else if ctx.pin.pin_blocked
      then stop ctx err_pin_blocked
      else if not p.has_key_agreement
      then stop ctx err_missing_parameter
      else if not p.has_pin_uv_auth_param
      then stop ctx err_missing_parameter
      else if length p.pin_hash_enc == 0
      then stop ctx err_missing_parameter
      else if length p.new_pin_enc == 0
      then stop ctx err_missing_parameter
      else on_keys ctx (derive_client_pin_keys crypto ctx p) (λ hmac aes.
        if ltb 512 (length p.new_pin_enc + length p.pin_hash_enc)
        then stop ctx ctap2_err_other
        else if not (
            same_bytes 16 (crypto.hmac_sha256 hmac (p.new_pin_enc ++ p.pin_hash_enc))
              p.pin_uv_auth_param)
        then stop ctx err_pin_auth_invalid
        else if not (length p.pin_hash_enc % 16 == 0)
        then stop ctx err_pin_auth_invalid
        else check_hash crypto w ctx aes p (new_pin_hash ctx aes p (replace_pin ctx)))

  -- The HMAC that a new minimum length must carry.
  abbrev pub min_pin_auth : Context → Params → Bool
  min_pin_auth ctx p =
      let n = p.new_min_pin_length in
      let expected =
        crypto.hmac_sha256 ctx.pin.pin_token
          (0x08 ∷ u8 (shr n 24) ∷ u8 (shr n 16) ∷ u8 (shr n 8) ∷ u8 n ∷ []) in
      if p.pin_protocol == 2
      then leb 32 (length p.pin_uv_auth_param) && same_bytes 32 expected p.pin_uv_auth_param
      else same_bytes 16 expected p.pin_uv_auth_param

  -- PIN_SUBCMD_SET_MIN_PIN_LEN
  unfoldable pub set_min_pin_length : Context → Params → Outcome
  set_min_pin_length ctx p =
      if not ctx.pin.pin_set
      then stop ctx err_pin_not_set
      else if not p.has_new_min_pin_length
      then stop ctx err_missing_parameter
      else if ltb p.new_min_pin_length 4 || ltb 63 p.new_min_pin_length
      then stop ctx err_pin_policy_violation
      else if not p.has_pin_uv_auth_param
      then stop ctx err_missing_parameter
      else if not ctx.pin.pin_token_valid
      then stop ctx err_pin_auth_invalid
      else if not (ctx.pin.pin_token_permissions == 0)
          && bit_and ctx.pin.pin_token_permissions perm_authnr_cfg == 0
      then stop ctx err_pin_auth_invalid
      else if not (min_pin_auth ctx p)
      then stop ctx err_pin_auth_invalid
      else stop (record ctx { min_pin_length = p.new_min_pin_length }) ctap2_ok

  -- The `switch` on the subcommand.
  unfoldable pub sub_command : Context → Params → List ℕ → Outcome
  sub_command ctx p rsp =
      if p.sub_command == 0x01
      then get_retries ctx rsp
      else if p.sub_command == 0x02
      then get_key_agreement ctx rsp
      else if p.sub_command == 0x03
      then set_pin ctx p
      else if p.sub_command == 0x05
      then get_pin_token crypto w ctx p rsp
      else if p.sub_command == 0x04
      then change_pin ctx p
      else if p.sub_command == 0x06
      then get_uv_token crypto w ctx p rsp
      else if p.sub_command == 0x07
      then get_uv_retries ctx rsp
      else if p.sub_command == 0x08
      then set_min_pin_length ctx p
      else if p.sub_command == 0x09
      then get_pin_token_perm crypto w ctx p rsp
      else stop ctx err_invalid_cbor

  abbrev pub run_command : Context → Parsed → List ℕ → Outcome
  run_command ctx (refused code) rsp = stop ctx code
  run_command ctx (params p) rsp =
      if not (p.pin_protocol == 1) && not (p.pin_protocol == 2)
      then stop ctx err_pin_auth_invalid
      else sub_command ctx p rsp

  -- `ctap2_client_pin`.
  unfoldable pub client_pin : Context → List ℕ → List ℕ → Outcome
  client_pin ctx req rsp = run_command ctx (parse_client_pin_params req) rsp
