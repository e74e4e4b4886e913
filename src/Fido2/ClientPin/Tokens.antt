-- ===== src/Fido2/ClientPin/Tokens.antt =====
-- What `ctap2_client_pin` of src/fido2/bio_fido2_pin.c answers: attempts, keys and tokens. Wiping of
-- keys on the stack leaves no trace in a result and is left out.
use hiya.Base.{
  ℕ, ◌+◌, ◌-◌, ◌^◌, Bool, true, false, not, ◌||◌, List, [], ◌∷◌, length, drop, ltb, ◌==◌,
  if◌then◌else◌, some,
}
use hiya.Cbor.Encoder.{Encoder}
use hiya.Cbor.Encoder.Calls.{init, encode_map, encode_uint, encode_negint, encode_bstr}
use hiya.Fido2.ClientPin.{
  Context, Params, Crypto, World, Outcome, stop, same_bytes, derive_client_pin_keys, on_keys,
  on_some, regenerate_key_agreement, wrong_pin, run_calls, respond, ctap2_ok, err_missing_parameter,
  err_operation_denied, err_invalid_option, err_pin_blocked, err_pin_auth_invalid, err_pin_not_set,
  ctap2_err_other, max_pin_retries, pin_token_size,
}

-- The buffer of the response, its capacity its length.
abbrev pub answer : List ℕ → Encoder
answer rsp = init rsp (length rsp)

-- `pin_retries` as the `uint64_t` that the encoder takes.
abbrev pub extended : ℕ → ℕ
extended retries = if ltb retries (2 ^ 31) then retries else retries + 2 ^ 64 - 2 ^ 32

-- PIN_SUBCMD_GET_RETRIES
unfoldable pub get_retries : Context → List ℕ → Outcome
get_retries ctx rsp = respond ctx (
    run_calls (encode_map 1 ∷ encode_uint 0x03 ∷ encode_uint (extended ctx.pin.pin_retries) ∷ [])
      (answer rsp))

-- PIN_SUBCMD_GET_KEY_AGREEMENT, with `encode_key_agreement`.
unfoldable pub get_key_agreement : Context → List ℕ → Outcome
get_key_agreement ctx rsp = respond ctx (
    run_calls
      (encode_map 1
        ∷ encode_uint 0x01
        ∷ encode_map 5
        ∷ encode_uint 1
        ∷ encode_uint 2
        ∷ encode_uint 3
        ∷ encode_negint 24
        ∷ encode_negint 0
        ∷ encode_uint 1
        ∷ encode_negint 1
        ∷ encode_bstr (some (drop 1 ctx.auth_pubkey)) 32
        ∷ encode_negint 2
        ∷ encode_bstr (some (drop 33 ctx.auth_pubkey)) 32
        ∷ [])
      (answer rsp))

-- PIN_SUBCMD_GET_UV_RETRIES
unfoldable pub get_uv_retries : Context → List ℕ → Outcome
get_uv_retries ctx rsp =
    respond ctx (run_calls (encode_map 1 ∷ encode_uint 0x05 ∷ encode_uint 3 ∷ []) (answer rsp))

-- `{0x02: pinToken}`
abbrev pub token_answer : List ℕ → List ℕ → Encoder
token_answer rsp token =
    run_calls (encode_map 1 ∷ encode_uint 0x02 ∷ encode_bstr (some token) pin_token_size ∷ [])
      (answer rsp)

-- The new pair of keys, and `*rsp_len = 0`.
abbrev pub finish : World → Context → Outcome
finish w ctx =
    let r = regenerate_key_agreement w ctx in
    if r.1 then stop r.0 ctap2_ok else stop r.0 ctap2_err_other

module _ (crypto : Crypto) (w : World) where
  -- pinHashEnc is decrypted and compared; a wrong one is counted.
  abbrev pub check_hash : Context → List ℕ → Params → Outcome → Outcome
  check_hash ctx aes p o =
      on_some ctx (crypto.pin_decrypt aes p.pin_hash_enc)
        (λ hash. if not (same_bytes 16 hash ctx.pin.pin_hash) then wrong_pin ctx else o)

  abbrev pub whole_blocks : Params → Bool
  whole_blocks p = let n = length p.pin_hash_enc in n == 16 || n == 32 || n == 48 || n == 64

  -- A fresh token with its permissions, encrypted for the platform.
  abbrev pub issue_token : Context → List ℕ → ℕ → List ℕ → (Context → List ℕ → Outcome) → Outcome
  issue_token ctx aes permissions rp k =
      if not w.random_ok
      then stop (record ctx { pin = record ctx.pin { pin_token = w.random } }) ctap2_err_other
      else (let issued = record ctx {
        pin = record ctx.pin {
          pin_token = w.random;
          pin_token_valid = true;
          pin_token_permissions = permissions;
          pin_token_rp_id = rp;
          pin_token_rp_id_set = ltb 0 (length rp);
        };
      } in
          on_some issued (crypto.pin_encrypt aes w.random) (k issued))

  -- The answer is written before the keys are changed.
  abbrev pub answer_then_change : List ℕ → Context → List ℕ → Outcome
  answer_then_change rsp ctx token =
      let e = token_answer rsp token in
      let r = regenerate_key_agreement w ctx in
      if e.error
      then stop ctx ctap2_err_other
      else if r.1
      then respond r.0 e
      else stop r.0 ctap2_err_other

  -- The keys are changed before the answer is written.
  abbrev pub change_then_answer : List ℕ → Context → List ℕ → Outcome
  change_then_answer rsp ctx token =
      let r = regenerate_key_agreement w ctx in
      if r.1 then respond r.0 (token_answer rsp token) else stop r.0 ctap2_err_other

  -- PIN_SUBCMD_GET_PIN_TOKEN
  unfoldable pub get_pin_token : Context → Params → List ℕ → Outcome
  get_pin_token ctx p rsp =
      if not ctx.pin.pin_set
      then stop ctx err_pin_not_set
      else if ctx.pin.pin_blocked
      then stop ctx err_pin_blocked
      else if not p.has_key_agreement
      then stop ctx err_missing_parameter
      else if length p.pin_hash_enc == 0
      then stop ctx err_missing_parameter
      else on_keys ctx (derive_client_pin_keys crypto ctx p) (λ hmac aes.
        if not (whole_blocks p)
        then stop ctx err_pin_auth_invalid
        else check_hash ctx aes p (
            issue_token (record ctx { pin = record ctx.pin { pin_retries = max_pin_retries } }) aes
              0 [] (answer_then_change rsp)))

  -- PIN_SUBCMD_GET_UV_TOKEN_PERM
  unfoldable pub get_uv_token : Context → Params → List ℕ → Outcome
  get_uv_token ctx p rsp =
      if not p.has_key_agreement
      then stop ctx err_missing_parameter
      else if not p.has_permissions
      then stop ctx err_missing_parameter
      else if p.permissions == 0
      then stop ctx err_invalid_option
      else if not w.verified
      then stop ctx err_operation_denied
      else on_keys ctx (derive_client_pin_keys crypto ctx p)
          (λ hmac aes. issue_token ctx aes p.permissions p.rp_id (change_then_answer rsp))

  -- PIN_SUBCMD_GET_PIN_TOKEN_PERM
  unfoldable pub get_pin_token_perm : Context → Params → List ℕ → Outcome
  get_pin_token_perm ctx p rsp =
      if not ctx.pin.pin_set
      then stop ctx err_pin_not_set
      else if ctx.pin.pin_blocked
      then stop ctx err_pin_blocked
      else if not p.has_key_agreement
      then stop ctx err_missing_parameter
      else if not p.has_permissions
      then stop ctx err_missing_parameter
      else if p.permissions == 0
      then stop ctx err_invalid_option
      else if length p.pin_hash_enc == 0
      then stop ctx err_missing_parameter
      else on_keys ctx (derive_client_pin_keys crypto ctx p) (λ hmac aes.
        if not (whole_blocks p)
        then stop ctx err_pin_auth_invalid
        else check_hash ctx aes p (
            issue_token
              (record ctx {
                pin = record ctx.pin { pin_retries = max_pin_retries; pin_blocked = false };
              })
              aes p.permissions p.rp_id (change_then_answer rsp)))
