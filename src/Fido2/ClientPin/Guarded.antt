-- ===== src/Fido2/ClientPin/Guarded.antt =====
-- The attempts that src/fido2/bio_fido2_pin.c keeps, under any request.
use hiya.Base.{
  bit_and, ℕ, ◌+◌, ◌%◌, false, not, ◌&&◌, ◌||◌, List, [], ◌++◌, length, ltb, ◌==◌, if-Is,
  if-Is_split,
}
use hiya.Fido2.ClientPin.{
  Context, Params, Crypto, World, same_bytes, derive_client_pin_keys, wiped, err_invalid_cbor,
  err_missing_parameter, err_operation_denied, err_invalid_option, err_not_allowed, err_pin_blocked,
  err_pin_auth_invalid, err_pin_not_set, err_pin_policy_violation, max_pin_retries, perm_authnr_cfg,
  ctap2_ok, ctap2_err_other,
}
use hiya.Fido2.ClientPin.Parse.{Parsed, params, refused, parse_client_pin_params}
use hiya.Fido2.ClientPin.Tokens.{
  get_retries, get_key_agreement, get_uv_retries, get_pin_token, get_uv_token, get_pin_token_perm,
  whole_blocks,
}
use hiya.Fido2.ClientPin.Commands.{
  set_pin, change_pin, min_pin_auth, set_min_pin_length, sub_command, run_command, client_pin,
}
use hiya.Fido2.ClientPin.Endings.{Guarded}
use hiya.Fido2.ClientPin.Attempts.{
  HoldsPin, Guarded-of, Safe, stop-Safe, respond-Safe, on_keys-Is, full_again, finish-Safe,
  check_hash-Safe, new_pin_hash-Safe, issue_token-Safe, answer_then_change-Safe,
  change_then_answer-Safe,
}

module _ (crypto : Crypto) (w : World) where
  set_pin-Safe : (ctx : Context) (p : Params) → HoldsPin ctx.pin → Safe (set_pin crypto w ctx p)
  unfolding set_pin
  set_pin-Safe ctx p h =
      let full = full_again ctx.pin.pin_blocked in
      if-Is Safe ctx.pin.pin_set _ _ (stop-Safe ctx err_not_allowed h) (
        if-Is Safe (not p.has_key_agreement) _ _ (stop-Safe ctx err_missing_parameter h) (
          if-Is Safe (length p.new_pin_enc == 0) _ _ (stop-Safe ctx err_missing_parameter h) (
            if-Is Safe (not p.has_pin_uv_auth_param) _ _ (stop-Safe ctx err_missing_parameter h) (
              on_keys-Is Safe ctx (derive_client_pin_keys crypto ctx p) _
                (λ code. stop-Safe ctx code h)
                (λ hmac aes.
                  if-Is Safe
                    (not
                      (same_bytes 16 (crypto.hmac_sha256 hmac p.new_pin_enc) p.pin_uv_auth_param))
                    _ _ (stop-Safe ctx err_pin_auth_invalid h)
                    (new_pin_hash-Safe crypto w ctx aes p _ h (λ hash.
                      if-Is Safe w.saved _ _ (finish-Safe crypto w _ full) (
                        stop-Safe
                          (record ctx {
                            pin = record ctx.pin {
                              pin_hash = wiped 16;
                              pin_set = false;
                              pin_retries = max_pin_retries;
                            };
                          })
                          ctap2_err_other full))))))))

  get_pin_token-Safe :
      (ctx : Context) (p : Params) (rsp : List ℕ)
      → HoldsPin ctx.pin
      → Safe (get_pin_token crypto w ctx p rsp)
  unfolding get_pin_token
  get_pin_token-Safe ctx p rsp h =
      if-Is Safe (not ctx.pin.pin_set) _ _ (stop-Safe ctx err_pin_not_set h) (
        if-Is_split Safe ctx.pin.pin_blocked _ _ (λ b. stop-Safe ctx err_pin_blocked h)
          (λ b. if-Is Safe (not p.has_key_agreement) _ _ (stop-Safe ctx err_missing_parameter h) (
            if-Is Safe (length p.pin_hash_enc == 0) _ _ (stop-Safe ctx err_missing_parameter h) (
              on_keys-Is Safe ctx (derive_client_pin_keys crypto ctx p) _
                (λ code. stop-Safe ctx code h)
                (λ hmac aes.
                  if-Is Safe (not (whole_blocks crypto w p)) _ _
                    (stop-Safe ctx err_pin_auth_invalid h)
                    (check_hash-Safe crypto w ctx aes p _ b h (
                      issue_token-Safe crypto w
                        (record ctx { pin = record ctx.pin { pin_retries = max_pin_retries } }) aes
                        0 [] _ (full_again ctx.pin.pin_blocked)
                        (answer_then_change-Safe crypto w rsp))))))))

  change_pin-Safe :
      (ctx : Context) (p : Params) → HoldsPin ctx.pin → Safe (change_pin crypto w ctx p)
  unfolding change_pin
  change_pin-Safe ctx p h = if-Is Safe (not ctx.pin.pin_set) _ _ (stop-Safe ctx err_pin_not_set h) (
      if-Is_split Safe ctx.pin.pin_blocked _ _ (λ b. stop-Safe ctx err_pin_blocked h)
        (λ b. if-Is Safe (not p.has_key_agreement) _ _ (stop-Safe ctx err_missing_parameter h) (
          if-Is Safe (not p.has_pin_uv_auth_param) _ _ (stop-Safe ctx err_missing_parameter h) (
            if-Is Safe (length p.pin_hash_enc == 0) _ _ (stop-Safe ctx err_missing_parameter h) (
              if-Is Safe (length p.new_pin_enc == 0) _ _ (stop-Safe ctx err_missing_parameter h) (
                on_keys-Is Safe ctx (derive_client_pin_keys crypto ctx p) _
                  (λ code. stop-Safe ctx code h)
                  (λ hmac aes.
                    if-Is Safe (ltb 512 (length p.new_pin_enc + length p.pin_hash_enc)) _ _
                      (stop-Safe ctx ctap2_err_other h)
                      (if-Is Safe
                        (not (
                          same_bytes 16 (crypto.hmac_sha256 hmac (p.new_pin_enc ++ p.pin_hash_enc))
                            p.pin_uv_auth_param))
                        _ _ (stop-Safe ctx err_pin_auth_invalid h)
                        (if-Is Safe (not (length p.pin_hash_enc % 16 == 0)) _ _
                          (stop-Safe ctx err_pin_auth_invalid h)
                          (check_hash-Safe crypto w ctx aes p _ b h (
                            new_pin_hash-Safe crypto w ctx aes p _ h (λ hash.
                              if-Is Safe w.saved _ _ (finish-Safe crypto w _ (full_again false))
                                (stop-Safe ctx ctap2_err_other h)))))))))))))

  get_uv_token-Safe :
      (ctx : Context) (p : Params) (rsp : List ℕ)
      → HoldsPin ctx.pin
      → Safe (get_uv_token crypto w ctx p rsp)
  unfolding get_uv_token
  get_uv_token-Safe ctx p rsp h =
      if-Is Safe (not p.has_key_agreement) _ _ (stop-Safe ctx err_missing_parameter h) (
        if-Is Safe (not p.has_permissions) _ _ (stop-Safe ctx err_missing_parameter h) (
          if-Is Safe (p.permissions == 0) _ _ (stop-Safe ctx err_invalid_option h) (
            if-Is Safe (not w.verified) _ _ (stop-Safe ctx err_operation_denied h) (
              on_keys-Is Safe ctx (derive_client_pin_keys crypto ctx p) _
                (λ code. stop-Safe ctx code h)
                (λ hmac aes.
                  issue_token-Safe crypto w ctx aes p.permissions p.rp_id _ h
                    (change_then_answer-Safe crypto w rsp))))))

  get_pin_token_perm-Safe :
      (ctx : Context) (p : Params) (rsp : List ℕ)
      → HoldsPin ctx.pin
      → Safe (get_pin_token_perm crypto w ctx p rsp)
  unfolding get_pin_token_perm
  get_pin_token_perm-Safe ctx p rsp h =
      if-Is Safe (not ctx.pin.pin_set) _ _ (stop-Safe ctx err_pin_not_set h) (
        if-Is_split Safe ctx.pin.pin_blocked _ _ (λ b. stop-Safe ctx err_pin_blocked h)
          (λ b. if-Is Safe (not p.has_key_agreement) _ _ (stop-Safe ctx err_missing_parameter h) (
            if-Is Safe (not p.has_permissions) _ _ (stop-Safe ctx err_missing_parameter h) (
              if-Is Safe (p.permissions == 0) _ _ (stop-Safe ctx err_invalid_option h) (
                if-Is Safe (length p.pin_hash_enc == 0) _ _ (stop-Safe ctx err_missing_parameter h)
                  (on_keys-Is Safe ctx (derive_client_pin_keys crypto ctx p) _
                    (λ code. stop-Safe ctx code h)
                    (λ hmac aes.
                      if-Is Safe (not (whole_blocks crypto w p)) _ _
                        (stop-Safe ctx err_pin_auth_invalid h)
                        (check_hash-Safe crypto w ctx aes p _ b h (
                          issue_token-Safe crypto w
                            (record ctx {
                              pin = record ctx.pin {
                                pin_retries = max_pin_retries;
                                pin_blocked = false;
                              };
                            })
                            aes p.permissions p.rp_id _ (full_again false)
                            (change_then_answer-Safe crypto w rsp))))))))))

  set_min_pin_length-Safe :
      (ctx : Context) (p : Params) → HoldsPin ctx.pin → Safe (set_min_pin_length crypto w ctx p)
  unfolding set_min_pin_length
  set_min_pin_length-Safe ctx p h =
      if-Is Safe (not ctx.pin.pin_set) _ _ (stop-Safe ctx err_pin_not_set h) (
        if-Is Safe (not p.has_new_min_pin_length) _ _ (stop-Safe ctx err_missing_parameter h) (
          if-Is Safe (ltb p.new_min_pin_length 4 || ltb 63 p.new_min_pin_length) _ _
            (stop-Safe ctx err_pin_policy_violation h)
            (if-Is Safe (not p.has_pin_uv_auth_param) _ _ (stop-Safe ctx err_missing_parameter h) (
              if-Is Safe (not ctx.pin.pin_token_valid) _ _ (stop-Safe ctx err_pin_auth_invalid h) (
                if-Is Safe
                  (not (ctx.pin.pin_token_permissions == 0)
                    && bit_and ctx.pin.pin_token_permissions perm_authnr_cfg == 0)
                  _ _ (stop-Safe ctx err_pin_auth_invalid h)
                  (if-Is Safe (not (min_pin_auth crypto w ctx p)) _ _
                    (stop-Safe ctx err_pin_auth_invalid h)
                    (stop-Safe (record ctx { min_pin_length = p.new_min_pin_length }) ctap2_ok
                      h)))))))

  sub_command-Safe :
      (ctx : Context) (p : Params) (rsp : List ℕ)
      → HoldsPin ctx.pin
      → Safe (sub_command crypto w ctx p rsp)
  unfolding sub_command get_retries get_key_agreement get_uv_retries
  sub_command-Safe ctx p rsp h = if-Is Safe (p.sub_command == 0x01) _ _ (respond-Safe ctx _ h) (
      if-Is Safe (p.sub_command == 0x02) _ _ (respond-Safe ctx _ h) (
        if-Is Safe (p.sub_command == 0x03) _ _ (set_pin-Safe ctx p h) (
          if-Is Safe (p.sub_command == 0x05) _ _ (get_pin_token-Safe ctx p rsp h) (
            if-Is Safe (p.sub_command == 0x04) _ _ (change_pin-Safe ctx p h) (
              if-Is Safe (p.sub_command == 0x06) _ _ (get_uv_token-Safe ctx p rsp h) (
                if-Is Safe (p.sub_command == 0x07) _ _ (respond-Safe ctx _ h) (
                  if-Is Safe (p.sub_command == 0x08) _ _ (set_min_pin_length-Safe ctx p h) (
                    if-Is Safe (p.sub_command == 0x09) _ _ (get_pin_token_perm-Safe ctx p rsp h)
                      (stop-Safe ctx err_invalid_cbor h)))))))))

-- Whatever the request, the keys and the world: if at most 8 attempts are left, and at least
-- one unless the PIN is blocked, the same holds after `ctap2_client_pin`.
pub client_pin-Guarded :
    (crypto : Crypto) (w : World) (ctx : Context) (req rsp : List ℕ)
    → Guarded ctx
    → Guarded ((client_pin crypto w ctx req rsp).ctx)
unfolding client_pin
client_pin-Guarded crypto w ctx req rsp g = Guarded-of _ ((go (parse_client_pin_params req)).holds)
  where
    go : (parsed : Parsed) → Safe (run_command crypto w ctx parsed rsp)
    go (refused code) = stop-Safe ctx code (g.most, g.some_left)
    go (params p) =
        if-Is Safe (not (p.pin_protocol == 1) && not (p.pin_protocol == 2)) _ _
          (stop-Safe ctx err_pin_auth_invalid (g.most, g.some_left))
          (sub_command-Safe crypto w ctx p rsp (g.most, g.some_left))
