-- ===== src/Fido2/ClientPin/Unshown.antt =====
-- One request without the PIN in src/fido2/bio_fido2_pin.c: what each subcommand leaves.
use hiya.Base.{
  if-Is, if-Is_split, ℕ, ◌≡◌, refl, ◌∙◌, sym, true, false, not, List, length, ◌==◌, if◌then◌else◌,
  Option, none, some, arith,
}
use hiya.Fido2.ClientPin.{
  Context, Params, Crypto, World, stop, derive_client_pin_keys, with_pair, regenerate_key_agreement,
  respond, err_invalid_cbor, err_missing_parameter, err_operation_denied, err_invalid_option,
  err_not_allowed, err_pin_blocked, err_pin_auth_invalid, err_pin_not_set, err_pin_policy_violation,
  ctap2_err_other,
}
use hiya.Fido2.ClientPin.Tokens.{
  get_retries, get_key_agreement, get_uv_retries, get_pin_token, get_uv_token, get_pin_token_perm,
  token_answer, whole_blocks, change_then_answer,
}
use hiya.Fido2.ClientPin.Commands.{
  set_pin, change_pin, min_pin_auth, set_min_pin_length, sub_command,
}
use hiya.Fido2.ClientPin.Endings.{
  is_right, Guarded, Unshown, on_some-Is, stop-Unshown, respond-Unshown, check_hash-Unshown,
  on_keys-Unshown, same_pin,
}

module _ (crypto : Crypto) (w : World) (ctx : Context) (is_set : ctx.pin.pin_set ≡ true)
    (g : Guarded ctx) where
  set_pin-Unshown : (p : Params) → Unshown w ctx (set_pin crypto w ctx p)
  unfolding set_pin
  set_pin-Unshown p =
      if-Is_split (Unshown w ctx) ctx.pin.pin_set _ _
        (λ h. stop-Unshown crypto w ctx is_set g err_not_allowed refl)
        (λ h. absurd (let clash = sym is_set ∙ h in cc))

  get_pin_token-Unshown :
      (p : Params) (rsp : List ℕ)
      → is_right crypto ctx p (derive_client_pin_keys crypto ctx p) ≡ false
      → Unshown w ctx (get_pin_token crypto w ctx p rsp)
  unfolding get_pin_token
  get_pin_token-Unshown p rsp wrong =
      if-Is (Unshown w ctx) (not ctx.pin.pin_set) _ _
        (stop-Unshown crypto w ctx is_set g err_pin_not_set refl)
        (if-Is_split (Unshown w ctx) ctx.pin.pin_blocked _ _
          (λ b. stop-Unshown crypto w ctx is_set g err_pin_blocked refl)
          (λ b.
            (if-Is (Unshown w ctx) (not p.has_key_agreement) _ _
              (stop-Unshown crypto w ctx is_set g err_missing_parameter refl)
              (if-Is (Unshown w ctx) (length p.pin_hash_enc == 0) _ _
                (stop-Unshown crypto w ctx is_set g err_missing_parameter refl)
                (on_keys-Unshown crypto w ctx is_set g p _ wrong (λ hmac aes h.
                  if-Is (Unshown w ctx) (not (whole_blocks crypto w p)) _ _
                    (stop-Unshown crypto w ctx is_set g err_pin_auth_invalid refl)
                    (check_hash-Unshown crypto w ctx is_set g hmac aes p _ b h)))))))

  change_pin-Unshown :
      (p : Params)
      → is_right crypto ctx p (derive_client_pin_keys crypto ctx p) ≡ false
      → Unshown w ctx (change_pin crypto w ctx p)
  unfolding change_pin
  change_pin-Unshown p wrong =
      let missing = stop-Unshown crypto w ctx is_set g err_missing_parameter refl in
      let refusal = stop-Unshown crypto w ctx is_set g err_pin_auth_invalid refl in
      if-Is (Unshown w ctx) (not ctx.pin.pin_set) _ _
        (stop-Unshown crypto w ctx is_set g err_pin_not_set refl)
        (if-Is_split (Unshown w ctx) ctx.pin.pin_blocked _ _
          (λ b. stop-Unshown crypto w ctx is_set g err_pin_blocked refl)
          (λ b.
            (if-Is (Unshown w ctx) (not p.has_key_agreement) _ _ missing (
              if-Is (Unshown w ctx) (not p.has_pin_uv_auth_param) _ _ missing (
                if-Is (Unshown w ctx) (length p.pin_hash_enc == 0) _ _ missing (
                  if-Is (Unshown w ctx) (length p.new_pin_enc == 0) _ _ missing (
                    on_keys-Unshown crypto w ctx is_set g p _ wrong (λ hmac aes h.
                      if-Is (Unshown w ctx) _ _ _
                        (stop-Unshown crypto w ctx is_set g ctap2_err_other refl)
                        (if-Is (Unshown w ctx) _ _ _ refusal (
                          if-Is (Unshown w ctx) _ _ _ refusal
                            (check_hash-Unshown crypto w ctx is_set g hmac aes p _ b h)))))))))))

  get_pin_token_perm-Unshown :
      (p : Params) (rsp : List ℕ)
      → is_right crypto ctx p (derive_client_pin_keys crypto ctx p) ≡ false
      → Unshown w ctx (get_pin_token_perm crypto w ctx p rsp)
  unfolding get_pin_token_perm
  get_pin_token_perm-Unshown p rsp wrong =
      let missing = stop-Unshown crypto w ctx is_set g err_missing_parameter refl in
      if-Is (Unshown w ctx) (not ctx.pin.pin_set) _ _
        (stop-Unshown crypto w ctx is_set g err_pin_not_set refl)
        (if-Is_split (Unshown w ctx) ctx.pin.pin_blocked _ _
          (λ b. stop-Unshown crypto w ctx is_set g err_pin_blocked refl)
          (λ b.
            (if-Is (Unshown w ctx) (not p.has_key_agreement) _ _ missing (
              if-Is (Unshown w ctx) (not p.has_permissions) _ _ missing (
                if-Is (Unshown w ctx) (p.permissions == 0) _ _
                  (stop-Unshown crypto w ctx is_set g err_invalid_option refl)
                  (if-Is (Unshown w ctx) (length p.pin_hash_enc == 0) _ _ missing (
                    on_keys-Unshown crypto w ctx is_set g p _ wrong (λ hmac aes h.
                      if-Is (Unshown w ctx) (not (whole_blocks crypto w p)) _ _
                        (stop-Unshown crypto w ctx is_set g err_pin_auth_invalid refl)
                        (check_hash-Unshown crypto w ctx is_set g hmac aes p _ b h)))))))))

  set_min_pin_length-Unshown : (p : Params) → Unshown w ctx (set_min_pin_length crypto w ctx p)
  unfolding set_min_pin_length
  set_min_pin_length-Unshown p =
      let missing = stop-Unshown crypto w ctx is_set g err_missing_parameter refl in
      let refusal = stop-Unshown crypto w ctx is_set g err_pin_auth_invalid refl in
      if-Is (Unshown w ctx) (not ctx.pin.pin_set) _ _
        (stop-Unshown crypto w ctx is_set g err_pin_not_set refl)
        (if-Is (Unshown w ctx) (not p.has_new_min_pin_length) _ _ missing (
          if-Is (Unshown w ctx) _ _ _
            (stop-Unshown crypto w ctx is_set g err_pin_policy_violation refl)
            (if-Is (Unshown w ctx) (not p.has_pin_uv_auth_param) _ _ missing (
              if-Is (Unshown w ctx) (not ctx.pin.pin_token_valid) _ _ refusal (
                if-Is (Unshown w ctx) _ _ _ refusal (
                  if-Is (Unshown w ctx) (not (min_pin_auth crypto w ctx p)) _ _ refusal (record {
                    set = is_set;
                    hash = refl;
                    spent = omega arith;
                    blocked = λ b. b;
                    guarded = record { most = g.most; some_left = g.some_left };
                    token = λ v. refl;
                    valid = λ v. refl;
                  })))))))

  change_then_answer-Unshown :
      (rsp : List ℕ) (c : Context) (token : List ℕ)
      → w.verified ≡ true
      → c.pin.pin_set ≡ ctx.pin.pin_set
      → c.pin.pin_hash ≡ ctx.pin.pin_hash
      → c.pin.pin_retries ≡ ctx.pin.pin_retries
      → c.pin.pin_blocked ≡ ctx.pin.pin_blocked
      → Unshown w ctx (change_then_answer crypto w rsp c token)
  unfolding regenerate_key_agreement respond
  change_then_answer-Unshown rsp c token v s h r b = go w.keygen
    where
      go :
          (pair : Option (List ℕ × List ℕ))
          → Unshown w ctx (
              if (with_pair c pair).1
              then respond ((with_pair c pair).0) (token_answer rsp token)
              else stop ((with_pair c pair).0) ctap2_err_other)
      go none = same_pin crypto w ctx is_set g _ v s h r b refl
      go (some pair) =
          if-Is (Unshown w ctx) (token_answer rsp token).error _ _
            (same_pin crypto w ctx is_set g _ v s h r b refl)
            (same_pin crypto w ctx is_set g _ v s h r b refl)

  get_uv_token-Unshown :
      (p : Params) (rsp : List ℕ)
      → is_right crypto ctx p (derive_client_pin_keys crypto ctx p) ≡ false
      → Unshown w ctx (get_uv_token crypto w ctx p rsp)
  unfolding get_uv_token
  get_uv_token-Unshown p rsp wrong =
      let missing = stop-Unshown crypto w ctx is_set g err_missing_parameter refl in
      if-Is (Unshown w ctx) (not p.has_key_agreement) _ _ missing (
        if-Is (Unshown w ctx) (not p.has_permissions) _ _ missing (
          if-Is (Unshown w ctx) (p.permissions == 0) _ _
            (stop-Unshown crypto w ctx is_set g err_invalid_option refl)
            (if-Is_split (Unshown w ctx) (not w.verified) _ _
              (λ f. stop-Unshown crypto w ctx is_set g err_operation_denied refl)
              (λ f.
                let v : w.verified ≡ true = ground arith in
                on_keys-Unshown crypto w ctx is_set g p _ wrong (λ hmac aes h.
                  if-Is (Unshown w ctx) (not w.random_ok) _ _
                    (same_pin crypto w ctx is_set g _ v refl refl refl refl refl)
                    (on_some-Is (Unshown w ctx) _ (crypto.pin_encrypt aes w.random) _
                      (same_pin crypto w ctx is_set g _ v refl refl refl refl refl)
                      (λ token e.
                        change_then_answer-Unshown rsp _ token v refl refl refl refl)))))))

  pub sub_command-Unshown :
      (p : Params) (rsp : List ℕ)
      → is_right crypto ctx p (derive_client_pin_keys crypto ctx p) ≡ false
      → Unshown w ctx (sub_command crypto w ctx p rsp)
  unfolding sub_command get_retries get_key_agreement get_uv_retries
  sub_command-Unshown p rsp wrong =
      if-Is (Unshown w ctx) (p.sub_command == 0x01) _ _ (respond-Unshown crypto w ctx is_set g _) (
        if-Is (Unshown w ctx) (p.sub_command == 0x02) _ _ (respond-Unshown crypto w ctx is_set g _)
          (if-Is (Unshown w ctx) (p.sub_command == 0x03) _ _ (set_pin-Unshown p) (
            if-Is (Unshown w ctx) (p.sub_command == 0x05) _ _ (get_pin_token-Unshown p rsp wrong) (
              if-Is (Unshown w ctx) (p.sub_command == 0x04) _ _ (change_pin-Unshown p wrong) (
                if-Is (Unshown w ctx) (p.sub_command == 0x06) _ _ (get_uv_token-Unshown p rsp wrong)
                  (if-Is (Unshown w ctx) (p.sub_command == 0x07) _ _
                    (respond-Unshown crypto w ctx is_set g _)
                    (if-Is (Unshown w ctx) (p.sub_command == 0x08) _ _
                      (set_min_pin_length-Unshown p)
                      (if-Is (Unshown w ctx) (p.sub_command == 0x09) _ _
                        (get_pin_token_perm-Unshown p rsp wrong)
                        (stop-Unshown crypto w ctx is_set g err_invalid_cbor refl)))))))))
