-- ===== src/Fido2/ClientPin/Unsaved.antt =====
-- Requests to src/fido2/bio_fido2_pin.c whose effect could not be written to the file of
-- credentials.
use hiya.Base.{
  ℕ, ◌%◌, ◌≡◌, refl, sym, ◌∙◌, true, false, not, ◌||◌, List, length, ltb, ◌==◌, if-Is, if-Is_split,
}
use hiya.Fido2.ClientPin.{
  Context, Params, Crypto, World, Outcome, stop, same_bytes, Keys, keys, no_keys,
  derive_client_pin_keys, on_keys, wrong_pin, is_spent, one_less, ctap2_ok, ctap2_err_other,
  err_missing_parameter, err_not_allowed, err_pin_blocked, err_pin_invalid, err_pin_auth_invalid,
  err_pin_not_set, err_pin_policy_violation,
}
use hiya.Fido2.ClientPin.Commands.{new_pin_hash, set_pin, change_pin}
use hiya.Fido2.ClientPin.Endings.{on_some-Is, IsRefusal, derive-IsRefusal}

-- The request fails, and the PIN is the one before: as it was, or with a wrong try counted.
pub record Reverted (ctx : Context) (o : Outcome) : Type 0 where
  pub fails : (o.status == ctap2_ok) ≡ false
  pub set : o.ctx.pin.pin_set ≡ ctx.pin.pin_set
  pub hash : ctx.pin.pin_set ≡ true → o.ctx.pin.pin_hash ≡ ctx.pin.pin_hash
  pub token : o.ctx.pin.pin_token ≡ ctx.pin.pin_token
  pub keys : o.ctx.auth_privkey ≡ ctx.auth_privkey

stop-Reverted :
    (ctx : Context) (code : ℕ) → (code == ctap2_ok) ≡ false → Reverted ctx (stop ctx code)
stop-Reverted ctx code h = record {
  fails = h;
  set = refl;
  hash = λ s. refl;
  token = refl;
  keys = refl;
}

wrong_pin-Reverted : (ctx : Context) → Reverted ctx (wrong_pin ctx)
unfolding wrong_pin
wrong_pin-Reverted ctx = record {
  fails =
      if-Is (λ code. (code == ctap2_ok) ≡ false)
        (is_spent (one_less ctx.pin.pin_retries) || ctx.pin.pin_blocked) err_pin_blocked
        err_pin_invalid refl refl;
  set = refl;
  hash = λ s. refl;
  token = refl;
  keys = refl;
}

on_keys-Reverted :
    (ctx : Context) (ks : Keys) (k : List ℕ → List ℕ → Outcome)
    → IsRefusal ks
    → ((hmac aes : List ℕ) → Reverted ctx (k hmac aes))
    → Reverted ctx (on_keys ctx ks k)
on_keys-Reverted ctx (no_keys code) k r f = stop-Reverted ctx code (r.1)
on_keys-Reverted ctx (keys hmac aes) k r f = f hmac aes

module _ (crypto : Crypto) (w : World) (unsaved : w.saved ≡ false) where
  new_pin_hash-Reverted :
      (ctx : Context) (aes : List ℕ) (p : Params) (k : List ℕ → Outcome)
      → ((hash : List ℕ) → Reverted ctx (k hash))
      → Reverted ctx (new_pin_hash crypto w ctx aes p k)
  unfolding new_pin_hash
  new_pin_hash-Reverted ctx aes p k s =
      let policy = stop-Reverted ctx err_pin_policy_violation refl in
      if-Is (Reverted ctx) (ltb 256 (length p.new_pin_enc) || not (length p.new_pin_enc % 16 == 0))
        _ _ policy
        (on_some-Is (Reverted ctx) ctx (crypto.pin_decrypt aes p.new_pin_enc) _
          (stop-Reverted ctx ctap2_err_other refl)
          (λ raw e. if-Is (Reverted ctx) _ _ _ policy (s _)))

  -- Where the credentials cannot be saved, a request to set the PIN fails, whether a PIN is set
  -- is as before, a PIN that is set keeps its hash, and the token and the private key are as
  -- before.
  pub set_pin-Reverted : (ctx : Context) (p : Params) → Reverted ctx (set_pin crypto w ctx p)
  unfolding set_pin
  set_pin-Reverted ctx p =
      let missing = stop-Reverted ctx err_missing_parameter refl in
      if-Is_split (Reverted ctx) ctx.pin.pin_set _ _ (λ s. stop-Reverted ctx err_not_allowed refl)
        (λ s. if-Is (Reverted ctx) (not p.has_key_agreement) _ _ missing (
          if-Is (Reverted ctx) (length p.new_pin_enc == 0) _ _ missing (
            if-Is (Reverted ctx) (not p.has_pin_uv_auth_param) _ _ missing (
              on_keys-Reverted ctx (derive_client_pin_keys crypto ctx p) _
                (derive-IsRefusal crypto ctx p)
                (λ hmac aes.
                  if-Is (Reverted ctx)
                    (not
                      (same_bytes 16 (crypto.hmac_sha256 hmac p.new_pin_enc) p.pin_uv_auth_param))
                    _ _ (stop-Reverted ctx err_pin_auth_invalid refl)
                    (new_pin_hash-Reverted ctx aes p _ (λ hash.
                      if-Is_split (Reverted ctx) w.saved _ _
                        (λ e. absurd (let clash = sym e ∙ unsaved in cc))
                        (λ e. record {
                          fails = refl;
                          set = sym s;
                          hash = λ b. absurd (let clash = sym s ∙ b in cc);
                          token = refl;
                          keys = refl;
                        }))))))))

  -- Where the credentials cannot be saved, a request to change the PIN fails, and whether a PIN
  -- is set, its hash, the token and the private key are as before.
  pub change_pin-Reverted : (ctx : Context) (p : Params) → Reverted ctx (change_pin crypto w ctx p)
  unfolding change_pin
  change_pin-Reverted ctx p =
      let missing = stop-Reverted ctx err_missing_parameter refl in
      let refusal = stop-Reverted ctx err_pin_auth_invalid refl in
      if-Is (Reverted ctx) (not ctx.pin.pin_set) _ _ (stop-Reverted ctx err_pin_not_set refl) (
        if-Is (Reverted ctx) ctx.pin.pin_blocked _ _ (stop-Reverted ctx err_pin_blocked refl) (
          if-Is (Reverted ctx) (not p.has_key_agreement) _ _ missing (
            if-Is (Reverted ctx) (not p.has_pin_uv_auth_param) _ _ missing (
              if-Is (Reverted ctx) (length p.pin_hash_enc == 0) _ _ missing (
                if-Is (Reverted ctx) (length p.new_pin_enc == 0) _ _ missing (
                  on_keys-Reverted ctx (derive_client_pin_keys crypto ctx p) _
                    (derive-IsRefusal crypto ctx p)
                    (λ hmac aes.
                      if-Is (Reverted ctx) _ _ _ (stop-Reverted ctx ctap2_err_other refl) (
                        if-Is (Reverted ctx) _ _ _ refusal (
                          if-Is (Reverted ctx) _ _ _ refusal (
                            on_some-Is (Reverted ctx) ctx (crypto.pin_decrypt aes p.pin_hash_enc) _
                              (stop-Reverted ctx ctap2_err_other refl)
                              (λ old f.
                                if-Is (Reverted ctx) (not (same_bytes 16 old ctx.pin.pin_hash)) _ _
                                  (wrong_pin-Reverted ctx)
                                  (new_pin_hash-Reverted ctx aes p _ (λ hash.
                                    if-Is_split (Reverted ctx) w.saved _ _
                                      (λ e. absurd (let clash = sym e ∙ unsaved in cc))
                                      (λ e. stop-Reverted ctx ctap2_err_other refl))))))))))))))
