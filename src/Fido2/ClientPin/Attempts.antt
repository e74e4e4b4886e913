-- ===== src/Fido2/ClientPin/Attempts.antt =====
-- The ways in which a request ends in src/fido2/bio_fido2_pin.c, and the attempts that it leaves.
use hiya.Base.{
  ℕ, ◌≤◌, ◌≡◌, Bool, true, false, not, List, length, ltb, if-Is, Option, none, some, arith,
}
use hiya.Cbor.Encoder.{Encoder}
use hiya.Fido2.ClientPin.{
  Context, PinState, Params, Crypto, World, Outcome, stop, same_bytes, Keys, keys, no_keys, on_keys,
  with_pair, regenerate_key_agreement, wrong_pin, respond, wiped, err_pin_policy_violation,
  max_pin_retries, ctap2_ok, ctap2_err_other,
}
use hiya.Fido2.ClientPin.Tokens.{
  check_hash, issue_token, finish, token_answer, change_then_answer, answer_then_change,
}
use hiya.Fido2.ClientPin.Commands.{new_pin_hash}
use hiya.Fido2.ClientPin.Endings.{Guarded, on_some-Is}

-- The state of the attempts, as the rest of the context does not matter.
abbrev pub HoldsPin : PinState → Type 0
HoldsPin pin = (pin.pin_retries ≤ max_pin_retries) × (pin.pin_blocked ≡ false → 1 ≤ pin.pin_retries)

pub Guarded-of : (ctx : Context) → HoldsPin ctx.pin → Guarded ctx
Guarded-of ctx h = record { most = h.0; some_left = h.1 }

-- A rule for each way in which a subcommand ends.
pub record Safe (o : Outcome) : Type 0 where
  pub holds : HoldsPin o.ctx.pin

pub stop-Safe : (ctx : Context) (code : ℕ) → HoldsPin ctx.pin → Safe (stop ctx code)
stop-Safe ctx code h = record { holds = h }

pub on_keys-Is :
    (P : Outcome → Type 0) (ctx : Context) (ks : Keys) (k : List ℕ → List ℕ → Outcome)
    → ((code : ℕ) → P (stop ctx code))
    → ((hmac aes : List ℕ) → P (k hmac aes))
    → P (on_keys ctx ks k)
on_keys-Is P ctx (no_keys code) k p q = p code
on_keys-Is P ctx (keys hmac aes) k p q = q hmac aes

pub respond-Safe : (ctx : Context) (e : Encoder) → HoldsPin ctx.pin → Safe (respond ctx e)
unfolding respond
respond-Safe ctx e h =
    if-Is Safe e.error _ _ (stop-Safe ctx ctap2_err_other h) (record { holds = h })

with_pair-pin :
    (P : PinState → Type 0) (c : Context) (pair : Option (List ℕ × List ℕ))
    → P (record c.pin { shared_secret = wiped 32 })
    → P (((with_pair c pair).0).pin)
with_pair-pin P c none h = h
with_pair-pin P c (some pair) h = h

-- Eight attempts are left.
pub full_again :
    (blocked : Bool) → (max_pin_retries ≤ max_pin_retries) × (blocked ≡ false → 1 ≤ max_pin_retries)
full_again blocked = (omega arith, λ b. omega arith)

module _ (crypto : Crypto) (w : World) where
  regenerate-Safe :
      (ctx : Context) → HoldsPin ctx.pin → HoldsPin (((regenerate_key_agreement w ctx).0).pin)
  unfolding regenerate_key_agreement
  regenerate-Safe ctx h = with_pair-pin HoldsPin ctx w.keygen h

  pub finish-Safe : (ctx : Context) → HoldsPin ctx.pin → Safe (finish w ctx)
  finish-Safe ctx h =
      let r = regenerate-Safe ctx h in
      if-Is Safe ((regenerate_key_agreement w ctx).1) _ _
        (stop-Safe ((regenerate_key_agreement w ctx).0) ctap2_ok r)
        (stop-Safe ((regenerate_key_agreement w ctx).0) ctap2_err_other r)

  wrong_pin-Safe :
      (ctx : Context) → ctx.pin.pin_blocked ≡ false → HoldsPin ctx.pin → Safe (wrong_pin ctx)
  unfolding wrong_pin
  wrong_pin-Safe ctx b h =
      let left = h.1 b in record { holds = (omega (arith, h.0), λ k. ground (arith, h.0)) }

  pub check_hash-Safe :
      (ctx : Context) (aes : List ℕ) (p : Params) (o : Outcome)
      → ctx.pin.pin_blocked ≡ false
      → HoldsPin ctx.pin
      → Safe o
      → Safe (check_hash crypto w ctx aes p o)
  check_hash-Safe ctx aes p o b h s =
      on_some-Is Safe ctx (crypto.pin_decrypt aes p.pin_hash_enc) _
        (stop-Safe ctx ctap2_err_other h)
        (λ hash e.
          if-Is Safe (not (same_bytes 16 hash ctx.pin.pin_hash)) _ _ (wrong_pin-Safe ctx b h) s)

  pub new_pin_hash-Safe :
      (ctx : Context) (aes : List ℕ) (p : Params) (k : List ℕ → Outcome)
      → HoldsPin ctx.pin
      → ((hash : List ℕ) → Safe (k hash))
      → Safe (new_pin_hash crypto w ctx aes p k)
  unfolding new_pin_hash
  new_pin_hash-Safe ctx aes p k h s = if-Is Safe _ _ _ (stop-Safe ctx err_pin_policy_violation h) (
      on_some-Is Safe ctx (crypto.pin_decrypt aes p.new_pin_enc) _ (stop-Safe ctx ctap2_err_other h)
        (λ raw e. if-Is Safe _ _ _ (stop-Safe ctx err_pin_policy_violation h) (s _)))

  pub issue_token-Safe :
      (ctx : Context) (aes : List ℕ) (permissions : ℕ) (rp : List ℕ)
      (k : Context → List ℕ → Outcome)
      → HoldsPin ctx.pin
      → ((c : Context) (token : List ℕ) → HoldsPin c.pin → Safe (k c token))
      → Safe (issue_token crypto w ctx aes permissions rp k)
  issue_token-Safe ctx aes permissions rp k h s =
      if-Is Safe (not w.random_ok) _ _
        (stop-Safe (record ctx { pin = record ctx.pin { pin_token = w.random } }) ctap2_err_other h)
        (on_some-Is Safe _ (crypto.pin_encrypt aes w.random) _
          (stop-Safe
            (record ctx {
              pin = record ctx.pin {
                pin_token = w.random;
                pin_token_valid = true;
                pin_token_permissions = permissions;
                pin_token_rp_id = rp;
                pin_token_rp_id_set = ltb 0 (length rp);
              };
            })
            ctap2_err_other h)
          (λ token e. s _ token h))

  pub answer_then_change-Safe :
      (rsp : List ℕ) (c : Context) (token : List ℕ)
      → HoldsPin c.pin
      → Safe (answer_then_change crypto w rsp c token)
  answer_then_change-Safe rsp c token h =
      let r = regenerate-Safe c h in
      if-Is Safe (token_answer rsp token).error _ _ (stop-Safe c ctap2_err_other h) (
        if-Is Safe ((regenerate_key_agreement w c).1) _ _
          (respond-Safe ((regenerate_key_agreement w c).0) (token_answer rsp token) r)
          (stop-Safe ((regenerate_key_agreement w c).0) ctap2_err_other r))

  pub change_then_answer-Safe :
      (rsp : List ℕ) (c : Context) (token : List ℕ)
      → HoldsPin c.pin
      → Safe (change_then_answer crypto w rsp c token)
  change_then_answer-Safe rsp c token h =
      let r = regenerate-Safe c h in
      if-Is Safe ((regenerate_key_agreement w c).1) _ _
        (respond-Safe ((regenerate_key_agreement w c).0) (token_answer rsp token) r)
        (stop-Safe ((regenerate_key_agreement w c).0) ctap2_err_other r)
