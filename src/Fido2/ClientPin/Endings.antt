-- ===== src/Fido2/ClientPin/Endings.antt =====
-- The ways in which a request without the PIN ends in src/fido2/bio_fido2_pin.c.
use hiya.Base.{
  if-Is, if-Is_split, ℕ, ◌+◌, ◌≤◌, ◌≡◌, refl, ◌∙◌, sym, Bool, true, false, not, List, ◌==◌,
  if◌then◌else◌, Option, none, some, arith,
}
use hiya.Cbor.Encoder.{Encoder}
use hiya.Fido2.ClientPin.{
  Context, Params, Crypto, World, Outcome, stop, same_bytes, Keys, keys, no_keys,
  derive_client_pin_keys, on_keys, on_some, wrong_pin, respond, both_keys, keys_of, err_pin_invalid,
  max_pin_retries, ctap2_ok, ctap2_err_other,
}
use hiya.Fido2.ClientPin.Tokens.{check_hash}

-- The PIN hash of a request is the one stored.
abbrev pub is_right : Crypto → Context → Params → Keys → Bool
is_right crypto ctx p (no_keys code) = false
is_right crypto ctx p (keys hmac aes) = elim (crypto.pin_decrypt aes p.pin_hash_enc) [
  | none ↦ false
  | some hash ↦ same_bytes 16 hash ctx.pin.pin_hash
]

-- The attempts that are left, and whether they are used up, belong together.
pub record Guarded (ctx : Context) : Type 0 where
  pub most : ctx.pin.pin_retries ≤ max_pin_retries
  pub some_left : ctx.pin.pin_blocked ≡ false → 1 ≤ ctx.pin.pin_retries

abbrev pub cost : ℕ → ℕ
cost status = if status == err_pin_invalid then 1 else 0

-- What a request without the PIN can do to a context whose PIN is set.
pub record Unshown (w : World) (ctx : Context) (o : Outcome) : Type 0 where
  pub set : o.ctx.pin.pin_set ≡ true
  pub hash : o.ctx.pin.pin_hash ≡ ctx.pin.pin_hash
  pub spent : o.ctx.pin.pin_retries + cost o.status ≤ ctx.pin.pin_retries
  pub blocked : ctx.pin.pin_blocked ≡ true → o.ctx.pin.pin_blocked ≡ true
  pub guarded : Guarded o.ctx
  pub token : w.verified ≡ false → o.ctx.pin.pin_token ≡ ctx.pin.pin_token
  pub valid : w.verified ≡ false → o.ctx.pin.pin_token_valid ≡ ctx.pin.pin_token_valid

pub on_some-Is :
    {A : Type 0} (P : Outcome → Type 0) (ctx : Context) (o : Option A) (k : A → Outcome)
    → P (stop ctx ctap2_err_other)
    → ((a : A) → o ≡ some a → P (k a))
    → P (on_some ctx o k)
on_some-Is P ctx none k p q = p
on_some-Is P ctx (some a) k p q = q a refl

-- A refusal to derive keys is neither a wrong PIN nor a success.
abbrev pub IsRefusal : Keys → Type 0
IsRefusal (no_keys code) = ((code == err_pin_invalid) ≡ false) × ((code == ctap2_ok) ≡ false)
IsRefusal (keys hmac aes) = Unit {0}

both_keys-IsRefusal : (h a : Option (List ℕ)) → IsRefusal (both_keys h a)
both_keys-IsRefusal none a = (refl, refl)
both_keys-IsRefusal (some h) none = (refl, refl)
both_keys-IsRefusal (some h) (some a) = tt

keys_of-IsRefusal :
    (crypto : Crypto) (protocol : ℕ) (shared : Option (List ℕ))
    → IsRefusal (keys_of crypto protocol shared)
keys_of-IsRefusal crypto protocol none = (refl, refl)
keys_of-IsRefusal crypto protocol (some shared) =
    if-Is IsRefusal (protocol == 2) _ _ (both_keys-IsRefusal _ _)
      (if-Is IsRefusal (protocol == 1) _ _ tt (refl, refl))

pub derive-IsRefusal :
    (crypto : Crypto) (ctx : Context) (p : Params) → IsRefusal (derive_client_pin_keys crypto ctx p)
unfolding derive_client_pin_keys
derive-IsRefusal crypto ctx p = keys_of-IsRefusal crypto p.pin_protocol _

module _ (crypto : Crypto) (w : World) (ctx : Context) (is_set : ctx.pin.pin_set ≡ true)
    (g : Guarded ctx) where
  -- A status but PIN_INVALID, the context as it was.
  pub stop-Unshown : (code : ℕ) → (code == err_pin_invalid) ≡ false → Unshown w ctx (stop ctx code)
  stop-Unshown code h = record {
    set = is_set;
    hash = refl;
    spent = ground arith;
    blocked = λ b. b;
    guarded = g;
    token = λ v. refl;
    valid = λ v. refl;
  }

  pub respond-Unshown : (e : Encoder) → Unshown w ctx (respond ctx e)
  unfolding respond
  respond-Unshown e =
      if-Is (Unshown w ctx) e.error (stop ctx ctap2_err_other) _ (stop-Unshown ctap2_err_other refl)
        (record {
          set = is_set;
          hash = refl;
          spent = omega arith;
          blocked = λ b. b;
          guarded = g;
          token = λ v. refl;
          valid = λ v. refl;
        })

  wrong_pin-Unshown : ctx.pin.pin_blocked ≡ false → Unshown w ctx (wrong_pin ctx)
  unfolding wrong_pin
  wrong_pin-Unshown b =
      let left = g.some_left b in
      record {
        set = is_set;
        hash = refl;
        spent = ground (arith, g.most);
        blocked = λ c. cc;
        guarded = record { most = omega (arith, g.most); some_left = λ h. ground (arith, g.most) };
        token = λ v. refl;
        valid = λ v. refl;
      }

  pub check_hash-Unshown :
      (hmac aes : List ℕ) (p : Params) (o : Outcome)
      → ctx.pin.pin_blocked ≡ false
      → is_right crypto ctx p (keys hmac aes) ≡ false
      → Unshown w ctx (check_hash crypto w ctx aes p o)
  check_hash-Unshown hmac aes p o b wrong =
      on_some-Is (Unshown w ctx) ctx (crypto.pin_decrypt aes p.pin_hash_enc) _
        (stop-Unshown ctap2_err_other refl)
        (λ hash e.
          let differs : same_bytes 16 hash ctx.pin.pin_hash ≡ false = rw (e, is_right) at wrong in
          if-Is_split (Unshown w ctx) (not (same_bytes 16 hash ctx.pin.pin_hash)) _ _
            (λ h. wrong_pin-Unshown b) (λ h. absurd (let same = rw differs at h in cc)))

  -- What comes behind the derivation of the keys.
  pub on_keys-Unshown :
      (p : Params) (k : List ℕ → List ℕ → Outcome)
      → is_right crypto ctx p (derive_client_pin_keys crypto ctx p) ≡ false
      → ((hmac aes : List ℕ)
          → is_right crypto ctx p (keys hmac aes) ≡ false
          → Unshown w ctx (k hmac aes))
      → Unshown w ctx (on_keys ctx (derive_client_pin_keys crypto ctx p) k)
  on_keys-Unshown p k wrong f =
      go (derive_client_pin_keys crypto ctx p) (derive-IsRefusal crypto ctx p) wrong
    where
      go :
          (ks : Keys)
          → IsRefusal ks
          → is_right crypto ctx p ks ≡ false
          → Unshown w ctx (on_keys ctx ks k)
      go (no_keys code) r h = stop-Unshown code (r.0)
      go (keys hmac aes) r h = f hmac aes h

  -- After user verification: a new token, with the PIN's part as it was.
  pub same_pin :
      (o : Outcome)
      → w.verified ≡ true
      → o.ctx.pin.pin_set ≡ ctx.pin.pin_set
      → o.ctx.pin.pin_hash ≡ ctx.pin.pin_hash
      → o.ctx.pin.pin_retries ≡ ctx.pin.pin_retries
      → o.ctx.pin.pin_blocked ≡ ctx.pin.pin_blocked
      → (o.status == err_pin_invalid) ≡ false
      → Unshown w ctx o
  same_pin o v s h r b k = record {
    set = s ∙ is_set;
    hash = h;
    spent = ground arith;
    blocked = λ c. b ∙ c;
    guarded = record {
      most = omega (arith, r, g.most);
      some_left = λ c. omega (arith, r, g.some_left (sym b ∙ c));
    };
    token = λ f. cc;
    valid = λ f. cc;
  }
