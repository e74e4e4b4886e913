-- ===== src/Fido2/ClientPin/Guess.antt =====
-- Guesses at the PIN in src/fido2/bio_fido2_pin.c: what requests without it can reach.
use hiya.Base.{
  ℕ, ◌+◌, ◌≤◌, ◌≡◌, refl, ◌∙◌, Bool, true, false, not, ◌&&◌, List, [], ◌∷◌, length, ◌==◌, if-Is,
  arith,
}
use hiya.Cbor.Decoder.{Result, done, fail, ◌>>=◌}
use hiya.Cbor.Decoder.Calls.{init, decode_map}
use hiya.Fido2.ClientPin.{
  Context, Params, Crypto, World, Outcome, derive_client_pin_keys, err_pin_invalid,
  err_pin_auth_invalid,
}
use hiya.Fido2.ClientPin.Parse.{
  Parsed, params, refused, checked, no_params, parse_entries, parse_client_pin_params,
}
use hiya.Fido2.ClientPin.Commands.{run_command, client_pin}
use hiya.Fido2.ClientPin.Endings.{is_right, Guarded, cost, Unshown, stop-Unshown}
use hiya.Fido2.ClientPin.Unshown.{sub_command-Unshown}

abbrev pub shows : Crypto → Context → Parsed → Bool
shows crypto ctx (refused code) = false
shows crypto ctx (params p) = is_right crypto ctx p (derive_client_pin_keys crypto ctx p)

unfoldable pub shows_pin : Crypto → Context → List ℕ → Bool
shows_pin crypto ctx req = shows crypto ctx (parse_client_pin_params req)

abbrev WellRefused : Parsed → Type 0
WellRefused (refused code) = (code == err_pin_invalid) ≡ false
WellRefused (params p) = Unit {0}

checked-WellRefused : (r : Result Params) → WellRefused (checked r)
checked-WellRefused (fail s) = refl
checked-WellRefused (done p) = if-Is WellRefused (p.sub_command == 0) _ _ refl tt

parse-WellRefused : (req : List ℕ) → WellRefused (parse_client_pin_params req)
unfolding parse_client_pin_params
parse-WellRefused req =
    checked-WellRefused ((decode_map >>= λ n. parse_entries n no_params) (init req (length req))).1

-- one request
pub client_pin-Unshown :
    (crypto : Crypto) (w : World) (ctx : Context) (req rsp : List ℕ)
    → ctx.pin.pin_set ≡ true
    → Guarded ctx
    → shows_pin crypto ctx req ≡ false
    → Unshown w ctx (client_pin crypto w ctx req rsp)
unfolding client_pin shows_pin
client_pin-Unshown crypto w ctx req rsp s g wrong =
    go (parse_client_pin_params req) (parse-WellRefused req) wrong
  where
    go :
        (parsed : Parsed)
        → WellRefused parsed
        → shows crypto ctx parsed ≡ false
        → Unshown w ctx (run_command crypto w ctx parsed rsp)
    go (refused code) r h = stop-Unshown crypto w ctx s g code r
    go (params p) r h =
        if-Is (Unshown w ctx) (not (p.pin_protocol == 1) && not (p.pin_protocol == 2)) _ _
          (stop-Unshown crypto w ctx s g err_pin_auth_invalid refl)
          (sub_command-Unshown crypto w ctx s g p rsp h)

-- A request, the buffer for its response, and what the world does meanwhile.
pub record Request : Type 0 where
  pub world : World
  pub req : List ℕ
  pub rsp : List ℕ

abbrev pub reply_to : Crypto → Request → Context → Outcome
reply_to crypto r ctx = client_pin crypto r.world ctx r.req r.rsp

-- The context after requests in a row.
unfoldable pub serve : Crypto → List Request → Context → Context
serve crypto [] ctx = ctx
serve crypto (r ∷ rs) ctx = serve crypto rs ((reply_to crypto r ctx).ctx)

-- How many are answered with PIN_INVALID.
unfoldable pub wrong_tries : Crypto → List Request → Context → ℕ
wrong_tries crypto [] ctx = 0
wrong_tries crypto (r ∷ rs) ctx =
    cost (reply_to crypto r ctx).status + wrong_tries crypto rs ((reply_to crypto r ctx).ctx)

unfoldable pub never_shown : Crypto → List Request → Context → Bool
never_shown crypto [] ctx = true
never_shown crypto (r ∷ rs) ctx =
    not (shows_pin crypto ctx r.req) && never_shown crypto rs ((reply_to crypto r ctx).ctx)

-- For a set PIN with at most 8 attempts left, and at least one unless it is blocked: over any
-- requests to `ctap2_client_pin`, none of which carries a hash that decrypts to the PIN's, the
-- answers PIN_INVALID and the attempts left afterwards are together no more than the attempts
-- at the start, the stored hash stays as it was, and a blocked PIN stays blocked.
pub serve-bounded :
    (crypto : Crypto) (rs : List Request) (ctx : Context)
    → ctx.pin.pin_set ≡ true
    → Guarded ctx
    → never_shown crypto rs ctx ≡ true
    → (wrong_tries crypto rs ctx + (serve crypto rs ctx).pin.pin_retries ≤ ctx.pin.pin_retries)
      × ((serve crypto rs ctx).pin.pin_hash ≡ ctx.pin.pin_hash)
      × (ctx.pin.pin_blocked ≡ true → (serve crypto rs ctx).pin.pin_blocked ≡ true)
unfolding serve wrong_tries never_shown
serve-bounded crypto [] ctx s g h = (omega arith, refl, λ b. b)
serve-bounded crypto (r ∷ rs) ctx s g h =
    let wrong : shows_pin crypto ctx r.req ≡ false = ground arith in
    let u = client_pin-Unshown crypto r.world ctx r.req r.rsp s g wrong in
    let (few, same, shut) =
      serve-bounded crypto rs ((reply_to crypto r ctx).ctx) u.set u.guarded (ground arith) in
    (omega (arith, few, u.spent), same ∙ u.hash, λ b. shut (u.blocked b))

-- For a set PIN with at most 8 attempts left, and at least one unless it is blocked: a request
-- to `ctap2_client_pin` that carries no hash that decrypts to the PIN's, and where no user is
-- verified, leaves the token and its validity as they were.
pub client_pin-token :
    (crypto : Crypto) (w : World) (ctx : Context) (req rsp : List ℕ)
    → ctx.pin.pin_set ≡ true
    → Guarded ctx
    → shows_pin crypto ctx req ≡ false
    → w.verified ≡ false
    → ((client_pin crypto w ctx req rsp).ctx.pin.pin_token ≡ ctx.pin.pin_token)
      × ((client_pin crypto w ctx req rsp).ctx.pin.pin_token_valid ≡ ctx.pin.pin_token_valid)
client_pin-token crypto w ctx req rsp s g wrong v =
    let u = client_pin-Unshown crypto w ctx req rsp s g wrong in (u.token v, u.valid v)
