-- ===== src/Pm/Otp/Window.antt =====
-- The time steps of RFC 6238 in src/pm/pm_otp.c: how long a code stays the current one.
use hiya.Base.{ℕ, suc, ◌+◌, ◌-◌, ◌*◌, ◌/◌, ◌%◌, ◌≤◌, ◌<◌, ◌≡◌, ◌∙◌, ap, arith}
use native.Mathlib.Nat.{
  div-eq_of_lt, div-add-mod, mod-lt, add-mul-div_left, add-div_right, mul-div_right,
}
use hiya.Pm.Otp.{MessageDigests, Params, totp_generate, totp_remaining_seconds}

same_step : (t j period : ℕ) → 0 < period → t % period + j < period → (t + j) / period ≡ t / period
same_step t j period h g =
    let split : t + j ≡ (t % period + j) + period * (t / period) =
      omega (arith, div-add-mod t period) in
    ap (λ n. n / period) split
    ∙ add-mul-div_left (t % period + j) (t / period) h
    ∙ omega (arith, div-eq_of_lt g)

next_step : (t period : ℕ) → 0 < period → (t + (period - t % period)) / period ≡ suc (t / period)
next_step t period h =
    let split : t + (period - t % period) ≡ period * (t / period) + period =
      omega (arith, div-add-mod t period, mod-lt t h) in
    ap (λ n. n / period) split
    ∙ add-div_right (period * (t / period)) h
    ∙ omega (arith, mul-div_right (t / period) h)

-- For a period that is not 0, `pm_otp_totp_remaining_seconds` is between 1 and the period,
-- `pm_otp_totp_generate` gives the same result at every time less than that many seconds later,
-- and that many seconds later the next time step begins.
pub totp_generate-remaining :
    (md : MessageDigests) (params : Params) (t size : ℕ)
    → 0 < params.period
    → (1 ≤ totp_remaining_seconds params.period t)
      × (totp_remaining_seconds params.period t ≤ params.period)
      × ((j : ℕ)
          → j < totp_remaining_seconds params.period t
          → totp_generate md params (t + j) size ≡ totp_generate md params t size)
      × ((t + totp_remaining_seconds params.period t) / params.period ≡ suc (t / params.period))
unfolding totp_remaining_seconds totp_generate
totp_generate-remaining md params t size h =
    let r = mod-lt t h in
    let split = next_step t params.period h in (ground arith, ground arith, stays, ground arith)
  where
    stays :
        (j : ℕ)
        → j < totp_remaining_seconds params.period t
        → totp_generate md params (t + j) size ≡ totp_generate md params t size
    stays j l =
        let bound : j < params.period - t % params.period = ground arith in
        rw (same_step t j params.period h (omega arith))
