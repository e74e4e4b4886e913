-- ===== src/Pm/Otp.antt =====
-- src/pm/pm_otp.c: one-time passwords (RFC 4226, RFC 6238), and the base32 of their secrets.
-- Pointers are not NULL here; wiping a buffer that goes out of scope has no counterpart. A call
-- that leaves a code in `code_out` returns its characters.
pub mod Decimal
pub mod Code
pub mod Window
pub mod Base32
use hiya.Base.{
  ℕ, zero, suc, ◌+◌, ◌-◌, ◌*◌, ◌/◌, ◌%◌, ◌^◌, ◌≤◌, ◌<◌, Bool, true, false, not, ◌&&◌, ◌||◌, List,
  [], ◌∷◌, ◌++◌, ◌≡◌, length, get_or, take, replicate, ltb, leb, ◌==◌, if◌then◌else◌, bit_and,
  bit_or, Option, none, some, All, IsByte, arith,
}
use hiya.Cbor.{u8, u32, shr, shl64}
use hiya.Pm.Errors.{PmError, invalid_param, crypto, unsupported, Result, done, fail, and_then}

-- `pm_otp_algorithm_t`.
pub data Algorithm : Type 0 where
  hotp totp : Algorithm

-- `pm_otp_digest_t`.
pub data Digest : Type 0 where
  sha1 sha256 sha512 : Digest

-- `pm_otp_params_t`. The length of the secret is `secret_len`.
pub record Params : Type 0 where
  pub algorithm : Algorithm
  pub digest : Digest
  pub secret : List ℕ
  pub digits : ℕ
  pub period : ℕ
  pub counter : ℕ

-- The bytes of a digest, as `otp_hmac` sets `*hmac_len`.
abbrev pub digest_size : Digest → ℕ
digest_size sha1 = 20
digest_size sha256 = 32
digest_size sha512 = 64

abbrev pub is_hotp : Algorithm → Bool
is_hotp hotp = true
is_hotp totp = false

-- The loop `divisor *= 10` on `uint32_t`.
unfoldable pub divisor_of : ℕ → ℕ
divisor_of zero = 1
divisor_of (suc digits) = u32 (divisor_of digits * 10)

-- `hotp_truncate`. The loop never gives the divisor 0, which only 32 digits and more would.
unfoldable pub hotp_truncate : List ℕ → ℕ → ℕ → Result ℕ
hotp_truncate hmac len digits =
    let offset = bit_and (get_or hmac (len - 1) 0) 0x0f in
    let code =
      bit_or
        (bit_or
          (bit_or (u32 (bit_and (get_or hmac offset 0) 0x7f * 2 ^ 24))
            (u32 (get_or hmac (offset + 1) 0 * 2 ^ 16)))
          (u32 (get_or hmac (offset + 2) 0 * 2 ^ 8)))
        (get_or hmac (offset + 3) 0) in
    if ltb len 20
    then fail invalid_param
    else if ltb len (offset + 4)
    then fail crypto
    else done (code % divisor_of digits)

-- The loop that fills `counter_bytes` from its last byte on.
unfoldable pub counter_loop : ℕ → ℕ → List ℕ → List ℕ
counter_loop zero counter bytes = bytes
counter_loop (suc i) counter bytes =
    counter_loop i (shr counter 8) (u8 (bit_and counter 0xff) ∷ bytes)

abbrev pub counter_bytes : ℕ → List ℕ
counter_bytes counter = counter_loop 8 counter []

-- `v` in `k` decimal digits.
abbrev pub fixed : ℕ → ℕ → List ℕ
fixed zero v = []
fixed (suc k) v = (48 + v / 10 ^ k % 10) ∷ fixed k v

-- `%u`, for a number below 10 ^ (k + 1).
unfoldable pub decimal : ℕ → ℕ → List ℕ
decimal zero v = fixed 1 v
decimal (suc k) v =
    let shorter = decimal k v in if ltb v (10 ^ suc k) then shorter else fixed (suc (suc k)) v

-- `snprintf(buf, size, "%0*u", width, v)`: the characters before the NUL. A `uint32_t` has at
-- most ten digits.
unfoldable pub print_padded : ℕ → ℕ → ℕ → List ℕ
print_padded size width v =
    let text = decimal 9 v in take (size - 1) (replicate (width - length text) 48 ++ text)

-- Of Mbed TLS: whether it has the digest, and the HMAC of a message under a key, if the call
-- returns 0.
pub record MessageDigests : Type 0 where
  pub has_digest : Digest → Bool
  pub hmac : Digest → List ℕ → List ℕ → Option (List ℕ)

abbrev hmac_result : Option (List ℕ) → Result (List ℕ)
hmac_result none = fail crypto
hmac_result (some bytes) = done bytes

-- `otp_hmac`.
unfoldable pub otp_hmac : MessageDigests → Params → ℕ → Result (List ℕ)
otp_hmac md params counter =
    if not (md.has_digest params.digest)
    then fail crypto
    else hmac_result (md.hmac params.digest params.secret (counter_bytes counter))

-- `pm_otp_hotp_generate`.
unfoldable pub hotp_generate : MessageDigests → Params → ℕ → Result (List ℕ)
hotp_generate md params code_size =
    if ltb code_size 9
    then fail invalid_param
    else if not (is_hotp params.algorithm)
    then fail invalid_param
    else if not (params.digits == 6) && not (params.digits == 8)
    then fail invalid_param
    else and_then (otp_hmac md params params.counter) λ mac.
      and_then (hotp_truncate mac (digest_size params.digest) params.digits)
        λ code. done (print_padded code_size params.digits code)

-- `pm_otp_totp_generate`. The time is the `uint64_t` that the cast makes of it.
unfoldable pub totp_generate : MessageDigests → Params → ℕ → ℕ → Result (List ℕ)
totp_generate md params current_time code_size =
    if ltb code_size 9
    then fail invalid_param
    else if is_hotp params.algorithm
    then fail invalid_param
    else if params.period == 0
    then fail invalid_param
    else hotp_generate md
        (record params { algorithm = hotp; counter = current_time / params.period }) code_size

-- `pm_otp_totp_remaining_seconds`.
unfoldable pub totp_remaining_seconds : ℕ → ℕ → ℕ
totp_remaining_seconds period current_time =
    if period == 0 then 0 else period - current_time % period
