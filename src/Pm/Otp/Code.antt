-- ===== src/Pm/Otp/Code.antt =====
-- `pm_otp_hotp_generate` of src/pm/pm_otp.c against RFC 4226 in plain arithmetic.
use hiya.Base.{
  ℕ, zero, suc, ◌+◌, ◌-◌, ◌*◌, ◌%◌, ◌^◌, ◌≤◌, ◌<◌, ◌≡◌, sym, ap, ◌∙◌, true, List, [], ◌∷◌, length,
  get_or, arith, All, IsByte, some, ◌⊎◌, inl, inr, low_four, low_seven, low_eight,
}
use hiya.Cbor.Head.{be}
use hiya.Cbor.Decoder.{be32_of}
use hiya.Cbor.Decoder.Read.{be32_of-be}
use hiya.Pm.Errors.{done}
use hiya.Pm.Otp.{
  MessageDigests, Params, Digest, sha1, sha256, sha512, hotp, digest_size, counter_bytes,
  counter_loop, hotp_truncate, divisor_of, otp_hmac, hotp_generate, fixed,
}
use hiya.Pm.Otp.Decimal.{print-six, print-eight}

-- The dynamic truncation of RFC 4226 §5.3: 31 bits from the offset that the last byte names.
abbrev pub truncation : List ℕ → ℕ
truncation mac =
    let o = get_or mac (length mac - 1) 0 % 16 in
    get_or mac o 0 % 128 * 2 ^ 24
    + get_or mac (o + 1) 0 * 2 ^ 16
    + get_or mac (o + 2) 0 * 2 ^ 8
    + get_or mac (o + 3) 0

get_or-IsByte : (xs : List ℕ) (i : ℕ) → All IsByte xs → get_or xs i 0 < 256
get_or-IsByte [] i h = omega arith
get_or-IsByte (x ∷ xs) zero h = h.0
get_or-IsByte (x ∷ xs) (suc i) h = get_or-IsByte xs i h.1

four_bytes :
    (a b c d : ℕ)
    → a < 256
    → b < 256
    → c < 256
    → d < 256
    → be32_of (a ∷ b ∷ c ∷ d ∷ []) ≡ a * 2 ^ 24 + b * 2 ^ 16 + c * 2 ^ 8 + d
four_bytes a b c d h i j k =
    let v = a * 2 ^ 24 + b * 2 ^ 16 + c * 2 ^ 8 + d in
    let bytes : be 4 v ≡ a ∷ b ∷ c ∷ d ∷ [] = ground arith in
    ap be32_of (sym bytes) ∙ be32_of-be v (omega arith)

counter_bytes-be : (c : ℕ) → counter_bytes c ≡ be 8 c
unfolding counter_loop
counter_bytes-be c = simp low_eight (ground arith)

length-mac : (d : Digest) → 20 ≤ digest_size d
length-mac sha1 = omega arith
length-mac sha256 = omega arith
length-mac sha512 = omega arith

-- `hotp_truncate` on an HMAC of at least 20 bytes.
hotp_truncate-truncation :
    (mac : List ℕ) (len digits : ℕ)
    → len ≡ length mac
    → 20 ≤ len
    → All IsByte mac
    → hotp_truncate mac len digits ≡ done (truncation mac % divisor_of digits)
unfolding hotp_truncate be32_of
hotp_truncate-truncation mac len digits e l h =
    let o = get_or mac (length mac - 1) 0 % 16 in
    let byte : (i : ℕ) → get_or mac i 0 < 256 = (λ i. get_or-IsByte mac i h) in
    rw
      (
        e,
        low_four (get_or mac (length mac - 1) 0),
        low_seven (get_or mac o 0),
        four_bytes (get_or mac o 0 % 128) (get_or mac (o + 1) 0) (get_or mac (o + 2) 0)
            (get_or mac (o + 3) 0) (omega (arith, byte o)) (byte (o + 1)) (byte (o + 2))
            (byte (o + 3)),
      )
      (ground arith)

otp_hmac-mac :
    (md : MessageDigests) (params : Params) (c : ℕ) (mac : List ℕ)
    → md.has_digest params.digest ≡ true
    → md.hmac params.digest params.secret (be 8 c) ≡ some mac
    → otp_hmac md params c ≡ done mac
unfolding otp_hmac
otp_hmac-mac md params c mac h e = rw (h, counter_bytes-be c, e)

-- For HOTP parameters with 6 or 8 digits, a code buffer of at least 9 characters, a digest that
-- exists, and an HMAC of the digest's length over the eight bytes of the counter, most
-- significant first, `pm_otp_hotp_generate` succeeds, and its text is the truncation of RFC
-- 4226 modulo 10 ^ digits in exactly that many decimal digits.
pub hotp_generate-truncation :
    (md : MessageDigests) (params : Params) (size : ℕ) (mac : List ℕ)
    → 9 ≤ size
    → params.algorithm ≡ hotp
    → (params.digits ≡ 6) ⊎ (params.digits ≡ 8)
    → md.has_digest params.digest ≡ true
    → md.hmac params.digest params.secret (be 8 params.counter) ≡ some mac
    → length mac ≡ digest_size params.digest
    → All IsByte mac
    → hotp_generate md params size
      ≡ done (fixed params.digits (truncation mac % 10 ^ params.digits))
unfolding hotp_generate divisor_of
hotp_generate-truncation md params size mac l a (inl six) h e n b =
    let v = truncation mac % 10 ^ 6 in
    let mac_done = otp_hmac-mac md params params.counter mac h e in
    let code =
      hotp_truncate-truncation mac (digest_size params.digest) 6 (sym n) (length-mac params.digest)
        b in
    rw (mac_done, a, six, code, print-six size v l (omega arith)) (ground arith)
hotp_generate-truncation md params size mac l a (inr eight) h e n b =
    let v = truncation mac % 10 ^ 8 in
    let mac_done = otp_hmac-mac md params params.counter mac h e in
    let code =
      hotp_truncate-truncation mac (digest_size params.digest) 8 (sym n) (length-mac params.digest)
        b in
    rw (mac_done, a, eight, code, print-eight size v l (omega arith)) (ground arith)
