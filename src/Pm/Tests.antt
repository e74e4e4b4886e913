-- ===== src/Pm/Tests.antt =====
-- Concrete runs of the one-time passwords: the first value of RFC 4226, appendix D, with its HMAC
-- given, and a base32 text.
use hiya.Base.{
  ℕ, ◌+◌, ◌/◌, ◌%◌, ◌^◌, ◌≤◌, ◌<◌, ◌≡◌, refl, true, false, List, [], ◌∷◌, arith, none, some, inl,
}
use hiya.Pm.Errors.{done}
use hiya.Pm.Otp.{
  MessageDigests, Params, sha1, hotp, totp, hotp_generate, totp_generate, totp_remaining_seconds,
  fixed,
}
use hiya.Pm.Otp.Code.{truncation, hotp_generate-truncation}
use hiya.Pm.Otp.Window.{totp_generate-remaining}
use hiya.Pm.Otp.Base32.{base32_decode, decode_chars, decode_char, push, make_room, position}
use hiya.Pm.Otp.Base32.Symbol.{symbol_value, is_blank}
use hiya.Pm.Otp.Base32.Value.{symbols}
use hiya.Pm.Otp.Base32.Decode.{Spells, base32_decode-Spells}

-- HMAC-SHA-1 of the counter 0 under "12345678901234567890".
abbrev mac : List ℕ
mac =
    0xcc ∷ 0x93 ∷ 0xcf ∷ 0x18 ∷ 0x50 ∷ 0x8d ∷ 0x94 ∷ 0x93 ∷ 0x4c ∷ 0x64 ∷ 0xb6 ∷ 0x5d ∷ 0x8b ∷ 0xa7
    ∷ 0x66 ∷ 0x7f ∷ 0xb7 ∷ 0xcd ∷ 0xe4 ∷ 0xb0 ∷ []

abbrev digests : MessageDigests
digests = record { has_digest = λ d. true; hmac = λ d key message. some mac }

abbrev params : Params
params = record {
  algorithm = hotp;
  digest = sha1;
  secret = 49 ∷ 50 ∷ 51 ∷ [];
  digits = 6;
  period = 30;
  counter = 0;
}

hotp_generate-truncation_example :
    hotp_generate digests params 9 ≡ done (fixed 6 (truncation mac % 10 ^ 6))
hotp_generate-truncation_example =
    hotp_generate-truncation digests params 9 mac (omega arith) refl (inl refl) refl refl refl
      (omega arith)

-- "755224"
code_0 : fixed 6 (truncation mac % 10 ^ 6) ≡ 55 ∷ 53 ∷ 53 ∷ 50 ∷ 50 ∷ 52 ∷ []
code_0 = refl

totp_generate-remaining_example :
    (1 ≤ totp_remaining_seconds 30 59)
    × (totp_remaining_seconds 30 59 ≤ 30)
    × ((j : ℕ)
        → j < totp_remaining_seconds 30 59
        → totp_generate digests (record params { algorithm = totp }) (59 + j) 9
          ≡ totp_generate digests (record params { algorithm = totp }) 59 9)
    × ((59 + totp_remaining_seconds 30 59) / 30 ≡ 2)
totp_generate-remaining_example =
    totp_generate-remaining digests (record params { algorithm = totp }) 59 9 (omega arith)

-- "MZxw6yq=", which spells "foob".
abbrev text : List ℕ
text = 77 ∷ 90 ∷ 120 ∷ 119 ∷ 54 ∷ 121 ∷ 113 ∷ 61 ∷ []

base32_decode-Spells_example : Spells (symbols text) (base32_decode true false text)
base32_decode-Spells_example = base32_decode-Spells false text

-- "MZ xw", a line break, "6yq=".
abbrev blank_text : List ℕ
blank_text = 77 ∷ 90 ∷ 32 ∷ 120 ∷ 119 ∷ 13 ∷ 10 ∷ 54 ∷ 121 ∷ 113 ∷ 61 ∷ []

test_symbols : symbols blank_text ≡ some (12 ∷ 25 ∷ 23 ∷ 22 ∷ 30 ∷ 24 ∷ 16 ∷ [])
unfolding symbols symbol_value is_blank
test_symbols = refl

test_blank_text : base32_decode true false blank_text ≡ some (102 ∷ 111 ∷ 111 ∷ 98 ∷ [])
unfolding base32_decode decode_chars decode_char push make_room position
test_blank_text = refl

-- "M1", where '1' is no symbol.
test_no_symbol : base32_decode true false (77 ∷ 49 ∷ []) ≡ none
unfolding base32_decode decode_chars decode_char push make_room position
test_no_symbol = refl

base32_decode-text : base32_decode true false text ≡ some (102 ∷ 111 ∷ 111 ∷ 98 ∷ [])
unfolding base32_decode decode_chars decode_char push make_room position
base32_decode-text = refl
