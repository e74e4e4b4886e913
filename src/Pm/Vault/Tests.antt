-- ===== src/Pm/Vault/Tests.antt =====
-- A request with the default parameters, written and read with cryptographic calls that keep the text.
use hiya.Base.{
  ℕ, ◌-◌, ◌^◌, true, false, List, [], ◌∷◌, length, length-replicate, replicate, none, some, ◌≡◌,
  refl, ap, sym, arith,
}
use hiya.Pm.Errors.{format_version, done, fail}
use hiya.Pm.Vault.{
  CompositeMode, argon2_defaults, format_defaults, mode, argon2id_validate_params,
  composite_mode_from_enum, composite_mode_from_flags,
}
use hiya.Pm.Vault.KdfBlock.Roundtrip.{Fits}
use hiya.Pm.Vault.File.{
  Crypto, WriteRequest, parse_sized, crc32_bytes, crc_bytes, crc_bits, vault_serialize,
}
use hiya.Pm.Vault.File.Returned.{CryptoLaws, WellFormed, Opens, returned, vault_serialize-Opens}
use hiya.Pm.Vault.File.Live.{Works, vault_serialize-live}
use hiya.Pm.Vault.File.Authentic.{Authentic, vault_deserialize-Authentic}

-- The check value of CRC-32: the checksum of the text 123456789.
test_crc32 :
    crc32_bytes (b'1' ∷ b'2' ∷ b'3' ∷ b'4' ∷ b'5' ∷ b'6' ∷ b'7' ∷ b'8' ∷ b'9' ∷ []) ≡ 0xCBF43926
unfolding crc32_bytes crc_bytes crc_bits
test_crc32 = refl

-- Lengths whose sum wraps to the size of the file pass the check of the size.
test_wrapped : parse_sized (replicate 160 0) 0xFFFFFFF0 (2 ^ 64 - 0xFFFFFFF0) ≡ fail format_version
test_wrapped = refl

abbrev pub keeping : Crypto
keeping = record {
  init = true;
  random_bytes = λ place size. some (replicate size place);
  seal = λ key iv aad text. some (text, replicate 16 5);
  unseal = λ key iv aad ct tag. some ct;
  hkdf = λ salt key info. some salt;
  hmac = λ key bytes. some (replicate 32 9);
}

abbrev request : WriteRequest
request = record {
  params = format_defaults;
  master_key = replicate 32 1;
  payload = 1 ∷ 2 ∷ 3 ∷ [];
  salt = none;
  iv = some (replicate 12 4);
}

pub defaults-Fits : Fits format_defaults
defaults-Fits = record {
  t_cost = omega arith;
  m_cost_kib = omega arith;
  parallelism = omega arith;
  version = omega arith;
  composite_mode = omega arith;
}

pub keeping-Works : Works keeping
keeping-Works = record {
  init = refl;
  randoms = λ place size. (replicate size place, refl);
  seals = λ key iv aad text. ((text, replicate 16 5), refl);
  keys = λ salt key info. (salt, refl);
  macs = λ key bytes. (replicate 32 9, refl);
}

pub length-same : (n : ℕ) (xs ys : List ℕ) → length xs ≡ n → some xs ≡ some ys → length ys ≡ n
length-same n xs ys h e = cc

some-injective : {x y : List ℕ × List ℕ} → some x ≡ some y → x ≡ y
some-injective e = cc

pub keeping-CryptoLaws : CryptoLaws keeping
keeping-CryptoLaws = record {
  seals = λ key iv aad text ct tag h.
      let e = some-injective h in
      (ap (λ x. length x.0) (sym e), ap (λ x. length x.1) (sym e), ap (λ x. some x.0) (sym e));
  macs = λ key bytes mac h. length-same 32 (replicate 32 9) mac refl h;
  randoms = λ place size bytes h.
      length-same size (replicate size place) bytes (length-replicate size place) h;
}

request-WellFormed : WellFormed request
request-WellFormed = record {
  fits = defaults-Fits;
  flags = omega arith;
  file_sequence = omega arith;
  payload_size = omega arith;
  salt_size = λ salt e. cc;
  iv_size = λ iv e. length-same 12 (replicate 12 4) iv refl e;
}

abbrev pub default_mode : CompositeMode
default_mode = mode true false false false

pub written : (blob : List ℕ) × (vault_serialize keeping true true true request ≡ done blob)
unfolding composite_mode_from_enum composite_mode_from_flags argon2id_validate_params
written =
    vault_serialize-live keeping keeping-Works request argon2_defaults default_mode (omega arith)
      refl refl refl refl

vault_serialize-Opens_example : Opens keeping request written.0
vault_serialize-Opens_example =
    vault_serialize-Opens keeping true true true request written.0 keeping-CryptoLaws
      request-WellFormed written.1

opened : Opens keeping request written.0
opened =
    vault_serialize-Opens keeping true true true request written.0 keeping-CryptoLaws
      request-WellFormed written.1

vault_deserialize-Authentic_example :
    Authentic keeping (replicate 32 1) written.0 (returned request opened.0 opened.1 opened.2)
vault_deserialize-Authentic_example =
    vault_deserialize-Authentic keeping true (replicate 32 1) written.0
      (returned request opened.0 opened.1 opened.2) opened.3.3
