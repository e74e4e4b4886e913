-- ===== src/Pm/Vault/File/Live.antt =====
-- src/pm/pm_vault_format.c: when `pm_vault_serialize` returns a file.
use hiya.Base.{
  ℕ, ◌<◌, true, false, List, ◌++◌, length, ◌==◌, Option, none, some, ◌≡◌, refl, ap, ◌∙◌, arith,
}
use hiya.Pm.Errors.{crypto, done, and_then}
use hiya.Pm.Vault.{
  Argon2Params, CompositeMode, argon2id_validate_params, composite_mode_from_flags,
  composite_mode_from_enum, composite_modes_equal, composite_modes_equal_self,
}
use hiya.Pm.Vault.KdfBlock.{kdf_bytes, build_kdf_block}
use hiya.Pm.Vault.File.{
  Crypto, WriteRequest, or_error, given_or_random, sealed, serialize_block, vault_serialize,
  header_front, header_back, header_with, header_crc32, no_tag, hmac_info,
}

-- Each cryptographic call succeeds.
pub record Works (c : Crypto) : Type 0 where
  pub init : c.init ≡ true
  pub randoms : (place size : ℕ) → (bytes : List ℕ) × (c.random_bytes place size ≡ some bytes)
  pub seals :
      (key iv aad text : List ℕ) → (out : List ℕ × List ℕ) × (c.seal key iv aad text ≡ some out)
  pub keys : (salt key info : List ℕ) → (out : List ℕ) × (c.hkdf salt key info ≡ some out)
  pub macs : (key bytes : List ℕ) → (mac : List ℕ) × (c.hmac key bytes ≡ some mac)

nonzero : (n : ℕ) → 0 < n → (n == 0) ≡ false
nonzero n h = ground arith

one : (n : ℕ) → n ≡ 1 → (n == 1) ≡ true
one n h = ground arith

module _ (c : Crypto) (works : Works c) where
  given_or_random-done :
      (o : Option (List ℕ)) (place size : ℕ)
      → (bytes : List ℕ) × (given_or_random c o place size ≡ done bytes)
  given_or_random-done (some bytes) place size = (bytes, refl)
  given_or_random-done none place size =
      let (bytes, e) = works.randoms place size in (bytes, ap (or_error crypto) e)

  sealed-done :
      (req : WriteRequest) (block front back salt iv : List ℕ) (crc : ℕ)
      → (blob : List ℕ) × (sealed c true true req block front back crc salt iv ≡ done blob)
  sealed-done req block front back salt iv crc =
      let (out, e1) =
        works.seals req.master_key iv (header_with front back crc no_tag) req.payload in
      let (hmac_key, e2) = works.keys salt req.master_key hmac_info in
      let (mac, e3) = works.macs hmac_key (header_with front back crc out.1 ++ (block ++ out.0)) in
      (
        (header_with front back crc out.1 ++ (block ++ out.0)) ++ mac,
        rw (sealed, e1) (rw (and_then, e2) (rw e3 refl)),
      )

  -- Where each cryptographic call and each allocation succeeds, the payload is not empty, the
  -- major version is 1, pm_argon2id_validate_params accepts the parameters and the composite
  -- mode agrees with the flags, pm_vault_serialize returns a file.
  pub vault_serialize-live :
      (req : WriteRequest) (a : Argon2Params) (mode : CompositeMode)
      → 0 < length req.payload
      → req.params.version_major ≡ 1
      → argon2id_validate_params req.params.argon2 ≡ done a
      → composite_mode_from_enum req.params.composite_mode ≡ done mode
      → composite_mode_from_flags req.params.flags ≡ mode
      → (blob : List ℕ) × (vault_serialize c true true true req ≡ done blob)
  unfolding vault_serialize build_kdf_block
  vault_serialize-live req a mode full major argon2 by_enum by_flags =
      let (salt, e1) = given_or_random-done req.salt 0 32 in
      let (iv, e2) = given_or_random-done req.iv 1 12 in
      let back = header_back (length (kdf_bytes req.params)) (length req.payload) salt iv in
      let (blob, e3) =
        sealed-done req (kdf_bytes req.params) (header_front req.params) back salt iv
          (header_crc32 (header_with (header_front req.params) back 0 no_tag)) in
      let block : serialize_block c true true req (kdf_bytes req.params) ≡ done blob =
        rw (serialize_block, e1) (rw (and_then, e2) e3) in
      let filled : (length req.payload == 0) ≡ false = nonzero (length req.payload) full in
      let first : (req.params.version_major == 1) ≡ true = one (req.params.version_major) major in
      let agree : composite_modes_equal (composite_mode_from_flags req.params.flags) mode ≡ true =
        ap (λ m. composite_modes_equal m mode) by_flags ∙ composite_modes_equal_self mode in
      (blob, rw (filled, works.init, first, argon2) (rw (and_then, by_enum) (rw agree block)))
