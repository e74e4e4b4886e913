-- ===== src/Pm/Vault/File/Returned.antt =====
-- src/pm/pm_vault_format.c: `pm_vault_deserialize` on what `pm_vault_serialize` returns.
use hiya.Base.{
  ℕ, ◌^◌, ◌<◌, Bool, true, false, not, List, length, ◌==◌, Option, none, some, ◌≡◌, refl, ap, sym,
  ◌∙◌, arith,
}
use hiya.Pm.Errors.{
  PmError, nomem, crypto, done, done-injective, and_then-done, unless-done, when-done,
}
use hiya.Pm.Vault.{
  Argon2Params, CompositeMode, argon2id_validate_params, composite_mode_from_flags,
  composite_mode_from_enum, composite_modes_equal, composite_modes_equal→≡,
}
use hiya.Pm.Vault.KdfBlock.{kdf_bytes, build_kdf_block}
use hiya.Pm.Vault.KdfBlock.Roundtrip.{Fits}
use hiya.Pm.Vault.File.{
  Crypto, WriteRequest, ReadResult, or_error, given_or_random, sealed, serialize_block,
  vault_serialize, vault_deserialize, header_front, header_back, header_with, header_crc32, no_tag,
}
use hiya.Pm.Vault.File.Written.{Written, deserialize-Written}

-- What the documentation of the cryptographic calls says: opening undoes sealing under the same key,
-- nonce and associated data, and outputs have their sizes.
pub record CryptoLaws (c : Crypto) : Type 0 where
  pub seals :
      (key iv aad text ct tag : List ℕ)
      → c.seal key iv aad text ≡ some (ct, tag)
      → (length ct ≡ length text) × (length tag ≡ 16) × (c.unseal key iv aad ct tag ≡ some text)
  pub macs : (key bytes mac : List ℕ) → c.hmac key bytes ≡ some mac → length mac ≡ 32
  pub randoms :
      (place size : ℕ) (bytes : List ℕ)
      → c.random_bytes place size ≡ some bytes
      → length bytes ≡ size

-- The numbers of a request fit their C types, and a given salt or nonce its array.
pub record WellFormed (req : WriteRequest) : Type 0 where
  pub fits : Fits req.params
  pub flags : req.params.flags < 2 ^ 32
  pub file_sequence : req.params.file_sequence < 2 ^ 64
  pub payload_size : length req.payload < 2 ^ 63
  pub salt_size : (salt : List ℕ) → req.salt ≡ some salt → length salt ≡ 32
  pub iv_size : (iv : List ℕ) → req.iv ≡ some iv → length iv ≡ 12

pub or_error-done {ℓ} :
    {A : Type ℓ} (rc : PmError) (o : Option A) (a : A) → or_error rc o ≡ done a → o ≡ some a
or_error-done rc none a h = cc
or_error-done rc (some x) a h = cc

pub not-false : (b : Bool) → not b ≡ false → b ≡ true
not-false true h = refl
not-false false h = cc

version_one : (v : ℕ) → not (v == 1) ≡ false → v ≡ 1
version_one v h = ground arith

given_or_random-size :
    (c : Crypto) (o : Option (List ℕ)) (place size : ℕ) (bytes : List ℕ)
    → CryptoLaws c
    → ((s : List ℕ) → o ≡ some s → length s ≡ size)
    → given_or_random c o place size ≡ done bytes
    → length bytes ≡ size
given_or_random-size c (some s) place size bytes laws h e = h bytes (cc)
given_or_random-size c none place size bytes laws h e =
    laws.randoms place size bytes (or_error-done crypto (c.random_bytes place size) bytes e)

-- What `pm_vault_deserialize` gives back of a request, with these Argon2id parameters, salt and nonce.
abbrev pub returned : WriteRequest → Argon2Params → List ℕ → List ℕ → ReadResult
returned req a salt iv = record {
  params = record req.params { argon2 = a };
  salt = salt;
  iv = iv;
  payload = req.payload;
}

-- The file can be opened.
abbrev pub Opens : Crypto → WriteRequest → List ℕ → Type 0
Opens c req blob =
    (a : Argon2Params) × (salt : List ℕ) × (iv : List ℕ) × ((argon2id_validate_params
          req.params.argon2
        ≡ done a)
      × (given_or_random c req.salt 0 32 ≡ done salt)
      × (given_or_random c req.iv 1 12 ≡ done iv)
      × (vault_deserialize c true req.master_key blob ≡ done (returned req a salt iv)))

module _ (c : Crypto) (room_block room_text room_blob : Bool) (req : WriteRequest) (blob : List ℕ)
    (laws : CryptoLaws c) (good : WellFormed req) where
  sealed-Opens :
      (a : Argon2Params) (mode : CompositeMode) (salt iv : List ℕ)
      → c.init ≡ true
      → req.params.version_major ≡ 1
      → argon2id_validate_params req.params.argon2 ≡ done a
      → composite_mode_from_enum req.params.composite_mode ≡ done mode
      → composite_mode_from_flags req.params.flags ≡ mode
      → given_or_random c req.salt 0 32 ≡ done salt
      → given_or_random c req.iv 1 12 ≡ done iv
      → sealed c room_text room_blob req
          (kdf_bytes req.params)
          (header_front req.params)
          (header_back (length (kdf_bytes req.params)) (length req.payload) salt iv)
          (header_crc32 (
            header_with
              (header_front req.params)
              (header_back (length (kdf_bytes req.params)) (length req.payload) salt iv)
              0
              no_tag))
          salt
          iv
        ≡ done blob
      → Opens c req blob
  sealed-Opens a mode salt iv init major argon2 by_enum by_flags salt_given iv_given h =
      let (t1, h1) = when-done room_text _ _ blob h in
      let (out, h2) = and_then-done _ _ blob h1 in
      let (hmac_key, h3) = and_then-done _ _ blob h2.1 in
      let (t2, h4) = when-done room_blob _ _ blob h3.1 in
      let (mac, h5) = and_then-done _ _ blob h4 in
      let seal = or_error-done _ _ out h2.0 in
      let (ct_size, tag_size, unseals) = laws.seals _ _ _ _ out.0 out.1 seal in
      let signs = or_error-done _ _ mac h5.0 in
      let written : Written c req.params req.master_key req.payload salt iv out.0 out.1 hmac_key mac
          a mode =
        record {
          init = init;
          major = major;
          fits = good.fits;
          flags = good.flags;
          file_sequence = good.file_sequence;
          payload_size = good.payload_size;
          salt_size = given_or_random-size c req.salt 0 32 salt laws good.salt_size salt_given;
          iv_size = given_or_random-size c req.iv 1 12 iv laws good.iv_size iv_given;
          ct_size = ct_size;
          tag_size = tag_size;
          mac_size = laws.macs _ _ mac signs;
          by_enum = by_enum;
          by_flags = by_flags;
          argon2 = argon2;
          unseals = unseals;
          keys = or_error-done _ _ hmac_key h3.0;
          signs = signs;
        } in
      let read =
        deserialize-Written c req.params req.master_key req.payload salt iv out.0 out.1 hmac_key mac
          a mode written in
      (
        a,
        salt,
        iv,
        (
          argon2,
          salt_given,
          iv_given,
          ap (vault_deserialize c true req.master_key) (sym (done-injective h5.1)) ∙ read,
        ),
      )

  -- For a request whose numbers fit their C types, whose payload has less than 2^63 bytes and
  -- whose given salt and nonce have 32 and 12 bytes, and for cryptographic calls where opening
  -- undoes sealing and outputs have their sizes, a file that pm_vault_serialize returns is
  -- opened by pm_vault_deserialize with memory enough and the same master key: it gives the
  -- payload, the salt and nonce that were given or drawn, and the parameters with the defaults
  -- of pm_argon2id_validate_params in place of zeros.
  pub vault_serialize-Opens :
      vault_serialize c room_block room_text room_blob req ≡ done blob → Opens c req blob
  unfolding vault_serialize build_kdf_block
  vault_serialize-Opens h =
      let (t1, h1) = unless-done (length req.payload == 0) _ _ blob h in
      let (t2, h2) = unless-done (not c.init) _ _ blob h1 in
      let (t3, h3) = unless-done (not (req.params.version_major == 1)) _ _ blob h2 in
      let (a, h4) = and_then-done (argon2id_validate_params req.params.argon2) _ blob h3 in
      let (mode, h5) =
        and_then-done (composite_mode_from_enum req.params.composite_mode) _ blob h4.1 in
      let (t4, h6) =
        when-done (composite_modes_equal (composite_mode_from_flags req.params.flags) mode) _ _ blob
          h5.1 in
      let (block, h7) =
        and_then-done (build_kdf_block room_block req.params)
          (serialize_block c room_text room_blob req) blob h6 in
      let (t5, h8) = when-done room_block nomem (done (kdf_bytes req.params)) block h7.0 in
      let written : serialize_block c room_text room_blob req (kdf_bytes req.params) ≡ done blob =
        ap (serialize_block c room_text room_blob req) (done-injective h8) ∙ h7.1 in
      let (salt, h9) = and_then-done (given_or_random c req.salt 0 32) _ blob written in
      let (iv, h10) = and_then-done (given_or_random c req.iv 1 12) _ blob h9.1 in
      sealed-Opens a mode salt iv (not-false c.init t2) (version_one req.params.version_major t3)
        h4.0 h5.0 (composite_modes_equal→≡ _ _ t4) h9.0 h10.0 h10.1
