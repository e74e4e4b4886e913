-- ===== src/Pm/Vault/File.antt =====
-- src/pm/pm_vault_format.c: the vault file, `pm_vault_serialize`, `pm_vault_parse_metadata` and
-- `pm_vault_deserialize`. The calls of src/crypto are an argument; Booleans say which allocations
-- succeed.
pub mod Header
pub mod Roundtrip
pub mod Written
pub mod Returned
pub mod Live
pub mod Authentic
use Prim.Native.Nat.{bit_xor}
use hiya.Base.{
  ℕ, zero, suc, ◌+◌, ◌-◌, ◌/◌, ◌%◌, ◌^◌, Bool, true, false, not, ◌&&◌, ◌||◌, List, [], ◌∷◌, ◌++◌,
  length, replicate, get_or, take, drop, ltb, ◌==◌, if◌then◌else◌, Option, none, some,
}
use hiya.Pm.Errors.{
  PmError, invalid_param, nomem, crypto, kdf, format, format_magic, format_version,
  format_integrity, aead_tag, Result, done, fail, and_then,
}
use hiya.Pm.Vault.{
  CompositeMode, FormatParams, argon2_defaults, argon2id_validate_params, store16, store32, store64,
  load16, load32, load64, composite_mode_from_flags, composite_mode_from_enum,
  composite_modes_equal,
}
use hiya.Pm.Vault.KdfBlock.{Metadata, parse_kdf_block_metadata, build_kdf_block}

-- What the calls of src/crypto give; `none` is any status but BIO_OK.
pub record Crypto : Type 0 where
  -- `bio_crypto_init`
  pub init : Bool
  -- `bio_random_bytes`: the place of the call and the number of bytes.
  pub random_bytes : ℕ → ℕ → Option (List ℕ)
  -- `bio_aes256_gcm_seal`: key, nonce, associated data, text; ciphertext and tag.
  pub seal : List ℕ → List ℕ → List ℕ → List ℕ → Option (List ℕ × List ℕ)
  -- `bio_aes256_gcm_open`: key, nonce, associated data, ciphertext, tag.
  pub unseal : List ℕ → List ℕ → List ℕ → List ℕ → List ℕ → Option (List ℕ)
  -- `bio_hkdf_sha256`: salt, key, info.
  pub hkdf : List ℕ → List ℕ → List ℕ → Option (List ℕ)
  -- `bio_hmac_sha256`: key, data.
  pub hmac : List ℕ → List ℕ → Option (List ℕ)

abbrev pub header_size : ℕ
header_size = 128

abbrev pub hmac_size : ℕ
hmac_size = 32

abbrev pub magic : List ℕ
magic = 0x50 ∷ 0x4D ∷ 0x56 ∷ 0x4C ∷ 0x54 ∷ 0x00 ∷ 0x01 ∷ 0x00 ∷ []

abbrev pub hmac_info : List ℕ
hmac_info =
    b'P' ∷ b'M' ∷ b'V' ∷ b'L' ∷ b'T' ∷ b'-' ∷ b'H' ∷ b'M' ∷ b'A' ∷ b'C' ∷ b'-' ∷ b'v' ∷ b'1' ∷ []

-- One turn of the inner loop on a bit.
abbrev pub crc_bit : ℕ → ℕ
crc_bit crc = if crc % 2 == 1 then bit_xor (crc / 2) 0xEDB88320 else crc / 2

unfoldable pub crc_bits : ℕ → ℕ → ℕ
crc_bits zero crc = crc
crc_bits (suc b) crc = crc_bits b (crc_bit crc)

unfoldable pub crc_bytes : List ℕ → ℕ → ℕ
crc_bytes [] crc = crc
crc_bytes (x ∷ xs) crc = crc_bytes xs (crc_bits 8 (bit_xor crc x))

-- `crc32_bytes`
unfoldable pub crc32_bytes : List ℕ → ℕ
crc32_bytes bytes = bit_xor 0xFFFFFFFF (crc_bytes bytes 0xFFFFFFFF) % 2 ^ 32

-- `bytes` at the offset `k` of a buffer.
abbrev pub write_at : ℕ → List ℕ → List ℕ → List ℕ
write_at k bytes buffer = take k buffer ++ (bytes ++ drop (k + length bytes) buffer)

-- `header_prepare_authenticated_view`
abbrev pub authenticated_view : List ℕ → List ℕ
authenticated_view header = write_at 0x60 (replicate 16 0) header

-- `header_crc32_authenticated`
unfoldable pub header_crc32 : List ℕ → ℕ
header_crc32 header = crc32_bytes (write_at 0x18 (store32 0) (authenticated_view header))

-- `pm_vault_write_request_t`; a salt or a nonce that is not given is `none`.
pub record WriteRequest : Type 0 where
  pub params : FormatParams
  pub master_key : List ℕ
  pub payload : List ℕ
  pub salt : Option (List ℕ)
  pub iv : Option (List ℕ)

-- The header up to the checksum, in the order of the offsets.
unfoldable pub header_front : FormatParams → List ℕ
header_front p =
    magic
    ++ (p.version_major
        ∷ p.version_minor
        ∷ (store16 header_size ++ (store32 p.flags ++ store64 p.file_sequence)))

-- The header from the checksum to the tag.
unfoldable pub header_back : ℕ → ℕ → List ℕ → List ℕ → List ℕ
header_back kdf_len payload_len salt iv =
    store16 1
    ++ (store16 1
        ++ (store16 2
            ++ (store16 0
                ++ (store32 kdf_len
                    ++ (store64 payload_len ++ (salt ++ (iv ++ store32 header_size)))))))

-- The header with this checksum and tag.
abbrev pub header_with : List ℕ → List ℕ → ℕ → List ℕ → List ℕ
header_with front back crc tag = front ++ (store32 crc ++ (back ++ (tag ++ replicate 16 0)))

abbrev pub no_tag : List ℕ
no_tag = replicate 16 0

abbrev pub or_error {ℓ} : {A : Type ℓ} → PmError → Option A → Result A
or_error rc none = fail rc
or_error rc (some a) = done a

abbrev pub given_or_random : Crypto → Option (List ℕ) → ℕ → ℕ → Result (List ℕ)
given_or_random c (some bytes) place size = done bytes
given_or_random c none place size = or_error crypto (c.random_bytes place size)

-- `derive_hmac_key`
abbrev pub derive_hmac_key : Crypto → List ℕ → List ℕ → Result (List ℕ)
derive_hmac_key c master_key salt = or_error kdf (c.hkdf salt master_key hmac_info)

-- The file before its HMAC, and with it.
abbrev pub signed : Crypto → Bool → List ℕ → List ℕ → Result (List ℕ)
signed c room hmac_key body =
    if room
    then and_then (or_error crypto (c.hmac hmac_key body)) (λ mac. done (body ++ mac))
    else fail nomem

-- From the sealing on; `header` has a checksum and no tag yet.
abbrev pub sealed :
    Crypto
    → Bool
    → Bool
    → WriteRequest
    → List ℕ
    → List ℕ
    → List ℕ
    → ℕ
    → List ℕ
    → List ℕ
    → Result (List ℕ)
sealed c room_text room_blob req block front back crc salt iv =
    if room_text
    then and_then
        (or_error crypto (c.seal req.master_key iv (header_with front back crc no_tag) req.payload))
        (λ out. and_then (derive_hmac_key c req.master_key salt) (λ hmac_key.
          signed c room_blob hmac_key (header_with front back crc out.1 ++ (block ++ out.0))))
    else fail nomem

-- From the header on.
abbrev pub serialize_block : Crypto → Bool → Bool → WriteRequest → List ℕ → Result (List ℕ)
serialize_block c room_text room_blob req block =
    and_then (given_or_random c req.salt 0 32) (λ salt.
      and_then (given_or_random c req.iv 1 12) (λ iv.
        let front = header_front req.params in
        let back = header_back (length block) (length req.payload) salt iv in
        sealed c room_text room_blob req block front back
          (header_crc32 (header_with front back 0 no_tag)) salt iv))

-- `pm_vault_serialize`
unfoldable pub vault_serialize : Crypto → Bool → Bool → Bool → WriteRequest → Result (List ℕ)
vault_serialize c room_block room_text room_blob req =
    if length req.payload == 0
    then fail invalid_param
    else if not c.init
    then fail crypto
    else if not (req.params.version_major == 1)
    then fail format_version
    else and_then (argon2id_validate_params req.params.argon2) (λ a.
      and_then (composite_mode_from_enum req.params.composite_mode) (λ enum_mode.
        if composite_modes_equal (composite_mode_from_flags req.params.flags) enum_mode
        then and_then (build_kdf_block room_block req.params)
            (serialize_block c room_text room_blob req)
        else fail format))

abbrev pub bytes_equal : List ℕ → List ℕ → Bool
bytes_equal [] [] = true
bytes_equal (x ∷ xs) (y ∷ ys) = x == y && bytes_equal xs ys
bytes_equal xs ys = false

-- `pm_vault_metadata_t`
pub record VaultMetadata : Type 0 where
  pub params : FormatParams
  pub mode : CompositeMode
  pub kdf_block_len : ℕ
  pub payload_len : ℕ
  pub salt : List ℕ
  pub iv : List ℕ

-- The parameters that the header has.
abbrev pub header_params : List ℕ → FormatParams
header_params blob = record {
  version_major = get_or blob 0x08 0;
  version_minor = get_or blob 0x09 0;
  flags = load32 (drop 0x0C blob);
  file_sequence = load64 (drop 0x10 blob);
  argon2 = argon2_defaults;
  composite_mode = 0;
}

abbrev pub with_block : List ℕ → ℕ → ℕ → Metadata → VaultMetadata
with_block blob kdf_len payload_len m = record {
  params = m.params;
  mode = m.mode;
  kdf_block_len = kdf_len;
  payload_len = payload_len;
  salt = take 32 (drop 0x30 blob);
  iv = take 12 (drop 0x50 blob);
}

-- From the lengths on. Where the sum wraps, `kdf_len` reaches past the file, and the code reads there;
-- the model has no more than the bytes of the file.
abbrev pub parse_sized : List ℕ → ℕ → ℕ → Result VaultMetadata
parse_sized blob kdf_len payload_len =
    if not ((header_size + kdf_len + payload_len + hmac_size) % 2 ^ 64 == length blob)
    then fail format
    else if not (get_or blob 0x08 0 == 1)
    then fail format_version
    else and_then
        (parse_kdf_block_metadata (take kdf_len (drop header_size blob)) (header_params blob)
          (composite_mode_from_flags (load32 (drop 0x0C blob))))
        (λ m. done (with_block blob kdf_len payload_len m))

-- `pm_vault_parse_metadata`
unfoldable pub vault_parse_metadata : List ℕ → Result VaultMetadata
vault_parse_metadata blob =
    if ltb (length blob) (header_size + hmac_size)
    then fail format
    else if not (bytes_equal (take 8 blob) magic)
    then fail format_magic
    else if not (load16 (drop 0x0A blob) == header_size)
    then fail format_version
    else if not (load32 (drop 0x18 blob) == header_crc32 (take header_size blob))
    then fail format_integrity
    else if not (load16 (drop 0x1C blob) == 1)
        || (not (load16 (drop 0x1E blob) == 1) || not (load16 (drop 0x20 blob) == 2))
    then fail format_version
    else if not (load32 (drop 0x5C blob) == header_size)
    then fail format
    else parse_sized blob (load32 (drop 0x24 blob)) (load64 (drop 0x28 blob))

-- `pm_vault_read_result_t`
pub record ReadResult : Type 0 where
  pub params : FormatParams
  pub salt : List ℕ
  pub iv : List ℕ
  pub payload : List ℕ

-- From the metadata on.
abbrev pub open_payload : Crypto → Bool → List ℕ → List ℕ → VaultMetadata → Result ReadResult
open_payload c room master_key blob meta =
    let ciphertext = drop meta.kdf_block_len (drop header_size blob) in
    and_then (derive_hmac_key c master_key (take 32 (drop 0x30 blob))) (λ hmac_key.
      and_then (or_error crypto (c.hmac hmac_key (take (length blob - hmac_size) blob)))
        (λ expected.
          if not (bytes_equal expected (take hmac_size (drop meta.payload_len ciphertext)))
          then fail format_integrity
          else if not room
          then fail nomem
          else and_then
              (or_error aead_tag (
                c.unseal master_key (take 12 (drop 0x50 blob))
                  (authenticated_view (take header_size blob)) (take meta.payload_len ciphertext)
                  (take 16 (drop 0x60 blob))))
              (λ payload. done (record {
                params = meta.params;
                salt = meta.salt;
                iv = meta.iv;
                payload = payload;
              }))))

-- `pm_vault_deserialize`
unfoldable pub vault_deserialize : Crypto → Bool → List ℕ → List ℕ → Result ReadResult
vault_deserialize c room master_key blob =
    if c.init
    then and_then (vault_parse_metadata blob) (open_payload c room master_key blob)
    else fail crypto
