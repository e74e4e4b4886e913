-- ===== src/Pm/Vault/File/Roundtrip.antt =====
-- src/pm/pm_vault_format.c: `pm_vault_deserialize` after `pm_vault_serialize`.
use hiya.Base.{
  ℕ, ◌+◌, ◌-◌, ◌%◌, ◌^◌, true, false, List, [], ◌∷◌, length, get_or, take, drop, ltb, ◌==◌, some,
  ◌≡◌, refl, arith,
}
use hiya.Pm.Errors.{done, and_then}
use hiya.Pm.Vault.{load16, load32, load64, composite_mode_from_flags}
use hiya.Pm.Vault.KdfBlock.{Metadata, parse_kdf_block_metadata}
use hiya.Pm.Vault.File.{
  Crypto, VaultMetadata, header_size, hmac_size, magic, hmac_info, bytes_equal, header_params,
  with_block, parse_sized, vault_parse_metadata, open_payload, header_crc32, authenticated_view,
}

pub bytes_equal_self : (xs : List ℕ) → bytes_equal xs xs ≡ true
bytes_equal_self [] = refl
bytes_equal_self (x ∷ xs) = ground (arith, bytes_equal_self xs)

module _ (blob : List ℕ) where
  -- The checks that a header passes.
  pub record Passes : Type 0 where
    pub long : ltb (length blob) (header_size + hmac_size) ≡ false
    pub is_magic : bytes_equal (take 8 blob) magic ≡ true
    pub is_size : (load16 (drop 0x0A blob) == header_size) ≡ true
    pub is_crc : (load32 (drop 0x18 blob) == header_crc32 (take header_size blob)) ≡ true
    pub is_argon2 : (load16 (drop 0x1C blob) == 1) ≡ true
    pub is_aes : (load16 (drop 0x1E blob) == 1) ≡ true
    pub is_cbor : (load16 (drop 0x20 blob) == 2) ≡ true
    pub is_aad : (load32 (drop 0x5C blob) == header_size) ≡ true

  pub parse_metadata-Passes :
      Passes
      → vault_parse_metadata blob
        ≡ parse_sized blob (load32 (drop 0x24 blob)) (load64 (drop 0x28 blob))
  unfolding vault_parse_metadata
  parse_metadata-Passes h =
      rw
        (
          vault_parse_metadata, h.long, h.is_magic, h.is_size, h.is_crc, h.is_argon2, h.is_aes,
          h.is_cbor, h.is_aad,
        )
        refl

  pub parse_sized-done :
      (kdf_len payload_len : ℕ) (m : Metadata)
      → ((header_size + kdf_len + payload_len + hmac_size) % 2 ^ 64 == length blob) ≡ true
      → (get_or blob 0x08 0 == 1) ≡ true
      → parse_kdf_block_metadata
          (take kdf_len (drop header_size blob))
          (header_params blob)
          (composite_mode_from_flags (load32 (drop 0x0C blob)))
        ≡ done m
      → parse_sized blob kdf_len payload_len ≡ done (with_block blob kdf_len payload_len m)
  parse_sized-done kdf_len payload_len m e1 e2 e3 =
      rw (parse_sized, e1, e2) (rw (and_then, e3) refl)

  -- The calls of `pm_vault_deserialize` after the metadata.
  pub open_payload-done :
      (c : Crypto) (key hmac_key mac payload : List ℕ) (meta : VaultMetadata)
      → c.hkdf (take 32 (drop 0x30 blob)) key hmac_info ≡ some hmac_key
      → c.hmac hmac_key (take (length blob - hmac_size) blob) ≡ some mac
      → take hmac_size (drop meta.payload_len (drop meta.kdf_block_len (drop header_size blob)))
        ≡ mac
      → c.unseal key
          (take 12 (drop 0x50 blob))
          (authenticated_view (take header_size blob))
          (take meta.payload_len (drop meta.kdf_block_len (drop header_size blob)))
          (take 16 (drop 0x60 blob))
        ≡ some payload
      → open_payload c true key blob meta
        ≡ done (record { params = meta.params; salt = meta.salt; iv = meta.iv; payload = payload })
  open_payload-done c key hmac_key mac payload meta e1 e2 e3 e4 =
      rw (open_payload, e1) (rw (and_then, e2) (rw (e3, bytes_equal_self mac) (rw e4 refl)))
