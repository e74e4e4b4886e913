-- ===== src/Pm/Vault/File/Authentic.antt =====
-- src/pm/pm_vault_format.c, `pm_vault_deserialize`: what is known of a file that is opened.
use hiya.Base.{
  ℕ, ◌-◌, Bool, true, not, List, [], ◌∷◌, length, take, drop, some, ◌≡◌, refl, ap, sym, ◌∙◌, arith,
}
use hiya.Pm.Errors.{
  kdf, crypto, aead_tag, done, and_then, done-injective, and_then-done, unless-done, when-done,
}
use hiya.Pm.Vault.File.{
  Crypto, VaultMetadata, ReadResult, header_size, hmac_size, hmac_info, bytes_equal,
  authenticated_view, or_error, derive_hmac_key, vault_parse_metadata, open_payload,
  vault_deserialize,
}
use hiya.Pm.Vault.File.Returned.{or_error-done, not-false}

bytes_equal→≡ : (xs ys : List ℕ) → bytes_equal xs ys ≡ true → xs ≡ ys
bytes_equal→≡ [] [] h = refl
bytes_equal→≡ [] (y ∷ ys) h = cc
bytes_equal→≡ (x ∷ xs) [] h = cc
bytes_equal→≡ (x ∷ xs) (y ∷ ys) h =
    let e : x ≡ y = ground arith in
    ap (λ z. z ∷ xs) e ∙ ap (◌∷◌ y) (bytes_equal→≡ xs ys (ground arith))

-- The 32 bytes after the ciphertext.
abbrev pub tail_mac : List ℕ → VaultMetadata → List ℕ
tail_mac blob meta =
    take hmac_size (drop meta.payload_len (drop meta.kdf_block_len (drop header_size blob)))

-- A file whose bytes carry the HMAC under the key that comes from the master key and the salt in the
-- file, and whose ciphertext opens to the payload with the header as associated data.
pub record Authentic (c : Crypto) (key blob : List ℕ) (r : ReadResult) : Type 0 where
  pub meta : VaultMetadata
  pub hmac_key : List ℕ
  pub parses : vault_parse_metadata blob ≡ done meta
  pub keys : c.hkdf (take 32 (drop 0x30 blob)) key hmac_info ≡ some hmac_key
  pub signs : c.hmac hmac_key (take (length blob - hmac_size) blob) ≡ some (tail_mac blob meta)
  pub opens :
      c.unseal key
        (take 12 (drop 0x50 blob))
        (authenticated_view (take header_size blob))
        (take meta.payload_len (drop meta.kdf_block_len (drop header_size blob)))
        (take 16 (drop 0x60 blob))
      ≡ some r.payload
  pub same_params : r.params ≡ meta.params

-- Whatever the cryptographic calls are, a file that pm_vault_deserialize opens passes
-- pm_vault_parse_metadata, the 32 bytes after its ciphertext are the HMAC of all of the file
-- but its last 32 bytes, under the key derived from the master key and the salt in the file,
-- and its ciphertext opens to the payload with the header, less the tag, as associated data.
pub vault_deserialize-Authentic :
    (c : Crypto) (room : Bool) (key blob : List ℕ) (r : ReadResult)
    → vault_deserialize c room key blob ≡ done r
    → Authentic c key blob r
unfolding vault_deserialize
vault_deserialize-Authentic c room key blob r h =
    let (t, h1) =
      when-done c.init crypto (and_then (vault_parse_metadata blob) (open_payload c room key blob))
        r h in
    let (meta, h2) =
      and_then-done (vault_parse_metadata blob) (open_payload c room key blob) r h1 in
    let (hmac_key, h3) =
      and_then-done (derive_hmac_key c key (take 32 (drop 0x30 blob))) _ r h2.1 in
    let (expected, h4) =
      and_then-done (or_error crypto (c.hmac hmac_key (take (length blob - hmac_size) blob))) _ r
        h3.1 in
    let (equal, h5) = unless-done (not (bytes_equal expected (tail_mac blob meta))) _ _ r h4.1 in
    let (t2, h6) = unless-done (not room) _ _ r h5 in
    let (payload, h7) = and_then-done (or_error aead_tag _) _ r h6 in
    let shown = done-injective h7.1 in
    record {
      meta = meta;
      hmac_key = hmac_key;
      parses = h2.0;
      keys = or_error-done kdf _ hmac_key h3.0;
      signs =
          or_error-done crypto _ expected h4.0
          ∙ ap some (bytes_equal→≡ expected (tail_mac blob meta) (not-false _ equal));
      opens = or_error-done aead_tag _ payload h7.0 ∙ ap (λ x. some x.payload) shown;
      same_params = ap (λ x. x.params) (sym shown);
    }
