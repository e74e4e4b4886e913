-- ===== src/Pm/Vault/File/Written.antt =====
-- src/pm/pm_vault_format.c: `pm_vault_deserialize` on a file of the form that `pm_vault_serialize`
-- writes.
use hiya.Base.{
  ℕ, ◌+◌, ◌-◌, ◌^◌, ◌<◌, true, List, ◌++◌, append_assoc, length, length-append, get_or, take, drop,
  take-append, take-length, drop-append, ◌==◌, some, ◌≡◌, refl, ap, sym, ◌∙◌, arith,
}
use hiya.Pm.Errors.{done, and_then}
use hiya.Pm.Vault.{
  Argon2Params, CompositeMode, FormatParams, argon2id_validate_params, argon2_defaults, load32,
  composite_mode_from_flags, composite_mode_from_enum, store16, store32,
}
use hiya.Pm.Vault.KdfBlock.{Metadata, parse_kdf_block_metadata, kdf_bytes, tlv32, tlv16}
use hiya.Pm.Vault.KdfBlock.Roundtrip.{Fits, parse_kdf_block_metadata-build}
use hiya.Pm.Vault.File.{
  Crypto, ReadResult, header_size, hmac_size, magic, hmac_info, bytes_equal, header_params,
  with_block, parse_sized, vault_parse_metadata, open_payload, vault_deserialize, header_crc32,
  crc32_bytes, authenticated_view, header_front, header_back, header_with, no_tag,
}
use hiya.Pm.Vault.File.Header
use hiya.Pm.Vault.File.Roundtrip.{
  Passes, parse_metadata-Passes, parse_sized-done, open_payload-done,
}

-- The header is of this size however the text is.
kdf_bytes-length : (p : FormatParams) → length (kdf_bytes p) ≡ 78
unfolding kdf_bytes tlv32 tlv16 store16 store32
kdf_bytes-length p = refl

header_crc32-bound : (h : List ℕ) → header_crc32 h < 2 ^ 32
unfolding header_crc32 crc32_bytes
header_crc32-bound h = omega arith

==-true : (a b : ℕ) → a ≡ b → (a == b) ≡ true
==-true a b e = ground arith

module _ (c : Crypto) (p : FormatParams) (key payload salt iv ct tag hmac_key mac : List ℕ)
    (a : Argon2Params) (mode : CompositeMode) where
  abbrev front : List ℕ
  front = header_front p

  abbrev back : List ℕ
  back = header_back (length (kdf_bytes p)) (length payload) salt iv

  abbrev crc : ℕ
  crc = header_crc32 (header_with front back 0 no_tag)

  abbrev pub body : List ℕ
  body = header_with front back crc tag ++ (kdf_bytes p ++ ct)

  -- What the parts of a file are.
  pub record Written : Type 0 where
    pub init : c.init ≡ true
    pub major : p.version_major ≡ 1
    pub fits : Fits p
    pub flags : p.flags < 2 ^ 32
    pub file_sequence : p.file_sequence < 2 ^ 64
    pub payload_size : length payload < 2 ^ 63
    pub salt_size : length salt ≡ 32
    pub iv_size : length iv ≡ 12
    pub ct_size : length ct ≡ length payload
    pub tag_size : length tag ≡ 16
    pub mac_size : length mac ≡ 32
    pub by_enum : composite_mode_from_enum p.composite_mode ≡ done mode
    pub by_flags : composite_mode_from_flags p.flags ≡ mode
    pub argon2 : argon2id_validate_params p.argon2 ≡ done a
    pub unseals : c.unseal key iv (header_with front back crc no_tag) ct tag ≡ some payload
    pub keys : c.hkdf salt key hmac_info ≡ some hmac_key
    pub signs : c.hmac hmac_key body ≡ some mac

  module _ (w : Written) where
    abbrev rest : List ℕ
    rest = kdf_bytes p ++ (ct ++ mac)

    abbrev blob : List ℕ
    blob = header_with front back crc tag ++ rest

    blob-body : body ++ mac ≡ blob
    blob-body =
        append_assoc (header_with front back crc tag) (kdf_bytes p ++ ct) mac
        ∙ ap (λ t. header_with front back crc tag ++ t) (append_assoc (kdf_bytes p) ct mac)

    blob-length : length blob ≡ 128 + 78 + length payload + 32
    blob-length = omega (
      arith,
      length-append (header_with front back crc tag) rest,
      Header.header-length p (length (kdf_bytes p)) (length payload) salt iv w.salt_size w.iv_size
          crc tag w.tag_size,
      length-append (kdf_bytes p) (ct ++ mac),
      length-append ct mac,
      kdf_bytes-length p,
      w.ct_size,
      w.mac_size,
    )

    abbrev k : ℕ
    k = length (kdf_bytes p)

    abbrev n : ℕ
    n = length payload

    passes : Passes blob
    passes =
        let algorithms =
          Header.algorithms-read p k n salt iv w.salt_size w.iv_size crc tag w.tag_size rest in
        record {
          long = ground (arith, blob-length);
          is_magic =
              ap (λ t. bytes_equal t magic)
                (Header.magic-read p k n salt iv w.salt_size w.iv_size crc tag w.tag_size rest);
          is_size =
              ==-true _ _
                (Header.size-read p k n salt iv w.salt_size w.iv_size crc tag w.tag_size rest);
          is_crc = ==-true _ _ (
              Header.crc-read p k n salt iv w.salt_size w.iv_size crc tag w.tag_size rest
                (header_crc32-bound _)
              ∙ sym (
                  ap header_crc32
                    (Header.header-read p k n salt iv w.salt_size w.iv_size crc tag w.tag_size rest)
                  ∙ Header.header_crc32-header p k n salt iv w.salt_size w.iv_size crc tag
                      w.tag_size));
          is_argon2 = ==-true _ _ algorithms.0;
          is_aes = ==-true _ _ algorithms.1;
          is_cbor = ==-true _ _ algorithms.2;
          is_aad =
              ==-true _ _
                (Header.aad-read p k n salt iv w.salt_size w.iv_size crc tag w.tag_size rest);
        }

    block-read : take k (drop header_size blob) ≡ kdf_bytes p
    block-read =
        ap (take k) (Header.rest-read p k n salt iv w.salt_size w.iv_size crc tag w.tag_size rest)
        ∙ take-append (kdf_bytes p) (ct ++ mac)

    major-read : get_or blob 0x08 0 ≡ p.version_major
    unfolding header_front
    major-read = refl

    minor-read : get_or blob 0x09 0 ≡ p.version_minor
    unfolding header_front
    minor-read = refl

    flags-read : load32 (drop 0x0C blob) ≡ p.flags
    flags-read =
        Header.flags-read p k n salt iv w.salt_size w.iv_size crc tag w.tag_size rest w.flags

    -- What the header says of the parameters.
    abbrev from_header : FormatParams
    from_header = record p { argon2 = argon2_defaults; composite_mode = 0 }

    header_params-read : header_params blob ≡ from_header
    header_params-read = λ i. record {
      version_major = major-read i;
      version_minor = minor-read i;
      flags = flags-read i;
      file_sequence =
          Header.sequence-read p k n salt iv w.salt_size w.iv_size crc tag w.tag_size rest
            w.file_sequence i;
      argon2 = argon2_defaults;
      composite_mode = 0;
    }

    abbrev read_block : Metadata
    read_block = record { params = record p { argon2 = a }; have_mode = true; mode = mode }

    parsed :
        parse_kdf_block_metadata
          (take k (drop header_size blob))
          (header_params blob)
          (composite_mode_from_flags (load32 (drop 0x0C blob)))
        ≡ done read_block
    parsed =
        (λ i.
          parse_kdf_block_metadata (block-read i) (header_params-read i)
            (composite_mode_from_flags (flags-read i)))
        ∙ parse_kdf_block_metadata-build p from_header mode (composite_mode_from_flags p.flags) a
            w.fits w.by_enum w.by_flags w.argon2

    metadata : vault_parse_metadata blob ≡ done (with_block blob k n read_block)
    metadata =
        parse_metadata-Passes blob passes
        ∙ ((λ i.
              parse_sized blob
                (Header.kdf_len-read p k n salt iv w.salt_size w.iv_size crc tag w.tag_size rest
                  (omega (arith, kdf_bytes-length p)) i)
                (Header.payload_len-read p k n salt iv w.salt_size w.iv_size crc tag w.tag_size rest
                  (omega (arith, w.payload_size)) i))
            ∙ parse_sized-done blob k n read_block
                (==-true _ _ (omega (arith, blob-length, kdf_bytes-length p, w.payload_size)))
                (==-true _ _ (major-read ∙ w.major)) parsed)

    after_block : drop k (drop header_size blob) ≡ ct ++ mac
    after_block =
        ap (drop k) (Header.rest-read p k n salt iv w.salt_size w.iv_size crc tag w.tag_size rest)
        ∙ drop-append (kdf_bytes p) (ct ++ mac)

    mac-read : take hmac_size (drop n (drop k (drop header_size blob))) ≡ mac
    mac-read =
        ap (λ t. take hmac_size (drop n t)) after_block
        ∙ (ap (take hmac_size) (Header.drop-prefix n ct mac w.ct_size)
            ∙ (ap (λ s. take s mac) (sym w.mac_size) ∙ take-length mac))

    body-read : take (length blob - hmac_size) blob ≡ body
    body-read =
        ap (take (length blob - hmac_size)) (sym blob-body)
        ∙ Header.take-prefix (length blob - hmac_size) body mac
            (omega (arith, length-append body mac, ap length blob-body, w.mac_size))

    abbrev result : ReadResult
    result = record { params = record p { argon2 = a }; salt = salt; iv = iv; payload = payload }

    opened : open_payload c true key blob (with_block blob k n read_block) ≡ done result
    opened =
        let salt-read =
          Header.salt-read p k n salt iv w.salt_size w.iv_size crc tag w.tag_size rest in
        let iv-read = Header.iv-read p k n salt iv w.salt_size w.iv_size crc tag w.tag_size rest in
        let tag-read =
          Header.tag-read p k n salt iv w.salt_size w.iv_size crc tag w.tag_size rest in
        let view : authenticated_view (take header_size blob) ≡ header_with front back crc no_tag =
          ap authenticated_view
            (Header.header-read p k n salt iv w.salt_size w.iv_size crc tag w.tag_size rest)
          ∙ Header.authenticated_view-header p k n salt iv w.salt_size w.iv_size crc tag
              w.tag_size in
        let text = ap (take n) after_block ∙ Header.take-prefix n ct mac w.ct_size in
        open_payload-done blob c key hmac_key mac payload (with_block blob k n read_block)
          (ap (λ s. c.hkdf s key hmac_info) salt-read ∙ w.keys)
          (ap (c.hmac hmac_key) body-read ∙ w.signs) mac-read
          ((λ i. c.unseal key (iv-read i) (view i) (text i) (tag-read i)) ∙ w.unseals)
        ∙ (λ i. done (record {
          params = record p { argon2 = a };
          salt = salt-read i;
          iv = iv-read i;
          payload = payload;
        }))

    pub deserialize-Written : vault_deserialize c true key (body ++ mac) ≡ done result
    unfolding vault_deserialize
    deserialize-Written =
        ap (vault_deserialize c true key) blob-body
        ∙ rw (vault_deserialize, w.init) (rw (and_then, metadata) opened)
