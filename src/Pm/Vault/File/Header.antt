-- ===== src/Pm/Vault/File/Header.antt =====
-- src/pm/pm_vault_format.c: what is read back from the header of a vault file.
use hiya.Base.{
  ℕ, ◌+◌, ◌^◌, ◌<◌, List, ◌++◌, append_assoc, length, length-append, take, drop, drop-drop,
  take-append, drop-append, ◌≡◌, refl, ap, sym, ◌∙◌, arith,
}
use hiya.Pm.Vault.{
  FormatParams, store16, store32, store64, load16, load32, load64, load16-store16, load32-store32,
  load64-store64,
}
use hiya.Pm.Vault.File.{
  header_size, magic, write_at, authenticated_view, header_crc32, crc32_bytes, header_front,
  header_back, header_with, no_tag,
}

pub drop-prefix : (n : ℕ) (xs ys : List ℕ) → length xs ≡ n → drop n (xs ++ ys) ≡ ys
drop-prefix n xs ys e = ap (λ k. drop k (xs ++ ys)) (sym e) ∙ drop-append xs ys

pub take-prefix : (n : ℕ) (xs ys : List ℕ) → length xs ≡ n → take n (xs ++ ys) ≡ xs
take-prefix n xs ys e = ap (λ k. take k (xs ++ ys)) (sym e) ∙ take-append xs ys

-- A write over as many bytes.
write_at-middle :
    (k : ℕ) (front old bytes rest : List ℕ)
    → length front ≡ k
    → length old ≡ length bytes
    → write_at k bytes (front ++ (old ++ rest)) ≡ front ++ (bytes ++ rest)
write_at-middle k front old bytes rest e f =
    let a = take-prefix k front (old ++ rest) e in
    let b : drop (k + length bytes) (front ++ (old ++ rest)) ≡ rest =
      sym (drop-drop k (length bytes) (front ++ (old ++ rest)))
      ∙ (ap (drop (length bytes)) (drop-prefix k front (old ++ rest) e)
          ∙ drop-prefix (length bytes) old rest f) in
    λ i. a i ++ (bytes ++ b i)

regroup :
    (a b c d e r : List ℕ) → ((a ++ (b ++ c)) ++ (d ++ e)) ++ r ≡ a ++ (b ++ (c ++ (d ++ (e ++ r))))
regroup a b c d e r =
    rw
      (
        append_assoc (a ++ (b ++ c)) (d ++ e) r,
        append_assoc a (b ++ c) ((d ++ e) ++ r),
        append_assoc b c ((d ++ e) ++ r),
        append_assoc d e r,
      )
      refl

module _ (p : FormatParams) (kdf_len payload_len : ℕ) (salt iv : List ℕ)
    (salt_size : length salt ≡ 32) (iv_size : length iv ≡ 12) where
  front-length : length (header_front p) ≡ 0x18
  unfolding header_front store16 store32 store64
  front-length = refl

  back-length : length (header_back kdf_len payload_len salt iv) ≡ 0x44
  unfolding header_back store16 store32 store64
  back-length = omega (
    arith,
    length-append salt (iv ++ store32 header_size),
    length-append iv (store32 header_size),
    salt_size,
    iv_size,
  )

  abbrev header : ℕ → List ℕ → List ℕ
  header crc tag = header_with (header_front p) (header_back kdf_len payload_len salt iv) crc tag

  store32-length : (crc : ℕ) → length (store32 crc) ≡ 4
  unfolding store32
  store32-length crc = refl

  to_tag : ℕ → List ℕ
  to_tag crc = header_front p ++ (store32 crc ++ header_back kdf_len payload_len salt iv)

  header-to_tag : (crc : ℕ) (tag : List ℕ) → header crc tag ≡ to_tag crc ++ (tag ++ no_tag)
  unfolding to_tag
  header-to_tag crc tag = sym (
      append_assoc (header_front p) (store32 crc ++ header_back kdf_len payload_len salt iv)
        (tag ++ no_tag)
      ∙ ap (◌++◌ (header_front p))
          (append_assoc (store32 crc) (header_back kdf_len payload_len salt iv) (tag ++ no_tag)))

  to_tag-length : (crc : ℕ) → length (to_tag crc) ≡ 0x60
  unfolding to_tag
  to_tag-length crc = omega (
    arith,
    length-append (header_front p) (store32 crc ++ header_back kdf_len payload_len salt iv),
    length-append (store32 crc) (header_back kdf_len payload_len salt iv),
    front-length,
    back-length,
    store32-length crc,
  )

  -- The tag is not authenticated by the seal.
  pub authenticated_view-header :
      (crc : ℕ) (tag : List ℕ)
      → length tag ≡ 16
      → authenticated_view (header crc tag) ≡ header crc no_tag
  authenticated_view-header crc tag e =
      ap authenticated_view (header-to_tag crc tag)
      ∙ (write_at-middle 0x60 (to_tag crc) tag no_tag no_tag (to_tag-length crc) e
          ∙ sym (header-to_tag crc no_tag))

  plain :
      (crc : ℕ) (tag : List ℕ)
      → length tag ≡ 16
      → write_at 0x18 (store32 0) (authenticated_view (header crc tag)) ≡ header 0 no_tag
  plain crc tag e =
      ap (write_at 0x18 (store32 0)) (authenticated_view-header crc tag e)
      ∙ write_at-middle 0x18 (header_front p) (store32 crc) (store32 0)
          (header_back kdf_len payload_len salt iv ++ (no_tag ++ no_tag)) front-length
          (store32-length crc ∙ sym (store32-length 0))

  -- The checksum depends on neither the tag nor the checksum that stands there.
  pub header_crc32-header :
      (crc : ℕ) (tag : List ℕ)
      → length tag ≡ 16
      → header_crc32 (header crc tag) ≡ header_crc32 (header 0 no_tag)
  unfolding header_crc32
  header_crc32-header crc tag e = ap crc32_bytes (plain crc tag e ∙ sym (plain 0 no_tag refl))

  pub header-length :
      (crc : ℕ) (tag : List ℕ) → length tag ≡ 16 → length (header crc tag) ≡ header_size
  header-length crc tag e = omega (
    arith,
    ap length (header-to_tag crc tag),
    length-append (to_tag crc) (tag ++ no_tag),
    length-append tag no_tag,
    to_tag-length crc,
    e,
  )

  module _ (crc : ℕ) (tag : List ℕ) (tag_size : length tag ≡ 16) (rest : List ℕ) where
    abbrev blob : List ℕ
    blob = header crc tag ++ rest

    pub magic-read : take 8 blob ≡ magic
    unfolding header_front
    magic-read = refl

    pub size-read : load16 (drop 0x0A blob) ≡ header_size
    unfolding header_front store16
    size-read = load16-store16 header_size _ (omega arith)

    pub crc-read : crc < 2 ^ 32 → load32 (drop 0x18 blob) ≡ crc
    unfolding header_front store16 store32 store64
    crc-read h = load32-store32 crc _ h

    pub flags-read : p.flags < 2 ^ 32 → load32 (drop 0x0C blob) ≡ p.flags
    unfolding header_front store16 store32
    flags-read h = load32-store32 p.flags _ h

    pub sequence-read : p.file_sequence < 2 ^ 64 → load64 (drop 0x10 blob) ≡ p.file_sequence
    unfolding header_front store16 store32 store64
    sequence-read h = load64-store64 p.file_sequence _ h

    pub algorithms-read :
        (load16 (drop 0x1C blob) ≡ 1)
        × (load16 (drop 0x1E blob) ≡ 1)
        × (load16 (drop 0x20 blob) ≡ 2)
    unfolding header_front header_back store16 store32 store64
    algorithms-read = (
      load16-store16 1 _ (omega arith),
      load16-store16 1 _ (omega arith),
      load16-store16 2 _ (omega arith),
    )

    pub kdf_len-read : kdf_len < 2 ^ 32 → load32 (drop 0x24 blob) ≡ kdf_len
    unfolding header_front header_back store16 store32 store64
    kdf_len-read h = load32-store32 kdf_len _ h

    pub payload_len-read : payload_len < 2 ^ 64 → load64 (drop 0x28 blob) ≡ payload_len
    unfolding header_front header_back store16 store32 store64
    payload_len-read h = load64-store64 payload_len _ h

    from_salt : drop 0x30 blob ≡ salt ++ (iv ++ (store32 header_size ++ (tag ++ (no_tag ++ rest))))
    unfolding header_front header_back store16 store32 store64
    from_salt = regroup salt iv (store32 header_size) tag no_tag rest

    from_iv : drop 0x50 blob ≡ iv ++ (store32 header_size ++ (tag ++ (no_tag ++ rest)))
    from_iv =
        sym (drop-drop 0x30 32 blob) ∙ (ap (drop 32) from_salt ∙ drop-prefix 32 salt _ salt_size)

    from_aad : drop 0x5C blob ≡ store32 header_size ++ (tag ++ (no_tag ++ rest))
    from_aad = sym (drop-drop 0x50 12 blob) ∙ (ap (drop 12) from_iv ∙ drop-prefix 12 iv _ iv_size)

    pub salt-read : take 32 (drop 0x30 blob) ≡ salt
    salt-read = ap (take 32) from_salt ∙ take-prefix 32 salt _ salt_size

    pub iv-read : take 12 (drop 0x50 blob) ≡ iv
    iv-read = ap (take 12) from_iv ∙ take-prefix 12 iv _ iv_size

    pub aad-read : load32 (drop 0x5C blob) ≡ header_size
    aad-read = ap load32 from_aad ∙ load32-store32 header_size _ (omega arith)

    pub tag-read : take 16 (drop 0x60 blob) ≡ tag
    tag-read =
        ap (take 16) (
          sym (drop-drop 0x5C 4 blob)
          ∙ (ap (drop 4) from_aad
              ∙ drop-prefix 4 (store32 header_size) _ (store32-length header_size)))
        ∙ take-prefix 16 tag _ tag_size

    pub rest-read : drop header_size blob ≡ rest
    rest-read = drop-prefix header_size (header crc tag) rest (header-length crc tag tag_size)

    pub header-read : take header_size blob ≡ header crc tag
    header-read = take-prefix header_size (header crc tag) rest (header-length crc tag tag_size)
