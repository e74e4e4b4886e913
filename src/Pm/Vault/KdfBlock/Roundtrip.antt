-- ===== src/Pm/Vault/KdfBlock/Roundtrip.antt =====
-- src/pm/pm_vault_format.c: `parse_kdf_block_metadata` after `build_kdf_block`.
use hiya.Base.{
  ℕ, suc, ◌^◌, ◌<◌, true, false, List, [], ◌++◌, append-nil, length, drop, ltb, ◌≡◌, refl, ap, sym,
  ◌∙◌, arith,
}
use hiya.Pm.Errors.{done, and_then}
use hiya.Pm.Vault.{
  Argon2Params, CompositeMode, FormatParams, argon2id_validate_params, store16, store32, load16,
  load32, composite_mode_from_flags, composite_mode_from_enum, composite_modes_equal,
  composite_modes_equal_self, load16-store16, load32-store32,
}
use hiya.Pm.Vault.KdfBlock.{
  Metadata, with_argon2, read_tlv, read_tlvs, agreed, parse_kdf_block_metadata, tlv32, tlv16,
  kdf_bytes, key_size,
}

read_tlvs-step :
    (n : ℕ) (p : List ℕ) (m m' : Metadata)
    → ltb (length p) 8 ≡ false
    → ltb (length (drop 8 p)) (load32 (drop 4 p)) ≡ false
    → read_tlv (load16 p) (load32 (drop 4 p)) (drop 8 p) m ≡ done m'
    → read_tlvs (suc n) p m ≡ read_tlvs n (drop (load32 (drop 4 p)) (drop 8 p)) m'
unfolding read_tlvs
read_tlvs-step n p m m' h1 h2 h3 = rw (read_tlvs, h1) (rw h2 (rw (and_then, h3) refl))

-- One parameter of four bytes at the front.
read_tlvs-tlv32 :
    (n type v : ℕ) (rest : List ℕ) (m m' : Metadata)
    → type < 2 ^ 16
    → ((value : List ℕ) → load32 value ≡ v → read_tlv type 4 value m ≡ done m')
    → v < 2 ^ 32
    → read_tlvs (suc n) (tlv32 type v ++ rest) m ≡ read_tlvs n rest m'
unfolding tlv32 store16 store32
read_tlvs-tlv32 n type v rest m m' fits reads h =
    let p = tlv32 type v ++ rest in
    let value = load32-store32 v rest h in
    let head = load16-store16 type (drop 2 p) fits in
    let size : load32 (drop 4 p) ≡ 4 = load32-store32 4 (drop 8 p) (omega arith) in
    let one =
      read_tlvs-step n p m m' (ground arith) (rw size (ground arith))
        (rw (head, size) (reads (drop 8 p) value)) in
    one ∙ ap (λ k. read_tlvs n (drop k (drop 8 p)) m') size

read_tlvs-tlv16 :
    (n type v : ℕ) (rest : List ℕ) (m m' : Metadata)
    → type < 2 ^ 16
    → ((value : List ℕ) → load16 value ≡ v → read_tlv type 2 value m ≡ done m')
    → v < 2 ^ 16
    → read_tlvs (suc n) (tlv16 type v ++ rest) m ≡ read_tlvs n rest m'
unfolding tlv16 store16 store32
read_tlvs-tlv16 n type v rest m m' fits reads h =
    let p = tlv16 type v ++ rest in
    let value = load16-store16 v rest h in
    let head = load16-store16 type (drop 2 p) fits in
    let size : load32 (drop 4 p) ≡ 2 = load32-store32 2 (drop 8 p) (omega arith) in
    let one =
      read_tlvs-step n p m m' (ground arith) (rw size (ground arith))
        (rw (head, size) (reads (drop 8 p) value)) in
    one ∙ ap (λ k. read_tlvs n (drop k (drop 8 p)) m') size

-- Each number of the parameters in its width.
pub record Fits (params : FormatParams) : Type 0 where
  pub t_cost : params.argon2.t_cost < 2 ^ 32
  pub m_cost_kib : params.argon2.m_cost_kib < 2 ^ 32
  pub parallelism : params.argon2.parallelism < 2 ^ 32
  pub version : params.argon2.version < 2 ^ 32
  pub composite_mode : params.composite_mode < 2 ^ 16

module _ (value : List ℕ) (v : ℕ) (m : Metadata) where
  read_t_cost :
      load32 value ≡ v
      → read_tlv 1 4 value m ≡ done (with_argon2 m (record m.params.argon2 { t_cost = v }))
  unfolding read_tlv
  read_t_cost e = ap (λ x. done (with_argon2 m (record m.params.argon2 { t_cost = x }))) e

  read_m_cost :
      load32 value ≡ v
      → read_tlv 2 4 value m ≡ done (with_argon2 m (record m.params.argon2 { m_cost_kib = v }))
  unfolding read_tlv
  read_m_cost e = ap (λ x. done (with_argon2 m (record m.params.argon2 { m_cost_kib = x }))) e

  read_parallelism :
      load32 value ≡ v
      → read_tlv 3 4 value m ≡ done (with_argon2 m (record m.params.argon2 { parallelism = v }))
  unfolding read_tlv
  read_parallelism e = ap (λ x. done (with_argon2 m (record m.params.argon2 { parallelism = x }))) e

  read_key_size : load32 value ≡ key_size → read_tlv 4 4 value m ≡ done m
  unfolding read_tlv
  read_key_size e = rw (read_tlv, e) refl

  read_version :
      load32 value ≡ v
      → read_tlv 5 4 value m ≡ done (with_argon2 m (record m.params.argon2 { version = v }))
  unfolding read_tlv
  read_version e = ap (λ x. done (with_argon2 m (record m.params.argon2 { version = x }))) e

  read_mode :
      (mode : CompositeMode)
      → composite_mode_from_enum v ≡ done mode
      → load16 value ≡ v
      → read_tlv 0x10 2 value m
        ≡ done (record {
          params = record m.params { composite_mode = v };
          have_mode = true;
          mode = mode;
        })
  unfolding read_tlv
  read_mode mode e e' = rw (read_tlv, e') (rw (and_then, e) refl)

-- What the block says, over what was there.
abbrev told : FormatParams → CompositeMode → Metadata → Metadata
told params mode m = record {
  params = record m.params { argon2 = params.argon2; composite_mode = params.composite_mode };
  have_mode = true;
  mode = mode;
}

read_tlvs-kdf_bytes :
    (params : FormatParams) (mode : CompositeMode) (m : Metadata)
    → Fits params
    → composite_mode_from_enum params.composite_mode ≡ done mode
    → read_tlvs 6 (drop 8 (kdf_bytes params)) m ≡ done (told params mode m)
unfolding kdf_bytes store16 store32 read_tlvs
read_tlvs-kdf_bytes params mode m fits e =
    let a = params.argon2 in
    let m1 = with_argon2 m (record m.params.argon2 { t_cost = a.t_cost }) in
    let m2 = with_argon2 m1 (record m1.params.argon2 { m_cost_kib = a.m_cost_kib }) in
    let m3 = with_argon2 m2 (record m2.params.argon2 { parallelism = a.parallelism }) in
    let m5 = with_argon2 m3 (record m3.params.argon2 { version = a.version }) in
    let b5 = tlv16 0x10 params.composite_mode in
    let b4 = tlv32 5 a.version ++ b5 in
    let b3 = tlv32 4 key_size ++ b4 in
    let b2 = tlv32 3 a.parallelism ++ b3 in
    let b1 = tlv32 2 a.m_cost_kib ++ b2 in
    read_tlvs-tlv32 5 1 a.t_cost b1 m m1 (omega arith) (λ value. read_t_cost value a.t_cost m)
      fits.t_cost
    ∙ (read_tlvs-tlv32 4 2 a.m_cost_kib b2 m1 m2 (omega arith)
          (λ value. read_m_cost value a.m_cost_kib m1) fits.m_cost_kib
        ∙ (read_tlvs-tlv32 3 3 a.parallelism b3 m2 m3 (omega arith)
              (λ value. read_parallelism value a.parallelism m2) fits.parallelism
            ∙ (read_tlvs-tlv32 2 4 key_size b4 m3 m3 (omega arith)
                  (λ value. read_key_size value key_size m3) (omega arith)
                ∙ (read_tlvs-tlv32 1 5 a.version b5 m3 m5 (omega arith)
                      (λ value. read_version value a.version m3) fits.version
                    ∙ (ap (λ p. read_tlvs 1 p m5) (sym (append-nil b5))
                        ∙ read_tlvs-tlv16 0 0x10 params.composite_mode [] m5 (told params mode m)
                            (omega arith) (λ value. read_mode value params.composite_mode m5 mode e)
                            fits.composite_mode)))))

agreed-told :
    (params : FormatParams) (mode flags_mode : CompositeMode) (m : Metadata) (a : Argon2Params)
    → flags_mode ≡ mode
    → argon2id_validate_params params.argon2 ≡ done a
    → agreed flags_mode (told params mode m)
      ≡ done (record {
        params = record m.params { argon2 = a; composite_mode = params.composite_mode };
        have_mode = true;
        mode = mode;
      })
agreed-told params mode flags_mode m a f v =
    let equal : composite_modes_equal flags_mode mode ≡ true =
      ap (λ x. composite_modes_equal x mode) f ∙ composite_modes_equal_self mode in
    rw (agreed, equal) (rw (and_then, v) refl)

-- The block that build_kdf_block writes for parameters that fit their widths and that
-- pm_argon2id_validate_params accepts, with a composite mode that agrees with the flags, is
-- parsed by parse_kdf_block_metadata to these parameters, zeros replaced by the defaults, and
-- to that mode, whatever the parameters were before.
pub parse_kdf_block_metadata-build :
    (params start : FormatParams) (mode before : CompositeMode) (a : Argon2Params)
    → Fits params
    → composite_mode_from_enum params.composite_mode ≡ done mode
    → composite_mode_from_flags start.flags ≡ mode
    → argon2id_validate_params params.argon2 ≡ done a
    → parse_kdf_block_metadata (kdf_bytes params) start before
      ≡ done (record {
        params = record start { argon2 = a; composite_mode = params.composite_mode };
        have_mode = true;
        mode = mode;
      })
unfolding parse_kdf_block_metadata kdf_bytes store16 store32
parse_kdf_block_metadata-build params start mode before a fits e f v =
    let p = kdf_bytes params in
    let m : Metadata = record { params = start; have_mode = false; mode = before } in
    let long : ltb (length p) 8 ≡ false = ground arith in
    let major : load16 p ≡ 1 = load16-store16 1 (drop 2 p) (omega arith) in
    let minor : load16 (drop 2 p) ≡ 0 = load16-store16 0 (drop 4 p) (omega arith) in
    let count : load32 (drop 4 p) ≡ 6 = load32-store32 6 (drop 8 p) (omega arith) in
    let loop = read_tlvs-kdf_bytes params mode m fits e in
    let run = ap (λ n. read_tlvs n (drop 8 p) m) count ∙ loop in
    let ends = agreed-told params mode (composite_mode_from_flags start.flags) m a f v in
    rw (long, major, minor) (rw (and_then, run) ends)
