-- ===== src/Pm/Vault/KdfBlock.antt =====
-- src/pm/pm_vault_format.c, `build_kdf_block` and `parse_kdf_block_metadata`: the block of the key
-- derivation, a version, a count, and type, length and value of each parameter.
pub mod Roundtrip
use hiya.Base.{
  ℕ, zero, suc, ◌+◌, ◌^◌, ◌<◌, Bool, true, false, not, ◌||◌, List, [], ◌∷◌, ◌++◌, append_assoc,
  length, drop, ltb, ◌==◌, if◌then◌else◌, ◌≡◌, refl, ap, ◌∙◌, arith, Bool-cases, inl, inr,
}
use hiya.Pm.Errors.{format, format_version, nomem, Result, done, fail, and_then}
use hiya.Pm.Vault.{
  Argon2Params, CompositeMode, FormatParams, argon2id_validate_params, store16, store32, load16,
  load32, composite_mode_from_flags, composite_mode_from_enum, composite_modes_equal,
  load16-store16, load32-store32,
}

-- `PM_KDF_KEY_SIZE`
abbrev pub key_size : ℕ
key_size = 32

-- What `parse_kdf_block_metadata` has read: `*params`, `have_composite_mode` and `*mode`.
pub record Metadata : Type 0 where
  pub params : FormatParams
  pub have_mode : Bool
  pub mode : CompositeMode

abbrev pub with_argon2 : Metadata → Argon2Params → Metadata
with_argon2 m a = record m { params = record m.params { argon2 = a } }

-- The `switch` on the type, `value` at the value.
unfoldable pub read_tlv : ℕ → ℕ → List ℕ → Metadata → Result Metadata
read_tlv type vlen value m =
    let a = m.params.argon2 in
    let size_is = λ (n : ℕ). vlen == n in
    if type == 0x0001
    then (if size_is 4
        then done (with_argon2 m (record a { t_cost = load32 value }))
        else fail format)
    else if type == 0x0002
    then (if size_is 4
        then done (with_argon2 m (record a { m_cost_kib = load32 value }))
        else fail format)
    else if type == 0x0003
    then (if size_is 4
        then done (with_argon2 m (record a { parallelism = load32 value }))
        else fail format)
    else if type == 0x0004
    then (if not (size_is 4) || not (load32 value == key_size) then fail format else done m)
    else if type == 0x0005
    then (if size_is 4
        then done (with_argon2 m (record a { version = load32 value }))
        else fail format)
    else if type == 0x0010
    then (if size_is 2
        then and_then (composite_mode_from_enum (load16 value)) (λ mode. done (record {
          params = record m.params { composite_mode = load16 value };
          have_mode = true;
          mode = mode;
        }))
        else fail format)
    else done m

-- The loop; `p` has the bytes up to `end`.
unfoldable pub read_tlvs : ℕ → List ℕ → Metadata → Result Metadata
read_tlvs zero p m = done m
read_tlvs (suc n) p m = elim (ltb (length p) 8) [
  | true ↦ fail format
  | false ↦ elim (ltb (length (drop 8 p)) (load32 (drop 4 p))) [
    | true ↦ fail format
    | false ↦
        and_then (read_tlv (load16 p) (load32 (drop 4 p)) (drop 8 p) m)
          (read_tlvs n (drop (load32 (drop 4 p)) (drop 8 p)))
  ]
]

-- The checks after the loop.
abbrev pub agreed : CompositeMode → Metadata → Result Metadata
agreed flags_mode m = elim (m.have_mode) [
  | true ↦ elim (composite_modes_equal flags_mode m.mode) [
    | true ↦ and_then (argon2id_validate_params m.params.argon2) (λ a. done (with_argon2 m a))
    | false ↦ fail format
  ]
  | false ↦ and_then (argon2id_validate_params m.params.argon2) (λ a. done (with_argon2 m a))
]

-- `parse_kdf_block_metadata`
unfoldable pub parse_kdf_block_metadata : List ℕ → FormatParams → CompositeMode → Result Metadata
parse_kdf_block_metadata block params mode =
    if ltb (length block) 8
    then fail format
    else if not (load16 block == 1) || not (load16 (drop 2 block) == 0)
    then fail format_version
    else and_then
        (read_tlvs (load32 (drop 4 block)) (drop 8 block)
          (record { params = params; have_mode = false; mode = mode }))
        (agreed (composite_mode_from_flags params.flags))

-- Type, zero, length and value.
unfoldable pub tlv32 : ℕ → ℕ → List ℕ
tlv32 type v = store16 type ++ (store16 0 ++ (store32 4 ++ store32 v))

unfoldable pub tlv16 : ℕ → ℕ → List ℕ
tlv16 type v = store16 type ++ (store16 0 ++ (store32 2 ++ store16 v))

-- The bytes that `build_kdf_block` writes.
unfoldable pub kdf_bytes : FormatParams → List ℕ
kdf_bytes params =
    let a = params.argon2 in
    store16 1
    ++ (store16 0
        ++ (store32 6
            ++ (tlv32 0x0001 a.t_cost
                ++ (tlv32 0x0002 a.m_cost_kib
                    ++ (tlv32 0x0003 a.parallelism
                        ++ (tlv32 0x0004 key_size
                            ++ (tlv32 0x0005 a.version ++ tlv16 0x0010 params.composite_mode)))))))

-- `build_kdf_block`; `room` says whether `calloc` succeeds.
unfoldable pub build_kdf_block : Bool → FormatParams → Result (List ℕ)
build_kdf_block room params = if room then done (kdf_bytes params) else fail nomem
