-- ===== src/Pm/Vault.antt =====
-- src/pm/pm_vault_format.h, src/pm/pm_vault_format.c, and from src/pm/pm_kdf.c the bounds of Argon2id:
-- the parameters of a vault file and the numbers in it. A pointer into a buffer is the list of the bytes
-- from there.
pub mod KdfBlock
pub mod File
pub mod Tests
use hiya.Base.{
  ℕ, ◌+◌, ◌*◌, ◌/◌, ◌%◌, ◌^◌, ◌<◌, Bool, true, false, not, ◌&&◌, ◌||◌, List, [], ◌∷◌, ◌++◌, length,
  get_or, drop, ltb, ◌==◌, if◌then◌else◌, bit_and, bit_or, bit_or_disjoint, ◌≡◌, refl, ◌∙◌, arith,
}
use hiya.Pm.Errors.{kdf, format, Result, done, fail}

-- `pm_argon2_params_t`
pub record Argon2Params : Type 0 where
  pub t_cost : ℕ
  pub m_cost_kib : ℕ
  pub parallelism : ℕ
  pub version : ℕ

-- `pm_composite_mode_t`
pub record CompositeMode : Type 0 where
  pub use_password : Bool
  pub use_biometric : Bool
  pub use_keyfile : Bool
  pub use_yubikey : Bool

-- `pm_vault_format_params_t`
pub record FormatParams : Type 0 where
  pub version_major : ℕ
  pub version_minor : ℕ
  pub flags : ℕ
  pub file_sequence : ℕ
  pub argon2 : Argon2Params
  pub composite_mode : ℕ

abbrev pub argon2_defaults : Argon2Params
argon2_defaults = record { t_cost = 3; m_cost_kib = 65536; parallelism = 1; version = 0x13 }

-- `pm_vault_format_defaults`
abbrev pub format_defaults : FormatParams
format_defaults = record {
  version_major = 1;
  version_minor = 0;
  flags = 1;
  file_sequence = 0;
  argon2 = argon2_defaults;
  composite_mode = 0;
}

abbrev or_default : ℕ → ℕ → ℕ
or_default default n = if n == 0 then default else n

abbrev pub filled : Argon2Params → Argon2Params
filled a = record {
  t_cost = or_default 3 a.t_cost;
  m_cost_kib = or_default 65536 a.m_cost_kib;
  parallelism = or_default 1 a.parallelism;
  version = or_default 0x13 a.version;
}

abbrev pub out_of_bounds : Argon2Params → Bool
out_of_bounds a =
    not (a.version == 0x13)
    || ((ltb a.t_cost 1 || ltb 10 a.t_cost)
        || ((ltb a.parallelism 1 || ltb 8 a.parallelism)
            || ((ltb a.m_cost_kib 8 || ltb (1024 * 1024) a.m_cost_kib)
                || ltb a.m_cost_kib (8 * a.parallelism))))

-- `pm_argon2id_validate_params`, with the parameters that it leaves.
unfoldable pub argon2id_validate_params : Argon2Params → Result Argon2Params
argon2id_validate_params a = let b = filled a in if out_of_bounds b then fail kdf else done b

abbrev pub byte_at : ℕ → ℕ → ℕ
byte_at v k = v / 2 ^ (8 * k) % 2 ^ 8

unfoldable pub store16 : ℕ → List ℕ
store16 v = byte_at v 0 ∷ byte_at v 1 ∷ []

unfoldable pub store32 : ℕ → List ℕ
store32 v = byte_at v 0 ∷ byte_at v 1 ∷ byte_at v 2 ∷ byte_at v 3 ∷ []

unfoldable pub store64 : ℕ → List ℕ
store64 v =
    byte_at v 0
    ∷ byte_at v 1
    ∷ byte_at v 2
    ∷ byte_at v 3
    ∷ byte_at v 4
    ∷ byte_at v 5
    ∷ byte_at v 6
    ∷ byte_at v 7
    ∷ []

-- `p[k] << 8 * k`, over what is below.
abbrev pub above : ℕ → List ℕ → ℕ → ℕ
above k p low = bit_or (get_or p k 0 * 2 ^ (8 * k)) low

unfoldable pub load16 : List ℕ → ℕ
load16 p = above 1 p (get_or p 0 0)

unfoldable pub load32 : List ℕ → ℕ
load32 p = above 3 p (above 2 p (above 1 p (get_or p 0 0)))

unfoldable pub load64 : List ℕ → ℕ
load64 p =
    above 7 p (above 6 p (above 5 p (above 4 p (above 3 p (above 2 p (above 1 p (get_or p 0 0)))))))

-- `composite_mode_from_flags`
unfoldable pub composite_mode_from_flags : ℕ → CompositeMode
composite_mode_from_flags flags = record {
  use_password = not (bit_and flags 1 == 0);
  use_biometric = not (bit_and flags 2 == 0);
  use_keyfile = not (bit_and flags 4 == 0);
  use_yubikey = not (bit_and flags 8 == 0);
}

abbrev same : Bool → Bool → Bool
same true b = b
same false b = not b

-- `composite_modes_equal`
unfoldable pub composite_modes_equal : CompositeMode → CompositeMode → Bool
composite_modes_equal a b =
    same a.use_password b.use_password
    && (same a.use_biometric b.use_biometric
        && (same a.use_keyfile b.use_keyfile && same a.use_yubikey b.use_yubikey))

same→≡ : (a b : Bool) → same a b ≡ true → a ≡ b
same→≡ true true h = refl
same→≡ false false h = refl
same→≡ true false h = cc
same→≡ false true h = cc

and-both : (a b : Bool) → (a && b) ≡ true → (a ≡ true) × (b ≡ true)
and-both true b h = (refl, h)
and-both false b h = cc

pub composite_modes_equal→≡ : (a b : CompositeMode) → composite_modes_equal a b ≡ true → a ≡ b
unfolding composite_modes_equal
composite_modes_equal→≡ a b h =
    let (p, h1) = and-both (same a.use_password b.use_password) _ h in
    let (q, h2) = and-both (same a.use_biometric b.use_biometric) _ h1 in
    let (r, s) = and-both (same a.use_keyfile b.use_keyfile) _ h2 in
    λ i. record {
      use_password = same→≡ a.use_password b.use_password p i;
      use_biometric = same→≡ a.use_biometric b.use_biometric q i;
      use_keyfile = same→≡ a.use_keyfile b.use_keyfile r i;
      use_yubikey = same→≡ a.use_yubikey b.use_yubikey s i;
    }

pub composite_modes_equal_self : (m : CompositeMode) → composite_modes_equal m m ≡ true
unfolding composite_modes_equal
composite_modes_equal_self m = ground arith

abbrev pub mode : Bool → Bool → Bool → Bool → CompositeMode
mode password biometric keyfile yubikey = record {
  use_password = password;
  use_biometric = biometric;
  use_keyfile = keyfile;
  use_yubikey = yubikey;
}

-- `composite_mode_from_enum`
unfoldable pub composite_mode_from_enum : ℕ → Result CompositeMode
composite_mode_from_enum raw =
    if raw == 0
    then done (mode true false false false)
    else if raw == 1
    then done (mode false true false false)
    else if raw == 2
    then done (mode true true false false)
    else if raw == 3
    then done (mode true false true false)
    else if raw == 4
    then done (mode true false false true)
    else if raw == 5
    then done (mode true true true false)
    else if raw == 6
    then done (mode true true false true)
    else if raw == 7
    then done (mode true false true true)
    else if raw == 8
    then done (mode true true true true)
    else if raw == 9
    then done (mode false false true false)
    else if raw == 10
    then done (mode false false false true)
    else if raw == 11
    then done (mode false true true false)
    else if raw == 12
    then done (mode false true false true)
    else if raw == 13
    then done (mode false false true true)
    else if raw == 14
    then done (mode false true true true)
    else fail format

-- A number that fits is read back.
pub load16-store16 : (v : ℕ) (rest : List ℕ) → v < 2 ^ 16 → load16 (store16 v ++ rest) ≡ v
unfolding load16 store16
load16-store16 v rest h =
    rw (bit_or_disjoint 8 (byte_at v 1) (byte_at v 0) (omega arith)) (omega arith)

pub load32-store32 : (v : ℕ) (rest : List ℕ) → v < 2 ^ 32 → load32 (store32 v ++ rest) ≡ v
unfolding load32 store32
load32-store32 v rest h =
    let a = bit_or_disjoint 8 (byte_at v 1) (byte_at v 0) (omega arith) in
    let b = bit_or_disjoint 16 (byte_at v 2) (byte_at v 1 * 2 ^ 8 + byte_at v 0) (omega arith) in
    let c =
      bit_or_disjoint 24 (byte_at v 3) (byte_at v 2 * 2 ^ 16 + (byte_at v 1 * 2 ^ 8 + byte_at v 0))
        (omega arith) in
    rw (a, b, c) (omega arith)

pub load64-store64 : (v : ℕ) (rest : List ℕ) → v < 2 ^ 64 → load64 (store64 v ++ rest) ≡ v
unfolding load64 store64
load64-store64 v rest h =
    let s1 = byte_at v 1 * 2 ^ 8 + byte_at v 0 in
    let s2 = byte_at v 2 * 2 ^ 16 + s1 in
    let s3 = byte_at v 3 * 2 ^ 24 + s2 in
    let s4 = byte_at v 4 * 2 ^ 32 + s3 in
    let s5 = byte_at v 5 * 2 ^ 40 + s4 in
    let s6 = byte_at v 6 * 2 ^ 48 + s5 in
    rw
      (
        bit_or_disjoint 8 (byte_at v 1) (byte_at v 0) (omega arith),
        bit_or_disjoint 16 (byte_at v 2) s1 (omega arith),
        bit_or_disjoint 24 (byte_at v 3) s2 (omega arith),
        bit_or_disjoint 32 (byte_at v 4) s3 (omega arith),
        bit_or_disjoint 40 (byte_at v 5) s4 (omega arith),
        bit_or_disjoint 48 (byte_at v 6) s5 (omega arith),
        bit_or_disjoint 56 (byte_at v 7) s6 (omega arith),
      )
      (omega arith)
