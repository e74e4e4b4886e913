-- ===== src/Pm/Store/Created.antt =====
-- src/pm/pm_vault_store.c: opening and unlocking the file that `pm_vault_create` has written.
use hiya.Base.{ℕ, List, ◌≡◌}
use hiya.Pm.Errors.{done}
use hiya.Pm.Vault.{
  Argon2Params, CompositeMode, FormatParams, composite_mode_from_enum, composite_mode_from_flags,
}
use hiya.Pm.Vault.File.{Crypto}
use hiya.Pm.Vault.File.Returned.{CryptoLaws}
use hiya.Pm.Vault.File.Live.{Works}
use hiya.Pm.Store.{CreateOpts, vault_flags_from_mode, created_format}

-- The mode's number and its flags, read back by the vault format.
abbrev Agrees : CompositeMode → ℕ → Type 0
Agrees m n =
    (composite_mode_from_enum n ≡ done m)
    × (composite_mode_from_flags (vault_flags_from_mode m) ≡ m)

module _ (c : Crypto) (laws : CryptoLaws c) (works : Works c) (o : CreateOpts) (n : ℕ)
    (a : Argon2Params) (salt key : List ℕ) where
  abbrev pub format : FormatParams
  format = created_format o n
