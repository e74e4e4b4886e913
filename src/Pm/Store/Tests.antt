-- ===== src/Pm/Store/Tests.antt =====
-- A vault that is created, and a handle that is unlocked, saved and locked.
use hiya.Base.{ℕ, true, false, List, [], ◌∷◌, replicate, some, ◌≡◌, refl, arith}
use hiya.Pm.Errors.{ok, done}
use hiya.Pm.Vault.{
  argon2_defaults, format_defaults, argon2id_validate_params, composite_mode_from_enum,
  composite_mode_from_flags,
}
use hiya.Pm.Vault.File.{VaultMetadata}
use hiya.Pm.Vault.File.Returned.{WellFormed}
use hiya.Pm.Vault.Tests.{
  keeping, keeping-Works, keeping-CryptoLaws, default_mode, length-same, written,
}
use hiya.Pm.Store.{
  Handle, CreateOpts, save_request, opened_handle, vault_lock, vault_unlock, vault_save,
}
use hiya.Pm.Store.Locked.{Reached, opened, unlock, lock, save, Closed, Reached-Closed}
use hiya.Pm.Store.Saved.{Ready, Recovers, vault_save-Recovers}

abbrev key : List ℕ
key = replicate 32 1

abbrev payload : List ℕ
payload = 1 ∷ 2 ∷ 3 ∷ []

abbrev open_handle : Handle
open_handle = record {
  format = format_defaults;
  mode = default_mode;
  is_locked = false;
  master_key = some key;
  salt = replicate 32 7;
  payload = some payload;
}

save-WellFormed : WellFormed (save_request open_handle key payload)
save-WellFormed = record {
  fits = record {
    t_cost = omega arith;
    m_cost_kib = omega arith;
    parallelism = omega arith;
    version = omega arith;
    composite_mode = omega arith;
  };
  flags = omega arith;
  file_sequence = omega arith;
  payload_size = omega arith;
  salt_size = λ salt e. length-same 32 (replicate 32 7) salt refl e;
  iv_size = λ iv e. cc;
}

open_handle-Ready : Ready open_handle key payload argon2_defaults default_mode
unfolding argon2id_validate_params composite_mode_from_enum composite_mode_from_flags
open_handle-Ready = record {
  is_open = refl;
  has_key = refl;
  has_payload = refl;
  full = omega arith;
  fits = save-WellFormed;
  major = refl;
  argon2 = refl;
  by_enum = refl;
  by_flags = refl;
}

vault_save-Recovers_example :
    (h' : Handle) × (file' : List ℕ) × ((vault_save keeping ok open_handle [] ≡ (h', file', ok))
      × (h'.format.file_sequence ≡ 1)
      × Recovers keeping key payload 1 file')
vault_save-Recovers_example =
    vault_save-Recovers keeping keeping-CryptoLaws keeping-Works open_handle key payload
      argon2_defaults default_mode open_handle-Ready []

abbrev opts : CreateOpts
opts = record {
  format = format_defaults;
  mode = default_mode;
  has_password = true;
  has_wrapping_key = false;
  has_keyfile_hash = false;
  has_yubikey_key = false;
  initial_payload = payload;
}

abbrev metadata : VaultMetadata
metadata = record {
  params = format_defaults;
  mode = default_mode;
  kdf_block_len = 78;
  payload_len = 3;
  salt = replicate 32 0;
  iv = replicate 12 4;
}

-- Opened, unlocked with the file of the tests of the format, saved and locked.
abbrev locked_again : Handle
locked_again =
    (vault_lock
      (vault_save keeping ok
        (vault_unlock keeping true true (done key) (done written.0) (opened_handle metadata)).0
        written.0).0).0

locked_again-Reached : Reached locked_again
locked_again-Reached = lock _ (
    save keeping ok written.0 _
      (unlock keeping true true (done key) (done written.0) _ (opened metadata)))

Reached-Closed_example : Closed locked_again
unfolding vault_lock
Reached-Closed_example = Reached-Closed locked_again locked_again-Reached refl
