-- ===== src/Pm/Store.antt =====
-- src/pm/pm_vault_store.c: the handle of a vault, locked or unlocked, and its file. What the file
-- system, the derivation of the master key, the check of a payload and the allocations do is an input
-- of a call; a path that does not fit its array is left out.
pub mod Locked
pub mod Saved
pub mod Created
mod Tests
use hiya.Base.{
  ℕ, ◌+◌, ◌-◌, ◌^◌, Bool, true, false, not, ◌&&◌, ◌||◌, List, [], ◌∷◌, length, ◌==◌, if◌then◌else◌,
  Option, none, some, bit_or,
}
use hiya.Pm.Errors.{
  PmError, ok, invalid_param, nomem, io, state, locked, unsupported, crypto, Result, done, fail,
  and_then,
}
use hiya.Pm.Vault.{CompositeMode, FormatParams}
use hiya.Pm.Vault.File.{
  Crypto, WriteRequest, ReadResult, VaultMetadata, vault_parse_metadata, vault_serialize,
  vault_deserialize, or_error,
}

-- `struct pm_vault_handle`. A payload is not NULL when its length is not 0.
pub record Handle : Type 0 where
  pub format : FormatParams
  pub mode : CompositeMode
  pub is_locked : Bool
  pub master_key : Option (List ℕ)
  pub salt : List ℕ
  pub payload : Option (List ℕ)

abbrev pub flag_if : Bool → ℕ → ℕ
flag_if b flag = if b then flag else 0

-- `vault_flags_from_mode`
unfoldable pub vault_flags_from_mode : CompositeMode → ℕ
vault_flags_from_mode m =
    bit_or
      (bit_or (bit_or (flag_if m.use_password 1) (flag_if m.use_biometric 2))
        (flag_if m.use_keyfile 4))
      (flag_if m.use_yubikey 8)

-- The conditions of `vault_composite_enum_from_mode`, on password, biometric, keyfile and yubikey.
abbrev pub enum_of : Bool → Bool → Bool → Bool → Result ℕ
enum_of true false false false = done 0
enum_of false true false false = done 1
enum_of true true false false = done 2
enum_of true false true false = done 3
enum_of true false false true = done 4
enum_of true true true false = done 5
enum_of true true false true = done 6
enum_of true false true true = done 7
enum_of true true true true = done 8
enum_of false false true false = done 9
enum_of false false false true = done 10
enum_of false true true false = done 11
enum_of false true false true = done 12
enum_of false false true true = done 13
enum_of false true true true = done 14
enum_of false false false false = fail unsupported

-- `vault_composite_enum_from_mode`
unfoldable pub vault_composite_enum_from_mode : CompositeMode → Result ℕ
vault_composite_enum_from_mode m =
    enum_of m.use_password m.use_biometric m.use_keyfile m.use_yubikey

-- `vault_initial_file_sequence`
abbrev pub vault_initial_file_sequence : ℕ → ℕ
vault_initial_file_sequence requested = if requested == 0 then 1 else requested

-- The handle that `pm_vault_open` makes.
abbrev pub opened_handle : VaultMetadata → Handle
opened_handle meta = record {
  format = meta.params;
  mode = meta.mode;
  is_locked = true;
  master_key = none;
  salt = meta.salt;
  payload = none;
}

-- `pm_vault_open`; `file` is what `read_file_all` gives.
unfoldable pub vault_open : Bool → Result (List ℕ) → Result Handle
vault_open room file =
    if room
    then and_then file
        (λ blob. and_then (vault_parse_metadata blob) (λ meta. done (opened_handle meta)))
    else fail nomem

abbrev pub unlocked : Handle → List ℕ → ReadResult → Handle
unlocked h key r = record h { is_locked = false; master_key = some key; payload = some r.payload }

abbrev pub settle : Handle → Result Handle → Handle × PmError
settle h (done h') = (h', ok)
settle h (fail rc) = (h, rc)

-- `pm_vault_unlock`: `key` is what `derive_master_key` gives for the factors, the Booleans say whether
-- the payload and the master key find memory.
unfoldable pub vault_unlock :
    Crypto → Bool → Bool → Result (List ℕ) → Result (List ℕ) → Handle → Handle × PmError
vault_unlock c room_payload room_key key file h =
    if h.is_locked
    then settle h (
        and_then key (λ derived. and_then file (λ blob.
          and_then (vault_deserialize c room_payload derived blob)
            (λ r. if room_key then done (unlocked h derived r) else fail nomem))))
    else (h, ok)

-- `pm_vault_lock`
unfoldable pub vault_lock : Handle → Handle × PmError
vault_lock h = (record h { is_locked = true; master_key = none; payload = none }, ok)

abbrev pub next_format : FormatParams → FormatParams
next_format f = record f { file_sequence = f.file_sequence + 1 }

abbrev pub save_request : Handle → List ℕ → List ℕ → WriteRequest
save_request h key payload = record {
  params = next_format h.format;
  master_key = key;
  payload = payload;
  salt = some h.salt;
  iv = none;
}

-- The handle and the file after `write_file_atomic`, which gave `rc`.
abbrev pub written_file : PmError → Handle → List ℕ → List ℕ → Handle × List ℕ × PmError
written_file ok h file blob = (record h { format = next_format h.format }, blob, ok)
written_file rc h file blob = (h, file, rc)

abbrev pub save_blob : PmError → Handle → List ℕ → Result (List ℕ) → Handle × List ℕ × PmError
save_blob rc h file (fail e) = (h, file, e)
save_blob rc h file (done blob) = written_file rc h file blob

abbrev pub save_with :
    Crypto
    → PmError
    → Handle
    → List ℕ
    → Option (List ℕ)
    → Option (List ℕ)
    → Handle × List ℕ × PmError
save_with c rc h file none payload = (h, file, locked)
save_with c rc h file (some key) none = (h, file, state)
save_with c rc h file (some key) (some payload) =
    if length payload == 0
    then (h, file, state)
    else if h.format.file_sequence == 2 ^ 64 - 1
    then (h, file, state)
    else save_blob rc h file (vault_serialize c true true true (save_request h key payload))

-- `pm_vault_save` with memory enough, on the handle and the content of its file; `rc` is what
-- `write_file_atomic` gives, which replaces the file as a whole or not at all.
unfoldable pub vault_save : Crypto → PmError → Handle → List ℕ → Handle × List ℕ × PmError
vault_save c rc h file =
    if h.is_locked then (h, file, locked) else save_with c rc h file h.master_key h.payload

-- `pm_vault_get_payload`
unfoldable pub vault_get_payload : Handle → Result (Option (List ℕ))
vault_get_payload h = if h.is_locked then fail locked else done h.payload

abbrev pub checked_payload : PmError → Bool → List ℕ → Handle → Handle × PmError
checked_payload ok room payload h =
    if room then (record h { payload = some payload }, ok) else (h, nomem)
checked_payload rc room payload h = (h, rc)

-- `pm_vault_set_payload`; `valid` is what `validate_payload_blob` gives.
unfoldable pub vault_set_payload : PmError → Bool → List ℕ → Handle → Handle × PmError
vault_set_payload valid room payload h =
    if length payload == 0
    then (h, invalid_param)
    else if h.is_locked
    then (h, locked)
    else checked_payload valid room payload h

-- `pm_vault_create_opts_t`; of a factor the model has whether it is given.
pub record CreateOpts : Type 0 where
  pub format : FormatParams
  pub mode : CompositeMode
  pub has_password : Bool
  pub has_wrapping_key : Bool
  pub has_keyfile_hash : Bool
  pub has_yubikey_key : Bool
  pub initial_payload : List ℕ

abbrev pub lacks_factor : CreateOpts → Bool
lacks_factor o =
    (o.mode.use_password && not o.has_password)
    || ((o.mode.use_biometric && not o.has_wrapping_key)
        || ((o.mode.use_keyfile && not o.has_keyfile_hash)
            || (o.mode.use_yubikey && not o.has_yubikey_key)))

abbrev pub created_format : CreateOpts → ℕ → FormatParams
created_format o composite_mode = record o.format {
  file_sequence = vault_initial_file_sequence o.format.file_sequence;
  flags = vault_flags_from_mode o.mode;
  composite_mode = composite_mode;
}

abbrev pub created_handle : FormatParams → CompositeMode → List ℕ → Handle
created_handle format mode salt = record {
  format = format;
  mode = mode;
  is_locked = true;
  master_key = none;
  salt = salt;
  payload = none;
}

abbrev pub create_request : CreateOpts → FormatParams → List ℕ → List ℕ → WriteRequest
create_request o format salt key = record {
  params = format;
  master_key = key;
  payload = o.initial_payload;
  salt = some salt;
  iv = none;
}

abbrev pub unless_error {ℓ} : {A : Type ℓ} → PmError → A → Result A
unless_error ok a = done a
unless_error rc a = fail rc

-- From the salt on.
abbrev pub create_salted :
    Crypto
    → PmError
    → Result (List ℕ)
    → CreateOpts
    → FormatParams
    → List ℕ
    → Result (Handle × List ℕ)
create_salted c rc key o format salt =
    if lacks_factor o
    then fail invalid_param
    else and_then key (λ derived.
      and_then (vault_serialize c true true true (create_request o format salt derived))
        (λ blob. unless_error rc (created_handle format o.mode salt, blob)))

-- `pm_vault_create` with memory enough: the handle and the file. `valid` is what
-- `validate_payload_blob` gives, `key` what `derive_master_key` gives, `rc` what `write_file_atomic`
-- gives.
unfoldable pub vault_create :
    Crypto → PmError → PmError → Result (List ℕ) → CreateOpts → Result (Handle × List ℕ)
vault_create c valid rc key o =
    if length o.initial_payload == 0
    then fail invalid_param
    else and_then (unless_error valid o) (λ o'.
      and_then (vault_composite_enum_from_mode o'.mode) (λ n.
        if c.init
        then and_then (or_error crypto (c.random_bytes 0 32))
            (create_salted c rc key o' (created_format o' n))
        else fail crypto))
