-- ===== src/Pm/Store/Saved.antt =====
-- src/pm/pm_vault_store.c: opening and unlocking the file that `pm_vault_save` has written.
use hiya.Base.{
  ℕ, ◌+◌, ◌-◌, ◌^◌, ◌<◌, true, false, List, length, ◌==◌, some, ◌≡◌, refl, ap, sym, arith,
}
use hiya.Pm.Errors.{ok, done, and_then}
use hiya.Pm.Vault.{
  Argon2Params, CompositeMode, argon2id_validate_params, composite_mode_from_enum,
  composite_mode_from_flags,
}
use hiya.Pm.Vault.File.{
  Crypto, WriteRequest, VaultMetadata, ReadResult, vault_serialize, vault_deserialize,
  vault_parse_metadata,
}
use hiya.Pm.Vault.File.Returned.{CryptoLaws, WellFormed, returned, vault_serialize-Opens}
use hiya.Pm.Vault.File.Live.{Works, vault_serialize-live}
use hiya.Pm.Vault.File.Authentic.{vault_deserialize-Authentic}
use hiya.Pm.Store.{
  Handle, opened_handle, unlocked, vault_open, vault_unlock, next_format, save_request, save_with,
  vault_save, vault_get_payload,
}

-- An unlocked handle with this key and payload, whose parameters are those of a vault.
pub record Ready (h : Handle) (key payload : List ℕ) (a : Argon2Params) (mode : CompositeMode)
    : Type 0 where
  pub is_open : h.is_locked ≡ false
  pub has_key : h.master_key ≡ some key
  pub has_payload : h.payload ≡ some payload
  pub full : 0 < length payload
  pub fits : WellFormed (save_request h key payload)
  pub major : h.format.version_major ≡ 1
  pub argon2 : argon2id_validate_params h.format.argon2 ≡ done a
  pub by_enum : composite_mode_from_enum h.format.composite_mode ≡ done mode
  pub by_flags : composite_mode_from_flags h.format.flags ≡ mode

-- Opening the file, and unlocking it with the key, gives the payload, and this sequence number.
abbrev pub Recovers : Crypto → List ℕ → List ℕ → ℕ → List ℕ → Type 0
Recovers c key payload file_sequence file =
    (g : Handle) × (g' : Handle) × ((vault_open true (done file) ≡ done g)
      × (vault_unlock c true true (done key) (done file) g ≡ (g', ok))
      × (vault_get_payload g' ≡ done (some payload))
      × (g.format.file_sequence ≡ file_sequence))

nonzero : (n : ℕ) → 0 < n → (n == 0) ≡ false
nonzero n h = ground arith

not_last : (n : ℕ) → n + 1 < 2 ^ 64 → (n == 2 ^ 64 - 1) ≡ false
not_last n h = ground arith

vault_open-done :
    (blob : List ℕ) (meta : VaultMetadata)
    → vault_parse_metadata blob ≡ done meta
    → vault_open true (done blob) ≡ done (opened_handle meta)
unfolding vault_open
vault_open-done blob meta e = rw (vault_open, and_then, e) refl

vault_unlock-done :
    (c : Crypto) (key blob : List ℕ) (r : ReadResult) (h : Handle)
    → h.is_locked ≡ true
    → vault_deserialize c true key blob ≡ done r
    → vault_unlock c true true (done key) (done blob) h ≡ (unlocked h key r, ok)
unfolding vault_unlock
vault_unlock-done c key blob r h e e' = rw (vault_unlock, e) (rw (and_then, e') refl)

pub serialize-Recovers :
    (c : Crypto) (req : WriteRequest) (blob : List ℕ)
    → CryptoLaws c
    → WellFormed req
    → vault_serialize c true true true req ≡ done blob
    → Recovers c req.master_key req.payload req.params.file_sequence blob
unfolding vault_get_payload
serialize-Recovers c req blob laws fits e =
    let (a, salt, iv, facts) = vault_serialize-Opens c true true true req blob laws fits e in
    let r = returned req a salt iv in
    let known = vault_deserialize-Authentic c true req.master_key blob r facts.3 in
    let g = opened_handle known.meta in
    (
      g,
      unlocked g req.master_key r,
      (
        vault_open-done blob known.meta known.parses,
        vault_unlock-done c req.master_key blob r g refl facts.3,
        refl,
        ap (λ p. p.file_sequence) (sym known.same_params),
      ),
    )

module _ (c : Crypto) (laws : CryptoLaws c) (works : Works c) (h : Handle) (key payload : List ℕ)
    (a : Argon2Params) (mode : CompositeMode) (ready : Ready h key payload a mode) where
  save-done :
      (file blob : List ℕ)
      → vault_serialize c true true true (save_request h key payload) ≡ done blob
      → vault_save c ok h file ≡ (record h { format = next_format h.format }, blob, ok)
  unfolding vault_save
  save-done file blob e =
      rw (vault_save, ready.is_open, ready.has_key, ready.has_payload)
        (rw
          (
            save_with,
            nonzero (length payload) ready.full,
            not_last h.format.file_sequence ready.fits.file_sequence,
            e,
          )
          refl)

  -- For an unlocked handle with a payload that is not empty and with parameters that fit and
  -- are accepted, where the cryptographic calls succeed and keep their laws and the file is
  -- written, pm_vault_save returns PM_OK and adds 1 to the sequence number of the handle, and
  -- pm_vault_open and pm_vault_unlock on the new file, with the same master key, give the
  -- payload and the new sequence number.
  pub vault_save-Recovers :
      (file : List ℕ)
      → (h' : Handle) × (file' : List ℕ) × ((vault_save c ok h file ≡ (h', file', ok))
          × (h'.format.file_sequence ≡ h.format.file_sequence + 1)
          × Recovers c key payload (h.format.file_sequence + 1) file')
  vault_save-Recovers file =
      let (blob, e) =
        vault_serialize-live c works (save_request h key payload) a mode ready.full ready.major
          ready.argon2 ready.by_enum ready.by_flags in
      (
        record h { format = next_format h.format },
        blob,
        (
          save-done file blob e,
          refl,
          serialize-Recovers c (save_request h key payload) blob laws ready.fits e,
        ),
      )
