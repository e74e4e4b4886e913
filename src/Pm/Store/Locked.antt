-- ===== src/Pm/Store/Locked.antt =====
-- src/pm/pm_vault_store.c: a locked handle, after any calls.
use hiya.Base.{
  ℕ, Bool, true, false, List, length, ◌==◌, Option, none, some, ◌≡◌, refl, ap, sym, ◌∙◌, if-Is,
  if-Is_split, if◌then◌else◌,
}
use mathlib.Core.Bool.{true≢false}
use hiya.Pm.Errors.{
  PmError, ok, nomem, invalid_param, locked, Result, done, fail, and_then, and_then-done, when-done,
  done-injective,
}
use hiya.Pm.Vault.File.{Crypto, VaultMetadata, vault_serialize, vault_deserialize}
use hiya.Pm.Store.{
  Handle, opened_handle, unlocked, settle, vault_unlock, vault_lock, written_file, save_blob,
  save_with, save_request, vault_save, vault_get_payload, checked_payload, vault_set_payload,
}

-- The handles that calls make of an opened one, whatever their inputs.
pub data Reached : Handle → Type 0 where
  opened : (meta : VaultMetadata) → Reached (opened_handle meta)
  unlock :
      (c : Crypto) (room_payload room_key : Bool) (key file : Result (List ℕ)) (h : Handle)
      → Reached h
      → Reached (vault_unlock c room_payload room_key key file h).0
  lock : (h : Handle) → Reached h → Reached (vault_lock h).0
  save :
      (c : Crypto) (rc : PmError) (file : List ℕ) (h : Handle)
      → Reached h
      → Reached (vault_save c rc h file).0
  set_payload :
      (valid : PmError) (room : Bool) (payload : List ℕ) (h : Handle)
      → Reached h
      → Reached (vault_set_payload valid room payload h).0

-- A locked handle holds neither the master key nor the payload, and gives and writes nothing.
pub record Closed (h : Handle) : Type 0 where
  pub no_key : h.master_key ≡ none
  pub no_payload : h.payload ≡ none
  pub no_get : vault_get_payload h ≡ fail locked
  pub no_save :
      (c : Crypto) (rc : PmError) (file : List ℕ) → vault_save c rc h file ≡ (h, file, locked)

-- The secrets are absent while the handle is locked.
abbrev Wiped : Handle → Type 0
Wiped h = h.is_locked ≡ true → (h.master_key ≡ none) × (h.payload ≡ none)

settle-Wiped :
    (h : Handle) (r : Result Handle)
    → Wiped h
    → ((h' : Handle) → r ≡ done h' → Wiped h')
    → Wiped (settle h r).0
settle-Wiped h (fail rc) w f = w
settle-Wiped h (done h') w f = f h' refl

unlocked-Wiped :
    (c : Crypto) (room_payload room_key : Bool) (key file : Result (List ℕ)) (h : Handle)
    → Wiped h
    → Wiped (vault_unlock c room_payload room_key key file h).0
unfolding vault_unlock
unlocked-Wiped c room_payload room_key key file h w =
    if-Is (λ (s : Handle × PmError). Wiped s.0) h.is_locked (settle h outcome) (h, ok)
      (settle-Wiped h outcome w (λ h' e t.
        let (derived, e1) = and_then-done key _ h' e in
        let (blob, e2) = and_then-done file _ h' e1.1 in
        let (r, e3) = and_then-done (vault_deserialize c room_payload derived blob) _ h' e2.1 in
        let (b, e4) = when-done room_key nomem (done (unlocked h derived r)) h' e3.1 in
        let open_handle = ap (λ x. x.is_locked) (done-injective e4) in
        absurd (true≢false (sym t ∙ sym open_handle))))
      w
  where
    outcome : Result Handle
    outcome = and_then key (λ derived. and_then file (λ blob.
        and_then (vault_deserialize c room_payload derived blob)
          (λ r. if room_key then done (unlocked h derived r) else fail nomem)))

written_file-Wiped :
    (rc : PmError) (h : Handle) (file blob : List ℕ)
    → Wiped h
    → Wiped (written_file rc h file blob).0
written_file-Wiped ok h file blob w = w
written_file-Wiped rc h file blob w = w

save_with-Wiped :
    (c : Crypto) (rc : PmError) (h : Handle) (file : List ℕ) (key payload : Option (List ℕ))
    → Wiped h
    → Wiped (save_with c rc h file key payload).0
save_with-Wiped c rc h file none payload w = w
save_with-Wiped c rc h file (some key) none w = w
save_with-Wiped c rc h file (some key) (some payload) w =
    if-Is (λ (r : Handle × List ℕ × PmError). Wiped r.0) (length payload == 0) _ _ w
      (if-Is (λ (r : Handle × List ℕ × PmError). Wiped r.0) _ _ _ w
        (save_blob-Wiped (vault_serialize c true true true (save_request h key payload))))
  where
    save_blob-Wiped : (r : Result (List ℕ)) → Wiped (save_blob rc h file r).0
    save_blob-Wiped (fail e) = w
    save_blob-Wiped (done blob) = written_file-Wiped rc h file blob w

checked_payload-Wiped :
    (valid : PmError) (room : Bool) (payload : List ℕ) (h : Handle)
    → h.is_locked ≡ false
    → Wiped h
    → Wiped (checked_payload valid room payload h).0
checked_payload-Wiped ok true payload h e w = λ t. cc
checked_payload-Wiped ok false payload h e w = w
checked_payload-Wiped rc room payload h e w = w

Reached-Wiped : (h : Handle) → Reached h → Wiped h
unfolding vault_lock vault_save vault_set_payload
Reached-Wiped _ (opened meta) = λ t. (refl, refl)
Reached-Wiped _ (unlock c room_payload room_key key file h r) =
    unlocked-Wiped c room_payload room_key key file h (Reached-Wiped h r)
Reached-Wiped _ (lock h r) = λ t. (refl, refl)
Reached-Wiped _ (save c rc file h r) =
    if-Is (λ (s : Handle × List ℕ × PmError). Wiped s.0) h.is_locked (h, file, locked)
      (save_with c rc h file h.master_key h.payload) (Reached-Wiped h r)
      (save_with-Wiped c rc h file h.master_key h.payload (Reached-Wiped h r))
Reached-Wiped _ (set_payload valid room payload h r) =
    if-Is (λ (s : Handle × PmError). Wiped s.0) (length payload == 0) (h, invalid_param) _
      (Reached-Wiped h r)
      (if-Is_split (λ (s : Handle × PmError). Wiped s.0) h.is_locked (h, locked)
        (checked_payload valid room payload h) (λ e. Reached-Wiped h r)
        (λ e. checked_payload-Wiped valid room payload h e (Reached-Wiped h r)))

-- After pm_vault_open and any calls of unlock, lock, save and set_payload, whatever their
-- inputs and failures, a handle that is locked holds neither the master key nor a payload;
-- pm_vault_get_payload and pm_vault_save answer PM_ERR_LOCKED, and save leaves the handle and
-- the file as they are.
pub Reached-Closed : (h : Handle) → Reached h → h.is_locked ≡ true → Closed h
unfolding vault_get_payload vault_save
Reached-Closed h r e =
    let (no_key, no_payload) = Reached-Wiped h r e in
    record {
      no_key = no_key;
      no_payload = no_payload;
      no_get = rw (vault_get_payload, e) refl;
      no_save = λ c rc file. rw (vault_save, e) refl;
    }
