-- ===== src/Pm/Errors.antt =====
-- src/pm/pm_errors.h and src/pm/pm_errors.c: the error codes of the password manager and their
-- texts.
use hiya.Base.{ℤ, pos, negsuc, Bool, true, false, if◌then◌else◌, ◌≡◌, refl}
use Prim.Native.String.{String}

-- `pm_error_t`, `PM_OK` first.
pub data PmError : Type 0 where
  ok invalid_param nomem io timeout not_found already_exists permission internal : PmError
  unsupported locked denied policy state format format_magic format_version : PmError
  format_integrity serialize deserialize crypto kdf aead_tag key_invalid : PmError
  key_unavailable mlock_failed dbus tpm bio browser network hibp_unavailable : PmError

-- The value of the enumerator.
unfoldable pub code : PmError → ℤ
code ok = pos 0
code invalid_param = negsuc 0
code nomem = negsuc 1
code io = negsuc 2
code timeout = negsuc 3
code not_found = negsuc 4
code already_exists = negsuc 5
code permission = negsuc 6
code internal = negsuc 7
code unsupported = negsuc 8
code locked = negsuc 99
code denied = negsuc 100
code policy = negsuc 101
code state = negsuc 102
code format = negsuc 199
code format_magic = negsuc 200
code format_version = negsuc 201
code format_integrity = negsuc 202
code serialize = negsuc 203
code deserialize = negsuc 204
code crypto = negsuc 299
code kdf = negsuc 300
code aead_tag = negsuc 301
code key_invalid = negsuc 302
code key_unavailable = negsuc 303
code mlock_failed = negsuc 304
code dbus = negsuc 399
code tpm = negsuc 400
code bio = negsuc 401
code browser = negsuc 402
code network = negsuc 403
code hibp_unavailable = negsuc 404

-- `pm_error_str` on the enumerators.
unfoldable pub error_str : PmError → String
error_str ok = "OK"
error_str invalid_param = "Invalid parameter"
error_str nomem = "Out of memory"
error_str io = "I/O error"
error_str timeout = "Timeout"
error_str not_found = "Not found"
error_str already_exists = "Already exists"
error_str permission = "Permission denied"
error_str internal = "Internal error"
error_str unsupported = "Unsupported"
error_str locked = "Vault is locked"
error_str denied = "Operation denied"
error_str policy = "Policy violation"
error_str state = "Invalid state"
error_str format = "Invalid vault format"
error_str format_magic = "Invalid vault magic"
error_str format_version = "Unsupported vault format version"
error_str format_integrity = "Vault integrity check failed"
error_str serialize = "Serialization failed"
error_str deserialize = "Deserialization failed"
error_str crypto = "Cryptographic error"
error_str kdf = "Key derivation failed"
error_str aead_tag = "AEAD authentication tag mismatch"
error_str key_invalid = "Invalid key material"
error_str key_unavailable = "Key unavailable"
error_str mlock_failed = "mlock failed"
error_str dbus = "D-Bus error"
error_str tpm = "TPM error"
error_str bio = "Biometric subsystem error"
error_str browser = "Browser integration error"
error_str network = "Network error"
error_str hibp_unavailable = "HIBP service unavailable"

-- What a call gives that returns `PM_OK` with a value, or an error.
pub data Result {ℓ} (A : Type ℓ) : Type ℓ where
  done : A → Result A
  fail : PmError → Result A

-- `if (rc != PM_OK) return rc;` before the rest.
abbrev pub and_then {ℓ κ} : {A : Type ℓ} {B : Type κ} → Result A → (A → Result B) → Result B
and_then (done a) f = f a
and_then (fail rc) f = fail rc

-- What a call has done that returned a value.
pub done-injective {ℓ} : {A : Type ℓ} {a b : A} → done a ≡ done b → a ≡ b
done-injective h = cc

pub and_then-done {ℓ κ} :
    {A : Type ℓ} {B : Type κ} (r : Result A) (f : A → Result B) (b : B)
    → and_then r f ≡ done b
    → (a : A) × ((r ≡ done a) × (f a ≡ done b))
and_then-done (done a) f b h = (a, (refl, h))
and_then-done (fail rc) f b h = cc

pub unless-done {ℓ} :
    {A : Type ℓ} (test : Bool) (rc : PmError) (r : Result A) (a : A)
    → (if test then fail rc else r) ≡ done a
    → (test ≡ false) × (r ≡ done a)
unless-done true rc r a h = cc
unless-done false rc r a h = (refl, h)

pub when-done {ℓ} :
    {A : Type ℓ} (test : Bool) (rc : PmError) (r : Result A) (a : A)
    → (if test then r else fail rc) ≡ done a
    → (test ≡ true) × (r ≡ done a)
when-done true rc r a h = (refl, h)
when-done false rc r a h = cc
