-- ===== src/Pm.antt =====
-- The password manager, src/pm: error codes, one-time passwords, the history of an entry, the password
-- generator, the vault file and the handle of a vault.
pub mod Errors
pub mod Otp
pub mod History
pub mod Password
pub mod Vault
pub mod Store
mod Tests
mod HistoryTests
mod PasswordTests
