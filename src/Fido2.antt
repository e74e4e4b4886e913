-- ===== src/Fido2.antt =====
-- src/fido2: the transport, and the client PIN of the authenticator.
pub mod Ctaphid
pub mod ClientPin
mod Tests
mod PinTests
