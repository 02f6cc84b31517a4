-- ===== src/Signature.antt =====
-- src/sig/signature.c, which all kinds of signatures share, and src/sig/ecdsa.c on top of it.
pub mod Token
pub mod Context
pub mod Run
pub mod Copy
pub mod Ledger
pub mod Der
pub mod Ecdsa
pub mod Samples
mod Tests
