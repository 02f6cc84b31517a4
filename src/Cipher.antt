-- ===== src/Cipher.antt =====
-- src/cipher.c: the symmetric ciphers, with the padding and the MAC of TLS records that OpenSSL leaves
-- to them.
pub mod Unpad
pub mod Token
pub mod Params
pub mod Init
pub mod Run
pub mod Ledger
pub mod Samples
mod Tests
