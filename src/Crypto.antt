-- ===== src/Crypto.antt =====
-- bccrypto: the Merkle tree (merkle/), and the signature wrappers (tss/, sign_sm2/).
pub mod Merkle
pub mod Tss
