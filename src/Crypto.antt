-- ===== src/Crypto.antt =====
-- include/crypto: digests, and the interface to the OpenSSL calls.
pub mod Digest
pub mod Keypair
pub mod Signing
pub mod Hash
