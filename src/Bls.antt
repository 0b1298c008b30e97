-- ===== src/Bls.antt =====
-- bls and bls/herumi: keys and signatures over herumi's library, and the cache of public keys.
pub mod Herumi
pub mod Keys
pub mod Signatures
pub mod Examples
