-- ===== src/Bytes.antt =====
-- bytesutil/bytes.go: integers as byte slices, fixed-size arrays, bitlists.
pub mod Integers
pub mod Slices
pub mod Bitlists
mod Examples
