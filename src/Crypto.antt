-- ===== src/Crypto.antt =====
-- lib/cclcrypto.cc and lib/cclcrypto.h: base 16, digests with their OpenSSL objects, salted
-- password hashes, and the buffers of the base 64 routines. A thrown error is a value.
pub mod Errors
pub mod Base16
pub mod Digest
pub mod Password
pub mod Base64
mod Tests
