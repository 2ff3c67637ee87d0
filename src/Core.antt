-- ===== src/Core.antt =====
-- src/core: the values, keys and algorithms of the OpenID Connect specifications.
pub mod Values
pub mod Algorithms
pub mod Crypto
pub mod Jwk
pub mod Suite
