-- ===== src/Types.antt =====
-- src/types.rs: the newtypes, the errors and the helpers that the other modules share.
pub mod Errors
pub mod Platform
pub mod Duration
pub mod HashMap
pub mod KeySet
pub mod LanguageTag
pub mod Timestamp
pub mod LocalizedClaim
