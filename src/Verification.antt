-- ===== src/Verification.antt =====
-- src/verification.rs: the verifiers of ID tokens and of user info tokens.
pub mod JwtSettings
pub mod KeySelection
pub mod JwtChecks
pub mod Accepts
pub mod IdToken
pub mod UserInfo
