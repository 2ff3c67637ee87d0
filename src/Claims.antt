-- ===== src/Claims.antt =====
-- The claims that tokens carry: src/claims.rs, src/id_token.rs, src/user_info.rs.
pub mod Access
pub mod Standard
pub mod Fields
pub mod IdToken
pub mod UserInfo
