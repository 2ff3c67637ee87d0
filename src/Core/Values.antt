-- ===== src/Core/Values.antt =====
-- src/core/mod.rs and src/core/jwk.rs: the string-valued enums. Each has a module with its type and
-- the two functions `from_str` and `as_ref`, by which `deserialize_from_str!` and
-- `serialize_as_str!` of src/macros.rs read and write it.
pub mod Laws
pub mod Texts
pub mod ApplicationType
pub mod AuthDisplay
pub mod AuthPrompt
pub mod ClaimType
pub mod ClientAuthMethod
pub mod GrantType
pub mod AuthErrorResponseType
pub mod RegisterErrorResponseType
pub mod ResponseMode
pub mod ResponseType
pub mod SubjectIdentifierType
pub mod JsonWebKeyUse
