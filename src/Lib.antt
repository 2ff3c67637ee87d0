-- ===== src/Lib.antt =====
-- openidconnect-rs, the OpenID Connect library for relying parties.
--
-- The core decides which tokens a client trusts: making, writing and reading JSON web tokens, the
-- keys that sign and verify them, and the verifiers of ID tokens and of user info tokens. Around it
-- stands what a client does with a provider: discovery, registration, authorization and logout
-- URLs, and user info requests.
--
-- How the parts interact. A client makes an IdTokenVerifier or a UserInfoVerifier from its id, its
-- secret if it has one, the issuer and the keys of the provider, and configures it by setters. The
-- verifier hands a token to the JwtClaimsVerifier inside, which checks header, issuer and audiences,
-- selects the key and asks it to verify the signature; the outer verifier then checks what only its
-- kind of token has. Keys, algorithms and claims come in through traits, which src/core fills. A
-- Client is made of the metadata that discovery has found, keys included; it makes the verifiers, the
-- AuthorizationRequest with its URL, and the UserInfoRequest.
--
-- Files, and the code they model (function names are those of the code):
--   Types           src/types.rs: LocalizedClaim, language tags, timestamps, JsonWebKeySet, errors;
--                   URL newtypes of src/macros.rs; the crates url and chrono as the records
--                   Platform and Times
--   Traits          src/types.rs: the traits JsonWebKey, JwsSigningAlgorithm and so on, as a record
--   Core.Values     src/core/mod.rs, src/core/jwk.rs: from_str and as_ref of twelve enums
--   Core.Algorithms src/core/mod.rs, src/core/jwk.rs: algorithms, key types, curves, their names
--   Core.Crypto     the crates sha2, hmac, rsa, p256 and p384, as the record Crypto
--   Core.Jwk        src/core/jwk.rs, src/core/crypto.rs: keys, signing and verifying
--   Core.Suite      src/core: the traits of Traits, filled
--   Jwt             src/jwt.rs: tokens, their algorithm in the header, making, writing and reading
--   Builder         setters of requests that add to a list or replace a value, as steps
--   Fields          src/macros.rs: deserialize_fields! and serialize_fields!, over the entries of an
--                   object
--   Claims          src/claims.rs, src/id_token.rs, src/user_info.rs: the records of claims; Fields is
--                   the reading and writing of StandardClaims, with FilteredFlatten of
--                   src/helpers.rs
--   IdToken         src/id_token.rs, src/types.rs: IdToken, hashes of access tokens and codes
--   Verification    src/verification.rs: JwtSettings and JwtChecks are JwtClaimsVerifier, IdToken
--                   and UserInfo the verifiers; Accepts is a description of the tokens to accept
--   Http            src/http_utils.rs: content types, bearer headers; the crate http as the record Http
--   UserInfo        src/user_info.rs: UserInfoRequest
--   Discovery       src/discovery.rs and JsonWebKeySet::fetch of src/types.rs
--   Oauth2          what src/lib.rs uses of the crate oauth2, as a record, and laws of its requests
--   Authorization   src/lib.rs: AuthorizationRequest
--   Client          src/lib.rs: Client
--   Registration    src/registration.rs: ClientRegistrationRequest and its response
--   Logout          src/logout.rs: LogoutRequest; the query of a URL as the record Query
--   Prelude, Text   Result and do blocks, lists, strings
--   Tests           every theorem at concrete inputs, with small stand-ins for the crates
--
-- Conventions. Bytes are lists of numbers, HashMap and HashSet are lists of which only lookups are
-- used, an Err is a value of Result. A call that panics in the code is an error value `panic`, which
-- the code's error types do not have. A loop over an iterator is recursion over a list; no
-- definition needs fuel but the printing of a number, where one round for each unit of the number is
-- more than its digits. The random generator of RSA signing is a value that holds what it will draw.
--
-- Not modelled: what serde derives for structs, and the crates base64 and serde_json, which are
-- parameters (Jwt.Encoding.Codec, UserInfo.Reader, Discovery.Documents, Registration.Registry,
-- Claims.Fields.ClaimValues); HTTP
-- clients, which are functions from requests to responses; the exchange of codes and tokens,
-- introspection and revocation, which Client hands to the crate oauth2; generated getters and
-- setters, which are the fields of the records; Debug output; who owns a
-- value, so that the variants of a function for borrowed and owned tokens are one.
mod Prelude
mod Text
pub mod Types
pub mod Traits
pub mod Core
pub mod Jwt
pub mod Fields
pub mod Claims
pub mod Verification
pub mod IdToken
pub mod Http
pub mod UserInfo
mod Builder
pub mod Oauth2
pub mod Authorization
pub mod Logout
pub mod Discovery
pub mod Client
pub mod Registration
mod Tests
