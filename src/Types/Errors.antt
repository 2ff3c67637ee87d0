-- ===== src/Types/Errors.antt =====
-- The errors of src/verification.rs and of signing in src/types.rs, with their messages.
use openidconnect_rs.Prelude.{String}

pub data SignatureVerificationError : Type 0 where
  ambiguous_key_id crypto_error disallowed_alg invalid_key : String → SignatureVerificationError
  no_matching_key : SignatureVerificationError
  unsupported_alg other : String → SignatureVerificationError
  -- Not a value of the source: the call panics.
  panic : SignatureVerificationError

pub data ClaimsVerificationError : Type 0 where
  expired invalid_audience invalid_auth_context invalid_auth_time : String → ClaimsVerificationError
  invalid_issuer invalid_nonce invalid_subject : String → ClaimsVerificationError
  no_signature : ClaimsVerificationError
  other : String → ClaimsVerificationError
  signature_verification : SignatureVerificationError → ClaimsVerificationError
  unsupported : String → ClaimsVerificationError
  -- Not a value of the source: the call panics.
  panic : ClaimsVerificationError

pub data SigningError : Type 0 where
  crypto_error : SigningError
  unsupported_alg other : String → SigningError
