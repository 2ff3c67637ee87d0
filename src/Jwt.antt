-- ===== src/Jwt.antt =====
-- src/jwt.rs: JSON Web Tokens.
pub mod Algorithm
pub mod Encoding
use openidconnect_rs.Prelude.{ℕ, String, Option, List, Result, ok, ◌>>=◌, ◌>>◌}
use openidconnect_rs.Text.{as_bytes}
use openidconnect_rs.Types.Errors.{SignatureVerificationError}
use openidconnect_rs.Traits.{Suite}

pub data JsonWebTokenAlgorithm (t : Suite) : Type 0 where
  encryption : t.EncryptionAlg → JsonWebTokenAlgorithm t
  signature : t.SigningAlg → JsonWebTokenAlgorithm t
  -- No digital signature or MAC performed.
  none : JsonWebTokenAlgorithm t

pub record JsonWebTokenHeader (t : Suite) : Type 0 where
  pub alg : JsonWebTokenAlgorithm t
  pub crit : Option (List String)
  pub cty : Option String
  pub kid : Option String
  pub typ : Option String

pub record JsonWebToken (t : Suite) (P : Type 0) : Type 0 where
  pub header : JsonWebTokenHeader t
  pub payload : P
  pub signature : List ℕ
  pub signing_input : String

module _ {t : Suite} {P : Type 0} where
  -- `JsonWebTokenAccess::payload`: the claims, once the signature over the signing input is verified.
  unfoldable pub verified_payload :
      JsonWebToken t P → t.SigningAlg → t.Key → Result P SignatureVerificationError
  verified_payload jwt alg key = do
    t.verify_signature key alg (as_bytes jwt.signing_input) jwt.signature
    ok jwt.payload
