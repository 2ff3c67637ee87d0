-- ===== src/Jwt/Encoding.antt =====
-- src/jwt.rs: JsonWebToken::new, and Serialize and Deserialize of JsonWebToken, on the text of the
-- JSON string. The crates base64 and serde_json are parameters.
pub mod RoundTrip
use openidconnect_rs.Prelude.{
  ℕ, String, ◌≡◌, false, Option, none, List, [], ◌∷◌, length, Result, ok, err, ◌>>=◌, map_err,
}
use openidconnect_rs.Text.{◌+++◌, decimal, as_bytes}
use openidconnect_rs.Text.Split.{split_dots, has_dot}
use openidconnect_rs.Types.Errors.{SigningError}
use openidconnect_rs.Traits.{Suite, SigningKey}
use openidconnect_rs.Jwt.{JsonWebToken, JsonWebTokenHeader, signature}

-- base64 with the alphabet for URLs and without padding, and JSON of a header and of a payload.
pub record Codec (t : Suite) (P : Type 0) : Type 1 where
  pub encode : List ℕ → String
  pub DecodeError : Type 0
  pub decode_error_text : DecodeError → String
  pub decode : String → Result (List ℕ) DecodeError
  pub JsonError : Type 0
  pub json_error_text : JsonError → String
  pub header_to_string : JsonWebTokenHeader t → Result String JsonError
  pub header_from_slice : List ℕ → Result (JsonWebTokenHeader t) JsonError
  pub payload_to_string : P → Result String JsonError
  pub payload_from_slice : List ℕ → Result P JsonError

-- What was encoded is decoded, and the alphabet has no dot.
pub record CodecLaws {t : Suite} {P : Type 0} (j : Codec t P) : Type 0 where
  pub decode-encode : (bytes : List ℕ) → j.decode (j.encode bytes) ≡ ok bytes
  pub encode_no_dot : (bytes : List ℕ) → has_dot (j.encode bytes) ≡ false

pub data JsonWebTokenError (E : Type 0) : Type 0 where
  serialization_error : E → JsonWebTokenError E
  signing_error : SigningError → JsonWebTokenError E

module _ {t : Suite} where
  -- The header that `new` writes.
  unfoldable pub new_header : SigningKey t → t.SigningAlg → JsonWebTokenHeader t
  new_header signing_key alg = record {
    alg = signature alg;
    crit = none;
    cty = none;
    kid = t.key_id signing_key.as_verification_key;
    typ = none;
  }

module _ {t : Suite} {P : Type 0} (j : Codec t P) where
  -- `JsonWebToken::new`
  unfoldable pub new :
      P → SigningKey t → t.SigningAlg → Result (JsonWebToken t P) (JsonWebTokenError j.JsonError)
  unfolding new_header
  new payload signing_key alg = do
    header_json ← map_err serialization_error (j.header_to_string (new_header signing_key alg))
    let header_base64 = j.encode (as_bytes header_json)
    serialized_payload ← map_err serialization_error (j.payload_to_string payload)
    let payload_base64 = j.encode (as_bytes serialized_payload)
    let signing_input = header_base64 +++ "." +++ payload_base64
    sig ← map_err signing_error (signing_key.sign alg (as_bytes signing_input))
    ok (record {
      header = new_header signing_key alg;
      payload = payload;
      signature = sig;
      signing_input = signing_input;
    })

  -- `Serialize::serialize`
  unfoldable pub serialize : JsonWebToken t P → String
  serialize jwt = jwt.signing_input +++ "." +++ j.encode jwt.signature

  -- `JsonWebTokenJsonPayloadSerde::deserialize`
  unfoldable pub deserialize_payload : List ℕ → Result P String
  deserialize_payload payload =
      map_err (λ e. "Failed to parse payload JSON: " +++ j.json_error_text e)
        (j.payload_from_slice payload)

  -- `base64::decode_config` with the message of an error
  unfoldable pub decode_part : String → String → Result (List ℕ) String
  decode_part what part =
      map_err (λ e. "Invalid base64url " +++ what +++ " encoding: " +++ j.decode_error_text e)
        (j.decode part)

  unfoldable pub visit_parts : String → String → String → Result (JsonWebToken t P) String
  unfolding deserialize_payload decode_part
  visit_parts first second third = do
    header_json ← decode_part "header" first
    header ←
        map_err (λ e. "Failed to parse header JSON: " +++ j.json_error_text e)
          (j.header_from_slice header_json)
    raw_payload ← decode_part "payload" second
    payload ← deserialize_payload raw_payload
    sig ← decode_part "signature" third
    ok (record {
      header = header;
      payload = payload;
      signature = sig;
      signing_input = first +++ "." +++ second;
    })

  -- `JsonWebTokenVisitor::visit_str`, once the text is split
  unfoldable pub visit_split : List String → Result (JsonWebToken t P) String
  unfolding visit_parts
  visit_split (first ∷ second ∷ third ∷ []) = visit_parts first second third
  visit_split parts =
      err ("Invalid JSON web token: found " +++ decimal (length parts) +++ " parts (expected 3)")

  -- `JsonWebTokenVisitor::visit_str`
  unfoldable pub visit_str : String → Result (JsonWebToken t P) String
  unfolding visit_split
  visit_str v = visit_split (split_dots v)
