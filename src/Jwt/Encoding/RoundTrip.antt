-- ===== src/Jwt/Encoding/RoundTrip.antt =====
-- src/jwt.rs: tokens that are made, written, read and verified.
use text.Mathlib.TextLemmas.{append_assoc}
use openidconnect_rs.Prelude.{
  >>-intro, ℕ, String, ◌≡◌, refl, sym, ap, ◌∙◌, List, [], ◌∷◌, ok, >>=-iff, map_err_iff, ok_inj,
}
use openidconnect_rs.Text.{◌+++◌, as_bytes}
use openidconnect_rs.Text.Split.{split_dots, split_dots-no_dot, split_dots-append}
use openidconnect_rs.Traits.{Suite, SigningKey}
use openidconnect_rs.Jwt.{JsonWebToken, JsonWebTokenHeader, verified_payload}
use openidconnect_rs.Jwt.Encoding.{
  Codec, CodecLaws, new, new_header, serialize, visit_str, visit_split, visit_parts, decode_part,
  deserialize_payload,
}

module _ {t : Suite} {P : Type 0} (j : Codec t P) (laws : CodecLaws j) where
  -- The text of three encoded parts is split into them.
  split_dots-encoded :
      (a b c : List ℕ)
      → split_dots ((j.encode a +++ "." +++ j.encode b) +++ "." +++ j.encode c)
        ≡ j.encode a ∷ j.encode b ∷ j.encode c ∷ []
  split_dots-encoded a b c =
      ap split_dots (
        append_assoc (j.encode a) ("." +++ j.encode b) ("." +++ j.encode c)
        ∙ ap (λ s. j.encode a +++ s) (append_assoc "." (j.encode b) ("." +++ j.encode c)))
      ∙ split_dots-append (j.encode a) (j.encode b +++ "." +++ j.encode c) (laws.encode_no_dot a)
      ∙ ap (λ ps. j.encode a ∷ ps)
          (split_dots-append (j.encode b) (j.encode c) (laws.encode_no_dot b))
      ∙ ap (λ ps. j.encode a ∷ j.encode b ∷ ps)
          (split_dots-no_dot (j.encode c) (laws.encode_no_dot c))

  decode_part-encode :
      (what : String) (bytes : List ℕ) → decode_part j what (j.encode bytes) ≡ ok bytes
  unfolding decode_part
  decode_part-encode what bytes = (map_err_iff _ _).1 (laws.decode-encode bytes)

  -- What is read from three encoded parts.
  visit_str-encoded :
      (a b c : List ℕ) {header : JsonWebTokenHeader t} {payload : P}
      → j.header_from_slice a ≡ ok header
      → j.payload_from_slice b ≡ ok payload
      → visit_str j ((j.encode a +++ "." +++ j.encode b) +++ "." +++ j.encode c)
        ≡ ok (record {
          header = header;
          payload = payload;
          signature = c;
          signing_input = j.encode a +++ "." +++ j.encode b;
        })
  unfolding visit_str visit_split visit_parts deserialize_payload
  visit_str-encoded a b c eh ep =
      ap (visit_split j) (split_dots-encoded a b c)
      ∙ (>>=-iff _ _).1 (
        _,
        decode_part-encode _ a,
        (>>=-iff _ _).1 (
          _,
          (map_err_iff _ _).1 eh,
          (>>=-iff _ _).1 (
            _,
            decode_part-encode _ b,
            (>>=-iff _ _).1
                (_, (map_err_iff _ _).1 ep, (>>=-iff _ _).1 (_, decode_part-encode _ c, refl)),
          ),
        ),
      )

module _ {t : Suite} {P : Type 0} (j : Codec t P) (payload : P) (sk : SigningKey t)
    (alg : t.SigningAlg) where
  -- What `new` returns, from what it computes.
  pub record Made (jwt : JsonWebToken t P) : Type 0 where
    pub header_json : String
    pub payload_json : String
    pub header_written : j.header_to_string (new_header sk alg) ≡ ok header_json
    pub payload_written : j.payload_to_string payload ≡ ok payload_json
    pub header : jwt.header ≡ new_header sk alg
    pub claims : jwt.payload ≡ payload
    pub signing_input :
        jwt.signing_input
        ≡ j.encode (as_bytes header_json) +++ "." +++ j.encode (as_bytes payload_json)
    pub signed : sk.sign alg (as_bytes jwt.signing_input) ≡ ok jwt.signature

  pub new-Made : (jwt : JsonWebToken t P) → new j payload sk alg ≡ ok jwt → Made jwt
  unfolding new
  new-Made jwt e =
      let (hj, eh, e1) = (>>=-iff _ _).0 e in
      let (pj, ep, e2) = (>>=-iff _ _).0 e1 in
      let (sig, es, q) = (>>=-iff _ _).0 e2 in
      let same = ok_inj q in
      record {
        header_json = hj;
        payload_json = pj;
        header_written = (map_err_iff _ _).0 eh;
        payload_written = (map_err_iff _ _).0 ep;
        header = ap (λ z. z.header) (sym same);
        claims = ap (λ z. z.payload) (sym same);
        signing_input = ap (λ z. z.signing_input) (sym same);
        signed =
            ap (λ z. sk.sign alg (as_bytes z.signing_input)) (sym same)
            ∙ (map_err_iff _ _).0 es
            ∙ ap (λ z. ok z.signature) same;
      }

  -- A token that `new` makes, when it is written and the text is read, is the same token: header,
  -- payload, signature and signing input. The conditions are that base64 decodes what it encodes and
  -- writes no dot, and that the JSON of the token's header and payload is read as what was written.
  pub visit_str-serialize :
      (laws : CodecLaws j)
      → ((s : String)
          → j.header_to_string (new_header sk alg) ≡ ok s
          → j.header_from_slice (as_bytes s) ≡ ok (new_header sk alg))
      → ((s : String)
          → j.payload_to_string payload ≡ ok s
          → j.payload_from_slice (as_bytes s) ≡ ok payload)
      → (jwt : JsonWebToken t P) → new j payload sk alg ≡ ok jwt
      → visit_str j (serialize j jwt) ≡ ok jwt
  unfolding serialize
  visit_str-serialize laws header_read payload_read jwt e =
      let m = new-Made jwt e in
      ap (λ s. visit_str j (s +++ "." +++ j.encode jwt.signature)) m.signing_input
      ∙ visit_str-encoded j laws (as_bytes m.header_json) (as_bytes m.payload_json) jwt.signature
          (header_read m.header_json m.header_written)
          (payload_read m.payload_json m.payload_written)
      ∙ cc

  -- A token that `new` makes gives its payload to the key of its signer, if that key verifies what
  -- the signer signs.
  pub verified_payload-new :
      ((msg sig : List ℕ)
        → sk.sign alg msg ≡ ok sig
        → t.verify_signature sk.as_verification_key alg msg sig ≡ ok tt)
      → (jwt : JsonWebToken t P) → new j payload sk alg ≡ ok jwt
      → verified_payload jwt alg sk.as_verification_key ≡ ok payload
  unfolding verified_payload
  verified_payload-new sound jwt e =
      let m = new-Made jwt e in
      >>-intro (sound (as_bytes jwt.signing_input) jwt.signature m.signed) (ap ok m.claims)
