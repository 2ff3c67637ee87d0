-- ===== src/Verification/KeySelection.antt =====
-- src/verification.rs: how JwtClaimsVerifier::verified_claims selects the public key.
use openidconnect_rs.Prelude.{
  Bool, true, false, ◌&&◌, String, Option, none, some, List, [], ◌∷◌, map, length, Result, ok, err,
  ◌==◌,
}
use openidconnect_rs.Text.{◌+++◌, quoted, join, decimal}
use openidconnect_rs.Types.Errors.{SignatureVerificationError, no_matching_key, ambiguous_key_id}
use openidconnect_rs.Traits.{Suite}

abbrev pub may_sign : (t : Suite) → Option t.KeyUse → Bool
may_sign t none = true
may_sign t (some key_use) = t.allows_signature key_use

abbrev pub matches_type : (t : Suite) → Option t.KeyType → t.Key → Bool
matches_type t none key = false
matches_type t (some key_type) key = t.key_type_eq (t.key_type key) key_type

abbrev pub matches_id : Option String → Option String → Bool
matches_id none key_id = true
matches_id (some kid) none = false
matches_id (some kid) (some key_id) = kid == key_id

abbrev key_name : Option String → String
key_name none = "null ID"
key_name (some kid) = quoted kid

module _ (t : Suite) where
  -- Whether the key can have made the signature.
  unfoldable pub is_eligible : t.SigningAlg → Option String → t.Key → Bool
  is_eligible alg kid key =
      matches_type t (t.alg_key_type alg) key
      && may_sign t (t.key_use key)
      && matches_id kid (t.key_id key)

  unfoldable pub select_key : List t.Key → Result t.Key SignatureVerificationError
  select_key [] = err no_matching_key
  select_key (key ∷ []) = ok key
  select_key (key ∷ other ∷ rest) =
      let public_keys = key ∷ other ∷ rest in
      err (
        ambiguous_key_id (
          "JWK set must only contain one eligible public key ("
          +++ decimal (length public_keys)
          +++ " eligible keys: "
          +++ join ", " (
              map (λ k. key_name (t.key_id k) +++ " (" +++ t.key_type_text (t.key_type k) +++ ")")
                public_keys)
          +++ ")"))
