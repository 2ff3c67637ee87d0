-- ===== src/IdToken/Hashes.antt =====
-- What binds an access token and a code to the ID token that IdToken::new makes.
use openidconnect_rs.Prelude.{
  ℕ, zero, suc, ◌+◌, ◌/◌, ◌≤◌, String, ◌≡◌, ◌↔◌, refl, sym, ap, ◌∙◌, arith, Option, none, some,
  List, [], ◌∷◌, ◌++◌, length, Result, ok, >>=-iff, map_err, map_err_iff, ok_inj,
}
use openidconnect_rs.Text.{as_bytes}
use openidconnect_rs.Types.Errors.{SigningError}
use openidconnect_rs.Types.Platform.{Platform}
use openidconnect_rs.Traits.{Suite, SigningKey}
use openidconnect_rs.Jwt.Encoding
use openidconnect_rs.Jwt.Encoding.{Codec, CodecLaws, JsonWebTokenError, signing_error, new_header}
use openidconnect_rs.Jwt.Encoding.RoundTrip.{new-Made, visit_str-serialize}
use openidconnect_rs.Claims.IdToken.{IdTokenClaims}
use openidconnect_rs.IdToken.{
  IdToken, take, from_token, from_code, hash_or, new, from_str, to_string,
}

-- The rest of a list after its first items.
drop : {A : Type 0} → ℕ → List A → List A
drop zero xs = xs
drop (suc n) [] = []
drop (suc n) (x ∷ xs) = drop n xs

append-take-drop : {A : Type 0} (n : ℕ) (xs : List A) → xs ≡ take n xs ++ drop n xs
unfolding take drop
append-take-drop zero xs = refl
append-take-drop (suc n) [] = refl
append-take-drop (suc n) (x ∷ xs) = ap (λ l. x ∷ l) (append-take-drop n xs)

length-take : {A : Type 0} (n : ℕ) (xs : List A) → n ≤ length xs → length (take n xs) ≡ n
unfolding take
length-take zero xs h = refl
length-take (suc n) [] h = omega arith
length-take (suc n) (x ∷ xs) h = omega (arith, length-take n xs (omega arith))

length-drop :
    {A : Type 0} (n : ℕ) (xs : List A) → length (take n xs) + length (drop n xs) ≡ length xs
unfolding take drop
length-drop zero xs = omega arith
length-drop (suc n) [] = refl
length-drop (suc n) (x ∷ xs) = omega (arith, length-drop n xs)

-- The first half of the bytes, the shorter one if their number is odd.
pub record IsLeftHalf (half bytes : List ℕ) : Type 0 where
  pub rest : List ℕ
  pub split : bytes ≡ half ++ rest
  pub shorter : length half ≤ length rest
  pub balanced : length rest ≤ length half + 1

take-IsLeftHalf : (bytes : List ℕ) → IsLeftHalf (take (length bytes / 2) bytes) bytes
take-IsLeftHalf bytes =
    let n = length bytes / 2 in
    let a = length-take n bytes (omega arith) in
    let b = length-drop n bytes in
    record {
      rest = drop n bytes;
      split = append-take-drop n bytes;
      shorter = omega (arith, a, b);
      balanced = omega (arith, a, b);
    }

append_inj :
    {A : Type 0} (xs xs' ys ys' : List A)
    → length xs ≡ length xs'
    → xs ++ ys ≡ xs' ++ ys'
    → xs ≡ xs'
append_inj [] [] ys ys' h e = refl
append_inj [] (x ∷ xs') ys ys' h e = absurd (omega arith)
append_inj (x ∷ xs) [] ys ys' h e = absurd (omega arith)
append_inj (x ∷ xs) (x' ∷ xs') ys ys' h e =
    let first : x ≡ x' = ground (arith, e) in
    let rest : xs ++ ys ≡ xs' ++ ys' = ground (arith, e) in
    cc (first, append_inj xs xs' ys ys' (omega arith) rest)

length_append : {A : Type 0} (xs ys : List A) → length (xs ++ ys) ≡ length xs + length ys
length_append [] ys = omega arith
length_append (x ∷ xs) ys = omega (arith, length_append xs ys)

IsLeftHalf-unique : (bytes a b : List ℕ) → IsLeftHalf a bytes → IsLeftHalf b bytes → a ≡ b
IsLeftHalf-unique bytes a b x y =
    let m = length_append a x.rest in
    let n = length_append b y.rest in
    let p = ap length x.split in
    let q = ap length y.split in
    append_inj a b x.rest y.rest
      (omega (arith, m, n, p, q, x.shorter, x.balanced, y.shorter, y.balanced))
      (sym x.split ∙ y.split)

module _ (t : Suite) (encode : List ℕ → String) where
  -- The text is the encoding of the left half of the digest of the secret.
  abbrev pub IsHash : t.SigningAlg → String → String → Type 0
  IsHash alg secret h =
      (digest : List ℕ) × (t.hash_bytes alg (as_bytes secret) ≡ ok digest)
      × (half : List ℕ) × IsLeftHalf half digest
      × (h ≡ encode half)

  -- AccessTokenHash::from_token gives a hash exactly if the algorithm gives a digest of the token, and
  -- it is the encoding of the left half of that digest: half of its bytes, rounded down.
  pub from_token_exact :
      (alg : t.SigningAlg) (access_token h : String)
      → (from_token t encode access_token alg ≡ ok h) ↔ IsHash alg access_token h
  unfolding from_token
  from_token_exact alg access_token h = (
    λ e.
        let (digest, hashed, made) = (>>=-iff _ _).0 e in
        (
          digest,
          (map_err_iff _ _).0 hashed,
          take (length digest / 2) digest,
          take-IsLeftHalf digest,
          sym (ok_inj made),
        ),
    λ (digest, hashed, half, left, same). (>>=-iff _ _).1 (
      digest,
      (map_err_iff _ _).1 hashed,
      ap (λ x. ok (encode x)) (IsLeftHalf-unique digest _ half (take-IsLeftHalf digest) left)
          ∙ ap ok (sym same),
    ),
  )

  -- The two hashes are computed alike.
  pub from_code-eq-from_token :
      (alg : t.SigningAlg) (secret : String)
      → from_code t encode secret alg ≡ from_token t encode secret alg
  unfolding from_code from_token
  from_code-eq-from_token alg secret = refl

  -- The claim is the hash of the secret, or what it was if there is no secret.
  abbrev pub IsBound : t.SigningAlg → Option String → Option String → Option String → Type 0
  IsBound alg none kept claim = claim ≡ kept
  IsBound alg (some secret) kept claim = (h : String) × IsHash alg secret h × (claim ≡ some h)

  hash_or-IsBound :
      {E : Type 0} (f : SigningError → E) (alg : t.SigningAlg) (secret kept claim : Option String)
      → hash_or (λ s. map_err f (from_token t encode s alg)) secret kept ≡ ok claim
      → IsBound alg secret kept claim
  unfolding hash_or
  hash_or-IsBound f alg none kept claim e = sym (ok_inj e)
  hash_or-IsBound f alg (some secret) kept claim e =
      let (h, hashed, made) = (>>=-iff _ _).0 e in
      (h, (from_token_exact alg secret h).0 ((map_err_iff _ _).0 hashed), sym (ok_inj made))

module _ {p : Platform} {t : Suite} {AC GC : Type 0} (j : Codec t (IdTokenClaims p AC GC)) where
  abbrev hashed : t.SigningAlg → String → Result String (JsonWebTokenError j.JsonError)
  hashed alg s = map_err signing_error (from_token t j.encode s alg)

  -- What `new` computes, one after the other.
  new_steps :
      (claims : IdTokenClaims p AC GC) (sk : SigningKey t) (alg : t.SigningAlg)
      (access_token code : Option String) (token : IdToken p t AC GC)
      → new j claims sk alg access_token code ≡ ok token
      → (at_hash c_hash : Option String) × (hash_or
            (hashed alg)
            access_token
            claims.access_token_hash
          ≡ ok at_hash)
        × (hash_or (hashed alg) code claims.code_hash ≡ ok c_hash)
        × (Encoding.new j (record claims { access_token_hash = at_hash; code_hash = c_hash }) sk alg
            ≡ ok token)
  unfolding new from_code from_token
  new_steps claims sk alg access_token code token e =
      let (at_hash, at, e1) =
        (>>=-iff (hash_or (hashed alg) access_token claims.access_token_hash) _).0 e in
      let (c_hash, c, e2) = (>>=-iff (hash_or (hashed alg) code claims.code_hash) _).0 e1 in
      (at_hash, c_hash, at, c, e2)

  -- The access token hash of an ID token that IdToken::new makes is the hash of the access token that
  -- was given, and the code hash that of the code; without one it is as in the given claims, and so
  -- are all other claims. The token has the header for its key and algorithm and is signed by the key.
  pub new_binds :
      (claims : IdTokenClaims p AC GC) (sk : SigningKey t) (alg : t.SigningAlg)
      (access_token code : Option String) (token : IdToken p t AC GC)
      → new j claims sk alg access_token code ≡ ok token
      → IsBound t j.encode alg access_token claims.access_token_hash token.payload.access_token_hash
        × IsBound t j.encode alg code claims.code_hash token.payload.code_hash
        × (record token.payload {
          access_token_hash = claims.access_token_hash;
          code_hash = claims.code_hash;
        }
            ≡ claims)
        × (token.header ≡ new_header sk alg)
        × (sk.sign alg (as_bytes token.signing_input) ≡ ok token.signature)
  new_binds claims sk alg access_token code token e =
      let (at_hash, c_hash, at, c, e2) = new_steps claims sk alg access_token code token e in
      let made = new-Made j _ sk alg token e2 in
      (
        rw made.claims (hash_or-IsBound t j.encode signing_error alg access_token _ at_hash at),
        rw made.claims (hash_or-IsBound t j.encode signing_error alg code _ c_hash c),
        rw made.claims,
        made.header,
        made.signed,
      )

  -- An ID token that IdToken::new makes is read back by from_str from its to_string, if base64 decodes
  -- what it encodes and writes no dot, and the JSON of its header and of its claims is read as what
  -- was written.
  pub from_str-to_string :
      (claims : IdTokenClaims p AC GC) (sk : SigningKey t) (alg : t.SigningAlg)
      (access_token code : Option String) (token : IdToken p t AC GC)
      → CodecLaws j
      → ((s : String)
          → j.header_to_string (new_header sk alg) ≡ ok s
          → j.header_from_slice (as_bytes s) ≡ ok (new_header sk alg))
      → ((s : String)
          → j.payload_to_string token.payload ≡ ok s
          → j.payload_from_slice (as_bytes s) ≡ ok token.payload)
      → new j claims sk alg access_token code ≡ ok token
      → from_str j (to_string j token) ≡ ok token
  unfolding from_str to_string
  from_str-to_string claims sk alg access_token code token laws header_read payload_read e =
      let (at_hash, c_hash, at, c, e2) = new_steps claims sk alg access_token code token e in
      let made = new-Made j _ sk alg token e2 in
      visit_str-serialize j _ sk alg laws header_read
        (λ s w. payload_read s (ap j.payload_to_string made.claims ∙ w) ∙ ap ok made.claims) token
        e2
