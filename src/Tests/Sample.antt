-- ===== src/Tests/Sample.antt =====
-- Stand-ins for the crates: a clock that stopped at 1000, digests and codes that add up the bytes, twice,
-- signatures that repeat key and salt before the digest, and bytes that are written in unary.
use openidconnect_rs.Prelude.{
  ℕ, ◌+◌, String, ◌≡◌, ◌↔◌, refl, sym, ap, ◌∙◌, Bool, true, false, ◌&&◌, Option, none, some, List,
  [], ◌∷◌, ◌++◌, leb, nat_eq, nat_eq_iff, ok,
}
use openidconnect_rs.Text.{decimal, as_bytes}
use openidconnect_rs.Types.Platform.{Platform}
use openidconnect_rs.Types.Timestamp.{Times, TimesLaws}
use openidconnect_rs.Traits.{Suite}
use openidconnect_rs.Core.Crypto.{
  Crypto, Padding, pss, SigningPadding, pss_with_salt, verifying, HasDigestSalt, MacLaws, RsaLaws,
}
use openidconnect_rs.Core.Suite.{core_suite}

abbrev pub clock : Platform
clock = record {
  Url = String;
  UrlParseError = String;
  parse = λ s. ok s;
  url_to_string = λ s. s;
  DateTime = ℕ;
  time_leb = leb;
  now = 1000;
  time_text = decimal;
}

abbrev pub same_bytes : List ℕ → List ℕ → Bool
same_bytes [] [] = true
same_bytes (a ∷ xs) (b ∷ ys) = nat_eq a b && same_bytes xs ys
same_bytes _ _ = false

and_parts : (b : Bool) {c : Bool} → (b && c) ≡ true → (b ≡ true) × (c ≡ true)
and_parts true h = (refl, h)
and_parts false h = cc

and_both : {b c : Bool} → b ≡ true → c ≡ true → (b && c) ≡ true
and_both {b} {c} p q = rw p q

pub same_bytes_iff : (a b : List ℕ) → (same_bytes a b ≡ true) ↔ (a ≡ b)
same_bytes_iff [] [] = (λ _. refl, λ _. refl)
same_bytes_iff [] (b ∷ ys) = (λ h. cc, λ h. cc)
same_bytes_iff (a ∷ xs) [] = (λ h. cc, λ h. cc)
same_bytes_iff (a ∷ xs) (b ∷ ys) = (
  λ h.
      let (p, q) = and_parts (nat_eq a b) h in
      cc ((nat_eq_iff a b).0 p, (same_bytes_iff xs ys).0 q),
  λ e. and_both ((nat_eq_iff a b).1 (cc)) ((same_bytes_iff xs ys).1 (cc)),
)

abbrev pub twice : ℕ → List ℕ
twice n = n ∷ n ∷ []

abbrev pub sum : List ℕ → ℕ
sum [] = 0
sum (b ∷ bs) = b + sum bs

-- The length of the salt, if there is one.
abbrev pub signing_salt : SigningPadding → Option ℕ
signing_salt (SigningPadding.pkcs1_v15 h) = none
signing_salt (pss_with_salt h n) = some n

abbrev pub verifying_salt : Padding → Option ℕ
verifying_salt (Padding.pkcs1_v15 h) = none
verifying_salt (pss h) = some 2

abbrev pub salted : Option ℕ → List ℕ → List ℕ
salted none hashed = hashed
salted (some n) hashed = n ∷ hashed

abbrev pub toy : Crypto
toy = record {
  digest = λ h bytes. twice (sum bytes);
  output_size = λ h. 2;
  Mac = λ h. ℕ;
  mac_new = λ h key. ok (sum key);
  mac_update = λ h m bytes. m + sum bytes;
  mac_finalize = λ h m. twice m;
  mac_verify = λ h m tag. same_bytes tag (twice m);
  BigUint = List ℕ;
  from_bytes_be = λ bytes. bytes;
  to_bytes_be = λ n. n;
  RsaPublicKey = List ℕ × List ℕ;
  rsa_public_key_new = λ n e. ok (n, e);
  modulus = λ k. k.0;
  exponent = λ k. k.1;
  rsa_verify =
      λ k padding hashed sig. same_bytes sig (k.0 ++ salted (verifying_salt padding) hashed);
  RsaPrivateKey = List ℕ;
  Rng = Unit;
  from_pkcs1_pem = λ pem. ok (as_bytes pem);
  to_public_key = λ k. (k, 1 ∷ []);
  sign_with_rng = λ k rng padding hashed. some (k ++ salted (signing_salt padding) hashed);
  EcKey = λ c. List ℕ;
  EcSignature = λ c. List ℕ;
  from_sec1_bytes = λ c bytes. ok bytes;
  ec_signature_from_slice = λ c bytes. some bytes;
  ec_verify = λ c k msg sig. same_bytes sig (k ++ msg);
}

pub toy-MacLaws : MacLaws toy
toy-MacLaws = record {
  verify_iff = λ h m tag. same_bytes_iff tag (twice m);
  finalize_size = λ h m. refl;
}

some_inj : {A : Type 0} {a b : A} → some a ≡ some b → a ≡ b
some_inj h = cc h

same_salt :
    (p : SigningPadding) → HasDigestSalt toy p → signing_salt p ≡ verifying_salt (verifying p)
same_salt (SigningPadding.pkcs1_v15 h) salt = refl
same_salt (pss_with_salt h n) salt = ap some salt

pub toy-RsaLaws : RsaLaws toy
toy-RsaLaws = record {
  public_key_parts = λ k. refl;
  digest_size = λ h msg. refl;
  sign_verifies = λ k rng p hashed sig salt e.
      (same_bytes_iff sig (k ++ salted (verifying_salt (verifying p)) hashed)).1
        (some_inj (sym e) ∙ ap (λ z. k ++ salted z hashed) (same_salt p salt));
}

abbrev pub suite : Suite
suite = core_suite toy

-- Times that are whole seconds, and numbers that are integers.
abbrev pub times : Times clock
times = record {
  Int = ℕ;
  Float = ℕ;
  Number = ℕ;
  is_i64 = λ n. true;
  as_i64 = λ n. some n;
  as_f64 = λ n. some n;
  from_i64 = λ n. n;
  number_text = decimal;
  floor = λ n. n;
  minus = λ a b. 0;
  times_billion = λ n. n;
  to_i64 = λ n. n;
  to_u32 = λ n. n;
  timestamp_opt = λ secs nsecs. some secs;
  timestamp = λ d. d;
  timestamp_subsec_nanos = λ d. 0;
  parse_from_rfc3339 = λ iso. none;
}

pub times-TimesLaws : TimesLaws times
times-TimesLaws = record {
  is_i64-from_i64 = λ i. refl;
  as_i64-from_i64 = λ i. refl;
  timestamp_opt-timestamp = λ d. refl;
}
