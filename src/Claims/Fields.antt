-- ===== src/Claims/Fields.antt =====
-- src/claims.rs: Deserialize of StandardClaims, and its FlattenFilter.
pub mod Additional
pub mod Subject
pub mod Writing
use openidconnect_rs.Prelude.{
  String, Bool, true, false, not, Option, none, some, List, [], ◌∷◌, Result, ok, err, ◌>>=◌,
  map_err, ok_or, any, ◌==◌, ◌&&◌, ◌||◌, is_some, filter, if◌then◌else◌,
}
use openidconnect_rs.Text.{◌+++◌, quoted}
use openidconnect_rs.Types.Platform.{Platform}
use openidconnect_rs.Types.Timestamp.{Times, Timestamp, timestamp_text, timestamp_to_utc}
use openidconnect_rs.Types.LanguageTag.{split_language_tag_key}
use openidconnect_rs.Types.LocalizedClaim.{LocalizedClaim}
use openidconnect_rs.Fields.{
  FieldError, custom, invalid_value, Case, required_case, optional_case, localized_case, present,
  visit_entries,
}
use openidconnect_rs.Claims.Standard.{AddressClaim, StandardClaims}

-- How the values of claims are read.
pub record ClaimValues (p : Platform) (GC J E : Type 0) : Type 1 where
  pub is_null : J → Bool
  pub text : J → Result String E
  pub flag : J → Result Bool E
  pub gender : J → Result GC E
  pub address : J → Result AddressClaim E
  pub times : Times p
  pub timestamp : J → Result (Timestamp times.Number) E

-- The local variables of the expansion of `deserialize_fields!`.
pub record Locals (p : Platform) (GC : Type 0) : Type 0 where
  pub sub : Option String
  pub name : Option (LocalizedClaim String)
  pub given_name : Option (LocalizedClaim String)
  pub family_name : Option (LocalizedClaim String)
  pub middle_name : Option (LocalizedClaim String)
  pub nickname : Option (LocalizedClaim String)
  pub preferred_username : Option String
  pub profile : Option (LocalizedClaim String)
  pub picture : Option (LocalizedClaim String)
  pub website : Option (LocalizedClaim String)
  pub email : Option String
  pub email_verified : Option Bool
  pub gender : Option GC
  pub birthday : Option String
  pub zoneinfo : Option String
  pub locale : Option String
  pub phone_number : Option String
  pub phone_number_verified : Option Bool
  pub address : Option AddressClaim
  pub updated_at : Option p.DateTime

module _ {p : Platform} {GC : Type 0} where
  unfoldable pub no_locals : Locals p GC
  no_locals = record {
    sub = none;
    name = none;
    given_name = none;
    family_name = none;
    middle_name = none;
    nickname = none;
    preferred_username = none;
    profile = none;
    picture = none;
    website = none;
    email = none;
    email_verified = none;
    gender = none;
    birthday = none;
    zoneinfo = none;
    locale = none;
    phone_number = none;
    phone_number_verified = none;
    address = none;
    updated_at = none;
  }

module _ {p : Platform} {GC J E : Type 0} (r : ClaimValues p GC J E) where
  unfoldable pub next_value : {V : Type 0} → (J → Result V E) → J → Result V (FieldError E)
  next_value read value = map_err invalid_value (read value)

  -- `next_value::<Option<V>>`
  unfoldable pub next_option :
      {V : Type 0} → (J → Result V E) → J → Result (Option V) (FieldError E)
  next_option read value =
      if r.is_null value then ok none else (do v ← map_err invalid_value (read value); ok (some v))

  unfoldable pub utc_or_error :
      String → Option (Timestamp r.times.Number) → Result (Option p.DateTime) (FieldError E)
  unfolding timestamp_to_utc timestamp_text
  utc_or_error field none = ok none
  utc_or_error field (some sec) = do
    time ← ok_or (timestamp_to_utc r.times sec) (
        custom (
          "failed to parse "
          +++ quoted (timestamp_text r.times sec)
          +++ " as UTC datetime (in seconds) for key "
          +++ quoted field))
    ok (some time)

  -- The reading of `Option(DateTime(Seconds(field)))`
  unfoldable pub next_time : String → J → Result (Option p.DateTime) (FieldError E)
  unfolding next_option utc_or_error
  next_time field value = do seconds ← next_option r.timestamp value; utc_or_error field seconds

  -- The arms after that of the subject.
  unfoldable pub other_arms : List (String × Case J (Locals p GC) E)
  unfolding next_option next_time next_value optional_case localized_case
  other_arms =
      ("name", localized_case (λ s. s.name) (λ s v. record s { name = v }) (next_value r.text))
      ∷ (
        "given_name",
        localized_case (λ s. s.given_name) (λ s v. record s { given_name = v }) (next_value r.text),
      )
      ∷ (
        "family_name",
        localized_case (λ s. s.family_name) (λ s v. record s { family_name = v })
            (next_value r.text),
      )
      ∷ (
        "middle_name",
        localized_case (λ s. s.middle_name) (λ s v. record s { middle_name = v })
            (next_value r.text),
      )
      ∷ (
        "nickname",
        localized_case (λ s. s.nickname) (λ s v. record s { nickname = v }) (next_value r.text),
      )
      ∷ (
        "preferred_username",
        optional_case "preferred_username" (λ s. s.preferred_username)
            (λ s v. record s { preferred_username = v }) (next_option r.text),
      )
      ∷ (
        "profile",
        localized_case (λ s. s.profile) (λ s v. record s { profile = v }) (next_value r.text),
      )
      ∷ (
        "picture",
        localized_case (λ s. s.picture) (λ s v. record s { picture = v }) (next_value r.text),
      )
      ∷ (
        "website",
        localized_case (λ s. s.website) (λ s v. record s { website = v }) (next_value r.text),
      )
      ∷ (
        "email",
        optional_case "email" (λ s. s.email) (λ s v. record s { email = v }) (next_option r.text),
      )
      ∷ (
        "email_verified",
        optional_case "email_verified" (λ s. s.email_verified)
            (λ s v. record s { email_verified = v }) (next_option r.flag),
      )
      ∷ (
        "gender",
        optional_case "gender" (λ s. s.gender) (λ s v. record s { gender = v })
            (next_option r.gender),
      )
      ∷ (
        "birthday",
        optional_case "birthday" (λ s. s.birthday) (λ s v. record s { birthday = v })
            (next_option r.text),
      )
      ∷ (
        "zoneinfo",
        optional_case "zoneinfo" (λ s. s.zoneinfo) (λ s v. record s { zoneinfo = v })
            (next_option r.text),
      )
      ∷ (
        "locale",
        optional_case "locale" (λ s. s.locale) (λ s v. record s { locale = v })
            (next_option r.text),
      )
      ∷ (
        "phone_number",
        optional_case "phone_number" (λ s. s.phone_number) (λ s v. record s { phone_number = v })
            (next_option r.text),
      )
      ∷ (
        "phone_number_verified",
        optional_case "phone_number_verified" (λ s. s.phone_number_verified)
            (λ s v. record s { phone_number_verified = v }) (next_option r.flag),
      )
      ∷ (
        "address",
        optional_case "address" (λ s. s.address) (λ s v. record s { address = v })
            (next_option r.address),
      )
      ∷ (
        "updated_at",
        optional_case "updated_at" (λ s. s.updated_at) (λ s v. record s { updated_at = v })
            (next_time "updated_at"),
      )
      ∷ []

  unfoldable pub claim_arms : List (String × Case J (Locals p GC) E)
  unfolding other_arms required_case next_value
  claim_arms =
      ("sub", required_case "sub" (λ s. s.sub) (λ s v. record s { sub = v }) (next_value r.text))
      ∷ other_arms

  -- The struct that the expansion makes of its locals.
  unfoldable pub claims_of : Locals p GC → Result (StandardClaims p GC) (FieldError E)
  unfolding present
  claims_of s = do
    sub ← present "sub" s.sub
    ok (record {
      sub = sub;
      name = s.name;
      given_name = s.given_name;
      family_name = s.family_name;
      middle_name = s.middle_name;
      nickname = s.nickname;
      preferred_username = s.preferred_username;
      profile = s.profile;
      picture = s.picture;
      website = s.website;
      email = s.email;
      email_verified = s.email_verified;
      gender = s.gender;
      birthday = s.birthday;
      zoneinfo = s.zoneinfo;
      locale = s.locale;
      phone_number = s.phone_number;
      phone_number_verified = s.phone_number_verified;
      address = s.address;
      updated_at = s.updated_at;
    })

  -- `ClaimsVisitor::visit_map`
  unfoldable pub visit_map : List (String × J) → Result (StandardClaims p GC) (FieldError E)
  unfolding claim_arms claims_of visit_entries no_locals
  visit_map entries = do locals ← visit_entries claim_arms entries no_locals; claims_of locals

-- The names that `should_include` matches with any tag, and those without one.
abbrev pub tagged_names : List String
tagged_names =
    "name" ∷ "given_name" ∷ "family_name" ∷ "middle_name" ∷ "nickname" ∷ "profile" ∷ "picture"
    ∷ "website" ∷ []

abbrev pub plain_names : List String
plain_names =
    "sub" ∷ "preferred_username" ∷ "email" ∷ "email_verified" ∷ "gender" ∷ "birthday" ∷ "zoneinfo"
    ∷ "locale" ∷ "phone_number" ∷ "phone_number_verified" ∷ "address" ∷ "updated_at" ∷ []

-- `FlattenFilter for StandardClaims`
unfoldable pub should_include : String → Bool
unfolding split_language_tag_key any
should_include key =
    let (field_name, language_tag) = split_language_tag_key key in
    not (
      any (λ n. field_name == n) tagged_names
      || (not (is_some language_tag) && any (λ n. field_name == n) plain_names))

-- `visit_map` of FilteredFlatten, whose value is read from the entries that are left.
unfoldable pub filtered_flatten {ℓ} :
    {J : Type 0} {R : Type ℓ} → (List (String × J) → R) → List (String × J) → R
unfolding should_include filter
filtered_flatten read entries = read (filter (λ e. should_include e.0) entries)
