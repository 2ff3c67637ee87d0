-- ===== src/Tests/Writing.antt =====
-- Claims that are written to an object and read again, with one kind of value for each kind of claim.
use openidconnect_rs.Prelude.{
  ℕ, String, ◌≡◌, refl, Bool, true, false, some, [], ◌∷◌, map, Result, ok, err,
}
use openidconnect_rs.Types.HashMap
use openidconnect_rs.Types.Timestamp.{Timestamp}
use openidconnect_rs.Types.LocalizedClaim
use openidconnect_rs.Claims.Standard
use openidconnect_rs.Claims.Standard.{AddressClaim, StandardClaims}
use openidconnect_rs.Claims.Fields.{ClaimValues, visit_map}
use openidconnect_rs.Claims.Fields.Writing.{ClaimWriters, serialize}
use openidconnect_rs.Claims.Fields.Writing.Laws.{WriterLaws}
use openidconnect_rs.Claims.Fields.Writing.RoundTrip.{IsWritten, visit_map-serialize}
use openidconnect_rs.Tests.Sample.{clock, times, times-TimesLaws}

data Value : Type 0 where
  null : Value
  text : String → Value
  flag : Bool → Value
  address : AddressClaim → Value
  number : Timestamp ℕ → Value

is_null : Value → Bool
is_null null = true
is_null (text s) = false
is_null (flag b) = false
is_null (address a) = false
is_null (number n) = false

as_text : Value → Result String String
as_text (text s) = ok s
as_text null = err "a text"
as_text (flag b) = err "a text"
as_text (address a) = err "a text"
as_text (number n) = err "a text"

as_flag : Value → Result Bool String
as_flag (flag b) = ok b
as_flag null = err "a flag"
as_flag (text s) = err "a flag"
as_flag (address a) = err "a flag"
as_flag (number n) = err "a flag"

as_address : Value → Result AddressClaim String
as_address (address a) = ok a
as_address null = err "an address"
as_address (text s) = err "an address"
as_address (flag b) = err "an address"
as_address (number n) = err "an address"

as_number : Value → Result (Timestamp ℕ) String
as_number (number n) = ok n
as_number null = err "a number"
as_number (text s) = err "a number"
as_number (flag b) = err "a number"
as_number (address a) = err "a number"

abbrev values : ClaimValues clock String Value String
values = record {
  is_null = is_null;
  text = as_text;
  flag = as_flag;
  gender = as_text;
  address = as_address;
  times = times;
  timestamp = as_number;
}

abbrev writers : ClaimWriters values
writers = record {
  write_text = λ s. text s;
  write_flag = λ b. flag b;
  write_gender = λ s. text s;
  write_address = λ a. address a;
  write_timestamp = λ n. number n;
  sorted = λ es. es;
}

laws : WriterLaws values writers
unfolding is_null as_text as_flag as_address as_number
laws = record {
  text_again = λ v. (refl, refl);
  flag_again = λ v. (refl, refl);
  gender_again = λ v. (refl, refl);
  address_again = λ v. (refl, refl);
  times_laws = times-TimesLaws;
  timestamp_again = λ v. (refl, refl);
}

abbrev alice : StandardClaims clock String
unfolding Standard.new
alice = record (Standard.new "alice") {
  name = some (record { tagged = ("fr", "Alice") ∷ ("de", "Alix") ∷ []; untagged = some "A" });
  email_verified = some true;
  updated_at = some 1000;
}

writable : IsWritten writers alice
unfolding alice Standard.new LocalizedClaim.iter LocalizedClaim.untagged_entries HashMap.get
writable = record {
  name_writable = (refl, (refl, refl, (refl, refl, tt)), tt);
  given_name_writable = tt;
  family_name_writable = tt;
  middle_name_writable = tt;
  nickname_writable = tt;
  profile_writable = tt;
  picture_writable = tt;
  website_writable = tt;
  whole_seconds = λ d e. refl;
}

visit_map-serialize_example : visit_map values (serialize writers alice) ≡ ok alice
visit_map-serialize_example = visit_map-serialize values writers laws alice writable

written_test :
    map (λ e. e.0) (serialize writers alice)
    ≡ "sub" ∷ "name" ∷ "name#fr" ∷ "name#de" ∷ "email_verified" ∷ "updated_at" ∷ []
unfolding serialize alice Standard.new
written_test = refl
