-- ===== src/Tests/Objects.antt =====
-- Claims in an object whose values are texts.
use openidconnect_rs.Prelude.{
  String, ◌≡◌, refl, true, none, some, List, [], ◌∷◌, ok, err, ◌==◌, OnlyPasses, All, filter, not,
}
use openidconnect_rs.Types.LanguageTag.{split_language_tag_key}
use openidconnect_rs.Types.HashMap
use openidconnect_rs.Types.Timestamp.{rfc3339}
use openidconnect_rs.Types.LocalizedClaim
use openidconnect_rs.Fields.Once.{Names}
use openidconnect_rs.Claims.Fields.Additional.{Ignores, additional_disjoint}
use openidconnect_rs.Claims.Standard
use openidconnect_rs.Claims.Standard.{StandardClaims}
use openidconnect_rs.Claims.Fields.{should_include, filtered_flatten, ClaimValues, visit_map}
use openidconnect_rs.Claims.Fields.Subject.{subject_exact}
use openidconnect_rs.Tests.Sample.{clock, times}

abbrev values : ClaimValues clock String String String
values = record {
  is_null = λ s. s == "null";
  text = λ s. ok s;
  flag = λ s. ok true;
  gender = λ s. ok s;
  address = λ s. err "no address";
  times = times;
  timestamp = λ s. ok (rfc3339 s);
}

abbrev entries : List (String × String)
entries = ("name#fr", "Alice") ∷ ("sub", "alice") ∷ ("unknown", "x") ∷ ("email", "null") ∷ []

abbrev alice : StandardClaims clock String
unfolding Standard.new
alice = record (Standard.new "alice") {
  name = some (record { tagged = ("fr", "Alice") ∷ []; untagged = none });
}

read : visit_map values entries ≡ ok alice
unfolding visit_map alice Standard.new LocalizedClaim.contains_key LocalizedClaim.new
    LocalizedClaim.insert HashMap.get HashMap.insert
read = refl

subject_exact_example :
    (e : String × String) × OnlyPasses (Names "sub") entries e
    × ((split_language_tag_key e.0).1 ≡ none)
    × (values.text e.1 ≡ ok alice.sub)
subject_exact_example = subject_exact values entries alice read

additional_disjoint_example :
    (visit_map values (filter (λ e. not (should_include e.0)) entries) ≡ ok alice)
    × filtered_flatten (All (Ignores values)) entries
additional_disjoint_example = additional_disjoint values entries alice read

-- Only the unknown entry is left.
left_test : filtered_flatten (λ es. es) entries ≡ ("unknown", "x") ∷ []
unfolding filtered_flatten should_include filter
left_test = refl
