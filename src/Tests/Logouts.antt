-- ===== src/Tests/Logouts.antt =====
-- A logout request, over URLs that are a text with a list of pairs.
use openidconnect_rs.Prelude.{
  String, ◌≡◌, ◌≢◌, refl, Option, some, none, List, [], ◌∷◌, ◌++◌, ok, eq_iff, arith,
}
use openidconnect_rs.Text.{join}
use openidconnect_rs.Types.Platform.{Platform, UrlText}
use openidconnect_rs.Builder
use openidconnect_rs.Builder.{given_last, given_all}
use openidconnect_rs.Logout.{Query, from, http_get_url}
use openidconnect_rs.Logout.Exact.{
  QueryLaws, Setting, state, ui_locale, client_id, apply, http_get_url_exact,
}
use openidconnect_rs.Tests.Sample.{clock}

abbrev PairUrl : Type 0
PairUrl = String × Option (List (String × String))

abbrev paged : Platform
paged = record clock { Url = PairUrl; parse = λ s. ok (s, none); url_to_string = λ u. u.0 }

abbrev pairs : PairUrl → List (String × String)
pairs (b, none) = []
pairs (b, some ps) = ps

abbrev append_pair : PairUrl → String → String → PairUrl
append_pair u n v = (u.0, some (pairs u ++ (n, v) ∷ []))

abbrev query_text : Option (List (String × String)) → Option String
query_text none = none
query_text (some []) = some ""
query_text (some (x ∷ xs)) = some "pairs"

abbrev query_of : Option String → Option (List (String × String))
query_of none = none
query_of (some s) = some []

abbrev query : Query paged
query = record {
  query_pairs_mut = λ u. (u.0, some (pairs u));
  append_pair = append_pair;
  query = λ u. query_text u.1;
  set_query = λ u s. (u.0, query_of s);
}

empty_text :
    (o : Option (List (String × String))) (b : String) → query_text o ≡ some "" → pairs (b, o) ≡ []
empty_text none b h = refl
empty_text (some []) b h = refl
empty_text (some (x ∷ xs)) b h = ground (arith, eq_iff "pairs" "", h)

abbrev laws : QueryLaws query
laws = record {
  Base = String;
  base = λ u. u.0;
  pairs = pairs;
  base-query_pairs_mut = λ u. refl;
  base-append_pair = λ u n v. refl;
  base-set_query = λ u s. refl;
  pairs-query_pairs_mut = λ u. refl;
  pairs-append_pair = λ u n v. refl;
  pairs_of_empty = λ u h. empty_text u.1 u.0 h;
  pairs-set_query_none = λ u. refl;
  query-set_query_none = λ u. refl;
}

abbrev endpoint : UrlText paged
endpoint = record {
  url = ("https://op.example/logout", some (("a", "b") ∷ []));
  text = "https://op.example/logout?a=b";
}

abbrev chosen : List (Setting paged)
chosen = ui_locale "fr" ∷ state "s" ∷ client_id "c" ∷ ui_locale "en" ∷ state "t" ∷ []

http_get_url_exact_example :
    ((http_get_url query (Builder.run apply chosen (from endpoint))).0
      ≡ "https://op.example/logout")
    × (pairs (http_get_url query (Builder.run apply chosen (from endpoint)))
        ≡ ("a", "b") ∷ ("client_id", "c") ∷ ("state", "t") ∷ ("ui_locales", "fr en") ∷ [])
    × (query.query (http_get_url query (Builder.run apply chosen (from endpoint))) ≢ some "")
unfolding given_last given_all join
http_get_url_exact_example = http_get_url_exact laws endpoint chosen
