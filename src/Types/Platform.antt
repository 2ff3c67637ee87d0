-- ===== src/Types/Platform.antt =====
-- What the library takes from the crates `url` and `chrono`, and the URL newtypes of src/macros.rs.
use openidconnect_rs.Prelude.{String, Bool, Result, ok, ◌>>=◌, ◌==◌}

pub record Platform : Type 1 where
  pub Url : Type 0
  pub UrlParseError : Type 0
  pub parse : String → Result Url UrlParseError
  pub url_to_string : Url → String
  -- `DateTime<Utc>` with its order and its `Display`
  pub DateTime : Type 0
  pub time_leb : DateTime → DateTime → Bool
  -- what `Utc::now` returns when it is called
  pub now : DateTime
  pub time_text : DateTime → String

-- `new_url_type!`: a parsed URL beside the text that it was parsed from. Only the text is compared.
pub record UrlText (p : Platform) : Type 0 where
  pub url : p.Url
  pub text : String

module _ (p : Platform) where
  -- `$name::new`
  unfoldable pub new : String → Result (UrlText p) p.UrlParseError
  new s = do u ← p.parse s; ok (record { url = u; text = s })

  -- `$name::from_url`
  unfoldable pub from_url : p.Url → UrlText p
  from_url u = record { url = u; text = p.url_to_string u }

  -- `PartialEq for $name`
  unfoldable pub eq : UrlText p → UrlText p → Bool
  eq a b = a.text == b.text
