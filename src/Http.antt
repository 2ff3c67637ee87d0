-- ===== src/Http.antt =====
-- src/http_utils.rs: the content type of a response.
pub mod Essence
use Prim.Native.Char.{code}
use mathlib.Core.Option
use openidconnect_rs.Prelude.{
  ℕ, String, Bool, false, Option, none, some, List, nat_eq, if◌then◌else◌, Result, ok, err, ◌==◌,
}
use openidconnect_rs.Text.{◌+++◌, quoted, to_lowercase}

-- What the library takes from the crate http: header values, as text if they are visible ASCII.
pub record Http : Type 1 where
  pub HeaderValue : Type 0
  pub to_str : HeaderValue → Option String
  pub from_static : String → HeaderValue
  -- nothing for a text that is no header value
  pub from_str : String → Option HeaderValue
  -- `{:?}`
  pub debug_text : HeaderValue → String
  -- `{}` of a status code
  pub status_text : ℕ → String

pub record HttpResponse (h : Http) : Type 0 where
  pub status_code : ℕ
  -- `headers.get(CONTENT_TYPE)`
  pub content_type : Option h.HeaderValue
  pub body : List ℕ

abbrev pub mime_type_json : String
mime_type_json = "application/json"

abbrev pub mime_type_jwt : String
mime_type_jwt = "application/jwt"

-- `&ct[..ct.find(';').unwrap_or(ct.len())]`
unfoldable pub before_semicolon : String → String
before_semicolon String.[] = ""
before_semicolon (String.◌∷◌ c s) =
    let rest = before_semicolon s in if nat_eq (code c) b';' then "" else String.◌∷◌ c rest

unfoldable pub text_has_essence : Option String → String → Bool
text_has_essence none expected_essence = false
text_has_essence (some ct) expected_essence =
    to_lowercase (before_semicolon ct) == to_lowercase expected_essence

module _ (h : Http) where
  unfoldable pub content_type_has_essence : h.HeaderValue → String → Bool
  unfolding text_has_essence
  content_type_has_essence content_type expected_essence =
      text_has_essence (h.to_str content_type) expected_essence

  unfoldable pub check_content_type : Option h.HeaderValue → String → Result (Unit {0}) String
  unfolding content_type_has_essence
  check_content_type none expected_content_type = ok tt
  check_content_type (some content_type) expected_content_type =
      if content_type_has_essence content_type expected_content_type
      then ok tt
      else err (
          "Unexpected response Content-Type: "
          +++ h.debug_text content_type
          +++ ", should be "
          +++ quoted expected_content_type)

pub data Method : Type 0 where
  get post : Method

-- The `HttpRequest` of the crate oauth2, with the names of its headers as texts.
pub record Request (Url : Type 0) (h : Http) : Type 0 where
  pub url : Url
  pub method : Method
  pub headers : List (String × h.HeaderValue)
  pub body : List ℕ

-- `auth_bearer`; the code panics where there is nothing.
unfoldable pub auth_bearer : (h : Http) → String → Option (String × h.HeaderValue)
auth_bearer h access_token =
    Option.map (λ v. ("authorization", v)) (h.from_str ("Bearer " +++ access_token))
