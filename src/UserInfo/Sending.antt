-- ===== src/UserInfo/Sending.antt =====
-- src/user_info.rs: the sending of a UserInfoRequest.
use openidconnect_rs.Prelude.{Option, [], ◌∷◌, Result, ◌>>=◌, map_err, ok_or}
use mathlib.Core.Option
use openidconnect_rs.Types.Platform.{Platform}
use openidconnect_rs.Traits.{Suite}
use openidconnect_rs.Claims.UserInfo.{UserInfoClaimsImpl}
use openidconnect_rs.Http.{Http, HttpResponse, Request, get, auth_bearer, mime_type_json}
use openidconnect_rs.UserInfo.{Reader, UserInfoRequest, UserInfoError, panic, user_info_response}

module _ {p : Platform} {t : Suite} (h : Http) (r : UserInfoRequest p t) where
  -- Nothing where the building of the header panics.
  unfoldable pub prepare_request : Option (Request p.Url h)
  unfolding auth_bearer
  prepare_request =
      Option.map
        (λ auth. record {
          url = r.url.url;
          method = get;
          headers = ("accept", h.from_static mime_type_json) ∷ auth ∷ [];
          body = [];
        })
        (auth_bearer h r.access_token)

module _ {p : Platform} {t : Suite} {AC GC : Type 0} (rd : Reader p t AC GC) (RE : Type 0)
    (h : Http) where
  -- `request`, and `request_async`, which makes the same calls
  unfoldable pub request :
      (Request p.Url h → Result (HttpResponse h) RE)
      → UserInfoRequest p t
      → Result (UserInfoClaimsImpl p AC GC) (UserInfoError rd.ParseError RE)
  unfolding prepare_request
  request http_client r = do
    http_request ← ok_or (prepare_request h r) panic
    http_response ← map_err UserInfoError.request (http_client http_request)
    user_info_response rd RE h r http_response
