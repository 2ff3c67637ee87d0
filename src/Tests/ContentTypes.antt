-- ===== src/Tests/ContentTypes.antt =====
-- Content types with parameters, with a space before them and without.
use openidconnect_rs.Prelude.{◌≡◌, refl, false}
use openidconnect_rs.Text.{to_lowercase}
use openidconnect_rs.Http.{content_type_has_essence, text_has_essence, before_semicolon}
use openidconnect_rs.Http.Essence.{
  NoSemicolon, before_semicolon-NoSemicolon, HasType, content_type_exact, space_refused,
}
use openidconnect_rs.Tests.Responses.{texts}

content_type_exact_example : HasType texts "Application/JSON; charset=utf-8" "application/json"
unfolding content_type_has_essence text_has_essence before_semicolon to_lowercase
content_type_exact_example =
    (content_type_exact texts "Application/JSON; charset=utf-8" "application/json").0 refl

plain : NoSemicolon "application/json"
unfolding before_semicolon
plain = before_semicolon-NoSemicolon "application/json"

space_refused_example :
    content_type_has_essence texts "application/json ; charset=utf-8" "application/json" ≡ false
space_refused_example =
    space_refused texts "application/json ; charset=utf-8" "application/json" " charset=utf-8" plain
      refl
