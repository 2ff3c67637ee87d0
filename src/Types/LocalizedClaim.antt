-- ===== src/Types/LocalizedClaim.antt =====
-- src/types.rs: LocalizedClaim, the values of a claim by language tag and the untagged one.
pub mod Laws
use openidconnect_rs.Prelude.{String, Option, none, some, List, [], ◌∷◌, ◌++◌, map, Bool, is_some}
use openidconnect_rs.Types.HashMap
use openidconnect_rs.Types.HashMap.{HashMap}

pub record LocalizedClaim (T : Type 0) : Type 0 where
  pub tagged : HashMap T
  pub untagged : Option T

module _ {T : Type 0} where
  unfoldable pub new : LocalizedClaim T
  new = record { tagged = []; untagged = none }

  -- `From<T>`
  unfoldable pub from : T → LocalizedClaim T
  from default = record { tagged = []; untagged = some default }

  unfoldable pub contains_key : LocalizedClaim T → Option String → Bool
  contains_key c (some l) = is_some (HashMap.get l c.tagged)
  contains_key c none = is_some c.untagged

  unfoldable pub get : LocalizedClaim T → Option String → Option T
  get c (some l) = HashMap.get l c.tagged
  get c none = c.untagged

  unfoldable pub untagged_entries : Option T → List (Option String × T)
  untagged_entries none = []
  untagged_entries (some v) = (none, v) ∷ []

  unfoldable pub iter : LocalizedClaim T → List (Option String × T)
  unfolding untagged_entries
  iter c = untagged_entries c.untagged ++ map (λ e. (some (e.0), e.1)) c.tagged

  -- The claim afterwards, and the value that was there.
  unfoldable pub insert : LocalizedClaim T → Option String → T → LocalizedClaim T × Option T
  insert c (some l) v = (record c { tagged = HashMap.insert l v c.tagged }, HashMap.get l c.tagged)
  insert c none v = (record c { untagged = some v }, c.untagged)

  unfoldable pub remove : LocalizedClaim T → Option String → LocalizedClaim T × Option T
  remove c (some l) = (record c { tagged = HashMap.remove l c.tagged }, HashMap.get l c.tagged)
  remove c none = (record c { untagged = none }, c.untagged)
