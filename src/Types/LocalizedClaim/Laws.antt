-- ===== src/Types/LocalizedClaim/Laws.antt =====
-- LocalizedClaim as a map from optional language tags.
use openidconnect_rs.Prelude.{
  String, ◌≡◌, refl, Option, none, some, Bool, true, false, ◌==◌, if◌then◌else◌, is_some,
}
use openidconnect_rs.Types.HashMap.{get-insert, get-remove}
use openidconnect_rs.Types.LocalizedClaim.{LocalizedClaim, contains_key, get, insert, remove}

-- Whether two optional language tags are the same.
abbrev pub same_locale : Option String → Option String → Bool
same_locale none none = true
same_locale (some a) (some b) = a == b
same_locale _ _ = false

module _ {T : Type 0} where
  -- After an insertion at a locale, that value is found at the locale, and what was there before at
  -- each other one, tagged or not.
  pub get-insert_lem :
      (c : LocalizedClaim T) (k l : Option String) (v : T)
      → get (insert c k v).0 l ≡ (if same_locale k l then some v else get c l)
  unfolding get insert
  get-insert_lem c none none v = refl
  get-insert_lem c none (some b) v = refl
  get-insert_lem c (some a) none v = refl
  get-insert_lem c (some a) (some b) v = get-insert a b v c.tagged

  -- After a removal at a locale, nothing is found at the locale, and what was there before at each
  -- other one, tagged or not.
  pub get-remove_lem :
      (c : LocalizedClaim T) (k l : Option String)
      → get (remove c k).0 l ≡ (if same_locale k l then none else get c l)
  unfolding get remove
  get-remove_lem c none none = refl
  get-remove_lem c none (some b) = refl
  get-remove_lem c (some a) none = refl
  get-remove_lem c (some a) (some b) = get-remove a b c.tagged

  pub contains_key-eq-get :
      (c : LocalizedClaim T) (l : Option String) → contains_key c l ≡ is_some (get c l)
  unfolding contains_key get
  contains_key-eq-get c none = refl
  contains_key-eq-get c (some a) = refl
