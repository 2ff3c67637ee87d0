-- ===== src/Types/HashMap.antt =====
-- `std::collections::HashMap` with text keys, as an association list with one entry for each key
-- that is inserted. Nothing in the program relies on the order of its entries.
use openidconnect_rs.Prelude.{
  String, ◌≡◌, refl, Option, none, some, List, [], ◌∷◌, arith, ◌==◌, eq_iff, if◌then◌else◌,
}

abbrev pub HashMap {ℓ} : Type ℓ → Type ℓ
HashMap V = List (String × V)

module _ {ℓ} {V : Type ℓ} where
  unfoldable pub get : String → HashMap V → Option V
  get key [] = none
  get key ((held, value) ∷ rest) = if held == key then some value else get key rest

  -- The map after `HashMap::insert`; what it returns is `get` before.
  unfoldable pub insert : String → V → HashMap V → HashMap V
  insert key value [] = (key, value) ∷ []
  insert key value ((held, old) ∷ rest) =
      if held == key then (key, value) ∷ rest else (held, old) ∷ insert key value rest

  -- The map after `HashMap::remove`.
  unfoldable pub remove : String → HashMap V → HashMap V
  remove key [] = []
  remove key ((held, old) ∷ rest) =
      let others = remove key rest in if held == key then others else (held, old) ∷ others

  pub get-remove :
      (key at : String) (map : HashMap V)
      → get at (remove key map) ≡ (if key == at then none else get at map)
  unfolding get remove
  get-remove key at [] = ground arith
  get-remove key at ((held, old) ∷ rest) =
      ground (arith, eq_iff key at, eq_iff held key, eq_iff held at, get-remove key at rest)

  pub get-insert :
      (key at : String) (value : V) (map : HashMap V)
      → get at (insert key value map) ≡ (if key == at then some value else get at map)
  unfolding get insert
  get-insert key at value [] = refl
  get-insert key at value ((held, old) ∷ rest) =
      ground (arith, eq_iff key at, eq_iff held key, eq_iff held at, get-insert key at value rest)
