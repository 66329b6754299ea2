-- ===== src/StringUtil/Map.antt =====
-- `std::map` with the comparison `IgnoreCase`: entries in the order of the keys, each key once.
use mathlib.Core.Option
use pubsublib.Prelude.{◌≡◌, refl, Option, none, some, List, [], ◌∷◌, arith, if◌then◌else◌}
use pubsublib.Prelude.Texts.{Text}
use pubsublib.StringUtil.Interface.{StringUtil, iequals-sym, iequals_trans}

abbrev pub TextMap {ℓ} : Type ℓ → Type ℓ
TextMap V = List (Text × V)

module _ {ℓ} {V : Type ℓ} (u : StringUtil) where
  -- std::map::find, by the ties of the order.
  unfoldable pub find : Text → TextMap V → Option V
  find k [] = none
  find k ((j, w) ∷ m) = if u.iequals k j then some w else find k m

  -- std::map::insert and emplace: an equal key is left alone.
  unfoldable pub insert : Text → V → TextMap V → TextMap V
  insert k v [] = (k, v) ∷ []
  insert k v ((j, w) ∷ m) =
      if u.ignore_case k j
      then (k, v) ∷ (j, w) ∷ m
      else if u.ignore_case j k
      then (j, w) ∷ insert k v m
      else (j, w) ∷ m

  -- A change of the mapped value through an iterator or a pointer.
  unfoldable pub update : Text → (V → V) → TextMap V → TextMap V
  update k f [] = []
  update k f ((j, w) ∷ m) = if u.iequals k j then (j, f w) ∷ m else (j, w) ∷ update k f m

  -- std::map::erase at what `find` found.
  unfoldable pub erase : Text → TextMap V → TextMap V
  erase k [] = []
  erase k ((j, w) ∷ m) = if u.iequals k j then m else (j, w) ∷ erase k m

  -- A key that was absent is found, under any spelling; every other key is found as before.
  pub find-insert :
      (j k : Text) (v : V) (m : TextMap V)
      → find k m ≡ none
      → find j (insert k v m) ≡ (if u.iequals j k then some v else find j m)
  unfolding find insert
  find-insert j k v [] h = refl
  find-insert j k v ((i, w) ∷ m) h =
      ground (
        arith,
        find-insert j k v m,
        u.ignore_case_ties k i,
        iequals-sym u j k,
        iequals_trans u k j i,
      )

  pub find-update :
      (j k : Text) (f : V → V) (m : TextMap V)
      → find j (update k f m) ≡ (if u.iequals j k then Option.map f (find j m) else find j m)
  unfolding find update
  find-update j k f [] = ground arith
  find-update j k f ((i, w) ∷ m) = ground (
    arith,
    find-update j k f m,
    iequals-sym u j k,
    iequals_trans u k j i,
    iequals_trans u j k i,
    iequals-sym u k i,
    iequals_trans u j i k,
  )
