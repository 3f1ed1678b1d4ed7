-- ===== src/BTree.antt =====
-- `std::collections::BTreeMap` with number keys: the entries in ascending order of key.
pub mod Lookup
pub mod Order
pub mod Unique
use ongrok_relay.Prelude.{
  ℕ, ◌≡◌, refl, Bool, List, [], ◌∷◌, Option, none, some, ltb, ◌==◌, if◌then◌else◌, is_some, map,
  keep, not,
}

module _ {ℓ} where
  abbrev pub BTreeMap : Type ℓ → Type ℓ
  BTreeMap V = List (ℕ × V)

module _ {ℓ} {V : Type ℓ} where
  unfoldable pub lookup : ℕ → BTreeMap V → Option V
  lookup key [] = none
  lookup key ((first, value) ∷ rest) = if first == key then some value else lookup key rest

  unfoldable pub insert : ℕ → V → BTreeMap V → BTreeMap V
  insert k v [] = (k, v) ∷ []
  insert k v ((j, w) ∷ m) =
      if ltb k j then (k, v) ∷ (j, w) ∷ m else if j == k then (k, v) ∷ m else (j, w) ∷ insert k v m

  unfoldable pub remove : ℕ → BTreeMap V → BTreeMap V
  remove k [] = []
  remove k ((j, v) ∷ m) = if j == k then remove k m else (j, v) ∷ remove k m

  -- A change in place through `get_mut`.
  unfoldable pub update : ℕ → (V → V) → BTreeMap V → BTreeMap V
  update k f [] = []
  update k f ((j, v) ∷ m) = if j == k then (j, f v) ∷ update k f m else (j, v) ∷ update k f m

  abbrev pub values : BTreeMap V → List V
  values = map (λ e. e.1)

  abbrev pub contains_key : ℕ → BTreeMap V → Bool
  contains_key k m = is_some (lookup k m)
