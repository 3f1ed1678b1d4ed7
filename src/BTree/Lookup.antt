-- ===== src/BTree/Lookup.antt =====
-- What a lookup finds after each change of a map, and among the values that a search visits.
use ongrok_relay.Prelude.{
  ℕ, ◌≡◌, refl, ◌≢◌, Bool, false, [], ◌∷◌, none, some, ◌==◌, if◌then◌else◌, arith, any, find, ◌⊎◌,
  inl, inr, Bool-cases,
}
use mathlib.Core.Option
use ongrok_relay.BTree.{BTreeMap, lookup, insert, remove, update, values}

module _ {ℓ} {V : Type ℓ} where
  pub lookup-insert :
      (key other : ℕ) (value : V) (m : BTreeMap V)
      → (if key == other then some value else lookup other m) ≡ lookup other (insert key value m)
  unfolding lookup insert
  lookup-insert key other value [] = refl
  lookup-insert key other value ((first, old) ∷ rest) =
      ground (arith, lookup-insert key other value rest)

  pub lookup-remove :
      (k j : ℕ) (m : BTreeMap V) → lookup j (remove k m) ≡ (if k == j then none else lookup j m)
  unfolding lookup remove
  lookup-remove k j [] = ground arith
  lookup-remove k j ((i, w) ∷ m) = ground (arith, lookup-remove k j m)

  pub lookup-update :
      (k j : ℕ) (f : V → V) (m : BTreeMap V)
      → lookup j (update k f m) ≡ (if k == j then Option.map f (lookup j m) else lookup j m)
  unfolding lookup update
  lookup-update k j f [] = ground arith
  lookup-update k j f ((i, w) ∷ m) = ground (arith, lookup-update k j f m)

  pub lookup-insert_self : (k : ℕ) (v : V) (m : BTreeMap V) → lookup k (insert k v m) ≡ some v
  lookup-insert_self k v m = rw (← (lookup-insert k k v m)) (ground arith)

  pub lookup-insert_ne :
      (k j : ℕ) (v : V) (m : BTreeMap V) → k ≢ j → lookup j (insert k v m) ≡ lookup j m
  lookup-insert_ne k j v m h = rw (← (lookup-insert k j v m)) (ground arith)

  pub lookup-remove_self : (k : ℕ) (m : BTreeMap V) → lookup k (remove k m) ≡ none
  lookup-remove_self k m = rw (lookup-remove k k m) (ground arith)

  pub lookup-remove_ne : (k j : ℕ) (m : BTreeMap V) → k ≢ j → lookup j (remove k m) ≡ lookup j m
  lookup-remove_ne k j m h = rw (lookup-remove k j m) (ground arith)

  -- What no value satisfies, no entry satisfies.
  pub lookup-any-false :
      (p : V → Bool) (m : BTreeMap V) (k : ℕ) (v : V)
      → any p (values m) ≡ false
      → lookup k m ≡ some v
      → p v ≡ false
  unfolding lookup
  lookup-any-false p [] k v h e = cc
  lookup-any-false p ((j, w) ∷ m) k v h e = ground (arith, lookup-any-false p m k v)

  -- A search that finds nothing has seen every entry.
  pub lookup-find-none :
      (p : V → Bool) (m : BTreeMap V) (k : ℕ) (v : V)
      → find p (values m) ≡ none
      → lookup k m ≡ some v
      → p v ≡ false
  unfolding lookup
  lookup-find-none p [] k v h e = cc
  lookup-find-none p ((j, w) ∷ m) k v h e = ground (arith, lookup-find-none p m k v)

  -- An entry of a map after an insertion is the new one or an old one under another key.
  pub lookup-insert_cases :
      (k j : ℕ) (v a : V) (m : BTreeMap V)
      → lookup j (insert k v m) ≡ some a
      → ((k ≡ j) × (v ≡ a)) ⊎ ((k ≢ j) × (lookup j m ≡ some a))
  lookup-insert_cases k j v a m e = elim (Bool-cases (k == j)) [
    | inl p ↦ inl (ground arith, ground (arith, lookup-insert k j v m))
    | inr p ↦ inr (ground arith, ground (arith, lookup-insert k j v m))
  ]

  pub lookup-remove-some :
      (k j : ℕ) (a : V) (m : BTreeMap V)
      → lookup j (remove k m) ≡ some a
      → (k ≢ j) × (lookup j m ≡ some a)
  lookup-remove-some k j a m e = elim (Bool-cases (k == j)) [
    | inl p ↦ ground (arith, lookup-remove k j m)
    | inr p ↦ (ground arith, ground (arith, lookup-remove k j m))
  ]

  -- An entry of a map after a change in place is an old one, changed if it has the key.
  pub lookup-update-some :
      (k j : ℕ) (f : V → V) (a : V) (m : BTreeMap V)
      → lookup j (update k f m) ≡ some a
      → (b : V) × (lookup j m ≡ some b) × (a ≡ (if k == j then f b else b))
  unfolding lookup update
  lookup-update-some k j f a [] e = cc
  lookup-update-some k j f a ((i, w) ∷ m) e = elim (Bool-cases (i == j)) [
    | inl p ↦ (w, ground arith, ground arith)
    | inr p ↦
        let (b, found, same) = lookup-update-some k j f a m (ground arith) in
        (b, ground arith, same)
  ]
