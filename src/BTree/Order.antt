-- ===== src/BTree/Order.antt =====
-- Maps whose keys are in strictly ascending order.
use ongrok_relay.Prelude.{ℕ, ◌≡◌, ◌<◌, Bool, [], ◌∷◌, some, arith, find, Bool-cases, inl, inr}
use ongrok_relay.BTree.{BTreeMap, lookup, insert, remove, update, values}

module _ {ℓ} {V : Type ℓ} where
  abbrev pub Above : ℕ → BTreeMap V → Type 0
  Above k [] = Unit
  Above k ((j, v) ∷ m) = (k < j) × Above k m

  abbrev pub IsSorted : BTreeMap V → Type 0
  IsSorted [] = Unit
  IsSorted ((k, v) ∷ m) = Above k m × IsSorted m

  Above-insert : (i k : ℕ) (v : V) (m : BTreeMap V) → i < k → Above i m → Above i (insert k v m)
  unfolding insert
  Above-insert i k v [] h a = (h, tt)
  Above-insert i k v ((j, w) ∷ m) h a = ground (arith, Above-insert i k v m)

  Above-trans : (i k : ℕ) (m : BTreeMap V) → i < k → Above k m → Above i m
  Above-trans i k [] h a = tt
  Above-trans i k ((j, v) ∷ m) h a = (omega arith, Above-trans i k m h a.1)

  Above-remove : (i k : ℕ) (m : BTreeMap V) → Above i m → Above i (remove k m)
  unfolding remove
  Above-remove i k [] a = tt
  Above-remove i k ((j, v) ∷ m) a = ground (arith, Above-remove i k m)

  Above-update : (i k : ℕ) (f : V → V) (m : BTreeMap V) → Above i m → Above i (update k f m)
  unfolding update
  Above-update i k f [] a = tt
  Above-update i k f ((j, v) ∷ m) a = ground (arith, Above-update i k f m)

  pub insert-IsSorted : (k : ℕ) (v : V) (m : BTreeMap V) → IsSorted m → IsSorted (insert k v m)
  unfolding insert
  insert-IsSorted k v [] s = (tt, tt)
  insert-IsSorted k v ((j, w) ∷ m) s =
      ground (arith, insert-IsSorted k v m, Above-insert j k v m, Above-trans k j m)

  pub remove-IsSorted : (k : ℕ) (m : BTreeMap V) → IsSorted m → IsSorted (remove k m)
  unfolding remove
  remove-IsSorted k [] s = tt
  remove-IsSorted k ((j, v) ∷ m) s = ground (arith, remove-IsSorted k m, Above-remove j k m)

  pub update-IsSorted : (k : ℕ) (f : V → V) (m : BTreeMap V) → IsSorted m → IsSorted (update k f m)
  unfolding update
  update-IsSorted k f [] s = tt
  update-IsSorted k f ((j, v) ∷ m) s = ground (arith, update-IsSorted k f m, Above-update j k f m)

  pub lookup-Above : (i k : ℕ) (v : V) (m : BTreeMap V) → Above i m → lookup k m ≡ some v → i < k
  unfolding lookup
  lookup-Above i k v [] a e = cc
  lookup-Above i k v ((j, w) ∷ m) a e = ground (arith, lookup-Above i k v m)

  -- A value that a search returns stands in the map under some key.
  pub lookup-find :
      (p : V → Bool) (m : BTreeMap V) (v : V)
      → IsSorted m
      → find p (values m) ≡ some v
      → (k : ℕ) × (lookup k m ≡ some v)
  unfolding lookup
  lookup-find p [] v s e = cc
  lookup-find p ((j, w) ∷ m) v s e = elim (Bool-cases (p w)) [
    | inl h ↦ (j, ground arith)
    | inr h ↦
        let (k, found) = lookup-find p m v s.1 (ground arith) in
        (k, ground (arith, lookup-Above j k v m s.0 found))
  ]
