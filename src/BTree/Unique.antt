-- ===== src/BTree/Unique.antt =====
-- Maps in which no two entries are related by a relation.
use ongrok_relay.Prelude.{ℕ, ◌≡◌, sym, subst, ◌∙◌, some, inl, inr}
use ongrok_relay.BTree.{BTreeMap, lookup, insert, remove}
use ongrok_relay.BTree.Lookup.{lookup-insert_cases, lookup-remove-some}

module _ {ℓ κ} {V : Type ℓ} (R : V → V → Type κ) where
  abbrev pub IsUnique : BTreeMap V → Type (ℓ ⊔ κ)
  IsUnique m = (i j : ℕ) (a b : V) → lookup i m ≡ some a → lookup j m ≡ some b → R a b → i ≡ j

  pub insert-IsUnique :
      (k : ℕ) (v : V) (m : BTreeMap V)
      → ((a b : V) → R a b → R b a)
      → ((j : ℕ) (b : V) → lookup j m ≡ some b → R v b → k ≡ j)
      → IsUnique m
      → IsUnique (insert k v m)
  insert-IsUnique k v m sy fresh u i j a b ea eb r = elim (lookup-insert_cases k i v a m ea) [
    | inl (p, va) ↦ elim (lookup-insert_cases k j v b m eb) [
      | inl (q, vb) ↦ sym p ∙ q
      | inr (q, fb) ↦ sym p ∙ fresh j b fb (subst (λ x. R x b) (sym va) r)
    ]
    | inr (p, fa) ↦ elim (lookup-insert_cases k j v b m eb) [
      | inl (q, vb) ↦ sym (fresh i a fa (sy a v (subst (λ x. R a x) (sym vb) r))) ∙ q
      | inr (q, fb) ↦ u i j a b fa fb r
    ]
  ]

  pub remove-IsUnique : (k : ℕ) (m : BTreeMap V) → IsUnique m → IsUnique (remove k m)
  remove-IsUnique k m u i j a b ea eb r =
      u i j a b (lookup-remove-some k i a m ea).1 (lookup-remove-some k j b m eb).1 r
