-- ===== src/Common/Dict.antt =====
-- A Go map with string keys, as an association list.
use mathlib.Core.Path.{◌≡◌, refl, subst}
use mathlib.Core.Logic.{◌⊎◌, inl, inr}
use mathlib.Core.Option.{Option, none, some}
use mathlib.Core.List.{List, [], ◌∷◌}
use native.Mathlib.Omega.{arith}
use valve_controller.Common.Tests.{if◌then◌else◌, Bool-cases}
use valve_controller.Common.Lists.{In, NoDup}
use valve_controller.Common.Text.{Text, eq_text, eq_text_iff, eq_text_refl}

abbrev pub Dict {ℓ} : Type ℓ → Type ℓ
Dict V = List (Text × V)

module _ {ℓ} {V : Type ℓ} where
  -- `v, ok := m[k]`.
  unfoldable pub lookup : Text → Dict V → Option V
  lookup k [] = none
  lookup k ((j, v) ∷ m) = if eq_text j k then some v else lookup k m

  -- `m[k] = v`.
  unfoldable pub insert : Text → V → Dict V → Dict V
  insert k v [] = (k, v) ∷ []
  insert k v ((j, w) ∷ m) = if eq_text j k then (k, v) ∷ m else (j, w) ∷ insert k v m

  -- `delete(m, k)`.
  unfoldable pub delete : Text → Dict V → Dict V
  delete k [] = []
  delete k ((j, w) ∷ m) = let rest = delete k m in if eq_text j k then rest else (j, w) ∷ rest

  abbrev pub keys : Dict V → List Text
  keys [] = []
  keys ((k, _) ∷ m) = k ∷ keys m

  pub lookup-insert :
      (k j : Text) (v : V) (m : Dict V)
      → lookup j (insert k v m) ≡ (if eq_text k j then some v else lookup j m)
  unfolding lookup insert
  lookup-insert k j v [] = refl
  lookup-insert k j v ((i, w) ∷ m) =
      ground (arith, eq_text_iff k j, eq_text_iff i k, eq_text_iff i j, lookup-insert k j v m)

  pub lookup-delete :
      (k j : Text) (m : Dict V) → lookup j (delete k m) ≡ (if eq_text k j then none else lookup j m)
  unfolding lookup delete
  lookup-delete k j [] = ground arith
  lookup-delete k j ((i, w) ∷ m) =
      ground (arith, eq_text_iff k j, eq_text_iff i k, eq_text_iff i j, lookup-delete k j m)

  pub lookup-insert_self : (k : Text) (v : V) (m : Dict V) → lookup k (insert k v m) ≡ some v
  lookup-insert_self k v m = simp (lookup-insert, eq_text_refl)

  pub lookup-delete_self : (k : Text) (m : Dict V) → lookup k (delete k m) ≡ none
  lookup-delete_self k m = simp (lookup-delete, eq_text_refl)

  pub In-insert :
      (k j : Text) (v : V) (m : Dict V) → In j (keys (insert k v m)) → (j ≡ k) ⊎ In j (keys m)
  unfolding insert
  In-insert k j v [] h = ground arith
  In-insert k j v ((i, w) ∷ m) h = ground (arith, eq_text_iff i k, In-insert k j v m)

  pub insert-NoDup : (k : Text) (v : V) (m : Dict V) → NoDup (keys m) → NoDup (keys (insert k v m))
  unfolding insert
  insert-NoDup k v [] d = (λ z. z, tt)
  insert-NoDup k v ((i, w) ∷ m) (p, d) = elim (Bool-cases (eq_text i k)) [
    | inl e ↦ rw e (subst (λ x. ¬ In x (keys m)) ((eq_text_iff i k).0 e) p, d)
    | inr e ↦ rw e (λ z. ground (arith, eq_text_iff i k, In-insert k i v m z), insert-NoDup k v m d)
  ]

  pub In-delete : (k j : Text) (m : Dict V) → In j (keys (delete k m)) → In j (keys m)
  unfolding delete
  In-delete k j [] h = h
  In-delete k j ((i, w) ∷ m) h = ground (arith, In-delete k j m)

  pub delete-NoDup : (k : Text) (m : Dict V) → NoDup (keys m) → NoDup (keys (delete k m))
  unfolding delete
  delete-NoDup k [] d = tt
  delete-NoDup k ((i, w) ∷ m) (p, d) = elim (Bool-cases (eq_text i k)) [
    | inl e ↦ rw e (delete-NoDup k m d)
    | inr e ↦ rw e (λ z. p (In-delete k i m z), delete-NoDup k m d)
  ]
