-- ===== src/Prelude/Map.antt =====
-- Go's `map[K]V` as an association list in insertion order, and its laws. What ranges over a map
-- in the program does not depend on the order.
use mathlib.Core.Path.{◌≡◌, refl}
use mathlib.Core.Bool.{Bool, true, false, ◌&&◌, ◌||◌}
use mathlib.Core.Option.{Option, none, some}
use mathlib.Core.List.{List, [], ◌∷◌}
use native.Mathlib.Omega.{arith}
use mathlib.Core.Logic.{inl, inr}
use scuffinger.Prelude.Tests.{Eq, Bool-cases, ◌==◌, if◌then◌else◌}

abbrev pub Map {ℓ κ} : Type ℓ → Type κ → Type (ℓ ⊔ κ)
Map K V = List (K × V)

abbrev pub is_some {ℓ} : {A : Type ℓ} → Option A → Bool
is_some none = false
is_some (some a) = true

module _ {ℓ κ} {K : Type ℓ} {V : Type κ} ⦃e : Eq K⦄ where
  -- v, ok := m[k]
  unfoldable pub lookup : K → Map K V → Option V
  lookup key [] = none
  lookup key ((other, value) ∷ entries) = if other == key then some value else lookup key entries

  -- m[k] = v
  unfoldable pub insert : K → V → Map K V → Map K V
  insert key new [] = (key, new) ∷ []
  insert key new ((other, old) ∷ entries) =
      if other == key then (key, new) ∷ entries else (other, old) ∷ insert key new entries

  -- delete(m, k)
  unfoldable pub delete : K → Map K V → Map K V
  delete k [] = []
  delete k ((j, w) ∷ m) = let rest = delete k m in if j == k then rest else (j, w) ∷ rest

  pub lookup-insert :
      (k j : K) (v : V) (m : Map K V)
      → lookup j (insert k v m) ≡ (if k == j then some v else lookup j m)
  unfolding lookup insert
  lookup-insert k j v [] = refl
  lookup-insert k j v ((i, old) ∷ entries) =
      ground (arith, lookup-insert k j v entries, e.same_iff i j, e.same_iff k j, e.same_iff i k)

  pub lookup-delete :
      (k j : K) (m : Map K V) → lookup j (delete k m) ≡ (if k == j then none else lookup j m)
  unfolding lookup delete
  lookup-delete k j [] = ground arith
  lookup-delete k j ((i, w) ∷ m) =
      ground (arith, e.same_iff k j, e.same_iff i k, e.same_iff i j, lookup-delete k j m)

  pub lookup-insert_self : (k : K) (v : V) (m : Map K V) → lookup k (insert k v m) ≡ some v
  lookup-insert_self k v m = simp (lookup-insert, (e.same_iff k k).1 refl)

  -- _, ok := m[k]
  abbrev pub has_key : K → Map K V → Bool
  has_key k m = is_some (lookup k m)

  pub has_key-insert :
      (k j : K) (v : V) (m : Map K V) → has_key j (insert k v m) ≡ (k == j || has_key j m)
  has_key-insert k j v m = ground (arith, lookup-insert k j v m)

  -- No key stands twice.
  abbrev pub IsUnique : Map K V → Type (ℓ ⊔ κ)
  IsUnique [] = Unit
  IsUnique ((k, v) ∷ m) = (lookup k m ≡ none) × IsUnique m

  pub insert-IsUnique : (k : K) (v : V) (m : Map K V) → IsUnique m → IsUnique (insert k v m)
  unfolding lookup insert
  insert-IsUnique k v [] u = (refl, tt)
  insert-IsUnique k v ((j, w) ∷ m) u =
      ground (arith, e.same_iff j k, e.same_iff k j, lookup-insert k j v m, insert-IsUnique k v m)

  abbrev pub all_values : (V → Bool) → Map K V → Bool
  all_values p [] = true
  all_values p ((k, v) ∷ m) = p v && all_values p m

  -- A map passes `all_values` exactly when each of its keys is bound to a value that passes.
  pub all_values-lookup :
      (p : V → Bool) (m : Map K V) (k : K) (v : V)
      → all_values p m ≡ true
      → lookup k m ≡ some v
      → p v ≡ true
  unfolding lookup
  all_values-lookup p [] k v a h = ground arith
  all_values-lookup p ((j, w) ∷ m) k v a h = ground (arith, all_values-lookup p m k v)

  pub lookup-all_values :
      (p : V → Bool) (m : Map K V)
      → IsUnique m
      → ((k : K) (v : V) → lookup k m ≡ some v → p v ≡ true)
      → all_values p m ≡ true
  unfolding lookup
  lookup-all_values p [] u h = refl
  lookup-all_values p ((j, w) ∷ m) (fresh, u) h =
      let here : p w ≡ true = h j w (ground (arith, (e.same_iff j j).1 refl)) in
      let rest : all_values p m ≡ true =
        lookup-all_values p m u (λ k v q. h k v (ground (arith, e.same_iff j k))) in
      ground arith

  pub all_values-has_key :
      (p : V → Bool) (m : Map K V) (k : K)
      → all_values p m ≡ true
      → has_key k m ≡ true
      → (v : V) × (lookup k m ≡ some v) × (p v ≡ true)
  unfolding lookup
  all_values-has_key p [] k a h = absurd (ground arith)
  all_values-has_key p ((j, w) ∷ m) k a h = elim (Bool-cases (j == k)) [
    | inl q ↦ (w, ground arith, ground arith)
    | inr q ↦
        let (v, f, pv) = all_values-has_key p m k (ground arith) (ground arith) in
        (v, ground arith, pv)
  ]
