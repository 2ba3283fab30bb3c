-- ===== src/Metrics/Vec.antt =====
-- A gauge vector of the Prometheus client, and the deletion of the series whose keys are tracked
-- (internal/metrics/github_collector.go, the two reset functions).
use scuffinger.Prelude.{
  String, ◌≡◌, refl, Bool, true, false, not, ◌&&◌, ◌||◌, Option, none, some, List, [], ◌∷◌, ◌==◌,
  ◌++◌, list_eq, string_eq, arith, any, eq_iff, if◌then◌else◌,
}
use scuffinger.Prelude.Int.{ℤ, pos, ◌+ℤ◌}
use scuffinger.Prelude.Map.{Map, lookup, insert, delete, lookup-insert, lookup-delete, has_key}

abbrev pub Labels : Type 0
Labels = List String

-- The samples are integers: a number of seconds is counted in nanoseconds.
abbrev pub Vec : Type 0
Vec = Map Labels ℤ

or_zero : Option ℤ → ℤ
or_zero none = pos 0
or_zero (some z) = z

-- `WithLabelValues(labels...).Inc()`
unfoldable pub inc : Labels → Vec → Vec
unfolding or_zero
inc l v = insert l (or_zero (lookup l v) +ℤ pos 1) v

module _ {K : Type 0} (labels : K → Labels) (sel : K → Bool) where
  -- The loops of the reset functions over the keys of one family of vectors: the selected keys are
  -- deleted from each vector of the family (`swept`), and the others are kept (`kept`).
  unfoldable pub swept : List K → Vec → Vec
  swept [] v = v
  swept (k ∷ ks) v = swept ks (if sel k then delete (labels k) v else v)

module _ {K : Type 0} (sel : K → Bool) where
  unfoldable pub kept : List K → List K
  kept [] = []
  kept (k ∷ ks) = let rest = kept ks in if sel k then rest else k ∷ rest

module _ {K : Type 0} (labels : K → Labels) where
  -- a tracked key has these labels
  abbrev pub is_tracked : List K → Labels → Bool
  is_tracked ks l = any (λ (k : K). labels k == l) ks

  -- Every series of the vector has a tracked key.
  abbrev pub IsTracked : List K → Vec → Type 0
  IsTracked ks v = (l : Labels) → has_key l v ≡ true → is_tracked ks l ≡ true

  is_tracked-append :
      (ks js : List K) (l : Labels) → is_tracked (ks ++ js) l ≡ (is_tracked ks l || is_tracked js l)
  is_tracked-append [] js l = refl
  is_tracked-append (k ∷ ks) js l = ground (arith, is_tracked-append ks js l)

  -- Writing a series and tracking its key keeps that.
  pub insert-IsTracked :
      (ks : List K) (k : K) (z : ℤ) (v : Vec)
      → IsTracked ks v
      → IsTracked (ks ++ k ∷ []) (insert (labels k) z v)
  insert-IsTracked ks k z v h l q =
      ground (arith, h l, lookup-insert (labels k) l z v, is_tracked-append ks (k ∷ []) l)

  pub weaken-IsTracked :
      (ks : List K) (k : K) (v : Vec) → IsTracked ks v → IsTracked (ks ++ k ∷ []) v
  weaken-IsTracked ks k v h l q = ground (arith, h l, is_tracked-append ks (k ∷ []) l)

module _ {K : Type 0} (labels : K → Labels) (sel : K → Bool) where
  abbrev hit : List K → Labels → Bool
  hit ks l = any (λ (k : K). sel k && labels k == l) ks

  swept-lookup :
      (ks : List K) (v : Vec) (l : Labels)
      → lookup l (swept labels sel ks v) ≡ (if hit ks l then none else lookup l v)
  unfolding swept
  swept-lookup [] v l = refl
  swept-lookup (k ∷ ks) v l = ground (
    arith,
    swept-lookup ks (if sel k then delete (labels k) v else v) l,
    lookup-delete (labels k) l v,
  )

-- whether the first label, the repository, is selected
abbrev pub of_selected : (String → Bool) → Labels → Bool
of_selected sel [] = false
of_selected sel (r ∷ ls) = sel r

-- Keys whose first label is their repository, and a selection of repositories.
module _ {K : Type 0} (repo : K → String) (rest : K → Labels) (sel : String → Bool) where
  abbrev labels_of : K → Labels
  labels_of k = repo k ∷ rest k

  abbrev selected : K → Bool
  selected k = sel (repo k)

  hit-tracked :
      (ks : List K) (l : Labels)
      → hit labels_of selected ks l ≡ (of_selected sel l && is_tracked labels_of ks l)
  hit-tracked [] l = ground arith
  hit-tracked (k ∷ ks) [] = ground (arith, hit-tracked ks [])
  hit-tracked (k ∷ ks) (r ∷ ls) = ground (arith, hit-tracked ks (r ∷ ls), eq_iff (repo k) r)

  kept-tracked :
      (ks : List K) (l : Labels)
      → is_tracked labels_of (kept selected ks) l
        ≡ (not (of_selected sel l) && is_tracked labels_of ks l)
  unfolding kept
  kept-tracked [] l = ground arith
  kept-tracked (k ∷ ks) [] = ground (arith, kept-tracked ks [])
  kept-tracked (k ∷ ks) (r ∷ ls) = ground (arith, kept-tracked ks (r ∷ ls), eq_iff (repo k) r)

  -- Of a tracked vector exactly the series of the selected repositories are deleted,
  pub swept-lookup_repo :
      (ks : List K) (v : Vec)
      → IsTracked labels_of ks v
      → (l : Labels)
      → lookup l (swept labels_of selected ks v) ≡ (if of_selected sel l then none else lookup l v)
  swept-lookup_repo ks v h l =
      ground (arith, swept-lookup labels_of selected ks v l, hit-tracked ks l, h l)

  -- and those left are tracked by the keys that are kept.
  pub swept-IsTracked :
      (ks : List K) (v : Vec)
      → IsTracked labels_of ks v
      → IsTracked labels_of (kept selected ks) (swept labels_of selected ks v)
  swept-IsTracked ks v h l q = ground (arith, swept-lookup_repo ks v h l, kept-tracked ks l, h l)
