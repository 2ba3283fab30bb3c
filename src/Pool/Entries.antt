-- ===== src/Pool/Entries.antt =====
-- The entries that the rotation of internal/services/github.go visits, and what an answer stores.
use native.Mathlib.Nat.{mod-eq_of_lt, mod-eq-sub-mod}
use scuffinger.Prelude.{
  ℕ, zero, suc, ◌+◌, ◌-◌, ◌%◌, ◌<◌, ◌≤◌, ◌≡◌, ◌≢◌, inl, inr, ◌∙◌, some, List, [], ◌∷◌, arith, leb,
  length, get_elem?, set, nat_eq, leb→le, leb-false→lt, Bool-cases, if◌then◌else◌,
}
use scuffinger.Pool.{ClientEntry, Limits, GithubService, store}
use scuffinger.Pool.Bounds.{length-set}

pub wrap : (x n : ℕ) → n ≤ x → x < n + n → x % n ≡ x - n
wrap x n h k = mod-eq-sub-mod h ∙ mod-eq_of_lt (omega arith)

-- Offsets below the size name different entries.
pub offsets_differ : (a n k i : ℕ) → a < n → k < i → i < n → (a + k) % n ≢ (a + i) % n
offsets_differ a n k i ha hk hi e = elim (Bool-cases (leb n (a + k))) [
  | inl p ↦
      let low : n ≤ a + k = leb→le n (a + k) p in
      absurd (
        omega
          (arith, e, wrap (a + k) n low (omega arith), wrap (a + i) n (omega arith) (omega arith)))
  | inr p ↦
      let small : a + k < n = leb-false→lt n (a + k) p in
      elim (Bool-cases (leb n (a + i))) [
        | inl q ↦
            let high : n ≤ a + i = leb→le n (a + i) q in
            absurd (omega (arith, e, mod-eq_of_lt small, wrap (a + i) n high (omega arith)))
        | inr q ↦
            let low : a + i < n = leb-false→lt n (a + i) q in
            absurd (omega (arith, e, mod-eq_of_lt small, mod-eq_of_lt low))
      ]
]

pub get-set {ℓ} :
    {A : Type ℓ} (xs : List A) (i : ℕ) (v : A) (j : ℕ)
    → i < length xs
    → get_elem? (set xs i v) j ≡ (if nat_eq i j then some v else get_elem? xs j)
get-set [] i v j h = absurd (omega arith)
get-set (x ∷ xs) zero v zero h = ground arith
get-set (x ∷ xs) zero v (suc j) h = ground arith
get-set (x ∷ xs) (suc i) v zero h = ground arith
get-set (x ∷ xs) (suc i) v (suc j) h = ground (arith, get-set xs i v j (omega arith))

pub get_inside {ℓ} :
    {A : Type ℓ} (xs : List A) (i : ℕ) (x : A) → get_elem? xs i ≡ some x → i < length xs
get_inside [] i x h = ground arith
get_inside (y ∷ xs) zero x h = omega arith
get_inside (y ∷ xs) (suc i) x h = omega (arith, get_inside xs i x h)

-- the entry that an answer leaves
abbrev pub refreshed : {C : Type 0} → ClientEntry C → Limits → ClientEntry C
refreshed e l = record e { remaining = l.remaining; reset_at = l.reset }

module _ {C W : Type 0} where
  pub get-store :
      (idx : ℕ) (e : ClientEntry C) (l : Limits) (w : W) (s : GithubService C W) (j : ℕ)
      → idx < length s.entries
      → get_elem? (store idx e l w s).entries j
        ≡ (if nat_eq idx j then some (refreshed e l) else get_elem? s.entries j)
  unfolding store
  get-store idx e l w s j h = get-set s.entries idx (refreshed e l) j h

  pub get-store_same :
      (idx : ℕ) (e : ClientEntry C) (l : Limits) (w : W) (s : GithubService C W)
      → idx < length s.entries
      → get_elem? (store idx e l w s).entries idx ≡ some (refreshed e l)
  get-store_same idx e l w s h = ground (arith, get-store idx e l w s idx h)

  pub get-store_other :
      (idx : ℕ) (e : ClientEntry C) (l : Limits) (w : W) (s : GithubService C W) (j : ℕ)
      → idx < length s.entries
      → idx ≢ j
      → get_elem? (store idx e l w s).entries j ≡ get_elem? s.entries j
  get-store_other idx e l w s j h n = ground (arith, get-store idx e l w s j h)

  pub length-store :
      (idx : ℕ) (e : ClientEntry C) (l : Limits) (w : W) (s : GithubService C W)
      → length (store idx e l w s).entries ≡ length s.entries
  unfolding store
  length-store idx e l w s = length-set s.entries idx (refreshed e l)
