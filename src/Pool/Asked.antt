-- ===== src/Pool/Asked.antt =====
-- The questions and answers of a rotation (`rotate` of internal/services/github.go), described apart
-- from the code.
use scuffinger.Prelude.{
  ℕ, suc, ◌+◌, ◌%◌, ◌<◌, ◌≡◌, refl, ◌∙◌, ap, String, Option, none, some, List, [], ◌∷◌, ◌++◌, All,
  arith, length, get_elem?,
}
use scuffinger.Prelude.Int.{ℤ, ◌≤ℤ◌, pos_part, neg_part}
use scuffinger.Prelude.Result.{ok, err}
use scuffinger.I18n.{Error}
use scuffinger.Pool.{Limits, Api}

abbrev pub Lower : ℤ → ℤ → Type 0
Lower a b = pos_part a + neg_part b < pos_part b + neg_part a

-- an answered count, if it is not an error, is at most `r`, or below it
abbrev pub AtMost : ℤ → Option ℤ → Type 0
AtMost r none = Unit
AtMost r (some c) = c ≤ℤ r

abbrev pub Below : ℤ → Option ℤ → Type 0
Below r none = Unit
Below r (some c) = Lower c r

AtMost-weaken :
    (b r : ℤ) → Lower b r → (rs : List (Option ℤ)) → All (AtMost b) rs → All (AtMost r) rs
AtMost-weaken b r h [] p = tt
AtMost-weaken b r h (none ∷ rs) (p, q) = (tt, AtMost-weaken b r h rs q)
AtMost-weaken b r h (some c ∷ rs) (p, q) = (omega arith, AtMost-weaken b r h rs q)

module _ {C W : Type 0} (api : Api C W) (ids : List (C × String)) (a : ℕ) where
  -- GitHub is asked about one credential after the other, from the offset `i` behind `a` on, around
  -- the end of the pool; the answers are the remaining counts, or none for an error.
  pub data Asks : ℕ → W → List (Option ℤ) → W → Type 0 where
    asked : {i : ℕ} {w : W} → Asks i w [] w
    refused :
        {i : ℕ} {w w' v : W} {rs : List (Option ℤ)} {c : C} {label : String} {x : Error}
        → get_elem? ids ((a + i) % length ids) ≡ some (c, label)
        → api.rate_limit c w ≡ (err x, w')
        → Asks (suc i) w' rs v
        → Asks i w (none ∷ rs) v
    told :
        {i : ℕ} {w w' v : W} {rs : List (Option ℤ)} {c : C} {label : String} {l : Limits}
        → get_elem? ids ((a + i) % length ids) ≡ some (c, label)
        → api.rate_limit c w ≡ (ok (some l), w')
        → Asks (suc i) w' rs v
        → Asks i w (some l.remaining ∷ rs) v

-- Where `rounds` answers from the offset `i` on leave the active index of `n` credentials, if the
-- index `best` with the count `b` was the best before: at the first answer that reaches the
-- threshold, which is the last one; or, if all are below it, at `best` if none is above `b`, and
-- else at one that is, and that none is above.
module _ (threshold : ℤ) (a n : ℕ) where
  pub data Ends (i rounds best : ℕ) (b : ℤ) : List (Option ℤ) → ℕ → Type 0 where
    reached :
        (before : List (Option ℤ)) (r : ℤ) {active : ℕ}
        → length before < rounds
        → All (Below threshold) before
        → threshold ≤ℤ r
        → active ≡ (a + (i + length before)) % n
        → Ends i rounds best b (before ++ some r ∷ []) active
    kept :
        {rs : List (Option ℤ)}
        → length rs ≡ rounds
        → All (Below threshold) rs
        → All (AtMost b) rs
        → Ends i rounds best b rs best
    better :
        {rs : List (Option ℤ)} (k : ℕ) (r : ℤ) {active : ℕ}
        → length rs ≡ rounds
        → All (Below threshold) rs
        → get_elem? rs k ≡ some (some r)
        → Lower b r
        → All (AtMost r) rs
        → active ≡ (a + (i + k)) % n
        → Ends i rounds best b rs active

  -- an answer that is not above the best so far
  pub Ends-cons :
      (i rounds best active : ℕ) (b : ℤ) (o : Option ℤ) (rs : List (Option ℤ))
      → Below threshold o
      → AtMost b o
      → ((r : ℤ) → Lower b r → AtMost r o)
      → Ends (suc i) rounds best b rs active
      → Ends i (suc rounds) best b (o ∷ rs) active
  Ends-cons i rounds best active b o _ lo am up (reached bs r l p t q) =
      reached (o ∷ bs) r (omega arith) (lo, p) t (q ∙ ap (λ m. (a + m) % n) (omega arith))
  Ends-cons i rounds best _ b o rs lo am up (kept l p q) = kept (omega arith) (lo, p) (am, q)
  Ends-cons i rounds best active b o rs lo am up (better k r l p g h q e) =
      better (suc k) r (omega arith) (lo, p) g h (up r h, q)
        (e ∙ ap (λ m. (a + m) % n) (omega arith))

  -- an answer that is
  pub Ends-better :
      (i rounds best idx active : ℕ) (b r : ℤ) (rs : List (Option ℤ))
      → idx ≡ (a + i) % n
      → Lower r threshold
      → Lower b r
      → Ends (suc i) rounds idx r rs active
      → Ends i (suc rounds) best b (some r ∷ rs) active
  Ends-better i rounds best idx active b r _ x lo up (reached bs r' l p t q) =
      reached (some r ∷ bs) r' (omega arith) (lo, p) t (q ∙ ap (λ m. (a + m) % n) (omega arith))
  Ends-better i rounds best idx _ b r rs x lo up (kept l p q) =
      better 0 r (omega arith) (lo, p) refl up (omega arith, q)
        (x ∙ ap (λ m. (a + m) % n) (omega arith))
  Ends-better i rounds best idx active b r rs x lo up (better k r' l p g h q e) =
      better (suc k) r' (omega arith) (lo, p) g (omega arith) (omega arith, q)
        (e ∙ ap (λ m. (a + m) % n) (omega arith))
