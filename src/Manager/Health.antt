-- ===== src/Manager/Health.antt =====
-- `CheckHealth`, `IsHealthy` and `Statuses` against the results of the pings.
use scuffinger.Prelude.{
  ℕ, String, ◌≡◌, ◌≢◌, ◌↔◌, refl, ◌∙◌, Bool, true, false, Option, none, some, List, [], ◌∷◌, ◌==◌,
  string_eq, arith, eq_self, if◌then◌else◌,
}
use scuffinger.Prelude.Map.{
  Map, lookup, lookup-insert, all_values, all_values-has_key, lookup-all_values,
}
use scuffinger.Metrics.Health.{gauge}
use scuffinger.Manager.{
  Service, ServiceStatus, Checked, mark, check_service, check_loop, check_health, is_healthy,
  snapshot,
}
use scuffinger.Manager.WellFormed.{IsWellFormed, has_name, Within-self, check_loop-IsWellFormed}

passed : Option String → Bool
passed none = true
passed (some e) = false

-- the first of two that there is
abbrev first {ℓ} : {A : Type ℓ} → Option A → Option A → Option A
first none o = o
first (some a) o = some a

module _ {W : Type 0} where
  -- Whether the last ping of a service of that name succeeded; `none` if there was no such ping.
  unfoldable pub outcome : String → List (Service W) → W → Option Bool
  unfolding passed
  outcome n [] w = none
  outcome n (svc ∷ svcs) w =
      let (r, w') = svc.ping w in
      first (outcome n svcs w') (if svc.name == n then some (passed r) else none)

abbrev pub healthy_of : Option ServiceStatus → Option Bool
healthy_of none = none
healthy_of (some st) = some st.healthy

-- `IsHealthy` over a map: it is not empty, and every status is healthy.
pub is_healthy-all :
    (m : Map String ServiceStatus)
    → (is_healthy m ≡ true) ↔ ((m ≢ []) × (all_values ServiceStatus.healthy m ≡ true))
unfolding is_healthy
is_healthy-all [] = (λ h. ground arith, λ h. ground arith)
is_healthy-all ((k, v) ∷ m) = (λ h. (λ e. cc, h), λ h. h.1)

module _ {W : Type 0} where
  pub nonempty :
      (svcs : List (Service W)) (m : Map String ServiceStatus)
      → IsWellFormed svcs m
      → (m ≢ []) ↔ (svcs ≢ [])
  unfolding lookup
  nonempty [] [] wf = (λ h. absurd (h refl), λ h. absurd (h refl))
  nonempty [] ((k, v) ∷ m) wf = (λ h. ground (arith, wf.keys k, eq_self k), λ h. absurd (h refl))
  nonempty (svc ∷ svcs) [] wf =
      (λ h. absurd (h refl), λ h. ground (arith, wf.keys svc.name, eq_self svc.name))
  nonempty (svc ∷ svcs) ((k, v) ∷ m) wf = (λ h. λ e. cc, λ h. λ e. cc)

module _ {W : Type 0} (clock : W → ℕ) where
  check_loop-outcome :
      (svcs : List (Service W)) (s : Checked W) (n : String)
      → healthy_of (lookup n (check_loop clock svcs s).statuses)
        ≡ first (outcome n svcs s.world) (healthy_of (lookup n s.statuses))
  unfolding check_loop check_service outcome mark
  check_loop-outcome [] s n = refl
  check_loop-outcome (svc ∷ svcs) s n = ground (
    arith,
    check_loop-outcome svcs (check_service clock svc s) n,
    lookup-insert svc.name n (mark (clock (svc.ping s.world).1) (svc.ping s.world).0) s.statuses,
  )

  outcome-ne-none :
      (svcs : List (Service W)) (n : String) (w : W)
      → has_name n svcs ≡ true
      → outcome n svcs w ≢ none
  unfolding outcome
  outcome-ne-none [] n w h = ground arith
  outcome-ne-none (svc ∷ svcs) n w h = ground (arith, outcome-ne-none svcs n (svc.ping w).1)

  -- Every status is healthy exactly when the last ping of every registered name succeeded.
  all_healthy-outcome :
      (svcs : List (Service W)) (s : Checked W)
      → IsWellFormed svcs s.statuses
      → IsWellFormed svcs (check_loop clock svcs s).statuses
      → (all_values ServiceStatus.healthy (check_loop clock svcs s).statuses ≡ true)
        ↔ ((n : String) → has_name n svcs ≡ true → outcome n svcs s.world ≡ some true)
  all_healthy-outcome svcs s wf wf' = (to, from)
    where
      to :
          all_values ServiceStatus.healthy (check_loop clock svcs s).statuses ≡ true
          → (n : String) → has_name n svcs ≡ true
          → outcome n svcs s.world ≡ some true
      to a n h =
          let (st, found, good) =
            all_values-has_key ServiceStatus.healthy (check_loop clock svcs s).statuses n a
              (wf'.keys n ∙ h) in
          ground (arith, check_loop-outcome svcs s n, outcome-ne-none svcs n s.world h)

      from :
          ((n : String) → has_name n svcs ≡ true → outcome n svcs s.world ≡ some true)
          → all_values ServiceStatus.healthy (check_loop clock svcs s).statuses ≡ true
      from h =
          lookup-all_values ServiceStatus.healthy (check_loop clock svcs s).statuses wf'.unique
            (λ k v q. ground (arith, h k, check_loop-outcome svcs s k, wf'.keys k))

  -- For a well-formed manager `CheckHealth` sets the overall gauge to whether `IsHealthy` holds,
  -- and `IsHealthy` then holds exactly when there is a service and for every name the last
  -- registered service of that name answered its ping.
  pub check_health-outcome :
      (svcs : List (Service W)) (s : Checked W)
      → IsWellFormed svcs s.statuses
      → ((check_health clock svcs s).health.status
          ≡ gauge (is_healthy (check_health clock svcs s).statuses))
        × ((is_healthy (check_health clock svcs s).statuses ≡ true) ↔ (
            (svcs ≢ [])
            × ((n : String) → has_name n svcs ≡ true → outcome n svcs s.world ≡ some true)))
  unfolding check_health
  check_health-outcome svcs s wf =
      let wf' = check_loop-IsWellFormed clock svcs svcs s (Within-self svcs) wf in
      let ne = nonempty svcs (check_loop clock svcs s).statuses wf' in
      let al = all_healthy-outcome svcs s wf wf' in
      let ih = is_healthy-all (check_loop clock svcs s).statuses in
      (refl, (λ h. (ne.0 (ih.0 h).0, al.0 (ih.0 h).1), λ h. ih.1 (ne.1 h.0, al.1 h.1)))

-- `Statuses` has the health of each name, and `IsHealthy` is what its values say: there is one, and
-- all are true.
pub snapshot-lookup :
    (m : Map String ServiceStatus) (n : String) → lookup n (snapshot m) ≡ healthy_of (lookup n m)
unfolding snapshot lookup
snapshot-lookup [] n = refl
snapshot-lookup ((k, st) ∷ m) n = ground (arith, snapshot-lookup m n)

pub all_values-snapshot :
    (m : Map String ServiceStatus)
    → all_values (λ b. b) (snapshot m) ≡ all_values ServiceStatus.healthy m
unfolding snapshot
all_values-snapshot [] = refl
all_values-snapshot ((k, st) ∷ m) = ground (arith, all_values-snapshot m)
