-- ===== src/Manager/Startup.antt =====
-- `ConnectAll` and `RunSelfTests`: they go through the services in order and stop at the first
-- failure (internal/services/service.go).
use scuffinger.Prelude.{
  ℕ, String, ◌≡◌, ◌≢◌, ◌↔◌, refl, true, Option, none, some, List, [], ◌∷◌, string_eq, arith,
  if◌then◌else◌,
}
use scuffinger.Prelude.Map.{
  Map, lookup, insert, lookup-insert, lookup-insert_self, lookup-all_values, all_values-lookup,
}
use scuffinger.I18n
use scuffinger.I18n.{Error, Messages}
use scuffinger.Manager.{
  Service, ServiceStatus, Call, mark, service_error, connect_all, connect_next, run_self_tests,
  self_test_next, is_healthy,
}
use scuffinger.Manager.Health.{healthy_of, nonempty, is_healthy-all}
use scuffinger.Manager.WellFormed.{IsWellFormed, has_name, run_self_tests-IsWellFormed}

-- What a run over the services does, described without the code: `Stops call svcs w e w'` holds if
-- the calls succeed up to a service whose call fails with `e`, which leaves the world `w'`, and
-- `Passes` if all of them succeed. The services behind a failure are not called.
module _ {W : Type 0} (call : Service W → Call W) where
  pub data Passes : List (Service W) → W → W → Type 0 where
    none_left : {w : W} → Passes [] w w
    passed :
        {svc : Service W} {svcs : List (Service W)} {w w' v : W}
        → call svc w ≡ (none, w')
        → Passes svcs w' v
        → Passes (svc ∷ svcs) w v

  pub data Stops : List (Service W) → W → Service W → Error → W → Type 0 where
    failed :
        {svc : Service W} {svcs : List (Service W)} {w w' : W} {e : Error}
        → call svc w ≡ (some e, w')
        → Stops (svc ∷ svcs) w svc e w'
    later :
        {svc bad : Service W} {svcs : List (Service W)} {w w' v : W} {e : Error}
        → call svc w ≡ (none, w')
        → Stops svcs w' bad e v
        → Stops (svc ∷ svcs) w bad e v

module _ {W : Type 0} (active : Messages) where
  abbrev connection : Service W → Call W
  connection svc = svc.connect

  -- Either every service connects, in order, and the result is nil, or the run stops at the first
  -- service that fails, and the result is its error wrapped with its name.
  pub data ConnectResult (svcs : List (Service W)) (w : W) : Option Error × W → Type 0 where
    connected : {v : W} → Passes connection svcs w v → ConnectResult svcs w (none, v)
    refused :
        {bad : Service W} {e : Error} {v : W}
        → Stops connection svcs w bad e v
        → ConnectResult svcs w (some (service_error active I18n.err_manager_connect bad.name e), v)

  ConnectResult-cons :
      (svc : Service W) (svcs : List (Service W)) {w w' : W} {r : Option Error × W}
      → svc.connect w ≡ (none, w')
      → ConnectResult svcs w' r
      → ConnectResult (svc ∷ svcs) w r
  ConnectResult-cons svc svcs q (connected p) = connected (passed q p)
  ConnectResult-cons svc svcs q (refused p) = refused (later q p)

  connect_next-ConnectResult :
      (svc : Service W) (svcs : List (Service W)) (w : W) (r : Option Error × W)
      → svc.connect w ≡ r
      → ((w' : W) → ConnectResult svcs w' (connect_all active svcs w'))
      → ConnectResult (svc ∷ svcs) w (connect_next active svc.name (connect_all active svcs) r)
  unfolding connect_next
  connect_next-ConnectResult svc svcs w (none, w') q rest = ConnectResult-cons svc svcs q (rest w')
  connect_next-ConnectResult svc svcs w (some e, w') q rest = refused (failed q)

  -- `ConnectAll` connects the services in order: it returns nil exactly when every one connects,
  -- and otherwise stops at the first that fails and returns its error wrapped with its name.
  pub connect_all-ConnectResult :
      (svcs : List (Service W)) (w : W) → ConnectResult svcs w (connect_all active svcs w)
  unfolding connect_all
  connect_all-ConnectResult [] w = connected none_left
  connect_all-ConnectResult (svc ∷ svcs) w =
      connect_next-ConnectResult svc svcs w (svc.connect w) refl
        (λ w'. connect_all-ConnectResult svcs w')

module _ {W : Type 0} (active : Messages) (clock : W → ℕ) where
  abbrev testing : Service W → Call W
  testing svc = svc.self_test

  -- The same for the self-tests; the failing service is left marked unhealthy.
  pub data SelfTestResult (svcs : List (Service W)) (w : W)
      : Option Error × Map String ServiceStatus × W → Type 0 where
    all_passed :
        {m : Map String ServiceStatus} {v : W}
        → Passes testing svcs w v
        → SelfTestResult svcs w (none, m, v)
    rejected :
        {bad : Service W} {e : Error} {m : Map String ServiceStatus} {v : W}
        → Stops testing svcs w bad e v
        → lookup bad.name m ≡ some (mark (clock v) (some e))
        → SelfTestResult svcs w
            (some (service_error active I18n.err_manager_self_test bad.name e), m, v)

  SelfTestResult-cons :
      (svc : Service W) (svcs : List (Service W)) {w w' : W}
      {r : Option Error × Map String ServiceStatus × W}
      → svc.self_test w ≡ (none, w')
      → SelfTestResult svcs w' r
      → SelfTestResult (svc ∷ svcs) w r
  SelfTestResult-cons svc svcs q (all_passed p) = all_passed (passed q p)
  SelfTestResult-cons svc svcs q (rejected p h) = rejected (later q p) h

  self_test_next-SelfTestResult :
      (svc : Service W) (svcs : List (Service W)) (m : Map String ServiceStatus) (w : W)
      (r : Option Error × W)
      → svc.self_test w ≡ r
      → ((m' : Map String ServiceStatus) (w' : W)
          → SelfTestResult svcs w' (run_self_tests active clock svcs m' w'))
      → SelfTestResult
          (svc ∷ svcs)
          w
          (self_test_next active clock svc.name (run_self_tests active clock svcs) m r)
  unfolding self_test_next
  self_test_next-SelfTestResult svc svcs m w (none, w') q rest =
      SelfTestResult-cons svc svcs q (rest _ w')
  self_test_next-SelfTestResult svc svcs m w (some e, w') q rest =
      rejected (failed q) (lookup-insert_self svc.name _ m)

  -- `RunSelfTests` runs the self-tests in order: it returns nil exactly when every one passes, and
  -- otherwise stops at the first that fails, marks that service unhealthy and returns its error
  -- wrapped with its name.
  pub run_self_tests-SelfTestResult :
      (svcs : List (Service W)) (m : Map String ServiceStatus) (w : W)
      → SelfTestResult svcs w (run_self_tests active clock svcs m w)
  unfolding run_self_tests
  run_self_tests-SelfTestResult [] m w = all_passed none_left
  run_self_tests-SelfTestResult (svc ∷ svcs) m w =
      self_test_next-SelfTestResult svc svcs m w (svc.self_test w) refl
        (λ m' w'. run_self_tests-SelfTestResult svcs m' w')

  -- What a run that passes leaves in the statuses.
  run_self_tests-statuses :
      (svcs : List (Service W)) (m : Map String ServiceStatus) (w : W) (n : String)
      → (run_self_tests active clock svcs m w).0 ≡ none
      → healthy_of (lookup n (run_self_tests active clock svcs m w).1)
        ≡ (if has_name n svcs then some true else healthy_of (lookup n m))
  unfolding run_self_tests self_test_next mark
  run_self_tests-statuses [] m w n h = refl
  run_self_tests-statuses (svc ∷ svcs) m w n h =
      let w' = (svc.self_test w).1 in
      let m' = insert svc.name (mark (clock w') none) m in
      ground (
        arith,
        run_self_tests-statuses svcs m' w' n,
        lookup-insert svc.name n (mark (clock w') none) m,
      )

  is_healthy-statuses :
      (svcs : List (Service W)) (m : Map String ServiceStatus)
      → IsWellFormed svcs m
      → svcs ≢ []
      → ((n : String) → has_name n svcs ≡ true → healthy_of (lookup n m) ≡ some true)
      → is_healthy m ≡ true
  is_healthy-statuses svcs m wf ne h = (is_healthy-all m).1 (
    (nonempty svcs m wf).1 ne,
    lookup-all_values ServiceStatus.healthy m wf.unique (λ k v q. ground (arith, h k, wf.keys k)),
  )

  -- For a well-formed manager with a service, `RunSelfTests` returns nil exactly when `IsHealthy`
  -- is true of the statuses that it leaves.
  pub run_self_tests-IsHealthy :
      (svcs : List (Service W)) (m : Map String ServiceStatus) (w : W)
      → IsWellFormed svcs m
      → svcs ≢ []
      → ((run_self_tests active clock svcs m w).0 ≡ none)
        ↔ (is_healthy (run_self_tests active clock svcs m w).1 ≡ true)
  unfolding mark
  run_self_tests-IsHealthy svcs m w wf ne = (
    λ h.
        is_healthy-statuses svcs (run_self_tests active clock svcs m w).1
          (run_self_tests-IsWellFormed active clock svcs m w wf) ne
          (λ n k. ground (arith, run_self_tests-statuses svcs m w n h)),
    λ h. from (run_self_tests active clock svcs m w) (run_self_tests-SelfTestResult svcs m w) h,
  )
    where
      from :
          (r : Option Error × Map String ServiceStatus × W)
          → SelfTestResult svcs w r
          → is_healthy r.1 ≡ true
          → r.0 ≡ none
      from r (all_passed p) h = refl
      from r (rejected {bad = bad} {m = m'} p q) h = absurd (
          ground (
            arith,
            all_values-lookup ServiceStatus.healthy m' bad.name _ ((is_healthy-all m').0 h).1 q,
          ))
