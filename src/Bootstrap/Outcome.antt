-- ===== src/Bootstrap/Outcome.antt =====
-- What internal/services/bootstrap.go leaves behind on each of its returns.
use scuffinger.Prelude.{
  ℕ, ◌≡◌, refl, ap, ◌∙◌, ◌≢◌, ◌⊎◌, inl, inr, String, true, false, Option, none, some, List, [], ◌∷◌,
  ◌++◌, if◌then◌else◌, arith, Bool-cases,
}
use scuffinger.Prelude.Int.{pos, ltb_ℤ}
use scuffinger.Prelude.Map.{Map}
use scuffinger.Prelude.Result.{Result, ok, err}
use scuffinger.I18n
use scuffinger.I18n.{Error, Messages}
use scuffinger.Config.{GithubConfig}
use scuffinger.Vault.{Store}
use scuffinger.Manager.{
  Service, ServiceStatus, Manager, new_manager, add_service, run_self_tests, start_health_checks,
  connect_all, is_healthy,
}
use scuffinger.Manager.WellFormed.{
  IsWellFormed, new_manager-IsWellFormed, add-IsWellFormed, run_self_tests-IsWellFormed,
}
use scuffinger.Manager.Startup.{run_self_tests-IsHealthy}
use scuffinger.Manager.Shutdown.{closed_world, close_all-results}
use scuffinger.Bootstrap.{
  BootstrapOpts, Parts, base_services, wants_collector, running, self_tested, test_all,
  collector_connected, services_connected, bootstrap_with, bootstrap, with_vault_token,
}

module _ {W : Type 0} (active : Messages) (clock : W → ℕ) (parts : Parts W) (opts : BootstrapOpts)
    (cfg : GithubConfig) where
  -- the services that `Bootstrap` registers
  unfoldable pub registered : List (Service W)
  registered =
      if wants_collector parts opts cfg
      then base_services parts cfg ++ (parts.collector cfg ∷ [])
      else base_services parts cfg

  -- A manager comes back with all those services, tested and healthy, and with a health-check loop
  -- when the interval is positive; otherwise a connection failed, or a self-test did and every
  -- service was closed.
  abbrev pub Outcome : Result Error (Manager W) × W → Type 0
  Outcome (ok m, w) =
      (m.services ≡ registered)
      × (IsWellFormed m.services m.statuses)
      × (is_healthy m.statuses ≡ true)
      × (m.loops ≡ (if ltb_ℤ (pos 0) opts.health_check_interval then 0 ∷ [] else []))
  Outcome (err e, w) =
      ((d : Error) × (e ≡ I18n.err_with active I18n.err_bootstrap_connect d))
      ⊎ ((d : Error) × (w' : W) × (e ≡ I18n.err_with active I18n.err_bootstrap_self_tests d)
          × (w ≡ closed_world registered w'))

  -- a manager before the self-tests
  record Fresh (m : Manager W) : Type 0 where
    services : m.services ≡ registered
    well : IsWellFormed m.services m.statuses
    some_service : m.services ≢ []
    loops : m.loops ≡ []
    started : m.started ≡ 0

  running-Outcome :
      (m : Manager W) (w : W)
      → Fresh m
      → is_healthy m.statuses ≡ true
      → Outcome (running active clock parts opts cfg m w)
  unfolding running start_health_checks
  running-Outcome m w f h = elim (Bool-cases (ltb_ℤ (pos 0) opts.health_check_interval)) [
    | inl p ↦ rw p (f.services, f.well, h, cc (f.started, f.loops))
    | inr p ↦ rw p (f.services, f.well, h, f.loops)
  ]

  self_tested-Outcome :
      (m : Manager W) (r : Option Error × Map String ServiceStatus × W)
      → Fresh m
      → IsWellFormed m.services r.1
      → (r.0 ≡ none → is_healthy r.1 ≡ true)
      → Outcome (self_tested active clock parts opts cfg m r)
  unfolding self_tested
  self_tested-Outcome m (none, statuses, w) f wf h =
      running-Outcome (record m { statuses = statuses }) w
        (record {
          services = f.services;
          well = wf;
          some_service = f.some_service;
          loops = f.loops;
          started = f.started;
        })
        (h refl)
  self_tested-Outcome m (some e, statuses, w) f wf h = inr (
    e,
    w,
    refl,
    (close_all-results active (record m { statuses = statuses }) w).0
        ∙ ap (λ svcs. closed_world svcs w) f.services,
  )

  test_all-Outcome :
      (m : Manager W) (w : W) → Fresh m → Outcome (test_all active clock parts opts cfg m w)
  unfolding test_all
  test_all-Outcome m w f =
      self_tested-Outcome m (run_self_tests active clock m.services m.statuses w) f
        (run_self_tests-IsWellFormed active clock m.services m.statuses w f.well)
        (run_self_tests-IsHealthy active clock m.services m.statuses w f.well f.some_service).0

  collector_connected-Outcome :
      (m : Manager W) (r : Option Error × W)
      → Fresh m
      → Outcome (collector_connected active clock parts opts cfg m r)
  unfolding collector_connected
  collector_connected-Outcome m (some e, w) f = inl (e, refl)
  collector_connected-Outcome m (none, w) f = test_all-Outcome m w f

  base : Manager W
  base = new_manager (base_services parts cfg)

  alone : wants_collector parts opts cfg ≡ false → Fresh base
  unfolding base new_manager registered base_services
  alone p = record {
    services = rw p refl;
    well = new_manager-IsWellFormed (base_services parts cfg);
    some_service = λ h. ground arith;
    loops = refl;
    started = refl;
  }

  joined : wants_collector parts opts cfg ≡ true → Fresh (add_service base (parts.collector cfg))
  unfolding base new_manager registered base_services add_service
  joined p = record {
    services = rw p refl;
    well =
        add-IsWellFormed (base_services parts cfg) (parts.collector cfg) _ _
          (new_manager-IsWellFormed (base_services parts cfg));
    some_service = λ h. ground arith;
    loops = refl;
    started = refl;
  }

  services_connected-Outcome :
      (r : Option Error × W) → Outcome (services_connected active clock parts opts cfg base r)
  unfolding services_connected base
  services_connected-Outcome (some e, w) = inl (e, refl)
  services_connected-Outcome (none, w) = elim (Bool-cases (wants_collector parts opts cfg)) [
    | inl p ↦ rw p (collector_connected-Outcome _ _ (joined p))
    | inr p ↦ rw p (test_all-Outcome _ _ (alone p))
  ]

-- A manager that `Bootstrap` returns has every wanted service registered, tested and healthy,
-- well-formed statuses and one health-check loop when the interval is positive; `Bootstrap` fails
-- only with a connection error, or with a self-test error behind which every registered service
-- has been closed.
pub bootstrap-Outcome :
    {S W : Type 0} (active : Messages) (clock : W → ℕ) (parts : Parts W) (store : Store S) (s : S)
    (opts : BootstrapOpts) (cfg : GithubConfig) (w : W)
    → Outcome active clock parts opts
        (with_vault_token store s cfg)
        (bootstrap active clock parts store s opts cfg w)
unfolding bootstrap bootstrap_with base
bootstrap-Outcome active clock parts store s opts cfg w =
    services_connected-Outcome active clock parts opts (with_vault_token store s cfg) (
      connect_all active (new_manager (base_services parts (with_vault_token store s cfg))).services
        w)
