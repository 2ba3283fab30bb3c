-- ===== src/Bootstrap/Kept.antt =====
-- What internal/services/bootstrap.go keeps if the services do.
use scuffinger.Prelude.{
  ℕ, ◌≡◌, refl, String, Bool, true, false, Option, none, some, [], ◌∷◌, All, All-append, Bool-cases,
  inl, inr, if◌then◌else◌,
}
use scuffinger.Prelude.Map.{Map}
use scuffinger.Prelude.Result.{Result, ok, err}
use scuffinger.I18n.{Error, Messages}
use scuffinger.Config.{GithubConfig}
use scuffinger.Manager.{
  ServiceStatus, Manager, new_manager, add_service, connect_all, run_self_tests,
  start_health_checks,
}
use scuffinger.Manager.Kept.{Keeps, ConnectsTo, run_self_tests-Kept, close_all-Kept}
use scuffinger.Bootstrap.{
  BootstrapOpts, Parts, base_services, wants_collector, running, self_tested, test_all,
  collector_connected, services_connected, bootstrap_with,
}

if_holds {ℓ κ} :
    {A : Type ℓ} (P : A → Type κ) (b : Bool) {x y : A} → P x → P y → P (if b then x else y)
if_holds P true p q = p
if_holds P false p q = q

-- `J` holds throughout, and `I` from the connection of the services on.
pub record PartsKeep {W : Type 0} (I J : W → Type 0) (active : Messages) (parts : Parts W)
    (opts : BootstrapOpts) (cfg : GithubConfig) : Type 0 where
  pub weaker : (w : W) → I w → J w
  pub base : All (Keeps I) (base_services parts cfg)
  pub collector : wants_collector parts opts cfg ≡ true → Keeps I (parts.collector cfg)
  pub collector_connects : (w : W) → I w → I ((parts.collector cfg).connect w).1
  pub creates : (w : W) → I w → I (parts.create_tables w).1
  pub starts : (w : W) → I w → I (parts.start_collector w)

module _ {W : Type 0} (I J : W → Type 0) where
  abbrev pub Kept : Result Error (Manager W) × W → Type 0
  Kept (ok m, w) = All (Keeps I) m.services × I w
  Kept (err e, w) = J w

  module _ (active : Messages) (clock : W → ℕ) (parts : Parts W) (opts : BootstrapOpts)
      (cfg : GithubConfig) (keep : PartsKeep I J active parts opts cfg) where
    running-Kept :
        (m : Manager W) (w : W)
        → All (Keeps I) m.services
        → I w
        → Kept (running active clock parts opts cfg m w)
    unfolding running start_health_checks
    running-Kept m w ks i = (
      if_holds (λ (n : Manager W). All (Keeps I) n.services) _ ks ks,
      if_holds I (wants_collector parts opts cfg) (keep.starts w i) i,
    )

    self_tested-Kept :
        (m : Manager W) (r : Option Error × Map String ServiceStatus × W)
        → All (Keeps I) m.services
        → I r.2
        → Kept (self_tested active clock parts opts cfg m r)
    unfolding self_tested
    self_tested-Kept m (none, statuses, w) ks i =
        running-Kept (record m { statuses = statuses }) w ks i
    self_tested-Kept m (some e, statuses, w) ks i =
        keep.weaker _ (close_all-Kept I active (record m { statuses = statuses }) w ks i)

    test_all-Kept :
        (m : Manager W) (w : W)
        → All (Keeps I) m.services
        → I w
        → Kept (test_all active clock parts opts cfg m w)
    unfolding test_all
    test_all-Kept m w ks i =
        self_tested-Kept m (run_self_tests active clock m.services m.statuses w) ks
          (run_self_tests-Kept I active clock m.services m.statuses w ks i)

    collector_connected-Kept :
        (m : Manager W) (r : Option Error × W)
        → All (Keeps I) m.services
        → I r.1
        → Kept (collector_connected active clock parts opts cfg m r)
    unfolding collector_connected
    collector_connected-Kept m (some e, w) ks i = keep.weaker w i
    collector_connected-Kept m (none, w) ks i = test_all-Kept m w ks i

    base : Manager W
    base = new_manager (base_services parts cfg)

    services_connected-Kept :
        (r : Option Error × W)
        → ConnectsTo I J r
        → Kept (services_connected active clock parts opts cfg base r)
    unfolding services_connected base new_manager add_service
    services_connected-Kept (some e, w) c = c.always
    services_connected-Kept (none, w) c =
        let i = keep.creates w (c.unless_failed refl) in
        elim (Bool-cases (wants_collector parts opts cfg)) [
          | inl p ↦ rw p (
              collector_connected-Kept (add_service base (parts.collector cfg)) _
                (All-append (Keeps I) (base_services parts cfg) (parts.collector cfg ∷ []) keep.base
                  (keep.collector p, tt))
                (keep.collector_connects _ i))
          | inr p ↦ rw p (test_all-Kept base _ keep.base i)
        ]

    -- A bootstrap whose connections lead to `I` keeps it, and so do the services that it returns.
    pub bootstrap_with-Kept :
        (w : W)
        → ConnectsTo I J (connect_all active (base_services parts cfg) w)
        → Kept (bootstrap_with active clock parts opts cfg w)
    unfolding bootstrap_with base new_manager
    bootstrap_with-Kept w c =
        services_connected-Kept (connect_all active (base_services parts cfg) w) c
