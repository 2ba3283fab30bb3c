-- ===== src/Manager/Reach.antt =====
-- The life of a manager as steps of its exported methods (internal/services/service.go).
use scuffinger.Prelude.{ℕ, ◌≡◌, List, Option, none, some, ℕ_eq}
use scuffinger.I18n.{Messages}
use scuffinger.Metrics.Health.{HealthMetrics}
use scuffinger.Manager.{
  Service, Manager, Checked, new_manager, add_service, run_self_tests, check_health,
  start_health_checks, close_all, stop,
}
use scuffinger.Manager.WellFormed.{
  IsWellFormed, new_manager-IsWellFormed, add-IsWellFormed, run_self_tests-IsWellFormed,
  check_health-IsWellFormed,
}

-- the manager, the process's health metrics and the world
pub record System (W : Type 0) : Type 0 where
  pub manager : Manager W
  pub health : HealthMetrics
  pub world : W

module _ {W : Type 0} where
  stop-IsWellFormed :
      (c : Option ℕ) (m : Manager W)
      → IsWellFormed m.services m.statuses
      → IsWellFormed (stop c m).services (stop c m).statuses
  unfolding stop
  stop-IsWellFormed none m h = h
  stop-IsWellFormed (some i) m h = h

  abbrev pub checked : System W → Checked W
  checked s = record { statuses = s.manager.statuses; health = s.health; world = s.world }

  module _ (active : Messages) (clock : W → ℕ) where
    pub after_self_tests : System W → System W
    after_self_tests s =
        let (r, m, w) = run_self_tests active clock s.manager.services s.manager.statuses s.world in
        record s { manager = record s.manager { statuses = m }; world = w }

    pub after_check : System W → System W
    after_check s =
        let t = check_health clock s.manager.services (checked s) in
        record {
          manager = record s.manager { statuses = t.statuses };
          health = t.health;
          world = t.world;
        }

    pub after_close : System W → System W
    after_close s =
        let (r, m, w) = close_all active s.manager s.world in record s { manager = m; world = w }

    -- One exported method, or the world moving on by itself.
    pub data Step : System W → System W → Type 0 where
      add :
          (s : System W) (svc : Service W)
          → Step s (record s { manager = add_service s.manager svc })
      self_tests : (s : System W) → Step s (after_self_tests s)
      check : (s : System W) → Step s (after_check s)
      start : (s : System W) → Step s (record s { manager = start_health_checks s.manager })
      close : (s : System W) → Step s (after_close s)
      outside : (s : System W) (w : W) → Step s (record s { world = w })

    pub data Reach (svcs : List (Service W)) : System W → Type 0 where
      new : (s : System W) → s.manager ≡ new_manager svcs → Reach svcs s
      next : {s t : System W} → Reach svcs s → Step s t → Reach svcs t

    abbrev pub IsSound : System W → Type 0
    IsSound s = IsWellFormed s.manager.services s.manager.statuses

    Step-IsSound : {s t : System W} → Step s t → IsSound s → IsSound t
    unfolding add_service after_self_tests after_check start_health_checks after_close close_all
        stop
    Step-IsSound (add s svc) h = add-IsWellFormed s.manager.services svc s.manager.statuses _ h
    Step-IsSound (self_tests s) h =
        run_self_tests-IsWellFormed active clock s.manager.services s.manager.statuses s.world h
    Step-IsSound (check s) h = check_health-IsWellFormed clock s.manager.services (checked s) h
    Step-IsSound (start s) h = h
    Step-IsSound (close s) h = stop-IsWellFormed s.manager.cancel s.manager h
    Step-IsSound (outside s w) h = h

    -- However the methods of a manager are called, its statuses have exactly one entry for each
    -- name of a registered service, and no other entry.
    pub Reach-IsWellFormed : (svcs : List (Service W)) {s : System W} → Reach svcs s → IsSound s
    Reach-IsWellFormed svcs (new s e) = rw e (unfold new_manager in new_manager-IsWellFormed svcs)
    Reach-IsWellFormed svcs (next r st) = Step-IsSound st (Reach-IsWellFormed svcs r)
