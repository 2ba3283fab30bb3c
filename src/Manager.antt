-- ===== src/Manager.antt =====
-- internal/services/service.go: the services and their `Manager`. `W` is the world that the
-- services act on; `clock` reads `time.Now()` there. A `context.Context` is part of the world, and
-- log lines are not modelled.
use scuffinger.Prelude.{
  ℕ, ◌+◌, String, ℕ_eq, Bool, true, false, not, ◌&&◌, Option, none, some, List, [], ◌∷◌, ◌++◌, map,
  ◌==◌, string_eq, ◌+++◌, join, all, if◌then◌else◌,
}
use scuffinger.Prelude.Map.{Map, insert, all_values}
use scuffinger.I18n
use scuffinger.I18n.{Key, Error, Messages}
pub mod WellFormed
pub mod Reach
pub mod Shutdown
pub mod Startup
pub mod Health
pub mod Kept
use scuffinger.Metrics.Health.{
  HealthMetrics, set_overall_health, set_service_health, inc_health_check, inc_health_check_failure,
}

-- A call on the world that may return an error.
abbrev pub Call : Type 0 → Type 0
Call W = W → Option Error × W

-- the interface `Service`
pub record Service (W : Type 0) : Type 0 where
  pub name : String
  pub connect : Call W
  pub self_test : Call W
  pub ping : Call W
  pub close : Call W

pub record ServiceStatus : Type 0 where
  pub healthy : Bool
  pub last_check : ℕ
  pub error : String

-- `cancel` names the context that `CloseAll` cancels; `loops` are the contexts of the health-check
-- loops that were begun, and `cancelled` those that are cancelled, which is a signal: a loop may go
-- on with the check that it is at, and take a tick that is due before it.
pub record Manager (W : Type 0) : Type 0 where
  pub services : List (Service W)
  pub statuses : Map String ServiceStatus
  pub cancel : Option ℕ
  pub loops : List ℕ
  pub cancelled : List ℕ
  pub started : ℕ

-- &ServiceStatus{}
abbrev pub unchecked : ServiceStatus
unchecked = record { healthy = false; last_check = 0; error = "" }

module _ {W : Type 0} where
  -- the loop of `NewManager`
  unfoldable pub register : List (Service W) → Map String ServiceStatus → Map String ServiceStatus
  register [] statuses = statuses
  register (svc ∷ svcs) statuses = register svcs (insert svc.name unchecked statuses)

  unfoldable pub new_manager : List (Service W) → Manager W
  new_manager svcs = record {
    services = svcs;
    statuses = register svcs [];
    cancel = none;
    loops = [];
    cancelled = [];
    started = 0;
  }

  unfoldable pub add_service : Manager W → Service W → Manager W
  add_service m svc = record m {
    services = m.services ++ svc ∷ [];
    statuses = insert svc.name unchecked m.statuses;
  }

-- fmt.Errorf("%s [%s]: %w", i18n.Get(key), name, err)
pub service_error : Messages → Key → String → Error → Error
service_error active key name e = I18n.get active key +++ (" [" +++ (name +++ ("]: " +++ e)))

-- The status that a call leaves for its service.
pub mark : ℕ → Option Error → ServiceStatus
mark now none = record { healthy = true; last_check = now; error = "" }
mark now (some e) = record { healthy = false; last_check = now; error = e }

-- What a check reads and writes beside the list of services.
pub record Checked (W : Type 0) : Type 0 where
  pub statuses : Map String ServiceStatus
  pub health : HealthMetrics
  pub world : W

module _ {W : Type 0} (active : Messages) where
  -- one round of `ConnectAll` after the call of `Connect`; `rest` is the rest of the loop
  connect_next : String → (W → Option Error × W) → Option Error × W → Option Error × W
  connect_next name rest (none, w) = rest w
  connect_next name rest (some e, w) =
      (some (service_error active I18n.err_manager_connect name e), w)

  unfoldable pub connect_all : List (Service W) → Call W
  unfolding connect_next
  connect_all [] w = (none, w)
  connect_all (svc ∷ svcs) w = connect_next svc.name (connect_all svcs) (svc.connect w)

module _ {W : Type 0} (active : Messages) (clock : W → ℕ) where
  -- one round of `RunSelfTests` after the call of `SelfTest`
  self_test_next :
      String
      → (Map String ServiceStatus → W → Option Error × Map String ServiceStatus × W)
      → Map String ServiceStatus
      → Option Error × W
      → Option Error × Map String ServiceStatus × W
  self_test_next name rest statuses (none, w) = rest (insert name (mark (clock w) none) statuses) w
  self_test_next name rest statuses (some e, w) = (
    some (service_error active I18n.err_manager_self_test name e),
    insert name (mark (clock w) (some e)) statuses,
    w,
  )

  unfoldable pub run_self_tests :
      List (Service W) → Map String ServiceStatus → W → Option Error × Map String ServiceStatus × W
  unfolding self_test_next mark
  run_self_tests [] statuses w = (none, statuses, w)
  run_self_tests (svc ∷ svcs) statuses w =
      self_test_next svc.name (run_self_tests svcs) statuses (svc.self_test w)

module _ {W : Type 0} (clock : W → ℕ) where
  -- the metrics of one ping
  unfoldable pub note_ping : String → Option Error → HealthMetrics → HealthMetrics
  unfolding set_service_health inc_health_check inc_health_check_failure
  note_ping name none h = set_service_health name true (inc_health_check name h)
  note_ping name (some e) h =
      set_service_health name false (inc_health_check_failure name (inc_health_check name h))

  unfoldable pub check_service : Service W → Checked W → Checked W
  unfolding mark note_ping
  check_service svc s =
      let (r, w) = svc.ping s.world in
      record {
        statuses = insert svc.name (mark (clock w) r) s.statuses;
        health = note_ping svc.name r s.health;
        world = w;
      }

  unfoldable pub check_loop : List (Service W) → Checked W → Checked W
  check_loop [] s = s
  check_loop (svc ∷ svcs) s = check_loop svcs (check_service svc s)

-- `IsHealthy`: at least one status, and every one healthy
unfoldable pub is_healthy : Map String ServiceStatus → Bool
is_healthy [] = false
is_healthy ((k, st) ∷ m) = all_values ServiceStatus.healthy ((k, st) ∷ m)

module _ {W : Type 0} (clock : W → ℕ) where
  -- `CheckHealth`: every service is pinged, then the overall gauge is set from `IsHealthy`
  unfoldable pub check_health : List (Service W) → Checked W → Checked W
  unfolding set_overall_health
  check_health svcs s =
      let t = check_loop clock svcs s in
      record t { health = set_overall_health (is_healthy t.statuses) t.health }

-- `Statuses`
unfoldable pub snapshot : Map String ServiceStatus → Map String Bool
snapshot [] = []
snapshot ((name, st) ∷ m) = (name, st.healthy) ∷ snapshot m

module _ {W : Type 0} where
  -- `StartHealthChecks`: a new loop, whose cancel function replaces the old one
  unfoldable pub start_health_checks : Manager W → Manager W
  start_health_checks m = record m {
    cancel = some m.started;
    loops = m.started ∷ m.loops;
    started = m.started + 1;
  }

  stop : Option ℕ → Manager W → Manager W
  stop none m = m
  stop (some i) m = record m { cancelled = i ∷ m.cancelled }

  -- `ServiceByName`
  unfoldable pub service_by_name : String → List (Service W) → Option (Service W)
  service_by_name name [] = none
  service_by_name name (svc ∷ svcs) =
      if svc.name == name then some svc else service_by_name name svcs

pub shutdown_error : Messages → List Error → Option Error
shutdown_error active [] = none
shutdown_error active (e ∷ es) =
    some (I18n.get active I18n.err_manager_shutdown +++ (": [" +++ (join " " (e ∷ es) +++ "]")))

module _ {W : Type 0} (active : Messages) where
  close_next : String → Option Error → List Error × W → List Error × W
  close_next name none r = r
  close_next name (some e) (es, w) = (service_error active I18n.err_manager_close name e ∷ es, w)

  -- the loop of `CloseAll`: no error stops it
  unfoldable pub close_services : List (Service W) → W → List Error × W
  unfolding close_next
  close_services [] w = ([], w)
  close_services (svc ∷ svcs) w =
      let (r, w') = svc.close w in close_next svc.name r (close_services svcs w')

  unfoldable pub close_all : Manager W → W → Option Error × Manager W × W
  unfolding close_services stop shutdown_error
  close_all m w =
      let (es, w') = close_services m.services w in (shutdown_error active es, stop m.cancel m, w')
