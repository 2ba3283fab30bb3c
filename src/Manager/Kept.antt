-- ===== src/Manager/Kept.antt =====
-- What every call of every service keeps, the loops of internal/services/service.go keep.
use scuffinger.Prelude.{ℕ, ◌≡◌, refl, String, Option, none, some, List, [], ◌∷◌, All, arith}
use scuffinger.Prelude.Map.{Map}
use scuffinger.I18n.{Error, Messages}
use mathlib.Core.Path.{subst}
use scuffinger.Prelude.{sym}
use scuffinger.Manager.{
  Service, ServiceStatus, Manager, Checked, connect_next, connect_all, self_test_next,
  run_self_tests, check_service, check_loop, check_health, close_all,
}
use scuffinger.Manager.Shutdown.{closed_world, close_all-results}

module _ {W : Type 0} (I : W → Type 0) where
  -- the calls of a service behind its connection
  pub record Keeps (svc : Service W) : Type 0 where
    pub self_test : (w : W) → I w → I (svc.self_test w).1
    pub ping : (w : W) → I w → I (svc.ping w).1
    pub close : (w : W) → I w → I (svc.close w).1

  module _ (active : Messages) (clock : W → ℕ) where
    self_test_next-Kept :
        (name : String)
        (rest : Map String ServiceStatus → W → Option Error × Map String ServiceStatus × W)
        (m : Map String ServiceStatus) (r : Option Error × W)
        → I r.1
        → ((m' : Map String ServiceStatus) (w : W) → I w → I (rest m' w).2)
        → I (self_test_next active clock name rest m r).2
    unfolding self_test_next
    self_test_next-Kept name rest m (none, w) i k = k _ w i
    self_test_next-Kept name rest m (some e, w) i k = i

    pub run_self_tests-Kept :
        (svcs : List (Service W)) (m : Map String ServiceStatus) (w : W)
        → All Keeps svcs
        → I w
        → I (run_self_tests active clock svcs m w).2
    unfolding run_self_tests
    run_self_tests-Kept [] m w ks i = i
    run_self_tests-Kept (svc ∷ svcs) m w (k, ks) i =
        self_test_next-Kept svc.name (run_self_tests active clock svcs) m (svc.self_test w)
          (k.self_test w i) (λ m' w' i'. run_self_tests-Kept svcs m' w' ks i')

  closed_world-Kept :
      (svcs : List (Service W)) (w : W) → All Keeps svcs → I w → I (closed_world svcs w)
  unfolding closed_world
  closed_world-Kept [] w ks i = i
  closed_world-Kept (svc ∷ svcs) w (k, ks) i =
      closed_world-Kept svcs (svc.close w).1 ks (k.close w i)

  pub close_all-Kept :
      (active : Messages) (m : Manager W) (w : W)
      → All Keeps m.services
      → I w
      → I (close_all active m w).2
  close_all-Kept active m w ks i =
      subst I (sym (close_all-results active m w).0) (closed_world-Kept m.services w ks i)

  module _ (clock : W → ℕ) where
    check_loop-Kept :
        (svcs : List (Service W)) (s : Checked W)
        → All Keeps svcs
        → I s.world
        → I (check_loop clock svcs s).world
    unfolding check_loop check_service
    check_loop-Kept [] s ks i = i
    check_loop-Kept (svc ∷ svcs) s (k, ks) i =
        check_loop-Kept svcs (check_service clock svc s) ks (k.ping s.world i)

    pub check_health-Kept :
        (svcs : List (Service W)) (s : Checked W)
        → All Keeps svcs
        → I s.world
        → I (check_health clock svcs s).world
    unfolding check_health
    check_health-Kept svcs s ks i = check_loop-Kept svcs s ks i

module _ {W : Type 0} (I J : W → Type 0) where
  -- What a connection that may have failed leaves: `J` always, and `I` if it has not.
  pub record ConnectsTo (r : Option Error × W) : Type 0 where
    pub always : J r.1
    pub unless_failed : r.0 ≡ none → I r.1

  connect_next-ConnectsTo :
      (active : Messages) (name : String) (rest : W → Option Error × W) (r : Option Error × W)
      → J r.1
      → (r.0 ≡ none → ConnectsTo (rest r.1))
      → ConnectsTo (connect_next active name rest r)
  unfolding connect_next
  connect_next-ConnectsTo active name rest (none, w) j k = k refl
  connect_next-ConnectsTo active name rest (some e, w) j k = record {
    always = j;
    unless_failed = λ h. absurd (ground arith);
  }

  -- The first service, and then the others.
  pub connect_all-ConnectsTo :
      (active : Messages) (svc : Service W) (svcs : List (Service W)) (w : W)
      → J (svc.connect w).1
      → ((svc.connect w).0 ≡ none → ConnectsTo (connect_all active svcs (svc.connect w).1))
      → ConnectsTo (connect_all active (svc ∷ svcs) w)
  unfolding connect_all
  connect_all-ConnectsTo active svc svcs w j k =
      connect_next-ConnectsTo active svc.name (connect_all active svcs) (svc.connect w) j k
