-- ===== src/Manager/WellFormed.antt =====
-- The statuses of a manager against its services (internal/services/service.go).
use mathlib.Core.List.{append-nil, append_assoc}
use scuffinger.Prelude.{
  ℕ, String, ◌≡◌, refl, Bool, true, ◌||◌, Option, none, some, List, [], ◌∷◌, ◌++◌, ◌==◌, string_eq,
  arith, any, All, eq_self, eq_iff,
}
use scuffinger.Prelude.Map.{Map, lookup, insert, has_key, has_key-insert, IsUnique, insert-IsUnique}
use scuffinger.I18n.{Messages, Error}
use scuffinger.Manager.{
  Service, ServiceStatus, Checked, unchecked, self_test_next, register, new_manager, run_self_tests,
  check_service, check_loop, check_health,
}

module _ {W : Type 0} where
  -- a service of that name is registered
  abbrev pub has_name : String → List (Service W) → Bool
  has_name n svcs = any (λ (svc : Service W). svc.name == n) svcs

  -- The statuses have one entry for each name of a service, and no other.
  pub record IsWellFormed (svcs : List (Service W)) (m : Map String ServiceStatus) : Type 0 where
    pub unique : IsUnique m
    pub keys : (n : String) → has_key n m ≡ has_name n svcs

  -- A write for a registered service keeps it.
  pub insert-IsWellFormed :
      (svcs : List (Service W)) (m : Map String ServiceStatus) (n : String) (st : ServiceStatus)
      → has_name n svcs ≡ true
      → IsWellFormed svcs m
      → IsWellFormed svcs (insert n st m)
  insert-IsWellFormed svcs m n st h wf = record {
    unique = insert-IsUnique n st m wf.unique;
    keys = λ k. ground (arith, has_key-insert n k st m, eq_iff n k, wf.keys k);
  }

  has_name-append :
      (n : String) (xs ys : List (Service W))
      → has_name n (xs ++ ys) ≡ (has_name n xs || has_name n ys)
  has_name-append n [] ys = refl
  has_name-append n (x ∷ xs) ys = ground (arith, has_name-append n xs ys)

  pub add-IsWellFormed :
      (svcs : List (Service W)) (svc : Service W) (m : Map String ServiceStatus)
      (st : ServiceStatus)
      → IsWellFormed svcs m
      → IsWellFormed (svcs ++ svc ∷ []) (insert svc.name st m)
  add-IsWellFormed svcs svc m st wf = record {
    unique = insert-IsUnique svc.name st m wf.unique;
    keys = λ k.
        ground
          (arith, has_key-insert svc.name k st m, has_name-append k svcs (svc ∷ []), wf.keys k);
  }

  -- `register` adds the names of its services to the keys.
  register-IsWellFormed :
      (xs ys : List (Service W)) (m : Map String ServiceStatus)
      → IsWellFormed xs m
      → IsWellFormed (xs ++ ys) (register ys m)
  unfolding register
  register-IsWellFormed xs [] m wf = rw append-nil wf
  register-IsWellFormed xs (y ∷ ys) m wf = rw (append_assoc xs (y ∷ []) ys) at (
      register-IsWellFormed (xs ++ y ∷ []) ys (insert y.name unchecked m)
        (add-IsWellFormed xs y m unchecked wf))

  pub new_manager-IsWellFormed :
      (svcs : List (Service W)) → IsWellFormed svcs (new_manager svcs).statuses
  unfolding new_manager
  new_manager-IsWellFormed svcs =
      register-IsWellFormed [] svcs [] (record { unique = tt; keys = λ n. unfold lookup in refl })

  -- Every service of `ys` is registered in `svcs`.
  abbrev pub Within : List (Service W) → List (Service W) → Type 0
  Within svcs ys = All (λ (svc : Service W). has_name svc.name svcs ≡ true) ys

  Within-append : (xs ys : List (Service W)) → Within (xs ++ ys) ys
  Within-append xs [] = tt
  Within-append xs (y ∷ ys) = (
    ground (arith, has_name-append y.name xs (y ∷ ys), eq_self y.name),
    rw (append_assoc xs (y ∷ []) ys) at (Within-append (xs ++ y ∷ []) ys),
  )

  pub Within-self : (svcs : List (Service W)) → Within svcs svcs
  Within-self svcs = Within-append [] svcs

module _ {W : Type 0} (active : Messages) (clock : W → ℕ) (svcs : List (Service W)) where
  -- One round keeps it if the rest of the loop does.
  self_test_next-IsWellFormed :
      (y : Service W) (m : Map String ServiceStatus)
      (rest : Map String ServiceStatus → W → Option Error × Map String ServiceStatus × W)
      (r : Option Error × W)
      → has_name y.name svcs ≡ true
      → IsWellFormed svcs m
      → ((m' : Map String ServiceStatus) (w : W)
          → IsWellFormed svcs m'
          → IsWellFormed svcs (rest m' w).1)
      → IsWellFormed svcs (self_test_next active clock y.name rest m r).1
  unfolding self_test_next
  self_test_next-IsWellFormed y m rest (none, w) h wf k =
      k _ w (insert-IsWellFormed svcs m y.name _ h wf)
  self_test_next-IsWellFormed y m rest (some e, w) h wf k = insert-IsWellFormed svcs m y.name _ h wf

  run_self_tests-IsWellFormed_on :
      (ys : List (Service W)) (m : Map String ServiceStatus) (w : W)
      → Within svcs ys
      → IsWellFormed svcs m
      → IsWellFormed svcs (run_self_tests active clock ys m w).1
  unfolding run_self_tests
  run_self_tests-IsWellFormed_on [] m w h wf = wf
  run_self_tests-IsWellFormed_on (y ∷ ys) m w (h, hs) wf =
      self_test_next-IsWellFormed y m (run_self_tests active clock ys) (y.self_test w) h wf
        (λ m' w' wf'. run_self_tests-IsWellFormed_on ys m' w' hs wf')

  pub run_self_tests-IsWellFormed :
      (m : Map String ServiceStatus) (w : W)
      → IsWellFormed svcs m
      → IsWellFormed svcs (run_self_tests active clock svcs m w).1
  run_self_tests-IsWellFormed m w wf = run_self_tests-IsWellFormed_on svcs m w (Within-self svcs) wf

module _ {W : Type 0} (clock : W → ℕ) (svcs : List (Service W)) where
  pub check_loop-IsWellFormed :
      (ys : List (Service W)) (s : Checked W)
      → Within svcs ys
      → IsWellFormed svcs s.statuses
      → IsWellFormed svcs (check_loop clock ys s).statuses
  unfolding check_loop check_service
  check_loop-IsWellFormed [] s h wf = wf
  check_loop-IsWellFormed (y ∷ ys) s (h, hs) wf =
      check_loop-IsWellFormed ys (check_service clock y s) hs
        (insert-IsWellFormed svcs s.statuses y.name _ h wf)

  pub check_health-IsWellFormed :
      (s : Checked W)
      → IsWellFormed svcs s.statuses
      → IsWellFormed svcs (check_health clock svcs s).statuses
  unfolding check_health
  check_health-IsWellFormed s wf = check_loop-IsWellFormed svcs s (Within-self svcs) wf
