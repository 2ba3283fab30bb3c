-- ===== src/Examples/Locking.antt =====
-- The lock of internal/services/github_collector.go over a small model of ValKey.
use scuffinger.Prelude.{
  ℕ, ◌≡◌, ◌≢◌, ◌≤◌, ◌<◌, ◌+◌, refl, String, string_eq, Bool, true, false, none, some, [], ◌==◌,
  arith, eq_self, list_eq, if◌then◌else◌, ltb,
}
use scuffinger.Prelude.Int.{ℤ, int_eq, pos_part}
use scuffinger.Prelude.Result.{ok, err}
use scuffinger.I18n.{Error}
use scuffinger.Config.{collector_duration}
use scuffinger.Collector.Types.{Env, State, SetNx}
use scuffinger.Collector.Cycle.{try_lock}
use scuffinger.Collector.Locking.{NxLaws, lock_key, lock_ttl, try_lock-excludes}
use scuffinger.Examples.Collecting.{config, empty_gauges}

-- A world for the lock: the time, until when each key exists, and whether the server answers.
abbrev Locks : Type 0
Locks = ℕ × (String → ℕ) × Bool

abbrev now : Locks → ℕ
now w = w.0

set_nx : SetNx Locks
set_nx k v ttl (t, f, false) = (err "connection refused", (t, f, false))
set_nx k v ttl (t, f, true) =
    if ltb t (f k)
    then (ok false, (t, f, true))
    else (ok true, (t, (λ j. if j == k then t + pos_part ttl else f j), true))

abbrev Held : Locks → String → ℕ → Type 0
Held w k t = t ≤ w.1 k

abbrev Later : Locks → Locks → Type 0
Later w w' = (w.0 ≤ w'.0) × ((k : String) → w.1 k ≤ w'.1 k)

set_nx-sets :
    (k v : String) (ttl : ℤ) (t : ℕ) (f : String → ℕ) (up : Bool) (w' : Locks)
    → set_nx k v ttl (t, f, up) ≡ (ok true, w')
    → Held w' k (t + pos_part ttl)
unfolding set_nx
set_nx-sets k v ttl t f true w' h = ground (arith, eq_self k)
set_nx-sets k v ttl t f false w' h = ground arith

set_nx-refuses :
    (k v : String) (ttl : ℤ) (t at : ℕ) (f : String → ℕ) (up : Bool)
    → t ≤ f k
    → at < t
    → (set_nx k v ttl (at, f, up)).0 ≢ ok true
unfolding set_nx
set_nx-refuses k v ttl t at f true a b h = ground arith
set_nx-refuses k v ttl t at f false a b h = ground arith

set_nx-NxLaws : NxLaws set_nx now
set_nx-NxLaws = record {
  Held = Held;
  Later = Later;
  sets = λ k v ttl w w' h. set_nx-sets k v ttl w.0 w.1 w.2 w' h;
  stays = λ l k t h s. omega (arith, l.1 k);
  refuses = λ k v ttl t w h s. set_nx-refuses k v ttl t w.0 w.1 w.2 h s;
}

abbrev lock_env : Env Locks
lock_env = record {
  cfg = config;
  github = record {
    get_repo = λ owner repo w. (err "offline", w);
    list_runs = λ owner repo n w. (err "offline", w);
    list_jobs = λ owner repo id w. (err "offline", w);
    list_annotations = λ owner repo id w. (err "offline", w);
  };
  pool = none;
  set_nx = some set_nx;
  pod_id = "pod-1";
  clock = now;
  parse_duration = λ s. none;
  active = [];
}

abbrev free : Locks
free = (10, (λ k. 0), true)

abbrev taken : Locks
taken = (set_nx (lock_key "octo/cat") "pod-1" (lock_ttl lock_env) free).1

-- a second later, when the server is gone
abbrev gone : Locks
gone = (1_000_000_010, taken.1, false)

abbrev lock_state : State Locks
lock_state = record {
  gauges = empty_gauges;
  repo_gauges = record { stars = []; forks = []; open_issues = []; size = []; info = [] };
  api = record { calls = []; errors = []; durations = []; rate_limit = [] };
  cycles = 0;
  errors = [];
  locks_acquired = [];
  locks_skipped = [];
  last_err = none;
  world = gone;
}

try_lock-excludes_example :
    (x : Error) × ((set_nx (lock_key "octo/cat") "pod-1" (lock_ttl lock_env) gone).0 ≡ err x)
unfolding set_nx collector_duration try_lock set_nx-NxLaws
try_lock-excludes_example =
    try_lock-excludes set_nx now set_nx-NxLaws lock_env lock_env "octo/cat" free taken lock_state
      refl refl (omega arith, λ k. omega arith) (omega arith) refl
