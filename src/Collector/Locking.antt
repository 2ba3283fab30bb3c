-- ===== src/Collector/Locking.antt =====
-- The distributed lock of `tryLock` (internal/services/github_collector.go) over ValKey.
use scuffinger.Prelude.{ℕ, ◌+◌, ◌<◌, String, ◌≡◌, ◌≢◌, refl, Bool, true, false, some, arith, ◌+++◌}
use scuffinger.Prelude.Int.{ℤ, pos_part}
use scuffinger.Prelude.Result.{Result, ok, err}
use scuffinger.I18n.{Error}
use scuffinger.Config.{collector_duration}
use scuffinger.Collector.Types.{Env, State, SetNx}
use scuffinger.Collector.Cycle.{lock_answered, try_lock}

-- What ValKey documents of SET with NX and a time to live, for a positive one: `Held w k t` says
-- that the key `k` exists in the world `w` until the time `t`, and `Later` is how worlds follow one
-- another while no other client deletes the key.
pub record NxLaws {W : Type 0} (set_nx : SetNx W) (clock : W → ℕ) : Type 1 where
  pub Held : W → String → ℕ → Type 0
  pub Later : W → W → Type 0
  pub sets :
      (k v : String) (ttl : ℤ) (w w' : W)
      → set_nx k v ttl w ≡ (ok true, w')
      → Held w' k (clock w + pos_part ttl)
  pub stays :
      {w w' : W} → Later w w' → (k : String) (t : ℕ) → Held w k t → clock w' < t → Held w' k t
  pub refuses :
      (k v : String) (ttl : ℤ) (t : ℕ) (w : W)
      → Held w k t
      → clock w < t
      → (set_nx k v ttl w).0 ≢ ok true

abbrev pub lock_key : String → String
lock_key repo = "scuffinger:collect:" +++ repo

abbrev pub lock_ttl : {W : Type 0} → Env W → ℤ
lock_ttl env = collector_duration env.parse_duration env.cfg

module _ {W : Type 0} (set_nx : SetNx W) where
  -- Without an error, `tryLock` returns what ValKey answers, and counts it.
  try_lock-answer :
      (env : Env W) (repo : String) (s : State W)
      → env.set_nx ≡ some set_nx
      → (b : Bool) → (set_nx (lock_key repo) env.pod_id (lock_ttl env) s.world).0 ≡ ok b
      → (try_lock env repo s).0 ≡ b
  unfolding try_lock
  try_lock-answer env repo s e b q =
      rw e (go (set_nx (lock_key repo) env.pod_id (lock_ttl env) s.world) q)
    where
      go : (p : Result Error Bool × W) → p.0 ≡ ok b → (lock_answered env repo p s).0 ≡ b
      go (err x, w) h = ground arith
      go (ok false, w) h = ground arith
      go (ok true, w) h = ground arith

  -- If one instance has acquired the lock of a repository in ValKey, then until the collector
  -- interval of that instance has passed `tryLock` returns true for no instance, itself included,
  -- unless ValKey answers it with an error.
  pub try_lock-excludes :
      (clock : W → ℕ) (laws : NxLaws set_nx clock) (env env' : Env W) (repo : String) (w w' : W)
      (s' : State W)
      → env'.set_nx ≡ some set_nx
      → set_nx (lock_key repo) env.pod_id (lock_ttl env) w ≡ (ok true, w')
      → NxLaws.Later laws w' s'.world
      → clock s'.world < clock w + pos_part (lock_ttl env)
      → (try_lock env' repo s').0 ≡ true
      → (x : Error) × ((set_nx (lock_key repo) env'.pod_id (lock_ttl env') s'.world).0 ≡ err x)
  try_lock-excludes clock laws env env' repo w w' s' e got later soon taken =
      go (set_nx (lock_key repo) env'.pod_id (lock_ttl env') s'.world).0 refl
    where
      held : NxLaws.Held laws s'.world (lock_key repo) (clock w + pos_part (lock_ttl env))
      held =
          NxLaws.stays laws later (lock_key repo) _
            (NxLaws.sets laws (lock_key repo) env.pod_id (lock_ttl env) w w' got) soon

      go :
          (r : Result Error Bool)
          → (set_nx (lock_key repo) env'.pod_id (lock_ttl env') s'.world).0 ≡ r
          → (x : Error) × ((set_nx (lock_key repo) env'.pod_id (lock_ttl env') s'.world).0 ≡ err x)
      go (err x) q = (x, q)
      go (ok true) q =
          absurd
            (NxLaws.refuses laws (lock_key repo) env'.pod_id (lock_ttl env') _ s'.world held soon q)
      go (ok false) q = absurd (cc (try_lock-answer env' repo s' e false q, taken))
