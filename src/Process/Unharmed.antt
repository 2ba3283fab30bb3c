-- ===== src/Process/Unharmed.antt =====
-- No call that a manager makes of its services panics (internal/services/bootstrap.go and the
-- services that it constructs).
use scuffinger.Prelude.{
  ◌≡◌, refl, String, true, false, Option, some, List, [], ◌∷◌, All, arith, Bool-cases, inl, inr,
  if◌then◌else◌,
}
use scuffinger.Prelude.Result.{Result, ok, err}
use scuffinger.I18n.{Error}
use scuffinger.Config.{GithubConfig, enabled}
use scuffinger.Vault.{Store}
use scuffinger.Metrics.Health.{HealthMetrics}
use scuffinger.Metrics.Github.{ApiMetrics}
use scuffinger.Manager.{Service, Manager, Checked, check_health}
use scuffinger.Manager.Kept.{Keeps, close_all-Kept, check_health-Kept}
use scuffinger.Bootstrap.{BootstrapOpts, base_services, bootstrap, with_vault_token}
use scuffinger.Bootstrap.Kept.{PartsKeep, Kept, bootstrap_with-Kept}
use scuffinger.Process.{
  Tools, Process, Background, new_process, github_service, collector_service, parts, clock,
  passed_by, watched, lived, life, tables_created,
}
use scuffinger.Pool.Bounds.{CoreLaws}
use scuffinger.Process.Ready.{
  Unharmed, Ready, renewed-IsReady, settled-IsReady, cache_service-Keeps, database_service-Keeps,
  github_service-Keeps, collector_service-Keeps,
}
use scuffinger.Process.Connecting.{base_services-ConnectsTo}

module _ {C P G D B K W : Type 0} (tools : Tools C P G D B K W) (cored : CoreLaws tools.api) where
  module _ (cfg : GithubConfig) where
    github-Keep : enabled cfg ≡ true → Keeps (Ready cfg) (github_service tools cfg)
    unfolding Ready
    github-Keep h = github_service-Keeps tools cored (enabled cfg) cfg h

    others-Keep :
        All (Keeps (Ready cfg)) (if enabled cfg then github_service tools cfg ∷ [] else [])
    others-Keep = elim (Bool-cases (enabled cfg)) [
      | inl h ↦ rw h (github-Keep h, tt)
      | inr h ↦ rw h tt
    ]

    base_services-Keep : All (Keeps (Ready cfg)) (base_services (parts tools) cfg)
    unfolding base_services parts Ready
    base_services-Keep = (
      cache_service-Keeps tools cored (enabled cfg),
      (database_service-Keeps tools cored (enabled cfg), others-Keep),
    )

    tables_created-some :
        (o : Option P) (w : W) (d : P)
        → o ≡ some d
        → tables_created tools o w ≡ some (tools.create_tables d w)
    unfolding tables_created
    tables_created-some o w d h = rw h refl

    tables_created-Ready :
        (p : Process C P G W) → Ready cfg p → Ready cfg ((parts tools).create_tables p).1
    unfolding parts Ready
    tables_created-Ready p i =
        settled-IsReady (enabled cfg) p _ _
          (tables_created-some p.database.pool p.github.world i.pool.0 i.pool.1) i

    parts-Keep :
        (opts : BootstrapOpts) → PartsKeep (Ready cfg) Unharmed tools.active (parts tools) opts cfg
    unfolding Ready parts collector_service
    parts-Keep opts = record {
      weaker = λ p i. i.unharmed;
      base = base_services-Keep;
      collector = λ h. collector_service-Keeps tools cored (enabled cfg) cfg (ground arith);
      collector_connects = λ p i. i;
      creates = λ p i. tables_created-Ready p i;
      starts = λ p i. renewed-IsReady (enabled cfg) p.github.world p.last_err true p i;
    }

    watched-Ready :
        (svcs : List (Service (Process C P G W))) (fs : List (Background W))
        (c : Checked (Process C P G W))
        → All (Keeps (Ready cfg)) svcs
        → Ready cfg c.world
        → Ready cfg (watched tools svcs fs c).world
    unfolding watched Ready
    watched-Ready svcs [] c ks i = i
    watched-Ready svcs (f ∷ fs) c ks i =
        watched-Ready svcs fs
          (check_health (clock tools) svcs (record c { world = passed_by tools f c.world })) ks
          (check_health-Kept (Ready cfg) (clock tools) svcs
            (record c { world = passed_by tools f c.world }) ks
            (renewed-IsReady (enabled cfg) (f c.world.github.world).1 (f c.world.github.world).0
              c.world.collecting c.world i))

    lived-Unharmed :
        (fs : List (Background W)) (h : HealthMetrics)
        (r : Result Error (Manager (Process C P G W)) × Process C P G W)
        → Kept (Ready cfg) Unharmed r
        → Unharmed (lived tools fs h r)
    unfolding lived Ready
    lived-Unharmed fs h (err e, p) k = k
    lived-Unharmed fs h (ok m, p) (ks, i) =
        let c : Checked (Process C P G W) = record {
          statuses = m.statuses;
          health = h;
          world = p;
        } in
        (close_all-Kept (Ready cfg) tools.active m (watched tools m.services fs c).world ks
          (watched-Ready m.services fs c ks i)).unharmed

  -- If GitHub's answers have the core limit: from the services as they are constructed, whatever
  -- the cache, the database and GitHub answer and whatever runs between the checks, no call of
  -- `Bootstrap`, of the health checks behind it or of `CloseAll` uses a nil client or a nil pool,
  -- or a credential out of range.
  pub life-Unharmed :
      {S : Type 0} (store : Store S) (s : S) (opts : BootstrapOpts) (cfg : GithubConfig)
      (fs : List (Background W)) (h : HealthMetrics) (address name : String) (m : ApiMetrics)
      (w : W)
      → (life tools store s opts cfg fs h
          (new_process address name (with_vault_token store s cfg) m w)).panicked
        ≡ false
  unfolding life bootstrap new_process
  life-Unharmed store s opts cfg fs h address name m w =
      let g = with_vault_token store s cfg in
      lived-Unharmed g fs h _ (
        bootstrap_with-Kept (Ready g) Unharmed tools.active (clock tools) (parts tools) opts g
          (parts-Keep g opts) (new_process address name g m w)
          (base_services-ConnectsTo tools g (new_process address name g m w) refl refl))
