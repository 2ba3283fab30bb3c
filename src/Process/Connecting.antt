-- ===== src/Process/Connecting.antt =====
-- What the connection of the services leads to (internal/services/bootstrap.go).
use scuffinger.Prelude.{◌≡◌, false, [], ◌∷◌, arith, Bool-cases, inl, inr, if◌then◌else◌}
use scuffinger.Config.{GithubConfig, enabled}
use scuffinger.Pool.Opened.{connect-active}
use scuffinger.Cache.Connected.{connect-client}
use scuffinger.Database.Connected.{connect-pool}
use scuffinger.Manager.{connect_all}
use scuffinger.Manager.Kept.{ConnectsTo, connect_all-ConnectsTo}
use scuffinger.Bootstrap.{base_services}
use scuffinger.Process.{Tools, Process, cache_service, database_service, github_service, parts}
use scuffinger.Process.Ready.{Unharmed, HasClient, HasPool, Ready}

module _ {C P G D B K W : Type 0} (tools : Tools C P G D B K W) where
  module _ (cfg : GithubConfig) where
    alone-ConnectsTo :
        (p : Process C P G W)
        → enabled cfg ≡ false
        → Unharmed p
        → HasClient p
        → HasPool p
        → ConnectsTo (Ready cfg) Unharmed (connect_all tools.active [] p)
    unfolding Ready connect_all
    alone-ConnectsTo p h u c d = record {
      always = u;
      unless_failed =
          λ q. record { unharmed = u; client = c; pool = d; entry = λ k. absurd (ground arith) };
    }

    github_service-ConnectsTo :
        (p : Process C P G W)
        → Unharmed p
        → HasClient p
        → HasPool p
        → p.github.active ≡ 0
        → ConnectsTo
            (Ready cfg)
            Unharmed
            (connect_all tools.active (github_service tools cfg ∷ []) p)
    unfolding Ready github_service connect_all
    github_service-ConnectsTo p u c d a =
        connect_all-ConnectsTo (Ready cfg) Unharmed tools.active (github_service tools cfg) [] p u
          (λ h. record {
            always = u;
            unless_failed = λ q. record {
              unharmed = u;
              client = c;
              pool = d;
              entry = λ k. connect-active tools.active tools.keys cfg p.github a h;
            };
          })

    others-ConnectsTo :
        (p : Process C P G W)
        → Unharmed p
        → HasClient p
        → HasPool p
        → p.github.active ≡ 0
        → ConnectsTo
            (Ready cfg)
            Unharmed
            (connect_all tools.active (if enabled cfg then github_service tools cfg ∷ [] else []) p)
    others-ConnectsTo p u c d a = elim (Bool-cases (enabled cfg)) [
      | inl h ↦ rw h (github_service-ConnectsTo p u c d a)
      | inr h ↦ rw h (alone-ConnectsTo p h u c d)
    ]

    pub base_services-ConnectsTo :
        (p : Process C P G W)
        → Unharmed p
        → p.github.active ≡ 0
        → ConnectsTo
            (Ready cfg)
            Unharmed
            (connect_all tools.active (base_services (parts tools) cfg) p)
    unfolding base_services parts cache_service database_service
    base_services-ConnectsTo p u a =
        let p1 = ((cache_service tools).connect p).1 in
        connect_all-ConnectsTo (Ready cfg) Unharmed tools.active (cache_service tools) _ p u (λ h.
          connect_all-ConnectsTo (Ready cfg) Unharmed tools.active (database_service tools) _ p1 u
            (λ k.
              others-ConnectsTo ((database_service tools).connect p1).1 u
                (_, connect-client tools.active tools.redis p.cache p.github.world)
                (connect-pool tools.active tools.sql tools.pgx tools.conn_string p1.database
                  p1.github.world k)
                a))
