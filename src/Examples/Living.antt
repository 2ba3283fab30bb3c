-- ===== src/Examples/Living.antt =====
-- A manager's life over an obedient cache, database and GitHub, for
-- internal/services/bootstrap.go.
use scuffinger.Prelude.{
  arith, ◌≡◌, String, string_eq, false, none, some, [], ◌∷◌, ◌==◌, if◌then◌else◌,
}
use scuffinger.Prelude.Int.{pos}
use scuffinger.Prelude.Map.{Map, lookup, insert}
use scuffinger.Prelude.Result.{ok}
use scuffinger.Vault.Memory.{memory_store}
use scuffinger.Database.{Pgx}
use scuffinger.Pool.{Api}
use scuffinger.Pool.Bounds.{CoreLaws}
use scuffinger.Bootstrap.{with_vault_token}
use scuffinger.Process.{Tools, Process, Background, new_process, life}
use scuffinger.Process.Unharmed.{life-Unharmed}
use scuffinger.Examples.Managing.{github_config, vault, opts}
use scuffinger.Examples.Observing.{redis, value_of}
use scuffinger.Examples.Storing.{sql, keys, unmeasured}
use scuffinger.Examples.Managing

abbrev Rows : Type 0
Rows = Map String String

-- a server with one row
abbrev pgx : Pgx String Rows
pgx = record {
  new_pool = λ s w. (ok s, w);
  ping = λ p w. (none, w);
  close = λ p w. w;
  exec = λ p s a w. (
    none,
    if s == "INSERT"
        then insert "row" "test_value" w
        else if s == "UPDATE"
        then insert "row" "updated_value" w
        else w,
  );
  query_value = λ p s a w. (value_of (lookup "row" w), w);
}

abbrev api : Api String Rows
api = record {
  get_user = λ c w. (none, w);
  rate_limit = λ c w. (ok (some (record { remaining = pos 0; reset = 9 })), w);
}

abbrev tools : Tools String String String String String String Rows
tools = record {
  active = [];
  redis = redis;
  sql = sql;
  pgx = pgx;
  conn_string = λ n. n;
  quoted = λ s. s;
  api = api;
  keys = keys;
  get_repo = λ c o r w. (none, w);
  create_tables = λ p w. (none, w);
  now = λ w. 7;
  time_text = λ w. "noon";
}

api-CoreLaws : CoreLaws api
api-CoreLaws = record { core = λ c w h. absurd (ground arith) }

abbrev process : Process String String String Rows
process =
    new_process "valkey:6379" "postgres" (with_vault_token memory_store vault github_config)
      unmeasured []

-- a cycle that fails
abbrev cycle : Background Rows
cycle w = (some "refused", w)

life-Unharmed_example :
    (life tools memory_store vault opts github_config
      (cycle ∷ cycle ∷ [])
      Managing.unmeasured
      process).panicked
    ≡ false
life-Unharmed_example =
    life-Unharmed tools api-CoreLaws memory_store vault opts github_config (cycle ∷ cycle ∷ [])
      Managing.unmeasured "valkey:6379" "postgres" unmeasured []
