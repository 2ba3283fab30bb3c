-- ===== src/Examples/Storing.antt =====
-- The stores, the credentials, the device flow, the pool and the database at concrete inputs.
use scuffinger.Prelude.{
  ℕ_eq, ℕ, suc, ◌+◌, ◌≡◌, ◌≢◌, sym, ap, ◌∙◌, behind, inl, inr, ◌<◌, refl, String, string_eq, eq_iff,
  eq_self, true, false, Option, none, some, [], ◌∷◌, ◌==◌, arith, if◌then◌else◌, ◌+++◌, length,
}
use scuffinger.Prelude.Int.{pos, negsuc}
use scuffinger.Prelude.Map.{Map, lookup, insert, delete, is_some, lookup-insert, lookup-delete}
use scuffinger.Prelude.Result.{Result, ok, err}
use scuffinger.Config.{GithubConfig, enabled}
use scuffinger.Vault.{not_found, StoreLaws, StoreLaws-narrow}
use scuffinger.Vault.Memory.{memory_store, memory_store-StoreLaws, delete_secret}
use scuffinger.Vault.Linux.{
  FileError, not_exist, Files, FilesLaws, linux_store, linux_store-StoreLaws,
}
use scuffinger.Auth.Credentials.{
  vault_key_token, vault_key_user, IsCredential, load_token, load_user, has_credentials,
  clear_credentials, clear_credentials-absent,
}
use scuffinger.Auth.Flow.{Web, poll_for_token}
use scuffinger.Auth.Polling.{ClockLaws, Ends, poll_for_token-Ends}
use scuffinger.Metrics.Github.{ApiMetrics}
use scuffinger.Pool.{ClientEntry, GithubService, Api, rotate, ping}
use scuffinger.Pool.Connect.{Keys, app_entries, pat_entries, connect, new_github_service}
use scuffinger.Pool.Opened.{credentials, connect-credentials}
use scuffinger.Pool.Ping.{Answers}
use scuffinger.Pool.Pinged.{Pings, ping-Pings}
use scuffinger.Pool.Turn.{Rotates, rotate-Rotates}
use scuffinger.Database.{Sql, Pgx, self_test_on}
use scuffinger.Database.Cleanup.{Tested, self_test_on-Tested}

abbrev Secrets : Type 0
Secrets = Map String String

abbrev stored : Secrets
stored = ("github_token", "secret") ∷ []

pub memory_store-credentials : StoreLaws IsCredential memory_store
memory_store-credentials = StoreLaws-narrow (λ k h. tt) memory_store-StoreLaws

clear_credentials-absent_example :
    (load_token memory_store (clear_credentials memory_store stored) ≡ err not_found)
    × (load_user memory_store (clear_credentials memory_store stored) ≡ err not_found)
    × (has_credentials memory_store (clear_credentials memory_store stored) ≡ false)
unfolding delete_secret lookup delete
clear_credentials-absent_example =
    clear_credentials-absent memory_store memory_store-credentials stored (inl refl) (inr refl)

-- a file system that holds texts under paths
content : Option String → Result FileError String
content none = err not_exist
content (some v) = ok v

absent : (o : Option String) → content o ≡ err not_exist → is_some o ≡ false
unfolding content
absent none h = refl
absent (some v) h = absurd (ground arith)

present : (o : Option String) (v : String) → content o ≡ ok v → is_some o ≡ true
unfolding content
present none v h = absurd (ground arith)
present (some v) w h = refl

abbrev files : Files Secrets
files = record {
  mkdir_all = λ d f. (none, f);
  write_file = λ p v f. (none, insert p v f);
  read_file = λ p f. content (lookup p f);
  remove = λ p f. (if is_some (lookup p f) then none else some not_exist, delete p f);
}

files-FilesLaws : FilesLaws files
unfolding content
files-FilesLaws = record {
  read-mkdir = λ p d f. refl;
  read-write_same = λ p v f h. ground (arith, lookup-insert p p v f, eq_self p);
  read-write_other = λ p p' v f h. ground (arith, lookup-insert p p' v f, eq_iff p p', eq_iff p' p);
  read-remove_same = λ p f h. ground (arith, lookup-delete p p f, eq_self p);
  read-remove_other = λ p p' f h. ground (arith, lookup-delete p p' f, eq_iff p p', eq_iff p' p);
  remove-absent = λ p f h. ground (arith, absent (lookup p f));
  remove-present = λ p v f h q. ground (arith, present (lookup p f) v);
}

-- as `filepath.Join` does to the keys that begin so
abbrev without_dot : String → Option String → String
without_dot k none = k
without_dot k (some rest) = rest

abbrev slash_path : String → String → String
slash_path d k = d +++ ("/" +++ without_dot k (behind "./" k))

paths_differ :
    slash_path "/home/.scuffinger" vault_key_user ≢ slash_path "/home/.scuffinger" vault_key_token
unfolding behind
paths_differ h =
    let e : "/home/.scuffinger/github_user" ≡ "/home/.scuffinger/github_token" = h in
    ground (arith, eq_iff "/home/.scuffinger/github_user" "/home/.scuffinger/github_token")

slash_path_lem :
    (k k' : String)
    → IsCredential k
    → IsCredential k'
    → k' ≢ k
    → slash_path "/home/.scuffinger" k' ≢ slash_path "/home/.scuffinger" k
slash_path_lem k k' (inl p) (inl q) n e = n (q ∙ sym p)
slash_path_lem k k' (inr p) (inr q) n e = n (q ∙ sym p)
slash_path_lem k k' (inl p) (inr q) n e =
    paths_differ
      (sym (ap (slash_path "/home/.scuffinger") q) ∙ e ∙ ap (slash_path "/home/.scuffinger") p)
slash_path_lem k k' (inr p) (inl q) n e =
    paths_differ (
      sym (sym (ap (slash_path "/home/.scuffinger") q) ∙ e ∙ ap (slash_path "/home/.scuffinger") p))

linux_store-StoreLaws_example :
    StoreLaws IsCredential (linux_store files slash_path "/home/.scuffinger")
linux_store-StoreLaws_example =
    linux_store-StoreLaws files slash_path "/home/.scuffinger" files-FilesLaws IsCredential
      slash_path_lem

-- a server that is slow at first and then grants the token
abbrev pub web : Web ℕ
web = record {
  post = λ u f w. (ok (200, if w == 5_000_000_000 then "slow" else "granted"), w + 1);
  decode_device_code = λ b. err b;
  decode_access_token = λ b. ok (record {
    access_token = "t";
    token_type = "bearer";
    scope = "";
    error = if b == "slow" then "slow_down" else "";
    error_desc = "";
  });
  now = λ w. w;
  sleep = λ d w. w + d;
}

pub web-ClockLaws : ClockLaws web
web-ClockLaws = record { now-sleep = λ d w. omega arith; now-post = λ u f w. omega arith }

poll_for_token-Ends_example : Ends (poll_for_token web "client" "device" (pos 1) (pos 900) 0)
poll_for_token-Ends_example =
    poll_for_token-Ends web web-ClockLaws "client" "device" (pos 1) (pos 900) 0

-- two tokens, the first of which is used up
abbrev api : Api String ℕ
api = record {
  get_user = λ c w. (none, suc w);
  rate_limit = λ c w.
      (ok (some (record { remaining = if c == "a" then pos 0 else pos 4000; reset = 9 })), suc w);
}

abbrev pub unmeasured : ApiMetrics
unmeasured = record { calls = []; errors = []; durations = []; rate_limit = [] }

abbrev first_entry : ClientEntry String
first_entry = record { client = "a"; label = "pat-0"; remaining = negsuc 0; reset_at = 0 }

abbrev pool : GithubService String ℕ
pool = record {
  threshold = pos 0;
  entries =
      first_entry
      ∷ (record { client = "b"; label = "pat-1"; remaining = negsuc 0; reset_at = 0 })
      ∷ [];
  active = 0;
  metrics = unmeasured;
  world = 0;
}

rotate-Rotates_example : Rotates api pool first_entry (rotate api pool)
rotate-Rotates_example = rotate-Rotates api pool first_entry refl

ping-Pings_example :
    Pings [] api pool first_entry (ping [] api pool) × Answers [] api pool (ping [] api pool)
ping-Pings_example = ping-Pings [] api pool first_entry refl

abbrev github_config : GithubConfig
github_config = record {
  tokens = "a" ∷ "" ∷ "b" ∷ [];
  applications = [];
  token = "";
  client_id = "";
  app_id = pos 0;
  installation_id = pos 0;
  private_key_path = "";
  organization = "";
  rate_limit_threshold = pos 0;
  repositories = [];
  collector_interval = "";
  max_recent_runs = pos 0;
  fetch_annotations = false;
}

abbrev pub keys : Keys String String String String
keys = record {
  token_client = λ t. t;
  app_client = λ a i k. k;
  read_file = λ p. err "no such file";
  pem_decode = λ d. none;
  pkcs1 = λ b. err "not pkcs1";
  pkcs8 = λ b. err "not pkcs8";
}

abbrev opened : GithubService String ℕ
opened = (connect [] keys github_config (new_github_service github_config unmeasured 0)).1

connect-credentials_example :
    (opened.active < length opened.entries) × (length opened.entries ≡ credentials github_config)
unfolding connect new_github_service enabled app_entries pat_entries
connect-credentials_example = connect-credentials [] keys github_config unmeasured 0 opened refl

abbrev pub sql : Sql
sql = record {
  terminate_connections = λ d. "SELECT pg_terminate_backend " +++ d;
  drop_database = λ d. "DROP DATABASE " +++ d;
  create_database = λ d. "CREATE DATABASE " +++ d;
  create_table = "CREATE TABLE";
  insert_row = "INSERT";
  select_row = "SELECT";
  update_row = "UPDATE";
}

-- a server that forgets what is written
abbrev pgx : Pgx ℕ ℕ
pgx = record {
  new_pool = λ s w. (ok w, suc w);
  ping = λ p w. (none, suc w);
  close = λ p w. suc w;
  exec = λ p s a w. (none, suc w);
  query_value = λ p s a w. (ok "", suc w);
}

self_test_on-Tested_example :
    Tested [] sql pgx (λ n. n) (λ s. s) 0 (self_test_on [] sql pgx (λ n. n) (λ s. s) 0 0)
self_test_on-Tested_example = self_test_on-Tested [] sql pgx (λ n. n) (λ s. s) 0 0
