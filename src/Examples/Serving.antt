-- ===== src/Examples/Serving.antt =====
-- The handlers of internal/server at concrete requests.
use scuffinger.Prelude.{
  ℕ, suc, ◌≡◌, refl, String, string_eq, none, some, List, [], ◌∷◌, ◌+++◌, ◌==◌, ℕ_eq, arith,
  if◌then◌else◌,
}
use scuffinger.Prelude.Int.{pos}
use scuffinger.Prelude.Result.{ok}
use scuffinger.I18n
use scuffinger.Server.Debug.Ident.{pg_quote_ident, read_ident, read_ident-pg_quote_ident}
use scuffinger.Server.Debug.Query.{RowsRequest, ColMeta, Std, filters}
use scuffinger.Server.Debug.Filters.{Numbered, wanted, filters-Numbered}
use scuffinger.Server.Debug.Rows.{Database, query_rows}
use scuffinger.Server.Debug.Rows.Safe.{AllSafe, logged, query_rows-Safe}
use scuffinger.Server.Debug.Scan.{ScanRequest, Redis, scan_keys}
use scuffinger.Server.Debug.Scanned.{ScanLaws, Ends, scan_keys-Ends}
use scuffinger.Server.Github.{PageOf, Api, Serving, observed, fetch_all}
use scuffinger.Server.Paging.{Served, last, more, fetch_all-Served}
use scuffinger.Server.Paging

read_ident-pg_quote_ident_example :
    read_ident (pg_quote_ident "a\"; DROP TABLE b" +++ " ILIKE $1")
    ≡ some ("a\"; DROP TABLE b", " ILIKE $1")
read_ident-pg_quote_ident_example = read_ident-pg_quote_ident "a\"; DROP TABLE b" " ILIKE $1" refl

abbrev rows : RowsRequest
rows = record {
  table = "events";
  schema = none;
  q = "err";
  from_str = "2024-01-01";
  to_str = "2024-01-31";
  date_col = "";
  sort_col = "id";
  order = some "desc";
  limit = some "20";
  offset = none;
}

abbrev columns : List ColMeta
columns =
    (record { name = "id"; type = "bigint" })
    ∷ (record { name = "message"; type = "text" })
    ∷ (record { name = "at"; type = "timestamp" })
    ∷ []

abbrev std : Std
std = record {
  to_lower = λ s. s;
  to_upper = λ s. if s == "desc" then "DESC" else s;
  equal_fold = λ s t. s == t;
  quoted = λ s. s;
  parse_rfc3339 = λ s. none;
  parse_date = λ s. some (pos 0);
}

filters-Numbered_example : Numbered (filters std rows columns) (wanted std rows columns)
filters-Numbered_example = filters-Numbered std rows columns

-- a table of those columns with one row
abbrev database : Database String ℕ
database = record {
  columns = λ s t w. (ok columns, suc w);
  count = λ q a w. (ok 1, suc w);
  rows = λ q a w. (ok ("row" ∷ []), suc w);
}

query_rows-Safe_example :
    AllSafe std database rows (ok columns) (query_rows std (logged std database) rows (0, [])).1.1
query_rows-Safe_example = query_rows-Safe std database rows 0

-- a cache of two batches, behind the cursors 0 and 1
abbrev redis : Redis ℕ
redis = record {
  scan = λ c glob n w. (if c == 0 then ok ("a" ∷ "b" ∷ [], 1) else ok ("c" ∷ [], 0), suc w);
  type_of = λ k w. (ok "string", suc w);
  ttl_of = λ k w. (ok (pos 5_000_000_000), suc w);
}

abbrev rank : ℕ → ℕ
rank c = if c == 0 then 2 else 1

redis-ScanLaws : ScanLaws redis rank
redis-ScanLaws = record { falls = λ c glob n w ks next h. ground arith }

abbrev scan_request : ScanRequest
scan_request = record { glob = none; q = ""; key_type = "string"; limit = none; cursor = none }

scan_keys-Ends_example :
    Ends (λ s. s) redis scan_request (scan_keys (λ s. s) redis 3 scan_request 0)
scan_keys-Ends_example =
    scan_keys-Ends (λ s. s) redis rank redis-ScanLaws 3 scan_request 0 (ground arith)

-- an API whose listings have two pages
abbrev call : ℕ → ℕ → PageOf String × ℕ
call page w = (if page == 0 then ok ("main" ∷ [], 2) else ok ("dev" ∷ [], 0), suc w)

abbrev api : Api String ℕ
api = record {
  users_get = λ u w. (ok u, suc w);
  orgs_get = λ o w. (ok o, suc w);
  repos_get = λ o r w. (ok r, suc w);
  list_branches = λ o r page w. call page w;
  list_workflows = λ o r page w. call page w;
  list_runs = λ o r id page w. call page w;
  rate_limit = λ w. (ok "limits", suc w);
  core_remaining = λ v. pos 10;
  clock = λ w. w;
}

abbrev serving : Serving ℕ
serving = record {
  metrics = record { calls = []; errors = []; durations = []; rate_limit = [] };
  world = 0;
}

fetch_all-Served_example :
    fetch_all [] api 5 "list_branches" I18n.err_gh_fetch_branches call serving
    ≡ some (
      Paging.wanted [] api I18n.err_gh_fetch_branches ("main" ∷ "dev" ∷ []) none,
      record { metrics = observed [] api "list_branches" 0 none 2 serving.metrics; world = 2 },
    )
fetch_all-Served_example =
    fetch_all-Served [] api "list_branches" I18n.err_gh_fetch_branches call serving 5 2
      ("main" ∷ "dev" ∷ []) none 2 (more refl (last refl)) (omega arith)
