-- ===== src/Examples/Browsing.antt =====
-- The debug endpoints over the cache and the catalog at concrete inputs.
use scuffinger.Prelude.{
  ℕ, suc, ◌≤◌, ◌≡◌, ◌≢◌, ◌↔◌, refl, String, string_eq, true, Option, none, some, List, [], ◌∷◌,
  arith,
}
use scuffinger.Prelude.Int.{pos}
use scuffinger.Prelude.Result.{ok, err}
use scuffinger.I18n.{Error}
use scuffinger.Server.Debug.Info.{split_lines, parse_redis_info}
use scuffinger.Server.Debug.Bindings.{field, last_binding, lines_of, parse_redis_info-last_binding}
use scuffinger.Server.Debug.Key.{KeyCommands, key_of, get_key}
use scuffinger.Server.Debug.Key.Answered.{RangeLaws, ResponseFits, status, get_key-Fits}
use scuffinger.Server.Debug.Tables.{end, row, ColInfo, Catalog, listed, not_found, describe_table}
use scuffinger.Server.Debug.Tables.Listed.{rows_of, describe_table-Described}

abbrev info_text : String
info_text = "# Server\r\nredis_version:7.2\r\n\r\n# Memory\r\nused_memory:1024\r\n"

parse_redis_info-last_binding_example :
    field "Memory" "used_memory" (parse_redis_info (λ s. s) info_text)
    ≡ last_binding (λ s. s) "Memory" "used_memory" (lines_of (split_lines info_text)) "default" none
parse_redis_info-last_binding_example =
    parse_redis_info-last_binding (λ s. s) info_text "Memory" "used_memory"

-- both sides find the number
used_memory : field "Memory" "used_memory" (parse_redis_info (λ s. s) info_text) ≡ some "1024"
unfolding parse_redis_info scuffinger.Prelude.Map.lookup scuffinger.Server.Debug.Info.parse_lines
    split_lines scuffinger.Server.Debug.Info.line_of scuffinger.Server.Debug.Info.trim_space
    scuffinger.Prelude.behind scuffinger.Server.Debug.Info.split_first scuffinger.Prelude.Map.insert
used_memory = refl

-- a cache that holds one list
abbrev redis : KeyCommands String String ℕ
redis = record {
  type_of = λ k w. (ok "list", w);
  ttl_of = λ k w. (pos 2_000_000_000, w);
  get = λ k w. (err "wrong type", w);
  list_range = λ k lo hi w. (ok ("a" ∷ []), w);
  set_members = λ k w. (err "wrong type", w);
  sorted_range = λ k lo hi w. (err "wrong type", w);
  hash_all = λ k w. (err "wrong type", w);
  stream_range = λ k lo hi w. (err "wrong type", w);
  memory_usage = λ k w. (pos 56, w);
}

redis-RangeLaws : RangeLaws redis
redis-RangeLaws = record {
  list_length = λ k n w xs h. ground arith;
  sorted_length = λ k n w xs h. absurd (ground arith);
}

get_key-Fits_example :
    ResponseFits redis (key_of "/queue") (get_key redis (λ s. s) "/queue" 0).0
    × ((status redis (get_key redis (λ s. s) "/queue" 0).0 ≡ 400) ↔ (key_of "/queue" ≡ ""))
    × ((status redis (get_key redis (λ s. s) "/queue" 0).0 ≡ 404)
        ↔ ((key_of "/queue" ≢ "") × ((redis.type_of (key_of "/queue") 0).0 ≡ ok "none")))
get_key-Fits_example = get_key-Fits redis (λ s. s) redis-RangeLaws "/queue" 0

abbrev id_column : ColInfo
id_column = record { name = "id"; type = "integer"; nullable = "NO"; default = none }

-- one column comes, and then the connection breaks
abbrev catalog : Catalog ℕ
catalog = record {
  databases = λ w. (ok (row (ok "scuffinger") (end none)), w);
  tables = λ s w. (ok (end none), w);
  columns = λ s t w. (ok (row (ok id_column) (end (some "connection reset"))), w);
}

describe_table-Described_example :
    ((c : ColInfo) (cs : List ColInfo)
      → ((describe_table catalog (λ s. s) "runs" none 0).0 ≡ listed "public" "runs" (c ∷ cs))
        ↔ ((e : Option Error) × ((catalog.columns "public" "runs" 0).0 ≡ ok (rows_of (c ∷ cs) e))))
    × (((m : String) × ((describe_table catalog (λ s. s) "runs" none 0).0 ≡ not_found m))
        ↔ ((e : Option Error) × ((catalog.columns "public" "runs" 0).0 ≡ ok (end e))))
describe_table-Described_example = describe_table-Described catalog (λ s. s) "runs" none 0
