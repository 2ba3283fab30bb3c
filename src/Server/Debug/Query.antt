-- ===== src/Server/Debug/Query.antt =====
-- The query that `QueryRows` of internal/server/debug.go builds. Package strings' case tables, Go's
-- `%q` and `time.Parse` are parameters.
use text.Mathlib.Text.{find?}
use scuffinger.Prelude.{
  ℕ, ◌+◌, String, string_eq, Bool, true, false, not, ◌&&◌, ◌||◌, Option, none, some, List, [], ◌∷◌,
  ◌++◌, map, ◌==◌, if◌then◌else◌, ◌+++◌, join, decimal,
}
use scuffinger.Prelude.Int.{ℤ, pos, ◌+ℤ◌}
use scuffinger.Prelude.Map.{is_some}
use scuffinger.Server.Debug.Ident.{pg_quote_ident}
use scuffinger.Server.Debug.Numbers.{clamp_int}

-- the query parameters; `none` is an absent one that has a default
pub record RowsRequest : Type 0 where
  pub table : String
  pub schema : Option String
  pub q : String
  pub from_str : String
  pub to_str : String
  pub date_col : String
  pub sort_col : String
  pub order : Option String
  pub limit : Option String
  pub offset : Option String

pub record ColMeta : Type 0 where
  pub name : String
  pub type : String

-- the standard library's functions
pub record Std : Type 0 where
  pub to_lower : String → String
  pub to_upper : String → String
  pub equal_fold : String → String → Bool
  pub quoted : String → String
  pub parse_rfc3339 : String → Option ℤ
  pub parse_date : String → Option ℤ

pub data Arg : Type 0 where
  like : String → Arg
  moment : ℤ → Arg

abbrev pub default_query : String → Option String → String
default_query d none = d
default_query d (some s) = s

abbrev pub contains : String → String → Bool
contains s t = is_some (find? s t)

abbrev pub non_empty {ℓ} : {A : Type ℓ} → List A → Bool
non_empty [] = false
non_empty (x ∷ xs) = true

-- `conditions`, `args` and `argN`
pub record Conditions : Type 0 where
  pub conditions : List String
  pub args : List Arg
  pub arg_n : ℕ

abbrev pub no_conditions : Conditions
no_conditions = record { conditions = []; args = []; arg_n = 1 }

-- one more condition on the placeholder `argN`; the source leaves out the increment after the last
unfoldable pub add_condition : (ℕ → String) → Arg → Conditions → Conditions
add_condition f a c = record {
  conditions = c.conditions ++ (f c.arg_n ∷ []);
  args = c.args ++ (a ∷ []);
  arg_n = c.arg_n + 1;
}

abbrev pub placeholder : ℕ → String
placeholder n = "$" +++ decimal n

abbrev pub search_text : List String → ℕ → String
search_text cols n =
    "("
    +++ (join " OR " (map (λ col. pg_quote_ident col +++ ("::text ILIKE " +++ placeholder n)) cols)
        +++ ")")

abbrev pub bound_text : String → String → ℕ → String
bound_text col op n = pg_quote_ident col +++ (op +++ placeholder n)

-- the fuzzy search
unfoldable pub search_filter : String → List String → Conditions → Conditions
search_filter q text_cols c =
    if not (q == "") && non_empty text_cols
    then add_condition (search_text text_cols) (like ("%" +++ (q +++ "%"))) c
    else c

-- 24*time.Hour - time.Nanosecond
abbrev pub day_end : ℤ
day_end = pos 86_399_999_999_999

unfoldable pub timed : String → String → Option ℤ → Conditions → Conditions
timed col op none c = c
timed col op (some t) c = add_condition (bound_text col op) (moment t) c

later : Option ℤ → Option ℤ
later none = none
later (some t) = some (t +ℤ day_end)

or_else : Option ℤ → Option ℤ → Option ℤ
or_else none b = b
or_else (some a) b = some a

module _ (std : Std) where
  unfoldable pub is_text : ColMeta → Bool
  is_text col =
      let dt = std.to_lower col.type in
      contains dt "char" || contains dt "text" || contains dt "jsonb" || contains dt "json"

  unfoldable pub is_timestamp : ColMeta → Bool
  unfolding is_text
  is_timestamp col =
      let dt = std.to_lower col.type in
      not (is_text col) && (contains dt "timestamp" || contains dt "date")

  -- the names of the columns that the test accepts, in order
  unfoldable pub names_of : (ColMeta → Bool) → List ColMeta → List String
  names_of p [] = []
  names_of p (col ∷ cols) = let rest = names_of p cols in if p col then col.name ∷ rest else rest

  unfoldable pub first_fold : String → List String → String
  first_fold s [] = ""
  first_fold s (col ∷ cols) =
      let rest = first_fold s cols in if std.equal_fold col s then col else rest

  unfoldable pub first_of : List String → String
  first_of [] = ""
  first_of (col ∷ cols) = col

  -- `tsTarget`
  unfoldable pub ts_target : String → List String → String
  unfolding first_fold first_of
  ts_target date_col ts_cols =
      let found = if date_col == "" then "" else first_fold date_col ts_cols in
      if found == "" then first_of ts_cols else found

  -- the time of a bound, by either layout; an upper bound that is only a date includes its day
  unfoldable pub from_time : String → Option ℤ
  unfolding or_else
  from_time s = if s == "" then none else or_else (std.parse_rfc3339 s) (std.parse_date s)

  unfoldable pub to_time : String → Option ℤ
  unfolding or_else later
  to_time s = if s == "" then none else or_else (std.parse_rfc3339 s) (later (std.parse_date s))

  unfoldable pub date_filter : String → RowsRequest → Conditions → Conditions
  unfolding timed
  date_filter target r c =
      if target == ""
      then c
      else timed target " <= " (to_time r.to_str) (timed target " >= " (from_time r.from_str) c)

  unfoldable pub filters : RowsRequest → List ColMeta → Conditions
  unfolding search_filter date_filter
  filters r cols =
      date_filter (ts_target r.date_col (names_of is_timestamp cols)) r
        (search_filter r.q (names_of is_text cols) no_conditions)

  unfoldable pub where_text : Conditions → String
  where_text c = if non_empty c.conditions then " WHERE " +++ join " AND " c.conditions else ""

  unfoldable pub sort_found : String → List ColMeta → String
  sort_found s [] = "1"
  sort_found s (col ∷ cols) =
      let rest = sort_found s cols in
      if std.equal_fold col.name s then pg_quote_ident col.name else rest

  unfoldable pub sort_expr : String → List ColMeta → String
  unfolding sort_found
  sort_expr s cols = if s == "" then "1" else sort_found s cols

  unfoldable pub order_of : Option String → String
  order_of o =
      let order = std.to_upper (default_query "asc" o) in
      if not (order == "ASC") && not (order == "DESC") then "ASC" else order

unfoldable pub limit_of : Option String → ℤ
limit_of o = clamp_int (default_query "50" o) (pos 1) (pos 500)

unfoldable pub offset_of : Option String → ℤ
offset_of o = clamp_int (default_query "0" o) (pos 0) (pos 1_000_000)
