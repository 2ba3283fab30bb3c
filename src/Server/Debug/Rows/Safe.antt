-- ===== src/Server/Debug/Rows/Safe.antt =====
-- The statements that `QueryRows` of internal/server/debug.go sends: of a request they contain only
-- quoted names, placeholders and bounded numbers.
use mathlib.Core.Path.{subst}
use scuffinger.Prelude.{ℕ, ◌≡◌, refl, sym, inl, inr, String, string_eq, List, [], ◌∷◌, arith, All}
use scuffinger.Prelude.Int.{pos}
use scuffinger.Prelude.Result.{Result, ok, err}
use scuffinger.I18n.{Error}
use scuffinger.Server.Debug.Numbers.{clamp_int-bounds}
use scuffinger.Server.Debug.Query.{
  RowsRequest, ColMeta, Std, default_query, filters, limit_of, offset_of,
}
use scuffinger.Server.Debug.Filters.{sort_expr-Sorts, order_of-known}
use scuffinger.Server.Debug.Rows.{
  Database, count_query, data_query, query_rows, columns_found, count_found, rows_found,
}
use scuffinger.Server.Debug.Rows.Where.{IsSafe, filters-IsWhere}

module _ {R W : Type 0} (std : Std) (db : Database R W) where
  -- the database with a record of the statements that it is sent behind the columns, the last first
  abbrev pub logged : Database R (W × List String)
  logged = record {
    columns = λ s t p. let (a, w) = db.columns s t p.0 in (a, (w, p.1));
    count = λ q args p. let (a, w) = db.count q args p.0 in (a, (w, q ∷ p.1));
    rows = λ q args p. let (a, w) = db.rows q args p.0 in (a, (w, q ∷ p.1));
  }

  -- without the columns of the table nothing is sent
  abbrev pub AllSafe : RowsRequest → Result Error (List ColMeta) → List String → Type 0
  AllSafe r (err e) qs = qs ≡ []
  AllSafe r (ok cols) qs = All (IsSafe std r cols) qs

  count_query-IsSafe :
      (r : RowsRequest) (cols : List ColMeta) → IsSafe std r cols (count_query std logged r cols)
  unfolding count_query
  count_query-IsSafe r cols = inl (_, filters-IsWhere std r cols, refl)

  data_query-IsSafe :
      (r : RowsRequest) (cols : List ColMeta) → IsSafe std r cols (data_query std logged r cols)
  unfolding data_query limit_of offset_of
  data_query-IsSafe r cols =
      let (l1, l2) =
        clamp_int-bounds (default_query "50" r.limit) (pos 1) (pos 500) (omega arith) in
      let (o1, o2) =
        clamp_int-bounds (default_query "0" r.offset) (pos 0) (pos 1_000_000) (omega arith) in
      inr (
        _,
        _,
        _,
        _,
        _,
        filters-IsWhere std r cols,
        sort_expr-Sorts std r.sort_col cols,
        order_of-known std r.order,
        l1,
        l2,
        o1,
        o2,
        refl,
      )

  rows_found-log :
      (r : RowsRequest) (n : ℕ) (a : Result Error (List R) × (W × List String))
      → (rows_found std logged r n a).1.1 ≡ a.1.1
  unfolding rows_found
  rows_found-log r n (err e, w) = refl
  rows_found-log r n (ok rs, w) = refl

  count_found-AllSafe :
      (r : RowsRequest) (cols : List ColMeta) (a : Result Error ℕ × (W × List String))
      → All (IsSafe std r cols) a.1.1
      → All (IsSafe std r cols) (count_found std logged r cols a).1.1
  unfolding count_found
  count_found-AllSafe r cols (err e, w) h = h
  count_found-AllSafe r cols (ok n, w) h =
      subst (All (IsSafe std r cols))
        (sym (
          rows_found-log r n
            (logged.rows (data_query std logged r cols) (filters std r cols).args w)))
        (data_query-IsSafe r cols, h)

  columns_found-AllSafe :
      (r : RowsRequest) (a : Result Error (List ColMeta)) (w : W)
      → AllSafe r a (columns_found std logged r (a, (w, []))).1.1
  unfolding columns_found
  columns_found-AllSafe r (err e) w = refl
  columns_found-AllSafe r (ok []) w = tt
  columns_found-AllSafe r (ok (c ∷ cols)) w =
      count_found-AllSafe r (c ∷ cols)
        (logged.count (count_query std logged r (c ∷ cols)) (filters std r (c ∷ cols)).args (w, []))
        (count_query-IsSafe r (c ∷ cols), tt)

  -- Every statement that `QueryRows` sends for a request, behind that for the columns, counts or
  -- selects from the quoted table, under conditions that compare quoted columns of the table with
  -- placeholders; a selection sorts by 1 or a quoted column, ASC or DESC, with a limit between 1
  -- and 500 and an offset between 0 and 1,000,000. If the columns cannot be read, none is sent.
  pub query_rows-Safe :
      (r : RowsRequest) (w : W)
      → AllSafe r
          (db.columns (default_query "public" r.schema) r.table w).0
          (query_rows std logged r (w, [])).1.1
  unfolding query_rows
  query_rows-Safe r w =
      columns_found-AllSafe r (db.columns (default_query "public" r.schema) r.table w).0
        (db.columns (default_query "public" r.schema) r.table w).1
