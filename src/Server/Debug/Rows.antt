-- ===== src/Server/Debug/Rows.antt =====
-- The handler `QueryRows` of internal/server/debug.go around its query. The database is a parameter;
-- a row is what the driver yields, by field name.
mod Where
pub mod Safe
use scuffinger.Prelude.{ℕ, suc, String, string_eq, List, [], ◌∷◌, ◌+++◌, decimal}
use scuffinger.Prelude.Int.{ℤ, pos, negsuc}
use scuffinger.Prelude.Result.{Result, ok, err}
use scuffinger.I18n.{Error}
use scuffinger.Server.Debug.Ident.{pg_quote_ident}
use scuffinger.Server.Debug.Query.{
  RowsRequest, ColMeta, Std, Arg, default_query, filters, where_text, sort_expr, order_of, limit_of,
  offset_of,
}

-- fmt's `%d`
abbrev pub decimal_ℤ : ℤ → String
decimal_ℤ (pos n) = decimal n
decimal_ℤ (negsuc n) = "-" +++ decimal (suc n)

-- the database: the columns of a table, one count, and rows
pub record Database (R W : Type 0) : Type 0 where
  pub columns : String → String → W → Result Error (List ColMeta) × W
  pub count : String → List Arg → W → Result Error ℕ × W
  pub rows : String → List Arg → W → Result Error (List R) × W

-- what the handler answers: status 500, 404, or 200 with a page
pub data RowsResponse (R : Type 0) : Type 0 where
  server_error : Error → RowsResponse R
  not_found : String → RowsResponse R
  page : String → String → ℕ → ℤ → ℤ → List R → RowsResponse R

module _ {R W : Type 0} (std : Std) (db : Database R W) where
  abbrev quoted_table : RowsRequest → String
  quoted_table r =
      pg_quote_ident (default_query "public" r.schema) +++ ("." +++ pg_quote_ident r.table)

  unfoldable pub count_query : RowsRequest → List ColMeta → String
  count_query r cols =
      "SELECT COUNT(*) FROM " +++ (quoted_table r +++ where_text std (filters std r cols))

  unfoldable pub data_query : RowsRequest → List ColMeta → String
  data_query r cols =
      "SELECT * FROM "
      +++ (quoted_table r
          +++ (where_text std (filters std r cols)
              +++ (" ORDER BY "
                  +++ (sort_expr std r.sort_col cols
                      +++ (" "
                          +++ (order_of std r.order
                              +++ (" LIMIT "
                                  +++ (decimal_ℤ (limit_of r.limit)
                                      +++ (" OFFSET " +++ decimal_ℤ (offset_of r.offset))))))))))

  rows_found : RowsRequest → ℕ → Result Error (List R) × W → RowsResponse R × W
  rows_found r total (err e, w) = (server_error e, w)
  rows_found r total (ok rs, w) = (
    page (default_query "public" r.schema) r.table total (limit_of r.limit) (offset_of r.offset) rs,
    w,
  )

  count_found : RowsRequest → List ColMeta → Result Error ℕ × W → RowsResponse R × W
  unfolding rows_found
  count_found r cols (err e, w) = (server_error e, w)
  count_found r cols (ok total, w) =
      rows_found r total (db.rows (data_query r cols) (filters std r cols).args w)

  columns_found : RowsRequest → Result Error (List ColMeta) × W → RowsResponse R × W
  unfolding count_found
  columns_found r (err e, w) = (server_error e, w)
  columns_found r (ok [], w) = (
    not_found (
        "table "
        +++ (std.quoted r.table
            +++ (" not found in schema " +++ std.quoted (default_query "public" r.schema)))),
    w,
  )
  columns_found r (ok (col ∷ cols), w) =
      count_found r (col ∷ cols)
        (db.count (count_query r (col ∷ cols)) (filters std r (col ∷ cols)).args w)

  unfoldable pub query_rows : RowsRequest → W → RowsResponse R × W
  unfolding columns_found
  query_rows r w = columns_found r (db.columns (default_query "public" r.schema) r.table w)
