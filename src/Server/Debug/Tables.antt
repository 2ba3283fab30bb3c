-- ===== src/Server/Debug/Tables.antt =====
-- `ListDatabases`, `ListTables` and `DescribeTable` of internal/server/debug.go. The rows of a query
-- come one by one, each scanned or refused, until the iteration ends, by itself or with an error.
pub mod Listed
use scuffinger.Prelude.{ℕ, String, string_eq, Option, none, some, List, [], ◌∷◌, ◌+++◌}
use scuffinger.Prelude.Result.{Result, ok, err}
use scuffinger.I18n.{Error}
use scuffinger.Server.Debug.Query.{default_query}

-- `rows.Next` with `rows.Scan`; the code does not ask `rows.Err` for the error of the end
pub data Rows (A : Type 0) : Type 0 where
  end : Option Error → Rows A
  row : Result Error A → Rows A → Rows A

pub record TableInfo : Type 0 where
  pub name : String
  pub type : String

pub record ColInfo : Type 0 where
  pub name : String
  pub type : String
  pub nullable : String
  pub default : Option String

-- the three queries with their arguments
pub record Catalog (W : Type 0) : Type 0 where
  pub databases : W → Result Error (Rows String) × W
  pub tables : String → W → Result Error (Rows TableInfo) × W
  pub columns : String → String → W → Result Error (Rows ColInfo) × W

-- status 500, 404, or 200 with the schema, the table and what was listed
pub data Listing (A : Type 0) : Type 0 where
  server_error : Error → Listing A
  not_found : String → Listing A
  listed : String → String → List A → Listing A

consed : {A : Type 0} → A → Result Error (List A) → Result Error (List A)
consed a (ok xs) = ok (a ∷ xs)
consed a (err e) = err e

-- the loop over the rows
unfoldable pub collected : {A : Type 0} → Rows A → Result Error (List A)
unfolding consed
collected (end e) = ok []
collected (row (err e) rows) = err e
collected (row (ok a) rows) = consed a (collected rows)

listing : {A : Type 0} → String → String → Result Error (List A) → Listing A
listing schema table (err e) = server_error e
listing schema table (ok xs) = listed schema table xs

-- no column is status 404
described : (String → String) → String → String → Result Error (List ColInfo) → Listing ColInfo
described quoted schema table (err e) = server_error e
described quoted schema table (ok []) =
    not_found ("table " +++ (quoted table +++ (" not found in schema " +++ quoted schema)))
described quoted schema table (ok (c ∷ cs)) = listed schema table (c ∷ cs)

-- an answer to the query
unfoldable pub queried :
    {A B : Type 0} → (Result Error (List A) → Listing B) → Result Error (Rows A) → Listing B
unfolding collected
queried answer (err e) = answer (err e)
queried answer (ok rows) = answer (collected rows)

-- `quoted` is fmt's `%q`
module _ {W : Type 0} (pg : Catalog W) (quoted : String → String) where
  unfoldable pub list_databases : W → Listing String × W
  unfolding queried listing
  list_databases w = let (r, w') = pg.databases w in (queried (listing "" "") r, w')

  unfoldable pub list_tables : Option String → W → Listing TableInfo × W
  unfolding queried listing
  list_tables schema w =
      let s = default_query "public" schema in
      let (r, w') = pg.tables s w in (queried (listing s "") r, w')

  unfoldable pub describe_table : String → Option String → W → Listing ColInfo × W
  unfolding queried described
  describe_table table schema w =
      let s = default_query "public" schema in
      let (r, w') = pg.columns s table w in (queried (described quoted s table) r, w')
