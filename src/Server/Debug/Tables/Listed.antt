-- ===== src/Server/Debug/Tables/Listed.antt =====
-- What the listings of internal/server/debug.go answer for rows that all scan.
use scuffinger.Prelude.{◌≡◌, refl, ap, ◌↔◌, ◌∙◌, sym, String, ◌+++◌, Option, List, [], ◌∷◌, arith}
use scuffinger.Prelude.Result.{Result, ok, err}
use scuffinger.I18n.{Error}
use scuffinger.Server.Debug.Query.{default_query}
use scuffinger.Server.Debug.Tables.{
  Rows, end, row, ColInfo, Catalog, Listing, not_found, listed, consed, collected, queried,
  described, describe_table,
}

-- rows that all scan, with that end
pub rows_of : {A : Type 0} → List A → Option Error → Rows A
rows_of [] e = end e
rows_of (x ∷ xs) e = row (ok x) (rows_of xs e)

-- The end of the iteration leaves no trace.
collected-rows_of : {A : Type 0} (xs : List A) (e : Option Error) → collected (rows_of xs e) ≡ ok xs
unfolding collected rows_of
collected-rows_of [] e = refl
collected-rows_of (x ∷ xs) e = ap (consed x) (collected-rows_of xs e)

consed-ok :
    {A : Type 0} (x : A) (r : Result Error (List A)) (ys : List A)
    → consed x r ≡ ok ys
    → (xs : List A) × (r ≡ ok xs) × (ys ≡ x ∷ xs)
unfolding consed
consed-ok x (ok xs) ys h = (xs, refl, ground arith)
consed-ok x (err e) ys h = absurd (ground arith)

-- A list is collected only from rows that all scan.
collected-ok :
    {A : Type 0} (rows : Rows A) (xs : List A)
    → collected rows ≡ ok xs
    → (e : Option Error) × (rows ≡ rows_of xs e)
unfolding collected rows_of
collected-ok (end e) [] h = (e, refl)
collected-ok (end e) (x ∷ xs) h = absurd (ground arith)
collected-ok (row (err e) rows) xs h = absurd (ground arith)
collected-ok (row (ok a) rows) ys h =
    let (xs, p, q) = consed-ok a (collected rows) ys h in
    let (e, r) = collected-ok rows xs p in (e, ap (row (ok a)) r ∙ ap (λ l. rows_of l e) (sym q))

module _ (quoted : String → String) (schema table : String) where
  abbrev answer_of : Result Error (Rows ColInfo) → Listing ColInfo
  answer_of = queried (described quoted schema table)

  abbrev missing_text : String
  missing_text = "table " +++ (quoted table +++ (" not found in schema " +++ quoted schema))

  listed-ok :
      (r : Result Error (List ColInfo)) (c : ColInfo) (cs : List ColInfo)
      → described quoted schema table r ≡ listed schema table (c ∷ cs)
      → r ≡ ok (c ∷ cs)
  unfolding described
  listed-ok (err e) c cs h = absurd (ground arith)
  listed-ok (ok []) c cs h = absurd (ground arith)
  listed-ok (ok (d ∷ ds)) c cs h = ground arith

  not_found-ok :
      (r : Result Error (List ColInfo)) (m : String)
      → described quoted schema table r ≡ not_found m
      → r ≡ ok []
  unfolding described
  not_found-ok (err e) m h = absurd (ground arith)
  not_found-ok (ok []) m h = refl
  not_found-ok (ok (d ∷ ds)) m h = absurd (ground arith)

  -- behind the query
  queried-listed :
      (r : Result Error (Rows ColInfo)) (c : ColInfo) (cs : List ColInfo)
      → (answer_of r ≡ listed schema table (c ∷ cs))
        ↔ ((e : Option Error) × (r ≡ ok (rows_of (c ∷ cs) e)))
  unfolding queried described
  queried-listed (err e) c cs = (λ h. absurd (ground arith), λ (x, p). absurd (ground arith))
  queried-listed (ok rows) c cs = (
    λ h.
        let (e, p) = collected-ok rows (c ∷ cs) (listed-ok (collected rows) c cs h) in (e, ap ok p),
    λ (e, p). ap answer_of p ∙ ap (described quoted schema table) (collected-rows_of (c ∷ cs) e),
  )

  queried-not_found :
      (r : Result Error (Rows ColInfo))
      → ((m : String) × (answer_of r ≡ not_found m)) ↔ ((e : Option Error) × (r ≡ ok (end e)))
  unfolding queried described rows_of collected
  queried-not_found (err e) = (λ (m, h). absurd (ground arith), λ (x, p). absurd (ground arith))
  queried-not_found (ok rows) = (
    λ (m, h). let (e, p) = collected-ok rows [] (not_found-ok (collected rows) m h) in (e, ap ok p),
    λ (e, p). (missing_text, ap answer_of p),
  )

-- `DescribeTable` answers the columns exactly when the query yields rows that all scan into them,
-- and 404 exactly when it yields no row, in both cases whether the iteration ends by itself or
-- with an error.
pub describe_table-Described :
    {W : Type 0} (pg : Catalog W) (quoted : String → String) (table : String)
    (schema : Option String) (w : W)
    → let s = default_query "public" schema in
      ((c : ColInfo) (cs : List ColInfo)
        → ((describe_table pg quoted table schema w).0 ≡ listed s table (c ∷ cs))
          ↔ ((e : Option Error) × ((pg.columns s table w).0 ≡ ok (rows_of (c ∷ cs) e))))
      × (((m : String) × ((describe_table pg quoted table schema w).0 ≡ not_found m))
          ↔ ((e : Option Error) × ((pg.columns s table w).0 ≡ ok (end e))))
unfolding describe_table
describe_table-Described pg quoted table schema w =
    let s = default_query "public" schema in
    (
      queried-listed quoted s table (pg.columns s table w).0,
      queried-not_found quoted s table (pg.columns s table w).0,
    )
