-- ===== src/Database.antt =====
-- internal/services/database.go. `P` is the type of pgx pools, whose calls act on the world `W`;
-- the embedded statements of database/self_test and the format of a connection string are
-- parameters. A nil pool, whose use panics, is `none`.
pub mod Cleanup
pub mod Connected
use scuffinger.Prelude.{
  String, string_eq, Bool, Option, none, some, List, [], ◌∷◌, ◌==◌, if◌then◌else◌, ◌+++◌,
}
use scuffinger.Prelude.Result.{Result, ok, err}
use scuffinger.I18n
use scuffinger.I18n.{Key, Error, Messages}

-- the statements; the first three take the name of a database
pub record Sql : Type 0 where
  pub terminate_connections : String → String
  pub drop_database : String → String
  pub create_database : String → String
  pub create_table : String
  pub insert_row : String
  pub select_row : String
  pub update_row : String

pub record Pgx (P W : Type 0) : Type 0 where
  pub new_pool : String → W → Result Error P × W
  pub ping : P → W → Option Error × W
  pub close : P → W → W
  pub exec : P → String → List String → W → Option Error × W
  pub query_value : P → String → List String → W → Result Error String × W

pub record DatabaseService (P : Type 0) : Type 0 where
  pub name : String
  pub pool : Option P

abbrev pub test_db : String
test_db = "testdb"

module _ {P W : Type 0} (active : Messages) (sql : Sql) (pgx : Pgx P W)
    (conn_string : String → String) where
  unfoldable pub wrapped : Key → Option Error → Option Error
  wrapped key none = none
  wrapped key (some e) = some (I18n.err_with active key e)

  pool_pinged : P → DatabaseService P → Option Error × W → Option Error × DatabaseService P × W
  pool_pinged p s (none, w) = (none, record s { pool = some p }, w)
  pool_pinged p s (some e, w) = (some (I18n.err_with active I18n.err_db_ping e), s, pgx.close p w)

  pool_made : DatabaseService P → Result Error P × W → Option Error × DatabaseService P × W
  unfolding pool_pinged
  pool_made s (err e, w) = (some (I18n.err_with active I18n.err_db_connect e), s, w)
  pool_made s (ok p, w) = pool_pinged p s (pgx.ping p w)

  unfoldable pub connect : DatabaseService P → W → Option Error × DatabaseService P × W
  unfolding pool_made
  connect s w = pool_made s (pgx.new_pool (conn_string s.name) w)

  -- `dropDB`: only the error of the second statement counts
  unfoldable pub drop_db : P → String → W → Option Error × W
  drop_db p name w =
      pgx.exec p (sql.drop_database name) [] (pgx.exec p (sql.terminate_connections name) [] w).1

  -- a step of `runCRUD`, with what follows
  unfoldable pub after : Key → (W → Option Error × W) → Option Error × W → Option Error × W
  after key next (none, w) = next w
  after key next (some e, w) = (some (I18n.err_with active key e), w)

  -- a value that is read and compared; `mismatch` is the text behind the key
  unfoldable pub reads :
      Key
      → Key
      → (String → String)
      → String
      → (W → Option Error × W)
      → Result Error String × W
      → Option Error × W
  reads key bad mismatch want next (err e, w) = (some (I18n.err_with active key e), w)
  reads key bad mismatch want next (ok v, w) =
      if v == want then next w else (some (I18n.get active bad +++ mismatch v), w)

  -- `quoted` is fmt's `%q`
  unfoldable pub run_crud : (String → String) → P → W → Option Error × W
  run_crud quoted p w =
      let got =
        λ (want : String) (v : String). ": got " +++ (quoted v +++ (", want " +++ quoted want)) in
      after I18n.err_db_create_table
        (λ w1.
          after I18n.err_db_insert
            (λ w2.
              reads I18n.err_db_read I18n.err_db_read_mismatch (got "test_value") "test_value"
                (λ w3.
                  after I18n.err_db_update
                    (λ w4.
                      reads I18n.err_db_read_after_update I18n.err_db_update_mismatch
                        (got "updated_value") "updated_value" (λ w5. (none, w5))
                        (pgx.query_value p sql.select_row ("test_key" ∷ []) w4))
                    (pgx.exec p sql.update_row ("updated_value" ∷ "test_key" ∷ []) w3))
                (pgx.query_value p sql.select_row ("test_key" ∷ []) w2))
            (pgx.exec p sql.insert_row ("test_key" ∷ "test_value" ∷ []) w1))
        (pgx.exec p sql.create_table [] w)

  unfoldable pub test_pool_made : (String → String) → P → Result Error P × W → Option Error × W
  unfolding wrapped
  test_pool_made quoted p (err e, w) =
      (some (I18n.err_with active I18n.err_db_connect_testdb e), (drop_db p test_db w).1)
  test_pool_made quoted p (ok q, w) =
      let r = run_crud quoted q w in
      (wrapped I18n.err_db_crud r.0, (drop_db p test_db (pgx.close q r.1)).1)

  unfoldable pub test_db_created : (String → String) → P → Option Error × W → Option Error × W
  unfolding test_pool_made
  test_db_created quoted p (some e, w) =
      (some (I18n.err_with active I18n.err_db_create_testdb e), w)
  test_db_created quoted p (none, w) =
      test_pool_made quoted p (pgx.new_pool (conn_string test_db) w)

  -- `SelfTest` on the connected pool; it first drops what a run that crashed has left
  unfoldable pub self_test_on : (String → String) → P → W → Option Error × W
  unfolding test_db_created
  self_test_on quoted p w =
      test_db_created quoted p (pgx.exec p (sql.create_database test_db) [] (drop_db p test_db w).1)

  pool_test : (String → String) → Option P → W → Option (Option Error × W)
  pool_test quoted none w = none
  pool_test quoted (some p) w = some (self_test_on quoted p w)

  unfoldable pub self_test : (String → String) → DatabaseService P → W → Option (Option Error × W)
  unfolding pool_test
  self_test quoted s w = pool_test quoted s.pool w

  pool_ping : Option P → W → Option (Option Error × W)
  pool_ping none w = none
  pool_ping (some p) w = some (pgx.ping p w)

  unfoldable pub ping : DatabaseService P → W → Option (Option Error × W)
  unfolding pool_ping
  ping s w = pool_ping s.pool w

  pool_close : Option P → W → W
  pool_close none w = w
  pool_close (some p) w = pgx.close p w

  unfoldable pub close : DatabaseService P → W → Option Error × W
  unfolding pool_close
  close s w = (none, pool_close s.pool w)
