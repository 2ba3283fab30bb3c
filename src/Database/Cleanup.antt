-- ===== src/Database/Cleanup.antt =====
-- The self-test of internal/services/database.go cleans up behind itself.
use scuffinger.Prelude.{String, ◌≡◌, refl, Option, none, some}
use scuffinger.Prelude.Result.{Result, ok, err}
use scuffinger.I18n
use scuffinger.I18n.{Key, Error, Messages}
use scuffinger.Database.{
  Sql, Pgx, drop_db, run_crud, test_db, self_test_on, test_db_created, test_pool_made, wrapped,
}

module _ {P W : Type 0} (active : Messages) (sql : Sql) (pgx : Pgx P W)
    (conn_string : String → String) (quoted : String → String) (p : P) where
  -- The result of a self-test. A database that could not be created leaves the error of that
  -- statement; otherwise the last thing done is to drop the database, behind the close of its pool.
  pub data Tested : Option Error × W → Type 0 where
    not_created :
        (e : Error) (w : W) → Tested (some (I18n.err_with active I18n.err_db_create_testdb e), w)
    not_connected :
        (e : Error) (w : W)
        → Tested (
          some (I18n.err_with active I18n.err_db_connect_testdb e),
          (drop_db active sql pgx conn_string p test_db w).1,
        )
    passed :
        (q : P) (w w' : W)
        → run_crud active sql pgx conn_string quoted q w ≡ (none, w')
        → Tested (none, (drop_db active sql pgx conn_string p test_db (pgx.close q w')).1)
    crud_failed :
        (q : P) (w w' : W) (e : Error)
        → run_crud active sql pgx conn_string quoted q w ≡ (some e, w')
        → Tested (
          some (I18n.err_with active I18n.err_db_crud e),
          (drop_db active sql pgx conn_string p test_db (pgx.close q w')).1,
        )

  crud_done :
      (q : P) (w : W) (r : Option Error × W)
      → run_crud active sql pgx conn_string quoted q w ≡ r
      → Tested (
        wrapped active sql pgx conn_string I18n.err_db_crud r.0,
        (drop_db active sql pgx conn_string p test_db (pgx.close q r.1)).1,
      )
  unfolding wrapped
  crud_done q w (none, w') h = passed q w w' h
  crud_done q w (some e, w') h = crud_failed q w w' e h

  test_pool_made-Tested :
      (r : Result Error P × W) → Tested (test_pool_made active sql pgx conn_string quoted p r)
  unfolding test_pool_made
  test_pool_made-Tested (err e, w) = not_connected e w
  test_pool_made-Tested (ok q, w) =
      crud_done q w (run_crud active sql pgx conn_string quoted q w) refl

  test_db_created-Tested :
      (r : Option Error × W) → Tested (test_db_created active sql pgx conn_string quoted p r)
  unfolding test_db_created
  test_db_created-Tested (some e, w) = not_created e w
  test_db_created-Tested (none, w) = test_pool_made-Tested (pgx.new_pool (conn_string test_db) w)

  -- In the self-test of a connected database, unless the test database could not be created, it is
  -- dropped last, behind the close of the pool that was opened on it, whatever failed in between;
  -- and the test passes only with a run of the statements that passed.
  pub self_test_on-Tested : (w : W) → Tested (self_test_on active sql pgx conn_string quoted p w)
  unfolding self_test_on
  self_test_on-Tested w = test_db_created-Tested _
