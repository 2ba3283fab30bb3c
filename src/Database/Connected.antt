-- ===== src/Database/Connected.antt =====
-- The pool of internal/services/database.go behind `Connect`.
use scuffinger.Prelude.{String, ◌≡◌, refl, Option, none, some, arith}
use scuffinger.Prelude.Result.{Result, ok, err}
use scuffinger.I18n.{Error, Messages}
use scuffinger.Database.{Sql, Pgx, DatabaseService, connect, self_test, ping, self_test_on}
use scuffinger.Database.{pool_pinged, pool_made, pool_test, pool_ping}

module _ {P W : Type 0} (active : Messages) (sql : Sql) (pgx : Pgx P W)
    (conn_string : String → String) where
  pool_pinged-pool :
      (p : P) (s : DatabaseService P) (r : Option Error × W)
      → (pool_pinged active sql pgx conn_string p s r).0 ≡ none
      → (pool_pinged active sql pgx conn_string p s r).1.pool ≡ some p
  unfolding pool_pinged
  pool_pinged-pool p s (none, w) h = refl
  pool_pinged-pool p s (some e, w) h = absurd (ground arith)

  pool_made-pool :
      (s : DatabaseService P) (r : Result Error P × W)
      → (pool_made active sql pgx conn_string s r).0 ≡ none
      → (p : P) × ((pool_made active sql pgx conn_string s r).1.pool ≡ some p)
  unfolding pool_made
  pool_made-pool s (err e, w) h = absurd (ground arith)
  pool_made-pool s (ok p, w) h = (p, pool_pinged-pool p s (pgx.ping p w) h)

  -- A connection without an error has a pool.
  pub connect-pool :
      (s : DatabaseService P) (w : W)
      → (connect active sql pgx conn_string s w).0 ≡ none
      → (p : P) × ((connect active sql pgx conn_string s w).1.pool ≡ some p)
  unfolding connect
  connect-pool s w h = pool_made-pool s (pgx.new_pool (conn_string s.name) w) h

  -- With a pool, the self-test and the ping return.
  pub self_test-some :
      (quoted : String → String) (s : DatabaseService P) (w : W) (p : P)
      → s.pool ≡ some p
      → self_test active sql pgx conn_string quoted s w
        ≡ some (self_test_on active sql pgx conn_string quoted p w)
  unfolding self_test pool_test
  self_test-some quoted s w p h = rw h refl

  pub ping-some :
      (s : DatabaseService P) (w : W) (p : P)
      → s.pool ≡ some p
      → ping active sql pgx conn_string s w ≡ some (pgx.ping p w)
  unfolding ping pool_ping
  ping-some s w p h = rw h refl
