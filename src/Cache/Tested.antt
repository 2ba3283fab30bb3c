-- ===== src/Cache/Tested.antt =====
-- What the self-test of the cache shows (internal/services/cache.go).
use scuffinger.Prelude.{
  String, string_eq, ◌≡◌, ◌↔◌, refl, ap, true, Option, none, some, arith, eq_iff,
}
use scuffinger.Prelude.Result.{Result, ok, err, is_ok}
use scuffinger.I18n.{Error, Messages}
use scuffinger.Cache.{
  Commands, CacheService, connect, self_test, self_test_on, init_written, init_read,
}

-- What ValKey documents: SET that answers OK is what GET reads next.
pub record SetLaws {C W : Type 0} (redis : Commands C W) : Type 0 where
  pub get-set :
      (c : C) (k v v' : String) (w : W)
      → (redis.set_key c k v w).0 ≡ none
      → (redis.get_key c k (redis.set_key c k v w).1).0 ≡ ok v'
      → v' ≡ v

module _ {C W : Type 0} (active : Messages) (redis : Commands C W) (quoted : String → String)
    (clock : W → String) where
  -- what GET of `init` answers behind SET
  abbrev pub read_back : C → W → Result Error String
  read_back c w = (redis.get_key c "init" (redis.set_key c "init" (clock w) w).1).0

  init_read-none :
      (now : String) (r : Result Error String × W)
      → ((init_read active redis quoted now r).0 ≡ none) ↔ (r.0 ≡ ok now)
  unfolding init_read
  init_read-none now (err e, w) = (λ h. ground arith, λ h. ground arith)
  init_read-none now (ok v, w) =
      (λ h. ground (arith, eq_iff v now), λ h. ground (arith, eq_iff v now))

  init_written-none :
      (c : C) (now : String) (r : Option Error × W)
      → ((init_written active redis quoted c now r).0 ≡ none)
        ↔ ((r.0 ≡ none) × ((redis.get_key c "init" r.1).0 ≡ ok now))
  unfolding init_written
  init_written-none c now (some e, w) = (λ h. ground arith, λ h. ground (arith, h.0))
  init_written-none c now (none, w) =
      let both = init_read-none now (redis.get_key c "init" w) in
      (λ h. (refl, both.0 h), λ h. both.1 h.1)

  read_ok :
      (laws : SetLaws redis) (c : C) (w : W)
      → (redis.set_key c "init" (clock w) w).0 ≡ none
      → (r : Result Error String) → read_back c w ≡ r
      → is_ok r ≡ true
      → r ≡ ok (clock w)
  read_ok laws c w h (err e) p q = ground arith
  read_ok laws c w h (ok v) p q = ap ok (laws.get-set c "init" (clock w) v w h p)

  -- After `Connect`, whatever the ping answered, `SelfTest` returns without a nil client; over a
  -- cache that reads back what it has written, it passes exactly when both commands, the write and
  -- the read, answer without an error.
  pub connect-self_test :
      SetLaws redis
      → (s : CacheService C) (w w2 : W)
      → (r : Option Error × W) × (self_test active redis quoted clock
            (connect active redis s w).1
            w2
          ≡ some r)
        × ((r.0 ≡ none) ↔ (
            ((redis.set_key (redis.new_client s.address w).0 "init" (clock w2) w2).0 ≡ none)
            × (is_ok (read_back (redis.new_client s.address w).0 w2) ≡ true)))
  unfolding connect self_test self_test_on
  connect-self_test laws s w w2 =
      let c = (redis.new_client s.address w).0 in
      let both = init_written-none c (clock w2) (redis.set_key c "init" (clock w2) w2) in
      (
        self_test_on active redis quoted clock c w2,
        refl,
        (
          λ h. ((both.0 h).0, rw (both.0 h).1 refl),
          λ h. both.1 (h.0, read_ok laws c w2 h.0 (read_back c w2) refl h.1),
        ),
      )
