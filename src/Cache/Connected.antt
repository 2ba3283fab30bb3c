-- ===== src/Cache/Connected.antt =====
-- The client of internal/services/cache.go behind `Connect`.
use scuffinger.Prelude.{String, ◌≡◌, refl, some}
use scuffinger.I18n.{Messages}
use scuffinger.Cache.{
  Commands, CacheService, connect, self_test, self_test_on, ping, client_test, client_ping,
}

module _ {C W : Type 0} (active : Messages) (redis : Commands C W) where
  -- Whatever the ping answered, there is a client.
  pub connect-client :
      (s : CacheService C) (w : W)
      → (connect active redis s w).1.client ≡ some (redis.new_client s.address w).0
  unfolding connect
  connect-client s w = refl

  -- With a client, the self-test and the ping return.
  pub self_test-some :
      (quoted : String → String) (clock : W → String) (s : CacheService C) (w : W) (c : C)
      → s.client ≡ some c
      → self_test active redis quoted clock s w ≡ some (self_test_on active redis quoted clock c w)
  unfolding self_test client_test
  self_test-some quoted clock s w c h = rw h refl

  pub ping-some :
      (s : CacheService C) (w : W) (c : C)
      → s.client ≡ some c
      → ping active redis s w ≡ some (redis.ping c w)
  unfolding ping client_ping
  ping-some s w c h = rw h refl
