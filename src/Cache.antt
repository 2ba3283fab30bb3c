-- ===== src/Cache.antt =====
-- internal/services/cache.go. `C` is the type of go-redis clients, whose commands act on the world
-- `W`. A nil client, whose use panics, is `none`.
pub mod Tested
pub mod Connected
use scuffinger.Prelude.{String, string_eq, Option, none, some, ◌==◌, if◌then◌else◌, ◌+++◌}
use scuffinger.Prelude.Result.{Result, ok, err}
use scuffinger.I18n
use scuffinger.I18n.{Error, Messages}

-- the client of an address, and its commands
pub record Commands (C W : Type 0) : Type 0 where
  pub new_client : String → W → C × W
  pub ping : C → W → Option Error × W
  pub set_key : C → String → String → W → Option Error × W
  pub get_key : C → String → W → Result Error String × W
  pub close : C → W → Option Error × W

pub record CacheService (C : Type 0) : Type 0 where
  pub address : String
  pub client : Option C

abbrev pub new_cache_service : {C : Type 0} → String → CacheService C
new_cache_service address = record { address = address; client = none }

module _ {C W : Type 0} (active : Messages) (redis : Commands C W) where
  cache_pinged : Option Error × W → Option Error × W
  cache_pinged (none, w) = (none, w)
  cache_pinged (some e, w) = (some (I18n.err_with active I18n.err_cache_ping e), w)

  -- The client stays in the service when the ping fails.
  unfoldable pub connect : CacheService C → W → Option Error × CacheService C × W
  unfolding cache_pinged
  connect s w =
      let (c, w1) = redis.new_client s.address w in
      let (e, w2) = cache_pinged (redis.ping c w1) in (e, record s { client = some c }, w2)

  -- `quoted` is fmt's `%q`
  module _ (quoted : String → String) where
    unfoldable pub init_read : String → Result Error String × W → Option Error × W
    init_read now (err e, w) = (some (I18n.err_with active I18n.err_cache_get_init e), w)
    init_read now (ok v, w) = if v == now then (none, w) else (
      some (
          I18n.get active I18n.err_cache_init_mismatch
          +++ (": got " +++ (quoted v +++ (", want " +++ quoted now)))),
      w,
    )

    unfoldable pub init_written : C → String → Option Error × W → Option Error × W
    init_written c now (some e, w) = (some (I18n.err_with active I18n.err_cache_set_init e), w)
    init_written c now (none, w) = init_read now (redis.get_key c "init" w)

    -- `SelfTest` on a client, at the time that the clock spells
    unfoldable pub self_test_on : (W → String) → C → W → Option Error × W
    unfolding init_written init_read
    self_test_on clock c w = init_written c (clock w) (redis.set_key c "init" (clock w) w)

    client_test : (W → String) → Option C → W → Option (Option Error × W)
    client_test clock none w = none
    client_test clock (some c) w = some (self_test_on clock c w)

    unfoldable pub self_test : (W → String) → CacheService C → W → Option (Option Error × W)
    unfolding client_test
    self_test clock s w = client_test clock s.client w

  client_ping : Option C → W → Option (Option Error × W)
  client_ping none w = none
  client_ping (some c) w = some (redis.ping c w)

  unfoldable pub ping : CacheService C → W → Option (Option Error × W)
  unfolding client_ping
  ping s w = client_ping s.client w

  client_close : Option C → W → Option Error × W
  client_close none w = (none, w)
  client_close (some c) w = redis.close c w

  unfoldable pub close : CacheService C → W → Option Error × W
  unfolding client_close
  close s w = client_close s.client w
