-- ===== src/Benchmark/Gets.antt =====
-- What the test of benchmark.py shows of a client, and that a client that keeps its values passes it.
use memcache_router.Prelude.{ℕ, ◌+◌, ◌<◌, ◌≤◌, true, List, Option, some, if◌then◌else◌, ◌≡◌}
use memcache_router.Prelude.Text.{Text, text_eq}
use memcache_router.Benchmark.{CacheClient, test_key, value_at}

-- A client that keeps what was set last for a key, however often it is asked.
pub record KeepsValues (client : CacheClient) : Type 0 where
  pub held : CacheClient.State client → Text → Option (CacheClient.Value client)
  pub held-set :
      (k j : Text) (v : CacheClient.Value client) (s : CacheClient.State client)
      → held (CacheClient.set client k v s) j ≡ (if text_eq k j then some v else held s j)
  pub get_value :
      (k : Text) (s : CacheClient.State client)
      → (s' : CacheClient.State client) × (CacheClient.get client k s ≡ (held s k, s'))
        × ((j : Text) → held s' j ≡ held s j)
  pub equals_self : (v : CacheClient.Value client) → CacheClient.equals client v (some v) ≡ true

module _ (client : CacheClient) (laws : KeepsValues client) (suffix : Text) where
  open client use {State, Value, set}
  open laws use {held, held-set, get_value, equals_self}

  -- The values from `i` on are held, `n` of them.
  Holds : List Value → ℕ → ℕ → State → Type 0
  Holds values i n s = (j : ℕ) → i ≤ j → j < i + n → held s (test_key suffix j) ≡ value_at j values
