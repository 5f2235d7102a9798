-- ===== src/Cache.antt =====
-- lru_cache.h and lru_cache.cpp: the cache of the router, 64 buckets and two counters.
--
-- Each call holds the mutex of its bucket, so that the calls on a bucket come one behind the other:
-- a call is one step. The counters are atomic. `str_hash`, the standard library's, is a parameter,
-- and so is `percent`, which stands for the product with 0.01 in floating point. A null result is
-- undefined behaviour of the bucket.
pub mod Buckets
pub mod Shards
use memcache_router.Prelude.{
  ℕ, ◌+◌, ◌*◌, ◌/◌, ◌%◌, List, [], ◌∷◌, Option, none, some, ◌==◌, leb, if◌then◌else◌,
}
use memcache_router.Prelude.Text.{Text}
use memcache_router.Cache.Buckets
use memcache_router.Cache.Buckets.{Bucket, KeyValue, new_bucket, plus}

abbrev pub num_buckets : ℕ
num_buckets = 64

pub record Cache : Type 0 where
  pub hits : ℕ
  pub miss : ℕ
  pub decrease_by : ℕ
  pub threshold : ℕ
  pub buckets : ℕ → Bucket

unfoldable pub max : ℕ → ℕ → ℕ
max a b = if leb a b then b else a

unfoldable pub new_cache : (ℕ → ℕ) → ℕ → Cache
unfolding max
new_cache percent capacity =
    let threshold = max (capacity / num_buckets) (10 * 1048576) in
    record {
      hits = 0;
      miss = 0;
      decrease_by = max (percent threshold) (100 * 1024);
      threshold = threshold;
      buckets = λ i. new_bucket;
    }

unfoldable pub get_index : (Text → ℕ) → Text → ℕ
get_index str_hash k = str_hash k % num_buckets

unfoldable pub put_bucket : Cache → ℕ → Bucket → Cache
put_bucket c i b = record c { buckets = λ j. if j == i then b else c.buckets j }

put_added : Cache → ℕ → Option Bucket → Option Cache
unfolding put_bucket
put_added c i none = none
put_added c i (some b) = some (put_bucket c i b)

unfoldable pub add_or_replace : (Text → ℕ) → ℕ → Cache → Text → KeyValue → Option Cache
unfolding put_added
add_or_replace str_hash unset c k kv =
    let i = get_index str_hash k in
    put_added c i (Buckets.add_or_replace unset c.threshold c.decrease_by (c.buckets i) k kv)

-- `++miss_` or `++hits_`.
unfoldable pub count : Option KeyValue → Cache → Cache
count none c = record c { miss = plus c.miss 1 }
count (some kv) c = record c { hits = plus c.hits 1 }

put_read : Cache → ℕ → Option (Option KeyValue × Bucket) → Option (Option KeyValue × Cache)
unfolding put_bucket count
put_read c i none = none
put_read c i (some (a, b)) = some (a, count a (put_bucket c i b))

unfoldable pub get : (Text → ℕ) → ℕ → Cache → Text → Option (Option KeyValue × Cache)
unfolding put_read
get str_hash unset c k =
    let i = get_index str_hash k in put_read c i (Buckets.get unset (c.buckets i) k)

-- The counts of cache_hit and cache_miss.
unfoldable pub populate_stats : Cache → ℕ × ℕ
populate_stats c = (c.hits, c.miss)
