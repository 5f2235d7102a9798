-- ===== src/Tests/Benchmarks.antt =====
-- The test of Benchmark.antt with a client that is a function from the keys.
use memcache_router.Prelude.{ℕ, Bool, false, Option, none, some, if◌then◌else◌, refl, ◌==◌, ==_refl}
use memcache_router.Prelude.Text.{Text, text_eq}
use memcache_router.Benchmark.{CacheClient}
use memcache_router.Benchmark.Gets.{KeepsValues}

abbrev same : ℕ → Option ℕ → Bool
same v none = false
same v (some w) = v == w

abbrev keeping : CacheClient
keeping = record {
  State = Text → Option ℕ;
  Value = ℕ;
  equals = same;
  set = λ k v s j. if text_eq k j then some v else s j;
  get = λ k s. (s k, s);
}

abbrev keeping_laws : KeepsValues keeping
keeping_laws = record {
  held = λ s k. s k;
  held-set = λ k j v s. refl;
  get_value = λ k s. (s, refl, λ j. refl);
  equals_self = λ v. ==_refl v;
}
