-- ===== src/MemClient/Through.antt =====
-- SetKeys and GetKeys through the cache.
use memcache_router.Prelude.{ℕ, [], ◌∷◌, some, if◌then◌else◌, ◌≡◌, ◌≢◌, refl, arith, ap, ◌∙◌}
use memcache_router.Prelude.Text.{Text}
use memcache_router.Messages.{KeyValue}
use memcache_router.Cache
use memcache_router.Cache.{Cache, populate_stats}
use memcache_router.Cache.Buckets
use memcache_router.Cache.Buckets.Calls.{stored}
use memcache_router.Cache.Shards.{AreGood, add_or_replace-AreGood}
use memcache_router.MemClient.{
  Memcached, to_cached, fill, get_keys, fill_from_cache, cache_get, cache_add,
}
use memcache_router.MemClient.Writes.{set_key, set_return, store_call}

stored_filled : (kv : Buckets.KeyValue) → kv.val ≢ [] → stored kv ≡ some kv
unfolding stored
stored_filled kv h = filled kv.val refl
  where
    filled : (v : Text) → kv.val ≡ v → stored kv ≡ some kv
    filled [] e = absurd (h e)
    filled (c ∷ v) e = ground (arith, e)

module _ (str_hash : Text → ℕ) (unset : ℕ) (lib : Memcached) where
  open lib use {Memc, run_store}

  -- What SetKeys leaves of the server: the call that the message asks for, or none of its own.
  abbrev pub sent : KeyValue → Memc → Memc
  sent kv memc = if kv.no_propagate then memc else (run_store (store_call lib kv) memc).1

  abbrev pub returned : KeyValue → Memc → KeyValue
  returned kv memc =
      if kv.no_propagate then kv else set_return lib (run_store (store_call lib kv) memc).0 kv

  set_key_added :
      (kv : KeyValue) (c c' : Cache) (memc : Memc)
      → Cache.add_or_replace str_hash unset c kv.key (to_cached kv) ≡ some c'
      → set_key lib str_hash unset kv (some c, memc)
        ≡ some (returned kv memc, (some c', sent kv memc))
  unfolding set_key cache_add
  set_key_added kv c c' memc adds = ground (arith, adds)

  get_keys_hit :
      (k : Text) (entry : KeyValue) (hit : Buckets.KeyValue) (c c' : Cache) (memc : Memc) (fuel : ℕ)
      → Cache.get str_hash unset c k ≡ some (some hit, c')
      → get_keys str_hash unset lib fuel ((k, entry) ∷ []) (some c, memc)
        ≡ some ((k, fill hit entry) ∷ [], (some c', memc))
  unfolding get_keys fill_from_cache cache_get
  get_keys_hit k entry hit c c' memc fuel e = rw (e, get_keys, fill_from_cache, cache_get)

  -- A value that is not empty and that SetKeys is given is in the cache afterwards, whatever the server
  -- answers and whether it was asked or not: GetKeys of the key gives the value, the flags and the cas
  -- of the message, and leaves the server as SetKeys left it.
  pub set_key-get_keys :
      (kv entry : KeyValue) (c : Cache) (memc : Memc) (fuel : ℕ)
      → AreGood c
      → kv.val ≢ []
      → (c' c'' : Cache) × (set_key lib str_hash unset kv (some c, memc)
          ≡ some (returned kv memc, (some c', sent kv memc)))
        × (get_keys str_hash unset lib fuel ((kv.key, entry) ∷ []) (some c', sent kv memc)
            ≡ some ((kv.key, fill (to_cached kv) entry) ∷ [], (some c'', sent kv memc)))
  set_key-get_keys kv entry c memc fuel good filled =
      let (c', adds, good', same, others, reads_back) =
        add_or_replace-AreGood str_hash unset c kv.key (to_cached kv) good in
      let (c'', reads) = reads_back unset in
      let hit : Cache.get str_hash unset c' kv.key ≡ some (some (to_cached kv), c'') =
        reads ∙ ap (λ a. some (a, c'')) (stored_filled (to_cached kv) filled) in
      (
        c',
        c'',
        set_key_added kv c c' memc adds,
        get_keys_hit kv.key entry (to_cached kv) c' c'' (sent kv memc) fuel hit,
      )
