-- ===== src/Client/Calls/Kept.antt =====
-- A value from a client's `set` to a client's `get`, through the cache of the router.
use memcache_router.Prelude.{
  ℕ, suc, Bool, [], ◌∷◌, some, ◌≡◌, ◌≢◌, refl, sym, subst, ap, ◌∙◌, arith,
}
use memcache_router.Prelude.Text.{Text}
use memcache_router.Messages.{KeyValue, new_key_value, new_instruction}
use memcache_router.Cache.{Cache}
use memcache_router.Cache.Buckets.Valid.{some-injective}
use memcache_router.Cache.Shards.{AreGood}
use memcache_router.MemClient.{Memcached, to_cached, fill, get_keys}
use memcache_router.MemClient.Writes.{set_key}
use memcache_router.MemClient.Through.{sent, returned, set_key-get_keys}
use memcache_router.Client.Zlib.{Zlib}
use memcache_router.Client.Values.{Python, Value, prepare_value, restore}
use memcache_router.Client.Values.Restored.{Storable, restore-prepare_value}
use memcache_router.Client.Calls.{key_message, set_internal, get_answer, gets_answer}

-- What the generated MergeFrom, which copies the fields that are set, does to the fields that a cache
-- hit sets. A value with bytes is set; flags that are not set read as 0.
pub record MergeLaws (merge : KeyValue → KeyValue → KeyValue) : Type 0 where
  pub merge_val : (kv e : KeyValue) → e.val ≢ [] → (merge kv e).val ≡ e.val
  pub merge_flags : (kv e : KeyValue) → kv.flags ≡ 0 → (merge kv e).flags ≡ e.flags

module _ (py : Python) (z : Zlib) (merge : KeyValue → KeyValue → KeyValue) (laws : MergeLaws merge)
    (str_hash : Text → ℕ) (unset : ℕ) (lib : Memcached) where
  open laws use {merge_val, merge_flags}

  answer_of_one :
      (fuel : ℕ) (v : Value (Python.Object py)) (kv : KeyValue)
      → restore py z fuel kv.val kv.flags ≡ some v
      → get_answer py z fuel (record new_instruction { get_keys = kv ∷ [] }) ≡ some v
  unfolding get_answer gets_answer
  answer_of_one fuel v kv e = ground (arith, e)

  restored :
      (fuel : ℕ) (v : Value (Python.Object py)) (kv e : KeyValue)
      → e.val ≢ []
      → kv.flags ≡ 0
      → restore py z fuel e.val e.flags ≡ some v
      → get_answer py z fuel (record new_instruction { get_keys = merge kv e ∷ [] }) ≡ some v
  restored fuel v kv e filled unset_flags back = answer_of_one fuel v (merge kv e) (
      ap (λ (t : Text). restore py z fuel t (merge kv e).flags) (merge_val kv e filled)
      ∙ ap (λ (n : ℕ). restore py z fuel e.val n) (merge_flags kv e unset_flags)
      ∙ back)

  -- A value that can be stored and whose bytes are not empty, and a router with a cache whose buckets
  -- are in order (AreGood): `set_internal` makes a message with one
  -- entry; after SetKeys on it, GetKeys of the key finds the entry in the cache and does not touch the
  -- servers; and `get` of the answer with it merged gives the value. It does so whatever the servers
  -- answer to SetKeys: also where they refuse the value, as they do for a stale cas.
  pub get_answer-set_internal :
      (v : Value (Python.Object py)) (key : Text) (time cas_id fuel inflate_fuel : ℕ)
      (replace : Bool) (c : Cache) (memc : Memcached.Memc lib) (kv' : KeyValue)
      → Storable py inflate_fuel v
      → prepare_value py z v (key_message key) ≡ some kv'
      → kv'.val ≢ []
      → AreGood c
      → (kv : KeyValue) × (c' c'' : Cache) × (e : KeyValue) × (set_internal py z key v time cas_id
            replace
          ≡ some (record new_instruction { set_keys = kv ∷ [] }))
        × (kv.key ≡ key)
        × (set_key lib str_hash unset kv (some c, memc)
            ≡ some
                (returned str_hash unset lib kv memc, (some c', sent str_hash unset lib kv memc)))
        × (get_keys str_hash unset lib fuel
              ((kv.key, new_key_value) ∷ [])
              (some c', sent str_hash unset lib kv memc)
            ≡ some ((kv.key, e) ∷ [], (some c'', sent str_hash unset lib kv memc)))
        × (get_answer py z
              (suc inflate_fuel)
              (record new_instruction { get_keys = merge (key_message key) e ∷ [] })
            ≡ some v)
  unfolding set_internal fill
  get_answer-set_internal v key time cas_id fuel inflate_fuel replace c memc kv' f prepared filled
        good =
      let (kw, makes, back, same) = restore-prepare_value py z inflate_fuel v (key_message key) f in
      let kv : KeyValue = record kw {
        cas = cas_id;
        expire_in_seconds = time;
        allow_replace = replace;
      } in
      let filled' : kw.val ≢ [] =
        subst (λ (x : KeyValue). x.val ≢ []) (some-injective (sym prepared ∙ makes)) filled in
      let (c', c'', sets, gets) =
        set_key-get_keys str_hash unset lib kv new_key_value c memc fuel good filled' in
      (
        kv,
        c',
        c'',
        fill (to_cached kv) new_key_value,
        rw (makes, set_internal),
        ap (λ (x : KeyValue). x.key) same,
        sets,
        gets,
        restored (suc inflate_fuel) v (key_message key) (fill (to_cached kv) new_key_value) filled'
            refl back,
      )
