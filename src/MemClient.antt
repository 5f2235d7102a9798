-- ===== src/MemClient.antt =====
-- memclient.cpp: a worker's client of the memcached servers, with the cache in front of them.
--
-- libmemcached is the parameter `Memcached`: a call takes its handle and gives it back. `cache` is `none`
-- where the router runs without one. A map from keys is its entries in the order of the keys. A failed
-- CHECK is `none`, and so is undefined behaviour: of the cache, and of a key with a zero byte, where
-- strcpy stops while the length that is sent is the whole key's, so that bytes are read that nothing
-- wrote.
pub mod Writes
pub mod Fetches
pub mod Through
pub mod Hosts
use memcache_router.Prelude.{
  ℕ, zero, suc, ◌+◌, Bool, true, false, List, [], ◌∷◌, ◌++◌, Option, none, some, if◌then◌else◌, ltb,
  ◌==◌, ◌||◌,
}
use memcache_router.Prelude.Text.{Text, text_eq}
use memcache_router.ConsistentHash.{Server}
use memcache_router.Messages.{ℤ, pos, negsuc, KeyValue, Instruction}
use memcache_router.Cache
use memcache_router.Cache.{Cache}
use memcache_router.Cache.Buckets

pub record Result : Type 0 where
  pub key : Text
  pub value : Text
  pub flags : ℕ
  pub cas : ℕ

-- memcached_cas, memcached_add and memcached_set, with the key, the value, the expiry and the flags.
pub data StoreCall : Type 0 where
  cas_call : (key val : Text) (expire flags cas : ℕ) → StoreCall
  add_call set_call : (key val : Text) (expire flags : ℕ) → StoreCall

-- memcached_increment, memcached_decrement and those `_with_initial`.
pub data CounterCall : Type 0 where
  increment_with_initial_call decrement_with_initial_call :
      (key : Text) (offset initial expire : ℕ) → CounterCall
  increment_call decrement_call : (key : Text) (offset : ℕ) → CounterCall

pub record Memcached : Type 1 where
  pub Memc : Type 0
  pub ServerList : Type 0
  pub no_servers : ServerList
  pub set_no_block : Memc → ℕ × Memc
  pub set_support_cas : Memc → ℕ × Memc
  pub server_list_append : ServerList → Text → ℕ → ServerList × ℕ
  pub server_push : Memc → ServerList → ℕ × Memc
  pub mget : List Text → Memc → ℕ × Memc
  pub fetch_result : Memc → Option Result × ℕ × Memc
  pub strerror : ℕ → Text
  pub run_store : StoreCall → Memc → ℕ × Memc
  pub run_counter : CounterCall → Memc → ℕ × ℕ × Memc

abbrev pub Client : Memcached → Type 0
Client lib = Option Cache × Memcached.Memc lib

abbrev pub memcached_success : ℕ
memcached_success = 0

abbrev pub Entries : Type 0
Entries = List (Text × KeyValue)

-- What the cache reads of a message, and what it sets.
abbrev pub to_cached : KeyValue → Buckets.KeyValue
to_cached kv = record { val = kv.val; flags = kv.flags; cas = kv.cas }

unfoldable pub fill : Buckets.KeyValue → KeyValue → KeyValue
fill hit kv = record kv { val = hit.val; flags = hit.flags; cas = hit.cas }

-- The call of `find`, the CHECK that it found, and the change of what it found.
unfoldable pub change_found : Text → (KeyValue → KeyValue) → Entries → Option Entries
change_found k f [] = none
change_found k f ((j, kv) ∷ m) =
    let rest : Option Entries = elim (change_found k f m) [
      | none ↦ none
      | some m' ↦ some ((j, kv) ∷ m')
    ] in
    if text_eq j k then some ((j, f kv) ∷ m) else rest

unfoldable pub find_entry : Text → Entries → Option KeyValue
find_entry k [] = none
find_entry k ((j, kv) ∷ m) = if text_eq j k then some kv else find_entry k m

unfoldable pub has_zero : Text → Bool
has_zero [] = false
has_zero (c ∷ t) = c == 0 || has_zero t

unfoldable pub any_zero : List Text → Bool
any_zero [] = false
any_zero (k ∷ keys) = has_zero k || any_zero keys

-- The keys copied with strcpy, and the call.
unfoldable pub mget_keys :
    (lib : Memcached) → List Text → Memcached.Memc lib → Option (ℕ × Memcached.Memc lib)
mget_keys lib keys memc = if any_zero keys then none else some (Memcached.mget lib keys memc)

-- The assignments behind a fetch.
unfoldable pub set_result : (lib : Memcached) → Result → ℕ → KeyValue → KeyValue
set_result lib r rc kv = record kv {
  val = r.value;
  flags = r.flags;
  cas = r.cas;
  return_code = rc;
  return_error = Memcached.strerror lib rc;
}

module _ (str_hash : Text → ℕ) (unset : ℕ) where
  -- `cache_ && cache_->Get(...)`, and `if (cache_) cache_->AddOrReplace(...)`.
  unfoldable pub cache_get : Option Cache → Text → Option (Option Buckets.KeyValue × Option Cache)
  cache_get none k = some (none, none)
  cache_get (some c) k = elim (Cache.get str_hash unset c k) [
    | none ↦ none
    | some (a, c') ↦ some (a, some c')
  ]

  unfoldable pub cache_add : Option Cache → Text → KeyValue → Option (Option Cache)
  cache_add none k kv = some none
  cache_add (some c) k kv = elim (Cache.add_or_replace str_hash unset c k (to_cached kv)) [
    | none ↦ none
    | some c' ↦ some (some c')
  ]

  abbrev pub Filled : Type 0
  Filled = Entries × List Text × Option Cache

  abbrev pub with_entry : Text → KeyValue → Option Buckets.KeyValue → Option Filled → Option Filled
  with_entry k kv hit none = none
  with_entry k kv none (some (m, keys, c)) = some ((k, kv) ∷ m, k ∷ keys, c)
  with_entry k kv (some a) (some (m, keys, c)) = some ((k, fill a kv) ∷ m, keys, c)

  -- The first loop of GetKeys: the entries with those that the cache filled, and the keys to fetch.
  unfoldable pub fill_from_cache : Option Cache → Entries → Option Filled
  fill_from_cache c [] = some ([], [], c)
  fill_from_cache c ((k, kv) ∷ m) = elim (cache_get c k) [
    | none ↦ none
    | some (hit, c') ↦ with_entry k kv hit (fill_from_cache c' m)
  ]

  module _ (lib : Memcached) where
    open lib use {
      Memc, ServerList, no_servers, set_no_block, set_support_cas, server_list_append, server_push,
      mget, fetch_result, strerror, run_store, run_counter,
    }

    -- One result: the entries with it, and the cache with the entry that it went to.
    unfoldable pub take_result :
        Result → ℕ → Entries → Option Cache → Option (Entries × Option Cache)
    take_result r rc m c = elim (change_found r.key (set_result lib r rc) m) [
      | none ↦ none
      | some m' ↦ elim (find_entry r.key m') [
        | none ↦ none
        | some kv ↦ elim (cache_add c r.key kv) [ none ↦ none | some c' ↦ some (m', c') ]
      ]
    ]

    -- The loop over the results, with fuel.
    unfoldable pub fetch_results : ℕ → Entries → Client lib → Option (Entries × Client lib)
    fetch_results zero m client = none
    fetch_results (suc fuel) m (c, memc) =
        let (found, rc, memc') = fetch_result memc in
        elim found [
          | none ↦ some (m, (c, memc'))
          | some r ↦ elim (take_result r rc m c) [
            | none ↦ none
            | some (m', c') ↦ fetch_results fuel m' (c', memc')
          ]
        ]

    abbrev pub after_mget :
        ℕ → Entries → Option Cache → Option (ℕ × Memc) → Option (Entries × Client lib)
    after_mget fuel m c none = none
    after_mget fuel m c (some (rc, memc)) =
        if rc == memcached_success then fetch_results fuel m (c, memc) else none

    -- The server is asked only where a key is left.
    abbrev pub fetch_missing : ℕ → Memc → Filled → Option (Entries × Client lib)
    fetch_missing fuel memc (m, [], c) = some (m, (c, memc))
    fetch_missing fuel memc (m, k ∷ keys, c) = after_mget fuel m c (mget_keys lib (k ∷ keys) memc)

    unfoldable pub get_keys : ℕ → Entries → Client lib → Option (Entries × Client lib)
    get_keys fuel m (c, memc) = elim (fill_from_cache c m) [
      | none ↦ none
      | some filled ↦ fetch_missing fuel memc filled
    ]
