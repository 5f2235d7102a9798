-- ===== src/MemClient/Writes.antt =====
-- memclient.cpp: SetKeys, IncrKeys and Init.
use memcache_router.Prelude.{ℕ, ◌+◌, List, [], ◌∷◌, Option, none, some, if◌then◌else◌, ltb, ◌==◌}
use memcache_router.Prelude.Text.{Text}
use memcache_router.ConsistentHash.{Server}
use memcache_router.Messages.{ℤ, pos, negsuc, KeyValue, Instruction}
use memcache_router.Cache.{Cache}
use memcache_router.MemClient.{
  StoreCall, cas_call, add_call, set_call, CounterCall, increment_with_initial_call,
  decrement_with_initial_call, increment_call, decrement_call, Memcached, memcached_success, Client,
  cache_add,
}

module _ (lib : Memcached) where
  open lib use {
    Memc, ServerList, no_servers, set_no_block, set_support_cas, server_list_append, server_push,
    strerror, run_store, run_counter,
  }

  unfoldable pub set_return : ℕ → KeyValue → KeyValue
  set_return rc kv = record kv { return_code = rc; return_error = strerror rc }

  abbrev pub store_call : KeyValue → StoreCall
  store_call kv =
      if ltb 0 kv.cas
      then cas_call kv.key kv.val kv.expire_in_seconds kv.flags kv.cas
      else if kv.allow_replace
      then set_call kv.key kv.val kv.expire_in_seconds kv.flags
      else add_call kv.key kv.val kv.expire_in_seconds kv.flags

  abbrev pub stored : KeyValue → Option Cache → ℕ × Memc → KeyValue × Client lib
  stored kv c (rc, memc) = (set_return rc kv, (c, memc))

  -- The branches of IncrKeys: the sign of the offset, and whether there is a value to begin with.
  abbrev pub counter_call : Text → ℤ → Option ℕ → ℕ → CounterCall
  counter_call key (pos n) (some initial) expire = increment_with_initial_call key n initial expire
  counter_call key (pos n) none expire = increment_call key n
  counter_call key (negsuc n) (some initial) expire =
      decrement_with_initial_call key (n + 1) initial expire
  counter_call key (negsuc n) none expire = decrement_call key (n + 1)

  unfoldable pub set_counter : ℕ → ℕ → KeyValue → KeyValue
  set_counter rc val kv = record kv {
    counter_val = val;
    return_code = rc;
    return_error = strerror rc;
  }

  unfoldable pub incr_key : KeyValue → Memc → KeyValue × Memc
  unfolding set_counter
  incr_key kv memc =
      let (rc, val, memc') =
        run_counter (counter_call kv.key kv.offset kv.default_counter_val kv.expire_in_seconds)
          memc in
      (set_counter rc val kv, memc')

  unfoldable pub incr_keys : List KeyValue → Memc → List KeyValue × Memc
  incr_keys [] memc = ([], memc)
  incr_keys (kv ∷ kvs) memc =
      let (kv', memc') = incr_key kv memc in
      let (kvs', memc'') = incr_keys kvs memc' in (kv' ∷ kvs', memc'')

  -- A call whose return code the CHECK looks at.
  abbrev pub check_success : {A : Type 0} → ℕ → A → Option A
  check_success rc a = if rc == memcached_success then some a else none

  abbrev pub append_server : Server → Option ServerList → Option ServerList
  append_server s none = none
  append_server s (some l) =
      let (l', rc) = server_list_append l s.hostname s.port in check_success rc l'

  -- The loop of Init from the second server on: it appends the first.
  unfoldable pub append_rest : Server → List Server → Option ServerList → Option ServerList
  append_rest first [] l = l
  append_rest first (s ∷ ss) l = append_rest first ss (append_server first l)

  abbrev pub push_servers : Memc → Option ServerList → Option Memc
  push_servers memc none = none
  push_servers memc (some l) = let (rc, memc') = server_push memc l in check_success rc memc'

  abbrev pub add_servers : List Server → Memc → Option Memc
  add_servers [] memc = none
  add_servers (s ∷ ss) memc =
      push_servers memc (append_rest s ss (append_server s (some no_servers)))

  unfoldable pub init : Instruction → Memc → Option Memc
  unfolding append_rest
  init instruction memc =
      let (rc, memc') = set_no_block memc in
      let (rc', memc'') = set_support_cas memc' in
      if rc == memcached_success
      then (if rc' == memcached_success then add_servers instruction.servers memc'' else none)
      else none

  module _ (str_hash : Text → ℕ) (unset : ℕ) where
    -- One turn of the loop of SetKeys.
    unfoldable pub set_key : KeyValue → Client lib → Option (KeyValue × Client lib)
    unfolding set_return
    set_key kv (c, memc) = elim (cache_add str_hash unset c kv.key kv) [
      | none ↦ none
      | some c' ↦ some (
          if kv.no_propagate
          then (kv, (c', memc))
          else stored kv c' (run_store (store_call kv) memc))
    ]

    unfoldable pub set_keys : List KeyValue → Client lib → Option (List KeyValue × Client lib)
    set_keys [] client = some ([], client)
    set_keys (kv ∷ kvs) client = elim (set_key kv client) [
      | none ↦ none
      | some (kv', client') ↦ elim (set_keys kvs client') [
        | none ↦ none
        | some (kvs', client'') ↦ some (kv' ∷ kvs', client'')
      ]
    ]
