-- ===== src/Tests/Clients.antt =====
-- Runs of the client library, the memcached client and the binary protocol.
use memcache_router.Prelude.{
  ℕ, true, List, [], ◌∷◌, ◌++◌, replicate, All, some, ◌≡◌, ◌≢◌, refl, arith,
}
use memcache_router.Prelude.Text.{Text}
use memcache_router.ConsistentHash.{Server}
use memcache_router.Messages.{pos, negsuc, KeyValue, new_key_value, Instruction, new_instruction}
use memcache_router.Cache.{Cache}
use memcache_router.Cache.Buckets.{new_bucket}
use memcache_router.Cache.Buckets.Calls.{new_bucket-IsGood}
use memcache_router.Cache.Shards.{AreGood}
use memcache_router.MemClient.{get_keys}
use memcache_router.MemClient.Writes.{init, set_key}
use memcache_router.MemClient.Through.{sent, returned}
use memcache_router.MemClient.Hosts.{init-hosts}
use memcache_router.Protocol.{new_request, ProtocolHeader, reset_header, header_bytes, parse_header}
use memcache_router.Protocol.Headers.{Fits, parse_header-header_bytes}
use memcache_router.Protocol.Requests.{
  Request, get_request, set_request, noop_request, RequestFits, add_requests, read_requests,
  read_requests-add_requests,
}
use memcache_router.Client.Zlib.{inflated, decompress_internal}
use memcache_router.Client.Zlib.Inflation.{decompress_internal-compress}
use memcache_router.Client.Values.{
  Value, int_value, write_to_kv, write_rep, represent, prepare_value, restore,
}
use memcache_router.Client.Values.Restored.{restore-prepare_value}
use memcache_router.Client.Calls.{key_message, set_internal, get_answer}
use memcache_router.Client.Calls.Kept.{get_answer-set_internal}
use memcache_router.Tests.Libraries
use memcache_router.Tests.Libraries.{lib, new_handle, list_laws, zlib, python, merge, merge_laws}

abbrev some_requests : List Request
some_requests =
    set_request (97 ∷ []) (49 ∷ 50 ∷ []) 2 60 7 ∷ get_request (97 ∷ []) ∷ noop_request ∷ []

they_fit : All RequestFits some_requests
they_fit = omega arith

read_requests-add_requests_example :
    (read_requests 3 ((add_requests some_requests new_request).command ++ [])
      ≡ some (some_requests, []))
    × ((add_requests some_requests new_request).num ≡ 3)
read_requests-add_requests_example = read_requests-add_requests some_requests [] they_fit

decompress_internal-compress_example :
    decompress_internal zlib 1 (49 ∷ 50 ∷ []) ≡ inflated (49 ∷ 50 ∷ [])
decompress_internal-compress_example =
    decompress_internal-compress zlib 0 (49 ∷ 50 ∷ []) (omega arith) (omega arith) (omega arith)

abbrev minus_three : Value Text
minus_three = int_value (negsuc 2)

restore-prepare_value_example :
    (kv' : KeyValue) × (prepare_value python zlib minus_three new_key_value ≡ some kv')
    × (restore python zlib 1 kv'.val kv'.flags ≡ some minus_three)
    × (kv' ≡ record new_key_value { val = kv'.val; flags = kv'.flags })
restore-prepare_value_example =
    restore-prepare_value python zlib 0 minus_three new_key_value (omega arith)

abbrev host : Text → Server
host name = record { hostname = name; port = 11211 }

abbrev two_hosts : Instruction
two_hosts = record new_instruction { servers = host (97 ∷ []) ∷ host (98 ∷ []) ∷ [] }

init-hosts_example :
    (memc' : Libraries.Handle) × (init lib two_hosts new_handle ≡ some memc')
    × (memc'.servers ≡ replicate 2 (host (97 ∷ [])))
init-hosts_example =
    init-hosts lib list_laws two_hosts (host (97 ∷ [])) (host (98 ∷ []) ∷ []) new_handle refl
      (omega arith)

abbrev hash : Text → ℕ
hash k = 0

abbrev cache : Cache
cache = record {
  hits = 0;
  miss = 0;
  decrease_by = 102400;
  threshold = 10485760;
  buckets = λ i. new_bucket;
}

cache-AreGood : AreGood cache
cache-AreGood i = new_bucket-IsGood

abbrev prepared : KeyValue
prepared = record (key_message (97 ∷ [])) { val = 45 ∷ 2 ∷ []; flags = 2 }

prepared_first : prepare_value python zlib minus_three (key_message (97 ∷ [])) ≡ some prepared
unfolding prepare_value represent write_rep write_to_kv
prepared_first = refl

not_empty : prepared.val ≢ []
not_empty e = cc

get_answer-set_internal_example :
    (kv : KeyValue) × (c' c'' : Cache) × (e : KeyValue) × (set_internal python zlib
        (97 ∷ [])
        minus_three
        60
        0
        true
      ≡ some (record new_instruction { set_keys = kv ∷ [] }))
    × (kv.key ≡ 97 ∷ [])
    × (set_key lib hash 0 kv (some cache, new_handle)
        ≡ some (returned hash 0 lib kv new_handle, (some c', sent hash 0 lib kv new_handle)))
    × (get_keys hash 0 lib 2 ((kv.key, new_key_value) ∷ []) (some c', sent hash 0 lib kv new_handle)
        ≡ some ((kv.key, e) ∷ [], (some c'', sent hash 0 lib kv new_handle)))
    × (get_answer python zlib 1
          (record new_instruction { get_keys = merge (key_message (97 ∷ [])) e ∷ [] })
        ≡ some minus_three)
get_answer-set_internal_example =
    get_answer-set_internal python zlib merge merge_laws hash 0 lib minus_three (97 ∷ []) 60 0 2 0
      true cache new_handle prepared (omega arith) prepared_first not_empty cache-AreGood

abbrev a_header : ProtocolHeader
a_header = record {
  magic = 0x81;
  opcode = 0;
  key_length = 0;
  extra_length = 4;
  data_type = 0;
  reserved = 0;
  total_body_length = 6;
  opaque = 0;
  cas = 258;
}

a_header-Fits : Fits a_header
a_header-Fits = omega arith

parse_header-header_bytes_example :
    parse_header ((7 ∷ []) ++ (header_bytes a_header ++ replicate 6 0)) 1 reset_header
    ≡ some (pos 31, a_header)
parse_header-header_bytes_example =
    parse_header-header_bytes (7 ∷ []) a_header (replicate 6 0) reset_header a_header-Fits refl
      (omega arith)

cut_header : parse_header (replicate 23 129) 0 reset_header ≡ some (pos 0, reset_header)
unfolding parse_header
cut_header = refl
