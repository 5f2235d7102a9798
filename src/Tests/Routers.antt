-- ===== src/Tests/Routers.antt =====
-- Runs of the router's queue, loop and workers.
use memcache_router.Prelude.{
  ℕ, ◌<◌, ◌≤◌, true, false, List, [], ◌∷◌, ◌++◌, map, length, All, Option, none, some, ◌≡◌, ◌≢◌,
  ◌⊎◌, refl, arith,
}
use memcache_router.Prelude.Text.{Text, text_eq}
use memcache_router.ConsistentHash.{Server}
use memcache_router.Messages.{KeyValue, new_key_value, Instruction, new_instruction}
use memcache_router.MemClient.{
  Entries, find_entry, get_keys, set_result, mget_keys, any_zero, has_zero,
}
use memcache_router.MemClient.Fetches.{Asks, is_key, keys_of, get_keys_lem, answered}
use memcache_router.Router.{Packet, is_get}
use memcache_router.Router.Queue.{
  PcQueue, Popped, new_queue, push, take_batch, pop_batch, blocking_pop,
}
use memcache_router.Router.Queue.Batch.{take_batch_lem, count_keys, IsSingle, IsGetBatch}
use memcache_router.Router.Queue.Fifo.{
  none_yet, then_call, push_call, pop_call, Calls-append, pop_all, pop_all-drains,
}
use memcache_router.Router.Queue.Threads.{
  Phase, Pool, Steps, here, then_step, decide_step, wait_step, IsLive, IsStuck, Steps-IsLive,
  lost_wakeup,
}
use memcache_router.Router.Frames.{new_packet, send_packet, receive_one_packet}
use memcache_router.Router.Hosts.{
  Hosts, Handled, set_memcache_servers, set_memcache_servers-Handled,
}
use memcache_router.Router.Workers.{process_packets, insert_keys, insert_key, text_ltb}
use memcache_router.Router.Workers.Gets.{insert_all, reply, fetched, process_packets-AreGets}
use memcache_router.Router.Loop.{Router, Frames, loop_turn}
use memcache_router.Router.Loop.Round.{loop_turn-process_packets}
use memcache_router.Tests.Libraries
use memcache_router.Tests.Libraries.{lib, new_handle, fetch_laws, held, merge, one_entry}

abbrev key : Text → KeyValue
key k = record new_key_value { key = k }

abbrev get_packet_of : List Text → Packet
get_packet_of keys = record {
  frame_ids = (99 ∷ []) ∷ [];
  instruction = record new_instruction { get_keys = map key keys };
}

abbrev set_packet_of : Text → Packet
set_packet_of k = record {
  frame_ids = (99 ∷ []) ∷ [];
  instruction = record new_instruction { set_keys = key k ∷ [] };
}

abbrev one_get : Packet
one_get = get_packet_of ((97 ∷ []) ∷ [])

abbrev two_keys : Packet
two_keys = get_packet_of ((97 ∷ []) ∷ (98 ∷ []) ∷ [])

abbrev a_set : Packet
a_set = set_packet_of (97 ∷ [])

take_batch_lem_example :
    ((take_batch 0 (one_get ∷ a_set ∷ [])).0 ++ (take_batch 0 (one_get ∷ a_set ∷ [])).1
      ≡ one_get ∷ a_set ∷ [])
    × (IsSingle (take_batch 0 (one_get ∷ a_set ∷ [])).0
        ⊎ IsGetBatch 0 (take_batch 0 (one_get ∷ a_set ∷ [])))
take_batch_lem_example = take_batch_lem (one_get ∷ a_set ∷ [])

batch_of_gets :
    take_batch 0 (one_get ∷ two_keys ∷ a_set ∷ []) ≡ (one_get ∷ two_keys ∷ [], a_set ∷ [])
unfolding take_batch is_get
batch_of_gets = refl

single_set : take_batch 0 (a_set ∷ one_get ∷ []) ≡ (a_set ∷ [], one_get ∷ [])
unfolding take_batch is_get
single_set = refl

abbrev two_queued : PcQueue
two_queued = push 3 one_get (push 2 a_set new_queue)

abbrev some_popped : Popped
some_popped = (a_set ∷ [], true, (pop_batch 1 two_queued).2)

popped_first : blocking_pop 1 two_queued ≡ some some_popped
unfolding blocking_pop pop_batch take_batch is_get push new_queue
popped_first = refl

Calls-append_example :
    (a_set ∷ []) ++ (pop_batch 1 two_queued).2.packets ≡ [] ++ (a_set ∷ one_get ∷ [])
unfolding new_queue
Calls-append_example = Calls-append (
    then_call (then_call (then_call none_yet (push_call 2 a_set)) (push_call 3 one_get))
      (pop_call 1 some_popped popped_first))

live_queue : two_queued.done ≡ false
unfolding push new_queue
live_queue = refl

two_packets : length two_queued.packets ≤ 2
unfolding push new_queue
two_packets = omega arith

pop_all-drains_example :
    ((pop_all (1 ∷ 1 ∷ []) two_queued).0 ≡ two_queued.packets)
    × ((pop_all (1 ∷ 1 ∷ []) two_queued).1.packets ≡ [])
pop_all-drains_example = pop_all-drains (1 ∷ 1 ∷ []) two_queued live_queue two_packets

abbrev two_workers : Pool
two_workers = record {
  queue = new_queue;
  phase = Phase.serving;
  working = 2;
  deciding = false;
  asleep = 0;
}

two_workers-IsLive : IsLive two_workers
two_workers-IsLive = record { decided = λ e. cc; awake = λ e n h. omega arith }

waits_first : blocking_pop 0 new_queue ≡ none
unfolding blocking_pop new_queue
waits_first = refl

abbrev asleep_one : Pool
asleep_one = record {
  queue = new_queue;
  phase = Phase.serving;
  working = 1;
  deciding = false;
  asleep = 1;
}

Steps-IsLive_example : IsLive asleep_one
Steps-IsLive_example =
    Steps-IsLive two_workers-IsLive
      (then_step (then_step here (decide_step 0 (omega arith) refl waits_first)) (wait_step refl))

empty_at_first : new_queue.packets ≡ []
unfolding new_queue
empty_at_first = refl

live_at_first : new_queue.done ≡ false
unfolding new_queue
live_at_first = refl

lost_wakeup_example : (t : Pool) × Steps two_workers t × IsStuck t
lost_wakeup_example = lost_wakeup two_workers refl refl (omega arith) empty_at_first live_at_first

abbrev host : Text → Server
host name = record { hostname = name; port = 11211 }

abbrev servers_of : List Server → Packet
servers_of ss = record new_packet { instruction = record new_instruction { servers = ss } }

abbrev kept_one : Hosts
kept_one = record {
  server_list = some (servers_of (host (97 ∷ []) ∷ []));
  queue = new_queue;
  threads = 2;
}

set_memcache_servers-Handled_example :
    Handled 2
      (servers_of (host (97 ∷ []) ∷ host (98 ∷ []) ∷ []))
      kept_one
      (host (97 ∷ []) ∷ [])
      (set_memcache_servers 2 (servers_of (host (97 ∷ []) ∷ host (98 ∷ []) ∷ [])) kept_one)
set_memcache_servers-Handled_example =
    set_memcache_servers-Handled 2 (servers_of (host (97 ∷ []) ∷ []))
      (servers_of (host (97 ∷ []) ∷ host (98 ∷ []) ∷ [])) kept_one refl

abbrev hash : Text → ℕ
hash k = 0

gets_only : All (λ p. is_get p ≡ true) (two_keys ∷ one_get ∷ [])
unfolding is_get
gets_only = (refl, (refl, tt))

three_keys : count_keys (two_keys ∷ one_get ∷ []) < 4
unfolding count_keys
three_keys = omega arith

-- The handle behind a request for the entry that the server has.
abbrev asked_handle : Libraries.Handle
asked_handle = record new_handle { pending = held ∷ [] }

two_keys-Asks : Asks lib (insert_all (two_keys ∷ one_get ∷ []) []) new_handle asked_handle
unfolding Asks insert_all insert_keys insert_key text_ltb text_eq mget_keys any_zero has_zero is_key
    keys_of
two_keys-Asks = refl

one_key-Asks : Asks lib ((97 ∷ [], new_key_value) ∷ []) new_handle asked_handle
unfolding Asks text_eq mget_keys any_zero has_zero is_key keys_of
one_key-Asks = refl

one_get-Asks : Asks lib (insert_all (one_get ∷ []) []) new_handle asked_handle
unfolding Asks insert_all insert_keys insert_key mget_keys any_zero has_zero is_key text_eq keys_of
one_get-Asks = refl

process_packets-AreGets_example :
    (memc' : Libraries.Handle) × (process_packets merge hash 0 lib 4
        (two_keys ∷ one_get ∷ [])
        (none, new_handle)
      ≡ some (map (reply merge lib one_entry) (two_keys ∷ one_get ∷ []), (none, memc')))
process_packets-AreGets_example =
    process_packets-AreGets hash 0 lib merge fetch_laws 4 two_keys (one_get ∷ []) new_handle
      asked_handle gets_only three_keys two_keys-Asks

-- The key of the second packet has a zero byte.
abbrev bad_get : Packet
bad_get = get_packet_of ((97 ∷ 0 ∷ []) ∷ [])

get_keys_lem_example :
    (m' : Entries) × (memc' : Libraries.Handle) × (get_keys hash 0 lib 2
        ((97 ∷ [], new_key_value) ∷ [])
        (none, new_handle)
      ≡ some (m', (none, memc')))
    × ((k : Text)
        → find_entry k m'
          ≡ answered lib (one_entry k) (find_entry k ((97 ∷ [], new_key_value) ∷ [])))
get_keys_lem_example =
    get_keys_lem lib hash 0 fetch_laws 2 ((97 ∷ [], new_key_value) ∷ []) new_handle asked_handle
      (omega arith) one_key-Asks

abbrev answer : Packet
answer = reply merge lib one_entry one_get

abbrev first_value : List KeyValue → Text
first_value [] = []
first_value (kv ∷ kvs) = kv.val

abbrev serialize : Instruction → Option Text
serialize i = some (first_value i.get_keys)

abbrev parse : Text → Instruction
parse [] = one_get.instruction
parse (c ∷ t) = answer.instruction

abbrev router : Router
router = record {
  hosts = kept_one;
  cache = none;
  batch_size = record { counter = 0; value = 0 };
  loop_latency = record { counter = 0; value = 0 };
  packet_latency = record { counter = 0; value = 0 };
}

one_is_get : is_get one_get ≡ true
unfolding is_get
one_is_get = refl

id_filled : All (λ f. f ≢ []) one_get.frame_ids
id_filled = (λ e. cc, tt)

abbrev one_frames : Frames
one_frames = (99 ∷ []) ∷ [] ∷ [] ∷ []

one_sent : send_packet serialize one_get ≡ some one_frames
unfolding send_packet
one_sent = refl

answer_serialized : serialize answer.instruction ≡ some (49 ∷ [])
unfolding fetched set_result text_eq
answer_serialized = refl

loop_turn-process_packets_example :
    (r' : Router) × (q' : PcQueue) × (memc' : Libraries.Handle) × (gs : Frames) × (loop_turn
        serialize 2 parse 5
        (some one_frames, none, none)
        router
      ≡ some (r', []))
    × (blocking_pop 6 r'.hosts.queue ≡ some (one_get ∷ [], false, q'))
    × (process_packets merge hash 0 lib 2 (one_get ∷ []) (none, new_handle)
        ≡ some (answer ∷ [], (none, memc')))
    × (send_packet serialize answer ≡ some gs)
    × (receive_one_packet parse true gs ≡ answer)
loop_turn-process_packets_example =
    loop_turn-process_packets parse serialize 2 merge hash 0 lib fetch_laws router one_get
      new_handle asked_handle 5 6 2 [] (49 ∷ []) one_frames one_is_get id_filled refl refl one_sent
      empty_at_first live_at_first (omega arith) one_get-Asks answer_serialized refl
