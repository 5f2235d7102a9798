-- ===== src/Router/Loop.antt =====
-- memcache_router.cpp: the router's loop, PopulateStats, and the statistics that the workers merge.
--
-- Each poll gives at most one message of each socket. `parse` and `serialize` are those of the frames. A
-- message that goes to the clients' socket is one of the result's list.
pub mod Round
use memcache_router.Prelude.{
  ℕ, ◌+◌, Bool, true, false, List, [], ◌∷◌, ◌++◌, Option, none, some, if◌then◌else◌, ◌==◌,
}
use memcache_router.Prelude.Text.{Text}
use memcache_router.Cache
use memcache_router.Cache.{Cache}
use memcache_router.Cache.Buckets.{plus}
use memcache_router.Messages.{Instruction, Breakdown, StatsMessage}
use memcache_router.Router.{
  Packet, PacketType, get_packet, set_packet, increment_packet, server_list_packet, stats_packet,
  get_type, Stats,
}
use memcache_router.Router.Queue.{PcQueue, push}
use memcache_router.Router.Frames.{send_empty_packet, send_packet, receive_one_packet}
use memcache_router.Router.Hosts.{Hosts, set_memcache_servers}

abbrev pub Frames : Type 0
Frames = List Text

pub record Router : Type 0 where
  pub hosts : Hosts
  pub cache : Option Cache
  pub batch_size : Stats
  pub loop_latency : Stats
  pub packet_latency : Stats

-- `ThreadSafeStats::Merge`, with 64 bits.
unfoldable pub merge_stats : Stats → Stats → Stats
merge_stats s t = record { counter = plus t.counter s.counter; value = plus t.value s.value }

abbrev pub average : Stats → ℕ × ℕ
average s = if s.counter == 0 then (0, 1) else (s.value, s.counter)

-- `set_average` and `set_count`.
abbrev pub breakdown : Stats → Option Breakdown
breakdown s = some (record { average = some (average s); count = s.counter })

abbrev pub with_count : ℕ → Option Breakdown → Option Breakdown
with_count n none = some (record { average = none; count = n })
with_count n (some b) = some (record b { count = n })

abbrev pub mutable_stats : Option StatsMessage → StatsMessage
mutable_stats none = record {
  push_latency = none;
  pop_latency = none;
  batch_size = none;
  loop_latency = none;
  packet_latency = none;
  cache_hit = none;
  cache_miss = none;
}
mutable_stats (some s) = s

abbrev pub cache_stats : Option Cache → StatsMessage → StatsMessage
cache_stats none s = s
cache_stats (some c) s =
    let (hits, misses) = Cache.populate_stats c in
    record s {
      cache_hit = with_count hits s.cache_hit;
      cache_miss = with_count misses s.cache_miss;
    }

unfoldable pub populate_stats : Router → Packet → Packet
populate_stats r p =
    let s : StatsMessage = mutable_stats p.instruction.stats in
    let filled : StatsMessage = record s {
      push_latency = breakdown r.hosts.queue.push_stats;
      pop_latency = breakdown r.hosts.queue.pop_stats;
      batch_size = breakdown r.batch_size;
      loop_latency = breakdown r.loop_latency;
      packet_latency = breakdown r.packet_latency;
    } in
    record p { instruction = record p.instruction { stats = some (cache_stats r.cache filled) } }

unfoldable pub push_packet : ℕ → Packet → Router → Router
push_packet delay p r = record r { hosts = record r.hosts { queue = push delay p r.hosts.queue } }

abbrev pub with_hosts : Router → Packet → Option Hosts → Option (Router × List Frames)
with_hosts r p none = none
with_hosts r p (some h) = some (record r { hosts = h }, send_empty_packet p ∷ [])

abbrev pub with_answer : Router → Option Frames → Option (Router × List Frames)
with_answer r none = none
with_answer r (some fs) = some (r, fs ∷ [])

module _ (serialize : Instruction → Option Text) (num_threads : ℕ) where
  -- The branches on the type of a client's packet.
  unfoldable pub handle_packet :
      ℕ → Packet → Option PacketType → Router → Option (Router × List Frames)
  handle_packet delay p none r = none
  handle_packet delay p (some server_list_packet) r =
      with_hosts r p (set_memcache_servers num_threads p r.hosts)
  handle_packet delay p (some set_packet) r = some (push_packet delay p r, send_empty_packet p ∷ [])
  handle_packet delay p (some stats_packet) r =
      with_answer r (send_packet serialize (populate_stats r p))
  handle_packet delay p (some get_packet) r = some (push_packet delay p r, [])
  handle_packet delay p (some increment_packet) r = some (push_packet delay p r, [])

  -- The CHECK that a packet of the other socket is a SET.
  unfoldable pub handle_async :
      ℕ → Packet → Option PacketType → Router → Option (Router × List Frames)
  handle_async delay p (some set_packet) r = some (push_packet delay p r, [])
  handle_async delay p other r = none

  module _ (parse : Text → Instruction) where
    abbrev pub and_then :
        Option (Router × List Frames)
        → (Router → Option (Router × List Frames))
        → Option (Router × List Frames)
    and_then none k = none
    and_then (some (r, fs)) k = elim (k r) [ none ↦ none | some (r', gs) ↦ some (r', fs ++ gs) ]

    abbrev pub on_router : ℕ → Option Frames → Router → Option (Router × List Frames)
    on_router delay none r = some (r, [])
    on_router delay (some fs) r =
        let p : Packet = receive_one_packet parse true fs in handle_packet delay p (get_type p) r

    abbrev pub on_async : ℕ → Option Frames → Router → Option (Router × List Frames)
    on_async delay none r = some (r, [])
    on_async delay (some fs) r =
        let p : Packet = receive_one_packet parse false fs in handle_async delay p (get_type p) r

    abbrev pub on_workers : Option Frames → Router → Option (Router × List Frames)
    on_workers none r = some (r, [])
    on_workers (some fs) r = some (r, fs ∷ [])

    -- One turn of the loop, with what the poll gave.
    unfoldable pub loop_turn :
        ℕ → Option Frames × Option Frames × Option Frames → Router → Option (Router × List Frames)
    loop_turn delay (from_router, from_async, from_workers) r =
        and_then (on_router delay from_router r)
          (λ r1. and_then (on_async delay from_async r1) (on_workers from_workers))
