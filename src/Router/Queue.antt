-- ===== src/Router/Queue.antt =====
-- memcache_router.cpp, class PCQueue: the queue from the router's loop to its workers.
--
-- A call holds the mutex but while it waits. `blocking_pop` is what a call does when it has the mutex:
-- `none` is that it waits. It gives whether another thread is notified. The delays that the clock
-- gives are arguments.
pub mod Batch
pub mod Fifo
pub mod Threads
use memcache_router.Prelude.{
  ℕ, ◌+◌, Bool, true, false, List, [], ◌∷◌, ◌++◌, Option, none, some, if◌then◌else◌, ltb, ◌==◌,
}
use memcache_router.Router.{Packet, is_get, get_keys_size, Stats, increment, has_any}

abbrev pub max_keys_per_request : ℕ
max_keys_per_request = 10000

pub record PcQueue : Type 0 where
  pub packets : List Packet
  pub done : Bool
  pub pop_stats : Stats
  pub push_stats : Stats

unfoldable pub new_queue : PcQueue
new_queue = record {
  packets = [];
  done = false;
  pop_stats = record { counter = 0; value = 0 };
  push_stats = record { counter = 0; value = 0 };
}

unfoldable pub unblock_all : PcQueue → PcQueue
unblock_all q = record q { done = true }

unfoldable pub reset : PcQueue → PcQueue
reset q = record q { done = false }

unfoldable pub push : ℕ → Packet → PcQueue → PcQueue
push delay p q = record q {
  packets = q.packets ++ p ∷ [];
  push_stats = increment delay q.push_stats;
}

abbrev pub with_first : Packet → List Packet × List Packet → List Packet × List Packet
with_first p (batch, rest) = (p ∷ batch, rest)

-- The loop over the front of the queue, with the keys counted so far: the packets taken, and the rest.
unfoldable pub take_batch : ℕ → List Packet → List Packet × List Packet
take_batch num_get_keys [] = ([], [])
take_batch num_get_keys (p ∷ ps) =
    let more = with_first p (take_batch (num_get_keys + get_keys_size p) ps) in
    if ltb num_get_keys max_keys_per_request
    then (if is_get p then more else if num_get_keys == 0 then (p ∷ [], ps) else ([], p ∷ ps))
    else ([], p ∷ ps)

-- The batch, whether another thread is notified, and the queue.
abbrev pub Popped : Type 0
Popped = List Packet × Bool × PcQueue

unfoldable pub pop_batch : ℕ → PcQueue → Popped
pop_batch delay q =
    let (batch, rest) = take_batch 0 q.packets in
    (batch, has_any rest, record q { packets = rest; pop_stats = increment delay q.pop_stats })

unfoldable pub blocking_pop : ℕ → PcQueue → Option Popped
unfolding pop_batch
blocking_pop delay q =
    if q.done
    then some ([], false, q)
    else if has_any q.packets
    then some (pop_batch delay q)
    else none
