-- ===== src/Router/Loop/Round.antt =====
-- A GET from the client's frames to the answer's frames, through the loop, the queue and a worker.
use memcache_router.Prelude.{
  ℕ, ◌<◌, true, false, List, [], ◌∷◌, ◌++◌, Option, none, some, ◌≡◌, ◌≢◌, sym, subst, ap, ◌∙◌,
  arith, All,
}
use memcache_router.Prelude.Text.{Text}
use memcache_router.Messages.{Instruction, KeyValue}
use memcache_router.MemClient.{Memcached}
use memcache_router.MemClient.Fetches.{FetchLaws, Asks}
use memcache_router.Router.{Packet, is_get, get_keys_size}
use memcache_router.Router.Queue.{PcQueue, push, take_batch, pop_batch, blocking_pop}
use memcache_router.Router.Queue.Batch.{count_keys}
use memcache_router.Router.Frames.{send_packet, receive_one_packet, receive_one_packet-send_packet}
use memcache_router.Router.Workers.{process_packets}
use memcache_router.Router.Workers.Gets.{insert_all, reply, process_packets-AreGets, get_type_get}
use memcache_router.Router.Loop.{Router, Frames, push_packet, handle_packet, loop_turn}
use memcache_router.Cache.Buckets.Valid.{some-injective}

take_single : (p : Packet) → is_get p ≡ true → take_batch 0 (p ∷ []) ≡ (p ∷ [], [])
unfolding take_batch
take_single p g = rw g

queue_behind : ℕ → PcQueue → PcQueue
queue_behind d q = (pop_batch d q).2

pop_one :
    (d : ℕ) (p : Packet) (q : PcQueue)
    → is_get p ≡ true
    → q.packets ≡ p ∷ []
    → q.done ≡ false
    → blocking_pop d q ≡ some (p ∷ [], false, queue_behind d q)
unfolding blocking_pop pop_batch queue_behind
pop_one d p q g e live =
    let batch : take_batch 0 q.packets ≡ (p ∷ [], []) = ap (take_batch 0) e ∙ take_single p g in
    ground (arith, live, e, batch)

pop-push :
    (delay d : ℕ) (p : Packet) (q : PcQueue)
    → is_get p ≡ true
    → q.packets ≡ []
    → q.done ≡ false
    → blocking_pop d (push delay p q) ≡ some (p ∷ [], false, queue_behind d (push delay p q))
unfolding push
pop-push delay d p q g e live =
    pop_one d p (push delay p q) g (ap (λ (l : List Packet). l ++ p ∷ []) e) live

-- The frames of a packet that was sent are received as the packet.
received :
    (parse : Text → Instruction) (serialize : Instruction → Option Text) (p : Packet) (t : Text)
    (fs : Frames)
    → All (λ f. f ≢ []) p.frame_ids
    → serialize p.instruction ≡ some t
    → parse t ≡ p.instruction
    → send_packet serialize p ≡ some fs
    → receive_one_packet parse true fs ≡ p
received parse serialize p t fs ids e back sent =
    let (gs, sent', got, _) = receive_one_packet-send_packet parse serialize p t ids e back in
    subst (λ (l : Frames). receive_one_packet parse true l ≡ p) (some-injective (sym sent' ∙ sent))
      got

module _ (parse : Text → Instruction) (serialize : Instruction → Option Text)
    (num_threads : ℕ) where
  takes_frames :
      (delay : ℕ) (fs : Frames) (r : Router)
      → is_get (receive_one_packet parse true fs) ≡ true
      → loop_turn serialize num_threads parse delay (some fs, none, none) r
        ≡ some (push_packet delay (receive_one_packet parse true fs) r, [])
  unfolding loop_turn handle_packet
  takes_frames delay fs r g = rw (get_type_get (receive_one_packet parse true fs) g, handle_packet)

  takes_in :
      (delay : ℕ) (p : Packet) (fs : Frames) (r : Router)
      → receive_one_packet parse true fs ≡ p
      → is_get p ≡ true
      → loop_turn serialize num_threads parse delay (some fs, none, none) r
        ≡ some (push_packet delay p r, [])
  takes_in delay p fs r e g =
      takes_frames delay fs r (ap is_get e ∙ g)
      ∙ ap (λ (q : Packet). some (push_packet delay q r, [])) e

  module _ (merge : KeyValue → KeyValue → KeyValue) (str_hash : Text → ℕ) (unset : ℕ)
      (lib : Memcached) (laws : FetchLaws lib) where
    open laws use {server}

    -- A client's GET, where the router's queue is empty and not shut, there is no cache, the request
    -- for its keys to the servers succeeds, the ids of its frames are not empty, its message and that
    -- of the answer are serialized and parsed back, and there is fuel for its keys: the loop takes its
    -- frames and sends nothing; a worker that looks at the queue gets the packet alone and notifies no
    -- other; its turn ends and sends one packet; and the frames of that one, received, are the GET
    -- with its frame ids and each key merged with what the servers give for it.
    pub loop_turn-process_packets :
        (r : Router) (p : Packet) (memc memc1 : Memcached.Memc lib) (delay d fuel : ℕ) (t u : Text)
        (fs : Frames)
        → is_get p ≡ true
        → All (λ f. f ≢ []) p.frame_ids
        → serialize p.instruction ≡ some t
        → parse t ≡ p.instruction
        → send_packet serialize p ≡ some fs
        → r.hosts.queue.packets ≡ []
        → r.hosts.queue.done ≡ false
        → get_keys_size p < fuel
        → Asks lib (insert_all (p ∷ []) []) memc memc1
        → serialize (reply merge lib (server memc) p).instruction ≡ some u
        → parse u ≡ (reply merge lib (server memc) p).instruction
        → (r' : Router) × (q' : PcQueue) × (memc' : Memcached.Memc lib) × (gs : Frames) × (loop_turn
              serialize num_threads parse delay
              (some fs, none, none)
              r
            ≡ some (r', []))
          × (blocking_pop d r'.hosts.queue ≡ some (p ∷ [], false, q'))
          × (process_packets merge str_hash unset lib fuel (p ∷ []) (none, memc)
              ≡ some (reply merge lib (server memc) p ∷ [], (none, memc')))
          × (send_packet serialize (reply merge lib (server memc) p) ≡ some gs)
          × (receive_one_packet parse true gs ≡ reply merge lib (server memc) p)
    unfolding push_packet count_keys
    loop_turn-process_packets r p memc memc1 delay d fuel t u fs g ids e back sent empty live enough
          asks e' back' =
        let (memc', answers) =
          process_packets-AreGets str_hash unset lib merge laws fuel p [] memc memc1 (g, tt)
            (omega (arith, enough)) asks in
        let (gs, sent', got, _) =
          receive_one_packet-send_packet parse serialize (reply merge lib (server memc) p) u ids e'
            back' in
        (
          push_packet delay p r,
          queue_behind d (push delay p r.hosts.queue),
          memc',
          gs,
          takes_in delay p fs r (received parse serialize p t fs ids e back sent) g,
          pop-push delay d p r.hosts.queue g empty live,
          answers,
          sent',
          got,
        )
