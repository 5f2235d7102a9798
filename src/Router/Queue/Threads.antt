-- ===== src/Router/Queue/Threads.antt =====
-- memcache_router.cpp: the workers and the router's loop around PCQueue, one step at a time.
--
-- `working` threads hold no place in the queue, `deciding` is that one has the mutex and has found that
-- it must wait, `asleep` threads wait on the condition. The loop pushes while it serves, and runs
-- BlockingWait and InitThreads in the order of its phases. UnblockAll does not take the mutex. A thread
-- that was notified and one between two turns of its loop are not told apart, and no thread wakes
-- without a notification.
use memcache_router.Prelude.{
  ℕ, zero, suc, ◌+◌, ◌-◌, ◌<◌, Bool, true, false, List, [], ◌∷◌, none, some, if◌then◌else◌, ◌==◌,
  ◌≡◌, ◌≢◌, refl, arith,
}
use memcache_router.Router.{Packet, has_any}
use memcache_router.Router.Queue.{PcQueue, Popped, push, reset, unblock_all, blocking_pop}
use memcache_router.Router.Queue.Fifo.{empty_waits}

-- What the loop's thread does: `stopping` is that the router's `done_` is set, `unblocking` that the
-- queue's is, `joining` that the threads were notified.
pub data Phase : Type 0 where
  serving stopping unblocking joining : Phase

pub record Pool : Type 0 where
  pub queue : PcQueue
  pub phase : Phase
  pub working : ℕ
  pub deciding : Bool
  pub asleep : ℕ

abbrev pub notify_one : Pool → Pool
notify_one s =
    if s.asleep == 0 then s else record s { working = s.working + 1; asleep = s.asleep - 1 }

abbrev pub notify_all : Pool → Pool
notify_all s = record s { working = s.working + s.asleep; asleep = 0 }

abbrev pub popped : Popped → Pool → Pool
popped (batch, others, q) s =
    let s' : Pool = record s { queue = q } in if others then notify_one s' else s'

abbrev IsWorking : Pool → Type 0
IsWorking s = (0 < s.working) × (s.deciding ≡ false)

pub data Step (s : Pool) : Pool → Type 0 where
  push_step :
      (delay : ℕ) (p : Packet)
      → s.phase ≡ Phase.serving
      → s.deciding ≡ false
      → Step s (notify_one (record s { queue = push delay p s.queue }))
  pop_step :
      (delay : ℕ) (t : Popped)
      → 0 < s.working
      → s.deciding ≡ false
      → blocking_pop delay s.queue ≡ some t
      → Step s (popped t s)
  decide_step :
      (delay : ℕ)
      → 0 < s.working
      → s.deciding ≡ false
      → blocking_pop delay s.queue ≡ none
      → Step s (record s { working = s.working - 1; deciding = true })
  wait_step : s.deciding ≡ true → Step s (record s { deciding = false; asleep = s.asleep + 1 })
  leave_step :
      0 < s.working → s.phase ≢ Phase.serving → Step s (record s { working = s.working - 1 })
  stop_step : s.phase ≡ Phase.serving → Step s (record s { phase = Phase.stopping })
  unblock_step :
      s.phase ≡ Phase.stopping
      → Step s (record s { queue = unblock_all s.queue; phase = Phase.unblocking })
  notify_step :
      s.phase ≡ Phase.unblocking → Step s (record (notify_all s) { phase = Phase.joining })
  restart_step :
      (num_threads : ℕ)
      → s.phase ≡ Phase.joining
      → s.working ≡ 0
      → s.deciding ≡ false
      → s.asleep ≡ 0
      → Step s (record s { queue = reset s.queue; phase = Phase.serving; working = num_threads })

pub data Steps (s : Pool) : Pool → Type 0 where
  here : Steps s s
  then_step : {t u : Pool} → Steps s t → Step t u → Steps s u

-- A thread that has decided to wait did so on an empty queue, and while the loop serves packets are not
-- left to sleepers.
pub record IsLive (s : Pool) : Type 0 where
  pub decided : s.deciding ≡ true → s.queue.packets ≡ []
  pub awake : s.phase ≡ Phase.serving → s.queue.packets ≢ [] → 0 < s.asleep → 0 < s.working

none-empty : (delay : ℕ) (q : PcQueue) → blocking_pop delay q ≡ none → q.packets ≡ []
unfolding blocking_pop
none-empty delay q h = ground (arith, has_any_none q.packets)
  where
    has_any_none : (l : List Packet) → has_any l ≡ false → l ≡ []
    has_any_none [] e = refl
    has_any_none (p ∷ ps) e = cc

popped-IsLive : (s : Pool) (t : Popped) → 0 < s.working → s.deciding ≡ false → IsLive (popped t s)
popped-IsLive s (batch, true, q) h e = ground arith
popped-IsLive s (batch, false, q) h e = ground arith

Step-IsLive : {s t : Pool} → IsLive s → Step s t → IsLive t
unfolding push unblock_all reset
Step-IsLive {s} v (push_step delay p serves e) = ground arith
Step-IsLive {s} v (pop_step delay t h e got) = popped-IsLive s t h e
Step-IsLive {s} v (decide_step delay h e waits) = ground (arith, none-empty delay s.queue waits)
Step-IsLive {s} v (wait_step e) = ground arith
Step-IsLive {s} v (leave_step h other) = ground arith
Step-IsLive {s} v (stop_step e) = ground arith
Step-IsLive {s} v (unblock_step e) = ground arith
Step-IsLive {s} v (notify_step e) = ground arith
Step-IsLive {s} v (restart_step num_threads e none_working decides none_asleep) = ground arith

-- In every order of the steps: a worker that has decided to wait did so on an empty queue; and while the
-- loop serves and packets are queued, a worker is awake wherever one sleeps.
pub Steps-IsLive : {s t : Pool} → IsLive s → Steps s t → IsLive t
Steps-IsLive v here = v
Steps-IsLive v (then_step steps step) = Step-IsLive (Steps-IsLive v steps) step

-- BlockingWait joins, and a worker sleeps that nothing wakes.
pub record IsStuck (s : Pool) : Type 0 where
  pub joins : s.phase ≡ Phase.joining
  pub sleeper : 0 < s.asleep
  pub final : (t : Pool) → ¬ Step s t

Step-absurd :
    {s t : Pool}
    → s.phase ≡ Phase.joining
    → s.working ≡ 0
    → s.deciding ≡ false
    → 0 < s.asleep
    → ¬ Step s t
Step-absurd j w d a (push_step delay p serves e) = cc
Step-absurd j w d a (pop_step delay t h e got) = absurd (omega arith)
Step-absurd j w d a (decide_step delay h e waits) = absurd (omega arith)
Step-absurd j w d a (wait_step e) = cc
Step-absurd j w d a (leave_step h other) = absurd (omega arith)
Step-absurd j w d a (stop_step e) = cc
Step-absurd j w d a (unblock_step e) = cc
Step-absurd j w d a (notify_step e) = cc
Step-absurd j w d a (restart_step num_threads e none_working decides none_asleep) =
    absurd (omega arith)

leave_all :
    {r : Pool} (k : ℕ) (s : Pool)
    → Steps r s
    → s.working ≡ k
    → s.phase ≡ Phase.joining
    → s.deciding ≡ false
    → 0 < s.asleep
    → (t : Pool) × Steps r t × IsStuck t
leave_all zero s steps w j d a =
    (s, steps, record { joins = j; sleeper = a; final = λ t. Step-absurd j w d a })
leave_all (suc k) s steps w j d a =
    leave_all k (record s { working = s.working - 1 })
      (then_step steps (leave_step (omega (arith, w)) (λ e. cc))) (omega (arith, w)) j d a

-- From every state in which the loop serves, the queue is empty and not shut, and a worker is about to
-- look at it, BlockingWait can come to wait for ever: the worker decides to wait, UnblockAll sets its
-- flag and notifies before the worker sleeps, the other workers leave, and no step is left.
pub lost_wakeup :
    (s : Pool)
    → s.phase ≡ Phase.serving
    → s.deciding ≡ false
    → 0 < s.working
    → s.queue.packets ≡ []
    → s.queue.done ≡ false
    → (t : Pool) × Steps s t × IsStuck t
lost_wakeup s p d w e live =
    leave_all (s.working - 1 + s.asleep) _
      (then_step
        (then_step
          (then_step
            (then_step (then_step here (decide_step 0 w d (empty_waits 0 s.queue live e)))
              (stop_step p))
            (unblock_step refl))
          (notify_step refl))
        (wait_step refl))
      refl refl refl (omega arith)
