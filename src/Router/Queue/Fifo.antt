-- ===== src/Router/Queue/Fifo.antt =====
-- PCQueue: the packets that its callers get, over every order of their calls.
use memcache_router.Prelude.{
  ℕ, suc, ◌<◌, ◌≤◌, false, List, [], ◌∷◌, ◌++◌, append_assoc, append-nil, none, some, ◌≡◌, refl, ap,
  ◌∙◌, sym, subst, arith, length, length-append, Bool-cases, ◌⊎◌, inl, inr, ◌≡⟨◌⟩◌, ◌∎,
}
use memcache_router.Router.{Packet, has_any}
use memcache_router.Router.Queue.{
  PcQueue, Popped, push, reset, unblock_all, take_batch, pop_batch, blocking_pop,
}
use memcache_router.Router.Queue.Batch.{take_batch-append, take_batch-progress}

-- A call, with the packets that it adds and those that it takes.
pub data Call (q : PcQueue) : List Packet → List Packet → PcQueue → Type 0 where
  push_call : (delay : ℕ) (p : Packet) → Call q (p ∷ []) [] (push delay p q)
  pop_call : (delay : ℕ) (t : Popped) → blocking_pop delay q ≡ some t → Call q [] t.0 t.2
  unblock_call : Call q [] [] (unblock_all q)
  reset_call : Call q [] [] (reset q)

-- Calls one after another, whichever threads make them, with all that they add and all that they take.
pub data Calls (q : PcQueue) : List Packet → List Packet → PcQueue → Type 0 where
  none_yet : Calls q [] [] q
  then_call :
      {added taken : List Packet} {r : PcQueue}
      → Calls q added taken r
      → {more got : List Packet} {s : PcQueue} → Call r more got s
      → Calls q (added ++ more) (taken ++ got) s

pop_batch-append :
    (delay : ℕ) (q : PcQueue) → (pop_batch delay q).0 ++ (pop_batch delay q).2.packets ≡ q.packets
unfolding pop_batch
pop_batch-append delay q = take_batch-append 0 q.packets

pub blocking_pop-append :
    (delay : ℕ) (q : PcQueue) (t : Popped)
    → blocking_pop delay q ≡ some t
    → t.0 ++ t.2.packets ≡ q.packets
unfolding blocking_pop
blocking_pop-append delay q t h = elim (Bool-cases q.done) [
  | inl done ↦ ground arith
  | inr live ↦ elim (Bool-cases (has_any q.packets)) [
    | inl some_queued ↦ ground (arith, pop_batch-append delay q)
    | inr empty ↦ ground arith
  ]
]

Call-append :
    {q : PcQueue} {added taken : List Packet} {r : PcQueue}
    → Call q added taken r
    → taken ++ r.packets ≡ q.packets ++ added
unfolding push reset unblock_all
Call-append {q} (push_call delay p) = refl
Call-append {q} (pop_call delay t h) = blocking_pop-append delay q t h ∙ sym (append-nil q.packets)
Call-append {q} unblock_call = sym (append-nil q.packets)
Call-append {q} reset_call = sym (append-nil q.packets)

-- Whatever the order of the calls, the packets taken and then those left in the queue are the packets
-- that were in it and then those added: none is lost, none is taken twice, and none overtakes another.
pub Calls-append :
    {q : PcQueue} {added taken : List Packet} {r : PcQueue}
    → Calls q added taken r
    → taken ++ r.packets ≡ q.packets ++ added
Calls-append {q} none_yet = sym (append-nil q.packets)
Calls-append {q} (then_call {added} {taken} {r} cs {more} {got} {s} c) =
    (taken ++ got) ++ s.packets
    ≡⟨ append_assoc taken got s.packets ⟩ taken ++ (got ++ s.packets)
    ≡⟨ ap (λ (l : List Packet). taken ++ l) (Call-append c) ⟩ taken ++ (r.packets ++ more)
    ≡⟨ sym (append_assoc taken r.packets more) ⟩ (taken ++ r.packets) ++ more
    ≡⟨ ap (λ (l : List Packet). l ++ more) (Calls-append cs) ⟩ (q.packets ++ added) ++ more
    ≡⟨ append_assoc q.packets added more ⟩ q.packets ++ (added ++ more) ∎

prepend : List Packet → List Packet × PcQueue → List Packet × PcQueue
prepend batch (taken, q) = (batch ++ taken, q)

-- The calls of one worker after another, with the delays: all that they take, up to one that waits.
unfoldable pub pop_all : List ℕ → PcQueue → List Packet × PcQueue
unfolding prepend
pop_all [] q = ([], q)
pop_all (delay ∷ delays) q = elim (blocking_pop delay q) [
  | none ↦ ([], q)
  | some t ↦ prepend t.0 (pop_all delays t.2)
]

-- What a call does that finds packets.
Progress : ℕ → PcQueue → Type 0
Progress delay q =
    (t : Popped) × (blocking_pop delay q ≡ some t)
    × (t.0 ++ t.2.packets ≡ q.packets)
    × (length t.2.packets < length q.packets)
    × (t.2.done ≡ false)

progress :
    (delay : ℕ) (q : PcQueue)
    → q.done ≡ false
    → (p : Packet) (ps : List Packet) → q.packets ≡ p ∷ ps
    → Progress delay q
unfolding Progress blocking_pop pop_batch
progress delay q live p ps e =
    (pop_batch delay q, ground arith, pop_batch-append delay q, omega (arith, shorter), live)
  where
    shorter : length (take_batch 0 q.packets).1 < length q.packets
    shorter =
        subst (λ (l : List Packet). length (take_batch 0 l).1 < length l) (sym e)
          (omega (
            arith,
            take_batch-progress p ps,
            sym (length-append (take_batch 0 (p ∷ ps)).0 (take_batch 0 (p ∷ ps)).1)
                ∙ ap length (take_batch-append 0 (p ∷ ps)),
          ))

List-cases : (l : List Packet) → (l ≡ []) ⊎ ((p : Packet) × (ps : List Packet) × (l ≡ p ∷ ps))
List-cases [] = inl refl
List-cases (p ∷ ps) = inr (p, ps, refl)

none_left : (l : List Packet) → length l ≤ 0 → l ≡ []
none_left [] h = refl
none_left (p ∷ ps) h = absurd (omega arith)

pub empty_waits :
    (delay : ℕ) (q : PcQueue) → q.done ≡ false → q.packets ≡ [] → blocking_pop delay q ≡ none
unfolding blocking_pop
empty_waits delay q live e = ground arith

Drains : List Packet → List Packet × PcQueue → Type 0
Drains packets (taken, q) = (taken ≡ packets) × (q.packets ≡ [])

prepend-Drains :
    (batch rest packets : List Packet) (r : List Packet × PcQueue)
    → batch ++ rest ≡ packets
    → Drains rest r
    → Drains packets (prepend batch r)
unfolding Drains prepend
prepend-Drains batch rest packets (taken, q) e (all, empty) =
    (ap (λ (l : List Packet). batch ++ l) all ∙ e, empty)

abbrev AllDrain : List ℕ → Type 0
AllDrain delays =
    (r : PcQueue)
    → r.done ≡ false
    → length r.packets ≤ length delays
    → Drains r.packets (pop_all delays r)

Progress-Drains :
    (delay : ℕ) (delays : List ℕ) (q : PcQueue)
    → AllDrain delays
    → length q.packets ≤ suc (length delays)
    → Progress delay q
    → Drains q.packets (pop_all (delay ∷ delays) q)
unfolding Progress pop_all
Progress-Drains delay delays q ih h (t, popped, whole, shorter, still) =
    rw (popped, pop_all)
      (prepend-Drains t.0 t.2.packets q.packets (pop_all delays t.2) whole
        (ih t.2 still (omega (arith, shorter, h))))

drains : (delays : List ℕ) → AllDrain delays
unfolding pop_all
drains [] q live h = unfold Drains in (sym (none_left q.packets h), none_left q.packets h)
drains (delay ∷ delays) q live h = elim (List-cases q.packets) [
  | inl e ↦ rw (empty_waits delay q live e, pop_all) (unfold Drains in (sym e, e))
  | inr (p, ps, e) ↦ Progress-Drains delay delays q (drains delays) h (progress delay q live p ps e)
]

-- While the queue is not shut, as many calls as it holds packets take all of them, in their order, and
-- leave it empty: a call that finds a packet takes one at least, and none waits before the last is taken.
pub pop_all-drains :
    (delays : List ℕ) (q : PcQueue)
    → q.done ≡ false
    → length q.packets ≤ length delays
    → ((pop_all delays q).0 ≡ q.packets) × ((pop_all delays q).1.packets ≡ [])
unfolding Drains
pop_all-drains delays q live h = drains delays q live h
