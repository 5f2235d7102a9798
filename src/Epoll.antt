-- ===== src/Epoll.antt =====
-- epoll.py: the server's loop over the events of its sockets.
--
-- A connection is known by its descriptor, so that the dict `connections` is the list of its keys.
-- What the kernel answers (the events, the descriptor of an accepted connection, whether a receive has
-- data) is part of an event; what the loop asks of the kernel is the list of its calls, latest first.
-- Errors of these calls are not modelled; a missing key of `connections` is.
pub mod Watch
pub mod Serve
pub mod Polls
use memcache_router.Prelude.{ℕ, Bool, true, false, List, [], ◌∷◌, ◌==◌, ◌||◌, if◌then◌else◌}

pub data Interest : Type 0 where
  for_input for_output : Interest

pub data KernelCall : Type 0 where
  register : ℕ → Interest → KernelCall
  unregister : ℕ → KernelCall
  modify : ℕ → Interest → KernelCall
  accept : KernelCall
  receive : ℕ → KernelCall
  send : ℕ → KernelCall
  close : ℕ → KernelCall
  close_epoll : KernelCall

-- An event with its bits EPOLLIN, EPOLLOUT and EPOLLHUP. `accepted` and `has_data` are what `accept`
-- and `recv` give, where they are called.
pub record Event : Type 0 where
  pub fileno : ℕ
  pub readable : Bool
  pub writable : Bool
  pub hung_up : Bool
  pub accepted : ℕ
  pub has_data : Bool

pub record Loop : Type 0 where
  pub connections : List ℕ
  pub calls : List KernelCall

-- The loop goes on, or a KeyError ends it.
pub data Outcome : Type 0 where
  continues : Loop → Outcome
  key_error : Loop → Outcome

unfoldable pub has : ℕ → List ℕ → Bool
has f [] = false
has f (g ∷ gs) = f == g || has f gs

unfoldable pub remove : ℕ → List ℕ → List ℕ
remove f [] = []
remove f (g ∷ gs) = let rest = remove f gs in if f == g then rest else g ∷ rest

abbrev pub log : KernelCall → Loop → Loop
log c s = record s { calls = c ∷ s.calls }

unfoldable pub open_server : ℕ → Loop
open_server server = record { connections = []; calls = register server for_input ∷ [] }

unfoldable pub accept_connection : ℕ → Loop → Loop
accept_connection f s = record {
  connections = f ∷ remove f s.connections;
  calls = register f for_input ∷ accept ∷ s.calls;
}

unfoldable pub receive_data : ℕ → Bool → Loop → Outcome
receive_data f has_data s =
    if has f s.connections
    then continues (if has_data then log (receive f) s else log (unregister f) (log (receive f) s))
    else key_error s

unfoldable pub acknowledge : ℕ → Loop → Outcome
acknowledge f s =
    if has f s.connections
    then continues (log (modify f for_input) (log (send f) s))
    else key_error s

unfoldable pub hang_up : ℕ → Loop → Outcome
hang_up f s =
    if has f s.connections
    then continues
        (record { connections = remove f s.connections; calls = close f ∷ unregister f ∷ s.calls })
    else key_error (log (unregister f) s)

unfoldable pub handle : ℕ → Event → Loop → Outcome
handle server e s =
    if e.fileno == server
    then continues (accept_connection e.accepted s)
    else if e.readable
    then receive_data e.fileno e.has_data s
    else if e.writable
    then acknowledge e.fileno s
    else if e.hung_up
    then hang_up e.fileno s
    else continues s

-- The `finally` clause.
unfoldable pub shut_down : ℕ → Loop → Loop
shut_down server s = record s { calls = close server ∷ close_epoll ∷ unregister server ∷ s.calls }
