-- ===== src/Tests/Servers.antt =====
-- Runs of the loop of epoll.py: a client connects to the server at descriptor 3 and closes.
use memcache_router.Prelude.{true, false, [], ◌∷◌, ◌≡◌, refl, inr}
use memcache_router.Epoll.{
  register, unregister, receive, accept, for_input, Event, Loop, continues, has, remove,
  open_server, accept_connection, receive_data, handle, shut_down,
}
use memcache_router.Epoll.Watch.{watched, IsLegal, count_sends, count_closes}
use memcache_router.Epoll.Serve.{IsGivenUp}
use memcache_router.Epoll.Polls.{
  IsReached, opened, polled, handled, IsReached-handle, IsReached-shut_down, IsGivenUp-handle,
}

abbrev connecting : Event
connecting = record {
  fileno = 3;
  readable = true;
  writable = false;
  hung_up = false;
  accepted = 5;
  has_data = false;
}

abbrev closing : Event
closing = record {
  fileno = 5;
  readable = true;
  writable = false;
  hung_up = true;
  accepted = 0;
  has_data = false;
}

abbrev connected : Loop
connected = record {
  connections = 5 ∷ [];
  calls = register 5 for_input ∷ accept ∷ register 3 for_input ∷ [];
}

abbrev closed : Loop
closed = record { connections = 5 ∷ []; calls = unregister 5 ∷ receive 5 ∷ connected.calls }

abbrev again : Event
again = record connecting { accepted = 6 }

abbrev later : Loop
later = record { connections = 6 ∷ 5 ∷ []; calls = register 6 for_input ∷ accept ∷ closed.calls }

run_connecting : handle 3 connecting (open_server 3) ≡ continues connected
unfolding handle open_server accept_connection remove
run_connecting = refl

run_closing : handle 3 closing connected ≡ continues closed
unfolding handle receive_data has
run_closing = refl

run_again : handle 3 again closed ≡ continues later
unfolding handle accept_connection remove
run_again = refl

reached_connecting : IsReached 3 (open_server 3) (connecting ∷ [])
unfolding open_server watched has
reached_connecting = polled (connecting ∷ []) opened (refl, (λ e. cc), tt, tt)

reached_closing : IsReached 3 connected (closing ∷ [])
unfolding open_server watched has
reached_closing =
    polled (closing ∷ []) (handled reached_connecting (λ e. (refl, refl)) run_connecting)
      (refl, (λ e. cc), tt, tt)

reached_again : IsReached 3 closed (again ∷ [])
unfolding watched has remove
reached_again =
    polled (again ∷ []) (handled reached_closing (λ e. cc) run_closing) (refl, (λ e. cc), tt, tt)

IsReached-handle_example : (s' : Loop) × (handle 3 closing connected ≡ continues s')
IsReached-handle_example = IsReached-handle 3 connected closing [] reached_closing (λ e. cc)

IsReached-shut_down_example :
    IsLegal (shut_down 3 closed).calls × (count_sends (shut_down 3 closed).calls ≡ 0)
IsReached-shut_down_example = IsReached-shut_down 3 closed (again ∷ []) reached_again

IsGivenUp-handle_example :
    IsGivenUp 5 closed × (count_closes 5 closed.calls ≡ count_closes 5 connected.calls)
IsGivenUp-handle_example =
    IsGivenUp-handle 3 5 connected closed closing [] reached_closing (λ e. cc) run_closing
      (inr (refl, refl, refl, refl))
