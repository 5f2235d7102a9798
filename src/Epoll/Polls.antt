-- ===== src/Epoll/Polls.antt =====
-- Runs of the loop of epoll.py: a poll gives events of registered descriptors, each once, and they are
-- handled in order.
use memcache_router.Prelude.{
  ℕ, Bool, true, false, List, [], ◌∷◌, ◌≡◌, refl, sym, ap, subst, ◌∙◌, ◌==◌, ==_refl, ==_iff,
  if◌then◌else◌, Bool-cases, ◌⊎◌, inl, inr, arith,
}
use memcache_router.Epoll.{
  Event, Loop, Outcome, continues, key_error, has, open_server, accept_connection, receive_data,
  acknowledge, hang_up, handle, shut_down,
}
use memcache_router.Epoll.Watch.{
  watched, watched_for_output, IsLegal, count_sends, count_closes, has-remove, true_or_false,
}
use memcache_router.Epoll.Serve.{
  IsSound, IsGivenUp, KeepsOthers, Goes, accept_connection-IsSound, accept_connection-KeepsOthers,
  receive_data-Goes, hang_up-Goes,
}

-- `accept` gives a descriptor that is not open.
abbrev pub IsFresh : ℕ → Event → Loop → Type 0
IsFresh server e s =
    (e.fileno == server) ≡ true
    → (has e.accepted s.connections ≡ false) × ((e.accepted == server) ≡ false)

abbrev pub Others : ℕ → List Event → Type 0
Others f [] = Unit
Others f (e ∷ es) = ((e.fileno == f) ≡ false) × Others f es

-- Events that a poll can give: of registered descriptors, each once, and with EPOLLOUT only for those
-- registered for output.
abbrev pub AreOffered : List Event → Loop → Type 0
AreOffered [] s = Unit
AreOffered (e ∷ es) s =
    (has e.fileno (watched s.calls) ≡ true)
    × (e.writable ≡ true → has e.fileno (watched_for_output s.calls) ≡ true)
    × Others e.fileno es
    × AreOffered es s

-- The states of the loop, with the events of the last poll that are still to be handled.
pub data IsReached (server : ℕ) : Loop → List Event → Type 0 where
  opened : IsReached server (open_server server) []
  polled :
      {s : Loop} (es : List Event) → IsReached server s [] → AreOffered es s → IsReached server s es
  handled :
      {s s' : Loop} {e : Event} {es : List Event}
      → IsReached server s (e ∷ es)
      → IsFresh server e s
      → handle server e s ≡ continues s'
      → IsReached server s' es

abbrev ArePending : List Event → Loop → Type 0
ArePending [] s = Unit
ArePending (e ∷ es) s =
    (has e.fileno (watched s.calls) ≡ true)
    × (e.writable ≡ false)
    × Others e.fileno es
    × ArePending es s

not_writable : (b : Bool) (f : ℕ) (gs : List ℕ) → gs ≡ [] → (b ≡ true → has f gs ≡ true) → b ≡ false
unfolding has
not_writable false f gs e h = refl
not_writable true f gs e h = absurd (true_or_false (h refl) (ap (has f) e))

AreOffered-ArePending :
    (server : ℕ) (es : List Event) (s : Loop) → IsSound server s → AreOffered es s → ArePending es s
AreOffered-ArePending server [] s g o = tt
AreOffered-ArePending server (e ∷ es) s g (w, asked, others, rest) = (
  w,
  not_writable e.writable e.fileno (watched_for_output s.calls) g.input_only asked,
  others,
  AreOffered-ArePending server es s g rest,
)

ArePending-kept :
    (f : ℕ) (es : List Event) (s s' : Loop)
    → Others f es
    → KeepsOthers f s s'
    → ArePending es s
    → ArePending es s'
ArePending-kept f [] s s' o k p = tt
ArePending-kept f (e ∷ es) s s' (ne, os) k (w, closed, others, rest) =
    (k.watching e.fileno ne w, closed, others, ArePending-kept f es s s' os k rest)

by_bits :
    {server f : ℕ} {s : Loop} {a c : Outcome} (r w h : Bool) (b : Outcome)
    → w ≡ false
    → Goes server f s a
    → Goes server f s c
    → Goes server f s (continues s)
    → Goes server f s (if r then a else if w then b else if h then c else continues s)
by_bits true w h b e reads closes stays = reads
by_bits false true h b e reads closes stays = absurd (true_or_false refl e)
by_bits false false true b e reads closes stays = closes
by_bits false false false b e reads closes stays = stays

handle-Goes :
    (server : ℕ) (e : Event) (s : Loop)
    → IsSound server s
    → has e.fileno (watched s.calls) ≡ true
    → e.writable ≡ false
    → IsFresh server e s
    → Goes server e.fileno s (handle server e s)
unfolding handle
handle-Goes server e s g w silent fresh = elim (Bool-cases (e.fileno == server)) [
  | inl is ↦
      (let (closed, other) = fresh is in
        rw is (
          _,
          refl,
          accept_connection-IsSound server e.accepted s g closed other,
          accept_connection-KeepsOthers e.fileno e.accepted s closed,
        ))
  | inr other ↦ rw other (
      by_bits e.readable e.writable e.hung_up (acknowledge e.fileno s) silent
        (receive_data-Goes server e.fileno s g other w e.has_data)
        (hang_up-Goes server e.fileno s g other w)
        (_, refl, g, record { watching = λ h ne x. x; giving_up = λ h ne x. x }))
]

continues-injective : {s s' : Loop} → continues s ≡ continues s' → s ≡ s'
continues-injective e = cc

Goes-at :
    {server f : ℕ} {s s' : Loop} {o : Outcome}
    → Goes server f s o
    → o ≡ continues s'
    → IsSound server s' × KeepsOthers f s s'
Goes-at {server} {f} {s} (t, runs, sound, keeps) e =
    let same = continues-injective (sym runs ∙ e) in
    (subst (IsSound server) same sound, subst (KeepsOthers f s) same keeps)

open_server-IsSound : (server : ℕ) → IsSound server (open_server server)
unfolding open_server watched watched_for_output has count_sends
open_server-IsSound server = record {
  known = λ f e other. absurd (true_or_false e (rw other refl));
  server_watched = rw (==_refl server) refl;
  input_only = refl;
  legal = (refl, tt);
  silent = refl;
}

reached :
    {server : ℕ} {s : Loop} {es : List Event}
    → IsReached server s es
    → IsSound server s × ArePending es s
reached {server} opened = (open_server-IsSound server, tt)
reached {server} {s} (polled es r o) =
    let g = (reached r).0 in (g, AreOffered-ArePending server es s g o)
reached {server} {s = s'} {es = es} (handled {s} {e = e} r fresh runs) =
    let (g, (w, silent, others, rest)) = reached r in
    let (g', k) = Goes-at (handle-Goes server e s g w silent fresh) runs in
    (g', ArePending-kept e.fileno es s s' others k rest)

-- In every run each event is handled: the loop never looks up a connection that is not there.
pub IsReached-handle :
    (server : ℕ) (s : Loop) (e : Event) (es : List Event)
    → IsReached server s (e ∷ es)
    → IsFresh server e s
    → (s' : Loop) × (handle server e s ≡ continues s')
IsReached-handle server s e es r fresh =
    let (g, (w, silent, others, rest)) = reached r in
    let (s', runs, sound, keeps) = handle-Goes server e s g w silent fresh in (s', runs)

-- In every run, also when the loop is left and the server closed, a descriptor is registered at most
-- once at a time, only a registered one is unregistered or modified, and nothing is ever sent: no
-- socket is registered for output, so that the branch that answers `ack` is not reached.
pub IsReached-shut_down :
    (server : ℕ) (s : Loop) (es : List Event)
    → IsReached server s es
    → IsLegal (shut_down server s).calls × (count_sends (shut_down server s).calls ≡ 0)
unfolding shut_down count_sends
IsReached-shut_down server s es r = let g = (reached r).0 in ((g.server_watched, g.legal), g.silent)

chosen : (b : Bool) (x y : Outcome) → b ≡ true → (if b then x else y) ≡ x
chosen b x y e = rw e refl

passed_over : (b : Bool) (x y : Outcome) → b ≡ false → (if b then x else y) ≡ y
passed_over b x y e = rw e refl

handle_reads :
    (server : ℕ) (s : Loop) (e : Event)
    → (e.fileno == server) ≡ false
    → e.readable ≡ true
    → handle server e s ≡ receive_data e.fileno e.has_data s
unfolding handle
handle_reads server s e other reads =
    passed_over (e.fileno == server) _ _ other ∙ chosen e.readable _ _ reads

receive_nothing :
    (f : ℕ) (s s' : Loop)
    → has f s.connections ≡ true
    → receive_data f false s ≡ continues s'
    → IsGivenUp f s'
unfolding receive_data watched
receive_nothing f s s' there runs =
    subst (IsGivenUp f) (continues-injective (sym (chosen (has f s.connections) _ _ there) ∙ runs))
      (there, has-remove f (watched s.calls))

-- A connection whose client has closed it is given up: its descriptor is unregistered, and the
-- connection stays in the dict.
handle-IsGivenUp :
    (server : ℕ) (s s' : Loop) (e : Event) (es : List Event)
    → IsReached server s (e ∷ es)
    → (e.fileno == server) ≡ false
    → e.readable ≡ true
    → e.has_data ≡ false
    → handle server e s ≡ continues s'
    → IsGivenUp e.fileno s'
handle-IsGivenUp server s s' e es r other reads empty runs =
    let (g, (w, silent, others, rest)) = reached r in
    receive_nothing e.fileno s s' (g.known e.fileno w other)
      (sym (handle_reads server s e other reads ∙ ap (λ d. receive_data e.fileno d s) empty) ∙ runs)

-- What an outcome has closed.
abbrev closes : ℕ → Outcome → ℕ
closes f (continues s) = count_closes f s.calls
closes f (key_error s) = count_closes f s.calls

closes-handle :
    (server f : ℕ) (s : Loop) (e : Event)
    → (f == e.fileno) ≡ false
    → closes f (handle server e s) ≡ count_closes f s.calls
unfolding handle accept_connection receive_data acknowledge hang_up count_closes
closes-handle server f s e ne = ground arith

closes-continues :
    (server f : ℕ) (s s' : Loop) (e : Event)
    → (f == e.fileno) ≡ false
    → handle server e s ≡ continues s'
    → count_closes f s'.calls ≡ count_closes f s.calls
closes-continues server f s s' e ne runs = sym (ap (closes f) runs) ∙ closes-handle server f s e ne

closes-receive_nothing :
    (f g : ℕ) (s s' : Loop)
    → receive_data g false s ≡ continues s'
    → count_closes f s'.calls ≡ count_closes f s.calls
unfolding receive_data count_closes
closes-receive_nothing f g s s' runs = sym (ap (closes f) runs) ∙ ground arith

-- An event of a connection whose client has closed it.
abbrev pub IsEof : ℕ → ℕ → Event → Type 0
IsEof server f e =
    (e.fileno ≡ f) × ((e.fileno == server) ≡ false) × (e.readable ≡ true) × (e.has_data ≡ false)

-- In a run, a connection whose client has closed it is given up when that event is handled: its
-- descriptor is unregistered, its entry of the dict stays, and it is not closed. A connection that is
-- given up stays so whatever event is handled, and no event closes it.
pub IsGivenUp-handle :
    (server f : ℕ) (s s' : Loop) (e : Event) (es : List Event)
    → IsReached server s (e ∷ es)
    → IsFresh server e s
    → handle server e s ≡ continues s'
    → IsGivenUp f s ⊎ IsEof server f e
    → IsGivenUp f s' × (count_closes f s'.calls ≡ count_closes f s.calls)
IsGivenUp-handle server f s s' e es r fresh runs (inl up) =
    let (g, (w, silent, others, rest)) = reached r in
    let (g', k) = Goes-at (handle-Goes server e s g w silent fresh) runs in
    let ne : (f == e.fileno) ≡ false = elim (Bool-cases (f == e.fileno)) [
      | inl same ↦ absurd (
          true_or_false w
            (subst (λ x. has x (watched s.calls) ≡ false) ((==_iff f e.fileno).0 same) up.1))
      | inr ne ↦ ne
    ] in
    (k.giving_up f ne up, closes-continues server f s s' e ne runs)
IsGivenUp-handle server f s s' e es r fresh runs (inr (same, other, reads, empty)) = (
  subst (λ x. IsGivenUp x s') same (handle-IsGivenUp server s s' e es r other reads empty runs),
  closes-receive_nothing f e.fileno s s' (
      sym (handle_reads server s e other reads ∙ ap (λ d. receive_data e.fileno d s) empty) ∙ runs),
)
