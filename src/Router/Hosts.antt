-- ===== src/Router/Hosts.antt =====
-- memcache_router.cpp: IsServerListMatching and SetMemcacheServers.
--
-- BlockingWait is taken where it returns, with all threads at an end; `threads` is how many run. The
-- read of a server behind the last is undefined behaviour: `none`.
use memcache_router.Prelude.{
  ℕ, Bool, true, false, List, [], ◌∷◌, ◌++◌, Option, none, some, if◌then◌else◌, ◌==◌, ◌≡◌, ◌≢◌,
  refl, sym, subst, arith, ap, Bool-cases, inl, inr,
}
use memcache_router.Prelude.Text.{text_eq, eq_of_text_eq, text_eq_iff}
use memcache_router.ConsistentHash.{Server}
use memcache_router.Router.{Packet}
use memcache_router.Router.Queue.{PcQueue, unblock_all, reset}

-- The loop over the servers of the list that is kept.
unfoldable pub matching_servers : List Server → List Server → Option Bool
matching_servers [] qs = some true
matching_servers (s ∷ ss) [] = none
matching_servers (s ∷ ss) (q ∷ qs) =
    let rest : Option Bool = matching_servers ss qs in
    if text_eq s.hostname q.hostname
    then (if s.port == q.port then rest else some false)
    else some false

unfoldable pub is_server_list_matching : Option Packet → Packet → Option Bool
unfolding matching_servers
is_server_list_matching none p = some false
is_server_list_matching (some kept) p =
    matching_servers kept.instruction.servers p.instruction.servers

pub record Hosts : Type 0 where
  pub server_list : Option Packet
  pub queue : PcQueue
  pub threads : ℕ

abbrev pub blocking_wait : Hosts → Hosts
blocking_wait h = record h { queue = unblock_all h.queue; threads = 0 }

abbrev pub init_threads : ℕ → Hosts → Hosts
init_threads num_threads h = record h { queue = reset h.queue; threads = num_threads }

abbrev pub set_servers : ℕ → Packet → Hosts → Bool → Hosts
set_servers num_threads p h true = h
set_servers num_threads p h false =
    init_threads num_threads (record (blocking_wait h) { server_list = some p })

unfoldable pub set_memcache_servers : ℕ → Packet → Hosts → Option Hosts
set_memcache_servers num_threads p h = elim (is_server_list_matching h.server_list p) [
  | none ↦ none
  | some b ↦ some (set_servers num_threads p h b)
]

-- The lists differ at a place up to which they are the same.
abbrev pub Differ : List Server → List Server → Type 0
Differ ss qs =
    (before : List Server) × (s q : Server) × (ss' qs' : List Server) × (ss ≡ before ++ s ∷ ss')
    × (qs ≡ before ++ q ∷ qs')
    × (s ≢ q)

-- How a list `qs` compares with the list `ss` that is kept, and the result.
abbrev pub IsPrefix : List Server → List Server → Type 0
IsPrefix ss qs = (rest : List Server) × (qs ≡ ss ++ rest)

abbrev pub IsShorter : List Server → List Server → Type 0
IsShorter ss qs = (s : Server) × (rest : List Server) × (ss ≡ qs ++ s ∷ rest)

pub data Compared (ss qs : List Server) : Option Bool → Type 0 where
  goes_on : IsPrefix ss qs → Compared ss qs (some true)
  falls_short : IsShorter ss qs → Compared ss qs none
  differs : Differ ss qs → Compared ss qs (some false)

behind :
    (s q : Server) (ss qs : List Server)
    → s ≡ q
    → {o : Option Bool} → Compared ss qs o
    → Compared (s ∷ ss) (q ∷ qs) o
behind s q ss qs e (goes_on (rest, f)) = goes_on (rest, λ i. sym e i ∷ f i)
behind s q ss qs e (falls_short (t, rest, f)) = falls_short (t, rest, λ i. e i ∷ f i)
behind s q ss qs e (differs (before, t, u, ss', qs', f, g, n)) =
    differs (s ∷ before, t, u, ss', qs', ap (λ (l : List Server). s ∷ l) f, λ i. sym e i ∷ g i, n)

server_eq :
    (s q : Server) → text_eq s.hostname q.hostname ≡ true → (s.port == q.port) ≡ true → s ≡ q
server_eq s q h p = ground (arith, eq_of_text_eq s.hostname q.hostname)

names : {s q : Server} → s ≡ q → text_eq s.hostname q.hostname ≡ false → ⊥
names {s} {q} e h =
    ground (arith, ap (λ (x : Server). x.hostname) e, text_eq_iff s.hostname q.hostname)

ports : {s q : Server} → s ≡ q → (s.port == q.port) ≡ false → ⊥
ports {s} {q} e h = ground (arith, ap (λ (x : Server). x.port) e)

matching_servers-Compared : (ss qs : List Server) → Compared ss qs (matching_servers ss qs)
unfolding matching_servers
matching_servers-Compared [] qs = goes_on (qs, refl)
matching_servers-Compared (s ∷ ss) [] = falls_short (s, ss, refl)
matching_servers-Compared (s ∷ ss) (q ∷ qs) = elim (Bool-cases (text_eq s.hostname q.hostname)) [
  | inr other ↦ rw other (differs ([], s, q, ss, qs, refl, refl, λ e. names e other))
  | inl same ↦ elim (Bool-cases (s.port == q.port)) [
    | inr other ↦ rw (same, other) (differs ([], s, q, ss, qs, refl, refl, λ e. ports e other))
    | inl port ↦
        rw (same, port)
          (behind s q ss qs (server_eq s q same port) (matching_servers-Compared ss qs))
  ]
]

-- What SetMemcacheServers does with a message, by how its servers compare with those that are kept.
pub data Handled (num_threads : ℕ) (p : Packet) (h : Hosts) (ss : List Server)
    : Option Hosts → Type 0 where
  unchanged : IsPrefix ss p.instruction.servers → Handled num_threads p h ss (some h)
  undefined : IsShorter ss p.instruction.servers → Handled num_threads p h ss none
  restarted :
      {h' : Hosts}
      → Differ ss p.instruction.servers
      → h'.server_list ≡ some p
      → h'.threads ≡ num_threads
      → h'.queue.packets ≡ h.queue.packets
      → h'.queue.done ≡ false
      → Handled num_threads p h ss (some h')

handled :
    (num_threads : ℕ) (p : Packet) (h : Hosts) (ss : List Server) (o : Option Bool)
    → Compared ss p.instruction.servers o
    → Handled num_threads p h ss
        (elim o [ none ↦ none | some b ↦ some (set_servers num_threads p h b) ])
unfolding reset unblock_all
handled num_threads p h ss o (goes_on c) = unchanged c
handled num_threads p h ss o (falls_short c) = undefined c
handled num_threads p h ss o (differs c) = restarted c refl refl refl refl

-- Once a list is kept: a message whose servers begin with it changes nothing, whatever comes behind, so
-- that a server added at the end is not taken over; one that ends before the kept list does, with no
-- other difference, is read behind its end; and one that differs at a place starts the threads anew
-- with its list, and the packets of the queue stay.
pub set_memcache_servers-Handled :
    (num_threads : ℕ) (kept p : Packet) (h : Hosts)
    → h.server_list ≡ some kept
    → Handled num_threads p h kept.instruction.servers (set_memcache_servers num_threads p h)
unfolding set_memcache_servers is_server_list_matching
set_memcache_servers-Handled num_threads kept p h e =
    let ss : List Server = kept.instruction.servers in
    let qs : List Server = p.instruction.servers in
    handled num_threads p h ss (is_server_list_matching h.server_list p) (
      subst (Compared ss qs) (sym (ap (λ o. is_server_list_matching o p) e))
        (matching_servers-Compared ss qs))
