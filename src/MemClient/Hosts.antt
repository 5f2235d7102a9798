-- ===== src/MemClient/Hosts.antt =====
-- memclient.cpp, Init: the servers that the client's handle gets.
use memcache_router.Prelude.{
  ℕ, List, [], ◌∷◌, ◌++◌, append_assoc, append-nil, subst, Option, some, ◌≡◌, refl, arith, ap, ◌∙◌,
  sym, replicate, length,
}
use memcache_router.Prelude.Text.{Text}
use memcache_router.ConsistentHash.{Server}
use memcache_router.Messages.{Instruction}
use memcache_router.MemClient.{Memcached}
use memcache_router.MemClient.Writes.{init, append_rest, append_server, add_servers, push_servers}

abbrev server : Text → ℕ → Server
server hostname port = record { hostname = hostname; port = port }

-- `IsTaken` says that an append takes a hostname and a port as they are: the hostname is not too long,
-- and the port is not 0, for which the library takes its default. Such an append adds the server at the
-- end of a list, and a push adds the servers of a list behind those of the handle. What succeeds here
-- fails only when memory runs out.
pub record ListLaws (lib : Memcached) : Type 1 where
  pub content : Memcached.ServerList lib → List Server
  pub hosts : Memcached.Memc lib → List Server
  pub content_none : content (Memcached.no_servers lib) ≡ []
  pub IsTaken : Text → ℕ → Type 0
  pub append_lem :
      (l : Memcached.ServerList lib) (hostname : Text) (port : ℕ)
      → IsTaken hostname port
      → (l' : Memcached.ServerList lib) × (Memcached.server_list_append lib l hostname port
          ≡ (l', 0))
        × (content l' ≡ content l ++ server hostname port ∷ [])
  pub push_lem :
      (memc : Memcached.Memc lib) (l : Memcached.ServerList lib)
      → (memc' : Memcached.Memc lib) × (Memcached.server_push lib memc l ≡ (0, memc'))
        × (hosts memc' ≡ hosts memc ++ content l)
  pub no_block_lem :
      (memc : Memcached.Memc lib)
      → (memc' : Memcached.Memc lib) × (Memcached.set_no_block lib memc ≡ (0, memc'))
        × (hosts memc' ≡ hosts memc)
  pub cas_lem :
      (memc : Memcached.Memc lib)
      → (memc' : Memcached.Memc lib) × (Memcached.set_support_cas lib memc ≡ (0, memc'))
        × (hosts memc' ≡ hosts memc)

module _ (lib : Memcached) (laws : ListLaws lib) where
  open lib use {Memc, ServerList, no_servers}
  open laws use {content, hosts, content_none, IsTaken, append_lem, push_lem, no_block_lem, cas_lem}

  -- A list of servers that the calls have made.
  Made : Option ServerList → List Server → Type 0
  Made o ss = (l : ServerList) × (o ≡ some l) × (content l ≡ ss)

  append_server-Made :
      (s : Server) (o : Option ServerList) (ss : List Server)
      → IsTaken s.hostname s.port
      → Made o ss
      → Made (append_server lib s o) (ss ++ s ∷ [])
  unfolding Made
  append_server-Made s o ss t (l, e, c) =
      let (l', added, c') = append_lem l s.hostname s.port t in
      (l', rw e (rw added), c' ∙ ap (λ (xs : List Server). xs ++ s ∷ []) c)

  append_rest-Made :
      (first : Server) (rest : List Server) (o : Option ServerList) (ss : List Server)
      → IsTaken first.hostname first.port
      → Made o ss
      → Made (append_rest lib first rest o) (ss ++ replicate (length rest) first)
  unfolding append_rest
  append_rest-Made first [] o ss t m = subst (Made o) (sym (append-nil ss)) m
  append_rest-Made first (s ∷ rest) o ss t m =
      subst (Made (append_rest lib first rest (append_server lib first o)))
        (append_assoc ss (first ∷ []) (replicate (length rest) first))
        (append_rest-Made first rest (append_server lib first o) (ss ++ first ∷ []) t
          (append_server-Made first o ss t m))

  pushed :
      (memc : Memc) (o : Option ServerList) (ss : List Server)
      → Made o ss
      → (memc' : Memc) × (push_servers lib memc o ≡ some memc') × (hosts memc' ≡ hosts memc ++ ss)
  unfolding Made
  pushed memc o ss (l, e, c) =
      let (memc', pushes, has) = push_lem memc l in
      (memc', rw e (rw pushes), has ∙ ap (λ (xs : List Server). hosts memc ++ xs) c)

  add_servers_lem :
      (s : Server) (ss : List Server) (memc : Memc)
      → IsTaken s.hostname s.port
      → (memc' : Memc) × (add_servers lib (s ∷ ss) memc ≡ some memc')
        × (hosts memc' ≡ hosts memc ++ s ∷ replicate (length ss) s)
  unfolding Made
  add_servers_lem s ss memc t =
      pushed memc (append_rest lib s ss (append_server lib s (some no_servers)))
        (s ∷ replicate (length ss) s)
        (append_rest-Made s ss (append_server lib s (some no_servers)) (s ∷ []) t
          (append_server-Made s (some no_servers) [] t (no_servers, refl, content_none)))

  -- Where the library takes the first server that the message names as it is, Init adds to those of the
  -- handle as many servers as the message names, but each of them is the first that it names: a server
  -- behind the first is never used.
  pub init-hosts :
      (instruction : Instruction) (s : Server) (ss : List Server) (memc : Memc)
      → instruction.servers ≡ s ∷ ss
      → IsTaken s.hostname s.port
      → (memc' : Memc) × (init lib instruction memc ≡ some memc')
        × (hosts memc' ≡ hosts memc ++ replicate (length (s ∷ ss)) s)
  unfolding init
  init-hosts instruction s ss memc e t =
      let (m1, blocks, same) = no_block_lem memc in
      let (m2, cas, same') = cas_lem m1 in
      let (m3, adds, has) = add_servers_lem s ss m2 t in
      (
        m3,
        ground (arith, blocks, cas, e, adds),
        has ∙ ap (λ (xs : List Server). xs ++ replicate (length (s ∷ ss)) s) (same' ∙ same),
      )
