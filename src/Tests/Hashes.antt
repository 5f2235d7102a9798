-- ===== src/Tests/Hashes.antt =====
-- Runs of the consistent hash, with bytes that differ for all points of hosts with one digit.
use memcache_router.Prelude.{
  ℕ, ◌+◌, ◌*◌, ◌-◌, ◌%◌, List, [], ◌∷◌, some, none, Option, ◌≡◌, refl, length, ◌==◌, if◌then◌else◌,
  arith,
}
use memcache_router.Prelude.Text.{Text, text}
use memcache_router.Codegen.Names.Decimal.{decimal, decimal_fuel}
use memcache_router.ConsistentHash.{
  Server, Resources, insert, range, get_key_for_point, get_ketama_hash, insert_alignments,
  insert_points, insert_servers, consistent_hash, server_for_hash,
}
use memcache_router.ConsistentHash.Ring.{IsSorted, IsPoint}
use memcache_router.ConsistentHash.Hosts.{HaveOwnHosts, consistent_hash-HaveOwnHosts}
use memcache_router.ConsistentHash.Nearest.{IsIn, IsNearest, server_for_hash-IsNearest}

-- The digits of a key as a number.
abbrev digits : Text → ℕ → ℕ
digits [] n = n
digits (c ∷ t) n = digits t (if c == 45 then 0 else n * 10 + (c - 48))

abbrev host : Text → ℕ
host [] = 0
host (c ∷ t) = c

abbrev bytes : Text → ℕ → ℕ
bytes key i = if i % 4 == 3 then 100 - digits key 0 else if i % 4 == 0 then 100 - i else host key

abbrev lonely : List Server
lonely = record { hostname = text "b"; port = 11211 } ∷ []

abbrev resources_or_none : Option Resources → Resources
resources_or_none none = []
resources_or_none (some r) = r

made_lonely : consistent_hash bytes lonely ≡ some (resources_or_none (consistent_hash bytes lonely))
unfolding consistent_hash insert_servers insert_points insert_alignments insert range
    get_ketama_hash get_key_for_point text decimal decimal_fuel
made_lonely = refl

server_for_hash-IsNearest_example :
    let r = resources_or_none (consistent_hash bytes lonely) in
    (length r ≡ 160)
    × IsSorted r
    × ((t : Server) × (server_for_hash r 5 ≡ some t)
        × ((pos : ℕ) × IsIn (pos, t) r × IsPoint bytes lonely (pos, t) × IsNearest r 5 pos))
server_for_hash-IsNearest_example =
    server_for_hash-IsNearest bytes lonely (resources_or_none (consistent_hash bytes lonely)) 5
      made_lonely (omega arith)

abbrev pair : List Server
pair = record { hostname = text "a"; port = 11212 } ∷ lonely

abbrev twins : List Server
twins = record { hostname = text "b"; port = 11212 } ∷ lonely

made_pair : consistent_hash bytes pair ≡ some (resources_or_none (consistent_hash bytes pair))
unfolding consistent_hash insert_servers insert_points insert_alignments insert range
    get_ketama_hash get_key_for_point text decimal decimal_fuel
made_pair = refl

run_twins : consistent_hash bytes twins ≡ none
unfolding consistent_hash insert_servers insert_points insert_alignments insert range
    get_ketama_hash get_key_for_point text decimal decimal_fuel
run_twins = refl

consistent_hash-HaveOwnHosts_example : HaveOwnHosts pair
consistent_hash-HaveOwnHosts_example =
    consistent_hash-HaveOwnHosts bytes pair (resources_or_none (consistent_hash bytes pair))
      made_pair
