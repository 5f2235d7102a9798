-- ===== src/ConsistentHash.antt =====
-- consistent_hash.h and consistent_hash.cpp: class ConsistentHash, the choice of a server for a key.
--
-- The map from positions to resources is the list of its items in the order of the positions; a
-- resource is its server, since its field `position` is never set. MD5 is a parameter: the bytes of a
-- digest. A CHECK that fails aborts the process, which is `none`, and so is the use of an iterator at
-- the end of an empty map.
pub mod Ring
pub mod Nearest
pub mod Hosts
use memcache_router.Prelude.{
  ℕ, zero, suc, ◌+◌, ◌*◌, ◌%◌, ◌/◌, Bool, true, false, List, [], ◌∷◌, ◌++◌, Option, none, some,
  if◌then◌else◌, ltb, leb, ◌==◌,
}
use memcache_router.Prelude.Text.{Text, text}
use memcache_router.Codegen.Names.Decimal.{decimal}

pub record Server : Type 0 where
  pub hostname : Text
  pub port : ℕ

abbrev pub Resources : Type 0
Resources = List (ℕ × Server)

abbrev pub k_points_per_server : ℕ
k_points_per_server = 160

abbrev pub k_alignment : ℕ
k_alignment = 4

-- `GetKeyForPoint`.
unfoldable pub get_key_for_point : Server → ℕ → Text
get_key_for_point s point = s.hostname ++ (text "-" ++ decimal point)

abbrev pub push : (ℕ × Server) → Option Resources → Option Resources
push p none = none
push p (some r) = some (p ∷ r)

-- `map::insert`, which inserts nothing if the position is taken, and the CHECK of its result.
unfoldable pub insert : ℕ → Server → Resources → Option Resources
insert pos s [] = some ((pos, s) ∷ [])
insert pos s ((q, t) ∷ r) =
    let rest = insert pos s r in
    if ltb pos q then some ((pos, s) ∷ (q, t) ∷ r) else if pos == q then none else push (q, t) rest

abbrev pub if_inserted : Option Resources → (Resources → Option Resources) → Option Resources
if_inserted none f = none
if_inserted (some r) f = f r

unfoldable pub range : ℕ → ℕ → List ℕ
range start zero = []
range start (suc n) = start ∷ range (suc start) n

-- `map::lower_bound`.
unfoldable pub lower_bound : ℕ → Resources → Option Server
lower_bound hash [] = none
lower_bound hash ((q, t) ∷ r) = let rest = lower_bound hash r in if leb hash q then some t else rest

unfoldable pub first : Resources → Option Server
first [] = none
first ((q, t) ∷ r) = some t

unfoldable pub or_first : Option Server → Resources → Option Server
or_first none r = first r
or_first (some t) r = some t

unfoldable pub server_for_hash : Resources → ℕ → Option Server
server_for_hash r hash = or_first (lower_bound hash r) r

module _ (md5 : Text → ℕ → ℕ) where
  -- Four bytes of the digest, the last one first.
  unfoldable pub get_ketama_hash : Text → ℕ → ℕ
  get_ketama_hash key alignment =
      md5 key (3 + alignment * 4) % 256 * 16777216
      + (md5 key (2 + alignment * 4) % 256 * 65536
          + (md5 key (1 + alignment * 4) % 256 * 256 + md5 key (0 + alignment * 4) % 256))

  unfoldable pub insert_alignments : Server → ℕ → List ℕ → Resources → Option Resources
  insert_alignments s j [] r = some r
  insert_alignments s j (a ∷ alignments) r =
      if_inserted (insert (get_ketama_hash (get_key_for_point s j) a) s r)
        (insert_alignments s j alignments)

  unfoldable pub insert_points : Server → List ℕ → Resources → Option Resources
  insert_points s [] r = some r
  insert_points s (j ∷ points) r =
      if_inserted (insert_alignments s j (range 0 k_alignment) r) (insert_points s points)

  unfoldable pub insert_servers : List Server → Resources → Option Resources
  insert_servers [] r = some r
  insert_servers (s ∷ servers) r =
      if_inserted (insert_points s (range 0 (k_points_per_server / k_alignment)) r)
        (insert_servers servers)

  unfoldable pub consistent_hash : List Server → Option Resources
  consistent_hash servers = insert_servers servers []

  unfoldable pub server_for_key : Resources → Text → Option Server
  server_for_key r key = server_for_hash r (get_ketama_hash key 0)
