-- ===== src/Router.antt =====
-- memcache_router.cpp and utils.h: the packets of the router.
pub mod Queue
pub mod Workers
pub mod Frames
pub mod Hosts
pub mod Loop
use memcache_router.Prelude.{
  ℕ, suc, ◌+◌, Bool, true, false, List, [], ◌∷◌, Option, none, some, if◌then◌else◌, length, ltb,
}
use memcache_router.Prelude.Text.{Text}
use memcache_router.Cache.Buckets.{plus}
use memcache_router.Messages.{Instruction, has_stats}

-- A packet without its timer.
pub record Packet : Type 0 where
  pub frame_ids : List Text
  pub instruction : Instruction

-- UNKNOWN, which no packet has, is left out.
pub data PacketType : Type 0 where
  get_packet set_packet increment_packet server_list_packet stats_packet : PacketType

abbrev pub has_any {ℓ} : {A : Type ℓ} → List A → Bool
has_any [] = false
has_any (x ∷ xs) = true

-- `GetType`; `none` is the CHECK that fails.
unfoldable pub get_type : Packet → Option PacketType
get_type p =
    if has_any p.instruction.get_keys
    then some get_packet
    else if has_any p.instruction.set_keys
    then some set_packet
    else if has_any p.instruction.incr_keys
    then some increment_packet
    else if has_any p.instruction.servers
    then some server_list_packet
    else if has_stats p.instruction.stats
    then some stats_packet
    else none

unfoldable pub is_get : Packet → Bool
is_get p = has_any p.instruction.get_keys

abbrev pub get_keys_size : Packet → ℕ
get_keys_size p = length p.instruction.get_keys

-- `struct Stats`: how many delays there were, and their sum, both of 64 bits.
pub record Stats : Type 0 where
  pub counter : ℕ
  pub value : ℕ

unfoldable pub increment : ℕ → Stats → Stats
increment x s = record { counter = plus s.counter 1; value = plus s.value x }
