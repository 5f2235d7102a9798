-- ===== src/Router/Workers.antt =====
-- memcache_router.cpp, ProcessPackets: one turn of a worker's loop, on the packets that it took.
--
-- `merge` stands for the generated MergeFrom. A packet that is sent is one of the result's list, and a
-- CHECK that fails is `none`. The statistics of the turn are not kept.
pub mod Keys
pub mod Gets
use memcache_router.Prelude.{
  ℕ, zero, suc, ◌+◌, Bool, true, false, List, [], ◌∷◌, ◌++◌, Option, none, some, if◌then◌else◌, ltb,
  ◌==◌,
}
use memcache_router.Prelude.Text.{Text, text_eq}
use memcache_router.Messages.{KeyValue, new_key_value, Instruction}
use memcache_router.MemClient.{Memcached, Client, Entries, find_entry, get_keys}
use memcache_router.MemClient.Writes.{set_keys, incr_keys}
use memcache_router.Router.{
  Packet, PacketType, get_packet, set_packet, increment_packet, server_list_packet, stats_packet,
  get_type, has_any,
}

-- `<` of two strings.
unfoldable pub text_ltb : Text → Text → Bool
text_ltb s [] = false
text_ltb [] (d ∷ t) = true
text_ltb (c ∷ s) (d ∷ t) = if c == d then text_ltb s t else ltb c d

-- `insert` of a key with a new message: an entry that is there stays.
unfoldable pub insert_key : Text → Entries → Entries
insert_key k [] = (k, new_key_value) ∷ []
insert_key k ((j, kv) ∷ m) =
    let rest : Entries = (j, kv) ∷ insert_key k m in
    if text_eq j k
    then (j, kv) ∷ m
    else if text_ltb k j
    then (k, new_key_value) ∷ (j, kv) ∷ m
    else rest

unfoldable pub insert_keys : List KeyValue → Entries → Entries
insert_keys [] m = m
insert_keys (kv ∷ kvs) m = insert_keys kvs (insert_key kv.key m)

-- The packets sent, the map of the keys, the GETs, and the client.
pub record Turn (lib : Memcached) : Type 0 where
  pub sent : List Packet
  pub key_to_kvalp : Entries
  pub get_packets : List Packet
  pub client : Client lib

abbrev pub new_turn : {lib : Memcached} → Client lib → Turn lib
new_turn client = record { sent = []; key_to_kvalp = []; get_packets = []; client = client }

module _ (str_hash : Text → ℕ) (unset : ℕ) (lib : Memcached) where
  abbrev pub after_set : Turn lib → Option (List KeyValue × Client lib) → Option (Turn lib)
  after_set t none = none
  after_set t (some (kvs, client)) = some (record t { client = client })

  abbrev pub after_incr : Packet → Turn lib → List KeyValue × Memcached.Memc lib → Turn lib
  after_incr p t (kvs, memc) = record t {
    sent = t.sent ++ record p { instruction = record p.instruction { incr_keys = kvs } } ∷ [];
    client = (t.client.0, memc);
  }

  -- The body of the loop over the packets, by the type. A packet of another type is dropped.
  unfoldable pub take_packet : Packet → Option PacketType → Turn lib → Option (Turn lib)
  take_packet p none t = none
  take_packet p (some set_packet) t =
      after_set t (set_keys lib str_hash unset p.instruction.set_keys t.client)
  take_packet p (some increment_packet) t =
      some (after_incr p t (incr_keys lib p.instruction.incr_keys t.client.1))
  take_packet p (some get_packet) t = some (record t {
    key_to_kvalp = insert_keys p.instruction.get_keys t.key_to_kvalp;
    get_packets = t.get_packets ++ p ∷ [];
  })
  take_packet p (some server_list_packet) t = some t
  take_packet p (some stats_packet) t = some t

  unfoldable pub take_packets : List Packet → Turn lib → Option (Turn lib)
  take_packets [] t = some t
  take_packets (p ∷ ps) t = elim (take_packet p (get_type p) t) [
    | none ↦ none
    | some t' ↦ take_packets ps t'
  ]

abbrev pub with_get_keys : Packet → List KeyValue → Packet
with_get_keys p kvs = record p { instruction = record p.instruction { get_keys = kvs } }

module _ (merge : KeyValue → KeyValue → KeyValue) where
  -- The loop over the keys of a GET: the CHECK that the key has an entry, and the merge.
  unfoldable pub merge_keys : Entries → List KeyValue → Option (List KeyValue)
  merge_keys m [] = some []
  merge_keys m (kv ∷ kvs) = elim (find_entry kv.key m) [
    | none ↦ none
    | some e ↦ elim (merge_keys m kvs) [ none ↦ none | some kvs' ↦ some (merge kv e ∷ kvs') ]
  ]

  unfoldable pub answer_packets : Entries → List Packet → Option (List Packet)
  answer_packets m [] = some []
  answer_packets m (p ∷ ps) = elim (merge_keys m p.instruction.get_keys) [
    | none ↦ none
    | some kvs ↦ elim (answer_packets m ps) [
      | none ↦ none
      | some ps' ↦ some (with_get_keys p kvs ∷ ps')
    ]
  ]

  module _ (str_hash : Text → ℕ) (unset : ℕ) (lib : Memcached) where
    abbrev pub answered_by :
        Turn lib → Client lib → Option (List Packet) → Option (List Packet × Client lib)
    answered_by t client none = none
    answered_by t client (some ps) = some (t.sent ++ ps, client)

    abbrev pub after_get :
        Turn lib → Option (Entries × Client lib) → Option (List Packet × Client lib)
    after_get t none = none
    after_get t (some (m, client)) = answered_by t client (answer_packets m t.get_packets)

    unfoldable pub fetch_and_answer : ℕ → Turn lib → Option (List Packet × Client lib)
    fetch_and_answer fuel t =
        if has_any t.get_packets
        then after_get t (get_keys str_hash unset lib fuel t.key_to_kvalp t.client)
        else some (t.sent, t.client)

    unfoldable pub process_packets :
        ℕ → List Packet → Client lib → Option (List Packet × Client lib)
    process_packets fuel ps client = elim (take_packets str_hash unset lib ps (new_turn client)) [
      | none ↦ none
      | some t ↦ fetch_and_answer fuel t
    ]
