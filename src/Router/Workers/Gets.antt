-- ===== src/Router/Workers/Gets.antt =====
-- A turn of a worker on a batch of GETs, without a cache.
use memcache_router.Prelude.{
  ℕ, ◌+◌, ◌<◌, ◌≤◌, true, List, [], ◌∷◌, ◌++◌, append_assoc, append-nil, map, Option, none, some,
  ◌≡◌, refl, arith, ap, ◌∙◌, length, All,
}
use memcache_router.Prelude.Text.{Text}
use memcache_router.Messages.{KeyValue, new_key_value}
use memcache_router.MemClient.{Memcached, Client, Entries, Result, find_entry, get_keys}
use memcache_router.MemClient.Fetches.{FetchLaws, Asks, get_keys_lem, answered, carrying}
use memcache_router.Router.{Packet, get_packet, get_type, is_get}
use memcache_router.Router.Queue.Batch.{count_keys, AreGets}
use memcache_router.Router.Workers.{
  insert_keys, merge_keys, with_get_keys, answer_packets, Turn, new_turn, take_packet, take_packets,
  fetch_and_answer, process_packets,
}
use memcache_router.Router.Workers.Keys.{
  AllNew, Covers, Grows, insert_keys-AllNew, length-insert_keys, insert_keys-Covers,
  insert_keys-Grows,
}

unfoldable pub insert_all : List Packet → Entries → Entries
insert_all [] m = m
insert_all (p ∷ ps) m = insert_all ps (insert_keys p.instruction.get_keys m)

AllCovered : Entries → List Packet → Type 0
AllCovered m = All (λ p. Covers m p.instruction.get_keys)

insert_all-AllNew : (ps : List Packet) (m : Entries) → AllNew m → AllNew (insert_all ps m)
unfolding insert_all
insert_all-AllNew [] m h = h
insert_all-AllNew (p ∷ ps) m h =
    insert_all-AllNew ps (insert_keys p.instruction.get_keys m)
      (insert_keys-AllNew p.instruction.get_keys m h)

insert_all-Grows : (ps : List Packet) (m : Entries) → AllNew m → Grows m (insert_all ps m)
unfolding insert_all Grows
insert_all-Grows [] m h k e = e
insert_all-Grows (p ∷ ps) m h k e =
    insert_all-Grows ps (insert_keys p.instruction.get_keys m)
      (insert_keys-AllNew p.instruction.get_keys m h) k
      (insert_keys-Grows p.instruction.get_keys m h k e)

length-insert_all :
    (ps : List Packet) (m : Entries) → length (insert_all ps m) ≤ length m + count_keys ps
unfolding insert_all count_keys
length-insert_all [] m = omega arith
length-insert_all (p ∷ ps) m = omega (
  arith,
  length-insert_all ps (insert_keys p.instruction.get_keys m),
  length-insert_keys p.instruction.get_keys m,
)

Covers-Grows : (kvs : List KeyValue) (m m' : Entries) → Grows m m' → Covers m kvs → Covers m' kvs
unfolding Grows
Covers-Grows [] m m' g c = tt
Covers-Grows (kv ∷ kvs) m m' g (c, cs) = (g kv.key c, Covers-Grows kvs m m' g cs)

insert_all-AllCovered :
    (ps : List Packet) (m : Entries) → AllNew m → AllCovered (insert_all ps m) ps
unfolding insert_all AllCovered
insert_all-AllCovered [] m h = tt
insert_all-AllCovered (p ∷ ps) m h =
    let m' : Entries = insert_keys p.instruction.get_keys m in
    let h' : AllNew m' = insert_keys-AllNew p.instruction.get_keys m h in
    (
      Covers-Grows p.instruction.get_keys m' (insert_all ps m') (insert_all-Grows ps m' h')
          (insert_keys-Covers p.instruction.get_keys m h),
      insert_all-AllCovered ps m' h',
    )

pub get_type_get : (p : Packet) → is_get p ≡ true → get_type p ≡ some get_packet
unfolding is_get get_type
get_type_get p e = rw e

-- A new entry behind an answer.
unfoldable pub fetched : (lib : Memcached) → Option Result → KeyValue
fetched lib none = new_key_value
fetched lib (some r) = carrying lib r new_key_value

answered-new :
    (lib : Memcached) (o : Option Result)
    → answered lib o (some new_key_value) ≡ some (fetched lib o)
unfolding fetched
answered-new lib none = refl
answered-new lib (some r) = refl

module _ (merge : KeyValue → KeyValue → KeyValue) (lib : Memcached)
    (answer : Text → Option Result) where
  abbrev pub reply_key : KeyValue → KeyValue
  reply_key kv = merge kv (fetched lib (answer kv.key))

  abbrev pub reply : Packet → Packet
  reply p = with_get_keys p (map reply_key p.instruction.get_keys)

  Answers : Entries → Entries → Type 0
  Answers m m' = (k : Text) → find_entry k m' ≡ answered lib (answer k) (find_entry k m)

  merge_keys_lem :
      (m m' : Entries)
      → Answers m m'
      → (kvs : List KeyValue) → Covers m kvs
      → merge_keys merge m' kvs ≡ some (map reply_key kvs)
  unfolding merge_keys Answers
  merge_keys_lem m m' a [] c = refl
  merge_keys_lem m m' a (kv ∷ kvs) (c, cs) =
      let found : find_entry kv.key m' ≡ some (fetched lib (answer kv.key)) =
        a kv.key ∙ ap (answered lib (answer kv.key)) c ∙ answered-new lib (answer kv.key) in
      rw (found, merge_keys) (rw (merge_keys_lem m m' a kvs cs))

  answer_packets_lem :
      (m m' : Entries)
      → Answers m m'
      → (ps : List Packet) → AllCovered m ps
      → answer_packets merge m' ps ≡ some (map reply ps)
  unfolding answer_packets AllCovered
  answer_packets_lem m m' a [] c = refl
  answer_packets_lem m m' a (p ∷ ps) (c, cs) =
      rw (merge_keys_lem m m' a p.instruction.get_keys c, answer_packets)
        (rw (answer_packets_lem m m' a ps cs))

module _ (str_hash : Text → ℕ) (unset : ℕ) (lib : Memcached) where
  taken : Turn lib → List Packet → Turn lib
  taken t ps = record t {
    key_to_kvalp = insert_all ps t.key_to_kvalp;
    get_packets = t.get_packets ++ ps;
  }

  take_packets_lem :
      (ps : List Packet) (t : Turn lib)
      → AreGets ps
      → take_packets str_hash unset lib ps t ≡ some (taken t ps)
  unfolding take_packets take_packet taken insert_all
  take_packets_lem [] t h = rw (append-nil t.get_packets)
  take_packets_lem (p ∷ ps) t (h, hs) =
      rw (get_type_get p h, take_packets)
        (take_packets_lem ps _ hs ∙ rw (append_assoc t.get_packets (p ∷ []) ps))

  module _ (merge : KeyValue → KeyValue → KeyValue) (laws : FetchLaws lib) where
    open laws use {server}

    finish :
        (fuel : ℕ) (t : Turn lib) (p : Packet) (ps sent : List Packet) (m : Entries)
        (client : Client lib)
        → t.get_packets ≡ p ∷ ps
        → get_keys str_hash unset lib fuel t.key_to_kvalp t.client ≡ some (m, client)
        → answer_packets merge m (p ∷ ps) ≡ some sent
        → fetch_and_answer merge str_hash unset lib fuel t ≡ some (t.sent ++ sent, client)
    unfolding fetch_and_answer
    finish fuel t p ps sent m client g e a = ground (arith, g, e, a)

    -- Without a cache, where the request for the keys of a batch of GETs, one at least, succeeds and
    -- there is fuel for its keys, a turn on the batch ends; each packet is answered once, in their
    -- order and with its frame ids, and each of its keys is merged with what the servers give for it,
    -- or with a new message where they give nothing.
    pub process_packets-AreGets :
        (fuel : ℕ) (p : Packet) (ps : List Packet) (memc memc1 : Memcached.Memc lib)
        → AreGets (p ∷ ps)
        → count_keys (p ∷ ps) < fuel
        → Asks lib (insert_all (p ∷ ps) []) memc memc1
        → (memc' : Memcached.Memc lib) × (process_packets merge str_hash unset lib fuel
              (p ∷ ps)
              (none, memc)
            ≡ some (map (reply merge lib (server memc)) (p ∷ ps), (none, memc')))
    unfolding process_packets taken Answers
    process_packets-AreGets fuel p ps memc memc1 gets h asks =
        let m : Entries = insert_all (p ∷ ps) [] in
        let (m', memc', e, a) =
          get_keys_lem lib str_hash unset laws fuel m memc memc1
            (omega (arith, h, length-insert_all (p ∷ ps) [])) asks in
        let t : Turn lib = taken (new_turn (none, memc)) (p ∷ ps) in
        let answers : answer_packets merge m' (p ∷ ps)
            ≡ some (map (reply merge lib (server memc)) (p ∷ ps)) =
          answer_packets_lem merge lib (server memc) m m' a (p ∷ ps)
            (insert_all-AllCovered (p ∷ ps) [] tt) in
        (
          memc',
          rw (take_packets_lem (p ∷ ps) (new_turn (none, memc)) gets, process_packets)
              (finish fuel t p ps _ m' (none, memc') refl e answers),
        )
