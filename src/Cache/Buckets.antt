-- ===== src/Cache/Buckets.antt =====
-- lru_cache.cpp: a bucket, with FindOrInsertData, DeleteStaleData, AddOrReplace and Get on it.
--
-- A node of `access_list` is its address and its Data: an iterator, and the pointer to its Data, is
-- the address, and `next` is an address that was never given out. `front` is the head of the list.
-- Following an iterator to a node that was erased is undefined behaviour: the result is `none`.
-- `new Data` leaves `flags` and `cas` unset: they get `unset`. `memory` is a `uint64_t`.
pub mod Nodes
pub mod Valid
pub mod Evict
pub mod Write
pub mod Calls
pub mod Miss
pub mod Memory
pub mod Order
use memcache_router.Prelude.{
  ℕ, suc, ◌+◌, ◌-◌, ◌%◌, ◌^◌, Bool, true, false, List, [], ◌∷◌, ◌++◌, Option, none, some, length,
  ◌==◌, ltb, if◌then◌else◌, map,
}
use memcache_router.Prelude.Text.{Text, text_eq}

pub record Data : Type 0 where
  pub key : Text
  pub value : Text
  pub flags : ℕ
  pub cas : ℕ

-- What the cache reads of the message KeyValue.
pub record KeyValue : Type 0 where
  pub val : Text
  pub flags : ℕ
  pub cas : ℕ

abbrev pub Node : Type 0
Node = ℕ × Data

pub record Bucket : Type 0 where
  pub key_to_litr : List (Text × ℕ)
  pub access_list : List Node
  pub next : ℕ
  pub memory : ℕ

abbrev pub new_bucket : Bucket
new_bucket = record { key_to_litr = []; access_list = []; next = 0; memory = 0 }

abbrev pub width : ℕ
width = 2 ^ 64

-- A `size_t` as an int of 32 bits, and that int as a `uint64_t`.
unfoldable pub int_widened : ℕ → ℕ
int_widened n = let low = n % 2 ^ 32 in if ltb low (2 ^ 31) then low else low + (2 ^ 64 - 2 ^ 32)

unfoldable pub used : Data → ℕ
used d = int_widened (length d.key + length d.value + 12)

unfoldable pub sub : ℕ → ℕ → ℕ
sub a b = (a + (width - b % width)) % width

unfoldable pub plus : ℕ → ℕ → ℕ
plus a b = (a + b) % width

-- `find`, `m[k] = v` and `erase` of an unordered_map.
unfoldable pub find : Text → List (Text × ℕ) → Option ℕ
find k [] = none
find k ((j, i) ∷ m) = if text_eq j k then some i else find k m

unfoldable pub store : Text → ℕ → List (Text × ℕ) → List (Text × ℕ)
store k i [] = (k, i) ∷ []
store k i ((j, l) ∷ m) = if text_eq j k then (j, i) ∷ m else (j, l) ∷ store k i m

unfoldable pub erase : Text → List (Text × ℕ) → List (Text × ℕ)
erase k [] = []
erase k ((j, i) ∷ m) = let rest = erase k m in if text_eq j k then rest else (j, i) ∷ rest

-- The Data at an address, and the list without its node.
unfoldable pub data_at : ℕ → List Node → Option Data
data_at i [] = none
data_at i ((j, d) ∷ l) = if j == i then some d else data_at i l

unfoldable pub without : ℕ → List Node → List Node
without i [] = []
without i ((j, d) ∷ l) = if j == i then l else (j, d) ∷ without i l

-- The assignments to `data->key`, `value`, `flags` and `cas`.
unfoldable pub write_data : ℕ → Data → List Node → List Node
write_data i d [] = []
write_data i d ((j, e) ∷ l) = if j == i then (j, d) ∷ l else (j, e) ∷ write_data i d l

-- The case of FindOrInsertData in which the key has an iterator.
unfoldable pub move_to_end : Bucket → Text → ℕ → Option Data → Option (ℕ × Bucket)
move_to_end b k i none = none
move_to_end b k i (some d) = some (
  i,
  record b {
    access_list = without i b.access_list ++ (i, d) ∷ [];
    key_to_litr = store k i b.key_to_litr;
  },
)

-- The case in which it has none.
unfoldable pub insert_data : ℕ → Bucket → Text → ℕ × Bucket
insert_data unset b k = (
  b.next,
  record b {
    access_list =
        b.access_list ++ (b.next, record { key = []; value = []; flags = unset; cas = unset }) ∷ [];
    key_to_litr = store k b.next b.key_to_litr;
    next = suc b.next;
  },
)

find_or_insert_at : ℕ → Bucket → Text → Option ℕ → Option (ℕ × Bucket)
unfolding move_to_end insert_data
find_or_insert_at unset b k none = some (insert_data unset b k)
find_or_insert_at unset b k (some i) = move_to_end b k i (data_at i b.access_list)

unfoldable pub find_or_insert_data : ℕ → Bucket → Text → Option (ℕ × Bucket)
unfolding find_or_insert_at
find_or_insert_data unset b k = find_or_insert_at unset b k (find k b.key_to_litr)

-- The loop of DeleteStaleData over the rest of the list.
unfoldable pub evict : ℕ → Bucket → List Node → Bucket
evict target b [] = record b { access_list = [] }
evict target b ((i, d) ∷ l) =
    let memory = sub b.memory (used d) in
    let b' = record b {
      access_list = l;
      key_to_litr = erase d.key b.key_to_litr;
      memory = memory;
    } in
    let rest = evict target b' l in if ltb memory target then b' else rest

unfoldable pub delete_stale_data : Bucket → ℕ → Bucket
delete_stale_data b decrease_by = evict (sub b.memory decrease_by) b b.access_list

abbrev pub to_data : Text → KeyValue → Data
to_data k kv = record { key = k; value = kv.val; flags = kv.flags; cas = kv.cas }

unfoldable pub make_room : ℕ → ℕ → Bucket → Bucket
make_room threshold decrease_by b =
    if ltb threshold b.memory then delete_stale_data b decrease_by else b

-- The assignments behind FindOrInsertData, through the pointer that it returns.
assign : Text → KeyValue → ℕ → Bucket → Option Data → Option Bucket
assign k kv i b none = none
assign k kv i b (some old) =
    let fresh = to_data k kv in
    some (record b {
      access_list = write_data i fresh b.access_list;
      memory = plus (sub b.memory (used old)) (used fresh);
    })

assign_at : Text → KeyValue → Option (ℕ × Bucket) → Option Bucket
unfolding assign
assign_at k kv none = none
assign_at k kv (some (i, b)) = assign k kv i b (data_at i b.access_list)

unfoldable pub add_or_replace : ℕ → ℕ → ℕ → Bucket → Text → KeyValue → Option Bucket
unfolding make_room assign_at
add_or_replace unset threshold decrease_by b k kv =
    assign_at k kv (find_or_insert_data unset (make_room threshold decrease_by b) k)

-- `none` in the pair is a miss.
unfoldable pub answer : Data → Option KeyValue
answer d = elim d.value [
  | [] ↦ none
  | c ∷ v ↦ some (record { val = d.value; flags = d.flags; cas = d.cas })
]

unfoldable pub read_at : Bucket → Option Data → Option (Option KeyValue × Bucket)
unfolding answer
read_at b none = none
read_at b (some d) = some (answer d, b)

unfoldable pub get_at : Option (ℕ × Bucket) → Option (Option KeyValue × Bucket)
unfolding read_at
get_at none = none
get_at (some (i, b)) = read_at b (data_at i b.access_list)

unfoldable pub get : ℕ → Bucket → Text → Option (Option KeyValue × Bucket)
unfolding get_at
get unset b k = get_at (find_or_insert_data unset b k)
