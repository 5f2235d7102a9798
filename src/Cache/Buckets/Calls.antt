-- ===== src/Cache/Buckets/Calls.antt =====
-- AddOrReplace on a bucket, any number of times, and Get behind it.
use memcache_router.Prelude.{ℕ, [], ◌∷◌, Option, none, some, ◌≡◌, refl, sym, ap, subst, ◌∙◌}
use memcache_router.Prelude.Text.{Text}
use memcache_router.Cache.Buckets.{
  Data, KeyValue, Bucket, new_bucket, find, data_at, to_data, find_or_insert_data,
  find_or_insert_at, move_to_end, make_room, add_or_replace, assign_at, assign, get, get_at,
  read_at, answer,
}
use memcache_router.Cache.Buckets.Valid.{
  some-injective, IsValid, moved, moved-IsValid, moved-IsSame,
}
use memcache_router.Cache.Buckets.Evict.{IsGood, make_room-IsGood}
use memcache_router.Cache.Buckets.Write.{
  assigned, find_or_insert_data-IsOpened, data_at_self, assigned-IsGood,
}

-- What a Get gives for a stored message: an empty value is a miss.
unfoldable pub stored : KeyValue → Option KeyValue
stored kv = elim kv.val [ [] ↦ none | c ∷ v ↦ some kv ]

answer-to_data : (k : Text) (kv : KeyValue) → answer (to_data k kv) ≡ stored kv
unfolding answer stored
answer-to_data k kv = refl

get_found :
    (unset : ℕ) (b : Bucket) (k : Text) (i : ℕ) (d : Data)
    → IsValid b
    → find k b.key_to_litr ≡ some i
    → data_at i b.access_list ≡ some d
    → get unset b k ≡ some (answer d, moved b k i d)
unfolding get get_at read_at find_or_insert_data find_or_insert_at move_to_end
get_found unset b k i d v f at =
    let same = moved-IsSame b k i d v f at in let there = same.holds i ∙ at in rw (f, at, there)

-- On a bucket in order AddOrReplace follows no iterator to an erased node, whatever the limit and
-- whatever is evicted for it; the bucket is in order again, and a Get of the key gives what was
-- stored, or a miss if the value is empty.
pub get-add_or_replace :
    (unset threshold decrease_by : ℕ) (b : Bucket) (k : Text) (kv : KeyValue)
    → IsGood b
    → (b' : Bucket) × (add_or_replace unset threshold decrease_by b k kv ≡ some b')
      × IsGood b'
      × ((u : ℕ) → (b'' : Bucket) × (get u b' k ≡ some (stored kv, b'')))
unfolding add_or_replace assign_at assign
get-add_or_replace unset threshold decrease_by b k kv g =
    let room = make_room-IsGood threshold decrease_by b g in
    let (i, b1, opens, o) =
      find_or_insert_data-IsOpened unset (make_room threshold decrease_by b) k room in
    let (old, at) = o.valid.linked k i o.found in
    let good = assigned-IsGood k kv i b1 old o at in
    (
      assigned k kv i old b1,
      rw (opens, at),
      good,
      λ u. (
        moved (assigned k kv i old b1) k i (to_data k kv),
        get_found u (assigned k kv i old b1) k i (to_data k kv) good.0 o.found
              (data_at_self k kv i b1 old o at)
            ∙ ap (λ x. some (x, moved (assigned k kv i old b1) k i (to_data k kv)))
                (answer-to_data k kv),
      ),
    )

pub new_bucket-IsGood : IsGood new_bucket
unfolding find data_at
new_bucket-IsGood = (
  record { distinct = tt; below = λ i d e. cc; linked = λ k i e. cc; injective = λ j k i e f. cc },
  λ i d e. cc,
)

-- The buckets that calls lead to: AddOrReplace with any limits, and Get of keys that are in the map.
pub data IsReached : Bucket → Type 0 where
  start : IsReached new_bucket
  then_add :
      (unset threshold decrease_by : ℕ) (k : Text) (kv : KeyValue) {b b' : Bucket}
      → IsReached b
      → add_or_replace unset threshold decrease_by b k kv ≡ some b'
      → IsReached b'
  then_get :
      (unset : ℕ) (k : Text) (i : ℕ) {a : Option KeyValue} {b b' : Bucket}
      → IsReached b
      → find k b.key_to_litr ≡ some i
      → get unset b k ≡ some (a, b')
      → IsReached b'

get-IsGood :
    (unset : ℕ) (k : Text) (i : ℕ) {a : Option KeyValue} (b b' : Bucket)
    → IsGood b
    → find k b.key_to_litr ≡ some i
    → get unset b k ≡ some (a, b')
    → IsGood b'
get-IsGood unset k i b b' (v, keyed) f e =
    let (d, at) = v.linked k i f in
    let same = moved-IsSame b k i d v f at in
    let good : IsGood (moved b k i d) = (
      moved-IsValid b k i d v f at,
      λ j x p. same.finds x.key ∙ keyed j x (sym (same.holds j) ∙ p),
    ) in
    let reached = some-injective (sym (get_found unset b k i d v f at) ∙ e) in
    subst IsGood (ap (λ (p : Option KeyValue × Bucket). p.1) reached) good

-- Every bucket that a new one is led to by AddOrReplace, with any limits and evictions, and by Get of
-- keys that are in the map, is in order: no address stands twice in the list, each iterator of the
-- map leads to a node of the list, different keys to different nodes, and each node is found under
-- the key that it carries.
pub IsReached-IsGood : {b : Bucket} → IsReached b → IsGood b
IsReached-IsGood start = new_bucket-IsGood
IsReached-IsGood (then_add unset threshold decrease_by k kv {b} r e) =
    let (b1, adds, good, _) =
      get-add_or_replace unset threshold decrease_by b k kv (IsReached-IsGood r) in
    subst IsGood (some-injective (sym adds ∙ e)) good
IsReached-IsGood (then_get unset k i {b = b} {b' = b'} r f e) =
    get-IsGood unset k i b b' (IsReached-IsGood r) f e
