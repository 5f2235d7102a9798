-- ===== src/Cache/Buckets/Memory.antt =====
-- What AddOrReplace makes of the memory count of a bucket.
use memcache_router.Prelude.{
  ℕ, ◌+◌, ◌%◌, ◌^◌, ◌<◌, ◌≤◌, none, some, length, ◌≡◌, ap, ◌∙◌, arith, false, ltb, ==_refl,
}
use memcache_router.Prelude.Text.{Text}
use memcache_router.Cache.Buckets.{
  KeyValue, Bucket, int_widened, used, sub, plus, find, data_at, to_data, find_or_insert_data,
  find_or_insert_at, insert_data, make_room, add_or_replace, assign_at, assign,
}
use memcache_router.Cache.Buckets.Valid.{IsValid, inserted, data_at-inserted, unset_data}
use memcache_router.Cache.Buckets.Write.{assigned}

sum-memory : (m n : ℕ) → plus (sub m 12) (n + 12) ≡ (m + n) % 2 ^ 64
unfolding plus sub
sum-memory m n = omega arith

int_widened_small : (n : ℕ) → n < 2 ^ 31 → int_widened n ≡ n
unfolding int_widened
int_widened_small n h = ground arith

used_assigned :
    (unset : ℕ) (k : Text) (kv : KeyValue) (m : ℕ)
    → length k + length kv.val + 12 < 2 ^ 31
    → plus (sub m (used (unset_data unset))) (used (to_data k kv))
      ≡ (m + (length k + length kv.val)) % 2 ^ 64
unfolding used
used_assigned unset k kv m small =
    ap (λ n. plus (sub m n) (int_widened (length k + length kv.val + 12)))
      (int_widened_small 12 (omega arith))
    ∙ ap (λ n. plus (sub m 12) n) (int_widened_small (length k + length kv.val + 12) small)
    ∙ sum-memory m (length k + length kv.val)

-- Where a bucket in order is not over its limit and has no entry for a key, and where the sizes of the
-- key and the value and 12 are below 2^31 together, which is the range of Used, AddOrReplace of the key
-- raises the memory count by the sizes of the key and the value alone, modulo 2^64: the 12 bytes for
-- flags and cas, which Used has and an eviction takes off, are not counted.
pub add_or_replace-memory :
    (unset threshold decrease_by : ℕ) (b : Bucket) (k : Text) (kv : KeyValue)
    → IsValid b
    → b.memory ≤ threshold
    → find k b.key_to_litr ≡ none
    → length k + length kv.val + 12 < 2 ^ 31
    → (b' : Bucket) × (add_or_replace unset threshold decrease_by b k kv ≡ some b')
      × (b'.memory ≡ (b.memory + (length k + length kv.val)) % 2 ^ 64)
unfolding add_or_replace make_room assign_at assign find_or_insert_data find_or_insert_at
    insert_data
add_or_replace-memory unset threshold decrease_by b k kv v h f small =
    let under : ltb threshold b.memory ≡ false = ground arith in
    let there : data_at b.next (inserted unset b k).access_list ≡ some (unset_data unset) =
      rw (data_at-inserted unset b k v, ==_refl) in
    (
      assigned k kv b.next (unset_data unset) (inserted unset b k),
      rw (under, f, there),
      used_assigned unset k kv b.memory small,
    )
