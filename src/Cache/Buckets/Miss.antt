-- ===== src/Cache/Buckets/Miss.antt =====
-- A Get of a key that is not in the map: the node that it leaves, and what the node's eviction does.
use memcache_router.Prelude.{ℕ, [], none, some, ◌≡◌, ◌≢◌, refl, ltb, ==_refl, Bool-cases, inl, inr}
use memcache_router.Prelude.Text.{Text, text_eq_refl, text_eq_of_ne}
use memcache_router.Cache.Buckets.{
  Bucket, new_bucket, find, store, erase, data_at, used, sub, evict, delete_stale_data,
  find_or_insert_data, find_or_insert_at, move_to_end, insert_data, get, get_at, read_at, answer,
}
use memcache_router.Cache.Buckets.Valid.{
  IsValid, inserted, inserted-IsValid, data_at-inserted, unset_data,
}

-- A Get of a key that is not in the map is a miss, and leaves the map and the list in order but for
-- the node that it adds, which does not carry the key.
pub get-eq-miss :
    (unset : ℕ) (b : Bucket) (k : Text)
    → IsValid b
    → find k b.key_to_litr ≡ none
    → (b' : Bucket) × (get unset b k ≡ some (none, b'))
      × IsValid b'
      × (data_at b.next b'.access_list ≡ some (unset_data unset))
unfolding get get_at read_at answer find_or_insert_data find_or_insert_at insert_data
get-eq-miss unset b k v f =
    let there : data_at b.next (inserted unset b k).access_list ≡ some (unset_data unset) =
      rw (data_at-inserted unset b k v, ==_refl) in
    (inserted unset b k, rw (f, there), inserted-IsValid unset b k v, there)

-- On a new bucket: after a Get of a key that is not the empty string, which is a miss, and one
-- DeleteStaleData, with any amount, the next Get of the key follows an iterator to an erased node.
pub get-eq-undefined :
    (unset decrease_by : ℕ) (k : Text)
    → k ≢ []
    → (b : Bucket) × (get unset new_bucket k ≡ some (none, b))
      × (get unset (delete_stale_data b decrease_by) k ≡ none)
unfolding get get_at read_at answer find_or_insert_data find_or_insert_at insert_data move_to_end
    delete_stale_data evict erase find store data_at
get-eq-undefined unset decrease_by k h = (
  inserted unset new_bucket k,
  refl,
  elim (Bool-cases (ltb (sub 0 (used (unset_data unset))) (sub 0 decrease_by))) [
    | inl e ↦ rw (e, text_eq_of_ne k [] h, text_eq_refl)
    | inr e ↦ rw (e, text_eq_of_ne k [] h, text_eq_refl)
  ],
)
