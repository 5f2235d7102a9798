-- ===== src/Cache/Buckets/Write.antt =====
-- AddOrReplace and Get on a bucket in order.
use memcache_router.Prelude.{
  ℕ, none, some, ◌≡◌, ◌≢◌, sym, ◌∙◌, arith, ◌==◌, ==_iff, ==_refl, if◌then◌else◌, Bool-cases,
  Option-cases, inl, inr,
}
use memcache_router.Prelude.Text.{Text}
use memcache_router.Cache.Buckets.{
  Data, KeyValue, Bucket, used, sub, plus, find, data_at, write_data, to_data, find_or_insert_data,
  find_or_insert_at, move_to_end, insert_data,
}
use memcache_router.Cache.Buckets.Nodes.{
  find-store, find-store_other, data_at-write_data, IsDistinct-write_data,
}
use memcache_router.Cache.Buckets.Valid.{
  IsValid, moved, inserted, moved-IsValid, moved-IsSame, inserted-IsValid, data_at-inserted,
  some-injective,
}
use memcache_router.Cache.Buckets.Evict.{IsGood}

-- Each node but that of one address is found under the key that it carries.
abbrev pub IsKeyedBut : ℕ → Bucket → Type 0
IsKeyedBut i b =
    (j : ℕ) (d : Data)
    → j ≢ i
    → data_at j b.access_list ≡ some d
    → find d.key b.key_to_litr ≡ some j

-- The address of a key, behind which the bucket is in order but for the key that the node carries.
pub record IsOpened (k : Text) (i : ℕ) (b : Bucket) : Type 0 where
  pub valid : IsValid b
  pub found : find k b.key_to_litr ≡ some i
  pub others : IsKeyedBut i b

moved-IsOpened :
    (b : Bucket) (k : Text) (i : ℕ) (d : Data)
    → IsGood b
    → find k b.key_to_litr ≡ some i
    → data_at i b.access_list ≡ some d
    → IsOpened k i (moved b k i d)
moved-IsOpened b k i d (v, keyed) f at =
    let same = moved-IsSame b k i d v f at in
    record {
      valid = moved-IsValid b k i d v f at;
      found = find-store k i b.key_to_litr;
      others = λ j e h p. same.finds e.key ∙ keyed j e (sym (same.holds j) ∙ p);
    }

inserted-IsOpened :
    (unset : ℕ) (b : Bucket) (k : Text)
    → IsGood b
    → find k b.key_to_litr ≡ none
    → IsOpened k b.next (inserted unset b k)
inserted-IsOpened unset b k (v, keyed) f = record {
  valid = inserted-IsValid unset b k v;
  found = find-store k b.next b.key_to_litr;
  others = λ j e h p.
      let old = keyed j e (ground (arith, data_at-inserted unset b k v j)) in
      find-store_other e.key k b.next b.key_to_litr (λ q. let bad = sym f ∙ (rw q at old) in cc)
      ∙ old;
}

pub find_or_insert_data-IsOpened :
    (unset : ℕ) (b : Bucket) (k : Text)
    → IsGood b
    → (i : ℕ) × (b' : Bucket) × (find_or_insert_data unset b k ≡ some (i, b')) × IsOpened k i b'
unfolding find_or_insert_data find_or_insert_at move_to_end insert_data
find_or_insert_data-IsOpened unset b k g = elim (Option-cases (find k b.key_to_litr)) [
  | inl e ↦ (b.next, inserted unset b k, rw e, inserted-IsOpened unset b k g e)
  | inr (i, e) ↦
      let (d, at) = (g.0).linked k i e in
      (i, moved b k i d, rw (e, at), moved-IsOpened b k i d g e at)
]

-- The assignments to the Data at an address.
abbrev pub assigned : Text → KeyValue → ℕ → Data → Bucket → Bucket
assigned k kv i old b = record b {
  access_list = write_data i (to_data k kv) b.access_list;
  memory = plus (sub b.memory (used old)) (used (to_data k kv));
}

module _ (k : Text) (kv : KeyValue) (i : ℕ) (b : Bucket) (old : Data) (o : IsOpened k i b)
    (at : data_at i b.access_list ≡ some old) where
  data_at-assigned :
      (j : ℕ)
      → data_at j (assigned k kv i old b).access_list
        ≡ (if i == j then some (to_data k kv) else data_at j b.access_list)
  data_at-assigned j = data_at-write_data i j (to_data k kv) old b.access_list at

  pub data_at_self : data_at i (assigned k kv i old b).access_list ≡ some (to_data k kv)
  data_at_self = rw (data_at-assigned, ==_refl)

  pub assigned-IsGood : IsGood (assigned k kv i old b)
  assigned-IsGood = (
    record {
      distinct = IsDistinct-write_data i _ b.access_list o.valid.distinct;
      below = λ j d e. elim (Bool-cases (i == j)) [
        | inl p ↦ ground (arith, ==_iff i j, o.valid.below i old at)
        | inr p ↦ o.valid.below j d (ground (arith, data_at-assigned j))
      ];
      linked = λ j l e.
          let (d, there) = o.valid.linked j l e in
          elim (Bool-cases (i == l)) [
            | inl p ↦ (to_data k kv, rw (data_at-assigned, p))
            | inr p ↦ (d, rw (data_at-assigned, p) there)
          ];
      injective = o.valid.injective;
    },
    λ j d e. elim (Bool-cases (i == j)) [
      | inl p ↦
          let written : to_data k kv ≡ d = some-injective (ground (arith, data_at-assigned j)) in
          let same : i ≡ j = ground (arith, ==_iff i j) in rw (← written, ← same) o.found
      | inr p ↦ o.others j d (λ q. ground (arith, ==_iff i j)) (ground (arith, data_at-assigned j))
    ],
  )
