-- ===== src/Cache/Buckets/Evict.antt =====
-- That DeleteStaleData keeps a bucket whose nodes carry their keys in order.
use memcache_router.Prelude.{
  ℕ, List, [], ◌∷◌, none, some, ◌≡◌, ◌≢◌, refl, sym, subst, ◌∙◌, arith, ==_iff, ltb, ==_refl,
  Bool-cases, inl, inr,
}
use memcache_router.Prelude.Text.{Text}
use memcache_router.Cache.Buckets.{
  Data, Node, Bucket, used, sub, find, erase, data_at, evict, delete_stale_data, make_room,
}
use memcache_router.Cache.Buckets.Nodes.{find-erase, find-erase_other}
use memcache_router.Cache.Buckets.Valid.{IsValid, some-injective}

-- Each node is found under the key that it carries.
abbrev pub IsKeyed : Bucket → Type 0
IsKeyed b =
    (i : ℕ) (d : Data) → data_at i b.access_list ≡ some d → find d.key b.key_to_litr ≡ some i

abbrev popped : Bucket → Data → List Node → Bucket
popped b d l = record b {
  access_list = l;
  key_to_litr = erase d.key b.key_to_litr;
  memory = sub b.memory (used d);
}

data_at-cons : (i j : ℕ) (d : Data) (l : List Node) → j ≢ i → data_at j ((i, d) ∷ l) ≡ data_at j l
unfolding data_at
data_at-cons i j d l h = ground (arith, ==_iff i j)

data_at-head : (i : ℕ) (d : Data) (l : List Node) → data_at i ((i, d) ∷ l) ≡ some d
unfolding data_at
data_at-head i d l = rw ==_refl

module _ (b : Bucket) (i : ℕ) (d : Data) (l : List Node) (same : b.access_list ≡ (i, d) ∷ l)
    (v : IsValid b) (keyed : IsKeyed b) where
  head_unique : data_at i l ≡ none
  head_unique = (rw same at v.distinct).0

  head_found : find d.key b.key_to_litr ≡ some i
  head_found = keyed i d (rw (same, data_at-head))

  -- A node behind the head is another one, and stands in the whole list.
  behind : (j : ℕ) (e : Data) → data_at j l ≡ some e → data_at j b.access_list ≡ some e
  behind j e h =
      rw (same, data_at-cons i j d l (λ p. let bad = sym head_unique ∙ (rw p at h) in cc)) h

  -- A key that is left in the map leads behind the head.
  left :
      (k : Text) (j : ℕ)
      → find k (erase d.key b.key_to_litr) ≡ some j
      → (find k b.key_to_litr ≡ some j) × (j ≢ i)
  left k j h =
      let other : k ≢ d.key =
        λ p. let bad = sym (find-erase d.key b.key_to_litr) ∙ (rw p at h) in cc in
      let found = sym (find-erase_other k d.key b.key_to_litr other) ∙ h in
      (found, λ p. other (v.injective k d.key i (rw p at found) head_found))

  popped-IsValid : IsValid (popped b d l)
  popped-IsValid = record {
    distinct = (rw same at v.distinct).1;
    below = λ j e h. v.below j e (behind j e h);
    linked = λ k j h.
        let (found, other) = left k j h in
        let (e, at) = v.linked k j found in (e, sym (data_at-cons i j d l other) ∙ (rw same at at));
    injective = λ k k' j h h'. v.injective k k' j (left k j h).0 (left k' j h').0;
  }

  popped-IsKeyed : IsKeyed (popped b d l)
  popped-IsKeyed j e h =
      let found = keyed j e (behind j e h) in
      find-erase_other e.key d.key b.key_to_litr (λ p.
        let same_node : i ≡ j = some-injective (sym head_found ∙ (rw p at found)) in
        let bad = sym head_unique ∙ (rw (← same_node) at h) in cc)
      ∙ found

abbrev pub IsGood : Bucket → Type 0
IsGood b = IsValid b × IsKeyed b

emptied-IsGood :
    (b : Bucket) → b.access_list ≡ [] → IsGood b → IsGood (record b { access_list = [] })
emptied-IsGood b same g = subst (λ l. IsGood (record b { access_list = l })) same g

evict-IsGood :
    (target : ℕ) (b : Bucket) (l : List Node)
    → b.access_list ≡ l
    → IsGood b
    → IsGood (evict target b l)
unfolding evict
evict-IsGood target b [] same (v, keyed) = emptied-IsGood b same (v, keyed)
evict-IsGood target b ((i, d) ∷ l) same (v, keyed) =
    let good : IsGood (popped b d l) =
      (popped-IsValid b i d l same v keyed, popped-IsKeyed b i d l same v keyed) in
    elim (Bool-cases (ltb (sub b.memory (used d)) target)) [
      | inl e ↦ rw e good
      | inr e ↦ rw e (evict-IsGood target (popped b d l) l refl good)
    ]

pub make_room-IsGood :
    (threshold decrease_by : ℕ) (b : Bucket) → IsGood b → IsGood (make_room threshold decrease_by b)
unfolding make_room delete_stale_data
make_room-IsGood threshold decrease_by b g = elim (Bool-cases (ltb threshold b.memory)) [
  | inl e ↦ rw e (evict-IsGood (sub b.memory decrease_by) b b.access_list refl g)
  | inr e ↦ rw e g
]
