-- ===== src/Cache/Buckets/Valid.antt =====
-- When the map and the list of a bucket fit together, and that FindOrInsertData keeps it so.

use memcache_router.Prelude.{
  ℕ, suc, ◌<◌, List, [], ◌∷◌, ◌++◌, none, some, ◌≡◌, refl, sym, ap, ◌∙◌, arith, ◌==◌, ==_iff,
  ==_refl, if◌then◌else◌, Bool-cases, Option-cases, inl, inr, ◌⊎◌,
}
use memcache_router.Prelude.Text.{Text, text_eq, text_eq_iff, eq_of_text_eq}
use memcache_router.Cache.Buckets.{Data, Node, Bucket, find, store, data_at, without}
use memcache_router.Cache.Buckets.Nodes.{
  IsDistinct, find-store, find-store_other, data_at-without, data_at-without_other, data_at-append,
  IsDistinct-append, IsDistinct-without,
}

pub record IsValid (b : Bucket) : Type 0 where
  pub distinct : IsDistinct b.access_list
  pub below : (i : ℕ) (d : Data) → data_at i b.access_list ≡ some d → i < b.next
  pub linked :
      (k : Text) (i : ℕ)
      → find k b.key_to_litr ≡ some i
      → (d : Data) × (data_at i b.access_list ≡ some d)
  pub injective :
      (j k : Text) (i : ℕ) → find j b.key_to_litr ≡ some i → find k b.key_to_litr ≡ some i → j ≡ k

-- Another bucket with the same entries, perhaps in another order.
pub record IsSame (b b' : Bucket) : Type 0 where
  pub finds : (k : Text) → find k b'.key_to_litr ≡ find k b.key_to_litr
  pub holds : (i : ℕ) → data_at i b'.access_list ≡ data_at i b.access_list
  pub next : b'.next ≡ b.next

pub IsValid-IsSame :
    (b b' : Bucket) → IsSame b b' → IsDistinct b'.access_list → IsValid b → IsValid b'
IsValid-IsSame b b' s h v = record {
  distinct = h;
  below = λ i d e. rw s.next (v.below i d (sym (s.holds i) ∙ e));
  linked = λ k i e. let (d, at) = v.linked k i (sym (s.finds k) ∙ e) in (d, s.holds i ∙ at);
  injective = λ j k i ej ek. v.injective j k i (sym (s.finds j) ∙ ej) (sym (s.finds k) ∙ ek);
}

find-store_same :
    (j k : Text) (i : ℕ) (m : List (Text × ℕ)) → find k m ≡ some i → find j (store k i m) ≡ find j m
find-store_same j k i m h = elim (Bool-cases (text_eq j k)) [
  | inl e ↦ rw (eq_of_text_eq j k e, find-store, h)
  | inr e ↦ find-store_other j k i m (λ p. ground (arith, text_eq_iff j k))
]

data_at-moved :
    (i j : ℕ) (d : Data) (l : List Node)
    → IsDistinct l
    → data_at i l ≡ some d
    → data_at j (without i l ++ (i, d) ∷ []) ≡ data_at j l
data_at-moved i j d l h e =
    rw (data_at-append i j d (without i l) (data_at-without i l h)) (elim (Bool-cases (i == j)) [
      | inl p ↦ rw p (sym e ∙ ap (λ x. data_at x l) (ground (arith, ==_iff i j)))
      | inr p ↦ rw p (data_at-without_other i j l (λ q. ground (arith, ==_iff i j)))
    ])

-- The bucket after FindOrInsertData has moved a node.
abbrev pub moved : Bucket → Text → ℕ → Data → Bucket
moved b k i d = record b {
  access_list = without i b.access_list ++ (i, d) ∷ [];
  key_to_litr = store k i b.key_to_litr;
}

pub moved-IsSame :
    (b : Bucket) (k : Text) (i : ℕ) (d : Data)
    → IsValid b
    → find k b.key_to_litr ≡ some i
    → data_at i b.access_list ≡ some d
    → IsSame b (moved b k i d)
moved-IsSame b k i d v f e = record {
  finds = λ j. find-store_same j k i b.key_to_litr f;
  holds = λ j. data_at-moved i j d b.access_list v.distinct e;
  next = refl;
}

pub moved-IsValid :
    (b : Bucket) (k : Text) (i : ℕ) (d : Data)
    → IsValid b
    → find k b.key_to_litr ≡ some i
    → data_at i b.access_list ≡ some d
    → IsValid (moved b k i d)
moved-IsValid b k i d v f e =
    IsValid-IsSame b (moved b k i d) (moved-IsSame b k i d v f e)
      (IsDistinct-append i d _ (data_at-without i b.access_list v.distinct)
        (IsDistinct-without i b.access_list v.distinct))
      v

abbrev pub unset_data : ℕ → Data
unset_data unset = record { key = []; value = []; flags = unset; cas = unset }

-- The bucket after FindOrInsertData has inserted a node.
abbrev pub inserted : ℕ → Bucket → Text → Bucket
inserted unset b k = record b {
  access_list = b.access_list ++ (b.next, unset_data unset) ∷ [];
  key_to_litr = store k b.next b.key_to_litr;
  next = suc b.next;
}

pub next-unused : (b : Bucket) → IsValid b → data_at b.next b.access_list ≡ none
next-unused b v = elim (Option-cases (data_at b.next b.access_list)) [
  | inl e ↦ e
  | inr (d, e) ↦ absurd (omega (arith, v.below b.next d e))
]

pub some-injective {ℓ} : {A : Type ℓ} {x y : A} → some x ≡ some y → x ≡ y
some-injective e = cc

module _ (unset : ℕ) (b : Bucket) (k : Text) (v : IsValid b) where
  -- A key that is in the new map is the new one, or was in the map, with a smaller address.
  find_inserted :
      (j : Text) (i : ℕ)
      → find j (store k b.next b.key_to_litr) ≡ some i
      → ((j ≡ k) × (i ≡ b.next)) ⊎ ((find j b.key_to_litr ≡ some i) × (i < b.next))
  find_inserted j i e = elim (Bool-cases (text_eq j k)) [
    | inl p ↦
        let same = eq_of_text_eq j k p in
        inl (same, sym (some-injective (sym (find-store k b.next b.key_to_litr) ∙ (rw same at e))))
    | inr p ↦
        let old =
          sym (find-store_other j k b.next b.key_to_litr (λ q. ground (arith, text_eq_iff j k)))
          ∙ e in
        let (d, at) = v.linked j i old in inr (old, v.below i d at)
  ]

  pub data_at-inserted :
      (i : ℕ)
      → data_at i (inserted unset b k).access_list
        ≡ (if b.next == i then some (unset_data unset) else data_at i b.access_list)
  data_at-inserted i = data_at-append b.next i (unset_data unset) b.access_list (next-unused b v)

  below_inserted :
      (i : ℕ) (d : Data) → data_at i (inserted unset b k).access_list ≡ some d → i < suc b.next
  below_inserted i d e = elim (Bool-cases (b.next == i)) [
    | inl p ↦ ground (arith, ==_iff b.next i)
    | inr p ↦ ground (arith, data_at-inserted i, v.below i d)
  ]

  linked_inserted :
      (j : Text) (i : ℕ)
      → find j (store k b.next b.key_to_litr) ≡ some i
      → (d : Data) × (data_at i (inserted unset b k).access_list ≡ some d)
  linked_inserted j i e = elim (find_inserted j i e) [
    | inl (p, q) ↦ (unset_data unset, rw (data_at-inserted, q, ==_refl))
    | inr (old, h) ↦ let (d, at) = v.linked j i old in (d, rw data_at-inserted (ground arith))
  ]

  injective_inserted :
      (j l : Text) (i : ℕ)
      → find j (store k b.next b.key_to_litr) ≡ some i
      → find l (store k b.next b.key_to_litr) ≡ some i
      → j ≡ l
  injective_inserted j l i ej el = elim (find_inserted j i ej) [
    | inl (p, q) ↦ elim (find_inserted l i el) [
      | inl (p', q') ↦ p ∙ sym p'
      | inr (o', h') ↦ absurd (omega (arith, q, h'))
    ]
    | inr (o, h) ↦ elim (find_inserted l i el) [
      | inl (p', q') ↦ absurd (omega (arith, q', h))
      | inr (o', h') ↦ v.injective j l i o o'
    ]
  ]

  pub inserted-IsValid : IsValid (inserted unset b k)
  inserted-IsValid = record {
    distinct = IsDistinct-append b.next _ b.access_list (next-unused b v) v.distinct;
    below = below_inserted;
    linked = linked_inserted;
    injective = injective_inserted;
  }
