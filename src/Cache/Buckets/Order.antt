-- ===== src/Cache/Buckets/Order.antt =====
-- The order of the access list: what is used goes to the back, what is evicted goes from the front.
use memcache_router.Prelude.{
  ℕ, suc, ◌<◌, ◌≤◌, ◌⊎◌, List, [], ◌∷◌, ◌++◌, none, some, ◌≡◌, ◌≢◌, refl, ap, arith, false, ltb,
  Option-cases, Bool-cases, inl, inr,
}
use memcache_router.Prelude.Text.{Text}
use memcache_router.Cache.Buckets.{
  Data, Node, Bucket, used, sub, erase, find, data_at, without, evict, delete_stale_data,
  find_or_insert_data, find_or_insert_at, insert_data, move_to_end,
}
use memcache_router.Cache.Buckets.Nodes.{find-store, find-store_other}
use memcache_router.Cache.Buckets.Valid.{IsValid, moved, inserted, next-unused, unset_data}

without_absent : (i : ℕ) (l : List Node) → data_at i l ≡ none → without i l ≡ l
unfolding data_at without
without_absent i [] h = refl
without_absent i ((j, d) ∷ l) h = ground (arith, without_absent i l)

-- What FindOrInsertData gives for a key: the node that the key has, or a new one with empty strings.
abbrev pub IsOwnNode : ℕ → Bucket → Text → ℕ → Data → Bucket → Type 0
IsOwnNode unset b k i d b' =
    ((find k b.key_to_litr ≡ some i) × (data_at i b.access_list ≡ some d) × (b'.next ≡ b.next))
    ⊎ ((find k b.key_to_litr ≡ none)
        × (data_at i b.access_list ≡ none)
        × (d ≡ unset_data unset)
        × (b'.next ≡ suc i))

-- On a bucket in order FindOrInsertData gives the address of the node that the key's iterator points
-- to, or of a new node with empty strings if the key has no iterator. That node then is the last of
-- the list, and the other nodes stand before it in the order in which they stood; the key has the
-- address, every other key has the one that it had, and the memory count is as it was.
pub find_or_insert_data-order :
    (unset : ℕ) (b : Bucket) (k : Text)
    → IsValid b
    → (i : ℕ) × (d : Data) × (b' : Bucket) × (find_or_insert_data unset b k ≡ some (i, b'))
      × IsOwnNode unset b k i d b'
      × (b'.access_list ≡ without i b.access_list ++ (i, d) ∷ [])
      × (find k b'.key_to_litr ≡ some i)
      × ((j : Text) → j ≢ k → find j b'.key_to_litr ≡ find j b.key_to_litr)
      × (b'.memory ≡ b.memory)
unfolding find_or_insert_data find_or_insert_at insert_data move_to_end
find_or_insert_data-order unset b k v = elim (Option-cases (find k b.key_to_litr)) [
  | inl e ↦ (
    b.next,
    unset_data unset,
    inserted unset b k,
    rw e,
    inr (e, next-unused b v, refl, refl),
    rw (without_absent b.next b.access_list (next-unused b v)),
    find-store k b.next b.key_to_litr,
    λ j. find-store_other j k b.next b.key_to_litr,
    refl,
  )
  | inr (i, e) ↦
      let (d, at) = v.linked k i e in
      (
        i,
        d,
        moved b k i d,
        rw (e, at),
        inl (e, at, refl),
        refl,
        find-store k i b.key_to_litr,
        λ j. find-store_other j k i b.key_to_litr,
        refl,
      )
]

-- What the nodes of a list leave of a memory count, and of the map, when they are taken away.
unfoldable pub memory_after : List Node → ℕ → ℕ
memory_after [] m = m
memory_after ((i, d) ∷ l) m = memory_after l (sub m (used d))

unfoldable pub erase_all : List Node → List (Text × ℕ) → List (Text × ℕ)
erase_all [] m = m
erase_all ((i, d) ∷ l) m = erase_all l (erase d.key m)

-- Without the last of the nodes the memory count is not below the target.
unfoldable pub IsNeeded : ℕ → List Node → ℕ → Type 0
IsNeeded target [] m = Unit
IsNeeded target ((i, d) ∷ []) m = Unit
IsNeeded target ((i, d) ∷ x ∷ l) m =
    (target ≤ sub m (used d)) × IsNeeded target (x ∷ l) (sub m (used d))

-- A bucket that lost the nodes of `front`, and none too many or too few.
abbrev pub IsEvicted : ℕ → Bucket → List Node → List Node → Bucket → Type 0
IsEvicted target b l front b' =
    (l ≡ front ++ b'.access_list)
    × (b'.key_to_litr ≡ erase_all front b.key_to_litr)
    × (b'.memory ≡ memory_after front b.memory)
    × (b'.next ≡ b.next)
    × IsNeeded target front b.memory
    × ((b'.access_list ≡ []) ⊎ ((b'.memory < target) × (front ≢ [])))

IsNeeded-cons :
    (target i : ℕ) (d : Data) (front : List Node) (m : ℕ)
    → target ≤ sub m (used d)
    → IsNeeded target front (sub m (used d))
    → IsNeeded target ((i, d) ∷ front) m
unfolding IsNeeded
IsNeeded-cons target i d [] m le h = tt
IsNeeded-cons target i d (x ∷ l) m le h = (le, h)

not_below : (m target : ℕ) → ltb m target ≡ false → target ≤ m
not_below m target e = ground arith

kept_less :
    (target i : ℕ) (d : Data) (b' : Bucket) (front : List Node)
    → (b'.access_list ≡ []) ⊎ ((b'.memory < target) × (front ≢ []))
    → (b'.access_list ≡ []) ⊎ ((b'.memory < target) × ((i, d) ∷ front ≢ []))
kept_less target i d b' front (inl e) = inl e
kept_less target i d b' front (inr (less, some_node)) = inr (less, λ e. cc)

evict-IsEvicted :
    (target : ℕ) (b : Bucket) (l : List Node)
    → (front : List Node) × IsEvicted target b l front (evict target b l)
unfolding evict memory_after erase_all IsNeeded
evict-IsEvicted target b [] = ([], (refl, refl, refl, refl, tt, inl refl))
evict-IsEvicted target b ((i, d) ∷ l) =
    let b1 : Bucket = record b {
      access_list = l;
      key_to_litr = erase d.key b.key_to_litr;
      memory = sub b.memory (used d);
    } in
    elim (Bool-cases (ltb (sub b.memory (used d)) target)) [
      | inl e ↦ ((i, d) ∷ [], (rw e, rw e, rw e, rw e, tt, rw e (inr (ground arith, λ p. cc))))
      | inr e ↦
          let (front, (same, erased, left, next, needed, ends)) = evict-IsEvicted target b1 l in
          (
            (i, d) ∷ front,
            (
              rw e (ap (λ x. (i, d) ∷ x) same),
              rw e erased,
              rw e left,
              rw e next,
              IsNeeded-cons target i d front b.memory (not_below _ target e) needed,
              rw e (kept_less target i d (evict target b1 l) front ends),
            ),
          )
    ]

-- DeleteStaleData takes nodes off the front of the list, one at least if there is one, and leaves the
-- rest as it is; it erases the keys of the nodes from the map and takes their Used off the memory
-- count, and changes nothing else. It ends with the memory count below its target, which is the count
-- at the call less the given amount, modulo 2^64, or with an empty list; and it takes no node more
-- than needed: before the last of them the count was not below the target.
pub delete_stale_data-order :
    (b : Bucket) (decrease_by : ℕ)
    → (front : List Node) × IsEvicted
        (sub b.memory decrease_by)
        b
        b.access_list
        front
        (delete_stale_data b decrease_by)
unfolding delete_stale_data
delete_stale_data-order b decrease_by = evict-IsEvicted (sub b.memory decrease_by) b b.access_list
