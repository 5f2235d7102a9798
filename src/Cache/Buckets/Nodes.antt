-- ===== src/Cache/Buckets/Nodes.antt =====
-- What the lists of nodes and the map of a bucket give after a change.
use memcache_router.Prelude.{
  ℕ, List, [], ◌∷◌, ◌++◌, none, some, ◌≡◌, ◌≢◌, refl, sym, arith, ◌==◌, if◌then◌else◌, Bool-cases,
  inl, inr,
}
use memcache_router.Prelude.Text.{Text, text_eq_refl, text_eq_iff, text_eq_of_ne}
use memcache_router.Cache.Buckets.{Data, Node, find, store, erase, data_at, without, write_data}

-- No address stands twice in a list.
abbrev pub IsDistinct : List Node → Type 0
IsDistinct [] = Unit
IsDistinct ((i, d) ∷ l) = (data_at i l ≡ none) × IsDistinct l

pub find-store : (k : Text) (i : ℕ) (m : List (Text × ℕ)) → find k (store k i m) ≡ some i
unfolding find store
find-store k i [] = rw text_eq_refl
find-store k i ((j, l) ∷ m) = ground (arith, find-store k i m)

pub find-store_other :
    (j k : Text) (i : ℕ) (m : List (Text × ℕ)) → j ≢ k → find j (store k i m) ≡ find j m
unfolding find store
find-store_other j k i [] h = rw (text_eq_of_ne k j (λ e. h (sym e)))
find-store_other j k i ((x, l) ∷ m) h =
    ground (arith, text_eq_iff x j, text_eq_iff x k, find-store_other j k i m h)

pub find-erase : (k : Text) (m : List (Text × ℕ)) → find k (erase k m) ≡ none
unfolding find erase
find-erase k [] = refl
find-erase k ((j, l) ∷ m) = ground (arith, find-erase k m)

pub find-erase_other : (j k : Text) (m : List (Text × ℕ)) → j ≢ k → find j (erase k m) ≡ find j m
unfolding find erase
find-erase_other j k [] h = refl
find-erase_other j k ((x, l) ∷ m) h =
    ground (arith, text_eq_iff x j, text_eq_iff x k, find-erase_other j k m h)

pub data_at-without : (i : ℕ) (l : List Node) → IsDistinct l → data_at i (without i l) ≡ none
unfolding data_at without
data_at-without i [] h = refl
data_at-without i ((j, d) ∷ l) (h, hs) = ground (arith, data_at-without i l hs)

pub data_at-without_other :
    (i j : ℕ) (l : List Node) → j ≢ i → data_at j (without i l) ≡ data_at j l
unfolding data_at without
data_at-without_other i j [] h = refl
data_at-without_other i j ((x, d) ∷ l) h = ground (arith, data_at-without_other i j l h)

pub data_at-append :
    (i j : ℕ) (d : Data) (l : List Node)
    → data_at i l ≡ none
    → data_at j (l ++ (i, d) ∷ []) ≡ (if i == j then some d else data_at j l)
unfolding data_at
data_at-append i j d [] h = refl
data_at-append i j d ((x, e) ∷ l) h = ground (arith, data_at-append i j d l)

pub data_at-write_data :
    (i j : ℕ) (d e : Data) (l : List Node)
    → data_at i l ≡ some e
    → data_at j (write_data i d l) ≡ (if i == j then some d else data_at j l)
unfolding data_at write_data
data_at-write_data i j d e [] h = cc
data_at-write_data i j d e ((x, f) ∷ l) h = ground (arith, data_at-write_data i j d e l)

pub IsDistinct-append :
    (i : ℕ) (d : Data) (l : List Node)
    → data_at i l ≡ none
    → IsDistinct l
    → IsDistinct (l ++ (i, d) ∷ [])
unfolding data_at
IsDistinct-append i d [] h hs = (refl, tt)
IsDistinct-append i d ((j, e) ∷ l) h (hj, hs) =
    (ground (arith, data_at-append i j d l), IsDistinct-append i d l (ground arith) hs)

pub IsDistinct-without : (i : ℕ) (l : List Node) → IsDistinct l → IsDistinct (without i l)
unfolding data_at without
IsDistinct-without i [] h = tt
IsDistinct-without i ((j, d) ∷ l) (h, hs) = elim (Bool-cases (j == i)) [
  | inl e ↦ rw e hs
  | inr e ↦ rw e (ground (arith, data_at-without_other i j l), IsDistinct-without i l hs)
]

pub data_at-write_data-none :
    (i j : ℕ) (d : Data) (l : List Node) → data_at j l ≡ none → data_at j (write_data i d l) ≡ none
unfolding data_at write_data
data_at-write_data-none i j d [] h = refl
data_at-write_data-none i j d ((x, e) ∷ l) h = ground (arith, data_at-write_data-none i j d l)

pub IsDistinct-write_data :
    (i : ℕ) (d : Data) (l : List Node) → IsDistinct l → IsDistinct (write_data i d l)
unfolding write_data
IsDistinct-write_data i d [] h = tt
IsDistinct-write_data i d ((j, e) ∷ l) (h, hs) = elim (Bool-cases (j == i)) [
  | inl p ↦ rw p (h, hs)
  | inr p ↦ rw p (data_at-write_data-none i j d l h, IsDistinct-write_data i d l hs)
]
