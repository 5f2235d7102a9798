-- ===== src/Router/Queue/Batch.antt =====
-- What a batch of PCQueue is.
use memcache_router.Prelude.{
  ℕ, ◌+◌, ◌<◌, ◌≤◌, true, false, List, [], ◌∷◌, ◌++◌, ltb, ◌==◌, ◌≡◌, refl, subst, arith, ◌⊎◌, inl,
  inr, All, length, Bool-cases,
}
use memcache_router.Router.{Packet, is_get, get_keys_size, has_any}
use memcache_router.Router.Queue.{max_keys_per_request, take_batch, with_first}

unfoldable pub count_keys : List Packet → ℕ
count_keys [] = 0
count_keys (p ∷ ps) = get_keys_size p + count_keys ps

abbrev pub AreGets : List Packet → Type 0
AreGets = All (λ p. is_get p ≡ true)

pub take_batch-append : (n : ℕ) (ps : List Packet) → (take_batch n ps).0 ++ (take_batch n ps).1 ≡ ps
unfolding take_batch
take_batch-append n [] = refl
take_batch-append n (p ∷ ps) = ground (arith, take_batch-append (n + get_keys_size p) ps)

-- Each packet was taken while the keys before it were below the limit.
abbrev pub IsBounded : ℕ → List Packet → Type 0
IsBounded n [] = Unit
IsBounded n (p ∷ ps) = (n < max_keys_per_request) × IsBounded (n + get_keys_size p) ps

-- The packets stay for a reason: the keys taken reach the limit, or the first is no GET.
abbrev pub StayBehind : ℕ → List Packet → Type 0
StayBehind n [] = Unit
StayBehind n (p ∷ ps) = (max_keys_per_request ≤ n) ⊎ (is_get p ≡ false)

abbrev pub IsSingle : List Packet → Type 0
IsSingle batch = (p : Packet) × (batch ≡ p ∷ []) × (is_get p ≡ false)

-- GETs alone, as many as the limit allows.
abbrev pub IsGetBatch : ℕ → List Packet × List Packet → Type 0
IsGetBatch n (batch, rest) =
    AreGets batch × IsBounded n batch × StayBehind (n + count_keys batch) rest

ltb-true : (a b : ℕ) → ltb a b ≡ true → a < b
ltb-true a b h = ground arith

ltb-false : (a b : ℕ) → ltb a b ≡ false → b ≤ a
ltb-false a b h = ground arith

positive : (n : ℕ) → 0 < n → (n == 0) ≡ false
positive n h = ground arith

get-has_keys : (p : Packet) → is_get p ≡ true → 0 < get_keys_size p
unfolding is_get
get-has_keys p e = has_any-length p.instruction.get_keys e
  where
    has_any-length : {A : Type 0} (xs : List A) → has_any xs ≡ true → 0 < length xs
    has_any-length [] e = cc
    has_any-length (x ∷ xs) e = omega arith

with_first-IsGetBatch :
    (n : ℕ) (p : Packet) (t : List Packet × List Packet)
    → is_get p ≡ true
    → n < max_keys_per_request
    → IsGetBatch (n + get_keys_size p) t
    → IsGetBatch n (with_first p t)
unfolding count_keys
with_first-IsGetBatch n p (batch, rest) e lt (gets, bounded, behind) =
    ((e, gets), (lt, bounded), subst (λ k. StayBehind k rest) (omega arith) behind)

stays :
    (n : ℕ) (p : Packet) (ps : List Packet)
    → (max_keys_per_request ≤ n) ⊎ (is_get p ≡ false)
    → IsGetBatch n ([], p ∷ ps)
unfolding count_keys
stays n p ps (inl le) = (tt, tt, inl (omega (arith, le)))
stays n p ps (inr e) = (tt, tt, inr e)

-- Once a key is counted, only GETs are taken.
take_batch-IsGetBatch : (n : ℕ) (ps : List Packet) → 0 < n → IsGetBatch n (take_batch n ps)
unfolding take_batch count_keys
take_batch-IsGetBatch n [] h = (tt, tt, tt)
take_batch-IsGetBatch n (p ∷ ps) h = elim (Bool-cases (ltb n max_keys_per_request)) [
  | inr full ↦ rw full (stays n p ps (inl (ltb-false n _ full)))
  | inl room ↦ rw room (elim (Bool-cases (is_get p)) [
    | inr other ↦ rw (other, positive n h) (stays n p ps (inr other))
    | inl gets ↦ rw gets (
        with_first-IsGetBatch n p _ gets (ltb-true n _ room)
          (take_batch-IsGetBatch (n + get_keys_size p) ps (omega (arith, h))))
  ])
]

batch_kind : (ps : List Packet) → IsSingle (take_batch 0 ps).0 ⊎ IsGetBatch 0 (take_batch 0 ps)
unfolding take_batch
batch_kind [] = inr (tt, tt, tt)
batch_kind (p ∷ ps) = elim (Bool-cases (is_get p)) [
  | inr other ↦ rw other (inl (p, refl, other))
  | inl gets ↦ rw gets (
      inr (
        with_first-IsGetBatch 0 p _ gets (omega arith)
          (take_batch-IsGetBatch (0 + get_keys_size p) ps (omega (arith, get-has_keys p gets)))))
]

-- A queue that is not empty gives a packet.
pub take_batch-progress : (p : Packet) (ps : List Packet) → 0 < length (take_batch 0 (p ∷ ps)).0
unfolding take_batch
take_batch-progress p ps = ground arith

-- The batch and the rest make up the queue. The batch is a single packet that is no GET, or GETs alone:
-- each was taken while the keys before it were fewer than 10000, and the packet that follows is no
-- GET, or the keys of the batch are 10000 or more.
pub take_batch_lem :
    (ps : List Packet)
    → ((take_batch 0 ps).0 ++ (take_batch 0 ps).1 ≡ ps)
      × (IsSingle (take_batch 0 ps).0 ⊎ IsGetBatch 0 (take_batch 0 ps))
take_batch_lem ps = (take_batch-append 0 ps, batch_kind ps)
