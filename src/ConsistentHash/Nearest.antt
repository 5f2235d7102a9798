-- ===== src/ConsistentHash/Nearest.antt =====
-- The server that ConsistentHash gives for a hash.
use memcache_router.Prelude.{
  ℕ, ◌*◌, ◌≤◌, ◌<◌, false, List, [], ◌∷◌, Option, none, some, leb, leb→le, ◌≡◌, refl, sym, subst,
  arith, ◌⊎◌, Bool-cases, inl, inr, All, length,
}
use memcache_router.Prelude.Text.{Text}
use memcache_router.ConsistentHash.{
  Server, Resources, lower_bound, first, or_first, server_for_hash, consistent_hash,
}
use memcache_router.ConsistentHash.Ring.{
  IsSorted, IsPoint, IsRing, OnSome, OnSome-result, All-weaken, consistent_hash-IsRing,
}

abbrev pub IsIn : ℕ × Server → Resources → Type 0
IsIn p [] = ⊥
IsIn p (x ∷ r) = (p ≡ x) ⊎ IsIn p r

abbrev pub IsBelow : ℕ → ℕ × Server → Type 0
IsBelow hash (q, t) = q < hash

abbrev pub IsAtLeast : ℕ → ℕ × Server → Type 0
IsAtLeast pos (q, t) = pos ≤ q

-- No position at or after the hash is nearer.
abbrev pub IsNoNearer : ℕ → ℕ → ℕ × Server → Type 0
IsNoNearer hash pos (q, t) = hash ≤ q → pos ≤ q

-- The first position at or after the hash, or the first of all if there is none.
abbrev pub IsNearest : Resources → ℕ → ℕ → Type 0
IsNearest r hash pos =
    ((hash ≤ pos) × All (IsNoNearer hash pos) r) ⊎ (All (IsBelow hash) r × All (IsAtLeast pos) r)

abbrev IsServed : Resources → ℕ → Option Server → Type 0
IsServed r hash none = All (IsBelow hash) r
IsServed r hash (some s) = (pos : ℕ) × IsIn (pos, s) r × (hash ≤ pos) × All (IsNoNearer hash pos) r

passed :
    (hash q : ℕ) (t : Server) (r : Resources) (o : Option Server)
    → q < hash
    → IsServed r hash o
    → IsServed ((q, t) ∷ r) hash o
passed hash q t r none less h = (less, h)
passed hash q t r (some s) less (pos, there, le, nearest) =
    (pos, inr there, le, ((λ e. omega (arith, less, e)), nearest))

not_leb : (a b : ℕ) → leb a b ≡ false → b < a
not_leb a b h = ground arith

lower_bound-IsServed :
    (hash : ℕ) (r : Resources) → IsSorted r → IsServed r hash (lower_bound hash r)
unfolding lower_bound
lower_bound-IsServed hash [] h = tt
lower_bound-IsServed hash ((q, t) ∷ r) (above, sorted) = elim (Bool-cases (leb hash q)) [
  | inl e ↦ rw e (
    q,
    inl refl,
    leb→le hash q e,
    ((λ h. omega arith), All-weaken r (λ (p, u) l h. omega (arith, l)) above),
  )
  | inr e ↦ rw e (
      passed hash q t r (lower_bound hash r) (not_leb hash q e)
        (lower_bound-IsServed hash r sorted))
]

-- A server with its position.
abbrev IsGiven : Resources → ℕ → Option Server → Type 0
IsGiven r hash o =
    (t : Server) × (o ≡ some t) × ((pos : ℕ) × IsIn (pos, t) r × IsNearest r hash pos)

or_first-IsGiven :
    (hash : ℕ) (r : Resources) (o : Option Server)
    → 0 < length r
    → IsSorted r
    → IsServed r hash o
    → IsGiven r hash (or_first o r)
unfolding or_first first
or_first-IsGiven hash [] o l h s = absurd (omega (arith, l))
or_first-IsGiven hash ((q, t) ∷ r) none l (above, sorted) below = (
  t,
  refl,
  (
    q,
    inl refl,
    inr (below, ((omega arith), All-weaken r (λ (p, u) less. omega (arith, less)) above)),
  ),
)
or_first-IsGiven hash ((q, t) ∷ r) (some s) l h (pos, there, le, nearest) =
    (s, refl, (pos, there, inl (le, nearest)))

All-IsIn : (P : ℕ × Server → Type 0) (p : ℕ × Server) (r : Resources) → All P r → IsIn p r → P p
All-IsIn P p [] h m = absurd m
All-IsIn P p (x ∷ r) (here, h) (inl e) = subst P (sym e) here
All-IsIn P p (x ∷ r) (here, h) (inr m) = All-IsIn P p r h m

-- When ConsistentHash is made of some servers and no CHECK fails, the ring has 160 positions times the
-- number of servers, in rising order, and ServerForHash gives a server for every hash: that of an item
-- of the ring, whose position is one of the four hashes of one of the forty points of that server, and
-- is the first at or after the hash, or the first of all if none is.
pub server_for_hash-IsNearest :
    (md5 : Text → ℕ → ℕ) (servers : List Server) (r : Resources) (hash : ℕ)
    → consistent_hash md5 servers ≡ some r
    → 0 < length servers
    → (length r ≡ length servers * 160)
      × IsSorted r
      × ((t : Server) × (server_for_hash r hash ≡ some t)
          × ((pos : ℕ) × IsIn (pos, t) r × IsPoint md5 servers (pos, t) × IsNearest r hash pos))
unfolding server_for_hash
server_for_hash-IsNearest md5 servers r hash made some_server =
    let (sorted, points, count) = OnSome-result (
      subst (OnSome (IsRing md5 servers (length servers * 160))) made
        (consistent_hash-IsRing md5 servers)) in
    let (t, given, (pos, there, nearest)) =
      or_first-IsGiven hash r (lower_bound hash r) (omega (arith, count, some_server)) sorted
        (lower_bound-IsServed hash r sorted) in
    (
      count,
      sorted,
      (t, given, (pos, there, All-IsIn (IsPoint md5 servers) (pos, t) r points there, nearest)),
    )
