-- ===== src/ConsistentHash/Ring.antt =====
-- The resources of ConsistentHash: their positions rise, and each is a point of its server.
use memcache_router.Prelude.{
  ℕ, zero, suc, ◌+◌, ◌*◌, ◌<◌, ◌≤◌, Bool, true, false, List, [], ◌∷◌, Option, none, some,
  if◌then◌else◌, ltb, ◌==◌, ◌≡◌, refl, ap, subst, ◌∙◌, arith, ◌⊎◌, inl, inr, All, length,
}
use memcache_router.Prelude.Text.{Text}
use memcache_router.ConsistentHash.{
  Server, Resources, insert, push, if_inserted, range, get_key_for_point, get_ketama_hash,
  insert_alignments, insert_points, insert_servers, consistent_hash,
}

abbrev pub IsAbove : ℕ → ℕ × Server → Type 0
IsAbove q (p, s) = q < p

abbrev pub IsSorted : Resources → Type 0
IsSorted [] = Unit
IsSorted ((q, t) ∷ r) = All (IsAbove q) r × IsSorted r

-- What holds of the resources, if no CHECK failed.
pub data OnSome (Q : Resources → Type 0) : Option Resources → Type 0 where
  aborted : OnSome Q none
  gives : {r : Resources} → Q r → OnSome Q (some r)

module _ {Q : Resources → Type 0} where
  pub OnSome-result : {r : Resources} → OnSome Q (some r) → Q r
  OnSome-result (gives q) = q

  pub OnSome-if :
      (b : Bool) (x y : Option Resources)
      → (b ≡ true → OnSome Q x)
      → (b ≡ false → OnSome Q y)
      → OnSome Q (if b then x else y)
  OnSome-if true x y f g = f refl
  OnSome-if false x y f g = g refl

module _ {Q Q' : Resources → Type 0} where
  pub OnSome-push :
      (p : ℕ × Server) (o : Option Resources)
      → OnSome Q o
      → ((r : Resources) → Q r → Q' (p ∷ r))
      → OnSome Q' (push p o)
  OnSome-push p none q f = aborted
  OnSome-push p (some r) (gives q) f = gives (f r q)

  pub OnSome-both : {o : Option Resources} → OnSome Q o → OnSome Q' o → OnSome (λ r. Q r × Q' r) o
  OnSome-both aborted q' = aborted
  OnSome-both (gives q) (gives q') = gives (q, q')

  pub OnSome-bind :
      (o : Option Resources) (f : Resources → Option Resources)
      → OnSome Q o
      → ((r : Resources) → Q r → OnSome Q' (f r))
      → OnSome Q' (if_inserted o f)
  OnSome-bind none f q k = aborted
  OnSome-bind (some r) f (gives q) k = k r q

pub All-weaken :
    {P Q : ℕ × Server → Type 0} (r : Resources) → ((x : ℕ × Server) → P x → Q x) → All P r → All Q r
All-weaken [] f h = tt
All-weaken (x ∷ r) f (p, h) = (f x p, All-weaken r f h)

pub ltb→lt : (a b : ℕ) → ltb a b ≡ true → a < b
ltb→lt a b h = ground arith

pub greater : (a b : ℕ) → ltb a b ≡ false → (a == b) ≡ false → b < a
greater a b h e = ground arith

insert-All :
    (P : ℕ × Server → Type 0) (pos : ℕ) (s : Server) (r : Resources)
    → P (pos, s)
    → All P r
    → OnSome (All P) (insert pos s r)
unfolding insert
insert-All P pos s [] p h = gives (p, tt)
insert-All P pos s ((q, t) ∷ r) p (here, h) =
    OnSome-if (ltb pos q) _ _ (λ e. gives (p, (here, h)))
      λ e.
        OnSome-if (pos == q) _ _ (λ f. aborted)
          λ f. OnSome-push (q, t) (insert pos s r) (insert-All P pos s r p h) λ r' h'. (here, h')

pub insert-IsSorted :
    (pos : ℕ) (s : Server) (r : Resources) → IsSorted r → OnSome IsSorted (insert pos s r)
unfolding insert
insert-IsSorted pos s [] h = gives (tt, tt)
insert-IsSorted pos s ((q, t) ∷ r) (above, sorted) =
    OnSome-if (ltb pos q) _ _
      (λ e.
        (let less = ltb→lt pos q e in
          gives ((less, All-weaken r (λ (p, u) l. omega (arith, less, l)) above), (above, sorted))))
      λ e.
        OnSome-if (pos == q) _ _ (λ f. aborted)
          λ f.
            OnSome-push (q, t) (insert pos s r)
              (OnSome-both (insert-All (IsAbove q) pos s r (greater pos q e f) above)
                (insert-IsSorted pos s r sorted))
              λ r' h. h

insert-length :
    (pos : ℕ) (s : Server) (r : Resources)
    → OnSome (λ r'. length r' ≡ suc (length r)) (insert pos s r)
unfolding insert
insert-length pos s [] = gives refl
insert-length pos s ((q, t) ∷ r) =
    OnSome-if (ltb pos q) _ _ (λ e. gives refl)
      λ e.
        OnSome-if (pos == q) _ _ (λ f. aborted)
          λ f. OnSome-push (q, t) (insert pos s r) (insert-length pos s r) λ r' h. ap suc h

length-range : (start n : ℕ) → length (range start n) ≡ n
unfolding range
length-range start zero = refl
length-range start (suc n) = ap suc (length-range (suc start) n)

All-range : (bound start n : ℕ) → start + n ≤ bound → All (λ i. i < bound) (range start n)
unfolding range
All-range bound start zero h = tt
All-range bound start (suc n) h =
    (omega (arith, h), All-range bound (suc start) n (omega (arith, h)))

below-range : (start n : ℕ) → All (λ i. i < start + n) (range start n)
below-range start n = All-range (start + n) start n (omega arith)

abbrev pub IsAmong : Server → List Server → Type 0
IsAmong s [] = ⊥
IsAmong s (t ∷ ts) = (s ≡ t) ⊎ IsAmong s ts

module _ (md5 : Text → ℕ → ℕ) (all : List Server) where
  -- A position is one of the four hashes of one of the forty points of its server.
  abbrev pub IsPoint : ℕ × Server → Type 0
  IsPoint (pos, s) =
      IsAmong s all
      × ((j : ℕ) × (a : ℕ) × (pos ≡ get_ketama_hash md5 (get_key_for_point s j) a)
          × (j < 40)
          × (a < 4))

  abbrev pub IsRing : ℕ → Resources → Type 0
  IsRing n r = IsSorted r × All IsPoint r × (length r ≡ n)

  IsRing-cast : {n k : ℕ} (r : Resources) → n ≡ k → IsRing n r → IsRing k r
  IsRing-cast r e (sorted, points, count) = (sorted, points, count ∙ e)

  OnSome-cast : {n k : ℕ} (o : Option Resources) → n ≡ k → OnSome (IsRing n) o → OnSome (IsRing k) o
  OnSome-cast o e h = subst (λ i. OnSome (IsRing i) o) e h

  insert_alignments-IsRing :
      (s : Server) (j n : ℕ) (alignments : List ℕ) (r : Resources)
      → IsAmong s all
      → j < 40
      → All (λ a. a < 4) alignments
      → IsRing n r
      → OnSome (IsRing (length alignments + n)) (insert_alignments md5 s j alignments r)
  unfolding insert_alignments
  insert_alignments-IsRing s j n [] r m lj la h = gives (IsRing-cast r (omega arith) h)
  insert_alignments-IsRing s j n (a ∷ alignments) r m lj (l, la) (sorted, points, count) =
      OnSome-bind (insert pos s r) (insert_alignments md5 s j alignments)
        (OnSome-both (insert-IsSorted pos s r sorted) (
          OnSome-both (insert-All IsPoint pos s r (m, (j, a, refl, lj, l)) points)
            (insert-length pos s r)))
        λ r' (sorted', (points', longer)).
          OnSome-cast (insert_alignments md5 s j alignments r') (omega arith) (
            insert_alignments-IsRing s j (suc n) alignments r' m lj la
              (sorted', points', longer ∙ ap suc count))
    where
      pos : ℕ
      pos = get_ketama_hash md5 (get_key_for_point s j) a

  insert_points-IsRing :
      (s : Server) (n : ℕ) (points : List ℕ) (r : Resources)
      → IsAmong s all
      → All (λ j. j < 40) points
      → IsRing n r
      → OnSome (IsRing (length points * 4 + n)) (insert_points md5 s points r)
  unfolding insert_points
  insert_points-IsRing s n [] r m lp h = gives (IsRing-cast r (omega arith) h)
  insert_points-IsRing s n (j ∷ points) r m (l, lp) h =
      OnSome-bind (insert_alignments md5 s j (range 0 4) r) (insert_points md5 s points)
        (OnSome-cast (insert_alignments md5 s j (range 0 4) r) (ap (λ k. k + n) (length-range 0 4))
          (insert_alignments-IsRing s j n (range 0 4) r m l (below-range 0 4) h))
        λ r' h'.
          OnSome-cast (insert_points md5 s points r') (omega arith)
            (insert_points-IsRing s (4 + n) points r' m lp h')

  AreAmong : List Server → Type 0
  AreAmong [] = Unit
  AreAmong (s ∷ ss) = IsAmong s all × AreAmong ss

  insert_servers-IsRing :
      (servers : List Server) (n : ℕ) (r : Resources)
      → AreAmong servers
      → IsRing n r
      → OnSome (IsRing (length servers * 160 + n)) (insert_servers md5 servers r)
  unfolding insert_servers AreAmong
  insert_servers-IsRing [] n r m h = gives (IsRing-cast r (omega arith) h)
  insert_servers-IsRing (s ∷ servers) n r (here, m) h =
      OnSome-bind (insert_points md5 s (range 0 40) r) (insert_servers md5 servers)
        (OnSome-cast (insert_points md5 s (range 0 40) r) (ap (λ k. k * 4 + n) (length-range 0 40))
          (insert_points-IsRing s n (range 0 40) r here (below-range 0 40) h))
        λ r' h'.
          OnSome-cast (insert_servers md5 servers r') (omega arith)
            (insert_servers-IsRing servers (40 * 4 + n) r' m h')

-- Every server of a list is among them.
among_more :
    (md5 : Text → ℕ → ℕ) (all servers : List Server) (s : Server)
    → AreAmong md5 all servers
    → AreAmong md5 (s ∷ all) servers
unfolding AreAmong
among_more md5 all [] s h = tt
among_more md5 all (t ∷ servers) s (here, h) = (inr here, among_more md5 all servers s h)

among_self : (md5 : Text → ℕ → ℕ) (servers : List Server) → AreAmong md5 servers servers
unfolding AreAmong
among_self md5 [] = tt
among_self md5 (s ∷ servers) = (inl refl, among_more md5 servers servers s (among_self md5 servers))

pub consistent_hash-IsRing :
    (md5 : Text → ℕ → ℕ) (servers : List Server)
    → OnSome (IsRing md5 servers (length servers * 160)) (consistent_hash md5 servers)
unfolding consistent_hash
consistent_hash-IsRing md5 servers =
    OnSome-cast md5 servers _ (omega arith)
      (insert_servers-IsRing md5 servers servers 0 [] (among_self md5 servers) (tt, tt, refl))
