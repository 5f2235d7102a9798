-- ===== src/ConsistentHash/Hosts.antt =====
-- The servers that ConsistentHash accepts: a second server on a host has the positions of the first.
use memcache_router.Prelude.{
  ℕ, ◌≤◌, ◌≢◌, true, false, List, [], ◌∷◌, ◌++◌, Option, none, some, ltb, ◌==◌, ◌≡◌, refl, sym, ap,
  subst, arith, inl, inr, All,
}
use memcache_router.Prelude.Text.{Text, text}
use memcache_router.Codegen.Names.Decimal.{decimal}
use memcache_router.ConsistentHash.{
  Server, Resources, insert, range, get_key_for_point, get_ketama_hash, insert_alignments,
  insert_points, insert_servers, consistent_hash, k_alignment,
}
use memcache_router.ConsistentHash.Ring.{
  IsAbove, IsSorted, OnSome, aborted, gives, OnSome-result, OnSome-if, OnSome-push, OnSome-both,
  OnSome-bind, insert-IsSorted, ltb→lt,
}
use memcache_router.ConsistentHash.Nearest.{IsIn}

abbrev IsTaken : ℕ → Resources → Type 0
IsTaken pos r = (t : Server) × IsIn (pos, t) r

not_above :
    (pos q : ℕ) (t : Server) (r : Resources) → pos ≤ q → All (IsAbove q) r → IsIn (pos, t) r → ⊥
not_above pos q t [] le h m = absurd m
not_above pos q t (x ∷ r) le (here, h) (inl e) =
    let same = ap (λ y. y.0) e in omega (arith, le, here, same)
not_above pos q t (x ∷ r) le (here, h) (inr m) = not_above pos q t r le h m

-- An insertion that succeeds takes a free position and keeps the others.
record IsTaking (pos : ℕ) (r r' : Resources) : Type 0 where
  free : IsTaken pos r → ⊥
  taken : IsTaken pos r'
  kept : (q : ℕ) → IsTaken q r → IsTaken q r'

under : (p : ℕ × Server) (pos : ℕ) (r : Resources) → IsTaken pos r → IsTaken pos (p ∷ r)
under p pos r (t, m) = (t, inr m)

free_first :
    (pos q : ℕ) (t : Server) (r : Resources)
    → ltb pos q ≡ true
    → All (IsAbove q) r
    → IsTaken pos ((q, t) ∷ r)
    → ⊥
free_first pos q t r e above (u, inl same) =
    let less = ltb→lt pos q e in let eq = ap (λ y. y.0) same in omega (arith, less, eq)
free_first pos q t r e above (u, inr m) =
    let less = ltb→lt pos q e in not_above pos q u r (omega (arith, less)) above m

differs : (p q : ℕ) → (p == q) ≡ false → p ≡ q → ⊥
differs p q h e = ground arith

free_rest :
    (pos q : ℕ) (t : Server) (r : Resources)
    → (pos == q) ≡ false
    → (IsTaken pos r → ⊥)
    → IsTaken pos ((q, t) ∷ r)
    → ⊥
free_rest pos q t r ne free (u, inl same) = let eq = ap (λ y. y.0) same in differs pos q ne eq
free_rest pos q t r ne free (u, inr m) = free (u, m)

kept_rest :
    (q : ℕ) (p : ℕ × Server) (r r' : Resources)
    → ((x : ℕ) → IsTaken x r → IsTaken x r')
    → IsTaken q (p ∷ r)
    → IsTaken q (p ∷ r')
kept_rest q p r r' k (u, inl same) = (u, inl same)
kept_rest q p r r' k (u, inr m) = under p q r' (k q (u, m))

insert-IsTaking :
    (pos : ℕ) (s : Server) (r : Resources) → IsSorted r → OnSome (IsTaking pos r) (insert pos s r)
unfolding insert
insert-IsTaking pos s [] h =
    gives (record { free = λ (t, m). m; taken = (s, inl refl); kept = λ q (t, m). absurd m })
insert-IsTaking pos s ((q, t) ∷ r) (above, sorted) =
    OnSome-if (ltb pos q) _ _
      (λ e. gives (record {
        free = free_first pos q t r e above;
        taken = (s, inl refl);
        kept = λ x m. under (pos, s) x ((q, t) ∷ r) m;
      }))
      λ e.
        OnSome-if (pos == q) _ _ (λ f. aborted)
          λ f.
            OnSome-push (q, t) (insert pos s r) (insert-IsTaking pos s r sorted)
              λ r' k. record {
                free = free_rest pos q t r f k.free;
                taken = under (q, t) pos r' k.taken;
                kept = λ x m. kept_rest x (q, t) r r' k.kept m;
              }

abbrev Grows : Resources → Resources → Type 0
Grows r r' = IsSorted r' × ((q : ℕ) → IsTaken q r → IsTaken q r')

Grows-trans :
    (r r' : Resources) (o : Option Resources)
    → ((q : ℕ) → IsTaken q r → IsTaken q r')
    → OnSome (Grows r') o
    → OnSome (Grows r) o
Grows-trans r r' none k h = aborted
Grows-trans r r' (some r'') k (gives (sorted, k')) = gives (sorted, λ q m. k' q (k q m))

OnSome-map :
    {Q Q' : Resources → Type 0} {o : Option Resources}
    → OnSome Q o
    → ((r : Resources) → Q r → Q' r)
    → OnSome Q' o
OnSome-map aborted f = aborted
OnSome-map (gives {r} q) f = gives (f r q)

All-servers :
    {P Q : Server → Type 0} (servers : List Server)
    → ((t : Server) → P t → Q t)
    → All P servers
    → All Q servers
All-servers [] f h = tt
All-servers (t ∷ servers) f (p, h) = (f t p, All-servers servers f h)

-- No two servers have the same hostname.
abbrev pub HaveOwnHosts : List Server → Type 0
HaveOwnHosts [] = Unit
HaveOwnHosts (s ∷ servers) = All (λ t. t.hostname ≢ s.hostname) servers × HaveOwnHosts servers

module _ (md5 : Text → ℕ → ℕ) where
  insert_alignments-Grows :
      (s : Server) (j : ℕ) (alignments : List ℕ) (r : Resources)
      → IsSorted r
      → OnSome (Grows r) (insert_alignments md5 s j alignments r)
  unfolding insert_alignments
  insert_alignments-Grows s j [] r h = gives (h, λ q m. m)
  insert_alignments-Grows s j (a ∷ alignments) r h =
      OnSome-bind (insert (get_ketama_hash md5 (get_key_for_point s j) a) s r)
        (insert_alignments md5 s j alignments)
        (OnSome-both (insert-IsSorted (get_ketama_hash md5 (get_key_for_point s j) a) s r h)
          (insert-IsTaking (get_ketama_hash md5 (get_key_for_point s j) a) s r h))
        λ r' (sorted, k).
          Grows-trans r r' _ k.kept (insert_alignments-Grows s j alignments r' sorted)

  insert_points-Grows :
      (s : Server) (points : List ℕ) (r : Resources)
      → IsSorted r
      → OnSome (Grows r) (insert_points md5 s points r)
  unfolding insert_points
  insert_points-Grows s [] r h = gives (h, λ q m. m)
  insert_points-Grows s (j ∷ points) r h =
      OnSome-bind (insert_alignments md5 s j (range 0 k_alignment) r) (insert_points md5 s points)
        (insert_alignments-Grows s j (range 0 k_alignment) r h)
        λ r' (sorted, k). Grows-trans r r' _ k (insert_points-Grows s points r' sorted)

  abbrev first_position : Server → ℕ
  first_position s = get_ketama_hash md5 (get_key_for_point s 0) 0

  Taking-trans :
      (pos : ℕ) (r r' : Resources) (o : Option Resources)
      → IsTaking pos r r'
      → OnSome (Grows r') o
      → OnSome (λ r''. IsSorted r'' × IsTaking pos r r'') o
  Taking-trans pos r r' none k h = aborted
  Taking-trans pos r r' (some r'') k (gives (sorted, kept)) = gives (
    sorted,
    record { free = k.free; taken = kept pos k.taken; kept = λ q m. kept q (k.kept q m) },
  )

  first_alignment :
      (s : Server) (r : Resources)
      → IsSorted r
      → OnSome
          (λ r'. IsSorted r' × IsTaking (first_position s) r r')
          (insert_alignments md5 s 0 (range 0 4) r)
  unfolding insert_alignments range
  first_alignment s r h =
      OnSome-bind (insert (first_position s) s r) (insert_alignments md5 s 0 (range 1 3))
        (OnSome-both (insert-IsSorted (first_position s) s r h)
          (insert-IsTaking (first_position s) s r h))
        λ r' (sorted, k).
          Taking-trans (first_position s) r r' _ k
            (insert_alignments-Grows s 0 (range 1 3) r' sorted)

  first_point :
      (s : Server) (r : Resources)
      → IsSorted r
      → OnSome
          (λ r'. IsSorted r' × IsTaking (first_position s) r r')
          (insert_points md5 s (range 0 40) r)
  unfolding insert_points range
  first_point s r h =
      OnSome-bind (insert_alignments md5 s 0 (range 0 4) r) (insert_points md5 s (range 1 39))
        (first_alignment s r h)
        λ r' (sorted, k).
          Taking-trans (first_position s) r r' _ k (insert_points-Grows s (range 1 39) r' sorted)

  same_position : (s t : Server) → t.hostname ≡ s.hostname → first_position t ≡ first_position s
  unfolding get_key_for_point
  same_position s t e = ap (λ h. get_ketama_hash md5 (h ++ (text "-" ++ decimal 0)) 0) e

  insert_servers-HaveOwnHosts :
      (servers : List Server) (r : Resources)
      → IsSorted r
      → OnSome
          (λ r'. HaveOwnHosts servers × All (λ s. IsTaken (first_position s) r → ⊥) servers)
          (insert_servers md5 servers r)
  unfolding insert_servers
  insert_servers-HaveOwnHosts [] r h = gives (tt, tt)
  insert_servers-HaveOwnHosts (s ∷ servers) r h =
      OnSome-bind (insert_points md5 s (range 0 40) r) (insert_servers md5 servers)
        (first_point s r h)
        λ r' (sorted, k).
          OnSome-map (insert_servers-HaveOwnHosts servers r' sorted) λ r'' (own, free). (
            (
              All-servers servers
                  (λ t f e. f (subst (λ x. IsTaken x r') (sym (same_position s t e)) k.taken)) free,
              own,
            ),
            (k.free, All-servers servers (λ t f m. f (k.kept (first_position t) m)) free),
          )

-- No two of the servers that ConsistentHash accepts have the same hostname, whatever their ports are:
-- a list with such a pair makes a CHECK fail, which aborts the process.
pub consistent_hash-HaveOwnHosts :
    (md5 : Text → ℕ → ℕ) (servers : List Server) (r : Resources)
    → consistent_hash md5 servers ≡ some r
    → HaveOwnHosts servers
unfolding consistent_hash
consistent_hash-HaveOwnHosts md5 servers r made =
    (OnSome-result (
      subst
        (OnSome
          (λ r'. HaveOwnHosts servers × All (λ s. IsTaken (first_position md5 s) [] → ⊥) servers))
        made (insert_servers-HaveOwnHosts md5 servers [] tt))).0
