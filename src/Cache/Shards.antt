-- ===== src/Cache/Shards.antt =====
-- The calls of the cache, over its buckets.
use memcache_router.Prelude.{
  if◌then◌else◌, ℕ, suc, ◌+◌, ◌%◌, ◌^◌, List, [], ◌∷◌, Option, none, some, ◌≡◌, refl, sym, ap, ◌∙◌,
  arith, ◌==◌, ==_refl, Bool-cases, Option-cases, inl, inr,
}
use memcache_router.Prelude.Text.{Text}
use memcache_router.Cache.Buckets
use memcache_router.Cache.Buckets.{Bucket, KeyValue, plus}
use memcache_router.Cache.Buckets.Evict.{IsGood}
use memcache_router.Cache.Buckets.Valid.{some-injective}
use memcache_router.Cache.Buckets.Calls
use memcache_router.Cache.Buckets.Calls.{stored}
use memcache_router.Cache.{
  Cache, get_index, put_bucket, put_added, add_or_replace, count, put_read, get, populate_stats,
}

abbrev pub AreGood : Cache → Type 0
AreGood c = (i : ℕ) → IsGood (c.buckets i)

AreGood-put_bucket :
    (c : Cache) (i : ℕ) (b : Bucket) → AreGood c → IsGood b → AreGood (put_bucket c i b)
unfolding put_bucket
AreGood-put_bucket c i b g h j = elim (Bool-cases (j == i)) [ inl e ↦ rw e h | inr e ↦ rw e (g j) ]

pub data Call : Type 0 where
  add : Text → KeyValue → Call
  read : Text → Call

unfoldable pub reads : List Call → ℕ
reads [] = 0
reads (add k kv ∷ cs) = reads cs
reads (read k ∷ cs) = suc (reads cs)

cache_of : Option (Option KeyValue × Cache) → Option Cache
cache_of none = none
cache_of (some (a, c)) = some c

and_then : Option Cache → (Cache → Option Cache) → Option Cache
and_then none f = none
and_then (some c) f = f c

module _ (str_hash : Text → ℕ) (unset : ℕ) where
  -- On a cache whose buckets are in order AddOrReplace follows no iterator to an erased node; all
  -- buckets are in order again, the counters and the buckets of other indices stay as they were, and a
  -- Get of the key gives what was stored, or a miss if the value is empty.
  pub add_or_replace-AreGood :
      (c : Cache) (k : Text) (kv : KeyValue)
      → AreGood c
      → (c' : Cache) × (add_or_replace str_hash unset c k kv ≡ some c')
        × AreGood c'
        × (populate_stats c' ≡ populate_stats c)
        × ((i : ℕ)
            → c'.buckets i ≡ (
                if i == get_index str_hash k
                then c'.buckets (get_index str_hash k)
                else c.buckets i))
        × ((u : ℕ) → (c'' : Cache) × (get str_hash u c' k ≡ some (stored kv, c'')))
  unfolding add_or_replace put_added get put_read put_bucket populate_stats
  add_or_replace-AreGood c k kv g =
      let i = get_index str_hash k in
      let (b, adds, good, reads_back) =
        Calls.get-add_or_replace unset c.threshold c.decrease_by (c.buckets i) k kv (g i) in
      (
        put_bucket c i b,
        rw adds,
        AreGood-put_bucket c i b g good,
        refl,
        λ j. rw (==_refl (get_index str_hash k)),
        λ u.
            let (b', e) = reads_back u in
            (count (stored kv) (put_bucket (put_bucket c i b) i b'), rw (==_refl, e)),
      )

  step : Cache → Call → Option Cache
  step c (add k kv) = add_or_replace str_hash unset c k kv
  step c (read k) = cache_of (get str_hash unset c k)

  unfoldable pub run : Cache → List Call → Option Cache
  unfolding step and_then cache_of
  run c [] = some c
  run c (call ∷ calls) = and_then (step c call) (λ c'. run c' calls)

  count-add :
      (c c' : Cache) (k : Text) (kv : KeyValue)
      → add_or_replace str_hash unset c k kv ≡ some c'
      → (c'.hits + c'.miss) ≡ (c.hits + c.miss)
  unfolding add_or_replace put_added put_bucket
  count-add c c' k kv e =
      elim (Option-cases (
        Buckets.add_or_replace unset c.threshold c.decrease_by (c.buckets (get_index str_hash k)) k
          kv)) [
            | inl n ↦ let bad = rw n at e in cc
            | inr (b, s) ↦
                let same = some-injective (rw s at e) in
                sym (ap (λ (x : Cache). x.hits + x.miss) same)
          ]

  count-read :
      (c c' : Cache) (k : Text) (a : Option KeyValue)
      → get str_hash unset c k ≡ some (a, c')
      → (c'.hits + c'.miss) % 2 ^ 64 ≡ (c.hits + c.miss + 1) % 2 ^ 64
  unfolding get put_read put_bucket count plus
  count-read c c' k a e =
      elim (Option-cases (Buckets.get unset (c.buckets (get_index str_hash k)) k)) [
        | inl n ↦ let bad = rw n at e in cc
        | inr ((none, b), s) ↦
            let same = some-injective (rw s at e) in
            rw (← ap (λ (p : Option KeyValue × Cache). p.1) same) (omega arith)
        | inr ((some kv, b), s) ↦
            let same = some-injective (rw s at e) in
            rw (← ap (λ (p : Option KeyValue × Cache). p.1) same) (omega arith)
      ]

  count-step :
      (c c' : Cache) (call : Call)
      → step c call ≡ some c'
      → (c'.hits + c'.miss) % 2 ^ 64 ≡ (c.hits + c.miss + reads (call ∷ [])) % 2 ^ 64
  unfolding step reads cache_of
  count-step c c' (add k kv) e = omega (arith, count-add c c' k kv e)
  count-step c c' (read k) e = elim (Option-cases (get str_hash unset c k)) [
    | inl n ↦ let bad = rw n at e in cc
    | inr ((a, c1), s) ↦
        let same = some-injective (rw s at e) in
        count-read c c' k a (s ∙ ap (λ x. some (a, x)) same)
  ]

  reads-cons :
      (call : Call) (calls : List Call) → reads (call ∷ calls) ≡ reads (call ∷ []) + reads calls
  unfolding reads
  reads-cons (add k kv) calls = omega arith
  reads-cons (read k) calls = omega arith

  -- The counts of hits and misses add up to the number of Gets, modulo 2^64.
  pub run-counts :
      (c c' : Cache) (calls : List Call)
      → run c calls ≡ some c'
      → ((populate_stats c').0 + (populate_stats c').1) % 2 ^ 64
        ≡ ((populate_stats c).0 + (populate_stats c).1 + reads calls) % 2 ^ 64
  unfolding run reads populate_stats and_then
  run-counts c c' [] e = rw (← some-injective e) (omega arith)
  run-counts c c' (call ∷ calls) e = elim (Option-cases (step c call)) [
    | inl n ↦ let bad = rw n at e in cc
    | inr (c1, s) ↦
        omega
          (arith, run-counts c1 c' calls (rw s at e), count-step c c1 call s, reads-cons call calls)
  ]
