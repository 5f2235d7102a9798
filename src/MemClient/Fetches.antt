-- ===== src/MemClient/Fetches.antt =====
-- GetKeys without a cache: what is documented of memcached_mget and memcached_fetch_result, what the
-- entries are at the end where the mget succeeds, and that a request that fails ends the process.
use memcache_router.Prelude.{
  ℕ, zero, suc, ◌<◌, ◌≤◌, Bool, true, false, List, [], ◌∷◌, Option, none, some, if◌then◌else◌,
  length, ◌≡◌, refl, arith, Bool-cases, inl, inr, ap, ◌∙◌, sym, ◌||◌, ◌⊎◌, ◌==◌,
}
use memcache_router.Prelude.Text.{Text, text_eq, text_eq_refl, eq_of_text_eq, text_eq_iff}
use memcache_router.Messages.{KeyValue}
use memcache_router.MemClient.{
  Result, Memcached, Entries, change_found, find_entry, set_result, take_result, fetch_results,
  get_keys, fill_from_cache, fetch_missing, cache_get, cache_add, any_zero, mget_keys,
  memcached_success,
}

-- The results, in any order, are the answers, each once.
abbrev pub Answers : List Result → (Text → Option Result) → Type 0
Answers [] g = (k : Text) → g k ≡ none
Answers (r ∷ rs) g = (g r.key ≡ some r) × Answers rs (λ k. if text_eq r.key k then none else g k)

unfoldable pub is_key : Text → List Text → Bool
is_key k [] = false
is_key k (j ∷ keys) = text_eq j k || is_key k keys

abbrev pub asked : List Text → (Text → Option Result) → Text → Option Result
asked keys g k = if is_key k keys then g k else none

-- `server` is what the servers give for a key: nothing where they hold nothing, or do not answer. After
-- an mget that succeeds the results are pending, and each fetch gives one. An mget may fail, as it does
-- for a key that is empty or too long.
pub record FetchLaws (lib : Memcached) : Type 1 where
  pub server : Memcached.Memc lib → Text → Option Result
  pub Pending : Memcached.Memc lib → List Result → Type 0
  pub mget_pending :
      (keys : List Text) (memc memc' : Memcached.Memc lib)
      → Memcached.mget lib keys memc ≡ (0, memc')
      → (rs : List Result) × Pending memc' rs
        × (length rs ≤ length keys)
        × Answers rs (asked keys (server memc))
  pub fetch_one :
      (memc : Memcached.Memc lib) (r : Result) (rs : List Result)
      → Pending memc (r ∷ rs)
      → (memc' : Memcached.Memc lib) × (Memcached.fetch_result lib memc ≡ (some r, 0, memc'))
        × Pending memc' rs
  pub fetch_end :
      (memc : Memcached.Memc lib)
      → Pending memc []
      → (rc : ℕ) × (memc' : Memcached.Memc lib) × (Memcached.fetch_result lib memc
          ≡ (none, rc, memc'))

unfoldable pub keys_of : Entries → List Text
keys_of [] = []
keys_of ((k, kv) ∷ m) = k ∷ keys_of m

-- The request for the keys of some entries is made and succeeds; without an entry none is made.
unfoldable pub Asks : (lib : Memcached) → Entries → Memcached.Memc lib → Memcached.Memc lib → Type 0
unfolding keys_of
Asks lib [] memc memc' = memc' ≡ memc
Asks lib ((k, kv) ∷ m) memc memc' = mget_keys lib (keys_of ((k, kv) ∷ m)) memc ≡ some (0, memc')

-- The request for the keys of some entries is not a success: a key has a zero byte, or mget refuses.
abbrev pub Fails : (lib : Memcached) → Entries → Memcached.Memc lib → Type 0
Fails lib m memc =
    (any_zero (keys_of m) ≡ true)
    ⊎ ((rc : ℕ) × (memc' : Memcached.Memc lib) × (Memcached.mget lib (keys_of m) memc ≡ (rc, memc'))
        × ((rc == memcached_success) ≡ false))

-- A request that is made is an mget of all keys.
mget_keys-some :
    (lib : Memcached) (keys : List Text) (memc : Memcached.Memc lib)
    (answer : ℕ × Memcached.Memc lib)
    → mget_keys lib keys memc ≡ some answer
    → Memcached.mget lib keys memc ≡ answer
unfolding mget_keys
mget_keys-some lib keys memc answer e = elim (Bool-cases (any_zero keys)) [
  | inl zero_byte ↦ let bad = rw zero_byte at e in cc
  | inr none_zero ↦ let made = rw none_zero at e in cc
]

-- An entry behind an answer.
abbrev pub changed_by : (KeyValue → KeyValue) → Option KeyValue → Option KeyValue
changed_by f none = none
changed_by f (some kv) = some (f kv)

-- change_found where the key has an entry.
changed : Text → (KeyValue → KeyValue) → Entries → Entries
changed k f [] = []
changed k f ((j, kv) ∷ m) = if text_eq j k then (j, f kv) ∷ m else (j, kv) ∷ changed k f m

change_found-changed :
    (k : Text) (f : KeyValue → KeyValue) (m : Entries) (kv : KeyValue)
    → find_entry k m ≡ some kv
    → change_found k f m ≡ some (changed k f m)
unfolding change_found changed find_entry
change_found-changed k f [] kv e = cc
change_found-changed k f ((j, kv') ∷ m) kv e = elim (Bool-cases (text_eq j k)) [
  | inl same ↦ rw same
  | inr other ↦ rw other (rw (change_found-changed k f m kv (rw other at e)))
]

find_entry-changed :
    (k j : Text) (f : KeyValue → KeyValue) (m : Entries)
    → find_entry j (changed k f m)
      ≡ (if text_eq k j then changed_by f (find_entry j m) else find_entry j m)
unfolding changed find_entry
find_entry-changed k j f [] = ground arith
find_entry-changed k j f ((i, kv) ∷ m) =
    ground (arith, text_eq_iff i k, text_eq_iff i j, text_eq_iff k j, find_entry-changed k j f m)

-- An entry that carries an answer, the code of success and its text.
abbrev pub carrying : (lib : Memcached) → Result → KeyValue → KeyValue
carrying lib r kv = record kv {
  val = r.value;
  flags = r.flags;
  cas = r.cas;
  return_code = 0;
  return_error = Memcached.strerror lib 0;
}

-- What an entry is once its key's answer is taken.
abbrev pub answered : (lib : Memcached) → Option Result → Option KeyValue → Option KeyValue
answered lib none e = e
answered lib (some r) e = changed_by (carrying lib r) e

module _ (lib : Memcached) (str_hash : Text → ℕ) (unset : ℕ) where
  open lib use {Memc, fetch_result}

  take_result_lem :
      (r : Result) (rc : ℕ) (m : Entries) (kv : KeyValue)
      → find_entry r.key m ≡ some kv
      → take_result str_hash unset lib r rc m none
        ≡ some (changed r.key (set_result lib r rc) m, none)
  unfolding take_result cache_add
  take_result_lem r rc m kv e =
      let found : find_entry r.key (changed r.key (set_result lib r rc) m)
          ≡ some (set_result lib r rc kv) =
        find_entry-changed r.key r.key (set_result lib r rc) m ∙ rw (text_eq_refl r.key, e) in
      rw (change_found-changed r.key (set_result lib r rc) m kv e, take_result) (rw found)

  HasAll : (Text → Option Result) → Entries → Type 0
  HasAll g m = (k : Text) (r : Result) → g k ≡ some r → (kv : KeyValue) × (find_entry k m ≡ some kv)

  HasAll-changed :
      (g : Text → Option Result) (r : Result) (f : KeyValue → KeyValue) (m : Entries)
      → HasAll g m
      → HasAll (λ k. if text_eq r.key k then none else g k) (changed r.key f m)
  unfolding HasAll
  HasAll-changed g r f m has k s e = elim (Bool-cases (text_eq r.key k)) [
    | inl same ↦ let bad = rw same at e in cc
    | inr other ↦
        let (kv, found) = has k s (rw other at e) in
        (kv, find_entry-changed r.key k f m ∙ rw (other, found))
  ]

  -- The loop takes each pending result to its entry.
  Fetched : ℕ → Memc → Entries → (Text → Option Result) → Type 0
  Fetched fuel memc m g =
      (m' : Entries) × (memc' : Memc) × (fetch_results str_hash unset lib fuel m (none, memc)
        ≡ some (m', (none, memc')))
      × ((k : Text) → find_entry k m' ≡ answered lib (g k) (find_entry k m))

  answered_step :
      (g : Text → Option Result) (r : Result) (m : Entries) (k : Text)
      → g r.key ≡ some r
      → answered lib
          (if text_eq r.key k then none else g k)
          (find_entry k (changed r.key (set_result lib r 0) m))
        ≡ answered lib (g k) (find_entry k m)
  unfolding set_result
  answered_step g r m k e = elim (Bool-cases (text_eq r.key k)) [
    | inl same ↦ rw (
      find_entry-changed r.key k (set_result lib r 0) m,
      same,
      ap g (sym (eq_of_text_eq r.key k same)) ∙ e,
    )
    | inr other ↦ rw (find_entry-changed r.key k (set_result lib r 0) m, other)
  ]

  fill_from_cache-none :
      (m : Entries) → fill_from_cache str_hash unset none m ≡ some (m, keys_of m, none)
  unfolding fill_from_cache cache_get keys_of
  fill_from_cache-none [] = refl
  fill_from_cache-none ((k, kv) ∷ m) = rw (fill_from_cache-none m)

  missing :
      (fuel : ℕ) (m : Entries) (memc : Memc)
      → get_keys str_hash unset lib fuel m (none, memc)
        ≡ fetch_missing str_hash unset lib fuel memc (m, keys_of m, none)
  unfolding get_keys
  missing fuel m memc = rw (fill_from_cache-none m, get_keys)

  -- Without a cache, a request that fails ends GetKeys with a failed CHECK.
  pub get_keys-Fails :
      (fuel : ℕ) (m : Entries) (memc : Memc) (k : Text) (kv : KeyValue)
      → find_entry k m ≡ some kv
      → Fails lib m memc
      → get_keys str_hash unset lib fuel m (none, memc) ≡ none
  unfolding keys_of find_entry mget_keys
  get_keys-Fails fuel [] memc k kv e fails = cc
  get_keys-Fails fuel ((j, kv') ∷ m) memc k kv e (inl zero_byte) =
      missing fuel ((j, kv') ∷ m) memc ∙ rw zero_byte
  get_keys-Fails fuel ((j, kv') ∷ m) memc k kv e (inr (rc, memc', asks, bad)) =
      missing fuel ((j, kv') ∷ m) memc ∙ elim (Bool-cases (any_zero (keys_of ((j, kv') ∷ m)))) [
        | inl zero_byte ↦ rw zero_byte
        | inr none_zero ↦ rw none_zero (rw asks (rw bad))
      ]

  module _ (laws : FetchLaws lib) where
    open laws use {server, Pending, mget_pending, fetch_one, fetch_end}

    fetch_results-Fetched :
        (fuel : ℕ) (rs : List Result) (memc : Memc) (m : Entries) (g : Text → Option Result)
        → length rs < fuel
        → Pending memc rs
        → Answers rs g
        → HasAll g m
        → Fetched fuel memc m g
    unfolding Fetched fetch_results HasAll
    fetch_results-Fetched zero rs memc m g h p a has = absurd (omega (arith, h))
    fetch_results-Fetched (suc fuel) [] memc m g h p a has =
        let (rc, memc', e) = fetch_end memc p in (m, memc', ground (arith, e), λ k. rw (a k))
    fetch_results-Fetched (suc fuel) (r ∷ rs) memc m g h p (here, a) has =
        let (memc', e, p') = fetch_one memc r rs p in
        let (kv, found) = has r.key r here in
        let taken : take_result str_hash unset lib r 0 m none
            ≡ some (changed r.key (set_result lib r 0) m, none) =
          take_result_lem r 0 m kv found in
        let (m', memc'', run, ans) =
          fetch_results-Fetched fuel rs memc' (changed r.key (set_result lib r 0) m)
            (λ k. if text_eq r.key k then none else g k) (omega (arith, h)) p' a
            (HasAll-changed g r (set_result lib r 0) m has) in
        (m', memc'', ground (arith, e, taken, run), λ k. ans k ∙ answered_step g r m k here)

    is_key-keys_of :
        (k : Text) (m : Entries)
        → is_key k (keys_of m) ≡ true
        → (kv : KeyValue) × (find_entry k m ≡ some kv)
    unfolding is_key keys_of find_entry
    is_key-keys_of k [] e = cc
    is_key-keys_of k ((j, kv) ∷ m) e = elim (Bool-cases (text_eq j k)) [
      | inl same ↦ (kv, rw same)
      | inr other ↦
          let (kv', found) = is_key-keys_of k m (ground (arith, other, e)) in
          (kv', rw (other, found))
    ]

    not_key-keys_of :
        (k : Text) (m : Entries) → is_key k (keys_of m) ≡ false → find_entry k m ≡ none
    unfolding is_key keys_of find_entry
    not_key-keys_of k [] e = refl
    not_key-keys_of k ((j, kv) ∷ m) e = ground (arith, not_key-keys_of k m)

    length-keys_of : (m : Entries) → length (keys_of m) ≡ length m
    unfolding keys_of
    length-keys_of [] = refl
    length-keys_of ((k, kv) ∷ m) = omega (arith, length-keys_of m)

    HasAll-asked : (g : Text → Option Result) (m : Entries) → HasAll (asked (keys_of m) g) m
    unfolding HasAll
    HasAll-asked g m k r e = elim (Bool-cases (is_key k (keys_of m))) [
      | inl in_keys ↦ is_key-keys_of k m in_keys
      | inr other ↦ let bad = rw other at e in cc
    ]

    answered-none : (o : Option Result) → answered lib o none ≡ none
    answered-none none = refl
    answered-none (some r) = refl

    answered-asked :
        (g : Text → Option Result) (m : Entries) (k : Text)
        → answered lib (asked (keys_of m) g k) (find_entry k m)
          ≡ answered lib (g k) (find_entry k m)
    answered-asked g m k = elim (Bool-cases (is_key k (keys_of m))) [
      | inl in_keys ↦ rw in_keys
      | inr other ↦ rw (other, not_key-keys_of k m other, answered-none (g k))
    ]

    mget_success :
        (fuel : ℕ) (k : Text) (kv : KeyValue) (m : Entries) (memc memc' : Memc)
        → mget_keys lib (keys_of ((k, kv) ∷ m)) memc ≡ some (0, memc')
        → fetch_missing str_hash unset lib fuel memc ((k, kv) ∷ m, keys_of ((k, kv) ∷ m), none)
          ≡ fetch_results str_hash unset lib fuel ((k, kv) ∷ m) (none, memc')
    unfolding keys_of
    mget_success fuel k kv m memc memc' asks = rw asks

    -- Without a cache, where the request for the keys succeeds and there is fuel for the entries,
    -- GetKeys ends; an entry whose key the servers give an answer for carries that answer, the code of
    -- success and its text, and every other entry is as it was. No request succeeds for a key with a
    -- zero byte.
    pub get_keys_lem :
        (fuel : ℕ) (m : Entries) (memc memc1 : Memc)
        → length m < fuel
        → Asks lib m memc memc1
        → (m' : Entries) × (memc' : Memc) × (get_keys str_hash unset lib fuel m (none, memc)
            ≡ some (m', (none, memc')))
          × ((k : Text) → find_entry k m' ≡ answered lib (server memc k) (find_entry k m))
    unfolding Fetched Asks
    get_keys_lem fuel [] memc memc1 h asks = (
      [],
      memc,
      missing fuel [] memc ∙ unfold keys_of in refl,
      λ k. unfold find_entry in sym (answered-none (server memc k)),
    )
    get_keys_lem fuel ((k, kv) ∷ m) memc memc1 h asks =
        let all : Entries = (k, kv) ∷ m in
        let (rs, p, le, a) =
          mget_pending (keys_of all) memc memc1
            (mget_keys-some lib (keys_of all) memc (0, memc1) asks) in
        let (m', memc'', run, ans) =
          fetch_results-Fetched fuel rs memc1 all (asked (keys_of all) (server memc))
            (omega (arith, h, le, length-keys_of all)) p a (HasAll-asked (server memc) all) in
        (
          m',
          memc'',
          missing fuel all memc ∙ mget_success fuel k kv m memc memc1 asks ∙ run,
          λ j. ans j ∙ answered-asked (server memc) all j,
        )
