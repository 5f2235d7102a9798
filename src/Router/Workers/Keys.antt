-- ===== src/Router/Workers/Keys.antt =====
-- The map of the keys that a batch of GETs asks for.
use memcache_router.Prelude.{
  suc, ◌+◌, ◌≤◌, List, [], ◌∷◌, some, if◌then◌else◌, ◌≡◌, refl, arith, ◌∙◌, length, All, Bool-cases,
  inl, inr,
}
use memcache_router.Prelude.Text.{Text, text_eq, text_eq_refl, text_eq_iff}
use memcache_router.Messages.{KeyValue, new_key_value}
use memcache_router.MemClient.{Entries, find_entry}
use memcache_router.Router.Workers.{text_ltb, insert_key, insert_keys}

-- The entries of a turn's map are new.
abbrev pub AllNew : Entries → Type 0
AllNew = All (λ e. e.1 ≡ new_key_value)

insert_key-AllNew : (k : Text) (m : Entries) → AllNew m → AllNew (insert_key k m)
unfolding insert_key
insert_key-AllNew k [] h = (refl, tt)
insert_key-AllNew k ((j, kv) ∷ m) (h, hs) = elim (Bool-cases (text_eq j k)) [
  | inl same ↦ rw same (h, hs)
  | inr other ↦ elim (Bool-cases (text_ltb k j)) [
    | inl before ↦ rw (other, before) (refl, (h, hs))
    | inr behind ↦ rw (other, behind) (h, insert_key-AllNew k m hs)
  ]
]

find_entry-insert_key :
    (i k : Text) (m : Entries)
    → AllNew m
    → find_entry i (insert_key k m) ≡ (if text_eq k i then some new_key_value else find_entry i m)
unfolding find_entry insert_key
find_entry-insert_key i k [] h = refl
find_entry-insert_key i k ((j, kv) ∷ m) (h, hs) =
    ground
      (arith, h, text_eq_iff j k, text_eq_iff k i, text_eq_iff j i, find_entry-insert_key i k m hs)

length-insert_key : (k : Text) (m : Entries) → length (insert_key k m) ≤ suc (length m)
unfolding insert_key
length-insert_key k [] = omega arith
length-insert_key k ((j, kv) ∷ m) = elim (Bool-cases (text_eq j k)) [
  | inl same ↦ rw same (omega arith)
  | inr other ↦ elim (Bool-cases (text_ltb k j)) [
    | inl before ↦ rw (other, before) (omega arith)
    | inr behind ↦ rw (other, behind) (omega (arith, length-insert_key k m))
  ]
]

pub insert_keys-AllNew : (kvs : List KeyValue) (m : Entries) → AllNew m → AllNew (insert_keys kvs m)
unfolding insert_keys
insert_keys-AllNew [] m h = h
insert_keys-AllNew (kv ∷ kvs) m h =
    insert_keys-AllNew kvs (insert_key kv.key m) (insert_key-AllNew kv.key m h)

pub length-insert_keys :
    (kvs : List KeyValue) (m : Entries) → length (insert_keys kvs m) ≤ length m + length kvs
unfolding insert_keys
length-insert_keys [] m = omega arith
length-insert_keys (kv ∷ kvs) m =
    omega (arith, length-insert_keys kvs (insert_key kv.key m), length-insert_key kv.key m)

-- The keys have new entries.
abbrev pub Covers : Entries → List KeyValue → Type 0
Covers m = All (λ kv. find_entry kv.key m ≡ some new_key_value)

-- An entry once there stays.
unfoldable pub Grows : Entries → Entries → Type 0
Grows m m' = (k : Text) → find_entry k m ≡ some new_key_value → find_entry k m' ≡ some new_key_value

insert_key-Grows : (k : Text) (m : Entries) → AllNew m → Grows m (insert_key k m)
unfolding Grows
insert_key-Grows k m h i e = find_entry-insert_key i k m h ∙ ground (arith, e)

pub insert_keys-Grows : (kvs : List KeyValue) (m : Entries) → AllNew m → Grows m (insert_keys kvs m)
unfolding insert_keys Grows
insert_keys-Grows [] m h i e = e
insert_keys-Grows (kv ∷ kvs) m h i e =
    insert_keys-Grows kvs (insert_key kv.key m) (insert_key-AllNew kv.key m h) i
      (unfold Grows in insert_key-Grows kv.key m h i e)

pub insert_keys-Covers :
    (kvs : List KeyValue) (m : Entries) → AllNew m → Covers (insert_keys kvs m) kvs
unfolding insert_keys Grows
insert_keys-Covers [] m h = tt
insert_keys-Covers (kv ∷ kvs) m h =
    let m' : Entries = insert_key kv.key m in
    (
      insert_keys-Grows kvs m' (insert_key-AllNew kv.key m h) kv.key
          (find_entry-insert_key kv.key kv.key m h ∙ rw (text_eq_refl kv.key)),
      insert_keys-Covers kvs m' (insert_key-AllNew kv.key m h),
    )
