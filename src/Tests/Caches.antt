-- ===== src/Tests/Caches.antt =====
-- Runs of Cache.antt and Cache/Buckets.antt.
use memcache_router.Prelude.{
  ℕ, ◌+◌, ◌-◌, ◌/◌, ◌==◌, ◌%◌, ◌^◌, List, [], ◌∷◌, ◌++◌, none, some, length, ◌≡◌, ◌≢◌, refl, arith,
  if◌then◌else◌,
}
use memcache_router.Prelude.Text.{Text, text, text_eq}
use memcache_router.Cache.{
  Cache, new_cache, get_index, get, add_or_replace, put_bucket, count, populate_stats,
}
use memcache_router.Cache.Buckets
use memcache_router.Cache.Buckets.{
  Data, Node, KeyValue, Bucket, new_bucket, to_data, int_widened, used, sub, plus, find, store,
  erase, data_at, without, write_data, evict, delete_stale_data, make_room, find_or_insert_data,
  get_at, read_at, answer, move_to_end, insert_data,
}
use memcache_router.Cache.Buckets.Valid.{unset_data}
use memcache_router.Cache.Buckets.Evict.{IsGood}
use memcache_router.Cache.Buckets.Calls
use memcache_router.Cache.Buckets.Calls.{
  stored, IsReached, start, then_add, IsReached-IsGood, new_bucket-IsGood,
}
use memcache_router.Cache.Buckets.Miss.{get-eq-undefined}
use memcache_router.Cache.Buckets.Memory.{add_or_replace-memory}
use memcache_router.Cache.Buckets.Order.{
  IsOwnNode, IsEvicted, find_or_insert_data-order, delete_stale_data-order,
}
use memcache_router.Cache.Shards.{
  AreGood, Call, add, read, reads, run, add_or_replace-AreGood, run-counts,
}

abbrev red : KeyValue
red = record { val = text "red"; flags = 7; cas = 1 }

abbrev blue : KeyValue
blue = record { val = text "blue"; flags = 8; cas = 2 }

abbrev one : Bucket
one = record {
  key_to_litr = (text "a", 0) ∷ [];
  access_list = (0, to_data (text "a") red) ∷ [];
  next = 1;
  memory = 4;
}

-- A limit of 2 and 1 to take off: the second call evicts what the first one added.
abbrev two : Bucket
two = record {
  key_to_litr = (text "b", 1) ∷ [];
  access_list = (1, to_data (text "b") blue) ∷ [];
  next = 2;
  memory = 2 ^ 64 - 12 + 5;
}

run_one : Buckets.add_or_replace 0 2 1 new_bucket (text "a") red ≡ some one
unfolding Buckets.add_or_replace make_room find_or_insert_data find store write_data data_at used
    int_widened sub plus text
run_one = refl

run_two : Buckets.add_or_replace 0 2 1 one (text "b") blue ≡ some two
unfolding Buckets.add_or_replace make_room find_or_insert_data find store write_data data_at used
    int_widened sub plus text delete_stale_data evict erase text_eq
run_two = refl

one-IsReached : IsReached one
one-IsReached = then_add 0 2 1 (text "a") red start run_one

two-IsReached : IsReached two
two-IsReached = then_add 0 2 1 (text "b") blue one-IsReached run_two

IsReached-IsGood_example : IsGood two
IsReached-IsGood_example = IsReached-IsGood two-IsReached

get-add_or_replace_example :
    (b' : Bucket) × (Buckets.add_or_replace 0 2 1 one (text "b") blue ≡ some b')
    × IsGood b'
    × ((u : ℕ) → (b'' : Bucket) × (Buckets.get u b' (text "b") ≡ some (stored blue, b'')))
get-add_or_replace_example =
    Calls.get-add_or_replace 0 2 1 one (text "b") blue (IsReached-IsGood one-IsReached)

b_absent : find (text "b") one.key_to_litr ≡ none
unfolding find text text_eq
b_absent = refl

get-eq-undefined_example :
    (b : Bucket) × (Buckets.get 0 new_bucket (text "a") ≡ some (none, b))
    × (Buckets.get 0 (delete_stale_data b 102400) (text "a") ≡ none)
get-eq-undefined_example = get-eq-undefined 0 102400 (text "a") (unfold text in λ p. cc)

add_or_replace-memory_example :
    (b' : Bucket) × (Buckets.add_or_replace 0 10 1 one (text "b") blue ≡ some b')
    × (b'.memory ≡ (4 + (length (text "b") + length (text "blue"))) % 2 ^ 64)
add_or_replace-memory_example =
    add_or_replace-memory 0 10 1 one (text "b") blue ((IsReached-IsGood one-IsReached).0)
      (omega arith) b_absent (unfold text in omega arith)

find_or_insert_data-order_example :
    (i : ℕ) × (d : Data) × (b' : Bucket) × (find_or_insert_data 0 one (text "a") ≡ some (i, b'))
    × IsOwnNode 0 one (text "a") i d b'
    × (b'.access_list ≡ without i one.access_list ++ (i, d) ∷ [])
    × (find (text "a") b'.key_to_litr ≡ some i)
    × ((j : Text) → j ≢ text "a" → find j b'.key_to_litr ≡ find j one.key_to_litr)
    × (b'.memory ≡ 4)
find_or_insert_data-order_example =
    find_or_insert_data-order 0 one (text "a") ((IsReached-IsGood one-IsReached).0)

delete_stale_data-order_example :
    (front : List Node) × IsEvicted (sub 4 1) one one.access_list front (delete_stale_data one 1)
delete_stale_data-order_example = delete_stale_data-order one 1

abbrev str_hash : Text → ℕ
str_hash = length

abbrev cache : Cache
cache = new_cache (λ n. n / 100) 0

cache-AreGood : AreGood cache
unfolding new_cache
cache-AreGood i = new_bucket-IsGood

add_or_replace-AreGood_example :
    (c' : Cache) × (add_or_replace str_hash 0 cache (text "a") red ≡ some c')
    × AreGood c'
    × (populate_stats c' ≡ populate_stats cache)
    × ((i : ℕ)
        → c'.buckets i ≡ (
            if i == get_index str_hash (text "a")
            then c'.buckets (get_index str_hash (text "a"))
            else cache.buckets i))
    × ((u : ℕ) → (c'' : Cache) × (get str_hash u c' (text "a") ≡ some (stored red, c'')))
add_or_replace-AreGood_example =
    add_or_replace-AreGood str_hash 0 cache (text "a") red cache-AreGood

abbrev calls : List Call
calls = read (text "a") ∷ add (text "a") red ∷ read (text "a") ∷ []

abbrev missed : Bucket
missed = record {
  key_to_litr = (text "a", 0) ∷ [];
  access_list = (0, unset_data 0) ∷ [];
  next = 1;
  memory = 0;
}

abbrev after_calls : Cache
after_calls = record cache {
  hits = 1;
  miss = 1;
  buckets =
      λ j. if j == 1 then one else if j == 1 then one else if j == 1 then missed else new_bucket;
}

run-calls : run str_hash 0 cache calls ≡ some after_calls
unfolding run add_or_replace get get_index put_bucket count new_cache Buckets.add_or_replace
    make_room Buckets.get get_at read_at answer move_to_end find_or_insert_data find store
    write_data without data_at used int_widened sub plus text text_eq
run-calls = refl

run-counts_example :
    ((populate_stats after_calls).0 + (populate_stats after_calls).1) % 2 ^ 64
    ≡ ((populate_stats cache).0 + (populate_stats cache).1 + reads calls) % 2 ^ 64
run-counts_example = run-counts str_hash 0 cache after_calls calls run-calls
