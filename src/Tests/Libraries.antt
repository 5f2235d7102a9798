-- ===== src/Tests/Libraries.antt =====
-- Libraries that the parameters can stand for: a server with one entry, a compression that changes
-- nothing, and numbers as two characters.
use memcache_router.Prelude.{
  ℕ, ◌+◌, ◌<◌, ◌≤◌, Bool, true, false, List, [], ◌∷◌, ◌++◌, Option, none, some, if◌then◌else◌, ltb,
  ◌==◌, length, length-append, ◌≡◌, ◌≢◌, refl, sym, subst, ap, ◌∙◌, arith, Bool-cases, inl, inr,
}
use memcache_router.Prelude.Text.{Text, text_eq, text_eq_refl, eq_of_text_eq}
use memcache_router.ConsistentHash.{Server}
use memcache_router.Messages.{ℤ, pos, negsuc, KeyValue}
use memcache_router.MemClient.{Result, Memcached}
use memcache_router.MemClient.Fetches.{FetchLaws, Answers, asked, is_key}
use memcache_router.MemClient.Hosts.{ListLaws}
use memcache_router.Client.Zlib.{Zlib, Code, z_ok, z_stream_end, buffer_len}
use memcache_router.Client.Values.{Python, object_value}
use memcache_router.Client.Calls.Kept.{MergeLaws}
use memcache_router.Protocol.Bytes.{take, drop, take-append, drop-append}

pub record Handle : Type 0 where
  pub pending : List Result
  pub servers : List Server

abbrev pub new_handle : Handle
new_handle = record { pending = []; servers = [] }

abbrev pub held : Result
held = record { key = 97 ∷ []; value = 49 ∷ []; flags = 2; cas = 7 }

abbrev pub fetch : List Result → Handle → Option Result × ℕ × Handle
fetch [] h = (none, 21, h)
fetch (r ∷ rs) h = (some r, 0, record h { pending = rs })

abbrev pub wanted : Bool → List Result
wanted true = held ∷ []
wanted false = []

abbrev pub lib : Memcached
lib = record {
  Memc = Handle;
  ServerList = List Server;
  no_servers = [];
  set_no_block = λ h. (0, h);
  set_support_cas = λ h. (0, h);
  server_list_append =
      λ l hostname port. (l ++ record { hostname = hostname; port = port } ∷ [], 0);
  server_push = λ h l. (0, record h { servers = h.servers ++ l });
  mget = λ keys h. (0, record h { pending = wanted (is_key held.key keys) });
  fetch_result = λ h. fetch h.pending h;
  strerror = λ rc. [];
  run_store = λ call h. (14, h);
  run_counter = λ call h. (0, 5, h);
}

abbrev pub one_entry : Text → Option Result
one_entry k = if text_eq held.key k then some held else none

pub length-wanted : (keys : List Text) → length (wanted (is_key held.key keys)) ≤ length keys
unfolding is_key
length-wanted [] = omega arith
length-wanted (k ∷ keys) = elim (Bool-cases (is_key held.key (k ∷ keys))) [
  | inl e ↦ rw e (omega arith)
  | inr e ↦ rw e (omega arith)
]

if_none : (b : Bool) → ◌≡◌ {A = Option Result} (if b then none else none) none
if_none true = refl
if_none false = refl

asked_other :
    (keys : List Text) (k : Text) → text_eq held.key k ≡ false → asked keys one_entry k ≡ none
asked_other keys k e = rw e (if_none (is_key k keys))

asked_absent :
    (keys : List Text) (k : Text) → is_key held.key keys ≡ false → asked keys one_entry k ≡ none
asked_absent keys k e = elim (Bool-cases (text_eq held.key k)) [
  | inl same ↦
      let absent : is_key k keys ≡ false =
        ap (λ (j : Text). is_key j keys) (sym (eq_of_text_eq held.key k same)) ∙ e in
      rw absent
  | inr other ↦ asked_other keys k other
]

asked_again :
    (keys : List Text) (k : Text)
    → (if text_eq held.key k then none else asked keys one_entry k) ≡ none
asked_again keys k = elim (Bool-cases (text_eq held.key k)) [
  | inl same ↦ rw same
  | inr other ↦ rw other (if_none (is_key k keys))
]

pub wanted-Answers :
    (keys : List Text) → Answers (wanted (is_key held.key keys)) (asked keys one_entry)
wanted-Answers keys = elim (Bool-cases (is_key held.key keys)) [
  | inl e ↦ rw e (rw (e, text_eq_refl held.key), asked_again keys)
  | inr e ↦ rw e (λ k. asked_absent keys k e)
]

abbrev pub fetch_laws : FetchLaws lib
fetch_laws = record {
  server = λ memc. one_entry;
  Pending = λ memc rs. memc.pending ≡ rs;
  mget_pending = λ keys memc memc' e. (
    wanted (is_key held.key keys),
    ap (λ (x : ℕ × Handle). x.1.pending) (sym e),
    length-wanted keys,
    wanted-Answers keys,
  );
  fetch_one =
      λ memc r rs p. (record memc { pending = rs }, ap (λ (l : List Result). fetch l memc) p, refl);
  fetch_end = λ memc p. (21, memc, ap (λ (l : List Result). fetch l memc) p);
}

abbrev pub list_laws : ListLaws lib
list_laws = record {
  content = λ l. l;
  hosts = λ h. h.servers;
  content_none = refl;
  IsTaken = λ hostname port. 0 < port;
  append_lem =
      λ l hostname port t. (l ++ record { hostname = hostname; port = port } ∷ [], refl, refl);
  push_lem = λ memc l. (record memc { servers = memc.servers ++ l }, refl, refl);
  no_block_lem = λ memc. (memc, refl, refl);
  cas_lem = λ memc. (memc, refl, refl);
}

abbrev pub inflate : Text → Text × Code × Text
inflate s =
    if ltb buffer_len (length s)
    then (take buffer_len s, z_ok, drop buffer_len s)
    else (s, z_stream_end, [])

longer : (n a b : ℕ) → n ≡ a + b → a ≡ buffer_len → 0 < b → ltb buffer_len n ≡ true
longer n a b e f h = ground arith

shorter : (n : ℕ) → n ≤ buffer_len → ltb buffer_len n ≡ false
shorter n h = ground arith

pub inflate_long :
    (s out rest : Text)
    → s ≡ out ++ rest
    → length out ≡ buffer_len
    → 0 < length rest
    → inflate s ≡ (out, z_ok, rest)
inflate_long s out rest e full h =
    let long : ltb buffer_len (length (out ++ rest)) ≡ true =
      longer (length (out ++ rest)) (length out) (length rest) (length-append out rest) full h in
    let front : take buffer_len (out ++ rest) ≡ out =
      subst (λ (n : ℕ). take n (out ++ rest) ≡ out) full (take-append out rest) in
    let back : drop buffer_len (out ++ rest) ≡ rest =
      subst (λ (n : ℕ). drop n (out ++ rest) ≡ rest) full (drop-append out rest) in
    rw e (rw (long, front, back))

pub inflate_short :
    (s out : Text) → s ≡ out → length out ≤ buffer_len → inflate s ≡ (out, z_stream_end, [])
inflate_short s out e h = rw e (rw (shorter (length out) h))

abbrev pub zlib : Zlib
zlib = record {
  Stream = Text;
  compress = λ t. t;
  inflate_init = λ t. some t;
  inflate = inflate;
  Remains = λ s t. s ≡ t;
  init_remains = λ t. (t, refl, refl);
  inflate_more = λ s out rest e full h. (rest, inflate_long s out rest e full h, refl);
  inflate_last = λ s out e h. ([], inflate_short s out e h);
}

abbrev pub str : ℤ → Text
str (pos n) = 43 ∷ n ∷ []
str (negsuc n) = 45 ∷ n ∷ []

abbrev pub from_string : Text → Option ℤ
from_string [] = none
from_string (c ∷ []) = none
from_string (c ∷ n ∷ t) = some (if c == 43 then pos n else negsuc n)

pub from_string-str : (n : ℤ) → from_string (str n) ≡ some n
from_string-str (pos n) = refl
from_string-str (negsuc n) = refl

pub str_ne_nil : (n : ℤ) → str n ≢ []
str_ne_nil (pos n) e = cc
str_ne_nil (negsuc n) e = cc

abbrev pub python : Python
python = record {
  Object = Text;
  py_none = [];
  str = str;
  int_from_string = from_string;
  long_from_string = from_string;
  dumps = λ o. some o;
  loads = λ t. some (object_value t);
  str_filled = str_ne_nil;
  int-str = λ n h. from_string-str n;
  long-str = from_string-str;
  loads-dumps = λ o t e.
      ap (λ (x : Option Text). elim x [ none ↦ none | some y ↦ some (object_value y) ]) (sym e);
}

abbrev pub merge : KeyValue → KeyValue → KeyValue
merge kv e = record e { key = kv.key }

abbrev pub merge_laws : MergeLaws merge
merge_laws = record { merge_val = λ kv e h. refl; merge_flags = λ kv e u. refl }
