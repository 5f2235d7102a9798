-- ===== src/Client/Calls.antt =====
-- cmrclient.cpp: the calls of Client, with the message that each sends and what it makes of the answer.
--
-- The sockets are left out: a call is the message that it sends, and a function of the message that it
-- receives. A failed CHECK, and a value that cannot be made, is `none`.
pub mod Kept
use memcache_router.Prelude.{
  ℕ, suc, ◌-◌, Bool, true, false, List, [], ◌∷◌, ◌++◌, map, Option, none, some, if◌then◌else◌, ◌==◌,
}
use memcache_router.Prelude.Text.{Text}
use memcache_router.ConsistentHash.{Server}
use memcache_router.Messages.{ℤ, pos, negsuc, KeyValue, new_key_value, Instruction, new_instruction}
use memcache_router.Client.Zlib.{Zlib}
use memcache_router.Client.Values.{Python, Value, prepare_value, restore}

unfoldable pub reset_hosts : Instruction → Instruction
reset_hosts host_list = new_instruction

unfoldable pub add_host : Text → ℕ → Instruction → Instruction
add_host hostname port host_list = record host_list {
  servers = host_list.servers ++ record { hostname = hostname; port = port } ∷ [];
}

abbrev pub key_message : Text → KeyValue
key_message k = record new_key_value { key = k }

-- The message of GetInternal.
unfoldable pub get_message : List Text → Instruction
get_message keys = record new_instruction { get_keys = map key_message keys }

-- The message of `incr`, and that of `decr`.
unfoldable pub incr_message : Text → ℤ → Instruction
incr_message key offset = record new_instruction {
  incr_keys = record (key_message key) { offset = offset } ∷ [];
}

-- `0 - offset`.
abbrev pub minus : ℤ → ℤ
minus (pos n) = if n == 0 then pos 0 else negsuc (n - 1)
minus (negsuc n) = pos (suc n)

unfoldable pub decr_message : Text → ℤ → Instruction
unfolding incr_message
decr_message key offset = incr_message key (minus offset)

-- The code 16 is that the key was not found.
abbrev pub counter_of : List KeyValue → Option ℕ
counter_of [] = none
counter_of (kv ∷ kvs) = some (if kv.return_code == 16 then 0 else kv.counter_val)

unfoldable pub incr_answer : Instruction → Option ℕ
incr_answer response = counter_of response.incr_keys

module _ (py : Python) (z : Zlib) where
  open py use {Object}

  abbrev pub set_options : ℕ → ℕ → Bool → KeyValue → Instruction
  set_options time cas replace kv = record new_instruction {
    set_keys = record kv { cas = cas; expire_in_seconds = time; allow_replace = replace } ∷ [];
  }

  unfoldable pub set_internal : Text → Value Object → ℕ → ℕ → Bool → Option Instruction
  set_internal key val time cas replace = elim (prepare_value py z val (key_message key)) [
    | none ↦ none
    | some kv ↦ some (set_options time cas replace kv)
  ]

  -- `set`, `add` and `cas`.
  unfoldable pub set : Text → Value Object → ℕ → Option Instruction
  unfolding set_internal
  set key val time = set_internal key val time 0 true

  unfoldable pub add : Text → Value Object → ℕ → Option Instruction
  unfolding set_internal
  add key val time = set_internal key val time 0 false

  unfoldable pub cas : Text → Value Object → ℕ → ℕ → Option Instruction
  unfolding set_internal
  cas key val cas_id time = set_internal key val time cas_id true

  abbrev pub restore_first : ℕ → List KeyValue → Option (Value Object × ℕ)
  restore_first fuel [] = none
  restore_first fuel (kv ∷ kvs) = elim (restore py z fuel kv.val kv.flags) [
    | none ↦ none
    | some v ↦ some (v, kv.cas)
  ]

  unfoldable pub gets_answer : ℕ → Instruction → Option (Value Object × ℕ)
  gets_answer fuel response = restore_first fuel response.get_keys

  unfoldable pub get_answer : ℕ → Instruction → Option (Value Object)
  unfolding gets_answer
  get_answer fuel response = elim (gets_answer fuel response) [
    | none ↦ none
    | some (v, cas_id) ↦ some v
  ]

  -- The items that get_multi puts into the dict, in order.
  unfoldable pub restore_all : ℕ → List KeyValue → Option (List (Text × Value Object))
  restore_all fuel [] = some []
  restore_all fuel (kv ∷ kvs) = elim (restore py z fuel kv.val kv.flags) [
    | none ↦ none
    | some v ↦ elim (restore_all fuel kvs) [ none ↦ none | some items ↦ some ((kv.key, v) ∷ items) ]
  ]

  unfoldable pub get_multi_answer : ℕ → Instruction → Option (List (Text × Value Object))
  unfolding restore_all
  get_multi_answer fuel response = restore_all fuel response.get_keys
