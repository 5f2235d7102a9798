-- ===== src/Benchmark.antt =====
-- benchmark.py: the test that sets values with a client and gets them back, and the client's hosts.
--
-- The client of a test is the parameter `CacheClient`. An IndexError, and an assertion that fails, is
-- `none`. Printing is left out, but the calls of `get` that it makes are not.
pub mod Gets
use memcache_router.Prelude.{
  ℕ, zero, suc, Bool, true, false, List, [], ◌∷◌, ◌++◌, Option, none, some, if◌then◌else◌,
}
use memcache_router.Prelude.Text.{Text, text}
use memcache_router.Messages.{Instruction, new_instruction}
use memcache_router.Client.Calls.{add_host}
use memcache_router.Codegen.Names.Decimal.{decimal}

-- `equals` is Python's `==` of two values, with `none` for None.
pub record CacheClient : Type 1 where
  pub State : Type 0
  pub Value : Type 0
  pub equals : Value → Option Value → Bool
  pub set : Text → Value → State → State
  pub get : Text → State → Option Value × State

abbrev pub num_values : ℕ
num_values = 1000

unfoldable pub test_key : Text → ℕ → Text
test_key suffix i = text "testmrjn_" ++ (suffix ++ decimal i)

-- `values[i]`.
unfoldable pub value_at {ℓ} : {A : Type ℓ} → ℕ → List A → Option A
value_at i [] = none
value_at zero (v ∷ values) = some v
value_at (suc i) (v ∷ values) = value_at i values

-- The hosts that `init` gives to a client of cmrclient, before it sends them.
unfoldable pub add_hosts : {Box : Type 0} → (Box → Text) → List Box → Instruction → Instruction
add_hosts host_of_box [] host_list = host_list
add_hosts host_of_box (box ∷ boxes) host_list =
    add_hosts host_of_box boxes (add_host (host_of_box box) 11211 host_list)

module _ (client : CacheClient) (suffix : Text) where
  open client use {State, Value, equals, set, get}

  -- The loop of test_client_set, with `n` rounds from `i` on.
  unfoldable pub set_from : List Value → ℕ → ℕ → State → Option State
  set_from values i zero s = some s
  set_from values i (suc n) s = elim (value_at i values) [
    | none ↦ none
    | some v ↦ set_from values (suc i) n (set (test_key suffix i) v s)
  ]

  unfoldable pub test_client_set : List Value → State → Option State
  test_client_set values s = set_from values 0 num_values s

  abbrev pub got_wrong : Option Value × State → Option State
  got_wrong (shown, s) = none

  -- The body of the loop of test_client_get: where the value is a wrong one it is got once more, to be
  -- shown, and the assertion fails.
  abbrev pub check_value : Text → Value → Option Value × State → Option State
  check_value key v (got, s) = if equals v got then some s else got_wrong (get key s)

  unfoldable pub get_from : List Value → ℕ → ℕ → State → Option State
  get_from values i zero s = some s
  get_from values i (suc n) s = elim (value_at i values) [
    | none ↦ none
    | some v ↦ elim (check_value (test_key suffix i) v (get (test_key suffix i) s)) [
      | none ↦ none
      | some s' ↦ get_from values (suc i) n s'
    ]
  ]

  unfoldable pub test_client_get : List Value → State → Option State
  test_client_get values s = get_from values 0 num_values s
