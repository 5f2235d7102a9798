-- ===== src/Messages.antt =====
-- memdata.proto: the messages KeyValue and Instruction, with the fields that the programs read.
--
-- A field with a default is its value. `default_counter_val` is an Option, since the code asks whether
-- it is there. Serializing, parsing and merging are the generated code's and parameters where they
-- are used.
use memcache_router.Prelude.{ℕ, Bool, true, false, List, [], Option, none, some}
use memcache_router.Prelude.Text.{Text}
use memcache_router.ConsistentHash.{Server}

-- An `int32`: `negsuc n` is -(n + 1).
pub data ℤ : Type 0 where
  pos negsuc : ℕ → ℤ

pub record KeyValue : Type 0 where
  pub key : Text
  pub val : Text
  pub flags : ℕ
  pub expire_in_seconds : ℕ
  pub cas : ℕ
  pub allow_replace : Bool
  pub default_counter_val : Option ℕ
  pub offset : ℤ
  pub counter_val : ℕ
  pub no_propagate : Bool
  pub return_code : ℕ
  pub return_error : Text

abbrev pub new_key_value : KeyValue
new_key_value = record {
  key = [];
  val = [];
  flags = 0;
  expire_in_seconds = 0;
  cas = 0;
  allow_replace = true;
  default_counter_val = none;
  offset = pos 0;
  counter_val = 0;
  no_propagate = false;
  return_code = 0;
  return_error = [];
}

-- An average is the sum and the number that a double divides; what was not set is `none`.
pub record Breakdown : Type 0 where
  pub average : Option (ℕ × ℕ)
  pub count : ℕ

pub record StatsMessage : Type 0 where
  pub push_latency : Option Breakdown
  pub pop_latency : Option Breakdown
  pub batch_size : Option Breakdown
  pub loop_latency : Option Breakdown
  pub packet_latency : Option Breakdown
  pub cache_hit : Option Breakdown
  pub cache_miss : Option Breakdown

pub record Instruction : Type 0 where
  pub get_keys : List KeyValue
  pub set_keys : List KeyValue
  pub incr_keys : List KeyValue
  pub servers : List Server
  pub stats : Option StatsMessage

abbrev pub has_stats : Option StatsMessage → Bool
has_stats none = false
has_stats (some s) = true

abbrev pub new_instruction : Instruction
new_instruction = record {
  get_keys = [];
  set_keys = [];
  incr_keys = [];
  servers = [];
  stats = none;
}
