-- ===== src/Client/Values.antt =====
-- cmrclient.cpp: PrepareValue, WriteToKV and Restore.
--
-- A value is of Python's str, bool, int or long, or another object. None is another object. A call that
-- returns NULL, and an exception, is `none`.
pub mod Restored
use Prim.Native.Nat.{bit_and, bit_or}
use memcache_router.Prelude.{
  ℕ, zero, suc, ◌+◌, ◌^◌, ◌<◌, Bool, true, false, List, [], ◌∷◌, Option, none, some, if◌then◌else◌,
  length, ltb, ◌==◌, ◌≡◌, ◌≢◌, not,
}
use memcache_router.Prelude.Text.{Text}
use memcache_router.Messages.{ℤ, pos, negsuc, KeyValue}
use memcache_router.Client.Zlib.{
  Zlib, Inflated, throws, refused, endless, inflated, decompress_internal,
}

pub data Value (Object : Type 0) : Type 0 where
  string_value : Text → Value Object
  bool_value : Bool → Value Object
  int_value : ℤ → Value Object
  long_value : ℤ → Value Object
  object_value : Object → Value Object

-- What an `int` object holds.
abbrev pub FitsLong : ℤ → Type 0
FitsLong (pos n) = n < 2 ^ 63
FitsLong (negsuc n) = n < 2 ^ 63

-- Python: `str`, PyInt_FromString and PyLong_FromString with base 0, `cPickle.dumps` and `loads`.
pub record Python : Type 1 where
  pub Object : Type 0
  pub py_none : Object
  pub str : ℤ → Text
  pub int_from_string : Text → Option ℤ
  pub long_from_string : Text → Option ℤ
  pub dumps : Object → Option Text
  pub loads : Text → Option (Value Object)
  pub str_filled : (n : ℤ) → str n ≢ []
  pub int-str : (n : ℤ) → FitsLong n → int_from_string (str n) ≡ some n
  pub long-str : (n : ℤ) → long_from_string (str n) ≡ some n
  pub loads-dumps : (o : Object) (t : Text) → dumps o ≡ some t → loads t ≡ some (object_value o)

abbrev pub flag_pickle : ℕ
flag_pickle = 1

abbrev pub flag_integer : ℕ
flag_integer = 2

abbrev pub flag_long : ℕ
flag_long = 4

abbrev pub flag_compressed : ℕ
flag_compressed = 8

abbrev pub flag_bool : ℕ
flag_bool = 16

abbrev pub has_flag : ℕ → ℕ → Bool
has_flag flags flag = not (bit_and flags flag == 0)

unfoldable pub write_to_kv : Text → ℕ → KeyValue → KeyValue
write_to_kv str_obj flags kv = record kv { val = str_obj; flags = flags }

abbrev pub is_zero : ℤ → Bool
is_zero (pos n) = n == 0
is_zero (negsuc n) = false

abbrev pub fits_long : ℤ → Bool
fits_long (pos n) = ltb n (2 ^ 63)
fits_long (negsuc n) = ltb n (2 ^ 63)

abbrev pub is_empty : Text → Bool
is_empty [] = true
is_empty (c ∷ t) = false

module _ (py : Python) (z : Zlib) where
  open py use {Object, py_none, str, int_from_string, long_from_string, dumps, loads}

  -- `rep`, the flags and `can_compress`, before the size is looked at.
  unfoldable pub represent : Value Object → Option (Text × ℕ × Bool)
  represent (string_value s) = some (s, 0, true)
  represent (bool_value true) = some (str (pos 1), flag_bool, false)
  represent (bool_value false) = some (str (pos 0), flag_bool, false)
  represent (int_value n) = some (str n, flag_integer, false)
  represent (long_value n) = some (str n, flag_long, false)
  represent (object_value o) = elim (dumps o) [ none ↦ none | some t ↦ some (t, flag_pickle, true) ]

  unfoldable pub write_rep : Text × ℕ × Bool → KeyValue → KeyValue
  unfolding write_to_kv
  write_rep (rep, flags, can_compress) kv =
      if can_compress
      then (if ltb 3072 (length rep)
          then write_to_kv (Zlib.compress z rep) (bit_or flags flag_compressed) kv
          else write_to_kv rep flags kv)
      else write_to_kv rep flags kv

  unfoldable pub prepare_value : Value Object → KeyValue → Option KeyValue
  unfolding represent write_rep
  prepare_value v kv = elim (represent v) [ none ↦ none | some rep ↦ some (write_rep rep kv) ]

  abbrev pub bool_of : Option ℤ → Option (Value Object)
  bool_of none = none
  bool_of (some n) = some (bool_value (not (is_zero n)))

  -- A number that an int does not hold is a long.
  abbrev pub int_of : Option ℤ → Option (Value Object)
  int_of none = none
  int_of (some n) = some (if fits_long n then int_value n else long_value n)

  abbrev pub long_of : Option ℤ → Option (Value Object)
  long_of none = none
  long_of (some n) = some (long_value n)

  -- The branches of Restore, with the decompressed bytes; `decomp` is empty where nothing was.
  unfoldable pub restore_from : Text → ℕ → Text → Option (Value Object)
  restore_from input flags decomp =
      if has_flag flags flag_bool
      then (if is_empty input then some (bool_value false) else bool_of (int_from_string input))
      else if has_flag flags flag_integer
      then (if is_empty input then some (int_value (pos 0)) else int_of (int_from_string input))
      else if has_flag flags flag_long
      then (if is_empty input then some (int_value (pos 0)) else long_of (long_from_string input))
      else if has_flag flags flag_pickle
      then loads (if is_empty decomp then input else decomp)
      else if is_empty decomp
      then (if is_empty input then some (object_value py_none) else some (string_value input))
      else some (string_value decomp)

  abbrev pub restore_inflated : Text → ℕ → Inflated → Option (Value Object)
  restore_inflated input flags throws = none
  restore_inflated input flags endless = none
  restore_inflated input flags refused = some (object_value py_none)
  restore_inflated input flags (inflated decomp) = restore_from input flags decomp

  -- The fuel is that of DecompressInternal's loop.
  unfoldable pub restore : ℕ → Text → ℕ → Option (Value Object)
  unfolding restore_from
  restore fuel input flags =
      if has_flag flags flag_compressed
      then restore_inflated input flags (decompress_internal z fuel input)
      else restore_from input flags []
