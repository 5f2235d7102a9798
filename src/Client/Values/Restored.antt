-- ===== src/Client/Values/Restored.antt =====
-- Restore on what PrepareValue wrote.
use Prim.Native.Nat.{bit_or}
use memcache_router.Prelude.{
  ℕ, suc, ◌*◌, ◌^◌, ◌<◌, ◌≤◌, Bool, true, false, [], ◌∷◌, some, length, ltb, ◌≡◌, ◌≢◌, not, refl,
  arith, Bool-cases, inl, inr, ◌⊎◌,
}
use memcache_router.Prelude.Text.{Text}
use memcache_router.Messages.{ℤ, pos, negsuc, KeyValue}
use memcache_router.Client.Zlib.{Zlib, refused, decompress_internal, buffer_len}
use memcache_router.Client.Zlib.Inflation.{decompress_internal-compress}
use memcache_router.Client.Values.{
  Value, string_value, bool_value, int_value, long_value, object_value, Python, FitsLong, has_flag,
  fits_long, is_empty, is_zero, represent, write_rep, write_to_kv, prepare_value, restore,
  flag_bool, flag_integer, flag_long, flag_pickle, flag_compressed,
}

-- A text that is not empty, below 2 GB, and within the fuel.
abbrev pub Sized : ℕ → Text → Type 0
Sized fuel t = (0 < length t) × (length t < 2 ^ 31) × (length t ≤ buffer_len * suc fuel)

-- The values that are kept: an int that its type holds, an object that can be pickled, and no empty string.
abbrev pub Storable : (py : Python) → ℕ → Value (Python.Object py) → Type 0
Storable py fuel (string_value s) = Sized fuel s
Storable py fuel (bool_value b) = Unit
Storable py fuel (int_value n) = FitsLong n
Storable py fuel (long_value n) = Unit
Storable py fuel (object_value o) = (t : Text) × (Python.dumps py o ≡ some t) × Sized fuel t

is_empty_long : (t : Text) → 0 < length t → is_empty t ≡ false
is_empty_long [] h = absurd (omega (arith, h))
is_empty_long (c ∷ t) h = refl

is_empty_filled : (t : Text) → t ≢ [] → is_empty t ≡ false
is_empty_filled [] h = absurd (h refl)
is_empty_filled (c ∷ t) h = refl

module _ (py : Python) (z : Zlib) (fuel : ℕ) where
  open py use {
    Object, py_none, str, int_from_string, long_from_string, dumps, loads, str_filled, int-str,
    long-str, loads-dumps,
  }

  Kept : Value Object → KeyValue → Type 0
  Kept v kv = restore py z (suc fuel) kv.val kv.flags ≡ some v

  bool-Kept :
      (b : Bool) (n : ℤ) (kv : KeyValue)
      → FitsLong n
      → not (is_zero n) ≡ b
      → Kept (bool_value b) (write_to_kv (str n) flag_bool kv)
  unfolding Kept write_to_kv restore
  bool-Kept b n kv h e = rw (is_empty_filled (str n) (str_filled n), int-str n h, e)

  int-Kept :
      (n : ℤ) (kv : KeyValue)
      → FitsLong n
      → Kept (int_value n) (write_to_kv (str n) flag_integer kv)
  unfolding Kept write_to_kv restore
  int-Kept n kv h = rw (is_empty_filled (str n) (str_filled n), int-str n h, fits n h)
    where
      fits : (m : ℤ) → FitsLong m → fits_long m ≡ true
      fits (pos m) h = ground arith
      fits (negsuc m) h = ground arith

  long-Kept : (n : ℤ) (kv : KeyValue) → Kept (long_value n) (write_to_kv (str n) flag_long kv)
  unfolding Kept write_to_kv restore
  long-Kept n kv = rw (is_empty_filled (str n) (str_filled n), long-str n)

  -- A text and its flags, compressed where it is long: the two ways back to the value.
  write_rep-Kept :
      (v : Value Object) (s : Text) (flags : ℕ) (kv : KeyValue)
      → Kept v (write_to_kv s flags kv)
      → Kept v (write_to_kv (Zlib.compress z s) (bit_or flags flag_compressed) kv)
      → Kept v (write_rep py z (s, flags, true) kv)
  unfolding write_rep
  write_rep-Kept v s flags kv plain packed = elim (Bool-cases (ltb 3072 (length s))) [
    | inl long ↦ rw long packed
    | inr short ↦ rw short plain
  ]

  string-Kept :
      (s : Text) (kv : KeyValue)
      → Sized fuel s
      → Kept (string_value s) (write_rep py z (s, 0, true) kv)
  unfolding Kept write_to_kv restore
  string-Kept s kv (lt, small, enough) =
      write_rep-Kept (string_value s) s 0 kv (rw (is_empty_long s lt))
        (rw (decompress_internal-compress z fuel s lt small enough) (rw (is_empty_long s lt)))

  object-Kept :
      (o : Object) (t : Text) (kv : KeyValue)
      → dumps o ≡ some t
      → Sized fuel t
      → Kept (object_value o) (write_rep py z (t, flag_pickle, true) kv)
  unfolding Kept write_to_kv restore
  object-Kept o t kv e (lt, small, enough) =
      write_rep-Kept (object_value o) t flag_pickle kv (rw (loads-dumps o t e)) (
        rw (decompress_internal-compress z fuel t lt small enough)
          (rw (is_empty_long t lt, loads-dumps o t e)))

IsRewritten : KeyValue → KeyValue → Type 0
IsRewritten kv kv' = kv' ≡ record kv { val = kv'.val; flags = kv'.flags }

write_rep-IsRewritten :
    (py : Python) (z : Zlib) (s : Text) (flags : ℕ) (kv : KeyValue)
    → IsRewritten kv (write_rep py z (s, flags, true) kv)
unfolding write_rep write_to_kv IsRewritten
write_rep-IsRewritten py z s flags kv = elim (Bool-cases (ltb 3072 (length s))) [
  | inl long ↦ rw long
  | inr short ↦ rw short
]

-- A value that can be stored is restored from the bytes and the flags that were written for it, whether
-- it is a string, a bool, an int, a long or a pickled object, and whether it was compressed; the rest
-- of the message is as it was.
pub restore-prepare_value :
    (py : Python) (z : Zlib) (fuel : ℕ) (v : Value (Python.Object py)) (kv : KeyValue)
    → Storable py fuel v
    → (kv' : KeyValue) × (prepare_value py z v kv ≡ some kv')
      × (restore py z (suc fuel) kv'.val kv'.flags ≡ some v)
      × (kv' ≡ record kv { val = kv'.val; flags = kv'.flags })
unfolding prepare_value IsRewritten Kept
restore-prepare_value py z fuel (string_value s) kv f =
    (_, refl, string-Kept py z fuel s kv f, write_rep-IsRewritten py z s 0 kv)
restore-prepare_value py z fuel (bool_value true) kv f =
    (_, refl, bool-Kept py z fuel true (pos 1) kv (omega arith) refl, refl)
restore-prepare_value py z fuel (bool_value false) kv f =
    (_, refl, bool-Kept py z fuel false (pos 0) kv (omega arith) refl, refl)
restore-prepare_value py z fuel (int_value n) kv f = (_, refl, int-Kept py z fuel n kv f, refl)
restore-prepare_value py z fuel (long_value n) kv f = (_, refl, long-Kept py z fuel n kv, refl)
restore-prepare_value py z fuel (object_value o) kv (t, e, f) = (
  write_rep py z (t, flag_pickle, true) kv,
  rw (e, prepare_value, represent),
  object-Kept py z fuel o t kv e f,
  write_rep-IsRewritten py z t flag_pickle kv,
)

-- The empty string comes back as None, and so does every value whose stored bytes no longer inflate.
pub restore-None :
    (py : Python) (z : Zlib) (fuel flags : ℕ) (input : Text)
    → ((has_flag flags flag_compressed ≡ true) × (decompress_internal z fuel input ≡ refused))
      ⊎ ((input ≡ []) × (flags ≡ 0))
    → restore py z fuel input flags ≡ some (object_value (Python.py_none py))
unfolding restore
restore-None py z fuel flags input (inl (compressed, e)) = rw (compressed, e)
restore-None py z fuel flags input (inr (e, f)) = rw (e, f)
