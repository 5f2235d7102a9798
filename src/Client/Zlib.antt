-- ===== src/Client/Zlib.antt =====
-- cmrclient.cpp, DecompressInternal: zlib's inflate is called until it does not ask for another buffer,
-- and the buffers are put together.
pub mod Inflation
use memcache_router.Prelude.{
  ℕ, zero, suc, ◌+◌, ◌-◌, ◌*◌, ◌%◌, ◌^◌, ◌<◌, ◌≤◌, List, [], ◌∷◌, ◌++◌, append_assoc, append-nil,
  ◌≡◌, ◌⊎◌, inl, inr, refl, ap, ◌∙◌, sym, subst, arith, length, length-append, Option, none, some,
  Bool, true, false, if◌then◌else◌, ltb, leb, ◌==◌, Bool-cases,
}
use memcache_router.Prelude.Text.{Text}
use memcache_router.Messages.{ℤ, pos, negsuc}
use memcache_router.Protocol.{to_int}
use memcache_router.Protocol.Bytes.{take, drop, take-append, drop-append}

-- What inflate returns: Z_OK, Z_STREAM_END, or an error.
pub data Code : Type 0 where
  z_ok z_stream_end z_error : Code

abbrev pub buffer_len : ℕ
buffer_len = 65536

-- zlib. `inflate` gives the bytes that it writes to a buffer of `buffer_len` bytes. While bytes remain
-- that a buffer does not hold it fills the buffer and returns Z_OK; else it writes what remains and
-- returns Z_STREAM_END.
pub record Zlib : Type 1 where
  pub Stream : Type 0
  pub compress : Text → Text
  pub inflate_init : Text → Option Stream
  pub inflate : Stream → Text × Code × Stream
  pub Remains : Stream → Text → Type 0
  pub init_remains : (t : Text) → (s : Stream) × (inflate_init (compress t) ≡ some s) × Remains s t
  pub inflate_more :
      (s : Stream) (out rest : Text)
      → Remains s (out ++ rest)
      → length out ≡ buffer_len
      → 0 < length rest
      → (s' : Stream) × (inflate s ≡ (out, z_ok, s')) × Remains s' rest
  pub inflate_last :
      (s : Stream) (out : Text)
      → Remains s out
      → length out ≤ buffer_len
      → (s' : Stream) × (inflate s ≡ (out, z_stream_end, s'))

-- `min(total_out, kBufferLen)` bytes of each buffer go to the output from `pos` on. `at` throws where the
-- output ends: `none`. The bytes of a buffer behind those that inflate wrote are not looked at.
abbrev pub min : ℕ → ℕ → ℕ
min a b = if ltb b a then b else a

unfoldable pub collect : ℕ → List Text → Option (Text × ℕ)
collect total_out [] = some ([], total_out)
collect total_out (s ∷ data_left) =
    let size : ℕ = min total_out buffer_len in
    let rest : Option (Text × ℕ) = collect (total_out - size) data_left in
    if total_out == 0
    then none
    else elim rest [ none ↦ none | some (t, left) ↦ some (take size s ++ t, left) ]

-- How DecompressInternal ends: `throws` is an exception or a CHECK that fails, `refused` is false,
-- `endless` is that the fuel ran out.
pub data Inflated : Type 0 where
  throws refused endless : Inflated
  inflated : Text → Inflated

-- What the loop collects: the buffers, and whether the last call ended the stream.
pub data Called : Type 0 where
  out_of_fuel : Called
  ended failed : List Text → Called

abbrev pub with_buffer : Text → Called → Called
with_buffer out out_of_fuel = out_of_fuel
with_buffer out (ended l) = ended (out ∷ l)
with_buffer out (failed l) = failed (out ∷ l)

unfoldable pub total_length : List Text → ℕ
total_length [] = 0
total_length (t ∷ l) = length t + total_length l

-- `resize` throws at a negative size, and the last CHECK is that no byte is left.
unfoldable pub copied : Option (Text × ℕ) → Inflated
copied none = throws
copied (some (t, left)) = if left == 0 then inflated t else throws

abbrev pub assembled : List Text → ℤ → Inflated
assembled l (pos total_out) = copied (collect total_out l)
assembled l (negsuc n) = throws

unfoldable pub assemble : Called → Inflated
assemble out_of_fuel = endless
assemble (failed l) = refused
assemble (ended l) = assembled l (to_int (total_length l))

module _ (z : Zlib) where
  open z use {
    Stream, compress, inflate_init, inflate, Remains, init_remains, inflate_more, inflate_last,
  }

  unfoldable pub calls : ℕ → Stream → Called
  calls zero s = out_of_fuel
  calls (suc fuel) s =
      let (out, code, s') = inflate s in
      let more : Called = with_buffer out (calls fuel s') in
      elim code [ z_ok ↦ more | z_stream_end ↦ ended (out ∷ []) | z_error ↦ failed (out ∷ []) ]

  unfoldable pub decompress_internal : ℕ → Text → Inflated
  decompress_internal fuel input = elim (inflate_init input) [
    | none ↦ refused
    | some s ↦ assemble (calls fuel s)
  ]
