-- ===== src/Client/Zlib/Inflation.antt =====
-- DecompressInternal on what compress gave.
use memcache_router.Prelude.{
  ℕ, zero, suc, ◌+◌, ◌-◌, ◌*◌, ◌^◌, ◌<◌, ◌≤◌, List, [], ◌∷◌, ◌++◌, append-nil, ◌≡◌, inl, inr, refl,
  ap, ◌∙◌, sym, subst, arith, length, length-append, some, false, ltb, ◌==◌, Bool-cases,
}
use memcache_router.Prelude.Text.{Text}
use memcache_router.Messages.{pos}
use memcache_router.Protocol.{to_int}
use memcache_router.Protocol.Bytes.{take, drop}
use memcache_router.Client.Zlib.{
  Zlib, z_ok, buffer_len, min, collect, inflated, ended, total_length, copied, assemble, calls,
  decompress_internal,
}

-- The buffers that hold a text.
data Buffers : List Text → Text → Type 0 where
  last_buffer : {out : Text} → length out ≤ buffer_len → Buffers (out ∷ []) out
  full_buffer :
      {out : Text} {l : List Text} {t : Text}
      → length out ≡ buffer_len
      → 0 < length t
      → Buffers l t
      → Buffers (out ∷ l) (out ++ t)

take-all : (n : ℕ) (t : Text) → n ≡ length t → take n t ≡ t
unfolding take
take-all zero [] e = refl
take-all zero (b ∷ t) e = absurd (omega (arith, e))
take-all (suc n) [] e = refl
take-all (suc n) (b ∷ t) e = ap (λ (l : Text). b ∷ l) (take-all n t (omega (arith, e)))

total_length-Buffers : {l : List Text} {t : Text} → Buffers l t → total_length l ≡ length t
unfolding total_length
total_length-Buffers (last_buffer {out} h) = omega arith
total_length-Buffers (full_buffer {out} {l} {t} h lt b) =
    omega (arith, total_length-Buffers b, length-append {0} out t)

not_zero : (n : ℕ) → 0 < n → (n == 0) ≡ false
not_zero n h = ground arith

min_below : (a b : ℕ) → a ≤ b → min a b ≡ a
min_below a b h = ground arith

min_above : (a b : ℕ) → b ≤ a → min a b ≡ b
min_above a b h = ground arith

minus_self : (n : ℕ) → n - n ≡ 0
minus_self n = omega arith

minus_part : (total n m : ℕ) → total ≡ n + m → total - n ≡ m
minus_part total n m e = omega (arith, e)

collect_last :
    (total : ℕ) (out : Text)
    → total ≡ length out
    → 0 < total
    → total ≤ buffer_len
    → collect total (out ∷ []) ≡ some (out, 0)
unfolding collect
collect_last total out e lt le = rw (
  not_zero total lt,
  min_below total buffer_len le,
  take-all total out e,
  append-nil out,
  minus_self total,
)

collect_full :
    (total : ℕ) (out : Text) (l : List Text) (t : Text)
    → length out ≡ buffer_len
    → total ≡ buffer_len + length t
    → collect (length t) l ≡ some (t, 0)
    → collect total (out ∷ l) ≡ some (out ++ t, 0)
unfolding collect
collect_full total out l t full e ih =
    rw
      (
        not_zero total (omega (arith, e)),
        min_above total buffer_len (omega (arith, e)),
        minus_part total buffer_len (length t) e,
      )
      (rw ih
        (rw (min_above total buffer_len (omega (arith, e)), take-all buffer_len out (sym full))))

collect-Buffers :
    {l : List Text} {t : Text} → Buffers l t → 0 < length t → collect (length t) l ≡ some (t, 0)
collect-Buffers (last_buffer {out} h) lt = collect_last (length out) out refl lt h
collect-Buffers (full_buffer {out} {l} {t} h pt b) lt =
    collect_full (length (out ++ t)) out l t h (omega (arith, h, length-append {0} out t))
      (collect-Buffers b pt)

take-drop : (n : ℕ) (t : Text) → take n t ++ drop n t ≡ t
unfolding take drop
take-drop zero t = refl
take-drop (suc n) [] = refl
take-drop (suc n) (b ∷ t) = ap (λ (l : Text). b ∷ l) (take-drop n t)

length-take : (n : ℕ) (t : Text) → n ≤ length t → length (take n t) ≡ n
unfolding take
length-take zero t h = refl
length-take (suc n) [] h = absurd (omega (arith, h))
length-take (suc n) (b ∷ t) h = omega (arith, length-take n t (omega (arith, h)))

module _ (z : Zlib) where
  open z use {Stream, inflate, Remains, inflate_more, inflate_last}

  -- The calls on a stream end, and what they wrote is the text.
  Ends : ℕ → Stream → Text → Type 0
  Ends fuel s t = (l : List Text) × (calls z fuel s ≡ ended l) × Buffers l t

  Ends-last :
      (fuel : ℕ) (s : Stream) (t : Text) → Remains s t → length t ≤ buffer_len → Ends (suc fuel) s t
  unfolding Ends calls
  Ends-last fuel s t r h =
      let (s', e) = inflate_last s t r h in (t ∷ [], ground (arith, e), last_buffer h)

  Ends-more :
      (fuel : ℕ) (s s' : Stream) (out t : Text)
      → inflate s ≡ (out, z_ok, s')
      → length out ≡ buffer_len
      → 0 < length t
      → Ends fuel s' t
      → Ends (suc fuel) s (out ++ t)
  unfolding Ends calls
  Ends-more fuel s s' out t e full lt (l, done, b) =
      (out ∷ l, ground (arith, e, done), full_buffer full lt b)

  ends :
      (fuel : ℕ) (s : Stream) (t : Text)
      → Remains s t
      → length t ≤ buffer_len * suc fuel
      → Ends (suc fuel) s t
  ends zero s t r h = Ends-last 0 s t r (omega (arith, h))
  ends (suc fuel) s t r h = elim (Bool-cases (ltb buffer_len (length t))) [
    | inr short ↦ Ends-last (suc fuel) s t r (ground arith)
    | inl long ↦
        let lt : buffer_len < length t = ground arith in
        let out : Text = take buffer_len t in
        let rest : Text = drop buffer_len t in
        let whole : out ++ rest ≡ t = take-drop buffer_len t in
        let full : length out ≡ buffer_len = length-take buffer_len t (omega (arith, lt)) in
        let size : length t ≡ length out + length rest =
          sym (ap length whole) ∙ length-append out rest in
        let left : 0 < length rest = omega (arith, lt, size, full) in
        let (s', e, r') = inflate_more s out rest (subst (Remains s) (sym whole) r) full left in
        subst (Ends (suc (suc fuel)) s) whole (
          Ends-more (suc fuel) s s' out rest e full left
            (ends fuel s' rest r' (omega (arith, size, full, h))))
  ]

to_int_small : (n : ℕ) → n < 2 ^ 31 → to_int n ≡ pos n
unfolding to_int
to_int_small n h = ground arith

assemble-Buffers :
    (l : List Text) (t : Text)
    → Buffers l t
    → 0 < length t
    → length t < 2 ^ 31
    → assemble (ended l) ≡ inflated t
unfolding assemble
assemble-Buffers l t b lt small =
    rw (total_length-Buffers b, to_int_small (length t) small)
      (rw (collect-Buffers b lt) (unfold copied in refl))

-- What compress gave for a text that is not empty and is below 2 GB is inflated to the same text, with
-- one call for each 65536 bytes and one more at most.
pub decompress_internal-compress :
    (z : Zlib) (fuel : ℕ) (t : Text)
    → 0 < length t
    → length t < 2 ^ 31
    → length t ≤ buffer_len * suc fuel
    → decompress_internal z (suc fuel) (Zlib.compress z t) ≡ inflated t
unfolding decompress_internal Ends
decompress_internal-compress z fuel t lt small enough =
    let (s, opened, r) = Zlib.init_remains z t in
    let (l, done, b) = ends z fuel s t r enough in
    rw (opened, decompress_internal) (rw (done) (assemble-Buffers l t b lt small))
