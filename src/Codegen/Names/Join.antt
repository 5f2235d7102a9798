-- ===== src/Codegen/Names/Join.antt =====
-- What `join_ctype_and_name` gives for each form of C type.
use memcache_router.Prelude.{
  ℕ, zero, suc, false, [], ◌∷◌, ◌++◌, some, ◌≡◌, ◌≢◌, refl, arith, replicate, append_assoc,
}
use memcache_router.Prelude.Text.{Text}
use memcache_router.Codegen.Result.{ok, raised, index_error, value_error}
use memcache_router.Codegen.Names.{
  star, blank, last_char, split_stars, join_ctype_and_name, is_empty,
}

-- `k + 1` stars.
abbrev pub stars : ℕ → Text
stars k = replicate (suc k) star

last_char-snoc : (t : Text) (c : ℕ) → last_char (t ++ c ∷ []) ≡ some c
unfolding last_char
last_char-snoc [] c = refl
last_char-snoc (d ∷ []) c = refl
last_char-snoc (d ∷ e ∷ t) c = last_char-snoc (e ∷ t) c

last_char-stars : (t : Text) (k : ℕ) → last_char (t ++ stars k) ≡ some star
unfolding last_char
last_char-stars [] zero = refl
last_char-stars [] (suc k) = last_char-stars [] k
last_char-stars (d ∷ []) k = last_char-stars [] k
last_char-stars (d ∷ e ∷ t) k = last_char-stars (e ∷ t) k

last_char_of_stars : (t : Text) (c k : ℕ) → last_char (t ++ c ∷ stars k) ≡ some star
last_char_of_stars t c k =
    rw (← append_assoc t (c ∷ []) (stars k)) (last_char-stars (t ++ c ∷ []) k)

split_stars-stars : (k : ℕ) → split_stars (replicate k star) ≡ ([], replicate k star)
unfolding split_stars
split_stars-stars zero = refl
split_stars-stars (suc k) = rw (split_stars-stars k)

is_empty-snoc : (t : Text) (c : ℕ) → is_empty (t ++ c ∷ []) ≡ false
unfolding is_empty
is_empty-snoc [] c = refl
is_empty-snoc (d ∷ t) c = refl

-- The trailing stars of `t c ** … *`, where `c` is no star.
split_stars-append :
    (t : Text) (c k : ℕ)
    → c ≢ star
    → split_stars (t ++ c ∷ replicate k star) ≡ (t ++ c ∷ [], replicate k star)
unfolding split_stars
split_stars-append [] c k h = rw (split_stars-stars k) (ground arith)
split_stars-append (d ∷ t) c k h = rw (split_stars-append t c k h, is_empty-snoc)

module _ (t name : Text) where
  join_stars :
      (c k : ℕ)
      → c ≢ star
      → c ≢ blank
      → join_ctype_and_name (t ++ c ∷ stars k) name ≡ ok (t ++ c ∷ blank ∷ (stars k ++ name))
  unfolding join_ctype_and_name
  join_stars c k h b =
      rw (last_char_of_stars t c k, split_stars-append t c (suc k) h, last_char-snoc t c)
        (ground (arith, append_assoc t (c ∷ []) (blank ∷ (stars k ++ name))))

  join_ctype_and_name-blank :
      (k : ℕ) {u v : Text}
      → t ++ blank ∷ stars k ≡ u
      → t ++ blank ∷ (stars k ++ name) ≡ v
      → join_ctype_and_name u name ≡ ok v
  unfolding join_ctype_and_name
  join_ctype_and_name-blank k p q = rw (
    ← p,
    ← q,
    last_char_of_stars t blank k,
    split_stars-append t blank (suc k) (omega arith),
    last_char-snoc t blank,
    append_assoc,
  )

  join_plain :
      (c : ℕ) → c ≢ star → join_ctype_and_name (t ++ c ∷ []) name ≡ ok (t ++ c ∷ blank ∷ name)
  unfolding join_ctype_and_name
  join_plain c h = rw (last_char-snoc t c) (ground (arith, append_assoc t (c ∷ []) (blank ∷ name)))

join_only_stars : (name : Text) (k : ℕ) → join_ctype_and_name (stars k) name ≡ raised value_error
unfolding join_ctype_and_name
join_only_stars name k = rw (last_char-stars [] k, split_stars-stars (suc k))

-- A type that ends in stars is joined with one blank before the stars and none behind them, with or
-- without a blank before them in the type; any other type is joined by a blank. Only the empty type
-- and a type of stars alone raise.
pub join_ctype_and_name_lem :
    (t name : Text) (c k : ℕ)
    → c ≢ star
    → c ≢ blank
    → (join_ctype_and_name (t ++ c ∷ stars k) name ≡ ok (t ++ c ∷ blank ∷ (stars k ++ name)))
      × (join_ctype_and_name (t ++ c ∷ blank ∷ stars k) name
          ≡ ok (t ++ c ∷ blank ∷ (stars k ++ name)))
      × (join_ctype_and_name (t ++ c ∷ []) name ≡ ok (t ++ c ∷ blank ∷ name))
      × (join_ctype_and_name (stars k) name ≡ raised value_error)
      × (join_ctype_and_name [] name ≡ raised index_error)
join_ctype_and_name_lem t name c k h b = (
  join_stars t name c k h b,
  join_ctype_and_name-blank (t ++ c ∷ []) name k (append_assoc t (c ∷ []) (blank ∷ stars k))
      (append_assoc t (c ∷ []) (blank ∷ (stars k ++ name))),
  join_plain t name c h,
  join_only_stars name k,
  unfold join_ctype_and_name in refl,
)
