-- ===== src/Codegen/Params/Keywords.antt =====
-- When the keywords of the parameters are given.
use memcache_router.Prelude.{
  ℕ, Bool, true, false, not, ◌&&◌, List, [], ◌∷◌, ◌++◌, none, some, length, ◌≡◌, refl, arith,
  if◌then◌else◌, append_assoc, append-nil, Bool-cases, Option-cases, ==_refl, ◌<◌, inl, inr,
}
use memcache_router.Prelude.Text.{Text}
use memcache_router.Codegen.Result.{ok, raised, value_error, ◌>>=◌}
use memcache_router.Codegen.Params.{ParseItem, keywords_from, checked_keywords, get_keywords}

abbrev is_named : ParseItem → Bool
is_named item = elim item.name [ none ↦ false | some n ↦ true ]

unfoldable pub all_named : List ParseItem → Bool
all_named [] = true
all_named (item ∷ items) = is_named item && all_named items

unfoldable pub none_named : List ParseItem → Bool
none_named [] = true
none_named (item ∷ items) = not (is_named item) && none_named items

unfoldable pub names_of : List ParseItem → List Text
names_of [] = []
names_of (item ∷ items) = elim item.name [ none ↦ names_of items | some n ↦ n ∷ names_of items ]

keywords_behind :
    (k : Text) (ks : List Text) (items : List ParseItem)
    → keywords_from (k ∷ ks) items
      ≡ (if all_named items then ok (k ∷ (ks ++ names_of items)) else raised value_error)
unfolding keywords_from all_named names_of
keywords_behind k ks [] = rw append-nil
keywords_behind k ks (item ∷ items) = elim (Option-cases item.name) [
  | inl e ↦ rw e
  | inr (n, e) ↦ rw (e, keywords_behind k (ks ++ n ∷ []) items, append_assoc)
]

length-names :
    (items : List ParseItem) → all_named items ≡ true → length (names_of items) ≡ length items
unfolding all_named names_of
length-names [] h = refl
length-names (item ∷ items) h = ground (arith, length-names items)

keywords_none : (items : List ParseItem) → none_named items ≡ true → keywords_from [] items ≡ ok []
unfolding keywords_from none_named
keywords_none [] h = refl
keywords_none (item ∷ items) h = ground (arith, keywords_none items)

-- A name behind a parameter without one is refused.
keywords_late :
    (items : List ParseItem) (one_if : ℕ)
    → length items < one_if
    → none_named items ≡ false
    → (keywords_from [] items >>= λ ks. checked_keywords ks one_if) ≡ raised value_error
unfolding keywords_from none_named all_named names_of checked_keywords
keywords_late [] one_if l h = cc
keywords_late (item ∷ items) one_if l h = elim (Option-cases item.name) [
  | inl e ↦ rw e (keywords_late items one_if (omega arith) (rw e at h))
  | inr (n, e) ↦ elim (Bool-cases (all_named items)) [
    | inl all ↦ rw (e, keywords_behind, all) (ground (arith, length-names items))
    | inr mixed ↦ rw (e, keywords_behind, mixed)
  ]
]

-- Parameters of which none has a name have no keywords; if all have a name, the keywords are the
-- names in order; a mixture is refused.
pub get_keywords_lem :
    (items : List ParseItem)
    → get_keywords items ≡ (
        if none_named items
        then ok none
        else if all_named items
        then ok (some (names_of items))
        else raised value_error)
unfolding get_keywords none_named all_named names_of
get_keywords_lem [] = refl
get_keywords_lem (item ∷ items) = elim (Option-cases item.name) [
  | inl e ↦ elim (Bool-cases (none_named items)) [
    | inl all ↦ rw (e, keywords_none items all, all)
    | inr some_named ↦
        rw (e, some_named) (keywords_late items (length (item ∷ items)) (omega arith) some_named)
  ]
  | inr (n, e) ↦ elim (Bool-cases (all_named items)) [
    | inl all ↦ rw (e, keywords_behind, all, length-names items all, ==_refl)
    | inr mixed ↦ rw (e, keywords_behind, mixed)
  ]
]
