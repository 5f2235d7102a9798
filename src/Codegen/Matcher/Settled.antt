-- ===== src/Codegen/Matcher/Settled.antt =====
-- The search of TypeMatcher along aliases ends: a name that is taken was not tried, so that the aliases
-- that are neither tried nor at hand get fewer.
use memcache_router.Prelude.{
  ℕ, zero, suc, ◌+◌, ◌*◌, ◌≤◌, ◌<◌, Bool, true, false, not, ◌||◌, ◌&&◌, List, [], ◌∷◌, ◌++◌, Option,
  none, some, if◌then◌else◌, length, ◌≡◌, ◌≢◌, refl, sym, subst, ◌∙◌, arith, ◌⊎◌, Bool-cases,
  Option-cases, inl, inr,
}
use memcache_router.Prelude.Text.{Text, text_eq, text_eq_refl, text_eq_of_ne, eq_of_text_eq}
use memcache_router.Codegen.Matcher.{
  Dict, look_up, TypeMatcher, unsettled, contains, values, from_option, first_untried,
  aliases_to_try, raw_lookup, alias_names, lookup_with_aliases,
}

-- How many names of a list satisfy a test.
abbrev number_with : (Text → Bool) → List Text → ℕ
number_with p [] = 0
number_with p (a ∷ as_) = if p a then suc (number_with p as_) else number_with p as_

more :
    {m n : ℕ} (b c : Bool)
    → (c ≡ true → b ≡ true)
    → n ≤ m
    → (if c then suc n else n) ≤ (if b then suc m else m)
more true true h le = omega (arith, le)
more true false h le = omega (arith, le)
more false true h le = let e = h refl in cc
more false false h le = omega (arith, le)

more_lt :
    {m n : ℕ} (b c : Bool)
    → (c ≡ true → b ≡ true)
    → n < m
    → (if c then suc n else n) < (if b then suc m else m)
more_lt true true h le = omega (arith, le)
more_lt true false h le = omega (arith, le)
more_lt false true h le = let e = h refl in cc
more_lt false false h le = omega (arith, le)

number_with-le :
    (p q : Text → Bool) (names : List Text)
    → ((a : Text) → q a ≡ true → p a ≡ true)
    → number_with q names ≤ number_with p names
number_with-le p q [] h = omega arith
number_with-le p q (a ∷ names) h = more (p a) (q a) (h a) (number_with-le p q names h)

-- One name satisfies the weaker test alone.
number_with-lt :
    (p q : Text → Bool) (names : List Text) (a : Text)
    → ((b : Text) → q b ≡ true → p b ≡ true)
    → contains a names ≡ true
    → p a ≡ true
    → q a ≡ false
    → number_with q names < number_with p names
unfolding contains
number_with-lt p q [] a h there pa qa = cc
number_with-lt p q (b ∷ names) a h there pa qa = elim (Bool-cases (text_eq b a)) [
  | inl e ↦
      (let same = eq_of_text_eq b a e in
        let le = number_with-le p q names h in rw (same, pa, qa) (omega (arith, le)))
  | inr e ↦ more_lt (p b) (q b) (h b) (number_with-lt p q names a h (rw e at there) pa qa)
]

length_more : {m n : ℕ} (b : Bool) → n ≤ m → (if b then suc n else n) ≤ suc m
length_more true le = omega (arith, le)
length_more false le = omega (arith, le)

number_with-length : (p : Text → Bool) (names : List Text) → number_with p names ≤ length names
number_with-length p [] = omega arith
number_with-length p (a ∷ names) = length_more (p a) (number_with-length p names)

or_extends : (b c d e : Bool) → c ≡ (d || e) → (b || c) ≡ ((b || d) || e)
or_extends true c d e h = refl
or_extends false c d e h = h

or_right : (b c : Bool) → c ≡ true → (b || c) ≡ true
or_right true c e = refl
or_right false c e = e

or_left : (b c : Bool) → b ≡ true → (b || c) ≡ true
or_left true c e = refl
or_left false c e = cc

or_no {ℓ} : {A : Type ℓ} (b : Bool) → (b || false) ≡ true → b ≡ false → A
or_no true e f = cc
or_no false e f = cc

or_none : (b c : Bool) → (b || c) ≡ false → (b ≡ false) × (c ≡ false)
or_none true c e = cc
or_none false c e = (refl, e)

neither : (b c : Bool) → (not b && not c) ≡ true → (b ≡ false) × (c ≡ false)
neither true c e = cc
neither false true e = cc
neither false false e = (refl, refl)

contains-append :
    (a : Text) (xs ys : List Text) → contains a (xs ++ ys) ≡ (contains a xs || contains a ys)
unfolding contains
contains-append a [] ys = refl
contains-append a (x ∷ xs) ys = or_extends (text_eq x a) _ _ _ (contains-append a xs ys)

some-injective : {a b : Text} → some a ≡ some b → a ≡ b
some-injective e = cc

contains-values :
    (d : Dict Text) (name a : Text) → look_up name d ≡ some a → contains a (values d) ≡ true
unfolding look_up values contains
contains-values [] name a e = cc
contains-values ((n, b) ∷ d) name a e = elim (Bool-cases (text_eq n name)) [
  | inl here ↦
      (let same = some-injective (rw here at e) in
        or_left (text_eq b a) (contains a (values d)) (rw same (text_eq_refl a)))
  | inr other ↦ or_right (text_eq b a) _ (contains-values d name a (rw other at e))
]

pub first_untried-fresh :
    (tried names : List Text) (a : Text)
    → first_untried tried names ≡ some a
    → (contains a tried ≡ false) × (contains a names ≡ true)
unfolding first_untried contains
first_untried-fresh tried [] a e = cc
first_untried-fresh tried (b ∷ names) a e = elim (Bool-cases (contains b tried)) [
  | inl used ↦
      (let (fresh, there) = first_untried-fresh tried names a (rw used at e) in
        (fresh, or_right (text_eq b a) _ there))
  | inr fresh ↦
      (let same = some-injective (rw fresh at e) in
        (rw (← same) fresh, or_left (text_eq b a) (contains a names) (rw same (text_eq_refl a))))
]

contains-from_option :
    (o : Option Text) (names : List Text) (a : Text)
    → ((b : Text) → o ≡ some b → contains b names ≡ true)
    → contains a (from_option o) ≡ true
    → contains a names ≡ true
unfolding contains
contains-from_option none names a h e = cc
contains-from_option (some b) names a h e = elim (Bool-cases (text_eq b a)) [
  | inl same ↦ subst (λ x. contains x names ≡ true) (eq_of_text_eq b a same) (h b refl)
  | inr other ↦ or_no (text_eq b a) e other
]

or_cases : (b c : Bool) → (b || c) ≡ true → (b ≡ true) ⊎ (c ≡ true)
or_cases true c e = inl refl
or_cases false c e = inr e

contradict : (b : Bool) → b ≡ false → b ≡ true → ⊥
contradict b e f = cc

twice_less :
    {n k : ℕ} (b c : Bool) → n < k → n * 2 + (if b then 0 else 1) < k * 2 + (if c then 0 else 1)
twice_less true true lt = omega (arith, lt)
twice_less true false lt = omega (arith, lt)
twice_less false true lt = omega (arith, lt)
twice_less false false lt = omega (arith, lt)

module _ {H : Type 0} (m : TypeMatcher H) where
  contains-aliases_to_try :
      (name a : Text)
      → contains a (aliases_to_try m name) ≡ true
      → contains a (alias_names m) ≡ true
  unfolding aliases_to_try
  contains-aliases_to_try name a e =
      let first = look_up name m.type_aliases in
      let second = look_up name m.type_aliases_rev in
      let all = contains-append a (values m.type_aliases) (values m.type_aliases_rev) in
      elim (or_cases _ _ (sym (contains-append a (from_option first) (from_option second)) ∙ e)) [
        | inl f ↦
            all
            ∙ or_left _ _ (
                contains-from_option first (values m.type_aliases) a
                  (λ b. contains-values m.type_aliases name b) f)
        | inr s ↦
            all
            ∙ or_right _ _ (
                contains-from_option second (values m.type_aliases_rev) a
                  (λ b. contains-values m.type_aliases_rev name b) s)
      ]

  -- The aliases that are neither tried nor the name at hand, and whether the name was tried.
  abbrev is_open : Text → List Text → Text → Bool
  is_open name tried a = not (text_eq a name) && not (contains a tried)

  abbrev rank : Text → List Text → ℕ
  rank name tried =
      number_with (is_open name tried) (alias_names m) * 2 + (if contains name tried then 0 else 1)

  snoc-fresh :
      (name u : Text) (tried : List Text)
      → contains u (tried ++ name ∷ []) ≡ false
      → (contains u tried ≡ false) × (text_eq u name ≡ false)
  unfolding contains
  snoc-fresh name u tried e =
      let (old, new) =
        or_none (contains u tried) _ (sym (contains-append u tried (name ∷ [])) ∙ e) in
      (
        old,
        text_eq_of_ne u name
            (λ same. contradict (text_eq name u) (or_none _ _ new).0 (rw same (text_eq_refl name))),
      )

  snoc_last : (name : Text) (tried : List Text) → contains name (tried ++ name ∷ []) ≡ true
  unfolding contains
  snoc_last name tried =
      contains-append name tried (name ∷ [])
      ∙ or_right _ _ (or_left (text_eq name name) false (text_eq_refl name))

  open_before :
      (name a : Text) (tried : List Text) (u : Text)
      → is_open a (tried ++ name ∷ []) u ≡ true
      → is_open name tried u ≡ true
  open_before name a tried u e =
      let (old, other) = snoc-fresh name u tried (neither (text_eq u a) _ e).1 in
      rw (other, old) refl

  same-falls :
      (name : Text) (tried : List Text)
      → contains name tried ≡ false
      → rank name (tried ++ name ∷ []) < rank name tried
  same-falls name tried fresh =
      let le =
        number_with-le (is_open name tried) (is_open name (tried ++ name ∷ [])) (alias_names m)
          (open_before name name tried) in
      rw (fresh, snoc_last name tried) (omega (arith, le))

  other-falls :
      (name a : Text) (tried : List Text)
      → contains a tried ≡ false
      → contains a (alias_names m) ≡ true
      → text_eq a name ≡ false
      → rank a (tried ++ name ∷ []) < rank name tried
  other-falls name a tried fresh known other =
      let lt =
        number_with-lt (is_open name tried) (is_open a (tried ++ name ∷ [])) (alias_names m) a
          (open_before name a tried) known (rw (other, fresh) refl) (rw (text_eq_refl a) refl) in
      twice_less (contains a (tried ++ name ∷ [])) (contains name tried) lt

  rank-falls :
      (name a : Text) (tried : List Text)
      → contains a tried ≡ false
      → contains a (alias_names m) ≡ true
      → rank a (tried ++ name ∷ []) < rank name tried
  rank-falls name a tried fresh known = elim (Bool-cases (text_eq a name)) [
    | inl e ↦
        (let same = eq_of_text_eq a name e in
          subst (λ x. rank x (tried ++ name ∷ []) < rank name tried) (sym same)
            (same-falls name tried (subst (λ x. contains x tried ≡ false) same fresh)))
    | inr other ↦ other-falls name a tried fresh known other
  ]

  -- Enough fuel for the rank settles the search.
  raw_lookup-settled :
      (fuel : ℕ) (name : Text) (tried : List Text)
      → rank name tried < fuel
      → raw_lookup m fuel name tried ≢ unsettled
  unfolding raw_lookup
  raw_lookup-settled zero name tried lt = omega (arith, lt)
  raw_lookup-settled (suc fuel) name tried lt = elim (Option-cases (look_up name m.types)) [
    | inr (h, e) ↦ rw (e, raw_lookup) (λ x. cc)
    | inl e ↦
        rw (e, raw_lookup)
          (elim (Option-cases (first_untried tried (aliases_to_try m name))) [
            | inl f ↦ rw f (λ x. cc)
            | inr (a, f) ↦
                (let (fresh, there) = first_untried-fresh tried (aliases_to_try m name) a f in
                  let falls =
                    rank-falls name a tried fresh (contains-aliases_to_try name a there) in
                  rw f (raw_lookup-settled fuel a (tried ++ name ∷ []) (omega (arith, lt, falls))))
          ])
  ]

  -- The search for a name along its aliases always ends.
  pub lookup_with_aliases-settled : (name : Text) → lookup_with_aliases m name ≢ unsettled
  unfolding lookup_with_aliases contains
  lookup_with_aliases-settled name =
      let le = number_with-length (is_open name []) (alias_names m) in
      raw_lookup-settled (length (alias_names m) * 2 + 2) name [] (omega (arith, le))
