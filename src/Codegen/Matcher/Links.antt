-- ===== src/Codegen/Matcher/Links.antt =====
-- What TypeMatcher finds: a class that is registered for the name or for a name that aliases lead to.
use memcache_router.Prelude.{
  ℕ, zero, suc, true, List, [], ◌∷◌, ◌++◌, Option, none, some, ◌≡◌, refl, ap, ◌∙◌, ◌⊎◌,
  Option-cases, inl, inr, All,
}
use memcache_router.Prelude.Text.{Text}
use memcache_router.Codegen.Result.{ok, raised, Exception, Post, returns, raises, Post-result}
use memcache_router.Codegen.Matcher.{
  look_up, Transformation, TypeMatcher, Search, handler, missing, unsettled, contains,
  first_untried, aliases_to_try, raw_lookup, lookup_with_aliases, try_transformations, lookup,
}
use memcache_router.Codegen.Matcher.Settled.{lookup_with_aliases-settled, first_untried-fresh}

-- A name to which aliases lead.
pub data IsLinked {H : Type 0} (m : TypeMatcher H) : Text → Text → Type 0 where
  at_once : {a : Text} → IsLinked m a a
  through :
      {a c : Text} (b : Text)
      → contains b (aliases_to_try m a) ≡ true
      → IsLinked m b c
      → IsLinked m a c

abbrev pub IsRegistered : {H : Type 0} → TypeMatcher H → Text → H → Type 0
IsRegistered m name h = (n : Text) × IsLinked m name n × (look_up n m.types ≡ some h)

Search-cases :
    {H : Type 0} (s : Search H) → ((h : H) × (s ≡ handler h)) ⊎ ((s ≡ missing) ⊎ (s ≡ unsettled))
Search-cases (handler h) = inl (h, refl)
Search-cases missing = inr (inl refl)
Search-cases unsettled = inr (inr refl)

module _ {H : Type 0} (m : TypeMatcher H) where
  handler-injective : {h g : H} → handler h ≡ handler g → h ≡ g
  handler-injective e = cc

  raw_lookup-IsRegistered :
      (fuel : ℕ) (name : Text) (tried : List Text) (h : H)
      → raw_lookup m fuel name tried ≡ handler h
      → IsRegistered m name h
  unfolding raw_lookup
  raw_lookup-IsRegistered zero name tried h e = cc
  raw_lookup-IsRegistered (suc fuel) name tried h e = elim (Option-cases (look_up name m.types)) [
    | inr (g, f) ↦ (name, at_once, f ∙ ap some (handler-injective (rw (f, raw_lookup) at e)))
    | inl f ↦
        (let e' = rw (f, raw_lookup) at e in
          elim (Option-cases (first_untried tried (aliases_to_try m name))) [
            | inl none_left ↦ (let e'' = rw none_left at e' in cc)
            | inr (a, taken) ↦
                (let (fresh, there) = first_untried-fresh tried (aliases_to_try m name) a taken in
                  let (n, linked, found) =
                    raw_lookup-IsRegistered fuel a (tried ++ name ∷ []) h (rw taken at e') in
                  (n, through a there linked, found))
          ])
  ]

  lookup_with_aliases-IsRegistered :
      (name : Text) (h : H) → lookup_with_aliases m name ≡ handler h → IsRegistered m name h
  unfolding lookup_with_aliases
  lookup_with_aliases-IsRegistered name h e = raw_lookup-IsRegistered _ name [] h e

module _ {H Traits : Type 0} (traits_of : Text → Traits) (no_modifiers ctype : Traits → Text)
    (normalize_type_string : Text → Text) (m : TypeMatcher H) where
  abbrev pub search : Text → Search H
  search name = lookup_with_aliases m (no_modifiers (traits_of name))

  -- What a lookup can give: the traits are those of the name, or of the name behind a transformation.
  abbrev pub IsOrigin : Text → Option Transformation → Traits → Type 0
  IsOrigin name none traits = traits ≡ traits_of name
  IsOrigin name (some t) traits = (u : Text) × (t name ≡ some u) × (traits ≡ traits_of u)

  abbrev pub IsFound : Text → H × Option Transformation × Traits → Type 0
  IsFound name (h, t, traits) = IsOrigin name t traits × IsRegistered m (no_modifiers traits) h

  -- A transformation does not apply to the name, or its name leads to no registered class.
  abbrev pub Fails : Text → Transformation → Type 0
  Fails name t = (t name ≡ none) ⊎ ((u : Text) × (t name ≡ some u) × (search u ≡ missing))

  try_transformations-Found :
      (ts : List Transformation) (name : Text) (tried : List Text)
      → Post
          (IsFound name)
          (try_transformations traits_of no_modifiers ctype normalize_type_string m ts name tried)
  unfolding try_transformations
  try_transformations-Found [] name tried = raises
  try_transformations-Found (t ∷ ts) name tried = elim (Option-cases (t name)) [
    | inl e ↦ rw e (try_transformations-Found ts name tried)
    | inr (u, e) ↦ rw e (elim (Search-cases (search u)) [
      | inl (h, f) ↦ rw f (returns ((u, e, refl), lookup_with_aliases-IsRegistered m _ h f))
      | inr (inl f) ↦ rw f (try_transformations-Found ts name _)
      | inr (inr f) ↦ rw f (try_transformations-Found ts name _)
    ])
  ]

  lookup-Found :
      (name : Text)
      → Post (IsFound name) (lookup traits_of no_modifiers ctype normalize_type_string m name)
  unfolding lookup
  lookup-Found name = elim (Search-cases (search name)) [
    | inl (h, f) ↦ rw (f, lookup) (returns (refl, lookup_with_aliases-IsRegistered m _ h f))
    | inr (inl f) ↦ rw (f, lookup) (try_transformations-Found m.transformations name _)
    | inr (inr f) ↦ rw (f, lookup) (try_transformations-Found m.transformations name _)
  ]

  -- A lookup that succeeds gives a class that is registered for the C type of the traits, or for a name
  -- to which aliases lead from it; the traits are those of the name, or those of the name that the
  -- transformation gives, which comes with them.
  pub lookup-IsFound :
      (name : Text) (h : H) (t : Option Transformation) (traits : Traits)
      → lookup traits_of no_modifiers ctype normalize_type_string m name ≡ ok (h, t, traits)
      → IsFound name (h, t, traits)
  lookup-IsFound name h t traits e = Post-result (lookup-Found name) e

  try_transformations-Fails :
      (ts : List Transformation) (name : Text) (tried : List Text) (x : Exception)
      → try_transformations traits_of no_modifiers ctype normalize_type_string m ts name tried
        ≡ raised x
      → All (Fails name) ts
  unfolding try_transformations
  try_transformations-Fails [] name tried x e = tt
  try_transformations-Fails (t ∷ ts) name tried x e = elim (Option-cases (t name)) [
    | inl f ↦ (inl f, try_transformations-Fails ts name tried x (rw f at e))
    | inr (u, f) ↦
        (let e' = rw f at e in
          elim (Search-cases (search u)) [
            | inl (h, g) ↦ (let e'' = rw g at e' in cc)
            | inr (inl g) ↦ (inr (u, f, g), try_transformations-Fails ts name _ x (rw g at e'))
            | inr (inr g) ↦ absurd (lookup_with_aliases-settled m _ g)
          ])
  ]

  -- A lookup fails only if no class is registered for the C type of the name or for a name to which
  -- aliases lead, as the search goes, and no transformation leads to one.
  pub lookup-Fails :
      (name : Text) (x : Exception)
      → lookup traits_of no_modifiers ctype normalize_type_string m name ≡ raised x
      → (search name ≡ missing) × All (Fails name) m.transformations
  unfolding lookup
  lookup-Fails name x e = elim (Search-cases (search name)) [
    | inl (h, g) ↦ (let e' = rw (g, lookup) at e in cc)
    | inr (inl g) ↦ (g, try_transformations-Fails m.transformations name _ x (rw (g, lookup) at e))
    | inr (inr g) ↦ absurd (lookup_with_aliases-settled m _ g)
  ]
