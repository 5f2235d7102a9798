-- ===== src/Codegen/Matcher/Register.antt =====
-- What TypeMatcher finds after a registration and after an alias.
use memcache_router.Prelude.{
  ℕ, suc, ◌+◌, ◌*◌, List, [], ◌∷◌, Option, none, some, length, ◌≡◌, refl, sym, ap, ◌∙◌, arith,
}
use memcache_router.Prelude.Text.{Text, text_eq_refl}
use memcache_router.Codegen.Result.{ok, raised, ok-injective, value_error}
use memcache_router.Codegen.Matcher.{
  Dict, look_up, TypeMatcher, handler, contains, first_untried, aliases_to_try, raw_lookup,
  alias_names, lookup_with_aliases, register_type, register_as, lookup, add_type_alias,
}

look_up_first {ℓ} :
    {A : Type ℓ} (name : Text) (a : A) (d : Dict A) → look_up name ((name, a) ∷ d) ≡ some a
unfolding look_up
look_up_first name a d = rw (text_eq_refl name) refl

two_more : (n : ℕ) → n + 2 ≡ suc (suc n)
two_more n = omega arith

module _ {H : Type 0} where
  raw_lookup-registered :
      (m : TypeMatcher H) (fuel : ℕ) (name : Text) (tried : List Text) (h : H)
      → look_up name m.types ≡ some h
      → raw_lookup m (suc fuel) name tried ≡ handler h
  unfolding raw_lookup
  raw_lookup-registered m fuel name tried h e = rw (e, raw_lookup) refl

  -- A name that is not registered, and its alias that is.
  raw_lookup-alias :
      (m : TypeMatcher H) (fuel : ℕ) (name a : Text) (h : H)
      → look_up name m.types ≡ none
      → look_up name m.type_aliases ≡ some a
      → look_up a m.types ≡ some h
      → raw_lookup m (suc (suc fuel)) name [] ≡ handler h
  unfolding raw_lookup aliases_to_try first_untried contains
  raw_lookup-alias m fuel name a h e f g =
      rw (e, f, raw_lookup) (raw_lookup-registered m fuel a (name ∷ []) h g)

  -- A registered name is found at once.
  lookup_with_aliases-registered :
      (m : TypeMatcher H) (name : Text) (h : H)
      → look_up name m.types ≡ some h
      → lookup_with_aliases m name ≡ handler h
  unfolding lookup_with_aliases
  lookup_with_aliases-registered m name h e =
      ap (λ n. raw_lookup m n name []) (two_more (length (alias_names m) * 2))
      ∙ raw_lookup-registered m _ name [] h e

  lookup_with_aliases-alias :
      (m : TypeMatcher H) (name a : Text) (h : H)
      → look_up name m.types ≡ none
      → look_up name m.type_aliases ≡ some a
      → look_up a m.types ≡ some h
      → lookup_with_aliases m name ≡ handler h
  unfolding lookup_with_aliases
  lookup_with_aliases-alias m name a h e f g =
      ap (λ n. raw_lookup m n name []) (two_more (length (alias_names m) * 2))
      ∙ raw_lookup-alias m _ name a h e f g

module _ {H Traits : Type 0} (traits_of : Text → Traits) (no_modifiers ctype : Traits → Text)
    (normalize_type_string : Text → Text) where
  lookup-found :
      (m : TypeMatcher H) (query : Text) (h : H)
      → lookup_with_aliases m (no_modifiers (traits_of query)) ≡ handler h
      → lookup traits_of no_modifiers ctype normalize_type_string m query
        ≡ ok (h, none, traits_of query)
  unfolding lookup
  lookup-found m query h e = rw (e, lookup) refl

  register_as-ok :
      (normal : Text) (h : H) (m m' : TypeMatcher H) (o : Option H)
      → register_as traits_of no_modifiers ctype normalize_type_string normal h m o ≡ ok m'
      → look_up normal m'.types ≡ some h
  unfolding register_as
  register_as-ok normal h m m' none e =
      ap (λ k. look_up normal k.types) (sym (ok-injective e)) ∙ look_up_first normal h m.types
  register_as-ok normal h m m' (some g) e = cc

  -- A registration that does not raise: a name with that C type is then found, with the class, without
  -- a transformation, whatever aliases there are; and the same name cannot be registered again.
  pub lookup-register_type :
      (m m' : TypeMatcher H) (name query : Text) (h g : H)
      → register_type traits_of no_modifiers ctype normalize_type_string name h m ≡ ok m'
      → no_modifiers (traits_of query) ≡ normalize_type_string name
      → (lookup traits_of no_modifiers ctype normalize_type_string m' query
          ≡ ok (h, none, traits_of query))
        × (register_type traits_of no_modifiers ctype normalize_type_string name g m'
            ≡ raised value_error)
  unfolding register_type register_as
  lookup-register_type m m' name query h g e same =
      let there = register_as-ok (normalize_type_string name) h m m' _ e in
      (
        lookup-found m' query h (
            ap (lookup_with_aliases m') same
            ∙ lookup_with_aliases-registered m' (normalize_type_string name) h there),
        rw there refl,
      )

  -- After an alias for a C type that is not registered itself, a name with that type is found with the
  -- class of the type that it is an alias of.
  pub lookup-add_type_alias :
      (m : TypeMatcher H) (from_ to query : Text) (h : H)
      → look_up (ctype (traits_of to)) m.types ≡ none
      → look_up (ctype (traits_of from_)) m.types ≡ some h
      → no_modifiers (traits_of query) ≡ ctype (traits_of to)
      → lookup traits_of no_modifiers ctype normalize_type_string
          (add_type_alias traits_of no_modifiers ctype normalize_type_string from_ to m)
          query
        ≡ ok (h, none, traits_of query)
  unfolding add_type_alias
  lookup-add_type_alias m from_ to query h unknown known same =
      let to_normal = ctype (traits_of to) in
      let from_normal = ctype (traits_of from_) in
      let m' = add_type_alias traits_of no_modifiers ctype normalize_type_string from_ to m in
      lookup-found m' query h (
        ap (lookup_with_aliases m') same
        ∙ lookup_with_aliases-alias m' to_normal from_normal h unknown
            (look_up_first to_normal from_normal m.type_aliases) known)
