-- ===== src/Codegen/Matcher.antt =====
-- pybindgen/typehandlers/base.py: class TypeMatcher, which finds the handler class of a C type.
--
-- The parser of C types, `ctypeparser`, gives the traits of a name and the names in them: it is a
-- parameter, and so is `str` of the traits' types. A dict is a list of its items, latest first. A
-- transformation is the function `get_untransformed_name`. Debugging output is left out.
pub mod Settled
pub mod Links
pub mod Register
use memcache_router.Prelude.{
  ℕ, zero, suc, ◌+◌, ◌*◌, Bool, true, false, ◌||◌, List, [], ◌∷◌, ◌++◌, Option, none, some,
  if◌then◌else◌, length,
}
use memcache_router.Prelude.Text.{Text, text_eq}
use memcache_router.Codegen.Result.{Result, ok, raised, value_error, type_lookup_error}

abbrev pub Dict {ℓ} : Type ℓ → Type ℓ
Dict A = List (Text × A)

unfoldable pub look_up {ℓ} : {A : Type ℓ} → Text → Dict A → Option A
look_up name [] = none
look_up name ((n, a) ∷ d) = if text_eq n name then some a else look_up name d

abbrev pub Transformation : Type 0
Transformation = Text → Option Text

pub record TypeMatcher (H : Type 0) : Type 0 where
  pub types : Dict H
  pub transformations : List Transformation
  pub type_aliases : Dict Text
  pub type_aliases_rev : Dict Text

unfoldable pub new_matcher : {H : Type 0} → TypeMatcher H
new_matcher = record { types = []; transformations = []; type_aliases = []; type_aliases_rev = [] }

-- The end of a search for a name. `unsettled` is a search that has not ended within its fuel.
pub data Search (H : Type 0) : Type 0 where
  handler : H → Search H
  missing unsettled : Search H

unfoldable pub contains : Text → List Text → Bool
contains a [] = false
contains a (b ∷ bs) = text_eq b a || contains a bs

unfoldable pub values : Dict Text → List Text
values [] = []
values ((n, a) ∷ d) = a ∷ values d

abbrev pub from_option : Option Text → List Text
from_option none = []
from_option (some a) = a ∷ []

unfoldable pub first_untried : List Text → List Text → Option Text
first_untried tried [] = none
first_untried tried (a ∷ aliases) = if contains a tried then first_untried tried aliases else some a

module _ {H : Type 0} where
  unfoldable pub register_transformation : Transformation → TypeMatcher H → TypeMatcher H
  register_transformation t m = record m { transformations = m.transformations ++ t ∷ [] }

  unfoldable pub aliases_to_try : TypeMatcher H → Text → List Text
  aliases_to_try m name =
      from_option (look_up name m.type_aliases) ++ from_option (look_up name m.type_aliases_rev)

  -- The loop over the aliases returns at the first that was not tried.
  unfoldable pub raw_lookup : TypeMatcher H → ℕ → Text → List Text → Search H
  raw_lookup m zero name tried = unsettled
  raw_lookup m (suc fuel) name tried = elim (look_up name m.types) [
    | some h ↦ handler h
    | none ↦ elim (first_untried tried (aliases_to_try m name)) [
      | none ↦ missing
      | some a ↦ raw_lookup m fuel a (tried ++ name ∷ [])
    ]
  ]

  abbrev pub alias_names : TypeMatcher H → List Text
  alias_names m = values m.type_aliases ++ values m.type_aliases_rev

  -- Two rounds for each alias, and two more.
  unfoldable pub lookup_with_aliases : TypeMatcher H → Text → Search H
  lookup_with_aliases m name = raw_lookup m (length (alias_names m) * 2 + 2) name []

module _ {H Traits : Type 0} (traits_of : Text → Traits) (no_modifiers ctype : Traits → Text)
    (normalize_type_string : Text → Text) where
  unfoldable pub register_as : Text → H → TypeMatcher H → Option H → Result (TypeMatcher H)
  register_as name h m none = ok (record m { types = (name, h) ∷ m.types })
  register_as name h m (some g) = raised value_error

  unfoldable pub register_type : Text → H → TypeMatcher H → Result (TypeMatcher H)
  unfolding register_as
  register_type name h m =
      let normal = normalize_type_string name in register_as normal h m (look_up normal m.types)

  unfoldable pub add_type_alias : Text → Text → TypeMatcher H → TypeMatcher H
  add_type_alias from_ to m =
      let from_normal = ctype (traits_of from_) in
      let to_normal = ctype (traits_of to) in
      record m {
        type_aliases = (to_normal, from_normal) ∷ m.type_aliases;
        type_aliases_rev = (from_normal, to_normal) ∷ m.type_aliases_rev;
      }

  -- The transformations in order, with the names tried before.
  unfoldable pub try_transformations :
      TypeMatcher H
      → List Transformation
      → Text
      → List Text
      → Result (H × Option Transformation × Traits)
  try_transformations m [] name tried = raised (type_lookup_error tried)
  try_transformations m (t ∷ ts) name tried = elim (t name) [
    | none ↦ try_transformations m ts name tried
    | some untransformed ↦
        (let traits = traits_of untransformed in
          let plain = no_modifiers traits in
          elim (lookup_with_aliases m plain) [
            | handler h ↦ ok (h, some t, traits)
            | missing ↦ try_transformations m ts name (tried ++ plain ∷ [])
            | unsettled ↦ try_transformations m ts name (tried ++ plain ∷ [])
          ])
  ]

  unfoldable pub lookup : TypeMatcher H → Text → Result (H × Option Transformation × Traits)
  lookup m name =
      let traits = traits_of name in
      let plain = no_modifiers traits in
      elim (lookup_with_aliases m plain) [
        | handler h ↦ ok (h, none, traits)
        | missing ↦ try_transformations m m.transformations name (plain ∷ [])
        | unsettled ↦ try_transformations m m.transformations name (plain ∷ [])
      ]
