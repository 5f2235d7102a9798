-- ===== src/Codegen/Params.antt =====
-- pybindgen/typehandlers/base.py: ParseTupleParameters and BuildValueParameters.
pub mod Template
pub mod Keywords
use memcache_router.Prelude.{
  ℕ, Bool, true, false, not, ◌&&◌, ◌||◌, List, [], ◌∷◌, ◌++◌, Option, none, some, length, ◌==◌,
  if◌then◌else◌,
}
use memcache_router.Prelude.Text.{Text, text, text_eq}
use memcache_router.Codegen.Result.{Result, ok, raised, value_error, ◌>>=◌}

-- An entry of `_parse_tuple_items`.
pub record ParseItem : Type 0 where
  pub template : Text
  pub values : List Text
  pub name : Option Text
  pub is_optional : Bool

-- `add_parameter`: the number of parameters, and the items.
unfoldable pub add_parameter : List ParseItem → ParseItem → Bool → ℕ × List ParseItem
add_parameter items item prepend =
    let items' = if prepend then item ∷ items else items ++ item ∷ [] in (length items', items')

abbrev pub quote : Text
quote = b'"' ∷ []

abbrev pub bar : Text
bar = b'|' ∷ []

-- The loop over the templates; `''.join` is applied as it goes.
unfoldable pub template_from : Bool → List ParseItem → Result Text
template_from last_was_optional [] = ok []
template_from last_was_optional (item ∷ items) =
    let rest = template_from (last_was_optional || item.is_optional) items in
    if last_was_optional && not item.is_optional then raised value_error else do
      text_rest ← rest
      ok (
          (if not last_was_optional && item.is_optional then bar else [])
          ++ (item.template ++ text_rest))

unfoldable pub all_values : List ParseItem → List Text
all_values [] = []
all_values (item ∷ items) = item.values ++ all_values items

unfoldable pub get_parameters : List ParseItem → Result (List Text)
unfolding template_from all_values
get_parameters items = do
  template ← template_from false items
  ok ((quote ++ (template ++ quote)) ∷ all_values items)

texts_eq : List Text → List Text → Bool
texts_eq [] [] = true
texts_eq [] (t ∷ ts) = false
texts_eq (s ∷ ss) [] = false
texts_eq (s ∷ ss) (t ∷ ts) = text_eq s t && texts_eq ss ts

-- `params == ['""']`.
unfoldable pub no_parameters : List Text → Bool
unfolding texts_eq
no_parameters params = texts_eq params ((quote ++ quote) ∷ [])

unfoldable pub is_empty : List ParseItem → Result Bool
is_empty items = do params ← get_parameters items; ok (no_parameters params)

-- The loop of `get_keywords`.
unfoldable pub keywords_from : List Text → List ParseItem → Result (List Text)
keywords_from keywords [] = ok keywords
keywords_from keywords (item ∷ items) = elim item.name [
  | none ↦ elim keywords [ [] ↦ keywords_from [] items | _ ∷ _ ↦ raised value_error ]
  | some name ↦ keywords_from (keywords ++ name ∷ []) items
]

checked_keywords : List Text → ℕ → Result (Option (List Text))
checked_keywords [] one_if = ok none
checked_keywords (k ∷ ks) one_if =
    if length (k ∷ ks) == one_if then ok (some (k ∷ ks)) else raised value_error

unfoldable pub get_keywords : List ParseItem → Result (Option (List Text))
unfolding keywords_from checked_keywords
get_keywords items = do keywords ← keywords_from [] items; checked_keywords keywords (length items)

-- An entry of `_build_value_items`; the handle of a cleanup action is its position.
pub record BuildItem : Type 0 where
  pub template : Text
  pub values : List Text
  pub cancels_cleanup : Option ℕ

unfoldable pub add_build_parameter : List BuildItem → BuildItem → Bool → List BuildItem
add_build_parameter items item prepend = if prepend then item ∷ items else items ++ item ∷ []

unfoldable pub build_template : List BuildItem → Text
build_template [] = []
build_template (item ∷ items) = item.template ++ build_template items

unfoldable pub build_values : List BuildItem → List Text
build_values [] = []
build_values (item ∷ items) = item.values ++ build_values items

unfoldable pub get_build_parameters : List BuildItem → Bool → List Text
unfolding build_template build_values
get_build_parameters items force_tuple_creation =
    (quote
      ++ ((if force_tuple_creation then b'(' ∷ [] else [])
          ++ (build_template items ++ ((if force_tuple_creation then b')' ∷ [] else []) ++ quote))))
    ∷ build_values items

unfoldable pub get_cleanups : List BuildItem → List (Option ℕ)
get_cleanups [] = []
get_cleanups (item ∷ items) = item.cancels_cleanup ∷ get_cleanups items
