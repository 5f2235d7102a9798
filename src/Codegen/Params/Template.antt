-- ===== src/Codegen/Params/Template.antt =====
-- The template string of `PyArg_ParseTuple`, and when the parameters are refused.
use memcache_router.Prelude.{
  Bool, true, false, ◌&&◌, ◌||◌, List, [], ◌∷◌, ◌++◌, ◌≡◌, refl, arith, if◌then◌else◌, append_assoc,
}
use memcache_router.Prelude.Text.{Text}
use memcache_router.Codegen.Result.{ok, raised, value_error}
use memcache_router.Codegen.Params.{
  ParseItem, bar, quote, template_from, all_values, get_parameters,
}

-- No parameter that is not optional comes behind an optional one.
unfoldable pub all_optional : List ParseItem → Bool
all_optional [] = true
all_optional (item ∷ items) = item.is_optional && all_optional items

unfoldable pub is_ordered : List ParseItem → Bool
is_ordered [] = true
is_ordered (item ∷ items) = if item.is_optional then all_optional items else is_ordered items

-- The templates of the parameters with a given flag, in their order.
unfoldable pub templates_of : Bool → List ParseItem → Text
templates_of optional [] = []
templates_of optional (item ∷ items) =
    let rest = templates_of optional items in
    if optional
    then (if item.is_optional then item.template ++ rest else rest)
    else (if item.is_optional then rest else item.template ++ rest)

unfoldable pub any_optional : List ParseItem → Bool
any_optional [] = false
any_optional (item ∷ items) = item.is_optional || any_optional items

template_behind :
    (items : List ParseItem)
    → template_from true items
      ≡ (if all_optional items then ok (templates_of true items) else raised value_error)
unfolding template_from all_optional templates_of
template_behind [] = refl
template_behind (item ∷ items) = ground (arith, template_behind items)

required_none : (items : List ParseItem) → all_optional items ≡ true → templates_of false items ≡ []
unfolding all_optional templates_of
required_none [] h = refl
required_none (item ∷ items) h = ground (arith, required_none items)

template_front :
    (items : List ParseItem)
    → template_from false items ≡ (
        if is_ordered items
        then ok (
            templates_of false items
            ++ ((if any_optional items then bar else []) ++ templates_of true items))
        else raised value_error)
unfolding template_from is_ordered any_optional templates_of
template_front [] = refl
template_front (item ∷ items) = ground (
  arith,
  template_behind items,
  template_front items,
  required_none items,
  append_assoc item.template (templates_of false items)
      ((if any_optional items then bar else []) ++ templates_of true items),
)

-- The parameters are refused exactly when a required one comes behind an optional one. Otherwise the
-- first element is, in quotes, the templates of the required parameters and, if there is an optional
-- one, a bar and the templates of the optional ones; the values of all parameters follow in order.
pub get_parameters_lem :
    (items : List ParseItem)
    → get_parameters items ≡ (
        if is_ordered items
        then ok (
            (quote
              ++ ((templates_of false items
                    ++ ((if any_optional items then bar else []) ++ templates_of true items))
                  ++ quote))
            ∷ all_values items)
        else raised value_error)
unfolding get_parameters
get_parameters_lem items = ground (arith, template_front items)
