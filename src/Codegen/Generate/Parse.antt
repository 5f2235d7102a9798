-- ===== src/Codegen/Generate/Parse.antt =====
-- The code that parses the arguments, and the flags of the method.
use memcache_router.Prelude.{
  Bool, true, false, not, ◌&&◌, ◌||◌, List, [], ◌∷◌, ◌++◌, Option, none, some, ◌≡◌, refl, arith,
  ◌⊎◌, inl, inr, if◌then◌else◌, append_assoc, Bool-cases, sym, ◌∙◌,
}
use memcache_router.Prelude.Text.{Text, text}
use memcache_router.Codegen.Result.{ok}
use memcache_router.Codegen.Block.Checks.{write_error_check_lem}
use memcache_router.Codegen.Names.{declare_variable, join_ctype_and_name}
use memcache_router.Codegen.Names.Join.{join_ctype_and_name_lem}
use memcache_router.Codegen.Params.{
  ParseItem, get_parameters, get_keywords, no_parameters, is_empty, quote, bar, all_values,
}
use memcache_router.Codegen.Params.Template.{
  is_ordered, templates_of, any_optional, get_parameters_lem,
}
use memcache_router.Codegen.Params.Keywords.{none_named, all_named, names_of, get_keywords_lem}
use memcache_router.Codegen.Forward.{Forward, ForceParse, is_given}
use memcache_router.Codegen.Generate.{
  cast_first, parse_positional, parse_keywords, parse_with, forces_keywords, write_parse, add_flag,
}

-- The flags of a method, by its parameters and by what is forced.
pub flags_of : Bool → Bool → Option ForceParse → List Text
flags_of empty unnamed force =
    if empty && not (is_given force)
    then text "METH_NOARGS" ∷ []
    else if not unnamed || forces_keywords force
    then text "METH_VARARGS" ∷ text "METH_KEYWORDS" ∷ []
    else text "METH_VARARGS" ∷ []

join_keywords :
    (v : Text) → join_ctype_and_name (text "const char *") v ≡ ok (text "const char *" ++ v)
unfolding text
join_keywords v =
    (join_ctype_and_name_lem (text "const cha") v b'r' 0 (ground arith) (ground arith)).1

parse_positional-ok :
    (params : List Text) (w : Forward)
    → (w' : Forward) × (parse_positional params w ≡ ok w') × (w'.meth_flags ≡ w.meth_flags)
unfolding parse_positional
parse_positional-ok params w = rw write_error_check_lem (_, refl, refl)

parse_keywords-ok :
    (params ks : List Text) (w : Forward)
    → (w' : Forward) × (parse_keywords params ks w ≡ ok w')
      × (w'.meth_flags ≡ w.meth_flags ++ text "METH_KEYWORDS" ∷ [])
unfolding parse_keywords declare_variable
parse_keywords-ok params ks w = rw (join_keywords, write_error_check_lem) (_, refl, refl)

module _ (params : List Text) (w : Forward) where
  -- A method that takes its arguments in a tuple.
  Flagged : Option (List Text) → Type 0
  Flagged keywords =
      (w' : Forward) × (parse_with params keywords (add_flag (text "METH_VARARGS") w) ≡ ok w')
      × (w'.meth_flags ≡ w.meth_flags ++ flags_of false (not (is_given keywords)) w.force_parse)

  parse_with-positional : forces_keywords w.force_parse ≡ false → Flagged none
  unfolding Flagged parse_with add_flag flags_of
  parse_with-positional e =
      let (w', runs, flags) = parse_positional-ok params (add_flag (text "METH_VARARGS") w) in
      (w', rw e runs, rw e flags)

  keywords_flags :
      (ks : List Text)
      → (w' : Forward) × (parse_keywords params ks (add_flag (text "METH_VARARGS") w) ≡ ok w')
        × (w'.meth_flags ≡ w.meth_flags ++ (text "METH_VARARGS" ∷ text "METH_KEYWORDS" ∷ []))
  unfolding add_flag
  keywords_flags ks =
      let (w', runs, flags) = parse_keywords-ok params ks (add_flag (text "METH_VARARGS") w) in
      (w', runs, flags ∙ append_assoc w.meth_flags _ _)

  parse_with_forced : forces_keywords w.force_parse ≡ true → Flagged none
  unfolding Flagged parse_with add_flag flags_of
  parse_with_forced e = let (w', runs, flags) = keywords_flags [] in (w', rw e runs, rw e flags)

  parse_with-Flagged : (keywords : Option (List Text)) → Flagged keywords
  parse_with-Flagged none = elim (Bool-cases (forces_keywords w.force_parse)) [
    | inl e ↦ parse_with_forced e
    | inr e ↦ parse_with-positional e
  ]
  parse_with-Flagged (some ks) = unfold Flagged parse_with add_flag flags_of in keywords_flags ks

-- The keywords, where the names are not mixed.
keywords_given :
    (items : List ParseItem)
    → (none_named items ≡ true) ⊎ (all_named items ≡ true)
    → (keywords : Option (List Text)) × (get_keywords items ≡ ok keywords)
      × (not (is_given keywords) ≡ none_named items)
keywords_given items named = elim (Bool-cases (none_named items)) [
  | inl e ↦ (none, rw (get_keywords_lem, e), sym e)
  | inr e ↦ elim named [
    | inl bad ↦ (none, ground arith, ground arith)
    | inr all ↦ (some (names_of items), rw (get_keywords_lem, e, all), sym e)
  ]
]

-- The parameters, where they are ordered, begin with a quote.
parameters_given :
    (items : List ParseItem)
    → is_ordered items ≡ true
    → (t : Text) × (vs : List Text) × (get_parameters items ≡ ok ((quote ++ t) ∷ vs))
parameters_given items h =
    let required = templates_of false items in
    let optional = (if any_optional items then bar else []) ++ templates_of true items in
    ((required ++ optional) ++ quote, all_values items, rw (get_parameters_lem, h))

flags_taken :
    (empty unnamed : Bool) (force : Option ForceParse)
    → (not empty || is_given force) ≡ true
    → flags_of false unnamed force ≡ flags_of empty unnamed force
unfolding flags_of
flags_taken empty unnamed force h = ground arith

flags_none :
    (empty unnamed : Bool) (force : Option ForceParse)
    → (not empty || is_given force) ≡ false
    → flags_of empty unnamed force ≡ text "METH_NOARGS" ∷ []
unfolding flags_of
flags_none empty unnamed force h = ground arith

-- If no required parameter comes behind an optional one and either none or all parameters have a
-- name, the code that parses the arguments is written and one of three sets of flags is added: none
-- are taken if there is nothing to parse and parsing is not forced; keywords are taken if the
-- parameters have names or keywords are forced; otherwise the arguments come in a tuple.
pub write_parse_lem :
    (w : Forward)
    → is_ordered w.parse_params ≡ true
    → (none_named w.parse_params ≡ true) ⊎ (all_named w.parse_params ≡ true)
    → (empty : Bool) × (is_empty w.parse_params ≡ ok empty)
      × (w' : Forward) × (write_parse w ≡ ok w')
      × (w'.meth_flags ≡ w.meth_flags ++ flags_of empty (none_named w.parse_params) w.force_parse)
unfolding write_parse is_empty cast_first Flagged
write_parse_lem w ordered named =
    let (t, vs, params) = parameters_given w.parse_params ordered in
    let (keywords, given, unnamed) = keywords_given w.parse_params named in
    let empty = no_parameters ((quote ++ t) ∷ vs) in
    let cast : List Text = (text "(char *) " ++ (quote ++ t)) ∷ vs in
    elim (Bool-cases (not empty || is_given w.force_parse)) [
      | inl taken ↦
          let (w', runs, flags) = parse_with-Flagged cast w keywords in
          (
            empty,
            rw params,
            w',
            rw (params, given, taken) runs,
            rw (← flags_taken empty (none_named w.parse_params) w.force_parse taken, ← unnamed)
                flags,
          )
      | inr nothing ↦ (
        empty,
        rw params,
        add_flag (text "METH_NOARGS") w,
        rw (params, given, nothing),
        rw (flags_none empty (none_named w.parse_params) w.force_parse nothing)
            (unfold add_flag in refl),
      )
    ]
