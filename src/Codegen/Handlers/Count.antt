-- ===== src/Codegen/Handlers/Count.antt =====
-- What the bodies that the handlers share add to a forward wrapper.
use memcache_router.Prelude.{false, [], ◌∷◌, ◌++◌, some, refl, arith, Bool-cases, inl, inr}
use memcache_router.Prelude.Text.{Text, text}
use memcache_router.Codegen.Names.{join_ctype_and_name, last_char, split_stars}
use memcache_router.Codegen.Forward.{Forward, Conversion}
use memcache_router.Codegen.Handlers.{
  Param, goes_in, goes_out, address, add_parse, add_build, base_ctype, before_code,
}
use memcache_router.Codegen.Handlers.Shapes.{take_value, take_checked, take_variable}
use memcache_router.Codegen.Handlers.Reals.{
  take_bool, take_bool_variable, take_double, take_required, read_bool, bool_from,
}
use memcache_router.Codegen.Handlers.Objects.{take_c_string, take_object, incref}
use memcache_router.Codegen.Handlers.Runs.{
  IsCtype, one_if, Adds, Adds-refl, Adds-add_call, Adds-add_parse, Adds-add_build, Adds-when_parse,
  Adds-when_build, Runs, Runs-ok, Runs-cast, Adds-when, Adds-before_code, declare-Runs,
  check_before-Runs,
}

-- One call argument, a parse item if the parameter goes in, a build item if it goes out.
abbrev pub Handles : Param → Conversion → Type 0
Handles p c =
    (w : Forward) → Runs 1 (one_if (goes_in p.direction)) (one_if (goes_out p.direction)) w (c w)

-- One call argument and one parse item.
abbrev pub Takes : Conversion → Type 0
Takes c = (w : Forward) → Runs 1 1 0 w (c w)

pub IsCtype-int : IsCtype (text "int")
unfolding join_ctype_and_name last_char split_stars text
IsCtype-int n = (_, refl)

pub IsCtype-py_object : IsCtype (text "PyObject*")
unfolding join_ctype_and_name last_char split_stars text
IsCtype-py_object n = (_, refl)

pub IsCtype-py_object_blank : IsCtype (text "PyObject *")
unfolding join_ctype_and_name last_char split_stars text
IsCtype-py_object_blank n = (_, refl)

pub IsCtype-const_char : IsCtype (text "const char *")
unfolding join_ctype_and_name last_char split_stars text
IsCtype-const_char n = (_, refl)

pub IsCtype-py_ssize_t : IsCtype (text "Py_ssize_t")
unfolding join_ctype_and_name last_char split_stars text
IsCtype-py_ssize_t n = (_, refl)

pub IsCtype-unsigned_int : IsCtype (text "unsigned int")
unfolding join_ctype_and_name last_char split_stars text
IsCtype-unsigned_int n = (_, refl)

pub IsCtype-py_long_long : IsCtype (text "unsigned PY_LONG_LONG")
unfolding join_ctype_and_name last_char split_stars text
IsCtype-py_long_long n = (_, refl)

pub IsCtype-double : IsCtype (text "double")
unfolding join_ctype_and_name last_char split_stars text
IsCtype-double n = (_, refl)

pub IsCtype-int8_t : IsCtype (text "int8_t")
unfolding join_ctype_and_name last_char split_stars text
IsCtype-int8_t n = (_, refl)

pub IsCtype-uint8_t : IsCtype (text "uint8_t")
unfolding join_ctype_and_name last_char split_stars text
IsCtype-uint8_t n = (_, refl)

pub IsCtype-std_string : IsCtype (text "std::string")
unfolding join_ctype_and_name last_char split_stars text
IsCtype-std_string n = (_, refl)

pub IsCtype-std_string_ptr : IsCtype (text "std::string*")
unfolding join_ctype_and_name last_char split_stars text
IsCtype-std_string_ptr n = (_, refl)

pub IsCtype-glib_string : IsCtype (text "Glib::ustring")
unfolding join_ctype_and_name last_char split_stars text
IsCtype-glib_string n = (_, refl)

pub IsCtype-glib_string_ptr : IsCtype (text "Glib::ustring*")
unfolding join_ctype_and_name last_char split_stars text
IsCtype-glib_string_ptr n = (_, refl)

module _ (p : Param) where
  pub take_value-Takes :
      (ctype template : Text) → IsCtype ctype → Takes (take_value ctype template p)
  unfolding take_value
  take_value-Takes ctype template j w =
      declare-Runs ctype p.name _ _ _ j (Adds-refl w)
        λ name v a. Runs-ok (Adds-add_call (Adds-add_parse a _ _ _ _) name)

  pub take_checked-Takes : (limit : Text) → Takes (take_checked limit p)
  unfolding take_checked
  take_checked-Takes limit w =
      declare-Runs (text "int") p.name _ _ _ IsCtype-int (Adds-refl w) λ name v a.
        check_before-Runs _ _ _ (Adds-add_parse a _ _ _ _) λ u b. Runs-ok (Adds-add_call b name)

  pub take_variable-Handles :
      (prefix ctype template : Text)
      → IsCtype ctype
      → Handles p (take_variable prefix ctype template p)
  unfolding take_variable
  take_variable-Handles prefix ctype template j w =
      declare-Runs ctype p.name _ _ _ j (Adds-refl w) λ name v a.
        Runs-cast refl (omega arith) (omega arith) (
          Runs-ok (
            Adds-when_build (goes_out p.direction) (add_build template (name ∷ []))
              (Adds-when_parse (goes_in p.direction)
                (add_parse template (address name ∷ []) (some p.name) false)
                (Adds-add_call a (prefix ++ name)) λ u b. Adds-add_parse b _ _ _ _)
              λ u b. Adds-add_build b _ _))

  pub take_bool-Takes : IsCtype p.ctype_no_const → Takes (take_bool p)
  unfolding take_bool
  take_bool-Takes j w = declare-Runs p.ctype_no_const p.name _ _ _ j (Adds-refl w) λ name v a.
      declare-Runs _ _ _ _ _ IsCtype-py_object_blank a
        λ py_name u b. Runs-ok (Adds-add_call (Adds-before_code (Adds-add_parse b _ _ _ _) _) name)

  take_bool_in :
      (prefix name : Text) {w v : Forward}
      → Adds 0 0 0 w v
      → Runs 1 (one_if (goes_in p.direction)) 0 w (read_bool prefix p name v)
  unfolding read_bool
  take_bool_in prefix name {v = v} a = elim (Bool-cases (goes_in p.direction)) [
    | inl e ↦ rw e (
        declare-Runs _ _ _ _ _ IsCtype-py_object (Adds-add_call a _)
          λ py_name u b. Runs-ok (Adds-before_code (Adds-add_parse b _ _ _ _) _))
    | inr e ↦ rw e (Runs-ok (Adds-add_call a _))
  ]

  pub take_bool_variable-Handles :
      (prefix : Text) → IsCtype (base_ctype p) → Handles p (take_bool_variable prefix p)
  unfolding take_bool_variable
  take_bool_variable-Handles prefix j w =
      declare-Runs (base_ctype p) p.name _ _ _ j (Adds-refl w) λ name v a.
        let (u, runs, b) = take_bool_in prefix name a in
        rw runs (
          Runs-cast refl refl (omega arith) (
            Runs-ok (
              Adds-when_build (goes_out p.direction) (add_build (text "N") (bool_from name ∷ [])) b
                λ x c. Adds-add_build c _ _)))

  pub take_double-Takes : IsCtype p.ctype_no_const → Takes (take_double p)
  unfolding take_double
  take_double-Takes j w =
      declare-Runs p.ctype_no_const p.name _ _ _ j (Adds-refl w)
        λ name v a. Runs-ok (Adds-add_call (Adds-add_parse a _ _ _ _) name)

  pub take_required-Takes :
      (ctype template : Text) → IsCtype ctype → Takes (take_required ctype template p)
  unfolding take_required
  take_required-Takes ctype template j w =
      declare-Runs ctype p.name _ _ _ j (Adds-refl w)
        λ name v a. Runs-ok (Adds-add_call (Adds-add_parse a _ _ _ _) name)

  pub take_c_string-Takes : IsCtype p.ctype_no_const → Takes (take_c_string p)
  unfolding take_c_string
  take_c_string-Takes j w =
      declare-Runs p.ctype_no_const p.name _ _ _ j (Adds-refl w)
        λ name v a. Runs-ok (Adds-add_call (Adds-add_parse a _ _ _ _) name)

  pub take_object-Takes : IsCtype p.ctype_no_const → Takes (take_object p)
  unfolding take_object
  take_object-Takes j w = declare-Runs p.ctype_no_const p.name _ _ _ j (Adds-refl w) λ name v a.
      Runs-ok (
        Adds-when p.transfer_ownership (before_code (incref name))
          (Adds-add_call (Adds-add_parse a _ _ _ _) name) λ u b. Adds-before_code b _)
