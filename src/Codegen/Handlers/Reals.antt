-- ===== src/Codegen/Handlers/Reals.antt =====
-- pybindgen/typehandlers/booltype.py, doubletype.py and floattype.py.
use memcache_router.Prelude.{Bool, true, false, [], ◌∷◌, ◌++◌, Option, none, some, if◌then◌else◌}
use memcache_router.Prelude.Text.{Text, text}
use memcache_router.Codegen.Result.{ok, ◌>>=◌}
use memcache_router.Codegen.Forward.{Conversion, declare}
use memcache_router.Codegen.Reverse.{ReverseConversion}
use memcache_router.Codegen.Handlers.{
  Param, ParamHandler, ReturnHandler, only_in, all_directions, base_ctype, address, reverse_after,
  reverse_prepend, declare_reverse, goes_in, goes_out, when, add_parse, add_build, add_call,
  before_code, is_true, reverse_parse, reverse_build,
}
use memcache_router.Codegen.Handlers.Shapes.{
  take_variable, give_value, give_variable, parse_first, build_first, plain, called,
}

pub bool_from : Text → Text
bool_from v = text "PyBool_FromLong(" ++ (v ++ text ")")

is_true_line : Text → Text → Text
is_true_line name py_name = name ++ (text " = PyObject_IsTrue(" ++ (py_name ++ text ");"))

-- `default_value` that is neither None nor empty stands behind the test.
bool_line : Option Text → Text → Text → Text
bool_line none name py_name = name ++ (text " = (bool) PyObject_IsTrue(" ++ (py_name ++ text ");"))
bool_line (some []) name py_name =
    name ++ (text " = (bool) PyObject_IsTrue(" ++ (py_name ++ text ");"))
bool_line (some (c ∷ d)) name py_name =
    name
    ++ (text " = "
        ++ (py_name
            ++ (text "? (bool) PyObject_IsTrue("
                ++ (py_name ++ (text ") : " ++ ((c ∷ d) ++ text ";"))))))

abbrev pub is_set : Option Text → Bool
is_set none = false
is_set (some t) = true

unfoldable pub take_bool : Param → Conversion
unfolding bool_line
take_bool p w = do
  (name, w1) ← declare w p.ctype_no_const p.name none none
  (py_name, w2) ←
      declare w1 (text "PyObject *") (text "py_" ++ p.name)
        (if is_set p.default_value then some (text "NULL") else none) none
  ok (
      add_call name (
        before_code (bool_line p.default_value name py_name)
          (add_parse (text "O") (address py_name ∷ []) (some p.value) (is_set p.default_value) w2)))

-- BoolPtrParam and BoolRefParam differ in what stands before the variables.
unfoldable pub read_bool : Text → Param → Text → Conversion
unfolding is_true_line
read_bool prefix p name w =
    if goes_in p.direction
    then (do
      (py_name, v) ←
          declare (add_call (prefix ++ name) w) (text "PyObject*") (text "py_" ++ p.name) none none
      ok (
          before_code (is_true_line name py_name)
            (add_parse (text "O") (address py_name ∷ []) (some p.value) false v)))
    else ok (add_call (prefix ++ name) w)

unfoldable pub take_bool_variable : Text → Param → Conversion
take_bool_variable prefix p w = do
  (name, w1) ← declare w (base_ctype p) p.name none none
  w2 ← read_bool prefix p name w1
  ok (when (goes_out p.direction) (add_build (text "N") (bool_from name ∷ [])) w2)

unfoldable pub give_bool_variable : Text → (Param → Text) → Param → ReverseConversion
unfolding is_true_line bool_from
give_bool_variable star item_name p w =
    let w1 =
      when (goes_in p.direction) (reverse_build (text "N") (bool_from (star ++ p.value) ∷ [])) w in
    if goes_out p.direction
    then (do
      (py_name, w2) ← declare_reverse w1 (text "PyObject *") (text "py_" ++ p.name) none
      ok (
          reverse_after (is_true_line (star ++ p.value) py_name)
            (reverse_parse (text "O") (address py_name ∷ []) (some (item_name p)) w2)))
    else ok w1

bool_to_c : Text → ReverseConversion
unfolding is_true_line
bool_to_c value w = do
  (py_name, w1) ← declare_reverse w (text "PyObject *") (text "py_boolretval") none
  ok (
      reverse_after (is_true_line value py_name)
        (reverse_prepend (text "O") (address py_name ∷ []) w1))

unfoldable pub bool_param : ParamHandler
bool_param = record {
  directions = only_in;
  ctypes = text "bool" ∷ [];
  c_to_python = give_value (text "N") (called (text "PyBool_FromLong"));
  python_to_c = take_bool;
}

unfoldable pub bool_return : ReturnHandler
unfolding bool_to_c
bool_return = record {
  ctypes = text "bool" ∷ [];
  c_error_return = text "return false;";
  python_to_c = bool_to_c;
  c_to_python = build_first (text "N") (called (text "PyBool_FromLong"));
}

unfoldable pub bool_ptr_param : ParamHandler
bool_ptr_param = record {
  directions = all_directions;
  ctypes = text "bool*" ∷ [];
  c_to_python = give_bool_variable (text "*") (λ p. p.value);
  python_to_c = take_bool_variable (text "&");
}

unfoldable pub bool_ref_param : ParamHandler
bool_ref_param = record {
  directions = all_directions;
  ctypes = text "bool&" ∷ [];
  c_to_python = give_bool_variable [] (λ p. p.name);
  python_to_c = take_bool_variable [];
}

unfoldable pub take_double : Param → Conversion
take_double p w = do
  (name, w1) ← declare w p.ctype_no_const p.name p.default_value none
  ok (
      add_call name
        (add_parse (text "d") (address name ∷ []) (some p.value) (is_true p.default_value) w1))

unfoldable pub double_param : ParamHandler
double_param = record {
  directions = only_in;
  ctypes = text "double" ∷ [];
  c_to_python = give_value (text "d") plain;
  python_to_c = take_double;
}

unfoldable pub double_return : ReturnHandler
double_return = record {
  ctypes = text "double" ∷ [];
  c_error_return = text "return 0;";
  python_to_c = parse_first (text "d");
  c_to_python = build_first (text "d") plain;
}

unfoldable pub double_ptr_param : ParamHandler
double_ptr_param = record {
  directions = all_directions;
  ctypes = text "double*" ∷ [];
  c_to_python = give_variable (text "*") (text "d");
  python_to_c = λ p. take_variable (text "&") (base_ctype p) (text "d") p;
}

unfoldable pub double_ref_param : ParamHandler
double_ref_param = record {
  directions = all_directions;
  ctypes = text "double&" ∷ [];
  c_to_python = give_variable [] (text "d");
  python_to_c = λ p. take_variable [] (text "double") (text "d") p;
}

-- No default value is taken.
unfoldable pub take_required : Text → Text → Param → Conversion
take_required ctype template p w = do
  (name, w1) ← declare w ctype p.name none none
  ok (add_call name (add_parse template (address name ∷ []) (some p.value) false w1))

unfoldable pub float_param : ParamHandler
float_param = record {
  directions = only_in;
  ctypes = text "float" ∷ [];
  c_to_python = give_value (text "f") plain;
  python_to_c = λ p. take_required p.ctype_no_const (text "f") p;
}

unfoldable pub float_return : ReturnHandler
float_return = record {
  ctypes = text "float" ∷ [];
  c_error_return = text "return 0;";
  python_to_c = parse_first (text "f");
  c_to_python = build_first (text "f") plain;
}

unfoldable pub float_ref_param : ParamHandler
float_ref_param = record {
  directions = all_directions;
  ctypes = text "float&" ∷ [];
  c_to_python = give_variable [] (text "f");
  python_to_c = λ p. take_variable [] (base_ctype p) (text "f") p;
}
