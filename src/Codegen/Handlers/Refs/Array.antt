-- ===== src/Codegen/Handlers/Refs/Array.antt =====
-- pybindgen/typehandlers: inttype.py, UnsignedIntPtrParam, and floattype.py, FloatPtrParam: a pointer
-- to one value, or to the first of `array_length` values, which are a list in Python.
use memcache_router.Prelude.{ℕ, false, [], ◌∷◌, ◌++◌, Option, none, some, if◌then◌else◌}
use memcache_router.Prelude.Text.{Text, text}
use memcache_router.Codegen.Result.{ok, ◌>>=◌}
use memcache_router.Codegen.Sink.{indent, unindent}
use memcache_router.Codegen.Names.Decimal.{decimal}
use memcache_router.Codegen.Forward.{Forward, Conversion, declare}
use memcache_router.Codegen.Handlers.{
  Param, ParamHandler, all_directions, base_ctype, target_text, address, goes_in, goes_out,
  add_parse, add_build, add_call, before_code, after_code, check_before,
}
use memcache_router.Codegen.Handlers.Shapes.{take_variable, give_variable}

-- What differs between the two classes.
pub record ArrayCode : Type 0 where
  pub list_kind : Text
  pub element_kind : Text
  pub element_check : Text → Text
  pub from_python : Text → Text
  pub to_python : Text → Text

abbrev pub index : Text → Text → Text
index name idx = name ++ (text "[" ++ (idx ++ text "]"))

abbrev pub for_line : Text → ℕ → Text
for_line idx n =
    text "for ("
    ++ (idx
        ++ (text " = 0; "
            ++ (idx ++ (text " < " ++ (decimal n ++ (text "; " ++ (idx ++ text "++) {")))))))

abbrev pub type_error : Text → ℕ → Text → Text
type_error name n kind =
    text "PyErr_SetString(PyExc_TypeError, \"Parameter `"
    ++ (name ++ (text "' must be a list of " ++ (decimal n ++ (text " " ++ (kind ++ text "\");")))))

unfoldable pub indent_before : Forward → Forward
indent_before w = record w {
  before_call = record w.before_call { sink = indent 4 w.before_call.sink };
}

unfoldable pub unindent_before : Conversion
unindent_before w = do
  s ← unindent w.before_call.sink
  ok (record w { before_call = record w.before_call { sink = s } })

unfoldable pub indent_after : Forward → Forward
indent_after w = record w { after_call = record w.after_call { sink = indent 4 w.after_call.sink } }

unfoldable pub unindent_after : Conversion
unindent_after w = do
  s ← unindent w.after_call.sink
  ok (record w { after_call = record w.after_call { sink = s } })

-- The list that Python passes is checked and copied into the array.
unfoldable pub read_array : ArrayCode → Param → ℕ → Text → Text → Text → Conversion
read_array c p n name py_list idx w = do
  (elem, w1) ← declare w (text "PyObject*") (text "element") none none
  w2 ←
      check_before (text "PyList_Size(" ++ (py_list ++ (text ") != " ++ decimal n)))
        (type_error p.name n c.list_kind)
        (add_parse (text "O!") (text "&PyList_Type" ∷ address py_list ∷ []) (some p.name) false w1)
  let item = elem ++ (text " = PyList_GET_ITEM(" ++ (py_list ++ (text ", " ++ (idx ++ text ");"))))
  w3 ←
      check_before (c.element_check elem) (type_error p.name n c.element_kind)
        (before_code item (indent_before (before_code (for_line idx n) w2)))
  w4 ←
      unindent_before
        (before_code (index name idx ++ (text " = " ++ (c.from_python elem ++ text ";"))) w3)
  ok (before_code (text "}") w4)

-- The array is copied into a new list, which is a return value.
unfoldable pub write_array : ArrayCode → ℕ → Text → Text → Text → Conversion
write_array c n name py_list idx w = do
  let new_list = py_list ++ (text " = PyList_New(" ++ (decimal n ++ text ");"))
  let set =
      text "PyList_SET_ITEM("
      ++ (py_list
          ++ (text ", " ++ (idx ++ (text ", " ++ (c.to_python (index name idx) ++ text ");")))))
  w1 ←
      unindent_after
        (after_code set (indent_after (after_code (for_line idx n) (after_code new_list w))))
  ok (add_build (text "N") (py_list ∷ []) (after_code (text "}") w1))

unfoldable pub take_array : ArrayCode → Text → Param → ℕ → Conversion
take_array c ctype p n w = do
  (name, w1) ← declare w ctype p.name none (some (text "[" ++ (decimal n ++ text "]")))
  (py_list, w2) ← declare w1 (text "PyObject*") (text "py_list") none none
  (idx, w3) ← declare w2 (text "int") (text "idx") none none
  w4 ←
      (if goes_in p.direction
        then read_array c p n name py_list idx (add_call name w3)
        else ok (add_call name w3))
  (if goes_out p.direction then write_array c n name py_list idx w4 else ok w4)

unfoldable pub take_pointer_to : Option ℕ → ArrayCode → Text → Text → Param → Conversion
take_pointer_to none c ctype template p = take_variable (text "&") ctype template p
take_pointer_to (some n) c ctype template p = take_array c ctype p n

abbrev pub take_pointer : ArrayCode → Text → Text → Param → Conversion
take_pointer c ctype template p = take_pointer_to p.array_length c ctype template p

abbrev pub unsigned_ints : ArrayCode
unsigned_ints = record {
  list_kind = text "ints/longs";
  element_kind = text "ints / longs";
  element_check =
      λ e. text "!(PyInt_Check(" ++ (e ++ (text ") || PyLong_Check(" ++ (e ++ text "))")));
  from_python = λ e. text "PyLong_AsUnsignedInt(" ++ (e ++ text ")");
  to_python = λ v. text "PyLong_FromUnsignedLong(" ++ (v ++ text ")");
}

-- The check of an element names the variable `element`, whatever the variable is called.
abbrev pub floats : ArrayCode
floats = record {
  list_kind = text "floats";
  element_kind = text "floats";
  element_check = λ e. text "!PyFloat_Check(element)";
  from_python = λ e. text "(float) PyFloat_AsDouble(" ++ (e ++ text ")");
  to_python = λ v. text "PyFloat_FromDouble(" ++ (v ++ text ")");
}

unfoldable pub unsigned_int_ptr_param : ParamHandler
unsigned_int_ptr_param = record {
  directions = all_directions;
  ctypes = text "unsigned int*" ∷ text "uint32_t*" ∷ [];
  c_to_python = give_variable (text "*") (text "I");
  python_to_c = λ p. take_pointer unsigned_ints (target_text p) (text "I") p;
}

unfoldable pub float_ptr_param : ParamHandler
float_ptr_param = record {
  directions = all_directions;
  ctypes = text "float*" ∷ [];
  c_to_python = give_variable (text "*") (text "f");
  python_to_c = λ p. take_pointer floats (base_ctype p) (text "f") p;
}
