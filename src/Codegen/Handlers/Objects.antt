-- ===== src/Codegen/Handlers/Objects.antt =====
-- pybindgen/typehandlers/pyobjecttype.py and voidtype.py, and the handlers of C strings and characters
-- in stringtype.py.
use memcache_router.Prelude.{Bool, false, [], ◌∷◌, ◌++◌, none, some, if◌then◌else◌}
use memcache_router.Prelude.Text.{Text, text}
use memcache_router.Codegen.Result.{ok, ◌>>=◌}
use memcache_router.Codegen.Forward.{Conversion, declare}
use memcache_router.Codegen.Reverse.{ReverseConversion}
use memcache_router.Codegen.Handlers.{
  Param, ParamHandler, ReturnHandler, only_in, address, reverse_after, reverse_prepend, when,
  add_parse, add_build, prepend_build, add_call, before_code, reverse_parse, reverse_build,
}
use memcache_router.Codegen.Handlers.Reals.{take_required, is_set}
use memcache_router.Codegen.Handlers.Shapes.{give_value, parse_first, plain}

-- `caller_owns_return` and `transfer_ownership` are given to the constructors.
object_template : Bool → Text
object_template owned = if owned then text "N" else text "O"

pub incref : Text → Text
incref v = text "Py_INCREF((PyObject*) " ++ (v ++ text ");")

unfoldable pub give_object : Param → ReverseConversion
unfolding object_template
give_object p w = ok (reverse_build (object_template p.transfer_ownership) (p.value ∷ []) w)

unfoldable pub take_object : Param → Conversion
unfolding incref
take_object p w = do
  (name, w1) ← declare w p.ctype_no_const p.name none none
  ok (
      when p.transfer_ownership (before_code (incref name))
        (add_call name (add_parse (text "O") (address name ∷ []) (some p.name) false w1)))

unfoldable pub py_object_param : ParamHandler
py_object_param = record {
  directions = only_in;
  ctypes = text "PyObject*" ∷ [];
  c_to_python = give_object;
  python_to_c = take_object;
}

unfoldable pub py_object_return : Bool → ReturnHandler
unfolding object_template incref
py_object_return caller_owns_return = record {
  ctypes = text "PyObject*" ∷ [];
  c_error_return = text "return NULL;";
  python_to_c = λ value w. ok (
      when caller_owns_return (reverse_after (incref value))
        (reverse_prepend (text "O") (address value ∷ []) w));
  c_to_python = λ value w. ok (prepend_build (object_template caller_owns_return) (value ∷ []) w);
}

unfoldable pub void_return : ReturnHandler
void_return = record {
  ctypes = text "void" ∷ [];
  c_error_return = text "return;";
  python_to_c = λ value w. ok (reverse_prepend [] [] w);
  c_to_python = λ value w. ok w;
}

unfoldable pub take_c_string : Param → Conversion
take_c_string p w = do
  (name, w1) ← declare w p.ctype_no_const p.name p.default_value none
  ok (
      add_call name
        (add_parse (text "s") (address name ∷ []) (some p.value) (is_set p.default_value) w1))

unfoldable pub c_string_param : ParamHandler
c_string_param = record {
  directions = only_in;
  ctypes = text "char*" ∷ [];
  c_to_python = give_value (text "s") plain;
  python_to_c = take_c_string;
}

unfoldable pub char_param : ParamHandler
char_param = record {
  directions = only_in;
  ctypes = text "char" ∷ [];
  c_to_python = give_value (text "c") plain;
  python_to_c = λ p. take_required p.ctype_no_const (text "c") p;
}

unfoldable pub char_return : ReturnHandler
char_return = record {
  ctypes = text "char" ∷ [];
  c_error_return = text "return '\\0';";
  python_to_c = parse_first (text "c");
  c_to_python = λ value w. ok (add_build (text "c") ((text "(int) " ++ value) ∷ []) w);
}

unfoldable pub c_string_return : ReturnHandler
c_string_return = record {
  ctypes = text "char*" ∷ [];
  c_error_return = text "return NULL;";
  python_to_c = λ value w. ok (reverse_parse (text "s") (address value ∷ []) none w);
  c_to_python = λ value w. ok (add_build (text "s") (value ∷ []) w);
}
