-- ===== src/Codegen/Handlers/Refs.antt =====
-- pybindgen/typehandlers/inttype.py: the handlers of integers behind a pointer or a reference.
pub mod Array
use memcache_router.Prelude.{
  ℕ, Bool, true, false, List, [], ◌∷◌, ◌++◌, Option, none, some, if◌then◌else◌,
}
use memcache_router.Prelude.Text.{Text, text}
use memcache_router.Codegen.Result.{
  Result, ok, raised, ◌>>=◌, not_supported_error, type_configuration_error, assertion_error,
}
use memcache_router.Codegen.Names.Decimal.{decimal}
use memcache_router.Codegen.Forward.{Forward, Conversion, declare}
use memcache_router.Codegen.Reverse.{ReverseWrapper, ReverseConversion}
use memcache_router.Codegen.Handlers.{
  Param, ParamHandler, ReturnHandler, only_in, all_directions, base_ctype, target_of, target_text,
  address, reverse_after, reverse_prepend, declare_reverse, Direction, direction_in, goes_in,
  goes_out, when, add_parse, add_build, prepend_build, add_call, before_code, after_code,
  check_before, is_true, reverse_parse, reverse_build, reverse_before,
}
use memcache_router.Codegen.Handlers.Shapes.{
  take_value, take_checked, take_variable, give_value, give_variable, parse_first, build_first,
  parse_checked, plain, called, above, outside,
}

unfoldable pub int_ptr_param : ParamHandler
int_ptr_param = record {
  directions = all_directions;
  ctypes = text "int*" ∷ [];
  c_to_python = give_variable (text "*") (text "i");
  python_to_c = λ p. take_variable (text "&") (base_ctype p) (text "i") p;
}

unfoldable pub int_ref_param : ParamHandler
int_ref_param = record {
  directions = all_directions;
  ctypes = text "int&" ∷ [];
  c_to_python = give_variable [] (text "i");
  python_to_c = λ p. take_variable [] (base_ctype p) (text "i") p;
}

unfoldable pub unsigned_int_ref_param : ParamHandler
unsigned_int_ref_param = record {
  directions = all_directions;
  ctypes = text "unsigned int&" ∷ text "unsigned &" ∷ [];
  c_to_python = give_variable [] (text "I");
  python_to_c = λ p. take_variable [] (base_ctype p) (text "I") p;
}

unfoldable pub uint16_ref_param : ParamHandler
uint16_ref_param = record {
  directions = all_directions;
  ctypes =
      text "uint16_t&"
      ∷ text "unsigned short&"
      ∷ text "unsigned short int&"
      ∷ text "short unsigned&"
      ∷ text "short unsigned int&"
      ∷ [];
  c_to_python = give_variable [] (text "H");
  python_to_c = λ p. take_variable [] (base_ctype p) (text "H") p;
}

unfoldable pub int16_ref_param : ParamHandler
int16_ref_param = record {
  directions = all_directions;
  ctypes = text "int16_t&" ∷ text "short&" ∷ text "short int&" ∷ [];
  c_to_python = give_variable [] (text "h");
  python_to_c = λ p. take_variable [] (base_ctype p) (text "h") p;
}

unfoldable pub uint8_ref_param : ParamHandler
uint8_ref_param = record {
  directions = all_directions;
  ctypes = text "uint8_t&" ∷ text "unsigned char&" ∷ text "char unsigned&" ∷ [];
  c_to_python = give_variable [] (text "B");
  python_to_c = λ p. take_variable [] (base_ctype p) (text "B") p;
}

unfoldable pub int8_ref_param : ParamHandler
int8_ref_param = record {
  directions = all_directions;
  ctypes = text "int8_t&" ∷ text "signed char &" ∷ text "char signed&" ∷ [];
  c_to_python = give_variable [] (text "b");
  python_to_c = λ p. take_variable [] (base_ctype p) (text "b") p;
}

unfoldable pub int8_ptr_param : ParamHandler
int8_ptr_param = record {
  directions = all_directions;
  ctypes = text "int8_t*" ∷ [];
  c_to_python = give_variable (text "*") (text "b");
  python_to_c = λ p. take_variable (text "&") (text "int8_t") (text "b") p;
}

unfoldable pub uint8_ptr_param : ParamHandler
uint8_ptr_param = record {
  directions = all_directions;
  ctypes = text "uint8_t*" ∷ [];
  c_to_python = give_variable (text "*") (text "B");
  python_to_c = λ p. take_variable (text "&") (text "uint8_t") (text "B") p;
}

unfoldable pub unsigned_int16_ptr_param : ParamHandler
unsigned_int16_ptr_param = record {
  directions = all_directions;
  ctypes = text "unsigned short int*" ∷ text "uint16_t*" ∷ [];
  c_to_python = give_variable (text "*") (text "H");
  python_to_c = λ p. take_variable (text "&") (target_text p) (text "H") p;
}
