-- ===== src/Codegen/Handlers/Ints.antt =====
-- pybindgen/typehandlers/inttype.py: the handlers of integers that are passed by value, and of return
-- values. A handler for a reference that only overrides the C type has the same methods.
use memcache_router.Prelude.{[], ◌∷◌, ◌++◌, some}
use memcache_router.Prelude.Text.{Text, text}
use memcache_router.Codegen.Result.{ok, ◌>>=◌}
use memcache_router.Codegen.Reverse.{ReverseConversion}
use memcache_router.Codegen.Handlers.{
  ParamHandler, ReturnHandler, only_in, target_of, address, reverse_after, reverse_prepend,
  declare_reverse,
}
use memcache_router.Codegen.Handlers.Shapes.{
  take_value, take_checked, give_value, parse_first, build_first, parse_checked, plain, called,
  above, outside,
}

unfoldable pub int_param : ParamHandler
int_param = record {
  directions = only_in;
  ctypes = text "int" ∷ text "int32_t" ∷ [];
  c_to_python = give_value (text "i") plain;
  python_to_c = λ p. take_value p.ctype_no_const (text "i") p;
}

unfoldable pub unsigned_int_param : ParamHandler
unsigned_int_param = record {
  directions = only_in;
  ctypes = text "unsigned int" ∷ text "uint32_t" ∷ [];
  c_to_python = give_value (text "N") (called (text "PyLong_FromUnsignedLong"));
  python_to_c = take_value (text "unsigned int") (text "I");
}

unfoldable pub int_return : ReturnHandler
int_return = record {
  ctypes = text "int" ∷ text "int32_t" ∷ [];
  c_error_return = text "return INT_MIN;";
  python_to_c = parse_first (text "i");
  c_to_python = build_first (text "i") plain;
}

unfoldable pub unsigned_int_return : ReturnHandler
unsigned_int_return = record {
  ctypes = text "unsigned int" ∷ text "uint32_t" ∷ [];
  c_error_return = text "return 0;";
  python_to_c = parse_first (text "I");
  c_to_python = build_first (text "N") (called (text "PyLong_FromUnsignedLong"));
}

unfoldable pub uint16_return : ReturnHandler
uint16_return = record {
  ctypes =
      text "uint16_t"
      ∷ text "unsigned short"
      ∷ text "unsigned short int"
      ∷ text "short unsigned int"
      ∷ [];
  c_error_return = text "return 0;";
  python_to_c = parse_checked (above (text "0xffff"));
  c_to_python = build_first (text "i") plain;
}

unfoldable pub int16_return : ReturnHandler
int16_return = record {
  ctypes = text "int16_t" ∷ text "short" ∷ text "short int" ∷ [];
  c_error_return = text "return 0;";
  python_to_c = parse_checked (outside (text "32767") (text "-32768"));
  c_to_python = build_first (text "i") plain;
}

unfoldable pub uint16_param : ParamHandler
uint16_param = record {
  directions = only_in;
  ctypes = text "uint16_t" ∷ text "unsigned short" ∷ text "unsigned short int" ∷ [];
  c_to_python = give_value (text "i") (λ v. text "(int) " ++ v);
  python_to_c = take_checked (text "0xffff");
}

unfoldable pub int16_param : ParamHandler
int16_param = record {
  directions = only_in;
  ctypes = text "int16_t" ∷ text "short" ∷ text "short int" ∷ [];
  c_to_python = give_value (text "i") (λ v. text "(int) " ++ v);
  python_to_c = take_checked (text "0x7fff");
}

unfoldable pub uint8_param : ParamHandler
uint8_param = record {
  directions = only_in;
  ctypes = text "uint8_t" ∷ text "unsigned char" ∷ text "char unsigned" ∷ [];
  c_to_python = give_value (text "i") (λ v. text "(int) " ++ v);
  python_to_c = take_checked (text "0xff");
}

unfoldable pub uint8_return : ReturnHandler
uint8_return = record {
  ctypes = text "uint8_t" ∷ text "unsigned char" ∷ text "char unsigned" ∷ [];
  c_error_return = text "return 0;";
  python_to_c = parse_checked (above (text "0xff"));
  c_to_python = build_first (text "i") (λ v. text "(int)" ++ v);
}

unfoldable pub int8_param : ParamHandler
int8_param = record {
  directions = only_in;
  ctypes = text "int8_t" ∷ text "signed char" ∷ text "char signed" ∷ [];
  c_to_python = give_value (text "i") (λ v. text "(int) " ++ v);
  python_to_c = take_checked (text "0x7f");
}

unfoldable pub int8_return : ReturnHandler
int8_return = record {
  ctypes = text "int8_t" ∷ text "signed char" ∷ [];
  c_error_return = text "return 0;";
  python_to_c = parse_checked (outside (text "128") (text "-127"));
  c_to_python = build_first (text "i") plain;
}

unfoldable pub unsigned_long_long_param : ParamHandler
unsigned_long_long_param = record {
  directions = only_in;
  ctypes =
      text "unsigned long long"
      ∷ text "uint64_t"
      ∷ text "unsigned long long int"
      ∷ text "long long unsigned int"
      ∷ text "long long unsigned"
      ∷ [];
  c_to_python = give_value (text "K") plain;
  python_to_c = λ p. take_value p.ctype_no_const (text "K") p;
}

unfoldable pub unsigned_long_long_ref_param : ParamHandler
unsigned_long_long_ref_param = record {
  directions = only_in;
  ctypes = text "unsigned long long&" ∷ text "uint64_t&" ∷ text "long long unsigned int&" ∷ [];
  c_to_python = give_value (text "K") plain;
  python_to_c = (λ p w. do target ← target_of p; take_value target (text "K") p w);
}

unfoldable pub unsigned_long_long_return : ReturnHandler
unsigned_long_long_return = record {
  ctypes = text "unsigned long long" ∷ text "uint64_t" ∷ text "long long unsigned int" ∷ [];
  c_error_return = text "return 0;";
  python_to_c = parse_first (text "K");
  c_to_python = build_first (text "K") plain;
}

unfoldable pub unsigned_long_param : ParamHandler
unsigned_long_param = record {
  directions = only_in;
  ctypes =
      text "unsigned long"
      ∷ text "unsigned long int"
      ∷ text "long unsigned"
      ∷ text "long unsigned int"
      ∷ [];
  c_to_python = give_value (text "k") plain;
  python_to_c = λ p. take_value p.ctype_no_const (text "k") p;
}

unfoldable pub unsigned_long_ref_param : ParamHandler
unsigned_long_ref_param = record {
  directions = only_in;
  ctypes =
      text "unsigned long&"
      ∷ text "long unsigned&"
      ∷ text "long unsigned int&"
      ∷ text "unsigned long int&"
      ∷ [];
  c_to_python = give_value (text "k") plain;
  python_to_c = (λ p w. do target ← target_of p; take_value target (text "k") p w);
}

unfoldable pub unsigned_long_return : ReturnHandler
unsigned_long_return = record {
  ctypes = text "unsigned long" ∷ text "long unsigned int" ∷ [];
  c_error_return = text "return 0;";
  python_to_c = parse_first (text "k");
  c_to_python = build_first (text "k") plain;
}

unfoldable pub long_param : ParamHandler
long_param = record {
  directions = only_in;
  ctypes =
      text "signed long"
      ∷ text "signed long int"
      ∷ text "long"
      ∷ text "long int"
      ∷ text "long signed"
      ∷ text "long signed int"
      ∷ [];
  c_to_python = give_value (text "l") plain;
  python_to_c = λ p. take_value p.ctype_no_const (text "l") p;
}

unfoldable pub long_ref_param : ParamHandler
long_ref_param = record {
  directions = only_in;
  ctypes =
      text "signed long&"
      ∷ text "long signed&"
      ∷ text "long&"
      ∷ text "long int&"
      ∷ text "long signed int&"
      ∷ text "signed long int&"
      ∷ [];
  c_to_python = give_value (text "l") plain;
  python_to_c = (λ p w. do target ← target_of p; take_value target (text "l") p w);
}

unfoldable pub long_return : ReturnHandler
long_return = record {
  ctypes = text "signed long" ∷ text "long signed int" ∷ text "long" ∷ text "long int" ∷ [];
  c_error_return = text "return 0;";
  python_to_c = parse_first (text "l");
  c_to_python = build_first (text "l") plain;
}

size_t_to_c : Text → ReverseConversion
size_t_to_c value w = do
  (name, w1) ← declare_reverse w (text "unsigned PY_LONG_LONG") (text "retval_tmp") (some value)
  ok (
      reverse_after (text "retval = " ++ (name ++ text ";"))
        (reverse_prepend (text "K") (address name ∷ []) w1))

unfoldable pub size_t_return : ReturnHandler
unfolding size_t_to_c
size_t_return = record {
  ctypes = text "size_t" ∷ text "std::size_t" ∷ [];
  c_error_return = text "return 0;";
  python_to_c = size_t_to_c;
  c_to_python = build_first (text "K") (λ v. text "((unsigned PY_LONG_LONG) " ++ (v ++ text ")"));
}

unfoldable pub size_t_param : ParamHandler
size_t_param = record {
  directions = only_in;
  ctypes = text "size_t" ∷ text "std::size_t" ∷ [];
  c_to_python = give_value (text "K") (λ v. text "((unsigned PY_LONG_LONG) " ++ (v ++ text ")"));
  python_to_c = take_value (text "unsigned PY_LONG_LONG") (text "K");
}

unfoldable pub long_long_param : ParamHandler
long_long_param = record {
  directions = only_in;
  ctypes = text "long long" ∷ text "int64_t" ∷ text "long long int" ∷ [];
  c_to_python = give_value (text "L") plain;
  python_to_c = λ p. take_value p.ctype_no_const (text "L") p;
}

unfoldable pub long_long_ref_param : ParamHandler
long_long_ref_param = record {
  directions = only_in;
  ctypes = text "long long&" ∷ text "int64_t&" ∷ text "long long int&" ∷ [];
  c_to_python = give_value (text "L") plain;
  python_to_c = (λ p w. do target ← target_of p; take_value target (text "L") p w);
}

unfoldable pub long_long_return : ReturnHandler
long_long_return = record {
  ctypes = text "long long" ∷ text "int64_t" ∷ text "long long int" ∷ [];
  c_error_return = text "return 0;";
  python_to_c = parse_first (text "L");
  c_to_python = build_first (text "L") plain;
}
