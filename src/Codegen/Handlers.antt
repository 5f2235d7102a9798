-- ===== src/Codegen/Handlers.antt =====
-- pybindgen/typehandlers: what the type handlers share. base.py: class Parameter, class ReturnValue;
-- and what the handlers do to a wrapper.
--
-- A handler is a pair of methods, for a wrapper that Python calls and for one that calls Python
-- (`Conversion`, `ReverseConversion`). The C types of a parameter, which the parser of C types gives,
-- are fields. The assertions on the class of the wrapper are its type.
pub mod Shapes
pub mod Ints
pub mod Refs
pub mod Reals
pub mod Strings
pub mod Glib
pub mod Objects
pub mod Runs
pub mod Count
pub mod Bytes
pub mod Arrays
pub mod Classes
pub mod Registry
pub mod Wrapper
use memcache_router.Prelude.{
  ℕ, Bool, true, false, List, [], ◌∷◌, ◌++◌, Option, none, some, if◌then◌else◌,
}
use memcache_router.Prelude.Text.{Text, text}
use memcache_router.Codegen.Result.{Result, ok, raised, ◌>>=◌, attribute_error, assertion_error}
use memcache_router.Codegen.Sink.{indent, unindent}
use memcache_router.Codegen.Block.{CodeBlock, write_code, write_error_check}
use memcache_router.Codegen.Names.{declare_variable}
use memcache_router.Codegen.Names.Decimal.{decimal}
use memcache_router.Codegen.Params.{ParseItem, BuildItem, add_parameter, add_build_parameter}
use memcache_router.Codegen.Forward.{Forward, Conversion, declare}
use memcache_router.Codegen.Reverse.{ReverseWrapper, ReverseConversion}

pub data Direction : Type 0 where
  direction_in direction_out direction_inout : Direction

-- `direction & DIRECTION_IN` and `direction & DIRECTION_OUT`.
abbrev pub goes_in : Direction → Bool
goes_in direction_in = true
goes_in direction_out = false
goes_in direction_inout = true

abbrev pub goes_out : Direction → Bool
goes_out direction_in = false
goes_out direction_out = true
goes_out direction_inout = true

-- `target` is the C type behind a pointer or a reference, if the type is one.
pub record Param : Type 0 where
  pub ctype_no_const : Text
  pub target : Option Text
  pub name : Text
  pub value : Text
  pub direction : Direction
  pub default_value : Option Text
  pub transfer_ownership : Bool
  pub array_length : Option ℕ

-- `bool(default_value)`.
abbrev pub is_true : Option Text → Bool
is_true none = false
is_true (some []) = false
is_true (some (c ∷ t)) = true

-- `ctype_no_const[:-1]`.
unfoldable pub without_last : Text → Text
without_last [] = []
without_last (c ∷ []) = []
without_last (c ∷ d ∷ t) = c ∷ without_last (d ∷ t)

abbrev pub base_ctype : Param → Text
base_ctype p = without_last p.ctype_no_const

abbrev pub address : Text → Text
address v = text "&" ++ v

abbrev pub parse_item : Text → List Text → Option Text → Bool → ParseItem
parse_item t vs n o = record { template = t; values = vs; name = n; is_optional = o }

abbrev pub build_item : Text → List Text → BuildItem
build_item t vs = record { template = t; values = vs; cancels_cleanup = none }

abbrev pub when {ℓ} : {A : Type ℓ} → Bool → (A → A) → A → A
when b f a = if b then f a else a

-- What a handler does to a forward wrapper.
unfoldable pub add_parse : Text → List Text → Option Text → Bool → Forward → Forward
add_parse t vs n o w = record w {
  parse_params = (add_parameter w.parse_params (parse_item t vs n o) false).1;
}

unfoldable pub add_build : Text → List Text → Forward → Forward
add_build t vs w = record w {
  build_params = add_build_parameter w.build_params (build_item t vs) false;
}

unfoldable pub prepend_build : Text → List Text → Forward → Forward
prepend_build t vs w = record w {
  build_params = add_build_parameter w.build_params (build_item t vs) true;
}

unfoldable pub add_call : Text → Forward → Forward
add_call v w = record w { call_params = w.call_params ++ v ∷ [] }

unfoldable pub before_code : Text → Forward → Forward
before_code code w = record w { before_call = write_code w.before_call code }

unfoldable pub after_code : Text → Forward → Forward
after_code code w = record w { after_call = write_code w.after_call code }

unfoldable pub check_before : Text → Text → Conversion
check_before test cleanup w = do
  b ← write_error_check w.before_call (w.before_parse ∷ []) test (some cleanup)
  ok (record w { before_call = b })

-- And to a reverse wrapper.
unfoldable pub declare_reverse :
    ReverseWrapper → Text → Text → Option Text → Result (Text × ReverseWrapper)
declare_reverse w type_ name initializer = do
  (varname, scope') ← declare_variable w.scope type_ name initializer none
  ok (varname, record w { scope = scope' })

unfoldable pub reverse_parse : Text → List Text → Option Text → ReverseWrapper → ReverseWrapper
reverse_parse t vs n w = record w {
  parse_params = (add_parameter w.parse_params (parse_item t vs n false) false).1;
}

unfoldable pub reverse_prepend : Text → List Text → ReverseWrapper → ReverseWrapper
reverse_prepend t vs w = record w {
  parse_params = (add_parameter w.parse_params (parse_item t vs none false) true).1;
}

unfoldable pub reverse_build : Text → List Text → ReverseWrapper → ReverseWrapper
reverse_build t vs w = record w {
  build_params = add_build_parameter w.build_params (build_item t vs) false;
}

unfoldable pub reverse_before : Text → ReverseWrapper → ReverseWrapper
reverse_before code w = record w { before_call = write_code w.before_call code }

unfoldable pub reverse_after : Text → ReverseWrapper → ReverseWrapper
reverse_after code w = record w { after_call = write_code w.after_call code }

unfoldable pub reverse_check : Text → Text → ReverseConversion
reverse_check test cleanup w = do
  b ← write_error_check w.after_call (w.before_call ∷ []) test (some cleanup)
  ok (record w { after_call = b })

-- The class of a parameter handler, and of a handler of return values, whose `value` is the variable
-- of the C return value.
pub record ParamHandler : Type 0 where
  pub directions : List Direction
  pub ctypes : List Text
  pub c_to_python : Param → ReverseConversion
  pub python_to_c : Param → Conversion

pub record ReturnHandler : Type 0 where
  pub ctypes : List Text
  pub c_error_return : Text
  pub python_to_c : Text → ReverseConversion
  pub c_to_python : Text → Conversion

abbrev pub only_in : List Direction
only_in = direction_in ∷ []

abbrev pub all_directions : List Direction
all_directions = direction_in ∷ direction_out ∷ direction_inout ∷ []

-- `str(self.type_traits.target)` where the code asserts that there is one.
unfoldable pub asserted : Option Text → Result Text
asserted none = raised assertion_error
asserted (some t) = ok t

abbrev pub target_of : Param → Result Text
target_of p = asserted p.target

-- The same where it does not.
unfoldable pub shown : Option Text → Text
shown none = text "None"
shown (some t) = t

abbrev pub target_text : Param → Text
target_text p = shown p.target

abbrev pub out_of_range : Text
out_of_range = text "PyErr_SetString(PyExc_ValueError, \"Out of range\");"
