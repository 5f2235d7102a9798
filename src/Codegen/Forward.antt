-- ===== src/Codegen/Forward.antt =====
-- pybindgen/typehandlers/base.py, class ForwardWrapperBase: the wrapper that Python calls.
--
-- A type handler writes code through methods that its class gives it, and a subclass gives the hooks
-- and the call: they are functions from the wrapper to the wrapper that may raise (`Parts`). Where a
-- method raises, the half-written state of the wrapper is dropped: its users reset it, or end.
-- `before_call` has the predecessor `before_parse`, and `after_call` has `before_call`.
pub mod Open
use memcache_router.Prelude.{
  ◌++◌, Bool, true, false, not, ◌&&◌, ◌||◌, List, [], Option, none, some, if◌then◌else◌,
}
use memcache_router.Prelude.Text.{Text, text, text_eq, join}
use memcache_router.Codegen.Result.{Result, ok, raised, ◌>>=◌, attribute_error}
use memcache_router.Codegen.Sink.{Sink, writeln, indent, unindent}
use memcache_router.Codegen.Block
use memcache_router.Codegen.Block.{
  CodeBlock, new_block, write_code, write_cleanup, write_error_check,
}
use memcache_router.Codegen.Names.{
  Scope, new_scope, clear_scope, reserve_variable, declare_variable,
}
use memcache_router.Codegen.Params.{ParseItem, BuildItem}

-- What the wrapper reads of the type handler of its return value.
pub record ReturnType : Type 0 where
  pub ctype : Text
  pub ctype_no_const : Text
  pub requires_assignment_constructor : Bool

pub data ForceParse : Type 0 where
  parse_tuple parse_tuple_and_keywords : ForceParse

pub data Deprecated : Type 0 where
  current : Deprecated
  flagged : Deprecated
  with_message : Text → Deprecated

pub record Forward : Type 0 where
  pub return_value : Option ReturnType
  pub have_return_value : Bool
  pub no_c_retval : Bool
  pub unblock_threads : Bool
  pub deprecated : Deprecated
  pub force_parse : Option ForceParse
  pub scope : Scope
  pub before_parse : CodeBlock
  pub before_call : CodeBlock
  pub after_call : CodeBlock
  pub build_params : List BuildItem
  pub parse_params : List ParseItem
  pub call_params : List Text
  pub meth_flags : List Text

abbrev pub is_given {ℓ} : {A : Type ℓ} → Option A → Bool
is_given none = false
is_given (some a) = true

abbrev pub Conversion : Type 0
Conversion = Forward → Result Forward

-- `self.declarations.declare_variable`, which gives the name that is used.
unfoldable pub declare : Forward → Text → Text → Option Text → Option Text → Result (Text × Forward)
declare w type_ name initializer array = do
  (varname, scope') ← declare_variable w.scope type_ name initializer array
  ok (varname, record w { scope = scope' })

declare_py_retval : Conversion
unfolding declare
declare_py_retval w =
    if is_given w.return_value || w.have_return_value
    then (do (_, w') ← declare w (text "PyObject*") (text "py_retval") none none; ok w')
    else ok w

declare_retval_of : Option ReturnType → Conversion
unfolding declare
declare_retval_of none w =
    if not w.no_c_retval && w.have_return_value then raised attribute_error else ok w
declare_retval_of (some r) w =
    if not w.no_c_retval
      && (not (text_eq r.ctype (text "void")) && not r.requires_assignment_constructor)
    then (do (_, w') ← declare w r.ctype_no_const (text "retval") none none; ok w')
    else ok w

reserve : Text → Forward → Forward
reserve name w = record w { scope = (reserve_variable w.scope name).1 }

unfoldable pub init_code_generation_state : Conversion
unfolding declare_py_retval declare_retval_of reserve
init_code_generation_state w = do
  w1 ← declare_py_retval w
  w2 ← declare_retval_of w.return_value w1
  ok (reserve (text "kwargs") (reserve (text "args") w2))

-- The state of a wrapper before any code is generated: the blocks keep their error returns.
unfoldable pub cleared : Forward → Forward
cleared w = record w {
  scope = clear_scope w.scope;
  before_parse = Block.clear w.before_parse;
  before_call = Block.clear w.before_call;
  after_call = Block.clear w.after_call;
  build_params = [];
  parse_params = [];
  call_params = [];
  meth_flags = [];
}

unfoldable pub reset_code_generation_state : Conversion
unfolding cleared
reset_code_generation_state w = init_code_generation_state (cleared w)

-- `__init__`.
unfoldable pub new_forward :
    Option ReturnType → Bool → Text → Text → Option ForceParse → Bool → Bool → Result Forward
new_forward return_value have parse_error_return error_return force_parse no_c_retval unblock =
    init_code_generation_state (record {
      return_value = return_value;
      have_return_value = have;
      no_c_retval = no_c_retval;
      unblock_threads = unblock;
      deprecated = current;
      force_parse = force_parse;
      scope = new_scope;
      before_parse = new_block parse_error_return;
      before_call = new_block parse_error_return;
      after_call = new_block error_return;
      build_params = [];
      parse_params = [];
      call_params = [];
      meth_flags = [];
    })

unfoldable pub set_parse_error_return : Forward → Text → Forward
set_parse_error_return w t = record w {
  before_parse = record w.before_parse { error_return = t };
  before_call = record w.before_call { error_return = t };
}

-- `wrapper_actual_name`, `wrapper_return` and `wrapper_args`, which a subclass has set.
pub record Prototype : Type 0 where
  pub actual_name : Text
  pub return_type : Text
  pub arguments : List Text

unfoldable pub return_line : Prototype → Bool → Text
return_line p add_static = if add_static then text "static " ++ p.return_type else p.return_type

unfoldable pub prototype_line : Prototype → Text
prototype_line p = p.actual_name ++ (text "(" ++ (join (text ", ") p.arguments ++ text ")"))

unfoldable pub write_open_wrapper : Prototype → Bool → Sink → Sink
write_open_wrapper p add_static code_sink =
    indent 4 (
      writeln (writeln (writeln code_sink (return_line p add_static)) (prototype_line p))
        (text "{"))

unfoldable pub write_close_wrapper : Sink → Result Sink
write_close_wrapper code_sink = do out ← unindent code_sink; ok (writeln out (text "}"))
