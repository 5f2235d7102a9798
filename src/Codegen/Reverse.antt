-- ===== src/Codegen/Reverse.antt =====
-- pybindgen/typehandlers/base.py, class ReverseWrapperBase: a C function that calls into Python.
--
-- `generate_python_call` of the subclass and the methods of the type handlers are functions from the
-- wrapper to the wrapper that may raise (`ReverseParts`). What is fixed for a wrapper, the C types of
-- its return value and parameters, is part of the record. `after_call` has the predecessor
-- `before_call`. `emit` is the end of `generate`, which writes the function.
pub mod Function
use memcache_router.Prelude.{
  Bool, not, ◌&&◌, List, [], ◌∷◌, ◌++◌, Option, none, some, if◌then◌else◌,
}
use memcache_router.Prelude.Text.{Text, text, text_eq, join}
use memcache_router.Codegen.Result.{Result, ok, ◌>>=◌}
use memcache_router.Codegen.Sink.{Sink, writeln, indent, unindent, flush_to}
use memcache_router.Codegen.Block
use memcache_router.Codegen.Block.{
  CodeBlock, new_block, write_code, write_cleanup, write_error_check, add_cleanup_code,
}
use memcache_router.Codegen.Names.{
  Scope, new_scope, clear_scope, declare_variable, join_ctype_and_name,
}
use memcache_router.Codegen.Params.{ParseItem, BuildItem, get_parameters, no_parameters}
use memcache_router.Codegen.Generate.{commas, cast_first, flush_block}

pub record ReverseWrapper : Type 0 where
  pub no_gil_locking : Bool
  pub return_ctype : Text
  pub requires_assignment_constructor : Bool
  pub parameters : List (Text × Text)
  pub scope : Scope
  pub before_call : CodeBlock
  pub after_call : CodeBlock
  pub build_params : List BuildItem
  pub parse_params : List ParseItem

abbrev pub ReverseConversion : Type 0
ReverseConversion = ReverseWrapper → Result ReverseWrapper

pub record ReverseParts : Type 0 where
  pub convert_parameters : List ReverseConversion
  pub generate_python_call : ReverseConversion
  pub convert_return : ReverseConversion

declare_c : ReverseWrapper → Text → Text → Result (Text × ReverseWrapper)
declare_c w type_ name = do
  (varname, scope') ← declare_variable w.scope type_ name none none
  ok (varname, record w { scope = scope' })

unfoldable pub generate_gil_code : ReverseConversion
unfolding declare_c
generate_gil_code w = if w.no_gil_locking then ok w else do
  (v, w') ← declare_c w (text "PyGILState_STATE") (text "__py_gil_state")
  let ensure =
      v ++ text " = (PyEval_ThreadsInitialized() ? PyGILState_Ensure() : (PyGILState_STATE) 0);"
  let release = text "if (PyEval_ThreadsInitialized())\n    PyGILState_Release(" ++ (v ++ text ");")
  ok (record w' { before_call = (add_cleanup_code (write_code w'.before_call ensure) release).1 })

unfoldable pub reset_reverse_wrapper : ReverseConversion
reset_reverse_wrapper w = generate_gil_code (record w {
  scope = clear_scope w.scope;
  before_call = Block.clear w.before_call;
  after_call = Block.clear w.after_call;
  build_params = [];
  parse_params = [];
})

unfoldable pub set_error_return : ReverseWrapper → Text → ReverseWrapper
set_error_return w t = record w {
  before_call = record w.before_call { error_return = t };
  after_call = record w.after_call { error_return = t };
}

is_void : ReverseWrapper → Bool
is_void w = text_eq w.return_ctype (text "void")

declare_retval : ReverseConversion
unfolding declare_c is_void
declare_retval w =
    if not (is_void w) && not w.requires_assignment_constructor
    then (do (_, w') ← declare_c w w.return_ctype (text "retval"); ok w')
    else ok w

convert_each : List ReverseConversion → ReverseConversion
convert_each [] w = ok w
convert_each (c ∷ cs) w = do w' ← c w; convert_each cs w'

check_none : ReverseConversion
check_none w = do
  b ←
      write_error_check w.before_call [] (text "py_retval != Py_None")
        (some (text "PyErr_SetString(PyExc_TypeError, \"function/method should return None\");"))
  ok (record w { before_call = b })

parse_tuple_of : ReverseConversion
parse_tuple_of w = do
  params ← get_parameters w.parse_params
  cast ← cast_first params
  let tuple =
      write_code w.before_call (text "py_retval = Py_BuildValue((char*) \"(N)\", py_retval);")
  b ←
      write_error_check tuple []
        (text "!PyArg_ParseTuple(" ++ (commas (text "py_retval" ∷ cast) ++ text ")"))
        (some (text "PyErr_Print();"))
  ok (record w { before_call = b })

unfoldable pub parse_return : ReverseConversion
unfolding check_none parse_tuple_of
parse_return w = do
  params ← get_parameters w.parse_params
  (if no_parameters params then check_none w else parse_tuple_of w)

close_call : ReverseWrapper → ReverseWrapper
unfolding is_void
close_call w =
    let cleaned = write_cleanup w.after_call (w.before_call ∷ []) in
    record w {
      after_call = write_code cleaned (if is_void w then text "return;" else text "return retval;");
    }

-- `generate` up to its output.
unfoldable pub generate_reverse_code : ReverseParts → ReverseConversion
unfolding declare_c declare_retval convert_each close_call
generate_reverse_code parts w = do
  (_, w1) ← declare_c w (text "PyObject*") (text "py_retval")
  w2 ← declare_retval w1
  w3 ← convert_each parts.convert_parameters w2
  w4 ← parts.generate_python_call w3
  w5 ← parts.convert_return w4
  w6 ← parse_return w5
  ok (close_call w6)

unfoldable pub join_parameters : List (Text × Text) → Result (List Text)
join_parameters [] = ok []
join_parameters ((ctype, name) ∷ ps) = do
  p ← join_ctype_and_name ctype name
  rest ← join_parameters ps
  ok (p ∷ rest)

unfoldable pub function_line : Text → List Text → List Text → Text
function_line name params post =
    name ++ (text "(" ++ (commas params ++ (text ")" ++ join (text " ") ([] ∷ post))))

unfoldable pub emit :
    ReverseWrapper → Sink → Text → List Text → List Text → Result (ReverseWrapper × Sink)
emit w code_sink name modifiers post = do
  params ← join_parameters w.parameters
  let head = writeln code_sink (join (text " ") (modifiers ++ w.return_ctype ∷ []))
  let opened = writeln (writeln head (function_line name params post)) (text "{")
  (declared, sink1) ← flush_to w.scope.declarations (indent 4 opened)
  (call_block, sink2) ← flush_block w.before_call (writeln sink1 [])
  (after_block, sink3) ← flush_block w.after_call sink2
  out ← unindent sink3
  ok (
    record w {
      scope = record w.scope { declarations = declared };
      before_call = call_block;
      after_call = after_block;
    },
    writeln out (text "}"),
  )

unfoldable pub generate_reverse :
    ReverseParts
    → ReverseWrapper
    → Sink
    → Text
    → List Text
    → List Text
    → Result (ReverseWrapper × Sink)
generate_reverse parts w code_sink name modifiers post = do
  generated ← generate_reverse_code parts w
  emit generated code_sink name modifiers post
