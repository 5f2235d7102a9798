-- ===== src/Codegen/Generate.antt =====
-- pybindgen/typehandlers/base.py, ForwardWrapperBase.generate_body: the code of a wrapper, from its
-- parts, and its way to a code sink.
pub mod Parse
pub mod Output
pub mod Reset
use memcache_router.Prelude.{
  ℕ, Bool, true, false, not, ◌&&◌, ◌||◌, List, [], ◌∷◌, ◌++◌, map, Option, none, some, ◌==◌,
  if◌then◌else◌,
}
use memcache_router.Prelude.Text.{Text, text, text_eq, text_eq, join}
use memcache_router.Codegen.Result.{
  Exception, Result, ok, raised, ◌>>=◌, not_implemented_error, code_generation_error, index_error,
  assertion_error, attribute_error,
}
use memcache_router.Codegen.Sink.{Sink, new_null, writeln, indent, unindent, flush_to, newline}
use memcache_router.Codegen.Block
use memcache_router.Codegen.Block.{
  CodeBlock, new_block, write_code, write_cleanup, write_error_check,
}
use memcache_router.Codegen.Names.{
  Scope, new_scope, clear_scope, reserve_variable, declare_variable,
}
use memcache_router.Codegen.Params.{
  ParseItem, BuildItem, quote, get_parameters, get_keywords, no_parameters, get_build_parameters,
}
use memcache_router.Codegen.Forward.{
  Forward, ReturnType, ForceParse, parse_tuple, parse_tuple_and_keywords, Deprecated, current,
  flagged, with_message, Conversion, is_given, declare, reset_code_generation_state,
}

-- What the subclass and the type handlers give to `generate_body`: `convert_python_to_c` of each
-- parameter, `_before_call_hook`, `generate_call`, `convert_c_to_python` of the return value and
-- `_before_return_hook`.
pub record Parts : Type 0 where
  pub parameters : List Conversion
  pub before_call_hook : Conversion
  pub generate_call : Conversion
  pub convert_return : Conversion
  pub before_return_hook : Conversion

-- `except NotImplementedError: raise CodeGenerationError`.
unfoldable pub implemented : Result Forward → Result Forward
implemented (ok w) = ok w
implemented (raised not_implemented_error) = raised code_generation_error
implemented (raised e) = raised e

unfoldable pub convert_all : List Conversion → Conversion
unfolding implemented
convert_all [] w = ok w
convert_all (c ∷ cs) w = do w' ← implemented (c w); convert_all cs w'

thread_state : Forward → Result (Option Text × Forward)
thread_state w =
    if w.unblock_threads
    then (do
      (v, w') ← declare w (text "PyThreadState*") (text "py_thread_state") (some (text "NULL")) none
      let code =
          newline
          ++ (text "if ("
              ++ (v
                  ++ (text ")"
                      ++ (newline
                          ++ (text "     PyEval_RestoreThread("
                              ++ (v ++ (text ");" ++ newline)))))))
      ok (some v, record w' { after_call = write_code w'.after_call code }))
    else ok (none, w)

save_thread : Option Text → Forward → Forward
save_thread none w = w
save_thread (some v) w =
    let code =
      newline
      ++ (text "if (PyEval_ThreadsInitialized ())"
          ++ (newline ++ (text "     " ++ (v ++ (text " = PyEval_SaveThread();" ++ newline))))) in
    record w { before_call = write_code w.before_call code }

message : Deprecated → Option Text
message current = none
message flagged = some (text "Deprecated")
message (with_message []) = none
message (with_message (c ∷ t)) = some (c ∷ t)

warn_deprecated_by : Option Text → Conversion
warn_deprecated_by none w = ok w
warn_deprecated_by (some msg) w = do
  let check = text "PyErr_Warn(PyExc_DeprecationWarning, (char *) \"" ++ (msg ++ text "\")")
  b ← write_error_check w.before_call (w.before_parse ∷ []) check none
  ok (record w { before_call = b })

-- `assert params[0][0] == '"'` and `params[0] = '(char *) ' + params[0]`.
unfoldable pub cast_first : List Text → Result (List Text)
cast_first [] = raised index_error
cast_first ([] ∷ ps) = raised index_error
cast_first ((c ∷ p) ∷ ps) =
    if c == b'"' then ok ((text "(char *) " ++ (c ∷ p)) ∷ ps) else raised assertion_error

abbrev pub commas : List Text → Text
commas = join (text ", ")

-- The check of `PyArg_ParseTuple` in `before_parse`.
write_parse_check : Text → List Text → Conversion
write_parse_check function arguments w = do
  b ←
      write_error_check w.before_parse []
        (text "!" ++ (function ++ (text "(" ++ (commas arguments ++ text ")")))) none
  ok (record w { before_parse = b })

add_flag : Text → Forward → Forward
add_flag flag w = record w { meth_flags = w.meth_flags ++ flag ∷ [] }

parse_positional : List Text → Conversion
unfolding write_parse_check
parse_positional params = write_parse_check (text "PyArg_ParseTuple") (text "args" ∷ params)

quoted : Text → Text
quoted t = quote ++ (t ++ quote)

rest_after_first : List Text → List Text
rest_after_first [] = []
rest_after_first (p ∷ ps) = ps

first_of_params : List Text → List Text
first_of_params [] = []
first_of_params (p ∷ ps) = p ∷ []

parse_keywords : List Text → List Text → Conversion
unfolding write_parse_check add_flag declare quoted rest_after_first first_of_params
parse_keywords params keywords w = do
  let table = text "{" ++ (commas (map quoted keywords ++ text "NULL" ∷ []) ++ text "}")
  (v, w1) ← declare w (text "const char *") (text "keywords") (some table) (some (text "[]"))
  w2 ←
      write_parse_check (text "PyArg_ParseTupleAndKeywords")
        (text "args"
          ∷ text "kwargs"
          ∷ (first_of_params params ++ (text "(char **) " ++ v) ∷ rest_after_first params))
        w1
  ok (add_flag (text "METH_KEYWORDS") w2)

forces_keywords : Option ForceParse → Bool
forces_keywords none = false
forces_keywords (some parse_tuple) = false
forces_keywords (some parse_tuple_and_keywords) = true

parse_with : List Text → Option (List Text) → Conversion
unfolding parse_positional parse_keywords forces_keywords
parse_with params none w =
    if forces_keywords w.force_parse then parse_keywords params [] w else parse_positional params w
parse_with params (some keywords) w = parse_keywords params keywords w

-- The part of `generate_body` between the call and the conversion of the return value.
unfoldable pub write_parse : Conversion
unfolding parse_with add_flag
write_parse w = do
  params ← get_parameters w.parse_params
  cast ← cast_first params
  keywords ← get_keywords w.parse_params
  (if not (no_parameters params) || is_given w.force_parse
      then parse_with cast keywords (add_flag (text "METH_VARARGS") w)
      else ok (add_flag (text "METH_NOARGS") w))

-- `py_retval` is built from the values that the conversions left.
build_retval : CodeBlock → List Text → Result CodeBlock
build_retval b params =
    let cast = cast_first params in
    if no_parameters params
    then ok (write_code (write_code b (text "Py_INCREF(Py_None);")) (text "py_retval = Py_None;"))
    else do
      ps ← cast
      ok (write_code b (text "py_retval = Py_BuildValue(" ++ (commas ps ++ text ");")))

predecessors : Forward → List CodeBlock
predecessors w = w.before_call ∷ w.before_parse ∷ []

finish_plain : Parts → Conversion
unfolding predecessors
finish_plain parts w =
    if no_parameters (get_build_parameters w.build_params false)
    then (do
      w1 ← parts.before_return_hook w
      ok (record w1 { after_call = write_cleanup w1.after_call (predecessors w1) }))
    else raised assertion_error

convert_return_value : Parts → Option ReturnType → Conversion
convert_return_value parts none w = ok w
convert_return_value parts (some r) w = implemented (parts.convert_return w)

finish_value : Parts → Conversion
unfolding convert_return_value build_retval predecessors
finish_value parts w = do
  w1 ← convert_return_value parts w.return_value w
  w2 ← parts.before_return_hook w1
  b ← build_retval w2.after_call (get_build_parameters w2.build_params false)
  let cleaned = write_cleanup b (predecessors w2)
  ok (record w2 { after_call = write_code cleaned (text "return py_retval;") })

-- From the conversion of the return value to the end of the code.
unfoldable pub finish : Parts → Conversion
unfolding finish_plain finish_value
finish parts w =
    if not (is_given w.return_value) && not w.have_return_value
    then finish_plain parts w
    else finish_value parts w

-- `block.sink.flush_to(code_sink)`.
unfoldable pub flush_block : CodeBlock → Sink → Result (CodeBlock × Sink)
flush_block b code_sink = do
  (emptied, sink') ← flush_to b.sink code_sink
  ok (record b { sink = emptied }, sink')

-- The end of `generate_body`: the wrapper's code goes to the code sink.
unfoldable pub write_out : Forward → Sink → Result (Forward × Sink)
write_out w code_sink = do
  (declared, sink1) ← flush_to w.scope.declarations code_sink
  (parse_block, sink2) ← flush_block w.before_parse (writeln sink1 [])
  (call_block, sink3) ← flush_block w.before_call sink2
  (after_block, sink4) ← flush_block w.after_call sink3
  ok (
    record w {
      scope = record w.scope { declarations = declared };
      before_parse = parse_block;
      before_call = call_block;
      after_call = after_block;
    },
    sink4,
  )

unfoldable pub generate_code : Parts → Conversion
unfolding thread_state warn_deprecated_by message save_thread
generate_code parts w = do
  (py_thread_state, w1) ← thread_state w
  w2 ← convert_all parts.parameters w1
  w3 ← warn_deprecated_by (message w2.deprecated) w2
  w4 ← parts.before_call_hook w3
  w5 ← parts.generate_call (save_thread py_thread_state w4)
  w6 ← write_parse w5
  finish parts w6

unfoldable pub generate_body : Parts → Forward → Sink → Result (Forward × Sink)
generate_body parts w code_sink = do
  generated ← generate_code parts w
  write_out generated code_sink

without : Text → List Text → List Text
without t [] = []
without t (u ∷ us) = let rest = without t us in if text_eq t u then rest else u ∷ rest

unique : List Text → List Text
unique [] = []
unique (t ∷ ts) = t ∷ without t (unique ts)

flags_or_reset : Parts → Forward → List Text → Result (List Text × Forward)
flags_or_reset parts w (f ∷ fs) = ok (unique (f ∷ fs), w)
flags_or_reset parts w [] = do
  (generated, _) ← generate_body parts w new_null
  clean ← reset_code_generation_state generated
  ok (unique generated.meth_flags, clean)

-- `get_py_method_def_flags`: the flags, each once, and the wrapper, reset if code was generated.
unfoldable pub get_py_method_def_flags : Parts → Forward → Result (List Text × Forward)
unfolding flags_or_reset unique without
get_py_method_def_flags parts w = flags_or_reset parts w w.meth_flags
