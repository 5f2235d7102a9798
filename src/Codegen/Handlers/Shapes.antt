-- ===== src/Codegen/Handlers/Shapes.antt =====
-- pybindgen/typehandlers: the bodies that many handlers have in common, with the C type, the template
-- and the expressions in which they differ.
use memcache_router.Prelude.{false, [], ◌∷◌, ◌++◌, none, some}
use memcache_router.Prelude.Text.{Text, text}
use memcache_router.Codegen.Result.{ok, ◌>>=◌}
use memcache_router.Codegen.Forward.{Conversion, declare}
use memcache_router.Codegen.Reverse.{ReverseConversion}
use memcache_router.Codegen.Handlers.{
  Param, goes_in, goes_out, is_true, address, when, add_parse, add_build, prepend_build, add_call,
  check_before, declare_reverse, reverse_parse, reverse_prepend, reverse_build, reverse_after,
  reverse_check, out_of_range,
}

-- A value that Python passes in.
unfoldable pub take_value : Text → Text → Param → Conversion
take_value ctype template p w = do
  (name, w1) ← declare w ctype p.name p.default_value none
  ok (
      add_call name
        (add_parse template (address name ∷ []) (some p.name) (is_true p.default_value) w1))

-- A value in an `int`, with a check of its range.
unfoldable pub take_checked : Text → Param → Conversion
take_checked limit p w = do
  (name, w1) ← declare w (text "int") p.name p.default_value none
  w2 ←
      check_before (name ++ (text " > " ++ limit)) out_of_range
        (add_parse (text "i") (address name ∷ []) (some p.name) (is_true p.default_value) w1)
  ok (add_call name w2)

-- A variable that the call gets, by `prefix`, and that is read or written by the direction.
unfoldable pub take_variable : Text → Text → Text → Param → Conversion
take_variable prefix ctype template p w = do
  (name, w1) ← declare w ctype p.name none none
  ok (
      when (goes_out p.direction) (add_build template (name ∷ [])) (
        when (goes_in p.direction) (add_parse template (address name ∷ []) (some p.name) false)
          (add_call (prefix ++ name) w1)))

-- A value that is passed to Python.
unfoldable pub give_value : Text → (Text → Text) → Param → ReverseConversion
give_value template expression p w = ok (reverse_build template (expression p.value ∷ []) w)

-- A reference or pointer, read behind `prefix` and written by the direction.
unfoldable pub give_variable : Text → Text → Param → ReverseConversion
give_variable prefix template p w = ok (
    when (goes_out p.direction) (reverse_parse template (p.value ∷ []) (some p.name))
      (when (goes_in p.direction) (reverse_build template ((prefix ++ p.value) ∷ [])) w))

-- Return values.
unfoldable pub parse_first : Text → Text → ReverseConversion
parse_first template value w = ok (reverse_prepend template (address value ∷ []) w)

unfoldable pub build_first : Text → (Text → Text) → Text → Conversion
build_first template expression value w = ok (prepend_build template (expression value ∷ []) w)

-- A return value through an `int` with a check of its range.
unfoldable pub parse_checked : (Text → Text) → Text → ReverseConversion
parse_checked test value w = do
  (tmp_var, w1) ← declare_reverse w (text "int") (text "tmp") none
  w2 ←
      reverse_check (test tmp_var) out_of_range
        (reverse_prepend (text "i") (address tmp_var ∷ []) w1)
  ok (reverse_after (value ++ (text " = " ++ (tmp_var ++ text ";"))) w2)

abbrev pub plain : Text → Text
plain v = v

-- `f(v)` and the like.
abbrev pub called : Text → Text → Text
called f v = f ++ (text "(" ++ (v ++ text ")"))

abbrev pub above : Text → Text → Text
above limit v = v ++ (text " > " ++ limit)

abbrev pub outside : Text → Text → Text → Text
outside high low v = above high v ++ (text " || " ++ (v ++ (text " < " ++ low)))
