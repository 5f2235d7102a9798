-- ===== src/Codegen/Handlers/Glib.antt =====
-- pybindgen/typehandlers/stringtype.py: the handlers of Glib::ustring, whose bytes are UTF-8.
use memcache_router.Prelude.{Bool, false, [], ◌∷◌, ◌++◌, Option, none, some, if◌then◌else◌}
use memcache_router.Prelude.Text.{Text, text}
use memcache_router.Codegen.Result.{Result, ok, raised, ◌>>=◌, assertion_error}
use memcache_router.Codegen.Forward.{Forward, Conversion, declare}
use memcache_router.Codegen.Reverse.{ReverseWrapper, ReverseConversion}
use memcache_router.Codegen.Handlers.{
  Param, ParamHandler, ReturnHandler, only_in, all_directions, address, reverse_after,
  declare_reverse, goes_in, goes_out, when, add_parse, add_build, prepend_build, add_call,
  before_code, reverse_parse, reverse_build, reverse_before,
}
use memcache_router.Codegen.Handlers.Reals.{is_set}

-- `Glib::ustring(…)` around what Python gives, and the two pieces of it that Python takes.
built : Text → Text
built name = text "Glib::ustring(" ++ (name ++ text ")")

assigned : Text → Text → Text
assigned variable expression = variable ++ (text " = " ++ (expression ++ text ";"))

of_variable : Text → Text → Text
of_variable variable method = text "(" ++ (variable ++ (text ")" ++ method))

-- The two variables for the bytes that are passed to Python, and their assignment from `access`.
unfoldable pub give_bytes :
    (Text → Text) → Param → ReverseWrapper → Result (Text × Text × ReverseWrapper)
unfolding assigned
give_bytes access p w = do
  (ptr, w1) ← declare_reverse w (text "const char *") (p.name ++ text "_ptr") none
  (len_, w2) ← declare_reverse w1 (text "Py_ssize_t") (p.name ++ text "_len") none
  let w3 = reverse_before (assigned ptr (access (text "c_str()"))) w2
  let w4 = reverse_before (assigned len_ (access (text "bytes()"))) w3
  ok (ptr, len_, reverse_build (text "s#") (ptr ∷ len_ ∷ []) w4)

dot : Param → Text → Text
dot p method = text "(" ++ (p.value ++ (text ")." ++ method))

arrow : Param → Text → Text
arrow p method = p.value ++ (text "->" ++ method)

-- The variable that the bytes from Python go to, if it is not there yet.
unfoldable pub pointer_for : Option Text → Param → ReverseWrapper → Result (Text × ReverseWrapper)
pointer_for (some ptr) p w = ok (ptr, w)
pointer_for none p w = declare_reverse w (text "const char *") (p.name ++ text "_ptr") none

unfoldable pub give_out : Text → Option Text → Param → ReverseConversion
unfolding assigned built
give_out star ptr p w = do
  (v, w1) ← pointer_for ptr p w
  ok (
      reverse_after (assigned (star ++ p.value) (built v))
        (reverse_parse (text "et") (text "\"utf-8\"" ∷ address v ∷ []) (some p.value) w1))

-- A reference or pointer, by the direction.
unfoldable pub give_by_direction : Text → (Param → Text → Text) → Param → ReverseConversion
give_by_direction star access p w =
    if goes_in p.direction
    then (do
      (ptr, len_, w1) ← give_bytes (access p) p w
      (if goes_out p.direction then give_out star (some ptr) p w1 else ok w1))
    else if goes_out p.direction
    then give_out star none p w
    else ok w

delete_line : Text → Text
delete_line v = text "delete " ++ (v ++ text ";")

value_of : Option Text → Text → Text
unfolding built
value_of none name = built name
value_of (some d) name =
    text "(" ++ (name ++ (text " ? " ++ (built name ++ (text " : " ++ (d ++ text ")")))))

unfoldable pub take_string : Param → Conversion
unfolding value_of
take_string p w = do
  (name, w1) ←
      declare w (text "const char *") p.name
        (if is_set p.default_value then some (text "NULL") else none) none
  ok (
      add_call (value_of p.default_value name) (
        add_parse (text "et") (text "\"utf-8\"" ∷ address name ∷ []) (some p.value)
          (is_set p.default_value) w1))

-- The variable of the C++ class is set from what Python gives, and given to Python.
unfoldable pub read_bytes : Param → Text → Text → Forward → Forward
unfolding assigned built
read_bytes p variable name v =
    before_code (assigned variable (built name))
      (add_parse (text "et") (text "\"utf-8\"" ∷ address name ∷ []) (some p.value) false v)

unfoldable pub give_back : Text → Forward → Forward
unfolding of_variable
give_back variable =
    add_build (text "s#")
      (of_variable variable (text ".c_str()") ∷ of_variable variable (text ".bytes()") ∷ [])

unfoldable pub take_string_ref : Param → Conversion
take_string_ref p w = do
  (name, w1) ← declare w (text "const char *") p.name none none
  (name_std, w2) ← declare w1 (text "Glib::ustring") (p.name ++ text "_std") none none
  ok (
      when (goes_out p.direction) (give_back name_std)
        (when (goes_in p.direction) (read_bytes p name_std name) (add_call name_std w2)))

unfoldable pub declare_std : Bool → Text → Forward → Result ((Text × Text) × Forward)
declare_std owned name w =
    if owned
    then (do
      (v, w1) ←
          declare w (text "Glib::ustring*") (name ++ text "_std") (some (text "new Glib::ustring"))
            none
      ok ((v, text "*" ++ v), w1))
    else (do
      (v, w1) ← declare w (text "Glib::ustring") (name ++ text "_std") none none
      ok ((address v, v), w1))

unfoldable pub take_string_ptr : Param → Conversion
take_string_ptr p w = if is_set p.default_value then raised assertion_error else do
  (name, w1) ← declare w (text "const char *") p.name none none
  ((argument, value), w2) ← declare_std p.transfer_ownership p.name w1
  ok (
      when (goes_out p.direction) (give_back value)
        (when (goes_in p.direction) (read_bytes p value name) (add_call argument w2)))

string_to_c : Text → ReverseConversion
unfolding assigned built
string_to_c value w = do
  (ptr, w1) ← declare_reverse w (text "const char *") (text "retval_ptr") none
  ok (
      reverse_after (assigned value (built ptr))
        (reverse_parse (text "et") (text "\"utf-8\"" ∷ address ptr ∷ []) none w1))

give_value_bytes : (Text → Text) → Param → ReverseConversion
give_value_bytes access p w = do (_, _, w1) ← give_bytes access p w; ok w1

unfoldable pub glib_string_param : ParamHandler
unfolding give_value_bytes dot
glib_string_param = record {
  directions = only_in;
  ctypes = text "Glib::ustring" ∷ [];
  c_to_python = λ p. give_value_bytes (dot p) p;
  python_to_c = take_string;
}

unfoldable pub glib_string_ref_param : ParamHandler
unfolding dot
glib_string_ref_param = record {
  directions = all_directions;
  ctypes = text "Glib::ustring&" ∷ [];
  c_to_python = give_by_direction [] dot;
  python_to_c = take_string_ref;
}

give_string_ptr : Param → ReverseConversion
unfolding arrow delete_line
give_string_ptr p w = do
  w1 ← give_by_direction (text "*") arrow p w
  ok (when p.transfer_ownership (reverse_after (delete_line p.value)) w1)

unfoldable pub glib_string_ptr_param : ParamHandler
unfolding give_string_ptr
glib_string_ptr_param = record {
  directions = all_directions;
  ctypes = text "Glib::ustring*" ∷ [];
  c_to_python = give_string_ptr;
  python_to_c = take_string_ptr;
}

unfoldable pub glib_string_return : ReturnHandler
unfolding string_to_c of_variable
glib_string_return = record {
  ctypes = text "Glib::ustring" ∷ [];
  c_error_return = text "return Glib::ustring();";
  python_to_c = string_to_c;
  c_to_python = λ value w. ok (
      prepend_build (text "s#")
        (of_variable value (text ".c_str()") ∷ of_variable value (text ".bytes()") ∷ []) w);
}
