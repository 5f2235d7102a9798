-- ===== src/Binding.antt =====
-- modulegen.py: the script that describes the Python module of the client to pybindgen.
--
-- pybindgen is the parameter `Pybindgen`: a call of it on the module or a class takes the state of the
-- generator and gives it back. An argument that the script leaves out is `none`.
pub mod Header
use memcache_router.Prelude.{Bool, true, false, List, [], ◌∷◌, Option, none, some}
use memcache_router.Prelude.Text.{Text, text}

pub record Parameter : Type 0 where
  pub ctype : Text
  pub name : Text
  pub transfer_ownership : Option Bool
  pub default_value : Option Text

pub record ReturnValue : Type 0 where
  pub ctype : Text
  pub caller_owns_return : Option Bool

pub record Pybindgen : Type 1 where
  pub State : Type 0
  pub Class : Type 0
  pub Output : Type 0
  pub new_module : Text → State
  pub add_include : Text → State → State
  pub add_container : Text → Text → Text → State → State
  pub add_class : Text → Bool → State → Class × State
  pub add_constructor : Class → List Parameter → State → State
  pub add_method : Class → Text → Option ReturnValue → List Parameter → State → State
  pub generate : Text → State → Output

abbrev pub param : Text → Text → Parameter
param ctype name = record {
  ctype = ctype;
  name = name;
  transfer_ownership = none;
  default_value = none;
}

abbrev pub param_kept : Text → Text → Parameter
param_kept ctype name = record (param ctype name) { transfer_ownership = some false }

abbrev pub param_default : Text → Text → Text → Parameter
param_default ctype name value = record (param ctype name) { default_value = some value }

abbrev pub retval : Text → Option ReturnValue
retval ctype = some (record { ctype = ctype; caller_owns_return = none })

abbrev pub retval_owned : Text → Option ReturnValue
retval_owned ctype = some (record { ctype = ctype; caller_owns_return = some true })

module _ (lib : Pybindgen) where
  open lib use {
    State, Class, Output, new_module, add_include, add_container, add_class, add_constructor,
    add_method, generate,
  }

  -- HOST setting functions.
  unfoldable pub add_hosts : Class → State → State
  add_hosts cl s0 =
      let s1 : State = add_method cl (text "reset_hosts") none ([]) s0 in
      let s2 : State =
        add_method cl (text "add_host") none
          ((param (text "const std::string&") (text "hostname"))
            ∷ (param (text "int") (text "port"))
            ∷ [])
          s1 in
      add_method cl (text "send_host_list") none ([]) s2

  -- GET functions.
  unfoldable pub add_gets : Class → State → State
  add_gets cl s0 =
      let s1 : State =
        add_method cl (text "get") (retval_owned (text "PyObject*"))
          ((param (text "const std::string&") (text "key")) ∷ []) s0 in
      let s2 : State =
        add_method cl (text "gets") (retval_owned (text "PyObject*"))
          ((param (text "const std::string&") (text "key")) ∷ []) s1 in
      add_method cl (text "get_multi") (retval_owned (text "PyObject*"))
        ((param (text "const std::vector<std::string>&") (text "keys")) ∷ []) s2

  -- SET functions.
  unfoldable pub add_sets : Class → State → State
  add_sets cl s0 =
      let s1 : State =
        add_method cl (text "set") (retval (text "bool"))
          ((param (text "const std::string&") (text "key"))
            ∷ (param_kept (text "PyObject*") (text "val"))
            ∷ (param_default (text "uint64_t") (text "time") (text "0"))
            ∷ [])
          s0 in
      let s2 : State =
        add_method cl (text "add") (retval (text "bool"))
          ((param (text "const std::string&") (text "key"))
            ∷ (param_kept (text "PyObject*") (text "val"))
            ∷ (param_default (text "uint64_t") (text "time") (text "0"))
            ∷ [])
          s1 in
      add_method cl (text "cas") (retval (text "bool"))
        ((param (text "const std::string&") (text "key"))
          ∷ (param_kept (text "PyObject*") (text "val"))
          ∷ (param (text "uint64_t") (text "cas_unique"))
          ∷ (param_default (text "uint64_t") (text "time") (text "0"))
          ∷ [])
        s2

  -- INCREMENT functions.
  unfoldable pub add_increments : Class → State → State
  add_increments cl s0 =
      let s1 : State =
        add_method cl (text "incr") (retval (text "uint64_t"))
          ((param (text "const std::string&") (text "key"))
            ∷ (param (text "int") (text "offset"))
            ∷ [])
          s0 in
      add_method cl (text "decr") (retval (text "uint64_t"))
        ((param (text "const std::string&") (text "key"))
          ∷ (param (text "int") (text "offset"))
          ∷ [])
        s1

  -- TEST functions.
  unfoldable pub add_tests : Class → State → State
  add_tests cl s0 =
      let s1 : State =
        add_method cl (text "Echo") (retval (text "std::string"))
          ((param (text "const std::vector<std::string>&") (text "messages")) ∷ []) s0 in
      let s2 : State =
        add_method cl (text "Test") (retval_owned (text "PyObject*"))
          ((param_kept (text "PyObject*") (text "obj")) ∷ []) s1 in
      add_method cl (text "DecompressTest") (retval (text "std::string"))
        ((param (text "const std::string&") (text "input")) ∷ []) s2

  unfoldable pub my_module_gen : Text → Output
  unfolding add_hosts add_gets add_sets add_increments add_tests
  my_module_gen out_file =
      let included : State = add_include (text "\"cmrclient.h\"") (new_module (text "cmrclient")) in
      let container : State =
        add_container (text "std::vector<std::string>") (text "std::string") (text "vector")
          included in
      let (cl, made) = add_class (text "Client") true container in
      let constructed : State =
        add_constructor cl (param (text "const std::string&") (text "id") ∷ []) made in
      generate out_file
        (add_tests cl (add_increments cl (add_sets cl (add_gets cl (add_hosts cl constructed)))))
