-- ===== src/Binding/Header.antt =====
-- The public declarations of class Client in cmrclient.h, and how modulegen.py follows them.
use memcache_router.Prelude.{true, List, [], ◌∷◌, Option, none, map, if◌then◌else◌}
use memcache_router.Prelude.Text.{Text, text, text_eq}
use memcache_router.Binding.{
  Parameter, ReturnValue, Pybindgen, param, param_kept, param_default, retval, retval_owned,
}

-- The types that the declarations use.
pub data CppType : Type 0 where
  void_type bool_type int_type uint64_type string_type string_ref vector_ref object_ptr : CppType

pub record Method : Type 0 where
  pub result : CppType
  pub name : Text
  pub params : List (CppType × Text)

-- The declarations but the destructor, and SetInternal, which the module does not have.
unfoldable pub constructor_params : List (CppType × Text)
constructor_params = (string_ref, text "id") ∷ []

unfoldable pub methods : List Method
methods =
    record { result = void_type; name = text "reset_hosts"; params = [] }
    ∷ record {
      result = void_type;
      name = text "add_host";
      params = (string_ref, text "hostname") ∷ (int_type, text "port") ∷ [];
    }
    ∷ record { result = void_type; name = text "send_host_list"; params = [] }
    ∷ record { result = object_ptr; name = text "get"; params = (string_ref, text "key") ∷ [] }
    ∷ record { result = object_ptr; name = text "gets"; params = (string_ref, text "key") ∷ [] }
    ∷ record {
      result = object_ptr;
      name = text "get_multi";
      params = (vector_ref, text "keys") ∷ [];
    }
    ∷ record {
      result = bool_type;
      name = text "set";
      params =
          (string_ref, text "key") ∷ (object_ptr, text "val") ∷ (uint64_type, text "time") ∷ [];
    }
    ∷ record {
      result = bool_type;
      name = text "add";
      params =
          (string_ref, text "key") ∷ (object_ptr, text "val") ∷ (uint64_type, text "time") ∷ [];
    }
    ∷ record {
      result = bool_type;
      name = text "cas";
      params =
          (string_ref, text "key")
          ∷ (object_ptr, text "val")
          ∷ (uint64_type, text "cas")
          ∷ (uint64_type, text "time")
          ∷ [];
    }
    ∷ record {
      result = uint64_type;
      name = text "incr";
      params = (string_ref, text "key") ∷ (int_type, text "offset") ∷ [];
    }
    ∷ record {
      result = uint64_type;
      name = text "decr";
      params = (string_ref, text "key") ∷ (int_type, text "offset") ∷ [];
    }
    ∷ record {
      result = string_type;
      name = text "Echo";
      params = (vector_ref, text "messages") ∷ [];
    }
    ∷ record { result = object_ptr; name = text "Test"; params = (object_ptr, text "obj") ∷ [] }
    ∷ record {
      result = string_type;
      name = text "DecompressTest";
      params = (string_ref, text "input") ∷ [];
    }
    ∷ []

-- What the generator is told of a type.
unfoldable pub spelled : CppType → Text
spelled void_type = text "void"
spelled bool_type = text "bool"
spelled int_type = text "int"
spelled uint64_type = text "uint64_t"
spelled string_type = text "std::string"
spelled string_ref = text "const std::string&"
spelled vector_ref = text "const std::vector<std::string>&"
spelled object_ptr = text "PyObject*"

-- The method `cas` has a parameter of its own name, which is cas_unique in Python.
unfoldable pub python_name : Text → Text
python_name name = if text_eq name (text "cas") then text "cas_unique" else name

-- A reference to an object is not handed over, and `time` can be left out.
unfoldable pub follow_param : CppType × Text → Parameter
follow_param (object_ptr, name) = param_kept (spelled object_ptr) name
follow_param (ctype, name) =
    if text_eq name (text "time")
    then param_default (spelled ctype) name (text "0")
    else param (spelled ctype) (python_name name)

-- The caller owns an object that is returned.
unfoldable pub follow_result : CppType → Option ReturnValue
follow_result void_type = none
follow_result object_ptr = retval_owned (spelled object_ptr)
follow_result ctype = retval (spelled ctype)

unfoldable pub add_methods :
    (lib : Pybindgen)
    → Pybindgen.Class lib
    → List Method
    → Pybindgen.State lib
    → Pybindgen.State lib
add_methods lib cl [] s = s
add_methods lib cl (m ∷ ms) s =
    add_methods lib cl ms
      (Pybindgen.add_method lib cl m.name (follow_result m.result) (map follow_param m.params) s)

-- The module with its class, which has no methods yet.
unfoldable pub class_made : (lib : Pybindgen) → Pybindgen.Class lib × Pybindgen.State lib
class_made lib = Pybindgen.add_class lib (text "Client") true (
    Pybindgen.add_container lib (text "std::vector<std::string>") (text "std::string")
      (text "vector")
      (Pybindgen.add_include lib (text "\"cmrclient.h\"")
        (Pybindgen.new_module lib (text "cmrclient"))))
