-- ===== src/Codegen/Handlers/Bytes.antt =====
-- What the handlers of std::string and Glib::ustring add to a forward wrapper.
use memcache_router.Prelude.{Bool, true, false, ◌++◌, none, ◌≡◌, refl, ap, arith}
use memcache_router.Prelude.Text.{Text, text}
use memcache_router.Codegen.Result.{ok, ◌>>=◌, bind_assoc}
use memcache_router.Codegen.Forward.{Forward}
use memcache_router.Codegen.Handlers.{Param, goes_in, goes_out, when, add_call, address}
use memcache_router.Codegen.Handlers.Reals.{is_set}
use memcache_router.Codegen.Handlers.Strings
use memcache_router.Codegen.Handlers.Glib
use memcache_router.Codegen.Handlers.Count.{
  Takes, Handles, IsCtype-const_char, IsCtype-py_ssize_t, IsCtype-std_string,
  IsCtype-std_string_ptr, IsCtype-glib_string, IsCtype-glib_string_ptr,
}
use memcache_router.Codegen.Handlers.Runs.{
  one_if, Adds, Adds-refl, Adds-add_call, Adds-add_parse, Adds-add_build, Adds-when_parse,
  Adds-when_build, Adds-before_code, Runs, Runs-ok, Runs-cast, declare-Runs,
}

module _ (p : Param) where
  pub std_string-Takes : Takes (Strings.take_string p)
  unfolding Strings.take_string
  std_string-Takes w = declare-Runs _ _ _ _ _ IsCtype-const_char (Adds-refl w) λ name v a.
      declare-Runs _ _ _ _ _ IsCtype-py_ssize_t a
        λ name_len u b. Runs-ok (Adds-add_call (Adds-add_parse b _ _ _ _) _)

  std_string_by_direction :
      (variable name name_len argument : Text) {w v : Forward}
      → Adds 0 0 0 w v
      → Runs 1 (one_if (goes_in p.direction)) (one_if (goes_out p.direction)) w (
          ok (
            when (goes_out p.direction) (Strings.give_back variable) (
              when
                (goes_in p.direction)
                (Strings.read_bytes p variable name name_len)
                (add_call argument v))))
  unfolding Strings.give_back Strings.read_bytes
  std_string_by_direction variable name name_len argument a =
      Runs-cast refl (omega arith) (omega arith) (
        Runs-ok (
          Adds-when_build (goes_out p.direction) (Strings.give_back variable)
            (Adds-when_parse (goes_in p.direction) (Strings.read_bytes p variable name name_len)
              (Adds-add_call a argument) λ u b. Adds-before_code (Adds-add_parse b _ _ _ _) _)
            λ u b. Adds-add_build b _ _))

  pub std_string_ref-Handles : Handles p (Strings.take_string_ref p)
  unfolding Strings.take_string_ref
  std_string_ref-Handles w = declare-Runs _ _ _ _ _ IsCtype-const_char (Adds-refl w) λ name v a.
      declare-Runs _ _ _ _ _ IsCtype-py_ssize_t a λ name_len u b.
        declare-Runs _ _ _ _ _ IsCtype-std_string b
          λ name_std x c. std_string_by_direction name_std name name_len name_std c

  std_string_ptr_from :
      (owned : Bool) (name name_len : Text) {w v : Forward}
      → Adds 0 0 0 w v
      → Runs 1 (one_if (goes_in p.direction)) (one_if (goes_out p.direction)) w (
          Strings.declare_std owned p.name v >>= λ x. ok (
            when (goes_out p.direction) (Strings.give_back x.0.1) (
              when
                (goes_in p.direction)
                (Strings.read_bytes p x.0.1 name name_len)
                (add_call x.0.0 x.1))))
  unfolding Strings.declare_std
  std_string_ptr_from true name name_len a = rw (← bind_assoc) (
      declare-Runs _ _ _ _ _ IsCtype-std_string_ptr a
        λ variable x c. std_string_by_direction (text "*" ++ variable) name name_len variable c)
  std_string_ptr_from false name name_len a = rw (← bind_assoc) (
      declare-Runs _ _ _ _ _ IsCtype-std_string a
        λ variable x c. std_string_by_direction variable name name_len (address variable) c)

  pub std_string_ptr-Handles : p.default_value ≡ none → Handles p (Strings.take_string_ptr p)
  unfolding Strings.take_string_ptr
  std_string_ptr-Handles none_set w = rw (ap is_set none_set) (
      declare-Runs _ _ _ _ _ IsCtype-const_char (Adds-refl w) λ name v a.
        declare-Runs _ _ _ _ _ IsCtype-py_ssize_t a
          λ name_len u b. std_string_ptr_from p.transfer_ownership name name_len b)

module _ (p : Param) where
  pub glib_string-Takes : Takes (Glib.take_string p)
  unfolding Glib.take_string
  glib_string-Takes w =
      declare-Runs _ _ _ _ _ IsCtype-const_char (Adds-refl w)
        λ name v a. Runs-ok (Adds-add_call (Adds-add_parse a _ _ _ _) _)

  glib_string_by_direction :
      (variable name argument : Text) {w v : Forward}
      → Adds 0 0 0 w v
      → Runs 1 (one_if (goes_in p.direction)) (one_if (goes_out p.direction)) w (
          ok (
            when
              (goes_out p.direction)
              (Glib.give_back variable)
              (when (goes_in p.direction) (Glib.read_bytes p variable name) (add_call argument v))))
  unfolding Glib.give_back Glib.read_bytes
  glib_string_by_direction variable name argument a = Runs-cast refl (omega arith) (omega arith) (
      Runs-ok (
        Adds-when_build (goes_out p.direction) (Glib.give_back variable)
          (Adds-when_parse (goes_in p.direction) (Glib.read_bytes p variable name)
            (Adds-add_call a argument) λ u b. Adds-before_code (Adds-add_parse b _ _ _ _) _)
          λ u b. Adds-add_build b _ _))

  pub glib_string_ref-Handles : Handles p (Glib.take_string_ref p)
  unfolding Glib.take_string_ref
  glib_string_ref-Handles w = declare-Runs _ _ _ _ _ IsCtype-const_char (Adds-refl w) λ name v a.
      declare-Runs _ _ _ _ _ IsCtype-glib_string a
        λ name_std x c. glib_string_by_direction name_std name name_std c

  glib_string_ptr_from :
      (owned : Bool) (name : Text) {w v : Forward}
      → Adds 0 0 0 w v
      → Runs 1 (one_if (goes_in p.direction)) (one_if (goes_out p.direction)) w (
          Glib.declare_std owned p.name v >>= λ x. ok (
            when
              (goes_out p.direction)
              (Glib.give_back x.0.1)
              (when (goes_in p.direction) (Glib.read_bytes p x.0.1 name) (add_call x.0.0 x.1))))
  unfolding Glib.declare_std
  glib_string_ptr_from true name a = rw (← bind_assoc) (
      declare-Runs _ _ _ _ _ IsCtype-glib_string_ptr a
        λ variable x c. glib_string_by_direction (text "*" ++ variable) name variable c)
  glib_string_ptr_from false name a = rw (← bind_assoc) (
      declare-Runs _ _ _ _ _ IsCtype-glib_string a
        λ variable x c. glib_string_by_direction variable name (address variable) c)

  pub glib_string_ptr-Handles : p.default_value ≡ none → Handles p (Glib.take_string_ptr p)
  unfolding Glib.take_string_ptr
  glib_string_ptr-Handles none_set w = rw (ap is_set none_set) (
      declare-Runs _ _ _ _ _ IsCtype-const_char (Adds-refl w)
        λ name v a. glib_string_ptr_from p.transfer_ownership name a)
