-- ===== src/Tests/Bindings.antt =====
-- The script of Binding.antt with a generator that keeps the names of the methods.
use memcache_router.Prelude.{List, [], ◌∷◌, ◌++◌, ◌≡◌, refl}
use memcache_router.Prelude.Text.{Text, text}
use memcache_router.Binding.{
  Pybindgen, my_module_gen, add_hosts, add_gets, add_sets, add_increments, add_tests,
}

abbrev keeper : Pybindgen
keeper = record {
  State = List Text;
  Class = Text;
  Output = List Text;
  new_module = λ name. [];
  add_include = λ file s. s;
  add_container = λ ctype value kind s. s;
  add_class = λ name allow s. (name, s);
  add_constructor = λ cl params s. s;
  add_method = λ cl name result params s. s ++ name ∷ [];
  generate = λ out_file s. s;
}

names_kept :
    my_module_gen keeper (text "out")
    ≡ text "reset_hosts"
      ∷ text "add_host"
      ∷ text "send_host_list"
      ∷ text "get"
      ∷ text "gets"
      ∷ text "get_multi"
      ∷ text "set"
      ∷ text "add"
      ∷ text "cas"
      ∷ text "incr"
      ∷ text "decr"
      ∷ text "Echo"
      ∷ text "Test"
      ∷ text "DecompressTest"
      ∷ []
unfolding my_module_gen add_hosts add_gets add_sets add_increments add_tests
names_kept = refl
