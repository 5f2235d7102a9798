-- ===== src/Codegen/Handlers/Wrapper.antt =====
-- Forward wrappers whose parameters have the handlers of this library.
use memcache_router.Prelude.Text.{Text}
use memcache_router.Prelude.{ℕ, ◌+◌, List, [], ◌∷◌, ◌≡◌, refl, arith, length}
use memcache_router.Codegen.Result.{ok, returns}
use memcache_router.Codegen.Forward.{Forward, Conversion, reset_code_generation_state}
use memcache_router.Codegen.Generate.{Parts, implemented, convert_all, get_py_method_def_flags}
use memcache_router.Codegen.Generate.Reset.{
  Keeps, AllKeep, PartsKeep, get_py_method_def_flags-reset,
}
use memcache_router.Codegen.Handlers.{Param, ParamHandler, goes_in, goes_out}
use memcache_router.Codegen.Handlers.Runs.{one_if, Runs, Adds-refl, Runs-bind, Runs-ok, Runs-cast}
use memcache_router.Codegen.Handlers.Registry.{IsAccepted, python_to_c-Runs}
use memcache_router.Codegen.Handlers.Classes.{IsTyped}

-- The parameters of a wrapper, each with its class.
abbrev pub Parameters : Type 0
Parameters = List (ParamHandler × Param)

unfoldable pub conversions : Parameters → List Conversion
conversions [] = []
conversions ((h, p) ∷ ps) = h.python_to_c p ∷ conversions ps

abbrev pub AreAccepted : Parameters → Type 0
AreAccepted [] = Unit
AreAccepted ((h, p) ∷ ps) = (IsTyped p × IsAccepted h p) × AreAccepted ps

-- How many parameters go in, and how many go out.
unfoldable pub count_in : Parameters → ℕ
count_in [] = 0
count_in ((h, p) ∷ ps) = one_if (goes_in p.direction) + count_in ps

unfoldable pub count_out : Parameters → ℕ
count_out [] = 0
count_out ((h, p) ∷ ps) = one_if (goes_out p.direction) + count_out ps

implemented-Runs :
    {c p b : ℕ} {w : Forward} (h : Conversion)
    → Runs c p b w (h w)
    → Runs c p b w (implemented (h w))
unfolding implemented
implemented-Runs h (v, e, a) = (v, rw e, a)

-- The conversion of all parameters does not raise, if their C types can be declared and their classes
-- accept them: the C call gets as many arguments as there are parameters, as many items are parsed
-- as go in, and as many are built as go out.
pub convert_all-Runs :
    (ps : Parameters) (w : Forward)
    → AreAccepted ps
    → Runs (length ps) (count_in ps) (count_out ps) w (convert_all (conversions ps) w)
unfolding convert_all conversions count_in count_out
convert_all-Runs [] w a = Runs-ok (Adds-refl w)
convert_all-Runs ((h, p) ∷ ps) w ((t, a), rest) = Runs-cast (omega arith) refl refl (
    Runs-bind (convert_all (conversions ps))
      (implemented-Runs (h.python_to_c p) (python_to_c-Runs h p w t a))
      λ v. convert_all-Runs ps v rest)

Keeps-Runs : (c p b : ℕ) (h : Conversion) → ((w : Forward) → Runs c p b w (h w)) → Keeps h
Keeps-Runs c p b h k w = let (v, e, a) = k w in rw e (returns a.same)

pub AllKeep-conversions : (ps : Parameters) → AreAccepted ps → AllKeep (conversions ps)
unfolding conversions
AllKeep-conversions [] a = tt
AllKeep-conversions ((h, p) ∷ ps) ((t, a), rest) = (
  Keeps-Runs _ _ _ (h.python_to_c p) (λ w. python_to_c-Runs h p w t a),
  AllKeep-conversions ps rest,
)

-- The parts of a wrapper whose parameters have these handlers.
abbrev pub parts_of : Parts → Parameters → Parts
parts_of parts ps = record parts { parameters = conversions ps }

PartsKeep-parts_of :
    (parts : Parts) (ps : Parameters)
    → PartsKeep parts
    → AreAccepted ps
    → PartsKeep (parts_of parts ps)
PartsKeep-parts_of parts ps k a = record {
  parameters = AllKeep-conversions ps a;
  before_call_hook = k.before_call_hook;
  generate_call = k.generate_call;
  convert_return = k.convert_return;
  before_return_hook = k.before_return_hook;
}

-- Asking for the flags of a wrapper whose parameters have handlers of the library leaves it in the state
-- to which a reset takes it, whatever the handlers wrote, if what the subclass writes is thrown away
-- by a reset.
pub get_py_method_def_flags-conversions :
    (parts : Parts) (ps : Parameters) (w w' : Forward) (flags : List Text)
    → PartsKeep parts
    → AreAccepted ps
    → w.meth_flags ≡ []
    → get_py_method_def_flags (parts_of parts ps) w ≡ ok (flags, w')
    → reset_code_generation_state w ≡ ok w'
get_py_method_def_flags-conversions parts ps w w' flags k a =
    get_py_method_def_flags-reset (parts_of parts ps) (PartsKeep-parts_of parts ps k a) w w' flags
