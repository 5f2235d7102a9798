-- ===== src/Codegen/Handlers/Registry.antt =====
-- What a call of `convert_python_to_c` of any class of parameters adds to a forward wrapper.
use memcache_router.Prelude.{
  Bool, true, false, ◌||◌, List, [], ◌∷◌, none, ◌≡◌, refl, sym, ap, subst, ◌∙◌, ◌⊎◌, inl, inr,
}
use memcache_router.Codegen.Forward.{Forward, Conversion}
use memcache_router.Codegen.Handlers.{
  Param, ParamHandler, Direction, direction_in, direction_out, direction_inout, goes_in, goes_out,
  only_in,
}
use memcache_router.Codegen.Handlers.Runs.{one_if, Runs}
use memcache_router.Codegen.Handlers.Count.{Takes, Handles}
use memcache_router.Codegen.Handlers.Classes.{
  value_handlers, variable_handlers, pointer_handlers, IsTyped, EachTakes, EachHandles, EachIn,
  value_handlers-Takes, variable_handlers-Handles, value_handlers-EachIn, pointer_handlers-Handles,
}

-- `direction in self.DIRECTIONS`.
same_direction : Direction → Direction → Bool
same_direction direction_in direction_in = true
same_direction direction_out direction_out = true
same_direction direction_inout direction_inout = true
same_direction d e = false

unfoldable pub allows : List Direction → Direction → Bool
unfolding same_direction
allows [] d = false
allows (e ∷ ds) d = same_direction e d || allows ds d

abbrev pub IsAmong : ParamHandler → List ParamHandler → Type 0
IsAmong h [] = ⊥
IsAmong h (g ∷ gs) = (h ≡ g) ⊎ IsAmong h gs

only_in-flags :
    (d : Direction) → allows only_in d ≡ true → (goes_in d ≡ true) × (goes_out d ≡ false)
unfolding allows
only_in-flags direction_in e = (refl, refl)
only_in-flags direction_out e = cc
only_in-flags direction_inout e = cc

Takes-Handles :
    (p : Param) (c : Conversion) → allows only_in p.direction ≡ true → Takes c → Handles p c
Takes-Handles p c e t w =
    let (i, o) = only_in-flags p.direction e in
    let (w', runs, adds) = t w in (w', runs, rw (i, o) adds)

-- A handler among those that take a value supports DIRECTION_IN alone.
value_handlers-Handles :
    (p : Param) (h : ParamHandler) (hs : List ParamHandler)
    → EachTakes p hs
    → EachIn hs
    → IsAmong h hs
    → allows h.directions p.direction ≡ true
    → Handles p (h.python_to_c p)
value_handlers-Handles p h [] t d m e = absurd m
value_handlers-Handles p h (g ∷ hs) (t, ts) (d, ds) (inl same) e =
    subst (λ x. Handles p (x.python_to_c p)) (sym same)
      (Takes-Handles p (g.python_to_c p) (ap (λ x. allows x p.direction) (sym d) ∙ (rw same at e))
        t)
value_handlers-Handles p h (g ∷ hs) (t, ts) (d, ds) (inr m) e =
    value_handlers-Handles p h hs ts ds m e

among-Handles :
    (p : Param) (h : ParamHandler) (hs : List ParamHandler)
    → EachHandles p hs
    → IsAmong h hs
    → Handles p (h.python_to_c p)
among-Handles p h [] t m = absurd m
among-Handles p h (g ∷ hs) (t, ts) (inl same) =
    subst (λ x. Handles p (x.python_to_c p)) (sym same) t
among-Handles p h (g ∷ hs) (t, ts) (inr m) = among-Handles p h hs ts m

-- A class that the constructor of a parameter accepts: its direction is one that the class has, and
-- a default value is given to no class that asserts that there is none.
pub data IsAccepted (h : ParamHandler) (p : Param) : Type 0 where
  by_value : IsAmong h value_handlers → allows h.directions p.direction ≡ true → IsAccepted h p
  by_variable : IsAmong h variable_handlers → IsAccepted h p
  by_pointer : IsAmong h pointer_handlers → p.default_value ≡ none → IsAccepted h p

-- `convert_python_to_c` of any class of parameters does not raise, if the C types of the parameter can
-- be declared. It adds one argument to the C call, one item to what is parsed if the parameter goes
-- in, and one to what is built if it goes out, and changes nothing that a reset keeps.
pub python_to_c-Runs :
    (h : ParamHandler) (p : Param) (w : Forward)
    → IsTyped p
    → IsAccepted h p
    → Runs 1 (one_if (goes_in p.direction)) (one_if (goes_out p.direction)) w (h.python_to_c p w)
python_to_c-Runs h p w t (by_value m e) =
    value_handlers-Handles p h value_handlers (value_handlers-Takes p t) value_handlers-EachIn m e w
python_to_c-Runs h p w t (by_variable m) =
    among-Handles p h variable_handlers (variable_handlers-Handles p t) m w
python_to_c-Runs h p w t (by_pointer m e) =
    among-Handles p h pointer_handlers (pointer_handlers-Handles p e) m w
