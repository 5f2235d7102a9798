-- ===== src/Codegen/Handlers/Classes.antt =====
-- All handlers of parameters, in three lists, and what the conversion of each class adds.
use memcache_router.Prelude.{List, [], ◌∷◌, none, some, ◌≡◌, refl, sym, ap, subst}
use memcache_router.Prelude.Text.{Text}
use memcache_router.Codegen.Result.{ok, ◌>>=◌}
use memcache_router.Codegen.Handlers.{
  Param, ParamHandler, base_ctype, target_of, target_text, asserted, shown, only_in,
}
use memcache_router.Codegen.Handlers.Shapes.{take_value}
use memcache_router.Codegen.Handlers.Ints.{
  int_param, unsigned_int_param, uint16_param, int16_param, uint8_param, int8_param,
  unsigned_long_long_param, unsigned_long_long_ref_param, unsigned_long_param,
  unsigned_long_ref_param, long_param, long_ref_param, size_t_param, long_long_param,
  long_long_ref_param,
}
use memcache_router.Codegen.Handlers.Reals.{
  bool_param, double_param, float_param, bool_ptr_param, bool_ref_param, double_ptr_param,
  double_ref_param, float_ref_param,
}
use memcache_router.Codegen.Handlers.Objects.{py_object_param, c_string_param, char_param}
use memcache_router.Codegen.Handlers.Strings.{
  std_string_param, std_string_ref_param, std_string_ptr_param,
}
use memcache_router.Codegen.Handlers.Glib.{
  glib_string_param, glib_string_ref_param, glib_string_ptr_param,
}
use memcache_router.Codegen.Handlers.Refs.{
  int_ptr_param, int_ref_param, unsigned_int_ref_param, uint16_ref_param, int16_ref_param,
  uint8_ref_param, int8_ref_param, int8_ptr_param, uint8_ptr_param, unsigned_int16_ptr_param,
}
use memcache_router.Codegen.Handlers.Refs.Array.{unsigned_int_ptr_param, float_ptr_param}
use memcache_router.Codegen.Handlers.Runs.{IsCtype}
use memcache_router.Codegen.Handlers.Count.{
  Takes, Handles, take_value-Takes, take_checked-Takes, take_variable-Handles, take_bool-Takes,
  take_bool_variable-Handles, take_double-Takes, take_required-Takes, take_c_string-Takes,
  take_object-Takes, IsCtype-double, IsCtype-int8_t, IsCtype-py_long_long, IsCtype-uint8_t,
  IsCtype-unsigned_int,
}
use memcache_router.Codegen.Handlers.Bytes.{
  std_string-Takes, std_string_ref-Handles, std_string_ptr-Handles, glib_string-Takes,
  glib_string_ref-Handles, glib_string_ptr-Handles,
}
use memcache_router.Codegen.Handlers.Arrays.{take_pointer_to-Handles}

abbrev pub value_handlers : List ParamHandler
value_handlers =
    int_param ∷ unsigned_int_param ∷ uint16_param ∷ int16_param ∷ uint8_param ∷ int8_param
    ∷ unsigned_long_long_param ∷ unsigned_long_long_ref_param ∷ unsigned_long_param
    ∷ unsigned_long_ref_param ∷ long_param ∷ long_ref_param ∷ size_t_param ∷ long_long_param
    ∷ long_long_ref_param ∷ bool_param ∷ double_param ∷ float_param ∷ py_object_param
    ∷ c_string_param ∷ char_param ∷ std_string_param ∷ glib_string_param ∷ []

abbrev pub variable_handlers : List ParamHandler
variable_handlers =
    int_ptr_param ∷ int_ref_param ∷ unsigned_int_ref_param ∷ uint16_ref_param ∷ int16_ref_param
    ∷ uint8_ref_param ∷ int8_ref_param ∷ int8_ptr_param ∷ uint8_ptr_param ∷ unsigned_int16_ptr_param
    ∷ unsigned_int_ptr_param ∷ float_ptr_param ∷ bool_ptr_param ∷ bool_ref_param ∷ double_ptr_param
    ∷ double_ref_param ∷ float_ref_param ∷ std_string_ref_param ∷ glib_string_ref_param ∷ []

-- The classes that take no default value.
abbrev pub pointer_handlers : List ParamHandler
pointer_handlers = std_string_ptr_param ∷ glib_string_ptr_param ∷ []

-- The C types of a parameter can be joined with names.
pub record IsTyped (p : Param) : Type 0 where
  pub whole : IsCtype p.ctype_no_const
  pub based : IsCtype (base_ctype p)
  pub behind : Text
  pub has_target : p.target ≡ some behind
  pub targeted : IsCtype behind

-- The target, where the handler asks for it.
target_of-ok : {p : Param} (t : IsTyped p) → target_of p ≡ ok t.behind
unfolding asserted
target_of-ok t = ap asserted t.has_target

target_text-IsCtype : {p : Param} → IsTyped p → IsCtype (target_text p)
unfolding shown
target_text-IsCtype {p} t = subst IsCtype (sym (ap shown t.has_target)) t.targeted

target-Takes :
    {p : Param}
    → IsTyped p
    → (template : Text) → Takes (λ w. target_of p >>= λ target. take_value target template p w)
target-Takes {p} t template w = rw (target_of-ok t) (take_value-Takes p _ template t.targeted w)

-- What holds of each handler of a list.
abbrev pub EachTakes : Param → List ParamHandler → Type 0
EachTakes p [] = Unit
EachTakes p (h ∷ hs) = Takes (h.python_to_c p) × EachTakes p hs

abbrev pub EachHandles : Param → List ParamHandler → Type 0
EachHandles p [] = Unit
EachHandles p (h ∷ hs) = Handles p (h.python_to_c p) × EachHandles p hs

abbrev pub EachIn : List ParamHandler → Type 0
EachIn [] = Unit
EachIn (h ∷ hs) = (h.directions ≡ only_in) × EachIn hs

pub value_handlers-Takes : (p : Param) → IsTyped p → EachTakes p value_handlers
unfolding int_param unsigned_int_param uint16_param int16_param uint8_param int8_param
    unsigned_long_long_param unsigned_long_long_ref_param unsigned_long_param
    unsigned_long_ref_param long_param long_ref_param size_t_param long_long_param
    long_long_ref_param bool_param double_param float_param py_object_param c_string_param
    char_param std_string_param glib_string_param
value_handlers-Takes p t = (
  take_value-Takes p _ _ t.whole,
  (
    take_value-Takes p _ _ IsCtype-unsigned_int,
    (
      take_checked-Takes p _,
      (
        take_checked-Takes p _,
        (
          take_checked-Takes p _,
          (
            take_checked-Takes p _,
            (
              take_value-Takes p _ _ t.whole,
              (
                target-Takes t _,
                (
                  take_value-Takes p _ _ t.whole,
                  (
                    target-Takes t _,
                    (
                      take_value-Takes p _ _ t.whole,
                      (
                        target-Takes t _,
                        (
                          take_value-Takes p _ _ IsCtype-py_long_long,
                          (
                            take_value-Takes p _ _ t.whole,
                            (
                              target-Takes t _,
                              (
                                take_bool-Takes p t.whole,
                                (
                                  take_double-Takes p t.whole,
                                  (
                                    take_required-Takes p _ _ t.whole,
                                    (
                                      take_object-Takes p t.whole,
                                      (
                                        take_c_string-Takes p t.whole,
                                        (
                                          take_required-Takes p _ _ t.whole,
                                          (std_string-Takes p, (glib_string-Takes p, tt)),
                                        ),
                                      ),
                                    ),
                                  ),
                                ),
                              ),
                            ),
                          ),
                        ),
                      ),
                    ),
                  ),
                ),
              ),
            ),
          ),
        ),
      ),
    ),
  ),
)

pub variable_handlers-Handles : (p : Param) → IsTyped p → EachHandles p variable_handlers
unfolding int_ptr_param int_ref_param unsigned_int_ref_param uint16_ref_param int16_ref_param
    uint8_ref_param int8_ref_param int8_ptr_param uint8_ptr_param unsigned_int16_ptr_param
    unsigned_int_ptr_param float_ptr_param bool_ptr_param bool_ref_param double_ptr_param
    double_ref_param float_ref_param std_string_ref_param glib_string_ref_param
variable_handlers-Handles p t = (
  take_variable-Handles p _ _ _ t.based,
  (
    take_variable-Handles p _ _ _ t.based,
    (
      take_variable-Handles p _ _ _ t.based,
      (
        take_variable-Handles p _ _ _ t.based,
        (
          take_variable-Handles p _ _ _ t.based,
          (
            take_variable-Handles p _ _ _ t.based,
            (
              take_variable-Handles p _ _ _ t.based,
              (
                take_variable-Handles p _ _ _ IsCtype-int8_t,
                (
                  take_variable-Handles p _ _ _ IsCtype-uint8_t,
                  (
                    take_variable-Handles p _ _ _ (target_text-IsCtype t),
                    (
                      take_pointer_to-Handles _ _ _ _ p (target_text-IsCtype t),
                      (
                        take_pointer_to-Handles _ _ _ _ p t.based,
                        (
                          take_bool_variable-Handles p _ t.based,
                          (
                            take_bool_variable-Handles p _ t.based,
                            (
                              take_variable-Handles p _ _ _ t.based,
                              (
                                take_variable-Handles p _ _ _ IsCtype-double,
                                (
                                  take_variable-Handles p _ _ _ t.based,
                                  (std_string_ref-Handles p, (glib_string_ref-Handles p, tt)),
                                ),
                              ),
                            ),
                          ),
                        ),
                      ),
                    ),
                  ),
                ),
              ),
            ),
          ),
        ),
      ),
    ),
  ),
)

pub value_handlers-EachIn : EachIn value_handlers
unfolding int_param unsigned_int_param uint16_param int16_param uint8_param int8_param
    unsigned_long_long_param unsigned_long_long_ref_param unsigned_long_param
    unsigned_long_ref_param long_param long_ref_param size_t_param long_long_param
    long_long_ref_param bool_param double_param float_param py_object_param c_string_param
    char_param std_string_param glib_string_param
value_handlers-EachIn = (
  refl,
  (
    refl,
    (
      refl,
      (
        refl,
        (
          refl,
          (
            refl,
            (
              refl,
              (
                refl,
                (
                  refl,
                  (
                    refl,
                    (
                      refl,
                      (
                        refl,
                        (
                          refl,
                          (
                            refl,
                            (
                              refl,
                              (refl, (refl, (refl, (refl, (refl, (refl, (refl, (refl, tt)))))))),
                            ),
                          ),
                        ),
                      ),
                    ),
                  ),
                ),
              ),
            ),
          ),
        ),
      ),
    ),
  ),
)

pub pointer_handlers-Handles : (p : Param) → p.default_value ≡ none → EachHandles p pointer_handlers
unfolding std_string_ptr_param glib_string_ptr_param
pointer_handlers-Handles p e = (std_string_ptr-Handles p e, (glib_string_ptr-Handles p e, tt))
