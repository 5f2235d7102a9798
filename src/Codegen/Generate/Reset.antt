-- ===== src/Codegen/Generate/Reset.antt =====
-- Generating code leaves the configuration of a wrapper as it was, so that a reset brings it back.
use memcache_router.Prelude.{
  false, List, [], ◌∷◌, Option, none, some, ◌≡◌, refl, sym, ap, subst, ◌∙◌, ◌||◌, ◌&&◌, not,
}
use memcache_router.Prelude.Text.{Text, text}
use memcache_router.Codegen.Result.{
  Result, ok, raised, not_implemented_error, ◌>>=◌, Post, returns, raises, Post-bind, Post-bind_any,
  Post-if, Post-weaken, Post-result,
}
use memcache_router.Codegen.Sink.{Sink, flush_to, new_null}
use memcache_router.Codegen.Names.{declare_variable}
use memcache_router.Codegen.Params.{
  get_parameters, get_keywords, no_parameters, get_build_parameters,
}
use memcache_router.Codegen.Block
use memcache_router.Codegen.Block.{CodeBlock, write_code, write_cleanup, write_error_check}
use memcache_router.Codegen.Block.Checks.{write_error_check_lem}
use memcache_router.Codegen.Forward.{
  Forward, ReturnType, is_given, Conversion, cleared, declare, init_code_generation_state,
  reset_code_generation_state,
}
use memcache_router.Codegen.Generate.{
  forces_keywords, cast_first, Parts, implemented, convert_all, thread_state, save_thread,
  warn_deprecated_by, write_parse_check, add_flag, parse_positional, parse_keywords, parse_with,
  write_parse, build_retval, finish_plain, finish_value, convert_return_value, finish,
  generate_code, write_out, generate_body, flush_block, get_py_method_def_flags, flags_or_reset,
}

-- A wrapper that a reset takes to the same state.
abbrev pub Same : Forward → Forward → Type 0
Same w w' = cleared w' ≡ cleared w

-- A step that changes only what a reset throws away.
abbrev pub Keeps : Conversion → Type 0
Keeps c = (w : Forward) → Post (Same w) (c w)

abbrev pub AllKeep : List Conversion → Type 0
AllKeep [] = Unit
AllKeep (c ∷ cs) = Keeps c × AllKeep cs

-- One step behind another.
Post-then : (w v : Forward) (c : Conversion) → Keeps c → Same w v → Post (Same w) (c v)
Post-then w v c k e = Post-weaken (λ w' h. h ∙ e) (k v)

Post-implemented :
    (w : Forward) (r : Result Forward) → Post (Same w) r → Post (Same w) (implemented r)
unfolding implemented
Post-implemented w (ok v) (returns p) = returns p
Post-implemented w (raised not_implemented_error) p = raises
Post-implemented w (raised e) p = raises

Keeps-convert_all : (cs : List Conversion) → AllKeep cs → Keeps (convert_all cs)
unfolding convert_all
Keeps-convert_all [] k w = returns refl
Keeps-convert_all (c ∷ cs) (k, ks) w =
    Post-bind (implemented (c w)) (convert_all cs) (Post-implemented w (c w) (k w))
      λ v e. Post-then w v (convert_all cs) (Keeps-convert_all cs ks) e

Post-declare :
    (w : Forward) (t n : Text) (i a : Option Text)
    → Post (λ (p : Text × Forward). Same w p.1) (declare w t n i a)
unfolding declare cleared
Post-declare w t n i a = Post-bind_any (declare_variable w.scope t n i a) _ (λ p. returns refl)

Post-thread_state :
    (w : Forward) → Post (λ (p : Option Text × Forward). Same w p.1) (thread_state w)
unfolding thread_state cleared write_code Block.clear
Post-thread_state w =
    Post-if w.unblock_threads _ _ (Post-bind _ _ (Post-declare w _ _ _ _) (λ p e. returns e))
      (returns refl)

cleared-save_thread : (v : Option Text) (w : Forward) → Same w (save_thread v w)
unfolding save_thread cleared write_code Block.clear
cleared-save_thread none w = refl
cleared-save_thread (some v) w = refl

Keeps-warn : (m : Option Text) → Keeps (warn_deprecated_by m)
unfolding warn_deprecated_by cleared Block.clear
Keeps-warn none w = returns refl
Keeps-warn (some m) w = rw write_error_check_lem (returns refl)

Keeps-write_parse_check : (f : Text) (args : List Text) → Keeps (write_parse_check f args)
unfolding write_parse_check cleared Block.clear
Keeps-write_parse_check f args w = rw write_error_check_lem (returns refl)

Keeps-add_flag : (flag : Text) (w v : Forward) → Same w v → Same w (add_flag flag v)
unfolding add_flag cleared
Keeps-add_flag flag w v e = e

Keeps-parse_keywords : (params ks : List Text) → Keeps (parse_keywords params ks)
unfolding parse_keywords
Keeps-parse_keywords params ks w = Post-bind _ _ (Post-declare w _ _ _ _) λ p e.
    Post-bind _ _ (Post-then w p.1 _ (Keeps-write_parse_check _ _) e)
      λ v h. returns (Keeps-add_flag _ w v h)

Keeps-parse_positional : (params : List Text) → Keeps (parse_positional params)
unfolding parse_positional
Keeps-parse_positional params = Keeps-write_parse_check _ _

Keeps-parse_with : (params : List Text) (ks : Option (List Text)) → Keeps (parse_with params ks)
unfolding parse_with
Keeps-parse_with params none w =
    Post-if (forces_keywords w.force_parse) _ _ (Keeps-parse_keywords params [] w)
      (Keeps-parse_positional params w)
Keeps-parse_with params (some ks) w = Keeps-parse_keywords params ks w

Keeps-write_parse : Keeps write_parse
unfolding write_parse
Keeps-write_parse w = Post-bind_any (get_parameters w.parse_params) _ λ params.
    Post-bind_any (cast_first params) _ λ cast. Post-bind_any (get_keywords w.parse_params) _ λ ks.
      Post-if (not (no_parameters params) || is_given w.force_parse) _ _
        (Post-then w _ _ (Keeps-parse_with cast ks) (Keeps-add_flag (text "METH_VARARGS") w w refl))
        (returns (Keeps-add_flag (text "METH_NOARGS") w w refl))

-- What the subclass and the type handlers write is thrown away by a reset.
pub record PartsKeep (parts : Parts) : Type 0 where
  pub parameters : AllKeep parts.parameters
  pub before_call_hook : Keeps parts.before_call_hook
  pub generate_call : Keeps parts.generate_call
  pub convert_return : Keeps parts.convert_return
  pub before_return_hook : Keeps parts.before_return_hook

SameBlock : CodeBlock → CodeBlock → Type 0
SameBlock b c = Block.clear c ≡ Block.clear b

Post-build_retval :
    (b : CodeBlock) (params : List Text) → Post (SameBlock b) (build_retval b params)
unfolding build_retval SameBlock write_code Block.clear
Post-build_retval b params =
    Post-if (no_parameters params) _ _ (returns refl)
      (Post-bind_any (cast_first params) _ λ ps. returns refl)

Post-flush_block :
    (b : CodeBlock) (sink : Sink)
    → Post (λ (p : CodeBlock × Sink). SameBlock b p.0) (flush_block b sink)
unfolding flush_block SameBlock Block.clear
Post-flush_block b sink = Post-bind_any (flush_to b.sink sink) _ λ p. returns refl

Post-write_out :
    (w : Forward) (sink : Sink) → Post (λ (p : Forward × Sink). Same w p.0) (write_out w sink)
unfolding write_out cleared SameBlock
Post-write_out w sink = Post-bind_any (flush_to w.scope.declarations sink) _ λ d.
    Post-bind _ _ (Post-flush_block w.before_parse _) λ p ep.
      Post-bind _ _ (Post-flush_block w.before_call _) λ c ec.
        Post-bind _ _ (Post-flush_block w.after_call _) λ a ea.
          returns
            λ i. record (cleared w) { before_parse = ep i; before_call = ec i; after_call = ea i }

Same-reset :
    (w v : Forward) → Same w v → reset_code_generation_state v ≡ reset_code_generation_state w
unfolding reset_code_generation_state
Same-reset w v e = ap init_code_generation_state e

Post-clean :
    (flags : List Text) (w : Forward) (r : Result Forward)
    → reset_code_generation_state w ≡ r
    → Post
        (λ (p : List Text × Forward). reset_code_generation_state w ≡ ok p.1)
        (r >>= λ clean. ok (flags, clean))
Post-clean flags w (ok v) e = returns e
Post-clean flags w (raised x) e = raises

module _ (parts : Parts) (k : PartsKeep parts) where
  Keeps-finish_plain : Keeps (finish_plain parts)
  unfolding finish_plain write_cleanup cleared Block.clear
  Keeps-finish_plain w =
      Post-if (no_parameters (get_build_parameters w.build_params false)) _ _
        (Post-bind (parts.before_return_hook w) _ (k.before_return_hook w) λ v e. returns e) raises

  Keeps-convert_return_value : (r : Option ReturnType) → Keeps (convert_return_value parts r)
  unfolding convert_return_value
  Keeps-convert_return_value none w = returns refl
  Keeps-convert_return_value (some r) w = Post-implemented w _ (k.convert_return w)

  Keeps-finish_value : Keeps (finish_value parts)
  unfolding finish_value write_cleanup write_code cleared Block.clear SameBlock
  Keeps-finish_value w = Post-bind _ _ (Keeps-convert_return_value w.return_value w) λ w1 e1.
      Post-bind _ _ (Post-then w w1 _ k.before_return_hook e1) λ w2 e2.
        Post-bind _ _ (Post-build_retval w2.after_call _)
          λ b eb. returns (ap (λ c. record (cleared w2) { after_call = c }) eb ∙ e2)

  Keeps-finish : Keeps (finish parts)
  unfolding finish
  Keeps-finish w =
      Post-if (not (is_given w.return_value) && not w.have_return_value) _ _ (Keeps-finish_plain w)
        (Keeps-finish_value w)

  Keeps-generate_code : Keeps (generate_code parts)
  unfolding generate_code
  Keeps-generate_code w = Post-bind _ _ (Post-thread_state w) λ p e1.
      Post-bind _ _ (Post-then w p.1 _ (Keeps-convert_all _ k.parameters) e1) λ w2 e2.
        Post-bind _ _ (Post-then w w2 _ (Keeps-warn _) e2) λ w3 e3.
          Post-bind _ _ (Post-then w w3 _ k.before_call_hook e3) λ w4 e4.
            Post-bind _ _
              (Post-then w (save_thread p.0 w4) _ k.generate_call (cleared-save_thread p.0 w4 ∙ e4))
              λ w5 e5.
                Post-bind _ _ (Post-then w w5 _ Keeps-write_parse e5)
                  λ w6 e6. Post-then w w6 _ Keeps-finish e6

  Post-generate_body :
      (w : Forward) (sink : Sink)
      → Post (λ (p : Forward × Sink). Same w p.0) (generate_body parts w sink)
  unfolding generate_body
  Post-generate_body w sink =
      Post-bind _ _ (Keeps-generate_code w)
        λ v e. Post-weaken (λ p h. h ∙ e) (Post-write_out v sink)

  Post-generated_flags :
      (w : Forward)
      → Post
          (λ (p : List Text × Forward). reset_code_generation_state w ≡ ok p.1)
          (flags_or_reset parts w [])
  unfolding flags_or_reset
  Post-generated_flags w =
      Post-bind _ _ (Post-generate_body w new_null)
        λ p e. Post-clean _ _ _ (sym (Same-reset w p.0 e))

  -- Asking for the flags of a wrapper that has none yet generates its code and throws it away: if
  -- the type handlers and hooks change only what a reset throws away, the wrapper is left in the
  -- state to which a reset takes it.
  pub get_py_method_def_flags-reset :
      (w w' : Forward) (flags : List Text)
      → w.meth_flags ≡ []
      → get_py_method_def_flags parts w ≡ ok (flags, w')
      → reset_code_generation_state w ≡ ok w'
  unfolding get_py_method_def_flags
  get_py_method_def_flags-reset w w' flags none_yet e =
      Post-result (Post-generated_flags w)
        (subst (λ fs. flags_or_reset parts w fs ≡ ok (flags, w')) none_yet e)
