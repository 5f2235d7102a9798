-- ===== src/Codegen/Handlers/Arrays.antt =====
-- What the handlers of arrays add to a forward wrapper: their blocks are closed again.
use memcache_router.Prelude.{
  ℕ, ◌+◌, Bool, true, false, List, [], ◌∷◌, ◌++◌, Option, none, some, ◌≡◌, refl, if◌then◌else◌,
}
use memcache_router.Prelude.Text.{Text, text}
use memcache_router.Codegen.Result.{ok, ◌>>=◌}
use memcache_router.Codegen.Sink.Lines.{added, added-added, writeln-added}
use memcache_router.Codegen.Block.{write_code}
use memcache_router.Codegen.Block.Checks.{write_error_check_lem, unindent-added-indent}
use memcache_router.Codegen.Forward.{Forward}
use memcache_router.Codegen.Handlers.{
  Param, goes_in, goes_out, add_build, before_code, after_code, check_before,
}
use memcache_router.Codegen.Handlers.Refs.Array.{
  ArrayCode, indent_before, unindent_before, indent_after, unindent_after, read_array, write_array,
  take_array, take_pointer_to,
}
use memcache_router.Codegen.Handlers.Count.{
  Handles, take_variable-Handles, IsCtype-int, IsCtype-py_object,
}
use memcache_router.Codegen.Handlers.Runs.{
  IsCtype, one_if, Adds, Adds-refl, Adds-add_call, Adds-add_parse, Adds-add_build, Adds-before_code,
  Adds-after_code, Adds-before_call, Adds-after_call, Runs, Runs-ok, declare-Runs,
  check_before-Runs,
}

-- Some lines more in the code before or after the call.
abbrev grow_before : List Text → Forward → Forward
grow_before ls w = record w {
  before_call = record w.before_call { sink = added w.before_call.sink ls };
}

abbrev grow_after : List Text → Forward → Forward
grow_after ls w = record w {
  after_call = record w.after_call { sink = added w.after_call.sink ls };
}

before_code-grows :
    (t : Text) (w : Forward) → (ls : List Text) × (before_code t w ≡ grow_before ls w)
unfolding before_code write_code
before_code-grows t w = rw writeln-added (_, refl)

after_code-grows : (t : Text) (w : Forward) → (ls : List Text) × (after_code t w ≡ grow_after ls w)
unfolding after_code write_code
after_code-grows t w = rw writeln-added (_, refl)

check_before-grows :
    (t e : Text) (w : Forward) → (ls : List Text) × (check_before t e w ≡ ok (grow_before ls w))
unfolding check_before
check_before-grows t e w = rw write_error_check_lem (_, refl)

unindent_before-grows :
    (ls ms ns : List Text) (w : Forward)
    → unindent_before (grow_before ns (grow_before ms (grow_before ls (indent_before w))))
      ≡ ok (grow_before (ls ++ (ms ++ ns)) w)
unfolding unindent_before indent_before
unindent_before-grows ls ms ns w = rw (added-added, added-added, unindent-added-indent)

unindent_after-grows :
    (ls : List Text) (w : Forward)
    → unindent_after (grow_after ls (indent_after w)) ≡ ok (grow_after ls w)
unfolding unindent_after indent_after
unindent_after-grows ls w = rw unindent-added-indent

-- The loop that reads the elements.
reading-Runs :
    {c p b : ℕ} {w v : Forward} (item t e assignment close : Text)
    → Adds c p b w v
    → Runs c p b w (
        check_before t e (before_code item (indent_before v)) >>= λ x.
        (unindent_before (before_code assignment x) >>= λ y. ok (before_code close y)))
reading-Runs {v = v} item t e assignment close a =
    let inner = indent_before v in
    let (l1, e1) = before_code-grows item inner in
    let (l2, e2) = check_before-grows t e (grow_before l1 inner) in
    let (l3, e3) = before_code-grows assignment (grow_before l2 (grow_before l1 inner)) in
    rw (e1, e2, e3, unindent_before-grows l1 l2 l3 v)
      (Runs-ok (Adds-before_code (Adds-before_call _ a) close))

-- The loop that writes them.
writing-Runs :
    {c p b : ℕ} {w v : Forward} (item close list : Text)
    → Adds c p b w v
    → Runs c p (b + 1) w (
        unindent_after (after_code item (indent_after v)) >>= λ y.
        ok (add_build (text "N") (list ∷ []) (after_code close y)))
writing-Runs {v = v} item close list a =
    let (l1, e1) = after_code-grows item (indent_after v) in
    rw (e1, unindent_after-grows l1 v)
      (Runs-ok (Adds-add_build (Adds-after_code (Adds-after_call _ a) close) _ _))

module _ (c : ArrayCode) (p : Param) (n : ℕ) where
  read_array-Runs :
      (name py_list idx : Text) {w v : Forward}
      → Adds 1 0 0 w v
      → Runs 1 1 0 w (read_array c p n name py_list idx v)
  unfolding read_array
  read_array-Runs name py_list idx a = declare-Runs _ _ _ _ _ IsCtype-py_object a λ elem u b.
      check_before-Runs _ _ _ (Adds-add_parse b _ _ _ _)
        λ x d. reading-Runs _ _ _ _ _ (Adds-before_code d _)

  write_array-Runs :
      (name py_list idx : Text) {k : ℕ} {w v : Forward}
      → Adds 1 k 0 w v
      → Runs 1 k 1 w (write_array c n name py_list idx v)
  unfolding write_array
  write_array-Runs name py_list idx a = writing-Runs _ _ _ (Adds-after_code (Adds-after_code a _) _)

  reads :
      (flag : Bool) (name py_list idx : Text) {w v : Forward}
      → Adds 1 0 0 w v
      → Runs 1 (one_if flag) 0 w (if flag then read_array c p n name py_list idx v else ok v)
  reads true name py_list idx a = read_array-Runs name py_list idx a
  reads false name py_list idx a = Runs-ok a

  writes :
      (flag : Bool) (name py_list idx : Text) {k : ℕ} {w v : Forward}
      → Adds 1 k 0 w v
      → Runs 1 k (one_if flag) w (if flag then write_array c n name py_list idx v else ok v)
  writes true name py_list idx a = write_array-Runs name py_list idx a
  writes false name py_list idx a = Runs-ok a

  take_array-Handles : (ctype : Text) → IsCtype ctype → Handles p (take_array c ctype p n)
  unfolding take_array
  take_array-Handles ctype j w = declare-Runs _ _ _ _ _ j (Adds-refl w) λ name v a.
      declare-Runs _ _ _ _ _ IsCtype-py_object a λ py_list u b.
        declare-Runs _ _ _ _ _ IsCtype-int b λ idx x d.
          let (y, runs, e) = reads (goes_in p.direction) name py_list idx (Adds-add_call d name) in
          rw runs (writes (goes_out p.direction) name py_list idx e)

pub take_pointer_to-Handles :
    (length : Option ℕ) (c : ArrayCode) (ctype template : Text) (p : Param)
    → IsCtype ctype
    → Handles p (take_pointer_to length c ctype template p)
unfolding take_pointer_to
take_pointer_to-Handles none c ctype template p j = take_variable-Handles p _ ctype template j
take_pointer_to-Handles (some n) c ctype template p j = take_array-Handles c p n ctype j
