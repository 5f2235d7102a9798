-- ===== src/Codegen/Handlers/Runs.antt =====
-- Rules for the bodies of handlers: what a body adds to a forward wrapper, piece by piece.
use memcache_router.Prelude.{
  ℕ, ◌+◌, Bool, true, false, List, [], ◌∷◌, Option, ◌≡◌, refl, ◌∙◌, arith, length, length-append,
}
use memcache_router.Prelude.Text.{Text}
use memcache_router.Codegen.Result.{Result, ok, ◌>>=◌}
use memcache_router.Codegen.Sink.{Sink}
use memcache_router.Codegen.Block
use memcache_router.Codegen.Block.{write_code, write_error_check}
use memcache_router.Codegen.Block.Checks.{write_error_check_lem}
use memcache_router.Codegen.Names.{Scope, join_ctype_and_name, declare_variable, reserve_variable}
use memcache_router.Codegen.Params.{add_parameter, add_build_parameter}
use memcache_router.Codegen.Forward.{Forward, Conversion, declare, cleared}
use memcache_router.Codegen.Generate.Reset.{Same}
use memcache_router.Codegen.Handlers.{
  when, add_parse, add_build, add_call, before_code, after_code, check_before,
}

-- A C type with which any name can be declared.
abbrev pub IsCtype : Text → Type 0
IsCtype t = (n : Text) → (s : Text) × (join_ctype_and_name t n ≡ ok s)

abbrev pub one_if : Bool → ℕ
one_if true = 1
one_if false = 0

-- Some call arguments, parse items and build items more, and nothing else that a reset keeps.
pub record Adds (c p b : ℕ) (w w' : Forward) : Type 0 where
  pub same : Same w w'
  pub calls : length w'.call_params ≡ length w.call_params + c
  pub parses : length w'.parse_params ≡ length w.parse_params + p
  pub builds : length w'.build_params ≡ length w.build_params + b

pub Adds-refl : (w : Forward) → Adds 0 0 0 w w
Adds-refl w = record {
  same = refl;
  calls = omega arith;
  parses = omega arith;
  builds = omega arith;
}

pub Adds-trans :
    {c p b c' p' b' : ℕ} {w v u : Forward}
    → Adds c p b w v
    → Adds c' p' b' v u
    → Adds (c + c') (p + p') (b + b') w u
Adds-trans a a' = record {
  same = a'.same ∙ a.same;
  calls = omega (arith, a.calls, a'.calls);
  parses = omega (arith, a.parses, a'.parses);
  builds = omega (arith, a.builds, a'.builds);
}

module _ {c p b : ℕ} {w v : Forward} (a : Adds c p b w v) where
  pub Adds-add_call : (x : Text) → Adds (c + 1) p b w (add_call x v)
  unfolding add_call cleared
  Adds-add_call x = record {
    same = a.same;
    calls = length-append v.call_params (x ∷ []) ∙ omega (arith, a.calls);
    parses = a.parses;
    builds = a.builds;
  }

  pub Adds-add_parse :
      (t : Text) (vs : List Text) (n : Option Text) (o : Bool)
      → Adds c (p + 1) b w (add_parse t vs n o v)
  unfolding add_parse add_parameter cleared
  Adds-add_parse t vs n o = record {
    same = a.same;
    calls = a.calls;
    parses = length-append v.parse_params _ ∙ omega (arith, a.parses);
    builds = a.builds;
  }

  pub Adds-add_build : (t : Text) (vs : List Text) → Adds c p (b + 1) w (add_build t vs v)
  unfolding add_build add_build_parameter cleared
  Adds-add_build t vs = record {
    same = a.same;
    calls = a.calls;
    parses = a.parses;
    builds = length-append v.build_params _ ∙ omega (arith, a.builds);
  }

  pub Adds-before_code : (t : Text) → Adds c p b w (before_code t v)
  unfolding before_code write_code cleared Block.clear
  Adds-before_code t = record {
    same = a.same;
    calls = a.calls;
    parses = a.parses;
    builds = a.builds;
  }

  pub Adds-after_code : (t : Text) → Adds c p b w (after_code t v)
  unfolding after_code write_code cleared Block.clear
  Adds-after_code t = record {
    same = a.same;
    calls = a.calls;
    parses = a.parses;
    builds = a.builds;
  }

-- A result that is there, and what it adds.
abbrev pub Runs : ℕ → ℕ → ℕ → Forward → Result Forward → Type 0
Runs c p b w r = (w' : Forward) × (r ≡ ok w') × Adds c p b w w'

pub Runs-ok : {c p b : ℕ} {w v : Forward} → Adds c p b w v → Runs c p b w (ok v)
Runs-ok {v = v} a = (v, refl, a)

pub Runs-cast :
    {c p b c' p' b' : ℕ} {w : Forward} {r : Result Forward}
    → c ≡ c'
    → p ≡ p'
    → b ≡ b'
    → Runs c p b w r
    → Runs c' p' b' w r
Runs-cast e f g (w', runs, a) = (w', runs, rw (← e, ← f, ← g) a)

pub Runs-bind :
    {c p b c' p' b' : ℕ} {w : Forward} {r : Result Forward} (f : Conversion)
    → Runs c p b w r
    → ((v : Forward) → Runs c' p' b' v (f v))
    → Runs (c + c') (p + p') (b + b') w (r >>= f)
Runs-bind f (v, runs, a) k = let (u, on, a') = k v in (u, rw runs on, Adds-trans a a')

Adds-scope :
    {c p b : ℕ} {w v : Forward} (s : Scope) → Adds c p b w v → Adds c p b w (record v { scope = s })
unfolding cleared
Adds-scope s a = record { same = a.same; calls = a.calls; parses = a.parses; builds = a.builds }

pub Adds-before_call :
    {c p b : ℕ} {w v : Forward} (s : Sink)
    → Adds c p b w v
    → Adds c p b w (record v { before_call = record v.before_call { sink = s } })
unfolding cleared Block.clear
Adds-before_call s a = record {
  same = a.same;
  calls = a.calls;
  parses = a.parses;
  builds = a.builds;
}

pub Adds-after_call :
    {c p b : ℕ} {w v : Forward} (s : Sink)
    → Adds c p b w v
    → Adds c p b w (record v { after_call = record v.after_call { sink = s } })
unfolding cleared Block.clear
Adds-after_call s a = record {
  same = a.same;
  calls = a.calls;
  parses = a.parses;
  builds = a.builds;
}

declare-ok :
    (w : Forward) (t n : Text) (i a : Option Text)
    → IsCtype t
    → (name : Text) × (s : Scope) × (declare w t n i a ≡ ok (name, record w { scope = s }))
unfolding declare declare_variable
declare-ok w t n i a j =
    let (d, joined) = j (reserve_variable w.scope n).0 in rw joined (_, _, refl)

check_before-ok :
    (t e : Text) (v : Forward)
    → (s : Sink) × (check_before t e v
        ≡ ok (record v { before_call = record v.before_call { sink = s } }))
unfolding check_before
check_before-ok t e v = rw write_error_check_lem (_, refl)

pub declare-Runs :
    {c p b c' p' b' : ℕ} {w v : Forward} (t n : Text) (i a : Option Text)
    (f : (Text × Forward) → Result Forward)
    → IsCtype t
    → Adds c p b w v
    → ((name : Text) (u : Forward) → Adds c p b w u → Runs c' p' b' w (f (name, u)))
    → Runs c' p' b' w (declare v t n i a >>= f)
declare-Runs {v = v} t n i a f j adds k =
    let (name, s, declared) = declare-ok v t n i a j in
    rw declared (k name (record v { scope = s }) (Adds-scope s adds))

pub check_before-Runs :
    {c p b c' p' b' : ℕ} {w v : Forward} (t e : Text) (f : Conversion)
    → Adds c p b w v
    → ((u : Forward) → Adds c p b w u → Runs c' p' b' w (f u))
    → Runs c' p' b' w (check_before t e v >>= f)
check_before-Runs {v = v} t e f a k =
    let (s, checked) = check_before-ok t e v in
    rw checked
      (k (record v { before_call = record v.before_call { sink = s } }) (Adds-before_call s a))

add_zero : (n : ℕ) → n + 0 ≡ n
add_zero n = omega arith

pub Adds-when :
    {c p b : ℕ} {w v : Forward} (flag : Bool) (f : Forward → Forward)
    → Adds c p b w v
    → ((u : Forward) → Adds c p b w u → Adds c p b w (f u))
    → Adds c p b w (when flag f v)
Adds-when true f a h = h _ a
Adds-when false f a h = a

pub Adds-when_parse :
    {c p b : ℕ} {w v : Forward} (flag : Bool) (f : Forward → Forward)
    → Adds c p b w v
    → ((u : Forward) → Adds c p b w u → Adds c (p + 1) b w (f u))
    → Adds c (p + one_if flag) b w (when flag f v)
Adds-when_parse true f a h = h _ a
Adds-when_parse {p = p} false f a h = rw (add_zero p) a

pub Adds-when_build :
    {c p b : ℕ} {w v : Forward} (flag : Bool) (f : Forward → Forward)
    → Adds c p b w v
    → ((u : Forward) → Adds c p b w u → Adds c p (b + 1) w (f u))
    → Adds c p (b + one_if flag) w (when flag f v)
Adds-when_build true f a h = h _ a
Adds-when_build {b = b} false f a h = rw (add_zero b) a
