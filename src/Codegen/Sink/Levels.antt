-- ===== src/Codegen/Sink/Levels.antt =====
-- Programs of `writeln`, `indent` and `unindent` calls on one sink, and what they keep.
use mathlib.Core.Path.{subst}
use memcache_router.Prelude.{ℕ, List, [], ◌∷◌, ◌++◌, map, ◌≡◌, refl, All, All-append, ◌∙◌, ap}
use memcache_router.Prelude.Text.{Text, spaces, Lacks-append, Lacks-spaces, All-Lacks-split}
use memcache_router.Codegen.Result.{
  Result, ok, ◌>>=◌, bind_congr, bind_assoc, >>=-eq-ok, ok-injective,
}
use memcache_router.Codegen.Sink.{
  Sink, Content, file, memory, null, new_memory, format_code, write_content, writeln, indent,
  pop_level, unindent, flush_to,
}
use memcache_router.Codegen.Sink.Lines.{
  IsLine, added, flushed_line, flush_to_lem, indentation-writeln,
}

pub data Command : Type 0 where
  write : Text → Command
  deeper : ℕ → Command
  back : Command

unfoldable pub step : Sink → Command → Result Sink
step s (write t) = ok (writeln s t)
step s (deeper n) = ok (indent n s)
step s back = unindent s

unfoldable pub run : Sink → List Command → Result Sink
run s [] = ok s
run s (c ∷ cs) = do s' ← step s c; run s' cs

-- Each `indent` has its `unindent`.
pub data IsBalanced : List Command → Type 0 where
  done : IsBalanced []
  then_write : (t : Text) {cs : List Command} → IsBalanced cs → IsBalanced (write t ∷ cs)
  then_block :
      (n : ℕ) {body rest cs : List Command}
      → IsBalanced body
      → IsBalanced rest
      → cs ≡ deeper n ∷ (body ++ back ∷ rest)
      → IsBalanced cs

pub run-append :
    (s : Sink) (cs ds : List Command) → run s (cs ++ ds) ≡ (run s cs >>= λ s'. run s' ds)
unfolding run
run-append s [] ds = refl
run-append s (c ∷ cs) ds =
    bind_congr (step s c) _ _ (λ s'. run-append s' cs ds)
    ∙ bind_assoc (step s c) (λ s'. run s' cs) (λ t. run t ds)

-- The indentation of a sink, apart from what it holds.
abbrev pub SameIndentation : Sink → Sink → Type 0
SameIndentation s t = (s.indent_level ≡ t.indent_level) × (s.indent_stack ≡ t.indent_stack)

-- The content holds whole lines.
abbrev pub HoldsLines : Content → Type 0
HoldsLines (file written) = Unit
HoldsLines (memory lines) = All IsLine lines
HoldsLines null = Unit

run-back :
    (s t : Sink) (n : ℕ) (ds : List Command)
    → SameIndentation t (indent n s)
    → (u : Sink) × (run t (back ∷ ds) ≡ run u ds) × SameIndentation u s
unfolding run step unindent indent
run-back s t n ds (l, k) =
    (record t { indent_level = s.indent_level; indent_stack = s.indent_stack }, rw k, (refl, refl))

-- A program whose calls are balanced runs to its end, and leaves the indentation as it was.
pub run-IsBalanced :
    (s : Sink) {cs : List Command}
    → IsBalanced cs
    → (t : Sink) × (run s cs ≡ ok t) × SameIndentation t s
unfolding run step
run-IsBalanced s done = (s, refl, (refl, refl))
run-IsBalanced s (then_write t b) =
    let (u, runs, same) = run-IsBalanced (writeln s t) b in
    let (l, k) = indentation-writeln s t in (u, runs, (same.0 ∙ l, same.1 ∙ k))
run-IsBalanced s (then_block n {body} {rest} b r e) =
    let (t, runs_body, same) = run-IsBalanced (indent n s) b in
    let (u, returns, outer) = run-back s t n rest same in
    let (v, runs_rest, last) = run-IsBalanced u r in
    (v, rw (e, run-append, runs_body) (returns ∙ runs_rest), (last.0 ∙ outer.0, last.1 ∙ outer.1))

All-IsLine-indented :
    (n : ℕ) (ls : List Text) → All IsLine ls → All IsLine (map (λ l. spaces n ++ l) ls)
All-IsLine-indented n [] h = tt
All-IsLine-indented n (l ∷ ls) (h, hs) =
    (Lacks-append b'\n' (spaces n) l (Lacks-spaces n) h, All-IsLine-indented n ls hs)

pub All-IsLine-format_code : (n : ℕ) (t : Text) → All IsLine (format_code n t)
unfolding format_code
All-IsLine-format_code n t = All-IsLine-indented n _ (All-Lacks-split b'\n' t)

HoldsLines-write_content :
    (c : Content) (ls : List Text) → All IsLine ls → HoldsLines c → HoldsLines (write_content c ls)
unfolding write_content
HoldsLines-write_content (file w) ls h k = tt
HoldsLines-write_content (memory ms) ls h k = All-append IsLine ms ls k h
HoldsLines-write_content null ls h k = tt

HoldsLines-pop_level :
    (s : Sink) (ls : List ℕ) {t : Sink}
    → HoldsLines s.content
    → pop_level s ls ≡ ok t
    → HoldsLines t.content
unfolding pop_level
HoldsLines-pop_level s [] h e = cc
HoldsLines-pop_level s (l ∷ ls) {t} h e =
    subst HoldsLines (ap (λ (r : Sink). r.content) (ok-injective e)) h

HoldsLines-step :
    (s t : Sink) (c : Command) → HoldsLines s.content → step s c ≡ ok t → HoldsLines t.content
unfolding step writeln indent unindent
HoldsLines-step s t (write x) h e =
    subst HoldsLines (ap (λ (r : Sink). r.content) (ok-injective e))
      (HoldsLines-write_content s.content _ (All-IsLine-format_code s.indent_level x) h)
HoldsLines-step s t (deeper n) h e =
    subst HoldsLines (ap (λ (r : Sink). r.content) (ok-injective e)) h
HoldsLines-step s t back h e = HoldsLines-pop_level s s.indent_stack h e

-- Whatever the calls, no line that a sink holds has a line break inside.
pub run-HoldsLines :
    (s t : Sink) (cs : List Command) → HoldsLines s.content → run s cs ≡ ok t → HoldsLines t.content
unfolding run
run-HoldsLines s t [] h e = subst HoldsLines (ap (λ (r : Sink). r.content) (ok-injective e)) h
run-HoldsLines s t (c ∷ cs) h e =
    let (u, first, rest) = >>=-eq-ok (step s c) (λ s'. run s' cs) e in
    run-HoldsLines u t cs (HoldsLines-step s u c h first) rest

-- What any program wrote into a memory sink is flushed into any other sink line for line: each line
-- loses its trailing blanks and is indented by the level of the destination, whose indentation
-- stays, and the source is left empty.
pub flush_to-run :
    (cs : List Command) (m sink : Sink) (ls : List Text)
    → run new_memory cs ≡ ok m
    → m.content ≡ memory ls
    → flush_to m sink
      ≡ ok (record m { content = memory [] }, added sink (map (flushed_line sink.indent_level) ls))
flush_to-run cs m sink ls e c =
    flush_to_lem m sink ls c (subst HoldsLines c (run-HoldsLines new_memory m cs tt e))
