-- ===== src/Codegen/Sink/Equal.antt =====
-- A file sink and a flushed memory sink give one text.
use mathlib.Core.Path.{subst}
use memcache_router.Prelude.{ℕ, List, [], ◌∷◌, ◌≡◌, ◌≢◌, refl, All, ap, ◌∙◌, sym}
use memcache_router.Prelude.Text.{Text, spaces}
use memcache_router.Codegen.Result.{Result, ok, raised, ◌>>=◌, bind_assoc, bind_congr}
use memcache_router.Codegen.Sink.{
  write_content, Sink, Content, file, memory, null, new_memory, new_file, writeln, indent,
  pop_level, unindent, flush, format_lines,
}
use memcache_router.Codegen.Sink.Lines.{
  write_content-appended, format_code-ne-nil, IsLine, render, appended, join-render,
  format_code_line, render-append,
}
use memcache_router.Codegen.Sink.Levels.{
  Command, write, deeper, back, step, run, HoldsLines, run-HoldsLines,
}

-- The file sink that stands where a memory sink does: the same indentation, the lines as text.
as_content : Content → Content
as_content (file w) = file w
as_content (memory ls) = file (render ls)
as_content null = null

pub as_file : Sink → Sink
unfolding as_content
as_file s = record s { content = as_content s.content }

as_content-appended :
    (c : Content) (ls : List Text) → as_content (appended c ls) ≡ appended (as_content c) ls
unfolding as_content appended
as_content-appended (file w) ls = refl
as_content-appended (memory ms) ls = rw render-append
as_content-appended null ls = refl

as_content-write_content :
    (c : Content) (ls : List Text)
    → ls ≢ []
    → write_content (as_content c) ls ≡ as_content (write_content c ls)
as_content-write_content c ls h =
    write_content-appended (as_content c) ls h
    ∙ sym (as_content-appended c ls)
    ∙ ap as_content (sym (write_content-appended c ls h))

as_file-writeln : (s : Sink) (t : Text) → writeln (as_file s) t ≡ as_file (writeln s t)
unfolding as_file writeln
as_file-writeln s t =
    rw (as_content-write_content s.content _ (format_code-ne-nil s.indent_level t))

pub map_result : Result Sink → Result Sink
map_result r = do s ← r; ok (as_file s)

as_file-pop_level :
    (s : Sink) (ls : List ℕ) → pop_level (as_file s) ls ≡ map_result (pop_level s ls)
unfolding pop_level map_result as_file
as_file-pop_level s [] = refl
as_file-pop_level s (l ∷ ls) = refl

as_file-step : (s : Sink) (c : Command) → step (as_file s) c ≡ map_result (step s c)
unfolding step as_file map_result indent unindent
as_file-step s (write t) = ap ok (as_file-writeln s t)
as_file-step s (deeper n) = refl
as_file-step s back = as_file-pop_level s s.indent_stack

-- Any program of calls on the file sink that has the lines of a sink as its text and the same
-- indentation gives the file sink of what the program gives on that sink, or raises as it does.
pub as_file-run : (s : Sink) (cs : List Command) → run (as_file s) cs ≡ map_result (run s cs)
unfolding run map_result
as_file-run s [] = refl
as_file-run s (c ∷ cs) = rw as_file-step (
    after (step s c)
    ∙ bind_congr (step s c) _ _ (λ u. as_file-run u cs)
    ∙ bind_assoc (step s c) (λ u. run u cs) (λ u. ok (as_file u)))
  where
    after : (r : Result Sink) → (map_result r >>= λ u. run u cs) ≡ (r >>= λ u. run (as_file u) cs)
    after (ok u) = refl
    after (raised x) = refl

-- At level 0 a flush formats nothing anew.
format_lines_zero : (ls : List Text) → All IsLine ls → format_lines 0 ls ≡ ls
unfolding format_lines
format_lines_zero [] h = refl
format_lines_zero (l ∷ ls) (h, hs) =
    rw (format_code_line 0 l h, format_lines_zero ls hs) (unfold spaces in refl)

-- Where a program of calls succeeds on a new memory sink, which then holds a line and stands at level
-- 0, it succeeds on a new file sink, and flushing the memory sink gives the text of the file.
pub flush-eq-file :
    (cs : List Command) (m : Sink) (l : Text) (ls : List Text)
    → run new_memory cs ≡ ok m
    → m.content ≡ memory (l ∷ ls)
    → m.indent_level ≡ 0
    → (f : Sink) × (written : Text) × (run new_file cs ≡ ok f)
      × (f.content ≡ file written)
      × (flush m ≡ ok (written, record m { content = memory [] }))
unfolding flush as_file as_content map_result
flush-eq-file cs m l ls e c z =
    let lines : All IsLine (l ∷ ls) = subst HoldsLines c (run-HoldsLines new_memory m cs tt e) in
    (
      as_file m,
      render (l ∷ ls),
      unfold render in as_file-run new_memory cs ∙ ap map_result e,
      rw c,
      rw (c, z, format_lines_zero (l ∷ ls) lines, join-render (l ∷ ls) (λ p. cc)),
    )
