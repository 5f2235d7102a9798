-- ===== src/Codegen/Sink/Lines.antt =====
-- The lines that the operations of a sink add.

use memcache_router.Prelude.{
  ℕ, List, [], ◌∷◌, ◌++◌, map, ◌≡◌, ◌≢◌, refl, arith, All, append_assoc, append-nil,
}
use memcache_router.Prelude.Text.{
  Text, join, spaces, rstrip, Lacks, Lacks-rstrip, split_of_Lacks, split-ne-nil,
}
use memcache_router.Codegen.Result.{ok}
use memcache_router.Codegen.Sink.{
  Sink, Content, file, memory, null, newline, format_code, write_content, writeln, write_lines,
  flush_to,
}

abbrev pub IsLine : Text → Type 0
IsLine = Lacks b'\n'

-- The text of some lines, each with its end.
unfoldable pub render : List Text → Text
render [] = []
render (l ∷ ls) = l ++ (newline ++ render ls)

-- A content with some more lines.
unfoldable pub appended : Content → List Text → Content
appended (file written) ls = file (written ++ render ls)
appended (memory lines) ls = memory (lines ++ ls)
appended null ls = null

pub render-append : (ls ms : List Text) → render (ls ++ ms) ≡ render ls ++ render ms
unfolding render
render-append [] ms = refl
render-append (l ∷ ls) ms = simp (render-append ls ms, append_assoc)

pub join-render : (ls : List Text) → ls ≢ [] → join newline ls ++ newline ≡ render ls
unfolding render join
join-render [] h = absurd (h refl)
join-render (l ∷ []) h = refl
join-render (l ∷ m ∷ ls) h = simp append_assoc (rw (join-render (m ∷ ls) (λ e. cc)))

appended-append :
    (c : Content) (ls ms : List Text) → appended (appended c ls) ms ≡ appended c (ls ++ ms)
unfolding appended
appended-append (file w) ls ms = simp (render-append, append_assoc)
appended-append (memory l) ls ms = simp append_assoc
appended-append null ls ms = refl

pub appended-nil : (c : Content) → appended c [] ≡ c
unfolding appended render
appended-nil (file w) = rw append-nil
appended-nil (memory l) = rw append-nil
appended-nil null = refl

pub write_content-appended :
    (c : Content) (ls : List Text) → ls ≢ [] → write_content c ls ≡ appended c ls
unfolding write_content appended
write_content-appended (file w) ls h = simp append_assoc (rw (join-render ls h))
write_content-appended (memory l) ls h = refl
write_content-appended null ls h = refl

map-ne-nil : (f : Text → Text) (ls : List Text) → ls ≢ [] → map f ls ≢ []
map-ne-nil f [] h e = h refl
map-ne-nil f (l ∷ ls) h e = cc

pub format_code-ne-nil : (n : ℕ) (t : Text) → format_code n t ≢ []
unfolding format_code
format_code-ne-nil n t e = map-ne-nil (λ line. spaces n ++ line) _ (split-ne-nil b'\n' t) e

-- `writeln` adds the formatted lines, whatever the class of the sink.
pub content-writeln :
    (s : Sink) (t : Text)
    → (writeln s t).content ≡ appended s.content (format_code s.indent_level t)
unfolding writeln
content-writeln s t = write_content-appended s.content _ (format_code-ne-nil s.indent_level t)

pub indentation-writeln :
    (s : Sink) (t : Text)
    → ((writeln s t).indent_level ≡ s.indent_level) × ((writeln s t).indent_stack ≡ s.indent_stack)
unfolding writeln
indentation-writeln s t = (refl, refl)

-- A single line is indented once.
pub format_code_line : (n : ℕ) (t : Text) → IsLine t → format_code n t ≡ (spaces n ++ t) ∷ []
unfolding format_code
format_code_line n t h = rw (split_of_Lacks b'\n' t h)

-- The destination line of `flush_to`.
abbrev pub flushed_line : ℕ → Text → Text
flushed_line level line = spaces level ++ rstrip line

-- A sink with some more lines.
unfoldable pub added : Sink → List Text → Sink
added s ls = record s { content = appended s.content ls }

writeln_line :
    (s : Sink) (l : Text) → IsLine l → writeln s l ≡ added s ((spaces s.indent_level ++ l) ∷ [])
unfolding added
writeln_line s l h =
    ground
      (arith, content-writeln s l, format_code_line s.indent_level l h, indentation-writeln s l)

pub added-added : (s : Sink) (ls ms : List Text) → added (added s ls) ms ≡ added s (ls ++ ms)
unfolding added
added-added s ls ms = rw appended-append

pub indentation-added :
    (s : Sink) (ls : List Text)
    → ((added s ls).indent_level ≡ s.indent_level) × ((added s ls).indent_stack ≡ s.indent_stack)
unfolding added
indentation-added s ls = (refl, refl)

-- What `flush_to` writes: each line once, indented by the level of the destination.
pub write_lines-added :
    (s : Sink) (ls : List Text)
    → All IsLine ls
    → write_lines s ls ≡ added s (map (flushed_line s.indent_level) ls)
unfolding write_lines added
write_lines-added s [] h = rw appended-nil
write_lines-added s (l ∷ ls) (h, hs) =
    let first : List Text = flushed_line s.indent_level l ∷ [] in
    rw (
      writeln_line s (rstrip l) (Lacks-rstrip b'\n' l h),
      write_lines-added (added s first) ls hs,
      (indentation-added s first).0,
      added-added,
    )

pub flush_to_lem :
    (s sink : Sink) (ls : List Text)
    → s.content ≡ memory ls
    → All IsLine ls
    → flush_to s sink
      ≡ ok (record s { content = memory [] }, added sink (map (flushed_line sink.indent_level) ls))
unfolding flush_to
flush_to_lem s sink ls e h = rw (e, write_lines-added sink ls h)

pub writeln-added : (s : Sink) (t : Text) → writeln s t ≡ added s (format_code s.indent_level t)
unfolding added
writeln-added s t = ground (arith, content-writeln s t, indentation-writeln s t)
