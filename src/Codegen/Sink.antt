-- ===== src/Codegen/Sink.antt =====
-- pybindgen/typehandlers/codesink.py: the sinks that receive the lines of generated C code.
--
-- The three classes share `indent_level` and `indent_stack` and differ in what they hold: the text
-- of the file, the list of lines, or nothing. `indent_stack` is kept with its top first. Indentation
-- is never negative in the program. `flush_to` takes two sinks that are different objects.
pub mod Lines
pub mod Equal
pub mod Levels
use mathlib.Core.List.{foldl, flat_map}
use memcache_router.Prelude.{ℕ, ◌+◌, List, [], ◌∷◌, ◌++◌, map}
use memcache_router.Prelude.Text.{Text, split, join, spaces, rstrip}
use memcache_router.Codegen.Result.{Result, ok, raised, index_error, type_error, attribute_error}

-- What a sink holds, by its class: FileCodeSink, MemoryCodeSink, NullCodeSink.
pub data Content : Type 0 where
  file : Text → Content
  memory : List Text → Content
  null : Content

pub record Sink : Type 0 where
  pub indent_level : ℕ
  pub indent_stack : List ℕ
  pub content : Content

abbrev pub new_file : Sink
new_file = record { indent_level = 0; indent_stack = []; content = file [] }

abbrev pub new_memory : Sink
new_memory = record { indent_level = 0; indent_stack = []; content = memory [] }

abbrev pub new_null : Sink
new_null = record { indent_level = 0; indent_stack = []; content = null }

abbrev pub newline : Text
newline = b'\n' ∷ []

unfoldable pub format_code : ℕ → Text → List Text
format_code level code = map (λ line. spaces level ++ line) (split b'\n' code)

unfoldable pub write_content : Content → List Text → Content
write_content (file written) l = file ((written ++ join newline l) ++ newline)
write_content (memory lines) l = memory (lines ++ l)
write_content null l = null

unfoldable pub writeln : Sink → Text → Sink
unfolding write_content format_code
writeln s line = record s { content = write_content s.content (format_code s.indent_level line) }

unfoldable pub indent : ℕ → Sink → Sink
indent level s = record s {
  indent_level = s.indent_level + level;
  indent_stack = s.indent_level ∷ s.indent_stack;
}

pop_level : Sink → List ℕ → Result Sink
pop_level s [] = raised index_error
pop_level s (level ∷ rest) = ok (record s { indent_level = level; indent_stack = rest })

unfoldable pub unindent : Sink → Result Sink
unfolding pop_level
unindent s = pop_level s s.indent_stack

-- The loop of `flush_to`: one `writeln` for each line, without its trailing blanks.
unfoldable pub write_lines : Sink → List Text → Sink
write_lines sink [] = sink
write_lines sink (line ∷ lines) = write_lines (writeln sink (rstrip line)) lines

flush_content_to : Sink → Content → Sink → Result (Sink × Sink)
flush_content_to s (file written) sink = raised attribute_error
flush_content_to s (memory lines) sink =
    ok (record s { content = memory [] }, write_lines sink lines)
flush_content_to s null sink = raised type_error

-- `s.flush_to(sink)`: the emptied source, and the destination.
unfoldable pub flush_to : Sink → Sink → Result (Sink × Sink)
unfolding flush_content_to
flush_to s sink = flush_content_to s s.content sink

unfoldable pub format_lines : ℕ → List Text → List Text
format_lines level [] = []
format_lines level (line ∷ lines) = format_code level line ++ format_lines level lines

flush_content : Sink → Content → Result (Text × Sink)
flush_content s (file written) = raised attribute_error
flush_content s (memory lines) =
    ok (
      join newline (format_lines s.indent_level lines) ++ newline,
      record s { content = memory [] },
    )
flush_content s null = raised type_error

-- `s.flush()`: the text, and the emptied sink.
unfoldable pub flush : Sink → Result (Text × Sink)
unfolding flush_content
flush s = flush_content s s.content
