-- ===== src/Codegen/Generate/Output.antt =====
-- The order in which a wrapper's code reaches the code sink.
use memcache_router.Prelude.{List, [], ◌++◌, map, ◌≡◌, All, append_assoc}
use memcache_router.Prelude.Text.{Text}
use memcache_router.Codegen.Result.{ok}
use memcache_router.Codegen.Sink.{Sink, memory, format_code, writeln, flush_to}
use memcache_router.Codegen.Sink.Lines.{
  IsLine, added, added-added, writeln-added, indentation-added, flushed_line, flush_to_lem,
}
use memcache_router.Codegen.Block.{CodeBlock}
use memcache_router.Codegen.Forward.{Forward}
use memcache_router.Codegen.Generate.{flush_block, write_out}

-- A sink that holds some lines.
abbrev pub Holds : Sink → List Text → Type 0
Holds s ls = (s.content ≡ memory ls) × All IsLine ls

abbrev pub emptied : Sink → Sink
emptied s = record s { content = memory [] }

abbrev pub emptied_block : CodeBlock → CodeBlock
emptied_block b = record b { sink = emptied b.sink }

module _ (sink : Sink) where
  -- The lines as they stand in the destination.
  unfoldable pub placed : List Text → List Text
  placed = map (flushed_line sink.indent_level)

  flush_to-added :
      (s : Sink) (xs ls : List Text)
      → Holds s ls
      → flush_to s (added sink xs) ≡ ok (emptied s, added sink (xs ++ placed ls))
  unfolding placed
  flush_to-added s xs ls (e, h) =
      rw (flush_to_lem s (added sink xs) ls e h, added-added, (indentation-added sink xs).0)

  pub flush_block-added :
      (b : CodeBlock) (xs ls : List Text)
      → Holds b.sink ls
      → flush_block b (added sink xs) ≡ ok (emptied_block b, added sink (xs ++ placed ls))
  unfolding flush_block
  flush_block-added b xs ls h = rw (flush_to-added b.sink xs ls h)

  pub writeln_at :
      (xs : List Text) (t : Text)
      → writeln (added sink xs) t ≡ added sink (xs ++ format_code sink.indent_level t)
  writeln_at xs t = rw (writeln-added, added-added, (indentation-added sink xs).0)

  pub flush_first :
      (s : Sink) (ls : List Text)
      → Holds s ls
      → flush_to s sink ≡ ok (emptied s, added sink (placed ls))
  unfolding placed
  flush_first s ls (e, h) = flush_to_lem s sink ls e h

  -- The code of the wrapper reaches the code sink as the declarations, an empty line, the code
  -- before the parse, before the call and after the call, each line once, without its trailing
  -- blanks and indented by the level of the code sink; the wrapper's own sinks are left empty.
  pub write_out_lem :
      (w : Forward) (ds ps cs rs : List Text)
      → Holds w.scope.declarations ds
      → Holds w.before_parse.sink ps
      → Holds w.before_call.sink cs
      → Holds w.after_call.sink rs
      → write_out w sink
        ≡ ok (
          record w {
            scope = record w.scope { declarations = emptied w.scope.declarations };
            before_parse = emptied_block w.before_parse;
            before_call = emptied_block w.before_call;
            after_call = emptied_block w.after_call;
          },
          added sink (
              placed ds
              ++ (format_code sink.indent_level [] ++ (placed ps ++ (placed cs ++ placed rs)))),
        )
  unfolding write_out
  write_out_lem w ds ps cs rs d p c r =
      rw
        (
          flush_first w.scope.declarations ds d,
          writeln_at,
          flush_block-added w.before_parse _ ps p,
          flush_block-added w.before_call _ cs c,
          flush_block-added w.after_call _ rs r,
        )
        (simp append_assoc)
