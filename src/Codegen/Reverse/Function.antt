-- ===== src/Codegen/Reverse/Function.antt =====
-- The text of a reverse wrapper.
use memcache_router.Prelude.{List, [], ◌∷◌, ◌++◌, ◌≡◌, refl, append_assoc}
use memcache_router.Prelude.Text.{Text, text, join}
use memcache_router.Codegen.Result.{ok}
use memcache_router.Codegen.Sink.{Sink, format_code, writeln, indent}
use memcache_router.Codegen.Sink.Lines.{added, added-added, writeln-added}
use memcache_router.Codegen.Block.Checks.{unindent-added-indent}
use memcache_router.Codegen.Generate.Output.{
  Holds, emptied, emptied_block, placed, flush_first, flush_block-added, writeln_at,
}
use memcache_router.Codegen.Reverse.{ReverseWrapper, emit, join_parameters, function_line}

-- The lines of the function, formatted at the level of the destination.
pub function_lines :
    Sink
    → ReverseWrapper
    → Text
    → List Text
    → List Text
    → List Text
    → List Text
    → List Text
    → List Text
    → List Text
function_lines sink w name modifiers post params ds cs rs =
    let n = sink.indent_level in
    let inner = indent 4 sink in
    format_code n (join (text " ") (modifiers ++ w.return_ctype ∷ []))
    ++ (format_code n (function_line name params post)
        ++ (format_code n (text "{")
            ++ (placed inner ds
                ++ (format_code inner.indent_level []
                    ++ (placed inner cs ++ (placed inner rs ++ format_code n (text "}")))))))

module _ (sink : Sink) (w : ReverseWrapper) (name : Text) (modifiers post params : List Text) where
  header_lines : List Text
  header_lines =
      let n = sink.indent_level in
      format_code n (join (text " ") (modifiers ++ w.return_ctype ∷ []))
      ++ (format_code n (function_line name params post) ++ format_code n (text "{"))

  abbrev opened : Sink
  opened = added sink header_lines

  opened_lem :
      writeln
        (writeln
          (writeln sink (join (text " ") (modifiers ++ w.return_ctype ∷ [])))
          (function_line name params post))
        (text "{")
      ≡ opened
  unfolding header_lines
  opened_lem =
      rw
        (
          writeln-added sink,
          writeln_at sink
              (format_code sink.indent_level (join (text " ") (modifiers ++ w.return_ctype ∷ []))),
          writeln_at sink,
        )
        (simp append_assoc)

  -- If the parameters can be joined with their types, the function is written as the modifiers with
  -- the return type, the name with the parameters and the further modifiers, and an opening brace;
  -- then, four columns deeper, the declarations, an empty line, the code before and after the call;
  -- then the closing brace. The indentation is as before, and the wrapper's own sinks are empty.
  pub emit_lem :
      (ds cs rs : List Text)
      → join_parameters w.parameters ≡ ok params
      → Holds w.scope.declarations ds
      → Holds w.before_call.sink cs
      → Holds w.after_call.sink rs
      → emit w sink name modifiers post
        ≡ ok (
          record w {
            scope = record w.scope { declarations = emptied w.scope.declarations };
            before_call = emptied_block w.before_call;
            after_call = emptied_block w.after_call;
          },
          added sink (function_lines sink w name modifiers post params ds cs rs),
        )
  unfolding emit header_lines function_lines
  emit_lem ds cs rs p d c r =
      let inner = indent 4 opened in
      rw
        (
          p,
          opened_lem,
          flush_first inner w.scope.declarations ds d,
          writeln_at inner,
          flush_block-added inner w.before_call _ cs c,
          flush_block-added inner w.after_call _ rs r,
          unindent-added-indent 4 opened,
          writeln-added,
        )
        (simp (added-added, append_assoc) (unfold added indent placed in refl))
