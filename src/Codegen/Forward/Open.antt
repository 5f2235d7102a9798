-- ===== src/Codegen/Forward/Open.antt =====
-- The text around the body of a wrapper.
use memcache_router.Prelude.{Bool, List, ◌++◌, ◌≡◌, refl, append_assoc}
use memcache_router.Prelude.Text.{Text, text}
use memcache_router.Codegen.Result.{ok}
use memcache_router.Codegen.Sink.{Sink, format_code}
use memcache_router.Codegen.Sink.Lines.{added, added-added, writeln-added}
use memcache_router.Codegen.Block.Checks.{unindent-added-indent}
use memcache_router.Codegen.Forward.{
  Prototype, return_line, prototype_line, write_open_wrapper, write_close_wrapper,
}

-- Whatever lines are added between write_open_wrapper and write_close_wrapper, the second does not
-- raise, and the sink has got the line of the return type, that of the name with its arguments, the
-- opening brace, those lines and the closing brace, the four of its own at the level that the sink
-- had before, which is its level again.
pub write_close_wrapper-write_open_wrapper :
    (p : Prototype) (add_static : Bool) (sink : Sink) (body : List Text)
    → write_close_wrapper (added (write_open_wrapper p add_static sink) body)
      ≡ ok (
          added sink (
            format_code sink.indent_level (return_line p add_static)
            ++ (format_code sink.indent_level (prototype_line p)
                ++ (format_code sink.indent_level (text "{")
                    ++ (body ++ format_code sink.indent_level (text "}"))))))
unfolding write_close_wrapper write_open_wrapper
write_close_wrapper-write_open_wrapper p add_static sink body =
    rw unindent-added-indent
      (simp (writeln-added, added-added, append_assoc) (unfold added in refl))
