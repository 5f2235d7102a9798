-- ===== src/Codegen/Block/Checks.antt =====
-- What `write_error_check` and `write_cleanup` write.
use memcache_router.Prelude.{
  ℕ, ◌+◌, List, [], ◌∷◌, ◌++◌, Option, none, some, ◌≡◌, refl, sym, append_assoc,
}
use memcache_router.Prelude.Text.{Text, text}
use memcache_router.Codegen.Result.{ok}
use memcache_router.Codegen.Sink.{Sink, format_code, writeln, indent, unindent}
use memcache_router.Codegen.Sink.Lines.{
  added, added-added, writeln-added, indentation-added, appended-nil,
}
use memcache_router.Codegen.Block.{
  CodeBlock, write_code, write_all, write_cleanup, write_error_return, write_error_check,
  write_optional, get_cleanup_code, own_cleanup,
}

-- Several pieces of code, formatted at one level.
pub formatted : ℕ → List Text → List Text
formatted n [] = []
formatted n (t ∷ ts) = format_code n t ++ formatted n ts

pub formatted-append :
    (n : ℕ) (ts us : List Text) → formatted n (ts ++ us) ≡ formatted n ts ++ formatted n us
unfolding formatted
formatted-append n [] us = refl
formatted-append n (t ∷ ts) us = simp (formatted-append n ts us, append_assoc)

added-nil : (s : Sink) → added s [] ≡ s
unfolding added
added-nil s = rw appended-nil

pub write_all-added :
    (s : Sink) (ts : List Text) → write_all s ts ≡ added s (formatted s.indent_level ts)
unfolding write_all formatted
write_all-added s [] = sym (added-nil s)
write_all-added s (t ∷ ts) =
    let first : List Text = format_code s.indent_level t in
    rw (writeln-added s t, write_all-added (added s first) ts, added-added)
      (rw ((indentation-added s first).0))

pub unindent-added-indent :
    (n : ℕ) (s : Sink) (ls : List Text) → unindent (added (indent n s) ls) ≡ ok (added s ls)
unfolding unindent added indent
unindent-added-indent n s ls = refl

write_all-snoc :
    (s : Sink) (ts : List Text) (u : Text) → write_all s (ts ++ u ∷ []) ≡ writeln (write_all s ts) u
unfolding write_all
write_all-snoc s [] u = refl
write_all-snoc s (t ∷ ts) u = write_all-snoc (writeln s t) ts u

abbrev pub optional : Option Text → List Text
optional none = []
optional (some t) = t ∷ []

-- Cleanup code does not look at the sink.
cleanup-sink :
    (b : CodeBlock) (s : Sink) (ps : List CodeBlock)
    → get_cleanup_code (record b { sink = s }) ps ≡ get_cleanup_code b ps
unfolding get_cleanup_code own_cleanup
cleanup-sink b s [] = refl
cleanup-sink b s (p ∷ ps) = refl

-- The body of an error check: the extra cleanup, all pending cleanup code, and the return.
pub failure_code : CodeBlock → List CodeBlock → Option Text → List Text
failure_code b ps f = optional f ++ (get_cleanup_code b ps ++ b.error_return ∷ [])

body-sink :
    (b : CodeBlock) (s : Sink) (ps : List CodeBlock) (f : Option Text)
    → write_error_return (write_optional (record b { sink = s }) f) ps
      ≡ record b { sink = write_all s (failure_code b ps f) }
unfolding write_error_return write_optional write_cleanup write_code failure_code writeln write_all
body-sink b s ps none = rw (cleanup-sink, write_all-snoc)
body-sink b s ps (some t) = rw (cleanup-sink, write_all-snoc)

unfoldable pub error_check_lines : CodeBlock → List CodeBlock → Text → Option Text → List Text
error_check_lines b ps e f =
    let n = b.sink.indent_level in
    format_code n (text "if (" ++ (e ++ text ") {"))
    ++ (formatted (n + 4) (failure_code b ps f) ++ format_code n (text "}"))

-- An error check never raises. It adds to the sink the test, then, four columns deeper, the extra
-- cleanup code, all pending cleanup code of the block and its predecessors and the error return, and
-- the closing brace; the indentation and the cleanup actions stay as they were.
pub write_error_check_lem :
    (b : CodeBlock) (ps : List CodeBlock) (e : Text) (f : Option Text)
    → write_error_check b ps e f
      ≡ ok (record b { sink = added b.sink (error_check_lines b ps e f) })
unfolding write_error_check write_code error_check_lines
write_error_check_lem b ps e f =
    let header : List Text = format_code b.sink.indent_level (text "if (" ++ (e ++ text ") {")) in
    let inner = indent 4 (added b.sink header) in
    let body : List Text = formatted inner.indent_level (failure_code b ps f) in
    rw
      (
        writeln-added,
        body-sink b inner ps f,
        write_all-added inner (failure_code b ps f),
        unindent-added-indent 4 (added b.sink header) body,
        writeln-added (added (added b.sink header) body) (text "}"),
      )
      (simp (added-added, append_assoc) (unfold indent added in refl))
