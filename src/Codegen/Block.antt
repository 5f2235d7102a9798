-- ===== src/Codegen/Block.antt =====
-- pybindgen/typehandlers/base.py, class CodeBlock: code with its cleanup actions.
--
-- `_cleanup_actions` is a dict from positions to code; a dict has no order, and the list of its
-- entries has the latest first. `items.sort()` orders by position, since the keys of a dict differ.
-- A handle is its position. The `predecessor` of a block is another object that may change later:
-- the functions that read the chain of predecessors take it as a list, nearest first, as it stands
-- at the call. The variables of a block are those of its DeclarationsScope (Codegen/Names.antt).
pub mod Cleanup
pub mod Checks
use memcache_router.Prelude.{
  ℕ, suc, ◌+◌, Bool, true, false, List, [], ◌∷◌, ◌++◌, map, reverse, Option, none, some, ◌==◌, leb,
  if◌then◌else◌,
}
use memcache_router.Prelude.Text.{Text, text}
use memcache_router.Codegen.Result.{Result, ok, raised, key_error, ◌>>=◌}
use memcache_router.Codegen.Sink.{Sink, new_memory, writeln, indent, unindent}

pub record CodeBlock : Type 0 where
  pub sink : Sink
  pub cleanup_actions : List (ℕ × Text)
  pub last_cleanup_position : ℕ
  pub error_return : Text

unfoldable pub new_block : Text → CodeBlock
new_block error_return = record {
  sink = new_memory;
  cleanup_actions = [];
  last_cleanup_position = 0;
  error_return = error_return;
}

unfoldable pub clear : CodeBlock → CodeBlock
clear b = record b { sink = new_memory; cleanup_actions = []; last_cleanup_position = 0 }

unfoldable pub write_code : CodeBlock → Text → CodeBlock
write_code b code = record b { sink = writeln b.sink code }

-- `d[k] = v` and `del d[k]` on the entries of a dict.
unfoldable pub remove_key : ℕ → List (ℕ × Text) → List (ℕ × Text)
remove_key k [] = []
remove_key k ((j, v) ∷ d) = let rest = remove_key k d in if j == k then rest else (j, v) ∷ rest

unfoldable pub has_key : ℕ → List (ℕ × Text) → Bool
has_key k [] = false
has_key k ((j, v) ∷ d) = if j == k then true else has_key k d

-- The handle, and the block.
unfoldable pub add_cleanup_code : CodeBlock → Text → ℕ × CodeBlock
unfolding remove_key
add_cleanup_code b code =
    let position = suc b.last_cleanup_position in
    (
      position,
      record b {
        last_cleanup_position = position;
        cleanup_actions = (position, code) ∷ remove_key position b.cleanup_actions;
      },
    )

-- Also `CleanupHandle.cancel`.
unfoldable pub remove_cleanup_code : CodeBlock → ℕ → Result CodeBlock
remove_cleanup_code b handle =
    if has_key handle b.cleanup_actions
    then ok (record b { cleanup_actions = remove_key handle b.cleanup_actions })
    else raised key_error

insert_item : ℕ × Text → List (ℕ × Text) → List (ℕ × Text)
insert_item x [] = x ∷ []
insert_item x (y ∷ ys) = if leb x.0 y.0 then x ∷ y ∷ ys else y ∷ insert_item x ys

unfoldable pub sort_items : List (ℕ × Text) → List (ℕ × Text)
unfolding insert_item
sort_items [] = []
sort_items (x ∷ xs) = insert_item x (sort_items xs)

unfoldable pub own_cleanup : CodeBlock → List Text
own_cleanup b = reverse (map (λ item. item.1) (sort_items b.cleanup_actions))

unfoldable pub get_cleanup_code : CodeBlock → List CodeBlock → List Text
get_cleanup_code b [] = own_cleanup b
get_cleanup_code b (p ∷ ps) = own_cleanup b ++ get_cleanup_code p ps

unfoldable pub write_all : Sink → List Text → Sink
write_all s [] = s
write_all s (t ∷ ts) = write_all (writeln s t) ts

unfoldable pub write_cleanup : CodeBlock → List CodeBlock → CodeBlock
write_cleanup b ps = record b { sink = write_all b.sink (get_cleanup_code b ps) }

unfoldable pub write_error_return : CodeBlock → List CodeBlock → CodeBlock
write_error_return b ps = write_code (write_cleanup b ps) b.error_return

write_optional : CodeBlock → Option Text → CodeBlock
write_optional b none = b
write_optional b (some code) = write_code b code

unfoldable pub write_error_check :
    CodeBlock → List CodeBlock → Text → Option Text → Result CodeBlock
unfolding write_optional
write_error_check b ps failure_expression failure_cleanup =
    let opened = write_code b (text "if (" ++ (failure_expression ++ text ") {")) in
    let inner = record opened { sink = indent 4 opened.sink } in
    let body = write_error_return (write_optional inner failure_cleanup) ps in
    do out ← unindent body.sink; ok (write_code (record body { sink = out }) (text "}"))
