-- ===== src/Codegen/Names.antt =====
-- pybindgen/typehandlers/base.py: join_ctype_and_name, and class DeclarationsScope.
--
-- `declared_variables` is a dict from names to numbers. A scope that is made with a parent has the
-- parent's dict and lines of its own: `child_scope` gives it the dict as it stands.
pub mod Decimal
pub mod Clash
pub mod Join
use memcache_router.Prelude.{
  ℕ, zero, suc, ◌+◌, Bool, true, false, List, [], ◌∷◌, ◌++◌, ◌&&◌, ◌||◌, Option, none, some, ◌==◌,
  if◌then◌else◌,
}
use memcache_router.Prelude.Text.{Text, text, text_eq}
use memcache_router.Codegen.Result.{Result, ok, raised, index_error, value_error, ◌>>=◌}
use memcache_router.Codegen.Sink.{Sink, new_memory, writeln}
use memcache_router.Codegen.Names.Decimal.{decimal}

abbrev pub star : ℕ
star = b'*'

abbrev pub blank : ℕ
blank = b' '

unfoldable pub last_char : Text → Option ℕ
last_char [] = none
last_char (c ∷ []) = some c
last_char (c ∷ d ∷ s) = last_char (d ∷ s)

is_empty : Text → Bool
is_empty [] = true
is_empty (c ∷ s) = false

put_front : ℕ → Text × Text → Text × Text
unfolding is_empty
put_front c (front, stars) =
    if is_empty front && c == star then ([], c ∷ stars) else (c ∷ front, stars)

-- `ctype[:i+1]` and `ctype[i+1:]` for the last `i` with `ctype[i] != '*'`; no front if there is none.
unfoldable pub split_stars : Text → Text × Text
unfolding put_front
split_stars [] = ([], [])
split_stars (c ∷ s) = put_front c (split_stars s)

join_pointer : Option ℕ → Text × Text → Text → Result Text
join_pointer none parts name = raised value_error
join_pointer (some c) (front, stars) name =
    if c == blank then ok (front ++ (stars ++ name)) else ok (front ++ (blank ∷ (stars ++ name)))

join_at : Option ℕ → Text → Text → Result Text
unfolding join_pointer
join_at none ctype name = raised index_error
join_at (some c) ctype name =
    let parts = split_stars ctype in
    if c == star then join_pointer (last_char parts.0) parts name else ok (ctype ++ (blank ∷ name))

unfoldable pub join_ctype_and_name : Text → Text → Result Text
unfolding join_at last_char
join_ctype_and_name ctype name = join_at (last_char ctype) ctype name

abbrev pub Table : Type 0
Table = List (Text × ℕ)

pub record Scope : Type 0 where
  pub declarations : Sink
  pub declared_variables : Table

abbrev pub new_scope : Scope
new_scope = record { declarations = new_memory; declared_variables = [] }

abbrev pub child_scope : Scope → Scope
child_scope parent = record parent { declarations = new_memory }

abbrev pub clear_scope : Scope → Scope
clear_scope s = new_scope

-- `d[name]`, 0 where the code catches the KeyError.
unfoldable pub number_of : Text → Table → ℕ
number_of name [] = 0
number_of name ((n, k) ∷ d) = if text_eq n name then k else number_of name d

-- `d[name] = k`.
unfoldable pub set_number : Text → ℕ → Table → Table
set_number name k [] = (name, k) ∷ []
set_number name k ((n, j) ∷ d) = if text_eq n name then (n, k) ∷ d else (n, j) ∷ set_number name k d

unfoldable pub variable_name : Text → ℕ → Text
variable_name name num = if num == 1 then name else name ++ decimal num

unfoldable pub reserve_variable : Scope → Text → Text × Scope
reserve_variable s name =
    let num = number_of name s.declared_variables + 1 in
    (
      variable_name name num,
      record s { declared_variables = set_number name num s.declared_variables },
    )

abbrev pub or_empty : Option Text → Text
or_empty none = []
or_empty (some t) = t

abbrev pub initialized : Option Text → Text
initialized none = []
initialized (some t) = text " = " ++ t

-- A name whose declaration raises stays reserved in the code; what is raised ends the generation.
unfoldable pub declare_variable :
    Scope → Text → Text → Option Text → Option Text → Result (Text × Scope)
unfolding reserve_variable
declare_variable s type_ name initializer array =
    let (varname, s') = reserve_variable s name in
    do
      decl ← join_ctype_and_name type_ varname
      let line = decl ++ (or_empty array ++ (initialized initializer ++ text ";"))
      ok (varname, record s' { declarations = writeln s'.declarations line })

has_colon : Text → Bool
has_colon [] = false
has_colon (c ∷ s) = c == b':' || has_colon s

-- CodeBlock.declare_variable, with the scope of the block.
unfoldable pub declare_block_variable :
    Scope → Text → Text → Option Text → Option Text → Result (Text × Scope)
unfolding has_colon
declare_block_variable s type_ name initializer array =
    if has_colon name then raised value_error else declare_variable s type_ name initializer array
