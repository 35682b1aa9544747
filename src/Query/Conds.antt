-- ===== src/Query/Conds.antt =====
-- The conditions of a query as a caller nests them, and the text that is meant by them.
pub mod Rendered
pub mod SoftDelete
use uptrace_bun.Prelude.{Bool, true, false, List, [], ◌∷◌, ◌++◌, Bytes, codes, if◌then◌else◌, ◌≡◌}
use uptrace_bun.Schema.Formatter.{Formatter}
use uptrace_bun.Schema.Sqlfmt.{QueryWithArgs, QueryWithSep, append_with_args, is_zero}
use uptrace_bun.Query.State.{add_where, add_where_group}

pub data Connective : Type 0 where
  conjunction disjunction : Connective

abbrev pub sep_of : Connective → Bytes
sep_of conjunction = codes " AND "
sep_of disjunction = codes " OR "

-- The calls on a builder: `Where` and `WhereOr`, and `WhereGroup` with the calls of its function.
pub data Conds : Type 0 where
  nil : Conds
  cond : Connective → QueryWithArgs → Conds → Conds
  group : Bytes → Conds → Conds → Conds

abbrev pub item : Connective → QueryWithArgs → QueryWithSep
item c q = record { query_with_args = q; sep = sep_of c }

-- What the calls leave in `q.where`: `WhereGroup` runs its function on an empty list.
unfoldable pub call : List QueryWithSep → Conds → List QueryWithSep
call ws nil = ws
call ws (cond c q rest) = call (add_where ws (item c q)) rest
call ws (group sep inner rest) = call (add_where_group ws sep (call [] inner)) rest

-- The text that is meant: each condition and each group in parentheses, with its separator before it
-- unless it stands first.
unfoldable pub intended : Formatter → Bool → Bytes → Conds → Bytes
intended f first b nil = b
intended f first b (cond c q rest) =
    intended f false
      (append_with_args f ((if first then b else b ++ sep_of c) ++ b'(' ∷ []) q ++ b')' ∷ []) rest
intended f first b (group sep inner rest) =
    intended f false
      (intended f true ((if first then b else b ++ sep) ++ b'(' ∷ []) inner ++ b')' ∷ []) rest

abbrev IsCond : Conds → Type 0
IsCond nil = ⊥
IsCond (cond c q rest) = Unit
IsCond (group sep inner rest) = ⊥

-- No condition is empty, and every group begins with a condition.
abbrev pub IsNested : Conds → Type 0
IsNested nil = Unit
IsNested (cond c q rest) = (is_zero q ≡ false) × IsNested rest
IsNested (group sep inner rest) = IsCond inner × IsNested inner × IsNested rest

-- A group that comes first of all has no separator.
abbrev pub NoFirstSep : Conds → Type 0
NoFirstSep nil = Unit
NoFirstSep (cond c q rest) = Unit
NoFirstSep (group sep inner rest) = sep ≡ []
