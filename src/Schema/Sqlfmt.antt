-- ===== src/Schema/Sqlfmt.antt =====
-- schema/sqlfmt.go: pieces of SQL that queries are built from.
use uptrace_bun.Prelude.{Bool, true, false, ◌&&◌, List, [], ◌∷◌, ◌++◌, Option, none, some, Bytes}
use uptrace_bun.Parser.{is_empty}
use uptrace_bun.Schema.Value.{Arg}
use uptrace_bun.Schema.Formatter.{Formatter, append_ident, append_query}

-- `Safe.AppendQuery`
unfoldable pub append_safe : Bytes → Bytes → Bytes
append_safe b s = b ++ s

-- Nil arguments are `none`; then the query is an identifier.
pub record QueryWithArgs : Type 0 where
  pub query : Bytes
  pub args : Option (List Arg)

-- The arguments that a variadic call passes: nil if there is none.
abbrev pub variadic : List Arg → Option (List Arg)
variadic [] = none
variadic (a ∷ rest) = some (a ∷ rest)

unfoldable pub safe_query : Bytes → Option (List Arg) → QueryWithArgs
safe_query [] args = record { query = []; args = args }
safe_query (c ∷ s) none = record { query = c ∷ s; args = some [] }
safe_query (c ∷ s) (some args) = record { query = c ∷ s; args = some args }

unfoldable pub unsafe_ident : Bytes → QueryWithArgs
unsafe_ident ident = record { query = ident; args = none }

args_are_nil : Option (List Arg) → Bool
args_are_nil none = true
args_are_nil (some _) = false

-- `QueryWithArgs.IsZero`
unfoldable pub is_zero : QueryWithArgs → Bool
unfolding args_are_nil
is_zero q = is_empty q.query && args_are_nil q.args

-- `QueryWithArgs.AppendQuery`, which returns no error; a panic of the formatter is the mark in the text.
unfoldable pub append_with_args : Formatter → Bytes → QueryWithArgs → Bytes
append_with_args f b q = elim (q.args) [
  | none ↦ append_ident f b q.query
  | some args ↦ append_query f b q.query (some args)
]

pub record QueryWithSep : Type 0 where
  pub query_with_args : QueryWithArgs
  pub open query_with_args use *
  pub sep : Bytes

unfoldable pub safe_query_with_sep : Bytes → Option (List Arg) → Bytes → QueryWithSep
unfolding safe_query
safe_query_with_sep query args sep = record { query_with_args = safe_query query args; sep = sep }
