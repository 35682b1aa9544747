-- ===== src/Query/Tables.antt =====
-- Clauses of query_base.go that name tables and columns: WITH, the tables, the columns, RETURNING.
-- `QueryWithArgs.AppendQuery` returns no error, so only an appender of the caller can fail here.
use uptrace_bun.Prelude.{
  ℕ, Bool, true, false, not, ◌&&◌, ◌||◌, List, [], ◌∷◌, ◌++◌, Option, none, some, Bytes, codes,
  if◌then◌else◌, equal, Result, ok, err, ltb, leb, length, ◌>>=◌, drop,
}
use uptrace_bun.Parser.{is_empty}
use uptrace_bun.Schema.Value.{QueryAppender}
use uptrace_bun.Schema.Formatter.{Formatter, append_ident, append_query}
use uptrace_bun.Schema.Sqlfmt.{QueryWithArgs, append_with_args, is_zero}
use uptrace_bun.Query.State.{
  Error, appender, no_table, WithQuery, BaseQuery, Table, Field, Returning, has_returning,
  columns_of,
}

-- An appender's error as an error of the builder.
unfoldable pub run : QueryAppender → Bytes → Result Error Bytes
run app b = elim (app b) [ ok bb ↦ ok bb | err e ↦ err (appender e) ]

append_with_columns : Option QueryAppender → Bytes → Result Error Bytes
unfolding run
append_with_columns none b = ok b
append_with_columns (some columns) b = do b' ← run columns (b ++ codes " ("); ok (b' ++ codes ")")

append_with_query : Formatter → Bytes → WithQuery → Result Error Bytes
unfolding append_with_columns run
append_with_query f b w = do
  b' ← append_with_columns w.with_columns (append_ident f b w.name)
  b'' ← run w.query (b' ++ codes " AS (")
  ok (b'' ++ b')' ∷ [])

append_with_rest : Formatter → Bytes → List WithQuery → Result Error Bytes
append_with_rest f b [] = ok (b ++ b' ' ∷ [])
append_with_rest f b (w ∷ ws) = do
  b' ← append_with_query f (b ++ codes ", ") w
  append_with_rest f b' ws

-- `appendWith`
unfoldable pub append_with : Formatter → Bytes → List WithQuery → Result Error Bytes
unfolding append_with_query append_with_rest
append_with f b [] = ok b
append_with f b (w ∷ ws) = do
  b' ← append_with_query f (b ++ codes "WITH ") w
  append_with_rest f b' ws

unfoldable pub has_table : Option Table → Bool
has_table none = false
has_table (some _) = true

unfoldable pub model_has_table_name : BaseQuery → Bool
unfolding has_table is_zero
model_has_table_name q = not (is_zero q.model_table) || has_table q.table

unfoldable pub has_tables : BaseQuery → Bool
unfolding model_has_table_name
has_tables q = model_has_table_name q || ltb 0 (length q.tables)

-- The model's table, in `_appendTables`.
append_model_table : Formatter → Bytes → BaseQuery → Bool → Bytes
unfolding is_zero
append_model_table f b q with_alias =
    if not (is_zero q.model_table) then append_with_args f b q.model_table else elim (q.table) [
      | none ↦ b
      | some t ↦
          let b' = append_query f b t.sql_name_for_selects none in
          if with_alias && not (equal t.sql_alias t.sql_name_for_selects)
          then (b' ++ codes " AS ") ++ t.sql_alias
          else b'
    ]

-- A comma and the next table, or the first one if nothing stands behind `start` bytes.
append_next_tables : Formatter → ℕ → Bytes → List QueryWithArgs → Bytes
append_next_tables f start b [] = b
append_next_tables f start b (t ∷ ts) =
    append_next_tables f start
      (append_with_args f (if ltb start (length b) then b ++ codes ", " else b) t) ts

-- `_appendTables`
unfoldable pub append_tables : Formatter → Bytes → BaseQuery → Bool → Bytes
unfolding append_model_table append_next_tables
append_tables f b q with_alias =
    append_next_tables f (length b) (append_model_table f b q with_alias) q.tables

first_table : Formatter → Bytes → List QueryWithArgs → Result Error Bytes
first_table f b [] = err no_table
first_table f b (t ∷ _) = ok (append_with_args f b t)

-- `_appendFirstTable`
unfoldable pub append_first_table : Formatter → Bytes → BaseQuery → Bool → Result Error Bytes
unfolding is_zero first_table
append_first_table f b q with_alias =
    if not (is_zero q.model_table)
    then ok (append_with_args f b q.model_table)
    else elim (q.table) [
      | some t ↦
          let b' = append_query f b t.sql_name none in
          ok (if with_alias then (b' ++ codes " AS ") ++ t.sql_alias else b')
      | none ↦ first_table f b q.tables
    ]

unfoldable pub has_multi_tables : BaseQuery → Bool
unfolding model_has_table_name
has_multi_tables q = leb (if model_has_table_name q then 1 else 2) (length q.tables)

-- Queries with a separator between them.
unfoldable pub append_separated : Formatter → Bytes → Bytes → List QueryWithArgs → Bytes
append_separated f b sep [] = b
append_separated f b sep (q ∷ []) = append_with_args f b q
append_separated f b sep (q ∷ r ∷ rest) =
    append_separated f (append_with_args f b q ++ sep) sep (r ∷ rest)

-- `appendOtherTables`
unfoldable pub append_other_tables : Formatter → Bytes → BaseQuery → Bytes
unfolding append_separated
append_other_tables f b q =
    append_separated f b (codes ", ") (if model_has_table_name q then q.tables else drop 1 q.tables)

-- `baseQuery.appendColumns`
unfoldable pub append_columns : Formatter → Bytes → BaseQuery → Bytes
unfolding append_separated columns_of
append_columns f b q = append_separated f b (codes ", ") (columns_of q.columns)

append_column : Bytes → Bytes → Field → Bytes
append_column b table f = (if is_empty table then b else (b ++ table) ++ b'.' ∷ []) ++ f.sql_name

-- The function `appendColumns`: fields behind the table's name, if it is not empty.
unfoldable pub append_fields : Bytes → Bytes → List Field → Bytes
unfolding append_column
append_fields b table [] = b
append_fields b table (f ∷ []) = append_column b table f
append_fields b table (f ∷ g ∷ rest) =
    append_fields (append_column b table f ++ codes ", ") table (g ∷ rest)

-- `appendReturning`
unfoldable pub append_returning : Formatter → Bytes → Returning → Bytes
unfolding append_separated append_fields has_returning
append_returning f b r =
    if has_returning r
    then elim (r.returning) [
      | [] ↦ append_fields (b ++ codes " RETURNING ") [] r.returning_fields
      | q ∷ rest ↦ append_separated f (b ++ codes " RETURNING ") (codes ", ") (q ∷ rest)
    ]
    else b
