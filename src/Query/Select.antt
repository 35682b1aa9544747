-- ===== src/Query/Select.antt =====
-- SELECT: query_select.go, and `AppendNamedArg` of query_base.go. `db` is the dialect of the query's
-- database, `to_upper` is strings.ToUpper.
pub mod Order
pub mod Count
use uptrace_bun.Prelude.{
  ℕ, zero, suc, ◌+◌, Bool, true, false, not, ◌&&◌, ◌||◌, List, [], ◌∷◌, ◌++◌, Option, none, some,
  Bytes, codes, if◌then◌else◌, equal, ◌==◌, Result, ok, err, ltb, length, take, drop, ◌>>=◌,
}
use uptrace_bun.Parser.{index_byte}
use uptrace_bun.Dialect.Append.{append_string}
use uptrace_bun.Strconv.{ℤ, pos, negsuc, append_int, append_uint, int32_of_int}
use uptrace_bun.Schema.Value.{Arg, Value, query_appender, NamedArgAppender}
use uptrace_bun.Schema.Formatter.{Formatter, is_nop, append_ident, append_query, with_model}
use uptrace_bun.Schema.Sqlfmt.{
  QueryWithArgs, QueryWithSep, append_with_args, append_safe, safe_query, unsafe_ident, is_zero,
  safe_query_with_sep,
}
use uptrace_bun.Query.State.{Error, nil_table, no_joins, BaseQuery, Table, Field, columns_of}
use uptrace_bun.Query.Tables.{
  append_with, append_tables, append_separated, append_fields, has_tables,
}
use uptrace_bun.Query.Where.{append_where}
use uptrace_bun.Query.Join.{
  Join, Joins, has_one_joins, append_has_one_joins, append_has_one_columns, JoinQuery,
  append_join_queries,
}

-- `query` is the `AppendQuery` of the other query.
pub record Union : Type 0 where
  pub expr : Bytes
  pub query : Formatter → Bytes → Result Error Bytes

-- Nil `distinctOn` is `none`. `relations` are the joins of the table model.
pub record SelectQuery : Type 0 where
  pub base : BaseQuery
  pub distinct_on : Option (List QueryWithArgs)
  pub joins : List JoinQuery
  pub group : List QueryWithArgs
  pub having : List QueryWithArgs
  pub order : List QueryWithArgs
  pub limit : ℤ
  pub offset : ℤ
  pub sel_for : QueryWithArgs
  pub union : List Union
  pub relations : Joins

unfoldable pub set_limit : SelectQuery → ℤ → SelectQuery
set_limit q n = record q { limit = int32_of_int n }

unfoldable pub set_offset : SelectQuery → ℤ → SelectQuery
set_offset q n = record q { offset = int32_of_int n }

unfoldable pub distinct : SelectQuery → SelectQuery
distinct q = record q { distinct_on = some [] }

unfoldable pub add_distinct_on : SelectQuery → QueryWithArgs → SelectQuery
unfolding columns_of
add_distinct_on q c = record q { distinct_on = some (columns_of q.distinct_on ++ c ∷ []) }

unfoldable pub add_join : SelectQuery → QueryWithArgs → SelectQuery
add_join q join = record q { joins = q.joins ++ (record { join = join; on = [] }) ∷ [] }

-- The last join gets the condition; `none` if there is no join.
add_on : List JoinQuery → QueryWithSep → Option (List JoinQuery)
add_on [] on = none
add_on (j ∷ []) on = some (record j { on = j.on ++ on ∷ [] } ∷ [])
add_on (j ∷ next ∷ rest) on = elim (add_on (next ∷ rest) on) [
  | none ↦ none
  | some js ↦ some (j ∷ js)
]

-- `joinOn`; it replaces an earlier error.
unfoldable pub join_on : SelectQuery → QueryWithSep → SelectQuery
unfolding add_on
join_on q on = elim (add_on q.joins on) [
  | none ↦ record q { base = record (q.base) { error = some no_joins } }
  | some js ↦ record q { joins = js }
]

-- The sort orders that `Order` knows, in upper case.
unfoldable pub is_sort : Bytes → Bool
unfolding equal
is_sort s =
    equal s (codes "ASC")
    || equal s (codes "DESC")
    || equal s (codes "ASC NULLS FIRST")
    || equal s (codes "DESC NULLS FIRST")
    || equal s (codes "ASC NULLS LAST")
    || equal s (codes "DESC NULLS LAST")

arg : Value → Arg
arg v = record { value = v; named_args = none }

-- `Ident(field)` and `Safe(sort)`, with the formatter that renders them filled in.
order_args : Formatter → Bytes → Bytes → List Arg
unfolding arg append_safe
order_args f field sort =
    arg (query_appender (λ b. ok (append_ident f b field)))
    ∷ arg (query_appender (λ b. ok (append_safe b sort)))
    ∷ []

-- What `Order` makes of a string that is not empty.
unfoldable pub order_item : (Bytes → Bytes) → Formatter → Bytes → QueryWithArgs
unfolding is_sort order_args index_byte
order_item to_upper f order = elim (index_byte b' ' order) [
  | none ↦ unsafe_ident order
  | some i ↦
      if is_sort (to_upper (drop (suc i) order))
      then safe_query (codes "? ?") (some (order_args f (take i order) (drop (suc i) order)))
      else unsafe_ident order
]

unfoldable pub add_orders :
    (Bytes → Bytes) → Formatter → List QueryWithArgs → List Bytes → List QueryWithArgs
unfolding order_item
add_orders to_upper f items [] = items
add_orders to_upper f items ([] ∷ orders) = add_orders to_upper f items orders
add_orders to_upper f items ((c ∷ order) ∷ orders) =
    add_orders to_upper f (items ++ order_item to_upper f (c ∷ order) ∷ []) orders

append_distinct : Formatter → Bytes → Option (List QueryWithArgs) → Bytes
append_distinct f b none = b
append_distinct f b (some []) = b ++ codes "DISTINCT "
append_distinct f b (some (d ∷ ds)) =
    append_separated f (b ++ codes "DISTINCT ON (") (codes ", ") (d ∷ ds) ++ codes ") "

-- A column that was named; without a table the look-up panics.
append_select_column : Formatter → Bytes → Option Table → QueryWithArgs → Result Error Bytes
append_select_column f b table col = elim (col.args) [
  | some _ ↦ ok (append_with_args f b col)
  | none ↦ elim table [
    | none ↦ err nil_table
    | some t ↦ elim (t.field_map col.query) [
      | some field ↦ ok (((b ++ t.sql_alias) ++ b'.' ∷ []) ++ field.sql_name)
      | none ↦ ok (append_with_args f b col)
    ]
  ]
]

append_named_columns : Formatter → Bytes → Option Table → List QueryWithArgs → Result Error Bytes
unfolding append_select_column
append_named_columns f b table [] = ok b
append_named_columns f b table (col ∷ []) = append_select_column f b table col
append_named_columns f b table (col ∷ next ∷ rest) = do
  b' ← append_select_column f b table col
  append_named_columns f (b' ++ codes ", ") table (next ∷ rest)

append_table_columns : Formatter → Bytes → Table → Bytes
append_table_columns f b t =
    if ltb 10 (length t.fields) && is_nop f
    then append_string ((b ++ t.sql_alias) ++ b'.' ∷ [])
        (append_uint [] (length t.fields) ++ codes " columns")
    else append_fields b t.sql_alias t.fields

append_own_columns : Formatter → Bytes → BaseQuery → Result Error Bytes
unfolding append_named_columns append_table_columns
append_own_columns f b q = elim (q.columns) [
  | some cols ↦ append_named_columns f b (q.table) cols
  | none ↦ elim (q.table) [ some t ↦ ok (append_table_columns f b t) | none ↦ ok (b ++ b'*' ∷ []) ]
]

-- The columns of the has-one joins; `start` is the length of the text at the last comma.
append_joined_columns : Formatter → ℕ → Bytes → Table → List Join → Bytes
append_joined_columns f start b t [] = b
append_joined_columns f start b t (j ∷ js) =
    let fresh = length b == start in
    let b' = if fresh then b else b ++ codes ", " in
    append_joined_columns f (length b') (append_has_one_columns f b' t j) t js

-- `bytes.TrimSuffix(b, ", ")`
trim_comma : Bytes → Bytes
unfolding equal
trim_comma [] = []
trim_comma (c ∷ s) = let rest = trim_comma s in if equal (c ∷ s) (codes ", ") then [] else c ∷ rest

-- `SelectQuery.appendColumns`; joins come with a table.
unfoldable pub append_select_columns : Formatter → Bytes → SelectQuery → Result Error Bytes
unfolding append_own_columns append_joined_columns trim_comma
append_select_columns f b q = do
  b' ← append_own_columns f b q.base
  ok (
      trim_comma (elim (q.base.table) [
        | none ↦ b'
        | some t ↦ append_joined_columns f (length b) b' t (has_one_joins q.relations)
      ]))

append_group : Formatter → Bytes → List QueryWithArgs → Bytes
append_group f b [] = b
append_group f b (g ∷ gs) = append_separated f (b ++ codes " GROUP BY ") (codes ", ") (g ∷ gs)

append_having_rest : Formatter → Bytes → List QueryWithArgs → Bytes
append_having_rest f b [] = b
append_having_rest f b (h ∷ hs) =
    append_having_rest f (append_with_args f (b ++ codes " AND (") h ++ b')' ∷ []) hs

append_having : Formatter → Bytes → List QueryWithArgs → Bytes
unfolding append_having_rest
append_having f b [] = b
append_having f b (h ∷ hs) =
    append_having_rest f (append_with_args f (b ++ codes " HAVING (") h ++ b')' ∷ []) hs

-- `appendOrder`
unfoldable pub append_order : Formatter → Bytes → List QueryWithArgs → Bytes
append_order f b [] = b
append_order f b (o ∷ os) = append_separated f (b ++ codes " ORDER BY ") (codes ", ") (o ∷ os)

-- A number behind a keyword, unless it is 0.
unfoldable pub append_number : Bytes → Bytes → ℤ → Bytes
append_number b keyword (pos zero) = b
append_number b keyword (pos (suc n)) = append_int (b ++ keyword) (pos (suc n))
append_number b keyword (negsuc n) = append_int (b ++ keyword) (negsuc n)

-- What stands behind HAVING unless the query counts.
unfoldable pub append_tail : Formatter → Bytes → SelectQuery → Bytes
unfolding append_order append_number
append_tail f b q =
    let limited = append_number (append_order f b q.order) (codes " LIMIT ") q.limit in
    let offset = append_number limited (codes " OFFSET ") q.offset in
    if is_zero q.sel_for then offset else append_with_args f (offset ++ codes " FOR ") q.sel_for

append_unions : Formatter → Bytes → List Union → Result Error Bytes
append_unions f b [] = ok b
append_unions f b (u ∷ us) = do
  b' ← u.query f ((b ++ u.expr) ++ b'(' ∷ [])
  append_unions f (b' ++ b')' ∷ []) us

append_union_part : Formatter → Bytes → List Union → Result Error Bytes
unfolding append_unions
append_union_part f b [] = ok b
append_union_part f b (u ∷ us) = append_unions f (b ++ b')' ∷ []) (u ∷ us)

open_union : Bytes → List Union → Bytes
open_union b [] = b
open_union b (_ ∷ _) = b ++ b'(' ∷ []

-- `cteCount` of a query that counts.
unfoldable pub wraps_count : SelectQuery → Bool
wraps_count q = elim (q.group) [
  | _ ∷ _ ↦ true
  | [] ↦ elim (q.distinct_on) [ none ↦ false | some _ ↦ true ]
]

append_selected : Formatter → Bytes → SelectQuery → Bool → Result Error Bytes
unfolding append_select_columns
append_selected f b q counts =
    if counts then ok (b ++ codes "count(*)") else append_select_columns f b q

append_from : Formatter → Bytes → BaseQuery → Bytes
append_from f b q = if has_tables q then append_tables f (b ++ codes " FROM ") q true else b

-- `appendQuery` between `cteCount` and the end, of a query without an error.
unfoldable pub append_select_body :
    Formatter → Bytes → SelectQuery → Bool → Bool → Result Error Bytes
unfolding append_distinct append_selected append_from append_group append_having append_tail
    append_union_part open_union
append_select_body f b q count cte = do
  with ← append_with f (open_union b q.union) q.base.with_queries
  selected ←
      append_selected f (append_distinct f (with ++ codes "SELECT ") q.distinct_on) q
        (count && not cte)
  filtered ←
      append_where f
        (append_join_queries f
          (append_has_one_joins f (append_from f selected q.base) q.base
            (has_one_joins q.relations))
          q.joins)
        q.base true
  let grouped = append_having f (append_group f filtered q.group) q.having in
      append_union_part f (if count then grouped else append_tail f grouped q) q.union

append_select_text : Formatter → Bytes → SelectQuery → Bool → Result Error Bytes
unfolding append_select_body wraps_count
append_select_text f b q count =
    if count && wraps_count q
    then (append_select_body f (b ++ codes "WITH _count_wrapper AS (") q count true >>= λ b'.
        ok (b' ++ codes ") SELECT count(*) FROM _count_wrapper"))
    else append_select_body f b q count false

-- `SelectQuery.appendQuery`; the flag is `count`.
unfoldable pub append_select : Formatter → Bytes → SelectQuery → Bool → Result Error Bytes
unfolding append_select_text
append_select f b q count = elim (q.base.error) [
  | some e ↦ err e
  | none ↦ append_select_text f b q count
]

-- `AppendNamedArg`. A table's name holds no placeholder, so its formatter needs no model.
unfoldable pub append_named_arg : Formatter → BaseQuery → NamedArgAppender
unfolding equal
append_named_arg f q b name = elim (q.table) [
  | none ↦ (b, false)
  | some t ↦
      if equal name (codes "TableName")
      then (append_query f b t.sql_name none, true)
      else if equal name (codes "TableAlias")
      then (append_query f b t.sql_alias none, true)
      else if equal name (codes "PKs")
      then (append_fields b [] t.pks, true)
      else if equal name (codes "TablePKs")
      then (append_fields b t.sql_alias t.pks, true)
      else if equal name (codes "Columns")
      then (append_fields b [] t.fields, true)
      else if equal name (codes "TableColumns")
      then (append_fields b t.sql_alias t.fields, true)
      else (b, false)
]

-- `formatterWithModel`
unfoldable pub formatter_with_model : Formatter → BaseQuery → Formatter
unfolding append_named_arg
formatter_with_model f q = if is_nop f then f else with_model f (append_named_arg f q)

-- `AppendQuery` of a SelectQuery, and of a countQuery.
unfoldable pub append_select_query : Formatter → Bytes → SelectQuery → Result Error Bytes
append_select_query f b q = append_select (formatter_with_model f q.base) b q false

unfoldable pub append_count_query : Formatter → Bytes → SelectQuery → Result Error Bytes
append_count_query f b q = append_select (formatter_with_model f q.base) b q true

-- `addUnion`
unfoldable pub add_union : SelectQuery → Bytes → SelectQuery → SelectQuery
unfolding append_select_query
add_union q expr other = record q {
  union = q.union ++ (record { expr = expr; query = λ f b. append_select_query f b other }) ∷ [];
}
