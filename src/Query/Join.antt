-- ===== src/Query/Join.antt =====
-- Joins of a SELECT: the has-one joins of join.go, and `joinQuery` of query_select.go.
use uptrace_bun.Prelude.{Bool, List, [], ◌∷◌, ◌++◌, Option, none, some, Bytes, codes, if◌then◌else◌}
use uptrace_bun.Schema.Dialects.{ident_quote}
use uptrace_bun.Schema.Formatter.{Formatter, append_query}
use uptrace_bun.Schema.Sqlfmt.{QueryWithArgs, QueryWithSep, append_with_args}
use uptrace_bun.Query.State.{BaseQuery, Table, Field, Flags}

-- A join as the SELECT reads it. `parents` are the names of the relations of its has-one parents, the
-- outermost first; `base_alias` is the alias of the base model's table; `keys` are the base fields
-- with the join fields; `columns` is what `applyQuery` leaves.
pub record Join : Type 0 where
  pub name : Bytes
  pub parents : List Bytes
  pub base_alias : Bytes
  pub table : Table
  pub keys : List (Field × Field)
  pub columns : Option (List QueryWithArgs)

-- The joins of a table model. The flag tells has-one and belongs-to relations from the others; the
-- first list is that of the join's own model, the second what follows in the same list.
pub data Joins : Type 0 where
  nil : Joins
  cons : Bool → Join → Joins → Joins → Joins

-- The joins that `_forEachHasOneJoin` visits, in its order.
unfoldable pub has_one_joins : Joins → List Join
has_one_joins nil = []
has_one_joins (cons has_one j inner rest) =
    let visited = has_one_joins inner in
    let others = has_one_joins rest in if has_one then j ∷ (visited ++ others) else others

joined_names : Bytes → List Bytes → Bytes
joined_names b [] = b
joined_names b (name ∷ []) = b ++ name
joined_names b (name ∷ next ∷ rest) = joined_names ((b ++ name) ++ codes "__") (next ∷ rest)

-- The function `appendAlias`.
unfoldable pub append_alias_name : Bytes → Join → Bytes
unfolding joined_names
append_alias_name b j = joined_names b (j.parents ++ j.name ∷ [])

-- `join.appendAlias`
unfoldable pub append_alias : Formatter → Bytes → Join → Bytes
unfolding append_alias_name
append_alias f b j =
    append_alias_name (b ++ ident_quote f.dialect ∷ []) j ++ ident_quote f.dialect ∷ []

unfoldable pub append_alias_column : Formatter → Bytes → Join → Bytes → Bytes
unfolding append_alias_name
append_alias_column f b j column =
    ((append_alias_name (b ++ ident_quote f.dialect ∷ []) j ++ codes "__") ++ column)
    ++ ident_quote f.dialect ∷ []

unfoldable pub append_base_alias : Formatter → Bytes → Join → Bytes
unfolding joined_names
append_base_alias f b j = elim (j.parents) [
  | [] ↦ b ++ j.base_alias
  | p ∷ ps ↦ joined_names (b ++ ident_quote f.dialect ∷ []) (p ∷ ps) ++ ident_quote f.dialect ∷ []
]

-- `join.appendSoftDelete`
unfoldable pub append_join_soft_delete : Bytes → Field → Flags → Bytes
append_join_soft_delete b field flags =
    ((b ++ b'.' ∷ []) ++ field.sql_name)
    ++ (if flags.deleted then codes " IS NOT NULL" else codes " IS NULL")

append_key : Formatter → Bytes → Join → Field × Field → Bytes
unfolding append_alias append_base_alias
append_key f b j (base, joined) =
    (append_base_alias f (((append_alias f b j ++ b'.' ∷ []) ++ joined.sql_name) ++ codes " = ") j
      ++ b'.' ∷ [])
    ++ base.sql_name

append_keys : Formatter → Bytes → Join → List (Field × Field) → Bytes
unfolding append_key
append_keys f b j [] = b
append_keys f b j (k ∷ []) = append_key f b j k
append_keys f b j (k ∷ next ∷ rest) =
    append_keys f (append_key f b j k ++ codes " AND ") j (next ∷ rest)

-- `appendHasOneJoin`
unfoldable pub append_has_one_join : Formatter → Bytes → BaseQuery → Join → Bytes
unfolding append_keys append_join_soft_delete append_alias
append_has_one_join f b q j =
    let named = append_query f (b ++ codes "LEFT JOIN ") j.table.sql_name_for_selects none in
    let aliased = append_alias f (named ++ codes " AS ") j in
    let on = append_keys f (aliased ++ codes " ON (") j j.keys ++ b')' ∷ [] in
    elim (j.table.soft_delete_field) [
      | none ↦ on
      | some field ↦
          if q.flags.all_with_deleted
          then on
          else append_join_soft_delete (append_alias f (on ++ codes " AND ") j) field q.flags
    ]

-- The loop over the has-one joins of `appendQuery`.
unfoldable pub append_has_one_joins : Formatter → Bytes → BaseQuery → List Join → Bytes
append_has_one_joins f b q [] = b
append_has_one_joins f b q (j ∷ js) =
    append_has_one_joins f (append_has_one_join f (b ++ b' ' ∷ []) q j) q js

append_join_field : Formatter → Bytes → Join → Field → Bytes
unfolding append_alias append_alias_column
append_join_field f b j field =
    append_alias_column f (((append_alias f b j ++ b'.' ∷ []) ++ field.sql_name) ++ codes " AS ") j
      field.name

append_join_fields : Formatter → Bytes → Join → List Field → Bytes
unfolding append_join_field
append_join_fields f b j [] = b
append_join_fields f b j (field ∷ []) = append_join_field f b j field
append_join_fields f b j (field ∷ next ∷ rest) =
    append_join_fields f (append_join_field f b j field ++ codes ", ") j (next ∷ rest)

-- A column that was named: its field is looked up in the table of the query, not of the join.
unfoldable pub append_join_column : Formatter → Bytes → Table → Join → QueryWithArgs → Bytes
unfolding append_join_field
append_join_column f b t j col = elim (col.args) [
  | some _ ↦ append_with_args f b col
  | none ↦ elim (t.field_map col.query) [
    | some field ↦ append_join_field f b j field
    | none ↦ append_with_args f b col
  ]
]

append_join_columns : Formatter → Bytes → Table → Join → List QueryWithArgs → Bytes
unfolding append_join_column
append_join_columns f b t j [] = b
append_join_columns f b t j (col ∷ []) = append_join_column f b t j col
append_join_columns f b t j (col ∷ next ∷ rest) =
    append_join_columns f (append_join_column f b t j col ++ codes ", ") t j (next ∷ rest)

-- `appendHasOneColumns` behind `applyQuery`, for a query with a table.
unfoldable pub append_has_one_columns : Formatter → Bytes → Table → Join → Bytes
unfolding append_join_columns append_join_fields
append_has_one_columns f b t j = elim (j.columns) [
  | some cols ↦ append_join_columns f b t j cols
  | none ↦ append_join_fields f b j j.table.fields
]

-- `joinQuery`, of a call of `Join` and the calls of `JoinOn` and `JoinOnOr` behind it.
pub record JoinQuery : Type 0 where
  pub join : QueryWithArgs
  pub on : List QueryWithSep

append_on_rest : Formatter → Bytes → List QueryWithSep → Bytes
append_on_rest f b [] = b
append_on_rest f b (w ∷ ws) =
    append_on_rest f (append_with_args f ((b ++ w.sep) ++ b'(' ∷ []) w.query_with_args ++ b')' ∷ [])
      ws

-- `joinQuery.AppendQuery`
unfoldable pub append_join_query : Formatter → Bytes → JoinQuery → Bytes
unfolding append_on_rest
append_join_query f b j =
    let joined = append_with_args f (b ++ b' ' ∷ []) j.join in
    elim (j.on) [
      | [] ↦ joined
      | w ∷ ws ↦
          append_on_rest f
            (append_with_args f (joined ++ codes " ON (") w.query_with_args ++ b')' ∷ []) ws
    ]

unfoldable pub append_join_queries : Formatter → Bytes → List JoinQuery → Bytes
append_join_queries f b [] = b
append_join_queries f b (j ∷ js) = append_join_queries f (append_join_query f b j) js
