-- ===== src/Query/State.antt =====
-- The state that all query builders share, and its setters: `baseQuery`, `whereBaseQuery` and
-- `returningQuery` of query_base.go, with what they use of schema.Table and schema.Field.
use uptrace_bun.Prelude.{
  Bool, true, false, not, ◌||◌, List, [], ◌∷◌, ◌++◌, map, Option, none, some, Bytes, codes,
  if◌then◌else◌, equal, ltb, length,
}
use uptrace_bun.Schema.Value.{Value, QueryAppender}
use uptrace_bun.Schema.Sqlfmt.{QueryWithArgs, QueryWithSep, safe_query_with_sep, unsafe_ident}

-- The errors of the builders; an appender's own error is its message.
pub data Error : Type 0 where
  nil_model soft_delete_without_table no_soft_delete_field soft_delete_without_model : Error
  no_where where_pk_without_table no_pks where_pk_unsupported no_table bulk_update : Error
  nil_struct nil_table no_joins insert_map_slice insert_unsupported insert_empty : Error
  values_unsupported one_column : Error
  unknown_column column_not_found : Bytes → Error
  appender : Bytes → Error

pub record Field : Type 0 where
  pub name : Bytes
  pub sql_name : Bytes
  pub is_pk : Bool
  pub null_zero : Bool
  pub not_null : Bool
  pub auto_increment : Bool
  pub sql_default : Bytes
  pub user_sql_type : Bytes
  pub discovered_sql_type : Bytes
  pub create_table_sql_type : Bytes

-- `field_map` stands for the keys of `FieldMap` and what they lead to; `unique` holds the entries of
-- `Unique` in the order of their keys.
pub record Table : Type 0 where
  pub sql_name : Bytes
  pub sql_name_for_selects : Bytes
  pub sql_alias : Bytes
  pub fields : List Field
  pub pks : List Field
  pub data_fields : List Field
  pub unique : List (Bytes × List Field)
  pub field_map : Bytes → Option Field
  pub soft_delete_field : Option Field

-- A struct as the builders read it: the value of the field with the given name, `nil` for one that
-- is written as NULL, and whether the value is zero.
pub record Struct : Type 0 where
  pub value : Bytes → Value
  pub is_zero : Bytes → Bool

-- `struct_model none` has no valid struct. A map's keys are in ascending order, and the maps of a
-- slice of maps too. `other_model` is a model of any other kind.
pub data Model : Type 0 where
  struct_model : Option Struct → Model
  slice_model : List Struct → Model
  map_model : List (Bytes × Value) → Model
  map_slice_model : List (List (Bytes × Value)) → Model
  other_model : Model

-- `internal.Flag` with the four flags of query_base.go.
pub record Flags : Type 0 where
  pub where_pk : Bool
  pub force_delete : Bool
  pub deleted : Bool
  pub all_with_deleted : Bool

-- `with_columns` is the method of a ColumnsAppender, if the query is one.
pub record WithQuery : Type 0 where
  pub name : Bytes
  pub with_columns : Option QueryAppender
  pub query : QueryAppender

-- `baseQuery` with the `where` of `whereBaseQuery`. The table model, if there is one, is the model,
-- and its table is `table`. Nil columns are `none`.
pub record BaseQuery : Type 0 where
  pub model : Option Model
  pub error : Option Error
  pub table : Option Table
  pub with_queries : List WithQuery
  pub model_table : QueryWithArgs
  pub tables : List QueryWithArgs
  pub columns : Option (List QueryWithArgs)
  pub flags : Flags
  pub conditions : List QueryWithSep

-- `setErr`: the first error stays.
unfoldable pub set_err : BaseQuery → Error → BaseQuery
set_err q e = elim (q.error) [ none ↦ record q { error = some e } | some _ ↦ q ]

-- Whether `q.tableModel` is set.
unfoldable pub has_table_model : Option Model → Bool
has_table_model (some (struct_model _)) = true
has_table_model (some (slice_model _)) = true
has_table_model _ = false

unfoldable pub check_soft_delete : BaseQuery → Option Error
unfolding has_table_model
check_soft_delete q = elim (q.table) [
  | none ↦ some soft_delete_without_table
  | some t ↦ elim (t.soft_delete_field) [
    | none ↦ some no_soft_delete_field
    | some _ ↦ if has_table_model q.model then none else some soft_delete_without_model
  ]
]

unfoldable pub where_deleted : BaseQuery → BaseQuery
unfolding check_soft_delete set_err
where_deleted q = elim (check_soft_delete q) [
  | some e ↦ set_err q e
  | none ↦ record q { flags = record (q.flags) { deleted = true; all_with_deleted = false } }
]

unfoldable pub where_all_with_deleted : BaseQuery → BaseQuery
unfolding check_soft_delete set_err
where_all_with_deleted q = elim (check_soft_delete q) [
  | some e ↦ set_err q e
  | none ↦ record q { flags = record (q.flags) { deleted = false; all_with_deleted = true } }
]

-- `baseQuery.isSoftDelete`
unfoldable pub is_soft_delete : BaseQuery → Bool
is_soft_delete q = elim (q.table) [
  | none ↦ false
  | some t ↦ elim (t.soft_delete_field) [ none ↦ false | some _ ↦ not q.flags.all_with_deleted ]
]

unfoldable pub add_with : BaseQuery → WithQuery → BaseQuery
add_with q w = record q { with_queries = q.with_queries ++ w ∷ [] }

unfoldable pub add_table : BaseQuery → QueryWithArgs → BaseQuery
add_table q t = record q { tables = q.tables ++ t ∷ [] }

unfoldable pub columns_of : Option (List QueryWithArgs) → List QueryWithArgs
columns_of none = []
columns_of (some cs) = cs

unfoldable pub add_column : BaseQuery → QueryWithArgs → BaseQuery
unfolding columns_of
add_column q c = record q { columns = some (columns_of q.columns ++ c ∷ []) }

-- `_excludeColumn`: the first column that is the identifier goes; `none` if there is none.
unfoldable pub exclude_one : Bytes → List QueryWithArgs → Option (List QueryWithArgs)
exclude_one column [] = none
exclude_one column (c ∷ cs) = elim (c.args) [
  | some _ ↦ elim (exclude_one column cs) [ none ↦ none | some rest ↦ some (c ∷ rest) ]
  | none ↦ elim (equal c.query column) [
    | true ↦ some cs
    | false ↦ elim (exclude_one column cs) [ none ↦ none | some rest ↦ some (c ∷ rest) ]
  ]
]

unfoldable pub exclude_each : BaseQuery → List QueryWithArgs → List Bytes → BaseQuery
unfolding exclude_one set_err
exclude_each q cs [] = record q { columns = some cs }
exclude_each q cs (column ∷ rest) = elim (exclude_one column cs) [
  | none ↦ set_err (record q { columns = some cs }) (unknown_column column)
  | some cs' ↦ exclude_each q cs' rest
]

-- The columns that `excludeColumn` starts from: all of the table's if none were named.
unfoldable pub columns_or_fields : BaseQuery → List QueryWithArgs
columns_or_fields q = elim (q.columns) [
  | some cs ↦ cs
  | none ↦ elim (q.table) [
    | none ↦ []
    | some t ↦ map (λ (field : Field). unsafe_ident field.name) t.fields
  ]
]

is_star : List Bytes → Bool
unfolding equal
is_star (c ∷ []) = equal c (codes "*")
is_star _ = false

-- `excludeColumn` of a query with columns or a table.
unfoldable pub exclude_column : BaseQuery → List Bytes → BaseQuery
unfolding columns_or_fields is_star exclude_each
exclude_column q columns =
    if is_star columns
    then record q { columns = some [] }
    else exclude_each q (columns_or_fields q) columns

-- `where` of the query builders' `Where` and `WhereOr`.
unfoldable pub add_where : List QueryWithSep → QueryWithSep → List QueryWithSep
add_where ws w = ws ++ w ∷ []

-- `where[0].Sep = ""`
unfoldable pub clear_first_sep : List QueryWithSep → List QueryWithSep
clear_first_sep [] = []
clear_first_sep (w ∷ ws) = record w { sep = [] } ∷ ws

unfoldable pub add_where_group : List QueryWithSep → Bytes → List QueryWithSep → List QueryWithSep
unfolding add_where clear_first_sep safe_query_with_sep
add_where_group ws sep [] = ws
add_where_group ws sep (w ∷ group) =
    add_where
      (add_where ws (safe_query_with_sep [] none (sep ++ codes "(")) ++ clear_first_sep (w ∷ group))
      (safe_query_with_sep [] none (codes ")"))

pub record Returning : Type 0 where
  pub returning : List QueryWithArgs
  pub returning_fields : List Field

unfoldable pub add_returning : Returning → QueryWithArgs → Returning
add_returning r q = record r { returning = r.returning ++ q ∷ [] }

unfoldable pub has_returning : Returning → Bool
has_returning r = elim (r.returning) [
  | [] ↦ ltb 0 (length r.returning_fields)
  | q ∷ rest ↦ elim rest [
    | [] ↦ not (equal q.query (codes "null") || equal q.query (codes "NULL"))
    | _ ∷ _ ↦ true
  ]
]
