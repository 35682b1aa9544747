-- ===== src/Query/Ddl.antt =====
-- Statements on tables, indexes and columns: query_table_create.go, query_table_drop.go,
-- query_table_truncate.go, query_index_create.go, query_index_drop.go, query_column_add.go and
-- query_column_drop.go, with `cascadeQuery` of query_base.go. `db` is the dialect of the query's
-- database.
use uptrace_bun.Prelude.{
  ℕ, Bool, true, false, not, ◌&&◌, List, [], ◌∷◌, ◌++◌, Option, none, some, Bytes, codes,
  if◌then◌else◌, equal, ltb, Result, ok, err, ◌>>=◌,
}
use uptrace_bun.Parser.{is_empty}
use uptrace_bun.Strconv.{append_uint}
use uptrace_bun.Schema.Dialects.{
  Name, has_feature, table_cascade, table_truncate, table_identity, auto_increment,
}
use uptrace_bun.Schema.Formatter.{Formatter, append_ident}
use uptrace_bun.Schema.Sqlfmt.{QueryWithArgs, append_with_args, is_zero}
use uptrace_bun.Query.State.{Error, nil_model, one_column, BaseQuery, Table, Field, columns_of}
use uptrace_bun.Query.Tables.{append_tables, append_first_table, append_separated, append_fields}
use uptrace_bun.Query.Where.{append_conditions}

-- The early return for a query with an error.
unfoldable pub unless_error : {A : Type 0} → BaseQuery → Result Error A → Result Error A
unless_error q m = elim (q.error) [ some e ↦ err e | none ↦ m ]

-- `appendCascade`
unfoldable pub append_cascade : Formatter → Bytes → Bool → Bytes
append_cascade f b restrict =
    if has_feature f.dialect table_cascade
    then b ++ (if restrict then codes " RESTRICT" else codes " CASCADE")
    else b

pub record CreateTableQuery : Type 0 where
  pub base : BaseQuery
  pub temp : Bool
  pub if_not_exists : Bool
  pub varchar : ℕ
  pub fks : List QueryWithArgs
  pub partition_by : QueryWithArgs
  pub tablespace : QueryWithArgs

-- `appendSQLType`; a negative length of `Varchar` is as none at all.
unfoldable pub append_sql_type : ℕ → Bytes → Field → Bytes
append_sql_type varchar b field =
    if not (equal field.create_table_sql_type field.discovered_sql_type)
    then b ++ field.create_table_sql_type
    else if ltb 0 varchar && equal field.create_table_sql_type (codes "VARCHAR")
    then append_uint (b ++ codes "varchar(") varchar ++ codes ")"
    else b ++ field.create_table_sql_type

append_definition : Name → ℕ → Bytes → Field → Bytes
unfolding append_sql_type
append_definition db varchar b field =
    let typed = append_sql_type varchar ((b ++ field.sql_name) ++ codes " ") field in
    let null = if field.not_null then typed ++ codes " NOT NULL" else typed in
    let auto =
      if has_feature db auto_increment && field.auto_increment
      then null ++ codes " AUTO_INCREMENT"
      else null in
    if is_empty field.sql_default then auto else (auto ++ codes " DEFAULT ") ++ field.sql_default

-- The definitions of the columns.
unfoldable pub append_definitions : Name → ℕ → Bytes → List Field → Bytes
unfolding append_definition
append_definitions db varchar b [] = b
append_definitions db varchar b (field ∷ []) = append_definition db varchar b field
append_definitions db varchar b (field ∷ next ∷ rest) =
    append_definitions db varchar (append_definition db varchar b field ++ codes ", ") (next ∷ rest)

append_pk_constraint : Bytes → List Field → Bytes
append_pk_constraint b [] = b
append_pk_constraint b (pk ∷ pks) =
    append_fields (b ++ codes ", PRIMARY KEY (") [] (pk ∷ pks) ++ codes ")"

-- `appendUniqueConstraint`
unfoldable pub append_unique_constraint : Formatter → Bytes → Bytes × List Field → Bytes
append_unique_constraint f b (name, fields) =
    let constraint =
      if is_empty name then b ++ codes "," else append_ident f (b ++ codes ", CONSTRAINT ") name in
    append_fields (constraint ++ codes " UNIQUE (") [] fields ++ codes ")"

append_unique_constraints : Formatter → Bytes → List (Bytes × List Field) → Bytes
append_unique_constraints f b [] = b
append_unique_constraints f b (u ∷ us) =
    append_unique_constraints f (append_unique_constraint f b u) us

append_fk_constraints : Formatter → Bytes → List QueryWithArgs → Bytes
append_fk_constraints f b [] = b
append_fk_constraints f b (fk ∷ fks) =
    append_fk_constraints f (append_with_args f (b ++ codes ", FOREIGN KEY ") fk) fks

-- A clause behind a keyword, if there is one.
append_clause : Formatter → Bytes → Bytes → QueryWithArgs → Bytes
append_clause f b keyword q = if is_zero q then b else append_with_args f (b ++ keyword) q

append_create_table_text : Formatter → Name → Bytes → CreateTableQuery → Table → Result Error Bytes
unfolding append_definitions append_pk_constraint append_unique_constraint append_unique_constraints
    append_fk_constraints append_clause
append_create_table_text f db b q t = do
  named ←
      append_first_table f
        (((b ++ (if q.temp then codes "CREATE TEMP " else codes "CREATE ")) ++ codes "TABLE ")
          ++ (if q.if_not_exists then codes "IF NOT EXISTS " else []))
        q.base false
  let columns = append_definitions db q.varchar (named ++ codes " (") t.fields in
      let keys = append_unique_constraints f (append_pk_constraint columns t.pks) t.unique in
      let closed = append_fk_constraints f keys q.fks ++ codes ")" in
      ok (
        append_clause f (append_clause f closed (codes " PARTITION BY ") q.partition_by)
          (codes " TABLESPACE ") q.tablespace)

-- `CreateTableQuery.AppendQuery`
unfoldable pub append_create_table :
    Formatter → Name → Bytes → CreateTableQuery → Result Error Bytes
unfolding unless_error append_create_table_text
append_create_table f db b q =
    unless_error q.base
      (elim (q.base.table) [ none ↦ err nil_model | some t ↦ append_create_table_text f db b q t ])

pub record DropTableQuery : Type 0 where
  pub base : BaseQuery
  pub restrict : Bool
  pub if_exists : Bool

-- `DropTableQuery.AppendQuery`
unfoldable pub append_drop_table : Formatter → Bytes → DropTableQuery → Result Error Bytes
unfolding unless_error append_cascade
append_drop_table f b q = unless_error q.base (
    ok (
      append_cascade f
        (append_tables f
          (b ++ (if q.if_exists then codes "DROP TABLE IF EXISTS " else codes "DROP TABLE ")) q.base
          false)
        q.restrict))

pub record TruncateTableQuery : Type 0 where
  pub base : BaseQuery
  pub restrict : Bool
  pub continue_identity : Bool

append_identity : Name → Bytes → Bool → Bytes
append_identity db b continue_identity =
    if has_feature db table_identity
    then b ++ (if continue_identity then codes " CONTINUE IDENTITY" else codes " RESTART IDENTITY")
    else b

-- `TruncateTableQuery.AppendQuery`
unfoldable pub append_truncate_table :
    Formatter → Name → Bytes → TruncateTableQuery → Result Error Bytes
unfolding unless_error append_cascade append_identity
append_truncate_table f db b q = unless_error q.base (
    if has_feature f.dialect table_truncate
    then ok (
        append_cascade f
          (append_identity db (append_tables f (b ++ codes "TRUNCATE TABLE ") q.base false)
            q.continue_identity)
          q.restrict)
    else ok (append_tables f (b ++ codes "DELETE FROM ") q.base false))

pub record CreateIndexQuery : Type 0 where
  pub base : BaseQuery
  pub unique : Bool
  pub fulltext : Bool
  pub spatial : Bool
  pub concurrently : Bool
  pub if_not_exists : Bool
  pub index : QueryWithArgs
  pub using : QueryWithArgs
  pub include : List QueryWithArgs

append_option : Bytes → Bool → Bytes → Bytes
append_option b flag word = if flag then b ++ word else b

append_include : Formatter → Bytes → List QueryWithArgs → Bytes
append_include f b [] = b
append_include f b (c ∷ cs) =
    append_separated f (b ++ codes " INCLUDE (") (codes ", ") (c ∷ cs) ++ codes ")"

index_head : Bytes → CreateIndexQuery → Bytes
unfolding append_option
index_head b q =
    let kind =
      append_option
        (append_option (append_option (b ++ codes "CREATE ") q.unique (codes "UNIQUE ")) q.fulltext
          (codes "FULLTEXT "))
        q.spatial (codes "SPATIAL ") in
    append_option (append_option (kind ++ codes "INDEX ") q.concurrently (codes "CONCURRENTLY "))
      q.if_not_exists (codes "IF NOT EXISTS ")

-- `CreateIndexQuery.AppendQuery`: the conditions follow the columns with no keyword.
unfoldable pub append_create_index : Formatter → Bytes → CreateIndexQuery → Result Error Bytes
unfolding unless_error index_head append_include append_clause
append_create_index f b q = unless_error q.base (do
  named ←
      append_first_table f (append_with_args f (index_head b q) q.index ++ codes " ON ") q.base
        false
  let opened = append_clause f named (codes " USING ") q.using ++ codes " (" in
      let columns =
        append_separated f opened (codes ", ") (columns_of q.base.columns) ++ codes ")" in
      ok (append_conditions f true (append_include f columns q.include) q.base.conditions))

pub record DropIndexQuery : Type 0 where
  pub base : BaseQuery
  pub restrict : Bool
  pub concurrently : Bool
  pub if_exists : Bool
  pub index : QueryWithArgs

-- `DropIndexQuery.AppendQuery`
unfoldable pub append_drop_index : Formatter → Bytes → DropIndexQuery → Result Error Bytes
unfolding unless_error append_cascade append_option
append_drop_index f b q = unless_error q.base (
    ok (
      append_cascade f
        (append_with_args f
          (append_option
            (append_option (b ++ codes "DROP INDEX ") q.concurrently (codes "CONCURRENTLY "))
            q.if_exists (codes "IF EXISTS "))
          q.index)
        q.restrict))

-- The only column of a query; `none` if there is not exactly one.
unfoldable pub only_column : List QueryWithArgs → Option QueryWithArgs
only_column (c ∷ []) = some c
only_column _ = none

unfoldable pub append_alter :
    Formatter → Bytes → Bytes → BaseQuery → Option QueryWithArgs → Result Error Bytes
append_alter f b verb q none = err one_column
append_alter f b verb q (some c) =
    append_first_table f (b ++ codes "ALTER TABLE ") q false >>= λ b'.
    ok (append_with_args f (b' ++ verb) c)

-- `AddColumnQuery.AppendQuery`
unfoldable pub append_add_column : Formatter → Bytes → BaseQuery → Result Error Bytes
unfolding unless_error only_column append_alter
append_add_column f b q =
    unless_error q (append_alter f b (codes " ADD ") q (only_column (columns_of q.columns)))

-- `DropColumnQuery.AppendQuery`
unfoldable pub append_drop_column : Formatter → Bytes → BaseQuery → Result Error Bytes
unfolding unless_error only_column append_alter
append_drop_column f b q =
    unless_error q (append_alter f b (codes " DROP COLUMN ") q (only_column (columns_of q.columns)))
