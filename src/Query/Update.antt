-- ===== src/Query/Update.antt =====
-- UPDATE: query_update.go, with `customValueQuery` and `setQuery` of query_base.go and `appendSet` of
-- model_map.go. `AppendQuery` of a query piece returns no error.
pub mod SetList
use uptrace_bun.Prelude.{
  ℕ, Bool, true, false, not, ◌&&◌, ◌||◌, List, [], ◌∷◌, ◌++◌, Option, none, some, Bytes, codes,
  if◌then◌else◌, equal, Result, ok, err, ltb, leb, length, ◌>>=◌,
}
use uptrace_bun.Schema.Dialects.{update_multi_table, has_feature}
use uptrace_bun.Schema.Value.{Value, append_value}
use uptrace_bun.Schema.Formatter.{Formatter, is_nop, append_ident}
use uptrace_bun.Schema.Sqlfmt.{QueryWithArgs, append_with_args}
use uptrace_bun.Query.State.{
  Error, nil_model, bulk_update, nil_struct, column_not_found, BaseQuery, Table, Field, Struct,
  Model, struct_model, slice_model, map_model, other_model, Returning, columns_of,
}
use uptrace_bun.Query.Tables.{
  append_with, append_tables, append_first_table, append_separated, append_other_tables,
  append_returning, has_multi_tables,
}
use uptrace_bun.Query.Where.{append_field_value, must_append_where}

-- The zero value of `model_values` answers `none`.
pub record UpdateQuery : Type 0 where
  pub base : BaseQuery
  pub returning : Returning
  pub model_values : Bytes → Option QueryWithArgs
  pub extra_values : List (Bytes × QueryWithArgs)
  pub set : List QueryWithArgs
  pub omit_zero : Bool

-- `addValue` of a query with a table.
unfoldable pub add_value : UpdateQuery → Table → Bytes → QueryWithArgs → UpdateQuery
add_value q t column v = elim (t.field_map column) [
  | some _ ↦ record q {
    model_values = λ name. if equal name column then some v else q.model_values name;
  }
  | none ↦ record q { extra_values = q.extra_values ++ (column, v) ∷ [] }
]

unfoldable pub add_set : UpdateQuery → QueryWithArgs → UpdateQuery
add_set q s = record q { set = q.set ++ s ∷ [] }

-- `_getFields`: the fields of the columns that are identifiers.
unfoldable pub fields_of : Table → Bool → List QueryWithArgs → Result Error (List Field)
fields_of t omit_pk [] = ok []
fields_of t omit_pk (col ∷ cols) =
    let rest = fields_of t omit_pk cols in
    elim (col.args) [
      | some _ ↦ rest
      | none ↦ elim (t.field_map col.query) [
        | none ↦ err (column_not_found col.query)
        | some field ↦
            if omit_pk && field.is_pk
            then rest
            else elim rest [ ok fields ↦ ok (field ∷ fields) | err e ↦ err e ]
      ]
    ]

-- `getDataFields` of a query with a table.
unfoldable pub get_data_fields : BaseQuery → Table → Result Error (List Field)
unfolding fields_of columns_of
get_data_fields q t = elim (columns_of q.columns) [
  | [] ↦ ok t.data_fields
  | _ ∷ _ ↦ fields_of t true (columns_of q.columns)
]

-- Whether `omitZero` skips the field.
unfoldable pub skips : UpdateQuery → Struct → Field → Bool
skips q strct field = q.omit_zero && field.null_zero && strct.is_zero field.name

-- The value of a field in the loop of `appendSetStruct`.
unfoldable pub append_set_value : Formatter → Bytes → UpdateQuery → Struct → Field → Bytes
unfolding append_field_value
append_set_value f b q strct field =
    if is_nop f then b ++ b'?' ∷ [] else elim (q.model_values field.name) [
      | some app ↦ append_with_args f b app
      | none ↦ append_field_value f b strct field
    ]

-- The loop over the fields; `pos` is the length of the text when a field was last begun.
unfoldable pub append_set_fields : Formatter → ℕ → Bytes → UpdateQuery → Struct → List Field → Bytes
unfolding skips append_set_value
append_set_fields f pos b q strct [] = b
append_set_fields f pos b q strct (field ∷ fields) =
    let fresh = not (ltb pos (length b)) && not (ltb (length b) pos) in
    let begun = if fresh then b else b ++ codes ", " in
    let set = append_set_value f ((begun ++ field.sql_name) ++ codes " = ") q strct field in
    let skipped = append_set_fields f pos b q strct fields in
    let done = append_set_fields f (if fresh then pos else length begun) set q strct fields in
    if skips q strct field then skipped else done

-- The loop over the extra values; the flag is `i > 0 || len(fields) > 0`.
unfoldable pub append_extra_values : Formatter → Bool → Bytes → List (Bytes × QueryWithArgs) → Bytes
append_extra_values f behind b [] = b
append_extra_values f behind b ((column, value) ∷ rest) =
    append_extra_values f true
      (append_with_args f (((if behind then b ++ codes ", " else b) ++ column) ++ codes " = ")
        value)
      rest

-- `appendSetStruct`
unfoldable pub append_set_struct :
    Formatter → Bytes → UpdateQuery → Table → Struct → Result Error Bytes
unfolding get_data_fields append_set_fields append_extra_values
append_set_struct f b q t strct = do
  fields ← get_data_fields q.base t
  ok (
      append_extra_values f (ltb 0 (length fields))
        (append_set_fields f (length b) b q strct fields) q.extra_values)

append_key_value : Formatter → Bytes → Bytes × Value → Bytes
append_key_value f b (key, value) =
    let b' = append_ident f b key ++ codes " = " in
    if is_nop f then b' ++ b'?' ∷ [] else append_value f.dialect b' value

-- `mapModel.appendSet`
unfoldable pub append_set_map : Formatter → Bytes → List (Bytes × Value) → Bytes
unfolding append_key_value
append_set_map f b [] = b
append_set_map f b (kv ∷ []) = append_key_value f b kv
append_set_map f b (kv ∷ next ∷ rest) =
    append_set_map f (append_key_value f b kv ++ codes ", ") (next ∷ rest)

-- The model's part of `mustAppendSet`. A struct model has a table, and reading a field of one without
-- a struct panics.
append_set_model :
    Formatter → Bytes → UpdateQuery → Option Model → Option Table → Result Error Bytes
unfolding append_set_struct append_set_map
append_set_model f b q (some (map_model m)) _ = ok (append_set_map f b m)
append_set_model f b q (some (slice_model _)) _ = err bulk_update
append_set_model f b q (some (struct_model (some strct))) (some t) = append_set_struct f b q t strct
append_set_model f b q (some (struct_model _)) _ = err nil_struct
append_set_model f b q _ _ = err nil_model

-- `mustAppendSet`
unfoldable pub must_append_set : Formatter → Bytes → UpdateQuery → Result Error Bytes
unfolding append_separated append_set_model
must_append_set f b q = elim (q.set) [
  | s ∷ rest ↦ ok (append_separated f (b ++ codes " SET ") (codes ", ") (s ∷ rest))
  | [] ↦ append_set_model f (b ++ codes " SET ") q (q.base.model) (q.base.table)
]

-- `UpdateQuery.appendOtherTables`
unfoldable pub append_from : Formatter → Bytes → BaseQuery → Bytes
unfolding has_multi_tables append_other_tables
append_from f b q = if has_multi_tables q then append_other_tables f (b ++ codes " FROM ") q else b

-- The table clause of UPDATE.
unfoldable pub append_update_tables : Formatter → Bytes → BaseQuery → Result Error Bytes
unfolding append_tables append_first_table
append_update_tables f b q =
    if has_feature f.dialect update_multi_table
    then ok (append_tables f b q true)
    else append_first_table f b q true

append_update_returning : Formatter → Bytes → Returning → Bytes
append_update_returning f b r = elim (r.returning) [ [] ↦ b | _ ∷ _ ↦ append_returning f b r ]

unfoldable pub append_update_where : Formatter → Bytes → UpdateQuery → Result Error Bytes
unfolding append_from must_append_where append_update_returning
append_update_where f b q =
    let multi = has_feature f.dialect update_multi_table in
    must_append_where f (if multi then b else append_from f b q.base) q.base multi >>= λ b'.
    ok (append_update_returning f b' q.returning)

-- `UpdateQuery.AppendQuery` of a query without an error.
unfoldable pub append_update_text : Formatter → Bytes → UpdateQuery → Result Error Bytes
unfolding append_with append_update_tables must_append_set append_update_where
append_update_text f b q = do
  b₁ ← append_with f b q.base.with_queries
  b₂ ← append_update_tables f (b₁ ++ codes "UPDATE ") q.base
  b₃ ← must_append_set f b₂ q
  append_update_where f b₃ q

-- `UpdateQuery.AppendQuery`
unfoldable pub append_update : Formatter → Bytes → UpdateQuery → Result Error Bytes
unfolding append_update_text
append_update f b q = elim (q.base.error) [ some e ↦ err e | none ↦ append_update_text f b q ]
