-- ===== src/Query/Insert.antt =====
-- INSERT: query_insert.go, with `addReturningField` and `getFields` of query_base.go. Rendering an
-- INSERT may add fields to RETURNING, so the state of RETURNING goes along with the text. `db` is the
-- dialect of the query's database. Two fields are the same if they have the same name.
pub mod Returned
use uptrace_bun.Prelude.{
  ℕ, Bool, true, false, not, ◌&&◌, ◌||◌, List, [], ◌∷◌, ◌++◌, Option, none, some, Bytes, codes,
  if◌then◌else◌, equal, Result, ok, err, ltb, length, ◌>>=◌,
}
use uptrace_bun.Parser.{is_empty}
use uptrace_bun.Schema.Dialects.{
  Name, has_feature, default_placeholder, insert_table_alias, on_duplicate_key, returning,
}
use uptrace_bun.Schema.Value.{Value, nil, append_value}
use uptrace_bun.Schema.Formatter.{Formatter, is_nop, append_ident}
use uptrace_bun.Schema.Sqlfmt.{QueryWithArgs, append_with_args, is_zero}
use uptrace_bun.Query.State.{
  Error, nil_model, nil_struct, nil_table, insert_map_slice, insert_unsupported, insert_empty,
  BaseQuery, Table, Field, Struct, Model, struct_model, slice_model, map_model, map_slice_model,
  other_model, Returning, has_returning, columns_of,
}
use uptrace_bun.Query.Tables.{
  append_with, append_first_table, append_separated, append_fields, append_columns,
  append_other_tables, append_returning, has_multi_tables,
}
use uptrace_bun.Query.Where.{append_field_value, append_where}
use uptrace_bun.Query.Update.{fields_of, get_data_fields}

pub record InsertQuery : Type 0 where
  pub base : BaseQuery
  pub returned : Returning
  pub model_values : Bytes → Option QueryWithArgs
  pub extra_values : List (Bytes × QueryWithArgs)
  pub on_conflict : QueryWithArgs
  pub set : List QueryWithArgs
  pub ignore : Bool
  pub replace : Bool

unfoldable pub has_field : Bytes → List Field → Bool
has_field name [] = false
has_field name (f ∷ fs) = equal f.name name || has_field name fs

-- `addReturningField`, given the expressions of `Returning`.
unfoldable pub add_field_without : List QueryWithArgs → Returning → Field → Returning
unfolding has_field
add_field_without (_ ∷ _) r field = r
add_field_without [] r field =
    if has_field field.name r.returning_fields
    then r
    else record r { returning_fields = r.returning_fields ++ field ∷ [] }

unfoldable pub add_returning_field : Returning → Field → Returning
unfolding add_field_without
add_returning_field r field = add_field_without r.returning r field

default_text : Name → Field → Bytes
default_text db field =
    if has_feature db default_placeholder
    then codes "DEFAULT"
    else if is_empty field.sql_default
    then codes "NULL"
    else field.sql_default

-- The value of a field, given what `Value` put in its place.
unfoldable pub append_value_or :
    Formatter → Name → Struct → Bytes × Returning → Field → Option QueryWithArgs → Bytes × Returning
unfolding default_text
append_value_or f db strct (b, r) field (some app) =
    (append_with_args f b app, add_returning_field r field)
append_value_or f db strct (b, r) field none =
    if is_nop f
    then (b ++ b'?' ∷ [], r)
    else if field.null_zero && strct.is_zero field.name
    then (b ++ default_text db field, add_returning_field r field)
    else (append_field_value f b strct field, r)

-- The body of the loop of `appendStructValues`.
unfoldable pub append_insert_value :
    Formatter → Name → InsertQuery → Struct → Bytes × Returning → Field → Bytes × Returning
unfolding append_value_or
append_insert_value f db q strct out field =
    append_value_or f db strct out field (q.model_values field.name)

unfoldable pub append_insert_values :
    Formatter → Name → InsertQuery → Struct → Bytes × Returning → List Field → Bytes × Returning
append_insert_values f db q strct out [] = out
append_insert_values f db q strct out (field ∷ []) = append_insert_value f db q strct out field
append_insert_values f db q strct out (field ∷ next ∷ rest) =
    let (b, r) = append_insert_value f db q strct out field in
    append_insert_values f db q strct (b ++ codes ", ", r) (next ∷ rest)

-- The loop over the extra values; the flag is `i > 0 || len(fields) > 0`.
unfoldable pub append_extras : Formatter → Bool → Bytes → List (Bytes × QueryWithArgs) → Bytes
append_extras f behind b [] = b
append_extras f behind b ((_, value) ∷ rest) =
    append_extras f true (append_with_args f (if behind then b ++ codes ", " else b) value) rest

-- `appendStructValues`
unfoldable pub append_struct_values :
    Formatter → Name → InsertQuery → List Field → Struct → Bytes × Returning → Bytes × Returning
unfolding append_insert_values append_extras
append_struct_values f db q fields strct out =
    let (b, r) = append_insert_values f db q strct out fields in
    (append_extras f (ltb 0 (length fields)) b q.extra_values, r)

unfoldable pub append_slice_rest :
    Formatter
    → Name
    → InsertQuery
    → List Field
    → List Struct
    → Bytes × Returning
    → Bytes × Returning
append_slice_rest f db q fields [] out = out
append_slice_rest f db q fields (strct ∷ slice) (b, r) =
    append_slice_rest f db q fields slice
      (append_struct_values f db q fields strct (b ++ codes "), (", r))

unfoldable pub append_slice_rows :
    Formatter
    → Name
    → InsertQuery
    → List Field
    → List Struct
    → Bytes × Returning
    → Bytes × Returning
unfolding append_slice_rest
append_slice_rows f db q fields [] out = out
append_slice_rows f db q fields (strct ∷ slice) out =
    append_slice_rest f db q fields slice (append_struct_values f db q fields strct out)

-- A struct that a template does not read.
unfoldable pub no_struct : Struct
no_struct = record { value = λ _. nil; is_zero = λ _. true }

-- `appendSliceValues`
unfoldable pub append_slice_values :
    Formatter
    → Name
    → InsertQuery
    → List Field
    → List Struct
    → Bytes × Returning
    → Bytes × Returning
unfolding append_slice_rows no_struct
append_slice_values f db q fields slice out =
    if is_nop f
    then append_struct_values f db q fields no_struct out
    else let (b, r) = append_slice_rows f db q fields slice out in
      (append_extras f (ltb 0 (length fields)) b q.extra_values, r)

-- `baseQuery.getFields` of a query with a table.
unfoldable pub get_fields : BaseQuery → Table → Result Error (List Field)
unfolding columns_of
get_fields q t = elim (columns_of q.columns) [
  | [] ↦ ok t.fields
  | c ∷ cs ↦ fields_of t false (c ∷ cs)
]

-- Whether the field is left to the database.
unfoldable pub is_left : Struct → Field → Bool
is_left strct field =
    field.not_null && field.null_zero && is_empty field.sql_default && strct.is_zero field.name

-- The fields that are inserted, and RETURNING with the others.
unfoldable pub inserted_fields : Struct → Returning → List Field → List Field × Returning
unfolding is_left
inserted_fields strct r [] = ([], r)
inserted_fields strct r (field ∷ fields) =
    let (kept, r') = inserted_fields strct r fields in
    let skipped = inserted_fields strct (add_returning_field r field) fields in
    if is_left strct field then skipped else (field ∷ kept, r')

-- The struct that tells which fields are inserted.
unfoldable pub sample_of : Model → Result Error Struct
sample_of (struct_model (some strct)) = ok strct
sample_of (struct_model none) = err nil_struct
sample_of (slice_model []) = err insert_empty
sample_of (slice_model (strct ∷ _)) = ok strct
sample_of _ = err nil_struct

-- `InsertQuery.getFields` of a query with a table.
unfoldable pub get_insert_fields :
    Name → InsertQuery → Table → Model → Result Error (List Field × Returning)
unfolding inserted_fields sample_of
get_insert_fields db q t m =
    if has_feature db default_placeholder || ltb 0 (length (columns_of q.base.columns))
    then (get_fields q.base t >>= λ fields. ok (fields, q.returned))
    else (sample_of m >>= λ strct. ok (inserted_fields strct q.returned t.fields))

append_field_names : Formatter → Bool → Bytes → List (Bytes × QueryWithArgs) → Bytes
append_field_names f behind b [] = b
append_field_names f behind b ((column, _) ∷ rest) =
    append_field_names f true (append_ident f (if behind then b ++ codes ", " else b) column) rest

-- `InsertQuery.appendFields`
unfoldable pub append_insert_fields : Formatter → Bytes → InsertQuery → List Field → Bytes
unfolding append_field_names
append_insert_fields f b q fields =
    append_field_names f (ltb 0 (length fields)) (append_fields b [] fields) q.extra_values

unfoldable pub append_model_values :
    Formatter
    → Name
    → InsertQuery
    → List Field
    → Model
    → Bytes × Returning
    → Result Error (Bytes × Returning)
append_model_values f db q fields (struct_model (some strct)) out =
    ok (append_struct_values f db q fields strct out)
append_model_values f db q fields (struct_model none) out = err nil_struct
append_model_values f db q fields (slice_model slice) out =
    ok (append_slice_values f db q fields slice out)
append_model_values f db q fields _ out = err insert_unsupported

-- The columns and rows of a table model.
unfoldable pub append_rows :
    Formatter → Name → Bytes → InsertQuery → Table → Model → Result Error (Bytes × Returning)
unfolding append_model_values
append_rows f db b q t m = do
  (fields, r) ← get_insert_fields db q t m
  (b', r') ←
      append_model_values f db q fields m
        (append_insert_fields f (b ++ codes " (") q fields ++ codes ") VALUES (", r)
  ok (b' ++ b')' ∷ [], r')

append_keys : Formatter → Bytes → List (Bytes × Value) → Bytes
append_keys f b [] = b
append_keys f b ((key, _) ∷ []) = append_ident f b key
append_keys f b ((key, _) ∷ kv ∷ rest) =
    append_keys f (append_ident f b key ++ codes ", ") (kv ∷ rest)

append_map_value : Formatter → Bytes → Value → Bytes
append_map_value f b v = if is_nop f then b ++ b'?' ∷ [] else append_value f.dialect b v

append_map_values : Formatter → Bytes → List (Bytes × Value) → Bytes
unfolding append_map_value
append_map_values f b [] = b
append_map_values f b ((_, v) ∷ []) = append_map_value f b v
append_map_values f b ((_, v) ∷ kv ∷ rest) =
    append_map_values f (append_map_value f b v ++ codes ", ") (kv ∷ rest)

-- `mapModel.appendColumnsValues`
unfoldable pub append_map : Formatter → Bytes → List (Bytes × Value) → Bytes
unfolding append_keys append_map_values
append_map f b m =
    append_map_values f (append_keys f (b ++ codes " (") m ++ codes ") VALUES (") m ++ b')' ∷ []

append_selected_rows : Formatter → Bytes → BaseQuery → Bytes
append_selected_rows f b q =
    append_other_tables f
      ((elim (q.columns) [ none ↦ b | some _ ↦ append_columns f (b ++ codes " (") q ++ codes ")" ])
        ++ codes " SELECT * FROM ")
      q

unfoldable pub append_insert_model :
    Formatter
    → Name
    → Bytes
    → InsertQuery
    → Option Model
    → Option Table
    → Result Error (Bytes × Returning)
unfolding append_map append_rows
append_insert_model f db b q none _ = err nil_model
append_insert_model f db b q (some (map_model m)) _ = ok (append_map f b m, q.returned)
append_insert_model f db b q (some (map_slice_model _)) _ = err insert_map_slice
append_insert_model f db b q (some m) (some t) = append_rows f db b q t m
append_insert_model f db b q (some _) none = err nil_table

-- `InsertQuery.appendColumnsValues`
unfoldable pub append_columns_values :
    Formatter → Name → Bytes → InsertQuery → Result Error (Bytes × Returning)
unfolding append_selected_rows append_insert_model
append_columns_values f db b q =
    if has_multi_tables q.base
    then ok (append_selected_rows f b q.base, q.returned)
    else append_insert_model f db b q (q.base.model) (q.base.table)

append_excluded : Bytes → Field → Bytes
append_excluded b field = ((b ++ field.sql_name) ++ codes " = EXCLUDED.") ++ field.sql_name

append_set_excluded : Bytes → List Field → Bytes
unfolding append_excluded
append_set_excluded b [] = b
append_set_excluded b (field ∷ []) = append_excluded b field
append_set_excluded b (field ∷ next ∷ rest) =
    append_set_excluded (append_excluded b field ++ codes ", ") (next ∷ rest)

fields_or_data : Table → List Field → List Field
fields_or_data t [] = t.data_fields
fields_or_data t (f ∷ fs) = f ∷ fs

append_on_columns : Bytes → BaseQuery → Result Error Bytes
unfolding append_set_excluded fields_or_data
append_on_columns b q = elim (columns_of q.columns) [
  | [] ↦ ok b
  | _ ∷ _ ↦ elim (q.table) [
    | none ↦ err nil_table
    | some t ↦ elim (get_data_fields q t) [
      | err e ↦ err e
      | ok fields ↦ ok (append_set_excluded (b ++ codes " SET ") (fields_or_data t fields))
    ]
  ]
]

append_on_set : Formatter → Bytes → InsertQuery → Result Error Bytes
unfolding append_on_columns
append_on_set f b q = elim (q.set) [
  | s ∷ rest ↦ ok (
      append_separated f
        (b ++ (if has_feature f.dialect on_duplicate_key then codes " " else codes " SET "))
        (codes ", ") (s ∷ rest))
  | [] ↦ append_on_columns b q.base
]

-- `appendOn`
unfoldable pub append_on : Formatter → Bytes → InsertQuery → Result Error Bytes
unfolding append_on_set
append_on f b q =
    if is_zero q.on_conflict
    then ok b
    else (append_on_set f (append_with_args f (b ++ codes " ON ") q.on_conflict) q >>= λ b'.
        append_where f b' q.base true)

insert_verb : InsertQuery → Bytes
insert_verb q =
    if q.replace
    then codes "REPLACE INTO "
    else if q.ignore
    then codes "INSERT IGNORE INTO "
    else codes "INSERT INTO "

append_insert_returning : Formatter → Name → Bytes → Returning → Bytes
append_insert_returning f db b r =
    if has_feature db returning && has_returning r then append_returning f b r else b

-- `InsertQuery.AppendQuery` of a query without an error.
unfoldable pub append_insert_text :
    Formatter → Name → Bytes → InsertQuery → Result Error (Bytes × Returning)
unfolding insert_verb append_insert_returning
append_insert_text f db b q = do
  b₁ ← append_with f b q.base.with_queries
  b₂ ←
      append_first_table f (b₁ ++ insert_verb q) q.base
        (has_feature db insert_table_alias && not (is_zero q.on_conflict))
  (b₃, r) ← append_columns_values f db b₂ q
  b₄ ← append_on f b₃ q
  ok (append_insert_returning f db b₄ r, r)

-- `InsertQuery.AppendQuery`: the text and the state of RETURNING behind it.
unfoldable pub append_insert :
    Formatter → Name → Bytes → InsertQuery → Result Error (Bytes × Returning)
unfolding append_insert_text
append_insert f db b q = elim (q.base.error) [ some e ↦ err e | none ↦ append_insert_text f db b q ]
