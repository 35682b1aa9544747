-- ===== src/Query/Values.antt =====
-- VALUES: query_values.go, and the maps of model_map_slice.go. `db` is the dialect of the query's
-- database.
use uptrace_bun.Prelude.{
  ℕ, suc, Bool, List, [], ◌∷◌, ◌++◌, Option, none, some, Bytes, codes, if◌then◌else◌, equal, Result,
  ok, err, ◌>>=◌,
}
use uptrace_bun.Strconv.{append_uint}
use uptrace_bun.Schema.Dialects.{Name, has_feature, values_row, double_colon_cast}
use uptrace_bun.Schema.Value.{Value, nil, append_value}
use uptrace_bun.Schema.Formatter.{Formatter, is_nop, append_ident}
use uptrace_bun.Schema.Sqlfmt.{QueryWithArgs, append_with_args}
use uptrace_bun.Query.State.{
  Error, nil_model, nil_struct, insert_empty, values_unsupported, BaseQuery, Table, Field, Struct,
  Model, struct_model, slice_model, map_model, map_slice_model,
}
use uptrace_bun.Query.Tables.{append_fields}
use uptrace_bun.Query.Where.{append_field_value}
use uptrace_bun.Query.Insert.{get_fields}

pub record ValuesQuery : Type 0 where
  pub base : BaseQuery
  pub model_values : Bytes → Option QueryWithArgs
  pub with_order : Bool

-- A field's value, given what replaces it; only a value of the model gets a cast.
append_cast_value : Formatter → Bytes → Struct → Field → Option QueryWithArgs → Bytes
append_cast_value f b strct field (some app) = append_with_args f b app
append_cast_value f b strct field none =
    let value = append_field_value f b strct field in
    if has_feature f.dialect double_colon_cast
    then (value ++ codes "::") ++ field.user_sql_type
    else value

-- `ValuesQuery.appendValues`
unfoldable pub append_tuple_values : Formatter → Bytes → ValuesQuery → List Field → Struct → Bytes
unfolding append_cast_value
append_tuple_values f b q [] strct = b
append_tuple_values f b q (field ∷ []) strct =
    append_cast_value f b strct field (q.model_values field.name)
append_tuple_values f b q (field ∷ next ∷ rest) strct =
    append_tuple_values f
      (append_cast_value f b strct field (q.model_values field.name) ++ codes ", ") q (next ∷ rest)
      strct

-- The opening of a row.
unfoldable pub open_row : Name → Bytes
open_row db = if has_feature db values_row then codes "ROW(" else codes "("

append_order_number : Bytes → ValuesQuery → ℕ → Bytes
append_order_number b q i = if q.with_order then append_uint (b ++ codes ", ") i else b

-- The rows of a slice from index `i` on.
unfoldable pub append_tuples_from :
    Formatter → Name → ℕ → Bytes → ValuesQuery → List Field → List Struct → Bytes
unfolding append_order_number
append_tuples_from f db i b q fields [] = b
append_tuples_from f db i b q fields (strct ∷ []) =
    append_order_number (append_tuple_values f b q fields strct) q i
append_tuples_from f db i b q fields (strct ∷ next ∷ rest) =
    append_tuples_from f db (suc i)
      ((append_order_number (append_tuple_values f b q fields strct) q i ++ codes "), ")
        ++ open_row db)
      q fields (next ∷ rest)

-- `ValuesQuery.appendQuery`
unfoldable pub append_values_rows :
    Formatter → Name → Bytes → ValuesQuery → List Field → Model → Result Error Bytes
unfolding append_order_number append_tuples_from open_row
append_values_rows f db b q fields (struct_model (some strct)) = ok (
    append_order_number
      (append_tuple_values f ((b ++ codes "VALUES ") ++ open_row db) q fields strct) q 0
    ++ b')' ∷ [])
append_values_rows f db b q fields (struct_model none) = err nil_struct
append_values_rows f db b q fields (slice_model slice) =
    ok (
      append_tuples_from f db 0 ((b ++ codes "VALUES ") ++ open_row db) q fields slice ++ b')' ∷ [])
append_values_rows f db b q fields _ = err values_unsupported

map_keys : List (Bytes × Value) → List Bytes
map_keys [] = []
map_keys ((key, _) ∷ rest) = key ∷ map_keys rest

-- A missing key is the zero value of an interface.
map_value : Bytes → List (Bytes × Value) → Value
map_value key [] = nil
map_value key ((key', v) ∷ rest) = if equal key' key then v else map_value key rest

-- `initKeys`: the keys of the first map; its entries are in the order of their keys.
unfoldable pub init_keys : List (List (Bytes × Value)) → Result Error (List Bytes)
unfolding map_keys
init_keys [] = err insert_empty
init_keys (first ∷ rest) = ok (map_keys first)

append_key_names : Formatter → Bytes → List Bytes → Bytes
append_key_names f b [] = b
append_key_names f b (k ∷ []) = append_ident f b k
append_key_names f b (k ∷ next ∷ rest) =
    append_key_names f (append_ident f b k ++ codes ", ") (next ∷ rest)

append_row_values : Formatter → Bytes → List Bytes → List (Bytes × Value) → Bytes
unfolding map_value
append_row_values f b [] el = b
append_row_values f b (k ∷ []) el = append_value f.dialect b (map_value k el)
append_row_values f b (k ∷ next ∷ rest) el =
    append_row_values f (append_value f.dialect b (map_value k el) ++ codes ", ") (next ∷ rest) el

append_map_rows : Formatter → Name → Bytes → List Bytes → List (List (Bytes × Value)) → Bytes
unfolding append_row_values open_row
append_map_rows f db b keys [] = b
append_map_rows f db b keys (el ∷ []) = append_row_values f b keys el
append_map_rows f db b keys (el ∷ next ∷ rest) =
    append_map_rows f db ((append_row_values f b keys el ++ codes "), ") ++ open_row db) keys
      (next ∷ rest)

append_marks : Bytes → List Bytes → Bytes
append_marks b [] = b
append_marks b (k ∷ []) = b ++ b'?' ∷ []
append_marks b (k ∷ next ∷ rest) = append_marks (b ++ codes "?, ") (next ∷ rest)

-- `mapSliceModel.appendValues`: a template has no closing parenthesis.
unfoldable pub append_map_slice :
    Formatter → Name → Bytes → List (List (Bytes × Value)) → Result Error Bytes
unfolding append_map_rows append_marks open_row
append_map_slice f db b slice = do
  keys ← init_keys slice
  let opened = (b ++ codes "VALUES ") ++ open_row db in
      ok (
        if is_nop f
        then append_marks opened keys
        else append_map_rows f db opened keys slice ++ b')' ∷ [])

append_model_rows :
    Formatter → Name → Bytes → ValuesQuery → Model → Option Table → Result Error Bytes
unfolding append_map_slice
append_model_rows f db b q (map_slice_model slice) _ = append_map_slice f db b slice
append_model_rows f db b q (map_model _) _ = err values_unsupported
append_model_rows f db b q m (some t) =
    get_fields q.base t >>= λ fields. append_values_rows f db b q fields m
append_model_rows f db b q m none = err values_unsupported

-- `ValuesQuery.AppendQuery`; a table model has a table. The rows hold no placeholder that the
-- formatter's model could fill in.
unfoldable pub append_values_query : Formatter → Name → Bytes → ValuesQuery → Result Error Bytes
unfolding append_model_rows append_values_rows
append_values_query f db b q = elim (q.base.error) [
  | some e ↦ err e
  | none ↦ elim (q.base.model) [
    | none ↦ err nil_model
    | some m ↦ append_model_rows f db b q m (q.base.table)
  ]
]

append_model_columns : Formatter → Bytes → ValuesQuery → Model → Option Table → Result Error Bytes
unfolding append_key_names
append_model_columns f b q (map_slice_model slice) _ =
    init_keys slice >>= λ keys. ok (append_key_names f b keys)
append_model_columns f b q (map_model _) _ = err values_unsupported
append_model_columns f b q m (some t) = get_fields q.base t >>= λ fields. ok (
    if q.with_order
    then append_fields b [] fields ++ codes ", _order"
    else append_fields b [] fields)
append_model_columns f b q m none = err values_unsupported

-- `AppendColumns`
unfoldable pub append_values_columns : Formatter → Bytes → ValuesQuery → Result Error Bytes
unfolding append_model_columns
append_values_columns f b q = elim (q.base.error) [
  | some e ↦ err e
  | none ↦ elim (q.base.model) [
    | none ↦ err nil_model
    | some m ↦ append_model_columns f b q m (q.base.table)
  ]
]
