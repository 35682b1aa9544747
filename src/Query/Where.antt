-- ===== src/Query/Where.antt =====
-- The WHERE clause: `whereBaseQuery` of query_base.go.
use uptrace_bun.Prelude.{
  ℕ, Bool, true, false, not, ◌&&◌, ◌||◌, List, [], ◌∷◌, ◌++◌, Option, none, some, Bytes, codes,
  if◌then◌else◌, equal, Result, ok, err, ltb, length,
}
use uptrace_bun.Schema.Value.{append_value}
use uptrace_bun.Schema.Formatter.{Formatter, is_nop}
use uptrace_bun.Schema.Sqlfmt.{QueryWithSep, append_with_args, is_zero}
use uptrace_bun.Query.State.{
  Error, nil_model, no_where, where_pk_without_table, no_pks, where_pk_unsupported, BaseQuery,
  Table, Field, Struct, Model, struct_model, slice_model, is_soft_delete,
}
use uptrace_bun.Query.Tables.{append_fields}

-- `q.Field.AppendValue`, or a question mark in a template.
unfoldable pub append_field_value : Formatter → Bytes → Struct → Field → Bytes
append_field_value f b strct field =
    if is_nop f then b ++ b'?' ∷ [] else append_value f.dialect b (strct.value field.name)

-- One round of the loop of the function `appendWhere`.
unfoldable pub append_where_one : Formatter → Bool → Bytes → QueryWithSep → Bytes
unfolding is_zero
append_where_one f first b w =
    let b' = if not first || equal w.sep (codes "(") then b ++ w.sep else b in
    if is_zero w.query_with_args
    then b'
    else append_with_args f (b' ++ b'(' ∷ []) w.query_with_args ++ b')' ∷ []

-- The function `appendWhere`; the flag is `i == 0`.
unfoldable pub append_conditions : Formatter → Bool → Bytes → List QueryWithSep → Bytes
append_conditions f first b [] = b
append_conditions f first b (w ∷ ws) = append_conditions f false (append_where_one f first b w) ws

alias_prefix : Bool → Table → Bytes → Bytes
alias_prefix with_alias t b = if with_alias then (b ++ t.sql_alias) ++ b'.' ∷ [] else b

append_pk : Formatter → Bool → Table → Struct → Bytes → Field → Bytes
unfolding alias_prefix append_field_value
append_pk f with_alias t strct b pk =
    append_field_value f ((alias_prefix with_alias t b ++ pk.sql_name) ++ codes " = ") strct pk

append_pks : Formatter → Bool → Table → Struct → Bytes → List Field → Bytes
unfolding append_pk
append_pks f with_alias t strct b [] = b
append_pks f with_alias t strct b (pk ∷ []) = append_pk f with_alias t strct b pk
append_pks f with_alias t strct b (pk ∷ next ∷ rest) =
    append_pks f with_alias t strct (append_pk f with_alias t strct b pk ++ codes " AND ")
      (next ∷ rest)

unfoldable pub append_where_pk_struct :
    Formatter → Bytes → Table → Option Struct → Bool → Result Error Bytes
unfolding append_pks
append_where_pk_struct f b t none with_alias = err nil_model
append_where_pk_struct f b t (some strct) with_alias =
    ok (append_pks f with_alias t strct (b ++ b'(' ∷ []) t.pks ++ b')' ∷ [])

append_tuple : Formatter → Struct → Bytes → List Field → Bytes
unfolding append_field_value
append_tuple f strct b [] = b
append_tuple f strct b (pk ∷ []) = append_field_value f b strct pk
append_tuple f strct b (pk ∷ next ∷ rest) =
    append_tuple f strct (append_field_value f b strct pk ++ codes ", ") (next ∷ rest)

-- A parenthesis around more than one key.
in_parens : Bool → (Bytes → Bytes) → Bytes → Bytes
in_parens true body b = body (b ++ b'(' ∷ []) ++ b')' ∷ []
in_parens false body b = body b

append_tuples : Formatter → Table → Bytes → List Struct → Bytes
unfolding append_tuple in_parens
append_tuples f t b [] = b
append_tuples f t b (strct ∷ []) =
    in_parens (ltb 1 (length t.pks)) (λ x. append_tuple f strct x t.pks) b
append_tuples f t b (strct ∷ next ∷ rest) =
    let tuple = in_parens (ltb 1 (length t.pks)) (λ x. append_tuple f strct x t.pks) b in
    let others = append_tuples f t (tuple ++ codes ", ") (next ∷ rest) in
    if is_nop f then tuple else others

unfoldable pub append_where_pk_slice : Formatter → Bytes → Table → List Struct → Bool → Bytes
unfolding append_tuples in_parens
append_where_pk_slice f b t slice with_alias =
    let columns =
      in_parens (ltb 1 (length t.pks))
        (λ x. append_fields x (if with_alias then t.sql_alias else []) t.pks) b in
    append_tuples f t (columns ++ codes " IN (") slice ++ b')' ∷ []

where_pk_model : Formatter → Bytes → Table → Option Model → Bool → Result Error Bytes
unfolding append_where_pk_struct append_where_pk_slice
where_pk_model f b t (some (struct_model strct)) with_alias =
    append_where_pk_struct f b t strct with_alias
where_pk_model f b t (some (slice_model slice)) with_alias =
    ok (append_where_pk_slice f b t slice with_alias)
where_pk_model f b t _ with_alias = err where_pk_unsupported

-- `appendWherePK`
unfoldable pub append_where_pk : Formatter → Bytes → BaseQuery → Bool → Result Error Bytes
unfolding where_pk_model
append_where_pk f b q with_alias = elim (q.table) [
  | none ↦ err where_pk_without_table
  | some t ↦ elim (t.pks) [ [] ↦ err no_pks | _ ∷ _ ↦ where_pk_model f b t q.model with_alias ]
]

and_behind : ℕ → Bytes → Bytes
and_behind start b = if ltb start (length b) then b ++ codes " AND " else b

-- The condition on the soft delete field.
unfoldable pub append_soft_delete : Bytes → BaseQuery → Bool → Bytes
unfolding alias_prefix
append_soft_delete b q with_alias = elim (q.table) [
  | none ↦ b
  | some t ↦ elim (t.soft_delete_field) [
    | none ↦ b
    | some field ↦
        (alias_prefix with_alias t b ++ field.sql_name)
        ++ (if q.flags.deleted then codes " IS NOT NULL" else codes " IS NULL")
  ]
]

-- The parts of `appendWhere` behind the conditions, `start` being the length before them.
unfoldable pub append_where_rest : Formatter → ℕ → Bytes → BaseQuery → Bool → Result Error Bytes
unfolding and_behind append_soft_delete is_soft_delete append_where_pk
append_where_rest f start b q with_alias =
    let b' = if is_soft_delete q then append_soft_delete (and_behind start b) q with_alias else b in
    if q.flags.where_pk then append_where_pk f (and_behind start b') q with_alias else ok b'

unfoldable pub no_conditions : List QueryWithSep → Bool
no_conditions [] = true
no_conditions (_ ∷ _) = false

-- `whereBaseQuery.appendWhere`
unfoldable pub append_where : Formatter → Bytes → BaseQuery → Bool → Result Error Bytes
unfolding append_where_rest append_conditions append_where_one no_conditions is_soft_delete
append_where f b q with_alias =
    if no_conditions q.conditions && not (is_soft_delete q) && not q.flags.where_pk
    then ok b
    else append_where_rest f (length (b ++ codes " WHERE "))
        (append_conditions f true (b ++ codes " WHERE ") q.conditions) q with_alias

-- `mustAppendWhere`
unfoldable pub must_append_where : Formatter → Bytes → BaseQuery → Bool → Result Error Bytes
unfolding no_conditions append_where
must_append_where f b q with_alias =
    if no_conditions q.conditions && not q.flags.where_pk
    then err no_where
    else append_where f b q with_alias
