-- ===== src/Query/Delete.antt =====
-- DELETE: query_delete.go, with `updateSoftDeleteField` of the table models. Rendering a DELETE changes
-- the query, so the query is returned with the text.
pub mod Safety
use uptrace_bun.Prelude.{
  ℕ, Bool, true, false, not, ◌&&◌, List, [], ◌∷◌, ◌++◌, map, Option, none, some, Bytes, codes,
  if◌then◌else◌, equal, Result, ok, err, ◌>>=◌,
}
use uptrace_bun.Schema.Dialects.{delete_table_alias, has_feature, Name}
use uptrace_bun.Schema.Value.{Value}
use uptrace_bun.Schema.Formatter.{Formatter}
use uptrace_bun.Schema.Sqlfmt.{QueryWithArgs, unsafe_ident}
use uptrace_bun.Query.State.{
  Error, nil_struct, BaseQuery, Table, Field, Struct, Model, struct_model, slice_model, Returning,
  has_table_model, add_column, where_all_with_deleted, set_err,
}
use uptrace_bun.Query.Tables.{
  append_with, append_first_table, append_other_tables, append_returning, has_multi_tables,
}
use uptrace_bun.Query.Where.{must_append_where}
use uptrace_bun.Query.Update.{UpdateQuery, append_update}

pub record DeleteQuery : Type 0 where
  pub base : BaseQuery
  pub returning : Returning

-- `UpdateSoftDeleteField` on a struct: `now` is the current time as the field holds it.
unfoldable pub stamp : Value → Field → Struct → Struct
stamp now field strct = record strct {
  value = λ name. if equal name field.name then now else strct.value name;
  is_zero = λ name. if equal name field.name then false else strct.is_zero name;
}

-- `updateSoftDeleteField` of a struct model and of a slice model; it panics without a struct.
unfoldable pub update_soft_delete_field : Value → Field → Model → Result Error Model
unfolding stamp
update_soft_delete_field now field (struct_model (some strct)) =
    ok (struct_model (some (stamp now field strct)))
update_soft_delete_field now field (struct_model none) = err nil_struct
update_soft_delete_field now field (slice_model slice) =
    ok (slice_model (map (stamp now field) slice))
update_soft_delete_field now field m = ok m

-- The soft delete field, if `DeleteQuery.isSoftDelete` holds.
unfoldable pub soft_delete_field : BaseQuery → Option Field
unfolding has_table_model
soft_delete_field q =
    if has_table_model q.model && not q.flags.force_delete
    then elim (q.table) [ none ↦ none | some t ↦ t.soft_delete_field ]
    else none

-- The UPDATE that stands for a soft DELETE.
unfoldable pub soft_update : DeleteQuery → Field → Model → UpdateQuery
unfolding add_column
soft_update q field m = record {
  base = add_column (record (q.base) { model = some m }) (unsafe_ident field.name);
  returning = q.returning;
  model_values = λ _. none;
  extra_values = [];
  set = [];
  omit_zero = false;
}

-- The soft DELETE, given what `updateSoftDeleteField` does to the model.
unfoldable pub append_delete_stamped :
    Formatter → Bytes → DeleteQuery → Field → Result Error Model → Result Error Bytes × DeleteQuery
unfolding soft_update
append_delete_stamped f b q field (err e) = (err e, q)
append_delete_stamped f b q field (ok m) = (
  append_update f b (soft_update q field m),
  record q { base = record (q.base) { model = some m } },
)

unfoldable pub append_delete_soft :
    Formatter
    → Value
    → Bytes
    → DeleteQuery
    → Field
    → Option Model
    → Result Error Bytes × DeleteQuery
unfolding update_soft_delete_field append_delete_stamped
append_delete_soft f now b q field none = (err nil_struct, q)
append_delete_soft f now b q field (some m) =
    append_delete_stamped f b q field (update_soft_delete_field now field m)

append_using : Formatter → Bytes → BaseQuery → Bytes
append_using f b q =
    if has_multi_tables q then append_other_tables f (b ++ codes " USING ") q else b

append_delete_returning : Formatter → Bytes → Returning → Bytes
append_delete_returning f b r = elim (r.returning) [ [] ↦ b | _ ∷ _ ↦ append_returning f b r ]

-- The DELETE itself, for the query that `WhereAllWithDeleted` returns. `db` is the dialect of the
-- query's database.
unfoldable pub append_delete_hard : Formatter → Name → Bytes → DeleteQuery → Result Error Bytes
unfolding append_using append_delete_returning
append_delete_hard f db b q = do
  b₁ ← append_with f b q.base.with_queries
  b₂ ← append_first_table f (b₁ ++ codes "DELETE FROM ") q.base (has_feature db delete_table_alias)
  b₃ ← must_append_where f (append_using f b₂ q.base) q.base (has_feature db delete_table_alias)
  ok (append_delete_returning f b₃ q.returning)

unfoldable pub with_all_deleted : DeleteQuery → DeleteQuery
with_all_deleted q = record q { base = where_all_with_deleted q.base }

-- `DeleteQuery.AppendQuery` of a query without an error, given the soft delete field.
unfoldable pub append_delete_text :
    Formatter → Name → Value → Bytes → DeleteQuery → Option Field → Result Error Bytes × DeleteQuery
unfolding append_delete_soft with_all_deleted append_delete_hard
append_delete_text f db now b q (some field) = append_delete_soft f now b q field (q.base.model)
append_delete_text f db now b q none =
    (append_delete_hard f db b (with_all_deleted q), with_all_deleted q)

-- The early return for a query with an error.
unfoldable pub append_delete_checked :
    Formatter → Name → Value → Bytes → DeleteQuery → Option Error → Result Error Bytes × DeleteQuery
unfolding soft_delete_field append_delete_text
append_delete_checked f db now b q (some e) = (err e, q)
append_delete_checked f db now b q none = append_delete_text f db now b q (soft_delete_field q.base)

-- `DeleteQuery.AppendQuery`
unfoldable pub append_delete :
    Formatter → Name → Value → Bytes → DeleteQuery → Result Error Bytes × DeleteQuery
unfolding append_delete_checked
append_delete f db now b q = append_delete_checked f db now b q (q.base.error)
