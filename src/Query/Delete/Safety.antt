-- ===== src/Query/Delete/Safety.antt =====
-- DELETE and UPDATE without a condition, and rendering a DELETE twice: query_delete.go, query_update.go.
use uptrace_bun.Prelude.{
  Bool, true, false, [], ◌++◌, Option, none, some, Bytes, codes, Result, ok, err, ◌>>=◌, ◌≡◌, ◌≢◌,
  sym, ap, ◌∙◌,
}
use uptrace_bun.Schema.Dialects.{Name, has_feature, delete_table_alias, update_multi_table}
use uptrace_bun.Schema.Value.{Value}
use uptrace_bun.Schema.Formatter.{Formatter}
use uptrace_bun.Query.State.{
  Error, no_where, nil_struct, BaseQuery, Field, Model, check_soft_delete, set_err,
  where_all_with_deleted, add_column,
}
use uptrace_bun.Query.Tables.{append_with, append_first_table}
use uptrace_bun.Query.Where.{must_append_where}
use uptrace_bun.Query.Update.{
  UpdateQuery, append_update_tables, must_append_set, append_update, append_update_text,
  append_update_where,
}
use uptrace_bun.Query.Delete.{
  DeleteQuery, append_delete, append_delete_text, append_delete_checked, append_delete_hard,
  append_delete_soft, append_delete_stamped, with_all_deleted, soft_delete_field, soft_update,
  update_soft_delete_field,
}

-- Neither `Where` nor `WherePK` was called.
abbrev pub HasNoWhere : BaseQuery → Type 0
HasNoWhere q = (q.conditions ≡ []) × (q.flags.where_pk ≡ false)

must_append_where_none :
    (f : Formatter) (b : Bytes) (q : BaseQuery) (with_alias : Bool)
    → HasNoWhere q
    → must_append_where f b q with_alias ≡ err no_where
unfolding must_append_where
must_append_where_none f b q with_alias (h, k) = rw (h, k)

err_ne_ok : (e : Error) (x : Bytes) → err e ≢ ok x
err_ne_ok e x p = cc

refuse_bind :
    (m : Result Error Bytes) {k : Bytes → Result Error Bytes} {out : Bytes}
    → ((b : Bytes) → k b ≢ ok out)
    → m >>= k ≢ ok out
refuse_bind (ok b) h = h b
refuse_bind (err e) h = err_ne_ok e _

refuse_err :
    (m : Result Error Bytes) (k : Bytes → Result Error Bytes) {out : Bytes} {e : Error}
    → m ≡ err e
    → m >>= k ≢ ok out
refuse_err (err e) k h = err_ne_ok e _
refuse_err (ok b) k h = absurd (err_ne_ok _ b (sym h))

update_where_refused :
    (f : Formatter) (b out : Bytes) (q : UpdateQuery)
    → HasNoWhere q.base
    → append_update_where f b q ≢ ok out
unfolding append_update_where
update_where_refused f b out q h =
    refuse_err (must_append_where f _ q.base (has_feature f.dialect update_multi_table)) _
      (must_append_where_none f _ q.base _ h)

update_text_refused :
    (f : Formatter) (b out : Bytes) (q : UpdateQuery)
    → HasNoWhere q.base
    → append_update_text f b q ≢ ok out
unfolding append_update_text
update_text_refused f b out q h = refuse_bind (append_with f b q.base.with_queries) (λ b₁.
    refuse_bind (append_update_tables f (b₁ ++ codes "UPDATE ") q.base)
      (λ b₂. refuse_bind (must_append_set f b₂ q) (λ b₃. update_where_refused f b₃ out q h)))

-- A query with an error of a setter is not rendered.
guarded :
    (o : Option Error) (m : Result Error Bytes) (out : Bytes)
    → m ≢ ok out
    → elim o [ some e ↦ err e | none ↦ m ] ≢ ok out
guarded none m out n = n
guarded (some e) m out n = err_ne_ok e out

-- An UPDATE on which neither `Where` nor `WherePK` was called is never rendered.
pub append_update-refused :
    (f : Formatter) (b out : Bytes) (q : UpdateQuery)
    → HasNoWhere q.base
    → append_update f b q ≢ ok out
unfolding append_update
append_update-refused f b out q h =
    guarded q.base.error (append_update_text f b q) out (update_text_refused f b out q h)

delete_hard_refused :
    (f : Formatter) (db : Name) (b out : Bytes) (q : DeleteQuery)
    → HasNoWhere q.base
    → append_delete_hard f db b q ≢ ok out
unfolding append_delete_hard
delete_hard_refused f db b out q h = refuse_bind (append_with f b q.base.with_queries) (λ b₁.
    refuse_bind
      (append_first_table f (b₁ ++ codes "DELETE FROM ") q.base (has_feature db delete_table_alias))
      (λ b₂.
        refuse_err (must_append_where f _ q.base (has_feature db delete_table_alias)) _
          (must_append_where_none f _ q.base _ h)))

set_err-HasNoWhere : (q : BaseQuery) (e : Error) → HasNoWhere q → HasNoWhere (set_err q e)
unfolding set_err
set_err-HasNoWhere q e h =
    elim (q.error)
      as (λ o. HasNoWhere (elim o [ none ↦ record q { error = some e } | some _ ↦ q ])) [
        | none ↦ h
        | some _ ↦ h
      ]

all_deleted-HasNoWhere : (q : BaseQuery) → HasNoWhere q → HasNoWhere (where_all_with_deleted q)
unfolding where_all_with_deleted
all_deleted-HasNoWhere q h =
    elim (check_soft_delete q)
      as (λ o. HasNoWhere (elim o [
        | some e ↦ set_err q e
        | none ↦ record q { flags = record (q.flags) { deleted = false; all_with_deleted = true } }
      ])) [ none ↦ h | some e ↦ set_err-HasNoWhere q e h ]

delete_stamped_refused :
    (f : Formatter) (b out : Bytes) (q : DeleteQuery) (field : Field) (m : Result Error Model)
    → HasNoWhere q.base
    → (append_delete_stamped f b q field m).0 ≢ ok out
unfolding append_delete_stamped soft_update add_column
delete_stamped_refused f b out q field (err e) h = err_ne_ok e out
delete_stamped_refused f b out q field (ok m) h =
    append_update-refused f b out (soft_update q field m) h

delete_soft_refused :
    (f : Formatter) (now : Value) (b out : Bytes) (q : DeleteQuery) (field : Field)
    (m : Option Model)
    → HasNoWhere q.base
    → (append_delete_soft f now b q field m).0 ≢ ok out
unfolding append_delete_soft
delete_soft_refused f now b out q field none h = err_ne_ok nil_struct out
delete_soft_refused f now b out q field (some m) h =
    delete_stamped_refused f b out q field (update_soft_delete_field now field m) h

delete_text_refused :
    (f : Formatter) (db : Name) (now : Value) (b out : Bytes) (q : DeleteQuery) (o : Option Field)
    → HasNoWhere q.base
    → (append_delete_text f db now b q o).0 ≢ ok out
unfolding append_delete_text with_all_deleted
delete_text_refused f db now b out q (some field) h =
    delete_soft_refused f now b out q field (q.base.model) h
delete_text_refused f db now b out q none h =
    delete_hard_refused f db b out (with_all_deleted q) (all_deleted-HasNoWhere q.base h)

checked_refused :
    (f : Formatter) (db : Name) (now : Value) (b out : Bytes) (q : DeleteQuery) (o : Option Error)
    → HasNoWhere q.base
    → (append_delete_checked f db now b q o).0 ≢ ok out
unfolding append_delete_checked
checked_refused f db now b out q (some e) h = err_ne_ok e out
checked_refused f db now b out q none h =
    delete_text_refused f db now b out q (soft_delete_field q.base) h

-- A DELETE on which neither `Where` nor `WherePK` was called is never rendered, be it a soft delete or
-- not.
pub append_delete-refused :
    (f : Formatter) (db : Name) (now : Value) (b out : Bytes) (q : DeleteQuery)
    → HasNoWhere q.base
    → (append_delete f db now b q).0 ≢ ok out
unfolding append_delete
append_delete-refused f db now b out q h = checked_refused f db now b out q q.base.error h

module _ (f : Formatter) (db : Name) (now : Value) (b : Bytes) (q : DeleteQuery) where
  append_delete_failed :
      (e : Error) → q.base.error ≡ some e → (append_delete f db now b q).0 ≡ err e
  unfolding append_delete append_delete_checked
  append_delete_failed e h = ap (λ o. (append_delete_checked f db now b q o).0) h

  append_delete_state :
      q.base.error ≡ none
      → soft_delete_field q.base ≡ none
      → (append_delete f db now b q).1 ≡ with_all_deleted q
  unfolding append_delete append_delete_checked append_delete_text
  append_delete_state h k =
      ap (λ o. (append_delete_checked f db now b q o).1) h
      ∙ ap (λ o. (append_delete_text f db now b q o).1) k

all_deleted_error :
    (q : BaseQuery) (e : Error)
    → q.error ≡ none
    → check_soft_delete q ≡ some e
    → (where_all_with_deleted q).error ≡ some e
unfolding where_all_with_deleted set_err
all_deleted_error q e h c = rw (c, where_all_with_deleted, h, set_err)

-- Rendering a DELETE of a model without soft deletes leaves the query with the error of
-- `WhereAllWithDeleted`, so the same query fails when it is rendered again.
pub append_delete-again :
    (f : Formatter) (db : Name) (now : Value) (b b' : Bytes) (q : DeleteQuery) (e : Error)
    → q.base.error ≡ none
    → soft_delete_field q.base ≡ none
    → check_soft_delete q.base ≡ some e
    → (append_delete f db now b' (append_delete f db now b q).1).0 ≡ err e
unfolding with_all_deleted
append_delete-again f db now b b' q e h k c =
    append_delete_failed f db now b' (append_delete f db now b q).1 e (
      ap (λ x. x.base.error) (append_delete_state f db now b q h k)
      ∙ all_deleted_error q.base e h c)
