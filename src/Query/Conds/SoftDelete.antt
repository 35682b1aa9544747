-- ===== src/Query/Conds/SoftDelete.antt =====
-- The condition that soft deletes add to the WHERE clause in query_base.go.
use uptrace_bun.Prelude.{
  ℕ, true, false, not, ◌&&◌, [], ◌++◌, some, Bytes, codes, if◌then◌else◌, ok, ltb, length, ◌≡◌, ap,
  ◌∙◌,
}
use uptrace_bun.Schema.Formatter.{Formatter}
use uptrace_bun.Query.State.{BaseQuery, Table, Field, is_soft_delete}
use uptrace_bun.Query.Where.{
  append_conditions, append_where, append_where_rest, no_conditions, append_soft_delete,
}
use uptrace_bun.Query.Conds.{Conds, call, intended, IsNested, NoFirstSep}
use uptrace_bun.Query.Conds.Rendered.{append_conditions-call}

soft_on :
    (q : BaseQuery) (t : Table) (field : Field)
    → q.table ≡ some t
    → t.soft_delete_field ≡ some field
    → q.flags.all_with_deleted ≡ false
    → is_soft_delete q ≡ true
unfolding is_soft_delete
soft_on q t field ht hf ha = rw (ht, is_soft_delete, hf, ha)

soft_text :
    (q : BaseQuery) (t : Table) (field : Field) (b : Bytes)
    → q.table ≡ some t
    → t.soft_delete_field ≡ some field
    → q.flags.deleted ≡ false
    → append_soft_delete b q false ≡ (b ++ field.sql_name) ++ codes " IS NULL"
unfolding append_soft_delete
soft_text q t field b ht hf hd = rw (ht, append_soft_delete, hf, hd)

rest_soft :
    (f : Formatter) (q : BaseQuery) (t : Table) (field : Field) (start : ℕ) (b : Bytes)
    → q.table ≡ some t
    → t.soft_delete_field ≡ some field
    → q.flags.all_with_deleted ≡ false
    → q.flags.deleted ≡ false
    → q.flags.where_pk ≡ false
    → ltb start (length b) ≡ true
    → append_where_rest f start b q false
      ≡ ok (((b ++ codes " AND ") ++ field.sql_name) ++ codes " IS NULL")
unfolding append_where_rest
rest_soft f q t field start b ht hf ha hd hp hl =
    simp (hl, hp, soft_on q t field ht hf ha, soft_text q t field (b ++ codes " AND ") ht hf hd)

-- If the model has soft deletes that the query leaves on, and the conditions are nested as they have to
-- be and write something, the WHERE clause is their text, then ` AND ` and the test for NULL. No
-- parenthesis holds the conditions together, so after `WhereOr` the test binds to the last of them only.
pub append_where-soft_delete :
    (f : Formatter) (b : Bytes) (q : BaseQuery) (t : Table) (field : Field) (c : Conds)
    → IsNested c
    → NoFirstSep c
    → q.conditions ≡ call [] c
    → no_conditions (call [] c) ≡ false
    → ltb (length (b ++ codes " WHERE ")) (length (intended f true (b ++ codes " WHERE ") c)) ≡ true
    → q.table ≡ some t
    → t.soft_delete_field ≡ some field
    → q.flags.all_with_deleted ≡ false
    → q.flags.deleted ≡ false
    → q.flags.where_pk ≡ false
    → append_where f b q false
      ≡ ok (
          ((intended f true (b ++ codes " WHERE ") c ++ codes " AND ") ++ field.sql_name)
          ++ codes " IS NULL")
unfolding append_where
append_where-soft_delete f b q t field c nested first hc hn hl ht hf ha hd hp =
    ap
      (λ n.
        if n && not (is_soft_delete q) && not q.flags.where_pk
        then ok b
        else append_where_rest f (length (b ++ codes " WHERE "))
            (append_conditions f true (b ++ codes " WHERE ") q.conditions) q false)
      (ap no_conditions hc ∙ hn)
    ∙ ap (λ x. append_where_rest f (length (b ++ codes " WHERE ")) x q false)
        (ap (append_conditions f true (b ++ codes " WHERE ")) hc
          ∙ append_conditions-call f (b ++ codes " WHERE ") c nested first)
    ∙ rest_soft f q t field (length (b ++ codes " WHERE "))
        (intended f true (b ++ codes " WHERE ") c) ht hf ha hd hp hl
