-- ===== src/Tests/Queries.antt =====
-- Queries on sample tables.
use uptrace_bun.Query.Tables.{append_first_table, append_with, has_multi_tables}
use uptrace_bun.Prelude.{
  true, false, List, [], ◌∷◌, ◌++◌, Option, none, some, Bytes, codes, ok, err, length,
  length-append, equal, ◌≤◌, if◌then◌else◌, ◌≡◌, ◌≢◌, refl, arith,
}
use uptrace_bun.Dialect.Utf8.{runes}
use uptrace_bun.Strconv.{pos}
use uptrace_bun.Parser.{is_alpha, is_num}
use uptrace_bun.Schema.Dialects.{has_feature, pg}
use uptrace_bun.Schema.Value.{Arg, Value, int, string, other, append_value}
use uptrace_bun.Schema.Formatter.{
  Formatter, is_nop, append_query, append_arg, format_query, try_append_query, nil_pointer,
  get_named,
}
use uptrace_bun.Schema.Formatter.Panics.{try_append_query-nil_struct}
use uptrace_bun.Schema.Formatter.Renders
use uptrace_bun.Schema.Formatter.Renders.{Writes}
use uptrace_bun.Schema.Formatter.Laws.{append_query-Renders}
use uptrace_bun.Schema.Sqlfmt.{unsafe_ident, QueryWithArgs, is_zero, append_with_args}
use uptrace_bun.Query.State.{
  add_where_group, where_all_with_deleted, add_where, BaseQuery, Table, Field, Struct, struct_model,
  no_soft_delete_field, check_soft_delete, Returning,
}
use uptrace_bun.Query.Where.{
  must_append_where, append_where_one, append_conditions, append_where, no_conditions,
}
use uptrace_bun.Query.Conds.{Conds, nil, cond, group, conjunction, disjunction, call, intended}
use uptrace_bun.Query.Conds.Rendered.{append_conditions-call, append_conditions-unbalanced}
use uptrace_bun.Query.Conds.SoftDelete.{append_where-soft_delete}
use uptrace_bun.Query.Update.{
  append_set_struct, get_data_fields, skips, UpdateQuery, append_update, append_set_fields,
  append_set_value,
}
use uptrace_bun.Query.Update.SetList.{
  append_set_struct-comma, assignments, append_set_fields-assignments,
}
use uptrace_bun.Query.Delete.{DeleteQuery, append_delete, soft_delete_field}
use uptrace_bun.Query.Delete.Safety.{
  append_update-refused, append_delete-refused, append_delete-again,
}

abbrev pub arg : Value → Arg
arg v = record { value = v; named_args = none }

abbrev pub sample_formatter : Formatter
sample_formatter = record { dialect = pg; model = none; named_args = [] }

abbrev sample_args : List Arg
sample_args = arg (int (pos 42)) ∷ arg (string (codes "o'x?")) ∷ []

format_sample :
    format_query sample_formatter (codes "a = ? and b=?1 \\? ?x ?(foo) ? ?") (some sample_args)
    ≡ codes "a = 42 and b='o''x?' ? ?x ?foo 'o''x?' ?"
unfolding format_query runes
format_sample = refl

text-Writes : Writes sample_formatter (arg (other (codes "now()"))) (codes "now()")
unfolding append_arg
text-Writes b = refl

no_slash : (u : Bytes) → [] ≢ u ++ b'\\' ∷ []
no_slash [] = cc
no_slash (c ∷ u) = cc

append_query-Renders_example :
    (try_append_query sample_formatter
        (codes "x")
        (codes "? \\?")
        (some (arg (other (codes "now()")) ∷ []))
      ≡ ok (codes "x" ++ codes "now() ?"))
    × (append_query sample_formatter
          (codes "x")
          (codes "? \\?")
          (some (arg (other (codes "now()")) ∷ []))
        ≡ codes "x" ++ codes "now() ?")
unfolding is_nop is_num is_alpha
append_query-Renders_example =
    append_query-Renders sample_formatter (arg (other (codes "now()")) ∷ []) (codes "x") refl (
      Renders.positional [] (codes " \\?") (codes " ?") (codes "now()") tt no_slash
        (refl, refl, omega arith) refl text-Writes
        (Renders.escaped (codes " ") [] [] (omega arith, tt) (Renders.plain [] tt)))

try_append_query-nil_struct_example :
    try_append_query sample_formatter [] (codes "?TableAlias = ?") (some (arg (int (pos 1)) ∷ []))
    ≡ err nil_pointer
unfolding is_nop is_alpha get_named is_num
try_append_query-nil_struct_example =
    try_append_query-nil_struct sample_formatter (arg (int (pos 1))) [] [] (codes "ableAlias")
      (codes " = ?") b'T' refl refl tt no_slash refl
      (refl, (refl, (refl, (refl, (refl, (refl, (refl, (refl, (refl, tt)))))))))
      (refl, refl, omega arith) refl

abbrev pub query_of : Bytes → QueryWithArgs
query_of s = record { query = s; args = some [] }

abbrev pub either : Conds
either = cond conjunction (query_of (codes "a")) (cond disjunction (query_of (codes "b")) nil)

append_conditions-call_example :
    append_conditions sample_formatter true
      (codes "x")
      (call [] (cond conjunction (query_of (codes "c")) (group (codes " AND ") either nil)))
    ≡ intended sample_formatter true
        (codes "x")
        (cond conjunction (query_of (codes "c")) (group (codes " AND ") either nil))
unfolding is_zero
append_conditions-call_example =
    append_conditions-call sample_formatter (codes "x")
      (cond conjunction (query_of (codes "c")) (group (codes " AND ") either nil))
      (refl, (tt, (refl, (refl, tt)), tt)) tt

append_conditions-unbalanced_example :
    append_conditions sample_formatter true (codes "x") (call [] (group (codes " AND ") either nil))
    ≡ intended sample_formatter false
        (intended sample_formatter true (codes "x") either ++ codes ")")
        nil
unfolding is_zero
append_conditions-unbalanced_example =
    append_conditions-unbalanced sample_formatter (codes "x") conjunction conjunction
      (query_of (codes "a")) (cond disjunction (query_of (codes "b")) nil) nil (refl, (refl, tt)) tt

-- The text of a group that comes first.
unbalanced_sample :
    append_conditions sample_formatter true [] (call [] (group (codes " AND ") either nil))
    ≡ codes "(a) OR (b))"
unfolding append_conditions call append_with_args add_where_group append_where_one append_query
unbalanced_sample = refl

abbrev pub deleted_at : Field
deleted_at = record {
  name = codes "deleted_at";
  sql_name = codes "\"deleted_at\"";
  is_pk = false;
  null_zero = true;
  not_null = false;
  auto_increment = false;
  sql_default = [];
  user_sql_type = codes "timestamptz";
  discovered_sql_type = codes "timestamptz";
  create_table_sql_type = codes "timestamptz";
}

abbrev pub sample_table : Option Field → Table
sample_table soft = record {
  sql_name = codes "\"t\"";
  sql_name_for_selects = codes "\"t\"";
  sql_alias = codes "\"t\"";
  fields = deleted_at ∷ [];
  pks = [];
  data_fields = deleted_at ∷ [];
  unique = [];
  field_map = λ name. if equal name (codes "deleted_at") then some deleted_at else none;
  soft_delete_field = soft;
}

abbrev pub sample_struct : Struct
sample_struct = record { value = λ _. other (codes "DEFAULT"); is_zero = λ _. false }

abbrev pub sample_query : Option Field → Conds → BaseQuery
sample_query soft c = record {
  model = some (struct_model (some sample_struct));
  error = none;
  table = some (sample_table soft);
  with_queries = [];
  model_table = record { query = []; args = none };
  tables = [];
  columns = none;
  flags = record {
    where_pk = false;
    force_delete = false;
    deleted = false;
    all_with_deleted = false;
  };
  conditions = call [] c;
}

abbrev pub no_returning : Returning
no_returning = record { returning = []; returning_fields = [] }

abbrev sample_delete : Option Field → Conds → DeleteQuery
sample_delete soft c = record { base = sample_query soft c; returning = no_returning }

abbrev sample_update : Conds → UpdateQuery
sample_update c = record {
  base = sample_query none c;
  returning = no_returning;
  model_values = λ _. none;
  extra_values = [];
  set = [];
  omit_zero = true;
}

append_where-soft_delete_example :
    append_where sample_formatter (codes "x") (sample_query (some deleted_at) either) false
    ≡ ok (
        ((intended sample_formatter true (codes "x" ++ codes " WHERE ") either ++ codes " AND ")
          ++ codes "\"deleted_at\"")
        ++ codes " IS NULL")
unfolding is_zero call no_conditions intended append_with_args append_query add_where
append_where-soft_delete_example =
    append_where-soft_delete sample_formatter (codes "x") (sample_query (some deleted_at) either)
      (sample_table (some deleted_at)) deleted_at either (refl, (refl, tt)) tt refl refl refl refl
      refl refl refl refl

append_update-refused_example :
    append_update sample_formatter [] (sample_update nil) ≢ ok (codes "UPDATE")
unfolding call
append_update-refused_example =
    append_update-refused sample_formatter [] (codes "UPDATE") (sample_update nil) (refl, refl)

append_delete-refused_example :
    (append_delete sample_formatter pg
      (other (codes "now()"))
      []
      (sample_delete (some deleted_at) nil)).0
    ≢ ok (codes "DELETE")
unfolding call
append_delete-refused_example =
    append_delete-refused sample_formatter pg (other (codes "now()")) [] (codes "DELETE")
      (sample_delete (some deleted_at) nil) (refl, refl)

append_delete-again_example :
    (append_delete sample_formatter pg
      (other (codes "now()"))
      []
      (append_delete sample_formatter pg
        (other (codes "now()"))
        []
        (sample_delete none either)).1).0
    ≡ err no_soft_delete_field
unfolding soft_delete_field check_soft_delete
append_delete-again_example =
    append_delete-again sample_formatter pg (other (codes "now()")) [] []
      (sample_delete none either) no_soft_delete_field refl refl refl

-- The same query is rendered the first time.
delete_sample :
    (append_delete sample_formatter pg (other (codes "now()")) [] (sample_delete none either)).0
    ≡ ok (codes "DELETE FROM \"t\" AS \"t\" WHERE (a) OR (b)")
unfolding append_delete call append_with where_all_with_deleted append_first_table must_append_where
    add_where append_with_args append_query has_multi_tables has_feature
delete_sample = refl

soft_delete_sample :
    (append_delete sample_formatter pg
      (other (codes "now()"))
      []
      (sample_delete (some deleted_at) either)).0
    ≡ ok (
        codes
          "UPDATE \"t\" AS \"t\" SET \"deleted_at\" = now() WHERE (a) OR (b) AND \"deleted_at\" IS NULL")
unfolding append_delete call append_update has_feature unsafe_ident equal add_where is_nop
    append_value append_query append_with_args
soft_delete_sample = refl

only_appends :
    (b : Bytes) (field : Field)
    → length b
      ≤ length (append_set_value sample_formatter b (sample_update nil) sample_struct field)
unfolding append_set_value is_nop append_value
only_appends b field = omega (arith, length-append b (codes "DEFAULT"))

append_set_fields-assignments_example :
    append_set_fields sample_formatter 1
      (codes "x")
      (sample_update nil)
      sample_struct
      (deleted_at ∷ deleted_at ∷ [])
    ≡ assignments sample_formatter true
        (codes "x")
        (sample_update nil)
        sample_struct
        (deleted_at ∷ deleted_at ∷ [])
append_set_fields-assignments_example =
    append_set_fields-assignments sample_formatter (sample_update nil) sample_struct only_appends
      (codes "x") (deleted_at ∷ deleted_at ∷ [])

abbrev zero_struct : Struct
zero_struct = record { value = λ _. other (codes "DEFAULT"); is_zero = λ _. true }

abbrev extra_update : UpdateQuery
extra_update = record (sample_update nil) { extra_values = (codes "x", query_of (codes "1")) ∷ [] }

append_set_struct-comma_example :
    append_set_struct sample_formatter (codes " SET ") extra_update (sample_table none) zero_struct
    ≡ ok (
        append_with_args sample_formatter
          (((codes " SET " ++ codes ", ") ++ codes "x") ++ codes " = ")
          (query_of (codes "1")))
unfolding get_data_fields skips
append_set_struct-comma_example =
    append_set_struct-comma sample_formatter extra_update (sample_table none) zero_struct
      (codes " SET ") deleted_at [] (codes "x") (query_of (codes "1")) refl (refl, tt) refl
