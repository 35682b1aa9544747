-- ===== src/Tests/Statements.antt =====
-- SELECT, INSERT, VALUES and the statements on tables, on sample tables.
use uptrace_bun.Query.Where.{append_conditions, append_where_one}
use uptrace_bun.Query.Tables.{append_first_table, append_separated}
use uptrace_bun.Prelude.{
  ◌+◌, ◌*◌, ◌-◌, ◌^◌, arith, none, some, if◌then◌else◌, true, false, [], ◌∷◌, ◌++◌, Bytes, codes,
  ok, ◌⊎◌, ◌≡◌, refl, equal,
}
use uptrace_bun.Strconv.{ℤ, pos, negsuc}
use uptrace_bun.Schema.Dialects.{pg}
use uptrace_bun.Schema.Value.{int}
use uptrace_bun.Schema.Formatter.{append_query, is_nop, append_ident}
use uptrace_bun.Schema.Sqlfmt.{QueryWithArgs, append_with_args}
use uptrace_bun.Query.State.{
  add_where, BaseQuery, columns_of, one_column, Returning, struct_model, slice_model,
}
use uptrace_bun.Query.Conds.{call, nil}
use uptrace_bun.Query.Select.{
  SelectQuery, append_select_query, append_count_query, set_limit, set_offset, add_distinct_on,
  add_orders, order_item, is_sort,
}
use uptrace_bun.Query.Select.Order.{append_with_args-order_item}
use uptrace_bun.Query.Select.Count.{append_count_query-tail, set_limit-int32}
use uptrace_bun.Query.Join.{Joins}
use uptrace_bun.Query.Insert.{InsertQuery, append_insert}
use uptrace_bun.Query.Insert.Returned.{IsDistinct, append_insert-IsDistinct, append_insert-returned}
use uptrace_bun.Query.Ddl.{append_create_index}
use uptrace_bun.Tests.Queries.{
  sample_formatter, query_of, sample_query, no_returning, either, deleted_at,
}

abbrev no_query : QueryWithArgs
no_query = record { query = []; args = none }

abbrev sample_select : SelectQuery
sample_select = record {
  base = sample_query none either;
  distinct_on = none;
  joins = [];
  group = [];
  having = [];
  order = query_of (codes "z") ∷ [];
  limit = pos 5;
  offset = pos 7;
  sel_for = no_query;
  union = [];
  relations = Joins.nil;
}

abbrev sample_insert : Returning → InsertQuery
sample_insert r = record {
  base = sample_query none nil;
  returned = r;
  model_values = λ _. none;
  extra_values = [];
  on_conflict = no_query;
  set = [];
  ignore = false;
  replace = false;
}

select_sample :
    append_select_query sample_formatter [] sample_select
    ≡ ok (
        codes "SELECT \"t\".\"deleted_at\" FROM \"t\" WHERE (a) OR (b) ORDER BY z LIMIT 5 OFFSET 7")
unfolding append_select_query uptrace_bun.Query.Select.append_select
    uptrace_bun.Query.Tables.append_with uptrace_bun.Query.Where.append_where call add_where
    uptrace_bun.Strconv.append_int append_separated append_with_args append_query
    uptrace_bun.Query.Select.formatter_with_model uptrace_bun.Schema.Formatter.with_model
    uptrace_bun.Query.Join.append_join_queries uptrace_bun.Query.Join.append_has_one_joins
    uptrace_bun.Query.Join.has_one_joins uptrace_bun.Query.Tables.has_tables
    uptrace_bun.Query.Tables.append_tables uptrace_bun.Query.Tables.append_fields is_nop
select_sample = refl

insert_sample :
    append_insert sample_formatter pg [] (sample_insert no_returning)
    ≡ ok (codes "INSERT INTO \"t\" (\"deleted_at\") VALUES (DEFAULT)", no_returning)
unfolding append_insert uptrace_bun.Query.Tables.append_with
    uptrace_bun.Query.Tables.append_first_table uptrace_bun.Query.Insert.append_columns_values
    uptrace_bun.Query.Tables.has_multi_tables uptrace_bun.Query.Insert.get_insert_fields
    uptrace_bun.Schema.Dialects.has_feature uptrace_bun.Query.Insert.get_fields
    uptrace_bun.Query.Insert.append_on uptrace_bun.Query.State.has_returning
    uptrace_bun.Query.Insert.append_struct_values uptrace_bun.Query.Insert.append_insert_value
    uptrace_bun.Schema.Formatter.is_nop uptrace_bun.Query.Where.append_field_value
    uptrace_bun.Schema.Value.append_value uptrace_bun.Query.Insert.append_insert_fields
    uptrace_bun.Query.Tables.append_fields uptrace_bun.Schema.Formatter.append_query
insert_sample = refl

append_count_query-tail_example :
    append_count_query sample_formatter []
      (record sample_select { order = []; limit = pos 0; offset = pos 0; sel_for = no_query })
    ≡ append_count_query sample_formatter [] sample_select
append_count_query-tail_example =
    append_count_query-tail sample_formatter [] sample_select [] (pos 0) (pos 0) no_query

set_limit-int32_example :
    ((set_limit sample_select (pos (5 + 1 * 2 ^ 32))).limit ≡ pos 5)
    × ((set_limit sample_select (pos (5 + 2 ^ 31 + 1 * 2 ^ 32))).limit ≡ negsuc (2 ^ 31 - 6))
set_limit-int32_example = set_limit-int32 sample_select 5 1 (omega arith)

append_with_args-order_item_example :
    (append_with_args sample_formatter [] (order_item (λ s. s) sample_formatter (codes "a DESC"))
      ≡ append_ident sample_formatter [] (codes "a DESC"))
    ⊎ ((field sort : Bytes) × (codes "a DESC" ≡ field ++ b' ' ∷ sort)
        × (is_sort sort ≡ true)
        × (append_with_args sample_formatter []
              (order_item (λ s. s) sample_formatter (codes "a DESC"))
            ≡ append_ident sample_formatter [] field ++ b' ' ∷ sort))
unfolding is_nop
append_with_args-order_item_example =
    append_with_args-order_item (λ s. s) sample_formatter (codes "a DESC") [] refl

-- The value of the field is an expression, so the field is returned.
abbrev valued_insert : InsertQuery
valued_insert = record (sample_insert no_returning) {
  model_values =
      λ name. if equal name (codes "deleted_at") then some (query_of (codes "now()")) else none;
}

abbrev deleted_returning : Returning
deleted_returning = record { returning = []; returning_fields = deleted_at ∷ [] }

valued_insert_sample :
    append_insert sample_formatter pg [] valued_insert
    ≡ ok (
      codes "INSERT INTO \"t\" (\"deleted_at\") VALUES (now()) RETURNING \"deleted_at\"",
      deleted_returning,
    )
unfolding append_insert uptrace_bun.Query.Tables.append_with append_first_table
    uptrace_bun.Query.Insert.append_columns_values uptrace_bun.Query.Tables.has_multi_tables
    uptrace_bun.Query.Insert.get_insert_fields uptrace_bun.Schema.Dialects.has_feature
    uptrace_bun.Query.Insert.get_fields uptrace_bun.Query.Insert.append_on
    uptrace_bun.Query.State.has_returning uptrace_bun.Query.Insert.append_struct_values
    uptrace_bun.Query.Insert.append_insert_value is_nop equal
    uptrace_bun.Query.Tables.append_returning append_with_args append_query
    uptrace_bun.Query.Where.append_field_value uptrace_bun.Query.Insert.append_insert_fields
    uptrace_bun.Query.Tables.append_fields uptrace_bun.Schema.Value.append_value
    uptrace_bun.Query.Insert.add_returning_field
valued_insert_sample = refl

append_insert-IsDistinct_example : IsDistinct (deleted_at ∷ [])
append_insert-IsDistinct_example =
    append_insert-IsDistinct sample_formatter pg valued_insert []
      (codes "INSERT INTO \"t\" (\"deleted_at\") VALUES (now()) RETURNING \"deleted_at\"")
      deleted_returning tt valued_insert_sample

abbrev all_returning : Returning
all_returning = record { returning = query_of (codes "id") ∷ []; returning_fields = [] }

insert_returning_sample :
    append_insert sample_formatter pg [] (sample_insert all_returning)
    ≡ ok (codes "INSERT INTO \"t\" (\"deleted_at\") VALUES (DEFAULT) RETURNING id", all_returning)
unfolding append_insert uptrace_bun.Query.Tables.append_with append_first_table
    uptrace_bun.Query.Insert.append_columns_values uptrace_bun.Query.Tables.has_multi_tables
    uptrace_bun.Query.Insert.get_insert_fields uptrace_bun.Schema.Dialects.has_feature
    uptrace_bun.Query.Insert.get_fields uptrace_bun.Query.Insert.append_on
    uptrace_bun.Query.State.has_returning uptrace_bun.Query.Insert.append_struct_values
    uptrace_bun.Query.Insert.append_insert_value is_nop equal
    uptrace_bun.Query.Tables.append_returning append_with_args append_query
    uptrace_bun.Query.Where.append_field_value uptrace_bun.Query.Insert.append_insert_fields
    uptrace_bun.Query.Tables.append_fields uptrace_bun.Schema.Value.append_value
insert_returning_sample = refl

append_insert-returned_example : all_returning ≡ (sample_insert all_returning).returned
append_insert-returned_example =
    append_insert-returned sample_formatter pg (sample_insert all_returning) []
      (codes "INSERT INTO \"t\" (\"deleted_at\") VALUES (DEFAULT) RETURNING id") all_returning
      (query_of (codes "id")) [] refl insert_returning_sample

-- The conditions of an index follow its columns with no keyword.
index_sample :
    append_create_index sample_formatter [] (record {
      base = sample_query none either;
      unique = false;
      fulltext = false;
      spatial = false;
      concurrently = false;
      if_not_exists = false;
      index = query_of (codes "i");
      using = no_query;
      include = [];
    })
    ≡ ok (codes "CREATE INDEX i ON \"t\" ()(a) OR (b)")
unfolding append_create_index append_first_table append_conditions call add_where append_where_one
    append_with_args append_query append_separated columns_of
index_sample = refl
