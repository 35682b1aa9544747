-- ===== src/Tests/Tables.antt =====
-- Tags and tables at concrete inputs.
use uptrace_bun.Prelude.{
  ℕ, Bytes, codes, List, [], ◌∷◌, ◌++◌, Option, none, some, ◌≡◌, refl, inl, arith, true, false, ok,
  err, ◌==◌, map, Result, zero, suc,
}
use uptrace_bun.Internal.Tagparser.{parse_tag}
use uptrace_bun.Internal.Tagparser.RoundTrip.{
  Item, flag, plain, quoted, tag_text, options_of, parse_tag-tag_text,
}
use uptrace_bun.Schema.Dialects.{pg}
use uptrace_bun.Schema.Formatter.{new_formatter}
use uptrace_bun.Schema.Table.{
  StructField, StructFields, nil, cons, Table, Relation, integer, structure, new_table,
}
use uptrace_bun.Schema.Table.Fields.{init_fields, collect_fields, default_pk}
use uptrace_bun.Schema.Table.Partition.{IsPartitioned}
use uptrace_bun.Schema.Table.Added.{Once, init_fields-IsPartitioned}
use uptrace_bun.Schema.Table.Inlines.{init2}
use uptrace_bun.Schema.Table.Joins.{Panic}
use uptrace_bun.Schema.Table.Keys.{Ensures}
use uptrace_bun.Schema.Table.Kept.{FieldsLeft, no_relations, init2-FieldsLeft}

abbrev sample_items : List Item
sample_items =
    flag (codes "pk")
    ∷ plain (codes "type") (codes "varchar(3)")
    ∷ quoted (codes "default") (codes "say \"hi\", you")
    ∷ []

parse_tag-tag_text_example :
    ((parse_tag (tag_text (codes "id") sample_items)).name ≡ codes "id")
    × ((parse_tag (tag_text (codes "id") sample_items)).options ≡ options_of sample_items [])
parse_tag-tag_text_example = parse_tag-tag_text (codes "id") sample_items (omega arith) (
  (omega arith, refl),
  (((omega arith, refl), omega arith), (((omega arith, refl), omega arith), tt)),
)

abbrev struct_field : Bytes → Bytes → StructField
struct_field name tag = record {
  name = name;
  tag = tag;
  exported = true;
  anonymous = false;
  base_model = false;
  kind = integer;
  type_id = 7;
  elem = 0;
  discovered_sql_type = codes "BIGINT";
}

-- type Book struct { ID int64; AuthorID int64; Author Author `bun:"rel:belongs-to"` }
abbrev book_fields : StructFields
book_fields = cons (struct_field (codes "ID") []) nil (
    cons (struct_field (codes "AuthorID") []) nil (
      cons
        (record (struct_field (codes "Author") (codes "rel:belongs-to")) {
          kind = structure;
          type_id = 2;
        })
        nil nil))

abbrev author_fields : StructFields
author_fields =
    cons (struct_field (codes "ID") (codes ",pk")) nil
      (cons (struct_field (codes "Name") []) nil nil)

abbrev plural : Bytes → Bytes
plural s = s ++ codes "s"

abbrev blank_table : ℕ → Bytes → Table
blank_table type_id name = new_table plural (new_formatter pg) type_id name

abbrev no_tables : ℕ → Table
no_tables i = blank_table i []

abbrev authors : Table
authors = init_fields no_tables author_fields (blank_table 2 (codes "Author"))

abbrev books : Table
books = init_fields no_tables book_fields (blank_table 1 (codes "Book"))

-- The tables that `Ref` finds.
abbrev tables : ℕ → Table
tables i = elim (i == 2) [ true ↦ authors | false ↦ no_tables i ]

lists_of : Result Panic Table → Option (List ℕ × List ℕ)
lists_of (ok t) = some (t.fields, t.data_fields)
lists_of (err e) = none

keys_of : Result Panic Table → List (List ℕ × List ℕ)
keys_of (ok t) = map (λ (e : Bytes × Relation). (e.1.base_fields, e.1.join_fields)) t.relations
keys_of (err e) = []

books_sample : (books.pks ≡ 0 ∷ []) × (books.data_fields ≡ 1 ∷ 2 ∷ [])
unfolding init_fields collect_fields new_table
books_sample = (refl, refl)

-- AuthorID is found for the author's ID.
relations_sample : keys_of (init2 tables (λ _. none) 3 books) ≡ (1 ∷ [], 0 ∷ []) ∷ []
unfolding init2 init_fields collect_fields keys_of new_table
relations_sample = refl

-- `bun:"-"` does not keep ID from being the primary key.
abbrev skipped_fields : StructFields
skipped_fields =
    cons (struct_field (codes "ID") (codes "-")) nil (cons (struct_field (codes "Name") []) nil nil)

skipped_sample :
    ((init_fields no_tables skipped_fields (blank_table 3 (codes "Draft"))).pks ≡ 0 ∷ [])
    × ((init_fields no_tables skipped_fields (blank_table 3 (codes "Draft"))).fields ≡ 1 ∷ [])
unfolding init_fields collect_fields new_table
skipped_sample = (refl, refl)

-- A tag in which only a backslash is escaped keeps both backslashes.
backslash_sample : (parse_tag (codes "a:\"x\\\\y\"")).options ≡ (codes "a", codes "x\\\\y") ∷ []
unfolding parse_tag
backslash_sample = refl

some_zero : (i : ℕ) → ◌≡◌ {A = Option ℕ} (some 0) (some i) → Once i (0 ∷ 1 ∷ 2 ∷ [])
some_zero zero e = inl (refl, (refl, (refl, tt)))
some_zero (suc i) e = absurd (ground (arith, e))

init_fields-IsPartitioned_example : IsPartitioned books
unfolding collect_fields default_pk new_table
init_fields-IsPartitioned_example =
    init_fields-IsPartitioned plural (new_formatter pg) 1 (codes "Book") no_tables book_fields
      (λ i p e. some_zero i e)

init2-FieldsLeft_example :
    Ensures
      (λ u. FieldsLeft books.pks (no_relations books.heap books.fields) u)
      (init2 tables (λ _. none) 3 books)
unfolding init_fields collect_fields new_table
init2-FieldsLeft_example = init2-FieldsLeft tables (λ _. none) 3 books tt (omega arith)
