-- ===== src/Schema/Table/Relations.antt =====
-- The relations of a table: belongsToRelation, hasOneRelation, hasManyRelation,
-- m2mRelation, addRelation, initRelation and tryRelation of schema/table.go. A panic is an error.
-- `ref` is `Tables().Ref` and `by_name` is `Tables().ByName`.
use uptrace_bun.Prelude.{
  ℕ, Bool, true, false, List, [], ◌∷◌, ◌++◌, Option, none, some, Bytes, codes, if◌then◌else◌, equal,
  Result, ok, err, ◌>>=◌,
}
use uptrace_bun.Parser.{is_empty}
use uptrace_bun.Internal.Tagparser.{tag_option, has_option}
use uptrace_bun.Schema.Table.{
  Kind, integer, structure, slice, other_kind, Field, Table, Relation, has_one_relation,
  belongs_to_relation, has_many_relation, many_to_many_relation, join_without_relation, get_entry,
  put_entry, deref,
}
use uptrace_bun.Schema.Table.Joins.{
  Panic, field_with_lock, check_pks, field_by_go_name, parse_relation_join, found, join_columns,
  find_keys, names_at, new_relation, fk_prefix, unknown_relation, already_has, must_have,
  must_have_key, requires_slice, no_polymorphic_column, no_m2m_option, no_m2m_table, no_m2m_field,
  index_out_of_range,
}

-- The fields by the option join, if the tag has it.
unfoldable pub belongs_to_by : Option Bytes → Table → Table → Field → Result Panic (List ℕ × List ℕ)
unfolding parse_relation_join join_columns find_keys names_at fk_prefix
belongs_to_by (some join) t joined f = parse_relation_join join >>= λ c.
    join_columns (λ b. must_have (codes "belongs-to") t.type_name f.go_name t.type_name b) t joined
      c.0 c.1
belongs_to_by none t joined f =
    find_keys
      (λ k. must_have_key (codes "belongs-to") t.type_name f.go_name t.type_name k f.go_name)
      (fk_prefix f.go_name) t (names_at joined.heap joined.pks)
    >>= λ base. ok (base, joined.pks)

unfoldable pub belongs_to_fields : Table → Table → Field → Result Panic (List ℕ × List ℕ)
unfolding belongs_to_by tag_option
belongs_to_fields t joined f = belongs_to_by (tag_option (codes "join") f.tag.options) t joined f

unfoldable pub belongs_to_relation_of : (ℕ → Table) → Table → ℕ → Field → Result Panic Relation
unfolding check_pks belongs_to_fields new_relation
belongs_to_relation_of ref t i f = do
  checked ← check_pks (ref f.type_id)
  keys ← belongs_to_fields t (ref f.type_id) f
  ok (new_relation has_one_relation i (ref f.type_id) keys.0 keys.1)

-- The fields by the option join, if the tag has it.
unfoldable pub has_one_by : Option Bytes → Table → Table → Field → Result Panic (List ℕ × List ℕ)
unfolding parse_relation_join join_columns find_keys names_at fk_prefix
has_one_by (some join) t joined f = parse_relation_join join >>= λ c.
    join_columns (λ b. must_have (codes "has-one") f.go_name t.type_name joined.type_name b) t
      joined c.0 c.1
has_one_by none t joined f =
    find_keys
      (λ k. must_have_key (codes "has-one") f.go_name t.type_name joined.type_name k f.go_name)
      (fk_prefix t.model_name) joined (names_at t.heap t.pks)
    >>= λ join. ok (t.pks, join)

unfoldable pub has_one_fields : Table → Table → Field → Result Panic (List ℕ × List ℕ)
unfolding has_one_by tag_option
has_one_fields t joined f = has_one_by (tag_option (codes "join") f.tag.options) t joined f

-- `hasOneRelation`
unfoldable pub has_one_relation_of : (ℕ → Table) → Table → ℕ → Field → Result Panic Relation
unfolding check_pks has_one_fields new_relation
has_one_relation_of ref t i f = do
  checked ← check_pks t
  keys ← has_one_fields t (ref f.type_id) f
  ok (new_relation belongs_to_relation i (ref f.type_id) keys.0 keys.1)

-- The pairs of columns without those whose base column is `type`, and the last such join column.
unfoldable pub take_type_columns :
    List Bytes → List Bytes → Bytes → (List Bytes × List Bytes) × Bytes
unfolding equal
take_type_columns [] js column = (([], js), column)
take_type_columns (b ∷ bs) [] column = ((b ∷ bs, []), column)
take_type_columns (b ∷ bs) (j ∷ js) column =
    let skipped = take_type_columns bs js j in
    let kept = take_type_columns bs js column in
    if equal b (codes "type") then skipped else ((b ∷ kept.0.0, j ∷ kept.0.1), kept.1)

unfoldable pub split_type_columns :
    Bool → List Bytes × List Bytes → (List Bytes × List Bytes) × Bytes
unfolding take_type_columns
split_type_columns true c = take_type_columns c.0 c.1 []
split_type_columns false c = (c, [])

-- The fields of a has-many relation, and the polymorphic column.
-- The fields by the option join, if the tag has it.
unfoldable pub has_many_by :
    Option Bytes → Bool → Table → Table → Field → Result Panic ((List ℕ × List ℕ) × Bytes)
unfolding parse_relation_join join_columns find_keys names_at fk_prefix split_type_columns
has_many_by (some join) is_polymorphic t joined f = parse_relation_join join >>= λ c.
    join_columns (λ b. must_have (codes "has-one") t.type_name f.go_name t.type_name b) t joined
      (split_type_columns is_polymorphic c).0.0 (split_type_columns is_polymorphic c).0.1
    >>= λ keys. ok (keys, (split_type_columns is_polymorphic c).1)
has_many_by none is_polymorphic t joined f =
    find_keys
      (λ k. must_have_key (codes "has-many") t.type_name f.go_name joined.type_name k f.go_name)
      (fk_prefix t.model_name) joined (names_at t.heap t.pks)
    >>= λ join.
        ok ((t.pks, join), if is_polymorphic then fk_prefix t.model_name ++ codes "type" else [])

unfoldable pub has_many_fields :
    Bool → Table → Table → Field → Result Panic ((List ℕ × List ℕ) × Bytes)
unfolding has_many_by tag_option
has_many_fields is_polymorphic t joined f =
    has_many_by (tag_option (codes "join") f.tag.options) is_polymorphic t joined f

-- The polymorphic field and value, if the tag has the option.
unfoldable pub add_polymorphic :
    Option Bytes → Bytes → Table → Table → Field → Relation → Result Panic Relation
unfolding field_with_lock found
add_polymorphic none column t joined f rel = ok rel
add_polymorphic (some value) column t joined f rel =
    found (no_polymorphic_column t.type_name f.go_name joined.type_name column)
      (field_with_lock joined column)
    >>= λ i. ok (record rel {
      polymorphic_field = some i;
      polymorphic_value = if is_empty value then t.model_name else value;
    })

unfoldable pub is_slice : Kind → Bool
is_slice integer = false
is_slice structure = false
is_slice slice = true
is_slice other_kind = false

unfoldable pub require_slice : Bytes → Table → Field → Result Panic (Unit {0})
unfolding is_slice
require_slice word t f =
    if is_slice f.kind then ok tt else err (requires_slice word t.type_name f.go_name)

-- `hasManyRelation`
unfoldable pub has_many_relation_of : (ℕ → Table) → Table → ℕ → Field → Result Panic Relation
unfolding check_pks require_slice has_many_fields add_polymorphic new_relation tag_option has_option
has_many_relation_of ref t i f = do
  checked ← check_pks t
  sliced ← require_slice (codes "has-many") t f
  keys ← has_many_fields (has_option (codes "polymorphic") f.tag) t (ref f.elem) f
  add_polymorphic (tag_option (codes "polymorphic") f.tag.options) keys.1 t (ref f.elem) f
      (new_relation has_many_relation i (ref f.elem) keys.0.0 keys.0.1)

unfoldable pub first_of : List Bytes → Result Panic Bytes
first_of [] = err index_out_of_range
first_of (s ∷ ss) = ok s

-- The Go names of the two fields of the m2m table.
-- The Go names by the option join, if the tag has it.
unfoldable pub m2m_columns_by : Option Bytes → Table → Table → Field → Result Panic (Bytes × Bytes)
unfolding parse_relation_join first_of
m2m_columns_by (some join) t joined f = parse_relation_join join >>= λ c.
    first_of c.0 >>= λ left. first_of c.1 >>= λ right. ok (left, right)
m2m_columns_by none t joined f = ok (t.type_name, joined.type_name)

unfoldable pub m2m_columns : Table → Table → Field → Result Panic (Bytes × Bytes)
unfolding m2m_columns_by tag_option
m2m_columns t joined f = m2m_columns_by (tag_option (codes "join") f.tag.options) t joined f

-- The relation of the m2m table by one of its fields.
unfoldable pub side : (ℕ → Table) → Panic → Table → ℕ → Option Field → Result Panic Relation
unfolding belongs_to_relation_of
side ref missing m2m i none = err missing
side ref missing m2m i (some f) = belongs_to_relation_of ref m2m i f

unfoldable pub option_or : Panic → Option Bytes → Result Panic Bytes
option_or missing (some s) = ok s
option_or missing none = err missing

unfoldable pub table_or : Panic → Option Table → Result Panic Table
table_or missing (some t) = ok t
table_or missing none = err missing

-- Both relations, the panics of the fields that are missing before those of the relations.
unfoldable pub sides :
    (ℕ → Table) → Table → Table → Field → Bytes × Bytes → Result Panic (Relation × Relation)
unfolding side field_by_go_name found deref
sides ref t m2m f names =
    let missing = λ (name : Bytes). no_m2m_field t.type_name f.go_name m2m.type_name name in
    do
      left_field ← found (missing names.0) (field_by_go_name m2m names.0)
      right_field ← found (missing names.1) (field_by_go_name m2m names.1)
      left ← side ref (missing names.0) m2m left_field (deref m2m.heap left_field)
      right ← side ref (missing names.1) m2m right_field (deref m2m.heap right_field)
      ok (left, right)

-- `m2mRelation`
unfoldable pub m2m_relation_of :
    (ℕ → Table) → (Bytes → Option Table) → Table → ℕ → Field → Result Panic Relation
unfolding check_pks require_slice m2m_columns sides new_relation tag_option option_or table_or
m2m_relation_of ref by_name t i f = do
  sliced ← require_slice (codes "m2m") t f
  checked ← check_pks t
  joined ← check_pks (ref f.elem)
  name ← option_or (no_m2m_option f.go_name) (tag_option (codes "m2m") f.tag.options)
  m2m ← table_or (no_m2m_table name) (by_name name)
  columns ← m2m_columns t (ref f.elem) f
  both ← sides ref t m2m f columns
  ok
      (record (new_relation many_to_many_relation i (ref f.elem) both.0.join_fields
        both.1.join_fields) {
          m2m_table = some m2m.type_id;
          m2m_base_fields = both.0.base_fields;
          m2m_join_fields = both.1.base_fields;
        })

unfoldable pub add_unless : Option Relation → Bytes → Table → Relation → Result Panic Table
unfolding put_entry
add_unless (some _) go_name t rel = err (already_has t.type_name go_name)
add_unless none go_name t rel = ok (record t { relations = put_entry go_name rel t.relations })

-- `addRelation` of the relation of a field with the Go name.
unfoldable pub add_relation : Bytes → Table → Relation → Result Panic Table
unfolding get_entry add_unless
add_relation go_name t rel = add_unless (get_entry go_name t.relations) go_name t rel

-- The relation that the option asks for.
unfoldable pub relation_of : (ℕ → Table) → Table → ℕ → Field → Bytes → Result Panic Relation
unfolding belongs_to_relation_of has_one_relation_of has_many_relation_of equal
relation_of ref t i f rel =
    if equal rel (codes "belongs-to")
    then belongs_to_relation_of ref t i f
    else if equal rel (codes "has-one")
    then has_one_relation_of ref t i f
    else if equal rel (codes "has-many")
    then has_many_relation_of ref t i f
    else err (unknown_relation rel f.go_name)

-- `initRelation`
unfoldable pub init_relation : (ℕ → Table) → Table → ℕ → Field → Bytes → Result Panic Table
unfolding relation_of add_relation
init_relation ref t i f rel = relation_of ref t i f rel >>= λ r. add_relation f.go_name t r

unfoldable pub warn_join : Field → Table → Table
unfolding has_option
warn_join f t =
    if has_option (codes "join") f.tag
    then record t { warnings = t.warnings ++ join_without_relation t.type_name f.go_name ∷ [] }
    else t

-- The relation of the option m2m, if the tag has it.
unfoldable pub try_m2m :
    Bool → (ℕ → Table) → (Bytes → Option Table) → Table → ℕ → Field → Result Panic (Bool × Table)
unfolding m2m_relation_of add_relation warn_join
try_m2m true ref by_name t i f =
    m2m_relation_of ref by_name t i f >>= λ r. add_relation f.go_name t r >>= λ t'. ok (true, t')
try_m2m false ref by_name t i f = ok (false, warn_join f t)

-- By the option rel, if the tag has it.
unfoldable pub try_rel :
    Option Bytes
    → (ℕ → Table)
    → (Bytes → Option Table)
    → Table
    → ℕ
    → Field
    → Result Panic (Bool × Table)
unfolding init_relation try_m2m has_option
try_rel (some rel) ref by_name t i f = init_relation ref t i f rel >>= λ t'. ok (true, t')
try_rel none ref by_name t i f = try_m2m (has_option (codes "m2m") f.tag) ref by_name t i f

-- `tryRelation`: whether the field is a relation, and the table.
unfoldable pub try_relation :
    (ℕ → Table) → (Bytes → Option Table) → Table → ℕ → Field → Result Panic (Bool × Table)
unfolding try_rel tag_option
try_relation ref by_name t i f = try_rel (tag_option (codes "rel") f.tag.options) ref by_name t i f
