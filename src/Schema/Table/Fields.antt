-- ===== src/Schema/Table/Fields.antt =====
-- The fields of a table: addField, removeField, newField, addFields, processBaseModelField and
-- initFields of schema/table.go. The options of a tag are ranged over in the order of its list.
use uptrace_bun.Prelude.{
  ℕ, suc, Bool, true, false, not, ◌&&◌, ◌||◌, List, [], ◌∷◌, ◌++◌, Option, none, some, Bytes, codes,
  ◌==◌, if◌then◌else◌, equal, length,
}
use uptrace_bun.Parser.{is_empty}
use uptrace_bun.Internal.Tagparser.{Tag, tag_option, has_option, parse_tag}
use uptrace_bun.Internal.Underscore.{underscore}
use uptrace_bun.Schema.Table.{
  Kind, integer, structure, slice, other_kind, StructField, StructFields, nil, cons, Field, Table,
  Warning, name_is_option, unknown_option, get_entry, put_entry, delete_entry, deref, is_pk_at,
  name_at, update_at, remove_field, mark_as_pk, quote_ident, quote_table_name, set_name,
}

-- `switch name { case "a", "b": return true }`
unfoldable pub one_of : List Bytes → Bytes → Bool
one_of [] name = false
one_of (w ∷ ws) name = equal w name || one_of ws name

unfoldable pub is_known_table_option : Bytes → Bool
unfolding one_of equal
is_known_table_option name = one_of (codes "alias" ∷ codes "select" ∷ []) name

unfoldable pub is_known_field_option : Bytes → Bool
unfolding one_of equal
is_known_field_option name =
    one_of
      (codes "alias"
        ∷ codes "type"
        ∷ codes "array"
        ∷ codes "hstore"
        ∷ codes "composite"
        ∷ codes "json_use_number"
        ∷ codes "msgpack"
        ∷ codes "notnull"
        ∷ codes "nullzero"
        ∷ codes "default"
        ∷ codes "unique"
        ∷ codes "soft_delete"
        ∷ codes "pk"
        ∷ codes "autoincrement"
        ∷ codes "rel"
        ∷ codes "join"
        ∷ codes "m2m"
        ∷ codes "polymorphic"
        ∷ [])
      name

-- `addField`
unfoldable pub add_field : ℕ → Table → Table
unfolding is_pk_at name_at put_entry
add_field i t = record t {
  fields = t.fields ++ i ∷ [];
  pks = if is_pk_at t.heap i then t.pks ++ i ∷ [] else t.pks;
  data_fields = if is_pk_at t.heap i then t.data_fields else t.data_fields ++ i ∷ [];
  field_map = put_entry (name_at t.heap i) i t.field_map;
}

-- The method `removeField`.
unfoldable pub drop_field : ℕ → Table → Table
unfolding is_pk_at name_at delete_entry remove_field
drop_field i t = record t {
  fields = remove_field t.fields i;
  pks = if is_pk_at t.heap i then remove_field t.pks i else t.pks;
  data_fields = if is_pk_at t.heap i then t.data_fields else remove_field t.data_fields i;
  field_map = delete_entry (name_at t.heap i) t.field_map;
}

-- The loop over the options that are not known.
warn_options : (Bytes → Bool) → Bytes → Bytes → List (Bytes × Bytes) → List Warning
warn_options known type_name name [] = []
warn_options known type_name name (o ∷ os) =
    let rest = warn_options known type_name name os in
    if known o.0 then rest else unknown_option type_name name o.0 ∷ rest

-- The warnings of a tag; `suspicious` is whether the name of the tag is an option's.
unfoldable pub warn : (Bytes → Bool) → Bool → Bytes → Tag → Table → Table
unfolding warn_options
warn known suspicious name tag t = record t {
  warnings =
      (t.warnings ++ (if suspicious then name_is_option t.type_name name tag.name ∷ [] else []))
      ++ warn_options known t.type_name name tag.options;
}

-- The names that a table has from the tag of its BaseModel.
unfoldable pub process_base_model_field : StructField → Table → Table
unfolding warn is_known_table_option parse_tag tag_option set_name quote_table_name quote_ident
process_base_model_field f t =
    let tag = parse_tag f.tag in
    let warned = warn is_known_table_option (is_known_table_option tag.name) f.name tag t in
    let named = if is_empty tag.name then warned else set_name tag.name warned in
    let selected = elim (tag_option (codes "select") tag.options) as (λ _. Table) [
      | some s ↦ record named { sql_name_for_selects = quote_table_name named s }
      | none ↦ named
    ] in
    elim (tag_option (codes "alias") tag.options) [
      | some s ↦ record selected { alias = s; sql_alias = quote_ident selected s }
      | none ↦ selected
    ]

unfoldable pub cons_head : ℕ → List Bytes → List Bytes
cons_head c [] = (c ∷ []) ∷ []
cons_head c (w ∷ ws) = (c ∷ w) ∷ ws

-- `strings.Split` at a byte.
unfoldable pub split : ℕ → Bytes → List Bytes
unfolding cons_head
split sep [] = [] ∷ []
split sep (c ∷ s) = let rest = split sep s in if c == sep then [] ∷ rest else cons_head c rest

unfoldable pub text_or_empty : Option Bytes → Bytes
text_or_empty (some s) = s
text_or_empty none = []

add_unique : ℕ → List Bytes → List (Bytes × List ℕ) → List (Bytes × List ℕ)
unfolding get_entry put_entry
add_unique i [] unique = unique
add_unique i (name ∷ names) unique =
    let named = elim (get_entry name unique) as (λ _. List ℕ) [ some is ↦ is | none ↦ [] ] in
    add_unique i names (put_entry name (named ++ i ∷ []) unique)

-- `indexEqual`
unfoldable pub index_equal : List ℕ → List ℕ → Bool
index_equal is js = equal is js

-- Whether the field is skipped, and the SQL name of the field.
unfoldable pub sql_name_of : Tag → Bytes → Bytes
unfolding equal underscore
sql_name_of tag name =
    if not (equal tag.name (codes "-")) && not (is_empty tag.name)
    then tag.name
    else underscore name

-- The field as `newField` has it before its tag's options are looked at, and the options that stand
-- in the field itself.
unfoldable pub make_field : StructField → Tag → List ℕ → Bytes → Table → Field
unfolding has_option mark_as_pk tag_option text_or_empty quote_ident
make_field f tag index sql_name t =
    let field : Field = record {
      tag = tag;
      kind = f.kind;
      type_id = f.type_id;
      elem = f.elem;
      index = index;
      name = sql_name;
      sql_name = quote_ident t sql_name;
      go_name = f.name;
      discovered_sql_type = f.discovered_sql_type;
      user_sql_type = text_or_empty (tag_option (codes "type") tag.options);
      sql_default = text_or_empty (tag_option (codes "default") tag.options);
      is_pk = false;
      not_null = has_option (codes "notnull") tag;
      null_zero = has_option (codes "nullzero") tag;
      auto_increment = has_option (codes "autoincrement") tag;
    } in
    if has_option (codes "pk") tag then mark_as_pk field else field

-- A new field is allocated, with the entries that the options unique and alt make.
unfoldable pub allocate : Tag → Field → Table → Table
unfolding tag_option put_entry split add_unique
allocate tag field t =
    let i = length t.heap in
    record t {
      heap = t.heap ++ field ∷ [];
      unique = elim (tag_option (codes "unique") tag.options) as (λ _. List (Bytes × List ℕ)) [
        | some v ↦ add_unique i (split b',' v) t.unique
        | none ↦ t.unique
      ];
      field_map = elim (tag_option (codes "alt") tag.options) as (λ _. List (Bytes × ℕ)) [
        | some v ↦ put_entry v i t.field_map
        | none ↦ t.field_map
      ];
      all_fields = t.all_fields ++ i ∷ [];
    }

-- What `newField` does with the allocated field at the position: none is the nil that it returns.
unfoldable pub keep_or_skip : Tag → Bytes → ℕ → Table → Option ℕ × Table
unfolding put_entry has_option update_at equal
keep_or_skip tag sql_name i t =
    if equal tag.name (codes "-")
    then (
      none,
      record t {
        skipped_fields = t.skipped_fields ++ i ∷ [];
        field_map = put_entry sql_name i t.field_map;
      },
    )
    else if has_option (codes "soft_delete") tag
    then (
      some i,
      record t {
        heap = update_at (λ (f : Field). record f { null_zero = true }) t.heap i;
        soft_delete_field = some i;
      },
    )
    else (some i, t)

unfoldable pub allocate_field : StructField → Tag → List ℕ → Bytes → Table → Option ℕ × Table
unfolding make_field allocate keep_or_skip
allocate_field f tag index sql_name t =
    keep_or_skip tag sql_name (length t.heap) (allocate tag (make_field f tag index sql_name t) t)

unfoldable pub index_at : List Field → ℕ → List ℕ
unfolding deref
index_at heap i = elim (deref heap i) [ some f ↦ f.index | none ↦ [] ]

-- What `newField` does about a field of the same name.
unfoldable pub replace_or_keep :
    StructField → Tag → List ℕ → Bytes → Option ℕ → Table → Option ℕ × Table
unfolding allocate_field drop_field index_equal index_at
replace_or_keep f tag index sql_name none t = allocate_field f tag index sql_name t
replace_or_keep f tag index sql_name (some i) t =
    if index_equal (index_at t.heap i) index
    then (some i, t)
    else allocate_field f tag index sql_name (drop_field i t)

-- `newField` of a field with the whole index.
unfoldable pub new_field : StructField → List ℕ → Table → Option ℕ × Table
unfolding parse_tag sql_name_of warn is_known_field_option replace_or_keep get_entry equal
    underscore
new_field f index t =
    let tag = parse_tag f.tag in
    let sql_name = sql_name_of tag f.name in
    let suspicious = not (equal tag.name (underscore f.name)) && is_known_field_option tag.name in
    let warned = warn is_known_field_option suspicious f.name tag t in
    if f.exported
    then replace_or_keep f tag index sql_name (get_entry sql_name warned.field_map) warned
    else (none, t)

unfoldable pub add_new_field : Option ℕ × Table → Table
unfolding add_field
add_new_field (none, t) = t
add_new_field (some i, t) = add_field i t

-- The names that a table takes over from an embedded struct.
unfoldable pub inherit_names : Table → Table → Table
inherit_names embedded t = record t {
  type_name = embedded.type_name;
  sql_name = embedded.sql_name;
  sql_name_for_selects = embedded.sql_name_for_selects;
  alias = embedded.alias;
  sql_alias = embedded.sql_alias;
  model_name = embedded.model_name;
}

unfoldable pub is_structure : Kind → Bool
is_structure integer = false
is_structure structure = true
is_structure slice = false
is_structure other_kind = false

-- What `addFields` does with an embedded struct whose fields have been added in `added`.
unfoldable pub end_embedded : (ℕ → Table) → StructField → Table → Table
unfolding parse_tag has_option inherit_names
end_embedded ref f added =
    if has_option (codes "inherit") (parse_tag f.tag)
    then inherit_names (ref f.type_id) added
    else added

-- An anonymous field; `added` is the table with the fields of its type.
unfoldable pub embed : (ℕ → Table) → StructField → List ℕ → Table → Table → Table
unfolding end_embedded process_base_model_field is_structure equal
embed ref f base_index added t =
    if equal f.tag (codes "-")
    then t
    else if f.base_model
    then (elim base_index [ [] ↦ process_base_model_field f t | _ ∷ _ ↦ t ])
    else if is_structure f.kind
    then end_embedded ref f added
    else t

-- `addFields`: `i` is the position of the next field in its struct; `ref` is `Tables().Ref`.
unfoldable pub add_fields : (ℕ → Table) → StructFields → List ℕ → ℕ → Table → Table
unfolding embed new_field add_new_field
add_fields ref nil base_index i t = t
add_fields ref (cons f inner rest) base_index i t =
    let added = add_fields ref inner (base_index ++ i ∷ []) 0 t in
    let t' =
      if f.anonymous
      then embed ref f base_index added t
      else add_new_field (new_field f (base_index ++ i ∷ []) t) in
    add_fields ref rest base_index (suc i) t'

-- The first of the names that leads to a field.
unfoldable pub first_entry : List Bytes → List (Bytes × ℕ) → Option ℕ
unfolding get_entry
first_entry [] m = none
first_entry (name ∷ names) m = elim (get_entry name m) [
  | some i ↦ some i
  | none ↦ first_entry names m
]

unfoldable pub default_pk : Table → Option ℕ
unfolding first_entry
default_pk t =
    first_entry (codes "id" ∷ codes "uuid" ∷ (codes "pk_" ++ t.model_name) ∷ []) t.field_map

unfoldable pub is_integer : Kind → Bool
is_integer integer = true
is_integer structure = false
is_integer slice = false
is_integer other_kind = false

unfoldable pub set_auto_increment : Field → Field
unfolding is_integer
set_auto_increment f = if is_integer f.kind then record f { auto_increment = true } else f

-- A table without primary keys gets one, if a field has one of the names.
unfoldable pub set_default_pk : Option ℕ → Table → Table
unfolding mark_as_pk update_at remove_field set_auto_increment
set_default_pk none t = t
set_default_pk (some i) t = record t {
  heap = update_at set_auto_increment (update_at mark_as_pk t.heap i) i;
  pks = i ∷ [];
  data_fields = remove_field t.data_fields i;
}

unfoldable pub has_no_pks : Table → Bool
has_no_pks t = elim (t.pks) [ [] ↦ true | _ ∷ _ ↦ false ]

-- The table with the fields of its type.
unfoldable pub collect_fields : (ℕ → Table) → StructFields → Table → Table
unfolding add_fields
collect_fields ref s t = add_fields ref s [] 0 (record t { fields = []; field_map = [] })

-- `initFields` of a table that `newTable` made.
unfoldable pub init_fields : (ℕ → Table) → StructFields → Table → Table
unfolding collect_fields set_default_pk default_pk has_no_pks
init_fields ref s t =
    let added = collect_fields ref s t in
    if has_no_pks added then set_default_pk (default_pk added) added else added
