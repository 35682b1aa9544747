-- ===== src/Schema/Table.antt =====
-- schema/table.go, schema/field.go and schema/relation.go: the table of a struct type. A `*Field` is
-- a position in `heap`, the fields that were allocated, in their order; so two lists that hold a
-- field see the same field. A map is an association list without a second entry for a key. A type
-- is a number, and what reflect tells of a struct's fields is given. The functions that a field
-- keeps (Append, Scan, IsZero) and the hooks of the type are left out.
pub mod Fields
pub mod Joins
pub mod Relations
pub mod Inlines
pub mod Partition
pub mod Keys
pub mod Tried
pub mod Added
pub mod Kept
use uptrace_bun.Prelude.{
  ℕ, zero, suc, ◌≤◌, Bool, true, false, not, ◌&&◌, ◌||◌, List, [], ◌∷◌, ◌++◌, Option, none, some,
  Bytes, codes, ◌==◌, if◌then◌else◌, equal, length, get_elem?,
}
use uptrace_bun.Internal.Tagparser.{Tag}
use uptrace_bun.Internal.Underscore.{underscore, to_exported}
use uptrace_bun.Schema.Formatter.{Formatter, append_ident}
use uptrace_bun.Parser.{is_empty}

-- `integer` is any of the kinds of signed and unsigned integers but Uintptr.
pub data Kind : Type 0 where
  integer : Kind
  structure : Kind
  slice : Kind
  other_kind : Kind

-- `reflect.StructField`: `tag` is its bun tag; kind, type and element are those of the indirect
-- type, and `elem` is the indirect type of its element.
pub record StructField : Type 0 where
  pub name : Bytes
  pub tag : Bytes
  pub exported : Bool
  pub anonymous : Bool
  pub base_model : Bool
  pub kind : Kind
  pub type_id : ℕ
  pub elem : ℕ
  pub discovered_sql_type : Bytes

-- The fields of a struct type; the second argument is the fields of an embedded struct.
pub data StructFields : Type 0 where
  nil : StructFields
  cons : StructField → StructFields → StructFields → StructFields

pub record Field : Type 0 where
  pub tag : Tag
  pub kind : Kind
  pub type_id : ℕ
  pub elem : ℕ
  pub index : List ℕ
  pub name : Bytes
  pub sql_name : Bytes
  pub go_name : Bytes
  pub discovered_sql_type : Bytes
  pub user_sql_type : Bytes
  pub sql_default : Bytes
  pub is_pk : Bool
  pub not_null : Bool
  pub null_zero : Bool
  pub auto_increment : Bool

pub data RelationType : Type 0 where
  has_one_relation belongs_to_relation has_many_relation many_to_many_relation : RelationType

-- The join table and the m2m table are named by their types.
pub record Relation : Type 0 where
  pub relation_type : RelationType
  pub field : ℕ
  pub join_table : ℕ
  pub base_fields : List ℕ
  pub join_fields : List ℕ
  pub polymorphic_field : Option ℕ
  pub polymorphic_value : Bytes
  pub m2m_table : Option ℕ
  pub m2m_base_fields : List ℕ
  pub m2m_join_fields : List ℕ

-- The messages that `internal.Warn` prints, with their arguments.
pub data Warning : Type 0 where
  name_is_option : Bytes → Bytes → Bytes → Warning
  unknown_option : Bytes → Bytes → Bytes → Warning
  join_without_relation : Bytes → Bytes → Warning

pub record Table : Type 0 where
  pub formatter : Formatter
  pub type_id : ℕ
  pub type_name : Bytes
  pub model_name : Bytes
  pub name : Bytes
  pub sql_name : Bytes
  pub sql_name_for_selects : Bytes
  pub alias : Bytes
  pub sql_alias : Bytes
  pub heap : List Field
  pub fields : List ℕ
  pub pks : List ℕ
  pub data_fields : List ℕ
  pub field_map : List (Bytes × ℕ)
  pub relations : List (Bytes × Relation)
  pub unique : List (Bytes × List ℕ)
  pub soft_delete_field : Option ℕ
  pub all_fields : List ℕ
  pub skipped_fields : List ℕ
  pub warnings : List Warning

-- `m[key]`; `none` is a missing key.
unfoldable pub get_entry {ℓ} : {A : Type ℓ} → Bytes → List (Bytes × A) → Option A
get_entry key [] = none
get_entry key (e ∷ es) = let rest = get_entry key es in if equal e.0 key then some e.1 else rest

-- `m[key] = value`
unfoldable pub put_entry {ℓ} : {A : Type ℓ} → Bytes → A → List (Bytes × A) → List (Bytes × A)
put_entry key value [] = (key, value) ∷ []
put_entry key value (e ∷ es) =
    let rest = put_entry key value es in if equal e.0 key then (key, value) ∷ es else e ∷ rest

-- `delete(m, key)`
unfoldable pub delete_entry {ℓ} : {A : Type ℓ} → Bytes → List (Bytes × A) → List (Bytes × A)
delete_entry key [] = []
delete_entry key (e ∷ es) = let rest = delete_entry key es in if equal e.0 key then es else e ∷ rest

-- The field at a position.
unfoldable pub deref : List Field → ℕ → Option Field
deref heap i = get_elem? heap i

unfoldable pub is_pk_at : List Field → ℕ → Bool
unfolding deref
is_pk_at heap i = elim (deref heap i) [ some f ↦ f.is_pk | none ↦ false ]

unfoldable pub name_at : List Field → ℕ → Bytes
unfolding deref
name_at heap i = elim (deref heap i) [ some f ↦ f.name | none ↦ [] ]

-- An assignment to the fields of the field at a position.
unfoldable pub update_at : (Field → Field) → List Field → ℕ → List Field
update_at g [] i = []
update_at g (f ∷ fs) zero = g f ∷ fs
update_at g (f ∷ fs) (suc i) = f ∷ update_at g fs i

-- `removeField`: without its first occurrence.
unfoldable pub remove_field : List ℕ → ℕ → List ℕ
remove_field [] i = []
remove_field (j ∷ js) i = let rest = remove_field js i in if j == i then js else j ∷ rest

-- `markAsPK`
unfoldable pub mark_as_pk : Field → Field
mark_as_pk f = record f { is_pk = true; not_null = true; null_zero = true }

unfoldable pub quote_ident : Table → Bytes → Bytes
quote_ident t s = append_ident t.formatter [] s

unfoldable pub contains : ℕ → Bytes → Bool
contains c [] = false
contains c (x ∷ s) = x == c || contains c s

unfoldable pub quote_table_name : Table → Bytes → Bytes
unfolding quote_ident contains
quote_table_name t s =
    if contains b'?' s || contains b'(' s || contains b')' s then s else quote_ident t s

unfoldable pub set_name : Bytes → Table → Table
unfolding quote_ident
set_name name t =
    let named = record t {
      name = name;
      sql_name = quote_ident t name;
      sql_name_for_selects = quote_ident t name;
    } in
    if is_empty t.sql_alias
    then record named { alias = name; sql_alias = quote_ident t name }
    else named

-- `newTable` of a type with the given name; `pluralize` is the inflector of the table's name.
unfoldable pub new_table : (Bytes → Bytes) → Formatter → ℕ → Bytes → Table
unfolding set_name quote_ident underscore to_exported
new_table pluralize formatter type_id type_name =
    let blank : Table = record {
      formatter = formatter;
      type_id = type_id;
      type_name = to_exported type_name;
      model_name = underscore type_name;
      name = [];
      sql_name = [];
      sql_name_for_selects = [];
      alias = [];
      sql_alias = [];
      heap = [];
      fields = [];
      pks = [];
      data_fields = [];
      field_map = [];
      relations = [];
      unique = [];
      soft_delete_field = none;
      all_fields = [];
      skipped_fields = [];
      warnings = [];
    } in
    let named = set_name (pluralize (underscore type_name)) blank in
    record named {
      alias = underscore type_name;
      sql_alias = quote_ident named (underscore type_name);
    }
