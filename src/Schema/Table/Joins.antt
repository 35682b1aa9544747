-- ===== src/Schema/Table/Joins.antt =====
-- The panics of schema/table.go, and what its relations are built of: parseRelationJoin, the columns
-- of a join and the foreign keys of primary keys. A panic is an error.
use uptrace_bun.Prelude.{
  ℕ, Bool, true, false, ◌||◌, List, [], ◌∷◌, ◌++◌, Option, none, some, Bytes, ◌==◌, if◌then◌else◌,
  equal, Result, ok, err, ◌>>=◌,
}
use uptrace_bun.Internal.Underscore.{underscore}
use uptrace_bun.Schema.Table.{Field, Table, Relation, RelationType, get_entry, deref, name_at}
use uptrace_bun.Schema.Table.Fields.{split}

-- The panics, with the arguments of their messages in their order, but for the kind that is no slice. `must_have` and `must_have_key`
-- (which tells how to override) have the word for the relation first.
pub data Panic : Type 0 where
  no_primary_keys : Bytes → Panic
  unknown_relation : Bytes → Bytes → Panic
  already_has : Bytes → Bytes → Panic
  bad_join : Bytes → Panic
  must_have : Bytes → Bytes → Bytes → Bytes → Bytes → Panic
  must_have_key : Bytes → Bytes → Bytes → Bytes → Bytes → Bytes → Panic
  requires_slice : Bytes → Bytes → Bytes → Panic
  no_polymorphic_column : Bytes → Bytes → Bytes → Bytes → Panic
  no_m2m_option : Bytes → Panic
  no_m2m_table : Bytes → Panic
  no_m2m_field : Bytes → Bytes → Bytes → Bytes → Panic
  index_out_of_range : Panic

unfoldable pub field_with_lock : Table → Bytes → Option ℕ
unfolding get_entry
field_with_lock t name = get_entry name t.field_map

unfoldable pub has_field : Table → Bytes → Bool
unfolding get_entry
has_field t name = elim (get_entry name t.field_map) [ some _ ↦ true | none ↦ false ]

unfoldable pub check_not_empty : Bytes → List ℕ → Result Panic (Unit {0})
check_not_empty type_name [] = err (no_primary_keys type_name)
check_not_empty type_name (_ ∷ _) = ok tt

-- `CheckPKs`
unfoldable pub check_pks : Table → Result Panic (Unit {0})
unfolding check_not_empty
check_pks t = check_not_empty t.type_name t.pks

-- `fieldByGoName` of the fields at the positions.
unfoldable pub by_go_name : List Field → List ℕ → Bytes → Option ℕ
unfolding deref equal
by_go_name heap [] name = none
by_go_name heap (i ∷ is) name =
    let rest = by_go_name heap is name in
    elim (deref heap i) [ some f ↦ if equal f.go_name name then some i else rest | none ↦ rest ]

unfoldable pub field_by_go_name : Table → Bytes → Option ℕ
unfolding by_go_name
field_by_go_name t name = by_go_name t.heap t.all_fields name

-- `strings.TrimSpace` of a text that begins and ends with ASCII.
is_space : ℕ → Bool
is_space c = c == 9 || c == 10 || c == 11 || c == 12 || c == 13 || c == 32

trim_left : Bytes → Bytes
unfolding is_space
trim_left [] = []
trim_left (c ∷ s) = let rest = trim_left s in if is_space c then rest else c ∷ s

trim_right : Bytes → Bytes
unfolding is_space
trim_right [] = []
trim_right (c ∷ s) = elim (trim_right s) [
  | [] ↦ if is_space c then [] else c ∷ []
  | d ∷ r ↦ c ∷ d ∷ r
]

unfoldable pub trim_space : Bytes → Bytes
unfolding trim_left trim_right
trim_space s = trim_right (trim_left s)

-- One pair of columns, of what is split at the equals signs.
unfoldable pub pair_of : Bytes → List Bytes → Result Panic (Bytes × Bytes)
pair_of join (a ∷ b ∷ []) = ok (a, b)
pair_of join _ = err (bad_join join)

unfoldable pub parse_pairs : Bytes → List Bytes → Result Panic (List Bytes × List Bytes)
unfolding pair_of split trim_space
parse_pairs join [] = ok ([], [])
parse_pairs join (s ∷ ss) = do
  pair ← pair_of join (split b'=' (trim_space s))
  rest ← parse_pairs join ss
  ok (pair.0 ∷ rest.0, pair.1 ∷ rest.1)

-- `parseRelationJoin`: the base columns and the join columns.
unfoldable pub parse_relation_join : Bytes → Result Panic (List Bytes × List Bytes)
unfolding parse_pairs split
parse_relation_join join = parse_pairs join (split b',' join)

unfoldable pub found : Panic → Option ℕ → Result Panic ℕ
found missing (some i) = ok i
found missing none = err missing

-- The loops over the columns of a join; `missing` is the panic of a base column that either table
-- lacks.
unfoldable pub join_columns :
    (Bytes → Panic) → Table → Table → List Bytes → List Bytes → Result Panic (List ℕ × List ℕ)
unfolding found field_with_lock
join_columns missing t joined [] js = ok ([], [])
join_columns missing t joined (b ∷ bs) [] = err index_out_of_range
join_columns missing t joined (b ∷ bs) (j ∷ js) = do
  base ← found (missing b) (field_with_lock t b)
  join ← found (missing b) (field_with_lock joined j)
  rest ← join_columns missing t joined bs js
  ok (base ∷ rest.0, join ∷ rest.1)

unfoldable pub or_else : Option ℕ → Option ℕ → Option ℕ
or_else (some i) o = some i
or_else none o = o

-- The loop over the primary keys, given by their names, that looks for the foreign keys in a table.
unfoldable pub find_keys : (Bytes → Panic) → Bytes → Table → List Bytes → Result Panic (List ℕ)
unfolding found field_with_lock or_else
find_keys missing prefix t [] = ok []
find_keys missing prefix t (name ∷ names) = do
  key ←
      found (missing (prefix ++ name))
        (or_else (field_with_lock t (prefix ++ name)) (field_with_lock t name))
  rest ← find_keys missing prefix t names
  ok (key ∷ rest)

unfoldable pub names_at : List Field → List ℕ → List Bytes
unfolding name_at
names_at heap [] = []
names_at heap (i ∷ is) = name_at heap i ∷ names_at heap is

unfoldable pub new_relation : RelationType → ℕ → Table → List ℕ → List ℕ → Relation
new_relation type i joined base join = record {
  relation_type = type;
  field = i;
  join_table = joined.type_id;
  base_fields = base;
  join_fields = join;
  polymorphic_field = none;
  polymorphic_value = [];
  m2m_table = none;
  m2m_base_fields = [];
  m2m_join_fields = [];
}

-- The prefix of the foreign keys.
unfoldable pub fk_prefix : Bytes → Bytes
unfolding underscore
fk_prefix name = underscore name ++ b'_' ∷ []

-- `belongsToRelation` behind `CheckPKs`.
