-- ===== src/Schema/Table/Keys.antt =====
-- The keys of the relations that schema/table.go builds.
use uptrace_bun.Prelude.{
  ℕ, suc, ◌≤◌, ◌≡◌, refl, sym, ap, ◌∙◌, arith, Bool, true, false, List, [], ◌∷◌, ◌++◌, Option, none,
  some, Bytes, codes, ◌==◌, equal, length, Result, ok, err, ◌>>=◌, Bool-cases, inl, inr,
}
use uptrace_bun.Internal.Tagparser.{tag_option, has_option}
use uptrace_bun.Schema.Table.{
  Field, Table, Relation, RelationType, has_one_relation, belongs_to_relation, has_many_relation,
  many_to_many_relation, deref,
}
use uptrace_bun.Schema.Table.Fields.{cons_head, split}
use uptrace_bun.Schema.Table.Joins.{
  Panic, no_primary_keys, unknown_relation, already_has, bad_join, must_have, must_have_key,
  requires_slice, no_polymorphic_column, no_m2m_option, no_m2m_table, no_m2m_field,
  index_out_of_range, field_with_lock, check_not_empty, check_pks, field_by_go_name, pair_of,
  trim_space, parse_pairs, parse_relation_join, found, join_columns, or_else, find_keys, names_at,
  new_relation,
}
use uptrace_bun.Schema.Table.Relations.{
  belongs_to_by, has_one_by, has_many_by, m2m_columns_by, belongs_to_fields, belongs_to_relation_of,
  has_one_fields, has_one_relation_of, take_type_columns, split_type_columns, has_many_fields,
  add_polymorphic, is_slice, require_slice, has_many_relation_of, first_of, m2m_columns, side,
  option_or, table_or, sides, m2m_relation_of,
}

-- A result that has the property, or a panic that is no index out of range.
abbrev pub is_index : Panic → Bool
is_index index_out_of_range = true
is_index (no_primary_keys a) = false
is_index (unknown_relation a b) = false
is_index (already_has a b) = false
is_index (bad_join a) = false
is_index (must_have a b c d e) = false
is_index (must_have_key a b c d e f) = false
is_index (requires_slice a b c) = false
is_index (no_polymorphic_column a b c d) = false
is_index (no_m2m_option a) = false
is_index (no_m2m_table a) = false
is_index (no_m2m_field a b c d) = false

pub data Ensures {A : Type 0} (P : A → Type 0) : Result Panic A → Type 0 where
  returns : {a : A} → P a → Ensures P (ok a)
  panics : {e : Panic} → is_index e ≡ false → Ensures P (err e)

pub Ensures-bind :
    {A B : Type 0} {P : A → Type 0} {Q : B → Type 0} {r : Result Panic A} {k : A → Result Panic B}
    → Ensures P r
    → ((a : A) → P a → Ensures Q (k a))
    → Ensures Q (r >>= k)
Ensures-bind (returns h) next = next _ h
Ensures-bind (panics h) next = panics h

Ensures-mono :
    {A : Type 0} {P Q : A → Type 0} {r : Result Panic A}
    → ((a : A) → P a → Q a)
    → Ensures P r
    → Ensures Q r
Ensures-mono next (returns h) = returns (next _ h)
Ensures-mono next (panics h) = panics h

abbrev Any : {A : Type 0} → A → Type 0
Any _ = Unit

-- As many fields on either side: of the two tables, or of each table and the m2m table.
abbrev IsMatchedAs : RelationType → Relation → Type 0
IsMatchedAs has_one_relation r = length r.base_fields ≡ length r.join_fields
IsMatchedAs belongs_to_relation r = length r.base_fields ≡ length r.join_fields
IsMatchedAs has_many_relation r = length r.base_fields ≡ length r.join_fields
IsMatchedAs many_to_many_relation r =
    (length r.base_fields ≡ length r.m2m_base_fields)
    × (length r.join_fields ≡ length r.m2m_join_fields)

abbrev pub IsMatched : Relation → Type 0
IsMatched r = IsMatchedAs r.relation_type r

abbrev Same : {A B : Type 0} → List A × List B → Type 0
Same c = length c.0 ≡ length c.1

found_lem :
    (missing : Panic) (o : Option ℕ) → is_index missing ≡ false → Ensures Any (found missing o)
unfolding found
found_lem missing (some i) h = returns tt
found_lem missing none h = panics h

pair_of_lem : (join : Bytes) (ws : List Bytes) → Ensures Any (pair_of join ws)
unfolding pair_of
pair_of_lem join [] = panics refl
pair_of_lem join (a ∷ []) = panics refl
pair_of_lem join (a ∷ b ∷ []) = returns tt
pair_of_lem join (a ∷ b ∷ c ∷ ws) = panics refl

parse_pairs-length :
    (join : Bytes) (ss : List Bytes)
    → Ensures (λ c. (length c.0 ≡ length ss) × (length c.1 ≡ length ss)) (parse_pairs join ss)
unfolding parse_pairs
parse_pairs-length join [] = returns (refl, refl)
parse_pairs-length join (s ∷ ss) =
    Ensures-bind (pair_of_lem join (split b'=' (trim_space s))) (λ pair _.
      Ensures-bind (parse_pairs-length join ss) (λ c h. returns (ap suc h.0, ap suc h.1)))

cons_head-length : (c : ℕ) (ws : List Bytes) → 1 ≤ length (cons_head c ws)
unfolding cons_head
cons_head-length c [] = omega arith
cons_head-length c (w ∷ ws) = omega arith

split_cons : (sep : ℕ) (s : Bytes) → 1 ≤ length (split sep s)
unfolding split
split_cons sep [] = omega arith
split_cons sep (c ∷ s) = elim (Bool-cases (c == sep)) [
  | inl e ↦ rw e (omega arith)
  | inr e ↦ rw e (cons_head-length c (split sep s))
]

join_columns-Same :
    (missing : Bytes → Panic) (t joined : Table) (bs js : List Bytes)
    → ((b : Bytes) → is_index (missing b) ≡ false)
    → length bs ≡ length js
    → Ensures Same (join_columns missing t joined bs js)
unfolding join_columns
join_columns-Same missing t joined [] js m h = returns refl
join_columns-Same missing t joined (b ∷ bs) [] m h = absurd (omega (arith, h))
join_columns-Same missing t joined (b ∷ bs) (j ∷ js) m h =
    Ensures-bind (found_lem (missing b) (field_with_lock t b) (m b)) (λ base _.
      Ensures-bind (found_lem (missing b) (field_with_lock joined j) (m b)) (λ join _.
        Ensures-bind (join_columns-Same missing t joined bs js m (omega (arith, h)))
          (λ rest same. returns (ap suc same))))

find_keys-length :
    (missing : Bytes → Panic) (prefix : Bytes) (t : Table) (names : List Bytes)
    → ((b : Bytes) → is_index (missing b) ≡ false)
    → Ensures (λ keys. length keys ≡ length names) (find_keys missing prefix t names)
unfolding find_keys
find_keys-length missing prefix t [] m = returns refl
find_keys-length missing prefix t (name ∷ names) m =
    Ensures-bind
      (found_lem (missing (prefix ++ name))
        (or_else (field_with_lock t (prefix ++ name)) (field_with_lock t name))
        (m (prefix ++ name)))
      (λ key _.
        Ensures-bind (find_keys-length missing prefix t names m) (λ rest h. returns (ap suc h)))

names_at-length : (heap : List Field) (is : List ℕ) → length (names_at heap is) ≡ length is
unfolding names_at
names_at-length heap [] = refl
names_at-length heap (i ∷ is) = ap suc (names_at-length heap is)

check_not_empty_lem : (name : Bytes) (is : List ℕ) → Ensures Any (check_not_empty name is)
unfolding check_not_empty
check_not_empty_lem name [] = panics refl
check_not_empty_lem name (_ ∷ _) = returns tt

check_pks_lem : (t : Table) → Ensures Any (check_pks t)
unfolding check_pks
check_pks_lem t = check_not_empty_lem t.type_name t.pks

take_type_columns-Same :
    (bs js : List Bytes) (column : Bytes)
    → length bs ≡ length js
    → Same (take_type_columns bs js column).0
unfolding take_type_columns
take_type_columns-Same [] [] column h = refl
take_type_columns-Same [] (j ∷ js) column h = absurd (omega (arith, h))
take_type_columns-Same (b ∷ bs) [] column h = absurd (omega (arith, h))
take_type_columns-Same (b ∷ bs) (j ∷ js) column h = elim (Bool-cases (equal b (codes "type"))) [
  | inl e ↦ rw e (take_type_columns-Same bs js j (omega (arith, h)))
  | inr e ↦ rw e (ap suc (take_type_columns-Same bs js column (omega (arith, h))))
]

split_type_columns-Same :
    (p : Bool) (c : List Bytes × List Bytes) → Same c → Same (split_type_columns p c).0
unfolding split_type_columns
split_type_columns-Same true c h = take_type_columns-Same c.0 c.1 [] h
split_type_columns-Same false c h = h

-- The fields by the columns of a join.
joined_by :
    (missing : Bytes → Panic) (t joined : Table) (join : Bytes)
    → ((b : Bytes) → is_index (missing b) ≡ false)
    → Ensures Same (parse_relation_join join >>= λ c. join_columns missing t joined c.0 c.1)
unfolding parse_relation_join
joined_by missing t joined join m =
    Ensures-bind (parse_pairs-length join (split b',' join))
      (λ c h. join_columns-Same missing t joined c.0 c.1 m (h.0 ∙ sym h.1))

belongs_to_by-Same :
    (o : Option Bytes) (t joined : Table) (f : Field) → Ensures Same (belongs_to_by o t joined f)
unfolding belongs_to_by
belongs_to_by-Same (some join) t joined f = joined_by _ t joined join (λ b. refl)
belongs_to_by-Same none t joined f =
    Ensures-bind
      (find_keys-length
        (λ k. must_have_key (codes "belongs-to") t.type_name f.go_name t.type_name k f.go_name) _ t
        (names_at joined.heap joined.pks) (λ b. refl))
      (λ base h. returns (h ∙ names_at-length joined.heap joined.pks))

has_one_by-Same :
    (o : Option Bytes) (t joined : Table) (f : Field) → Ensures Same (has_one_by o t joined f)
unfolding has_one_by
has_one_by-Same (some join) t joined f = joined_by _ t joined join (λ b. refl)
has_one_by-Same none t joined f =
    Ensures-bind
      (find_keys-length
        (λ k. must_have_key (codes "has-one") f.go_name t.type_name joined.type_name k f.go_name) _
        joined (names_at t.heap t.pks) (λ b. refl))
      (λ join h. returns (sym (h ∙ names_at-length t.heap t.pks)))

has_many_by-Same :
    (o : Option Bytes) (p : Bool) (t joined : Table) (f : Field)
    → Ensures (λ k. Same k.0) (has_many_by o p t joined f)
unfolding has_many_by parse_relation_join
has_many_by-Same (some join) p t joined f =
    Ensures-bind (parse_pairs-length join (split b',' join)) (λ c h.
      Ensures-bind
        (join_columns-Same _ t joined (split_type_columns p c).0.0 (split_type_columns p c).0.1
          (λ b. refl) (split_type_columns-Same p c (h.0 ∙ sym h.1)))
        (λ keys same. returns same))
has_many_by-Same none p t joined f =
    Ensures-bind
      (find_keys-length
        (λ k. must_have_key (codes "has-many") t.type_name f.go_name joined.type_name k f.go_name) _
        joined (names_at t.heap t.pks) (λ b. refl))
      (λ join h. returns (sym (h ∙ names_at-length t.heap t.pks)))

-- With its type, so that it is also matched.
belongs_to_relation_of-Same :
    (ref : ℕ → Table) (t : Table) (i : ℕ) (f : Field)
    → Ensures
        (λ r. (length r.base_fields ≡ length r.join_fields) × IsMatched r)
        (belongs_to_relation_of ref t i f)
unfolding belongs_to_relation_of belongs_to_fields new_relation
belongs_to_relation_of-Same ref t i f = Ensures-bind (check_pks_lem (ref f.type_id)) (λ _ _.
    Ensures-bind (belongs_to_by-Same (tag_option (codes "join") f.tag.options) t (ref f.type_id) f)
      (λ keys h. returns (h, h)))

pub belongs_to_relation_of-IsMatched :
    (ref : ℕ → Table) (t : Table) (i : ℕ) (f : Field)
    → Ensures IsMatched (belongs_to_relation_of ref t i f)
belongs_to_relation_of-IsMatched ref t i f =
    Ensures-mono (λ r h. h.1) (belongs_to_relation_of-Same ref t i f)

pub has_one_relation_of-IsMatched :
    (ref : ℕ → Table) (t : Table) (i : ℕ) (f : Field)
    → Ensures IsMatched (has_one_relation_of ref t i f)
unfolding has_one_relation_of has_one_fields new_relation
has_one_relation_of-IsMatched ref t i f = Ensures-bind (check_pks_lem t) (λ _ _.
    Ensures-bind (has_one_by-Same (tag_option (codes "join") f.tag.options) t (ref f.type_id) f)
      (λ keys h. returns h))

require_slice_lem : (word : Bytes) (t : Table) (f : Field) → Ensures Any (require_slice word t f)
unfolding require_slice
require_slice_lem word t f = elim (Bool-cases (is_slice f.kind)) [
  | inl e ↦ rw e (returns tt)
  | inr e ↦ rw e (panics refl)
]

add_polymorphic-IsMatched :
    (o : Option Bytes) (column : Bytes) (t joined : Table) (f : Field) (i : ℕ) (base join : List ℕ)
    → length base ≡ length join
    → Ensures IsMatched
        (add_polymorphic o column t joined f (new_relation has_many_relation i joined base join))
unfolding add_polymorphic new_relation
add_polymorphic-IsMatched none column t joined f i base join h = returns h
add_polymorphic-IsMatched (some value) column t joined f i base join h =
    Ensures-bind
      (found_lem (no_polymorphic_column t.type_name f.go_name joined.type_name column)
        (field_with_lock joined column) refl)
      (λ _ _. returns h)

pub has_many_relation_of-IsMatched :
    (ref : ℕ → Table) (t : Table) (i : ℕ) (f : Field)
    → Ensures IsMatched (has_many_relation_of ref t i f)
unfolding has_many_relation_of has_many_fields
has_many_relation_of-IsMatched ref t i f = Ensures-bind (check_pks_lem t) (λ _ _.
    Ensures-bind (require_slice_lem (codes "has-many") t f) (λ _ _.
      Ensures-bind
        (has_many_by-Same (tag_option (codes "join") f.tag.options)
          (has_option (codes "polymorphic") f.tag) t (ref f.elem) f)
        (λ keys h.
          add_polymorphic-IsMatched (tag_option (codes "polymorphic") f.tag.options) keys.1 t
            (ref f.elem) f i keys.0.0 keys.0.1 h)))

first_of_lem : (ss : List Bytes) → 1 ≤ length ss → Ensures Any (first_of ss)
unfolding first_of
first_of_lem [] h = absurd (omega (arith, h))
first_of_lem (s ∷ ss) h = returns tt

m2m_columns_by_lem :
    (o : Option Bytes) (t joined : Table) (f : Field) → Ensures Any (m2m_columns_by o t joined f)
unfolding m2m_columns_by parse_relation_join
m2m_columns_by_lem (some join) t joined f =
    let some_pair = split_cons b',' join in
    Ensures-bind (parse_pairs-length join (split b',' join)) (λ c h.
      Ensures-bind (first_of_lem c.0 (omega (arith, h.0, some_pair))) (λ _ _.
        Ensures-bind (first_of_lem c.1 (omega (arith, h.1, some_pair))) (λ _ _. returns tt)))
m2m_columns_by_lem none t joined f = returns tt

side-Same :
    (ref : ℕ → Table) (missing : Panic) (m2m : Table) (i : ℕ) (o : Option Field)
    → is_index missing ≡ false
    → Ensures (λ r. length r.base_fields ≡ length r.join_fields) (side ref missing m2m i o)
unfolding side
side-Same ref missing m2m i none h = panics h
side-Same ref missing m2m i (some f) h =
    Ensures-mono (λ r k. k.0) (belongs_to_relation_of-Same ref m2m i f)

sides-Same :
    (ref : ℕ → Table) (t m2m : Table) (f : Field) (names : Bytes × Bytes)
    → Ensures
        (λ b.
          (length b.0.base_fields ≡ length b.0.join_fields)
          × (length b.1.base_fields ≡ length b.1.join_fields))
        (sides ref t m2m f names)
unfolding sides
sides-Same ref t m2m f names =
    Ensures-bind (found_lem _ (field_by_go_name m2m names.0) refl) (λ l _.
      Ensures-bind (found_lem _ (field_by_go_name m2m names.1) refl) (λ r _.
        Ensures-bind (side-Same ref _ m2m l (deref m2m.heap l) refl) (λ left h.
          Ensures-bind (side-Same ref _ m2m r (deref m2m.heap r) refl)
            (λ right k. returns (h, k)))))

option_or_lem :
    (missing : Panic) (o : Option Bytes)
    → is_index missing ≡ false
    → Ensures Any (option_or missing o)
unfolding option_or
option_or_lem missing (some s) h = returns tt
option_or_lem missing none h = panics h

table_or_lem :
    (missing : Panic) (o : Option Table)
    → is_index missing ≡ false
    → Ensures Any (table_or missing o)
unfolding table_or
table_or_lem missing (some t) h = returns tt
table_or_lem missing none h = panics h

pub m2m_relation_of-IsMatched :
    (ref : ℕ → Table) (by_name : Bytes → Option Table) (t : Table) (i : ℕ) (f : Field)
    → Ensures IsMatched (m2m_relation_of ref by_name t i f)
unfolding m2m_relation_of m2m_columns new_relation
m2m_relation_of-IsMatched ref by_name t i f =
    Ensures-bind (require_slice_lem (codes "m2m") t f) (λ _ _.
      Ensures-bind (check_pks_lem t) (λ _ _. Ensures-bind (check_pks_lem (ref f.elem)) (λ _ _.
        Ensures-bind (option_or_lem _ (tag_option (codes "m2m") f.tag.options) refl) (λ name _.
          Ensures-bind (table_or_lem _ (by_name name) refl) (λ m2m _.
            Ensures-bind
              (m2m_columns_by_lem (tag_option (codes "join") f.tag.options) t (ref f.elem) f)
              (λ columns _.
                Ensures-bind (sides-Same ref t m2m f columns)
                  (λ both h. returns (sym h.0, sym h.1))))))))
