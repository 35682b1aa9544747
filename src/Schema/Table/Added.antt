-- ===== src/Schema/Table/Added.antt =====
-- The fields that `initFields` of schema/table.go adds, and the primary key that it chooses.
use uptrace_bun.Prelude.{
  ℕ, zero, suc, ◌<◌, ◌≡◌, refl, sym, ap, ◌∙◌, subst, arith, Bool, true, false, List, [], ◌∷◌, ◌++◌,
  Option, none, some, Bytes, codes, ◌==◌, ==_iff, if◌then◌else◌, equal, length, All, Bool-cases,
  ◌⊎◌, inl, inr,
}
use uptrace_bun.Parser.{is_empty}
use uptrace_bun.Internal.Tagparser.{Tag, parse_tag, has_option, tag_option}
use uptrace_bun.Schema.Formatter.{Formatter}
use uptrace_bun.Schema.Table.{
  StructField, StructFields, nil, cons, Field, Table, deref, is_pk_at, update_at, remove_field,
  mark_as_pk, set_name, new_table, quote_table_name, quote_ident,
}
use uptrace_bun.Schema.Table.Fields.{
  drop_field, is_known_table_option, is_structure, warn, process_base_model_field, index_equal,
  index_at, replace_or_keep, new_field, add_new_field, inherit_names, end_embedded, embed,
  add_fields, default_pk, is_integer, set_auto_increment, set_default_pk, has_no_pks,
  collect_fields, init_fields,
}
use uptrace_bun.Schema.Table.Partition.{
  wanted, select, IsPartitioned, IsBelow, Made, IsPartitioned-heap, mapped-same, get_entry-IsBelow,
  add_field-IsPartitioned, drop_field-IsPartitioned, allocate_field-Made, is_pk_at-update,
  update_at-length,
}

-- Both branches have the property.
if-both : {A : Type 0} (P : A → Type 0) (b : Bool) (x y : A) → P x → P y → P (if b then x else y)
if-both P true x y h k = h
if-both P false x y h k = k

-- A change of what the lists do not depend on.
abbrev SameLists : Table → Table → Type 0
SameLists t u =
    (u.heap ≡ t.heap)
    × (u.fields ≡ t.fields)
    × (u.pks ≡ t.pks)
    × (u.data_fields ≡ t.data_fields)
    × (u.field_map ≡ t.field_map)

SameLists-IsPartitioned : (t u : Table) → SameLists t u → IsPartitioned t → IsPartitioned u
SameLists-IsPartitioned t u (heap, fields, pks, rest, m) h =
    IsPartitioned-heap t u h fields pks rest
      (record { longer = omega (arith, ap length heap); same = λ i l. ap (λ x. is_pk_at x i) heap })
      (subst (λ es. All (λ e. e.1 < length u.heap) es) (sym m)
        (mapped-same (length t.heap) (length u.heap) t.field_map (omega (arith, ap length heap))
          h.mapped))

set_name-SameLists : (name : Bytes) (t : Table) → SameLists t (set_name name t)
unfolding set_name
set_name-SameLists name t = elim (Bool-cases (is_empty t.sql_alias)) [
  | inl e ↦ rw e (refl, refl, refl, refl, refl)
  | inr e ↦ rw e (refl, refl, refl, refl, refl)
]

named-SameLists :
    (b : Bool) (name : Bytes) (t : Table) → SameLists t (if b then t else set_name name t)
named-SameLists true name t = (refl, refl, refl, refl, refl)
named-SameLists false name t = set_name-SameLists name t

-- The options select and alias.
selected-SameLists :
    (o : Option Bytes) (t u : Table)
    → SameLists t u
    → SameLists t (elim o as (λ _. Table) [
      | some s ↦ record u { sql_name_for_selects = quote_table_name u s }
      | none ↦ u
    ])
selected-SameLists none t u h = h
selected-SameLists (some s) t u h = h

aliased-SameLists :
    (o : Option Bytes) (t u : Table)
    → SameLists t u
    → SameLists t (elim o as (λ _. Table) [
      | some s ↦ record u { alias = s; sql_alias = quote_ident u s }
      | none ↦ u
    ])
aliased-SameLists none t u h = h
aliased-SameLists (some s) t u h = h

process_base_model_field-SameLists :
    (f : StructField) (t : Table) → SameLists t (process_base_model_field f t)
unfolding process_base_model_field warn
process_base_model_field-SameLists f t =
    aliased-SameLists (tag_option (codes "alias") (parse_tag f.tag).options) t _ (
      selected-SameLists (tag_option (codes "select") (parse_tag f.tag).options) t _ (
        named-SameLists (is_empty (parse_tag f.tag).name) (parse_tag f.tag).name (
          warn is_known_table_option (is_known_table_option (parse_tag f.tag).name) f.name
            (parse_tag f.tag) t)))

replace_or_keep-Made :
    (f : StructField) (tag : Tag) (index : List ℕ) (name : Bytes) (o : Option ℕ) (t : Table)
    → IsPartitioned t
    → IsBelow (length t.heap) o
    → Made (replace_or_keep f tag index name o t)
unfolding replace_or_keep
replace_or_keep-Made f tag index name none t h l = allocate_field-Made f tag index name t h
replace_or_keep-Made f tag index name (some i) t h l =
    elim (Bool-cases (index_equal (index_at t.heap i) index)) [
      | inl e ↦ rw e (record { table = h; field = l })
      | inr e ↦
          rw e
            (allocate_field-Made f tag index name (drop_field i t) (drop_field-IsPartitioned i t h))
    ]

new_field-Made :
    (f : StructField) (index : List ℕ) (t : Table) → IsPartitioned t → Made (new_field f index t)
unfolding new_field warn
new_field-Made f index t h =
    if-both Made f.exported _ _
      (replace_or_keep-Made f (parse_tag f.tag) index _ _ _
        (SameLists-IsPartitioned t _ (refl, refl, refl, refl, refl) h)
        (get_entry-IsBelow (length t.heap) _ t.field_map h.mapped))
      (record { table = h; field = tt })

add_new_field-IsPartitioned : (r : Option ℕ × Table) → Made r → IsPartitioned (add_new_field r)
unfolding add_new_field
add_new_field-IsPartitioned (none, t) h = h.table
add_new_field-IsPartitioned (some i, t) h = add_field-IsPartitioned i t h.table h.field

module _ (ref : ℕ → Table) where
  end_embedded-IsPartitioned :
      (f : StructField) (t : Table) → IsPartitioned t → IsPartitioned (end_embedded ref f t)
  unfolding end_embedded inherit_names
  end_embedded-IsPartitioned f t h =
      elim (Bool-cases (has_option (codes "inherit") (parse_tag f.tag))) [
        | inl e ↦ rw e (SameLists-IsPartitioned t _ (refl, refl, refl, refl, refl) h)
        | inr e ↦ rw e h
      ]

  base_model-IsPartitioned :
      (index : List ℕ) (f : StructField) (t : Table)
      → IsPartitioned t
      → IsPartitioned (elim index as (λ _. Table) [ [] ↦ process_base_model_field f t | _ ∷ _ ↦ t ])
  base_model-IsPartitioned [] f t h =
      SameLists-IsPartitioned t _ (process_base_model_field-SameLists f t) h
  base_model-IsPartitioned (_ ∷ _) f t h = h

  embed-IsPartitioned :
      (f : StructField) (index : List ℕ) (added t : Table)
      → IsPartitioned added
      → IsPartitioned t
      → IsPartitioned (embed ref f index added t)
  unfolding embed
  embed-IsPartitioned f index added t ha h = if-both IsPartitioned (equal f.tag (codes "-")) _ _ h (
      if-both IsPartitioned f.base_model _ _ (base_model-IsPartitioned index f t h)
        (if-both IsPartitioned (is_structure f.kind) _ _ (end_embedded-IsPartitioned f added ha) h))

  -- Adding the fields of a struct, the embedded ones and their replacements included, keeps the
  -- lists partitioned.
  pub add_fields-IsPartitioned :
      (s : StructFields) (index : List ℕ) (i : ℕ) (t : Table)
      → IsPartitioned t
      → IsPartitioned (add_fields ref s index i t)
  unfolding add_fields
  add_fields-IsPartitioned nil index i t h = h
  add_fields-IsPartitioned (cons f inner rest) index i t h =
      add_fields-IsPartitioned rest index (suc i) _ (
        if-both IsPartitioned f.anonymous _ _
          (embed-IsPartitioned f index (add_fields ref inner (index ++ i ∷ []) 0 t) t
            (add_fields-IsPartitioned inner (index ++ i ∷ []) 0 t h) h)
          (add_new_field-IsPartitioned (new_field f (index ++ i ∷ []) t)
            (new_field-Made f (index ++ i ∷ []) t h)))

-- No further occurrence, and exactly one.
abbrev Lacks : ℕ → List ℕ → Type 0
Lacks i is = All (λ j. j == i ≡ false) is

abbrev pub Once : ℕ → List ℕ → Type 0
Once i [] = ⊥
Once i (j ∷ is) = ((j == i ≡ true) × Lacks i is) ⊎ ((j == i ≡ false) × Once i is)

is_pk_at-mark_here :
    (heap : List Field) (i : ℕ) → i < length heap → is_pk_at (update_at mark_as_pk heap i) i ≡ true
unfolding is_pk_at deref update_at mark_as_pk
is_pk_at-mark_here [] i l = absurd (omega arith)
is_pk_at-mark_here (f ∷ heap) zero l = refl
is_pk_at-mark_here (f ∷ heap) (suc i) l = is_pk_at-mark_here heap i (omega arith)

is_pk_at-mark_other :
    (heap : List Field) (i j : ℕ)
    → j == i ≡ false
    → is_pk_at (update_at mark_as_pk heap i) j ≡ is_pk_at heap j
unfolding is_pk_at deref update_at
is_pk_at-mark_other [] i j e = refl
is_pk_at-mark_other (f ∷ heap) zero zero e = ground (arith, e)
is_pk_at-mark_other (f ∷ heap) zero (suc j) e = refl
is_pk_at-mark_other (f ∷ heap) (suc i) zero e = refl
is_pk_at-mark_other (f ∷ heap) (suc i) (suc j) e = is_pk_at-mark_other heap i j (ground (arith, e))

-- No field is marked, in the first heap; in the later one only the field at the position is.
record Marks (heap heap' : List Field) (i : ℕ) : Type 0 where
  here : is_pk_at heap' i ≡ true
  others : (j : ℕ) → j == i ≡ false → is_pk_at heap' j ≡ is_pk_at heap j

-- Of fields none of which is a primary key.
select_none :
    (heap : List Field) (is : List ℕ)
    → select true heap is ≡ []
    → (select false heap is ≡ is) × All (λ j. is_pk_at heap j ≡ false) is
unfolding select wanted
select_none heap [] e = (refl, tt)
select_none heap (j ∷ is) e = elim (Bool-cases (is_pk_at heap j)) [
  | inl p ↦
      let head : (if is_pk_at heap j then j ∷ select true heap is else select true heap is)
          ≡ j ∷ select true heap is =
        rw p refl in
      let clash : j ∷ select true heap is ≡ [] = sym head ∙ e in absurd (ground (arith, clash))
  | inr p ↦
      let tail : (if is_pk_at heap j then j ∷ select true heap is else select true heap is)
          ≡ select true heap is =
        rw p refl in
      let (all, unmarked) = select_none heap is (sym tail ∙ e) in
      (rw p (ap (λ js. j ∷ js) all), (p, unmarked))
]

Lacks-select :
    (heap heap' : List Field) (i : ℕ) (is : List ℕ)
    → Marks heap heap' i
    → Lacks i is
    → All (λ j. is_pk_at heap j ≡ false) is
    → (select true heap' is ≡ []) × (select false heap' is ≡ is)
unfolding select wanted
Lacks-select heap heap' i [] m l h = (refl, refl)
Lacks-select heap heap' i (j ∷ is) m (lj, l) (hj, h) =
    let (marked, all) = Lacks-select heap heap' i is m l h in
    rw (m.others j lj, hj) (marked, ap (λ js. j ∷ js) all)

Once-select :
    (heap heap' : List Field) (i : ℕ) (is : List ℕ)
    → Marks heap heap' i
    → Once i is
    → All (λ j. is_pk_at heap j ≡ false) is
    → (select true heap' is ≡ i ∷ []) × (select false heap' is ≡ remove_field is i)
unfolding select wanted remove_field
Once-select heap heap' i [] m o h = absurd o
Once-select heap heap' i (j ∷ is) m (inl (q, l)) (hj, h) =
    let (marked, all) = Lacks-select heap heap' i is m l h in
    let e = (==_iff j i).0 q in
    rw (q, ap (λ k. is_pk_at heap' k) e ∙ m.here)
      (ap (λ k. k ∷ select true heap' is) e ∙ ap (λ js. i ∷ js) marked, all)
Once-select heap heap' i (j ∷ is) m (inr (q, o)) (hj, h) =
    let (one, all) = Once-select heap heap' i is m o h in
    rw (q, m.others j q, hj) (one, ap (λ js. j ∷ js) all)

set_auto_increment_keeps : (f : Field) → (set_auto_increment f).is_pk ≡ f.is_pk
unfolding set_auto_increment
set_auto_increment_keeps f = if-both (λ g. g.is_pk ≡ f.is_pk) (is_integer f.kind) _ f refl refl

Once-valid : (n i : ℕ) (is : List ℕ) → Once i is → All (λ j. j < n) is → i < n
Once-valid n i [] o v = absurd o
Once-valid n i (j ∷ is) (inl (q, l)) (vj, v) = subst (λ k. k < n) ((==_iff j i).0 q) vj
Once-valid n i (j ∷ is) (inr (q, o)) (vj, v) = Once-valid n i is o v

default_heap : List Field → ℕ → List Field
default_heap heap i = update_at set_auto_increment (update_at mark_as_pk heap i) i

default_heap-Marks :
    (heap : List Field) (i : ℕ) → i < length heap → Marks heap (default_heap heap i) i
unfolding default_heap
default_heap-Marks heap i l = record {
  here =
      is_pk_at-update set_auto_increment (update_at mark_as_pk heap i) i i set_auto_increment_keeps
      ∙ is_pk_at-mark_here heap i l;
  others = λ j e.
      is_pk_at-update set_auto_increment (update_at mark_as_pk heap i) i j set_auto_increment_keeps
      ∙ is_pk_at-mark_other heap i j e;
}

default_heap-length : (heap : List Field) (i : ℕ) → length (default_heap heap i) ≡ length heap
unfolding default_heap
default_heap-length heap i =
    update_at-length set_auto_increment (update_at mark_as_pk heap i) i
    ∙ update_at-length mark_as_pk heap i

set_default_pk-IsPartitioned :
    (i : ℕ) (t : Table)
    → IsPartitioned t
    → t.pks ≡ []
    → Once i t.fields
    → IsPartitioned (set_default_pk (some i) t)
unfolding set_default_pk default_heap
set_default_pk-IsPartitioned i t h e o =
    let (all, unmarked) = select_none t.heap t.fields (sym h.primary ∙ e) in
    let l = Once-valid (length t.heap) i t.fields o h.allocated in
    let (one, rest) =
      Once-select t.heap (default_heap t.heap i) i t.fields (default_heap-Marks t.heap i l) o
        unmarked in
    let long = default_heap-length t.heap i in
    record {
      primary = sym one;
      others = ap (λ is. remove_field is i) (h.others ∙ all) ∙ sym rest;
      allocated = subst (λ n. All (λ j. j < n) t.fields) (sym long) h.allocated;
      mapped = subst (λ n. All (λ e. e.1 < n) t.field_map) (sym long) h.mapped;
    }

nil_of : (is : List ℕ) → (elim is as (λ _. Bool) [ [] ↦ true | _ ∷ _ ↦ false ]) ≡ true → is ≡ []
nil_of [] e = refl
nil_of (i ∷ is) e = cc

has_no_pks-nil : (t : Table) → has_no_pks t ≡ true → t.pks ≡ []
unfolding has_no_pks
has_no_pks-nil t e = nil_of t.pks e

default-IsPartitioned :
    (o : Option ℕ) (t : Table)
    → IsPartitioned t
    → t.pks ≡ []
    → ((i : ℕ) → o ≡ some i → Once i t.fields)
    → IsPartitioned (set_default_pk o t)
unfolding set_default_pk
default-IsPartitioned none t h e once = h
default-IsPartitioned (some i) t h e once = set_default_pk-IsPartitioned i t h e (once i refl)

new_table-IsPartitioned :
    (pluralize : Bytes → Bytes) (formatter : Formatter) (type_id : ℕ) (name : Bytes)
    → IsPartitioned
        (record (new_table pluralize formatter type_id name) { fields = []; field_map = [] })
unfolding new_table set_name select
new_table-IsPartitioned pluralize formatter type_id name = record {
  primary = refl;
  others = refl;
  allocated = tt;
  mapped = tt;
}

-- The lists of a table whose fields `initFields` has found are partitioned: the primary keys are the
-- fields that are marked as such, in the order of all fields, and the data fields are the others. If
-- no field has the option pk, the field that is chosen by its name has to be among the fields, once.
pub init_fields-IsPartitioned :
    (pluralize : Bytes → Bytes) (formatter : Formatter) (type_id : ℕ) (name : Bytes)
    (ref : ℕ → Table) (s : StructFields)
    → ((i : ℕ)
        → has_no_pks (collect_fields ref s (new_table pluralize formatter type_id name)) ≡ true
        → default_pk (collect_fields ref s (new_table pluralize formatter type_id name)) ≡ some i
        → Once i (collect_fields ref s (new_table pluralize formatter type_id name)).fields)
    → IsPartitioned (init_fields ref s (new_table pluralize formatter type_id name))
unfolding init_fields collect_fields
init_fields-IsPartitioned pluralize formatter type_id name ref s once =
    let t = new_table pluralize formatter type_id name in
    let added =
      add_fields-IsPartitioned ref s [] 0 (record t { fields = []; field_map = [] })
        (new_table-IsPartitioned pluralize formatter type_id name) in
    elim (Bool-cases (has_no_pks (collect_fields ref s t))) [
      | inl e ↦ rw e (
          default-IsPartitioned (default_pk (collect_fields ref s t)) (collect_fields ref s t) added
            (has_no_pks-nil (collect_fields ref s t) e) (λ i q. once i e q))
      | inr e ↦ rw e added
    ]
