-- ===== src/Schema/Table/Partition.antt =====
-- The lists of fields of a table of schema/table.go: the primary keys and the others.
use uptrace_bun.Prelude.{
  ℕ, zero, suc, ◌≤◌, ◌<◌, ◌≡◌, refl, sym, ap, ◌∙◌, subst, arith, Bool, true, false, not, List, [],
  ◌∷◌, ◌++◌, Option, none, some, Bytes, codes, ◌==◌, ==_iff, if◌then◌else◌, equal, length,
  length-append, All, Bool-cases, inl, inr,
}
use uptrace_bun.Internal.Tagparser.{Tag, has_option, tag_option}
use uptrace_bun.Schema.Table.{
  StructField, Field, Table, get_entry, put_entry, delete_entry, deref, is_pk_at, name_at,
  update_at, remove_field,
}
use uptrace_bun.Schema.Table.Fields.{
  add_field, drop_field, make_field, allocate, keep_or_skip, allocate_field,
}

-- Of primary keys, or of the other fields.
unfoldable pub wanted : Bool → Bool → Bool
wanted true p = p
wanted false p = not p

unfoldable pub select : Bool → List Field → List ℕ → List ℕ
unfolding wanted is_pk_at
select b heap [] = []
select b heap (i ∷ is) =
    let rest = select b heap is in if wanted b (is_pk_at heap i) then i ∷ rest else rest

-- The primary keys are the fields that are marked as such, in their order, and the data fields are
-- the others; what the lists and the map lead to is allocated.
pub record IsPartitioned (t : Table) : Type 0 where
  pub primary : t.pks ≡ select true t.heap t.fields
  pub others : t.data_fields ≡ select false t.heap t.fields
  pub allocated : All (λ i. i < length t.heap) t.fields
  pub mapped : All (λ e. e.1 < length t.heap) t.field_map

-- A later heap in which no field is marked that was not, or the other way round.
pub record SamePks (heap heap' : List Field) : Type 0 where
  pub longer : length heap ≤ length heap'
  pub same : (i : ℕ) → i < length heap → is_pk_at heap' i ≡ is_pk_at heap i

select-same :
    (b : Bool) (heap heap' : List Field) (is : List ℕ)
    → SamePks heap heap'
    → All (λ i. i < length heap) is
    → select b heap' is ≡ select b heap is
unfolding select
select-same b heap heap' [] h v = refl
select-same b heap heap' (i ∷ is) h (vi, v) = rw (h.same i vi, select-same b heap heap' is h v) refl

valid-same : (n m : ℕ) (is : List ℕ) → n ≤ m → All (λ i. i < n) is → All (λ i. i < m) is
valid-same n m [] l v = tt
valid-same n m (i ∷ is) l (vi, v) = (omega (arith, l, vi), valid-same n m is l v)

pub mapped-same :
    (n m : ℕ) (es : List (Bytes × ℕ)) → n ≤ m → All (λ e. e.1 < n) es → All (λ e. e.1 < m) es
mapped-same n m [] l v = tt
mapped-same n m (e ∷ es) l (ve, v) = (omega (arith, l, ve), mapped-same n m es l v)

put_entry-mapped :
    (n i : ℕ) (key : Bytes) (es : List (Bytes × ℕ))
    → i < n
    → All (λ e. e.1 < n) es
    → All (λ e. e.1 < n) (put_entry key i es)
unfolding put_entry
put_entry-mapped n i key [] l v = (l, tt)
put_entry-mapped n i key (e ∷ es) l (ve, v) = elim (Bool-cases (equal e.0 key)) [
  | inl q ↦ rw q (l, v)
  | inr q ↦ rw q (ve, put_entry-mapped n i key es l v)
]

delete_entry-mapped :
    (n : ℕ) (key : Bytes) (es : List (Bytes × ℕ))
    → All (λ e. e.1 < n) es
    → All (λ e. e.1 < n) (delete_entry key es)
unfolding delete_entry
delete_entry-mapped n key [] v = tt
delete_entry-mapped n key (e ∷ es) (ve, v) = elim (Bool-cases (equal e.0 key)) [
  | inl q ↦ rw q v
  | inr q ↦ rw q (ve, delete_entry-mapped n key es v)
]

-- What is found is allocated.
abbrev pub IsBelow : ℕ → Option ℕ → Type 0
IsBelow n none = Unit
IsBelow n (some i) = i < n

pub get_entry-IsBelow :
    (n : ℕ) (key : Bytes) (es : List (Bytes × ℕ))
    → All (λ e. e.1 < n) es
    → IsBelow n (get_entry key es)
unfolding get_entry
get_entry-IsBelow n key [] v = tt
get_entry-IsBelow n key (x ∷ es) (vx, v) = elim (Bool-cases (equal x.0 key)) [
  | inl q ↦ rw q vx
  | inr q ↦ rw q (get_entry-IsBelow n key es v)
]

-- A table with other heap and map.
pub IsPartitioned-heap :
    (t u : Table)
    → IsPartitioned t
    → u.fields ≡ t.fields
    → u.pks ≡ t.pks
    → u.data_fields ≡ t.data_fields
    → SamePks t.heap u.heap
    → All (λ e. e.1 < length u.heap) u.field_map
    → IsPartitioned u
IsPartitioned-heap t u h fields pks rest s m = record {
  primary =
      pks
      ∙ h.primary
      ∙ sym (select-same true t.heap u.heap t.fields s h.allocated)
      ∙ ap (select true u.heap) (sym fields);
  others =
      rest
      ∙ h.others
      ∙ sym (select-same false t.heap u.heap t.fields s h.allocated)
      ∙ ap (select false u.heap) (sym fields);
  allocated =
      subst (λ is. All (λ i. i < length u.heap) is) (sym fields)
        (valid-same (length t.heap) (length u.heap) t.fields s.longer h.allocated);
  mapped = m;
}

select-append :
    (b : Bool) (heap : List Field) (is : List ℕ) (i : ℕ)
    → select b heap (is ++ i ∷ [])
      ≡ (if wanted b (is_pk_at heap i) then select b heap is ++ i ∷ [] else select b heap is)
unfolding select
select-append b heap [] i = refl
select-append b heap (j ∷ is) i = elim (Bool-cases (wanted b (is_pk_at heap i))) [
  | inl w ↦ elim (Bool-cases (wanted b (is_pk_at heap j))) [
    | inl v ↦ rw (v, w) (ap (λ js. j ∷ js) (select-append b heap is i ∙ rw w refl))
    | inr v ↦ rw (v, w) (select-append b heap is i ∙ rw w refl)
  ]
  | inr w ↦ elim (Bool-cases (wanted b (is_pk_at heap j))) [
    | inl v ↦ rw (v, w) (ap (λ js. j ∷ js) (select-append b heap is i ∙ rw w refl))
    | inr v ↦ rw (v, w) (select-append b heap is i ∙ rw w refl)
  ]
]

select-remove :
    (b : Bool) (heap : List Field) (is : List ℕ) (i : ℕ)
    → select b heap (remove_field is i)
      ≡ (if wanted b (is_pk_at heap i) then remove_field (select b heap is) i else select b heap is)
unfolding select remove_field
select-remove b heap [] i = elim (Bool-cases (wanted b (is_pk_at heap i))) [
  | inl w ↦ rw w refl
  | inr w ↦ rw w refl
]
select-remove b heap (j ∷ is) i = elim (Bool-cases (j == i)) [
  | inl q ↦
      let e = ap (λ k. wanted b (is_pk_at heap k)) ((==_iff j i).0 q) in
      elim (Bool-cases (wanted b (is_pk_at heap i))) [
        | inl w ↦ rw (q, e ∙ w, w) (rw q refl)
        | inr w ↦ rw (q, e ∙ w, w) refl
      ]
  | inr q ↦
      let more = select-remove b heap is i in
      elim (Bool-cases (wanted b (is_pk_at heap i))) [
        | inl w ↦ elim (Bool-cases (wanted b (is_pk_at heap j))) [
          | inl v ↦ rw (q, v, w) (rw q (ap (λ js. j ∷ js) (more ∙ rw w refl)))
          | inr v ↦ rw (q, v, w) (more ∙ rw w refl)
        ]
        | inr w ↦ elim (Bool-cases (wanted b (is_pk_at heap j))) [
          | inl v ↦ rw (q, v, w) (ap (λ js. j ∷ js) (more ∙ rw w refl))
          | inr v ↦ rw (q, v, w) (more ∙ rw w refl)
        ]
      ]
]

valid-append :
    (n i : ℕ) (is : List ℕ) → All (λ j. j < n) is → i < n → All (λ j. j < n) (is ++ i ∷ [])
valid-append n i [] v l = (l, tt)
valid-append n i (j ∷ is) (vj, v) l = (vj, valid-append n i is v l)

valid-remove : (n i : ℕ) (is : List ℕ) → All (λ j. j < n) is → All (λ j. j < n) (remove_field is i)
unfolding remove_field
valid-remove n i [] v = tt
valid-remove n i (j ∷ is) (vj, v) = elim (Bool-cases (j == i)) [
  | inl q ↦ rw q v
  | inr q ↦ rw q (vj, valid-remove n i is v)
]

pub add_field-IsPartitioned :
    (i : ℕ) (t : Table) → IsPartitioned t → i < length t.heap → IsPartitioned (add_field i t)
unfolding add_field select wanted
add_field-IsPartitioned i t h l = record {
  primary = elim (Bool-cases (is_pk_at t.heap i)) [
    | inl e ↦
        rw e (
          ap (λ is. is ++ i ∷ []) h.primary
          ∙ sym (select-append true t.heap t.fields i ∙ rw e refl))
    | inr e ↦ rw e (h.primary ∙ sym (select-append true t.heap t.fields i ∙ rw e refl))
  ];
  others = elim (Bool-cases (is_pk_at t.heap i)) [
    | inl e ↦ rw e (h.others ∙ sym (select-append false t.heap t.fields i ∙ rw e refl))
    | inr e ↦
        rw e (
          ap (λ is. is ++ i ∷ []) h.others
          ∙ sym (select-append false t.heap t.fields i ∙ rw e refl))
  ];
  allocated = valid-append (length t.heap) i t.fields h.allocated l;
  mapped = put_entry-mapped (length t.heap) i (name_at t.heap i) t.field_map l h.mapped;
}

pub drop_field-IsPartitioned :
    (i : ℕ) (t : Table) → IsPartitioned t → IsPartitioned (drop_field i t)
unfolding drop_field select wanted
drop_field-IsPartitioned i t h = record {
  primary = elim (Bool-cases (is_pk_at t.heap i)) [
    | inl e ↦ rw e (
        ap (λ is. remove_field is i) h.primary
        ∙ sym (select-remove true t.heap t.fields i ∙ rw e refl))
    | inr e ↦ rw e (h.primary ∙ sym (select-remove true t.heap t.fields i ∙ rw e refl))
  ];
  others = elim (Bool-cases (is_pk_at t.heap i)) [
    | inl e ↦ rw e (h.others ∙ sym (select-remove false t.heap t.fields i ∙ rw e refl))
    | inr e ↦ rw e (
        ap (λ is. remove_field is i) h.others
        ∙ sym (select-remove false t.heap t.fields i ∙ rw e refl))
  ];
  allocated = valid-remove (length t.heap) i t.fields h.allocated;
  mapped = delete_entry-mapped (length t.heap) (name_at t.heap i) t.field_map h.mapped;
}

is_pk_at-append :
    (heap : List Field) (f : Field) (i : ℕ)
    → i < length heap
    → is_pk_at (heap ++ f ∷ []) i ≡ is_pk_at heap i
unfolding is_pk_at deref
is_pk_at-append [] f i l = absurd (omega arith)
is_pk_at-append (g ∷ heap) f zero l = refl
is_pk_at-append (g ∷ heap) f (suc i) l = is_pk_at-append heap f i (omega arith)

-- A change of a field that leaves its mark.
pub is_pk_at-update :
    (g : Field → Field) (heap : List Field) (i j : ℕ)
    → ((f : Field) → (g f).is_pk ≡ f.is_pk)
    → is_pk_at (update_at g heap i) j ≡ is_pk_at heap j
unfolding is_pk_at deref update_at
is_pk_at-update g [] i j h = refl
is_pk_at-update g (f ∷ heap) zero zero h = h f
is_pk_at-update g (f ∷ heap) zero (suc j) h = refl
is_pk_at-update g (f ∷ heap) (suc i) zero h = refl
is_pk_at-update g (f ∷ heap) (suc i) (suc j) h = is_pk_at-update g heap i j h

pub update_at-length :
    (g : Field → Field) (heap : List Field) (i : ℕ) → length (update_at g heap i) ≡ length heap
unfolding update_at
update_at-length g [] i = refl
update_at-length g (f ∷ heap) zero = refl
update_at-length g (f ∷ heap) (suc i) = ap suc (update_at-length g heap i)

-- The map with the entry of the option alt.
alt-mapped :
    (n i : ℕ) (o : Option Bytes) (es : List (Bytes × ℕ))
    → i < n
    → All (λ e. e.1 < n) es
    → All
        (λ e. e.1 < n)
        (elim o as (λ _. List (Bytes × ℕ)) [ some v ↦ put_entry v i es | none ↦ es ])
alt-mapped n i none es l v = v
alt-mapped n i (some key) es l v = put_entry-mapped n i key es l v

allocate-IsPartitioned :
    (tag : Tag) (f : Field) (t : Table) → IsPartitioned t → IsPartitioned (allocate tag f t)
unfolding allocate
allocate-IsPartitioned tag f t h =
    let long = length-append t.heap (f ∷ []) in
    IsPartitioned-heap t (allocate tag f t) h refl refl refl
      (record { longer = omega (arith, long); same = λ i l. is_pk_at-append t.heap f i l })
      (alt-mapped (length (t.heap ++ f ∷ [])) (length t.heap) (tag_option (codes "alt") tag.options)
        t.field_map (omega (arith, long))
        (mapped-same (length t.heap) (length (t.heap ++ f ∷ [])) t.field_map (omega (arith, long))
          h.mapped))

-- What `newField` returns: the table, and a field that is allocated, if any.
pub record Made (r : Option ℕ × Table) : Type 0 where
  pub table : IsPartitioned r.1
  pub field : IsBelow (length r.1.heap) r.0

keep_or_skip-Made :
    (tag : Tag) (name : Bytes) (i : ℕ) (t : Table)
    → IsPartitioned t
    → i < length t.heap
    → Made (keep_or_skip tag name i t)
unfolding keep_or_skip
keep_or_skip-Made tag name i t h l = elim (Bool-cases (equal tag.name (codes "-"))) [
  | inl q ↦ rw q (record {
    table =
        IsPartitioned-heap t
          (record t {
            skipped_fields = t.skipped_fields ++ i ∷ [];
            field_map = put_entry name i t.field_map;
          })
          h refl refl refl (record { longer = omega arith; same = λ j k. refl })
          (put_entry-mapped (length t.heap) i name t.field_map l h.mapped);
    field = tt;
  })
  | inr q ↦ elim (Bool-cases (has_option (codes "soft_delete") tag)) [
    | inl s ↦
        let g = λ (f : Field). record f { null_zero = true } in
        let long = update_at-length g t.heap i in
        rw (q, s)
          (record {
            table =
                IsPartitioned-heap t
                  (record t { heap = update_at g t.heap i; soft_delete_field = some i }) h refl refl
                  refl
                  (record {
                    longer = omega (arith, long);
                    same = λ j k. is_pk_at-update g t.heap i j (λ f. refl);
                  })
                  (mapped-same (length t.heap) (length (update_at g t.heap i)) t.field_map
                    (omega (arith, long)) h.mapped);
            field = omega (arith, long, l);
          })
    | inr s ↦ rw (q, s) (record { table = h; field = l })
  ]
]

pub allocate_field-Made :
    (f : StructField) (tag : Tag) (index : List ℕ) (name : Bytes) (t : Table)
    → IsPartitioned t
    → Made (allocate_field f tag index name t)
unfolding allocate_field allocate
allocate_field-Made f tag index name t h =
    keep_or_skip-Made tag name (length t.heap) (allocate tag (make_field f tag index name t) t)
      (allocate-IsPartitioned tag (make_field f tag index name t) t h)
      (omega (arith, length-append t.heap (make_field f tag index name t ∷ [])))
