-- ===== src/Schema/Table/Inlines.antt =====
-- The columns of nested structs and the loop over the fields: inlineFields, initInlines,
-- initRelations and init2 of schema/table.go. `types` is fuel for the nesting of structs: each
-- nested call adds another struct type to the path.
use uptrace_bun.Prelude.{
  ℕ, zero, suc, Bool, true, false, not, ◌&&◌, ◌||◌, List, [], ◌∷◌, ◌++◌, Option, none, some, Bytes,
  codes, ◌==◌, if◌then◌else◌, length, get_elem?, Result, ok, ◌>>=◌,
}
use uptrace_bun.Schema.Table.{
  Kind, integer, structure, slice, other_kind, Field, Table, get_entry, put_entry, deref,
  quote_ident, remove_field,
}
use uptrace_bun.Schema.Table.Joins.{Panic}
use uptrace_bun.Schema.Table.Relations.{try_relation}

-- Whether the type is on the path.
unfoldable pub on_path : ℕ → List ℕ → Bool
on_path type [] = false
on_path type (x ∷ path) = x == type || on_path type path

-- `f.Clone()` with the names and the index behind those of the outer field.
unfoldable pub inlined : Table → Field → Field → Field
unfolding quote_ident
inlined t outer f = record f {
  go_name = (outer.go_name ++ b'_' ∷ []) ++ f.go_name;
  name = (outer.name ++ codes "__") ++ f.name;
  sql_name = quote_ident t ((outer.name ++ codes "__") ++ f.name);
  index = outer.index ++ f.index;
}

-- The clone is allocated, and has an entry unless there is one of its name.
unfoldable pub add_inlined : Field → Table → Table
unfolding get_entry put_entry
add_inlined f t = record t {
  heap = t.heap ++ f ∷ [];
  field_map = elim (get_entry f.name t.field_map) as (λ _. List (Bytes × ℕ)) [
    | some _ ↦ t.field_map
    | none ↦ put_entry f.name (length t.heap) t.field_map
  ];
}

unfoldable pub has_struct_kind : Kind → Bool
has_struct_kind integer = false
has_struct_kind structure = true
has_struct_kind slice = false
has_struct_kind other_kind = false

-- The rest of the round behind the entry.
unfoldable pub go_inside :
    (List ℕ → Field → Table → List ℕ × Table) → Field → List ℕ → Table → List ℕ × Table
unfolding has_struct_kind on_path
go_inside self f path t =
    if has_struct_kind f.kind && not (on_path f.type_id path) then self path f t else (path, t)

-- The loop over the fields of the joined table; `self` is `inlineFields`.
unfoldable pub inline_each :
    (List ℕ → Field → Table → List ℕ × Table) → Field → List Field → List ℕ × Table → List ℕ × Table
unfolding inlined add_inlined go_inside
inline_each self outer [] s = s
inline_each self outer (f ∷ fs) (path, t) =
    let clone = inlined t outer f in
    inline_each self outer fs (go_inside self clone path (add_inlined clone t))

-- The fields at the positions.
unfoldable pub derefs : List Field → List ℕ → List Field
unfolding deref
derefs heap [] = []
derefs heap (i ∷ is) =
    let rest = derefs heap is in elim (deref heap i) [ some f ↦ f ∷ rest | none ↦ rest ]

module _ (ref : ℕ → Table) where
  -- `inlineFields` with the path, which the calls share.
  unfoldable pub inline_fields : ℕ → List ℕ → Field → Table → List ℕ × Table
  unfolding on_path inline_each derefs
  inline_fields zero path field t = (path, t)
  inline_fields (suc types) path field t =
      let visited =
        inline_each (λ p f t'. inline_fields types p f t') field
          (derefs (ref field.type_id).heap (ref field.type_id).all_fields)
          (field.type_id ∷ path, t) in
      if on_path field.type_id path then (path, t) else visited

  -- A call with a nil path.
  unfoldable pub inline_struct : ℕ → Field → Table → Table
  unfolding inline_fields has_struct_kind
  inline_struct types f t =
      if has_struct_kind f.kind then (inline_fields types (t.type_id ∷ []) f t).1 else t

  unfoldable pub inline_skipped : ℕ → List ℕ → Table → Table
  unfolding inline_struct deref
  inline_skipped types [] t = t
  inline_skipped types (i ∷ is) t =
      inline_skipped types is
        (elim (deref t.heap i) as (λ _. Table) [ some f ↦ inline_struct types f t | none ↦ t ])

  unfoldable pub init_inlines : ℕ → Table → Table
  unfolding inline_skipped
  init_inlines types t = inline_skipped types t.skipped_fields t

  module _ (by_name : Bytes → Option Table) where
    -- What a round leaves of the lists if the field is a relation.
    unfoldable pub end_round : ℕ → ℕ → Field → Bool × Table → Bool × Table
    unfolding inline_struct remove_field
    end_round types i f (true, t) = (
      true,
      inline_struct types f (record t {
        fields = remove_field t.fields i;
        data_fields = remove_field t.data_fields i;
      }),
    )
    end_round types i f (false, t) = (false, inline_struct types f t)

    -- One round of the loop of `initRelations`: whether the field at hand was a relation.
    unfoldable pub relation_round : ℕ → ℕ → Option Field → Table → Result Panic (Bool × Table)
    unfolding try_relation end_round
    relation_round types i none t = ok (false, t)
    relation_round types i (some f) t =
        try_relation ref by_name t i f >>= λ r. ok (end_round types i f r)

    -- A round of the loop at the position `at` with the field there, if there is one; a field is
    -- dropped or passed over.
    unfoldable pub relations_at :
        (ℕ → Table → Result Panic Table) → ℕ → ℕ → Option ℕ → Table → Result Panic Table
    unfolding relation_round deref
    relations_at again types at none t = ok t
    relations_at again types at (some i) t =
        relation_round types i (deref t.heap i) t >>= λ r. again (if r.0 then at else suc at) r.1

    unfoldable pub relations_loop : ℕ → ℕ → ℕ → Table → Result Panic Table
    unfolding relations_at
    relations_loop types zero at t = ok t
    relations_loop types (suc fuel) at t =
        relations_at (λ at' t'. relations_loop types fuel at' t') types at (get_elem? t.fields at) t

    -- `initRelations`
    unfoldable pub init_relations : ℕ → Table → Result Panic Table
    unfolding relations_loop
    init_relations types t = relations_loop types (length t.fields) 0 t

    -- `init2`
    unfoldable pub init2 : ℕ → Table → Result Panic Table
    unfolding init_inlines init_relations
    init2 types t =
        init_relations types (init_inlines types t) >>= λ t'. ok (record t' { skipped_fields = [] })
