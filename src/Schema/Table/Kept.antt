-- ===== src/Schema/Table/Kept.antt =====
-- What `initRelations` of schema/table.go leaves of a table.
use uptrace_bun.Prelude.{
  ℕ, zero, suc, ◌≤◌, ◌<◌, ◌≡◌, refl, sym, ap, ◌∙◌, subst, arith, Bool, true, false, not, ◌&&◌, List,
  [], ◌∷◌, ◌++◌, Option, none, some, Bytes, ◌==◌, ==_iff, ==_refl, if◌then◌else◌, length,
  length-append, get_elem?, All-append, All, Bool-cases, inl, inr, append_assoc,
}
use uptrace_bun.Schema.Table.{Field, Table, deref, remove_field}
use uptrace_bun.Schema.Table.Inlines.{
  on_path, inlined, add_inlined, has_struct_kind, go_inside, inline_each, derefs, inline_fields,
  inline_struct, inline_skipped, init_inlines, end_round, relation_round, relations_at,
  relations_loop, init_relations, init2,
}
use uptrace_bun.Schema.Table.Keys.{Ensures, returns, Ensures-bind, IsMatched}
use uptrace_bun.Schema.Table.Tried.{AreMatched, is_relation, Tried, try_relation-Tried}

deref-append :
    (h : List Field) (f : Field) (i : ℕ) → i < length h → deref (h ++ f ∷ []) i ≡ deref h i
unfolding deref
deref-append [] f i p = absurd (omega arith)
deref-append (g ∷ h) f zero p = refl
deref-append (g ∷ h) f (suc i) p = deref-append h f i (omega arith)

-- What inlining keeps of a table: no field of the first heap is another in the second.
record Keeps (t u : Table) : Type 0 where
  relations : u.relations ≡ t.relations
  fields : u.fields ≡ t.fields
  pks : u.pks ≡ t.pks
  longer : length t.heap ≤ length u.heap
  same : (i : ℕ) → i < length t.heap → deref u.heap i ≡ deref t.heap i

Keeps-refl : (t : Table) → Keeps t t
Keeps-refl t = record {
  relations = refl;
  fields = refl;
  pks = refl;
  longer = omega arith;
  same = λ i p. refl;
}

Keeps-trans : {t u v : Table} → Keeps t u → Keeps u v → Keeps t v
Keeps-trans {t} {u} {v} h k = record {
  relations = k.relations ∙ h.relations;
  fields = k.fields ∙ h.fields;
  pks = k.pks ∙ h.pks;
  longer = omega (arith, h.longer, k.longer);
  same = λ i p. k.same i (omega (arith, p, h.longer)) ∙ h.same i p;
}

add_inlined-Keeps : (f : Field) (t : Table) → Keeps t (add_inlined f t)
unfolding add_inlined
add_inlined-Keeps f t = record {
  relations = refl;
  fields = refl;
  pks = refl;
  longer = omega (arith, length-append t.heap (f ∷ []));
  same = λ i p. deref-append t.heap f i p;
}

go_inside-Keeps :
    (self : List ℕ → Field → Table → List ℕ × Table) (f : Field) (path : List ℕ) (t : Table)
    → Keeps t (self path f t).1
    → Keeps t (go_inside self f path t).1
unfolding go_inside
go_inside-Keeps self f path t h =
    elim (Bool-cases (has_struct_kind f.kind && not (on_path f.type_id path))) [
      | inl e ↦ rw e h
      | inr e ↦ rw e (Keeps-refl t)
    ]

inline_each-Keeps :
    (self : List ℕ → Field → Table → List ℕ × Table)
    → ((path : List ℕ) (f : Field) (t : Table) → Keeps t (self path f t).1)
    → (outer : Field) (fs : List Field) (path : List ℕ) (t : Table)
    → Keeps t (inline_each self outer fs (path, t)).1
unfolding inline_each
inline_each-Keeps self h outer [] path t = Keeps-refl t
inline_each-Keeps self h outer (f ∷ fs) path t =
    let clone = inlined t outer f in
    let step = go_inside self clone path (add_inlined clone t) in
    Keeps-trans (add_inlined-Keeps clone t) (
      Keeps-trans
        (go_inside-Keeps self clone path (add_inlined clone t) (h path clone (add_inlined clone t)))
        (inline_each-Keeps self h outer fs step.0 step.1))

inline_fields-Keeps :
    (ref : ℕ → Table) (types : ℕ) (path : List ℕ) (f : Field) (t : Table)
    → Keeps t (inline_fields ref types path f t).1
unfolding inline_fields
inline_fields-Keeps ref zero path f t = Keeps-refl t
inline_fields-Keeps ref (suc types) path f t = elim (Bool-cases (on_path f.type_id path)) [
  | inl e ↦ rw e (Keeps-refl t)
  | inr e ↦ rw e (
      inline_each-Keeps (λ p g t'. inline_fields ref types p g t')
        (λ p g t'. inline_fields-Keeps ref types p g t') f
        (derefs (ref f.type_id).heap (ref f.type_id).all_fields) (f.type_id ∷ path) t)
]

inline_struct-Keeps :
    (ref : ℕ → Table) (types : ℕ) (f : Field) (t : Table) → Keeps t (inline_struct ref types f t)
unfolding inline_struct
inline_struct-Keeps ref types f t = elim (Bool-cases (has_struct_kind f.kind)) [
  | inl e ↦ rw e (inline_fields-Keeps ref types (t.type_id ∷ []) f t)
  | inr e ↦ rw e (Keeps-refl t)
]

unfoldable pub is_relation_at : List Field → ℕ → Bool
unfolding deref is_relation
is_relation_at heap i = elim (deref heap i) [ some f ↦ is_relation f | none ↦ false ]

-- The fields without the relations.
unfoldable pub no_relations : List Field → List ℕ → List ℕ
unfolding is_relation_at
no_relations heap [] = []
no_relations heap (i ∷ is) =
    let rest = no_relations heap is in if is_relation_at heap i then rest else i ∷ rest

-- A round keeps the relations matched and takes the field away if it is a relation.
record Round (t : Table) (i : ℕ) (r : Bool × Table) : Type 0 where
  flag : r.0 ≡ is_relation_at t.heap i
  matched : AreMatched r.1
  pks : r.1.pks ≡ t.pks
  fields : r.1.fields ≡ (if is_relation_at t.heap i then remove_field t.fields i else t.fields)
  longer : length t.heap ≤ length r.1.heap
  same : (j : ℕ) → j < length t.heap → deref r.1.heap j ≡ deref t.heap j

-- Inlining behind a change of the lists.
Round-of :
    (t u v : Table) (i : ℕ) (b : Bool)
    → is_relation_at t.heap i ≡ b
    → AreMatched u
    → u.pks ≡ t.pks
    → u.heap ≡ t.heap
    → u.fields ≡ (if b then remove_field t.fields i else t.fields)
    → Keeps u v
    → Round t i (b, v)
Round-of t u v i b e matched pks heap fields k = record {
  flag = sym e;
  matched = subst (λ rs. All (λ r. IsMatched r.1) rs) (sym k.relations) matched;
  pks = k.pks ∙ pks;
  fields = rw e (k.fields ∙ fields);
  longer = subst (λ h. length h ≤ length v.heap) heap k.longer;
  same = subst (λ h. (j : ℕ) → j < length h → deref v.heap j ≡ deref h j) heap k.same;
}

module _ (ref : ℕ → Table) (by_name : Bytes → Option Table) (types : ℕ) where
  end_round-Round :
      (t : Table) (i : ℕ) (f : Field) (r : Bool × Table)
      → is_relation_at t.heap i ≡ is_relation f
      → Tried t (is_relation f) r
      → Round t i (end_round ref by_name types i f r)
  unfolding end_round
  end_round-Round t i f (true, u) at tried =
      let u' : Table = record u {
        fields = remove_field u.fields i;
        data_fields = remove_field u.data_fields i;
      } in
      Round-of t u' (inline_struct ref types f u') i true (at ∙ sym tried.flag) tried.leaves.matched
        tried.leaves.pks tried.leaves.heap (ap (λ is. remove_field is i) tried.leaves.fields)
        (inline_struct-Keeps ref types f u')
  end_round-Round t i f (false, u) at tried =
      Round-of t u (inline_struct ref types f u) i false (at ∙ sym tried.flag) tried.leaves.matched
        tried.leaves.pks tried.leaves.heap tried.leaves.fields (inline_struct-Keeps ref types f u)

  relation_round-Round :
      (t : Table) (i : ℕ) (o : Option Field)
      → deref t.heap i ≡ o
      → AreMatched t
      → Ensures (λ r. Round t i r) (relation_round ref by_name types i o t)
  unfolding relation_round is_relation_at
  relation_round-Round t i none at h = returns (
      Round-of t t t i false
        (ap (λ o. elim o as (λ _. Bool) [ some f ↦ is_relation f | none ↦ false ]) at) h refl refl
        refl (Keeps-refl t))
  relation_round-Round t i (some f) at h =
      Ensures-bind (try_relation-Tried ref by_name t i f h) (λ r tried. returns (
        end_round-Round t i f r
          (ap (λ o. elim o as (λ _. Bool) [ some f ↦ is_relation f | none ↦ false ]) at) tried))

-- The fields in front are no relations.
abbrev ArePlain : List Field → List ℕ → Type 0
ArePlain heap is = All (λ i. is_relation_at heap i ≡ false) is

remove_field-behind :
    (heap : List Field) (before after : List ℕ) (i : ℕ)
    → ArePlain heap before
    → is_relation_at heap i ≡ true
    → remove_field (before ++ i ∷ after) i ≡ before ++ after
unfolding remove_field
remove_field-behind heap [] after i h e = rw (==_refl i) refl
remove_field-behind heap (j ∷ before) after i (hj, h) e = elim (Bool-cases (j == i)) [
  | inl q ↦
      (let clash : true ≡ false =
          sym e ∙ ap (λ k. is_relation_at heap k) (sym ((==_iff j i).0 q)) ∙ hj in
        cc)
  | inr q ↦ rw q (ap (λ is. j ∷ is) (remove_field-behind heap before after i h e))
]

get_elem?-behind :
    (before after : List ℕ) (i : ℕ) → get_elem? (before ++ i ∷ after) (length before) ≡ some i
get_elem?-behind [] after i = refl
get_elem?-behind (j ∷ before) after i = get_elem?-behind before after i

get_elem?-end : (is : List ℕ) → get_elem? (is ++ []) (length is) ≡ none
get_elem?-end [] = refl
get_elem?-end (j ∷ is) = get_elem?-end is

-- The later heap has the fields of the first one.
record Follows (heap : List Field) (t : Table) : Type 0 where
  longer : length heap ≤ length t.heap
  same : (j : ℕ) → j < length heap → deref t.heap j ≡ deref heap j

-- What the loop leaves, for the first heap and the fields that it has to keep.
pub record FieldsLeft (pks : List ℕ) (kept : List ℕ) (u : Table) : Type 0 where
  pub matched : AreMatched u
  pub pks_kept : u.pks ≡ pks
  pub fields_kept : u.fields ≡ kept

Follows-Round :
    (heap : List Field) (t : Table) (i : ℕ) (r : Bool × Table)
    → Follows heap t
    → Round t i r
    → Follows heap r.1
Follows-Round heap t i r fo round = record {
  longer = omega (arith, fo.longer, round.longer);
  same = λ j l. round.same j (omega (arith, l, fo.longer)) ∙ fo.same j l;
}

-- The field at hand is a relation of the first heap if it is one of the later heap.
Round-flag :
    (heap : List Field) (t : Table) (i : ℕ) (r : Bool × Table) (b : Bool)
    → Follows heap t
    → i < length heap
    → Round t i r
    → is_relation_at heap i ≡ b
    → (r.0 ≡ b) × (is_relation_at t.heap i ≡ b)
unfolding is_relation_at
Round-flag heap t i r b fo v round e =
    let at =
      ap (λ o. elim o as (λ _. Bool) [ some f ↦ is_relation f | none ↦ false ]) (fo.same i v) ∙ e in
    (round.flag ∙ at, at)

module _ (ref : ℕ → Table) (by_name : Bytes → Option Table) (types : ℕ) (heap : List Field) where
  -- What the loop leaves from a position.
  abbrev Left : ℕ → Table → ℕ → List ℕ → List ℕ → Type 0
  Left fuel t at pks kept =
      Ensures (λ u. FieldsLeft pks kept u) (relations_loop ref by_name types fuel at t)

  Left-subst :
      (fuel : ℕ) (t : Table) {at at' : ℕ} {pks pks' kept kept' : List ℕ}
      → at ≡ at'
      → pks ≡ pks'
      → kept ≡ kept'
      → Left fuel t at pks kept
      → Left fuel t at' pks' kept'
  Left-subst fuel t {at} {at'} {pks} {pks'} {kept} {kept'} p q e left =
      subst (λ n. Left fuel t n pks' kept') p
        (subst (λ ps. Left fuel t at ps kept') q (subst (λ ks. Left fuel t at pks ks) e left))

  relations_loop-FieldsLeft :
      (fuel : ℕ) (before after : List ℕ) (t : Table)
      → AreMatched t
      → Follows heap t
      → t.fields ≡ before ++ after
      → length after ≤ fuel
      → All (λ i. i < length heap) after
      → ArePlain heap before
      → Ensures
          (λ u. FieldsLeft t.pks (before ++ no_relations heap after) u)
          (relations_loop ref by_name types fuel (length before) t)
  unfolding relations_loop no_relations
  relations_loop-FieldsLeft zero before [] t m fo e l v p =
      returns (record { matched = m; pks_kept = refl; fields_kept = e })
  relations_loop-FieldsLeft zero before (i ∷ after) t m fo e l v p = absurd (omega (arith, l))
  relations_loop-FieldsLeft (suc fuel) before [] t m fo e l v p =
      let at = ap (λ is. get_elem? is (length before)) e ∙ get_elem?-end before in
      subst
        (λ o.
          Ensures (λ u. FieldsLeft t.pks (before ++ []) u)
            (relations_at ref by_name (λ at' t'. relations_loop ref by_name types fuel at' t') types
              (length before) o t))
        (sym at) (returns (record { matched = m; pks_kept = refl; fields_kept = e }))
  relations_loop-FieldsLeft (suc fuel) before (i ∷ after) t m fo e l (vi, v) p =
      let at = ap (λ is. get_elem? is (length before)) e ∙ get_elem?-behind before after i in
      subst
        (λ o.
          Ensures (λ u. FieldsLeft t.pks (before ++ no_relations heap (i ∷ after)) u)
            (relations_at ref by_name (λ at' t'. relations_loop ref by_name types fuel at' t') types
              (length before) o t))
        (sym at)
        (Ensures-bind (relation_round-Round ref by_name types t i (deref t.heap i) refl m)
          (λ r round. elim (Bool-cases (is_relation_at heap i)) [
            | inl q ↦
                let (flag, rel) = Round-flag heap t i r true fo vi round q in
                rw (flag, q)
                  (Left-subst fuel r.1 refl round.pks refl (
                    relations_loop-FieldsLeft fuel before after r.1 round.matched
                      (Follows-Round heap t i r fo round)
                      (round.fields
                        ∙ rw rel (
                            ap (λ is. remove_field is i) e
                            ∙ remove_field-behind heap before after i p q))
                      (omega (arith, l)) v p))
            | inr q ↦
                let (flag, rel) = Round-flag heap t i r false fo vi round q in
                rw (flag, q)
                  (Left-subst fuel r.1 (omega (arith, length-append before (i ∷ []))) round.pks
                    (append_assoc before (i ∷ []) (no_relations heap after))
                    (relations_loop-FieldsLeft fuel (before ++ i ∷ []) after r.1 round.matched
                      (Follows-Round heap t i r fo round)
                      (round.fields ∙ rw rel (e ∙ sym (append_assoc before (i ∷ []) after)))
                      (omega (arith, l)) v
                      (All-append (λ j. is_relation_at heap j ≡ false) before (i ∷ []) p (q, tt))))
          ]))

inline_at-Keeps :
    (ref : ℕ → Table) (types : ℕ) (o : Option Field) (t : Table)
    → Keeps t (elim o as (λ _. Table) [ some f ↦ inline_struct ref types f t | none ↦ t ])
inline_at-Keeps ref types none t = Keeps-refl t
inline_at-Keeps ref types (some f) t = inline_struct-Keeps ref types f t

inline_skipped-Keeps :
    (ref : ℕ → Table) (types : ℕ) (is : List ℕ) (t : Table)
    → Keeps t (inline_skipped ref types is t)
unfolding inline_skipped
inline_skipped-Keeps ref types [] t = Keeps-refl t
inline_skipped-Keeps ref types (i ∷ is) t =
    Keeps-trans (inline_at-Keeps ref types (deref t.heap i) t) (inline_skipped-Keeps ref types is _)

-- `init2` of a table whose relations are matched and whose fields are allocated either panics, but not
-- for an index out of range, or leaves a table in which every relation is matched, with the same
-- primary keys, and with the fields that are no relations by their tags, in their order.
pub init2-FieldsLeft :
    (ref : ℕ → Table) (by_name : Bytes → Option Table) (types : ℕ) (t : Table)
    → AreMatched t
    → All (λ i. i < length t.heap) t.fields
    → Ensures (λ u. FieldsLeft t.pks (no_relations t.heap t.fields) u) (init2 ref by_name types t)
unfolding init2 init_inlines init_relations
init2-FieldsLeft ref by_name types t m v =
    let inlined_table = inline_skipped ref types t.skipped_fields t in
    let k = inline_skipped-Keeps ref types t.skipped_fields t in
    Ensures-bind
      (Left-subst ref by_name types t.heap (length inlined_table.fields) inlined_table refl k.pks
        refl
        (relations_loop-FieldsLeft ref by_name types t.heap (length inlined_table.fields) []
          t.fields inlined_table (subst (λ rs. All (λ r. IsMatched r.1) rs) (sym k.relations) m)
          (record { longer = k.longer; same = k.same }) k.fields (omega (arith, ap length k.fields))
          v tt))
      (λ u h.
        returns
          (record { matched = h.matched; pks_kept = h.pks_kept; fields_kept = h.fields_kept }))
