-- ===== src/Query/Insert/Returned.antt =====
-- The fields that rendering an INSERT adds to RETURNING: query_insert.go and query_base.go.
use uptrace_bun.Prelude.{
  ℕ, Bool, true, false, ◌&&◌, ◌||◌, List, [], ◌∷◌, ◌++◌, Option, none, some, Bytes, codes,
  if◌then◌else◌, equal, ◌==◌, subst, Result, ok, err, ltb, length, ◌>>=◌, ◌≡◌, refl, ap, ◌∙◌, arith,
}
use uptrace_bun.Schema.Dialects.{Name, has_feature, default_placeholder}
use uptrace_bun.Schema.Formatter.{Formatter, is_nop}
use uptrace_bun.Schema.Sqlfmt.{QueryWithArgs}
use uptrace_bun.Query.State.{
  columns_of, Error, Table, Field, Struct, Model, struct_model, slice_model, map_model,
  map_slice_model, other_model, Returning,
}
use uptrace_bun.Query.Tables.{append_with, append_first_table, has_multi_tables}
use uptrace_bun.Query.Insert.{
  get_fields, append_on, InsertQuery, has_field, add_field_without, add_returning_field,
  append_insert_value, append_value_or, is_left, append_insert_values, append_struct_values,
  append_slice_rest, append_slice_rows, append_slice_values, inserted_fields, get_insert_fields,
  sample_of, append_model_values, append_rows, append_insert_model, append_columns_values,
  append_insert, append_insert_text, no_struct,
}

-- What `add_returning_field` keeps, every part of rendering keeps.
module _ (P : Returning → Type 0)
    (add : (r : Returning) (field : Field) → P r → P (add_returning_field r field)) (f : Formatter)
    (db : Name) (q : InsertQuery) where
  -- `P` holds of the state of RETURNING, if there is a result.
  abbrev After : {A : Type 0} → Result Error (A × Returning) → Type 0
  After (ok (_, r)) = P r
  After (err _) = Unit

  kept_if : {A : Type 0} (c : Bool) (x y : A × Returning) → P x.1 → P y.1 → P (if c then x else y).1
  kept_if true x y hx hy = hx
  kept_if false x y hx hy = hy

  value_or_keeps :
      (strct : Struct) (out : Bytes × Returning) (field : Field) (o : Option QueryWithArgs)
      → P out.1
      → P (append_value_or f db strct out field o).1
  unfolding append_value_or
  value_or_keeps strct (b, r) field (some app) h = add r field h
  value_or_keeps strct (b, r) field none h =
      kept_if (is_nop f) (_, r) _ h
        (kept_if (field.null_zero && strct.is_zero field.name) (_, add_returning_field r field)
          (_, r) (add r field h) h)

  value_keeps :
      (strct : Struct) (out : Bytes × Returning) (field : Field)
      → P out.1
      → P (append_insert_value f db q strct out field).1
  unfolding append_insert_value
  value_keeps strct out field h = value_or_keeps strct out field (q.model_values field.name) h

  values_keep :
      (strct : Struct) (out : Bytes × Returning) (fields : List Field)
      → P out.1
      → P (append_insert_values f db q strct out fields).1
  unfolding append_insert_values
  values_keep strct out [] h = h
  values_keep strct out (field ∷ []) h = value_keeps strct out field h
  values_keep strct out (field ∷ next ∷ rest) h =
      values_keep strct (_, (append_insert_value f db q strct out field).1) (next ∷ rest)
        (value_keeps strct out field h)

  struct_keeps :
      (fields : List Field) (strct : Struct) (out : Bytes × Returning)
      → P out.1
      → P (append_struct_values f db q fields strct out).1
  unfolding append_struct_values
  struct_keeps fields strct out h = values_keep strct out fields h

  rest_keeps :
      (fields : List Field) (slice : List Struct) (out : Bytes × Returning)
      → P out.1
      → P (append_slice_rest f db q fields slice out).1
  unfolding append_slice_rest
  rest_keeps fields [] out h = h
  rest_keeps fields (strct ∷ slice) (b, r) h =
      rest_keeps fields slice _ (struct_keeps fields strct (b ++ codes "), (", r) h)

  rows_keep :
      (fields : List Field) (slice : List Struct) (out : Bytes × Returning)
      → P out.1
      → P (append_slice_rows f db q fields slice out).1
  unfolding append_slice_rows
  rows_keep fields [] out h = h
  rows_keep fields (strct ∷ slice) out h =
      rest_keeps fields slice (append_struct_values f db q fields strct out)
        (struct_keeps fields strct out h)

  slice_keeps :
      (fields : List Field) (slice : List Struct) (out : Bytes × Returning)
      → P out.1
      → P (append_slice_values f db q fields slice out).1
  unfolding append_slice_values
  slice_keeps fields slice out h =
      kept_if (is_nop f) (append_struct_values f db q fields no_struct out)
        (_, (append_slice_rows f db q fields slice out).1) (struct_keeps fields no_struct out h)
        (rows_keep fields slice out h)

  model_keeps :
      (fields : List Field) (m : Model) (out : Bytes × Returning)
      → P out.1
      → After (append_model_values f db q fields m out)
  unfolding append_model_values
  model_keeps fields (struct_model (some strct)) out h = struct_keeps fields strct out h
  model_keeps fields (struct_model none) out h = tt
  model_keeps fields (slice_model slice) out h = slice_keeps fields slice out h
  model_keeps fields (map_model m) out h = tt
  model_keeps fields (map_slice_model m) out h = tt
  model_keeps fields other_model out h = tt

  inserted_keep :
      (strct : Struct) (r : Returning) (fields : List Field)
      → P r
      → P (inserted_fields strct r fields).1
  unfolding inserted_fields
  inserted_keep strct r [] h = h
  inserted_keep strct r (field ∷ fields) h =
      kept_if (is_left strct field) (inserted_fields strct (add_returning_field r field) fields)
        (field ∷ (inserted_fields strct r fields).0, (inserted_fields strct r fields).1)
        (inserted_keep strct (add_returning_field r field) fields (add r field h))
        (inserted_keep strct r fields h)

  -- A result, and what follows it.
  then_keeps :
      {A B : Type 0} (m : Result Error (A × Returning))
      (k : A × Returning → Result Error (B × Returning))
      → After m
      → ((out : A × Returning) → P out.1 → After (k out))
      → After (m >>= k)
  then_keeps (ok out) k h step = step out h
  then_keeps (err e) k h step = tt

  -- A step that leaves RETURNING alone, and what follows it.
  pure_keeps :
      {A B : Type 0} (m : Result Error A) (k : A → Result Error (B × Returning))
      → ((a : A) → After (k a))
      → After (m >>= k)
  pure_keeps (ok a) k step = step a
  pure_keeps (err e) k step = tt

  After-if :
      {A : Type 0} (c : Bool) (x y : Result Error (A × Returning))
      → After x
      → After y
      → After (if c then x else y)
  After-if true x y hx hy = hx
  After-if false x y hx hy = hy

  module _ (start : P q.returned) where
    fields_keep : (t : Table) (m : Model) → After (get_insert_fields db q t m)
    unfolding get_insert_fields
    fields_keep t m =
        After-if (has_feature db default_placeholder || ltb 0 (length (columns_of q.base.columns)))
          (get_fields q.base t >>= λ fields. ok (fields, q.returned))
          (sample_of m >>= λ strct. ok (inserted_fields strct q.returned t.fields))
          (pure_keeps (get_fields q.base t) _ (λ fields. start))
          (pure_keeps (sample_of m) _ (λ strct. inserted_keep strct q.returned t.fields start))

    table_keeps : (b : Bytes) (t : Table) (m : Model) → After (append_rows f db b q t m)
    unfolding append_rows
    table_keeps b t m = then_keeps (get_insert_fields db q t m) _ (fields_keep t m) (λ out h.
        then_keeps (append_model_values f db q out.0 m (_, out.1)) _
          (model_keeps out.0 m (_, out.1) h) (λ out' h'. h'))

    insert_model_keeps :
        (b : Bytes) (m : Option Model) (t : Option Table) → After (append_insert_model f db b q m t)
    unfolding append_insert_model
    insert_model_keeps b none t = tt
    insert_model_keeps b (some (map_model m)) t = start
    insert_model_keeps b (some (map_slice_model m)) t = tt
    insert_model_keeps b (some (struct_model s)) (some t) = table_keeps b t (struct_model s)
    insert_model_keeps b (some (slice_model s)) (some t) = table_keeps b t (slice_model s)
    insert_model_keeps b (some other_model) (some t) = table_keeps b t other_model
    insert_model_keeps b (some (struct_model s)) none = tt
    insert_model_keeps b (some (slice_model s)) none = tt
    insert_model_keeps b (some other_model) none = tt

    columns_values_keep : (b : Bytes) → After (append_columns_values f db b q)
    unfolding append_columns_values
    columns_values_keep b =
        After-if (has_multi_tables q.base) (ok (_, q.returned))
          (append_insert_model f db b q (q.base.model) (q.base.table)) start
          (insert_model_keeps b (q.base.model) (q.base.table))

    text_keeps : (b : Bytes) → After (append_insert_text f db b q)
    unfolding append_insert_text
    text_keeps b = pure_keeps (append_with f b q.base.with_queries) _ (λ b₁.
        pure_keeps (append_first_table f _ q.base _) _ (λ b₂.
          then_keeps (append_columns_values f db b₂ q) _ (columns_values_keep b₂)
            (λ out h. pure_keeps (append_on f out.0 q) _ (λ b₄. h))))

    checked_keeps :
        (b : Bytes) (o : Option Error) → q.base.error ≡ o → After (append_insert f db b q)
    unfolding append_insert
    checked_keeps b none e = rw (e, append_insert) (text_keeps b)
    checked_keeps b (some x) e = rw (e, append_insert) tt

    insert_keeps : (b : Bytes) → After (append_insert f db b q)
    insert_keeps b = checked_keeps b (q.base.error) refl

-- No field stands twice in the list.
abbrev pub IsDistinct : List Field → Type 0
IsDistinct [] = Unit
IsDistinct (field ∷ fields) = (has_field field.name fields ≡ false) × IsDistinct fields

==_comm : (x y : ℕ) → (x == y) ≡ (y == x)
==_comm x y = ground arith

equal_comm : (a b : Bytes) → equal a b ≡ equal b a
unfolding equal
equal_comm [] [] = refl
equal_comm [] (y ∷ b) = refl
equal_comm (x ∷ a) [] = refl
equal_comm (x ∷ a) (y ∷ b) = rw (==_comm x y, equal_comm a b)

or_false : (a b : Bool) → a ≡ false → b ≡ false → (a || b) ≡ false
or_false a b h k = rw (h, k)

or_parts : (a b : Bool) → (a || b) ≡ false → (a ≡ false) × (b ≡ false)
or_parts true b h = absurd (ground arith)
or_parts false b h = (refl, h)

has_field_last :
    (name : Bytes) (fields : List Field) (field : Field)
    → has_field name fields ≡ false
    → equal field.name name ≡ false
    → has_field name (fields ++ field ∷ []) ≡ false
unfolding has_field
has_field_last name [] field h k = or_false (equal field.name name) false k refl
has_field_last name (g ∷ gs) field h k =
    let (hg, hs) = or_parts (equal g.name name) (has_field name gs) h in
    or_false (equal g.name name) (has_field name (gs ++ field ∷ [])) hg
      (has_field_last name gs field hs k)

IsDistinct-last :
    (fields : List Field) (field : Field)
    → IsDistinct fields
    → has_field field.name fields ≡ false
    → IsDistinct (fields ++ field ∷ [])
unfolding has_field
IsDistinct-last [] field h k = (refl, tt)
IsDistinct-last (g ∷ gs) field (hg, h) k =
    let (kg, ks) = or_parts (equal g.name field.name) (has_field field.name gs) k in
    (
      has_field_last g.name gs field hg (equal_comm field.name g.name ∙ kg),
      IsDistinct-last gs field h ks,
    )

IsDistinct-if :
    (r : Returning) (field : Field) (c : Bool)
    → has_field field.name r.returning_fields ≡ c
    → IsDistinct r.returning_fields
    → IsDistinct
        (if c
          then r
          else record r { returning_fields = r.returning_fields ++ field ∷ [] }).returning_fields
IsDistinct-if r field true e h = h
IsDistinct-if r field false e h = IsDistinct-last r.returning_fields field h e

add_without-IsDistinct :
    (xs : List QueryWithArgs) (r : Returning) (field : Field)
    → IsDistinct r.returning_fields
    → IsDistinct (add_field_without xs r field).returning_fields
unfolding add_field_without
add_without-IsDistinct (x ∷ xs) r field h = h
add_without-IsDistinct [] r field h =
    IsDistinct-if r field (has_field field.name r.returning_fields) refl h

add_returning_field-IsDistinct :
    (r : Returning) (field : Field)
    → IsDistinct r.returning_fields
    → IsDistinct (add_returning_field r field).returning_fields
unfolding add_returning_field
add_returning_field-IsDistinct r field h = add_without-IsDistinct r.returning r field h

-- If no field stands twice among the fields that an INSERT returns, none does after it was rendered.
pub append_insert-IsDistinct :
    (f : Formatter) (db : Name) (q : InsertQuery) (b out : Bytes) (r : Returning)
    → IsDistinct q.returned.returning_fields
    → append_insert f db b q ≡ ok (out, r)
    → IsDistinct r.returning_fields
append_insert-IsDistinct f db q b out r h e =
    subst (After (λ s. IsDistinct s.returning_fields) add_returning_field-IsDistinct f db q) e
      (insert_keeps (λ s. IsDistinct s.returning_fields) add_returning_field-IsDistinct f db q h b)

add_returning_field_same :
    (r r' : Returning) (x : QueryWithArgs) (xs : List QueryWithArgs) (field : Field)
    → r.returning ≡ x ∷ xs
    → r' ≡ r
    → add_returning_field r' field ≡ r
unfolding add_returning_field add_field_without
add_returning_field_same r r' x xs field h e =
    ap (λ s. add_field_without s.returning s field) e ∙ ap (λ l. add_field_without l r field) h

-- Rendering an INSERT that names what it returns leaves RETURNING as it is.
pub append_insert-returned :
    (f : Formatter) (db : Name) (q : InsertQuery) (b out : Bytes) (r : Returning)
    (x : QueryWithArgs) (xs : List QueryWithArgs)
    → q.returned.returning ≡ x ∷ xs
    → append_insert f db b q ≡ ok (out, r)
    → r ≡ q.returned
append_insert-returned f db q b out r x xs h e =
    subst
      (After (λ s. s ≡ q.returned)
        (λ r' field k. add_returning_field_same q.returned r' x xs field h k) f db q)
      e
      (insert_keeps (λ s. s ≡ q.returned)
        (λ r' field k. add_returning_field_same q.returned r' x xs field h k) f db q refl b)
