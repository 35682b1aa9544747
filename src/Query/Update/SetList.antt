-- ===== src/Query/Update/SetList.antt =====
-- The SET list of an UPDATE: `appendSetStruct` of query_update.go.
use uptrace_bun.Prelude.{
  ℕ, suc, All, ok, ◌>>=◌, Bool, true, false, not, ◌&&◌, List, [], ◌∷◌, ◌++◌, Bytes, codes,
  if◌then◌else◌, length, ltb, length-append, Bool-cases, inl, inr, ◌≡◌, refl, sym, ap, ◌∙◌, ◌≤◌,
  ◌<◌, arith,
}
use uptrace_bun.Schema.Formatter.{Formatter}
use uptrace_bun.Schema.Sqlfmt.{QueryWithArgs, append_with_args}
use uptrace_bun.Query.State.{Field, Struct, Table}
use uptrace_bun.Query.Update.{
  get_data_fields, append_extra_values, append_set_struct, UpdateQuery, skips, append_set_value,
  append_set_fields,
}

-- The assignments of the fields that are not skipped, a comma before each but the first.
unfoldable pub assignments : Formatter → Bool → Bytes → UpdateQuery → Struct → List Field → Bytes
assignments f first b q strct [] = b
assignments f first b q strct (field ∷ fields) =
    let b' = ((if first then b else b ++ codes ", ") ++ field.sql_name) ++ codes " = " in
    let skipped = assignments f first b q strct fields in
    let done = assignments f false (append_set_value f b' q strct field) q strct fields in
    if skips q strct field then skipped else done

-- No value takes bytes away from the text before it.
abbrev pub OnlyAppends : Formatter → UpdateQuery → Struct → Type 0
OnlyAppends f q strct =
    (b : Bytes) (field : Field) → length b ≤ length (append_set_value f b q strct field)

-- Whether `len(b) == pos`, as the loop asks it.
ltb_of_lt : (m n : ℕ) → m < n → ltb m n ≡ true
ltb_of_lt m n h = ground arith

ltb_self : (m : ℕ) → ltb m m ≡ false
ltb_self m = ground arith

-- Whether the loop is at its first field, as `len(b) == pos` tells it.
fresh : ℕ → Bytes → Bool
fresh pos b = not (ltb pos (length b)) && not (ltb (length b) pos)

-- A round of the loop for a field that is not skipped.
round : Formatter → ℕ → Bytes → UpdateQuery → Struct → Field → List Field → Bool → Bytes
round f pos b q strct field fields first =
    let begun = if first then b else b ++ codes ", " in
    append_set_fields f (if first then pos else length begun)
      (append_set_value f ((begun ++ field.sql_name) ++ codes " = ") q strct field) q strct fields

module _ (f : Formatter) (q : UpdateQuery) (strct : Struct) (grows : OnlyAppends f q strct) where
  round_lem :
      (pos : ℕ) (b : Bytes) (field : Field) (fields : List Field) (first : Bool)
      → skips q strct field ≡ false
      → fresh pos b ≡ first
      → append_set_fields f pos b q strct (field ∷ fields)
        ≡ round f pos b q strct field fields first
  unfolding append_set_fields round fresh
  round_lem pos b field fields first e h =
      ap
        (λ s.
          if s
          then append_set_fields f pos b q strct fields
          else round f pos b q strct field fields (fresh pos b))
        e
      ∙ ap (round f pos b q strct field fields) h

  fresh_behind : (pos : ℕ) (b : Bytes) → pos < length b → fresh pos b ≡ false
  unfolding fresh
  fresh_behind pos b h = rw (ltb_of_lt pos (length b) h)

  fresh_first : (b : Bytes) → fresh (length b) b ≡ true
  unfolding fresh
  fresh_first b = rw (ltb_self (length b))

  assignments_step :
      (first : Bool) (b : Bytes) (field : Field) (fields : List Field)
      → skips q strct field ≡ false
      → assignments f first b q strct (field ∷ fields)
        ≡ assignments f false
            (append_set_value f
              (((if first then b else b ++ codes ", ") ++ field.sql_name) ++ codes " = ")
              q
              strct
              field)
            q
            strct
            fields
  unfolding assignments
  assignments_step first b field fields e = rw e

  begun_lt :
      (b : Bytes) (field : Field)
      → length b < length (append_set_value f ((b ++ field.sql_name) ++ codes " = ") q strct field)
  begun_lt b field = omega (
    arith,
    grows ((b ++ field.sql_name) ++ codes " = ") field,
    length-append (b ++ field.sql_name) (codes " = "),
    length-append b field.sql_name,
  )

  set_fields_behind :
      (pos : ℕ) (b : Bytes) (fields : List Field)
      → pos < length b
      → append_set_fields f pos b q strct fields ≡ assignments f false b q strct fields
  unfolding append_set_fields assignments round
  set_fields_behind pos b [] h = refl
  set_fields_behind pos b (field ∷ fields) h = elim (Bool-cases (skips q strct field)) [
    | inl e ↦ rw (e, set_fields_behind pos b fields h)
    | inr e ↦
        round_lem pos b field fields false e (fresh_behind pos b h)
        ∙ set_fields_behind (length (b ++ codes ", "))
            (append_set_value f (((b ++ codes ", ") ++ field.sql_name) ++ codes " = ") q strct
              field)
            fields (begun_lt (b ++ codes ", ") field)
        ∙ sym (assignments_step false b field fields e)
  ]

  -- If no value takes bytes away from the text before it, the SET list of a struct is the assignments
  -- of the fields that `omitZero` does not skip, with a comma between them and none at either end.
  pub append_set_fields-assignments :
      (b : Bytes) (fields : List Field)
      → append_set_fields f (length b) b q strct fields ≡ assignments f true b q strct fields
  unfolding append_set_fields assignments round
  append_set_fields-assignments b [] = refl
  append_set_fields-assignments b (field ∷ fields) = elim (Bool-cases (skips q strct field)) [
    | inl e ↦ rw (e, append_set_fields-assignments b fields)
    | inr e ↦
        round_lem (length b) b field fields true e (fresh_first b)
        ∙ set_fields_behind (length b)
            (append_set_value f ((b ++ field.sql_name) ++ codes " = ") q strct field) fields
            (begun_lt b field)
        ∙ sym (assignments_step true b field fields e)
  ]

module _ (f : Formatter) (q : UpdateQuery) (t : Table) (strct : Struct) where
  set_fields_skipped :
      (pos : ℕ) (b : Bytes) (fields : List Field)
      → All (λ field. skips q strct field ≡ true) fields
      → append_set_fields f pos b q strct fields ≡ b
  unfolding append_set_fields
  set_fields_skipped pos b [] h = refl
  set_fields_skipped pos b (field ∷ fields) (h, hs) = rw h (set_fields_skipped pos b fields hs)

  extra_behind :
      (b : Bytes) (field : Field) (fields : List Field) (column : Bytes) (value : QueryWithArgs)
      → append_extra_values f (ltb 0 (length (field ∷ fields))) b ((column, value) ∷ [])
        ≡ append_with_args f (((b ++ codes ", ") ++ column) ++ codes " = ") value
  unfolding append_extra_values
  extra_behind b field fields column value = rw (ltb_of_lt 0 (suc (length fields)) (omega arith))

  -- If `omitZero` skips every data field of the struct and there is one extra value, the SET list is a
  -- comma and the assignment of the extra value.
  pub append_set_struct-comma :
      (b : Bytes) (field : Field) (fields : List Field) (column : Bytes) (value : QueryWithArgs)
      → get_data_fields q.base t ≡ ok (field ∷ fields)
      → All (λ field. skips q strct field ≡ true) (field ∷ fields)
      → q.extra_values ≡ (column, value) ∷ []
      → append_set_struct f b q t strct
        ≡ ok (append_with_args f (((b ++ codes ", ") ++ column) ++ codes " = ") value)
  unfolding append_set_struct
  append_set_struct-comma b field fields column value hg hs he =
      ap
        (λ r. r >>= λ fs. ok (
          append_extra_values f (ltb 0 (length fs)) (append_set_fields f (length b) b q strct fs)
            q.extra_values))
        hg
      ∙ ap (λ x. ok (append_extra_values f (ltb 0 (length (field ∷ fields))) x q.extra_values))
          (set_fields_skipped (length b) b (field ∷ fields) hs)
      ∙ ap (λ x. ok (append_extra_values f (ltb 0 (length (field ∷ fields))) b x)) he
      ∙ ap ok (extra_behind b field fields column value)
