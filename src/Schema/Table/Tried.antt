-- ===== src/Schema/Table/Tried.antt =====
-- What tryRelation of schema/table.go leaves of a table.
use uptrace_bun.Prelude.{
  ℕ, ◌≡◌, refl, Bool, true, false, List, [], ◌∷◌, Option, none, some, Bytes, codes, equal, All,
  Bool-cases, inl, inr,
}
use uptrace_bun.Internal.Tagparser.{tag_option, has_option}
use uptrace_bun.Schema.Table.{Field, Table, Relation, get_entry, put_entry}
use uptrace_bun.Schema.Table.Relations.{
  add_unless, try_m2m, try_rel, add_relation, relation_of, init_relation, warn_join, try_relation,
}
use uptrace_bun.Schema.Table.Keys.{
  Ensures, returns, panics, Ensures-bind, IsMatched, belongs_to_relation_of-IsMatched,
  has_one_relation_of-IsMatched, has_many_relation_of-IsMatched, m2m_relation_of-IsMatched,
}

-- Every relation of the table is matched.
abbrev pub AreMatched : Table → Type 0
AreMatched t = All (λ e. IsMatched e.1) t.relations

put_entry-All :
    (key : Bytes) (rel : Relation) (es : List (Bytes × Relation))
    → IsMatched rel
    → All (λ e. IsMatched e.1) es
    → All (λ e. IsMatched e.1) (put_entry key rel es)
unfolding put_entry
put_entry-All key rel [] h hs = (h, tt)
put_entry-All key rel (e ∷ es) h (he, hs) = elim (Bool-cases (equal e.0 key)) [
  | inl q ↦ rw q (h, hs)
  | inr q ↦ rw q (he, put_entry-All key rel es h hs)
]

-- The option rel, or else the option m2m.
abbrev is_rel : Option Bytes → Bool → Bool
is_rel (some _) m = true
is_rel none m = m

-- Whether the tag has one of the options.
unfoldable pub is_relation : Field → Bool
unfolding tag_option has_option
is_relation f = is_rel (tag_option (codes "rel") f.tag.options) (has_option (codes "m2m") f.tag)

-- Every relation of `u` is matched, and the lists of fields are those of `t`.
pub record Leaves (t u : Table) : Type 0 where
  pub matched : AreMatched u
  pub heap : u.heap ≡ t.heap
  pub fields : u.fields ≡ t.fields
  pub pks : u.pks ≡ t.pks

add_unless-Leaves :
    (o : Option Relation) (name : Bytes) (t : Table) (rel : Relation)
    → AreMatched t
    → IsMatched rel
    → Ensures (λ u. Leaves t u) (add_unless o name t rel)
unfolding add_unless
add_unless-Leaves (some _) name t rel hs h = panics refl
add_unless-Leaves none name t rel hs h = returns (record {
  matched = put_entry-All name rel t.relations h hs;
  heap = refl;
  fields = refl;
  pks = refl;
})

relation_of-IsMatched :
    (ref : ℕ → Table) (t : Table) (i : ℕ) (f : Field) (rel : Bytes)
    → Ensures IsMatched (relation_of ref t i f rel)
unfolding relation_of
relation_of-IsMatched ref t i f rel = elim (Bool-cases (equal rel (codes "belongs-to"))) [
  | inl a ↦ rw a (belongs_to_relation_of-IsMatched ref t i f)
  | inr a ↦ elim (Bool-cases (equal rel (codes "has-one"))) [
    | inl b ↦ rw (a, b) (has_one_relation_of-IsMatched ref t i f)
    | inr b ↦ elim (Bool-cases (equal rel (codes "has-many"))) [
      | inl c ↦ rw (a, b, c) (has_many_relation_of-IsMatched ref t i f)
      | inr c ↦ rw (a, b, c) (panics refl)
    ]
  ]
]

warn_join-Leaves : (f : Field) (t : Table) → AreMatched t → Leaves t (warn_join f t)
unfolding warn_join
warn_join-Leaves f t hs = elim (Bool-cases (has_option (codes "join") f.tag)) [
  | inl e ↦ rw e (record { matched = hs; heap = refl; fields = refl; pks = refl })
  | inr e ↦ rw e (record { matched = hs; heap = refl; fields = refl; pks = refl })
]

-- `tryRelation` tells by the tag whether the field is a relation.
pub record Tried (t : Table) (b : Bool) (r : Bool × Table) : Type 0 where
  pub flag : r.0 ≡ b
  pub leaves : Leaves t r.1

try_m2m-Tried :
    (m : Bool) (ref : ℕ → Table) (by_name : Bytes → Option Table) (t : Table) (i : ℕ) (f : Field)
    → AreMatched t
    → Ensures (λ r. Tried t m r) (try_m2m m ref by_name t i f)
unfolding try_m2m add_relation
try_m2m-Tried true ref by_name t i f hs =
    Ensures-bind (m2m_relation_of-IsMatched ref by_name t i f) (λ r h.
      Ensures-bind (add_unless-Leaves (get_entry f.go_name t.relations) f.go_name t r hs h)
        (λ t' h'. returns (record { flag = refl; leaves = h' })))
try_m2m-Tried false ref by_name t i f hs =
    returns (record { flag = refl; leaves = warn_join-Leaves f t hs })

try_rel-Tried :
    (o : Option Bytes) (ref : ℕ → Table) (by_name : Bytes → Option Table) (t : Table) (i : ℕ)
    (f : Field)
    → AreMatched t
    → Ensures
        (λ r. Tried t (is_rel o (has_option (codes "m2m") f.tag)) r)
        (try_rel o ref by_name t i f)
unfolding try_rel init_relation add_relation
try_rel-Tried (some rel) ref by_name t i f hs =
    Ensures-bind
      (Ensures-bind (relation_of-IsMatched ref t i f rel)
        (λ r h. add_unless-Leaves (get_entry f.go_name t.relations) f.go_name t r hs h))
      (λ t' h'. returns (record { flag = refl; leaves = h' }))
try_rel-Tried none ref by_name t i f hs =
    try_m2m-Tried (has_option (codes "m2m") f.tag) ref by_name t i f hs

pub try_relation-Tried :
    (ref : ℕ → Table) (by_name : Bytes → Option Table) (t : Table) (i : ℕ) (f : Field)
    → AreMatched t
    → Ensures (λ r. Tried t (is_relation f) r) (try_relation ref by_name t i f)
unfolding try_relation is_relation
try_relation-Tried ref by_name t i f hs =
    try_rel-Tried (tag_option (codes "rel") f.tag.options) ref by_name t i f hs
