-- ===== src/Migrate/Migrator/Applied.antt =====
-- Which migrations the rows of the migrations table cover, by the look-up of migrate/migrator.go.
use uptrace_bun.Prelude.{
  Bool, true, false, List, [], ◌∷◌, ◌++◌, Option, none, some, Bytes, if◌then◌else◌, equal,
  equal_refl, All, ◌≡◌, refl, ap, subst, ◌∙◌,
}
use uptrace_bun.Migrate.{
  Migration, is_applied, later, find_applied, or_registered, with_status, unapplied,
}

module _ {Func : Type 0} where
  -- The look-up finds a row that counts as applied.
  abbrev pub HasRow : List (Migration Func) → Bytes → Type 0
  HasRow ms name = (r : Migration Func) × (find_applied name ms ≡ some r) × (is_applied r ≡ true)

  later-if :
      (b e : Bool) (o : Option (Migration Func)) (m row : Migration Func)
      → later (if b then some row else o) e m ≡ (if b then some row else later o e m)
  unfolding later
  later-if true e o m row = refl
  later-if false e o m row = refl

  later-none : (b : Bool) (row : Migration Func) → later none b row ≡ (if b then some row else none)
  unfolding later
  later-none true row = refl
  later-none false row = refl

  find_applied-append :
      (name : Bytes) (ms : List (Migration Func)) (row : Migration Func)
      → find_applied name (ms ++ row ∷ [])
        ≡ (if equal row.name name then some row else find_applied name ms)
  unfolding find_applied
  find_applied-append name [] row = later-none (equal row.name name) row
  find_applied-append name (m ∷ ms) row =
      ap (λ o. later o (equal m.name name) m) (find_applied-append name ms row)
      ∙ later-if (equal row.name name) (equal m.name name) (find_applied name ms) m row

  pub HasRow-append :
      (ms : List (Migration Func)) (row : Migration Func) (name : Bytes)
      → is_applied row ≡ true
      → HasRow ms name
      → HasRow (ms ++ row ∷ []) name
  HasRow-append ms row name h (r, found, hr) =
      let e = find_applied-append name ms row in
      elim (equal row.name name)
          as (λ b.
            find_applied name (ms ++ row ∷ []) ≡ (if b then some row else find_applied name ms)
            → HasRow (ms ++ row ∷ []) name) [
              | true ↦ λ e'. (row, e', h)
              | false ↦ λ e'. (r, e' ∙ found, hr)
            ]
        e

  pub HasRow-row :
      (ms : List (Migration Func)) (row : Migration Func) (name : Bytes)
      → is_applied row ≡ true
      → row.name ≡ name
      → HasRow (ms ++ row ∷ []) name
  HasRow-row ms row name h e = (
    row,
    find_applied-append name ms row
        ∙ ap (λ b. if b then some row else find_applied name ms)
            (subst (λ n. equal row.name n ≡ true) e (equal_refl row.name)),
    h,
  )

  abbrev AllFound : Option (Migration Func) → Type 0
  AllFound none = Unit
  AllFound (some r) = is_applied r ≡ true

  later-AllFound :
      (o : Option (Migration Func)) (b : Bool) (r : Migration Func)
      → AllFound o
      → is_applied r ≡ true
      → AllFound (later o b r)
  unfolding later
  later-AllFound (some found) b r h hr = h
  later-AllFound none true r h hr = hr
  later-AllFound none false r h hr = tt

  find_applied-AllFound :
      (name : Bytes) (ms : List (Migration Func))
      → All (λ r. is_applied r ≡ true) ms
      → AllFound (find_applied name ms)
  unfolding find_applied
  find_applied-AllFound name [] h = tt
  find_applied-AllFound name (r ∷ ms) (hr, h) =
      later-AllFound (find_applied name ms) (equal r.name name) r (find_applied-AllFound name ms h)
        hr

  -- What the rows hold of the unapplied and of the applied migrations, they hold of all.
  covered :
      (o : Option (Migration Func)) (m : Migration Func) (applied rows rest : List (Migration Func))
      → find_applied m.name applied ≡ o
      → AllFound o
      → is_applied m ≡ false
      → (HasRow applied m.name → HasRow rows m.name)
      → All
          (λ x. HasRow rows x.name)
          (if is_applied (or_registered m o) then rest else or_registered m o ∷ rest)
      → HasRow rows m.name × All (λ x. HasRow rows x.name) rest
  unfolding or_registered
  covered none m applied rows rest e h hm k all =
      let all' = subst (λ b. All (λ x. HasRow rows x.name) (if b then rest else m ∷ rest)) hm all in
      all'
  covered (some r) m applied rows rest e h hm k all =
      (k (r, e, h), subst (λ b. All (λ x. HasRow rows x.name) (if b then rest else r ∷ rest)) h all)

  pub covers :
      (sorted applied rows : List (Migration Func))
      → All (λ m. is_applied m ≡ false) sorted
      → All (λ r. is_applied r ≡ true) applied
      → ((name : Bytes) → HasRow applied name → HasRow rows name)
      → All (λ x. HasRow rows x.name) (unapplied (with_status sorted applied))
      → All (λ m. HasRow rows m.name) sorted
  unfolding unapplied with_status
  covers [] applied rows hs ha k all = tt
  covers (m ∷ sorted) applied rows (hm, hs) ha k all =
      let (first, rest) =
        covered (find_applied m.name applied) m applied rows _ refl
          (find_applied-AllFound m.name applied ha) hm (k m.name) all in
      (first, covers sorted applied rows hs ha k rest)

  pub complete :
      (sorted rows : List (Migration Func))
      → All (λ m. HasRow rows m.name) sorted
      → unapplied (with_status sorted rows) ≡ []
  unfolding unapplied with_status or_registered
  complete [] rows h = refl
  complete (m ∷ sorted) rows ((r, found, hr), h) = rw (found, hr) (complete sorted rows h)
