-- ===== src/Migrate/Migrator/Complete.antt =====
-- What a successful `Migrate` of migrate/migrator.go leaves in the migrations table.
use uptrace_bun.Prelude.{
  ℕ, Bool, true, false, List, [], ◌∷◌, ◌++◌, Option, none, some, Bytes, Result, ok, err, All, ◌≡◌,
  refl, sym, ap, subst, ◌∙◌,
}
use uptrace_bun.Migrate.{
  Migration, MigrationGroup, is_applied, with_status, unapplied, next_group_id,
}
use uptrace_bun.Migrate.Migrator.{
  MigrateError, Ran, Database, and_then, call_unless, in_group_of, cons_ran, apply_all, unlock,
  locked, as_group, apply_group, migrate_locked, migrate,
}
use uptrace_bun.Migrate.Migrator.Applied.{HasRow, HasRow-append, HasRow-row, covers, complete}

err_ne_ok : {A : Type 0} (e : MigrateError) (x : A) → err e ≡ ok x → ⊥
err_ne_ok e x p = cc

-- What a database does with the rows of the migrations table: a SELECT gives them, an INSERT that
-- succeeds adds one with the name and a positive id, and the locks and the migration functions leave
-- them alone.
pub record Tracks {Func State : Type 0} (db : Database Func State)
    (rows : State → List (Migration Func)) : Type 0 where
  pub select :
      (st st' : State) (ms : List (Migration Func))
      → db.select_migrations st ≡ (st', ok ms)
      → (ms ≡ rows st) × (rows st' ≡ rows st)
  pub insert :
      (m r : Migration Func) (st st' : State)
      → db.insert_migration m st ≡ (st', ok r)
      → (row : Migration Func) × (rows st' ≡ rows st ++ row ∷ [])
        × (row.name ≡ m.name)
        × (is_applied row ≡ true)
  pub run : (f : Func) (st : State) → rows ((db.run f st).0) ≡ rows st
  pub lock : (table : Bytes) (st : State) → rows ((db.insert_lock table st).0) ≡ rows st
  pub released : (table : Bytes) (st : State) → rows ((db.delete_lock table st).0) ≡ rows st

module _ {Func State : Type 0} (db : Database Func State) (rows : State → List (Migration Func))
    (tracks : Tracks db rows) where
  and_then-ok :
      {A B : Type 0} (r : Ran State A) (k : A → State → State × Result MigrateError B) (st' : State)
      (b : B)
      → and_then db r k ≡ (st', ok b)
      → (a : A) × (st : State) × (r ≡ (st, ok a)) × (k a st ≡ (st', ok b))
  and_then-ok (st, ok a) k st' b h = (a, st, refl, h)
  and_then-ok (st, err e) k st' b h = absurd (err_ne_ok _ b (ap (λ p. p.1) h))

  cons_ran-ok :
      (m : Migration Func) (r : State × Result MigrateError (List (Migration Func))) (st' : State)
      (out : List (Migration Func))
      → cons_ran db m r ≡ (st', ok out)
      → (ms : List (Migration Func)) × (r ≡ (st', ok ms))
  unfolding cons_ran
  cons_ran-ok m (st, ok ms) st' out h = (ms, ap (λ p. (p.0, ok ms)) h)
  cons_ran-ok m (st, err e) st' out h = absurd (err_ne_ok _ out (ap (λ p. p.1) h))

  call_unless-rows :
      (nop : Bool) (f : Option Func) (st : State) → rows ((call_unless db nop f st).0) ≡ rows st
  unfolding call_unless
  call_unless-rows nop none st = refl
  call_unless-rows true (some f) st = refl
  call_unless-rows false (some f) st = tracks.run f st

  apply_all-HasRow :
      (nop : Bool) (group : ℕ) (ms out : List (Migration Func)) (st st' : State)
      → apply_all db nop group ms st ≡ (st', ok out)
      → All (λ m. HasRow (rows st') m.name) ms
        × ((name : Bytes) → HasRow (rows st) name → HasRow (rows st') name)
  unfolding apply_all in_group_of
  apply_all-HasRow nop group [] out st st' h =
      (tt, λ name k. subst (λ s. HasRow (rows s) name) (ap (λ p. p.0) h) k)
  apply_all-HasRow nop group (m ∷ ms) out st st' h =
      let (_, st1, called, h1) = and_then-ok (call_unless db nop m.up st) _ st' out h in
      let (r, st2, inserted, h2) =
        and_then-ok (db.insert_migration (in_group_of db group m) st1) _ st' out h1 in
      let (ms', h3) = cons_ran-ok r (apply_all db nop group ms st2) st' out h2 in
      let (row, added, same, positive) =
        tracks.insert (in_group_of db group m) r st1 st2 inserted in
      let (all, keep) = apply_all-HasRow nop group ms ms' st2 st' h3 in
      let kept : rows st1 ≡ rows st =
        ap (λ p. rows p.0) (sym called) ∙ call_unless-rows nop m.up st in
      let grown : rows st2 ≡ rows st ++ row ∷ [] = added ∙ ap (λ s. s ++ row ∷ []) kept in
      (
        (
          keep m.name (
              subst (λ s. HasRow s m.name) (sym grown)
                (HasRow-row (rows st) row m.name positive same)),
          all,
        ),
        λ name k.
            keep name (
              subst (λ s. HasRow s name) (sym grown) (HasRow-append (rows st) row name positive k)),
      )

  as_group-ok :
      (id : ℕ) (r : State × Result MigrateError (List (Migration Func))) (st' : State)
      (g : MigrationGroup Func)
      → as_group db id r ≡ (st', ok g)
      → (ms : List (Migration Func)) × (r ≡ (st', ok ms))
  unfolding as_group
  as_group-ok id (st, ok ms) st' g h = (ms, ap (λ p. (p.0, ok ms)) h)
  as_group-ok id (st, err e) st' g h = absurd (err_ne_ok _ g (ap (λ p. p.1) h))

  -- The body of `apply_group` for the unapplied migrations `ms`.
  started-HasRow :
      (nop : Bool) (id : ℕ) (ms : List (Migration Func)) (st st' : State) (g : MigrationGroup Func)
      → (elim ms as (λ _. State × Result MigrateError (MigrationGroup Func)) [
        | [] ↦ (st, ok (record { group = 0; migrations = [] }))
        | m ∷ rest ↦ as_group db id (apply_all db nop id (m ∷ rest) st)
      ])
        ≡ (st', ok g)
      → All (λ m. HasRow (rows st') m.name) ms
        × ((name : Bytes) → HasRow (rows st) name → HasRow (rows st') name)
  started-HasRow nop id [] st st' g h =
      (tt, λ name k. subst (λ s. HasRow (rows s) name) (ap (λ p. p.0) h) k)
  started-HasRow nop id (m ∷ ms) st st' g h =
      let (out, h') = as_group-ok id (apply_all db nop id (m ∷ ms) st) st' g h in
      apply_all-HasRow nop id (m ∷ ms) out st st' h'

  migrate_locked-All :
      (nop : Bool) (sorted : List (Migration Func)) (st st' : State) (g : MigrationGroup Func)
      → All (λ m. is_applied m ≡ false) sorted
      → All (λ r. is_applied r ≡ true) (rows st)
      → migrate_locked db nop sorted st ≡ (st', ok g)
      → All (λ m. HasRow (rows st') m.name) sorted
  unfolding migrate_locked apply_group
  migrate_locked-All nop sorted st st' g hs hr h =
      let (applied, st1, selected, h1) = and_then-ok (db.select_migrations st) _ st' g h in
      let (same, kept) = tracks.select st st1 applied selected in
      let (all, keep) =
        started-HasRow nop (next_group_id (with_status sorted applied))
          (unapplied (with_status sorted applied)) st1 st' g h1 in
      covers sorted applied (rows st') hs
        (subst (λ r. All (λ m. is_applied m ≡ true) r) (sym same) hr)
        (λ name k. keep name (subst (λ r. HasRow r name) (same ∙ sym kept) k)) all

  locked-All :
      (table : Bytes) (nop : Bool) (sorted : List (Migration Func)) (r : Ran State (Unit {0}))
      (st st' : State) (g : MigrationGroup Func)
      → rows r.0 ≡ rows st
      → All (λ m. is_applied m ≡ false) sorted
      → All (λ r. is_applied r ≡ true) (rows st)
      → locked db table r (λ st1. migrate_locked db nop sorted st1) ≡ (st', ok g)
      → All (λ m. HasRow (rows st') m.name) sorted
  unfolding locked unlock
  locked-All table nop sorted (st0, err e) st st' g same hs hr h =
      absurd (err_ne_ok _ g (ap (λ p. p.1) h))
  locked-All table nop sorted (st0, ok _) st st' g same hs hr h =
      let ran = migrate_locked db nop sorted st0 in
      let released : rows st' ≡ rows ran.0 =
        ap (λ p. rows p.0) (sym h) ∙ tracks.released table ran.0 in
      subst (λ r. All (λ m. HasRow r m.name) sorted) (sym released)
        (migrate_locked-All nop sorted st0 ran.0 g hs
          (subst (λ r. All (λ m. is_applied m ≡ true) r) (sym same) hr)
          (ap (λ r. (ran.0, r)) (ap (λ p. p.1) h)))

  -- When `Migrate` succeeds, then no registered migration is unapplied any more, if the database
  -- tracks its rows, each row has a positive id, and no registered migration has one.
  pub migrate-IsComplete :
      (table : Bytes) (nop : Bool) (sorted : List (Migration Func)) (st st' : State)
      (g : MigrationGroup Func)
      → All (λ m. is_applied m ≡ false) sorted
      → All (λ r. is_applied r ≡ true) (rows st)
      → migrate db table nop sorted st ≡ (st', ok g)
      → unapplied (with_status sorted (rows st')) ≡ []
  unfolding migrate
  migrate-IsComplete table nop [] st st' g hs hr h = absurd (err_ne_ok _ g (ap (λ p. p.1) h))
  migrate-IsComplete table nop (m ∷ ms) st st' g hs hr h = complete (m ∷ ms) (rows st') (
      locked-All table nop (m ∷ ms) (db.insert_lock table st) st st' g (tracks.lock table st) hs hr
        h)
