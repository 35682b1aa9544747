-- ===== src/Migrate/Migrator.antt =====
-- Migrate, Rollback, Lock, Unlock, MarkApplied and MarkUnapplied of migrate/migrator.go over a database
-- that is a parameter. The registered migrations are given in the order of their names, and no two
-- have the same name, so sorting those that are unapplied changes nothing. `table` is the formatted
-- name of the migrations table.
pub mod Applied
pub mod Complete
use uptrace_bun.Prelude.{
  ℕ, Bool, true, false, not, ◌&&◌, List, [], ◌∷◌, ◌++◌, Option, none, some, Bytes, ◌==◌,
  if◌then◌else◌, length, Result, ok, err,
}
use uptrace_bun.Migrate.{
  Migration, MigrationGroup, with_status, unapplied, last_group, next_group_id,
}

pub data MigrateError : Type 0 where
  no_migrations : MigrateError
  already_locked : Bytes → MigrateError
  failed : Bytes → MigrateError

-- What an operation leaves of the database, and what it returns; an error is its message.
abbrev pub Ran : Type 0 → Type 0 → Type 0
Ran State A = State × Result Bytes A

-- The statements that the migrator sends, and the migration functions. `insert_migration` returns the
-- migration with what the database fills in.
pub record Database (Func State : Type 0) : Type 0 where
  pub insert_lock : Bytes → State → Ran State (Unit {0})
  pub delete_lock : Bytes → State → Ran State (Unit {0})
  pub select_migrations : State → Ran State (List (Migration Func))
  pub insert_migration : Migration Func → State → Ran State (Migration Func)
  pub delete_migration : ℕ → State → Ran State (Unit {0})
  pub run : Func → State → Ran State (Unit {0})

module _ {Func State : Type 0} (db : Database Func State) where
  -- `if err != nil { return nil, err }` behind an operation.
  abbrev pub and_then :
      {A B : Type 0}
      → Ran State A
      → (A → State → State × Result MigrateError B)
      → State × Result MigrateError B
  and_then (st, err e) k = (st, err (failed e))
  and_then (st, ok a) k = k a st

  -- `if !cfg.nop && f != nil`
  unfoldable pub call_unless : Bool → Option Func → State → Ran State (Unit {0})
  call_unless nop none st = (st, ok tt)
  call_unless true (some f) st = (st, ok tt)
  call_unless false (some f) st = db.run f st

  unfoldable pub in_group_of : ℕ → Migration Func → Migration Func
  in_group_of group m = record {
    id = m.id;
    name = m.name;
    group_id = group;
    up = m.up;
    down = m.down;
  }

  cons_ran :
      Migration Func
      → State × Result MigrateError (List (Migration Func))
      → State × Result MigrateError (List (Migration Func))
  cons_ran m (st, ok ms) = (st, ok (m ∷ ms))
  cons_ran m (st, err e) = (st, err e)

  -- The loop of `Migrate`: Up, then MarkApplied.
  unfoldable pub apply_all :
      Bool → ℕ → List (Migration Func) → State → State × Result MigrateError (List (Migration Func))
  unfolding call_unless in_group_of cons_ran
  apply_all nop group [] st = (st, ok [])
  apply_all nop group (m ∷ ms) st = and_then (call_unless nop m.up st) (λ _ st1.
      and_then (db.insert_migration (in_group_of group m) st1)
        (λ marked st2. cons_ran marked (apply_all nop group ms st2)))

  -- The loop of `Rollback`: Down, then MarkUnapplied.
  unfoldable pub revert_all :
      Bool → List (Migration Func) → State → State × Result MigrateError (Unit {0})
  unfolding call_unless
  revert_all nop [] st = (st, ok tt)
  revert_all nop (m ∷ ms) st =
      and_then (call_unless nop m.down st)
        (λ _ st1. and_then (db.delete_migration m.id st1) (λ _ st2. revert_all nop ms st2))

  -- `defer m.Unlock(ctx)`: its error is dropped.
  unfoldable pub unlock :
      {A : Type 0} → Bytes → State × Result MigrateError A → State × Result MigrateError A
  unlock table r = ((db.delete_lock table r.0).0, r.1)

  -- What follows a `Lock`.
  unfoldable pub locked :
      {A : Type 0}
      → Bytes
      → Ran State (Unit {0})
      → (State → State × Result MigrateError A)
      → State × Result MigrateError A
  unfolding unlock
  locked table (st, err e) body = (st, err (already_locked e))
  locked table (st, ok _) body = unlock table (body st)

  as_group :
      ℕ
      → State × Result MigrateError (List (Migration Func))
      → State × Result MigrateError (MigrationGroup Func)
  as_group id (st, ok ms) = (st, ok (record { group = id; migrations = ms }))
  as_group id (st, err e) = (st, err e)

  -- `Migrate` between Lock and Unlock; the id of an empty group is 0.
  unfoldable pub apply_group :
      Bool
      → List (Migration Func)
      → List (Migration Func)
      → State
      → State × Result MigrateError (MigrationGroup Func)
  unfolding with_status unapplied next_group_id apply_all as_group
  apply_group nop sorted applied st = elim (unapplied (with_status sorted applied)) [
    | [] ↦ (st, ok (record { group = 0; migrations = [] }))
    | m ∷ ms ↦
        as_group (next_group_id (with_status sorted applied))
          (apply_all nop (next_group_id (with_status sorted applied)) (m ∷ ms) st)
  ]

  unfoldable pub migrate_locked :
      Bool → List (Migration Func) → State → State × Result MigrateError (MigrationGroup Func)
  unfolding apply_group
  migrate_locked nop sorted st =
      and_then (db.select_migrations st) (λ applied st1. apply_group nop sorted applied st1)

  -- `Migrate`
  unfoldable pub migrate :
      Bytes
      → Bool
      → List (Migration Func)
      → State
      → State × Result MigrateError (MigrationGroup Func)
  unfolding locked migrate_locked
  migrate table nop [] st = (st, err no_migrations)
  migrate table nop (m ∷ ms) st =
      locked table (db.insert_lock table st) (λ st1. migrate_locked nop (m ∷ ms) st1)

  after_revert :
      MigrationGroup Func
      → State × Result MigrateError (Unit {0})
      → State × Result MigrateError (MigrationGroup Func)
  after_revert g (st, ok _) = (st, ok g)
  after_revert g (st, err e) = (st, err e)

  unfoldable pub rollback_locked :
      Bool → List (Migration Func) → State → State × Result MigrateError (MigrationGroup Func)
  unfolding with_status last_group revert_all after_revert
  rollback_locked nop sorted st = and_then (db.select_migrations st) (λ applied st1.
      after_revert (last_group (with_status sorted applied))
        (revert_all nop (last_group (with_status sorted applied)).migrations st1))

  -- `Rollback`
  unfoldable pub rollback :
      Bytes
      → Bool
      → List (Migration Func)
      → State
      → State × Result MigrateError (MigrationGroup Func)
  unfolding locked rollback_locked
  rollback table nop [] st = (st, err no_migrations)
  rollback table nop (m ∷ ms) st =
      locked table (db.insert_lock table st) (λ st1. rollback_locked nop (m ∷ ms) st1)
