-- ===== src/Migrate/Worker.antt =====
-- Several processes that run `Migrate` of migrate/migrator.go on one database: one statement or one
-- call of a migration function at a time. A worker is where one process stands.
pub mod Exclusion
use uptrace_bun.Prelude.{
  ℕ, zero, suc, ◌+◌, ◌==◌, Bool, true, false, List, [], ◌∷◌, ◌++◌, Option, none, some, Bytes,
  Result, ok, err, if◌then◌else◌,
}
use uptrace_bun.Migrate.{Migration, with_status, unapplied, next_group_id}
use uptrace_bun.Migrate.Migrator.{Ran, Database, call_unless, in_group_of}

pub data Worker (Func : Type 0) : Type 0 where
  locking : Bool → List (Migration Func) → Worker Func
  selecting : Bool → List (Migration Func) → Worker Func
  calling : Bool → ℕ → List (Migration Func) → Worker Func
  marking : Bool → ℕ → Migration Func → List (Migration Func) → Worker Func
  unlocking : Worker Func
  done : Worker Func

module _ {Func State : Type 0} (db : Database Func State) (table : Bytes) where
  -- Where a worker goes on after an operation, by whether it failed.
  unfoldable pub go_on :
      {A : Type 0} → (A → Worker Func) → Worker Func → Ran State A → State × Worker Func
  go_on next fallback (st, ok a) = (st, next a)
  go_on next fallback (st, err e) = (st, fallback)

  -- Behind the statement that selects the rows: the group of the unapplied migrations, if any.
  unfoldable pub start_group : Bool → List (Migration Func) → List (Migration Func) → Worker Func
  unfolding with_status unapplied next_group_id
  start_group nop sorted applied =
      calling nop (next_group_id (with_status sorted applied))
        (unapplied (with_status sorted applied))

  -- One step of `Migrate`; every way out behind `Lock` goes through `Unlock`.
  unfoldable pub take_step : Worker Func → State → State × Worker Func
  unfolding go_on start_group call_unless in_group_of
  take_step (locking nop []) st = (st, done)
  take_step (locking nop (m ∷ ms)) st =
      go_on (λ _. selecting nop (m ∷ ms)) done (db.insert_lock table st)
  take_step (selecting nop sorted) st =
      go_on (λ applied. start_group nop sorted applied) unlocking (db.select_migrations st)
  take_step (calling nop group []) st = (st, unlocking)
  take_step (calling nop group (m ∷ ms)) st =
      go_on (λ _. marking nop group m ms) unlocking (call_unless db nop m.up st)
  take_step (marking nop group m ms) st =
      go_on (λ _. calling nop group ms) unlocking (db.insert_migration (in_group_of db group m) st)
  take_step unlocking st = go_on (λ _. done) done (db.delete_lock table st)
  take_step done st = (st, done)

  -- One worker among the others takes a step.
  pub data Step : State × List (Worker Func) → State × List (Worker Func) → Type 0 where
    one :
        (before after : List (Worker Func)) (w : Worker Func) (st : State)
        → Step (st, before ++ w ∷ after) ((take_step w st).0, before ++ (take_step w st).1 ∷ after)

  -- Any number of steps.
  pub data Reaches : State × List (Worker Func) → State × List (Worker Func) → Type 0 where
    here : {s : State × List (Worker Func)} → Reaches s s
    onward : {s t u : State × List (Worker Func)} → Reaches s t → Step t u → Reaches s u

module _ {Func : Type 0} where
  -- Between Lock and Unlock.
  unfoldable pub inside : Worker Func → ℕ
  inside (locking nop ms) = 0
  inside done = 0
  inside _ = 1

  unfoldable pub count_inside : List (Worker Func) → ℕ
  unfolding inside
  count_inside [] = 0
  count_inside (w ∷ ws) = inside w + count_inside ws
