-- ===== src/Migrate.antt =====
-- migrate/migration.go and the parts of migrate/migrator.go that need no database: the status of
-- migrations and their groups. `Func` stands for MigrationFunc. Ids of rows are not negative; the
-- id of a group is an int64, as the number below 2 ^ 64 of its bits.
pub mod Groups
pub mod Script
pub mod Migrator
pub mod Worker
use uptrace_bun.Prelude.{
  ℕ, ◌+◌, ◌%◌, ◌^◌, Bool, true, false, not, ◌&&◌, List, [], ◌∷◌, ◌++◌, map, Option, none, some,
  Bytes, ltb, ◌==◌, if◌then◌else◌, equal,
}

pub record Migration (Func : Type 0) : Type 0 where
  pub id : ℕ
  pub name : Bytes
  pub group_id : ℕ
  pub up : Option Func
  pub down : Option Func

pub record MigrationGroup (Func : Type 0) : Type 0 where
  pub group : ℕ
  pub migrations : List (Migration Func)

-- The numbers of int64s, in their order: `biased a < biased b` is `a < b` of the code.
unfoldable pub biased : ℕ → ℕ
biased a = (a + 2 ^ 63) % 2 ^ 64

module _ {Func : Type 0} where
  unfoldable pub is_applied : Migration Func → Bool
  is_applied m = ltb 0 m.id

  -- What `append` in `Register` adds.
  unfoldable pub registered : Bytes → Option Func → Option Func → Migration Func
  registered name up down = record { id = 0; name = name; group_id = 0; up = up; down = down }

  -- A row of the migrations table: the functions are no columns.
  unfoldable pub row : ℕ → Bytes → ℕ → Migration Func
  row id name group_id = record {
    id = id;
    name = name;
    group_id = group_id;
    up = none;
    down = none;
  }

  later : Option (Migration Func) → Bool → Migration Func → Option (Migration Func)
  later (some found) matches m = some found
  later none true m = some m
  later none false m = none

  -- `migrationMap`, and the look-up in it: the last row of a name counts.
  unfoldable pub find_applied : Bytes → List (Migration Func) → Option (Migration Func)
  unfolding later
  find_applied name [] = none
  find_applied name (m ∷ ms) = later (find_applied name ms) (equal m.name name) m

  or_registered : Migration Func → Option (Migration Func) → Migration Func
  or_registered m none = m
  or_registered m (some found) = found

  -- `MigrationsWithStatus`, given the sorted migrations and the rows of the table.
  unfoldable pub with_status : List (Migration Func) → List (Migration Func) → List (Migration Func)
  unfolding or_registered
  with_status [] applied = []
  with_status (m ∷ sorted) applied =
      or_registered m (find_applied m.name applied) ∷ with_status sorted applied

  -- `Unapplied` before it is sorted.
  unfoldable pub unapplied : List (Migration Func) → List (Migration Func)
  unfolding is_applied
  unapplied [] = []
  unapplied (m ∷ ms) = let rest = unapplied ms in if is_applied m then rest else m ∷ rest

  -- The loop of `LastGroupID`.
  unfoldable pub last_group_id_from : ℕ → List (Migration Func) → ℕ
  unfolding biased
  last_group_id_from last [] = last
  last_group_id_from last (m ∷ ms) =
      last_group_id_from
        (if not (m.group_id == 0) && ltb (biased last) (biased m.group_id)
          then m.group_id
          else last)
        ms

  unfoldable pub last_group_id : List (Migration Func) → ℕ
  unfolding last_group_id_from
  last_group_id ms = last_group_id_from 0 ms

  -- The loop of `LastGroup`.
  unfoldable pub in_group : ℕ → List (Migration Func) → List (Migration Func)
  in_group group [] = []
  in_group group (m ∷ ms) =
      let rest = in_group group ms in if m.group_id == group then m ∷ rest else rest

  unfoldable pub last_group : List (Migration Func) → MigrationGroup Func
  unfolding last_group_id in_group
  last_group ms =
      let last = last_group_id ms in
      record { group = last; migrations = if last == 0 then [] else in_group last ms }

  -- `GroupID` of the new group in `Migrate`.
  unfoldable pub next_group_id : List (Migration Func) → ℕ
  unfolding last_group_id
  next_group_id ms = (last_group_id ms + 1) % 2 ^ 64
