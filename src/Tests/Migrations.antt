-- ===== src/Tests/Migrations.antt =====
-- Migrations on samples.
use uptrace_bun.Prelude.{
  ℕ, zero, suc, false, Result, ◌<◌, ◌≤◌, ◌++◌, arith, List, [], ◌∷◌, map, some, none, Bytes, codes,
  ok, err, All, equal, ◌≡◌, refl, sym, ap,
}
use uptrace_bun.Migrate.{
  Migration, MigrationGroup, is_applied, unapplied, registered, row, find_applied, with_status,
  last_group, next_group_id, biased,
}
use uptrace_bun.Migrate.Groups.{next_group_id-fresh, last_group-with_status}
use uptrace_bun.Migrate.Migrator.{Ran, Database, migrate}
use uptrace_bun.Migrate.Migrator.Complete.{Tracks, migrate-IsComplete}
use uptrace_bun.Migrate.Worker.{
  Worker, locking, selecting, done, take_step, one, Reaches, here, onward, count_inside,
}
use uptrace_bun.Migrate.Worker.Exclusion.{Locks, Reaches-IsExclusive}
use uptrace_bun.Migrate.Script.{scan_script, has_prefix}
use uptrace_bun.Migrate.Script.RoundTrip.{script, text, scan_script-script}

-- Two migrations, of which the first was applied in group 3.
abbrev sample_sorted : List (Migration Bytes)
sample_sorted =
    registered (codes "1_a") (some (codes "up")) (some (codes "down"))
    ∷ registered (codes "2_b") (some (codes "up")) (some (codes "down"))
    ∷ []

abbrev sample_applied : List (Migration Bytes)
sample_applied = row 1 (codes "1_a") 3 ∷ []

-- The last group has the row without its functions.
rollback_sample :
    (last_group (with_status sample_sorted sample_applied)).migrations ≡ sample_applied
unfolding last_group with_status find_applied registered row equal
rollback_sample = refl

next_group_id-fresh_example :
    All
      (λ m. biased m.group_id < biased (next_group_id (with_status sample_sorted sample_applied)))
      (with_status sample_sorted sample_applied)
unfolding with_status find_applied registered row equal biased
next_group_id-fresh_example =
    next_group_id-fresh (with_status sample_sorted sample_applied) (omega arith, (omega arith, tt))

last_group-with_status_example :
    All (λ m. m.down ≡ none) ((last_group (with_status sample_sorted sample_applied)).migrations)
unfolding registered row
last_group-with_status_example =
    last_group-with_status sample_sorted sample_applied (refl, (refl, tt)) (refl, tt)

abbrev sample_queries : List (List Bytes)
sample_queries = (codes "CREATE TABLE t (" ∷ codes ")" ∷ []) ∷ (codes "SELECT 1" ∷ []) ∷ []

script_sample : scan_script [] [] (codes "SELECT 1" ∷ codes "--bun:cut" ∷ []) ≡ err (codes "cut")
unfolding scan_script equal
script_sample = refl

scan_script-script_example :
    scan_script [] [] (script sample_queries) ≡ ok (map text sample_queries)
unfolding has_prefix equal
scan_script-script_example =
    scan_script-script sample_queries ((refl, (refl, tt)), ((refl, tt), tt)) tt

-- A database with the rows of the migrations and the number of rows of the lock.
abbrev Stored : Type 0
Stored = List (Migration Bytes) × ℕ

abbrev insert_lock_row : ℕ → List (Migration Bytes) → Ran Stored (Unit {0})
insert_lock_row zero rows = ((rows, 1), ok tt)
insert_lock_row (suc n) rows = ((rows, suc n), err (codes "duplicate key"))

abbrev sample_database : Database Bytes Stored
sample_database = record {
  insert_lock = λ table st. insert_lock_row st.1 st.0;
  delete_lock = λ table st. ((st.0, 0), ok tt);
  select_migrations = λ st. (st, ok st.0);
  insert_migration =
      λ m st. ((st.0 ++ row 1 m.name m.group_id ∷ [], st.1), ok (row 1 m.name m.group_id));
  delete_migration = λ id st. (([], st.1), ok tt);
  run = λ f st. (st, ok tt);
}

ok_injective : {A : Type 0} (e : Result Bytes A) (x y : A) → e ≡ ok x → e ≡ ok y → x ≡ y
ok_injective e x y h k = cc

err_ne_ok : {A : Type 0} (e : Bytes) (x : A) → err e ≡ ok x → ⊥
err_ne_ok e x h = cc

insert_lock_row-rows :
    (n : ℕ) (rows : List (Migration Bytes)) → ((insert_lock_row n rows).0).0 ≡ rows
insert_lock_row-rows zero rows = refl
insert_lock_row-rows (suc n) rows = refl

Tracks-sample_database : Tracks sample_database (λ st. st.0)
unfolding row is_applied
Tracks-sample_database = record {
  select = λ st st' ms h.
      (ok_injective (ok st.0) ms st.0 (ap (λ p. p.1) h) refl, ap (λ p. p.0.0) (sym h));
  insert = λ m r st st' h. (row 1 m.name m.group_id, ap (λ p. p.0.0) (sym h), refl, refl);
  run = λ f st. refl;
  lock = λ table st. insert_lock_row-rows st.1 st.0;
  released = λ table st. refl;
}

abbrev free : Stored
free = ([], 0)

abbrev sample_group : MigrationGroup Bytes
sample_group = record { group = 1; migrations = row 1 (codes "1_a") 1 ∷ row 1 (codes "2_b") 1 ∷ [] }

-- Both migrations are applied.
migrate_sample :
    migrate sample_database (codes "m") false sample_sorted free
    ≡ ((sample_group.migrations, 0), ok sample_group)
unfolding migrate find_applied registered
migrate_sample = refl

migrate-IsComplete_example : unapplied (with_status sample_sorted sample_group.migrations) ≡ []
unfolding is_applied registered
migrate-IsComplete_example =
    migrate-IsComplete sample_database (λ st. st.0) Tracks-sample_database (codes "m") false
      sample_sorted free (sample_group.migrations, 0) sample_group (refl, (refl, tt)) tt
      migrate_sample

insert_lock_row-acquired :
    (n : ℕ) (rows : List (Migration Bytes)) (st : Stored)
    → insert_lock_row n rows ≡ (st, ok tt)
    → (n ≡ 0) × (st.1 ≡ 1)
insert_lock_row-acquired zero rows st h = (refl, ap (λ p. p.0.1) (sym h))
insert_lock_row-acquired (suc n) rows st h = absurd (err_ne_ok _ tt (ap (λ p. p.1) h))

insert_lock_row-refused :
    (n : ℕ) (rows : List (Migration Bytes)) (st : Stored) (e : Bytes)
    → insert_lock_row n rows ≡ (st, err e)
    → st.1 ≡ n
insert_lock_row-refused zero rows st e h = absurd (err_ne_ok e tt (sym (ap (λ p. p.1) h)))
insert_lock_row-refused (suc n) rows st e h = ap (λ p. p.0.1) (sym h)

Locks-sample_database : Locks sample_database (codes "m") (λ st. st.1)
Locks-sample_database = record {
  acquired = λ st st' h. insert_lock_row-acquired st.1 st.0 st' h;
  refused = λ st st' e h. insert_lock_row-refused st.1 st.0 st' e h;
  deleted = λ st. omega arith;
  select = λ st. refl;
  insert = λ m st. refl;
  run = λ f st. refl;
}

-- Two workers, of which the first takes the lock, and the second is refused.
abbrev starting : List (Worker Bytes)
starting = locking false sample_sorted ∷ locking false sample_sorted ∷ []

abbrev refused_second : List (Worker Bytes)
refused_second = selecting false sample_sorted ∷ done ∷ []

two_steps : Reaches sample_database (codes "m") (free, starting) (([], 1), refused_second)
unfolding take_step
two_steps =
    onward
      (onward here (one [] (locking false sample_sorted ∷ []) (locking false sample_sorted) free))
      (one (selecting false sample_sorted ∷ []) [] (locking false sample_sorted) ([], 1))

Reaches-IsExclusive_example : count_inside refused_second ≤ 1
unfolding count_inside
Reaches-IsExclusive_example =
    Reaches-IsExclusive sample_database (codes "m") (λ st. st.1) Locks-sample_database free ([], 1)
      starting refused_second refl (omega arith) two_steps
