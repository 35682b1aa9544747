-- ===== src/Migrate/Worker/Exclusion.antt =====
-- The lock of migrate/migrator.go keeps the other workers out.
use uptrace_bun.Prelude.{
  ℕ, ◌+◌, ◌≤◌, ◌≡◌, refl, arith, Bool, true, false, List, [], ◌∷◌, ◌++◌, Option, none, some, Bytes,
  ok, err,
}
use uptrace_bun.Migrate.{Migration}
use uptrace_bun.Migrate.Migrator.{Ran, Database, call_unless, in_group_of}
use uptrace_bun.Migrate.Worker.{
  Worker, locking, selecting, calling, marking, unlocking, done, go_on, start_group, take_step,
  Step, one, Reaches, here, onward, inside, count_inside,
}

-- What a database does with the row of the lock, `held st` telling how many there are: the column of
-- the table's name is unique, so an INSERT succeeds only without a row and leaves one, and one that
-- fails changes nothing; a DELETE adds none; the other statements and the migration functions leave
-- the row alone.
pub record Locks {Func State : Type 0} (db : Database Func State) (table : Bytes) (held : State → ℕ)
    : Type 0 where
  pub acquired :
      (st st' : State) → db.insert_lock table st ≡ (st', ok tt) → (held st ≡ 0) × (held st' ≡ 1)
  pub refused :
      (st st' : State) (e : Bytes) → db.insert_lock table st ≡ (st', err e) → held st' ≡ held st
  pub deleted : (st : State) → held ((db.delete_lock table st).0) ≤ held st
  pub select : (st : State) → held ((db.select_migrations st).0) ≡ held st
  pub insert : (m : Migration Func) (st : State) → held ((db.insert_migration m st).0) ≡ held st
  pub run : (f : Func) (st : State) → held ((db.run f st).0) ≡ held st

count_inside_lem :
    {Func : Type 0} (before after : List (Worker Func)) (w : Worker Func)
    → count_inside (before ++ w ∷ after) ≡ count_inside (before ++ after) + inside w
unfolding count_inside
count_inside_lem [] after w = omega arith
count_inside_lem (x ∷ before) after w = omega (arith, count_inside_lem before after w)

module _ {Func State : Type 0} (db : Database Func State) (table : Bytes) (held : State → ℕ)
    (locks : Locks db table held) where
  -- The other workers `n` and this one do not outnumber the rows of the lock, of which there is at
  -- most one.
  abbrev Fits : ℕ → State × Worker Func → Type 0
  Fits n s = (n + inside s.1 ≤ held s.0) × (held s.0 ≤ 1)

  go_on-Fits :
      {A : Type 0} (n : ℕ) (next : A → Worker Func) (r : Ran State A)
      → (n + 1 ≤ held r.0) × (held r.0 ≤ 1)
      → ((a : A) → inside (next a) ≡ 1)
      → Fits n (go_on db table next unlocking r)
  unfolding go_on inside
  go_on-Fits n next (st, ok a) (h, b) k = (omega (arith, h, k a), b)
  go_on-Fits n next (st, err e) (h, b) k = (omega (arith, h), b)

  lock-Fits :
      (n : ℕ) (next : Worker Func) (st : State) (r : Ran State (Unit {0}))
      → db.insert_lock table st ≡ r
      → n ≤ held st
      → held st ≤ 1
      → inside next ≡ 1
      → Fits n (go_on db table (λ _. next) done r)
  unfolding go_on inside
  lock-Fits n next st (st', ok _) e h b k =
      let (free, taken) = locks.acquired st st' e in
      (omega (arith, h, k, free, taken), omega (arith, taken))
  lock-Fits n next st (st', err m) e h b k =
      let same = locks.refused st st' m e in (omega (arith, h, same), omega (arith, b, same))

  unlock-Fits :
      (n : ℕ) (r : Ran State (Unit {0}))
      → n ≡ 0
      → held r.0 ≤ 1
      → Fits n (go_on db table (λ _. done) done r)
  unfolding go_on inside
  unlock-Fits n (st, ok _) h b = (omega (arith, h), b)
  unlock-Fits n (st, err e) h b = (omega (arith, h), b)

  call_unless-held :
      (nop : Bool) (f : Option Func) (st : State) → held ((call_unless db nop f st).0) ≡ held st
  unfolding call_unless
  call_unless-held nop none st = refl
  call_unless-held true (some f) st = refl
  call_unless-held false (some f) st = locks.run f st

  take_step-Fits :
      (n : ℕ) (w : Worker Func) (st : State) → Fits n (st, w) → Fits n (take_step db table w st)
  unfolding take_step inside start_group
  take_step-Fits n (locking nop []) st h = h
  take_step-Fits n (locking nop (m ∷ ms)) st (h, b) =
      lock-Fits n _ st (db.insert_lock table st) refl (omega (arith, h)) b refl
  take_step-Fits n (selecting nop ms) st (h, b) =
      let same = locks.select st in
      go_on-Fits n _ (db.select_migrations st) (omega (arith, h, same), omega (arith, b, same))
        (λ a. refl)
  take_step-Fits n (calling nop group []) st h = h
  take_step-Fits n (calling nop group (m ∷ ms)) st (h, b) =
      let same = call_unless-held nop m.up st in
      go_on-Fits n _ (call_unless db nop m.up st) (omega (arith, h, same), omega (arith, b, same))
        (λ a. refl)
  take_step-Fits n (marking nop group m ms) st (h, b) =
      let same = locks.insert (in_group_of db group m) st in
      go_on-Fits n _ (db.insert_migration (in_group_of db group m) st)
        (omega (arith, h, same), omega (arith, b, same)) (λ a. refl)
  take_step-Fits n unlocking st (h, b) =
      unlock-Fits n (db.delete_lock table st) (omega (arith, b, h))
        (omega (arith, b, locks.deleted st))
  take_step-Fits n done st h = h

  -- The workers that are inside do not outnumber the rows of the lock.
  abbrev Guarded : State × List (Worker Func) → Type 0
  Guarded s = (count_inside s.1 ≤ held s.0) × (held s.0 ≤ 1)

  Step-Guarded : {s t : State × List (Worker Func)} → Step db table s t → Guarded s → Guarded t
  Step-Guarded (one before after w st) (h, b) =
      let (h', b') =
        take_step-Fits (count_inside (before ++ after)) w st
          (omega (arith, h, count_inside_lem before after w), b) in
      (omega (arith, h', count_inside_lem before after (take_step db table w st).1), b')

  Reaches-Guarded :
      {s t : State × List (Worker Func)} → Reaches db table s t → Guarded s → Guarded t
  Reaches-Guarded here h = h
  Reaches-Guarded (onward r last) h = Step-Guarded last (Reaches-Guarded r h)

  -- However the steps of processes that run `Migrate` interleave, at most one of them is between Lock
  -- and Unlock, if none is at the start and the lock has at most one row then.
  pub Reaches-IsExclusive :
      (st st' : State) (ws ws' : List (Worker Func))
      → count_inside ws ≡ 0
      → held st ≤ 1
      → Reaches db table (st, ws) (st', ws')
      → count_inside ws' ≤ 1
  Reaches-IsExclusive st st' ws ws' none_inside b r =
      let (h, b') = Reaches-Guarded r (omega (arith, none_inside), b) in omega (arith, h, b')
