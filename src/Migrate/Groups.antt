-- ===== src/Migrate/Groups.antt =====
-- The groups of migrations in migrate/migration.go and migrate/migrator.go.
use uptrace_bun.Prelude.{
  ℕ, ◌+◌, ◌-◌, ◌%◌, ◌^◌, ◌≤◌, ◌<◌, Bool, true, false, not, ◌&&◌, List, [], ◌∷◌, Option, none, some,
  Bytes, ltb, ◌==◌, ==_iff, ==_false_iff, if◌then◌else◌, equal, inl, inr, All, ◌⊎◌, ◌≡◌, ◌≢◌, refl,
  sym, ◌∙◌, arith,
}
use uptrace_bun.Migrate.{
  Migration, later, find_applied, or_registered, with_status, last_group_id_from, last_group_id,
  in_group, last_group, next_group_id, biased,
}

biased_zero : biased 0 < 2 ^ 64 - 1
unfolding biased
biased_zero = omega arith

module _ {Func : Type 0} where
  larger : ℕ → Migration Func → ℕ
  unfolding biased
  larger last m =
      if not (m.group_id == 0) && ltb (biased last) (biased m.group_id) then m.group_id else last

  -- A bound on the int64s of the ids.
  abbrev IsAtMost : ℕ → Migration Func → Type 0
  IsAtMost last m = (m.group_id ≡ 0) ⊎ (biased m.group_id ≤ biased last)

  larger-le :
      (last : ℕ) (m : Migration Func)
      → (biased last ≤ biased (larger last m)) × IsAtMost (larger last m) m
  unfolding larger
  larger-le last m = (ground arith, ground arith)

  larger-bound :
      (last : ℕ) (m : Migration Func) (n : ℕ)
      → biased last < n
      → biased m.group_id < n
      → biased (larger last m) < n
  unfolding larger
  larger-bound last m n h k = ground arith

  IsAtMost-le : (a b : ℕ) (m : Migration Func) → biased a ≤ biased b → IsAtMost a m → IsAtMost b m
  IsAtMost-le a b m h (inl e) = inl e
  IsAtMost-le a b m h (inr k) = inr (omega (arith, h, k))

  last_group_id_from-le :
      (last : ℕ) (ms : List (Migration Func))
      → (biased last ≤ biased (last_group_id_from last ms))
        × All (IsAtMost (last_group_id_from last ms)) ms
  unfolding last_group_id_from larger
  last_group_id_from-le last [] = (omega arith, tt)
  last_group_id_from-le last (m ∷ ms) =
      let (le, all) = last_group_id_from-le (larger last m) ms in
      let (le_last, le_m) = larger-le last m in
      (
        omega (arith, le, le_last),
        (IsAtMost-le (larger last m) (last_group_id_from (larger last m) ms) m le le_m, all),
      )

  last_group_id_from-bound :
      (last : ℕ) (ms : List (Migration Func)) (n : ℕ)
      → biased last < n
      → All (λ m. biased m.group_id < n) ms
      → biased (last_group_id_from last ms) < n
  unfolding last_group_id_from larger
  last_group_id_from-bound last [] n h k = h
  last_group_id_from-bound last (m ∷ ms) n h (km, k) =
      last_group_id_from-bound (larger last m) ms n (larger-bound last m n h km) k

  next-lt :
      (last : ℕ) (m : Migration Func)
      → biased 0 ≤ biased last
      → biased last < 2 ^ 64 - 1
      → IsAtMost last m
      → biased m.group_id < biased ((last + 1) % 2 ^ 64)
  unfolding biased
  next-lt last m z h (inl e) = omega (arith, z, h, e)
  next-lt last m z h (inr k) = omega (arith, z, h, k)

  All-lt :
      (last : ℕ) (ms : List (Migration Func))
      → biased 0 ≤ biased last
      → biased last < 2 ^ 64 - 1
      → All (IsAtMost last) ms
      → All (λ m. biased m.group_id < biased ((last + 1) % 2 ^ 64)) ms
  All-lt last [] z k h = tt
  All-lt last (m ∷ ms) z k (h, hs) = (next-lt last m z k h, All-lt last ms z k hs)

  -- If no group has the largest int64 as its id, the id that `Migrate` gives to the migrations that
  -- it applies is larger, in the order of int64, than every group id so far, so they make a group of
  -- their own.
  pub next_group_id-fresh :
      (ms : List (Migration Func))
      → All (λ m. biased m.group_id < 2 ^ 64 - 1) ms
      → All (λ m. biased m.group_id < biased (next_group_id ms)) ms
  unfolding next_group_id last_group_id
  next_group_id-fresh ms h =
      let (le, all) = last_group_id_from-le 0 ms in
      All-lt (last_group_id ms) ms le (last_group_id_from-bound 0 ms (2 ^ 64 - 1) biased_zero h) all

  -- A registered migration has no group, and a row has no function.
  abbrev pub IsIdle : Migration Func → Type 0
  IsIdle m = (m.group_id ≡ 0) ⊎ (m.down ≡ none)

  abbrev IsRow : Option (Migration Func) → Type 0
  IsRow none = Unit
  IsRow (some r) = r.down ≡ none

  later-IsRow :
      (o : Option (Migration Func)) (matches : Bool) (r : Migration Func)
      → IsRow o
      → r.down ≡ none
      → IsRow (later o matches r)
  unfolding later
  later-IsRow (some found) matches r h hr = h
  later-IsRow none true r h hr = hr
  later-IsRow none false r h hr = tt

  find_applied-IsRow :
      (name : Bytes) (applied : List (Migration Func))
      → All (λ r. r.down ≡ none) applied
      → IsRow (find_applied name applied)
  unfolding find_applied
  find_applied-IsRow name [] h = tt
  find_applied-IsRow name (r ∷ applied) (hr, h) =
      later-IsRow (find_applied name applied) (equal r.name name) r
        (find_applied-IsRow name applied h) hr

  or_registered-IsIdle :
      (m : Migration Func) (o : Option (Migration Func))
      → m.group_id ≡ 0
      → IsRow o
      → IsIdle (or_registered m o)
  unfolding or_registered
  or_registered-IsIdle m none hm h = inl hm
  or_registered-IsIdle m (some r) hm h = inr h

  with_status-IsIdle :
      (sorted applied : List (Migration Func))
      → All (λ m. m.group_id ≡ 0) sorted
      → All (λ r. r.down ≡ none) applied
      → All IsIdle (with_status sorted applied)
  unfolding with_status
  with_status-IsIdle [] applied hs h = tt
  with_status-IsIdle (m ∷ sorted) applied (hm, hs) h = (
    or_registered-IsIdle m (find_applied m.name applied) hm (find_applied-IsRow m.name applied h),
    with_status-IsIdle sorted applied hs h,
  )

  kept :
      (b : Bool) (m : Migration Func) (rest : List (Migration Func))
      → (b ≡ true → m.down ≡ none)
      → All (λ r. r.down ≡ none) rest
      → All (λ r. r.down ≡ none) (if b then m ∷ rest else rest)
  kept true m rest h hs = (h refl, hs)
  kept false m rest h hs = hs

  member_down :
      (n : ℕ) (m : Migration Func) → n ≢ 0 → IsIdle m → m.group_id == n ≡ true → m.down ≡ none
  member_down n m h (inl z) e = absurd (h (sym ((==_iff m.group_id n).0 e) ∙ z))
  member_down n m h (inr d) e = d

  in_group_down :
      (n : ℕ) (ms : List (Migration Func))
      → n ≢ 0
      → All IsIdle ms
      → All (λ m. m.down ≡ none) (in_group n ms)
  unfolding in_group
  in_group_down n [] h idle = tt
  in_group_down n (m ∷ ms) h (i, idle) =
      kept (m.group_id == n) m (in_group n ms) (member_down n m h i) (in_group_down n ms h idle)

  group_down :
      (n : ℕ) (b : Bool) (ms : List (Migration Func))
      → n == 0 ≡ b
      → All IsIdle ms
      → All (λ m. m.down ≡ none) (if b then [] else in_group n ms)
  group_down n true ms e idle = tt
  group_down n false ms e idle = in_group_down n ms ((==_false_iff n 0).0 e) idle

  -- If the registered migrations have no group and the rows of the table have no functions, no
  -- migration in the last group has a Down function.
  pub last_group-with_status :
      (sorted applied : List (Migration Func))
      → All (λ m. m.group_id ≡ 0) sorted
      → All (λ r. r.down ≡ none) applied
      → All (λ m. m.down ≡ none) ((last_group (with_status sorted applied)).migrations)
  unfolding last_group
  last_group-with_status sorted applied hs h =
      group_down (last_group_id (with_status sorted applied))
        (last_group_id (with_status sorted applied) == 0) (with_status sorted applied) refl
        (with_status-IsIdle sorted applied hs h)
