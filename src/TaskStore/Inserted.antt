-- ===== src/TaskStore/Inserted.antt =====
-- A new run starts in agreement with its targets (store/tasks.go: createTaskRunTx).
use mathlib.Core.List.{append_assoc, append-nil}
use mizu_panel.Prelude.{
  ℕ, suc, ◌≤◌, ◌<◌, ◌≡◌, refl, sym, ap, ◌∙◌, true, Option, List, [], ◌∷◌, ◌++◌, arith, ◌==◌, ==_iff,
  if◌then◌else◌, length, count_if, All, All-append, Bool-cases, inl, inr,
}
use mizu_panel.Prelude.Result.{ok}
use mizu_panel.TaskStore.Model.{
  RunStatus, TargetStatus, TaskRun, RunTarget, RunTargetSnapshot, Db, is_active_target, is_success,
}
use mizu_panel.Tables.{count_if-append, count_if_none, select-append, select_none, All-map}
use mizu_panel.TaskStore.Runs.{
  of_run, completed_count, success_count, has_target, new_target, add_target, insert_targets,
  run_row,
}
use mizu_panel.TaskStore.Consistent.{Agrees}

-- New targets of run `k`, each with status `st`.
abbrev pub Fresh : ℕ → TargetStatus → List RunTarget → Type 0
Fresh k st = All (λ t. ((t.run_id == k) ≡ true) × (t.status ≡ st))

-- What the loop of inserts has done: `n` fresh rows at the end, all ids still unique.
pub record Inserted (db db' : Db) (k n : ℕ) (st : TargetStatus) : Type 0 where
  pub rows : List RunTarget
  pub targets : db'.targets ≡ db.targets ++ rows
  pub count : length rows ≡ n
  pub fresh : Fresh k st rows
  pub ids : All (λ t. t.id < db'.next_target_id) db'.targets
  pub unique : (i : ℕ) → count_if (λ t. t.id == i) db'.targets ≤ 1

-- A row with the next generated id keeps the ids unique.
pub below_unique {ℓ} :
    {A : Type ℓ} (id : A → ℕ) (n : ℕ) (row : A) (xs : List A)
    → id row ≡ n
    → All (λ x. id x < n) xs
    → ((i : ℕ) → count_if (λ x. id x == i) xs ≤ 1)
    → (i : ℕ) → count_if (λ x. id x == i) (xs ++ row ∷ []) ≤ 1
below_unique id n row xs e below u i =
    let sum = count_if-append (λ x. id x == i) xs (row ∷ []) in
    elim (Bool-cases (id row == i)) [
      | inl hit ↦
          let others =
            count_if_none (λ x. id x == i) xs
              (All-map (λ x. id x < n) _ xs (λ x h. ground arith) below) in
          ground (arith, sum, others)
      | inr miss ↦ ground (arith, sum, u i)
    ]

pub insert_targets-Inserted :
    (db db' : Db) (k : ℕ) (ss : List RunTargetSnapshot) (st : TargetStatus) (e : List ℕ)
    (c : Option ℕ) (at : ℕ) (done all : List RunTarget)
    → All (λ t. t.id < db.next_target_id) db.targets
    → ((i : ℕ) → count_if (λ t. t.id == i) db.targets ≤ 1)
    → insert_targets db k ss st e c at done ≡ ok (all, db')
    → Inserted db db' k (length ss) st
unfolding insert_targets
insert_targets-Inserted db db' k [] st e c at done all below u h =
    let same : db ≡ db' = cc in
    rw (← same) (record {
      rows = [];
      targets = sym (append-nil db.targets);
      count = refl;
      fresh = tt;
      ids = below;
      unique = u;
    })
insert_targets-Inserted db db' k (s ∷ ss) st e c at done all below u h =
    elim (Bool-cases (has_target k s.node_id db.targets)) [
      | inl dup ↦ absurd (ground (arith, dup))
      | inr free ↦
          let row = new_target db.next_target_id k s st e c at in
          let rest =
            insert_targets-Inserted (add_target row db) db' k ss st e c at (done ++ row ∷ []) all
              (All-append _ db.targets (row ∷ [])
                (All-map _ _ db.targets (λ t l. omega arith) below) (omega arith, tt))
              (below_unique (λ t. t.id) db.next_target_id row db.targets refl below u)
              (rw (free, insert_targets) at h) in
          record {
            rows = row ∷ rest.rows;
            targets = rest.targets ∙ append_assoc db.targets (row ∷ []) rest.rows;
            count = ap suc rest.count;
            fresh = (((==_iff k k).1 refl, refl), rest.fresh);
            ids = rest.ids;
            unique = rest.unique;
          }
    ]

Fresh-of_run : (k : ℕ) (st : TargetStatus) (ts : List RunTarget) → Fresh k st ts → of_run k ts ≡ ts
Fresh-of_run k st [] f = refl
Fresh-of_run k st (t ∷ ts) f = ground (arith, f.0, Fresh-of_run k st ts f.1)

-- The targets of the new run are the fresh rows.
pub of_new_run :
    (db db' : Db) (k n : ℕ) (st : TargetStatus)
    → All (λ t. t.run_id < k) db.targets
    → (ins : Inserted db db' k n st) → of_run k db'.targets ≡ ins.rows
of_new_run db db' k n st below ins =
    ap (of_run k) ins.targets
    ∙ select-append (λ t. t.run_id == k) db.targets ins.rows
    ∙ ap (λ z. z ++ of_run k ins.rows)
        (select_none (λ t. t.run_id == k) db.targets
          (All-map _ _ db.targets (λ t l. ground arith) below))
    ∙ Fresh-of_run k st ins.rows ins.fresh

-- Those of any other run are what they were.
pub of_old_run :
    (db db' : Db) (k n m : ℕ) (st : TargetStatus)
    → m < k
    → Inserted db db' k n st
    → of_run m db'.targets ≡ of_run m db.targets
of_old_run db db' k n m st l ins =
    ap (of_run m) ins.targets
    ∙ select-append (λ t. t.run_id == m) db.targets ins.rows
    ∙ ap (◌++◌ (of_run m db.targets)) (
        select_none (λ t. t.run_id == m) ins.rows
          (All-map _ _ ins.rows (λ t f. ground (arith, f)) ins.fresh))
    ∙ append-nil _

counts-Fresh :
    (k : ℕ) (st : TargetStatus) (ts : List RunTarget)
    → Fresh k st ts
    → (completed_count ts ≡ (if is_active_target st then 0 else length ts))
      × (success_count ts ≡ (if is_success st then length ts else 0))
counts-Fresh k st [] f = ground arith
counts-Fresh k st (t ∷ ts) f = ground (arith, f.0, counts-Fresh k st ts f.1)

-- A queued run with queued targets, of which there is at least one.
pub queued-Agrees :
    (run : TaskRun) (k n at : ℕ) (c : List ℕ) (ts : List RunTarget)
    → run.status ≡ RunStatus.queued
    → 0 < n
    → length ts ≡ n
    → Fresh k TargetStatus.queued ts
    → Agrees (run_row run k n c at) ts
unfolding run_row
queued-Agrees run k n at c ts q pos e f = ground (arith, counts-Fresh k TargetStatus.queued ts f)

-- A skipped run with skipped targets.
pub skipped-Agrees :
    (run : TaskRun) (k n at : ℕ) (c : List ℕ) (ts : List RunTarget)
    → run.status ≡ RunStatus.skipped
    → length ts ≡ n
    → Fresh k TargetStatus.skipped ts
    → Agrees (run_row run k n c at) ts
unfolding run_row
skipped-Agrees run k n at c ts q e f = ground (arith, counts-Fresh k TargetStatus.skipped ts f)
