-- ===== src/TaskStore/Created.antt =====
-- What a transaction that creates a run has done (store/tasks.go: createTaskRunTx, ClaimDueTask,
-- CreateManualTaskRun).
use mizu_panel.Prelude.{
  ℕ, suc, ◌≡◌, refl, sym, ap, ◌∙◌, false, Option, List, [], ◌∷◌, ◌++◌, arith, ◌==◌, length,
  count_if, Bool-cases, inl, inr, ◌⊎◌, ◌<◌, ◌≤◌, All, All-append,
}
use mathlib.Core.Path.{subst}
use mizu_panel.Prelude.Result.{Result, ok, err, ◌>>=◌}
use mizu_panel.TaskStore.Model.{
  RunStatus, TargetStatus, StoreError, TaskRun, RunTarget, TaskRunDetail, RunTargetSnapshot, Db,
}
use mizu_panel.Tables.{All-map, All-both}
use mizu_panel.TaskStore.Runs.{
  marshal_task_channels, is_taken, has_target, new_target, add_target, insert_targets, run_row,
  of_run, add_run, create_task_run_tx,
}
use mizu_panel.TaskStore.Consistent.{Agrees, IsConsistent}
use mizu_panel.TaskStore.Inserted.{
  Fresh, Inserted, insert_targets-Inserted, of_new_run, of_old_run, queued-Agrees, skipped-Agrees,
  below_unique,
}

-- The inserts of targets touch no other table.
record SameButTargets (db db' : Db) : Type 0 where
  pub tasks : db'.tasks ≡ db.tasks
  pub runs : db'.runs ≡ db.runs
  pub next_run : db'.next_run_id ≡ db.next_run_id

insert_targets-SameButTargets :
    (db db' : Db) (k : ℕ) (ss : List RunTargetSnapshot) (st : TargetStatus) (e : List ℕ)
    (c : Option ℕ) (at : ℕ) (done all : List RunTarget)
    → insert_targets db k ss st e c at done ≡ ok (all, db')
    → SameButTargets db db'
unfolding insert_targets
insert_targets-SameButTargets db db' k [] st e c at done all h = ground arith
insert_targets-SameButTargets db db' k (s ∷ ss) st e c at done all h =
    elim (Bool-cases (has_target k s.node_id db.targets)) [
      | inl dup ↦ absurd (ground (arith, dup))
      | inr free ↦
          let row = new_target db.next_target_id k s st e c at in
          let rest =
            insert_targets-SameButTargets (add_target row db) db' k ss st e c at (done ++ row ∷ [])
              all (rw (free, insert_targets) at h) in
          record { tasks = rest.tasks; runs = rest.runs; next_run = rest.next_run }
    ]

-- A run was created: one new row, of the kind that was asked for.
pub record Created (db db' : Db) (run : TaskRun) (ss : List RunTargetSnapshot) (st : TargetStatus)
    (at : ℕ) (d : TaskRunDetail) : Type 0 where
  pub row : d.run ≡ run_row run db.next_run_id (length ss) run.notification_channels at
  pub next_run : db'.next_run_id ≡ suc db.next_run_id
  pub inserted : IsConsistent db → Inserted db db' db.next_run_id (length ss) st
  pub runs : db'.runs ≡ db.runs ++ d.run ∷ []
  pub tasks : db'.tasks ≡ db.tasks
  pub fresh : is_taken run db.runs ≡ false

inserted :
    (db db' : Db) (row : TaskRun) (r : Result StoreError (List RunTarget × Db)) (d : TaskRunDetail)
    → ◌>>=◌ {B = TaskRunDetail × Db} r
        (λ inserted. ok (record { run = row; targets = inserted.0 }, inserted.1))
      ≡ ok (d, db')
    → (r ≡ ok (d.targets, db')) × (d.run ≡ row)
inserted db db' row (ok (ts, e)) d h = (cc, cc)
inserted db db' row (err e) d h = cc

pub create_task_run_tx-Created :
    (db db' : Db) (run : TaskRun) (ss : List RunTargetSnapshot) (st : TargetStatus) (e : List ℕ)
    (at : ℕ) (d : TaskRunDetail)
    → create_task_run_tx db run ss st e at ≡ ok (d, db')
    → Created db db' run ss st at d
unfolding create_task_run_tx marshal_task_channels run_row
create_task_run_tx-Created db db' run ss st e at d h =
    let row = run_row run db.next_run_id (length ss) run.notification_channels at in
    let fresh : is_taken run db.runs ≡ false = ground arith in
    let tail : ◌>>=◌ {B = TaskRunDetail × Db}
          (insert_targets (add_run row db) row.id ss st e row.completed_at at [])
          (λ inserted. ok (record { run = row; targets = inserted.0 }, inserted.1))
        ≡ ok (d, db') =
      ground arith in
    let (done, same) = inserted db db' row _ d tail in
    let kept = insert_targets-SameButTargets _ db' _ ss st e _ at [] d.targets done in
    record {
      row = same;
      runs = kept.runs ∙ ap (λ x. db.runs ++ x ∷ []) (sym same);
      tasks = kept.tasks;
      fresh = fresh;
      next_run = kept.next_run;
      inserted = λ v.
          let i =
            insert_targets-Inserted (add_run row db) db' row.id ss st e _ at [] d.targets
              v.target_ids v.target_unique done in
          record {
            rows = i.rows;
            targets = i.targets;
            count = i.count;
            fresh = i.fresh;
            ids = i.ids;
            unique = i.unique;
          };
    }

-- The new run agrees with its targets: queued with at least one queued target, or skipped.
abbrev pub Starts : TaskRun → TargetStatus → ℕ → Type 0
Starts run st n =
    ((run.status ≡ RunStatus.queued) × (st ≡ TargetStatus.queued) × (0 < n))
    ⊎ ((run.status ≡ RunStatus.skipped) × (st ≡ TargetStatus.skipped))

row-Agrees :
    (run : TaskRun) (k n at : ℕ) (c : List ℕ) (st : TargetStatus) (ts : List RunTarget)
    → Starts run st n
    → length ts ≡ n
    → Fresh k st ts
    → Agrees (run_row run k n c at) ts
row-Agrees run k n at c st ts (inl (q, e, pos)) l f =
    queued-Agrees run k n at c ts q pos l (rw e at f)
row-Agrees run k n at c st ts (inr (q, e)) l f = skipped-Agrees run k n at c ts q l (rw e at f)

run_row-id : (run : TaskRun) (k n at : ℕ) (c : List ℕ) → (run_row run k n c at).id ≡ k
unfolding run_row
run_row-id run k n at c = refl

new_row-Agrees :
    (db db' : Db) (run : TaskRun) (ss : List RunTargetSnapshot) (st : TargetStatus) (at : ℕ)
    → IsConsistent db
    → Starts run st (length ss)
    → Inserted db db' db.next_run_id (length ss) st
    → let r = run_row run db.next_run_id (length ss) run.notification_channels at in
      Agrees r (of_run r.id db'.targets)
new_row-Agrees db db' run ss st at v s ins =
    let c = run.notification_channels in
    let row = run_row run db.next_run_id (length ss) c at in
    subst (λ n. Agrees row (of_run n db'.targets))
      (sym (run_row-id run db.next_run_id (length ss) at c))
      (subst (Agrees row) (sym (of_new_run db db' db.next_run_id (length ss) st v.target_runs ins))
        (row-Agrees run db.next_run_id (length ss) at c st ins.rows s ins.count ins.fresh))

-- A transaction that creates a run keeps the tables consistent.
pub Created-IsConsistent :
    (db db' : Db) (run : TaskRun) (ss : List RunTargetSnapshot) (st : TargetStatus) (at : ℕ)
    (d : TaskRunDetail)
    → IsConsistent db
    → Starts run st (length ss)
    → Created db db' run ss st at d
    → IsConsistent db'
Created-IsConsistent db db' run ss st at d v s c =
    let ins = c.inserted v in
    let id = ap (λ (r : TaskRun). r.id) c.row ∙ run_row-id run _ _ at _ in
    record {
      run_ids = subst (All (λ r. r.id < db'.next_run_id)) (sym c.runs) (
          All-append _ db.runs (d.run ∷ [])
            (All-map _ _ db.runs (λ r l. omega (arith, c.next_run)) v.run_ids)
            (omega (arith, id, c.next_run), tt));
      target_ids = ins.ids;
      target_runs = subst (All (λ t. t.run_id < db'.next_run_id)) (sym ins.targets) (
          All-append _ db.targets ins.rows
            (All-map _ _ db.targets (λ t l. omega (arith, c.next_run)) v.target_runs)
            (All-map _ _ ins.rows (λ t f. ground (arith, f.0, c.next_run)) ins.fresh));
      run_unique =
          subst (λ rs. (i : ℕ) → count_if (λ r. r.id == i) rs ≤ 1) (sym c.runs)
            (below_unique (λ r. r.id) db.next_run_id d.run db.runs id v.run_ids v.run_unique);
      target_unique = ins.unique;
      agrees = subst (All (λ r. Agrees r (of_run r.id db'.targets))) (sym c.runs) (
          All-append (λ r. Agrees r (of_run r.id db'.targets)) db.runs (d.run ∷ [])
            (All-map _ _ db.runs
              (λ r both.
                subst (Agrees r)
                  (sym (of_old_run db db' db.next_run_id (length ss) r.id st both.0 ins)) both.1)
              (All-both (λ r. r.id < db.next_run_id) (λ r. Agrees r (of_run r.id db.targets))
                db.runs v.run_ids v.agrees))
            (
              subst (λ r. Agrees r (of_run r.id db'.targets)) (sym c.row)
                  (new_row-Agrees db db' run ss st at v s ins),
              tt,
            ));
    }
