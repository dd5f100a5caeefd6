-- ===== src/TaskStore/Claimed.antt =====
-- What a claim of a due occurrence and a manual run have done (store/tasks.go: ClaimDueTask,
-- CreateManualTaskRun).
use mizu_panel.Prelude.{
  ℕ, ◌≡◌, refl, ap, ◌∙◌, Bool, true, false, Option, none, some, List, [], ◌∷◌, ◌++◌, arith, ◌==◌,
  if◌then◌else◌, length, count_if, Bool-cases, Option-cases, inl, inr, ◌<◌,
}
use mizu_panel.Prelude.Result.{Result, ok, err}
use mizu_panel.TaskStore.Model.{
  RunStatus, TargetStatus, Trigger, StoreError, claim_lost, duplicate_write, AutomationScript,
  ScheduledTask, TaskRun, TaskRunDetail, RunTargetSnapshot, Db, at_or_now,
}
use mizu_panel.Tables.{find_first, update_where}
use mizu_panel.TaskStore.Runs.{run_row, create_task_run_tx, ascii}
use mizu_panel.TaskStore.Consistent.{IsConsistent}
use mizu_panel.TaskStore.Claims.{
  has_active_task_run_tx, active_runs, load_run_target_snapshots_tx, claims, claimed_task,
  run_of_task, duplicate_as_lost, check_claim, create_claimed_run, claim_due_task,
  create_manual_task_run,
}
use mizu_panel.TaskStore.Created.{Created, create_task_run_tx-Created, Starts, Created-IsConsistent}

-- The status that a scheduled run is created with.
abbrev claimed_status : Db → ℕ → RunStatus
claimed_status db task_id =
    if has_active_task_run_tx db task_id then RunStatus.skipped else RunStatus.queued

-- What a successful claim has done: the occurrence was still there, it is taken, and one run for it
-- is there, queued or skipped.
pub record Claimed (db db' : Db) (task_id due next at : ℕ) (d : TaskRunDetail) : Type 0 where
  pub there : count_if (claims task_id due (next == 0)) db.tasks ≡ 1
  pub checked : check_claim task_id due next at ≡ ok tt
  pub tasks :
      db'.tasks ≡ update_where (claims task_id due (next == 0)) (claimed_task due next at) db.tasks
  pub runs : db'.runs ≡ db.runs ++ d.run ∷ []
  pub status : d.run.status ≡ claimed_status db task_id
  pub task : (t : ℕ) × (d.run.task_id ≡ some t) × ((t == task_id) ≡ true)
  pub occurrence : d.run.scheduled_for ≡ some due
  pub consistent : IsConsistent db → IsConsistent db'

lost_or_ok {ℓ} :
    {A : Type ℓ} (r : Result StoreError A) {a : A} → duplicate_as_lost r ≡ ok a → r ≡ ok a
lost_or_ok (ok a) h = h
lost_or_ok (err duplicate_write) h = cc
lost_or_ok (err (claim_lost s)) h = cc
lost_or_ok (err e) h = cc

find_first_hit :
    (i : ℕ) (ts : List ScheduledTask) {t : ScheduledTask}
    → find_first (λ q. q.id == i) ts ≡ some t
    → (t.id == i) ≡ true
find_first_hit i [] h = cc
find_first_hit i (x ∷ xs) {t} h = elim (Bool-cases (x.id == i)) [
  | inl hit ↦ ground (arith, hit)
  | inr miss ↦ find_first_hit i xs (rw miss at h)
]

-- `db` is the database after the UPDATE of the claim.
create_claimed_run-Created :
    (db db' : Db) (i due at : ℕ) (d : TaskRunDetail)
    → create_claimed_run db i due at ≡ ok (d, db')
    → (task : ScheduledTask) × (script : AutomationScript) × ((task.id == i) ≡ true)
      × Created db db'
          (run_of_task task script Trigger.scheduled
            (some due)
            (claimed_status db i)
            (if has_active_task_run_tx db i then "overlap" else ""))
          (load_run_target_snapshots_tx db i)
          (if has_active_task_run_tx db i then TargetStatus.skipped else TargetStatus.queued)
          at
          d
      × (0 < length (load_run_target_snapshots_tx db i))
unfolding create_claimed_run
create_claimed_run-Created db db' i due at d h =
    elim (Option-cases (find_first (λ t. t.id == i) db.tasks)) [
      | inl e ↦ absurd (ground (arith, e))
      | inr (task, e) ↦ elim (Option-cases (find_first (λ s. s.id == task.script_id) db.scripts)) [
        | inl f ↦ absurd (ground (arith, e, f))
        | inr (script, f) ↦ (
          task,
          script,
          find_first_hit i db.tasks e,
          create_task_run_tx-Created db db' _ _ _ _ at d (
              lost_or_ok
                (create_task_run_tx db
                  (run_of_task task script Trigger.scheduled (some due) (claimed_status db i)
                    (if has_active_task_run_tx db i then "overlap" else ""))
                  (load_run_target_snapshots_tx db i)
                  (if has_active_task_run_tx db i
                    then TargetStatus.skipped
                    else TargetStatus.queued)
                  (if has_active_task_run_tx db i then ascii "overlap" else []) at)
                (ground (arith, e, f))),
          ground (arith, e, f),
        )
      ]
    ]

-- The columns of the row that the theorems speak of.
abbrev row_columns : TaskRun → RunStatus × Option ℕ × Option ℕ
row_columns r = (r.status, r.task_id, r.scheduled_for)

run_row-columns :
    (run : TaskRun) (id n : ℕ) (c : List ℕ) (at : ℕ)
    → row_columns (run_row run id n c at) ≡ row_columns run
unfolding run_row
run_row-columns run id n c at = refl

-- The tasks are no part of what consistency speaks of.
retasked :
    (db : Db) (ts : List ScheduledTask) → IsConsistent db → IsConsistent (record db { tasks = ts })
retasked db ts v = record {
  run_ids = v.run_ids;
  target_ids = v.target_ids;
  target_runs = v.target_runs;
  run_unique = v.run_unique;
  target_unique = v.target_unique;
  agrees = v.agrees;
}

claimed-Starts :
    (task : ScheduledTask) (script : AutomationScript) (due : ℕ) (busy : Bool) (n : ℕ)
    → 0 < n
    → Starts
        (run_of_task task script Trigger.scheduled
          (some due)
          (if busy then RunStatus.skipped else RunStatus.queued)
          (if busy then "overlap" else ""))
        (if busy then TargetStatus.skipped else TargetStatus.queued)
        n
claimed-Starts task script due true n h = inr (refl, refl)
claimed-Starts task script due false n h = inl (refl, refl, h)

-- The database after the UPDATE of the claim.
abbrev taken : Db → (task_id due next at : ℕ) → Db
taken db i due next at = record db {
  tasks = update_where (claims i due (next == 0)) (claimed_task due next at) db.tasks;
}

Claimed-from :
    (db db' : Db) (i due next at : ℕ) (d : TaskRunDetail) (task : ScheduledTask)
    (script : AutomationScript) (busy : Bool) (ss : List RunTargetSnapshot)
    → count_if (claims i due (next == 0)) db.tasks ≡ 1
    → check_claim i due next at ≡ ok tt
    → (task.id == i) ≡ true
    → busy ≡ has_active_task_run_tx db i
    → 0 < length ss
    → Created
        (taken db i due next at)
        db'
        (run_of_task task script Trigger.scheduled
          (some due)
          (if busy then RunStatus.skipped else RunStatus.queued)
          (if busy then "overlap" else ""))
        ss
        (if busy then TargetStatus.skipped else TargetStatus.queued)
        at
        d
    → Claimed db db' i due next at d
Claimed-from db db' i due next at d task script busy ss there checked hit e some_target c =
    let run : TaskRun =
      run_of_task task script Trigger.scheduled (some due)
        (if busy then RunStatus.skipped else RunStatus.queued) (if busy then "overlap" else "") in
    let columns : row_columns d.run ≡ row_columns run =
      ap row_columns c.row
      ∙ run_row-columns run db.next_run_id (length ss) run.notification_channels at in
    record {
      there = there;
      checked = checked;
      tasks = c.tasks;
      runs = c.runs;
      status =
          ap (λ x. x.0) columns ∙ ap (λ b. if b then RunStatus.skipped else RunStatus.queued) e;
      task = (task.id, ap (λ x. x.1) columns, hit);
      occurrence = ap (λ x. x.2) columns;
      consistent = λ v.
          Created-IsConsistent (taken db i due next at) db' run ss
            (if busy then TargetStatus.skipped else TargetStatus.queued) at d (retasked db _ v)
            (claimed-Starts task script due busy (length ss) some_target) c;
    }

pub claim_due_task-Claimed :
    (db db' : Db) (task_id due next at now : ℕ) (d : TaskRunDetail)
    → claim_due_task db task_id due next at now ≡ ok (d, db')
    → Claimed db db' task_id due next (at_or_now at now) d
unfolding claim_due_task
claim_due_task-Claimed db db' i due next at now d h =
    let (task, script, hit, c, some_target) =
      create_claimed_run-Created (taken db i due next (at_or_now at now)) db' i due
        (at_or_now at now) d (ground arith) in
    Claimed-from db db' i due next (at_or_now at now) d task script (has_active_task_run_tx db i)
      (load_run_target_snapshots_tx db i) (ground arith) (ground arith) hit refl some_target c

-- What a successful manual run has done.
pub record Started (db db' : Db) (task_id : ℕ) (d : TaskRunDetail) : Type 0 where
  pub tasks : db'.tasks ≡ db.tasks
  pub runs : db'.runs ≡ db.runs ++ d.run ∷ []
  pub idle : active_runs task_id db ≡ 0
  pub status : d.run.status ≡ RunStatus.queued
  pub task : (t : ℕ) × (d.run.task_id ≡ some t) × ((t == task_id) ≡ true)
  pub consistent : IsConsistent db → IsConsistent db'

pub create_manual_task_run-Started :
    (db db' : Db) (task_id at now : ℕ) (d : TaskRunDetail)
    → create_manual_task_run db task_id at now ≡ ok (d, db')
    → Started db db' task_id d
unfolding create_manual_task_run
create_manual_task_run-Started db db' i at now d h =
    elim (Option-cases (find_first (λ t. t.id == i) db.tasks)) [
      | inl e ↦ absurd (ground (arith, e))
      | inr (task, e) ↦ elim (Option-cases (find_first (λ s. s.id == task.script_id) db.scripts)) [
        | inl f ↦ absurd (ground (arith, e, f))
        | inr (script, f) ↦
            let run = run_of_task task script Trigger.manual none RunStatus.queued "" in
            let c =
              create_task_run_tx-Created db db' run (load_run_target_snapshots_tx db i)
                TargetStatus.queued [] (at_or_now at now) d (ground (arith, e, f)) in
            let columns = ap row_columns c.row ∙ run_row-columns _ _ _ _ _ in
            let targets : 0 < length (load_run_target_snapshots_tx db i) = ground (arith, e, f) in
            record {
              tasks = c.tasks;
              runs = c.runs;
              idle = ground (arith, e, f);
              status = ap (λ x. x.0) columns;
              task = (task.id, ap (λ x. x.1) columns, find_first_hit i db.tasks e);
              consistent = λ v.
                  Created-IsConsistent db db' run _ TargetStatus.queued (at_or_now at now) d v
                    (inl (refl, refl, targets)) c;
            }
      ]
    ]
