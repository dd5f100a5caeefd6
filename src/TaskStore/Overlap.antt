-- ===== src/TaskStore/Overlap.antt =====
-- At most one run of a task is active at a time (store/tasks.go).
use mizu_panel.Prelude.{
  ℕ, ◌+◌, ◌≤◌, ◌≡◌, refl, sym, ap, true, not, some, List, [], ◌∷◌, arith, ltb, ◌==◌, ==_iff, length,
  count_if, Bool-cases, inl, inr,
}
use mathlib.Core.Path.{subst}
use native.Mathlib.Nat.{le_refl}
use mizu_panel.Prelude.Result.{ok}
use mizu_panel.TaskStore.Model.{
  TaskRun, RunTarget, TaskRunDetail, RunTargetResult, Db, is_active_run, is_active_target,
}
use mizu_panel.Tables.{
  count_if-append, count_if-update_where-le, count_if-le-update_where, All-map, All-All,
  select-update_where, length-update_where,
}
use mizu_panel.TaskStore.Runs.{of_run, aggregated, completed_count}
use mizu_panel.TaskStore.Transitions.{runs_on, started_run, marked, ends, ended_target, completed}
use mizu_panel.TaskStore.Claims.{active_for, active_runs, claim_due_task, create_manual_task_run}
use mizu_panel.TaskStore.Claimed.{claim_due_task-Claimed, create_manual_task_run-Started}
use mizu_panel.TaskStore.Consistent.{Agrees, IsConsistent, aggregated-Agrees, aggregated-task_id}
use mizu_panel.TaskStore.Preserved.{regrouped, ended_target-run_id}

abbrev pub IsExclusive : Db → Type 0
IsExclusive db = (t : ℕ) → active_runs t db ≤ 1

added :
    (t i : ℕ) (db : Db) (r : TaskRun)
    → active_runs t db ≤ 1
    → ((k : ℕ) × (r.task_id ≡ some k) × ((k == i) ≡ true))
    → (is_active_run r.status ≡ true → active_runs i db ≡ 0)
    → active_runs t db + count_if (active_for t) (r ∷ []) ≤ 1
added t i db r h (k, e, same) idle = elim (Bool-cases (active_for t r)) [
  | inl on ↦
      let here : i ≡ t = ground (arith, e) in
      let none_yet = rw here at (idle (ground arith)) in rw on (omega arith)
  | inr off ↦ rw off (omega arith)
]

-- A successful claim leaves at most one active run of each task if there was at most one of each
-- before.
pub claim_due_task-IsExclusive :
    (db db' : Db) (task_id due next at now : ℕ) (d : TaskRunDetail)
    → IsExclusive db
    → claim_due_task db task_id due next at now ≡ ok (d, db')
    → IsExclusive db'
claim_due_task-IsExclusive db db' i due next at now d v h t =
    let c = claim_due_task-Claimed db db' i due next at now d h in
    omega (
      arith,
      ap (count_if (active_for t)) c.runs,
      count_if-append (active_for t) db.runs (d.run ∷ []),
      added t i db d.run (v t) c.task (λ a. ground (arith, c.status)),
    )

-- A successful manual run leaves at most one active run of each task if there was at most one of
-- each before.
pub create_manual_task_run-IsExclusive :
    (db db' : Db) (task_id at now : ℕ) (d : TaskRunDetail)
    → IsExclusive db
    → create_manual_task_run db task_id at now ≡ ok (d, db')
    → IsExclusive db'
create_manual_task_run-IsExclusive db db' i at now d v h t =
    let c = create_manual_task_run-Started db db' i at now d h in
    omega (
      arith,
      ap (count_if (active_for t)) c.runs,
      count_if-append (active_for t) db.runs (d.run ∷ []),
      added t i db d.run (v t) c.task (λ a. c.idle),
    )

-- The start of a target makes no run active that was not.
pub marked-IsExclusive :
    (db : Db) (target_id run_id at : ℕ)
    → IsExclusive db
    → IsExclusive (marked db target_id run_id at)
marked-IsExclusive db i k at v t = omega (
  arith,
  v t,
  count_if-update_where-le (active_for t) (runs_on k) (started_run at) db.runs
      (All-All _ db.runs (λ r h a. ground arith)),
)

-- A run whose aggregation leaves it active was active before, if no target came back to life.
aggregated_active :
    (t at : ℕ) (r : TaskRun) (ts us : List RunTarget)
    → Agrees r ts
    → length us ≡ length ts
    → completed_count ts ≤ completed_count us
    → active_for t (aggregated us at r) ≡ true
    → active_for t r ≡ true
aggregated_active t at r ts us a n c act =
    let new : is_active_run (aggregated us at r).status ≡ ltb (completed_count us) (length us) =
      (aggregated-Agrees us at r).active in
    let owner = aggregated-task_id us at r in ground (arith, new, owner, a.active)

completed_grows :
    (db : Db) (i at k : ℕ) (res : RunTargetResult)
    → (length (of_run k (completed db i res at).targets) ≡ length (of_run k db.targets))
      × (completed_count (of_run k db.targets)
          ≤ completed_count (of_run k (completed db i res at).targets))
completed_grows db i at k res =
    rw
      (select-update_where (λ t. t.run_id == k) (ends i) (ended_target res at) db.targets
        (λ t. ap (λ n. n == k) (ended_target-run_id res at t)))
      (
        length-update_where (ends i) (ended_target res at) _,
        count_if-le-update_where (λ t. not (is_active_target t.status)) (ends i)
            (ended_target res at) _ (λ t h n. absurd (ground arith)),
      )

-- Nor does the end of a target, which aggregates its run anew.
pub ended-IsExclusive :
    (db : Db) (target_id run_id at : ℕ) (res : RunTargetResult)
    → IsConsistent db
    → IsExclusive db
    → IsExclusive (regrouped (completed db target_id res at) run_id at)
ended-IsExclusive db i k at res c v t =
    let us = (completed db i res at).targets in
    omega (
      arith,
      v t,
      count_if-update_where-le (active_for t) (λ r. r.id == k) (aggregated (of_run k us) at) db.runs
          (All-map (λ r. Agrees r (of_run r.id db.targets)) _ db.runs
            (λ r a hit act.
              let (n, grown) = completed_grows db i at r.id res in
              aggregated_active t at r (of_run r.id db.targets) (of_run r.id us) a n grown (
                subst (λ m. active_for t (aggregated (of_run m us) at r) ≡ true)
                  (sym ((==_iff r.id k).0 hit)) act))
            c.agrees),
    )

-- Nor does an aggregation by itself.
pub regrouped-IsExclusive :
    (db : Db) (run_id at : ℕ)
    → IsConsistent db
    → IsExclusive db
    → IsExclusive (regrouped db run_id at)
regrouped-IsExclusive db k at c v t = omega (
  arith,
  v t,
  count_if-update_where-le (active_for t) (λ r. r.id == k) (aggregated (of_run k db.targets) at)
      db.runs
      (All-map (λ r. Agrees r (of_run r.id db.targets)) _ db.runs
        (λ r a hit act.
          aggregated_active t at r (of_run r.id db.targets) (of_run r.id db.targets) a refl
            (le_refl _)
            (subst (λ m. active_for t (aggregated (of_run m db.targets) at r) ≡ true)
              (sym ((==_iff r.id k).0 hit)) act))
        c.agrees),
)
