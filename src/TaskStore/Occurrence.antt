-- ===== src/TaskStore/Occurrence.antt =====
-- A scheduled occurrence is claimed once (store/tasks.go: ClaimDueTask).
use mizu_panel.Prelude.{
  ℕ, ◌≤◌, ◌<◌, ◌≡◌, ◌≢◌, ap, Bool, true, false, List, [], ◌∷◌, arith, ◌==◌, if◌then◌else◌, count_if,
  Bool-cases, inl, inr,
}
use mizu_panel.Prelude.Result.{ok}
use mizu_panel.TaskStore.Model.{ScheduledTask, TaskRunDetail, Db, at_or_now}
use mizu_panel.Tables.{update_where, count_if_zero, count_if_none, count_if_mono, All-update_where}
use mizu_panel.TaskStore.Claims.{claims, claimed_task, check_claim, claim_due_task}
use mizu_panel.TaskStore.Claimed.{claim_due_task-Claimed}

-- The new next time is past the occurrence, or there is none.
check_claim-later :
    (i due next at : ℕ) → check_claim i due next at ≡ ok tt → (next == 0) ≡ false → due < next
unfolding check_claim
check_claim-later i due next at h n = ground arith

-- A row that was claimed can not be claimed for that occurrence again.
claimed_not_due :
    (i due next at : ℕ) (again : Bool) (t : ScheduledTask)
    → check_claim i due next at ≡ ok tt
    → claims i due (next == 0) t ≡ true
    → claims i due again (claimed_task due next at t) ≡ false
claimed_not_due i due next at again t valid h =
    ground (arith, check_claim-later i due next at valid)

claims_id :
    (i due : ℕ) (b : Bool) (t : ScheduledTask) → claims i due b t ≡ true → (t.id == i) ≡ true
claims_id i due b t h = ground arith

other_not_due :
    (i due : ℕ) (again : Bool) (t : ScheduledTask)
    → (t.id == i) ≡ false
    → claims i due again t ≡ false
other_not_due i due again t h = ground arith

unclaimed_other :
    (i due next at : ℕ) (again : Bool) (t : ScheduledTask)
    → (t.id == i) ≡ false
    → claims i due again (if claims i due (next == 0) t then claimed_task due next at t else t)
      ≡ false
unclaimed_other i due next at again t h = ground arith

none_due :
    (i due next at : ℕ) (again : Bool) (ts : List ScheduledTask)
    → check_claim i due next at ≡ ok tt
    → count_if (λ t. t.id == i) ts ≤ 1
    → count_if (claims i due (next == 0)) ts ≡ 1
    → count_if
        (claims i due again)
        (update_where (claims i due (next == 0)) (claimed_task due next at) ts)
      ≡ 0
none_due i due next at again [] valid u h = absurd (omega arith)
none_due i due next at again (t ∷ ts) valid u h = elim (Bool-cases (claims i due (next == 0) t)) [
  | inl hit ↦
      let others = count_if_zero (λ q. q.id == i) ts (ground arith) in
      let rest : count_if (claims i due again)
            (update_where (claims i due (next == 0)) (claimed_task due next at) ts)
          ≡ 0 =
        count_if_none (claims i due again) _ (
          All-update_where (λ q. (q.id == i) ≡ false) (λ q. claims i due again q ≡ false)
            (claims i due (next == 0)) (claimed_task due next at) ts
            (λ q ne. unclaimed_other i due next at again q ne) others) in
      rw (hit, claimed_not_due i due next at again t valid hit) rest
  | inr miss ↦
      let found : count_if (claims i due (next == 0)) ts ≡ 1 = rw miss at h in
      let rest = none_due i due next at again ts valid (ground arith) found in
      let some_other =
        count_if_mono (claims i due (next == 0)) (λ q. q.id == i) ts
          (λ q c. claims_id i due _ q c) in
      let away : (t.id == i) ≡ false = ground (arith, some_other, found) in
      rw (miss, other_not_due i due again t away) rest
]

-- Where at most one row of scheduled_tasks has the task's id: once an occurrence of a task has been
-- claimed, no claim of the same occurrence made on the tables that the claim left succeeds,
-- whatever next time and instant it is given.
pub claim_due_task_once :
    (db db' : Db) (task_id due next at now : ℕ) (d : TaskRunDetail)
    → count_if (λ t. t.id == task_id) db.tasks ≤ 1
    → claim_due_task db task_id due next at now ≡ ok (d, db')
    → (next' at' now' : ℕ) (d' : TaskRunDetail) (db'' : Db)
    → claim_due_task db' task_id due next' at' now' ≢ ok (d', db'')
claim_due_task_once db db' i due next at now d u h next' at' now' d' db'' k =
    let first = claim_due_task-Claimed db db' i due next at now d h in
    let second = claim_due_task-Claimed db' db'' i due next' at' now' d' k in
    absurd (
      omega (
        arith,
        none_due i due next (at_or_now at now) (next' == 0) db.tasks first.checked u first.there,
        second.there,
        ap (count_if (claims i due (next' == 0))) first.tasks,
      ))
