-- ===== src/TaskStore/Consistent.antt =====
-- What holds of the automation tables between two transactions of store/tasks.go: the counters of a
-- run agree with the states of its targets, and the generated ids are unique.
use mizu_panel.Prelude.{
  ℕ, ◌+◌, ◌≤◌, ◌<◌, ◌≡◌, refl, ap, Bool, true, not, Option, none, some, List, [], ◌∷◌, arith, ltb,
  ◌==◌, length, count_if, All, is_some,
}
use mizu_panel.TaskStore.Model.{
  TaskRun, RunTarget, Db, is_active_run, is_active_target, is_terminal_run_status, is_success,
  coalesce,
}
use mizu_panel.Tables.{
  update_where, length-update_where, select-update_where, count_if-update_where,
}
use mizu_panel.TaskStore.Runs.{
  of_run, completed_count, success_count, aggregate_status, status_of, aggregated,
}

-- A run and its targets: the counters are the numbers of targets, of targets that have ended, and
-- of those that succeeded; the run is active exactly while some target has not ended; and it has an
-- end time exactly when its status is terminal.
pub record Agrees (r : TaskRun) (ts : List RunTarget) : Type 0 where
  pub total : r.total_targets ≡ length ts
  pub completed : r.completed_targets ≡ completed_count ts
  pub success : r.success_targets ≡ success_count ts
  pub failed : r.failed_targets + r.success_targets ≡ r.completed_targets
  pub active : is_active_run r.status ≡ ltb (completed_count ts) (length ts)
  pub ended : is_some r.completed_at ≡ is_terminal_run_status r.status

pub record IsConsistent (db : Db) : Type 0 where
  pub run_ids : All (λ r. r.id < db.next_run_id) db.runs
  pub target_ids : All (λ t. t.id < db.next_target_id) db.targets
  pub target_runs : All (λ t. t.run_id < db.next_run_id) db.targets
  pub run_unique : (i : ℕ) → count_if (λ r. r.id == i) db.runs ≤ 1
  pub target_unique : (i : ℕ) → count_if (λ t. t.id == i) db.targets ≤ 1
  pub agrees : All (λ r. Agrees r (of_run r.id db.targets)) db.runs

aggregate_status_active :
    (total completed succeeded skipped interrupted running : ℕ)
    → is_active_run (aggregate_status total completed succeeded skipped interrupted running)
      ≡ ltb completed total
unfolding aggregate_status
aggregate_status_active total completed succeeded skipped interrupted running = ground arith

success-le-completed : (ts : List RunTarget) → success_count ts ≤ completed_count ts
success-le-completed [] = omega arith
success-le-completed (t ∷ ts) = ground (arith, success-le-completed ts)

coalesce_some : (x : Option ℕ) (n : ℕ) → is_some (coalesce x n) ≡ true
coalesce_some none n = refl
coalesce_some (some m) n = refl

-- The row that aggregateRunTx writes agrees with any list of targets that it was computed from,
-- whatever the row held: the counters are the counts of the targets, the failed ones are the
-- completed ones less the successful ones, the status is active exactly while fewer targets are
-- completed than there are, and completed_at is set exactly when the status is terminal.
pub aggregated-Agrees :
    (ts : List RunTarget) (at : ℕ) (r : TaskRun) → Agrees (aggregated ts at r) ts
unfolding aggregated status_of
aggregated-Agrees ts at r = record {
  total = refl;
  completed = refl;
  success = refl;
  failed = omega (arith, success-le-completed ts);
  active = aggregate_status_active _ _ _ _ _ _;
  ended = ground (arith, coalesce_some r.completed_at at);
}

pub aggregated-id : (ts : List RunTarget) (at : ℕ) (r : TaskRun) → (aggregated ts at r).id ≡ r.id
unfolding aggregated
aggregated-id ts at r = refl

pub aggregated-task_id :
    (ts : List RunTarget) (at : ℕ) (r : TaskRun) → (aggregated ts at r).task_id ≡ r.task_id
unfolding aggregated
aggregated-task_id ts at r = refl

Agrees-same :
    (r : TaskRun) (ts us : List RunTarget)
    → length us ≡ length ts
    → completed_count us ≡ completed_count ts
    → success_count us ≡ success_count ts
    → Agrees r ts
    → Agrees r us
Agrees-same r ts us n c s a = record {
  total = omega (arith, a.total);
  completed = omega (arith, a.completed);
  success = omega (arith, a.success);
  failed = a.failed;
  active = rw (n, c) a.active;
  ended = a.ended;
}

-- A change of targets that keeps which of them have ended, and which have succeeded, keeps a run in
-- agreement with them.
pub Agrees-of_run :
    (r : TaskRun) (k : ℕ) (p : RunTarget → Bool) (f : RunTarget → RunTarget) (ts : List RunTarget)
    → ((t : RunTarget) → (f t).run_id ≡ t.run_id)
    → ((t : RunTarget) → p t ≡ true → is_active_target (f t).status ≡ is_active_target t.status)
    → ((t : RunTarget) → p t ≡ true → is_success (f t).status ≡ is_success t.status)
    → Agrees r (of_run k ts)
    → Agrees r (of_run k (update_where p f ts))
Agrees-of_run r k p f ts same act won a =
    rw (select-update_where (λ t. t.run_id == k) p f ts (λ t. ap (λ n. n == k) (same t))) (
      Agrees-same r _ _ (length-update_where p f _)
        (count_if-update_where _ p f _ (λ t h. ap not (act t h)))
        (count_if-update_where _ p f _ won) a)

-- An UPDATE that leaves the ids alone leaves them unique.
pub unique-update_where {ℓ} :
    {A : Type ℓ} (id : A → ℕ) (p : A → Bool) (f : A → A) (xs : List A)
    → ((x : A) → id (f x) ≡ id x)
    → ((i : ℕ) → count_if (λ x. id x == i) xs ≤ 1)
    → (i : ℕ) → count_if (λ x. id x == i) (update_where p f xs) ≤ 1
unique-update_where id p f xs same u i =
    rw (count_if-update_where (λ x. id x == i) p f xs (λ x h. ap (λ n. n == i) (same x))) (u i)
