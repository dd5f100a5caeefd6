-- ===== src/TaskStore/Preserved.antt =====
-- The transactions on a run's targets keep the tables consistent (store/tasks.go:
-- CompleteRunTarget, AggregateRun).
use mizu_panel.Prelude.{
  ℕ, ◌≤◌, ◌<◌, ◌≡◌, refl, sym, ap, ◌∙◌, false, some, List, arith, ◌==◌, ==_iff, if◌then◌else◌,
  count_if, All, Bool-cases, Option-cases, inl, inr,
}
use mathlib.Core.Path.{subst}
use mizu_panel.Prelude.Result.{Result, ok, err, ◌>>=◌}
use mizu_panel.TaskStore.Model.{
  RunStatus, TaskRun, RunTarget, RunTargetResult, StoreError, Db, at_or_now,
}
use mizu_panel.Tables.{
  find_first, update_where, All-update_where, All-map, find_first-only, select-update_where_ne,
}
use mizu_panel.TaskStore.Runs.{of_run, aggregated, aggregate_run_tx, commit}
use mizu_panel.TaskStore.Transitions.{
  ends, ended_target, completed, finish, complete_run_target_tx, complete_run_target,
  aggregate_only, aggregate_run,
}
use mizu_panel.TaskStore.Consistent.{
  Agrees, IsConsistent, aggregated-Agrees, aggregated-id, unique-update_where,
}

ended_target-id :
    (res : RunTargetResult) (at : ℕ) (t : RunTarget) → (ended_target res at t).id ≡ t.id
unfolding ended_target
ended_target-id res at t = refl

pub ended_target-run_id :
    (res : RunTargetResult) (at : ℕ) (t : RunTarget) → (ended_target res at t).run_id ≡ t.run_id
unfolding ended_target
ended_target-run_id res at t = refl

-- The UPDATE of aggregateRunTx.
abbrev pub regrouped : Db → ℕ → ℕ → Db
regrouped db k at = record db {
  runs = update_where (λ r. r.id == k) (aggregated (of_run k db.targets) at) db.runs;
}

aggregate_run_tx_inv :
    (db db' : Db) (k at : ℕ) (s : RunStatus)
    → aggregate_run_tx db k at ≡ ok (s, db')
    → db' ≡ regrouped db k at
unfolding aggregate_run_tx
aggregate_run_tx_inv db db' k at s h = ground arith

Agrees-at :
    (r : TaskRun) (k : ℕ) (ts : List RunTarget)
    → r.id ≡ k
    → Agrees r (of_run k ts)
    → Agrees r (of_run r.id ts)
Agrees-at r k ts e = subst (λ n. Agrees r (of_run n ts)) (sym e)

-- Every run agrees with its targets after the aggregation of one run, if the others did before.
regrouped-Agrees :
    (db : Db) (k at : ℕ)
    → All (λ r. (r.id == k) ≡ false → Agrees r (of_run r.id db.targets)) db.runs
    → All (λ r. Agrees r (of_run r.id db.targets)) (regrouped db k at).runs
regrouped-Agrees db k at = All-update_where _ _ (λ r. r.id == k) _ db.runs (λ r a. one r a)
  where
    one :
        (r : TaskRun)
        → ((r.id == k) ≡ false → Agrees r (of_run r.id db.targets))
        → (λ (q : TaskRun). Agrees q (of_run q.id db.targets))
            (if r.id == k then aggregated (of_run k db.targets) at r else r)
    one r a = elim (Bool-cases (r.id == k)) [
      | inl hit ↦ rw hit (
          Agrees-at _ k db.targets
            (aggregated-id (of_run k db.targets) at r ∙ (==_iff r.id k).0 hit)
            (aggregated-Agrees (of_run k db.targets) at r))
      | inr miss ↦ rw miss (a miss)
    ]

regrouped-IsConsistent :
    (db : Db) (k at : ℕ)
    → All (λ r. r.id < db.next_run_id) db.runs
    → All (λ t. t.id < db.next_target_id) db.targets
    → All (λ t. t.run_id < db.next_run_id) db.targets
    → ((i : ℕ) → count_if (λ r. r.id == i) db.runs ≤ 1)
    → ((i : ℕ) → count_if (λ t. t.id == i) db.targets ≤ 1)
    → All (λ r. (r.id == k) ≡ false → Agrees r (of_run r.id db.targets)) db.runs
    → IsConsistent (regrouped db k at)
regrouped-IsConsistent db k at a b c d e f = record {
  run_ids =
      All-update_where _ _ (λ r. r.id == k) (aggregated (of_run k db.targets) at) db.runs
        (λ r h. ground (arith, aggregated-id (of_run k db.targets) at r)) a;
  target_ids = b;
  target_runs = c;
  run_unique =
      unique-update_where (λ r. r.id) (λ r. r.id == k) (aggregated (of_run k db.targets) at) db.runs
        (aggregated-id (of_run k db.targets) at) d;
  target_unique = e;
  agrees = regrouped-Agrees db k at f;
}

-- Only the run of the target that has ended sees a change.
others_kept :
    (db : Db) (i at : ℕ) (res : RunTargetResult) {row : RunTarget}
    → IsConsistent db
    → find_first (λ t. t.id == i) db.targets ≡ some row
    → (r : TaskRun) → (r.id == row.run_id) ≡ false
    → of_run r.id (completed db i res at).targets ≡ of_run r.id db.targets
others_kept db i at res {row} v e r ne =
    select-update_where_ne (λ t. t.run_id == r.id) (ends i) (ended_target res at) db.targets
      (λ t. ap (λ n. n == r.id) (ended_target-run_id res at t))
      (All-map _ _ db.targets (λ t h hit. ground (arith, h))
        (find_first-only (λ t. t.run_id ≡ row.run_id) (λ t. t.id == i) db.targets e
          (v.target_unique i) refl))

ended-IsConsistent :
    (db : Db) (i at : ℕ) (res : RunTargetResult) {row : RunTarget}
    → IsConsistent db
    → find_first (λ t. t.id == i) db.targets ≡ some row
    → IsConsistent (regrouped (completed db i res at) row.run_id at)
ended-IsConsistent db i at res {row} v e =
    regrouped-IsConsistent (completed db i res at) row.run_id at v.run_ids
      (All-update_where _ _ (ends i) (ended_target res at) db.targets
        (λ t h. ground (arith, ended_target-id res at t)) v.target_ids)
      (All-update_where _ _ (ends i) (ended_target res at) db.targets
        (λ t h. ground (arith, ended_target-run_id res at t)) v.target_runs)
      v.run_unique
      (unique-update_where (λ t. t.id) (ends i) (ended_target res at) db.targets
        (ended_target-id res at) v.target_unique)
      (All-map (λ r. Agrees r (of_run r.id db.targets)) _ db.runs
        (λ r a ne. rw (others_kept db i at res v e r ne) a) v.agrees)

aggregate-then :
    (r : Result StoreError (RunStatus × Db)) {db' : Db} {m k : ℕ}
    → ◌>>=◌ {B = ℕ × Db} r (λ after. ok (m, after.1)) ≡ ok (k, db')
    → (s : RunStatus) × (r ≡ ok (s, db')) × (k ≡ m)
aggregate-then (ok (s, d)) h = (s, cc, cc)
aggregate-then (err e) h = cc

-- What a successful transaction of CompleteRunTarget did.
pub complete_run_target_tx_inv :
    (db db' : Db) (i now k : ℕ) (res : RunTargetResult)
    → complete_run_target_tx db i res now ≡ ok (k, db')
    → (row : RunTarget) × (find_first (λ t. t.id == i) db.targets ≡ some row)
      × (k ≡ row.run_id)
      × (db'
          ≡ regrouped
              (completed db i res (at_or_now res.completed_at now))
              row.run_id
              (at_or_now res.completed_at now))
unfolding complete_run_target_tx
complete_run_target_tx_inv db db' i now k res h =
    elim (Option-cases (find_first (λ t. t.id == i) db.targets)) [
      | inl e ↦ absurd (ground (arith, e))
      | inr (row, e) ↦
          let at = at_or_now res.completed_at now in
          let tail : ◌>>=◌ {B = ℕ × Db} (aggregate_run_tx (completed db i res at) row.run_id at)
                (λ after. ok (row.run_id, after.1))
              ≡ ok (k, db') =
            ground (arith, e) in
          let (s, done, same) = aggregate-then _ tail in
          (row, e, same, aggregate_run_tx_inv _ db' row.run_id at s done)
    ]

finish_cases {ℓ} :
    (P : Db → Type ℓ) (db : Db) (r : Result StoreError (ℕ × Db))
    → P db
    → ((k : ℕ) (db' : Db) → r ≡ ok (k, db') → P db')
    → P (finish db r).0
finish_cases P db (ok (k, db')) h f = f k db' refl
finish_cases P db (err e) h f = h

-- What holds before CompleteRunTarget and after each of its successful transactions holds after it.
pub complete_run_target_cases {ℓ} :
    (P : Db → Type ℓ) (db : Db) (target_id now : ℕ) (result : RunTargetResult)
    → P db
    → ((k : ℕ) (db' : Db) → complete_run_target_tx db target_id result now ≡ ok (k, db') → P db')
    → P (complete_run_target db target_id result now).0
unfolding complete_run_target
complete_run_target_cases P db i now res h f =
    finish_cases P db (complete_run_target_tx db i res now) h f

-- CompleteRunTarget keeps consistent tables consistent, whether it succeeds or fails.
pub complete_run_target-IsConsistent :
    (db : Db) (target_id now : ℕ) (result : RunTargetResult)
    → IsConsistent db
    → IsConsistent (complete_run_target db target_id result now).0
complete_run_target-IsConsistent db i now res v =
    complete_run_target_cases IsConsistent db i now res v (λ k db' h.
      let (row, e, _, done) = complete_run_target_tx_inv db db' i now k res h in
      rw done (ended-IsConsistent db i _ res v e))

pub commit-keeps {ℓ} :
    (P : Db → Type ℓ) (db : Db) (r : Result StoreError Db) (f : Db → Result StoreError TaskRun)
    → P db
    → ((db' : Db) → r ≡ ok db' → P db')
    → P (commit db r f).0
commit-keeps P db (ok db') f h k = k db' refl
commit-keeps P db (err e) f h k = h

pub aggregate_only_inv :
    (db db' : Db) (k at : ℕ) → aggregate_only db k at ≡ ok db' → db' ≡ regrouped db k at
unfolding aggregate_only aggregate_run_tx
aggregate_only_inv db db' k at h = ground arith

-- AggregateRun keeps consistent tables consistent, whether it succeeds or fails.
pub aggregate_run-IsConsistent :
    (db : Db) (run_id at now : ℕ)
    → IsConsistent db
    → IsConsistent (aggregate_run db run_id at now).0
unfolding aggregate_run
aggregate_run-IsConsistent db k at now v =
    commit-keeps IsConsistent db (aggregate_only db k (at_or_now at now)) _ v (λ db' e.
      rw (aggregate_only_inv db db' k (at_or_now at now) e) (
        regrouped-IsConsistent db k (at_or_now at now) v.run_ids v.target_ids v.target_runs
          v.run_unique v.target_unique
          (All-map (λ r. Agrees r (of_run r.id db.targets)) _ db.runs (λ r a _. a) v.agrees)))
