-- ===== src/Uptime/Kept.antt =====
-- How many results of a monitor stay (store/uptime.go: pruneUptimeResultsTx).
use mizu_panel.Prelude.{
  ℕ, zero, suc, ◌+◌, ◌≤◌, ◌<◌, ◌≡◌, refl, ap, Bool, not, ◌&&◌, List, [], ◌∷◌, arith, ltb, ◌==◌,
  select, drop, length, length-drop, count_if, All, Bool-cases, inl, inr, ◌⊎◌,
}
use mizu_panel.Uptime.Model.{UptimeResult}
use mizu_panel.Uptime.Probes.{prune_results}

-- Newest first.
abbrev pub IsDescending : List UptimeResult → Type 0
IsDescending [] = Unit
IsDescending (r ∷ rs) = All (λ q. q.id < r.id) rs × IsDescending rs

abbrev pub result_count : ℕ → List UptimeResult → ℕ
result_count monitor_id = count_if (λ r. r.monitor_id == monitor_id)

pub All-select {κ} :
    (P : UptimeResult → Type κ) (q : UptimeResult → Bool) (rs : List UptimeResult)
    → All P rs
    → All P (select q rs)
All-select P q [] a = tt
All-select P q (r ∷ rs) a = elim (Bool-cases (q r)) [
  | inl hit ↦ rw hit (a.0, All-select P q rs a.1)
  | inr miss ↦ rw miss (All-select P q rs a.1)
]

pub select-IsDescending :
    (q : UptimeResult → Bool) (rs : List UptimeResult)
    → IsDescending rs
    → IsDescending (select q rs)
select-IsDescending q [] d = tt
select-IsDescending q (r ∷ rs) d = elim (Bool-cases (q r)) [
  | inl hit ↦ rw hit (All-select (λ x. x.id < r.id) q rs d.0, select-IsDescending q rs d.1)
  | inr miss ↦ rw miss (select-IsDescending q rs d.1)
]

drop-IsDescending : (n : ℕ) (rs : List UptimeResult) → IsDescending rs → IsDescending (drop n rs)
drop-IsDescending zero rs d = d
drop-IsDescending (suc n) [] d = tt
drop-IsDescending (suc n) (r ∷ rs) d = drop-IsDescending n rs d.1

count_if-le-drop :
    (p : UptimeResult → Bool) (n : ℕ) (rs : List UptimeResult)
    → count_if p rs ≤ n + count_if p (drop n rs)
count_if-le-drop p zero rs = omega arith
count_if-le-drop p (suc n) [] = omega arith
count_if-le-drop p (suc n) (r ∷ rs) = ground (arith, count_if-le-drop p n rs)

length-select :
    (p : UptimeResult → Bool) (rs : List UptimeResult) → length (select p rs) ≡ count_if p rs
length-select p [] = refl
length-select p (r ∷ rs) = ground (arith, length-select p rs)

-- What a DELETE leaves, counted in the rows that a query selects.
count_if-select :
    (p q : UptimeResult → Bool) (rs : List UptimeResult)
    → count_if p (select (λ r. not (p r && q r)) rs) ≡ count_if (λ r. not (q r)) (select p rs)
count_if-select p q [] = refl
count_if-select p q (r ∷ rs) = ground (arith, count_if-select p q rs)

pub count_if-select-le :
    (p q : UptimeResult → Bool) (rs : List UptimeResult) → count_if p (select q rs) ≤ count_if p rs
count_if-select-le p q [] = omega arith
count_if-select-le p q (r ∷ rs) = ground (arith, count_if-select-le p q rs)

older_gone :
    (b : UptimeResult) (rs : List UptimeResult)
    → All (λ q. q.id < b.id) rs
    → count_if (λ r. not (ltb r.id b.id)) rs ≡ 0
older_gone b [] a = refl
older_gone b (r ∷ rs) a = ground (arith, older_gone b rs a.1)

boundary_left :
    (b : UptimeResult) (rs : List UptimeResult)
    → All (λ q. q.id < b.id) rs
    → count_if (λ r. not (ltb r.id b.id)) (b ∷ rs) ≡ 1
boundary_left b rs a = ground (arith, older_gone b rs a)

List-cases :
    (rs : List UptimeResult)
    → (rs ≡ []) ⊎ ((b : UptimeResult) × (older : List UptimeResult) × (rs ≡ b ∷ older))
List-cases [] = inl refl
List-cases (b ∷ older) = inr (b, older, refl)

-- At most 200 results of the monitor are left.
pub prune_results-result_count :
    (m : ℕ) (rs : List UptimeResult) → IsDescending rs → result_count m (prune_results m rs) ≤ 200
unfolding prune_results
prune_results-result_count m rs d =
    let own = select (λ r. r.monitor_id == m) rs in
    elim (List-cases (drop 199 own)) [
      | inl e ↦
          rw (e, prune_results)
            (omega
              (arith, ap length e, length-drop 199 own, length-select (λ r. r.monitor_id == m) rs))
      | inr (b, older, e) ↦
          let tail : IsDescending (b ∷ older) =
            rw e at
              (drop-IsDescending 199 own (select-IsDescending (λ r. r.monitor_id == m) rs d)) in
          rw (e, prune_results)
            (omega (
              arith,
              count_if-select (λ r. r.monitor_id == m) (λ r. ltb r.id b.id) rs,
              count_if-le-drop (λ r. not (ltb r.id b.id)) 199 own,
              ap (count_if (λ r. not (ltb r.id b.id))) e,
              boundary_left b older tail.0,
            ))
    ]

-- The others keep all that they had, and the order stays.
pub prune_results-le :
    (m m' : ℕ) (rs : List UptimeResult) → result_count m' (prune_results m rs) ≤ result_count m' rs
unfolding prune_results
prune_results-le m m' rs = elim (List-cases (drop 199 (select (λ r. r.monitor_id == m) rs))) [
  | inl e ↦ rw (e, prune_results) (omega arith)
  | inr (b, older, e) ↦ rw (e, prune_results) (count_if-select-le _ _ rs)
]

pub prune_results-IsDescending :
    (m : ℕ) (rs : List UptimeResult) → IsDescending rs → IsDescending (prune_results m rs)
unfolding prune_results
prune_results-IsDescending m rs d =
    elim (List-cases (drop 199 (select (λ r. r.monitor_id == m) rs))) [
      | inl e ↦ rw (e, prune_results) d
      | inr (b, older, e) ↦ rw (e, prune_results) (select-IsDescending _ rs d)
    ]

pub All-prune_results {κ} :
    (P : UptimeResult → Type κ) (m : ℕ) (rs : List UptimeResult)
    → All P rs
    → All P (prune_results m rs)
unfolding prune_results
All-prune_results P m rs a = elim (List-cases (drop 199 (select (λ r. r.monitor_id == m) rs))) [
  | inl e ↦ rw (e, prune_results) a
  | inr (b, older, e) ↦ rw (e, prune_results) (All-select P _ rs a)
]
