-- ===== src/Health/Reasons.antt =====
-- The health of a service and the order of its reasons (servicecenter/health.go).
use mizu_panel.Prelude.{
  suc, ◌+◌, ◌≤◌, ◌≡◌, refl, ap, ◌∙◌, String, Bool, true, false, not, ◌&&◌, List, [], ◌∷◌, arith,
  ltb, ◌==◌, if◌then◌else◌, count_if, length, All, Bool-cases, inl, inr,
}
use mizu_panel.Tables.{All-map}
use mizu_panel.Health.Model.{
  HealthStatus, ResourceProjection, HealthReason, healthy, degraded, unhealthy, unknown,
}
use mizu_panel.Health.Aggregate.{
  is_status, health_priority, health_count, reason_of, reasons_of, health_status_of, reason_less,
  insert, slice_stable, aggregate_health,
}

-- Every projection has one status.
count_all :
    (ps : List ResourceProjection)
    → health_count healthy ps
        + health_count degraded ps
        + health_count unhealthy ps
        + health_count unknown ps
      ≡ length ps
count_all [] = refl
count_all (p ∷ ps) = counted p.health (count_all ps)
  where
    counted :
        (status : HealthStatus)
        → health_count healthy ps
            + health_count degraded ps
            + health_count unhealthy ps
            + health_count unknown ps
          ≡ length ps
        → (if is_status healthy status
              then suc (health_count healthy ps)
              else health_count healthy ps)
            + (if is_status degraded status
                then suc (health_count degraded ps)
                else health_count degraded ps)
            + (if is_status unhealthy status
                then suc (health_count unhealthy ps)
                else health_count unhealthy ps)
            + (if is_status unknown status
                then suc (health_count unknown ps)
                else health_count unknown ps)
          ≡ suc (length ps)
    counted healthy h = omega (arith, h)
    counted degraded h = omega (arith, h)
    counted unhealthy h = omega (arith, h)
    counted unknown h = omega (arith, h)

-- A service is unhealthy exactly if one of its resources is, healthy exactly if it has resources
-- and all of them are healthy, and unknown exactly if all of them are unknown.
pub health_status_of_lem :
    (ps : List ResourceProjection)
    → (is_status unhealthy (health_status_of ps) ≡ ltb 0 (health_count unhealthy ps))
      × (is_status healthy (health_status_of ps)
          ≡ (ltb 0 (length ps) && (health_count healthy ps == length ps)))
      × (is_status unknown (health_status_of ps) ≡ (health_count unknown ps == length ps))
unfolding health_status_of
health_status_of_lem ps =
    let all = count_all ps in (ground (arith, all), ground (arith, all), ground (arith, all))

count_if-reasons_of :
    (p : HealthReason → Bool) (ps : List ResourceProjection)
    → count_if p (reasons_of ps)
      ≡ count_if (λ x. not (is_status healthy x.health) && p (reason_of x)) ps
count_if-reasons_of p [] = refl
count_if-reasons_of p (x ∷ xs) = ground (arith, count_if-reasons_of p xs)

count_every : (rs : List HealthReason) → count_if (λ x. true) rs ≡ length rs
count_every [] = refl
count_every (r ∷ rs) = ap suc (count_every rs)

count_others :
    (ps : List ResourceProjection)
    → count_if (λ x. not (is_status healthy x.health) && true) ps + health_count healthy ps
      ≡ length ps
count_others [] = refl
count_others (p ∷ ps) = ground (arith, count_others ps)

-- By severity, the worst first.
abbrev pub IsSevereFirst : List HealthReason → Type 0
IsSevereFirst [] = Unit
IsSevereFirst (r ∷ rs) =
    All (λ q. health_priority r.status ≤ health_priority q.status) rs × IsSevereFirst rs

module _ (lt : String → String → Bool) where
  less_priority :
      (a b : HealthReason)
      → (reason_less lt a b ≡ true → health_priority a.status ≤ health_priority b.status)
        × (reason_less lt a b ≡ false → health_priority b.status ≤ health_priority a.status)
  unfolding reason_less
  less_priority a b = (λ h. ground (arith, h), λ h. ground (arith, h))

  All-insert {κ} :
      (P : HealthReason → Type κ) (r : HealthReason) (qs : List HealthReason)
      → P r
      → All P qs
      → All P (insert lt r qs)
  All-insert P r [] h a = (h, tt)
  All-insert P r (q ∷ qs) h a = elim (Bool-cases (reason_less lt q r)) [
    | inl less ↦ rw less (a.0, All-insert P r qs h a.1)
    | inr more ↦ rw more (h, a)
  ]

  insert-IsSevereFirst :
      (r : HealthReason) (qs : List HealthReason)
      → IsSevereFirst qs
      → IsSevereFirst (insert lt r qs)
  insert-IsSevereFirst r [] s = (tt, tt)
  insert-IsSevereFirst r (q ∷ qs) s = elim (Bool-cases (reason_less lt q r)) [
    | inl less ↦ rw less (
      All-insert (λ x. health_priority q.status ≤ health_priority x.status) r qs
          ((less_priority q r).0 less) s.0,
      insert-IsSevereFirst r qs s.1,
    )
    | inr more ↦
        let worse = (less_priority q r).1 more in
        rw more ((worse, All-map _ _ qs (λ x h. omega (arith, h, worse)) s.0), s)
  ]

  count_if-insert :
      (p : HealthReason → Bool) (r : HealthReason) (qs : List HealthReason)
      → count_if p (insert lt r qs) ≡ count_if p (r ∷ qs)
  count_if-insert p r [] = refl
  count_if-insert p r (q ∷ qs) = ground (arith, count_if-insert p r qs)

  slice_stable_lem :
      (rs : List HealthReason)
      → IsSevereFirst (slice_stable lt rs)
        × ((p : HealthReason → Bool) → count_if p (slice_stable lt rs) ≡ count_if p rs)
  slice_stable_lem [] = (tt, λ p. refl)
  slice_stable_lem (r ∷ rs) =
      let (sorted, same) = slice_stable_lem rs in
      (
        insert-IsSevereFirst r (slice_stable lt rs) sorted,
        λ p. ground (arith, count_if-insert p r (slice_stable lt rs), same p),
      )

  -- The reasons of a service are those of its resources that are not healthy, each as often as it
  -- occurs, the most severe first; their number is the sum of the counts.
  pub aggregate_health_lem :
      (ps : List ResourceProjection)
      → (let (status, reasons, counts) = aggregate_health lt ps in
          IsSevereFirst reasons
          × ((p : HealthReason → Bool)
              → count_if p reasons
                ≡ count_if (λ x. not (is_status healthy x.health) && p (reason_of x)) ps)
          × (length reasons ≡ counts unhealthy + counts degraded + counts unknown))
  unfolding aggregate_health
  aggregate_health_lem ps =
      let (sorted, same) = slice_stable_lem (reasons_of ps) in
      (
        sorted,
        λ p. same p ∙ count_if-reasons_of p ps,
        omega (
          arith,
          count_every (slice_stable lt (reasons_of ps)),
          same (λ x. true),
          count_if-reasons_of (λ x. true) ps,
          count_others ps,
          count_all ps,
        ),
      )
