-- ===== src/Health/Aggregate.antt =====
-- The health of a service from those of its resources (servicecenter/health.go: aggregateHealth).
--
-- `lt` is Go's order on texts; sort.SliceStable is an insertion that keeps the order of equals.
use text.Mathlib.Text.{◌==◌ as str_eq}
use mizu_panel.Prelude.{
  ℕ, String, Bool, true, false, not, ◌&&◌, List, [], ◌∷◌, ltb, ◌==◌, if◌then◌else◌, select,
  count_if, map,
}
use mizu_panel.Health.Model.{
  HealthStatus, ResourceProjection, HealthReason, healthy, degraded, unhealthy, unknown,
}

abbrev pub is_status : HealthStatus → HealthStatus → Bool
is_status healthy healthy = true
is_status degraded degraded = true
is_status unhealthy unhealthy = true
is_status unknown unknown = true
is_status _ _ = false

abbrev pub health_priority : HealthStatus → ℕ
health_priority unhealthy = 0
health_priority degraded = 1
health_priority unknown = 2
health_priority healthy = 3

-- How many projections have a status.
abbrev pub health_count : HealthStatus → List ResourceProjection → ℕ
health_count status = count_if (λ p. is_status status p.health)

abbrev pub reason_of : ResourceProjection → HealthReason
reason_of p = record {
  status = p.health;
  resource_id = p.resource.id;
  resource_type = p.resource.resource_type;
  resource_name = p.resource.display_name;
  message = p.reason;
}

-- The reasons before they are sorted.
abbrev pub reasons_of : List ResourceProjection → List HealthReason
reasons_of ps = map reason_of (select (λ p. not (is_status healthy p.health)) ps)

unfoldable pub health_status_of : List ResourceProjection → HealthStatus
health_status_of ps =
    if ltb 0 (health_count unhealthy ps)
    then unhealthy
    else if ltb 0 (health_count degraded ps)
    then degraded
    else if ltb 0 (health_count unknown ps) && ltb 0 (health_count healthy ps)
    then degraded
    else if ltb 0 (health_count healthy ps)
    then healthy
    else unknown

module _ (lt : String → String → Bool) where
  unfoldable pub reason_less : HealthReason → HealthReason → Bool
  reason_less a b =
      if not (health_priority a.status == health_priority b.status)
      then ltb (health_priority a.status) (health_priority b.status)
      else if not (str_eq a.resource_name b.resource_name)
      then lt a.resource_name b.resource_name
      else lt a.resource_id b.resource_id

  abbrev pub insert : HealthReason → List HealthReason → List HealthReason
  insert r [] = r ∷ []
  insert r (q ∷ qs) = if reason_less q r then q ∷ insert r qs else r ∷ q ∷ qs

  abbrev pub slice_stable : List HealthReason → List HealthReason
  slice_stable [] = []
  slice_stable (r ∷ rs) = insert r (slice_stable rs)

  -- The counts of `counts` are `health_count`s.
  unfoldable pub aggregate_health :
      List ResourceProjection → HealthStatus × List HealthReason × (HealthStatus → ℕ)
  aggregate_health ps =
      (health_status_of ps, slice_stable (reasons_of ps), λ status. health_count status ps)
