-- ===== src/Health/Tests.antt =====
-- The theorems on concrete resources, and runs of the definitions (servicecenter/health.go).
use mizu_panel.Prelude.{
  ◌+◌, ◌≡◌, refl, String, Bool, false, not, ◌&&◌, none, some, List, [], ◌∷◌, ltb, ◌==◌, arith,
  count_if, length,
}
use mizu_panel.Prelude.Int.{pos}
use mizu_panel.Health.Model.{
  Resource, ResourceProjection, HealthReason, healthy, degraded, unhealthy, unknown, available,
  quiet, literal, projection,
}
use mizu_panel.Health.Ready.{Bytes, ready_text, parse_ready}
use mizu_panel.Health.Signals.{services_health, k8s_ready_health, k8s_daemon_health}
use mizu_panel.Health.Aggregate.{
  is_status, health_count, reason_of, health_status_of, aggregate_health,
}
use mizu_panel.Health.ReadyText.{parse_ready-ready_text, k8s_ready_health-eq-k8s_daemon_health}
use mizu_panel.Health.Reasons.{IsSevereFirst, health_status_of_lem, aggregate_health_lem}

abbrev api : Resource
api = record { id = "r1"; resource_type = "k8s_workload"; display_name = "api" }

abbrev site : Resource
site = record { id = "r2"; resource_type = "uptime_monitor"; display_name = "site" }

abbrev resources : List ResourceProjection
resources =
    projection api degraded available (literal "slow")
    ∷ projection site unhealthy available (literal "down")
    ∷ projection api healthy available quiet
    ∷ []

abbrev by_length : String → String → Bool
by_length a b = false

abbrev whole : Bytes → Bytes
whole s = s

-- "12/30"
ready_text_bytes : ready_text 12 30 ≡ 49 ∷ 50 ∷ 47 ∷ 51 ∷ 48 ∷ []
unfolding ready_text
ready_text_bytes = refl

-- "+3/4" has a sign that is read.
parse_ready_plus : parse_ready whole (43 ∷ 51 ∷ 47 ∷ 52 ∷ []) ≡ some (3, 4)
unfolding parse_ready
parse_ready_plus = refl

-- "-3/4" is refused.
parse_ready_negative : parse_ready whole (45 ∷ 51 ∷ 47 ∷ 52 ∷ []) ≡ none
unfolding parse_ready
parse_ready_negative = refl

-- A service that starts degrades its project, and a failed one after it decides.
services_health_starting :
    services_health
      (λ a b. false)
      (λ s. s)
      (λ s. s)
      api
      false
      (record { name = "web"; state = "running"; health = "starting" } ∷ [])
    ≡ projection api degraded available (literal "部分 Compose 服务状态暂未稳定")
services_health_starting = refl

health_status_of_lem_example :
    (is_status unhealthy (health_status_of resources) ≡ ltb 0 (health_count unhealthy resources))
    × (is_status healthy (health_status_of resources)
        ≡ (ltb 0 3 && (health_count healthy resources == 3)))
    × (is_status unknown (health_status_of resources) ≡ (health_count unknown resources == 3))
health_status_of_lem_example = health_status_of_lem resources

aggregate_health_lem_example :
    (let (status, reasons, counts) = aggregate_health by_length resources in
      IsSevereFirst reasons
      × ((p : HealthReason → Bool)
          → count_if p reasons
            ≡ count_if (λ x. not (is_status healthy x.health) && p (reason_of x)) resources)
      × (length reasons ≡ counts unhealthy + counts degraded + counts unknown))
aggregate_health_lem_example = aggregate_health_lem by_length resources

parse_ready-ready_text_example : parse_ready whole (ready_text 12 30) ≡ some (12, 30)
parse_ready-ready_text_example =
    parse_ready-ready_text whole 12 30 (λ s h. refl) (omega arith) (omega arith)

k8s_ready_health-eq-k8s_daemon_health_example :
    k8s_ready_health whole api (ready_text 12 30) (some (pos 12)) ""
    ≡ k8s_daemon_health api
        (some (record { desired = pos 30; ready = pos 12; available_replicas = pos 12 }))
        ""
k8s_ready_health-eq-k8s_daemon_health_example =
    k8s_ready_health-eq-k8s_daemon_health whole api 12 30 12 "" (λ s h. refl) (omega arith)
      (omega arith)
