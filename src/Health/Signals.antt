-- ===== src/Health/Signals.antt =====
-- The health of each kind of resource (servicecenter/health.go).
--
-- The functions of package strings are parameters.
use text.Mathlib.Text.{◌==◌ as str_eq}
use mizu_panel.Prelude.{
  ℕ, String, Bool, true, false, not, ◌&&◌, ◌||◌, Option, none, some, List, [], ◌∷◌, ltb, ◌==◌,
  if◌then◌else◌,
}
use mizu_panel.Prelude.Int.{ℤ, pos, negsuc}
use mizu_panel.Health.Model.{
  Resource, ResourceProjection, projection, healthy, degraded, unhealthy, unknown, missing,
  available, unavailable, quiet, literal, open_alerts, last_run, compose_service, systemd_changing,
  systemd_state, no_replicas, some_replicas,
}
use mizu_panel.Health.Ready.{Bytes, parse_ready}

pub record UptimeSignal : Type 0 where
  pub enabled : Bool
  pub status : String

pub record AlertSignal : Type 0 where
  pub enabled : Bool
  pub active_count : ℕ

pub record TaskSignal : Type 0 where
  pub enabled : Bool
  pub latest_status : String
  pub has_run : Bool

pub record ComposeService : Type 0 where
  pub name : String
  pub state : String
  pub health : String

pub record ComposeProject : Type 0 where
  pub status : String
  pub services : List ComposeService
  pub error : String

pub record SystemdService : Type 0 where
  pub active_state : String
  pub sub_state : String

-- int32 counts.
pub record K8sDaemonSet : Type 0 where
  pub desired : ℤ
  pub ready : ℤ
  pub available_replicas : ℤ

abbrev pub is_empty : String → Bool
is_empty s = str_eq s ""

abbrev pub one_of : List String → String → Bool
one_of [] s = false
one_of (c ∷ cs) s = str_eq s c || one_of cs s

abbrev pub int_ltb : ℤ → ℤ → Bool
int_ltb (pos a) (pos b) = ltb a b
int_ltb (pos a) (negsuc b) = false
int_ltb (negsuc a) (pos b) = true
int_ltb (negsuc a) (negsuc b) = ltb b a

abbrev pub is_zero : ℤ → Bool
is_zero (pos n) = n == 0
is_zero (negsuc n) = false

unfoldable pub alert_health : Resource → AlertSignal → Bool → ResourceProjection
alert_health resource signal exists =
    if not exists
    then projection resource unknown missing (literal "关联告警规则已不存在")
    else if not signal.enabled
    then projection resource degraded available (literal "告警规则已禁用")
    else if ltb 0 signal.active_count
    then projection resource unhealthy available (open_alerts signal.active_count)
    else projection resource healthy available quiet

unfoldable pub k8s_daemon_health : Resource → Option K8sDaemonSet → String → ResourceProjection
k8s_daemon_health resource workload unavailable_reason =
    if not (is_empty unavailable_reason)
    then projection resource degraded unavailable (literal "Kubernetes 工作负载状态暂不可用")
    else elim workload [
      | none ↦ projection resource unknown missing (literal "关联 Kubernetes 工作负载已不存在")
      | some w ↦
          if not (int_ltb (pos 0) w.desired)
          then projection resource unknown available (literal "Kubernetes 副本状态暂不可判定")
          else if is_zero w.ready
          then projection resource unhealthy available (no_replicas w.ready w.desired)
          else if int_ltb w.ready w.desired || int_ltb w.available_replicas w.desired
          then projection resource degraded available (some_replicas w.ready w.desired)
          else projection resource healthy available quiet
    ]

abbrev pub is_short : Option ℤ → ℕ → Bool
is_short none desired = false
is_short (some n) desired = int_ltb n (pos desired)

module _ (trim : Bytes → Bytes) where
  unfoldable pub k8s_ready_health : Resource → Bytes → Option ℤ → String → ResourceProjection
  k8s_ready_health resource [] available_replicas unavailable_reason =
      if not (is_empty unavailable_reason)
      then projection resource degraded unavailable (literal "Kubernetes 工作负载状态暂不可用")
      else projection resource unknown missing (literal "关联 Kubernetes 工作负载已不存在")
  k8s_ready_health resource (c ∷ cs) available_replicas unavailable_reason =
      if not (is_empty unavailable_reason)
      then projection resource degraded unavailable (literal "Kubernetes 工作负载状态暂不可用")
      else elim (parse_ready trim (c ∷ cs)) [
        | none ↦ projection resource unknown available (literal "Kubernetes 副本状态暂不可判定")
        | some (current, desired) ↦
            if desired == 0
            then projection resource unknown available (literal "Kubernetes 副本状态暂不可判定")
            else if current == 0
            then projection resource unhealthy available (no_replicas (pos current) (pos desired))
            else if ltb current desired || is_short available_replicas desired
            then projection resource degraded available (some_replicas (pos current) (pos desired))
            else projection resource healthy available quiet
      ]

module _ (equal_fold : String → String → Bool) (to_lower trim_space : String → String) where
  unfoldable pub node_health : Resource → String → Bool → ResourceProjection
  node_health resource status exists =
      if not exists
      then projection resource unknown missing (literal "关联节点已不存在")
      else if equal_fold status "online"
      then projection resource healthy available quiet
      else projection resource unhealthy available (literal "节点离线")

  unfoldable pub uptime_health : Resource → UptimeSignal → Bool → ResourceProjection
  uptime_health resource signal exists =
      let status = to_lower signal.status in
      if not exists
      then projection resource unknown missing (literal "关联拨测已不存在")
      else if not signal.enabled
      then projection resource degraded available (literal "服务拨测已禁用")
      else if str_eq status "up"
      then projection resource healthy available quiet
      else if str_eq status "warning"
      then projection resource degraded available (literal "服务拨测处于警告状态")
      else if str_eq status "down"
      then projection resource unhealthy available (literal "服务拨测失败")
      else projection resource unknown available (literal "服务拨测尚无可用结果")

  unfoldable pub task_health : Resource → TaskSignal → Bool → ResourceProjection
  task_health resource signal exists =
      let status = to_lower signal.latest_status in
      if not exists
      then projection resource unknown missing (literal "关联计划任务已不存在")
      else if not signal.enabled
      then projection resource degraded available (literal "计划任务已禁用")
      else if not signal.has_run
      then projection resource unknown available (literal "计划任务尚无执行记录")
      else if one_of ("queued" ∷ "running" ∷ "success" ∷ []) status
      then projection resource healthy available quiet
      else if one_of ("partial" ∷ "failed" ∷ "skipped" ∷ "interrupted" ∷ []) status
      then projection resource degraded available (last_run signal.latest_status)
      else projection resource unknown available (literal "计划任务最近执行状态暂不可判定")

  abbrev pub state_of : ComposeService → String
  state_of s = to_lower (trim_space s.state)

  abbrev pub health_of : ComposeService → String
  health_of s = to_lower (trim_space s.health)

  -- The loop over the services; `is_degraded` is the variable `degraded`.
  abbrev pub services_health : Resource → Bool → List ComposeService → ResourceProjection
  services_health resource true [] =
      projection resource degraded available (literal "部分 Compose 服务状态暂未稳定")
  services_health resource false [] = projection resource healthy available quiet
  services_health resource is_degraded (s ∷ rest) =
      let changed = not (str_eq (state_of s) "running") || str_eq (health_of s) "starting" in
      if one_of ("exited" ∷ "dead" ∷ []) (state_of s) || str_eq (health_of s) "unhealthy"
      then projection resource unhealthy available (compose_service s.name)
      else services_health resource (is_degraded || changed) rest

  unfoldable pub project_health : Resource → ComposeProject → ResourceProjection
  project_health resource project =
      if not (is_empty project.error)
      then projection resource degraded unavailable (literal "Compose 项目状态读取不完整")
      else if one_of ("stopped" ∷ "exited" ∷ "dead" ∷ []) (to_lower (trim_space project.status))
      then projection resource unhealthy available (literal "Compose 项目已停止")
      else elim project.services [
        | [] ↦ projection resource unhealthy available (literal "Compose 项目没有运行中的服务")
        | s ∷ rest ↦ services_health resource false (s ∷ rest)
      ]

  unfoldable pub compose_health : Resource → Option ComposeProject → String → ResourceProjection
  compose_health resource project unavailable_reason =
      if not (is_empty unavailable_reason)
      then projection resource degraded unavailable (literal "Compose 状态暂不可用")
      else elim project [
        | none ↦ projection resource unknown missing (literal "关联 Compose 项目已不存在")
        | some p ↦ project_health resource p
      ]

  unfoldable pub systemd_health : Resource → Option SystemdService → String → ResourceProjection
  systemd_health resource service unavailable_reason =
      if not (is_empty unavailable_reason)
      then projection resource degraded unavailable (literal "Systemd 状态暂不可用")
      else elim service [
        | none ↦ projection resource unknown missing (literal "关联 Systemd 服务已不存在")
        | some s ↦
            let active = to_lower s.active_state in
            if str_eq active "active" && str_eq (to_lower s.sub_state) "running"
            then projection resource healthy available quiet
            else if one_of ("activating" ∷ "reloading" ∷ []) active
            then projection resource degraded available (systemd_changing s.active_state)
            else if one_of ("failed" ∷ "inactive" ∷ "deactivating" ∷ []) active
            then projection resource unhealthy available (systemd_state s.active_state)
            else projection resource unknown available (literal "Systemd 服务状态暂不可判定")
      ]
