-- ===== src/Uptime/Transitions.antt =====
-- When a probe opens and resolves incidents (store/uptime.go: applyAvailabilityTransitionTx,
-- applyCertificateTransitionTx).
use mizu_panel.Prelude.{
  ℕ, ◌≡◌, refl, sym, ap, ◌∙◌, Bool, false, not, ◌&&◌, ◌||◌, List, [], ◌∷◌, ◌++◌, suc, arith, ltb,
  ◌==◌, if◌then◌else◌, Bool-cases, Option-cases, inl, inr,
}
use mizu_panel.Prelude.Result.{ok}
use mizu_panel.Tables.{find_first-none}
use mizu_panel.Uptime.Model.{
  IncidentKind, IncidentMessage, UptimeMonitor, UptimeIncident, UptimeProbeResult, is_open,
  availability, certificate,
}
use mizu_panel.Uptime.Probes.{
  Changes, active_incident, new_incident, create_incident, resolve_incident,
  apply_availability_transition, apply_certificate_transition, certificate_step, apply_transitions,
}
use mizu_panel.Uptime.Incidents.{open_count, IsSingle, Moves, stays, resolves, creates, found_open}

abbrev pub has_open : ℕ → IncidentKind → List UptimeIncident → Bool
has_open m k xs = ltb 0 (open_count m k xs)

moved :
    {m : ℕ} {k : IncidentKind} {a b : Bool} {c c' : Changes}
    → a ≡ b
    → Moves m k a c c'
    → Moves m k b c c'
moved {m} {k} {c = c} {c' = c'} e v = rw e at v

create-ok :
    (c : Changes) (m : ℕ) (k : IncidentKind) (message : IncidentMessage) (at : ℕ)
    → open_count m k c.incidents ≡ 0
    → (c' : Changes) × (create_incident c m k message at ≡ ok c')
unfolding create_incident
create-ok c m k message at h = (
  record c {
    incidents = c.incidents ++ new_incident c m k message at ∷ [];
    next_incident_id = suc c.next_incident_id;
    triggered = c.triggered ++ new_incident c m k message at ∷ [];
  },
  rw (h, create_incident) refl,
)

-- The transition succeeds, and an incident is open after it exactly if the probe failed and one was
-- open or the failures have reached the threshold.
pub availability-Moves :
    (monitor : UptimeMonitor) (probe : UptimeProbeResult) (failures : ℕ) (c : Changes)
    → IsSingle c
    → (c' : Changes) × (apply_availability_transition monitor probe failures c ≡ ok c')
      × Moves monitor.id availability
          (not probe.success
            && (has_open monitor.id availability c.incidents
                || not (ltb failures monitor.failure_threshold)))
          c
          c'
unfolding apply_availability_transition
availability-Moves monitor probe failures c v =
    elim (Option-cases (active_incident monitor.id availability c)) [
      | inr (e, found) ↦
          let there = found_open c monitor.id availability found in
          elim (Bool-cases probe.success) [
            | inl good ↦ (
              resolve_incident c e probe.checked_at,
              rw (found, apply_availability_transition) (rw good refl),
              moved (ground (arith, good))
                  (resolves monitor.id availability probe.checked_at c v found),
            )
            | inr bad ↦ (
              c,
              rw (found, apply_availability_transition) (rw bad refl),
              moved (ground (arith, bad, there)) (stays monitor.id availability c v),
            )
          ]
      | inl missing ↦
          let closed = find_first-none (is_open monitor.id availability) c.incidents missing in
          elim (Bool-cases (probe.success || ltb failures monitor.failure_threshold)) [
            | inl quiet ↦ (
              c,
              rw (missing, apply_availability_transition) (rw quiet refl),
              moved (ground (arith, quiet, closed)) (stays monitor.id availability c v),
            )
            | inr alarm ↦
                let (c', made) =
                  create-ok c monitor.id availability (IncidentMessage.failed failures probe.error)
                    probe.checked_at closed in
                (
                  c',
                  rw (missing, apply_availability_transition) (rw alarm made),
                  moved (ground (arith, alarm)) (
                      creates monitor.id availability (IncidentMessage.failed failures probe.error)
                        probe.checked_at c c' v made),
                )
          ]
    ]

-- Where the certificate was checked, an incident is open exactly if it expires.
certificate-Moves :
    (monitor : UptimeMonitor) (probe : UptimeProbeResult) (c : Changes)
    → IsSingle c
    → (c' : Changes) × (apply_certificate_transition monitor probe c ≡ ok c')
      × Moves monitor.id certificate probe.tls_expiring c c'
unfolding apply_certificate_transition
certificate-Moves monitor probe c v =
    elim (Option-cases (active_incident monitor.id certificate c)) [
      | inr (e, found) ↦
          let there = found_open c monitor.id certificate found in
          elim (Bool-cases probe.tls_expiring) [
            | inl expiring ↦ (
              c,
              rw (found, apply_certificate_transition) (rw expiring refl),
              moved (ground (arith, expiring, there)) (stays monitor.id certificate c v),
            )
            | inr fine ↦ (
              resolve_incident c e probe.checked_at,
              rw (found, apply_certificate_transition) (rw fine refl),
              moved (sym fine) (resolves monitor.id certificate probe.checked_at c v found),
            )
          ]
      | inl missing ↦
          let closed = find_first-none (is_open monitor.id certificate) c.incidents missing in
          elim (Bool-cases probe.tls_expiring) [
            | inr fine ↦ (
              c,
              rw (missing, apply_certificate_transition) (rw fine refl),
              moved (ground (arith, fine, closed)) (stays monitor.id certificate c v),
            )
            | inl expiring ↦
                let (c', made) =
                  create-ok c monitor.id certificate
                    (IncidentMessage.expires probe.tls_expires_at probe.checked_at) probe.checked_at
                    closed in
                (
                  c',
                  rw (missing, apply_certificate_transition) (rw expiring made),
                  moved (sym expiring) (
                      creates monitor.id certificate
                        (IncidentMessage.expires probe.tls_expires_at probe.checked_at)
                        probe.checked_at c c' v made),
                )
          ]
    ]

certificate_step-Moves :
    (monitor : UptimeMonitor) (probe : UptimeProbeResult) (c : Changes)
    → IsSingle c
    → (c' : Changes) × (certificate_step monitor probe c ≡ ok c')
      × Moves monitor.id certificate
          (if probe.success && probe.tls_checked
            then probe.tls_expiring
            else has_open monitor.id certificate c.incidents)
          c
          c'
unfolding certificate_step
certificate_step-Moves monitor probe c v = elim (Bool-cases (probe.success && probe.tls_checked)) [
  | inl looks ↦
      let (c', done, moves) = certificate-Moves monitor probe c v in
      (c', rw (looks, certificate_step) done, moved (ground (arith, looks)) moves)
  | inr skips ↦ (
    c,
    rw (skips, certificate_step) refl,
    moved (ground (arith, skips)) (stays monitor.id certificate c v),
  )
]

-- What the two transitions of a probe do together.
pub record Outcome (monitor : UptimeMonitor) (probe : UptimeProbeResult) (failures : ℕ)
    (c c' : Changes) : Type 0 where
  pub single : IsSingle c'
  pub available : has_open monitor.id availability c'.incidents ≡ (
      not probe.success
      && (has_open monitor.id availability c.incidents
          || not (ltb failures monitor.failure_threshold)))
  pub certified : has_open monitor.id certificate c'.incidents ≡ (
      if probe.success && probe.tls_checked
      then probe.tls_expiring
      else has_open monitor.id certificate c.incidents)
  pub others :
      (m : ℕ) (k : IncidentKind)
      → (m == monitor.id) ≡ false
      → open_count m k c'.incidents ≡ open_count m k c.incidents

pub apply_transitions-Outcome :
    (monitor : UptimeMonitor) (probe : UptimeProbeResult) (failures : ℕ) (c : Changes)
    → IsSingle c
    → (c' : Changes) × (apply_transitions monitor probe failures c ≡ ok c')
      × Outcome monitor probe failures c c'
unfolding apply_transitions
apply_transitions-Outcome monitor probe failures c v =
    let (a, first, moves) = availability-Moves monitor probe failures c v in
    let (b, second, turns) = certificate_step-Moves monitor probe a moves.single in
    (
      b,
      rw first second,
      record {
        single = turns.single;
        available = ap (ltb 0) (turns.others monitor.id availability (ground arith)) ∙ moves.opened;
        certified =
            turns.opened
            ∙ ap (λ n. if probe.success && probe.tls_checked then probe.tls_expiring else ltb 0 n)
                (moves.others monitor.id certificate (ground arith));
        others = λ m k other.
            turns.others m k (ground (arith, other)) ∙ moves.others m k (ground (arith, other));
      },
    )
