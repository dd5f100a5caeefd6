-- ===== src/Uptime/Delivered.antt =====
-- Every delivery of a transition is recorded (uptime/engine.go: deliverTransitions; store/uptime.go:
-- UpdateIncidentNotification).
use mizu_panel.Prelude.{
  ℕ, ◌≡◌, refl, sym, ap, ◌∙◌, String, Bool, true, false, Option, none, some, List, [], ◌∷◌, arith,
  ◌==◌, All, Bool-cases, inl, inr,
}
use mizu_panel.Tables.{All-map, All-All, All-update_where}
use mizu_panel.Uptime.Model.{
  UptimeMonitor, UptimeIncident, UptimeProbeResult, UptimeTransition, UptimeDb,
}
use mizu_panel.Uptime.Monitors.{with_notification, update_incident_notification}
use mizu_panel.Uptime.Engine.{
  UptimePayload, UptimeDeliveryResult, uptime_payload, deliver_incident, deliver_all,
  deliver_transitions,
}

abbrev pub is_some : Option ℕ → Bool
is_some none = false
is_some (some at) = true

-- The delivery of the trigger, or of the recovery, was attempted.
abbrev pub is_recorded : Bool → UptimeIncident → Bool
is_recorded true x = is_some x.recovery_notification_attempted_at
is_recorded false x = is_some x.notification_attempted_at

-- The rows of an incident have its delivery.
abbrev pub IsRecorded : Bool → List UptimeIncident → UptimeIncident → Type 0
IsRecorded recovery rows i = All (λ x. (x.id == i.id) ≡ true → is_recorded recovery x ≡ true) rows

kept_record :
    (r recovery sent : Bool) (message : String) (at : ℕ) (x : UptimeIncident)
    → is_recorded recovery x ≡ true
    → is_recorded recovery (with_notification r sent message at x) ≡ true
kept_record true true sent message at x h = refl
kept_record true false sent message at x h = h
kept_record false true sent message at x h = h
kept_record false false sent message at x h = refl

own_record :
    (recovery sent : Bool) (message : String) (at : ℕ) (x : UptimeIncident)
    → is_recorded recovery (with_notification recovery sent message at x) ≡ true
own_record true sent message at x = refl
own_record false sent message at x = refl

same_id :
    (r sent : Bool) (message : String) (at : ℕ) (x : UptimeIncident)
    → (with_notification r sent message at x).id ≡ x.id
same_id true sent message at x = refl
same_id false sent message at x = refl

update-IsRecorded :
    (db : UptimeDb) (i : UptimeIncident) (id : ℕ) (r recovery sent : Bool) (message : String)
    (at : ℕ)
    → IsRecorded recovery db.incidents i
    → IsRecorded recovery (update_incident_notification db id r sent message at).incidents i
unfolding update_incident_notification
update-IsRecorded db i id r recovery sent message at a =
    All-update_where _ _ (λ x. x.id == id) (with_notification r sent message at) db.incidents
      (λ x h. elim (Bool-cases (x.id == id)) [
        | inl hit ↦ rw hit (λ own.
            kept_record r recovery sent message at x
              (h (ap (λ n. n == i.id) (sym (same_id r sent message at x)) ∙ own)))
        | inr miss ↦ rw miss h
      ])
      a

update-own-IsRecorded :
    (db : UptimeDb) (i : UptimeIncident) (recovery sent : Bool) (message : String) (at : ℕ)
    → IsRecorded recovery
        (update_incident_notification db i.id recovery sent message at).incidents
        i
unfolding update_incident_notification
update-own-IsRecorded db i recovery sent message at =
    All-update_where (λ x. x ≡ x) _ (λ x. x.id == i.id) (with_notification recovery sent message at)
      db.incidents
      (λ x h. elim (Bool-cases (x.id == i.id)) [
        | inl hit ↦ rw hit (λ own. own_record recovery sent message at x)
        | inr miss ↦ rw miss (λ own. absurd (ground (arith, own, miss)))
      ])
      (All-All (λ x. x ≡ x) db.incidents (λ x. refl))

module _ (deliver_uptime : UptimePayload → UptimeDeliveryResult) (bounded : String → String)
    (probe : UptimeMonitor → UptimeProbeResult) where
  later-IsRecorded :
      (db : UptimeDb) (t : UptimeTransition) (r recovery : Bool) (is : List UptimeIncident)
      (i : UptimeIncident)
      → IsRecorded recovery db.incidents i
      → IsRecorded recovery (deliver_all probe deliver_uptime bounded db t r is).incidents i
  later-IsRecorded db t r recovery [] i a = a
  later-IsRecorded db t r recovery (x ∷ xs) i a =
      let delivery = deliver_uptime (uptime_payload t x r) in
      later-IsRecorded (deliver_incident probe deliver_uptime bounded db t r x) t r recovery xs i (
        update-IsRecorded db i x.id r recovery delivery.sent (bounded delivery.error)
          delivery.attempted_at a)

  deliver_all-IsRecorded :
      (db : UptimeDb) (t : UptimeTransition) (recovery : Bool) (is : List UptimeIncident)
      → All
          (IsRecorded recovery
            (deliver_all probe deliver_uptime bounded db t recovery is).incidents)
          is
  deliver_all-IsRecorded db t recovery [] = tt
  deliver_all-IsRecorded db t recovery (x ∷ xs) =
      let delivery = deliver_uptime (uptime_payload t x recovery) in
      let mid = deliver_incident probe deliver_uptime bounded db t recovery x in
      (
        later-IsRecorded mid t recovery recovery xs x (
            update-own-IsRecorded db x recovery delivery.sent (bounded delivery.error)
              delivery.attempted_at),
        deliver_all-IsRecorded mid t recovery xs,
      )

  -- After the deliveries of a transition, whatever the notifier answers, the rows of every incident
  -- that was triggered have an attempt of its notification recorded, and the rows of every incident
  -- that was resolved an attempt of its recovery notification.
  pub deliver_transitions-IsRecorded :
      (db : UptimeDb) (t : UptimeTransition)
      → (let rows = (deliver_transitions probe deliver_uptime bounded db t).incidents in
          All (IsRecorded false rows) t.triggered × All (IsRecorded true rows) t.resolved)
  unfolding deliver_transitions
  deliver_transitions-IsRecorded db t =
      let mid = deliver_all probe deliver_uptime bounded db t false t.triggered in
      (
        All-map _ _ t.triggered (λ i. later-IsRecorded mid t true false t.resolved i)
            (deliver_all-IsRecorded db t false t.triggered),
        deliver_all-IsRecorded mid t true t.resolved,
      )
