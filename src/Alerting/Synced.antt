-- ===== src/Alerting/Synced.antt =====
-- The synchronisation with the table, and the map after a restart (alerting/engine.go).
use mathlib.Core.Path.{subst}
use mizu_panel.Prelude.{
  ℕ, ◌≤◌, ◌<◌, ◌≡◌, ◌∙◌, String, true, false, ◌&&◌, Option, none, some, List, [], ◌∷◌, arith, ◌==◌,
  ==_iff, count_if, All, Bool-cases, Option-cases, inl, inr,
}
use mizu_panel.Tables.{All-map, All-both}
use mizu_panel.Alerting.Model.{AlertHistory, AlertState, is_key, Engine, is_active}
use mizu_panel.Alerting.Engine.{active_at, sync_state, sync_states, restored, initialize}
use mizu_panel.Alerting.Tracked.{tracks, IsFollowed, IsTracked, open_alerts, is_key_refl, is_key_eq}

-- What the search for the open alert of a key gives.
active_at-some {ℓ} :
    {F : Type 0} (P : AlertHistory F → Type ℓ) (hs : List (AlertHistory F)) (r : ℕ) (n : String)
    {k : AlertHistory F}
    → active_at hs r n ≡ some k
    → All P hs
    → P k × (is_active k ≡ true) × (is_key r n k.rule_id k.node_id ≡ true)
unfolding active_at
active_at-some P [] r n e a = cc
active_at-some P (h ∷ hs) r n {k} e a = elim (Option-cases (active_at hs r n)) [
  | inr (q, later) ↦ active_at-some P hs r n (later ∙ (rw later at e)) a.1
  | inl last ↦ elim (Bool-cases (is_active h && is_key r n h.rule_id h.node_id)) [
    | inl hit ↦
        let same : h ≡ k = ground (arith, last, hit, e) in
        (
          subst P same a.0,
          ground arith,
          subst (λ q. is_key r n q.rule_id q.node_id ≡ true) same (ground arith),
        )
    | inr miss ↦ absurd (ground (arith, last, miss, e))
  ]
]

active_at-none :
    {F : Type 0} (hs : List (AlertHistory F)) (r : ℕ) (n : String)
    → active_at hs r n ≡ none
    → All (λ h. (is_active h && is_key r n h.rule_id h.node_id) ≡ false) hs
unfolding active_at
active_at-none [] r n e = tt
active_at-none (h ∷ hs) r n e = elim (Option-cases (active_at hs r n)) [
  | inr (q, later) ↦ absurd (ground (arith, later, e))
  | inl last ↦ (ground (arith, last, e), active_at-none hs r n last)
]

active_at_counted :
    {F : Type 0} (hs : List (AlertHistory F)) (r : ℕ) (n : String) {k : AlertHistory F}
    → active_at hs r n ≡ some k
    → 0 < count_if (λ h. is_active h && is_key r n h.rule_id h.node_id) hs
unfolding active_at
active_at_counted [] r n e = cc
active_at_counted (h ∷ hs) r n e = elim (Option-cases (active_at hs r n)) [
  | inr (q, later) ↦ ground (arith, active_at_counted hs r n later)
  | inl last ↦ ground (arith, last, e)
]

-- Where a key has at most one open alert, that one is found.
active_at_only :
    {F : Type 0} (hs : List (AlertHistory F)) (r : ℕ) (n : String) {k : AlertHistory F}
    → active_at hs r n ≡ some k
    → count_if (λ h. is_active h && is_key r n h.rule_id h.node_id) hs ≤ 1
    → All (λ h. (is_active h && is_key r n h.rule_id h.node_id) ≡ true → k.id ≡ h.id) hs
unfolding active_at
active_at_only [] r n e u = tt
active_at_only (h ∷ hs) r n {k} e u = elim (Option-cases (active_at hs r n)) [
  | inr (q, later) ↦
      let there = active_at_counted hs r n later in
      (
        (λ t. absurd (ground (arith, there, t, u))),
        active_at_only hs r n (later ∙ (rw later at e)) (ground (arith, u)),
      )
  | inl last ↦ (
    (λ t. ground (arith, last, t, e)),
    All-map _ _ hs (λ g miss t. absurd (ground arith)) (active_at-none hs r n last),
  )
]

own_rows {κ} :
    {F : Type 0} (P : AlertHistory F → AlertHistory F → Type κ) (hs : List (AlertHistory F))
    → ((x : AlertHistory F) → All (P x) hs)
    → All (λ x. P x x) hs
own_rows P [] f = tt
own_rows P (x ∷ xs) f = ((f x).0, own_rows P xs (λ y. (f y).1))

synced :
    {F : Type 0} (h : AlertHistory F) (k : AlertHistory F) (o : Option AlertState)
    → tracks o h.id ≡ true
    → tracks o k.id ≡ true
    → tracks (sync_state (some k) o) h.id ≡ true
synced h k none f g = f
synced h k (some s) f g = ground arith

-- The synchronisation keeps every entry of an open alert.
pub sync_states-IsTracked : {F : Type 0} (e : Engine F) → IsTracked e → IsTracked (sync_states e)
sync_states-IsTracked {F} e v = record {
  followed =
      All-map _ _ e.histories (λ h (f, own) a. kept h f own a)
        (All-both (IsFollowed e.states) _ e.histories v.followed
          (own_rows _ e.histories (λ x. found x)));
  ids_positive = v.ids_positive;
  ids_below = v.ids_below;
  ids_unique = v.ids_unique;
  next_positive = v.next_positive;
}
  where
    found :
        (x : AlertHistory F)
        → All
            (λ h.
              active_at e.histories x.rule_id x.node_id ≡ none
              → (is_active h && is_key x.rule_id x.node_id h.rule_id h.node_id) ≡ false)
            e.histories
    found x = elim (Option-cases (active_at e.histories x.rule_id x.node_id)) [
      | inl gone ↦ All-map _ _ e.histories (λ h miss _. miss) (active_at-none e.histories _ _ gone)
      | inr (k, there) ↦
          All-map (IsFollowed e.states) _ e.histories (λ h _ gone. absurd cc) v.followed
    ]

    kept :
        (h : AlertHistory F)
        → IsFollowed e.states h
        → (active_at e.histories h.rule_id h.node_id ≡ none
            → (is_active h && is_key h.rule_id h.node_id h.rule_id h.node_id) ≡ false)
        → IsFollowed (sync_states e).states h
    kept h f own a = elim (Option-cases (active_at e.histories h.rule_id h.node_id)) [
      | inl gone ↦ absurd (ground (arith, own gone, a, is_key_refl h.rule_id h.node_id))
      | inr (k, there) ↦
          let (g, active, key) =
            active_at-some (IsFollowed e.states) e.histories _ _ there v.followed in
          let same = is_key_eq h.rule_id k.rule_id h.node_id k.node_id key in
          let followed : tracks (e.states k.rule_id k.node_id) k.id ≡ true = g active in
          rw there
            (synced h k (e.states h.rule_id h.node_id) (f a) (rw (same.0, same.1) at followed))
    ]

restored-tracks :
    {F : Type 0} (k : AlertHistory F) (now i : ℕ) (o : Option AlertState)
    → k.id ≡ i
    → tracks (restored now (some k) o) i ≡ true
restored-tracks k now i none h = (==_iff k.id i).1 h
restored-tracks k now i (some s) h = (==_iff k.id i).1 h

-- Where the ids of alerts are positive, unique and below the next, and a rule has at most one open
-- alert of a node, the map that Initialize builds follows the open alerts.
pub initialize-IsTracked :
    {F : Type 0} (e : Engine F) (now : ℕ)
    → All (λ h. 0 < h.id) e.histories
    → All (λ h. h.id < e.next_history_id) e.histories
    → ((i : ℕ) → count_if (λ h. h.id == i) e.histories ≤ 1)
    → 0 < e.next_history_id
    → ((r : ℕ) (n : String) → open_alerts e r n ≤ 1)
    → IsTracked (initialize e now)
initialize-IsTracked {F} e now positive below unique next single = record {
  followed =
      All-map _ _ e.histories (λ h own a. kept h own a) (own_rows _ e.histories (λ x. found x));
  ids_positive = positive;
  ids_below = below;
  ids_unique = unique;
  next_positive = next;
}
  where
    found :
        (x : AlertHistory F)
        → All
            (λ h.
              (is_active h && is_key x.rule_id x.node_id h.rule_id h.node_id) ≡ true
              → tracks ((initialize e now).states x.rule_id x.node_id) h.id ≡ true)
            e.histories
    found x = elim (Option-cases (active_at e.histories x.rule_id x.node_id)) [
      | inl gone ↦
          All-map (λ h. (is_active h && is_key x.rule_id x.node_id h.rule_id h.node_id) ≡ false) _
            e.histories (λ h miss t. absurd cc)
            (active_at-none e.histories x.rule_id x.node_id gone)
      | inr (k, there) ↦
          All-map _ _ e.histories
            (λ h only t.
              rw there (restored-tracks k now h.id (e.states x.rule_id x.node_id) (only t)))
            (active_at_only e.histories x.rule_id x.node_id there (single x.rule_id x.node_id))
    ]

    kept :
        (h : AlertHistory F)
        → ((is_active h && is_key h.rule_id h.node_id h.rule_id h.node_id) ≡ true
            → tracks ((initialize e now).states h.rule_id h.node_id) h.id ≡ true)
        → IsFollowed (initialize e now).states h
    kept h own a = own (ground (arith, a, is_key_refl h.rule_id h.node_id))
