-- ===== src/Alerting/Kept.antt =====
-- What keeps the map of the engine in step with the open alerts: changes of the map and of the table
-- (alerting/engine.go).
use mizu_panel.Prelude.{
  ℕ, ◌<◌, ◌≡◌, refl, ap, String, Bool, true, false, Option, none, some, List, arith, ◌==◌,
  if◌then◌else◌, count_if, All,
}
use mizu_panel.Prelude.Int.{ℤ}
use mizu_panel.Tables.{
  update_where, All-map, All-update_where, count_if-update_where, count_if_none,
}
use mizu_panel.Alerting.Model.{AlertHistory, AlertState, States, set_state, Engine}
use mizu_panel.Alerting.Engine.{evaluate_state}
use mizu_panel.Alerting.Tracked.{tracks, IsFollowed, IsTracked, is_key_eq, set_state_cases}

-- A change of the map that loses no open alert.
pub states-IsTracked :
    {F : Type 0} (e : Engine F) (states : States)
    → ((r : ℕ) (n : String) (i : ℕ) → tracks (e.states r n) i ≡ true → tracks (states r n) i ≡ true)
    → IsTracked e
    → IsTracked (record e { states = states })
states-IsTracked e states keep v = record {
  followed =
      All-map (IsFollowed e.states) _ e.histories (λ h f a. keep h.rule_id h.node_id h.id (f a))
        v.followed;
  ids_positive = v.ids_positive;
  ids_below = v.ids_below;
  ids_unique = v.ids_unique;
  next_positive = v.next_positive;
}

-- An UPDATE that keeps the keys and opens no alert.
module _ {F : Type 0} (e : Engine F) (p : AlertHistory F → Bool)
    (f : AlertHistory F → AlertHistory F) (same_id : (h : AlertHistory F) → (f h).id ≡ h.id)
    (same_rule : (h : AlertHistory F) → (f h).rule_id ≡ h.rule_id)
    (same_node : (h : AlertHistory F) → (f h).node_id ≡ h.node_id) where
  pub update-IsTracked :
      (states : States)
      → ((h : AlertHistory F) → IsFollowed e.states h → IsFollowed states (if p h then f h else h))
      → IsTracked e
      → IsTracked (record e { states = states; histories = update_where p f e.histories })
  update-IsTracked states keep v = record {
    followed =
        All-update_where (IsFollowed e.states) (IsFollowed states) p f e.histories keep v.followed;
    ids_positive =
        All-update_where _ _ p f e.histories (λ h l. ground (arith, same_id h)) v.ids_positive;
    ids_below = All-update_where _ _ p f e.histories (λ h l. ground (arith, same_id h)) v.ids_below;
    ids_unique = λ i. omega (
      arith,
      v.ids_unique i,
      count_if-update_where (λ h. h.id == i) p f e.histories (λ h t. ap (λ n. n == i) (same_id h)),
    );
    next_positive = v.next_positive;
  }

pub evaluate_state-tracks :
    (r : ℕ) (n : String) (d : ℤ) (now i : ℕ) (b : Bool) (entry : Option AlertState)
    → tracks entry i ≡ true
    → tracks (evaluate_state r n d now b entry).1 i ≡ true
evaluate_state-tracks r n d now i b none h = cc
evaluate_state-tracks r n d now i true (some s) h = h
evaluate_state-tracks r n d now i false (some s) h = ground arith

-- Where the evaluation is true, there is a state under the key.
pub evaluate_state_there :
    (r : ℕ) (n : String) (d : ℤ) (now : ℕ) (b : Bool) (entry : Option AlertState)
    → (evaluate_state r n d now b entry).0 ≡ true
    → (s : AlertState) × ((evaluate_state r n d now b entry).1 ≡ some s)
evaluate_state_there r n d now false none h = cc
evaluate_state_there r n d now false (some s) h = cc
evaluate_state_there r n d now true none h = (_, refl)
evaluate_state_there r n d now true (some s) h = (_, refl)

-- An assignment under one key that keeps what the entry there tracks.
pub assigned_tracks :
    (states : States) (r q : ℕ) (n m : String) (i : ℕ) (entry : Option AlertState)
    → (tracks (states r n) i ≡ true → tracks entry i ≡ true)
    → tracks (states q m) i ≡ true
    → tracks (set_state states r n entry q m) i ≡ true
assigned_tracks states r q n m i entry keep t =
    set_state_cases (λ x. tracks x i ≡ true) states r q n m entry
      (λ hit.
        let same = is_key_eq r q n m hit in
        let there : tracks (states r n) i ≡ true = rw (same.0, same.1) at t in keep there)
      (λ miss. t)

pub either-IsFollowed :
    {F : Type 0} (states : States) (b : Bool) (x y : AlertHistory F)
    → (b ≡ true → IsFollowed states x)
    → (b ≡ false → IsFollowed states y)
    → IsFollowed states (if b then x else y)
either-IsFollowed states true x y f g = f refl
either-IsFollowed states false x y f g = g refl

-- The open alerts that are left when the entry of a key and the alert that it names are gone.
pub left-IsFollowed :
    {F : Type 0} (states : States) (r : ℕ) (n : String) (s : AlertState) (h : AlertHistory F)
    → states r n ≡ some s
    → (h.id == s.history_id) ≡ false
    → IsFollowed states h
    → IsFollowed (set_state states r n none) h
left-IsFollowed states r n s h there other f a =
    assigned_tracks states r h.rule_id n h.node_id h.id none
      (λ t. absurd (ground (arith, there, other, t))) (f a)

pub fresh_id :
    {F : Type 0} (hs : List (AlertHistory F)) (next : ℕ)
    → All (λ h. h.id < next) hs
    → count_if (λ h. h.id == next) hs ≡ 0
fresh_id hs next below =
    count_if_none (λ h. h.id == next) hs (All-map _ _ hs (λ h l. ground arith) below)
