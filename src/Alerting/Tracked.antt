-- ===== src/Alerting/Tracked.antt =====
-- The engine's map follows the open alerts of the table (alerting/engine.go): the invariant, what
-- keeps it, and its consequence that a rule has at most one open alert of a node.
use text.Mathlib.TextEquality.{eq_iff}
use mizu_panel.Prelude.{
  ℕ, ◌≤◌, ◌<◌, ◌≡◌, refl, ap, String, Bool, true, false, ◌&&◌, Option, none, some, List, [], ◌∷◌,
  arith, ◌==◌, ==_iff, if◌then◌else◌, count_if, All, Option-cases, inl, inr,
}
use mizu_panel.Tables.{All-map}
use mizu_panel.Alerting.Model.{
  AlertHistory, AlertState, States, is_key, set_state, Engine, is_active,
}

-- The entry is that of the open alert with this id.
abbrev pub tracks : Option AlertState → ℕ → Bool
tracks none i = false
tracks (some s) i = s.triggered && s.history_id == i

abbrev pub IsFollowed : {F : Type 0} → States → AlertHistory F → Type 0
IsFollowed states h = is_active h ≡ true → tracks (states h.rule_id h.node_id) h.id ≡ true

pub record IsTracked {F : Type 0} (e : Engine F) : Type 0 where
  pub followed : All (IsFollowed e.states) e.histories
  pub ids_positive : All (λ h. 0 < h.id) e.histories
  pub ids_below : All (λ h. h.id < e.next_history_id) e.histories
  pub ids_unique : (i : ℕ) → count_if (λ h. h.id == i) e.histories ≤ 1
  pub next_positive : 0 < e.next_history_id

-- The open alerts of a rule and a node.
abbrev pub open_alerts : {F : Type 0} → Engine F → ℕ → String → ℕ
open_alerts e rule_id node_id =
    count_if (λ h. is_active h && is_key rule_id node_id h.rule_id h.node_id) e.histories

pub is_key_refl : (r : ℕ) (n : String) → is_key r n r n ≡ true
is_key_refl r n = rw (((==_iff r r).1 refl), ((eq_iff n n).1 refl))

pub is_key_eq : (r q : ℕ) (n m : String) → is_key r n q m ≡ true → (q ≡ r) × (m ≡ n)
is_key_eq r q n m h = ((==_iff q r).0 (ground arith), (eq_iff m n).0 (ground arith))

pub set_state_same :
    (states : States) (r : ℕ) (n : String) (entry : Option AlertState)
    → set_state states r n entry r n ≡ entry
set_state_same states r n entry = ap (λ b. if b then entry else states r n) (is_key_refl r n)

-- What an assignment leaves at any key, for a property that holds of the entry and of the old map.
pub set_state_cases {κ} :
    (P : Option AlertState → Type κ) (states : States) (r q : ℕ) (n m : String)
    → (entry : Option AlertState) → (is_key r n q m ≡ true → P entry)
    → (is_key r n q m ≡ false → P (states q m))
    → P (set_state states r n entry q m)
set_state_cases P states r q n m entry = chosen P (is_key r n q m) entry (states q m)
  where
    chosen :
        (P : Option AlertState → Type κ) (b : Bool) (x y : Option AlertState)
        → (b ≡ true → P x)
        → (b ≡ false → P y)
        → P (if b then x else y)
    chosen P true x y f g = f refl
    chosen P false x y f g = g refl

count_if_within :
    {F : Type 0} (p q : AlertHistory F → Bool) (hs : List (AlertHistory F))
    → All (λ h. p h ≡ true → q h ≡ true) hs
    → count_if p hs ≤ count_if q hs
count_if_within p q [] a = omega arith
count_if_within p q (h ∷ hs) a = ground (arith, a.0, count_if_within p q hs a.1)

pub count_if_never :
    {F : Type 0} (p : AlertHistory F → Bool) (hs : List (AlertHistory F))
    → All (λ h. p h ≡ true → true ≡ false) hs
    → count_if p hs ≡ 0
count_if_never p [] a = refl
count_if_never p (h ∷ hs) a = ground (arith, a.0, count_if_never p hs a.1)

-- An open alert of the key is the one that the entry names.
pub open_named :
    {F : Type 0} (e : Engine F) (r : ℕ) (n : String) (h : AlertHistory F)
    → IsFollowed e.states h
    → (is_active h && is_key r n h.rule_id h.node_id) ≡ true
    → tracks (e.states r n) h.id ≡ true
open_named e r n h f t =
    let same = is_key_eq r h.rule_id n h.node_id (ground arith) in
    let followed : tracks (e.states h.rule_id h.node_id) h.id ≡ true = f (ground arith) in
    rw (same.0, same.1) at followed

pub IsTracked-open_alerts :
    {F : Type 0} (e : Engine F) (r : ℕ) (n : String) → IsTracked e → open_alerts e r n ≤ 1
IsTracked-open_alerts e r n v = elim (Option-cases (e.states r n)) [
  | inl gone ↦ omega (
    arith,
    count_if_never (λ h. is_active h && is_key r n h.rule_id h.node_id) e.histories
        (All-map (IsFollowed e.states) _ e.histories
          (λ h f t. let named = open_named e r n h f t in ground (arith, gone, named)) v.followed),
  )
  | inr (s, found) ↦ omega (
    arith,
    v.ids_unique s.history_id,
    count_if_within (λ h. is_active h && is_key r n h.rule_id h.node_id) (λ h. h.id == s.history_id)
        e.histories
        (All-map (IsFollowed e.states) _ e.histories
          (λ h f t. let named = open_named e r n h f t in ground (arith, found, named)) v.followed),
  )
]
