-- ===== src/Uptime/Exclusive.antt =====
-- Checks that overlap (uptime/engine.go: beginCheck, endCheck, CheckNow, Sweep, BeginMonitorMutation).
use mizu_panel.Prelude.{
  ℕ, suc, ◌≤◌, ◌≡◌, refl, sym, ◌∙◌, true, false, not, List, [], ◌∷◌, arith, ◌==◌, ==_iff,
  if◌then◌else◌, select, count_if, Bool-cases, inl, inr,
}
use mizu_panel.Uptime.Engine.{begin_check, end_check}

-- The table, with one entry in `holders` for every goroutine that is between its begin and its end.
pub record Lock : Type 0 where
  pub active : List ℕ
  pub holders : List ℕ

abbrev pub holding : ℕ → List ℕ → ℕ
holding id = count_if (λ h. h == id)

-- One goroutine of the id ends.
abbrev pub drop_one : ℕ → List ℕ → List ℕ
drop_one id [] = []
drop_one id (h ∷ hs) = if h == id then hs else h ∷ drop_one id hs

-- Goroutines take turns in any order: one begins and gets the monitor, one is refused, or a holder
-- ends.
pub data Turn : Lock → Lock → Type 0 where
  begins :
      (l : Lock) (id : ℕ)
      → (begin_check l.active id).0 ≡ true
      → Turn l (record { active = (begin_check l.active id).1; holders = id ∷ l.holders })
  refused :
      (l : Lock) (id : ℕ)
      → (begin_check l.active id).0 ≡ false
      → Turn l (record l { active = (begin_check l.active id).1 })
  ends :
      (l : Lock) (id : ℕ)
      → 1 ≤ holding id l.holders
      → Turn l (record { active = end_check l.active id; holders = drop_one id l.holders })

pub data Turns : Lock → Type 0 where
  idle : Turns (record { active = []; holders = [] })
  then_turn : (l l' : Lock) → Turns l → Turn l l' → Turns l'

-- The table counts the holders, and no monitor has two.
pub record IsExclusive (l : Lock) : Type 0 where
  pub counted : (id : ℕ) → holding id l.active ≡ holding id l.holders
  pub single : (id : ℕ) → holding id l.holders ≤ 1

holding_others :
    (id other : ℕ) (hs : List ℕ)
    → (id == other) ≡ false
    → (holding other (select (λ a. not (a == id)) hs) ≡ holding other hs)
      × (holding other (drop_one id hs) ≡ holding other hs)
holding_others id other [] ne = (refl, refl)
holding_others id other (h ∷ hs) ne =
    let (a, b) = holding_others id other hs ne in (ground (arith, a, ne), ground (arith, b, ne))

holding_own :
    (id : ℕ) (hs : List ℕ)
    → (holding id (select (λ a. not (a == id)) hs) ≡ 0)
      × (holding id (drop_one id hs) ≤ holding id hs)
      × (1 ≤ holding id hs → suc (holding id (drop_one id hs)) ≡ holding id hs)
holding_own id [] = (refl, omega arith, λ t. absurd (omega (arith, t)))
holding_own id (h ∷ hs) =
    let (a, b, c) = holding_own id hs in
    (ground (arith, a), ground (arith, b), λ t. ground (arith, c, t))

turn-IsExclusive : (l l' : Lock) → IsExclusive l → Turn l l' → IsExclusive l'
unfolding begin_check end_check
turn-IsExclusive _ _ v (begins l id free) = record {
  counted = λ i. ground (arith, v.counted i, free);
  single = λ i. ground (arith, v.counted id, v.single i, free);
}
turn-IsExclusive _ _ v (refused l id busy) = record {
  counted = λ i. ground (arith, v.counted i, busy);
  single = v.single;
}
turn-IsExclusive _ _ v (ends l id held) = record {
  counted = λ i. elim (Bool-cases (id == i)) [
    | inl own ↦
        let e : id ≡ i = (==_iff id i).0 own in
        let (none_left, _, _) = holding_own id l.active in
        let (_, _, one_less) = holding_own id l.holders in
        let both : holding id (end_check l.active id) ≡ holding id (drop_one id l.holders) =
          omega (arith, none_left, one_less held, v.single id) in
        rw (sym e) both
    | inr other ↦
        (holding_others id i l.active other).0
        ∙ v.counted i
        ∙ sym (holding_others id i l.holders other).1
  ];
  single = λ i. elim (Bool-cases (id == i)) [
    | inl own ↦
        let e : id ≡ i = (==_iff id i).0 own in
        let few : holding id (drop_one id l.holders) ≤ 1 =
          omega (arith, (holding_own id l.holders).1, v.single id) in
        rw (sym e) few
    | inr other ↦ omega (arith, (holding_others id i l.holders other).1, v.single i)
  ];
}

-- In any interleaving of begins and ends of checks and changes, at most one of a monitor is under
-- way, and a begin is refused exactly while one is.
pub begin_check_once :
    (l : Lock) (id : ℕ)
    → Turns l
    → (holding id l.holders ≤ 1) × ((begin_check l.active id).0 ≡ (holding id l.holders == 0))
unfolding begin_check
begin_check_once l id r =
    let v = turns-IsExclusive l r in (v.single id, ground (arith, v.counted id))
  where
    turns-IsExclusive : (l : Lock) → Turns l → IsExclusive l
    turns-IsExclusive _ (idle) = record { counted = λ i. refl; single = λ i. omega arith }
    turns-IsExclusive _ (then_turn l l' r step) = turn-IsExclusive l l' (turns-IsExclusive l r) step
