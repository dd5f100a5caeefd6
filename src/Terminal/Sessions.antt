-- ===== src/Terminal/Sessions.antt =====
-- The sessions over any sequence of messages and ends of shells (terminal/manager.go).
use text.Mathlib.Text.{◌==◌ as str_eq}
use text.Mathlib.TextEquality.{eq_iff}
use mizu_panel.Prelude.{
  ℕ, suc, ◌+◌, ◌≤◌, ◌≡◌, refl, ap, String, true, false, not, ◌&&◌, List, [], ◌∷◌, ◌++◌, arith,
  if◌then◌else◌, select, count_if, length, Bool-cases, inl, inr,
}
use mizu_panel.Tables.{count_if-update_where}
use mizu_panel.Terminal.Model.{Shell, Manager}
use mizu_panel.Terminal.Manager.{is_session, is_shell, kill}

abbrev pub session_count : String → List String → ℕ
session_count id = count_if (is_session id)

abbrev pub shell_count : String → List Shell → ℕ
shell_count id = count_if (is_shell id)

abbrev pub alive_of : String → List Shell → ℕ
alive_of id = count_if (λ s. s.alive && is_shell id s)

-- The shells of an id that were killed and whose end is still to be reported.
abbrev pub dead_of : String → List Shell → ℕ
dead_of id = count_if (λ s. not s.alive && is_shell id s)

abbrev pub alive_count : List Shell → ℕ
alive_count = count_if (λ s. s.alive)

-- The sessions are the shells that are alive.
pub record IsPaired (sessions : List String) (shells : List Shell) : Type 0 where
  pub unique : (id : String) → shell_count id shells ≤ 1
  pub paired : (id : String) → alive_of id shells ≡ session_count id sessions
  pub counted : alive_count shells ≡ length sessions

pub record IsServed (m : Manager) : Type 0 where
  pub pairing : IsPaired m.sessions m.shells
  pub few : length m.sessions ≤ 4

pub length-append : (xs : List String) (x : String) → length (xs ++ x ∷ []) ≡ suc (length xs)
length-append [] x = refl
length-append (y ∷ ys) x = ap suc (length-append ys x)

pub alive-le : (id : String) (shells : List Shell) → alive_of id shells ≤ shell_count id shells
alive-le id [] = omega arith
alive-le id (s ∷ ss) = ground (arith, alive-le id ss)

pub alive-add-dead :
    (id : String) (shells : List Shell)
    → alive_of id shells + dead_of id shells ≡ shell_count id shells
alive-add-dead id [] = refl
alive-add-dead id (s ∷ ss) = ground (arith, alive-add-dead id ss)

same_id : (a b : String) → is_session b a ≡ true → a ≡ b
same_id a b h = (eq_iff a b).0 h

-- What is left without one session.
pub without-length :
    (id : String) (ss : List String)
    → length (select (λ s. not (is_session id s)) ss) + session_count id ss ≡ length ss
without-length id [] = refl
without-length id (s ∷ ss) = ground (arith, without-length id ss)

pub without-count :
    (id other : String) (ss : List String)
    → session_count other (select (λ s. not (is_session id s)) ss)
      ≡ (if str_eq id other then 0 else session_count other ss)
without-count id other [] = ground arith
without-count id other (s ∷ ss) = elim (Bool-cases (is_session id s)) [
  | inl hit ↦
      let e : s ≡ id = same_id s id hit in rw (hit, e) (ground (arith, without-count id other ss))
  | inr miss ↦ elim (Bool-cases (str_eq id other)) [
    | inl same ↦
        let e : id ≡ other = (eq_iff id other).0 same in
        let gone : is_session other s ≡ false = rw e at miss in
        rw miss (ground (arith, gone, same, without-count id other ss))
    | inr ne ↦ rw miss (ground (arith, ne, without-count id other ss))
  ]
]

-- The same for the shells that are alive after one is killed or has ended.
pub kill-alive :
    (id : String) (ss : List Shell) → alive_count (kill id ss) + alive_of id ss ≡ alive_count ss
kill-alive id [] = refl
kill-alive id (s ∷ ss) = ground (arith, kill-alive id ss)

pub kill-count :
    (id other : String) (ss : List Shell) → shell_count other (kill id ss) ≡ shell_count other ss
kill-count id other ss = count_if-update_where (is_shell other) (is_shell id) _ ss (λ x t. refl)

pub kill-alive_of :
    (id other : String) (ss : List Shell)
    → alive_of other (kill id ss) ≡ (if str_eq id other then 0 else alive_of other ss)
kill-alive_of id other [] = ground arith
kill-alive_of id other (s ∷ ss) = elim (Bool-cases (str_eq s.session_id id)) [
  | inl hit ↦
      let e : s.session_id ≡ id = (eq_iff s.session_id id).0 hit in
      let same : str_eq s.session_id other ≡ str_eq id other = ap (λ t. str_eq t other) e in
      ground (arith, hit, same, kill-alive_of id other ss)
  | inr miss ↦ elim (Bool-cases (str_eq id other)) [
    | inl same ↦
        let e : id ≡ other = (eq_iff id other).0 same in
        let gone : str_eq s.session_id other ≡ false = rw e at miss in
        ground (arith, miss, gone, same, kill-alive_of id other ss)
    | inr ne ↦ ground (arith, miss, ne, kill-alive_of id other ss)
  ]
]

pub ended-alive :
    (id : String) (ss : List Shell)
    → alive_count (select (λ s. not (is_shell id s)) ss) + alive_of id ss ≡ alive_count ss
ended-alive id [] = refl
ended-alive id (s ∷ ss) = ground (arith, ended-alive id ss)

pub ended-alive_of :
    (id other : String) (ss : List Shell)
    → alive_of other (select (λ s. not (is_shell id s)) ss)
      ≡ (if str_eq id other then 0 else alive_of other ss)
ended-alive_of id other [] = ground arith
ended-alive_of id other (s ∷ ss) = elim (Bool-cases (str_eq s.session_id id)) [
  | inl hit ↦
      let e : s.session_id ≡ id = (eq_iff s.session_id id).0 hit in
      let same : str_eq s.session_id other ≡ str_eq id other = ap (λ t. str_eq t other) e in
      ground (arith, hit, same, ended-alive_of id other ss)
  | inr miss ↦ elim (Bool-cases (str_eq id other)) [
    | inl same ↦
        let e : id ≡ other = (eq_iff id other).0 same in
        let gone : str_eq s.session_id other ≡ false = rw e at miss in
        ground (arith, miss, gone, same, ended-alive_of id other ss)
    | inr ne ↦ ground (arith, miss, ne, ended-alive_of id other ss)
  ]
]
