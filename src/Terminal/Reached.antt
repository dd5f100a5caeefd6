-- ===== src/Terminal/Reached.antt =====
-- Sequences of messages and ends of shells (terminal/manager.go).
use mizu_panel.Prelude.{
  ℕ, ◌≤◌, ◌≡◌, refl, String, Bool, true, List, [], arith, length, Bool-cases, inl, inr,
}
use mizu_panel.Prelude.Int.{ℤ}
use mizu_panel.Terminal.Model.{TerminalMessage, Manager, Answers, Base64}
use mizu_panel.Terminal.Manager.{close_all, emit_exit, emit_data, handle}
use mizu_panel.Terminal.Sessions.{
  session_count, shell_count, alive_of, alive_count, IsServed, alive-le,
}
use mizu_panel.Terminal.Served.{IsFresh, emit_exit-IsServed, close_all-IsServed, dispatch-IsServed}

abbrev pub new_manager : Bool → Manager
new_manager enabled = record {
  enabled = enabled;
  sessions = [];
  shells = [];
  sent = [];
  written = [];
}

-- A message of the server, the output or the end of a shell, or the end of the connection.
pub data Step : Manager → Manager → Type 0 where
  handles :
      (base64 : Base64) (m : Manager) (message : TerminalMessage) (answers : Answers)
      → IsFresh message.type message.session_id m.shells
      → Step m (handle base64 m message answers)
  outputs :
      (base64 : Base64) (m : Manager) (id : String) (bytes : List ℕ)
      → Step m (emit_data base64 m id bytes)
  exits :
      (m : Manager) (id : String) (exit_code : ℤ)
      → 1 ≤ shell_count id m.shells
      → Step m (emit_exit m id exit_code)
  closes_all : (m : Manager) → Step m (close_all m)

pub data Reach (start : Manager) : Manager → Type 0 where
  here : Reach start start
  then_step : (m m' : Manager) → Reach start m → Step m m' → Reach start m'

step-IsServed : (m m' : Manager) → IsServed m → Step m m' → IsServed m'
unfolding handle emit_data
step-IsServed _ _ v (handles base64 m message answers fresh) = elim (Bool-cases m.enabled) [
  | inl on ↦ rw on (
      dispatch-IsServed message.type base64 (record m { enabled = true }) message answers
        (record { pairing = v.pairing; few = v.few }) fresh)
  | inr off ↦ rw off (record { pairing = v.pairing; few = v.few })
]
step-IsServed _ _ v (outputs base64 m id bytes) = record { pairing = v.pairing; few = v.few }
step-IsServed _ _ v (exits m id exit_code there) = emit_exit-IsServed m id exit_code v
step-IsServed _ _ v (closes_all m) = close_all-IsServed m v

reach-IsServed : (enabled : Bool) (m : Manager) → Reach (new_manager enabled) m → IsServed m
reach-IsServed enabled _ (here) = record {
  pairing = record { unique = λ i. omega arith; paired = λ i. refl; counted = refl };
  few = omega arith;
}
reach-IsServed enabled _ (then_step m m' r step) =
    step-IsServed m m' (reach-IsServed enabled m r) step

-- After any sequence of messages, outputs, ends of shells and closings of all sessions of a new
-- manager, where a start never names the id of a shell that was killed and whose end is still to be
-- reported: the shells that are alive are the sessions, at most four, and at most one of an id.
pub reach-alive_count :
    (enabled : Bool) (m : Manager)
    → Reach (new_manager enabled) m
    → (alive_count m.shells ≡ length m.sessions)
      × (alive_count m.shells ≤ 4)
      × ((id : String) → alive_of id m.shells ≡ session_count id m.sessions)
      × ((id : String) → session_count id m.sessions ≤ 1)
reach-alive_count enabled m r =
    let v = reach-IsServed enabled m r in
    let p = v.pairing in
    (
      p.counted,
      omega (arith, p.counted, v.few),
      p.paired,
      λ id. omega (arith, p.paired id, p.unique id, alive-le id m.shells),
    )
