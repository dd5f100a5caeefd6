-- ===== src/Terminal/Tests.antt =====
-- The theorem on a concrete run, and runs of the handlers (terminal/manager.go).
use mizu_panel.Prelude.{◌≤◌, ◌≡◌, refl, String, true, false, none, some, List, [], ◌∷◌, length, map}
use mizu_panel.Terminal.Model.{
  MessageType, Manager, Answers, Base64, terminal_start, terminal_data, terminal_close,
  terminal_started, terminal_error,
}
use mizu_panel.Terminal.Manager.{plain, handle, start, write, close}
use mizu_panel.Terminal.Sessions.{alive_count, alive_of, session_count}
use mizu_panel.Terminal.Reached.{new_manager, Reach, here, then_step, handles, reach-alive_count}

abbrev fine : Answers
fine = record { start_error = none; write_error = none; resize_error = none }

abbrev base64 : Base64
base64 = record {
  decode_string = λ s. some (104 ∷ 105 ∷ []);
  decoded_len = λ s. 3;
  encode_to_string = λ b. "aGk=";
}

abbrev run : Manager → MessageType → String → Manager
run m type id = handle base64 m (plain type id) fine

abbrev one : Manager
one = run (new_manager true) terminal_start "a"

abbrev types : Manager → List MessageType
types m = map (λ t. t.type) m.sent

-- A second start of an id is refused, and so is a fifth session.
starts_refused :
    types (
      run
        (run
          (run
            (run
              (run (run (new_manager true) terminal_start "a") terminal_start "a")
              terminal_start
              "b")
            terminal_start
            "c")
          terminal_start
          "d")
        terminal_start
        "e")
    ≡ terminal_started ∷ terminal_error ∷ terminal_started ∷ terminal_started ∷ terminal_started
      ∷ terminal_error ∷ []
unfolding handle start
starts_refused = refl

-- Input after a close is dropped.
write_after_close : (run (run one terminal_close "a") terminal_data "a").written ≡ []
unfolding handle start write close
write_after_close = refl

disabled_refuses : types (run (new_manager false) terminal_start "a") ≡ terminal_error ∷ []
unfolding handle
disabled_refuses = refl

one-Reach : Reach (new_manager true) one
one-Reach =
    then_step (new_manager true) one (here)
      (handles base64 (new_manager true) (plain terminal_start "a") fine refl)

reach-alive_count_example :
    (alive_count one.shells ≡ length one.sessions)
    × (alive_count one.shells ≤ 4)
    × ((id : String) → alive_of id one.shells ≡ session_count id one.sessions)
    × ((id : String) → session_count id one.sessions ≤ 1)
reach-alive_count_example = reach-alive_count true one one-Reach
