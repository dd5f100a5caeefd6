-- ===== src/Terminal/Manager.antt =====
-- The handlers of the manager (terminal/manager.go).
use text.Mathlib.Text.{◌==◌ as str_eq}
use mizu_panel.Prelude.{
  ℕ, ◌*◌, String, Bool, true, false, not, Option, none, some, List, [], ◌∷◌, ◌++◌, ltb, leb, ◌==◌,
  if◌then◌else◌, select, count_if, length,
}
use mizu_panel.Prelude.Int.{ℤ, pos}
use mizu_panel.Tables.{update_where}
use mizu_panel.Terminal.Model.{
  MessageType, TerminalMessage, Shell, Manager, Answers, Base64, terminal_start, terminal_started,
  terminal_data, terminal_resize, terminal_close, terminal_exit, terminal_error,
}

abbrev pub max_sessions : ℕ
max_sessions = 4

abbrev pub max_terminal_payload_bytes : ℕ
max_terminal_payload_bytes = 64 * 1024

abbrev pub plain : MessageType → String → TerminalMessage
plain type session_id = record {
  type = type;
  session_id = session_id;
  payload = "";
  cols = 0;
  rows = 0;
  exit_code = pos 0;
  error = "";
}

abbrev pub send : Manager → TerminalMessage → Manager
send m message = record m { sent = m.sent ++ message ∷ [] }

abbrev pub send_error : Manager → String → String → Manager
send_error m session_id text = send m (record (plain terminal_error session_id) { error = text })

abbrev pub send_if : Manager → String → Option String → Manager
send_if m session_id none = m
send_if m session_id (some text) = send_error m session_id text

abbrev pub is_session : String → String → Bool
is_session id s = str_eq s id

abbrev pub is_shell : String → Shell → Bool
is_shell id s = str_eq s.session_id id

abbrev pub rows_or_default : ℕ → ℕ
rows_or_default rows = if rows == 0 then 24 else rows

abbrev pub cols_or_default : ℕ → ℕ
cols_or_default cols = if cols == 0 then 80 else cols

abbrev pub has_session : Manager → String → Bool
has_session m id = ltb 0 (count_if (is_session id) m.sessions)

-- The session of a successful startSession is stored and reported.
abbrev pub started : Manager → String → Manager
started m id =
    send
      (record m {
        sessions = m.sessions ++ id ∷ [];
        shells = m.shells ++ record { session_id = id; alive = true } ∷ [];
      })
      (plain terminal_started id)

unfoldable pub start : Manager → TerminalMessage → Answers → Manager
start m message answers =
    let id = message.session_id in
    if str_eq id ""
    then send_error m "" "终端会话缺少 session_id"
    else if has_session m id
    then send_error m id "终端会话已存在"
    else if leb max_sessions (length m.sessions)
    then send_error m id "终端会话数量已达上限"
    else elim answers.start_error [ some text ↦ send_error m id text | none ↦ started m id ]

-- session.write
abbrev pub write_session : Manager → String → List ℕ → Answers → Manager
write_session m id bytes answers =
    send_if (record m { written = m.written ++ (id, bytes) ∷ [] }) id answers.write_error

unfoldable pub write : Base64 → Manager → TerminalMessage → Answers → Manager
write base64 m message answers =
    let id = message.session_id in
    if ltb max_terminal_payload_bytes (base64.decoded_len message.payload)
    then send_error m id "终端输入过大"
    else elim (base64.decode_string message.payload) [
      | none ↦ send_error m id "终端输入数据无效"
      | some bytes ↦
          if ltb max_terminal_payload_bytes (length bytes)
          then send_error m id "终端输入过大"
          else if has_session m id
          then write_session m id bytes answers
          else m
    ]

unfoldable pub resize : Manager → TerminalMessage → Answers → Manager
resize m message answers =
    if has_session m message.session_id
    then send_if m message.session_id answers.resize_error
    else m

-- session.close
abbrev pub kill : String → List Shell → List Shell
kill id = update_where (is_shell id) (λ s. record s { alive = false })

unfoldable pub close : Manager → String → Manager
close m id = record m {
  sessions = select (λ s. not (is_session id s)) m.sessions;
  shells = if has_session m id then kill id m.shells else m.shells;
}

abbrev pub kill_each : List String → List Shell → List Shell
kill_each [] shells = shells
kill_each (id ∷ ids) shells = kill_each ids (kill id shells)

unfoldable pub close_all : Manager → Manager
close_all m = record m { sessions = []; shells = kill_each m.sessions m.shells }

-- emitExit, which waitLoop calls at the end of the process of the id.
unfoldable pub emit_exit : Manager → String → ℤ → Manager
emit_exit m id exit_code =
    send
      (record m {
        sessions = select (λ s. not (is_session id s)) m.sessions;
        shells = select (λ s. not (is_shell id s)) m.shells;
      })
      (record (plain terminal_exit id) { exit_code = exit_code })

unfoldable pub emit_data : Base64 → Manager → String → List ℕ → Manager
emit_data base64 m id bytes =
    send m (record (plain terminal_data id) { payload = base64.encode_to_string bytes })

abbrev pub dispatch : MessageType → Base64 → Manager → TerminalMessage → Answers → Manager
dispatch terminal_start base64 m message answers = start m message answers
dispatch terminal_data base64 m message answers = write base64 m message answers
dispatch terminal_resize base64 m message answers = resize m message answers
dispatch terminal_close base64 m message answers = close m message.session_id
dispatch _ base64 m message answers = m

unfoldable pub handle : Base64 → Manager → TerminalMessage → Answers → Manager
handle base64 m message answers =
    if not m.enabled
    then send_error m message.session_id "Agent 未启用终端"
    else dispatch message.type base64 m message answers
