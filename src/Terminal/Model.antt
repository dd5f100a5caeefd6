-- ===== src/Terminal/Model.antt =====
-- Messages, sessions and shells (terminal/manager.go, protocol/messages.go).
--
-- A `*session` stands here by its id: the server draws the id of every session at random. `shells` are
-- the processes whose end waitLoop has not reported yet; a shell is alive until its session is closed.
-- The field `Data` of a message is `payload`. `sent` and `written` are what the sender and the terminals were given.
use mizu_panel.Prelude.{ℕ, String, Bool, Option, List}
use mizu_panel.Prelude.Int.{ℤ}

pub data MessageType : Type 0 where
  terminal_start terminal_started terminal_data terminal_resize terminal_close terminal_exit
        terminal_error other_type :
      MessageType

pub record TerminalMessage : Type 0 where
  pub type : MessageType
  pub session_id : String
  pub payload : String
  pub cols : ℕ
  pub rows : ℕ
  pub exit_code : ℤ
  pub error : String

pub record Shell : Type 0 where
  pub session_id : String
  pub alive : Bool

-- `enabled` with the ids of the map `sessions`.
pub record Manager : Type 0 where
  pub enabled : Bool
  pub sessions : List String
  pub shells : List Shell
  pub sent : List TerminalMessage
  pub written : List (String × List ℕ)

-- What the operating system answers to one message: the error of startSession, of a write and of a
-- resize.
pub record Answers : Type 0 where
  pub start_error : Option String
  pub write_error : Option String
  pub resize_error : Option String

-- `encoding/base64`: DecodeString, and DecodedLen of the length of a text.
pub record Base64 : Type 0 where
  pub decode_string : String → Option (List ℕ)
  pub decoded_len : String → ℕ
  pub encode_to_string : List ℕ → String
