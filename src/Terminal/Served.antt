-- ===== src/Terminal/Served.antt =====
-- Every operation keeps the sessions and the shells together (terminal/manager.go).
use text.Mathlib.Text.{◌==◌ as str_eq}
use text.Mathlib.TextEquality.{eq_iff}
use mizu_panel.Prelude.{
  ◌≡◌, refl, sym, ap, ◌∙◌, String, true, false, not, ◌&&◌, Option, none, some, List, [], ◌∷◌, ◌++◌,
  arith, ltb, leb, if◌then◌else◌, select, length, Bool-cases, Option-cases, inl, inr,
}
use mizu_panel.Prelude.Int.{ℤ}
use mizu_panel.Tables.{count_if-append, select_le}
use mizu_panel.Terminal.Model.{
  MessageType, TerminalMessage, Shell, Manager, Answers, Base64, terminal_start, terminal_started,
  terminal_data, terminal_resize, terminal_close, terminal_exit, terminal_error, other_type,
}
use mizu_panel.Terminal.Manager.{
  max_terminal_payload_bytes, is_session, is_shell, has_session, start, write, resize, kill, close,
  kill_each, close_all, emit_exit, dispatch, send_if,
}
use mizu_panel.Terminal.Sessions.{
  session_count, shell_count, dead_of, IsPaired, IsServed, length-append, alive-le, alive-add-dead,
  without-length, without-count, kill-alive, kill-count, kill-alive_of, ended-alive, ended-alive_of,
}

abbrev new_shell : String → Shell
new_shell id = record { session_id = id; alive = true }

started-IsPaired :
    (ss : List String) (shells : List Shell) (id : String)
    → shell_count id shells ≡ 0
    → IsPaired ss shells
    → IsPaired (ss ++ id ∷ []) (shells ++ new_shell id ∷ [])
started-IsPaired ss shells id fresh v = record {
  unique = λ i. elim (Bool-cases (str_eq id i)) [
    | inl own ↦
        let e : id ≡ i = (eq_iff id i).0 own in
        let none_there : shell_count i shells ≡ 0 = rw e at fresh in
        ground (arith, own, count_if-append (is_shell i) shells (new_shell id ∷ []), none_there)
    | inr other ↦
        ground (arith, other, count_if-append (is_shell i) shells (new_shell id ∷ []), v.unique i)
  ];
  paired = λ i. ground (
    arith,
    count_if-append (λ s. s.alive && is_shell i s) shells (new_shell id ∷ []),
    count_if-append (is_session i) ss (id ∷ []),
    v.paired i,
  );
  counted = ground (
    arith,
    count_if-append (λ s. s.alive) shells (new_shell id ∷ []),
    length-append ss id,
    v.counted,
  );
}

killed-IsPaired :
    (ss : List String) (shells : List Shell) (id : String)
    → IsPaired ss shells
    → IsPaired (select (λ s. not (is_session id s)) ss) (kill id shells)
killed-IsPaired ss shells id v = record {
  unique = λ i. omega (arith, v.unique i, kill-count id i shells);
  paired = λ i.
      kill-alive_of id i shells
      ∙ ap (λ n. if str_eq id i then 0 else n) (v.paired i)
      ∙ sym (without-count id i ss);
  counted = omega (arith, v.counted, v.paired id, kill-alive id shells, without-length id ss);
}

ended-IsPaired :
    (ss : List String) (shells : List Shell) (id : String)
    → IsPaired ss shells
    → IsPaired (select (λ s. not (is_session id s)) ss) (select (λ s. not (is_shell id s)) shells)
ended-IsPaired ss shells id v = record {
  unique = λ i. omega (arith, v.unique i, select_le (is_shell i) (λ s. not (is_shell id s)) shells);
  paired = λ i.
      ended-alive_of id i shells
      ∙ ap (λ n. if str_eq id i then 0 else n) (v.paired i)
      ∙ sym (without-count id i ss);
  counted = omega (arith, v.counted, v.paired id, ended-alive id shells, without-length id ss);
}

select_absent :
    (id : String) (ss : List String)
    → session_count id ss ≡ 0
    → select (λ s. not (is_session id s)) ss ≡ ss
select_absent id [] h = refl
select_absent id (s ∷ ss) h = elim (Bool-cases (is_session id s)) [
  | inl hit ↦ absurd (ground (arith, hit, h))
  | inr miss ↦ rw miss (ap (λ r. s ∷ r) (select_absent id ss (rw miss at h)))
]

-- The sessions are closed one after the other.
kill_each-IsPaired :
    (ss : List String) (shells : List Shell)
    → IsPaired ss shells
    → IsPaired [] (kill_each ss shells)
kill_each-IsPaired [] shells v = v
kill_each-IsPaired (id ∷ ids) shells v =
    let own : str_eq id id ≡ true = (eq_iff id id).1 refl in
    let alone : session_count id ids ≡ 0 =
      ground (arith, own, v.unique id, v.paired id, alive-le id shells) in
    let rest = killed-IsPaired (id ∷ ids) shells id v in
    kill_each-IsPaired ids (kill id shells) (rw (own, select_absent id ids alone) at rest)

abbrev pub SameSessions : Manager → Manager → Type 0
SameSessions m m' = (m'.sessions ≡ m.sessions) × (m'.shells ≡ m.shells)

send_if_same : (m : Manager) (id : String) (e : Option String) → SameSessions m (send_if m id e)
send_if_same m id none = (refl, refl)
send_if_same m id (some text) = (refl, refl)

write_same :
    (base64 : Base64) (m : Manager) (message : TerminalMessage) (answers : Answers)
    → SameSessions m (write base64 m message answers)
unfolding write
write_same base64 m message answers =
    elim (Bool-cases (ltb max_terminal_payload_bytes (base64.decoded_len message.payload))) [
      | inl large ↦ rw large (refl, refl)
      | inr fits ↦ elim (Option-cases (base64.decode_string message.payload)) [
        | inl bad ↦ rw (fits, bad, write) (refl, refl)
        | inr (bytes, e) ↦ elim (Bool-cases (ltb max_terminal_payload_bytes (length bytes))) [
          | inl large ↦ rw (fits, e, large, write) (refl, refl)
          | inr small ↦ elim (Bool-cases (has_session m message.session_id)) [
            | inl there ↦
                rw (fits, e, small, there, write)
                  (send_if_same
                    (record m { written = m.written ++ (message.session_id, bytes) ∷ [] })
                    message.session_id answers.write_error)
            | inr gone ↦ rw (fits, e, small, gone, write) (refl, refl)
          ]
        ]
      ]
    ]

resize_same :
    (m : Manager) (message : TerminalMessage) (answers : Answers)
    → SameSessions m (resize m message answers)
unfolding resize
resize_same m message answers = elim (Bool-cases (has_session m message.session_id)) [
  | inl there ↦ rw there (send_if_same m message.session_id answers.resize_error)
  | inr gone ↦ rw gone (refl, refl)
]

pub same-IsServed : (m m' : Manager) → SameSessions m m' → IsServed m → IsServed m'
same-IsServed m m' (a, b) v =
    let p : IsPaired m'.sessions m'.shells = rw (a, b) v.pairing in
    record { pairing = p; few = rw a v.few }

-- A session that is not in the table, and whose shells have all ended, has no shell.
free_no_shell :
    (m : Manager) (id : String)
    → IsServed m
    → has_session m id ≡ false
    → dead_of id m.shells ≡ 0
    → shell_count id m.shells ≡ 0
free_no_shell m id v free ended =
    let none_there : session_count id m.sessions ≡ 0 = ground (arith, free) in
    omega (arith, none_there, ended, v.pairing.paired id, alive-add-dead id m.shells)

start-IsServed :
    (m : Manager) (message : TerminalMessage) (answers : Answers)
    → IsServed m
    → dead_of message.session_id m.shells ≡ 0
    → IsServed (start m message answers)
unfolding start
start-IsServed m message answers v ended = elim (Bool-cases (str_eq message.session_id "")) [
  | inl nameless ↦ rw nameless (record { pairing = v.pairing; few = v.few })
  | inr named ↦ elim (Bool-cases (has_session m message.session_id)) [
    | inl there ↦ rw (named, there) (record { pairing = v.pairing; few = v.few })
    | inr free ↦ elim (Bool-cases (leb 4 (length m.sessions))) [
      | inl full ↦ rw (named, free, full) (record { pairing = v.pairing; few = v.few })
      | inr room ↦ elim (Option-cases answers.start_error) [
        | inr (text, e) ↦
            rw (named, free, room, e, start) (record { pairing = v.pairing; few = v.few })
        | inl fine ↦
            rw (named, free, room, fine, start)
              (record {
                pairing =
                    started-IsPaired m.sessions m.shells message.session_id
                      (free_no_shell m message.session_id v free ended) v.pairing;
                few = ground (arith, room, length-append m.sessions message.session_id);
              })
      ]
    ]
  ]
]

close-IsServed : (m : Manager) (id : String) → IsServed m → IsServed (close m id)
unfolding close
close-IsServed m id v = elim (Bool-cases (has_session m id)) [
  | inl there ↦ rw there (record {
    pairing = killed-IsPaired m.sessions m.shells id v.pairing;
    few = omega (arith, v.few, without-length id m.sessions);
  })
  | inr gone ↦
      rw (gone, select_absent id m.sessions (ground (arith, gone)))
        (record { pairing = v.pairing; few = v.few })
]

pub emit_exit-IsServed :
    (m : Manager) (id : String) (exit_code : ℤ) → IsServed m → IsServed (emit_exit m id exit_code)
unfolding emit_exit
emit_exit-IsServed m id exit_code v = record {
  pairing = ended-IsPaired m.sessions m.shells id v.pairing;
  few = omega (arith, v.few, without-length id m.sessions);
}

pub close_all-IsServed : (m : Manager) → IsServed m → IsServed (close_all m)
unfolding close_all
close_all-IsServed m v = record {
  pairing = kill_each-IsPaired m.sessions m.shells v.pairing;
  few = omega arith;
}

-- The id of a start is the id of no shell that was killed and whose end is still to be reported.
abbrev pub IsFresh : MessageType → String → List Shell → Type 0
IsFresh terminal_start id shells = dead_of id shells ≡ 0
IsFresh _ id shells = Unit

pub dispatch-IsServed :
    (type : MessageType) (base64 : Base64) (m : Manager) (message : TerminalMessage)
    (answers : Answers)
    → IsServed m
    → IsFresh type message.session_id m.shells
    → IsServed (dispatch type base64 m message answers)
dispatch-IsServed terminal_start base64 m message answers v fresh =
    start-IsServed m message answers v fresh
dispatch-IsServed terminal_data base64 m message answers v fresh =
    same-IsServed m _ (write_same base64 m message answers) v
dispatch-IsServed terminal_resize base64 m message answers v fresh =
    same-IsServed m _ (resize_same m message answers) v
dispatch-IsServed terminal_close base64 m message answers v fresh =
    close-IsServed m message.session_id v
dispatch-IsServed terminal_started base64 m message answers v fresh = v
dispatch-IsServed terminal_exit base64 m message answers v fresh = v
dispatch-IsServed terminal_error base64 m message answers v fresh = v
dispatch-IsServed other_type base64 m message answers v fresh = v
