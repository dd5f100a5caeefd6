-- ===== src/SshOps/Streams.antt =====
-- What the subscribers of a job receive (sshops/jobs.go).
use mizu_panel.Prelude.{
  ℕ, zero, suc, ◌-◌, ◌+◌, ◌≤◌, ◌≡◌, refl, sym, ap, ◌∙◌, String, Bool, true, false, List, [], ◌∷◌,
  ◌++◌, arith, ltb, length, All, All-append, Bool-cases, inl, inr,
}
use mathlib.Core.List.{append_assoc, append-nil}
use mizu_panel.Prelude.Result.{ok, ok_unique}
use mizu_panel.Tables.{All-map}
use mizu_panel.SshOps.Jobs.{
  ProgressStatus, ProgressEvent, Channel, Job, put, put_all, close_channels, finish_add, sanitized,
  add, set_status, clear_secrets, new_job, new_channel, is_open_status, subscribe,
}

length-append : (xs ys : List ProgressEvent) → length (xs ++ ys) ≡ length xs + length ys
length-append [] ys = omega arith
length-append (x ∷ xs) ys = omega (arith, length-append xs ys)

-- A channel of the job is open, and with its history it has every event, unless more than its
-- buffer holds have followed the history.
pub record IsFollowing (events : List ProgressEvent) (c : Channel) : Type 0 where
  pub still_open : c.closed ≡ false
  pub in_buffer : c.waiting ≤ length c.accepted
  pub complete : length events ≤ length c.history + 16 → c.history ++ c.accepted ≡ events

-- A channel that the job has left is closed, and unless more than 16 events have followed its history
-- it has, with its history, the events up to some event.
pub record IsClosed (events : List ProgressEvent) (c : Channel) : Type 0 where
  pub is_closed : c.closed ≡ true
  pub partial :
      length events ≤ length c.history + 16
      → (later : List ProgressEvent) × ((c.history ++ c.accepted) ++ later ≡ events)

pub record IsStreaming (j : Job) : Type 0 where
  pub following : All (IsFollowing j.events) j.subscribers
  pub ended : All (IsClosed j.events) j.left

put-IsFollowing :
    (events : List ProgressEvent) (e : ProgressEvent) (c : Channel)
    → IsFollowing events c
    → (d : Channel) × (put e c ≡ ok d) × IsFollowing (events ++ e ∷ []) d
put-IsFollowing events e c v = elim (Bool-cases (ltb c.waiting 16)) [
  | inl room ↦ (
    record c { accepted = c.accepted ++ e ∷ []; waiting = suc c.waiting },
    rw (v.still_open, room) refl,
    record {
      still_open = v.still_open;
      in_buffer = omega (arith, v.in_buffer, length-append c.accepted (e ∷ []));
      complete = λ few.
          sym (append_assoc c.history c.accepted (e ∷ []))
          ∙ ap (λ es. es ++ e ∷ [])
              (v.complete (omega (arith, few, length-append events (e ∷ []))));
    },
  )
  | inr full ↦ (
    c,
    rw (v.still_open, full) refl,
    record {
      still_open = v.still_open;
      in_buffer = v.in_buffer;
      complete = λ few.
          let whole = v.complete (omega (arith, few, length-append events (e ∷ []))) in
          absurd (
            ground (
              arith,
              full,
              v.in_buffer,
              few,
              length-append events (e ∷ []),
              ap length whole,
              length-append c.history c.accepted,
            ));
    },
  )
]

put_all-IsFollowing :
    (events : List ProgressEvent) (e : ProgressEvent) (cs : List Channel)
    → All (IsFollowing events) cs
    → (ds : List Channel) × (put_all e cs ≡ ok ds) × All (IsFollowing (events ++ e ∷ [])) ds
put_all-IsFollowing events e [] a = ([], refl, tt)
put_all-IsFollowing events e (c ∷ cs) a =
    let (d, one, v) = put-IsFollowing events e c a.0 in
    let (ds, rest, w) = put_all-IsFollowing events e cs a.1 in (d ∷ ds, rw (one, rest) refl, (v, w))

close_channels-IsClosed :
    (events : List ProgressEvent) (cs : List Channel)
    → All (IsFollowing events) cs
    → (ds : List Channel) × (close_channels cs ≡ ok ds) × All (IsClosed events) ds
close_channels-IsClosed events [] a = ([], refl, tt)
close_channels-IsClosed events (c ∷ cs) a =
    let (ds, rest, w) = close_channels-IsClosed events cs a.1 in
    let v = a.0 in
    (
      record c { closed = true } ∷ ds,
      rw (v.still_open, rest) refl,
      (
        record {
          is_closed = refl;
          partial = λ few. ([], append-nil (c.history ++ c.accepted) ∙ v.complete few);
        },
        w,
      ),
    )

later-IsClosed :
    (events : List ProgressEvent) (e : ProgressEvent) (c : Channel)
    → IsClosed events c
    → IsClosed (events ++ e ∷ []) c
later-IsClosed events e c v = record {
  is_closed = v.is_closed;
  partial = λ few.
      let (later, same) = v.partial (omega (arith, few, length-append events (e ∷ []))) in
      (
        later ++ e ∷ [],
        sym (append_assoc (c.history ++ c.accepted) later (e ∷ [])) ∙ ap (λ es. es ++ e ∷ []) same,
      );
}

finish_last :
    (j : Job) (is_done : Bool) (cs ds : List Channel)
    → is_done ≡ true
    → close_channels cs ≡ ok ds
    → finish_add j is_done cs ≡ ok (record j { subscribers = []; left = j.left ++ ds })
finish_last j is_done cs ds h e = rw (h, e) refl

pub add-IsStreaming :
    (replace_all : String → String → String → String) (j : Job) (event : ProgressEvent)
    → IsStreaming j
    → (j' : Job) × (add replace_all j event ≡ ok j')
      × IsStreaming j'
      × (event.is_done ≡ true → j'.subscribers ≡ [])
unfolding add
add-IsStreaming replace_all j event v =
    let stored = sanitized replace_all j event in
    let (cs, sent, w) = put_all-IsFollowing j.events stored j.subscribers v.following in
    let ended = All-map _ _ j.left (λ c. later-IsClosed j.events stored c) v.ended in
    elim (Bool-cases event.is_done) [
      | inr more ↦ (
        record j { events = j.events ++ stored ∷ []; subscribers = cs },
        rw (sent, more) refl,
        record { following = w; ended = ended },
        λ t. absurd (ground (arith, more, t)),
      )
      | inl last ↦
          let (ds, closed, u) = close_channels-IsClosed (j.events ++ stored ∷ []) cs w in
          (
            record j { events = j.events ++ stored ∷ []; subscribers = []; left = j.left ++ ds },
            rw sent (
                finish_last (record j { events = j.events ++ stored ∷ [] }) event.is_done cs ds last
                  closed),
            record { following = tt; ended = All-append _ j.left ds ended u },
            λ t. refl,
          )
    ]

subscribe-IsStreaming : (j : Job) → IsStreaming j → IsStreaming (subscribe j)
unfolding subscribe
subscribe-IsStreaming j v = elim (Bool-cases (is_open_status j.status)) [
  | inl on ↦ rw on (record {
    following = All-append _ j.subscribers (new_channel j.events false ∷ []) v.following (
      record { still_open = refl; in_buffer = omega arith; complete = λ few. append-nil j.events },
      tt,
    );
    ended = v.ended;
  })
  | inr off ↦ rw off (record {
    following = v.following;
    ended = All-append _ j.left (new_channel j.events true ∷ []) v.ended (
      record {
        is_closed = refl;
        partial = λ few. ([], append-nil (j.events ++ []) ∙ append-nil j.events);
      },
      tt,
    );
  })
]

-- A subscriber takes one event out of the buffer of its channel.
abbrev pub receive : ℕ → List Channel → List Channel
receive n [] = []
receive zero (c ∷ cs) = record c { waiting = c.waiting - 1 } ∷ cs
receive (suc n) (c ∷ cs) = c ∷ receive n cs

receive-IsFollowing :
    (events : List ProgressEvent) (n : ℕ) (cs : List Channel)
    → All (IsFollowing events) cs
    → All (IsFollowing events) (receive n cs)
receive-IsFollowing events n [] a = tt
receive-IsFollowing events zero (c ∷ cs) a =
    let v = a.0 in
    (
      record {
        still_open = v.still_open;
        in_buffer = omega (arith, v.in_buffer);
        complete = v.complete;
      },
      a.1,
    )
receive-IsFollowing events (suc n) (c ∷ cs) a = (a.0, receive-IsFollowing events n cs a.1)

-- The goroutine of the job, and subscribers, in any order.
pub data Step (replace_all : String → String → String → String) : Job → Job → Type 0 where
  adds :
      (j j' : Job) (event : ProgressEvent) → add replace_all j event ≡ ok j' → Step replace_all j j'
  sets : (j : Job) (status : ProgressStatus) → Step replace_all j (set_status j status)
  clears : (j : Job) → Step replace_all j (clear_secrets j)
  subscribes : (j : Job) → Step replace_all j (subscribe j)
  receives :
      (j : Job) (n : ℕ) → Step replace_all j (record j { subscribers = receive n j.subscribers })

pub data Reach (replace_all : String → String → String → String) (start : Job) : Job → Type 0 where
  here : Reach replace_all start start
  then_step :
      (j j' : Job) → Reach replace_all start j → Step replace_all j j' → Reach replace_all start j'

module _ (replace_all : String → String → String → String) where
  step-IsStreaming : (j j' : Job) → IsStreaming j → Step replace_all j j' → IsStreaming j'
  unfolding set_status clear_secrets
  step-IsStreaming _ _ v (adds j j' event e) =
      let (made, done, w, _) = add-IsStreaming replace_all j event v in
      let same : made ≡ j' = ok_unique done e in rw same at w
  step-IsStreaming _ _ v (sets j status) = record { following = v.following; ended = v.ended }
  step-IsStreaming _ _ v (clears j) = record { following = v.following; ended = v.ended }
  step-IsStreaming _ _ v (subscribes j) = subscribe-IsStreaming j v
  step-IsStreaming _ _ v (receives j n) = record {
    following = receive-IsFollowing j.events n j.subscribers v.following;
    ended = v.ended;
  }

  reach-IsStreaming :
      (secrets : List String) (j : Job) → Reach replace_all (new_job secrets) j → IsStreaming j
  reach-IsStreaming secrets _ (here) = record { following = tt; ended = tt }
  reach-IsStreaming secrets _ (then_step j j' r step) =
      step-IsStreaming j j' (reach-IsStreaming secrets j r) step

  -- In a job, after any sequence of events, changes of its status, subscriptions and receipts, no
  -- further event panics. After it every channel of the job is open and, unless more than 16 events
  -- have followed its history, has had every event, in order, after its history; the channels that
  -- the job has left are closed and, on the same condition, have had a beginning of these events;
  -- and after a final event the job has no channels.
  pub reach-add :
      (secrets : List String) (j : Job) (event : ProgressEvent)
      → Reach replace_all (new_job secrets) j
      → (j' : Job) × (add replace_all j event ≡ ok j')
        × IsStreaming j'
        × (event.is_done ≡ true → j'.subscribers ≡ [])
  reach-add secrets j event r = add-IsStreaming replace_all j event (reach-IsStreaming secrets j r)
