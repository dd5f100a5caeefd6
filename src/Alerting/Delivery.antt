-- ===== src/Alerting/Delivery.antt =====
-- The delivery of a notification to its channels (alerting/engine.go: deliverNotifications,
-- deliverChannelWithRetry).
--
-- `send` is what the notifier answers to each attempt for a channel, none for no error; `cancelled` tells
-- before which attempts the context ends. The goroutines of the channels share nothing.
use mizu_panel.Prelude.{
  ℕ, suc, ◌+◌, ◌-◌, ◌⊎◌, ◌≤◌, ◌<◌, ◌≡◌, sym, ap, ◌∙◌, String, Bool, true, false, not, ◌&&◌, ◌||◌,
  Option, none, some, List, [], ◌∷◌, arith, ltb, ◌==◌, if◌then◌else◌, length, Bool-cases,
  Option-cases, inl, inr,
}

pub record DeliveryError : Type 0 where
  pub message : String
  pub retryable : Bool

abbrev pub request_canceled : DeliveryError
request_canceled = record { message = "request canceled"; retryable = false }

abbrev pub is_last : List ℕ → Bool
is_last [] = true
is_last (d ∷ ds) = false

-- The error of the delivery and how often the notifier was asked.
pub record Attempts : Type 0 where
  pub error : Option DeliveryError
  pub sends : ℕ

abbrev pub one_more : Attempts → Attempts
one_more a = record a { sends = suc a.sends }

-- The loop over the delays, from an attempt on.
abbrev pub deliver_from :
    (ℕ → Option DeliveryError) → (ℕ → Bool) → List ℕ → ℕ → Option DeliveryError → Attempts
deliver_from send cancelled [] attempt last = record { error = last; sends = 0 }
deliver_from send cancelled (delay ∷ delays) attempt last =
    if ltb 0 delay && cancelled attempt
    then record { error = some request_canceled; sends = 0 }
    else elim (send attempt) [
      | none ↦ record { error = none; sends = 1 }
      | some e ↦
          if not e.retryable || is_last delays
          then record { error = some e; sends = 1 }
          else one_more (deliver_from send cancelled delays (suc attempt) (some e))
    ]

unfoldable pub deliver_channel_with_retry :
    (ℕ → Option DeliveryError) → (ℕ → Bool) → List ℕ → Attempts
deliver_channel_with_retry send cancelled delays = deliver_from send cancelled delays 0 none

pub record NotificationDeliveryResult : Type 0 where
  pub sent : Bool
  pub errors : List (String × String)

-- A channel is its type with the answers of its attempts.
abbrev pub failed_channels :
    (ℕ → Bool) → List ℕ → List (String × (ℕ → Option DeliveryError)) → List (String × String)
failed_channels cancelled delays [] = []
failed_channels cancelled delays ((type, send) ∷ channels) =
    elim (deliver_channel_with_retry send cancelled delays).error [
      | none ↦ failed_channels cancelled delays channels
      | some e ↦ (type, e.message) ∷ failed_channels cancelled delays channels
    ]

abbrev pub is_nil : List (String × String) → Bool
is_nil [] = true
is_nil (e ∷ es) = false

-- A rule without channels has nothing sent.
unfoldable pub deliver_notifications :
    (ℕ → Bool) → List ℕ → List (String × (ℕ → Option DeliveryError)) → NotificationDeliveryResult
deliver_notifications cancelled delays [] = record { sent = false; errors = [] }
deliver_notifications cancelled delays (c ∷ channels) =
    let errors = failed_channels cancelled delays (c ∷ channels) in
    record { sent = is_nil errors; errors = errors }

-- The attempts before the one that succeeds are refused in a way that can be tried again.
pub record IsDelivered (send : ℕ → Option DeliveryError) (first count : ℕ) : Type 0 where
  pub success : ℕ
  pub in_time : success < count
  pub accepted : send (first + success) ≡ none
  pub refused :
      (j : ℕ)
      → j < success
      → (e : DeliveryError) × (send (first + j) ≡ some e) × (e.retryable ≡ true)

refused_at :
    (send : ℕ → Option DeliveryError) (a b : ℕ)
    → a ≡ b
    → (e : DeliveryError) × (send a ≡ some e) × (e.retryable ≡ true)
    → (e : DeliveryError) × (send b ≡ some e) × (e.retryable ≡ true)
refused_at send a b same (e, refused, again) = (e, ap send (sym same) ∙ refused, again)

module _ (send : ℕ → Option DeliveryError) (cancelled : ℕ → Bool) where
  -- One turn of a loop that ends without an error.
  deliver_turn :
      (delay : ℕ) (delays : List ℕ) (attempt : ℕ) (last : Option DeliveryError)
      → (deliver_from send cancelled (delay ∷ delays) attempt last).error ≡ none
      → (send attempt ≡ none)
        ⊎ ((e : DeliveryError) × (send attempt ≡ some e)
            × (e.retryable ≡ true)
            × ((deliver_from send cancelled delays (suc attempt) (some e)).error ≡ none))
  deliver_turn delay delays attempt last h = elim (Bool-cases (ltb 0 delay && cancelled attempt)) [
    | inl stops ↦
        let bad : some request_canceled ≡ none = rw (stops, deliver_from) at h in absurd cc
    | inr goes ↦ elim (Option-cases (send attempt)) [
      | inl accepted ↦ inl accepted
      | inr (e, refused) ↦ elim (Bool-cases (not e.retryable || is_last delays)) [
        | inl ends ↦
            let bad : some e ≡ none = rw (goes, refused, ends, deliver_from) at h in absurd cc
        | inr again ↦
            inr (e, refused, ground (arith, again), rw (goes, refused, again, deliver_from) at h)
      ]
    ]
  ]

  turns_left :
      (delays : List ℕ) (attempt : ℕ) (e : DeliveryError)
      → (deliver_from send cancelled delays attempt (some e)).error ≡ none
      → 0 < length delays
  turns_left [] attempt e h = absurd cc
  turns_left (delay ∷ delays) attempt e h = omega arith

  deliver_from-IsDelivered :
      (delays : List ℕ) (attempt : ℕ) (last : Option DeliveryError)
      → 0 < length delays
      → (deliver_from send cancelled delays attempt last).error ≡ none
      → IsDelivered send attempt (length delays)
  deliver_from-IsDelivered [] attempt last n h = absurd (omega (arith, n))
  deliver_from-IsDelivered (delay ∷ delays) attempt last n h =
      elim (deliver_turn delay delays attempt last h) [
        | inl accepted ↦ record {
          success = 0;
          in_time = omega arith;
          accepted = ap send (omega arith) ∙ accepted;
          refused = λ j l. absurd (omega (arith, l));
        }
        | inr (e, refused, again, rest) ↦
            let v =
              deliver_from-IsDelivered delays (suc attempt) (some e)
                (turns_left delays (suc attempt) e rest) rest in
            record {
              success = suc v.success;
              in_time = omega (arith, v.in_time);
              accepted = ap send (omega arith) ∙ v.accepted;
              refused = λ j l. elim (Bool-cases (j == 0)) [
                | inl first ↦
                    refused_at send attempt (attempt + j) (ground (arith, first))
                      (e, refused, again)
                | inr later ↦
                    refused_at send (suc attempt + (j - 1)) (attempt + j) (ground (arith, later))
                      (v.refused (j - 1) (ground (arith, later, l)))
              ];
            }
      ]

  deliver_from-sends :
      (delays : List ℕ) (attempt : ℕ) (last : Option DeliveryError)
      → (deliver_from send cancelled delays attempt last).sends ≤ length delays
  deliver_from-sends [] attempt last = omega arith
  deliver_from-sends (delay ∷ delays) attempt last =
      elim (Bool-cases (ltb 0 delay && cancelled attempt)) [
        | inl stops ↦ rw (stops, deliver_from) (omega arith)
        | inr goes ↦ elim (Option-cases (send attempt)) [
          | inl accepted ↦ rw (goes, accepted, deliver_from) (omega arith)
          | inr (e, refused) ↦ elim (Bool-cases (not e.retryable || is_last delays)) [
            | inl ends ↦ rw (goes, refused, ends, deliver_from) (omega arith)
            | inr again ↦
                rw (goes, refused, again, deliver_from)
                  (omega (arith, deliver_from-sends delays (suc attempt) (some e)))
          ]
        ]
      ]

  -- Where there is at least one delay: a delivery to a channel asks the notifier at most as often
  -- as there are delays, and where it ends without an error, the notifier has accepted one of these
  -- attempts and has refused those before it with errors that may be tried again.
  pub deliver_channel_with_retry_lem :
      (delays : List ℕ)
      → 0 < length delays
      → (let attempts = deliver_channel_with_retry send cancelled delays in
          (attempts.error ≡ none → IsDelivered send 0 (length delays))
          × (attempts.sends ≤ length delays))
  unfolding deliver_channel_with_retry
  deliver_channel_with_retry_lem delays n =
      (deliver_from-IsDelivered delays 0 none n, deliver_from-sends delays 0 none)
