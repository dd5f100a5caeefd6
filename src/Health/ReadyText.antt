-- ===== src/Health/ReadyText.antt =====
-- The counts of replicas that the agent prints are the counts that the server reads
-- (internal/agent/kubectl/client.go, servicecenter/health.go).
use mizu_panel.Prelude.{
  ℕ, zero, suc, ◌+◌, ◌-◌, ◌*◌, ◌/◌, ◌%◌, ◌^◌, ◌<◌, ◌≡◌, refl, ap, ◌∙◌, String, Bool, true, false,
  ◌||◌, none, some, [], ◌∷◌, ◌++◌, arith, ltb, ◌==◌, All, All-append, Bool-cases, inl, inr,
}
use mizu_panel.Prelude.Int.{pos}
use mizu_panel.Tables.{All-map}
use mizu_panel.Health.Model.{Resource}
use mizu_panel.Health.Ready.{
  Bytes, slash, digits, ready_text, split, is_digit, read_digits, atoi, parse_ready,
}
use mizu_panel.Health.Signals.{k8s_daemon_health, k8s_ready_health}

digits-is_digit : (fuel n : ℕ) → All (λ c. is_digit c ≡ true) (digits fuel n)
digits-is_digit zero n = tt
digits-is_digit (suc fuel) n = elim (Bool-cases (ltb n 10)) [
  | inl small ↦ rw small (ground (arith, small), tt)
  | inr large ↦ rw large (
      All-append _ (digits fuel (n / 10)) ((48 + n % 10) ∷ []) (digits-is_digit fuel (n / 10))
        (ground arith, tt))
]

read_digits-append :
    (n d : ℕ) (cs : Bytes) {m : ℕ}
    → is_digit d ≡ true
    → read_digits n cs ≡ some m
    → read_digits n (cs ++ d ∷ []) ≡ some (m * 10 + (d - 48))
read_digits-append n d [] {m} h e = let same : n ≡ m = cc in rw (h, same) refl
read_digits-append n d (c ∷ cs) {m} h e = elim (Bool-cases (is_digit c)) [
  | inl digit ↦ rw digit (read_digits-append (n * 10 + (c - 48)) d cs h (rw digit at e))
  | inr other ↦ absurd (let bad : none ≡ some m = rw other at e in cc)
]

-- Fuel above the number prints all its digits.
read_digits-digits : (fuel n : ℕ) → n < fuel → read_digits 0 (digits fuel n) ≡ some n
read_digits-digits zero n h = absurd (omega (arith, h))
read_digits-digits (suc fuel) n h = elim (Bool-cases (ltb n 10)) [
  | inl small ↦ rw small (ground (arith, small))
  | inr large ↦ rw large (
      read_digits-append 0 (48 + n % 10) (digits fuel (n / 10)) (ground arith)
        (read_digits-digits fuel (n / 10) (ground (arith, large, h)))
      ∙ ap some (omega arith))
]

digits_first :
    (fuel n : ℕ)
    → n < fuel
    → (c : ℕ) × (cs : Bytes) × (digits fuel n ≡ c ∷ cs) × (is_digit c ≡ true)
digits_first zero n h = absurd (omega (arith, h))
digits_first (suc fuel) n h = elim (Bool-cases (ltb n 10)) [
  | inl small ↦ (48 + n, [], rw small refl, ground (arith, small))
  | inr large ↦
      let (c, cs, e, d) = digits_first fuel (n / 10) (ground (arith, large, h)) in
      (c, cs ++ (48 + n % 10) ∷ [], rw (large, e) refl, d)
]

atoi-digits : (n : ℕ) → n < 2 ^ 63 → atoi (digits (suc n) n) ≡ some (pos n)
atoi-digits n h =
    let (c, cs, e, d) = digits_first (suc n) n (omega arith) in
    let read : read_digits 0 (c ∷ cs) ≡ some n =
      rw e at (read_digits-digits (suc n) n (omega arith)) in
    let plus : (c == 43) ≡ false = ground (arith, d) in
    let minus : (c == 45) ≡ false = ground (arith, d) in
    let fits : ltb n (2 ^ 63) ≡ true = ground (arith, h) in rw (e, plus, minus, read, fits) refl

-- Texts of digits on both sides of one slash are split there.
split_none : (cs : Bytes) → All (λ c. is_digit c ≡ true) cs → split slash cs ≡ cs ∷ []
split_none [] a = refl
split_none (c ∷ cs) a =
    let other : (c == 47) ≡ false = ground (arith, a.0) in rw (other, split_none cs a.1) refl

split-append :
    (cs ds : Bytes)
    → All (λ c. is_digit c ≡ true) cs
    → All (λ c. is_digit c ≡ true) ds
    → split slash (cs ++ slash ∷ ds) ≡ cs ∷ ds ∷ []
split-append [] ds a b = rw (split_none ds b) refl
split-append (c ∷ cs) ds a b =
    let other : (c == 47) ≡ false = ground (arith, a.0) in rw (other, split-append cs ds a.1 b) refl

abbrev pub is_ready_byte : ℕ → Bool
is_ready_byte c = is_digit c || c == slash

ready_text_first :
    (ready desired : ℕ) → (c : ℕ) × (cs : Bytes) × (ready_text ready desired ≡ c ∷ cs)
unfolding ready_text
ready_text_first ready desired =
    let (c, cs, e, d) = digits_first (suc ready) ready (omega arith) in
    (c, cs ++ slash ∷ digits (suc desired) desired, rw e refl)

module _ (trim : Bytes → Bytes) where
  -- Where trimming changes no text of digits and slashes, counts below 2 ^ 63 that are printed as
  -- `ready/desired` are read back.
  pub parse_ready-ready_text :
      (ready desired : ℕ)
      → ((s : Bytes) → All (λ c. is_ready_byte c ≡ true) s → trim s ≡ s)
      → ready < 2 ^ 63
      → desired < 2 ^ 63
      → parse_ready trim (ready_text ready desired) ≡ some (ready, desired)
  unfolding parse_ready ready_text
  parse_ready-ready_text ready desired trims r d =
      let left = digits (suc ready) ready in
      let right = digits (suc desired) desired in
      let a = digits-is_digit (suc ready) ready in
      let b = digits-is_digit (suc desired) desired in
      let wide : (s : Bytes)
          → All (λ c. is_digit c ≡ true) s
          → All (λ c. is_ready_byte c ≡ true) s =
        λ s. All-map _ _ s (λ c h. ground (arith, h)) in
      let whole : trim (left ++ slash ∷ right) ≡ left ++ slash ∷ right =
        trims (left ++ slash ∷ right)
          (All-append _ left (slash ∷ right) (wide left a) (refl, wide right b)) in
      rw
        (
          whole,
          split-append left right a b,
          trims left (wide left a),
          trims right (wide right b),
          atoi-digits ready r,
          atoi-digits desired d,
        )
        refl

  -- Where trimming changes no text of digits and slashes, the health that is computed from the text
  -- of two counts below 2 ^ 63 and a number of available replicas is the one that is computed for a
  -- daemon set with the same numbers.
  pub k8s_ready_health-eq-k8s_daemon_health :
      (resource : Resource) (ready desired free : ℕ) (unavailable_reason : String)
      → ((s : Bytes) → All (λ c. is_ready_byte c ≡ true) s → trim s ≡ s)
      → ready < 2 ^ 63
      → desired < 2 ^ 63
      → k8s_ready_health trim resource
          (ready_text ready desired)
          (some (pos free))
          unavailable_reason
        ≡ k8s_daemon_health resource
            (some
              (record { desired = pos desired; ready = pos ready; available_replicas = pos free }))
            unavailable_reason
  unfolding k8s_ready_health k8s_daemon_health
  k8s_ready_health-eq-k8s_daemon_health resource ready desired free unavailable_reason trims r d =
      let (c, cs, e) = ready_text_first ready desired in
      let read : parse_ready trim (c ∷ cs) ≡ some (ready, desired) =
        rw e at (parse_ready-ready_text ready desired trims r d) in
      rw (e, read) (ground arith)
