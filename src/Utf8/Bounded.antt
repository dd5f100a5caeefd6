-- ===== src/Utf8/Bounded.antt =====
-- boundTaskText (store/tasks.go) and boundValidUTF8 (agent/taskrunner/runner.go): the longest valid
-- beginning within the limit.
use mizu_panel.Prelude.{
  ℕ, zero, suc, ◌-◌, ◌≤◌, ◌<◌, ◌≡◌, refl, sym, ap, ◌∙◌, inl, inr, true, false, not, List, [], ◌∷◌,
  ◌++◌, arith, leb, length, take, drop, take-append-drop, length-take, length-append, Bool-cases,
  leb→le,
}
use mathlib.Core.List.{append_assoc, append-nil}
use mizu_panel.Utf8.{
  valid_from, valid_string, to_valid_utf8, trim_invalid, drop_last, bound_task_text,
  bound_valid_utf8,
}
use mizu_panel.Utf8.Validity.{valid_string-to_valid_utf8, to_valid_utf8_valid}

take-take : (n m : ℕ) (xs : List ℕ) → n ≤ m → take n (take m xs) ≡ take n xs
take-take zero m xs h = refl
take-take (suc n) zero xs h = absurd (omega arith)
take-take (suc n) (suc m) [] h = refl
take-take (suc n) (suc m) (x ∷ xs) h = ap (◌∷◌ x) (take-take n m xs (omega arith))

take-length : (xs : List ℕ) → take (length xs) xs ≡ xs
take-length [] = refl
take-length (x ∷ xs) = ap (◌∷◌ x) (take-length xs)

-- `s` is a valid beginning of `t`, no longer beginning of `t` is valid.
pub record IsLongestValid (s t : List ℕ) : Type 0 where
  pub valid : valid_string s ≡ true
  pub prefix : (rest : List ℕ) × (t ≡ s ++ rest)
  pub longest : (n : ℕ) → length s < n → n ≤ length t → valid_string (take n t) ≡ false

IsLongestValid-self : (t : List ℕ) → valid_string t ≡ true → IsLongestValid t t
IsLongestValid-self t h = record {
  valid = h;
  prefix = ([], sym (append-nil t));
  longest = λ n l k. absurd (omega arith);
}

IsLongestValid-drop_last :
    (s t : List ℕ) → valid_string t ≡ false → IsLongestValid s (drop_last t) → IsLongestValid s t
IsLongestValid-drop_last s t h v = record {
  valid = v.valid;
  prefix = (
    v.prefix.0 ++ drop (length t - 1) t,
    sym (take-append-drop (length t - 1) t)
        ∙ ap (λ z. z ++ drop (length t - 1) t) v.prefix.1
        ∙ append_assoc s v.prefix.0 _,
  );
  longest = λ n l k. elim (Bool-cases (leb n (length t - 1))) [
    | inl below ↦
        rw (← take-take n (length t - 1) t (leb→le _ _ below)) (
          v.longest n l
            (omega (arith, leb→le n (length t - 1) below, length-take (length t - 1) t)))
    | inr last ↦ let all : n ≡ length t = ground arith in rw (all, take-length t) h
  ];
}

trim_invalid-IsLongestValid :
    (fuel : ℕ) (t : List ℕ) → length t ≤ fuel → IsLongestValid (trim_invalid fuel t) t
unfolding trim_invalid
trim_invalid-IsLongestValid zero [] h = IsLongestValid-self [] (unfold valid_from in refl)
trim_invalid-IsLongestValid zero (x ∷ xs) h = absurd (omega arith)
trim_invalid-IsLongestValid (suc fuel) t h = elim (Bool-cases (valid_string t)) [
  | inl good ↦ rw (good, trim_invalid) (IsLongestValid-self t good)
  | inr bad ↦
      rw (bad, trim_invalid)
        (IsLongestValid-drop_last _ t bad (
          trim_invalid-IsLongestValid fuel (drop_last t)
            (omega (arith, length-take (length t - 1) t))))
]

-- Where the text has been made valid, the result is the longest valid beginning of its first
-- `limit` bytes, or all of it when it fits.
pub record IsBounded (value : List ℕ) (limit : ℕ) (result : List ℕ) : Type 0 where
  pub within : length result ≤ limit
  pub longest_valid : IsLongestValid result (take limit (to_valid_utf8 value))
  pub all_if_fits : length (to_valid_utf8 value) ≤ limit → result ≡ to_valid_utf8 value

fits_or : (n m : ℕ) → leb n m ≡ false → n ≤ m → ⊥
fits_or n m h k = ground arith

take_all : (n : ℕ) (xs : List ℕ) → length xs ≤ n → take n xs ≡ xs
take_all zero [] h = refl
take_all zero (x ∷ xs) h = absurd (omega arith)
take_all (suc n) [] h = refl
take_all (suc n) (x ∷ xs) h = ap (◌∷◌ x) (take_all n xs (omega arith))

IsLongestValid-length : (s t : List ℕ) → IsLongestValid s t → length s ≤ length t
IsLongestValid-length s t v = omega (arith, ap length v.prefix.1, length-append s v.prefix.0)

-- The bounded text is at most `limit` bytes long and is the longest valid UTF-8 beginning of the
-- first `limit` bytes of the text made valid, all of it when that fits; the flag is set exactly
-- when it does not fit.
pub bound_task_text-IsBounded :
    (value : List ℕ) (limit : ℕ)
    → IsBounded value limit (bound_task_text value limit).0
      × ((bound_task_text value limit).1 ≡ not (leb (length (to_valid_utf8 value)) limit))
unfolding bound_task_text
bound_task_text-IsBounded value limit =
    elim (Bool-cases (leb (length (to_valid_utf8 value)) limit)) [
      | inl fits ↦
          let h = leb→le _ _ fits in
          rw (fits, bound_task_text)
            (
              record {
                within = h;
                longest_valid =
                    rw (take_all limit (to_valid_utf8 value) h)
                      (IsLongestValid-self _ (valid_string-to_valid_utf8 value));
                all_if_fits = λ k. refl;
              },
              refl,
            )
      | inr long ↦
          let t = take limit (to_valid_utf8 value) in
          let size = length-take limit (to_valid_utf8 value) in
          let best = trim_invalid-IsLongestValid limit t (omega (arith, size)) in
          rw (long, bound_task_text)
            (
              record {
                within = omega (arith, size, IsLongestValid-length _ t best);
                longest_valid = best;
                all_if_fits = λ k. absurd (fits_or (length (to_valid_utf8 value)) limit long k);
              },
              refl,
            )
    ]

-- The agent's boundValidUTF8 returns the text that the server's boundTaskText returns, for every
-- text and limit.
pub bound_valid_utf8-eq-bound_task_text :
    (value : List ℕ) (limit : ℕ) → bound_valid_utf8 value limit ≡ (bound_task_text value limit).0
unfolding bound_valid_utf8 bound_task_text
bound_valid_utf8-eq-bound_task_text value limit = elim (Bool-cases (valid_string value)) [
  | inl good ↦ rw (good, bound_valid_utf8) (rw (to_valid_utf8_valid value good) (ground arith))
  | inr bad ↦ rw (bad, bound_valid_utf8) (ground arith)
]
