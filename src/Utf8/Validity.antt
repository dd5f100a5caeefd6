-- ===== src/Utf8/Validity.antt =====
-- The result of strings.ToValidUTF8 is valid, and a valid text is left as it is.
use mizu_panel.Prelude.{
  ℕ, zero, suc, ◌-◌, ◌≤◌, ◌≡◌, refl, ap, ◌⊎◌, inl, inr, Bool, true, false, List, [], ◌∷◌, ◌++◌,
  arith, length, Bool-cases, if◌then◌else◌,
}
use mizu_panel.Utf8.{
  encoding_size, second_low, second_high, tail_ok, rune_size, valid_from, valid_string,
  to_valid_from, to_valid_utf8, replacement,
}

ℕ-cases : (n : ℕ) → (n ≡ 0) ⊎ ((k : ℕ) × (n ≡ suc k))
ℕ-cases zero = inl refl
ℕ-cases (suc k) = inr (k, refl)

zero_ne_suc : (k : ℕ) → 0 ≡ suc k → ⊥
zero_ne_suc k h = omega arith

tail_ok-length : (n low high : ℕ) (xs : List ℕ) → tail_ok n low high xs ≡ true → n ≤ length xs
unfolding tail_ok
tail_ok-length zero low high xs h = omega arith
tail_ok-length (suc n) low high [] h = cc
tail_ok-length (suc n) low high (x ∷ xs) h = ground (arith, tail_ok-length n 0x80 0xbf xs)

-- The bytes that are copied pass the same tests.
tail_ok-to_valid_from :
    (n low high : ℕ) (bad : Bool) (xs : List ℕ)
    → tail_ok n low high xs ≡ true
    → tail_ok n low high (to_valid_from n bad xs) ≡ true
unfolding tail_ok to_valid_from
tail_ok-to_valid_from zero low high bad xs h = refl
tail_ok-to_valid_from (suc n) low high bad [] h = cc
tail_ok-to_valid_from (suc n) low high bad (x ∷ xs) h =
    ground (arith, tail_ok-to_valid_from n 0x80 0xbf bad xs)

rune_size_inv :
    (c k : ℕ) (cs : List ℕ)
    → rune_size c cs ≡ suc k
    → (encoding_size c ≡ suc k) × (tail_ok k (second_low c) (second_high c) cs ≡ true)
unfolding rune_size
rune_size_inv c k cs h =
    elim (Bool-cases (tail_ok (encoding_size c - 1) (second_low c) (second_high c) cs)) [
      | inl t ↦
          let size : encoding_size c ≡ suc k = rw (t, rune_size) at h in
          let rest : encoding_size c - 1 ≡ k = omega arith in (size, rw rest at t)
      | inr f ↦ absurd (zero_ne_suc k (rw (f, rune_size) at h))
    ]

rune_size_intro :
    (c k : ℕ) (cs : List ℕ)
    → encoding_size c ≡ suc k
    → tail_ok k (second_low c) (second_high c) cs ≡ true
    → rune_size c cs ≡ suc k
unfolding rune_size
rune_size_intro c k cs e h =
    let rest : k ≡ encoding_size c - 1 = omega arith in
    let t : tail_ok (encoding_size c - 1) (second_low c) (second_high c) cs ≡ true = rw rest at h in
    rw (t, rune_size) e

-- The replacement itself is valid.
valid_from-replacement : (xs : List ℕ) → valid_from 0 (replacement ++ xs) ≡ valid_from 0 xs
unfolding valid_from rune_size tail_ok encoding_size second_low second_high
valid_from-replacement xs = refl

valid_from-replaced :
    (bad : Bool) (xs : List ℕ)
    → valid_from 0 ((if bad then [] else replacement) ++ xs) ≡ valid_from 0 xs
valid_from-replaced true xs = refl
valid_from-replaced false xs = valid_from-replacement xs

-- A head that starts a valid encoding of `suc k` bytes.
valid_from-cons :
    (c k : ℕ) (cs : List ℕ) → rune_size c cs ≡ suc k → valid_from 0 (c ∷ cs) ≡ valid_from k cs
unfolding valid_from
valid_from-cons c k cs e = rw (e, valid_from)

to_valid_from-good :
    (c k : ℕ) (bad : Bool) (cs : List ℕ)
    → rune_size c cs ≡ suc k
    → to_valid_from 0 bad (c ∷ cs) ≡ c ∷ to_valid_from k false cs
unfolding to_valid_from
to_valid_from-good c k bad cs e = rw (e, to_valid_from)

to_valid_from-bad :
    (c : ℕ) (bad : Bool) (cs : List ℕ)
    → rune_size c cs ≡ 0
    → to_valid_from 0 bad (c ∷ cs) ≡ (if bad then [] else replacement) ++ to_valid_from 0 true cs
unfolding to_valid_from
to_valid_from-bad c bad cs e = rw (e, to_valid_from)

rune_size-to_valid_from :
    (c k : ℕ) (cs : List ℕ)
    → rune_size c cs ≡ suc k
    → rune_size c (to_valid_from k false cs) ≡ suc k
rune_size-to_valid_from c k cs e =
    let (size, t) = rune_size_inv c k cs e in
    rune_size_intro c k _ size (tail_ok-to_valid_from k _ _ false cs t)

valid_from-to_valid_from :
    (k : ℕ) (bad : Bool) (xs : List ℕ)
    → k ≤ length xs
    → valid_from k (to_valid_from k bad xs) ≡ true
unfolding valid_from to_valid_from
valid_from-to_valid_from zero bad [] h = refl
valid_from-to_valid_from (suc k) bad [] h = absurd (omega arith)
valid_from-to_valid_from (suc k) bad (c ∷ cs) h = valid_from-to_valid_from k bad cs (omega arith)
valid_from-to_valid_from zero bad (c ∷ cs) h = elim (ℕ-cases (rune_size c cs)) [
  | inl e ↦
      rw (to_valid_from-bad c bad cs e, valid_from-replaced bad (to_valid_from 0 true cs))
        (valid_from-to_valid_from 0 true cs (omega arith))
  | inr (k, e) ↦
      let (size, t) = rune_size_inv c k cs e in
      rw (to_valid_from-good c k bad cs e) (
        rw (valid_from-cons c k _ (rune_size-to_valid_from c k cs e))
          (valid_from-to_valid_from k false cs (tail_ok-length k _ _ cs t)))
]

-- strings.ToValidUTF8 gives a valid text.
pub valid_string-to_valid_utf8 : (value : List ℕ) → valid_string (to_valid_utf8 value) ≡ true
valid_string-to_valid_utf8 value = valid_from-to_valid_from 0 false value (omega arith)

false_true {ℓ} : {A : Type ℓ} → false ≡ true → A
false_true h = cc

to_valid_from_valid :
    (k : ℕ) (bad : Bool) (xs : List ℕ) → valid_from k xs ≡ true → to_valid_from k bad xs ≡ xs
unfolding valid_from to_valid_from
to_valid_from_valid zero bad [] h = refl
to_valid_from_valid (suc k) bad [] h = refl
to_valid_from_valid (suc k) bad (c ∷ cs) h = ap (◌∷◌ c) (to_valid_from_valid k bad cs h)
to_valid_from_valid zero bad (c ∷ cs) h = elim (ℕ-cases (rune_size c cs)) [
  | inl e ↦ false_true (rw (e, valid_from) at h)
  | inr (k, e) ↦
      rw (to_valid_from-good c k bad cs e)
        (ap (◌∷◌ c) (to_valid_from_valid k false cs (rw (valid_from-cons c k cs e) at h)))
]

-- It leaves a valid text as it is.
pub to_valid_utf8_valid : (value : List ℕ) → valid_string value ≡ true → to_valid_utf8 value ≡ value
to_valid_utf8_valid value h = to_valid_from_valid 0 false value h
