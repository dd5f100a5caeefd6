-- ===== src/Tables.antt =====
-- SQL over lists of rows: the first row that a WHERE clause selects, and UPDATE … WHERE.
use mizu_panel.Prelude.{
  suc, ◌+◌, ◌≡◌, refl, ap, Bool, true, false, Option, none, some, List, [], ◌∷◌, ◌++◌, arith, ◌≤◌,
  if◌then◌else◌, select, count_if, length, All, Bool-cases, inl, inr,
}

module _ {ℓ} {A : Type ℓ} where
  abbrev pub find_first : (A → Bool) → List A → Option A
  find_first p [] = none
  find_first p (x ∷ xs) = if p x then some x else find_first p xs

  abbrev pub update_where : (A → Bool) → (A → A) → List A → List A
  update_where p f [] = []
  update_where p f (x ∷ xs) = (if p x then f x else x) ∷ update_where p f xs

  pub length-update_where :
      (p : A → Bool) (f : A → A) (xs : List A) → length (update_where p f xs) ≡ length xs
  length-update_where p f [] = refl
  length-update_where p f (x ∷ xs) = ap suc (length-update_where p f xs)

  pub count_if-append :
      (p : A → Bool) (xs ys : List A) → count_if p (xs ++ ys) ≡ count_if p xs + count_if p ys
  count_if-append p [] ys = omega arith
  count_if-append p (x ∷ xs) ys = ground (arith, count_if-append p xs ys)

module _ {ℓ} {A : Type ℓ} where
  -- What an UPDATE does to a property of every row.
  pub All-update_where {κ ι} :
      (P : A → Type κ) (Q : A → Type ι) (p : A → Bool) (f : A → A) (xs : List A)
      → ((x : A) → P x → Q (if p x then f x else x))
      → All P xs
      → All Q (update_where p f xs)
  All-update_where P Q p f [] h a = tt
  All-update_where P Q p f (x ∷ xs) h a = (h x a.0, All-update_where P Q p f xs h a.1)

  pub All-map {κ ι} :
      (P : A → Type κ) (Q : A → Type ι) (xs : List A) → ((x : A) → P x → Q x) → All P xs → All Q xs
  All-map P Q [] h a = tt
  All-map P Q (x ∷ xs) h a = (h x a.0, All-map P Q xs h a.1)

  pub All-All {κ} : (P : A → Type κ) (xs : List A) → ((x : A) → P x) → All P xs
  All-All P [] h = tt
  All-All P (x ∷ xs) h = (h x, All-All P xs h)

  -- An UPDATE that keeps the test of a WHERE clause can be made before it or after it.
  pub select-update_where :
      (q p : A → Bool) (f : A → A) (xs : List A)
      → ((x : A) → q (f x) ≡ q x)
      → select q (update_where p f xs) ≡ update_where p f (select q xs)
  select-update_where q p f [] h = refl
  select-update_where q p f (x ∷ xs) h = ground (arith, h x, select-update_where q p f xs h)

  -- An UPDATE of rows that the WHERE clause does not see.
  pub select-update_where_ne :
      (q p : A → Bool) (f : A → A) (xs : List A)
      → ((x : A) → q (f x) ≡ q x)
      → All (λ x. p x ≡ true → q x ≡ false) xs
      → select q (update_where p f xs) ≡ select q xs
  select-update_where_ne q p f [] h a = refl
  select-update_where_ne q p f (x ∷ xs) h a =
      ground (arith, h x, a.0, select-update_where_ne q p f xs h a.1)

  pub count_if-update_where :
      (q p : A → Bool) (f : A → A) (xs : List A)
      → ((x : A) → p x ≡ true → q (f x) ≡ q x)
      → count_if q (update_where p f xs) ≡ count_if q xs
  count_if-update_where q p f [] h = refl
  count_if-update_where q p f (x ∷ xs) h = ground (arith, h x, count_if-update_where q p f xs h)

  pub count_if-le-update_where :
      (q p : A → Bool) (f : A → A) (xs : List A)
      → ((x : A) → p x ≡ true → q x ≡ true → q (f x) ≡ true)
      → count_if q xs ≤ count_if q (update_where p f xs)
  count_if-le-update_where q p f [] h = omega arith
  count_if-le-update_where q p f (x ∷ xs) h =
      ground (arith, h x, count_if-le-update_where q p f xs h)

  pub count_if-update_where-le :
      (q p : A → Bool) (f : A → A) (xs : List A)
      → All (λ x. p x ≡ true → q (f x) ≡ true → q x ≡ true) xs
      → count_if q (update_where p f xs) ≤ count_if q xs
  count_if-update_where-le q p f [] a = omega arith
  count_if-update_where-le q p f (x ∷ xs) a =
      ground (arith, a.0, count_if-update_where-le q p f xs a.1)

  pub count_if_none : (q : A → Bool) (xs : List A) → All (λ x. q x ≡ false) xs → count_if q xs ≡ 0
  count_if_none q [] a = refl
  count_if_none q (x ∷ xs) a = ground (arith, a.0, count_if_none q xs a.1)

  pub count_if_zero : (q : A → Bool) (xs : List A) → count_if q xs ≡ 0 → All (λ x. q x ≡ false) xs
  count_if_zero q [] h = tt
  count_if_zero q (x ∷ xs) h = ground (arith, count_if_zero q xs)

  pub select_none : (q : A → Bool) (xs : List A) → All (λ x. q x ≡ false) xs → select q xs ≡ []
  select_none q [] a = refl
  select_none q (x ∷ xs) a = ground (arith, a.0, select_none q xs a.1)

  pub select-append :
      (q : A → Bool) (xs ys : List A) → select q (xs ++ ys) ≡ select q xs ++ select q ys
  select-append q [] ys = refl
  select-append q (x ∷ xs) ys = ground (arith, select-append q xs ys)

  -- Where at most one row has the key, the row that a query finds is the row with that key.
  pub find_first-only {κ} :
      (P : A → Type κ) (q : A → Bool) (xs : List A) {row : A}
      → find_first q xs ≡ some row
      → count_if q xs ≤ 1
      → P row
      → All (λ x. q x ≡ true → P x) xs
  find_first-only P q [] e u h = tt
  find_first-only P q (x ∷ xs) {row} e u h = elim (Bool-cases (q x)) [
    | inl hit ↦
        let found : some x ≡ some row = rw hit at e in
        let same : row ≡ x = cc in
        (
          (λ _. rw same at h),
          All-map (λ y. q y ≡ false) _ xs (λ y n t. cc) (count_if_zero q xs (ground arith)),
        )
    | inr miss ↦ ((λ t. cc), find_first-only P q xs (rw miss at e) (rw miss at u) h)
  ]

  pub count_if_mono :
      (p q : A → Bool) (xs : List A)
      → ((x : A) → p x ≡ true → q x ≡ true)
      → count_if p xs ≤ count_if q xs
  count_if_mono p q [] h = omega arith
  count_if_mono p q (x ∷ xs) h = ground (arith, h x, count_if_mono p q xs h)

  pub All-both {κ ι} :
      (P : A → Type κ) (Q : A → Type ι) (xs : List A)
      → All P xs
      → All Q xs
      → All (λ x. P x × Q x) xs
  All-both P Q [] a b = tt
  All-both P Q (x ∷ xs) a b = ((a.0, b.0), All-both P Q xs a.1 b.1)

  -- A row that a query has found is counted.
  pub found_counted :
      (p q : A → Bool) (xs : List A) {row : A}
      → find_first p xs ≡ some row
      → q row ≡ true
      → 1 ≤ count_if q xs
  found_counted p q [] e h = absurd cc
  found_counted p q (x ∷ xs) {row} e h = elim (Bool-cases (p x)) [
    | inl hit ↦
        let found : some x ≡ some row = rw hit at e in
        let same : row ≡ x = cc in let here : q x ≡ true = rw same at h in ground (arith, here)
    | inr miss ↦ ground (arith, found_counted p q xs (rw miss at e) h)
  ]

  -- Where at most one row has the key of a row that a query has found, a row with that key is that row.
  pub found_unique {κ} :
      (P : A → Type κ) (p q : A → Bool) (xs : List A) {row : A}
      → find_first p xs ≡ some row
      → q row ≡ true
      → count_if q xs ≤ 1
      → P row
      → All (λ x. q x ≡ true → P x) xs
  found_unique P p q [] e k u h = tt
  found_unique P p q (x ∷ xs) {row} e k u h = elim (Bool-cases (p x)) [
    | inl hit ↦
        let found : some x ≡ some row = rw hit at e in
        let same : row ≡ x = cc in
        let here : q x ≡ true = rw same at k in
        (
          (λ _. rw same at h),
          All-map (λ y. q y ≡ false) _ xs (λ y n t. cc)
              (count_if_zero q xs (ground (arith, here, u))),
        )
    | inr miss ↦
        let there = found_counted p q xs (rw miss at e) k in
        (
          (λ t. absurd (ground (arith, there, t, u))),
          found_unique P p q xs (rw miss at e) k (ground (arith, u)) h,
        )
  ]

  pub count_if-update_where_every :
      (q p : A → Bool) (f : A → A) (xs : List A)
      → All (λ x. p x ≡ true → q (f x) ≡ q x) xs
      → count_if q (update_where p f xs) ≡ count_if q xs
  count_if-update_where_every q p f [] h = refl
  count_if-update_where_every q p f (x ∷ xs) h =
      ground (arith, h.0, count_if-update_where_every q p f xs h.1)

  -- An UPDATE after which no row of the key is left.
  pub count_if-update_where_none :
      (q p : A → Bool) (f : A → A) (xs : List A)
      → ((x : A) → p x ≡ true → q (f x) ≡ false)
      → All (λ x. q x ≡ true → p x ≡ true) xs
      → count_if q (update_where p f xs) ≡ 0
  count_if-update_where_none q p f [] h a = refl
  count_if-update_where_none q p f (x ∷ xs) h a =
      ground (arith, h x, a.0, count_if-update_where_none q p f xs h a.1)

  pub find_first_holds :
      (p : A → Bool) (xs : List A) {row : A} → find_first p xs ≡ some row → p row ≡ true
  find_first_holds p [] e = absurd cc
  find_first_holds p (x ∷ xs) {row} e = elim (Bool-cases (p x)) [
    | inl hit ↦
        let found : some x ≡ some row = rw hit at e in let same : x ≡ row = cc in rw same at hit
    | inr miss ↦ find_first_holds p xs (rw miss at e)
  ]

  pub find_first-none : (p : A → Bool) (xs : List A) → find_first p xs ≡ none → count_if p xs ≡ 0
  find_first-none p [] e = refl
  find_first-none p (x ∷ xs) e = elim (Bool-cases (p x)) [
    | inl hit ↦ absurd (ground (arith, hit, e))
    | inr miss ↦ ground (arith, miss, find_first-none p xs (rw miss at e))
  ]

  pub select_le : (p q : A → Bool) (xs : List A) → count_if p (select q xs) ≤ count_if p xs
  select_le p q [] = omega arith
  select_le p q (x ∷ xs) = ground (arith, select_le p q xs)

  -- A DELETE of rows that the WHERE clause does not see.
  pub select_others :
      (p q : A → Bool) (xs : List A)
      → ((x : A) → p x ≡ true → q x ≡ true)
      → count_if p (select q xs) ≡ count_if p xs
  select_others p q [] h = refl
  select_others p q (x ∷ xs) h = ground (arith, h x, select_others p q xs h)

  pub All-kept {κ} : (P : A → Type κ) (q : A → Bool) (xs : List A) → All P xs → All P (select q xs)
  All-kept P q [] a = tt
  All-kept P q (x ∷ xs) a = elim (Bool-cases (q x)) [
    | inl hit ↦ rw hit (a.0, All-kept P q xs a.1)
    | inr miss ↦ rw miss (All-kept P q xs a.1)
  ]

  pub All-selected : (q : A → Bool) (xs : List A) → All (λ x. q x ≡ true) (select q xs)
  All-selected q [] = tt
  All-selected q (x ∷ xs) = elim (Bool-cases (q x)) [
    | inl hit ↦ rw hit (hit, All-selected q xs)
    | inr miss ↦ rw miss (All-selected q xs)
  ]
