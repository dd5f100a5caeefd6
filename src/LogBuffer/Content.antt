-- ===== src/LogBuffer/Content.antt =====
-- What the log buffer holds (buffer.go): the end of everything that was written to it.
use mathlib.Core.List.{append-nil, append_assoc}
use mizu_panel.Prelude.{
  ℕ, ◌+◌, ◌-◌, ◌≤◌, ◌<◌, ◌≡◌, refl, sym, ap, ◌∙◌, Bool, true, false, ◌||◌, Option, none, some, List,
  [], ◌∷◌, ◌++◌, arith, ltb, length, drop, take, take-append-drop, length-append, length-drop,
  ltb→lt, suc_ne_zero, Bool-cases, Option-cases, inl, inr, ◌==◌,
}
use mizu_panel.LogBuffer.{
  Buffer, evict, after_eviction, append_locked, append_parts, with_count, split_after, write, join,
}
use mizu_panel.LogBuffer.Bounds.{
  IsValid, append_locked-Succeeds, write-IsValid, bytes, Fits, bytes-append, evict-Fits,
}

-- `s` is the end of `t`.
abbrev pub IsSuffix : List ℕ → List ℕ → Type 0
IsSuffix s t = (p : List ℕ) × (t ≡ p ++ s)

pub IsSuffix-trans : (s t u : List ℕ) → IsSuffix s t → IsSuffix t u → IsSuffix s u
IsSuffix-trans s t u (p, e) (q, f) = (q ++ p, f ∙ ap (◌++◌ q) e ∙ sym (append_assoc q p s))

IsSuffix-append : (s t x : List ℕ) → IsSuffix s t → IsSuffix (s ++ x) (t ++ x)
IsSuffix-append s t x (p, e) = (p, ap (λ y. y ++ x) e ∙ append_assoc p s x)

-- The end of `x ++ k` that is no longer than `k` is the end of `k`.
IsSuffix-of_short : (g s x k : List ℕ) → x ++ k ≡ g ++ s → length s ≤ length k → IsSuffix s k
IsSuffix-of_short g s [] k e h = (g, e)
IsSuffix-of_short [] s (c ∷ x) k e h = absurd (omega (arith, ap length e, length-append x k))
IsSuffix-of_short (d ∷ g) s (c ∷ x) k e h = IsSuffix-of_short g s x k (cc) h

join-append : (xs ys : List (List ℕ)) → join (xs ++ ys) ≡ join xs ++ join ys
join-append [] ys = refl
join-append (x ∷ xs) ys = ap (◌++◌ x) (join-append xs ys) ∙ sym (append_assoc x (join xs) (join ys))

length-join : (es : List (List ℕ)) → length (join es) ≡ bytes es
length-join [] = refl
length-join (e ∷ es) = omega (arith, length-append e (join es), length-join es)

-- The loop keeps the end of the content, sets the flag if it drops anything, and never clears it.
abbrev Drops : List (List ℕ) → Bool → Option (List (List ℕ) × ℕ × Bool) → Type 0
Drops es ev none = Unit {0}
Drops es ev (some (es', total, ev')) =
    IsSuffix (join es') (join es) × (ev' ≡ false → join es' ≡ join es) × (ev ≡ true → ev' ≡ true)

Drops-cons :
    (e : List ℕ) (es : List (List ℕ)) (ev : Bool) (r : Option (List (List ℕ) × ℕ × Bool))
    → Drops es true r
    → Drops (e ∷ es) ev r
Drops-cons e es ev none h = tt
Drops-cons e es ev (some (es', total, ev')) (s, keep, stays) =
    (IsSuffix-trans (join es') (join es) _ s (e, refl), (λ f. cc (stays refl)), λ f. stays refl)

evict-Drops :
    (me mb total : ℕ) (ev : Bool) (es : List (List ℕ)) → Drops es ev (evict me mb total ev es)
unfolding evict
evict-Drops me mb total ev [] = elim (Bool-cases (ltb me 0 || ltb mb total)) [
  | inl over ↦ rw (over, evict) tt
  | inr fits ↦ rw (fits, evict) (([], refl), (λ f. refl), λ f. f)
]
evict-Drops me mb total ev (e ∷ es) = elim (Bool-cases (ltb me (length (e ∷ es)) || ltb mb total)) [
  | inl over ↦
      rw (over, evict) (Drops-cons e es ev _ (evict-Drops me mb (total - length e) true es))
  | inr fits ↦ rw (fits, evict) (([], refl), (λ f. refl), λ f. f)
]

-- The content is now the end of the old content followed by `input`; nothing is missing unless the
-- flag says so; and the flag is never cleared.
abbrev Appends : Buffer → List ℕ → Option Buffer → Type 0
Appends b input none = Unit {0}
Appends b input (some b') =
    IsSuffix (join b'.entries) (join b.entries ++ input)
    × (b'.evicted ≡ false → join b'.entries ≡ join b.entries ++ input)
    × (b.evicted ≡ true → b'.evicted ≡ true)

after_eviction-Appends :
    (b : Buffer) (es : List (List ℕ)) (ev : Bool) (input : List ℕ)
    (r : Option (List (List ℕ) × ℕ × Bool))
    → join es ≡ join b.entries ++ input
    → (b.evicted ≡ true → ev ≡ true)
    → Drops es ev r
    → Appends b input (after_eviction b r)
after_eviction-Appends b es ev input none e old h = tt
after_eviction-Appends b es ev input (some (es', total, ev')) e old (s, keep, stays) =
    (rw e at s, (λ f. keep f ∙ e), λ f. stays (old f))

-- When the entry was clipped to the byte limit, what stays in the buffer is an end of it.
clipped-Appends :
    (b : Buffer) (ev : Bool) (input : List ℕ) (r : Option (List (List ℕ) × ℕ × Bool))
    → ev ≡ true
    → b.max_bytes < length input
    → Fits b.max_entries b.max_bytes r
    → Drops (b.entries ++ drop (length input - b.max_bytes) input ∷ []) ev r
    → Appends b input (after_eviction b r)
clipped-Appends b ev input none set long fits h = tt
clipped-Appends b ev input (some (es', total, ev')) set long (few, small, exact)
      ((p, e), keep, stays) =
    (
      IsSuffix-trans _ input _ (IsSuffix-trans _ kept input tail (take n input, split))
          (join b.entries, refl),
      (λ f. cc (stays set)),
      λ f. stays set,
    )
  where
    n : ℕ
    n = length input - b.max_bytes

    kept : List ℕ
    kept = drop n input

    split : input ≡ take n input ++ kept
    split = sym (take-append-drop n input)

    whole : join b.entries ++ kept ≡ p ++ join es'
    whole =
        ap (◌++◌ (join b.entries)) (sym (append-nil kept))
        ∙ sym (join-append b.entries (kept ∷ []))
        ∙ e

    tail : IsSuffix (join es') kept
    tail =
        IsSuffix-of_short p (join es') (join b.entries) kept whole
          (omega (arith, length-join es', length-drop n input))

or_true : (x : Bool) → (x || true) ≡ true
or_true x = ground arith

grown :
    {n : ℕ} (es : List (List ℕ)) → n ≡ bytes es → (e : List ℕ) → n + length e ≡ bytes (es ++ e ∷ [])
grown {n} es h e = omega (arith, bytes-append es (e ∷ []), h)

append_locked-Appends : (b : Buffer) (e : List ℕ) → IsValid b → Appends b e (append_locked b e)
unfolding append_locked
append_locked-Appends b e v = elim (Bool-cases (ltb b.max_bytes (length e))) [
  | inl long ↦
      rw (long, append_locked)
        (clipped-Appends b (b.evicted || true) e _ (or_true b.evicted) (ltb→lt _ _ long)
          (evict-Fits b.max_entries b.max_bytes _ _ _ (grown b.entries v.exact _))
          (evict-Drops _ _ _ _ _))
  | inr short ↦
      rw (short, append_locked)
        (after_eviction-Appends b (b.entries ++ e ∷ []) (b.evicted || false) e _
          (join-append b.entries (e ∷ []) ∙ ap (◌++◌ (join b.entries)) (append-nil e))
          (λ f. rw f refl) (evict-Drops _ _ _ _ _))
]

unset :
    (c d : Buffer) → (c.evicted ≡ true → d.evicted ≡ true) → d.evicted ≡ false → c.evicted ≡ false
unset c d h f = elim (Bool-cases c.evicted) [ inl t ↦ cc (h t) | inr k ↦ k ]

Appends-trans :
    (b c : Buffer) (x y : List ℕ) (r : Option Buffer)
    → Appends b x (some c)
    → Appends c y r
    → Appends b (x ++ y) r
Appends-trans b c x y none h k = tt
Appends-trans b c x y (some d) (s, same, stays) (s', same', stays') = (
  IsSuffix-trans _ _ _ s' (rw (← append_assoc) (IsSuffix-append _ _ y s)),
  (λ f. same' f ∙ ap (λ z. z ++ y) (same (unset c d stays' f)) ∙ append_assoc (join b.entries) x y),
  λ f. stays' (stays f),
)

join-split_after : (cur input : List ℕ) → join (split_after cur input) ≡ cur ++ input
unfolding split_after
join-split_after cur [] = refl
join-split_after cur (c ∷ cs) = elim (Bool-cases (c == 10)) [
  | inl nl ↦
      rw (nl, split_after)
        (append_assoc cur (c ∷ []) _ ∙ ap (λ z. cur ++ c ∷ z) (join-split_after [] cs))
  | inr other ↦
      rw (other, split_after) (join-split_after (cur ++ c ∷ []) cs ∙ append_assoc cur (c ∷ []) cs)
]

append_parts-Appends :
    (b : Buffer) (ps : List (List ℕ)) → IsValid b → Appends b (join ps) (append_parts b ps)
unfolding append_parts
append_parts-Appends b [] v = (([], append-nil _), (λ f. sym (append-nil _)), λ f. f)
append_parts-Appends b ([] ∷ ps) v = append_parts-Appends b ps v
append_parts-Appends b ((c ∷ cs) ∷ ps) v = elim (Option-cases (append_locked b (c ∷ cs))) [
  | inl e ↦ rw (e, append_parts) tt
  | inr (b', e) ↦
      let valid = rw e at (append_locked-Succeeds b (c ∷ cs) v) in
      let one = rw e at (append_locked-Appends b (c ∷ cs) v) in
      let rest = append_parts-Appends b' ps valid.0 in
      rw (e, append_parts) (Appends-trans b b' (c ∷ cs) (join ps) (append_parts b' ps) one rest)
]

with_count-Appends :
    (b b' : Buffer) (m n : ℕ) (input : List ℕ) (r : Option Buffer)
    → with_count m r ≡ some (b', n)
    → Appends b input r
    → Appends b input (some b')
with_count-Appends b b' m n input none e h = cc
with_count-Appends b b' m n input (some d) e h = let same : d ≡ b' = cc in rw same at h

write-Appends :
    (b b' : Buffer) (n : ℕ) (input : List ℕ)
    → IsValid b
    → write b input ≡ some (b', n)
    → Appends b input (some b')
unfolding write
write-Appends b b' n [] v e =
    let same : b ≡ b' = cc in rw (← same) (([], append-nil _), (λ f. sym (append-nil _)), λ f. f)
write-Appends b b' n (c ∷ cs) v e =
    with_count-Appends b b' _ n (c ∷ cs) (append_parts b (split_after [] (c ∷ cs)))
      (rw (suc_ne_zero (length cs), write) at e)
      (rw join-split_after at (append_parts-Appends b (split_after [] (c ∷ cs)) v))

-- Writes one after another, as the callers of the buffer make them.
pub write_all : Buffer → List (List ℕ) → Option Buffer
write_all b [] = some b
write_all b (x ∷ xs) = elim (write b x) [ none ↦ none | some (b', n) ↦ write_all b' xs ]

pub write_all-history :
    (b : Buffer) (inputs : List (List ℕ))
    → IsValid b
    → (b' : Buffer) × (write_all b inputs ≡ some b')
      × IsValid b'
      × Appends b (join inputs) (some b')
unfolding write_all
write_all-history b [] v = (b, refl, v, (([], append-nil _), (λ f. sym (append-nil _)), λ f. f))
write_all-history b (x ∷ xs) v =
    let (c, written, valid, p, q) = write-IsValid b x v in
    let (d, rest, valid', all) = write_all-history c xs valid in
    (
      d,
      rw (written, write_all) rest,
      valid',
      Appends-trans b c x (join xs) (some d) (write-Appends b c _ x v written) all,
    )
