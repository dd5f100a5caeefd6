-- ===== src/LogBuffer/Bounds.antt =====
-- The limits of the log buffer (buffer.go): every write keeps them, and none panics.
use mizu_panel.Prelude.{
  ℕ, ◌+◌, ◌-◌, ◌≤◌, ◌<◌, ◌≡◌, refl, Bool, true, Option, none, some, List, [], ◌∷◌, ◌++◌, arith,
  length, Option-cases, ◌∙◌, inl, inr, suc_ne_zero,
}
use mizu_panel.Prelude.Int.{ℤ, pos}
use mizu_panel.LogBuffer.{
  Buffer, new, evict, after_eviction, with_count, clip, append_locked, append_parts, split_after,
  write,
}

-- The bytes that a list of entries holds.
abbrev pub bytes : List (List ℕ) → ℕ
bytes [] = 0
bytes (e ∷ es) = length e + bytes es

pub record IsValid (b : Buffer) : Type 0 where
  pub count_bound : length b.entries ≤ b.max_entries
  pub byte_bound : b.total_bytes ≤ b.max_bytes
  pub exact : b.total_bytes ≡ bytes b.entries

pub bytes-append : (xs ys : List (List ℕ)) → bytes (xs ++ ys) ≡ bytes xs + bytes ys
bytes-append [] ys = omega arith
bytes-append (x ∷ xs) ys = omega (arith, bytes-append xs ys)

-- What the eviction loop leaves: a result within both limits, its byte count exact.
abbrev pub Fits : ℕ → ℕ → Option (List (List ℕ) × ℕ × Bool) → Type 0
Fits me mb none = ⊥
Fits me mb (some (es, total, ev)) = (length es ≤ me) × (total ≤ mb) × (total ≡ bytes es)

pub evict-Fits :
    (me mb total : ℕ) (ev : Bool) (es : List (List ℕ))
    → total ≡ bytes es
    → Fits me mb (evict me mb total ev es)
unfolding evict
evict-Fits me mb total ev [] h = ground arith
evict-Fits me mb total ev (e ∷ es) h = ground (arith, evict-Fits me mb (total - length e) true es)

-- The operation did not panic, and left a valid buffer with the same limits.
abbrev Succeeds : Buffer → Option Buffer → Type 0
Succeeds b none = ⊥
Succeeds b (some b') = IsValid b' × (b'.max_entries ≡ b.max_entries) × (b'.max_bytes ≡ b.max_bytes)

after_eviction-Succeeds :
    (b : Buffer) (r : Option (List (List ℕ) × ℕ × Bool))
    → Fits b.max_entries b.max_bytes r
    → Succeeds b (after_eviction b r)
after_eviction-Succeeds b none h = h
after_eviction-Succeeds b (some (es, total, ev)) h =
    (record { count_bound = h.0; byte_bound = h.1; exact = h.2 }, refl, refl)

pub append_locked-Succeeds : (b : Buffer) (e : List ℕ) → IsValid b → Succeeds b (append_locked b e)
unfolding append_locked
append_locked-Succeeds b e v =
    let kept = clip b.max_bytes e in
    after_eviction-Succeeds b _ (
      evict-Fits b.max_entries b.max_bytes _ _ (b.entries ++ kept ∷ [])
        (omega (arith, bytes-append b.entries (kept ∷ []), v.exact)))

Succeeds-trans :
    (b c : Buffer) (r : Option Buffer)
    → c.max_entries ≡ b.max_entries
    → c.max_bytes ≡ b.max_bytes
    → Succeeds c r
    → Succeeds b r
Succeeds-trans b c none p q h = h
Succeeds-trans b c (some d) p q h = (h.0, h.1 ∙ p, h.2 ∙ q)

append_parts-Succeeds :
    (b : Buffer) (ps : List (List ℕ)) → IsValid b → Succeeds b (append_parts b ps)
unfolding append_parts
append_parts-Succeeds b [] v = (v, refl, refl)
append_parts-Succeeds b ([] ∷ ps) v = append_parts-Succeeds b ps v
append_parts-Succeeds b ((c ∷ cs) ∷ ps) v = elim (Option-cases (append_locked b (c ∷ cs))) [
  | inl e ↦ absurd (rw e at (append_locked-Succeeds b (c ∷ cs) v))
  | inr (b', e) ↦
      let ok = rw e at (append_locked-Succeeds b (c ∷ cs) v) in
      rw (e, append_parts) (Succeeds-trans b b' _ ok.1 ok.2 (append_parts-Succeeds b' ps ok.0))
]

with_count-Succeeds :
    (b : Buffer) (r : Option Buffer) (n : ℕ)
    → Succeeds b r
    → (b' : Buffer) × (with_count n r ≡ some (b', n))
      × IsValid b'
      × (b'.max_entries ≡ b.max_entries)
      × (b'.max_bytes ≡ b.max_bytes)
with_count-Succeeds b none n h = absurd h
with_count-Succeeds b (some b') n h = (b', refl, h.0, h.1, h.2)

-- A write to a valid buffer does not panic and reports the length of its argument; it leaves a
-- valid buffer, with at most max_entries entries, at most max_bytes bytes and an exact byte count,
-- and the same limits.
pub write-IsValid :
    (b : Buffer) (input : List ℕ)
    → IsValid b
    → (b' : Buffer) × (write b input ≡ some (b', length input))
      × IsValid b'
      × (b'.max_entries ≡ b.max_entries)
      × (b'.max_bytes ≡ b.max_bytes)
unfolding write
write-IsValid b [] v = (b, refl, v, refl, refl)
write-IsValid b (c ∷ cs) v =
    rw (suc_ne_zero (length cs), write)
      (with_count-Succeeds b _ (length (c ∷ cs))
        (append_parts-Succeeds b (split_after [] (c ∷ cs)) v))

-- A new buffer is valid whatever limits it is given, and its limits are positive.
pub new-IsValid :
    (max_entries max_bytes : ℤ) (now : ℕ)
    → IsValid (new max_entries max_bytes now)
      × (0 < (new max_entries max_bytes now).max_entries)
      × (0 < (new max_entries max_bytes now).max_bytes)
unfolding new
new-IsValid (pos n) (pos m) now = ground arith
new-IsValid _ _ now = ground arith
