-- ===== src/LogBuffer/History.antt =====
-- Snapshots of the log buffer (buffer.go) against everything that was written since `New`.
use mizu_panel.Prelude.{
  ℕ, zero, suc, ◌-◌, ◌≤◌, ◌≡◌, refl, sym, ap, ◌∙◌, true, false, ◌||◌, some, List, [], ◌∷◌, ◌++◌,
  arith, ltb, length, length-drop, length-take, take-append-drop, take, drop, min, Bool-cases, ◌⊎◌,
  inl, inr,
}
use mizu_panel.Prelude.Int.{ℤ, pos, negsuc}
use mizu_panel.LogBuffer.{Buffer, new, snapshot, join, start_of}
use mizu_panel.LogBuffer.Bounds.{IsValid, new-IsValid}
use mizu_panel.LogBuffer.Content.{IsSuffix, IsSuffix-trans, write_all, write_all-history}

join-drop : (n : ℕ) (es : List (List ℕ)) → IsSuffix (join (drop n es)) (join es)
join-drop zero es = ([], refl)
join-drop (suc n) [] = ([], refl)
join-drop (suc n) (e ∷ es) = IsSuffix-trans _ (join es) _ (join-drop n es) (e, refl)

-- How many of a number of entries a limit lets through.
abbrev pub shown : ℤ → ℕ → ℕ
shown (pos zero) count = count
shown (pos (suc limit)) count = min (suc limit) count
shown (negsuc limit) count = count

start_of-shown : (limit : ℤ) (count : ℕ) → count - start_of limit count ≡ shown limit count
start_of-shown (pos zero) count = ground arith
start_of-shown (pos (suc limit)) count = ground arith
start_of-shown (negsuc limit) count = ground arith

start_of-le : (limit : ℤ) (count : ℕ) → start_of limit count ≤ count
start_of-le (pos limit) count = ground arith
start_of-le (negsuc limit) count = omega arith

-- The entries of the buffer are some that a snapshot leaves out, then those that it returns: its
-- content is theirs, in order, and it counts them. With a positive limit these are the lesser of
-- the limit and the number of entries; with a limit that is zero or negative they are all. The
-- snapshot is marked truncated exactly when an entry was evicted before or is left out.
pub snapshot_lem :
    (b : Buffer) (limit : ℤ)
    → (dropped : List (List ℕ)) × (kept : List (List ℕ)) × (b.entries ≡ dropped ++ kept)
      × ((snapshot b limit).content ≡ join kept)
      × ((snapshot b limit).returned_lines ≡ length kept)
      × (length kept ≡ shown limit (length b.entries))
      × ((snapshot b limit).truncated ≡ (b.evicted || ltb 0 (length dropped)))
unfolding snapshot
snapshot_lem b limit =
    let start = start_of limit (length b.entries) in
    let size : length (take start b.entries) ≡ start =
      omega (arith, length-take start b.entries, start_of-le limit (length b.entries)) in
    (
      take start b.entries,
      drop start b.entries,
      sym (take-append-drop start b.entries),
      refl,
      refl,
      length-drop start b.entries ∙ start_of-shown limit (length b.entries),
      ap (λ n. b.evicted || ltb 0 n) (sym size),
    )

untruncated :
    (b : Buffer) (limit : ℤ)
    → (snapshot b limit).truncated ≡ false
    → (b.evicted ≡ false) × (start_of limit (length b.entries) ≡ 0)
unfolding snapshot
untruncated b limit h = ground arith

-- After any writes to a new buffer, none of which panics, the buffer is valid, the content of a
-- snapshot is an end of all that was written, and it is all of it unless the snapshot is marked
-- truncated.
pub snapshot-write_all :
    (max_entries max_bytes limit : ℤ) (now : ℕ) (inputs : List (List ℕ))
    → (b : Buffer) × (write_all (new max_entries max_bytes now) inputs ≡ some b)
      × IsValid b
      × IsSuffix (snapshot b limit).content (join inputs)
      × (((snapshot b limit).truncated ≡ true) ⊎ ((snapshot b limit).content ≡ join inputs))
unfolding snapshot new
snapshot-write_all max_entries max_bytes limit now inputs =
    let (b, e, valid, kept) =
      write_all-history _ inputs (new-IsValid max_entries max_bytes now).0 in
    (
      b,
      e,
      valid,
      IsSuffix-trans _ _ _ (join-drop (start_of limit (length b.entries)) b.entries) kept.0,
      elim (Bool-cases (snapshot b limit).truncated) [
        | inl cut ↦ inl cut
        | inr f ↦ let (whole, first) = untruncated b limit f in inr (rw first (kept.1 whole))
      ],
    )
