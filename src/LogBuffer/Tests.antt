-- ===== src/LogBuffer/Tests.antt =====
-- Runs of the log buffer, and its theorems at concrete inputs.
use mizu_panel.Prelude.{
  ℕ, ◌<◌, ◌≡◌, refl, true, false, some, List, [], ◌∷◌, ◌++◌, arith, ltb, length, ◌⊎◌,
}
use mizu_panel.Prelude.Int.{pos, negsuc}
use mizu_panel.LogBuffer.{Buffer, new, write, snapshot, evict, append_locked, join}
use mizu_panel.LogBuffer.Bounds.{IsValid, write-IsValid, new-IsValid}
use mizu_panel.LogBuffer.Content.{write_all, IsSuffix}
use mizu_panel.LogBuffer.History.{snapshot-write_all, snapshot_lem}

-- Two entries at most, five bytes at most.
abbrev small : Buffer
small = record {
  entries = (65 ∷ 10 ∷ []) ∷ [];
  total_bytes = 2;
  max_entries = 2;
  max_bytes = 5;
  started_at = 0;
  evicted = false;
}

write_evicts :
    write small (66 ∷ 10 ∷ 67 ∷ [])
    ≡ some (
      record small { entries = (66 ∷ 10 ∷ []) ∷ (67 ∷ []) ∷ []; total_bytes = 3; evicted = true },
      3,
    )
unfolding write append_locked evict
write_evicts = refl

write-IsValid_example :
    (b' : Buffer) × (write small (66 ∷ 10 ∷ 67 ∷ []) ≡ some (b', 3))
    × IsValid b'
    × (b'.max_entries ≡ 2)
    × (b'.max_bytes ≡ 5)
write-IsValid_example = write-IsValid small (66 ∷ 10 ∷ 67 ∷ []) (omega arith)

abbrev lines : List (List ℕ)
lines = (66 ∷ 10 ∷ 67 ∷ []) ∷ [] ∷ (68 ∷ 68 ∷ 68 ∷ 68 ∷ []) ∷ []

snapshot-write_all_example :
    (b : Buffer) × (write_all (new (pos 2) (pos 3) 7) lines ≡ some b)
    × IsValid b
    × IsSuffix (snapshot b (pos 1)).content (join lines)
    × (((snapshot b (pos 1)).truncated ≡ true) ⊎ ((snapshot b (pos 1)).content ≡ join lines))
snapshot-write_all_example = snapshot-write_all (pos 2) (pos 3) (pos 1) 7 lines

-- Of two lines the limit of one leaves out the first.
abbrev two_lines : Buffer
two_lines = record small { entries = (65 ∷ 10 ∷ []) ∷ (66 ∷ 10 ∷ []) ∷ [] }

snapshot_lem_example :
    (dropped : List (List ℕ)) × (kept : List (List ℕ)) × (two_lines.entries ≡ dropped ++ kept)
    × ((snapshot two_lines (pos 1)).content ≡ join kept)
    × ((snapshot two_lines (pos 1)).returned_lines ≡ length kept)
    × (length kept ≡ 1)
    × ((snapshot two_lines (pos 1)).truncated ≡ ltb 0 (length dropped))
snapshot_lem_example = snapshot_lem two_lines (pos 1)

last_line : (snapshot two_lines (pos 1)).content ≡ 66 ∷ 10 ∷ []
unfolding snapshot
last_line = refl

new-IsValid_example :
    IsValid (new (pos 2) (negsuc 0) 7)
    × (0 < (new (pos 2) (negsuc 0) 7).max_entries)
    × (0 < (new (pos 2) (negsuc 0) 7).max_bytes)
new-IsValid_example = new-IsValid (pos 2) (negsuc 0) 7
