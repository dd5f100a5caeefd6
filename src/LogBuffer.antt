-- ===== src/LogBuffer.antt =====
-- The bounded in-memory log of the server: internal/server/logbuffer/buffer.go.
--
-- A Go string or byte slice is the list of its bytes. `int` arguments that may be negative are
-- given by their sign and size where the code tests them (`new`). The mutex makes each method one
-- step, so a method is a function from the buffer to the new buffer. `none` is a Go panic.
pub mod Bounds
pub mod Content
pub mod History
mod Tests
use mizu_panel.Prelude.{
  ℕ, ◌+◌, ◌-◌, Bool, true, false, ◌||◌, ◌&&◌, Option, none, some, List, [], ◌∷◌, ◌++◌, ltb, ◌==◌,
  if◌then◌else◌, length, drop,
}
use mizu_panel.Prelude.Int.{ℤ, pos, negsuc}

abbrev default_max_entries : ℕ
default_max_entries = 10000

-- 2 << 20
abbrev default_max_bytes : ℕ
default_max_bytes = 2097152

pub record Buffer : Type 0 where
  pub entries : List (List ℕ)
  pub total_bytes : ℕ
  pub max_entries : ℕ
  pub max_bytes : ℕ
  pub started_at : ℕ
  pub evicted : Bool

pub record Snapshot : Type 0 where
  pub content : List ℕ
  pub returned_lines : ℕ
  pub started_at : ℕ
  pub truncated : Bool

-- `if limit <= 0 { limit = default }`
abbrev limit_or : ℤ → ℕ → ℕ
limit_or (pos n) d = if n == 0 then d else n
limit_or (negsuc n) d = d

unfoldable pub new : ℤ → ℤ → ℕ → Buffer
new max_entries max_bytes now = record {
  entries = [];
  total_bytes = 0;
  max_entries = limit_or max_entries default_max_entries;
  max_bytes = limit_or max_bytes default_max_bytes;
  started_at = now;
  evicted = false;
}

-- The eviction loop: while there are too many entries or bytes, drop the oldest entry. Reading
-- entry 0 of an empty list is a panic.
unfoldable pub evict :
    (max_entries max_bytes total : ℕ) → Bool → List (List ℕ) → Option (List (List ℕ) × ℕ × Bool)
evict me mb total ev [] = if ltb me 0 || ltb mb total then none else some ([], total, ev)
evict me mb total ev (e ∷ es) =
    let rest = evict me mb (total - length e) true es in
    if ltb me (length (e ∷ es)) || ltb mb total then rest else some (e ∷ es, total, ev)

-- The first statement of `appendLocked`: an entry over the byte limit keeps its last bytes.
abbrev pub clip : ℕ → List ℕ → List ℕ
clip mb entry = if ltb mb (length entry) then drop (length entry - mb) entry else entry

abbrev pub after_eviction : Buffer → Option (List (List ℕ) × ℕ × Bool) → Option Buffer
after_eviction b none = none
after_eviction b (some (es, total, ev)) =
    some (record b { entries = es; total_bytes = total; evicted = ev })

unfoldable pub append_locked : Buffer → List ℕ → Option Buffer
append_locked b entry =
    let kept = clip b.max_bytes entry in
    after_eviction b (
      evict b.max_entries b.max_bytes (b.total_bytes + length kept)
        (b.evicted || ltb b.max_bytes (length entry)) (b.entries ++ kept ∷ []))

-- bytes.SplitAfter(data, "\n"): the pieces between newlines, each with its newline; the last piece
-- may be empty. The first argument holds the bytes of the current piece.
unfoldable pub split_after : List ℕ → List ℕ → List (List ℕ)
split_after cur [] = cur ∷ []
split_after cur (c ∷ cs) =
    if c == 10 then (cur ++ c ∷ []) ∷ split_after [] cs else split_after (cur ++ c ∷ []) cs

-- The loop of `Write` over the pieces; an empty piece is skipped.
unfoldable pub append_parts : Buffer → List (List ℕ) → Option Buffer
append_parts b [] = some b
append_parts b (p ∷ ps) = elim p [
  | [] ↦ append_parts b ps
  | c ∷ cs ↦ elim (append_locked b (c ∷ cs)) [ none ↦ none | some b' ↦ append_parts b' ps ]
]

abbrev pub with_count : ℕ → Option Buffer → Option (Buffer × ℕ)
with_count n none = none
with_count n (some b) = some (b, n)

-- The new buffer and the count of bytes written; the error is always nil.
unfoldable pub write : Buffer → List ℕ → Option (Buffer × ℕ)
unfolding append_parts split_after
write b bytes =
    if length bytes == 0
    then some (b, 0)
    else with_count (length bytes) (append_parts b (split_after [] bytes))

-- strings.Join(entries, "")
abbrev pub join : List (List ℕ) → List ℕ
join [] = []
join (e ∷ es) = e ++ join es

abbrev pub start_of : ℤ → ℕ → ℕ
start_of (pos limit) count = if ltb 0 limit && ltb limit count then count - limit else 0
start_of (negsuc limit) count = 0

unfoldable pub snapshot : Buffer → ℤ → Snapshot
snapshot b limit =
    let start = start_of limit (length b.entries) in
    let kept = drop start b.entries in
    record {
      content = join kept;
      returned_lines = length kept;
      started_at = b.started_at;
      truncated = b.evicted || ltb 0 start;
    }
