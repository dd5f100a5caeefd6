-- ===== src/Prelude/Time.antt =====
-- Go's time.Duration, an int64 of nanoseconds: its products wrap around and Time.Sub saturates.
use Prim.Native.Nat.{ℕ, ◌-◌, ◌*◌, ◌%◌, ◌^◌, min}
use mathlib.Core.Bool.{Bool, true, false}
use mizu_panel.Prelude.Tests.{ltb, leb, if◌then◌else◌}
use mizu_panel.Prelude.Int.{ℤ, pos, negsuc}

abbrev pub nanoseconds : ℕ
nanoseconds = 1000000000

-- The 64 bits of a number, and the number that 64 bits stand for.
abbrev pub bits64 : ℤ → ℕ
bits64 (pos n) = n % 2 ^ 64
bits64 (negsuc n) = 2 ^ 64 - 1 - n % 2 ^ 64

abbrev pub signed64 : ℕ → ℤ
signed64 w = if ltb w (2 ^ 63) then pos w else negsuc (2 ^ 64 - w - 1)

-- `time.Duration(n) * time.Second`
unfoldable pub seconds : ℤ → ℤ
seconds n = signed64 (bits64 n * nanoseconds % 2 ^ 64)

abbrev pub max_duration : ℕ
max_duration = 2 ^ 63 - 1

-- `later.Sub(earlier)`
unfoldable pub sub : (later earlier : ℕ) → ℤ
sub later earlier =
    if leb earlier later
    then pos (min (later - earlier) max_duration)
    else negsuc (min (earlier - later - 1) max_duration)

abbrev pub le_duration : ℤ → ℤ → Bool
le_duration (pos a) (pos b) = leb a b
le_duration (pos a) (negsuc b) = false
le_duration (negsuc a) (pos b) = true
le_duration (negsuc a) (negsuc b) = leb b a
