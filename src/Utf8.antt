-- ===== src/Utf8.antt =====
-- UTF-8 as the standard library reads it, and the two bounding routines of the program:
-- boundTaskText (internal/server/store/tasks.go) and boundValidUTF8
-- (internal/agent/taskrunner/runner.go). A text is the list of its bytes.
pub mod Validity
pub mod Bounded
mod Tests
use mizu_panel.Prelude.{
  ℕ, zero, suc, ◌-◌, Bool, true, false, ◌&&◌, List, [], ◌∷◌, ◌++◌, ltb, leb, ◌==◌, if◌then◌else◌,
  length, take,
}

-- The length of the encoding that a first byte starts, 0 if it starts none.
pub encoding_size : ℕ → ℕ
encoding_size c =
    if ltb c 0x80
    then 1
    else if ltb c 0xc2
    then 0
    else if ltb c 0xe0
    then 2
    else if ltb c 0xf0
    then 3
    else if ltb c 0xf5
    then 4
    else 0

-- The range of the second byte.
pub second_low : ℕ → ℕ
second_low c = if c == 0xe0 then 0xa0 else if c == 0xf0 then 0x90 else 0x80

pub second_high : ℕ → ℕ
second_high c = if c == 0xed then 0x9f else if c == 0xf4 then 0x8f else 0xbf

pub tail_ok : ℕ → ℕ → ℕ → List ℕ → Bool
tail_ok zero low high xs = true
tail_ok (suc n) low high [] = false
tail_ok (suc n) low high (x ∷ xs) = (leb low x && leb x high) && tail_ok n 0x80 0xbf xs

-- The length of the valid encoding at the head of `c ∷ rest`, 0 if there is none.
pub rune_size : ℕ → List ℕ → ℕ
rune_size c rest =
    if tail_ok (encoding_size c - 1) (second_low c) (second_high c) rest then encoding_size c else 0

-- The first argument counts the bytes left of the encoding that has been accepted.
pub valid_from : ℕ → List ℕ → Bool
valid_from zero [] = true
valid_from (suc k) [] = false
valid_from (suc k) (c ∷ cs) = valid_from k cs
valid_from zero (c ∷ cs) = elim (rune_size c cs) [ zero ↦ false | suc k ↦ valid_from k cs ]

-- utf8.ValidString
abbrev pub valid_string : List ℕ → Bool
valid_string = valid_from zero

-- The bytes of U+FFFD.
abbrev pub replacement : List ℕ
replacement = 0xef ∷ 0xbf ∷ 0xbd ∷ []

-- The first argument counts the bytes of a valid encoding still to be copied, the second is true
-- inside a run of invalid bytes.
pub to_valid_from : ℕ → Bool → List ℕ → List ℕ
to_valid_from k bad [] = []
to_valid_from (suc k) bad (c ∷ cs) = c ∷ to_valid_from k bad cs
to_valid_from zero bad (c ∷ cs) = elim (rune_size c cs) [
  | zero ↦ (if bad then [] else replacement) ++ to_valid_from zero true cs
  | suc k ↦ c ∷ to_valid_from k false cs
]

-- strings.ToValidUTF8(value, "\uFFFD"): a run of invalid bytes becomes one replacement.
abbrev pub to_valid_utf8 : List ℕ → List ℕ
to_valid_utf8 = to_valid_from zero false

-- value[:len(value)-1]
abbrev pub drop_last : List ℕ → List ℕ
drop_last xs = take (length xs - 1) xs

-- `for !utf8.ValidString(value) { value = value[:len(value)-1] }`, on fuel.
pub trim_invalid : ℕ → List ℕ → List ℕ
trim_invalid zero value = value
trim_invalid (suc fuel) value = elim (valid_string value) [
  | true ↦ value
  | false ↦ trim_invalid fuel (drop_last value)
]

-- The length of the text is fuel enough: the empty text is valid.
unfoldable pub bound_task_text : List ℕ → ℕ → List ℕ × Bool
bound_task_text value limit =
    let valid = to_valid_utf8 value in
    if leb (length valid) limit
    then (valid, false)
    else (trim_invalid limit (take limit valid), true)

-- The agent's version converts only a text that is not valid already, and gives no flag.
unfoldable pub bound_valid_utf8 : List ℕ → ℕ → List ℕ
bound_valid_utf8 value limit =
    let valid = (if valid_string value then value else to_valid_utf8 value) in
    if leb (length valid) limit then valid else trim_invalid limit (take limit valid)
