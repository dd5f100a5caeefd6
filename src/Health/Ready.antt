-- ===== src/Health/Ready.antt =====
-- `"%d/%d"` (internal/agent/kubectl/client.go) and parseReady (servicecenter/health.go), on the bytes of
-- the text. `trim` is strings.TrimSpace; strings.Split and strconv.Atoi are written out.
use mizu_panel.Prelude.{
  ℕ, zero, suc, ◌+◌, ◌-◌, ◌*◌, ◌/◌, ◌%◌, ◌^◌, Bool, not, ◌&&◌, Option, none, some, List, [], ◌∷◌,
  ◌++◌, ltb, ◌==◌, if◌then◌else◌,
}
use mizu_panel.Prelude.Int.{ℤ, pos, negsuc}

abbrev pub Bytes : Type 0
Bytes = List ℕ

abbrev pub slash : ℕ
slash = 47

-- `%d` of a number that is not negative, with fuel above the number.
abbrev pub digits : ℕ → ℕ → Bytes
digits zero n = []
digits (suc fuel) n = if ltb n 10 then (48 + n) ∷ [] else digits fuel (n / 10) ++ (48 + n % 10) ∷ []

-- `fmt.Sprintf("%d/%d", ready, desired)`
unfoldable pub ready_text : ℕ → ℕ → Bytes
ready_text ready desired = digits (suc ready) ready ++ slash ∷ digits (suc desired) desired

abbrev pub prepend : ℕ → List Bytes → List Bytes
prepend c [] = (c ∷ []) ∷ []
prepend c (part ∷ parts) = (c ∷ part) ∷ parts

-- strings.Split by one byte.
abbrev pub split : ℕ → Bytes → List Bytes
split sep [] = [] ∷ []
split sep (c ∷ cs) = if c == sep then [] ∷ split sep cs else prepend c (split sep cs)

abbrev pub is_digit : ℕ → Bool
is_digit c = not (ltb c 48) && ltb c 58

abbrev pub read_digits : ℕ → Bytes → Option ℕ
read_digits n [] = some n
read_digits n (c ∷ cs) = if is_digit c then read_digits (n * 10 + (c - 48)) cs else none

abbrev pub read_number : Bytes → Option ℕ
read_number [] = none
read_number (c ∷ cs) = read_digits 0 (c ∷ cs)

abbrev pub in_int64 : Option ℕ → Option ℤ
in_int64 none = none
in_int64 (some n) = if ltb n (2 ^ 63) then some (pos n) else none

abbrev pub negative_int64 : Option ℕ → Option ℤ
negative_int64 none = none
negative_int64 (some zero) = some (pos 0)
negative_int64 (some (suc n)) = if ltb n (2 ^ 63) then some (negsuc n) else none

-- strconv.Atoi
abbrev pub atoi : Bytes → Option ℤ
atoi [] = none
atoi (c ∷ cs) =
    if c == 43
    then in_int64 (read_number cs)
    else if c == 45
    then negative_int64 (read_number cs)
    else in_int64 (read_number (c ∷ cs))

abbrev pub both_natural : Option ℤ → Option ℤ → Option (ℕ × ℕ)
both_natural (some (pos current)) (some (pos desired)) = some (current, desired)
both_natural _ _ = none

module _ (trim : Bytes → Bytes) where
  abbrev pub read_parts : List Bytes → Option (ℕ × ℕ)
  read_parts (current ∷ desired ∷ []) = both_natural (atoi (trim current)) (atoi (trim desired))
  read_parts _ = none

  unfoldable pub parse_ready : Bytes → Option (ℕ × ℕ)
  parse_ready value = read_parts (split slash (trim value))
