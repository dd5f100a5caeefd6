-- ===== src/Utf8/Tests.antt =====
-- The bounding of texts at concrete inputs.
use mizu_panel.Prelude.{ℕ, ◌≡◌, refl, true, not, leb, List, [], ◌∷◌, length}
use mizu_panel.Utf8.{
  valid_string, valid_from, rune_size, tail_ok, encoding_size, second_low, second_high,
  to_valid_utf8, to_valid_from, bound_task_text, bound_valid_utf8, trim_invalid,
}
use mizu_panel.Utf8.Bounded.{
  IsBounded, bound_task_text-IsBounded, bound_valid_utf8-eq-bound_task_text,
}

-- `a`, a stray byte, then a letter of two bytes.
abbrev text : List ℕ
text = 97 ∷ 0xff ∷ 0xc3 ∷ 0xa9 ∷ []

abbrev letter : List ℕ
letter = 0xc3 ∷ 0xa9 ∷ []

bound_task_text_cuts : bound_task_text text 5 ≡ (97 ∷ 0xef ∷ 0xbf ∷ 0xbd ∷ [], true)
unfolding bound_task_text trim_invalid to_valid_from valid_from rune_size tail_ok encoding_size
    second_low second_high
bound_task_text_cuts = refl

letter_valid : valid_string letter ≡ true
unfolding valid_from rune_size tail_ok encoding_size second_low second_high
letter_valid = refl

bound_task_text-IsBounded_example :
    IsBounded text 5 (bound_task_text text 5).0
    × ((bound_task_text text 5).1 ≡ not (leb (length (to_valid_utf8 text)) 5))
bound_task_text-IsBounded_example = bound_task_text-IsBounded text 5

bound_valid_utf8-eq-bound_task_text_example : bound_valid_utf8 text 5 ≡ (bound_task_text text 5).0
bound_valid_utf8-eq-bound_task_text_example = bound_valid_utf8-eq-bound_task_text text 5
