-- ===== src/Tests/Reduction.antt =====
-- Reductions of a small input.
use vibes.Common.{Bool, true, false, ◌≡◌, ◌==◌, ◌||◌, some, [], ◌∷◌, refl, arith}
use vibes.Common.Texts.{Text, codes, join}
use vibes.Shrink.{shrink_lines, shrink}
use mathlib.Core.List.{Sublistᴰ}
use vibes.Shrink.{trims, without_window}
use vibes.Shrink.Minimal.{shrink_lines_minimal}
use vibes.Shrink.Tail.{shrink_still_fails}

-- An input fails if it has an exclamation mark.
abbrev has_mark : Text → Bool
has_mark [] = false
has_mark (c ∷ text) = (c == 33) || has_mark text

abbrev input : Text
input = codes "a\nb!c\nd\n"

shrink_lines_minimal_example : has_mark (join (without_window (codes "b!c\n" ∷ []) 0 1)) ≡ false
unfolding shrink_lines join
shrink_lines_minimal_example =
    shrink_lines_minimal has_mark input 9 (codes "b!c\n" ∷ []) 4 0 refl (omega arith) (omega arith)

shrink_still_fails_example :
    (reduced : Text) × (shrink has_mark input 9 ≡ some reduced)
    × Sublistᴰ reduced input
    × (has_mark reduced ≡ true)
    × (trims has_mark 1 reduced ≡ false)
shrink_still_fails_example = shrink_still_fails has_mark input 9 refl
