-- ===== src/Mutation.antt =====
-- tools/fuzz_core.py, lines 53 to 60 and 426 to 540: the mutation of inputs. The generator of random
-- numbers is a parameter. `none` stands for the ValueError of a draw from an empty range, an
-- IndexError and a KeyError.
pub mod Returns
use Prim.Native.String.{compare}
use text.Mathlib.Text.{is_le, ◌==◌ as str_eq}
use vibes.Common.{
  ℕ, zero, suc, ◌+◌, ◌-◌, Bool, true, false, not, ◌||◌, String, Option, none, some, List, [], ◌∷◌,
  ◌++◌, length, take, drop, map, ltb, if◌then◌else◌,
}
use vibes.Common.Dict.{Dict, get}
use vibes.Common.Int.{ℤ}
use vibes.Common.Sorting.{keep, sort_by}
use vibes.Common.Texts.{Text, codes, join}
use vibes.Shrink.{lines_of, without_window}

-- What is called of `random.Random`: `randrange` of a beginning and an end, and the index that
-- `choice` draws for a sequence of a length.
pub record Random (S : Type 0) : Type 0 where
  pub randrange : S → ℕ → ℕ → Option (S × ℕ)
  pub choice : S → ℕ → Option (S × ℕ)

pub record Case : Type 0 where
  pub corpus : String
  pub text : Text
  pub seed : ℤ
  pub origin : Text

-- `xs[index]`
unfoldable pub element : {A : Type 0} → List A → ℕ → Option A
element [] index = none
element (x ∷ xs) zero = some x
element (x ∷ xs) (suc index) = element xs index

-- `[x] * n`
unfoldable pub repeated : {A : Type 0} → A → ℕ → List A
repeated x zero = []
repeated x (suc n) = x ∷ repeated x n

-- `_CONTROL_BYTES`
abbrev pub control_bytes : List Text
control_bytes =
    (0 ∷ [])
    ∷ (0xD ∷ [])
    ∷ (0xB ∷ [])
    ∷ (0xC ∷ [])
    ∷ (0xFEFF ∷ [])
    ∷ (0x1B ∷ codes "[0m")
    ∷ (9 ∷ [])
    ∷ []

-- What follows an indexing and what follows a draw.
abbrev pub at : {A B : Type 0} → Option A → (A → Option B) → Option B
at none k = none
at (some x) k = k x

abbrev pub drawn : {S B : Type 0} → Option (S × ℕ) → (S → ℕ → Option B) → Option B
drawn none k = none
drawn (some (rng, r)) k = k rng r

module _ {S : Type 0} (random : Random S) where
  open random use {randrange, choice}

  -- The ends of the mutators of lines, after `lines = _lines(text)`.
  unfoldable pub delete_line : List Text → Text → S → Option (S × Text)
  delete_line [] text rng = some (rng, text)
  delete_line (l ∷ ls) text rng =
      drawn (randrange rng 0 (length (l ∷ ls)))
        (λ rng index. some (rng, join (without_window (l ∷ ls) index 1)))

  unfoldable pub duplicate_line : List Text → Text → S → Option (S × Text)
  unfolding element
  duplicate_line [] text rng = some (rng, text)
  duplicate_line (l ∷ ls) text rng = drawn (randrange rng 0 (length (l ∷ ls))) (λ rng index.
      at (element (l ∷ ls) index)
        (λ line. some (rng, join (take (index + 1) (l ∷ ls) ++ line ∷ drop (index + 1) (l ∷ ls)))))

  unfoldable pub repeat_token : List Text → Text → S → Option (S × Text)
  unfolding element repeated
  repeat_token [] text rng = some (rng, text)
  repeat_token (l ∷ ls) text rng = drawn (randrange rng 0 (length (l ∷ ls))) (λ rng index.
      at (element (l ∷ ls) index) (λ line. drawn (randrange rng 50 400) (λ rng count.
        some (rng, join (take index (l ∷ ls) ++ repeated line count ++ drop index (l ∷ ls))))))

  unfoldable pub m_delete_line : Text → S → Text → Option (S × Text)
  unfolding delete_line lines_of
  m_delete_line text rng donor = delete_line (lines_of text) text rng

  unfoldable pub m_duplicate_line : Text → S → Text → Option (S × Text)
  unfolding duplicate_line lines_of
  m_duplicate_line text rng donor = duplicate_line (lines_of text) text rng

  unfoldable pub m_truncate : Text → S → Text → Option (S × Text)
  m_truncate text rng donor =
      drawn (randrange rng 0 (length text + 1)) (λ rng cut. some (rng, take cut text))

  unfoldable pub m_swap_adjacent : Text → S → Text → Option (S × Text)
  unfolding element
  m_swap_adjacent text rng donor =
      let swapped = drawn (randrange rng 0 (length text - 1)) (λ rng index.
        at (element text (index + 1)) (λ second.
          at (element text index)
            (λ first. some (rng, take index text ++ second ∷ first ∷ drop (index + 2) text)))) in
      if ltb (length text) 2 then some (rng, text) else swapped

  unfoldable pub m_insert_control : Text → S → Text → Option (S × Text)
  unfolding element
  m_insert_control text rng donor = drawn (randrange rng 0 (length text + 1)) (λ rng index.
      drawn (choice rng (length control_bytes)) (λ rng chosen.
        at (element control_bytes chosen)
          (λ control. some (rng, take index text ++ control ++ drop index text))))

  unfoldable pub m_repeat_token : Text → S → Text → Option (S × Text)
  unfolding repeat_token lines_of
  m_repeat_token text rng donor = repeat_token (lines_of text) text rng

  unfoldable pub m_indent_storm : Text → S → Text → Option (S × Text)
  unfolding repeated lines_of
  m_indent_storm text rng donor =
      drawn (randrange rng 1 64)
        (λ rng width. some (rng, join (map (λ line. repeated b' ' width ++ line) (lines_of text))))

  unfoldable pub m_widen : Text → S → Text → Option (S × Text)
  unfolding repeated
  m_widen text rng donor =
      drawn (randrange rng 4096 65536)
        (λ rng width. some (rng, text ++ codes "#" ++ repeated b'x' width ++ codes "\n"))

  unfoldable pub m_splice : Text → S → Text → Option (S × Text)
  m_splice text rng donor = drawn (randrange rng 0 (length text + 1)) (λ rng cut.
      drawn (randrange rng 0 (length donor + 1))
        (λ rng from. some (rng, take cut text ++ drop from donor)))

  unfoldable pub m_blank : Text → S → Text → Option (S × Text)
  m_blank text rng donor = some (rng, [])

  -- `MUTATORS`
  abbrev pub mutators : Dict (Text → S → Text → Option (S × Text))
  mutators =
      ("blank", m_blank)
      ∷ ("delete_line", m_delete_line)
      ∷ ("duplicate_line", m_duplicate_line)
      ∷ ("indent_storm", m_indent_storm)
      ∷ ("insert_control", m_insert_control)
      ∷ ("repeat_token", m_repeat_token)
      ∷ ("splice", m_splice)
      ∷ ("swap_adjacent", m_swap_adjacent)
      ∷ ("truncate", m_truncate)
      ∷ ("widen", m_widen)
      ∷ []

  -- `EXPLORATORY_MUTATORS`
  unfoldable pub exploratory_mutators : List String
  unfolding keep sort_by
  exploratory_mutators =
      keep (λ name. not (str_eq name "blank" || str_eq name "widen"))
        (sort_by (λ a b. is_le (compare a b)) (map (λ e. e.0) mutators))

  -- The text that a mutator gives, in a case with its name.
  abbrev pub mutated : Case → String → Option (S × Text) → Option (S × Case)
  mutated case name none = none
  mutated case name (some (rng, text)) =
      some (rng, record case { text = text; origin = case.origin ++ codes "+" ++ codes name })

  -- `mutate`
  unfoldable pub mutate : Case → S → Option Text → Option (S × Case)
  unfolding element get exploratory_mutators
  mutate case rng donor = drawn (choice rng (length exploratory_mutators)) (λ rng chosen.
      at (element exploratory_mutators chosen) (λ name. at (get mutators name) (λ mutator.
        mutated case name
          (mutator case.text rng (elim donor [ none ↦ case.text | some other ↦ other ])))))
