-- ===== src/Shrink.antt =====
-- tools/fuzz_core.py, lines 432 to 434 and 546 to 600: the reduction of a failing input. `fails` is
-- the predicate that the caller passes. The loops without a budget of their own take fuel, and `none`
-- means that it ran out.
pub mod Passes
pub mod Minimal
pub mod Tail
use vibes.Common.{
  ℕ, zero, suc, ◌+◌, ◌-◌, ◌/◌, max, Bool, true, false, ◌&&◌, ◌||◌, not, Option, none, some, List,
  [], ◌∷◌, ◌++◌, length, take, drop, ltb, leb, ◌==◌, if◌then◌else◌,
}
use vibes.Common.Texts.{Text, join, on_first_line}

-- The line boundaries of `str.splitlines`, where a carriage return before a line feed is not one.
abbrev pub is_boundary : ℕ → Bool
is_boundary c =
    (leb 10 c && leb c 13) || (leb 0x1C c && leb c 0x1E) || c == 0x85 || c == 0x2028 || c == 0x2029

abbrev pub next_is_line_feed : Text → Bool
next_is_line_feed [] = false
next_is_line_feed (c ∷ text) = c == 10

-- `_lines`: `text.splitlines(keepends=True)`
unfoldable pub lines_of : Text → List Text
lines_of [] = []
lines_of (c ∷ text) =
    let rest = lines_of text in
    if is_boundary c && not (c == 13 && next_is_line_feed text)
    then (c ∷ []) ∷ rest
    else on_first_line c rest

-- `kept[:index] + kept[index + chunk :]`
abbrev pub without_window : List Text → ℕ → ℕ → List Text
without_window kept index chunk = take index kept ++ drop (index + chunk) kept

-- What `_shrink_pass` returns.
pub record Pass : Type 0 where
  pub kept : List Text
  pub removed : Bool
  pub used_rounds : ℕ

module _ (fails : Text → Bool) where
  -- The loop of `_shrink_pass`, over the rounds that the budget has left.
  unfoldable pub pass_loop : ℕ → ℕ → List Text → ℕ → Bool → ℕ → Pass
  pass_loop zero chunk kept index removed used = record {
    kept = kept;
    removed = removed;
    used_rounds = used;
  }
  pass_loop (suc left) chunk kept index removed used =
      let candidate = without_window kept index chunk in
      elim (ltb index (length kept)) [
        | false ↦ record { kept = kept; removed = removed; used_rounds = used }
        | true ↦ elim (fails (join candidate)) [
          | true ↦ pass_loop left chunk candidate index true (used + 1)
          | false ↦ pass_loop left chunk kept (index + chunk) removed (used + 1)
        ]
      ]

  unfoldable pub shrink_pass : List Text → ℕ → ℕ → Pass
  unfolding pass_loop
  shrink_pass lines chunk budget = pass_loop budget chunk lines 0 false 0

  -- The loop of `_shrink_lines`; it ends with its lines and the rounds that it used.
  unfoldable pub lines_loop : ℕ → ℕ → List Text → ℕ → ℕ → Option (List Text × ℕ)
  unfolding shrink_pass
  lines_loop zero max_rounds lines chunk rounds =
      if leb 1 chunk && ltb rounds max_rounds then none else some (lines, rounds)
  lines_loop (suc n) max_rounds lines chunk rounds =
      let p = shrink_pass lines chunk (max_rounds - rounds) in
      elim (leb 1 chunk && ltb rounds max_rounds) [
        | false ↦ some (lines, rounds)
        | true ↦
            lines_loop n max_rounds p.kept (if p.removed then chunk else chunk / 2)
              (rounds + p.used_rounds)
      ]

  -- `_shrink_lines` before the final `join`, with the rounds used: each turn of its loop uses a
  -- round or halves the window, so that the rounds and the window together are fuel enough.
  unfoldable pub shrink_lines : Text → ℕ → Option (List Text × ℕ)
  unfolding lines_loop lines_of
  shrink_lines text max_rounds =
      let lines = lines_of text in
      let chunk = max 1 (length lines / 2) in
      lines_loop (max_rounds + chunk) max_rounds lines chunk 0

  -- `len(text) >= step and fails(text[: len(text) - step])`
  abbrev pub trims : ℕ → Text → Bool
  trims step text = leb step (length text) && fails (take (length text - step) text)

  -- The inner loop of `_shrink_tail`.
  unfoldable pub trim_loop : ℕ → ℕ → Text → Option Text
  trim_loop zero step text = if trims step text then none else some text
  trim_loop (suc n) step text = elim (trims step text) [
    | false ↦ some text
    | true ↦ trim_loop n step (take (length text - step) text)
  ]

  -- The outer loop of `_shrink_tail`.
  unfoldable pub tail_loop : ℕ → ℕ → Text → Option Text
  unfolding trim_loop
  tail_loop zero step text = if leb 1 step then none else some text
  tail_loop (suc n) step text = elim (leb 1 step) [
    | false ↦ some text
    | true ↦ elim (trim_loop (length text) step text) [
      | none ↦ none
      | some text ↦ tail_loop n (step / 2) text
    ]
  ]

  unfoldable pub shrink_tail : Text → Option Text
  unfolding tail_loop
  shrink_tail text = let step = max 1 (length text / 2) in tail_loop step step text

  -- `shrink`
  unfoldable pub shrink : Text → ℕ → Option Text
  unfolding shrink_lines shrink_tail
  shrink text max_rounds = elim (shrink_lines text max_rounds) [
    | none ↦ none
    | some (lines, rounds) ↦ shrink_tail (join lines)
  ]
