-- ===== src/Shrink/Minimal.antt =====
-- The lines that `_shrink_lines` leaves when it has rounds to spare.
use vibes.Common.{
  ℕ, zero, suc, ◌+◌, ◌-◌, ◌/◌, ◌≤◌, ◌<◌, max, Bool, true, false, ◌&&◌, none, some, List, ◌≡◌, ◌∙◌,
  refl, sym, ap, subst, inl, inr, arith, length, ltb, leb, leb→le, Bool-cases,
}
use vibes.Common.Texts.{Text, join}
use vibes.Shrink.{lines_of, without_window, pass_loop, shrink_pass, lines_loop, shrink_lines}

-- No line from an index on can be left out: without it the input does not fail.
abbrev IsMinimalFrom : (Text → Bool) → ℕ → List Text → Type 0
IsMinimalFrom fails index lines =
    (i : ℕ) → index ≤ i → i < length lines → fails (join (without_window lines i 1)) ≡ false

module _ (fails : Text → Bool) where
  -- A removal is not forgotten.
  removed_stays :
      (left chunk : ℕ) (kept : List Text) (index used : ℕ)
      → (pass_loop fails left chunk kept index true used).removed ≡ true
  unfolding pass_loop
  removed_stays zero chunk kept index used = refl
  removed_stays (suc left) chunk kept index used = elim (Bool-cases (ltb index (length kept))) [
    | inr e ↦ rw (e, pass_loop) refl
    | inl e ↦ elim (Bool-cases (fails (join (without_window kept index chunk)))) [
      | inl f ↦ rw (e, f, pass_loop) (removed_stays left chunk _ index (used + 1))
      | inr f ↦ rw (e, f, pass_loop) (removed_stays left chunk kept (index + chunk) (used + 1))
    ]
  ]

  -- A pass over single lines that removes none, and has rounds to spare, has tried all of them.
  pass_loop-IsMinimalFrom :
      (left chunk : ℕ) (kept : List Text) (index used : ℕ)
      → (pass_loop fails left chunk kept index false used).removed ≡ false
      → ((pass_loop fails left chunk kept index false used).kept ≡ kept)
        × (chunk ≡ 1
            → (pass_loop fails left chunk kept index false used).used_rounds < used + left
            → IsMinimalFrom fails index kept)
  unfolding pass_loop
  pass_loop-IsMinimalFrom zero chunk kept index used h =
      (refl, λ one spare. absurd (omega (arith, spare)))
  pass_loop-IsMinimalFrom (suc left) chunk kept index used h =
      elim (Bool-cases (ltb index (length kept))) [
        | inr e ↦ (rw (e, pass_loop) refl, λ one spare i from below. absurd (ground (arith, e)))
        | inl e ↦ elim (Bool-cases (fails (join (without_window kept index chunk)))) [
          | inl f ↦
              let step : pass_loop fails (suc left) chunk kept index false used
                  ≡ pass_loop fails left chunk (without_window kept index chunk) index true
                      (used + 1) =
                rw (e, f, pass_loop) in
              let stays =
                removed_stays left chunk (without_window kept index chunk) index (used + 1) in
              absurd (cc (ap (λ p. p.removed) step, stays, h))
          | inr f ↦
              let step : pass_loop fails (suc left) chunk kept index false used
                  ≡ pass_loop fails left chunk kept (index + chunk) false (used + 1) =
                rw (e, f, pass_loop) in
              let (same, minimal) =
                pass_loop-IsMinimalFrom left chunk kept (index + chunk) (used + 1)
                  (ap (λ p. p.removed) (sym step) ∙ h) in
              (
                ap (λ p. p.kept) step ∙ same,
                λ one spare i from below. elim (Bool-cases (leb i index)) [
                  | inl at ↦
                      let here : index ≡ i = omega (arith, from, leb→le i index at) in
                      rw⁻¹ (here, one) f
                  | inr past ↦
                      let less = ap (λ p. p.used_rounds) step in
                      minimal one (omega (arith, less, spare)) i (ground (arith, past, one)) below
                ],
              )
        ]
      ]

  lines_loop-over :
      (n max_rounds : ℕ) (lines : List Text) (chunk rounds : ℕ)
      → (leb 1 chunk && ltb rounds max_rounds) ≡ false
      → lines_loop fails n max_rounds lines chunk rounds ≡ some (lines, rounds)
  unfolding lines_loop
  lines_loop-over zero max_rounds lines chunk rounds e = rw e refl
  lines_loop-over (suc n) max_rounds lines chunk rounds e = rw (e, lines_loop) refl

  -- The loop ends with a pass over single lines that removed none, or with no rounds to spare.
  lines_loop-IsMinimalFrom :
      (n max_rounds : ℕ) (lines : List Text) (chunk rounds : ℕ) (kept : List Text) (used : ℕ)
      → 1 ≤ chunk
      → lines_loop fails n max_rounds lines chunk rounds ≡ some (kept, used)
      → used < max_rounds
      → IsMinimalFrom fails 0 kept
  unfolding lines_loop shrink_pass
  lines_loop-IsMinimalFrom zero max_rounds lines chunk rounds kept used one ran spare =
      elim (Bool-cases (leb 1 chunk && ltb rounds max_rounds)) [
        | inl e ↦ absurd (let x : none ≡ some (kept, used) = rw e at ran in cc x)
        | inr e ↦
            let same : rounds ≡ used =
              cc (sym (lines_loop-over 0 max_rounds lines chunk rounds e) ∙ ran) in
            absurd (ground (arith, e, same))
      ]
  lines_loop-IsMinimalFrom (suc n) max_rounds lines chunk rounds kept used one ran spare =
      let p = shrink_pass fails lines chunk (max_rounds - rounds) in
      elim (Bool-cases (leb 1 chunk && ltb rounds max_rounds)) [
        | inr e ↦
            let same : rounds ≡ used =
              cc (sym (lines_loop-over (suc n) max_rounds lines chunk rounds e) ∙ ran) in
            absurd (ground (arith, e, same))
        | inl e ↦ elim (Bool-cases p.removed) [
          | inl h ↦
              let step : lines_loop fails (suc n) max_rounds lines chunk rounds
                  ≡ lines_loop fails n max_rounds p.kept chunk (rounds + p.used_rounds) =
                rw (e, h, lines_loop) in
              lines_loop-IsMinimalFrom n max_rounds p.kept chunk (rounds + p.used_rounds) kept used
                one (sym step ∙ ran) spare
          | inr h ↦
              let step : lines_loop fails (suc n) max_rounds lines chunk rounds
                  ≡ lines_loop fails n max_rounds p.kept (chunk / 2) (rounds + p.used_rounds) =
                rw (e, h, lines_loop) in
              elim (Bool-cases (leb 1 (chunk / 2))) [
                | inl more ↦
                    lines_loop-IsMinimalFrom n max_rounds p.kept (chunk / 2)
                      (rounds + p.used_rounds) kept used (leb→le 1 _ more) (sym step ∙ ran) spare
                | inr over ↦
                    let stop : some (p.kept, rounds + p.used_rounds) ≡ some (kept, used) =
                      sym (
                        lines_loop-over n max_rounds p.kept (chunk / 2) (rounds + p.used_rounds)
                          (ground (arith, over)))
                      ∙ sym step
                      ∙ ran in
                    let count : rounds + p.used_rounds ≡ used = cc stop in
                    let (same, minimal) =
                      pass_loop-IsMinimalFrom (max_rounds - rounds) chunk lines 0 0 h in
                    subst (IsMinimalFrom fails 0) (cc (sym same ∙ refl, stop))
                      (minimal (ground (arith, over)) (omega (arith, count)))
              ]
        ]
      ]

  -- When `_shrink_lines` ends with rounds to spare, no line that it leaves can be taken out:
  -- without it the rest does not fail.
  pub shrink_lines_minimal :
      (text : Text) (max_rounds : ℕ) (kept : List Text) (used i : ℕ)
      → shrink_lines fails text max_rounds ≡ some (kept, used)
      → used < max_rounds
      → i < length kept
      → fails (join (without_window kept i 1)) ≡ false
  unfolding shrink_lines
  shrink_lines_minimal text max_rounds kept used i ran spare below =
      lines_loop-IsMinimalFrom (max_rounds + max 1 (length (lines_of text) / 2)) max_rounds
        (lines_of text) (max 1 (length (lines_of text) / 2)) 0 kept used (omega arith) ran spare i
        (omega arith) below
