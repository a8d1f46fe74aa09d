-- ===== src/Packer/Levels.antt =====
-- `pack_source_to_budget` degrades the level no further than it must.
use vibes.Common.{
  ℕ, ◌+◌, ◌<◌, ◌≡◌, ◌⊎◌, ◌∙◌, refl, inl, inr, some, List, [], ◌∷◌, arith, length, leb, leb→le, ◌==◌,
  ==_iff, Bool-cases, All,
}
use vibes.Common.Texts.{Text}
use vibes.Packer.{
  AstSymbol, ContextDetailLevel, full, docstrings, signatures, pack_levels, pack_symbols_to_budget,
}
use vibes.Packer.Tokens.{slice-monotone}
use vibes.Packer.Search.{tokens, Longest, binary_search_pack_symbols-Longest}

-- The levels that `pack_source_to_budget` evaluates before a level.
abbrev pub richer : ContextDetailLevel → List ContextDetailLevel
richer full = []
richer docstrings = full ∷ []
richer signatures = full ∷ docstrings ∷ []

module _ (repr : Text → Text) (symbols : List AstSymbol) (budget : ℕ) where
  -- All the symbols take more than the budget at a level.
  abbrev pub TooMany : ContextDetailLevel → Type 0
  TooMany level = budget < tokens repr symbols level (length symbols)

  -- A packing of all the symbols at its level, or of the most that fit as signatures.
  pub record Packed (text : Text) (level : ContextDetailLevel) (count : ℕ) : Type 0 where
    pub longest : Longest repr symbols budget level (text, count)
    pub degraded : All TooMany (richer level)
    pub whole : (count ≡ length symbols) ⊎ ((level ≡ signatures) × TooMany signatures)

  -- A level either takes all the symbols, or they are too many for it and the next one is tried.
  pack_levels-cases :
      (level : ContextDetailLevel) (levels : List ContextDetailLevel)
      → 0 < budget
      → 0 < length symbols
      → (text : Text) × (count : ℕ) × Longest repr symbols budget level (text, count)
        × (((count ≡ length symbols)
              × (pack_levels repr symbols budget (level ∷ levels) ≡ some (text, level, count)))
            ⊎ (TooMany level
                × (pack_levels repr symbols budget (level ∷ levels)
                    ≡ pack_levels repr symbols budget levels)))
  unfolding pack_levels
  pack_levels-cases level levels positive nonempty =
      let ((text, count), e, found) =
        binary_search_pack_symbols-Longest repr symbols budget level positive in
      elim (Bool-cases (count == length symbols)) [
        | inl all ↦ (text, count, found, inl ((==_iff _ _).0 all, rw (e, all, pack_levels) refl))
        | inr part ↦ (
          text,
          count,
          found,
          inr (
            elim (Bool-cases (leb (tokens repr symbols level (length symbols)) budget)) [
              | inl fit ↦ elim found.longest [
                | inl all ↦ absurd (ground (arith, part, all))
                | inr next ↦
                    let whole =
                      slice-monotone repr symbols level (count + 1) (length symbols)
                        (ground (arith, part, found.within)) in
                    absurd (let le = leb→le _ _ fit in omega (arith, next, whole))
              ]
              | inr over ↦ ground (arith, over)
            ],
            rw (e, part, pack_levels) refl,
          ),
        )
      ]

  pack_fallback :
      0 < budget
      → (text : Text) × (count : ℕ) × Longest repr symbols budget signatures (text, count)
        × (pack_levels repr symbols budget [] ≡ some (text, signatures, count))
  unfolding pack_levels
  pack_fallback positive =
      let ((text, count), e, found) =
        binary_search_pack_symbols-Longest repr symbols budget signatures positive in
      (text, count, found, rw (e, pack_levels) refl)

  -- For a positive budget and at least one symbol extracted, `pack_source_to_budget` returns from
  -- the symbols on a text within the budget: all the symbols at the first of the levels full,
  -- docstrings and signatures at which they fit, and if they fit at none, a slice as signatures
  -- that with one more symbol would not fit.
  pub pack_symbols_to_budget-Packed :
      0 < budget
      → 0 < length symbols
      → (text : Text) × (level : ContextDetailLevel) × (count : ℕ) × (pack_symbols_to_budget repr
            symbols budget
          ≡ some (text, level, count))
        × Packed text level count
  unfolding pack_symbols_to_budget
  pack_symbols_to_budget-Packed positive nonempty =
      let (t1, n1, found1, case1) =
        pack_levels-cases full (docstrings ∷ signatures ∷ []) positive nonempty in
      let (t2, n2, found2, case2) =
        pack_levels-cases docstrings (signatures ∷ []) positive nonempty in
      let (t3, n3, found3, case3) = pack_levels-cases signatures [] positive nonempty in
      let (t4, n4, found4, last) = pack_fallback positive in
      let start : pack_symbols_to_budget repr symbols budget
          ≡ pack_levels repr symbols budget (full ∷ docstrings ∷ signatures ∷ []) =
        ground arith in
      elim case1 [
        | inl (all, e) ↦
            (t1, full, n1, start ∙ e, record { longest = found1; degraded = tt; whole = inl all })
        | inr (over1, e1) ↦ elim case2 [
          | inl (all, e) ↦ (
            t2,
            docstrings,
            n2,
            start ∙ e1 ∙ e,
            record { longest = found2; degraded = (over1, tt); whole = inl all },
          )
          | inr (over2, e2) ↦ elim case3 [
            | inl (all, e) ↦ (
              t3,
              signatures,
              n3,
              start ∙ e1 ∙ e2 ∙ e,
              record { longest = found3; degraded = (over1, (over2, tt)); whole = inl all },
            )
            | inr (over3, e3) ↦ (
              t4,
              signatures,
              n4,
              start ∙ e1 ∙ e2 ∙ e3 ∙ last,
              record {
                longest = found4;
                degraded = (over1, (over2, tt));
                whole = inr (refl, over3);
              },
            )
          ]
        ]
      ]
