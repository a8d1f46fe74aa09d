-- ===== src/Packer/Search.antt =====
-- `binary_search_pack_symbols` ends, and finds the longest slice that fits the budget.
use vibes.Common.{
  ℕ, zero, suc, ◌+◌, ◌-◌, ◌/◌, ◌≤◌, ◌<◌, ◌||◌, some, List, [], ◌≡◌, ◌⊎◌, refl, inl, inr, arith,
  length, leb, leb→le, ◌==◌, ==_iff, Bool-cases,
}
use vibes.Common.Texts.{Text}
use vibes.Packer.{
  AstSymbol, ContextDetailLevel, estimate_tokens, render_symbol_slice, pack_loop,
  binary_search_pack_symbols,
}
use vibes.Packer.Tokens.{slice-monotone}

-- The tokens of a slice.
abbrev pub tokens : (Text → Text) → List AstSymbol → ContextDetailLevel → ℕ → ℕ
tokens repr symbols level k = estimate_tokens (render_symbol_slice repr symbols k level)

-- A packing at a level is a slice of the symbols that fits the budget, or nothing, and with one more
-- symbol it would not fit.
pub record Longest (repr : Text → Text) (symbols : List AstSymbol) (budget : ℕ)
    (level : ContextDetailLevel) (packed : Text × ℕ) : Type 0 where
  pub within : packed.1 ≤ length symbols
  pub rendered : (packed ≡ ([], 0)) ⊎ (packed.0 ≡ render_symbol_slice repr symbols packed.1 level)
  pub fits : estimate_tokens packed.0 ≤ budget
  pub longest : (packed.1 ≡ length symbols) ⊎ (budget < tokens repr symbols level (packed.1 + 1))

module _ (repr : Text → Text) (symbols : List AstSymbol) (budget : ℕ)
    (level : ContextDetailLevel) where
  record Searching (low high : ℕ) (best : Text × ℕ) : Type 0 where
    within : best.1 ≤ length symbols
    below : best.1 ≡ low - 1
    top : high ≤ length symbols
    rendered : (best ≡ ([], 0)) ⊎ (best.0 ≡ render_symbol_slice repr symbols best.1 level)
    fits : estimate_tokens best.0 ≤ budget
    above : (k : ℕ) → high < k → k ≤ length symbols → budget < tokens repr symbols level k

  -- When the bounds have met, the best slice is the longest.
  met-Longest :
      (low high : ℕ) (best : Text × ℕ)
      → high < low
      → Searching low high best
      → Longest repr symbols budget level best
  met-Longest low high best met s = record {
    within = s.within;
    rendered = s.rendered;
    fits = s.fits;
    longest = elim (Bool-cases (leb (length symbols) best.1)) [
      | inl all ↦ inl (let le = leb→le _ _ all in omega (arith, le, s.within))
      | inr part ↦
          inr (s.above (best.1 + 1) (omega (arith, s.below)) (ground (arith, part, s.within)))
    ];
  }

  -- A slice in the middle that fits is the new best one.
  fitting-Searching :
      (low high : ℕ) (best : Text × ℕ)
      → low ≤ high
      → Searching low high best
      → tokens repr symbols level ((low + high) / 2) ≤ budget
      → Searching
          ((low + high) / 2 + 1)
          high
          (render_symbol_slice repr symbols ((low + high) / 2) level, (low + high) / 2)
  fitting-Searching low high best le s fit = record {
    within = omega (arith, s.top);
    below = omega arith;
    top = s.top;
    rendered = inr refl;
    fits = fit;
    above = s.above;
  }

  -- If it does not fit, no longer one does.
  passing-Searching :
      (low high : ℕ) (best : Text × ℕ)
      → low ≤ high
      → Searching low high best
      → budget < tokens repr symbols level ((low + high) / 2)
      → Searching low ((low + high) / 2 - 1) best
  passing-Searching low high best le s pass = record {
    within = s.within;
    below = s.below;
    top = omega (arith, s.top);
    rendered = s.rendered;
    fits = s.fits;
    above = λ k far most.
        omega (arith, slice-monotone repr symbols level ((low + high) / 2) k (omega arith));
  }

  -- A middle of 0 is passed over.
  skipping-Searching :
      (low high : ℕ) (best : Text × ℕ)
      → low ≤ high
      → Searching low high best
      → (low + high) / 2 ≡ 0
      → Searching ((low + high) / 2 + 1) high best
  skipping-Searching low high best le s at = record {
    within = s.within;
    below = omega (arith, s.below);
    top = s.top;
    rendered = s.rendered;
    fits = s.fits;
    above = s.above;
  }

  -- The bounds of the search meet: every turn of the loop takes one from their distance.
  pack_loop-Longest :
      (n low high : ℕ) (best : Text × ℕ)
      → high + 1 ≤ n + low
      → Searching low high best
      → (packed : Text × ℕ) × (pack_loop repr n symbols budget level low high best ≡ some packed)
        × Longest repr symbols budget level packed
  unfolding pack_loop
  pack_loop-Longest zero low high best le s =
      (best, ground arith, met-Longest low high best (omega arith) s)
  pack_loop-Longest (suc n) low high best le s =
      let mid = (low + high) / 2 in
      let candidate = render_symbol_slice repr symbols mid level in
      elim (Bool-cases (leb low high)) [
        | inr over ↦
            (best, rw (over, pack_loop) refl, met-Longest low high best (ground (arith, over)) s)
        | inl on ↦
            let order = leb→le low high on in
            elim (Bool-cases (mid == 0)) [
              | inl at ↦
                  let (p, e, found) =
                    pack_loop-Longest n (mid + 1) high best (omega arith)
                      (skipping-Searching low high best order s ((==_iff mid 0).0 at)) in
                  (p, rw (on, at, pack_loop) e, found)
              | inr at ↦
                  let positive : 1 ≤ mid = ground (arith, at) in
                  elim (Bool-cases (leb (estimate_tokens candidate) budget)) [
                    | inl fit ↦
                        let (p, e, found) =
                          pack_loop-Longest n (mid + 1) high (candidate, mid) (omega arith)
                            (fitting-Searching low high best order s (leb→le _ _ fit)) in
                        (p, rw (on, at, fit, pack_loop) e, found)
                    | inr pass ↦
                        let (p, e, found) =
                          pack_loop-Longest n low (mid - 1) best (omega (arith, positive))
                            (passing-Searching low high best order s (ground (arith, pass))) in
                        (p, rw (on, at, pass, pack_loop) e, found)
                  ]
            ]
      ]

  -- For a positive budget, `binary_search_pack_symbols` returns a slice of the symbols that fits
  -- the budget, or nothing, and with one more symbol it would not fit.
  pub binary_search_pack_symbols-Longest :
      0 < budget
      → (packed : Text × ℕ) × (binary_search_pack_symbols repr symbols budget level ≡ some packed)
        × Longest repr symbols budget level packed
  unfolding binary_search_pack_symbols estimate_tokens
  binary_search_pack_symbols-Longest positive =
      elim (Bool-cases (length symbols == 0 || budget == 0)) [
        | inl empty ↦ (
          ([], 0),
          rw empty refl,
          record {
            within = omega arith;
            rendered = inl refl;
            fits = omega arith;
            longest = inl (ground (arith, empty));
          },
        )
        | inr some_left ↦
            let (p, e, found) =
              pack_loop-Longest (length symbols + 1) 0 (length symbols) ([], 0) (omega arith)
                (record {
                  within = omega arith;
                  below = omega arith;
                  top = omega arith;
                  rendered = inl refl;
                  fits = omega arith;
                  above = λ k far most. absurd (omega arith);
                }) in
            (p, rw some_left e, found)
      ]
