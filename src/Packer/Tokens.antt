-- ===== src/Packer/Tokens.antt =====
-- The estimate of tokens grows with the text, and a rendering grows with the number of symbols.
use vibes.Common.{ℕ, zero, suc, ◌+◌, ◌/◌, ◌≤◌, List, [], ◌∷◌, ◌++◌, ◌≡◌, map, arith, take}
use vibes.Common.Texts.{Text, codes}
use vibes.Packer.{
  AstSymbol, ContextDetailLevel, measured, estimate_tokens, separated, join_with, render,
  render_symbol_slice,
}

pub measured-append : (a b : Text) → measured (a ++ b) ≡ measured a + measured b
unfolding measured
measured-append [] b = omega arith
measured-append (c ∷ a) b = omega (arith, measured-append a b)

pub measured-pos : (c : ℕ) (text : Text) → 1 ≤ measured (c ∷ text)
unfolding measured
measured-pos c text = ground arith

pub estimate_tokens_lem : (text : Text) → estimate_tokens text ≡ (measured text + 3) / 4
unfolding estimate_tokens measured
estimate_tokens_lem [] = omega arith
estimate_tokens_lem (c ∷ text) = omega (arith, measured-pos c text)

measured-separated :
    {A : Type 0} (f : A → Text) (sep : Text) (j k : ℕ) (xs : List A)
    → j ≤ k
    → measured (separated sep (map f (take j xs))) ≤ measured (separated sep (map f (take k xs)))
unfolding separated measured
measured-separated f sep zero k xs h = omega arith
measured-separated f sep (suc j) zero xs h = absurd (omega arith)
measured-separated f sep (suc j) (suc k) [] h = omega arith
measured-separated f sep (suc j) (suc k) (x ∷ xs) h = omega (
  arith,
  measured-append sep (f x ++ separated sep (map f (take j xs))),
  measured-append sep (f x ++ separated sep (map f (take k xs))),
  measured-append (f x) (separated sep (map f (take j xs))),
  measured-append (f x) (separated sep (map f (take k xs))),
  measured-separated f sep j k xs (omega arith),
)

measured-join_with :
    {A : Type 0} (f : A → Text) (sep : Text) (j k : ℕ) (xs : List A)
    → j ≤ k
    → measured (join_with sep (map f (take j xs))) ≤ measured (join_with sep (map f (take k xs)))
unfolding join_with measured
measured-join_with f sep zero k xs h = omega arith
measured-join_with f sep (suc j) zero xs h = absurd (omega arith)
measured-join_with f sep (suc j) (suc k) [] h = omega arith
measured-join_with f sep (suc j) (suc k) (x ∷ xs) h = omega (
  arith,
  measured-append (f x) (separated sep (map f (take j xs))),
  measured-append (f x) (separated sep (map f (take k xs))),
  measured-separated f sep j k xs (omega arith),
)

-- A longer slice of the symbols never takes fewer tokens.
pub slice-monotone :
    (repr : Text → Text) (symbols : List AstSymbol) (level : ContextDetailLevel) (j k : ℕ)
    → j ≤ k
    → estimate_tokens (render_symbol_slice repr symbols j level)
      ≤ estimate_tokens (render_symbol_slice repr symbols k level)
unfolding render_symbol_slice
slice-monotone repr symbols level j k h = omega (
  arith,
  estimate_tokens_lem (render_symbol_slice repr symbols j level),
  estimate_tokens_lem (render_symbol_slice repr symbols k level),
  measured-join_with (render repr level) (codes "\n\n") j k symbols h,
)
