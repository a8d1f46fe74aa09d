-- ===== src/Packer.antt =====
-- examples/binary-search-context-packer/context_packer.py: the packing of symbols into a budget of
-- tokens. Texts are lists of code points. `repr` is a parameter of the rendering. The loop of the
-- binary search takes fuel; `none` means that the fuel ran out.
pub mod Tokens
pub mod Search
pub mod Levels
pub mod Extract
use vibes.Common.{
  ℕ, zero, suc, ◌+◌, ◌-◌, ◌/◌, max, Bool, true, false, ◌||◌, ◌&&◌, not, Option, none, some, List,
  [], ◌∷◌, ◌++◌, map, length, take, leb, ltb, ◌==◌, if◌then◌else◌,
}
use vibes.Common.Texts.{Text, codes}

abbrev pub default_token_char_ratio : ℕ
default_token_char_ratio = 4

pub data ContextDetailLevel : Type 0 where
  full docstrings signatures : ContextDetailLevel

-- The values of `kind` that the extraction gives.
pub data Kind : Type 0 where
  function class_kind import_kind : Kind

pub record AstSymbol : Type 0 where
  pub name : Text
  pub kind : Kind
  pub signature : Text
  pub docstring : Text
  pub body_summary : Text
  pub full_source : Text
  pub line_number : ℕ

abbrev pub is_import : Kind → Bool
is_import import_kind = true
is_import _ = false

abbrev pub is_full : ContextDetailLevel → Bool
is_full full = true
is_full _ = false

abbrev pub is_docstrings : ContextDetailLevel → Bool
is_docstrings docstrings = true
is_docstrings _ = false

-- `len(c.encode("utf-8"))` of one code point
abbrev pub utf8_width : ℕ → ℕ
utf8_width c = if ltb c 0x80 then 1 else if ltb c 0x800 then 2 else if ltb c 0x10000 then 3 else 4

-- `len(text.encode("utf-8"))`
unfoldable pub measured : Text → ℕ
measured [] = 0
measured (c ∷ text) = utf8_width c + measured text

unfoldable pub estimate_tokens : Text → ℕ
unfolding measured
estimate_tokens [] = 0
estimate_tokens (c ∷ text) =
    max 1 ((measured (c ∷ text) + default_token_char_ratio - 1) / default_token_char_ratio)

-- `sep.join(parts)`
unfoldable pub separated : Text → List Text → Text
separated sep [] = []
separated sep (part ∷ parts) = sep ++ (part ++ separated sep parts)

unfoldable pub join_with : Text → List Text → Text
unfolding separated
join_with sep [] = []
join_with sep (part ∷ parts) = part ++ separated sep parts

module _ (repr : Text → Text) where
  -- `AstSymbol.render`
  unfoldable pub render : ContextDetailLevel → AstSymbol → Text
  render level s =
      if is_import s.kind || is_full level
      then s.full_source
      else if is_docstrings level && ltb 0 (length s.docstring)
      then s.signature ++ (codes "\n    " ++ (repr s.docstring ++ codes "\n    ..."))
      else s.signature ++ codes "\n    ..."

  unfoldable pub render_symbol_slice : List AstSymbol → ℕ → ContextDetailLevel → Text
  unfolding render join_with
  render_symbol_slice symbols count level =
      join_with (codes "\n\n") (map (render level) (take count symbols))

  -- The loop of `binary_search_pack_symbols`: the bounds, and the best rendering with its count.
  pub pack_loop : ℕ → List AstSymbol → ℕ → ContextDetailLevel → ℕ → ℕ → Text × ℕ → Option (Text × ℕ)
  unfolding render_symbol_slice estimate_tokens
  pack_loop zero symbols budget level low high best = if leb low high then none else some best
  pack_loop (suc n) symbols budget level low high best =
      let mid = (low + high) / 2 in
      let candidate = render_symbol_slice symbols mid level in
      elim (leb low high) [
        | false ↦ some best
        | true ↦ elim (mid == 0) [
          | true ↦ pack_loop n symbols budget level (mid + 1) high best
          | false ↦ elim (leb (estimate_tokens candidate) budget) [
            | true ↦ pack_loop n symbols budget level (mid + 1) high (candidate, mid)
            | false ↦ pack_loop n symbols budget level low (mid - 1) best
          ]
        ]
      ]

  -- `binary_search_pack_symbols`, with one more than the number of symbols as the loop's fuel.
  unfoldable pub binary_search_pack_symbols :
      List AstSymbol → ℕ → ContextDetailLevel → Option (Text × ℕ)
  unfolding pack_loop
  binary_search_pack_symbols symbols budget_tokens level =
      if length symbols == 0 || budget_tokens == 0
      then some ([], 0)
      else pack_loop (length symbols + 1) symbols budget_tokens level 0 (length symbols) ([], 0)

  -- The loop of `pack_source_to_budget` over the levels, and the fallback after it.
  pub pack_levels :
      List AstSymbol → ℕ → List ContextDetailLevel → Option (Text × ContextDetailLevel × ℕ)
  unfolding binary_search_pack_symbols
  pack_levels symbols budget_tokens [] =
      elim (binary_search_pack_symbols symbols budget_tokens signatures) [
        | none ↦ none
        | some (rendered, count) ↦ some (rendered, signatures, count)
      ]
  pack_levels symbols budget_tokens (level ∷ levels) =
      elim (binary_search_pack_symbols symbols budget_tokens level) [
        | none ↦ none
        | some (rendered, count) ↦ elim (count == length symbols) [
          | true ↦ some (rendered, level, count)
          | false ↦ pack_levels symbols budget_tokens levels
        ]
      ]

  -- `pack_source_to_budget`, from the symbols on.
  pub pack_symbols_to_budget : List AstSymbol → ℕ → Option (Text × ContextDetailLevel × ℕ)
  unfolding pack_levels
  pack_symbols_to_budget symbols budget_tokens =
      if length symbols == 0 || budget_tokens == 0
      then some ([], signatures, 0)
      else pack_levels symbols budget_tokens (full ∷ docstrings ∷ signatures ∷ [])
