-- ===== src/Repomap/Record/Hydrated.antt =====
-- `from_dict` of `to_dict`, in examples/valkey-l2-repomap-cache/repomap_cache.py.
use vibes.Common.{some, List, [], ◌∷◌, ◌≡◌, refl, ap, ◌∙◌}
use vibes.Common.Texts.{Text, text_eq}
use vibes.Repomap.Json.{get_member, count_members, as_text, as_real, read_items, then_with}
use vibes.Repomap.Record.{
  AstSymbol, RepomapRecord, loaded, names_to_items, symbol_to_dict, symbols_to_items,
  reals_to_items, to_dict, symbol_from_dict, from_members, from_dict, typed,
}

module _ (F : Type 0) where
  read_items-names_to_items :
      (names : List Text) → read_items {F = F} as_text (names_to_items names) ≡ some names
  unfolding read_items names_to_items
  read_items-names_to_items [] = refl
  read_items-names_to_items (name ∷ names) =
      ap (λ rest. then_with rest (λ more. some (name ∷ more))) (read_items-names_to_items names)

  read_items-reals_to_items : (xs : List F) → read_items as_real (reals_to_items xs) ≡ some xs
  unfolding read_items reals_to_items
  read_items-reals_to_items [] = refl
  read_items-reals_to_items (x ∷ xs) =
      ap (λ rest. then_with rest (λ more. some (x ∷ more))) (read_items-reals_to_items xs)

  symbol_from_dict-symbol_to_dict :
      (s : AstSymbol) → symbol_from_dict {F = F} (symbol_to_dict s) ≡ some s
  unfolding symbol_from_dict symbol_to_dict get_member text_eq count_members
  symbol_from_dict-symbol_to_dict s =
      ap (λ args. then_with args (λ names. some (record s { args = names })))
        (read_items-names_to_items s.args)

  read_items-symbols_to_items :
      (symbols : List AstSymbol)
      → read_items {F = F} symbol_from_dict (symbols_to_items symbols) ≡ some symbols
  unfolding read_items symbols_to_items
  read_items-symbols_to_items [] = refl
  read_items-symbols_to_items (s ∷ symbols) =
      ap
        (λ first. then_with first (λ a.
          then_with (read_items {F = F} symbol_from_dict (symbols_to_items symbols))
            (λ more. some (a ∷ more))))
        (symbol_from_dict-symbol_to_dict s)
      ∙ ap (λ rest. then_with rest (λ more. some (s ∷ more))) (read_items-symbols_to_items symbols)

  -- A record comes back from its own dictionary, whatever the clock says.
  pub from_dict-to_dict : (now : F) (r : RepomapRecord F) → from_dict now (to_dict r) ≡ loaded r
  unfolding from_dict from_members to_dict get_member text_eq
  from_dict-to_dict now r =
      ap
        (λ read. typed read (λ symbols.
          typed (read_items as_real (reals_to_items r.embedding))
            (λ embedding. loaded (record r { symbols = symbols; embedding = embedding }))))
        (read_items-symbols_to_items r.symbols)
      ∙ ap (λ read. typed read (λ embedding. loaded (record r { embedding = embedding })))
          (read_items-reals_to_items r.embedding)
