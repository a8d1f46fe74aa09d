-- ===== src/Packer/Extract/Lines.antt =====
-- `_source_lines` against the tokenizer's lines, and the signatures that end in a colon.
use vibes.Common.{
  ℕ, ◌≡◌, ◌≢◌, refl, sym, ap, ◌∙◌, Bool, true, false, List, [], ◌∷◌, ◌++◌, All, arith, length, ◌==◌,
  ==_iff, Bool-cases, inl, inr, ltb, if◌then◌else◌, ◌&&◌,
}
use vibes.Common.Texts.{Text, codes, on_first_line, ends_with, ends_with-append}
use vibes.Packer.{join_with, separated}
use vibes.Packer.Extract.{
  Node, newline, carriage_return, replace_crlf, replace_cr, split_lines, source_lines,
  declaration_lines, extract_declaration_signature, before_colon, first_or,
}

-- A line of the tokenizer has no line break in it.
abbrev pub IsLine : Text → Type 0
IsLine = All (λ c. (c ≢ newline) × (c ≢ carriage_return))

replace_cr-clean : (text : Text) → All (λ c. c ≢ carriage_return) (replace_cr text)
unfolding replace_cr
replace_cr-clean [] = tt
replace_cr-clean (c ∷ text) = elim (Bool-cases (c == carriage_return)) [
  | inl e ↦ (rw e (λ h. omega (arith, h)), replace_cr-clean text)
  | inr e ↦ (rw e (λ h. ground (arith, e, h)), replace_cr-clean text)
]

split_lines-cons :
    (text : Text) → (line : Text) × (lines : List Text) × (split_lines text ≡ line ∷ lines)
unfolding split_lines
split_lines-cons [] = ([], [], refl)
split_lines-cons (c ∷ text) =
    let (line, lines, e) = split_lines-cons text in
    elim (Bool-cases (c == newline)) [
      | inl h ↦ ([], line ∷ lines, rw (h, e) refl)
      | inr h ↦ (c ∷ line, lines, rw (h, e) refl)
    ]

on_first_line-IsLine :
    (c : ℕ) (lines : List Text)
    → c ≢ newline
    → c ≢ carriage_return
    → All IsLine lines
    → All IsLine (on_first_line c lines)
on_first_line-IsLine c [] h h' all = (((h, h'), tt), tt)
on_first_line-IsLine c (line ∷ lines) h h' (first, all) = (((h, h'), first), all)

split_lines-IsLine :
    (text : Text) → All (λ c. c ≢ carriage_return) text → All IsLine (split_lines text)
unfolding split_lines
split_lines-IsLine [] all = (tt, tt)
split_lines-IsLine (c ∷ text) (clean, all) = elim (Bool-cases (c == newline)) [
  | inl e ↦ rw e (tt, split_lines-IsLine text all)
  | inr e ↦ rw e (
      on_first_line-IsLine c (split_lines text) (λ h. ground (arith, e, h)) clean
        (split_lines-IsLine text all))
]

split_lines-join : (text : Text) → join_with (newline ∷ []) (split_lines text) ≡ text
unfolding split_lines join_with separated
split_lines-join [] = refl
split_lines-join (c ∷ text) =
    let (line, lines, e) = split_lines-cons text in
    let whole : line ++ separated (newline ∷ []) lines ≡ text =
      ap (join_with (newline ∷ [])) (sym e) ∙ split_lines-join text in
    elim (Bool-cases (c == newline)) [
      | inl h ↦ rw (h, e, (==_iff c newline).0 h) (ap (newline ∷◌) whole)
      | inr h ↦ rw (h, e) (ap (c ∷◌) whole)
    ]

-- A text with its line breaks as line feeds, in one walk: a carriage return becomes one, and a line
-- feed right after a carriage return goes. The flag says that the walk is right after one.
unfoldable pub with_line_feeds : Bool → Text → Text
with_line_feeds after_return [] = []
with_line_feeds after_return (c ∷ text) =
    let rest = with_line_feeds (c == carriage_return) text in
    if after_return && c == newline
    then rest
    else (if c == carriage_return then newline else c) ∷ rest

replace_cr-replace_crlf :
    (text : Text) → replace_cr (replace_crlf text) ≡ with_line_feeds false text
unfolding replace_cr replace_crlf with_line_feeds
replace_cr-replace_crlf [] = refl
replace_cr-replace_crlf (c ∷ []) = refl
replace_cr-replace_crlf (c ∷ d ∷ text) =
    ground (arith, replace_cr-replace_crlf text, replace_cr-replace_crlf (d ∷ text))

-- No line of `_source_lines` has a line feed or a carriage return in it, and the lines joined by
-- line feeds are the source as one walk over it gives it that makes a line feed of every carriage
-- return and leaves out a line feed right after one.
pub source_lines-IsLine :
    (source_code : Text)
    → All IsLine (source_lines source_code)
      × (join_with (newline ∷ []) (source_lines source_code) ≡ with_line_feeds false source_code)
unfolding source_lines
source_lines-IsLine source_code = (
  split_lines-IsLine _ (replace_cr-clean (replace_crlf source_code)),
  split_lines-join (replace_cr (replace_crlf source_code)) ∙ replace_cr-replace_crlf source_code,
)

-- Whatever node and lines it gets, `_extract_declaration_signature` returns a text that ends in a
-- colon.
pub signature_ends_in_colon :
    (node : Node) (lines : List Text)
    → ends_with (extract_declaration_signature node lines) (codes ":") ≡ true
unfolding extract_declaration_signature
signature_ends_in_colon node lines =
    let whole = declaration_lines node lines in
    elim (Bool-cases (ltb 0 (length node.body) && first_or 0 node.body == node.lineno)) [
      | inl inline ↦ rw inline (closed (before_colon whole ++ codes ":"))
      | inr block ↦ rw block (closed whole)
    ]
  where
    closed :
        (sig : Text)
        → ends_with (if ends_with sig (codes ":") then sig else sig ++ codes ":") (codes ":") ≡ true
    closed sig = elim (Bool-cases (ends_with sig (codes ":"))) [
      | inl e ↦ rw e e
      | inr e ↦ rw e (ends_with-append sig (codes ":"))
    ]
