-- ===== src/Packer/Extract.antt =====
-- The extraction of the symbols from a source, lines 65 to 141 of context_packer.py. The parser of
-- the `ast` module is a parameter: it gives the fields that the code reads of each top-level node.
pub mod Lines
use vibes.Common.{
  ℕ, ◌+◌, ◌-◌, min, max, Bool, true, false, ◌&&◌, ◌||◌, Option, none, some, List, [], ◌∷◌, ◌++◌,
  map, length, take, drop, ltb, leb, ◌==◌, if◌then◌else◌,
}
use vibes.Common.Texts.{Text, codes, ends_with, on_first_line, rstrip}
use vibes.Packer.{
  AstSymbol, ContextDetailLevel, pack_symbols_to_budget, Kind, function, class_kind, import_kind,
  join_with,
}

-- The classes of `ast` nodes that the code tells apart: `FunctionDef` and `AsyncFunctionDef`,
-- `ClassDef`, `Import` and `ImportFrom`, and the rest.
pub data Shape : Type 0 where
  function_def class_def import_statement other : Shape

-- `docstring` is what `ast.get_docstring` returns, `body` the `lineno` of each statement of the body.
pub record Node : Type 0 where
  pub shape : Shape
  pub name : Text
  pub lineno : ℕ
  pub end_lineno : ℕ
  pub docstring : Option Text
  pub body : List ℕ

abbrev pub newline : ℕ
newline = 10

abbrev pub carriage_return : ℕ
carriage_return = 13

-- `.replace("\r\n", "\n")`
unfoldable pub replace_crlf : Text → Text
replace_crlf [] = []
replace_crlf (c ∷ []) = c ∷ []
replace_crlf (c ∷ d ∷ text) =
    let paired = replace_crlf text in
    let single = replace_crlf (d ∷ text) in
    if c == carriage_return && d == newline then newline ∷ paired else c ∷ single

-- `.replace("\r", "\n")`
unfoldable pub replace_cr : Text → Text
replace_cr [] = []
replace_cr (c ∷ text) = (if c == carriage_return then newline else c) ∷ replace_cr text

-- `.split("\n")`
unfoldable pub split_lines : Text → List Text
split_lines [] = [] ∷ []
split_lines (c ∷ text) =
    let lines = split_lines text in if c == newline then [] ∷ lines else on_first_line c lines

-- `_source_lines`
unfoldable pub source_lines : Text → List Text
unfolding replace_crlf replace_cr split_lines
source_lines source_code = split_lines (replace_cr (replace_crlf source_code))

-- The head of `sig.partition(":")`.
unfoldable pub before_colon : Text → Text
before_colon [] = []
before_colon (c ∷ text) = let head = before_colon text in if c == 58 then [] else c ∷ head

-- `_extract_docstring`
abbrev pub extract_docstring : Node → Text
extract_docstring node = elim node.shape [
  | function_def ↦ elim node.docstring [ none ↦ [] | some d ↦ d ]
  | class_def ↦ elim node.docstring [ none ↦ [] | some d ↦ d ]
  | import_statement ↦ []
  | other ↦ []
]

abbrev pub first_or : ℕ → List ℕ → ℕ
first_or d [] = d
first_or d (x ∷ xs) = x

-- `_extract_declaration_signature`, with the slice of the declaration's lines first.
unfoldable pub declaration_lines : Node → List Text → Text
unfolding rstrip join_with
declaration_lines node lines =
    let start_line = node.lineno - 1 in
    let body_start = first_or (start_line + 2) node.body - 1 in
    let body_start = max body_start (start_line + 1) in
    let stop = min (length lines) body_start in
    rstrip (join_with (newline ∷ []) (take (stop - start_line) (drop start_line lines)))

unfoldable pub extract_declaration_signature : Node → List Text → Text
unfolding declaration_lines before_colon
extract_declaration_signature node lines =
    let sig = declaration_lines node lines in
    let inline = ltb 0 (length node.body) && first_or 0 node.body == node.lineno in
    let sig = if inline then before_colon sig ++ codes ":" else sig in
    if ends_with sig (codes ":") then sig else sig ++ codes ":"

abbrev pub declared : Kind → Node → List Text → Text → AstSymbol
declared kind node lines full_source = record {
  name = node.name;
  kind = kind;
  signature = extract_declaration_signature node lines;
  docstring = extract_docstring node;
  body_summary = codes "...";
  full_source = full_source;
  line_number = node.lineno;
}

-- `_parse_top_level_node`
unfoldable pub parse_top_level_node : Node → List Text → Option AstSymbol
unfolding join_with
parse_top_level_node node lines =
    let start = node.lineno - 1 in
    let full_source =
      join_with (newline ∷ []) (take (node.end_lineno - start) (drop start lines)) in
    elim node.shape [
      | function_def ↦ some (declared function node lines full_source)
      | class_def ↦ some (declared class_kind node lines full_source)
      | import_statement ↦ some (record {
        name = codes "import";
        kind = import_kind;
        signature = full_source;
        docstring = [];
        body_summary = [];
        full_source = full_source;
        line_number = node.lineno;
      })
      | other ↦ none
    ]

-- The loop of `extract_ast_symbols`.
unfoldable pub parse_nodes : List Node → List Text → List AstSymbol
unfolding parse_top_level_node
parse_nodes [] lines = []
parse_nodes (node ∷ nodes) lines = elim (parse_top_level_node node lines) [
  | none ↦ parse_nodes nodes lines
  | some sym ↦ sym ∷ parse_nodes nodes lines
]

-- `extract_ast_symbols`, where `parse` is `ast.parse` and `none` its `SyntaxError`.
unfoldable pub extract_ast_symbols : (Text → Option (List Node)) → Text → List AstSymbol
unfolding parse_nodes source_lines
extract_ast_symbols parse source_code = elim (parse source_code) [
  | none ↦ []
  | some nodes ↦ parse_nodes nodes (source_lines source_code)
]

-- `pack_source_to_budget`
unfoldable pub pack_source_to_budget :
    (Text → Text) → (Text → Option (List Node)) → Text → ℕ → Option (Text × ContextDetailLevel × ℕ)
pack_source_to_budget repr parse source_code budget_tokens =
    pack_symbols_to_budget repr (extract_ast_symbols parse source_code) budget_tokens
