-- ===== src/Tests/Packing.antt =====
-- Packings of small sources.
use vibes.Common.{ℕ, false, some, none, List, [], ◌∷◌, ◌++◌, ◌≡◌, arith, All}
use vibes.Common.Texts.{Text, codes}
use vibes.Packer.{
  AstSymbol, ContextDetailLevel, function, import_kind, join_with, pack_symbols_to_budget,
}
use vibes.Packer.Levels.{Packed, pack_symbols_to_budget-Packed}
use vibes.Packer.Extract.{Node, function_def, newline, source_lines}
use vibes.Packer.Extract.Lines.{IsLine, with_line_feeds, source_lines-IsLine}

-- `repr` of a text without quotes and escapes
abbrev quoted : Text → Text
quoted text = codes "'" ++ (text ++ codes "'")

abbrev import_os : AstSymbol
import_os = record {
  name = codes "import";
  kind = import_kind;
  signature = codes "import os";
  docstring = [];
  body_summary = [];
  full_source = codes "import os";
  line_number = 1;
}

abbrev run : AstSymbol
run = record {
  name = codes "run";
  kind = function;
  signature = codes "def run():";
  docstring = codes "Run it.";
  body_summary = codes "...";
  full_source = codes "def run():\n    'Run it.'\n    return os.system('true')";
  line_number = 2;
}

abbrev symbols : List AstSymbol
symbols = import_os ∷ run ∷ []

pack_symbols_to_budget-Packed_example :
    (text : Text) × (level : ContextDetailLevel) × (count : ℕ) × (pack_symbols_to_budget quoted
        symbols 10
      ≡ some (text, level, count))
    × Packed quoted symbols 10 text level count
pack_symbols_to_budget-Packed_example =
    pack_symbols_to_budget-Packed quoted symbols 10 (omega arith) (omega arith)

abbrev mixed_breaks : Text
mixed_breaks = codes "a\r\nb\rc\nd"

source_lines-IsLine_example :
    All IsLine (source_lines mixed_breaks)
    × (join_with (newline ∷ []) (source_lines mixed_breaks) ≡ with_line_feeds false mixed_breaks)
source_lines-IsLine_example = source_lines-IsLine mixed_breaks

abbrev inline_def : Node
inline_def = record {
  shape = function_def;
  name = codes "f";
  lineno = 1;
  end_lineno = 1;
  docstring = none;
  body = 1 ∷ [];
}
