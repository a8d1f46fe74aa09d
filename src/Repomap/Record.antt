-- ===== src/Repomap/Record.antt =====
-- `ASTSymbol` and `RepomapRecord` of examples/valkey-l2-repomap-cache/repomap_cache.py, and the
-- dictionaries that they are written as.
pub mod Hydrated
use vibes.Common.{ℕ, Bool, Option, none, some, List, [], ◌∷◌, ◌==◌, if◌then◌else◌}
use vibes.Common.Int.{pos}
use vibes.Common.Texts.{Text, codes}
use vibes.Repomap.Json.{
  Json, boolean, integer, real, string, array, object, Items, end_of_items, item, Members,
  end_of_members, member, then_with, get_member, count_members, as_text, as_count, as_bool, as_real,
  as_items, as_members, read_items,
}

pub record AstSymbol : Type 0 where
  pub name : Text
  pub kind : Text
  pub lineno : ℕ
  pub complexity : ℕ
  pub has_docstring : Bool
  pub args : List Text

pub record RepomapRecord (F : Type 0) : Type 0 where
  pub file_path : Text
  pub content_sha256 : Text
  pub symbols : List AstSymbol
  pub line_count : ℕ
  pub embedding : List F
  pub timestamp : F

-- What becomes of a text in the second tier: a record, a KeyError or a JSONDecodeError, which the
-- cache catches, or another exception. A value of another type than the field declares also counts
-- as the last: the code stores it unread, which the model does not follow.
pub data Loaded (F : Type 0) : Type 0 where
  loaded : RepomapRecord F → Loaded F
  malformed : Loaded F
  uncaught : Loaded F

module _ {F : Type 0} where
  -- `asdict`, of an ASTSymbol and of a RepomapRecord
  unfoldable pub names_to_items : List Text → Items F
  names_to_items [] = end_of_items
  names_to_items (name ∷ names) = item (string name) (names_to_items names)

  unfoldable pub symbol_to_dict : AstSymbol → Json F
  unfolding names_to_items
  symbol_to_dict s = object (
      member (codes "name") (string s.name) (
        member (codes "kind") (string s.kind) (
          member (codes "lineno") (integer (pos s.lineno)) (
            member (codes "complexity") (integer (pos s.complexity)) (
              member (codes "has_docstring") (boolean s.has_docstring)
                (member (codes "args") (array (names_to_items s.args)) end_of_members))))))

  unfoldable pub symbols_to_items : List AstSymbol → Items F
  unfolding symbol_to_dict
  symbols_to_items [] = end_of_items
  symbols_to_items (s ∷ symbols) = item (symbol_to_dict s) (symbols_to_items symbols)

  unfoldable pub reals_to_items : List F → Items F
  reals_to_items [] = end_of_items
  reals_to_items (x ∷ xs) = item (real x) (reals_to_items xs)

  unfoldable pub to_dict : RepomapRecord F → Json F
  unfolding symbols_to_items reals_to_items
  to_dict r = object (
      member (codes "file_path") (string r.file_path) (
        member (codes "content_sha256") (string r.content_sha256) (
          member (codes "symbols") (array (symbols_to_items r.symbols)) (
            member (codes "line_count") (integer (pos r.line_count)) (
              member (codes "embedding") (array (reals_to_items r.embedding))
                (member (codes "timestamp") (real r.timestamp) end_of_members))))))

  -- `ASTSymbol(**s)`, which takes the six names and no other.
  unfoldable pub symbol_from_dict : Json F → Option AstSymbol
  unfolding read_items get_member count_members
  symbol_from_dict s = then_with (as_members s) (λ fields.
      then_with (then_with (get_member fields (codes "name")) as_text) (λ name.
        then_with (then_with (get_member fields (codes "kind")) as_text) (λ kind.
          then_with (then_with (get_member fields (codes "lineno")) as_count) (λ lineno.
            then_with (then_with (get_member fields (codes "complexity")) as_count) (λ complexity.
              then_with (then_with (get_member fields (codes "has_docstring")) as_bool)
                (λ documented.
                  then_with
                    (then_with (then_with (get_member fields (codes "args")) as_items)
                      (read_items as_text))
                    (λ args.
                      if count_members fields == 6
                      then some (record {
                        name = name;
                        kind = kind;
                        lineno = lineno;
                        complexity = complexity;
                        has_docstring = documented;
                        args = args;
                      })
                      else none)))))))

  -- `data.get(key, default)`
  abbrev pub or_default : Option (Json F) → Json F → Json F
  or_default none value = value
  or_default (some v) value = v

  -- `data[key]`, and a value of the declared type.
  abbrev pub required : Option (Json F) → (Json F → Loaded F) → Loaded F
  required none next = malformed
  required (some v) next = next v

  abbrev pub typed : {A : Type 0} → Option A → (A → Loaded F) → Loaded F
  typed none next = uncaught
  typed (some a) next = next a

  -- `from_dict` of a dictionary; `now` is `time.time()`.
  unfoldable pub from_members : F → Members F → Loaded F
  unfolding get_member read_items symbol_from_dict
  from_members now fields =
      typed
        (then_with
          (as_items (or_default (get_member fields (codes "symbols")) (array end_of_items)))
          (read_items symbol_from_dict))
        (λ symbols. required (get_member fields (codes "file_path")) (λ path.
          required (get_member fields (codes "content_sha256")) (λ digest.
            typed (as_text path) (λ file_path. typed (as_text digest) (λ content_sha256.
              typed
                (as_count (or_default (get_member fields (codes "line_count")) (integer (pos 0))))
                (λ line_count.
                  typed
                    (then_with
                      (as_items
                        (or_default (get_member fields (codes "embedding")) (array end_of_items)))
                      (read_items as_real))
                    (λ embedding.
                      typed
                        (as_real (or_default (get_member fields (codes "timestamp")) (real now)))
                        (λ timestamp. loaded (record {
                          file_path = file_path;
                          content_sha256 = content_sha256;
                          symbols = symbols;
                          line_count = line_count;
                          embedding = embedding;
                          timestamp = timestamp;
                        })))))))))

  -- `RepomapRecord.from_dict`; a value that is no dictionary has no `get`.
  unfoldable pub from_dict : F → Json F → Loaded F
  unfolding from_members
  from_dict now input = typed (as_members input) (from_members now)
