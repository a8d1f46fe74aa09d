-- ===== src/Repomap/Resp.antt =====
-- The Redis serialisation protocol, lines 110 to 190 of
-- examples/valkey-l2-repomap-cache/repomap_cache.py. Bytes are numbers; the two directions of UTF-8
-- are a parameter.
pub mod Bulk
pub mod Chunks
pub mod Lines
pub mod Wire
use vibes.Common.{
  ℕ, zero, suc, ◌+◌, ◌-◌, Bool, true, false, Option, none, some, List, [], ◌∷◌, ◌++◌, map, length,
  take, drop, ltb, leb, ◌==◌, ◌||◌, ◌&&◌, if◌then◌else◌, All, All-imp, arith, ◌≡◌, ◌<◌,
}
use mathlib.Core.List.{reverse}
use vibes.Common.Int.{ℤ, pos, negsuc, is_zero, add_ℕ, lt_ℤ}
use vibes.Common.Texts.{Text, codes, find, join}
use vibes.Common.Decimal.{digits, int_of, read_signed}

abbrev pub Bytes : Type 0
Bytes = List ℕ

-- `s.encode("utf-8")`, with `none` for a UnicodeEncodeError, and `b.decode("utf-8", errors="replace")`
pub record Utf8 : Type 0 where
  pub encode : Text → Option Bytes
  pub decode : Bytes → Text

abbrev pub is_surrogate : ℕ → Bool
is_surrogate c = leb 0xD800 c && leb c 0xDFFF

-- A text without surrogates.
abbrev pub IsScalar : Text → Type 0
IsScalar = All (λ c. is_surrogate c ≡ false)

abbrev pub IsAscii : Text → Type 0
IsAscii = All (λ c. c < 128)

pub IsAscii-IsScalar : (s : Text) → IsAscii s → IsScalar s
IsAscii-IsScalar s h = All-imp _ (λ c. is_surrogate c ≡ false) s (λ c low. ground arith) h

-- What Python documents of the codec: it encodes every text without surrogates, what is encoded is
-- decoded to itself, and ASCII stands for itself.
pub record IsCodec (utf8 : Utf8) : Type 0 where
  pub encodes : (s : Text) → IsScalar s → (b : Bytes) × (utf8.encode s ≡ some b)
  pub decode-encode : (s : Text) {b : Bytes} → utf8.encode s ≡ some b → utf8.decode b ≡ s
  pub encode_ascii : (s : Text) → IsAscii s → utf8.encode s ≡ some s
  pub decode_ascii : (b : Bytes) → All (λ c. c < 128) b → utf8.decode b ≡ b

abbrev pub crlf : Bytes
crlf = 13 ∷ 10 ∷ []

-- The two lines of an argument, from its bytes.
unfoldable pub bulk : Bytes → Bytes
bulk arg_bytes = (36 ∷ digits (length arg_bytes) ++ crlf) ++ (arg_bytes ++ crlf)

-- A reply as a Python value: a text, an integer, or None.
pub data Reply : Type 0 where
  text : Text → Reply
  integer : ℤ → Reply
  nothing : Reply

-- What a parser returns, with the bytes consumed, or the ValueError of `int`.
pub data Decoded : Type 0 where
  decoded : Reply → ℤ → Decoded
  value_error : Decoded

-- The space that `int` takes off bytes.
abbrev is_ascii_space : ℕ → Bool
is_ascii_space c = c == 32 || (leb 9 c && leb c 13)

skip_space : Bytes → Bytes
skip_space [] = []
skip_space (c ∷ b) = let rest = skip_space b in if is_ascii_space c then rest else c ∷ b

-- `data[1:nl]`
abbrev pub line : Bytes → ℕ → Bytes
line input nl = drop 1 (take nl input)

unfoldable pub resp_int : Bytes → ℕ → Decoded
unfolding skip_space read_signed
resp_int input nl =
    elim (read_signed (reverse (skip_space (reverse (skip_space (line input nl)))))) [
      | none ↦ value_error
      | some n ↦ decoded (integer n) (pos (nl + 2))
    ]

-- `input[start:end]`: an end below 0 counts from the end of the input.
abbrev pub slice : Bytes → ℕ → ℤ → Bytes
slice input start (pos end) = drop start (take end input)
slice input start (negsuc n) = drop start (take (length input - (n + 1)) input)

-- `length == -1`
abbrev pub is_null : ℤ → Bool
is_null (pos n) = false
is_null (negsuc n) = n == 0

module _ (utf8 : Utf8) where
  -- What the loop of `encode_resp_command` appends for an argument.
  unfoldable pub encode_argument : Text → Option Bytes
  unfolding bulk
  encode_argument arg = elim (utf8.encode arg) [
    | none ↦ none
    | some arg_bytes ↦ some (bulk arg_bytes)
  ]

  unfoldable pub encode_arguments : List Text → Option (List Bytes)
  unfolding encode_argument
  encode_arguments [] = some []
  encode_arguments (arg ∷ args) =
      let rest = encode_arguments args in
      elim (encode_argument arg) [
        | none ↦ none
        | some first ↦ elim rest [ none ↦ none | some more ↦ some (first ∷ more) ]
      ]

  unfoldable pub encode_resp_command : List Text → Option Bytes
  unfolding encode_arguments join
  encode_resp_command args = elim (encode_arguments args) [
    | none ↦ none
    | some lines ↦ some (join ((42 ∷ digits (length args) ++ crlf) ∷ lines))
  ]

  unfoldable pub resp_simple : Bytes → ℕ → Decoded
  resp_simple input nl = decoded (text (utf8.decode (line input nl))) (pos (nl + 2))

  -- The end of `_parse_bulk_string`, for a length that is not -1.
  unfoldable pub bulk_value : Bytes → ℕ → ℤ → Decoded
  bulk_value input start length_read =
      let end = add_ℕ start length_read in
      if lt_ℤ (length input) (add_ℕ 2 end)
      then decoded nothing (pos 0)
      else decoded (text (utf8.decode (slice input start end))) (add_ℕ 2 end)

  unfoldable pub parse_bulk_string : Bytes → ℕ → Decoded
  unfolding int_of bulk_value
  parse_bulk_string input newline_idx =
      let length_str = utf8.decode (line input newline_idx) in
      elim (int_of length_str) [
        | none ↦ decoded nothing (pos (newline_idx + 2))
        | some length_read ↦
            if is_null length_read
            then decoded nothing (pos (newline_idx + 2))
            else bulk_value input (newline_idx + 2) length_read
      ]

  -- `RESP_PARSERS`, with what the code does for a byte that the table lacks.
  unfoldable pub parse_by : ℕ → Bytes → ℕ → Decoded
  unfolding resp_simple resp_int parse_bulk_string
  parse_by first input nl =
      if first == b'+' || first == b'-'
      then resp_simple input nl
      else if first == b':'
      then resp_int input nl
      else if first == b'$'
      then parse_bulk_string input nl
      else decoded nothing (pos (nl + 2))

  unfoldable pub decode_resp_response : Bytes → Decoded
  unfolding find parse_by
  decode_resp_response [] = decoded nothing (pos 0)
  decode_resp_response (first ∷ rest) = elim (find (first ∷ rest) crlf) [
    | none ↦ decoded nothing (pos 0)
    | some nl ↦ parse_by first (first ∷ rest) nl
  ]

  -- The loop of `read_resp_reply` from a buffer on: the chunks are what `recv` returns, and once
  -- there are none the peer has closed. `none` is the ValueError.
  unfoldable pub read_loop : Bytes → List Bytes → Option Reply
  unfolding decode_resp_response
  read_loop buffer [] = elim (decode_resp_response buffer) [
    | decoded value consumed ↦ if is_zero consumed then some nothing else some value
    | value_error ↦ none
  ]
  read_loop buffer ([] ∷ chunks) = elim (decode_resp_response buffer) [
    | decoded value consumed ↦ if is_zero consumed then some nothing else some value
    | value_error ↦ none
  ]
  read_loop buffer ((c ∷ received) ∷ chunks) =
      let later = read_loop (buffer ++ c ∷ received) chunks in
      elim (decode_resp_response buffer) [
        | decoded value consumed ↦ if is_zero consumed then later else some value
        | value_error ↦ none
      ]

  unfoldable pub read_resp_reply : List Bytes → Option Reply
  unfolding read_loop
  read_resp_reply chunks = read_loop [] chunks
