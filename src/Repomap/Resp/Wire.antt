-- ===== src/Repomap/Resp/Wire.antt =====
-- The wire format as the protocol documents it, for the commands and replies of
-- examples/valkey-l2-repomap-cache/repomap_cache.py.
use vibes.Common.{suc, some, List, [], ◌∷◌, ◌++◌, length, ◌≡◌, refl, ap, sym, ◌∙◌}
use mathlib.Core.List.{append_assoc, append-nil}
use vibes.Common.Texts.{Text, join}
use vibes.Common.Decimal.{digits}
use vibes.Repomap.Resp.{
  Bytes, Utf8, crlf, bulk, encode_argument, encode_arguments, encode_resp_command,
}

-- `$<length>\r\n<bytes>\r\n`, for each of some strings.
unfoldable pub wire_strings : List Bytes → Bytes
wire_strings [] = []
wire_strings (b ∷ bs) = 36 ∷ (digits (length b) ++ (13 ∷ 10 ∷ (b ++ (13 ∷ 10 ∷ wire_strings bs))))

-- `*<count>\r\n` in front of the strings: an array of them, which is how a command is sent.
unfoldable pub wire_array : List Bytes → Bytes
unfolding wire_strings
wire_array bs = 42 ∷ (digits (length bs) ++ (13 ∷ 10 ∷ wire_strings bs))

bulk-wire :
    (b rest : Bytes)
    → bulk b ++ rest ≡ 36 ∷ (digits (length b) ++ (13 ∷ 10 ∷ (b ++ (13 ∷ 10 ∷ rest))))
unfolding bulk
bulk-wire b rest =
    append_assoc (36 ∷ digits (length b) ++ crlf) (b ++ crlf) rest
    ∙ append_assoc (36 ∷ digits (length b)) crlf ((b ++ crlf) ++ rest)
    ∙ ap (λ t. 36 ∷ (digits (length b) ++ (13 ∷ 10 ∷ t))) (append_assoc b crlf rest)

pub bulk-wire_strings : (b : Bytes) → bulk b ≡ wire_strings (b ∷ [])
unfolding wire_strings
bulk-wire_strings b = sym (append-nil (bulk b)) ∙ bulk-wire b []

module _ (utf8 : Utf8) where
  -- The texts have these encodings.
  abbrev pub Encoded : List Text → List Bytes → Type 0
  Encoded [] [] = Unit {0}
  Encoded [] (b ∷ bs) = ⊥
  Encoded (arg ∷ args) [] = ⊥
  Encoded (arg ∷ args) (b ∷ bs) = (utf8.encode arg ≡ some b) × Encoded args bs

  encode_argument-some :
      (arg : Text) (b : Bytes) → utf8.encode arg ≡ some b → encode_argument utf8 arg ≡ some (bulk b)
  unfolding encode_argument
  encode_argument-some arg b e = rw (e, encode_argument) refl

  encode_arguments-Encoded :
      (args : List Text) (bs : List Bytes)
      → Encoded args bs
      → (lines : List Bytes) × (encode_arguments utf8 args ≡ some lines)
        × (join lines ≡ wire_strings bs)
        × (length args ≡ length bs)
  unfolding encode_arguments join wire_strings
  encode_arguments-Encoded [] [] h = ([], refl, refl, refl)
  encode_arguments-Encoded [] (b ∷ bs) h = absurd h
  encode_arguments-Encoded (arg ∷ args) [] h = absurd h
  encode_arguments-Encoded (arg ∷ args) (b ∷ bs) (first, h) =
      let (lines, e, joined, size) = encode_arguments-Encoded args bs h in
      (
        bulk b ∷ lines,
        rw (encode_argument-some arg b first, encode_arguments) (rw e refl),
        ap (λ t. bulk b ++ t) joined ∙ bulk-wire b (wire_strings bs),
        ap suc size,
      )

  -- What `encode_resp_command` sends is the array of the arguments.
  pub encode_resp_command-Encoded :
      (args : List Text) (bs : List Bytes)
      → Encoded args bs
      → encode_resp_command utf8 args ≡ some (wire_array bs)
  unfolding encode_resp_command join wire_array
  encode_resp_command-Encoded args bs h =
      let (lines, e, joined, size) = encode_arguments-Encoded args bs h in
      rw (e, encode_resp_command)
        (ap some (
          ap (λ n. (42 ∷ digits n ++ crlf) ++ join lines) size
          ∙ append_assoc (42 ∷ digits (length bs)) crlf (join lines)
          ∙ ap (λ t. 42 ∷ (digits (length bs) ++ (13 ∷ 10 ∷ t))) joined))
