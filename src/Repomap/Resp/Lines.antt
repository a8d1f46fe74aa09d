-- ===== src/Repomap/Resp/Lines.antt =====
-- The replies of one line in examples/valkey-l2-repomap-cache/repomap_cache.py that a server gives to
-- GET and SET.
use vibes.Common.{
  ℕ, ◌+◌, if◌then◌else◌, ◌<◌, none, some, [], ◌++◌, length, ◌≡◌, refl, ap, inl, inr, arith,
  length-append,
}
use vibes.Common.Int.{pos}
use vibes.Common.Texts.{Text, codes, find, starts_with}
use vibes.Common.Decimal.{int_of}
use vibes.Repomap.Resp.{
  Bytes, Utf8, IsCodec, crlf, text, nothing, Decoded, bulk_value, is_null, decoded,
  parse_bulk_string, decode_resp_response,
}
use vibes.Repomap.Resp.Bulk.{NoBreak, find_in_prefix, decode_unbroken}
use vibes.Repomap.Resp.Chunks.{IsFrame}

module _ (utf8 : Utf8) (codec : IsCodec utf8) where
  -- A beginning of a line has no line break.
  line_prefix :
      (ds buffer missing : Bytes)
      → NoBreak ds
      → buffer ++ missing ≡ ds ++ crlf
      → 0 < length missing
      → decode_resp_response utf8 buffer ≡ decoded nothing (pos 0)
  line_prefix ds buffer missing h e more = elim (find_in_prefix ds [] buffer missing h e) [
    | inl unbroken ↦ decode_unbroken utf8 codec buffer unbroken
    | inr (part, same, rest) ↦ absurd (omega (arith, ap length rest, length-append part missing))
  ]

  -- What `parse_bulk_string` makes of the text of a length.
  abbrev by_length : Bytes → ℕ → Text → Decoded
  by_length input newline_idx length_str = elim (int_of length_str) [
    | none ↦ decoded nothing (pos (newline_idx + 2))
    | some length_read ↦
        if is_null length_read
        then decoded nothing (pos (newline_idx + 2))
        else bulk_value utf8 input (newline_idx + 2) length_read
  ]

  -- The null reply, and the one that says OK.
  decode_resp_response-null :
      (rest : Bytes) → decode_resp_response utf8 (codes "$-1\r\n" ++ rest) ≡ decoded nothing (pos 5)
  unfolding decode_resp_response find starts_with parse_bulk_string int_of
  decode_resp_response-null rest =
      ap (by_length (codes "$-1\r\n" ++ rest) 3) (codec.decode_ascii (codes "-1") (omega arith))

  decode_resp_response-ok :
      (rest : Bytes)
      → decode_resp_response utf8 (codes "+OK\r\n" ++ rest) ≡ decoded (text (codes "OK")) (pos 5)
  unfolding decode_resp_response find starts_with
  decode_resp_response-ok rest =
      ap (λ s. decoded (text s) (pos 5)) (codec.decode_ascii (codes "OK") (omega arith))

  pub null-IsFrame : IsFrame utf8 codec (codes "$-1\r\n") nothing
  null-IsFrame = record {
    size = omega arith;
    whole = decode_resp_response-null;
    part =
        λ buffer missing e. line_prefix (codes "$-1") buffer missing (refl, (refl, (refl, tt))) e;
  }

  pub ok-IsFrame : IsFrame utf8 codec (codes "+OK\r\n") (text (codes "OK"))
  ok-IsFrame = record {
    size = omega arith;
    whole = decode_resp_response-ok;
    part =
        λ buffer missing e. line_prefix (codes "+OK") buffer missing (refl, (refl, (refl, tt))) e;
  }
