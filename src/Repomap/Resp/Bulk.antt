-- ===== src/Repomap/Resp/Bulk.antt =====
-- A bulk string of examples/valkey-l2-repomap-cache/repomap_cache.py and its prefixes, decoded.
use vibes.Common.{
  ℕ, suc, ◌+◌, ◌≤◌, ◌<◌, true, false, none, some, [], ◌∷◌, ◌++◌, length, take, drop, ◌==◌, ltb, All,
  All-imp, ◌≡◌, refl, sym, ap, ◌∙◌, ◌⊎◌, inl, inr, arith, length-append,
}
use mathlib.Core.List.{append_assoc}
use vibes.Common.Int.{pos}
use vibes.Common.Texts.{find, starts_with}
use vibes.Common.Decimal.{digits, is_digit, int_of-digits, digits-IsDigits}
use vibes.Repomap.Resp.{
  Bytes, Utf8, IsCodec, crlf, text, nothing, decoded, line, bulk, parse_by, bulk_value,
  parse_bulk_string, decode_resp_response,
}

abbrev pub NoBreak : Bytes → Type 0
NoBreak = All (λ c. (c == 13) ≡ false)

find_break : (ds body : Bytes) → NoBreak ds → find (ds ++ 13 ∷ 10 ∷ body) crlf ≡ some (length ds)
unfolding find starts_with
find_break [] body h = refl
find_break (d ∷ ds) body (p, h) = let later = find_break ds body h in ground (arith, later)

-- A prefix of a line and its body ends before the end of the line, or in the body.
pub find_in_prefix :
    (ds body buffer missing : Bytes)
    → NoBreak ds
    → buffer ++ missing ≡ ds ++ 13 ∷ 10 ∷ body
    → (find buffer crlf ≡ none)
      ⊎ ((part : Bytes) × (buffer ≡ ds ++ 13 ∷ 10 ∷ part) × (part ++ missing ≡ body))
unfolding find starts_with
find_in_prefix ds body [] missing h e = inl refl
find_in_prefix [] body (c ∷ []) missing h e = inl (ground arith)
find_in_prefix [] body (c ∷ d ∷ part) missing h e = inr (part, cc, cc)
find_in_prefix (x ∷ ds) body (c ∷ buffer) missing (p, h) e =
    elim (find_in_prefix ds body buffer missing h (cc)) [
      | inl unbroken ↦ inl (ground (arith, unbroken))
      | inr (part, same, rest) ↦ inr (part, cc, rest)
    ]

take-length_append : (xs ys : Bytes) → take (length xs) (xs ++ ys) ≡ xs
take-length_append [] ys = refl
take-length_append (x ∷ xs) ys = rw (take-length_append xs ys)

-- The part of a list after `a` and before `c`.
drop-take_middle :
    (a b c : Bytes) → drop (length a) (take (length a + length b) (a ++ (b ++ c))) ≡ b
drop-take_middle [] b c =
    ap (λ k. take k (b ++ c)) {x = 0 + length b} {y = length b} (omega arith)
    ∙ take-length_append b c
drop-take_middle (x ∷ a) b c =
    ap (λ k. drop (suc (length a)) (take k (x ∷ a ++ (b ++ c)))) {x = suc (length a) + length b}
      {y = suc (length a + length b)} (omega arith)
    ∙ drop-take_middle a b c

digit_no_break : (c : ℕ) → is_digit c ≡ true → (c == 13) ≡ false
digit_no_break c h = ground arith

module _ (utf8 : Utf8) (codec : IsCodec utf8) where
  -- `$`, the digits of a length, and the line break.
  abbrev header : ℕ → Bytes
  header n = 36 ∷ digits n

  header-NoBreak : (n : ℕ) → NoBreak (header n)
  header-NoBreak n =
      (refl, All-imp _ (λ c. (c == 13) ≡ false) (digits n) digit_no_break (digits-IsDigits n))

  decode-digits : (n : ℕ) → utf8.decode (digits n) ≡ digits n
  decode-digits n =
      codec.decode_ascii (digits n)
        (All-imp _ (λ c. c < 128) (digits n) (λ c h. ground arith) (digits-IsDigits n))

  line-header : (n : ℕ) (body : Bytes) → line (header n ++ body) (length (header n)) ≡ digits n
  line-header n body = take-length_append (digits n) body

  parse_bulk_string-header :
      (n : ℕ) (body : Bytes)
      → parse_bulk_string utf8 (header n ++ body) (length (header n))
        ≡ bulk_value utf8 (header n ++ body) (length (header n) + 2) (pos n)
  unfolding parse_bulk_string
  parse_bulk_string-header n body =
      rw (line-header n body, parse_bulk_string) (rw (decode-digits n) (rw (int_of-digits n) refl))

  -- Behind a whole header only the value is left to read.
  decode_resp_response-header :
      (n : ℕ) (body : Bytes)
      → decode_resp_response utf8 (header n ++ 13 ∷ 10 ∷ body)
        ≡ bulk_value utf8 (header n ++ 13 ∷ 10 ∷ body) (length (header n) + 2) (pos n)
  unfolding decode_resp_response parse_by
  decode_resp_response-header n body =
      rw (find_break (header n) body (header-NoBreak n), decode_resp_response)
        (parse_bulk_string-header n (13 ∷ 10 ∷ body))

  bulk_value_short :
      (input : Bytes) (start n : ℕ)
      → length input < start + n + 2
      → bulk_value utf8 input start (pos n) ≡ decoded nothing (pos 0)
  unfolding bulk_value
  bulk_value_short input start n h = ground (arith)

  bulk_value_whole :
      (a b c : Bytes)
      → 2 ≤ length c
      → bulk_value utf8 (a ++ (b ++ c)) (length a) (pos (length b))
        ≡ decoded (text (utf8.decode b)) (pos (2 + (length a + length b)))
  unfolding bulk_value
  bulk_value_whole a b c h =
      let size : length (a ++ (b ++ c)) ≡ length a + (length b + length c) =
        omega (arith, length-append a (b ++ c), length-append b c) in
      let whole : ltb (length (a ++ (b ++ c))) (2 + (length a + length b)) ≡ false =
        ground (arith, size) in
      rw (whole, bulk_value) (rw (drop-take_middle a b c) refl)

  -- The header and the line break in front of a body.
  abbrev front : Bytes → Bytes
  front b = header (length b) ++ crlf

  length-front : (b : Bytes) → length (front b) ≡ length (header (length b)) + 2
  length-front b = length-append (header (length b)) crlf

  front-append : (b : Bytes) (body : Bytes) → front b ++ body ≡ header (length b) ++ 13 ∷ 10 ∷ body
  front-append b body = append_assoc (header (length b)) crlf body

  bulk_append : (b : Bytes) (rest : Bytes) → bulk b ++ rest ≡ front b ++ (b ++ 13 ∷ 10 ∷ rest)
  unfolding bulk
  bulk_append b rest =
      append_assoc (front b) (b ++ crlf) rest ∙ ap (λ t. front b ++ t) (append_assoc (b) crlf rest)

  pub length-bulk : (b : Bytes) → length (bulk b) ≡ 2 + (length (front b) + length b)
  unfolding bulk
  length-bulk b = omega (arith, length-append (front b) (b ++ crlf), length-append b crlf)

  pub decode_resp_response-bulk :
      (b : Bytes) (rest : Bytes)
      → decode_resp_response utf8 (bulk b ++ rest)
        ≡ decoded (text (utf8.decode b)) (pos (length (bulk b)))
  decode_resp_response-bulk b rest =
      let tail : Bytes = 13 ∷ 10 ∷ rest in
      let shape = bulk_append b rest in
      let start = length-front b in
      let size : 2 + (length (front b) + length b) ≡ length (bulk b) = sym (length-bulk b) in
      rw shape (
        ap (decode_resp_response utf8) (front-append b (b ++ tail))
        ∙ decode_resp_response-header (length b) (b ++ tail)
        ∙ ap (λ input. bulk_value utf8 input (length (header (length b)) + 2) (pos (length b)))
            (sym (front-append b (b ++ tail)))
        ∙ ap (λ start. bulk_value utf8 (front b ++ (b ++ tail)) start (pos (length b))) (sym start)
        ∙ bulk_value_whole (front b) b tail (omega arith)
        ∙ ap (λ n. decoded (text (utf8.decode b)) (pos n)) size)

  pub decode_unbroken :
      (buffer : Bytes)
      → find buffer crlf ≡ none
      → decode_resp_response utf8 buffer ≡ decoded nothing (pos 0)
  unfolding decode_resp_response
  decode_unbroken [] h = refl
  decode_unbroken (c ∷ buffer) h = rw (h, decode_resp_response) refl

  pub decode_resp_response_prefix :
      (b : Bytes) (buffer missing : Bytes)
      → buffer ++ missing ≡ bulk b
      → 0 < length missing
      → decode_resp_response utf8 buffer ≡ decoded nothing (pos 0)
  unfolding bulk
  decode_resp_response_prefix b buffer missing e h =
      let n : ℕ = length b in
      let shape = e ∙ front-append b (b ++ crlf) in
      elim (find_in_prefix (header n) (b ++ crlf) buffer missing (header-NoBreak n) shape) [
        | inl unbroken ↦ decode_unbroken buffer unbroken
        | inr (part, same, rest) ↦
            let sizes = ap length rest in
            ap (decode_resp_response utf8) same
            ∙ decode_resp_response-header n part
            ∙ bulk_value_short (header n ++ 13 ∷ 10 ∷ part) (length (header n) + 2) n (
                omega (
                  arith,
                  sizes,
                  length-append part missing,
                  length-append b crlf,
                  length-append (header n) (13 ∷ 10 ∷ part),
                ))
      ]
