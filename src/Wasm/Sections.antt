-- ===== src/Wasm/Sections.antt =====
-- `_parse_section_ids` ends, and reads back the sections of an encoded module.
use vibes.Common.{
  ℕ, zero, suc, ◌+◌, ◌^◌, ◌≤◌, ◌<◌, some, List, [], ◌∷◌, ◌++◌, ◌≡◌, ◌∙◌, refl, ap, arith, map,
  length, drop, length-append, length-drop, drop-length_append, All,
}
use vibes.Wasm.{read_varuint, parse_sections, parse_section_ids}
use vibes.Wasm.Varuint.{encode, read_varuint-encode}

parse_sections-ends :
    (n : ℕ) (payload : List ℕ)
    → length payload ≤ n
    → (ids : List ℕ) × (parse_sections n payload ≡ some ids) × (length ids ≤ length payload)
unfolding parse_sections
parse_sections-ends n [] h = ([], refl, omega arith)
parse_sections-ends zero (id ∷ rem) h = absurd (omega arith)
parse_sections-ends (suc n) (id ∷ rem) h =
    let skipped = (read_varuint rem).1 + (read_varuint rem).0 in
    let shorter = length-drop skipped rem in
    let (ids, e, few) = parse_sections-ends n (drop skipped rem) (omega (arith, shorter)) in
    (id ∷ ids, rw (e, parse_sections) refl, omega (arith, shorter, few))

-- `_parse_section_ids` ends on any payload, with no more sections than the payload has bytes.
pub parse_section_ids-ends :
    (payload : List ℕ)
    → (ids : List ℕ) × (parse_section_ids payload ≡ some ids) × (length ids ≤ length payload)
unfolding parse_section_ids
parse_section_ids-ends payload = parse_sections-ends (length payload) payload (omega arith)

-- The bytes of sections: the identifier, the size in at most `n` + 1 bytes, and the contents.
abbrev pub encode_sections : ℕ → List (ℕ × List ℕ) → List ℕ
encode_sections n [] = []
encode_sections n ((id, body) ∷ sections) =
    id ∷ (encode n (length body) ++ (body ++ encode_sections n sections))

drop_two : {A : Type 0} (xs ys zs : List A) → drop (length xs + length ys) (xs ++ (ys ++ zs)) ≡ zs
drop_two [] ys zs =
    ap (λ k. drop k (ys ++ zs)) {y = length ys} (omega arith) ∙ drop-length_append ys zs
drop_two (x ∷ xs) ys zs =
    ap (λ k. drop k (x ∷ (xs ++ (ys ++ zs)))) {y = suc (length xs + length ys)} (omega arith)
    ∙ drop_two xs ys zs

parse_sections-encode_sections :
    (m n : ℕ) (sections : List (ℕ × List ℕ))
    → length (encode_sections n sections) ≤ m
    → All (λ s. length s.1 < 128 ^ (n + 1)) sections
    → parse_sections m (encode_sections n sections) ≡ some (map (λ s. s.0) sections)
unfolding parse_sections
parse_sections-encode_sections m n [] le small = refl
parse_sections-encode_sections zero n ((id, body) ∷ sections) le small = absurd (omega arith)
parse_sections-encode_sections (suc m) n ((id, body) ∷ sections) le (fits, small) =
    let rest = encode_sections n sections in
    let size = encode n (length body) in
    let read = read_varuint-encode n (length body) (body ++ rest) fits in
    let ih =
      parse_sections-encode_sections m n sections
        (omega (arith, length-append size (body ++ rest), length-append body rest)) small in
    rw (read, drop_two size body rest, ih, parse_sections) refl

-- `_parse_section_ids` of an encoded module gives the identifiers of its sections in their order,
-- if the sizes of the sections fit their `n` + 1 bytes.
pub parse_section_ids-encode_sections :
    (n : ℕ) (sections : List (ℕ × List ℕ))
    → All (λ s. length s.1 < 128 ^ (n + 1)) sections
    → parse_section_ids (encode_sections n sections) ≡ some (map (λ s. s.0) sections)
unfolding parse_section_ids
parse_section_ids-encode_sections n sections small =
    parse_sections-encode_sections _ n sections (omega arith) small
