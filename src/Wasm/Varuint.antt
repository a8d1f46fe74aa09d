-- ===== src/Wasm/Varuint.antt =====
-- `_read_varuint` against the LEB128 encoding.
use vibes.Common.{
  ℕ, zero, suc, ◌+◌, ◌*◌, ◌/◌, ◌%◌, ◌^◌, ◌<◌, true, false, List, [], ◌∷◌, ◌++◌, ◌≡◌, ◌∙◌, refl, ap,
  arith, length, leb, ltb, ltb→lt, if◌then◌else◌, inl, inr, Bool-cases,
}
use native.Mathlib.Nat.{pow-suc}
use vibes.Wasm.{varuint_loop, read_varuint}

-- The LEB128 encoding of a number in as many groups of seven bits as it needs, at most `n` + 1.
abbrev pub encode : ℕ → ℕ → List ℕ
encode zero x = x % 128 ∷ []
encode (suc n) x =
    let more = encode n (x / 128) in if ltb x 128 then x ∷ [] else (x % 128 + 128) ∷ more

doubled : (s k : ℕ) → 2 ^ (s + (k + 1)) ≡ 2 ^ (s + k) * 2
doubled s k = ap (2 ^◌) {y = suc (s + k)} (omega arith) ∙ pow-suc 2 (s + k)

pow_next : (s : ℕ) → 2 ^ (s + 7) ≡ 2 ^ s * 128
pow_next s =
    let none : 2 ^ (s + 0) ≡ 2 ^ s = ap (2 ^◌) (omega arith) in
    omega (
      arith,
      none,
      doubled s 0,
      doubled s 1,
      doubled s 2,
      doubled s 3,
      doubled s 4,
      doubled s 5,
      doubled s 6,
    )

place : (q m p : ℕ) → m * p + q * (p * 128) ≡ (q * 128 + m) * p
place q m p = grind arith

last_byte :
    (b : ℕ) (rest : List ℕ) (result shift idx : ℕ)
    → b < 128
    → varuint_loop (b ∷ rest) result shift idx ≡ (result + b * 2 ^ shift, idx + 1)
unfolding varuint_loop
last_byte b rest result shift idx h =
    let last : leb 128 (b % 256) ≡ false = ground arith in
    let low : b % 128 ≡ b = omega arith in rw (last, low, varuint_loop) refl

more_byte :
    (b : ℕ) (rest : List ℕ) (result shift idx : ℕ)
    → b < 128
    → varuint_loop ((b + 128) ∷ rest) result shift idx
      ≡ varuint_loop rest (result + b * 2 ^ shift) (shift + 7) (idx + 1)
unfolding varuint_loop
more_byte b rest result shift idx h =
    let more : leb 128 ((b + 128) % 256) ≡ true = ground arith in
    let low : (b + 128) % 128 ≡ b = omega arith in rw (more, low, varuint_loop) refl

-- Reading what `encode` writes, from any position.
varuint_loop-encode :
    (n x : ℕ) (rest : List ℕ) (result shift idx : ℕ)
    → x < 128 ^ (n + 1)
    → varuint_loop (encode n x ++ rest) result shift idx
      ≡ (result + x * 2 ^ shift, idx + length (encode n x))
varuint_loop-encode zero x rest result shift idx h =
    let low : x % 128 ≡ x = omega (arith, h) in rw low (last_byte x rest result shift idx h)
varuint_loop-encode (suc n) x rest result shift idx h = elim (Bool-cases (ltb x 128)) [
  | inl e ↦ rw (e, encode) (last_byte x rest result shift idx (ltb→lt x 128 e))
  | inr e ↦
      let power : 128 ^ (suc n + 1) ≡ 128 ^ (n + 1) * 128 =
        ap (128 ^◌) {y = suc (n + 1)} (omega arith) ∙ pow-suc 128 (n + 1) in
      let less : x / 128 < 128 ^ (n + 1) = omega (arith, power, h) in
      let split : x ≡ x / 128 * 128 + x % 128 = omega arith in
      let value : result + x % 128 * 2 ^ shift + x / 128 * 2 ^ (shift + 7)
          ≡ result + x * 2 ^ shift =
        let high : x / 128 * 2 ^ (shift + 7) ≡ x / 128 * (2 ^ shift * 128) =
          ap (x / 128 *◌) (pow_next shift) in
        let whole : x * 2 ^ shift ≡ (x / 128 * 128 + x % 128) * 2 ^ shift =
          ap (λ y. y * 2 ^ shift) split in
        omega (arith, high, whole, place (x / 128) (x % 128) (2 ^ shift)) in
      let taken : idx + 1 + length (encode n (x / 128)) ≡ idx + suc (length (encode n (x / 128))) =
        omega arith in
      rw (e, encode)
        (more_byte (x % 128) (encode n (x / 128) ++ rest) result shift idx (omega arith)
          ∙ varuint_loop-encode n (x / 128) rest (result + x % 128 * 2 ^ shift) (shift + 7)
              (idx + 1) less
          ∙ (λ i. (value i, taken i)))
]

-- `_read_varuint` reads back any number that the LEB128 encoding writes in at most `n` + 1 bytes,
-- whatever follows it, and returns the length of the encoding as the bytes read.
pub read_varuint-encode :
    (n x : ℕ) (rest : List ℕ)
    → x < 128 ^ (n + 1)
    → read_varuint (encode n x ++ rest) ≡ (x, length (encode n x))
unfolding read_varuint
read_varuint-encode n x rest h =
    varuint_loop-encode n x rest 0 0 0 h
    ∙ (let value : 0 + x * 2 ^ 0 ≡ x = omega arith in
        let taken : 0 + length (encode n x) ≡ length (encode n x) = omega arith in
        λ i. (value i, taken i))
