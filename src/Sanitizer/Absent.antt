-- ===== src/Sanitizer/Absent.antt =====
-- Texts in which a tag does not occur: no part of one has the tag.
use vibes.Common.{
  ℕ, true, false, none, [], ◌∷◌, ◌++◌, ◌≡◌, refl, inl, inr, Option-cases, Bool-cases, arith,
}
use vibes.Common.Texts.{Text, find, starts_with}

starts_with-append : (a b tag : Text) → starts_with a tag ≡ true → starts_with (a ++ b) tag ≡ true
unfolding starts_with
starts_with-append a b [] e = refl
starts_with-append [] b (d ∷ tag) e = absurd (cc e)
starts_with-append (c ∷ a) b (d ∷ tag) e = ground (arith, starts_with-append a b tag)

absent_in_tail :
    (c : ℕ) (text tag : Text)
    → find (c ∷ text) tag ≡ none
    → (starts_with (c ∷ text) tag ≡ false) × (find text tag ≡ none)
unfolding find
absent_in_tail c text tag e = elim (Bool-cases (starts_with (c ∷ text) tag)) [
  | inl starts ↦ absurd (cc (starts, e))
  | inr starts ↦ elim (Option-cases (find text tag)) [
    | inl f ↦ (starts, f)
    | inr (i, f) ↦ absurd (cc (starts, e, f))
  ]
]

pub absent_in_suffix : (a b tag : Text) → find (a ++ b) tag ≡ none → find b tag ≡ none
absent_in_suffix [] b tag e = e
absent_in_suffix (c ∷ a) b tag e = absent_in_suffix a b tag (absent_in_tail c (a ++ b) tag e).1

pub absent_in_prefix : (a b tag : Text) → find (a ++ b) tag ≡ none → find a tag ≡ none
unfolding find starts_with
absent_in_prefix [] [] tag e = e
absent_in_prefix [] (d ∷ b) [] e = absurd (cc e)
absent_in_prefix [] (d ∷ b) (x ∷ tag) e = refl
absent_in_prefix (c ∷ a) b tag e =
    let (starts, rest) = absent_in_tail c (a ++ b) tag e in
    elim (Bool-cases (starts_with (c ∷ a) tag)) [
      | inl s ↦ absurd (cc (starts_with-append (c ∷ a) b tag s, starts))
      | inr s ↦ rw (s, absent_in_prefix a b tag rest)
    ]
