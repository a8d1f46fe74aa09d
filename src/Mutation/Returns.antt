-- ===== src/Mutation/Returns.antt =====
-- The mutators of tools/fuzz_core.py return, whatever is drawn.
use vibes.Common.{
  ℕ, zero, suc, ◌+◌, ◌-◌, ◌≤◌, ◌<◌, String, Option, none, some, List, [], ◌∷◌, ◌++◌, length, take,
  drop, ltb, ◌≡◌, refl, ap, ◌∙◌, arith, All, Bool-cases, inl, inr, false, ◌||◌,
}
use text.Mathlib.Text.{◌==◌ as str_eq}
use vibes.Common.Dict.{get}
use vibes.Common.Texts.{Text, codes}
use vibes.Shrink.{lines_of}
use vibes.Mutation.{
  Random, Case, element, drawn, at, mutated, control_bytes, delete_line, duplicate_line,
  repeat_token, m_delete_line, m_duplicate_line, m_truncate, m_swap_adjacent, m_insert_control,
  m_repeat_token, m_indent_storm, m_splice, mutators, exploratory_mutators, mutate,
}

element_within :
    {A : Type 0} (xs : List A) (i : ℕ) → i < length xs → (x : A) × (element xs i ≡ some x)
unfolding element
element_within [] i h = absurd (omega arith)
element_within (x ∷ xs) zero h = (x, refl)
element_within (x ∷ xs) (suc i) h = element_within xs i (omega arith)

element-All :
    {A : Type 0} (P : A → Type 0) (xs : List A) (i : ℕ)
    → All P xs
    → i < length xs
    → (x : A) × (element xs i ≡ some x) × P x
unfolding element
element-All P [] i ps h = absurd (omega arith)
element-All P (x ∷ xs) zero (p, ps) h = (x, refl, p)
element-All P (x ∷ xs) (suc i) (p, ps) h = element-All P xs i ps (omega arith)

-- It ends with a text.
abbrev Returns {ℓ} : {S : Type ℓ} → Option (S × Text) → Type ℓ
Returns {S = S} result = (rng : S) × (text : Text) × (result ≡ some (rng, text))

at_within :
    {S A : Type 0} (xs : List A) (i : ℕ) (k : A → Option (S × Text))
    → i < length xs
    → ((x : A) → Returns (k x))
    → Returns (at (element xs i) k)
at_within xs i k h r =
    let (x, e) = element_within xs i h in
    let (rng, text, same) = r x in (rng, text, ap (λ o. at o k) e ∙ same)

-- What Python documents of a generator: it draws from a range that is not empty, and an index of a
-- sequence that is not empty.
pub record IsRandom {S : Type 0} (random : Random S) : Type 0 where
  pub within :
      (rng : S) (start stop : ℕ)
      → start < stop
      → (rng' : S) × (r : ℕ) × (random.randrange rng start stop ≡ some (rng', r))
        × (start ≤ r)
        × (r < stop)
  pub chooses :
      (rng : S) (size : ℕ)
      → 0 < size
      → (rng' : S) × (r : ℕ) × (random.choice rng size ≡ some (rng', r)) × (r < size)

module _ {S : Type 0} (random : Random S) (is_random : IsRandom random) where
  drawn-randrange :
      (rng : S) (start stop : ℕ) (k : S → ℕ → Option (S × Text))
      → start < stop
      → ((rng' : S) (r : ℕ) → r < stop → Returns (k rng' r))
      → Returns (drawn (random.randrange rng start stop) k)
  drawn-randrange rng start stop k h next =
      let (rng1, r, e, low, high) = is_random.within rng start stop h in
      let (rng2, text, same) = next rng1 r high in (rng2, text, ap (λ o. drawn o k) e ∙ same)

  delete_line-Returns :
      (lines : List Text) (text : Text) (rng : S) → Returns (delete_line random lines text rng)
  unfolding delete_line
  delete_line-Returns [] text rng = (rng, text, refl)
  delete_line-Returns (l ∷ ls) text rng =
      drawn-randrange rng 0 (length (l ∷ ls)) _ (omega arith) (λ rng' r h. (rng', _, refl))

  duplicate_line-Returns :
      (lines : List Text) (text : Text) (rng : S) → Returns (duplicate_line random lines text rng)
  unfolding duplicate_line
  duplicate_line-Returns [] text rng = (rng, text, refl)
  duplicate_line-Returns (l ∷ ls) text rng =
      drawn-randrange rng 0 (length (l ∷ ls)) _ (omega arith)
        (λ rng' r h. at_within (l ∷ ls) r _ h (λ line. (rng', _, refl)))

  repeat_token-Returns :
      (lines : List Text) (text : Text) (rng : S) → Returns (repeat_token random lines text rng)
  unfolding repeat_token
  repeat_token-Returns [] text rng = (rng, text, refl)
  repeat_token-Returns (l ∷ ls) text rng =
      drawn-randrange rng 0 (length (l ∷ ls)) _ (omega arith) (λ rng' r h.
        at_within (l ∷ ls) r _ h
          (λ line. drawn-randrange rng' 50 400 _ (omega arith) (λ rng'' n high. (rng'', _, refl))))

  m_truncate-Returns :
      (text : Text) (rng : S) (donor : Text) → Returns (m_truncate random text rng donor)
  unfolding m_truncate
  m_truncate-Returns text rng donor =
      drawn-randrange rng 0 (length text + 1) _ (omega arith) (λ rng' r h. (rng', _, refl))

  m_swap_adjacent-Returns :
      (text : Text) (rng : S) (donor : Text) → Returns (m_swap_adjacent random text rng donor)
  unfolding m_swap_adjacent
  m_swap_adjacent-Returns text rng donor = elim (Bool-cases (ltb (length text) 2)) [
    | inl short ↦ rw short (rng, text, refl)
    | inr long ↦ rw long (
        drawn-randrange rng 0 (length text - 1) _ (ground arith) (λ rng' r h.
          at_within text (r + 1) _ (omega arith)
            (λ second. at_within text r _ (omega arith) (λ first. (rng', _, refl)))))
  ]

  m_insert_control-Returns :
      (text : Text) (rng : S) (donor : Text) → Returns (m_insert_control random text rng donor)
  unfolding m_insert_control
  m_insert_control-Returns text rng donor =
      drawn-randrange rng 0 (length text + 1) _ (omega arith) (λ rng' r h.
        let (rng1, chosen, e, high) = is_random.chooses rng' (length control_bytes) (omega arith) in
        let (rng2, new, same) =
          at_within control_bytes chosen
            (λ control. some (rng1, take r text ++ control ++ drop r text)) high
            (λ control. (rng1, _, refl)) in
        (
          rng2,
          new,
          ap
                (λ o. drawn o (λ rng chosen.
                  at (element control_bytes chosen)
                    (λ control. some (rng, take r text ++ control ++ drop r text))))
                e
              ∙ same,
        ))

  m_indent_storm-Returns :
      (text : Text) (rng : S) (donor : Text) → Returns (m_indent_storm random text rng donor)
  unfolding m_indent_storm
  m_indent_storm-Returns text rng donor =
      drawn-randrange rng 1 64 _ (omega arith) (λ rng' r h. (rng', _, refl))

  m_splice-Returns :
      (text : Text) (rng : S) (donor : Text) → Returns (m_splice random text rng donor)
  unfolding m_splice
  m_splice-Returns text rng donor =
      drawn-randrange rng 0 (length text + 1) _ (omega arith) (λ rng' r h.
        drawn-randrange rng' 0 (length donor + 1) _ (omega arith)
          (λ rng'' n high. (rng'', _, refl)))

  -- A name in the table, of a mutator that returns.
  abbrev Works : String → Type 0
  Works name =
      (mutator : Text → S → Text → Option (S × Text)) × (get (mutators random) name ≡ some mutator)
      × ((str_eq name "blank" || str_eq name "widen") ≡ false)
      × ((text : Text) (rng : S) (donor : Text) → Returns (mutator text rng donor))

  exploratory_mutators-Works : All Works (exploratory_mutators random)
  unfolding exploratory_mutators get m_delete_line m_duplicate_line m_repeat_token
  exploratory_mutators-Works = (
    (_, refl, refl, λ text rng donor. delete_line-Returns (lines_of text) text rng),
    (
      (_, refl, refl, λ text rng donor. duplicate_line-Returns (lines_of text) text rng),
      (
        (_, refl, refl, m_indent_storm-Returns),
        (
          (_, refl, refl, m_insert_control-Returns),
          (
            (_, refl, refl, λ text rng donor. repeat_token-Returns (lines_of text) text rng),
            (
              (_, refl, refl, m_splice-Returns),
              ((_, refl, refl, m_swap_adjacent-Returns), ((_, refl, refl, m_truncate-Returns), tt)),
            ),
          ),
        ),
      ),
    ),
  )

  -- The text that the mutator gets beside the one that it changes.
  abbrev donor_of : Case → Option Text → Text
  donor_of case donor = elim donor [ none ↦ case.text | some other ↦ other ]

  -- With a generator as Python documents it: for every case, whatever is drawn and with or
  -- without a donor, `mutate` raises nothing and returns the case with the same corpus and seed,
  -- with the text that one mutator of the table, neither `blank` nor `widen`, gives for its text,
  -- and with the name of that mutator added to its origin.
  pub mutate_returns :
      (case : Case) (rng : S) (donor : Option Text)
      → (name : String) × (mutator : Text → S → Text → Option (S × Text)) × (rng1 rng2 : S)
        × (text : Text) × (get (mutators random) name ≡ some mutator)
        × ((str_eq name "blank" || str_eq name "widen") ≡ false)
        × (mutator case.text rng1 (donor_of case donor) ≡ some (rng2, text))
        × (mutate random case rng donor
            ≡ some (
              rng2,
              record case { text = text; origin = case.origin ++ codes "+" ++ codes name },
            ))
  unfolding mutate
  mutate_returns case rng donor =
      let names = exploratory_mutators random in
      let (rng1, chosen, drew, high) = is_random.chooses rng (length names) (omega arith) in
      let (name, found, works) = element-All Works names chosen exploratory_mutators-Works high in
      let (mutator, listed, explores, returns) = works in
      let (rng2, text, ran) = returns case.text rng1 (donor_of case donor) in
      (
        name,
        mutator,
        rng1,
        rng2,
        text,
        listed,
        explores,
        ran,
        rw (drew, mutate) (rw found (rw listed (ap (mutated random case name) ran))),
      )
