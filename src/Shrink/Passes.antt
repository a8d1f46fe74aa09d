-- ===== src/Shrink/Passes.antt =====
-- The passes over the lines: what they keep, what they cost, and that their loop ends.
use vibes.Common.{
  ℕ, zero, suc, ◌+◌, ◌-◌, ◌/◌, ◌≤◌, ◌<◌, max, Bool, true, false, ◌&&◌, not, some, List, [], ◌∷◌,
  ◌++◌, ◌≡◌, ◌⊎◌, ◌∙◌, refl, ap, subst, inl, inr, arith, length, take, drop, ltb, leb, ◌==◌,
  if◌then◌else◌, Bool-cases,
}
use mathlib.Core.List.{Sublistᴰ}
use mathlib.Core.List.Sublistᴰ
use vibes.Common.Texts.{Text, join, on_first_line}
use vibes.Shrink.{
  is_boundary, next_is_line_feed, lines_of, without_window, Pass, pass_loop, shrink_pass,
  lines_loop, shrink_lines,
}

drop-Sublist : {A : Type 0} (n : ℕ) (xs : List A) → Sublistᴰ (drop n xs) xs
drop-Sublist zero xs = Sublistᴰ.refl xs
drop-Sublist (suc n) [] = Sublistᴰ.slnil
drop-Sublist (suc n) (x ∷ xs) = Sublistᴰ.cons (drop-Sublist n xs)

pub take-Sublist : {A : Type 0} (n : ℕ) (xs : List A) → Sublistᴰ (take n xs) xs
take-Sublist zero xs = Sublistᴰ.nil-sublist xs
take-Sublist (suc n) [] = Sublistᴰ.slnil
take-Sublist (suc n) (x ∷ xs) = Sublistᴰ.cons-cons refl (take-Sublist n xs)

window-Sublist : {A : Type 0} (i n : ℕ) (xs : List A) → i ≤ n → Sublistᴰ (take i xs ++ drop n xs) xs
window-Sublist zero n xs h = drop-Sublist n xs
window-Sublist (suc i) zero xs h = absurd (omega arith)
window-Sublist (suc i) (suc n) [] h = Sublistᴰ.slnil
window-Sublist (suc i) (suc n) (x ∷ xs) h =
    Sublistᴰ.cons-cons refl (window-Sublist i n xs (omega arith))

without_window-Sublist :
    (kept : List Text) (index chunk : ℕ) → Sublistᴰ (without_window kept index chunk) kept
without_window-Sublist kept index chunk = window-Sublist index (index + chunk) kept (omega arith)

pub join-Sublist :
    {parts whole : List Text} → Sublistᴰ parts whole → Sublistᴰ (join parts) (join whole)
unfolding join
join-Sublist Sublistᴰ.slnil = Sublistᴰ.slnil
join-Sublist (Sublistᴰ.cons {a = a} s) = Sublistᴰ.append (Sublistᴰ.nil-sublist a) (join-Sublist s)
join-Sublist (Sublistᴰ.cons-cons {a = a} e s) =
    Sublistᴰ.append (subst (Sublistᴰ a) e (Sublistᴰ.refl a)) (join-Sublist s)

-- `_lines` loses nothing.
pub join-lines_of : (text : Text) → join (lines_of text) ≡ text
unfolding lines_of join
join-lines_of [] = refl
join-lines_of (c ∷ text) =
    elim (Bool-cases (is_boundary c && not (c == 13 && next_is_line_feed text))) [
      | inl e ↦ rw e (ap (c ∷◌) (join-lines_of text))
      | inr e ↦ rw e (join-on_first_line (lines_of text) ∙ ap (c ∷◌) (join-lines_of text))
    ]
  where
    join-on_first_line : (lines : List Text) → join (on_first_line c lines) ≡ c ∷ join lines
    join-on_first_line [] = refl
    join-on_first_line (l ∷ lines) = refl

-- What a pass, or several, do to the lines: the outcome is a part of them, and still fails.
pub record Reduces (fails : Text → Bool) (lines kept : List Text) : Type 0 where
  pub part : Sublistᴰ kept lines
  pub failing : fails (join lines) ≡ true → fails (join kept) ≡ true

Reduces-refl : (fails : Text → Bool) (lines : List Text) → Reduces fails lines lines
Reduces-refl fails lines = record { part = Sublistᴰ.refl lines; failing = λ h. h }

Reduces-trans :
    {fails : Text → Bool} {a b c : List Text}
    → Reduces fails a b
    → Reduces fails b c
    → Reduces fails a c
Reduces-trans p q = record {
  part = Sublistᴰ.trans q.part p.part;
  failing = λ h. q.failing (p.failing h);
}

-- What a pass costs: within its budget, and at least a round when it removes a window.
pub record Costs (p : Pass) (left used : ℕ) (removed : Bool) : Type 0 where
  pub most : p.used_rounds ≤ used + left
  pub least : used ≤ p.used_rounds
  pub paid : p.removed ≡ true → (removed ≡ true) ⊎ (used < p.used_rounds)

module _ (fails : Text → Bool) where
  pub pass_loop-Reduces :
      (left chunk : ℕ) (kept : List Text) (index : ℕ) (removed : Bool) (used : ℕ)
      → Reduces fails kept (pass_loop fails left chunk kept index removed used).kept
        × Costs (pass_loop fails left chunk kept index removed used) left used removed
  unfolding pass_loop
  pass_loop-Reduces zero chunk kept index removed used =
      (Reduces-refl fails kept, record { most = omega arith; least = omega arith; paid = inl })
  pass_loop-Reduces (suc left) chunk kept index removed used =
      elim (Bool-cases (ltb index (length kept))) [
        | inr e ↦
            rw (e, pass_loop)
              (
                Reduces-refl fails kept,
                record { most = omega arith; least = omega arith; paid = inl },
              )
        | inl e ↦ elim (Bool-cases (fails (join (without_window kept index chunk)))) [
          | inl f ↦
              let (r, c) =
                pass_loop-Reduces left chunk (without_window kept index chunk) index true
                  (used + 1) in
              rw (e, f, pass_loop)
                (
                  Reduces-trans
                      (record { part = without_window-Sublist kept index chunk; failing = λ h. f })
                      r,
                  record {
                    most = omega (arith, c.most);
                    least = omega (arith, c.least);
                    paid = λ h. inr (omega (arith, c.least));
                  },
                )
          | inr f ↦
              let (r, c) = pass_loop-Reduces left chunk kept (index + chunk) removed (used + 1) in
              rw (e, f, pass_loop)
                (
                  r,
                  record {
                    most = omega (arith, c.most);
                    least = omega (arith, c.least);
                    paid = λ h. elim (c.paid h) [ inl x ↦ inl x | inr x ↦ inr (omega (arith, x)) ];
                  },
                )
        ]
      ]

  -- With as much fuel as the rounds that are left and the window together, the loop ends.
  pub lines_loop-Reduces :
      (n max_rounds : ℕ) (lines : List Text) (chunk rounds : ℕ)
      → rounds ≤ max_rounds
      → max_rounds - rounds + chunk ≤ n
      → (kept : List Text) × (used : ℕ) × (lines_loop fails n max_rounds lines chunk rounds
          ≡ some (kept, used))
        × Reduces fails lines kept
        × (used ≤ max_rounds)
  unfolding lines_loop shrink_pass
  lines_loop-Reduces zero max_rounds lines chunk rounds le fuel =
      (lines, rounds, ground arith, Reduces-refl fails lines, le)
  lines_loop-Reduces (suc n) max_rounds lines chunk rounds le fuel =
      let p = shrink_pass fails lines chunk (max_rounds - rounds) in
      let (r, c) = pass_loop-Reduces (max_rounds - rounds) chunk lines 0 false 0 in
      elim (Bool-cases (leb 1 chunk && ltb rounds max_rounds)) [
        | inr e ↦ (lines, rounds, rw (e, lines_loop) refl, Reduces-refl fails lines, le)
        | inl e ↦
            let on : (1 ≤ chunk) × (rounds < max_rounds) = ground (arith, e) in
            let less : max_rounds
                  - (rounds + p.used_rounds)
                  + (if p.removed then chunk else chunk / 2)
                ≤ n =
              elim (Bool-cases p.removed) [
                | inl h ↦ rw h (elim (c.paid h) [
                  | inl x ↦ absurd (cc x)
                  | inr x ↦ omega (arith, x, on, c.most)
                ])
                | inr h ↦ rw h (omega (arith, on))
              ] in
            let (kept, used, ran, rest, bound) =
              lines_loop-Reduces n max_rounds p.kept (if p.removed then chunk else chunk / 2)
                (rounds + p.used_rounds) (omega (arith, c.most)) less in
            (kept, used, rw (e, lines_loop) ran, Reduces-trans r rest, bound)
      ]

  -- `_shrink_lines` ends within its rounds, and the lines that it leaves still fail.
  pub shrink_lines-Reduces :
      (text : Text) (max_rounds : ℕ)
      → (kept : List Text) × (used : ℕ) × (shrink_lines fails text max_rounds ≡ some (kept, used))
        × Reduces fails (lines_of text) kept
        × (used ≤ max_rounds)
  unfolding shrink_lines
  shrink_lines-Reduces text max_rounds =
      lines_loop-Reduces _ max_rounds (lines_of text) (max 1 (length (lines_of text) / 2)) 0
        (omega arith) (omega arith)

  -- `_shrink_lines` ends for every input that fails, with lines of the input in their order that
  -- still fail, and has used at most `max_rounds` rounds, one for each call of the predicate.
  pub shrink_lines_still_fail :
      (text : Text) (max_rounds : ℕ)
      → fails text ≡ true
      → (kept : List Text) × (used : ℕ) × (shrink_lines fails text max_rounds ≡ some (kept, used))
        × Sublistᴰ kept (lines_of text)
        × (fails (join kept) ≡ true)
        × (used ≤ max_rounds)
  shrink_lines_still_fail text max_rounds h =
      let (kept, used, ran, r, bound) = shrink_lines-Reduces text max_rounds in
      (kept, used, ran, r.part, r.failing (rw (join-lines_of text) h), bound)
