-- ===== src/Shrink/Tail.antt =====
-- The trimming of the trailing characters, and the reduction as a whole.
use vibes.Common.{
  ℕ, zero, suc, ◌-◌, ◌/◌, ◌≤◌, max, Bool, true, false, some, ◌≡◌, refl, subst, inl, inr, arith,
  length, take, length-take, leb, leb→le, Bool-cases,
}
use mathlib.Core.List.{Sublistᴰ}
use mathlib.Core.List.Sublistᴰ
use vibes.Common.Texts.{Text, join}
use vibes.Shrink.{trims, trim_loop, tail_loop, shrink_tail, shrink}
use vibes.Shrink.Passes.{take-Sublist, join-Sublist, join-lines_of, shrink_lines-Reduces}

module _ (fails : Text → Bool) where
  -- What trimming in steps of a size does to a text.
  record Trimmed (step : ℕ) (text trimmed : Text) : Type 0 where
    part : Sublistᴰ trimmed text
    failing : fails text ≡ true → fails trimmed ≡ true
    last : trims fails step trimmed ≡ false

  trim_loop-Trimmed :
      (n step : ℕ) (text : Text)
      → length text ≤ n
      → 1 ≤ step
      → (trimmed : Text) × (trim_loop fails n step text ≡ some trimmed) × Trimmed step text trimmed
  unfolding trim_loop
  trim_loop-Trimmed zero step text le one =
      let over : trims fails step text ≡ false = ground arith in
      (text, rw over refl, record { part = Sublistᴰ.refl text; failing = λ h. h; last = over })
  trim_loop-Trimmed (suc n) step text le one = elim (Bool-cases (trims fails step text)) [
    | inr e ↦ (
      text,
      rw (e, trim_loop) refl,
      record { part = Sublistᴰ.refl text; failing = λ h. h; last = e },
    )
    | inl e ↦
        let shorter = take (length text - step) text in
        let fits : step ≤ length text = ground (arith, e) in
        let still : fails shorter ≡ true = ground (arith, e) in
        let (trimmed, ran, t) =
          trim_loop-Trimmed n step shorter
            (omega (arith, fits, length-take (length text - step) text)) one in
        (
          trimmed,
          rw (e, trim_loop) ran,
          record {
            part = Sublistᴰ.trans t.part (take-Sublist (length text - step) text);
            failing = λ h. t.failing still;
            last = t.last;
          },
        )
  ]

  tail_loop-Trimmed :
      (n step : ℕ) (text : Text)
      → step ≤ n
      → 1 ≤ step
      → (trimmed : Text) × (tail_loop fails n step text ≡ some trimmed) × Trimmed 1 text trimmed
  unfolding tail_loop
  tail_loop-Trimmed zero step text le one = absurd (omega arith)
  tail_loop-Trimmed (suc n) step text le one =
      let on : leb 1 step ≡ true = ground arith in
      let (inner, ran, t) = trim_loop-Trimmed (length text) step text (omega arith) one in
      elim (Bool-cases (leb 1 (step / 2))) [
        | inl more ↦
            let (trimmed, ran', t') =
              tail_loop-Trimmed n (step / 2) inner (omega arith) (leb→le 1 _ more) in
            (
              trimmed,
              rw (on, ran, tail_loop) ran',
              record {
                part = Sublistᴰ.trans t'.part t.part;
                failing = λ h. t'.failing (t.failing h);
                last = t'.last;
              },
            )
        | inr over ↦
            let single : step ≡ 1 = ground (arith, over) in
            (
              inner,
              rw (on, ran, tail_loop) (tail_loop-over n (step / 2) inner over),
              record {
                part = t.part;
                failing = t.failing;
                last = subst (λ k. trims fails k inner ≡ false) single t.last;
              },
            )
      ]
    where
      tail_loop-over :
          (n step : ℕ) (text : Text) → leb 1 step ≡ false → tail_loop fails n step text ≡ some text
      tail_loop-over zero step text e = rw e refl
      tail_loop-over (suc n) step text e = rw (e, tail_loop) refl

  -- For every predicate and every number of rounds, `shrink` of an input that fails returns a
  -- text that fails as well, is a subsequence of the input, and is empty or stops failing when
  -- its last character is taken off.
  pub shrink_still_fails :
      (text : Text) (max_rounds : ℕ)
      → fails text ≡ true
      → (reduced : Text) × (shrink fails text max_rounds ≡ some reduced)
        × Sublistᴰ reduced text
        × (fails reduced ≡ true)
        × (trims fails 1 reduced ≡ false)
  unfolding shrink shrink_tail
  shrink_still_fails text max_rounds h =
      let (kept, used, ran, r, bound) = shrink_lines-Reduces fails text max_rounds in
      let (reduced, ran', t) =
        let step = max 1 (length (join kept) / 2) in
        tail_loop-Trimmed step step (join kept) (omega arith) (omega arith) in
      let whole = join-lines_of text in
      (
        reduced,
        rw (ran, shrink) ran',
        Sublistᴰ.trans t.part (subst (Sublistᴰ (join kept)) whole (join-Sublist r.part)),
        t.failing (r.failing (rw whole h)),
        t.last,
      )
