-- ===== src/Sanitizer/Hiding.antt =====
-- One run of the loop of `feed` in examples/streaming-reasoning-sanitizer/sanitizer.py that is
-- thinking and finds no close tag: all of its text is hidden.
use vibes.Common.{
  ℕ, ◌-◌, zero, suc, ◌≤◌, some, none, List, [], ◌∷◌, ◌++◌, ◌≡◌, ◌∙◌, sym, ap, subst, refl, arith,
  inl, inr, length, take, drop, ltb, take-append, take-append-drop, Bool-cases,
}
use mathlib.Core.List.{append_assoc, append-nil}
use vibes.Common.Texts.{Text, join_snoc, find}
use vibes.Sanitizer.{
  Sanitizer, thinking, Drained, find_potential_prefix, keep_thought, record_thought,
  accumulated_thoughts, think_and_hold, think_all, consume_thinking, feed_loop, step,
}
use vibes.Sanitizer.Recording.{record_thought-SameElse, record_thought-Records}

-- What a sanitizer that has hidden the text `seen` so far looks like: a part of it is recorded, as
-- much as the maximum allows, and the rest is in the buffer.
pub record Hides (close_tag : Text) (max_thought_chars : ℕ) (s : Sanitizer) (seen : Text)
    : Type 0 where
  pub close_tag_kept : s.close_tag ≡ close_tag
  pub max_kept : s.max_thought_chars ≡ max_thought_chars
  pub still : s.state ≡ thinking
  pub tallied : length (accumulated_thoughts s) ≡ s.metrics.thought_chars
  pub front : Text
  pub recorded : accumulated_thoughts s ≡ take max_thought_chars front
  pub parts : front ++ s.buffer ≡ seen

keep_thought-accumulated_thoughts :
    (allowed : Text) (s : Sanitizer)
    → accumulated_thoughts (keep_thought allowed s) ≡ accumulated_thoughts s ++ allowed
unfolding keep_thought
keep_thought-accumulated_thoughts [] s = sym (append-nil (accumulated_thoughts s))
keep_thought-accumulated_thoughts (c ∷ cs) s = join_snoc s.collected_thoughts (c ∷ cs)

record_thought-accumulated_thoughts :
    (s : Sanitizer) (fragment : Text)
    → accumulated_thoughts (record_thought s fragment).0
      ≡ accumulated_thoughts s ++ take (s.max_thought_chars - s.metrics.thought_chars) fragment
unfolding record_thought
record_thought-accumulated_thoughts s fragment =
    let allowed = take (s.max_thought_chars - s.metrics.thought_chars) fragment in
    elim (Bool-cases (ltb 0 (length fragment - length allowed))) [
      | inl e ↦ rw e (keep_thought-accumulated_thoughts allowed s)
      | inr e ↦ rw e (keep_thought-accumulated_thoughts allowed s)
    ]

-- `_record_thought` on the next part of what is hidden.
pub record_thought-recorded :
    (s : Sanitizer) (front fragment : Text)
    → length (accumulated_thoughts s) ≡ s.metrics.thought_chars
    → accumulated_thoughts s ≡ take s.max_thought_chars front
    → accumulated_thoughts (record_thought s fragment).0
      ≡ take s.max_thought_chars (front ++ fragment)
record_thought-recorded s front fragment tallied recorded =
    record_thought-accumulated_thoughts s fragment
    ∙ rw (sym tallied, recorded) (take-append s.max_thought_chars front fragment)

module _ (close_tag : Text) (max_thought_chars : ℕ) (s : Sanitizer) (front text : Text)
    (out : List Text) (close : s.close_tag ≡ close_tag)
    (most : s.max_thought_chars ≡ max_thought_chars) (still : s.state ≡ thinking)
    (tallied : length (accumulated_thoughts s) ≡ s.metrics.thought_chars)
    (recorded : accumulated_thoughts s ≡ take max_thought_chars front) where
  -- Recording a part of the text and holding back the rest hides it.
  record_thought-Hides :
      (part rest : Text) (s' : Sanitizer)
      → part ++ rest ≡ text
      → s' ≡ record (record_thought s part).0 { buffer = rest }
      → Hides close_tag max_thought_chars s' (front ++ text)
  record_thought-Hides part rest s' split e =
      let same = record_thought-SameElse s part in
      let r = record_thought-Records s part in
      subst (λ s'. Hides close_tag max_thought_chars s' (front ++ text)) (sym e)
        (record {
          close_tag_kept = same.close_tag ∙ close;
          max_kept = same.max_thought_chars ∙ most;
          still = same.state ∙ still;
          tallied = omega (arith, r.kept, r.accumulated);
          front = front ++ part;
          recorded =
              record_thought-recorded s front part tallied (rw most recorded)
              ∙ ap (λ m. take m (front ++ part)) most;
          parts = append_assoc front part rest ∙ ap (front ++◌) split;
        })

  consume_thinking-Hides :
      s.buffer ≡ []
      → find text close_tag ≡ none
      → Hides close_tag max_thought_chars (consume_thinking s text out).after (front ++ text)
        × ((consume_thinking s text out).text ≡ [])
  unfolding consume_thinking think_and_hold think_all
  consume_thinking-Hides b absent =
      let cutoff = find_potential_prefix text s.close_tag in
      let none_found : find text s.close_tag ≡ none = rw close absent in
      elim (Bool-cases (ltb cutoff (length text))) [
        | inl hold ↦
            rw (none_found, hold, consume_thinking)
              (
                record_thought-Hides (take cutoff text) (drop cutoff text) _
                    (take-append-drop cutoff text) refl,
                refl,
              )
        | inr pass ↦
            rw (none_found, pass, consume_thinking)
              (
                record_thought-Hides text [] _ (append-nil text) (
                    ap (λ b. record (record_thought s text).0 { buffer = b })
                      ((record_thought-SameElse s text).buffer ∙ b)),
                refl,
              )
      ]

-- The loop of `feed` hides the text, and shows nothing.
pub feed_loop-Hides :
    (close_tag : Text) (max_thought_chars n : ℕ) (s : Sanitizer) (seen text : Text)
    → Hides close_tag max_thought_chars s seen
    → length text ≤ n
    → s.buffer ≡ []
    → find text close_tag ≡ none
    → (d : Drained) × (feed_loop n s text [] [] ≡ some d)
      × Hides close_tag max_thought_chars d.after (seen ++ text)
      × (d.visible_out ≡ [])
unfolding feed_loop step
feed_loop-Hides close_tag most n s seen [] h le b absent =
    (_, refl, subst (Hides close_tag most s) (sym (append-nil seen)) h, refl)
feed_loop-Hides close_tag most zero s seen (x ∷ text) h le b absent = absurd (omega arith)
feed_loop-Hides close_tag most (suc n) s seen (x ∷ text) h le b absent =
    let c = consume_thinking s (x ∷ text) [] in
    let whole : h.front ≡ seen = sym (append-nil h.front) ∙ ap (h.front ++◌) (sym b) ∙ h.parts in
    let (hides, over) =
      consume_thinking-Hides close_tag most s h.front (x ∷ text) [] h.close_tag_kept h.max_kept
        h.still h.tallied h.recorded b absent in
    (
      record { after = c.after; visible_out = []; thought_out = c.out },
      ap (λ st. step st (feed_loop n) s (x ∷ text) [] []) h.still
          ∙ ap (λ t. feed_loop n c.after t [] c.out) over,
      subst (λ seen. Hides close_tag most c.after (seen ++ x ∷ text)) whole hides,
      refl,
    )
