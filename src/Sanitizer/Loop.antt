-- ===== src/Sanitizer/Loop.antt =====
-- The loop of `feed` ends: with tags that are not empty every step shortens the text, so the fuel is
-- enough.
use vibes.Common.{
  ℕ, ◌∙◌, zero, suc, ◌+◌, ap, ◌≤◌, ◌<◌, some, List, [], ◌∷◌, ◌≡◌, ◌⊎◌, inl, inr, refl, arith,
  length, take, length-drop, Option-cases,
}
use vibes.Common.Texts.{Text, find, join}
use vibes.Sanitizer.{
  emitting, thinking, Sanitizer, Drained, record_thought, emit_to_open, emit_to_close, emit_rest,
  think_to_close, think_and_hold, think_all, consume_emitting, consume_thinking, step, feed_loop,
}
use vibes.Sanitizer.Recording.{record_thought-SameElse}
use vibes.Sanitizer.Steps.{Steps, consume_emitting-Steps, consume_thinking-Steps}

-- Both tags have a character.
pub record HasTags (s : Sanitizer) : Type 0 where
  pub opens : 0 < length s.open_tag
  pub closes : 0 < length s.close_tag

-- With tags that are not empty, a step on a text that is not empty shortens it.
emitting-shorter :
    (s : Sanitizer) (text : Text) (out : List Text)
    → HasTags s
    → 0 < length text
    → length (consume_emitting s text out).text < length text
unfolding consume_emitting emit_to_open emit_to_close emit_rest
emitting-shorter s text out tags h = elim (Option-cases (find text s.open_tag)) [
  | inr (i, e) ↦ ground (arith, length-drop (i + length s.open_tag) text)
  | inl e ↦ elim (Option-cases (find text s.close_tag)) [
    | inr (i, f) ↦ ground (arith, length-drop (i + length s.close_tag) text)
    | inl f ↦ ground arith
  ]
]

thinking-shorter :
    (s : Sanitizer) (text : Text) (out : List Text)
    → HasTags s
    → 0 < length text
    → length (consume_thinking s text out).text < length text
unfolding consume_thinking think_to_close think_and_hold think_all
thinking-shorter s text out tags h = elim (Option-cases (find text s.close_tag)) [
  | inr (i, e) ↦
      let s' = (record_thought s (take i text)).0 in
      ground (
        arith,
        length-drop (i + length s'.close_tag) text,
        ap length (record_thought-SameElse s (take i text)).close_tag,
      )
  | inl e ↦ ground arith
]

Steps-HasTags :
    {s s' : Sanitizer} {text text' : Text} {shown shown' : ℕ}
    → Steps s s' text text' shown shown'
    → HasTags s
    → HasTags s'
Steps-HasTags st tags = record {
  opens = rw st.open_tag tags.opens;
  closes = rw st.close_tag tags.closes;
}

Steps-trans :
    {s s' s'' : Sanitizer} {text text' text'' : Text} {a b c : ℕ}
    → Steps s s' text text' a b
    → Steps s' s'' text' text'' b c
    → Steps s s'' text text'' a c
Steps-trans p q = record {
  open_tag = q.open_tag ∙ p.open_tag;
  close_tag = q.close_tag ∙ p.close_tag;
  max_thought_chars = q.max_thought_chars ∙ p.max_thought_chars;
  total_input_chars = q.total_input_chars ∙ p.total_input_chars;
  visible_chars = q.visible_chars ∙ p.visible_chars;
  balance = omega (arith, p.balance, q.balance);
  held = q.held;
  tallied = omega (arith, p.tallied, q.tallied);
  bounded = λ h.
      let first = p.bounded h in
      let second = q.bounded (omega (arith, p.max_thought_chars)) in
      omega (arith, p.max_thought_chars);
}

Steps-refl : (s : Sanitizer) (shown : ℕ) → Steps s s [] [] shown shown
Steps-refl s shown = record {
  open_tag = refl;
  close_tag = refl;
  max_thought_chars = refl;
  total_input_chars = refl;
  visible_chars = refl;
  balance = refl;
  held = inr refl;
  tallied = refl;
  bounded = λ h. h;
}

-- A step that shows nothing may count from any number of shown characters.
thinking_shows :
    {s s' : Sanitizer} {text text' : Text} {shown : ℕ}
    → Steps s s' text text' 0 0
    → Steps s s' text text' shown shown
thinking_shows st = record {
  open_tag = st.open_tag;
  close_tag = st.close_tag;
  max_thought_chars = st.max_thought_chars;
  total_input_chars = st.total_input_chars;
  visible_chars = st.visible_chars;
  balance = omega (arith, st.balance);
  held = st.held;
  tallied = st.tallied;
  bounded = st.bounded;
}

-- The state and what is left of the text may be held back, not both.
abbrev Ready : Sanitizer → Text → Type 0
Ready s text = (s.buffer ≡ []) ⊎ (text ≡ [])

-- With as much fuel as the text is long the loop ends, and it keeps what every step keeps.
pub feed_loop-Steps :
    (n : ℕ) (s : Sanitizer) (text : Text) (visible thought : List Text)
    → length text ≤ n
    → HasTags s
    → Ready s text
    → (d : Drained) × (feed_loop n s text visible thought ≡ some d)
      × Steps s d.after text [] (length (join visible)) (length (join d.visible_out))
unfolding feed_loop step
feed_loop-Steps n s [] visible thought le tags ready = (_, refl, Steps-refl s _)
feed_loop-Steps zero s (c ∷ text) visible thought le tags ready = absurd (omega arith)
feed_loop-Steps (suc n) s (c ∷ text) visible thought le tags (inr e) = absurd (cc e)
feed_loop-Steps (suc n) s (c ∷ text) visible thought le tags (inl b) =
    elim s.state
      as (λ st.
        (d : Drained) × (step st (feed_loop n) s (c ∷ text) visible thought ≡ some d)
        × Steps s d.after (c ∷ text) [] (length (join visible)) (length (join d.visible_out))) [
          | emitting ↦
              let st = consume_emitting-Steps s (c ∷ text) visible b in
              let (d, e, rest) =
                feed_loop-Steps n _ _ _ thought
                  (omega (arith, emitting-shorter s (c ∷ text) visible tags (omega arith)))
                  (Steps-HasTags st tags) st.held in
              (d, e, Steps-trans st rest)
          | thinking ↦
              let st = consume_thinking-Steps s (c ∷ text) thought b in
              let (d, e, rest) =
                feed_loop-Steps n _ _ visible _
                  (omega (arith, thinking-shorter s (c ∷ text) thought tags (omega arith)))
                  (Steps-HasTags st tags) st.held in
              (d, e, Steps-trans (thinking_shows st) rest)
        ]
