-- ===== src/Sanitizer/Steps.antt =====
-- One step of the loop of `feed`: what it keeps, and the balance of characters.
use vibes.Common.{
  ℕ, tests, zero, suc, ◌+◌, ◌-◌, ◌*◌, ap, ◌≤◌, some, List, [], ◌≡◌, ◌⊎◌, inl, inr, arith, length,
  take, min, length-drop, length-take, ltb, Option-cases, Bool-cases,
}
use vibes.Common.Texts.{Text, find, find-le, join, length-join_snoc}
use vibes.Sanitizer.{
  Sanitizer, prefix_from, find_potential_prefix, emit_to_open, emit_to_close, emit_rest,
  think_to_close, think_and_hold, think_all, consume_emitting, consume_thinking,
  accumulated_thoughts,
}
use vibes.Sanitizer.Recording.{SameElse, Records, record_thought-SameElse, record_thought-Records}

pub prefix_from-le : (n : ℕ) (text tag : Text) → prefix_from n text tag ≤ length text
unfolding prefix_from
prefix_from-le zero text tag = omega arith
prefix_from-le (suc n) text tag = ground (arith, prefix_from-le n text tag)

-- The characters that a sanitizer has dealt with, however it did: the visible ones that `feed` has
-- counted, the thoughts, the discarded ones and the tags.
abbrev pub accounted : Sanitizer → ℕ
accounted s =
    s.metrics.visible_chars
    + s.metrics.thought_chars
    + s.metrics.discarded_thought_chars
    + length s.open_tag * s.metrics.open_tags_detected
    + length s.close_tag * s.metrics.close_tags_detected
    + length s.close_tag * s.metrics.unopened_close_tags

-- What a step keeps: the settings, the input counter and the balance of characters, where `shown`
-- and `shown'` are the visible characters put out before and after it.
pub record Steps (s s' : Sanitizer) (text text' : Text) (shown shown' : ℕ) : Type 0 where
  pub open_tag : s'.open_tag ≡ s.open_tag
  pub close_tag : s'.close_tag ≡ s.close_tag
  pub max_thought_chars : s'.max_thought_chars ≡ s.max_thought_chars
  pub total_input_chars : s'.metrics.total_input_chars ≡ s.metrics.total_input_chars
  pub visible_chars : s'.metrics.visible_chars ≡ s.metrics.visible_chars
  pub balance :
      accounted s' + length s'.buffer + length text' + shown'
      ≡ accounted s + length s.buffer + length text + shown
  pub held : (s'.buffer ≡ []) ⊎ (text' ≡ [])
  pub tallied :
      length (accumulated_thoughts s') + s.metrics.thought_chars
      ≡ length (accumulated_thoughts s) + s'.metrics.thought_chars
  pub bounded :
      s.metrics.thought_chars ≤ s.max_thought_chars → s'.metrics.thought_chars ≤ s.max_thought_chars

emit_to_open-Steps :
    (s : Sanitizer) (text : Text) (out : List Text) (i : ℕ)
    → s.buffer ≡ []
    → find text s.open_tag ≡ some i
    → Steps s
        (emit_to_open s text out i).after
        text
        (emit_to_open s text out i).text
        (length (join out))
        (length (join (emit_to_open s text out i).out))
unfolding emit_to_open
emit_to_open-Steps s text out i b e = ground (
  arith,
  find-le text s.open_tag e,
  length-take i text,
  length-drop (i + length s.open_tag) text,
  length-join_snoc out (take i text),
  ap length b,
)

emit_to_close-Steps :
    (s : Sanitizer) (text : Text) (out : List Text) (i : ℕ)
    → s.buffer ≡ []
    → find text s.close_tag ≡ some i
    → Steps s
        (emit_to_close s text out i).after
        text
        (emit_to_close s text out i).text
        (length (join out))
        (length (join (emit_to_close s text out i).out))
unfolding emit_to_close
emit_to_close-Steps s text out i b e = ground (
  arith,
  find-le text s.close_tag e,
  length-take i text,
  length-drop (i + length s.close_tag) text,
  length-join_snoc out (take i text),
  ap length b,
)

emit_rest-Steps :
    (s : Sanitizer) (text : Text) (out : List Text)
    → s.buffer ≡ []
    → Steps s
        (emit_rest s text out).after
        text
        (emit_rest s text out).text
        (length (join out))
        (length (join (emit_rest s text out).out))
unfolding emit_rest find_potential_prefix
emit_rest-Steps s text out b =
    let cutoff = find_potential_prefix text s.open_tag in
    let le = prefix_from-le (min (length text) (length s.open_tag - 1)) text s.open_tag in
    elim (Bool-cases (ltb cutoff (length text))) [
      | inl hold ↦ rw hold (
          ground (
            arith,
            le,
            length-take cutoff text,
            length-drop cutoff text,
            length-join_snoc out (take cutoff text),
            ap length b,
          ))
      | inr pass ↦ rw pass (ground (arith, length-join_snoc out text, ap length b))
    ]

-- Every step while emitting keeps the balance of characters.
pub consume_emitting-Steps :
    (s : Sanitizer) (text : Text) (out : List Text)
    → s.buffer ≡ []
    → Steps s
        (consume_emitting s text out).after
        text
        (consume_emitting s text out).text
        (length (join out))
        (length (join (consume_emitting s text out).out))
unfolding consume_emitting
consume_emitting-Steps s text out b = elim (Option-cases (find text s.open_tag)) [
  | inr (i, e) ↦ rw (e, consume_emitting) (emit_to_open-Steps s text out i b e)
  | inl e ↦ elim (Option-cases (find text s.close_tag)) [
    | inr (i, f) ↦ rw (e, f, consume_emitting) (emit_to_close-Steps s text out i b f)
    | inl f ↦ rw (e, f, consume_emitting) (emit_rest-Steps s text out b)
  ]
]

-- A call of `_record_thought` accounts for its whole fragment.
pub record_thought-accounted :
    (s s' : Sanitizer) (fragment allowed : Text)
    → SameElse s s'
    → Records s s' fragment allowed
    → accounted s' ≡ accounted s + length fragment
record_thought-accounted s s' fragment allowed same r =
    let opened : length s'.open_tag * s'.metrics.open_tags_detected
        ≡ length s.open_tag * s.metrics.open_tags_detected =
      rw (same.open_tag, same.open_tags_detected) in
    let closed : length s'.close_tag * s'.metrics.close_tags_detected
        ≡ length s.close_tag * s.metrics.close_tags_detected =
      rw (same.close_tag, same.close_tags_detected) in
    let unopened : length s'.close_tag * s'.metrics.unopened_close_tags
        ≡ length s.close_tag * s.metrics.unopened_close_tags =
      rw (same.close_tag, same.unopened_close_tags) in
    omega (arith, opened, closed, unopened)

module _ (s : Sanitizer) (text : Text) (out : List Text) (b : s.buffer ≡ []) where
  think_to_close-Steps :
      (i : ℕ) (s' : Sanitizer) (allowed : Text)
      → find text s.close_tag ≡ some i
      → SameElse s s'
      → Records s s' (take i text) allowed
      → Steps s
          (think_to_close (s', allowed) text out i).after
          text
          (think_to_close (s', allowed) text out i).text
          0
          0
  unfolding think_to_close
  think_to_close-Steps i s' allowed e same r = ground (
    arith,
    find-le text s.close_tag e,
    length-take i text,
    length-drop (i + length s'.close_tag) text,
    record_thought-accounted s s' (take i text) allowed same r,
    ap length same.close_tag,
    ap length same.buffer,
    ap length b,
  )

  think_and_hold-Steps :
      (cutoff : ℕ) (s' : Sanitizer) (allowed : Text)
      → cutoff ≤ length text
      → SameElse s s'
      → Records s s' (take cutoff text) allowed
      → Steps s
          (think_and_hold (s', allowed) text out cutoff).after
          text
          (think_and_hold (s', allowed) text out cutoff).text
          0
          0
  unfolding think_and_hold
  think_and_hold-Steps cutoff s' allowed le same r = ground (
    arith,
    length-take cutoff text,
    length-drop cutoff text,
    record_thought-accounted s s' (take cutoff text) allowed same r,
  )

  think_all-Steps :
      (s' : Sanitizer) (allowed : Text)
      → SameElse s s'
      → Records s s' text allowed
      → Steps s (think_all (s', allowed) out).after text (think_all (s', allowed) out).text 0 0
  unfolding think_all
  think_all-Steps s' allowed same r =
      ground (
        arith,
        record_thought-accounted s s' text allowed same r,
        ap length same.buffer,
        ap length b,
      )

  -- Every step while thinking keeps the balance of characters.
  pub consume_thinking-Steps :
      Steps s (consume_thinking s text out).after text (consume_thinking s text out).text 0 0
  unfolding consume_thinking
  consume_thinking-Steps = elim (Option-cases (find text s.close_tag)) [
    | inr (i, e) ↦
        rw (e, consume_thinking)
          (think_to_close-Steps i _ _ e (record_thought-SameElse s (take i text))
            (record_thought-Records s (take i text)))
    | inl e ↦
        let cutoff = find_potential_prefix text s.close_tag in
        elim (Bool-cases (ltb cutoff (length text))) [
          | inl hold ↦
              rw (e, hold, consume_thinking)
                (think_and_hold-Steps cutoff _ _ (omega (tests, hold))
                  (record_thought-SameElse s (take cutoff text))
                  (record_thought-Records s (take cutoff text)))
          | inr pass ↦
              rw (e, pass, consume_thinking)
                (think_all-Steps _ _ (record_thought-SameElse s text)
                  (record_thought-Records s text))
        ]
  ]
