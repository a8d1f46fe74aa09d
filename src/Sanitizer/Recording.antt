-- ===== src/Sanitizer/Recording.antt =====
-- What `_record_thought` changes, field by field.
use vibes.Common.{◌+◌, ◌-◌, [], ◌∷◌, ◌≡◌, arith, length, take, min, length-take}
use vibes.Common.Texts.{Text, length-join_snoc}
use vibes.Sanitizer.{Sanitizer, record_thought, keep_thought, accumulated_thoughts}

-- The parts of a sanitizer that only `_record_thought` leaves alone.
pub record SameElse (s s' : Sanitizer) : Type 0 where
  pub open_tag : s'.open_tag ≡ s.open_tag
  pub close_tag : s'.close_tag ≡ s.close_tag
  pub max_thought_chars : s'.max_thought_chars ≡ s.max_thought_chars
  pub state : s'.state ≡ s.state
  pub buffer : s'.buffer ≡ s.buffer
  pub total_input_chars : s'.metrics.total_input_chars ≡ s.metrics.total_input_chars
  pub visible_chars : s'.metrics.visible_chars ≡ s.metrics.visible_chars
  pub open_tags_detected : s'.metrics.open_tags_detected ≡ s.metrics.open_tags_detected
  pub close_tags_detected : s'.metrics.close_tags_detected ≡ s.metrics.close_tags_detected
  pub unopened_close_tags : s'.metrics.unopened_close_tags ≡ s.metrics.unopened_close_tags

keep_thought-SameElse : (allowed : Text) (s : Sanitizer) → SameElse s (keep_thought allowed s)
unfolding keep_thought
keep_thought-SameElse [] s = ground arith
keep_thought-SameElse (c ∷ cs) s = ground arith

pub record_thought-SameElse :
    (s : Sanitizer) (fragment : Text) → SameElse s (record_thought s fragment).0
unfolding record_thought
record_thought-SameElse s fragment =
    let allowed = take (s.max_thought_chars - s.metrics.thought_chars) fragment in
    ground (arith, keep_thought-SameElse allowed s)

keep_thought-thought_chars :
    (allowed : Text) (s : Sanitizer)
    → ((keep_thought allowed s).metrics.thought_chars ≡ s.metrics.thought_chars + length allowed)
      × ((keep_thought allowed s).metrics.discarded_thought_chars
          ≡ s.metrics.discarded_thought_chars)
unfolding keep_thought
keep_thought-thought_chars [] s = omega arith
keep_thought-thought_chars (c ∷ cs) s = omega arith

keep_thought-accumulated :
    (allowed : Text) (s : Sanitizer)
    → length (accumulated_thoughts (keep_thought allowed s))
      ≡ length (accumulated_thoughts s) + length allowed
unfolding keep_thought
keep_thought-accumulated [] s = omega arith
keep_thought-accumulated (c ∷ cs) s = length-join_snoc s.collected_thoughts (c ∷ cs)

-- Every character of the fragment is kept or discarded, and none is kept above the maximum.
pub record Records (s s' : Sanitizer) (fragment allowed : Text) : Type 0 where
  pub kept : s'.metrics.thought_chars ≡ s.metrics.thought_chars + length allowed
  pub accumulated :
      length (accumulated_thoughts s') ≡ length (accumulated_thoughts s) + length allowed
  pub discarded :
      s'.metrics.discarded_thought_chars + length allowed
      ≡ s.metrics.discarded_thought_chars + length fragment
  pub capped :
      length allowed ≡ min (s.max_thought_chars - s.metrics.thought_chars) (length fragment)

pub record_thought-Records :
    (s : Sanitizer) (fragment : Text)
    → Records s (record_thought s fragment).0 fragment (record_thought s fragment).1
unfolding record_thought
record_thought-Records s fragment =
    let allowed = take (s.max_thought_chars - s.metrics.thought_chars) fragment in
    ground (
      arith,
      keep_thought-thought_chars allowed s,
      keep_thought-accumulated allowed s,
      length-take (s.max_thought_chars - s.metrics.thought_chars) fragment,
    )
