-- ===== src/Sanitizer/Accounting.antt =====
-- The books of a sanitizer: every input character is visible, thought, discarded, part of a tag or
-- still in the buffer, after every `feed` and `flush`.
use vibes.Common.{
  ℕ, ◌+◌, ◌≤◌, some, true, [], ◌∷◌, ◌++◌, ◌≡◌, refl, ap, arith, length, length-append, inl,
}
use vibes.Common.Texts.{Text, join}
use vibes.Sanitizer.{
  Sanitizer, ParserState, emitting, thinking, StreamChunkResult, Drained, finish, feed, flush,
  flush_rest, accumulated_thoughts,
}
use vibes.Sanitizer.Recording.{record_thought-SameElse, record_thought-Records}
use vibes.Sanitizer.Steps.{accounted, Steps, record_thought-accounted}
use vibes.Sanitizer.Loop.{HasTags, feed_loop-Steps}

pub record IsSound (s : Sanitizer) : Type 0 where
  pub ledger : s.metrics.total_input_chars ≡ accounted s + length s.buffer
  pub within : s.metrics.thought_chars ≤ s.max_thought_chars
  pub tallied : length (accumulated_thoughts s) ≡ s.metrics.thought_chars

-- What a call of `feed` or `flush` changes, `taken` being the number of characters it is given.
pub record Emits (s s' : Sanitizer) (res : StreamChunkResult) (taken : ℕ) : Type 0 where
  pub open_tag : s'.open_tag ≡ s.open_tag
  pub close_tag : s'.close_tag ≡ s.close_tag
  pub max_thought_chars : s'.max_thought_chars ≡ s.max_thought_chars
  pub input : s'.metrics.total_input_chars ≡ s.metrics.total_input_chars + taken
  pub visible : s'.metrics.visible_chars ≡ s.metrics.visible_chars + length res.visible_chunk

finish-IsSound :
    (s : Sanitizer) (text : Text) (d : Drained)
    → s.metrics.total_input_chars ≡ accounted s + length s.buffer + length text
    → s.metrics.thought_chars ≤ s.max_thought_chars
    → length (accumulated_thoughts s) ≡ s.metrics.thought_chars
    → Steps s d.after text [] (length (join [])) (length (join d.visible_out))
    → IsSound (finish d).0
unfolding finish join
finish-IsSound s text d ledger within tallied st = record {
  ledger = omega (arith, st.balance, st.total_input_chars);
  within = omega (arith, st.bounded within, st.max_thought_chars);
  tallied = omega (arith, st.tallied);
}

-- With tags that are not empty and books that balance, `feed` returns, the books balance
-- afterwards, the settings are unchanged, the input counter has grown by the length of the chunk
-- and the visible counter by the length of the visible chunk.
pub feed-IsSound :
    (s : Sanitizer) (chunk : Text)
    → HasTags s
    → IsSound s
    → (s' : Sanitizer) × (res : StreamChunkResult) × (feed s chunk ≡ some (s', res))
      × IsSound s'
      × Emits s s' res (length chunk)
unfolding feed join
feed-IsSound s [] tags sound = (s, _, refl, sound, ground arith)
feed-IsSound s (c ∷ chunk) tags sound =
    let text = s.buffer ++ c ∷ chunk in
    let s1 : Sanitizer = record s {
      buffer = [];
      metrics = record s.metrics {
        total_input_chars = s.metrics.total_input_chars + length (c ∷ chunk);
      };
    } in
    let long = length-append s.buffer (c ∷ chunk) in
    let (d, ran, st) =
      feed_loop-Steps (length text) s1 text [] [] (omega arith)
        (record { opens = tags.opens; closes = tags.closes }) (inl refl) in
    (
      (finish d).0,
      (finish d).1,
      rw (ran, feed),
      finish-IsSound s1 text d (omega (arith, sound.ledger)) sound.within sound.tallied st,
      unfold finish in
          record {
            open_tag = st.open_tag;
            close_tag = st.close_tag;
            max_thought_chars = st.max_thought_chars;
            input = st.total_input_chars;
            visible = omega (arith, st.visible_chars);
          },
    )

-- On books that balance, `flush` empties the buffer, the books balance afterwards, the settings
-- and the input counter are unchanged, and the visible counter has grown by the length of the
-- visible chunk.
pub flush-IsSound :
    (s : Sanitizer)
    → IsSound s
    → IsSound (flush s).0 × Emits s (flush s).0 (flush s).1 0 × ((flush s).0.buffer ≡ [])
unfolding flush
flush-IsSound s sound = flush_rest-IsSound s.state s.buffer refl
  where
    flush_rest-IsSound :
        (st : ParserState) (rest : Text)
        → s.buffer ≡ rest
        → IsSound (flush_rest st (record s { buffer = [] }) rest).0
          × Emits s
              (flush_rest st (record s { buffer = [] }) rest).0
              (flush_rest st (record s { buffer = [] }) rest).1
              0
          × ((flush_rest st (record s { buffer = [] }) rest).0.buffer ≡ [])
    flush_rest-IsSound emitting rest e = ground (arith, ap length e)
    flush_rest-IsSound thinking [] e = ground (arith, ap length e)
    flush_rest-IsSound thinking (c ∷ cs) e =
        let s' : Sanitizer = record s {
          buffer = [];
          metrics = record s.metrics { unclosed_stream = true };
        } in
        let same = record_thought-SameElse s' (c ∷ cs) in
        let r = record_thought-Records s' (c ∷ cs) in
        (
          record {
            ledger = omega (
              arith,
              record_thought-accounted s' _ (c ∷ cs) _ same r,
              sound.ledger,
              ap length e,
              ap length same.buffer,
              same.total_input_chars,
            );
            within = omega (arith, r.kept, r.capped, sound.within, same.max_thought_chars);
            tallied = omega (arith, r.kept, r.accumulated, sound.tallied);
          },
          record {
            open_tag = same.open_tag;
            close_tag = same.close_tag;
            max_thought_chars = same.max_thought_chars;
            input = omega (arith, same.total_input_chars);
            visible = omega (arith, same.visible_chars);
          },
          same.buffer,
        )
