-- ===== src/Sanitizer/Hidden.antt =====
-- A stream that is thinking and has no close tag: all of it is hidden.
use vibes.Common.{
  ℕ, ◌+◌, some, none, List, [], ◌∷◌, ◌++◌, ◌≡◌, ◌∙◌, sym, ap, subst, refl, true, arith, length,
  take, take_nil,
}
use mathlib.Core.List.{append_assoc, append-nil}
use vibes.Common.Texts.{Text, join, find}
use vibes.Sanitizer.{
  Sanitizer, SanitizerMetrics, thinking, StreamChunkResult, accumulated_thoughts, finish, feed,
  flush, flush_rest, feed_all, keep_fragment, conclude, init, sanitize_reasoning_stream,
}
use vibes.Sanitizer.Absent.{absent_in_prefix, absent_in_suffix}
use vibes.Sanitizer.Hiding.{Hides, record_thought-recorded, feed_loop-Hides}

feed-Hides :
    (close_tag : Text) (max_thought_chars : ℕ) (s : Sanitizer) (seen chunk : Text)
    → Hides close_tag max_thought_chars s seen
    → find (seen ++ chunk) close_tag ≡ none
    → (s' : Sanitizer) × (res : StreamChunkResult) × (feed s chunk ≡ some (s', res))
      × Hides close_tag max_thought_chars s' (seen ++ chunk)
      × (res.visible_chunk ≡ [])
unfolding feed finish join
feed-Hides close_tag most s seen [] h absent =
    (s, _, refl, subst (Hides close_tag most s) (sym (append-nil seen)) h, refl)
feed-Hides close_tag most s seen (x ∷ chunk) h absent =
    let text = s.buffer ++ x ∷ chunk in
    let s1 : Sanitizer = record s {
      buffer = [];
      metrics = record s.metrics {
        total_input_chars = s.metrics.total_input_chars + length (x ∷ chunk);
      };
    } in
    let split : h.front ++ text ≡ seen ++ x ∷ chunk =
      sym (append_assoc h.front s.buffer (x ∷ chunk)) ∙ ap (λ t. t ++ x ∷ chunk) h.parts in
    let (d, ran, hides, unseen) =
      feed_loop-Hides close_tag most (length text) s1 h.front text
        (record {
          close_tag_kept = h.close_tag_kept;
          max_kept = h.max_kept;
          still = h.still;
          tallied = h.tallied;
          front = h.front;
          recorded = h.recorded;
          parts = append-nil h.front;
        })
        (omega arith) refl (absent_in_suffix h.front text close_tag (rw split absent)) in
    (
      (finish d).0,
      (finish d).1,
      rw (ran, feed) refl,
      record {
        close_tag_kept = hides.close_tag_kept;
        max_kept = hides.max_kept;
        still = hides.still;
        tallied = hides.tallied;
        front = hides.front;
        recorded = hides.recorded;
        parts = hides.parts ∙ split;
      },
      rw unseen refl,
    )

feed_all-Hides :
    (close_tag : Text) (max_thought_chars : ℕ) (s : Sanitizer) (seen : Text) (chunks : List Text)
    → Hides close_tag max_thought_chars s seen
    → find (seen ++ join chunks) close_tag ≡ none
    → (s' : Sanitizer) × (feed_all s chunks [] ≡ some (s', []))
      × Hides close_tag max_thought_chars s' (seen ++ join chunks)
unfolding feed_all join keep_fragment
feed_all-Hides close_tag most s seen [] h absent =
    (s, refl, subst (Hides close_tag most s) (sym (append-nil seen)) h)
feed_all-Hides close_tag most s seen (chunk ∷ chunks) h absent =
    let split = append_assoc seen chunk (join chunks) in
    let (s1, res, ran, h1, unseen) =
      feed-Hides close_tag most s seen chunk h
        (absent_in_prefix (seen ++ chunk) (join chunks) close_tag (rw split absent)) in
    let (s', e, h') =
      feed_all-Hides close_tag most s1 (seen ++ chunk) chunks h1 (rw split absent) in
    (s', rw (ran, unseen, feed_all) e, subst (Hides close_tag most s') split h')

flush_rest-recorded :
    (s : Sanitizer) (front rest : Text)
    → length (accumulated_thoughts s) ≡ s.metrics.thought_chars
    → accumulated_thoughts s ≡ take s.max_thought_chars front
    → ((flush_rest thinking s rest).1.visible_chunk ≡ [])
      × (accumulated_thoughts (flush_rest thinking s rest).0
          ≡ take s.max_thought_chars (front ++ rest))
unfolding flush_rest
flush_rest-recorded s front [] tallied recorded = (refl, rw (append-nil front) recorded)
flush_rest-recorded s front (c ∷ cs) tallied recorded =
    (refl, record_thought-recorded _ front (c ∷ cs) tallied recorded)

flush-Hides :
    (close_tag : Text) (max_thought_chars : ℕ) (s : Sanitizer) (seen : Text)
    → Hides close_tag max_thought_chars s seen
    → ((flush s).1.visible_chunk ≡ [])
      × (accumulated_thoughts (flush s).0 ≡ take max_thought_chars seen)
unfolding flush
flush-Hides close_tag most s seen h =
    let s0 = record s { buffer = [] } in
    subst
      (λ st.
        ((flush_rest st s0 s.buffer).1.visible_chunk ≡ [])
        × (accumulated_thoughts (flush_rest st s0 s.buffer).0 ≡ take most seen))
      (sym h.still)
      (
        (flush_rest-recorded s0 h.front s.buffer h.tallied (rw h.max_kept h.recorded)).0,
        (flush_rest-recorded s0 h.front s.buffer h.tallied (rw h.max_kept h.recorded)).1
            ∙ rw (h.max_kept, h.parts) refl,
      )

-- A stream that starts in a thought and has no close tag anywhere, however it is cut into chunks:
-- `sanitize_reasoning_stream` returns, shows nothing, and returns as thoughts as much of the
-- stream as the maximum allows.
pub unclosed_thought_is_hidden :
    (chunks : List Text) (open_tag close_tag : Text) (max_thought_chars : ℕ)
    → find (join chunks) close_tag ≡ none
    → (m : SanitizerMetrics) × (sanitize_reasoning_stream chunks open_tag close_tag
          max_thought_chars true
        ≡ some ([], take max_thought_chars (join chunks), m))
unfolding sanitize_reasoning_stream conclude keep_fragment join
unclosed_thought_is_hidden chunks open_tag close_tag most absent =
    let s = init open_tag close_tag most true in
    let (s1, ran, h) =
      feed_all-Hides close_tag most s [] chunks
        (record {
          close_tag_kept = refl;
          max_kept = refl;
          still = refl;
          tallied = refl;
          front = [];
          recorded = sym (take_nil most);
          parts = refl;
        })
        absent in
    let (unseen, recorded) = flush-Hides close_tag most s1 (join chunks) h in
    ((flush s1).0.metrics, rw (ran, unseen, recorded, sanitize_reasoning_stream))
