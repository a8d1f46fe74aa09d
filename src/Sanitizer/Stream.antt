-- ===== src/Sanitizer/Stream.antt =====
-- `sanitize_reasoning_stream`: the whole stream, whatever its chunks.
use vibes.Common.{
  ap, ℕ, ◌+◌, ◌*◌, ◌≤◌, ◌<◌, some, List, [], ◌∷◌, ◌≡◌, ◌∙◌, refl, Bool, arith, length,
  length-append,
}
use vibes.Common.Texts.{Text, join, length-join_snoc}
use vibes.Sanitizer.{
  Sanitizer, SanitizerMetrics, flush, feed_all, keep_fragment, conclude, init,
  sanitize_reasoning_stream,
}
use vibes.Sanitizer.Loop.{HasTags}
use vibes.Sanitizer.Accounting.{IsSound, feed-IsSound, flush-IsSound}

length-join-keep_fragment :
    (f : Text) (fragments : List Text)
    → length (join (keep_fragment f fragments)) ≡ length (join fragments) + length f
unfolding keep_fragment
length-join-keep_fragment [] fragments = omega arith
length-join-keep_fragment (c ∷ cs) fragments = length-join_snoc fragments (c ∷ cs)

-- What the loop over the chunks keeps.
record Collects (s s' : Sanitizer) (fragments : List Text) (taken : ℕ) : Type 0 where
  sound : IsSound s'
  open_tag : s'.open_tag ≡ s.open_tag
  close_tag : s'.close_tag ≡ s.close_tag
  max_thought_chars : s'.max_thought_chars ≡ s.max_thought_chars
  input : s'.metrics.total_input_chars ≡ s.metrics.total_input_chars + taken
  shown : length (join fragments) ≡ s'.metrics.visible_chars

feed_all-Collects :
    (s : Sanitizer) (chunks fragments : List Text)
    → HasTags s
    → IsSound s
    → length (join fragments) ≡ s.metrics.visible_chars
    → (s' : Sanitizer) × (fragments' : List Text) × (feed_all s chunks fragments
        ≡ some (s', fragments'))
      × Collects s s' fragments' (length (join chunks))
unfolding feed_all join
feed_all-Collects s [] fragments tags sound shown = (s, fragments, refl, ground arith)
feed_all-Collects s (chunk ∷ chunks) fragments tags sound shown =
    let (s1, res, ran, sound1, did) = feed-IsSound s chunk tags sound in
    let (s', fragments', e, rest) =
      feed_all-Collects s1 chunks (keep_fragment res.visible_chunk fragments)
        (record { opens = rw did.open_tag tags.opens; closes = rw did.close_tag tags.closes })
        sound1
        (omega (arith, length-join-keep_fragment res.visible_chunk fragments, did.visible)) in
    (
      s',
      fragments',
      rw (ran, feed_all) e,
      record {
        sound = rest.sound;
        open_tag = rest.open_tag ∙ did.open_tag;
        close_tag = rest.close_tag ∙ did.close_tag;
        max_thought_chars = rest.max_thought_chars ∙ did.max_thought_chars;
        input = omega (arith, rest.input, did.input, length-append chunk (join chunks));
        shown = rest.shown;
      },
    )

-- The books of a whole stream.
pub record Balances (chunks : List Text) (open_tag close_tag : Text) (max_thought_chars : ℕ)
    (visible thoughts : Text) (m : SanitizerMetrics) : Type 0 where
  pub input : m.total_input_chars ≡ length (join chunks)
  pub shown : m.visible_chars ≡ length visible
  pub kept : m.thought_chars ≡ length thoughts
  pub capped : length thoughts ≤ max_thought_chars
  pub balance :
      length (join chunks)
      ≡ length visible
        + length thoughts
        + m.discarded_thought_chars
        + length open_tag * m.open_tags_detected
        + length close_tag * m.close_tags_detected
        + length close_tag * m.unopened_close_tags

-- For all chunks, any two tags that are not empty, any maximum and either start,
-- `sanitize_reasoning_stream` returns, and its books balance: every input character is visible, a
-- thought, discarded or part of a counted tag, the counters of the metrics are the lengths of the
-- texts that it returns, and the thoughts are no longer than the maximum.
pub stream-Balances :
    (chunks : List Text) (open_tag close_tag : Text) (max_thought_chars : ℕ)
    (starts_thinking : Bool)
    → 0 < length open_tag
    → 0 < length close_tag
    → (visible : Text) × (thoughts : Text) × (m : SanitizerMetrics) × (sanitize_reasoning_stream
          chunks open_tag close_tag max_thought_chars starts_thinking
        ≡ some (visible, thoughts, m))
      × Balances chunks open_tag close_tag max_thought_chars visible thoughts m
unfolding sanitize_reasoning_stream conclude join
stream-Balances chunks open_tag close_tag max_thought_chars starts_thinking ho hc =
    let s = init open_tag close_tag max_thought_chars starts_thinking in
    let (s1, fragments, ran, got) =
      feed_all-Collects s chunks [] (record { opens = ho; closes = hc })
        (record { ledger = omega arith; within = omega arith; tallied = omega arith }) refl in
    let (sound, did, empty) = flush-IsSound s1 got.sound in
    let s' = (flush s1).0 in
    let o = did.open_tag ∙ got.open_tag in
    let c = did.close_tag ∙ got.close_tag in
    let opened : length s'.open_tag * s'.metrics.open_tags_detected
        ≡ length open_tag * s'.metrics.open_tags_detected =
      ap (λ t. length t * s'.metrics.open_tags_detected) o in
    let closed : length s'.close_tag * s'.metrics.close_tags_detected
        ≡ length close_tag * s'.metrics.close_tags_detected =
      ap (λ t. length t * s'.metrics.close_tags_detected) c in
    let unopened : length s'.close_tag * s'.metrics.unopened_close_tags
        ≡ length close_tag * s'.metrics.unopened_close_tags =
      ap (λ t. length t * s'.metrics.unopened_close_tags) c in
    let visible = length-join-keep_fragment (flush s1).1.visible_chunk fragments in
    (
      (conclude (s1, fragments)).0,
      (conclude (s1, fragments)).1,
      (conclude (s1, fragments)).2,
      rw (ran, sanitize_reasoning_stream),
      record {
        input = omega (arith, got.input, did.input);
        shown = omega (arith, visible, got.shown, did.visible);
        kept = omega (arith, sound.tallied);
        capped =
            omega
              (arith, sound.within, sound.tallied, did.max_thought_chars, got.max_thought_chars);
        balance = omega (
          arith,
          opened,
          closed,
          unopened,
          sound.ledger,
          sound.tallied,
          ap length empty,
          got.input,
          did.input,
          visible,
          got.shown,
          did.visible,
        );
      },
    )
