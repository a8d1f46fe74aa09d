-- ===== src/Sanitizer/Transparent.antt =====
-- A stream that is not thinking and has no tag: all of it is shown.
use vibes.Common.{
  ℕ, ◌+◌, zero, suc, ◌≤◌, some, none, List, [], ◌∷◌, ◌++◌, ◌≡◌, ◌∙◌, sym, ap, subst, refl, false,
  arith, inl, inr, length, take, drop, ltb, take-append-drop, Bool-cases,
}
use mathlib.Core.List.{append_assoc, append-nil}
use vibes.Common.Texts.{Text, join, join_snoc, find}
use vibes.Sanitizer.{
  Sanitizer, SanitizerMetrics, emitting, Drained, StreamChunkResult, find_potential_prefix,
  accumulated_thoughts, emit_rest, consume_emitting, feed_loop, step, finish, feed, flush,
  flush_rest, feed_all, keep_fragment, conclude, init, sanitize_reasoning_stream,
}
use vibes.Sanitizer.Absent.{absent_in_prefix, absent_in_suffix}

-- What a sanitizer that has shown `shown` of the text `seen` looks like: the rest is in the buffer.
record Passes (open_tag close_tag : Text) (s : Sanitizer) (shown seen : Text) : Type 0 where
  open_tag_kept : s.open_tag ≡ open_tag
  close_tag_kept : s.close_tag ≡ close_tag
  still : s.state ≡ emitting
  unrecorded : accumulated_thoughts s ≡ []
  parts : shown ++ s.buffer ≡ seen

-- Neither tag occurs.
record Untagged (open_tag close_tag text : Text) : Type 0 where
  unopened : find text open_tag ≡ none
  unclosed : find text close_tag ≡ none

Untagged-suffix : (o c a b : Text) → Untagged o c (a ++ b) → Untagged o c b
Untagged-suffix o c a b u = record {
  unopened = absent_in_suffix a b o u.unopened;
  unclosed = absent_in_suffix a b c u.unclosed;
}

Untagged-prefix : (o c a b : Text) → Untagged o c (a ++ b) → Untagged o c a
Untagged-prefix o c a b u = record {
  unopened = absent_in_prefix a b o u.unopened;
  unclosed = absent_in_prefix a b c u.unclosed;
}

module _ (open_tag close_tag : Text) where
  emit_rest-Passes :
      (s : Sanitizer) (seen text : Text) (out : List Text)
      → Passes open_tag close_tag s seen seen
      → s.buffer ≡ []
      → Passes open_tag close_tag
          (emit_rest s text out).after
          (join (emit_rest s text out).out)
          (join out ++ text)
        × ((emit_rest s text out).text ≡ [])
  unfolding emit_rest
  emit_rest-Passes s seen text out p b =
      let cutoff = find_potential_prefix text s.open_tag in
      elim (Bool-cases (ltb cutoff (length text))) [
        | inl hold ↦ rw hold (
          record {
            open_tag_kept = p.open_tag_kept;
            close_tag_kept = p.close_tag_kept;
            still = p.still;
            unrecorded = p.unrecorded;
            parts =
                ap (λ t. t ++ drop cutoff text) (join_snoc out (take cutoff text))
                ∙ append_assoc (join out) (take cutoff text) (drop cutoff text)
                ∙ ap (join out ++◌) (take-append-drop cutoff text);
          },
          refl,
        )
        | inr pass ↦ rw pass (
          record {
            open_tag_kept = p.open_tag_kept;
            close_tag_kept = p.close_tag_kept;
            still = p.still;
            unrecorded = p.unrecorded;
            parts = ap (join (out ++ text ∷ []) ++◌) b ∙ append-nil _ ∙ join_snoc out text;
          },
          refl,
        )
      ]

  -- The loop of `feed` shows the text but for what it holds back.
  feed_loop-Passes :
      (n : ℕ) (s : Sanitizer) (seen text : Text)
      → Passes open_tag close_tag s seen seen
      → length text ≤ n
      → s.buffer ≡ []
      → Untagged open_tag close_tag text
      → (d : Drained) × (feed_loop n s text [] [] ≡ some d)
        × Passes open_tag close_tag d.after (join d.visible_out) text
  unfolding feed_loop step join consume_emitting
  feed_loop-Passes n s seen [] p le b u = (
    _,
    refl,
    record {
      open_tag_kept = p.open_tag_kept;
      close_tag_kept = p.close_tag_kept;
      still = p.still;
      unrecorded = p.unrecorded;
      parts = b;
    },
  )
  feed_loop-Passes zero s seen (x ∷ text) p le b u = absurd (omega arith)
  feed_loop-Passes (suc n) s seen (x ∷ text) p le b u =
      let c = emit_rest s (x ∷ text) [] in
      let (passes, over) = emit_rest-Passes s seen (x ∷ text) [] p b in
      let unopened : find (x ∷ text) s.open_tag ≡ none = rw p.open_tag_kept u.unopened in
      let unclosed : find (x ∷ text) s.close_tag ≡ none = rw p.close_tag_kept u.unclosed in
      let consumed : consume_emitting s (x ∷ text) [] ≡ c =
        rw (unopened, unclosed, consume_emitting) in
      (
        record { after = c.after; visible_out = c.out; thought_out = [] },
        ap (λ st. step st (feed_loop n) s (x ∷ text) [] []) p.still
            ∙ ap (λ c. feed_loop n c.after c.text c.out []) consumed
            ∙ ap (λ t. feed_loop n c.after t c.out []) over,
        passes,
      )

  feed-Passes :
      (s : Sanitizer) (shown seen chunk : Text)
      → Passes open_tag close_tag s shown seen
      → Untagged open_tag close_tag (seen ++ chunk)
      → (s' : Sanitizer) × (res : StreamChunkResult) × (feed s chunk ≡ some (s', res))
        × Passes open_tag close_tag s' (shown ++ res.visible_chunk) (seen ++ chunk)
  unfolding feed finish
  feed-Passes s shown seen [] p u = (
    s,
    _,
    refl,
    record {
      open_tag_kept = p.open_tag_kept;
      close_tag_kept = p.close_tag_kept;
      still = p.still;
      unrecorded = p.unrecorded;
      parts = ap (λ t. t ++ s.buffer) (append-nil shown) ∙ p.parts ∙ sym (append-nil seen);
    },
  )
  feed-Passes s shown seen (x ∷ chunk) p u =
      let text = s.buffer ++ x ∷ chunk in
      let s1 : Sanitizer = record s {
        buffer = [];
        metrics = record s.metrics {
          total_input_chars = s.metrics.total_input_chars + length (x ∷ chunk);
        };
      } in
      let split : shown ++ text ≡ seen ++ x ∷ chunk =
        sym (append_assoc shown s.buffer (x ∷ chunk)) ∙ ap (λ t. t ++ x ∷ chunk) p.parts in
      let (d, ran, q) =
        feed_loop-Passes (length text) s1 shown text
          (record {
            open_tag_kept = p.open_tag_kept;
            close_tag_kept = p.close_tag_kept;
            still = p.still;
            unrecorded = p.unrecorded;
            parts = append-nil shown;
          })
          (omega arith) refl
          (Untagged-suffix open_tag close_tag shown text
            (subst (Untagged open_tag close_tag) (sym split) u)) in
      (
        (finish d).0,
        (finish d).1,
        rw (ran, feed) refl,
        record {
          open_tag_kept = q.open_tag_kept;
          close_tag_kept = q.close_tag_kept;
          still = q.still;
          unrecorded = q.unrecorded;
          parts =
              append_assoc shown (join d.visible_out) d.after.buffer
              ∙ ap (shown ++◌) q.parts
              ∙ split;
        },
      )

  join-keep_fragment :
      (f : Text) (fragments : List Text) → join (keep_fragment f fragments) ≡ join fragments ++ f
  unfolding keep_fragment
  join-keep_fragment [] fragments = sym (append-nil (join fragments))
  join-keep_fragment (x ∷ f) fragments = join_snoc fragments (x ∷ f)

  feed_all-Passes :
      (s : Sanitizer) (seen : Text) (chunks fragments : List Text)
      → Passes open_tag close_tag s (join fragments) seen
      → Untagged open_tag close_tag (seen ++ join chunks)
      → (s' : Sanitizer) × (fragments' : List Text) × (feed_all s chunks fragments
          ≡ some (s', fragments'))
        × Passes open_tag close_tag s' (join fragments') (seen ++ join chunks)
  unfolding feed_all join
  feed_all-Passes s seen [] fragments p u =
      (s, fragments, refl, subst (Passes open_tag close_tag s _) (sym (append-nil seen)) p)
  feed_all-Passes s seen (chunk ∷ chunks) fragments p u =
      let split = append_assoc seen chunk (join chunks) in
      let u' = subst (Untagged open_tag close_tag) (sym split) u in
      let (s1, res, ran, q) =
        feed-Passes s (join fragments) seen chunk p
          (Untagged-prefix open_tag close_tag (seen ++ chunk) (join chunks) u') in
      let fragments1 = keep_fragment res.visible_chunk fragments in
      let (s', fragments', e, r) =
        feed_all-Passes s1 (seen ++ chunk) chunks fragments1
          (subst (λ t. Passes open_tag close_tag s1 t (seen ++ chunk))
            (sym (join-keep_fragment res.visible_chunk fragments)) q)
          u' in
      (s', fragments', rw (ran, feed_all) e, subst (Passes open_tag close_tag s' _) split r)

  flush-Passes :
      (s : Sanitizer) (shown seen : Text)
      → Passes open_tag close_tag s shown seen
      → (shown ++ (flush s).1.visible_chunk ≡ seen) × (accumulated_thoughts (flush s).0 ≡ [])
  unfolding flush flush_rest
  flush-Passes s shown seen p =
      subst
        (λ st.
          (shown ++ (flush_rest st (record s { buffer = [] }) s.buffer).1.visible_chunk ≡ seen)
          × (accumulated_thoughts (flush_rest st (record s { buffer = [] }) s.buffer).0 ≡ []))
        (sym p.still) (p.parts, p.unrecorded)

  -- A stream that does not start in a thought and has neither tag anywhere, however it is cut
  -- into chunks: `sanitize_reasoning_stream` returns, shows exactly the stream, and returns no
  -- thoughts.
  pub untagged_stream_is_shown :
      (chunks : List Text) (max_thought_chars : ℕ)
      → find (join chunks) open_tag ≡ none
      → find (join chunks) close_tag ≡ none
      → (m : SanitizerMetrics) × (sanitize_reasoning_stream chunks open_tag close_tag
            max_thought_chars false
          ≡ some (join chunks, [], m))
  unfolding sanitize_reasoning_stream conclude join
  untagged_stream_is_shown chunks most unopened unclosed =
      let s = init open_tag close_tag most false in
      let (s1, fragments, ran, p) =
        feed_all-Passes s [] chunks []
          (record {
            open_tag_kept = refl;
            close_tag_kept = refl;
            still = refl;
            unrecorded = refl;
            parts = refl;
          })
          (record { unopened = unopened; unclosed = unclosed }) in
      let (shown, unrecorded) = flush-Passes s1 (join fragments) (join chunks) p in
      (
        (flush s1).0.metrics,
        rw (
          ran,
          join-keep_fragment (flush s1).1.visible_chunk fragments,
          shown,
          unrecorded,
          sanitize_reasoning_stream,
        ),
      )
