-- ===== src/Tests/Stream.antt =====
-- Runs of the sanitizer, on chunks as a model streams them.
use vibes.Common.{some, List, [], ◌∷◌, ◌≡◌, refl, true, false, arith, length, take}
use vibes.Common.Texts.{Text, codes, find, join}
use vibes.Sanitizer.{
  Sanitizer, SanitizerMetrics, StreamChunkResult, init, feed, sanitize_reasoning_stream,
}
use vibes.Sanitizer.Loop.{HasTags}
use vibes.Sanitizer.Accounting.{IsSound, Emits, feed-IsSound}
use vibes.Sanitizer.Stream.{Balances, stream-Balances}
use vibes.Sanitizer.Hidden.{unclosed_thought_is_hidden}
use vibes.Sanitizer.Transparent.{untagged_stream_is_shown}

abbrev open_tag : Text
open_tag = codes "<think>"

abbrev close_tag : Text
close_tag = codes "</think>"

-- The open tag is cut in two by the chunks.
abbrev cut_tag : List Text
cut_tag = codes "Sum: <th" ∷ codes "ink>2 and 2</think>4" ∷ []

stream-Balances_example :
    (visible : Text) × (thoughts : Text) × (m : SanitizerMetrics) × (sanitize_reasoning_stream
        cut_tag open_tag close_tag 5 false
      ≡ some (visible, thoughts, m))
    × Balances cut_tag open_tag close_tag 5 visible thoughts m
stream-Balances_example =
    stream-Balances cut_tag open_tag close_tag 5 false (omega arith) (omega arith)

abbrev endless : List Text
endless = codes "2 and 2 a" ∷ codes "re 4 </thi" ∷ []

unclosed_thought_is_hidden_example :
    (m : SanitizerMetrics) × (sanitize_reasoning_stream endless open_tag close_tag 4 true
      ≡ some ([], take 4 (join endless), m))
unfolding find join
unclosed_thought_is_hidden_example = unclosed_thought_is_hidden endless open_tag close_tag 4 refl

untagged_stream_is_shown_example :
    (m : SanitizerMetrics) × (sanitize_reasoning_stream endless open_tag close_tag 4 false
      ≡ some (join endless, [], m))
unfolding find join
untagged_stream_is_shown_example = untagged_stream_is_shown open_tag close_tag endless 4 refl refl

abbrev fresh : Sanitizer
fresh = init open_tag close_tag 5 false

fresh-IsSound : IsSound fresh
unfolding join
fresh-IsSound = record { ledger = omega arith; within = omega arith; tallied = refl }

fresh-HasTags : HasTags fresh
fresh-HasTags = record { opens = omega arith; closes = omega arith }

feed-IsSound_example :
    (s' : Sanitizer) × (res : StreamChunkResult) × (feed fresh (codes "Sum: <th") ≡ some (s', res))
    × IsSound s'
    × Emits fresh s' res (length (codes "Sum: <th"))
feed-IsSound_example = feed-IsSound fresh (codes "Sum: <th") fresh-HasTags fresh-IsSound

-- A sanitizer that is thinking and holds back the start of a close tag.
abbrev holding : Sanitizer
holding = record (init open_tag close_tag 5 true) {
  buffer = codes "</th";
  metrics = record (init open_tag close_tag 5 true).metrics { total_input_chars = 4 };
}

holding-IsSound : IsSound holding
unfolding join
holding-IsSound = record { ledger = omega arith; within = omega arith; tallied = refl }
