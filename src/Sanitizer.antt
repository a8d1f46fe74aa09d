-- ===== src/Sanitizer.antt =====
-- examples/streaming-reasoning-sanitizer/sanitizer.py: the state of a sanitizer and its methods. A
-- method that changes the object returns the new record beside its result. Texts are lists of code
-- points. The loop of `feed` takes fuel; `none` means that the fuel ran out.
pub mod Recording
pub mod Steps
pub mod Loop
pub mod Accounting
pub mod Hiding
pub mod Hidden
pub mod Transparent
pub mod Stream
pub mod Absent
use vibes.Common.{
  ℕ, zero, suc, ◌+◌, ◌-◌, Bool, true, false, Option, none, some, List, [], ◌∷◌, ◌++◌, length, take,
  drop, min, ltb, if◌then◌else◌,
}
use vibes.Common.Texts.{Text, ends_with, find, join}

pub data ParserState : Type 0 where
  emitting thinking : ParserState

pub record StreamChunkResult : Type 0 where
  pub visible_chunk : Text
  pub thought_chunk : Text
  pub is_thinking : Bool

pub record SanitizerMetrics : Type 0 where
  pub total_input_chars : ℕ
  pub visible_chars : ℕ
  pub thought_chars : ℕ
  pub discarded_thought_chars : ℕ
  pub open_tags_detected : ℕ
  pub close_tags_detected : ℕ
  pub unclosed_stream : Bool
  pub unopened_close_tags : ℕ

abbrev pub no_metrics : SanitizerMetrics
no_metrics = record {
  total_input_chars = 0;
  visible_chars = 0;
  thought_chars = 0;
  discarded_thought_chars = 0;
  open_tags_detected = 0;
  close_tags_detected = 0;
  unclosed_stream = false;
  unopened_close_tags = 0;
}

pub record Sanitizer : Type 0 where
  pub open_tag : Text
  pub close_tag : Text
  pub max_thought_chars : ℕ
  pub state : ParserState
  pub buffer : Text
  pub collected_thoughts : List Text
  pub metrics : SanitizerMetrics

-- `__init__`
abbrev pub init : Text → Text → ℕ → Bool → Sanitizer
init open_tag close_tag max_thought_chars starts_thinking = record {
  open_tag = open_tag;
  close_tag = close_tag;
  max_thought_chars = max_thought_chars;
  state = if starts_thinking then thinking else emitting;
  buffer = [];
  collected_thoughts = [];
  metrics = no_metrics;
}

abbrev pub in_thought : ParserState → Bool
in_thought emitting = false
in_thought thinking = true

-- `is_thinking`
abbrev pub is_thinking : Sanitizer → Bool
is_thinking s = in_thought s.state

-- `get_accumulated_thoughts`
abbrev pub accumulated_thoughts : Sanitizer → Text
accumulated_thoughts s = join s.collected_thoughts

-- The loop of `_find_potential_prefix`, over the lengths that are left.
unfoldable pub prefix_from : ℕ → Text → Text → ℕ
prefix_from zero text tag = length text
prefix_from (suc n) text tag =
    let shorter = prefix_from n text tag in
    if ends_with text (take (suc n) tag) then length text - suc n else shorter

unfoldable pub find_potential_prefix : Text → Text → ℕ
unfolding prefix_from
find_potential_prefix text tag = prefix_from (min (length text) (length tag - 1)) text tag

-- `if allowed:` in `_record_thought`
keep_thought : Text → Sanitizer → Sanitizer
keep_thought [] s = s
keep_thought (c ∷ cs) s = record s {
  collected_thoughts = s.collected_thoughts ++ (c ∷ cs) ∷ [];
  metrics = record s.metrics { thought_chars = s.metrics.thought_chars + length (c ∷ cs) };
}

-- `_record_thought`: the new state, and the fragment that is allowed.
unfoldable pub record_thought : Sanitizer → Text → Sanitizer × Text
unfolding keep_thought
record_thought s fragment =
    let capacity = s.max_thought_chars - s.metrics.thought_chars in
    let allowed = take capacity fragment in
    let discarded = length fragment - length allowed in
    let s' = keep_thought allowed s in
    (
      (if ltb 0 discarded
          then record s' {
            metrics = record s'.metrics {
              discarded_thought_chars = s'.metrics.discarded_thought_chars + discarded;
            };
          }
          else s'),
      allowed,
    )

-- What a step of `feed` leaves: the state, the list that it appends to and the text to go on with.
pub record Consumed : Type 0 where
  pub after : Sanitizer
  pub out : List Text
  pub text : Text

-- The branches of `_consume_emitting`: an open tag at `idx`, a close tag at `closing`, and neither.
emit_to_open : Sanitizer → Text → List Text → ℕ → Consumed
emit_to_open s text out idx = record {
  after = record s {
    state = thinking;
    metrics = record s.metrics { open_tags_detected = s.metrics.open_tags_detected + 1 };
  };
  out = out ++ take idx text ∷ [];
  text = drop (idx + length s.open_tag) text;
}

emit_to_close : Sanitizer → Text → List Text → ℕ → Consumed
emit_to_close s text out closing = record {
  after = record s {
    metrics = record s.metrics { unopened_close_tags = s.metrics.unopened_close_tags + 1 };
  };
  out = out ++ take closing text ∷ [];
  text = drop (closing + length s.close_tag) text;
}

emit_rest : Sanitizer → Text → List Text → Consumed
emit_rest s text out =
    let cutoff = find_potential_prefix text s.open_tag in
    if ltb cutoff (length text)
    then record {
      after = record s { buffer = drop cutoff text };
      out = out ++ take cutoff text ∷ [];
      text = [];
    }
    else record { after = s; out = out ++ text ∷ []; text = [] }

-- `_consume_emitting`
pub consume_emitting : Sanitizer → Text → List Text → Consumed
consume_emitting s text out = elim (find text s.open_tag) [
  | some idx ↦ emit_to_open s text out idx
  | none ↦ elim (find text s.close_tag) [
    | some closing ↦ emit_to_close s text out closing
    | none ↦ emit_rest s text out
  ]
]

-- The ends of the branches of `_consume_thinking`, after the call of `_record_thought`.
think_to_close : Sanitizer × Text → Text → List Text → ℕ → Consumed
think_to_close (s, allowed) text out idx = record {
  after = record s {
    state = emitting;
    metrics = record s.metrics { close_tags_detected = s.metrics.close_tags_detected + 1 };
  };
  out = out ++ allowed ∷ [];
  text = drop (idx + length s.close_tag) text;
}

think_and_hold : Sanitizer × Text → Text → List Text → ℕ → Consumed
think_and_hold (s, allowed) text out cutoff = record {
  after = record s { buffer = drop cutoff text };
  out = out ++ allowed ∷ [];
  text = [];
}

think_all : Sanitizer × Text → List Text → Consumed
think_all (s, allowed) out = record { after = s; out = out ++ allowed ∷ []; text = [] }

-- `_consume_thinking`
pub consume_thinking : Sanitizer → Text → List Text → Consumed
consume_thinking s text out = elim (find text s.close_tag) [
  | some idx ↦ think_to_close (record_thought s (take idx text)) text out idx
  | none ↦
      let cutoff = find_potential_prefix text s.close_tag in
      if ltb cutoff (length text)
      then think_and_hold (record_thought s (take cutoff text)) text out cutoff
      else think_all (record_thought s text) out
]

-- What the loop of `feed` has when it ends.
pub record Drained : Type 0 where
  pub after : Sanitizer
  pub visible_out : List Text
  pub thought_out : List Text

-- The body of `while text:` in `feed`, by the state; it is passed the rest of the loop.
step :
    ParserState
    → (Sanitizer → Text → List Text → List Text → Option Drained)
    → Sanitizer
    → Text
    → List Text
    → List Text
    → Option Drained
step emitting loop s text visible thought =
    let c = consume_emitting s text visible in loop c.after c.text c.out thought
step thinking loop s text visible thought =
    let c = consume_thinking s text thought in loop c.after c.text visible c.out

pub feed_loop : ℕ → Sanitizer → Text → List Text → List Text → Option Drained
unfolding step
feed_loop n s [] visible thought =
    some (record { after = s; visible_out = visible; thought_out = thought })
feed_loop zero s (c ∷ text) visible thought = none
feed_loop (suc n) s (c ∷ text) visible thought =
    step s.state (feed_loop n) s (c ∷ text) visible thought

-- The end of `feed`: the visible characters are counted when the loop is over.
finish : Drained → Sanitizer × StreamChunkResult
finish d =
    let vis_str = join d.visible_out in
    let s = record d.after {
      metrics = record d.after.metrics {
        visible_chars = d.after.metrics.visible_chars + length vis_str;
      };
    } in
    (
      s,
      record {
        visible_chunk = vis_str;
        thought_chunk = join d.thought_out;
        is_thinking = is_thinking s;
      },
    )

-- `feed`, with the length of the text as the loop's fuel.
pub feed : Sanitizer → Text → Option (Sanitizer × StreamChunkResult)
unfolding feed_loop finish consume_emitting emit_to_open emit_to_close emit_rest consume_thinking
    think_to_close think_and_hold think_all
feed s [] = some (s, record { visible_chunk = []; thought_chunk = []; is_thinking = is_thinking s })
feed s (c ∷ chunk) =
    let text = s.buffer ++ c ∷ chunk in
    let s' = record s {
      buffer = [];
      metrics = record s.metrics {
        total_input_chars = s.metrics.total_input_chars + length (c ∷ chunk);
      };
    } in
    elim (feed_loop (length text) s' text [] []) [ none ↦ none | some d ↦ some (finish d) ]

-- The end of `flush`, on what was in the buffer.
flush_rest : ParserState → Sanitizer → Text → Sanitizer × StreamChunkResult
flush_rest thinking s remaining =
    let s' = record s { metrics = record s.metrics { unclosed_stream = true } } in
    elim remaining [
      | [] ↦ (s', record { visible_chunk = []; thought_chunk = []; is_thinking = true })
      | c ∷ cs ↦
          let (s'', fragment) = record_thought s' (c ∷ cs) in
          (s'', record { visible_chunk = []; thought_chunk = fragment; is_thinking = true })
    ]
flush_rest emitting s remaining = (
  record s {
    metrics = record s.metrics { visible_chars = s.metrics.visible_chars + length remaining };
  },
  record { visible_chunk = remaining; thought_chunk = []; is_thinking = false },
)

pub flush : Sanitizer → Sanitizer × StreamChunkResult
unfolding flush_rest
flush s = flush_rest s.state (record s { buffer = [] }) s.buffer

-- `if res.visible_chunk: visible_fragments.append(res.visible_chunk)`
keep_fragment : Text → List Text → List Text
keep_fragment [] fragments = fragments
keep_fragment (c ∷ cs) fragments = fragments ++ (c ∷ cs) ∷ []

-- The loop of `sanitize_reasoning_stream` over the chunks; it collects the visible fragments.
feed_all : Sanitizer → List Text → List Text → Option (Sanitizer × List Text)
feed_all s [] fragments = some (s, fragments)
feed_all s (chunk ∷ chunks) fragments = elim (feed s chunk) [
  | none ↦ none
  | some (s', res) ↦ feed_all s' chunks (keep_fragment res.visible_chunk fragments)
]

-- The end of `sanitize_reasoning_stream`, from the `flush`.
conclude : Sanitizer × List Text → Text × Text × SanitizerMetrics
conclude (s, fragments) =
    let (s', res) = flush s in
    (join (keep_fragment res.visible_chunk fragments), accumulated_thoughts s', s'.metrics)

pub sanitize_reasoning_stream :
    List Text → Text → Text → ℕ → Bool → Option (Text × Text × SanitizerMetrics)
unfolding feed_all keep_fragment conclude
sanitize_reasoning_stream chunks open_tag close_tag max_thought_chars starts_thinking =
    elim (feed_all (init open_tag close_tag max_thought_chars starts_thinking) chunks []) [
      | none ↦ none
      | some r ↦ some (conclude r)
    ]
