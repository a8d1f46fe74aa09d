-- ===== src/Gateway/Retries.antt =====
-- The retries of examples/fastmcp-token-bucket-gateway/gateway.py.
use vibes.Common.{
  ℕ, zero, suc, ◌+◌, ◌<◌, true, false, Option, none, some, List, [], ◌∷◌, ◌++◌, ◌≡◌, refl, sym, ap,
  ◌∙◌, ◌==◌, arith,
}
use mathlib.Core.List.{append_assoc, append-nil}
use vibes.Gateway.{
  Floats, RateLimitConfig, GatewayTelemetry, FastMcpGateway, Outcome, value, limited, failed,
  Result, returned, limit_raised, calculate_jittered_backoff, handle_rate_limit_retry,
  attempt_invoke, attempts, invoke_with_backoff,
}

module _ {T A E : Type 0} where
  -- The calls of the attempts from `attempt` on, `k` of them, are all refused.
  abbrev pub AllLimited : (ℕ → Outcome T A E) → ℕ → ℕ → Type 0
  AllLimited handler attempt zero = Unit {0}
  AllLimited handler attempt (suc k) =
      ((after : Option T) × (handler attempt ≡ limited after)) × AllLimited handler (attempt + 1) k

  -- The `retry_after` of a refusal.
  abbrev pub after_of : Outcome T A E → Option T
  after_of (value a) = none
  after_of (limited after) = after
  after_of (failed error) = none

abbrev pub succeeded : {T : Type 0} → GatewayTelemetry T → GatewayTelemetry T
succeeded t = record t { successful_invocations = t.successful_invocations + 1 }

abbrev pub gave_up : {T : Type 0} → GatewayTelemetry T → GatewayTelemetry T
gave_up t = record t { failed_invocations = t.failed_invocations + 1 }

module _ {T A E : Type 0} (floats : Floats T) (config : RateLimitConfig T) (uniform : ℕ → T → T → T)
    (handler : ℕ → Outcome T A E) where
  -- The pauses after the attempts from `attempt` on, `k` of them.
  abbrev pub pauses : ℕ → ℕ → List T
  pauses attempt zero = []
  pauses attempt (suc k) =
      calculate_jittered_backoff floats config (uniform attempt) attempt
        (after_of (handler attempt))
      ∷ pauses (attempt + 1) k

  -- The gateway after pauses, with this telemetry.
  abbrev pub after_pauses : FastMcpGateway T A E → ℕ → ℕ → GatewayTelemetry T → FastMcpGateway T A E
  after_pauses gateway attempt k t = record gateway {
    telemetry = t;
    slept = gateway.slept ++ pauses attempt k;
  }

  -- The gateway after the last refusal, with these pauses in all.
  abbrev given_up : FastMcpGateway T A E → List T → FastMcpGateway T A E
  given_up gateway s = record gateway { telemetry = gave_up gateway.telemetry; slept = s }

  attempt_invoke_paused :
      (gateway : FastMcpGateway T A E) (attempt : ℕ) (after : Option T)
      → handler attempt ≡ limited after
      → (attempt + 1 == config.max_retries) ≡ false
      → attempt_invoke floats config uniform gateway handler attempt
        ≡ (after_pauses gateway attempt 1 gateway.telemetry, none)
  unfolding attempt_invoke handle_rate_limit_retry
  attempt_invoke_paused gateway attempt after h more = rw (h, attempt_invoke) (rw more refl)

  attempt_invoke_value :
      (gateway : FastMcpGateway T A E) (attempt : ℕ) {a : A}
      → handler attempt ≡ value a
      → attempt_invoke floats config uniform gateway handler attempt
        ≡ (record gateway { telemetry = succeeded gateway.telemetry }, some (returned a))
  unfolding attempt_invoke
  attempt_invoke_value gateway attempt h = rw (h, attempt_invoke) refl

  attempt_invoke_last :
      (gateway : FastMcpGateway T A E) (attempt : ℕ) (after : Option T)
      → handler attempt ≡ limited after
      → (attempt + 1 == config.max_retries) ≡ true
      → attempt_invoke floats config uniform gateway handler attempt
        ≡ (record gateway { telemetry = gave_up gateway.telemetry }, some (limit_raised after))
  unfolding attempt_invoke handle_rate_limit_retry
  attempt_invoke_last gateway attempt after h end = rw (h, attempt_invoke) (rw end refl)

  -- What `attempts` makes of an attempt.
  abbrev go_on :
      ℕ → ℕ → FastMcpGateway T A E × Option (Result T A E) → FastMcpGateway T A E × Result T A E
  go_on left attempt step = elim (step.1) [
    | some result ↦ (step.0, result)
    | none ↦ attempts floats config uniform left (attempt + 1) step.0 handler
  ]

  attempts_recover :
      (k left attempt : ℕ) (gateway : FastMcpGateway T A E) {a : A}
      → attempt + left ≡ config.max_retries
      → k < left
      → AllLimited handler attempt k
      → handler (attempt + k) ≡ value a
      → attempts floats config uniform left attempt gateway handler
        ≡ (after_pauses gateway attempt k (succeeded gateway.telemetry), returned a)
  unfolding attempts
  attempts_recover k zero attempt gateway e room h last = absurd (omega arith)
  attempts_recover zero (suc left) attempt gateway {a} e room h last =
      let now : handler attempt ≡ value a =
        ap handler {x = attempt} {y = attempt + 0} (omega arith) ∙ last in
      ap (go_on left attempt) (attempt_invoke_value gateway attempt now)
      ∙ ap
          (λ s. (record gateway { telemetry = succeeded gateway.telemetry; slept = s }, returned a))
          (sym (append-nil gateway.slept))
  attempts_recover (suc k) (suc left) attempt gateway {a} e room ((after, refused), h) last =
      let more : (attempt + 1 == config.max_retries) ≡ false = ground arith in
      let paused = attempt_invoke_paused gateway attempt after refused more in
      let later =
        attempts_recover k left (attempt + 1) (after_pauses gateway attempt 1 gateway.telemetry)
          (omega arith) (omega arith) h
          (ap handler {x = attempt + 1 + k} {y = attempt + suc k} (omega arith) ∙ last) in
      ap (go_on left attempt) paused
      ∙ later
      ∙ ap
          (λ s. (record gateway { telemetry = succeeded gateway.telemetry; slept = s }, returned a))
          (append_assoc gateway.slept (pauses attempt 1) (pauses (attempt + 1) k))

  attempts_exhausted :
      (k attempt : ℕ) (gateway : FastMcpGateway T A E)
      → attempt + suc k ≡ config.max_retries
      → AllLimited handler attempt (suc k)
      → attempts floats config uniform (suc k) attempt gateway handler ≡ (
        after_pauses gateway attempt k (gave_up gateway.telemetry),
        limit_raised (after_of (handler (attempt + k))),
      )
  unfolding attempts
  attempts_exhausted zero attempt gateway e ((after, refused), h) =
      let end : (attempt + 1 == config.max_retries) ≡ true = ground arith in
      let same : after ≡ after_of (handler (attempt + 0)) =
        ap after_of (sym refused)
        ∙ ap (λ i. after_of (handler i)) {x = attempt} {y = attempt + 0} (omega arith) in
      ap (go_on 0 attempt) (attempt_invoke_last gateway attempt after refused end)
      ∙ ap (λ s. (given_up gateway s, limit_raised after)) (sym (append-nil gateway.slept))
      ∙ ap (λ a. (given_up gateway (gateway.slept ++ []), limit_raised a)) same
  attempts_exhausted (suc k) attempt gateway e ((after, refused), h) =
      let more : (attempt + 1 == config.max_retries) ≡ false = ground arith in
      let paused = attempt_invoke_paused gateway attempt after refused more in
      let later =
        attempts_exhausted k (attempt + 1) (after_pauses gateway attempt 1 gateway.telemetry)
          (omega arith) h in
      let slept : List T = gateway.slept ++ pauses attempt (suc k) in
      ap (go_on (suc k) attempt) paused
      ∙ later
      ∙ ap (λ s. (given_up gateway s, limit_raised (after_of (handler (attempt + 1 + k)))))
          (append_assoc gateway.slept (pauses attempt 1) (pauses (attempt + 1) k))
      ∙ ap (λ i. (given_up gateway slept, limit_raised (after_of (handler i))))
          {x = attempt + 1 + k} {y = attempt + suc k} (omega arith)

  -- When the first `k` calls of the tool are refused by the rate limit, `k` is less than
  -- `max_retries`, and the next call has a value, `_invoke_with_backoff` returns that value, has
  -- counted one success and no failure, and has slept `k` times, each time as long as
  -- `_calculate_jittered_backoff` says for that attempt and its Retry-After.
  pub invoke_with_backoff_recovers :
      (k : ℕ) (gateway : FastMcpGateway T A E) {a : A}
      → k < config.max_retries
      → AllLimited handler 0 k
      → handler k ≡ value a
      → invoke_with_backoff floats config uniform gateway handler ≡ (
        record gateway {
          telemetry = succeeded gateway.telemetry;
          slept = gateway.slept ++ pauses 0 k;
        },
        returned a,
      )
  unfolding invoke_with_backoff
  invoke_with_backoff_recovers k gateway room h last =
      attempts_recover k config.max_retries 0 gateway (omega arith) room h
        (ap handler {x = 0 + k} {y = k} (omega arith) ∙ last)

  -- When each of the `max_retries` calls, one at least, is refused by the rate limit,
  -- `_invoke_with_backoff` raises the last refusal again, has counted one failure and no success,
  -- and has slept between the calls as `_calculate_jittered_backoff` says.
  pub invoke_with_backoff_gives_up :
      (k : ℕ) (gateway : FastMcpGateway T A E)
      → suc k ≡ config.max_retries
      → AllLimited handler 0 (suc k)
      → invoke_with_backoff floats config uniform gateway handler ≡ (
        record gateway {
          telemetry = gave_up gateway.telemetry;
          slept = gateway.slept ++ pauses 0 k;
        },
        limit_raised (after_of (handler k)),
      )
  unfolding invoke_with_backoff
  invoke_with_backoff_gives_up k gateway e h =
      ap (λ left. attempts floats config uniform left 0 gateway handler) (sym e)
      ∙ attempts_exhausted k 0 gateway (omega arith) h
      ∙ ap
          (λ i.
            (given_up gateway (gateway.slept ++ pauses 0 k), limit_raised (after_of (handler i))))
          {x = 0 + k} {y = k} (omega arith)
