-- ===== src/Gateway.antt =====
-- The rate limited tool gateway, examples/fastmcp-token-bucket-gateway/gateway.py. Floating point
-- numbers are a type with its operations, a parameter; so are the readings of the clock, the random
-- draws, and the tools.
pub mod Retries
use vibes.Common.{
  ℕ, zero, suc, ◌+◌, ◌-◌, Bool, true, false, ◌&&◌, String, Option, none, some, List, [], ◌∷◌, ◌++◌,
  ◌==◌, if◌then◌else◌,
}
use vibes.Common.Dict.{Dict, get, put}

-- The operations of `float` that the code uses; `power` is `2**attempt`, `tenth` is 0.1.
pub record Floats (T : Type 0) : Type 0 where
  pub lt : T → T → Bool
  pub plus : T → T → T
  pub minus : T → T → T
  pub times : T → T → T
  pub over : T → T → T
  pub power : ℕ → T
  pub nought : T
  pub one : T
  pub tenth : T

pub record RateLimitConfig (T : Type 0) : Type 0 where
  pub tokens_per_second : T
  pub burst_capacity : T
  pub max_retries : ℕ
  pub base_backoff_seconds : T
  pub max_backoff_seconds : T

pub record GatewayTelemetry (T : Type 0) : Type 0 where
  pub total_requests : ℕ
  pub throttled_requests : ℕ
  pub total_wait_seconds : T
  pub successful_invocations : ℕ
  pub failed_invocations : ℕ

-- The fields of `TokenBucket` that change.
pub record TokenBucket (T : Type 0) : Type 0 where
  pub tokens : T
  pub last_refill : T

-- What one call of a tool ends in: a value, `RateLimitExceededException` with its `retry_after`, or
-- another exception.
pub data Outcome (T A E : Type 0) : Type 0 where
  value : A → Outcome T A E
  limited : Option T → Outcome T A E
  failed : E → Outcome T A E

-- What the gateway's own methods end in.
pub data Result (T A E : Type 0) : Type 0 where
  returned : A → Result T A E
  limit_raised : Option T → Result T A E
  raised : E → Result T A E
  unresolved : Result T A E
  unregistered : String → Result T A E

-- The gateway, with the durations that it slept between two attempts, in order.
pub record FastMcpGateway (T A E : Type 0) : Type 0 where
  pub limiter : TokenBucket T
  pub telemetry : GatewayTelemetry T
  pub tools : Dict (ℕ → Outcome T A E)
  pub slept : List T

module _ {T : Type 0} (floats : Floats T) (config : RateLimitConfig T) where
  open floats use {lt, plus, minus, times, over, power, nought, one, tenth}

  -- `min(a, b)`
  abbrev least : T → T → T
  least a b = if lt b a then b else a

  unfoldable pub refill : T → TokenBucket T → TokenBucket T
  refill now bucket =
      let refill_amount = times (minus now bucket.last_refill) config.tokens_per_second in
      record {
        tokens = least config.burst_capacity (plus bucket.tokens refill_amount);
        last_refill = now;
      }

  -- The loop of `acquire` after the first refill, for the later readings of the clock; `none` if it
  -- still waits at the last of them.
  unfoldable pub acquire_loop : T → T → List T → TokenBucket T → Option (TokenBucket T × T)
  unfolding refill
  acquire_loop needed wait_duration [] bucket =
      if lt bucket.tokens needed
      then none
      else some (record bucket { tokens = minus bucket.tokens needed }, wait_duration)
  acquire_loop needed wait_duration (now ∷ readings) bucket =
      let sleep_time = over (minus needed bucket.tokens) config.tokens_per_second in
      let later =
        acquire_loop needed (plus wait_duration sleep_time) readings (refill now bucket) in
      if lt bucket.tokens needed
      then later
      else some (record bucket { tokens = minus bucket.tokens needed }, wait_duration)

  unfoldable pub acquire : T → List T → TokenBucket T → Option (TokenBucket T × T)
  unfolding acquire_loop refill
  acquire needed [] bucket = none
  acquire needed (now ∷ readings) bucket = acquire_loop needed nought readings (refill now bucket)

  -- `uniform` is `random.uniform`.
  unfoldable pub calculate_jittered_backoff : (T → T → T) → ℕ → Option T → T
  calculate_jittered_backoff uniform attempt retry_after =
      let raw_backoff = times config.base_backoff_seconds (power attempt) in
      let capped_backoff = least config.max_backoff_seconds raw_backoff in
      let jittered = uniform tenth capped_backoff in
      elim retry_after [
        | none ↦ jittered
        | some after ↦ if lt nought after then after else jittered
      ]

  -- The count of a wait that was needed.
  abbrev throttled : T → GatewayTelemetry T → GatewayTelemetry T
  throttled wait_time telemetry =
      if lt nought wait_time
      then record telemetry {
        throttled_requests = telemetry.throttled_requests + 1;
        total_wait_seconds = plus telemetry.total_wait_seconds wait_time;
      }
      else telemetry

  -- The draws of `random.uniform`, by the attempt that they are for.
  module _ {A E : Type 0} (uniform : ℕ → T → T → T) where
    -- `_handle_rate_limit_retry`: the exception again, or a sleep.
    unfoldable pub handle_rate_limit_retry :
        FastMcpGateway T A E → ℕ → Option T → FastMcpGateway T A E × Option (Result T A E)
    unfolding calculate_jittered_backoff
    handle_rate_limit_retry gateway attempt retry_after =
        let telemetry = gateway.telemetry in
        let sleep_duration = calculate_jittered_backoff (uniform attempt) attempt retry_after in
        if attempt + 1 == config.max_retries
        then (
          record gateway {
            telemetry = record telemetry { failed_invocations = telemetry.failed_invocations + 1 };
          },
          some (limit_raised retry_after),
        )
        else (record gateway { slept = gateway.slept ++ sleep_duration ∷ [] }, none)

    -- `_attempt_invoke`, with `none` where it returns False.
    unfoldable pub attempt_invoke :
        FastMcpGateway T A E
        → (ℕ → Outcome T A E)
        → ℕ
        → FastMcpGateway T A E × Option (Result T A E)
    unfolding handle_rate_limit_retry
    attempt_invoke gateway handler attempt =
        let telemetry = gateway.telemetry in
        elim (handler attempt) [
          | value result ↦ (
            record gateway {
              telemetry = record telemetry {
                successful_invocations = telemetry.successful_invocations + 1;
              };
            },
            some (returned result),
          )
          | limited retry_after ↦ handle_rate_limit_retry gateway attempt retry_after
          | failed error ↦ (gateway, some (raised error))
        ]

    -- The attempts that are left, from the attempt `attempt` on.
    unfoldable pub attempts :
        ℕ → ℕ → FastMcpGateway T A E → (ℕ → Outcome T A E) → FastMcpGateway T A E × Result T A E
    unfolding attempt_invoke
    attempts zero attempt gateway handler = (gateway, unresolved)
    attempts (suc left) attempt gateway handler =
        let (gateway', ended) = attempt_invoke gateway handler attempt in
        elim ended [
          | some result ↦ (gateway', result)
          | none ↦ attempts left (attempt + 1) gateway' handler
        ]

    unfoldable pub invoke_with_backoff :
        FastMcpGateway T A E → (ℕ → Outcome T A E) → FastMcpGateway T A E × Result T A E
    unfolding attempts
    invoke_with_backoff gateway handler = attempts config.max_retries 0 gateway handler

    unfoldable pub register_tool :
        FastMcpGateway T A E → String → (ℕ → Outcome T A E) → FastMcpGateway T A E
    unfolding put
    register_tool gateway name handler = record gateway { tools = put gateway.tools name handler }

    -- For the readings of the clock; `none` if the bucket still waits at the last of them.
    unfoldable pub execute_tool :
        List T → FastMcpGateway T A E → String → Option (FastMcpGateway T A E × Result T A E)
    unfolding get acquire invoke_with_backoff
    execute_tool readings gateway tool_name = elim (get gateway.tools tool_name) [
      | none ↦ some (gateway, unregistered tool_name)
      | some handler ↦
          let requested = record gateway.telemetry {
            total_requests = gateway.telemetry.total_requests + 1;
          } in
          elim (acquire one readings gateway.limiter) [
            | none ↦ none
            | some (limiter, wait_time) ↦
                let telemetry = throttled wait_time requested in
                some (
                  invoke_with_backoff (record gateway { limiter = limiter; telemetry = telemetry })
                    handler)
          ]
    ]
