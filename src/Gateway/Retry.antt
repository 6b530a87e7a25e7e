-- ===== src/Gateway/Retry.antt =====
-- `RetryPolicy` and `ResilientGateway._call` of app/integrations/llm/client.py, with the errors of
-- app/integrations/llm/errors.py. What the provider, the clocks and the jitter do at each attempt
-- is the argument `World`.
pub mod Attempts
pub mod Delays
use newchanges.Base.{
  ℕ, zero, suc, ◌+◌, ◌-◌, ltb, leb, Bool, true, false, ◌&&◌, if◌then◌else◌, Option, none, some,
  String, List, [], ◌∷◌, ◌++◌,
}
use Prim.Native.Nat.{◌^◌}
use newchanges.Base.Float.{Float, min}
use newchanges.Gateway.Breaker.{CircuitBreaker, allow, record_success, record_failure}

pub data GatewayError {ℓ} (F : Type ℓ) : Type ℓ where
  gateway_error timeout unavailable authentication bad_request response : GatewayError F
  circuit_open capability : GatewayError F
  rate_limit : Option F → GatewayError F

module _ {ℓ} {F : Type ℓ} where
  -- the class attribute `retryable`
  abbrev pub retryable : GatewayError F → Bool
  retryable timeout = true
  retryable unavailable = true
  retryable (rate_limit _) = true
  retryable gateway_error = false
  retryable authentication = false
  retryable bad_request = false
  retryable response = false
  retryable circuit_open = false
  retryable capability = false

  -- the class attribute `code`
  abbrev pub error_code : GatewayError F → String
  error_code gateway_error = "model_gateway_error"
  error_code timeout = "model_gateway_timeout"
  error_code unavailable = "model_gateway_unavailable"
  error_code (rate_limit _) = "model_gateway_rate_limited"
  error_code authentication = "model_gateway_authentication_failed"
  error_code bad_request = "model_gateway_bad_request"
  error_code response = "model_gateway_invalid_response"
  error_code circuit_open = "model_gateway_circuit_open"
  error_code capability = "model_capability_unsupported"

module _ {ℓ} (F : Type ℓ) where
  pub record RetryPolicy : Type ℓ where
    pub max_attempts : ℕ
    pub base_delay_seconds : F
    pub max_delay_seconds : F
    pub max_elapsed_seconds : F

  pub data Outcome (R : Type ℓ) : Type ℓ where
    returned : R → Outcome R
    raised : GatewayError F → Outcome R

  -- What happens at the attempt of a number: the invocation's outcome, the seconds elapsed since
  -- the start when it has failed, the breaker's clock, and the jitter below a ceiling.
  pub record World (R : Type ℓ) : Type ℓ where
    pub outcome : ℕ → Outcome R
    pub elapsed : ℕ → F
    pub now : ℕ → F
    pub uniform : ℕ → F → F

-- `GatewayCallTelemetry`, by its deterministic fields
pub record Telemetry : Type 0 where
  pub succeeded : Bool
  pub attempts : ℕ
  pub retry_count : ℕ
  pub error_code : Option String
  pub was_circuit_open : Bool

abbrev pub telemetry : Bool → ℕ → Option String → Bool → Telemetry
telemetry succeeded attempts code is_open = record {
  succeeded = succeeded;
  attempts = attempts;
  retry_count = attempts - 1;
  error_code = code;
  was_circuit_open = is_open;
}

-- What a call has done: how often it invoked the provider, how long it slept before each retry,
-- what it emitted, and the breaker that it leaves.
pub record Trace {ℓ} (F : Type ℓ) : Type ℓ where
  pub invocations : ℕ
  pub sleeps : List F
  pub emitted : List Telemetry
  pub breaker : CircuitBreaker F

abbrev pub invoked {ℓ} : {F : Type ℓ} → Trace F → Trace F
invoked t = record t { invocations = t.invocations + 1 }

module _ {ℓ} {F : Type ℓ} ⦃f : Float F⦄ where
  -- the ceiling of `RetryPolicy.delay_for`, before the jitter
  abbrev pub delay_ceiling : RetryPolicy F → ℕ → F
  delay_ceiling p attempt =
      min (f.scale p.base_delay_seconds (2 ^ (attempt - 1))) p.max_delay_seconds

  unfoldable pub delay_for : RetryPolicy F → (F → F) → ℕ → F
  delay_for p uniform attempt = uniform (delay_ceiling p attempt)

  -- `_retry_delay`
  unfoldable pub retry_delay : RetryPolicy F → (F → F) → GatewayError F → ℕ → F
  unfolding delay_for
  retry_delay p uniform (rate_limit (some after)) attempt = min after p.max_delay_seconds
  retry_delay p uniform e attempt = delay_for p uniform attempt

  module _ {R : Type ℓ} (p : RetryPolicy F) (w : World F R) where
    abbrev pub should_retry : GatewayError F → ℕ → Bool
    should_retry e attempt =
        retryable e
        && (ltb attempt p.max_attempts && f.lt (w.elapsed attempt) p.max_elapsed_seconds)

    abbrev succeed : ℕ → R → Trace F → Outcome F R × Trace F
    succeed attempt r t = (
      returned r,
      record t {
        emitted = t.emitted ++ telemetry true attempt none false ∷ [];
        breaker = record_success t.breaker;
      },
    )

    abbrev give_up : ℕ → GatewayError F → Trace F → Outcome F R × Trace F
    give_up attempt e t = (
      raised e,
      record t {
        emitted = t.emitted ++ telemetry false attempt (some (error_code e)) false ∷ [];
        breaker = record_failure (w.now attempt) t.breaker;
      },
    )

    -- The loop, with the rounds left and the number of the attempt that comes next. The last
    -- clause is the `raise` below the loop.
    unfoldable pub attempt_loop : ℕ → ℕ → Option (GatewayError F) → Trace F → Outcome F R × Trace F
    unfolding retry_delay
    attempt_loop (suc rounds) attempt last t = elim (w.outcome attempt) [
      | returned r ↦ succeed attempt r (invoked t)
      | raised e ↦
          let again = attempt_loop rounds (attempt + 1) (some e) (record (invoked t) {
            sleeps = t.sleeps ++ retry_delay p (w.uniform attempt) e attempt ∷ [];
          }) in
          if should_retry e attempt then again else give_up attempt e (invoked t)
    ]
    attempt_loop zero attempt last t = (raised (elim last [ none ↦ gateway_error | some e ↦ e ]), t)

    -- `_call`, on a breaker, with the clock that `allow` reads
    unfoldable pub call : F → CircuitBreaker F → Outcome F R × Trace F
    unfolding attempt_loop
    call asked b =
        let (admitted, b') = allow asked b in
        if admitted
        then attempt_loop p.max_attempts 1 none
            (record { invocations = 0; sleeps = []; emitted = []; breaker = b' })
        else (
          raised circuit_open,
          record {
            invocations = 0;
            sleeps = [];
            emitted = telemetry false 0 (some (error_code {F = F} circuit_open)) true ∷ [];
            breaker = b';
          },
        )
