-- ===== src/Gateway/Breaker.antt =====
-- The circuit breakers of app/integrations/llm/client.py. The time that a method reads from the
-- clock is its argument.
pub mod Transitions
use newchanges.Base.{ℕ, suc, ◌+◌, leb, Bool, true, false, if◌then◌else◌, Option, none, some}
use newchanges.Base.Float.{Float}

pub data CircuitState : Type 0 where
  closed open_circuit half_open : CircuitState

pub record InMemoryCircuitBreaker {ℓ} (F : Type ℓ) : Type ℓ where
  pub failure_threshold : ℕ
  pub reset_timeout : F
  pub consecutive_failures : ℕ
  pub opened_at : Option F
  pub is_half_open : Bool

-- `NullCircuitBreaker` and `InMemoryCircuitBreaker`
pub data CircuitBreaker {ℓ} (F : Type ℓ) : Type ℓ where
  null_breaker : CircuitBreaker F
  in_memory : InMemoryCircuitBreaker F → CircuitBreaker F

module _ {ℓ} {F : Type ℓ} where
  -- `__init__`; `none` is the `ValueError`
  unfoldable pub make_breaker : ℕ → F → Option (InMemoryCircuitBreaker F)
  make_breaker threshold timeout =
      if leb 1 threshold
      then some (record {
        failure_threshold = threshold;
        reset_timeout = timeout;
        consecutive_failures = 0;
        opened_at = none;
        is_half_open = false;
      })
      else none

  unfoldable pub memory_state : InMemoryCircuitBreaker F → CircuitState
  memory_state b = elim b.opened_at [
    | none ↦ CircuitState.closed
    | some t ↦ if b.is_half_open then CircuitState.half_open else CircuitState.open_circuit
  ]

  unfoldable pub memory_success : InMemoryCircuitBreaker F → InMemoryCircuitBreaker F
  memory_success b = record b { consecutive_failures = 0; opened_at = none; is_half_open = false }

  unfoldable pub memory_failure : F → InMemoryCircuitBreaker F → InMemoryCircuitBreaker F
  memory_failure now b =
      let counted = record b { consecutive_failures = b.consecutive_failures + 1 } in
      if b.is_half_open
      then record counted { opened_at = some now; is_half_open = false }
      else if leb b.failure_threshold (b.consecutive_failures + 1)
      then record counted { opened_at = some now }
      else counted

module _ {ℓ} {F : Type ℓ} ⦃f : Float F⦄ where
  unfoldable pub memory_allow : F → InMemoryCircuitBreaker F → Bool × InMemoryCircuitBreaker F
  memory_allow now b = elim b.opened_at [
    | none ↦ (true, b)
    | some t ↦
        if f.le b.reset_timeout (f.sub now t)
        then (true, record b { is_half_open = true })
        else (false, b)
  ]

  unfoldable pub allow : F → CircuitBreaker F → Bool × CircuitBreaker F
  unfolding memory_allow
  allow now null_breaker = (true, null_breaker)
  allow now (in_memory b) = let (admitted, b') = memory_allow now b in (admitted, in_memory b')

  unfoldable pub record_success : CircuitBreaker F → CircuitBreaker F
  unfolding memory_success
  record_success null_breaker = null_breaker
  record_success (in_memory b) = in_memory (memory_success b)

  unfoldable pub record_failure : F → CircuitBreaker F → CircuitBreaker F
  unfolding memory_failure
  record_failure now null_breaker = null_breaker
  record_failure now (in_memory b) = in_memory (memory_failure now b)
