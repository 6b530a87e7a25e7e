-- ===== src/Gateway/Tests.antt =====
-- Runs of the gateway's retry loop and breaker over whole seconds, and their theorems at concrete
-- inputs.
use newchanges.Base.{ℕ, ◌+◌, leb, ◌≡◌, refl, false, if◌then◌else◌, [], ◌∷◌, none, some, arith}
use newchanges.Base.Sample.{nat_float}
use newchanges.Gateway.Breaker.{InMemoryCircuitBreaker, in_memory, allow, memory_allow}
use newchanges.Gateway.Breaker.Transitions.{
  IsValid, ask, succeed, fail, perform_all, perform_all-IsValid,
}
use newchanges.Gateway.Retry.{
  RetryPolicy, returned, raised, World, call, timeout, rate_limit, attempt_loop, retry_delay,
  delay_for,
}
use newchanges.Gateway.Retry.Attempts.{IsTraceOf, fresh, call-IsTraceOf}

abbrev closed_breaker : InMemoryCircuitBreaker ℕ
closed_breaker = record {
  failure_threshold = 3;
  reset_timeout = 30;
  consecutive_failures = 1;
  opened_at = none;
  is_half_open = false;
}

abbrev open_breaker : InMemoryCircuitBreaker ℕ
open_breaker = record closed_breaker { consecutive_failures = 3; opened_at = some 100 }

closed_breaker-IsValid : IsValid closed_breaker
closed_breaker-IsValid = record {
  threshold_pos = omega arith;
  half_open_opened = λ h. cc;
  closed_below = λ h. omega arith;
}

abbrev three_attempts : RetryPolicy ℕ
three_attempts = record {
  max_attempts = 3;
  base_delay_seconds = 1;
  max_delay_seconds = 5;
  max_elapsed_seconds = 60;
}

-- The provider times out, asks for a pause of 9 seconds, and then answers.
abbrev flaky : World ℕ ℕ
flaky = record {
  outcome = λ k.
      if leb k 1
      then raised timeout
      else if leb k 2
      then raised (rate_limit (some 9))
      else returned 42;
  elapsed = λ k. k;
  now = λ k. 200 + k;
  uniform = λ k ceiling. ceiling;
}

call-flaky :
    ((call three_attempts flaky 200 (in_memory closed_breaker)).0 ≡ returned 42)
    × ((call three_attempts flaky 200 (in_memory closed_breaker)).1.sleeps ≡ 1 ∷ 5 ∷ [])
unfolding call attempt_loop retry_delay delay_for allow memory_allow
call-flaky = (refl, refl)

perform_all-IsValid_example :
    IsValid (perform_all closed_breaker (fail 100 ∷ fail 110 ∷ ask 150 ∷ succeed ∷ []))
perform_all-IsValid_example =
    perform_all-IsValid closed_breaker (fail 100 ∷ fail 110 ∷ ask 150 ∷ succeed ∷ [])
      closed_breaker-IsValid

call-IsTraceOf_example :
    (k : ℕ) × IsTraceOf three_attempts flaky 1 k
      (call three_attempts flaky 200 (in_memory closed_breaker)).0
      (fresh (allow 200 (in_memory closed_breaker)).1)
      (call three_attempts flaky 200 (in_memory closed_breaker)).1
unfolding allow memory_allow
call-IsTraceOf_example =
    call-IsTraceOf three_attempts flaky 200 (in_memory closed_breaker) (omega arith) refl
