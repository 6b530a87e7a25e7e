-- ===== src/Gateway/Retry/Delays.antt =====
-- The backoff of app/integrations/llm/client.py stays under its ceiling.
use newchanges.Base.{
  ℕ, zero, suc, ◌+◌, Option, none, some, All, All-append, Bool-cases, arith, inl, inr,
}
use newchanges.Base.Float.{Float, IsOrdered, ◌≼◌, min}
use newchanges.Gateway.Breaker.{CircuitBreaker, allow}
use newchanges.Gateway.Retry.{
  GatewayError, RetryPolicy, World, Trace, should_retry, attempt_loop, call, retry_delay, delay_for,
  delay_ceiling, rate_limit, gateway_error, timeout, unavailable, authentication, bad_request,
  response, circuit_open, capability,
}
use newchanges.Gateway.Retry.Attempts.{Outcome-cases, attempt_loop-retries, retried}

module _ {ℓ} {F : Type ℓ} ⦃f : Float F⦄ (o : IsOrdered F) {R : Type ℓ} (p : RetryPolicy F)
    (w : World F R) (below : (k : ℕ) (ceiling : F) → w.uniform k ceiling ≼ ceiling) where
  min-le_right : (a b : F) → min a b ≼ b
  min-le_right a b = ground (arith, o.lt-eq-not-le b a, o.le_total a b, o.le_refl b)

  ceiling-le : (a : ℕ) → w.uniform a (delay_ceiling p a) ≼ p.max_delay_seconds
  ceiling-le a = o.le_trans _ _ _ (below a (delay_ceiling p a)) (min-le_right _ _)

  retry_delay-le :
      (e : GatewayError F) (a : ℕ) → retry_delay p (w.uniform a) e a ≼ p.max_delay_seconds
  unfolding retry_delay delay_for
  retry_delay-le (rate_limit (some after)) a = min-le_right after p.max_delay_seconds
  retry_delay-le (rate_limit none) a = ceiling-le a
  retry_delay-le gateway_error a = ceiling-le a
  retry_delay-le timeout a = ceiling-le a
  retry_delay-le unavailable a = ceiling-le a
  retry_delay-le authentication a = ceiling-le a
  retry_delay-le bad_request a = ceiling-le a
  retry_delay-le response a = ceiling-le a
  retry_delay-le circuit_open a = ceiling-le a
  retry_delay-le capability a = ceiling-le a

  attempt_loop-sleeps :
      (n a : ℕ) (last : Option (GatewayError F)) (t : Trace F)
      → All (λ d. d ≼ p.max_delay_seconds) t.sleeps
      → All (λ d. d ≼ p.max_delay_seconds) (attempt_loop p w n a last t).1.sleeps
  unfolding attempt_loop
  attempt_loop-sleeps zero a last t h = h
  attempt_loop-sleeps (suc n) a last t h = elim (Outcome-cases (w.outcome a)) [
    | inl (r, e) ↦ rw (e, attempt_loop) h
    | inr (err, e) ↦ elim (Bool-cases (should_retry p w err a)) [
      | inl retry ↦ rw (attempt_loop-retries p w n a last t err e retry) (
          attempt_loop-sleeps n (a + 1) (some err) (retried p w err a t)
            (All-append _ t.sleeps _ h (retry_delay-le err a, tt)))
      | inr stop ↦ rw (e, attempt_loop) (rw stop h)
    ]
  ]

  -- Every sleep between two attempts is at most max_delay_seconds, whatever the provider asked for,
  -- when floats are ordered and the jitter returns at most its ceiling.
  pub call-sleeps :
      (asked : F) (b : CircuitBreaker F)
      → All (λ d. d ≼ p.max_delay_seconds) (call p w asked b).1.sleeps
  unfolding call
  call-sleeps asked b = elim (Bool-cases (allow asked b).0) [
    | inl admitted ↦ rw admitted (attempt_loop-sleeps p.max_attempts 1 none _ tt)
    | inr refused ↦ rw refused tt
  ]
