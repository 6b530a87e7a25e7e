-- ===== src/Gateway/Retry/Attempts.antt =====
-- `_call` against a relation that says what a run of attempts is.
use newchanges.Base.{
  ℕ, zero, suc, ◌+◌, ◌-◌, ◌≤◌, true, false, Option, none, some, [], ◌∷◌, ◌++◌, length,
  length-append, Bool-cases, ◌≡◌, refl, sym, arith, ◌⊎◌, inl, inr,
}
use mathlib.Core.Path.{subst}
use newchanges.Base.Float.{Float}
use newchanges.Gateway.Breaker.{CircuitBreaker, allow, record_success, record_failure}
use newchanges.Gateway.Retry.{
  GatewayError, RetryPolicy, Outcome, returned, raised, World, Trace, Telemetry, should_retry,
  attempt_loop, call, retry_delay, invoked, telemetry, error_code,
}

pub Outcome-cases {ℓ} :
    {F R : Type ℓ} (o : Outcome F R)
    → ((r : R) × (o ≡ returned r)) ⊎ ((e : GatewayError F) × (o ≡ raised e))
Outcome-cases (returned r) = inl (r, refl)
Outcome-cases (raised e) = inr (e, refl)

-- a trace in which nothing has happened yet
abbrev pub fresh {ℓ} : {F : Type ℓ} → CircuitBreaker F → Trace F
fresh b = record { invocations = 0; sleeps = []; emitted = []; breaker = b }

module _ {ℓ} {F : Type ℓ} ⦃f : Float F⦄ {R : Type ℓ} (p : RetryPolicy F) (w : World F R) where
  -- From the attempt `a` on, the run ends at the attempt `k` with the outcome `o`: each attempt
  -- before `k` raised an error that is retried, and `k` returned or raised one that is not.
  pub data Runs (k : ℕ) (o : Outcome F R) : ℕ → Type ℓ where
    settled :
        {a : ℕ}
        → a ≡ k
        → w.outcome a ≡ o
        → ((e : GatewayError F) → o ≡ raised e → should_retry p w e a ≡ false)
        → Runs k o a
    again :
        {a : ℕ} (e : GatewayError F)
        → w.outcome a ≡ raised e
        → should_retry p w e a ≡ true
        → Runs k o (suc a)
        → Runs k o a

  -- what the breaker is told once the run has ended
  abbrev pub told : ℕ → Outcome F R → CircuitBreaker F → CircuitBreaker F
  told k (returned r) b = record_success b
  told k (raised e) b = record_failure (w.now k) b

  -- the one record that a run emits
  abbrev pub report : ℕ → Outcome F R → Telemetry
  report k (returned r) = telemetry true k none false
  report k (raised e) = telemetry false k (some (error_code e)) false

  -- How a run that ended at `k` has changed the trace that it started from.
  pub record IsTraceOf (a k : ℕ) (o : Outcome F R) (t t' : Trace F) : Type ℓ where
    pub runs : Runs k o a
    pub in_time : k ≤ p.max_attempts
    pub invoked_each : t'.invocations + a ≡ t.invocations + k + 1
    pub slept_between : length t'.sleeps + a ≡ length t.sleeps + k
    pub emitted_once : t'.emitted ≡ t.emitted ++ report k o ∷ []
    pub told_once : t'.breaker ≡ told k o t.breaker

  abbrev Ends : ℕ → Trace F → Outcome F R × Trace F → Type ℓ
  Ends a t x = (k : ℕ) × IsTraceOf a k x.0 t x.1

  pub attempt_loop-returned :
      (n a : ℕ) (last : Option (GatewayError F)) (t : Trace F) (r : R)
      → w.outcome a ≡ returned r
      → a ≤ p.max_attempts
      → Ends a t (attempt_loop p w (suc n) a last t)
  unfolding attempt_loop
  attempt_loop-returned n a last t r e h =
      rw (e, attempt_loop)
        (
          a,
          record {
            runs = settled refl e (λ err c. cc);
            in_time = h;
            invoked_each = omega arith;
            slept_between = refl;
            emitted_once = refl;
            told_once = refl;
          },
        )

  pub attempt_loop-gave_up :
      (n a : ℕ) (last : Option (GatewayError F)) (t : Trace F) (err : GatewayError F)
      → w.outcome a ≡ raised err
      → should_retry p w err a ≡ false
      → a ≤ p.max_attempts
      → Ends a t (attempt_loop p w (suc n) a last t)
  unfolding attempt_loop
  attempt_loop-gave_up n a last t err e s h =
      rw (e, attempt_loop)
        (rw s (
          a,
          record {
            runs = settled refl e (λ err' c. ground arith);
            in_time = h;
            invoked_each = omega arith;
            slept_between = refl;
            emitted_once = refl;
            told_once = refl;
          },
        ))

  -- the trace after one more attempt and its sleep
  abbrev pub retried : GatewayError F → ℕ → Trace F → Trace F
  retried err a t = record (invoked t) {
    sleeps = t.sleeps ++ retry_delay p (w.uniform a) err a ∷ [];
  }

  pub attempt_loop-retries :
      (n a : ℕ) (last : Option (GatewayError F)) (t : Trace F) (err : GatewayError F)
      → w.outcome a ≡ raised err
      → should_retry p w err a ≡ true
      → attempt_loop p w (suc n) a last t ≡ attempt_loop p w n (a + 1) (some err) (retried err a t)
  unfolding attempt_loop
  attempt_loop-retries n a last t err e s = rw (e, attempt_loop) (rw s)

  attempt_loop-again :
      (n a : ℕ) (last : Option (GatewayError F)) (t : Trace F) (err : GatewayError F)
      → w.outcome a ≡ raised err
      → should_retry p w err a ≡ true
      → Ends (a + 1) (retried err a t) (attempt_loop p w n (a + 1) (some err) (retried err a t))
      → Ends a t (attempt_loop p w (suc n) a last t)
  attempt_loop-again n a last t err e s (k, h) =
      subst (Ends a t) (sym (attempt_loop-retries n a last t err e s)) (
        k,
        record {
          runs = again err e s (
              subst (Runs k (attempt_loop p w n (a + 1) (some err) (retried err a t)).0)
                (omega arith) h.runs);
          in_time = h.in_time;
          invoked_each = omega (arith, h.invoked_each);
          slept_between = omega (
            arith,
            h.slept_between,
            length-append t.sleeps (retry_delay p (w.uniform a) err a ∷ []),
          );
          emitted_once = h.emitted_once;
          told_once = h.told_once;
        },
      )

  attempt_loop-Ends :
      (n a : ℕ) (last : Option (GatewayError F)) (t : Trace F)
      → a + n ≡ p.max_attempts
      → Ends a t (attempt_loop p w (suc n) a last t)
  attempt_loop-Ends zero a last t h = elim (Outcome-cases (w.outcome a)) [
    | inl (r, e) ↦ attempt_loop-returned zero a last t r e (omega arith)
    | inr (err, e) ↦ attempt_loop-gave_up zero a last t err e (ground arith) (omega arith)
  ]
  attempt_loop-Ends (suc n) a last t h = elim (Outcome-cases (w.outcome a)) [
    | inl (r, e) ↦ attempt_loop-returned (suc n) a last t r e (omega arith)
    | inr (err, e) ↦ elim (Bool-cases (should_retry p w err a)) [
      | inl retry ↦
          attempt_loop-again (suc n) a last t err e retry
            (attempt_loop-Ends n (a + 1) (some err) (retried err a t) (omega arith))
      | inr stop ↦ attempt_loop-gave_up (suc n) a last t err e stop (omega arith)
    ]
  ]

  -- With at least one attempt allowed, a call that the breaker admits is a run of attempts from the
  -- first one: it invokes the provider once for each attempt, at most max_attempts times, sleeps
  -- once between two attempts, emits one record and tells the breaker once.
  pub call-IsTraceOf :
      (asked : F) (b : CircuitBreaker F)
      → 1 ≤ p.max_attempts
      → (allow asked b).0 ≡ true
      → (k : ℕ) × IsTraceOf 1 k (call p w asked b).0 (fresh (allow asked b).1) (call p w asked b).1
  unfolding call
  call-IsTraceOf asked b h admitted = rw admitted (
      subst (λ n. Ends 1 start (attempt_loop p w n 1 none start)) (sym positive)
        (attempt_loop-Ends (p.max_attempts - 1) 1 none start (omega arith)))
    where
      start : Trace F
      start = fresh (allow asked b).1

      positive : p.max_attempts ≡ suc (p.max_attempts - 1)
      positive = omega arith
