-- ===== src/Gateway/Breaker/Transitions.antt =====
-- The circuit breaker as a state machine: its invariant, when it opens, and what it admits.
use newchanges.Base.{
  ◌+◌, ◌<◌, ◌≤◌, ltb, leb, Bool, true, false, if◌then◌else◌, none, some, List, [], ◌∷◌, length, ◌≡◌,
  ◌≢◌, refl, arith, All, Bool-cases, inl, inr,
}
use newchanges.Base.Float.{Float}
use newchanges.Gateway.Breaker.{
  CircuitState, InMemoryCircuitBreaker, memory_state, memory_success, memory_failure, memory_allow,
}

-- Half-open only when open, and fewer failures than the threshold while closed.
pub record IsValid {ℓ} {F : Type ℓ} (b : InMemoryCircuitBreaker F) : Type ℓ where
  pub threshold_pos : 1 ≤ b.failure_threshold
  pub half_open_opened : b.is_half_open ≡ true → b.opened_at ≢ none
  pub closed_below : b.opened_at ≡ none → b.consecutive_failures < b.failure_threshold

-- what a caller does with a breaker, each with the time at which it does it
pub data Call {ℓ} (F : Type ℓ) : Type ℓ where
  ask : F → Call F
  succeed : Call F
  fail : F → Call F

module _ {ℓ} {F : Type ℓ} ⦃f : Float F⦄ where
  abbrev pub perform : InMemoryCircuitBreaker F → Call F → InMemoryCircuitBreaker F
  perform b (ask now) = (memory_allow now b).1
  perform b succeed = memory_success b
  perform b (fail now) = memory_failure now b

  abbrev pub perform_all : InMemoryCircuitBreaker F → List (Call F) → InMemoryCircuitBreaker F
  perform_all b [] = b
  perform_all b (c ∷ cs) = perform_all (perform b c) cs

  perform-IsValid : (b : InMemoryCircuitBreaker F) (c : Call F) → IsValid b → IsValid (perform b c)
  unfolding memory_allow memory_success memory_failure
  perform-IsValid b (ask now) v = ground (arith, v.closed_below)
  perform-IsValid b succeed v = ground arith
  perform-IsValid b (fail now) v = ground (arith, v.half_open_opened, v.closed_below)

  -- Every sequence of calls keeps a breaker valid: it is half-open only while it is open, and
  -- closed only below its threshold.
  pub perform_all-IsValid :
      (b : InMemoryCircuitBreaker F) (cs : List (Call F)) → IsValid b → IsValid (perform_all b cs)
  perform_all-IsValid b [] v = v
  perform_all-IsValid b (c ∷ cs) v = perform_all-IsValid (perform b c) cs (perform-IsValid b c v)

  abbrev pub fail_all : InMemoryCircuitBreaker F → List F → InMemoryCircuitBreaker F
  fail_all b [] = b
  fail_all b (t ∷ ts) = fail_all (memory_failure t b) ts

  stays_open :
      (b : InMemoryCircuitBreaker F) (ts : List F)
      → b.opened_at ≢ none
      → b.is_half_open ≡ false
      → memory_state (fail_all b ts) ≡ CircuitState.open_circuit
  unfolding memory_state memory_failure
  stays_open b [] o h = ground arith
  stays_open b (t ∷ ts) o h = stays_open (memory_failure t b) ts (ground arith) (ground arith)

  -- From a valid closed breaker, failures in a row leave it closed exactly as long as they and
  -- those before them are fewer than the threshold.
  pub fail_all-opens :
      (b : InMemoryCircuitBreaker F) (ts : List F)
      → IsValid b
      → b.opened_at ≡ none
      → memory_state (fail_all b ts) ≡ (
          if ltb (b.consecutive_failures + length ts) b.failure_threshold
          then CircuitState.closed
          else CircuitState.open_circuit)
  unfolding memory_state memory_failure
  fail_all-opens b [] v e = ground (arith, v.closed_below)
  fail_all-opens b (t ∷ ts) v e =
      elim (Bool-cases (leb b.failure_threshold (b.consecutive_failures + 1))) [
        | inl full ↦ ground (
          arith,
          v.half_open_opened,
          stays_open (memory_failure t b) ts (ground (arith, v.half_open_opened))
              (ground (arith, v.half_open_opened)),
        )
        | inr room ↦ ground (
          arith,
          v.half_open_opened,
          fail_all-opens (memory_failure t b) ts (perform-IsValid b (fail t) v)
              (ground (arith, v.half_open_opened)),
        )
      ]

  abbrev pub ask_all : InMemoryCircuitBreaker F → List F → List Bool
  ask_all b [] = []
  ask_all b (t ∷ ts) = (memory_allow t b).0 ∷ ask_all (memory_allow t b).1 ts

  ask_all-admits :
      (b : InMemoryCircuitBreaker F) (opened wait : F) (ts : List F)
      → b.opened_at ≡ some opened
      → b.reset_timeout ≡ wait
      → All (λ now. f.le wait (f.sub now opened) ≡ true) ts
      → All (λ answer. answer ≡ true) (ask_all b ts)
  unfolding memory_allow
  ask_all-admits b opened wait [] e w h = tt
  ask_all-admits b opened wait (t ∷ ts) e w h = (
    rw (e, w) (ground arith),
    ask_all-admits (memory_allow t b).1 opened wait ts (ground arith) (ground arith) h.1,
  )

  -- Once the reset timeout of an open breaker is over, every call is admitted until one of them
  -- reports its result, however many there are.
  pub ask_all-half_open :
      (b : InMemoryCircuitBreaker F) (opened : F) (ts : List F)
      → b.opened_at ≡ some opened
      → All (λ now. f.le b.reset_timeout (f.sub now opened) ≡ true) ts
      → All (λ answer. answer ≡ true) (ask_all b ts)
  ask_all-half_open b opened ts e h = ask_all-admits b opened b.reset_timeout ts e refl h
