-- ===== src/Guardrails/Limits/Accounts.antt =====
-- What an execution may spend over any sequence of calls.
use newchanges.Base.{ℕ, ◌+◌, ◌≤◌, true, Option, none, some, List, [], ◌∷◌, ◌≡◌, refl, arith, All}
use newchanges.Base.Float.{Float, IsOrdered, ◌≼◌}
use newchanges.Guardrails.Limits.{
  ExecutionBudget, LimitError, make_budget, iterations_remaining, tool_calls_remaining,
  consume_tool_call, consume_tokens, consume_iteration, is_expired,
}

-- a call of one of the three, an iteration with the time at which it comes
pub data Spend {ℓ} (F : Type ℓ) : Type ℓ where
  iterate : F → Spend F
  call_tools use_tokens : Option ℕ → Spend F

-- what a call that is not refused grants
abbrev count_of : Option ℕ → ℕ
count_of none = 0
count_of (some n) = n

abbrev when_granted : Option LimitError → ℕ → ℕ
when_granted none n = n
when_granted (some e) n = 0

module _ {ℓ} {F : Type ℓ} where
  -- No more is used than is allowed.
  pub record IsWithin (b : ExecutionBudget F) : Type ℓ where
    pub iterations : b.iterations_used ≤ b.max_iterations
    pub tool_calls : b.tool_calls_used ≤ b.max_tool_calls

  -- a budget that the constructor accepts
  pub make_budget-IsWithin :
      (iterations tool_calls : ℕ) (total : Option ℕ) (duration now : F) (b : ExecutionBudget F)
      → make_budget iterations tool_calls total duration now ≡ some b
      → IsWithin b
  unfolding make_budget
  make_budget-IsWithin iterations tool_calls none duration now b e = ground (arith, e)
  make_budget-IsWithin iterations tool_calls (some n) duration now b e = ground (arith, e)

module _ {ℓ} {F : Type ℓ} ⦃f : Float F⦄ where
  abbrev pub spend : Spend F → ExecutionBudget F → Option LimitError × ExecutionBudget F
  spend (iterate now) b = consume_iteration now b
  spend (call_tools n) b = consume_tool_call n b
  spend (use_tokens n) b = consume_tokens n b

  abbrev pub spend_all : List (Spend F) → ExecutionBudget F → ExecutionBudget F
  spend_all [] b = b
  spend_all (s ∷ ss) b = spend_all ss (spend s b).1

  abbrev iteration_of : Spend F → Option LimitError → ℕ
  iteration_of (iterate now) e = when_granted e 1
  iteration_of (call_tools n) e = 0
  iteration_of (use_tokens n) e = 0

  abbrev tool_calls_of : Spend F → Option LimitError → ℕ
  tool_calls_of (iterate now) e = 0
  tool_calls_of (call_tools n) e = when_granted e (count_of n)
  tool_calls_of (use_tokens n) e = 0

  -- the tokens are counted whether the call is refused or not
  abbrev reported_by : Spend F → ℕ
  reported_by (iterate now) = 0
  reported_by (call_tools n) = 0
  reported_by (use_tokens n) = count_of n

  abbrev pub iterations_granted : List (Spend F) → ExecutionBudget F → ℕ
  iterations_granted [] b = 0
  iterations_granted (s ∷ ss) b = iteration_of s (spend s b).0 + iterations_granted ss (spend s b).1

  abbrev pub tool_calls_granted : List (Spend F) → ExecutionBudget F → ℕ
  tool_calls_granted [] b = 0
  tool_calls_granted (s ∷ ss) b =
      tool_calls_of s (spend s b).0 + tool_calls_granted ss (spend s b).1

  abbrev pub tokens_reported : List (Spend F) → ℕ
  tokens_reported [] = 0
  tokens_reported (s ∷ ss) = reported_by s + tokens_reported ss

  spend-IsWithin : (s : Spend F) (b : ExecutionBudget F) → IsWithin b → IsWithin (spend s b).1
  unfolding consume_iteration consume_tool_call consume_tokens
  spend-IsWithin (iterate now) b w = ground (arith, w.iterations, w.tool_calls)
  spend-IsWithin (call_tools none) b w = w
  spend-IsWithin (call_tools (some n)) b w = ground (arith, w.iterations, w.tool_calls)
  spend-IsWithin (use_tokens none) b w = w
  spend-IsWithin (use_tokens (some n)) b w = ground (arith, w.iterations, w.tool_calls)

  -- the account of one call
  record IsStep (s : Spend F) (e : Option LimitError) (b b' : ExecutionBudget F) : Type ℓ where
    iterations : b'.iterations_used ≡ b.iterations_used + iteration_of s e
    tool_calls : b'.tool_calls_used ≡ b.tool_calls_used + tool_calls_of s e
    tokens : b'.tokens_used ≡ b.tokens_used + reported_by s
    max_iterations : b'.max_iterations ≡ b.max_iterations
    max_tool_calls : b'.max_tool_calls ≡ b.max_tool_calls

  spend-IsStep : (s : Spend F) (b : ExecutionBudget F) → IsStep s (spend s b).0 b (spend s b).1
  unfolding consume_iteration consume_tool_call consume_tokens
  spend-IsStep (iterate now) b = ground arith
  spend-IsStep (call_tools none) b = ground arith
  spend-IsStep (call_tools (some n)) b = ground arith
  spend-IsStep (use_tokens none) b = ground arith
  spend-IsStep (use_tokens (some n)) b = ground arith

  -- What a sequence of calls did to a budget.
  pub record IsAccount (ss : List (Spend F)) (b b' : ExecutionBudget F) : Type ℓ where
    pub within : IsWithin b'
    pub iterations : iterations_granted ss b + iterations_remaining b' ≡ iterations_remaining b
    pub tool_calls : tool_calls_granted ss b + tool_calls_remaining b' ≡ tool_calls_remaining b
    pub tokens : b'.tokens_used ≡ b.tokens_used + tokens_reported ss

  IsAccount-cons :
      (s : Spend F) (ss : List (Spend F)) (b : ExecutionBudget F)
      → IsWithin b
      → IsAccount ss (spend s b).1 (spend_all ss (spend s b).1)
      → IsAccount (s ∷ ss) b (spend_all (s ∷ ss) b)
  IsAccount-cons s ss b w rest = record {
    within = rest.within;
    iterations = omega (
      arith, rest.iterations, step.iterations, step.max_iterations, w.iterations, after.iterations,
    );
    tool_calls = omega (
      arith, rest.tool_calls, step.tool_calls, step.max_tool_calls, w.tool_calls, after.tool_calls,
    );
    tokens = omega (arith, rest.tokens, step.tokens);
  }
    where
      after : IsWithin (spend s b).1
      after = spend-IsWithin s b w

      step : IsStep s (spend s b).0 b (spend s b).1
      step = spend-IsStep s b

  -- From a budget that is within its limits, over any sequence of calls the iterations and the tool
  -- calls that are granted, with those that remain, are those that remained before; so no more are
  -- ever granted. The tokens that are reported are counted whether the call is refused or not.
  pub spend_all-IsAccount :
      (ss : List (Spend F)) (b : ExecutionBudget F) → IsWithin b → IsAccount ss b (spend_all ss b)
  spend_all-IsAccount [] b w = record {
    within = w;
    iterations = omega arith;
    tool_calls = omega arith;
    tokens = omega arith;
  }
  spend_all-IsAccount (s ∷ ss) b w =
      IsAccount-cons s ss b w (spend_all-IsAccount ss (spend s b).1 (spend-IsWithin s b w))

  -- what a run reports, over the times at which its iterations come
  abbrev pub refusals : List F → ExecutionBudget F → List (Option LimitError)
  refusals [] b = []
  refusals (t ∷ ts) b = (consume_iteration t b).0 ∷ refusals ts (consume_iteration t b).1

  -- Over ordered floats whose rounded subtraction is monotone: once the time is up, every later
  -- iteration is refused for that reason, however many iterations remain.
  pub refusals-late :
      (o : IsOrdered F) (sub_mono : (a b c : F) → a ≼ b → f.sub a c ≼ f.sub b c) (t : F)
      (ts : List F) (b : ExecutionBudget F)
      → is_expired t b ≡ true
      → All (λ t'. t ≼ t') ts
      → All (λ e. e ≡ some LimitError.duration_exceeded) (refusals ts b)
  unfolding consume_iteration
  refusals-late o sub_mono t [] b h k = tt
  refusals-late o sub_mono t (t' ∷ ts) b h k = rw late (refl, refusals-late o sub_mono t ts b h k.1)
    where
      late : is_expired t' b ≡ true
      late =
          o.le_trans b.max_duration_seconds (f.sub t b.started_at) (f.sub t' b.started_at) h
            (sub_mono t t' b.started_at k.0)
