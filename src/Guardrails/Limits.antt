-- ===== src/Guardrails/Limits.antt =====
-- app/guardrails/limits.py. A count that is negative is `none`: the code reads no more of it. The
-- time that `elapsed_seconds` reads from the clock is an argument.
pub mod Accounts
use newchanges.Base.{
  ℕ, ◌+◌, ◌-◌, leb, ltb, Bool, true, false, if◌then◌else◌, Option, none, some, List, [], ◌∷◌,
}
use newchanges.Base.Float.{Float}

pub record ExecutionBudget {ℓ} (F : Type ℓ) : Type ℓ where
  pub max_iterations : ℕ
  pub max_tool_calls : ℕ
  pub max_total_tokens : Option ℕ
  pub max_duration_seconds : F
  pub iterations_used : ℕ
  pub tool_calls_used : ℕ
  pub tokens_used : ℕ
  pub started_at : F

pub data LimitError : Type 0 where
  value_error duration_exceeded max_iterations max_tool_calls max_total_tokens : LimitError
  request_exceeds_ceiling : LimitError

-- the fields that the constructor sets when it is called with the limits alone
abbrev pub fresh_budget {ℓ} : {F : Type ℓ} → ℕ → ℕ → Option ℕ → F → F → ExecutionBudget F
fresh_budget iterations tool_calls tokens duration now = record {
  max_iterations = iterations;
  max_tool_calls = tool_calls;
  max_total_tokens = tokens;
  max_duration_seconds = duration;
  iterations_used = 0;
  tool_calls_used = 0;
  tokens_used = 0;
  started_at = now;
}

abbrev pub over_ceiling : Option ℕ → ℕ → Bool
over_ceiling none used = false
over_ceiling (some limit) used = ltb limit used

module _ {ℓ} {F : Type ℓ} where
  -- `__post_init__`; `none` is the `ValueError`
  unfoldable pub make_budget : ℕ → ℕ → Option ℕ → F → F → Option (ExecutionBudget F)
  make_budget iterations tool_calls none duration now =
      if leb 1 iterations then some (fresh_budget iterations tool_calls none duration now) else none
  make_budget iterations tool_calls (some tokens) duration now =
      if leb 1 iterations
      then (if leb 1 tokens
          then some (fresh_budget iterations tool_calls (some tokens) duration now)
          else none)
      else none

  abbrev pub iterations_remaining : ExecutionBudget F → ℕ
  iterations_remaining b = b.max_iterations - b.iterations_used

  abbrev pub tool_calls_remaining : ExecutionBudget F → ℕ
  tool_calls_remaining b = b.max_tool_calls - b.tool_calls_used

  -- An exception, if one is raised, and the budget as it is then.
  unfoldable pub consume_tool_call :
      Option ℕ → ExecutionBudget F → Option LimitError × ExecutionBudget F
  consume_tool_call none b = (some LimitError.value_error, b)
  consume_tool_call (some count) b =
      if ltb b.max_tool_calls (b.tool_calls_used + count)
      then (some LimitError.max_tool_calls, b)
      else (none, record b { tool_calls_used = b.tool_calls_used + count })

  unfoldable pub consume_tokens :
      Option ℕ → ExecutionBudget F → Option LimitError × ExecutionBudget F
  consume_tokens none b = (some LimitError.value_error, b)
  consume_tokens (some count) b =
      let spent = record b { tokens_used = b.tokens_used + count } in
      if over_ceiling b.max_total_tokens (b.tokens_used + count)
      then (some LimitError.max_total_tokens, spent)
      else (none, spent)

module _ {ℓ} {F : Type ℓ} ⦃f : Float F⦄ where
  abbrev pub is_expired : F → ExecutionBudget F → Bool
  is_expired now b = f.le b.max_duration_seconds (f.sub now b.started_at)

  unfoldable pub consume_iteration : F → ExecutionBudget F → Option LimitError × ExecutionBudget F
  consume_iteration now b =
      if is_expired now b
      then (some LimitError.duration_exceeded, b)
      else if leb b.max_iterations b.iterations_used
      then (some LimitError.max_iterations, b)
      else (none, record b { iterations_used = b.iterations_used + 1 })

-- the pre-flight check of a request
unfoldable pub enforce_token_limit : ℕ → Option ℕ → Option LimitError
enforce_token_limit requested none = none
enforce_token_limit requested (some ceiling) =
    if ltb ceiling requested then some LimitError.request_exceeds_ceiling else none
