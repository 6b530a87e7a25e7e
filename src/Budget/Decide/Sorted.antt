-- ===== src/Budget/Decide/Sorted.antt =====
-- The order of `_decision_sort_key`, and that `decide` keeps every verdict and sorts them by it.
use mathlib.Core.List.{Perm, Mem}
use newchanges.Base.{◌≡◌, ◌⊎◌, arith, true, List, ◌∷◌}
use newchanges.Budget.{PolicyOutcome, BudgetScope, outcome_severity, scope_rank}
use newchanges.Budget.Limit.{BudgetEvaluation}
use newchanges.Budget.Decide.{key_le, sort_id, sorted}
use newchanges.Base.Sort.{
  text_le_total, text_le_trans, text_le_antisymm, IsSorted, sort_by-IsSorted, sort_by-perm,
  head_below,
}

outcome_severity-injective : (a b : PolicyOutcome) → outcome_severity a ≡ outcome_severity b → a ≡ b
outcome_severity-injective a b h = ground arith

scope_rank-injective : (a b : BudgetScope) → scope_rank a ≡ scope_rank b → a ≡ b
scope_rank-injective a b h = ground arith

module _ {ℓ} {F : Type ℓ} where
  key_le_total : (a b : BudgetEvaluation F) → (key_le a b ≡ true) ⊎ (key_le b a ≡ true)
  unfolding key_le
  key_le_total a b = ground (arith, text_le_total (sort_id a) (sort_id b))

  pub key_le_trans :
      (a b c : BudgetEvaluation F) → key_le a b ≡ true → key_le b c ≡ true → key_le a c ≡ true
  unfolding key_le
  key_le_trans a b c h k = ground (arith, text_le_trans (sort_id a) (sort_id b) (sort_id c))

  pub sorted-IsSorted : (es : List (BudgetEvaluation F)) → IsSorted key_le (sorted es)
  unfolding sorted
  sorted-IsSorted = sort_by-IsSorted key_le key_le_total key_le_trans

  pub sorted-perm : (es : List (BudgetEvaluation F)) → Perm (sorted es) es
  unfolding sorted
  sorted-perm = sort_by-perm key_le

  -- The head of a sorted list is below each of its members.
  pub least_below :
      (h : BudgetEvaluation F) (xs : List (BudgetEvaluation F)) (x : BudgetEvaluation F)
      → IsSorted key_le (h ∷ xs)
      → Mem x (h ∷ xs)
      → key_le h x ≡ true
  least_below = head_below key_le key_le_total key_le_trans

  -- Two verdicts that are below one another have the same key.
  pub key_le_antisymm :
      (a b : BudgetEvaluation F)
      → key_le a b ≡ true
      → key_le b a ≡ true
      → (a.outcome ≡ b.outcome) × (a.scope ≡ b.scope) × (sort_id a ≡ sort_id b)
  unfolding key_le
  key_le_antisymm a b h k = (
    outcome_severity-injective a.outcome b.outcome (ground arith),
    scope_rank-injective a.scope b.scope (ground arith),
    text_le_antisymm (sort_id a) (sort_id b) (ground arith) (ground arith),
  )
