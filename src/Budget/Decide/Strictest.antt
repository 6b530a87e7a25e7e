-- ===== src/Budget/Decide/Strictest.antt =====
-- The most restrictive outcome wins, whatever the order in which the limits come.
use mathlib.Core.List.{Perm, Mem, mem-cons_self, not-mem-nil, mem-map_of_mem, exists_of_mem-map}
use mathlib.Core.List.Perm
use mathlib.Core.Path.{subst}
use mathlib.Core.Logic.{∥∥₁_elim}
use native.Mathlib.Bridge.{le_prop}
use newchanges.Base.{
  ℕ, ◌≤◌, ◌≡◌, refl, arith, true, List, [], ◌∷◌, Option, none, some, map, All, All-of_mem,
}
use newchanges.Base.Float.{Float, IsOrdered, ◌≼◌}
use newchanges.Budget.{PolicyOutcome, BudgetPolicy, default_budget_policy, outcome_severity}
use newchanges.Budget.Limit.{Decimal, BudgetLimit, BudgetEvaluation, evaluate_limit}
use newchanges.Budget.Decide.{BudgetDecision, key_le, sort_id, sorted, compose, decide}
use newchanges.Budget.Limit.Bounds.{IsMonotone, evaluate_limit-mono_cost}
use native.Mathlib.Nat.{le_trans}
use newchanges.Base.Sort.{IsSorted}
use newchanges.Budget.Decide.Sorted.{sorted-IsSorted, sorted-perm, least_below, key_le_antisymm}

module _ {ℓ} {F : Type ℓ} where
  key_le→severity :
      (a b : BudgetEvaluation F)
      → key_le a b ≡ true
      → outcome_severity b.outcome ≤ outcome_severity a.outcome
  unfolding key_le
  key_le→severity a b h = ground arith

  compose_below :
      (xs : List (BudgetEvaluation F)) (x : BudgetEvaluation F)
      → IsSorted key_le xs
      → Mem x xs
      → outcome_severity x.outcome ≤ outcome_severity (compose xs).outcome
  compose_below [] x s m = absurd (not-mem-nil m)
  compose_below (h ∷ xs) x s m = key_le→severity h x (least_below h xs x s m)

  evaluations-compose : (xs : List (BudgetEvaluation F)) → (compose xs).evaluations ≡ xs
  evaluations-compose [] = refl
  evaluations-compose (x ∷ xs) = refl

  -- The outcome of a decision is that of its first verdict, or ALLOW where there is none.
  abbrev DecidedBy :
      PolicyOutcome → List (BudgetEvaluation F) → Option (BudgetEvaluation F) → Type ℓ
  DecidedBy o es none = (es ≡ []) × (o ≡ PolicyOutcome.allow)
  DecidedBy o es (some e) = Mem e es × (o ≡ e.outcome)

  abbrev pub IsDecided : BudgetDecision F → Type ℓ
  IsDecided d = DecidedBy d.outcome d.evaluations d.deciding

  compose-IsDecided : (xs : List (BudgetEvaluation F)) → IsDecided (compose xs)
  compose-IsDecided [] = (refl, refl)
  compose-IsDecided (x ∷ xs) = (mem-cons_self, refl)

  -- The keys of the verdicts that two decisions report as deciding, where they report one.
  abbrev pub SameDeciding : Option (BudgetEvaluation F) → Option (BudgetEvaluation F) → Type 0
  SameDeciding none none = Unit
  SameDeciding (some a) (some b) =
      (a.outcome ≡ b.outcome) × (a.scope ≡ b.scope) × (sort_id a ≡ sort_id b)
  SameDeciding _ _ = ⊥

  compose-same :
      (xs ys : List (BudgetEvaluation F))
      → IsSorted key_le xs
      → IsSorted key_le ys
      → Perm xs ys
      → SameDeciding (compose xs).deciding (compose ys).deciding
        × ((compose xs).outcome ≡ (compose ys).outcome)
  compose-same [] [] s t p = (tt, refl)
  compose-same [] (y ∷ ys) s t p = absurd (not-mem-nil ((Perm.mem_iff p).1 mem-cons_self))
  compose-same (x ∷ xs) [] s t p = absurd (not-mem-nil ((Perm.mem_iff p).0 mem-cons_self))
  compose-same (x ∷ xs) (y ∷ ys) s t p = (same, same.0)
    where
      same : (x.outcome ≡ y.outcome) × (x.scope ≡ y.scope) × (sort_id x ≡ sort_id y)
      same =
          key_le_antisymm x y (least_below x xs y s ((Perm.mem_iff p).1 mem-cons_self))
            (least_below y ys x t ((Perm.mem_iff p).0 mem-cons_self))

module _ {ℓ} {F : Type ℓ} ⦃f : Float F⦄ ⦃d : Decimal F⦄ where
  -- A bound on the severity of every verdict bounds that of the decision.
  pub decided_le :
      (limits : List (BudgetLimit F)) (policy : BudgetPolicy) (cost : F) (n : ℕ)
      → ((l : BudgetLimit F)
          → Mem l limits
          → outcome_severity (evaluate_limit policy cost l).outcome ≤ n)
      → outcome_severity (decide policy cost limits).outcome ≤ n
  unfolding decide
  decided_le limits policy cost n h = bound (sorted verdicts) λ x m.
      ∥∥₁_elim (exists_of_mem-map ((Perm.mem_iff (sorted-perm verdicts)).0 m)) le_prop
        λ (l, k, e). subst (λ y. outcome_severity y.outcome ≤ n) e (h l k)
    where
      verdicts : List (BudgetEvaluation F)
      verdicts = map (evaluate_limit policy cost) limits

      bound :
          (xs : List (BudgetEvaluation F))
          → ((x : BudgetEvaluation F) → Mem x xs → outcome_severity x.outcome ≤ n)
          → outcome_severity (compose xs).outcome ≤ n
      bound [] k = omega arith
      bound (x ∷ xs) k = k x mem-cons_self

module _ {ℓ} {F : Type ℓ} ⦃f : Float F⦄ ⦃d : Decimal F⦄ (policy : BudgetPolicy) (cost : F) where
  pub decide-above :
      (limits : List (BudgetLimit F)) (l : BudgetLimit F)
      → Mem l limits
      → outcome_severity (evaluate_limit policy cost l).outcome
        ≤ outcome_severity (decide policy cost limits).outcome
  unfolding decide
  decide-above limits l m =
      compose_below (sorted (map (evaluate_limit policy cost) limits))
        (evaluate_limit policy cost l) (sorted-IsSorted (map (evaluate_limit policy cost) limits))
        ((Perm.mem_iff (sorted-perm (map (evaluate_limit policy cost) limits))).1
          (mem-map_of_mem (evaluate_limit policy cost) m))

  -- The decision is at least as restrictive as the verdict on each limit, one of the verdicts has
  -- its outcome (ALLOW if there are no limits), and every verdict is reported once.
  pub decide-strictest :
      (limits : List (BudgetLimit F))
      → All
          (λ l.
            outcome_severity (evaluate_limit policy cost l).outcome
            ≤ outcome_severity (decide policy cost limits).outcome)
          limits
        × IsDecided (decide policy cost limits)
        × Perm (decide policy cost limits).evaluations (map (evaluate_limit policy cost) limits)
  unfolding decide
  decide-strictest limits = (
    All-of_mem _ limits (decide-above limits),
    compose-IsDecided (sorted verdicts),
    rw evaluations-compose (sorted-perm verdicts),
  )
    where
      verdicts : List (BudgetEvaluation F)
      verdicts = map (evaluate_limit policy cost) limits

  -- The order in which the limits are read changes neither the outcome nor the scope and id of the
  -- verdict that is reported as deciding.
  pub decide-perm :
      (limits limits' : List (BudgetLimit F))
      → Perm limits limits'
      → SameDeciding (decide policy cost limits).deciding (decide policy cost limits').deciding
        × ((decide policy cost limits).outcome ≡ (decide policy cost limits').outcome)
  unfolding decide
  decide-perm limits limits' p =
      compose-same (sorted (map (evaluate_limit policy cost) limits))
        (sorted (map (evaluate_limit policy cost) limits'))
        (sorted-IsSorted (map (evaluate_limit policy cost) limits))
        (sorted-IsSorted (map (evaluate_limit policy cost) limits'))
        (Perm.trans (sorted-perm (map (evaluate_limit policy cost) limits)) (
          Perm.trans (Perm.map (evaluate_limit policy cost) p)
            (Perm.symm (sorted-perm (map (evaluate_limit policy cost) limits')))))

module _ {ℓ} {F : Type ℓ} ⦃f : Float F⦄ ⦃d : Decimal F⦄ where
  -- Under the default policy a dearer request never gets a more lenient decision, when floats are
  -- ordered and rounded addition and division are monotone.
  pub decide-mono_cost :
      (o : IsOrdered F) (m : IsMonotone F) (cost cost' : F) (limits : List (BudgetLimit F))
      → cost ≼ cost'
      → outcome_severity (decide default_budget_policy cost limits).outcome
        ≤ outcome_severity (decide default_budget_policy cost' limits).outcome
  decide-mono_cost o m cost cost' limits h = decided_le limits default_budget_policy cost _ λ l k.
      le_trans (evaluate_limit-mono_cost o m cost cost' l h)
        (decide-above default_budget_policy cost' limits l k)
