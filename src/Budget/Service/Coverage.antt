-- ===== src/Budget/Service/Coverage.antt =====
-- Every active budget of a request's scopes takes part in `BudgetService.evaluate`.
use mathlib.Core.List.{
  Mem, mem-cons, mem-cons_self, mem-cons_of_mem, not-mem-nil, mem-append_left, Mem-prop,
}
use mathlib.Core.List.Perm
use mathlib.Core.Bool.{Bool-set}
use mathlib.Core.Path.{subst}
use mathlib.Core.Logic.Or
use newchanges.Base.{
  ◌≤◌, ◌≡◌, refl, sym, ap, ◌∙◌, arith, Bool, true, false, ◌&&◌, List, [], ◌∷◌, ◌++◌, Option, none,
  some, String, str_eq, any, All, is_none, eq_iff, Option-cases, inl, inr, keep,
}
use newchanges.Base.Float.{Float}
use newchanges.Base.Sort.{sort_by-perm}
use newchanges.Base.Text.{upper}
use newchanges.Base.Membership.{mem-keep, mem-keep_of_mem, All-mem}
use newchanges.Budget.{BudgetScope, outcome_severity}
use newchanges.Budget.Limit.{Decimal, BudgetLimit, evaluate_limit}
use newchanges.Budget.Decide.{BudgetDecision, decide}
use newchanges.Budget.Decide.Strictest.{decide-above}
use newchanges.Budget.Periods.{Moment, period_of, period_window}
use newchanges.Budget.Service.{
  BudgetRow, BudgetServices, RequestContext, RequestLimit, scope_pairs, scope_eq, applies,
  row_order, list_for_scopes, to_limit, limits_of, request_limits, evaluate_request,
}

-- One of the four periods, in any case.
abbrev pub IsKnown : String → Type 0
IsKnown period = is_none (period_of (upper period)) ≡ false

module _ {ℓ} {A : Type ℓ} where
  any_of_mem : (p : A → Bool) (xs : List A) (x : A) → Mem x xs → p x ≡ true → any p xs ≡ true
  any_of_mem p [] x m h = absurd (not-mem-nil m)
  any_of_mem p (y ∷ xs) x m h =
      Or.elim (Bool-set _ _) (mem-cons.0 m) (λ q. rw (sym (ap p q) ∙ h) refl)
        (λ k. ground (arith, any_of_mem p xs x k h))

scope_eq_refl : (a : BudgetScope) → scope_eq a a ≡ true
scope_eq_refl a = ground arith

module _ {ℓ} {F : Type ℓ} where
  applies_of_mem :
      (b : BudgetRow F) (tenant : String) (pairs : List (BudgetScope × String))
      → str_eq b.tenant_id tenant ≡ true
      → str_eq b.status "ACTIVE" ≡ true
      → Mem {A = BudgetScope × String} (b.scope_type, b.scope_id) pairs
      → applies tenant pairs b ≡ true
  applies_of_mem b tenant pairs t a m = rw t (
      rw a (
        any_of_mem
          (λ (p : BudgetScope × String). scope_eq b.scope_type p.0 && str_eq b.scope_id p.1) pairs
          (b.scope_type, b.scope_id) m
          (rw (scope_eq_refl b.scope_type) ((eq_iff b.scope_id b.scope_id).1 refl))))

  list_for_scopes-mem :
      (c : RequestContext) (rows : List (BudgetRow F)) (b : BudgetRow F)
      → Mem b rows
      → applies c.tenant_id (scope_pairs c) b ≡ true
      → Mem b (list_for_scopes c.tenant_id (scope_pairs c) rows)
  unfolding list_for_scopes scope_pairs
  list_for_scopes-mem c rows b m h =
      (Perm.mem_iff (sort_by-perm row_order (keep (applies c.tenant_id (scope_pairs c)) rows))).1
        (mem-keep_of_mem (applies c.tenant_id (scope_pairs c)) rows b m h)

  mem-list_for_scopes :
      (c : RequestContext) (rows : List (BudgetRow F)) (b : BudgetRow F)
      → Mem b (list_for_scopes c.tenant_id (scope_pairs c) rows)
      → Mem b rows
  unfolding list_for_scopes scope_pairs
  mem-list_for_scopes c rows b m = mem-keep (applies c.tenant_id (scope_pairs c)) rows b (
      (Perm.mem_iff (sort_by-perm row_order (keep (applies c.tenant_id (scope_pairs c)) rows))).0 m)

module _ {ℓ} {F : Type ℓ} ⦃f : Float F⦄ (s : BudgetServices F) (now : Moment) where
  to_limit-total :
      (b : BudgetRow F) → IsKnown b.period → (l : BudgetLimit F) × (to_limit s now b ≡ some l)
  unfolding to_limit period_window
  to_limit-total b e = elim (Option-cases (to_limit s now b)) [
    | inl q ↦ absurd (ground arith)
    | inr k ↦ k
  ]

  limits_of-total :
      (rows : List (BudgetRow F))
      → ((b : BudgetRow F) → Mem b rows → IsKnown b.period)
      → (ls : List (BudgetLimit F)) × (limits_of s now rows ≡ some ls)
  unfolding limits_of
  limits_of-total [] k = ([], refl)
  limits_of-total (b ∷ rows) k =
      joined (to_limit-total b (k b mem-cons_self))
        (limits_of-total rows (λ x m. k x (mem-cons_of_mem b m)))
    where
      joined :
          ((l : BudgetLimit F) × (to_limit s now b ≡ some l))
          → ((ls : List (BudgetLimit F)) × (limits_of s now rows ≡ some ls))
          → (ls : List (BudgetLimit F)) × (limits_of s now (b ∷ rows) ≡ some ls)
      joined (l, e) (ls, q) = (l ∷ ls, rw (limits_of, e) (rw q refl))

  limits_of-mem :
      (rows : List (BudgetRow F)) (b : BudgetRow F) (l : BudgetLimit F)
      → Mem b rows
      → to_limit s now b ≡ some l
      → (ls : List (BudgetLimit F)) → limits_of s now rows ≡ some ls
      → Mem l ls
  unfolding limits_of
  limits_of-mem [] b l m e ls h = absurd (not-mem-nil m)
  limits_of-mem (x ∷ rows) b l m e ls h = elim (Option-cases (to_limit s now x)) [
    | inl q ↦ absurd (ground arith)
    | inr (k, q) ↦ elim (Option-cases (limits_of s now rows)) [
      | inl r ↦ absurd (ground arith)
      | inr (ks, r) ↦
          subst (λ z. Mem l z) (ground arith)
            (Or.elim Mem-prop (mem-cons.0 m)
              (λ i.
                subst (λ z. Mem z (k ∷ ks)) (ground (arith, ap (to_limit s now) i)) mem-cons_self)
              (λ n. mem-cons_of_mem k (limits_of-mem rows b l n e ks r)))
    ]
  ]

module _ {ℓ} {F : Type ℓ} ⦃f : Float F⦄ ⦃d : Decimal F⦄ (s : BudgetServices F) (now : Moment)
    (c : RequestContext) (cost : F) (limit : Option (RequestLimit F))
    (known : All (λ (b : BudgetRow F). IsKnown b.period) s.budgets) where
  budgets-IsKnown : (b : BudgetRow F) → Mem b s.budgets → IsKnown b.period
  budgets-IsKnown b m =
      All-mem (λ (x : BudgetRow F). IsKnown x.period) (λ x. Bool-set _ _) s.budgets b known m

  read :
      (ls : List (BudgetLimit F)) × (limits_of s now
          (list_for_scopes c.tenant_id (scope_pairs c) s.budgets)
        ≡ some ls)
  read =
      limits_of-total s now (list_for_scopes c.tenant_id (scope_pairs c) s.budgets)
        (λ b m. budgets-IsKnown b (mem-list_for_scopes c s.budgets b m))

  decided : BudgetDecision F
  decided = decide s.policy cost (read.0 ++ request_limits s limit)

  evaluate_request-decided : evaluate_request s c cost limit now ≡ some decided
  unfolding evaluate_request decided
  evaluate_request-decided = ap after read.1
    where
      after : Option (List (BudgetLimit F)) → Option (BudgetDecision F)
      after none = none
      after (some ls) = some (decide s.policy cost (ls ++ request_limits s limit))

  -- Where every budget in the table has a known period, the evaluation of a request gives a
  -- decision, and no active budget of the request's tenant at one of its scopes has a verdict that
  -- is stricter than the decision.
  pub evaluate_request-covers :
      (b : BudgetRow F)
      → Mem b s.budgets
      → str_eq b.tenant_id c.tenant_id ≡ true
      → str_eq b.status "ACTIVE" ≡ true
      → Mem {A = BudgetScope × String} (b.scope_type, b.scope_id) (scope_pairs c)
      → (r : BudgetDecision F) × (evaluate_request s c cost limit now ≡ some r)
        × (l : BudgetLimit F) × (to_limit s now b ≡ some l)
        × (outcome_severity (evaluate_limit s.policy cost l).outcome ≤ outcome_severity r.outcome)
  unfolding decided
  evaluate_request-covers b m t a p = above (to_limit-total s now b (budgets-IsKnown b m))
    where
      above :
          ((l : BudgetLimit F) × (to_limit s now b ≡ some l))
          → (r : BudgetDecision F) × (evaluate_request s c cost limit now ≡ some r)
            × (l : BudgetLimit F) × (to_limit s now b ≡ some l)
            × (outcome_severity (evaluate_limit s.policy cost l).outcome
                ≤ outcome_severity r.outcome)
      above (l, e) = (
        decided,
        evaluate_request-decided,
        l,
        e,
        decide-above s.policy cost (read.0 ++ request_limits s limit) l (
            mem-append_left (request_limits s limit) (
              limits_of-mem s now (list_for_scopes c.tenant_id (scope_pairs c) s.budgets) b l
                (list_for_scopes-mem c s.budgets b m
                  (applies_of_mem b c.tenant_id (scope_pairs c) t a p))
                e read.0 read.1)),
      )
