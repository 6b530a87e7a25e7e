-- ===== src/Guardrails/Context.antt =====
-- app/guardrails/context_guard.py. A text's trust and the conversion to `Content` are not part of
-- what the guard decides.
pub mod Selection
use newchanges.Base.{
  ℕ, ◌+◌, ◌==◌, ltb, Bool, true, false, not, ◌&&◌, ◌||◌, if◌then◌else◌, Option, none, some, String,
  str_eq, List, [], ◌∷◌, ◌++◌, any, is_empty, is_none, holds_text,
}
use newchanges.Base.Float.{Float}
use newchanges.Security.Principal.{Principal, ResourceScope}
use newchanges.Security.Scope.{AuthorizedScope, ScopeConstraint, level_ok}

pub data DataClassification : Type 0 where
  public internal confidential restricted : DataClassification

abbrev classification_code : DataClassification → ℕ
classification_code DataClassification.public = 0
classification_code DataClassification.internal = 1
classification_code DataClassification.confidential = 2
classification_code DataClassification.restricted = 3

abbrev pub classification_eq : DataClassification → DataClassification → Bool
classification_eq a b = classification_code a == classification_code b

pub data DropReason : Type 0 where
  no_owner_recorded cross_tenant out_of_scope classification_not_sendable : DropReason
  below_relevance_floor context_budget_exhausted : DropReason

module _ {ℓ} (F : Type ℓ) where
  pub record ContextFragment : Type ℓ where
    pub text : String
    pub scope : Option ResourceScope
    pub classification : DataClassification
    pub relevance : F
    pub estimated_tokens : Option ℕ

  pub record ContextDecision : Type ℓ where
    pub admitted : List (ContextFragment)
    pub dropped : List (ContextFragment × DropReason)
    pub total_tokens : ℕ

  pub record ContextGuard : Type ℓ where
    pub max_context_tokens : Option ℕ
    pub minimum_relevance : F
    pub sendable : List DataClassification

-- one branch of `_within_scope`
abbrev pub branch_within : ResourceScope → ScopeConstraint → Bool
branch_within r b = level_ok b.plant_id r.plant_id && level_ok b.department_id r.department_id

-- `_within_scope`
unfoldable pub within_scope : ResourceScope → AuthorizedScope → Bool
within_scope r s = str_eq r.tenant_id s.tenant_id && any (branch_within r) s.branches

abbrev pub scope_admits : ResourceScope → Option AuthorizedScope → Bool
scope_admits r none = true
scope_admits r (some s) = within_scope r s

-- `self.max_context_tokens is not None and total > self.max_context_tokens`
abbrev pub over_limit : Option ℕ → ℕ → Bool
over_limit none total = false
over_limit (some limit) total = ltb limit total

module _ {ℓ} {F : Type ℓ} where
  -- `fragment.estimated_tokens or 0`
  abbrev pub tokens_of : ContextFragment F → ℕ
  tokens_of x = elim x.estimated_tokens [ none ↦ 0 | some n ↦ n ]

module _ {ℓ} {F : Type ℓ} ⦃f : Float F⦄ (g : ContextGuard F) (p : Principal)
    (scope : Option AuthorizedScope) where
  -- `_reject_reason`
  unfoldable pub reject_reason : ContextFragment F → Option DropReason
  unfolding within_scope
  reject_reason x = elim x.scope [
    | none ↦ some no_owner_recorded
    | some r ↦
        if not (str_eq r.tenant_id p.tenant_id)
        then some cross_tenant
        else if not (scope_admits r scope)
        then some out_of_scope
        else if not (any (classification_eq x.classification) g.sendable)
        then some classification_not_sendable
        else if f.lt x.relevance g.minimum_relevance
        then some below_relevance_floor
        else none
  ]

  -- what one round of the loop does to what was admitted and dropped before
  abbrev pub sort_fragment :
      ContextFragment F → Option DropReason → ContextDecision F → ContextDecision F
  sort_fragment x (some reason) d = record d { dropped = d.dropped ++ (x, reason) ∷ [] }
  sort_fragment x none d =
      if over_limit g.max_context_tokens (d.total_tokens + tokens_of x)
      then record d { dropped = d.dropped ++ (x, context_budget_exhausted) ∷ [] }
      else record d { admitted = d.admitted ++ x ∷ []; total_tokens = d.total_tokens + tokens_of x }

  -- the loop of `filter`
  unfoldable pub filter_from : ContextDecision F → List (ContextFragment F) → ContextDecision F
  unfolding reject_reason
  filter_from d [] = d
  filter_from d (x ∷ xs) = filter_from (sort_fragment x (reject_reason x) d) xs

  unfoldable pub filter : List (ContextFragment F) → ContextDecision F
  unfolding filter_from
  filter fragments =
      filter_from (record { admitted = []; dropped = []; total_tokens = 0 }) fragments

-- `ContextRejected` and `ContextTooLarge`
pub data Enforced {ℓ} (A : Type ℓ) : Type ℓ where
  accepted : A → Enforced A
  context_rejected context_too_large : Enforced A

module _ {ℓ} {F : Type ℓ} ⦃f : Float F⦄ (g : ContextGuard F) (p : Principal)
    (scope : Option AuthorizedScope) where
  unfoldable pub enforce : List (ContextFragment F) → Enforced (ContextDecision F)
  unfolding filter
  enforce fragments =
      let decision = filter g p scope fragments in
      if not (is_empty fragments) && is_empty decision.admitted
      then context_rejected
      else if over_limit g.max_context_tokens decision.total_tokens
      then context_too_large
      else accepted decision
