-- ===== src/Cost/Engine/Labels.antt =====
-- The label of a computed cost, and what it says of the total.
use newchanges.Base.{Bool, not, ◌&&◌, ◌||◌, if◌then◌else◌, Option, none, is_none, ◌≡◌, ◌⊎◌, arith}
use newchanges.Cost.Engine.{
  Arithmetic, Provenance, UsageSource, TokenUsage, ModelPricing, ToolUsage, CostComputation,
  is_usable, is_priced, actual_cost, estimated_cost, compute_cost,
}

-- every count that a total needs is known
abbrev pub is_complete : TokenUsage → Bool
is_complete u = not (is_none u.input_tokens) && not (is_none u.output_tokens)

-- what decides the label
abbrev pub label {ℓ} :
    {F : Type ℓ} → TokenUsage → ModelPricing F → ToolUsage F → Option F → Provenance
label u p tools infrastructure =
    if not (is_usable p && is_complete u)
    then Provenance.unavailable
    else if is_priced tools || not (is_none infrastructure)
    then Provenance.estimated
    else elim u.source [
      | UsageSource.provider_reported ↦ Provenance.actual
      | UsageSource.estimated ↦ Provenance.estimated
    ]

module _ {ℓ} {F : Type ℓ} (D : Type ℓ) ⦃k : Arithmetic F D⦄ (u : TokenUsage) (p : ModelPricing F)
    (tools : ToolUsage F) (infrastructure : Option F) where
  -- A cost is ACTUAL exactly when the provider reported both counts, the pricing is usable and
  -- neither a tool's nor an infrastructure cost is part of it; it is UNAVAILABLE exactly when a
  -- count is unknown or the pricing is not usable; else it is ESTIMATED.
  pub compute_cost-label :
      (compute_cost D u p tools infrastructure).provenance ≡ label u p tools infrastructure
  unfolding compute_cost
  compute_cost-label = ground arith

  -- a column that holds the total, and one that is empty
  abbrev Fills : Option F → Option F → Option F → Type ℓ
  Fills total column other = (column ≡ total) × (other ≡ none)

  pub record IsConsistent (c : CostComputation F) : Type ℓ where
    pub total : is_none c.total_cost ≡ not (is_usable p && is_complete u)
    pub reason : is_none c.unavailable_reason ≡ not (is_none c.total_cost)
    pub columns :
        Fills c.total_cost (actual_cost c) (estimated_cost c)
        ⊎ Fills c.total_cost (estimated_cost c) (actual_cost c)

  -- There is a total exactly when the pricing is usable and both counts are known, and a reason
  -- exactly when there is no total. Of the two columns of a cost event one holds the total, if
  -- there is one, and the other is empty.
  pub compute_cost-IsConsistent : IsConsistent (compute_cost D u p tools infrastructure)
  unfolding compute_cost
  compute_cost-IsConsistent = record {
    total = ground arith;
    reason = ground arith;
    columns = columns;
  }
    where
      columns :
          Fills
            (compute_cost D u p tools infrastructure).total_cost
            (actual_cost (compute_cost D u p tools infrastructure))
            (estimated_cost (compute_cost D u p tools infrastructure))
          ⊎ Fills
              (compute_cost D u p tools infrastructure).total_cost
              (estimated_cost (compute_cost D u p tools infrastructure))
              (actual_cost (compute_cost D u p tools infrastructure))
      columns = ground arith
