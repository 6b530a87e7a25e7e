-- ===== src/Optimization/Simulation/Risk.antt =====
-- The risk of a model mix.
use Prim.Native.Nat.{max}
use newchanges.Base.{
  ℕ, ◌≡◌, refl, ◌∙◌, arith, List, [], ◌∷◌, Option, none, some, String, str_eq, map, if◌then◌else◌,
  Option-cases, inl, inr,
}
use newchanges.Base.Text.{upper, strip}
use newchanges.Registry.{ModelRegistryEntry}
use newchanges.Orchestrator.Classification.{RiskLevel}
use newchanges.Optimization.Simulation.{
  ModelMixEntry, level_of, raise_to, highest_risk, mix_risk, risk_index,
}

-- LOW, MEDIUM, HIGH and CRITICAL from 0 to 3, and MEDIUM for every other word and for none.
abbrev pub declared_rank : Option String → ℕ
declared_rank none = 1
declared_rank (some s) =
    if str_eq (upper (strip s)) "LOW"
    then 0
    else if str_eq (upper (strip s)) "MEDIUM"
    then 1
    else if str_eq (upper (strip s)) "HIGH"
    then 2
    else if str_eq (upper (strip s)) "CRITICAL"
    then 3
    else 1

abbrev pub largest : List ℕ → ℕ
largest [] = 0
largest (n ∷ ns) = max n (largest ns)

module _ {ℓ} {F : Type ℓ} where
  -- The rank of an entry's model; a model that is not in the registry has none.
  abbrev pub rank_of : Option (ModelRegistryEntry F) → ℕ
  rank_of none = 0
  rank_of (some m) = declared_rank m.risk_level

  level_of-rank : (m : ModelRegistryEntry F) → risk_index (level_of m) ≡ declared_rank m.risk_level
  level_of-rank m = elim (Option-cases m.risk_level) [
    | inl e ↦ rw e refl
    | inr (s, e) ↦ rw e (ground arith)
  ]

  raise_to-max :
      (h : RiskLevel) (o : Option (ModelRegistryEntry F))
      → risk_index (raise_to h o) ≡ max (risk_index h) (rank_of o)
  raise_to-max h none = omega arith
  raise_to-max h (some m) = ground (arith, level_of-rank m)

module _ {ℓ} {F : Type ℓ} (registry : String → Option (ModelRegistryEntry F)) where
  abbrev pub ranks : List (ModelMixEntry F) → List ℕ
  ranks mix = map (λ (e : ModelMixEntry F). rank_of (registry e.model_id)) mix

  highest_risk-max :
      (h : RiskLevel) (mix : List (ModelMixEntry F))
      → risk_index (highest_risk registry h mix) ≡ max (risk_index h) (largest (ranks mix))
  unfolding highest_risk
  highest_risk-max h [] = omega arith
  highest_risk-max h (e ∷ mix) = omega (
    arith,
    raise_to-max h (registry e.model_id),
    highest_risk-max (raise_to h (registry e.model_id)) mix,
  )

  -- The risk of a mix is the largest of its models' ranks, from LOW, which also stands for an empty
  -- mix, over MEDIUM and HIGH to CRITICAL. A model has the rank of its declared risk, without
  -- regard to case and the space around it, and MEDIUM where it declares none or another word; a
  -- model that is not in the registry has LOW.
  pub mix_risk-eq-largest :
      (mix : List (ModelMixEntry F)) → risk_index (mix_risk registry mix) ≡ largest (ranks mix)
  mix_risk-eq-largest mix = highest_risk-max RiskLevel.low mix ∙ omega arith
