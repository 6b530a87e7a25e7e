-- ===== src/Orchestrator/Classification/Rules.antt =====
-- The order of the complexity classes, and where a risk level comes from.
use newchanges.Base.{ℕ, ◌≤◌, ◌<◌, ◌≡◌, ◌≢◌, ◌↔◌, arith, Option, none, some, true, false}
use newchanges.Base.Float.{Float, IsOrdered, ◌≼◌}
use newchanges.Orchestrator.Classification.{
  Complexity, BusinessPriority, RiskLevel, ComplexityThresholds, ClassificationInput, payload_size,
  demands, classify_complexity, priority_index, risk_of_priority,
}

abbrev pub complexity_rank : Complexity → ℕ
complexity_rank Complexity.simple = 0
complexity_rank Complexity.medium = 1
complexity_rank Complexity.complex = 2

abbrev pub risk_rank : RiskLevel → ℕ
risk_rank RiskLevel.low = 0
risk_rank RiskLevel.medium = 1
risk_rank RiskLevel.high = 2
risk_rank RiskLevel.critical = 3

-- A requirement that asks for no less than another.
abbrev pub IsStricter {ℓ} : {F : Type ℓ} ⦃f : Float F⦄ → Option F → Option F → Type 0
IsStricter none q = Unit
IsStricter (some a) none = ⊥
IsStricter (some a) (some b) = a ≼ b

module _ {ℓ} {F : Type ℓ} ⦃f : Float F⦄ where
  demands-IsStricter :
      IsOrdered F
      → (a b : Option F) (q : F) → IsStricter a b
      → demands a q ≡ true
      → demands b q ≡ true
  demands-IsStricter o none b q h d = cc
  demands-IsStricter o (some a) none q h d = absurd h
  demands-IsStricter o (some a) (some b) q h d = o.le_trans q a b d h

  -- Over ordered floats and with two images or fewer enough for COMPLEX: a request with a payload
  -- at least as large, at least as many images and a quality requirement at least as high is not
  -- put in a lower class.
  pub classify_complexity_mono :
      IsOrdered F
      → (t : ComplexityThresholds F) (r s : ClassificationInput F) → t.complex_image_count ≤ 2
      → payload_size r.payload ≤ payload_size s.payload
      → r.image_count ≤ s.image_count
      → IsStricter r.quality_requirement s.quality_requirement
      → complexity_rank (classify_complexity t r) ≤ complexity_rank (classify_complexity t s)
  unfolding classify_complexity
  classify_complexity_mono o t r s images size count quality = ground (
    arith,
    demands-IsStricter o r.quality_requirement s.quality_requirement t.high_quality_requirement
        quality,
  )

  pub classify_complexity-simple_iff :
      (t : ComplexityThresholds F) (r : ClassificationInput F)
      → 0 < t.complex_image_count
      → (classify_complexity t r ≡ Complexity.simple) ↔ (
          (payload_size r.payload < t.medium_chars)
          × (payload_size r.payload < t.complex_chars)
          × (r.image_count < t.complex_image_count)
          × (r.image_count ≢ 1)
          × (demands r.quality_requirement t.high_quality_requirement ≡ false))
  unfolding classify_complexity
  classify_complexity-simple_iff t r h = (λ e. ground arith, λ e. ground arith)

priority_mono :
    (a b : BusinessPriority)
    → priority_index a ≤ priority_index b
    → risk_rank (risk_of_priority a) ≤ risk_rank (risk_of_priority b)
priority_mono a b h = ground arith
