-- ===== src/Optimization/Engine/Proposals.antt =====
-- What an analysis of the engine proposes.
use mathlib.Core.List.{Mem, Perm, mem-cons_self}
use mathlib.Core.List.Perm
use mathlib.Core.Bool.{Bool-set}
use newchanges.Base.{
  ℕ, ◌≡◌, refl, ◌∙◌, arith, Bool, true, ◌&&◌, ◌⊎◌, List, [], ◌∷◌, some, String, str_eq, map, All,
  All-of_mem, length,
}
use newchanges.Base.Float.{Float, IsOrdered, ◌≼◌}
use newchanges.Base.Sort.{
  sort_by, sort_by-perm, sort_by-IsSorted, length-sort_by, IsSorted, head_below,
}
use newchanges.Base.Membership.{All-mem}
use newchanges.Optimization.Engine.{
  Scoring, ProposedPolicy, OptimizationCandidate, OptimizationAnalysisResult, build_proposed_policy,
  generate_candidates, score_candidate, score_order, analysis_of, analyze,
}

-- A policy that waits for its approval.
abbrev pub is_pending {ℓ} : {F : Type ℓ} → ProposedPolicy F → Bool
is_pending p = str_eq p.status "PENDING_APPROVAL" && p.requires_approval

module _ {ℓ} {F : Type ℓ} ⦃f : Float F⦄ where
  -- Six candidates, all pending, and one with the highest score is the one that is recommended.
  pub record IsProposal (r : OptimizationAnalysisResult F) : Type ℓ where
    pub six : length r.all_candidates ≡ 6
    pub pending : All (λ c. is_pending c.proposed_policy ≡ true) r.all_candidates
    pub best : OptimizationCandidate F
    pub best_listed : Mem best r.all_candidates
    pub best_named : best.name ≡ r.recommended_strategy
    pub best_proposed : best.proposed_policy ≡ r.proposed_policy
    pub best_scored : All (λ c. c.composite_score ≼ best.composite_score) r.all_candidates

module _ {ℓ} {F : Type ℓ} ⦃f : Float F⦄ (o : IsOrdered F) (k : Scoring F) (draw : ℕ → String)
    (workload : String) (cost : F) (priority current : String) where
  scored : List (OptimizationCandidate F)
  scored = map (score_candidate k priority) (generate_candidates k draw workload cost priority)

  scored_pending : All (λ c. is_pending c.proposed_policy ≡ true) scored
  unfolding scored generate_candidates score_candidate build_proposed_policy
  scored_pending = (refl, (refl, (refl, (refl, (refl, (refl, tt))))))

  length-scored : length scored ≡ 6
  unfolding scored generate_candidates
  length-scored = refl

  order_total :
      (a b : OptimizationCandidate F) → (score_order k a b ≡ true) ⊎ (score_order k b a ≡ true)
  order_total a b = o.le_total b.composite_score a.composite_score

  order_trans :
      (a b c : OptimizationCandidate F)
      → score_order k a b ≡ true
      → score_order k b c ≡ true
      → score_order k a c ≡ true
  order_trans a b c h q = o.le_trans c.composite_score b.composite_score a.composite_score q h

  proposal :
      (cs : List (OptimizationCandidate F))
      → Perm cs scored
      → length cs ≡ 6
      → IsSorted (score_order k) cs
      → (r : OptimizationAnalysisResult F) × (analysis_of workload current cs ≡ some r)
        × IsProposal r
  unfolding analysis_of
  proposal [] p n s = absurd (ground arith)
  proposal (c ∷ cs) p n s = (
    _,
    refl,
    record {
      six = n;
      pending = All-of_mem _ (c ∷ cs) λ x m.
          All-mem (λ x. is_pending x.proposed_policy ≡ true) (λ x. Bool-set _ _) scored x
            scored_pending ((Perm.mem_iff p).0 m);
      best = c;
      best_listed = mem-cons_self;
      best_named = refl;
      best_proposed = refl;
      best_scored =
          All-of_mem _ (c ∷ cs)
            λ x m. head_below (score_order k) order_total order_trans c cs x s m;
    },
  )

  -- Over ordered floats, an analysis has a result with six candidates, whose policies, and the one
  -- that is proposed, all wait for their approval; the strategy and the policy that are recommended
  -- are those of a candidate whose score is the highest.
  pub analyze-IsProposal :
      (r : OptimizationAnalysisResult F) × (analyze k draw workload cost priority current ≡ some r)
      × IsProposal r
  unfolding analyze scored
  analyze-IsProposal =
      proposal (sort_by (score_order k) scored) (sort_by-perm (score_order k) scored)
        (length-sort_by (score_order k) scored ∙ length-scored)
        (sort_by-IsSorted (score_order k) order_total order_trans scored)
