-- ===== src/Optimization/Engine.antt =====
-- app/optimization/engine.py. A literal is a number of hundredths; the sentence of the reasoning is
-- left out, and a policy's id is drawn for each candidate.
pub mod Proposals
use newchanges.Base.{
  ℕ, Bool, true, List, [], ◌∷◌, if◌then◌else◌, Option, none, some, String, str_eq, map,
}
use newchanges.Base.Float.{Float, min}
use newchanges.Base.Sort.{sort_by}

-- The arithmetic of the module.
pub record Scoring {ℓ} (F : Type ℓ) : Type ℓ where
  pub hundredths : ℕ → F
  pub times : F → F → F
  pub over : F → F → F
  pub negate : F → F
  -- `round(x, 2)`
  pub round : F → F

module _ {ℓ} (F : Type ℓ) where
  -- The dict of `_build_proposed_policy`.
  pub record ProposedPolicy : Type ℓ where
    pub policy_id : String
    pub workload_id : String
    pub strategy : String
    pub primary_model : String
    pub fallback_model : String
    pub estimated_monthly_saving_usd : F
    pub status : String
    pub requires_approval : Bool

  pub record OptimizationCandidate : Type ℓ where
    pub strategy_type : String
    pub name : String
    pub description : String
    pub estimated_saving_usd : F
    pub estimated_saving_percent : F
    pub quality_impact_percent : F
    pub latency_impact_percent : F
    pub risk_level : String
    pub composite_score : F
    pub proposed_policy : ProposedPolicy

  pub record OptimizationAnalysisResult : Type ℓ where
    pub workload_id : String
    pub current_strategy : String
    pub recommended_strategy : String
    pub estimated_saving : F
    pub estimated_saving_percent : F
    pub quality_impact : F
    pub latency_impact : F
    pub risk : String
    pub proposed_policy : ProposedPolicy
    pub all_candidates : List OptimizationCandidate

  -- The weights of `_score_candidate`.
  pub record Weights : Type ℓ where
    pub w_cost : F
    pub w_qual : F
    pub w_lat : F
    pub w_risk : F

module _ {ℓ} {F : Type ℓ} where
  unfoldable pub build_proposed_policy :
      String → String → String → String → String → F → ProposedPolicy F
  build_proposed_policy id workload strategy primary fallback saving = record {
    policy_id = id;
    workload_id = workload;
    strategy = strategy;
    primary_model = primary;
    fallback_model = fallback;
    estimated_monthly_saving_usd = saving;
    status = "PENDING_APPROVAL";
    requires_approval = true;
  }

  -- the result of `analyze` on the sorted candidates, where `none` is the `IndexError`
  unfoldable pub analysis_of :
      String → String → List (OptimizationCandidate F) → Option (OptimizationAnalysisResult F)
  analysis_of workload current [] = none
  analysis_of workload current (best ∷ others) = some (record {
    workload_id = workload;
    current_strategy = current;
    recommended_strategy = best.name;
    estimated_saving = best.estimated_saving_usd;
    estimated_saving_percent = best.estimated_saving_percent;
    quality_impact = best.quality_impact_percent;
    latency_impact = best.latency_impact_percent;
    risk = best.risk_level;
    proposed_policy = best.proposed_policy;
    all_candidates = best ∷ others;
  })

module _ {ℓ} {F : Type ℓ} ⦃f : Float F⦄ (k : Scoring F) where
  -- `round(historical_cost * (percent / 100.0), 2)`
  abbrev pub saving_usd : F → F → F
  saving_usd cost percent = k.round (k.times cost (k.over percent f.hundred))

  -- What the six candidates share.
  abbrev pub candidate_of :
      F → String → String → String → F → F → F → String → ProposedPolicy F → OptimizationCandidate F
  candidate_of cost type name description percent quality latency risk policy = record {
    strategy_type = type;
    name = name;
    description = description;
    estimated_saving_usd = saving_usd cost percent;
    estimated_saving_percent = percent;
    quality_impact_percent = quality;
    latency_impact_percent = latency;
    risk_level = risk;
    composite_score = f.nought;
    proposed_policy = policy;
  }

  -- `_generate_candidates`; the ids of the policies are drawn in order
  unfoldable pub generate_candidates :
      (ℕ → String) → String → F → String → List (OptimizationCandidate F)
  unfolding build_proposed_policy
  generate_candidates draw workload cost priority =
      candidate_of cost "model_routing" "Model Routing: Tiered Mini Routing"
        "Route standard classification queries to gpt-4o-mini and reserve advanced models for complex reasoning."
        (k.hundredths 4500) (k.hundredths 50) (k.negate (k.hundredths 3500)) "LOW"
        (build_proposed_policy (draw 0) workload "TIERED_MODEL_ROUTING" "gpt-4o-mini"
          "claude-3-5-sonnet" (saving_usd cost (k.hundredths 4500)))
      ∷ (candidate_of cost "context_reduction" "Context Reduction: Sliding Window & Summarization"
            "Trim prompt context from 20 events to last 5 recent events with structured summaries."
            (k.hundredths 2500) (k.hundredths 20) (k.negate (k.hundredths 2000)) "LOW"
            (build_proposed_policy (draw 1) workload "CONTEXT_WINDOW_REDUCTION" "claude-3-5-sonnet"
              "gpt-4o-mini" (saving_usd cost (k.hundredths 2500)))
          ∷ (candidate_of cost "agent_reduction" "Agent Reduction: Single-Pass Orchestration"
                "Consolidate multi-agent review loops into a single optimized prompt pass."
                (k.hundredths 3000) (k.hundredths 100) (k.negate (k.hundredths 4000)) "MEDIUM"
                (build_proposed_policy (draw 2) workload "SINGLE_PASS_AGENT_REDUCTION" "gpt-4o-mini"
                  "claude-3-5-sonnet" (saving_usd cost (k.hundredths 3000)))
              ∷ (candidate_of cost "tool_call_reduction"
                    "Tool-Call Reduction: Caching & Bound Limits"
                    "Cache repeated sensor/supplier queries and cap tool iteration loops at 3 calls."
                    (k.hundredths 2000) (k.hundredths 10) (k.negate (k.hundredths 2500)) "LOW"
                    (build_proposed_policy (draw 3) workload "TOOL_CACHE_AND_BOUND"
                      "claude-3-5-sonnet" "gpt-4o-mini" (saving_usd cost (k.hundredths 2000)))
                  ∷ (candidate_of cost "workload_scheduling"
                        "Workload Scheduling: Off-Peak Batching"
                        "Batch non-urgent inventory/logistics calculations into off-peak windows."
                        (k.hundredths 1500) (k.hundredths 0) (k.hundredths 5000)
                        (if str_eq priority "CRITICAL" then "HIGH" else "LOW")
                        (build_proposed_policy (draw 4) workload "OFF_PEAK_BATCH_SCHEDULE"
                          "gpt-4o-mini" "claude-3-5-sonnet" (saving_usd cost (k.hundredths 1500)))
                      ∷ (candidate_of cost "model_mix" "Model Mix: 80/20 Hybrid Traffic Split"
                            "Route 80% of traffic to lightweight models and 20% of edge cases to frontier reasoning models."
                            (k.hundredths 4000) (k.hundredths 30) (k.negate (k.hundredths 3000))
                            "LOW"
                            (build_proposed_policy (draw 5) workload "HYBRID_80_20_SPLIT"
                              "gpt-4o-mini (80%)" "claude-3-5-sonnet (20%)"
                              (saving_usd cost (k.hundredths 4000)))
                          ∷ [])))))

  abbrev pub weights_of : String → Weights F
  weights_of priority =
      if str_eq priority "CRITICAL"
      then record {
        w_cost = k.hundredths 30;
        w_qual = k.hundredths 40;
        w_lat = k.hundredths 20;
        w_risk = k.hundredths 10;
      }
      else if str_eq priority "HIGH"
      then record {
        w_cost = k.hundredths 40;
        w_qual = k.hundredths 30;
        w_lat = k.hundredths 20;
        w_risk = k.hundredths 10;
      }
      else if str_eq priority "LOW"
      then record {
        w_cost = k.hundredths 65;
        w_qual = k.hundredths 15;
        w_lat = k.hundredths 10;
        w_risk = k.hundredths 10;
      }
      else record {
        w_cost = k.hundredths 50;
        w_qual = k.hundredths 25;
        w_lat = k.hundredths 15;
        w_risk = k.hundredths 10;
      }

  abbrev pub risk_penalty : String → F
  risk_penalty risk =
      if str_eq risk "LOW"
      then k.hundredths 0
      else if str_eq risk "MEDIUM"
      then k.hundredths 1500
      else if str_eq risk "HIGH"
      then k.hundredths 3500
      else if str_eq risk "CRITICAL"
      then k.hundredths 7000
      else k.hundredths 2000

  abbrev pub composite_of : Weights F → OptimizationCandidate F → F
  composite_of w c =
      f.sub
        (f.add
          (f.sub
            (k.times w.w_cost
              (min f.hundred (k.times c.estimated_saving_percent (k.hundredths 200))))
            (k.times w.w_qual (k.times c.quality_impact_percent (k.hundredths 2000))))
          (k.times w.w_lat (k.negate c.latency_impact_percent)))
        (k.times w.w_risk (risk_penalty c.risk_level))

  -- `_score_candidate`
  unfoldable pub score_candidate : String → OptimizationCandidate F → OptimizationCandidate F
  score_candidate priority c = record c {
    composite_score = k.round (composite_of (weights_of priority) c);
  }

  -- the order of the sort by the score, reversed, which keeps the order of equal scores
  abbrev pub score_order : OptimizationCandidate F → OptimizationCandidate F → Bool
  score_order a b = f.le b.composite_score a.composite_score

  -- `analyze`, by the arguments that it uses
  unfoldable pub analyze :
      (ℕ → String) → String → F → String → String → Option (OptimizationAnalysisResult F)
  unfolding analysis_of generate_candidates score_candidate sort_by
  analyze draw workload cost priority current = analysis_of workload current (
      sort_by score_order
        (map (score_candidate priority) (generate_candidates draw workload cost priority)))
