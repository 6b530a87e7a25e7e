-- ===== src/Intelligence/Spikes/Drops.antt =====
-- What the detector does with numbers that are not above their baseline.
use newchanges.Base.{
  ◌≡◌, refl, ◌∙◌, arith, true, inl, inr, Bool-cases, [], Option, none, some, String,
}
use newchanges.Base.Float.{Float, IsOrdered, ◌≼◌, max}
use newchanges.Intelligence.Spikes.{
  CostAnomalyDetector, CurrentMetrics, HistoricalBaseline, Literals, z_score, usable_std,
  evaluate_metric, check_metric, check_metrics, mean_of, std_of, check_models, detect_anomalies,
  expensive_of, total_calls,
}

module _ {ℓ} {F : Type ℓ} ⦃f : Float F⦄ where
  -- A number that is given is at most the mean.
  abbrev pub IsAtMost : F → Option F → Type 0
  IsAtMost mean none = Unit
  IsAtMost mean (some x) = x ≼ mean

-- 1.0 is positive, and a difference that is not positive has no positive quotient.
pub record IsCentred {ℓ} {F : Type ℓ} ⦃f : Float F⦄ (k : Literals F) : Type ℓ where
  pub one_pos : f.lt f.nought k.one ≡ true
  pub below :
      (x mean s : F) → x ≼ mean → f.lt f.nought s ≡ true → k.over (f.sub x mean) s ≼ f.nought

module _ {ℓ} {F : Type ℓ} ⦃f : Float F⦄ (o : IsOrdered F) (k : Literals F) (law : IsCentred k) where
  max_pos : (y : F) → f.lt f.nought (max k.one y) ≡ true
  max_pos y = ground (
    arith,
    law.one_pos,
    o.lt-eq-not-le f.nought k.one,
    o.lt-eq-not-le k.one y,
    o.lt-eq-not-le f.nought y,
    o.le_total f.nought k.one,
    o.le_trans y f.nought k.one,
  )

  usable_std_pos : (mean std : F) → f.lt f.nought (usable_std k mean std) ≡ true
  usable_std_pos mean std = elim (Bool-cases (f.le std f.nought)) [
    | inl q ↦ rw q (max_pos (k.times mean k.tenth))
    | inr q ↦ rw q (o.lt-eq-not-le f.nought std ∙ rw q refl)
  ]

  check_metric_drop :
      (name : String) (v : Option F) (mean std threshold : F) (unit t i : String)
      → f.nought ≼ threshold
      → IsAtMost mean v
      → check_metric k name v mean std threshold unit t i ≡ []
  unfolding check_metric evaluate_metric
  check_metric_drop name none mean std threshold unit t i p h = refl
  check_metric_drop name (some x) mean std threshold unit t i p h =
      rw
        (o.le_trans (z_score k mean std x) f.nought threshold
          (law.below x mean (usable_std k mean std) h (usable_std_pos mean std)) p)
        refl

  -- Over ordered floats, where 1.0 is positive and a difference that is not positive has no
  -- positive quotient, and with thresholds that are not negative: where no number is above its
  -- mean, the cost detector reports the shifts to expensive models alone, however far the numbers
  -- have dropped.
  pub detect_anomalies_drop :
      (c : CostAnomalyDetector F) (m : CurrentMetrics F) (b : HistoricalBaseline F) (t i : String)
      → (f.nought ≼ c.cost_z)
        × (f.nought ≼ c.token_z)
        × (f.nought ≼ c.latency_z)
        × (f.nought ≼ c.volume_z)
      → IsAtMost (mean_of k.cost_mean b.cost_usd) m.cost_usd
      → IsAtMost (mean_of k.token_mean b.token_count) m.token_count
      → IsAtMost (mean_of k.latency_mean b.latency_ms) m.latency_ms
      → IsAtMost (mean_of k.volume_mean b.request_count) m.request_count
      → detect_anomalies k c m b t i
        ≡ check_models k
            (expensive_of k b.expensive_models)
            (total_calls m.model_distribution)
            m.model_distribution
            t
            i
  unfolding detect_anomalies check_metrics
  detect_anomalies_drop c m b t i p cost token latency volume =
      rw
        (check_metric_drop "cost_spike" m.cost_usd (mean_of k.cost_mean b.cost_usd)
          (std_of k.cost_std b.cost_usd) c.cost_z "USD" t i p.0 cost)
        (rw
          (check_metric_drop "token_spike" m.token_count (mean_of k.token_mean b.token_count)
            (std_of k.token_std b.token_count) c.token_z "tokens" t i p.1 token)
          (rw
            (check_metric_drop "latency_spike" m.latency_ms (mean_of k.latency_mean b.latency_ms)
              (std_of k.latency_std b.latency_ms) c.latency_z "ms" t i p.2 latency)
            (rw
              (check_metric_drop "unusual_workload_volume" m.request_count
                (mean_of k.volume_mean b.request_count) (std_of k.volume_std b.request_count)
                c.volume_z "requests" t i p.3 volume)
              refl)))
