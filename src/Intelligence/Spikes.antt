-- ===== src/Intelligence/Spikes.antt =====
-- app/intelligence/cost_anomaly_detector.py. The literals are the fields of `Literals`; a reason is
-- a constructor in place of its sentence. A value under a key of the metrics is a number or is
-- taken as absent.
pub mod Severity
pub mod Drops
use newchanges.Base.{
  ℕ, ◌+◌, ltb, Bool, true, false, not, ◌&&◌, List, [], ◌∷◌, ◌++◌, if◌then◌else◌, Option, none, some,
  String, str_eq, any,
}
use newchanges.Base.Float.{Float, max}

pub data AnomalySeverity : Type 0 where
  low medium high critical : AnomalySeverity

pub data Reason {ℓ} (F : Type ℓ) : Type ℓ where
  above_baseline : F → String → F → F → F → F → Reason F
  model_shift : String → F → Reason F

module _ {ℓ} (F : Type ℓ) where
  pub record DetectedAnomaly : Type ℓ where
    pub anomaly_type : String
    pub severity : AnomalySeverity
    pub expected_value : F
    pub actual_value : F
    pub deviation_percent : F
    pub reason : Reason F
    pub scope_type : String
    pub scope_id : String

  -- The four thresholds of the detector.
  pub record CostAnomalyDetector : Type ℓ where
    pub cost_z : F
    pub token_z : F
    pub latency_z : F
    pub volume_z : F

  -- `{"mean": …, "std": …}`, where either may be left out
  pub record MetricBaseline : Type ℓ where
    pub mean : Option F
    pub std : Option F

  pub record CurrentMetrics : Type ℓ where
    pub cost_usd : Option F
    pub token_count : Option F
    pub latency_ms : Option F
    pub request_count : Option F
    pub model_distribution : List (String × ℕ)

  pub record HistoricalBaseline : Type ℓ where
    pub cost_usd : Option MetricBaseline
    pub token_count : Option MetricBaseline
    pub latency_ms : Option MetricBaseline
    pub request_count : Option MetricBaseline
    pub expensive_models : Option (List String)

  -- The arithmetic and the literals of the module.
  pub record Literals : Type ℓ where
    pub times : F → F → F
    pub over : F → F → F
    -- `round(x, 2)`
    pub round : F → F
    -- `n / m` for ints
    pub ratio : ℕ → ℕ → F
    -- 0.01, 0.1, 1.0, 1.2, 1.5, 2.0 and 10.0
    pub cent : F
    pub tenth : F
    pub one : F
    pub six_fifths : F
    pub three_halves : F
    pub two : F
    pub ten : F
    -- 0.40 and 0.60
    pub two_fifths : F
    pub three_fifths : F
    pub cost_mean : F
    pub cost_std : F
    pub token_mean : F
    pub token_std : F
    pub latency_mean : F
    pub latency_std : F
    pub volume_mean : F
    pub volume_std : F
    pub expensive_models : List String

abbrev pub total_calls : List (String × ℕ) → ℕ
total_calls [] = 0
total_calls ((name, n) ∷ rest) = n + total_calls rest

module _ {ℓ} {F : Type ℓ} where
  abbrev pub or_default : F → Option F → F
  or_default default none = default
  or_default default (some x) = x

  -- `baseline.get(key, {…}).get("mean", default)`, and the same for `"std"`
  abbrev pub mean_of : F → Option (MetricBaseline F) → F
  mean_of default none = default
  mean_of default (some b) = or_default default b.mean

  abbrev pub std_of : F → Option (MetricBaseline F) → F
  std_of default none = default
  std_of default (some b) = or_default default b.std

  abbrev pub listed : Option (DetectedAnomaly F) → List (DetectedAnomaly F)
  listed none = []
  listed (some a) = a ∷ []

module _ {ℓ} {F : Type ℓ} ⦃f : Float F⦄ (k : Literals F) where
  -- `if std <= 0: std = max(1.0, mean * 0.1)`
  abbrev pub usable_std : F → F → F
  usable_std mean std = if f.le std f.nought then max k.one (k.times mean k.tenth) else std

  abbrev pub z_score : F → F → F → F
  z_score mean std actual = k.over (f.sub actual mean) (usable_std mean std)

  unfoldable pub severity_of : F → F → AnomalySeverity
  severity_of threshold z =
      if f.le (k.times threshold k.two) z
      then AnomalySeverity.critical
      else if f.le (k.times threshold k.three_halves) z
      then AnomalySeverity.high
      else if f.le (k.times threshold k.six_fifths) z
      then AnomalySeverity.medium
      else AnomalySeverity.low

  abbrev pub percent_above : F → F → F
  percent_above mean actual =
      k.round (k.times (k.over (f.sub actual mean) (max k.cent mean)) f.hundred)

  -- `_evaluate_metric`
  unfoldable pub evaluate_metric :
      String → F → F → F → F → String → String → String → Option (DetectedAnomaly F)
  unfolding severity_of
  evaluate_metric name actual mean std threshold unit scope_type scope_id =
      if f.le (z_score mean std actual) threshold
      then none
      else some (record {
        anomaly_type = name;
        severity = severity_of threshold (z_score mean std actual);
        expected_value = k.round mean;
        actual_value = k.round actual;
        deviation_percent = percent_above mean actual;
        reason =
            Reason.above_baseline actual unit mean (usable_std mean std) (z_score mean std actual)
              (percent_above mean actual);
        scope_type = scope_type;
        scope_id = scope_id;
      })

  -- one of the four blocks of `detect_anomalies`
  unfoldable pub check_metric :
      String → Option F → F → F → F → String → String → String → List (DetectedAnomaly F)
  unfolding evaluate_metric
  check_metric name none mean std threshold unit scope_type scope_id = []
  check_metric name (some actual) mean std threshold unit scope_type scope_id =
      listed (evaluate_metric name actual mean std threshold unit scope_type scope_id)

  abbrev pub expensive_of : Option (List String) → List String
  expensive_of none = k.expensive_models
  expensive_of (some xs) = xs

  abbrev pub shift_of : String → F → String → String → DetectedAnomaly F
  shift_of name share scope_type scope_id = record {
    anomaly_type = "unusual_model_usage";
    severity = if f.lt k.three_fifths share then AnomalySeverity.high else AnomalySeverity.medium;
    expected_value = k.ten;
    actual_value = k.round (k.times share f.hundred);
    deviation_percent = f.sub (k.round (k.times share f.hundred)) k.ten;
    reason = Reason.model_shift name (k.round (k.times share f.hundred));
    scope_type = scope_type;
    scope_id = scope_id;
  }

  -- the loop over the model distribution
  unfoldable pub check_models :
      List String → ℕ → List (String × ℕ) → String → String → List (DetectedAnomaly F)
  check_models expensive total [] scope_type scope_id = []
  check_models expensive total ((name, n) ∷ rest) scope_type scope_id =
      let later = check_models expensive total rest scope_type scope_id in
      if ltb 0 total && (any (str_eq name) expensive && f.lt k.two_fifths (k.ratio n total))
      then shift_of name (k.ratio n total) scope_type scope_id ∷ later
      else later

  -- The four blocks on one number each.
  unfoldable pub check_metrics :
      CostAnomalyDetector F
      → CurrentMetrics F
      → HistoricalBaseline F
      → String
      → String
      → List (DetectedAnomaly F)
  unfolding check_metric
  check_metrics c m b scope_type scope_id =
      check_metric "cost_spike" m.cost_usd (mean_of k.cost_mean b.cost_usd)
        (std_of k.cost_std b.cost_usd) c.cost_z "USD" scope_type scope_id
      ++ (check_metric "token_spike" m.token_count (mean_of k.token_mean b.token_count)
            (std_of k.token_std b.token_count) c.token_z "tokens" scope_type scope_id
          ++ (check_metric "latency_spike" m.latency_ms (mean_of k.latency_mean b.latency_ms)
                (std_of k.latency_std b.latency_ms) c.latency_z "ms" scope_type scope_id
              ++ check_metric "unusual_workload_volume" m.request_count
                  (mean_of k.volume_mean b.request_count) (std_of k.volume_std b.request_count)
                  c.volume_z "requests" scope_type scope_id))

  -- `detect_anomalies`
  unfoldable pub detect_anomalies :
      CostAnomalyDetector F
      → CurrentMetrics F
      → HistoricalBaseline F
      → String
      → String
      → List (DetectedAnomaly F)
  unfolding check_metrics check_models
  detect_anomalies c m b scope_type scope_id =
      check_metrics c m b scope_type scope_id
      ++ check_models (expensive_of b.expensive_models) (total_calls m.model_distribution)
          m.model_distribution scope_type scope_id
