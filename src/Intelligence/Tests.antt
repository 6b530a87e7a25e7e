-- ===== src/Intelligence/Tests.antt =====
-- Runs of the detectors over whole numbers, and their theorems at concrete inputs.
use Prim.Native.Nat.{◌/◌}
use native.Mathlib.Nat.{le-div_iff_mul-le, div-mul-le_self}
use newchanges.Base.{
  ℕ, ◌*◌, none, some, ◌≤◌, ◌<◌, ◌≡◌, refl, true, not, List, [], ◌∷◌, String, str_eq, if◌then◌else◌,
  map, any, arith,
}
use newchanges.Base.Float.{◌≼◌}
use newchanges.Base.Sample.{nat_float, ℕ-IsOrdered}
use newchanges.Intelligence.Spikes.{
  Literals, CostAnomalyDetector, CurrentMetrics, HistoricalBaseline, detect_anomalies, check_models,
}
use newchanges.Intelligence.Spikes.Drops.{IsCentred, detect_anomalies_drop}
use newchanges.Intelligence.Sensors.{Deviations, Reading, NormalRange, MetricDetail, detect, scan}
use newchanges.Intelligence.Sensors.Report.{names, is_unread, is_out, detect-names}
use newchanges.Intelligence.Sensors.Score.{IsScaled, detect_score}

instance abbrev nat_deviations : Deviations ℕ
nat_deviations = record { magnitude = λ x. x; over = λ a b. a / b; round = λ x. x; one = 1 }

div_above : (z t : ℕ) → 0 < t → t < z → 1 ≤ z / t
div_above z t p h = (le-div_iff_mul-le p).1 (omega arith)

ℕ-IsScaled : IsScaled ℕ
ℕ-IsScaled = record {
  over_above = λ z t p h. ground (arith, div_above z t (ground arith) (ground arith));
  round_mono = λ a b h. h;
  round_one = refl;
}

abbrev ranges : List (String × NormalRange ℕ)
ranges =
    ("temperature", record { mean = 65; std = 10; z_threshold = 2 })
    ∷ (("rpm", record { mean = 1500; std = 200; z_threshold = 2 }) ∷ [])

-- The machine is hot, and its speed is not known.
abbrev readings : String → Reading ℕ
readings name = if str_eq name "temperature" then Reading.number 100 else Reading.not_finite

detect-hot : (detect ranges readings).anomalous_metrics ≡ ("temperature" ∷ [])
unfolding detect scan
detect-hot = refl

detect-is_anomalous : (detect ranges readings).is_anomalous ≡ true
unfolding detect scan
detect-is_anomalous = refl

detect-names_example :
    ((detect ranges readings).missing_metrics ≡ names readings (is_unread readings) ranges)
    × (map (λ (m : String × MetricDetail ℕ). m.0) (detect ranges readings).metric_details
        ≡ names readings (λ m. not (is_unread readings m)) ranges)
    × ((detect ranges readings).anomalous_metrics ≡ names readings (is_out readings) ranges)
    × ((detect ranges readings).is_anomalous ≡ any (is_out readings) ranges)
detect-names_example = detect-names readings ranges

detect_score_example :
    (1 ≼ (detect ranges readings).anomaly_score) × ((detect ranges readings).anomaly_score ≼ 1)
detect_score_example =
    detect_score ℕ-IsOrdered ℕ-IsScaled readings ranges (refl, (refl, tt)) detect-is_anomalous

-- Tenths stand for the literals, and percentages for the shares.
abbrev literals : Literals ℕ
literals = record {
  times = λ a b. a * b / 10;
  over = λ a b. a / b;
  round = λ x. x;
  ratio = λ n m. n * 100 / m;
  cent = 1;
  tenth = 1;
  one = 10;
  six_fifths = 12;
  three_halves = 15;
  two = 20;
  ten = 100;
  two_fifths = 40;
  three_fifths = 60;
  cost_mean = 50;
  cost_std = 10;
  token_mean = 10000;
  token_std = 2000;
  latency_mean = 450;
  latency_std = 100;
  volume_mean = 100;
  volume_std = 20;
  expensive_models = "gpt-4o" ∷ [];
}

div_nought : (s : ℕ) → 0 < s → 0 / s ≤ 0
div_nought s p = ground (arith, div-mul-le_self 0 s)

literals-IsCentred : IsCentred literals
literals-IsCentred = record {
  one_pos = refl;
  below = λ x mean s h p. ground (arith, div_nought s (ground arith));
}

abbrev detector : CostAnomalyDetector ℕ
detector = record { cost_z = 2; token_z = 2; latency_z = 3; volume_z = 2 }

abbrev no_baseline : HistoricalBaseline ℕ
no_baseline = record {
  cost_usd = none;
  token_count = none;
  latency_ms = none;
  request_count = none;
  expensive_models = none;
}

-- The requests have stopped, and half of the calls go to the expensive model.
abbrev stopped : CurrentMetrics ℕ
stopped = record {
  cost_usd = some 40;
  token_count = none;
  latency_ms = none;
  request_count = some 0;
  model_distribution = ("gpt-4o", 5) ∷ (("mini", 5) ∷ []);
}

detect_anomalies_drop_example :
    detect_anomalies literals detector stopped no_baseline "TENANT" "acme"
    ≡ check_models literals ("gpt-4o" ∷ []) 10 stopped.model_distribution "TENANT" "acme"
detect_anomalies_drop_example =
    detect_anomalies_drop ℕ-IsOrdered literals literals-IsCentred detector stopped no_baseline
      "TENANT" "acme" (refl, refl, refl, refl) refl tt tt refl
