-- ===== src/Intelligence/Sensors.antt =====
-- app/intelligence/anomaly_detector.py. The literals of `NORMAL_RANGES` are an argument.
pub mod Report
pub mod Score
use newchanges.Base.{
  Bool, true, false, not, List, [], ◌∷◌, ◌++◌, if◌then◌else◌, Option, none, some, String, is_empty,
}
use newchanges.Base.Float.{Float, min, max}

-- `abs`, `/`, `round(x, 4)` and 1.0
pub record Deviations {ℓ} (F : Type ℓ) : Type ℓ where
  pub magnitude : F → F
  pub over : F → F → F
  pub round : F → F
  pub one : F

-- What `sensor_readings.get(name)` gives: nothing, no number, NaN or an infinity, or a number.
pub data Reading {ℓ} (F : Type ℓ) : Type ℓ where
  absent not_numeric not_finite : Reading F
  number : F → Reading F

module _ {ℓ} (F : Type ℓ) where
  pub record NormalRange : Type ℓ where
    pub mean : F
    pub std : F
    pub z_threshold : F

  pub record MetricDetail : Type ℓ where
    pub value : F
    pub z_score : F
    pub z_threshold : F
    pub is_anomalous : Bool
    pub mean : F
    pub std : F

  pub record AnomalyResult : Type ℓ where
    pub is_anomalous : Bool
    pub anomaly_score : F
    pub anomalous_metrics : List String
    pub metric_details : List (String × MetricDetail)
    pub missing_metrics : List String
    pub data_quality : String

  -- the locals of the loop of `detect`
  pub record Scan : Type ℓ where
    pub details : List (String × MetricDetail)
    pub anomalous : List String
    pub missing : List String
    pub deviation : F

module _ {ℓ} {F : Type ℓ} where
  -- the value, where no guard skips the metric
  abbrev pub reading_value : Reading F → Option F
  reading_value Reading.absent = none
  reading_value Reading.not_numeric = none
  reading_value Reading.not_finite = none
  reading_value (Reading.number x) = some x

  -- `normal_ranges or NORMAL_RANGES`
  abbrev pub ranges_of :
      List (String × NormalRange F)
      → Option (List (String × NormalRange F))
      → List (String × NormalRange F)
  ranges_of default none = default
  ranges_of default (some []) = default
  ranges_of default (some (x ∷ xs)) = x ∷ xs

module _ {ℓ} {F : Type ℓ} ⦃f : Float F⦄ ⦃d : Deviations F⦄ where
  abbrev pub z_score_of : NormalRange F → F → F
  z_score_of n x =
      if f.le n.std f.nought then f.nought else d.over (d.magnitude (f.sub x n.mean)) n.std

  abbrev pub exceeds : NormalRange F → F → Bool
  exceeds n x = f.lt n.z_threshold (z_score_of n x)

  abbrev pub detail_of : NormalRange F → F → MetricDetail F
  detail_of n x = record {
    value = x;
    z_score = d.round (z_score_of n x);
    z_threshold = n.z_threshold;
    is_anomalous = exceeds n x;
    mean = n.mean;
    std = n.std;
  }

  -- the maximum so far of the normalised deviations
  abbrev pub deviate : F → NormalRange F → F → F
  deviate highest n x =
      if f.lt f.nought n.z_threshold
      then max highest (d.over (z_score_of n x) n.z_threshold)
      else highest

  -- one round of the loop
  abbrev pub scan_step : Scan F → String → NormalRange F → Option F → Scan F
  scan_step a name n none = record a { missing = a.missing ++ (name ∷ []) }
  scan_step a name n (some x) = record a {
    details = a.details ++ ((name, detail_of n x) ∷ []);
    anomalous = a.anomalous ++ (if exceeds n x then name ∷ [] else []);
    deviation = deviate a.deviation n x;
  }

  unfoldable pub scan : (String → Reading F) → Scan F → List (String × NormalRange F) → Scan F
  scan readings a [] = a
  scan readings a ((name, n) ∷ ranges) =
      scan readings (scan_step a name n (reading_value (readings name))) ranges

  abbrev pub no_scan : Scan F
  no_scan = record { details = []; anomalous = []; missing = []; deviation = f.nought }

  abbrev pub result_of : Scan F → AnomalyResult F
  result_of a = record {
    is_anomalous = not (is_empty a.anomalous);
    anomaly_score = d.round (min a.deviation d.one);
    anomalous_metrics = a.anomalous;
    metric_details = a.details;
    missing_metrics = a.missing;
    data_quality = "ACTUAL";
  }

  -- `detect`
  unfoldable pub detect : List (String × NormalRange F) → (String → Reading F) → AnomalyResult F
  unfolding scan
  detect ranges readings = result_of (scan readings no_scan ranges)
