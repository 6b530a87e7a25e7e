-- ===== src/Intelligence/Sensors/Report.antt =====
-- The lists of a sensor report.
use mathlib.Core.List.{append-nil, append_assoc}
use newchanges.Base.{
  ◌≡◌, refl, sym, ap, ◌∙◌, ◌⊎◌, inl, inr, Bool, true, false, not, List, [], ◌∷◌, ◌++◌,
  if◌then◌else◌, Option, none, some, String, is_none, is_empty, any, keep, map, Bool-cases,
}
use newchanges.Base.Float.{Float}
use newchanges.Intelligence.Sensors.{
  Deviations, Reading, NormalRange, MetricDetail, Scan, reading_value, exceeds, detail_of,
  scan_step, scan, no_scan, detect,
}

module _ {ℓ} {F : Type ℓ} ⦃f : Float F⦄ ⦃d : Deviations F⦄ where
  abbrev pub out_of : NormalRange F → Option F → Bool
  out_of n none = false
  out_of n (some x) = exceeds n x

module _ {ℓ} {F : Type ℓ} ⦃f : Float F⦄ ⦃d : Deviations F⦄ (readings : String → Reading F) where
  abbrev pub is_unread : String × NormalRange F → Bool
  is_unread m = is_none (reading_value (readings m.0))

  -- A metric with a number that is beyond its threshold.
  abbrev pub is_out : String × NormalRange F → Bool
  is_out m = out_of m.1 (reading_value (readings m.0))

  abbrev pub names : (String × NormalRange F → Bool) → List (String × NormalRange F) → List String
  names p ranges = map (λ (m : String × NormalRange F). m.0) (keep p ranges)

  names-cons :
      (p : String × NormalRange F → Bool) (m : String × NormalRange F)
      (ranges : List (String × NormalRange F)) (us : List String)
      → (us ++ (if p m then m.0 ∷ [] else [])) ++ names p ranges ≡ us ++ names p (m ∷ ranges)
  names-cons p m ranges us =
      append_assoc us _ (names p ranges) ∙ ap (λ vs. us ++ vs) (split (Bool-cases (p m)))
    where
      split :
          (p m ≡ true) ⊎ (p m ≡ false)
          → (if p m then m.0 ∷ [] else []) ++ names p ranges ≡ names p (m ∷ ranges)
      split (inl q) = rw q refl
      split (inr q) = rw q refl

  any-names :
      (p : String × NormalRange F → Bool) (ranges : List (String × NormalRange F))
      → not (is_empty (names p ranges)) ≡ any p ranges
  any-names p [] = refl
  any-names p (m ∷ ranges) = elim (Bool-cases (p m)) [
    | inl q ↦ rw q refl
    | inr q ↦ rw q (any-names p ranges)
  ]

  step_missing :
      (a : Scan F) (name : String) (n : NormalRange F) (o : Option F)
      → (scan_step a name n o).missing ≡ a.missing ++ (if is_none o then name ∷ [] else [])
  step_missing a name n none = refl
  step_missing a name n (some x) = sym (append-nil a.missing)

  step_anomalous :
      (a : Scan F) (name : String) (n : NormalRange F) (o : Option F)
      → (scan_step a name n o).anomalous ≡ a.anomalous ++ (if out_of n o then name ∷ [] else [])
  step_anomalous a name n none = sym (append-nil a.anomalous)
  step_anomalous a name n (some x) = refl

  detailed : Scan F → List String
  detailed a = map (λ (m : String × MetricDetail F). m.0) a.details

  step_detailed :
      (a : Scan F) (name : String) (n : NormalRange F) (o : Option F)
      → detailed (scan_step a name n o) ≡ detailed a ++ (if not (is_none o) then name ∷ [] else [])
  unfolding detailed
  step_detailed a name n none = sym (append-nil _)
  step_detailed a name n (some x) = map-append a.details
    where
      map-append :
          (ds : List (String × MetricDetail F))
          → map (λ (m : String × MetricDetail F). m.0) (ds ++ ((name, detail_of n x) ∷ []))
            ≡ map (λ (m : String × MetricDetail F). m.0) ds ++ (name ∷ [])
      map-append [] = refl
      map-append (m ∷ ds) = ap (λ us. m.0 ∷ us) (map-append ds)

  scan-missing :
      (a : Scan F) (ranges : List (String × NormalRange F))
      → (scan readings a ranges).missing ≡ a.missing ++ names is_unread ranges
  unfolding scan
  scan-missing a [] = sym (append-nil a.missing)
  scan-missing a ((name, n) ∷ ranges) =
      scan-missing (scan_step a name n (reading_value (readings name))) ranges
      ∙ ap (λ us. us ++ names is_unread ranges)
          (step_missing a name n (reading_value (readings name)))
      ∙ names-cons is_unread (name, n) ranges a.missing

  scan-anomalous :
      (a : Scan F) (ranges : List (String × NormalRange F))
      → (scan readings a ranges).anomalous ≡ a.anomalous ++ names is_out ranges
  unfolding scan
  scan-anomalous a [] = sym (append-nil a.anomalous)
  scan-anomalous a ((name, n) ∷ ranges) =
      scan-anomalous (scan_step a name n (reading_value (readings name))) ranges
      ∙ ap (λ us. us ++ names is_out ranges)
          (step_anomalous a name n (reading_value (readings name)))
      ∙ names-cons is_out (name, n) ranges a.anomalous

  scan-detailed :
      (a : Scan F) (ranges : List (String × NormalRange F))
      → detailed (scan readings a ranges) ≡ detailed a ++ names (λ m. not (is_unread m)) ranges
  unfolding scan
  scan-detailed a [] = sym (append-nil (detailed a))
  scan-detailed a ((name, n) ∷ ranges) =
      scan-detailed (scan_step a name n (reading_value (readings name))) ranges
      ∙ ap (λ us. us ++ names (λ m. not (is_unread m)) ranges)
          (step_detailed a name n (reading_value (readings name)))
      ∙ names-cons (λ m. not (is_unread m)) (name, n) ranges (detailed a)

  -- A sensor report lists, in the order of the ranges, as missing the metrics without a number, in
  -- detail the metrics with one, and as anomalous those whose number is beyond the threshold; it is
  -- anomalous exactly where there is one of the last.
  pub detect-names :
      (ranges : List (String × NormalRange F))
      → ((detect ranges readings).missing_metrics ≡ names is_unread ranges)
        × (map (λ (m : String × MetricDetail F). m.0) (detect ranges readings).metric_details
            ≡ names (λ m. not (is_unread m)) ranges)
        × ((detect ranges readings).anomalous_metrics ≡ names is_out ranges)
        × ((detect ranges readings).is_anomalous ≡ any is_out ranges)
  unfolding detect detailed
  detect-names ranges = (
    scan-missing no_scan ranges,
    scan-detailed no_scan ranges,
    scan-anomalous no_scan ranges,
    ap (λ us. not (is_empty us)) (scan-anomalous no_scan ranges) ∙ any-names is_out ranges,
  )
