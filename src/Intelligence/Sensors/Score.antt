-- ===== src/Intelligence/Sensors/Score.antt =====
-- The score of a sensor report.
use mathlib.Core.Path.{subst}
use newchanges.Base.{
  ◌≡◌, sym, ◌∙◌, arith, inl, inr, true, List, [], ◌∷◌, Option, none, some, String, any, All,
  Bool-cases,
}
use newchanges.Base.Float.{Float, IsOrdered, ◌≼◌, min, max}
use newchanges.Intelligence.Sensors.{
  Deviations, Reading, NormalRange, Scan, reading_value, z_score_of, exceeds, deviate, scan_step,
  scan, no_scan, detect,
}
use newchanges.Intelligence.Sensors.Report.{is_out, out_of, detect-names}

-- Rounded division and rounding respect the order around 1.0.
pub record IsScaled {ℓ} (F : Type ℓ) ⦃f : Float F⦄ ⦃d : Deviations F⦄ : Type ℓ where
  pub over_above : (z t : F) → f.lt f.nought t ≡ true → f.lt t z ≡ true → d.one ≼ d.over z t
  pub round_mono : (a b : F) → a ≼ b → d.round a ≼ d.round b
  pub round_one : d.round d.one ≡ d.one

module _ {ℓ} {F : Type ℓ} ⦃f : Float F⦄ ⦃d : Deviations F⦄ (o : IsOrdered F) (s : IsScaled F) where
  max_left : (a b : F) → a ≼ max a b
  max_left a b = ground (arith, o.le_refl a, o.le_total a b, o.lt-eq-not-le a b)

  max_right : (a b : F) → b ≼ max a b
  max_right a b = ground (arith, o.le_refl b, o.lt-eq-not-le a b)

  min_right : (a b : F) → min a b ≼ b
  min_right a b = ground (arith, o.le_refl b, o.lt-eq-not-le b a)

  le-min : (a b : F) → b ≼ a → b ≼ min a b
  le-min a b h = ground (arith, o.le_refl b, o.lt-eq-not-le b a)

  deviate_le : (h : F) (n : NormalRange F) (x : F) → h ≼ deviate h n x
  deviate_le h n x = elim (Bool-cases (f.lt f.nought n.z_threshold)) [
    | inl q ↦ rw q (max_left h (d.over (z_score_of n x) n.z_threshold))
    | inr q ↦ rw q (o.le_refl h)
  ]

  deviate_out :
      (h : F) (n : NormalRange F) (x : F)
      → f.lt f.nought n.z_threshold ≡ true
      → exceeds n x ≡ true
      → d.one ≼ deviate h n x
  deviate_out h n x p e = rw p (
      o.le_trans d.one (d.over (z_score_of n x) n.z_threshold) _
        (s.over_above (z_score_of n x) n.z_threshold p e)
        (max_right h (d.over (z_score_of n x) n.z_threshold)))

  step_le :
      (a : Scan F) (name : String) (n : NormalRange F) (v : Option F)
      → a.deviation ≼ (scan_step a name n v).deviation
  step_le a name n none = o.le_refl a.deviation
  step_le a name n (some x) = deviate_le a.deviation n x

  step_out :
      (a : Scan F) (name : String) (n : NormalRange F) (v : Option F)
      → f.lt f.nought n.z_threshold ≡ true
      → out_of n v ≡ true
      → d.one ≼ (scan_step a name n v).deviation
  step_out a name n none p e = absurd (ground arith)
  step_out a name n (some x) p e = deviate_out a.deviation n x p e

  module _ (readings : String → Reading F) where
    scan_le :
        (a : Scan F) (ranges : List (String × NormalRange F))
        → a.deviation ≼ (scan readings a ranges).deviation
    unfolding scan
    scan_le a [] = o.le_refl a.deviation
    scan_le a ((name, n) ∷ ranges) =
        o.le_trans a.deviation (scan_step a name n (reading_value (readings name))).deviation _
          (step_le a name n (reading_value (readings name)))
          (scan_le (scan_step a name n (reading_value (readings name))) ranges)

    scan_out :
        (a : Scan F) (ranges : List (String × NormalRange F))
        → All (λ m. f.lt f.nought m.1.z_threshold ≡ true) ranges
        → any (is_out readings) ranges ≡ true
        → d.one ≼ (scan readings a ranges).deviation
    unfolding scan
    scan_out a [] p e = absurd (ground arith)
    scan_out a ((name, n) ∷ ranges) p e = elim (Bool-cases (is_out readings (name, n))) [
      | inl q ↦
          o.le_trans d.one (scan_step a name n (reading_value (readings name))).deviation _
            (step_out a name n (reading_value (readings name)) p.0 q)
            (scan_le (scan_step a name n (reading_value (readings name))) ranges)
      | inr q ↦ scan_out (scan_step a name n (reading_value (readings name))) ranges p.1 (rw q at e)
    ]

    -- Over ordered floats, where division and rounding respect the order around 1.0 and every
    -- threshold is positive, the score of an anomalous report is at least 1.0 and at most 1.0.
    pub detect_score :
        (ranges : List (String × NormalRange F))
        → All (λ m. f.lt f.nought m.1.z_threshold ≡ true) ranges
        → (detect ranges readings).is_anomalous ≡ true
        → (d.one ≼ (detect ranges readings).anomaly_score)
          × ((detect ranges readings).anomaly_score ≼ d.one)
    unfolding detect
    detect_score ranges p e = (
      subst (λ x. x ≼ d.round (min reached d.one)) s.round_one
          (s.round_mono d.one (min reached d.one) (
            le-min reached d.one
              (scan_out no_scan ranges p (sym (detect-names readings ranges).3 ∙ e)))),
      subst (λ x. d.round (min reached d.one) ≼ x) s.round_one
          (s.round_mono (min reached d.one) d.one (min_right reached d.one)),
    )
      where
        reached : F
        reached = (scan readings no_scan ranges).deviation
