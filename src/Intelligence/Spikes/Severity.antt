-- ===== src/Intelligence/Spikes/Severity.antt =====
-- The severity of an anomaly by its z-score.
use newchanges.Base.{ℕ, ◌≤◌, arith}
use newchanges.Base.Float.{Float, IsOrdered, ◌≼◌}
use newchanges.Intelligence.Spikes.{AnomalySeverity, Literals, severity_of}

abbrev pub severity_rank : AnomalySeverity → ℕ
severity_rank AnomalySeverity.low = 0
severity_rank AnomalySeverity.medium = 1
severity_rank AnomalySeverity.high = 2
severity_rank AnomalySeverity.critical = 3

module _ {ℓ} {F : Type ℓ} ⦃f : Float F⦄ (o : IsOrdered F) (k : Literals F) where
  pub severity_of_mono :
      (threshold a b : F)
      → a ≼ b
      → severity_rank (severity_of k threshold a) ≤ severity_rank (severity_of k threshold b)
  unfolding severity_of
  severity_of_mono threshold a b h = ground (
    arith,
    o.le_trans (k.times threshold k.two) a b,
    o.le_trans (k.times threshold k.three_halves) a b,
    o.le_trans (k.times threshold k.six_fifths) a b,
  )
