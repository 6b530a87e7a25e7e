-- ===== src/Budget/Periods/Windows.antt =====
-- Which instants a period's window holds.
use Prim.Native.Nat.{◌/◌}
use newchanges.Base.{
  ℕ, ◌+◌, ◌-◌, ◌≤◌, ◌<◌, ◌≡◌, refl, ap, arith, Bool, ◌&&◌, some, String, ◌==◌, Option-cases, inl,
  inr,
}
use mathlib.Core.Path.{subst}
use newchanges.Base.Text.{upper}
use newchanges.Budget.Periods.{
  Moment, PeriodWindow, moment_le, micros_per_day, days_in_month, plus_day, minus_micro, Period,
  period_of, quarter_start, window_of, period_window,
}

-- A date of the calendar, and a microsecond of its day.
pub record IsInstant (t : Moment) : Type 0 where
  pub month_from : 1 ≤ t.month
  pub month_to : t.month ≤ 12
  pub day_from : 1 ≤ t.day
  pub day_to : t.day ≤ days_in_month t.year t.month
  pub micros_to : t.micros < micros_per_day

-- The part of a date that a period goes by.
abbrev pub same_period : Period → Moment → Moment → Bool
same_period Period.daily s t = s.year == t.year && (s.month == t.month && s.day == t.day)
same_period Period.monthly s t = s.year == t.year && s.month == t.month
same_period Period.quarterly s t = s.year == t.year && (s.month - 1) / 3 == (t.month - 1) / 3
same_period Period.annual s t = s.year == t.year

abbrev pub within : PeriodWindow → Moment → Bool
within w t = moment_le w.start t && moment_le t w.end

december : (y : ℕ) → days_in_month y 12 ≡ 31
unfolding days_in_month
december y = refl

days_pos : (y m : ℕ) → 28 ≤ days_in_month y m
unfolding days_in_month
days_pos y m = ground arith

days_at_most : (y m : ℕ) → days_in_month y m ≤ 31
unfolding days_in_month
days_at_most y m = ground arith

-- The last microsecond of a day.
day_end :
    (t : Moment)
    → 1 ≤ t.month
    → t.month ≤ 12
    → 1 ≤ t.day
    → t.day ≤ days_in_month t.year t.month
    → t.micros ≡ 0
    → minus_micro (plus_day t) ≡ record t { micros = micros_per_day - 1 }
unfolding plus_day minus_micro
day_end t a b c d e = ground (arith, december t.year)

module _ (now : Moment) (valid : IsInstant now) where
  -- the two ends of each window
  daily_window : window_of Period.daily now ≡ record {
    start = record now { micros = 0 };
    end = record now { micros = micros_per_day - 1 };
  }
  unfolding window_of
  daily_window =
      ap (λ e. record { start = record now { micros = 0 }; end = e })
        (day_end (record now { micros = 0 }) valid.month_from valid.month_to valid.day_from
          valid.day_to refl)

  monthly_window : window_of Period.monthly now ≡ record {
    start = record now { day = 1; micros = 0 };
    end = record now { day = days_in_month now.year now.month; micros = micros_per_day - 1 };
  }
  unfolding window_of
  monthly_window =
      ap (λ e. record { start = record now { day = 1; micros = 0 }; end = e })
        (day_end (record now { day = days_in_month now.year now.month; micros = 0 })
          valid.month_from valid.month_to (omega (arith, days_pos now.year now.month)) (omega arith)
          refl)

  abbrev quarter_end : ℕ
  quarter_end = quarter_start now.month + 2

  quarterly_window : window_of Period.quarterly now ≡ record {
    start = record now { month = quarter_start now.month; day = 1; micros = 0 };
    end = record now {
      month = quarter_end;
      day = days_in_month now.year quarter_end;
      micros = micros_per_day - 1;
    };
  }
  unfolding window_of
  quarterly_window =
      ap
        (λ e. record {
          start = record now { month = quarter_start now.month; day = 1; micros = 0 };
          end = e;
        })
        (day_end
          (record now { month = quarter_end; day = days_in_month now.year quarter_end; micros = 0 })
          (omega arith) (omega (arith, valid.month_to))
          (omega (arith, days_pos now.year quarter_end)) (omega arith) refl)

  annual_window : window_of Period.annual now ≡ record {
    start = record now { month = 1; day = 1; micros = 0 };
    end = record now { month = 12; day = 31; micros = micros_per_day - 1 };
  }
  unfolding window_of minus_micro
  annual_window = ground arith

  module _ (t : Moment) (point : IsInstant t) where
    within_daily : within (window_of Period.daily now) t ≡ same_period Period.daily now t
    within_daily = rw daily_window (ground arith)

    within_monthly : within (window_of Period.monthly now) t ≡ same_period Period.monthly now t
    within_monthly = rw monthly_window (ground (arith, ap (λ m. days_in_month now.year m)))

    within_quarterly :
        within (window_of Period.quarterly now) t ≡ same_period Period.quarterly now t
    within_quarterly = rw quarterly_window (ground arith)

    within_annual : within (window_of Period.annual now) t ≡ same_period Period.annual now t
    within_annual = rw annual_window (ground (arith, days_at_most t.year t.month))

pub window-same_period :
    (p : Period) (now t : Moment)
    → IsInstant now
    → IsInstant t
    → within (window_of p now) t ≡ same_period p now t
window-same_period Period.daily now t v w = within_daily now v t w
window-same_period Period.monthly now t v w = within_monthly now v t w
window-same_period Period.quarterly now t v w = within_quarterly now v t w
window-same_period Period.annual now t v w = within_annual now v t w

pub period_window-window_of :
    (period : String) (now : Moment) (w : PeriodWindow)
    → period_window period now ≡ some w
    → (p : Period) × (period_of (upper period) ≡ some p) × (window_of p now ≡ w)
unfolding period_window
period_window-window_of period now w h = elim (Option-cases (period_of (upper period))) [
  | inl e ↦ absurd (ground arith)
  | inr (p, e) ↦ (p, e, ground arith)
]

-- For instants of the calendar, a window that is found for a period and a time holds an instant
-- exactly when the instant has the same day, month, quarter or year as the time, by the period.
pub period_window-same_period :
    (period : String) (now t : Moment) (w : PeriodWindow)
    → IsInstant now
    → IsInstant t
    → period_window period now ≡ some w
    → (p : Period) × (period_of (upper period) ≡ some p) × (within w t ≡ same_period p now t)
period_window-same_period period now t w v u h = held (period_window-window_of period now w h)
  where
    held :
        ((p : Period) × (period_of (upper period) ≡ some p) × (window_of p now ≡ w))
        → (p : Period) × (period_of (upper period) ≡ some p) × (within w t ≡ same_period p now t)
    held (p, e, k) =
        (p, e, subst (λ x. within x t ≡ same_period p now t) k (window-same_period p now t v u))
