-- ===== src/Budget/Periods.antt =====
-- `period_window` of app/services/budget_service.py. An instant is its calendar date and its
-- microsecond of the day, in UTC.
pub mod Windows
use Prim.Native.Nat.{◌/◌, ◌%◌}
use newchanges.Base.{
  ℕ, ◌+◌, ◌-◌, ◌*◌, ltb, leb, ◌==◌, Bool, true, false, not, ◌&&◌, ◌||◌, List, [], ◌∷◌,
  if◌then◌else◌, Option, none, some, String, str_eq,
}
use newchanges.Base.Text.{upper}

pub record Moment : Type 0 where
  pub year : ℕ
  pub month : ℕ
  pub day : ℕ
  pub micros : ℕ

pub record PeriodWindow : Type 0 where
  pub start : Moment
  pub end : Moment

-- `a <= b`
abbrev pub moment_le : Moment → Moment → Bool
moment_le a b =
    if ltb a.year b.year
    then true
    else if ltb b.year a.year
    then false
    else if ltb a.month b.month
    then true
    else if ltb b.month a.month
    then false
    else if ltb a.day b.day
    then true
    else if ltb b.day a.day
    then false
    else leb a.micros b.micros

abbrev pub micros_per_day : ℕ
micros_per_day = 86400000000

pub is_leap : ℕ → Bool
is_leap y = y % 4 == 0 && (not (y % 100 == 0) || y % 400 == 0)

-- `monthrange(year, month)[1]`
unfoldable pub days_in_month : ℕ → ℕ → ℕ
unfolding is_leap
days_in_month y m =
    if m == 2
    then (if is_leap y then 29 else 28)
    else if m == 4 || (m == 6 || (m == 9 || m == 11))
    then 30
    else 31

-- `moment + timedelta(days=1)`
unfoldable pub plus_day : Moment → Moment
unfolding days_in_month
plus_day t =
    if ltb t.day (days_in_month t.year t.month)
    then record t { day = t.day + 1 }
    else if ltb t.month 12
    then record t { month = t.month + 1; day = 1 }
    else record t { year = t.year + 1; month = 1; day = 1 }

-- `moment - timedelta(microseconds=1)`
unfoldable pub minus_micro : Moment → Moment
unfolding days_in_month
minus_micro t =
    if ltb 0 t.micros
    then record t { micros = t.micros - 1 }
    else if ltb 1 t.day
    then record t { day = t.day - 1; micros = micros_per_day - 1 }
    else if ltb 1 t.month
    then record t {
      month = t.month - 1;
      day = days_in_month t.year (t.month - 1);
      micros = micros_per_day - 1;
    }
    else record t { year = t.year - 1; month = 12; day = 31; micros = micros_per_day - 1 }

pub data Period : Type 0 where
  daily monthly quarterly annual : Period

-- the cases of the `match`; `none` is the `ValueError`
abbrev pub period_of : String → Option Period
period_of s =
    if str_eq s "DAILY"
    then some Period.daily
    else if str_eq s "MONTHLY"
    then some Period.monthly
    else if str_eq s "QUARTERLY"
    then some Period.quarterly
    else if str_eq s "ANNUAL"
    then some Period.annual
    else none

abbrev pub quarter_start : ℕ → ℕ
quarter_start month = 3 * ((month - 1) / 3) + 1

abbrev pub last_of : Moment → ℕ → Moment
last_of start month =
    minus_micro (plus_day (record start { month = month; day = days_in_month start.year month }))

unfoldable pub window_of : Period → Moment → PeriodWindow
unfolding plus_day minus_micro
window_of Period.daily now =
    let start = record now { micros = 0 } in
    record { start = start; end = minus_micro (plus_day start) }
window_of Period.monthly now =
    let start = record now { day = 1; micros = 0 } in
    record { start = start; end = last_of start start.month }
window_of Period.quarterly now =
    let start = record now { month = quarter_start now.month; day = 1; micros = 0 } in
    record { start = start; end = last_of start (start.month + 2) }
window_of Period.annual now =
    let start = record now { month = 1; day = 1; micros = 0 } in
    record { start = start; end = minus_micro (record start { year = start.year + 1 }) }

unfoldable pub period_window : String → Moment → Option PeriodWindow
unfolding window_of upper
period_window period now = elim (period_of (upper period)) [
  | none ↦ none
  | some p ↦ some (window_of p now)
]
