-- ===== src/Slots/Day.antt =====
-- The per-day half of internal/slots/availability.go: the windows of one host on one date.
pub mod Windows
use district_scheduler.Common.{
  ℕ, ◌+◌, ◌*◌, ◌/◌, ◌%◌, Bool, true, false, not, Option, none, some, List, [], ◌∷◌, ◌++◌, ◌==◌,
  if◌then◌else◌,
}
use district_scheduler.Slots.Interval.{Interval, is_empty}
use district_scheduler.Slots.Failure.{
  Error, override_error, rule_error, Result, ok, err, ◌>>=◌, wrap,
}
use district_scheduler.Slots.WallClock.{Zones, wall_clock_interval, same_local_date}

-- `day_of_week` counts from Sunday, 0, to Saturday, 6.
pub record AvailabilityRule : Type 0 where
  pub day_of_week : ℕ
  pub start_time : List ℕ
  pub end_time : List ℕ

pub record AvailabilityOverride : Type 0 where
  pub date : ℕ
  pub is_available : Bool
  pub start_time : List ℕ
  pub end_time : List ℕ

abbrev pub nanoseconds_per_second : ℕ
nanoseconds_per_second = 1_000_000_000

-- `24 * time.Hour`
abbrev pub day_length : ℕ
day_length = 86_400 * nanoseconds_per_second

-- `date.Weekday()` of an instant in UTC. The year 1 began on a Monday.
unfoldable pub weekday : ℕ → ℕ
weekday date = (date / day_length + 1) % 7

-- `if !iv.IsEmpty() { windows = append(windows, iv) }`
unfoldable pub append_window : List Interval → Interval → List Interval
unfolding is_empty
append_window windows iv = if not (is_empty iv) then windows ++ iv ∷ [] else windows

module _ (z : Zones) where
  -- The loop over the overrides. `some` holds the day's windows where an override matched, and is
  -- empty where one of them blocks the day; `none` means that no override is for this date.
  unfoldable pub override_windows :
      ℕ → ℕ → List AvailabilityOverride → Bool → List Interval → Result (Option (List Interval))
  unfolding wall_clock_interval same_local_date append_window
  override_windows loc date [] matched windows = ok (if matched then some windows else none)
  override_windows loc date (ov ∷ ovs) matched windows =
      let skip = override_windows loc date ovs matched windows in
      let custom =
        wrap override_error (wall_clock_interval z loc date ov.start_time ov.end_time) >>= λ iv.
        override_windows loc date ovs true (append_window windows iv) in
      if not (same_local_date z ov.date date loc)
      then skip
      else if not ov.is_available
      then ok (some [])
      else custom

  -- The loop over the weekly rules.
  unfoldable pub rule_windows :
      ℕ → ℕ → List AvailabilityRule → List Interval → Result (List Interval)
  unfolding wall_clock_interval append_window weekday
  rule_windows loc date [] windows = ok windows
  rule_windows loc date (r ∷ rs) windows =
      let skip = rule_windows loc date rs windows in
      let use_rule =
        wrap rule_error (wall_clock_interval z loc date r.start_time r.end_time) >>= λ iv.
        rule_windows loc date rs (append_window windows iv) in
      if r.day_of_week == weekday date then use_rule else skip

  abbrev otherwise_rules :
      ℕ → ℕ → List AvailabilityRule → Option (List Interval) → Result (List Interval)
  unfolding rule_windows
  otherwise_rules loc date rules none = rule_windows loc date rules []
  otherwise_rules loc date rules (some windows) = ok windows

  -- `resolveDay`, and `ResolveDayWindows`, its name outside of the package.
  unfoldable pub resolve_day :
      ℕ → ℕ → List AvailabilityRule → List AvailabilityOverride → Result (List Interval)
  unfolding override_windows rule_windows otherwise_rules
  resolve_day loc date rules overrides =
      override_windows loc date overrides false [] >>= otherwise_rules loc date rules
