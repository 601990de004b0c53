-- ===== src/Handler/Schedule.antt =====
-- `loadHostSchedule` of internal/handler/slots_handler.go: the rules and overrides of a host, as
-- internal/slots takes them.
pub mod Readable
pub mod Resolved
pub mod Unreadable
use district_scheduler.Common.{
  ℕ, ◌*◌, Bool, true, false, not, ◌&&◌, ◌||◌, Option, none, some, List, [], ◌∷◌, ltb, ◌==◌,
  if◌then◌else◌, select, map,
}
use district_scheduler.Slots.Day.{AvailabilityRule, AvailabilityOverride, day_length}
use district_scheduler.Handler.Hours.{Rule, text_lt}
use district_scheduler.Handler.Overrides.{Override, text_of}

abbrev pub loaded_rule : Rule → AvailabilityRule
loaded_rule r = record {
  day_of_week = r.day_of_week;
  start_time = r.start_time;
  end_time = r.end_time;
}

-- `ORDER BY day_of_week, start_time`
abbrev pub precedes : Rule → Rule → Bool
precedes r s =
    ltb r.day_of_week s.day_of_week
    || (r.day_of_week == s.day_of_week && not (text_lt s.start_time r.start_time))

unfoldable pub place : Rule → List Rule → List Rule
unfolding text_lt
place r [] = r ∷ []
place r (s ∷ rs) = let rest = place r rs in if precedes r s then r ∷ s ∷ rs else s ∷ rest

unfoldable pub by_day : List Rule → List Rule
unfolding place
by_day [] = []
by_day (r ∷ rs) = place r (by_day rs)

abbrev pub serves : ℕ → Option ℕ → Bool
serves event_type none = true
serves event_type (some e) = e == event_type

unfoldable pub load_rules : ℕ → ℕ → List Rule → List AvailabilityRule
unfolding by_day
load_rules user event_type rules =
    map loaded_rule
      (by_day (select (λ r. r.user_id == user && serves event_type r.event_type_id) rules))

-- A date is loaded as its midnight in UTC, and a missing time as the empty text.
abbrev pub loaded_override : Override → AvailabilityOverride
loaded_override r = record {
  date = r.date * day_length;
  is_available = r.is_available;
  start_time = text_of r.start_time;
  end_time = text_of r.end_time;
}

unfoldable pub load_overrides : ℕ → List Override → List AvailabilityOverride
load_overrides user rows = map loaded_override (select (λ r. r.user_id == user) rows)
