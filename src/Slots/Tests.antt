-- ===== src/Slots/Tests.antt =====
-- Runs of internal/slots on a small request: one host, on a Monday, in UTC.
use district_scheduler.Common.{
  ℕ, ◌+◌, ◌*◌, ◌/◌, ◌-◌, ◌≤◌, ◌<◌, ◌≡◌, ◌↔◌, ◌⊎◌, refl, inl, inr, true, false, not, ◌&&◌, some,
  none, List, [], ◌∷◌, any, all, In, arith, if◌then◌else◌,
}
use district_scheduler.Slots.Generate.Totality.{is_ok, host_reads, time_reads, generate-is_ok}
use district_scheduler.Slots.Generate.Outputs.{generate_free_exact}
use district_scheduler.Slots.Generate.Listing.{generate_taken_exact, generate_ordered}
use district_scheduler.Slots.Generate.Separation.{generate_bounds}
use district_scheduler.Slots.Generate.Offer.{SlotsFrom}
use district_scheduler.Slots.Walk.Days.{HasStart, hosts_by_start_exact}
use district_scheduler.Slots.Walk.Marks.{marked}
use district_scheduler.Slots.Walk.Loop.{in_windows}
use district_scheduler.Slots.Walk.Safety.{free_start_buffers}
use district_scheduler.Slots.Day.Windows.{
  resolve_day_exact, is_for, override_holds, blocks, rule_holds,
}
use district_scheduler.Slots.Routing.Spec.{some_id, some_id-pick_hosts, offered}
use district_scheduler.Slots.WallClock.Reading.{hhmm_text, parse_wall_clock-hhmm_text}
use district_scheduler.Slots.Interval.{
  expand_one, overlaps, cut_out, subtract_from, cut_each, cut_all, extend, merge_from, merge_sorted,
  insert_by_start, sort_by_start, merge_intervals, expand_busy, subtract, is_empty, Interval,
}
use district_scheduler.Slots.Interval.Cover.{covered, covered-subtract}
use district_scheduler.Slots.Failure.{ok}
use district_scheduler.Slots.WallClock.{
  digits_value, unsigned, atoi, clock_field, split_colon, parse_wall_clock, same_local_date,
  wall_clock_interval, Zones,
}
use district_scheduler.Slots.Day.{
  weekday, append_window, rule_windows, override_windows, resolve_day, AvailabilityRule, day_length,
  nanoseconds_per_second,
}
use district_scheduler.Slots.Routing.{
  rotation_host, required_hosts, pick_round_robin, is_available, pick_priority, pick_hosts,
  round_robin, priority, required, rotation, HostAvailability,
}
use district_scheduler.Slots.Walk.{
  mark, offered_at, withheld, start_loop, unix_rem, align_up, free_windows, window_loop, host_walk,
  host_loop, day_loop, hosts_by_start, new_params, EventConfig, Request, Params, Walked,
}
use district_scheduler.Slots.Generate.{
  is_offered, taken_slots, insert_start, sort_starts, offer_loop, offer, with_taken, first_pass,
  check_zones, check_request, Slot, Extras, Outcome, generate,
}

-- A date stands as its number of days, and every zone is UTC.
abbrev utc : Zones
utc = record {
  local_date = λ loc t. record { year = t / day_length; month = 1; day = 1 };
  utc_date = λ t. record { year = t / day_length; month = 1; day = 1 };
  wall_clock = λ loc d h m. d.year * day_length + (h * 60 + m) * (60 * nanoseconds_per_second);
}

abbrev at : ℕ → ℕ → ℕ
at h m = (h * 60 + m) * (60 * nanoseconds_per_second)

abbrev nine_to_eleven : AvailabilityRule
nine_to_eleven = record {
  day_of_week = 1;
  start_time = b'0' ∷ b'9' ∷ b':' ∷ b'0' ∷ b'0' ∷ [];
  end_time = b'1' ∷ b'1' ∷ b':' ∷ b'0' ∷ b'0' ∷ [];
}

abbrev meeting : Interval
meeting = record { start = at 9 0; end = at 9 30 }

abbrev host : HostAvailability
host = record {
  host_id = 7;
  location = some 0;
  rules = nine_to_eleven ∷ [];
  overrides = [];
  busy = meeting ∷ [];
  role = rotation;
}

abbrev hourly : EventConfig
hourly = record {
  duration_minutes = 60;
  slot_interval_minutes = 30;
  buffer_before_minutes = 0;
  buffer_after_minutes = 15;
  min_notice_minutes = 600;
  max_future_days = 0;
  routing_mode = priority;
}

abbrev monday : Request
monday = record {
  event = hourly;
  hosts = host ∷ [];
  date_from = 0;
  date_to = 0;
  booker_zone = some 0;
  now = 0;
}

abbrev both : Extras
both = record { taken = true; notice_gap = true }

abbrev slot : ℕ → List ℕ → Slot
slot t hosts = record { start = t; end = t + at 1 0; host_ids = hosts }

abbrev listed : Outcome
listed = record { free = slot (at 10 0) (7 ∷ []) ∷ []; taken = []; notice_gap = [] }

monday_run : generate utc monday both ≡ ok listed
unfolding generate check_request check_zones new_params hosts_by_start day_loop host_loop host_walk
    resolve_day override_windows rule_windows append_window weekday is_empty wall_clock_interval
    same_local_date parse_wall_clock split_colon clock_field atoi unsigned digits_value window_loop
    free_windows align_up unix_rem start_loop withheld offered_at mark subtract expand_busy
    merge_intervals sort_by_start insert_by_start merge_sorted merge_from extend cut_all cut_each
    subtract_from cut_out overlaps expand_one first_pass with_taken offer offer_loop sort_starts
    insert_start pick_hosts pick_priority taken_slots is_offered is_available
monday_run = refl

generate_free_exact_example :
    (ids : List ℕ) × ((j : ℕ)
      → (is_available ids j ≡ true)
        ↔ HasStart utc (new_params monday) true monday.hosts (at 10 0) j)
    × (is_offered listed.free (at 10 0) ≡ offered ids monday.hosts monday.event.routing_mode)
generate_free_exact_example = generate_free_exact utc monday both listed (at 10 0) monday_run

-- The same Monday with the host busy from ten to half past ten.
abbrev booked_host : HostAvailability
booked_host = record host { busy = record { start = at 10 0; end = at 10 30 } ∷ [] }

abbrev booked : Request
booked = record monday { hosts = booked_host ∷ [] }

abbrev booked_listed : Outcome
booked_listed = record {
  free = [];
  taken = slot (at 10 0) [] ∷ [];
  notice_gap = slot (at 9 0) [] ∷ [];
}

booked_run : generate utc booked both ≡ ok booked_listed
unfolding generate check_request check_zones new_params hosts_by_start day_loop host_loop host_walk
    resolve_day override_windows rule_windows append_window weekday is_empty wall_clock_interval
    same_local_date parse_wall_clock split_colon clock_field atoi unsigned digits_value window_loop
    free_windows align_up unix_rem start_loop withheld offered_at mark subtract expand_busy
    merge_intervals sort_by_start insert_by_start merge_sorted merge_from extend cut_all cut_each
    subtract_from cut_out overlaps expand_one first_pass with_taken offer offer_loop sort_starts
    insert_start pick_hosts pick_priority taken_slots is_offered is_available
booked_run = refl

generate_taken_exact_example :
    (ids : List ℕ) × ((j : ℕ)
      → (is_available ids j ≡ true)
        ↔ HasStart utc (new_params booked) false booked.hosts (at 10 0) j)
    × (is_offered booked_listed.taken (at 10 0) ≡ (
        offered ids booked.hosts booked.event.routing_mode
        && not (is_offered booked_listed.free (at 10 0))))
generate_taken_exact_example =
    generate_taken_exact utc booked both booked_listed (at 10 0) refl booked_run

-- Two adjacent windows, from nine to ten and from ten to eleven.
abbrev split_host : List Interval → HostAvailability
split_host busy = record host {
  rules =
      record nine_to_eleven { end_time = b'1' ∷ b'0' ∷ b':' ∷ b'0' ∷ b'0' ∷ [] }
      ∷ record nine_to_eleven { start_time = b'1' ∷ b'0' ∷ b':' ∷ b'0' ∷ b'0' ∷ [] }
      ∷ [];
  busy = busy;
}

abbrev split : List Interval → Request
split busy = record monday {
  event = record hourly { min_notice_minutes = 0 };
  hosts = split_host busy ∷ [];
}

-- Half past nine is free, and neither free nor taken when it is booked.
seam_start :
    (generate utc (split []) both
      ≡ ok (record {
        free = slot (at 9 0) (7 ∷ []) ∷ slot (at 9 30) (7 ∷ []) ∷ slot (at 10 0) (7 ∷ []) ∷ [];
        taken = [];
        notice_gap = [];
      }))
    × (generate utc (split (record { start = at 9 30; end = at 10 30 } ∷ [])) both
        ≡ ok (record {
          free = [];
          taken = slot (at 9 0) [] ∷ slot (at 10 0) [] ∷ [];
          notice_gap = [];
        }))
unfolding generate check_request check_zones new_params hosts_by_start day_loop host_loop host_walk
    resolve_day override_windows rule_windows append_window weekday is_empty wall_clock_interval
    same_local_date parse_wall_clock split_colon clock_field atoi unsigned digits_value window_loop
    free_windows align_up unix_rem start_loop withheld offered_at mark subtract expand_busy
    merge_intervals sort_by_start insert_by_start merge_sorted merge_from extend cut_all cut_each
    subtract_from cut_out overlaps expand_one first_pass with_taken offer offer_loop sort_starts
    insert_start pick_hosts pick_priority taken_slots is_offered is_available
seam_start = (refl, refl)

generate_bounds_example :
    let p = new_params booked in
    (is_offered booked_listed.free (at 9 0) ≡ true
      → (p.min_notice ≤ at 9 0) × (at 9 0 ≤ p.max_future))
    × (is_offered booked_listed.taken (at 9 0) ≡ true
        → (p.min_notice ≤ at 9 0)
          × (at 9 0 ≤ p.max_future)
          × (is_offered booked_listed.free (at 9 0) ≡ false))
    × (is_offered booked_listed.notice_gap (at 9 0) ≡ true → (0 ≤ at 9 0) × (at 9 0 < p.min_notice))
generate_bounds_example = generate_bounds utc booked both booked_listed (at 9 0) booked_run

generate_ordered_example :
    SlotsFrom 0 booked_listed.free
    × SlotsFrom 0 booked_listed.taken
    × SlotsFrom 0 booked_listed.notice_gap
generate_ordered_example = generate_ordered utc booked both booked_listed booked_run

abbrev params : Params
params = record {
  dur = at 1 0;
  interval = at 0 30;
  buf_before = 0;
  buf_after = at 0 15;
  min_notice = at 10 0;
  max_future = 365 * day_length;
  date_from = 0;
  date_to = 0;
}

abbrev walked : Walked
walked = record { per_start = (at 10 0, 7 ∷ []) ∷ []; below_notice = none }

walk_run : hosts_by_start utc monday params true none ≡ ok walked
unfolding generate check_request check_zones new_params hosts_by_start day_loop host_loop host_walk
    resolve_day override_windows rule_windows append_window weekday is_empty wall_clock_interval
    same_local_date parse_wall_clock split_colon clock_field atoi unsigned digits_value window_loop
    free_windows align_up unix_rem start_loop withheld offered_at mark subtract expand_busy
    merge_intervals sort_by_start insert_by_start merge_sorted merge_from extend cut_all cut_each
    subtract_from cut_out overlaps expand_one first_pass with_taken offer offer_loop sort_starts
    insert_start pick_hosts pick_priority taken_slots is_offered is_available
walk_run = refl

hosts_by_start_exact_example :
    (marked (at 10 0) 7 walked.per_start ≡ true) ↔ HasStart utc params true monday.hosts (at 10 0) 7
hosts_by_start_exact_example =
    hosts_by_start_exact utc monday params true none walked (at 10 0) 7 (omega arith) walk_run

abbrev window : Interval
window = record { start = at 9 0; end = at 11 0 }

ten_is_free :
    in_windows params (free_windows params true (meeting ∷ []) (window ∷ [])) (at 10 0) ≡ true
unfolding generate check_request check_zones new_params hosts_by_start day_loop host_loop host_walk
    resolve_day override_windows rule_windows append_window weekday is_empty wall_clock_interval
    same_local_date parse_wall_clock split_colon clock_field atoi unsigned digits_value window_loop
    free_windows align_up unix_rem start_loop withheld offered_at mark subtract expand_busy
    merge_intervals sort_by_start insert_by_start merge_sorted merge_from extend cut_all cut_each
    subtract_from cut_out overlaps expand_one first_pass with_taken offer offer_loop sort_starts
    insert_start pick_hosts pick_priority taken_slots is_offered is_available
ten_is_free = refl

free_start_buffers_example : (at 9 30 + at 0 15 ≤ at 10 0) ⊎ (at 10 0 + at 1 0 ≤ at 9 0 - 0)
free_start_buffers_example =
    free_start_buffers params (meeting ∷ []) (window ∷ []) (at 10 0) meeting (omega arith)
      ten_is_free (inl refl) (omega arith)

covered-subtract_example :
    covered (at 10 0) (subtract (window ∷ []) (meeting ∷ []))
    ≡ (covered (at 10 0) (window ∷ []) && not (covered (at 10 0) (meeting ∷ [])))
covered-subtract_example = covered-subtract (at 10 0) (window ∷ []) (meeting ∷ [])

day_run : resolve_day utc 0 0 (nine_to_eleven ∷ []) [] ≡ ok (window ∷ [])
unfolding generate check_request check_zones new_params hosts_by_start day_loop host_loop host_walk
    resolve_day override_windows rule_windows append_window weekday is_empty wall_clock_interval
    same_local_date parse_wall_clock split_colon clock_field atoi unsigned digits_value window_loop
    free_windows align_up unix_rem start_loop withheld offered_at mark subtract expand_busy
    merge_intervals sort_by_start insert_by_start merge_sorted merge_from extend cut_all cut_each
    subtract_from cut_out overlaps expand_one first_pass with_taken offer offer_loop sort_starts
    insert_start pick_hosts pick_priority taken_slots is_offered is_available
day_run = refl

resolve_day_exact_example : covered (at 10 0) (window ∷ []) ≡ (
    if any (is_for utc 0 0) []
    then any (override_holds utc 0 0 (at 10 0)) [] && not (any (blocks utc 0 0) [])
    else any (rule_holds utc 0 0 (at 10 0)) (nine_to_eleven ∷ []))
resolve_day_exact_example =
    resolve_day_exact utc 0 0 (nine_to_eleven ∷ []) [] (window ∷ []) (at 10 0) day_run

-- A required host, 8, beside the rotation of 7.
abbrev chair : HostAvailability
chair = record host { host_id = 8; role = required }

some_id-pick_hosts_example :
    some_id (pick_hosts (host ∷ chair ∷ []) (7 ∷ 8 ∷ []) round_robin)
    ≡ offered (7 ∷ 8 ∷ []) (host ∷ chair ∷ []) round_robin
some_id-pick_hosts_example = some_id-pick_hosts (7 ∷ 8 ∷ []) (host ∷ chair ∷ []) round_robin

picked_last : In 7 (pick_hosts (host ∷ chair ∷ []) (7 ∷ 8 ∷ []) round_robin)
unfolding pick_hosts pick_round_robin required_hosts rotation_host is_available
picked_last = inr (inl refl)

parse_wall_clock-hhmm_text_example :
    parse_wall_clock utc 0 0 (hhmm_text 23 5) ≡ ok (utc.wall_clock 0 (utc.utc_date 0) 23 5)
parse_wall_clock-hhmm_text_example =
    parse_wall_clock-hhmm_text utc 0 0 23 5 (omega arith) (omega arith)

-- "9:5" is read as five past nine.
short_run : parse_wall_clock utc 0 0 (b'9' ∷ b':' ∷ b'5' ∷ []) ≡ ok (at 9 5)
unfolding parse_wall_clock split_colon clock_field atoi unsigned digits_value
short_run = refl

half_past_on_grid :
    unix_rem (at 0 30 / nanoseconds_per_second) (at 9 30 / nanoseconds_per_second) ≡ 0
unfolding unix_rem
half_past_on_grid = refl

abbrev collecting : Walked
collecting = record { per_start = []; below_notice = some [] }

monday_reads : all host_reads monday.hosts ≡ true
unfolding time_reads split_colon clock_field atoi unsigned digits_value
monday_reads = refl

monday_passes : check_request monday ≡ ok tt
unfolding check_request check_zones
monday_passes = refl

generate-is_ok_example : is_ok (generate utc monday both) ≡ true
generate-is_ok_example = generate-is_ok utc monday both monday_passes monday_reads
