-- ===== src/Slots/Generate/Totality.antt =====
-- When `resolveDay` and `generate` of internal/slots return a result: every text of a time can be read.
use district_scheduler.Common.{
  ◌||◌, not, ℕ, zero, suc, ◌+◌, ◌≡◌, refl, inl, inr, Bool, true, false, ◌&&◌, Option, none, some,
  List, [], ◌∷◌, arith, Option-cases, all,
}
use district_scheduler.Slots.Interval.{Interval}
use district_scheduler.Slots.Failure.{Result, ok, err, Result-cases}
use district_scheduler.Slots.WallClock.{
  Zones, split_colon, clock_field, parse_wall_clock, wall_clock_interval,
}
use district_scheduler.Slots.Day.{
  AvailabilityRule, AvailabilityOverride, append_window, override_windows, rule_windows,
  resolve_day, day_length,
}
use district_scheduler.Slots.Routing.{HostAvailability}
use district_scheduler.Slots.Walk.{
  Params, Walked, Starts, Request, new_params, host_walk, host_loop, day_loop, days, hosts_by_start,
}
use district_scheduler.Slots.Generate.{
  Extras, Outcome, generate, check_request, below_notice_map, with_taken, first_pass,
}
use district_scheduler.Slots.Generate.Listing.{has_zone, check_request-ok}

abbrev pub is_ok {ℓ} : {A : Type ℓ} → Result A → Bool
is_ok (ok a) = true
is_ok (err e) = false

abbrev is_field : Option ℕ → Bool
is_field none = false
is_field (some n) = true

abbrev both_fields : Option (List ℕ × List ℕ) → Bool
both_fields none = false
both_fields (some (hour, minute)) =
    is_field (clock_field 23 hour) && is_field (clock_field 59 minute)

-- Does the text name an hour and a minute?
unfoldable pub time_reads : List ℕ → Bool
time_reads text = both_fields (split_colon text)

abbrev pub rule_reads : AvailabilityRule → Bool
rule_reads r = time_reads r.start_time && time_reads r.end_time

-- A blocked date needs no times.
abbrev pub override_reads : AvailabilityOverride → Bool
override_reads ov = not ov.is_available || (time_reads ov.start_time && time_reads ov.end_time)

abbrev pub host_reads : HostAvailability → Bool
host_reads h = all rule_reads h.rules && all override_reads h.overrides

module _ (z : Zones) where
  parse_wall_clock-is_ok :
      (loc date : ℕ) (text : List ℕ) → is_ok (parse_wall_clock z loc date text) ≡ time_reads text
  unfolding parse_wall_clock time_reads
  parse_wall_clock-is_ok loc date text = elim (Option-cases (split_colon text)) [
    | inl e ↦ ground arith
    | inr ((hour, minute), e) ↦ ground arith
  ]

  pub wall_clock_interval-is_ok :
      (loc date : ℕ) (s t : List ℕ)
      → is_ok (wall_clock_interval z loc date s t) ≡ (time_reads s && time_reads t)
  unfolding wall_clock_interval
  wall_clock_interval-is_ok loc date s t = elim (Result-cases (parse_wall_clock z loc date s)) [
    | inr (x, e) ↦ ground (arith, parse_wall_clock-is_ok loc date s)
    | inl (u, e) ↦ elim (Result-cases (parse_wall_clock z loc date t)) [
      | inr (x, f) ↦
          ground (arith, parse_wall_clock-is_ok loc date s, parse_wall_clock-is_ok loc date t)
      | inl (v, f) ↦
          ground (arith, parse_wall_clock-is_ok loc date s, parse_wall_clock-is_ok loc date t)
    ]
  ]

  override_windows-is_ok :
      (loc date : ℕ) (ovs : List AvailabilityOverride) (matched : Bool) (ws : List Interval)
      → all override_reads ovs ≡ true
      → is_ok (override_windows z loc date ovs matched ws) ≡ true
  unfolding override_windows
  override_windows-is_ok loc date [] matched ws a = refl
  override_windows-is_ok loc date (ov ∷ ovs) matched ws a =
      elim (Result-cases (wall_clock_interval z loc date ov.start_time ov.end_time)) [
        | inl (iv, r) ↦ ground (
          arith,
          override_windows-is_ok loc date ovs matched ws,
          override_windows-is_ok loc date ovs true (append_window ws iv),
        )
        | inr (x, r) ↦ ground (
          arith,
          override_windows-is_ok loc date ovs matched ws,
          wall_clock_interval-is_ok loc date ov.start_time ov.end_time,
        )
      ]

  rule_windows-is_ok :
      (loc date : ℕ) (rs : List AvailabilityRule) (ws : List Interval)
      → all rule_reads rs ≡ true
      → is_ok (rule_windows z loc date rs ws) ≡ true
  unfolding rule_windows
  rule_windows-is_ok loc date [] ws a = refl
  rule_windows-is_ok loc date (r ∷ rs) ws a =
      elim (Result-cases (wall_clock_interval z loc date r.start_time r.end_time)) [
        | inl (iv, k) ↦ ground (
          arith,
          rule_windows-is_ok loc date rs ws,
          rule_windows-is_ok loc date rs (append_window ws iv),
        )
        | inr (x, k) ↦
            absurd (ground (arith, wall_clock_interval-is_ok loc date r.start_time r.end_time))
      ]

  pub resolve_day-is_ok :
      (loc date : ℕ) (rs : List AvailabilityRule) (ovs : List AvailabilityOverride)
      → all rule_reads rs ≡ true
      → all override_reads ovs ≡ true
      → is_ok (resolve_day z loc date rs ovs) ≡ true
  unfolding resolve_day
  resolve_day-is_ok loc date rs ovs a b =
      elim (Result-cases (override_windows z loc date ovs false [])) [
        | inl (none, k) ↦ ground (arith, rule_windows-is_ok loc date rs [] a)
        | inl (some ws, k) ↦ ground arith
        | inr (x, k) ↦ absurd (ground (arith, override_windows-is_ok loc date ovs false [] b))
      ]

  host_walk-is_ok :
      (p : Params) (now : ℕ) (apply_busy : Bool) (d : ℕ) (h : HostAvailability) (st : Walked)
      → has_zone h ≡ true
      → host_reads h ≡ true
      → is_ok (host_walk z p now apply_busy d h st) ≡ true
  unfolding host_walk
  host_walk-is_ok p now apply_busy d h st a b = elim (Option-cases h.location) [
    | inl l ↦ absurd (ground arith)
    | inr (loc, l) ↦ elim (Result-cases (resolve_day z loc d h.rules h.overrides)) [
      | inl (ws, r) ↦ ground arith
      | inr (x, r) ↦ absurd (ground (arith, resolve_day-is_ok loc d h.rules h.overrides))
    ]
  ]

  host_loop-is_ok :
      (p : Params) (now : ℕ) (apply_busy : Bool) (d : ℕ) (hs : List HostAvailability) (st : Walked)
      → all has_zone hs ≡ true
      → all host_reads hs ≡ true
      → is_ok (host_loop z p now apply_busy d hs st) ≡ true
  unfolding host_loop
  host_loop-is_ok p now apply_busy d [] st a b = refl
  host_loop-is_ok p now apply_busy d (h ∷ hs) st a b =
      elim (Result-cases (host_walk z p now apply_busy d h st)) [
        | inl (mid, e) ↦ ground (arith, host_loop-is_ok p now apply_busy d hs mid)
        | inr (x, e) ↦ absurd (ground (arith, host_walk-is_ok p now apply_busy d h st))
      ]

  day_loop-is_ok :
      (fuel : ℕ) (p : Params) (now : ℕ) (apply_busy : Bool) (hs : List HostAvailability) (d : ℕ)
      (st : Walked)
      → all has_zone hs ≡ true
      → all host_reads hs ≡ true
      → is_ok (day_loop z fuel p now apply_busy hs d st) ≡ true
  unfolding day_loop
  day_loop-is_ok zero p now apply_busy hs d st a b = refl
  day_loop-is_ok (suc fuel) p now apply_busy hs d st a b =
      elim (Result-cases (host_loop z p now apply_busy d hs st)) [
        | inl (mid, e) ↦
            ground (arith, day_loop-is_ok fuel p now apply_busy hs (d + day_length) mid)
        | inr (x, e) ↦ absurd (ground (arith, host_loop-is_ok p now apply_busy d hs st))
      ]

  hosts_by_start-is_ok :
      (req : Request) (p : Params) (apply_busy : Bool) (below : Option Starts)
      → all has_zone req.hosts ≡ true
      → all host_reads req.hosts ≡ true
      → is_ok (hosts_by_start z req p apply_busy below) ≡ true
  unfolding hosts_by_start
  hosts_by_start-is_ok req p apply_busy below a b =
      day_loop-is_ok (days p) p req.now apply_busy req.hosts p.date_from
        (record { per_start = []; below_notice = below }) a b

  with_taken-is_ok :
      (req : Request) (p : Params) (res : Outcome)
      → all has_zone req.hosts ≡ true
      → all host_reads req.hosts ≡ true
      → is_ok (with_taken z req p res) ≡ true
  unfolding with_taken
  with_taken-is_ok req p res a b = elim (Result-cases (hosts_by_start z req p false none)) [
    | inl (un, e) ↦ ground arith
    | inr (x, e) ↦ absurd (ground (arith, hosts_by_start-is_ok req p false none a b))
  ]

  -- A request that passes the checks, of hosts whose rules and custom hours hold times that can be read,
  -- gets a result, whatever else is asked for.
  pub generate-is_ok :
      (req : Request) (want : Extras)
      → check_request req ≡ ok tt
      → all host_reads req.hosts ≡ true
      → is_ok (generate z req want) ≡ true
  unfolding generate
  generate-is_ok req want c b =
      let zones = ((check_request-ok req).0 c).3 in
      let p = new_params req in
      elim (Result-cases (hosts_by_start z req p true (below_notice_map req want))) [
        | inl (walked, e) ↦ ground (arith, with_taken-is_ok req p (first_pass req p walked) zones b)
        | inr (x, e) ↦
            absurd
              (ground (arith, hosts_by_start-is_ok req p true (below_notice_map req want) zones b))
      ]
