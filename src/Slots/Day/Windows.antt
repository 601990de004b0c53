-- ===== src/Slots/Day/Windows.antt =====
-- What the windows of a day are: internal/slots/availability.go.
use district_scheduler.Common.{
  ℕ, ◌≡◌, refl, inl, inr, Bool, true, false, not, ◌&&◌, ◌||◌, Option, none, some, List, [], ◌∷◌,
  ◌++◌, arith, ltb, ◌==◌, if◌then◌else◌, Bool-cases, any, all,
}
use district_scheduler.Slots.Interval.{Interval}
use district_scheduler.Slots.Interval.Cover.{contains, covered, covered-append}
use district_scheduler.Slots.Failure.{Result, ok, err, Result-cases}
use district_scheduler.Slots.WallClock.{Zones, wall_clock_interval, same_local_date}
use district_scheduler.Slots.Day.{
  AvailabilityRule, AvailabilityOverride, weekday, append_window, override_windows, rule_windows,
  resolve_day,
}

covered-append_window :
    (t : ℕ) (ws : List Interval) (iv : Interval)
    → covered t (append_window ws iv) ≡ (covered t ws || contains t iv)
unfolding append_window
covered-append_window t ws iv = ground (arith, covered-append t ws (iv ∷ []))

module _ (z : Zones) (loc date : ℕ) where
  abbrev pub is_for : AvailabilityOverride → Bool
  is_for ov = same_local_date z ov.date date loc

  abbrev applies : AvailabilityRule → Bool
  applies r = r.day_of_week == weekday date

  -- Does the rule's interval hold the instant, where its times can be read?
  abbrev holds : ℕ → Result Interval → Bool
  holds t (ok iv) = contains t iv
  holds t (err e) = false

  abbrev pub rule_holds : ℕ → AvailabilityRule → Bool
  rule_holds t r = applies r && holds t (wall_clock_interval z loc date r.start_time r.end_time)

  abbrev pub override_holds : ℕ → AvailabilityOverride → Bool
  override_holds t ov =
      is_for ov
      && (ov.is_available && holds t (wall_clock_interval z loc date ov.start_time ov.end_time))

  abbrev pub blocks : AvailabilityOverride → Bool
  blocks ov = is_for ov && not ov.is_available

  rule_windows_lem :
      (t : ℕ) (rs : List AvailabilityRule) (ws out : List Interval)
      → rule_windows z loc date rs ws ≡ ok out
      → covered t out ≡ (covered t ws || any (rule_holds t) rs)
  unfolding rule_windows
  rule_windows_lem t [] ws out e = ground arith
  rule_windows_lem t (r ∷ rs) ws out e = elim (Bool-cases (applies r)) [
    | inr other ↦ ground (arith, rule_windows_lem t rs ws out)
    | inl here ↦ elim (Result-cases (wall_clock_interval z loc date r.start_time r.end_time)) [
      | inr (x, bad) ↦ absurd (ground arith)
      | inl (iv, good) ↦
          ground
            (arith, covered-append_window t ws iv, rule_windows_lem t rs (append_window ws iv) out)
    ]
  ]

  abbrev windows_or : List Interval → Option (List Interval) → List Interval
  windows_or d none = d
  windows_or d (some ws) = ws

  abbrev is_found : Option (List Interval) → Bool
  is_found none = false
  is_found (some ws) = true

  override_windows_lem :
      (t : ℕ) (ovs : List AvailabilityOverride) (matched : Bool) (ws : List Interval)
      (out : Option (List Interval))
      → override_windows z loc date ovs matched ws ≡ ok out
      → (is_found out ≡ (matched || any is_for ovs))
        × (is_found out ≡ true
            → covered t (windows_or [] out)
              ≡ ((covered t ws || any (override_holds t) ovs) && not (any blocks ovs)))
  unfolding override_windows
  override_windows_lem t [] matched ws out e = ground arith
  override_windows_lem t (ov ∷ ovs) matched ws out e = elim (Bool-cases (is_for ov)) [
    | inr other ↦ ground (arith, override_windows_lem t ovs matched ws out)
    | inl here ↦ elim (Bool-cases ov.is_available) [
      | inr closed ↦ ground arith
      | inl open_day ↦
          elim (Result-cases (wall_clock_interval z loc date ov.start_time ov.end_time)) [
            | inr (x, bad) ↦ absurd (ground arith)
            | inl (iv, good) ↦ ground (
              arith,
              covered-append_window t ws iv,
              override_windows_lem t ovs true (append_window ws iv) out,
            )
          ]
    ]
  ]

  -- An instant stands in the windows of a day exactly when the overrides for the date say so, where there
  -- are any (one of them holds it and none blocks the day), and otherwise when a rule of the weekday holds it.
  pub resolve_day_exact :
      (rules : List AvailabilityRule) (overrides : List AvailabilityOverride) (out : List Interval)
      (t : ℕ)
      → resolve_day z loc date rules overrides ≡ ok out
      → covered t out ≡ (
          if any is_for overrides
          then any (override_holds t) overrides && not (any blocks overrides)
          else any (rule_holds t) rules)
  unfolding resolve_day
  resolve_day_exact rules overrides out t e =
      elim (Result-cases (override_windows z loc date overrides false [])) [
        | inr (x, bad) ↦ absurd (ground arith)
        | inl (none, f) ↦ ground (
          arith,
          override_windows_lem t overrides false [] none f,
          rule_windows_lem t rules [] out,
        )
        | inl (some ws, f) ↦ ground (arith, override_windows_lem t overrides false [] (some ws) f)
      ]

  abbrev pub all_proper : List Interval → Bool
  all_proper ws = all (λ w. ltb w.start w.end) ws

  all_proper-append :
      (xs ys : List Interval) → all_proper (xs ++ ys) ≡ (all_proper xs && all_proper ys)
  all_proper-append [] ys = refl
  all_proper-append (x ∷ xs) ys = ground (arith, all_proper-append xs ys)

  append_window-proper :
      (ws : List Interval) (iv : Interval)
      → all_proper ws ≡ true
      → all_proper (append_window ws iv) ≡ true
  unfolding append_window
  append_window-proper ws iv h = ground (arith, all_proper-append ws (iv ∷ []))

  rule_windows-proper :
      (rs : List AvailabilityRule) (ws out : List Interval)
      → all_proper ws ≡ true
      → rule_windows z loc date rs ws ≡ ok out
      → all_proper out ≡ true
  unfolding rule_windows
  rule_windows-proper [] ws out h e = ground arith
  rule_windows-proper (r ∷ rs) ws out h e = elim (Bool-cases (applies r)) [
    | inr other ↦ ground (arith, rule_windows-proper rs ws out)
    | inl here ↦ elim (Result-cases (wall_clock_interval z loc date r.start_time r.end_time)) [
      | inr (x, bad) ↦ absurd (ground arith)
      | inl (iv, good) ↦
          ground
            (arith, append_window-proper ws iv h, rule_windows-proper rs (append_window ws iv) out)
    ]
  ]

  override_windows-proper :
      (ovs : List AvailabilityOverride) (matched : Bool) (ws : List Interval)
      (out : Option (List Interval))
      → all_proper ws ≡ true
      → override_windows z loc date ovs matched ws ≡ ok out
      → all_proper (windows_or [] out) ≡ true
  unfolding override_windows
  override_windows-proper [] matched ws out h e = ground arith
  override_windows-proper (ov ∷ ovs) matched ws out h e = elim (Bool-cases (is_for ov)) [
    | inr other ↦ ground (arith, override_windows-proper ovs matched ws out)
    | inl here ↦ elim (Bool-cases ov.is_available) [
      | inr closed ↦ ground arith
      | inl open_day ↦
          elim (Result-cases (wall_clock_interval z loc date ov.start_time ov.end_time)) [
            | inr (x, bad) ↦ absurd (ground arith)
            | inl (iv, good) ↦ ground (
              arith,
              append_window-proper ws iv h,
              override_windows-proper ovs true (append_window ws iv) out,
            )
          ]
    ]
  ]

  -- Every window of a day ends after it starts.
  pub resolve_day-proper :
      (rules : List AvailabilityRule) (overrides : List AvailabilityOverride) (out : List Interval)
      → resolve_day z loc date rules overrides ≡ ok out
      → all_proper out ≡ true
  unfolding resolve_day
  resolve_day-proper rules overrides out e =
      elim (Result-cases (override_windows z loc date overrides false [])) [
        | inr (x, bad) ↦ absurd (ground arith)
        | inl (none, f) ↦ ground (arith, rule_windows-proper rules [] out)
        | inl (some ws, f) ↦
            ground (arith, override_windows-proper overrides false [] (some ws) refl f)
      ]
