-- ===== src/Handler/Schedule/Unreadable.antt =====
-- A weekly rule that internal/handler/availability.go stores and `resolveDay` of internal/slots cannot read.
use district_scheduler.Common.{
  ℕ, ◌≡◌, refl, ap, ◌⊎◌, inl, inr, Bool, true, false, ◌&&◌, ◌||◌, none, some, List, [], ◌∷◌, ◌++◌,
  arith, ◌==◌, Bool-cases, any, select, In, In-append_right, In-select_of, map,
}
use district_scheduler.Slots.Failure.{ok, Result-cases}
use district_scheduler.Slots.Interval.{Interval}
use district_scheduler.Slots.WallClock.{Zones, wall_clock_interval}
use district_scheduler.Slots.Day.{
  AvailabilityRule, AvailabilityOverride, resolve_day, weekday, rule_windows, override_windows,
  append_window,
}
use district_scheduler.Slots.Generate.Totality.{
  is_ok, time_reads, rule_reads, wall_clock_interval-is_ok,
}
use district_scheduler.Handler.Hours.{
  Rule, RuleRequest, done, create_rule, number_of, same_rule, is_day_of_week, is_empty_text,
}
use district_scheduler.Handler.Schedule.{load_rules, loaded_rule, by_day, place, precedes, serves}

In-place : (q r : Rule) (rs : List Rule) → (q ≡ r) ⊎ In q rs → In q (place r rs)
unfolding place
In-place q r [] i = i
In-place q r (s ∷ rs) i = elim (Bool-cases (precedes r s)) [
  | inl h ↦ rw h i
  | inr h ↦ rw h (elim i [
    | inl e ↦ inr (In-place q r rs (inl e))
    | inr (inl e) ↦ inl e
    | inr (inr j) ↦ inr (In-place q r rs (inr j))
  ])
]

In-by_day : (q : Rule) (rs : List Rule) → In q rs → In q (by_day rs)
unfolding by_day
In-by_day q [] i = i
In-by_day q (r ∷ rs) (inl e) = In-place q r (by_day rs) (inl e)
In-by_day q (r ∷ rs) (inr i) = In-place q r (by_day rs) (inr (In-by_day q rs i))

In-map_loaded : (r : Rule) (rs : List Rule) → In r rs → In (loaded_rule r) (map loaded_rule rs)
In-map_loaded r [] i = elim i [ ]
In-map_loaded r (s ∷ rs) (inl e) = inl (ap loaded_rule e)
In-map_loaded r (s ∷ rs) (inr i) = inr (In-map_loaded r rs i)

-- One rule of the day that cannot be read is enough.
rule_windows-unreadable :
    (z : Zones) (loc date : ℕ) (r : AvailabilityRule) (rs : List AvailabilityRule)
    (windows : List Interval)
    → In r rs
    → (r.day_of_week == weekday date) ≡ true
    → rule_reads r ≡ false
    → is_ok (rule_windows z loc date rs windows) ≡ false
unfolding rule_windows
rule_windows-unreadable z loc date r [] windows i d u = elim i [ ]
rule_windows-unreadable z loc date r (s ∷ rs) windows (inl e) d u =
    elim (Result-cases (wall_clock_interval z loc date s.start_time s.end_time)) [
      | inr (x, k) ↦ ground arith
      | inl (iv, k) ↦
          absurd (ground (arith, wall_clock_interval-is_ok z loc date s.start_time s.end_time))
    ]
rule_windows-unreadable z loc date r (s ∷ rs) windows (inr i) d u =
    elim (Result-cases (wall_clock_interval z loc date s.start_time s.end_time)) [
      | inr (x, k) ↦ ground (arith, rule_windows-unreadable z loc date r rs windows i d u)
      | inl (iv, k) ↦ ground (
        arith,
        rule_windows-unreadable z loc date r rs windows i d u,
        rule_windows-unreadable z loc date r rs (append_window windows iv) i d u,
      )
    ]

-- The row that a creation inserts.
abbrev pub created : ℕ → ℕ → RuleRequest → Rule
created user uid req = record {
  id = uid;
  user_id = user;
  event_type_id = req.event_type_id;
  day_of_week = number_of req.day_of_week;
  start_time = req.start_time;
  end_time = req.end_time;
}

none_collides :
    (row : Rule) (uid : ℕ) (rules : List Rule)
    → row.event_type_id ≡ none
    → any (λ r. r.id == uid) rules ≡ false
    → any (λ r. r.id == uid || same_rule row r) rules ≡ false
none_collides row uid [] g h = refl
none_collides row uid (r ∷ rules) g h = ground (arith, none_collides row uid rules)

create_rule-eq :
    (user uid : ℕ) (req : RuleRequest) (rules : List Rule)
    → req.event_type_id ≡ none
    → any (λ r. r.id == uid) rules ≡ false
    → is_empty_text req.start_time || is_empty_text req.end_time ≡ false
    → is_day_of_week req.day_of_week ≡ true
    → create_rule user uid (some req) rules ≡ (rules ++ created user uid req ∷ [], done)
unfolding create_rule
create_rule-eq user uid req rules g k n d =
    rw (n, d, none_collides (created user uid req) uid rules g k) refl

stored_rule-breaks :
    (z : Zones) (user event_type loc date : ℕ) (row : Rule) (rules : List Rule)
    (overrides : List AvailabilityOverride)
    → In row rules
    → (row.user_id == user && serves event_type row.event_type_id) ≡ true
    → (row.day_of_week == weekday date) ≡ true
    → time_reads row.start_time && time_reads row.end_time ≡ false
    → override_windows z loc date overrides false [] ≡ ok none
    → is_ok (resolve_day z loc date (load_rules user event_type rules) overrides) ≡ false
unfolding resolve_day load_rules
stored_rule-breaks z user event_type loc date row rules overrides i s w u o =
    let mine : Rule → Bool = λ r. r.user_id == user && serves event_type r.event_type_id in
    rw o (
      rule_windows-unreadable z loc date (loaded_rule row)
        (map loaded_rule (by_day (select mine rules))) []
        (In-map_loaded row (by_day (select mine rules))
          (In-by_day row (select mine rules) (In-select_of mine row rules i s)))
        w u)

-- A rule for all event types whose texts are not empty is created on any day of the week, unless its id is
-- taken; and where one of the texts cannot be read, no date of that day can be resolved any more, for any
-- event type, unless an override is for the date.
pub created_rule-breaks :
    (z : Zones) (user uid event_type loc date : ℕ) (req : RuleRequest) (rules : List Rule)
    (overrides : List AvailabilityOverride)
    → req.event_type_id ≡ none
    → any (λ r. r.id == uid) rules ≡ false
    → is_empty_text req.start_time || is_empty_text req.end_time ≡ false
    → is_day_of_week req.day_of_week ≡ true
    → (number_of req.day_of_week == weekday date) ≡ true
    → time_reads req.start_time && time_reads req.end_time ≡ false
    → override_windows z loc date overrides false [] ≡ ok none
    → ((create_rule user uid (some req) rules).1 ≡ done)
      × (is_ok (
            resolve_day z loc date
              (load_rules user event_type (create_rule user uid (some req) rules).0)
              overrides)
          ≡ false)
created_rule-breaks z user uid event_type loc date req rules overrides g k n d w u o =
    let row = created user uid req in
    rw (create_rule-eq user uid req rules g k n d) (
      refl,
      stored_rule-breaks z user event_type loc date row (rules ++ row ∷ []) overrides
          (In-append_right row rules (row ∷ []) (inl refl)) (rw g (ground arith)) w u o,
    )
