-- ===== src/Handler/Schedule/Resolved.antt =====
-- Resolving the days of a stored schedule: internal/handler/availability.go, override.go and slots_handler.go
-- with `resolveDay` of internal/slots.
use district_scheduler.Common.{
  ℕ, ◌≡◌, refl, inl, inr, Bool, true, ◌&&◌, Option, List, [], ◌∷◌, arith, ◌==◌, Bool-cases, all,
  select, In, In-select, map,
}
use district_scheduler.Slots.WallClock.{Zones}
use district_scheduler.Slots.Day.{resolve_day}
use district_scheduler.Slots.Generate.Totality.{
  is_ok, time_reads, rule_reads, override_reads, resolve_day-is_ok,
}
use district_scheduler.Handler.Hours.{Text, Rule, valid_hhmm}
use district_scheduler.Handler.Overrides.{Override, proper_times, text_of}
use district_scheduler.Handler.Overrides.Coherent.{IsCoherent, in_order}
use district_scheduler.Handler.Overrides.Kept.{Request, serve_all, serve_all-IsCoherent}
use district_scheduler.Handler.Schedule.{
  load_rules, load_overrides, loaded_override, loaded_rule, by_day, place, serves,
}
use district_scheduler.Handler.Schedule.Readable.{valid_hhmm-time_reads}

times-read :
    (s t : Option Text)
    → proper_times s t ≡ true
    → time_reads (text_of s) && time_reads (text_of t) ≡ true
times-read s t h = ground (
  arith,
  valid_hhmm-time_reads (text_of s) (ground arith),
  valid_hhmm-time_reads (text_of t) (ground arith),
)

loaded_override-reads :
    (r : Override) → in_order r ≡ true → override_reads (loaded_override r) ≡ true
loaded_override-reads r h = elim (Bool-cases r.is_available) [
  | inl custom ↦ ground (arith, times-read r.start_time r.end_time (ground arith))
  | inr blocked ↦ ground arith
]

all-loaded_overrides :
    (rows : List Override)
    → ((r : Override) → In r rows → in_order r ≡ true)
    → all override_reads (map loaded_override rows) ≡ true
all-loaded_overrides [] h = refl
all-loaded_overrides (r ∷ rows) h =
    let rest = all-loaded_overrides rows (λ s i. h s (inr i)) in
    let read = loaded_override-reads r (h r (inl refl)) in ground (arith, rest, read)

abbrev pub is_valid_rule : Rule → Bool
is_valid_rule r = valid_hhmm r.start_time && valid_hhmm r.end_time

all-place :
    (r : Rule) (rs : List Rule)
    → is_valid_rule r ≡ true
    → all is_valid_rule rs ≡ true
    → all is_valid_rule (place r rs) ≡ true
unfolding place
all-place r [] v h = ground arith
all-place r (s ∷ rs) v h = ground (arith, all-place r rs v)

all-by_day : (rs : List Rule) → all is_valid_rule rs ≡ true → all is_valid_rule (by_day rs) ≡ true
unfolding by_day
all-by_day [] h = refl
all-by_day (r ∷ rs) h = all-place r (by_day rs) (ground arith) (all-by_day rs (ground arith))

all-select :
    (p : Rule → Bool) (rs : List Rule)
    → all is_valid_rule rs ≡ true
    → all is_valid_rule (select p rs) ≡ true
all-select p [] h = refl
all-select p (r ∷ rs) h = ground (arith, all-select p rs)

all-loaded_rules :
    (rs : List Rule) → all is_valid_rule rs ≡ true → all rule_reads (map loaded_rule rs) ≡ true
all-loaded_rules [] h = refl
all-loaded_rules (r ∷ rs) h = ground (
  arith,
  all-loaded_rules rs,
  valid_hhmm-time_reads r.start_time,
  valid_hhmm-time_reads r.end_time,
)

all-load_rules :
    (user event_type : ℕ) (rs : List Rule)
    → all is_valid_rule rs ≡ true
    → all rule_reads (load_rules user event_type rs) ≡ true
unfolding load_rules
all-load_rules user event_type rs h =
    all-loaded_rules
      (by_day (select (λ r. r.user_id == user && serves event_type r.event_type_id) rs))
      (all-by_day _ (all-select _ rs h))

-- Where the weekly rules all have times that the handlers check for, and the overrides are what requests make
-- of coherent ones, every date of every user is resolved for every event type and zone, with no error.
pub schedule_resolves :
    (z : Zones) (user event_type loc date : ℕ) (rules : List Rule) (rs : List (ℕ × Request))
    (rows : List Override)
    → all is_valid_rule rules ≡ true
    → IsCoherent rows
    → is_ok (
        resolve_day z loc date
          (load_rules user event_type rules)
          (load_overrides user (serve_all rs rows)))
      ≡ true
unfolding load_overrides
schedule_resolves z user event_type loc date rules rs rows v c =
    let kept = serve_all-IsCoherent rs rows c in
    resolve_day-is_ok z loc date (load_rules user event_type rules)
      (map loaded_override (select (λ r. r.user_id == user) (serve_all rs rows)))
      (all-load_rules user event_type rules v)
      (all-loaded_overrides _
        (λ r i. kept.ordered r (In-select (λ s. s.user_id == user) r (serve_all rs rows) i).0))
