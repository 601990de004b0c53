-- ===== src/Slots/WallClock/Reading.antt =====
-- What the reader of "HH:MM" accepts.
use district_scheduler.Common.{
  Option-cases, inl, inr, ℕ, ◌+◌, ◌/◌, ◌%◌, ◌≤◌, ◌<◌, ◌≡◌, some, List, [], ◌∷◌, ◌++◌, arith,
}
use district_scheduler.Slots.Failure.{ok}
use district_scheduler.Slots.WallClock.{
  Zones, clock_field, split_colon, parse_wall_clock, atoi, unsigned, digits_value,
}

-- Two digits, as they are stored.
abbrev pub two_digits : ℕ → List ℕ
two_digits n = (b'0' + n / 10) ∷ (b'0' + n % 10) ∷ []

abbrev pub hhmm_text : ℕ → ℕ → List ℕ
hhmm_text h m = two_digits h ++ b':' ∷ two_digits m

pub clock_field-two_digits :
    (limit n : ℕ) → n ≤ limit → limit < 100 → clock_field limit (two_digits n) ≡ some n
unfolding clock_field atoi unsigned digits_value
clock_field-two_digits limit n h k = ground arith

pub split_colon-hhmm_text :
    (h m : ℕ) → h < 24 → split_colon (hhmm_text h m) ≡ some (two_digits h, two_digits m)
unfolding split_colon
split_colon-hhmm_text h m k = ground arith

-- Every time of day, written with two digits each, is read back as itself.
pub parse_wall_clock-hhmm_text :
    (z : Zones) (loc date h m : ℕ)
    → h < 24
    → m < 60
    → parse_wall_clock z loc date (hhmm_text h m) ≡ ok (z.wall_clock loc (z.utc_date date) h m)
unfolding parse_wall_clock
parse_wall_clock-hhmm_text z loc date h m p q = rw (
  split_colon-hhmm_text h m p,
  clock_field-two_digits 23 h (omega arith) (omega arith),
  clock_field-two_digits 59 m (omega arith) (omega arith),
)

clock_field-le : (limit n : ℕ) (text : List ℕ) → clock_field limit text ≡ some n → n ≤ limit
unfolding clock_field
clock_field-le limit n text h = ground arith

-- What is accepted names an hour of the day and a minute of the hour, on the UTC date of the day.
pub parse_wall_clock_bounds :
    (z : Zones) (loc date : ℕ) (text : List ℕ) {t : ℕ}
    → parse_wall_clock z loc date text ≡ ok t
    → (hour minute : ℕ) × (hour < 24)
      × (minute < 60)
      × (t ≡ z.wall_clock loc (z.utc_date date) hour minute)
unfolding parse_wall_clock
parse_wall_clock_bounds z loc date text h = elim (Option-cases (split_colon text)) [
  | inl e ↦ absurd (ground arith)
  | inr (parts, e) ↦ elim (Option-cases (clock_field 23 parts.0)) [
    | inl e₁ ↦ absurd (ground arith)
    | inr (hour, e₁) ↦ elim (Option-cases (clock_field 59 parts.1)) [
      | inl e₂ ↦ absurd (ground arith)
      | inr (minute, e₂) ↦ (
        hour,
        minute,
        omega (arith, clock_field-le 23 hour parts.0 e₁),
        omega (arith, clock_field-le 59 minute parts.1 e₂),
        ground arith,
      )
    ]
  ]
]
