-- ===== src/Slots/WallClock.antt =====
-- The wall-clock half of internal/slots/availability.go: reading "HH:MM" and placing it on a date in
-- a zone. Text is the list of its bytes. Zones are handles, and what the time-zone database says of
-- them is the parameter `Zones`.
pub mod Reading
use district_scheduler.Common.{
  ℕ, zero, suc, ◌+◌, ◌-◌, ◌*◌, ◌/◌, ◌%◌, ◌^◌, Bool, true, false, not, ◌&&◌, ◌||◌, Option, none,
  some, List, [], ◌∷◌, ltb, leb, ◌==◌, if◌then◌else◌,
}
use district_scheduler.Slots.Interval.{Interval}
use district_scheduler.Slots.Failure.{
  Error, invalid_time, invalid_hour, invalid_minute, start_error, end_error, Result, ok, err, ◌>>=◌,
  wrap, or_fail,
}

pub record CivilDate : Type 0 where
  pub year : ℕ
  pub month : ℕ
  pub day : ℕ

-- What Go's `time` package reads from the time-zone database: the date of an instant in a zone
-- (`t.In(loc).Date()`), the date of an instant in UTC, and the instant of a wall-clock time on a
-- date in a zone (`time.Date(y, m, d, hour, min, 0, 0, loc)`).
pub record Zones : Type 0 where
  pub local_date : ℕ → ℕ → CivilDate
  pub utc_date : ℕ → CivilDate
  pub wall_clock : ℕ → CivilDate → ℕ → ℕ → ℕ

-- A Go `int` as it is read: `negative n` is -n.
pub data Signed : Type 0 where
  nonnegative negative : ℕ → Signed

abbrev pub is_digit : ℕ → Bool
is_digit c = leb b'0' c && leb c b'9'

unfoldable pub digits_value : ℕ → List ℕ → Option ℕ
digits_value acc [] = some acc
digits_value acc (c ∷ cs) =
    let rest = digits_value (acc * 10 + (c - b'0')) cs in if is_digit c then rest else none

unfoldable pub unsigned : List ℕ → Option ℕ
unfolding digits_value
unsigned [] = none
unsigned (c ∷ cs) = digits_value 0 (c ∷ cs)

abbrev in_range : ℕ → Signed → Option Signed
in_range limit (nonnegative n) = if ltb n limit then some (nonnegative n) else none
in_range limit (negative n) = if leb n limit then some (negative n) else none

abbrev as_int : (ℕ → Signed) → Option ℕ → Option Signed
as_int sign none = none
as_int sign (some n) = in_range (2 ^ 63) (sign n)

-- `strconv.Atoi`: an optional sign, then digits, within 64 bits.
unfoldable pub atoi : List ℕ → Option Signed
unfolding unsigned
atoi [] = none
atoi (c ∷ cs) =
    if c == b'-'
    then as_int negative (unsigned cs)
    else if c == b'+'
    then as_int nonnegative (unsigned cs)
    else as_int nonnegative (unsigned (c ∷ cs))

-- `n < 0 || n > limit` refuses; -0 is 0.
abbrev up_to : ℕ → Signed → Option ℕ
up_to limit (nonnegative n) = if ltb limit n then none else some n
up_to limit (negative n) = if n == 0 then some 0 else none

unfoldable pub clock_field : ℕ → List ℕ → Option ℕ
unfolding atoi
clock_field limit text = elim (atoi text) [ none ↦ none | some n ↦ up_to limit n ]

-- `strings.SplitN(hhmm, ":", 2)`: what stands before the first colon and after it, if there is one.
unfoldable pub split_colon : List ℕ → Option (List ℕ × List ℕ)
split_colon [] = none
split_colon (c ∷ cs) =
    if c == b':'
    then some ([], cs)
    else elim (split_colon cs) [ none ↦ none | some (before, after) ↦ some (c ∷ before, after) ]

module _ (z : Zones) where
  open z use {local_date, utc_date, wall_clock}

  unfoldable pub parse_wall_clock : ℕ → ℕ → List ℕ → Result ℕ
  unfolding split_colon clock_field
  parse_wall_clock loc date hhmm = do
    parts ← or_fail (split_colon hhmm) (invalid_time hhmm)
    hour ← or_fail (clock_field 23 parts.0) (invalid_hour hhmm)
    minute ← or_fail (clock_field 59 parts.1) (invalid_minute hhmm)
    ok (wall_clock loc (utc_date date) hour minute)

  unfoldable pub wall_clock_interval : ℕ → ℕ → List ℕ → List ℕ → Result Interval
  unfolding parse_wall_clock
  wall_clock_interval loc date start_hhmm end_hhmm = do
    start ← wrap start_error (parse_wall_clock loc date start_hhmm)
    end ← wrap end_error (parse_wall_clock loc date end_hhmm)
    ok (record { start = start; end = end })

  unfoldable pub same_local_date : ℕ → ℕ → ℕ → Bool
  same_local_date a b loc =
      let x = local_date loc a in
      let y = local_date loc b in x.year == y.year && (x.month == y.month && x.day == y.day)
