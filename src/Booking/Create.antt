-- ===== src/Booking/Create.antt =====
-- `Service.Create` of internal/booking/service.go, as one transaction: it returns the tables after the
-- commit and the booking, or the error, on which everything is rolled back. The id that is drawn and
-- the readings of the clock are arguments; `lower` is the engine's LOWER. Faults of the engine other
-- than a violated unique index are left out, and so is waiting for locks (Booking.Locks).
pub mod Rotation
pub mod Choice
pub mod Guard
use district_scheduler.Common.{
  ℕ, zero, suc, ◌+◌, ◌-◌, ◌*◌, ◌/◌, ◌%◌, ◌^◌, ◌≤◌, ◌<◌, ◌≡◌, refl, sym, ap, ◌∙◌, ◌≢◌, ◌↔◌, ◌⊎◌, inl,
  inr, Bool, true, false, not, ◌&&◌, ◌||◌, Option, none, some, List, [], ◌∷◌, ◌++◌, map, arith, ltb,
  leb, ◌==◌, if◌then◌else◌, ltb→lt, lt→ltb, leb→le, le→leb, ==_iff, ==_refl, Bool-cases,
  Option-cases, length, any, all, select, any-append, In, In-append, In-append_left,
  In-append_right, any_of_In, In-of_any, not-any_of_In, all_of_In, In-select, In-select_of,
  any_mono, &&_left, &&_right,
}
use district_scheduler.Common.Fallible.{ok, err, ◌>>=◌}
use district_scheduler.Slots.Day.{nanoseconds_per_second}
use district_scheduler.Slots.Routing.{RoutingMode, fixed, round_robin, collective, priority}
use district_scheduler.Booking.Stamp.{before}
use district_scheduler.Booking.Store.{
  Status, Booking, confirmed, Seat, AttendeeRow, AnswerRow, Store, is_cancelled, Error, hosts_empty,
  double_booked, booking_limit_reached, email_throttled, insert_host_failed, Result,
}
use district_scheduler.Booking.Conflict.{host_busy, attends}

pub record Attendee : Type 0 where
  pub name : ℕ
  pub email : ℕ
  pub iana_timezone : ℕ
  pub locale : ℕ

pub record Answer : Type 0 where
  pub question_id : ℕ
  pub value : ℕ

-- `CreateParams.RRStrategy`: "priority", or any other text, which distributes evenly.
pub data Strategy : Type 0 where
  by_priority evenly : Strategy

pub record CreateParams : Type 0 where
  pub event_type_id : ℕ
  pub host_ids : List ℕ
  pub routing_mode : RoutingMode
  pub required_hosts : List ℕ
  pub strategy : Strategy
  pub optional_hosts : List ℕ
  pub start_at : ℕ
  pub end_at : ℕ
  pub location_value : ℕ
  pub location_type : ℕ
  pub organizer : Attendee
  pub answers : List Answer
  pub max_active_per_invitee : ℕ
  pub max_bookings_per_hour : ℕ
  pub invite_delivery : ℕ

-- The texts "calendar", "UTC" and "en", the defaults for an empty text.
abbrev pub invite_by_calendar : ℕ
invite_by_calendar = 1

abbrev pub utc_zone : ℕ
utc_zone = 1

abbrev pub english : ℕ
english = 1

abbrev pub or_default : ℕ → ℕ → ℕ
or_default text default = if text == 0 then default else text

-- `slices.Contains`
abbrev pub contains_id : List ℕ → ℕ → Bool
contains_id xs a = any (λ x. x == a) xs

-- The upcoming bookings of a host for the event type, as `leastLoadedHost` counts them.
unfoldable pub load : Store → ℕ → ℕ → ℕ → ℕ
unfolding attends
load store event_type_id now host = length (
    select
      (λ b.
        (b.event_type_id == event_type_id && not (is_cancelled b.status))
        && (before now b.end_at && attends store.seats b.id host))
      store.bookings)

-- The loop of `leastLoadedHost` over the candidates after the first.
unfoldable pub least_from : (ℕ → ℕ) → ℕ → ℕ → List ℕ → ℕ
least_from counts best best_n [] = best
least_from counts best best_n (c ∷ cs) =
    least_from counts (if ltb (counts c) best_n then c else best)
      (if ltb (counts c) best_n then counts c else best_n) cs

unfoldable pub least_loaded_host : (ℕ → ℕ) → ℕ → List ℕ → ℕ
unfolding least_from
least_loaded_host counts first rest = least_from counts first (counts first) rest

abbrev pub pick_rotation_host : Store → ℕ → Strategy → ℕ → ℕ → List ℕ → ℕ
pick_rotation_host store event_type_id by_priority now first rest = first
pick_rotation_host store event_type_id evenly now first rest =
    least_loaded_host (load store event_type_id now) first rest

-- Who will attend, `assigned`, and the primary host among them.
pub record Chosen : Type 0 where
  pub host : ℕ
  pub assigned : List ℕ

-- Every host has to be free.
unfoldable pub check_free : Store → ℕ → ℕ → List ℕ → Result (Unit {0})
check_free store start end [] = ok tt
check_free store start end (h ∷ hs) =
    let rest = check_free store start end hs in
    if host_busy store h start end 0 then err double_booked else rest

unfoldable pub free_hosts : Store → ℕ → ℕ → List ℕ → List ℕ
free_hosts store start end hosts = select (λ h. not (host_busy store h start end 0)) hosts

abbrev pub pick_free : Store → CreateParams → ℕ → List ℕ → Result Chosen
pick_free store p now [] = err double_booked
pick_free store p now (f ∷ fs) =
    let chosen = pick_rotation_host store p.event_type_id p.strategy now f fs in
    ok (record { host = chosen; assigned = p.required_hosts ++ chosen ∷ [] })

abbrev pub pick_all : List ℕ → Result Chosen
pick_all [] = err hosts_empty
pick_all (h ∷ hs) = ok (record { host = h; assigned = h ∷ hs })

unfoldable pub choose_round_robin : Store → CreateParams → ℕ → Result Chosen
unfolding check_free free_hosts
choose_round_robin store p now = do
  _ ← check_free store p.start_at p.end_at p.required_hosts
  pick_free store p now (free_hosts store p.start_at p.end_at p.host_ids)

unfoldable pub choose_all : Store → CreateParams → Result Chosen
unfolding check_free
choose_all store p = do _ ← check_free store p.start_at p.end_at p.host_ids; pick_all p.host_ids

abbrev pub is_round_robin : RoutingMode → Bool
is_round_robin round_robin = true
is_round_robin mode = false

unfoldable pub choose_hosts : Store → CreateParams → ℕ → Result Chosen
choose_hosts store p now =
    if is_round_robin p.routing_mode then choose_round_robin store p now else choose_all store p

-- Optional hosts join where they are free and not assigned yet.
unfoldable pub add_optional : Store → ℕ → ℕ → List ℕ → List ℕ → List ℕ
add_optional store start end assigned [] = assigned
add_optional store start end assigned (h ∷ hs) =
    add_optional store start end
      (if contains_id assigned h || host_busy store h start end 0
        then assigned
        else assigned ++ h ∷ [])
      hs

module _ (lower : ℕ → ℕ) where
  abbrev organizers : List AttendeeRow → ℕ → ℕ → ℕ
  organizers attendees email booking = length (
      select (λ a. a.booking_id == booking && (a.is_organizer && lower a.email == lower email))
        attendees)

  -- The rows of bookings that pass the test, joined with their organizers of this email.
  unfoldable pub count_organized : List AttendeeRow → ℕ → (Booking → Bool) → List Booking → ℕ
  count_organized attendees email test [] = 0
  count_organized attendees email test (b ∷ bs) =
      (if test b then organizers attendees email b.id else 0)
      + count_organized attendees email test bs

  unfoldable pub check_limits : Store → CreateParams → ℕ → ℕ → Result (Unit {0})
  unfolding count_organized
  check_limits store p now clock =
      let active =
        count_organized store.attendees p.organizer.email
          (λ b.
            (b.event_type_id == p.event_type_id && not (is_cancelled b.status))
            && before now b.end_at)
          store.bookings in
      let recent =
        count_organized store.attendees p.organizer.email
          (λ b. before (clock - 3600 * nanoseconds_per_second) b.created_at) store.bookings in
      if ltb 0 p.max_active_per_invitee && leb p.max_active_per_invitee active
      then err booking_limit_reached
      else if ltb 0 p.max_bookings_per_hour && leb p.max_bookings_per_hour recent
      then err email_throttled
      else ok tt

-- The primary key, and `idx_bookings_no_double` on (host_id, start_at) of the active bookings.
unfoldable pub violates_unique : List Booking → ℕ → ℕ → ℕ → Bool
violates_unique bookings id host start =
    any
      (λ b.
        b.id == id || (not (is_cancelled b.status) && (b.host_id == host && b.start_at == start)))
      bookings

abbrev pub new_booking : CreateParams → ℕ → ℕ → ℕ → Booking
new_booking p id host now = record {
  id = id;
  event_type_id = p.event_type_id;
  host_id = host;
  start_at = p.start_at;
  end_at = p.end_at;
  status = confirmed;
  cancellation_reason = 0;
  location_value = p.location_value;
  location_type = p.location_type;
  created_at = now;
  updated_at = now;
  payment_status = 0;
  amount_paid_cents = 0;
  amount_paid_currency = 0;
  confirm_failed = false;
  invite_delivery = or_default p.invite_delivery invite_by_calendar;
}

-- A seat for each assigned host; `UNIQUE (booking_id, user_id)` refuses a second one.
unfoldable pub insert_seats : ℕ → ℕ → List ℕ → List Seat → Result (List Seat)
unfolding attends
insert_seats id host [] seats = ok seats
insert_seats id host (h ∷ hs) seats =
    let rest = insert_seats id host hs (
      record { booking_id = id; user_id = h; is_primary = h == host; needs_sync = false }
      ∷ seats) in
    if attends seats id h then err insert_host_failed else rest

abbrev pub organizer_row : ℕ → Attendee → AttendeeRow
organizer_row id a = record {
  booking_id = id;
  name = a.name;
  email = a.email;
  iana_timezone = or_default a.iana_timezone utc_zone;
  is_organizer = true;
  locale = or_default a.locale english;
}

unfoldable pub insert_booking : Store → CreateParams → ℕ → ℕ → Chosen → Result (Store × Booking)
unfolding violates_unique insert_seats
insert_booking store p id now chosen =
    if violates_unique store.bookings id chosen.host p.start_at
    then err double_booked
    else (insert_seats id chosen.host chosen.assigned store.seats >>= λ seats. ok (
      record store {
        bookings = new_booking p id chosen.host now ∷ store.bookings;
        seats = seats;
        attendees = organizer_row id p.organizer ∷ store.attendees;
        answers =
            map (λ a. record { booking_id = id; question_id = a.question_id; value = a.value })
              p.answers
            ++ store.answers;
      },
      new_booking p id chosen.host now,
    ))

abbrev pub is_nil : List ℕ → Bool
is_nil [] = true
is_nil (x ∷ xs) = false

unfoldable pub create : (ℕ → ℕ) → Store → CreateParams → ℕ → ℕ → ℕ → Result (Store × Booking)
unfolding choose_hosts add_optional check_limits insert_booking
create lower store p id now clock =
    if is_nil p.host_ids
    then err hosts_empty
    else (choose_hosts store p now >>= λ chosen.
        let assigned = add_optional store p.start_at p.end_at chosen.assigned p.optional_hosts in
        check_limits lower store p now clock >>= λ _.
        insert_booking store p id now (record chosen { assigned = assigned }))
