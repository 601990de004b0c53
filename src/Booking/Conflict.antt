-- ===== src/Booking/Conflict.antt =====
-- `hostBusy` of internal/booking/service.go, and what it means that nobody is double booked.
use district_scheduler.Common.{
  ℕ, ◌≡◌, ◌≢◌, Bool, true, false, not, ◌&&◌, ◌||◌, List, arith, ◌==◌, any, In, not-any_of_In,
  any_mono,
}
use district_scheduler.Booking.Stamp.{before}
use district_scheduler.Booking.Store.{Booking, Seat, CalendarRow, Store, is_cancelled}

-- The calendar that `host` checks for conflicts is the one that `user` books into.
unfoldable pub shares_calendar : List CalendarRow → ℕ → ℕ → Bool
shares_calendar calendars host user =
    any
      (λ checked.
        (checked.user_id == host && checked.check_conflicts)
        && any
            (λ destination.
              (destination.provider == checked.provider
                && (destination.account_email == checked.account_email
                    && destination.calendar_id == checked.calendar_id))
              && (destination.user_id == user && destination.is_destination))
            calendars)
      calendars

-- `b.start_at < end AND b.end_at > start`
unfoldable pub meets : Booking → ℕ → ℕ → Bool
meets b start end = before b.start_at end && before start b.end_at

-- `SELECT COUNT(*) … > 0`: some row of the join passes.
unfoldable pub host_busy : Store → ℕ → ℕ → ℕ → ℕ → Bool
host_busy store host start end exclude =
    any
      (λ b.
        (not (is_cancelled b.status) && (not (b.id == exclude) && meets b start end))
        && any
            (λ s.
              s.booking_id == b.id
              && (s.user_id == host || shares_calendar store.calendars host s.user_id))
            store.seats)
      store.bookings

-- Does the user hold a seat at the booking?
unfoldable pub attends : List Seat → ℕ → ℕ → Bool
attends seats booking user = any (λ s. s.booking_id == booking && s.user_id == user) seats

-- A host that is not busy attends no active booking that meets the time, except for the booking
-- that is excluded.
pub host_busy_excludes :
    (store : Store) (host start end exclude : ℕ) (b : Booking)
    → host_busy store host start end exclude ≡ false
    → In b store.bookings
    → is_cancelled b.status ≡ false
    → b.id ≢ exclude
    → attends store.seats b.id host ≡ true
    → meets b start end ≡ false
unfolding host_busy attends
host_busy_excludes store host start end exclude b free m active other seat =
    let q =
      not-any_of_In
        (λ b.
          (not (is_cancelled b.status) && (not (b.id == exclude) && meets b start end))
          && any
              (λ s.
                s.booking_id == b.id
                && (s.user_id == host || shares_calendar store.calendars host s.user_id))
              store.seats)
        b store.bookings free m in
    let r =
      any_mono (λ s. s.booking_id == b.id && s.user_id == host)
        (λ s.
          s.booking_id == b.id
          && (s.user_id == host || shares_calendar store.calendars host s.user_id))
        store.seats (λ s h. ground arith) seat in
    ground arith
