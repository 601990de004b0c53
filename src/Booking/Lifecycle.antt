-- ===== src/Booking/Lifecycle.antt =====
-- `Cancel`, `CancelByID`, `Reschedule` and `ReassignHost` of internal/booking/service.go, and the
-- statement by which internal/handler/reassign.go moves the primary seat after a reassignment. Each
-- returns the tables after it; on an error they are as before.
pub mod Kept
pub mod Freed
pub mod Moves
pub mod Reassigned
pub mod Cancelled
use district_scheduler.Common.{
  ℕ, zero, suc, ◌+◌, ◌-◌, ◌*◌, ◌/◌, ◌%◌, ◌^◌, ◌≤◌, ◌<◌, ◌≡◌, refl, sym, ap, subst, ◌∙◌, ◌≢◌, ◌↔◌,
  ◌⊎◌, inl, inr, Bool, true, false, not, ◌&&◌, ◌||◌, Option, none, some, List, [], ◌∷◌, ◌++◌, map,
  arith, ltb, leb, ◌==◌, if◌then◌else◌, ltb→lt, lt→ltb, leb→le, le→leb, ==_iff, ==_refl, Bool-cases,
  Option-cases, length, any, all, select, any-append, In, In-append, In-append_left,
  In-append_right, any_of_In, In-of_any, not-any_of_In, all_of_In, In-select, In-select_of,
  any_mono, &&_left, &&_right,
}
use district_scheduler.Common.Fallible.{ok, err, ◌>>=◌, or_fail}
use district_scheduler.Booking.Store.{
  Booking, Seat, Store, Status, cancelled, is_cancelled, Error, not_found, already_cancelled,
  double_booked, Result, find_booking, update_bookings,
}
use district_scheduler.Booking.Conflict.{host_busy}
use district_scheduler.Booking.Create.{check_free}

-- `UPDATE booking_hosts SET needs_sync = 0 WHERE booking_id = ?`
unfoldable pub clear_needs_sync : ℕ → List Seat → List Seat
clear_needs_sync id [] = []
clear_needs_sync id (s ∷ ss) =
    (if s.booking_id == id then record s { needs_sync = false } else s) ∷ clear_needs_sync id ss

abbrev pub cancel_row : ℕ → ℕ → Booking → Booking
cancel_row reason now b = record b {
  status = cancelled;
  cancellation_reason = reason;
  updated_at = now;
}

-- The update of `Cancel` and `CancelByID`, of the rows that pass; no row tells the two errors apart.
unfoldable pub cancel_where : (Booking → Bool) → ℕ → ℕ → ℕ → Store → Result Store
unfolding update_bookings clear_needs_sync
cancel_where owns id reason now store =
    if any (λ b. owns b && not (is_cancelled b.status)) store.bookings
    then ok (record store {
      bookings =
          update_bookings (λ b. owns b && not (is_cancelled b.status)) (cancel_row reason now)
            store.bookings;
      seats = clear_needs_sync id store.seats;
    })
    else if not (any owns store.bookings)
    then err not_found
    else err already_cancelled

unfoldable pub cancel : ℕ → ℕ → ℕ → ℕ → Store → Result Store
unfolding cancel_where
cancel host_id id reason now store =
    cancel_where (λ b. b.id == id && b.host_id == host_id) id reason now store

unfoldable pub cancel_by_id : ℕ → ℕ → ℕ → Store → Result Store
unfolding cancel_where
cancel_by_id id reason now store = cancel_where (λ b. b.id == id) id reason now store

-- `SELECT user_id FROM booking_hosts WHERE booking_id = ?`
unfoldable pub seat_holders : ℕ → List Seat → List ℕ
seat_holders id [] = []
seat_holders id (s ∷ ss) =
    let rest = seat_holders id ss in if s.booking_id == id then s.user_id ∷ rest else rest

-- A booking from before there were seats is held by its host.
abbrev pub holders_or : ℕ → List ℕ → List ℕ
holders_or host [] = host ∷ []
holders_or host (h ∷ hs) = h ∷ hs

-- The loop over the seat holders, with the booking itself left out of the overlap check.
unfoldable pub check_free_except : Store → ℕ → ℕ → ℕ → List ℕ → Result (Unit {0})
check_free_except store start end id [] = ok tt
check_free_except store start end id (h ∷ hs) =
    let rest = check_free_except store start end id hs in
    if host_busy store h start end id then err double_booked else rest

-- `idx_bookings_no_double` against the rows other than the one that is updated.
unfoldable pub clashes : List Booking → ℕ → ℕ → ℕ → Bool
clashes bookings id host start =
    any
      (λ b.
        not (b.id == id)
        && (not (is_cancelled b.status) && (b.host_id == host && b.start_at == start)))
      bookings

abbrev pub move_row : ℕ → ℕ → ℕ → Booking → Booking
move_row start end now b = record b { start_at = start; end_at = end; updated_at = now }

unfoldable pub reschedule : ℕ → ℕ → ℕ → ℕ → Store → Result (Store × Booking)
unfolding find_booking seat_holders check_free_except clashes update_bookings
reschedule id start end now store = or_fail (find_booking id store.bookings) not_found >>= λ b.
    if is_cancelled b.status
    then err already_cancelled
    else (check_free_except store start end id (holders_or b.host_id (seat_holders id store.seats))
        >>= λ _.
            if clashes store.bookings id b.host_id start
            then err double_booked
            else ok (
              record store {
                bookings =
                    update_bookings (λ c. c.id == id) (move_row start end now) store.bookings;
              },
              move_row start end now b,
            ))

abbrev pub reassign_row : ℕ → ℕ → Booking → Booking
reassign_row host now b = record b { host_id = host; updated_at = now }

unfoldable pub reassign_host : ℕ → ℕ → ℕ → Store → Result (Store × Booking)
unfolding find_booking clashes update_bookings
reassign_host id new_host now store = or_fail (find_booking id store.bookings) not_found >>= λ b.
    if is_cancelled b.status
    then err already_cancelled
    else if b.host_id == new_host
    then ok (store, b)
    else if host_busy store new_host b.start_at b.end_at id
    then err double_booked
    else if clashes store.bookings id new_host b.start_at
    then err double_booked
    else ok (
      record store {
        bookings = update_bookings (λ c. c.id == id) (reassign_row new_host now) store.bookings;
      },
      reassign_row new_host now b,
    )

-- `UPDATE booking_hosts SET user_id = ? WHERE booking_id = ? AND is_primary = 1`
unfoldable pub move_primary : ℕ → ℕ → List Seat → List Seat
move_primary id host [] = []
move_primary id host (s ∷ ss) =
    (if s.booking_id == id && s.is_primary then record s { user_id = host } else s)
    ∷ move_primary id host ss

-- The handler runs it after `ReassignHost` has committed, and only logs a failure: where another seat of
-- the booking is the new host's already, `UNIQUE (booking_id, user_id)` refuses it and nothing moves.
unfoldable pub sync_primary : ℕ → ℕ → List Seat → List Seat
unfolding move_primary
sync_primary id host seats =
    if any (λ s. s.booking_id == id && (not s.is_primary && s.user_id == host)) seats
    then seats
    else move_primary id host seats

abbrev pub synced : ℕ → ℕ → Store × Booking → Store × Booking
synced id host (store, b) = (record store { seats = sync_primary id host store.seats }, b)

-- The two writes of `ReassignBooking` of the handler, behind its checks of the request. The second one
-- also clears the seat's external event id, which is left out.
unfoldable pub reassign_and_sync : ℕ → ℕ → ℕ → Store → Result (Store × Booking)
unfolding reassign_host sync_primary
reassign_and_sync id new_host now store =
    reassign_host id new_host now store >>= λ r. ok (synced id new_host r)
