-- ===== src/Booking/Tests.antt =====
-- Runs of internal/booking on small tables: a host, 1, whose booking 10 lasts from nine to ten.
use district_scheduler.Common.{
  length, ℕ, ◌+◌, ◌*◌, ◌%◌, ◌<◌, ◌≡◌, refl, inl, Bool, true, false, some, List, [], ◌∷◌, arith,
}
use district_scheduler.Common.Fallible.{err, ok}
use district_scheduler.Slots.Routing.{collective}
use district_scheduler.Slots.Day.{nanoseconds_per_second}
use district_scheduler.Booking.Store.{
  not_found, already_cancelled, cancelled, update_bookings, find_booking, TokenRow, AttendeeRow,
  Store, Booking, Seat, CalendarRow,
}
use district_scheduler.Booking.Create.{
  contains_id, insert_seats, violates_unique, insert_booking, count_organized, check_limits,
  add_optional, free_hosts, check_free, choose_round_robin, choose_all, organizer_row, choose_hosts,
  evenly, CreateParams, Attendee, create, new_booking,
}
use district_scheduler.Booking.Create.Guard.{create-Guarded}
use district_scheduler.Booking.Guarded.{Guarded}
use district_scheduler.Booking.Lifecycle.{
  clashes, clear_needs_sync, check_free_except, seat_holders, cancel_where, move_primary,
  reschedule, cancel, cancel_row, reassign_host, reassign_and_sync, sync_primary,
}
use district_scheduler.Booking.Lifecycle.Moves.{reschedule-Guarded}
use district_scheduler.Booking.Lifecycle.Freed.{cancel-frees}
use district_scheduler.Booking.Locks.Crossed.{reschedules-cross}
use district_scheduler.Booking.Lifecycle.Reassigned.{
  reassign_and_sync-Guarded, reassign_host-host_busy,
}
use district_scheduler.Booking.Locks.{
  host_lock_key, reschedule_locks, Digests, lock_hosts, postgres,
}
use district_scheduler.Booking.Locks.Shared.{
  shared_calendar_locked, lock_hosts-Ascending, Ascending,
}
use district_scheduler.Booking.Stamp.{
  sql_time, rfc3339_nano, text_lt, text_tail, fraction_digits, before,
}
use district_scheduler.Booking.Tokens.{
  token_row, insert_token, find_token, manage_token_ttl, rotate_manage_token, validate_manage_token,
  fresh_token_opens, rotated_tokens_dead,
}
use district_scheduler.Booking.Listing.{ListFilter, unset, upcoming, past, counts, list}
use district_scheduler.Booking.Listing.Pages.{counts_match_list}
use district_scheduler.Booking.Conflict.{host_busy, shares_calendar, meets, attends}

abbrev at : ℕ → ℕ
at h = h * (3600 * nanoseconds_per_second)

abbrev nobody : Store
nobody = record {
  bookings = [];
  seats = [];
  attendees = [];
  answers = [];
  calendars = [];
  tokens = [];
}

nobody-Guarded : Guarded nobody
nobody-Guarded = record {
  seated = refl;
  named = λ b m. elim m [ ];
  unique = λ b c m n. elim m [ ];
  apart = λ b c user m n x y ne s t. elim m [ ];
}

abbrev guest : Attendee
guest = record { name = 5; email = 6; iana_timezone = 0; locale = 0 }

abbrev meeting : ℕ → ℕ → CreateParams
meeting start end = record {
  event_type_id = 3;
  host_ids = 1 ∷ [];
  routing_mode = collective;
  required_hosts = [];
  strategy = evenly;
  optional_hosts = [];
  start_at = start;
  end_at = end;
  location_value = 0;
  location_type = 0;
  organizer = guest;
  answers = [];
  max_active_per_invitee = 0;
  max_bookings_per_hour = 0;
  invite_delivery = 0;
}

abbrev organizer_of : ℕ → AttendeeRow
organizer_of id = organizer_row id guest

abbrev seat_of : ℕ → ℕ → Seat
seat_of id user = record { booking_id = id; user_id = user; is_primary = true; needs_sync = false }

abbrev nine : Booking
nine = new_booking (meeting (at 9) (at 10)) 10 1 0

abbrev eleven : Booking
eleven = new_booking (meeting (at 11) (at 12)) 11 1 0

abbrev one : Store
one = record nobody {
  bookings = nine ∷ [];
  seats = seat_of 10 1 ∷ [];
  attendees = organizer_of 10 ∷ [];
}

abbrev two : Store
two = record nobody {
  bookings = eleven ∷ nine ∷ [];
  seats = seat_of 11 1 ∷ seat_of 10 1 ∷ [];
  attendees = organizer_of 11 ∷ organizer_of 10 ∷ [];
}

one_made : create (λ email. email) nobody (meeting (at 9) (at 10)) 10 0 0 ≡ ok (one, nine)
unfolding create choose_hosts choose_all choose_round_robin check_free free_hosts add_optional
    check_limits count_organized insert_booking violates_unique insert_seats host_busy
    shares_calendar meets before rfc3339_nano text_lt text_tail fraction_digits attends
one_made = refl

two_made : create (λ email. email) one (meeting (at 11) (at 12)) 11 0 0 ≡ ok (two, eleven)
unfolding create choose_hosts choose_all choose_round_robin check_free free_hosts add_optional
    check_limits count_organized insert_booking violates_unique insert_seats host_busy
    shares_calendar meets before rfc3339_nano text_lt text_tail fraction_digits attends
two_made = refl

one-Guarded : Guarded one
one-Guarded =
    create-Guarded (λ email. email) nobody (meeting (at 9) (at 10)) 10 0 0 one nine (λ e. cc)
      nobody-Guarded one_made

create-Guarded_example : Guarded two
create-Guarded_example =
    create-Guarded (λ email. email) one (meeting (at 11) (at 12)) 11 0 0 two eleven (λ e. cc)
      one-Guarded two_made

two-Guarded : Guarded two
two-Guarded =
    create-Guarded (λ email. email) one (meeting (at 11) (at 12)) 11 0 0 two eleven (λ e. cc)
      one-Guarded two_made

-- The second booking moved to one o'clock.
abbrev thirteen : Booking
thirteen = record eleven { start_at = at 13; end_at = at 14; updated_at = 8 }

abbrev two_moved : Store
two_moved = record two { bookings = thirteen ∷ nine ∷ [] }

moved : reschedule 11 (at 13) (at 14) 8 two ≡ ok (two_moved, thirteen)
unfolding reschedule reassign_host find_booking seat_holders check_free_except clashes
    update_bookings host_busy shares_calendar meets before rfc3339_nano text_lt text_tail
    fraction_digits
moved = refl

reschedule-Guarded_example : Guarded two_moved
reschedule-Guarded_example =
    reschedule-Guarded 11 (at 13) (at 14) 8 two two_moved thirteen two-Guarded moved

-- The second booking cancelled by its host.
abbrev two_cancelled : Store
two_cancelled = record two { bookings = cancel_row 4 8 eleven ∷ nine ∷ [] }

cancelled_run : cancel 1 11 4 8 two ≡ ok two_cancelled
unfolding cancel cancel_where update_bookings clear_needs_sync
cancelled_run = refl

cancel-frees_example :
    (after : Store) × (cancel 1 11 4 8 two ≡ ok after)
    × (find_booking 11 after.bookings
        ≡ some (record eleven { status = cancelled; cancellation_reason = 4; updated_at = 8 }))
    × ((host start end : ℕ) → host_busy after host start end 0 ≡ host_busy two host start end 11)
    × (cancel 1 11 4 9 after ≡ err already_cancelled)
    × (cancel 2 11 4 8 two ≡ err not_found)
cancel-frees_example = cancel-frees 2 4 8 9 two eleven two-Guarded (inl refl) refl (λ e. cc)

-- The second booking moved to the host 2, and then its seat.
abbrev eleven_of_two : Booking
eleven_of_two = record eleven { host_id = 2; updated_at = 8 }

abbrev two_reassigned : Store
two_reassigned = record two { bookings = eleven_of_two ∷ nine ∷ [] }

abbrev two_synced : Store
two_synced = record two_reassigned {
  seats = record (seat_of 11 1) { user_id = 2 } ∷ seat_of 10 1 ∷ [];
}

reassigned_run : reassign_host 11 2 8 two ≡ ok (two_reassigned, eleven_of_two)
unfolding reschedule reassign_host find_booking seat_holders check_free_except clashes
    update_bookings host_busy shares_calendar meets before rfc3339_nano text_lt text_tail
    fraction_digits
reassigned_run = refl

eleven_found : find_booking 11 two.bookings ≡ some eleven
unfolding find_booking
eleven_found = refl

synced_run : reassign_and_sync 11 2 8 two ≡ ok (two_synced, eleven_of_two)
unfolding reassign_and_sync reassign_host find_booking clashes update_bookings sync_primary
    move_primary host_busy shares_calendar meets before rfc3339_nano text_lt text_tail
    fraction_digits
synced_run = refl

reassign_and_sync-Guarded_example : Guarded two_synced
reassign_and_sync-Guarded_example =
    reassign_and_sync-Guarded 11 2 8 two two_synced eleven eleven_of_two two-Guarded eleven_found
      (λ e. cc) synced_run

reassign_host-host_busy_example :
    host_busy two_reassigned 2 (at 11) (at 12) 0 ≡ host_busy two 2 (at 11) (at 12) 0
reassign_host-host_busy_example =
    reassign_host-host_busy 11 2 8 two two_reassigned eleven_of_two 2 (at 11) (at 12) 0
      reassigned_run

-- The host 1 checks the calendar that the host 2 books into.
abbrev team_calendar : ℕ → Bool → Bool → CalendarRow
team_calendar user checks books = record {
  user_id = user;
  provider = 1;
  account_email = 2;
  calendar_id = 3;
  check_conflicts = checks;
  is_destination = books;
}

abbrev shared : List CalendarRow
shared = team_calendar 1 true false ∷ team_calendar 2 false true ∷ []

abbrev sums : Digests
sums = record { host = λ id. id; calendar = λ p a c. 100 + p + a + c }

sharing : shares_calendar shared 1 2 ≡ true
unfolding shares_calendar
sharing = refl

shared_calendar_locked_example :
    (k : ℕ) × (contains_id (lock_hosts postgres sums shared (1 ∷ [])) k ≡ true)
    × (contains_id (lock_hosts postgres sums shared (2 ∷ [])) k ≡ true)
shared_calendar_locked_example =
    shared_calendar_locked sums shared 1 2 (1 ∷ []) (2 ∷ []) (λ e. cc) (λ e. cc) sharing refl refl

lock_hosts-Ascending_example : Ascending 0 (lock_hosts postgres sums shared (2 ∷ 1 ∷ 2 ∷ []))
lock_hosts-Ascending_example = lock_hosts-Ascending postgres sums shared (2 ∷ 1 ∷ 2 ∷ [])

-- Two bookings with a seat for each of the hosts 1 and 2.
abbrev led_by_two : Booking
led_by_two = record eleven { host_id = 2 }

abbrev crossed_seats : List Seat
crossed_seats = seat_of 10 1 ∷ seat_of 10 2 ∷ seat_of 11 1 ∷ seat_of 11 2 ∷ []

reschedules-cross_example :
    ((rest : List ℕ) × (reschedule_locks postgres sums [] nine crossed_seats
        ≡ host_lock_key sums 1 ∷ rest)
      × (contains_id rest (host_lock_key sums 2) ≡ true))
    × ((rest : List ℕ) × (reschedule_locks postgres sums [] led_by_two crossed_seats
          ≡ host_lock_key sums 2 ∷ rest)
        × (contains_id rest (host_lock_key sums 1) ≡ true))
unfolding attends
reschedules-cross_example =
    reschedules-cross sums nine led_by_two crossed_seats (λ e. cc) (λ e. cc) refl refl

free_at_one : host_busy two 1 (at 13) (at 14) 0 ≡ false
unfolding reschedule reassign_host find_booking seat_holders check_free_except clashes
    update_bookings host_busy shares_calendar meets before rfc3339_nano text_lt text_tail
    fraction_digits
free_at_one = refl

attending : attends two.seats 11 1 ≡ true
unfolding attends
attending = refl

-- A token of the booking 10, in place of one that was sent before.
abbrev old_token : TokenRow
old_token = record { token_hash = 70; booking_id = 10; expires_at = at 100 }

abbrev with_token : TokenRow → Store
with_token t = record one { tokens = t ∷ [] }

abbrev new_token : TokenRow
new_token = record { token_hash = 71; booking_id = 10; expires_at = manage_token_ttl }

abbrev last_two : ℕ → ℕ
last_two raw = raw % 100

rotated_run :
    rotate_manage_token last_two 71 10 0 (with_token old_token) ≡ ok (with_token new_token)
unfolding rotate_manage_token insert_token token_row sql_time
rotated_run = refl

nine_found : find_booking 10 one.bookings ≡ some nine
unfolding find_booking
nine_found = refl

in_time : sql_time 5 < sql_time (0 + manage_token_ttl)
unfolding sql_time
in_time = omega arith

fresh_token_opens_example : validate_manage_token last_two 71 5 (with_token new_token) ≡ ok nine
fresh_token_opens_example =
    fresh_token_opens last_two 71 10 0 5 (with_token old_token) (with_token new_token) nine
      (inl rotated_run) nine_found in_time

new_token_opens : validate_manage_token last_two 171 5 (with_token new_token) ≡ ok nine
unfolding validate_manage_token find_token find_booking sql_time before rfc3339_nano text_lt
    text_tail fraction_digits
new_token_opens = refl

rotated_tokens_dead_example : last_two 171 ≡ last_two 71
rotated_tokens_dead_example =
    rotated_tokens_dead last_two 71 10 0 171 5 (with_token old_token) (with_token new_token) nine
      rotated_run new_token_opens refl

-- What ends from ten o'clock on, of everybody.
abbrev coming : ListFilter
coming = record {
  viewer_id = 0;
  event_type_id = 0;
  host_id = 0;
  team_id = 0;
  status = unset;
  from = 0;
  to = 0;
  when = upcoming;
  now = at 11;
  descending = false;
  limit = 0;
  offset = 0;
}

counts_match_list_example :
    (upcoming ≡ upcoming → length (list [] two coming) ≡ (counts [] two coming 0).upcoming)
    × (upcoming ≡ past → length (list [] two coming) ≡ (counts [] two coming 0).past)
counts_match_list_example = counts_match_list [] two coming 0 refl (λ e. cc)
