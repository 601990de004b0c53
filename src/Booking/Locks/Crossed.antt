-- ===== src/Booking/Locks/Crossed.antt =====
-- Two reschedules that take their locks in opposite orders: `Reschedule` of internal/booking/service.go and
-- `lockHosts` of internal/booking/hostlock.go.
use district_scheduler.Booking.Conflict.{attends}
use district_scheduler.Booking.Locks.Shared.{lock_hosts-host}
use district_scheduler.Common.{refl, ◌∙◌, ℕ, ◌≡◌, ◌≢◌, true, List, [], ◌∷◌, arith}
use district_scheduler.Booking.Store.{Booking, Seat}
use district_scheduler.Booking.Create.{contains_id}
use district_scheduler.Booking.Lifecycle.Moves.{seat_holders_lem, holders_or_lem}
use district_scheduler.Booking.Lifecycle.{seat_holders, holders_or}
use district_scheduler.Booking.Locks.{
  postgres, Digests, host_lock_key, calendar_lock_keys, sort_keys, compact, lock_hosts,
  reschedule_locks,
}

lock_hosts-one :
    (d : Digests) (x : ℕ) → x ≢ 0 → lock_hosts postgres d [] (x ∷ []) ≡ host_lock_key d x ∷ []
unfolding lock_hosts calendar_lock_keys sort_keys compact
lock_hosts-one d x n = ground arith

-- Where no calendar is connected, the transaction takes the key of the primary host first, whatever its place
-- in the order of the keys, and that of another host with a seat only after it.
reschedule_locks-primary_first :
    (d : Digests) (b : Booking) (seats : List Seat) (host : ℕ)
    → b.host_id ≢ 0
    → host ≢ 0
    → attends seats b.id host ≡ true
    → (rest : List ℕ) × (reschedule_locks postgres d [] b seats ≡ host_lock_key d b.host_id ∷ rest)
      × (contains_id rest (host_lock_key d host) ≡ true)
unfolding reschedule_locks
reschedule_locks-primary_first d b seats host n m a =
    let holders = holders_or b.host_id (seat_holders b.id seats) in
    (
      lock_hosts postgres d [] holders,
      rw (lock_hosts-one d b.host_id n) refl,
      lock_hosts-host d [] holders host m (
          holders_or_lem b.host_id host (seat_holders b.id seats)
            (seat_holders_lem b.id host seats ∙ a)),
    )

-- Two bookings of which each has its own primary host and a seat of the other's: on Postgres, where no calendar
-- is connected, the transaction that reschedules the one takes the key of its primary host first and the other's
-- after it, and the transaction that reschedules the other takes the other's key first and the one's after it:
-- where the keys differ, that is the opposite order, though every call of `lockHosts` takes its keys in theirs.
pub reschedules-cross :
    (d : Digests) (b c : Booking) (seats : List Seat)
    → b.host_id ≢ 0
    → c.host_id ≢ 0
    → attends seats b.id c.host_id ≡ true
    → attends seats c.id b.host_id ≡ true
    → ((rest : List ℕ) × (reschedule_locks postgres d [] b seats ≡ host_lock_key d b.host_id ∷ rest)
        × (contains_id rest (host_lock_key d c.host_id) ≡ true))
      × ((rest : List ℕ) × (reschedule_locks postgres d [] c seats
            ≡ host_lock_key d c.host_id ∷ rest)
          × (contains_id rest (host_lock_key d b.host_id) ≡ true))
reschedules-cross d b c seats n m x y = (
  reschedule_locks-primary_first d b seats c.host_id n m x,
  reschedule_locks-primary_first d c seats b.host_id m n y,
)
