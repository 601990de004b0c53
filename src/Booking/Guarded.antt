-- ===== src/Booking/Guarded.antt =====
-- The invariant of the tables of internal/booking: no user attends two active bookings that meet.
use district_scheduler.Common.{
  ℕ, ◌≡◌, ◌≢◌, inl, inr, Bool, true, false, List, [], ◌∷◌, arith, ◌==◌, ==_iff, Bool-cases, any,
  all, In,
}
use district_scheduler.Booking.Store.{Booking, Seat, Store, is_cancelled}
use district_scheduler.Booking.Conflict.{attends, meets}

abbrev pub has_booking : List Booking → ℕ → Bool
has_booking bookings id = any (λ b. b.id == id) bookings

pub record Guarded (store : Store) : Type 0 where
  -- Every seat is a seat at a booking of the table.
  pub seated : all (λ s. has_booking store.bookings s.booking_id) store.seats ≡ true
  -- No booking has the empty text for its id.
  pub named : (b : Booking) → In b store.bookings → b.id ≢ 0
  -- The id is the primary key.
  pub unique : (b c : Booking) → In b store.bookings → In c store.bookings → b.id ≡ c.id → b ≡ c
  -- Two active bookings that one user attends do not meet in time.
  pub apart :
      (b c : Booking) (user : ℕ)
      → In b store.bookings
      → In c store.bookings
      → is_cancelled b.status ≡ false
      → is_cancelled c.status ≡ false
      → b.id ≢ c.id
      → attends store.seats b.id user ≡ true
      → attends store.seats c.id user ≡ true
      → meets b c.start_at c.end_at ≡ false

-- Meeting is symmetric.
pub meets_comm : (b c : Booking) → meets b c.start_at c.end_at ≡ meets c b.start_at b.end_at
unfolding meets
meets_comm b c = ground arith

-- Whoever has a seat at a booking, has it at one of the table.
pub has_booking_of_attends :
    (bookings : List Booking) (seats : List Seat) (id user : ℕ)
    → all (λ s. has_booking bookings s.booking_id) seats ≡ true
    → attends seats id user ≡ true
    → has_booking bookings id ≡ true
unfolding attends
has_booking_of_attends bookings [] id user a h = absurd (cc)
has_booking_of_attends bookings (s ∷ ss) id user a h = elim (Bool-cases (s.booking_id == id)) [
  | inl e ↦
      let same : s.booking_id ≡ id = (==_iff s.booking_id id).0 e in rw (← same) (ground arith)
  | inr e ↦ has_booking_of_attends bookings ss id user (ground arith) (ground arith)
]
