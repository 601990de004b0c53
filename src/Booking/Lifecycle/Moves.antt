-- ===== src/Booking/Lifecycle/Moves.antt =====
-- `Reschedule` of internal/booking/service.go, and the invariant of the tables.
use district_scheduler.Common.{
  ℕ, ◌≡◌, refl, ◌∙◌, ◌≢◌, inl, inr, Bool, true, false, some, List, [], ◌∷◌, arith, ◌==◌,
  if◌then◌else◌, Bool-cases, Option-cases, In,
}
use district_scheduler.Common.Fallible.{ok, Result-cases}
use district_scheduler.Booking.Store.{
  Booking, Seat, Store, is_cancelled, find_booking, update_bookings, In-update_bookings,
}
use district_scheduler.Booking.Conflict.{host_busy, attends, meets, host_busy_excludes}
use district_scheduler.Booking.Guarded.{Guarded, meets_comm}
use district_scheduler.Booking.Create.{contains_id}
use district_scheduler.Booking.Lifecycle.{
  seat_holders, holders_or, check_free_except, clashes, move_row, reschedule,
}
use district_scheduler.Booking.Lifecycle.Kept.{
  update_bookings_unique, has_booking-update, seated_kept,
}

pub seat_holders_lem :
    (id u : ℕ) (seats : List Seat) → contains_id (seat_holders id seats) u ≡ attends seats id u
unfolding seat_holders attends
seat_holders_lem id u [] = refl
seat_holders_lem id u (s ∷ ss) = ground (arith, seat_holders_lem id u ss)

pub holders_or_lem :
    (host u : ℕ) (hs : List ℕ) → contains_id hs u ≡ true → contains_id (holders_or host hs) u ≡ true
holders_or_lem host u [] h = absurd (cc)
holders_or_lem host u (x ∷ xs) h = h

check_free_except_lem :
    (store : Store) (start end id : ℕ) (hosts : List ℕ) (h : ℕ)
    → check_free_except store start end id hosts ≡ ok tt
    → contains_id hosts h ≡ true
    → host_busy store h start end id ≡ false
unfolding check_free_except
check_free_except_lem store start end id [] h e m = absurd (cc)
check_free_except_lem store start end id (x ∷ xs) h e m =
    elim (Bool-cases (host_busy store x start end id)) [
      | inl busy ↦ absurd (ground arith)
      | inr free ↦ elim (Bool-cases (x == h)) [
        | inl same ↦ ground arith
        | inr other ↦ check_free_except_lem store start end id xs h (ground arith) (ground arith)
      ]
    ]

-- What a reschedule that succeeds has checked and written.
record Moved (id start end now : ℕ) (store : Store) (store' : Store) (out : Booking) : Type 0 where
  old : Booking
  found : find_booking id store.bookings ≡ some old
  active : is_cancelled old.status ≡ false
  free :
      check_free_except store start end id (holders_or old.host_id (seat_holders id store.seats))
      ≡ ok tt
  bookings :
      store'.bookings ≡ update_bookings (λ c. c.id == id) (move_row start end now) store.bookings
  seats : store'.seats ≡ store.seats
  result : out ≡ move_row start end now old

reschedule-Moved :
    (id start end now : ℕ) (store store' : Store) (out : Booking)
    → reschedule id start end now store ≡ ok (store', out)
    → Moved id start end now store store' out
unfolding reschedule
reschedule-Moved id start end now store store' out e =
    elim (Option-cases (find_booking id store.bookings)) [
      | inl missing ↦ absurd (ground arith)
      | inr (b, f) ↦ elim (Bool-cases (is_cancelled b.status)) [
        | inl dead ↦ absurd (ground arith)
        | inr live ↦
            elim (Result-cases (
              check_free_except store start end id
                (holders_or b.host_id (seat_holders id store.seats)))) [
                  | inr (x, c) ↦ absurd (ground arith)
                  | inl (u, c) ↦ elim (Bool-cases (clashes store.bookings id b.host_id start)) [
                    | inl clash ↦ absurd (ground arith)
                    | inr apart ↦ record {
                      old = b;
                      found = f;
                      active = live;
                      free = c;
                      bookings = ground arith;
                      seats = ground arith;
                      result = ground arith;
                    }
                  ]
                ]
      ]
    ]

-- Rescheduling keeps the tables guarded: no seat holder is left in two active bookings that meet.
pub reschedule-Guarded :
    (id start end now : ℕ) (store store' : Store) (out : Booking)
    → Guarded store
    → reschedule id start end now store ≡ ok (store', out)
    → Guarded store'
reschedule-Guarded id start end now store store' out g e = record {
  seated =
      rw (r.bookings, r.seats)
        (seated_kept store.bookings (update_bookings q f store.bookings) store.seats
          (λ i. has_booking-update q f store.bookings i (λ b. refl)) g.seated);
  named = λ b m z. let (c, k, x) = source b m in g.named c k (ground arith);
  unique = λ b c m n.
      update_bookings_unique q f store.bookings (λ b. refl) g.unique b c (rw r.bookings at m)
        (rw r.bookings at n);
  apart = λ b c user m n x y ne s t.
      let (b₀, k, i) = source b m in
      let (c₀, l, j) = source c n in
      apart_from b c user b₀ c₀ k l i j x y ne (rw r.seats at s) (rw r.seats at t);
}
  where
    r : Moved id start end now store store' out
    r = reschedule-Moved id start end now store store' out e

    q : Booking → Bool
    q = λ c. c.id == id

    f : Booking → Booking
    f = move_row start end now

    source :
        (b : Booking)
        → In b store'.bookings
        → (c : Booking) × In c store.bookings
          × (b ≡ (if c.id == id then move_row start end now c else c))
    source b m = In-update_bookings q f store.bookings b (rw r.bookings at m)

    -- A seat holder of the booking is free of every other booking at the new time.
    clear :
        (d : Booking) (user : ℕ)
        → In d store.bookings
        → is_cancelled d.status ≡ false
        → d.id ≢ id
        → attends store.seats d.id user ≡ true
        → attends store.seats id user ≡ true
        → meets d start end ≡ false
    clear d user m a ne s t =
        host_busy_excludes store user start end id d
          (check_free_except_lem store start end id
            (holders_or r.old.host_id (seat_holders id store.seats)) user r.free
            (holders_or_lem r.old.host_id user (seat_holders id store.seats)
              (seat_holders_lem id user store.seats ∙ t)))
          m a ne s

    apart_from :
        (b c : Booking) (user : ℕ) (b₀ c₀ : Booking)
        → In b₀ store.bookings
        → In c₀ store.bookings
        → b ≡ (if b₀.id == id then move_row start end now b₀ else b₀)
        → c ≡ (if c₀.id == id then move_row start end now c₀ else c₀)
        → is_cancelled b.status ≡ false
        → is_cancelled c.status ≡ false
        → b.id ≢ c.id
        → attends store.seats b.id user ≡ true
        → attends store.seats c.id user ≡ true
        → meets b c.start_at c.end_at ≡ false
    apart_from b c user b₀ c₀ k l i j x y ne s t = elim (Bool-cases (b₀.id == id)) [
      | inl hit ↦ elim (Bool-cases (c₀.id == id)) [
        | inl twice ↦ absurd (ground arith)
        | inr miss ↦
            let same : c ≡ c₀ = ground arith in
            ground
              (arith, meets_comm b c, clear c user (rw same l) y (ground arith) t (ground arith))
      ]
      | inr miss ↦
          let same : b ≡ b₀ = ground arith in
          elim (Bool-cases (c₀.id == id)) [
            | inl hit ↦ ground (arith, clear b user (rw same k) x (ground arith) s (ground arith))
            | inr neither ↦
                let alike : c ≡ c₀ = ground arith in
                g.apart b c user (rw same k) (rw alike l) x y ne s t
          ]
    ]
