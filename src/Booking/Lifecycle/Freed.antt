-- ===== src/Booking/Lifecycle/Freed.antt =====
-- What `Cancel` of internal/booking/service.go leaves behind: the row of the booking, and its hosts' time.
use district_scheduler.Booking.Stamp.{before}
use district_scheduler.Common.{
  ℕ, ◌≡◌, ◌≢◌, refl, sym, ap, ◌∙◌, inl, inr, Bool, true, false, not, ◌&&◌, ◌||◌, some, List, [],
  ◌∷◌, arith, ◌==◌, ==_iff, Bool-cases, any, In, In-of_any, any_of_In,
}
use district_scheduler.Booking.Lifecycle.Cancelled.{cancel_outcomes, cancel_twice}
use district_scheduler.Common.Fallible.{ok, err}
use district_scheduler.Booking.Store.{
  Booking, Seat, Store, is_cancelled, cancelled, not_found, already_cancelled, find_booking,
  update_bookings,
}
use district_scheduler.Booking.Conflict.{host_busy, meets, shares_calendar}
use district_scheduler.Booking.Guarded.{Guarded}
use district_scheduler.Booking.Lifecycle.{clear_needs_sync, cancel_row, cancel_where, cancel}
use district_scheduler.Booking.Lifecycle.Kept.{cancel_where-writes}

any-clear_needs_sync :
    (counts : ℕ → ℕ → Bool) (id : ℕ) (seats : List Seat)
    → any (λ s. counts s.booking_id s.user_id) (clear_needs_sync id seats)
      ≡ any (λ s. counts s.booking_id s.user_id) seats
unfolding clear_needs_sync
any-clear_needs_sync counts id [] = refl
any-clear_needs_sync counts id (s ∷ ss) = ground (arith, any-clear_needs_sync counts id ss)

-- The rows that an update cancels, all those of an id, no longer count, and the others do as they did.
any-cancelled :
    (p : Booking → Bool) (during : ℕ → ℕ → Bool) (sits sits' : ℕ → Bool) (id reason now : ℕ)
    (bs : List Booking)
    → ((b : Booking) → In b bs → b.id ≢ 0)
    → ((b : Booking) → In b bs → p b ≡ (b.id == id))
    → ((i : ℕ) → sits' i ≡ sits i)
    → any
        (λ b.
          (not (is_cancelled b.status) && (not (b.id == 0) && during b.start_at b.end_at))
          && sits' b.id)
        (update_bookings p (cancel_row reason now) bs)
      ≡ any
          (λ b.
            (not (is_cancelled b.status) && (not (b.id == id) && during b.start_at b.end_at))
            && sits b.id)
          bs
unfolding update_bookings
any-cancelled p during sits sits' id reason now [] n k q = refl
any-cancelled p during sits sits' id reason now (b ∷ bs) n k q = ground (
  arith,
  n b (inl refl),
  k b (inl refl),
  q b.id,
  any-cancelled p during sits sits' id reason now bs (λ c i. n c (inr i)) (λ c i. k c (inr i)) q,
)

In-tail :
    (id : ℕ) (b c : Booking) (cs : List Booking)
    → In b (c ∷ cs)
    → b.id ≡ id
    → (c.id == id) ≡ false
    → In b cs
In-tail id b c cs (inl h) e other = absurd (ground arith)
In-tail id b c cs (inr h) e other = h

find_booking-cancelled :
    (p : Booking → Bool) (id : ℕ) (f : Booking → Booking) (b : Booking) (bs : List Booking)
    → ((c : Booking) → (f c).id ≡ c.id)
    → ((c : Booking) → In c bs → c.id ≡ id → c ≡ b)
    → ((c : Booking) → In c bs → p c ≡ (c.id == id))
    → In b bs
    → b.id ≡ id
    → find_booking id (update_bookings p f bs) ≡ some (f b)
unfolding find_booking update_bookings
find_booking-cancelled p id f b [] s u k i e = elim i [ ]
find_booking-cancelled p id f b (c ∷ cs) s u k i e = elim (Bool-cases (c.id == id)) [
  | inl same ↦
      let is : c ≡ b = u c (inl refl) ((==_iff c.id id).0 same) in
      let found = ap f is in let hit = k c (inl refl) ∙ same in rw hit (ground (arith, s c, found))
  | inr other ↦
      let miss = k c (inl refl) ∙ other in
      let there = In-tail id b c cs i e other in
      let rest =
        find_booking-cancelled p id f b cs s (λ d h. u d (inr h)) (λ d h. k d (inr h)) there e in
      rw miss (ground (arith, rest))
]

abbrev owned : ℕ → ℕ → Booking → Bool
owned host_id id b = b.id == id && b.host_id == host_id

cancel-active :
    (host_id id reason now : ℕ) (store store' : Store)
    → cancel host_id id reason now store ≡ ok store'
    → (any (λ b. owned host_id id b && not (is_cancelled b.status)) store.bookings ≡ true)
      × (store'.calendars ≡ store.calendars)
unfolding cancel cancel_where
cancel-active host_id id reason now store store' e =
    elim (Bool-cases
      (any (λ b. owned host_id id b && not (is_cancelled b.status)) store.bookings)) [
        | inl there ↦ (there, ground arith)
        | inr missing ↦ elim (Bool-cases (any (owned host_id id) store.bookings)) [
          | inl a ↦ absurd (ground arith)
          | inr a ↦ absurd (ground arith)
        ]
      ]

-- In a table with one row of the id, the update is of that row.
hits :
    (host_id id : ℕ) (b c : Booking)
    → owned host_id id b && not (is_cancelled b.status) ≡ true
    → (c.id ≡ id → c ≡ b)
    → (owned host_id id c && not (is_cancelled c.status)) ≡ (c.id == id)
hits host_id id b c hit u = elim (Bool-cases (c.id == id)) [
  | inl same ↦ let is : c ≡ b = u ((==_iff c.id id).0 same) in rw is (ground arith)
  | inr other ↦ ground arith
]

host_busy-cancelled :
    (p : Booking → Bool) (id reason now : ℕ) (store store' : Store) (host start end : ℕ)
    → ((b : Booking) → In b store.bookings → b.id ≢ 0)
    → ((b : Booking) → In b store.bookings → p b ≡ (b.id == id))
    → store'.bookings ≡ update_bookings p (cancel_row reason now) store.bookings
    → store'.seats ≡ clear_needs_sync id store.seats
    → store'.calendars ≡ store.calendars
    → host_busy store' host start end 0 ≡ host_busy store host start end id
unfolding host_busy meets
host_busy-cancelled p id reason now store store' host start end n k w s c =
    let holds : ℕ → ℕ → ℕ → Bool =
      λ i j u. j == i && (u == host || shares_calendar store.calendars host u) in
    rw (w, s, c)
      (any-cancelled p (λ from to. before from end && before start to)
        (λ i. any (λ s. holds i s.booking_id s.user_id) store.seats)
        (λ i. any (λ s. holds i s.booking_id s.user_id) (clear_needs_sync id store.seats)) id reason
        now store.bookings n k (λ i. any-clear_needs_sync (holds i) id store.seats))

-- What a cancelled booking leaves behind.
cancelled-frees :
    (host_id id reason now : ℕ) (store store' : Store)
    → Guarded store
    → cancel host_id id reason now store ≡ ok store'
    → (b : Booking) × In b store.bookings
      × (b.id ≡ id)
      × (b.host_id ≡ host_id)
      × (is_cancelled b.status ≡ false)
      × (find_booking id store'.bookings
          ≡ some (record b { status = cancelled; cancellation_reason = reason; updated_at = now }))
      × ((host start end : ℕ)
          → host_busy store' host start end 0 ≡ host_busy store host start end id)
unfolding cancel
cancelled-frees host_id id reason now store store' g e =
    let p : Booking → Bool = λ b. owned host_id id b && not (is_cancelled b.status) in
    let (active, calendars) = cancel-active host_id id reason now store store' e in
    let (b, i, hit) = In-of_any p store.bookings active in
    let named : b.id ≡ id = ground arith in
    let only =
      λ (c : Booking) (h : In c store.bookings) (q : c.id ≡ id). g.unique c b h i (q ∙ sym named) in
    let all_of_id = λ (c : Booking) (h : In c store.bookings). hits host_id id b c hit (only c h) in
    let (written, seats) = cancel_where-writes (owned host_id id) id reason now store store' e in
    (
      b,
      i,
      named,
      ground arith,
      ground arith,
      rw written (
          find_booking-cancelled p id (cancel_row reason now) b store.bookings (λ c. refl) only
            all_of_id i named),
      λ host start end.
          host_busy-cancelled p id reason now store store' host start end g.named all_of_id written
            seats calendars,
    )

cancel_ok :
    (host_id id reason now : ℕ) (store : Store)
    → any (λ b. owned host_id id b && not (is_cancelled b.status)) store.bookings ≡ true
    → (store' : Store) × (cancel host_id id reason now store ≡ ok store')
unfolding cancel cancel_where
cancel_ok host_id id reason now store h = (
  record store {
    bookings =
        update_bookings (λ b. owned host_id id b && not (is_cancelled b.status))
          (cancel_row reason now) store.bookings;
    seats = clear_needs_sync id store.seats;
  },
  ground arith,
)

not_owned :
    (other id : ℕ) (store : Store) (b : Booking)
    → Guarded store
    → In b store.bookings
    → b.id ≡ id
    → b.host_id ≢ other
    → any (owned other id) store.bookings ≡ false
not_owned other id store b g i e n = elim (Bool-cases (any (owned other id) store.bookings)) [
  | inl h ↦
      let (c, j, k) = In-of_any (owned other id) store.bookings h in
      let same : c ≡ b = g.unique c b j i (ground arith) in absurd (n (ground arith))
  | inr h ↦ h
]

-- In guarded tables, `Cancel` of an active booking by its host succeeds; the row of the id is then that booking,
-- cancelled with the reason and the time that were given, and the overlap check of every host and time finds
-- what it found before with this booking left out: its time is free again for whoever attends it, and no
-- other booking's time is. A second `Cancel` is refused as already cancelled, and a `Cancel` by another host
-- in the first place as not found.
pub cancel-frees :
    (other reason now later : ℕ) (store : Store) (b : Booking)
    → Guarded store
    → In b store.bookings
    → is_cancelled b.status ≡ false
    → b.host_id ≢ other
    → (store' : Store) × (cancel b.host_id b.id reason now store ≡ ok store')
      × (find_booking b.id store'.bookings
          ≡ some (record b { status = cancelled; cancellation_reason = reason; updated_at = now }))
      × ((host start end : ℕ)
          → host_busy store' host start end 0 ≡ host_busy store host start end b.id)
      × (cancel b.host_id b.id reason later store' ≡ err already_cancelled)
      × (cancel other b.id reason now store ≡ err not_found)
cancel-frees other reason now later store b g i active n =
    let p : Booking → Bool = λ c. owned b.host_id b.id c && not (is_cancelled c.status) in
    let (store', e) =
      cancel_ok b.host_id b.id reason now store (any_of_In p b store.bookings i (ground arith)) in
    let (c, j, same, mine, live, found, free) =
      cancelled-frees b.host_id b.id reason now store store' g e in
    let is : c ≡ b = g.unique c b j i same in
    (
      store',
      e,
      found ∙ ap (λ d. some (cancel_row reason now d)) is,
      free,
      cancel_twice b.host_id b.id reason now later store store' e,
      (cancel_outcomes other b.id reason now store).0.1 (not_owned other b.id store b g i refl n),
    )
