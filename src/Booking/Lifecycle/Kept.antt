-- ===== src/Booking/Lifecycle/Kept.antt =====
-- `Cancel` and `CancelByID` of internal/booking/service.go, and the invariant of the tables.
use district_scheduler.Common.{
  ℕ, ◌≡◌, refl, sym, ap, ◌∙◌, ◌≢◌, ◌⊎◌, inl, inr, Bool, true, false, not, ◌&&◌, List, [], ◌∷◌,
  arith, ◌==◌, if◌then◌else◌, Bool-cases, any, all, In,
}
use district_scheduler.Common.Fallible.{ok}
use district_scheduler.Booking.Store.{
  Booking, Seat, Store, is_cancelled, update_bookings, In-update_bookings,
}
use district_scheduler.Booking.Conflict.{attends}
use district_scheduler.Booking.Guarded.{Guarded, has_booking}
use district_scheduler.Booking.Lifecycle.{
  clear_needs_sync, cancel_row, cancel_where, cancel, cancel_by_id,
}

pub has_booking-update :
    (p : Booking → Bool) (f : Booking → Booking) (bs : List Booking) (id : ℕ)
    → ((b : Booking) → (f b).id ≡ b.id)
    → has_booking (update_bookings p f bs) id ≡ has_booking bs id
unfolding update_bookings
has_booking-update p f [] id k = refl
has_booking-update p f (b ∷ bs) id k = ground (arith, k b, has_booking-update p f bs id k)

-- An update that leaves the ids alone keeps them unique.
pub update_bookings_unique :
    (p : Booking → Bool) (f : Booking → Booking) (bs : List Booking)
    → ((b : Booking) → (f b).id ≡ b.id)
    → ((b c : Booking) → In b bs → In c bs → b.id ≡ c.id → b ≡ c)
    → (b c : Booking) → In b (update_bookings p f bs)
    → In c (update_bookings p f bs)
    → b.id ≡ c.id
    → b ≡ c
update_bookings_unique p f bs k u b c m n e =
    let (b₀, i, x) = In-update_bookings p f bs b m in
    let (c₀, j, y) = In-update_bookings p f bs c n in
    let same : b₀ ≡ c₀ = u b₀ c₀ i j (ground (arith, k b₀, k c₀)) in
    x ∙ ap (λ d. if p d then f d else d) same ∙ sym y

-- What a change of the seats must leave alone: who sits where.
pub seated_kept :
    (bookings after : List Booking) (seats : List Seat)
    → ((id : ℕ) → has_booking after id ≡ has_booking bookings id)
    → all (λ s. has_booking bookings s.booking_id) seats ≡ true
    → all (λ s. has_booking after s.booking_id) seats ≡ true
seated_kept bookings after [] k a = refl
seated_kept bookings after (s ∷ ss) k a =
    ground (arith, k s.booking_id, seated_kept bookings after ss k)

attends-clear_needs_sync :
    (id : ℕ) (seats : List Seat) (b u : ℕ)
    → attends (clear_needs_sync id seats) b u ≡ attends seats b u
unfolding attends clear_needs_sync
attends-clear_needs_sync id [] b u = refl
attends-clear_needs_sync id (s ∷ ss) b u = ground (arith, attends-clear_needs_sync id ss b u)

seated-clear_needs_sync :
    (id : ℕ) (bookings : List Booking) (seats : List Seat)
    → all (λ s. has_booking bookings s.booking_id) (clear_needs_sync id seats)
      ≡ all (λ s. has_booking bookings s.booking_id) seats
unfolding clear_needs_sync
seated-clear_needs_sync id bookings [] = refl
seated-clear_needs_sync id bookings (s ∷ ss) =
    ground (arith, seated-clear_needs_sync id bookings ss)

-- An active row after a cancelling update is a row from before it, unchanged.
In-cancelled :
    (p : Booking → Bool) (reason now : ℕ) (bs : List Booking) (b : Booking)
    → In b (update_bookings p (cancel_row reason now) bs)
    → is_cancelled b.status ≡ false
    → In b bs
In-cancelled p reason now bs b m active =
    let (c, k, e) = In-update_bookings p (cancel_row reason now) bs b m in
    elim (Bool-cases (p c)) [
      | inl hit ↦ absurd (ground arith)
      | inr miss ↦ let same : b ≡ c = ground arith in rw same k
    ]

updated_named :
    (p : Booking → Bool) (reason now : ℕ) (bs : List Booking)
    → ((b : Booking) → In b bs → b.id ≢ 0)
    → (b : Booking) → In b (update_bookings p (cancel_row reason now) bs)
    → b.id ≢ 0
updated_named p reason now bs h b m z =
    let (c, k, e) = In-update_bookings p (cancel_row reason now) bs b m in h c k (ground arith)

pub cancel_where-writes :
    (owns : Booking → Bool) (id reason now : ℕ) (store store' : Store)
    → cancel_where owns id reason now store ≡ ok store'
    → (store'.bookings
        ≡ update_bookings
            (λ b. owns b && not (is_cancelled b.status))
            (cancel_row reason now)
            store.bookings)
      × (store'.seats ≡ clear_needs_sync id store.seats)
unfolding cancel_where
cancel_where-writes owns id reason now store store' e =
    elim (Bool-cases (any (λ b. owns b && not (is_cancelled b.status)) store.bookings)) [
      | inl some_row ↦ (ground arith, ground arith)
      | inr no_row ↦ elim (Bool-cases (any owns store.bookings)) [
        | inl there ↦ absurd (ground arith)
        | inr missing ↦ absurd (ground arith)
      ]
    ]

cancel_where-Guarded :
    (owns : Booking → Bool) (id reason now : ℕ) (store store' : Store)
    → Guarded store
    → cancel_where owns id reason now store ≡ ok store'
    → Guarded store'
cancel_where-Guarded owns id reason now store store' g e =
    let p : Booking → Bool = λ b. owns b && not (is_cancelled b.status) in
    let (written, seats) = cancel_where-writes owns id reason now store store' e in
    let seat : (b u : ℕ) → attends store'.seats b u ≡ true → attends store.seats b u ≡ true =
      λ b u h. sym (attends-clear_needs_sync id store.seats b u) ∙ (rw seats at h) in
    let row : (b : Booking)
        → In b store'.bookings
        → is_cancelled b.status ≡ false
        → In b store.bookings =
      λ b m a. In-cancelled p reason now store.bookings b (rw written at m) a in
    record {
      seated =
          rw (seats, written)
            (seated-clear_needs_sync id (update_bookings p (cancel_row reason now) store.bookings)
                store.seats
              ∙ seated_kept store.bookings
                  (update_bookings p (cancel_row reason now) store.bookings) store.seats
                  (λ i. has_booking-update p (cancel_row reason now) store.bookings i (λ b. refl))
                  g.seated);
      named = λ b m. updated_named p reason now store.bookings g.named b (rw written at m);
      unique = λ b c m n.
          update_bookings_unique p (cancel_row reason now) store.bookings (λ b. refl) g.unique b c
            (rw written at m) (rw written at n);
      apart = λ b c user m n x y ne s t.
          g.apart b c user (row b m x) (row c n y) x y ne (seat b.id user s) (seat c.id user t);
    }

-- Cancelling, by the host or by an administrator, keeps the tables guarded.
pub cancel-Guarded :
    (host_id id reason now : ℕ) (store store' : Store)
    → Guarded store
    → (cancel host_id id reason now store ≡ ok store')
      ⊎ (cancel_by_id id reason now store ≡ ok store')
    → Guarded store'
unfolding cancel cancel_by_id
cancel-Guarded host_id id reason now store store' g (inl e) =
    cancel_where-Guarded (λ b. b.id == id && b.host_id == host_id) id reason now store store' g e
cancel-Guarded host_id id reason now store store' g (inr e) =
    cancel_where-Guarded (λ b. b.id == id) id reason now store store' g e
