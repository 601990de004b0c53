-- ===== src/Booking/Create/Guard.antt =====
-- `Service.Create` of internal/booking/service.go, and the invariant of the tables.
use district_scheduler.Common.{
  ℕ, ◌≡◌, refl, sym, ap, subst, ◌∙◌, ◌≢◌, ◌⊎◌, inl, inr, true, false, ◌&&◌, ◌||◌, List, [], ◌∷◌,
  arith, ◌==◌, Bool-cases, all, In, any_of_In,
}
use district_scheduler.Common.Fallible.{ok, Result-cases}
use district_scheduler.Booking.Store.{Booking, Seat, Store, is_cancelled}
use district_scheduler.Booking.Conflict.{host_busy, attends, meets, host_busy_excludes}
use district_scheduler.Booking.Guarded.{Guarded, has_booking, meets_comm, has_booking_of_attends}
use district_scheduler.Booking.Create.{
  CreateParams, Chosen, contains_id, choose_hosts, add_optional, check_limits, violates_unique,
  new_booking, insert_seats, insert_booking, create, is_nil,
}
use district_scheduler.Booking.Create.Choice.{AllFree, choose_hosts_lem, add_optional_lem}

insert_seats_lem :
    (id host : ℕ) (hs : List ℕ) (seats out : List Seat) (b u : ℕ)
    → insert_seats id host hs seats ≡ ok out
    → attends out b u ≡ (attends seats b u || (id == b && contains_id hs u))
unfolding insert_seats attends
insert_seats_lem id host [] seats out b u e = ground arith
insert_seats_lem id host (h ∷ hs) seats out b u e = ground (
  arith,
  insert_seats_lem id host hs
      (record { booking_id = id; user_id = h; is_primary = h == host; needs_sync = false } ∷ seats)
      out b u,
)

insert_seats-seated :
    (bookings : List Booking) (id host : ℕ) (hs : List ℕ) (seats out : List Seat)
    → has_booking bookings id ≡ true
    → all (λ s. has_booking bookings s.booking_id) seats ≡ true
    → insert_seats id host hs seats ≡ ok out
    → all (λ s. has_booking bookings s.booking_id) out ≡ true
unfolding insert_seats
insert_seats-seated bookings id host [] seats out k a e = ground arith
insert_seats-seated bookings id host (h ∷ hs) seats out k a e = ground (
  arith,
  insert_seats-seated bookings id host hs
      (record { booking_id = id; user_id = h; is_primary = h == host; needs_sync = false } ∷ seats)
      out,
)

-- What a `Create` that succeeds has written.
record Inserted (store : Store) (p : CreateParams) (id now : ℕ) (store' : Store) (b : Booking)
    : Type 0 where
  chosen : Chosen
  free : AllFree store p.start_at p.end_at chosen.assigned
  fresh : has_booking store.bookings id ≡ false
  made : b ≡ new_booking p id chosen.host now
  bookings : store'.bookings ≡ b ∷ store.bookings
  seats : insert_seats id chosen.host chosen.assigned store.seats ≡ ok store'.seats

fresh_of_unique :
    (bs : List Booking) (id host start : ℕ)
    → violates_unique bs id host start ≡ false
    → has_booking bs id ≡ false
unfolding violates_unique
fresh_of_unique [] id host start h = refl
fresh_of_unique (b ∷ bs) id host start h = ground (arith, fresh_of_unique bs id host start)

insert_booking-Inserted :
    (store : Store) (p : CreateParams) (id now : ℕ) (chosen : Chosen) (store' : Store) (b : Booking)
    → AllFree store p.start_at p.end_at chosen.assigned
    → insert_booking store p id now chosen ≡ ok (store', b)
    → Inserted store p id now store' b
unfolding insert_booking
insert_booking-Inserted store p id now chosen store' b f e =
    elim (Bool-cases (violates_unique store.bookings id chosen.host p.start_at)) [
      | inl dup ↦ absurd (ground arith)
      | inr unique ↦ elim (Result-cases (insert_seats id chosen.host chosen.assigned store.seats)) [
        | inr (x, s) ↦ absurd (ground arith)
        | inl (out, s) ↦ record {
          chosen = chosen;
          free = f;
          fresh = fresh_of_unique store.bookings id chosen.host p.start_at unique;
          made = ground arith;
          bookings = ground arith;
          seats = ground arith;
        }
      ]
    ]

create-Inserted :
    (lower : ℕ → ℕ) (store : Store) (p : CreateParams) (id now clock : ℕ) (store' : Store)
    (b : Booking)
    → create lower store p id now clock ≡ ok (store', b)
    → Inserted store p id now store' b
unfolding create
create-Inserted lower store p id now clock store' b e = elim (Bool-cases (is_nil p.host_ids)) [
  | inl empty ↦ absurd (ground arith)
  | inr some_host ↦ elim (Result-cases (choose_hosts store p now)) [
    | inr (x, c) ↦ absurd (ground arith)
    | inl (chosen, c) ↦ elim (Result-cases (check_limits lower store p now clock)) [
      | inr (x, l) ↦ absurd (ground arith)
      | inl (u, l) ↦
          let assigned = add_optional store p.start_at p.end_at chosen.assigned p.optional_hosts in
          insert_booking-Inserted store p id now (record chosen { assigned = assigned }) store' b
            (add_optional_lem store p.start_at p.end_at chosen.assigned p.optional_hosts
              (choose_hosts_lem store p now chosen c))
            (ground arith)
    ]
  ]
]

-- A booking that `Create` makes keeps everybody from being booked twice: when the id that is drawn is
-- not the empty text, the tables after the commit are guarded as those before it were.
pub create-Guarded :
    (lower : ℕ → ℕ) (store : Store) (p : CreateParams) (id now clock : ℕ) (store' : Store)
    (b : Booking)
    → id ≢ 0
    → Guarded store
    → create lower store p id now clock ≡ ok (store', b)
    → Guarded store'
create-Guarded lower store p id now clock store' b named g e = record {
  seated = rw r.bookings (
      insert_seats-seated (b ∷ store.bookings) id r.chosen.host r.chosen.assigned store.seats
        store'.seats (ground (arith, own)) (seated_later store.seats g.seated) r.seats);
  named = λ c m. named_after c (rw r.bookings at m);
  unique = λ c d m n. unique_after c d (rw r.bookings at m) (rw r.bookings at n);
  apart = λ c d user m n x y ne s t.
      apart_after c d user (rw r.bookings at m) (rw r.bookings at n) x y ne s t;
}
  where
    r : Inserted store p id now store' b
    r = create-Inserted lower store p id now clock store' b e

    own : b.id ≡ id
    own = ground (arith, r.made)

    seated_later :
        (ss : List Seat)
        → all (λ s. has_booking store.bookings s.booking_id) ss ≡ true
        → all (λ s. has_booking (b ∷ store.bookings) s.booking_id) ss ≡ true
    seated_later [] a = refl
    seated_later (s ∷ ss) a = ground (arith, seated_later ss)

    named_after : (c : Booking) → (c ≡ b) ⊎ In c store.bookings → c.id ≢ 0
    named_after c (inl q) = subst (λ x. x.id ≢ 0) (sym q) (λ z. named (sym own ∙ z))
    named_after c (inr m) = g.named c m

    other_id : (c : Booking) → In c store.bookings → c.id ≢ id
    other_id c m q =
        ground (arith, r.fresh, any_of_In (λ x. x.id == id) c store.bookings m (ground arith))

    unique_after :
        (c d : Booking)
        → (c ≡ b) ⊎ In c store.bookings
        → (d ≡ b) ⊎ In d store.bookings
        → c.id ≡ d.id
        → c ≡ d
    unique_after c d (inl q) (inl k) z = q ∙ sym k
    unique_after c d (inl q) (inr k) z = absurd (other_id d k (sym z ∙ ap (λ x. x.id) q ∙ own))
    unique_after c d (inr m) (inl k) z = absurd (other_id c m (z ∙ ap (λ x. x.id) k ∙ own))
    unique_after c d (inr m) (inr k) z = g.unique c d m k z

    -- Seats at the bookings from before are the seats from before.
    old_seat :
        (c : Booking) (user : ℕ)
        → In c store.bookings
        → attends store'.seats c.id user ≡ true
        → attends store.seats c.id user ≡ true
    old_seat c user m s = ground (
      arith,
      insert_seats_lem id r.chosen.host r.chosen.assigned store.seats store'.seats c.id user
          r.seats,
      other_id c m,
    )

    -- Whoever attends the new booking was free for it.
    new_seat :
        (user : ℕ)
        → attends store'.seats b.id user ≡ true
        → host_busy store user p.start_at p.end_at 0 ≡ false
    new_seat user s = elim (Bool-cases (attends store.seats b.id user)) [
      | inl old ↦ absurd (
          ground (
            arith,
            r.fresh,
            own,
            has_booking_of_attends store.bookings store.seats b.id user g.seated old,
          ))
      | inr none_yet ↦ r.free user (
          ground (
            arith,
            insert_seats_lem id r.chosen.host r.chosen.assigned store.seats store'.seats b.id user
                r.seats,
          ))
    ]

    met :
        (c : Booking) (user : ℕ)
        → In c store.bookings
        → is_cancelled c.status ≡ false
        → attends store'.seats c.id user ≡ true
        → attends store'.seats b.id user ≡ true
        → meets c b.start_at b.end_at ≡ false
    met c user m active s t = ground (
      arith,
      r.made,
      host_busy_excludes store user p.start_at p.end_at 0 c (new_seat user t) m active (g.named c m)
          (old_seat c user m s),
    )

    apart_after :
        (c d : Booking) (user : ℕ)
        → (c ≡ b) ⊎ In c store.bookings
        → (d ≡ b) ⊎ In d store.bookings
        → is_cancelled c.status ≡ false
        → is_cancelled d.status ≡ false
        → c.id ≢ d.id
        → attends store'.seats c.id user ≡ true
        → attends store'.seats d.id user ≡ true
        → meets c d.start_at d.end_at ≡ false
    apart_after c d user (inl q) (inl k) x y ne s t = absurd (ne (ground arith))
    apart_after c d user (inl q) (inr k) x y ne s t =
        rw q (
          meets_comm b d
          ∙ met d user k y t (subst (λ z. attends store'.seats z.id user ≡ true) q s))
    apart_after c d user (inr m) (inl k) x y ne s t =
        rw k (met c user m x s (subst (λ z. attends store'.seats z.id user ≡ true) k t))
    apart_after c d user (inr m) (inr k) x y ne s t =
        g.apart c d user m k x y ne (old_seat c user m s) (old_seat d user k t)
