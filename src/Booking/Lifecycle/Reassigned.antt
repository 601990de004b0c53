-- ===== src/Booking/Lifecycle/Reassigned.antt =====
-- What `ReassignHost` of internal/booking/service.go checks and changes, alone and with the seat that
-- internal/handler/reassign.go moves after it.
use district_scheduler.Common.{
  ℕ, ◌≡◌, refl, sym, ap, subst, ◌∙◌, ◌≢◌, ◌⊎◌, inl, inr, Bool, true, false, not, ◌&&◌, ◌||◌, some,
  List, [], ◌∷◌, arith, ◌==◌, if◌then◌else◌, Bool-cases, Option-cases, any, all, In,
}
use district_scheduler.Common.Fallible.{>>=-eq-ok, ok}
use district_scheduler.Booking.Store.{
  Booking, Seat, Store, is_cancelled, find_booking, find_booking-id, update_bookings,
  In-update_bookings,
}
use district_scheduler.Booking.Conflict.{
  host_busy, attends, meets, host_busy_excludes, shares_calendar,
}
use district_scheduler.Booking.Guarded.{Guarded, has_booking, meets_comm}
use district_scheduler.Booking.Lifecycle.{
  clashes, reassign_row, reassign_host, move_primary, sync_primary, reassign_and_sync, synced,
}
use district_scheduler.Booking.Lifecycle.Kept.{
  update_bookings_unique, has_booking-update, seated_kept,
}

-- A reassignment that succeeds and moves the booking to another host.
pub record Reassigned (id new_host now : ℕ) (store store' : Store) (out : Booking) : Type 0 where
  pub old : Booking
  pub found : find_booking id store.bookings ≡ some old
  pub active : is_cancelled old.status ≡ false
  pub free : host_busy store new_host old.start_at old.end_at id ≡ false
  pub written : store' ≡ record store {
    bookings = update_bookings (λ c. c.id == id) (reassign_row new_host now) store.bookings;
  }
  pub result : out ≡ reassign_row new_host now old

-- Either the host is the current one and nothing changes, or the booking moves.
pub reassign_host-cases :
    (id new_host now : ℕ) (store store' : Store) (out : Booking)
    → reassign_host id new_host now store ≡ ok (store', out)
    → ((find_booking id store.bookings ≡ some out) × (out.host_id ≡ new_host) × (store' ≡ store))
      ⊎ Reassigned id new_host now store store' out
unfolding reassign_host
reassign_host-cases id new_host now store store' out e =
    elim (Option-cases (find_booking id store.bookings)) [
      | inl missing ↦ absurd (ground arith)
      | inr (b, f) ↦ elim (Bool-cases (is_cancelled b.status)) [
        | inl dead ↦ absurd (ground arith)
        | inr live ↦ elim (Bool-cases (b.host_id == new_host)) [
          | inl current ↦ inl (ground arith, ground arith, ground arith)
          | inr other ↦ elim (Bool-cases (host_busy store new_host b.start_at b.end_at id)) [
            | inl busy ↦ absurd (ground arith)
            | inr idle ↦ elim (Bool-cases (clashes store.bookings id new_host b.start_at)) [
              | inl clash ↦ absurd (ground arith)
              | inr apart ↦ inr (record {
                old = b;
                found = f;
                active = live;
                free = idle;
                written = ground arith;
                result = ground arith;
              })
            ]
          ]
        ]
      ]
    ]

any-update_bookings :
    (q p : Booking → Bool) (f : Booking → Booking) (bs : List Booking)
    → ((b : Booking) → q (f b) ≡ q b)
    → any q (update_bookings p f bs) ≡ any q bs
unfolding update_bookings
any-update_bookings q p f [] k = refl
any-update_bookings q p f (b ∷ bs) k = ground (arith, k b, any-update_bookings q p f bs k)

-- `ReassignHost` alone changes nobody's busy times: until the seat is moved, the guard still counts the
-- booking for whoever holds the seat, and not for the host that the booking was moved to.
pub reassign_host-host_busy :
    (id new_host now : ℕ) (store store' : Store) (out : Booking) (host start end exclude : ℕ)
    → reassign_host id new_host now store ≡ ok (store', out)
    → host_busy store' host start end exclude ≡ host_busy store host start end exclude
unfolding host_busy meets
reassign_host-host_busy id new_host now store store' out host start end exclude e =
    elim (reassign_host-cases id new_host now store store' out e) [
      | inl (_, _, same) ↦ rw same
      | inr r ↦ rw r.written (
          any-update_bookings
            (λ b.
              (not (is_cancelled b.status) && (not (b.id == exclude) && meets b start end))
              && any
                  (λ s.
                    s.booking_id == b.id
                    && (s.user_id == host || shares_calendar store.calendars host s.user_id))
                  store.seats)
            (λ c. c.id == id) (reassign_row new_host now) store.bookings (λ b. refl))
    ]

attends-move_primary :
    (id host : ℕ) (seats : List Seat) (b u : ℕ)
    → attends (move_primary id host seats) b u ≡ true
    → (attends seats b u ≡ true) ⊎ ((b ≡ id) × (u ≡ host))
unfolding attends move_primary
attends-move_primary id host [] b u h = absurd (cc)
attends-move_primary id host (s ∷ ss) b u h =
    elim (Bool-cases (attends (move_primary id host ss) b u)) [
      | inl later ↦ ground (arith, attends-move_primary id host ss b u later)
      | inr not_later ↦ ground arith
    ]

attends-sync_primary :
    (id host : ℕ) (seats : List Seat) (b u : ℕ)
    → attends (sync_primary id host seats) b u ≡ true
    → (attends seats b u ≡ true) ⊎ ((b ≡ id) × (u ≡ host))
unfolding sync_primary
attends-sync_primary id host seats b u h =
    elim (Bool-cases
      (any (λ s. s.booking_id == id && (not s.is_primary && s.user_id == host)) seats)) [
        | inl held ↦ inl (ground arith)
        | inr free ↦ attends-move_primary id host seats b u (ground arith)
      ]

seated-move_primary :
    (id host : ℕ) (bookings : List Booking) (seats : List Seat)
    → all (λ s. has_booking bookings s.booking_id) (move_primary id host seats)
      ≡ all (λ s. has_booking bookings s.booking_id) seats
unfolding move_primary
seated-move_primary id host bookings [] = refl
seated-move_primary id host bookings (s ∷ ss) =
    ground (arith, seated-move_primary id host bookings ss)

seated-sync_primary :
    (id host : ℕ) (bookings : List Booking) (seats : List Seat)
    → all (λ s. has_booking bookings s.booking_id) (sync_primary id host seats)
      ≡ all (λ s. has_booking bookings s.booking_id) seats
unfolding sync_primary
seated-sync_primary id host bookings seats =
    ground (arith, seated-move_primary id host bookings seats)

-- A reassignment leaves a booking's id, status and times.
abbrev SameTimes : Booking → Booking → Type 0
SameTimes b c =
    (b.id ≡ c.id) × (b.status ≡ c.status) × (b.start_at ≡ c.start_at) × (b.end_at ≡ c.end_at)

reassigned_same :
    (id new_host now : ℕ) (b c : Booking)
    → b ≡ (if c.id == id then reassign_row new_host now c else c)
    → SameTimes b c
reassigned_same id new_host now b c e = ground arith

meets-times :
    (b c b₀ c₀ : Booking)
    → SameTimes b b₀
    → SameTimes c c₀
    → meets b c.start_at c.end_at ≡ meets b₀ c₀.start_at c₀.end_at
unfolding meets
meets-times b c b₀ c₀ u v = ground arith

synced-Guarded :
    (id new_host now : ℕ) (store mid store' : Store) (out : Booking)
    → Guarded store
    → Reassigned id new_host now store mid out
    → synced id new_host (mid, out) ≡ (store', out)
    → Guarded store'
synced-Guarded id new_host now store mid store' out g r e = record {
  seated =
      rw (bookings, seats)
        (seated-sync_primary id new_host (update_bookings q f store.bookings) store.seats
          ∙ seated_kept store.bookings (update_bookings q f store.bookings) store.seats
              (λ i. has_booking-update q f store.bookings i (λ b. refl)) g.seated);
  named = λ b m z. let (c, k, x) = source b m in g.named c k (ground arith);
  unique = λ b c m n.
      update_bookings_unique q f store.bookings (λ b. refl) g.unique b c (rw bookings at m)
        (rw bookings at n);
  apart = λ b c user m n x y ne s t.
      let (b₀, k, i) = source b m in
      let (c₀, l, j) = source c n in
      apart_from b c user b₀ c₀ k l i j x y ne
        (attends-sync_primary id new_host store.seats b.id user (rw seats at s))
        (attends-sync_primary id new_host store.seats c.id user (rw seats at t));
}
  where
    q : Booking → Bool
    q = λ c. c.id == id

    f : Booking → Booking
    f = reassign_row new_host now

    bookings : store'.bookings ≡ update_bookings q f store.bookings
    bookings = ground (arith, r.written)

    seats : store'.seats ≡ sync_primary id new_host store.seats
    seats = ground (arith, r.written)

    source :
        (b : Booking)
        → In b store'.bookings
        → (c : Booking) × In c store.bookings
          × (b ≡ (if c.id == id then reassign_row new_host now c else c))
    source b m = In-update_bookings q f store.bookings b (rw bookings at m)

    -- The new host is free of every other booking at the time of this one.
    clear :
        (b d : Booking)
        → In b store.bookings
        → In d store.bookings
        → b.id ≡ id
        → d.id ≢ id
        → is_cancelled d.status ≡ false
        → attends store.seats d.id new_host ≡ true
        → meets d b.start_at b.end_at ≡ false
    clear b d m n e ne a s =
        let (i, k) = find_booking-id id store.bookings r.old r.found in
        let same : b ≡ r.old = g.unique b r.old m i (e ∙ sym k) in
        rw same (host_busy_excludes store new_host r.old.start_at r.old.end_at id d r.free n a ne s)

    core :
        (b c : Booking) (user : ℕ)
        → In b store.bookings
        → In c store.bookings
        → is_cancelled b.status ≡ false
        → is_cancelled c.status ≡ false
        → b.id ≢ c.id
        → (attends store.seats b.id user ≡ true) ⊎ ((b.id ≡ id) × (user ≡ new_host))
        → (attends store.seats c.id user ≡ true) ⊎ ((c.id ≡ id) × (user ≡ new_host))
        → meets b c.start_at c.end_at ≡ false
    core b c user k l x y ne (inl s) (inl t) = g.apart b c user k l x y ne s t
    core b c user k l x y ne (inl s) (inr (p, u)) =
        clear c b l k p (λ z. ne (z ∙ sym p)) x (subst (λ v. attends store.seats b.id v ≡ true) u s)
    core b c user k l x y ne (inr (p, u)) (inl t) =
        meets_comm b c
        ∙ clear b c k l p (λ z. ne (p ∙ sym z)) y
            (subst (λ v. attends store.seats c.id v ≡ true) u t)
    core b c user k l x y ne (inr (p, u)) (inr (w, v)) = absurd (ne (p ∙ sym w))

    apart_from :
        (b c : Booking) (user : ℕ) (b₀ c₀ : Booking)
        → In b₀ store.bookings
        → In c₀ store.bookings
        → b ≡ (if b₀.id == id then reassign_row new_host now b₀ else b₀)
        → c ≡ (if c₀.id == id then reassign_row new_host now c₀ else c₀)
        → is_cancelled b.status ≡ false
        → is_cancelled c.status ≡ false
        → b.id ≢ c.id
        → (attends store.seats b.id user ≡ true) ⊎ ((b.id ≡ id) × (user ≡ new_host))
        → (attends store.seats c.id user ≡ true) ⊎ ((c.id ≡ id) × (user ≡ new_host))
        → meets b c.start_at c.end_at ≡ false
    apart_from b c user b₀ c₀ k l i j x y ne s t =
        let u = reassigned_same id new_host now b b₀ i in
        let v = reassigned_same id new_host now c c₀ j in
        meets-times b c b₀ c₀ u v
        ∙ core b₀ c₀ user k l (sym (ap is_cancelled u.1) ∙ x) (sym (ap is_cancelled v.1) ∙ y)
            (λ z. ne (u.0 ∙ z ∙ sym v.0))
            (subst (λ w. (attends store.seats w user ≡ true) ⊎ ((w ≡ id) × (user ≡ new_host))) u.0
              s)
            (subst (λ w. (attends store.seats w user ≡ true) ⊎ ((w ≡ id) × (user ≡ new_host))) v.0
              t)

-- A reassignment that moves a booking to another host keeps the tables guarded, its two writes taken
-- together: the booking's row and the primary seat.
pub reassign_and_sync-Guarded :
    (id new_host now : ℕ) (store store' : Store) (b out : Booking)
    → Guarded store
    → find_booking id store.bookings ≡ some b
    → b.host_id ≢ new_host
    → reassign_and_sync id new_host now store ≡ ok (store', out)
    → Guarded store'
unfolding reassign_and_sync
reassign_and_sync-Guarded id new_host now store store' b out g f other e =
    let ((mid, moved), first, written) =
      >>=-eq-ok (reassign_host id new_host now store) (λ r. ok (synced id new_host r)) e in
    elim (reassign_host-cases id new_host now store mid moved first) [
      | inl (same, kept, _) ↦ absurd (ground arith)
      | inr r ↦ synced-Guarded id new_host now store mid store' moved g r (ground arith)
    ]
