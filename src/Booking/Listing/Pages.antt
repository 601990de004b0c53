-- ===== src/Booking/Listing/Pages.antt =====
-- What the queries of internal/booking/list.go count, and how their pages follow on one another.
use district_scheduler.Common.{
  ℕ, zero, suc, ◌+◌, ◌<◌, ◌≡◌, refl, ap, ◌≢◌, Bool, true, false, not, ◌&&◌, ◌||◌, List, [], ◌∷◌,
  ◌++◌, arith, ◌==◌, length, select,
}
use district_scheduler.Booking.Stamp.{before, sql_time}
use district_scheduler.Booking.Store.{Booking, Seat, Store}
use district_scheduler.Booking.Listing.{
  past, or_clock, on_side, counts, page, When, total, order_by, drop_rows, insert_row, matches,
  take_rows, list, ListFilter, Member, upcoming,
}

length-split :
    (q : Booking → Bool) (bs : List Booking)
    → length (select (λ b. not (q b)) bs) + length (select q bs) ≡ length bs
length-split q [] = refl
length-split q (b ∷ bs) = ground (arith, length-split q bs)

-- The two numbers add up to all bookings that pass the filter without its side of now.
pub total-counts :
    (members : List Member) (store : Store) (f : ListFilter) (clock : ℕ)
    → total (counts members store f clock)
      ≡ length (select (matches members store.seats f false) store.bookings)
unfolding total counts
total-counts members store f clock =
    length-split (λ b. before b.end_at (sql_time (or_clock f.now clock)))
      (select (matches members store.seats f false) store.bookings)

length-insert_row :
    (desc : Bool) (b : Booking) (bs : List Booking)
    → length (insert_row desc b bs) ≡ suc (length bs)
unfolding insert_row
length-insert_row desc b [] = refl
length-insert_row desc b (c ∷ cs) = ground (arith, length-insert_row desc b cs)

length-order_by : (desc : Bool) (bs : List Booking) → length (order_by desc bs) ≡ length bs
unfolding order_by
length-order_by desc [] = refl
length-order_by desc (b ∷ bs) =
    ground (arith, length-insert_row desc b (order_by desc bs), length-order_by desc bs)

length-select-both :
    (p q r : Booking → Bool) (bs : List Booking)
    → ((b : Booking) → p b ≡ (q b && r b))
    → length (select p bs) ≡ length (select r (select q bs))
length-select-both p q r [] k = refl
length-select-both p q r (b ∷ bs) k = ground (arith, k b, length-select-both p q r bs k)

-- The side of now is the last of the conditions.
matches-side :
    (members : List Member) (seats : List Seat) (f : ListFilter) (b : Booking)
    → matches members seats f true b
      ≡ (matches members seats f false b && (f.now == 0 || on_side f.when f.now b))
unfolding matches
matches-side members seats f b = ground arith

matches-dated :
    (members : List Member) (seats : List Seat) (f : ListFilter) (w : When) (b : Booking)
    → f.now ≢ 0
    → f.when ≡ w
    → matches members seats f true b ≡ (matches members seats f false b && on_side w f.now b)
matches-dated members seats f w b dated e = ground (arith, matches-side members seats f b)

-- The number that labels a tab is the number of bookings that the tab lists, for a filter that
-- gives the time and no limit.
pub counts_match_list :
    (members : List Member) (store : Store) (f : ListFilter) (clock : ℕ)
    → f.limit ≡ 0
    → f.now ≢ 0
    → (f.when ≡ upcoming → length (list members store f) ≡ (counts members store f clock).upcoming)
      × (f.when ≡ past → length (list members store f) ≡ (counts members store f clock).past)
unfolding list counts page
counts_match_list members store f clock unlimited dated = (
  λ w. ground (
    arith,
    length-order_by f.descending (select (matches members store.seats f true) store.bookings),
    length-select-both (matches members store.seats f true) (matches members store.seats f false)
        (λ b. not (before b.end_at (sql_time f.now))) store.bookings
        (λ b. matches-dated members store.seats f upcoming b dated w),
  ),
  λ w. ground (
    arith,
    length-order_by f.descending (select (matches members store.seats f true) store.bookings),
    length-select-both (matches members store.seats f true) (matches members store.seats f false)
        (λ b. before b.end_at (sql_time f.now)) store.bookings
        (λ b. matches-dated members store.seats f past b dated w),
  ),
)

drop_rows-nil : (n : ℕ) → drop_rows n [] ≡ []
unfolding drop_rows
drop_rows-nil zero = refl
drop_rows-nil (suc n) = refl

take_rows-nil : (n : ℕ) → take_rows n [] ≡ []
unfolding take_rows
take_rows-nil zero = refl
take_rows-nil (suc n) = refl

take-drop :
    (n m : ℕ) (bs : List Booking)
    → take_rows n bs ++ take_rows m (drop_rows n bs) ≡ take_rows (n + m) bs
unfolding take_rows drop_rows
take-drop zero m bs = ground arith
take-drop (suc n) m [] = ground (arith, take_rows-nil m, take_rows-nil (suc n + m))
take-drop (suc n) m (b ∷ bs) =
    let e : suc n + m ≡ suc (n + m) = omega arith in rw e (ap (λ xs. b ∷ xs) (take-drop n m bs))

drop-drop : (a n : ℕ) (bs : List Booking) → drop_rows (a + n) bs ≡ drop_rows n (drop_rows a bs)
unfolding drop_rows
drop-drop zero n bs = ground arith
drop-drop (suc a) n [] = ground (arith, drop_rows-nil n, drop_rows-nil (suc a + n))
drop-drop (suc a) n (b ∷ bs) =
    let e : suc a + n ≡ suc (a + n) = omega arith in rw e (drop-drop a n bs)

-- Two pages of one row or more that follow on one another are the page of their lengths together:
-- while the tables stay, no booking is shown twice or left out between them.
pub pages_join :
    (members : List Member) (store : Store) (f : ListFilter) (n m a : ℕ)
    → 0 < n
    → 0 < m
    → list members store (record f { limit = n; offset = a })
        ++ list members store (record f { limit = m; offset = a + n })
      ≡ list members store (record f { limit = n + m; offset = a })
unfolding list page
pages_join members store f n m a p q =
    let rows = order_by f.descending (select (matches members store.seats f true) store.bookings) in
    ground (arith, take-drop n m (drop_rows a rows), drop-drop a n rows)
