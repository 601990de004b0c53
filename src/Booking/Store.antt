-- ===== src/Booking/Store.antt =====
-- The tables that internal/booking reads and writes, and the types of internal/booking/booking.go.
-- Ids and texts that are only compared are numbers, 0 for the empty text.
use district_scheduler.Common.{
  ℕ, ◌≡◌, refl, inl, inr, Bool, true, false, Option, none, some, List, [], ◌∷◌, arith, ◌==◌,
  if◌then◌else◌, Bool-cases, In,
}
use district_scheduler.Common.Fallible.{Fallible}

-- `bookings.status`, of which the schema allows no other value.
pub data Status : Type 0 where
  confirmed cancelled : Status

abbrev pub is_cancelled : Status → Bool
is_cancelled confirmed = false
is_cancelled cancelled = true

-- A row of `bookings`, which is what a `Booking` holds.
pub record Booking : Type 0 where
  pub id : ℕ
  pub event_type_id : ℕ
  pub host_id : ℕ
  pub start_at : ℕ
  pub end_at : ℕ
  pub status : Status
  pub cancellation_reason : ℕ
  pub location_value : ℕ
  pub location_type : ℕ
  pub created_at : ℕ
  pub updated_at : ℕ
  pub payment_status : ℕ
  pub amount_paid_cents : ℕ
  pub amount_paid_currency : ℕ
  pub confirm_failed : Bool
  pub invite_delivery : ℕ

-- A row of `booking_hosts`: a seat of a user at a booking.
pub record Seat : Type 0 where
  pub booking_id : ℕ
  pub user_id : ℕ
  pub is_primary : Bool
  pub needs_sync : Bool

-- A row of `booking_attendees`.
pub record AttendeeRow : Type 0 where
  pub booking_id : ℕ
  pub name : ℕ
  pub email : ℕ
  pub iana_timezone : ℕ
  pub is_organizer : Bool
  pub locale : ℕ

-- A row of `booking_answers`.
pub record AnswerRow : Type 0 where
  pub booking_id : ℕ
  pub question_id : ℕ
  pub value : ℕ

-- A row of `connection_calendars`.
pub record CalendarRow : Type 0 where
  pub user_id : ℕ
  pub provider : ℕ
  pub account_email : ℕ
  pub calendar_id : ℕ
  pub check_conflicts : Bool
  pub is_destination : Bool

-- A row of `booking_manage_tokens`.
pub record TokenRow : Type 0 where
  pub token_hash : ℕ
  pub booking_id : ℕ
  pub expires_at : ℕ

pub record Store : Type 0 where
  pub bookings : List Booking
  pub seats : List Seat
  pub attendees : List AttendeeRow
  pub answers : List AnswerRow
  pub calendars : List CalendarRow
  pub tokens : List TokenRow

pub data Error : Type 0 where
  hosts_empty double_booked not_found already_cancelled token_not_found : Error
  booking_limit_reached email_throttled : Error
  insert_host_failed insert_token_failed : Error

abbrev pub Result {ℓ} : Type ℓ → Type ℓ
Result A = Fallible Error A

-- `SELECT … FROM bookings WHERE id = ?`, with `ErrNotFound` where there is no row (`scanBooking`).
unfoldable pub find_booking : ℕ → List Booking → Option Booking
find_booking id [] = none
find_booking id (b ∷ bs) = let rest = find_booking id bs in if b.id == id then some b else rest

-- `UPDATE bookings SET … WHERE …`
unfoldable pub update_bookings :
    (Booking → Bool) → (Booking → Booking) → List Booking → List Booking
update_bookings p f [] = []
update_bookings p f (b ∷ bs) = (if p b then f b else b) ∷ update_bookings p f bs

pub find_booking-id :
    (id : ℕ) (bs : List Booking) (b : Booking) → find_booking id bs ≡ some b → In b bs × (b.id ≡ id)
unfolding find_booking
find_booking-id id [] b e = absurd (cc)
find_booking-id id (c ∷ bs) b e = elim (Bool-cases (c.id == id)) [
  | inl h ↦ (inl (ground arith), ground arith)
  | inr h ↦ let r = find_booking-id id bs b (ground arith) in (inr r.0, r.1)
]

-- Every row after an update is a row from before it, changed where the condition held.
pub In-update_bookings :
    (p : Booking → Bool) (f : Booking → Booking) (bs : List Booking) (b : Booking)
    → In b (update_bookings p f bs)
    → (c : Booking) × In c bs × (b ≡ (if p c then f c else c))
unfolding update_bookings
In-update_bookings p f [] b m = elim m [ ]
In-update_bookings p f (c ∷ cs) b (inl e) = (c, inl refl, e)
In-update_bookings p f (c ∷ cs) b (inr m) =
    let (d, k, e) = In-update_bookings p f cs b m in (d, inr k, e)
