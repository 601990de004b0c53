-- ===== src/Booking/Tokens.antt =====
-- Manage tokens: `IssueManageToken`, `ValidateManageToken`, `RotateManageToken` and `CancelByToken` of
-- internal/booking/service.go. The raw value that is drawn is an argument, and so is `digest`, the SHA-256
-- of its hexadecimal text. A token of a booking that is not there is refused by the foreign key.
use district_scheduler.Common.{
  ℕ, ◌+◌, ◌*◌, ◌/◌, ◌<◌, ◌≡◌, ◌≢◌, ◌⊎◌, inl, inr, not, ◌&&◌, ◌||◌, Option, none, some, List, [],
  ◌∷◌, arith, ltb, ◌==◌, if◌then◌else◌, Bool-cases, Option-cases, any, select,
}
use district_scheduler.Common.Fallible.{ok, err, ◌>>=◌, or_fail}
use district_scheduler.Slots.Day.{nanoseconds_per_second}
use district_scheduler.Booking.Stamp.{before, before_whole, sql_time}
use district_scheduler.Booking.Store.{
  Booking, Store, TokenRow, Result, is_cancelled, token_not_found, not_found, insert_token_failed,
  already_cancelled, find_booking, find_booking-id, update_bookings,
}
use district_scheduler.Booking.Guarded.{has_booking}
use district_scheduler.Booking.Lifecycle.{cancel_row, clear_needs_sync}

-- `manageTokenTTL`, sixty days.
abbrev pub manage_token_ttl : ℕ
manage_token_ttl = 60 * (24 * 3600) * nanoseconds_per_second

-- `SELECT booking_id … WHERE token_hash = ? AND expires_at > ?`
unfoldable pub find_token : ℕ → ℕ → List TokenRow → Option ℕ
find_token hash now [] = none
find_token hash now (t ∷ ts) =
    let rest = find_token hash now ts in
    if t.token_hash == hash && before now t.expires_at then some t.booking_id else rest

module _ (digest : ℕ → ℕ) where
  -- `generateManageToken`: what is stored of the raw value.
  unfoldable pub token_row : ℕ → ℕ → ℕ → TokenRow
  token_row raw booking_id now = record {
    token_hash = digest raw;
    booking_id = booking_id;
    expires_at = sql_time (now + manage_token_ttl);
  }

  -- The insertion: the hash is the primary key.
  unfoldable pub insert_token : TokenRow → Store → List TokenRow → Result Store
  insert_token row store tokens =
      if any (λ t. t.token_hash == row.token_hash) tokens
        || not (has_booking store.bookings row.booking_id)
      then err insert_token_failed
      else ok (record store { tokens = row ∷ tokens })

  unfoldable pub issue_manage_token : ℕ → ℕ → ℕ → Store → Result Store
  unfolding token_row insert_token
  issue_manage_token raw booking_id now store =
      insert_token (token_row raw booking_id now) store store.tokens

  -- One transaction: the tokens of the booking are deleted, and the new one is inserted.
  unfoldable pub rotate_manage_token : ℕ → ℕ → ℕ → Store → Result Store
  unfolding token_row insert_token
  rotate_manage_token raw booking_id now store =
      insert_token (token_row raw booking_id now) store
        (select (λ t. not (t.booking_id == booking_id)) store.tokens)

  unfoldable pub validate_manage_token : ℕ → ℕ → Store → Result Booking
  unfolding find_token find_booking
  validate_manage_token raw now store =
      or_fail (find_token (digest raw) (sql_time now) store.tokens) token_not_found >>= λ id.
      or_fail (find_booking id store.bookings) not_found

  -- With nothing between its read and its update, which then changes the row.
  unfoldable pub cancel_by_token : ℕ → ℕ → ℕ → Store → Result (Store × Booking)
  unfolding validate_manage_token update_bookings clear_needs_sync
  cancel_by_token raw reason now store = validate_manage_token raw now store >>= λ b.
      if is_cancelled b.status
      then err already_cancelled
      else ok (
        record store {
          bookings =
              update_bookings (λ c. c.id == b.id && not (is_cancelled c.status))
                (cancel_row reason now) store.bookings;
          seats = clear_needs_sync b.id store.seats;
        },
        cancel_row reason now b,
      )

find_token-fresh :
    (hash now id : ℕ) (ts : List TokenRow)
    → find_token hash now (select (λ t. not (t.booking_id == id)) ts) ≢ some id
unfolding find_token
find_token-fresh hash now id [] e = absurd (cc)
find_token-fresh hash now id (t ∷ ts) e = ground (arith, find_token-fresh hash now id ts)

before-sql_time : (t u : ℕ) → before (sql_time t) (sql_time u) ≡ ltb (sql_time t) (sql_time u)
unfolding sql_time
before-sql_time t u =
    before_whole (t / nanoseconds_per_second * nanoseconds_per_second)
      (u / nanoseconds_per_second * nanoseconds_per_second) (omega arith) (omega arith)

-- A token that has just been issued or rotated opens its booking, at each reading of the clock in a
-- second before the one in which its sixty days end.
pub fresh_token_opens :
    (digest : ℕ → ℕ) (raw id now later : ℕ) (store store' : Store) (b : Booking)
    → (rotate_manage_token digest raw id now store ≡ ok store')
      ⊎ (issue_manage_token digest raw id now store ≡ ok store')
    → find_booking id store.bookings ≡ some b
    → sql_time later < sql_time (now + manage_token_ttl)
    → validate_manage_token digest raw later store' ≡ ok b
unfolding rotate_manage_token issue_manage_token insert_token token_row validate_manage_token
    find_token
fresh_token_opens digest raw id now later store store' b (inl e) f l =
    ground (arith, before-sql_time later (now + manage_token_ttl))
fresh_token_opens digest raw id now later store store' b (inr e) f l =
    ground (arith, before-sql_time later (now + manage_token_ttl))

-- After a rotation every token that opens the booking has the digest of the new one: links sent before are dead.
pub rotated_tokens_dead :
    (digest : ℕ → ℕ) (raw id now old later : ℕ) (store store' : Store) (b : Booking)
    → rotate_manage_token digest raw id now store ≡ ok store'
    → validate_manage_token digest old later store' ≡ ok b
    → b.id ≡ id
    → digest old ≡ digest raw
unfolding rotate_manage_token insert_token token_row validate_manage_token find_token
rotated_tokens_dead digest raw id now old later store store' b e v same =
    let kept = select (λ t. not (t.booking_id == id)) store.tokens in
    elim (Bool-cases (digest raw == digest old)) [
      | inl eq ↦ ground arith
      | inr other ↦ elim (Option-cases (find_token (digest old) (sql_time later) kept)) [
        | inl missing ↦ absurd (ground arith)
        | inr (i, found) ↦
            let at_i : find_booking i store.bookings ≡ some b = ground arith in
            let q = (find_booking-id i store.bookings b at_i).1 in
            absurd (find_token-fresh (digest old) (sql_time later) id store.tokens (ground arith))
      ]
    ]
