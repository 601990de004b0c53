-- ===== src/Booking/Lifecycle/Cancelled.antt =====
-- The outcomes of `Cancel` and `CancelByID` of internal/booking/service.go.
use district_scheduler.Common.{
  ℕ, ◌≡◌, refl, ◌∙◌, ◌↔◌, inl, inr, Bool, true, false, not, ◌&&◌, List, [], ◌∷◌, arith, ◌==◌,
  Bool-cases, any, any_mono,
}
use district_scheduler.Common.Fallible.{ok, err}
use district_scheduler.Booking.Store.{
  Booking, Store, is_cancelled, update_bookings, not_found, already_cancelled,
}
use district_scheduler.Booking.Lifecycle.{cancel_row, cancel_where, cancel}
use district_scheduler.Booking.Lifecycle.Kept.{cancel_where-writes}

abbrev pub owned_by : ℕ → ℕ → Booking → Bool
owned_by host_id id b = b.id == id && b.host_id == host_id

-- `Cancel` tells its cases apart: a booking of another host, or none, is not found; the host's own is
-- cancelled if it is active, and refused as already cancelled otherwise.
pub cancel_outcomes :
    (host_id id reason now : ℕ) (store : Store)
    → ((cancel host_id id reason now store ≡ err not_found)
        ↔ (any (owned_by host_id id) store.bookings ≡ false))
      × ((cancel host_id id reason now store ≡ err already_cancelled) ↔ (
          (any (owned_by host_id id) store.bookings ≡ true)
          × (any (λ b. owned_by host_id id b && not (is_cancelled b.status)) store.bookings
              ≡ false)))
unfolding cancel cancel_where
cancel_outcomes host_id id reason now store = (
  (λ e. ground (arith, weaker), λ e. ground (arith, weaker)),
  (λ e. (ground (arith, weaker), ground (arith, weaker)), λ e. ground (arith, weaker)),
)
  where
    weaker :
        any (λ b. owned_by host_id id b && not (is_cancelled b.status)) store.bookings ≡ true
        → any (owned_by host_id id) store.bookings ≡ true
    weaker h =
        any_mono (λ b. owned_by host_id id b && not (is_cancelled b.status)) (owned_by host_id id)
          store.bookings (λ b k. ground arith) h

any-after_cancel :
    (owns : Booking → Bool) (reason now : ℕ) (bs : List Booking)
    → ((b : Booking) → owns (cancel_row reason now b) ≡ owns b)
    → let after =
        update_bookings (λ b. owns b && not (is_cancelled b.status)) (cancel_row reason now) bs in
      (any (λ b. owns b && not (is_cancelled b.status)) after ≡ false)
      × (any owns after ≡ any owns bs)
unfolding update_bookings
any-after_cancel owns reason now [] k = (refl, refl)
any-after_cancel owns reason now (b ∷ bs) k =
    ground (arith, k b, any-after_cancel owns reason now bs k)

cancel-owned :
    (host_id id reason now : ℕ) (store store' : Store)
    → cancel host_id id reason now store ≡ ok store'
    → any (owned_by host_id id) store.bookings ≡ true
cancel-owned host_id id reason now store store' e =
    elim (Bool-cases (any (owned_by host_id id) store.bookings)) [
      | inl there ↦ there
      | inr missing ↦ absurd (clash ((cancel_outcomes host_id id reason now store).0.1 missing))
    ]
  where
    clash : cancel host_id id reason now store ≡ err not_found → ⊥
    clash x = ground arith

-- Once cancelled, a booking is refused as already cancelled.
pub cancel_twice :
    (host_id id reason now later : ℕ) (store store' : Store)
    → cancel host_id id reason now store ≡ ok store'
    → cancel host_id id reason later store' ≡ err already_cancelled
cancel_twice host_id id reason now later store store' e =
    let w =
      cancel_where-writes (owned_by host_id id) id reason now store store' (unfold cancel in e) in
    let k = any-after_cancel (owned_by host_id id) reason now store.bookings (λ b. refl) in
    (cancel_outcomes host_id id reason later store').1.1
      (rw w.0 (k.1 ∙ cancel-owned host_id id reason now store store' e), rw w.0 k.0)
