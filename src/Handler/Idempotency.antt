-- ===== src/Handler/Idempotency.antt =====
-- Idempotency keys: internal/handler/idempotency.go, and how `CreateBooking` of
-- internal/handler/booking_handler.go uses them. A key, a body's hash and a response stand as numbers; a
-- status code of 0 is the null of a request in flight.
pub mod Once
pub mod Replays
use district_scheduler.Common.{
  ℕ, ◌≡◌, refl, Bool, true, false, not, Option, none, some, List, [], ◌∷◌, ltb, ◌==◌, if◌then◌else◌,
}
use district_scheduler.Common.Maps.{lookup, insert, remove}

-- A row of `idempotency_keys` behind its key.
pub record Entry : Type 0 where
  pub request_hash : ℕ
  pub status_code : ℕ
  pub response_body : ℕ

abbrev pub Keys : Type 0
Keys = List (ℕ × Entry)

-- What becomes of a request before it is worked on.
pub data Admission : Type 0 where
  unkeyed owned too_long in_flight mismatch : Admission
  replayed : ℕ → ℕ → Admission

abbrev pub answer_of : ℕ → Entry → Admission
answer_of hash e =
    if e.status_code == 0
    then in_flight
    else if not (e.request_hash == hash)
    then mismatch
    else replayed e.status_code e.response_body

abbrev pub claimed_or : ℕ → ℕ → Keys → Option Entry → Admission × Keys
claimed_or key hash keys none =
    (owned, insert key (record { request_hash = hash; status_code = 0; response_body = 0 }) keys)
claimed_or key hash keys (some e) = (answer_of hash e, keys)

-- The insertion of `claimIdempotencyKey`, or else the row that stands in its way.
unfoldable pub claim_key : ℕ → ℕ → Keys → Admission × Keys
unfolding lookup insert
claim_key key hash keys = claimed_or key hash keys (lookup key keys)

-- The header `Idempotency-Key`, by its text and that text's length, and the hash of the body.
pub record Attempt : Type 0 where
  pub key : ℕ
  pub key_length : ℕ
  pub body_hash : ℕ

unfoldable pub admit : Attempt → Keys → Admission × Keys
unfolding claim_key
admit r keys =
    if r.key_length == 0
    then (unkeyed, keys)
    else if ltb 255 r.key_length
    then (too_long, keys)
    else claim_key r.key r.body_hash keys

abbrev pub with_response : ℕ → ℕ → ℕ → Keys → Option Entry → Keys
with_response key status body keys none = keys
with_response key status body keys (some e) =
    insert key (record e { status_code = status; response_body = body }) keys

unfoldable pub finish_key : ℕ → ℕ → ℕ → Keys → Keys
unfolding lookup insert
finish_key key status body keys = with_response key status body keys (lookup key keys)

unfoldable pub release_key : ℕ → Keys → Keys
unfolding remove
release_key key keys = remove key keys
