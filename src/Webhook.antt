-- ===== src/Webhook.antt =====
-- Webhook subscriptions: internal/webhook/webhook.go. Ids, addresses and names of events stand as numbers, and a
-- payload field as its position in `AllFields`, numbers from 23 on for texts that are no field. Secrets and
-- signatures are left out, and a delivery's payload is its data object.
pub mod Fields
pub mod Kept
pub mod Managed
mod Tests
use district_scheduler.Common.{
  ℕ, zero, suc, ◌+◌, ◌≡◌, refl, Bool, true, false, not, ◌&&◌, ◌||◌, Option, none, some, List, [],
  ◌∷◌, ◌++◌, ltb, ◌==◌, if◌then◌else◌, any, select,
}
use district_scheduler.Common.Maps.{insert, remove}
use district_scheduler.Common.Fallible.{Fallible, ok, err, ◌>>=◌}
use district_scheduler.Worker.Queue.{Job, pending}

-- A row of `webhooks`.
pub record Webhook : Type 0 where
  pub id : ℕ
  pub user_id : ℕ
  pub url : ℕ
  pub events : List ℕ
  pub fields : Option (List ℕ)
  pub is_active : Bool
  pub managed : Bool

pub data Error : Type 0 where
  not_found managed_by_platform insert_failed : Error

abbrev pub Result : Type 0
Result = Fallible Error (List Webhook)

abbrev pub valid_field : ℕ → Bool
valid_field f = ltb f 23

abbrev pub valid_fields : List ℕ → List ℕ
valid_fields fields = select valid_field fields

-- `defaultFields`
abbrev pub default_fields : List ℕ
default_fields = 0 ∷ 9 ∷ 11 ∷ 2 ∷ 3 ∷ 1 ∷ 5 ∷ 6 ∷ 4 ∷ 7 ∷ 8 ∷ 18 ∷ 19 ∷ 20 ∷ 21 ∷ 22 ∷ []

-- The row of a new subscription; the table's defaults make it active and not managed.
abbrev pub registered : ℕ → ℕ → ℕ → List ℕ → Webhook
registered uid user url events = record {
  id = uid;
  user_id = user;
  url = url;
  events = events;
  fields = none;
  is_active = true;
  managed = false;
}

unfoldable pub create_webhook : ℕ → ℕ → ℕ → List ℕ → List Webhook → Result
create_webhook uid user url events rows =
    if any (λ r. r.id == uid) rows
    then err insert_failed
    else ok (rows ++ registered uid user url events ∷ [])

abbrev pub is_row : ℕ → ℕ → Webhook → Bool
is_row user id r = r.id == id && r.user_id == user

unfoldable pub find_row : ℕ → ℕ → List Webhook → Option Webhook
find_row user id [] = none
find_row user id (r ∷ rs) =
    let rest = find_row user id rs in if is_row user id r then some r else rest

abbrev pub refuse_managed : Option Webhook → Fallible Error (Unit {0})
refuse_managed none = err not_found
refuse_managed (some r) = if r.managed then err managed_by_platform else ok tt

unfoldable pub check_not_managed : ℕ → ℕ → List Webhook → Fallible Error (Unit {0})
unfolding find_row
check_not_managed user id rows = refuse_managed (find_row user id rows)

abbrev pub with_events : Option (List ℕ) → Webhook → Webhook
with_events none r = r
with_events (some events) r = record r { events = events }

abbrev pub with_fields : Option (List ℕ) → Webhook → Webhook
with_fields none r = r
with_fields (some fields) r = record r { fields = some (valid_fields fields) }

-- `UPDATE webhooks SET … WHERE id = ? AND user_id = ?`
unfoldable pub update_rows : (Webhook → Bool) → (Webhook → Webhook) → List Webhook → List Webhook
update_rows p f [] = []
update_rows p f (r ∷ rs) = (if p r then f r else r) ∷ update_rows p f rs

-- `Update`. With nothing to set it returns after the check.
unfoldable pub update : ℕ → ℕ → Option (List ℕ) → Option (List ℕ) → List Webhook → Result
unfolding check_not_managed update_rows
update user id events fields rows = check_not_managed user id rows >>= λ _.
    if any (is_row user id) rows
    then ok (update_rows (is_row user id) (λ r. with_fields fields (with_events events r)) rows)
    else err not_found

abbrev pub is_removed : ℕ → ℕ → Webhook → Bool
is_removed user id r = is_row user id r && not r.managed

unfoldable pub delete : ℕ → ℕ → List Webhook → Result
unfolding check_not_managed
delete user id rows = check_not_managed user id rows >>= λ _.
    if any (is_removed user id) rows
    then ok (select (λ r. not (is_removed user id r)) rows)
    else err not_found

-- The values of a booking for the payload, 0 for the empty text and for the number 0.
abbrev pub Values : Type 0
Values = ℕ → ℕ

-- The fields of `omitEmpty`, and the two numbers.
abbrev pub omits_empty : ℕ → Bool
omits_empty f =
    f == 5
    || (f == 6
        || (f == 7 || (f == 8 || (f == 18 || (f == 19 || (f == 20 || (f == 21 || f == 22)))))))

abbrev pub includes : Values → ℕ → Bool
includes value f = valid_field f && not (omits_empty f && value f == 0)

-- `buildData`: the loop over the requested keys.
unfoldable pub build_onto : Values → List ℕ → List (ℕ × ℕ) → List (ℕ × ℕ)
unfolding insert
build_onto value [] out = out
build_onto value (f ∷ fs) out =
    build_onto value fs (if includes value f then insert f (value f) out else out)

unfoldable pub build_data : Values → List ℕ → List (ℕ × ℕ)
unfolding build_onto
build_data value fields = build_onto value fields []

abbrev pub or_default_fields : List ℕ → List ℕ
or_default_fields [] = default_fields
or_default_fields (f ∷ fs) = f ∷ fs

abbrev pub field_set : Option (List ℕ) → List ℕ
field_set none = default_fields
field_set (some fields) = or_default_fields fields

-- A new row of `webhook_deliveries`, which is pending.
pub record Delivery : Type 0 where
  pub id : ℕ
  pub webhook_id : ℕ
  pub booking_id : ℕ
  pub event : ℕ
  pub payload : List (ℕ × ℕ)

abbrev pub is_subscribed : ℕ → ℕ → Webhook → Bool
is_subscribed host event r = r.user_id == host && (r.is_active && any (λ e. e == event) r.events)

-- A job of `webhook.deliver`, with the table's defaults, and the delivery that it names.
abbrev pub delivery_job : ℕ → ℕ → Job
delivery_job id now = record {
  id = id;
  status = pending;
  attempts = 0;
  max_attempts = 3;
  run_at = now;
  locked_until = 0;
  finished_at = none;
}

-- The n-th subscription takes the ids 2n and 2n + 1 of those that are drawn.
unfoldable pub deliver_to : (ℕ → ℕ) → ℕ → ℕ → Values → ℕ → List Webhook → List (Delivery × Job)
unfolding build_data
deliver_to uid event booking value now [] = []
deliver_to uid event booking value now (r ∷ rs) =
    (
      record {
        id = uid 0;
        webhook_id = r.id;
        booking_id = booking;
        event = event;
        payload = build_data value (field_set r.fields);
      },
      delivery_job (uid 1) now,
    )
    ∷ deliver_to (λ n. uid (suc (suc n))) event booking value now rs

-- `Enqueue`: the deliveries and their jobs.
unfoldable pub enqueue : (ℕ → ℕ) → ℕ → ℕ → ℕ → Values → ℕ → List Webhook → List (Delivery × Job)
unfolding deliver_to
enqueue uid event host booking value now rows =
    deliver_to uid event booking value now (select (is_subscribed host event) rows)
