-- ===== src/Handler/Overrides/Change.antt =====
-- `UpdateAvailabilityOverride`, `DeleteAvailabilityOverride` and `DeleteAvailabilityOverrideGroup` of
-- internal/handler/override.go.
use district_scheduler.Common.{
  ℕ, Bool, true, false, not, ◌&&◌, Option, none, some, List, [], ◌∷◌, ◌==◌, if◌then◌else◌, any,
  select,
}
use district_scheduler.Handler.Hours.{
  Text, text_lt, text_eq, valid_hhmm, bad_request, not_found, conflict, Reply, done, refused,
}
use district_scheduler.Handler.Overrides.{
  Reason, day_off, custom_hours, is_custom, Override, same_day, collides, ReasonText, unset, other,
  given, is_given, text_of,
}

-- A reason that the patch leaves out is `unset`.
pub record OverridePatch : Type 0 where
  pub reason : ReasonText
  pub start_time : Option Text
  pub end_time : Option Text
  pub is_available : Option Bool

abbrev pub legacy_reason : Option Bool → Reason → Reason
legacy_reason none current = current
legacy_reason (some true) current = custom_hours
legacy_reason (some false) current = if is_custom current then day_off else current

abbrev pub patched_reason : ReasonText → Option Bool → Reason → Option Reason
patched_reason unset available current = some (legacy_reason available current)
patched_reason other available current = none
patched_reason (given r) available current = some r

-- The times that the handler has read with the row.
abbrev pub loaded_start : Override → Option Text
loaded_start row = if row.is_available && is_given row.start_time then row.start_time else none

abbrev pub loaded_end : Override → Option Text
loaded_end row =
    if row.is_available && is_given row.start_time then some (text_of row.end_time) else none

abbrev pub valid_if_given : Option Text → Bool
valid_if_given none = true
valid_if_given (some t) = valid_hhmm t

abbrev pub given_or : Option Text → Option Text → Option Text
given_or none t = t
given_or (some s) t = some s

abbrev pub rewritten : Reason → Option Text → Option Text → Override → Override
rewritten reason s t row =
    if is_custom reason
    then record row { is_available = true; reason = reason; start_time = s; end_time = t }
    else record row { is_available = false; reason = reason; start_time = none; end_time = none }

unfoldable pub find_override : ℕ → ℕ → List Override → Option Override
find_override id user [] = none
find_override id user (r ∷ rs) =
    let rest = find_override id user rs in if r.id == id && r.user_id == user then some r else rest

-- `UPDATE availability_overrides SET … WHERE id = ? AND user_id = ?`
unfoldable pub write_override : ℕ → ℕ → Override → List Override → List Override
write_override id user row [] = []
write_override id user row (r ∷ rs) =
    (if r.id == id && r.user_id == user then row else r) ∷ write_override id user row rs

-- `DELETE … WHERE user_id = ? AND date = ? AND id != ? AND is_available = 1`, on the way to a block.
abbrev pub clear_customs : ℕ → ℕ → Override → List Override → List Override
clear_customs id user row rows =
    if row.is_available
    then rows
    else select (λ r. not (same_day user row.date r && (not (r.id == id) && r.is_available))) rows

abbrev pub store_cleared : ℕ → ℕ → Override → List Override → List Override × Reply
store_cleared id user row cleared =
    if any (λ r. not (r.id == id) && collides row r) cleared
    then (cleared, refused conflict)
    else (write_override id user row cleared, done)

-- The two statements are not in a transaction: where the second is refused, the first one stays.
abbrev pub store_override : ℕ → ℕ → Override → List Override → List Override × Reply
store_override id user row rows = store_cleared id user row (clear_customs id user row rows)

abbrev pub times_in_order : Option Text → Option Text → Bool
times_in_order s t = is_given s && (is_given t && text_lt (text_of s) (text_of t))

abbrev pub patch_reasoned :
    ℕ → ℕ → OverridePatch → Override → Option Reason → List Override → List Override × Reply
patch_reasoned user id req current none rows = (rows, refused bad_request)
patch_reasoned user id req current (some reason) rows =
    let s = given_or req.start_time (loaded_start current) in
    let t = given_or req.end_time (loaded_end current) in
    if not (valid_if_given req.start_time)
    then (rows, refused bad_request)
    else if not (valid_if_given req.end_time)
    then (rows, refused bad_request)
    else if is_custom reason && not (times_in_order s t)
    then (rows, refused bad_request)
    else store_override id user (rewritten reason s t current) rows

abbrev pub patch_found :
    ℕ → ℕ → OverridePatch → Option Override → List Override → List Override × Reply
patch_found user id req none rows = (rows, refused not_found)
patch_found user id req (some current) rows =
    patch_reasoned user id req current (patched_reason req.reason req.is_available current.reason)
      rows

unfoldable pub update_override :
    ℕ → ℕ → Option OverridePatch → List Override → List Override × Reply
unfolding find_override write_override text_eq text_lt valid_hhmm
update_override user id none rows = (rows, refused bad_request)
update_override user id (some req) rows = patch_found user id req (find_override id user rows) rows

abbrev pub delete_where : (Override → Bool) → List Override → List Override × Reply
delete_where p rows =
    if any p rows then (select (λ r. not (p r)) rows, done) else (rows, refused not_found)

unfoldable pub delete_override : ℕ → ℕ → List Override → List Override × Reply
delete_override user id rows = delete_where (λ r. r.id == id && r.user_id == user) rows

abbrev pub in_group : ℕ → Option ℕ → Bool
in_group group none = false
in_group group (some g) = g == group

unfoldable pub delete_group : ℕ → ℕ → List Override → List Override × Reply
delete_group user group rows =
    delete_where (λ r. in_group group r.group_id && r.user_id == user) rows
