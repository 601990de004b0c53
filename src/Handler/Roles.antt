-- ===== src/Handler/Roles.antt =====
-- The members of a workspace, their roles and their archiving: internal/handler/roles.go and archive.go.
-- A handler answers with the tables after it, or with the status that it refuses with. Ids stand as
-- numbers; the id and the roles of the caller are those that the session had when it was looked up.
pub mod Rows
pub mod Served
pub mod Owner
pub mod Lockout
use district_scheduler.Booking.Stamp.{before}
use district_scheduler.Common.{
  ℕ, ◌≡◌, refl, Bool, true, false, not, ◌&&◌, ◌||◌, Option, none, some, List, [], ◌∷◌, ltb, ◌==◌,
  if◌then◌else◌, any,
}
use district_scheduler.Common.Fallible.{Fallible, ok, err, ◌>>=◌, or_fail}
use district_scheduler.Booking.Store.{Booking, is_cancelled}

-- A row of `users`.
pub record User : Type 0 where
  pub id : ℕ
  pub is_admin : Bool
  pub is_owner : Bool
  pub archived_at : Option ℕ
  pub archived_by : Option ℕ

-- A row of `event_types`.
pub record EventType : Type 0 where
  pub id : ℕ
  pub user_id : ℕ
  pub is_active : Bool

pub record Workspace : Type 0 where
  pub users : List User
  pub event_types : List EventType
  pub bookings : List Booking

-- What `userFromContext` gives.
pub record Actor : Type 0 where
  pub id : ℕ
  pub is_admin : Bool
  pub is_owner : Bool

pub data Refusal : Type 0 where
  bad_request forbidden not_found conflict internal_error : Refusal

abbrev pub Answer : Type 0
Answer = Fallible Refusal Workspace

-- `req.Role`, by what it is compared with.
pub data RoleText : Type 0 where
  admin member other : RoleText

abbrev pub is_set : Option ℕ → Bool
is_set none = false
is_set (some _) = true

abbrev pub is_user : ℕ → Option ℕ → Bool
is_user id none = false
is_user id (some by) = by == id

-- The rows that `idx_users_one_owner_per_workspace` covers.
abbrev pub is_live_owner : User → Bool
is_live_owner u = u.is_owner && not (is_set u.archived_at)

unfoldable pub find_user : ℕ → List User → Option User
find_user id [] = none
find_user id (u ∷ us) = let rest = find_user id us in if u.id == id then some u else rest

-- `UPDATE users SET … WHERE id = ?`
unfoldable pub update_user : ℕ → (User → User) → List User → List User
update_user id f [] = []
update_user id f (u ∷ us) = (if u.id == id then f u else u) ∷ update_user id f us

-- Does another row than that of the id hold the one place of the index?
unfoldable pub another_owner : ℕ → List User → Bool
another_owner id us = any (λ u. not (u.id == id) && is_live_owner u) us

-- `UPDATE event_types SET is_active = 0 WHERE user_id = ?`
unfoldable pub deactivate : ℕ → List EventType → List EventType
deactivate user_id [] = []
deactivate user_id (e ∷ es) =
    (if e.user_id == user_id then record e { is_active = false } else e) ∷ deactivate user_id es

abbrev pub write_role : Bool → ℕ → Workspace → Answer
write_role is_admin target ws = or_fail (find_user target ws.users) not_found >>= λ u.
    if u.is_owner
    then err bad_request
    else ok
        (record ws { users = update_user target (λ v. record v { is_admin = is_admin }) ws.users })

abbrev pub role_of_body : Option RoleText → ℕ → Workspace → Answer
role_of_body none target ws = err bad_request
role_of_body (some other) target ws = err bad_request
role_of_body (some admin) target ws = write_role true target ws
role_of_body (some member) target ws = write_role false target ws

-- No actor: the context holds no user. No body: the body is not JSON.
unfoldable pub set_user_role : Option Actor → ℕ → Option RoleText → Workspace → Answer
unfolding find_user update_user
set_user_role none target body ws = err forbidden
set_user_role (some actor) target body ws =
    if not actor.is_owner
    then err forbidden
    else if target == actor.id
    then err bad_request
    else role_of_body body target ws

unfoldable pub demote : ℕ → List User → List User
unfolding update_user
demote id us = update_user id (λ v. record v { is_owner = false }) us

unfoldable pub promote : ℕ → List User → List User
unfolding update_user
promote id us = update_user id (λ v. record v { is_owner = true; is_admin = true }) us

-- The transaction of `TransferOwnership`. The promotion of a live user is refused by the index where
-- another live owner is left, and the demotion is rolled back with it.
unfoldable pub transfer_ownership : Option Actor → ℕ → Workspace → Answer
unfolding find_user demote promote another_owner
transfer_ownership none target ws = err forbidden
transfer_ownership (some actor) target ws =
    if not actor.is_owner
    then err forbidden
    else if target == actor.id
    then err bad_request
    else (or_fail (find_user target ws.users) not_found >>= λ u.
        if not (is_set u.archived_at) && another_owner target (demote actor.id ws.users)
        then err internal_error
        else ok (record ws { users = promote target (demote actor.id ws.users) }))

-- `SELECT COUNT(*) FROM bookings WHERE host_id = ? AND status != 'cancelled' AND end_at > ?` is not zero.
unfoldable pub has_upcoming : ℕ → ℕ → List Booking → Bool
has_upcoming host now bookings =
    any (λ b. b.host_id == host && (not (is_cancelled b.status) && before now b.end_at)) bookings

abbrev pub set_archived : ℕ → ℕ → ℕ → Workspace → Workspace
set_archived now by target ws = record ws {
  users =
      update_user target (λ v. record v { archived_at = some now; archived_by = some by }) ws.users;
  event_types = deactivate target ws.event_types;
}

unfoldable pub archive_user : Option Actor → ℕ → ℕ → Workspace → Answer
unfolding find_user update_user deactivate has_upcoming
archive_user none target now ws = err forbidden
archive_user (some actor) target now ws =
    if not actor.is_admin
    then err forbidden
    else if target == actor.id
    then err bad_request
    else (or_fail (find_user target ws.users) not_found >>= λ u.
        if is_set u.archived_at
        then err bad_request
        else if u.is_owner
        then err bad_request
        else if u.is_admin && not actor.is_owner
        then err forbidden
        else if has_upcoming target now ws.bookings
        then err conflict
        else ok (set_archived now actor.id target ws))

-- The update of `RestoreUser`, which the index refuses for an owner beside a live one.
abbrev pub write_restored : ℕ → User → Workspace → Answer
write_restored target u ws =
    if u.is_owner && another_owner target ws.users
    then err internal_error
    else ok (record ws {
      users =
          update_user target (λ v. record v { archived_at = none; archived_by = none }) ws.users;
    })

unfoldable pub restore_user : Option Actor → ℕ → Workspace → Answer
unfolding find_user update_user another_owner
restore_user none target ws = err forbidden
restore_user (some actor) target ws =
    if not actor.is_admin
    then err forbidden
    else (or_fail (find_user target ws.users) not_found >>= λ u.
        if not (is_set u.archived_at)
        then err bad_request
        else if not actor.is_owner && u.is_admin
        then err forbidden
        else if not actor.is_owner && not (is_user actor.id u.archived_by)
        then err forbidden
        else write_restored target u ws)
