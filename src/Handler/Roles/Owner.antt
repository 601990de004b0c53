-- ===== src/Handler/Roles/Owner.antt =====
-- The one owner of a workspace, across the handlers of internal/handler/roles.go and archive.go.
use district_scheduler.Common.{
  &&_right, &&_left, subst, ℕ, ◌≡◌, refl, ◌∙◌, inl, inr, Bool, true, false, not, ◌&&◌, Option, none,
  some, List, [], ◌∷◌, arith, ◌==◌, Bool-cases,
}
use district_scheduler.Common.Fallible.{Result-cases, Fallible, ok, err}
use district_scheduler.Handler.Roles.{
  User, Workspace, Actor, RoleText, Refusal, is_set, is_live_owner, find_user, update_user,
  another_owner, write_role, set_user_role, demote, promote, transfer_ownership, archive_user,
  restore_user,
}
use district_scheduler.Handler.Roles.Rows.{
  count, HasKey, count-update, count_split, count_none, count_found, count-update_found,
  count-update_key, find_user-update,
}
use district_scheduler.Handler.Roles.Served.{
  write_role-eq-ok, set_role-eq-ok, archive-eq-ok, restore-eq-ok, transfer-eq-ok,
}

unfoldable pub live_owners : List User → ℕ
live_owners us = count is_live_owner us

pub data Request : Type 0 where
  set_role : ℕ → Option RoleText → Request
  transfer : ℕ → Request
  archive : ℕ → ℕ → Request
  restore : ℕ → Request

abbrev pub serve : Option Actor → Request → Workspace → Fallible Refusal Workspace
serve actor (set_role target body) ws = set_user_role actor target body ws
serve actor (transfer target) ws = transfer_ownership actor target ws
serve actor (archive target now) ws = archive_user actor target now ws
serve actor (restore target) ws = restore_user actor target ws

-- A refused request leaves the tables as they were.
abbrev pub kept_or : Workspace → Fallible Refusal Workspace → Workspace
kept_or ws (ok after) = after
kept_or ws (err _) = ws

-- Requests in their order, each with the caller that its session had when it was looked up.
unfoldable pub serve_all : List (Option Actor × Request) → Workspace → Workspace
serve_all [] ws = ws
serve_all ((actor, r) ∷ rs) ws = serve_all rs (kept_or ws (serve actor r ws))

abbrev pub is_live : Option User → Bool
is_live none = true
is_live (some u) = not (is_set u.archived_at)

-- Is a transfer not to an archived user?
abbrev pub is_proper : Request → Workspace → Bool
is_proper (set_role target body) ws = true
is_proper (transfer target) ws = is_live (find_user target ws.users)
is_proper (archive target now) ws = true
is_proper (restore target) ws = true

unfoldable pub all_proper : List (Option Actor × Request) → Workspace → Bool
all_proper [] ws = true
all_proper ((actor, r) ∷ rs) ws = is_proper r ws && all_proper rs (kept_or ws (serve actor r ws))

-- What the requests keep: the key, and the one live owner.
pub record IsOwned (us : List User) : Type 0 where
  pub key : HasKey us
  pub one : live_owners us ≡ 1

abbrev pub users_after : Workspace → Fallible Refusal Workspace → List User
users_after ws r = (kept_or ws r).users

module _ (ws : Workspace) (o : IsOwned ws.users) (t : ℕ) where
  module _ {v : User} (found : find_user t ws.users ≡ some v) where
    -- An update of the row that is found, which leaves it as live an owner as it was.
    update-IsOwned :
        (f : User → User)
        → ((u : User) → (f u).id ≡ u.id)
        → is_live_owner (f v) ≡ is_live_owner v
        → IsOwned (update_user t f ws.users)
    unfolding live_owners
    update-IsOwned f h e = record {
      key = λ k. rw (count-update_key t f ws.users h k) (o.key k);
      one =
          let c = count-update_found is_live_owner t f ws.users v (o.key t) found in
          let d : count is_live_owner ws.users ≡ 1 = o.one in ground (arith, c, d, e);
    }

    -- The index refuses to restore an archived owner beside the live one.
    restored_owner :
        is_set v.archived_at ≡ true → another_owner t ws.users ≡ false → v.is_owner ≡ false
    unfolding live_owners another_owner
    restored_owner a h =
        let c = count_found is_live_owner t ws.users v (o.key t) found in
        let d = count_split is_live_owner t ws.users in
        let e = count_none (λ u. not (u.id == t) && is_live_owner u) ws.users h in
        let one : count is_live_owner ws.users ≡ 1 = o.one in
        elim (Bool-cases v.is_owner) [
          | inl owner ↦ absurd (ground (arith, c, d, e, one))
          | inr plain ↦ plain
        ]

  write_role-IsOwned : (b : Bool) → IsOwned (users_after ws (write_role b t ws))
  write_role-IsOwned b = elim (Result-cases (write_role b t ws)) [
    | inl (after, e) ↦
        let s = write_role-eq-ok ws t b e in
        rw (e, s.rows) (update-IsOwned s.found _ (λ u. refl) refl)
    | inr (r, e) ↦ rw e o
  ]

  set_role-IsOwned :
      (actor : Option Actor) (body : Option RoleText)
      → IsOwned (users_after ws (set_user_role actor t body ws))
  set_role-IsOwned none body = unfold set_user_role in o
  set_role-IsOwned (some a) body = elim (Result-cases (set_user_role (some a) t body ws)) [
    | inl (after, e) ↦
        let (b, _, h) = set_role-eq-ok ws t a body e in
        rw e (subst (λ r. IsOwned (users_after ws r)) h (write_role-IsOwned b))
    | inr (r, e) ↦ rw e o
  ]

  archive-IsOwned :
      (actor : Option Actor) (now : ℕ) → IsOwned (users_after ws (archive_user actor t now ws))
  unfolding archive_user
  archive-IsOwned none now = o
  archive-IsOwned (some a) now = elim (Result-cases (archive_user (some a) t now ws)) [
    | inl (after, e) ↦
        let s = archive-eq-ok ws t a now e in
        rw (e, s.rows) (update-IsOwned s.found _ (λ u. refl) (ground (arith, s.may_row)))
    | inr (r, e) ↦ rw e o
  ]

  restore-IsOwned : (actor : Option Actor) → IsOwned (users_after ws (restore_user actor t ws))
  unfolding restore_user
  restore-IsOwned none = o
  restore-IsOwned (some a) = elim (Result-cases (restore_user (some a) t ws)) [
    | inl (after, e) ↦
        let s = restore-eq-ok ws t a e in
        let free = λ (q : another_owner t ws.users ≡ false).
          restored_owner s.found (ground (arith, s.may_row)) q in
        let plain : s.row.is_owner ≡ false = elim (Bool-cases (another_owner t ws.users)) [
          | inl held ↦ ground (arith, s.may_row, held)
          | inr q ↦ free q
        ] in
        rw (e, s.rows) (update-IsOwned s.found _ (λ u. refl) (ground (arith, plain)))
    | inr (r, e) ↦ rw e o
  ]

  -- A promotion to a live user leaves that user the one live owner.
  promote-IsOwned :
      (actor : ℕ) (v : User)
      → (t == actor) ≡ false
      → find_user t ws.users ≡ some v
      → is_set v.archived_at ≡ false
      → another_owner t (demote actor ws.users) ≡ false
      → IsOwned (promote t (demote actor ws.users))
  unfolding live_owners another_owner demote promote
  promote-IsOwned actor v d found live h =
      let off : User → User = λ u. record u { is_owner = false } in
      let on : User → User = λ u. record u { is_owner = true; is_admin = true } in
      let us = update_user actor off ws.users in
      let key : HasKey us = λ k. rw (count-update_key actor off ws.users (λ u. refl) k) (o.key k) in
      let there : find_user t us ≡ some v =
        find_user-update actor t off ws.users d (λ u. refl) ∙ found in
      record {
        key = λ k. rw (count-update_key t on us (λ u. refl) k) (key k);
        one =
            let c = count-update is_live_owner t on us in
            let e = count_found (λ u. is_live_owner (on u)) t us v (key t) there in
            let z = count_none (λ u. not (u.id == t) && is_live_owner u) us h in
            ground (arith, c, e, z);
      }

  transfer-IsOwned :
      (actor : Option Actor)
      → is_live (find_user t ws.users) ≡ true
      → IsOwned (users_after ws (transfer_ownership actor t ws))
  transfer-IsOwned none h = unfold transfer_ownership in o
  transfer-IsOwned (some a) h = elim (Result-cases (transfer_ownership (some a) t ws)) [
    | inl (after, e) ↦
        let s = transfer-eq-ok ws t a e in
        let live : is_set s.row.archived_at ≡ false = ground (arith, h, s.found) in
        rw (e, s.rows)
          (promote-IsOwned a.id s.row s.differs s.found live (ground (arith, s.free, live)))
    | inr (r, e) ↦ rw e o
  ]

serve-IsOwned :
    (ws : Workspace)
    → IsOwned ws.users
    → (actor : Option Actor) (r : Request) → is_proper r ws ≡ true
    → IsOwned (users_after ws (serve actor r ws))
serve-IsOwned ws o actor (set_role target body) h = set_role-IsOwned ws o target actor body
serve-IsOwned ws o actor (transfer target) h = transfer-IsOwned ws o target actor h
serve-IsOwned ws o actor (archive target now) h = archive-IsOwned ws o target actor now
serve-IsOwned ws o actor (restore target) h = restore-IsOwned ws o target actor

-- A workspace whose users have distinct ids, one of them its one live owner, has exactly one live owner
-- and distinct ids after any requests, whatever their callers were when their sessions were looked up,
-- provided that no transfer is to a user who is archived by then.
pub one_owner :
    (rs : List (Option Actor × Request)) (ws : Workspace)
    → IsOwned ws.users
    → all_proper rs ws ≡ true
    → IsOwned (serve_all rs ws).users
unfolding serve_all all_proper
one_owner [] ws o h = o
one_owner ((actor, r) ∷ rs) ws o h =
    one_owner rs (kept_or ws (serve actor r ws))
      (serve-IsOwned ws o actor r (&&_left (is_proper r ws) _ h)) (&&_right (is_proper r ws) _ h)
