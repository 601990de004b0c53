-- ===== src/Handler/Roles/Served.antt =====
-- What the handlers of internal/handler/roles.go and archive.go have checked when they succeed.
use district_scheduler.Common.{
  ℕ, ◌≡◌, inl, inr, Bool, true, false, not, ◌&&◌, ◌||◌, Option, none, some, arith, ◌==◌,
  Option-cases,
}
use district_scheduler.Common.Fallible.{ok}
use district_scheduler.Handler.Roles.{
  User, Workspace, Actor, RoleText, admin, member, other, is_set, find_user, update_user,
  another_owner, write_role, set_user_role, demote, promote, transfer_ownership, archive_user,
  restore_user,
}

-- What a handler that succeeds has found, and the rows that it leaves.
pub record Served (ws after : Workspace) (t : ℕ) (may : User → Bool) (f : User → User)
    : Type 0 where
  pub row : User
  pub found : find_user t ws.users ≡ some row
  pub may_row : may row ≡ true
  pub rows : after.users ≡ update_user t f ws.users

module _ (ws : Workspace) (t : ℕ) {after : Workspace} where
  pub write_role-eq-ok :
      (b : Bool)
      → write_role b t ws ≡ ok after
      → Served ws after t (λ u. not u.is_owner) (λ u. record u { is_admin = b })
  write_role-eq-ok b h = elim (Option-cases (find_user t ws.users)) [
    | inl e ↦ absurd (ground arith)
    | inr (v, e) ↦ record { row = v; found = e; may_row = ground arith; rows = ground arith }
  ]

  pub set_role-eq-ok :
      (a : Actor) (body : Option RoleText)
      → set_user_role (some a) t body ws ≡ ok after
      → (b : Bool) × (a.is_owner ≡ true) × (write_role b t ws ≡ ok after)
  unfolding set_user_role
  set_role-eq-ok a none h = absurd (ground arith)
  set_role-eq-ok a (some other) h = absurd (ground arith)
  set_role-eq-ok a (some admin) h = (true, ground arith, ground arith)
  set_role-eq-ok a (some member) h = (false, ground arith, ground arith)

  pub archive-eq-ok :
      (a : Actor) (now : ℕ)
      → archive_user (some a) t now ws ≡ ok after
      → Served ws after t
          (λ u. not u.is_owner && not (is_set u.archived_at))
          (λ u. record u { archived_at = some now; archived_by = some a.id })
  unfolding archive_user
  archive-eq-ok a now h = elim (Option-cases (find_user t ws.users)) [
    | inl e ↦ absurd (ground arith)
    | inr (v, e) ↦ record { row = v; found = e; may_row = ground arith; rows = ground arith }
  ]

  pub restore-eq-ok :
      (a : Actor)
      → restore_user (some a) t ws ≡ ok after
      → Served ws after t
          (λ u.
            is_set u.archived_at
            && (not (u.is_owner && another_owner t ws.users) && (a.is_owner || not u.is_admin)))
          (λ u. record u { archived_at = none; archived_by = none })
  unfolding restore_user
  restore-eq-ok a h = elim (Option-cases (find_user t ws.users)) [
    | inl e ↦ absurd (ground arith)
    | inr (v, e) ↦ record { row = v; found = e; may_row = ground arith; rows = ground arith }
  ]

-- What a transfer that succeeds has found.
pub record Transferred (ws after : Workspace) (a : Actor) (t : ℕ) : Type 0 where
  pub row : User
  pub found : find_user t ws.users ≡ some row
  pub by_owner : a.is_owner ≡ true
  pub differs : (t == a.id) ≡ false
  pub free : not (is_set row.archived_at) && another_owner t (demote a.id ws.users) ≡ false
  pub rows : after.users ≡ promote t (demote a.id ws.users)

pub transfer-eq-ok :
    (ws : Workspace) (t : ℕ) {after : Workspace} (a : Actor)
    → transfer_ownership (some a) t ws ≡ ok after
    → Transferred ws after a t
unfolding transfer_ownership
transfer-eq-ok ws t a h = elim (Option-cases (find_user t ws.users)) [
  | inl e ↦ absurd (ground arith)
  | inr (v, e) ↦ record {
    row = v;
    found = e;
    by_owner = ground arith;
    differs = ground arith;
    free = ground arith;
    rows = ground arith;
  }
]
