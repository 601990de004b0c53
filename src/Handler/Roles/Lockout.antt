-- ===== src/Handler/Roles/Lockout.antt =====
-- A workspace that no session can own any more: internal/handler/roles.go, archive.go and the look-up of a
-- session in internal/handler/auth.go.
use district_scheduler.Common.{
  &&_left, ℕ, ◌+◌, ◌≤◌, ◌≡◌, refl, ◌∙◌, inl, inr, Bool, true, false, not, ◌&&◌, Option, none, some,
  List, [], ◌∷◌, arith, ◌==◌, if◌then◌else◌, Bool-cases, Option-cases,
}
use district_scheduler.Common.Fallible.{Result-cases, ok, err}
use district_scheduler.Handler.Roles.{
  User, Workspace, Actor, forbidden, is_set, is_live_owner, find_user, update_user, set_user_role,
  demote, promote, transfer_ownership, archive_user, restore_user,
}
use district_scheduler.Handler.Roles.Rows.{
  count, HasKey, count-update, count_split, count_le, count_found, count-update_found,
  count-update_key, find_user-update, find_user-id,
}
use district_scheduler.Handler.Roles.Served.{
  set_role-eq-ok, archive-eq-ok, restore-eq-ok, transfer-eq-ok,
}
use district_scheduler.Handler.Roles.Owner.{
  Request, set_role, transfer, archive, restore, serve, kept_or, users_after, live_owners,
}

abbrev pub actor_of : User → Option Actor
actor_of u =
    if is_set u.archived_at
    then none
    else some (record { id = u.id; is_admin = u.is_admin; is_owner = u.is_owner })

abbrev pub actor_found : Option User → Option Actor
actor_found none = none
actor_found (some u) = actor_of u

-- The caller of a session of the user: `… WHERE s.id = ? AND s.expires_at > ? AND u.archived_at IS NULL`.
unfoldable pub session : ℕ → Workspace → Option Actor
unfolding find_user
session id ws = actor_found (find_user id ws.users)

-- Requests in their order, each from a session of the user with the id.
unfoldable pub serve_sessions : List (ℕ × Request) → Workspace → Workspace
serve_sessions [] ws = ws
serve_sessions ((id, r) ∷ rs) ws = serve_sessions rs (kept_or ws (serve (session id ws) r ws))

abbrev is_free_owner : User → Bool
is_free_owner u = u.is_owner && not (u.is_admin && is_set u.archived_at)

serve-none : (r : Request) (ws : Workspace) → serve none r ws ≡ err forbidden
unfolding set_user_role transfer_ownership archive_user restore_user
serve-none (set_role t body) ws = refl
serve-none (transfer t) ws = refl
serve-none (archive t now) ws = refl
serve-none (restore t) ws = refl

record IsLocked (us : List User) : Type 0 where
  key : HasKey us
  none_free : count is_free_owner us ≡ 0

module _ (ws : Workspace) (l : IsLocked ws.users) where
  found_locked : (t : ℕ) (v : User) → find_user t ws.users ≡ some v → is_free_owner v ≡ false
  found_locked t v e =
      let c = count_found is_free_owner t ws.users v (l.key t) e in
      let d = count_split is_free_owner t ws.users in
      let z = l.none_free in
      elim (Bool-cases (is_free_owner v)) [
        | inl h ↦ absurd (ground (arith, c, d, z, h))
        | inr h ↦ h
      ]

  session_plain : (id : ℕ) {a : Actor} → session id ws ≡ some a → a.is_owner ≡ false
  unfolding session
  session_plain id e = elim (Option-cases (find_user id ws.users)) [
    | inl none_found ↦ absurd (ground arith)
    | inr (v, found) ↦ ground (arith, found_locked id v found)
  ]

  module _ (t : ℕ) {v : User} (found : find_user t ws.users ≡ some v) where
    update-IsLocked :
        (f : User → User)
        → ((u : User) → (f u).id ≡ u.id)
        → is_free_owner (f v) ≡ false
        → IsLocked (update_user t f ws.users)
    update-IsLocked f h e = record {
      key = λ k. rw (count-update_key t f ws.users h k) (l.key k);
      none_free =
          let c = count-update_found is_free_owner t f ws.users v (l.key t) found in
          let z = l.none_free in ground (arith, c, z, e, found_locked t v found);
    }

  serve-some-IsLocked :
      (a : Actor) (r : Request)
      → a.is_owner ≡ false
      → IsLocked (users_after ws (serve (some a) r ws))
  serve-some-IsLocked a (set_role t body) plain =
      elim (Result-cases (set_user_role (some a) t body ws)) [
        | inl (after, e) ↦ let (b, owner, w) = set_role-eq-ok ws t a body e in absurd (ground arith)
        | inr (r, e) ↦ rw e l
      ]
  serve-some-IsLocked a (transfer t) plain =
      elim (Result-cases (transfer_ownership (some a) t ws)) [
        | inl (after, e) ↦
            let s = transfer-eq-ok ws t a e in let owner = s.by_owner in absurd (ground arith)
        | inr (r, e) ↦ rw e l
      ]
  serve-some-IsLocked a (archive t now) plain =
      elim (Result-cases (archive_user (some a) t now ws)) [
        | inl (after, e) ↦
            let s = archive-eq-ok ws t a now e in
            rw (e, s.rows) (update-IsLocked t s.found _ (λ u. refl) (ground (arith, s.may_row)))
        | inr (r, e) ↦ rw e l
      ]
  serve-some-IsLocked a (restore t) plain = elim (Result-cases (restore_user (some a) t ws)) [
    | inl (after, e) ↦
        let s = restore-eq-ok ws t a e in
        let kept = found_locked t s.row s.found in
        rw (e, s.rows)
          (update-IsLocked t s.found _ (λ u. refl) (ground (arith, s.may_row, plain, kept)))
    | inr (r, e) ↦ rw e l
  ]

  serve-IsLocked : (id : ℕ) (r : Request) → IsLocked (users_after ws (serve (session id ws) r ws))
  serve-IsLocked id r = elim (Option-cases (session id ws)) [
    | inl e ↦ rw (e, serve-none r ws) l
    | inr (a, e) ↦ rw e (serve-some-IsLocked a r (session_plain id e))
  ]

serve_sessions-IsLocked :
    (rs : List (ℕ × Request)) (ws : Workspace)
    → IsLocked ws.users
    → IsLocked (serve_sessions rs ws).users
unfolding serve_sessions
serve_sessions-IsLocked [] ws l = l
serve_sessions-IsLocked ((id, r) ∷ rs) ws l =
    serve_sessions-IsLocked rs (kept_or ws (serve (session id ws) r ws)) (serve-IsLocked ws l id r)

live_owners-locked : (us : List User) → IsLocked us → live_owners us ≡ 0
unfolding live_owners
live_owners-locked us l =
    let le = count_le is_live_owner is_free_owner us (λ u h. ground arith) in
    let z = l.none_free in omega arith

demoted :
    (id : ℕ) (us : List User) (u : User)
    → count (λ w. w.id == id) us ≤ 1
    → find_user id us ≡ some u
    → u.is_owner ≡ true
    → count (λ w. w.is_owner) (update_user id (λ w. record w { is_owner = false }) us) + 1
      ≡ count (λ w. w.is_owner) us
demoted id us u k e h =
    let c = count-update_found (λ w. w.is_owner) id (λ w. record w { is_owner = false }) us u k e in
    ground (arith, c, h)

promoted :
    (id : ℕ) (us : List User) (v : User)
    → count (λ w. w.id == id) us ≤ 1
    → find_user id us ≡ some v
    → is_set v.archived_at ≡ true
    → count (λ w. w.id == id && is_free_owner (record w { is_owner = true; is_admin = true })) us
      ≡ 0
promoted id us v k e h =
    let c =
      count_found (λ w. is_free_owner (record w { is_owner = true; is_admin = true })) id us v k
        e in
    ground (arith, c, h)

promote-IsLocked :
    (owner target : ℕ) (us : List User) (u v : User)
    → HasKey us
    → count (λ w. w.is_owner) us ≡ 1
    → (target == owner) ≡ false
    → find_user owner us ≡ some u
    → find_user target us ≡ some v
    → u.is_owner ≡ true
    → is_set v.archived_at ≡ true
    → IsLocked (promote target (demote owner us))
unfolding demote promote
promote-IsLocked owner target us u v key one differs found there is_owner gone =
    let off : User → User = λ w. record w { is_owner = false } in
    let on : User → User = λ w. record w { is_owner = true; is_admin = true } in
    let rows = update_user owner off us in
    let rows_key : HasKey rows = λ k. rw (count-update_key owner off us (λ w. refl) k) (key k) in
    let still : find_user target rows ≡ some v =
      find_user-update owner target off us differs (λ w. refl) ∙ there in
    record {
      key = λ k. rw (count-update_key target on rows (λ w. refl) k) (rows_key k);
      none_free = omega (
        arith,
        one,
        demoted owner us u (key owner) found is_owner,
        count-update is_free_owner target on rows,
        promoted target rows v (rows_key target) still gone,
        count_le (λ w. not (w.id == target) && is_free_owner w) (λ w. w.is_owner) rows
            (λ w h. ground arith),
      );
    }

-- Where users have distinct ids and the one owner hands the workspace to a user who is archived, the transfer
-- succeeds, and from then on the workspace has no live owner, whatever role changes, transfers, archivings
-- and restorations the sessions of its users ask for.
pub transfer-locks_out :
    (owner target : ℕ) (rs : List (ℕ × Request)) (ws : Workspace) (u v : User)
    → HasKey ws.users
    → count (λ w. w.is_owner) ws.users ≡ 1
    → (target == owner) ≡ false
    → find_user owner ws.users ≡ some u
    → find_user target ws.users ≡ some v
    → u.is_owner && not (is_set u.archived_at) ≡ true
    → is_set v.archived_at ≡ true
    → (after : Workspace) × (transfer_ownership (session owner ws) target ws ≡ ok after)
      × (live_owners (serve_sessions rs after).users ≡ 0)
unfolding session transfer_ownership
transfer-locks_out owner target rs ws u v key one differs found there live gone =
    let after : Workspace = record ws { users = promote target (demote owner ws.users) } in
    (
      after,
      rw found (ground (arith, find_user-id owner ws.users u found)),
      live_owners-locked (serve_sessions rs after).users (
          serve_sessions-IsLocked rs after (
            promote-IsLocked owner target ws.users u v key one differs found there
              (&&_left u.is_owner _ live) gone)),
    )
