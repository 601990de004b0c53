-- ===== src/Handler/Overrides/Updated.antt =====
-- The invariant of the overrides across `UpdateAvailabilityOverride` of internal/handler/override.go.
use district_scheduler.Common.{
  subst, ℕ, ◌≡◌, refl, sym, inl, inr, Bool, true, false, not, ◌&&◌, Option, none, some, List, [],
  ◌∷◌, arith, ◌==◌, if◌then◌else◌, Bool-cases, Option-cases, any, select, In, In-select,
  In-select_of, &&_left, &&_right,
}
use district_scheduler.Handler.Hours.{Text, bad_request, Reply, refused}
use district_scheduler.Handler.Overrides.{
  Reason, day_off, out_of_office, custom_hours, is_custom, Override, same_day, collides,
  proper_times, is_given, text_of,
}
use district_scheduler.Handler.Overrides.Change.{
  write_override, find_override, update_override, patch_reasoned, patched_reason, store_override,
  store_cleared, clear_customs, rewritten, OverridePatch, loaded_start, loaded_end, given_or,
  valid_if_given, times_in_order,
}
use district_scheduler.Handler.Overrides.Coherent.{
  agree, in_order, IsCoherent, select-IsCoherent, write-IsCoherent,
}

find_override-In :
    (id user : ℕ) (rows : List Override) (r : Override)
    → find_override id user rows ≡ some r
    → In r rows × (r.id ≡ id) × (r.user_id ≡ user)
unfolding find_override
find_override-In id user [] r e = absurd (cc)
find_override-In id user (s ∷ rows) r e = elim (Bool-cases (s.id == id && s.user_id == user)) [
  | inl h ↦ (inl (ground arith), ground arith, ground arith)
  | inr h ↦ let x = find_override-In id user rows r (ground arith) in (inr x.0, x.1, x.2)
]

not-not : (b : Bool) → not (not b) ≡ true → b ≡ true
not-not b h = ground arith

rewritten-same :
    (reason : Reason) (s t : Option Text) (r : Override)
    → ((rewritten reason s t r).id ≡ r.id)
      × ((rewritten reason s t r).user_id ≡ r.user_id)
      × ((rewritten reason s t r).date ≡ r.date)
rewritten-same day_off s t r = (refl, refl, refl)
rewritten-same out_of_office s t r = (refl, refl, refl)
rewritten-same custom_hours s t r = (refl, refl, refl)

-- A time that is kept was valid, and one that is given has been checked.
given_or-valid :
    (given kept : Option Text)
    → valid_if_given given ≡ true
    → valid_if_given kept ≡ true
    → valid_if_given (given_or given kept) ≡ true
given_or-valid none kept g k = k
given_or-valid (some t) kept g k = g

times_in_order-proper :
    (s t : Option Text)
    → valid_if_given s ≡ true
    → valid_if_given t ≡ true
    → times_in_order s t ≡ true
    → proper_times s t ≡ true
times_in_order-proper none t a b h = h
times_in_order-proper (some s) none a b h = absurd (ground arith)
times_in_order-proper (some s) (some t) a b h = ground arith

loaded_at-valid :
    (b : Bool) (s t : Option Text)
    → (b ≡ true → proper_times s t ≡ true)
    → (valid_if_given (if b && is_given s then s else none) ≡ true)
      × (valid_if_given (if b && is_given s then some (text_of t) else none) ≡ true)
loaded_at-valid false s t h = (refl, refl)
loaded_at-valid true none t h = (refl, refl)
loaded_at-valid true (some s) none h = absurd (ground (arith, h refl))
loaded_at-valid true (some s) (some t) h = let p = h refl in (ground (arith, p), ground (arith, p))

in_order-proper :
    (r : Override)
    → in_order r ≡ true
    → r.is_available ≡ true
    → proper_times r.start_time r.end_time ≡ true
in_order-proper r o h = ground arith

loaded-valid :
    (r : Override)
    → in_order r ≡ true
    → (valid_if_given (loaded_start r) ≡ true) × (valid_if_given (loaded_end r) ≡ true)
loaded-valid r o =
    loaded_at-valid r.is_available r.start_time r.end_time (λ h. in_order-proper r o h)

rewritten-in_order :
    (req : OverridePatch) (reason : Reason) (r : Override)
    → in_order r ≡ true
    → valid_if_given req.start_time
        && (valid_if_given req.end_time
            && not (
                is_custom reason
                && not (
                    times_in_order
                      (given_or req.start_time (loaded_start r))
                      (given_or req.end_time (loaded_end r)))))
      ≡ true
    → in_order (
        rewritten reason
          (given_or req.start_time (loaded_start r))
          (given_or req.end_time (loaded_end r))
          r)
      ≡ true
rewritten-in_order req day_off r o h = refl
rewritten-in_order req out_of_office r o h = refl
rewritten-in_order req custom_hours r o h =
    let (u, v) = loaded-valid r o in
    let s = given_or req.start_time (loaded_start r) in
    let t = given_or req.end_time (loaded_end r) in
    let a = &&_left (valid_if_given req.start_time) _ h in
    let rest = &&_right (valid_if_given req.start_time) _ h in
    let b = &&_left (valid_if_given req.end_time) _ rest in
    let d = &&_right (valid_if_given req.end_time) _ rest in
    times_in_order-proper s t (given_or-valid req.start_time (loaded_start r) a u)
      (given_or-valid req.end_time (loaded_end r) b v) (not-not (times_in_order s t) d)

three_guards {ℓ} :
    {A : Type 0} (P : A → Type ℓ) (a b d : Bool) (x y : A)
    → P x
    → (a && (b && not d) ≡ true → P y)
    → P (if not a then x else if not b then x else if d then x else y)
three_guards P false b d x y p q = p
three_guards P true false d x y p q = p
three_guards P true true true x y p q = p
three_guards P true true false x y p q = q refl

module _ (rows : List Override) (c : IsCoherent rows) (current : Override)
    (there : In current rows) where
  clear_customs-IsCoherent :
      (row : Override) → IsCoherent (clear_customs current.id current.user_id row rows)
  clear_customs-IsCoherent row = elim (Bool-cases row.is_available) [
    | inl h ↦ rw h c
    | inr h ↦ rw h (select-IsCoherent _ rows c)
  ]

  clear_customs-keeps :
      (row : Override) → In current (clear_customs current.id current.user_id row rows)
  clear_customs-keeps row = elim (Bool-cases row.is_available) [
    | inl h ↦ rw h there
    | inr h ↦ rw h (In-select_of _ current rows there (ground arith))
  ]

  -- What the row becomes agrees with all that is left of the others.
  cleared-agree :
      (row : Override)
      → row.id ≡ current.id
      → row.user_id ≡ current.user_id
      → row.date ≡ current.date
      → (r : Override) → In r (clear_customs current.id current.user_id row rows)
      → (r.id == current.id) ≡ false
      → agree row r ≡ true
  cleared-agree row a b d r i differs = elim (Bool-cases row.is_available) [
    | inl h ↦
        let j : In r rows = subst (λ rs. In r rs) (ground arith) i in
        ground (arith, c.agreed current r there j)
    | inr h ↦
        let p : Override → Bool = λ s.
          not
            (same_day current.user_id row.date s && (not (s.id == current.id) && s.is_available)) in
        let j : In r (select p rows) = subst (λ rs. In r rs) (ground arith) i in
        let (old, left) = In-select p r rows j in ground (arith, left, c.agreed current r there old)
  ]

  store_cleared-IsCoherent :
      (row : Override) (cleared : List Override)
      → IsCoherent cleared
      → IsCoherent (write_override current.id current.user_id row cleared)
      → IsCoherent (store_cleared current.id current.user_id row cleared).0
  store_cleared-IsCoherent row cleared k w =
      elim (Bool-cases (any (λ r. not (r.id == current.id) && collides row r) cleared)) [
        | inl h ↦ rw h k
        | inr h ↦ rw h w
      ]

  store_override-IsCoherent :
      (row : Override)
      → row.id ≡ current.id
      → row.user_id ≡ current.user_id
      → row.date ≡ current.date
      → in_order row ≡ true
      → IsCoherent (store_override current.id current.user_id row rows).0
  store_override-IsCoherent row a b d o =
      let kept = clear_customs-IsCoherent row in
      store_cleared-IsCoherent row (clear_customs current.id current.user_id row rows) kept (
        write-IsCoherent (clear_customs current.id current.user_id row rows) kept current row
          (clear_customs-keeps row) a (cleared-agree row a b d) o)

  patch_reasoned-IsCoherent :
      (req : OverridePatch) (reason : Option Reason)
      → IsCoherent (patch_reasoned current.user_id current.id req current reason rows).0
  patch_reasoned-IsCoherent req none = c
  patch_reasoned-IsCoherent req (some reason) =
      let s = given_or req.start_time (loaded_start current) in
      let t = given_or req.end_time (loaded_end current) in
      let row = rewritten reason s t current in
      three_guards (λ (x : List Override × Reply). IsCoherent x.0) (valid_if_given req.start_time)
        (valid_if_given req.end_time) (is_custom reason && not (times_in_order s t))
        (rows, refused bad_request) (store_override current.id current.user_id row rows) c
        λ h.
          let (a, b, d) = rewritten-same reason s t current in
          store_override-IsCoherent row a b d
            (rewritten-in_order req reason current (c.ordered current there) h)

pub update_override-IsCoherent :
    (user id : ℕ) (body : Option OverridePatch) (rows : List Override)
    → IsCoherent rows
    → IsCoherent (update_override user id body rows).0
unfolding update_override
update_override-IsCoherent user id none rows c = c
update_override-IsCoherent user id (some req) rows c =
    elim (Option-cases (find_override id user rows)) [
      | inl e ↦ rw e c
      | inr (r, e) ↦
          let (there, a, b) = find_override-In id user rows r e in
          rw (e, sym a, sym b)
            (patch_reasoned-IsCoherent rows c r there req
              (patched_reason req.reason req.is_available r.reason))
    ]
