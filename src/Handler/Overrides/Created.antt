-- ===== src/Handler/Overrides/Created.antt =====
-- The invariant of the overrides across `CreateAvailabilityOverride` of internal/handler/override.go.
use district_scheduler.Common.{
  subst, ℕ, zero, suc, ◌-◌, ◌≡◌, refl, inl, inr, Bool, false, not, ◌&&◌, ◌||◌, Option, none, some,
  List, [], ◌∷◌, ◌++◌, arith, ltb, ◌==◌, Bool-cases, Option-cases, any, select, In-select,
  not-any_of_In,
}
use district_scheduler.Handler.Overrides.{
  Reason, day_off, out_of_office, custom_hours, is_custom, Override, same_day, collides, is_refused,
  clear_date, blocked_row, block_date, block_dates, proper_times, custom_row, replied,
  create_custom, create_block, create_reasoned, create_dated, create_override, OverrideRequest,
  DateText, empty, unreadable, on, reason_of, no_range,
}
use district_scheduler.Handler.Overrides.Coherent.{IsCoherent, select-IsCoherent, append-IsCoherent}

module _ (user : ℕ) where
  block_date-IsCoherent :
      (id date : ℕ) (reason : Reason) (group : Option ℕ) (rows : List Override)
      {after : List Override}
      → is_custom reason ≡ false
      → IsCoherent rows
      → block_date id user date reason group rows ≡ some after
      → IsCoherent after
  unfolding block_date clear_date
  block_date-IsCoherent id date reason group rows {after} k c e =
      let row = blocked_row id user date reason group in
      let cleared = select (λ r. not (same_day user date r)) rows in
      elim (Bool-cases (is_refused row cleared)) [
        | inl h ↦ absurd (ground arith)
        | inr h ↦
            let is : cleared ++ row ∷ [] ≡ after = ground arith in
            subst IsCoherent is (
              append-IsCoherent row cleared (select-IsCoherent _ rows c)
                (λ r i. ground (
                  arith,
                  not-any_of_In (λ s. s.id == row.id || collides row s) r cleared h i,
                  In-select (λ s. not (same_day user date s)) r rows i,
                ))
                (ground (arith, k)))
      ]

  block_dates-IsCoherent :
      (days : ℕ) (uid : ℕ → ℕ) (date : ℕ) (reason : Reason) (group : Option ℕ)
      (rows : List Override) {after : List Override}
      → is_custom reason ≡ false
      → IsCoherent rows
      → block_dates days uid user date reason group rows ≡ some after
      → IsCoherent after
  unfolding block_dates
  block_dates-IsCoherent zero uid date reason group rows k c e = subst IsCoherent (ground arith) c
  block_dates-IsCoherent (suc days) uid date reason group rows k c e =
      elim (Option-cases (block_date (uid 0) user date reason group rows)) [
        | inl h ↦ absurd (ground arith)
        | inr (mid, h) ↦
            block_dates-IsCoherent days (λ n. uid (suc n)) (suc date) reason group mid k
              (block_date-IsCoherent (uid 0) date reason group rows k c h) (ground arith)
      ]

  replied-IsCoherent :
      (rows : List Override) (r : Option (List Override))
      → IsCoherent rows
      → ((after : List Override) → r ≡ some after → IsCoherent after)
      → IsCoherent (replied rows r).0
  replied-IsCoherent rows none c h = c
  replied-IsCoherent rows (some after) c h = h after refl

  -- Custom hours are inserted exactly where every guard lets them through.
  custom_passes : ℕ → ℕ → OverrideRequest → List Override → Bool
  custom_passes id date req rows =
      proper_times req.start_time req.end_time
      && (not (any (λ r. same_day user date r && not r.is_available) rows)
          && (no_range req.end_date
              && not (is_refused (custom_row id user date req.start_time req.end_time) rows)))

  create_custom-IsCoherent :
      (id date : ℕ) (req : OverrideRequest) (rows : List Override)
      → IsCoherent rows
      → IsCoherent (create_custom id user date req rows).0
  unfolding custom_passes
  create_custom-IsCoherent id date req rows c =
      let row = custom_row id user date req.start_time req.end_time in
      elim (Bool-cases (custom_passes id date req rows)) [
        | inl h ↦
            let is : rows ++ row ∷ [] ≡ (create_custom id user date req rows).0 = ground arith in
            subst IsCoherent is (
              append-IsCoherent row rows c
                (λ r i. ground (
                  arith,
                  not-any_of_In (λ s. s.id == row.id || collides row s) r rows (ground arith) i,
                  not-any_of_In (λ s. same_day user date s && not s.is_available) r rows
                      (ground arith) i,
                ))
                (ground arith))
        | inr h ↦
            let is : rows ≡ (create_custom id user date req rows).0 = ground arith in
            subst IsCoherent is c
      ]

  create_block-IsCoherent :
      (uid : ℕ → ℕ) (date : ℕ) (end_date : Option DateText) (reason : Reason) (rows : List Override)
      → is_custom reason ≡ false
      → IsCoherent rows
      → IsCoherent (create_block uid user date end_date reason rows).0
  create_block-IsCoherent uid date none reason rows k c =
      replied-IsCoherent rows _ c λ after. block_date-IsCoherent (uid 0) date reason none rows k c
  create_block-IsCoherent uid date (some empty) reason rows k c =
      replied-IsCoherent rows _ c λ after. block_date-IsCoherent (uid 0) date reason none rows k c
  create_block-IsCoherent uid date (some unreadable) reason rows k c = c
  create_block-IsCoherent uid date (some (on last)) reason rows k c =
      elim (Bool-cases (ltb last date)) [
        | inl h ↦ rw h c
        | inr h ↦ elim (Bool-cases (ltb 366 (last - date))) [
          | inl far ↦ rw (h, far) c
          | inr near ↦
              rw (h, near)
                (replied-IsCoherent rows _ c λ after.
                  block_dates-IsCoherent (suc (last - date)) (λ n. uid (suc n)) date reason
                    (some (uid 0)) rows k c)
        ]
      ]

  create_reasoned-IsCoherent :
      (uid : ℕ → ℕ) (date : ℕ) (req : OverrideRequest) (reason : Option Reason)
      (rows : List Override)
      → IsCoherent rows
      → IsCoherent (create_reasoned uid user date req reason rows).0
  create_reasoned-IsCoherent uid date req none rows c = c
  create_reasoned-IsCoherent uid date req (some custom_hours) rows c =
      create_custom-IsCoherent (uid 0) date req rows c
  create_reasoned-IsCoherent uid date req (some day_off) rows c =
      create_block-IsCoherent uid date req.end_date day_off rows refl c
  create_reasoned-IsCoherent uid date req (some out_of_office) rows c =
      create_block-IsCoherent uid date req.end_date out_of_office rows refl c

  create_dated-IsCoherent :
      (uid : ℕ → ℕ) (req : OverrideRequest) (date : DateText) (rows : List Override)
      → IsCoherent rows
      → IsCoherent (create_dated uid user req date rows).0
  create_dated-IsCoherent uid req empty rows c = c
  create_dated-IsCoherent uid req unreadable rows c = c
  create_dated-IsCoherent uid req (on date) rows c =
      create_reasoned-IsCoherent uid date req (reason_of req.reason req.is_available) rows c

  pub create_override-IsCoherent :
      (uid : ℕ → ℕ) (body : Option OverrideRequest) (rows : List Override)
      → IsCoherent rows
      → IsCoherent (create_override uid user body rows).0
  unfolding create_override
  create_override-IsCoherent uid none rows c = c
  create_override-IsCoherent uid (some req) rows c = create_dated-IsCoherent uid req req.date rows c
