-- ===== src/Slots/Walk/Days.antt =====
-- What a whole pass of `hostsByStart` in internal/slots/generate.go marks.
use district_scheduler.Common.{
  ℕ, zero, suc, ◌+◌, ◌*◌, ◌<◌, ◌≡◌, refl, sym, ◌∙◌, ◌↔◌, inl, inr, Bool, true, false, ◌&&◌, ◌||◌,
  Option, none, some, List, [], ◌∷◌, arith, ltb, leb, ◌==◌, if◌then◌else◌, ==_iff, ==_refl,
  Bool-cases, Option-cases, any, In, any_of_In, In-of_any, &&_left, &&_right,
}
use district_scheduler.Slots.Interval.{Interval}
use district_scheduler.Slots.Failure.{Result, ok, err, Result-cases, >>=-eq-ok}
use district_scheduler.Slots.WallClock.{Zones}
use district_scheduler.Slots.Day.{day_length, resolve_day}
use district_scheduler.Slots.Routing.{HostAvailability}
use district_scheduler.Slots.Walk.{
  Starts, Params, Walked, Request, free_windows, host_walk, host_loop, day_loop, days,
  hosts_by_start,
}
use district_scheduler.Slots.Walk.Marks.{marked}
use district_scheduler.Slots.Walk.Loop.{in_windows, marked-window_loop, reached, reached_step}

abbrev windows_of : Result (List Interval) → List Interval
windows_of (ok ws) = ws
windows_of (err e) = []

-- The days that the outer loop takes, from `d` up to `last`.
abbrev pub walked_days : ℕ → ℕ → ℕ → List ℕ
walked_days zero last d = []
walked_days (suc fuel) last d =
    let rest = walked_days fuel last (d + day_length) in if ltb last d then [] else d ∷ rest

marked_empty : (u j : ℕ) → marked u j [] ≡ false
unfolding marked
marked_empty u j = refl

module _ (z : Zones) where
  -- The windows of a host on the day `d`, as the pass walks them.
  abbrev pub walked_windows : Params → Bool → ℕ → HostAvailability → Option ℕ → List Interval
  walked_windows p apply_busy d h none = []
  walked_windows p apply_busy d h (some loc) =
      free_windows p apply_busy h.busy (windows_of (resolve_day z loc d h.rules h.overrides))

  abbrev pub host_has : Params → Bool → ℕ → HostAvailability → ℕ → Bool
  host_has p apply_busy d h u = in_windows p (walked_windows p apply_busy d h h.location) u

  marked-host_walk :
      (p : Params) (now : ℕ) (apply_busy : Bool) (d : ℕ) (h : HostAvailability) (st st' : Walked)
      (u j : ℕ)
      → 0 < p.interval
      → host_walk z p now apply_busy d h st ≡ ok st'
      → marked u j st'.per_start
        ≡ (marked u j st.per_start || (host_has p apply_busy d h u && h.host_id == j))
  unfolding host_walk
  marked-host_walk p now apply_busy d h st st' u j i e = elim (Option-cases h.location) [
    | inl l ↦ absurd (ground arith)
    | inr (loc, l) ↦ elim (Result-cases (resolve_day z loc d h.rules h.overrides)) [
      | inl (ws, r) ↦
          ground (
            arith,
            marked-window_loop p now h.host_id (free_windows p apply_busy h.busy ws) st u j i,
          )
      | inr (x, r) ↦ absurd (ground arith)
    ]
  ]

  abbrev pub hosts_have : Params → Bool → ℕ → List HostAvailability → ℕ → ℕ → Bool
  hosts_have p apply_busy d hosts u j =
      any (λ h. host_has p apply_busy d h u && h.host_id == j) hosts

  marked-host_loop :
      (p : Params) (now : ℕ) (apply_busy : Bool) (d : ℕ) (hosts : List HostAvailability)
      (st st' : Walked) (u j : ℕ)
      → 0 < p.interval
      → host_loop z p now apply_busy d hosts st ≡ ok st'
      → marked u j st'.per_start ≡ (marked u j st.per_start || hosts_have p apply_busy d hosts u j)
  unfolding host_loop
  marked-host_loop p now apply_busy d [] st st' u j i e = ground arith
  marked-host_loop p now apply_busy d (h ∷ hs) st st' u j i e =
      let (mid, first, rest) =
        >>=-eq-ok (host_walk z p now apply_busy d h st) (host_loop z p now apply_busy d hs) e in
      ground (
        arith,
        marked-host_walk p now apply_busy d h st mid u j i first,
        marked-host_loop p now apply_busy d hs mid st' u j i rest,
      )

  marked-day_loop :
      (fuel : ℕ) (p : Params) (now : ℕ) (apply_busy : Bool) (hosts : List HostAvailability) (d : ℕ)
      (st st' : Walked) (u j : ℕ)
      → 0 < p.interval
      → day_loop z fuel p now apply_busy hosts d st ≡ ok st'
      → marked u j st'.per_start ≡ (
          marked u j st.per_start
          || any (λ e. hosts_have p apply_busy e hosts u j) (walked_days fuel p.date_to d))
  unfolding day_loop
  marked-day_loop zero p now apply_busy hosts d st st' u j i e = ground arith
  marked-day_loop (suc fuel) p now apply_busy hosts d st st' u j i e =
      elim (Bool-cases (ltb p.date_to d)) [
        | inl past ↦ ground arith
        | inr here ↦
            let (mid, first, rest) =
              >>=-eq-ok (host_loop z p now apply_busy d hosts st)
                (day_loop z fuel p now apply_busy hosts (d + day_length))
                (rw (day_loop, here) at e) in
            ground (
              arith,
              marked-host_loop p now apply_busy d hosts st mid u j i first,
              marked-day_loop fuel p now apply_busy hosts (d + day_length) mid st' u j i rest,
            )
      ]

-- Midnight of each day of the range, and no other instant, is taken.
pub walked_days_lem :
    (fuel last d e : ℕ)
    → last < d + fuel * day_length
    → any (λ x. x == e) (walked_days fuel last d) ≡ (reached day_length d e && leb e last)
walked_days_lem zero last d e f = ground arith
walked_days_lem (suc fuel) last d e f = ground (
  arith,
  reached_step day_length d e (omega arith),
  walked_days_lem fuel last (d + day_length) e (omega arith),
)

days_enough : (p : Params) → p.date_to < p.date_from + days p * day_length
days_enough p = omega arith

In-walked_days :
    (p : Params) (d : ℕ)
    → In d (walked_days (days p) p.date_to p.date_from)
    → (reached day_length p.date_from d && leb d p.date_to) ≡ true
In-walked_days p d m =
    sym (walked_days_lem (days p) p.date_to p.date_from d (days_enough p))
    ∙ any_of_In (λ x. x == d) d (walked_days (days p) p.date_to p.date_from) m (==_refl d)

walked_days-In :
    (p : Params) (d : ℕ)
    → (reached day_length p.date_from d && leb d p.date_to) ≡ true
    → In d (walked_days (days p) p.date_to p.date_from)
walked_days-In p d h =
    let (e, m, q) =
      In-of_any (λ x. x == d) (walked_days (days p) p.date_to p.date_from)
        (walked_days_lem (days p) p.date_to p.date_from d (days_enough p) ∙ h) in
    let same : e ≡ d = (==_iff e d).0 q in rw same at m

module _ (z : Zones) where
  -- The host is free at `u` for the whole event: on a day of the range, in a window of that day as
  -- the pass sees it, at a turn of the loop, no earlier than the notice and no later than the horizon.
  abbrev pub HasStart : Params → Bool → List HostAvailability → ℕ → ℕ → Type 0
  HasStart p apply_busy hosts u j =
      (d : ℕ) × (h : HostAvailability) × ((reached day_length p.date_from d && leb d p.date_to)
        ≡ true)
      × In h hosts
      × (h.host_id ≡ j)
      × (host_has z p apply_busy d h u ≡ true)

  -- For a positive interval, a pass that succeeds marks a host at a start exactly when the host has
  -- that start: on a day of the range, in a window of that day as the pass sees it, on the grid
  -- from the aligned start of the window, with room for the event, within notice and horizon.
  pub hosts_by_start_exact :
      (req : Request) (p : Params) (apply_busy : Bool) (below : Option Starts) (st : Walked)
      (u j : ℕ)
      → 0 < p.interval
      → hosts_by_start z req p apply_busy below ≡ ok st
      → (marked u j st.per_start ≡ true) ↔ HasStart p apply_busy req.hosts u j
  unfolding hosts_by_start
  hosts_by_start_exact req p apply_busy below st u j i e = (has, marks)
    where
      found :
          marked u j st.per_start
          ≡ any
              (λ d. hosts_have z p apply_busy d req.hosts u j)
              (walked_days (days p) p.date_to p.date_from)
      found = ground (
        arith,
        marked-day_loop z (days p) p req.now apply_busy req.hosts p.date_from
            (record { per_start = []; below_notice = below }) st u j i e,
        marked_empty u j,
      )

      has : marked u j st.per_start ≡ true → HasStart p apply_busy req.hosts u j
      has m =
          let (d, l, q) =
            In-of_any (λ e. hosts_have z p apply_busy e req.hosts u j)
              (walked_days (days p) p.date_to p.date_from) (sym found ∙ m) in
          let (h, k, r) =
            In-of_any (λ h. host_has z p apply_busy d h u && h.host_id == j) req.hosts q in
          (
            d,
            h,
            In-walked_days p d l,
            k,
            (==_iff h.host_id j).0 (&&_right (host_has z p apply_busy d h u) (h.host_id == j) r),
            &&_left (host_has z p apply_busy d h u) (h.host_id == j) r,
          )

      marks : HasStart p apply_busy req.hosts u j → marked u j st.per_start ≡ true
      marks (d, h, r, k, same, f) =
          found
          ∙ any_of_In (λ e. hosts_have z p apply_busy e req.hosts u j) d
              (walked_days (days p) p.date_to p.date_from) (walked_days-In p d r)
              (any_of_In (λ g. host_has z p apply_busy d g u && g.host_id == j) h req.hosts k
                (ground arith))
