-- ===== src/Slots/Walk/Invariant.antt =====
-- The invariant rule of the walk: what marking and withholding keep, a whole pass keeps.
use district_scheduler.Common.{
  ℕ, zero, suc, ◌+◌, ◌≤◌, ◌<◌, ◌≡◌, inl, inr, Bool, Option, List, [], ◌∷◌, arith, ltb, ltb→lt,
  Bool-cases, Option-cases,
}
use district_scheduler.Slots.Interval.{Interval}
use district_scheduler.Slots.Failure.{ok, Result-cases, >>=-eq-ok}
use district_scheduler.Slots.WallClock.{Zones}
use district_scheduler.Slots.Day.{day_length, resolve_day}
use district_scheduler.Slots.Routing.{HostAvailability}
use district_scheduler.Slots.Walk.{
  align_up, turns, withheld, offered_at, start_loop, Starts, Params, Walked, Request, free_windows,
  window_loop, host_walk, host_loop, day_loop, days, hosts_by_start,
}

module _ {ℓ} (P : Walked → Type ℓ) (p : Params) (now : ℕ)
    (keep_withheld : (t id : ℕ) (st : Walked) → t < p.min_notice → P st → P (withheld now t id st))
    (keep_offered : (t id : ℕ) (st : Walked)
      → p.min_notice ≤ t
      → t ≤ p.max_future
      → P st
      → P (offered_at t id st)) where
  start_loop_inv :
      (fuel id window_end t : ℕ) (st : Walked) → P st → P (start_loop fuel p now id window_end t st)
  unfolding start_loop
  start_loop_inv zero id window_end t st h = h
  start_loop_inv (suc fuel) id window_end t st h = elim (Bool-cases (ltb window_end (t + p.dur))) [
    | inl over ↦ rw (over, start_loop) h
    | inr fits ↦ elim (Bool-cases (ltb t p.min_notice)) [
      | inl early ↦
          rw (fits, early, start_loop)
            (start_loop_inv fuel id window_end (t + p.interval) (withheld now t id st)
              (keep_withheld t id st (ltb→lt t p.min_notice early) h))
      | inr late ↦ elim (Bool-cases (ltb p.max_future t)) [
        | inl far ↦ rw (fits, late, far, start_loop) h
        | inr near ↦
            rw (fits, late, near, start_loop)
              (start_loop_inv fuel id window_end (t + p.interval) (offered_at t id st)
                (keep_offered t id st (ground arith) (ground arith) h))
      ]
    ]
  ]

  window_loop_inv :
      (id : ℕ) (fs : List Interval) (st : Walked) → P st → P (window_loop p now id fs st)
  unfolding window_loop
  window_loop_inv id [] st h = h
  window_loop_inv id (f ∷ fs) st h =
      let t = align_up f.start p.interval in
      window_loop_inv id fs (start_loop (turns p f.end t) p now id f.end t st)
        (start_loop_inv (turns p f.end t) id f.end t st h)

  module _ (z : Zones) (apply_busy : Bool) where
    host_walk_inv :
        (d : ℕ) (h : HostAvailability) (st st' : Walked)
        → host_walk z p now apply_busy d h st ≡ ok st'
        → P st
        → P st'
    unfolding host_walk
    host_walk_inv d h st st' e v = elim (Option-cases h.location) [
      | inl l ↦ absurd (ground arith)
      | inr (loc, l) ↦ elim (Result-cases (resolve_day z loc d h.rules h.overrides)) [
        | inl (ws, r) ↦
            let fs = free_windows p apply_busy h.busy ws in
            let same : window_loop p now h.host_id fs st ≡ st' = ground arith in
            rw (← same) (window_loop_inv h.host_id fs st v)
        | inr (x, r) ↦ absurd (ground arith)
      ]
    ]

    host_loop_inv :
        (d : ℕ) (hosts : List HostAvailability) (st st' : Walked)
        → host_loop z p now apply_busy d hosts st ≡ ok st'
        → P st
        → P st'
    unfolding host_loop
    host_loop_inv d [] st st' e v = let same : st ≡ st' = cc in rw (← same) v
    host_loop_inv d (h ∷ hs) st st' e v =
        let (mid, first, rest) =
          >>=-eq-ok (host_walk z p now apply_busy d h st) (host_loop z p now apply_busy d hs) e in
        host_loop_inv d hs mid st' rest (host_walk_inv d h st mid first v)

    day_loop_inv :
        (fuel : ℕ) (hosts : List HostAvailability) (d : ℕ) (st st' : Walked)
        → day_loop z fuel p now apply_busy hosts d st ≡ ok st'
        → P st
        → P st'
    unfolding day_loop
    day_loop_inv zero hosts d st st' e v = let same : st ≡ st' = cc in rw (← same) v
    day_loop_inv (suc fuel) hosts d st st' e v = elim (Bool-cases (ltb p.date_to d)) [
      | inl past ↦ let same : st ≡ st' = ground arith in rw (← same) v
      | inr here ↦
          let (mid, first, rest) =
            >>=-eq-ok (host_loop z p now apply_busy d hosts st)
              (day_loop z fuel p now apply_busy hosts (d + day_length))
              (rw (day_loop, here) at e) in
          day_loop_inv fuel hosts (d + day_length) mid st' rest
            (host_loop_inv d hosts st mid first v)
    ]

-- What holds of empty maps, and is kept by marking a start between the notice and the horizon and by
-- withholding one below the notice, holds of the result of a pass.
pub hosts_by_start_inv {ℓ} :
    (P : Walked → Type ℓ) (z : Zones) (req : Request) (p : Params) (apply_busy : Bool)
    (below : Option Starts) (st : Walked)
    → ((t id : ℕ) (w : Walked) → t < p.min_notice → P w → P (withheld req.now t id w))
    → ((t id : ℕ) (w : Walked) → p.min_notice ≤ t → t ≤ p.max_future → P w → P (offered_at t id w))
    → P (record { per_start = []; below_notice = below })
    → hosts_by_start z req p apply_busy below ≡ ok st
    → P st
unfolding hosts_by_start
hosts_by_start_inv P z req p apply_busy below st kw ko v e =
    day_loop_inv P p req.now kw ko z apply_busy (days p) req.hosts p.date_from
      (record { per_start = []; below_notice = below }) st e v
