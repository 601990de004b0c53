-- ===== src/Slots/Generate/Outputs.antt =====
-- What `generate` of internal/slots/generate.go returns, output by output.
use district_scheduler.Common.{
  ℕ, ◌<◌, ◌≡◌, ◌↔◌, ◌⊎◌, inl, inr, Bool, true, false, Option, none, some, List, [], map, arith,
  Bool-cases,
}
use district_scheduler.Slots.Failure.{ok, Result-cases}
use district_scheduler.Slots.WallClock.{Zones}
use district_scheduler.Slots.Routing.{is_available}
use district_scheduler.Slots.Routing.Spec.{offered}
use district_scheduler.Slots.Walk.{
  Starts, Params, Request, Walked, new_params, hosts_by_start, withheld, offered_at, withhold,
}
use district_scheduler.Slots.Walk.Marks.{Distinct, mark-Distinct}
use district_scheduler.Slots.Walk.Days.{HasStart, hosts_by_start_exact}
use district_scheduler.Slots.Walk.Invariant.{hosts_by_start_inv}
use district_scheduler.Slots.Generate.{
  Extras, Outcome, offer, entries, check_request, below_notice_map, is_offered, taken_slots,
  with_taken, first_pass, generate, without_hosts,
}
use district_scheduler.Slots.Generate.Offer.{ids_at, is_available-ids_at, offer-is_offered}

-- A request that passes the checks has a slot interval.
check_request-interval :
    (req : Request) (u : Unit {0}) → check_request req ≡ ok u → 0 < (new_params req).interval
unfolding check_request new_params
check_request-interval req u e = ground arith

-- How a run of `generate` that returns `res` went: its first pass, and the second where there is one.
pub record Ran (z : Zones) (req : Request) (want : Extras) (res : Outcome) : Type 0 where
  pub walked : Walked
  pub interval_positive : 0 < (new_params req).interval
  pub first : hosts_by_start z req (new_params req) true (below_notice_map req want) ≡ ok walked
  pub free : res.free ≡ offer req (new_params req) walked.per_start
  pub notice_gap :
      res.notice_gap ≡ map without_hosts (offer req (new_params req) (entries walked.below_notice))
  pub second :
      ((want.taken ≡ false) × (res.taken ≡ []))
      ⊎ ((want.taken ≡ true)
          × ((unbooked : Walked) × (hosts_by_start z req (new_params req) false none ≡ ok unbooked)
              × (res.taken ≡ taken_slots res.free (offer req (new_params req) unbooked.per_start))))

pub generate-Ran :
    (z : Zones) (req : Request) (want : Extras) (res : Outcome)
    → generate z req want ≡ ok res
    → Ran z req want res
unfolding generate with_taken first_pass
generate-Ran z req want res e = elim (Result-cases (check_request req)) [
  | inr (x, c) ↦ absurd (ground arith)
  | inl (u, c) ↦
      elim (Result-cases (hosts_by_start z req (new_params req) true (below_notice_map req want))) [
        | inr (x, w) ↦ absurd (ground arith)
        | inl (st, w) ↦ elim (Bool-cases want.taken) [
          | inr no_taken ↦ record {
            walked = st;
            interval_positive = check_request-interval req u c;
            first = w;
            free = ground arith;
            notice_gap = ground arith;
            second = inl (no_taken, ground arith);
          }
          | inl taken ↦ elim (Result-cases (hosts_by_start z req (new_params req) false none)) [
            | inr (x, v) ↦ absurd (ground arith)
            | inl (un, v) ↦ record {
              walked = st;
              interval_positive = check_request-interval req u c;
              first = w;
              free = ground arith;
              notice_gap = ground arith;
              second = inr (taken, (un, v, ground arith));
            }
          ]
        ]
      ]
]

entries-Distinct-withhold :
    (now t id : ℕ) (o : Option Starts)
    → Distinct (entries o)
    → Distinct (entries (withhold now t id o))
entries-Distinct-withhold now t id none d = d
entries-Distinct-withhold now t id (some m) d = ground (arith, mark-Distinct t id m d)

-- Both maps of a pass have at most one entry for each start.
abbrev BothDistinct : Walked → Type 0
BothDistinct w = Distinct w.per_start × Distinct (entries w.below_notice)

pub hosts_by_start-Distinct :
    (z : Zones) (req : Request) (p : Params) (apply_busy : Bool) (below : Option Starts)
    (st : Walked)
    → Distinct (entries below)
    → hosts_by_start z req p apply_busy below ≡ ok st
    → BothDistinct st
unfolding withheld offered_at
hosts_by_start-Distinct z req p apply_busy below st d e =
    hosts_by_start_inv BothDistinct z req p apply_busy below st
      (λ t id w l v. (v.0, entries-Distinct-withhold req.now t id w.below_notice v.1))
      (λ t id w l k v. (mark-Distinct t id w.per_start v.0, v.1)) (tt, d) e

pub below_notice_map-Distinct :
    (req : Request) (want : Extras) → Distinct (entries (below_notice_map req want))
below_notice_map-Distinct req want = ground arith

-- The bookable starts: whoever runs `generate` with success gets a start among the free slots exactly
-- when the hosts that have it (on a day of the range, in a window of that day less the buffered busy
-- times, on the grid, within notice and horizon) satisfy the routing mode.
pub generate_free_exact :
    (z : Zones) (req : Request) (want : Extras) (res : Outcome) (u : ℕ)
    → generate z req want ≡ ok res
    → (ids : List ℕ) × ((j : ℕ)
        → (is_available ids j ≡ true) ↔ HasStart z (new_params req) true req.hosts u j)
      × (is_offered res.free u ≡ offered ids req.hosts req.event.routing_mode)
generate_free_exact z req want res u e =
    let r = generate-Ran z req want res e in
    let d =
      hosts_by_start-Distinct z req (new_params req) true (below_notice_map req want) r.walked
        (below_notice_map-Distinct req want) r.first in
    (
      ids_at u r.walked.per_start,
      λ j. rw (is_available-ids_at u j r.walked.per_start d.0) (
          hosts_by_start_exact z req (new_params req) true (below_notice_map req want) r.walked u j
            r.interval_positive r.first),
      rw r.free (offer-is_offered req (new_params req) r.walked.per_start u d.0),
    )
