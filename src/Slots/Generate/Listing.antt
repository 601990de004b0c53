-- ===== src/Slots/Generate/Listing.antt =====
-- How `generate` of internal/slots/generate.go lists its outputs, and what it refuses.
use district_scheduler.Common.{
  ℕ, suc, ◌<◌, ◌≡◌, refl, ◌↔◌, ◌⊎◌, inl, inr, Bool, true, false, not, ◌&&◌, Option, none, some,
  List, [], ◌∷◌, map, arith, Bool-cases, all, select,
}
use district_scheduler.Slots.Failure.{ok}
use district_scheduler.Slots.WallClock.{Zones}
use district_scheduler.Slots.Routing.{HostAvailability, is_available}
use district_scheduler.Slots.Routing.Spec.{offered}
use district_scheduler.Slots.Walk.{Params, Request, Walked, new_params, hosts_by_start}
use district_scheduler.Slots.Walk.Marks.{Distinct}
use district_scheduler.Slots.Walk.Days.{HasStart, hosts_by_start_exact}
use district_scheduler.Slots.Generate.{
  Slot, Extras, Outcome, offer, entries, check_request, check_zones, below_notice_map, is_offered,
  taken_slots, generate, without_hosts,
}
use district_scheduler.Slots.Generate.Offer.{
  ids_at, is_available-ids_at, SlotsFrom, SlotsFrom-mono, offer-SlotsFrom, offer-is_offered,
}
use district_scheduler.Slots.Generate.Outputs.{
  Ran, generate-Ran, hosts_by_start-Distinct, below_notice_map-Distinct,
}
use district_scheduler.Slots.Generate.Separation.{is_offered-taken_slots}

without_hosts-SlotsFrom :
    (n : ℕ) (ss : List Slot) → SlotsFrom n ss → SlotsFrom n (map without_hosts ss)
without_hosts-SlotsFrom n [] s = tt
without_hosts-SlotsFrom n (x ∷ ss) s = (s.0, without_hosts-SlotsFrom (suc x.start) ss s.1)

select-SlotsFrom :
    (q : Slot → Bool) (n : ℕ) (ss : List Slot) → SlotsFrom n ss → SlotsFrom n (select q ss)
select-SlotsFrom q n [] s = tt
select-SlotsFrom q n (x ∷ ss) s = elim (Bool-cases (q x)) [
  | inl e ↦ rw e (s.0, select-SlotsFrom q (suc x.start) ss s.1)
  | inr e ↦ rw e (
      SlotsFrom-mono n (suc x.start) (select q ss) (omega arith)
        (select-SlotsFrom q (suc x.start) ss s.1))
]

taken_slots-SlotsFrom :
    (n : ℕ) (free ss : List Slot) → SlotsFrom n ss → SlotsFrom n (taken_slots free ss)
unfolding taken_slots
taken_slots-SlotsFrom n free ss s =
    without_hosts-SlotsFrom n (select (λ x. not (is_offered free x.start)) ss)
      (select-SlotsFrom (λ x. not (is_offered free x.start)) n ss s)

-- Each of the three lists that `generate` returns is in the order of its starts, each start once.
pub generate_ordered :
    (z : Zones) (req : Request) (want : Extras) (res : Outcome)
    → generate z req want ≡ ok res
    → SlotsFrom 0 res.free × SlotsFrom 0 res.taken × SlotsFrom 0 res.notice_gap
generate_ordered z req want res e = (
  rw r.free (offer-SlotsFrom req p r.walked.per_start d.0),
  taken_order r.second,
  rw r.notice_gap (
      without_hosts-SlotsFrom 0 (offer req p (entries r.walked.below_notice))
        (offer-SlotsFrom req p (entries r.walked.below_notice) d.1)),
)
  where
    p : Params
    p = new_params req

    r : Ran z req want res
    r = generate-Ran z req want res e

    d : Distinct r.walked.per_start × Distinct (entries r.walked.below_notice)
    d =
        hosts_by_start-Distinct z req p true (below_notice_map req want) r.walked
          (below_notice_map-Distinct req want) r.first

    taken_order :
        ((want.taken ≡ false) × (res.taken ≡ []))
          ⊎ ((want.taken ≡ true)
              × ((unbooked : Walked) × (hosts_by_start z req p false none ≡ ok unbooked)
                  × (res.taken ≡ taken_slots res.free (offer req p unbooked.per_start))))
        → SlotsFrom 0 res.taken
    taken_order (inl (_, nothing)) = rw nothing tt
    taken_order (inr (_, (unbooked, second, exact))) = rw exact (
        taken_slots-SlotsFrom 0 res.free (offer req p unbooked.per_start) (
          offer-SlotsFrom req p unbooked.per_start
            (hosts_by_start-Distinct z req p false none unbooked tt second).0))

-- The taken starts, where they are asked for: those that are not free, and whose hosts by the second pass
-- satisfy the routing mode. A host is one of these when it has the start in a single window of the day as
-- its rules or overrides list it. These windows are not merged, unlike those that `subtract` leaves to the
-- first pass, so a start across the seam of two adjacent windows is never taken.
pub generate_taken_exact :
    (z : Zones) (req : Request) (want : Extras) (res : Outcome) (u : ℕ)
    → want.taken ≡ true
    → generate z req want ≡ ok res
    → (ids : List ℕ) × ((j : ℕ)
        → (is_available ids j ≡ true) ↔ HasStart z (new_params req) false req.hosts u j)
      × (is_offered res.taken u
          ≡ (offered ids req.hosts req.event.routing_mode && not (is_offered res.free u)))
generate_taken_exact z req want res u wanted e = taken_exact r.second
  where
    p : Params
    p = new_params req

    r : Ran z req want res
    r = generate-Ran z req want res e

    taken_exact :
        ((want.taken ≡ false) × (res.taken ≡ []))
          ⊎ ((want.taken ≡ true)
              × ((unbooked : Walked) × (hosts_by_start z req p false none ≡ ok unbooked)
                  × (res.taken ≡ taken_slots res.free (offer req p unbooked.per_start))))
        → (ids : List ℕ) × ((j : ℕ)
            → (is_available ids j ≡ true) ↔ HasStart z p false req.hosts u j)
          × (is_offered res.taken u
              ≡ (offered ids req.hosts req.event.routing_mode && not (is_offered res.free u)))
    taken_exact (inl (no_taken, _)) = absurd (ground arith)
    taken_exact (inr (_, (un, second, exact))) =
        let d = hosts_by_start-Distinct z req p false none un tt second in
        (
          ids_at u un.per_start,
          λ j.
              rw (is_available-ids_at u j un.per_start d.0)
                (hosts_by_start_exact z req p false none un u j r.interval_positive second),
          rw exact (
              rw (
                is_offered-taken_slots res.free (offer req p un.per_start) u,
                offer-is_offered req p un.per_start u d.0,
              )),
        )

abbrev pub has_zone : HostAvailability → Bool
has_zone h = elim h.location [ none ↦ false | some loc ↦ true ]

check_zones-ok : (hs : List HostAvailability) → (check_zones hs ≡ ok tt) ↔ (all has_zone hs ≡ true)
unfolding check_zones
check_zones-ok [] = (λ e. refl, λ e. refl)
check_zones-ok (h ∷ hs) = ground (arith, check_zones-ok hs)

abbrev pub is_some_zone : Option ℕ → Bool
is_some_zone none = false
is_some_zone (some loc) = true

-- A request goes past the checks exactly with a positive duration and interval, a zone of the booker and a zone of
-- every host.
pub check_request-ok :
    (req : Request)
    → (check_request req ≡ ok tt) ↔ (
        (0 < req.event.duration_minutes)
        × (0 < req.event.slot_interval_minutes)
        × (is_some_zone req.booker_zone ≡ true)
        × (all has_zone req.hosts ≡ true))
unfolding check_request
check_request-ok req =
    (λ e. ground (arith, check_zones-ok req.hosts), λ e. ground (arith, check_zones-ok req.hosts))
