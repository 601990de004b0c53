-- ===== src/Slots/Generate.antt =====
-- The engine's entry points: `offer`, `generate`, `Generate`, `GenerateWithTaken` and
-- `GenerateDetailed` of internal/slots/generate.go. The booker's zone only displays a slot's times,
-- so a slot holds the instants.
pub mod Offer
pub mod Outputs
pub mod Separation
pub mod Listing
pub mod Totality
use district_scheduler.Common.{
  ℕ, zero, suc, ◌+◌, Bool, true, false, not, ◌&&◌, Option, none, some, List, [], ◌∷◌, map, any,
  select, ltb, leb, ◌==◌, if◌then◌else◌,
}
use district_scheduler.Slots.Failure.{
  Error, duration_not_positive, interval_not_positive, booker_zone_missing, host_zone_missing,
  Result, ok, err, ◌>>=◌,
}
use district_scheduler.Slots.WallClock.{Zones}
use district_scheduler.Slots.Routing.{HostAvailability, RoutingMode, pick_hosts}
use district_scheduler.Slots.Walk.{Starts, Request, Params, Walked, new_params, hosts_by_start}

pub record Slot : Type 0 where
  pub start : ℕ
  pub end : ℕ
  pub host_ids : List ℕ

pub record Extras : Type 0 where
  pub taken : Bool
  pub notice_gap : Bool

-- `Result` of the source.
pub record Outcome : Type 0 where
  pub free : List Slot
  pub taken : List Slot
  pub notice_gap : List Slot

-- `sort.Slice` on the starts of the map, each with its hosts; no two are equal.
unfoldable pub insert_start : ℕ × List ℕ → Starts → Starts
insert_start e [] = e ∷ []
insert_start e (x ∷ xs) = if leb e.0 x.0 then e ∷ x ∷ xs else x ∷ insert_start e xs

unfoldable pub sort_starts : Starts → Starts
unfolding insert_start
sort_starts [] = []
sort_starts (e ∷ m) = insert_start e (sort_starts m)

abbrev pub cons_slot : Params → ℕ → List ℕ → List Slot → List Slot
cons_slot p t [] rest = rest
cons_slot p t (i ∷ is) rest = record { start = t; end = t + p.dur; host_ids = i ∷ is } ∷ rest

-- The loop of `offer`; a start that gets no host is passed over.
unfoldable pub offer_loop : List HostAvailability → RoutingMode → Params → Starts → List Slot
unfolding pick_hosts
offer_loop hosts mode p [] = []
offer_loop hosts mode p ((t, available) ∷ m) =
    cons_slot p t (pick_hosts hosts available mode) (offer_loop hosts mode p m)

unfoldable pub offer : Request → Params → Starts → List Slot
unfolding offer_loop sort_starts
offer req p per_start = offer_loop req.hosts req.event.routing_mode p (sort_starts per_start)

-- A nil map has no starts.
abbrev pub entries : Option Starts → Starts
entries none = []
entries (some m) = m

abbrev pub without_hosts : Slot → Slot
without_hosts s = record { start = s.start; end = s.end; host_ids = [] }

unfoldable pub check_zones : List HostAvailability → Result (Unit {0})
check_zones [] = ok tt
check_zones (h ∷ hs) =
    let rest = check_zones hs in
    elim h.location [ none ↦ err (host_zone_missing h.host_id) | some loc ↦ rest ]

-- The checks that open `generate`.
unfoldable pub check_request : Request → Result (Unit {0})
unfolding check_zones
check_request req =
    if req.event.duration_minutes == 0
    then err duration_not_positive
    else if req.event.slot_interval_minutes == 0
    then err interval_not_positive
    else elim req.booker_zone [ none ↦ err booker_zone_missing | some loc ↦ check_zones req.hosts ]

-- Starts are collected below the notice only where that is asked for and there is a notice.
abbrev pub below_notice_map : Request → Extras → Option Starts
below_notice_map req want =
    if want.notice_gap && ltb 0 req.event.min_notice_minutes then some [] else none

unfoldable pub is_offered : List Slot → ℕ → Bool
is_offered slots t = any (λ s. s.start == t) slots

-- The slots of the second pass that the first one does not have.
unfoldable pub taken_slots : List Slot → List Slot → List Slot
unfolding is_offered
taken_slots free unbooked = map without_hosts (select (λ s. not (is_offered free s.start)) unbooked)

-- What `generate` has after its first pass.
unfoldable pub first_pass : Request → Params → Walked → Outcome
unfolding offer
first_pass req p walked = record {
  free = offer req p walked.per_start;
  taken = [];
  notice_gap = map without_hosts (offer req p (entries walked.below_notice));
}

module _ (z : Zones) where
  -- The second pass, over the same days with every busy list ignored.
  unfoldable pub with_taken : Request → Params → Outcome → Result Outcome
  unfolding offer taken_slots hosts_by_start
  with_taken req p res = hosts_by_start z req p false none >>= λ unbooked.
      ok (record res { taken = taken_slots res.free (offer req p unbooked.per_start) })

  unfoldable pub generate : Request → Extras → Result Outcome
  unfolding check_request new_params hosts_by_start first_pass with_taken
  generate req want = do
    _ ← check_request req
    let p = new_params req
    walked ← hosts_by_start z req p true (below_notice_map req want)
    let res = first_pass req p walked
    if want.taken then with_taken req p res else ok res
