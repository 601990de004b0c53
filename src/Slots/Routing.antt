-- ===== src/Slots/Routing.antt =====
-- `pickHosts` of internal/slots/generate.go: which hosts a start is offered with.
pub mod Spec
use district_scheduler.Common.{
  ℕ, Bool, true, false, not, Option, none, some, List, [], ◌∷◌, ◌++◌, map, all, if◌then◌else◌, ◌==◌,
  any,
}
use district_scheduler.Slots.Interval.{Interval}
use district_scheduler.Slots.Day.{AvailabilityRule, AvailabilityOverride}

-- `EventConfig.RoutingMode`; every other text falls to the default, as "fixed" does.
pub data RoutingMode : Type 0 where
  fixed round_robin collective priority : RoutingMode

-- `HostAvailability.Role`: "required", or any other text, which counts as the rotation pool.
pub data Role : Type 0 where
  required rotation : Role

-- Host ids are compared only, and are numbers here. `location` is nil where it is `none`.
pub record HostAvailability : Type 0 where
  pub host_id : ℕ
  pub location : Option ℕ
  pub rules : List AvailabilityRule
  pub overrides : List AvailabilityOverride
  pub busy : List Interval
  pub role : Role

abbrev pub is_required : Role → Bool
is_required required = true
is_required rotation = false

abbrev pub host_ids : List HostAvailability → List ℕ
host_ids = map λ h. h.host_id

-- `available[h.HostID]`: a set of host ids, as the list of its members.
unfoldable pub is_available : List ℕ → ℕ → Bool
is_available available id = any (λ a. a == id) available

unfoldable pub pick_collective : List HostAvailability → List ℕ → List ℕ
unfolding is_available
pick_collective [] available = []
pick_collective (h ∷ hs) available =
    if all (λ g. is_available available g.host_id) (h ∷ hs) then host_ids (h ∷ hs) else []

unfoldable pub pick_priority : List HostAvailability → List ℕ → List ℕ
unfolding is_available
pick_priority [] available = []
pick_priority (h ∷ hs) available =
    let rest = pick_priority hs available in
    if is_available available h.host_id then h.host_id ∷ [] else rest

-- The first loop of "round_robin": every required host, or `none` where one of them is not free.
unfoldable pub required_hosts : List HostAvailability → List ℕ → List ℕ → Option (List ℕ)
unfolding is_available
required_hosts [] available out = some out
required_hosts (h ∷ hs) available out =
    let next = required_hosts hs available (out ++ h.host_id ∷ []) in
    let skip = required_hosts hs available out in
    if is_required h.role
    then (if not (is_available available h.host_id) then none else next)
    else skip

-- The second loop: the first host of the rotation pool that is free.
unfoldable pub rotation_host : List HostAvailability → List ℕ → Option ℕ
unfolding is_available
rotation_host [] available = none
rotation_host (h ∷ hs) available =
    let rest = rotation_host hs available in
    if is_required h.role
    then rest
    else if is_available available h.host_id
    then some h.host_id
    else rest

abbrev pub append_rotation : List ℕ → Option ℕ → List ℕ
append_rotation out none = []
append_rotation out (some id) = out ++ id ∷ []

unfoldable pub pick_round_robin : List HostAvailability → List ℕ → List ℕ
unfolding required_hosts rotation_host
pick_round_robin hosts available = elim (required_hosts hosts available []) [
  | none ↦ []
  | some out ↦ append_rotation out (rotation_host hosts available)
]

unfoldable pub pick_fixed : List HostAvailability → List ℕ → List ℕ
unfolding is_available
pick_fixed [] available = []
pick_fixed (h ∷ hs) available = if is_available available h.host_id then h.host_id ∷ [] else []

-- The empty list is the source's nil: the start is not offered.
unfoldable pub pick_hosts : List HostAvailability → List ℕ → RoutingMode → List ℕ
unfolding pick_collective pick_priority pick_round_robin pick_fixed
pick_hosts hosts available collective = pick_collective hosts available
pick_hosts hosts available priority = pick_priority hosts available
pick_hosts hosts available round_robin = pick_round_robin hosts available
pick_hosts hosts available fixed = pick_fixed hosts available
