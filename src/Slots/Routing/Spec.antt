-- ===== src/Slots/Routing/Spec.antt =====
-- What `pickHosts` of internal/slots/generate.go promises in each routing mode.
use mathlib.Core.List.{append_assoc, append-nil}
use district_scheduler.Common.{
  In-append, inl, inr, Bool-cases, In, inr, ℕ, Bool, true, false, not, ◌&&◌, ◌||◌, ◌≡◌, refl, sym,
  ap, Option, none, some, List, [], ◌∷◌, ◌++◌, all, any, select, if◌then◌else◌, arith,
}
use district_scheduler.Slots.Routing.{
  pick_fixed, pick_collective, pick_hosts, RoutingMode, fixed, round_robin, collective, priority,
  HostAvailability, is_required, host_ids, is_available, pick_priority, required_hosts,
  rotation_host, pick_round_robin, append_rotation,
}

abbrev pub some_id : List ℕ → Bool
some_id [] = false
some_id (i ∷ is) = true

abbrev is_some : Option ℕ → Bool
is_some none = false
is_some (some i) = true

some_id-snoc : (xs : List ℕ) (i : ℕ) → some_id (xs ++ i ∷ []) ≡ true
some_id-snoc [] i = refl
some_id-snoc (x ∷ xs) i = refl

some_id-append_rotation :
    (out : List ℕ) (o : Option ℕ) → some_id (append_rotation out o) ≡ is_some o
some_id-append_rotation out none = refl
some_id-append_rotation out (some i) = some_id-snoc out i

module _ (available : List ℕ) where
  abbrev free : HostAvailability → Bool
  free h = is_available available h.host_id

  abbrev fills_seat : HostAvailability → Bool
  fills_seat h = not (is_required h.role) && free h

  abbrev pub seat_kept : HostAvailability → Bool
  seat_kept h = not (is_required h.role) || free h

  abbrev first_free : List HostAvailability → Bool
  first_free [] = false
  first_free (h ∷ hs) = free h

  abbrev some_host : List HostAvailability → Bool
  some_host [] = false
  some_host (h ∷ hs) = true

  -- When a start is worth offering, mode by mode: collective needs every host, and one at least;
  -- priority any host; round robin all required hosts and one of the rotation; fixed the first host.
  abbrev pub offered : List HostAvailability → RoutingMode → Bool
  offered hosts collective = some_host hosts && all free hosts
  offered hosts priority = any free hosts
  offered hosts round_robin = all seat_kept hosts && any fills_seat hosts
  offered hosts fixed = first_free hosts

  priority_offers :
      (hs : List HostAvailability) → some_id (pick_priority hs available) ≡ any free hs
  unfolding pick_priority
  priority_offers [] = refl
  priority_offers (h ∷ hs) = ground (arith, priority_offers hs)

  rotation_offers :
      (hs : List HostAvailability) → is_some (rotation_host hs available) ≡ any fills_seat hs
  unfolding rotation_host
  rotation_offers [] = refl
  rotation_offers (h ∷ hs) = ground (arith, rotation_offers hs)

  -- The required hosts in order, unless one of them is busy.
  required_hosts_lem :
      (hs : List HostAvailability) (out : List ℕ)
      → required_hosts hs available out ≡ (
          if all seat_kept hs
          then some (out ++ host_ids (select (λ h. is_required h.role) hs))
          else none)
  unfolding required_hosts
  required_hosts_lem [] out = ap some (sym (append-nil out))
  required_hosts_lem (h ∷ hs) out = ground (
    arith,
    required_hosts_lem hs (out ++ h.host_id ∷ []),
    required_hosts_lem hs out,
    append_assoc out (h.host_id ∷ []) (host_ids (select (λ g. is_required g.role) hs)),
  )

  -- Round robin offers the required hosts, all of them, with one host of the rotation behind them:
  -- the first that is free. It offers nobody where a required host is busy or no rotation host is
  -- free.
  pub pick_round_robin_lem :
      (hs : List HostAvailability)
      → pick_round_robin hs available ≡ (
          if all seat_kept hs
          then append_rotation
              (host_ids (select (λ h. is_required h.role) hs))
              (rotation_host hs available)
          else [])
  unfolding pick_round_robin
  pick_round_robin_lem hs = ground (arith, required_hosts_lem hs [])

  round_robin_offers :
      (hs : List HostAvailability)
      → some_id (pick_round_robin hs available) ≡ (all seat_kept hs && any fills_seat hs)
  round_robin_offers hs = ground (
    arith,
    pick_round_robin_lem hs,
    rotation_offers hs,
    some_id-append_rotation (host_ids (select (λ h. is_required h.role) hs))
        (rotation_host hs available),
  )

  -- In every mode a start gets a host exactly when the mode can be satisfied.
  pub some_id-pick_hosts :
      (hosts : List HostAvailability) (mode : RoutingMode)
      → some_id (pick_hosts hosts available mode) ≡ offered hosts mode
  unfolding pick_hosts pick_collective pick_fixed
  some_id-pick_hosts [] collective = refl
  some_id-pick_hosts (h ∷ hs) collective = ground arith
  some_id-pick_hosts hosts priority = priority_offers hosts
  some_id-pick_hosts hosts round_robin = round_robin_offers hosts
  some_id-pick_hosts [] fixed = refl
  some_id-pick_hosts (h ∷ hs) fixed = ground arith

  abbrev pub Known : ℕ → List HostAvailability → Type 0
  Known i hosts = (h : HostAvailability) × In h hosts × (h.host_id ≡ i) × (free h ≡ true)

  Known-later :
      (i : ℕ) (h : HostAvailability) (hs : List HostAvailability) → Known i hs → Known i (h ∷ hs)
  Known-later i h hs (g, m, e, f) = (g, inr m, e, f)

  Known-all :
      (i : ℕ) (hs : List HostAvailability) → all free hs ≡ true → In i (host_ids hs) → Known i hs
  Known-all i [] a m = elim m [ ]
  Known-all i (h ∷ hs) a (inl e) = (h, inl refl, sym e, ground arith)
  Known-all i (h ∷ hs) a (inr m) = Known-later i h hs (Known-all i hs (ground arith) m)

  Known-required :
      (i : ℕ) (hs : List HostAvailability)
      → all seat_kept hs ≡ true
      → In i (host_ids (select (λ h. is_required h.role) hs))
      → Known i hs
  Known-required i [] a m = elim m [ ]
  Known-required i (h ∷ hs) a m = elim (Bool-cases (is_required h.role)) [
    | inl e ↦ required_case e (rw e at m) (Known-required i hs (ground arith))
    | inr e ↦ Known-later i h hs (Known-required i hs (ground arith) (rw e at m))
  ]
    where
      required_case :
          is_required h.role ≡ true
          → In i (h.host_id ∷ host_ids (select (λ g. is_required g.role) hs))
          → (In i (host_ids (select (λ g. is_required g.role) hs)) → Known i hs)
          → Known i (h ∷ hs)
      required_case e (inl q) later = (h, inl refl, sym q, ground arith)
      required_case e (inr r) later = Known-later i h hs (later r)

  Known-rotation :
      (i : ℕ) (hs : List HostAvailability) → rotation_host hs available ≡ some i → Known i hs
  unfolding rotation_host
  Known-rotation i [] e = absurd (cc)
  Known-rotation i (h ∷ hs) e = elim (Bool-cases (fills_seat h)) [
    | inl f ↦ (h, inl refl, ground arith, ground arith)
    | inr f ↦ Known-later i h hs (Known-rotation i hs (ground arith))
  ]

  Known-priority :
      (i : ℕ) (hs : List HostAvailability) → In i (pick_priority hs available) → Known i hs
  unfolding pick_priority
  Known-priority i [] m = elim m [ ]
  Known-priority i (h ∷ hs) m = elim (Bool-cases (free h)) [
    | inl f ↦ (h, inl refl, ground arith, f)
    | inr f ↦ Known-later i h hs (Known-priority i hs (rw (f, pick_priority) at m))
  ]

  Known-append_rotation :
      (i : ℕ) (hs : List HostAvailability) (o : Option ℕ)
      → all seat_kept hs ≡ true
      → rotation_host hs available ≡ o
      → In i (append_rotation (host_ids (select (λ h. is_required h.role) hs)) o)
      → Known i hs
  Known-append_rotation i hs none a e m = elim m [ ]
  Known-append_rotation i hs (some j) a e m =
      elim (In-append i (host_ids (select (λ h. is_required h.role) hs)) (j ∷ []) m) [
        | inl r ↦ Known-required i hs a r
        | inr (inl q) ↦ Known-rotation i hs (rw q e)
        | inr (inr n) ↦ absurd n
      ]

  Known-round_robin :
      (i : ℕ) (hs : List HostAvailability) → In i (pick_round_robin hs available) → Known i hs
  Known-round_robin i hs m = elim (Bool-cases (all seat_kept hs)) [
    | inl a ↦
        Known-append_rotation i hs (rotation_host hs available) a refl
          (rw (pick_round_robin_lem hs, a) at m)
    | inr a ↦ absurd (rw (pick_round_robin_lem hs, a) at m)
  ]

  Known-fixed :
      (i : ℕ) (h : HostAvailability) (hs : List HostAvailability)
      → free h ≡ true
      → In i (h.host_id ∷ [])
      → Known i (h ∷ hs)
  Known-fixed i h hs f (inl q) = (h, inl refl, sym q, f)
  Known-fixed i h hs f (inr n) = elim n [ ]

  -- Whoever a start is offered with is one of the event's hosts, and free then.
  pub pick_hosts-Known :
      (i : ℕ) (hosts : List HostAvailability) (mode : RoutingMode)
      → In i (pick_hosts hosts available mode)
      → Known i hosts
  unfolding pick_hosts pick_collective pick_fixed
  pick_hosts-Known i [] collective m = elim m [ ]
  pick_hosts-Known i (h ∷ hs) collective m = elim (Bool-cases (all free (h ∷ hs))) [
    | inl a ↦ Known-all i (h ∷ hs) a (rw a at m)
    | inr a ↦ absurd (rw a at m)
  ]
  pick_hosts-Known i hosts priority m = Known-priority i hosts m
  pick_hosts-Known i hosts round_robin m = Known-round_robin i hosts m
  pick_hosts-Known i [] fixed m = elim m [ ]
  pick_hosts-Known i (h ∷ hs) fixed m = elim (Bool-cases (free h)) [
    | inl f ↦ Known-fixed i h hs f (rw f at m)
    | inr f ↦ absurd (rw f at m)
  ]
