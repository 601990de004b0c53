-- ===== src/Slots/Generate/Offer.antt =====
-- What `offer` of internal/slots/generate.go makes of the map of starts.
use district_scheduler.Common.{
  ℕ, suc, ◌≤◌, ◌≡◌, refl, sym, ◌∙◌, inl, inr, Bool, true, false, not, ◌&&◌, ◌||◌, List, [], ◌∷◌,
  arith, ◌==◌, if◌then◌else◌, ==_iff, Bool-cases, any,
}
use district_scheduler.Slots.Routing.{
  is_required, RoutingMode, fixed, round_robin, collective, priority, HostAvailability,
  is_available, pick_hosts,
}
use district_scheduler.Slots.Routing.Spec.{offered, some_id, some_id-pick_hosts}
use district_scheduler.Slots.Walk.{Starts, Params, Request}
use district_scheduler.Slots.Walk.Marks.{marked, has_start, Distinct}
use district_scheduler.Slots.Generate.{
  Slot, insert_start, sort_starts, cons_slot, offer_loop, offer, is_offered,
}

-- The hosts that are marked at a start.
unfoldable pub ids_at : ℕ → Starts → List ℕ
ids_at t [] = []
ids_at t ((s, ids) ∷ m) = let rest = ids_at t m in if s == t then ids else rest

-- A start that no entry has, has no hosts.
not-marked : (t id : ℕ) (m : Starts) → has_start t m ≡ false → marked t id m ≡ false
unfolding marked
not-marked t id [] h = refl
not-marked t id ((s, ids) ∷ m) h = ground (arith, not-marked t id m)

pub is_available-ids_at :
    (t id : ℕ) (m : Starts) → Distinct m → is_available (ids_at t m) id ≡ marked t id m
unfolding is_available ids_at marked
is_available-ids_at t id [] d = refl
is_available-ids_at t id ((s, ids) ∷ m) d =
    ground (arith, not-marked t id m, is_available-ids_at t id m d.1)

insert_start-has_start :
    (t : ℕ) (e : ℕ × List ℕ) (m : Starts)
    → has_start t (insert_start e m) ≡ (e.0 == t || has_start t m)
unfolding insert_start
insert_start-has_start t e [] = refl
insert_start-has_start t e (x ∷ m) = ground (arith, insert_start-has_start t e m)

sort_starts-has_start : (t : ℕ) (m : Starts) → has_start t (sort_starts m) ≡ has_start t m
unfolding sort_starts
sort_starts-has_start t [] = refl
sort_starts-has_start t (e ∷ m) =
    ground (arith, insert_start-has_start t e (sort_starts m), sort_starts-has_start t m)

insert_start-ids_at :
    (t : ℕ) (e : ℕ × List ℕ) (m : Starts)
    → has_start e.0 m ≡ false
    → ids_at t (insert_start e m) ≡ (if e.0 == t then e.1 else ids_at t m)
unfolding insert_start ids_at
insert_start-ids_at t e [] h = refl
insert_start-ids_at t e (x ∷ m) h = ground (arith, insert_start-ids_at t e m)

sort_starts-ids_at : (t : ℕ) (m : Starts) → Distinct m → ids_at t (sort_starts m) ≡ ids_at t m
unfolding sort_starts ids_at
sort_starts-ids_at t [] d = refl
sort_starts-ids_at t ((s, ids) ∷ m) d = ground (
  arith,
  insert_start-ids_at t (s, ids) (sort_starts m),
  sort_starts-has_start s m,
  sort_starts-ids_at t m d.1,
)

insert_start-Distinct :
    (e : ℕ × List ℕ) (m : Starts)
    → has_start e.0 m ≡ false
    → Distinct m
    → Distinct (insert_start e m)
unfolding insert_start
insert_start-Distinct e [] h d = (refl, tt)
insert_start-Distinct e (x ∷ m) h d =
    ground (arith, insert_start-has_start x.0 e m, insert_start-Distinct e m)

sort_starts-Distinct : (m : Starts) → Distinct m → Distinct (sort_starts m)
unfolding sort_starts
sort_starts-Distinct [] d = tt
sort_starts-Distinct ((s, ids) ∷ m) d =
    insert_start-Distinct (s, ids) (sort_starts m) (sort_starts-has_start s m ∙ d.0)
      (sort_starts-Distinct m d.1)

-- The starts rise strictly along the list, from `n` on.
abbrev EntriesFrom : ℕ → Starts → Type 0
EntriesFrom n [] = Unit {0}
EntriesFrom n (e ∷ m) = (n ≤ e.0) × EntriesFrom (suc e.0) m

abbrev pub SlotsFrom : ℕ → List Slot → Type 0
SlotsFrom n [] = Unit {0}
SlotsFrom n (s ∷ ss) = (n ≤ s.start) × SlotsFrom (suc s.start) ss

insert_start-EntriesFrom :
    (n : ℕ) (e : ℕ × List ℕ) (m : Starts)
    → has_start e.0 m ≡ false
    → n ≤ e.0
    → EntriesFrom n m
    → EntriesFrom n (insert_start e m)
unfolding insert_start
insert_start-EntriesFrom n e [] h l s = (l, tt)
insert_start-EntriesFrom n e (x ∷ m) h l s = ground (arith, insert_start-EntriesFrom (suc x.0) e m)

sort_starts-EntriesFrom : (m : Starts) → Distinct m → EntriesFrom 0 (sort_starts m)
unfolding sort_starts
sort_starts-EntriesFrom [] d = tt
sort_starts-EntriesFrom ((s, ids) ∷ m) d =
    insert_start-EntriesFrom 0 (s, ids) (sort_starts m) (sort_starts-has_start s m ∙ d.0)
      (omega arith) (sort_starts-EntriesFrom m d.1)

pub SlotsFrom-mono : (k n : ℕ) (ss : List Slot) → k ≤ n → SlotsFrom n ss → SlotsFrom k ss
SlotsFrom-mono k n [] h s = tt
SlotsFrom-mono k n (x ∷ ss) h s = (omega arith, s.1)

cons_slot-SlotsFrom :
    (p : Params) (n t : ℕ) (ids : List ℕ) (rest : List Slot)
    → n ≤ t
    → SlotsFrom (suc t) rest
    → SlotsFrom n (cons_slot p t ids rest)
cons_slot-SlotsFrom p n t [] rest h s = SlotsFrom-mono n (suc t) rest (omega arith) s
cons_slot-SlotsFrom p n t (i ∷ is) rest h s = (h, s)

offer_loop-SlotsFrom :
    (hosts : List HostAvailability) (mode : RoutingMode) (p : Params) (n : ℕ) (m : Starts)
    → EntriesFrom n m
    → SlotsFrom n (offer_loop hosts mode p m)
unfolding offer_loop
offer_loop-SlotsFrom hosts mode p n [] s = tt
offer_loop-SlotsFrom hosts mode p n ((t, ids) ∷ m) s =
    cons_slot-SlotsFrom p n t (pick_hosts hosts ids mode) (offer_loop hosts mode p m) s.0
      (offer_loop-SlotsFrom hosts mode p (suc t) m s.1)

-- Slots come in the order of their starts, and no start comes twice.
pub offer-SlotsFrom :
    (req : Request) (p : Params) (m : Starts) → Distinct m → SlotsFrom 0 (offer req p m)
unfolding offer
offer-SlotsFrom req p m d =
    offer_loop-SlotsFrom req.hosts req.event.routing_mode p 0 (sort_starts m)
      (sort_starts-EntriesFrom m d)

any_never {ℓ} :
    {A : Type ℓ} (q : A → Bool) (xs : List A) → ((a : A) → q a ≡ false) → any q xs ≡ false
any_never q [] h = refl
any_never q (x ∷ xs) h = ground (arith, h x, any_never q xs h)

or_false : (b : Bool) → (b || false) ≡ b
or_false b = ground arith

-- With nobody free no mode offers anything.
offered_nobody :
    (hosts : List HostAvailability) (mode : RoutingMode) → offered [] hosts mode ≡ false
unfolding is_available
offered_nobody [] collective = refl
offered_nobody (h ∷ hs) collective = refl
offered_nobody hosts priority = any_never (λ h. false) hosts (λ h. refl)
offered_nobody hosts round_robin = ground (
  arith,
  any_never (λ (h : HostAvailability). not (is_required h.role) && false) hosts (λ h. ground arith),
)
offered_nobody [] fixed = refl
offered_nobody (h ∷ hs) fixed = refl

cons_slot-is_offered :
    (p : Params) (t u : ℕ) (ids : List ℕ) (rest : List Slot)
    → is_offered (cons_slot p t ids rest) u ≡ ((t == u && some_id ids) || is_offered rest u)
unfolding is_offered
cons_slot-is_offered p t u [] rest = ground arith
cons_slot-is_offered p t u (i ∷ is) rest = ground arith

offer_loop_other :
    (hosts : List HostAvailability) (mode : RoutingMode) (p : Params) (m : Starts) (u : ℕ)
    → has_start u m ≡ false
    → is_offered (offer_loop hosts mode p m) u ≡ false
unfolding offer_loop is_offered
offer_loop_other hosts mode p [] u h = refl
offer_loop_other hosts mode p ((t, ids) ∷ m) u h = ground (
  arith,
  cons_slot-is_offered p t u (pick_hosts hosts ids mode) (offer_loop hosts mode p m),
  offer_loop_other hosts mode p m u,
)

is_offered_nil : (u : ℕ) → is_offered [] u ≡ false
unfolding is_offered
is_offered_nil u = refl

offer_loop-is_offered :
    (hosts : List HostAvailability) (mode : RoutingMode) (p : Params) (m : Starts) (u : ℕ)
    → Distinct m
    → is_offered (offer_loop hosts mode p m) u ≡ offered (ids_at u m) hosts mode
unfolding offer_loop ids_at
offer_loop-is_offered hosts mode p [] u d = is_offered_nil u ∙ sym (offered_nobody hosts mode)
offer_loop-is_offered hosts mode p ((t, ids) ∷ m) u d = elim (Bool-cases (t == u)) [
  | inl e ↦
      let same : t ≡ u = (==_iff t u).0 e in
      rw
        (
          cons_slot-is_offered p t u (pick_hosts hosts ids mode) (offer_loop hosts mode p m),
          e,
          some_id-pick_hosts ids hosts mode,
          offer_loop_other hosts mode p m u (rw (← same) d.0),
        )
        (or_false (offered ids hosts mode))
  | inr e ↦
      rw (cons_slot-is_offered p t u (pick_hosts hosts ids mode) (offer_loop hosts mode p m), e)
        (offer_loop-is_offered hosts mode p m u d.1)
]

-- A start is offered exactly when the hosts that are marked there satisfy the routing mode.
pub offer-is_offered :
    (req : Request) (p : Params) (m : Starts) (u : ℕ)
    → Distinct m
    → is_offered (offer req p m) u ≡ offered (ids_at u m) req.hosts req.event.routing_mode
unfolding offer
offer-is_offered req p m u d = rw (← sort_starts-ids_at u m d) (
    offer_loop-is_offered req.hosts req.event.routing_mode p (sort_starts m) u
      (sort_starts-Distinct m d))

-- What is offered has an entry.
pub offer-has_start :
    (req : Request) (p : Params) (m : Starts) (u : ℕ)
    → is_offered (offer req p m) u ≡ true
    → has_start u m ≡ true
unfolding offer
offer-has_start req p m u h = elim (Bool-cases (has_start u m)) [
  | inl e ↦ e
  | inr e ↦ absurd (
      ground (
        arith,
        offer_loop_other req.hosts req.event.routing_mode p (sort_starts m) u
            (sort_starts-has_start u m ∙ e),
      ))
]
