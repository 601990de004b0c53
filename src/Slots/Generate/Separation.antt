-- ===== src/Slots/Generate/Separation.antt =====
-- Where the three outputs of `generate` in internal/slots/generate.go lie, and that they are apart.
use district_scheduler.Common.{
  ℕ, suc, ◌≤◌, ◌<◌, ◌≡◌, refl, sym, ◌∙◌, ◌⊎◌, inl, inr, Bool, true, false, not, ◌&&◌, Option, none,
  some, List, [], ◌∷◌, map, arith, select, &&_left, &&_right,
}
use district_scheduler.Slots.Failure.{ok}
use district_scheduler.Slots.WallClock.{Zones}
use district_scheduler.Slots.Walk.{
  Starts, Params, Request, Walked, new_params, hosts_by_start, withheld, offered_at, withhold, mark,
}
use district_scheduler.Slots.Walk.Marks.{has_start}
use district_scheduler.Slots.Walk.Invariant.{hosts_by_start_inv}
use district_scheduler.Slots.Generate.{
  Slot, Extras, Outcome, offer, entries, below_notice_map, is_offered, taken_slots, generate,
  without_hosts,
}
use district_scheduler.Slots.Generate.Offer.{offer-has_start}
use district_scheduler.Slots.Generate.Outputs.{Ran, generate-Ran}

-- Every start of the map lies between the bounds, the upper one not included.
abbrev Within : ℕ → ℕ → Starts → Type 0
Within lo hi [] = Unit {0}
Within lo hi (e ∷ m) = (lo ≤ e.0) × (e.0 < hi) × Within lo hi m

mark-Within :
    (lo hi t id : ℕ) (m : Starts) → lo ≤ t → t < hi → Within lo hi m → Within lo hi (mark t id m)
unfolding mark
mark-Within lo hi t id [] l h w = (l, h, tt)
mark-Within lo hi t id ((s, ids) ∷ m) l h w = ground (arith, mark-Within lo hi t id m)

has_start-Within :
    (lo hi u : ℕ) (m : Starts) → Within lo hi m → has_start u m ≡ true → (lo ≤ u) × (u < hi)
has_start-Within lo hi u [] w h = absurd (cc)
has_start-Within lo hi u ((s, ids) ∷ m) w h = ground (arith, has_start-Within lo hi u m)

-- Marked starts lie between notice and horizon, withheld ones between now and the notice.
abbrev Placed : ℕ → Params → Walked → Type 0
Placed now p w =
    Within p.min_notice (suc p.max_future) w.per_start
    × Within now p.min_notice (entries w.below_notice)

withhold-Within :
    (now hi t id : ℕ) (o : Option Starts)
    → t < hi
    → Within now hi (entries o)
    → Within now hi (entries (withhold now t id o))
withhold-Within now hi t id none h w = tt
withhold-Within now hi t id (some m) h w = ground (arith, mark-Within now hi t id m)

hosts_by_start-Placed :
    (z : Zones) (req : Request) (p : Params) (apply_busy : Bool) (below : Option Starts)
    (st : Walked)
    → Within req.now p.min_notice (entries below)
    → hosts_by_start z req p apply_busy below ≡ ok st
    → Placed req.now p st
unfolding withheld offered_at
hosts_by_start-Placed z req p apply_busy below st d e =
    hosts_by_start_inv (Placed req.now p) z req p apply_busy below st
      (λ t id w l v. (v.0, withhold-Within req.now p.min_notice t id w.below_notice l v.1))
      (λ t id w l k v.
        (mark-Within p.min_notice (suc p.max_future) t id w.per_start l (omega arith) v.0, v.1))
      (tt, d) e

below_notice_map-Within :
    (lo hi : ℕ) (req : Request) (want : Extras) → Within lo hi (entries (below_notice_map req want))
below_notice_map-Within lo hi req want = ground arith

is_offered-without_hosts :
    (ss : List Slot) (u : ℕ) → is_offered (map without_hosts ss) u ≡ is_offered ss u
unfolding is_offered
is_offered-without_hosts [] u = refl
is_offered-without_hosts (s ∷ ss) u = ground (arith, is_offered-without_hosts ss u)

is_offered-unless :
    (q : ℕ → Bool) (ss : List Slot) (u : ℕ)
    → is_offered (select (λ s. not (q s.start)) ss) u ≡ (is_offered ss u && not (q u))
unfolding is_offered
is_offered-unless q [] u = refl
is_offered-unless q (s ∷ ss) u = ground (arith, is_offered-unless q ss u)

-- The taken starts are those of the second pass that are not free.
pub is_offered-taken_slots :
    (free ss : List Slot) (u : ℕ)
    → is_offered (taken_slots free ss) u ≡ (is_offered ss u && not (is_offered free u))
unfolding taken_slots
is_offered-taken_slots free ss u =
    is_offered-without_hosts (select (λ s. not (is_offered free s.start)) ss) u
    ∙ is_offered-unless (is_offered free) ss u

nothing_offered : (u : ℕ) → ¬ (is_offered [] u ≡ true)
unfolding is_offered
nothing_offered u h = cc

not-true : (b : Bool) → not b ≡ true → b ≡ false
not-true b h = ground arith

not_both : (b : Bool) → (b ≡ true → ⊥) → b ≡ false
not_both true h = absurd (h refl)
not_both false h = refl

apart : {m u : ℕ} → m ≤ u → u < m → ⊥
apart h k = omega arith

-- Where the starts of each output lie: free and taken ones from the minimum notice up to the horizon,
-- those of the notice gap from now up to the minimum notice, and no taken one is free.
pub generate_bounds :
    (z : Zones) (req : Request) (want : Extras) (res : Outcome) (u : ℕ)
    → generate z req want ≡ ok res
    → let p = new_params req in
      (is_offered res.free u ≡ true → (p.min_notice ≤ u) × (u ≤ p.max_future))
      × (is_offered res.taken u ≡ true
          → (p.min_notice ≤ u) × (u ≤ p.max_future) × (is_offered res.free u ≡ false))
      × (is_offered res.notice_gap u ≡ true → (req.now ≤ u) × (u < p.min_notice))
generate_bounds z req want res u e = (free_bounds, taken_bounds r.second, gap_bounds)
  where
    p : Params
    p = new_params req

    r : Ran z req want res
    r = generate-Ran z req want res e

    placed : Placed req.now p r.walked
    placed =
        hosts_by_start-Placed z req p true (below_notice_map req want) r.walked
          (below_notice_map-Within req.now p.min_notice req want) r.first

    free_bounds : is_offered res.free u ≡ true → (p.min_notice ≤ u) × (u ≤ p.max_future)
    free_bounds h =
        let q = rw r.free at h in
        omega (
          arith,
          has_start-Within p.min_notice (suc p.max_future) u r.walked.per_start placed.0
              (offer-has_start req p r.walked.per_start u q),
        )

    taken_bounds :
        ((want.taken ≡ false) × (res.taken ≡ []))
          ⊎ ((want.taken ≡ true)
              × ((unbooked : Walked) × (hosts_by_start z req p false none ≡ ok unbooked)
                  × (res.taken ≡ taken_slots res.free (offer req p unbooked.per_start))))
        → is_offered res.taken u ≡ true
        → (p.min_notice ≤ u) × (u ≤ p.max_future) × (is_offered res.free u ≡ false)
    taken_bounds (inl (_, nothing)) h = absurd (nothing_offered u (rw nothing at h))
    taken_bounds (inr (_, (unbooked, second, exact))) h =
        let q =
          sym (is_offered-taken_slots res.free (offer req p unbooked.per_start) u)
          ∙ (rw exact at h) in
        let b =
          has_start-Within p.min_notice (suc p.max_future) u unbooked.per_start
            (hosts_by_start-Placed z req p false none unbooked tt second).0
            (offer-has_start req p unbooked.per_start u (
              &&_left (is_offered (offer req p unbooked.per_start) u) (not (is_offered res.free u))
                q)) in
        (
          b.0,
          omega arith,
          not-true (is_offered res.free u) (
              &&_right (is_offered (offer req p unbooked.per_start) u) (not (is_offered res.free u))
                q),
        )

    gap_bounds : is_offered res.notice_gap u ≡ true → (req.now ≤ u) × (u < p.min_notice)
    gap_bounds h =
        let q =
          sym (is_offered-without_hosts (offer req p (entries r.walked.below_notice)) u)
          ∙ (rw r.notice_gap at h) in
        has_start-Within req.now p.min_notice u (entries r.walked.below_notice) placed.1
          (offer-has_start req p (entries r.walked.below_notice) u q)

-- No start is reported in two outputs.
pub generate_outputs_disjoint :
    (z : Zones) (req : Request) (want : Extras) (res : Outcome) (u : ℕ)
    → generate z req want ≡ ok res
    → (is_offered res.taken u ≡ true
        → (is_offered res.free u ≡ false) × (is_offered res.notice_gap u ≡ false))
      × (is_offered res.free u ≡ true → is_offered res.notice_gap u ≡ false)
generate_outputs_disjoint z req want res u e =
    let b = generate_bounds z req want res u e in
    (
      λ t. (
        (b.1 t).2,
        not_both (is_offered res.notice_gap u) (λ g. absurd (apart (b.1 t).0 (b.2 g).1)),
      ),
      λ f. not_both (is_offered res.notice_gap u) (λ g. absurd (apart (b.0 f).0 (b.2 g).1)),
    )
