-- ===== src/Booking/Create/Rotation.antt =====
-- Which host a rotation gets: `pickRotationHost` and `leastLoadedHost` of internal/booking/service.go.
use district_scheduler.Common.{ℕ, ◌≤◌, ◌≡◌, inl, inr, true, List, [], ◌∷◌, arith, ltb, Bool-cases}
use district_scheduler.Booking.Store.{Store}
use district_scheduler.Booking.Create.{
  Strategy, by_priority, evenly, contains_id, load, least_from, least_loaded_host,
  pick_rotation_host,
}

least_from_lem :
    (counts : ℕ → ℕ) (best : ℕ) (cs : List ℕ) (x : ℕ)
    → contains_id (best ∷ cs) x ≡ true
    → (contains_id (best ∷ cs) (least_from counts best (counts best) cs) ≡ true)
      × (counts (least_from counts best (counts best) cs) ≤ counts x)
unfolding least_from
least_from_lem counts best [] x h = ground arith
least_from_lem counts best (c ∷ cs) x h = elim (Bool-cases (ltb (counts c) (counts best))) [
  | inl less ↦ ground (arith, least_from_lem counts c cs x, least_from_lem counts c cs c)
  | inr kept ↦ ground (arith, least_from_lem counts best cs x, least_from_lem counts best cs best)
]

-- Even distribution picks a candidate, and none of the candidates has fewer upcoming bookings.
pub least_loaded_host_least :
    (counts : ℕ → ℕ) (first : ℕ) (rest : List ℕ) (x : ℕ)
    → contains_id (first ∷ rest) x ≡ true
    → (contains_id (first ∷ rest) (least_loaded_host counts first rest) ≡ true)
      × (counts (least_loaded_host counts first rest) ≤ counts x)
unfolding least_loaded_host
least_loaded_host_least counts first rest x h = least_from_lem counts first rest x h

pub pick_rotation_host-contains_id :
    (store : Store) (event_type_id : ℕ) (strategy : Strategy) (now first : ℕ) (rest : List ℕ)
    → contains_id (first ∷ rest) (pick_rotation_host store event_type_id strategy now first rest)
      ≡ true
pick_rotation_host-contains_id store event_type_id by_priority now first rest = ground arith
pick_rotation_host-contains_id store event_type_id evenly now first rest =
    (least_loaded_host_least (load store event_type_id now) first rest first (ground arith)).0
