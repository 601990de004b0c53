-- ===== src/Booking/Create/Choice.antt =====
-- Whom `Service.Create` of internal/booking/service.go assigns.
use district_scheduler.Common.{
  ℕ, ◌≡◌, subst, inl, inr, true, false, ◌||◌, List, [], ◌∷◌, ◌++◌, arith, ◌==◌, Bool-cases,
  any-append,
}
use district_scheduler.Common.Fallible.{ok, Result-cases}
use district_scheduler.Booking.Store.{Store}
use district_scheduler.Booking.Conflict.{host_busy}
use district_scheduler.Booking.Create.{
  is_round_robin, CreateParams, Chosen, contains_id, check_free, free_hosts, pick_free, pick_all,
  choose_round_robin, choose_all, choose_hosts, add_optional, pick_rotation_host,
}
use district_scheduler.Booking.Create.Rotation.{pick_rotation_host-contains_id}

module _ (store : Store) (start end : ℕ) where
  -- Everybody on the list is free at the time.
  abbrev pub AllFree : List ℕ → Type 0
  AllFree hosts = (h : ℕ) → contains_id hosts h ≡ true → host_busy store h start end 0 ≡ false

  check_free_lem : (hosts : List ℕ) → check_free store start end hosts ≡ ok tt → AllFree hosts
  unfolding check_free
  check_free_lem [] e h m = absurd (cc)
  check_free_lem (x ∷ xs) e h m = elim (Bool-cases (host_busy store x start end 0)) [
    | inl busy ↦ absurd (ground arith)
    | inr free ↦ elim (Bool-cases (x == h)) [
      | inl same ↦ ground arith
      | inr other ↦ check_free_lem xs (ground arith) h (ground arith)
    ]
  ]

  free_hosts_lem : (hosts : List ℕ) → AllFree (free_hosts store start end hosts)
  unfolding free_hosts
  free_hosts_lem [] h m = absurd (cc)
  free_hosts_lem (x ∷ xs) h m = elim (Bool-cases (host_busy store x start end 0)) [
    | inl busy ↦ free_hosts_lem xs h (ground arith)
    | inr free ↦ elim (Bool-cases (x == h)) [
      | inl same ↦ ground arith
      | inr other ↦ free_hosts_lem xs h (ground arith)
    ]
  ]

  pub add_optional_lem :
      (assigned hosts : List ℕ)
      → AllFree assigned
      → AllFree (add_optional store start end assigned hosts)
  unfolding add_optional
  add_optional_lem assigned [] f = f
  add_optional_lem assigned (x ∷ xs) f =
      elim (Bool-cases (contains_id assigned x || host_busy store x start end 0)) [
        | inl skip ↦ rw skip (add_optional_lem assigned xs f)
        | inr join ↦ rw join (
            add_optional_lem (assigned ++ x ∷ []) xs
              (λ h m. extended assigned x f (ground arith) h m))
      ]
    where
      extended :
          (assigned : List ℕ) (x : ℕ)
          → AllFree assigned
          → host_busy store x start end 0 ≡ false
          → AllFree (assigned ++ x ∷ [])
      extended assigned x f free h m =
          ground (arith, any-append (λ (y : ℕ). y == h) assigned (x ∷ []), f h)

contains_id-append :
    (xs ys : List ℕ) (h : ℕ) → contains_id (xs ++ ys) h ≡ (contains_id xs h || contains_id ys h)
contains_id-append xs ys h = any-append (λ x. x == h) xs ys

module _ (store : Store) (p : CreateParams) (now : ℕ) where
  abbrev Free : List ℕ → Type 0
  Free hosts = AllFree store p.start_at p.end_at hosts

  pick_free_lem :
      (fs : List ℕ) (chosen : Chosen)
      → Free p.required_hosts
      → Free fs
      → pick_free store p now fs ≡ ok chosen
      → Free chosen.assigned
  pick_free_lem [] chosen r f e = absurd (cc)
  pick_free_lem (x ∷ xs) chosen r f e =
      let c = pick_rotation_host store p.event_type_id p.strategy now x xs in
      let same : chosen.assigned ≡ p.required_hosts ++ c ∷ [] = cc in
      rw same (picked c (pick_rotation_host-contains_id store p.event_type_id p.strategy now x xs))
    where
      picked : (c : ℕ) → contains_id (x ∷ xs) c ≡ true → Free (p.required_hosts ++ c ∷ [])
      picked c k h n = elim (Bool-cases (contains_id p.required_hosts h)) [
        | inl y ↦ r h y
        | inr y ↦
            let same : c ≡ h = ground (arith, contains_id-append p.required_hosts (c ∷ []) h) in
            f h (subst (λ y. contains_id (x ∷ xs) y ≡ true) same k)
      ]

  pick_all_lem : (hs : List ℕ) (chosen : Chosen) → pick_all hs ≡ ok chosen → chosen.assigned ≡ hs
  pick_all_lem [] chosen e = absurd (cc)
  pick_all_lem (h ∷ hs) chosen e = cc

  choose_round_robin_lem :
      (chosen : Chosen) → choose_round_robin store p now ≡ ok chosen → Free chosen.assigned
  unfolding choose_round_robin
  choose_round_robin_lem chosen e =
      elim (Result-cases (check_free store p.start_at p.end_at p.required_hosts)) [
        | inr (x, c) ↦ absurd (ground arith)
        | inl (u, c) ↦
            pick_free_lem (free_hosts store p.start_at p.end_at p.host_ids) chosen
              (check_free_lem store p.start_at p.end_at p.required_hosts c)
              (free_hosts_lem store p.start_at p.end_at p.host_ids) (ground arith)
      ]

  choose_all_lem : (chosen : Chosen) → choose_all store p ≡ ok chosen → Free chosen.assigned
  unfolding choose_all
  choose_all_lem chosen e = elim (Result-cases (check_free store p.start_at p.end_at p.host_ids)) [
    | inr (x, c) ↦ absurd (ground arith)
    | inl (u, c) ↦
        rw (pick_all_lem p.host_ids chosen (ground arith))
          (check_free_lem store p.start_at p.end_at p.host_ids c)
  ]

  pub choose_hosts_lem :
      (chosen : Chosen) → choose_hosts store p now ≡ ok chosen → Free chosen.assigned
  unfolding choose_hosts
  choose_hosts_lem chosen e = elim (Bool-cases (is_round_robin p.routing_mode)) [
    | inl r ↦ choose_round_robin_lem chosen (ground arith)
    | inr r ↦ choose_all_lem chosen (ground arith)
  ]
