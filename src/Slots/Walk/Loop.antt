-- ===== src/Slots/Walk/Loop.antt =====
-- What the innermost loop of `hostsByStart` collects, and that its fuel is enough.
use district_scheduler.Slots.Walk.{
  align_up, window_loop, Params, Walked, withheld, offered_at, start_loop, turns,
}
use district_scheduler.Slots.Interval.{Interval}
use district_scheduler.Slots.Walk.Marks.{marked, marked-mark}
use district_scheduler.Common.{
  ℕ, zero, suc, ◌+◌, ◌-◌, ◌*◌, ◌%◌, ◌<◌, ◌≡◌, inl, inr, Bool, ◌&&◌, ◌||◌, List, [], ◌∷◌, arith, ltb,
  leb, ◌==◌, Bool-cases, any,
}
use native.Mathlib.Nat.{mod-eq_of_lt, mod-eq-sub-mod, mod-lt, div-add-mod'}

-- `u` is one of `t`, `t + interval`, `t + 2 * interval`, …
abbrev pub reached : ℕ → ℕ → ℕ → Bool
reached interval t u = leb t u && ((u - t) % interval == 0)

-- The start `u` is walked in a window that ends at `window_end`, and neither notice nor horizon
-- rules it out.
abbrev pub is_candidate : Params → ℕ → ℕ → ℕ → Bool
is_candidate p window_end t u =
    reached p.interval t u
    && (leb (u + p.dur) window_end && (leb p.min_notice u && leb u p.max_future))

pub reached_step :
    (interval t u : ℕ)
    → 0 < interval
    → reached interval t u ≡ (t == u || reached interval (t + interval) u)
reached_step interval t u h = elim (Bool-cases (ltb u (t + interval))) [
  | inl near ↦ ground (arith, mod-eq_of_lt {n = u - t} {m = interval})
  | inr far ↦ ground (arith, mod-eq-sub-mod {n = u - t} {m = interval})
]

-- `start_loop` marks the candidates for this host, and keeps what was marked before.
marked-start_loop :
    (fuel : ℕ) (p : Params) (now id window_end t : ℕ) (st : Walked) (u j : ℕ)
    → 0 < p.interval
    → window_end < t + p.dur + fuel * p.interval
    → marked u j (start_loop fuel p now id window_end t st).per_start
      ≡ (marked u j st.per_start || (is_candidate p window_end t u && id == j))
unfolding start_loop withheld offered_at
marked-start_loop zero p now id window_end t st u j h f = ground arith
marked-start_loop (suc fuel) p now id window_end t st u j h f = ground (
  arith,
  reached_step p.interval t u h,
  marked-mark u j t id st.per_start,
  marked-start_loop fuel p now id window_end (t + p.interval) (withheld now t id st) u j h
      (omega arith),
  marked-start_loop fuel p now id window_end (t + p.interval) (offered_at t id st) u j h
      (omega arith),
)

-- The turns that are given suffice to leave the window.
pub turns_enough :
    (p : Params) (window_end t : ℕ)
    → 0 < p.interval
    → window_end < t + p.dur + turns p window_end t * p.interval
turns_enough p window_end t h =
    omega (arith, div-add-mod' (window_end - t) p.interval, mod-lt (window_end - t) h)

-- Some window has `u` among its candidates.
abbrev pub in_windows : Params → List Interval → ℕ → Bool
in_windows p fs u = any (λ f. is_candidate p f.end (align_up f.start p.interval) u) fs

pub marked-window_loop :
    (p : Params) (now id : ℕ) (fs : List Interval) (st : Walked) (u j : ℕ)
    → 0 < p.interval
    → marked u j (window_loop p now id fs st).per_start
      ≡ (marked u j st.per_start || (in_windows p fs u && id == j))
unfolding window_loop
marked-window_loop p now id [] st u j h = ground arith
marked-window_loop p now id (f ∷ fs) st u j h =
    let t = align_up f.start p.interval in
    let next = start_loop (turns p f.end t) p now id f.end t st in
    ground (
      arith,
      marked-start_loop (turns p f.end t) p now id f.end t st u j h (turns_enough p f.end t h),
      marked-window_loop p now id fs next u j h,
    )
