-- ===== src/Slots/Walk/Withheld.antt =====
-- What the walk of `hostsByStart` withholds for the minimum notice.
use district_scheduler.Common.{
  ℕ, zero, suc, ◌+◌, ◌*◌, ◌≤◌, ◌<◌, ◌≡◌, refl, ◌∙◌, inl, inr, Bool, true, false, ◌&&◌, ◌||◌, Option,
  none, some, List, [], ◌∷◌, arith, ltb, leb, ◌==◌, ltb→lt, Bool-cases, any,
}
use district_scheduler.Slots.Interval.{Interval}
use district_scheduler.Slots.Walk.{
  align_up, window_loop, Starts, Params, Walked, withhold, withheld, offered_at, start_loop, turns,
}
use district_scheduler.Slots.Walk.Marks.{marked, marked-mark}
use district_scheduler.Slots.Walk.Loop.{reached, reached_step, turns_enough}

-- The starts below the notice cutoff, of those that the loop walks: not past, and fitting.
abbrev pub is_withheld : Params → ℕ → ℕ → ℕ → ℕ → Bool
is_withheld p now window_end t u =
    reached p.interval t u && (leb (u + p.dur) window_end && (ltb u p.min_notice && leb now u))

abbrev pub marked_below : ℕ → ℕ → Option Starts → Bool
marked_below u j none = false
marked_below u j (some m) = marked u j m

abbrev pub collects : Option Starts → Bool
collects none = false
collects (some m) = true

marked_below-withhold :
    (now t id : ℕ) (o : Option Starts) (u j : ℕ)
    → marked_below u j (withhold now t id o)
      ≡ (marked_below u j o || (collects o && (leb now t && (t == u && id == j))))
marked_below-withhold now t id none u j = refl
marked_below-withhold now t id (some m) u j = ground (arith, marked-mark u j t id m)

collects-withhold : (now t id : ℕ) (o : Option Starts) → collects (withhold now t id o) ≡ collects o
collects-withhold now t id none = refl
collects-withhold now t id (some m) = ground arith

-- Nothing is withheld from the cutoff on.
late_false :
    (p : Params) (now window_end t u : ℕ)
    → p.min_notice ≤ t
    → is_withheld p now window_end t u ≡ false
late_false p now window_end t u h = ground arith

early_step :
    (p : Params) (now id window_end t : ℕ) (o : Option Starts) (u j : ℕ)
    → 0 < p.interval
    → t < p.min_notice
    → t + p.dur ≤ window_end
    → (marked_below u j (withhold now t id o)
        || (collects (withhold now t id o)
            && (is_withheld p now window_end (t + p.interval) u && id == j)))
      ≡ (marked_below u j o || (collects o && (is_withheld p now window_end t u && id == j)))
early_step p now id window_end t o u j h e f = ground (
  arith,
  marked_below-withhold now t id o u j,
  collects-withhold now t id o,
  reached_step p.interval t u h,
)

-- `start_loop` withholds those, where somebody collects, and keeps what was withheld before.
marked_below-start_loop :
    (fuel : ℕ) (p : Params) (now id window_end t : ℕ) (st : Walked) (u j : ℕ)
    → 0 < p.interval
    → window_end < t + p.dur + fuel * p.interval
    → marked_below u j (start_loop fuel p now id window_end t st).below_notice ≡ (
        marked_below u j st.below_notice
        || (collects st.below_notice && (is_withheld p now window_end t u && id == j)))
unfolding start_loop withheld offered_at
marked_below-start_loop zero p now id window_end t st u j h f = ground arith
marked_below-start_loop (suc fuel) p now id window_end t st u j h f =
    elim (Bool-cases (ltb t p.min_notice)) [
      | inl early ↦ elim (Bool-cases (ltb window_end (t + p.dur))) [
        | inl over ↦ ground arith
        | inr fits ↦
            rw (start_loop, fits, early)
              (marked_below-start_loop fuel p now id window_end (t + p.interval)
                  (withheld now t id st) u j h (omega arith)
                ∙ early_step p now id window_end t st.below_notice u j h (ltb→lt _ _ early)
                    (ground arith))
      ]
      | inr late ↦ ground (
        arith,
        late_false p now window_end t u,
        late_false p now window_end (t + p.interval) u,
        marked_below-start_loop fuel p now id window_end (t + p.interval) (offered_at t id st) u j h
            (omega arith),
      )
    ]

collects-start_loop :
    (fuel : ℕ) (p : Params) (now id window_end t : ℕ) (st : Walked)
    → collects (start_loop fuel p now id window_end t st).below_notice ≡ collects st.below_notice
unfolding start_loop withheld offered_at
collects-start_loop zero p now id window_end t st = refl
collects-start_loop (suc fuel) p now id window_end t st = ground (
  arith,
  collects-withhold now t id st.below_notice,
  collects-start_loop fuel p now id window_end (t + p.interval) (withheld now t id st),
  collects-start_loop fuel p now id window_end (t + p.interval) (offered_at t id st),
)

abbrev pub withheld_in : Params → ℕ → List Interval → ℕ → Bool
withheld_in p now fs u = any (λ f. is_withheld p now f.end (align_up f.start p.interval) u) fs

pub collects-window_loop :
    (p : Params) (now id : ℕ) (fs : List Interval) (st : Walked)
    → collects (window_loop p now id fs st).below_notice ≡ collects st.below_notice
unfolding window_loop
collects-window_loop p now id [] st = refl
collects-window_loop p now id (f ∷ fs) st =
    let t = align_up f.start p.interval in
    collects-window_loop p now id fs (start_loop (turns p f.end t) p now id f.end t st)
    ∙ collects-start_loop (turns p f.end t) p now id f.end t st

-- For a positive interval, the walk over the windows of a host collects, where a map is there for
-- it, exactly the starts below the notice cutoff that are not past and fit a window, and keeps what
-- was collected before.
pub marked_below-window_loop :
    (p : Params) (now id : ℕ) (fs : List Interval) (st : Walked) (u j : ℕ)
    → 0 < p.interval
    → marked_below u j (window_loop p now id fs st).below_notice ≡ (
        marked_below u j st.below_notice
        || (collects st.below_notice && (withheld_in p now fs u && id == j)))
unfolding window_loop
marked_below-window_loop p now id [] st u j h = ground arith
marked_below-window_loop p now id (f ∷ fs) st u j h =
    let t = align_up f.start p.interval in
    let next = start_loop (turns p f.end t) p now id f.end t st in
    ground (
      arith,
      collects-start_loop (turns p f.end t) p now id f.end t st,
      marked_below-start_loop (turns p f.end t) p now id f.end t st u j h
          (turns_enough p f.end t h),
      marked_below-window_loop p now id fs next u j h,
    )
