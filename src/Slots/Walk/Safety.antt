-- ===== src/Slots/Walk/Safety.antt =====
-- What a start of the walk of internal/slots/generate.go keeps clear of.
use district_scheduler.Common.{
  ℕ, ◌+◌, ◌-◌, ◌≤◌, ◌<◌, ◌≡◌, refl, ◌⊎◌, inl, inr, true, false, not, ◌&&◌, List, [], ◌∷◌, map,
  arith, ltb, ◌==◌, Bool-cases, In, not-any_of_In,
}
use district_scheduler.Slots.Interval.{Interval, expand_busy, expand_one}
use district_scheduler.Slots.Interval.Cover.{contains, covered, covered-subtract}
use district_scheduler.Slots.Walk.{Params, free_windows}
use district_scheduler.Slots.Walk.Align.{align_up_bounds}
use district_scheduler.Slots.Walk.Loop.{in_windows}

-- The instants that the pass with busy times leaves are those of a window that no busy time,
-- widened by the buffers, holds.
covered-free_windows :
    (p : Params) (busy ws : List Interval) (x : ℕ)
    → covered x (free_windows p true busy ws)
      ≡ (covered x ws && not (covered x (expand_busy busy p.buf_before p.buf_after)))
unfolding free_windows
covered-free_windows p busy [] x = refl
covered-free_windows p busy (w ∷ ws) x =
    covered-subtract x (w ∷ ws) (expand_busy busy p.buf_before p.buf_after)

-- Each instant of a slot at a candidate start stands in one of the free windows.
in_windows-covered :
    (p : Params) (fs : List Interval) (u x : ℕ)
    → in_windows p fs u ≡ true
    → u ≤ x
    → x < u + p.dur
    → covered x fs ≡ true
in_windows-covered p [] u x h l m = absurd (cc)
in_windows-covered p (f ∷ fs) u x h l m =
    ground (arith, align_up_bounds f.start p.interval, in_windows-covered p fs u x)

-- A slot at a start that the walk marks, with busy times applied, stands in the day's windows
-- throughout, and at no instant in a busy time widened by the buffers.
pub free_start_clear :
    (p : Params) (busy ws : List Interval) (u x : ℕ)
    → in_windows p (free_windows p true busy ws) u ≡ true
    → u ≤ x
    → x < u + p.dur
    → (covered x ws ≡ true) × (covered x (expand_busy busy p.buf_before p.buf_after) ≡ false)
free_start_clear p busy ws u x h l m = ground (
  arith,
  covered-free_windows p busy ws x,
  in_windows-covered p (free_windows p true busy ws) u x h l m,
)

not_widened :
    (busy : List Interval) (before after x : ℕ) (b : Interval)
    → covered x (map (expand_one before after) busy) ≡ false
    → In b busy
    → contains x (expand_one before after b) ≡ false
not_widened [] before after x b h m = elim m [ ]
not_widened (c ∷ cs) before after x b h (inl e) = ground arith
not_widened (c ∷ cs) before after x b h (inr m) = not_widened cs before after x b (ground arith) m

not_expanded :
    (busy : List Interval) (before after x : ℕ) (b : Interval)
    → covered x (expand_busy busy before after) ≡ false
    → In b busy
    → contains x (expand_one before after b) ≡ false
unfolding expand_busy expand_one
not_expanded busy before after x b h m = elim (Bool-cases (before == 0 && after == 0)) [
  | inl e ↦ ground (arith, not-any_of_In (contains x) b busy (rw e at h) m)
  | inr e ↦ not_widened busy before after x b (rw e at h) m
]

-- For an event of positive length, a slot at a start that the walk marks with busy times applied
-- stands clear of every busy time that ends after it starts: it begins no earlier than the end of
-- the busy time and the buffer after it, or ends no later than its start less the buffer before it.
pub free_start_buffers :
    (p : Params) (busy ws : List Interval) (u : ℕ) (b : Interval)
    → 0 < p.dur
    → in_windows p (free_windows p true busy ws) u ≡ true
    → In b busy
    → b.start < b.end
    → (b.end + p.buf_after ≤ u) ⊎ (u + p.dur ≤ b.start - p.buf_before)
unfolding expand_one
free_start_buffers p busy ws u b d h m proper = elim (Bool-cases (ltb u (b.start - p.buf_before))) [
  | inl early ↦ elim (Bool-cases (ltb (b.start - p.buf_before) (u + p.dur))) [
    | inl meets ↦ absurd (
        ground (
          arith,
          not_expanded busy p.buf_before p.buf_after (b.start - p.buf_before) b
              (free_start_clear p busy ws u (b.start - p.buf_before) h (ground arith)
                (ground arith)).1
              m,
        ))
    | inr apart ↦ inr (ground arith)
  ]
  | inr late ↦ ground (
    arith,
    not_expanded busy p.buf_before p.buf_after u b
        (free_start_clear p busy ws u u h (omega arith) (omega arith)).1 m,
  )
]
