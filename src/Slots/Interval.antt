-- ===== src/Slots/Interval.antt =====
-- internal/slots/intervals.go. An instant (`time.Time`) is a number of nanoseconds since Go's zero
-- time, the start of the year 1; the zone that a `time.Time` carries for display plays no part here.
-- A `time.Duration` is a number of nanoseconds.
pub mod Order
pub mod Cover
use district_scheduler.Common.{
  ℕ, ◌+◌, ◌-◌, Bool, ◌&&◌, List, [], ◌∷◌, ◌++◌, map, ltb, leb, ◌==◌, if◌then◌else◌, not,
}

-- Half open: the instants from `start` up to, and without, `end`.
pub record Interval : Type 0 where
  pub start : ℕ
  pub end : ℕ

-- `!iv.End.After(iv.Start)`
unfoldable pub is_empty : Interval → Bool
is_empty iv = not (ltb iv.start iv.end)

unfoldable pub overlaps : Interval → Interval → Bool
overlaps iv other = ltb iv.start other.end && ltb other.start iv.end

-- The part of a window before `busy`, and the part after it, where they are there.
unfoldable pub cut_out : Interval → Interval → List Interval
unfolding overlaps
cut_out window busy =
    if overlaps window busy
    then (if ltb window.start busy.start
        then record { start = window.start; end = busy.start } ∷ []
        else [])
      ++ (if ltb busy.end window.end
          then record { start = busy.end; end = window.end } ∷ []
          else [])
    else window ∷ []

-- `Start.Add(-before)` stops at the year 1, the first instant that is represented.
unfoldable pub expand_one : ℕ → ℕ → Interval → Interval
expand_one before after b = record { start = b.start - before; end = b.end + after }

unfoldable pub expand_busy : List Interval → ℕ → ℕ → List Interval
unfolding expand_one
expand_busy busy before after =
    if before == 0 && after == 0 then busy else map (expand_one before after) busy

-- `sort.Slice` by start, as an insertion sort.
unfoldable pub insert_by_start : Interval → List Interval → List Interval
insert_by_start iv [] = iv ∷ []
insert_by_start iv (x ∷ xs) =
    if leb iv.start x.start then iv ∷ x ∷ xs else x ∷ insert_by_start iv xs

unfoldable pub sort_by_start : List Interval → List Interval
unfolding insert_by_start
sort_by_start [] = []
sort_by_start (iv ∷ ivs) = insert_by_start iv (sort_by_start ivs)

-- One turn of the loop of `mergeIntervals`: what `last` becomes when `iv` is folded into it.
unfoldable pub extend : Interval → Interval → Interval
extend last iv = if ltb last.end iv.end then record last { end = iv.end } else last

-- The loop of `mergeIntervals`; `last` is the last entry of `merged`.
unfoldable pub merge_from : Interval → List Interval → List Interval
unfolding extend
merge_from last [] = last ∷ []
merge_from last (iv ∷ rest) =
    let joined = merge_from (extend last iv) rest in
    let apart = last ∷ merge_from iv rest in if not (ltb last.end iv.start) then joined else apart

unfoldable pub merge_sorted : List Interval → List Interval
unfolding merge_from
merge_sorted [] = []
merge_sorted (iv ∷ rest) = merge_from iv rest

unfoldable pub merge_intervals : List Interval → List Interval
unfolding sort_by_start merge_sorted
merge_intervals ivs = merge_sorted (sort_by_start ivs)

-- Each entry of `remaining` loses `b`.
unfoldable pub cut_all : List Interval → Interval → List Interval
unfolding cut_out
cut_all [] b = []
cut_all (r ∷ rs) b = cut_out r b ++ cut_all rs b

-- What is left of `remaining` when every busy interval is cut out in turn.
unfoldable pub cut_each : List Interval → List Interval → List Interval
unfolding cut_all
cut_each remaining [] = remaining
cut_each remaining (b ∷ bs) = cut_each (cut_all remaining b) bs

-- The outer loop of `subtract`, over the windows.
unfoldable pub subtract_from : List Interval → List Interval → List Interval
unfolding cut_each
subtract_from [] merged = []
subtract_from (w ∷ ws) merged = cut_each (w ∷ []) merged ++ subtract_from ws merged

-- `subtract`, and `SubtractIntervals`, its name outside of the package. Where no interval is busy
-- the windows come back merged.
unfoldable pub subtract : List Interval → List Interval → List Interval
unfolding merge_intervals subtract_from
subtract [] busy = []
subtract (w ∷ ws) [] = merge_intervals (w ∷ ws)
subtract (w ∷ ws) (b ∷ bs) = subtract_from (merge_intervals (w ∷ ws)) (merge_intervals (b ∷ bs))
