-- ===== src/Slots/Interval/Cover.antt =====
-- Which instants the interval operations of internal/slots/intervals.go leave covered.
use district_scheduler.Slots.Interval.Order.{SortedFrom, SortedFrom-mono, sort_by_start-SortedFrom}
use district_scheduler.Common.{
  ◌∙◌, ℕ, ◌≤◌, ◌≡◌, refl, Bool, not, ◌&&◌, ◌||◌, List, [], ◌∷◌, ◌++◌, arith, ltb, leb, any,
  any-append,
}
use district_scheduler.Slots.Interval.{
  Interval, cut_out, insert_by_start, sort_by_start, extend, merge_from, merge_sorted,
  merge_intervals, cut_all, cut_each, subtract_from, subtract,
}

abbrev pub contains : ℕ → Interval → Bool
contains t iv = leb iv.start t && ltb t iv.end

abbrev pub covered : ℕ → List Interval → Bool
covered t ivs = any (contains t) ivs

pub covered-append :
    (t : ℕ) (xs ys : List Interval) → covered t (xs ++ ys) ≡ (covered t xs || covered t ys)
covered-append t xs ys = any-append (contains t) xs ys

-- Cutting leaves the instants of the window that the busy interval does not hold, for intervals of
-- any shape.
pub covered-cut_out :
    (t : ℕ) (w b : Interval) → covered t (cut_out w b) ≡ (contains t w && not (contains t b))
unfolding cut_out
covered-cut_out t w b = ground arith

covered-insert_by_start :
    (t : ℕ) (iv : Interval) (ivs : List Interval)
    → covered t (insert_by_start iv ivs) ≡ (contains t iv || covered t ivs)
unfolding insert_by_start
covered-insert_by_start t iv [] = refl
covered-insert_by_start t iv (x ∷ xs) = ground (arith, covered-insert_by_start t iv xs)

pub covered-sort_by_start :
    (t : ℕ) (ivs : List Interval) → covered t (sort_by_start ivs) ≡ covered t ivs
unfolding sort_by_start
covered-sort_by_start t [] = refl
covered-sort_by_start t (x ∷ xs) =
    ground (arith, covered-insert_by_start t x (sort_by_start xs), covered-sort_by_start t xs)

-- Folding `iv` into `last`, when it starts inside or at the end of it, covers both.
contains-extend :
    (t : ℕ) (last iv : Interval)
    → last.start ≤ iv.start
    → iv.start ≤ last.end
    → contains t (extend last iv) ≡ (contains t last || contains t iv)
unfolding extend
contains-extend t last iv h k = ground arith

extend-start : (last iv : Interval) → (extend last iv).start ≡ last.start
unfolding extend
extend-start last iv = ground arith

covered-merge_from :
    (t : ℕ) (last : Interval) (ivs : List Interval)
    → SortedFrom last.start ivs
    → covered t (merge_from last ivs) ≡ (contains t last || covered t ivs)
unfolding merge_from
covered-merge_from t last [] s = refl
covered-merge_from t last (iv ∷ rest) s = ground (
  arith,
  extend-start last iv,
  contains-extend t last iv s.0,
  covered-merge_from t (extend last iv) rest,
  covered-merge_from t iv rest s.1,
  SortedFrom-mono last.start iv.start rest,
)

covered-merge_sorted :
    (t : ℕ) (ivs : List Interval) → SortedFrom 0 ivs → covered t (merge_sorted ivs) ≡ covered t ivs
unfolding merge_sorted
covered-merge_sorted t [] s = refl
covered-merge_sorted t (iv ∷ rest) s = covered-merge_from t iv rest s.1

-- Sorting and merging changes no instant's cover.
pub covered-merge_intervals :
    (t : ℕ) (ivs : List Interval) → covered t (merge_intervals ivs) ≡ covered t ivs
unfolding merge_intervals
covered-merge_intervals t ivs =
    covered-merge_sorted t (sort_by_start ivs) (sort_by_start-SortedFrom ivs)
    ∙ covered-sort_by_start t ivs

covered-cut_all :
    (t : ℕ) (rs : List Interval) (b : Interval)
    → covered t (cut_all rs b) ≡ (covered t rs && not (contains t b))
unfolding cut_all
covered-cut_all t [] b = refl
covered-cut_all t (r ∷ rs) b = ground (
  arith,
  covered-append t (cut_out r b) (cut_all rs b),
  covered-cut_out t r b,
  covered-cut_all t rs b,
)

covered-cut_each :
    (t : ℕ) (rs bs : List Interval)
    → covered t (cut_each rs bs) ≡ (covered t rs && not (covered t bs))
unfolding cut_each
covered-cut_each t rs [] = ground arith
covered-cut_each t rs (b ∷ bs) =
    ground (arith, covered-cut_each t (cut_all rs b) bs, covered-cut_all t rs b)

covered-subtract_from :
    (t : ℕ) (ws bs : List Interval)
    → covered t (subtract_from ws bs) ≡ (covered t ws && not (covered t bs))
unfolding subtract_from
covered-subtract_from t [] bs = refl
covered-subtract_from t (w ∷ ws) bs = ground (
  arith,
  covered-append t (cut_each (w ∷ []) bs) (subtract_from ws bs),
  covered-cut_each t (w ∷ []) bs,
  covered-subtract_from t ws bs,
)

-- An instant is left by `subtract` exactly when a window holds it and no busy interval does, for
-- windows and busy intervals in any order, that may overlap or be empty.
pub covered-subtract :
    (t : ℕ) (windows busy : List Interval)
    → covered t (subtract windows busy) ≡ (covered t windows && not (covered t busy))
unfolding subtract
covered-subtract t [] busy = refl
covered-subtract t (w ∷ ws) [] = ground (arith, covered-merge_intervals t (w ∷ ws))
covered-subtract t (w ∷ ws) (b ∷ bs) = ground (
  arith,
  covered-subtract_from t (merge_intervals (w ∷ ws)) (merge_intervals (b ∷ bs)),
  covered-merge_intervals t (w ∷ ws),
  covered-merge_intervals t (b ∷ bs),
)
