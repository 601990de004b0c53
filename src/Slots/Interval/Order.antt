-- ===== src/Slots/Interval/Order.antt =====
-- The order of the intervals that internal/slots/intervals.go sorts and merges.
use district_scheduler.Common.{ℕ, ◌≤◌, List, [], ◌∷◌, arith}
use district_scheduler.Slots.Interval.{Interval, insert_by_start, sort_by_start}

-- Every entry starts at or after `n`, and the starts do not fall along the list.
abbrev pub SortedFrom : ℕ → List Interval → Type 0
SortedFrom n [] = Unit {0}
SortedFrom n (iv ∷ ivs) = (n ≤ iv.start) × SortedFrom iv.start ivs

pub SortedFrom-mono : (m n : ℕ) (ivs : List Interval) → m ≤ n → SortedFrom n ivs → SortedFrom m ivs
SortedFrom-mono m n [] h s = tt
SortedFrom-mono m n (iv ∷ ivs) h s = (omega arith, s.1)

insert_by_start-SortedFrom :
    (n : ℕ) (iv : Interval) (ivs : List Interval)
    → n ≤ iv.start
    → SortedFrom n ivs
    → SortedFrom n (insert_by_start iv ivs)
unfolding insert_by_start
insert_by_start-SortedFrom n iv [] h s = (h, tt)
insert_by_start-SortedFrom n iv (x ∷ xs) h s =
    ground (arith, insert_by_start-SortedFrom x.start iv xs)

pub sort_by_start-SortedFrom : (ivs : List Interval) → SortedFrom 0 (sort_by_start ivs)
unfolding sort_by_start
sort_by_start-SortedFrom [] = tt
sort_by_start-SortedFrom (iv ∷ ivs) =
    insert_by_start-SortedFrom 0 iv (sort_by_start ivs) (omega arith) (sort_by_start-SortedFrom ivs)
