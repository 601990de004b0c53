-- ===== src/Booking/Stamp.antt =====
-- Stored timestamps. The tables hold instants as text (`time.RFC3339Nano` in UTC) and the queries of
-- internal/booking compare that text; a column is modelled by its instant, and compared as its text.
use district_scheduler.Common.{
  ℕ, zero, suc, ◌+◌, ◌*◌, ◌/◌, ◌%◌, ◌^◌, ◌<◌, ◌≡◌, refl, ◌≢◌, Bool, true, false, ◌&&◌, ◌||◌, List,
  [], ◌∷◌, ◌++◌, arith, ltb, ◌==◌, if◌then◌else◌,
}
use district_scheduler.Slots.Day.{nanoseconds_per_second}

-- The fraction of a second: `n` in units of ten to the power `k`, without trailing zeros.
unfoldable pub fraction_digits : ℕ → ℕ → List ℕ
fraction_digits zero n = []
fraction_digits (suc k) n =
    let rest = (b'0' + n / 10 ^ k) ∷ fraction_digits k (n % 10 ^ k) in if n == 0 then [] else rest

-- What follows the whole seconds: the fraction, where there is one, and the zone "Z".
unfoldable pub text_tail : ℕ → List ℕ
unfolding fraction_digits
text_tail n = if n == 0 then b'Z' ∷ [] else b'.' ∷ (fraction_digits 9 n ++ b'Z' ∷ [])

-- `t.UTC().Format(time.RFC3339Nano)`. The date and the time down to the second take nineteen
-- characters, whose order is that of the seconds for the years 1 to 9999: they stand as one letter.
unfoldable pub rfc3339_nano : ℕ → List ℕ
unfolding text_tail
rfc3339_nano t = (t / nanoseconds_per_second) ∷ text_tail (t % nanoseconds_per_second)

-- Lexicographic order, the one that the engines compare text by.
unfoldable pub text_lt : List ℕ → List ℕ → Bool
text_lt [] [] = false
text_lt [] (y ∷ ys) = true
text_lt (x ∷ xs) [] = false
text_lt (x ∷ xs) (y ∷ ys) = ltb x y || (x == y && text_lt xs ys)

-- `column_a < column_b` for timestamps.
unfoldable pub before : ℕ → ℕ → Bool
unfolding rfc3339_nano text_lt
before t u = text_lt (rfc3339_nano t) (rfc3339_nano u)

-- `sqlTime` of internal/booking/list.go: the text of the instant cut down to its second.
unfoldable pub sql_time : ℕ → ℕ
sql_time t = t / nanoseconds_per_second * nanoseconds_per_second

text_lt_irrefl : (xs : List ℕ) → text_lt xs xs ≡ false
unfolding text_lt
text_lt_irrefl [] = refl
text_lt_irrefl (x ∷ xs) = ground (arith, text_lt_irrefl xs)

-- Two timestamps of whole seconds are ordered as instants.
pub before_whole :
    (t u : ℕ)
    → t % nanoseconds_per_second ≡ 0
    → u % nanoseconds_per_second ≡ 0
    → before t u ≡ ltb t u
unfolding before rfc3339_nano text_lt text_tail
before_whole t u h k = ground arith

-- Timestamps of different seconds are ordered as instants, whatever their fractions.
pub before_seconds :
    (t u : ℕ)
    → t / nanoseconds_per_second < u / nanoseconds_per_second
    → (before t u ≡ true) × (before u t ≡ false)
unfolding before rfc3339_nano text_lt
before_seconds t u h = ground arith

-- Within one second the order is not that of the instants: any fraction sorts below none.
pub before_fraction :
    (t u : ℕ)
    → t / nanoseconds_per_second ≡ u / nanoseconds_per_second
    → t % nanoseconds_per_second ≡ 0
    → u % nanoseconds_per_second ≢ 0
    → (t < u) × (before u t ≡ true) × (before t u ≡ false)
unfolding before rfc3339_nano text_lt text_tail
before_fraction t u e h k = (omega arith, ground arith, ground arith)

pub before_irrefl : (t : ℕ) → before t t ≡ false
unfolding before
before_irrefl t = text_lt_irrefl (rfc3339_nano t)
