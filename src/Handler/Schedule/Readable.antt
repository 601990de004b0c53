-- ===== src/Handler/Schedule/Readable.antt =====
-- Whether slot generation can read what the handlers of internal/handler/availability.go and override.go store.
use district_scheduler.Common.{
  ℕ, ◌+◌, ◌*◌, ◌/◌, ◌%◌, ◌<◌, ◌≡◌, refl, true, ◌&&◌, [], ◌∷◌, arith, ltb,
}
use district_scheduler.Slots.WallClock.{is_digit}
use district_scheduler.Slots.WallClock.Reading.{
  two_digits, hhmm_text, clock_field-two_digits, split_colon-hhmm_text,
}
use district_scheduler.Slots.Generate.Totality.{time_reads}
use district_scheduler.Handler.Hours.{Text, text_lt, valid_hhmm, two_digits_value}

two_digits_of :
    (a b : ℕ) → is_digit a && is_digit b ≡ true → two_digits (two_digits_value a b) ≡ a ∷ b ∷ []
two_digits_of a b h =
    let low : b'0' + two_digits_value a b % 10 ≡ b = ground arith in
    let high : b'0' + two_digits_value a b / 10 ≡ a = ground arith in rw (low, high) refl

-- A text that the handlers accept is a time of day, in two digits each.
pub valid_hhmm-hhmm_text :
    (text : Text)
    → valid_hhmm text ≡ true
    → (h : ℕ) × (m : ℕ) × (h < 24) × (m < 60) × (text ≡ hhmm_text h m)
unfolding valid_hhmm
valid_hhmm-hhmm_text (a ∷ b ∷ c ∷ d ∷ e ∷ []) v = (
  two_digits_value a b,
  two_digits_value d e,
  ground arith,
  ground arith,
  ground (arith, two_digits_of a b (ground arith), two_digits_of d e (ground arith)),
)
valid_hhmm-hhmm_text [] v = absurd (cc)
valid_hhmm-hhmm_text (a ∷ []) v = absurd (cc)
valid_hhmm-hhmm_text (a ∷ b ∷ []) v = absurd (cc)
valid_hhmm-hhmm_text (a ∷ b ∷ c ∷ []) v = absurd (cc)
valid_hhmm-hhmm_text (a ∷ b ∷ c ∷ d ∷ []) v = absurd (cc)
valid_hhmm-hhmm_text (a ∷ b ∷ c ∷ d ∷ e ∷ f ∷ t) v = absurd (cc)

-- The order of two such texts is that of the times of day.
pub text_lt-hhmm_text :
    (h m h' m' : ℕ)
    → h < 24
    → m < 60
    → h' < 24
    → m' < 60
    → text_lt (hhmm_text h m) (hhmm_text h' m') ≡ ltb (h * 60 + m) (h' * 60 + m')
unfolding text_lt
text_lt-hhmm_text h m h' m' a b c d = ground arith

time_reads-hhmm_text : (h m : ℕ) → h < 24 → m < 60 → time_reads (hhmm_text h m) ≡ true
unfolding time_reads
time_reads-hhmm_text h m a b =
    rw
      (
        split_colon-hhmm_text h m a,
        clock_field-two_digits 23 h (omega arith) (omega arith),
        clock_field-two_digits 59 m (omega arith) (omega arith),
      )
      refl

-- What the handlers accept as a time is read by slot generation.
pub valid_hhmm-time_reads : (text : Text) → valid_hhmm text ≡ true → time_reads text ≡ true
valid_hhmm-time_reads text v =
    let (h, m, a, b, e) = valid_hhmm-hhmm_text text v in rw e (time_reads-hhmm_text h m a b)
