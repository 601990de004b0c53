-- ===== src/Slots/Walk/Marks.antt =====
-- The map from starts to hosts of internal/slots/generate.go, as a set of pairs.
use district_scheduler.Common.{ℕ, ◌≡◌, refl, Bool, false, ◌&&◌, ◌||◌, [], ◌∷◌, arith, ◌==◌, any}
use district_scheduler.Slots.Walk.{Starts, mark}

-- Is the host `id` marked at the start `t`?
unfoldable pub marked : ℕ → ℕ → Starts → Bool
marked t id [] = false
marked t id ((s, ids) ∷ m) = (s == t && any (λ a. a == id) ids) || marked t id m

pub marked-mark :
    (t id s j : ℕ) (m : Starts) → marked t id (mark s j m) ≡ ((s == t && j == id) || marked t id m)
unfolding marked mark
marked-mark t id s j [] = ground arith
marked-mark t id s j ((r, ids) ∷ m) = ground (arith, marked-mark t id s j m)

-- No start has two entries.
abbrev pub has_start : ℕ → Starts → Bool
has_start t m = any (λ e. e.0 == t) m

abbrev pub Distinct : Starts → Type 0
Distinct [] = Unit {0}
Distinct ((s, ids) ∷ m) = (has_start s m ≡ false) × Distinct m

has_start-mark : (t s j : ℕ) (m : Starts) → has_start t (mark s j m) ≡ (s == t || has_start t m)
unfolding mark
has_start-mark t s j [] = ground arith
has_start-mark t s j ((r, ids) ∷ m) = ground (arith, has_start-mark t s j m)

pub mark-Distinct : (s j : ℕ) (m : Starts) → Distinct m → Distinct (mark s j m)
unfolding mark
mark-Distinct s j [] d = (refl, tt)
mark-Distinct s j ((r, ids) ∷ m) d = ground (arith, has_start-mark r s j m, mark-Distinct s j m)
