-- ===== src/Slots/Walk/Align.antt =====
-- Where `alignUp` of internal/slots/generate.go puts a start.
use native.Mathlib.Nat.{mod-lt, mod-eq_of_lt, div-add-mod', mul-add-mod_self_right}
use district_scheduler.Common.{
  ℕ, suc, ◌+◌, ◌-◌, ◌*◌, ◌/◌, ◌%◌, ◌≤◌, ◌<◌, ◌≡◌, refl, ap, ◌∙◌, ◌⊎◌, inl, inr, arith, leb, ◌==◌,
  leb→le, Bool-cases,
}
use district_scheduler.Slots.Day.{nanoseconds_per_second}
use district_scheduler.Slots.Walk.{unix_epoch, unix_rem, align_up}

unix_rem-lt : (secs s : ℕ) → 0 < secs → unix_rem secs s < secs
unfolding unix_rem
unix_rem-lt secs s h = grind arith

-- A start is moved later by less than one interval, and never earlier.
pub align_up_bounds :
    (t interval : ℕ) → (t ≤ align_up t interval) × (align_up t interval ≤ t + interval)
unfolding align_up
align_up_bounds t interval =
    ground (arith, unix_rem-lt (interval / nanoseconds_per_second) (t / nanoseconds_per_second))

-- A number is its remainder as soon as a multiple lies below by less than the modulus.
mod-eq : (n q r m : ℕ) → n ≡ q * m + r → r < m → n % m ≡ r
mod-eq n q r m e h = rw e (mul-add-mod_self_right q m r ∙ mod-eq_of_lt h)

-- The second `s` shifted so that the remainder is one of numbers from 0 up.
abbrev shifted : ℕ → ℕ → ℕ
shifted secs s = s + unix_epoch * (secs - 1)

unix_rem_late : (secs s : ℕ) → 0 < secs → unix_epoch ≤ s → unix_rem secs s ≡ shifted secs s % secs
unfolding unix_rem
unix_rem_late secs s h k =
    let e : shifted secs s ≡ unix_epoch * secs + (s - unix_epoch) = omega arith in
    rw (e, mul-add-mod_self_right unix_epoch secs (s - unix_epoch)) (ground arith)

-- `epoch` seconds less `q` whole moduli and `m` more, shifted.
shifted_exact :
    (k s q c epoch : ℕ) → epoch ≡ q + c → s + q * suc k ≡ epoch → s + epoch * k ≡ c * suc k + 0
shifted_exact k s q c epoch e h = let p = ap (λ (t : ℕ). t * k) e in omega arith

shifted_rest :
    (k s q m c epoch : ℕ)
    → m < suc k
    → epoch ≡ q + suc c
    → s + (q * suc k + m) ≡ epoch
    → s + epoch * k ≡ c * suc k + (suc k - m)
shifted_rest k s q m c epoch l e h = let p = ap (λ (t : ℕ). t * k) e in omega arith

quotient_le : (q k m d : ℕ) → q * suc k + m ≡ d → q + m ≤ d
quotient_le q k m d e = omega arith

unix_rem_early : (k s : ℕ) → s < unix_epoch → unix_rem (suc k) s ≡ (s + unix_epoch * k) % suc k
unfolding unix_rem
unix_rem_early k s l = elim (Bool-cases (d % suc k == 0)) [
  | inl e ↦
      let x =
        mod-eq (s + unix_epoch * k) (unix_epoch - q) 0 (suc k)
          (shifted_exact k s q (unix_epoch - q) unix_epoch (omega (arith, b)) (ground arith))
          (omega arith) in
      ground arith
  | inr e ↦
      let x =
        mod-eq (s + unix_epoch * k) (unix_epoch - q - 1) (suc k - d % suc k) (suc k)
          (shifted_rest k s q (d % suc k) (unix_epoch - q - 1) unix_epoch r (ground (arith, b))
            (omega (arith, a)))
          (ground arith) in
      ground arith
]
  where
    d : ℕ
    d = unix_epoch - s

    q : ℕ
    q = d / suc k

    a : q * suc k + d % suc k ≡ d
    a = div-add-mod' d (suc k)

    b : q + d % suc k ≤ d
    b = quotient_le q k (d % suc k) d a

    r : d % suc k < suc k
    r = mod-lt d (omega arith)

unix_rem_lem : (k s : ℕ) → unix_rem (suc k) s ≡ (s + unix_epoch * k) % suc k
unix_rem_lem k s = elim (Bool-cases (leb unix_epoch s)) [
  | inl e ↦ ground (arith, unix_rem_late (suc k) s (omega arith) (leb→le unix_epoch s e))
  | inr e ↦ unix_rem_early k s (ground arith)
]

mod-add_small : (n d m : ℕ) → n % m + d < m → (n + d) % m ≡ n % m + d
mod-add_small n d m h = mod-eq (n + d) (n / m) (n % m + d) m (omega (arith, div-add-mod' n m)) h

mod-add_complement : (n m : ℕ) → 0 < m → (n + (m - n % m)) % m ≡ 0
mod-add_complement n m h =
    mod-eq (n + (m - n % m)) (suc (n / m)) 0 m (omega (arith, div-add-mod' n m, mod-lt n h)) h

-- Completing the remainder reaches a multiple.
unix_rem_complete : (k s : ℕ) → unix_rem (suc k) (s + (suc k - unix_rem (suc k) s)) ≡ 0
unix_rem_complete k s =
    let n = s + unix_epoch * k in
    let e : s + (suc k - n % suc k) + unix_epoch * k ≡ n + (suc k - n % suc k) = omega arith in
    rw (unix_rem_lem k s, unix_rem_lem k (s + (suc k - n % suc k)), e)
      (mod-add_complement n (suc k) (omega arith))

-- A later multiple is at least the completed remainder away.
unix_rem-next :
    (k s v : ℕ)
    → s ≤ v
    → unix_rem (suc k) v ≡ 0
    → 0 < unix_rem (suc k) s
    → s + (suc k - unix_rem (suc k) s) ≤ v
unix_rem-next k s v h e p =
    let n = s + unix_epoch * k in
    let far = mod-add_small n (v - s) (suc k) in
    let same : n + (v - s) ≡ v + unix_epoch * k = omega arith in
    ground (arith, unix_rem_lem k s, unix_rem_lem k v, far, same)

-- Either the start is on the grid, or the rest of the interval is added.
align_up_cases :
    (t interval k : ℕ)
    → interval / nanoseconds_per_second ≡ suc k
    → let s = t / nanoseconds_per_second in
      ((unix_rem (suc k) s ≡ 0) × (align_up t interval ≡ t))
      ⊎ ((0 < unix_rem (suc k) s)
          × (align_up t interval ≡ t + (suc k - unix_rem (suc k) s) * nanoseconds_per_second))
unfolding align_up
align_up_cases t interval k e =
    elim (Bool-cases (unix_rem (suc k) (t / nanoseconds_per_second) == 0)) [
      | inl z ↦ inl (ground arith, ground arith)
      | inr z ↦ inr (ground arith, ground arith)
    ]

-- `alignUp` keeps the fraction of a second, and its result stands on a multiple of the interval
-- since 1970, for an interval of a second or more.
pub align_up_on_grid :
    (t interval : ℕ)
    → 0 < interval / nanoseconds_per_second
    → (unix_rem (interval / nanoseconds_per_second) (align_up t interval / nanoseconds_per_second)
        ≡ 0)
      × (align_up t interval % nanoseconds_per_second ≡ t % nanoseconds_per_second)
align_up_on_grid t interval h =
    let k = interval / nanoseconds_per_second - 1 in
    let e : interval / nanoseconds_per_second ≡ suc k = omega arith in
    rw e (on_grid k (align_up_cases t interval k e))
  where
    on_grid :
        (k : ℕ)
        → ((unix_rem (suc k) (t / nanoseconds_per_second) ≡ 0) × (align_up t interval ≡ t))
          ⊎ ((0 < unix_rem (suc k) (t / nanoseconds_per_second))
              × (align_up t interval
                  ≡ t
                    + (suc k - unix_rem (suc k) (t / nanoseconds_per_second))
                      * nanoseconds_per_second))
        → (unix_rem (suc k) (align_up t interval / nanoseconds_per_second) ≡ 0)
          × (align_up t interval % nanoseconds_per_second ≡ t % nanoseconds_per_second)
    on_grid k (inl (e, same)) = rw same (e, refl)
    on_grid k (inr (l, moved)) =
        let s = t / nanoseconds_per_second in
        let d = suc k - unix_rem (suc k) s in
        let q : (t + d * nanoseconds_per_second) / nanoseconds_per_second ≡ s + d = omega arith in
        rw moved (rw q (unix_rem_complete k s), omega arith)

-- It is the first such instant from `t` on.
pub align_up_least :
    (t u interval : ℕ)
    → 0 < interval / nanoseconds_per_second
    → t ≤ u
    → u % nanoseconds_per_second ≡ t % nanoseconds_per_second
    → unix_rem (interval / nanoseconds_per_second) (u / nanoseconds_per_second) ≡ 0
    → align_up t interval ≤ u
align_up_least t u interval h l f e =
    let k = interval / nanoseconds_per_second - 1 in
    let q : interval / nanoseconds_per_second ≡ suc k = omega arith in
    least k (rw q at e) (align_up_cases t interval k q)
  where
    least :
        (k : ℕ)
        → unix_rem (suc k) (u / nanoseconds_per_second) ≡ 0
        → ((unix_rem (suc k) (t / nanoseconds_per_second) ≡ 0) × (align_up t interval ≡ t))
          ⊎ ((0 < unix_rem (suc k) (t / nanoseconds_per_second))
              × (align_up t interval
                  ≡ t
                    + (suc k - unix_rem (suc k) (t / nanoseconds_per_second))
                      * nanoseconds_per_second))
        → align_up t interval ≤ u
    least k e (inl (_, same)) = omega arith
    least k e (inr (p, moved)) = omega (
      arith,
      unix_rem-next k (t / nanoseconds_per_second) (u / nanoseconds_per_second) (omega arith) e p,
    )
