-- ===== src/Server/RateLimit/Budget.antt =====
-- How many requests the rate limiter of internal/server/middleware.go lets through.
use district_scheduler.Common.{
  ℕ, suc, ◌+◌, ◌≤◌, ◌<◌, ◌≡◌, refl, ◌∙◌, ◌⊎◌, inl, inr, Bool, true, false, ◌&&◌, none, some, List,
  [], ◌∷◌, arith, ltb, leb, ◌==◌, if◌then◌else◌, Bool-cases, Option-cases, all,
}
use district_scheduler.Common.Maps.{lookup, lookup-insert}
use district_scheduler.Server.RateLimit.{Window, RateLimiter, allow, cleanup, sweep, opened}

-- What happens to a limiter: a request with a key, or a round of the cleanup, each at its time.
pub data Event : Type 0 where
  request : ℕ → ℕ → Event
  tick : ℕ → Event

abbrev pub time_of : Event → ℕ
time_of (request now key) = now
time_of (tick now) = now

abbrev pub after : Event → RateLimiter → RateLimiter
after (request now key) rl = (allow now key rl).1
after (tick now) rl = cleanup now rl

-- Is a request with the key let through?
abbrev pub admitted : ℕ → Event → RateLimiter → ℕ
admitted key (request now k) rl = if k == key && (allow now k rl).0 then 1 else 0
admitted key (tick now) rl = 0

-- How many requests with the key are let through.
unfoldable pub admissions : ℕ → List Event → RateLimiter → ℕ
admissions key [] rl = 0
admissions key (e ∷ es) rl = admitted key e rl + admissions key es (after e rl)

-- A window that is still open survives a round of the cleanup.
lookup-sweep :
    (now key : ℕ) (m : List (ℕ × Window)) (w : Window)
    → lookup key m ≡ some w
    → now ≤ w.expires_at
    → lookup key (sweep now m) ≡ some w
unfolding lookup sweep
lookup-sweep now key [] w e h = absurd (cc)
lookup-sweep now key ((k, v) ∷ m) w e h = elim (Bool-cases (k == key)) [
  | inl same ↦ ground arith
  | inr other ↦ ground (arith, lookup-sweep now key m w)
]

limit-after : (e : Event) (rl : RateLimiter) → (after e rl).limit ≡ rl.limit
unfolding allow cleanup
limit-after (request now k) rl = elim (Option-cases (lookup k rl.windows)) [
  | inl e ↦ ground arith
  | inr (w, e) ↦ ground arith
]
limit-after (tick now) rl = refl

-- A request leaves the windows of the other keys alone.
lookup-allow :
    (now k key : ℕ) (rl : RateLimiter)
    → (k == key) ≡ false
    → lookup key (allow now k rl).1.windows ≡ lookup key rl.windows
unfolding allow
lookup-allow now k key rl other = elim (Option-cases (lookup k rl.windows)) [
  | inl e ↦
      ground
        (arith, lookup-insert k key (record { count = 1; expires_at = now + rl.period }) rl.windows)
  | inr (w, e) ↦ ground (
    arith,
    lookup-insert k key (record { count = 1; expires_at = now + rl.period }) rl.windows,
    lookup-insert k key (record w { count = suc w.count }) rl.windows,
  )
]

-- While the window of a key is open, an event leaves it open and counts what it lets through.
window-after :
    (key : ℕ) (e : Event) (rl : RateLimiter) (w : Window)
    → lookup key rl.windows ≡ some w
    → time_of e ≤ w.expires_at
    → (v : Window) × (lookup key (after e rl).windows ≡ some v)
      × (v.expires_at ≡ w.expires_at)
      × (v.count ≡ admitted key e rl + w.count)
      × ((admitted key e rl ≡ 0) ⊎ (w.count < rl.limit))
unfolding allow cleanup
window-after key (tick now) rl w f h =
    (w, lookup-sweep now key rl.windows w f h, refl, omega arith, inl refl)
window-after key (request now k) rl w f h = elim (Bool-cases (k == key)) [
  | inl same ↦
      let found : lookup k rl.windows ≡ some w = ground arith in
      elim (Bool-cases (leb rl.limit w.count)) [
        | inl full ↦ (w, ground arith, refl, ground arith, ground arith)
        | inr room ↦ (
          record w { count = suc w.count },
          ground (arith, lookup-insert k key (record w { count = suc w.count }) rl.windows),
          refl,
          ground arith,
          ground arith,
        )
      ]
  | inr other ↦ (w, lookup-allow now k key rl other ∙ f, refl, ground arith, ground arith)
]

admitted_le : (key : ℕ) (e : Event) (rl : RateLimiter) → admitted key e rl ≤ 1
admitted_le key (request now k) rl = ground arith
admitted_le key (tick now) rl = omega arith

-- While a window is open, its count and what is still let through stay within the limit.
admissions-open :
    (key : ℕ) (es : List Event) (rl : RateLimiter) (w : Window)
    → lookup key rl.windows ≡ some w
    → all (λ e. leb (time_of e) w.expires_at) es ≡ true
    → w.count ≤ rl.limit
    → admissions key es rl + w.count ≤ rl.limit
unfolding admissions
admissions-open key [] rl w f h c = omega arith
admissions-open key (e ∷ es) rl w f h c =
    let (v, g, x, y, z) = window-after key e rl w f (ground arith) in
    let room : v.count ≤ (after e rl).limit =
      ground (arith, limit-after e rl, admitted_le key e rl, y, z) in
    let rest = admissions-open key es (after e rl) v g (rw x (ground arith)) room in
    omega (arith, limit-after e rl)

-- No window of the key is open at the time.
unfoldable pub is_idle : ℕ → ℕ → RateLimiter → Bool
is_idle key now rl = elim (lookup key rl.windows) [ none ↦ true | some w ↦ ltb w.expires_at now ]

allow-idle :
    (key now : ℕ) (rl : RateLimiter)
    → is_idle key now rl ≡ true
    → allow now key rl ≡ opened now key rl
unfolding is_idle allow
allow-idle key now rl h = elim (Option-cases (lookup key rl.windows)) [
  | inl e ↦ ground arith
  | inr (w, e) ↦ ground arith
]

-- A caller with no open window is let in, and from then on, up to the end of the window that this opens,
-- no more requests of the caller are let through than the limit, whatever requests of others and rounds
-- of the cleanup come in between.
pub admissions_bounded :
    (key now : ℕ) (es : List Event) (rl : RateLimiter)
    → 0 < rl.limit
    → is_idle key now rl ≡ true
    → all (λ e. leb (time_of e) (now + rl.period)) es ≡ true
    → ((allow now key rl).0 ≡ true) × (admissions key (request now key ∷ es) rl ≤ rl.limit)
unfolding admissions
admissions_bounded key now es rl l i h =
    let w : Window = record { count = 1; expires_at = now + rl.period } in
    let e = allow-idle key now rl i in
    let found : lookup key (opened now key rl).1.windows ≡ some w =
      lookup-insert key key w rl.windows ∙ ground arith in
    let rest = admissions-open key es (opened now key rl).1 w found h l in rw e (refl, ground arith)
