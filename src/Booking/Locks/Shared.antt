-- ===== src/Booking/Locks/Shared.antt =====
-- In which order locks are taken, and which ones: internal/booking/hostlock.go.
use district_scheduler.Common.{
  ℕ, suc, ◌≤◌, ◌≡◌, refl, sym, subst, ◌∙◌, ◌≢◌, inl, inr, true, ◌&&◌, ◌||◌, List, [], ◌∷◌, ◌++◌,
  map, arith, ◌==◌, ==_iff, Bool-cases, any, any-append, In, In-of_any,
}
use district_scheduler.Booking.Store.{CalendarRow}
use district_scheduler.Booking.Conflict.{shares_calendar}
use district_scheduler.Booking.Create.{contains_id}
use district_scheduler.Booking.Locks.{
  Dialect, sqlite, postgres, Digests, host_lock_key, calendar_lock_key, calendar_lock_keys,
  insert_key, sort_keys, compact_from, compact, lock_hosts, named_hosts,
}

-- Every key is more than the one before it, the first is at least `n`.
abbrev pub Ascending : ℕ → List ℕ → Type 0
Ascending n [] = Unit {0}
Ascending n (k ∷ ks) = (n ≤ k) × Ascending (suc k) ks

abbrev NotFalling : ℕ → List ℕ → Type 0
NotFalling n [] = Unit {0}
NotFalling n (k ∷ ks) = (n ≤ k) × NotFalling k ks

insert_key-NotFalling :
    (n k : ℕ) (ks : List ℕ) → n ≤ k → NotFalling n ks → NotFalling n (insert_key k ks)
unfolding insert_key
insert_key-NotFalling n k [] h s = (h, tt)
insert_key-NotFalling n k (x ∷ xs) h s = ground (arith, insert_key-NotFalling x k xs)

sort_keys-NotFalling : (ks : List ℕ) → NotFalling 0 (sort_keys ks)
unfolding sort_keys
sort_keys-NotFalling [] = tt
sort_keys-NotFalling (k ∷ ks) =
    insert_key-NotFalling 0 k (sort_keys ks) (omega arith) (sort_keys-NotFalling ks)

compact_from-Ascending :
    (last : ℕ) (ks : List ℕ) → NotFalling last ks → Ascending (suc last) (compact_from last ks)
unfolding compact_from
compact_from-Ascending last [] s = tt
compact_from-Ascending last (k ∷ ks) s = elim (Bool-cases (last == k)) [
  | inl e ↦
      let same : last ≡ k = (==_iff last k).0 e in rw e (rw same (compact_from-Ascending k ks s.1))
  | inr e ↦ rw e (ground arith, compact_from-Ascending k ks s.1)
]

compact-Ascending : (ks : List ℕ) → NotFalling 0 ks → Ascending 0 (compact ks)
unfolding compact
compact-Ascending [] s = tt
compact-Ascending (k ∷ ks) s = (s.0, compact_from-Ascending k ks s.1)

-- One call of `lockHosts` takes its locks in strictly rising order of their keys, and so each key once,
-- whichever hosts it is given, in whichever order.
pub lock_hosts-Ascending :
    (dialect : Dialect) (d : Digests) (calendars : List CalendarRow) (hosts : List ℕ)
    → Ascending 0 (lock_hosts dialect d calendars hosts)
unfolding lock_hosts
lock_hosts-Ascending sqlite d calendars hosts = tt
lock_hosts-Ascending postgres d calendars hosts =
    let keys =
      map (host_lock_key d) (named_hosts hosts)
      ++ calendar_lock_keys d calendars (named_hosts hosts) in
    compact-Ascending (sort_keys keys) (sort_keys-NotFalling keys)

contains_id-insert_key :
    (k x : ℕ) (ks : List ℕ) → contains_id (insert_key k ks) x ≡ (k == x || contains_id ks x)
unfolding insert_key
contains_id-insert_key k x [] = refl
contains_id-insert_key k x (y ∷ ys) = ground (arith, contains_id-insert_key k x ys)

contains_id-sort_keys : (x : ℕ) (ks : List ℕ) → contains_id (sort_keys ks) x ≡ contains_id ks x
unfolding sort_keys
contains_id-sort_keys x [] = refl
contains_id-sort_keys x (k ∷ ks) =
    ground (arith, contains_id-insert_key k x (sort_keys ks), contains_id-sort_keys x ks)

contains_id-compact_from :
    (last x : ℕ) (ks : List ℕ)
    → (last == x || contains_id (compact_from last ks) x) ≡ (last == x || contains_id ks x)
unfolding compact_from
contains_id-compact_from last x [] = refl
contains_id-compact_from last x (k ∷ ks) = ground (arith, contains_id-compact_from k x ks)

contains_id-compact : (x : ℕ) (ks : List ℕ) → contains_id (compact ks) x ≡ contains_id ks x
unfolding compact
contains_id-compact x [] = refl
contains_id-compact x (k ∷ ks) = contains_id-compact_from k x ks

contains_id-append :
    (xs ys : List ℕ) (h : ℕ) → contains_id (xs ++ ys) h ≡ (contains_id xs h || contains_id ys h)
contains_id-append xs ys h = any-append (λ x. x == h) xs ys

-- The keys of a transaction are those of its named hosts and of their calendars.
lock_hosts-keys :
    (d : Digests) (calendars : List CalendarRow) (hosts : List ℕ) (x : ℕ)
    → contains_id (lock_hosts postgres d calendars hosts) x ≡ (
        contains_id (map (host_lock_key d) (named_hosts hosts)) x
        || contains_id (calendar_lock_keys d calendars (named_hosts hosts)) x)
unfolding lock_hosts
lock_hosts-keys d calendars hosts x =
    let keys =
      map (host_lock_key d) (named_hosts hosts)
      ++ calendar_lock_keys d calendars (named_hosts hosts) in
    contains_id-compact x (sort_keys keys)
    ∙ contains_id-sort_keys x keys
    ∙ contains_id-append (map (host_lock_key d) (named_hosts hosts))
        (calendar_lock_keys d calendars (named_hosts hosts)) x

contains_id-map :
    (f : ℕ → ℕ) (a : ℕ) (xs : List ℕ)
    → contains_id xs a ≡ true
    → contains_id (map f xs) (f a) ≡ true
contains_id-map f a [] h = absurd (cc)
contains_id-map f a (x ∷ xs) h = elim (Bool-cases (x == a)) [
  | inl e ↦ let same : x ≡ a = (==_iff x a).0 e in rw same (ground arith)
  | inr e ↦ ground (arith, contains_id-map f a xs)
]

named_hosts-keeps :
    (hosts : List ℕ) (h : ℕ)
    → h ≢ 0
    → contains_id hosts h ≡ true
    → contains_id (named_hosts hosts) h ≡ true
named_hosts-keeps [] h n m = absurd (cc)
named_hosts-keeps (x ∷ xs) h n m = ground (arith, named_hosts-keeps xs h n)

-- On Postgres every host that is named is locked.
pub lock_hosts-host :
    (d : Digests) (calendars : List CalendarRow) (hosts : List ℕ) (h : ℕ)
    → h ≢ 0
    → contains_id hosts h ≡ true
    → contains_id (lock_hosts postgres d calendars hosts) (host_lock_key d h) ≡ true
lock_hosts-host d calendars hosts h n m = ground (
  arith,
  lock_hosts-keys d calendars hosts (host_lock_key d h),
  contains_id-map (host_lock_key d) h (named_hosts hosts) (named_hosts-keeps hosts h n m),
)

calendar_lock_keys-row :
    (d : Digests) (calendars : List CalendarRow) (hosts : List ℕ) (c : CalendarRow)
    → In c calendars
    → contains_id hosts c.user_id ≡ true
    → (c.check_conflicts || c.is_destination) ≡ true
    → contains_id (calendar_lock_keys d calendars hosts) (calendar_lock_key d c) ≡ true
unfolding calendar_lock_keys
calendar_lock_keys-row d [] hosts c m h u = elim m [ ]
calendar_lock_keys-row d (x ∷ xs) hosts c (inl e) h u = rw e (ground arith)
calendar_lock_keys-row d (x ∷ xs) hosts c (inr m) h u =
    ground (arith, calendar_lock_keys-row d xs hosts c m h u)

-- Two rows that name one calendar have one key.
calendar_lock_key-same :
    (d : Digests) (c e : CalendarRow)
    → e.provider ≡ c.provider
    → e.account_email ≡ c.account_email
    → e.calendar_id ≡ c.calendar_id
    → calendar_lock_key d e ≡ calendar_lock_key d c
unfolding calendar_lock_key
calendar_lock_key-same d c e p q r = rw (p, q, r)

lock_hosts-calendar :
    (d : Digests) (calendars : List CalendarRow) (hosts : List ℕ) (c : CalendarRow)
    → In c calendars
    → c.user_id ≢ 0
    → contains_id hosts c.user_id ≡ true
    → (c.check_conflicts || c.is_destination) ≡ true
    → contains_id (lock_hosts postgres d calendars hosts) (calendar_lock_key d c) ≡ true
lock_hosts-calendar d calendars hosts c m n h u = ground (
  arith,
  lock_hosts-keys d calendars hosts (calendar_lock_key d c),
  calendar_lock_keys-row d calendars (named_hosts hosts) c m (named_hosts-keeps hosts c.user_id n h)
      u,
)

-- On Postgres, two named hosts of whom one books into a calendar that the other checks take a
-- common lock: the transactions for the one and for the other cannot interleave, also where the
-- hosts differ.
pub shared_calendar_locked :
    (d : Digests) (calendars : List CalendarRow) (a b : ℕ) (for_a for_b : List ℕ)
    → a ≢ 0
    → b ≢ 0
    → shares_calendar calendars a b ≡ true
    → contains_id for_a a ≡ true
    → contains_id for_b b ≡ true
    → (k : ℕ) × (contains_id (lock_hosts postgres d calendars for_a) k ≡ true)
      × (contains_id (lock_hosts postgres d calendars for_b) k ≡ true)
unfolding shares_calendar
shared_calendar_locked d calendars a b for_a for_b na nb s ha hb =
    let (c, m, p) =
      In-of_any
        (λ checked.
          (checked.user_id == a && checked.check_conflicts)
          && any
              (λ destination.
                (destination.provider == checked.provider
                  && (destination.account_email == checked.account_email
                      && destination.calendar_id == checked.calendar_id))
                && (destination.user_id == b && destination.is_destination))
              calendars)
        calendars s in
    let (e, n, q) =
      In-of_any
        (λ destination.
          (destination.provider == c.provider
            && (destination.account_email == c.account_email
                && destination.calendar_id == c.calendar_id))
          && (destination.user_id == b && destination.is_destination))
        calendars (ground arith) in
    let ua : c.user_id ≡ a = ground arith in
    let ub : e.user_id ≡ b = ground arith in
    (
      calendar_lock_key d c,
      lock_hosts-calendar d calendars for_a c m (subst (λ x. x ≢ 0) (sym ua) na)
          (subst (λ x. contains_id for_a x ≡ true) (sym ua) ha) (ground arith),
      subst (λ k. contains_id (lock_hosts postgres d calendars for_b) k ≡ true)
          (calendar_lock_key-same d c e (ground arith) (ground arith) (ground arith))
          (lock_hosts-calendar d calendars for_b e n (subst (λ x. x ≢ 0) (sym ub) nb)
            (subst (λ x. contains_id for_b x ≡ true) (sym ub) hb) (ground arith)),
    )
