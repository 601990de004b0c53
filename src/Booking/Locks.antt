-- ===== src/Booking/Locks.antt =====
-- `lockHosts` of internal/booking/hostlock.go: the advisory locks that a transaction takes before it
-- decides on the availability of hosts, as the list of their keys in the order of their taking.
pub mod Shared
pub mod Crossed
use district_scheduler.Common.{
  ℕ, zero, suc, ◌+◌, ◌-◌, ◌*◌, ◌/◌, ◌%◌, ◌^◌, ◌≤◌, ◌<◌, ◌≡◌, refl, sym, ap, subst, ◌∙◌, ◌≢◌, ◌↔◌,
  ◌⊎◌, inl, inr, Bool, true, false, not, ◌&&◌, ◌||◌, Option, none, some, List, [], ◌∷◌, ◌++◌, map,
  arith, ltb, leb, ◌==◌, if◌then◌else◌, ltb→lt, lt→ltb, leb→le, le→leb, ==_iff, ==_refl, Bool-cases,
  Option-cases, length, any, all, select, any-append, In, In-append, In-append_left,
  In-append_right, any_of_In, In-of_any, not-any_of_In, all_of_In, In-select, In-select_of,
  any_mono, &&_left, &&_right,
}
use district_scheduler.Booking.Store.{CalendarRow, Booking, Seat}
use district_scheduler.Booking.Lifecycle.{seat_holders, holders_or}

pub data Dialect : Type 0 where
  sqlite postgres : Dialect

-- The first eight bytes of SHA-256, big-endian, of the domain with a host's id, and of the domain with
-- the three fields of a calendar: what `crypto/sha256` computes.
pub record Digests : Type 0 where
  pub host : ℕ → ℕ
  pub calendar : ℕ → ℕ → ℕ → ℕ

-- The sixty-four bits read as a signed number, which stands for its distance from the least one:
-- this keeps the order of the signed numbers.
abbrev pub signed_order : ℕ → ℕ
signed_order bits = (bits + 2 ^ 63) % 2 ^ 64

unfoldable pub host_lock_key : Digests → ℕ → ℕ
host_lock_key d id = signed_order (d.host id)

unfoldable pub calendar_lock_key : Digests → CalendarRow → ℕ
calendar_lock_key d c = signed_order (d.calendar c.provider c.account_email c.calendar_id)

-- The calendars that one of the hosts checks or books into. The query's DISTINCT is left to the
-- compaction of the keys.
unfoldable pub calendar_lock_keys : Digests → List CalendarRow → List ℕ → List ℕ
unfolding calendar_lock_key
calendar_lock_keys d calendars hosts = map (calendar_lock_key d) (
    select (λ c. any (λ h. h == c.user_id) hosts && (c.check_conflicts || c.is_destination))
      calendars)

-- `slices.Sort`
unfoldable pub insert_key : ℕ → List ℕ → List ℕ
insert_key k [] = k ∷ []
insert_key k (x ∷ xs) = if leb k x then k ∷ x ∷ xs else x ∷ insert_key k xs

unfoldable pub sort_keys : List ℕ → List ℕ
unfolding insert_key
sort_keys [] = []
sort_keys (k ∷ ks) = insert_key k (sort_keys ks)

-- `slices.Compact`: of equal neighbours the first is kept.
unfoldable pub compact_from : ℕ → List ℕ → List ℕ
compact_from last [] = []
compact_from last (k ∷ ks) = let rest = compact_from k ks in if last == k then rest else k ∷ rest

unfoldable pub compact : List ℕ → List ℕ
unfolding compact_from
compact [] = []
compact (k ∷ ks) = k ∷ compact_from k ks

abbrev named_hosts : List ℕ → List ℕ
named_hosts hosts = select (λ h. not (h == 0)) hosts

unfoldable pub lock_hosts : Dialect → Digests → List CalendarRow → List ℕ → List ℕ
unfolding host_lock_key calendar_lock_keys sort_keys compact
lock_hosts sqlite d calendars hosts = []
lock_hosts postgres d calendars hosts = compact (
    sort_keys (
      map (host_lock_key d) (named_hosts hosts)
      ++ calendar_lock_keys d calendars (named_hosts hosts)))

-- The keys in the order in which the transaction of `Reschedule` of internal/booking/service.go takes them: those
-- of the primary host, and then those of the seat holders, with the primary host for want of a seat.
unfoldable pub reschedule_locks :
    Dialect → Digests → List CalendarRow → Booking → List Seat → List ℕ
unfolding lock_hosts seat_holders
reschedule_locks dialect d calendars b seats =
    lock_hosts dialect d calendars (b.host_id ∷ [])
    ++ lock_hosts dialect d calendars (holders_or b.host_id (seat_holders b.id seats))
