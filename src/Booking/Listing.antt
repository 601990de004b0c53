-- ===== src/Booking/Listing.antt =====
-- Listing bookings: `ListFilter`, `List` and `Counts` of internal/booking/list.go, as what their queries
-- select. An instant of 0 is the zero `time.Time`; ids are numbered in the order of their texts.
pub mod Pages
use district_scheduler.Common.{
  ℕ, zero, suc, ◌+◌, ◌-◌, ◌*◌, ◌/◌, ◌%◌, ◌^◌, ◌≤◌, ◌<◌, ◌≡◌, refl, sym, ap, ◌∙◌, ◌≢◌, ◌↔◌, ◌⊎◌, inl,
  inr, Bool, true, false, not, ◌&&◌, ◌||◌, Option, none, some, List, [], ◌∷◌, ◌++◌, map, arith, ltb,
  leb, ◌==◌, if◌then◌else◌, ltb→lt, lt→ltb, leb→le, le→leb, ==_iff, ==_refl, Bool-cases,
  Option-cases, length, any, all, select, any-append, In, In-append, In-append_left,
  In-append_right, any_of_In, In-of_any, not-any_of_In, all_of_In, In-select, In-select_of,
  any_mono, &&_left, &&_right,
}
use district_scheduler.Booking.Stamp.{before, sql_time}
use district_scheduler.Booking.Store.{
  Booking, Seat, Store, Status, confirmed, cancelled, is_cancelled,
}
use district_scheduler.Booking.Conflict.{attends}

-- `ListFilter.Status`: the empty text, a status, or a text that is no status of any row.
pub data StatusFilter : Type 0 where
  unset unknown : StatusFilter
  exactly : Status → StatusFilter

-- `ListFilter.When`: the empty text, "past", or any other text, which counts as "upcoming".
pub data When : Type 0 where
  always upcoming past : When

pub record ListFilter : Type 0 where
  pub viewer_id : ℕ
  pub event_type_id : ℕ
  pub host_id : ℕ
  pub team_id : ℕ
  pub status : StatusFilter
  pub from : ℕ
  pub to : ℕ
  pub when : When
  pub now : ℕ
  pub descending : Bool
  pub limit : ℕ
  pub offset : ℕ

pub record Counts : Type 0 where
  pub upcoming : ℕ
  pub past : ℕ

-- `Counts.Total`
unfoldable pub total : Counts → ℕ
total c = c.upcoming + c.past

-- A row of `team_members`.
pub record Member : Type 0 where
  pub team_id : ℕ
  pub user_id : ℕ

unfoldable pub hosts_booking : List Seat → ℕ → Booking → Bool
unfolding attends
hosts_booking seats user b = b.host_id == user || attends seats b.id user

unfoldable pub team_hosts_booking : List Member → List Seat → ℕ → Booking → Bool
unfolding hosts_booking
team_hosts_booking members seats team b =
    any (λ m. m.team_id == team && hosts_booking seats m.user_id b) members

abbrev pub has_status : StatusFilter → Status → Bool
has_status unset s = not (is_cancelled s)
has_status unknown s = false
has_status (exactly confirmed) s = not (is_cancelled s)
has_status (exactly cancelled) s = is_cancelled s

abbrev pub on_side : When → ℕ → Booking → Bool
on_side always now b = true
on_side upcoming now b = not (before b.end_at (sql_time now))
on_side past now b = before b.end_at (sql_time now)

-- `where`: the conditions, each of them only where its field is set.
unfoldable pub matches : List Member → List Seat → ListFilter → Bool → Booking → Bool
unfolding hosts_booking team_hosts_booking
matches members seats f include_when b =
    has_status f.status b.status
    && ((f.viewer_id == 0 || hosts_booking seats f.viewer_id b)
        && ((f.host_id == 0 || hosts_booking seats f.host_id b)
            && ((f.team_id == 0 || team_hosts_booking members seats f.team_id b)
                && ((f.event_type_id == 0 || b.event_type_id == f.event_type_id)
                    && ((f.from == 0 || not (before b.start_at (sql_time f.from)))
                        && ((f.to == 0 || before b.start_at (sql_time f.to))
                            && (not include_when || (f.now == 0 || on_side f.when f.now b))))))))

-- `ORDER BY start_at, id`
unfoldable pub precedes : Booking → Booking → Bool
precedes b c = before b.start_at c.start_at || (not (before c.start_at b.start_at) && leb b.id c.id)

abbrev pub in_order : Bool → Booking → Booking → Bool
in_order false b c = precedes b c
in_order true b c = precedes c b

unfoldable pub insert_row : Bool → Booking → List Booking → List Booking
unfolding precedes
insert_row desc b [] = b ∷ []
insert_row desc b (c ∷ cs) = if in_order desc b c then b ∷ c ∷ cs else c ∷ insert_row desc b cs

unfoldable pub order_by : Bool → List Booking → List Booking
unfolding insert_row
order_by desc [] = []
order_by desc (b ∷ bs) = insert_row desc b (order_by desc bs)

unfoldable pub take_rows : ℕ → List Booking → List Booking
take_rows zero bs = []
take_rows (suc n) [] = []
take_rows (suc n) (b ∷ bs) = b ∷ take_rows n bs

unfoldable pub drop_rows : ℕ → List Booking → List Booking
drop_rows zero bs = bs
drop_rows (suc n) [] = []
drop_rows (suc n) (b ∷ bs) = drop_rows n bs

-- `LIMIT ? OFFSET ?`, only where the limit is set.
unfoldable pub page : ℕ → ℕ → List Booking → List Booking
unfolding take_rows drop_rows
page limit offset bs = if ltb 0 limit then take_rows limit (drop_rows offset bs) else bs

unfoldable pub list : List Member → Store → ListFilter → List Booking
unfolding matches order_by page
list members store f =
    page f.limit f.offset
      (order_by f.descending (select (matches members store.seats f true) store.bookings))

abbrev pub or_clock : ℕ → ℕ → ℕ
or_clock now clock = if now == 0 then clock else now

unfoldable pub counts : List Member → Store → ListFilter → ℕ → Counts
unfolding matches
counts members store f clock =
    let rows = select (matches members store.seats f false) store.bookings in
    let now = or_clock f.now clock in
    record {
      upcoming = length (select (λ b. not (before b.end_at (sql_time now))) rows);
      past = length (select (λ b. before b.end_at (sql_time now)) rows);
    }
