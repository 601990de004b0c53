-- ===== src/Handler/Overrides.antt =====
-- The dated overrides of a user: internal/handler/override.go. Each handler answers with the rows after it
-- and what it replies; on a fault inside of a transaction the rows are as before.
pub mod Change
pub mod Coherent
pub mod Created
pub mod Updated
pub mod Kept
use district_scheduler.Common.{
  ℕ, zero, suc, ◌+◌, ◌-◌, ◌≡◌, refl, Bool, true, false, not, ◌&&◌, ◌||◌, Option, none, some, List,
  [], ◌∷◌, ◌++◌, ltb, leb, ◌==◌, if◌then◌else◌, any, select,
}
use district_scheduler.Handler.Hours.{
  Text, text_lt, text_eq, valid_hhmm, is_empty_text, Refusal, bad_request, not_found, conflict,
  internal_error, Reply, done, refused,
}

pub data Reason : Type 0 where
  day_off out_of_office custom_hours : Reason

abbrev pub is_custom : Reason → Bool
is_custom day_off = false
is_custom out_of_office = false
is_custom custom_hours = true

-- A row of `availability_overrides`, and an `availOverrideJSON` with the user whose it is.
pub record Override : Type 0 where
  pub id : ℕ
  pub user_id : ℕ
  pub date : ℕ
  pub is_available : Bool
  pub reason : Reason
  pub start_time : Option Text
  pub end_time : Option Text
  pub group_id : Option ℕ

abbrev pub same_day : ℕ → ℕ → Override → Bool
same_day user date r = r.user_id == user && r.date == date

abbrev pub same_text : Option Text → Option Text → Bool
same_text (some s) (some t) = text_eq s t
same_text _ _ = false

-- Do the two rows collide: in `idx_availability_overrides_blocked`, or in the index of custom hours?
abbrev pub collides : Override → Override → Bool
collides r s =
    same_day r.user_id r.date s
    && (if r.is_available
        then s.is_available
          && (same_text r.start_time s.start_time && same_text r.end_time s.end_time)
        else not s.is_available)

-- `INSERT`, which the primary key and the two indexes may refuse.
abbrev pub is_refused : Override → List Override → Bool
is_refused row rows = any (λ r. r.id == row.id || collides row r) rows

-- `DELETE FROM availability_overrides WHERE user_id = ? AND date = ?`
unfoldable pub clear_date : ℕ → ℕ → List Override → List Override
clear_date user date rows = select (λ r. not (same_day user date r)) rows

abbrev pub blocked_row : ℕ → ℕ → ℕ → Reason → Option ℕ → Override
blocked_row id user date reason group = record {
  id = id;
  user_id = user;
  date = date;
  is_available = false;
  reason = reason;
  start_time = none;
  end_time = none;
  group_id = group;
}

-- Clear a date and insert its blocked row.
unfoldable pub block_date : ℕ → ℕ → ℕ → Reason → Option ℕ → List Override → Option (List Override)
unfolding clear_date text_eq
block_date id user date reason group rows =
    let row = blocked_row id user date reason group in
    let cleared = clear_date user date rows in
    if is_refused row cleared then none else some (cleared ++ row ∷ [])

-- The loop over the dates of a range. The n-th of them takes the n-th id.
unfoldable pub block_dates :
    ℕ → (ℕ → ℕ) → ℕ → ℕ → Reason → Option ℕ → List Override → Option (List Override)
unfolding block_date
block_dates zero uid user date reason group rows = some rows
block_dates (suc days) uid user date reason group rows =
    elim (block_date (uid 0) user date reason group rows) [
      | none ↦ none
      | some rows' ↦ block_dates days (λ n. uid (suc n)) user (suc date) reason group rows'
    ]

-- A date of the request: the empty text, one that `time.Parse` refuses, or a day.
pub data DateText : Type 0 where
  empty unreadable : DateText
  on : ℕ → DateText

pub data ReasonText : Type 0 where
  unset other : ReasonText
  given : Reason → ReasonText

pub record OverrideRequest : Type 0 where
  pub date : DateText
  pub end_date : Option DateText
  pub reason : ReasonText
  pub start_time : Option Text
  pub end_time : Option Text
  pub is_available : Option Bool

abbrev pub is_true : Option Bool → Bool
is_true none = false
is_true (some b) = b

-- The reason of the request, or the one that `is_available` stands for.
abbrev pub reason_of : ReasonText → Option Bool → Option Reason
reason_of unset available = some (if is_true available then custom_hours else day_off)
reason_of other available = none
reason_of (given r) available = some r

abbrev pub is_given : Option Text → Bool
is_given none = false
is_given (some t) = not (is_empty_text t)

abbrev pub text_of : Option Text → Text
text_of none = []
text_of (some t) = t

-- Are both times there, valid, and in order?
abbrev pub proper_times : Option Text → Option Text → Bool
proper_times s t =
    is_given s
    && (is_given t
        && (valid_hhmm (text_of s) && (valid_hhmm (text_of t) && text_lt (text_of s) (text_of t))))

abbrev pub custom_row : ℕ → ℕ → ℕ → Option Text → Option Text → Override
custom_row id user date s t = record {
  id = id;
  user_id = user;
  date = date;
  is_available = true;
  reason = custom_hours;
  start_time = s;
  end_time = t;
  group_id = none;
}

abbrev pub replied : List Override → Option (List Override) → List Override × Reply
replied rows none = (rows, refused internal_error)
replied rows (some after) = (after, done)

abbrev pub no_range : Option DateText → Bool
no_range none = true
no_range (some empty) = true
no_range (some _) = false

abbrev pub create_custom : ℕ → ℕ → ℕ → OverrideRequest → List Override → List Override × Reply
create_custom id user date req rows =
    if not (proper_times req.start_time req.end_time)
    then (rows, refused bad_request)
    else if any (λ r. same_day user date r && not r.is_available) rows
    then (rows, refused conflict)
    else if not (no_range req.end_date)
    then (rows, refused bad_request)
    else if is_refused (custom_row id user date req.start_time req.end_time) rows
    then (rows, refused conflict)
    else (rows ++ custom_row id user date req.start_time req.end_time ∷ [], done)

-- `uid` 0 is the group's id, and the rows take the ids after it.
abbrev pub create_range : (ℕ → ℕ) → ℕ → ℕ → ℕ → Reason → List Override → List Override × Reply
create_range uid user date last reason rows =
    if ltb last date
    then (rows, refused bad_request)
    else if ltb 366 (last - date)
    then (rows, refused bad_request)
    else replied rows
        (block_dates (suc (last - date)) (λ n. uid (suc n)) user date reason (some (uid 0)) rows)

abbrev pub create_block :
    (ℕ → ℕ) → ℕ → ℕ → Option DateText → Reason → List Override → List Override × Reply
create_block uid user date none reason rows =
    replied rows (block_date (uid 0) user date reason none rows)
create_block uid user date (some empty) reason rows =
    replied rows (block_date (uid 0) user date reason none rows)
create_block uid user date (some unreadable) reason rows = (rows, refused bad_request)
create_block uid user date (some (on last)) reason rows =
    create_range uid user date last reason rows

abbrev pub create_reasoned :
    (ℕ → ℕ) → ℕ → ℕ → OverrideRequest → Option Reason → List Override → List Override × Reply
create_reasoned uid user date req none rows = (rows, refused bad_request)
create_reasoned uid user date req (some custom_hours) rows =
    create_custom (uid 0) user date req rows
create_reasoned uid user date req (some day_off) rows =
    create_block uid user date req.end_date day_off rows
create_reasoned uid user date req (some out_of_office) rows =
    create_block uid user date req.end_date out_of_office rows

abbrev pub create_dated :
    (ℕ → ℕ) → ℕ → OverrideRequest → DateText → List Override → List Override × Reply
create_dated uid user req empty rows = (rows, refused bad_request)
create_dated uid user req unreadable rows = (rows, refused bad_request)
create_dated uid user req (on date) rows =
    create_reasoned uid user date req (reason_of req.reason req.is_available) rows

-- The body that is not JSON is `none`.
unfoldable pub create_override :
    (ℕ → ℕ) → ℕ → Option OverrideRequest → List Override → List Override × Reply
unfolding block_date block_dates text_eq text_lt valid_hhmm
create_override uid user none rows = (rows, refused bad_request)
create_override uid user (some req) rows = create_dated uid user req req.date rows
