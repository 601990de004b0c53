-- ===== src/Handler/Tests.antt =====
-- Runs of the handlers of internal/handler: a workspace of three users, and the hours of one of them.
use district_scheduler.Common.{
  inl, ℕ, ◌+◌, ◌*◌, ◌/◌, ◌≡◌, refl, true, false, List, [], ◌∷◌, arith, none, some, Option,
}
use district_scheduler.Common.Fallible.{ok}
use district_scheduler.Slots.WallClock.{Zones, CivilDate}
use district_scheduler.Slots.WallClock.Reading.{hhmm_text}
use district_scheduler.Slots.Day.{day_length, resolve_day, override_windows, weekday}
use district_scheduler.Slots.Generate.Totality.{is_ok, time_reads}
use district_scheduler.Handler.Roles.{
  User, Actor, Workspace, admin, transfer_ownership, find_user, set_user_role,
}
use district_scheduler.Handler.Roles.Rows.{HasKey}
use district_scheduler.Handler.Roles.Owner.{
  IsOwned, Request, set_role, transfer, archive, restore, serve_all, all_proper, one_owner,
  live_owners,
}
use district_scheduler.Handler.Roles.Lockout.{session, serve_sessions, transfer-locks_out}
use district_scheduler.Handler.Idempotency.{Attempt, admit, finish_key, replayed}
use district_scheduler.Handler.Idempotency.Once.{
  Desk, Reach, here, next, started, IsOnce, Reach-IsOnce,
}
use district_scheduler.Handler.Idempotency.Replays.{stored-replays}
use district_scheduler.Handler.Hours.{valid_hhmm, Rule, RuleRequest, day, create_rule, done}
use district_scheduler.Handler.Overrides.{OverrideRequest, on, given, custom_hours, day_off}
use district_scheduler.Handler.Overrides.Coherent.{IsCoherent, empty-IsCoherent}
use district_scheduler.Handler.Overrides.Kept
use district_scheduler.Handler.Overrides.Kept.{serve_all-IsCoherent}
use district_scheduler.Handler.Schedule.{load_rules, load_overrides}
use district_scheduler.Handler.Schedule.Resolved.{schedule_resolves}
use district_scheduler.Handler.Schedule.Unreadable.{created_rule-breaks}

abbrev owner : User
owner = record { id = 1; is_admin = true; is_owner = true; archived_at = none; archived_by = none }

abbrev member : User
member = record {
  id = 2;
  is_admin = false;
  is_owner = false;
  archived_at = none;
  archived_by = none;
}

abbrev gone : User
gone = record {
  id = 3;
  is_admin = false;
  is_owner = false;
  archived_at = some 5;
  archived_by = some 1;
}

abbrev office : Workspace
office = record { users = owner ∷ member ∷ gone ∷ []; event_types = []; bookings = [] }

abbrev as_owner : Option Actor
as_owner = some (record { id = 1; is_admin = true; is_owner = true })

office-HasKey : HasKey office.users
office-HasKey id = ground arith

office-IsOwned : IsOwned office.users
unfolding live_owners
office-IsOwned = record { key = office-HasKey; one = refl }

-- The owner makes the member an admin and then the owner, and archives nobody.
abbrev handover : List (Option Actor × Request)
handover =
    (as_owner, set_role 2 (some admin)) ∷ (as_owner, transfer 2) ∷ (as_owner, archive 2 9) ∷ []

one_owner_example : IsOwned (serve_all handover office).users
unfolding all_proper set_user_role transfer_ownership
one_owner_example = one_owner handover office office-IsOwned refl

transfer-locks_out_example :
    (after : Workspace) × (transfer_ownership (session 1 office) 3 office ≡ ok after)
    × (live_owners (serve_sessions ((2, transfer 2) ∷ (3, restore 3) ∷ []) after).users ≡ 0)
unfolding find_user
transfer-locks_out_example =
    transfer-locks_out 1 3 ((2, transfer 2) ∷ (3, restore 3) ∷ []) office owner gone office-HasKey
      refl refl refl refl refl refl

-- Two hours in the morning of the seventh day.
abbrev morning : OverrideRequest
morning = record {
  date = on 7;
  end_date = none;
  reason = given custom_hours;
  start_time = some (hhmm_text 9 0);
  end_time = some (hhmm_text 11 0);
  is_available = none;
}

abbrev ids : ℕ → ℕ → ℕ
ids from n = from + n

abbrev requests : List (ℕ × Kept.Request)
requests =
    (1, Kept.post (ids 1) (some morning))
    ∷ (1, Kept.post (ids 5) (some (record morning { reason = given day_off })))
    ∷ []

serve_all-IsCoherent_example : IsCoherent (Kept.serve_all requests [])
serve_all-IsCoherent_example = serve_all-IsCoherent requests [] empty-IsCoherent

-- A zone that keeps UTC.
abbrev date_of : ℕ → CivilDate
date_of t = record { year = 0; month = 0; day = t / day_length }

abbrev utc : Zones
utc = record {
  local_date = λ loc t. date_of t;
  utc_date = date_of;
  wall_clock = λ loc date h m. date.day * day_length + h * 60 + m;
}

abbrev monday : Rule
monday = record {
  id = 1;
  user_id = 1;
  event_type_id = none;
  day_of_week = 1;
  start_time = hhmm_text 9 0;
  end_time = hhmm_text 17 0;
}

schedule_resolves_example :
    is_ok (
      resolve_day utc 0
        (7 * day_length)
        (load_rules 1 2 (monday ∷ []))
        (load_overrides 1 (Kept.serve_all requests [])))
    ≡ true
unfolding valid_hhmm
schedule_resolves_example =
    schedule_resolves utc 1 2 0 (7 * day_length) (monday ∷ []) requests [] refl empty-IsCoherent

-- A start of `25:99`.
abbrev impossible : RuleRequest
impossible = record {
  event_type_id = none;
  day_of_week = day 1;
  start_time = b'2' ∷ b'5' ∷ b':' ∷ b'9' ∷ b'9' ∷ [];
  end_time = hhmm_text 17 0;
}

created_rule-breaks_example :
    ((create_rule 1 2 (some impossible) (monday ∷ [])).1 ≡ done)
    × (is_ok (
          resolve_day utc 0
            (7 * day_length)
            (load_rules 1 2 (create_rule 1 2 (some impossible) (monday ∷ [])).0)
            [])
        ≡ false)
unfolding time_reads weekday override_windows
created_rule-breaks_example =
    created_rule-breaks utc 1 2 2 0 (7 * day_length) impossible (monday ∷ []) [] refl refl refl refl
      refl refl refl

-- An attempt with a key, and the table before and after it has taken the key.
abbrev attempt : Attempt
attempt = record { key = 7; key_length = 1; body_hash = 40 }

abbrev idle : Desk
idle = record { keys = []; running = []; made = []; undone = []; purged = [] }

abbrev busy : Desk
busy = record idle { keys = (admit attempt []).1; running = 7 ∷ [] }

idle-IsOnce : IsOnce idle
idle-IsOnce = record { once = λ key. omega arith; held = λ key f. omega arith }

to_busy : Reach idle busy
unfolding admit
to_busy = next here (started attempt refl)

Reach-IsOnce_example : IsOnce busy
Reach-IsOnce_example = Reach-IsOnce to_busy idle-IsOnce

stored-replays_example :
    admit attempt (finish_key 7 201 99 busy.keys) ≡ (replayed 201 99, finish_key 7 201 99 busy.keys)
unfolding admit
stored-replays_example =
    stored-replays busy (record idle { keys = finish_key 7 201 99 busy.keys; made = 7 ∷ [] }) 7 201
      99 (record { request_hash = 40; status_code = 0; response_body = 0 }) attempt
      (Reach-IsOnce to_busy idle-IsOnce) (inl refl) refl (omega arith) here refl refl (omega arith)
      (omega arith)
