-- ===== src/Slots/Walk.antt =====
-- The walk over the candidate starts: `newParams`, `alignUp` and `hostsByStart` of
-- internal/slots/generate.go. Configured minutes and days are numbers from 0 up.
pub mod Align
pub mod Marks
pub mod Loop
pub mod Withheld
pub mod Days
pub mod Safety
pub mod Invariant
use district_scheduler.Common.{
  ℕ, zero, suc, ◌+◌, ◌-◌, ◌*◌, ◌/◌, ◌%◌, Bool, true, false, Option, none, some, List, [], ◌∷◌, ltb,
  leb, ◌==◌, if◌then◌else◌, any, ◌&&◌, ◌||◌,
}
use district_scheduler.Slots.Interval.{Interval, expand_busy, subtract}
use district_scheduler.Slots.Failure.{Error, host_zone_missing, Result, ok, err, ◌>>=◌, or_fail}
use district_scheduler.Slots.WallClock.{Zones}
use district_scheduler.Slots.Day.{nanoseconds_per_second, day_length, resolve_day}
use district_scheduler.Slots.Routing.{RoutingMode, HostAvailability}

pub record EventConfig : Type 0 where
  pub duration_minutes : ℕ
  pub slot_interval_minutes : ℕ
  pub buffer_before_minutes : ℕ
  pub buffer_after_minutes : ℕ
  pub min_notice_minutes : ℕ
  pub max_future_days : ℕ
  pub routing_mode : RoutingMode

-- `booker_zone` is nil where it is `none`.
pub record Request : Type 0 where
  pub event : EventConfig
  pub hosts : List HostAvailability
  pub date_from : ℕ
  pub date_to : ℕ
  pub booker_zone : Option ℕ
  pub now : ℕ

pub record Params : Type 0 where
  pub dur : ℕ
  pub interval : ℕ
  pub buf_before : ℕ
  pub buf_after : ℕ
  pub min_notice : ℕ
  pub max_future : ℕ
  pub date_from : ℕ
  pub date_to : ℕ

-- `time.Duration(n) * time.Minute`
abbrev pub minutes : ℕ → ℕ
minutes n = n * (60 * nanoseconds_per_second)

-- `t.UTC().Truncate(24 * time.Hour)`
abbrev pub midnight : ℕ → ℕ
midnight t = t / day_length * day_length

unfoldable pub new_params : Request → Params
new_params req = record {
  dur = minutes req.event.duration_minutes;
  interval = minutes req.event.slot_interval_minutes;
  buf_before = minutes req.event.buffer_before_minutes;
  buf_after = minutes req.event.buffer_after_minutes;
  min_notice = req.now + minutes req.event.min_notice_minutes;
  max_future =
      if ltb 0 req.event.max_future_days
      then req.now + req.event.max_future_days * day_length
      else req.now + 365 * day_length;
  date_from = midnight req.date_from;
  date_to = midnight req.date_to;
}

-- Seconds from the start of the year 1 to the start of 1970.
abbrev pub unix_epoch : ℕ
unix_epoch = 62_135_596_800

-- `unix % secs`, made nonnegative, of the second `s` counted from the start of the year 1. Before
-- 1970 Go's remainder of the negative `unix` is at most 0, and `secs` is added where it is below.
unfoldable pub unix_rem : ℕ → ℕ → ℕ
unix_rem secs s =
    if leb unix_epoch s
    then (s - unix_epoch) % secs
    else (let m = (unix_epoch - s) % secs in if m == 0 then 0 else secs - m)

unfoldable pub align_up : ℕ → ℕ → ℕ
align_up t interval =
    let secs = interval / nanoseconds_per_second in
    let rem = unix_rem secs (t / nanoseconds_per_second) in
    if secs == 0 then t else if rem == 0 then t else t + (secs - rem) * nanoseconds_per_second

-- `map[time.Time]map[string]bool`: each start with the ids of the hosts that are marked there.
abbrev pub Starts : Type 0
Starts = List (ℕ × List ℕ)

-- `m[t][id] = true`, with the inner map made where it is missing.
unfoldable pub mark : ℕ → ℕ → Starts → Starts
mark t id [] = (t, id ∷ []) ∷ []
mark t id ((s, ids) ∷ m) = if s == t then (s, id ∷ ids) ∷ m else (s, ids) ∷ mark t id m

-- The maps that a walk fills; `below_notice` is nil where it is `none`.
pub record Walked : Type 0 where
  pub per_start : Starts
  pub below_notice : Option Starts

-- A start below the notice cutoff is collected, unless it is past or nobody collects.
abbrev pub withhold : ℕ → ℕ → ℕ → Option Starts → Option Starts
withhold now t id none = none
withhold now t id (some m) = if ltb t now then some m else some (mark t id m)

unfoldable pub withheld : ℕ → ℕ → ℕ → Walked → Walked
unfolding mark
withheld now t id st = record st { below_notice = withhold now t id st.below_notice }

unfoldable pub offered_at : ℕ → ℕ → Walked → Walked
unfolding mark
offered_at t id st = record st { per_start = mark t id st.per_start }

-- The innermost loop, from the start `t` up to the end of a free window; the fuel bounds its turns.
unfoldable pub start_loop : ℕ → Params → ℕ → ℕ → ℕ → ℕ → Walked → Walked
unfolding withheld offered_at
start_loop zero p now id window_end t st = st
start_loop (suc fuel) p now id window_end t st =
    let after_skip = start_loop fuel p now id window_end (t + p.interval) (withheld now t id st) in
    let after_mark = start_loop fuel p now id window_end (t + p.interval) (offered_at t id st) in
    if ltb window_end (t + p.dur)
    then st
    else if ltb t p.min_notice
    then after_skip
    else if ltb p.max_future t
    then st
    else after_mark

-- Turns that the innermost loop takes at most.
abbrev pub turns : Params → ℕ → ℕ → ℕ
turns p window_end t = suc ((window_end - t) / p.interval)

unfoldable pub window_loop : Params → ℕ → ℕ → List Interval → Walked → Walked
unfolding align_up start_loop
window_loop p now id [] st = st
window_loop p now id (f ∷ fs) st =
    let t = align_up f.start p.interval in
    window_loop p now id fs (start_loop (turns p f.end t) p now id f.end t st)

-- The windows that are walked: less the busy time of the host, in the pass that applies it.
unfoldable pub free_windows : Params → Bool → List Interval → List Interval → List Interval
unfolding subtract expand_busy
free_windows p apply_busy busy [] = []
free_windows p apply_busy busy (w ∷ ws) =
    if apply_busy then subtract (w ∷ ws) (expand_busy busy p.buf_before p.buf_after) else w ∷ ws

-- Days that the outer loop takes at most.
abbrev pub days : Params → ℕ
days p = suc ((p.date_to - p.date_from) / day_length)

module _ (z : Zones) where
  -- The body of the loop over the hosts. `generate` has refused a host without a zone before.
  unfoldable pub host_walk : Params → ℕ → Bool → ℕ → HostAvailability → Walked → Result Walked
  unfolding resolve_day window_loop free_windows
  host_walk p now apply_busy d host st = do
    loc ← or_fail host.location (host_zone_missing host.host_id)
    windows ← resolve_day z loc d host.rules host.overrides
    ok (window_loop p now host.host_id (free_windows p apply_busy host.busy windows) st)

  unfoldable pub host_loop : Params → ℕ → Bool → ℕ → List HostAvailability → Walked → Result Walked
  unfolding host_walk
  host_loop p now apply_busy d [] st = ok st
  host_loop p now apply_busy d (h ∷ hs) st =
      host_walk p now apply_busy d h st >>= host_loop p now apply_busy d hs

  -- The loop over the days; the fuel bounds its turns.
  unfoldable pub day_loop :
      ℕ → Params → ℕ → Bool → List HostAvailability → ℕ → Walked → Result Walked
  unfolding host_loop
  day_loop zero p now apply_busy hosts d st = ok st
  day_loop (suc fuel) p now apply_busy hosts d st =
      let rest =
        host_loop p now apply_busy d hosts st
        >>= day_loop fuel p now apply_busy hosts (d + day_length) in
      if ltb p.date_to d then ok st else rest

  unfoldable pub hosts_by_start : Request → Params → Bool → Option Starts → Result Walked
  unfolding day_loop
  hosts_by_start req p apply_busy below_notice =
      day_loop (days p) p req.now apply_busy req.hosts p.date_from
        (record { per_start = []; below_notice = below_notice })
