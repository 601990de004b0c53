-- ===== src/Worker/Queue.antt =====
-- The job queue of internal/worker/worker.go: what `Poll` does with the table `jobs`. Instants are numbers of
-- nanoseconds. All that the code formats by RFC3339 is cut to its second, and texts of whole seconds are
-- ordered as their instants; `finished_at` is written by RFC3339Nano too, and compared as text. A round reads the
-- clock once where the code reads it for each query. What processing a job takes and how it ends comes from
-- the environment, a run for each job.
pub mod Settle
pub mod Distinct
pub mod Batch
pub mod Ready
pub mod Progress
pub mod Stale
use district_scheduler.Booking.Stamp.{before}
use district_scheduler.Common.{
  ℕ, zero, suc, ◌+◌, ◌-◌, ◌*◌, ◌/◌, ◌≤◌, arith, ◌≡◌, refl, Bool, true, false, not, ◌&&◌, ◌||◌,
  Option, none, some, List, [], ◌∷◌, ◌++◌, ltb, leb, ◌==◌, if◌then◌else◌, any, select,
}

-- `jobs.status`
pub data Status : Type 0 where
  pending running done failed : Status

abbrev pub is_pending : Status → Bool
is_pending pending = true
is_pending running = false
is_pending done = false
is_pending failed = false

abbrev pub is_running : Status → Bool
is_running pending = false
is_running running = true
is_running done = false
is_running failed = false

abbrev pub is_final : Status → Bool
is_final pending = false
is_final running = false
is_final done = true
is_final failed = true

-- A row of `jobs`.
pub record Job : Type 0 where
  pub id : ℕ
  pub status : Status
  pub attempts : ℕ
  pub max_attempts : ℕ
  pub run_at : ℕ
  pub locked_until : ℕ
  pub finished_at : Option ℕ

abbrev pub second : ℕ
second = 1_000_000_000

abbrev pub minute : ℕ
minute = 60 * second

-- `30 * 24 * time.Hour`
abbrev pub retention : ℕ
retention = 43_200 * minute

-- The instant that `t.Format(time.RFC3339)` keeps.
unfoldable pub whole : ℕ → ℕ
whole t = t / second * second

pub whole-le : (t : ℕ) → whole t ≤ t
unfolding whole
whole-le t = omega arith

unfoldable pub backoff : ℕ → ℕ
backoff attempt = if attempt == 1 then 60 * second else 5 * minute

-- `UPDATE jobs SET … WHERE …`
unfoldable pub update_where : (Job → Bool) → (Job → Job) → List Job → List Job
update_where p f [] = []
update_where p f (j ∷ js) = (if p j then f j else j) ∷ update_where p f js

-- `finished_at IS NOT NULL AND finished_at < ?`, which compares texts.
abbrev pub finished_before : Option ℕ → ℕ → Bool
finished_before none cutoff = false
finished_before (some t) cutoff = before t cutoff

-- `DELETE FROM jobs` of the final ones that finished before the cutoff.
unfoldable pub purge : ℕ → List Job → List Job
purge cutoff jobs =
    select (λ j. not (is_final j.status && finished_before j.finished_at cutoff)) jobs

abbrev pub is_expired : ℕ → Job → Bool
is_expired now j = is_running j.status && ltb j.locked_until now

-- The two updates of the reaper.
unfoldable pub reap : ℕ → List Job → List Job
unfolding update_where
reap now jobs =
    update_where (λ j. is_expired now j && leb j.max_attempts j.attempts)
      (λ j. record j { status = failed; finished_at = some now })
      (update_where (λ j. is_expired now j && ltb j.attempts j.max_attempts)
        (λ j. record j { status = pending; run_at = now + minute }) jobs)

-- `ORDER BY run_at ASC, id ASC`
abbrev pub precedes : Job → Job → Bool
precedes a b = ltb a.run_at b.run_at || (a.run_at == b.run_at && leb a.id b.id)

unfoldable pub place : Job → List Job → List Job
place j [] = j ∷ []
place j (k ∷ ks) = let rest = place j ks in if precedes j k then j ∷ k ∷ ks else k ∷ rest

unfoldable pub by_run_at : List Job → List Job
unfolding place
by_run_at [] = []
by_run_at (j ∷ js) = place j (by_run_at js)

unfoldable pub take : ℕ → List Job → List Job
take zero js = []
take (suc n) [] = []
take (suc n) (j ∷ js) = j ∷ take n js

abbrev pub is_due : ℕ → Job → Bool
is_due now j = is_pending j.status && leb j.run_at now

unfoldable pub due : ℕ → List Job → List Job
unfolding by_run_at take
due now jobs = take 10 (by_run_at (select (is_due now) jobs))

-- How processing a job goes: when it is claimed, whether `processJob` returns an error, and when.
pub record Run : Type 0 where
  pub claimed_at : ℕ
  pub succeeds : Bool
  pub ended_at : ℕ

abbrev pub has_id : ℕ → Job → Bool
has_id id j = j.id == id

abbrev pub waits : ℕ → Job → Bool
waits id j = j.id == id && is_pending j.status

abbrev pub runs : ℕ → Job → Bool
runs id j = j.id == id && is_running j.status

abbrev pub claimed : ℕ → Job → Job
claimed now j = record j {
  status = running;
  attempts = suc j.attempts;
  locked_until = whole (now + 30 * second);
}

abbrev pub completed : ℕ → Job → Job
completed now j = record j { status = done; finished_at = some now }

abbrev pub given_up : ℕ → Job → Job
given_up now j = record j { status = failed; finished_at = some now }

abbrev pub requeued : ℕ → ℕ → Job → Job
unfolding backoff
requeued attempts now j = record j { status = pending; run_at = whole (now + backoff attempts) }

-- `UPDATE jobs SET status = 'running', … WHERE id = ? AND status = 'pending'`
unfoldable pub claim : ℕ → ℕ → List Job → List Job
unfolding update_where
claim id now jobs = update_where (waits id) (claimed now) jobs

-- The update after `processJob`, by the attempts that the worker counts itself.
unfoldable pub finish : ℕ → ℕ → ℕ → Run → List Job → List Job
unfolding update_where backoff
finish id attempts max_attempts run jobs =
    if run.succeeds
    then update_where (runs id) (completed run.ended_at) jobs
    else if leb max_attempts attempts
    then update_where (has_id id) (given_up run.ended_at) jobs
    else update_where (has_id id) (requeued attempts run.ended_at) jobs

-- One round of the loop over the batch, for a job as it was selected.
unfoldable pub work : (ℕ → Run) → Job → List Job → List Job
unfolding claim finish
work env j jobs =
    if any (waits j.id) jobs
    then finish j.id (suc j.attempts) j.max_attempts (env j.id)
        (claim j.id (env j.id).claimed_at jobs)
    else jobs

unfoldable pub work_all : (ℕ → Run) → List Job → List Job → List Job
unfolding work
work_all env [] jobs = jobs
work_all env (j ∷ js) jobs = work_all env js (work env j jobs)

-- The part of `Poll` that is about the table.
unfoldable pub poll : ℕ → (ℕ → Run) → List Job → List Job
unfolding purge reap due work_all
poll now env jobs =
    let ready = reap (whole now) (purge (whole (now - retention)) jobs) in
    work_all env (due (whole now) ready) ready
