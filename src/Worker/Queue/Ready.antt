-- ===== src/Worker/Queue/Ready.antt =====
-- The table as a batch is selected from it: the purge and the reaper of internal/worker/worker.go.
use district_scheduler.Common.{
  ℕ, ◌+◌, ◌-◌, ◌≡◌, ap, ◌∙◌, Bool, true, not, ◌&&◌, some, List, arith, ltb, leb, select, In,
  In-select,
}
use district_scheduler.Worker.Queue.{
  Job, Run, pending, failed, update_where, is_final, is_expired, due, finished_before, whole, purge,
  reap, poll, retention, minute,
}
use district_scheduler.Worker.Queue.Settle.{row_after}
use district_scheduler.Worker.Queue.Distinct.{
  distinct, distinct-update, distinct-select, distinct-due, In-update, In-update_of, In-due,
}
use district_scheduler.Worker.Queue.Batch.{Ready, Worked, work_all-Worked}

abbrev pub reset_rows : ℕ → Job → Bool
reset_rows now j = is_expired now j && ltb j.attempts j.max_attempts

abbrev pub reset_set : ℕ → Job → Job
reset_set now j = record j { status = pending; run_at = now + minute }

abbrev pub fail_rows : ℕ → Job → Bool
fail_rows now j = is_expired now j && leb j.max_attempts j.attempts

abbrev pub fail_set : ℕ → Job → Job
fail_set now j = record j { status = failed; finished_at = some now }

-- What the reaper makes of a row.
abbrev pub reaped : ℕ → Job → Job
reaped now j =
    row_after (fail_rows now) (fail_set now) (row_after (reset_rows now) (reset_set now) j)

pub reap-distinct :
    (now : ℕ) (jobs : List Job) → distinct jobs ≡ true → distinct (reap now jobs) ≡ true
unfolding reap
reap-distinct now jobs d =
    distinct-update (fail_rows now) (fail_set now) (λ k. ground arith)
      (update_where (reset_rows now) (reset_set now) jobs)
    ∙ (distinct-update (reset_rows now) (reset_set now) (λ k. ground arith) jobs ∙ d)

pub In-reap :
    (now : ℕ) (jobs : List Job) (r : Job)
    → In r (reap now jobs)
    → (k : Job) × In k jobs × (r ≡ reaped now k)
unfolding reap
In-reap now jobs r i =
    let rows = update_where (reset_rows now) (reset_set now) jobs in
    let (x, h, e) = In-update (fail_rows now) (fail_set now) rows r i in
    let (k, g, f) = In-update (reset_rows now) (reset_set now) jobs x h in
    (k, g, e ∙ ap (row_after (fail_rows now) (fail_set now)) f)

pub In-reap_of :
    (now : ℕ) (jobs : List Job) (k : Job) → In k jobs → In (reaped now k) (reap now jobs)
unfolding reap
In-reap_of now jobs k i =
    In-update_of (fail_rows now) (fail_set now) (update_where (reset_rows now) (reset_set now) jobs)
      (row_after (reset_rows now) (reset_set now) k)
      (In-update_of (reset_rows now) (reset_set now) jobs k i)

-- The table as the batch is selected from it.
abbrev pub ready : ℕ → List Job → List Job
ready now jobs = reap (whole now) (purge (whole (now - retention)) jobs)

pub ready-distinct :
    (now : ℕ) (jobs : List Job) → distinct jobs ≡ true → distinct (ready now jobs) ≡ true
unfolding purge
ready-distinct now jobs d = reap-distinct (whole now) _ (distinct-select _ jobs d)

pub In-ready :
    (now : ℕ) (jobs : List Job) (r : Job)
    → In r (ready now jobs)
    → (k : Job) × In k jobs × (r ≡ reaped (whole now) k)
unfolding purge
In-ready now jobs r i =
    let p : Job → Bool =
      λ j. not (is_final j.status && finished_before j.finished_at (whole (now - retention))) in
    let (k, h, e) = In-reap (whole now) (select p jobs) r i in (k, (In-select p k jobs h).0, e)

pub due-Ready : (now : ℕ) (jobs : List Job) → Ready (due now jobs) jobs
due-Ready now jobs j i = let (h, d) = In-due now j jobs i in (h, ground arith)

pub poll-Worked :
    (now : ℕ) (env : ℕ → Run) (jobs : List Job)
    → distinct jobs ≡ true
    → Worked env (due (whole now) (ready now jobs)) (ready now jobs) (poll now env jobs)
unfolding poll
poll-Worked now env jobs d =
    let e = ready-distinct now jobs d in
    work_all-Worked env (due (whole now) (ready now jobs)) (ready now jobs)
      (distinct-due (whole now) (ready now jobs) e) e (due-Ready (whole now) (ready now jobs))
