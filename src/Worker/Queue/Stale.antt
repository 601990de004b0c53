-- ===== src/Worker/Queue/Stale.antt =====
-- Two workers of internal/worker/worker.go over one table, the first of them slower than its lock.
use district_scheduler.Common.{
  ℕ, suc, ◌+◌, ◌*◌, ◌<◌, ◌≡◌, refl, sym, ap, inl, true, false, ◌&&◌, List, ◌∷◌, arith, ltb, leb, In,
}
use district_scheduler.Worker.Queue.{
  whole-le, Status, Job, Run, pending, running, done, is_pending, second, reap, claim, waits, runs,
  has_id, claimed, completed, requeued, is_expired, minute, finish, update_where, backoff,
}

-- The table after the steps of two workers: the first claims the job, the reaper finds the lock expired, and
-- the second claims it and completes it.
abbrev pub done_by_second : Job → List Job → ℕ → ℕ → ℕ → Run → List Job
done_by_second j jobs first now again run =
    finish j.id (suc (suc j.attempts)) j.max_attempts run
      (claim j.id again (reap now (claim j.id first jobs)))

-- The first worker ends after that, with the attempts that it counted.
abbrev pub ended_by_first : Job → Run → List Job → List Job
ended_by_first j run jobs = finish j.id (suc j.attempts) j.max_attempts run jobs

-- Has the table a row of the id with the status and the attempts?
abbrev pub Stands : ℕ → Status → ℕ → List Job → Type 0
Stands id status attempts jobs =
    (k : Job) × In k jobs × (k.id ≡ id) × (k.status ≡ status) × (k.attempts ≡ attempts)

claim-head :
    (id now : ℕ) (k : Job) (ks : List Job)
    → waits id k ≡ true
    → claim id now (k ∷ ks) ≡ claimed now k ∷ claim id now ks
unfolding claim update_where
claim-head id now k ks w = ground arith

-- The row of a job whose lock has expired, with a try left.
abbrev pub reset : ℕ → Job → Job
reset now k = record k { status = pending; run_at = now + minute }

reap-head :
    (now : ℕ) (k : Job) (ks : List Job)
    → is_expired now k && ltb k.attempts k.max_attempts ≡ true
    → reap now (k ∷ ks) ≡ reset now k ∷ reap now ks
unfolding reap update_where
reap-head now k ks w = ground arith

finish-head_done :
    (id attempts max_attempts : ℕ) (run : Run) (k : Job) (ks : List Job)
    → runs id k ≡ true
    → run.succeeds ≡ true
    → (rest : List Job) × (finish id attempts max_attempts run (k ∷ ks)
        ≡ completed run.ended_at k ∷ rest)
unfolding finish update_where
finish-head_done id attempts max_attempts run k ks w s =
    (update_where (runs id) (completed run.ended_at) ks, ground arith)

finish-head_requeued :
    (id attempts max_attempts : ℕ) (run : Run) (k : Job) (ks : List Job)
    → has_id id k ≡ true
    → run.succeeds ≡ false
    → leb max_attempts attempts ≡ false
    → (rest : List Job) × (finish id attempts max_attempts run (k ∷ ks)
        ≡ requeued attempts run.ended_at k ∷ rest)
unfolding finish update_where
finish-head_requeued id attempts max_attempts run k ks w s m =
    (update_where (has_id id) (requeued attempts run.ended_at) ks, ground arith)

-- A job with two tries left that the first worker claims, and a second one completes after the lock of the
-- first has expired, is done; and when the first worker's run fails after that, the job waits again, and its
-- next try exceeds `max_attempts`.
pub stale_failure-reopens :
    (j : Job) (others : List Job) (first now again next : ℕ) (run late : Run)
    → is_pending j.status ≡ true
    → j.max_attempts ≡ suc (suc j.attempts)
    → first + 30 * second < now
    → run.succeeds ≡ true
    → late.succeeds ≡ false
    → Stands j.id done j.max_attempts (done_by_second j (j ∷ others) first now again run)
      × Stands j.id pending j.max_attempts
          (ended_by_first j late (done_by_second j (j ∷ others) first now again run))
      × Stands j.id running (suc j.max_attempts) (
          claim j.id next
            (ended_by_first j late (done_by_second j (j ∷ others) first now again run)))
unfolding backoff
stale_failure-reopens j others first now again next run late p m l s f =
    let one = claimed first j in
    let two = reset now one in
    let three = claimed again two in
    let four = completed run.ended_at three in
    let five = requeued (suc j.attempts) late.ended_at four in
    let c = claim-head j.id first j others (ground arith) in
    let locked = whole-le (first + 30 * second) in
    let r = reap-head now one (claim j.id first others) (ground arith) in
    let c' = claim-head j.id again two (reap now (claim j.id first others)) (ground arith) in
    let (ks, d) =
      finish-head_done j.id (suc (suc j.attempts)) j.max_attempts run three
        (claim j.id again (reap now (claim j.id first others))) (ground arith) s in
    let (ls, e) =
      finish-head_requeued j.id (suc j.attempts) j.max_attempts late four ks (ground arith) f
        (ground arith) in
    let n = claim-head j.id next five ls (ground arith) in
    let at_done : done_by_second j (j ∷ others) first now again run ≡ four ∷ ks = rw (c, r, c') d in
    rw (at_done, e, n)
      (
        (four, inl refl, refl, refl, sym m),
        (five, inl refl, refl, refl, sym m),
        (claimed next five, inl refl, refl, refl, ap suc (sym m)),
      )
