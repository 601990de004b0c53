-- ===== src/Worker/Queue/Progress.antt =====
-- What rounds of `Poll` of internal/worker/worker.go leave of the jobs.
use district_scheduler.Booking.Stamp.{before_seconds}
use district_scheduler.Common.{
  some, Option, ℕ, suc, ◌+◌, ◌-◌, ◌/◌, ◌≡◌, refl, sym, subst, ◌∙◌, inl, inr, Bool, true, false, not,
  ◌&&◌, ◌||◌, Option, none, some, List, [], ◌∷◌, arith, ltb, leb, ◌==◌, any, all, select,
  Bool-cases, In, In-select_of, any_of_In, In-of_any, all_of_In, length, &&_left, &&_right, leb→le,
}
use district_scheduler.Worker.Queue.{
  Job, Run, has_id, is_pending, is_final, is_due, due, finished_before, whole, second, purge, poll,
  retention,
}
use district_scheduler.Worker.Queue.Settle.{settled, settled-id}
use district_scheduler.Worker.Queue.Distinct.{distinct, distinct-Matches, any-due}
use district_scheduler.Worker.Queue.Ready.{
  reaped, In-reap_of, ready, ready-distinct, In-ready, due-Ready, poll-Worked,
}

-- A job has not been tried more often than it may be, and one that waits has a try left.
abbrev pub is_sound : Job → Bool
is_sound j =
    leb j.attempts j.max_attempts && (not (is_pending j.status) || ltb j.attempts j.max_attempts)

abbrev pub Sound : List Job → Type 0
Sound jobs = (r : Job) → In r jobs → is_sound r ≡ true

reaped_sound : (now : ℕ) (k : Job) → is_sound k ≡ true → is_sound (reaped now k) ≡ true
reaped_sound now k s = ground arith

settled_sound :
    (env : ℕ → Run) (j : Job)
    → is_sound j ≡ true
    → is_pending j.status ≡ true
    → is_sound (settled env j) ≡ true
unfolding settled
settled_sound env j s p = ground arith

poll-Sound :
    (now : ℕ) (env : ℕ → Run) (jobs : List Job)
    → distinct jobs ≡ true
    → Sound jobs
    → Sound (poll now env jobs)
poll-Sound now env jobs d s r i =
    let w = poll-Worked now env jobs d in
    let ready_sound = λ (x : Job) (h : In x (ready now jobs)).
      let (k, g, e) = In-ready now jobs x h in
      subst (λ y. is_sound y ≡ true) (sym e) (reaped_sound (whole now) k (s k g)) in
    elim (w.only r i) [
      | inl (j, h, e) ↦
          let (g, p) = due-Ready (whole now) (ready now jobs) j h in
          rw e (settled_sound env j (ready_sound j g) p)
      | inr (h, _) ↦ ready_sound r h
    ]

-- Rounds of the worker, each with its time and its runs.
unfoldable pub polls : List (ℕ × (ℕ → Run)) → List Job → List Job
polls [] jobs = jobs
polls ((now, env) ∷ ps) jobs = polls ps (poll now env jobs)

-- Where the worker is alone, rounds of it keep the ids distinct, and no job is tried more often than its
-- `max_attempts`: the bound holds of every row, and a row that waits has a try left.
pub polls-Sound :
    (ps : List (ℕ × (ℕ → Run))) (jobs : List Job)
    → distinct jobs ≡ true
    → Sound jobs
    → (distinct (polls ps jobs) ≡ true) × Sound (polls ps jobs)
unfolding polls
polls-Sound [] jobs d s = (d, s)
polls-Sound ((now, env) ∷ ps) jobs d s =
    polls-Sound ps (poll now env jobs) (poll-Worked now env jobs d).key
      (poll-Sound now env jobs d s)

final-not_due :
    (now : ℕ) (jobs : List Job) (r : Job)
    → distinct jobs ≡ true
    → In r jobs
    → is_final r.status ≡ true
    → any (has_id r.id) (due now jobs) ≡ false
final-not_due now jobs r d i f = elim (Bool-cases (any (has_id r.id) (due now jobs))) [
  | inl h ↦
      let (j, g, e) = In-of_any (has_id r.id) (due now jobs) h in
      let (there, p) = due-Ready now jobs j g in
      let same : j ≡ r = distinct-Matches r jobs d i j there e in absurd (ground arith)
  | inr h ↦ h
]

-- Has a job that finished at an instant to be kept by a round, counted in whole seconds?
abbrev pub is_retained : Option ℕ → ℕ → Bool
is_retained none cutoff = true
is_retained (some t) cutoff = ltb (cutoff / second) (t / second)

retained-not_before :
    (t : Option ℕ) (cutoff : ℕ)
    → is_retained t cutoff ≡ true
    → finished_before t (whole cutoff) ≡ false
unfolding whole
retained-not_before none cutoff h = refl
retained-not_before (some t) cutoff h = (before_seconds (whole cutoff) t (ground arith)).1

-- Where the ids are distinct, a job that is done or has failed is left as it is by a round, and is not run
-- again, if it has no time of finishing, or finished in a later second than the one that lies thirty days
-- before the round.
pub poll-keeps_final :
    (now : ℕ) (env : ℕ → Run) (jobs : List Job) (r : Job)
    → distinct jobs ≡ true
    → In r jobs
    → is_final r.status ≡ true
    → is_retained r.finished_at (now - retention) ≡ true
    → In r (poll now env jobs)
unfolding purge
poll-keeps_final now env jobs r d i f b =
    let p : Job → Bool =
      λ j. not (is_final j.status && finished_before j.finished_at (whole (now - retention))) in
    let same : reaped (whole now) r ≡ r = ground arith in
    let keep = retained-not_before r.finished_at (now - retention) b in
    let there : In r (ready now jobs) =
      subst (λ x. In x (ready now jobs)) same
        (In-reap_of (whole now) (select p jobs) r (In-select_of p r jobs i (ground arith))) in
    (poll-Worked now env jobs d).keeps r there
      (final-not_due (whole now) (ready now jobs) r (ready-distinct now jobs d) there f)

-- No more jobs are due than fit into a batch, and the job is, if it waits.
abbrev pub is_punctual : ℕ → ℕ → List Job → Bool
is_punctual id now jobs =
    leb (length (select (is_due now) jobs)) 10
    && all (λ j. not (j.id == id && is_pending j.status) || leb j.run_at now) jobs

unfoldable pub all_punctual : ℕ → List (ℕ × (ℕ → Run)) → List Job → Bool
all_punctual id [] jobs = true
all_punctual id ((now, env) ∷ ps) jobs =
    is_punctual id (whole now) (ready now jobs) && all_punctual id ps (poll now env jobs)

-- The job has ended, or waits with at most as many tries left.
abbrev pub is_on_track : ℕ → Job → Bool
is_on_track n j = is_final j.status || (is_pending j.status && leb j.max_attempts (n + j.attempts))

reaped-on_track : (n now : ℕ) (k : Job) → is_on_track n k ≡ true → reaped now k ≡ k
reaped-on_track n now k t = ground arith

settled-on_track :
    (n : ℕ) (env : ℕ → Run) (j : Job)
    → is_pending j.status ≡ true
    → is_on_track (suc n) j ≡ true
    → is_on_track n (settled env j) ≡ true
unfolding settled
settled-on_track n env j p t = ground arith

abbrev OnTrack : ℕ → ℕ → List Job → Type 0
OnTrack id n jobs = (r : Job) → In r jobs → (r.id == id) ≡ true → is_on_track n r ≡ true

-- The job of a round that is punctual comes out of it with a try less to go.
poll-OnTrack :
    (id n now : ℕ) (env : ℕ → Run) (jobs : List Job)
    → distinct jobs ≡ true
    → is_punctual id (whole now) (ready now jobs) ≡ true
    → OnTrack id (suc n) jobs
    → OnTrack id n (poll now env jobs)
poll-OnTrack id n now env jobs d p t r i e =
    let w = poll-Worked now env jobs d in
    let tracked = λ (x : Job) (h : In x (ready now jobs)) (q : (x.id == id) ≡ true).
      let (k, g, f) = In-ready now jobs x h in
      let track = t k g (ground arith) in
      subst (λ y. is_on_track (suc n) y ≡ true)
        (sym (f ∙ reaped-on_track (suc n) (whole now) k track)) track in
    elim (w.only r i) [
      | inl (j, h, f) ↦
          let (g, q) = due-Ready (whole now) (ready now jobs) j h in
          rw f (settled-on_track n env j q (tracked j g (ground (arith, settled-id env j))))
      | inr (h, o) ↦
          let track = tracked r h e in
          let len = &&_left (leb (length (select (is_due (whole now)) (ready now jobs))) 10) _ p in
          let time =
            all_of_In (λ j. not (j.id == id && is_pending j.status) || leb j.run_at (whole now)) r
              (ready now jobs)
              (&&_right (leb (length (select (is_due (whole now)) (ready now jobs))) 10) _ p) h in
          elim (Bool-cases (is_final r.status)) [
            | inl f ↦ ground arith
            | inr f ↦
                let mine : is_due (whole now) r ≡ true = ground (arith, track, time) in
                let found =
                  any_of_In (has_id r.id) r (select (is_due (whole now)) (ready now jobs))
                    (In-select_of (is_due (whole now)) r (ready now jobs) h mine) (ground arith) in
                let taken = any-due (whole now) (has_id r.id) (ready now jobs) (leb→le _ 10 len) in
                absurd (ground arith)
          ]
    ]

-- Where the worker is alone, the ids are distinct and no job has exceeded its tries, the job of an id that
-- waits has ended, done or failed, after as many rounds as it has tries left, provided that at each of them
-- no more jobs are due than fit into a batch and the job is due if it still waits.
pub job-ends :
    (ps : List (ℕ × (ℕ → Run))) (id : ℕ) (jobs : List Job)
    → distinct jobs ≡ true
    → Sound jobs
    → OnTrack id (length ps) jobs
    → all_punctual id ps jobs ≡ true
    → (r : Job) → In r (polls ps jobs)
    → (r.id == id) ≡ true
    → is_final r.status ≡ true
unfolding polls all_punctual
job-ends [] id jobs d s t p r i e = ground (arith, t r i e, s r i)
job-ends ((now, env) ∷ ps) id jobs d s t p r i e =
    job-ends ps id (poll now env jobs) (poll-Worked now env jobs d).key
      (poll-Sound now env jobs d s)
      (poll-OnTrack id (length ps) now env jobs d
        (&&_left (is_punctual id (whole now) (ready now jobs)) _ p) t)
      (&&_right (is_punctual id (whole now) (ready now jobs)) _ p) r i e
