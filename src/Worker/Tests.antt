-- ===== src/Worker/Tests.antt =====
-- Runs of internal/worker/worker.go on a job with two tries.
use district_scheduler.Booking.Stamp.{before, rfc3339_nano, text_lt, text_tail, fraction_digits}
use district_scheduler.Common.{
  ℕ, ◌+◌, ◌*◌, ◌≡◌, refl, inl, inr, some, true, false, List, [], ◌∷◌, arith, none, In, ◌==◌,
}
use district_scheduler.Worker.Queue.{
  whole, minute, Job, Run, pending, done, running, failed, is_final, poll, second, claim,
}
use district_scheduler.Worker.Queue.Distinct.{distinct}
use district_scheduler.Worker.Queue.Progress.{
  polls, Sound, polls-Sound, poll-keeps_final, job-ends, all_punctual, is_on_track,
}
use district_scheduler.Worker.Queue.Stale.{
  Stands, done_by_second, ended_by_first, stale_failure-reopens,
}

abbrev job : Job
job = record {
  id = 4;
  status = pending;
  attempts = 0;
  max_attempts = 2;
  run_at = 0;
  locked_until = 0;
  finished_at = none;
}

-- It fails whenever it is run.
abbrev fails : ℕ → Run
fails id = record { claimed_at = 10; succeeds = false; ended_at = 11 }

abbrev ended : Run
ended = record { claimed_at = 10; succeeds = true; ended_at = 11 }

-- A round at once, and one after the retry is due.
abbrev rounds : List (ℕ × (ℕ → Run))
rounds = (10, fails) ∷ (100 * second, fails) ∷ []

job-Sound : Sound (job ∷ [])
job-Sound r (inl e) = ground arith
job-Sound r (inr i) = elim i [ ]

polls-Sound_example : (distinct (polls rounds (job ∷ [])) ≡ true) × Sound (polls rounds (job ∷ []))
polls-Sound_example = polls-Sound rounds (job ∷ []) refl job-Sound

abbrev finished : Job
finished = record job { status = done; finished_at = some (40_000 * minute) }

poll-keeps_final_example : In finished (poll (83_199 * minute) fails (finished ∷ []))
poll-keeps_final_example =
    poll-keeps_final (83_199 * minute) fails (finished ∷ []) finished refl (inl refl) refl refl

-- The text of a fraction of a second sorts below that of the whole second.
purged_early :
    poll (83_200 * minute) fails (record finished { finished_at = some (40_000 * minute + 5) } ∷ [])
    ≡ []
unfolding poll whole before rfc3339_nano text_lt text_tail fraction_digits
purged_early = refl

abbrev failed_job : Job
failed_job = record {
  id = 4;
  status = failed;
  attempts = 2;
  max_attempts = 2;
  run_at = 60 * second;
  locked_until = 30 * second;
  finished_at = some 11;
}

rounds_of_job : polls rounds (job ∷ []) ≡ failed_job ∷ []
unfolding polls poll whole
rounds_of_job = refl

job-OnTrack : (r : Job) → In r (job ∷ []) → (r.id == 4) ≡ true → is_on_track 2 r ≡ true
job-OnTrack r (inl e) h = ground arith
job-OnTrack r (inr i) h = elim i [ ]

job_punctual : all_punctual 4 rounds (job ∷ []) ≡ true
unfolding all_punctual poll whole
job_punctual = refl

failed_job-In : In failed_job (polls rounds (job ∷ []))
failed_job-In = rw rounds_of_job (inl refl)

job-ends_example : is_final failed_job.status ≡ true
job-ends_example =
    job-ends rounds 4 (job ∷ []) refl job-Sound job-OnTrack job_punctual failed_job failed_job-In
      refl

stale_failure-reopens_example :
    Stands 4 done 2 (done_by_second job (job ∷ []) 10 (40 * second) (101 * second) ended)
    × Stands 4 pending 2 (
        ended_by_first job
          (fails 4)
          (done_by_second job (job ∷ []) 10 (40 * second) (101 * second) ended))
    × Stands 4 running 3 (
        claim 4 (200 * second) (
          ended_by_first job
            (fails 4)
            (done_by_second job (job ∷ []) 10 (40 * second) (101 * second) ended)))
stale_failure-reopens_example =
    stale_failure-reopens job [] 10 (40 * second) (101 * second) (200 * second) ended (fails 4) refl
      refl (omega arith) refl refl
