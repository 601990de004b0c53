-- ===== src/Worker/Queue/Settle.antt =====
-- What one round of the worker's loop makes of the job that it works on: internal/worker/worker.go.
use district_scheduler.Common.{
  ℕ, suc, ◌≡◌, refl, ◌∙◌, inl, inr, Bool, true, false, not, ◌&&◌, ◌||◌, List, [], ◌∷◌, arith, leb,
  ◌==◌, if◌then◌else◌, Bool-cases, In,
}
use district_scheduler.Worker.Queue.{
  is_pending, is_running, has_id, waits, runs, claimed, completed, given_up, requeued, Job, Run,
  backoff, update_where, claim, finish,
}

-- The job after the round.
unfoldable pub settled : (ℕ → Run) → Job → Job
unfolding backoff
settled env j =
    let run = env j.id in
    let started = claimed run.claimed_at j in
    if run.succeeds
    then completed run.ended_at started
    else if leb j.max_attempts (suc j.attempts)
    then given_up run.ended_at started
    else requeued (suc j.attempts) run.ended_at started

pub settled-id : (env : ℕ → Run) (j : Job) → (settled env j).id ≡ j.id
unfolding settled
settled-id env j = ground arith

-- Every row with the id of the job is the job as it was selected.
abbrev pub Matches : Job → List Job → Type 0
Matches j jobs = (k : Job) → In k jobs → (k.id == j.id) ≡ true → k ≡ j

abbrev pub row_after : (Job → Bool) → (Job → Job) → Job → Job
row_after p f k = if p k then f k else k

-- Two updates are one where they make the same of every row.
pub update-update :
    (p q r : Job → Bool) (f g h : Job → Job) (jobs : List Job)
    → ((k : Job) → In k jobs → row_after q g (row_after p f k) ≡ row_after r h k)
    → update_where q g (update_where p f jobs) ≡ update_where r h jobs
unfolding update_where
update-update p q r f g h [] e = refl
update-update p q r f g h (k ∷ jobs) e =
    let first = e k (inl refl) in
    let rest = update-update p q r f g h jobs (λ x i. e x (inr i)) in ground (arith, first, rest)

-- The update that `finish` makes, by how the run ended.
abbrev finish_rows : (ℕ → Run) → Job → Job → Bool
finish_rows env j k = has_id j.id k && (not (env j.id).succeeds || is_running k.status)

abbrev finish_set : (ℕ → Run) → Job → Job → Job
unfolding backoff
finish_set env j k =
    if (env j.id).succeeds
    then completed (env j.id).ended_at k
    else if leb j.max_attempts (suc j.attempts)
    then given_up (env j.id).ended_at k
    else requeued (suc j.attempts) (env j.id).ended_at k

update_ext :
    (p q : Job → Bool) (f g : Job → Job) (jobs : List Job)
    → ((k : Job) → row_after p f k ≡ row_after q g k)
    → update_where p f jobs ≡ update_where q g jobs
unfolding update_where
update_ext p q f g [] e = refl
update_ext p q f g (k ∷ jobs) e =
    let first = e k in let rest = update_ext p q f g jobs e in ground (arith, first, rest)

finish_eq :
    (env : ℕ → Run) (j : Job) (jobs : List Job)
    → finish j.id (suc j.attempts) j.max_attempts (env j.id) jobs
      ≡ update_where (finish_rows env j) (finish_set env j) jobs
unfolding finish
finish_eq env j jobs = elim (Bool-cases (env j.id).succeeds) [
  | inl s ↦
      let f = completed (env j.id).ended_at in
      let e =
        update_ext (runs j.id) (finish_rows env j) f (finish_set env j) jobs
          (λ k. ground (arith, s)) in
      ground (arith, e, s)
  | inr s ↦ elim (Bool-cases (leb j.max_attempts (suc j.attempts))) [
    | inl m ↦
        let f = given_up (env j.id).ended_at in
        let e =
          update_ext (has_id j.id) (finish_rows env j) f (finish_set env j) jobs
            (λ k. ground (arith, s, m)) in
        ground (arith, e, s, m)
    | inr m ↦
        let f = requeued (suc j.attempts) (env j.id).ended_at in
        let e =
          update_ext (has_id j.id) (finish_rows env j) f (finish_set env j) jobs
            (λ k. ground (arith, s, m)) in
        ground (arith, e, s, m)
  ]
]

settled_row :
    (env : ℕ → Run) (j : Job)
    → is_pending j.status ≡ true
    → row_after
        (finish_rows env j)
        (finish_set env j)
        (row_after (waits j.id) (claimed (env j.id).claimed_at) j)
      ≡ settled env j
unfolding settled
settled_row env j p = ground arith

other_row :
    (env : ℕ → Run) (j k : Job)
    → (k.id == j.id) ≡ false
    → row_after
        (finish_rows env j)
        (finish_set env j)
        (row_after (waits j.id) (claimed (env j.id).claimed_at) k)
      ≡ k
other_row env j k h = ground arith

-- A round replaces the rows with the id.
pub finish-claim :
    (env : ℕ → Run) (j : Job) (jobs : List Job)
    → is_pending j.status ≡ true
    → Matches j jobs
    → finish j.id (suc j.attempts) j.max_attempts (env j.id) (claim j.id (env j.id).claimed_at jobs)
      ≡ update_where (has_id j.id) (λ _. settled env j) jobs
unfolding claim
finish-claim env j jobs p m =
    finish_eq env j (update_where (waits j.id) (claimed (env j.id).claimed_at) jobs)
    ∙ update-update (waits j.id) (finish_rows env j) (has_id j.id) (claimed (env j.id).claimed_at)
        (finish_set env j) (λ _. settled env j) jobs
        λ k i. elim (Bool-cases (k.id == j.id)) [
          | inl same ↦ rw (m k i same) (settled_row env j p ∙ ground arith)
          | inr other ↦ other_row env j k other ∙ ground arith
        ]
