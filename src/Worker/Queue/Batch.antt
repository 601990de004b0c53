-- ===== src/Worker/Queue/Batch.antt =====
-- The loop of internal/worker/worker.go over the jobs of a batch.
use district_scheduler.Common.{
  ℕ, ◌≡◌, refl, subst, ◌∙◌, ◌⊎◌, inl, inr, true, false, List, [], ◌∷◌, arith, ◌==◌, any, Bool-cases,
  In, any_of_In, not-any_of_In,
}
use district_scheduler.Worker.Queue.{
  Job, Run, has_id, waits, update_where, work, work_all, is_pending,
}
use district_scheduler.Worker.Queue.Settle.{row_after, settled, settled-id, finish-claim}
use district_scheduler.Worker.Queue.Distinct.{
  distinct, distinct-Matches, distinct-update, In-update, In-update_of,
}

module _ (env : ℕ → Run) (j : Job) where
  settled_rows : List Job → List Job
  settled_rows jobs = update_where (has_id j.id) (λ _. settled env j) jobs

  same_ids : (k : Job) → (row_after (has_id j.id) (λ _. settled env j) k).id ≡ k.id
  same_ids k = ground (arith, settled-id env j)

  work-eq :
      (jobs : List Job)
      → distinct jobs ≡ true
      → In j jobs
      → is_pending j.status ≡ true
      → work env j jobs ≡ settled_rows jobs
  unfolding work settled_rows
  work-eq jobs d i p =
      let found = any_of_In (waits j.id) j jobs i (ground arith) in
      rw found (finish-claim env j jobs p (distinct-Matches j jobs d i))

  work-distinct : (jobs : List Job) → distinct jobs ≡ true → distinct (settled_rows jobs) ≡ true
  unfolding settled_rows
  work-distinct jobs d = distinct-update (has_id j.id) (λ _. settled env j) same_ids jobs ∙ d

  In-settled_rows : (jobs : List Job) → In j jobs → In (settled env j) (settled_rows jobs)
  unfolding settled_rows
  In-settled_rows jobs i =
      subst (λ r. In r (update_where (has_id j.id) (λ _. settled env j) jobs)) (ground arith)
        (In-update_of (has_id j.id) (λ _. settled env j) jobs j i)

  In-settled_rows_other :
      (jobs : List Job) (r : Job) → In r jobs → (r.id == j.id) ≡ false → In r (settled_rows jobs)
  unfolding settled_rows
  In-settled_rows_other jobs r i h =
      subst (λ x. In x (update_where (has_id j.id) (λ _. settled env j) jobs)) (ground arith)
        (In-update_of (has_id j.id) (λ _. settled env j) jobs r i)

  settled_rows-In :
      (jobs : List Job) (r : Job)
      → In r (settled_rows jobs)
      → (r ≡ settled env j) ⊎ (In r jobs × ((r.id == j.id) ≡ false))
  unfolding settled_rows
  settled_rows-In jobs r i =
      let (k, h, e) = In-update (has_id j.id) (λ _. settled env j) jobs r i in
      elim (Bool-cases (k.id == j.id)) [
        | inl same ↦ inl (ground arith)
        | inr other ↦
            let is : k ≡ r = ground arith in
            inr (subst (λ x. In x jobs) is h, subst (λ (x : Job). (x.id == j.id) ≡ false) is other)
      ]

-- The jobs of a batch, each of them in the table and pending.
abbrev pub Ready : List Job → List Job → Type 0
Ready js jobs = (j : Job) → In j js → In j jobs × (is_pending j.status ≡ true)

module _ (env : ℕ → Run) where
  -- The rest of a batch is as ready after the round of its first job.
  later-Ready :
      (j : Job) (js jobs : List Job)
      → distinct (j ∷ js) ≡ true
      → Ready (j ∷ js) jobs
      → Ready js (settled_rows env j jobs)
  later-Ready j js jobs d r k i = (
    In-settled_rows_other env j jobs k (r k (inr i)).0
        (not-any_of_In (has_id j.id) k js (ground arith) i),
    (r k (inr i)).1,
  )

  pub record Worked (js jobs after : List Job) : Type 0 where
    pub key : distinct after ≡ true
    pub settles : (j : Job) → In j js → In (settled env j) after
    pub keeps : (r : Job) → In r jobs → any (has_id r.id) js ≡ false → In r after
    pub only :
        (r : Job)
        → In r after
        → ((j : Job) × In j js × (r ≡ settled env j)) ⊎ (In r jobs × (any (has_id r.id) js ≡ false))

  first_and_rest :
      (j : Job) (js jobs : List Job) {after : List Job}
      → distinct (j ∷ js) ≡ true
      → Ready (j ∷ js) jobs
      → Worked js (settled_rows env j jobs) after
      → Worked (j ∷ js) jobs after
  first_and_rest j js jobs d r w = record {
    key = w.key;
    settles = λ k i. elim i [
      | inl e ↦ rw e (
          w.keeps (settled env j) (In-settled_rows env j jobs (r j (inl refl)).0)
            (rw (settled-id env j) (ground arith)))
      | inr h ↦ w.settles k h
    ];
    keeps = λ k i h. w.keeps k (In-settled_rows_other env j jobs k i (ground arith)) (ground arith);
    only = λ k i. elim (w.only k i) [
      | inl (x, h, e) ↦ inl (x, inr h, e)
      | inr (h, o) ↦ elim (settled_rows-In env j jobs k h) [
        | inl e ↦ inl (j, inl refl, e)
        | inr (old, other) ↦ inr (old, ground arith)
      ]
    ];
  }

  pub work_all-Worked :
      (js jobs : List Job)
      → distinct js ≡ true
      → distinct jobs ≡ true
      → Ready js jobs
      → Worked js jobs (work_all env js jobs)
  unfolding work_all
  work_all-Worked [] jobs d e r = record {
    key = e;
    settles = λ j i. elim i [ ];
    keeps = λ k i _. i;
    only = λ k i. inr (i, refl);
  }
  work_all-Worked (j ∷ js) jobs d e r =
      let i = (r j (inl refl)).0 in
      let step = work-eq env j jobs e i (r j (inl refl)).1 in
      let rest : Worked js (settled_rows env j jobs) (work_all env js (settled_rows env j jobs)) =
        work_all-Worked js (settled_rows env j jobs) (ground arith) (work-distinct env j jobs e)
          (later-Ready j js jobs d r) in
      rw step (first_and_rest j js jobs d r rest)
