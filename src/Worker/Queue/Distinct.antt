-- ===== src/Worker/Queue/Distinct.antt =====
-- Rows of `jobs` with distinct ids, and what the statements of internal/worker/worker.go keep of them.
use district_scheduler.Common.{
  ℕ, zero, suc, ◌≤◌, ◌≡◌, refl, sym, ap, ◌∙◌, ◌⊎◌, inl, inr, Bool, true, false, not, ◌&&◌, ◌||◌,
  List, [], ◌∷◌, arith, any, select, In, In-select, any_of_In, length,
}
use district_scheduler.Worker.Queue.{Job, has_id, update_where, place, by_run_at, take, is_due, due}
use district_scheduler.Worker.Queue.Settle.{row_after, Matches}

-- The primary key.
abbrev pub distinct : List Job → Bool
distinct [] = true
distinct (j ∷ js) = not (any (has_id j.id) js) && distinct js

pub distinct-Matches :
    (j : Job) (jobs : List Job) → distinct jobs ≡ true → In j jobs → Matches j jobs
distinct-Matches j [] d i k h e = elim i [ ]
distinct-Matches j (x ∷ jobs) d (inl p) k (inl q) e = q ∙ sym p
distinct-Matches j (x ∷ jobs) d (inl p) k (inr h) e =
    absurd (ground (arith, any_of_In (has_id x.id) k jobs h (ground arith)))
distinct-Matches j (x ∷ jobs) d (inr i) k (inl q) e =
    absurd (ground (arith, any_of_In (has_id x.id) j jobs i (ground arith)))
distinct-Matches j (x ∷ jobs) d (inr i) k (inr h) e = distinct-Matches j jobs (ground arith) i k h e

module _ (p : Job → Bool) (f : Job → Job) (same : (k : Job) → (row_after p f k).id ≡ k.id) where
  any-update :
      (id : ℕ) (jobs : List Job) → any (has_id id) (update_where p f jobs) ≡ any (has_id id) jobs
  unfolding update_where
  any-update id [] = refl
  any-update id (j ∷ jobs) =
      let s = same j in let rest = any-update id jobs in ground (arith, s, rest)

  pub distinct-update : (jobs : List Job) → distinct (update_where p f jobs) ≡ distinct jobs
  unfolding update_where
  distinct-update [] = refl
  distinct-update (j ∷ jobs) =
      let s = same j in
      let a = any-update j.id jobs in let rest = distinct-update jobs in rw (s, a, rest) refl

pub In-update :
    (p : Job → Bool) (f : Job → Job) (jobs : List Job) (r : Job)
    → In r (update_where p f jobs)
    → (k : Job) × In k jobs × (r ≡ row_after p f k)
unfolding update_where
In-update p f [] r i = elim i [ ]
In-update p f (j ∷ jobs) r (inl e) = (j, inl refl, e)
In-update p f (j ∷ jobs) r (inr i) = let (k, h, e) = In-update p f jobs r i in (k, inr h, e)

pub In-update_of :
    (p : Job → Bool) (f : Job → Job) (jobs : List Job) (k : Job)
    → In k jobs
    → In (row_after p f k) (update_where p f jobs)
unfolding update_where
In-update_of p f [] k i = elim i [ ]
In-update_of p f (j ∷ jobs) k (inl e) = inl (ap (row_after p f) e)
In-update_of p f (j ∷ jobs) k (inr i) = inr (In-update_of p f jobs k i)

any-select :
    (p q : Job → Bool) (jobs : List Job) → any q jobs ≡ false → any q (select p jobs) ≡ false
any-select p q [] h = refl
any-select p q (j ∷ jobs) h = ground (arith, any-select p q jobs)

pub distinct-select :
    (p : Job → Bool) (jobs : List Job) → distinct jobs ≡ true → distinct (select p jobs) ≡ true
distinct-select p [] h = refl
distinct-select p (j ∷ jobs) h =
    ground (arith, distinct-select p jobs, any-select p (has_id j.id) jobs)

any-place : (q : Job → Bool) (j : Job) (js : List Job) → any q (place j js) ≡ (q j || any q js)
unfolding place
any-place q j [] = refl
any-place q j (k ∷ ks) = ground (arith, any-place q j ks)

distinct-place :
    (j : Job) (js : List Job)
    → distinct js ≡ true
    → any (has_id j.id) js ≡ false
    → distinct (place j js) ≡ true
unfolding place
distinct-place j [] d h = refl
distinct-place j (k ∷ ks) d h = ground (arith, distinct-place j ks, any-place (has_id k.id) j ks)

any-by_run_at : (q : Job → Bool) (js : List Job) → any q (by_run_at js) ≡ any q js
unfolding by_run_at
any-by_run_at q [] = refl
any-by_run_at q (j ∷ js) = any-place q j (by_run_at js) ∙ ap (λ b. q j || b) (any-by_run_at q js)

distinct-by_run_at : (js : List Job) → distinct js ≡ true → distinct (by_run_at js) ≡ true
unfolding by_run_at
distinct-by_run_at [] d = refl
distinct-by_run_at (j ∷ js) d =
    distinct-place j (by_run_at js) (distinct-by_run_at js (ground arith))
      (any-by_run_at (has_id j.id) js ∙ ground arith)

any-take : (q : Job → Bool) (n : ℕ) (js : List Job) → any q js ≡ false → any q (take n js) ≡ false
unfolding take
any-take q zero js h = refl
any-take q (suc n) [] h = refl
any-take q (suc n) (j ∷ js) h = ground (arith, any-take q n js)

distinct-take : (n : ℕ) (js : List Job) → distinct js ≡ true → distinct (take n js) ≡ true
unfolding take
distinct-take zero js d = refl
distinct-take (suc n) [] d = refl
distinct-take (suc n) (j ∷ js) d = ground (arith, distinct-take n js, any-take (has_id j.id) n js)

pub distinct-due :
    (now : ℕ) (jobs : List Job) → distinct jobs ≡ true → distinct (due now jobs) ≡ true
unfolding due
distinct-due now jobs d =
    distinct-take 10 (by_run_at (select (is_due now) jobs))
      (distinct-by_run_at (select (is_due now) jobs) (distinct-select (is_due now) jobs d))

In-take : (n : ℕ) (j : Job) (js : List Job) → In j (take n js) → In j js
unfolding take
In-take zero j js i = elim i [ ]
In-take (suc n) j [] i = i
In-take (suc n) j (k ∷ ks) (inl e) = inl e
In-take (suc n) j (k ∷ ks) (inr i) = inr (In-take n j ks i)

In-place : (j k : Job) (ks : List Job) → In j (place k ks) → (j ≡ k) ⊎ In j ks
unfolding place
In-place j k [] i = i
In-place j k (x ∷ ks) i = ground (arith, In-place j k ks)

In-by_run_at : (j : Job) (js : List Job) → In j (by_run_at js) → In j js
unfolding by_run_at
In-by_run_at j [] i = i
In-by_run_at j (k ∷ ks) i = elim (In-place j k (by_run_at ks) i) [
  | inl e ↦ inl e
  | inr h ↦ inr (In-by_run_at j ks h)
]

pub In-due :
    (now : ℕ) (j : Job) (jobs : List Job) → In j (due now jobs) → In j jobs × (is_due now j ≡ true)
unfolding due
In-due now j jobs i = In-select (is_due now) j jobs (In-by_run_at j _ (In-take 10 j _ i))

length-place : (j : Job) (js : List Job) → length (place j js) ≡ suc (length js)
unfolding place
length-place j [] = refl
length-place j (k ∷ ks) = ground (arith, length-place j ks)

length-by_run_at : (js : List Job) → length (by_run_at js) ≡ length js
unfolding by_run_at
length-by_run_at [] = refl
length-by_run_at (j ∷ js) = length-place j (by_run_at js) ∙ ap suc (length-by_run_at js)

take-all : (n : ℕ) (js : List Job) → length js ≤ n → take n js ≡ js
unfolding take
take-all zero [] h = refl
take-all zero (j ∷ js) h = absurd (omega arith)
take-all (suc n) [] h = refl
take-all (suc n) (j ∷ js) h = ap (λ ks. j ∷ ks) (take-all n js (omega arith))

-- Where at most ten jobs are due, each of them is selected.
pub any-due :
    (now : ℕ) (q : Job → Bool) (jobs : List Job)
    → length (select (is_due now) jobs) ≤ 10
    → any q (due now jobs) ≡ any q (select (is_due now) jobs)
unfolding due
any-due now q jobs h =
    let all_taken =
      take-all 10 (by_run_at (select (is_due now) jobs))
        (omega (arith, length-by_run_at (select (is_due now) jobs))) in
    ap (any q) all_taken ∙ any-by_run_at q (select (is_due now) jobs)
