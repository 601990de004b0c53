-- ===== src/Handler/Roles/Rows.antt =====
-- Counting the rows of `users`, and an update of the row with an id: `SELECT COUNT(*)` and `UPDATE` of
-- internal/handler/roles.go and archive.go.
use district_scheduler.Common.{
  ℕ, ◌+◌, ◌≤◌, ◌<◌, ◌≡◌, refl, sym, inl, inr, Bool, true, false, not, ◌&&◌, some, List, [], ◌∷◌,
  arith, ◌==◌, if◌then◌else◌, Bool-cases, any,
}
use district_scheduler.Handler.Roles.{User, find_user, update_user}

-- How many rows pass a test: `SELECT COUNT(*) FROM users WHERE …`.
abbrev pub count : (User → Bool) → List User → ℕ
count p [] = 0
count p (u ∷ us) = (if p u then 1 else 0) + count p us

-- The primary key: no two rows share an id.
abbrev pub HasKey : List User → Type 0
HasKey us = (id : ℕ) → count (λ u. u.id == id) us ≤ 1

-- Split a count on whether a row has the id.
pub count-update :
    (p : User → Bool) (id : ℕ) (f : User → User) (us : List User)
    → count p (update_user id f us)
      ≡ count (λ u. u.id == id && p (f u)) us + count (λ u. not (u.id == id) && p u) us
unfolding update_user
count-update p id f [] = omega arith
count-update p id f (u ∷ us) = ground (arith, count-update p id f us)

pub count_split :
    (p : User → Bool) (id : ℕ) (us : List User)
    → count p us ≡ count (λ u. u.id == id && p u) us + count (λ u. not (u.id == id) && p u) us
count_split p id [] = omega arith
count_split p id (u ∷ us) = ground (arith, count_split p id us)

pub count_none : (p : User → Bool) (us : List User) → any p us ≡ false → count p us ≡ 0
count_none p [] h = refl
count_none p (u ∷ us) h = ground (arith, count_none p us)

pub count_some : (p : User → Bool) (us : List User) → any p us ≡ true → 0 < count p us
count_some p [] h = absurd (cc)
count_some p (u ∷ us) h = ground (arith, count_some p us)

pub count_le :
    (p q : User → Bool) (us : List User)
    → ((u : User) → p u ≡ true → q u ≡ true)
    → count p us ≤ count q us
count_le p q [] h = omega arith
count_le p q (u ∷ us) h = ground (arith, h u, count_le p q us h)

-- Where the key holds, the row that is found is the only one with its id.
pub count_found :
    (p : User → Bool) (id : ℕ) (us : List User) (v : User)
    → count (λ u. u.id == id) us ≤ 1
    → find_user id us ≡ some v
    → count (λ u. u.id == id && p u) us ≡ (if p v then 1 else 0)
unfolding find_user
count_found p id [] v k f = absurd (cc)
count_found p id (u ∷ us) v k f = elim (Bool-cases (u.id == id)) [
  | inl same ↦
      let e : u ≡ v = ground arith in
      let less = count_le (λ w. w.id == id && p w) (λ w. w.id == id) us (λ w h. ground arith) in
      rw (sym e) (ground arith)
  | inr differs ↦ ground (arith, count_found p id us v)
]

-- An update of one row moves a count by what that row counts.
pub count-update_found :
    (p : User → Bool) (id : ℕ) (f : User → User) (us : List User) (v : User)
    → count (λ u. u.id == id) us ≤ 1
    → find_user id us ≡ some v
    → count p (update_user id f us) + (if p v then 1 else 0)
      ≡ count p us + (if p (f v) then 1 else 0)
count-update_found p id f us v k e = omega (
  arith,
  count-update p id f us,
  count_split p id us,
  count_found p id us v k e,
  count_found (λ u. p (f u)) id us v k e,
)

pub count-update_key :
    (id : ℕ) (f : User → User) (us : List User)
    → ((u : User) → (f u).id ≡ u.id)
    → (k : ℕ) → count (λ u. u.id == k) (update_user id f us) ≡ count (λ u. u.id == k) us
unfolding update_user
count-update_key id f [] h k = refl
count-update_key id f (u ∷ us) h k = ground (arith, h u, count-update_key id f us h k)

pub find_user-update :
    (id t : ℕ) (f : User → User) (us : List User)
    → (t == id) ≡ false
    → ((u : User) → (f u).id ≡ u.id)
    → find_user t (update_user id f us) ≡ find_user t us
unfolding find_user update_user
find_user-update id t f [] e h = refl
find_user-update id t f (u ∷ us) e h = ground (arith, h u, find_user-update id t f us e h)

pub find_user-id : (id : ℕ) (us : List User) (v : User) → find_user id us ≡ some v → v.id ≡ id
unfolding find_user
find_user-id id [] v e = absurd (cc)
find_user-id id (u ∷ us) v e = ground (arith, find_user-id id us v)
