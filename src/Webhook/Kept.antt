-- ===== src/Webhook/Kept.antt =====
-- Which rows the requests of users leave as they are: internal/webhook/webhook.go.
use district_scheduler.Common.{
  ℕ, ◌≡◌, refl, sym, ap, ◌∙◌, inl, inr, Bool, true, false, not, Option, none, some, List, [], ◌∷◌,
  ◌++◌, arith, ◌==◌, if◌then◌else◌, any, Bool-cases, Option-cases, In, In-append, In-append_left,
  In-select, In-select_of, not-any_of_In,
}
use district_scheduler.Common.Fallible.{ok, err, Result-cases}
use district_scheduler.Webhook.{
  Webhook, Result, registered, create_webhook, update, delete, is_row, find_row, check_not_managed,
  update_rows, with_events, with_fields, is_removed,
}

pub data Request : Type 0 where
  register : ℕ → ℕ → List ℕ → Request
  change : ℕ → Option (List ℕ) → Option (List ℕ) → Request
  remove : ℕ → Request

abbrev pub serve : ℕ → Request → List Webhook → Result
serve user (register uid url events) rows = create_webhook uid user url events rows
serve user (change id events fields) rows = update user id events fields rows
serve user (remove id) rows = delete user id rows

abbrev pub rows_after : List Webhook → Result → List Webhook
rows_after rows (ok after) = after
rows_after rows (err e) = rows

-- Requests of users, each with its user, in their order.
unfoldable pub serve_all : List (ℕ × Request) → List Webhook → List Webhook
serve_all [] rows = rows
serve_all ((user, r) ∷ rs) rows = serve_all rs (rows_after rows (serve user r rows))

-- The primary key.
abbrev pub HasKey : List Webhook → Type 0
HasKey rows = (r s : Webhook) → In r rows → In s rows → r.id ≡ s.id → r ≡ s

In-update_rows :
    (p : Webhook → Bool) (f : Webhook → Webhook) (rows : List Webhook) (r : Webhook)
    → In r (update_rows p f rows)
    → (k : Webhook) × In k rows × (r ≡ (if p k then f k else k))
unfolding update_rows
In-update_rows p f [] r i = elim i [ ]
In-update_rows p f (k ∷ rows) r (inl e) = (k, inl refl, e)
In-update_rows p f (k ∷ rows) r (inr i) =
    let (x, h, e) = In-update_rows p f rows r i in (x, inr h, e)

In-update_rows_of :
    (p : Webhook → Bool) (f : Webhook → Webhook) (rows : List Webhook) (r : Webhook)
    → In r rows
    → p r ≡ false
    → In r (update_rows p f rows)
unfolding update_rows
In-update_rows_of p f [] r i h = elim i [ ]
In-update_rows_of p f (k ∷ rows) r (inl e) h = inl (ground arith)
In-update_rows_of p f (k ∷ rows) r (inr i) h = inr (In-update_rows_of p f rows r i h)

find_row-In :
    (user id : ℕ) (rows : List Webhook) (v : Webhook)
    → find_row user id rows ≡ some v
    → In v rows × (is_row user id v ≡ true)
unfolding find_row
find_row-In user id [] v e = absurd (cc)
find_row-In user id (r ∷ rows) v e = elim (Bool-cases (is_row user id r)) [
  | inl h ↦ (inl (ground arith), ground arith)
  | inr h ↦ let x = find_row-In user id rows v (ground arith) in (inr x.0, x.1)
]

-- The row that is found is the only one with its id and user.
found_unmanaged :
    (user id : ℕ) (rows : List Webhook) (r : Webhook)
    → HasKey rows
    → check_not_managed user id rows ≡ ok tt
    → In r rows
    → r.managed ≡ true
    → is_row user id r ≡ false
unfolding check_not_managed
found_unmanaged user id rows r k c i m = elim (Option-cases (find_row user id rows)) [
  | inl e ↦ absurd (ground arith)
  | inr (v, e) ↦
      let (there, is) = find_row-In user id rows v e in
      elim (Bool-cases (is_row user id r)) [
        | inl mine ↦ let same = k v r there i (ground arith) in absurd (ground arith)
        | inr other ↦ other
      ]
]

record IsKept (rows after : List Webhook) : Type 0 where
  key : HasKey after
  kept : (r : Webhook) → In r rows → r.managed ≡ true → In r after

same-IsKept : (rows : List Webhook) → HasKey rows → IsKept rows rows
same-IsKept rows k = record { key = k; kept = λ r i m. i }

append-HasKey :
    (row : Webhook) (rows : List Webhook)
    → HasKey rows
    → any (λ r. r.id == row.id) rows ≡ false
    → HasKey (rows ++ row ∷ [])
append-HasKey row rows k free r s i j e = elim (In-append r rows (row ∷ []) i) [
  | inl old ↦ elim (In-append s rows (row ∷ []) j) [
    | inl also ↦ k r s old also e
    | inr (inl here) ↦ absurd (ground (arith, not-any_of_In (λ x. x.id == row.id) r rows free old))
    | inr (inr h) ↦ elim h [ ]
  ]
  | inr (inl here) ↦ elim (In-append s rows (row ∷ []) j) [
    | inl also ↦ absurd (ground (arith, not-any_of_In (λ x. x.id == row.id) s rows free also))
    | inr (inl there) ↦ here ∙ sym there
    | inr (inr h) ↦ elim h [ ]
  ]
  | inr (inr h) ↦ elim h [ ]
]

changed-id :
    (events fields : Option (List ℕ)) (r : Webhook)
    → (with_fields fields (with_events events r)).id ≡ r.id
changed-id none none r = refl
changed-id none (some f) r = refl
changed-id (some e) none r = refl
changed-id (some e) (some f) r = refl

update_rows-HasKey :
    (p : Webhook → Bool) (f : Webhook → Webhook) (rows : List Webhook)
    → ((r : Webhook) → (f r).id ≡ r.id)
    → HasKey rows
    → HasKey (update_rows p f rows)
update_rows-HasKey p f rows h k r s i j e =
    let (x, a, u) = In-update_rows p f rows r i in
    let (y, b, v) = In-update_rows p f rows s j in
    let same : x ≡ y = k x y a b (ground (arith, h x, h y)) in
    u ∙ ap (λ z. if p z then f z else z) same ∙ sym v

create_webhook-IsKept :
    (uid user url : ℕ) (events : List ℕ) (rows : List Webhook)
    → HasKey rows
    → IsKept rows (rows_after rows (create_webhook uid user url events rows))
unfolding create_webhook
create_webhook-IsKept uid user url events rows k = elim (Bool-cases (any (λ r. r.id == uid) rows)) [
  | inl taken ↦ rw taken (record { key = k; kept = λ r i m. i })
  | inr free ↦ rw free (record {
    key = append-HasKey (registered uid user url events) rows k free;
    kept = λ r i m. In-append_left r rows _ i;
  })
]

update-IsKept :
    (user id : ℕ) (events fields : Option (List ℕ)) (rows : List Webhook)
    → HasKey rows
    → IsKept rows (rows_after rows (update user id events fields rows))
unfolding update
update-IsKept user id events fields rows k = elim (Result-cases (check_not_managed user id rows)) [
  | inr (x, e) ↦ rw e (same-IsKept rows k)
  | inl (tt, e) ↦ elim (Bool-cases (any (is_row user id) rows)) [
    | inr none_there ↦ rw (e, none_there) (same-IsKept rows k)
    | inl there ↦
        rw (e, there)
          (record {
            key = update_rows-HasKey (is_row user id) _ rows (changed-id events fields) k;
            kept = λ r i m.
                In-update_rows_of (is_row user id) _ rows r i
                  (found_unmanaged user id rows r k e i m);
          })
  ]
]

delete-IsKept :
    (user id : ℕ) (rows : List Webhook)
    → HasKey rows
    → IsKept rows (rows_after rows (delete user id rows))
unfolding delete
delete-IsKept user id rows k = elim (Result-cases (check_not_managed user id rows)) [
  | inr (x, e) ↦ rw e (same-IsKept rows k)
  | inl (tt, e) ↦ elim (Bool-cases (any (is_removed user id) rows)) [
    | inr none_there ↦ rw (e, none_there) (same-IsKept rows k)
    | inl there ↦
        let p : Webhook → Bool = λ r. not (is_removed user id r) in
        rw (e, there)
          (record {
            key = λ r s i j q. k r s (In-select p r rows i).0 (In-select p s rows j).0 q;
            kept = λ r i m. In-select_of p r rows i (ground arith);
          })
  ]
]

serve-IsKept :
    (user : ℕ) (r : Request) (rows : List Webhook)
    → HasKey rows
    → IsKept rows (rows_after rows (serve user r rows))
serve-IsKept user (register uid url events) rows k =
    create_webhook-IsKept uid user url events rows k
serve-IsKept user (change id events fields) rows k = update-IsKept user id events fields rows k
serve-IsKept user (remove id) rows k = delete-IsKept user id rows k

pub kept_all :
    (rs : List (ℕ × Request)) (rows : List Webhook) (r : Webhook)
    → HasKey rows
    → In r rows
    → r.managed ≡ true
    → In r (serve_all rs rows)
unfolding serve_all
kept_all [] rows r k i m = i
kept_all ((user, q) ∷ rs) rows r k i m =
    let s = serve-IsKept user q rows k in
    kept_all rs (rows_after rows (serve user q rows)) r s.key (s.kept r i m) m
