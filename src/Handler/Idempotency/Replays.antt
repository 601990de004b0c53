-- ===== src/Handler/Idempotency/Replays.antt =====
-- What later attempts with a key are answered: internal/handler/idempotency.go and `CreateBooking` of
-- booking_handler.go, beside the worker's purges.
use district_scheduler.Common.{
  ℕ, ◌<◌, ◌≤◌, ◌≡◌, refl, subst, ◌∙◌, inl, inr, false, none, some, List, ◌∷◌, arith, ◌==◌,
  if◌then◌else◌, Bool-cases, Option-cases, In,
}
use district_scheduler.Common.Maps.{lookup, lookup-insert, lookup-remove}
use district_scheduler.Handler.Idempotency.{
  Entry, Keys, owned, mismatch, replayed, claim_key, Attempt, admit, finish_key, release_key,
}
use district_scheduler.Handler.Idempotency.Once.{
  Desk, drop_one, times, Step, answered, started, stored, unstored, undid, released, broke_off,
  swept, Reach, here, next, IsOnce, times-drop_one, times_of_In,
}

-- The key has its entry, and no request of it is worked on.
abbrev IsSettled : ℕ → Entry → Desk → Type 0
IsSettled key x d = (lookup key d.keys ≡ some x) × (times key d.running ≡ 0)

not_key : (key k : ℕ) (ks : List ℕ) → times key ks ≡ 0 → In k ks → (k == key) ≡ false
not_key key k ks z i = elim (Bool-cases (k == key)) [
  | inl same ↦
      let is : k ≡ key = ground arith in
      let h = subst (λ (j : ℕ). 0 < times j ks) is (times_of_In k ks i) in absurd (omega arith)
  | inr other ↦ other
]

finish_key-other :
    (key status body asked : ℕ) (keys : Keys)
    → (key == asked) ≡ false
    → lookup asked (finish_key key status body keys) ≡ lookup asked keys
unfolding finish_key
finish_key-other key status body asked keys other = elim (Option-cases (lookup key keys)) [
  | inl e ↦ rw e refl
  | inr (x, e) ↦ ground (
    arith,
    lookup-insert key asked (record x { status_code = status; response_body = body }) keys,
  )
]

admit-other :
    (r : Attempt) (keys : Keys) (asked : ℕ) {x : Entry}
    → (admit r keys).0 ≡ owned
    → lookup asked keys ≡ some x
    → (lookup asked (admit r keys).1 ≡ some x) × ((r.key == asked) ≡ false)
unfolding admit claim_key
admit-other r keys asked h e = elim (Option-cases (lookup r.key keys)) [
  | inl free ↦
      let row =
        lookup-insert r.key asked
          (record { request_hash = r.body_hash; status_code = 0; response_body = 0 }) keys in
      elim (Bool-cases (r.key == asked)) [
        | inl same ↦
            let is : r.key ≡ asked = ground arith in
            let gone = subst (λ (k : ℕ). lookup k keys ≡ none) is free in absurd (ground arith)
        | inr other ↦ (ground (arith, row), other)
      ]
  | inr (y, taken) ↦ absurd (ground arith)
]

Step-purged : (key : ℕ) (d : Desk) {e : Desk} → Step d e → times key d.purged ≤ times key e.purged
Step-purged key d (answered r h) = omega arith
Step-purged key d (started r h) = omega arith
Step-purged key d (stored k status body i p) = omega arith
Step-purged key d (unstored k i) = omega arith
Step-purged key d (undid k i) = omega arith
Step-purged key d (released k i) = omega arith
Step-purged key d (broke_off k i) = omega arith
Step-purged key d (swept k) = ground arith

Reach-purged : (key : ℕ) {d e : Desk} → Reach d e → times key d.purged ≤ times key e.purged
Reach-purged key here = omega arith
Reach-purged key (next {e = e} r t) = omega (arith, Reach-purged key r, Step-purged key e t)

Step-IsSettled :
    (key : ℕ) (x : Entry) (d : Desk) {e : Desk}
    → Step d e
    → times key e.purged ≡ 0
    → IsSettled key x d
    → IsSettled key x e
unfolding release_key
Step-IsSettled key x d (answered r h) q s = s
Step-IsSettled key x d (started r h) q (e, z) =
    let (f, other) = admit-other r d.keys key h e in (f, ground arith)
Step-IsSettled key x d (stored k status body i p) q (e, z) =
    let other = not_key key k d.running z i in
    (
      finish_key-other k status body key d.keys other ∙ e,
      ground (arith, times-drop_one k key d.running i),
    )
Step-IsSettled key x d (unstored k i) q (e, z) =
    (e, ground (arith, times-drop_one k key d.running i))
Step-IsSettled key x d (undid k i) q (e, z) =
    let other = not_key key k d.running z i in
    (ground (arith, lookup-remove key k d.keys), ground (arith, times-drop_one k key d.running i))
Step-IsSettled key x d (released k i) q (e, z) =
    let other = not_key key k d.running z i in
    (ground (arith, lookup-remove key k d.keys), ground (arith, times-drop_one k key d.running i))
Step-IsSettled key x d (broke_off k i) q (e, z) =
    (e, ground (arith, times-drop_one k key d.running i))
Step-IsSettled key x d (swept k) q (e, z) = (ground (arith, lookup-remove key k d.keys), z)

Reach-IsSettled :
    (key : ℕ) (x : Entry) {d e : Desk}
    → Reach d e
    → times key e.purged ≡ 0
    → IsSettled key x d
    → IsSettled key x e
Reach-IsSettled key x here q s = s
Reach-IsSettled key x (next {e = e} r t) q s =
    Step-IsSettled key x e t q (Reach-IsSettled key x r (omega (arith, Step-purged key e t)) s)

finish_key_self :
    (key status body : ℕ) (keys : Keys) (x : Entry)
    → lookup key keys ≡ some x
    → lookup key (finish_key key status body keys)
      ≡ some (record x { status_code = status; response_body = body })
unfolding finish_key
finish_key_self key status body keys x e = rw e (
    lookup-insert key key (record x { status_code = status; response_body = body }) keys
    ∙ ground arith)

-- Once a request has stored its response, and as long as the worker has purged no row of its key, an attempt
-- with that key, of a length within the limit, is answered with that response if its body's hash is the one
-- that the key was taken with, and refused as a mismatch if it is another; the table stays. This holds
-- however the steps of other requests, and purges of other keys, go on in between.
pub stored-replays :
    (d f : Desk) (key status body : ℕ) (x : Entry) (r : Attempt)
    → IsOnce d
    → In key d.running
    → lookup key d.keys ≡ some x
    → 0 < status
    → Reach
        (record d {
          keys = finish_key key status body d.keys;
          running = drop_one key d.running;
          made = key ∷ d.made;
        })
        f
    → times key f.purged ≡ 0
    → r.key ≡ key
    → 0 < r.key_length
    → r.key_length < 256
    → admit r f.keys
      ≡ ((if r.body_hash == x.request_hash then replayed status body else mismatch), f.keys)
unfolding admit claim_key
stored-replays d f key status body x r o i e p reach q k l m =
    let y : Entry = record x { status_code = status; response_body = body } in
    let quiet : times key (drop_one key d.running) ≡ 0 = ground (
      arith,
      times-drop_one key key d.running i,
      times_of_In key d.running i,
      Reach-purged key reach,
      o.once key,
    ) in
    let (g, z) =
      Reach-IsSettled key y reach q (finish_key_self key status body d.keys x e, quiet) in
    let found : lookup r.key f.keys ≡ some y = rw k g in ground arith
