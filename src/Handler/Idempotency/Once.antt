-- ===== src/Handler/Idempotency/Once.antt =====
-- Requests with idempotency keys that are worked on side by side: internal/handler/idempotency.go and
-- `CreateBooking` of booking_handler.go, beside the worker's purge of the keys (internal/worker/worker.go).
use district_scheduler.Common.{
  ℕ, ◌+◌, ◌≤◌, ◌<◌, ◌≡◌, refl, subst, inl, inr, Bool, true, false, Option, none, some, List, [],
  ◌∷◌, arith, ◌==◌, if◌then◌else◌, Bool-cases, Option-cases, In,
}
use district_scheduler.Common.Maps.{lookup, lookup-insert, lookup-remove}
use district_scheduler.Handler.Idempotency.{
  Entry, Keys, owned, claim_key, Attempt, admit, finish_key, release_key,
}

-- The table; the keys of the requests that are worked on; of the bookings whose requests kept their key; of
-- the bookings whose requests released their key all the same; and of the rows that the worker purged.
pub record Desk : Type 0 where
  pub keys : Keys
  pub running : List ℕ
  pub made : List ℕ
  pub undone : List ℕ
  pub purged : List ℕ

abbrev pub drop_one : ℕ → List ℕ → List ℕ
drop_one key [] = []
drop_one key (k ∷ ks) = let rest = drop_one key ks in if k == key then ks else k ∷ rest

-- How often a key stands in a list.
abbrev pub times : ℕ → List ℕ → ℕ
times key [] = 0
times key (k ∷ ks) = (if k == key then 1 else 0) + times key ks

-- What happens at a time. A request is turned away or answered, or takes its key. Once it owns the key, it
-- makes its booking and stores the response, or does not get to store it; it makes its booking and releases
-- the key, where the payment cannot be started or the response not be written as JSON; it makes none and
-- releases the key; or it makes none and does not get to release it. And the worker deletes an old row, one at
-- a time.
pub data Step (d : Desk) : Desk → Type 0 where
  answered : (r : Attempt) → (admit r d.keys).1 ≡ d.keys → Step d d
  started :
      (r : Attempt)
      → (admit r d.keys).0 ≡ owned
      → Step d (record d { keys = (admit r d.keys).1; running = r.key ∷ d.running })
  stored :
      (key status body : ℕ)
      → In key d.running
      → 0 < status
      → Step d (record d {
        keys = finish_key key status body d.keys;
        running = drop_one key d.running;
        made = key ∷ d.made;
      })
  unstored :
      (key : ℕ)
      → In key d.running
      → Step d (record d { running = drop_one key d.running; made = key ∷ d.made })
  undid :
      (key : ℕ)
      → In key d.running
      → Step d (record d {
        keys = release_key key d.keys;
        running = drop_one key d.running;
        undone = key ∷ d.undone;
      })
  released :
      (key : ℕ)
      → In key d.running
      → Step d (record d { keys = release_key key d.keys; running = drop_one key d.running })
  broke_off : (key : ℕ) → In key d.running → Step d (record d { running = drop_one key d.running })
  swept : (key : ℕ) → Step d (record d { keys = release_key key d.keys; purged = key ∷ d.purged })

pub data Reach (d : Desk) : Desk → Type 0 where
  here : Reach d d
  next : {e f : Desk} → Reach d e → Step e f → Reach d f

pub times-drop_one :
    (key asked : ℕ) (ks : List ℕ)
    → In key ks
    → times asked (drop_one key ks) + (if key == asked then 1 else 0) ≡ times asked ks
times-drop_one key asked [] i = elim i [ ]
times-drop_one key asked (k ∷ ks) (inl e) = ground arith
times-drop_one key asked (k ∷ ks) (inr i) = ground (arith, times-drop_one key asked ks i)

abbrev pub is_taken : Option Entry → Bool
is_taken none = false
is_taken (some e) = true

-- Beyond one for each purge of its row, at most one request of a key is worked on or has made a booking and
-- kept the key, and that one only while the key is taken.
pub record IsOnce (d : Desk) : Type 0 where
  pub once : (key : ℕ) → times key d.running + times key d.made ≤ 1 + times key d.purged
  pub held :
      (key : ℕ)
      → is_taken (lookup key d.keys) ≡ false
      → times key d.running + times key d.made ≤ times key d.purged

admit-owned :
    (r : Attempt) (keys : Keys)
    → (admit r keys).0 ≡ owned
    → (is_taken (lookup r.key keys) ≡ false)
      × ((asked : ℕ)
          → is_taken (lookup asked (admit r keys).1)
            ≡ (if r.key == asked then true else is_taken (lookup asked keys)))
unfolding admit claim_key
admit-owned r keys h = elim (Option-cases (lookup r.key keys)) [
  | inl e ↦ (
    ground arith,
    λ asked.
        let row =
          lookup-insert r.key asked
            (record { request_hash = r.body_hash; status_code = 0; response_body = 0 }) keys in
        ground (arith, row),
  )
  | inr (x, e) ↦ absurd (ground arith)
]

finish_key-taken :
    (key status body asked : ℕ) (keys : Keys)
    → is_taken (lookup asked (finish_key key status body keys)) ≡ is_taken (lookup asked keys)
unfolding finish_key
finish_key-taken key status body asked keys = elim (Option-cases (lookup key keys)) [
  | inl e ↦ rw e refl
  | inr (x, e) ↦ ground (
    arith,
    lookup-insert key asked (record x { status_code = status; response_body = body }) keys,
  )
]

release_key-taken :
    (key asked : ℕ) (keys : Keys)
    → is_taken (lookup asked (release_key key keys))
      ≡ (if key == asked then false else is_taken (lookup asked keys))
unfolding release_key
release_key-taken key asked keys = ground (arith, lookup-remove asked key keys)

pub times_of_In : (key : ℕ) (ks : List ℕ) → In key ks → 0 < times key ks
times_of_In key [] i = elim i [ ]
times_of_In key (k ∷ ks) (inl e) = ground arith
times_of_In key (k ∷ ks) (inr i) = ground (arith, times_of_In key ks i)

module _ (d : Desk) (o : IsOnce d) where
  -- A request that ends with its booking leaves a key that stays as taken as it was.
  ended-IsOnce :
      (key : ℕ) (keys : Keys)
      → In key d.running
      → ((asked : ℕ) → is_taken (lookup asked keys) ≡ is_taken (lookup asked d.keys))
      → IsOnce (record d { keys = keys; running = drop_one key d.running; made = key ∷ d.made })
  ended-IsOnce key keys i same = record {
    once = λ asked. ground (arith, times-drop_one key asked d.running i, o.once asked);
    held = λ asked free.
        ground (arith, times-drop_one key asked d.running i, o.held asked, same asked);
  }

  -- A request that ends and does not keep its key.
  released-IsOnce :
      (key : ℕ) (undone : List ℕ)
      → In key d.running
      → IsOnce (record d {
        keys = release_key key d.keys;
        running = drop_one key d.running;
        undone = undone;
      })
  released-IsOnce key undone i = record {
    once = λ asked. ground (arith, times-drop_one key asked d.running i, o.once asked);
    held = λ asked f. ground (
      arith,
      times-drop_one key asked d.running i,
      o.once asked,
      o.held asked,
      release_key-taken key asked d.keys,
    );
  }

  Step-IsOnce : {e : Desk} → Step d e → IsOnce e
  Step-IsOnce (answered r h) = o
  Step-IsOnce (started r h) =
      let (free, rows) = admit-owned r d.keys h in
      record {
        once = λ asked. elim (Bool-cases (r.key == asked)) [
          | inl same ↦
              let is : r.key ≡ asked = ground arith in
              let none_yet =
                subst (λ (k : ℕ). times k d.running + times k d.made ≤ times k d.purged) is
                  (o.held r.key free) in
              ground arith
          | inr other ↦ ground (arith, o.once asked)
        ];
        held = λ asked f. ground (arith, rows asked, o.held asked);
      }
  Step-IsOnce (stored key status body i p) =
      ended-IsOnce key (finish_key key status body d.keys) i
        (λ asked. finish_key-taken key status body asked d.keys)
  Step-IsOnce (unstored key i) = ended-IsOnce key d.keys i (λ asked. refl)
  Step-IsOnce (undid key i) = released-IsOnce key (key ∷ d.undone) i
  Step-IsOnce (released key i) = released-IsOnce key d.undone i
  Step-IsOnce (broke_off key i) = record {
    once = λ asked. ground (arith, times-drop_one key asked d.running i, o.once asked);
    held = λ asked f. ground (arith, times-drop_one key asked d.running i, o.held asked);
  }
  Step-IsOnce (swept key) = record {
    once = λ asked. ground (arith, o.once asked);
    held =
        λ asked f. ground (arith, o.once asked, o.held asked, release_key-taken key asked d.keys);
  }

-- However the steps of the requests and the worker's purges are interleaved, of the requests with a key at
-- most one more than its row was purged is worked on or has made its booking and kept the key, and no more
-- than that row was purged while the key is free. So until a purge no two requests of a key are worked on at
-- once, and every booking of the key but one is of a request that released it after the booking.
pub Reach-IsOnce : {d e : Desk} → Reach d e → IsOnce d → IsOnce e
Reach-IsOnce here o = o
Reach-IsOnce (next {e = e} r s) o = Step-IsOnce e (Reach-IsOnce r o) s
