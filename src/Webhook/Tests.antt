-- ===== src/Webhook/Tests.antt =====
-- Runs of internal/webhook/webhook.go: a subscription of the platform, and a user who would change it.
use district_scheduler.Common.{
  ℕ, ◌+◌, refl, inl, inr, true, none, some, List, [], ◌∷◌, arith, In, ◌==◌, if◌then◌else◌,
}
use district_scheduler.Webhook.{Webhook, Values, enqueue, Delivery}
use district_scheduler.Webhook.Kept.{Request, change, remove, serve_all, HasKey}
use district_scheduler.Webhook.Managed.{DeliversTo, managed-delivers}
use district_scheduler.Worker.Queue.{Job}

abbrev platform : Webhook
platform = record {
  id = 3;
  user_id = 1;
  url = 8;
  events = 5 ∷ [];
  fields = none;
  is_active = true;
  managed = true;
}

platform-HasKey : HasKey (platform ∷ [])
platform-HasKey r s (inl a) (inl b) e = ground arith
platform-HasKey r s (inl a) (inr j) e = elim j [ ]
platform-HasKey r s (inr i) j e = elim i [ ]

-- Every field has its number for its value; the location is empty.
abbrev numbers : Values
numbers f = if f == 5 then 0 else f

abbrev attempts : List (ℕ × Request)
attempts = (1, change 3 (some []) none) ∷ (1, remove 3) ∷ []

managed-delivers_example :
    In platform (serve_all attempts (platform ∷ []))
    × ((p : Delivery × Job) × In p
          (enqueue (λ n. n + 20) 5 1 4 numbers 0 (serve_all attempts (platform ∷ [])))
        × DeliversTo platform 5 4 numbers 0 p)
managed-delivers_example =
    managed-delivers attempts (platform ∷ []) platform (λ n. n + 20) 5 4 numbers 0 platform-HasKey
      (inl refl) refl refl
