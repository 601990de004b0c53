-- ===== src/Webhook/Managed.antt =====
-- The subscriptions that the platform owns, under what users ask of internal/webhook/webhook.go.
use district_scheduler.Common.{
  ℕ, suc, ◌≡◌, refl, inl, inr, true, ◌&&◌, List, [], ◌∷◌, arith, ◌==◌, any, select, In,
  In-select_of,
}
use district_scheduler.Webhook.{
  Webhook, is_subscribed, enqueue, deliver_to, Delivery, Values, build_data, field_set,
  delivery_job,
}
use district_scheduler.Worker.Queue.{Job}
use district_scheduler.Webhook.Kept.{Request, serve_all, HasKey, kept_all}

-- Is the delivery one to the row, with the booking's data?
abbrev pub DeliversTo : Webhook → ℕ → ℕ → Values → ℕ → Delivery × Job → Type 0
DeliversTo r event booking value now (d, j) =
    (d.webhook_id ≡ r.id)
    × (d.event ≡ event)
    × (d.booking_id ≡ booking)
    × (d.payload ≡ build_data value (field_set r.fields))
    × (j ≡ delivery_job j.id now)

deliver_to-In :
    (uid : ℕ → ℕ) (event booking : ℕ) (value : Values) (now : ℕ) (r : Webhook) (rows : List Webhook)
    → In r rows
    → (p : Delivery × Job) × In p (deliver_to uid event booking value now rows)
      × DeliversTo r event booking value now p
unfolding deliver_to
deliver_to-In uid event booking value now r [] i = elim i [ ]
deliver_to-In uid event booking value now r (s ∷ rows) (inl e) =
    (_, inl refl, rw e (refl, refl, refl, refl, refl))
deliver_to-In uid event booking value now r (s ∷ rows) (inr i) =
    let (p, h, d) = deliver_to-In (λ n. uid (suc (suc n))) event booking value now r rows i in
    (p, inr h, d)

-- Whatever users ask for, where ids are distinct, a subscription that the platform owns stays as it is; and
-- while it is active, each of its events at a booking of its user is still delivered to it, with the data of
-- its fields and with a new job.
pub managed-delivers :
    (rs : List (ℕ × Request)) (rows : List Webhook) (r : Webhook) (uid : ℕ → ℕ) (event booking : ℕ)
    (value : Values) (now : ℕ)
    → HasKey rows
    → In r rows
    → r.managed ≡ true
    → r.is_active && any (λ e. e == event) r.events ≡ true
    → In r (serve_all rs rows)
      × ((p : Delivery × Job) × In p
            (enqueue uid event r.user_id booking value now (serve_all rs rows))
          × DeliversTo r event booking value now p)
unfolding enqueue
managed-delivers rs rows r uid event booking value now k i m a =
    let kept = kept_all rs rows r k i m in
    (
      kept,
      deliver_to-In uid event booking value now r
          (select (is_subscribed r.user_id event) (serve_all rs rows))
          (In-select_of (is_subscribed r.user_id event) r (serve_all rs rows) kept (ground arith)),
    )
