-- ===== src/Order/Payment/Handler.antt =====
-- `HandlePaymentSuccess` of backend/services/order/internal/app/order_service.go, which a webhook of
-- Stripe calls, perhaps many times, for a payment of one or more orders.
use ec_test.Base.{ℕ, Bool, true, false, Option, none, some, List, [], ◌∷◌, if◌then◌else◌}
use ec_test.Base.Int.{ℤ, pos, ltb_ℤ}
use ec_test.Base.Tx.{Result, ok, err}
use ec_test.Order.Cancellation.Domain.{
  Order, Payout, PayoutStatus, payout_pending, payout_completed, payout_failed, payout_reversed,
  is_cancelled,
}
use ec_test.Order.Cancellation.Store.{Db, Error, order_not_pending, is_some, set_paid}
use ec_test.Order.Payment.Store.{
  find_all_by_intent, get_by_order_id, update_payout_status, set_points_earned, claim_paid_event,
  mark_paid_event_published,
}

-- The switches of the service, and how long a claim is good for (`publishClaimTTL`).
pub record Config : Type 0 where
  pub has_coupons : Bool
  pub has_loyalty : Bool
  pub publish_claim_ttl : ℕ

-- What others answer during one call: Stripe on the transfer of a payout, the coupon service on a
-- commit, the loyalty service with the points it grants, and the broker, and whether the database
-- takes the statements from the transfer on: the status of a payout, the points, the claim and the
-- mark. `none` and `false` are errors. Before the transfer, a failure does nothing for the order.
pub record Outside : Type 0 where
  pub create_transfer : Payout → Option ℕ
  pub commit_coupon : ℕ → ℕ → Bool
  pub commit_points : Order → Option ℤ
  pub publish_order_paid : ℕ → Bool
  pub publish_payout_completed : ℕ → Bool
  pub writes_payout : ℕ → Bool
  pub writes_points : ℕ → Bool
  pub claims : ℕ → Bool
  pub marks : ℕ → Bool

-- What the calls did outside of the tables, and the last first.
pub data Effect : Type 0 where
  transferred : (payout_id : ℕ) (amount : ℤ) (transfer : ℕ) → Effect
  coupon_committed : (reservation_id order_id : ℕ) → Effect
  points_committed : (order_id : ℕ) → Effect
  order_paid : (order_id : ℕ) (points_earned : ℤ) → Effect
  payout_completed_event : (payout_id order_id : ℕ) (amount : ℤ) (transfer : ℕ) → Effect
  payout_failed_event : (payout_id order_id : ℕ) → Effect

pub record World : Type 0 where
  pub db : Db
  pub effects : List Effect

pub data Failure : Type 0 where
  internal orders_not_found : Failure

-- The error of a call, or none: the loop goes on after none.
abbrev pub Answer : Type 0
Answer = Option Failure × World

abbrev pub with_effect : Effect → World → World
with_effect e w = record w { effects = e ∷ w.effects }

abbrev pub with_db : Db → World → World
with_db db w = record w { db = db }

module _ (config : Config) (outside : Outside) (now : ℕ) where
  -- The rows after the mark, whose failure is only logged.
  abbrev pub marked_db : Order → Db → Db
  marked_db o db = if outside.marks o.id then mark_paid_event_published o.id now db else db

  -- (C) Publish both events and mark them.
  unfoldable pub publish_events : Order → Payout → ℕ → World → Answer
  publish_events o p transfer w =
      if outside.publish_order_paid o.id
      then (if outside.publish_payout_completed p.id
          then (
            none,
            with_effect (payout_completed_event p.id o.id p.amount transfer)
                (with_effect (order_paid o.id o.points_earned) (with_db (marked_db o w.db) w)),
          )
          else (some internal, with_effect (order_paid o.id o.points_earned) w))
      else (some internal, w)

  unfoldable pub after_claim : Order → Payout → ℕ → World → (Bool × Bool) × Db → Answer
  unfolding publish_events
  after_claim o p transfer w ((true, already), db) = publish_events o p transfer (with_db db w)
  after_claim o p transfer w ((false, true), db) = (none, with_db db w)
  after_claim o p transfer w ((false, false), db) = (some internal, with_db db w)

  -- (C) The claim.
  unfoldable pub claim_and_publish : Order → Payout → ℕ → World → Answer
  unfolding after_claim claim_paid_event
  claim_and_publish o p transfer w =
      if is_some o.paid_event_published_at
      then (none, w)
      else if outside.claims o.id
      then after_claim o p transfer w (claim_paid_event config.publish_claim_ttl o.id now w.db)
      else (some internal, w)

  -- The points on the row of the order; a failure is only logged.
  abbrev pub pointed_db : Order → ℤ → Db → Db
  pointed_db o earned db =
      if outside.writes_points o.id then set_points_earned o.id earned db else db

  abbrev pub with_points : Order → ℤ → Order
  with_points o earned = record o { points_earned = earned }

  unfoldable pub after_points : Order → Payout → ℕ → World → Option ℤ → Answer
  unfolding claim_and_publish
  after_points o p transfer w none = (some internal, w)
  after_points o p transfer w (some earned) =
      if ltb_ℤ (pos 0) earned
      then claim_and_publish (with_points o earned) p transfer
          (with_effect (points_committed o.id) (with_db (pointed_db o earned w.db) w))
      else claim_and_publish o p transfer (with_effect (points_committed o.id) w)

  -- (B.2) The points.
  unfoldable pub commit_points : Order → Payout → ℕ → World → Answer
  unfolding after_points claim_and_publish
  commit_points o p transfer w =
      if config.has_loyalty
      then after_points o p transfer w (outside.commit_points o)
      else claim_and_publish o p transfer w

  -- (B.1) The coupon.
  unfoldable pub commit_reservation : Order → Payout → ℕ → World → Option ℕ → Answer
  unfolding commit_points
  commit_reservation o p transfer w none = commit_points o p transfer w
  commit_reservation o p transfer w (some reservation_id) =
      if outside.commit_coupon reservation_id o.id
      then commit_points o p transfer (with_effect (coupon_committed reservation_id o.id) w)
      else (some internal, w)

  unfoldable pub commit_all : Order → Payout → ℕ → World → Answer
  unfolding commit_reservation commit_points
  commit_all o p transfer w =
      if config.has_coupons
      then commit_reservation o p transfer w o.coupon_reservation_id
      else commit_points o p transfer w

  unfoldable pub after_update : Order → Payout → ℕ → World → Option Db → Answer
  unfolding commit_all
  after_update o p transfer w none = (some internal, w)
  after_update o p transfer w (some db) = commit_all o p transfer (with_db db w)

  abbrev pub db_or : Db → Option Db → Db
  db_or db none = db
  db_or db (some db') = db'

  -- `UpdateStatus` of a payout, or its failure.
  unfoldable pub write_payout : ℕ → PayoutStatus → Option ℕ → Db → Option Db
  unfolding update_payout_status
  write_payout id status transfer db =
      if outside.writes_payout id then update_payout_status id status transfer db else none

  -- (A) The transfer of a pending payout. Where it fails, a failure to write that is only logged.
  unfoldable pub after_transfer : Order → Payout → World → Option ℕ → Answer
  unfolding after_update write_payout
  after_transfer o p w none = (
    none,
    with_effect (payout_failed_event p.id o.id)
        (with_db (db_or w.db (write_payout p.id payout_failed none w.db)) w),
  )
  after_transfer o p w (some transfer) =
      after_update o p transfer (with_effect (transferred p.id p.amount transfer) w)
        (write_payout p.id payout_completed (some transfer) w.db)

  abbrev pub transfer_of : Option ℕ → ℕ
  transfer_of none = 0
  transfer_of (some t) = t

  unfoldable pub by_status : Order → Payout → World → PayoutStatus → Answer
  unfolding after_transfer commit_all
  by_status o p w payout_pending = after_transfer o p w (outside.create_transfer p)
  by_status o p w payout_completed = commit_all o p (transfer_of p.stripe_transfer_id) w
  by_status o p w payout_failed = (none, w)
  by_status o p w payout_reversed = (none, w)

  unfoldable pub by_payout : Order → World → Option Payout → Answer
  unfolding by_status
  by_payout o w none = (none, w)
  by_payout o w (some p) = by_status o p w p.status

  unfoldable pub after_paid : Order → World → Answer
  unfolding by_payout
  after_paid o w = by_payout o w (get_by_order_id o.id w.db)

  unfoldable pub after_set_paid : Order → World → Result Error (Unit {0} × Db) → Answer
  unfolding after_paid
  after_set_paid o w (ok (u, db)) = after_paid o (with_db db w)
  after_set_paid o w (err order_not_pending) = after_paid o w
  after_set_paid o w (err _) = (some internal, w)

  -- The body of the loop, for an order as it was read before the loop.
  unfoldable pub handle_order : ℕ → Order → World → Answer
  unfolding after_set_paid set_paid
  handle_order intent o w =
      if is_cancelled o.status
      then (none, w)
      else after_set_paid o w (set_paid o.id now intent w.db)

  unfoldable pub handle_orders : ℕ → List Order → World → Answer
  unfolding handle_order
  handle_orders intent [] w = (none, w)
  handle_orders intent (o ∷ os) w =
      let (answer, w') = handle_order intent o w in
      elim answer [ none ↦ handle_orders intent os w' | some e ↦ (some e, w') ]

  -- The rest of `HandlePaymentSuccess`, from its read of the orders.
  unfoldable pub handle_read : ℕ → List Order → World → Answer
  unfolding handle_orders
  handle_read intent [] w = (some orders_not_found, w)
  handle_read intent (o ∷ os) w = handle_orders intent (o ∷ os) w

  -- `HandlePaymentSuccess`, when nothing else runs meanwhile.
  unfoldable pub handle_payment_success : ℕ → World → Answer
  unfolding handle_read find_all_by_intent
  handle_payment_success intent w = handle_read intent (find_all_by_intent intent w.db.orders) w
