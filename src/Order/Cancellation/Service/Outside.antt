-- ===== src/Order/Cancellation/Service/Outside.antt =====
-- What the order service works on: its tables, Stripe and its events
-- (backend/services/order/internal/cancellation, service.go and events.go).
use ec_test.Base.{ℕ, Option, none, some, List, ◌∷◌}
use ec_test.Base.Int.{ℤ}
use ec_test.Base.Tx.{Tx, Result, ok, err}
use ec_test.Order.Cancellation.Domain.{Order}
use ec_test.Order.Cancellation.Store.{Db, Error, order_not_found, find_order}

-- The answers of Stripe during one call: a refund takes the payment intent, the amount and the
-- request of its idempotency key, a reversal the transfer, the amount, and the request and the
-- payout of its key. `none` is an error.
pub record Stripe : Type 0 where
  pub create_refund : ℕ → ℤ → ℕ → Option ℕ
  pub reverse_transfer : ℕ → ℤ → ℕ → ℕ → Option ℕ

pub data StripeCall : Type 0 where
  refund_call : (intent : ℕ) (amount : ℤ) (request_id : ℕ) → StripeCall
  reverse_call : (transfer : ℕ) (amount : ℤ) (request_id payout_id : ℕ) → StripeCall

pub data Event : Type 0 where
  cancellation_requested : (request_id order_id : ℕ) → Event
  cancellation_rejected : (request_id order_id : ℕ) → Event
  cancellation_approved : (request_id order_id : ℕ) (amount : ℤ) → Event
  order_cancelled :
      (order_id : ℕ) (coupon_discount point_discount points_earned : ℤ)
      (coupon_reservation_id : Option ℕ)
      → Event
  order_shipped : (order_id : ℕ) → Event

-- The tables, and what was asked of Stripe and published, the last first.
pub record World : Type 0 where
  pub db : Db
  pub stripe_calls : List StripeCall
  pub events : List Event

-- `publishOrderCancelled`
abbrev pub cancelled_event : Order → Event
cancelled_event o =
    order_cancelled o.id o.coupon_discount_amount o.point_discount_amount o.points_earned
      o.coupon_reservation_id

abbrev pub publish : Event → World → World
publish e w = record w { events = e ∷ w.events }

-- A transaction of its own, and what the service makes of its failure.
abbrev pub in_tx :
    {A B : Type 0}
    → Tx Db Error A
    → World
    → (Error → Error)
    → (A → World → Result Error B × World)
    → Result Error B × World
in_tx m w f k = elim (m w.db) [ ok (a, db) ↦ k a (record w { db = db }) | err e ↦ (err (f e), w) ]

-- The load of an order, and the buyer's or the seller's right to it.
abbrev pub with_order :
    {A : Type 0} → ℕ → World → (Order → Result Error A × World) → Result Error A × World
with_order id w k = elim (find_order id w.db.orders) [
  | none ↦ (err order_not_found, w)
  | some o ↦ k o
]
