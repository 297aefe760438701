-- ===== src/Order/Cancellation/Domain.antt =====
-- Orders, payouts and cancellation requests (backend/services/order/internal/domain/order.go and
-- internal/cancellation/domain.go). Uuids, texts and times are numbers; 0 is the empty text. What
-- neither the cancellation nor the payment reads is left out: the names, the fee and the commission,
-- the lines, the currency and the address of an order, the seller and the currency of a payout, the
-- failure reason and the stamps of a request.
use ec_test.Base.{ℕ, Bool, true, false, Option}
use ec_test.Base.Int.{ℤ}

-- The last constructor is any other text.
pub data OrderStatus : Type 0 where
  pending paid processing shipped delivered completed cancelled other_status : OrderStatus

pub data PayoutStatus : Type 0 where
  payout_pending payout_completed payout_failed payout_reversed : PayoutStatus

pub data Status : Type 0 where
  request_pending approved rejected failed : Status

pub record Order : Type 0 where
  pub id : ℕ
  pub seller_id : ℕ
  pub buyer_auth0_id : ℕ
  pub status : OrderStatus
  pub total_amount : ℤ
  pub stripe_payment_intent_id : Option ℕ
  pub paid_at : Option ℕ
  pub cancelled_at : Option ℕ
  pub cancellation_reason : Option ℕ
  pub coupon_discount_amount : ℤ
  pub point_discount_amount : ℤ
  pub coupon_reservation_id : Option ℕ
  pub points_earned : ℤ
  pub subtotal_amount : ℤ
  pub point_reservation_id : Option ℕ
  pub paid_event_published_at : Option ℕ
  pub paid_event_claim_at : Option ℕ

pub record Payout : Type 0 where
  pub id : ℕ
  pub order_id : ℕ
  pub amount : ℤ
  pub stripe_transfer_id : Option ℕ
  pub stripe_reversal_id : Option ℕ
  pub status : PayoutStatus
  pub reversed_at : Option ℕ

pub record CancellationRequest : Type 0 where
  pub id : ℕ
  pub order_id : ℕ
  pub requested_by_auth0_id : ℕ
  pub reason : ℕ
  pub status : Status
  pub seller_comment : Option ℕ
  pub processed_by_seller_id : Option ℕ
  pub stripe_refund_id : Option ℕ

-- `Order.CanBeCancelled`, which `cancellableStatuses` repeats.
abbrev pub can_be_cancelled : OrderStatus → Bool
can_be_cancelled pending = true
can_be_cancelled paid = true
can_be_cancelled processing = true
can_be_cancelled _ = false

abbrev pub is_cancelled : OrderStatus → Bool
is_cancelled cancelled = true
is_cancelled _ = false

-- `Status.IsTerminal`
abbrev pub is_terminal : Status → Bool
is_terminal request_pending = false
is_terminal _ = true

abbrev pub is_completed : PayoutStatus → Bool
is_completed payout_completed = true
is_completed _ = false

abbrev pub is_pending_order : OrderStatus → Bool
is_pending_order pending = true
is_pending_order _ = false
