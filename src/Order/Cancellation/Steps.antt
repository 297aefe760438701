-- ===== src/Order/Cancellation/Steps.antt =====
-- Interleaved calls on orders and their cancellation requests
-- (backend/services/order/internal/cancellation/service.go), and when they keep a property of the
-- tables.
pub mod Kept
use ec_test.Base.{
  ℕ, ◌≡◌, refl, Bool, true, false, not, ◌&&◌, ◌||◌, Option, none, some, List, [], ◌∷◌, ◌==◌,
  if◌then◌else◌,
}
use ec_test.Base.Int.{ℤ}
use ec_test.Base.Tx.{Result, ok, err}
use ec_test.Base.Ensures.{Ensures, Post}
use ec_test.Order.Cancellation.Domain.{
  Order, CancellationRequest, OrderStatus, is_terminal, can_be_cancelled, shipped, delivered,
}
use ec_test.Order.Cancellation.Store.{
  Db, M, Error, find_order, find_request, latest_by_order, create, new_request, reject, mark_failed,
  ApprovalTxInput, approve_tx, set_paid, update_status, list_by_order_id, already_processed,
  order_status_changed, pending_request_exists, internal, refund_failed, transfer_reversal_failed,
  order_not_found, order_not_cancellable,
}
use ec_test.Order.Cancellation.Service.{
  Stripe, StripeCall, World, publish, in_tx, with_order, with_request_of_seller, intent_of,
  fail_request, create_error, reject_error, is_target, is_shipped, request_cancellation,
  reject_cancellation, begin_approval, approve_cancellation, open_new, open_request,
  admin_force_cancel, finish_approval, update_order_status, handle_shipment, is_pending_exists,
  is_status_changed, approve_error, cancellation_approved, order_cancelled, cancellation_rejected,
  order_shipped, reverse_payouts, refund_call, cancellation_requested,
}

-- One step of a call. `finish` is the end of any approval, begun at any time before.
pub data Call : Type 0 where
  request : (order_id buyer reason id : ℕ) → Call
  reject_one : (request_id seller comment : ℕ) → Call
  approve : (stripe : Stripe) (request_id seller comment now : ℕ) → Call
  force : (stripe : Stripe) (order_id admin reason comment id now : ℕ) → Call
  finish : (i : ApprovalTxInput) (amount : ℤ) → Call
  pay : (order_id now intent : ℕ) → Call
  move : (seller order_id : ℕ) (next : OrderStatus) → Call
  ship : (order_id : ℕ) (is_delivered : Bool) → Call

unfoldable pub step : World → Call → World
unfolding request_cancellation reject_cancellation approve_cancellation admin_force_cancel
    finish_approval update_order_status handle_shipment
step w (request order_id buyer reason id) = (request_cancellation order_id buyer reason id w).1
step w (reject_one request_id seller comment) = (reject_cancellation request_id seller comment w).1
step w (approve stripe request_id seller comment now) =
    (approve_cancellation stripe request_id seller comment now w).1
step w (force stripe order_id admin reason comment id now) =
    (admin_force_cancel stripe order_id admin reason comment id now w).1
step w (finish i amount) = (finish_approval i amount w).1
step w (pay order_id now intent) =
    (in_tx (set_paid order_id now intent) w (λ e. e) (λ u w'. (ok u, w'))).1
step w (move seller order_id next) = (update_order_status seller order_id next w).1
step w (ship order_id is_delivered) = (handle_shipment order_id is_delivered w).1

unfoldable pub run : World → List Call → World
unfolding step
run w [] = w
run w (c ∷ cs) = run (step w c) cs

-- Whether the call writes the status of an order without a condition on it.
abbrev pub writes_status : Call → Bool
writes_status (move seller order_id next) = true
writes_status (ship order_id is_delivered) = true
writes_status _ = false

unfoldable pub any_writes_status : List Call → Bool
any_writes_status [] = false
any_writes_status (c ∷ cs) = writes_status c || any_writes_status cs

-- The statements under a condition keep a property of the tables.
pub record IsClosed (P : Db → Type 0) : Type 0 where
  pub created :
      (r : CancellationRequest) (db : Db)
      → is_terminal r.status ≡ false
      → P db
      → Ensures (λ _ db'. P db') (create r db)
  pub rejected :
      (id seller comment : ℕ) (db : Db)
      → P db
      → Ensures (λ _ db'. P db') (reject id seller comment db)
  pub failed : (id : ℕ) (db : Db) → P db → P (mark_failed id db)
  pub approved : (i : ApprovalTxInput) (db : Db) → P db → Ensures (λ _ db'. P db') (approve_tx i db)
  pub paid :
      (id now intent : ℕ) (db : Db) → P db → Ensures (λ _ db'. P db') (set_paid id now intent db)

-- So does an unconditional write.
abbrev pub IsMovable : (Db → Type 0) → Type 0
IsMovable P =
    (id : ℕ) (next : OrderStatus) (db : Db)
    → P db
    → Ensures (λ _ db'. P db') (update_status id next db)
