-- ===== src/Order/Cancellation/Store.antt =====
-- The statements of the cancellation on the tables of orders, requests and payouts
-- (backend/services/order/internal/cancellation/repository.go, and order_repo.go, payout_repo.go of
-- internal/adapter/postgres). The rows of the requests stand newest first, those of the payouts
-- oldest first. Failures of the database itself are not modelled.
use ec_test.Base.{
  ℕ, Bool, true, false, not, ◌&&◌, ◌||◌, Option, none, some, List, [], ◌∷◌, ◌==◌, if◌then◌else◌,
}
use ec_test.Base.Int.{pos}
use ec_test.Base.Tx.{Tx, ok, err}
use ec_test.Order.Cancellation.Domain.{
  Order, Payout, CancellationRequest, OrderStatus, paid, cancelled, payout_reversed,
  request_pending, approved, rejected, failed, can_be_cancelled, is_terminal, is_pending_order,
}

-- The answers of the service with their codes, and the sentinels of the repositories.
pub data Error : Type 0 where
  bad_request internal order_not_found not_order_buyer not_order_seller : Error
  order_not_cancellable request_already_exists request_not_found request_already_processed : Error
  refund_failed transfer_reversal_failed : Error
  invalid_order_status : Error
  pending_request_exists already_processed order_status_changed order_not_pending : Error
  statement_failed : Error

pub record Db : Type 0 where
  pub orders : List Order
  pub requests : List CancellationRequest
  pub payouts : List Payout

abbrev pub M : Type 0 → Type 0
M A = Tx Db Error A

unfoldable pub find_order : ℕ → List Order → Option Order
find_order id [] = none
find_order id (o ∷ os) = if o.id == id then some o else find_order id os

unfoldable pub find_request : ℕ → List CancellationRequest → Option CancellationRequest
find_request id [] = none
find_request id (r ∷ rs) = if r.id == id then some r else find_request id rs

-- `Repository.GetLatestByOrder`
unfoldable pub latest_by_order : ℕ → List CancellationRequest → Option CancellationRequest
latest_by_order order_id [] = none
latest_by_order order_id (r ∷ rs) =
    if r.order_id == order_id then some r else latest_by_order order_id rs

-- The partial unique index on the pending requests.
unfoldable pub has_pending : ℕ → List CancellationRequest → Bool
has_pending order_id [] = false
has_pending order_id (r ∷ rs) =
    (r.order_id == order_id && not (is_terminal r.status)) || has_pending order_id rs

abbrev pub is_some : {A : Type 0} → Option A → Bool
is_some none = false
is_some (some a) = true

abbrev pub new_request : ℕ → ℕ → ℕ → ℕ → CancellationRequest
new_request id order_id buyer reason = record {
  id = id;
  order_id = order_id;
  requested_by_auth0_id = buyer;
  reason = reason;
  status = request_pending;
  seller_comment = none;
  processed_by_seller_id = none;
  stripe_refund_id = none;
}

-- `Repository.Create`, with the primary key and the partial unique index.
unfoldable pub create : CancellationRequest → M (Unit {0})
create r db =
    if is_some (find_request r.id db.requests)
    then err statement_failed
    else if has_pending r.order_id db.requests
    then err pending_request_exists
    else ok (tt, record db { requests = r ∷ db.requests })

-- An UPDATE of the request with this id, if it is pending.
unfoldable pub update_pending :
    ℕ
    → (CancellationRequest → CancellationRequest)
    → List CancellationRequest
    → List CancellationRequest
update_pending id f [] = []
update_pending id f (r ∷ rs) =
    if r.id == id
    then (if is_terminal r.status then r else f r) ∷ rs
    else r ∷ update_pending id f rs

-- The row that such an UPDATE finds.
abbrev pub pending_row : Option CancellationRequest → Option CancellationRequest
pending_row none = none
pending_row (some r) = if is_terminal r.status then none else some r

abbrev pub rejected_by : ℕ → ℕ → CancellationRequest → CancellationRequest
rejected_by seller comment r = record r {
  status = rejected;
  seller_comment = some comment;
  processed_by_seller_id = some seller;
}

-- `Repository.Reject`
unfoldable pub reject : ℕ → ℕ → ℕ → M CancellationRequest
reject id seller comment db = elim (pending_row (find_request id db.requests)) [
  | none ↦ err already_processed
  | some r ↦ ok (
    rejected_by seller comment r,
    record db { requests = update_pending id (rejected_by seller comment) db.requests },
  )
]

abbrev pub fail_row : CancellationRequest → CancellationRequest
fail_row r = record r { status = failed }

-- `Repository.MarkFailed`; the service only logs that no row was pending.
unfoldable pub mark_failed : ℕ → Db → Db
mark_failed id db = record db { requests = update_pending id fail_row db.requests }

pub record ReversedPayout : Type 0 where
  pub payout_id : ℕ
  pub stripe_reversal_id : ℕ

pub record ApprovalTxInput : Type 0 where
  pub request_id : ℕ
  pub order_id : ℕ
  pub seller_id : ℕ
  pub comment : ℕ
  pub reason : ℕ
  pub stripe_refund_id : ℕ
  pub processed_at : ℕ
  pub reversed_payouts : List ReversedPayout

abbrev pub null_if_empty : ℕ → Option ℕ
null_if_empty s = if s == 0 then none else some s

abbrev pub approved_by : ApprovalTxInput → CancellationRequest → CancellationRequest
approved_by i r = record r {
  status = approved;
  seller_comment = null_if_empty i.comment;
  processed_by_seller_id = some i.seller_id;
  stripe_refund_id = some i.stripe_refund_id;
}

unfoldable pub update_order : ℕ → (Order → Order) → List Order → List Order
update_order id f [] = []
update_order id f (o ∷ os) = if o.id == id then f o ∷ os else o ∷ update_order id f os

abbrev pub cancelled_by : ApprovalTxInput → Order → Order
cancelled_by i o = record o {
  status = cancelled;
  cancelled_at = some i.processed_at;
  cancellation_reason = some i.reason;
}

unfoldable pub find_payout : ℕ → List Payout → Option Payout
find_payout id [] = none
find_payout id (p ∷ ps) = if p.id == id then some p else find_payout id ps

unfoldable pub update_payout : ℕ → (Payout → Payout) → List Payout → List Payout
update_payout id f [] = []
update_payout id f (p ∷ ps) = if p.id == id then f p ∷ ps else p ∷ update_payout id f ps

abbrev pub reversed_at_time : ℕ → ℕ → Payout → Payout
reversed_at_time reversal now p = record p {
  status = payout_reversed;
  stripe_reversal_id = some reversal;
  reversed_at = some now;
}

-- The loop over the reversed payouts.
unfoldable pub mark_reversed : ℕ → List ReversedPayout → List Payout → Option (List Payout)
unfolding find_payout update_payout
mark_reversed now [] ps = some ps
mark_reversed now (v ∷ vs) ps = elim (find_payout v.payout_id ps) [
  | none ↦ none
  | some p ↦
      mark_reversed now vs
        (update_payout v.payout_id (reversed_at_time v.stripe_reversal_id now) ps)
]

-- The order as `ApproveTx` reads it back: the discounts, the reservations, the points and the stamps
-- of the event are not among the columns, and keep Go's zero values.
abbrev pub returned : Order → Order
returned o = record o {
  coupon_discount_amount = pos 0;
  point_discount_amount = pos 0;
  coupon_reservation_id = none;
  points_earned = pos 0;
  point_reservation_id = none;
  paid_event_published_at = none;
  paid_event_claim_at = none;
}

abbrev pub cancellable_row : Option Order → Option Order
cancellable_row none = none
cancellable_row (some o) = if can_be_cancelled o.status then some o else none

-- `Repository.ApproveTx`
unfoldable pub approve_tx : ApprovalTxInput → M (CancellationRequest × Order)
unfolding mark_reversed
approve_tx i db = elim (pending_row (find_request i.request_id db.requests)) [
  | none ↦ err already_processed
  | some r ↦ elim (cancellable_row (find_order i.order_id db.orders)) [
    | none ↦ err order_status_changed
    | some o ↦ elim (mark_reversed i.processed_at i.reversed_payouts db.payouts) [
      | none ↦ err statement_failed
      | some ps ↦ ok (
        (approved_by i r, returned (cancelled_by i o)),
        record {
          requests = update_pending i.request_id (approved_by i) db.requests;
          orders = update_order i.order_id (cancelled_by i) db.orders;
          payouts = ps;
        },
      )
    ]
  ]
]

-- `PayoutRepository.ListByOrderID`
unfoldable pub list_by_order_id : ℕ → List Payout → List Payout
list_by_order_id order_id [] = []
list_by_order_id order_id (p ∷ ps) =
    let rest = list_by_order_id order_id ps in if p.order_id == order_id then p ∷ rest else rest

abbrev pub paid_with : ℕ → ℕ → Order → Order
paid_with now intent o = record o {
  status = paid;
  paid_at = some now;
  stripe_payment_intent_id = some intent;
}

-- `OrderRepository.SetPaid`
unfoldable pub set_paid : ℕ → ℕ → ℕ → M (Unit {0})
set_paid id now intent db = elim (find_order id db.orders) [
  | none ↦ err statement_failed
  | some o ↦
      if is_pending_order o.status
      then ok (tt, record db { orders = update_order id (paid_with now intent) db.orders })
      else err order_not_pending
]

-- `OrderRepository.UpdateStatus`, which has no condition on the status.
unfoldable pub update_status : ℕ → OrderStatus → M (Unit {0})
update_status id next db = elim (find_order id db.orders) [
  | none ↦ err statement_failed
  | some o ↦
      ok (tt, record db { orders = update_order id (λ o. record o { status = next }) db.orders })
]
