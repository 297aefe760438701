-- ===== src/Order/Cancellation/Service/Requests.antt =====
-- Requesting and rejecting a cancellation
-- (backend/services/order/internal/cancellation/service.go).
use ec_test.Base.{ℕ, not, none, some, ◌==◌, if◌then◌else◌}
use ec_test.Base.Tx.{Result, ok, err}
use ec_test.Order.Cancellation.Domain.{Order, CancellationRequest, can_be_cancelled, is_terminal}
use ec_test.Order.Cancellation.Store.{
  Error, bad_request, internal, not_order_buyer, not_order_seller, order_not_cancellable,
  request_already_exists, request_not_found, request_already_processed, pending_request_exists,
  already_processed, find_request, new_request, create, reject,
}
use ec_test.Order.Cancellation.Service.Outside.{
  World, publish, in_tx, with_order, cancellation_requested, cancellation_rejected,
}

abbrev pub create_error : Error → Error
create_error pending_request_exists = request_already_exists
create_error _ = internal

-- `Service.RequestCancellation`
unfoldable pub request_cancellation :
    ℕ → ℕ → ℕ → ℕ → World → Result Error CancellationRequest × World
request_cancellation order_id buyer reason id w =
    if reason == 0
    then (err bad_request, w)
    else with_order order_id w (λ o.
      if not (o.buyer_auth0_id == buyer)
      then (err not_order_buyer, w)
      else if not (can_be_cancelled o.status)
      then (err order_not_cancellable, w)
      else in_tx (create (new_request id order_id buyer reason)) w create_error (λ _ w'. (
        ok (new_request id order_id buyer reason),
        publish (cancellation_requested id order_id) w',
      )))

-- `loadRequestForSellerAction`
abbrev pub with_request_of_seller :
    {A : Type 0}
    → ℕ
    → ℕ
    → World
    → (CancellationRequest → Order → Result Error A × World)
    → Result Error A × World
with_request_of_seller request_id seller w k = elim (find_request request_id w.db.requests) [
  | none ↦ (err request_not_found, w)
  | some r ↦
      with_order r.order_id w
        (λ o. if not (o.seller_id == seller) then (err not_order_seller, w) else k r o)
]

abbrev pub reject_error : Error → Error
reject_error already_processed = request_already_processed
reject_error _ = internal

-- `Service.RejectCancellation`
unfoldable pub reject_cancellation : ℕ → ℕ → ℕ → World → Result Error CancellationRequest × World
reject_cancellation request_id seller comment w = with_request_of_seller request_id seller w (λ r o.
    if is_terminal r.status
    then (err request_already_processed, w)
    else in_tx (reject request_id seller comment) w reject_error (λ updated w'.
      (ok updated, publish (cancellation_rejected updated.id updated.order_id) w')))
