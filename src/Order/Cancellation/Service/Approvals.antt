-- ===== src/Order/Cancellation/Service/Approvals.antt =====
-- Approving a cancellation (backend/services/order/internal/cancellation/service.go). The calls of
-- one approval are two functions, for other transactions may come between what it reads and what it
-- writes.
use ec_test.Base.{
  ℕ, Bool, true, false, not, ◌||◌, Option, none, some, List, [], ◌∷◌, ◌==◌, if◌then◌else◌,
}
use ec_test.Base.Int.{ℤ}
use ec_test.Base.Tx.{Result, ok, err}
use ec_test.Order.Cancellation.Domain.{
  Order, Payout, CancellationRequest, can_be_cancelled, is_completed, is_terminal,
}
use ec_test.Order.Cancellation.Store.{
  Error, bad_request, internal, order_not_cancellable, request_already_processed, refund_failed,
  transfer_reversal_failed, pending_request_exists, already_processed, order_status_changed,
  latest_by_order, new_request, create, mark_failed, ReversedPayout, ApprovalTxInput, approve_tx,
  list_by_order_id,
}
use ec_test.Order.Cancellation.Service.Outside.{
  Stripe, StripeCall, World, cancelled_event, publish, with_order, refund_call, reverse_call,
  cancellation_requested, cancellation_approved,
}
use ec_test.Order.Cancellation.Service.Requests.{with_request_of_seller}

-- The payment intent that there is to refund.
abbrev pub intent_of : Order → Option ℕ
intent_of o = elim o.stripe_payment_intent_id [
  | none ↦ none
  | some i ↦ if i == 0 then none else some i
]

abbrev pub transfer_of : Payout → Option ℕ
transfer_of p =
    if is_completed p.status
    then elim p.stripe_transfer_id [ none ↦ none | some t ↦ if t == 0 then none else some t ]
    else none

-- The loop over the payouts: the reversals, or none if one failed; and the calls so far.
unfoldable pub reverse_payouts :
    Stripe → ℕ → List Payout → List StripeCall → Option (List ReversedPayout) × List StripeCall
reverse_payouts stripe request_id [] calls = (some [], calls)
reverse_payouts stripe request_id (p ∷ ps) calls = elim (transfer_of p) [
  | none ↦ reverse_payouts stripe request_id ps calls
  | some t ↦
      let called = reverse_call t p.amount request_id p.id ∷ calls in
      elim (stripe.reverse_transfer t p.amount request_id p.id) [
        | none ↦ (none, called)
        | some reversal ↦
            let rest = reverse_payouts stripe request_id ps called in
            (
              elim rest.0 [
                | none ↦ none
                | some vs ↦ some (record { payout_id = p.id; stripe_reversal_id = reversal } ∷ vs)
              ],
              rest.1,
            )
      ]
]

abbrev pub fail_request : {A : Type 0} → ℕ → Error → World → Result Error A × World
fail_request request_id e w = (err e, record w { db = mark_failed request_id w.db })

-- The part of `finalizeApproval` before its transaction.
unfoldable pub begin_approval :
    Stripe
    → CancellationRequest
    → Order
    → ℕ
    → ℕ
    → ℕ
    → ℕ
    → World
    → Result Error ApprovalTxInput × World
unfolding reverse_payouts
begin_approval stripe r o seller comment intent now w =
    let called = refund_call intent o.total_amount r.id ∷ w.stripe_calls in
    elim (stripe.create_refund intent o.total_amount r.id) [
      | none ↦ fail_request r.id refund_failed (record w { stripe_calls = called })
      | some refund_id ↦
          let reversals = reverse_payouts stripe r.id (list_by_order_id o.id w.db.payouts) called in
          elim reversals.0 [
            | none ↦
                fail_request r.id transfer_reversal_failed (record w { stripe_calls = reversals.1 })
            | some vs ↦ (
              ok (record {
                request_id = r.id;
                order_id = o.id;
                seller_id = seller;
                comment = comment;
                reason = r.reason;
                stripe_refund_id = refund_id;
                processed_at = now;
                reversed_payouts = vs;
              }),
              record w { stripe_calls = reversals.1 },
            )
          ]
    ]

-- `ApproveCancellation` up to the transaction.
unfoldable pub approve_cancellation :
    Stripe → ℕ → ℕ → ℕ → ℕ → World → Result Error ApprovalTxInput × World
unfolding begin_approval
approve_cancellation stripe request_id seller comment now w =
    with_request_of_seller request_id seller w (λ r o.
      if is_terminal r.status
      then (err request_already_processed, w)
      else if not (can_be_cancelled o.status)
      then (err order_not_cancellable, w)
      else elim (intent_of o) [
        | none ↦ (err order_not_cancellable, w)
        | some intent ↦ begin_approval stripe r o seller comment intent now w
      ])

abbrev pub is_pending_exists : Error → Bool
is_pending_exists pending_request_exists = true
is_pending_exists _ = false

-- A new request of the admin, or the one that another writer opened meanwhile.
unfoldable pub open_new : ℕ → ℕ → ℕ → ℕ → World → Result Error CancellationRequest × World
open_new order_id admin reason id w = elim (create (new_request id order_id admin reason) w.db) [
  | ok (_, db) ↦ (
    ok (new_request id order_id admin reason),
    publish (cancellation_requested id order_id) (record w { db = db }),
  )
  | err e ↦
      if is_pending_exists e
      then elim (latest_by_order order_id w.db.requests) [
        | none ↦ (err internal, w)
        | some r ↦ (ok r, w)
      ]
      else (err internal, w)
]

-- The request that an admin approves: the pending one, or a new one.
unfoldable pub open_request : ℕ → ℕ → ℕ → ℕ → World → Result Error CancellationRequest × World
unfolding open_new
open_request order_id admin reason id w = elim (latest_by_order order_id w.db.requests) [
  | none ↦ open_new order_id admin reason id w
  | some r ↦ if is_terminal r.status then open_new order_id admin reason id w else (ok r, w)
]

-- `Service.AdminForceCancel` up to the transaction; `comment` is the text that is made of the
-- admin and the reason.
unfoldable pub admin_force_cancel :
    Stripe → ℕ → ℕ → ℕ → ℕ → ℕ → ℕ → World → Result Error ApprovalTxInput × World
unfolding open_request begin_approval
admin_force_cancel stripe order_id admin reason comment id now w =
    if admin == 0 || reason == 0
    then (err bad_request, w)
    else with_order order_id w (λ o.
      if not (can_be_cancelled o.status)
      then (err order_not_cancellable, w)
      else elim (intent_of o) [
        | none ↦ (err order_not_cancellable, w)
        | some intent ↦
            let opened = open_request order_id admin reason id w in
            elim opened.0 [
              | err e ↦ (err e, opened.1)
              | ok r ↦ begin_approval stripe r o o.seller_id comment intent now opened.1
            ]
      ])

abbrev pub is_status_changed : Error → Bool
is_status_changed order_status_changed = true
is_status_changed _ = false

abbrev pub approve_error : Error → Error
approve_error already_processed = request_already_processed
approve_error _ = internal

-- The rest of `finalizeApproval`; `amount` is the total of the order that was read.
unfoldable pub finish_approval :
    ApprovalTxInput → ℤ → World → Result Error CancellationRequest × World
finish_approval i amount w = elim (approve_tx i w.db) [
  | ok ((r, o), db) ↦ (
    ok r,
    publish (cancelled_event o)
        (publish (cancellation_approved r.id o.id amount) (record w { db = db })),
  )
  | err e ↦
      if is_status_changed e
      then fail_request i.request_id order_not_cancellable w
      else (err (approve_error e), w)
]
