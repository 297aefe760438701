-- ===== src/Order/Cancellation/Undisturbed.antt =====
-- An approval that no other transaction disturbs (`ApproveCancellation` of
-- backend/services/order/internal/cancellation/service.go).
use ec_test.Base.{
  ℕ, ◌≡◌, refl, sym, ap, subst, ◌∙◌, Bool, true, false, not, Option, none, some, List, [], ◌∷◌,
  ◌==◌, if◌then◌else◌,
}
use ec_test.Base.Int.{ℤ}
use ec_test.Base.Tx.{Result, ok, err}
use ec_test.Order.Cancellation.Domain.{
  Order, Payout, CancellationRequest, is_terminal, can_be_cancelled,
}
use ec_test.Order.Cancellation.Store.{
  Db, Error, transfer_reversal_failed, order_not_found, request_not_found, not_order_seller,
  order_not_cancellable, find_order, find_request, ReversedPayout, ApprovalTxInput, approve_tx,
  mark_reversed, list_by_order_id, is_some, pending_row, cancellable_row,
}
use ec_test.Order.Cancellation.Lookups.{
  find_request-id, find_order-id, AreKnown, AreThere, list_by_order_id-AreKnown, mark_reversed-done,
}
use ec_test.Order.Cancellation.Service.{
  Stripe, StripeCall, World, refund_call, reverse_call, intent_of, transfer_of, reverse_payouts,
  begin_approval, approve_cancellation, finish_approval, fail_request, with_order,
  with_request_of_seller, publish, cancelled_event, cancellation_approved, is_status_changed,
  approve_error,
}

-- `Service.ApproveCancellation` from the read to the write; `amount` is the total of the order.
unfoldable pub approve_alone :
    Stripe → ℕ → ℕ → ℕ → ℕ → ℤ → World → Result Error CancellationRequest × World
unfolding approve_cancellation finish_approval
approve_alone stripe request_id seller comment now amount w =
    let begun = approve_cancellation stripe request_id seller comment now w in
    elim begun.0 [ err e ↦ (err e, begun.1) | ok i ↦ finish_approval i amount begun.1 ]

by_case :
    {A B : Type 0} (P : B → Type 0) (o : Option A) (x : B) (k : A → B)
    → (o ≡ none → P x)
    → ((a : A) → o ≡ some a → P (k a))
    → P (elim o as (λ _. B) [ none ↦ x | some a ↦ k a ])
by_case P none x k h g = h refl
by_case P (some a) x k h g = g a refl

abbrev pub is_ok : {A : Type 0} → Result Error A → Bool
is_ok (ok a) = true
is_ok (err e) = false

record IsWritten (x : Result Error ((CancellationRequest × Order) × Db)) : Type 0 where
  written : is_ok x ≡ true

finish_approval-is_ok :
    (i : ApprovalTxInput) (amount : ℤ) (w : World)
    → is_ok (approve_tx i w.db) ≡ true
    → is_ok (finish_approval i amount w).0 ≡ true
unfolding finish_approval
finish_approval-is_ok i amount w = by_result (approve_tx i w.db)
  where
    by_result :
        (x : Result Error ((CancellationRequest × Order) × Db))
        → is_ok x ≡ true
        → is_ok
            (elim x as (λ _. Result Error CancellationRequest × World) [
              | ok ((r, o), db) ↦ (
                ok r,
                publish
                    (cancelled_event o)
                    (publish (cancellation_approved r.id o.id amount) (record w { db = db })),
              )
              | err e ↦
                  if is_status_changed e
                  then fail_request i.request_id order_not_cancellable w
                  else (err (approve_error e), w)
            ]).0
          ≡ true
    by_result (ok ((r, o), db)) h = refl
    by_result (err e) h = let lost : false ≡ true = h in cc

-- Stripe refuses no call.
pub record IsAccepting (stripe : Stripe) : Type 0 where
  pub refunds :
      (intent : ℕ) (amount : ℤ) (request_id : ℕ)
      → is_some (stripe.create_refund intent amount request_id) ≡ true
  pub reverses :
      (transfer : ℕ) (amount : ℤ) (request_id payout_id : ℕ)
      → is_some (stripe.reverse_transfer transfer amount request_id payout_id) ≡ true

none_is_not : {A : Type 0} (o : Option A) → o ≡ none → is_some o ≡ true → ⊥
none_is_not o e h = let lost : false ≡ true = sym (ap is_some e) ∙ h in cc

module _ (stripe : Stripe) (accepts : IsAccepting stripe) (request_id : ℕ) (qs : List Payout) where
  -- The reversals that were made, and that their payouts are in the table.
  abbrev IsDone : Option (List ReversedPayout) × List StripeCall → Type 0
  IsDone (none, calls) = ⊥
  IsDone (some vs, calls) = AreThere vs qs

  reverse_payouts-IsDone :
      (ps : List Payout) (calls : List StripeCall)
      → AreKnown ps qs
      → IsDone (reverse_payouts stripe request_id ps calls)
  unfolding reverse_payouts
  reverse_payouts-IsDone [] calls h = tt
  reverse_payouts-IsDone (p ∷ ps) calls h =
      by_case IsDone (transfer_of p) _ _ (λ _. reverse_payouts-IsDone ps calls h.1)
        (λ t _.
          by_case IsDone (stripe.reverse_transfer t p.amount request_id p.id) _ _
            (λ refused.
              none_is_not (stripe.reverse_transfer t p.amount request_id p.id) refused
                (accepts.reverses t p.amount request_id p.id))
            (λ reversal _.
              consed reversal
                (reverse_payouts stripe request_id ps
                  (reverse_call t p.amount request_id p.id ∷ calls))
                (reverse_payouts-IsDone ps (reverse_call t p.amount request_id p.id ∷ calls) h.1)))
    where
      consed :
          (reversal : ℕ) (x : Option (List ReversedPayout) × List StripeCall)
          → IsDone x
          → IsDone (
            elim x.0 as (λ _. Option (List ReversedPayout)) [
              | none ↦ none
              | some vs ↦ some (record { payout_id = p.id; stripe_reversal_id = reversal } ∷ vs)
            ],
            x.1,
          )
      consed reversal (none, calls) k = k
      consed reversal (some vs, calls) k = (h.0, k)

module _ (stripe : Stripe) (accepts : IsAccepting stripe) (request_id seller comment now : ℕ)
    (amount : ℤ) (w : World) (r : CancellationRequest) (o : Order) (intent : ℕ)
    (found : find_request request_id w.db.requests ≡ some r)
    (open_still : is_terminal r.status ≡ false)
    (ordered : find_order r.order_id w.db.orders ≡ some o) (owned : (o.seller_id == seller) ≡ true)
    (can : can_be_cancelled o.status ≡ true) (charged : intent_of o ≡ some intent) where
  -- What was begun can be finished.
  abbrev IsReady : Result Error ApprovalTxInput × World → Type 0
  IsReady (ok i, w') =
      (i.request_id ≡ r.id)
      × (i.order_id ≡ o.id)
      × AreThere i.reversed_payouts w.db.payouts
      × (w'.db ≡ w.db)
  IsReady (err e, w') = ⊥

  begin_approval-IsReady : IsReady (begin_approval stripe r o seller comment intent now w)
  unfolding begin_approval
  begin_approval-IsReady =
      by_case IsReady (stripe.create_refund intent o.total_amount r.id) _ _
        (λ refused. none_is_not _ refused (accepts.refunds intent o.total_amount r.id))
        (λ refund _.
          reversed_ready refund
            (reverse_payouts stripe r.id (list_by_order_id o.id w.db.payouts)
              (refund_call intent o.total_amount r.id ∷ w.stripe_calls))
            (reverse_payouts-IsDone stripe accepts r.id w.db.payouts
              (list_by_order_id o.id w.db.payouts) _ (list_by_order_id-AreKnown o.id w.db.payouts)))
    where
      reversed_ready :
          (refund : ℕ) (x : Option (List ReversedPayout) × List StripeCall)
          → IsDone stripe accepts r.id w.db.payouts x
          → IsReady (elim x.0 as (λ _. Result Error ApprovalTxInput × World) [
            | none ↦ fail_request r.id transfer_reversal_failed (record w { stripe_calls = x.1 })
            | some vs ↦ (
              ok (record {
                request_id = r.id;
                order_id = o.id;
                seller_id = seller;
                comment = comment;
                reason = r.reason;
                stripe_refund_id = refund;
                processed_at = now;
                reversed_payouts = vs;
              }),
              record w { stripe_calls = x.1 },
            )
          ])
      reversed_ready refund (none, calls) k = k
      reversed_ready refund (some vs, calls) k = (refl, refl, k, refl)

  with_order-found :
      {A : Type 0} (id : ℕ) (k : Order → Result Error A × World)
      → find_order id w.db.orders ≡ some o
      → with_order id w k ≡ k o
  with_order-found {A} id k h =
      ap
        (λ x. elim x as (λ _. Result Error A × World) [
          | none ↦ (err order_not_found, w)
          | some y ↦ k y
        ])
        h

  with_request_of_seller-found :
      {A : Type 0} (k : CancellationRequest → Order → Result Error A × World)
      → with_request_of_seller request_id seller w k ≡ k r o
  with_request_of_seller-found {A} k =
      ap
        (λ x. elim x as (λ _. Result Error A × World) [
          | none ↦ (err request_not_found, w)
          | some y ↦
              with_order y.order_id w
                (λ z. if not (z.seller_id == seller) then (err not_order_seller, w) else k y z)
        ])
        found
      ∙ with_order-found r.order_id
          (λ z. if not (z.seller_id == seller) then (err not_order_seller, w) else k r z) ordered
      ∙ rw owned refl

  approve_cancellation_begins :
      approve_cancellation stripe request_id seller comment now w
      ≡ begin_approval stripe r o seller comment intent now w
  unfolding approve_cancellation
  approve_cancellation_begins =
      with_request_of_seller-found _
      ∙ rw (open_still, can)
          (ap
            (λ x. elim x as (λ _. Result Error ApprovalTxInput × World) [
              | none ↦ (err order_not_cancellable, w)
              | some y ↦ begin_approval stripe r o seller comment y now w
            ])
            charged)

  -- What is ready can be written, on the same tables.
  approve_tx-done :
      (i : ApprovalTxInput)
      → i.request_id ≡ r.id
      → i.order_id ≡ o.id
      → AreThere i.reversed_payouts w.db.payouts
      → IsWritten (approve_tx i w.db)
  unfolding approve_tx
  approve_tx-done i same_request same_order there =
      let request_there : find_request i.request_id w.db.requests ≡ some r =
        ap (λ id. find_request id w.db.requests)
          (same_request ∙ find_request-id request_id w.db.requests r found)
        ∙ found in
      let order_there : find_order i.order_id w.db.orders ≡ some o =
        ap (λ id. find_order id w.db.orders)
          (same_order ∙ find_order-id r.order_id w.db.orders o ordered)
        ∙ ordered in
      by_case IsWritten (pending_row (find_request i.request_id w.db.requests)) _ _
        (λ gone.
          elim (none_is_not (pending_row (find_request i.request_id w.db.requests)) gone
            (ap (λ x. is_some (pending_row x)) request_there ∙ rw open_still refl)) [ ])
        (λ r' _.
          by_case IsWritten (cancellable_row (find_order i.order_id w.db.orders)) _ _
            (λ gone.
              elim (none_is_not (cancellable_row (find_order i.order_id w.db.orders)) gone
                (ap (λ x. is_some (cancellable_row x)) order_there ∙ rw can refl)) [ ])
            (λ o' _.
              by_case IsWritten (mark_reversed i.processed_at i.reversed_payouts w.db.payouts) _ _
                (λ gone.
                  elim (none_is_not (mark_reversed i.processed_at i.reversed_payouts w.db.payouts)
                    gone
                    (mark_reversed-done i.processed_at i.reversed_payouts w.db.payouts there)) [ ])
                (λ ps _. record { written = refl })))

  abbrev finish_begun :
      Result Error ApprovalTxInput × World → Result Error CancellationRequest × World
  finish_begun begun = elim begun.0 [
    | err e ↦ (err e, begun.1)
    | ok i ↦ finish_approval i amount begun.1
  ]

  finish_begun-is_ok :
      (x : Result Error ApprovalTxInput × World) → IsReady x → is_ok (finish_begun x).0 ≡ true
  finish_begun-is_ok (ok i, w') (same_request, same_order, there, same) =
      finish_approval-is_ok i amount w' (
        subst (λ d. is_ok (approve_tx i d) ≡ true) (sym same)
          (approve_tx-done i same_request same_order there).written)
  finish_begun-is_ok (err e, w') h = elim h [ ]

  -- If a request is pending, its order belongs to the seller, can be cancelled and has a payment
  -- intent, Stripe refuses no call, and no other transaction comes between, then the approval of
  -- the request succeeds.
  pub approve_alone-succeeds :
      is_ok (approve_alone stripe request_id seller comment now amount w).0 ≡ true
  unfolding approve_alone
  approve_alone-succeeds =
      subst (λ x. is_ok (finish_begun x).0 ≡ true) (sym approve_cancellation_begins)
        (finish_begun-is_ok (begin_approval stripe r o seller comment intent now w)
          begin_approval-IsReady)
