-- ===== src/Order/Cancellation/Writes.antt =====
-- The tables after each statement on orders and cancellation requests
-- (backend/services/order/internal/cancellation/repository.go).
use ec_test.Base.{ℕ, ◌≡◌, refl, true, false, Option, none, some, List, ◌∷◌}
use ec_test.Base.Tx.{Result}
use ec_test.Base.Ensures.{Ensures, Ensures-branch, Ensures-case, Ensures-pure, Ensures-err}
use ec_test.Order.Cancellation.Domain.{
  Order, Payout, CancellationRequest, OrderStatus, is_pending_order,
}
use ec_test.Order.Cancellation.Store.{
  Db, Error, find_order, find_request, has_pending, create, update_pending, pending_row,
  rejected_by, reject, fail_row, mark_failed, ApprovalTxInput, approved_by, approve_tx,
  update_order, cancelled_by, cancellable_row, mark_reversed, set_paid, paid_with, update_status,
  is_some,
}

not_some : {A : Type 0} (o : Option A) → is_some o ≡ false → o ≡ none
not_some none h = refl
not_some (some a) h = cc

-- The tables after a statement that does not fail.
abbrev pub Writes : (Db → Type 0) → {A : Type 0} → Result Error (A × Db) → Type 0
Writes P r = Ensures (λ _ db'. P db') r

pub reject-Writes :
    (P : Db → Type 0) (id seller comment : ℕ) (db : Db)
    → P (record db { requests = update_pending id (rejected_by seller comment) db.requests })
    → Writes P (reject id seller comment db)
unfolding reject
reject-Writes P id seller comment db h =
    Ensures-case (pending_row (find_request id db.requests)) _ _ (λ _. Ensures-err _)
      (λ r _. Ensures-pure _ _ h)

-- The orders and requests after an approval, whatever the payouts.
pub approve_tx-Writes :
    (P : Db → Type 0) (i : ApprovalTxInput) (db : Db)
    → ((ps : List Payout)
        → P (record {
          requests = update_pending i.request_id (approved_by i) db.requests;
          orders = update_order i.order_id (cancelled_by i) db.orders;
          payouts = ps;
        }))
    → Writes P (approve_tx i db)
unfolding approve_tx
approve_tx-Writes P i db h =
    Ensures-case (pending_row (find_request i.request_id db.requests)) _ _ (λ _. Ensures-err _)
      (λ r _.
        Ensures-case (cancellable_row (find_order i.order_id db.orders)) _ _ (λ _. Ensures-err _)
          (λ o _.
            Ensures-case (mark_reversed i.processed_at i.reversed_payouts db.payouts) _ _
              (λ _. Ensures-err _) (λ ps _. Ensures-pure _ _ (h ps))))

-- Payment sets the status of a pending order.
pub set_paid-Writes :
    (P : Db → Type 0) (id now intent : ℕ) (db : Db)
    → ((o : Order)
        → find_order id db.orders ≡ some o
        → is_pending_order o.status ≡ true
        → P (record db { orders = update_order id (paid_with now intent) db.orders }))
    → Writes P (set_paid id now intent db)
unfolding set_paid
set_paid-Writes P id now intent db h =
    Ensures-case (find_order id db.orders) _ _ (λ _. Ensures-err _)
      (λ o f.
        Ensures-branch (is_pending_order o.status) _ _ (λ p. Ensures-pure _ _ (h o f p))
          (λ _. Ensures-err _))

pub update_status-Writes :
    (P : Db → Type 0) (id : ℕ) (next : OrderStatus) (db : Db)
    → P (record db { orders = update_order id (λ o. record o { status = next }) db.orders })
    → Writes P (update_status id next db)
unfolding update_status
update_status-Writes P id next db h =
    Ensures-case (find_order id db.orders) _ _ (λ _. Ensures-err _) (λ o _. Ensures-pure _ _ h)

-- A new request has a new id, and there is no other pending one of its order.
pub create-Writes :
    (P : Db → Type 0) (r : CancellationRequest) (db : Db)
    → (find_request r.id db.requests ≡ none
        → has_pending r.order_id db.requests ≡ false
        → P (record db { requests = r ∷ db.requests }))
    → Writes P (create r db)
unfolding create
create-Writes P r db h =
    Ensures-branch (is_some (find_request r.id db.requests)) _ _ (λ _. Ensures-err _)
      (λ new.
        Ensures-branch (has_pending r.order_id db.requests) _ _ (λ _. Ensures-err _)
          (λ free. Ensures-pure _ _ (h (not_some _ new) free)))

pub failed-Writes :
    (P : Db → Type 0) (id : ℕ) (db : Db)
    → P (record db { requests = update_pending id fail_row db.requests })
    → P (mark_failed id db)
unfolding mark_failed
failed-Writes P id db h = h
