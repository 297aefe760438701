-- ===== src/Order/Cancellation/Steps/Kept.antt =====
-- Which calls on orders and cancellation requests keep a property of the tables that the statements
-- keep (backend/services/order/internal/cancellation/service.go).
use ec_test.Base.{
  ℕ, ◌≡◌, refl, Bool, true, false, not, ◌||◌, Option, none, some, List, [], ◌∷◌, ◌==◌,
  if◌then◌else◌,
}
use ec_test.Base.Int.{ℤ}
use ec_test.Base.Tx.{Result, ok, err}
use ec_test.Base.Ensures.{Ensures}
use ec_test.Order.Cancellation.Domain.{
  Order, CancellationRequest, OrderStatus, is_terminal, can_be_cancelled, shipped, delivered,
}
use ec_test.Order.Cancellation.Store.{
  Db, Error, find_order, find_request, latest_by_order, create, new_request, reject,
  ApprovalTxInput, approve_tx, set_paid, update_status, list_by_order_id,
}
use ec_test.Order.Cancellation.Service.{
  Stripe, World, publish, with_request_of_seller, intent_of, is_target, is_shipped,
  request_cancellation, reject_cancellation, begin_approval, approve_cancellation, open_new,
  open_request, admin_force_cancel, finish_approval, update_order_status, handle_shipment,
  is_pending_exists, is_status_changed, order_shipped, reverse_payouts, refund_call,
}
use ec_test.Order.Cancellation.Steps.{
  Call, request, reject_one, approve, force, finish, pay, move, ship, step, run, writes_status,
  any_writes_status, IsClosed, IsMovable,
}

either_true : (a b : Bool) → b ≡ true → (a || b) ≡ true
either_true true b h = refl
either_true false b h = h

-- A call that leaves the property of the tables.
record Kept (P : Db → Type 0) {A : Type 0} (x : Result Error A × World) : Type 0 where
  holds : P x.1.db

module _ {P : Db → Type 0} (closed : IsClosed P) where
  stays : {A : Type 0} (a : Result Error A) (w : World) → P w.db → Kept P (a, w)
  stays a w h = record { holds = h }

  branch-Kept :
      {A : Type 0} (c : Bool) (x y : Result Error A × World)
      → Kept P x
      → Kept P y
      → Kept P (if c then x else y)
  branch-Kept true x y h k = h
  branch-Kept false x y h k = k

  option-Kept :
      {A B : Type 0} (o : Option A) (x : Result Error B × World) (k : A → Result Error B × World)
      → Kept P x
      → ((a : A) → Kept P (k a))
      → Kept P (elim o as (λ _. Result Error B × World) [ none ↦ x | some a ↦ k a ])
  option-Kept none x k h g = h
  option-Kept (some a) x k h g = g a

  -- A transaction whose success and whose failure are answered.
  result-Kept :
      {A B : Type 0} (r : Result Error (A × Db)) (k : A → Db → Result Error B × World)
      (f : Error → Result Error B × World)
      → Ensures (λ _ db'. P db') r
      → ((a : A) (db : Db) → P db → Kept P (k a db))
      → ((e : Error) → Kept P (f e))
      → Kept P (elim r as (λ _. Result Error B × World) [ ok (a, db) ↦ k a db | err e ↦ f e ])
  result-Kept (ok (a, db)) k f e g h = g a db e.holds
  result-Kept (err x) k f e g h = h x

  with_request_of_seller-Kept :
      {A : Type 0} (id seller : ℕ) (w : World)
      (k : CancellationRequest → Order → Result Error A × World)
      → P w.db
      → ((r : CancellationRequest) (o : Order) → Kept P (k r o))
      → Kept P (with_request_of_seller id seller w k)
  with_request_of_seller-Kept id seller w k h g =
      option-Kept (find_request id w.db.requests) _ _ (stays _ w h) (λ r.
        option-Kept (find_order r.order_id w.db.orders) _ _ (stays _ w h)
          (λ o. branch-Kept (not (o.seller_id == seller)) _ _ (stays _ w h) (g r o)))

  begin_approval-Kept :
      (stripe : Stripe) (r : CancellationRequest) (o : Order) (seller comment intent now : ℕ)
      (w : World)
      → P w.db
      → Kept P (begin_approval stripe r o seller comment intent now w)
  unfolding begin_approval
  begin_approval-Kept stripe r o seller comment intent now w h =
      option-Kept (stripe.create_refund intent o.total_amount r.id) _ _
        (stays _ _ (closed.failed r.id w.db h))
        (λ refund_id.
          option-Kept
            (reverse_payouts stripe r.id (list_by_order_id o.id w.db.payouts)
              (refund_call intent o.total_amount r.id ∷ w.stripe_calls)).0
            _ _ (stays _ _ (closed.failed r.id w.db h)) (λ vs. stays _ _ h))

  open_new-Kept :
      (order_id admin reason id : ℕ) (w : World)
      → P w.db
      → Kept P (open_new order_id admin reason id w)
  unfolding open_new
  open_new-Kept order_id admin reason id w h =
      result-Kept (create (new_request id order_id admin reason) w.db) _ _
        (closed.created (new_request id order_id admin reason) w.db refl h)
        (λ _ db h'. stays _ _ h')
        (λ e.
          branch-Kept (is_pending_exists e) _ _
            (option-Kept (latest_by_order order_id w.db.requests) _ _ (stays _ w h)
              (λ r. stays _ w h))
            (stays _ w h))

  open_request-Kept :
      (order_id admin reason id : ℕ) (w : World)
      → P w.db
      → Kept P (open_request order_id admin reason id w)
  unfolding open_request
  open_request-Kept order_id admin reason id w h =
      option-Kept (latest_by_order order_id w.db.requests) _ _
        (open_new-Kept order_id admin reason id w h)
        (λ r.
          branch-Kept (is_terminal r.status) _ _ (open_new-Kept order_id admin reason id w h)
            (stays _ w h))

  finish_approval-Kept :
      (i : ApprovalTxInput) (amount : ℤ) (w : World) → P w.db → Kept P (finish_approval i amount w)
  unfolding finish_approval
  finish_approval-Kept i amount w h =
      result-Kept (approve_tx i w.db) _ _ (closed.approved i w.db h) (λ _ db h'. stays _ _ h')
        (λ e.
          branch-Kept (is_status_changed e) _ _ (stays _ _ (closed.failed i.request_id w.db h))
            (stays _ w h))

  opened-Kept :
      {A B : Type 0} (x : Result Error A × World) (k : A → World → Result Error B × World)
      → Kept P x
      → ((a : A) (w : World) → P w.db → Kept P (k a w))
      → Kept P (elim x.0 as (λ _. Result Error B × World) [ err e ↦ (err e, x.1) | ok a ↦ k a x.1 ])
  opened-Kept (ok a, w) k h g = g a w h.holds
  opened-Kept (err e, w) k h g = stays _ w h.holds

  move_keeps :
      (id : ℕ) (next : OrderStatus) (w : World) {A : Type 0}
      (k : Unit {0} → Db → Result Error A × World) (f : Error → Result Error A × World)
      → IsMovable P
      → P w.db
      → ((u : Unit {0}) (db : Db) → P db → Kept P (k u db))
      → ((e : Error) → Kept P (f e))
      → Kept P (elim (update_status id next w.db) as (λ _. Result Error A × World) [
        | ok (a, db) ↦ k a db
        | err e ↦ f e
      ])
  move_keeps id next w k f m h = result-Kept (update_status id next w.db) k f (m id next w.db h)

  request-Kept :
      (order_id buyer reason id : ℕ) (w : World)
      → P w.db
      → Kept P (request_cancellation order_id buyer reason id w)
  unfolding request_cancellation
  request-Kept order_id buyer reason id w h = branch-Kept (reason == 0) _ _ (stays _ w h) (
      option-Kept (find_order order_id w.db.orders) _ _ (stays _ w h) (λ o.
        branch-Kept (not (o.buyer_auth0_id == buyer)) _ _ (stays _ w h) (
          branch-Kept (not (can_be_cancelled o.status)) _ _ (stays _ w h) (
            result-Kept (create (new_request id order_id buyer reason) w.db) _ _
              (closed.created (new_request id order_id buyer reason) w.db refl h)
              (λ _ db h'. stays _ _ h') (λ e. stays _ w h)))))

  reject-Kept :
      (request_id seller comment : ℕ) (w : World)
      → P w.db
      → Kept P (reject_cancellation request_id seller comment w)
  unfolding reject_cancellation
  reject-Kept request_id seller comment w h =
      with_request_of_seller-Kept request_id seller w _ h (λ r o.
        branch-Kept (is_terminal r.status) _ _ (stays _ w h) (
          result-Kept (reject request_id seller comment w.db) _ _
            (closed.rejected request_id seller comment w.db h) (λ _ db h'. stays _ _ h')
            (λ e. stays _ w h)))

  approve-Kept :
      (stripe : Stripe) (request_id seller comment now : ℕ) (w : World)
      → P w.db
      → Kept P (approve_cancellation stripe request_id seller comment now w)
  unfolding approve_cancellation
  approve-Kept stripe request_id seller comment now w h =
      with_request_of_seller-Kept request_id seller w _ h (λ r o.
        branch-Kept (is_terminal r.status) _ _ (stays _ w h) (
          branch-Kept (not (can_be_cancelled o.status)) _ _ (stays _ w h) (
            option-Kept (intent_of o) _ _ (stays _ w h)
              (λ intent. begin_approval-Kept stripe r o seller comment intent now w h))))

  force-Kept :
      (stripe : Stripe) (order_id admin reason comment id now : ℕ) (w : World)
      → P w.db
      → Kept P (admin_force_cancel stripe order_id admin reason comment id now w)
  unfolding admin_force_cancel
  force-Kept stripe order_id admin reason comment id now w h =
      branch-Kept (admin == 0 || reason == 0) _ _ (stays _ w h) (
        option-Kept (find_order order_id w.db.orders) _ _ (stays _ w h) (λ o.
          branch-Kept (not (can_be_cancelled o.status)) _ _ (stays _ w h) (
            option-Kept (intent_of o) _ _ (stays _ w h) (λ intent.
              opened-Kept (open_request order_id admin reason id w) _
                (open_request-Kept order_id admin reason id w h)
                (λ r w'. begin_approval-Kept stripe r o o.seller_id comment intent now w')))))

  move-Kept :
      (seller order_id : ℕ) (next : OrderStatus) (w : World)
      → IsMovable P
      → P w.db
      → Kept P (update_order_status seller order_id next w)
  unfolding update_order_status
  move-Kept seller order_id next w m h = branch-Kept (not (is_target next)) _ _ (stays _ w h) (
      option-Kept (find_order order_id w.db.orders) _ _ (stays _ w h) (λ o.
        branch-Kept (not (o.seller_id == seller)) _ _ (stays _ w h) (
          move_keeps order_id next w _ _ m h
            (λ _ db h'. shipped_keeps (is_shipped next) (record w { db = db }) h')
            (λ e. stays _ w h))))
    where
      shipped_keeps :
          (c : Bool) (w' : World)
          → P w'.db
          → Kept P (ok tt, if c then publish (order_shipped order_id) w' else w')
      shipped_keeps true w' h' = stays _ _ h'
      shipped_keeps false w' h' = stays _ _ h'

  pub step-keeps :
      (c : Call) (w : World) → (writes_status c ≡ true → IsMovable P) → P w.db → P (step w c).db
  unfolding step handle_shipment
  step-keeps (request order_id buyer reason id) w m h =
      (request-Kept order_id buyer reason id w h).holds
  step-keeps (reject_one request_id seller comment) w m h =
      (reject-Kept request_id seller comment w h).holds
  step-keeps (approve stripe request_id seller comment now) w m h =
      (approve-Kept stripe request_id seller comment now w h).holds
  step-keeps (force stripe order_id admin reason comment id now) w m h =
      (force-Kept stripe order_id admin reason comment id now w h).holds
  step-keeps (finish i amount) w m h = (finish_approval-Kept i amount w h).holds
  step-keeps (pay order_id now intent) w m h =
      (result-Kept (set_paid order_id now intent w.db) (λ u db. (ok u, record w { db = db }))
        (λ e. (err e, w)) (closed.paid order_id now intent w.db h) (λ _ db h'. stays _ _ h')
        (λ e. stays _ w h)).holds
  step-keeps (move seller order_id next) w m h = (move-Kept seller order_id next w (m refl) h).holds
  step-keeps (ship order_id is_delivered) w m h =
      (move_keeps order_id (if is_delivered then delivered else shipped) w
        (λ _ db. (ok tt, record w { db = db })) (λ e. (err e, w)) (m refl) h
        (λ _ db h'. stays _ _ h') (λ e. stays _ w h)).holds

  pub run-keeps :
      (cs : List Call) (w : World)
      → (any_writes_status cs ≡ true → IsMovable P)
      → P w.db
      → P (run w cs).db
  unfolding run any_writes_status
  run-keeps [] w m h = h
  run-keeps (c ∷ cs) w m h =
      run-keeps cs (step w c) (λ later. m (either_true (writes_status c) _ later))
        (step-keeps c w (λ here. m (rw here refl)) h)
