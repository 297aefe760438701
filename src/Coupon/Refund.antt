-- ===== src/Coupon/Refund.antt =====
-- Committing a reservation and refunding a redemption: `CommitReservation` and `RefundRedemption`
-- of backend/services/coupon/internal/app/coupon_service.go, and the subscriber of cancelled orders
-- (internal/adapter/pubsub/order_subscriber.go), after it has decoded the payload.
use ec_test.Base.{ℕ, Bool, true, false, none, some, ◌==◌, if◌then◌else◌}
use ec_test.Base.Int.{ℤ, pos, ltb_ℤ, eqb_ℤ}
use ec_test.Base.Tx.{Result, ok, err, pure, throw, guard, run_tx, ◌>>=◌, ◌>>◌}
use ec_test.Coupon.Domain.{pending, committed, CouponReservation, CouponRedemption, is_pending}
use ec_test.Coupon.Store.{
  Platform, Db, M, Error, bad_request, internal, reservation_not_found,
  reservation_already_terminal, statement_failed, decrement_usage, get_reservation_by_id,
  update_status,
}
use ec_test.Coupon.Redemptions.{
  on_failure, is_duplicate_redemption, is_duplicate_refund_event, get_by_coupon_and_order,
  get_by_reservation_id, insert_redemption, insert_refund_event, apply_partial_refund,
}
use ec_test.Coupon.Reserve.{map_domain_error, reply_of}

pub record CommitResult : Type 0 where
  pub redemption_id : ℕ
  pub already_committed : Bool

abbrev pub redeemed_row : CouponReservation → ℕ → ℕ → ℕ → CouponRedemption
redeemed_row r reservation_id order_id redemption_id = record {
  id = redemption_id;
  coupon_id = r.coupon_id;
  buyer_auth0_id = r.buyer_auth0_id;
  order_id = order_id;
  discount_applied = r.discount_amount;
  refunded_amount = pos 0;
  reservation_id = reservation_id;
  refunded_at = none;
  refunded_reason = none;
}

abbrev pub committed_before : CouponRedemption → CommitResult
committed_before existing = record { redemption_id = existing.id; already_committed = true }

abbrev pub committed_now : ℕ → CommitResult
committed_now redemption_id = record { redemption_id = redemption_id; already_committed = false }

-- Another commit came between the check and the insert.
unfoldable pub return_winner : Platform → CouponReservation → ℕ → M CommitResult
return_winner p r order_id = do
  existing ← get_by_coupon_and_order p r.coupon_id order_id
  elim existing [ none ↦ throw statement_failed | some e ↦ pure (committed_before e) ]

-- No redemption is there yet.
unfoldable pub commit_new : Platform → ℕ → ℕ → ℕ → CouponReservation → M CommitResult
unfolding return_winner
commit_new p reservation_id order_id redemption_id r = do
  guard (is_pending r.status) reservation_already_terminal
  changed ← update_status reservation_id pending committed
  guard changed reservation_already_terminal
  on_failure p is_duplicate_redemption
      (insert_redemption (redeemed_row r reservation_id order_id redemption_id))
      (return_winner p r order_id) (λ _. pure (committed_now redemption_id))

unfoldable pub commit_found : Platform → ℕ → ℕ → ℕ → CouponReservation → M CommitResult
unfolding commit_new
commit_found p reservation_id order_id redemption_id r = do
  existing ← get_by_coupon_and_order p r.coupon_id order_id
  elim existing [
    | some e ↦ pure (committed_before e)
    | none ↦ commit_new p reservation_id order_id redemption_id r
  ]

unfoldable pub commit_reservation_tx : Platform → ℕ → ℕ → ℕ → M CommitResult
unfolding commit_found
commit_reservation_tx p reservation_id order_id redemption_id = do
  found ← get_reservation_by_id reservation_id
  elim found [
    | none ↦ throw reservation_not_found
    | some r ↦ commit_found p reservation_id order_id redemption_id r
  ]

-- `Service.CommitReservation`. The event `coupon.redeemed` carries the result, and is published
-- exactly if `already_committed` is false.
unfoldable pub commit_reservation : Platform → ℕ → ℕ → ℕ → Db → Result Error CommitResult × Db
unfolding commit_reservation_tx
commit_reservation p reservation_id order_id redemption_id db =
    reply_of map_domain_error
      (run_tx (commit_reservation_tx p reservation_id order_id redemption_id) db)

pub record RefundResult : Type 0 where
  pub redemption_id : ℕ
  pub applied_amount : ℤ
  pub fully_refunded : Bool
  pub already_refunded : Bool
  pub skipped : Bool

abbrev pub nothing_refunded : RefundResult
nothing_refunded = record {
  redemption_id = 0;
  applied_amount = pos 0;
  fully_refunded = false;
  already_refunded = false;
  skipped = false;
}

abbrev pub refunded_before : CouponRedemption → RefundResult
refunded_before r = record nothing_refunded { redemption_id = r.id; already_refunded = true }

-- The part of `RefundRedemption` after the event row.
unfoldable pub refund_share : CouponRedemption → ℤ → ℕ → ℕ → M RefundResult
refund_share r share reason now = do
  a ← apply_partial_refund r.id share reason now
  if a.already_full
      then pure (refunded_before r)
      else if a.fully_refunded
      then (do
        decrement_usage r.coupon_id
        pure (record nothing_refunded {
          redemption_id = r.id;
          applied_amount = a.applied;
          fully_refunded = true;
        }))
      else pure (record nothing_refunded { redemption_id = r.id; applied_amount = a.applied })

unfoldable pub refund_found : Platform → ℕ → ℤ → ℕ → ℕ → CouponRedemption → M RefundResult
unfolding refund_share
refund_found p order_id share reason now r =
    if eqb_ℤ share (pos 0)
    then pure (record nothing_refunded { redemption_id = r.id })
    else on_failure p is_duplicate_refund_event (insert_refund_event r.id order_id share)
        (pure (refunded_before r)) (λ _. refund_share r share reason now)

unfoldable pub refund_redemption_tx : Platform → ℕ → ℕ → ℤ → ℕ → ℕ → M RefundResult
unfolding refund_found
refund_redemption_tx p reservation_id order_id share reason now = do
  found ← get_by_reservation_id p reservation_id
  elim found [
    | none ↦ pure (record nothing_refunded { skipped = true })
    | some r ↦ refund_found p order_id share reason now r
  ]

abbrev pub all_internal : Error → Error
all_internal e = internal

-- `Service.RefundRedemption`
unfoldable pub refund_redemption :
    Platform → ℕ → ℕ → ℤ → ℕ → ℕ → Db → Result Error RefundResult × Db
unfolding refund_redemption_tx
refund_redemption p reservation_id order_id share reason now db =
    if reservation_id == 0
    then (ok (record nothing_refunded { skipped = true }), db)
    else if order_id == 0
    then (err bad_request, db)
    else if ltb_ℤ share (pos 0)
    then (err bad_request, db)
    else reply_of all_internal
        (run_tx (refund_redemption_tx p reservation_id order_id share reason now) db)
