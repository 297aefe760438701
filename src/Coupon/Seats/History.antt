-- ===== src/Coupon/Seats/History.antt =====
-- Any calls of the coupon service, one after another
-- (backend/services/coupon/internal/app/coupon_service.go).
use ec_test.Base.{ℕ, ◌≡◌, refl, ◌∙◌, List, [], ◌∷◌, ◌==◌, arith}
use ec_test.Base.Int.{ℤ, pos, ltb_ℤ}
use ec_test.Base.Ensures.{Ensures-bind, Ensures-pure, run_tx-keeps}
use ec_test.Coupon.Domain.{SellerSubtotal, is_fixed, is_revoked}
use ec_test.Coupon.Store.{Platform, Db, find_coupon}
use ec_test.Coupon.Reserve.{reserve_coupon, release_reservation, expire_stale_reservations}
use ec_test.Coupon.Refund.{commit_reservation, refund_redemption}
use ec_test.Coupon.Admin.{
  count_pending_by_coupon, CreateCouponInput, UpdateCouponInput, create_coupon, update_coupon,
  revoke_coupon, new_coupon, patched, validate_create_input, validate_update_input,
}
use ec_test.Coupon.Rules.{reply_of-keeps, branch-keeps, found_or_not-keeps}
use ec_test.Coupon.Seats.{usage, seats, live_redemptions}
use ec_test.Coupon.Seats.Statements.{insert_coupon-IsAhead, change_coupon-IsAhead}
use ec_test.Coupon.Seats.Calls.{
  IsSeated, reserve_coupon_tx-IsSeated, release_reservation_tx-IsSeated, expire_stale_tx-IsSeated,
}
use ec_test.Coupon.Seats.Redeem.{commit_reservation_tx-IsSeated, refund_redemption_tx-IsSeated}

-- One call, with the ids that the service makes, the time, and the rows that the database picks.
pub data Call : Type 0 where
  create : (i : CreateCouponInput) (id now : ℕ) → Call
  update : (id : ℕ) (i : UpdateCouponInput) → Call
  revoke : (id : ℕ) → Call
  reserve : (code buyer : ℕ) (subtotals : List SellerSubtotal) (currency id now : ℕ) → Call
  commit : (reservation_id order_id redemption_id : ℕ) → Call
  release : (reservation_id : ℕ) → Call
  refund : (reservation_id order_id : ℕ) (share : ℤ) (reason now : ℕ) → Call
  expire : (now : ℕ) (chosen : List ℕ) → Call

abbrev pub empty_db : Db
empty_db = record { coupons = []; reservations = []; redemptions = []; refund_events = [] }

module _ (p : Platform) (ttl : ℕ) where
  -- The tables after a call.
  unfoldable pub step : Db → Call → Db
  unfolding create_coupon update_coupon revoke_coupon reserve_coupon commit_reservation
      release_reservation refund_redemption expire_stale_reservations
  step db (create i id now) = (create_coupon p i id now db).1
  step db (update id i) = (update_coupon p id i db).1
  step db (revoke id) = (revoke_coupon id db).1
  step db (reserve code buyer subtotals currency id now) =
      (reserve_coupon p ttl code buyer subtotals currency id now db).1
  step db (commit reservation_id order_id redemption_id) =
      (commit_reservation p reservation_id order_id redemption_id db).1
  step db (release reservation_id) = (release_reservation reservation_id db).1
  step db (refund reservation_id order_id share reason now) =
      (refund_redemption p reservation_id order_id share reason now db).1
  step db (expire now chosen) = (expire_stale_reservations now chosen db).1

  unfoldable pub run : Db → List Call → Db
  unfolding step
  run db [] = db
  run db (c ∷ cs) = run (step db c) cs

  module _ (k : ℕ) where
    step-IsSeated : (c : Call) (db : Db) → IsSeated k db → IsSeated k (step db c)
    unfolding step create_coupon update_coupon revoke_coupon reserve_coupon commit_reservation
        release_reservation refund_redemption expire_stale_reservations
    step-IsSeated (create i id now) db h =
        branch-keeps (IsSeated k) (validate_create_input p i) _ _
          (λ _. reply_of-keeps (IsSeated k) _ _ (
            run_tx-keeps (IsSeated k) db _ h (
              Ensures-bind _ (insert_coupon-IsAhead k p (new_coupon p i id now) db h)
                (λ _ db1 h1. Ensures-pure (new_coupon p i id now) db1 h1))))
          (λ _. h)
    step-IsSeated (update id i) db h =
        branch-keeps (IsSeated k) (validate_update_input p i) _ _
          (λ _. found_or_not-keeps (IsSeated k) (find_coupon id db.coupons) _ db h (λ c.
            change_coupon-IsAhead k id (patched i (is_fixed c.discount_type)) db (λ _. refl)
              (λ _. refl) h))
          (λ _. h)
    step-IsSeated (revoke id) db h =
        found_or_not-keeps (IsSeated k) (find_coupon id db.coupons) _ db h (λ c.
          branch-keeps (IsSeated k) (is_revoked c.status) _ _ (λ _. h)
            (λ _. change_coupon-IsAhead k id _ db (λ _. refl) (λ _. refl) h))
    step-IsSeated (reserve code buyer subtotals currency id now) db h =
        reply_of-keeps (IsSeated k) _ _ (
          run_tx-keeps (IsSeated k) db _ h
            (reserve_coupon_tx-IsSeated k p ttl code buyer subtotals currency id now db h))
    step-IsSeated (commit reservation_id order_id redemption_id) db h =
        reply_of-keeps (IsSeated k) _ _ (
          run_tx-keeps (IsSeated k) db _ h
            (commit_reservation_tx-IsSeated k p reservation_id order_id redemption_id db h))
    step-IsSeated (release reservation_id) db h =
        reply_of-keeps (IsSeated k) _ _
          (run_tx-keeps (IsSeated k) db _ h (release_reservation_tx-IsSeated k reservation_id db h))
    step-IsSeated (refund reservation_id order_id share reason now) db h =
        branch-keeps (IsSeated k) (reservation_id == 0) _ _ (λ _. h)
          (λ _.
            branch-keeps (IsSeated k) (order_id == 0) _ _ (λ _. h)
              (λ _.
                branch-keeps (IsSeated k) (ltb_ℤ share (pos 0)) _ _ (λ _. h)
                  (λ _. reply_of-keeps (IsSeated k) _ _ (
                    run_tx-keeps (IsSeated k) db _ h (
                      refund_redemption_tx-IsSeated k p reservation_id order_id share reason now db
                        h)))))
    step-IsSeated (expire now chosen) db h =
        run_tx-keeps (IsSeated k) db _ h (expire_stale_tx-IsSeated k now chosen db h)

    run-IsSeated : (cs : List Call) (db : Db) → IsSeated k db → IsSeated k (run db cs)
    unfolding run
    run-IsSeated [] db h = h
    run-IsSeated (c ∷ cs) db h = run-IsSeated cs (step db c) (step-IsSeated c db h)

    empty-IsSeated : IsSeated k empty_db
    unfolding usage live_redemptions count_pending_by_coupon
    empty-IsSeated = record { counted = refl; distinct = tt }

    -- After any calls on empty tables, failed ones among them, the usage count of each coupon is the
    -- number of its pending reservations and its redemptions that are not refunded in full.
    pub usage-run : (cs : List Call) → usage k (run empty_db cs).coupons ≡ seats k (run empty_db cs)
    usage-run cs = (run-IsSeated cs empty_db empty-IsSeated).counted ∙ omega arith
