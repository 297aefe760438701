-- ===== src/Coupon/Unread.antt =====
-- Refunds with a driver that does not read NULL into a string: over any calls, no redemption is
-- refunded (backend/services/coupon/internal/app/coupon_service.go,
-- adapter/postgres/redemption_repo.go).
use ec_test.Base.{
  ℕ, ◌≡◌, refl, sym, subst, ◌∙◌, false, Option, none, some, List, [], ◌∷◌, ◌==◌, ◌||◌,
}
use ec_test.Base.Int.{ℤ, pos, ltb_ℤ}
use ec_test.Base.Tx.{pure, throw}
use ec_test.Base.Ensures.{
  Ensures, Ensures-bind, Ensures-pure, Ensures-err, Ensures-option, Ensures-branch, Ensures-guard,
  run_tx-keeps,
}
use ec_test.Coupon.Domain.{
  CouponReservation, CouponRedemption, pending, committed, is_pending, is_revoked,
}
use ec_test.Coupon.Store.{Platform, Db, find_coupon, find_reservation, is_some, statement_failed}
use ec_test.Coupon.Redemptions.{
  find_redemption, has_id, has_coupon_and_order, has_reservation, get_by_coupon_and_order,
  get_by_reservation_id, insert_redemption, is_duplicate_redemption, scan,
}
use ec_test.Coupon.Reserve.{reserve_coupon, release_reservation, expire_stale_reservations}
use ec_test.Coupon.Refund.{
  commit_reservation, refund_redemption, commit_reservation_tx, commit_found, commit_new,
  return_winner, redeemed_row, committed_now, committed_before, refund_redemption_tx,
}
use ec_test.Coupon.Admin.{
  create_coupon, update_coupon, revoke_coupon, new_coupon, validate_create_input,
  validate_update_input,
}
use ec_test.Coupon.Rules.{
  Ensures-on_failure, scan-Reads, reply_of-keeps, branch-keeps, found_or_not-keeps,
}
use ec_test.Coupon.Seats.History.{
  Call, create, update, revoke, reserve, commit, release, refund, expire, empty_db, step, run,
}
use ec_test.Coupon.Unrefunded.{
  IsUnrefunded, find-unrefunded, update_status-keeps, expire_stale_tx-keeps,
  release_reservation_tx-keeps, reserve_coupon_tx-keeps, insert_coupon-keeps,
}

-- Commits and refunds.
insert_redemption-keeps :
    (r : CouponReservation) (id order_id redemption_id : ℕ) (db : Db)
    → IsUnrefunded db
    → Ensures
        (λ _ db'. IsUnrefunded db')
        (insert_redemption (redeemed_row r id order_id redemption_id) db)
unfolding insert_redemption
insert_redemption-keeps r id order_id redemption_id db h =
    Ensures-branch
      (is_some (find_redemption (has_coupon_and_order r.coupon_id order_id) db.redemptions)
        || is_some (find_redemption (has_id redemption_id) db.redemptions))
      _ _ (λ _. Ensures-err _) (λ _. Ensures-pure _ _ ((refl, refl, h.0), h.1))

return_winner-keeps :
    (p : Platform) (r : CouponReservation) (order_id : ℕ) (db : Db)
    → IsUnrefunded db
    → Ensures (λ _ db'. IsUnrefunded db') (return_winner p r order_id db)
unfolding return_winner get_by_coupon_and_order
return_winner-keeps p r order_id db h =
    Ensures-bind _
      (scan-Reads p (find_redemption (has_coupon_and_order r.coupon_id order_id) db.redemptions) db)
      λ found db1 (_, same).
        Ensures-option (throw statement_failed) (λ e. pure (committed_before e)) db1 found
          (λ _. Ensures-err _) (λ x _. Ensures-pure _ db1 (subst IsUnrefunded (sym same) h))

commit_new-keeps :
    (p : Platform) (id order_id redemption_id : ℕ) (r : CouponReservation) (db : Db)
    → IsUnrefunded db
    → Ensures (λ _ db'. IsUnrefunded db') (commit_new p id order_id redemption_id r db)
unfolding commit_new
commit_new-keeps p id order_id redemption_id r db h =
    Ensures-bind _ (Ensures-guard {P = IsUnrefunded} (is_pending r.status) _ db h) λ _ db1 (_, h1).
      Ensures-bind _ (update_status-keeps id pending committed db1 h1) λ changed db2 h2.
        Ensures-bind _ (Ensures-guard {P = IsUnrefunded} changed _ db2 h2) λ _ db3 (_, h3).
          Ensures-on_failure p is_duplicate_redemption
            (insert_redemption (redeemed_row r id order_id redemption_id))
            (return_winner p r order_id) (λ _. pure (committed_now redemption_id)) db3
            (insert_redemption-keeps r id order_id redemption_id db3 h3)
            (λ _ db4 h4. Ensures-pure (committed_now redemption_id) db4 h4)
            (return_winner-keeps p r order_id db3 h3)

commit_found-keeps :
    (p : Platform) (id order_id redemption_id : ℕ) (r : CouponReservation) (db : Db)
    → IsUnrefunded db
    → Ensures (λ _ db'. IsUnrefunded db') (commit_found p id order_id redemption_id r db)
unfolding commit_found get_by_coupon_and_order
commit_found-keeps p id order_id redemption_id r db h =
    Ensures-bind _
      (scan-Reads p (find_redemption (has_coupon_and_order r.coupon_id order_id) db.redemptions) db)
      λ existing db1 (_, same).
        Ensures-option _ _ db1 existing
          (λ _.
            commit_new-keeps p id order_id redemption_id r db1 (subst IsUnrefunded (sym same) h))
          (λ e _. Ensures-pure _ db1 (subst IsUnrefunded (sym same) h))

commit_reservation_tx-keeps :
    (p : Platform) (id order_id redemption_id : ℕ) (db : Db)
    → IsUnrefunded db
    → Ensures (λ _ db'. IsUnrefunded db') (commit_reservation_tx p id order_id redemption_id db)
unfolding commit_reservation_tx
commit_reservation_tx-keeps p id order_id redemption_id db h =
    Ensures-option _ _ db (find_reservation id db.reservations) (λ _. Ensures-err _)
      (λ r _. commit_found-keeps p id order_id redemption_id r db h)

-- A row without a reason cannot be read.
scan-unread :
    (p : Platform) (o : Option CouponRedemption) (db : Db)
    → p.scans_null ≡ false
    → ((r : CouponRedemption) → o ≡ some r → is_some r.refunded_reason ≡ false)
    → Ensures (λ found db'. (found ≡ none) × (db' ≡ db)) (scan p o db)
scan-unread p none db e h = Ensures-pure none db (refl, refl)
scan-unread p (some r) db e h = rw (e, h r refl) (Ensures-err _)

refund_redemption_tx-keeps :
    (p : Platform) (reservation_id order_id : ℕ) (share : ℤ) (reason now : ℕ) (db : Db)
    → p.scans_null ≡ false
    → IsUnrefunded db
    → Ensures
        (λ _ db'. IsUnrefunded db')
        (refund_redemption_tx p reservation_id order_id share reason now db)
unfolding refund_redemption_tx get_by_reservation_id
refund_redemption_tx-keeps p reservation_id order_id share reason now db e h =
    Ensures-bind _
      (scan-unread p (find_redemption (has_reservation reservation_id) db.redemptions) db e
        (λ r f. find-unrefunded (has_reservation reservation_id) db.redemptions r h.0 f))
      λ existing db1 (missing, same).
        Ensures-option _ _ db1 existing (λ _. Ensures-pure _ db1 (subst IsUnrefunded (sym same) h))
          (λ r hit. let lost : none ≡ some r = sym missing ∙ hit in cc)

module _ (p : Platform) (ttl : ℕ) (null : p.scans_null ≡ false) where
  step-keeps : (c : Call) (db : Db) → IsUnrefunded db → IsUnrefunded (step p ttl db c)
  unfolding step create_coupon update_coupon revoke_coupon reserve_coupon commit_reservation
      release_reservation refund_redemption expire_stale_reservations
  step-keeps (create i id now) db h =
      branch-keeps IsUnrefunded (validate_create_input p i) _ _
        (λ _. reply_of-keeps IsUnrefunded _ _ (
          run_tx-keeps IsUnrefunded db _ h (
            Ensures-bind _ (insert_coupon-keeps p i id now db h)
              (λ _ db1 h1. Ensures-pure (new_coupon p i id now) db1 h1))))
        (λ _. h)
  step-keeps (update id i) db h =
      branch-keeps IsUnrefunded (validate_update_input p i) _ _
        (λ _. found_or_not-keeps IsUnrefunded (find_coupon id db.coupons) _ db h (λ c. h)) (λ _. h)
  step-keeps (revoke id) db h =
      found_or_not-keeps IsUnrefunded (find_coupon id db.coupons) _ db h
        (λ c. branch-keeps IsUnrefunded (is_revoked c.status) _ _ (λ _. h) (λ _. h))
  step-keeps (reserve code buyer subtotals currency id now) db h = reply_of-keeps IsUnrefunded _ _ (
      run_tx-keeps IsUnrefunded db _ h
        (reserve_coupon_tx-keeps p ttl code buyer subtotals currency id now db h))
  step-keeps (commit reservation_id order_id redemption_id) db h = reply_of-keeps IsUnrefunded _ _ (
      run_tx-keeps IsUnrefunded db _ h
        (commit_reservation_tx-keeps p reservation_id order_id redemption_id db h))
  step-keeps (release reservation_id) db h =
      reply_of-keeps IsUnrefunded _ _
        (run_tx-keeps IsUnrefunded db _ h (release_reservation_tx-keeps reservation_id db h))
  step-keeps (refund reservation_id order_id share reason now) db h =
      branch-keeps IsUnrefunded (reservation_id == 0) _ _ (λ _. h)
        (λ _.
          branch-keeps IsUnrefunded (order_id == 0) _ _ (λ _. h)
            (λ _.
              branch-keeps IsUnrefunded (ltb_ℤ share (pos 0)) _ _ (λ _. h)
                (λ _. reply_of-keeps IsUnrefunded _ _ (
                  run_tx-keeps IsUnrefunded db _ h (
                    refund_redemption_tx-keeps p reservation_id order_id share reason now db null
                      h)))))
  step-keeps (expire now chosen) db h =
      run_tx-keeps IsUnrefunded db _ h (expire_stale_tx-keeps now chosen db h)

  run-keeps : (cs : List Call) (db : Db) → IsUnrefunded db → IsUnrefunded (run p ttl db cs)
  unfolding run
  run-keeps [] db h = h
  run-keeps (c ∷ cs) db h = run-keeps cs (step p ttl db c) (step-keeps c db h)

  -- If the driver does not read NULL into a string, then after any calls on empty tables, refunds
  -- among them, no redemption has a refunded amount or a reason, and there is no refund event.
  pub run-IsUnrefunded : (cs : List Call) → IsUnrefunded (run p ttl empty_db cs)
  run-IsUnrefunded cs = run-keeps cs empty_db (tt, refl)
