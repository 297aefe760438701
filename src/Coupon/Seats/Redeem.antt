-- ===== src/Coupon/Seats/Redeem.antt =====
-- Committing and refunding move the seats of a coupon from its reservations to its redemptions, and
-- free them (backend/services/coupon/internal/app/coupon_service.go).
use ec_test.Base.{ℕ, ◌+◌, ◌≡◌, refl, sym, subst, ◌∙◌, true, none, some, List, arith}
use ec_test.Base.Int.{ℤ, pos, ltb_ℤ, eqb_ℤ}
use ec_test.Base.Tx.{pure, throw}
use ec_test.Base.Ensures.{
  Ensures, Ensures-bind, Ensures-pure, Ensures-err, Ensures-option, Ensures-if, Ensures-branch,
  Ensures-guard,
}
use ec_test.Coupon.Domain.{CouponReservation, CouponRedemption, pending, committed, is_pending}
use ec_test.Coupon.Store.{Platform, Db, find_reservation, update_status, statement_failed}
use ec_test.Coupon.Redemptions.{
  find_redemption, has_id, has_coupon_and_order, has_reservation, get_by_coupon_and_order,
  get_by_reservation_id, insert_redemption, insert_refund_event, is_duplicate_redemption,
  is_duplicate_refund_event, has_event,
}
use ec_test.Coupon.Refund.{
  commit_reservation_tx, commit_found, commit_new, return_winner, redeemed_row, committed_now,
  committed_before, refund_redemption_tx, refund_found, refund_share, refunded_before,
}
use ec_test.Coupon.Seats.{one, find-by_id}
use ec_test.Coupon.Seats.Statements.{
  IsAhead, cast, decrement-IsAhead, update_status-IsAhead, insert_redemption-IsAhead,
  apply_partial_refund-IsAhead,
}
use ec_test.Coupon.Seats.Calls.{IsSeated}
use ec_test.Coupon.Rules.{Ensures-on_failure, scan-Reads}

module _ (k : ℕ) where
  -- With no redemption for the coupon and the order there is no winner to return.
  return_winner-fails :
      (p : Platform) (r : CouponReservation) (order_id : ℕ) (db : Db) {Q : Db → Type 0}
      → find_redemption (has_coupon_and_order r.coupon_id order_id) db.redemptions ≡ none
      → Ensures (λ _ db'. Q db') (return_winner p r order_id db)
  unfolding return_winner get_by_coupon_and_order
  return_winner-fails p r order_id db e = Ensures-bind _ (scan-Reads p _ db) λ found db1 (same, _).
      Ensures-option (throw statement_failed) (λ e. pure (committed_before e)) db1 found
        (λ _. Ensures-err _) (λ x hit. let lost : none ≡ some x = sym e ∙ sym same ∙ hit in cc)

  abbrev CanCommit : ℕ → ℕ → CouponReservation → Db → Type 0
  CanCommit id order_id r db =
      (find_reservation id db.reservations ≡ some r)
      × (find_redemption (has_coupon_and_order r.coupon_id order_id) db.redemptions ≡ none)
      × IsSeated k db

  update_status-redemptions :
      (id order_id : ℕ) (r : CouponReservation) (db : Db)
      → CanCommit id order_id r db
      → is_pending r.status ≡ true
      → Ensures
          (λ changed db'.
            (find_redemption (has_coupon_and_order r.coupon_id order_id) db'.redemptions ≡ none)
            × IsAhead k (0 + one k r.coupon_id) db')
          (update_status id pending committed db)
  unfolding update_status
  update_status-redemptions id order_id r db (f, n, h) q =
      Ensures-pure _ _ (n, (update_status-IsAhead k id committed r 0 db refl f q h).holds.1)

  commit_new-IsSeated :
      (p : Platform) (id order_id redemption_id : ℕ) (r : CouponReservation) (db : Db)
      → CanCommit id order_id r db
      → Ensures (λ _ db'. IsSeated k db') (commit_new p id order_id redemption_id r db)
  unfolding commit_new
  commit_new-IsSeated p id order_id redemption_id r db h =
      Ensures-bind _ (Ensures-guard {P = CanCommit id order_id r} (is_pending r.status) _ db h)
        λ _ db1 (q, h1).
          Ensures-bind _ (update_status-redemptions id order_id r db1 h1 q) λ changed db2 h2.
            Ensures-bind _
              (Ensures-guard
                {P = λ s.
                  (find_redemption (has_coupon_and_order r.coupon_id order_id) s.redemptions ≡ none)
                  × IsAhead k (0 + one k r.coupon_id) s}
                changed _ db2 h2)
              λ _ db3 (_, (n3, h3)).
                Ensures-on_failure p is_duplicate_redemption
                  (insert_redemption (redeemed_row r id order_id redemption_id))
                  (return_winner p r order_id) (λ _. pure (committed_now redemption_id)) db3
                  (insert_redemption-IsAhead k (redeemed_row r id order_id redemption_id) 0 db3 refl
                    h3)
                  (λ _ db4 h4. Ensures-pure (committed_now redemption_id) db4 h4)
                  (return_winner-fails p r order_id db3 n3)

  commit_found-IsSeated :
      (p : Platform) (id order_id redemption_id : ℕ) (r : CouponReservation) (db : Db)
      → find_reservation id db.reservations ≡ some r
      → IsSeated k db
      → Ensures (λ _ db'. IsSeated k db') (commit_found p id order_id redemption_id r db)
  unfolding commit_found get_by_coupon_and_order
  commit_found-IsSeated p id order_id redemption_id r db f h =
      Ensures-bind _ (scan-Reads p _ db) λ existing db1 (found, same).
        Ensures-option _ _ db1 existing
          (λ missing.
            commit_new-IsSeated p id order_id redemption_id r db1
              (subst (CanCommit id order_id r) (sym same) (f, sym found ∙ missing, h)))
          (λ e _. Ensures-pure _ db1 (subst (IsSeated k) (sym same) h))

  pub commit_reservation_tx-IsSeated :
      (p : Platform) (id order_id redemption_id : ℕ) (db : Db)
      → IsSeated k db
      → Ensures (λ _ db'. IsSeated k db') (commit_reservation_tx p id order_id redemption_id db)
  unfolding commit_reservation_tx
  commit_reservation_tx-IsSeated p id order_id redemption_id db h =
      Ensures-option _ _ db (find_reservation id db.reservations) (λ _. Ensures-err _)
        (λ r f. commit_found-IsSeated p id order_id redemption_id r db f h)

  refund_share-IsSeated :
      (r : CouponRedemption) (share : ℤ) (reason now : ℕ) (db : Db)
      → find_redemption (has_id r.id) db.redemptions ≡ some r
      → IsSeated k db
      → Ensures (λ _ db'. IsSeated k db') (refund_share r share reason now db)
  unfolding refund_share
  refund_share-IsSeated r share reason now db f h =
      Ensures-bind _ (apply_partial_refund-IsAhead k r share reason now db f h) λ a db1 h1.
        Ensures-if _ _ db1 a.already_full (λ full. Ensures-pure _ db1 (cast k h1 (rw full refl)))
          (λ open_still.
            Ensures-if _ _ db1 a.fully_refunded
              (λ last.
                Ensures-bind _
                  (decrement-IsAhead k r.coupon_id 0 db1
                    (cast k h1 (rw (open_still, last) (omega arith))))
                  λ _ db2 h2. Ensures-pure _ db2 h2)
              (λ more. Ensures-pure _ db1 (cast k h1 (rw (open_still, more) refl))))

  -- The row of the event is in no other table.
  insert_refund_event-redemptions :
      (id order_id : ℕ) (share : ℤ) (db : Db) (P : Db → Type 0)
      → ((events : List (ℕ × ℕ)) → P (record db { refund_events = events }))
      → Ensures (λ _ db'. P db') (insert_refund_event id order_id share db)
  unfolding insert_refund_event
  insert_refund_event-redemptions id order_id share db P h =
      Ensures-branch (ltb_ℤ share (pos 0)) _ _ (λ _. Ensures-err _)
        (λ _.
          Ensures-branch (has_event id order_id db.refund_events) _ _ (λ _. Ensures-err _)
            (λ _. Ensures-pure _ _ (h _)))

  refund_found-IsSeated :
      (p : Platform) (order_id : ℕ) (share : ℤ) (reason now : ℕ) (r : CouponRedemption) (db : Db)
      → find_redemption (has_id r.id) db.redemptions ≡ some r
      → IsSeated k db
      → Ensures (λ _ db'. IsSeated k db') (refund_found p order_id share reason now r db)
  unfolding refund_found
  refund_found-IsSeated p order_id share reason now r db f h =
      Ensures-if _ _ db (eqb_ℤ share (pos 0)) (λ _. Ensures-pure _ db h)
        (λ _.
          Ensures-on_failure p is_duplicate_refund_event (insert_refund_event r.id order_id share)
            (pure (refunded_before r)) (λ _. refund_share r share reason now) db
            (insert_refund_event-redemptions r.id order_id share db
              (λ s. (find_redemption (has_id r.id) s.redemptions ≡ some r) × IsSeated k s)
              (λ events. (f, record { counted = h.counted; distinct = h.distinct })))
            (λ _ db1 (f1, h1). refund_share-IsSeated r share reason now db1 f1 h1)
            (Ensures-pure (refunded_before r) db h))

  pub refund_redemption_tx-IsSeated :
      (p : Platform) (reservation_id order_id : ℕ) (share : ℤ) (reason now : ℕ) (db : Db)
      → IsSeated k db
      → Ensures
          (λ _ db'. IsSeated k db')
          (refund_redemption_tx p reservation_id order_id share reason now db)
  unfolding refund_redemption_tx get_by_reservation_id
  refund_redemption_tx-IsSeated p reservation_id order_id share reason now db h =
      Ensures-bind _ (scan-Reads p _ db) λ existing db1 (found, same).
        Ensures-option _ _ db1 existing (λ _. Ensures-pure _ db1 (subst (IsSeated k) (sym same) h))
          (λ r hit.
            refund_found-IsSeated p order_id share reason now r db1
              (subst (λ s. find_redemption (has_id r.id) s.redemptions ≡ some r) (sym same)
                (find-by_id (has_reservation reservation_id) db.redemptions r h.distinct
                  (sym found ∙ hit)))
              (subst (IsSeated k) (sym same) h))
