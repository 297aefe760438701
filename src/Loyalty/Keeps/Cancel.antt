-- ===== src/Loyalty/Keeps/Cancel.antt =====
-- Compensating a cancelled order and adjusting by hand keep the books (`ApplyCancellation`,
-- `AdjustPoints`).
use ec_test.Base.{ℕ, ◌&&◌, not}
use ec_test.Base.Int.{pos, ltb_ℤ, ◌+ℤ◌, neg_ℤ}
use ec_test.Loyalty.Domain.{refund, reverse_earn, order_cancelled, spendable}
use ec_test.Loyalty.Store.{Db, no_delta, find_key, insufficient_points}
use ec_test.Loyalty.Cancel.{
  CancelPointsInput, Running, AdjustPointsInput, refund_row, reversal_row, adjust_row, capped,
  refund_points, reverse_points, apply_cancellation_tx, adjust_points_tx,
}
use ec_test.Base.Ensures.{
  Ensures, Ensures-bind, Ensures-pure, Ensures-option, Ensures-if, Ensures-guard,
}
use ec_test.Loyalty.Invariant.{
  share_laws, ensure_exists-IsAhead, lock_for_update-IsAhead, apply_delta-IsAhead,
  insert_transaction-IsAhead,
}
use ec_test.Loyalty.Keeps.{IsConsistent, settle}

module _ (b : ℕ) where
  refund_points-IsConsistent :
      (i : CancelPointsInput) (id : ℕ) (s : Running) (db : Db)
      → IsConsistent b db
      → Ensures (λ _ db'. IsConsistent b db') (refund_points i id s db)
  unfolding refund_points
  refund_points-IsConsistent i id s db h =
      Ensures-if _ _ db (ltb_ℤ (pos 0) i.point_discount_amount)
        (λ _.
          Ensures-option _ _ db (find_key order_cancelled i.order_id refund db.transactions)
            (λ _.
              Ensures-bind _
                (apply_delta-IsAhead b i.buyer_auth0_id
                  (record no_delta { balance_delta = i.point_discount_amount }) s.version _ _ db h)
                (λ _ db1 h1.
                  Ensures-bind _
                    (insert_transaction-IsAhead b (refund_row i id s.running) _ _ db1 h1)
                    (λ _ db2 h2. settle h2 (omega share_laws) (omega share_laws))))
            (λ _ _. Ensures-pure _ db h))
        (λ _. Ensures-pure _ db h)

  reverse_points-IsConsistent :
      (i : CancelPointsInput) (id : ℕ) (s : Running) (db : Db)
      → IsConsistent b db
      → Ensures (λ _ db'. IsConsistent b db') (reverse_points i id s db)
  unfolding reverse_points
  reverse_points-IsConsistent i id s db h =
      let reversal = capped i.points_earned s.running in
      Ensures-if _ _ db (ltb_ℤ (pos 0) i.points_earned)
        (λ _.
          Ensures-option _ _ db (find_key order_cancelled i.order_id reverse_earn db.transactions)
            (λ _.
              Ensures-if _ _ db (ltb_ℤ (pos 0) reversal)
                (λ _.
                  Ensures-bind _
                    (apply_delta-IsAhead b i.buyer_auth0_id
                      (record no_delta {
                        balance_delta = neg_ℤ reversal;
                        lifetime_earned_delta = neg_ℤ reversal;
                      })
                      s.version _ _ db h)
                    (λ _ db1 h1.
                      Ensures-bind _
                        (insert_transaction-IsAhead b (reversal_row i id s.running reversal) _ _ db1
                          h1)
                        (λ _ db2 h2. settle h2 (omega share_laws) (omega share_laws))))
                (λ _. Ensures-pure _ db h))
            (λ _ _. Ensures-pure _ db h))
        (λ _. Ensures-pure _ db h)

  pub apply_cancellation_tx-IsConsistent :
      (i : CancelPointsInput) (refund_id reversal_id : ℕ) (db : Db)
      → IsConsistent b db
      → Ensures (λ _ db'. IsConsistent b db') (apply_cancellation_tx i refund_id reversal_id db)
  unfolding apply_cancellation_tx
  apply_cancellation_tx-IsConsistent i refund_id reversal_id db h =
      Ensures-bind _ (lock_for_update-IsAhead b i.buyer_auth0_id _ _ db h) λ acct db1 (_, h1).
        Ensures-bind _ (refund_points-IsConsistent i refund_id _ db1 h1) λ s db2 h2.
          Ensures-bind _
            (reverse_points-IsConsistent i reversal_id (record s { moved = pos 0 }) db2 h2)
            λ _ db3 h3. Ensures-pure _ db3 h3

  pub adjust_points_tx-IsConsistent :
      (i : AdjustPointsInput) (id : ℕ) (db : Db)
      → IsConsistent b db
      → Ensures (λ _ db'. IsConsistent b db') (adjust_points_tx i id db)
  unfolding adjust_points_tx
  adjust_points_tx-IsConsistent i id db h =
      Ensures-bind _ (ensure_exists-IsAhead b i.buyer_auth0_id _ _ db h) λ _ db0 h0.
        Ensures-bind _ (lock_for_update-IsAhead b i.buyer_auth0_id _ _ db0 h0) λ acct db1 (_, h1).
          Ensures-bind _
            (Ensures-guard
              (not (ltb_ℤ i.amount (pos 0) && ltb_ℤ (spendable acct +ℤ i.amount) (pos 0)))
              insufficient_points db1 h1)
            λ _ db2 (_, h2).
              Ensures-bind _
                (apply_delta-IsAhead b i.buyer_auth0_id
                  (record no_delta { balance_delta = i.amount }) acct.version (pos 0) (pos 0) db2
                  h2)
                λ _ db3 h3.
                  Ensures-bind _
                    (insert_transaction-IsAhead b (adjust_row i id acct.balance) _ _ db3 h3)
                    λ _ db4 h4. settle h4 (omega share_laws) (omega share_laws)
