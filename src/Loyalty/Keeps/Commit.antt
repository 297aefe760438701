-- ===== src/Loyalty/Keeps/Commit.antt =====
-- Committing a reservation keeps the books (`CommitPointsReservation`).
use ec_test.Base.{ℕ, ◌+◌, ◌≡◌, refl, ◌∙◌, ap, some}
use ec_test.Base.Int.{◌+ℤ◌, ℤ, pos, ◌-ℤ◌, ltb_ℤ, neg_ℤ}
use ec_test.Loyalty.Domain.{
  Config, Account, Transaction, Reservation, earn, redeem, order_paid, reservation_commit,
  committed, is_pending,
}
use ec_test.Loyalty.Store.{Db, no_delta, find_reservation, find_key, reservation_already_terminal}
use ec_test.Loyalty.Commit.{accrue, burn, commit_found, commit_points_tx, redeem_row, replay_commit}
use ec_test.Base.Ensures.{
  Ensures, Ensures-bind, Ensures-pure, Ensures-option, Ensures-if, Ensures-guard,
}
use ec_test.Loyalty.Invariant.{
  share, share_laws, lock_for_update-IsAhead, apply_delta-IsAhead, insert_transaction-IsAhead,
  update_status-IsAhead,
}
use ec_test.Loyalty.Keeps.{IsConsistent, settle, credit_earn-IsConsistent}

module _ (b : ℕ) where
  accrue-IsConsistent :
      (c : Config) (r : Reservation) (order_id : ℕ) (earn_amount : ℤ) (earn_id now : ℕ)
      (burn_balance : ℤ) (version : ℕ) (row : Transaction) (db : Db)
      → IsConsistent b db
      → Ensures
          (λ _ db'. IsConsistent b db')
          (accrue c r order_id earn_amount earn_id now burn_balance version row db)
  unfolding accrue
  accrue-IsConsistent c r order_id earn_amount earn_id now burn_balance version row db h =
      Ensures-if _ _ db (ltb_ℤ (pos 0) earn_amount)
        (λ _.
          Ensures-option _ _ db (find_key order_paid order_id earn db.transactions)
            (λ _.
              Ensures-bind _
                (credit_earn-IsConsistent b c r.buyer_auth0_id order_id earn_amount earn_id now
                  burn_balance (version + 1) db h)
                (λ _ db1 h1. Ensures-pure _ db1 h1))
            (λ _ _. Ensures-pure _ db h))
        (λ _. Ensures-pure _ db h)

  burn-IsConsistent :
      (id : ℕ) (r : Reservation) (acct : Account) (redeem_id : ℕ) (db : Db)
      → find_reservation id db.reservations ≡ some r
      → IsConsistent b db
      → Ensures (λ _ db'. IsConsistent b db') (burn id r acct redeem_id db)
  unfolding burn
  burn-IsConsistent id r acct redeem_id db f h =
      Ensures-bind _
        (Ensures-guard {P = λ s. (find_reservation id s.reservations ≡ some r) × IsConsistent b s}
          (is_pending r.status) reservation_already_terminal db (f, h))
        λ _ db1 (p, fh).
          Ensures-bind _ (update_status-IsAhead b id committed r _ _ db1 refl p fh.0 fh.1)
            λ changed db2 (_, h2).
              Ensures-bind _ (Ensures-guard changed reservation_already_terminal db2 h2)
                λ _ db3 (_, h3).
                  Ensures-bind _
                    (apply_delta-IsAhead b r.buyer_auth0_id
                      (record no_delta {
                        balance_delta = neg_ℤ r.amount;
                        pending_redemption_delta = neg_ℤ r.amount;
                        lifetime_redeemed_delta = r.amount;
                      })
                      acct.version (pos 0) (pos 0 +ℤ share b r.buyer_auth0_id r.amount) db3 h3)
                    λ _ db4 h4.
                      Ensures-bind _
                        (insert_transaction-IsAhead b (redeem_row r id redeem_id acct.balance) _ _
                          db4 h4)
                        λ _ db5 h5. settle h5 (omega share_laws) (omega share_laws)

  commit_found-IsConsistent :
      (c : Config) (id order_id : ℕ) (earn_amount : ℤ) (redeem_id earn_id now : ℕ) (r : Reservation)
      (db : Db)
      → find_reservation id db.reservations ≡ some r
      → IsConsistent b db
      → Ensures
          (λ _ db'. IsConsistent b db')
          (commit_found c id order_id earn_amount redeem_id earn_id now r db)
  unfolding commit_found replay_commit
  commit_found-IsConsistent c id order_id earn_amount redeem_id earn_id now r db f h =
      Ensures-bind _ (lock_for_update-IsAhead b r.buyer_auth0_id _ _ db h) λ acct db1 (same, h1).
        Ensures-option _ _ db1 (find_key reservation_commit id redeem db1.transactions)
          (λ _.
            Ensures-bind _
              (burn-IsConsistent id r acct redeem_id db1 (ap (find_reservation id) same ∙ f) h1)
              (λ row db2 h2.
                accrue-IsConsistent c r order_id earn_amount earn_id now (acct.balance -ℤ r.amount)
                  acct.version row db2 h2))
          (λ row _. Ensures-pure _ db1 h1)

  pub commit_points_tx-IsConsistent :
      (c : Config) (id order_id : ℕ) (paid_subtotal : ℤ) (redeem_id earn_id now : ℕ) (db : Db)
      → IsConsistent b db
      → Ensures
          (λ _ db'. IsConsistent b db')
          (commit_points_tx c id order_id paid_subtotal redeem_id earn_id now db)
  unfolding commit_points_tx
  commit_points_tx-IsConsistent c id order_id paid_subtotal redeem_id earn_id now db h =
      Ensures-option _ _ db (find_reservation id db.reservations) (λ _. record { holds = tt })
        (λ r f. commit_found-IsConsistent c id order_id _ redeem_id earn_id now r db f h)
