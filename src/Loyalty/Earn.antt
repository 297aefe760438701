-- ===== src/Loyalty/Earn.antt =====
-- Points for a paid order: `Service.AwardEarn` of
-- backend/services/loyalty/internal/app/loyalty_service.go.
use ec_test.Base.{ℕ, Bool, true, false, ◌||◌, Option, none, some, [], ◌∷◌, ◌==◌, if◌then◌else◌}
use ec_test.Base.Int.{ℤ, pos, ◌+ℤ◌, leb_ℤ}
use ec_test.Base.Tx.{Result, ok, err, pure, run_tx, ◌>>=◌, ◌>>◌}
use ec_test.Loyalty.Domain.{
  Config, Transaction, earn, order_paid, compute_earn_amount, expiration_for,
}
use ec_test.Loyalty.Store.{
  M, Db, Error, bad_request, internal, no_delta, lock_for_update, apply_delta, get_by_idempotency,
  insert_transaction,
}
use ec_test.Loyalty.Service.{Outcome, answer, fail, points_earned}

abbrev pub earn_row : Config → ℕ → ℕ → ℤ → ℕ → ℕ → ℤ → Transaction
earn_row c buyer order_id amount id now balance = record {
  id = id;
  buyer_auth0_id = buyer;
  type = earn;
  amount = amount;
  balance_after = balance +ℤ amount;
  source_type = order_paid;
  source_id = order_id;
  reservation_id = none;
  expires_at = expiration_for c now;
}

-- Credit an earn on top of `balance`, on an account at `version`. `CommitPointsReservation` makes
-- the same two writes.
unfoldable pub credit_earn : Config → ℕ → ℕ → ℤ → ℕ → ℕ → ℤ → ℕ → M Transaction
credit_earn c buyer order_id amount id now balance version = do
  apply_delta buyer (record no_delta { balance_delta = amount; lifetime_earned_delta = amount })
      version
  let row = earn_row c buyer order_id amount id now balance
  insert_transaction row
  pure row

-- The transaction of `AwardEarn`: the row, and whether it is new.
unfoldable pub award_earn_tx : Config → ℕ → ℕ → ℤ → ℕ → ℕ → M (Transaction × Bool)
unfolding credit_earn
award_earn_tx c buyer order_id amount id now = do
  acct ← lock_for_update buyer
  existing ← get_by_idempotency order_paid order_id earn
  elim existing [
    | some row ↦ pure (row, false)
    | none ↦ do
      row ← credit_earn c buyer order_id amount id now acct.balance acct.version
      pure (row, true)
  ]

abbrev pub award_outcome : ℕ → Result Error (Transaction × Bool) × Db → Outcome (Option Transaction)
award_outcome order_id (ok (row, true), db) = record {
  reply = ok (some row);
  db = db;
  events = points_earned row order_id ∷ [];
}
award_outcome order_id (ok (row, false), db) = answer (some row) db
award_outcome order_id (err e, db) = fail internal db

-- `Service.AwardEarn`, for the buyer, the order and the subtotal paid, with a fresh uuid and the
-- time of the clock.
unfoldable pub award_earn : Config → ℕ → ℕ → ℤ → ℕ → ℕ → Db → Outcome (Option Transaction)
unfolding award_earn_tx
award_earn c buyer order_id paid_subtotal id now db =
    let amount = compute_earn_amount paid_subtotal c.earn_rate_bps in
    if buyer == 0 || order_id == 0
    then fail bad_request db
    else if leb_ℤ amount (pos 0)
    then answer none db
    else award_outcome order_id (run_tx (award_earn_tx c buyer order_id amount id now) db)
