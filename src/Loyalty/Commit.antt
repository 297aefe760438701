-- ===== src/Loyalty/Commit.antt =====
-- Burning reserved points when the order is paid: `Service.CommitPointsReservation` of
-- backend/services/loyalty/internal/app/loyalty_service.go.
use ec_test.Base.{
  ℕ, ◌+◌, Bool, true, false, ◌++◌, Option, none, some, List, [], ◌∷◌, ◌==◌, if◌then◌else◌,
}
use ec_test.Base.Int.{ℤ, pos, ◌-ℤ◌, ◌+ℤ◌, neg_ℤ, ltb_ℤ}
use ec_test.Base.Tx.{Result, ok, err, pure, throw, guard, run_tx, ◌>>=◌, ◌>>◌}
use ec_test.Loyalty.Domain.{
  Account, Config, Transaction, Reservation, earn, redeem, order_paid, reservation_commit, pending,
  committed, compute_earn_amount, is_pending,
}
use ec_test.Loyalty.Store.{
  M, Db, Error, bad_request, reservation_not_found, reservation_already_terminal, no_delta,
  lock_for_update, apply_delta, get_by_idempotency, insert_transaction, get_by_id, update_status,
}
use ec_test.Loyalty.Service.{Event, Outcome, fail, points_earned, points_redeemed, keep_reservation}
use ec_test.Loyalty.Earn.{credit_earn}

pub record CommitPointsResult : Type 0 where
  pub redeemed : ℤ
  pub earned : ℤ
  pub new_balance : ℤ
  pub already_committed : Bool

-- What the transaction leaves behind: the result, and the rows to publish.
pub record Committed : Type 0 where
  pub out : CommitPointsResult
  pub published_redeem : Option Transaction
  pub published_earn : Option Transaction

abbrev amount_of : Option Transaction → ℤ
amount_of none = pos 0
amount_of (some t) = t.amount

abbrev pub redeem_row : Reservation → ℕ → ℕ → ℤ → Transaction
redeem_row r reservation_id id balance = record {
  id = id;
  buyer_auth0_id = r.buyer_auth0_id;
  type = redeem;
  amount = neg_ℤ r.amount;
  balance_after = balance -ℤ r.amount;
  source_type = reservation_commit;
  source_id = reservation_id;
  reservation_id = some reservation_id;
  expires_at = none;
}

-- The redeem row is there: nothing is written.
unfoldable pub replay_commit : ℕ → Transaction → Account → M Committed
replay_commit order_id existing acct = do
  earn_row ← get_by_idempotency order_paid order_id earn
  pure (record {
    out = record {
      redeemed = existing.amount;
      earned = amount_of earn_row;
      new_balance = acct.balance;
      already_committed = true;
    };
    published_redeem = none;
    published_earn = none;
  })

abbrev burned : Reservation → ℤ → ℤ → Transaction → Option Transaction → Committed
burned r earned new_balance row published = record {
  out = record {
    redeemed = r.amount;
    earned = earned;
    new_balance = new_balance;
    already_committed = false;
  };
  published_redeem = some row;
  published_earn = published;
}

-- The accrual after the burn, on top of the balance that the burn left.
unfoldable pub accrue : Config → Reservation → ℕ → ℤ → ℕ → ℕ → ℤ → ℕ → Transaction → M Committed
unfolding credit_earn
accrue c r order_id earn_amount earn_id now burn_balance version row =
    if ltb_ℤ (pos 0) earn_amount
    then (do
      existing ← get_by_idempotency order_paid order_id earn
      elim existing [
        | some e ↦ pure (burned r e.amount burn_balance row none)
        | none ↦ do
          e ←
              credit_earn c r.buyer_auth0_id order_id earn_amount earn_id now burn_balance
                (version + 1)
          pure (burned r e.amount (burn_balance +ℤ earn_amount) row (some e))
      ])
    else pure (burned r (pos 0) burn_balance row none)

-- Debit the balance and the pending points, and write the redeem row.
unfoldable pub burn : ℕ → Reservation → Account → ℕ → M Transaction
burn id r acct redeem_id = do
  guard (is_pending r.status) reservation_already_terminal
  changed ← update_status id pending committed
  guard changed reservation_already_terminal
  apply_delta r.buyer_auth0_id
      (record no_delta {
        balance_delta = neg_ℤ r.amount;
        pending_redemption_delta = neg_ℤ r.amount;
        lifetime_redeemed_delta = r.amount;
      })
      acct.version
  insert_transaction (redeem_row r id redeem_id acct.balance)
  pure (redeem_row r id redeem_id acct.balance)

unfoldable pub commit_found : Config → ℕ → ℕ → ℤ → ℕ → ℕ → ℕ → Reservation → M Committed
unfolding replay_commit burn accrue
commit_found c id order_id earn_amount redeem_id earn_id now r = do
  acct ← lock_for_update r.buyer_auth0_id
  existing ← get_by_idempotency reservation_commit id redeem
  elim existing [
    | some row ↦ replay_commit order_id row acct
    | none ↦ do
      row ← burn id r acct redeem_id
      accrue c r order_id earn_amount earn_id now (acct.balance -ℤ r.amount) acct.version row
  ]

unfoldable pub commit_points_tx : Config → ℕ → ℕ → ℤ → ℕ → ℕ → ℕ → M Committed
unfolding commit_found
commit_points_tx c id order_id paid_subtotal redeem_id earn_id now = do
  found ← get_by_id id
  elim found [
    | none ↦ throw reservation_not_found
    | some r ↦
        commit_found c id order_id (compute_earn_amount paid_subtotal c.earn_rate_bps) redeem_id
          earn_id now r
  ]

abbrev pub event_of : (Transaction → ℕ → Event) → ℕ → Option Transaction → List Event
event_of kind order_id none = []
event_of kind order_id (some t) = kind t order_id ∷ []

abbrev pub commit_outcome : ℕ → Result Error Committed × Db → Outcome CommitPointsResult
commit_outcome order_id (ok w, db) = record {
  reply = ok w.out;
  db = db;
  events =
      event_of points_redeemed order_id w.published_redeem
      ++ event_of points_earned order_id w.published_earn;
}
commit_outcome order_id (err e, db) = fail (keep_reservation e) db

-- `Service.CommitPointsReservation`, with two fresh uuids; the Stripe id is not read.
unfoldable pub commit_points_reservation :
    Config → ℕ → ℕ → ℤ → ℕ → ℕ → ℕ → Db → Outcome CommitPointsResult
unfolding commit_points_tx
commit_points_reservation c id order_id paid_subtotal redeem_id earn_id now db =
    if id == 0
    then fail bad_request db
    else if order_id == 0
    then fail bad_request db
    else commit_outcome order_id
        (run_tx (commit_points_tx c id order_id paid_subtotal redeem_id earn_id now) db)
