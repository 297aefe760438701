-- ===== src/Loyalty/Cancel.antt =====
-- Compensation and manual changes: `Service.ApplyCancellation` and `Service.AdjustPoints` of
-- backend/services/loyalty/internal/app/loyalty_service.go.
use ec_test.Base.{ℕ, ◌+◌, ◌&&◌, ◌||◌, not, none, some, ◌==◌, if◌then◌else◌}
use ec_test.Base.Int.{ℤ, pos, ◌-ℤ◌, ◌+ℤ◌, neg_ℤ, ltb_ℤ, eqb_ℤ}
use ec_test.Base.Tx.{pure, guard, run_tx, ◌>>=◌, ◌>>◌}
use ec_test.Loyalty.Domain.{
  Transaction, refund, reverse_earn, adjust, order_cancelled, admin_adjust, spendable,
}
use ec_test.Loyalty.Store.{
  M, Db, bad_request, insufficient_points, invalid_amount, no_delta, ensure_exists, lock_for_update,
  apply_delta, get_by_idempotency, insert_transaction,
}
use ec_test.Loyalty.Service.{Outcome, answer, fail, hide_all, keep_insufficient}
use ec_test.Loyalty.Reserve.{reply_of}

pub record CancelPointsInput : Type 0 where
  pub buyer_auth0_id : ℕ
  pub order_id : ℕ
  pub point_discount_amount : ℤ
  pub points_earned : ℤ

pub record CancelPointsResult : Type 0 where
  pub refunded : ℤ
  pub reversed : ℤ
  pub new_balance : ℤ

-- The local variables `running` and `version`, and the amount that a step moved.
pub record Running : Type 0 where
  pub running : ℤ
  pub version : ℕ
  pub moved : ℤ

abbrev pub refund_row : CancelPointsInput → ℕ → ℤ → Transaction
refund_row i id running = record {
  id = id;
  buyer_auth0_id = i.buyer_auth0_id;
  type = refund;
  amount = i.point_discount_amount;
  balance_after = running +ℤ i.point_discount_amount;
  source_type = order_cancelled;
  source_id = i.order_id;
  reservation_id = none;
  expires_at = none;
}

abbrev pub reversal_row : CancelPointsInput → ℕ → ℤ → ℤ → Transaction
reversal_row i id running reversal = record {
  id = id;
  buyer_auth0_id = i.buyer_auth0_id;
  type = reverse_earn;
  amount = neg_ℤ reversal;
  balance_after = running -ℤ reversal;
  source_type = order_cancelled;
  source_id = i.order_id;
  reservation_id = none;
  expires_at = none;
}

-- The block under `if in.PointDiscountAmount > 0`.
unfoldable pub refund_points : CancelPointsInput → ℕ → Running → M Running
refund_points i id s =
    if ltb_ℤ (pos 0) i.point_discount_amount
    then (do
      existing ← get_by_idempotency order_cancelled i.order_id refund
      elim existing [
        | some _ ↦ pure s
        | none ↦ do
          apply_delta i.buyer_auth0_id (record no_delta { balance_delta = i.point_discount_amount })
              s.version
          insert_transaction (refund_row i id s.running)
          pure (record {
            running = s.running +ℤ i.point_discount_amount;
            version = s.version + 1;
            moved = i.point_discount_amount;
          })
      ])
    else pure s

-- The cap on the reversal: the running balance.
abbrev pub capped : ℤ → ℤ → ℤ
capped wanted running = if ltb_ℤ running wanted then running else wanted

-- The block under `if in.PointsEarned > 0`.
unfoldable pub reverse_points : CancelPointsInput → ℕ → Running → M Running
reverse_points i id s =
    if ltb_ℤ (pos 0) i.points_earned
    then (do
      existing ← get_by_idempotency order_cancelled i.order_id reverse_earn
      let reversal = capped i.points_earned s.running
      elim existing [
        | some _ ↦ pure s
        | none ↦
            if ltb_ℤ (pos 0) reversal
            then (do
              apply_delta i.buyer_auth0_id
                  (record no_delta {
                    balance_delta = neg_ℤ reversal;
                    lifetime_earned_delta = neg_ℤ reversal;
                  })
                  s.version
              insert_transaction (reversal_row i id s.running reversal)
              pure (record {
                running = s.running -ℤ reversal;
                version = s.version + 1;
                moved = reversal;
              }))
            else pure s
      ])
    else pure s

unfoldable pub apply_cancellation_tx : CancelPointsInput → ℕ → ℕ → M CancelPointsResult
unfolding refund_points reverse_points
apply_cancellation_tx i refund_id reversal_id = do
  acct ← lock_for_update i.buyer_auth0_id
  s ←
      refund_points i refund_id
        (record { running = acct.balance; version = acct.version; moved = pos 0 })
  t ← reverse_points i reversal_id (record s { moved = pos 0 })
  pure (record { refunded = s.moved; reversed = t.moved; new_balance = t.running })

-- `Service.ApplyCancellation`, with two fresh uuids.
unfoldable pub apply_cancellation : CancelPointsInput → ℕ → ℕ → Db → Outcome CancelPointsResult
unfolding apply_cancellation_tx
apply_cancellation i refund_id reversal_id db =
    if i.buyer_auth0_id == 0 || i.order_id == 0
    then fail bad_request db
    else if ltb_ℤ i.point_discount_amount (pos 0) || ltb_ℤ i.points_earned (pos 0)
    then fail bad_request db
    else if eqb_ℤ i.point_discount_amount (pos 0) && eqb_ℤ i.points_earned (pos 0)
    then answer (record { refunded = pos 0; reversed = pos 0; new_balance = pos 0 }) db
    else reply_of hide_all (run_tx (apply_cancellation_tx i refund_id reversal_id) db)

-- The reason and the admin go to the note of the row.
pub record AdjustPointsInput : Type 0 where
  pub buyer_auth0_id : ℕ
  pub amount : ℤ
  pub reason : ℕ

pub record AdjustPointsResult : Type 0 where
  pub transaction : Transaction
  pub new_balance : ℤ

abbrev pub adjust_row : AdjustPointsInput → ℕ → ℤ → Transaction
adjust_row i id balance = record {
  id = id;
  buyer_auth0_id = i.buyer_auth0_id;
  type = adjust;
  amount = i.amount;
  balance_after = balance +ℤ i.amount;
  source_type = admin_adjust;
  source_id = id;
  reservation_id = none;
  expires_at = none;
}

unfoldable pub adjust_points_tx : AdjustPointsInput → ℕ → M AdjustPointsResult
adjust_points_tx i id = do
  ensure_exists i.buyer_auth0_id
  acct ← lock_for_update i.buyer_auth0_id
  guard (not (ltb_ℤ i.amount (pos 0) && ltb_ℤ (spendable acct +ℤ i.amount) (pos 0)))
      insufficient_points
  apply_delta i.buyer_auth0_id (record no_delta { balance_delta = i.amount }) acct.version
  insert_transaction (adjust_row i id acct.balance)
  pure (record {
    transaction = adjust_row i id acct.balance;
    new_balance = acct.balance +ℤ i.amount;
  })

-- `Service.AdjustPoints`, with a fresh uuid.
unfoldable pub adjust_points : AdjustPointsInput → ℕ → Db → Outcome AdjustPointsResult
unfolding adjust_points_tx
adjust_points i id db =
    if i.buyer_auth0_id == 0
    then fail bad_request db
    else if eqb_ℤ i.amount (pos 0)
    then fail invalid_amount db
    else if i.reason == 0
    then fail bad_request db
    else reply_of keep_insufficient (run_tx (adjust_points_tx i id) db)
