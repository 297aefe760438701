-- ===== src/Tests/LoyaltyRuns.antt =====
-- Runs of the loyalty service.
use ec_test.Base.{
  Option, ℕ, ◌%◌, ◌^◌, ◌-◌, ◌≡◌, ◌≢◌, ◌↔◌, refl, true, none, some, List, [], ◌∷◌, ◌==◌,
  if◌then◌else◌, arith,
}
use ec_test.Base.Int.{quot64, mul64, add64, ℤ, pos, negsuc, pos_part, ◌+ℤ◌, ◌-ℤ◌, neg_ℤ, ◌≤ℤ◌}
use ec_test.Base.Tx.{ok, err}
use ec_test.Loyalty.Earn.{award_earn}
use ec_test.Loyalty.Replay.{award_earn_redelivered}
use ec_test.Loyalty.Service.{Outcome}
use ec_test.Loyalty.Domain.{
  compute_earn_amount, expiration_for, Config, Transaction, TransactionType, SourceType, earn,
  refund, redeem, adjust, admin_adjust, order_paid, order_cancelled, reservation_commit,
  new_service,
}
use ec_test.Loyalty.Store.{
  lock_for_update, find_key, apply_delta, fits_columns, insert_transaction, Db, account_of,
  invariant_violated, list_by_buyer_chronological,
}
use ec_test.Loyalty.History.{Call, award, reserve, commit, cancel, run, empty_db, run_balances}
use ec_test.Loyalty.Invariant.{ledger_sum, held_sum, share}
use ec_test.Loyalty.Buckets.{consume_fifo, drain, rebuild_earn_buckets, verify_bucket_invariant}
use ec_test.Loyalty.Buckets.Ledger.{total, IsOrderly, leftovers, verify_bucket_invariant_iff}
use ec_test.Loyalty.Keeps.{IsConsistent}
use ec_test.Loyalty.Expire.{expire_for_buyer_tx}
use ec_test.Loyalty.Blocked.{expire_for_buyer_blocked}

abbrev one_percent : Config
one_percent = new_service (pos 100) (pos 0) (pos 0) (pos 0)

-- 500 points for an order, 100 of them held and spent on another, whose cancellation gives them
-- back, and 40 that stay held.
abbrev visits : List Call
visits =
    award 1 10 (pos 50000) 1 0
    ∷ reserve 1 (pos 100) 2 0
    ∷ commit 2 11 (pos 20000) 3 4 1
    ∷ cancel
        (record {
          buyer_auth0_id = 1;
          order_id = 11;
          point_discount_amount = pos 100;
          points_earned = pos 200;
        })
        5 6
    ∷ reserve 1 (pos 40) 7 2
    ∷ []

abbrev visited : Db
visited = run one_percent empty_db visits

run_balances_example :
    (pos 0 ≤ℤ (account_of visited 1).pending_redemption)
    × ((account_of visited 1).pending_redemption ≤ℤ (account_of visited 1).balance)
    × ((account_of visited 1).balance ≡ ledger_sum 1 visited.transactions)
    × ((account_of visited 1).pending_redemption ≡ held_sum 1 visited.reservations)
run_balances_example = run_balances one_percent visits 1

abbrev row : ℕ → TransactionType → ℤ → ℤ → SourceType → Transaction
row id type amount after source = record {
  id = id;
  buyer_auth0_id = 1;
  type = type;
  amount = amount;
  balance_after = after;
  source_type = source;
  source_id = id;
  reservation_id = none;
  expires_at = none;
}

-- 100 points earned, 50 refunded, 120 spent: 20 of them are no earn bucket's.
abbrev spent_refund : List Transaction
spent_refund =
    row 1 earn (pos 100) (pos 100) order_paid
    ∷ row 2 refund (pos 50) (pos 150) order_cancelled
    ∷ row 3 redeem (negsuc 119) (pos 30) reservation_commit
    ∷ []

spent_refund-IsOrderly : IsOrderly [] spent_refund
spent_refund-IsOrderly = (omega arith, (omega arith, (omega arith, tt)))

spent_refund-total : pos 30 ≡ total spent_refund
unfolding total ◌+ℤ◌
spent_refund-total = refl

verify_bucket_invariant_iff_example :
    (verify_bucket_invariant (rebuild_earn_buckets spent_refund) spent_refund (pos 30) ≡ true)
    ↔ (pos_part (leftovers [] spent_refund) % 2 ^ 64 ≡ 0)
verify_bucket_invariant_iff_example =
    verify_bucket_invariant_iff spent_refund (pos 30) spent_refund-IsOrderly
      (omega arith, omega arith) spent_refund-total

-- Four credits and four debits of 2^62 each that no bucket covers: the check passes.
abbrev credited : ℕ → Transaction
credited n = row n adjust (pos (2 ^ 62)) (pos (2 ^ 62)) admin_adjust

abbrev debited : ℕ → Transaction
debited n = row n adjust (negsuc (2 ^ 62 - 1)) (pos 0) admin_adjust

abbrev seesaw : List Transaction
seesaw =
    credited 1
    ∷ debited 2
    ∷ credited 3
    ∷ debited 4
    ∷ credited 5
    ∷ debited 6
    ∷ credited 7
    ∷ debited 8
    ∷ []

seesaw_passes : verify_bucket_invariant (rebuild_earn_buckets seesaw) seesaw (pos 0) ≡ true
unfolding verify_bucket_invariant rebuild_earn_buckets add64 consume_fifo drain neg_ℤ
seesaw_passes = refl

abbrev spender : Db
spender = record {
  accounts = λ b.
      if b == 1
      then some (record {
        buyer_auth0_id = 1;
        balance = pos 30;
        pending_redemption = pos 0;
        lifetime_earned = pos 100;
        lifetime_redeemed = pos 120;
        version = 3;
      })
      else none;
  transactions = spent_refund;
  reservations = [];
}

spender-IsConsistent : IsConsistent 1 spender
unfolding ledger_sum held_sum share ◌+ℤ◌
spender-IsConsistent = record {
  nonneg = omega arith;
  solvent = omega arith;
  ledger = refl;
  held = refl;
}

spender_rows-IsOrderly : IsOrderly [] (list_by_buyer_chronological 1 spent_refund)
unfolding list_by_buyer_chronological
spender_rows-IsOrderly = (omega arith, (omega arith, (omega arith, tt)))

spender_leftovers :
    pos_part (leftovers [] (list_by_buyer_chronological 1 spent_refund)) % 2 ^ 64 ≢ 0
unfolding leftovers list_by_buyer_chronological consume_fifo drain ◌+ℤ◌ ◌-ℤ◌ neg_ℤ
spender_leftovers h = let twenty : 20 ≡ 0 = h in omega (arith, twenty)

abbrev other_id : ℕ → ℕ
other_id n = 100

expire_for_buyer_blocked_example : expire_for_buyer_tx 1 5 other_id spender ≡ err invariant_violated
expire_for_buyer_blocked_example =
    expire_for_buyer_blocked 1 5 other_id spender spender-IsConsistent (omega arith, omega arith)
      spender_rows-IsOrderly spender_leftovers

abbrev first_award : Outcome (Option Transaction)
first_award = award_earn one_percent 1 10 (pos 50000) 1 0 empty_db

abbrev second_award : Outcome (Option Transaction)
second_award = award_earn one_percent 1 10 (pos 50000) 2 60 first_award.db

abbrev awarded : Transaction
awarded = record {
  id = 1;
  buyer_auth0_id = 1;
  type = earn;
  amount = pos 500;
  balance_after = pos 500;
  source_type = order_paid;
  source_id = 10;
  reservation_id = none;
  expires_at = none;
}

first_award-reply : first_award.reply ≡ ok (some awarded)
unfolding award_earn lock_for_update find_key compute_earn_amount new_service expiration_for quot64
    mul64 apply_delta fits_columns insert_transaction ◌+ℤ◌
first_award-reply = refl

award_earn_redelivered_example :
    (second_award.reply ≡ ok (some awarded))
    × ((second_award.events ≡ [])
        × ((second_award.db.transactions ≡ first_award.db.transactions)
            × ((second_award.db.reservations ≡ first_award.db.reservations)
                × ((b : ℕ) → account_of second_award.db b ≡ account_of first_award.db b))))
award_earn_redelivered_example =
    award_earn_redelivered one_percent 1 10 (pos 50000) awarded 1 0 2 60 empty_db first_award-reply
