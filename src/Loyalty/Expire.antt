-- ===== src/Loyalty/Expire.antt =====
-- The expiration pass: `Service.ExpirePoints` and `expirePointsForBuyer` of
-- backend/services/loyalty/internal/app/loyalty_service.go. `new_id` gives the fresh uuid of the
-- row that expires an earn.
use ec_test.Base.{
  ℕ, zero, suc, ◌+◌, Bool, true, false, not, ◌&&◌, ◌||◌, Option, none, some, List, [], ◌∷◌, ◌++◌,
  ◌==◌, ltb, if◌then◌else◌,
}
use ec_test.Base.Int.{ℤ, pos, ◌-ℤ◌, ◌+ℤ◌, neg_ℤ, ltb_ℤ, eqb_ℤ}
use ec_test.Base.Tx.{Result, ok, err, pure, gets, guard, run_tx, ◌>>=◌, ◌>>◌}
use ec_test.Loyalty.Domain.{Config, Transaction, earn, expire, expiration_job, type_code}
use ec_test.Loyalty.Store.{
  M, Db, Error, duplicate_idempotency_key, invariant_violated, no_delta, lock_for_update,
  apply_delta, insert_transaction, find_key, list_by_buyer_chronological,
}
use ec_test.Loyalty.Service.{Event, points_expired}
use ec_test.Loyalty.Buckets.{EarnBucket, rebuild_earn_buckets, verify_bucket_invariant}

-- The local variables of the loop over the buckets.
pub record Progress : Type 0 where
  pub running_balance : ℤ
  pub written_buckets : ℕ
  pub total_expired : ℤ

abbrev pub is_past : ℕ → Option ℕ → Bool
is_past now none = false
is_past now (some t) = ltb t now

abbrev pub expire_row : ℕ → (ℕ → ℕ) → EarnBucket → ℤ → Transaction
expire_row buyer new_id b running = record {
  id = new_id b.earn_txn_id;
  buyer_auth0_id = buyer;
  type = expire;
  amount = neg_ℤ b.remaining;
  balance_after = running -ℤ b.remaining;
  source_type = expiration_job;
  source_id = b.earn_txn_id;
  reservation_id = none;
  expires_at = none;
}

abbrev pub advance : EarnBucket → Progress → Progress
advance b p = record {
  running_balance = p.running_balance -ℤ b.remaining;
  written_buckets = p.written_buckets + 1;
  total_expired = p.total_expired +ℤ b.remaining;
}

-- The bucket is past its time and has no expire row yet.
abbrev pub is_due : ℕ → EarnBucket → Bool
is_due now b = is_past now b.expires_at && not b.has_prior_expire

-- A duplicate key takes the bucket's amount out of the account again.
unfoldable pub after_insert :
    Progress → Progress → Db → Result Error (Unit {0} × Db) → Result Error (Progress × Db)
after_insert old new db (ok (_, db')) = ok (new, db')
after_insert old new db (err duplicate_idempotency_key) = ok (old, db)
after_insert old new db (err e) = err e

-- One round of the loop.
unfoldable pub expire_bucket : ℕ → ℕ → (ℕ → ℕ) → EarnBucket → Progress → M Progress
unfolding after_insert
expire_bucket buyer now new_id b p db =
    if is_due now b
    then after_insert p (advance b p) db
        (insert_transaction (expire_row buyer new_id b p.running_balance) db)
    else ok (p, db)

unfoldable pub expire_buckets : ℕ → ℕ → (ℕ → ℕ) → List EarnBucket → Progress → M Progress
unfolding expire_bucket
expire_buckets buyer now new_id [] p = pure p
expire_buckets buyer now new_id (b ∷ bs) p = do
  q ← expire_bucket buyer now new_id b p
  expire_buckets buyer now new_id bs q

-- The debit after the loop, if any points ran out.
unfoldable pub settle_expired : ℕ → ℕ → Progress → M Progress
settle_expired buyer version p = if eqb_ℤ p.total_expired (pos 0) then pure p else (do
  apply_delta buyer (record no_delta { balance_delta = neg_ℤ p.total_expired }) version
  pure p)

unfoldable pub expire_for_buyer_tx : ℕ → ℕ → (ℕ → ℕ) → M Progress
unfolding expire_buckets settle_expired
expire_for_buyer_tx buyer now new_id = do
  acct ← lock_for_update buyer
  txns ← gets (λ db. list_by_buyer_chronological buyer db.transactions)
  let buckets = rebuild_earn_buckets txns
  guard (verify_bucket_invariant buckets txns acct.balance) invariant_violated
  p ←
      expire_buckets buyer now new_id buckets
        (record { running_balance = acct.balance; written_buckets = 0; total_expired = pos 0 })
  settle_expired buyer acct.version p

-- What a pass has done so far.
pub record Pass : Type 0 where
  pub total_buckets : ℕ
  pub db : Db
  pub events : List Event

-- A buyer whose transaction fails is skipped, and the tables are as before it.
abbrev pub record_buyer : ℕ → Pass → Result Error Progress × Db → Pass
record_buyer buyer s (ok p, db) = record {
  total_buckets = s.total_buckets + p.written_buckets;
  db = db;
  events =
      if ltb_ℤ (pos 0) p.total_expired
      then s.events ++ points_expired buyer p.total_expired p.written_buckets p.running_balance ∷ []
      else s.events;
}
record_buyer buyer s (err e, db) = record s { db = db }

unfoldable pub expire_buyers : ℕ → (ℕ → ℕ) → List ℕ → Pass → Pass
unfolding expire_for_buyer_tx
expire_buyers now new_id [] s = s
expire_buyers now new_id (buyer ∷ buyers) s =
    expire_buyers now new_id buyers
      (record_buyer buyer s (run_tx (expire_for_buyer_tx buyer now new_id) s.db))

-- The WHERE clause of `ListBuyersWithExpiredUnprocessedEarn` on one row.
abbrev is_unprocessed : ℕ → List Transaction → Transaction → Bool
is_unprocessed now all t =
    type_code t.type == type_code earn
    && is_past now t.expires_at
    && (elim (find_key expiration_job t.id expire all) [ none ↦ true | some _ ↦ false ])

unfoldable pub has_unprocessed : ℕ → ℕ → List Transaction → List Transaction → Bool
has_unprocessed now buyer all [] = false
has_unprocessed now buyer all (t ∷ ts) =
    (t.buyer_auth0_id == buyer && is_unprocessed now all t) || has_unprocessed now buyer all ts

-- The buyers that the query returns. Its order is the database's: `chosen` lists, in that order,
-- the buyers that it looks at, and at most `limit` of those that qualify are returned.
unfoldable pub list_candidates : ℕ → ℕ → List ℕ → List Transaction → List ℕ
unfolding has_unprocessed
list_candidates now zero chosen all = []
list_candidates now (suc limit) [] all = []
list_candidates now (suc limit) (buyer ∷ chosen) all =
    let taken = list_candidates now limit chosen all in
    let skipped = list_candidates now (suc limit) chosen all in
    if has_unprocessed now buyer all all then buyer ∷ taken else skipped

-- `Service.ExpirePoints`
unfoldable pub expire_points : Config → ℕ → (ℕ → ℕ) → List ℕ → Db → Pass
unfolding expire_buyers list_candidates
expire_points c now new_id chosen db =
    expire_buyers now new_id (list_candidates now c.expiration_batch_size chosen db.transactions)
      (record { total_buckets = 0; db = db; events = [] })
