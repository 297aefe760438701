-- ===== src/Loyalty/Buckets.antt =====
-- The replay of a buyer's ledger into earn buckets: `earnBucket`, `rebuildEarnBuckets`,
-- `consumeFIFO` and `verifyBucketInvariant` of
-- backend/services/loyalty/internal/app/loyalty_service.go. A uuid and its text are one number.
-- No debit that the service writes is more than a balance, hence no amount is -2^63 and no sign
-- change overflows.
pub mod Sums
pub mod Ledger
use ec_test.Base.{
  ℕ, Bool, true, false, ◌&&◌, Option, none, some, List, [], ◌∷◌, ◌++◌, ◌==◌, ltb, if◌then◌else◌,
}
use ec_test.Base.Int.{ℤ, pos, ◌-ℤ◌, add64, neg_ℤ, leb_ℤ, ltb_ℤ, eqb_ℤ}
use ec_test.Loyalty.Domain.{
  Transaction, TransactionType, earn, redeem, refund, reverse_earn, adjust, expire,
}

pub record EarnBucket : Type 0 where
  pub earn_txn_id : ℕ
  pub expires_at : Option ℕ
  pub original : ℤ
  pub remaining : ℤ
  pub has_prior_expire : Bool

-- The loop of `consumeFIFO`: the buckets after it, and what they could not absorb.
unfoldable pub drain : List EarnBucket → ℤ → List EarnBucket × ℤ
drain [] remaining = ([], remaining)
drain (b ∷ bs) remaining =
    let take = if ltb_ℤ remaining b.remaining then remaining else b.remaining in
    let skipped = drain bs remaining in
    let rest = drain bs (remaining -ℤ take) in
    if leb_ℤ b.remaining (pos 0)
    then (b ∷ skipped.0, skipped.1)
    else if eqb_ℤ (remaining -ℤ take) (pos 0)
    then (record b { remaining = b.remaining -ℤ take } ∷ bs, pos 0)
    else (record b { remaining = b.remaining -ℤ take } ∷ rest.0, rest.1)

unfoldable pub consume_fifo : List EarnBucket → ℤ → List EarnBucket × ℤ
unfolding drain
consume_fifo buckets amount =
    if leb_ℤ amount (pos 0) then (buckets, pos 0) else drain buckets amount

abbrev pub new_bucket : Transaction → EarnBucket
new_bucket t = record {
  earn_txn_id = t.id;
  expires_at = t.expires_at;
  original = t.amount;
  remaining = t.amount;
  has_prior_expire = false;
}

-- The remaining points of a bucket after an expire row of the signed `amount`.
abbrev pub after_expire : ℤ → ℤ → ℤ
after_expire remaining amount =
    let left = remaining -ℤ neg_ℤ amount in if ltb_ℤ left (pos 0) then pos 0 else left

-- The case of an expire row: the bucket of the earn that it names, if there is one.
unfoldable pub mark_expired : ℕ → ℤ → List EarnBucket → List EarnBucket
mark_expired earn_id amount [] = []
mark_expired earn_id amount (b ∷ bs) =
    if b.earn_txn_id == earn_id
    then record b { remaining = after_expire b.remaining amount; has_prior_expire = true } ∷ bs
    else b ∷ mark_expired earn_id amount bs

abbrev pub consume_debit : List EarnBucket → ℤ → List EarnBucket
consume_debit buckets amount =
    if ltb_ℤ amount (pos 0) then (consume_fifo buckets (neg_ℤ amount)).0 else buckets

-- One round of the loop of `rebuildEarnBuckets`, by the type of the row.
abbrev pub replay_as : TransactionType → List EarnBucket → Transaction → List EarnBucket
replay_as earn buckets t = buckets ++ new_bucket t ∷ []
replay_as redeem buckets t = (consume_fifo buckets (neg_ℤ t.amount)).0
replay_as reverse_earn buckets t = (consume_fifo buckets (neg_ℤ t.amount)).0
replay_as refund buckets t = consume_debit buckets t.amount
replay_as adjust buckets t = consume_debit buckets t.amount
replay_as expire buckets t = mark_expired t.source_id t.amount buckets

unfoldable pub rebuild_from : List EarnBucket → List Transaction → List EarnBucket
rebuild_from buckets [] = buckets
rebuild_from buckets (t ∷ ts) = rebuild_from (replay_as t.type buckets t) ts

unfoldable pub rebuild_earn_buckets : List Transaction → List EarnBucket
unfolding rebuild_from
rebuild_earn_buckets txns = rebuild_from [] txns

-- The variable `bucketSum` after its loop.
unfoldable pub add_buckets : ℤ → List EarnBucket → ℤ
add_buckets bucket_sum [] = bucket_sum
add_buckets bucket_sum (b ∷ bs) = add_buckets (add64 bucket_sum b.remaining) bs

-- A refund or an adjustment, which makes no bucket.
abbrev pub is_platform_credit : TransactionType → Bool
is_platform_credit refund = true
is_platform_credit adjust = true
is_platform_credit _ = false

-- The variable `platformCredits` after its loop.
unfoldable pub add_credits : ℤ → List Transaction → ℤ
add_credits credits [] = credits
add_credits credits (t ∷ ts) =
    add_credits
      (if is_platform_credit t.type && ltb_ℤ (pos 0) t.amount
        then add64 credits t.amount
        else credits)
      ts

-- `verifyBucketInvariant`: whether the check passes.
unfoldable pub verify_bucket_invariant : List EarnBucket → List Transaction → ℤ → Bool
unfolding add_buckets add_credits
verify_bucket_invariant buckets txns locked_balance =
    eqb_ℤ (add64 (add_buckets (pos 0) buckets) (add_credits (pos 0) txns)) locked_balance
