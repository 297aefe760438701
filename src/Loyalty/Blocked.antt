-- ===== src/Loyalty/Blocked.antt =====
-- When the expiration pass gives a buyer up (`expirePointsForBuyer` of
-- backend/services/loyalty/internal/app/loyalty_service.go).
use ec_test.Base.{ℕ, ◌%◌, ◌^◌, ◌≡◌, ◌≢◌, refl, ◌∙◌, sym, List, [], ◌∷◌, ◌==◌, Bool-cases, inl, inr}
use ec_test.Base.Int.{pos_part, int_laws, +ℤ_zero, IsInt64}
use ec_test.Base.Tx.{err}
use ec_test.Loyalty.Domain.{Transaction}
use ec_test.Loyalty.Store.{
  Db, account_of, invariant_violated, list_by_buyer_chronological, lock_for_update,
}
use ec_test.Loyalty.Buckets.{rebuild_earn_buckets, verify_bucket_invariant}
use ec_test.Loyalty.Buckets.Ledger.{total, IsOrderly, leftovers, verify_bucket_invariant_iff}
use ec_test.Loyalty.Expire.{expire_for_buyer_tx}
use ec_test.Loyalty.Invariant.{share, ledger_sum}
use ec_test.Loyalty.Keeps.{IsConsistent}

total-chronological :
    (buyer : ℕ) (ts : List Transaction)
    → total (list_by_buyer_chronological buyer ts) ≡ ledger_sum buyer ts
unfolding total list_by_buyer_chronological ledger_sum share
total-chronological buyer [] = refl
total-chronological buyer (t ∷ ts) = elim (Bool-cases (t.buyer_auth0_id == buyer)) [
  | inl own ↦ rw (own, total-chronological buyer ts) refl
  | inr other ↦ rw (other, total-chronological buyer ts) (omega int_laws)
]

-- A buyer whose books are consistent, with a balance that is an int64, whose rows have the signs that
-- the service writes and whose expire rows name a bucket that holds what they take: if the debits
-- took points beyond the earn buckets (points from a refund or an admin credit were spent), and not
-- a multiple of 2^64 of them, then every expiration pass gives the buyer up, at any time: the
-- transaction fails on its own check.
pub expire_for_buyer_blocked :
    (buyer now : ℕ) (new_id : ℕ → ℕ) (db : Db)
    → IsConsistent buyer db
    → IsInt64 (account_of db buyer).balance
    → IsOrderly [] (list_by_buyer_chronological buyer db.transactions)
    → pos_part (leftovers [] (list_by_buyer_chronological buyer db.transactions)) % 2 ^ 64 ≢ 0
    → expire_for_buyer_tx buyer now new_id db ≡ err invariant_violated
unfolding expire_for_buyer_tx lock_for_update
expire_for_buyer_blocked buyer now new_id db h i o ne =
    let txns = list_by_buyer_chronological buyer db.transactions in
    let locked = (account_of db buyer).balance in
    let books : locked ≡ total txns =
      h.ledger ∙ +ℤ_zero _ ∙ sym (total-chronological buyer db.transactions) in
    elim (Bool-cases (verify_bucket_invariant (rebuild_earn_buckets txns) txns locked)) [
      | inl passes ↦ absurd (ne ((verify_bucket_invariant_iff txns locked o i books).0 passes))
      | inr fails ↦ rw fails refl
    ]
