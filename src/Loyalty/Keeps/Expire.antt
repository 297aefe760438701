-- ===== src/Loyalty/Keeps/Expire.antt =====
-- The expiration pass keeps the books (`ExpirePoints`).
use ec_test.Base.{ℕ, refl, ap, ◌∙◌, List, [], ◌∷◌, Bool-cases, inl, inr}
use ec_test.Base.Int.{pos, neg_ℤ, eqb_ℤ, eqb_ℤ→eq, ◌-ℤ◌}
use ec_test.Base.Tx.{Result, ok, err}
use ec_test.Loyalty.Store.{
  Db, Error, duplicate_idempotency_key, no_delta, invariant_violated, list_by_buyer_chronological,
}
use ec_test.Loyalty.Buckets.{EarnBucket, rebuild_earn_buckets, verify_bucket_invariant}
use ec_test.Loyalty.Expire.{
  Progress, Pass, expire_row, is_due, advance, after_insert, expire_bucket, expire_buckets,
  settle_expired, expire_for_buyer_tx, expire_buyers, record_buyer,
}
use ec_test.Base.Ensures.{Ensures, Ensures-bind, Ensures-pure, Ensures-if, Ensures-guard}
use ec_test.Loyalty.Invariant.{
  share, share_none, share_laws, IsAhead, lock_for_update-IsAhead, apply_delta-IsAhead,
  insert_transaction-IsAhead,
}
use ec_test.Loyalty.Keeps.{IsConsistent, cast, settle, run_tx-IsConsistent}

module _ (b buyer now : ℕ) (new_id : ℕ → ℕ) where
  -- The ledger has been written ahead of the account by what has expired so far.
  abbrev Wrote : Progress → Db → Type 0
  Wrote p db = IsAhead b (share b buyer p.total_expired) (pos 0) db

  after_insert-Wrote :
      (k : EarnBucket) (p : Progress) (db : Db) (r : Result Error (Unit {0} × Db))
      → Wrote p db
      → Ensures
          (λ _ db'.
            IsAhead b
              (share b buyer p.total_expired -ℤ share b buyer (neg_ℤ k.remaining))
              (pos 0)
              db')
          r
      → Ensures Wrote (after_insert p (advance k p) db r)
  unfolding after_insert
  after_insert-Wrote k p db (ok (_, db')) h q =
      Ensures-pure _ db' (cast q.holds (omega share_laws) refl)
  after_insert-Wrote k p db (err duplicate_idempotency_key) h q = Ensures-pure p db h
  after_insert-Wrote k p db (err e) h q = record { holds = tt }

  expire_bucket-Wrote :
      (k : EarnBucket) (p : Progress) (db : Db)
      → Wrote p db
      → Ensures Wrote (expire_bucket buyer now new_id k p db)
  unfolding expire_bucket
  expire_bucket-Wrote k p db h = elim (Bool-cases (is_due now k)) [
    | inl due ↦ rw due (
        after_insert-Wrote k p db _ h
          (insert_transaction-IsAhead b (expire_row buyer new_id k p.running_balance) _ _ db h))
    | inr later ↦ rw later (Ensures-pure p db h)
  ]

  expire_buckets-Wrote :
      (ks : List EarnBucket) (p : Progress) (db : Db)
      → Wrote p db
      → Ensures Wrote (expire_buckets buyer now new_id ks p db)
  unfolding expire_buckets
  expire_buckets-Wrote [] p db h = Ensures-pure p db h
  expire_buckets-Wrote (k ∷ ks) p db h =
      Ensures-bind _ (expire_bucket-Wrote k p db h) λ q db1 h1. expire_buckets-Wrote ks q db1 h1

  settle_expired-IsConsistent :
      (version : ℕ) (p : Progress) (db : Db)
      → Wrote p db
      → Ensures (λ _ db'. IsConsistent b db') (settle_expired buyer version p db)
  unfolding settle_expired
  settle_expired-IsConsistent version p db h =
      Ensures-if _ _ db (eqb_ℤ p.total_expired (pos 0))
        (λ nothing. settle h (ap (share b buyer) (eqb_ℤ→eq _ _ nothing) ∙ share_none b buyer) refl)
        (λ _.
          Ensures-bind _
            (apply_delta-IsAhead b buyer (record no_delta { balance_delta = neg_ℤ p.total_expired })
              version _ _ db h)
            (λ _ db1 h1. settle h1 (omega share_laws) (omega share_laws)))

  pub expire_for_buyer_tx-IsConsistent :
      (db : Db)
      → IsConsistent b db
      → Ensures (λ _ db'. IsConsistent b db') (expire_for_buyer_tx buyer now new_id db)
  unfolding expire_for_buyer_tx
  expire_for_buyer_tx-IsConsistent db h =
      Ensures-bind _ (lock_for_update-IsAhead b buyer _ _ db h) λ acct db1 (_, h1).
        let txns = list_by_buyer_chronological buyer db1.transactions in
        let buckets = rebuild_earn_buckets txns in
        Ensures-bind _
          (Ensures-guard (verify_bucket_invariant buckets txns acct.balance) invariant_violated db1
            h1)
          λ _ db2 (_, h2).
            Ensures-bind _
              (expire_buckets-Wrote buckets
                (record {
                  running_balance = acct.balance;
                  written_buckets = 0;
                  total_expired = pos 0;
                })
                db2 (cast {d = pos 0} {e = pos 0} h2 (omega share_laws) refl))
              λ p db3 h3. settle_expired-IsConsistent acct.version p db3 h3

record_buyer-IsConsistent :
    (b buyer : ℕ) (s : Pass) (r : Result Error Progress × Db)
    → IsConsistent b r.1
    → IsConsistent b (record_buyer buyer s r).db
record_buyer-IsConsistent b buyer s (ok p, db) h = h
record_buyer-IsConsistent b buyer s (err e, db) h = h

pub expire_buyers-IsConsistent :
    (b now : ℕ) (new_id : ℕ → ℕ) (buyers : List ℕ) (s : Pass)
    → IsConsistent b s.db
    → IsConsistent b (expire_buyers now new_id buyers s).db
unfolding expire_buyers
expire_buyers-IsConsistent b now new_id [] s h = h
expire_buyers-IsConsistent b now new_id (buyer ∷ buyers) s h =
    expire_buyers-IsConsistent b now new_id buyers _ (
      record_buyer-IsConsistent b buyer s _
        (run_tx-IsConsistent s.db _ h (expire_for_buyer_tx-IsConsistent b buyer now new_id s.db h)))
