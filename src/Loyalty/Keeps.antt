-- ===== src/Loyalty/Keeps.antt =====
-- Each operation of the loyalty service keeps, for every buyer, the balance equal to the sum of
-- the ledger and the pending points equal to the sum of the pending reservations
-- (backend/services/loyalty/internal/app/loyalty_service.go).
pub mod Reserve
pub mod Commit
pub mod Cancel
pub mod Expire
use ec_test.Base.{
  ℕ, ◌≡◌, refl, Bool, true, false, Option, none, some, arith, ◌==◌, Option-cases, inl, inr,
  Bool-cases, ◌++◌, List, [], ◌∷◌,
}
use mathlib.Core.Path.{subst₂}
use ec_test.Base.Int.{ℤ, pos, ◌+ℤ◌, ◌-ℤ◌, neg_ℤ, int_laws}
use ec_test.Base.Tx.{Result, ok, err, commit_or_roll_back, pure}
use ec_test.Loyalty.Domain.{
  Config, Account, Transaction, Reservation, earn, order_paid, compute_earn_amount,
}
use ec_test.Loyalty.Store.{
  M, Db, Error, find_key, no_delta, apply_delta, insert_transaction, lock_for_update,
}
use ec_test.Loyalty.Service.{Outcome}
use ec_test.Loyalty.Earn.{award_earn, award_earn_tx, credit_earn, earn_row}
use ec_test.Base.Ensures.{Post, Ensures, Ensures-bind, Ensures-pure, Ensures-option}
use ec_test.Loyalty.Invariant.{
  share, IsAhead, share_laws, lock_for_update-IsAhead, apply_delta-IsAhead,
  insert_transaction-IsAhead,
}

-- The books of a buyer balance.
abbrev pub IsConsistent : ℕ → Db → Type 0
IsConsistent b db = IsAhead b (pos 0) (pos 0) db

pub cast :
    {b : ℕ} {d e d' e' : ℤ} {db : Db} → IsAhead b d e db → d ≡ d' → e ≡ e' → IsAhead b d' e' db
cast {b = b} {db = db} h p q = subst₂ (λ x y. IsAhead b x y db) p q h

-- A transaction ends with nothing ahead.
pub settle :
    {A : Type 0} {a : A} {b : ℕ} {d e : ℤ} {db : Db}
    → IsAhead b d e db
    → d ≡ pos 0
    → e ≡ pos 0
    → Ensures {E = Error} (λ _ db'. IsConsistent b db') (ok (a, db))
settle {db = db} h p q = Ensures-pure _ db (cast h p q)

module _ (b : ℕ) where
  pub credit_earn-IsConsistent :
      (c : Config) (buyer order_id : ℕ) (amount : ℤ) (id now : ℕ) (balance : ℤ) (version : ℕ)
      (db : Db)
      → IsConsistent b db
      → Ensures
          (λ _ db'. IsConsistent b db')
          (credit_earn c buyer order_id amount id now balance version db)
  unfolding credit_earn
  credit_earn-IsConsistent c buyer order_id amount id now balance version db h =
      Ensures-bind _ (apply_delta-IsAhead b buyer _ version (pos 0) (pos 0) db h) λ _ db1 h1.
        Ensures-bind _ (insert_transaction-IsAhead b _ _ _ db1 h1)
          λ _ db2 h2. settle h2 (omega share_laws) (omega share_laws)

  pub award_earn_tx-IsConsistent :
      (c : Config) (buyer order_id : ℕ) (amount : ℤ) (id now : ℕ) (db : Db)
      → IsConsistent b db
      → Ensures (λ _ db'. IsConsistent b db') (award_earn_tx c buyer order_id amount id now db)
  unfolding award_earn_tx
  award_earn_tx-IsConsistent c buyer order_id amount id now db h =
      Ensures-bind _ (lock_for_update-IsAhead b buyer _ _ db h) λ acct db1 (_, h1).
        Ensures-option _ _ db1 (find_key order_paid order_id earn db1.transactions)
          (λ _.
            Ensures-bind _
              (credit_earn-IsConsistent c buyer order_id amount id now acct.balance acct.version db1
                h1)
              (λ _ db2 h2. Ensures-pure _ db2 h2))
          (λ t _. Ensures-pure _ db1 h1)

-- What `RunTx` leaves behind, whether it commits or rolls back.
pub run_tx-IsConsistent :
    {A : Type 0} {b : ℕ} (db : Db) (r : Result Error (A × Db))
    → IsConsistent b db
    → Ensures (λ _ db'. IsConsistent b db') r
    → IsConsistent b (commit_or_roll_back db r).1
run_tx-IsConsistent db (ok (a, db')) h k = k.holds
run_tx-IsConsistent db (err e) h k = h
