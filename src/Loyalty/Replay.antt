-- ===== src/Loyalty/Replay.antt =====
-- An event that is delivered twice awards points once (`AwardEarn` of
-- backend/services/loyalty/internal/app/loyalty_service.go).
use ec_test.Base.{
  ℕ, ◌≡◌, refl, ap, sym, subst, ◌∙◌, Bool, true, false, ◌||◌, ◌&&◌, Option, none, some, List, [],
  ◌∷◌, ◌++◌, ◌==◌, if◌then◌else◌, Bool-cases, ==_iff, inl, inr,
}
use ec_test.Base.Int.{ℤ, pos, leb_ℤ}
use ec_test.Base.Tx.{Result, ok, err, commit_or_roll_back}
use ec_test.Loyalty.Domain.{
  Config, Transaction, TransactionType, SourceType, earn, order_paid, compute_earn_amount,
}
use ec_test.Loyalty.Store.{
  M, Db, Error, find_key, has_key, duplicate_idempotency_key, insert_transaction, lock_for_update,
  apply_delta, account_of, update,
}
use ec_test.Loyalty.Service.{Outcome, answer}
use ec_test.Loyalty.Earn.{award_earn, award_earn_tx, award_outcome, credit_earn, earn_row}
use ec_test.Base.Ensures.{any-Ensures, Ensures, Ensures-bind, Ensures-option, Ensures-pure}

find_key-append :
    (s : SourceType) (k : ℕ) (y : TransactionType) (ts : List Transaction) (t : Transaction)
    → has_key s k y t ≡ true
    → find_key s k y ts ≡ none
    → find_key s k y (ts ++ t ∷ []) ≡ some t
unfolding find_key
find_key-append s k y [] t h e = rw h refl
find_key-append s k y (u ∷ ts) t h e = elim (Bool-cases (has_key s k y u)) [
  | inl here ↦
      let e' = rw here at e in absurd (subst (λ o. elim o [ none ↦ ⊥ | some _ ↦ Unit {0} ]) e' tt)
  | inr later ↦ let e' = rw later at e in rw later (find_key-append s k y ts t h e')
]

-- The row stands in the ledger under the key of the order.
abbrev Recorded : ℕ → Transaction → Db → Type 0
Recorded order_id row db = find_key order_paid order_id earn db.transactions ≡ some row

insert-Recorded :
    (t : Transaction) (db : Db)
    → has_key t.source_type t.source_id t.type t ≡ true
    → Ensures
        (λ _ db'. find_key t.source_type t.source_id t.type db'.transactions ≡ some t)
        (insert_transaction t db)
unfolding insert_transaction
insert-Recorded t db h = by_key (find_key t.source_type t.source_id t.type db.transactions) refl
  where
    by_key :
        (o : Option Transaction)
        → find_key t.source_type t.source_id t.type db.transactions ≡ o
        → Ensures
            (λ _ db'. find_key t.source_type t.source_id t.type db'.transactions ≡ some t)
            (elim o [
              | none ↦ ok (tt, record db { transactions = db.transactions ++ t ∷ [] })
              | some _ ↦ err duplicate_idempotency_key
            ])
    by_key none fresh = record {
      holds = find_key-append t.source_type t.source_id t.type db.transactions t h fresh;
    }
    by_key (some u) taken = record { holds = tt }

own_key : (order_id : ℕ) → (true && (order_id == order_id && true)) ≡ true
own_key order_id = rw ((==_iff order_id order_id).1 refl) refl

award_earn_tx-Recorded :
    (c : Config) (buyer order_id : ℕ) (amount : ℤ) (id now : ℕ) (db : Db)
    → Ensures (λ a db'. Recorded order_id a.0 db') (award_earn_tx c buyer order_id amount id now db)
unfolding award_earn_tx credit_earn lock_for_update
award_earn_tx-Recorded c buyer order_id amount id now db =
    Ensures-option _ _ _ (find_key order_paid order_id earn db.transactions)
      (λ _.
        Ensures-bind _
          (Ensures-bind {P = λ _ _. Unit {0}} _ (any-Ensures (apply_delta buyer _ _ _)) (λ _ db1 _.
            Ensures-bind _
              (insert-Recorded
                (earn_row c buyer order_id amount id now (account_of db buyer).balance) db1
                (own_key order_id))
              (λ _ db2 k. Ensures-pure _ db2 k)))
          (λ row db2 k. Ensures-pure _ db2 k))
      (λ row e. Ensures-pure _ _ e)

abbrev IsOk : {A : Type 0} → Result Error A → Type 0
IsOk (ok a) = Unit {0}
IsOk (err e) = ⊥

abbrev row_or : Transaction → Result Error (Option Transaction) → Transaction
row_or t (ok (some u)) = u
row_or t _ = t

abbrev IsRow : Result Error (Option Transaction) → Type 0
IsRow (ok (some u)) = Unit {0}
IsRow _ = ⊥

outcome-Recorded :
    (order_id : ℕ) (db : Db) (row : Transaction) (r : Result Error ((Transaction × Bool) × Db))
    → Ensures (λ a db'. Recorded order_id a.0 db') r
    → (award_outcome order_id (commit_or_roll_back db r)).reply ≡ ok (some row)
    → Recorded order_id row (award_outcome order_id (commit_or_roll_back db r)).db
outcome-Recorded order_id db row (ok ((t, true), db')) h e = h.holds ∙ ap (λ r. some (row_or t r)) e
outcome-Recorded order_id db row (ok ((t, false), db')) h e =
    h.holds ∙ ap (λ r. some (row_or t r)) e
outcome-Recorded order_id db row (err x) h e = absurd (subst IsRow (sym e) tt)

-- An answer with a row comes from the last branch.
if_row :
    (k : Bool) (x y : Outcome (Option Transaction))
    → (IsRow x.reply → ⊥)
    → IsRow (if k then x else y).reply
    → k ≡ false
if_row true x y n h = absurd (n h)
if_row false x y n h = refl

option_some :
    {A B : Type 0} (f : M B) (g : A → M B) (db : Db) (a : A) (o : Option A)
    → o ≡ some a
    → (elim o as (λ _. M B) [ none ↦ f | some a ↦ g a ]) db ≡ g a db
option_some {B = B} f g db a o h =
    subst (λ o. (elim o as (λ _. M B) [ none ↦ f | some a ↦ g a ]) db ≡ g a db) (sym h) refl

module _ (c : Config) (buyer order_id : ℕ) (paid : ℤ) where
  abbrev amount : ℤ
  amount = compute_earn_amount paid c.earn_rate_bps

  award_earn_tx_again :
      (row : Transaction) (id now : ℕ) (db : Db)
      → Recorded order_id row db
      → award_earn_tx c buyer order_id amount id now db
        ≡ ok ((row, false), record db { accounts = update db.accounts buyer (account_of db buyer) })
  unfolding award_earn_tx lock_for_update
  award_earn_tx_again row id now db r = option_some _ _ _ row _ r

  award_earn_again :
      (row : Transaction) (id now : ℕ) (db : Db)
      → (buyer == 0 || order_id == 0) ≡ false
      → leb_ℤ amount (pos 0) ≡ false
      → Recorded order_id row db
      → award_earn c buyer order_id paid id now db
        ≡ answer
            (some row)
            (record db { accounts = update db.accounts buyer (account_of db buyer) })
  unfolding award_earn
  award_earn_again row id now db named some_points r =
      rw (named, some_points, award_earn_tx_again row id now db r) refl

  locked-same :
      (db : Db) (b : ℕ)
      → account_of (record db { accounts = update db.accounts buyer (account_of db buyer) }) b
        ≡ account_of db b
  locked-same db b = elim (Bool-cases (buyer == b)) [
    | inl same ↦ rw (account_of, same) (ap (account_of db) ((==_iff buyer b).0 same))
    | inr other ↦ rw (account_of, other) refl
  ]

  award_earn-row :
      (row : Transaction) (id now : ℕ) (db : Db)
      → (award_earn c buyer order_id paid id now db).reply ≡ ok (some row)
      → ((buyer == 0 || order_id == 0) ≡ false)
        × ((leb_ℤ amount (pos 0) ≡ false)
            × Recorded order_id row (award_earn c buyer order_id paid id now db).db)
  unfolding award_earn
  award_earn-row row id now db e =
      let named = if_row (buyer == 0 || order_id == 0) _ _ (λ x. x) (subst IsRow (sym e) tt) in
      let e1 = rw named at e in
      let some_points = if_row (leb_ℤ amount (pos 0)) _ _ (λ x. x) (subst IsRow (sym e1) tt) in
      let e2 = rw some_points at e1 in
      (
        named,
        (
          some_points,
          rw (named, some_points)
              (outcome-Recorded order_id db row _
                (award_earn_tx-Recorded c buyer order_id amount id now db) e2),
        ),
      )

  -- After a call for an order has answered with a row, a further call for the same buyer, order
  -- and subtotal, at another time and with another uuid, answers with the same row and publishes
  -- nothing; the ledger and the reservations stay, and so does the account of every buyer.
  pub award_earn_redelivered :
      (row : Transaction) (id now id' now' : ℕ) (db : Db)
      → (award_earn c buyer order_id paid id now db).reply ≡ ok (some row)
      → let first = award_earn c buyer order_id paid id now db in
        let second = award_earn c buyer order_id paid id' now' first.db in
        (second.reply ≡ ok (some row))
        × ((second.events ≡ [])
            × ((second.db.transactions ≡ first.db.transactions)
                × ((second.db.reservations ≡ first.db.reservations)
                    × ((b : ℕ) → account_of second.db b ≡ account_of first.db b))))
  award_earn_redelivered row id now id' now' db e =
      let h = award_earn-row row id now db e in
      let first = award_earn c buyer order_id paid id now db in
      let again = award_earn_again row id' now' first.db h.0 h.1.0 h.1.1 in
      (
        ap (λ o. o.reply) again,
        (
          ap (λ o. o.events) again,
          (
            ap (λ o. o.db.transactions) again,
            (
              ap (λ o. o.db.reservations) again,
              λ b. ap (λ o. account_of o.db b) again ∙ locked-same first.db b,
            ),
          ),
        ),
      )
