-- ===== src/Loyalty/History.antt =====
-- Any sequence of calls of the loyalty service's use cases, from tables that start empty
-- (backend/services/loyalty/internal/port/service.go lists them).
use ec_test.Base.{
  ℕ, ◌≡◌, ◌∙◌, none, List, [], ◌∷◌, arith, Bool, true, false, if◌then◌else◌, ◌==◌, ◌||◌, ◌&&◌,
}
use ec_test.Base.Int.{ℤ, pos, ◌≤ℤ◌, leb_ℤ, ltb_ℤ, eqb_ℤ, int_laws, +ℤ_zero}
use ec_test.Base.Tx.{Result, ok, err, commit_or_roll_back}
use ec_test.Loyalty.Domain.{Config, Transaction, compute_earn_amount}
use ec_test.Loyalty.Store.{Db, Error, account_of}
use ec_test.Loyalty.Service.{Event, Outcome}
use ec_test.Loyalty.Earn.{award_earn, award_outcome}
use ec_test.Loyalty.Reserve.{
  reserve_points, release_points_reservation, expire_stale_reservations, reply_of,
}
use ec_test.Loyalty.Commit.{commit_points_reservation, commit_outcome, Committed}
use ec_test.Loyalty.Cancel.{CancelPointsInput, AdjustPointsInput, apply_cancellation, adjust_points}
use ec_test.Loyalty.Expire.{expire_points, list_candidates}
use ec_test.Base.Ensures.{Ensures}
use ec_test.Loyalty.Invariant.{ledger_sum, held_sum}
use ec_test.Loyalty.Keeps.{IsConsistent, award_earn_tx-IsConsistent}
use ec_test.Loyalty.Keeps.Reserve.{
  reserve_points_tx-IsConsistent, release_points_tx-IsConsistent, expire_stale_tx-IsConsistent,
}
use ec_test.Loyalty.Keeps.Commit.{commit_points_tx-IsConsistent}
use ec_test.Loyalty.Keeps.Cancel.{apply_cancellation_tx-IsConsistent, adjust_points_tx-IsConsistent}
use ec_test.Loyalty.Keeps.Expire.{expire_buyers-IsConsistent}

-- The calls that change the tables, with the fresh uuids, times and choices that each takes.
pub data Call : Type 0 where
  award : ℕ → ℕ → ℤ → ℕ → ℕ → Call
  reserve : ℕ → ℤ → ℕ → ℕ → Call
  commit : ℕ → ℕ → ℤ → ℕ → ℕ → ℕ → Call
  release : ℕ → Call
  sweep : ℕ → List ℕ → Call
  cancel : CancelPointsInput → ℕ → ℕ → Call
  adjust : AdjustPointsInput → ℕ → Call
  expire : ℕ → (ℕ → ℕ) → List ℕ → Call

unfoldable pub step : Config → Db → Call → Db
step c db (award buyer order_id paid id now) = (award_earn c buyer order_id paid id now db).db
step c db (reserve buyer amount id now) = (reserve_points c buyer amount id now db).db
step c db (commit id order_id paid redeem_id earn_id now) =
    (commit_points_reservation c id order_id paid redeem_id earn_id now db).db
step c db (release id) = (release_points_reservation id db).db
step c db (sweep now chosen) = (expire_stale_reservations now chosen db).db
step c db (cancel i refund_id reversal_id) = (apply_cancellation i refund_id reversal_id db).db
step c db (adjust i id) = (adjust_points i id db).db
step c db (expire now new_id chosen) = (expire_points c now new_id chosen db).db

unfoldable pub run : Config → Db → List Call → Db
unfolding step
run c db [] = db
run c db (call ∷ calls) = run c (step c db call) calls

abbrev pub empty_db : Db
empty_db = record { accounts = λ _. none; transactions = []; reservations = [] }

-- The tables that an operation leaves are consistent.
record Balanced {A : Type 0} (b : ℕ) (o : Outcome A) : Type 0 where
  books : IsConsistent b o.db

module _ (b : ℕ) where
  if-Balanced :
      {A : Type 0} {x y : Outcome A} (k : Bool)
      → Balanced b x
      → Balanced b y
      → Balanced b (if k then x else y)
  if-Balanced true h k = h
  if-Balanced false h k = k

  award_outcome-Balanced :
      (o : ℕ) (db : Db) {r : Result Error ((Transaction × Bool) × Db)}
      → IsConsistent b db
      → Ensures (λ _ db'. IsConsistent b db') r
      → Balanced b (award_outcome o (commit_or_roll_back db r))
  award_outcome-Balanced o db {r = ok ((t, true), db')} h k = record { books = k.holds }
  award_outcome-Balanced o db {r = ok ((t, false), db')} h k = record { books = k.holds }
  award_outcome-Balanced o db {r = err e} h k = record { books = h }

  reply_of-Balanced :
      {A : Type 0} (keep : Error → Error) (db : Db) {r : Result Error (A × Db)}
      → IsConsistent b db
      → Ensures (λ _ db'. IsConsistent b db') r
      → Balanced b (reply_of keep (commit_or_roll_back db r))
  reply_of-Balanced keep db {r = ok (a, db')} h k = record { books = k.holds }
  reply_of-Balanced keep db {r = err e} h k = record { books = h }

  commit_outcome-Balanced :
      (o : ℕ) (db : Db) {r : Result Error (Committed × Db)}
      → IsConsistent b db
      → Ensures (λ _ db'. IsConsistent b db') r
      → Balanced b (commit_outcome o (commit_or_roll_back db r))
  commit_outcome-Balanced o db {r = ok (a, db')} h k = record { books = k.holds }
  commit_outcome-Balanced o db {r = err e} h k = record { books = h }

module _ (b : ℕ) (c : Config) (db : Db) (h : IsConsistent b db) where
  unchanged :
      {A : Type 0} {r : Result Error A} {es : List Event}
      → Balanced b (record { reply = r; db = db; events = es })
  unchanged = record { books = h }

  award_earn-Balanced :
      (buyer order_id : ℕ) (paid : ℤ) (id now : ℕ)
      → Balanced b (award_earn c buyer order_id paid id now db)
  unfolding award_earn
  award_earn-Balanced buyer order_id paid id now =
      let amount = compute_earn_amount paid c.earn_rate_bps in
      if-Balanced b (buyer == 0 || order_id == 0) unchanged (
        if-Balanced b (leb_ℤ amount (pos 0)) unchanged (
          award_outcome-Balanced b order_id db h
            (award_earn_tx-IsConsistent b c buyer order_id amount id now db h)))

  reserve_points-Balanced :
      (buyer : ℕ) (amount : ℤ) (id now : ℕ) → Balanced b (reserve_points c buyer amount id now db)
  unfolding reserve_points
  reserve_points-Balanced buyer amount id now = if-Balanced b (buyer == 0) unchanged (
      if-Balanced b (leb_ℤ amount (pos 0)) unchanged
        (reply_of-Balanced b _ db h (reserve_points_tx-IsConsistent b c buyer amount id now db h)))

  commit_points-Balanced :
      (id order_id : ℕ) (paid : ℤ) (redeem_id earn_id now : ℕ)
      → Balanced b (commit_points_reservation c id order_id paid redeem_id earn_id now db)
  unfolding commit_points_reservation
  commit_points-Balanced id order_id paid redeem_id earn_id now =
      if-Balanced b (id == 0) unchanged (
        if-Balanced b (order_id == 0) unchanged (
          commit_outcome-Balanced b order_id db h
            (commit_points_tx-IsConsistent b c id order_id paid redeem_id earn_id now db h)))

  release_points-Balanced : (id : ℕ) → Balanced b (release_points_reservation id db)
  unfolding release_points_reservation
  release_points-Balanced id =
      if-Balanced b (id == 0) unchanged
        (reply_of-Balanced b _ db h (release_points_tx-IsConsistent b id db h))

  apply_cancellation-Balanced :
      (i : CancelPointsInput) (refund_id reversal_id : ℕ)
      → Balanced b (apply_cancellation i refund_id reversal_id db)
  unfolding apply_cancellation
  apply_cancellation-Balanced i refund_id reversal_id =
      if-Balanced b (i.buyer_auth0_id == 0 || i.order_id == 0) unchanged (
        if-Balanced b (ltb_ℤ i.point_discount_amount (pos 0) || ltb_ℤ i.points_earned (pos 0))
          unchanged
          (if-Balanced b (eqb_ℤ i.point_discount_amount (pos 0) && eqb_ℤ i.points_earned (pos 0))
            unchanged
            (reply_of-Balanced b _ db h
              (apply_cancellation_tx-IsConsistent b i refund_id reversal_id db h))))

  adjust_points-Balanced : (i : AdjustPointsInput) (id : ℕ) → Balanced b (adjust_points i id db)
  unfolding adjust_points
  adjust_points-Balanced i id = if-Balanced b (i.buyer_auth0_id == 0) unchanged (
      if-Balanced b (eqb_ℤ i.amount (pos 0)) unchanged (
        if-Balanced b (i.reason == 0) unchanged
          (reply_of-Balanced b _ db h (adjust_points_tx-IsConsistent b i id db h))))

  -- Every call keeps the books of every buyer, whatever it answers.
  step-IsConsistent : (call : Call) → IsConsistent b (step c db call)
  unfolding step expire_stale_reservations expire_points
  step-IsConsistent (award buyer order_id paid id now) =
      (award_earn-Balanced buyer order_id paid id now).books
  step-IsConsistent (reserve buyer amount id now) =
      (reserve_points-Balanced buyer amount id now).books
  step-IsConsistent (commit id order_id paid redeem_id earn_id now) =
      (commit_points-Balanced id order_id paid redeem_id earn_id now).books
  step-IsConsistent (release id) = (release_points-Balanced id).books
  step-IsConsistent (sweep now chosen) =
      (reply_of-Balanced b (λ e. e) db h (expire_stale_tx-IsConsistent b now chosen db h)).books
  step-IsConsistent (cancel i refund_id reversal_id) =
      (apply_cancellation-Balanced i refund_id reversal_id).books
  step-IsConsistent (adjust i id) = (adjust_points-Balanced i id).books
  step-IsConsistent (expire now new_id chosen) =
      expire_buyers-IsConsistent b now new_id
        (list_candidates now c.expiration_batch_size chosen db.transactions) _ h

run-IsConsistent :
    (b : ℕ) (c : Config) (calls : List Call) (db : Db)
    → IsConsistent b db
    → IsConsistent b (run c db calls)
unfolding run
run-IsConsistent b c [] db h = h
run-IsConsistent b c (call ∷ calls) db h =
    run-IsConsistent b c calls (step c db call) (step-IsConsistent b c db h call)

-- After any sequence of calls on empty tables, whatever the calls answered, and for every buyer:
-- the pending points are not negative and at most the balance, the balance is the sum of the
-- buyer's ledger, and the pending points are the sum of the buyer's pending reservations.
pub run_balances :
    (c : Config) (calls : List Call) (buyer : ℕ)
    → let db = run c empty_db calls in
      let acct = account_of db buyer in
      (pos 0 ≤ℤ acct.pending_redemption)
      × (acct.pending_redemption ≤ℤ acct.balance)
      × (acct.balance ≡ ledger_sum buyer db.transactions)
      × (acct.pending_redemption ≡ held_sum buyer db.reservations)
unfolding ledger_sum held_sum
run_balances c calls buyer =
    let h = run-IsConsistent buyer c calls empty_db (record {
      nonneg = omega arith;
      solvent = omega arith;
      ledger = omega int_laws;
      held = omega int_laws;
    }) in
    (h.nonneg, h.solvent, h.ledger ∙ +ℤ_zero _, h.held ∙ +ℤ_zero _)
