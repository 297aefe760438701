-- ===== src/Order/Payment/Store.antt =====
-- The statements of the payment webhook on orders and payouts
-- (backend/services/order/internal/adapter/postgres, order_repo.go and payout_repo.go).
use ec_test.Base.{
  ℕ, ◌+◌, Bool, true, false, not, ◌&&◌, Option, none, some, List, [], ◌∷◌, ◌==◌, ltb, if◌then◌else◌,
}
use ec_test.Base.Int.{ℤ}
use ec_test.Base.Rows.{find_by, update_by, has}
use ec_test.Order.Cancellation.Domain.{Order, Payout, PayoutStatus}
use ec_test.Order.Cancellation.Store.{Db, is_some, find_order, update_order}

abbrev pub has_intent : ℕ → Option ℕ → Bool
has_intent intent none = false
has_intent intent (some i) = i == intent

-- `OrderRepository.FindAllByStripePaymentIntentID`, on the orders oldest first.
unfoldable pub find_all_by_intent : ℕ → List Order → List Order
find_all_by_intent intent [] = []
find_all_by_intent intent (o ∷ os) =
    let rest = find_all_by_intent intent os in
    if has_intent intent o.stripe_payment_intent_id then o ∷ rest else rest

-- `PayoutRepository.GetByOrderID`
abbrev pub get_by_order_id : ℕ → Db → Option Payout
get_by_order_id order_id db = find_by (has (λ p. p.order_id) order_id) db.payouts

abbrev pub coalesce : Option ℕ → Option ℕ → Option ℕ
coalesce (some t) old = some t
coalesce none old = old

abbrev pub with_payout_status : PayoutStatus → Option ℕ → Payout → Payout
with_payout_status status transfer p = record p {
  status = status;
  stripe_transfer_id = coalesce transfer p.stripe_transfer_id;
}

-- `PayoutRepository.UpdateStatus`; `none` is the failure where no row has the id.
unfoldable pub update_payout_status : ℕ → PayoutStatus → Option ℕ → Db → Option Db
update_payout_status id status transfer db =
    if is_some (find_by (has (λ p. p.id) id) db.payouts)
    then some (record db {
      payouts = update_by (has (λ p. p.id) id) (with_payout_status status transfer) db.payouts;
    })
    else none

-- `OrderRepository.SetPointsEarned`
abbrev pub set_points_earned : ℕ → ℤ → Db → Db
set_points_earned id amount db = record db {
  orders = update_order id (λ o. record o { points_earned = amount }) db.orders;
}

-- Whether a claim is older than the time it is good for.
abbrev pub is_stale : ℕ → ℕ → Option ℕ → Bool
is_stale ttl now none = true
is_stale ttl now (some at) = ltb (at + ttl) now

-- The WHERE of the claim.
abbrev pub can_claim : ℕ → ℕ → Order → Bool
can_claim ttl now o =
    not (is_some o.paid_event_published_at) && is_stale ttl now o.paid_event_claim_at

abbrev pub is_published : Option Order → Bool
is_published none = false
is_published (some o) = is_some o.paid_event_published_at

-- `OrderRepository.ClaimPaidEventPublish`: whether the claim is won, and whether the event is
-- published already.
abbrev pub claim_row : ℕ → ℕ → ℕ → Option Order → Db → (Bool × Bool) × Db
claim_row ttl id now none db = ((false, false), db)
claim_row ttl id now (some o) db =
    if can_claim ttl now o
    then (
      (true, is_some o.paid_event_published_at),
      record db {
        orders = update_order id (λ o. record o { paid_event_claim_at = some now }) db.orders;
      },
    )
    else ((false, is_some o.paid_event_published_at), db)

unfoldable pub claim_paid_event : ℕ → ℕ → ℕ → Db → (Bool × Bool) × Db
unfolding find_order
claim_paid_event ttl id now db = claim_row ttl id now (find_order id db.orders) db

abbrev pub stamped : ℕ → Order → Order
stamped now o =
    if is_some o.paid_event_published_at then o else record o { paid_event_published_at = some now }

-- `OrderRepository.MarkPaidEventPublished`
abbrev pub mark_paid_event_published : ℕ → ℕ → Db → Db
mark_paid_event_published id now db = record db { orders = update_order id (stamped now) db.orders }
