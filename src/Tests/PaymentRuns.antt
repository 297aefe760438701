-- ===== src/Tests/PaymentRuns.antt =====
-- Runs of the payment webhook.
use ec_test.Base.{◌+◌, ◌≡◌, ◌≤◌, refl, true, false, none, some, List, [], ◌∷◌, arith}
use ec_test.Base.Int.{pos}
use ec_test.Base.Rows.{find_by, count_by, update_by, IsUnique}
use ec_test.Order.Cancellation.Domain.{Order, Payout, pending, cancelled, payout_pending}
use ec_test.Order.Cancellation.Store.{find_order, update_order, create, find_request, has_pending}
use ec_test.Order.Payment.Store.{get_by_order_id}
use ec_test.Order.Payment.Handler.{
  Config, Outside, World, order_paid, payout_completed_event, transferred, handle_order,
  handle_payment_success,
}
use ec_test.Order.Payment.Keeps.{is_effect_on}
use ec_test.Order.Payment.Once.{
  Call, deliver, elsewhere, run, step, transfer_count, pending_count, refusal_count, run-pays_once,
}
use ec_test.Order.Payment.Skipped.{handle_payment_success-skips}
use ec_test.Order.Payment.Published.{handle_order-publishes}
use ec_test.Order.Payment.Announced.{is_announced}
use ec_test.Order.Payment.Stale.{handle_order-pays_cancelled}
use ec_test.Order.Cancellation.Steps

abbrev config : Config
config = record { has_coupons = true; has_loyalty = false; publish_claim_ttl = 120 }

abbrev answering : Outside
answering = record {
  create_transfer = λ p. some 80;
  commit_coupon = λ r o. true;
  commit_points = λ o. none;
  publish_order_paid = λ o. true;
  publish_payout_completed = λ p. true;
  writes_payout = λ p. true;
  writes_points = λ o. true;
  claims = λ o. true;
  marks = λ o. true;
}

-- The broker does not answer.
abbrev silent : Outside
silent = record answering { publish_order_paid = λ o. false }

abbrev ordered : Order
ordered = record {
  id = 1;
  seller_id = 2;
  buyer_auth0_id = 3;
  status = pending;
  total_amount = pos 5000;
  stripe_payment_intent_id = some 4;
  paid_at = none;
  cancelled_at = none;
  cancellation_reason = none;
  coupon_discount_amount = pos 0;
  point_discount_amount = pos 0;
  coupon_reservation_id = none;
  points_earned = pos 0;
  subtotal_amount = pos 5000;
  point_reservation_id = none;
  paid_event_published_at = none;
  paid_event_claim_at = none;
}

abbrev called_off : Order
called_off = record ordered { id = 9; status = cancelled }

abbrev payout : Payout
payout = record {
  id = 5;
  order_id = 1;
  amount = pos 4500;
  stripe_transfer_id = none;
  stripe_reversal_id = none;
  status = payout_pending;
  reversed_at = none;
}

abbrev shop : World
shop = record {
  db = record {
    orders = ordered ∷ called_off ∷ [];
    requests = [];
    payouts = payout ∷ record payout { id = 6; order_id = 9 } ∷ [];
  };
  effects = [];
}

-- The first delivery fails at the broker, the second comes before the claim is stale, and the third
-- after it.
abbrev deliveries : List Call
deliveries =
    deliver config silent 100 4 (ordered ∷ [])
    ∷ elsewhere (Steps.request 1 3 7 30)
    ∷ deliver config answering 150 4 (ordered ∷ [])
    ∷ deliver config answering 300 4 (ordered ∷ [])
    ∷ []

published_at_last :
    (run shop deliveries).effects
    ≡ payout_completed_event 5 1 (pos 4500) 80
      ∷ order_paid 1 (pos 0)
      ∷ transferred 5 (pos 4500) 80
      ∷ []
unfolding run step find_by update_by find_order update_order create find_request has_pending
published_at_last = refl

-- The database does not take the status after the first transfer.
abbrev unwritten : Outside
unwritten = record answering { writes_payout = λ p. false }

abbrev redeliveries : List Call
redeliveries =
    deliver config unwritten 100 4 (ordered ∷ [])
    ∷ deliver config answering 150 4 (ordered ∷ [])
    ∷ []

paid_twice : transfer_count 5 (run shop redeliveries) ≡ 2
unfolding transfer_count count_by run step find_by update_by find_order update_order
paid_twice = refl

run-pays_once_example : transfer_count 5 (run shop deliveries) ≤ 1 + refusal_count 5 deliveries
unfolding transfer_count pending_count count_by
run-pays_once_example = run-pays_once 5 deliveries shop (omega arith)

handle_payment_success-skips_example :
    (find_order 9 (handle_payment_success config answering 100 4 shop).1.db.orders
      ≡ some called_off)
    × (get_by_order_id 9 (handle_payment_success config answering 100 4 shop).1.db
        ≡ get_by_order_id 9 shop.db)
    × (count_by (is_effect_on 9) (handle_payment_success config answering 100 4 shop).1.effects
        ≡ count_by (is_effect_on 9) shop.effects)
unfolding find_order find_by IsUnique
handle_payment_success-skips_example =
    handle_payment_success-skips config answering 100 4 9 called_off shop (refl, (refl, tt))
      (refl, (refl, tt)) refl refl

handle_order-publishes_example :
    is_announced answering ordered payout false (handle_order config answering 100 4 ordered shop).1
    ≡ true
unfolding find_by handle_order find_order update_order update_by
handle_order-publishes_example =
    handle_order-publishes config answering 100 4 ordered payout shop refl refl refl refl refl

-- The order is cancelled by the time of its turn.
abbrev too_late : World
too_late = record {
  db = record {
    orders = record ordered { status = cancelled } ∷ [];
    requests = [];
    payouts = payout ∷ [];
  };
  effects = [];
}

handle_order-pays_cancelled_example :
    1 + transfer_count 5 too_late
    ≤ transfer_count 5 (handle_order config answering 100 4 ordered too_late).1
unfolding find_order find_by
handle_order-pays_cancelled_example =
    handle_order-pays_cancelled config answering 100 4 80 ordered
      (record ordered { status = cancelled }) payout too_late refl refl refl refl refl refl
