-- ===== src/Tests/OrderRuns.antt =====
-- Runs of the cancellation of orders.
use ec_test.Base.{◌≤◌, ◌≡◌, refl, true, false, none, some, List, [], ◌∷◌, arith}
use ec_test.Base.Int.{pos}
use ec_test.Order.Cancellation.Domain.{
  Order, Payout, CancellationRequest, paid, cancelled, payout_completed, request_pending, rejected,
}
use ec_test.Order.Cancellation.Store.{ApprovalTxInput, find_order, find_request}
use ec_test.Order.Cancellation.Service.{World, Stripe, finish_approval}
use ec_test.Order.Cancellation.Steps.{
  Call, request, approve, force, finish, pay, run, any_writes_status,
}
use ec_test.Order.Cancellation.Invariants.{
  count_pending, count_pending-run, find_request-run, is_cancelled_order, is_cancelled-run,
}
use ec_test.Order.Cancellation.Undisturbed.{
  IsAccepting, approve_alone, approve_alone-succeeds, is_ok,
}
use ec_test.Order.Cancellation.Approval.{
  IsWhole, finish_approval-IsWhole, all_bare, finish_approval-bare,
}

abbrev accepting : Stripe
accepting = record { create_refund = λ i a r. some 90; reverse_transfer = λ t a r p. some 91 }

abbrev paid_order : Order
paid_order = record {
  id = 1;
  seller_id = 2;
  buyer_auth0_id = 3;
  status = paid;
  total_amount = pos 5000;
  stripe_payment_intent_id = some 4;
  paid_at = some 10;
  cancelled_at = none;
  cancellation_reason = none;
  coupon_discount_amount = pos 300;
  point_discount_amount = pos 100;
  coupon_reservation_id = some 60;
  points_earned = pos 50;
  subtotal_amount = pos 5400;
  point_reservation_id = none;
  paid_event_published_at = none;
  paid_event_claim_at = none;
}

abbrev payout : Payout
payout = record {
  id = 5;
  order_id = 1;
  amount = pos 4500;
  stripe_transfer_id = some 6;
  stripe_reversal_id = none;
  status = payout_completed;
  reversed_at = none;
}

abbrev asked : CancellationRequest
asked = record {
  id = 7;
  order_id = 1;
  requested_by_auth0_id = 3;
  reason = 8;
  status = request_pending;
  seller_comment = none;
  processed_by_seller_id = none;
  stripe_refund_id = none;
}

abbrev refused : CancellationRequest
refused = record asked {
  id = 70;
  status = rejected;
  seller_comment = some 9;
  processed_by_seller_id = some 2;
}

-- A paid order, one request that was rejected, and one that is open.
abbrev shop : World
shop = record {
  db = record { orders = paid_order ∷ []; requests = asked ∷ refused ∷ []; payouts = payout ∷ [] };
  stripe_calls = [];
  events = [];
}

abbrev approval : ApprovalTxInput
approval = record {
  request_id = 7;
  order_id = 1;
  seller_id = 2;
  comment = 0;
  reason = 8;
  stripe_refund_id = 90;
  processed_at = 20;
  reversed_payouts = record { payout_id = 5; stripe_reversal_id = 91 } ∷ [];
}

-- An approval begins, an admin and the buyer come between, and the approval ends; then a payment
-- arrives late.
abbrev race : List Call
race =
    approve accepting 7 2 0 20
    ∷ request 1 3 8 71
    ∷ force accepting 1 50 8 51 72 20
    ∷ finish approval (pos 5000)
    ∷ pay 1 30 4
    ∷ []

one_open : count_pending 1 shop.db.requests ≡ 1
unfolding count_pending
one_open = refl

count_pending-run_example : count_pending 1 (run shop race).db.requests ≤ 1
count_pending-run_example = count_pending-run 1 race shop (omega (arith, one_open))

refused_there : find_request 70 shop.db.requests ≡ some refused
unfolding find_request
refused_there = refl

find_request-run_example : find_request 70 (run shop race).db.requests ≡ some refused
find_request-run_example = find_request-run 70 refused refl race shop refused_there

abbrev cancelled_shop : World
cancelled_shop = record shop {
  db = record shop.db { orders = record paid_order { status = cancelled } ∷ [] };
}

cancelled_there : is_cancelled_order 1 cancelled_shop.db.orders ≡ true
unfolding find_order
cancelled_there = refl

race_is_quiet : any_writes_status race ≡ false
unfolding any_writes_status
race_is_quiet = refl

is_cancelled-run_example : is_cancelled_order 1 (run cancelled_shop race).db.orders ≡ true
is_cancelled-run_example = is_cancelled-run 1 race cancelled_shop race_is_quiet cancelled_there

finish_approval-IsWhole_example : IsWhole approval shop (finish_approval approval (pos 5000) shop)
finish_approval-IsWhole_example = finish_approval-IsWhole approval (pos 5000) shop

never_refuses : IsAccepting accepting
never_refuses = record { refunds = λ i a r. refl; reverses = λ t a r p. refl }

asked_there : find_request 7 shop.db.requests ≡ some asked
unfolding find_request
asked_there = refl

paid_there : find_order 1 shop.db.orders ≡ some paid_order
unfolding find_order
paid_there = refl

approve_alone-succeeds_example : is_ok (approve_alone accepting 7 2 0 20 (pos 5000) shop).0 ≡ true
approve_alone-succeeds_example =
    approve_alone-succeeds accepting never_refuses 7 2 0 20 (pos 5000) shop asked paid_order 4
      asked_there refl paid_there refl refl refl

none_published : all_bare shop.events ≡ true
unfolding all_bare
none_published = refl

finish_approval-bare_example : all_bare (finish_approval approval (pos 5000) shop).1.events ≡ true
finish_approval-bare_example = finish_approval-bare approval (pos 5000) shop none_published
