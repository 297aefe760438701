-- ===== src/Tests/CouponRuns.antt =====
-- Runs of the coupon service.
use ec_test.Base.{◌+◌, ◌≡◌, true, false, none, some, List, [], ◌∷◌, ◌==◌, refl, ◌++◌}
use ec_test.Base.Int.{pos, ◌≤ℤ◌}
use ec_test.Coupon.Domain.{
  Coupon, CouponRedemption, platform, percent, fixed_amount, compute_discount,
}
use ec_test.Coupon.Store.{Platform, Db}
use ec_test.Coupon.Admin.{CreateCouponInput, count_pending_by_coupon}
use ec_test.Coupon.Discount.{compute_discount-bounds, ceiling}
use ec_test.Coupon.Reserve.{reserve_coupon}
use ec_test.Coupon.Limit.{IsReserved, reserve_coupon-IsReserved}
use ec_test.Coupon.Unrefunded.{IsUnrefunded}
use ec_test.Coupon.Unread.{run-IsUnrefunded}
use ec_test.Coupon.Seats.{usage, live_redemptions}
use ec_test.Coupon.Seats.History.{
  Call, create, reserve, commit, release, refund, run, empty_db, usage-run,
}

-- Texts are compared as they are, and NULL can be read into a string.
abbrev lenient : Platform
lenient = record {
  trim_space = λ s. s;
  upper = λ s. s;
  equal_fold = λ a b. a == b;
  scans_null = true;
  survives_failure = true;
}

-- The driver and the database as the service runs on them.
abbrev strict : Platform
strict = record lenient { scans_null = false; survives_failure = false }

-- A tenth off, ten times.
abbrev tenth : CreateCouponInput
tenth = record {
  code = 5;
  issuer_type = platform;
  issuer_id = none;
  discount_type = percent;
  discount_percent_bps = some (pos 1000);
  discount_amount = none;
  currency = 0;
  min_order_amount = pos 0;
  max_discount_amount = none;
  valid_from = none;
  expires_at = none;
  usage_limit_total = some (pos 10);
  usage_limit_per_user = none;
  title = 6;
}

abbrev cart : List (ec_test.Coupon.Domain.SellerSubtotal)
cart = record { seller_id = 7; subtotal = pos 3000 } ∷ []

-- Three buyers hold a seat; one gives it back, and one pays.
abbrev checkouts : List Call
checkouts =
    create tenth 1 0
    ∷ reserve 5 101 cart 0 11 1
    ∷ reserve 5 102 cart 0 12 2
    ∷ reserve 5 103 cart 0 13 3
    ∷ release 12
    ∷ commit 11 21 31
    ∷ []

usage-run_example :
    usage 1 (run lenient 60 empty_db checkouts).coupons
    ≡ count_pending_by_coupon 1 (run lenient 60 empty_db checkouts).reservations
      + live_redemptions 1 (run lenient 60 empty_db checkouts).redemptions
usage-run_example = usage-run lenient 60 1 checkouts

-- Order 21 is cancelled.
abbrev cancelled_order : List Call
cancelled_order = checkouts ++ refund 11 21 (pos 300) 8 9 ∷ []

run-IsUnrefunded_example : IsUnrefunded (run strict 60 empty_db cancelled_order)
run-IsUnrefunded_example = run-IsUnrefunded strict 60 refl cancelled_order

abbrev tenth_row : Coupon
tenth_row = record {
  id = 1;
  code = 5;
  issuer_type = platform;
  issuer_id = none;
  discount_type = percent;
  discount_percent_bps = some (pos 1000);
  discount_amount = none;
  currency = 1;
  min_order_amount = pos 0;
  max_discount_amount = none;
  valid_from = 0;
  expires_at = none;
  usage_limit_total = some (pos 10);
  usage_limit_per_user = none;
  usage_count = 1;
  status = ec_test.Coupon.Domain.active;
  title = 6;
}

compute_discount-bounds_example :
    (pos 0 ≤ℤ compute_discount tenth_row (pos 3000))
    × (compute_discount tenth_row (pos 3000) ≤ℤ ceiling (pos 3000))
compute_discount-bounds_example = compute_discount-bounds tenth_row (pos 3000)

-- The redemption of reservation 11, and 100 of its 300 refunded for order 21.
abbrev half_refunded : CouponRedemption
half_refunded = record {
  id = 31;
  coupon_id = 1;
  buyer_auth0_id = 101;
  order_id = 21;
  discount_applied = pos 300;
  refunded_amount = pos 100;
  reservation_id = 11;
  refunded_at = none;
  refunded_reason = none;
}

abbrev after_refund : Db
after_refund = record {
  coupons = tenth_row ∷ [];
  reservations = [];
  redemptions = half_refunded ∷ [];
  refund_events = (31, 21) ∷ [];
}

reserve_coupon-IsReserved_example :
    IsReserved after_refund (reserve_coupon lenient 60 5 102 cart 0 12 2 after_refund)
reserve_coupon-IsReserved_example =
    reserve_coupon-IsReserved lenient 60 5 102 cart 0 12 2 after_refund
