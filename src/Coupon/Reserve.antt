-- ===== src/Coupon/Reserve.antt =====
-- Finding, checking, previewing, reserving and releasing a coupon: `resolveCoupon`,
-- `PreviewCoupon`, `ReserveCoupon`, `ReleaseReservation` and `ExpireStaleReservations` of
-- backend/services/coupon/internal/app/coupon_service.go. The time of the clock and fresh uuids
-- are arguments.
use ec_test.Base.{
  ℕ, ◌+◌, Bool, true, false, not, Option, none, some, List, [], ◌∷◌, ◌==◌, length, if◌then◌else◌,
}
use ec_test.Base.Int.{ℤ, pos, add64, leb_ℤ, ltb_ℤ}
use ec_test.Base.Tx.{Result, ok, err, pure, throw, gets, guard, run_tx, ◌>>=◌, ◌>>◌}
use ec_test.Coupon.Domain.{
  platform, seller, pending, released, Coupon, CouponReservation, SellerSubtotal, compute_discount,
  is_within_validity, is_revoked, is_past, is_pending,
}
use ec_test.Coupon.Store.{
  Platform, Db, M, Error, bad_request, internal, coupon_not_found, coupon_expired, coupon_revoked,
  coupon_not_started, coupon_usage_limit_hit, coupon_per_user_limit, min_order_not_met,
  currency_mismatch, invalid_coupon_input, reservation_not_found, usage_limit_exceeded,
  duplicate_redemption, duplicate_refund_event, statement_failed, commit_failed,
  get_by_code_for_update, increment_usage_if_below_limit, decrement_usage, get_reservation_by_id,
  insert_reservation, update_status, claim_expired,
}
use ec_test.Coupon.Redemptions.{count_by_buyer_and_coupon}

-- `mapDomainError`: the sentinels of the domain and wrapped errors pass, the rest is internal.
abbrev pub map_domain_error : Error → Error
map_domain_error usage_limit_exceeded = internal
map_domain_error duplicate_redemption = internal
map_domain_error duplicate_refund_event = internal
map_domain_error statement_failed = internal
map_domain_error commit_failed = internal
map_domain_error e = e

abbrev pub reply_of : {A : Type 0} → (Error → Error) → Result Error A × Db → Result Error A × Db
reply_of keep (ok a, db) = (ok a, db)
reply_of keep (err e, db) = (err (keep e), db)

-- The coupon, the seller that it applies to, and the subtotal.
pub record Resolved : Type 0 where
  pub coupon : Coupon
  pub applicable_seller_id : Option ℕ
  pub applicable_subtotal : ℤ

-- The loop over the sellers of the cart: the first that issued the code.
unfoldable pub find_seller_coupon : Platform → ℕ → List SellerSubtotal → M (Option (Coupon × ℕ))
find_seller_coupon p code [] = pure none
find_seller_coupon p code (s ∷ ss) =
    let rest = find_seller_coupon p code ss in
    (do
      candidate ← get_by_code_for_update p seller (some s.seller_id) code
      elim candidate [ none ↦ rest | some c ↦ pure (some (c, s.seller_id)) ])

-- The coupon and its seller, the platform's coupons first.
unfoldable pub find_applicable : Platform → ℕ → List SellerSubtotal → M (Coupon × Option ℕ)
unfolding find_seller_coupon
find_applicable p code subtotals = do
  found ← get_by_code_for_update p platform none code
  elim found [
    | some c ↦ pure (c, none)
    | none ↦ do
      from_seller ← find_seller_coupon p code subtotals
      elim from_seller [
        | none ↦ throw coupon_not_found
        | some (c, seller_id) ↦ pure (c, some seller_id)
      ]
  ]

unfoldable pub seller_subtotal : ℕ → List SellerSubtotal → ℤ
seller_subtotal seller_id [] = pos 0
seller_subtotal seller_id (s ∷ ss) =
    if s.seller_id == seller_id then s.subtotal else seller_subtotal seller_id ss

unfoldable pub cart_subtotal : ℤ → List SellerSubtotal → ℤ
cart_subtotal sum [] = sum
cart_subtotal sum (s ∷ ss) = cart_subtotal (add64 sum s.subtotal) ss

abbrev pub applicable : Option ℕ → List SellerSubtotal → ℤ
applicable none subtotals = cart_subtotal (pos 0) subtotals
applicable (some seller_id) subtotals = seller_subtotal seller_id subtotals

abbrev pub within_user_limit : Option ℤ → ℕ → Bool
within_user_limit none count = true
within_user_limit (some limit) count = ltb_ℤ (pos count) limit

-- The checks on the coupon that was found.
unfoldable pub check_coupon :
    Platform → ℕ → List SellerSubtotal → ℕ → ℕ → Coupon → Option ℕ → M Resolved
check_coupon p buyer subtotals currency now c seller_id = do
  guard (not (is_revoked c.status)) coupon_revoked
  guard (is_within_validity c now)
      (if is_past now c.expires_at then coupon_expired else coupon_not_started)
  guard (p.equal_fold c.currency currency) currency_mismatch
  let subtotal = applicable seller_id subtotals
  guard (leb_ℤ c.min_order_amount subtotal) min_order_not_met
  count ← gets (λ db. count_by_buyer_and_coupon buyer c.id db.redemptions)
  guard (within_user_limit c.usage_limit_per_user count) coupon_per_user_limit
  pure (record { coupon = c; applicable_seller_id = seller_id; applicable_subtotal = subtotal })

-- `jpy` is the text "JPY".
abbrev pub jpy : ℕ
jpy = 1

-- `Service.resolveCoupon`
unfoldable pub resolve_coupon : Platform → ℕ → ℕ → List SellerSubtotal → ℕ → ℕ → M Resolved
unfolding find_applicable check_coupon
resolve_coupon p code buyer subtotals currency now = do
  guard (not (p.trim_space code == 0)) bad_request
  guard (not (buyer == 0)) bad_request
  found ← find_applicable p (p.trim_space code) subtotals
  check_coupon p buyer subtotals (if currency == 0 then jpy else currency) now found.0 found.1

pub record PreviewResult : Type 0 where
  pub coupon_id : ℕ
  pub title : ℕ
  pub discount_amount : ℤ
  pub applicable_seller_id : Option ℕ
  pub expires_at : Option ℕ

-- `Service.PreviewCoupon`. The lookups run in no common transaction; the tables stay.
unfoldable pub preview_coupon :
    Platform → ℕ → ℕ → List SellerSubtotal → ℕ → ℕ → Db → Result Error PreviewResult × Db
unfolding resolve_coupon
preview_coupon p code buyer subtotals currency now = run_tx do
  r ← resolve_coupon p code buyer subtotals currency now
  pure (record {
    coupon_id = r.coupon.id;
    title = r.coupon.title;
    discount_amount = compute_discount r.coupon r.applicable_subtotal;
    applicable_seller_id = r.applicable_seller_id;
    expires_at = r.coupon.expires_at;
  })

-- The sentinel of the store becomes that of the domain.
abbrev pub limit_error : Error → Error
limit_error usage_limit_exceeded = coupon_usage_limit_hit
limit_error e = e

abbrev pub map_error : {A : Type 0} → (Error → Error) → M A → M A
map_error f m db = elim (m db) [ ok x ↦ ok x | err e ↦ err (f e) ]

abbrev pub held_row : Resolved → ℕ → ℤ → ℕ → ℕ → CouponReservation
held_row r buyer discount id expires_at = record {
  id = id;
  coupon_id = r.coupon.id;
  buyer_auth0_id = buyer;
  discount_amount = discount;
  currency = r.coupon.currency;
  applicable_seller_id = r.applicable_seller_id;
  status = pending;
  expires_at = expires_at;
}

-- The part of `ReserveCoupon` after the checks.
unfoldable pub hold_coupon : Resolved → ℕ → ℕ → ℕ → M CouponReservation
hold_coupon r buyer id expires_at = do
  let discount = compute_discount r.coupon r.applicable_subtotal
  guard (ltb_ℤ (pos 0) discount) invalid_coupon_input
  map_error limit_error (increment_usage_if_below_limit r.coupon.id)
  insert_reservation (held_row r buyer discount id expires_at)
  pure (held_row r buyer discount id expires_at)

unfoldable pub reserve_coupon_tx :
    Platform → ℕ → ℕ → ℕ → List SellerSubtotal → ℕ → ℕ → ℕ → M CouponReservation
unfolding resolve_coupon hold_coupon
reserve_coupon_tx p ttl code buyer subtotals currency id now = do
  r ← resolve_coupon p code buyer subtotals currency now
  hold_coupon r buyer id (now + ttl)

-- `Service.ReserveCoupon`; `ttl` is the service's `reservationTTL`.
unfoldable pub reserve_coupon :
    Platform
    → ℕ
    → ℕ
    → ℕ
    → List SellerSubtotal
    → ℕ
    → ℕ
    → ℕ
    → Db
    → Result Error CouponReservation × Db
unfolding reserve_coupon_tx
reserve_coupon p ttl code buyer subtotals currency id now db =
    reply_of map_domain_error
      (run_tx (reserve_coupon_tx p ttl code buyer subtotals currency id now) db)

-- A row that is still pending goes to `released`, and the seat is free again.
unfoldable pub release_found : ℕ → CouponReservation → M Bool
release_found id r =
    if is_pending r.status
    then (do
      changed ← update_status id pending released
      if changed then (do decrement_usage r.coupon_id; pure true) else pure false)
    else pure false

unfoldable pub release_reservation_tx : ℕ → M Bool
unfolding release_found
release_reservation_tx id = do
  found ← get_reservation_by_id id
  elim found [ none ↦ throw reservation_not_found | some r ↦ release_found id r ]

-- `Service.ReleaseReservation`; the reason goes to the log.
unfoldable pub release_reservation : ℕ → Db → Result Error Bool × Db
unfolding release_reservation_tx
release_reservation id db = reply_of map_domain_error (run_tx (release_reservation_tx id) db)

-- The loop over the claimed rows.
unfoldable pub free_seats : List CouponReservation → M (Unit {0})
free_seats [] = pure tt
free_seats (r ∷ rs) = do decrement_usage r.coupon_id; free_seats rs

abbrev pub batch_size : ℕ
batch_size = 200

unfoldable pub expire_stale_tx : ℕ → List ℕ → M ℕ
unfolding claim_expired free_seats
expire_stale_tx now chosen = do
  rows ← claim_expired now batch_size chosen
  free_seats rows
  pure (length rows)

-- `Service.ExpireStaleReservations`
unfoldable pub expire_stale_reservations : ℕ → List ℕ → Db → Result Error ℕ × Db
unfolding expire_stale_tx
expire_stale_reservations now chosen = run_tx (expire_stale_tx now chosen)
