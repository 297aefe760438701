-- ===== src/Coupon/Domain.antt =====
-- The types of the coupon service (backend/services/coupon/internal/domain/coupon.go), and the
-- discount of a coupon. Uuids and texts are numbers; 0 is the empty text and the nil uuid. A time
-- is a number, and 0 is the zero time. What no code reads is left out: the description, the Stripe
-- id, the order candidate and the stamps created_at, updated_at, committed_at and released_at.
use ec_test.Base.{ℕ, Bool, true, false, not, ◌&&◌, Option, none, some, ◌==◌, ltb, if◌then◌else◌}
use ec_test.Base.Int.{ℤ, pos, leb_ℤ, ltb_ℤ, mul64, quot64}

-- The Go types are texts; the last constructors are the empty text and any other.
pub data IssuerType : Type 0 where
  platform seller no_issuer other_issuer : IssuerType

pub data DiscountType : Type 0 where
  percent fixed_amount other_discount : DiscountType

pub data CouponStatus : Type 0 where
  active revoked : CouponStatus

pub data ReservationStatus : Type 0 where
  pending committed released expired : ReservationStatus

pub record Coupon : Type 0 where
  pub id : ℕ
  pub code : ℕ
  pub issuer_type : IssuerType
  pub issuer_id : Option ℕ
  pub discount_type : DiscountType
  pub discount_percent_bps : Option ℤ
  pub discount_amount : Option ℤ
  pub currency : ℕ
  pub min_order_amount : ℤ
  pub max_discount_amount : Option ℤ
  pub valid_from : ℕ
  pub expires_at : Option ℕ
  pub usage_limit_total : Option ℤ
  pub usage_limit_per_user : Option ℤ
  pub usage_count : ℕ
  pub status : CouponStatus
  pub title : ℕ

pub record CouponReservation : Type 0 where
  pub id : ℕ
  pub coupon_id : ℕ
  pub buyer_auth0_id : ℕ
  pub discount_amount : ℤ
  pub currency : ℕ
  pub applicable_seller_id : Option ℕ
  pub status : ReservationStatus
  pub expires_at : ℕ

pub record CouponRedemption : Type 0 where
  pub id : ℕ
  pub coupon_id : ℕ
  pub buyer_auth0_id : ℕ
  pub order_id : ℕ
  pub discount_applied : ℤ
  pub refunded_amount : ℤ
  pub reservation_id : ℕ
  pub refunded_at : Option ℕ
  pub refunded_reason : Option ℕ

pub record SellerSubtotal : Type 0 where
  pub seller_id : ℕ
  pub subtotal : ℤ

abbrev pub is_revoked : CouponStatus → Bool
is_revoked active = false
is_revoked revoked = true

abbrev pub is_fixed : DiscountType → Bool
is_fixed fixed_amount = true
is_fixed _ = false

-- The constants compare by a number each.
abbrev pub status_code : ReservationStatus → ℕ
status_code pending = 0
status_code committed = 1
status_code released = 2
status_code expired = 3

abbrev pub is_pending : ReservationStatus → Bool
is_pending s = status_code s == 0

abbrev pub at_most : Option ℤ → ℤ → ℤ
at_most none d = d
at_most (some limit) d = if ltb_ℤ limit d then limit else d

-- The `switch` of `ComputeDiscount`. Its early returns of 0 pass the two tests after it.
abbrev pub nominal_discount : DiscountType → Coupon → ℤ → ℤ
nominal_discount fixed_amount c subtotal = elim c.discount_amount [ none ↦ pos 0 | some d ↦ d ]
nominal_discount percent c subtotal = elim c.discount_percent_bps [
  | none ↦ pos 0
  | some bps ↦ at_most c.max_discount_amount (quot64 (mul64 subtotal bps) 10000)
]
nominal_discount other_discount c subtotal = pos 0

-- The two tests at the end of `ComputeDiscount`.
abbrev pub clamp_discount : ℤ → ℤ → ℤ
clamp_discount subtotal d =
    let capped = if ltb_ℤ subtotal d then subtotal else d in
    if ltb_ℤ capped (pos 0) then pos 0 else capped

-- `Coupon.ComputeDiscount`
unfoldable pub compute_discount : Coupon → ℤ → ℤ
compute_discount c subtotal =
    if leb_ℤ subtotal (pos 0)
    then pos 0
    else clamp_discount subtotal (nominal_discount c.discount_type c subtotal)

abbrev pub is_past : ℕ → Option ℕ → Bool
is_past now none = false
is_past now (some t) = ltb t now

-- `Coupon.IsWithinValidity`
unfoldable pub is_within_validity : Coupon → ℕ → Bool
is_within_validity c now =
    not (not (c.valid_from == 0) && ltb now c.valid_from) && not (is_past now c.expires_at)
