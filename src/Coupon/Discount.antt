-- ===== src/Coupon/Discount.antt =====
-- What a coupon takes off (`ComputeDiscount` of
-- backend/services/coupon/internal/domain/coupon.go).
use ec_test.Base.{◌≡◌, true, false, if◌then◌else◌, Bool-cases, inl, inr, arith}
use ec_test.Base.Int.{ℤ, pos, negsuc, leb_ℤ, ◌≤ℤ◌}
use ec_test.Coupon.Domain.{Coupon, compute_discount, clamp_discount, nominal_discount}

-- A subtotal as a bound: at least 0.
abbrev pub ceiling : ℤ → ℤ
ceiling subtotal = if leb_ℤ subtotal (pos 0) then pos 0 else subtotal

clamp_discount-bounds :
    (subtotal d : ℤ)
    → leb_ℤ subtotal (pos 0) ≡ false
    → (pos 0 ≤ℤ clamp_discount subtotal d) × (clamp_discount subtotal d ≤ℤ subtotal)
clamp_discount-bounds (pos n) (pos m) h = (ground arith, ground arith)
clamp_discount-bounds (pos n) (negsuc m) h = (ground arith, ground arith)
clamp_discount-bounds (negsuc n) d h =
    let bad : leb_ℤ (negsuc n) (pos 0) ≡ true = ground arith in cc

-- Whatever the coupon says, an overflow of the product included, the discount is at least 0 and at
-- most the subtotal, and it is 0 if the subtotal is not positive.
pub compute_discount-bounds :
    (c : Coupon) (subtotal : ℤ)
    → (pos 0 ≤ℤ compute_discount c subtotal) × (compute_discount c subtotal ≤ℤ ceiling subtotal)
unfolding compute_discount
compute_discount-bounds c subtotal = elim (Bool-cases (leb_ℤ subtotal (pos 0))) [
  | inl small ↦ rw small (omega arith, omega arith)
  | inr large ↦
      rw large (clamp_discount-bounds subtotal (nominal_discount c.discount_type c subtotal) large)
]
