-- ===== src/Coupon/Admin.antt =====
-- Creating, changing, revoking and counting coupons: `CreateCoupon`, `UpdateCoupon`,
-- `RevokeCoupon` and `GetCouponStats` of
-- backend/services/coupon/internal/app/coupon_service.go.
use ec_test.Base.{
  ℕ, ◌+◌, Bool, true, false, not, ◌&&◌, Option, none, some, List, [], ◌∷◌, ◌==◌, if◌then◌else◌,
}
use ec_test.Base.Int.{ℤ, pos, ◌+ℤ◌, leb_ℤ, ltb_ℤ}
use ec_test.Base.Tx.{Result, ok, err, pure, run_tx, ◌>>◌}
use ec_test.Coupon.Domain.{
  IssuerType, platform, seller, no_issuer, other_issuer, DiscountType, percent, fixed_amount,
  active, revoked, Coupon, CouponReservation, CouponRedemption, is_revoked, is_fixed, is_pending,
}
use ec_test.Coupon.Store.{
  Platform, Db, Error, bad_request, internal, coupon_not_found, insert_coupon, find_coupon,
  update_coupon_row, is_some,
}
use ec_test.Coupon.Reserve.{jpy, reply_of}

pub record CreateCouponInput : Type 0 where
  pub code : ℕ
  pub issuer_type : IssuerType
  pub issuer_id : Option ℕ
  pub discount_type : DiscountType
  pub discount_percent_bps : Option ℤ
  pub discount_amount : Option ℤ
  pub currency : ℕ
  pub min_order_amount : ℤ
  pub max_discount_amount : Option ℤ
  pub valid_from : Option ℕ
  pub expires_at : Option ℕ
  pub usage_limit_total : Option ℤ
  pub usage_limit_per_user : Option ℤ
  pub title : ℕ

-- The empty issuer type counts as the platform here; the input itself is not changed.
abbrev pub check_issuer_input : IssuerType → Option ℕ → Bool
check_issuer_input platform id = true
check_issuer_input no_issuer id = true
check_issuer_input seller id = is_some id
check_issuer_input other_issuer id = false

abbrev pub check_discount_input : DiscountType → Option ℤ → Option ℤ → Bool
check_discount_input percent (some bps) none =
    not (leb_ℤ bps (pos 0)) && not (ltb_ℤ (pos 10000) bps)
check_discount_input fixed_amount none (some amount) = not (leb_ℤ amount (pos 0))
check_discount_input _ _ _ = false

abbrev pub is_positive_if_set : Option ℤ → Bool
is_positive_if_set none = true
is_positive_if_set (some n) = not (leb_ℤ n (pos 0))

abbrev pub is_nonneg_if_set : Option ℤ → Bool
is_nonneg_if_set none = true
is_nonneg_if_set (some n) = not (ltb_ℤ n (pos 0))

-- `validateCreateInput`: every refusal is a bad request.
unfoldable pub validate_create_input : Platform → CreateCouponInput → Bool
validate_create_input p i =
    not (p.trim_space i.code == 0)
    && check_issuer_input i.issuer_type i.issuer_id
    && check_discount_input i.discount_type i.discount_percent_bps i.discount_amount
    && not (ltb_ℤ i.min_order_amount (pos 0))
    && is_positive_if_set i.usage_limit_total
    && is_positive_if_set i.usage_limit_per_user

abbrev pub or_else : Option ℕ → ℕ → ℕ
or_else none n = n
or_else (some t) n = t

abbrev pub new_coupon : Platform → CreateCouponInput → ℕ → ℕ → Coupon
new_coupon p i id now = record {
  id = id;
  code = p.trim_space i.code;
  issuer_type = i.issuer_type;
  issuer_id = i.issuer_id;
  discount_type = i.discount_type;
  discount_percent_bps = i.discount_percent_bps;
  discount_amount = i.discount_amount;
  currency = if i.currency == 0 then jpy else i.currency;
  min_order_amount = i.min_order_amount;
  max_discount_amount = i.max_discount_amount;
  valid_from = or_else i.valid_from now;
  expires_at = i.expires_at;
  usage_limit_total = i.usage_limit_total;
  usage_limit_per_user = i.usage_limit_per_user;
  usage_count = 0;
  status = active;
  title = i.title;
}

abbrev pub all_internal : Error → Error
all_internal e = internal

-- `Service.CreateCoupon`, with a fresh uuid; `coupon.issued` is published on success.
unfoldable pub create_coupon : Platform → CreateCouponInput → ℕ → ℕ → Db → Result Error Coupon × Db
unfolding validate_create_input
create_coupon p i id now db =
    if validate_create_input p i
    then reply_of all_internal
        (run_tx (do insert_coupon p (new_coupon p i id now); pure (new_coupon p i id now)) db)
    else (err bad_request, db)

pub record UpdateCouponInput : Type 0 where
  pub title : ℕ
  pub min_order_amount : ℤ
  pub max_discount_amount : Option ℤ
  pub expires_at : Option ℕ
  pub usage_limit_total : Option ℤ
  pub usage_limit_per_user : Option ℤ

unfoldable pub validate_update_input : Platform → UpdateCouponInput → Bool
validate_update_input p i =
    not (p.trim_space i.title == 0)
    && not (ltb_ℤ i.min_order_amount (pos 0))
    && is_nonneg_if_set i.max_discount_amount
    && is_positive_if_set i.usage_limit_total
    && is_positive_if_set i.usage_limit_per_user

-- The SET of `CouponRepository.Update`; a fixed amount has no maximum.
abbrev pub patched : UpdateCouponInput → Bool → Coupon → Coupon
patched i fixed c = record c {
  title = i.title;
  min_order_amount = i.min_order_amount;
  max_discount_amount = if fixed then none else i.max_discount_amount;
  expires_at = i.expires_at;
  usage_limit_total = i.usage_limit_total;
  usage_limit_per_user = i.usage_limit_per_user;
}

-- A statement of its own on the coupon with this id, and the row after it.
abbrev pub change_coupon : ℕ → (Coupon → Coupon) → Db → Db
change_coupon id f db = record db { coupons = update_coupon_row id f db.coupons }

abbrev pub found_or_not :
    Option Coupon → (Coupon → Result Error Coupon × Db) → Db → Result Error Coupon × Db
found_or_not none f db = (err coupon_not_found, db)
found_or_not (some c) f db = f c

-- `Service.UpdateCoupon`. The row that is found is there at the update, for no code deletes one.
unfoldable pub update_coupon : Platform → ℕ → UpdateCouponInput → Db → Result Error Coupon × Db
unfolding validate_update_input
update_coupon p id i db =
    if validate_update_input p i
    then found_or_not (find_coupon id db.coupons)
        (λ c. (
          ok (patched i (is_fixed c.discount_type) c),
          change_coupon id (patched i (is_fixed c.discount_type)) db,
        ))
        db
    else (err bad_request, db)

-- `Service.RevokeCoupon`; `coupon.revoked` is published if the coupon was active.
unfoldable pub revoke_coupon : ℕ → Db → Result Error Coupon × Db
revoke_coupon id db =
    found_or_not (find_coupon id db.coupons)
      (λ c. if is_revoked c.status then (ok c, db) else (
        ok (record c { status = revoked }),
        change_coupon id (λ c. record c { status = revoked }) db,
      ))
      db

-- `CountPendingByCoupon`
unfoldable pub count_pending_by_coupon : ℕ → List CouponReservation → ℕ
count_pending_by_coupon coupon_id [] = 0
count_pending_by_coupon coupon_id (r ∷ rs) =
    (if r.coupon_id == coupon_id && is_pending r.status then 1 else 0)
    + count_pending_by_coupon coupon_id rs

-- The two columns of `StatsByCoupon`.
unfoldable pub redeemed_count : ℕ → List CouponRedemption → ℕ
redeemed_count coupon_id [] = 0
redeemed_count coupon_id (r ∷ rs) =
    (if r.coupon_id == coupon_id then 1 else 0) + redeemed_count coupon_id rs

unfoldable pub total_discount : ℕ → List CouponRedemption → ℤ
total_discount coupon_id [] = pos 0
total_discount coupon_id (r ∷ rs) =
    (if r.coupon_id == coupon_id then r.discount_applied else pos 0) +ℤ total_discount coupon_id rs

pub record CouponStats : Type 0 where
  pub coupon_id : ℕ
  pub redeemed_count : ℕ
  pub total_discount_applied : ℤ
  pub pending_reservation_count : ℕ

-- `Service.GetCouponStats`
unfoldable pub get_coupon_stats : ℕ → Db → Result Error CouponStats
unfolding redeemed_count total_discount count_pending_by_coupon
get_coupon_stats id db = elim (find_coupon id db.coupons) [
  | none ↦ err coupon_not_found
  | some c ↦ ok (record {
    coupon_id = id;
    redeemed_count = redeemed_count id db.redemptions;
    total_discount_applied = total_discount id db.redemptions;
    pending_reservation_count = count_pending_by_coupon id db.reservations;
  })
]
