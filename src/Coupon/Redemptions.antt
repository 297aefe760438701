-- ===== src/Coupon/Redemptions.antt =====
-- The statements on the redemptions and their refunds
-- (backend/services/coupon/internal/adapter/postgres/redemption_repo.go). `refunded_reason` is
-- NULL until a redemption is refunded in full, and the rows are read into a Go string.
use ec_test.Base.{
  ℕ, ◌+◌, ◌^◌, Bool, true, false, ◌&&◌, ◌||◌, Option, none, some, List, [], ◌∷◌, ◌==◌,
  if◌then◌else◌,
}
use ec_test.Base.Int.{ℤ, pos, ◌+ℤ◌, ◌-ℤ◌, leb_ℤ, ltb_ℤ}
use ec_test.Base.Tx.{ok, err}
use ec_test.Coupon.Domain.{CouponRedemption}
use ec_test.Coupon.Store.{
  Platform, M, Error, statement_failed, duplicate_redemption, duplicate_refund_event, commit_failed,
  is_some,
}

-- `result` is what the code does after a statement, if it has not failed; `handle` is what it does
-- about the failure `e`. If the database does not let the transaction go on, then it ends in an
-- error, whatever the code returns.
abbrev pub on_failure : {A B : Type 0} → Platform → (Error → Bool) → M A → M B → (A → M B) → M B
on_failure p is_handled statement handle result db = elim (statement db) [
  | ok (a, db') ↦ result a db'
  | err e ↦
      if is_handled e then (if p.survives_failure then handle db else err commit_failed) else err e
]

abbrev pub is_duplicate_redemption : Error → Bool
is_duplicate_redemption duplicate_redemption = true
is_duplicate_redemption _ = false

abbrev pub is_duplicate_refund_event : Error → Bool
is_duplicate_refund_event duplicate_refund_event = true
is_duplicate_refund_event _ = false

unfoldable pub find_redemption :
    (CouponRedemption → Bool) → List CouponRedemption → Option CouponRedemption
find_redemption test [] = none
find_redemption test (r ∷ rs) = if test r then some r else find_redemption test rs

abbrev pub has_coupon_and_order : ℕ → ℕ → CouponRedemption → Bool
has_coupon_and_order coupon_id order_id r = r.coupon_id == coupon_id && r.order_id == order_id

abbrev pub has_reservation : ℕ → CouponRedemption → Bool
has_reservation reservation_id r = r.reservation_id == reservation_id

abbrev pub has_id : ℕ → CouponRedemption → Bool
has_id id r = r.id == id

-- The row as the driver hands it over.
abbrev pub scan : Platform → Option CouponRedemption → M (Option CouponRedemption)
scan p none db = ok (none, db)
scan p (some r) db =
    if p.scans_null || is_some r.refunded_reason then ok (some r, db) else err statement_failed

-- `RedemptionRepository.GetByCouponAndOrder`
unfoldable pub get_by_coupon_and_order : Platform → ℕ → ℕ → M (Option CouponRedemption)
get_by_coupon_and_order p coupon_id order_id db =
    scan p (find_redemption (has_coupon_and_order coupon_id order_id) db.redemptions) db

-- `RedemptionRepository.GetByReservationID`
unfoldable pub get_by_reservation_id : Platform → ℕ → M (Option CouponRedemption)
get_by_reservation_id p reservation_id db =
    scan p (find_redemption (has_reservation reservation_id) db.redemptions) db

-- `RedemptionRepository.Insert`, with the primary key and the UNIQUE key of the table. A violation
-- of either is reported as a duplicate, since `isDuplicateRedemption` reads the table's name.
unfoldable pub insert_redemption : CouponRedemption → M (Unit {0})
insert_redemption r db =
    if is_some (find_redemption (has_coupon_and_order r.coupon_id r.order_id) db.redemptions)
      || is_some (find_redemption (has_id r.id) db.redemptions)
    then err duplicate_redemption
    else ok (tt, record db { redemptions = r ∷ db.redemptions })

-- `RedemptionRepository.CountByBuyerAndCoupon`
unfoldable pub count_by_buyer_and_coupon : ℕ → ℕ → List CouponRedemption → ℕ
count_by_buyer_and_coupon buyer coupon_id [] = 0
count_by_buyer_and_coupon buyer coupon_id (r ∷ rs) =
    (if r.buyer_auth0_id == buyer && r.coupon_id == coupon_id then 1 else 0)
    + count_by_buyer_and_coupon buyer coupon_id rs

unfoldable pub has_event : ℕ → ℕ → List (ℕ × ℕ) → Bool
has_event redemption_id order_id [] = false
has_event redemption_id order_id ((r, o) ∷ es) =
    (r == redemption_id && o == order_id) || has_event redemption_id order_id es

-- `RedemptionRepository.InsertRefundEvent`, with the CHECK on the share and the UNIQUE key.
unfoldable pub insert_refund_event : ℕ → ℕ → ℤ → M (Unit {0})
unfolding has_event
insert_refund_event redemption_id order_id share db =
    if ltb_ℤ share (pos 0)
    then err statement_failed
    else if has_event redemption_id order_id db.refund_events
    then err duplicate_refund_event
    else ok (tt, record db { refund_events = (redemption_id, order_id) ∷ db.refund_events })

-- An UPDATE of the redemption with this id.
unfoldable pub update_redemption :
    ℕ → (CouponRedemption → CouponRedemption) → List CouponRedemption → List CouponRedemption
update_redemption id f [] = []
update_redemption id f (r ∷ rs) = if r.id == id then f r ∷ rs else r ∷ update_redemption id f rs

abbrev pub least : ℤ → ℤ → ℤ
least a b = if ltb_ℤ b a then b else a

-- The SET of `ApplyPartialRefund`.
unfoldable pub refund_by : ℤ → ℕ → ℕ → CouponRedemption → CouponRedemption
refund_by share reason now r =
    let total = least (r.refunded_amount +ℤ share) r.discount_applied in
    record r {
      refunded_amount = total;
      refunded_at = if leb_ℤ r.discount_applied total then some now else none;
      refunded_reason = if leb_ℤ r.discount_applied total then some reason else r.refunded_reason;
    }

pub record Applied : Type 0 where
  pub applied : ℤ
  pub fully_refunded : Bool
  pub already_full : Bool

-- The CHECK on the refunded amount, and the range of the sum as a BIGINT.
abbrev pub check_refund : CouponRedemption → ℤ → Bool
check_refund r share =
    let total = least (r.refunded_amount +ℤ share) r.discount_applied in
    leb_ℤ (pos 0) total && ltb_ℤ (r.refunded_amount +ℤ share) (pos (2 ^ 63))

-- The body of `ApplyPartialRefund` on the row that it found.
unfoldable pub refund_row : ℤ → ℕ → ℕ → CouponRedemption → M Applied
unfolding refund_by
refund_row share reason now r db =
    let total = least (r.refunded_amount +ℤ share) r.discount_applied in
    if is_some r.refunded_at
    then ok (record { applied = pos 0; fully_refunded = false; already_full = true }, db)
    else if check_refund r share
    then ok (
      record {
        applied = total -ℤ r.refunded_amount;
        fully_refunded = leb_ℤ r.discount_applied total;
        already_full = false;
      },
      record db {
        redemptions = update_redemption r.id (refund_by share reason now) db.redemptions;
      },
    )
    else err statement_failed

-- `RedemptionRepository.ApplyPartialRefund`
unfoldable pub apply_partial_refund : ℕ → ℤ → ℕ → ℕ → M Applied
unfolding refund_row
apply_partial_refund redemption_id share reason now db =
    if leb_ℤ share (pos 0)
    then ok (record { applied = pos 0; fully_refunded = false; already_full = false }, db)
    else elim (find_redemption (has_id redemption_id) db.redemptions) [
      | none ↦ err statement_failed
      | some r ↦ refund_row share reason now r db
    ]
