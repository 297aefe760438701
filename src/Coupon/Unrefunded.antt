-- ===== src/Coupon/Unrefunded.antt =====
-- No refund has happened, while the statements and calls on coupons and reservations run
-- (backend/services/coupon/internal/app/coupon_service.go, adapter/postgres).
use ec_test.Base.{
  ℕ, zero, suc, ◌≡◌, sym, subst, Bool, false, Option, none, some, List, [], ◌∷◌, ltb, ◌+◌, ◌^◌,
  arith, Bool-cases, Option-cases, inl, inr,
}
use ec_test.Base.Int.{pos, ltb_ℤ, leb_ℤ}
use ec_test.Base.Ensures.{
  Ensures, Ensures-bind, Ensures-pure, Ensures-err, Ensures-option, Ensures-if, Ensures-branch,
  Ensures-case, Ensures-guard,
}
use ec_test.Coupon.Domain.{
  CouponReservation, CouponRedemption, ReservationStatus, SellerSubtotal, pending, released,
  is_pending, compute_discount,
}
use ec_test.Coupon.Store.{
  Platform, Db, find_coupon, find_reservation, is_some, is_stale, below_limit, check_coupon_row,
  insert_coupon, increment_usage_if_below_limit, decrement_usage, insert_reservation, update_status,
  claim_expired,
}
use ec_test.Coupon.Redemptions.{find_redemption}
use ec_test.Coupon.Reserve.{
  reserve_coupon_tx, hold_coupon, release_found, release_reservation_tx, free_seats,
  expire_stale_tx, Resolved, held_row, limit_error, batch_size,
}
use ec_test.Coupon.Admin.{CreateCouponInput, new_coupon}
use ec_test.Coupon.Rules.{map_error-Ensures}
use ec_test.Coupon.Reads.{resolve_coupon-Reads}

-- Rows that say of no refund.
abbrev pub AreUnrefunded : List CouponRedemption → Type 0
AreUnrefunded [] = Unit {0}
AreUnrefunded (r ∷ rs) =
    (is_some r.refunded_reason ≡ false) × (r.refunded_amount ≡ pos 0) × AreUnrefunded rs

-- No refund has happened.
abbrev pub IsUnrefunded : Db → Type 0
IsUnrefunded db = AreUnrefunded db.redemptions × (db.refund_events ≡ [])

pub find-unrefunded :
    (q : CouponRedemption → Bool) (rs : List CouponRedemption) (r : CouponRedemption)
    → AreUnrefunded rs
    → find_redemption q rs ≡ some r
    → is_some r.refunded_reason ≡ false
unfolding find_redemption
find-unrefunded q [] r h f = ground (arith, f)
find-unrefunded q (x ∷ rs) r h f = elim (Bool-cases (q x)) [
  | inl c ↦
      let same : some x ≡ some r = ground (arith, c, f) in
      subst (λ o. row_reason o ≡ false) same h.0
  | inr c ↦ find-unrefunded q rs r h.2 (ground (arith, c, f))
]
  where
    row_reason : Option CouponRedemption → Bool
    row_reason none = false
    row_reason (some y) = is_some y.refunded_reason

-- The statements on the other tables.
decrement-keeps :
    (id : ℕ) (db : Db)
    → IsUnrefunded db
    → Ensures (λ _ db'. IsUnrefunded db') (decrement_usage id db)
unfolding decrement_usage
decrement-keeps id db h = Ensures-pure _ _ h

increment-keeps :
    (id : ℕ) (db : Db)
    → IsUnrefunded db
    → Ensures (λ _ db'. IsUnrefunded db') (increment_usage_if_below_limit id db)
unfolding increment_usage_if_below_limit
increment-keeps id db h =
    Ensures-case (find_coupon id db.coupons) _ _ (λ _. Ensures-err _)
      (λ c _.
        Ensures-branch (below_limit c.usage_limit_total c.usage_count) _ _
          (λ _.
            Ensures-branch (ltb (c.usage_count + 1) (2 ^ 31)) _ _ (λ _. Ensures-pure _ _ h)
              (λ _. Ensures-err _))
          (λ _. Ensures-err _))

insert_reservation-keeps :
    (r : CouponReservation) (db : Db)
    → IsUnrefunded db
    → Ensures (λ _ db'. IsUnrefunded db') (insert_reservation r db)
unfolding insert_reservation
insert_reservation-keeps r db h =
    Ensures-branch (leb_ℤ (pos 0) r.discount_amount) _ _ (λ _. Ensures-pure _ _ h)
      (λ _. Ensures-err _)

pub update_status-keeps :
    (id : ℕ) (expect next : ReservationStatus) (db : Db)
    → IsUnrefunded db
    → Ensures (λ _ db'. IsUnrefunded db') (update_status id expect next db)
unfolding update_status
update_status-keeps id expect next db h = Ensures-pure _ _ h

claim_expired-keeps :
    (now limit : ℕ) (chosen : List ℕ) (db : Db)
    → IsUnrefunded db
    → Ensures (λ _ db'. IsUnrefunded db') (claim_expired now limit chosen db)
unfolding claim_expired
claim_expired-keeps now zero chosen db h = Ensures-pure _ db h
claim_expired-keeps now (suc limit) [] db h = Ensures-pure _ db h
claim_expired-keeps now (suc limit) (id ∷ chosen) db h =
    let skipped = claim_expired-keeps now (suc limit) chosen db h in
    elim (Option-cases (find_reservation id db.reservations)) [
      | inl missing ↦ rw (missing, claim_expired) skipped
      | inr (r, found) ↦ elim (Bool-cases (is_stale now r)) [
        | inl stale ↦
            rw (found, stale, claim_expired)
              (Ensures-bind _ (claim_expired-keeps now limit chosen _ h)
                λ rows db' h'. Ensures-pure _ db' h')
        | inr fresh ↦ rw (found, fresh, claim_expired) skipped
      ]
    ]

free_seats-keeps :
    (rows : List CouponReservation) (db : Db)
    → IsUnrefunded db
    → Ensures (λ _ db'. IsUnrefunded db') (free_seats rows db)
unfolding free_seats
free_seats-keeps [] db h = Ensures-pure _ db h
free_seats-keeps (r ∷ rs) db h =
    Ensures-bind _ (decrement-keeps r.coupon_id db h) λ _ db' h'. free_seats-keeps rs db' h'

pub expire_stale_tx-keeps :
    (now : ℕ) (chosen : List ℕ) (db : Db)
    → IsUnrefunded db
    → Ensures (λ _ db'. IsUnrefunded db') (expire_stale_tx now chosen db)
unfolding expire_stale_tx
expire_stale_tx-keeps now chosen db h =
    Ensures-bind _ (claim_expired-keeps now batch_size chosen db h)
      λ rows db1 h1. Ensures-bind _ (free_seats-keeps rows db1 h1) λ _ db2 h2. Ensures-pure _ db2 h2

release_found-keeps :
    (id : ℕ) (r : CouponReservation) (db : Db)
    → IsUnrefunded db
    → Ensures (λ _ db'. IsUnrefunded db') (release_found id r db)
unfolding release_found
release_found-keeps id r db h =
    Ensures-if _ _ db (is_pending r.status)
      (λ _. Ensures-bind _ (update_status-keeps id pending released db h) λ changed db1 h1.
        Ensures-if _ _ db1 changed
          (λ _.
            Ensures-bind _ (decrement-keeps r.coupon_id db1 h1) λ _ db2 h2. Ensures-pure _ db2 h2)
          (λ _. Ensures-pure _ db1 h1))
      (λ _. Ensures-pure _ db h)

pub release_reservation_tx-keeps :
    (id : ℕ) (db : Db)
    → IsUnrefunded db
    → Ensures (λ _ db'. IsUnrefunded db') (release_reservation_tx id db)
unfolding release_reservation_tx
release_reservation_tx-keeps id db h =
    Ensures-option _ _ db (find_reservation id db.reservations) (λ _. Ensures-err _)
      (λ r _. release_found-keeps id r db h)

hold_coupon-keeps :
    (r : Resolved) (buyer id expires_at : ℕ) (db : Db)
    → IsUnrefunded db
    → Ensures (λ _ db'. IsUnrefunded db') (hold_coupon r buyer id expires_at db)
unfolding hold_coupon
hold_coupon-keeps r buyer id expires_at db h =
    let discount = compute_discount r.coupon r.applicable_subtotal in
    Ensures-bind _ (Ensures-guard {P = IsUnrefunded} (ltb_ℤ (pos 0) discount) _ db h)
      λ _ db1 (_, h1).
        Ensures-bind _
          (map_error-Ensures limit_error (increment_usage_if_below_limit r.coupon.id db1)
            (increment-keeps r.coupon.id db1 h1))
          λ _ db2 h2.
            Ensures-bind _
              (insert_reservation-keeps (held_row r buyer discount id expires_at) db2 h2)
              λ _ db3 h3. Ensures-pure _ db3 h3

pub reserve_coupon_tx-keeps :
    (p : Platform) (ttl code buyer : ℕ) (ss : List SellerSubtotal) (currency id now : ℕ) (db : Db)
    → IsUnrefunded db
    → Ensures (λ _ db'. IsUnrefunded db') (reserve_coupon_tx p ttl code buyer ss currency id now db)
unfolding reserve_coupon_tx
reserve_coupon_tx-keeps p ttl code buyer ss currency id now db h =
    Ensures-bind _ ((resolve_coupon-Reads p code buyer ss currency now).reads db)
      λ r db1 same. hold_coupon-keeps r buyer id (now + ttl) db1 (subst IsUnrefunded (sym same) h)

pub insert_coupon-keeps :
    (p : Platform) (i : CreateCouponInput) (id now : ℕ) (db : Db)
    → IsUnrefunded db
    → Ensures (λ _ db'. IsUnrefunded db') (insert_coupon p (new_coupon p i id now) db)
unfolding insert_coupon
insert_coupon-keeps p i id now db h =
    Ensures-branch (check_coupon_row p (new_coupon p i id now) db) _ _ (λ _. Ensures-pure _ _ h)
      (λ _. Ensures-err _)
