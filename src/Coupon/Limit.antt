-- ===== src/Coupon/Limit.antt =====
-- What a reservation of a coupon promises (`ReserveCoupon` of
-- backend/services/coupon/internal/app/coupon_service.go).
use ec_test.Base.{
  ℕ, ◌+◌, ◌^◌, ◌≡◌, refl, ap, ◌∙◌, Bool, true, false, Option, none, some, List, [], ◌∷◌, ◌==◌, ltb,
  arith, Bool-cases, inl, inr,
}
use ec_test.Base.Int.{ℤ, pos, negsuc, ltb_ℤ, leb_ℤ}
use ec_test.Base.Tx.{Result, ok, err, commit_or_roll_back}
use ec_test.Base.Ensures.{
  Ensures, Ensures-bind, Ensures-case, Ensures-branch, Ensures-pure, Ensures-err, Ensures-guard,
  any-Ensures,
}
use ec_test.Coupon.Domain.{Coupon, CouponReservation, SellerSubtotal, compute_discount}
use ec_test.Coupon.Store.{
  Platform, Db, Error, find_coupon, update_coupon_row, use_once, below_limit,
  increment_usage_if_below_limit, insert_reservation,
}
use ec_test.Coupon.Rules.{map_error-Ensures}
use ec_test.Coupon.Reserve.{
  reserve_coupon, reserve_coupon_tx, resolve_coupon, hold_coupon, held_row, Resolved, reply_of,
  map_domain_error, limit_error,
}

abbrev is_within : Option Coupon → Bool
is_within none = false
is_within (some c) = elim c.usage_limit_total [
  | none ↦ true
  | some limit ↦ leb_ℤ (pos c.usage_count) limit
]

within-below :
    (limit : Option ℤ) (n : ℕ)
    → below_limit limit n ≡ true
    → elim limit as (λ _. Bool) [ none ↦ true | some l ↦ leb_ℤ (pos (n + 1)) l ] ≡ true
within-below none n h = refl
within-below (some (pos m)) n h = ground arith
within-below (some (negsuc m)) n h = ground arith

find-use_once :
    (id : ℕ) (cs : List Coupon) (c : Coupon)
    → find_coupon id cs ≡ some c
    → is_within (find_coupon id (update_coupon_row id use_once cs)) ≡ is_within (some (use_once c))
unfolding find_coupon update_coupon_row
find-use_once id [] c h = cc
find-use_once id (x ∷ cs) c h = elim (Bool-cases (x.id == id)) [
  | inl here ↦
      let found : some x ≡ some c = rw here at h in
      let e : x ≡ c = cc in rw (here, here) (ap (λ y. is_within (some (use_once y))) e)
  | inr later ↦ rw (later, later) (find-use_once id cs c (rw later at h))
]

-- What holds of the tables after the count went up.
abbrev IsCounted : ℕ → Db → Type 0
IsCounted id db = is_within (find_coupon id db.coupons) ≡ true

increment-IsCounted :
    (id : ℕ) (db : Db) → Ensures (λ _ db'. IsCounted id db') (increment_usage_if_below_limit id db)
unfolding increment_usage_if_below_limit
increment-IsCounted id db =
    Ensures-case (find_coupon id db.coupons) _ _ (λ _. Ensures-err _)
      (λ c found.
        Ensures-branch (below_limit c.usage_limit_total c.usage_count) _ _
          (λ below.
            Ensures-branch (ltb (c.usage_count + 1) (2 ^ 31)) _ _
              (λ _. Ensures-pure tt _ (
                find-use_once id db.coupons c found
                ∙ within-below c.usage_limit_total c.usage_count below))
              (λ _. Ensures-err _))
          (λ _. Ensures-err _))

insert_reservation-IsCounted :
    (r : CouponReservation) (db : Db)
    → IsCounted r.coupon_id db
    → Ensures (λ _ db'. IsCounted r.coupon_id db') (insert_reservation r db)
unfolding insert_reservation
insert_reservation-IsCounted r db h =
    Ensures-branch (leb_ℤ (pos 0) r.discount_amount) _ _ (λ _. Ensures-pure tt _ h)
      (λ _. Ensures-err _)

-- The row that the call answers with.
abbrev IsSold : CouponReservation → Db → Type 0
IsSold row db = (ltb_ℤ (pos 0) row.discount_amount ≡ true) × IsCounted row.coupon_id db

hold_coupon-IsSold :
    (r : Resolved) (buyer id expires_at : ℕ) (db : Db)
    → Ensures (λ row db'. IsSold row db') (hold_coupon r buyer id expires_at db)
unfolding hold_coupon
hold_coupon-IsSold r buyer id expires_at db =
    let discount = compute_discount r.coupon r.applicable_subtotal in
    Ensures-bind _ (Ensures-guard {P = λ _. Unit {0}} (ltb_ℤ (pos 0) discount) _ db tt)
      λ _ db1 (positive, _).
        Ensures-bind _
          (map_error-Ensures limit_error (increment_usage_if_below_limit r.coupon.id db1)
            (increment-IsCounted r.coupon.id db1))
          λ _ db2 h2.
            Ensures-bind _
              (insert_reservation-IsCounted (held_row r buyer discount id expires_at) db2 h2)
              λ _ db3 h3. Ensures-pure (held_row r buyer discount id expires_at) db3 (positive, h3)

reserve_coupon_tx-IsSold :
    (p : Platform) (ttl code buyer : ℕ) (ss : List SellerSubtotal) (currency id now : ℕ) (db : Db)
    → Ensures (λ row db'. IsSold row db') (reserve_coupon_tx p ttl code buyer ss currency id now db)
unfolding reserve_coupon_tx
reserve_coupon_tx-IsSold p ttl code buyer ss currency id now db =
    Ensures-bind _ (any-Ensures (resolve_coupon p code buyer ss currency now db))
      λ r db1 _. hold_coupon-IsSold r buyer id (now + ttl) db1

-- The answer of a reservation, and the tables that it leaves.
abbrev pub IsReserved : Db → Result Error CouponReservation × Db → Type 0
IsReserved db (ok row, db') = IsSold row db'
IsReserved db (err e, db') = db' ≡ db

-- A reservation that succeeds takes off more than 0, and the usage count that it leaves for its
-- coupon is within the total limit, if the coupon has one; a reservation that fails leaves the tables.
pub reserve_coupon-IsReserved :
    (p : Platform) (ttl code buyer : ℕ) (ss : List SellerSubtotal) (currency id now : ℕ) (db : Db)
    → IsReserved db (reserve_coupon p ttl code buyer ss currency id now db)
unfolding reserve_coupon
reserve_coupon-IsReserved p ttl code buyer ss currency id now db =
    by_result (reserve_coupon_tx p ttl code buyer ss currency id now db)
      (reserve_coupon_tx-IsSold p ttl code buyer ss currency id now db)
  where
    by_result :
        (x : Result Error (CouponReservation × Db))
        → Ensures (λ row db'. IsSold row db') x
        → IsReserved db (reply_of map_domain_error (commit_or_roll_back db x))
    by_result (ok (row, db')) h = h.holds
    by_result (err e) h = refl
