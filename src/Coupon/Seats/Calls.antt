-- ===== src/Coupon/Seats/Calls.antt =====
-- The calls of the coupon service, and the seats that they take and free
-- (backend/services/coupon/internal/app/coupon_service.go).
use ec_test.Base.{ℕ, ◌+◌, ◌≡◌, refl, sym, subst, some, List, [], ◌∷◌, arith}
use ec_test.Base.Int.{pos, ltb_ℤ}
use ec_test.Base.Ensures.{
  Ensures-map, Ensures, Ensures-bind, Ensures-pure, Ensures-err, Ensures-option, Ensures-if,
  Ensures-guard,
}
use ec_test.Coupon.Domain.{
  CouponReservation, SellerSubtotal, released, is_pending, compute_discount,
}
use ec_test.Coupon.Store.{Platform, Db, find_reservation, increment_usage_if_below_limit}
use ec_test.Coupon.Reserve.{
  reserve_coupon_tx, hold_coupon, release_found, release_reservation_tx, free_seats,
  expire_stale_tx, Resolved, held_row, map_error, limit_error, batch_size,
}
use ec_test.Coupon.Rules.{map_error-Ensures}
use ec_test.Coupon.Reads.{resolve_coupon-Reads}
use ec_test.Coupon.Seats.{one}
use ec_test.Coupon.Seats.Statements.{
  IsAhead, cast, claimed, increment-IsAhead, decrement-IsAhead, insert_reservation-IsAhead,
  update_status-IsAhead, claim_expired-IsAhead,
}

module _ (k : ℕ) where
  -- The count of the coupon is the number of its taken seats.
  abbrev pub IsSeated : Db → Type 0
  IsSeated db = IsAhead k 0 db

  free_seats-IsSeated :
      (rows : List CouponReservation) (db : Db)
      → IsAhead k (claimed k rows) db
      → Ensures (λ _ db'. IsSeated db') (free_seats rows db)
  unfolding free_seats claimed
  free_seats-IsSeated [] db h = Ensures-pure _ db h
  free_seats-IsSeated (r ∷ rs) db h =
      Ensures-bind _ (decrement-IsAhead k r.coupon_id (claimed k rs) db (cast k h (omega arith)))
        (λ _ db' h'. free_seats-IsSeated rs db' h')

  pub expire_stale_tx-IsSeated :
      (now : ℕ) (chosen : List ℕ) (db : Db)
      → IsSeated db
      → Ensures (λ _ db'. IsSeated db') (expire_stale_tx now chosen db)
  unfolding expire_stale_tx
  expire_stale_tx-IsSeated now chosen db h =
      Ensures-bind _ (claim_expired-IsAhead k now batch_size chosen 0 db h) λ rows db1 h1.
        Ensures-bind _ (free_seats-IsSeated rows db1 (cast k h1 (omega arith)))
          λ _ db2 h2. Ensures-pure _ db2 h2

  -- The status of a pending row is changed, or it is not there any more.
  release_found-IsSeated :
      (id : ℕ) (r : CouponReservation) (db : Db)
      → find_reservation id db.reservations ≡ some r
      → IsSeated db
      → Ensures (λ _ db'. IsSeated db') (release_found id r db)
  unfolding release_found
  release_found-IsSeated id r db f h =
      Ensures-if _ _ db (is_pending r.status)
        (λ p.
          Ensures-bind _ (update_status-IsAhead k id released r 0 db refl f p h)
            λ changed db1 (sure, h1).
              Ensures-if _ _ db1 changed
                (λ _.
                  Ensures-bind _ (decrement-IsAhead k r.coupon_id 0 db1 h1)
                    λ _ db2 h2. Ensures-pure _ db2 h2)
                (λ lost. cc))
        (λ _. Ensures-pure _ db h)

  pub release_reservation_tx-IsSeated :
      (id : ℕ) (db : Db)
      → IsSeated db
      → Ensures (λ _ db'. IsSeated db') (release_reservation_tx id db)
  unfolding release_reservation_tx
  release_reservation_tx-IsSeated id db h =
      Ensures-option _ _ db (find_reservation id db.reservations) (λ _. Ensures-err _)
        (λ r f. release_found-IsSeated id r db f h)

  increment_as_hit-IsAhead :
      (id : ℕ) (db : Db)
      → IsSeated db
      → Ensures
          (λ _ db'. IsAhead k (one k id) db')
          (map_error limit_error (increment_usage_if_below_limit id) db)
  increment_as_hit-IsAhead id db h =
      Ensures-map
        (map_error-Ensures limit_error (increment_usage_if_below_limit id db)
          (increment-IsAhead k id 0 db h))
        (λ _ _ h'. cast k h' (omega arith))

  hold_coupon-IsSeated :
      (r : Resolved) (buyer id expires_at : ℕ) (db : Db)
      → IsSeated db
      → Ensures (λ _ db'. IsSeated db') (hold_coupon r buyer id expires_at db)
  unfolding hold_coupon
  hold_coupon-IsSeated r buyer id expires_at db h =
      let discount = compute_discount r.coupon r.applicable_subtotal in
      Ensures-bind _ (Ensures-guard {P = IsSeated} (ltb_ℤ (pos 0) discount) _ db h) λ _ db1 (_, h1).
        Ensures-bind _ (increment_as_hit-IsAhead r.coupon.id db1 h1) λ _ db2 h2.
          Ensures-bind _
            (insert_reservation-IsAhead k (held_row r buyer discount id expires_at) 0 db2 refl
              (cast k h2 (omega arith)))
            λ _ db3 h3. Ensures-pure _ db3 h3

  pub reserve_coupon_tx-IsSeated :
      (p : Platform) (ttl code buyer : ℕ) (ss : List SellerSubtotal) (currency id now : ℕ) (db : Db)
      → IsSeated db
      → Ensures (λ _ db'. IsSeated db') (reserve_coupon_tx p ttl code buyer ss currency id now db)
  unfolding reserve_coupon_tx
  reserve_coupon_tx-IsSeated p ttl code buyer ss currency id now db h =
      Ensures-bind _ ((resolve_coupon-Reads p code buyer ss currency now).reads db)
        λ r db1 same. hold_coupon-IsSeated r buyer id (now + ttl) db1 (subst IsSeated (sym same) h)
