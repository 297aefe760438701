-- ===== src/Coupon/Seats/Statements.antt =====
-- How each statement on the coupon tables moves the seats of a coupon
-- (backend/services/coupon/internal/adapter/postgres).
use ec_test.Base.{
  ℕ, zero, suc, ◌+◌, ◌^◌, ◌≡◌, refl, ap, subst, ◌∙◌, Bool, true, false, not, ◌&&◌, ◌||◌, Option,
  none, some, List, [], ◌∷◌, ◌==◌, ltb, if◌then◌else◌, arith, Bool-cases, ==_iff, Option-cases, inl,
  inr,
}
use ec_test.Base.Int.{◌+ℤ◌, ℤ, pos, leb_ℤ}
use ec_test.Base.Tx.{ok, err}
use ec_test.Base.Ensures.{Ensures, Ensures-branch, Ensures-pure, Ensures-bind, Ensures-err}
use ec_test.Coupon.Domain.{
  Coupon, CouponReservation, CouponRedemption, ReservationStatus, pending, expired, is_pending,
}
use ec_test.Coupon.Store.{
  Platform, Db, statement_failed, usage_limit_exceeded, find_coupon, find_code, update_coupon_row,
  use_once, below_limit, increment_usage_if_below_limit, decrement_usage, find_reservation,
  insert_reservation, update_status, claim_expired, is_stale, is_some, insert_coupon,
  check_coupon_row, check_issuer, check_amounts,
}
use ec_test.Coupon.Redemptions.{
  find_redemption, has_id, has_coupon_and_order, insert_redemption, refund_by, refund_row, Applied,
  check_refund, least, apply_partial_refund,
}
use ec_test.Coupon.Admin.{count_pending_by_coupon, change_coupon}
use ec_test.Coupon.Seats.{
  usage, live_redemptions, seats, one, AreDistinct, usage-use_once, usage-use_less, usage-missing,
  usage-same, pending-set_status, live-update, AreDistinct-update,
}

-- The count of the coupon runs ahead of its seats by `d`.
pub record IsAhead (k d : ℕ) (db : Db) : Type 0 where
  pub counted : usage k db.coupons ≡ seats k db + d
  pub distinct : AreDistinct db.redemptions

no_second : (a b : Bool) → (a || b) ≡ false → b ≡ false
no_second true b h = cc
no_second false b h = h

pub none_found : {A : Type 0} (o : Option A) → is_some o ≡ false → o ≡ none
none_found none h = refl
none_found (some a) h = cc

not_some : {A : Type 0} (o : Option A) → not (is_some o) ≡ true → is_some o ≡ false
not_some none h = refl
not_some (some a) h = cc

pub both_true : (a b : Bool) → (a && b) ≡ true → (a ≡ true) × (b ≡ true)
both_true true b h = (refl, h)
both_true false b h = cc

is_some_if : (b : Bool) (n : ℕ) → is_some (if b then some n else none) ≡ b
is_some_if true n = refl
is_some_if false n = refl

third_true : (a b c d : Bool) → (a && b && c && d) ≡ true → c ≡ true
third_true a b c d h = ground arith

check_coupon_row-new :
    (p : Platform) (c : Coupon) (db : Db)
    → check_coupon_row p c db ≡ true
    → is_some (find_coupon c.id db.coupons) ≡ false
check_coupon_row-new p c db h = not_some (find_coupon c.id db.coupons) (
    third_true (check_issuer c.issuer_type)
      (check_amounts c.discount_type c.discount_percent_bps c.discount_amount)
      (not (is_some (find_coupon c.id db.coupons)))
      (not (is_some (find_code p c.issuer_type c.issuer_id c.code db.coupons))) h)

-- The seats of `k` that claimed rows held.
unfoldable pub claimed : ℕ → List CouponReservation → ℕ
claimed k [] = 0
claimed k (r ∷ rs) = one k r.coupon_id + claimed k rs

module _ (k : ℕ) where
  pub cast : {d e : ℕ} {db : Db} → IsAhead k d db → d ≡ e → IsAhead k e db
  cast {db = db} h p = subst (λ x. IsAhead k x db) p h

  pub increment-IsAhead :
      (id d : ℕ) (db : Db)
      → IsAhead k d db
      → Ensures (λ _ db'. IsAhead k (d + one k id) db') (increment_usage_if_below_limit id db)
  unfolding increment_usage_if_below_limit
  increment-IsAhead id d db h = by_row (find_coupon id db.coupons) refl
    where
      by_row :
          (o : Option Coupon)
          → find_coupon id db.coupons ≡ o
          → Ensures
              (λ _ db'. IsAhead k (d + one k id) db')
              (elim o [
                | none ↦ err usage_limit_exceeded
                | some c ↦
                    if below_limit c.usage_limit_total c.usage_count
                    then (if ltb (c.usage_count + 1) (2 ^ 31)
                        then ok
                            (tt, record db { coupons = update_coupon_row id use_once db.coupons })
                        else err statement_failed)
                    else err usage_limit_exceeded
              ])
      by_row none e = Ensures-err _
      by_row (some c) e =
          Ensures-branch (below_limit c.usage_limit_total c.usage_count) _ _
            (λ _.
              Ensures-branch (ltb (c.usage_count + 1) (2 ^ 31)) _ _
                (λ _. Ensures-pure tt _ (
                  let used = usage-use_once k id db.coupons (ap is_some e) in
                  let counted = h.counted in
                  record { counted = omega arith; distinct = h.distinct }))
                (λ _. Ensures-err _))
            (λ _. Ensures-err _)

  pub decrement-IsAhead :
      (id d : ℕ) (db : Db)
      → IsAhead k (d + one k id) db
      → Ensures (λ _ db'. IsAhead k d db') (decrement_usage id db)
  unfolding decrement_usage
  decrement-IsAhead id d db h =
      let freed = usage-use_less k id db.coupons in
      let counted = h.counted in
      Ensures-pure tt _ (record { counted = omega arith; distinct = h.distinct })

  pub insert_reservation-IsAhead :
      (r : CouponReservation) (d : ℕ) (db : Db)
      → is_pending r.status ≡ true
      → IsAhead k (d + one k r.coupon_id) db
      → Ensures (λ _ db'. IsAhead k d db') (insert_reservation r db)
  unfolding insert_reservation count_pending_by_coupon
  insert_reservation-IsAhead r d db p h =
      Ensures-branch (leb_ℤ (pos 0) r.discount_amount) _ _
        (λ _. Ensures-pure tt _ (
          let counted = h.counted in
          record { counted = rw p (ground arith); distinct = h.distinct }))
        (λ _. Ensures-err _)

  -- A pending row takes another status, or none does.
  pub update_status-IsAhead :
      (id : ℕ) (next : ReservationStatus) (r : CouponReservation) (d : ℕ) (db : Db)
      → is_pending next ≡ false
      → find_reservation id db.reservations ≡ some r
      → is_pending r.status ≡ true
      → IsAhead k d db
      → Ensures
          (λ changed db'. (changed ≡ true) × IsAhead k (d + one k r.coupon_id) db')
          (update_status id pending next db)
  unfolding update_status
  update_status-IsAhead id next r d db n e p h =
      let left = pending-set_status k id next db.reservations r n e p in
      let counted = h.counted in
      Ensures-pure _ _ (rw e p, record { counted = omega arith; distinct = h.distinct })

  pub insert_redemption-IsAhead :
      (r : CouponRedemption) (d : ℕ) (db : Db)
      → r.refunded_at ≡ none
      → IsAhead k (d + one k r.coupon_id) db
      → Ensures (λ _ db'. IsAhead k d db') (insert_redemption r db)
  unfolding insert_redemption live_redemptions
  insert_redemption-IsAhead r d db live h =
      Ensures-branch
        (is_some (find_redemption (has_coupon_and_order r.coupon_id r.order_id) db.redemptions)
          || is_some (find_redemption (has_id r.id) db.redemptions))
        _ _ (λ _. Ensures-err _)
        (λ fresh. Ensures-pure tt _ (
          let counted = h.counted in
          record {
            counted = rw live (ground arith);
            distinct = (none_found _ (no_second _ _ fresh), h.distinct);
          }))

  -- The seats that a refund frees, before the count follows.
  abbrev pub freed_seats : Applied → CouponRedemption → ℕ
  freed_seats a r = if a.already_full then 0 else if a.fully_refunded then one k r.coupon_id else 0

  -- A share of a redemption is refunded; the last one frees the seat.
  pub apply_partial_refund-IsAhead :
      (r : CouponRedemption) (share : ℤ) (reason now : ℕ) (db : Db)
      → find_redemption (has_id r.id) db.redemptions ≡ some r
      → IsAhead k 0 db
      → Ensures
          (λ a db'. IsAhead k (freed_seats a r) db')
          (apply_partial_refund r.id share reason now db)
  unfolding apply_partial_refund refund_row refund_by
  apply_partial_refund-IsAhead r share reason now db e h =
      Ensures-branch (leb_ℤ share (pos 0)) _ _ (λ _. Ensures-pure _ db h)
        (λ _. rw e (elim (Option-cases r.refunded_at) [
          | inr (t, full) ↦ rw full (Ensures-pure _ db h)
          | inl live ↦ rw live (
              Ensures-branch (check_refund r share) _ _
                (λ _. Ensures-pure _ _ (
                  let counted = h.counted in
                  let freed =
                    live-update k (refund_by share reason now) db.redemptions r
                      (leb_ℤ r.discount_applied
                        (least (r.refunded_amount +ℤ share) r.discount_applied))
                      e live refl (is_some_if _ now) in
                  record {
                    counted = omega arith;
                    distinct = AreDistinct-update r.id _ db.redemptions (λ _. refl) h.distinct;
                  }))
                (λ _. Ensures-err _))
        ]))

  pub claim_expired-IsAhead :
      (now limit : ℕ) (chosen : List ℕ) (d : ℕ) (db : Db)
      → IsAhead k d db
      → Ensures (λ rows db'. IsAhead k (d + claimed k rows) db') (claim_expired now limit chosen db)
  unfolding claim_expired claimed update_status
  claim_expired-IsAhead now zero chosen d db h = Ensures-pure _ db (cast h (omega arith))
  claim_expired-IsAhead now (suc limit) [] d db h = Ensures-pure _ db (cast h (omega arith))
  claim_expired-IsAhead now (suc limit) (id ∷ chosen) d db h =
      let skip = claim_expired-IsAhead now (suc limit) chosen d db h in
      elim (Option-cases (find_reservation id db.reservations)) [
        | inl missing ↦ rw (missing, claim_expired) skip
        | inr (r, found) ↦ elim (Bool-cases (is_stale now r)) [
          | inr fresh ↦ rw (found, fresh, claim_expired) skip
          | inl stale ↦
              rw (found, stale, claim_expired)
                (Ensures-bind _
                  (claim_expired-IsAhead now limit chosen (d + one k r.coupon_id) _
                    (update_status-IsAhead id expired r d db refl found (both_true _ _ stale).0
                      h).holds.1)
                  (λ rows db' h'. Ensures-pure _ db' (cast h' (omega arith))))
        ]
      ]

  pub insert_coupon-IsAhead :
      (p : Platform) (c : Coupon) (db : Db)
      → IsAhead k 0 db
      → Ensures (λ _ db'. IsAhead k 0 db') (insert_coupon p c db)
  unfolding insert_coupon usage
  insert_coupon-IsAhead p c db h =
      Ensures-branch (check_coupon_row p c db) _ _
        (λ fits.
          let missing = check_coupon_row-new p c db fits in
          Ensures-pure tt (record db { coupons = record c { usage_count = 0 } ∷ db.coupons })
            (record {
              counted = elim (Bool-cases (c.id == k)) [
                | inl same ↦
                    let none_left = usage-missing c.id db.coupons missing in
                    let here =
                      subst (λ i. usage i db.coupons ≡ 0) ((==_iff c.id k).0 same) none_left in
                    let counted = h.counted in rw same (omega arith)
                | inr other ↦ rw other h.counted
              ];
              distinct = h.distinct;
            }))
        (λ _. Ensures-err _)

  -- A change of a coupon that leaves its count alone.
  pub change_coupon-IsAhead :
      (id : ℕ) (f : Coupon → Coupon) (db : Db)
      → ((c : Coupon) → (f c).id ≡ c.id)
      → ((c : Coupon) → (f c).usage_count ≡ c.usage_count)
      → IsAhead k 0 db
      → IsAhead k 0 (change_coupon id f db)
  change_coupon-IsAhead id f db hi hu h = record {
    counted = usage-same k id f db.coupons hi hu ∙ h.counted;
    distinct = h.distinct;
  }
