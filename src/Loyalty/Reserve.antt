-- ===== src/Loyalty/Reserve.antt =====
-- Holding and releasing points: `ReservePoints`, `ReleasePointsReservation` and
-- `ExpireStaleReservations` of backend/services/loyalty/internal/app/loyalty_service.go.
use ec_test.Base.{
  ℕ, zero, suc, ◌+◌, Bool, true, false, not, ◌&&◌, none, some, List, [], ◌∷◌, ◌==◌, ltb, length,
  if◌then◌else◌,
}
use ec_test.Base.Int.{ℤ, pos, neg_ℤ, leb_ℤ, ltb_ℤ}
use ec_test.Base.Tx.{Result, ok, err, pure, throw, guard, run_tx, ◌>>=◌, ◌>>◌}
use ec_test.Loyalty.Domain.{Config, Reservation, pending, released, expired, spendable, is_pending}
use ec_test.Loyalty.Store.{
  M, Db, Error, bad_request, insufficient_points, invalid_amount, reservation_not_found, no_delta,
  lock_for_update, apply_delta, get_by_id, insert_reservation, update_status, find_reservation,
  set_status,
}
use ec_test.Loyalty.Service.{Outcome, answer, fail, keep_insufficient, keep_not_found}

-- A transaction whose only effect outside the tables is its answer.
abbrev pub reply_of : {A : Type 0} → (Error → Error) → Result Error A × Db → Outcome A
reply_of keep (ok a, db) = answer a db
reply_of keep (err e, db) = fail (keep e) db

abbrev pub held_row : Config → ℕ → ℤ → ℕ → ℕ → Reservation
held_row c buyer amount id now = record {
  id = id;
  buyer_auth0_id = buyer;
  amount = amount;
  status = pending;
  expires_at = now + c.reservation_ttl;
}

unfoldable pub reserve_points_tx : Config → ℕ → ℤ → ℕ → ℕ → M Reservation
reserve_points_tx c buyer amount id now = do
  acct ← lock_for_update buyer
  guard (not (ltb_ℤ (spendable acct) amount)) insufficient_points
  apply_delta buyer (record no_delta { pending_redemption_delta = amount }) acct.version
  let row = held_row c buyer amount id now
  insert_reservation row
  pure row

-- `Service.ReservePoints`. The store of reservations is always wired in production.
unfoldable pub reserve_points : Config → ℕ → ℤ → ℕ → ℕ → Db → Outcome Reservation
unfolding reserve_points_tx
reserve_points c buyer amount id now db =
    if buyer == 0
    then fail bad_request db
    else if leb_ℤ amount (pos 0)
    then fail invalid_amount db
    else reply_of keep_insufficient (run_tx (reserve_points_tx c buyer amount id now) db)

-- A row that is still pending goes to `released`, and its points back to the spendable balance.
unfoldable pub release_found : ℕ → Reservation → M Bool
release_found id r =
    if is_pending r.status
    then (do
      acct ← lock_for_update r.buyer_auth0_id
      changed ← update_status id pending released
      if changed
          then (do
            apply_delta r.buyer_auth0_id
                (record no_delta { pending_redemption_delta = neg_ℤ r.amount }) acct.version
            pure true)
          else pure false)
    else pure false

unfoldable pub release_points_tx : ℕ → M Bool
unfolding release_found
release_points_tx id = do
  found ← get_by_id id
  elim found [ none ↦ throw reservation_not_found | some r ↦ release_found id r ]

-- `Service.ReleasePointsReservation`; the reason goes to the log.
unfoldable pub release_points_reservation : ℕ → Db → Outcome Bool
unfolding release_points_tx
release_points_reservation id db =
    if id == 0
    then fail bad_request db
    else reply_of keep_not_found (run_tx (release_points_tx id) db)

-- `ReservationRepository.ClaimExpired`: of the rows that are pending and past their time the
-- database takes at most `limit`, passing over those that others have locked. Which it takes is
-- the list `chosen`; a row that does not qualify is not taken.
abbrev pub is_stale : ℕ → Reservation → Bool
is_stale now r = is_pending r.status && ltb r.expires_at now

unfoldable pub claim_expired : ℕ → ℕ → List ℕ → M (List Reservation)
claim_expired now zero chosen db = ok ([], db)
claim_expired now (suc limit) [] db = ok ([], db)
claim_expired now (suc limit) (id ∷ chosen) db = elim (find_reservation id db.reservations) [
  | none ↦ claim_expired now (suc limit) chosen db
  | some r ↦ elim (is_stale now r) [
    | false ↦ claim_expired now (suc limit) chosen db
    | true ↦
        (do rest ← claim_expired now limit chosen; pure (r ∷ rest))
          (record db { reservations = set_status id pending expired db.reservations })
  ]
]

-- The loop over the claimed rows.
unfoldable pub release_claimed : List Reservation → M (Unit {0})
release_claimed [] = pure tt
release_claimed (r ∷ rs) = do
  acct ← lock_for_update r.buyer_auth0_id
  apply_delta r.buyer_auth0_id (record no_delta { pending_redemption_delta = neg_ℤ r.amount })
      acct.version
  release_claimed rs

abbrev pub batch_size : ℕ
batch_size = 200

unfoldable pub expire_stale_tx : ℕ → List ℕ → M ℕ
unfolding claim_expired release_claimed
expire_stale_tx now chosen = do
  rows ← claim_expired now batch_size chosen
  release_claimed rows
  pure (length rows)

-- `Service.ExpireStaleReservations`: an error is handed to the reaper as it is.
unfoldable pub expire_stale_reservations : ℕ → List ℕ → Db → Outcome ℕ
unfolding expire_stale_tx
expire_stale_reservations now chosen db = reply_of (λ e. e) (run_tx (expire_stale_tx now chosen) db)
