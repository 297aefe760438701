-- ===== src/Loyalty/Keeps/Reserve.antt =====
-- Reserving, releasing and expiring a hold keeps the books
-- (`ReservePoints`, `ReleasePointsReservation`, `ExpireStaleReservations`).
use ec_test.Base.{
  ℕ, zero, suc, ◌≡◌, refl, ◌∙◌, ap, true, not, some, arith, List, [], ◌∷◌, inl, inr, Option-cases,
  Bool-cases,
}
use ec_test.Base.Int.{ℤ, pos, neg_ℤ, ◌+ℤ◌, ltb_ℤ, int_laws, +ℤ_zero, +ℤ_assoc}
use ec_test.Loyalty.Domain.{Config, Reservation, pending, released, expired, spendable, is_pending}
use ec_test.Loyalty.Store.{
  Db, no_delta, insufficient_points, find_reservation, set_status, update_status,
}
use ec_test.Loyalty.Reserve.{
  held_row, reserve_points_tx, release_found, release_points_tx, claim_expired, release_claimed,
  expire_stale_tx, is_stale, batch_size,
}
use ec_test.Base.Ensures.{
  Ensures, Ensures-bind, Ensures-pure, Ensures-option, Ensures-if, Ensures-guard,
}
use ec_test.Loyalty.Invariant.{
  share, share_laws, IsAhead, lock_for_update-IsAhead, apply_delta-IsAhead,
  insert_reservation-IsAhead, update_status-IsAhead,
}
use ec_test.Loyalty.Keeps.{IsConsistent, cast, settle}

module _ (b : ℕ) where
  pub reserve_points_tx-IsConsistent :
      (c : Config) (buyer : ℕ) (amount : ℤ) (id now : ℕ) (db : Db)
      → IsConsistent b db
      → Ensures (λ _ db'. IsConsistent b db') (reserve_points_tx c buyer amount id now db)
  unfolding reserve_points_tx
  reserve_points_tx-IsConsistent c buyer amount id now db h =
      Ensures-bind _ (lock_for_update-IsAhead b buyer _ _ db h) λ acct db1 (_, h1).
        Ensures-bind _
          (Ensures-guard (not (ltb_ℤ (spendable acct) amount)) insufficient_points db1 h1)
          λ _ db2 (_, h2).
            Ensures-bind _
              (apply_delta-IsAhead b buyer (record no_delta { pending_redemption_delta = amount })
                acct.version (pos 0) (pos 0) db2 h2)
              λ _ db3 h3.
                Ensures-bind _
                  (insert_reservation-IsAhead b (held_row c buyer amount id now) _ _ db3 refl h3)
                  λ _ db4 h4. settle h4 (omega share_laws) (omega share_laws)

  release_found-IsConsistent :
      (id : ℕ) (r : Reservation) (db : Db)
      → find_reservation id db.reservations ≡ some r
      → IsConsistent b db
      → Ensures (λ _ db'. IsConsistent b db') (release_found id r db)
  unfolding release_found
  release_found-IsConsistent id r db f h =
      Ensures-if _ _ db (is_pending r.status)
        (λ p.
          Ensures-bind _ (lock_for_update-IsAhead b r.buyer_auth0_id _ _ db h)
            λ acct db1 (same, h1).
              Ensures-bind _
                (update_status-IsAhead b id released r _ _ db1 refl p
                  (ap (find_reservation id) same ∙ f) h1)
                λ changed db2 (was_pending, h2).
                  Ensures-if _ _ db2 changed
                    (λ _.
                      Ensures-bind _
                        (apply_delta-IsAhead b r.buyer_auth0_id
                          (record no_delta { pending_redemption_delta = neg_ℤ r.amount })
                          acct.version _ _ db2 h2)
                        λ _ db3 h3. settle h3 (omega share_laws) (omega share_laws))
                    (λ no_change. cc))
        (λ _. Ensures-pure _ db h)

  pub release_points_tx-IsConsistent :
      (id : ℕ) (db : Db)
      → IsConsistent b db
      → Ensures (λ _ db'. IsConsistent b db') (release_points_tx id db)
  unfolding release_points_tx
  release_points_tx-IsConsistent id db h =
      Ensures-option _ _ db (find_reservation id db.reservations) (λ _. record { holds = tt })
        (λ r f. release_found-IsConsistent id r db f h)

  -- What the claimed rows held of this buyer.
  claimed_sum : List Reservation → ℤ
  claimed_sum [] = pos 0
  claimed_sum (r ∷ rs) = share b r.buyer_auth0_id r.amount +ℤ claimed_sum rs

  claim_one-IsAhead :
      (now id : ℕ) (r : Reservation) (e : ℤ) (db : Db)
      → find_reservation id db.reservations ≡ some r
      → is_stale now r ≡ true
      → IsAhead b (pos 0) e db
      → IsAhead b
          (pos 0)
          (e +ℤ share b r.buyer_auth0_id r.amount)
          (record db { reservations = set_status id pending expired db.reservations })
  unfolding update_status
  claim_one-IsAhead now id r e db f s h =
      (update_status-IsAhead b id expired r (pos 0) e db refl (ground arith) f h).holds.1

  claim_expired-IsAhead :
      (now limit : ℕ) (chosen : List ℕ) (e : ℤ) (db : Db)
      → IsAhead b (pos 0) e db
      → Ensures
          (λ rows db'. IsAhead b (pos 0) (e +ℤ claimed_sum rows) db')
          (claim_expired now limit chosen db)
  unfolding claim_expired claimed_sum
  claim_expired-IsAhead now zero chosen e db h = Ensures-pure _ db (rw +ℤ_zero h)
  claim_expired-IsAhead now (suc limit) [] e db h = Ensures-pure _ db (rw +ℤ_zero h)
  claim_expired-IsAhead now (suc limit) (id ∷ chosen) e db h =
      let skip = claim_expired-IsAhead now (suc limit) chosen e db h in
      elim (Option-cases (find_reservation id db.reservations)) [
        | inl n ↦ rw (n, claim_expired) skip
        | inr (r, f) ↦ elim (Bool-cases (is_stale now r)) [
          | inr fresh ↦ rw (f, fresh, claim_expired) skip
          | inl stale ↦
              rw (f, stale, claim_expired)
                (Ensures-bind _
                  (claim_expired-IsAhead now limit chosen (e +ℤ share b r.buyer_auth0_id r.amount) _
                    (claim_one-IsAhead now id r e db f stale h))
                  (λ rows db' h'. Ensures-pure _ db' (rw (← +ℤ_assoc) h')))
        ]
      ]

  release_claimed-IsConsistent :
      (rows : List Reservation) (db : Db)
      → IsAhead b (pos 0) (claimed_sum rows) db
      → Ensures (λ _ db'. IsConsistent b db') (release_claimed rows db)
  unfolding release_claimed claimed_sum
  release_claimed-IsConsistent [] db h = settle h refl refl
  release_claimed-IsConsistent (r ∷ rs) db h =
      Ensures-bind _ (lock_for_update-IsAhead b r.buyer_auth0_id _ _ db h) λ acct db1 (_, h1).
        Ensures-bind _
          (apply_delta-IsAhead b r.buyer_auth0_id
            (record no_delta { pending_redemption_delta = neg_ℤ r.amount }) acct.version (pos 0) _
            db1 h1)
          λ _ db2 h2.
            release_claimed-IsConsistent rs db2 (cast h2 (omega share_laws) (omega share_laws))

  pub expire_stale_tx-IsConsistent :
      (now : ℕ) (chosen : List ℕ) (db : Db)
      → IsConsistent b db
      → Ensures (λ _ db'. IsConsistent b db') (expire_stale_tx now chosen db)
  unfolding expire_stale_tx
  expire_stale_tx-IsConsistent now chosen db h =
      Ensures-bind _ (claim_expired-IsAhead now batch_size chosen (pos 0) db h) λ rows db1 h1.
        Ensures-bind _ (release_claimed-IsConsistent rows db1 (cast h1 refl (omega int_laws)))
          λ _ db2 h2. Ensures-pure _ db2 h2
