-- ===== src/Loyalty/Invariant.antt =====
-- What the tables of the loyalty service owe one another, for one buyer, and how each statement
-- moves it (backend/services/loyalty/internal/adapter/postgres).
use ec_test.Base.{
  ℕ, ◌+◌, ◌≡◌, true, false, some, List, [], ◌∷◌, ◌++◌, ◌==◌, if◌then◌else◌, arith, inl, inr,
  Bool-cases,
}
use ec_test.Base.Int.{
  ℤ, pos, ◌+ℤ◌, ◌-ℤ◌, neg_ℤ, ◌≤ℤ◌, leb_ℤ, ltb_ℤ, int_laws, +ℤ_zero, pos_part, neg_part,
}
use ec_test.Base.Ensures.{Ensures}
use ec_test.Loyalty.Domain.{Transaction, Reservation, ReservationStatus, pending, is_pending}
use ec_test.Loyalty.Store.{
  Db, check_account, apply_delta_to, update, AccountDelta, account_of, ensure_exists,
  lock_for_update, apply_delta, insert_transaction, insert_reservation, find_reservation,
  set_status, update_status,
}

-- The part of an amount of `owner` that concerns `buyer`.
unfoldable pub share : ℕ → ℕ → ℤ → ℤ
share buyer owner amount = if owner == buyer then amount else pos 0

pub share_zero :
    (buyer owner : ℕ)
    → (pos_part (share buyer owner (pos 0)) ≡ 0) × (neg_part (share buyer owner (pos 0)) ≡ 0)
unfolding share
share_zero buyer owner = ground arith

pub share_none : (buyer owner : ℕ) → share buyer owner (pos 0) ≡ pos 0
unfolding share
share_none buyer owner = ground arith

pub share_neg :
    (buyer owner : ℕ) (a : ℤ)
    → pos_part (share buyer owner (neg_ℤ a)) + pos_part (share buyer owner a)
      ≡ neg_part (share buyer owner (neg_ℤ a)) + neg_part (share buyer owner a)
unfolding share neg_ℤ
share_neg buyer owner a = ground arith

pub share_add :
    (buyer owner : ℕ) (x y : ℤ)
    → pos_part (share buyer owner (x +ℤ y))
        + neg_part (share buyer owner x)
        + neg_part (share buyer owner y)
      ≡ neg_part (share buyer owner (x +ℤ y))
        + pos_part (share buyer owner x)
        + pos_part (share buyer owner y)
unfolding share ◌+ℤ◌
share_add buyer owner x y = ground arith

pub ruleset share_laws = (int_laws, share_zero, share_neg, share_add)

-- The sum of a buyer's ledger.
unfoldable pub ledger_sum : ℕ → List Transaction → ℤ
ledger_sum buyer [] = pos 0
ledger_sum buyer (t ∷ ts) = share buyer t.buyer_auth0_id t.amount +ℤ ledger_sum buyer ts

abbrev pub pending_amount : Reservation → ℤ
pending_amount r = if is_pending r.status then r.amount else pos 0

-- The sum of a buyer's pending reservations.
unfoldable pub held_sum : ℕ → List Reservation → ℤ
held_sum buyer [] = pos 0
held_sum buyer (r ∷ rs) = share buyer r.buyer_auth0_id (pending_amount r) +ℤ held_sum buyer rs

-- The account runs ahead of the ledger by `d`, and its pending points ahead of the reservations
-- by `e`; it satisfies the constraints of its table.
pub record IsAhead (buyer : ℕ) (d e : ℤ) (db : Db) : Type 0 where
  pub nonneg : pos 0 ≤ℤ (account_of db buyer).pending_redemption
  pub solvent : (account_of db buyer).pending_redemption ≤ℤ (account_of db buyer).balance
  pub ledger : (account_of db buyer).balance ≡ ledger_sum buyer db.transactions +ℤ d
  pub held : (account_of db buyer).pending_redemption ≡ held_sum buyer db.reservations +ℤ e

shift : (a s d x : ℤ) → a ≡ s +ℤ d → a +ℤ x ≡ s +ℤ (d +ℤ x)
shift a s d x h = rw h (omega int_laws)

shift_back : (a s d x : ℤ) → a ≡ s +ℤ d → a ≡ s +ℤ x +ℤ (d -ℤ x)
shift_back a s d x h = rw h (omega int_laws)

shift_front : (a s d x : ℤ) → a ≡ s +ℤ d → a ≡ x +ℤ s +ℤ (d -ℤ x)
shift_front a s d x h = rw h (omega int_laws)

shift_taken : (a s d x : ℤ) → a ≡ s +ℤ d → a ≡ s -ℤ x +ℤ (d +ℤ x)
shift_taken a s d x h = rw h (omega int_laws)

drop_head : (x s : ℤ) → pos 0 +ℤ s ≡ x +ℤ s -ℤ x
drop_head x s = omega int_laws

module _ (b : ℕ) where
  pub lock_for_update-IsAhead :
      (buyer : ℕ) (d e : ℤ) (db : Db)
      → IsAhead b d e db
      → Ensures
          (λ a db'. (db'.reservations ≡ db.reservations) × IsAhead b d e db')
          (lock_for_update buyer db)
  unfolding lock_for_update
  lock_for_update-IsAhead buyer d e db h = ground arith

  pub ensure_exists-IsAhead :
      (buyer : ℕ) (d e : ℤ) (db : Db)
      → IsAhead b d e db
      → Ensures (λ _ db'. IsAhead b d e db') (ensure_exists buyer db)
  unfolding ensure_exists
  ensure_exists-IsAhead buyer d e db h = ground arith

  stored-IsAhead :
      (buyer : ℕ) (x : AccountDelta) (d e : ℤ) (db : Db)
      → IsAhead b d e db
      → check_account (apply_delta_to (account_of db buyer) x) ≡ true
      → IsAhead b
          (d +ℤ share b buyer x.balance_delta)
          (e +ℤ share b buyer x.pending_redemption_delta)
          (record db {
            accounts = update db.accounts buyer (apply_delta_to (account_of db buyer) x);
          })
  unfolding share
  stored-IsAhead buyer x d e db h c = record {
    nonneg = ground arith;
    solvent = ground arith;
    ledger = ground (
      arith,
      shift _ _ d x.balance_delta h.ledger,
      shift _ _ d (pos 0) h.ledger,
      +ℤ_zero (account_of db b).balance,
    );
    held = ground (
      arith,
      shift _ _ e x.pending_redemption_delta h.held,
      shift _ _ e (pos 0) h.held,
      +ℤ_zero (account_of db b).pending_redemption,
    );
  }

  pub apply_delta-IsAhead :
      (buyer : ℕ) (x : AccountDelta) (v : ℕ) (d e : ℤ) (db : Db)
      → IsAhead b d e db
      → Ensures
          (λ _ db'.
            IsAhead b
              (d +ℤ share b buyer x.balance_delta)
              (e +ℤ share b buyer x.pending_redemption_delta)
              db')
          (apply_delta buyer x v db)
  unfolding apply_delta
  apply_delta-IsAhead buyer x v d e db h = ground (arith, stored-IsAhead buyer x d e db h)

  ledger_sum-snoc :
      (t : Transaction) (ts : List Transaction)
      → ledger_sum b (ts ++ t ∷ []) ≡ ledger_sum b ts +ℤ share b t.buyer_auth0_id t.amount
  unfolding ledger_sum
  ledger_sum-snoc t [] = omega int_laws
  ledger_sum-snoc t (x ∷ ts) = rw (ledger_sum-snoc t ts) (omega int_laws)

  pub insert_transaction-IsAhead :
      (t : Transaction) (d e : ℤ) (db : Db)
      → IsAhead b d e db
      → Ensures
          (λ _ db'. IsAhead b (d -ℤ share b t.buyer_auth0_id t.amount) e db')
          (insert_transaction t db)
  unfolding insert_transaction
  insert_transaction-IsAhead t d e db h = ground (
    arith,
    ledger_sum-snoc t db.transactions,
    shift_back _ _ d (share b t.buyer_auth0_id t.amount) h.ledger,
  )

  pub insert_reservation-IsAhead :
      (r : Reservation) (d e : ℤ) (db : Db)
      → is_pending r.status ≡ true
      → IsAhead b d e db
      → Ensures
          (λ _ db'. IsAhead b d (e -ℤ share b r.buyer_auth0_id r.amount) db')
          (insert_reservation r db)
  unfolding insert_reservation held_sum share
  insert_reservation-IsAhead r d e db p h =
      ground (arith, shift_front _ _ e (share b r.buyer_auth0_id (pending_amount r)) h.held)

  held_sum-set_status :
      (id : ℕ) (next : ReservationStatus) (r : Reservation) (rs : List Reservation)
      → is_pending next ≡ false
      → is_pending r.status ≡ true
      → find_reservation id rs ≡ some r
      → held_sum b (set_status id pending next rs)
        ≡ held_sum b rs -ℤ share b r.buyer_auth0_id r.amount
  unfolding held_sum set_status find_reservation share
  held_sum-set_status id next r [] n p f = cc
  held_sum-set_status id next r (x ∷ rs) n p f = elim (Bool-cases (x.id == id)) [
    | inl hit ↦ ground (arith, drop_head (share b r.buyer_auth0_id r.amount) (held_sum b rs))
    | inr miss ↦ rw miss (rw (held_sum-set_status id next r rs n p (ground arith)) (omega int_laws))
  ]

  pub update_status-IsAhead :
      (id : ℕ) (next : ReservationStatus) (r : Reservation) (d e : ℤ) (db : Db)
      → is_pending next ≡ false
      → is_pending r.status ≡ true
      → find_reservation id db.reservations ≡ some r
      → IsAhead b d e db
      → Ensures
          (λ changed db'.
            (changed ≡ true) × IsAhead b d (e +ℤ share b r.buyer_auth0_id r.amount) db')
          (update_status id pending next db)
  unfolding update_status
  update_status-IsAhead id next r d e db n p f h = ground (
    arith,
    held_sum-set_status id next r db.reservations n p f,
    shift_taken _ _ e (share b r.buyer_auth0_id r.amount) h.held,
  )
