-- ===== src/Loyalty/Store.antt =====
-- The tables of the loyalty service and the statements on them
-- (backend/services/loyalty/internal/adapter/postgres, and the constraints of
-- infra/db/migrations/loyalty/001_create_accounts_and_ledger.up.sql). A statement runs inside a
-- transaction. Failures of the database itself are not modelled: they roll back like any error.
use ec_test.Base.{
  ℕ, ◌+◌, ◌-◌, ◌^◌, Bool, false, ◌&&◌, Option, none, some, List, [], ◌∷◌, ◌++◌, ◌==◌, ltb,
  if◌then◌else◌,
}
use ec_test.Base.Int.{ℤ, pos, negsuc, ◌+ℤ◌, leb_ℤ, ltb_ℤ}
use ec_test.Base.Tx.{Tx, ok, err, gets}
use ec_test.Loyalty.Domain.{
  TransactionType, SourceType, ReservationStatus, Account, Transaction, Reservation, type_code,
  source_code, status_code,
}

-- `Internal` and `BadRequest` are the wrappers of pkg/errors; the others are sentinel errors.
pub data Error : Type 0 where
  bad_request internal : Error
  insufficient_points invalid_amount reservation_not_found reservation_already_terminal : Error
  optimistic_lock check_violation duplicate_idempotency_key invariant_violated : Error

-- `transactions` stands in the order of `ledger_seq`.
pub record Db : Type 0 where
  pub accounts : ℕ → Option Account
  pub transactions : List Transaction
  pub reservations : List Reservation

abbrev pub M : Type 0 → Type 0
M A = Tx Db Error A

pub record AccountDelta : Type 0 where
  pub balance_delta : ℤ
  pub pending_redemption_delta : ℤ
  pub lifetime_earned_delta : ℤ
  pub lifetime_redeemed_delta : ℤ

abbrev pub no_delta : AccountDelta
no_delta = record {
  balance_delta = pos 0;
  pending_redemption_delta = pos 0;
  lifetime_earned_delta = pos 0;
  lifetime_redeemed_delta = pos 0;
}

abbrev pub update : (ℕ → Option Account) → ℕ → Account → ℕ → Option Account
update f k v j = if k == j then some v else f j

-- The row that an insert with the buyer alone makes.
abbrev pub empty_account : ℕ → Account
empty_account buyer = record {
  buyer_auth0_id = buyer;
  balance = pos 0;
  pending_redemption = pos 0;
  lifetime_earned = pos 0;
  lifetime_redeemed = pos 0;
  version = 0;
}

-- The account as `LockForUpdate` finds or makes it.
abbrev pub account_of : Db → ℕ → Account
account_of db buyer = elim (db.accounts buyer) [ none ↦ empty_account buyer | some a ↦ a ]

-- A BIGINT column.
pub fits_bigint : ℤ → Bool
fits_bigint a = leb_ℤ (negsuc (2 ^ 63 - 1)) a && ltb_ℤ a (pos (2 ^ 63))

-- The columns of `point_accounts` have room for the values; `version` is an INT.
unfoldable pub fits_columns : Account → Bool
unfolding fits_bigint
fits_columns a =
    fits_bigint a.balance
    && fits_bigint a.pending_redemption
    && fits_bigint a.lifetime_earned
    && fits_bigint a.lifetime_redeemed
    && ltb a.version (2 ^ 31)

-- The CHECK constraints of `point_accounts`.
abbrev pub check_account : Account → Bool
check_account a =
    leb_ℤ (pos 0) a.balance
    && leb_ℤ (pos 0) a.pending_redemption
    && leb_ℤ a.pending_redemption a.balance

abbrev pub apply_delta_to : Account → AccountDelta → Account
apply_delta_to a d = record a {
  balance = a.balance +ℤ d.balance_delta;
  pending_redemption = a.pending_redemption +ℤ d.pending_redemption_delta;
  lifetime_earned = a.lifetime_earned +ℤ d.lifetime_earned_delta;
  lifetime_redeemed = a.lifetime_redeemed +ℤ d.lifetime_redeemed_delta;
  version = a.version + 1;
}

-- `AccountRepository.EnsureExists`
unfoldable pub ensure_exists : ℕ → M (Unit {0})
ensure_exists buyer db =
    ok (tt, record db { accounts = update db.accounts buyer (account_of db buyer) })

-- `AccountRepository.LockForUpdate`
unfoldable pub lock_for_update : ℕ → M Account
lock_for_update buyer db =
    let a = account_of db buyer in ok (a, record db { accounts = update db.accounts buyer a })

unfoldable pub store_account : ℕ → Account → M (Unit {0})
store_account buyer a db =
    if check_account a && fits_columns a
    then ok (tt, record db { accounts = update db.accounts buyer a })
    else err check_violation

-- `AccountRepository.ApplyDelta`
unfoldable pub apply_delta : ℕ → AccountDelta → ℕ → M (Unit {0})
unfolding store_account
apply_delta buyer delta expected_version db = elim (db.accounts buyer) [
  | none ↦ err optimistic_lock
  | some a ↦
      if a.version == expected_version
      then store_account buyer (apply_delta_to a delta) db
      else err optimistic_lock
]

abbrev pub has_key : SourceType → ℕ → TransactionType → Transaction → Bool
has_key source_type source_id type t =
    source_code t.source_type == source_code source_type
    && t.source_id == source_id
    && type_code t.type == type_code type

unfoldable pub find_key : SourceType → ℕ → TransactionType → List Transaction → Option Transaction
find_key source_type source_id type [] = none
find_key source_type source_id type (t ∷ ts) =
    if has_key source_type source_id type t then some t else find_key source_type source_id type ts

-- `TransactionRepository.GetByIdempotency`
abbrev pub get_by_idempotency : SourceType → ℕ → TransactionType → M (Option Transaction)
get_by_idempotency source_type source_id type =
    gets (λ db. find_key source_type source_id type db.transactions)

-- `TransactionRepository.Insert`, with the UNIQUE key of the table.
unfoldable pub insert_transaction : Transaction → M (Unit {0})
insert_transaction t db = elim (find_key t.source_type t.source_id t.type db.transactions) [
  | none ↦ ok (tt, record db { transactions = db.transactions ++ t ∷ [] })
  | some _ ↦ err duplicate_idempotency_key
]

-- `TransactionRepository.ListByBuyerChronological`
unfoldable pub list_by_buyer_chronological : ℕ → List Transaction → List Transaction
list_by_buyer_chronological buyer [] = []
list_by_buyer_chronological buyer (t ∷ ts) =
    let rest = list_by_buyer_chronological buyer ts in
    if t.buyer_auth0_id == buyer then t ∷ rest else rest

unfoldable pub find_reservation : ℕ → List Reservation → Option Reservation
find_reservation id [] = none
find_reservation id (r ∷ rs) = if r.id == id then some r else find_reservation id rs

-- `ReservationRepository.GetByID`
abbrev pub get_by_id : ℕ → M (Option Reservation)
get_by_id id = gets (λ db. find_reservation id db.reservations)

-- `ReservationRepository.Insert`, with the CHECK on the amount.
unfoldable pub insert_reservation : Reservation → M (Unit {0})
insert_reservation r db =
    if ltb_ℤ (pos 0) r.amount
    then ok (tt, record db { reservations = r ∷ db.reservations })
    else err check_violation

-- The UPDATE of `UpdateStatus` on the row with this primary key.
unfoldable pub set_status :
    ℕ → ReservationStatus → ReservationStatus → List Reservation → List Reservation
set_status id expect next [] = []
set_status id expect next (r ∷ rs) =
    if r.id == id
    then (if status_code r.status == status_code expect then record r { status = next } else r) ∷ rs
    else r ∷ set_status id expect next rs

abbrev pub has_status : ReservationStatus → Option Reservation → Bool
has_status s none = false
has_status s (some r) = status_code r.status == status_code s

-- `ReservationRepository.UpdateStatus`: whether a row was changed.
unfoldable pub update_status : ℕ → ReservationStatus → ReservationStatus → M Bool
update_status id expect next db = ok (
  has_status expect (find_reservation id db.reservations),
  record db { reservations = set_status id expect next db.reservations },
)
