-- ===== src/Loyalty/Domain.antt =====
-- The types of the loyalty service (backend/services/loyalty/internal/domain/ledger.go), its
-- configuration, and the accrual formula. Auth0 ids, order ids and uuids are only compared, so
-- they are numbers; 0 is the empty text and the nil uuid. An int64 amount is an integer. Notes,
-- the Stripe id and the order candidate of a reservation, which no code reads, and the stamps
-- created_at, updated_at, committed_at and released_at are left out.
use ec_test.Base.{ℕ, ◌+◌, Bool, ◌||◌, Option, none, some, ◌==◌, if◌then◌else◌}
use ec_test.Base.Int.{ℤ, pos, ◌-ℤ◌, leb_ℤ, mul64, quot64, pos_part}

pub data TransactionType : Type 0 where
  earn redeem refund reverse_earn adjust expire : TransactionType

pub data SourceType : Type 0 where
  order_paid reservation_commit order_cancelled admin_adjust expiration_job : SourceType

pub data ReservationStatus : Type 0 where
  pending committed released expired : ReservationStatus

pub record Account : Type 0 where
  pub buyer_auth0_id : ℕ
  pub balance : ℤ
  pub pending_redemption : ℤ
  pub lifetime_earned : ℤ
  pub lifetime_redeemed : ℤ
  pub version : ℕ

pub record Transaction : Type 0 where
  pub id : ℕ
  pub buyer_auth0_id : ℕ
  pub type : TransactionType
  pub amount : ℤ
  pub balance_after : ℤ
  pub source_type : SourceType
  pub source_id : ℕ
  pub reservation_id : Option ℕ
  pub expires_at : Option ℕ

pub record Reservation : Type 0 where
  pub id : ℕ
  pub buyer_auth0_id : ℕ
  pub amount : ℤ
  pub status : ReservationStatus
  pub expires_at : ℕ

-- The fields of `Service` that are no stores.
pub record Config : Type 0 where
  pub earn_rate_bps : ℤ
  pub reservation_ttl : ℕ
  pub earn_expiration : ℤ
  pub expiration_batch_size : ℕ

-- The constants compare by a number each.
abbrev pub type_code : TransactionType → ℕ
type_code earn = 0
type_code redeem = 1
type_code refund = 2
type_code reverse_earn = 3
type_code adjust = 4
type_code expire = 5

abbrev pub source_code : SourceType → ℕ
source_code order_paid = 0
source_code reservation_commit = 1
source_code order_cancelled = 2
source_code admin_adjust = 3
source_code expiration_job = 4

abbrev pub status_code : ReservationStatus → ℕ
status_code pending = 0
status_code committed = 1
status_code released = 2
status_code expired = 3

abbrev pub is_pending : ReservationStatus → Bool
is_pending s = status_code s == status_code pending

-- `Account.Spendable`
unfoldable pub spendable : Account → ℤ
spendable a = a.balance -ℤ a.pending_redemption

-- `ComputeEarnAmount`
unfoldable pub compute_earn_amount : ℤ → ℤ → ℤ
compute_earn_amount paid_subtotal earn_rate_bps =
    if leb_ℤ paid_subtotal (pos 0) || leb_ℤ earn_rate_bps (pos 0)
    then pos 0
    else quot64 (mul64 paid_subtotal earn_rate_bps) 10000

-- `Service.expirationFor`
unfoldable pub expiration_for : Config → ℕ → Option ℕ
expiration_for c now =
    if leb_ℤ c.earn_expiration (pos 0) then none else some (now + pos_part c.earn_expiration)

-- `NewService`: thirty minutes, in nanoseconds, and 200 buyers are the defaults.
unfoldable pub new_service : ℤ → ℤ → ℤ → ℤ → Config
new_service earn_rate_bps reservation_ttl earn_expiration expiration_batch_size = record {
  earn_rate_bps = earn_rate_bps;
  reservation_ttl =
      if leb_ℤ reservation_ttl (pos 0) then 1800000000000 else pos_part reservation_ttl;
  earn_expiration = earn_expiration;
  expiration_batch_size =
      if leb_ℤ expiration_batch_size (pos 0) then 200 else pos_part expiration_batch_size;
}
