-- ===== src/Coupon/Store.antt =====
-- The tables of the coupon service and the statements on them
-- (backend/services/coupon/internal/adapter/postgres, and the constraints of
-- infra/db/migrations/coupon). A primary key names one row: a statement on an id goes to the first
-- row with it. Failures of the database itself are not modelled.
use ec_test.Base.{
  ℕ, zero, suc, ◌+◌, ◌-◌, ◌^◌, Bool, true, false, not, ◌&&◌, Option, none, some, List, [], ◌∷◌,
  ◌==◌, ltb, if◌then◌else◌,
}
use ec_test.Base.Int.{ℤ, pos, leb_ℤ, ltb_ℤ}
use ec_test.Base.Tx.{Tx, ok, err, pure, gets, ◌>>=◌}
use ec_test.Coupon.Domain.{
  IssuerType, platform, seller, no_issuer, other_issuer, DiscountType, percent, fixed_amount,
  ReservationStatus, pending, expired, Coupon, CouponReservation, CouponRedemption, status_code,
  is_pending,
}

-- What the service relies on of code that is not its own: the texts of Go and PostgreSQL, and the
-- driver of the database.
pub record Platform : Type 0 where
  -- `strings.TrimSpace`, `UPPER` and `strings.EqualFold`.
  pub trim_space : ℕ → ℕ
  pub upper : ℕ → ℕ
  pub equal_fold : ℕ → ℕ → Bool
  -- Whether a NULL column can be read into a Go string.
  pub scans_null : Bool
  -- Whether a transaction can be committed after one of its statements has failed.
  pub survives_failure : Bool

-- The sentinel errors of domain/errors.go and port/errors.go, the wrappers of pkg/errors, and the
-- failures of statements.
pub data Error : Type 0 where
  bad_request internal : Error
  coupon_not_found coupon_expired coupon_revoked coupon_not_started : Error
  coupon_usage_limit_hit coupon_per_user_limit min_order_not_met currency_mismatch : Error
  invalid_coupon_input reservation_not_found reservation_already_terminal : Error
  usage_limit_exceeded duplicate_redemption duplicate_refund_event : Error
  statement_failed commit_failed : Error

-- `refund_events` holds the redemption and the cancelled order of each row.
pub record Db : Type 0 where
  pub coupons : List Coupon
  pub reservations : List CouponReservation
  pub redemptions : List CouponRedemption
  pub refund_events : List (ℕ × ℕ)

abbrev pub M : Type 0 → Type 0
M A = Tx Db Error A

abbrev pub issuer_code : IssuerType → ℕ
issuer_code platform = 0
issuer_code seller = 1
issuer_code no_issuer = 2
issuer_code other_issuer = 3

-- The checks on the two kinds of types, and that exactly one amount is set.
abbrev pub check_issuer : IssuerType → Bool
check_issuer platform = true
check_issuer seller = true
check_issuer _ = false

abbrev pub check_amounts : DiscountType → Option ℤ → Option ℤ → Bool
check_amounts percent (some bps) none = true
check_amounts fixed_amount none (some amount) = true
check_amounts _ _ _ = false

abbrev pub or_nil : Option ℕ → ℕ
or_nil none = 0
or_nil (some id) = id

unfoldable pub find_coupon : ℕ → List Coupon → Option Coupon
find_coupon id [] = none
find_coupon id (c ∷ cs) = if c.id == id then some c else find_coupon id cs

-- The WHERE of `GetByCodeForUpdate`, which is also the unique index on the codes.
abbrev pub has_code : Platform → IssuerType → Option ℕ → ℕ → Coupon → Bool
has_code p issuer_type issuer_id code c =
    issuer_code c.issuer_type == issuer_code issuer_type
    && or_nil c.issuer_id == or_nil issuer_id
    && p.upper c.code == p.upper code

unfoldable pub find_code : Platform → IssuerType → Option ℕ → ℕ → List Coupon → Option Coupon
find_code p issuer_type issuer_id code [] = none
find_code p issuer_type issuer_id code (c ∷ cs) =
    if has_code p issuer_type issuer_id code c
    then some c
    else find_code p issuer_type issuer_id code cs

abbrev pub is_some : {A : Type 0} → Option A → Bool
is_some none = false
is_some (some a) = true

-- The constraints of the table on a new row.
abbrev pub check_coupon_row : Platform → Coupon → Db → Bool
check_coupon_row p c db =
    check_issuer c.issuer_type
    && check_amounts c.discount_type c.discount_percent_bps c.discount_amount
    && not (is_some (find_coupon c.id db.coupons))
    && not (is_some (find_code p c.issuer_type c.issuer_id c.code db.coupons))

-- `CouponRepository.Insert`: the row starts with no use.
unfoldable pub insert_coupon : Platform → Coupon → M (Unit {0})
insert_coupon p c db =
    if check_coupon_row p c db
    then ok (tt, record db { coupons = record c { usage_count = 0 } ∷ db.coupons })
    else err statement_failed

-- `CouponRepository.GetByID`
abbrev pub get_coupon_by_id : ℕ → M (Option Coupon)
get_coupon_by_id id = gets (λ db. find_coupon id db.coupons)

-- `CouponRepository.GetByCodeForUpdate`
abbrev pub get_by_code_for_update : Platform → IssuerType → Option ℕ → ℕ → M (Option Coupon)
get_by_code_for_update p issuer_type issuer_id code =
    gets (λ db. find_code p issuer_type issuer_id code db.coupons)

-- An UPDATE of the coupon with this id.
unfoldable pub update_coupon_row : ℕ → (Coupon → Coupon) → List Coupon → List Coupon
update_coupon_row id f [] = []
update_coupon_row id f (c ∷ cs) = if c.id == id then f c ∷ cs else c ∷ update_coupon_row id f cs

abbrev pub below_limit : Option ℤ → ℕ → Bool
below_limit none n = true
below_limit (some limit) n = ltb_ℤ (pos n) limit

abbrev pub use_once : Coupon → Coupon
use_once c = record c { usage_count = c.usage_count + 1 }

abbrev pub use_less : Coupon → Coupon
use_less c = record c { usage_count = c.usage_count - 1 }

-- `CouponRepository.IncrementUsageIfBelowLimit`; the count is an INT.
unfoldable pub increment_usage_if_below_limit : ℕ → M (Unit {0})
unfolding find_coupon
increment_usage_if_below_limit id db = elim (find_coupon id db.coupons) [
  | none ↦ err usage_limit_exceeded
  | some c ↦
      if below_limit c.usage_limit_total c.usage_count
      then (if ltb (c.usage_count + 1) (2 ^ 31)
          then ok (tt, record db { coupons = update_coupon_row id use_once db.coupons })
          else err statement_failed)
      else err usage_limit_exceeded
]

-- `CouponRepository.DecrementUsage`, which stops at zero.
unfoldable pub decrement_usage : ℕ → M (Unit {0})
decrement_usage id db = ok (tt, record db { coupons = update_coupon_row id use_less db.coupons })

unfoldable pub find_reservation : ℕ → List CouponReservation → Option CouponReservation
find_reservation id [] = none
find_reservation id (r ∷ rs) = if r.id == id then some r else find_reservation id rs

-- `ReservationRepository.GetByID`
abbrev pub get_reservation_by_id : ℕ → M (Option CouponReservation)
get_reservation_by_id id = gets (λ db. find_reservation id db.reservations)

-- `ReservationRepository.Insert`, with the CHECK on the amount.
unfoldable pub insert_reservation : CouponReservation → M (Unit {0})
insert_reservation r db =
    if leb_ℤ (pos 0) r.discount_amount
    then ok (tt, record db { reservations = r ∷ db.reservations })
    else err statement_failed

unfoldable pub set_status :
    ℕ → ReservationStatus → ReservationStatus → List CouponReservation → List CouponReservation
set_status id expect next [] = []
set_status id expect next (r ∷ rs) =
    if r.id == id
    then (if status_code r.status == status_code expect then record r { status = next } else r) ∷ rs
    else r ∷ set_status id expect next rs

abbrev pub has_status : ReservationStatus → Option CouponReservation → Bool
has_status s none = false
has_status s (some r) = status_code r.status == status_code s

-- `ReservationRepository.UpdateStatus`: whether a row was changed.
unfoldable pub update_status : ℕ → ReservationStatus → ReservationStatus → M Bool
update_status id expect next db = ok (
  has_status expect (find_reservation id db.reservations),
  record db { reservations = set_status id expect next db.reservations },
)

abbrev pub is_stale : ℕ → CouponReservation → Bool
is_stale now r = is_pending r.status && ltb r.expires_at now

-- `ReservationRepository.ClaimExpired`: which of the stale rows the database takes, at most
-- `limit`, is the list `chosen`; a row that does not qualify is not taken.
unfoldable pub claim_expired : ℕ → ℕ → List ℕ → M (List CouponReservation)
claim_expired now zero chosen db = ok ([], db)
claim_expired now (suc limit) [] db = ok ([], db)
claim_expired now (suc limit) (id ∷ chosen) db = elim (find_reservation id db.reservations) [
  | none ↦ claim_expired now (suc limit) chosen db
  | some r ↦ elim (is_stale now r) [
    | false ↦ claim_expired now (suc limit) chosen db
    | true ↦
        (do rest ← claim_expired now limit chosen; pure (r ∷ rest))
          (record db { reservations = set_status id pending expired db.reservations })
  ]
]
