-- ===== src/Loyalty/Service.antt =====
-- What the service's operations answer, and the events that they publish
-- (backend/services/loyalty/internal/app/loyalty_service.go). Fresh uuids and the time are
-- arguments. The outcome lists the events in order; a service with no publisher drops them.
use ec_test.Base.{ℕ, List, []}
use ec_test.Base.Int.{ℤ}
use ec_test.Base.Tx.{Result, ok, err}
use ec_test.Loyalty.Domain.{Transaction}
use ec_test.Loyalty.Store.{
  Error, internal, insufficient_points, reservation_not_found, reservation_already_terminal, Db,
}

-- The events of `publishEarned`, `publishRedeemed` and `publishExpired`.
pub data Event : Type 0 where
  points_earned : Transaction → ℕ → Event
  points_redeemed : Transaction → ℕ → Event
  points_expired : ℕ → ℤ → ℕ → ℤ → Event

pub record Outcome (A : Type 0) : Type 0 where
  pub reply : Result Error A
  pub db : Db
  pub events : List Event

module _ {A : Type 0} where
  abbrev pub answer : A → Db → Outcome A
  answer a db = record { reply = ok a; db = db; events = [] }

  abbrev pub fail : Error → Db → Outcome A
  fail e db = record { reply = err e; db = db; events = [] }

-- `apperrors.Internal` hides an error, except where the operation passes it on.
abbrev pub hide_all : Error → Error
hide_all e = internal

abbrev pub keep_insufficient : Error → Error
keep_insufficient insufficient_points = insufficient_points
keep_insufficient _ = internal

abbrev pub keep_not_found : Error → Error
keep_not_found reservation_not_found = reservation_not_found
keep_not_found _ = internal

abbrev pub keep_reservation : Error → Error
keep_reservation reservation_not_found = reservation_not_found
keep_reservation reservation_already_terminal = reservation_already_terminal
keep_reservation _ = internal
