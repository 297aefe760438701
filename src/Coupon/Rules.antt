-- ===== src/Coupon/Rules.antt =====
-- Rules for the ways in which the coupon service goes on after a statement and answers its caller
-- (backend/services/coupon/internal/app/coupon_service.go).
use ec_test.Base.{◌≡◌, refl, Bool, true, false, Option, none, some, if◌then◌else◌, ◌||◌}
use ec_test.Base.Tx.{Result, ok, err}
use ec_test.Base.Ensures.{Ensures, Ensures-branch, Ensures-pure, Ensures-err}
use ec_test.Coupon.Domain.{Coupon, CouponRedemption}
use ec_test.Coupon.Store.{Platform, Db, M, Error, commit_failed, is_some}
use ec_test.Coupon.Redemptions.{on_failure, scan}
use ec_test.Coupon.Reserve.{reply_of}
use ec_test.Coupon.Admin.{found_or_not}

-- What the code does after a statement, and about its failure.
pub Ensures-on_failure :
    {A B : Type 0} {P : A → Db → Type 0} {Q : B → Db → Type 0} (p : Platform)
    (is_handled : Error → Bool) (statement : M A) (handle : M B) (result : A → M B) (db : Db)
    → Ensures P (statement db)
    → ((a : A) (db' : Db) → P a db' → Ensures Q (result a db'))
    → Ensures Q (handle db)
    → Ensures Q (on_failure p is_handled statement handle result db)
Ensures-on_failure {A} {B} {P} {Q} p is_handled statement handle result db h g d =
    by_result (statement db) h
  where
    by_result :
        (r : Result Error (A × Db))
        → Ensures P r
        → Ensures Q (elim r [
          | ok (a, db') ↦ result a db'
          | err e ↦
              if is_handled e
              then (if p.survives_failure then handle db else err commit_failed)
              else err e
        ])
    by_result (ok (a, db')) k = g a db' k.holds
    by_result (err e) k =
        Ensures-branch (is_handled e) _ _
          (λ _. Ensures-branch p.survives_failure _ _ (λ _. d) (λ _. Ensures-err _))
          (λ _. Ensures-err _)

pub scan-Reads :
    (p : Platform) (o : Option CouponRedemption) (db : Db)
    → Ensures (λ found db'. (found ≡ o) × (db' ≡ db)) (scan p o db)
scan-Reads p none db = Ensures-pure none db (refl, refl)
scan-Reads p (some r) db =
    Ensures-branch (p.scans_null || is_some r.refunded_reason) _ _
      (λ _. Ensures-pure (some r) db (refl, refl)) (λ _. Ensures-err _)

-- An error that is renamed.
pub map_error-Ensures :
    {A : Type 0} {P : A → Db → Type 0} (f : Error → Error) (x : Result Error (A × Db))
    → Ensures P x
    → Ensures P (elim x as (λ _. Result Error (A × Db)) [ ok y ↦ ok y | err e ↦ err (f e) ])
map_error-Ensures f (ok y) h = record { holds = h.holds }
map_error-Ensures f (err e) h = Ensures-err _

-- The answer does not change the tables.
module _ (P : Db → Type 0) where
  pub reply_of-keeps :
      {A : Type 0} (keep : Error → Error) (x : Result Error A × Db) → P x.1 → P (reply_of keep x).1
  reply_of-keeps keep (ok a, db) h = h
  reply_of-keeps keep (err e, db) h = h

  pub found_or_not-keeps :
      (o : Option Coupon) (f : Coupon → Result Error Coupon × Db) (db : Db)
      → P db
      → ((c : Coupon) → P (f c).1)
      → P (found_or_not o f db).1
  found_or_not-keeps none f db h g = h
  found_or_not-keeps (some c) f db h g = g c

  pub branch-keeps :
      {A : Type 0} (c : Bool) (x y : Result Error A × Db)
      → (c ≡ true → P x.1)
      → (c ≡ false → P y.1)
      → P (if c then x else y).1
  branch-keeps true x y h g = h refl
  branch-keeps false x y h g = g refl
