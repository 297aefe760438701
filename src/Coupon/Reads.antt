-- ===== src/Coupon/Reads.antt =====
-- Finding a coupon and checking it reads the tables and does not write
-- (`resolveCoupon` of backend/services/coupon/internal/app/coupon_service.go).
use ec_test.Base.{
  ℕ, ◌≡◌, refl, ◌∙◌, Bool, not, ◌==◌, if◌then◌else◌, Option, none, some, List, [], ◌∷◌,
}
use ec_test.Base.Tx.{pure, throw, gets, guard, ◌>>=◌, ◌>>◌}
use ec_test.Base.Ensures.{
  Ensures, Ensures-bind, Ensures-map, Ensures-pure, Ensures-err, Ensures-guard,
}
use ec_test.Coupon.Domain.{
  SellerSubtotal, Coupon, platform, seller, is_revoked, is_within_validity, is_past,
}
use ec_test.Coupon.Store.{
  Platform, Db, M, Error, get_by_code_for_update, coupon_not_found, bad_request, coupon_revoked,
  coupon_expired, coupon_not_started, currency_mismatch, min_order_not_met, coupon_per_user_limit,
}
use ec_test.Coupon.Reserve.{
  find_seller_coupon, find_applicable, check_coupon, resolve_coupon, applicable, within_user_limit,
}
use ec_test.Coupon.Redemptions.{count_by_buyer_and_coupon}
use ec_test.Base.Int.{leb_ℤ}

pub record Reads {A : Type 0} (m : M A) : Type 0 where
  pub reads : (db : Db) → Ensures (λ _ db'. db' ≡ db) (m db)

module _ {A B : Type 0} where
  Reads-bind : (m : M A) (f : A → M B) → Reads m → ((a : A) → Reads (f a)) → Reads (m >>= f)
  Reads-bind m f h g = record {
    reads = λ db.
        Ensures-bind _ (h.reads db) λ a db1 s1. Ensures-map ((g a).reads db1) (λ _ _ s2. s2 ∙ s1);
  }

  Reads-option :
      (f : M B) (g : A → M B) (o : Option A)
      → Reads f
      → ((a : A) → Reads (g a))
      → Reads (elim o as (λ _. M B) [ none ↦ f | some a ↦ g a ])
  Reads-option f g none h k = h
  Reads-option f g (some a) h k = k a

module _ {A : Type 0} where
  Reads-guard : (c : Bool) (e : Error) (m : M A) → Reads m → Reads (guard c e >> m)
  Reads-guard c e m h =
      Reads-bind (guard c e) (λ _. m)
        (record {
          reads = λ db.
              Ensures-map (Ensures-guard {P = λ s. s ≡ db} c e db refl) (λ _ _ (_, same). same);
        })
        (λ _. h)

  Reads-pure : (a : A) → Reads (pure a)
  Reads-pure a = record { reads = λ db. Ensures-pure a db refl }

  Reads-gets : (f : Db → A) → Reads (gets f)
  Reads-gets f = record { reads = λ db. Ensures-pure (f db) db refl }

  Reads-throw : (e : Error) → Reads {A = A} (throw e)
  Reads-throw e = record { reads = λ db. Ensures-err e }

find_seller_coupon-Reads :
    (p : Platform) (code : ℕ) (ss : List SellerSubtotal) → Reads (find_seller_coupon p code ss)
unfolding find_seller_coupon
find_seller_coupon-Reads p code [] = Reads-pure none
find_seller_coupon-Reads p code (s ∷ ss) =
    Reads-bind (get_by_code_for_update p seller (some s.seller_id) code) _ (Reads-gets _)
      λ candidate.
        Reads-option _ _ candidate (find_seller_coupon-Reads p code ss)
          (λ c. Reads-pure (some (c, s.seller_id)))

find_applicable-Reads :
    (p : Platform) (code : ℕ) (ss : List SellerSubtotal) → Reads (find_applicable p code ss)
unfolding find_applicable
find_applicable-Reads p code ss =
    Reads-bind (get_by_code_for_update p platform none code) _ (Reads-gets _) λ found.
      Reads-option _ _ found
        (Reads-bind (find_seller_coupon p code ss) _ (find_seller_coupon-Reads p code ss)
          λ from_seller.
            Reads-option _ _ from_seller (Reads-throw coupon_not_found)
              (λ c. Reads-pure (c.0, some c.1)))
        (λ c. Reads-pure (c, none))

check_coupon-Reads :
    (p : Platform) (buyer : ℕ) (ss : List SellerSubtotal) (currency now : ℕ) (c : Coupon)
    (seller_id : Option ℕ)
    → Reads (check_coupon p buyer ss currency now c seller_id)
unfolding check_coupon
check_coupon-Reads p buyer ss currency now c seller_id =
    Reads-guard (not (is_revoked c.status)) coupon_revoked _ (
      Reads-guard (is_within_validity c now)
        (if is_past now c.expires_at then coupon_expired else coupon_not_started) _
        (Reads-guard (p.equal_fold c.currency currency) currency_mismatch _ (
          Reads-guard (leb_ℤ c.min_order_amount (applicable seller_id ss)) min_order_not_met _ (
            Reads-bind (gets (λ db. count_by_buyer_and_coupon buyer c.id db.redemptions)) _
              (Reads-gets _)
              λ count.
                Reads-guard (within_user_limit c.usage_limit_per_user count) coupon_per_user_limit _
                  (Reads-pure (record {
                    coupon = c;
                    applicable_seller_id = seller_id;
                    applicable_subtotal = applicable seller_id ss;
                  }))))))

pub resolve_coupon-Reads :
    (p : Platform) (code buyer : ℕ) (ss : List SellerSubtotal) (currency now : ℕ)
    → Reads (resolve_coupon p code buyer ss currency now)
unfolding resolve_coupon
resolve_coupon-Reads p code buyer ss currency now =
    Reads-guard (not (p.trim_space code == 0)) bad_request _ (
      Reads-guard (not (buyer == 0)) bad_request _ (
        Reads-bind (find_applicable p (p.trim_space code) ss) _ (find_applicable-Reads p _ ss)
          λ found. check_coupon-Reads p buyer ss _ now found.0 found.1))
