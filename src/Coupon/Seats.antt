-- ===== src/Coupon/Seats.antt =====
-- The use of a coupon against its pending reservations and live redemptions, table by table
-- (backend/services/coupon/internal/adapter/postgres).
pub mod Statements
pub mod Calls
pub mod Redeem
pub mod History
use ec_test.Base.{
  ℕ, ◌+◌, ◌-◌, ◌≤◌, ◌≡◌, refl, sym, ap, subst, ◌∙◌, Bool, true, false, not, ◌&&◌, ◌||◌, Option,
  none, some, List, [], ◌∷◌, ◌==◌, if◌then◌else◌, arith, Bool-cases, ==_iff, inl, inr,
}
use ec_test.Coupon.Domain.{
  Coupon, CouponReservation, CouponRedemption, ReservationStatus, pending, is_pending, status_code,
}
use ec_test.Coupon.Store.{
  Db, find_coupon, update_coupon_row, use_once, use_less, find_reservation, set_status, has_status,
  is_some,
}
use ec_test.Coupon.Redemptions.{find_redemption, has_id, update_redemption}
use ec_test.Coupon.Admin.{count_pending_by_coupon}

-- `usage_count` of the coupon with this id.
unfoldable pub usage : ℕ → List Coupon → ℕ
usage k [] = 0
usage k (c ∷ cs) = if c.id == k then c.usage_count else usage k cs

-- The redemptions of a coupon that are not refunded in full.
unfoldable pub live_redemptions : ℕ → List CouponRedemption → ℕ
live_redemptions k [] = 0
live_redemptions k (r ∷ rs) =
    (if r.coupon_id == k && not (is_some r.refunded_at) then 1 else 0) + live_redemptions k rs

-- The seats of a coupon that are taken.
abbrev pub seats : ℕ → Db → ℕ
seats k db = count_pending_by_coupon k db.reservations + live_redemptions k db.redemptions

-- One seat of the coupon `c`, as the coupon `k` sees it.
abbrev pub one : ℕ → ℕ → ℕ
one k c = if c == k then 1 else 0

-- No two redemptions share an id.
abbrev pub AreDistinct : List CouponRedemption → Type 0
AreDistinct [] = Unit {0}
AreDistinct (r ∷ rs) = (find_redemption (has_id r.id) rs ≡ none) × AreDistinct rs

pub usage-use_once :
    (k id : ℕ) (cs : List Coupon)
    → is_some (find_coupon id cs) ≡ true
    → usage k (update_coupon_row id use_once cs) ≡ usage k cs + one k id
unfolding usage update_coupon_row find_coupon
usage-use_once k id [] h = cc
usage-use_once k id (c ∷ cs) h = ground (arith, usage-use_once k id cs)

pub usage-use_less :
    (k id : ℕ) (cs : List Coupon)
    → usage k (update_coupon_row id use_less cs) ≡ usage k cs - one k id
unfolding usage update_coupon_row
usage-use_less k id [] = ground arith
usage-use_less k id (c ∷ cs) = ground (arith, usage-use_less k id cs)

-- An update that leaves the count alone.
pub usage-same :
    (k id : ℕ) (f : Coupon → Coupon) (cs : List Coupon)
    → ((c : Coupon) → (f c).id ≡ c.id)
    → ((c : Coupon) → (f c).usage_count ≡ c.usage_count)
    → usage k (update_coupon_row id f cs) ≡ usage k cs
unfolding usage update_coupon_row
usage-same k id f [] hi hu = refl
usage-same k id f (c ∷ cs) hi hu = ground (arith, usage-same k id f cs hi hu, hi c, hu c)

pub usage-missing : (k : ℕ) (cs : List Coupon) → is_some (find_coupon k cs) ≡ false → usage k cs ≡ 0
unfolding usage find_coupon
usage-missing k [] h = refl
usage-missing k (c ∷ cs) h = ground (arith, usage-missing k cs)

pub pending-set_status :
    (k id : ℕ) (next : ReservationStatus) (rs : List CouponReservation) (r : CouponReservation)
    → is_pending next ≡ false
    → find_reservation id rs ≡ some r
    → is_pending r.status ≡ true
    → count_pending_by_coupon k (set_status id pending next rs) + one k r.coupon_id
      ≡ count_pending_by_coupon k rs
unfolding count_pending_by_coupon set_status find_reservation
pending-set_status k id next [] r n h p = cc
pending-set_status k id next (x ∷ rs) r n h p = ground (arith, pending-set_status k id next rs r n)

pub pending-set_status_other :
    (k id : ℕ) (next : ReservationStatus) (rs : List CouponReservation)
    → has_status pending (find_reservation id rs) ≡ false
    → count_pending_by_coupon k (set_status id pending next rs) ≡ count_pending_by_coupon k rs
unfolding count_pending_by_coupon set_status find_reservation
pending-set_status_other k id next [] h = refl
pending-set_status_other k id next (x ∷ rs) h =
    ground (arith, pending-set_status_other k id next rs)

-- A redemption is found by its id, if it is found at all.
pub find-by_id :
    (test : CouponRedemption → Bool) (rs : List CouponRedemption) (r : CouponRedemption)
    → AreDistinct rs
    → find_redemption test rs ≡ some r
    → find_redemption (has_id r.id) rs ≡ some r
unfolding find_redemption
find-by_id test [] r d h = cc
find-by_id test (x ∷ rs) r d h = elim (Bool-cases (test x)) [
  | inl here ↦
      let e : x ≡ r = let h' = rw here at h in cc in
      subst (λ y. find_redemption (has_id y.id) (x ∷ rs) ≡ some y) e
        (rw ((==_iff x.id x.id).1 refl) refl)
  | inr later ↦
      let ih = find-by_id test rs r d.1 (rw later at h) in
      elim (Bool-cases (x.id == r.id)) [
        | inl same ↦
            let none_left =
              subst (λ i. find_redemption (has_id i) rs ≡ none) ((==_iff x.id r.id).0 same) d.0 in
            cc
        | inr other ↦ rw other ih
      ]
]

pub live-update :
    (k : ℕ) (f : CouponRedemption → CouponRedemption) (rs : List CouponRedemption)
    (r : CouponRedemption) (freed : Bool)
    → find_redemption (has_id r.id) rs ≡ some r
    → r.refunded_at ≡ none
    → (f r).coupon_id ≡ r.coupon_id
    → is_some (f r).refunded_at ≡ freed
    → live_redemptions k (update_redemption r.id f rs) + (if freed then one k r.coupon_id else 0)
      ≡ live_redemptions k rs
unfolding live_redemptions update_redemption find_redemption
live-update k f [] r freed h live c e = cc
live-update k f (x ∷ rs) r freed h live c e = elim (Bool-cases (x.id == r.id)) [
  | inl here ↦
      let found : x ≡ r = let h' = rw here at h in cc in
      rw here (
        subst
          (λ y.
            live_redemptions k (f y ∷ rs) + (if freed then one k r.coupon_id else 0)
            ≡ live_redemptions k (y ∷ rs))
          (sym found) (rw (c, e, live) (ground arith)))
  | inr later ↦
      let ih = live-update k f rs r freed (rw later at h) live c e in rw later (omega (arith, ih))
]

find-update_none :
    (id j : ℕ) (f : CouponRedemption → CouponRedemption) (rs : List CouponRedemption)
    → ((r : CouponRedemption) → (f r).id ≡ r.id)
    → find_redemption (has_id j) rs ≡ none
    → find_redemption (has_id j) (update_redemption id f rs) ≡ none
unfolding find_redemption update_redemption
find-update_none id j f [] h e = refl
find-update_none id j f (r ∷ rs) h e = ground (arith, h r, find-update_none id j f rs h)

pub AreDistinct-update :
    (id : ℕ) (f : CouponRedemption → CouponRedemption) (rs : List CouponRedemption)
    → ((r : CouponRedemption) → (f r).id ≡ r.id)
    → AreDistinct rs
    → AreDistinct (update_redemption id f rs)
unfolding find_redemption update_redemption
AreDistinct-update id f [] h d = tt
AreDistinct-update id f (r ∷ rs) h d = elim (Bool-cases (r.id == id)) [
  | inl here ↦ rw here (rw (h r) d.0, d.1)
  | inr later ↦ rw later (find-update_none id r.id f rs h d.0, AreDistinct-update id f rs h d.1)
]
