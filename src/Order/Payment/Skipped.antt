-- ===== src/Order/Payment/Skipped.antt =====
-- A cancelled order, while the webhook of its payment is handled
-- (backend/services/order/internal/app/order_service.go, `HandlePaymentSuccess`).
use ec_test.Base.{
  ℕ, ◌≡◌, refl, sym, ap, subst, ◌∙◌, Bool, true, false, Option, none, some, List, [], ◌∷◌, ◌==◌,
  if◌then◌else◌, Bool-cases, arith, inl, inr,
}
use ec_test.Base.Rows.{
  find_by, count_by, has, IsUnique, IsUnique-update, find-own, find-holds, rest-absent,
}
use ec_test.Base.Lookups.{find-update_rest}
use ec_test.Order.Cancellation.Domain.{
  Order, Payout, PayoutStatus, payout_failed, payout_completed, is_cancelled,
}
use ec_test.Order.Cancellation.Store.{Db, find_order, update_order}
use ec_test.Order.Payment.Store.{
  get_by_order_id, update_payout_status, with_payout_status, find_all_by_intent, has_intent,
}
use ec_test.Order.Payment.Handler.{
  Config, Outside, Effect, transferred, coupon_committed, points_committed, order_paid,
  payout_completed_event, payout_failed_event, World, with_effect, with_db, handle_payment_success,
}
use ec_test.Order.Payment.Keeps.{Keeps, AllKeep, is_effect_on, handle_read-keeps}
use ec_test.Order.Payment.Once.{updated_db}

abbrev pub payout_id : Payout → ℕ
payout_id p = p.id

abbrev pub order_key : Order → ℕ
order_key o = o.id

absurd : {A : Type 0} → true ≡ false → A
absurd {A} h = subst (λ b. elim b as (λ _. Type 0) [ true ↦ Unit {0} | false ↦ A ]) h tt

find-update_elsewhere :
    (id k : ℕ) (f : Order → Order) (os : List Order)
    → (id == k) ≡ false
    → ((r : Order) → (f r).id ≡ r.id)
    → find_order k (update_order id f os) ≡ find_order k os
unfolding find_order update_order
find-update_elsewhere id k f [] d e = refl
find-update_elsewhere id k f (o ∷ os) d e =
    let same = e o in ground (arith, find-update_elsewhere id k f os)

-- What does not change: the row, the payout and the effects of one order.
module _ (k : ℕ) (row : Option Order) (payout : Option Payout) (n : ℕ) where
  unfoldable IsUntouched : World → Type 0
  unfolding find_order count_by IsUnique
  IsUntouched w =
      (find_order k w.db.orders ≡ row)
      × (get_by_order_id k w.db ≡ payout)
      × (count_by (is_effect_on k) w.effects ≡ n)
      × IsUnique payout_id w.db.payouts

  -- The payout of another order changes.
  update_payout_status-IsUntouched :
      (id : ℕ) (p : Payout) (s : PayoutStatus) (t : Option ℕ) (w : World) (db : Db)
      → (id == k) ≡ false
      → get_by_order_id id w.db ≡ some p
      → update_payout_status p.id s t w.db ≡ some db
      → IsUntouched w
      → IsUntouched (with_db db w)
  unfolding IsUntouched update_payout_status
  update_payout_status-IsUntouched id p s t w db d f u h =
      let found = find-own payout_id (has (λ x. x.order_id) id) w.db.payouts p h.3 f in
      let own = find-holds (has (λ x. x.order_id) id) w.db.payouts p f in
      let other : (p.order_id == k) ≡ false = ground arith in
      subst (λ d'. IsUntouched (with_db d' w)) (sym (updated_db p.id s t w.db db u))
        (
          h.0,
          find-update_rest payout_id p.id (has (λ x. x.order_id) k) (with_payout_status s t)
                (λ _. refl) w.db.payouts p h.3 found other
              ∙ h.1,
          h.2,
          IsUnique-update payout_id p.id (with_payout_status s t) payout_id w.db.payouts (λ _. refl)
              h.3,
        )

  IsUntouched-Keeps :
      (outside : Outside) (id : ℕ) → (id == k) ≡ false → Keeps outside IsUntouched IsUntouched id
  unfolding IsUntouched
  IsUntouched-Keeps outside id d = record {
    orders = λ f w e h. (find-update_elsewhere id k f w.db.orders d e ∙ h.0, h.1, h.2, h.3);
    effects = λ e w own h. (h.0, h.1, other_effect e w own ∙ h.2, h.3);
    failed = λ p db w f u h. update_payout_status-IsUntouched id p payout_failed none w db d f u h;
    paid_out = λ p t db w f e u h.
        update_payout_status-IsUntouched id p payout_completed (some t)
          (with_effect (transferred p.id p.amount t) w) db d f u
          (h.0, h.1, ground (arith, h.2), h.3);
    unwritten = λ p t w f e c h. (h.0, h.1, ground (arith, h.2), h.3);
  }
    where
      other_effect :
          (e : Effect) (w : World)
          → is_effect_on id e ≡ true
          → count_by (is_effect_on k) (e ∷ w.effects) ≡ count_by (is_effect_on k) w.effects
      other_effect (transferred payout_id amount transfer) w own = ground (arith, own)
      other_effect (coupon_committed reservation_id order_id) w own = ground (arith, own, d)
      other_effect (points_committed order_id) w own = ground (arith, own, d)
      other_effect (order_paid order_id points) w own = ground (arith, own, d)
      other_effect (payout_completed_event payout_id order_id amount t) w own =
          ground (arith, own, d)
      other_effect (payout_failed_event payout_id order_id) w own = ground (arith, own, d)

  same : (w : World) → IsUntouched w → IsUntouched w
  same w h = h

  -- The webhook goes on with the other orders only.
  module _ (config : Config) (outside : Outside) (now intent : ℕ) where
    cons_keep :
        (b : Bool) (o : Order) (rest : List Order)
        → (is_cancelled o.status ≡ false → Keeps outside IsUntouched IsUntouched o.id)
        → AllKeep config outside now IsUntouched IsUntouched same rest
        → AllKeep config outside now IsUntouched IsUntouched same (if b then o ∷ rest else rest)
    cons_keep true o rest h k = (h, k)
    cons_keep false o rest h k = k

    others_keep :
        (os : List Order)
        → find_by (has order_key k) os ≡ none
        → AllKeep config outside now IsUntouched IsUntouched same (find_all_by_intent intent os)
    unfolding find_all_by_intent find_by
    others_keep [] h = tt
    others_keep (o ∷ os) h =
        let other : (o.id == k) ≡ false = ground (arith, h) in
        let below : find_by (has order_key k) os ≡ none = ground (arith, h) in
        cons_keep (has_intent intent o.stripe_payment_intent_id) o (find_all_by_intent intent os)
          (λ _. IsUntouched-Keeps outside o.id other) (others_keep os below)

    all_keep :
        (os : List Order) (r : Order)
        → IsUnique order_key os
        → find_order k os ≡ some r
        → is_cancelled r.status ≡ true
        → AllKeep config outside now IsUntouched IsUntouched same (find_all_by_intent intent os)
    unfolding find_all_by_intent find_by find_order IsUnique
    all_keep [] r u h c = tt
    all_keep (o ∷ os) r u h c = elim (Bool-cases (o.id == k)) [
      | inl d ↦
          let is_r : some o ≡ some r = ground (arith, h, d) in
          let gone = ap (λ x. elim x [ none ↦ true | some y ↦ is_cancelled y.status ]) is_r ∙ c in
          cons_keep (has_intent intent o.stripe_payment_intent_id) o (find_all_by_intent intent os)
            (λ no. absurd (sym gone ∙ no)) (others_keep os (rest-absent order_key k o os u d))
      | inr d ↦
          cons_keep (has_intent intent o.stripe_payment_intent_id) o (find_all_by_intent intent os)
            (λ _. IsUntouched-Keeps outside o.id d) (all_keep os r u.1 (ground (arith, h, d)) c)
    ]

-- Handling the payment of a cancelled order leaves the row of the order and its payout as they are,
-- commits nothing for it and publishes no event of it, whatever is done for the other orders of the
-- payment, and whether the call fails or not. The ids of the orders and of the payouts are unique.
pub handle_payment_success-skips :
    (config : Config) (outside : Outside) (now intent k : ℕ) (r : Order) (w : World)
    → IsUnique order_key w.db.orders
    → IsUnique payout_id w.db.payouts
    → find_order k w.db.orders ≡ some r
    → is_cancelled r.status ≡ true
    → (find_order k (handle_payment_success config outside now intent w).1.db.orders ≡ some r)
      × (get_by_order_id k (handle_payment_success config outside now intent w).1.db
          ≡ get_by_order_id k w.db)
      × (count_by (is_effect_on k) (handle_payment_success config outside now intent w).1.effects
          ≡ count_by (is_effect_on k) w.effects)
unfolding handle_payment_success IsUntouched
handle_payment_success-skips config outside now intent k r w u v f c =
    let done =
      handle_read-keeps config outside now
        (IsUntouched k (some r) (get_by_order_id k w.db) (count_by (is_effect_on k) w.effects))
        (IsUntouched k (some r) (get_by_order_id k w.db) (count_by (is_effect_on k) w.effects))
        (λ _ h. h) intent (find_all_by_intent intent w.db.orders) w
        (all_keep k (some r) (get_by_order_id k w.db) (count_by (is_effect_on k) w.effects) config
          outside now intent w.db.orders r u f c)
        (f, refl, refl, v) in
    (done.0, done.1, done.2)
