-- ===== src/Order/Payment/Published.antt =====
-- What a delivery that succeeds has done for an order, and what it does with an order that it read
-- too early (backend/services/order/internal/app/order_service.go, `HandlePaymentSuccess`).
use ec_test.Base.{
  ℕ, ◌≡◌, refl, sym, subst, ◌∙◌, Bool, true, false, Option, none, some, if◌then◌else◌, arith,
}
use ec_test.Base.Tx.{ok, err}
use ec_test.Base.Rows.{find_by, update_by, has}
use ec_test.Order.Cancellation.Domain.{
  Order, Payout, PayoutStatus, payout_pending, payout_completed, payout_failed, payout_reversed,
  is_cancelled, is_pending_order,
}
use ec_test.Order.Cancellation.Store.{
  is_some, find_order, update_order, set_paid, paid_with, order_not_pending, statement_failed,
}
use ec_test.Order.Payment.Store.{
  get_by_order_id, is_published, update_payout_status, with_payout_status,
}
use ec_test.Order.Payment.Handler.{
  Config, Outside, write_payout, transferred, with_effect, World, after_update, after_transfer,
  by_status, by_payout, after_paid, after_set_paid, handle_order,
}
use ec_test.Order.Payment.Announced.{
  IsDone, is_announced, can_pay_out, published_same, commit_all-IsDone, fails,
}

module _ (config : Config) (outside : Outside) (now : ℕ) (p : Payout) (before : Bool) where
  after_update-IsDone :
      (o : Order) (t : ℕ) (w : World) (c : Bool)
      → o.paid_event_published_at ≡ none
      → is_published (find_order o.id w.db.orders) ≡ before
      → IsDone outside o p before (
          after_update config outside now o p t w
            (if c then update_payout_status p.id payout_completed (some t) w.db else none))
  unfolding after_update update_payout_status
  after_update-IsDone o t w false n s = fails config outside now p before o _ _
  after_update-IsDone o t w true n s =
      elim (is_some (find_by (has (λ x. x.id) p.id) w.db.payouts))
        as (λ b. IsDone outside o p before (
          after_update config outside now o p t w (
            if b
            then some (record w.db {
              payouts =
                  update_by (has (λ x. x.id) p.id) (with_payout_status payout_completed (some t))
                    w.db.payouts;
            })
            else none))) [
              | true ↦ commit_all-IsDone config outside now p before o t _ n s
              | false ↦ fails config outside now p before o _ _
            ]

  by_status-IsDone :
      (o : Order) (w : World) (s : PayoutStatus)
      → o.paid_event_published_at ≡ none
      → is_published (find_order o.id w.db.orders) ≡ before
      → can_pay_out outside p s ≡ true
      → IsDone outside o p before (by_status config outside now o p w s)
  unfolding by_status after_transfer write_payout
  by_status-IsDone o w payout_pending n s c = by_transfer (outside.create_transfer p) c
    where
      by_transfer :
          (r : Option ℕ)
          → is_some r ≡ true
          → IsDone outside o p before (after_transfer config outside now o p w r)
      by_transfer none d = record { holds = λ _. ground (arith, d) }
      by_transfer (some t) d =
          after_update-IsDone o t (with_effect (transferred p.id p.amount t) w)
            (outside.writes_payout p.id) n s
  by_status-IsDone o w payout_completed n s c =
      commit_all-IsDone config outside now p before o _ w n s
  by_status-IsDone o w payout_failed n s c = record { holds = λ _. ground (arith, c) }
  by_status-IsDone o w payout_reversed n s c = record { holds = λ _. ground (arith, c) }

  after_paid-IsDone :
      (o : Order) (w : World)
      → o.paid_event_published_at ≡ none
      → is_published (find_order o.id w.db.orders) ≡ before
      → get_by_order_id o.id w.db ≡ some p
      → can_pay_out outside p p.status ≡ true
      → IsDone outside o p before (after_paid config outside now o w)
  unfolding after_paid by_payout
  after_paid-IsDone o w n s f c =
      subst (λ r. IsDone outside o p before (by_payout config outside now o w r)) (sym f)
        (by_status-IsDone o w p.status n s c)

  after_set_paid-IsDone :
      (intent : ℕ) (o : Order) (w : World) (row : Option Order)
      → o.paid_event_published_at ≡ none
      → is_published (find_order o.id w.db.orders) ≡ before
      → get_by_order_id o.id w.db ≡ some p
      → can_pay_out outside p p.status ≡ true
      → IsDone outside o p before (
          after_set_paid config outside now o w (elim row [
            | none ↦ err statement_failed
            | some r ↦
                if is_pending_order r.status
                then ok (
                  tt,
                  record w.db { orders = update_order o.id (paid_with now intent) w.db.orders },
                )
                else err order_not_pending
          ]))
  unfolding after_set_paid
  after_set_paid-IsDone intent o w none n s f c = fails config outside now p before o _ _
  after_set_paid-IsDone intent o w (some r) n s f c =
      let kept : is_published
            (find_order o.id (update_order o.id (paid_with now intent) w.db.orders))
          ≡ before =
        published_same o.id (paid_with now intent) w.db.orders (λ _. refl) (λ _. refl) ∙ s in
      elim (is_pending_order r.status)
        as (λ b. IsDone outside o p before (
          after_set_paid config outside now o w (
            if b
            then ok
                (tt, record w.db { orders = update_order o.id (paid_with now intent) w.db.orders })
            else err order_not_pending))) [
              | true ↦ after_paid-IsDone o _ n kept f c
              | false ↦ after_paid-IsDone o w n s f c
            ]

-- An order that was not cancelled and whose event was not published when it was read, and whose
-- payout was paid out before or Stripe transfers now: if the loop goes on after it without an
-- error, then either its row said already that the event is published, or the last that the call
-- does outside is to publish the event of the order and then the event of the payout, and the row
-- says that it is published unless the database refused the mark.
pub handle_order-publishes :
    (config : Config) (outside : Outside) (now intent : ℕ) (o : Order) (p : Payout) (w : World)
    → is_cancelled o.status ≡ false
    → o.paid_event_published_at ≡ none
    → get_by_order_id o.id w.db ≡ some p
    → can_pay_out outside p p.status ≡ true
    → (handle_order config outside now intent o w).0 ≡ none
    → is_announced outside o p
        (is_published (find_order o.id w.db.orders))
        (handle_order config outside now intent o w).1
      ≡ true
unfolding handle_order set_paid
handle_order-publishes config outside now intent o p w l n f c =
    let before = is_published (find_order o.id w.db.orders) in
    (subst
      (λ b. IsDone outside o p before (
        if b
        then (none, w)
        else after_set_paid config outside now o w (set_paid o.id now intent w.db)))
      (sym l)
      (after_set_paid-IsDone config outside now p before intent o w (find_order o.id w.db.orders) n
        refl f c)).holds
