-- ===== src/Order/Payment/Stale.antt =====
-- An order that is cancelled after the webhook has read it
-- (backend/services/order/internal/app/order_service.go, `HandlePaymentSuccess`).
use ec_test.Base.{
  ℕ, ◌+◌, ◌≡◌, refl, sym, ap, subst, ◌∙◌, ◌≤◌, true, false, Option, none, some, if◌then◌else◌,
  arith,
}
use ec_test.Base.Tx.{Result, ok, err}
use ec_test.Base.Rows.{count_by}
use ec_test.Order.Cancellation.Domain.{
  Order, OrderStatus, Payout, payout_pending, payout_completed, is_cancelled, is_pending_order,
  pending, paid, processing, shipped, delivered, completed, cancelled, other_status,
}
use ec_test.Order.Cancellation.Store.{
  Db, Error, find_order, set_paid, order_not_pending, statement_failed, update_order, paid_with,
}
use ec_test.Order.Payment.Store.{get_by_order_id}
use ec_test.Order.Payment.Handler.{
  Config, Outside, transferred, World, with_effect, with_db, after_update, after_transfer,
  write_payout, Failure, by_status, by_payout, after_paid, after_set_paid, handle_order,
}
use ec_test.Order.Payment.Keeps.{Keeps, Ends, commit_all-Kept}
use ec_test.Order.Payment.Once.{transfer_count}

-- At least so many transfers of a payout.
module _ (k n : ℕ) where
  unfoldable HasTransfers : World → Type 0
  unfolding transfer_count
  HasTransfers w = n ≤ transfer_count k w

  HasTransfers-Keeps : (outside : Outside) (id : ℕ) → Keeps outside HasTransfers HasTransfers id
  unfolding HasTransfers transfer_count count_by
  HasTransfers-Keeps outside id = record {
    orders = λ f w e h. h;
    effects = λ e w own h. omega (arith, h);
    failed = λ p db w f u h. h;
    paid_out = λ p t db w f e u h. omega (arith, h);
    unwritten = λ p t w f e d h. omega (arith, h);
  }

not_pending : (s : OrderStatus) → is_cancelled s ≡ true → is_pending_order s ≡ false
not_pending pending h = ground (arith, h)
not_pending paid h = refl
not_pending processing h = refl
not_pending shipped h = refl
not_pending delivered h = refl
not_pending completed h = refl
not_pending cancelled h = refl
not_pending other_status h = refl

module _ (config : Config) (outside : Outside) (now : ℕ) where
  after_update-transfers :
      (o : Order) (p : Payout) (t : ℕ) (w : World) (r : Option Db)
      → 1 + transfer_count p.id w
        ≤ transfer_count p.id
            (after_update config outside now o p t
              (with_effect (transferred p.id p.amount t) w)
              r).1
  unfolding after_update HasTransfers transfer_count count_by
  after_update-transfers o p t w none = ground arith
  after_update-transfers o p t w (some db) =
      ended _ _
        (commit_all-Kept config outside now (HasTransfers p.id (1 + transfer_count p.id w))
          (HasTransfers p.id (1 + transfer_count p.id w)) (λ _ h. h) o p t
          (with_db db (with_effect (transferred p.id p.amount t) w))
          (HasTransfers-Keeps p.id (1 + transfer_count p.id w) outside o.id) (ground arith)).holds
    where
      ended :
          (a : Option Failure) (w' : World)
          → Ends
              (HasTransfers p.id (1 + transfer_count p.id w))
              (HasTransfers p.id (1 + transfer_count p.id w))
              a
              w'
          → HasTransfers p.id (1 + transfer_count p.id w) w'
      ended none w' h = h
      ended (some e) w' h = h

  -- The way through the handler.
  to_transfer :
      (intent t : ℕ) (o r : Order) (p : Payout) (w : World)
      → is_cancelled o.status ≡ false
      → find_order o.id w.db.orders ≡ some r
      → is_cancelled r.status ≡ true
      → get_by_order_id o.id w.db ≡ some p
      → p.status ≡ payout_pending
      → outside.create_transfer p ≡ some t
      → handle_order config outside now intent o w
        ≡ after_update config outside now o p t
            (with_effect (transferred p.id p.amount t) w)
            (write_payout config outside now p.id payout_completed (some t) w.db)
  unfolding handle_order set_paid after_set_paid after_paid by_payout by_status after_transfer
  to_transfer intent t o r p w l f c g e a =
      ap
        (λ b.
          if b
          then (none, w)
          else after_set_paid config outside now o w (set_paid o.id now intent w.db))
        l
      ∙ ap
          (λ row.
            after_set_paid config outside now o w (elim row as (λ _. Result Error (Unit {0} × Db)) [
              | none ↦ err statement_failed
              | some x ↦
                  if is_pending_order x.status
                  then ok (
                    tt,
                    record w.db { orders = update_order o.id (paid_with now intent) w.db.orders },
                  )
                  else err order_not_pending
            ]))
          f
      ∙ ap
          (λ b. after_set_paid config outside now o w (
            if b
            then ok
                (tt, record w.db { orders = update_order o.id (paid_with now intent) w.db.orders })
            else err order_not_pending))
          (not_pending r.status c)
      ∙ ap (by_payout config outside now o w) g
      ∙ ap (by_status config outside now o p w) e
      ∙ ap (after_transfer config outside now o p w) a

  -- Where an order is cancelled between the read of the orders and its turn in the loop, and its
  -- payout is still pending, Stripe is asked for the transfer, and the seller is paid for a cancelled
  -- order.
  pub handle_order-pays_cancelled :
      (intent t : ℕ) (o r : Order) (p : Payout) (w : World)
      → is_cancelled o.status ≡ false
      → find_order o.id w.db.orders ≡ some r
      → is_cancelled r.status ≡ true
      → get_by_order_id o.id w.db ≡ some p
      → p.status ≡ payout_pending
      → outside.create_transfer p ≡ some t
      → 1 + transfer_count p.id w
        ≤ transfer_count p.id (handle_order config outside now intent o w).1
  handle_order-pays_cancelled intent t o r p w l f c g e a =
      subst (λ x. 1 + transfer_count p.id w ≤ transfer_count p.id x.1)
        (sym (to_transfer intent t o r p w l f c g e a)) (after_update-transfers o p t w _)
