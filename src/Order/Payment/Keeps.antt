-- ===== src/Order/Payment/Keeps.antt =====
-- When the payment webhook keeps a property of the tables and of what was done outside, or ends on
-- an error with another property
-- (backend/services/order/internal/app/order_service.go).
use ec_test.Base.{
  ℕ, ◌≡◌, refl, Bool, true, false, Option, none, some, List, [], ◌∷◌, ◌==◌, if◌then◌else◌, arith,
}
use ec_test.Base.Int.{ℤ, pos, ltb_ℤ}
use ec_test.Base.Tx.{ok, err}
use ec_test.Base.Rows.{find_by, has, absent-one}
use ec_test.Order.Cancellation.Domain.{
  Order, Payout, PayoutStatus, payout_pending, payout_completed, payout_failed, payout_reversed,
  is_cancelled, is_pending_order,
}
use ec_test.Order.Cancellation.Store.{
  Db, order_not_pending, statement_failed, is_some, set_paid, find_order, update_order, paid_with,
}
use ec_test.Order.Payment.Store.{
  get_by_order_id, update_payout_status, claim_row, claim_paid_event, can_claim, stamped,
}
use ec_test.Order.Payment.Handler.{
  Config, Outside, Effect, transferred, coupon_committed, points_committed, order_paid,
  payout_completed_event, payout_failed_event, World, Answer, with_effect, with_db, publish_events,
  after_claim, claim_and_publish, after_points, commit_points, commit_reservation, commit_all,
  after_update, write_payout, after_transfer, by_status, by_payout, after_paid, after_set_paid,
  handle_order, handle_orders, handle_read, with_points, db_or, Failure,
}

-- The order of an effect that is not a transfer.
abbrev pub is_effect_on : ℕ → Effect → Bool
is_effect_on id (transferred payout_id amount transfer) = false
is_effect_on id (coupon_committed reservation_id order_id) = order_id == id
is_effect_on id (points_committed order_id) = order_id == id
is_effect_on id (order_paid order_id points_earned) = order_id == id
is_effect_on id (payout_completed_event payout_id order_id amount transfer) = order_id == id
is_effect_on id (payout_failed_event payout_id order_id) = order_id == id

-- The statements and effects on one order keep `P`, and where a transfer cannot be written down, `Q`
-- holds.
pub record Keeps (outside : Outside) (P Q : World → Type 0) (id : ℕ) : Type 0 where
  pub orders :
      (f : Order → Order) (w : World)
      → ((r : Order) → (f r).id ≡ r.id)
      → P w
      → P (with_db (record w.db { orders = update_order id f w.db.orders }) w)
  pub effects : (e : Effect) (w : World) → is_effect_on id e ≡ true → P w → P (with_effect e w)
  pub failed :
      (p : Payout) (db : Db) (w : World)
      → get_by_order_id id w.db ≡ some p
      → update_payout_status p.id payout_failed none w.db ≡ some db
      → P w
      → P (with_db db w)
  pub paid_out :
      (p : Payout) (t : ℕ) (db : Db) (w : World)
      → get_by_order_id id w.db ≡ some p
      → p.status ≡ payout_pending
      → update_payout_status p.id payout_completed (some t) w.db ≡ some db
      → P w
      → P (with_db db (with_effect (transferred p.id p.amount t) w))
  pub unwritten :
      (p : Payout) (t : ℕ) (w : World)
      → get_by_order_id id w.db ≡ some p
      → p.status ≡ payout_pending
      → outside.writes_payout p.id ≡ false
      → P w
      → Q (with_effect (transferred p.id p.amount t) w)

-- `P` where the loop goes on, and `Q` where it ends on an error.
abbrev pub Ends : (World → Type 0) → (World → Type 0) → Option Failure → World → Type 0
Ends P Q none w = P w
Ends P Q (some e) w = Q w

pub record Kept (P Q : World → Type 0) (a : Answer) : Type 0 where
  pub holds : Ends P Q a.0 a.1

same : (n : ℕ) → (n == n) ≡ true
same n = ground arith

pub stamped_id : (now : ℕ) (r : Order) → (stamped now r).id ≡ r.id
stamped_id now r =
    elim (is_some r.paid_event_published_at)
      as (λ b. (if b then r else record r { paid_event_published_at = some now }).id ≡ r.id) [
        | true ↦ refl
        | false ↦ refl
      ]

not_updated :
    (id : ℕ) (status : PayoutStatus) (t : Option ℕ) (db : Db)
    → update_payout_status id status t db ≡ none
    → find_by (has (λ p. p.id) id) db.payouts ≡ none
unfolding update_payout_status
not_updated id status t db h = ground (arith, h)

module _ (config : Config) (outside : Outside) (now : ℕ) (P Q : World → Type 0)
    (weaken : (w : World) → P w → Q w) where
  stays : (a : Option Failure) (w : World) → P w → Kept P Q (a, w)
  stays none w h = record { holds = h }
  stays (some e) w h = record { holds = weaken w h }

  -- A statement whose failure is only logged.
  orders_if :
      (id : ℕ) (c : Bool) (f : Order → Order) (w : World)
      → Keeps outside P Q id
      → ((r : Order) → (f r).id ≡ r.id)
      → P w
      → P (with_db (if c then record w.db { orders = update_order id f w.db.orders } else w.db) w)
  orders_if id true f w k e h = k.orders f w e h
  orders_if id false f w k e h = h

  either : (c : Bool) (x y : Answer) → Kept P Q x → Kept P Q y → Kept P Q (if c then x else y)
  either true x y h g = h
  either false x y h g = g

  unless :
      (c : Bool) (x y : Answer)
      → Kept P Q x
      → (c ≡ false → Kept P Q y)
      → Kept P Q (if c then x else y)
  unless true x y h g = h
  unless false x y h g = g refl

  publish_events-Kept :
      (o : Order) (p : Payout) (t : ℕ) (w : World)
      → Keeps outside P Q o.id
      → P w
      → Kept P Q (publish_events config outside now o p t w)
  unfolding publish_events
  publish_events-Kept o p t w k h =
      let paid = order_paid o.id o.points_earned in
      either (outside.publish_order_paid o.id) _ _
        (either (outside.publish_payout_completed p.id) _ _
          (stays _ _ (
            k.effects (payout_completed_event p.id o.id p.amount t) _ (same o.id) (
              k.effects (order_paid o.id o.points_earned) _ (same o.id)
                (orders_if o.id (outside.marks o.id) (stamped now) w k (stamped_id now) h))))
          (stays _ _ (k.effects (order_paid o.id o.points_earned) w (same o.id) h)))
        (stays _ w h)

  module _ (o : Order) (p : Payout) (t : ℕ) (w : World) (k : Keeps outside P Q o.id) (h : P w) where
    claimed-Kept :
        (row : Option Order)
        → Kept P Q (
            after_claim config outside now o p t w
              (claim_row config.publish_claim_ttl o.id now row w.db))
    unfolding after_claim
    claimed-Kept none = stays _ w h
    claimed-Kept (some r) =
        by_claim (can_claim config.publish_claim_ttl now r) (is_some r.paid_event_published_at)
      where
        by_claim :
            (c b : Bool)
            → Kept P Q (
                after_claim config outside now o p t w (
                  if c
                  then (
                    (true, b),
                    record w.db {
                      orders =
                          update_order o.id
                            (λ r. record r { paid_event_claim_at = some now })
                            w.db.orders;
                    },
                  )
                  else ((false, b), w.db)))
        by_claim true b =
            publish_events-Kept o p t _ k
              (k.orders (λ r. record r { paid_event_claim_at = some now }) w (λ _. refl) h)
        by_claim false true = stays _ w h
        by_claim false false = stays _ w h

    claim_and_publish-Kept : Kept P Q (claim_and_publish config outside now o p t w)
    unfolding claim_and_publish claim_paid_event
    claim_and_publish-Kept = either (is_some o.paid_event_published_at) _ _ (stays _ w h) (
        either (outside.claims o.id) _ _ (claimed-Kept (find_order o.id w.db.orders)) (stays _ w h))

  after_points-Kept :
      (o : Order) (p : Payout) (t : ℕ) (w : World) (points : Option ℤ)
      → Keeps outside P Q o.id
      → P w
      → Kept P Q (after_points config outside now o p t w points)
  unfolding after_points
  after_points-Kept o p t w none k h = stays _ w h
  after_points-Kept o p t w (some earned) k h =
      either (ltb_ℤ (pos 0) earned) _ _
        (claim_and_publish-Kept (with_points config outside now o earned) p t _ k (
          k.effects (points_committed o.id) _ (same o.id) (
            orders_if o.id (outside.writes_points o.id) (λ r. record r { points_earned = earned }) w
              k (λ _. refl) h)))
        (claim_and_publish-Kept o p t _ k (k.effects (points_committed o.id) w (same o.id) h))

  commit_points-Kept :
      (o : Order) (p : Payout) (t : ℕ) (w : World)
      → Keeps outside P Q o.id
      → P w
      → Kept P Q (commit_points config outside now o p t w)
  unfolding commit_points
  commit_points-Kept o p t w k h =
      either config.has_loyalty _ _ (after_points-Kept o p t w (outside.commit_points o) k h)
        (claim_and_publish-Kept o p t w k h)

  commit_reservation-Kept :
      (o : Order) (p : Payout) (t : ℕ) (w : World) (r : Option ℕ)
      → Keeps outside P Q o.id
      → P w
      → Kept P Q (commit_reservation config outside now o p t w r)
  unfolding commit_reservation
  commit_reservation-Kept o p t w none k h = commit_points-Kept o p t w k h
  commit_reservation-Kept o p t w (some r) k h =
      either (outside.commit_coupon r o.id) _ _
        (commit_points-Kept o p t _ k (k.effects (coupon_committed r o.id) w (same o.id) h))
        (stays _ w h)

  pub commit_all-Kept :
      (o : Order) (p : Payout) (t : ℕ) (w : World)
      → Keeps outside P Q o.id
      → P w
      → Kept P Q (commit_all config outside now o p t w)
  unfolding commit_all
  commit_all-Kept o p t w k h =
      either config.has_coupons _ _ (commit_reservation-Kept o p t w o.coupon_reservation_id k h)
        (commit_points-Kept o p t w k h)

  after_transfer-Kept :
      (o : Order) (p : Payout) (w : World) (answer : Option ℕ)
      → Keeps outside P Q o.id
      → get_by_order_id o.id w.db ≡ some p
      → p.status ≡ payout_pending
      → P w
      → Kept P Q (after_transfer config outside now o p w answer)
  unfolding after_transfer write_payout
  after_transfer-Kept o p w none k f e h = stays _ _ (
      k.effects (payout_failed_event p.id o.id) _ (same o.id) (
        failed_db (outside.writes_payout p.id) (update_payout_status p.id payout_failed none w.db)
          refl))
    where
      failed_db :
          (c : Bool) (r : Option Db)
          → update_payout_status p.id payout_failed none w.db ≡ r
          → P (with_db (db_or config outside now w.db (if c then r else none)) w)
      failed_db false r g = h
      failed_db true none g = h
      failed_db true (some db) g = k.failed p db w f g h
  after_transfer-Kept o p w (some t) k f e h =
      paid_db (outside.writes_payout p.id) refl
        (update_payout_status p.id payout_completed (some t) w.db) refl
    where
      paid_db :
          (c : Bool)
          → outside.writes_payout p.id ≡ c
          → (r : Option Db) → update_payout_status p.id payout_completed (some t) w.db ≡ r
          → Kept P Q (
              after_update config outside now o p t
                (with_effect (transferred p.id p.amount t) w)
                (if c then r else none))
      paid_db false d r g = record { holds = k.unwritten p t w f e d h }
      paid_db true d none g =
          let missing = not_updated p.id payout_completed (some t) w.db g in
          let no_row =
            absent-one (has (λ x. x.id) p.id) (has (λ x. x.order_id) o.id) w.db.payouts p missing
              f in
          let one = same p.id in record { holds = ground arith }
      paid_db true d (some db) g = commit_all-Kept o p t _ k (k.paid_out p t db w f e g h)

  by_status-Kept :
      (o : Order) (p : Payout) (w : World) (s : PayoutStatus)
      → Keeps outside P Q o.id
      → get_by_order_id o.id w.db ≡ some p
      → p.status ≡ s
      → P w
      → Kept P Q (by_status config outside now o p w s)
  unfolding by_status
  by_status-Kept o p w payout_pending k f e h =
      after_transfer-Kept o p w (outside.create_transfer p) k f e h
  by_status-Kept o p w payout_completed k f e h = commit_all-Kept o p _ w k h
  by_status-Kept o p w payout_failed k f e h = stays _ w h
  by_status-Kept o p w payout_reversed k f e h = stays _ w h

  by_payout-Kept :
      (o : Order) (w : World) (found : Option Payout)
      → Keeps outside P Q o.id
      → get_by_order_id o.id w.db ≡ found
      → P w
      → Kept P Q (by_payout config outside now o w found)
  unfolding by_payout
  by_payout-Kept o w none k f h = stays _ w h
  by_payout-Kept o w (some p) k f h = by_status-Kept o p w p.status k f refl h

  after_paid-Kept :
      (o : Order) (w : World)
      → Keeps outside P Q o.id
      → P w
      → Kept P Q (after_paid config outside now o w)
  unfolding after_paid
  after_paid-Kept o w k h = by_payout-Kept o w (get_by_order_id o.id w.db) k refl h

  after_set_paid-Kept :
      (intent : ℕ) (o : Order) (w : World) (row : Option Order)
      → Keeps outside P Q o.id
      → P w
      → Kept P Q (
          after_set_paid config outside now o w (elim row [
            | none ↦ err statement_failed
            | some r ↦
                if is_pending_order r.status
                then ok (
                  tt,
                  record w.db { orders = update_order o.id (paid_with now intent) w.db.orders },
                )
                else err order_not_pending
          ]))
  unfolding after_set_paid
  after_set_paid-Kept intent o w none k h = stays _ w h
  after_set_paid-Kept intent o w (some r) k h =
      elim (is_pending_order r.status)
        as (λ b. Kept P Q (
          after_set_paid config outside now o w (
            if b
            then ok
                (tt, record w.db { orders = update_order o.id (paid_with now intent) w.db.orders })
            else err order_not_pending))) [
              | true ↦ after_paid-Kept o _ k (k.orders (paid_with now intent) w (λ _. refl) h)
              | false ↦ after_paid-Kept o w k h
            ]

  handle_order-Kept :
      (intent : ℕ) (o : Order) (w : World)
      → (is_cancelled o.status ≡ false → Keeps outside P Q o.id)
      → P w
      → Kept P Q (handle_order config outside now intent o w)
  unfolding handle_order set_paid
  handle_order-Kept intent o w k h =
      unless (is_cancelled o.status) _ _ (stays _ w h)
        (λ c. after_set_paid-Kept intent o w (find_order o.id w.db.orders) (k c) h)

  -- The orders of a loop that are not cancelled keep the property.
  abbrev pub AllKeep : List Order → Type 0
  AllKeep [] = Unit {0}
  AllKeep (o ∷ os) = (is_cancelled o.status ≡ false → Keeps outside P Q o.id) × AllKeep os

  handle_orders-Kept :
      (intent : ℕ) (os : List Order) (w : World)
      → AllKeep os
      → P w
      → Q (handle_orders config outside now intent os w).1
  unfolding handle_orders
  handle_orders-Kept intent [] w k h = weaken w h
  handle_orders-Kept intent (o ∷ os) w k h =
      by_answer (handle_order config outside now intent o w)
        (handle_order-Kept intent o w k.0 h).holds (λ w' h'. handle_orders-Kept intent os w' k.1 h')
    where
      by_answer :
          (a : Answer)
          → Ends P Q a.0 a.1
          → ((w' : World) → P w' → Q (handle_orders config outside now intent os w').1)
          → Q
              (elim a.0 as (λ _. Answer) [
                | none ↦ handle_orders config outside now intent os a.1
                | some e ↦ (some e, a.1)
              ]).1
      by_answer (none, w') h' next = next w' h'
      by_answer (some e, w') h' next = h'

  pub handle_read-keeps :
      (intent : ℕ) (os : List Order) (w : World)
      → AllKeep os
      → P w
      → Q (handle_read config outside now intent os w).1
  unfolding handle_read
  handle_read-keeps intent [] w k h = weaken w h
  handle_read-keeps intent (o ∷ os) w k h = handle_orders-Kept intent (o ∷ os) w k h
