-- ===== src/Order/Payment/Announced.antt =====
-- What a delivery has published for an order once its claim and its events are through
-- (backend/services/order/internal/app/order_service.go, `HandlePaymentSuccess`).
use ec_test.Base.{
  ℕ, ◌≡◌, refl, sym, ap, subst, ◌∙◌, Bool, true, false, not, ◌&&◌, ◌||◌, ◌==◌, Option, none, some,
  List, [], ◌∷◌, if◌then◌else◌, arith,
}
use ec_test.Base.Int.{ℤ, pos, ltb_ℤ}
use ec_test.Order.Cancellation.Domain.{
  Order, Payout, PayoutStatus, payout_pending, payout_completed, payout_failed, payout_reversed,
}
use ec_test.Order.Cancellation.Store.{Db, is_some, find_order, update_order}
use ec_test.Order.Payment.Store.{
  is_published, set_points_earned, stamped, claim_row, claim_paid_event, can_claim,
}
use ec_test.Order.Payment.Handler.{
  Config, Outside, Effect, order_paid, payout_completed_event, internal, Failure, World, Answer,
  publish_events, after_claim, claim_and_publish, after_points, commit_points, commit_reservation,
  commit_all, with_points,
}
use ec_test.Order.Payment.Keeps.{stamped_id}

find-update_same :
    (id : ℕ) (f : Order → Order) (os : List Order)
    → ((r : Order) → (f r).id ≡ r.id)
    → is_some (find_order id (update_order id f os)) ≡ is_some (find_order id os)
unfolding find_order update_order
find-update_same id f [] e = refl
find-update_same id f (o ∷ os) e = let same = e o in ground (arith, find-update_same id f os)

stamped-published : (now : ℕ) (r : Order) → is_some (stamped now r).paid_event_published_at ≡ true
stamped-published now r = by_stamp (is_some r.paid_event_published_at) refl
  where
    by_stamp :
        (c : Bool)
        → is_some r.paid_event_published_at ≡ c
        → is_some
            (if c
              then r
              else record r { paid_event_published_at = some now }).paid_event_published_at
          ≡ true
    by_stamp true e = e
    by_stamp false e = refl

marked :
    (id now : ℕ) (os : List Order)
    → is_some (find_order id os) ≡ true
    → is_published (find_order id (update_order id (stamped now) os)) ≡ true
unfolding find_order update_order
marked id now [] h = ground (arith, h)
marked id now (o ∷ os) h =
    let same = stamped_id now o in
    let done = stamped-published now o in ground (arith, marked id now os)

-- An UPDATE that does not stamp the row.
pub published_same :
    (id : ℕ) (f : Order → Order) (os : List Order)
    → ((r : Order) → (f r).id ≡ r.id)
    → ((r : Order) → is_some (f r).paid_event_published_at ≡ is_some r.paid_event_published_at)
    → is_published (find_order id (update_order id f os)) ≡ is_published (find_order id os)
unfolding find_order update_order
published_same id f [] e g = refl
published_same id f (o ∷ os) e g =
    let same = e o in let stamp = g o in ground (arith, published_same id f os e g)

-- Both events are the last that was done outside.
abbrev pub ends_published : ℕ → ℕ → List Effect → Bool
ends_published id pid (payout_completed_event p o a t ∷ order_paid o' n ∷ es) =
    p == pid && o == id && o' == id
ends_published id pid _ = false

-- The event was published before, or both events are published now, and the row says so if the
-- database took the mark.
abbrev pub is_announced : Outside → Order → Payout → Bool → World → Bool
is_announced outside o p before w =
    before
    || ends_published o.id p.id w.effects
      && (is_published (find_order o.id w.db.orders) || not (outside.marks o.id))

-- Whether the payout can be paid out now, or has been.
abbrev pub can_pay_out : Outside → Payout → PayoutStatus → Bool
can_pay_out outside p payout_pending = is_some (outside.create_transfer p)
can_pay_out outside p payout_completed = true
can_pay_out outside p payout_failed = false
can_pay_out outside p payout_reversed = false

-- Success means that the event of the order is published.
pub record IsDone (outside : Outside) (o : Order) (p : Payout) (before : Bool) (a : Answer)
    : Type 0 where
  pub holds : a.0 ≡ none → is_announced outside o p before a.1 ≡ true

module _ (config : Config) (outside : Outside) (now : ℕ) (p : Payout) (before : Bool) where
  pub fails : (o : Order) (e : Failure) (w : World) → IsDone outside o p before (some e, w)
  fails o e w = record { holds = λ h. ground arith }

  pub either :
      (o : Order) (c : Bool) (x y : Answer)
      → IsDone outside o p before x
      → IsDone outside o p before y
      → IsDone outside o p before (if c then x else y)
  either o true x y h g = h
  either o false x y h g = g

  both_published :
      (o : Order) (a b c : Bool)
      → b || not c ≡ true
      → (a || (p.id == p.id && o.id == o.id && o.id == o.id) && (b || not c)) ≡ true
  both_published o a b c h = ground (arith, h)

  publish_events-IsDone :
      (o : Order) (t : ℕ) (w : World)
      → is_some (find_order o.id w.db.orders) ≡ true
      → IsDone outside o p before (publish_events config outside now o p t w)
  unfolding publish_events
  publish_events-IsDone o t w h =
      either o (outside.publish_order_paid o.id) _ _
        (either o (outside.publish_payout_completed p.id) _ _
          record { holds = λ _. by_mark (outside.marks o.id) } (fails o _ _))
        (fails o _ _)
    where
      by_mark :
          (c : Bool)
          → (before
              || (p.id == p.id && o.id == o.id && o.id == o.id)
                && (is_published (
                      find_order o.id
                        (if c
                          then record w.db { orders = update_order o.id (stamped now) w.db.orders }
                          else w.db).orders)
                    || not c))
            ≡ true
      by_mark true =
          both_published o before
            (is_published (find_order o.id (update_order o.id (stamped now) w.db.orders))) true
            (ap (λ b. b || false) (marked o.id now w.db.orders h))
      by_mark false = ground arith

  already : before ≡ true → (c : Bool) → (before || c) ≡ true
  already h c = ground arith

  claimed-IsDone :
      (o : Order) (t : ℕ) (w : World) (row : Option Order)
      → find_order o.id w.db.orders ≡ row
      → is_published row ≡ before
      → IsDone outside o p before (
          after_claim config outside now o p t w
            (claim_row config.publish_claim_ttl o.id now row w.db))
  unfolding after_claim
  claimed-IsDone o t w none f s = fails o _ _
  claimed-IsDone o t w (some r) f s =
      by_claim (can_claim config.publish_claim_ttl now r) (is_some r.paid_event_published_at) refl
    where
      by_claim :
          (c b : Bool)
          → is_some r.paid_event_published_at ≡ b
          → IsDone outside o p before (
              after_claim config outside now o p t w (
                if c
                then (
                  (true, b),
                  record w.db {
                    orders =
                        update_order o.id
                          (λ r. record r { paid_event_claim_at = some now })
                          w.db.orders;
                  },
                )
                else ((false, b), w.db)))
      by_claim true b e = publish_events-IsDone o t _ (
          find-update_same o.id (λ r. record r { paid_event_claim_at = some now }) w.db.orders
            (λ _. refl)
          ∙ ap is_some f)
      by_claim false true e = record { holds = λ _. already (sym s ∙ e) _ }
      by_claim false false e = fails o _ _

  claim_and_publish-IsDone :
      (o : Order) (t : ℕ) (w : World)
      → o.paid_event_published_at ≡ none
      → is_published (find_order o.id w.db.orders) ≡ before
      → IsDone outside o p before (claim_and_publish config outside now o p t w)
  unfolding claim_and_publish claim_paid_event
  claim_and_publish-IsDone o t w n s =
      subst
        (λ x. IsDone outside o p before (
          if is_some x
          then (none, w)
          else if outside.claims o.id
          then after_claim config outside now o p t w
              (claim_paid_event config.publish_claim_ttl o.id now w.db)
          else (some internal, w)))
        (sym n)
        (either o (outside.claims o.id) _ _
          (claimed-IsDone o t w (find_order o.id w.db.orders) refl s) (fails o _ _))

  pointed-published :
      (o : Order) (earned : ℤ) (c : Bool) (db : Db)
      → is_published (find_order o.id db.orders) ≡ before
      → is_published (find_order o.id (if c then set_points_earned o.id earned db else db).orders)
        ≡ before
  pointed-published o earned true db s =
      published_same o.id (λ r. record r { points_earned = earned }) db.orders (λ _. refl)
        (λ _. refl)
      ∙ s
  pointed-published o earned false db s = s

  after_points-IsDone :
      (o : Order) (t : ℕ) (w : World) (points : Option ℤ)
      → o.paid_event_published_at ≡ none
      → is_published (find_order o.id w.db.orders) ≡ before
      → IsDone outside o p before (after_points config outside now o p t w points)
  unfolding after_points
  after_points-IsDone o t w none n s = fails o _ _
  after_points-IsDone o t w (some earned) n s =
      either o (ltb_ℤ (pos 0) earned) _ _
        (record {
          holds =
              (claim_and_publish-IsDone (with_points config outside now o earned) t _ n
                (pointed-published o earned (outside.writes_points o.id) w.db s)).holds;
        })
        (claim_and_publish-IsDone o t _ n s)

  commit_points-IsDone :
      (o : Order) (t : ℕ) (w : World)
      → o.paid_event_published_at ≡ none
      → is_published (find_order o.id w.db.orders) ≡ before
      → IsDone outside o p before (commit_points config outside now o p t w)
  unfolding commit_points
  commit_points-IsDone o t w n s =
      either o config.has_loyalty _ _ (after_points-IsDone o t w (outside.commit_points o) n s)
        (claim_and_publish-IsDone o t w n s)

  commit_reservation-IsDone :
      (o : Order) (t : ℕ) (w : World) (r : Option ℕ)
      → o.paid_event_published_at ≡ none
      → is_published (find_order o.id w.db.orders) ≡ before
      → IsDone outside o p before (commit_reservation config outside now o p t w r)
  unfolding commit_reservation
  commit_reservation-IsDone o t w none n s = commit_points-IsDone o t w n s
  commit_reservation-IsDone o t w (some r) n s =
      either o (outside.commit_coupon r o.id) _ _ (commit_points-IsDone o t _ n s) (fails o _ _)

  pub commit_all-IsDone :
      (o : Order) (t : ℕ) (w : World)
      → o.paid_event_published_at ≡ none
      → is_published (find_order o.id w.db.orders) ≡ before
      → IsDone outside o p before (commit_all config outside now o p t w)
  unfolding commit_all
  commit_all-IsDone o t w n s =
      either o config.has_coupons _ _ (commit_reservation-IsDone o t w o.coupon_reservation_id n s)
        (commit_points-IsDone o t w n s)
