-- ===== src/Order/Cancellation/Approval.antt =====
-- The end of an approval (`finalizeApproval` of
-- backend/services/order/internal/cancellation/service.go, and `ApproveTx` of its repository.go).
use ec_test.Base.{
  ℕ, ◌≡◌, refl, ap, subst, Bool, true, false, not, ◌&&◌, Option, none, some, List, [], ◌∷◌, ◌==◌,
  if◌then◌else◌, Bool-cases, Option-cases, inl, inr,
}
use ec_test.Base.Int.{ℤ, pos, eqb_ℤ}
use ec_test.Base.Tx.{Result, ok, err}
use ec_test.Base.Ensures.{Ensures, Ensures-case, Ensures-pure, Ensures-err}
use ec_test.Order.Cancellation.Domain.{
  Order, Payout, PayoutStatus, CancellationRequest, approved, payout_reversed, is_terminal,
}
use ec_test.Order.Cancellation.Store.{
  Db, Error, order_not_cancellable, find_order, find_request, update_pending, pending_row,
  mark_failed, ReversedPayout, ApprovalTxInput, approved_by, approve_tx, update_order, cancelled_by,
  returned, cancellable_row, find_payout, is_some, update_payout, reversed_at_time, mark_reversed,
}
use ec_test.Order.Cancellation.Service.{
  World, Event, order_cancelled, publish, finish_approval, fail_request, is_status_changed,
  approve_error, cancelled_event, cancellation_approved,
}
use ec_test.Order.Cancellation.Invariants.{is_cancelled_order}

abbrev is_reversed_status : PayoutStatus → Bool
is_reversed_status payout_reversed = true
is_reversed_status _ = false

abbrev is_reversed_row : Option Payout → Bool
is_reversed_row none = false
is_reversed_row (some p) = is_reversed_status p.status

abbrev is_reversed : ℕ → List Payout → Bool
is_reversed id ps = is_reversed_row (find_payout id ps)

abbrev pub AreReversed : List ReversedPayout → List Payout → Type 0
AreReversed [] ps = Unit {0}
AreReversed (v ∷ vs) ps = (is_reversed v.payout_id ps ≡ true) × AreReversed vs ps

is_reversed-update :
    (id j reversal now : ℕ) (ps : List Payout)
    → is_reversed id ps ≡ true
    → is_reversed id (update_payout j (reversed_at_time reversal now) ps) ≡ true
unfolding find_payout update_payout
is_reversed-update id j reversal now [] h = h
is_reversed-update id j reversal now (p ∷ ps) h = elim (Bool-cases (p.id == j)) [
  | inl hit ↦ elim (Bool-cases (p.id == id)) [
    | inl here ↦ rw (hit, here) refl
    | inr later ↦ rw (hit, later) (rw later at h)
  ]
  | inr miss ↦ elim (Bool-cases (p.id == id)) [
    | inl here ↦ rw (miss, here) (rw here at h)
    | inr later ↦ rw (miss, later) (is_reversed-update id j reversal now ps (rw later at h))
  ]
]

update-is_reversed :
    (id reversal now : ℕ) (ps : List Payout) (p : Payout)
    → find_payout id ps ≡ some p
    → is_reversed id (update_payout id (reversed_at_time reversal now) ps) ≡ true
unfolding find_payout update_payout
update-is_reversed id reversal now [] p h = cc
update-is_reversed id reversal now (x ∷ ps) p h = elim (Bool-cases (x.id == id)) [
  | inl here ↦ rw (here, here) refl
  | inr later ↦ rw (later, later) (update-is_reversed id reversal now ps p (rw later at h))
]

-- The loop reverses each payout that it is given, and leaves reversed ones so.
mark_reversed-AreReversed :
    (now : ℕ) (vs : List ReversedPayout) (ps ps' : List Payout)
    → mark_reversed now vs ps ≡ some ps'
    → AreReversed vs ps' × ((id : ℕ) → is_reversed id ps ≡ true → is_reversed id ps' ≡ true)
unfolding mark_reversed
mark_reversed-AreReversed now [] ps ps' h =
    let same : ps ≡ ps' = cc in (tt, λ id r. subst (λ x. is_reversed id x ≡ true) same r)
mark_reversed-AreReversed now (v ∷ vs) ps ps' h = elim (Option-cases (find_payout v.payout_id ps)) [
  | inl missing ↦ let lost : none ≡ some ps' = rw (mark_reversed, missing) at h in cc
  | inr (p, found) ↦
      let next = update_payout v.payout_id (reversed_at_time v.stripe_reversal_id now) ps in
      let rest = mark_reversed-AreReversed now vs next ps' (rw (mark_reversed, found) at h) in
      (
        (
          rest.1 v.payout_id (update-is_reversed v.payout_id v.stripe_reversal_id now ps p found),
          rest.0,
        ),
        λ id r. rest.1 id (is_reversed-update id v.payout_id v.stripe_reversal_id now ps r),
      )
]

find-approved :
    (i : ApprovalTxInput) (id : ℕ) (rs : List CancellationRequest) (r : CancellationRequest)
    → pending_row (find_request id rs) ≡ some r
    → find_request id (update_pending id (approved_by i) rs) ≡ some (approved_by i r)
unfolding find_request update_pending
find-approved i id [] r h = cc
find-approved i id (x ∷ rs) r h = elim (Bool-cases (x.id == id)) [
  | inl here ↦ elim (Bool-cases (is_terminal x.status)) [
    | inl done ↦ let lost : none ≡ some r = rw (here, done) at h in cc
    | inr still ↦
        let e : some x ≡ some r = rw (here, still) at h in
        rw (here, still, here) (ap (λ y. some (approved_by i y)) (let e' : x ≡ r = cc in e'))
  ]
  | inr later ↦ rw (later, later) (find-approved i id rs r (rw later at h))
]

update-is_cancelled :
    (i : ApprovalTxInput) (id : ℕ) (os : List Order) (o : Order)
    → cancellable_row (find_order id os) ≡ some o
    → is_cancelled_order id (update_order id (cancelled_by i) os) ≡ true
unfolding find_order update_order
update-is_cancelled i id [] o h = cc
update-is_cancelled i id (x ∷ os) o h = elim (Bool-cases (x.id == id)) [
  | inl here ↦ rw (here, here) refl
  | inr later ↦ rw (later, later) (update-is_cancelled i id os o (rw later at h))
]

abbrev IsApproved : ApprovalTxInput → CancellationRequest → Db → Type 0
IsApproved i r db =
    (find_request i.request_id db.requests ≡ some r)
    × (r.status ≡ approved)
    × (r.stripe_refund_id ≡ some i.stripe_refund_id)
    × (is_cancelled_order i.order_id db.orders ≡ true)
    × AreReversed i.reversed_payouts db.payouts

approve_tx-IsApproved :
    (i : ApprovalTxInput) (db : Db) → Ensures (λ a db'. IsApproved i a.0 db') (approve_tx i db)
unfolding approve_tx
approve_tx-IsApproved i db =
    Ensures-case (pending_row (find_request i.request_id db.requests)) _ _ (λ _. Ensures-err _)
      (λ r pending.
        Ensures-case (cancellable_row (find_order i.order_id db.orders)) _ _ (λ _. Ensures-err _)
          (λ o open_still.
            Ensures-case (mark_reversed i.processed_at i.reversed_payouts db.payouts) _ _
              (λ _. Ensures-err _)
              (λ ps done.
                Ensures-pure (approved_by i r, returned (cancelled_by i o)) _
                  (
                    find-approved i i.request_id db.requests r pending,
                    refl,
                    refl,
                    update-is_cancelled i i.order_id db.orders o open_still,
                    (mark_reversed-AreReversed i.processed_at i.reversed_payouts db.payouts ps
                        done).0,
                  ))))

-- Everything is written, or no order, no payout and no event is.
abbrev pub IsWhole : ApprovalTxInput → World → Result Error CancellationRequest × World → Type 0
IsWhole i w (ok r, w') = IsApproved i r w'.db
IsWhole i w (err e, w') =
    (w'.db.orders ≡ w.db.orders) × (w'.db.payouts ≡ w.db.payouts) × (w'.events ≡ w.events)

-- A cancelled order's event with nothing to give back.
abbrev is_bare : Event → Bool
is_bare (order_cancelled id coupon points earned reservation) =
    eqb_ℤ coupon (pos 0)
    && eqb_ℤ points (pos 0)
    && eqb_ℤ earned (pos 0)
    && not (is_some reservation)
is_bare _ = true

unfoldable pub all_bare : List Event → Bool
all_bare [] = true
all_bare (e ∷ es) = is_bare e && all_bare es

approve_tx-bare :
    (i : ApprovalTxInput) (db : Db)
    → Ensures (λ a _. is_bare (cancelled_event a.1) ≡ true) (approve_tx i db)
unfolding approve_tx
approve_tx-bare i db =
    Ensures-case (pending_row (find_request i.request_id db.requests)) _ _ (λ _. Ensures-err _)
      (λ r _.
        Ensures-case (cancellable_row (find_order i.order_id db.orders)) _ _ (λ _. Ensures-err _)
          (λ o _.
            Ensures-case (mark_reversed i.processed_at i.reversed_payouts db.payouts) _ _
              (λ _. Ensures-err _)
              (λ ps _. Ensures-pure (approved_by i r, returned (cancelled_by i o)) _ refl)))

module _ (i : ApprovalTxInput) (amount : ℤ) (w : World) where
  -- The answers to the transaction at the end of an approval.
  abbrev announced : CancellationRequest → Order → Db → Result Error CancellationRequest × World
  announced r o db = (
    ok r,
    publish (cancelled_event o)
        (publish (cancellation_approved r.id o.id amount) (record w { db = db })),
  )

  abbrev refused : Error → Result Error CancellationRequest × World
  refused e =
      if is_status_changed e
      then fail_request i.request_id order_not_cancellable w
      else (err (approve_error e), w)

  pub finish_approval_cases :
      (P : Result Error CancellationRequest × World → Type 0)
      {Q : CancellationRequest × Order → Db → Type 0}
      → Ensures Q (approve_tx i w.db)
      → ((r : CancellationRequest) (o : Order) (db : Db) → Q (r, o) db → P (announced r o db))
      → ((e : Error) → P (refused e))
      → P (finish_approval i amount w)
  unfolding finish_approval
  finish_approval_cases P {Q} h g f = by_result (approve_tx i w.db) h
    where
      by_result :
          (x : Result Error ((CancellationRequest × Order) × Db))
          → Ensures Q x
          → P (elim x as (λ _. Result Error CancellationRequest × World) [
            | ok ((r, o), db) ↦ announced r o db
            | err e ↦ refused e
          ])
      by_result (ok ((r, o), db)) e = g r o db e.holds
      by_result (err x) e = f x

  refused-keeps :
      (P : Result Error CancellationRequest × World → Type 0) (e : Error)
      → P (fail_request i.request_id order_not_cancellable w)
      → P (err (approve_error e), w)
      → P (refused e)
  refused-keeps P e h k = elim (Bool-cases (is_status_changed e)) [
    | inl changed ↦ rw changed h
    | inr other ↦ rw other k
  ]

  failed-IsWhole : IsWhole i w (fail_request i.request_id order_not_cancellable w)
  unfolding mark_failed
  failed-IsWhole = (refl, refl, refl)

  -- The end of an approval, whatever the tables are by then: if it answers with a request, then
  -- that row is approved and has the refund, the order is cancelled, and all payouts that Stripe
  -- reversed are reversed; if it fails, then it leaves the orders, the payouts and the events as
  -- they were.
  pub finish_approval-IsWhole : IsWhole i w (finish_approval i amount w)
  finish_approval-IsWhole =
      finish_approval_cases (IsWhole i w) (approve_tx-IsApproved i w.db) (λ r o db done. done)
        (λ e. refused-keeps (IsWhole i w) e failed-IsWhole (refl, refl, refl))

  -- If no event of a cancelled order carries a discount, points or a coupon reservation, then none
  -- does after the end of an approval, whatever the order has.
  pub finish_approval-bare :
      all_bare w.events ≡ true → all_bare (finish_approval i amount w).1.events ≡ true
  unfolding all_bare
  finish_approval-bare h =
      finish_approval_cases (λ x. all_bare x.1.events ≡ true) (approve_tx-bare i w.db)
        (λ r o db bare. rw bare h) (λ e. refused-keeps (λ x. all_bare x.1.events ≡ true) e h h)
