-- ===== src/Order/Payment/Once.antt =====
-- The transfers of payouts over many deliveries of the webhook, with cancellations in between
-- (backend/services/order/internal/app/order_service.go, `HandlePaymentSuccess`).
use ec_test.Base.{
  ℕ, ◌+◌, ◌≡◌, refl, sym, ap, subst, not, ◌<◌, ==_iff, Bool-cases, inl, inr, ◌≤◌, Bool, true, false,
  ◌&&◌, Option, none, some, List, [], ◌∷◌, ◌==◌, if◌then◌else◌, arith,
}
use ec_test.Base.Rows.{find_by, count_by, update_by, has, count-found}
use ec_test.Base.Ensures.{Ensures-pure, Ensures-case, Ensures-err}
use ec_test.Order.Cancellation.Domain.{
  Order, Payout, PayoutStatus, payout_pending, payout_completed, payout_failed,
}
use ec_test.Order.Cancellation.Store.{
  Db, is_some, update_payout, mark_reversed, reversed_at_time, ReversedPayout, approve_tx,
  mark_failed, pending_row, cancellable_row, find_request, find_order,
}
use ec_test.Order.Cancellation.Steps
use ec_test.Order.Cancellation.Steps.{IsClosed, IsMovable}
use ec_test.Order.Cancellation.Steps.Kept
use ec_test.Order.Cancellation.Writes.{
  create-Writes, reject-Writes, set_paid-Writes, update_status-Writes,
}
use ec_test.Order.Payment.Store.{update_payout_status, with_payout_status}
use ec_test.Order.Payment.Handler.{
  Config, Outside, Effect, transferred, coupon_committed, points_committed, order_paid,
  payout_completed_event, payout_failed_event, World, with_effect, with_db, handle_read,
}
use ec_test.Order.Payment.Keeps.{Keeps, AllKeep, is_effect_on, handle_read-keeps}

-- The end of a delivery, with the orders that it read at any time before, or a step of a
-- cancellation.
pub data Call : Type 0 where
  deliver : (config : Config) (outside : Outside) (now intent : ℕ) (orders : List Order) → Call
  elsewhere : (c : Steps.Call) → Call

unfoldable pub step : World → Call → World
unfolding handle_read Steps.step
step w (deliver config outside now intent orders) =
    (handle_read config outside now intent orders w).1
step w (elsewhere c) =
    with_db (Steps.step (record { db = w.db; stripe_calls = []; events = [] }) c).db w

unfoldable pub run : World → List Call → World
unfolding step
run w [] = w
run w (c ∷ cs) = run (step w c) cs

abbrev pub is_payout_pending : PayoutStatus → Bool
is_payout_pending payout_pending = true
is_payout_pending _ = false

found_db : (c : Bool) (y db : Db) → (if c then some y else none) ≡ some db → db ≡ y
found_db true y db h = sym (ap (λ o. elim o [ none ↦ y | some z ↦ z ]) h)
found_db false y db h = ground arith

pub updated_db :
    (id : ℕ) (s : PayoutStatus) (t : Option ℕ) (db db' : Db)
    → update_payout_status id s t db ≡ some db'
    → db'
      ≡ record db { payouts = update_by (has (λ p. p.id) id) (with_payout_status s t) db.payouts }
unfolding update_payout_status
updated_db id s t db db' h = found_db (is_some (find_by (has (λ p. p.id) id) db.payouts)) _ db' h

-- A pending payout with this id, and a transfer of it.
module _ (k : ℕ) where
  abbrev pub is_pending_with : Payout → Bool
  is_pending_with p = p.id == k && is_payout_pending p.status

  abbrev pub is_transfer_of : Effect → Bool
  is_transfer_of (transferred payout_id amount transfer) = payout_id == k
  is_transfer_of _ = false

  unfoldable pub pending_count : Db → ℕ
  unfolding count_by
  pending_count db = count_by is_pending_with db.payouts

  unfoldable pub transfer_count : World → ℕ
  unfolding count_by
  transfer_count w = count_by is_transfer_of w.effects

  -- Reversals and other statements never make a payout pending.
  update_payout-less :
      (id : ℕ) (r now : ℕ) (ps : List Payout)
      → count_by is_pending_with (update_payout id (reversed_at_time r now) ps)
        ≤ count_by is_pending_with ps
  unfolding count_by update_payout
  update_payout-less id r now [] = omega arith
  update_payout-less id r now (p ∷ ps) = ground (arith, update_payout-less id r now ps)

  mark_reversed-less :
      (now : ℕ) (vs : List ReversedPayout) (ps ps' : List Payout)
      → mark_reversed now vs ps ≡ some ps'
      → count_by is_pending_with ps' ≤ count_by is_pending_with ps
  unfolding mark_reversed
  mark_reversed-less now [] ps ps' h =
      let same : count_by is_pending_with ps ≡ count_by is_pending_with ps' =
        ap (λ o. elim o [ none ↦ 0 | some l ↦ count_by is_pending_with l ]) h in
      omega arith
  mark_reversed-less now (v ∷ vs) ps ps' h =
      let first = update_payout-less v.payout_id v.stripe_reversal_id now ps in
      let rest =
        mark_reversed-less now vs
          (update_payout v.payout_id (reversed_at_time v.stripe_reversal_id now) ps) ps' in
      ground (arith, h)

  with_status-less :
      (id : ℕ) (s : PayoutStatus) (t : Option ℕ) (ps : List Payout)
      → is_payout_pending s ≡ false
      → count_by is_pending_with (update_by (has (λ p. p.id) id) (with_payout_status s t) ps)
        ≤ count_by is_pending_with ps
  unfolding count_by update_by
  with_status-less id s t [] h = omega arith
  with_status-less id s t (p ∷ ps) h = ground (arith, with_status-less id s t ps)

  none_left :
      (id : ℕ) (t : Option ℕ) (ps : List Payout)
      → id ≡ k
      → count_by is_pending_with
          (update_by (has (λ p. p.id) id) (with_payout_status payout_completed t) ps)
        ≡ 0
  unfolding count_by update_by
  none_left id t [] h = refl
  none_left id t (p ∷ ps) h = ground (arith, none_left id t ps)

  -- Cancellations make no payout pending.
  IsClosed-pending : (n : ℕ) → IsClosed (λ db. pending_count db ≤ n)
  unfolding pending_count approve_tx mark_failed
  IsClosed-pending n = record {
    created = λ r db t h. create-Writes (λ db'. pending_count db' ≤ n) r db (λ _ _. h);
    rejected = λ id s c db h. reject-Writes (λ db'. pending_count db' ≤ n) id s c db h;
    failed = λ id db h. h;
    approved = λ i db h.
        Ensures-case (pending_row (find_request i.request_id db.requests)) _ _ (λ _. Ensures-err _)
          (λ r _.
            Ensures-case (cancellable_row (find_order i.order_id db.orders)) _ _
              (λ _. Ensures-err _)
              (λ o _.
                Ensures-case (mark_reversed i.processed_at i.reversed_payouts db.payouts) _ _
                  (λ _. Ensures-err _)
                  (λ ps e. Ensures-pure _ _ (
                    let less =
                      mark_reversed-less i.processed_at i.reversed_payouts db.payouts ps e in
                    omega arith))));
    paid = λ id now intent db h.
        set_paid-Writes (λ db'. pending_count db' ≤ n) id now intent db (λ _ _ _. h);
  }

  IsMovable-pending : (n : ℕ) → IsMovable (λ db. pending_count db ≤ n)
  unfolding pending_count
  IsMovable-pending n id next db h =
      update_status-Writes (λ db'. pending_count db' ≤ n) id next db h

  -- Transfers that were made and the payout still to be made count as at most one more than `n`.
  unfoldable IsOnce : ℕ → World → Type 0
  unfolding pending_count transfer_count
  IsOnce n w = transfer_count w + pending_count w.db ≤ 1 + n

  -- `m` allows for a transfer that is not written down.
  module _ (outside : Outside) (n m : ℕ) (le : n ≤ m)
      (lost : outside.writes_payout k ≡ false → n < m) where
    weaken : (w : World) → IsOnce n w → IsOnce m w
    unfolding IsOnce
    weaken w h = omega (arith, h, le)

    IsOnce-Keeps : (id : ℕ) → Keeps outside (IsOnce n) (IsOnce m) id
    unfolding IsOnce pending_count transfer_count update_payout_status count_by
    IsOnce-Keeps id = record {
      orders = λ f w e h. h;
      effects = λ e w own h. other_effect e w own h;
      failed = λ p db w f u h.
          let same = ap (λ d. d.payouts) (updated_db p.id payout_failed none w.db db u) in
          let less = with_status-less p.id payout_failed none w.db.payouts refl in
          let counts = ap (count_by is_pending_with) same in ground (arith, h);
      paid_out = λ p t db w f e u h.
          let same = ap (λ d. d.payouts) (updated_db p.id payout_completed (some t) w.db db u) in
          let counts = ap (count_by is_pending_with) same in
          let less = with_status-less p.id payout_completed (some t) w.db.payouts refl in
          let left = none_left p.id (some t) w.db.payouts in
          let status = ap is_payout_pending e in
          let there = count-found is_pending_with (has (λ x. x.order_id) id) w.db.payouts p f in
          ground (arith, h);
      unwritten = λ p t w f e d h. unrecorded p t w d h;
    }
      where
        other_effect :
            (e : Effect) (w : World)
            → is_effect_on id e ≡ true
            → IsOnce n w
            → IsOnce n (with_effect e w)
        other_effect (transferred payout_id amount transfer) w own h = ground (arith, own)
        other_effect (coupon_committed r o) w own h = ground (arith, h)
        other_effect (points_committed o) w own h = ground (arith, h)
        other_effect (order_paid o n) w own h = ground (arith, h)
        other_effect (payout_completed_event p o a t) w own h = ground (arith, h)
        other_effect (payout_failed_event p o) w own h = ground (arith, h)

        unrecorded :
            (p : Payout) (t : ℕ) (w : World)
            → outside.writes_payout p.id ≡ false
            → IsOnce n w
            → IsOnce m (with_effect (transferred p.id p.amount t) w)
        unrecorded p t w d h = elim (Bool-cases (p.id == k)) [
          | inl c ↦
              let more =
                lost (subst (λ x. outside.writes_payout x ≡ false) ((==_iff p.id k).0 c) d) in
              ground (arith, h)
          | inr c ↦ ground (arith, h, le)
        ]

    all_keep :
        (config : Config) (now : ℕ) (os : List Order)
        → AllKeep config outside now (IsOnce n) (IsOnce m) weaken os
    all_keep config now [] = tt
    all_keep config now (o ∷ os) = (λ _. IsOnce-Keeps o.id, all_keep config now os)

  -- The deliveries in which the database refuses the status of this payout.
  abbrev pub refuses : Call → Bool
  refuses (deliver config outside now intent orders) = not (outside.writes_payout k)
  refuses (elsewhere c) = false

  unfoldable pub refusal_count : List Call → ℕ
  unfolding count_by
  refusal_count cs = count_by refuses cs

  step-IsOnce :
      (n : ℕ) (w : World) (c : Call)
      → IsOnce n w
      → IsOnce ((if refuses c then 1 else 0) + n) (step w c)
  unfolding step IsOnce transfer_count
  step-IsOnce n w (deliver config outside now intent os) h =
      let m = (if not (outside.writes_payout k) then 1 else 0) + n in
      let le : n ≤ m = omega arith in
      let lost : outside.writes_payout k ≡ false → n < m = λ d. ground (arith, d) in
      handle_read-keeps config outside now (IsOnce n) (IsOnce m) (weaken outside n m le lost) intent
        os w (all_keep outside n m le lost config now os) h
  step-IsOnce n w (elsewhere c) h =
      let kept =
        Kept.step-keeps (IsClosed-pending (pending_count w.db)) c
          (record { db = w.db; stripe_calls = []; events = [] })
          (λ _. IsMovable-pending (pending_count w.db)) (omega arith) in
      omega (arith, h, kept)

  -- Deliveries come one after another, each with any answers from outside and with orders that it
  -- read at any time before, and any steps of cancellations come between them. A payout that was
  -- transferred at most once before, and if so is not pending, is transferred at most once more than
  -- there are deliveries in which the database refuses to write its status: where it takes the
  -- status, at most once in all.
  pub run-pays_once :
      (cs : List Call) (w : World)
      → transfer_count w + pending_count w.db ≤ 1
      → transfer_count (run w cs) ≤ 1 + refusal_count cs
  unfolding run IsOnce refusal_count count_by
  run-pays_once cs w h = below (run w cs) (run-IsOnce cs 0 w h)
    where
      below :
          (w' : World) → IsOnce (refusal_count cs + 0) w' → transfer_count w' ≤ 1 + refusal_count cs
      below w' o = omega arith

      run-IsOnce :
          (cs' : List Call) (n : ℕ) (w' : World)
          → IsOnce n w'
          → IsOnce (refusal_count cs' + n) (run w' cs')
      run-IsOnce [] n w' h' = omega (arith, h')
      run-IsOnce (c ∷ cs') n w' h' =
          let rest = run-IsOnce cs' _ (step w' c) (step-IsOnce n w' c h') in omega (arith, rest)
