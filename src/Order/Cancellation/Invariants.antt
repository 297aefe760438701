-- ===== src/Order/Cancellation/Invariants.antt =====
-- What holds whatever calls on orders and cancellation requests come in whatever order
-- (backend/services/order/internal/cancellation).
use ec_test.Base.{
  ℕ, ◌+◌, ◌≤◌, ◌≡◌, refl, sym, ap, subst, ◌∙◌, Bool, true, false, not, ◌&&◌, Option, none, some,
  List, [], ◌∷◌, ◌==◌, if◌then◌else◌, arith, Bool-cases, inl, inr, ==_iff,
}
use ec_test.Order.Cancellation.Domain.{
  pending, paid, processing, shipped, delivered, completed, cancelled, other_status, Order,
  CancellationRequest, OrderStatus, is_terminal, is_cancelled, is_pending_order,
}
use ec_test.Order.Cancellation.Store.{
  Db, find_order, find_request, has_pending, update_pending, rejected_by, fail_row, approved_by,
  update_order, cancelled_by, paid_with,
}
use ec_test.Order.Cancellation.Service.{World}
use ec_test.Order.Cancellation.Writes.{
  reject-Writes, failed-Writes, approve_tx-Writes, set_paid-Writes, update_status-Writes,
  create-Writes,
}
use ec_test.Order.Cancellation.Steps.{Call, run, IsClosed, any_writes_status}
use ec_test.Order.Cancellation.Steps.Kept.{run-keeps}

-- The number of pending requests of an order.
unfoldable pub count_pending : ℕ → List CancellationRequest → ℕ
count_pending order_id [] = 0
count_pending order_id (r ∷ rs) =
    (if r.order_id == order_id && not (is_terminal r.status) then 1 else 0)
    + count_pending order_id rs

count_pending-update :
    (order_id id : ℕ) (f : CancellationRequest → CancellationRequest)
    (rs : List CancellationRequest)
    → ((r : CancellationRequest) → is_terminal (f r).status ≡ true)
    → count_pending order_id (update_pending id f rs) ≤ count_pending order_id rs
unfolding count_pending update_pending
count_pending-update order_id id f [] h = omega arith
count_pending-update order_id id f (r ∷ rs) h =
    ground (arith, h r, count_pending-update order_id id f rs h)

count_pending-none :
    (order_id : ℕ) (rs : List CancellationRequest)
    → has_pending order_id rs ≡ false
    → count_pending order_id rs ≡ 0
unfolding count_pending has_pending
count_pending-none order_id [] h = refl
count_pending-none order_id (r ∷ rs) h = ground (arith, count_pending-none order_id rs)

module _ (order_id : ℕ) where
  abbrev HasAtMostOne : Db → Type 0
  HasAtMostOne db = count_pending order_id db.requests ≤ 1

  count_pending-created :
      (r : CancellationRequest) (rs : List CancellationRequest)
      → has_pending r.order_id rs ≡ false
      → count_pending order_id rs ≤ 1
      → count_pending order_id (r ∷ rs) ≤ 1
  unfolding count_pending
  count_pending-created r rs free h = elim (Bool-cases (r.order_id == order_id)) [
    | inl same ↦
        let zero =
          subst (λ o. count_pending o rs ≡ 0) ((==_iff r.order_id order_id).0 same)
            (count_pending-none r.order_id rs free) in
        ground arith
    | inr other ↦ rw other (omega arith)
  ]

  HasAtMostOne-IsClosed : IsClosed HasAtMostOne
  HasAtMostOne-IsClosed = record {
    created = λ r db p h.
        create-Writes HasAtMostOne r db (λ new free. count_pending-created r db.requests free h);
    rejected = λ id seller comment db h. reject-Writes HasAtMostOne id seller comment db (
        let less =
          count_pending-update order_id id (rejected_by seller comment) db.requests (λ _. refl) in
        omega arith);
    failed = λ id db h. failed-Writes HasAtMostOne id db (
        let less = count_pending-update order_id id fail_row db.requests (λ _. refl) in
        omega arith);
    approved = λ i db h. approve_tx-Writes HasAtMostOne i db (λ ps.
        let less =
          count_pending-update order_id i.request_id (approved_by i) db.requests (λ _. refl) in
        omega arith);
    paid = λ id now intent db h. set_paid-Writes HasAtMostOne id now intent db (λ _ _ _. h);
  }

  -- If an order has at most one pending request, then it has at most one after any calls, in
  -- whatever order the parts of approvals come, and whatever Stripe answers.
  pub count_pending-run :
      (cs : List Call) (w : World)
      → count_pending order_id w.db.requests ≤ 1
      → count_pending order_id (run w cs).db.requests ≤ 1
  count_pending-run cs w h =
      run-keeps HasAtMostOne-IsClosed cs w
        (λ _ id next db k. update_status-Writes HasAtMostOne id next db k) h

-- A terminal request that is found is not changed.
find-update_pending :
    (id j : ℕ) (f : CancellationRequest → CancellationRequest) (rs : List CancellationRequest)
    (r : CancellationRequest)
    → ((x : CancellationRequest) → (f x).id ≡ x.id)
    → find_request id rs ≡ some r
    → is_terminal r.status ≡ true
    → find_request id (update_pending j f rs) ≡ some r
unfolding find_request update_pending
find-update_pending id j f [] r h e t = cc
find-update_pending id j f (x ∷ rs) r h e t = elim (Bool-cases (x.id == id)) [
  | inl here ↦
      let found : x ≡ r = let e' = rw here at e in cc in
      let done : is_terminal x.status ≡ true = ap (λ y. is_terminal y.status) found ∙ t in
      elim (Bool-cases (x.id == j)) [
        | inl hit ↦ rw (hit, done, here) (ap some found)
        | inr miss ↦ rw (miss, here) (ap some found)
      ]
  | inr later ↦
      let rest = rw later at e in
      elim (Bool-cases (x.id == j)) [
        | inl hit ↦ elim (Bool-cases (is_terminal x.status)) [
          | inl done ↦ rw (hit, done, later) rest
          | inr open_still ↦ rw (hit, open_still, h x, later) rest
        ]
        | inr miss ↦ rw (miss, later) (find-update_pending id j f rs r h rest t)
      ]
]

module _ (id : ℕ) (r : CancellationRequest) (settled : is_terminal r.status ≡ true) where
  abbrev IsThere : Db → Type 0
  IsThere db = find_request id db.requests ≡ some r

  find-created :
      (x : CancellationRequest) (rs : List CancellationRequest)
      → find_request x.id rs ≡ none
      → find_request id rs ≡ some r
      → find_request id (x ∷ rs) ≡ some r
  unfolding find_request
  find-created x rs new h = elim (Bool-cases (x.id == id)) [
    | inl same ↦
        let lost : none ≡ some r =
          sym new ∙ ap (λ i. find_request i rs) ((==_iff x.id id).0 same) ∙ h in
        cc
    | inr other ↦ rw other h
  ]

  IsThere-IsClosed : IsClosed IsThere
  IsThere-IsClosed = record {
    created = λ x db p h. create-Writes IsThere x db (λ new _. find-created x db.requests new h);
    rejected = λ j seller comment db h.
        reject-Writes IsThere j seller comment db (
          find-update_pending id j (rejected_by seller comment) db.requests r (λ _. refl) h
            settled);
    failed = λ j db h.
        failed-Writes IsThere j db
          (find-update_pending id j fail_row db.requests r (λ _. refl) h settled);
    approved = λ i db h. approve_tx-Writes IsThere i db (λ ps.
        find-update_pending id i.request_id (approved_by i) db.requests r (λ _. refl) h settled);
    paid = λ j now intent db h. set_paid-Writes IsThere j now intent db (λ _ _ _. h);
  }

  -- A request that is approved, rejected or failed is still there unchanged after any calls.
  pub find_request-run :
      (cs : List Call) (w : World)
      → find_request id w.db.requests ≡ some r
      → find_request id (run w cs).db.requests ≡ some r
  find_request-run cs w h =
      run-keeps IsThere-IsClosed cs w (λ _ j next db k. update_status-Writes IsThere j next db k) h

abbrev pub is_cancelled_row : Option Order → Bool
is_cancelled_row none = false
is_cancelled_row (some o) = is_cancelled o.status

abbrev pub is_cancelled_order : ℕ → List Order → Bool
is_cancelled_order id os = is_cancelled_row (find_order id os)

-- An UPDATE that keeps a cancelled order cancelled, or goes to another order.
is_cancelled-update :
    (id j : ℕ) (f : Order → Order) (os : List Order)
    → ((o : Order) → (f o).id ≡ o.id)
    → ((o : Order)
        → find_order j os ≡ some o
        → is_cancelled o.status ≡ true
        → is_cancelled (f o).status ≡ true)
    → is_cancelled_order id os ≡ true
    → is_cancelled_order id (update_order j f os) ≡ true
unfolding find_order update_order
is_cancelled-update id j f [] hi hf h = h
is_cancelled-update id j f (o ∷ os) hi hf h = elim (Bool-cases (o.id == j)) [
  | inl hit ↦ elim (Bool-cases (o.id == id)) [
    | inl here ↦
        let here' = ap (λ i. i == id) (hi o) ∙ here in
        rw (hit, here') (hf o (rw hit refl) (rw here at h))
    | inr later ↦ let later' = ap (λ i. i == id) (hi o) ∙ later in rw (hit, later') (rw later at h)
  ]
  | inr miss ↦ elim (Bool-cases (o.id == id)) [
    | inl here ↦ rw (miss, here) (rw here at h)
    | inr later ↦
        rw (miss, later)
          (is_cancelled-update id j f os hi (λ x e. hf x (rw miss e)) (rw later at h))
  ]
]

not_both : (s : OrderStatus) → is_pending_order s ≡ true → is_cancelled s ≡ true → ⊥
not_both pending p c = let bad : false ≡ true = c in cc
not_both paid p c = let bad : false ≡ true = p in cc
not_both processing p c = let bad : false ≡ true = p in cc
not_both shipped p c = let bad : false ≡ true = p in cc
not_both delivered p c = let bad : false ≡ true = p in cc
not_both completed p c = let bad : false ≡ true = p in cc
not_both cancelled p c = let bad : false ≡ true = p in cc
not_both other_status p c = let bad : false ≡ true = p in cc

module _ (id : ℕ) where
  abbrev IsCancelled : Db → Type 0
  IsCancelled db = is_cancelled_order id db.orders ≡ true

  IsCancelled-IsClosed : IsClosed IsCancelled
  IsCancelled-IsClosed = record {
    created = λ r db p h. create-Writes IsCancelled r db (λ _ _. h);
    rejected = λ j seller comment db h. reject-Writes IsCancelled j seller comment db h;
    failed = λ j db h. failed-Writes IsCancelled j db h;
    approved = λ i db h. approve_tx-Writes IsCancelled i db (λ ps.
        is_cancelled-update id i.order_id (cancelled_by i) db.orders (λ _. refl) (λ _ _ _. refl) h);
    paid = λ j now intent db h. set_paid-Writes IsCancelled j now intent db (λ o f p.
        is_cancelled-update id j (paid_with now intent) db.orders (λ _. refl)
          (λ x e c.
            let same : o ≡ x = let path : some o ≡ some x = sym f ∙ e in cc in
            elim (not_both x.status (ap (λ y. is_pending_order y.status) (sym same) ∙ p) c) [ ])
          h);
  }

  -- A cancelled order is still cancelled after any calls of which none writes a status without a
  -- condition on it: payments that arrive late, and other requests and approvals, included.
  pub is_cancelled-run :
      (cs : List Call) (w : World)
      → any_writes_status cs ≡ false
      → is_cancelled_order id w.db.orders ≡ true
      → is_cancelled_order id (run w cs).db.orders ≡ true
  is_cancelled-run cs w quiet h =
      run-keeps IsCancelled-IsClosed cs w (λ loud. let bad : true ≡ false = sym loud ∙ quiet in cc)
        h
