-- ===== src/Order/Cancellation/Lookups.antt =====
-- Rows that are found are still found (backend/services/order/internal/cancellation/repository.go).
use ec_test.Base.{
  ℕ, ◌≡◌, refl, sym, ap, ◌∙◌, true, false, some, List, [], ◌∷◌, ◌==◌, Bool-cases, Option-cases, inl,
  inr, ==_iff, arith,
}
use ec_test.Order.Cancellation.Domain.{Order, Payout, CancellationRequest}
use ec_test.Order.Cancellation.Store.{
  find_order, find_request, ReversedPayout, find_payout, update_payout, reversed_at_time,
  mark_reversed, list_by_order_id, is_some,
}

pub find_request-id :
    (id : ℕ) (rs : List CancellationRequest) (r : CancellationRequest)
    → find_request id rs ≡ some r
    → r.id ≡ id
unfolding find_request
find_request-id id [] r h = cc
find_request-id id (x ∷ rs) r h = elim (Bool-cases (x.id == id)) [
  | inl here ↦
      let e : some x ≡ some r = rw here at h in
      let e' : x ≡ r = cc in sym (ap (λ y. y.id) e') ∙ (==_iff x.id id).0 here
  | inr later ↦ find_request-id id rs r (rw later at h)
]

pub find_order-id : (id : ℕ) (os : List Order) (o : Order) → find_order id os ≡ some o → o.id ≡ id
unfolding find_order
find_order-id id [] o h = cc
find_order-id id (x ∷ os) o h = elim (Bool-cases (x.id == id)) [
  | inl here ↦
      let e : some x ≡ some o = rw here at h in
      let e' : x ≡ o = cc in sym (ap (λ y. y.id) e') ∙ (==_iff x.id id).0 here
  | inr later ↦ find_order-id id os o (rw later at h)
]

abbrev pub AreKnown : List Payout → List Payout → Type 0
AreKnown [] qs = Unit {0}
AreKnown (p ∷ ps) qs = (is_some (find_payout p.id qs) ≡ true) × AreKnown ps qs

abbrev pub AreThere : List ReversedPayout → List Payout → Type 0
AreThere [] qs = Unit {0}
AreThere (v ∷ vs) qs = (is_some (find_payout v.payout_id qs) ≡ true) × AreThere vs qs

find_payout-cons :
    (id : ℕ) (q : Payout) (qs : List Payout)
    → is_some (find_payout id qs) ≡ true
    → is_some (find_payout id (q ∷ qs)) ≡ true
unfolding find_payout
find_payout-cons id q qs h = elim (Bool-cases (q.id == id)) [
  | inl here ↦ rw here refl
  | inr later ↦ rw later h
]

AreKnown-cons :
    (ps : List Payout) (q : Payout) (qs : List Payout) → AreKnown ps qs → AreKnown ps (q ∷ qs)
AreKnown-cons [] q qs h = tt
AreKnown-cons (p ∷ ps) q qs h = (find_payout-cons p.id q qs h.0, AreKnown-cons ps q qs h.1)

pub list_by_order_id-AreKnown :
    (order_id : ℕ) (ps : List Payout) → AreKnown (list_by_order_id order_id ps) ps
unfolding list_by_order_id find_payout
list_by_order_id-AreKnown order_id [] = tt
list_by_order_id-AreKnown order_id (p ∷ ps) =
    let rest =
      AreKnown-cons (list_by_order_id order_id ps) p ps (list_by_order_id-AreKnown order_id ps) in
    elim (Bool-cases (p.order_id == order_id)) [
      | inl mine ↦ rw mine (rw ((==_iff p.id p.id).1 refl) refl, rest)
      | inr other ↦ rw other rest
    ]

find-update_payout :
    (id j : ℕ) (f : Payout → Payout) (ps : List Payout)
    → ((p : Payout) → (f p).id ≡ p.id)
    → is_some (find_payout id ps) ≡ true
    → is_some (find_payout id (update_payout j f ps)) ≡ true
unfolding find_payout update_payout
find-update_payout id j f [] hf h = h
find-update_payout id j f (p ∷ ps) hf h = ground (arith, hf p, find-update_payout id j f ps hf)

AreThere-update :
    (vs : List ReversedPayout) (j : ℕ) (f : Payout → Payout) (ps : List Payout)
    → ((p : Payout) → (f p).id ≡ p.id)
    → AreThere vs ps
    → AreThere vs (update_payout j f ps)
AreThere-update [] j f ps hf h = tt
AreThere-update (v ∷ vs) j f ps hf h =
    (find-update_payout v.payout_id j f ps hf h.0, AreThere-update vs j f ps hf h.1)

pub mark_reversed-done :
    (now : ℕ) (vs : List ReversedPayout) (ps : List Payout)
    → AreThere vs ps
    → is_some (mark_reversed now vs ps) ≡ true
unfolding mark_reversed
mark_reversed-done now [] ps h = refl
mark_reversed-done now (v ∷ vs) ps h = elim (Option-cases (find_payout v.payout_id ps)) [
  | inl missing ↦ let lost : false ≡ true = sym (ap is_some missing) ∙ h.0 in cc
  | inr (p, found) ↦
      rw (mark_reversed, found)
        (mark_reversed-done now vs
          (update_payout v.payout_id (reversed_at_time v.stripe_reversal_id now) ps)
          (AreThere-update vs v.payout_id (reversed_at_time v.stripe_reversal_id now) ps (λ _. refl)
            h.1))
]
