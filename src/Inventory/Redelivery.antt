-- ===== src/Inventory/Redelivery.antt =====
-- A cancellation that is delivered again (`ReleaseStockForOrderCancellation` of
-- backend/services/inventory/internal/app/inventory_service.go).
use ec_test.Base.{
  ℕ, ◌≡◌, refl, ap, sym, ◌∙◌, Bool, true, false, List, [], ◌∷◌, ◌==◌, if◌then◌else◌, length,
  Bool-cases, ==_iff, inl, inr, ◌⊎◌,
}
use ec_test.Base.Int.{pos, leb_ℤ}
use ec_test.Base.Tx.{Result, ok, err, ◌>>◌, commit_or_roll_back}
use ec_test.Inventory.Store.{
  Db, M, Error, StockMovement, CancellationLine, has_cancellation, add_available, record_movement,
  cancellation_movement, release_lines, release_for_order_cancellation,
}
use ec_test.Inventory.Service.{Outcome, release_stock_for_order_cancellation, cancellation_outcome}

-- A movement for the cancellation of the order stands in the table.
abbrev Marked : ℕ → Db → Type 0
Marked order_id db = has_cancellation order_id db.stock_movements ≡ true

abbrev Post : {A : Type 0} → (Db → Type 0) → Result Error (A × Db) → Type 0
Post P (ok (a, db)) = P db
Post P (err e) = Unit {0}

-- What holds of the tables after a statement that does not fail.
record Ensures {A : Type 0} (P : Db → Type 0) (r : Result Error (A × Db)) : Type 0 where
  holds : Post P r

Ensures-bind :
    {A B : Type 0} {P Q : Db → Type 0} {r : Result Error (A × Db)}
    (k : A → Db → Result Error (B × Db))
    → Ensures P r
    → ((a : A) (db' : Db) → P db' → Ensures Q (k a db'))
    → Ensures Q (elim r [ ok (a, db') ↦ k a db' | err e ↦ err e ])
Ensures-bind {r = ok (a, db')} k h g = g a db' h.holds
Ensures-bind {r = err e} k h g = record { holds = tt }

Ensures-map :
    {A : Type 0} {P Q : Db → Type 0} {r : Result Error (A × Db)}
    → Ensures P r
    → ((db : Db) → P db → Q db)
    → Ensures Q r
Ensures-map {r = ok (a, db')} h g = record { holds = g db' h.holds }
Ensures-map {r = err e} h g = record { holds = tt }

if-Ensures :
    {A : Type 0} (P : Db → Type 0) (c : Bool) (f g : M A) (db : Db)
    → Ensures P (f db)
    → Ensures P (g db)
    → Ensures P ((if c then f else g) db)
if-Ensures P true f g db h k = h
if-Ensures P false f g db h k = k

if_body-Ensures :
    {A : Type 0} (P : Db → Type 0) (c : Bool) (x y : Result Error (A × Db))
    → Ensures P x
    → Ensures P y
    → Ensures P (if c then x else y)
if_body-Ensures P true x y h k = h
if_body-Ensures P false x y h k = k

any-Ensures : {A : Type 0} (r : Result Error (A × Db)) → Ensures (λ _. Unit {0}) r
any-Ensures (ok (a, db)) = record { holds = tt }
any-Ensures (err e) = record { holds = tt }

module _ (accepts : StockMovement → Bool) (order_id : ℕ) where
  record-Marked :
      (l : CancellationLine) (db : Db)
      → Ensures (Marked order_id) (record_movement accepts (cancellation_movement order_id l) db)
  unfolding record_movement has_cancellation
  record-Marked l db =
      if_body-Ensures (Marked order_id) (accepts (cancellation_movement order_id l)) _ _
        (record { holds = rw ((==_iff order_id order_id).1 refl) refl }) (record { holds = tt })

  -- A line that is released leaves a movement, if what follows keeps it.
  release_line-Marked :
      (l : CancellationLine) (rest : M (Unit {0})) (db : Db)
      → ((db' : Db) → Marked order_id db' → Ensures (Marked order_id) (rest db'))
      → Ensures (Marked order_id) (
          (add_available l.sku_id l.quantity
              >> (record_movement accepts (cancellation_movement order_id l) >> rest))
            db)
  release_line-Marked l rest db h =
      Ensures-bind _ (any-Ensures (add_available l.sku_id l.quantity db))
        (λ _ db' _. Ensures-bind _ (record-Marked l db') (λ _ db'' k. h db'' k))

  release_lines-Marked :
      (ls : List CancellationLine) (db : Db)
      → Marked order_id db
      → Ensures (Marked order_id) (release_lines accepts order_id ls db)
  unfolding release_lines
  release_lines-Marked [] db h = record { holds = h }
  release_lines-Marked (l ∷ ls) db h =
      if-Ensures (Marked order_id) (leb_ℤ l.quantity (pos 0)) _ _ db (release_lines-Marked ls db h)
        (release_line-Marked l _ db (release_lines-Marked ls))

  -- The loop changes nothing, or it leaves a movement.
  abbrev Traced : Db → Db → Type 0
  Traced before after = (after ≡ before) ⊎ Marked order_id after

  release_lines-Traced :
      (ls : List CancellationLine) (db : Db)
      → Ensures (Traced db) (release_lines accepts order_id ls db)
  unfolding release_lines
  release_lines-Traced [] db = record { holds = inl refl }
  release_lines-Traced (l ∷ ls) db =
      if-Ensures (Traced db) (leb_ℤ l.quantity (pos 0)) _ _ db (release_lines-Traced ls db)
        (Ensures-map (release_line-Marked l _ db (release_lines-Marked ls)) (λ _ h. inr h))

  abbrev success : Db → Outcome (Unit {0})
  success db = record { reply = ok tt; db = db; events = [] }

  -- The operation changes nothing, or it succeeds and leaves a movement.
  abbrev Settled : Db → Outcome (Unit {0}) → Type 0
  Settled db o = (o.db ≡ db) ⊎ ((after : Db) × (Marked order_id after × (o ≡ success after)))

  finish-Settled :
      (db : Db) (r : Result Error (Unit {0} × Db))
      → Ensures (Traced db) r
      → Settled db (
          cancellation_outcome accepts
            (commit_or_roll_back db (elim r [ ok (a, s) ↦ ok (false, s) | err e ↦ err e ])))
  finish-Settled db (err e) h = inl refl
  finish-Settled db (ok (a, after)) h = elim h.holds [
    | inl same ↦ inl same
    | inr marked ↦ inr (after, (marked, refl))
  ]

  module _ (lines : List CancellationLine) where
    -- A release whose movement stands succeeds and changes nothing.
    release_stock_again :
        (db : Db)
        → Marked order_id db
        → release_stock_for_order_cancellation accepts order_id lines db ≡ success db
    unfolding release_stock_for_order_cancellation release_for_order_cancellation
    release_stock_again db h = elim (Bool-cases (length lines == 0)) [
      | inl empty ↦ rw empty refl
      | inr some_lines ↦ rw (some_lines, h) refl
    ]

    release_stock-Settled :
        (db : Db) → Settled db (release_stock_for_order_cancellation accepts order_id lines db)
    unfolding release_stock_for_order_cancellation release_for_order_cancellation
    release_stock-Settled db = elim (Bool-cases (length lines == 0)) [
      | inl empty ↦ inl (rw empty refl)
      | inr some_lines ↦ elim (Bool-cases (has_cancellation order_id db.stock_movements)) [
        | inl marked ↦ inl (rw (some_lines, marked) refl)
        | inr fresh ↦
            rw (some_lines, fresh)
              (finish-Settled db (release_lines accepts order_id lines db)
                (release_lines-Traced lines db))
      ]
    ]

    -- Delivering a cancellation again, on the tables that the first delivery left, gives the same
    -- answer and leaves the tables as they are, whichever movements the database takes.
    pub release_stock_redelivered :
        (db : Db)
        → let first = release_stock_for_order_cancellation accepts order_id lines db in
          release_stock_for_order_cancellation accepts order_id lines first.db ≡ first
    release_stock_redelivered db = elim (release_stock-Settled db) [
      | inl same ↦ ap (release_stock_for_order_cancellation accepts order_id lines) same
      | inr (after, (marked, e)) ↦
          ap (λ o. release_stock_for_order_cancellation accepts order_id lines o.db) e
          ∙ release_stock_again after marked
          ∙ sym e
    ]
