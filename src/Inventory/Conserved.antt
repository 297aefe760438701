-- ===== src/Inventory/Conserved.antt =====
-- No stock is made or lost by the operations on held stock
-- (backend/services/inventory/internal/app/inventory_service.go).
use ec_test.Base.{
  ℕ, ◌≡◌, sym, Bool, true, false, List, [], ◌∷◌, ◌==◌, if◌then◌else◌, Bool-cases, inl, inr,
}
use ec_test.Base.Int.{ℤ, pos, ◌+ℤ◌, ◌<ℤ◌, ◌≈ℤ◌, leb_ℤ, leb_ℤ→lt, int_laws}
use ec_test.Base.Tx.{Result, ok, err, commit_or_roll_back}
use ec_test.Inventory.Store.{Db, Error, invalid_quantity, conflict, StockMovement, record_movement}
use ec_test.Inventory.Service.{
  Outcome, Event, after_write, log_movement, reserve_stock, release_stock, confirm_sold,
}
use ec_test.Inventory.Counts.{
  available, held, IsStocked, Moved, Ensures, part, reserve-Ensures, release_held-Ensures,
  confirm-Ensures,
}

pub data Call : Type 0 where
  reserving releasing selling : ℕ → ℤ → Call

abbrev succeeded : Result Error (Unit {0}) → Bool
succeeded (ok _) = true
succeeded (err _) = false

module _ (accepts : StockMovement → Bool) where
  unfoldable pub outcome_of : Call → Db → Outcome (Unit {0})
  outcome_of (reserving sku q) db = reserve_stock accepts sku q db
  outcome_of (releasing sku q) db = release_stock accepts sku q db
  outcome_of (selling sku q) db = confirm_sold accepts sku q db

  unfoldable pub run : List Call → Db → Db
  unfolding outcome_of
  run [] db = db
  run (c ∷ cs) db = run cs (outcome_of c db).db

  abbrev sold_by : ℕ → Call → ℤ
  sold_by sku (selling k q) = if k == sku then q else pos 0
  sold_by sku _ = pos 0

  -- The units of a SKU that the calls have sold.
  unfoldable pub sold_units : ℕ → List Call → Db → ℤ
  unfolding outcome_of
  sold_units sku [] db = pos 0
  sold_units sku (c ∷ cs) db =
      (if succeeded (outcome_of c db).reply then sold_by sku c else pos 0)
      +ℤ sold_units sku cs (outcome_of c db).db

log-Moved :
    (accepts : StockMovement → Bool) (sku : ℕ) (sold : ℤ) (m : StockMovement) (before db : Db)
    → Moved sku sold before db
    → Moved sku sold before (log_movement accepts m db)
unfolding log_movement record_movement
log-Moved accepts sku sold m before db h = elim (Bool-cases (accepts m)) [
  | inl taken ↦
      rw (taken, log_movement, record_movement)
        (record {
          conserved = h.conserved;
          stocked = record {
            some_available = h.stocked.some_available;
            some_held = h.stocked.some_held;
          };
        })
  | inr refused ↦ rw (refused, log_movement, record_movement) h
]

-- What a call does, whatever it answers.
record Called (sku : ℕ) (sold : ℤ) (before : Db) (o : Outcome (Unit {0})) : Type 0 where
  moved : Moved sku (if succeeded o.reply then sold else pos 0) before o.db

unmoved : (sku : ℕ) (db : Db) → IsStocked sku db → Moved sku (pos 0) db db
unmoved sku db h = record { conserved = omega int_laws; stocked = h }

after_write-Called :
    (accepts : StockMovement → Bool) (e : Error) (m : StockMovement) (es : List Event) (sku : ℕ)
    (sold : ℤ) (before : Db) {r : Result Error (Unit {0} × Db)}
    → IsStocked sku before
    → Ensures sku sold before r
    → Called sku sold before (after_write accepts e m es (commit_or_roll_back before r))
after_write-Called accepts e m es sku sold before {r = ok (tt, after)} h k = record {
  moved = log-Moved accepts sku sold m before after k.holds;
}
after_write-Called accepts e m es sku sold before {r = err e'} h k = record {
  moved = unmoved sku before h;
}

add_up :
    (after sold_now sold_later between before : ℤ)
    → after +ℤ sold_later ≡ between
    → between +ℤ sold_now ≈ℤ before
    → after +ℤ (sold_now +ℤ sold_later) ≡ before
add_up after sold_now sold_later between before h k = let k' = rw (sym h) at k in omega int_laws

module _ (accepts : StockMovement → Bool) (sku : ℕ) where
  -- A quantity that is not positive is refused before the tables are read.
  positive-Called :
      (q sold : ℤ) (db : Db) (o : Outcome (Unit {0}))
      → IsStocked sku db
      → (pos 0 <ℤ q → Called sku sold db o)
      → Called sku sold db (
          if leb_ℤ q (pos 0)
          then record { reply = err invalid_quantity; db = db; events = [] }
          else o)
  positive-Called q sold db o h k = elim (Bool-cases (leb_ℤ q (pos 0))) [
    | inl refused ↦ rw refused (record { moved = unmoved sku db h })
    | inr positive ↦ rw positive (k (leb_ℤ→lt q (pos 0) positive))
  ]

  outcome_of-Called :
      (c : Call) (db : Db)
      → IsStocked sku db
      → Called sku (sold_by accepts sku c) db (outcome_of accepts c db)
  unfolding outcome_of reserve_stock release_stock confirm_sold part
  outcome_of-Called (reserving k q) db h =
      let stock = positive-Called q (pos 0) db _ h (λ p.
        after_write-Called accepts conflict _ _ sku (pos 0) db h
          (reserve-Ensures sku k q p db h)) in
      record { moved = stock.moved }
  outcome_of-Called (releasing k q) db h = positive-Called q (pos 0) db _ h (λ p.
      after_write-Called accepts conflict _ _ sku (pos 0) db h
        (release_held-Ensures sku k q p db h))
  outcome_of-Called (selling k q) db h =
      positive-Called q _ db _ h
        (λ p. after_write-Called accepts conflict _ _ sku _ db h (confirm-Ensures sku k q p db h))

  -- From tables where no count of the SKU is below zero, after any sequence of calls that reserve,
  -- release and sell, whatever they answered: no count is below zero, and the units available, the
  -- units held and the units sold add up to the units that were available or held before.
  pub run_conserves :
      (calls : List Call) (db : Db)
      → IsStocked sku db
      → IsStocked sku (run accepts calls db)
        × (available sku (run accepts calls db)
              +ℤ held sku (run accepts calls db)
              +ℤ sold_units accepts sku calls db
            ≡ available sku db +ℤ held sku db)
  unfolding run sold_units
  run_conserves [] db h = (h, omega int_laws)
  run_conserves (c ∷ cs) db h =
      let first = (outcome_of-Called c db h).moved in
      let rest = run_conserves cs (outcome_of accepts c db).db first.stocked in
      (rest.0, add_up _ _ _ _ _ rest.1 first.conserved)
